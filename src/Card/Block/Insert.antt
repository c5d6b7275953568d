-- ===== src/Card/Block/Insert.antt =====
-- `insert_block_into` as a whole.
use holder_core.Common.{
  ℕ, zero, suc, ◌+◌, ◌≡◌, refl, Option, [], ◌∷◌, ◌++◌, arith, take, ◌≤◌, Text, drop, map, ap,
  length, ◌≢◌, length-append, ◌∙◌, map-append,
}
use holder_core.Common.Int.{ℤ}
use holder_core.Card.{Floats, Card}
use holder_core.Card.Repo.{Cards}
use holder_core.Card.Result.{Result, ok, err, out_of_fuel}
use holder_core.Card.Block.{respace, insert_block_into}
use holder_core.Card.Block.Respace.{
  ids, Stamped, respace-Placed, respace-ends, Placed, ChangesStamped, respace-Stamped,
}

module _ (F : Floats) where
  open F use {Double}

  abbrev under_parent : Option Text → Cards F → Cards F
  under_parent parent = map {A = Card Double} (λ c. record c { parent_card_id = parent })

  ids-under_parent :
      (parent : Option Text) (cs : Cards F) → ids F (under_parent parent cs) ≡ ids F cs
  ids-under_parent parent [] = refl
  ids-under_parent parent (c ∷ cs) = ap (◌∷◌ c.card_id) (ids-under_parent parent cs)

  abbrev grown : Cards F → ℕ → Option Text → Cards F → Cards F
  grown d at parent block = take at d ++ (under_parent parent block ++ drop at d)

  length-take-le : (n : ℕ) (d : Cards F) → n ≤ length d → length (take n d) ≡ n
  length-take-le zero d le = refl
  length-take-le (suc n) [] le = absurd (omega arith)
  length-take-le (suc n) (c ∷ cs) le = ap suc (length-take-le n cs (omega arith))

  at-le-grown :
      (d : Cards F) (at : ℕ) (parent : Option Text) (block : Cards F)
      → at ≤ length d
      → at ≤ length (grown d at parent block)
  at-le-grown d at parent block le = omega (
    arith,
    length-append (take at d) (under_parent parent block ++ drop at d),
    length-take-le at d le,
  )

  -- what an insertion that succeeds has done
  abbrev pub Inserted : Cards F → ℕ → Cards F → ℤ → Result (Cards F × Cards F) → Type 0
  Inserted d at block t (ok (changed, written)) =
      (ids F written ≡ ids F (take at d) ++ (ids F block ++ ids F (drop at d)))
      × Stamped F t changed
  Inserted d at block t (err e) = e ≢ out_of_fuel

  Placed-Inserted :
      (d : Cards F) (at : ℕ) (block : Cards F) (parent : Option Text) (t : ℤ) (block_end : ℕ)
      (r : Result (Cards F × Cards F))
      → Placed F at block_end t (grown d at parent block) r
      → r ≢ err out_of_fuel
      → Inserted d at block t r
  Placed-Inserted d at block parent t block_end (err e) p n = λ z. n (ap err z)
  Placed-Inserted d at block parent t block_end (ok (changed, written)) p n = (
    p.0
        ∙ map-append _ (take at d) (under_parent parent block ++ drop at d)
        ∙ ap (λ x. ids F (take at d) ++ x)
            (map-append _ (under_parent parent block) (drop at d)
              ∙ ap (λ x. x ++ ids F (drop at d)) (ids-under_parent parent block)),
    p.1,
  )

  -- Inserting a block that is not empty at a position of the destination ends. If it succeeds,
  -- the destination holds the cards it held, in order, with the block's cards at the position,
  -- and every card that is returned as changed carries the new time.
  pub insert_block_into-Inserted :
      (d : Cards F) (at : ℕ) (block : Cards F) (parent : Option Text) (t : ℤ)
      → at ≤ length d
      → block ≢ []
      → Inserted d at block t (insert_block_into F d at block parent t)
  insert_block_into-Inserted d at [] parent t le ne = absurd (ne refl)
  insert_block_into-Inserted d at (b ∷ bs) parent t le ne =
      let g = grown d at parent (b ∷ bs) in
      let end : ℕ = at + length (under_parent parent (b ∷ bs)) in
      let fits = at-le-grown d at parent (b ∷ bs) le in
      unfold insert_block_into in
      Placed-Inserted d at (b ∷ bs) parent t end (respace F (length g + 2) g at end t 0)
        (respace-Placed F at end t (length g + 2) g 0 (omega arith) fits)
        (respace-ends F at end t (length g + 2) g 0 (omega arith) fits (omega arith) (omega arith))

  -- without a bound on the position
  pub insert_block_into-Stamped :
      (d : Cards F) (at : ℕ) (block : Cards F) (parent : Option Text) (t : ℤ)
      → ChangesStamped F at (at + length block) t (insert_block_into F d at block parent t)
  unfolding insert_block_into
  insert_block_into-Stamped d at [] parent t = tt
  insert_block_into-Stamped d at (b ∷ bs) parent t =
      respace-Stamped F at _ t _ (grown d at parent (b ∷ bs)) 0
