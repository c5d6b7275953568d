-- ===== src/Card/Lifecycle/Lands.antt =====
-- Where a restored card lands, and what the changes of its siblings carry.
use holder_core.Common.{
  ℕ, ◌≤◌, ◌≡◌, ◌≢◌, refl, inl, inr, false, Option, none, some, [], ◌∷◌, Text, text_eq, All, length,
  arith, Bool-cases, ap, sym, subst,
}
use holder_core.Common.Int.{ℤ}
use holder_core.Card.{Floats, Card}
use holder_core.Card.Repo.{Cards}
use holder_core.Card.Result.{MoveError, Result, ok, err, out_of_fuel, ◌>>=◌, bind_succeeds}
use holder_core.Card.Hierarchy.{reachable_card_parent, siblings}
use holder_core.Card.Hierarchy.Reach.{LiveUp, reachable_card_parent-Reachable}
use holder_core.Card.Hierarchy.Fuel.{reachable_card_parent_ends}
use holder_core.Card.Block.{insert_block_into}
use holder_core.Card.Block.Respace.{Stamped}
use holder_core.Card.Block.Insert.{Inserted, insert_block_into-Inserted}
use holder_core.Card.Lifecycle.{
  lower_bound, siblings_without, take_key, collides, restore_into, restored_card_placement,
  promote_into, promoted_card_children,
}

err-eq {ℓ} : {A : Type ℓ} {x y : MoveError} → (e : Path (Result A) (err x) (err y)) → x ≡ y
err-eq e = cc

module _ (F : Floats) (t : ℤ) where
  open F use {Double}

  pub lower_bound-le-length :
      (cs : Cards F) (anchor : Card Double) → lower_bound F cs anchor ≤ length cs
  unfolding lower_bound
  lower_bound-le-length [] anchor = omega arith
  lower_bound-le-length (c ∷ cs) anchor = let ih = lower_bound-le-length cs anchor in ground arith

  cons-ne-nil : (c : Card Double) (cs : Cards F) → c ∷ cs ≢ []
  cons-ne-nil c cs e = cc

  placed-Stamped :
      (destination : Cards F) (anchor c : Card Double) (cs : Cards F) (parent : Option Text)
      (placed : Cards F × Cards F)
      → insert_block_into F destination (lower_bound F destination anchor) (c ∷ cs) parent t
        ≡ ok placed
      → Stamped F t placed.0
  placed-Stamped destination anchor c cs parent placed h =
      (subst (Inserted F destination (lower_bound F destination anchor) (c ∷ cs) t) h (
        insert_block_into-Inserted F destination (lower_bound F destination anchor) (c ∷ cs) parent
          t (lower_bound-le-length destination anchor) (cons-ne-nil c cs))).1

  -- what a restored card and the changes say, for the card that came in
  abbrev pub Lands : Card Double → Card Double × Cards F → Type 0
  Lands r (r', changes) =
      (r'.card_id ≡ r.card_id)
      × (r'.parent_card_id ≡ r.parent_card_id)
      × All (λ c. (text_eq c.card_id r.card_id ≡ false) × (c.updated_at ≡ t)) changes

  take_key-Lands : (r : Card Double) (cs : Cards F) → Stamped F t cs → Lands r (take_key F r cs)
  unfolding take_key
  take_key-Lands r [] s = (refl, refl, tt)
  take_key-Lands r (c ∷ cs) s = elim (Bool-cases (text_eq c.card_id r.card_id)) [
    | inl b ↦ rw (b, take_key) (take_key-Lands (record r { sort_key = c.sort_key }) cs s.1)
    | inr b ↦
        let (i, p, rest) = take_key-Lands r cs s.1 in rw (b, take_key) (i, p, ((b, s.0), rest))
  ]

  restore_into-Lands :
      (repo : Cards F) (r : Card Double) (out : Card Double × Cards F)
      → restore_into F repo r t ≡ ok out
      → Lands r out
  unfolding restore_into
  restore_into-Lands repo r out h =
      elim (Bool-cases (collides F r (siblings_without F repo r r.card_id))) [
        | inr b ↦ subst (Lands r) (ok-eq (rw b at h)) (refl, refl, tt)
        | inl b ↦
            let destination = siblings_without F repo r r.card_id in
            let (placed, e, k) =
              bind_succeeds
                (insert_block_into F destination (lower_bound F destination r) (r ∷ [])
                  r.parent_card_id t)
                (λ p. ok (take_key F r p.0)) out (rw b at h) in
            subst (Lands r) (ok-eq k) (
              take_key-Lands r placed.0
                (placed-Stamped destination r r [] r.parent_card_id placed e))
      ]
    where
      ok-eq : {x y : Card Double × Cards F} → Result.ok x ≡ ok y → x ≡ y
      ok-eq e = cc

  module _ (repo : Cards F) (restored : Card Double) (r : Card Double) (changes : Cards F) where
    -- If `restored_card_placement` succeeds, the restored card keeps its ID and its new parent is
    -- the top level or a card that browsing from the roots of the project reaches, and each
    -- change it returns is of another card and carries the new time.
    pub restored_card_placement-Lands :
        restored_card_placement F repo restored t ≡ ok (r, changes)
        → LiveUp F repo restored.project_id r.parent_card_id
          × ((r.card_id ≡ restored.card_id)
              × All
                  (λ c. (text_eq c.card_id restored.card_id ≡ false) × (c.updated_at ≡ t))
                  changes)
    unfolding restored_card_placement
    restored_card_placement-Lands h =
        let (parent, e, k) =
          bind_succeeds (reachable_card_parent F repo restored)
            (λ p. restore_into F repo (record restored { parent_card_id = p }) t) (r, changes) h in
        let (i, p, c) =
          restore_into-Lands repo (record restored { parent_card_id = parent }) (r, changes) k in
        (subst (LiveUp F repo restored.project_id) (sym p) (up parent e), (i, c))
      where
        up :
            (o : Option Text)
            → reachable_card_parent F repo restored ≡ ok o
            → LiveUp F repo restored.project_id o
        up none e = tt
        up (some q) e = reachable_card_parent-Reachable F repo restored q e

  promoted_ends :
      (w : Result (Cards F × Cards F)) (d : Cards F) (at : ℕ) (block : Cards F)
      → Inserted F d at block t w
      → (w >>= λ placed. ok (placed.0)) ≢ err out_of_fuel
  promoted_ends (err e) d at block n h = n (err-eq h)
  promoted_ends (ok placed) d at block n h = cc

  promote_into_ends :
      (repo : Cards F) (parent : Card Double) (destination_parent : Option Text)
      (children : Cards F)
      → promote_into F repo parent t destination_parent children ≢ err out_of_fuel
  unfolding promote_into
  promote_into_ends repo parent destination_parent [] h = cc
  promote_into_ends repo parent destination_parent (c ∷ cs) h =
      let anchor = record parent { parent_card_id = destination_parent } in
      let destination = siblings_without F repo anchor parent.card_id in
      let at = lower_bound F destination anchor in
      promoted_ends (insert_block_into F destination at (c ∷ cs) destination_parent t) destination
        at (c ∷ cs)
        (insert_block_into-Inserted F destination at (c ∷ cs) destination_parent t
          (lower_bound-le-length destination anchor) (cons-ne-nil c cs))
        h

  -- `promoted_card_children` ends on every table, whatever card is trashed: neither the walk up
  -- nor the loop that spaces the keys runs out of the fuel of the model.
  pub promoted_card_children_ends :
      (repo : Cards F) (parent : Card Double)
      → promoted_card_children F repo parent t ≢ err out_of_fuel
  unfolding promoted_card_children
  promoted_card_children_ends repo parent h =
      go (reachable_card_parent F repo parent) (reachable_card_parent_ends F repo parent) h
    where
      children : Cards F
      children = siblings F repo (record parent { parent_card_id = some parent.card_id })

      go :
          (w : Result (Option Text))
          → w ≢ err out_of_fuel
          → (w >>= λ p. promote_into F repo parent t p children) ≢ err out_of_fuel
      go (err e) n k = n (ap err (err-eq k))
      go (ok p) n k = promote_into_ends repo parent p children k
