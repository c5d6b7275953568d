-- ===== src/Card/Repair/Ends.antt =====
-- The repair of a hierarchy is planned on every table.
use holder_core.Common.{
  ℕ, zero, suc, ◌≤◌, ◌<◌, ◌≡◌, ◌≢◌, refl, inl, inr, Option, none, some, List, [], ◌∷◌, arith, Text,
  contains, length, Bool-cases, Option-cases, ap,
}
use holder_core.Common.Int.{ℤ}
use holder_core.Card.{Floats, Card, is_deleted}
use holder_core.Card.Repo.{Cards, get, list_all}
use holder_core.Card.Result.{Result, ok, err, ◌>>=◌, out_of_fuel, MoveError}
use holder_core.Card.Hierarchy.Fuel.{unvisited, unvisited-le, unvisited-get}
use holder_core.Card.Block.{insert_block_into}
use holder_core.Card.Block.Insert.{Inserted, insert_block_into-Inserted}
use holder_core.Card.Lifecycle.Lands.{lower_bound-le-length}
use holder_core.Card.Repair.{
  Walked, meet, walk_up, scan_cards, Anchored, Group, place, place_anchored, place_rest,
  place_group, place_groups, plan_from, plan_hierarchy_repair, by_id_from, anchored_of, children_at,
  unanchored_of, group_heads,
}

-- the model's loops do not run out of fuel
abbrev Ends : {A : Type 0} → Result A → Type 0
Ends {A} r = (r ≡ err out_of_fuel) → ⊥

same_error : {A : Type 0} {e e' : MoveError} → Path (Result A) (err e) (err e') → e ≡ e'
same_error z = cc

Ends-bind :
    {A B : Type 0} (m : Result A) (f : A → Result B)
    → Ends m
    → ((a : A) → Ends (f a))
    → Ends (m >>= f)
Ends-bind {A} {B} (err e) f h k = λ z. h (ap err (same_error {A = B} z))
Ends-bind (ok a) f h k = k a

Ends-ok : {A : Type 0} (a : A) → Ends (ok a)
Ends-ok a h = cc

module _ (F : Floats) where
  open F use {Double}

  meet-Ends :
      (next : List Text → Option Text → Option Text → Cards F → Result (Walked F))
      (visited : List Text) (id : Text) (destination : Option Text) (met : Cards F)
      (o : Option (Card Double))
      → ((a : Card Double)
          → o ≡ some a
          → (n d : Option Text) (m : Cards F) → Ends (next (id ∷ visited) n d m))
      → Ends (meet F next visited id destination met o)
  unfolding meet
  meet-Ends next visited id destination met none ih h = cc
  meet-Ends next visited id destination met (some a) ih h = ih a refl _ _ _ h

  walk_up-Ends :
      (fuel : ℕ) (by_id : Cards F) (visited : List Text) (next destination : Option Text)
      (met : Cards F)
      → unvisited F visited by_id < fuel
      → Ends (walk_up F fuel by_id visited next destination met)
  unfolding walk_up
  walk_up-Ends zero by_id visited next destination met lt h = absurd (omega (arith, lt))
  walk_up-Ends (suc fuel) by_id visited none destination met lt h = cc
  walk_up-Ends (suc fuel) by_id visited (some id) destination met lt h =
      elim (Bool-cases (contains id visited)) [
        | inl b ↦ cc (rw b at h)
        | inr b ↦
            meet-Ends (walk_up F fuel by_id) visited id destination met (get F by_id id)
              (λ a e n d m.
                walk_up-Ends fuel by_id (id ∷ visited) n d m
                  (omega (arith, lt, unvisited-get F id visited by_id a e b)))
              (rw b at h)
      ]

  scan_cards-Ends : (by_id cs : Cards F) → Ends (scan_cards F by_id cs)
  unfolding scan_cards
  scan_cards-Ends by_id [] = Ends-ok _
  scan_cards-Ends by_id (c ∷ cs) = elim (Option-cases c.parent_card_id) [
    | inl n ↦ rw (n, scan_cards) (scan_cards-Ends by_id cs)
    | inr (parent, n) ↦
        rw (n, scan_cards)
          (elim (Bool-cases (is_deleted c)) [
            | inl d ↦ rw d (scan_cards-Ends by_id cs)
            | inr d ↦ rw d (
                Ends-bind _ _
                  (walk_up-Ends (suc (length by_id)) by_id (c.card_id ∷ []) (some parent) none []
                    (omega (arith, unvisited-le F (c.card_id ∷ []) by_id)))
                  λ walked. Ends-bind _ _ (scan_cards-Ends by_id cs) λ scan. Ends-ok _)
          ])
  ]

  Inserted-Ends :
      (d : Cards F) (at : ℕ) (block : Cards F) (t : ℤ) (r : Result (Cards F × Cards F))
      → Inserted F d at block t r
      → Ends r
  Inserted-Ends d at block t (err e) h = λ z. h (same_error z)
  Inserted-Ends d at block t (ok a) h = Ends-ok a

  insert_block_into-Ends :
      (d : Cards F) (at : ℕ) (block : Cards F) (parent : Option Text) (t : ℤ)
      → at ≤ length d
      → Ends (insert_block_into F d at block parent t)
  insert_block_into-Ends d at [] parent t h = unfold insert_block_into in Ends-ok ([], d)
  insert_block_into-Ends d at (b ∷ bs) parent t h =
      Inserted-Ends d at (b ∷ bs) t _
        (insert_block_into-Inserted F d at (b ∷ bs) parent t h (λ z. cc z))

  place-Ends :
      (destination : Option Text) (t : ℤ) (block : Cards F) (at : ℕ) (state : Cards F × Cards F)
      → at ≤ length (state.0)
      → Ends (place F destination t block at state)
  unfolding place
  place-Ends destination t block at (siblings, changed) h =
      Ends-bind _ _ (insert_block_into-Ends siblings at _ destination t h) λ placed. Ends-ok _

  place_anchored-Ends :
      (destination : Option Text) (t : ℤ) (anchored : List (Anchored F)) (state : Cards F × Cards F)
      → Ends (place_anchored F destination t anchored state)
  unfolding place_anchored
  place_anchored-Ends destination t [] state = Ends-ok _
  place_anchored-Ends destination t (a ∷ more) state =
      Ends-bind _ _
        (place-Ends destination t a.block _ state (lower_bound-le-length F t state.0 a.anchor))
        λ next. place_anchored-Ends destination t more next

  place_rest-Ends :
      (destination : Option Text) (t : ℤ) (block : Cards F) (state : Cards F × Cards F)
      → Ends (place_rest F destination t block state)
  unfolding place_rest
  place_rest-Ends destination t [] state = Ends-ok _
  place_rest-Ends destination t (c ∷ cs) state =
      place-Ends destination t (c ∷ cs) (length state.0) state (omega arith)

  place_groups-Ends :
      (by_id : Cards F) (t : ℤ) (gs : List (Group F)) (changed : Cards F)
      → Ends (place_groups F by_id t gs changed)
  unfolding place_groups place_group
  place_groups-Ends by_id t [] changed = Ends-ok _
  place_groups-Ends by_id t (g ∷ gs) changed =
      Ends-bind _ _
        (Ends-bind _ _
          (place_anchored-Ends g.destination t (anchored_of F g.heads [])
            (children_at F by_id g.destination, changed))
          λ anchored.
            Ends-bind _ _ (place_rest-Ends g.destination t (unanchored_of F g.heads) anchored)
              λ state. Ends-ok _)
        λ changed'. place_groups-Ends by_id t gs changed'

  -- `plan_hierarchy_repair` ends on every table, with cycles, missing and trashed parents in any
  -- number: neither the walk up from a card nor the loop that spaces the keys runs out of the
  -- fuel of the model.
  pub plan_hierarchy_repair_ends :
      (repo : Cards F) (project_id : Text) (updated_at : ℤ)
      → plan_hierarchy_repair F repo project_id updated_at ≢ err out_of_fuel
  unfolding plan_hierarchy_repair plan_from
  plan_hierarchy_repair_ends repo project_id updated_at =
      let by_id = by_id_from F (list_all F repo project_id) [] in
      Ends-bind (scan_cards F by_id by_id) (plan_from F by_id updated_at)
        (scan_cards-Ends by_id by_id)
        λ scan.
          Ends-bind (place_groups F by_id updated_at (group_heads F scan.heads []) []) _
            (place_groups-Ends by_id updated_at (group_heads F scan.heads []) [])
            λ changed. Ends-ok _
