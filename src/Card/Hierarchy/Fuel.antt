-- ===== src/Card/Hierarchy/Fuel.antt =====
-- The walk up the ancestors ends: each step visits a card of the table that was not visited before.
use holder_core.Common.{
  ℕ, zero, suc, ◌+◌, ◌≡◌, refl, inl, inr, false, Option, none, some, List, [], ◌∷◌, arith,
  if◌then◌else◌, Text, contains, ◌≢◌, ◌<◌, ◌≤◌, length, Bool-cases, text_eq, text_eq_sound,
  text_eq_refl,
}
use holder_core.Card.{Floats, Card}
use holder_core.Card.Repo.{Cards, get}
use holder_core.Card.Result.{Result, err, out_of_fuel}
use holder_core.Card.Hierarchy.{walk, reachable_card_parent, climb}

module _ (F : Floats) where
  open F use {Double}

  -- the cards of the table that the walk has not visited
  pub unvisited : List Text → Cards F → ℕ
  unvisited visited [] = 0
  unvisited visited (c ∷ cs) = (if contains c.card_id visited then 0 else 1) + unvisited visited cs

  pub unvisited-le : (visited : List Text) (repo : Cards F) → unvisited visited repo ≤ length repo
  unfolding unvisited
  unvisited-le visited [] = omega arith
  unvisited-le visited (c ∷ cs) = ground (arith, unvisited-le visited cs)

  unvisited-cons :
      (id : Text) (visited : List Text) (repo : Cards F)
      → unvisited (id ∷ visited) repo ≤ unvisited visited repo
  unfolding unvisited contains
  unvisited-cons id visited [] = omega arith
  unvisited-cons id visited (c ∷ cs) = ground (arith, unvisited-cons id visited cs)

  pub unvisited-get :
      (id : Text) (visited : List Text) (repo : Cards F) (a : Card Double)
      → get F repo id ≡ some a
      → contains id visited ≡ false
      → unvisited (id ∷ visited) repo < unvisited visited repo
  unfolding get
  unvisited-get id visited [] a h v = cc
  unvisited-get id visited (c ∷ cs) a h v = elim (Bool-cases (text_eq c.card_id id)) [
    | inl same ↦
        let e : c.card_id ≡ id = text_eq_sound c.card_id id same in
        unfold unvisited contains in
        rw (e, v) (rw (text_eq_refl id) (omega (arith, unvisited-cons id visited cs)))
    | inr other ↦ step (unvisited-get id visited cs a (rw other at h) v) other
  ]
    where
      step :
          unvisited (id ∷ visited) cs < unvisited visited cs
          → text_eq c.card_id id ≡ false
          → unvisited (id ∷ visited) (c ∷ cs) < unvisited visited (c ∷ cs)
      step lt other = unfold unvisited contains in ground arith

  climb-ends :
      (next : Option Text → Option Text → Result (Option Text)) (card : Card Double)
      → (o : Option (Card Double))
      → ((a : Card Double) → o ≡ some a → (n c : Option Text) → next n c ≢ err out_of_fuel)
      → (candidate : Option Text) → climb F next card o candidate ≢ err out_of_fuel
  unfolding climb
  climb-ends next card none ih candidate h = cc
  climb-ends next card (some a) ih candidate h =
      elim (Bool-cases (text_eq a.project_id card.project_id)) [
        | inr p ↦ cc (rw p at h)
        | inl p ↦ ih a refl a.parent_card_id _ (rw p at h)
      ]

  walk-ends :
      (fuel : ℕ) (repo : Cards F) (card : Card Double) (visited : List Text)
      (next candidate : Option Text)
      → unvisited visited repo < fuel
      → walk F fuel repo card visited next candidate ≢ err out_of_fuel
  unfolding walk
  walk-ends zero repo card visited next candidate lt h = absurd (omega arith)
  walk-ends (suc fuel) repo card visited none candidate lt h = cc
  walk-ends (suc fuel) repo card visited (some id) candidate lt h =
      elim (Bool-cases (contains id visited)) [
        | inl b ↦ cc (rw b at h)
        | inr b ↦
            climb-ends (walk F fuel repo card (id ∷ visited)) card (get F repo id)
              (λ a e n c.
                walk-ends fuel repo card (id ∷ visited) n c
                  (omega (arith, unvisited-get id visited repo a e b)))
              candidate (rw b at h)
      ]

  -- `reachable_card_parent` ends on every table, cyclic ones too: the fuel of the model is never
  -- what stops it.
  pub reachable_card_parent_ends :
      (repo : Cards F) (card : Card Double) → reachable_card_parent F repo card ≢ err out_of_fuel
  unfolding reachable_card_parent
  reachable_card_parent_ends repo card h =
      walk-ends (suc (length repo)) repo card (card.card_id ∷ []) card.parent_card_id none
        (omega (arith, unvisited-le (card.card_id ∷ []) repo)) h
