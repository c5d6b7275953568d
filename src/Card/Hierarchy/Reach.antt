-- ===== src/Card/Hierarchy/Reach.antt =====
-- What the walk up the ancestors finds: a card that browsing from the project's roots reaches.
use holder_core.Common.{
  ℕ, zero, suc, ◌≡◌, refl, inl, inr, true, false, Option, none, some, List, [], ◌∷◌, arith, Text,
  text_eq_iff, ◌⊎◌, Bool-cases, text_eq, Option-cases, subst, contains, length,
}
use holder_core.Card.{Floats, Card, is_deleted}
use holder_core.Card.Repo.{Cards, get}
use holder_core.Card.Result.{Result, ok}
use holder_core.Card.Hierarchy.{walk, climb, reachable_card_parent}

module _ (F : Floats) (repo : Cards F) where
  open F use {Double}

  -- A live card of the project whose ancestors are all live cards of it, up to a root.
  pub data Reachable (project : Text) : Text → Type 0 where
    at_root :
        (id : Text) (a : Card Double)
        → get F repo id ≡ some a
        → text_eq a.project_id project ≡ true
        → is_deleted a ≡ false
        → a.parent_card_id ≡ none
        → Reachable project id
    under :
        (id p : Text) (a : Card Double)
        → get F repo id ≡ some a
        → text_eq a.project_id project ≡ true
        → is_deleted a ≡ false
        → a.parent_card_id ≡ some p
        → Reachable project p
        → Reachable project id

  -- the same of a parent: the top level, or a reachable card
  abbrev pub LiveUp : Text → Option Text → Type 0
  LiveUp project none = Unit
  LiveUp project (some p) = Reachable project p

  -- `id` is the parent or an ancestor of it
  pub data Above (id : Text) : Option Text → Type 0 where
    here : (p : Text) → p ≡ id → Above id (some p)
    higher :
        (p : Text) (a : Card Double)
        → get F repo p ≡ some a
        → Above id a.parent_card_id
        → Above id (some p)

  pub Above-parts :
      {id : Text} {p : Text}
      → Above id (some p)
      → (p ≡ id) ⊎ ((a : Card Double) × (get F repo p ≡ some a) × Above id a.parent_card_id)
  Above-parts (here q e) = inl e
  Above-parts (higher q a e ab) = inr (a, e, ab)

module _ (F : Floats) where
  open F use {Double}

  pub get-card_id :
      (repo : Cards F) (id : Text) (a : Card Double) → get F repo id ≡ some a → a.card_id ≡ id
  unfolding get
  get-card_id [] id a h = cc
  get-card_id (c ∷ cs) id a h = ground (arith, get-card_id cs id a, text_eq_iff c.card_id id)

module _ (F : Floats) (repo : Cards F) (card : Card F.Double) where
  open F use {Double}

  abbrev project : Text
  project = card.project_id

  pub Reachable-step :
      (id : Text) (a : Card Double)
      → get F repo id ≡ some a
      → text_eq a.project_id project ≡ true
      → is_deleted a ≡ false
      → LiveUp F repo project a.parent_card_id
      → Reachable F repo project id
  Reachable-step id a e p d up = elim (Option-cases a.parent_card_id) [
    | inl n ↦ at_root id a e p d n
    | inr (q, s) ↦ under id q a e p d s (subst (LiveUp F repo project) s up)
  ]

  -- what the walk returns if it returns a card
  abbrev Found : Option Text → Option Text → Text → Type 0
  Found next candidate q =
      ((candidate ≡ some q) × LiveUp F repo project next) ⊎ Reachable F repo project q

  climb_sound :
      (next : Option Text → Option Text → Result (Option Text)) (q : Text)
      → ((n c : Option Text) → next n c ≡ ok (some q) → Found n c q)
      → (id : Text) (o : Option (Card Double)) → get F repo id ≡ o
      → (candidate : Option Text) → climb F next card o candidate ≡ ok (some q)
      → Found (some id) candidate q
  unfolding climb
  climb_sound next q ih id none e candidate h = cc
  climb_sound next q ih id (some a) e candidate h =
      elim (Bool-cases (text_eq a.project_id project)) [
        | inr p ↦ cc (rw p at h)
        | inl p ↦ elim (Bool-cases (is_deleted a)) [
          | inl d ↦ elim (ih a.parent_card_id none (rw (p, d) at h)) [
            | inl (z, up) ↦ cc z
            | inr r ↦ inr r
          ]
          | inr d ↦ live a e p d candidate (rw (p, d) at h)
        ]
      ]
    where
      live :
          (a : Card Double)
          → get F repo id ≡ some a
          → text_eq a.project_id project ≡ true
          → is_deleted a ≡ false
          → (c : Option Text)
          → next a.parent_card_id (elim c [ none ↦ some a.card_id | some d ↦ some d ]) ≡ ok (some q)
          → Found (some id) c q
      live a e p d none h = elim (ih a.parent_card_id (some a.card_id) h) [
        | inl (z, up) ↦
            let same : id ≡ q = cc (get-card_id F repo id a e, z) in
            inr (subst (Reachable F repo project) same (Reachable-step id a e p d up))
        | inr r ↦ inr r
      ]
      live a e p d (some c) h = elim (ih a.parent_card_id (some c) h) [
        | inl (z, up) ↦ inl (z, Reachable-step id a e p d up)
        | inr r ↦ inr r
      ]

  walk_sound :
      (fuel : ℕ) (visited : List Text) (next candidate : Option Text) (q : Text)
      → walk F fuel repo card visited next candidate ≡ ok (some q)
      → Found next candidate q
  unfolding walk
  walk_sound zero visited next candidate q h = cc
  walk_sound (suc fuel) visited none candidate q h = inl (cc, tt)
  walk_sound (suc fuel) visited (some id) candidate q h = elim (Bool-cases (contains id visited)) [
    | inl b ↦ cc (rw b at h)
    | inr b ↦
        climb_sound (walk F fuel repo card (id ∷ visited)) q
          (λ n c. walk_sound fuel (id ∷ visited) n c q) id (get F repo id) refl candidate
          (rw b at h)
  ]

  -- `reachable_card_parent` returns only cards that browsing from the roots of the card's project
  -- reaches: live, and all their ancestors live and of the same project.
  pub reachable_card_parent-Reachable :
      (q : Text) → reachable_card_parent F repo card ≡ ok (some q) → Reachable F repo project q
  reachable_card_parent-Reachable q h =
      elim (walk_sound (suc (length repo)) (card.card_id ∷ []) card.parent_card_id none q
        (unfold reachable_card_parent in h)) [ inl (z, up) ↦ cc z | inr r ↦ r ]
