-- ===== src/Card/Hierarchy/Validate.antt =====
-- `validate_card_parent` accepts exactly the parents under which a card can be reached.
use holder_core.Common.{
  ℕ, zero, suc, ◌≡◌, refl, inl, inr, true, false, Option, none, some, List, [], ◌∷◌, arith,
  if◌then◌else◌, Text, Bool-cases, text_eq, contains, ap, sym, ◌⊎◌, ◌∙◌, length, not, text_eq_refl,
  subst, opt_text_eq, opt_text_eq_iff,
}
use holder_core.Card.{Floats, Card, is_deleted}
use holder_core.Card.Repo.{Cards, get}
use holder_core.Card.Result.{
  Result, ok, err, out_of_fuel, move_would_create_cycle, target_not_found, ◌>>=◌,
}
use holder_core.Card.Hierarchy.{walk, climb, reachable_card_parent, validate_card_parent}
use holder_core.Card.Hierarchy.Reach.{
  Reachable, at_root, under, LiveUp, Above, get-card_id, Above-parts,
  reachable_card_parent-Reachable,
}
use holder_core.Card.Hierarchy.Fuel.{reachable_card_parent_ends}

pub some-eq {ℓ} : {A : Type ℓ} {x y : A} → some x ≡ some y → x ≡ y
some-eq e = cc

module _ (F : Floats) (repo : Cards F) (card : Card F.Double) where
  open F use {Double}

  abbrev project : Text
  project = card.project_id

  -- the candidate that the walk holds, or the parent that it starts from
  abbrev pub first : Option Text → Option Text → Option Text
  first none next = next
  first (some c) next = some c

  -- the walk over a live card
  pub climb-live :
      (next : Option Text → Option Text → Result (Option Text)) (id : Text) (a : Card Double)
      → get F repo id ≡ some a
      → text_eq a.project_id project ≡ true
      → is_deleted a ≡ false
      → (candidate : Option Text)
      → climb F next card (get F repo id) candidate
        ≡ next a.parent_card_id (first candidate (some id))
  unfolding climb
  climb-live next id a e p d none =
      rw e (rw (p, d) (ap (λ z. next a.parent_card_id (some z)) (get-card_id F repo id a e)))
  climb-live next id a e p d (some c) = rw e (rw (p, d))

  abbrev pub Parts : Text → Type 0
  Parts id =
      (a : Card Double) × (get F repo id ≡ some a)
      × (text_eq a.project_id project ≡ true)
      × (is_deleted a ≡ false)
      × LiveUp F repo project a.parent_card_id

  pub Reachable-Parts : {id : Text} → Reachable F repo project id → Parts id
  Reachable-Parts (at_root id a e p d n) = (a, e, p, d, rw n tt)
  Reachable-Parts (under id q a e p d s up) = (a, e, p, d, rw s up)

  first-first : (c n : Option Text) (id : Text) → first (first c (some id)) n ≡ first c (some id)
  first-first none n id = refl
  first-first (some c) n id = refl

  walk-live :
      (fuel : ℕ) (visited : List Text) (next candidate r : Option Text)
      → LiveUp F repo project next
      → walk F fuel repo card visited next candidate ≡ ok r
      → r ≡ first candidate next
  unfolding walk
  walk-live zero visited next candidate r up h = cc
  walk-live (suc fuel) visited none none r up h = cc
  walk-live (suc fuel) visited none (some c) r up h = cc
  walk-live (suc fuel) visited (some id) candidate r up h =
      elim (Bool-cases (contains id visited)) [
        | inl b ↦ cc (rw b at h)
        | inr b ↦
            let (a, e, p, d, above) = Reachable-Parts up in
            walk-live fuel (id ∷ visited) a.parent_card_id (first candidate (some id)) r above (
              sym (climb-live (walk F fuel repo card (id ∷ visited)) id a e p d candidate)
              ∙ rw b at h)
            ∙ first-first candidate a.parent_card_id id
      ]

  -- a walk that ends above live cards has met no visited card
  walk-no_cycle :
      (fuel : ℕ) (visited : List Text) (next candidate r : Option Text) (x : Text)
      → LiveUp F repo project next
      → contains x visited ≡ true
      → walk F fuel repo card visited next candidate ≡ ok r
      → ¬ Above F repo x next
  unfolding walk
  walk-no_cycle zero visited next candidate r x up seen h ab = cc
  walk-no_cycle (suc fuel) visited none candidate r x up seen h ab = elim ab [ ]
  walk-no_cycle (suc fuel) visited (some id) candidate r x up seen h ab =
      elim (Bool-cases (contains id visited)) [
        | inl b ↦ cc (rw b at h)
        | inr b ↦
            let (a, e, p, d, above) = Reachable-Parts up in
            elim (Above-parts F repo ab) [
              | inl same ↦ cc (rw same at b)
              | inr (a', e', ab') ↦
                  let eq : a' ≡ a = some-eq (sym e' ∙ e) in
                  walk-no_cycle fuel (id ∷ visited) a.parent_card_id (first candidate (some id)) r x
                    above (unfold contains in ground arith)
                    (sym (climb-live (walk F fuel repo card (id ∷ visited)) id a e p d candidate)
                      ∙ rw b at h)
                    (subst (λ y. Above F repo x y.parent_card_id) eq ab')
            ]
      ]

  validate-walk :
      validate_card_parent F repo card ≡ ok (tt {0})
      → reachable_card_parent F repo card ≡ ok card.parent_card_id
  validate-walk h = at (reachable_card_parent F repo card) refl (unfold validate_card_parent in h)
    where
      at :
          (w : Result (Option Text))
          → reachable_card_parent F repo card ≡ w
          → (w >>= λ r.
              if not (opt_text_eq r card.parent_card_id) then err target_not_found else ok tt)
            ≡ ok (tt {0})
          → w ≡ ok card.parent_card_id
      at (err x) e k = cc
      at (ok r) e k = elim (Bool-cases (opt_text_eq r card.parent_card_id)) [
        | inl b ↦ ap ok ((opt_text_eq_iff r card.parent_card_id).0 b)
        | inr b ↦ cc (rw b at k)
      ]

  validated-LiveUp :
      (o : Option Text) → reachable_card_parent F repo card ≡ ok o → LiveUp F repo project o
  validated-LiveUp none h = tt
  validated-LiveUp (some q) h = reachable_card_parent-Reachable F repo card q h

  -- A card whose parent `validate_card_parent` accepts is at the top level or under a card that
  -- browsing from the roots of its project reaches, and it is not among its own ancestors.
  pub validate_card_parent_sound :
      validate_card_parent F repo card ≡ ok (tt {0})
      → LiveUp F repo project card.parent_card_id × ¬ Above F repo card.card_id card.parent_card_id
  validate_card_parent_sound h =
      let found = validate-walk h in
      let up : LiveUp F repo project card.parent_card_id =
        validated-LiveUp card.parent_card_id found in
      (
        up,
        walk-no_cycle (suc (length repo)) (card.card_id ∷ []) card.parent_card_id none
            card.parent_card_id card.card_id up (unfold contains in rw (text_eq_refl card.card_id))
            (unfold reachable_card_parent in found),
      )

  abbrev Ends : Result (Option Text) → Type 0
  Ends (ok r) = Unit
  Ends (err e) = (e ≡ move_would_create_cycle) ⊎ (e ≡ out_of_fuel)

  climb-Ends :
      (next : Option Text → Option Text → Result (Option Text))
      → ((n c : Option Text) → Ends (next n c))
      → (o : Option (Card Double)) (candidate : Option Text) → Ends (climb F next card o candidate)
  unfolding climb
  climb-Ends next ih none candidate = tt
  climb-Ends next ih (some a) candidate = elim (Bool-cases (text_eq a.project_id project)) [
    | inl b ↦ rw b (ih a.parent_card_id _)
    | inr b ↦ rw b tt
  ]

  walk-Ends :
      (fuel : ℕ) (visited : List Text) (next candidate : Option Text)
      → Ends (walk F fuel repo card visited next candidate)
  unfolding walk
  walk-Ends zero visited next candidate = inr refl
  walk-Ends (suc fuel) visited none candidate = tt
  walk-Ends (suc fuel) visited (some id) candidate = elim (Bool-cases (contains id visited)) [
    | inl b ↦ rw b (inl refl)
    | inr b ↦ rw b (
        climb-Ends (walk F fuel repo card (id ∷ visited)) (λ n c. walk-Ends fuel (id ∷ visited) n c)
          (get F repo id) candidate)
  ]

  validate-by :
      (w : Result (Option Text))
      → reachable_card_parent F repo card ≡ w
      → Ends w
      → (w ≡ err out_of_fuel → ⊥)
      → LiveUp F repo project card.parent_card_id
      → (validate_card_parent F repo card ≡ ok (tt {0}))
        ⊎ (validate_card_parent F repo card ≡ err move_would_create_cycle)
  validate-by (err e) h (inl cycle) ends up =
      inr (unfold validate_card_parent in rw h (ap err cycle))
  validate-by (err e) h (inr fuel) ends up = absurd (ends (ap err fuel))
  validate-by (ok r) h e ends up =
      let same : r ≡ card.parent_card_id =
        walk-live (suc (length repo)) (card.card_id ∷ []) card.parent_card_id none r up
          (unfold reachable_card_parent in h) in
      inl
        (unfold validate_card_parent in rw h (rw ((opt_text_eq_iff r card.parent_card_id).1 same)))

  -- A parent that browsing from the roots reaches is accepted, unless the walk meets a cycle; no other
  -- error and no endless walk is possible.
  pub validate_card_parent_complete :
      LiveUp F repo project card.parent_card_id
      → (validate_card_parent F repo card ≡ ok (tt {0}))
        ⊎ (validate_card_parent F repo card ≡ err move_would_create_cycle)
  validate_card_parent_complete =
      validate-by (reachable_card_parent F repo card) refl
        (unfold reachable_card_parent in
          walk-Ends (suc (length repo)) (card.card_id ∷ []) card.parent_card_id none)
        (reachable_card_parent_ends F repo card)
