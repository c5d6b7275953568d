-- ===== src/Card/Hierarchy/Accepts.antt =====
-- `validate_card_parent` as a whole: which parents it accepts.
use holder_core.Common.{
  ℕ, zero, suc, ◌≡◌, refl, inl, inr, true, Option, none, some, List, [], ◌∷◌, arith, Text,
  Bool-cases, text_eq, contains, ap, sym, ◌∙◌, length, ◌↔◌, ◌≢◌, text_eq_sound, subst, opt_text_eq,
  not, if◌then◌else◌,
}
use holder_core.Card.{Floats, Card}
use holder_core.Card.Repo.{Cards, get}
use holder_core.Card.Result.{
  Result, MoveError, target_not_found, ◌>>=◌, ok, err, move_would_create_cycle,
}
use holder_core.Card.Hierarchy.{walk, reachable_card_parent, validate_card_parent}
use holder_core.Card.Hierarchy.Reach.{
  Reachable, at_root, under, LiveUp, Above, here, higher, Above-parts,
}
use holder_core.Card.Hierarchy.Validate.{
  validate_card_parent_sound, validate_card_parent_complete, Reachable-Parts, climb-live, some-eq,
}

err-eq {ℓ} : {A : Type ℓ} {x y : MoveError} → (e : Path (Result A) (err x) (err y)) → x ≡ y
err-eq e = cc

module _ (F : Floats) (repo : Cards F) where
  open F use {Double}

  -- the ancestors of an ancestor are ancestors
  Above-trans :
      (y x : Text) (a : Card Double) {o : Option Text}
      → get F repo x ≡ some a
      → Above F repo y a.parent_card_id
      → Above F repo x o
      → Above F repo y o
  Above-trans y x a e ya (here p same) =
      higher p a (subst (λ i. get F repo i ≡ some a) (sym same) e) ya
  Above-trans y x a e ya (higher p b eb ab) = higher p b eb (Above-trans y x a e ya ab)

  -- no card that browsing reaches is its own ancestor
  Reachable-acyclic :
      (project id : Text) (a : Card Double)
      → Reachable F repo project id
      → get F repo id ≡ some a
      → ¬ Above F repo id a.parent_card_id
  Reachable-acyclic project _ a (at_root id b e p d n) ea ab =
      elim (subst (Above F repo id) (ap (λ c. c.parent_card_id) (some-eq (sym ea ∙ e)) ∙ n) ab) [ ]
  Reachable-acyclic project _ a (under id q b e p d s up) ea ab =
      let same : a ≡ b = some-eq (sym ea ∙ e) in
      let below : Above F repo q b.parent_card_id = rw s (here q refl) in
      elim (Above-parts F repo (subst (Above F repo id) (ap (λ c. c.parent_card_id) same ∙ s) ab)) [
        | inl i ↦
            Reachable-acyclic project q b up (subst (λ j. get F repo j ≡ some b) (sym i) e) below
        | inr (c, ec, abc) ↦ Reachable-acyclic project q c up ec (Above-trans q id b e below abc)
      ]

module _ (F : Floats) (repo : Cards F) (card : Card F.Double) where
  open F use {Double}

  walk-acyclic :
      (fuel : ℕ) (visited : List Text) (next candidate : Option Text)
      → LiveUp F repo card.project_id next
      → ((x : Text) → contains x visited ≡ true → ¬ Above F repo x next)
      → walk F fuel repo card visited next candidate ≢ err move_would_create_cycle
  unfolding walk
  walk-acyclic zero visited next candidate up clear h = cc
  walk-acyclic (suc fuel) visited none candidate up clear h = cc
  walk-acyclic (suc fuel) visited (some id) candidate up clear h =
      elim (Bool-cases (contains id visited)) [
        | inl b ↦ absurd (clear id b (here id refl))
        | inr b ↦
            let (a, e, p, d, above) = Reachable-Parts F repo card up in
            walk-acyclic fuel (id ∷ visited) a.parent_card_id _ above
              (λ x seen ab. elim (Bool-cases (text_eq id x)) [
                | inl same ↦ Reachable-acyclic F repo card.project_id id a up e (
                    subst (λ y. Above F repo y a.parent_card_id) (sym (text_eq_sound id x same)) ab)
                | inr other ↦
                    clear x (unfold contains in rw (other, contains) at seen) (higher id a e ab)
              ])
              (sym (
                  climb-live F repo card (walk F fuel repo card (id ∷ visited)) id a e p d
                    candidate)
                ∙ rw b at h)
      ]

  validate-cycle :
      validate_card_parent F repo card ≡ err move_would_create_cycle
      → reachable_card_parent F repo card ≡ err move_would_create_cycle
  validate-cycle h = at (reachable_card_parent F repo card) (unfold validate_card_parent in h)
    where
      at :
          (w : Result (Option Text))
          → (w >>= λ r.
              if not (opt_text_eq r card.parent_card_id) then err target_not_found else ok (tt {0}))
            ≡ err move_would_create_cycle
          → w ≡ err move_would_create_cycle
      at (err e) k = ap err (err-eq k)
      at (ok r) k = ground arith

  -- `validate_card_parent` accepts a card's parent exactly if it is the top level or a card that
  -- browsing from the roots of the project reaches, and the card is not the parent or one of the
  -- parent's ancestors.
  pub validate_card_parent_iff : (validate_card_parent F repo card ≡ ok (tt {0})) ↔ (
      LiveUp F repo card.project_id card.parent_card_id
      × ¬ Above F repo card.card_id card.parent_card_id)
  validate_card_parent_iff = (
    validate_card_parent_sound F repo card,
    λ (up, clear). elim (validate_card_parent_complete F repo card up) [
      | inl accepted ↦ accepted
      | inr cycle ↦ absurd (
          walk-acyclic (suc (length repo)) (card.card_id ∷ []) card.parent_card_id none up
            (λ x seen.
              subst (λ i. ¬ Above F repo i card.parent_card_id)
                (text_eq_sound card.card_id x (unfold contains in ground arith)) clear)
            (unfold reachable_card_parent in validate-cycle cycle))
    ],
  )
