-- ===== src/Card/Repo/Updates.antt =====
-- What the updates of the cards table leave.
use mathlib.Core.Option
use holder_core.Common.{
  ◌≡◌, refl, inl, inr, true, false, [], ◌∷◌, if◌then◌else◌, Text, text_eq, Bool-cases, ap₂, ap, ◌∙◌,
}
use holder_core.Common.Int.{ℤ}
use holder_core.Card.{Floats, Card}
use holder_core.Card.Repo.{Cards, get, update_row, soft_delete, restore}

module _ (F : Floats) where
  open F use {Double}

  twice :
      (f g h : Card Double → Card Double) (id : Text)
      → ((c : Card Double) → (f c).card_id ≡ c.card_id)
      → ((c : Card Double) → g (f c) ≡ h c)
      → (repo : Cards F) → update_row F g id (update_row F f id repo) ≡ update_row F h id repo
  unfolding update_row
  twice f g h id same each [] = refl
  twice f g h id same each (c ∷ cs) = ap₂ ◌∷◌ here (twice f g h id same each cs)
    where
      here :
          (let d = if text_eq c.card_id id then f c else c in
            if text_eq d.card_id id then g d else d)
          ≡ (if text_eq c.card_id id then h c else c)
      here = elim (Bool-cases (text_eq c.card_id id)) [
        | inl b ↦
            let e : text_eq (f c).card_id id ≡ true = ap (λ x. text_eq x id) (same c) ∙ b in
            rw b (rw e (each c))
        | inr b ↦ rw b (rw b refl)
      ]

  -- Restoring a card after a soft delete leaves the same table as restoring it without the
  -- delete: the delete loses nothing.
  pub restore-soft_delete :
      (repo : Cards F) (id : Text) (deleted_at updated_at restored_at : ℤ)
      → restore F (soft_delete F repo id deleted_at updated_at) id restored_at
        ≡ restore F repo id restored_at
  unfolding restore soft_delete
  restore-soft_delete repo id deleted_at updated_at restored_at =
      twice _ _ _ id (λ c. refl) (λ c. refl) repo

  get-update_row :
      (f : Card Double → Card Double) (id : Text)
      → ((c : Card Double) → (f c).card_id ≡ c.card_id)
      → (repo : Cards F) (i : Text)
      → get F (update_row F f id repo) i
        ≡ Option.map (λ c. if text_eq c.card_id id then f c else c) (get F repo i)
  unfolding update_row get
  get-update_row f id same [] i = refl
  get-update_row f id same (c ∷ cs) i = elim (Bool-cases (text_eq c.card_id id)) [
    | inl b ↦ elim (Bool-cases (text_eq c.card_id i)) [
      | inl d ↦
          let e : text_eq (f c).card_id i ≡ true = ap (λ x. text_eq x i) (same c) ∙ d in
          rw (b, d) (rw e (rw b refl))
      | inr d ↦
          let e : text_eq (f c).card_id i ≡ false = ap (λ x. text_eq x i) (same c) ∙ d in
          rw (b, d) (rw e (get-update_row f id same cs i))
    ]
    | inr b ↦ elim (Bool-cases (text_eq c.card_id i)) [
      | inl d ↦ rw b (rw d (rw b refl))
      | inr d ↦ rw b (rw d (get-update_row f id same cs i))
    ]
  ]
