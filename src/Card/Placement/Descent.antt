-- ===== src/Card/Placement/Descent.antt =====
-- The check against moving a card under its own descendant.
use holder_core.Common.{
  ℕ, zero, suc, ◌≡◌, inl, inr, true, Option, none, some, arith, Text, ◌<◌, ◌↔◌, text_eq_refl,
  Bool-cases, text_eq, text_eq_sound, Option-cases,
}
use holder_core.Card.{Floats, Card}
use holder_core.Card.Repo.{Cards}
use holder_core.Card.Placement.{is_descendant_within, by_id, is_descendant_of, normalize_parent_id}

module _ (F : Floats) (cards : Cards F) (id : Text) where
  open F use {Double}

  -- from the parent `o`, that many parent links lead to `id`
  pub data Leads : ℕ → Option Text → Type 0 where
    there : (c : Text) → c ≡ id → Leads 0 (some c)
    link :
        (k : ℕ) (c : Text) (a : Card Double)
        → by_id F cards c ≡ some a
        → Leads k (normalize_parent_id a.parent_card_id)
        → Leads (suc k) (some c)

  within_sound :
      (guard : ℕ) (o : Option Text)
      → is_descendant_within F guard cards o id ≡ true
      → (k : ℕ) × (k < guard) × Leads k o
  unfolding is_descendant_within
  within_sound zero o h = cc
  within_sound (suc guard) none h = cc
  within_sound (suc guard) (some c) h = elim (Bool-cases (text_eq c id)) [
    | inl b ↦ (0, omega arith, there c (text_eq_sound c id b))
    | inr b ↦ elim (Option-cases (by_id F cards c)) [
      | inl n ↦ cc (rw (b, n) at h)
      | inr (a, e) ↦
          let (k, lt, l) =
            within_sound guard (normalize_parent_id a.parent_card_id) (rw (b, e) at h) in
          (suc k, omega arith, link k c a e l)
    ]
  ]

  within_complete :
      (guard k : ℕ) (o : Option Text)
      → k < guard
      → Leads k o
      → is_descendant_within F guard cards o id ≡ true
  unfolding is_descendant_within
  within_complete zero k o lt l = absurd (omega arith)
  within_complete (suc guard) k o lt (there c e) = rw e (rw (text_eq_refl id))
  within_complete (suc guard) k o lt (link j c a e l) = elim (Bool-cases (text_eq c id)) [
    | inl b ↦ rw b
    | inr b ↦
        rw (b, e) (within_complete guard j (normalize_parent_id a.parent_card_id) (omega arith) l)
  ]

  -- `is_descendant_of` answers yes exactly if fewer than 1024 parent links lead from the
  -- candidate to the card.
  pub is_descendant_of_iff :
      (o : Option Text)
      → (is_descendant_of F cards o id ≡ true) ↔ ((k : ℕ) × (k < 1024) × Leads k o)
  is_descendant_of_iff o =
      unfold is_descendant_of in (within_sound 1024 o, λ (k, lt, l). within_complete 1024 k o lt l)
