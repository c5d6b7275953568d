-- ===== src/Card/Pages/Sound.antt =====
-- What holds of each row that a query selects.
use holder_core.Common.{ℕ, zero, suc, ◌≡◌, inl, inr, Bool, true, [], ◌∷◌, All, Bool-cases, take}
use holder_core.Card.{Floats, Card}
use holder_core.Card.Repo.{Cards, select, insert_by, sort_by}

module _ (F : Floats) (p : Card F.Double → Bool) where
  abbrev pub Each : Cards F → Type 0
  Each = All (λ c. p c ≡ true)

  pub select-Each : (cs : Cards F) → Each (select F p cs)
  unfolding select
  select-Each [] = tt
  select-Each (c ∷ cs) = elim (Bool-cases (p c)) [
    | inl b ↦ rw b (b, select-Each cs)
    | inr b ↦ rw b (select-Each cs)
  ]

  insert_by-Each :
      (less : Card F.Double → Card F.Double → Bool) (c : Card F.Double) (cs : Cards F)
      → p c ≡ true
      → Each cs
      → Each (insert_by F less c cs)
  unfolding insert_by
  insert_by-Each less c [] h hs = (h, tt)
  insert_by-Each less c (d ∷ ds) h hs = elim (Bool-cases (less d c)) [
    | inl b ↦ rw b (hs.0, insert_by-Each less c ds h hs.1)
    | inr b ↦ rw b (h, hs)
  ]

  pub sort_by-Each :
      (less : Card F.Double → Card F.Double → Bool) (cs : Cards F)
      → Each cs
      → Each (sort_by F less cs)
  unfolding sort_by
  sort_by-Each less [] hs = tt
  sort_by-Each less (c ∷ cs) hs =
      insert_by-Each less c (sort_by F less cs) hs.0 (sort_by-Each less cs hs.1)

  pub take-Each : (n : ℕ) (cs : Cards F) → Each cs → Each (take n cs)
  take-Each zero cs hs = tt
  take-Each (suc n) [] hs = tt
  take-Each (suc n) (c ∷ cs) hs = (hs.0, take-Each n cs hs.1)
