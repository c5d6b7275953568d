-- ===== src/Card/Pages/Next.antt =====
-- A selection of the sorted rows is the sorted selection, and what is behind one of them follows it.
use holder_core.Common.{
  ◌≡◌, refl, inl, inr, Bool, true, false, [], ◌∷◌, Bool-cases, All, sym, ◌∙◌, ap, ◌++◌,
  All-append_right,
}
use holder_core.Card.{Floats, Card}
use holder_core.Card.Repo.{Cards, select, insert_by, sort_by}
use holder_core.Card.Pages.{CardPageOrder, page_less}
use holder_core.Card.Pages.Order.{page_less_trans, page_less_asym, page_less_total, Apart, Unlike}

module _ (F : Floats) (order : CardPageOrder) where
  open F use {Double}

  abbrev less : Card Double → Card Double → Bool
  less = page_less F order

  -- each row strictly before all that follow
  abbrev pub Ordered : Cards F → Type 0
  Ordered [] = Unit
  Ordered (c ∷ cs) = All (λ d. less c d ≡ true) cs × Ordered cs

  module _ (P : Card Double → Type 0) where
    insert_by-All :
        (c : Card Double) (cs : Cards F) → P c → All P cs → All P (insert_by F less c cs)
    unfolding insert_by
    insert_by-All c [] h k = (h, tt)
    insert_by-All c (d ∷ ds) h k = elim (Bool-cases (less d c)) [
      | inl b ↦ rw b (k.0, insert_by-All c ds h k.1)
      | inr b ↦ rw b (h, k)
    ]

    sort_by-All : (cs : Cards F) → All P cs → All P (sort_by F less cs)
    unfolding sort_by
    sort_by-All [] k = tt
    sort_by-All (c ∷ cs) k = insert_by-All c (sort_by F less cs) k.0 (sort_by-All cs k.1)

    select-All : (p : Card Double → Bool) (cs : Cards F) → All P cs → All P (select F p cs)
    unfolding select
    select-All p [] k = tt
    select-All p (c ∷ cs) k = elim (Bool-cases (p c)) [
      | inl b ↦ rw b (k.0, select-All p cs k.1)
      | inr b ↦ rw b (select-All p cs k.1)
    ]

  pub select-Unlike :
      (p : Card Double → Bool) (cs : Cards F) → Unlike F cs → Unlike F (select F p cs)
  unfolding select
  select-Unlike p [] k = tt
  select-Unlike p (c ∷ cs) k = elim (Bool-cases (p c)) [
    | inl b ↦ rw b (select-All _ p cs k.0, select-Unlike p cs k.1)
    | inr b ↦ rw b (select-Unlike p cs k.1)
  ]

  less-All :
      (c d : Card Double) (ds : Cards F)
      → less c d ≡ true
      → All (λ e. less d e ≡ true) ds
      → All (λ e. less c e ≡ true) ds
  less-All c d [] h k = tt
  less-All c d (e ∷ es) h k = (page_less_trans F order c d e h k.0, less-All c d es h k.1)

  insert_by-Ordered :
      (c : Card Double) (cs : Cards F)
      → Apart F c.card_id cs
      → Ordered cs
      → Ordered (insert_by F less c cs)
  unfolding insert_by
  insert_by-Ordered c [] a o = (tt, tt)
  insert_by-Ordered c (d ∷ ds) a o = elim (Bool-cases (less d c)) [
    | inl b ↦ rw b (insert_by-All _ c ds b o.0, insert_by-Ordered c ds a.1 o.1)
    | inr b ↦
        let first = page_less_total F order d c a.0 b in
        rw b ((first, less-All c d ds first o.0), o)
  ]

  pub sort_by-Ordered : (cs : Cards F) → Unlike F cs → Ordered (sort_by F less cs)
  unfolding sort_by
  sort_by-Ordered [] u = tt
  sort_by-Ordered (c ∷ cs) u =
      insert_by-Ordered c (sort_by F less cs) (sort_by-All _ cs u.0) (sort_by-Ordered cs u.1)

  -- A row before all of a list is put at its head.
  insert_first :
      (c : Card Double) (ds : Cards F)
      → All (λ e. less c e ≡ true) ds
      → insert_by F less c ds ≡ c ∷ ds
  unfolding insert_by
  insert_first c [] k = refl
  insert_first c (d ∷ ds) k = rw (page_less_asym F order c d k.0)

  module _ (p : Card Double → Bool) where
    insert_by-select_out :
        (c : Card Double) (cs : Cards F)
        → p c ≡ false
        → select F p (insert_by F less c cs) ≡ select F p cs
    unfolding insert_by select
    insert_by-select_out c [] h = rw h
    insert_by-select_out c (d ∷ ds) h = elim (Bool-cases (less d c)) [
      | inl b ↦ rw b (rw (insert_by-select_out c ds h))
      | inr b ↦ rw b (rw h)
    ]

    insert_by-select :
        (c : Card Double) (cs : Cards F)
        → p c ≡ true
        → Apart F c.card_id cs
        → Ordered cs
        → select F p (insert_by F less c cs) ≡ insert_by F less c (select F p cs)
    unfolding insert_by select
    insert_by-select c [] h a o = rw h
    insert_by-select c (d ∷ ds) h a o = elim (Bool-cases (less d c)) [
      | inl b ↦ elim (Bool-cases (p d)) [
        | inl q ↦ rw b (rw (q, b) (rw (insert_by-select c ds h a.1 o.1)))
        | inr q ↦ rw b (rw q (insert_by-select c ds h a.1 o.1))
      ]
      | inr b ↦
          let first = page_less_total F order d c a.0 b in
          rw b (
            rw h (
              sym (
                insert_first c (select F p (d ∷ ds))
                  (select-All _ p (d ∷ ds) (first, less-All c d ds first o.0)))))
    ]

    -- A selection of a sorted table is the sorted selection.
    pub sort_by-select :
        (cs : Cards F)
        → Unlike F cs
        → sort_by F less (select F p cs) ≡ select F p (sort_by F less cs)
    unfolding sort_by select
    sort_by-select [] u = refl
    sort_by-select (c ∷ cs) u = elim (Bool-cases (p c)) [
      | inl h ↦ rw h (
          ap (insert_by F less c) (sort_by-select cs u.1)
          ∙ sym (
              insert_by-select c (sort_by F less cs) h (sort_by-All _ cs u.0)
                (sort_by-Ordered cs u.1)))
      | inr h ↦ rw h (sort_by-select cs u.1 ∙ sym (insert_by-select_out c (sort_by F less cs) h))
    ]

  select_every :
      (p : Card Double → Bool) (cs : Cards F) → All (λ c. p c ≡ true) cs → select F p cs ≡ cs
  unfolding select
  select_every p [] k = refl
  select_every p (c ∷ cs) k = rw k.0 (ap (◌∷◌ c) (select_every p cs k.1))

  page_less_irrefl : (c : Card Double) → less c c ≡ false
  page_less_irrefl c = elim (Bool-cases (less c c)) [
    | inl b ↦ page_less_asym F order c c b
    | inr b ↦ b
  ]

  -- What is behind a row is what follows it.
  pub select_behind :
      (front : Cards F) (last : Card Double) (rest : Cards F)
      → Ordered (front ++ last ∷ rest)
      → select F (less last) (front ++ last ∷ rest) ≡ rest
  unfolding select
  select_behind [] last rest o = rw (page_less_irrefl last) (select_every (less last) rest o.0)
  select_behind (c ∷ cs) last rest o =
      rw
        (page_less_asym F order c last
          (All-append_right (λ d. less c d ≡ true) cs (last ∷ rest) o.0).0)
        (select_behind cs last rest o.1)
