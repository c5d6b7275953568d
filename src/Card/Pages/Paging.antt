-- ===== src/Card/Pages/Paging.antt =====
-- A page and the page behind its last row are one longer page.
use holder_core.Common.{
  ℕ, zero, suc, ◌+◌, ◌<◌, ◌≡◌, refl, inl, inr, Bool, true, false, Option, none, some, List, [], ◌∷◌,
  ◌++◌, arith, Text, ◌&&◌, Bool-cases, Option-cases, All, take, drop, sym, ◌∙◌, ap, is_empty,
  All-append_right, take-append-drop, subst, append_assoc, if◌then◌else◌,
}
use holder_core.Common.Int.{ℤ, pos, leb_ℤ}
use holder_core.Card.{Floats, Card}
use holder_core.Card.Repo.{Cards, select, sort_by}
use holder_core.Card.Pages.{
  CardPageOrder, card_id_asc, updated_desc, CardPageQuery, TagRow, Page, PageError, page,
  list_collection_page, page_rows, page_source, page_less, on_page, refusal, behind_cursor, or_else,
  bad_parent, bad_cursor, bad_tag, limit_not_positive,
}
use holder_core.Card.Pages.Order.{behind_cursor-page_less, behind_cursor_trans, cursor_at, Unlike}
use holder_core.Card.Pages.Next.{
  sort_by-Ordered, sort_by-select, select_behind, Ordered, select-Unlike,
}
use holder_core.Card.Pages.Sound.{select-Each, sort_by-Each, take-Each}

take_more : {A : Type 0} (n m : ℕ) (xs : List A) → take (n + m) xs ≡ take n xs ++ take m (drop n xs)
take_more zero m xs = let z : 0 + m ≡ m = omega arith in ap (λ k. take k xs) z
take_more (suc n) zero [] = let z : suc n + 0 ≡ suc n = omega arith in ap (λ k. take k []) z
take_more (suc n) (suc m) [] =
    let z : suc n + suc m ≡ suc (n + suc m) = omega arith in ap (λ k. take k []) z
take_more (suc n) m (x ∷ xs) =
    let z : suc n + m ≡ suc (n + m) = omega arith in
    ap (λ k. take k (x ∷ xs)) z ∙ ap (◌∷◌ x) (take_more n m xs)

-- A list that starts with these is these and what follows.
starts :
    {A : Type 0} (n : ℕ) (xs front : List A) (last : A)
    → take n xs ≡ front ++ last ∷ []
    → xs ≡ front ++ last ∷ drop n xs
starts n xs front last h =
    sym (take-append-drop n xs)
    ∙ ap (λ ys. ys ++ drop n xs) h
    ∙ append_assoc front (last ∷ []) (drop n xs)

module _ (F : Floats) where
  open F use {Double}

  -- the query for the rows behind a row
  abbrev pub behind : CardPageQuery → Card Double → CardPageQuery
  behind query last = record query { cursor = some (cursor_at F last) }

  select_and :
      (p both more : Card Double → Bool) (cs : Cards F)
      → ((c : Card Double) → both c ≡ (p c && more c))
      → select F both cs ≡ select F more (select F p cs)
  unfolding select
  select_and p both more [] h = refl
  select_and p both more (c ∷ cs) h = elim (Bool-cases (p c)) [
    | inl b ↦ elim (Bool-cases (more c)) [
      | inl d ↦ rw (h c) (rw (b, d) (ap (◌∷◌ c) (select_and p both more cs h)))
      | inr d ↦ rw (h c) (rw (b, d) (select_and p both more cs h))
    ]
    | inr b ↦ rw (h c) (rw b (select_and p both more cs h))
  ]

  on_page-behind :
      (project_id : Text) (query : CardPageQuery) (last : Card Double)
      → behind_cursor F query.order query.cursor last ≡ true
      → (c : Card Double)
      → on_page F project_id (behind query last) c
        ≡ (on_page F project_id query c && page_less F query.order last c)
  unfolding on_page
  on_page-behind project_id query last h c =
      let follows = behind_cursor_trans F query.order query.cursor last c h in
      let same = behind_cursor-page_less F query.order last c in ground (arith, follows, same)

  or_else-none : (a b : Option PageError) → or_else F a b ≡ none → (a ≡ none) × (b ≡ none)
  or_else-none none b h = (refl, h)
  or_else-none (some e) b h = cc

  some_limit : (m : ℕ) → 0 < m → leb_ℤ (pos m) (pos 0) ≡ false
  some_limit m h = ground (arith, h)

  good_cursor :
      (order : CardPageOrder) (last : Card Double)
      → is_empty last.card_id ≡ false
      → bad_cursor F order (cursor_at F last) ≡ none
  good_cursor card_id_asc last h = rw h
  good_cursor updated_desc last h = rw h

  refusal_next :
      (query : CardPageQuery) (last : Card Double) (limit : ℤ) (m : ℕ)
      → refusal F query limit ≡ none
      → is_empty last.card_id ≡ false
      → 0 < m
      → refusal F (behind query last) (pos m) ≡ none
  unfolding refusal
  refusal_next query last limit m h full some_left =
      let (a, r1) =
        or_else-none (if leb_ℤ limit (pos 0) then some limit_not_positive else none) _ h in
      let (b, r2) = or_else-none (bad_parent F query.parent) _ r1 in
      let (c, d) =
        or_else-none
          (elim query.cursor as (λ x. Option PageError) [
            | none ↦ none
            | some cursor ↦ bad_cursor F query.order cursor
          ])
          (bad_tag F query.tag) r2 in
      rw (some_limit m some_left) (rw b (rw (good_cursor query.order last full) d))

  refusal_longer :
      (query : CardPageQuery) (limit : ℤ) (m : ℕ)
      → refusal F query limit ≡ none
      → 0 < m
      → refusal F query (pos m) ≡ none
  unfolding refusal
  refusal_longer query limit m h some_left =
      let (a, rest) = or_else-none _ _ h in rw (some_limit m some_left) rest

  page_eq : {A : Type 0} {a b : A} → Path (Page A) (page a) (page b) → a ≡ b
  page_eq e = cc

  module _ (tags : List TagRow) (repo : Cards F) (project_id : Text) where
    pages :
        (query : CardPageQuery) (limit : ℤ) (rows : Cards F)
        → list_collection_page F tags repo project_id query limit ≡ page rows
        → (refusal F query limit ≡ none) × (page_rows F tags repo project_id query limit ≡ rows)
    unfolding list_collection_page
    pages query limit rows h = elim (Option-cases (refusal F query limit)) [
      | inl n ↦ (n, page_eq (rw (n, list_collection_page) at h))
      | inr (e, n) ↦ absurd (cc (rw (n, list_collection_page) at h))
    ]

    paged :
        (query : CardPageQuery) (limit : ℤ)
        → refusal F query limit ≡ none
        → list_collection_page F tags repo project_id query limit
          ≡ page (page_rows F tags repo project_id query limit)
    unfolding list_collection_page
    paged query limit n = rw (n, list_collection_page)

    -- all rows that the query asks for, in its order
    sorted : CardPageQuery → Cards F
    sorted query =
        sort_by F (page_less F query.order)
          (select F (on_page F project_id query) (page_source F tags repo project_id query.tag))

    page_rows_lem :
        (query : CardPageQuery) (n : ℕ)
        → page_rows F tags repo project_id query (pos n) ≡ take n (sorted query)
    unfolding page_rows sorted
    page_rows_lem query n = refl

    sorted-each :
        (query : CardPageQuery) → All (λ c. on_page F project_id query c ≡ true) (sorted query)
    unfolding sorted
    sorted-each query =
        sort_by-Each F (on_page F project_id query) (page_less F query.order) _
          (select-Each F (on_page F project_id query) _)

    last_behind :
        (query : CardPageQuery) (front : Cards F) (last : Card Double) (n : ℕ)
        → take n (sorted query) ≡ front ++ last ∷ []
        → behind_cursor F query.order query.cursor last ≡ true
    unfolding on_page
    last_behind query front last n h =
        let each = take-Each F (on_page F project_id query) n (sorted query) (sorted-each query) in
        let here =
          All-append_right (λ c. on_page F project_id query c ≡ true) front (last ∷ [])
            (rw h at each) in
        ground (arith, here.0)

    sorted-behind :
        (query : CardPageQuery) (front : Cards F) (last : Card Double) (n : ℕ)
        → Unlike F (page_source F tags repo project_id query.tag)
        → take n (sorted query) ≡ front ++ last ∷ []
        → sorted (behind query last) ≡ drop n (sorted query)
    unfolding sorted
    sorted-behind query front last n unlike h =
        let source = page_source F tags repo project_id query.tag in
        let rows = select F (on_page F project_id query) source in
        let apart = select-Unlike F query.order (on_page F project_id query) source unlike in
        let whole = starts n (sorted query) front last h in
        let ordered = sort_by-Ordered F query.order rows apart in
        ap (sort_by F (page_less F query.order)) (
          select_and (on_page F project_id query) (on_page F project_id (behind query last))
            (page_less F query.order last) source
            (on_page-behind project_id query last (last_behind query front last n h)))
        ∙ sort_by-select F query.order (page_less F query.order last) rows apart
        ∙ ap (select F (page_less F query.order last)) whole
        ∙ select_behind F query.order front last (drop n (sorted query))
            (subst (Ordered F query.order) whole ordered)

    -- Let no ID stand twice in what the query reads. If a page of `list_collection_page` ends
    -- with a row that has an ID, the query with the cursor at that row, for one row or more, is
    -- not refused, and its page and the one before it are together the page that is asked for
    -- with both limits in one: no row is lost or met twice, in either order, with any parent or
    -- tag.
    pub list_collection_page_next :
        (query : CardPageQuery) (n m : ℕ) (front : Cards F) (last : Card Double)
        → Unlike F (page_source F tags repo project_id query.tag)
        → list_collection_page F tags repo project_id query (pos n) ≡ page (front ++ last ∷ [])
        → is_empty last.card_id ≡ false
        → 0 < m
        → (rest : Cards F) × (list_collection_page F tags repo project_id
              (behind query last)
              (pos m)
            ≡ page rest)
          × (list_collection_page F tags repo project_id query (pos (n + m))
              ≡ page ((front ++ last ∷ []) ++ rest))
    list_collection_page_next query n m front last unlike first full some_left =
        let (good, taken) = pages query (pos n) (front ++ last ∷ []) first in
        let front_rows = sym (page_rows_lem query n) ∙ taken in
        (
          take m (drop n (sorted query)),
          paged (behind query last) (pos m) (refusal_next query last (pos n) m good full some_left)
              ∙ ap page (
                  page_rows_lem (behind query last) m
                  ∙ ap (take m) (sorted-behind query front last n unlike front_rows)),
          paged query (pos (n + m)) (refusal_longer query (pos n) (n + m) good (omega arith))
              ∙ ap page (
                  page_rows_lem query (n + m)
                  ∙ take_more n m (sorted query)
                  ∙ ap (λ ys. ys ++ take m (drop n (sorted query))) front_rows),
        )
