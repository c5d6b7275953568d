-- ===== src/Card/Reference/Answers.antt =====
-- What the result of a reference says.
use holder_core.Common.{
  ◌≤◌, ◌≡◌, refl, inl, inr, Bool, true, false, none, some, [], ◌∷◌, arith, Text, All, Bool-cases,
  Option-cases, length, take, text_eq, ◌&&◌, length-take-le, fun_ext, subst, ap, sym,
}
use holder_core.Card.{Floats, Card}
use holder_core.Card.Repo.{Cards, select, sort_by}
use holder_core.Card.Pages.{
  CardScope, find_by_id, find_by_id_prefix, find_by_exact_title, matches_prefix, in_scope,
  first_row, id_less,
}
use holder_core.Card.Pages.Sound.{select-Each, sort_by-Each, take-Each}
use holder_core.Identity.{is_valid_uuid}
use holder_core.Card.Reference.{
  CardReferenceMatchKind, full_id, id_prefix, exact_title, CardReferenceResult, nothing,
  resolved_to, ambiguous_among, from_candidates, by_full_id, or_else, by_title, by_prefix,
  by_prefix_or_title, resolve, lowercase_uuid, normalize_uuid_prefix,
}

module _ (F : Floats) (project_id reference : Text) (scope : CardScope) where
  open F use {Double}

  -- the reference names the card in that way
  unfoldable pub names : CardReferenceMatchKind → Card Double → Bool
  names full_id c = text_eq c.card_id (lowercase_uuid reference)
  names id_prefix c = elim (normalize_uuid_prefix reference) [
    | none ↦ false
    | some prefix ↦ matches_prefix prefix c.card_id
  ]
  names exact_title c = text_eq c.title reference

  -- and the card is one of the project, in the scope
  unfoldable pub fits : CardReferenceMatchKind → Card Double → Bool
  unfolding names
  fits kind c = text_eq c.project_id project_id && (names kind c && in_scope F scope c)

  -- Nothing, one card that fits, or two of them.
  pub data IsAnswer (r : CardReferenceResult F) : Type 0 where
    unknown : r ≡ nothing F → IsAnswer r
    one :
        (kind : CardReferenceMatchKind) (c : Card Double)
        → r ≡ resolved_to F c kind
        → fits kind c ≡ true
        → IsAnswer r
    two :
        (kind : CardReferenceMatchKind) (c d : Card Double)
        → r ≡ ambiguous_among F (c ∷ d ∷ []) kind
        → fits kind c ≡ true
        → fits kind d ≡ true
        → IsAnswer r

  from_candidates-IsAnswer :
      (kind : CardReferenceMatchKind) (cs : Cards F)
      → All (λ c. fits kind c ≡ true) cs
      → length cs ≤ 2
      → IsAnswer (from_candidates F cs kind)
  unfolding from_candidates
  from_candidates-IsAnswer kind [] h n = unknown refl
  from_candidates-IsAnswer kind (c ∷ []) h n = one kind c refl h.0
  from_candidates-IsAnswer kind (c ∷ d ∷ []) h n = two kind c d refl h.0 h.1.0
  from_candidates-IsAnswer kind (c ∷ d ∷ e ∷ cs) h n = absurd (omega arith)

  by_full_id-IsAnswer :
      (rows : Cards F)
      → All (λ c. fits full_id c ≡ true) rows
      → IsAnswer (by_full_id F (first_row F rows))
  unfolding by_full_id
  by_full_id-IsAnswer [] h = unknown refl
  by_full_id-IsAnswer (c ∷ cs) h = one full_id c refl h.0

  by_title-IsAnswer : (cards : Cards F) → IsAnswer (by_title F cards project_id reference scope)
  unfolding by_title find_by_exact_title fits
  by_title-IsAnswer cards =
      from_candidates-IsAnswer exact_title _
        (take-Each F (fits exact_title) 2 _ (select-Each F (fits exact_title) cards))
        (length-take-le 2 _)

  names_prefix :
      (prefix : Text)
      → normalize_uuid_prefix reference ≡ some prefix
      → (c : Card Double) → names id_prefix c ≡ matches_prefix prefix c.card_id
  unfolding names
  names_prefix prefix e c = rw (e, names)

  by_prefix-IsAnswer :
      (cards : Cards F) (prefix : Text)
      → normalize_uuid_prefix reference ≡ some prefix
      → IsAnswer (by_prefix F cards project_id prefix scope)
  unfolding by_prefix find_by_id_prefix fits
  by_prefix-IsAnswer cards prefix e =
      let test : Card Double → Bool = λ c.
        text_eq c.project_id project_id
        && (matches_prefix prefix c.card_id && in_scope F scope c) in
      let same_test : test ≡ fits id_prefix = fun_ext (λ c.
        ap (λ b. text_eq c.project_id project_id && (b && in_scope F scope c))
          (sym (names_prefix prefix e c))) in
      from_candidates-IsAnswer id_prefix _
        (subst (λ f. All (λ c. f c ≡ true) (take 2 (sort_by F (id_less F) (select F test cards))))
          same_test
          (take-Each F test 2 _ (sort_by-Each F test (id_less F) _ (select-Each F test cards))))
        (length-take-le 2 _)

  or_else-IsAnswer :
      (a b : CardReferenceResult F) → IsAnswer a → IsAnswer b → IsAnswer (or_else F a b)
  unfolding or_else
  or_else-IsAnswer a b (unknown e) k = rw e k
  or_else-IsAnswer a b (one kind c e f) k = rw e (one kind c refl f)
  or_else-IsAnswer a b (two kind c d e f g) k = rw e (two kind c d refl f g)

  -- The result of `resolve` for a card reference has one of three shapes: nothing at all; one
  -- card, with how the reference names it and no candidates; or exactly two candidates, with how
  -- and without a card. Each card in it is of the project and in the scope, and the reference
  -- names it in the way that is given: its ID is the reference in lower case, or begins with the
  -- reference as a prefix, or its title is the reference.
  pub resolve-IsAnswer : (cards : Cards F) → IsAnswer (resolve F cards project_id reference scope)
  unfolding resolve find_by_id by_prefix_or_title fits
  resolve-IsAnswer cards = elim (Bool-cases (is_valid_uuid reference)) [
    | inl v ↦ rw v (by_full_id-IsAnswer _ (select-Each F (fits full_id) cards))
    | inr v ↦ rw v (elim (Option-cases (normalize_uuid_prefix reference)) [
      | inl n ↦ rw n (by_title-IsAnswer cards)
      | inr (prefix, n) ↦
          rw n (or_else-IsAnswer _ _ (by_prefix-IsAnswer cards prefix n) (by_title-IsAnswer cards))
    ])
  ]
