-- ===== src/Project/Slugs.antt =====
-- What `slugify` makes of any input, and that the root of a new project is free.
use holder_core.Common.{
  ℕ, zero, suc, ◌+◌, ◌≤◌, ◌<◌, ◌≡◌, refl, Bool, true, false, some, List, [], ◌∷◌, if◌then◌else◌,
  Text, ◌==◌, ◌&&◌, ◌||◌, not, is_empty, is_lower, is_digit, Bool-cases, arith, inl, inr, is_alnum,
  ltb, ap, ==_iff,
}
use holder_core.Project.{
  slug_from, drop_dashes, slugify, dash_or, candidate, is_taken, root_from, unique_project_root,
  to_lower, is_space,
}

-- a character of a slug that is not a dash
abbrev pub is_slug_char : ℕ → Bool
is_slug_char c = is_lower c || (is_digit c || c == b'_')

-- Behind a dash or the start, or behind another character: no dash follows a dash, and none ends it.
unfoldable pub is_slug_behind : Bool → Text → Bool
is_slug_behind dash [] = not dash
is_slug_behind dash (c ∷ s) =
    let behind_dash = is_slug_behind true s in
    let behind_char = is_slug_behind false s in
    if c == b'-' then not dash && behind_dash else is_slug_char c && behind_char

-- Lower-case letters, digits, underscores and single dashes between them, and not empty.
unfoldable pub is_slug : Text → Bool
unfolding is_slug_behind
is_slug = is_slug_behind true

-- the same with dashes allowed at the end
is_open : Bool → Text → Bool
is_open dash [] = true
is_open dash (c ∷ s) =
    let behind_dash = is_open true s in
    let behind_char = is_open false s in
    if c == b'-' then not dash && behind_dash else is_slug_char c && behind_char

dash_or-open :
    (empty prev_dash : Bool) (with_dash without : Text)
    → is_open true with_dash ≡ true
    → is_open (empty || prev_dash) without ≡ true
    → is_open (empty || prev_dash) (dash_or empty prev_dash with_dash without) ≡ true
unfolding is_open dash_or
dash_or-open true prev_dash with_dash without h k = k
dash_or-open false true with_dash without h k = k
dash_or-open false false with_dash without h k = h

slug_char :
    (c : ℕ)
    → (is_alnum c || (c == b'_' || c == b'-')) ≡ true
    → (to_lower c == b'-') ≡ false
    → is_slug_char (to_lower c) ≡ true
slug_char c h k = ground arith

word-open :
    (dash : Bool) (c : ℕ) (s : Text)
    → (c == b'-') ≡ false
    → is_slug_char c ≡ true
    → is_open false s ≡ true
    → is_open dash (c ∷ s) ≡ true
unfolding is_open
word-open dash c s n h k = rw n (rw h k)

slug_from_open :
    (empty prev_dash : Bool) (s : Text)
    → is_open (empty || prev_dash) (slug_from empty prev_dash s) ≡ true
unfolding slug_from is_open
slug_from_open empty prev_dash [] = refl
slug_from_open empty prev_dash (c ∷ s) =
    let skip = slug_from_open empty prev_dash s in
    let dashed =
      dash_or-open empty prev_dash (slug_from false true s) (slug_from empty prev_dash s)
        (slug_from_open false true s) skip in
    elim (Bool-cases (ltb 127 c)) [
      | inl a ↦ rw a skip
      | inr a ↦ rw a (elim (Bool-cases (is_space c)) [
        | inl b ↦ rw b dashed
        | inr b ↦ rw b (elim (Bool-cases (is_alnum c || (c == b'_' || c == b'-'))) [
          | inl d ↦ rw d (elim (Bool-cases (to_lower c == b'-')) [
            | inl e ↦ rw e dashed
            | inr e ↦ rw e (
                word-open (empty || prev_dash) (to_lower c) (slug_from false false s) e
                  (slug_char c d e) (slug_from_open false false s))
          ])
          | inr d ↦ rw d skip
        ])
      ])
    ]

empty_nil : (t : Text) → is_empty t ≡ true → t ≡ []
empty_nil [] h = refl
empty_nil (c ∷ t) h = cc

drop_dashes_closed :
    (dash : Bool) (t : Text)
    → is_open dash t ≡ true
    → is_empty (drop_dashes t) ≡ false
    → is_slug_behind dash (drop_dashes t) ≡ true
unfolding is_open drop_dashes is_slug_behind
drop_dashes_closed dash [] h n = absurd (cc n)
drop_dashes_closed dash (c ∷ s) h n = elim (Bool-cases (c == b'-')) [
  | inl d ↦ elim (Bool-cases (is_empty (drop_dashes s))) [
    | inl e ↦ absurd (cc (rw (e, d) at n))
    | inr e ↦ rw e (rw d (ground (arith, drop_dashes_closed true s)))
  ]
  | inr d ↦ elim (Bool-cases (is_empty (drop_dashes s))) [
    | inl e ↦ rw (empty_nil (drop_dashes s) e) (rw d (ground arith))
    | inr e ↦ rw e (rw d (ground (arith, drop_dashes_closed false s)))
  ]
]

-- For every input, `slugify` returns a text of lower-case letters, digits, underscores and dashes
-- that is not empty, neither begins nor ends with a dash, and has no two dashes in a row.
pub slugify-is_slug : (input : Text) → is_slug (slugify input) ≡ true
unfolding is_slug slugify
slugify-is_slug input = elim (Bool-cases (is_empty (drop_dashes (slug_from true false input)))) [
  | inl e ↦ rw e
  | inr e ↦
      rw e
        (drop_dashes_closed true (slug_from true false input) (slug_from_open true false input) e)
]

module _ (base_root slug : Text) (roots : List Text) (on_disk : Text → Bool) where
  root_from_free :
      (left attempt k : ℕ)
      → attempt ≤ k
      → k < attempt + left
      → is_taken roots on_disk (candidate base_root slug k) ≡ false
      → (root : Text) × (root_from base_root slug roots on_disk left attempt ≡ some root)
        × (is_taken roots on_disk root ≡ false)
  unfolding root_from
  root_from_free zero attempt k low high free = absurd (omega (arith, low, high))
  root_from_free (suc left) attempt k low high free =
      elim (Bool-cases (is_taken roots on_disk (candidate base_root slug attempt))) [
        | inr now ↦ (_, rw now, now)
        | inl taken ↦ elim (Bool-cases (attempt == k)) [
          | inl here ↦ absurd (
              cc (
                taken,
                ap (λ x. is_taken roots on_disk (candidate base_root slug x))
                    ((==_iff attempt k).0 here),
              ))
          | inr later ↦
              rw taken
                (root_from_free left (attempt + 1) k (ground arith) (omega (arith, high)) free)
        ]
      ]

  -- If one of the first 1000 candidates for the root of a project is neither another project's
  -- root nor on disk, `unique_project_root` returns a root, and that root is neither.
  pub unique_project_root_free :
      (k : ℕ)
      → 1 ≤ k
      → k ≤ 1000
      → is_taken roots on_disk (candidate base_root slug k) ≡ false
      → (root : Text) × (unique_project_root base_root slug roots on_disk ≡ some root)
        × (is_taken roots on_disk root ≡ false)
  unfolding unique_project_root
  unique_project_root_free k low high free = root_from_free 1000 1 k low (omega (arith, high)) free
