-- ===== src/Card/Tag/Line/Tokens.antt =====
-- The parser and the printer of a tag line.
use holder_core.Common.{
  ℕ, zero, suc, ◌+◌, ◌≡◌, refl, inl, inr, true, false, Option, some, List, [], ◌∷◌, ◌++◌, arith,
  Text, ◌≢◌, length, All, ltb, ◌≤◌, sym, all_of, ◌<◌, ◌∙◌, append-nil, length-append, append_assoc,
  ap, Bool-cases, subst, ◌==◌, All-append,
}
use holder_core.Card.Tag.Word.{IsTagWord, is_valid_tag-bytes, normalize_tag-IsTagWord}
use holder_core.Card.Tag.Line.{
  parse_pure_tag_line, join_tag_line, read_tags, read_tag, join_from, is_line_whitespace,
  after_token, token, nonempty_tags, skip_whitespace, is_blank,
}
use holder_core.Card.Tag.{is_tag_byte, normalize_tag, is_valid_tag}

-- the tags behind the first one
unfoldable pub spaced : List Text → Text
spaced [] = []
spaced (t ∷ ts) = b' ' ∷ b'#' ∷ (t ++ spaced ts)

is_tag_byte-solid :
    (c : ℕ) → is_tag_byte c ≡ true → (is_line_whitespace c ≡ false) × (is_blank c ≡ false)
unfolding is_tag_byte
is_tag_byte-solid c h = ground arith

abbrev AtBlank : Text → Type 0
AtBlank [] = Unit
AtBlank (c ∷ cs) = is_line_whitespace c ≡ true

module _ (rest : Text) (blank : AtBlank rest) where
  token-append : (t : Text) → all_of is_tag_byte t ≡ true → token (t ++ rest) ≡ t
  unfolding token
  token-append [] h = at rest blank
    where
      at : (r : Text) → AtBlank r → token r ≡ []
      at [] b = refl
      at (c ∷ cs) b = rw b
  token-append (c ∷ cs) h =
      let (p, q) : (is_tag_byte c ≡ true) × (all_of is_tag_byte cs ≡ true) =
        (ground arith, ground arith) in
      rw ((is_tag_byte-solid c p).0) (ap (◌∷◌ c) (token-append cs q))

  after_token-append : (t : Text) → all_of is_tag_byte t ≡ true → after_token (t ++ rest) ≡ rest
  unfolding after_token
  after_token-append [] h = at rest blank
    where
      at : (r : Text) → AtBlank r → after_token r ≡ r
      at [] b = refl
      at (c ∷ cs) b = rw b
  after_token-append (c ∷ cs) h =
      let (p, q) : (is_tag_byte c ≡ true) × (all_of is_tag_byte cs ≡ true) =
        (ground arith, ground arith) in
      rw ((is_tag_byte-solid c p).0) (after_token-append cs q)

AtBlank-spaced : (ts : List Text) → AtBlank (spaced ts)
unfolding spaced
AtBlank-spaced [] = tt
AtBlank-spaced (t ∷ ts) = refl

read_tags-step :
    (fuel : ℕ) (t : Text) (rest : Text) (acc : List Text)
    → IsTagWord t
    → AtBlank rest
    → read_tag (read_tags fuel) (b'#' ∷ (t ++ rest)) acc ≡ read_tags fuel rest (acc ++ t ∷ [])
unfolding read_tag
read_tags-step fuel t rest acc w b =
    let bytes = (is_valid_tag-bytes t w.valid).1 in
    rw (token-append rest b t bytes, after_token-append rest b t bytes) (rw (w.valid, w.normal))

read_tags-spaced :
    (fuel : ℕ) (ts acc : List Text)
    → All IsTagWord ts
    → length ts < fuel
    → read_tags fuel (spaced ts) acc ≡ nonempty_tags (acc ++ ts)
unfolding read_tags skip_whitespace read_tag spaced
read_tags-spaced zero ts acc h lt = absurd (omega arith)
read_tags-spaced (suc fuel) [] acc h lt = rw (append-nil acc)
read_tags-spaced (suc fuel) (t ∷ ts) acc h lt =
    read_tags-step fuel t (spaced ts) acc h.0 (AtBlank-spaced ts)
    ∙ read_tags-spaced fuel ts (acc ++ t ∷ []) h.1 (omega arith)
    ∙ ap nonempty_tags (append_assoc acc (t ∷ []) ts)

join_from-spaced :
    (i : ℕ) (line : Text) (ts : List Text)
    → ltb 0 i ≡ true
    → join_from i line ts ≡ line ++ spaced ts
unfolding join_from spaced
join_from-spaced i line [] h = sym (append-nil line)
join_from-spaced i line (t ∷ ts) h = rw h (
    join_from-spaced (i + 1) (line ++ b' ' ∷ b'#' ∷ t) ts (ground arith)
    ∙ append_assoc line (b' ' ∷ b'#' ∷ t) (spaced ts))

pub join_tag_line-cons :
    (t : Text) (ts : List Text) → join_tag_line (t ∷ ts) ≡ b'#' ∷ (t ++ spaced ts)
unfolding join_tag_line join_from
join_tag_line-cons t ts = join_from-spaced (0 + 1) (b'#' ∷ t) ts refl

length-spaced : (ts : List Text) → length ts ≤ length (spaced ts)
unfolding spaced
length-spaced [] = omega arith
length-spaced (t ∷ ts) = omega (arith, length-append t (spaced ts), length-spaced ts)

abbrev line_fuel : Text → List Text → ℕ
line_fuel t ts = length (b'#' ∷ (t ++ spaced ts))

-- Parsing the printed line of one or more normal tags gives the tags back.
pub parse_pure_tag_line-join_tag_line :
    (ts : List Text) → ts ≢ [] → All IsTagWord ts → parse_pure_tag_line (join_tag_line ts) ≡ some ts
parse_pure_tag_line-join_tag_line [] ne h = absurd (ne refl)
parse_pure_tag_line-join_tag_line (t ∷ ts) ne h = rw (join_tag_line-cons t ts) (
    unfold parse_pure_tag_line skip_whitespace in
    read_tags-step (line_fuel t ts) t (spaced ts) [] h.0 (AtBlank-spaced ts)
    ∙ read_tags-spaced (line_fuel t ts) ts (t ∷ []) h.1
        (omega (arith, length-append t (spaced ts), length-spaced ts)))

-- What the parser returns are normal tags, one at least.
module _ (out : List Text) where
  nonempty_tags-eq-some :
      (acc : List Text)
      → All IsTagWord acc
      → nonempty_tags acc ≡ some out
      → (out ≢ []) × All IsTagWord out
  unfolding nonempty_tags
  nonempty_tags-eq-some [] h e = cc
  nonempty_tags-eq-some (t ∷ ts) h e =
      let e' : t ∷ ts ≡ out = cc in subst (λ l. (l ≢ []) × All IsTagWord l) e' (λ z. cc, h)

  abbrev Good : Type 0
  Good = (out ≢ []) × All IsTagWord out

  read_tag-IsTagWord :
      (next : Text → List Text → Option (List Text))
      → ((r : Text) (a : List Text) → All IsTagWord a → next r a ≡ some out → Good)
      → (rest : Text) (acc : List Text) → All IsTagWord acc
      → read_tag next rest acc ≡ some out
      → Good
  unfolding read_tag
  read_tag-IsTagWord next ih [] acc h e = nonempty_tags-eq-some acc h e
  read_tag-IsTagWord next ih (c ∷ cs) acc h e = elim (Bool-cases (c == b'#')) [
    | inr b ↦ cc (rw b at e)
    | inl b ↦ elim (Bool-cases (is_valid_tag (token cs))) [
      | inr v ↦ cc (rw (b, v) at e)
      | inl v ↦
          ih (after_token cs) (acc ++ normalize_tag (token cs) ∷ [])
            (All-append _ acc (normalize_tag (token cs) ∷ []) h
              (normalize_tag-IsTagWord (token cs) v, tt))
            (rw (b, v) at e)
    ]
  ]

  read_tags-IsTagWord :
      (fuel : ℕ) (rest : Text) (acc : List Text)
      → All IsTagWord acc
      → read_tags fuel rest acc ≡ some out
      → Good
  unfolding read_tags
  read_tags-IsTagWord zero rest acc h e = cc
  read_tags-IsTagWord (suc fuel) rest acc h e =
      read_tag-IsTagWord (read_tags fuel) (read_tags-IsTagWord fuel) (skip_whitespace rest) acc h e

pub parse_pure_tag_line-IsTagWord :
    (line : Text) (ts : List Text)
    → parse_pure_tag_line line ≡ some ts
    → (ts ≢ []) × All IsTagWord ts
unfolding parse_pure_tag_line
parse_pure_tag_line-IsTagWord line ts e = read_tags-IsTagWord ts (suc (length line)) line [] tt e

length-after_token : (s : Text) → length (after_token s) ≤ length s
unfolding after_token
length-after_token [] = omega arith
length-after_token (c ∷ cs) = elim (Bool-cases (is_line_whitespace c)) [
  | inl b ↦ rw b (omega arith)
  | inr b ↦ rw b (omega (arith, length-after_token cs))
]

length-skip_whitespace : (s : Text) → length (skip_whitespace s) ≤ length s
unfolding skip_whitespace
length-skip_whitespace [] = omega arith
length-skip_whitespace (c ∷ cs) = elim (Bool-cases (is_line_whitespace c)) [
  | inl b ↦ rw b (omega (arith, length-skip_whitespace cs))
  | inr b ↦ rw b (omega arith)
]

read_tag-same :
    (next next' : Text → List Text → Option (List Text)) (bound : ℕ)
    → ((r : Text) (a : List Text) → length r < bound → next r a ≡ next' r a)
    → (rest : Text) (acc : List Text) → length rest ≤ bound
    → read_tag next rest acc ≡ read_tag next' rest acc
unfolding read_tag
read_tag-same next next' bound same [] acc le = refl
read_tag-same next next' bound same (c ∷ cs) acc le = rw (
    same (after_token cs) (acc ++ normalize_tag (token cs) ∷ [])
      (omega (arith, length-after_token cs)))

-- The loop of `parse_pure_tag_line` ends by its own test before the fuel does: any fuel above the
-- length of the rest gives the same result.
pub read_tags_fuel :
    (f g : ℕ) (rest : Text) (acc : List Text)
    → length rest < f
    → length rest < g
    → read_tags f rest acc ≡ read_tags g rest acc
unfolding read_tags
read_tags_fuel zero g rest acc hf hg = absurd (omega arith)
read_tags_fuel (suc f) zero rest acc hf hg = absurd (omega arith)
read_tags_fuel (suc f) (suc g) rest acc hf hg =
    read_tag-same (read_tags f) (read_tags g) (length rest)
      (λ r a lt. read_tags_fuel f g r a (omega arith) (omega arith)) (skip_whitespace rest) acc
      (length-skip_whitespace rest)
