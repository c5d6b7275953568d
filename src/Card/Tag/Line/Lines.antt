-- ===== src/Card/Tag/Line/Lines.antt =====
-- Where the last line starts, and what a printed tag line is like as a text.
use holder_core.Common.{
  ℕ, zero, suc, ◌≡◌, refl, inl, inr, Bool, true, false, List, [], ◌∷◌, ◌++◌, arith, ◌==◌, Text, All,
  all_of, ◌≤◌, take, length, ◌≢◌, length-append, ℕ-cases, All-append, Bool-cases, append-nil,
}
use holder_core.Card.Tag.Word.{IsTagWord, is_valid_tag-bytes}
use holder_core.Card.Tag.Line.Tokens.{spaced, join_tag_line-cons}
use holder_core.Card.Tag.{is_tag_byte}
use holder_core.Card.Tag.Line.Split.{IsSolid, IsSolid-append, solid_length, solid_behind}
use holder_core.Card.Tag.Line.{last_line_start, is_blank, line_start_behind, join_tag_line}

abbrev NoNewline : Text → Type 0
NoNewline = All (λ c. (c == b'\n') ≡ false)

-- empty, or a newline at the end
unfoldable pub EndsLine : Text → Type 0
EndsLine s = last_line_start s ≡ length s

last_line_start-newline_free : (t : Text) → NoNewline t → last_line_start t ≡ 0
unfolding last_line_start
last_line_start-newline_free [] h = refl
last_line_start-newline_free (c ∷ cs) h = rw (last_line_start-newline_free cs h.1) (rw (h.0))

pub last_line_start-append :
    (s t : Text) → NoNewline t → last_line_start (s ++ t) ≡ last_line_start s
unfolding last_line_start
last_line_start-append [] t h = last_line_start-newline_free t h
last_line_start-append (c ∷ cs) t h = rw (last_line_start-append cs t h)

last_line_start-le : (s : Text) → last_line_start s ≤ length s
unfolding last_line_start
last_line_start-le [] = omega arith
last_line_start-le (c ∷ cs) = elim (ℕ-cases (last_line_start cs)) [
  | inl e ↦
      rw e
        (elim (Bool-cases (c == b'\n')) [ inl b ↦ rw b (omega arith) | inr b ↦ rw b (omega arith) ])
  | inr (m, e) ↦ rw e (omega (arith, last_line_start-le cs))
]

take-line_start_behind :
    (n c : ℕ) (cs : Text)
    → n ≤ length cs
    → EndsLine (take n cs)
    → EndsLine (take (line_start_behind n (c == b'\n')) (c ∷ cs))
unfolding EndsLine last_line_start
take-line_start_behind zero c cs le h = elim (Bool-cases (c == b'\n')) [
  | inl b ↦ rw b (rw b)
  | inr b ↦ rw b
]
take-line_start_behind (suc n) c [] le h = absurd (omega arith)
take-line_start_behind (suc n) c (d ∷ cs) le h = rw h

pub take-EndsLine : (s : Text) → EndsLine (take (last_line_start s) s)
unfolding last_line_start
take-EndsLine [] = unfold EndsLine in refl
take-EndsLine (c ∷ cs) =
    take-line_start_behind (last_line_start cs) c cs (last_line_start-le cs) (take-EndsLine cs)

pub EndsLine-append : (s t : Text) → t ≢ [] → EndsLine t → EndsLine (s ++ t)
unfolding EndsLine last_line_start
EndsLine-append [] t ne h = h
EndsLine-append (c ∷ cs) [] ne h = absurd (ne refl)
EndsLine-append (c ∷ cs) (d ∷ t) ne h =
    rw (EndsLine-append cs (d ∷ t) ne h) (rw (length-append cs (d ∷ t)) (ground arith))

-- the bytes of a tag line
abbrev IsPlain : ℕ → Type 0
IsPlain c = (c == b'\n') ≡ false

tag_byte-IsPlain : (c : ℕ) → is_tag_byte c ≡ true → (IsPlain c) × (is_blank c ≡ false)
unfolding is_tag_byte
tag_byte-IsPlain c h = ground arith

NoNewline-tag : (t : Text) → all_of is_tag_byte t ≡ true → NoNewline t
NoNewline-tag [] h = tt
NoNewline-tag (c ∷ cs) h =
    let (p, q) : (is_tag_byte c ≡ true) × (all_of is_tag_byte cs ≡ true) =
      (ground arith, ground arith) in
    ((tag_byte-IsPlain c p).0, NoNewline-tag cs q)

IsSolid-tag : (t : Text) → all_of is_tag_byte t ≡ true → IsSolid t
unfolding IsSolid solid_length
IsSolid-tag [] h = refl
IsSolid-tag (c ∷ cs) h =
    let (p, q) : (is_tag_byte c ≡ true) × (all_of is_tag_byte cs ≡ true) =
      (ground arith, ground arith) in
    rw (IsSolid-tag cs q) (by_length (length cs) ((tag_byte-IsPlain c p).1))
  where
    by_length : (n : ℕ) {b : Bool} → b ≡ false → solid_behind n b ≡ suc n
    by_length zero e = rw e
    by_length (suc n) e = refl

NoNewline-spaced : (ts : List Text) → All IsTagWord ts → NoNewline (spaced ts)
unfolding spaced
NoNewline-spaced [] h = tt
NoNewline-spaced (t ∷ ts) h =
    let bytes = (is_valid_tag-bytes t h.0.valid).1 in
    (refl, (refl, All-append _ t (spaced ts) (NoNewline-tag t bytes) (NoNewline-spaced ts h.1)))

word-ne-nil : (t : Text) (ts : List Text) → IsTagWord t → t ++ spaced ts ≢ []
word-ne-nil [] ts w = absurd ((is_valid_tag-bytes [] w.valid).0 refl)
word-ne-nil (c ∷ cs) ts w = λ e. cc

IsSolid-word :
    (t : Text) (ts : List Text) → IsTagWord t → All IsTagWord ts → IsSolid (t ++ spaced ts)
unfolding spaced
IsSolid-word t [] w h = rw (append-nil t) (IsSolid-tag t (is_valid_tag-bytes t w.valid).1)
IsSolid-word t (u ∷ us) w h =
    IsSolid-append t (b' ' ∷ b'#' ∷ (u ++ spaced us)) (λ e. cc)
      (IsSolid-append (b' ' ∷ b'#' ∷ []) (u ++ spaced us) (word-ne-nil u us h.0)
        (IsSolid-word u us h.0 h.1))

pub NoNewline-join_tag_line :
    (ts : List Text) → ts ≢ [] → All IsTagWord ts → NoNewline (join_tag_line ts)
NoNewline-join_tag_line [] ne h = absurd (ne refl)
NoNewline-join_tag_line (t ∷ ts) ne h = rw (join_tag_line-cons t ts) (
  refl,
  All-append _ t (spaced ts) (NoNewline-tag t (is_valid_tag-bytes t h.0.valid).1)
      (NoNewline-spaced ts h.1),
)

pub join_tag_line-ne-nil : (ts : List Text) → ts ≢ [] → join_tag_line ts ≢ []
join_tag_line-ne-nil [] ne = absurd (ne refl)
join_tag_line-ne-nil (t ∷ ts) ne = rw (join_tag_line-cons t ts) (λ e. cc)

pub IsSolid-join_tag_line :
    (ts : List Text) → ts ≢ [] → All IsTagWord ts → IsSolid (join_tag_line ts)
IsSolid-join_tag_line [] ne h = absurd (ne refl)
IsSolid-join_tag_line (t ∷ ts) ne h =
    rw (join_tag_line-cons t ts) (
      IsSolid-append (b'#' ∷ []) (t ++ spaced ts) (word-ne-nil t ts h.0)
        (IsSolid-word t ts h.0 h.1))
