-- ===== src/Card/Tag/Line/Split.antt =====
-- How a body splits: its content ends in a solid byte, what follows is blank; and the content's last
-- line starts behind a newline or at the beginning.
use holder_core.Common.{
  ℕ, zero, suc, ◌≡◌, ◌≢◌, refl, Bool, true, [], ◌∷◌, ◌++◌, arith, Text, All, length, length-append,
  take, drop, take-append, drop-append, take-append-drop, if◌then◌else◌, ◌≤◌, ◌∙◌, ℕ-cases,
  Bool-cases, inl, inr,
}
use holder_core.Card.Tag.Line.{is_blank, blank_at, content_end, split_trailing_whitespace}

-- the length of a text without its blank end
abbrev pub solid_behind : ℕ → Bool → ℕ
solid_behind zero blank = if blank then 0 else 1
solid_behind (suc n) blank = suc (suc n)

unfoldable pub solid_length : Text → ℕ
solid_length [] = 0
solid_length (c ∷ cs) = solid_behind (solid_length cs) (is_blank c)

content_end-cons :
    (c : ℕ) (cs : Text) (e : ℕ)
    → content_end (c ∷ cs) (suc e) ≡ solid_behind (content_end cs e) (is_blank c)
unfolding content_end
content_end-cons c cs zero = elim (Bool-cases (is_blank c)) [ inl b ↦ rw b | inr b ↦ rw b ]
content_end-cons c cs (suc e) = elim (Bool-cases (blank_at cs e)) [
  | inl b ↦ rw b (content_end-cons c cs e)
  | inr b ↦ rw b
]

content_end-length : (s : Text) → content_end s (length s) ≡ solid_length s
unfolding solid_length
content_end-length [] = unfold content_end in refl
content_end-length (c ∷ cs) = rw (content_end-cons c cs (length cs)) (rw (content_end-length cs))

abbrev pub IsBlank : Text → Type 0
IsBlank = All (λ c. is_blank c ≡ true)

-- nothing blank at the end
unfoldable pub IsSolid : Text → Type 0
IsSolid s = solid_length s ≡ length s

solid_length-blank : (w : Text) → IsBlank w → solid_length w ≡ 0
unfolding solid_length
solid_length-blank [] h = refl
solid_length-blank (c ∷ cs) h = rw (solid_length-blank cs h.1) (rw (h.0))

solid_length-append : (s w : Text) → IsBlank w → solid_length (s ++ w) ≡ solid_length s
unfolding solid_length
solid_length-append [] w h = solid_length-blank w h
solid_length-append (c ∷ cs) w h = rw (solid_length-append cs w h)

solid_length-le : (s : Text) → solid_length s ≤ length s
unfolding solid_length
solid_length-le [] = omega arith
solid_length-le (c ∷ cs) = elim (ℕ-cases (solid_length cs)) [
  | inl e ↦
      rw e
        (elim (Bool-cases (is_blank c)) [ inl b ↦ rw b (omega arith) | inr b ↦ rw b (omega arith) ])
  | inr (m, e) ↦ rw e (omega (arith, solid_length-le cs))
]

take-solid_behind :
    (n c : ℕ) (cs : Text)
    → n ≤ length cs
    → IsSolid (take n cs)
    → IsSolid (take (solid_behind n (is_blank c)) (c ∷ cs))
unfolding IsSolid solid_length
take-solid_behind zero c cs le h = elim (Bool-cases (is_blank c)) [
  | inl b ↦ rw b
  | inr b ↦ rw b (rw b)
]
take-solid_behind (suc n) c [] le h = absurd (omega arith)
take-solid_behind (suc n) c (d ∷ cs) le h = rw h

take-solid_length : (s : Text) → IsSolid (take (solid_length s) s)
unfolding solid_length
take-solid_length [] = unfold IsSolid in refl
take-solid_length (c ∷ cs) =
    take-solid_behind (solid_length cs) c cs (solid_length-le cs) (take-solid_length cs)

drop-solid_length : (s : Text) → IsBlank (drop (solid_length s) s)
unfolding solid_length
drop-solid_length [] = tt
drop-solid_length (c ∷ cs) = elim (ℕ-cases (solid_length cs)) [
  | inl e ↦ elim (Bool-cases (is_blank c)) [
    | inl b ↦ rw (e, b) (b, rw e at (drop-solid_length cs))
    | inr b ↦ rw (e, b) (rw e at (drop-solid_length cs))
  ]
  | inr (m, e) ↦ rw e (rw e at (drop-solid_length cs))
]

pub IsSolid-append : (s t : Text) → t ≢ [] → IsSolid t → IsSolid (s ++ t)
unfolding IsSolid solid_length
IsSolid-append [] t ne h = h
IsSolid-append (c ∷ cs) [] ne h = absurd (ne refl)
IsSolid-append (c ∷ cs) (d ∷ t) ne h =
    rw (IsSolid-append cs (d ∷ t) ne h) (rw (length-append cs (d ∷ t)) (ground arith))

-- The split of a solid text with blanks behind it.
pub split-append :
    (s w : Text)
    → IsSolid s
    → IsBlank w
    → split_trailing_whitespace (s ++ w) ≡ record { content = s; trailing_ws = w }
unfolding split_trailing_whitespace IsSolid
split-append s w hs hw =
    let e : content_end (s ++ w) (length (s ++ w)) ≡ length s =
      content_end-length (s ++ w) ∙ solid_length-append s w hw ∙ hs in
    rw e (rw (take-append s w, drop-append s w))

module _ (body : Text) where
  pub content-IsSolid : IsSolid (split_trailing_whitespace body).content
  unfolding split_trailing_whitespace
  content-IsSolid = rw (content_end-length body) (take-solid_length body)

  pub trailing_ws-IsBlank : IsBlank (split_trailing_whitespace body).trailing_ws
  unfolding split_trailing_whitespace
  trailing_ws-IsBlank = rw (content_end-length body) (drop-solid_length body)

  -- nothing is lost
  pub split-join :
      (split_trailing_whitespace body).content ++ (split_trailing_whitespace body).trailing_ws
      ≡ body
  unfolding split_trailing_whitespace
  split-join = take-append-drop _ body
