-- ===== src/Card/Tag/Line/Removal.antt =====
-- What `remove_from_trailing_tag_line` does: its outcome, the tags it leaves, and that it undoes an
-- insertion.
use holder_core.Common.{
  ℕ, zero, suc, ◌+◌, ◌≡◌, refl, inl, inr, Bool, true, false, Option, none, some, List, [], ◌∷◌,
  ◌++◌, arith, if◌then◌else◌, Text, All, ◌≢◌, Bool-cases, contains, is_empty, text_eq, length, text,
  ap, ◌∙◌, take-append, take, length-append, text_eq_refl, sym, append_assoc, ◌⊎◌,
}
use holder_core.Card.Tag.Word.{IsTagWord}
use holder_core.Card.Tag.Line.{
  remove_from_trailing_tag_line, remove_split, erase_first, remove_after, remove_left, removed,
  split_trailing_whitespace, tags_or_empty, tags_split, tags_on_trailing_line, BodySplit,
  RemoveTagLineResult, not_on_trailing_line, last_line_tags, newline_at, pop_newlines,
  join_tag_line, changed, last_line_start, upsert_split, upsert_trailing_tag_line, upsert_after,
  join_from,
}
use holder_core.Card.Tag.Line.Edits.{
  tags_on_trailing_line-line, tags_on_trailing_line_lem, last_line_tags-IsTagWord,
  last_line_start-line, EndsLine-blank_line, last_line_tags-line, line-ne-nil, line-IsSolid,
  upsert_trailing_tag_line_lem,
}
use holder_core.Card.Tag.Line.Lines.{take-EndsLine}
use holder_core.Card.Tag.Line.Split.{
  trailing_ws-IsBlank, IsSolid, solid_length, solid_behind, split-append, content-IsSolid,
  split-join,
}

remove_lem :
    (body tag : Text)
    → remove_from_trailing_tag_line body tag
      ≡ remove_split body tag (split_trailing_whitespace body)
unfolding remove_from_trailing_tag_line
remove_lem body tag = refl

-- what the result says of the tags found before
abbrev pub Reports : Text → Text → List Text → RemoveTagLineResult → Type 0
Reports body tag ts r =
    (r.outcome ≡ (if contains tag ts then removed else not_on_trailing_line))
    × ((contains tag ts ≡ true) ⊎ (r.new_body ≡ body))

remove_left-removed : (c w : Text) (ts : List Text) → (remove_left c w ts).outcome ≡ removed
unfolding remove_left
remove_left-removed c w [] = refl
remove_left-removed c w (t ∷ ts) = refl

remove_after-Reports :
    (body c w tag : Text) (o : Option (List Text))
    → Reports body tag (tags_or_empty o) (remove_after body c w tag o)
unfolding remove_after
remove_after-Reports body c w tag none = unfold contains in (refl, inr refl)
remove_after-Reports body c w tag (some ts) = elim (Bool-cases (contains tag ts)) [
  | inl b ↦ rw b (remove_left-removed c w (erase_first tag ts), inl refl)
  | inr b ↦ rw b (refl, inr refl)
]

remove_split-Reports :
    (body tag : Text) (s : BodySplit) → Reports body tag (tags_split s) (remove_split body tag s)
unfolding remove_split tags_split
remove_split-Reports body tag s = elim (Bool-cases (is_empty s.content)) [
  | inl b ↦ rw b (unfold contains in (refl, inr refl))
  | inr b ↦ rw b (remove_after-Reports body s.content s.trailing_ws tag (last_line_tags s.content))
]

-- `remove_from_trailing_tag_line` reports `removed` exactly if the tag is among those that
-- `tags_on_trailing_line` returns, and otherwise leaves the body as it was.
pub remove-Reports :
    (body tag : Text)
    → Reports body tag (tags_on_trailing_line body) (remove_from_trailing_tag_line body tag)
remove-Reports body tag =
    rw (remove_lem body tag, tags_on_trailing_line_lem body)
      (remove_split-Reports body tag (split_trailing_whitespace body))

All-erase_first :
    (tag : Text) (ts : List Text) → All IsTagWord ts → All IsTagWord (erase_first tag ts)
unfolding erase_first
All-erase_first tag [] h = tt
All-erase_first tag (t ∷ ts) h = elim (Bool-cases (text_eq t tag)) [
  | inl b ↦ rw b (h.1)
  | inr b ↦ rw b (h.0, All-erase_first tag ts h.1)
]

module _ (body tag : Text) where
  abbrev split : BodySplit
  split = split_trailing_whitespace body

  remove_left-tags :
      (ts : List Text)
      → ts ≢ []
      → All IsTagWord ts
      → tags_on_trailing_line (remove_left split.content split.trailing_ws ts).new_body ≡ ts
  unfolding remove_left
  remove_left-tags [] ne h = absurd (ne refl)
  remove_left-tags (t ∷ ts) ne h =
      tags_on_trailing_line-line _ (t ∷ ts) split.trailing_ws (take-EndsLine split.content) ne h
        (trailing_ws-IsBlank body)

  remove_after-tags :
      (o : Option (List Text))
      → last_line_tags split.content ≡ o
      → contains tag (tags_or_empty o) ≡ true
      → erase_first tag (tags_or_empty o) ≢ []
      → tags_on_trailing_line (remove_after body split.content split.trailing_ws tag o).new_body
        ≡ erase_first tag (tags_or_empty o)
  remove_after-tags none e h ne = unfold contains in cc h
  remove_after-tags (some ts) e h ne =
      unfold remove_after in
      rw h (
        remove_left-tags (erase_first tag ts) ne
          (All-erase_first tag ts (last_line_tags-IsTagWord split.content ts e).1))

  remove_split-tags :
      contains tag (tags_split split) ≡ true
      → erase_first tag (tags_split split) ≢ []
      → tags_on_trailing_line (remove_split body tag split).new_body
        ≡ erase_first tag (tags_split split)
  unfolding remove_split tags_split
  remove_split-tags h ne = elim (Bool-cases (is_empty split.content)) [
    | inl b ↦ unfold contains in cc (rw b at h)
    | inr b ↦ rw b (remove_after-tags (last_line_tags split.content) refl (rw b at h) (rw b at ne))
  ]

-- Where the trailing line holds the tag and another one, the line that
-- `remove_from_trailing_tag_line` leaves holds the others, in order: the first occurrence of the
-- tag is gone.
pub remove-tags :
    (body tag : Text)
    → contains tag (tags_on_trailing_line body) ≡ true
    → erase_first tag (tags_on_trailing_line body) ≢ []
    → tags_on_trailing_line (remove_from_trailing_tag_line body tag).new_body
      ≡ erase_first tag (tags_on_trailing_line body)
remove-tags body tag h ne =
    rw (remove_lem body tag, tags_on_trailing_line_lem body)
      (remove_split-tags body tag (rw (tags_on_trailing_line_lem body) at h)
        (rw (tags_on_trailing_line_lem body) at ne))

-- The pops of newlines stop at the last byte of a solid text.
newline_at-solid :
    (x : ℕ) (cs t : Text) → IsSolid (x ∷ cs) → newline_at ((x ∷ cs) ++ t) (length cs) ≡ false
unfolding IsSolid solid_length
newline_at-solid x [] t h = ground arith
newline_at-solid x (y ∷ cs) t h = newline_at-solid y cs t (tail (solid_length (y ∷ cs)) _ h)
  where
    tail : (n : ℕ) (b : Bool) → solid_behind n b ≡ suc (suc (length cs)) → n ≡ suc (length cs)
    tail zero b e = ground arith
    tail (suc n) b e = omega arith

newline_at-append : (s t : Text) (i : ℕ) → newline_at (s ++ t) (length s + i) ≡ newline_at t i
newline_at-append [] t i = let e : 0 + i ≡ i = omega arith in rw e
newline_at-append (c ∷ cs) t i =
    let e : length (c ∷ cs) + i ≡ suc (length cs + i) = omega arith in
    rw e (newline_at-append cs t i)

abbrev blank_line : Text
blank_line = text "\n\n"

pop_newlines-blank_line :
    (x : ℕ) (cs : Text)
    → IsSolid (x ∷ cs)
    → pop_newlines (suc (suc (length (x ∷ cs)))) ((x ∷ cs) ++ blank_line) ≡ x ∷ cs
unfolding pop_newlines
pop_newlines-blank_line x cs h =
    let c = x ∷ cs in
    let n1 : suc (length c) ≡ length c + 1 = omega arith in
    let n0 : length c ≡ length c + 0 = omega arith in
    let e1 : newline_at (c ++ blank_line) (suc (length c)) ≡ true =
      ap (newline_at (c ++ blank_line)) n1 ∙ newline_at-append c blank_line 1 in
    let e0 : newline_at (c ++ blank_line) (length c) ≡ true =
      ap (newline_at (c ++ blank_line)) n0 ∙ newline_at-append c blank_line 0 in
    rw e1 (rw e0 (rw (newline_at-solid x cs blank_line h) (ap (◌∷◌ x) (take-append cs blank_line))))

module _ (body tag : Text) (word : IsTagWord tag) where
  abbrev parts : BodySplit
  parts = split_trailing_whitespace body

  abbrev one : List Text
  one = tag ∷ []

  -- the content that the insertion builds where the body has no tag line
  abbrev grown : Text → Text
  grown c = (c ++ blank_line) ++ join_tag_line one

  grown_start : (c : Text) → last_line_start (grown c) ≡ length (c ++ blank_line)
  grown_start c =
      last_line_start-line (c ++ blank_line) one [] (EndsLine-blank_line c) (λ z. cc) (word, tt) tt

  grown_tags : (c : Text) → last_line_tags (grown c) ≡ some one
  grown_tags c =
      last_line_tags-line (c ++ blank_line) one [] (EndsLine-blank_line c) (λ z. cc) (word, tt) tt

  grown_before : (c : Text) → take (last_line_start (grown c)) (grown c) ≡ c ++ blank_line
  grown_before c = rw (grown_start c) (take-append (c ++ blank_line) (join_tag_line one))

  length-blank_line : (c : Text) → length (c ++ blank_line) ≡ suc (suc (length c))
  length-blank_line c = omega (arith, length-append c blank_line)

  remove_left-grown :
      (c w : Text) → IsSolid c → is_empty c ≡ false → remove_left (grown c) w [] ≡ changed (c ++ w)
  unfolding remove_left
  remove_left-grown [] w h ne = cc
  remove_left-grown (x ∷ cs) w h ne = rw (grown_before (x ∷ cs)) (
      rw (length-blank_line (x ∷ cs)) (ap (λ b. changed (b ++ w)) (pop_newlines-blank_line x cs h)))

  remove_grown :
      (b c w : Text)
      → IsSolid c
      → is_empty c ≡ false
      → remove_split b tag (record { content = grown c; trailing_ws = w }) ≡ changed (c ++ w)
  unfolding remove_split remove_after contains erase_first
  remove_grown b c w h ne =
      rw (line-ne-nil (c ++ blank_line) one [] (EndsLine-blank_line c) (λ z. cc) (word, tt) tt)
        (rw (grown_tags c) (rw (text_eq_refl tag) (remove_left-grown c w h ne)))

  upsert-grown :
      (s : BodySplit)
      → is_empty s.content ≡ false
      → last_line_tags s.content ≡ none
      → upsert_split body tag s ≡ grown s.content ++ s.trailing_ws
  unfolding upsert_split upsert_after
  upsert-grown s ne none_found =
      rw (ne, none_found)
        (ap (λ x. x ++ s.trailing_ws)
          (unfold join_tag_line join_from in sym (append_assoc s.content blank_line (b'#' ∷ tag))))

  split-grown :
      split_trailing_whitespace (grown parts.content ++ parts.trailing_ws)
      ≡ record { content = grown parts.content; trailing_ws = parts.trailing_ws }
  split-grown =
      split-append (grown parts.content) parts.trailing_ws
        (line-IsSolid (parts.content ++ blank_line) one [] (EndsLine-blank_line parts.content)
          (λ z. cc) (word, tt) tt)
        (trailing_ws-IsBlank body)

-- Where the body has content and no trailing tag line, removing a normal tag that was just
-- inserted reports `removed` and gives the body back, byte for byte.
pub remove-upsert :
    (body tag : Text)
    → IsTagWord tag
    → is_empty (split_trailing_whitespace body).content ≡ false
    → last_line_tags (split_trailing_whitespace body).content ≡ none
    → remove_from_trailing_tag_line (upsert_trailing_tag_line body tag) tag ≡ changed body
remove-upsert body tag word ne none_found =
    let s = split_trailing_whitespace body in
    rw (upsert_trailing_tag_line_lem body tag, upsert-grown body tag word s ne none_found)
      (remove_lem (grown body tag word s.content ++ s.trailing_ws) tag
        ∙ ap (remove_split _ tag) (split-grown body tag word)
        ∙ remove_grown body tag word _ s.content s.trailing_ws (content-IsSolid body) ne
        ∙ ap changed (split-join body))
