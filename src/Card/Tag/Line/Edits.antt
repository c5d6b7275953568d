-- ===== src/Card/Tag/Line/Edits.antt =====
-- What an edit does to the tags on the trailing line.
use holder_core.Common.{
  ◌≡◌, refl, inl, inr, true, false, Option, none, some, List, [], ◌∷◌, ◌++◌, arith, if◌then◌else◌,
  Text, contains, is_empty, ◌≢◌, text, All, length, drop-append, ◌∙◌, ap, Bool-cases, sym,
  append_assoc, append-nil, All-append, text_eq_refl,
}
use holder_core.Card.Tag.Word.{IsTagWord}
use holder_core.Card.Tag.Line.{
  last_line_tags, BodySplit, split_trailing_whitespace, tags_on_trailing_line, upsert_after,
  last_line_start, join_tag_line, tags_or_empty, tags_split, upsert_trailing_tag_line, upsert_split,
  join_from,
}
use holder_core.Card.Tag.Line.Lines.{
  EndsLine, EndsLine-append, join_tag_line-ne-nil, IsSolid-join_tag_line, last_line_start-append,
  NoNewline-join_tag_line, take-EndsLine,
}
use holder_core.Card.Tag.Line.Split.{
  IsBlank, IsSolid, split-append, IsSolid-append, trailing_ws-IsBlank,
}
use holder_core.Card.Tag.Line.Tokens.{
  parse_pure_tag_line-join_tag_line, parse_pure_tag_line-IsTagWord,
}

pub tags_on_trailing_line_lem :
    (body : Text) → tags_on_trailing_line body ≡ tags_split (split_trailing_whitespace body)
unfolding tags_on_trailing_line
tags_on_trailing_line_lem body = refl

pub last_line_tags-IsTagWord :
    (content : Text) (ts : List Text)
    → last_line_tags content ≡ some ts
    → (ts ≢ []) × All IsTagWord ts
unfolding last_line_tags
last_line_tags-IsTagWord content ts = parse_pure_tag_line-IsTagWord _ ts

pub upsert_trailing_tag_line_lem :
    (body tag : Text)
    → upsert_trailing_tag_line body tag ≡ upsert_split body tag (split_trailing_whitespace body)
unfolding upsert_trailing_tag_line
upsert_trailing_tag_line_lem body tag = refl

-- the body that `upsert` and `remove` build
module _ (prefix : Text) (ts : List Text) (w : Text) (starts : EndsLine prefix) (ne : ts ≢ [])
    (words : All IsTagWord ts) (blank : IsBlank w) where
  pub line-IsSolid : IsSolid (prefix ++ join_tag_line ts)
  line-IsSolid =
      IsSolid-append prefix (join_tag_line ts) (join_tag_line-ne-nil ts ne)
        (IsSolid-join_tag_line ts ne words)

  pub last_line_start-line : last_line_start (prefix ++ join_tag_line ts) ≡ length prefix
  last_line_start-line =
      last_line_start-append prefix (join_tag_line ts) (NoNewline-join_tag_line ts ne words)
      ∙ unfold EndsLine in starts

  pub last_line_tags-line : last_line_tags (prefix ++ join_tag_line ts) ≡ some ts
  unfolding last_line_tags
  last_line_tags-line =
      rw last_line_start-line
        (rw (drop-append prefix (join_tag_line ts)) (parse_pure_tag_line-join_tag_line ts ne words))

  pub line-ne-nil : is_empty (prefix ++ join_tag_line ts) ≡ false
  line-ne-nil = at prefix (join_tag_line ts) (join_tag_line-ne-nil ts ne)
    where
      at : (p s : Text) → s ≢ [] → is_empty (p ++ s) ≡ false
      at [] [] h = absurd (h refl)
      at [] (c ∷ s) h = refl
      at (c ∷ p) s h = refl

  tags_split-line :
      tags_split (record { content = prefix ++ join_tag_line ts; trailing_ws = w }) ≡ ts
  unfolding tags_split
  tags_split-line = rw (line-ne-nil, last_line_tags-line)

  pub tags_on_trailing_line-line : tags_on_trailing_line ((prefix ++ join_tag_line ts) ++ w) ≡ ts
  tags_on_trailing_line-line =
      tags_on_trailing_line_lem _
      ∙ ap tags_split (split-append (prefix ++ join_tag_line ts) w line-IsSolid blank)
      ∙ tags_split-line

pub append_one-ne-nil : (ts : List Text) (t : Text) → ts ++ t ∷ [] ≢ []
append_one-ne-nil [] t e = cc
append_one-ne-nil (x ∷ xs) t e = cc

-- appended at the end if it is not there yet
pub with_tag : Text → List Text → List Text
with_tag tag ts = if contains tag ts then ts else ts ++ tag ∷ []

pub EndsLine-blank_line : (s : Text) → EndsLine (s ++ text "\n\n")
EndsLine-blank_line s =
    EndsLine-append s (text "\n\n") (λ e. cc) (unfold EndsLine last_line_start in refl)

module _ (body tag : Text) (word : IsTagWord tag) where
  abbrev split : BodySplit
  split = split_trailing_whitespace body

  tags_before :
      (o : Option (List Text))
      → last_line_tags split.content ≡ o
      → is_empty split.content ≡ false
      → tags_on_trailing_line body ≡ tags_or_empty o
  tags_before o e ne = tags_on_trailing_line_lem body ∙ unfold tags_split in rw (ne, e)

  upsert_after-tags :
      (o : Option (List Text))
      → last_line_tags split.content ≡ o
      → is_empty split.content ≡ false
      → tags_on_trailing_line (upsert_after body split.content split.trailing_ws tag o)
        ≡ with_tag tag (tags_on_trailing_line body)
  upsert_after-tags none e ne =
      let line : tags_on_trailing_line
            (((split.content ++ text "\n\n") ++ join_tag_line (tag ∷ [])) ++ split.trailing_ws)
          ≡ tag ∷ [] =
        tags_on_trailing_line-line (split.content ++ text "\n\n") (tag ∷ []) split.trailing_ws
          (EndsLine-blank_line split.content) (λ z. cc) (word, tt) (trailing_ws-IsBlank body) in
      rw (tags_before none e ne) (
        unfold with_tag contains upsert_after join_tag_line join_from in
        ap (λ x. tags_on_trailing_line (x ++ split.trailing_ws))
          (sym (append_assoc split.content (text "\n\n") (b'#' ∷ tag)))
        ∙ line)
  upsert_after-tags (some ts) e ne =
      let (ts_ne, words) = last_line_tags-IsTagWord split.content ts e in
      rw (tags_before (some ts) e ne) (elim (Bool-cases (contains tag ts)) [
        | inl b ↦ unfold with_tag upsert_after in rw b (tags_before (some ts) e ne)
        | inr b ↦
            unfold with_tag upsert_after in
            rw b (
              tags_on_trailing_line-line _ (ts ++ tag ∷ []) split.trailing_ws
                (take-EndsLine split.content) (append_one-ne-nil ts tag)
                (All-append _ ts (tag ∷ []) words (word, tt)) (trailing_ws-IsBlank body))
      ])

  upsert_split-tags :
      tags_on_trailing_line (upsert_split body tag split)
      ≡ with_tag tag (tags_on_trailing_line body)
  unfolding upsert_split
  upsert_split-tags = elim (Bool-cases (is_empty split.content)) [
    | inl b ↦ rw (tags_on_trailing_line_lem body) (
        unfold tags_split with_tag contains in
        rw b (
          unfold join_tag_line join_from in
          ap tags_on_trailing_line (sym (append-nil (b'#' ∷ tag)))
          ∙ tags_on_trailing_line-line [] (tag ∷ []) [] (unfold EndsLine last_line_start in refl)
              (λ z. cc) (word, tt) tt))
    | inr b ↦ rw b (upsert_after-tags (last_line_tags split.content) refl b)
  ]

-- For every body and every normal tag, after `upsert_trailing_tag_line` the trailing line holds
-- the tags it held before, in order, and the new tag behind them unless it was there already.
pub upsert-tags :
    (body tag : Text)
    → IsTagWord tag
    → tags_on_trailing_line (upsert_trailing_tag_line body tag)
      ≡ with_tag tag (tags_on_trailing_line body)
upsert-tags body tag word =
    ap tags_on_trailing_line (upsert_trailing_tag_line_lem body tag)
    ∙ upsert_split-tags body tag word

contains-append : (tag : Text) (ts : List Text) → contains tag (ts ++ tag ∷ []) ≡ true
unfolding contains
contains-append tag [] = rw (text_eq_refl tag)
contains-append tag (t ∷ ts) = ground (arith, contains-append tag ts)

contains-with_tag : (tag : Text) (ts : List Text) → contains tag (with_tag tag ts) ≡ true
unfolding with_tag
contains-with_tag tag ts = elim (Bool-cases (contains tag ts)) [
  | inl b ↦ rw b b
  | inr b ↦ rw b (contains-append tag ts)
]

-- A tag that the trailing line holds already is a no-op.
upsert_present :
    (body tag : Text)
    → contains tag (tags_on_trailing_line body) ≡ true
    → upsert_trailing_tag_line body tag ≡ body
upsert_present body tag h =
    upsert_trailing_tag_line_lem body tag
    ∙ at (split_trailing_whitespace body) (rw (tags_on_trailing_line_lem body) at h)
  where
    after :
        (c w : Text) (o : Option (List Text))
        → contains tag (tags_or_empty o) ≡ true
        → upsert_after body c w tag o ≡ body
    after c w none h = unfold contains in cc h
    after c w (some ts) h = unfold upsert_after in rw h

    at : (s : BodySplit) → contains tag (tags_split s) ≡ true → upsert_split body tag s ≡ body
    at s h = elim (Bool-cases (is_empty s.content)) [
      | inl b ↦ unfold tags_split contains in cc (rw b at h)
      | inr b ↦
          unfold upsert_split in
          rw b (
            after s.content s.trailing_ws (last_line_tags s.content)
              (unfold tags_split in rw b at h))
    ]

-- A second `upsert_trailing_tag_line` of the same normal tag changes nothing.
pub upsert_idem :
    (body tag : Text)
    → IsTagWord tag
    → upsert_trailing_tag_line (upsert_trailing_tag_line body tag) tag
      ≡ upsert_trailing_tag_line body tag
upsert_idem body tag word =
    upsert_present (upsert_trailing_tag_line body tag) tag
      (rw (upsert-tags body tag word) (contains-with_tag tag (tags_on_trailing_line body)))
