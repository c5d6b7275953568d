-- ===== src/Card/Tag/Line.antt =====
-- The trailing tag line of a card's body (card/TagLineEditor.cpp).
pub mod Split
pub mod Tokens
pub mod Lines
pub mod Edits
pub mod Removal
use holder_core.Common.{
  ℕ, zero, suc, ◌+◌, Bool, true, false, not, ◌||◌, Option, none, some, List, [], ◌∷◌, ◌++◌, Text,
  text, text_eq, contains, ◌==◌, ltb, is_empty, length, get_elem?, take, drop, if◌then◌else◌,
}
use holder_core.Card.Tag.{is_valid_tag, normalize_tag}

abbrev pub is_line_whitespace : ℕ → Bool
is_line_whitespace c = c == b' ' || c == b'\t' || c == b'\r'

-- what the loop of `split_trailing_whitespace` skips
abbrev pub is_blank : ℕ → Bool
is_blank c = c == b'\n' || is_line_whitespace c

abbrev pub blank_at : Text → ℕ → Bool
blank_at body i = elim (get_elem? body i) [ none ↦ false | some c ↦ is_blank c ]

abbrev pub newline_at : Text → ℕ → Bool
newline_at s i = elim (get_elem? s i) [ none ↦ false | some c ↦ c == b'\n' ]

-- `while (end > 0 && ...) --end;`
pub content_end : Text → ℕ → ℕ
content_end body zero = 0
content_end body (suc e) = let rest = content_end body e in if blank_at body e then rest else suc e

pub record BodySplit : Type 0 where
  pub content : Text
  pub trailing_ws : Text

unfoldable pub split_trailing_whitespace : Text → BodySplit
unfolding content_end
split_trailing_whitespace body =
    let end = content_end body (length body) in
    record { content = take end body; trailing_ws = drop end body }

-- `find_last_of('\n') + 1`, or 0 where there is no newline. The first byte matters only if no newline
-- stands behind it.
abbrev pub line_start_behind : ℕ → Bool → ℕ
line_start_behind zero newline = if newline then 1 else 0
line_start_behind (suc n) newline = suc (suc n)

unfoldable pub last_line_start : Text → ℕ
last_line_start [] = 0
last_line_start (c ∷ cs) = line_start_behind (last_line_start cs) (c == b'\n')

-- the inner loops: skip blanks; read up to a blank
pub skip_whitespace : Text → Text
skip_whitespace [] = []
skip_whitespace (c ∷ cs) =
    let rest = skip_whitespace cs in if is_line_whitespace c then rest else c ∷ cs

pub token : Text → Text
token [] = []
token (c ∷ cs) = let rest = token cs in if is_line_whitespace c then [] else c ∷ rest

pub after_token : Text → Text
after_token [] = []
after_token (c ∷ cs) = let rest = after_token cs in if is_line_whitespace c then c ∷ cs else rest

-- after the loop
pub nonempty_tags : List Text → Option (List Text)
nonempty_tags [] = none
nonempty_tags (t ∷ ts) = some (t ∷ ts)

-- One round of the outer loop, behind the blanks; `next` is the loop on what the round leaves. The
-- end of the line leads out of the loop both by its test and by the `break`.
pub read_tag : (Text → List Text → Option (List Text)) → Text → List Text → Option (List Text)
read_tag next [] tags = nonempty_tags tags
read_tag next (c ∷ cs) tags =
    if not (c == b'#')
    then none
    else if not (is_valid_tag (token cs))
    then none
    else next (after_token cs) (tags ++ normalize_tag (token cs) ∷ [])

-- The outer loop on the rest of the line. Each round reads a `#` at least, so the length of the line
-- and one round more are enough fuel.
pub read_tags : ℕ → Text → List Text → Option (List Text)
read_tags zero rest tags = none
read_tags (suc fuel) rest tags = read_tag (read_tags fuel) (skip_whitespace rest) tags

unfoldable pub parse_pure_tag_line : Text → Option (List Text)
unfolding read_tags read_tag nonempty_tags skip_whitespace token after_token
parse_pure_tag_line line = read_tags (suc (length line)) line []

-- `for (i = 0; ...)`; the number is `i`
pub join_from : ℕ → Text → List Text → Text
join_from i line [] = line
join_from i line (t ∷ ts) =
    join_from (i + 1) (line ++ ((if ltb 0 i then b' ' ∷ [] else []) ++ b'#' ∷ t)) ts

pub join_tag_line : List Text → Text
unfolding join_from
join_tag_line tags = join_from 0 [] tags

-- the tag line at the end of `content`, if its last line is one
unfoldable pub last_line_tags : Text → Option (List Text)
last_line_tags content = parse_pure_tag_line (drop (last_line_start content) content)

-- the end of `upsert_trailing_tag_line`, by what `parse_pure_tag_line` found
pub upsert_after : Text → Text → Text → Text → Option (List Text) → Text
upsert_after body content trailing_ws tag (some existing) =
    if contains tag existing
    then body
    else (take (last_line_start content) content ++ join_tag_line (existing ++ tag ∷ []))
      ++ trailing_ws
upsert_after body content trailing_ws tag none =
    (content ++ (text "\n\n" ++ b'#' ∷ tag)) ++ trailing_ws

-- the rest of each function, behind `split_trailing_whitespace`
pub upsert_split : Text → Text → BodySplit → Text
upsert_split body tag s =
    if is_empty s.content
    then b'#' ∷ tag
    else upsert_after body s.content s.trailing_ws tag (last_line_tags s.content)

unfoldable pub upsert_trailing_tag_line : Text → Text → Text
unfolding split_trailing_whitespace last_line_start last_line_tags parse_pure_tag_line upsert_after
    upsert_split join_tag_line contains
upsert_trailing_tag_line body tag = upsert_split body tag (split_trailing_whitespace body)

pub data RemoveTagLineOutcome : Type 0 where
  removed not_on_trailing_line : RemoveTagLineOutcome

pub record RemoveTagLineResult : Type 0 where
  pub new_body : Text
  pub outcome : RemoveTagLineOutcome

-- `existing->erase(it)` at the first `tag`
unfoldable pub erase_first : Text → List Text → List Text
erase_first tag [] = []
erase_first tag (t ∷ ts) = let rest = erase_first tag ts in if text_eq t tag then ts else t ∷ rest

-- `while (!before.empty() && before.back() == '\n') before.pop_back();` with the length as the counter
pub pop_newlines : ℕ → Text → Text
pop_newlines zero before = take 0 before
pop_newlines (suc n) before =
    let rest = pop_newlines n before in if newline_at before n then rest else take (suc n) before

abbrev pub kept : Text → RemoveTagLineResult
kept body = record { new_body = body; outcome = not_on_trailing_line }

abbrev pub changed : Text → RemoveTagLineResult
changed body = record { new_body = body; outcome = removed }

-- the end of `remove_from_trailing_tag_line`, by what is left of the line
pub remove_left : Text → Text → List Text → RemoveTagLineResult
remove_left content trailing_ws [] =
    let before = take (last_line_start content) content in
    changed (pop_newlines (length before) before ++ trailing_ws)
remove_left content trailing_ws (t ∷ ts) =
    changed ((take (last_line_start content) content ++ join_tag_line (t ∷ ts)) ++ trailing_ws)

pub remove_after : Text → Text → Text → Text → Option (List Text) → RemoveTagLineResult
remove_after body content trailing_ws tag none = kept body
remove_after body content trailing_ws tag (some existing) =
    if contains tag existing
    then remove_left content trailing_ws (erase_first tag existing)
    else kept body

pub remove_split : Text → Text → BodySplit → RemoveTagLineResult
remove_split body tag s =
    if is_empty s.content
    then kept body
    else remove_after body s.content s.trailing_ws tag (last_line_tags s.content)

unfoldable pub remove_from_trailing_tag_line : Text → Text → RemoveTagLineResult
unfolding split_trailing_whitespace last_line_start last_line_tags parse_pure_tag_line remove_after
    remove_left remove_split join_tag_line contains erase_first pop_newlines
remove_from_trailing_tag_line body tag = remove_split body tag (split_trailing_whitespace body)

-- `value_or` of the parsed line
abbrev pub tags_or_empty : Option (List Text) → List Text
tags_or_empty none = []
tags_or_empty (some ts) = ts

pub tags_split : BodySplit → List Text
tags_split s = if is_empty s.content then [] else tags_or_empty (last_line_tags s.content)

unfoldable pub tags_on_trailing_line : Text → List Text
unfolding split_trailing_whitespace last_line_start last_line_tags parse_pure_tag_line tags_split
tags_on_trailing_line body = tags_split (split_trailing_whitespace body)
