-- ===== src/Card/Tag/Extract.antt =====
-- The tags of a Markdown text (card/TagExtractor.cpp). md4c is a parameter: the calls that it makes,
-- with the address of each text. A tag holds no `#`, so that a search from the byte behind a match's
-- `#` finds what a search from the end of the match finds; `^` holds at the start of a text only.
pub mod Words
use holder_core.Common.{
  ℕ, ◌+◌, ◌-◌, Bool, true, false, Option, none, some, List, [], ◌∷◌, ◌++◌, if◌then◌else◌, Text,
  ◌==◌, leb, ◌&&◌, ◌||◌, length, contains,
}
use holder_core.Card.Tag.{looks_like_hex_color, to_lower, is_tag_byte, starts_alpha}

pub record TagOccurrence : Type 0 where
  pub tag : Text
  pub byte_start : ℕ
  pub byte_end : ℕ

pub record ExtractorState : Type 0 where
  pub in_code : Bool
  pub tags : List Text
  pub seen : List Text
  pub occurrences : List TagOccurrence
  pub source_begin : ℕ
  pub source_end : ℕ

-- a call of md4c: whether a block or a span is code, or a text and its address
pub data Event : Type 0 where
  enter_block : Bool → Event
  leave_block : Bool → Event
  enter_span : Bool → Event
  leave_span : Bool → Event
  text_at : ℕ → Text → Event

-- what may stand before the `#`: white space or one of `([{>,.;:!?`
unfoldable pub is_boundary : ℕ → Bool
is_boundary c =
    c == 32
    || (leb 9 c && leb c 13)
    || c == b'('
    || c == b'['
    || c == b'{'
    || c == b'>'
    || c == b','
    || c == b'.'
    || c == b';'
    || c == b':'
    || c == b'!'
    || c == b'?'

-- the longest run of the bytes of a tag
unfoldable pub tag_run : Text → Text
unfolding is_tag_byte
tag_run [] = []
tag_run (c ∷ cs) = let rest = tag_run cs in if is_tag_byte c then c ∷ rest else []

pub record Match : Type 0 where
  pub tag_body : Text
  pub position : ℕ

-- the matches of the pattern, from a position, behind a boundary or not
unfoldable pub matches : Bool → ℕ → Text → List Match
unfolding is_boundary tag_run starts_alpha
matches before position [] = []
matches before position (c ∷ cs) =
    let rest = matches (is_boundary c) (position + 1) cs in
    if before && c == b'#' && starts_alpha cs
    then record { tag_body = tag_run cs; position = position + 1 } ∷ rest
    else rest

-- where the text stands in the source
unfoldable pub note_occurrence : Option ℕ → Match → Text → List TagOccurrence → List TagOccurrence
note_occurrence none m tag occurrences = occurrences
note_occurrence (some offset) m tag occurrences =
    occurrences
    ++ record {
      tag = tag;
      byte_start = offset + m.position - 1;
      byte_end = offset + m.position + length m.tag_body;
    }
      ∷ []

unfoldable pub collect_match : Option ℕ → Match → ExtractorState → ExtractorState
unfolding looks_like_hex_color to_lower note_occurrence contains
collect_match source_offset m state =
    let tag = to_lower m.tag_body in
    let noted = note_occurrence source_offset m tag state.occurrences in
    if looks_like_hex_color m.tag_body
    then state
    else if contains tag state.seen
    then record state { occurrences = noted }
    else record state {
      occurrences = noted;
      seen = state.seen ++ tag ∷ [];
      tags = state.tags ++ tag ∷ [];
    }

unfoldable pub collect_all : Option ℕ → List Match → ExtractorState → ExtractorState
unfolding collect_match
collect_all source_offset [] state = state
collect_all source_offset (m ∷ ms) state =
    collect_all source_offset ms (collect_match source_offset m state)

unfoldable pub collect_tags : Text → ExtractorState → Option ℕ → ExtractorState
unfolding collect_all matches
collect_tags t state source_offset = collect_all source_offset (matches true 0 t) state

unfoldable pub on_event : Event → ExtractorState → ExtractorState
unfolding collect_tags
on_event (enter_block code) state = if code then record state { in_code = true } else state
on_event (leave_block code) state = if code then record state { in_code = false } else state
on_event (enter_span code) state = if code then record state { in_code = true } else state
on_event (leave_span code) state = if code then record state { in_code = false } else state
on_event (text_at address t) state =
    if state.in_code
    then state
    else collect_tags t state (
        if leb state.source_begin address && leb (address + length t) state.source_end
        then some (address - state.source_begin)
        else none)

unfoldable pub on_events : List Event → ExtractorState → ExtractorState
unfolding on_event
on_events [] state = state
on_events (e ∷ es) state = on_events es (on_event e state)

-- The body with its address, and the calls of md4c on it.
unfoldable pub parse_tags : (ℕ → Text → List Event) → ℕ → Text → ExtractorState
unfolding on_events
parse_tags md_parse address body = on_events (md_parse address body) (record {
  in_code = false;
  tags = [];
  seen = [];
  occurrences = [];
  source_begin = address;
  source_end = address + length body;
})

unfoldable pub extract_tags : (ℕ → Text → List Event) → ℕ → Text → List Text
unfolding parse_tags
extract_tags md_parse address body = (parse_tags md_parse address body).tags

unfoldable pub extract_tag_occurrences : (ℕ → Text → List Event) → ℕ → Text → List TagOccurrence
unfolding parse_tags
extract_tag_occurrences md_parse address body = (parse_tags md_parse address body).occurrences
