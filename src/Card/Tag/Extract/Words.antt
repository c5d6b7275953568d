-- ===== src/Card/Tag/Extract/Words.antt =====
-- What the tags of a text are.
use holder_core.Common.{
  ℕ, ◌≡◌, refl, inl, inr, Bool, true, false, Option, List, [], ◌∷◌, ◌++◌, Text, text_eq,
  text_eq_sound, text_eq_refl, contains, Bool-cases, All, All-append, all_of, arith, ◌+◌, ◌&&◌,
  ◌==◌, if◌then◌else◌,
}
use holder_core.Card.Tag.{
  is_valid_tag, is_tag_byte, starts_alpha, looks_like_hex_color, normalize_tag, to_lower,
}
use holder_core.Card.Tag.Word.{IsTagWord, normalize_tag-IsTagWord}
use holder_core.Card.Tag.Extract.{
  tag_run, Match, matches, collect_match, collect_all, collect_tags, on_event, on_events, Event,
  ExtractorState, parse_tags, extract_tags, enter_block, leave_block, enter_span, leave_span,
  text_at, is_boundary,
}

-- no tag twice
abbrev pub Distinct : List Text → Type 0
Distinct [] = Unit
Distinct (t ∷ ts) = (contains t ts ≡ false) × Distinct ts

text_eq_sym : (s t : Text) → text_eq s t ≡ false → text_eq t s ≡ false
text_eq_sym s t h = elim (Bool-cases (text_eq t s)) [
  | inl e ↦
      let r : text_eq s t ≡ true = rw (text_eq_sound t s e) (text_eq_refl s) in absurd (cc (h, r))
  | inr e ↦ e
]

contains-snoc :
    (t x : Text) (ts : List Text)
    → contains t ts ≡ false
    → text_eq x t ≡ false
    → contains t (ts ++ x ∷ []) ≡ false
unfolding contains
contains-snoc t x [] h k = rw k
contains-snoc t x (y ∷ ys) h k = elim (Bool-cases (text_eq y t)) [
  | inl e ↦ absurd (cc (rw e at h))
  | inr e ↦ rw e (contains-snoc t x ys (rw e at h) k)
]

Distinct-snoc :
    (t : Text) (ts : List Text) → Distinct ts → contains t ts ≡ false → Distinct (ts ++ t ∷ [])
unfolding contains
Distinct-snoc t [] d h = (refl, tt)
Distinct-snoc t (x ∷ xs) d h = elim (Bool-cases (text_eq x t)) [
  | inl e ↦ absurd (cc (rw e at h))
  | inr e ↦ (contains-snoc x t xs (d.0) (text_eq_sym x t e), Distinct-snoc t xs (d.1) (rw e at h))
]

tag_run-bytes : (t : Text) → all_of is_tag_byte (tag_run t) ≡ true
unfolding tag_run
tag_run-bytes [] = refl
tag_run-bytes (c ∷ cs) = elim (Bool-cases (is_tag_byte c)) [
  | inl e ↦ rw (e, e) (tag_run-bytes cs)
  | inr e ↦ rw e
]

-- A match that is no colour is a tag.
IsWord : Match → Type 0
IsWord m = looks_like_hex_color m.tag_body ≡ false → is_valid_tag m.tag_body ≡ true

tag_run-word :
    (cs : Text)
    → starts_alpha cs ≡ true
    → looks_like_hex_color (tag_run cs) ≡ false
    → is_valid_tag (tag_run cs) ≡ true
unfolding is_valid_tag tag_run starts_alpha is_tag_byte
tag_run-word [] s h = absurd (cc s)
tag_run-word (c ∷ cs) s h = let bytes = tag_run-bytes cs in ground (arith, s, h, bytes)

matches-IsWord : (before : Bool) (position : ℕ) (t : Text) → All IsWord (matches before position t)
unfolding matches IsWord
matches-IsWord before position [] = tt
matches-IsWord before position (c ∷ cs) =
    let rest = matches-IsWord (is_boundary c) (position + 1) cs in
    elim (Bool-cases (before && c == b'#' && starts_alpha cs)) [
      | inl e ↦ rw e ((λ h. tag_run-word cs (ground (arith, e)) h), rest)
      | inr e ↦ rw e rest
    ]

-- what holds of the tags at each call
record IsClean (s : ExtractorState) : Type 0 where
  words : All IsTagWord s.tags
  distinct : Distinct s.tags
  agree : s.seen ≡ s.tags

collect_match-IsClean :
    (source_offset : Option ℕ) (m : Match) (s : ExtractorState)
    → IsWord m
    → IsClean s
    → IsClean (collect_match source_offset m s)
unfolding collect_match IsWord
collect_match-IsClean source_offset m s w i = elim (Bool-cases (looks_like_hex_color m.tag_body)) [
  | inl e ↦ rw e i
  | inr e ↦ rw e (elim (Bool-cases (contains (to_lower m.tag_body) s.seen)) [
    | inl b ↦ rw b (record { words = i.words; distinct = i.distinct; agree = i.agree })
    | inr b ↦ rw b (record {
      words =
          All-append IsTagWord s.tags _ i.words
            (unfold normalize_tag in normalize_tag-IsTagWord m.tag_body (w e), tt);
      distinct = Distinct-snoc _ s.tags i.distinct (rw i.agree at b);
      agree = rw i.agree;
    })
  ])
]

collect_all-IsClean :
    (source_offset : Option ℕ) (ms : List Match) (s : ExtractorState)
    → All IsWord ms
    → IsClean s
    → IsClean (collect_all source_offset ms s)
unfolding collect_all
collect_all-IsClean source_offset [] s w i = i
collect_all-IsClean source_offset (m ∷ ms) s w i =
    collect_all-IsClean source_offset ms _ (w.1) (collect_match-IsClean source_offset m s (w.0) i)

in_code-IsClean :
    (code : Bool) (s : ExtractorState) → IsClean s → IsClean (record s { in_code = code })
in_code-IsClean code s i = record { words = i.words; distinct = i.distinct; agree = i.agree }

if-IsClean :
    (b : Bool) {s t : ExtractorState} → IsClean s → IsClean t → IsClean (if b then s else t)
if-IsClean true h k = h
if-IsClean false h k = k

on_event-IsClean : (e : Event) (s : ExtractorState) → IsClean s → IsClean (on_event e s)
unfolding on_event collect_tags
on_event-IsClean (enter_block true) s i = in_code-IsClean true s i
on_event-IsClean (enter_block false) s i = i
on_event-IsClean (leave_block true) s i = in_code-IsClean false s i
on_event-IsClean (leave_block false) s i = i
on_event-IsClean (enter_span true) s i = in_code-IsClean true s i
on_event-IsClean (enter_span false) s i = i
on_event-IsClean (leave_span true) s i = in_code-IsClean false s i
on_event-IsClean (leave_span false) s i = i
on_event-IsClean (text_at address t) s i =
    if-IsClean s.in_code i (collect_all-IsClean _ _ s (matches-IsWord true 0 t) i)

on_events-IsClean : (es : List Event) (s : ExtractorState) → IsClean s → IsClean (on_events es s)
unfolding on_events
on_events-IsClean [] s i = i
on_events-IsClean (e ∷ es) s i = on_events-IsClean es _ (on_event-IsClean e s i)

-- Whatever calls md4c makes, each tag that `extract_tags` returns is a valid tag in its normal
-- form, and none is returned twice.
pub extract_tags-IsTagWord :
    (md_parse : ℕ → Text → List Event) (address : ℕ) (body : Text)
    → All IsTagWord (extract_tags md_parse address body)
      × Distinct (extract_tags md_parse address body)
unfolding extract_tags parse_tags
extract_tags-IsTagWord md_parse address body =
    let clean =
      on_events-IsClean (md_parse address body) _
        (record { words = tt; distinct = tt; agree = refl }) in
    (clean.words, clean.distinct)
