-- ===== src/Card/Reference.antt =====
-- What a reference names: a full identifier, the beginning of one, or a title
-- (card/CardReferenceResolver.h and .cpp).
pub mod Answers
use holder_core.Common.{
  ℕ, zero, suc, ◌+◌, ◌-◌, Bool, true, false, Option, none, some, List, [], ◌∷◌, map, if◌then◌else◌,
  Text, ltb, leb, ◌==◌, ◌&&◌, ◌||◌, not, length,
}
use holder_core.Common.Int.{pos}
use holder_core.Card.{Floats, Card}
use holder_core.Card.Repo.{Cards}
use holder_core.Card.Pages.{CardScope, find_by_id, find_by_id_prefix, find_by_exact_title}
use holder_core.Identity.{is_hex_digit, is_valid_uuid, char_at}

pub data CardReferenceStatus : Type 0 where
  resolved ambiguous not_found : CardReferenceStatus

pub data CardReferenceMatchKind : Type 0 where
  full_id id_prefix exact_title : CardReferenceMatchKind

unfoldable pub lowercase_hex : ℕ → ℕ
lowercase_hex value = if leb b'A' value && leb value b'F' then value - b'A' + b'a' else value

unfoldable pub is_uuid_hyphen_position : ℕ → Bool
is_uuid_hyphen_position index = index == 8 || (index == 13 || (index == 18 || index == 23))

unfoldable pub has_uuid_version : ℕ → Bool
has_uuid_version value = value == b'4' || value == b'7'

unfoldable pub has_uuid_variant : ℕ → Bool
unfolding lowercase_hex
has_uuid_variant value =
    let normalized = lowercase_hex value in
    normalized == b'8' || (normalized == b'9' || (normalized == b'a' || normalized == b'b'))

unfoldable pub lowercase_uuid : Text → Text
unfolding lowercase_hex
lowercase_uuid = map lowercase_hex

-- one character more, and so many hexadecimal digits more
abbrev pushed : ℕ → ℕ → Option (Text × ℕ) → Option (Text × ℕ)
pushed c digits none = none
pushed c digits (some (normalized, count)) = some (c ∷ normalized, count + digits)

-- the loop from an index on: what it appends, and the digits that it counts
unfoldable pub normalize_from : ℕ → Text → Option (Text × ℕ)
unfolding is_uuid_hyphen_position is_hex_digit lowercase_hex
normalize_from index [] = some ([], 0)
normalize_from index (c ∷ s) =
    let rest = normalize_from (index + 1) s in
    if is_uuid_hyphen_position index
    then if not (c == b'-') then none else pushed c 0 rest
    else if not (is_hex_digit c)
    then none
    else pushed (lowercase_hex c) 1 rest

-- the checks behind the loop
unfoldable pub checked_prefix : Text → ℕ → Option Text
unfolding has_uuid_version has_uuid_variant char_at
checked_prefix normalized hex_digits =
    if ltb hex_digits 8
    then none
    else if ltb 14 (length normalized) && not (has_uuid_version (char_at normalized 14))
    then none
    else if ltb 19 (length normalized) && not (has_uuid_variant (char_at normalized 19))
    then none
    else some normalized

unfoldable pub normalize_uuid_prefix : Text → Option Text
unfolding normalize_from checked_prefix
normalize_uuid_prefix reference =
    if leb 36 (length reference) then none else elim (normalize_from 0 reference) [
      | none ↦ none
      | some (normalized, hex_digits) ↦ checked_prefix normalized hex_digits
    ]

module _ (F : Floats) where
  open F use {Double}

  pub record CardReferenceResult : Type 0 where
    pub status : CardReferenceStatus
    pub match_kind : Option CardReferenceMatchKind
    pub card : Option (Card Double)
    pub candidates : Cards F

  -- `{}`
  abbrev pub nothing : CardReferenceResult
  nothing = record { status = not_found; match_kind = none; card = none; candidates = [] }

  -- `resolved`
  abbrev pub resolved_to : Card Double → CardReferenceMatchKind → CardReferenceResult
  resolved_to c match_kind = record {
    status = resolved;
    match_kind = some match_kind;
    card = some c;
    candidates = [];
  }

  -- `ambiguous`
  abbrev pub ambiguous_among : Cards F → CardReferenceMatchKind → CardReferenceResult
  ambiguous_among candidates match_kind = record {
    status = ambiguous;
    match_kind = some match_kind;
    card = none;
    candidates = candidates;
  }

  unfoldable pub from_candidates : Cards F → CardReferenceMatchKind → CardReferenceResult
  from_candidates [] match_kind = nothing
  from_candidates (c ∷ []) match_kind = resolved_to c match_kind
  from_candidates (c ∷ d ∷ cs) match_kind = ambiguous_among (c ∷ d ∷ cs) match_kind

  unfoldable pub by_full_id : Option (Card Double) → CardReferenceResult
  by_full_id none = nothing
  by_full_id (some c) = resolved_to c full_id

  -- what a prefix found, or the other result if that is nothing
  unfoldable pub or_else : CardReferenceResult → CardReferenceResult → CardReferenceResult
  or_else prefix_result other = elim (prefix_result.status) [
    | not_found ↦ other
    | _ ↦ prefix_result
  ]

  unfoldable pub by_title : Cards F → Text → Text → CardScope → CardReferenceResult
  unfolding from_candidates
  by_title cards project_id reference scope =
      from_candidates (find_by_exact_title F cards project_id reference scope (pos 2)) exact_title

  unfoldable pub by_prefix : Cards F → Text → Text → CardScope → CardReferenceResult
  unfolding from_candidates
  by_prefix cards project_id prefix scope =
      from_candidates (find_by_id_prefix F cards project_id prefix scope (pos 2)) id_prefix

  unfoldable pub by_prefix_or_title :
      Cards F → Text → Text → CardScope → Option Text → CardReferenceResult
  unfolding by_title by_prefix or_else
  by_prefix_or_title cards project_id reference scope none =
      by_title cards project_id reference scope
  by_prefix_or_title cards project_id reference scope (some prefix) =
      or_else (by_prefix cards project_id prefix scope) (by_title cards project_id reference scope)

  unfoldable pub resolve : Cards F → Text → Text → CardScope → CardReferenceResult
  unfolding by_full_id by_prefix_or_title
  resolve cards project_id reference scope =
      if is_valid_uuid reference
      then by_full_id (find_by_id F cards project_id (lowercase_uuid reference) scope)
      else by_prefix_or_title cards project_id reference scope (normalize_uuid_prefix reference)
