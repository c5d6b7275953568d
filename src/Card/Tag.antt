-- ===== src/Card/Tag.antt =====
-- Tags: which words are tags (card/TagExtractor.cpp).
pub mod Extract
pub mod Line
pub mod Word
use holder_core.Common.{
  ℕ, ◌+◌, Bool, true, false, not, ◌&&◌, ◌||◌, List, [], ◌∷◌, map, Text, ◌==◌, leb, is_digit,
  is_upper, is_alpha, is_alnum, is_empty, length, all_of, if◌then◌else◌,
}

pub is_hex_digit : ℕ → Bool
is_hex_digit c = is_digit c || (leb b'a' c && leb c b'f') || (leb b'A' c && leb c b'F')

-- `std::tolower` of one byte
pub lower_byte : ℕ → ℕ
lower_byte c = if is_upper c then c + 32 else c

unfoldable pub to_lower : Text → Text
unfolding lower_byte
to_lower = map lower_byte

pub looks_like_hex_color : Text → Bool
unfolding is_hex_digit
looks_like_hex_color candidate =
    let len = length candidate in
    if not (len == 3) && not (len == 4) && not (len == 6) && not (len == 8)
    then false
    else all_of is_hex_digit candidate

-- the bytes that may follow the first letter of a tag
pub is_tag_byte : ℕ → Bool
is_tag_byte c = is_alnum c || c == b'_' || c == b'/' || c == b'-'

pub starts_alpha : Text → Bool
starts_alpha [] = false
starts_alpha (c ∷ cs) = is_alpha c

unfoldable pub is_valid_tag : Text → Bool
unfolding is_tag_byte starts_alpha looks_like_hex_color
is_valid_tag tag =
    if is_empty tag || not (starts_alpha tag)
    then false
    else if not (all_of is_tag_byte tag)
    then false
    else not (looks_like_hex_color tag)

unfoldable pub normalize_tag : Text → Text
unfolding to_lower
normalize_tag = to_lower
