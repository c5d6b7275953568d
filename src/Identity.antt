-- ===== src/Identity.antt =====
-- Identifiers: identity/Uuid.cpp and model/IdScheme.cpp. The random bytes and the time are
-- arguments. A byte array is a function of its index.
pub mod Valid
use holder_core.Common.{
  ℕ, zero, suc, ◌+◌, ◌*◌, ◌/◌, ◌%◌, ◌^◌, Bool, true, false, Option, none, some, List, [], ◌∷◌,
  if◌then◌else◌, Text, text, text_eq, ltb, leb, ◌==◌, ◌&&◌, ◌||◌, not, length, get_elem?, is_digit,
}

pub data IdScheme : Type 0 where
  uuid4 uuid7 : IdScheme

unfoldable pub to_string : IdScheme → Text
to_string uuid4 = text "uuid4"
to_string uuid7 = text "uuid7"

unfoldable pub id_scheme_from_string : Text → Option IdScheme
unfolding text_eq
id_scheme_from_string value =
    if text_eq value (text "uuid4")
    then some uuid4
    else if text_eq value (text "uuid7")
    then some uuid7
    else none

-- the character at an index that is in range
unfoldable pub char_at : Text → ℕ → ℕ
char_at s i = elim (get_elem? s i) [ none ↦ 0 | some c ↦ c ]

unfoldable pub is_hex_digit : ℕ → Bool
is_hex_digit c = is_digit c || ((leb b'a' c && leb c b'f') || (leb b'A' c && leb c b'F'))

-- `kHex`
unfoldable pub hex : ℕ → ℕ
unfolding char_at
hex n = char_at (text "0123456789abcdef") n

-- the loop from byte `i` on, with so many bytes left
unfoldable pub format_from : ℕ → ℕ → (ℕ → ℕ) → Text
unfolding hex
format_from zero i bytes = []
format_from (suc n) i bytes =
    let rest = format_from n (i + 1) bytes in
    hex (bytes i / 16)
    ∷ hex (bytes i % 16)
    ∷ (if i == 3 || (i == 5 || (i == 7 || i == 9)) then b'-' ∷ rest else rest)

unfoldable pub format_uuid : (ℕ → ℕ) → Text
unfolding format_from
format_uuid = format_from 16 0

-- `bytes[at] = value`
abbrev pub set_byte : ℕ → ℕ → (ℕ → ℕ) → ℕ → ℕ
set_byte at value bytes i = if i == at then value else bytes i

-- `(bytes[6] & 0x0F) | version` and `(bytes[8] & 0x3F) | 0x80`
unfoldable pub stamp : ℕ → (ℕ → ℕ) → ℕ → ℕ
stamp version bytes = set_byte 8 (bytes 8 % 64 + 128) (set_byte 6 (bytes 6 % 16 + version) bytes)

unfoldable pub uuid_v4 : (ℕ → ℕ) → Text
unfolding stamp format_uuid
uuid_v4 random = format_uuid (stamp 64 random)

-- the first six bytes: the time, most significant byte first
unfoldable pub set_time : ℕ → (ℕ → ℕ) → ℕ → ℕ
set_time timestamp bytes = set_byte 0 (timestamp / 2 ^ 40 % 256) (
    set_byte 1 (timestamp / 2 ^ 32 % 256) (
      set_byte 2 (timestamp / 2 ^ 24 % 256) (
        set_byte 3 (timestamp / 2 ^ 16 % 256)
          (set_byte 4 (timestamp / 2 ^ 8 % 256) (set_byte 5 (timestamp % 256) bytes)))))

-- `none` for a clock that is out of range; a clock before 1970 is not modelled.
unfoldable pub uuid_v7 : ℕ → (ℕ → ℕ) → Option Text
unfolding stamp format_uuid set_time
uuid_v7 now_ms random =
    if ltb 0xFFFFFFFFFFFF now_ms
    then none
    else some (format_uuid (stamp 112 (set_time now_ms random)))

unfoldable pub generate_id : IdScheme → ℕ → (ℕ → ℕ) → Option Text
unfolding uuid_v4 uuid_v7
generate_id uuid4 now_ms random = some (uuid_v4 random)
generate_id uuid7 now_ms random = uuid_v7 now_ms random

unfoldable pub is_hyphen_position : ℕ → Bool
is_hyphen_position index = index == 8 || (index == 13 || (index == 18 || index == 23))

-- the loop over the characters
unfoldable pub chars_valid : ℕ → Text → Bool
unfolding is_hyphen_position is_hex_digit
chars_valid index [] = true
chars_valid index (c ∷ s) =
    let rest = chars_valid (index + 1) s in
    (if is_hyphen_position index then c == b'-' else is_hex_digit c) && rest

unfoldable pub is_variant : ℕ → Bool
is_variant c = c == b'8' || (c == b'9' || (c == b'a' || (c == b'A' || (c == b'b' || c == b'B'))))

unfoldable pub is_valid_uuid : Text → Bool
unfolding chars_valid is_variant char_at
is_valid_uuid value =
    length value == 36
    && (chars_valid 0 value
        && ((char_at value 14 == b'4' || char_at value 14 == b'7')
            && is_variant (char_at value 19)))
