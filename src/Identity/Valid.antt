-- ===== src/Identity/Valid.antt =====
-- The identifiers that are generated are valid ones.
use holder_core.Common.{
  ℕ, zero, suc, ◌+◌, ◌/◌, ◌%◌, ◌<◌, ◌≤◌, ◌≡◌, refl, Bool, true, false, some, arith, Text, ltb, ◌==◌,
  ◌||◌, inl, inr, ◌⊎◌, ◌^◌, if◌then◌else◌, Bool-cases, ==_iff,
}
use holder_core.Identity.{
  IdScheme, uuid4, uuid7, hex, is_hex_digit, is_variant, stamp, format_uuid, is_valid_uuid, uuid_v4,
  uuid_v7, generate_id, set_time, char_at,
}

-- The test at every digit that is less than the bound, the last one first.
holds_for_digits : (ℕ → Bool) → ℕ → Bool
holds_for_digits test zero = true
holds_for_digits test (suc bound) = if test bound then holds_for_digits test bound else false

holds_at :
    (test : ℕ → Bool) (bound digit : ℕ)
    → digit < bound
    → holds_for_digits test bound ≡ true
    → test digit ≡ true
unfolding holds_for_digits
holds_at test zero digit less tried = elim less [ ]
holds_at test (suc bound) digit less tried = elim (Bool-cases (digit == bound)) [
  | inl last ↦ ground (arith, ==_iff digit bound)
  | inr before ↦ ground (arith, holds_at test bound digit)
]

hex_table : holds_for_digits (λ n. is_hex_digit (hex n)) 16 ≡ true
unfolding holds_for_digits is_hex_digit hex
hex_table = refl

hex_digit : (n : ℕ) → n < 16 → is_hex_digit (hex n) ≡ true
hex_digit n h = holds_at (λ n. is_hex_digit (hex n)) 16 n h hex_table

variant_table : holds_for_digits (λ n. is_variant (hex (n + 8))) 4 ≡ true
unfolding holds_for_digits is_variant hex
variant_table = refl

-- The character of the version, and that of the variant.
version_ok : (v : ℕ) → (v ≡ 4) ⊎ (v ≡ 7) → (hex v == b'4' || hex v == b'7') ≡ true
unfolding hex char_at
version_ok v (inl e) = rw e
version_ok v (inr e) = rw e

variant_ok : (v n : ℕ) → n < 4 → v ≡ n + 8 → is_variant (hex v) ≡ true
variant_ok v n h e = rw e (holds_at (λ m. is_variant (hex (m + 8))) 4 n h variant_table)

-- Sixteen bytes with the version and the variant in place are printed as a valid identifier.
pub format_uuid_valid :
    (bytes : ℕ → ℕ)
    → ((i : ℕ) → bytes i < 256)
    → (bytes 6 / 16 ≡ 4) ⊎ (bytes 6 / 16 ≡ 7)
    → (n : ℕ) → n < 4
    → bytes 8 / 16 ≡ n + 8
    → is_valid_uuid (format_uuid bytes) ≡ true
unfolding is_valid_uuid format_uuid
format_uuid_valid bytes h version n small variant =
    let high : (i : ℕ) → is_hex_digit (hex (bytes i / 16)) ≡ true =
      λ i. hex_digit (bytes i / 16) (omega (arith, h i)) in
    let low : (i : ℕ) → is_hex_digit (hex (bytes i % 16)) ≡ true =
      λ i. hex_digit (bytes i % 16) (omega arith) in
    simp (high, low, version_ok (bytes 6 / 16) version, variant_ok (bytes 8 / 16) n small variant)

-- Stamping and the time keep the bytes below 256, and give the version and the variant.
stamp_bytes :
    (version : ℕ) (bytes : ℕ → ℕ) (i : ℕ)
    → version ≤ 240
    → bytes i < 256
    → bytes 6 < 256
    → stamp version bytes i < 256
unfolding stamp
stamp_bytes version bytes i v h k = ground arith

set_time_bytes : (t : ℕ) (bytes : ℕ → ℕ) (i : ℕ) → bytes i < 256 → set_time t bytes i < 256
unfolding set_time
set_time_bytes t bytes i h = ground arith

stamped_version :
    (version : ℕ) (bytes : ℕ → ℕ)
    → (version ≡ 64) ⊎ (version ≡ 112)
    → (stamp version bytes 6 / 16 ≡ 4) ⊎ (stamp version bytes 6 / 16 ≡ 7)
unfolding stamp
stamped_version version bytes (inl e) = inl (omega (arith, e))
stamped_version version bytes (inr e) = inr (omega (arith, e))

stamped_variant : (version : ℕ) (bytes : ℕ → ℕ) → stamp version bytes 8 / 16 ≡ bytes 8 % 64 / 16 + 8
unfolding stamp
stamped_variant version bytes = omega arith

in_range : (now_ms : ℕ) → now_ms < 2 ^ 48 → ltb 0xFFFFFFFFFFFF now_ms ≡ false
in_range now_ms h = ground arith

stamped_valid :
    (version : ℕ) (bytes : ℕ → ℕ)
    → ((i : ℕ) → bytes i < 256)
    → (version ≡ 64) ⊎ (version ≡ 112)
    → is_valid_uuid (format_uuid (stamp version bytes)) ≡ true
stamped_valid version bytes h v =
    format_uuid_valid (stamp version bytes)
      (λ i.
        stamp_bytes version bytes i (elim v [ inl e ↦ omega (arith, e) | inr e ↦ omega (arith, e) ])
          (h i) (h 6))
      (stamped_version version bytes v) (bytes 8 % 64 / 16) (omega arith)
      (stamped_variant version bytes)

-- Whatever the random bytes, `generate_id` returns for either scheme, at a time below 2^48 ms, a
-- text that `is_valid_uuid` accepts.
pub generate_id_valid :
    (scheme : IdScheme) (now_ms : ℕ) (random : ℕ → ℕ)
    → ((i : ℕ) → random i < 256)
    → now_ms < 2 ^ 48
    → (id : Text) × (generate_id scheme now_ms random ≡ some id) × (is_valid_uuid id ≡ true)
unfolding generate_id uuid_v4 uuid_v7
generate_id_valid uuid4 now_ms random h t = (_, refl, stamped_valid 64 random h (inl refl))
generate_id_valid uuid7 now_ms random h t = (
  _,
  rw (in_range now_ms t),
  stamped_valid 112 (set_time now_ms random) (λ i. set_time_bytes now_ms random i (h i)) (inr refl),
)
