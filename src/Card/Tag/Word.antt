-- ===== src/Card/Tag/Word.antt =====
-- Normalising keeps a tag a tag, and is done after one time.
use holder_core.Common.{
  ℕ, suc, ◌≡◌, refl, Bool, true, [], ◌∷◌, arith, Text, ◌≢◌, is_alpha, ap₂, is_empty, ◌∙◌, length,
  all_of, map, ap,
}
use holder_core.Card.Tag.{
  is_hex_digit, starts_alpha, normalize_tag, is_valid_tag, lower_byte, to_lower, is_tag_byte,
  looks_like_hex_color,
}

pub record IsTagWord (t : Text) : Type 0 where
  pub valid : is_valid_tag t ≡ true
  pub normal : normalize_tag t ≡ t

is_hex_digit-lower_byte : (c : ℕ) → is_hex_digit (lower_byte c) ≡ is_hex_digit c
unfolding is_hex_digit lower_byte
is_hex_digit-lower_byte c = ground arith

is_tag_byte-lower_byte : (c : ℕ) → is_tag_byte (lower_byte c) ≡ is_tag_byte c
unfolding is_tag_byte lower_byte
is_tag_byte-lower_byte c = ground arith

is_alpha-lower_byte : (c : ℕ) → is_alpha (lower_byte c) ≡ is_alpha c
unfolding lower_byte
is_alpha-lower_byte c = ground arith

lower_byte_idem : (c : ℕ) → lower_byte (lower_byte c) ≡ lower_byte c
unfolding lower_byte
lower_byte_idem c = ground arith

all_of-map :
    (p : ℕ → Bool) (f : ℕ → ℕ) (same : (c : ℕ) → p (f c) ≡ p c) (s : Text)
    → all_of p (map f s) ≡ all_of p s
all_of-map p f same [] = refl
all_of-map p f same (c ∷ cs) = rw (same c, all_of-map p f same cs)

length-map : (f : ℕ → ℕ) (s : Text) → length (map f s) ≡ length s
length-map f [] = refl
length-map f (c ∷ cs) = ap suc (length-map f cs)

looks_like_hex_color-to_lower :
    (s : Text) → looks_like_hex_color (to_lower s) ≡ looks_like_hex_color s
unfolding looks_like_hex_color to_lower
looks_like_hex_color-to_lower s =
    rw (length-map lower_byte s, all_of-map is_hex_digit lower_byte is_hex_digit-lower_byte s)

starts_alpha-to_lower : (s : Text) → starts_alpha (to_lower s) ≡ starts_alpha s
unfolding starts_alpha to_lower
starts_alpha-to_lower [] = refl
starts_alpha-to_lower (c ∷ cs) = is_alpha-lower_byte c

is_empty-to_lower : (s : Text) → is_empty (to_lower s) ≡ is_empty s
unfolding to_lower
is_empty-to_lower [] = refl
is_empty-to_lower (c ∷ cs) = refl

-- A word is a valid tag exactly if its normal form is one.
is_valid_tag-normalize_tag : (s : Text) → is_valid_tag (normalize_tag s) ≡ is_valid_tag s
is_valid_tag-normalize_tag s =
    unfold is_valid_tag normalize_tag in
    rw (is_empty-to_lower s, starts_alpha-to_lower s, looks_like_hex_color-to_lower s)
      (rw (all_of-map is_tag_byte lower_byte is_tag_byte-lower_byte s))

pub normalize_tag_idem : (s : Text) → normalize_tag (normalize_tag s) ≡ normalize_tag s
unfolding normalize_tag to_lower
normalize_tag_idem [] = refl
normalize_tag_idem (c ∷ cs) = ap₂ ◌∷◌ (lower_byte_idem c) (normalize_tag_idem cs)

pub normalize_tag-IsTagWord : (s : Text) → is_valid_tag s ≡ true → IsTagWord (normalize_tag s)
normalize_tag-IsTagWord s h = record {
  valid = is_valid_tag-normalize_tag s ∙ h;
  normal = normalize_tag_idem s;
}

pub is_valid_tag-bytes :
    (s : Text) → is_valid_tag s ≡ true → (s ≢ []) × (all_of is_tag_byte s ≡ true)
unfolding is_valid_tag
is_valid_tag-bytes [] h = cc
is_valid_tag-bytes (c ∷ cs) h = (λ e. cc, ground arith)
