-- ===== src/Card/Pages/Prefix.antt =====
-- The search by a prefix of the card ID.
use holder_core.Common.{
  ◌≡◌, refl, true, [], ◌∷◌, arith, Text, text_eq, text_lt, take, length, all_of, ltb,
}
use holder_core.Card.Pages.{matches_prefix}

-- Where every byte of a card ID is below '~', as in the canonical ones, the search by a prefix
-- matches it exactly if it starts with the prefix: the bound of the index range leaves none out.
pub matches_prefix-starts :
    (prefix id : Text)
    → all_of (λ c. ltb c 126) id ≡ true
    → matches_prefix prefix id ≡ text_eq (take (length prefix) id) prefix
unfolding matches_prefix text_lt text_eq
matches_prefix-starts [] [] h = refl
matches_prefix-starts [] (d ∷ id) h = ground arith
matches_prefix-starts (c ∷ p) [] h = ground arith
matches_prefix-starts (c ∷ p) (d ∷ id) h = ground (arith, matches_prefix-starts p id (ground arith))
