-- ===== src/Card/Block/Keys.antt =====
-- The keys that `spaced_keys` returns are strictly ordered between their neighbours.
use mathlib.Core.Option
use holder_core.Common.{
  ℕ, zero, suc, ◌+◌, ◌≡◌, refl, inl, inr, true, false, Option, none, some, List, [], ◌∷◌,
  if◌then◌else◌, not, length, ◌||◌, subst, ap, Bool-cases,
}
use holder_core.Card.{Floats, IsOrdered}
use holder_core.Card.Block.{keys_from, low_end, high_end, spaced_keys}

module _ (F : Floats) where
  open F use {Double}

  -- Finite keys, each above the one before it, and above `low` and below `high` where these are no NaN
  abbrev pub Between : Double → Double → List Double → Type 0
  Between low high [] = Unit
  Between low high (k ∷ ks) =
      (F.is_finite k ≡ true)
      × (F.eq low low ≡ true → F.lt low k ≡ true)
      × (F.eq high high ≡ true → F.lt k high ≡ true)
      × Between k high ks

  -- what the loop answers, if it has not given up
  abbrev Keys : Double → Double → ℕ → Option (List Double) → Type 0
  Keys low high count none = Unit
  Keys low high count (some ks) = (length ks ≡ count) × Between low high ks

  Keys-cons :
      (ord : IsOrdered F) (previous high key : Double) (count : ℕ) (rest : Option (List Double))
      → Keys key high count rest
      → Keys previous high (suc count) (
          if not (F.is_finite key) || F.le key previous || F.le high key
          then none
          else Option.map (◌∷◌ key) rest)
  Keys-cons ord previous high key count rest h = elim (Bool-cases (F.is_finite key)) [
    | inr inf ↦ rw inf tt
    | inl fin ↦ elim (Bool-cases (F.le key previous)) [
      | inl low ↦ rw (fin, low) tt
      | inr low ↦ elim (Bool-cases (F.le high key)) [
        | inl up ↦ rw (fin, low, up) tt
        | inr up ↦ rw (fin, low, up) (made rest h fin low up)
      ]
    ]
  ]
    where
      made :
          (r : Option (List Double))
          → Keys key high count r
          → F.is_finite key ≡ true
          → F.le key previous ≡ false
          → F.le high key ≡ false
          → Keys previous high (suc count) (Option.map (◌∷◌ key) r)
      made none k fin low up = tt
      made (some ks) k fin low up =
          let number = ord.finite_eq key fin in
          (
            ap suc k.0,
            (
              fin,
              (λ n. ord.le_or_lt key previous number n low),
              (λ n. ord.le_or_lt high key n number up),
              k.1,
            ),
          )

  keys_from-Keys :
      (ord : IsOrdered F) (low high n : Double) (i : ℕ) (previous : Double) (count : ℕ)
      → Keys previous high count (keys_from F low high n i previous count)
  unfolding keys_from
  keys_from-Keys ord low high n i previous zero = (refl, tt)
  keys_from-Keys ord low high n i previous (suc count) =
      Keys-cons ord previous high _ count _ (keys_from-Keys ord low high n (i + 1) _ count)

  -- With comparisons as IEEE 754 has them, if `spaced_keys` returns keys, they are as many as it
  -- was asked for, finite, strictly increasing, and strictly between the two ends: the
  -- neighbours' keys where there are such.
  pub spaced_keys-Between :
      (ord : IsOrdered F) (left right : Option Double) (count : ℕ) (ks : List Double)
      → spaced_keys F left right count ≡ some ks
      → (length ks ≡ count)
        × Between
            (low_end F left right (F.of_count count))
            (high_end F (low_end F left right (F.of_count count)) right (F.of_count count))
            ks
  unfolding spaced_keys
  spaced_keys-Between ord left right count ks h =
      let n = F.of_count count in
      let low = low_end F left right n in
      subst (Keys low (high_end F low right n) count) h
        (keys_from-Keys ord low (high_end F low right n) n 0 low count)
