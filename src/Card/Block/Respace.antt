-- ===== src/Card/Block/Respace.antt =====
-- Inserting a block: the loop over the radius ends, the cards stand where they were put, and what
-- changes is stamped.
use holder_core.Common.{
  ℕ, ◌+◌, ◌≡◌, refl, inl, inr, List, [], ◌∷◌, Text, All, Bool-cases, leb, map, ◌&&◌, ltb, ◌||◌, not,
  ap, ◌≤◌, take, drop, length, ◌<◌, min, ◌++◌, suc, ◌≢◌, arith, Option, take-append-drop, none,
  true, zero, some, map-append, ◌∙◌, sym, if◌then◌else◌, ◌==◌, ltb→lt,
}
use holder_core.Common.Int.{ℤ}
use holder_core.Card.{Floats}
use holder_core.Card.Repo.{Cards}
use holder_core.Card.Result.{Result, ok, err}
use holder_core.Card.Block.{
  write_keys, respace, window_low, next_radius, out_of_fuel, no_sort_keys_available, replace_window,
  spaced_keys,
}

module _ (F : Floats) where
  open F use {Double}

  abbrev pub ids : Cards F → List Text
  ids = map (λ c. c.card_id)

  abbrev pub Stamped : ℤ → Cards F → Type 0
  Stamped t = All (λ c. c.updated_at ≡ t)

  module _ (at block_end : ℕ) (t : ℤ) where
    ids-write_keys :
        (i : ℕ) (cs : Cards F) (ks : List Double)
        → ids (write_keys F at block_end t i cs ks).1 ≡ ids cs
    unfolding write_keys
    ids-write_keys i [] ks = refl
    ids-write_keys i (c ∷ cs) [] = refl
    ids-write_keys i (c ∷ cs) (k ∷ ks) =
        elim (Bool-cases ((leb at i && ltb i block_end) || not (F.eq c.sort_key k))) [
          | inl b ↦ rw b (ap (◌∷◌ c.card_id) (ids-write_keys (i + 1) cs ks))
          | inr b ↦ rw b (ap (◌∷◌ c.card_id) (ids-write_keys (i + 1) cs ks))
        ]

    write_keys-Stamped :
        (i : ℕ) (cs : Cards F) (ks : List Double)
        → Stamped t (write_keys F at block_end t i cs ks).0
    unfolding write_keys
    write_keys-Stamped i [] ks = tt
    write_keys-Stamped i (c ∷ cs) [] = tt
    write_keys-Stamped i (c ∷ cs) (k ∷ ks) =
        elim (Bool-cases ((leb at i && ltb i block_end) || not (F.eq c.sort_key k))) [
          | inl b ↦ rw b (refl, write_keys-Stamped (i + 1) cs ks)
          | inr b ↦ rw b (write_keys-Stamped (i + 1) cs ks)
        ]

    -- the result of the loop
    abbrev pub Placed : Cards F → Result (Cards F × Cards F) → Type 0
    Placed destination (ok (changed, written)) = (ids written ≡ ids destination) × Stamped t changed
    Placed destination (err e) = Unit

    window-split :
        (low high : ℕ) (d : Cards F)
        → low ≤ high
        → take low d ++ (drop low (take high d) ++ drop high d) ≡ d
    window-split zero high d le = take-append-drop high d
    window-split (suc low) zero d le = absurd (omega arith)
    window-split (suc low) (suc high) [] le = refl
    window-split (suc low) (suc high) (x ∷ xs) le =
        ap (◌∷◌ x) (window-split low high xs (omega arith))

    ids-replace :
        (low high : ℕ) (d window : Cards F)
        → low ≤ high
        → ids window ≡ ids (drop low (take high d))
        → ids (take low d ++ (window ++ drop high d)) ≡ ids d
    ids-replace low high d window le h =
        map-append _ (take low d) (window ++ drop high d)
        ∙ ap (λ x. ids (take low d) ++ x)
            (map-append _ window (drop high d) ∙ ap (λ x. x ++ ids (drop high d)) h)
        ∙ ap (λ x. ids (take low d) ++ x)
            (sym (map-append _ (drop low (take high d)) (drop high d)))
        ∙ sym (map-append _ (take low d) (drop low (take high d) ++ drop high d))
        ∙ ap ids (window-split low high d le)

    window_le :
        (radius size : ℕ)
        → at ≤ block_end
        → at ≤ size
        → window_low F at radius ≤ min size (block_end + radius)
    window_le radius size a b = ground arith

    pub respace-Placed :
        (fuel : ℕ) (d : Cards F) (radius : ℕ)
        → at ≤ block_end
        → at ≤ length d
        → Placed d (respace F fuel d at block_end t radius)
    unfolding respace
    respace-Placed zero d radius a b = tt
    respace-Placed (suc fuel) d radius a b =
        by (spaced_keys F _ _ _) (respace-Placed fuel d (next_radius F radius) a b)
      where
        low : ℕ
        low = window_low F at radius

        high : ℕ
        high = min (length d) (block_end + radius)

        by :
            (o : Option (List Double))
            → Placed d (respace F fuel d at block_end t (next_radius F radius))
            → Placed d (elim o [
              | none ↦
                  if low == 0 && high == length d
                  then err no_sort_keys_available
                  else respace F fuel d at block_end t (next_radius F radius)
              | some keys ↦ ok (
                  replace_window F d low high
                    (write_keys F at block_end t low (drop low (take high d)) keys))
            ])
        by none ih = elim (Bool-cases (low == 0 && high == length d)) [
          | inl all ↦ rw all tt
          | inr part ↦ rw part ih
        ]
        by (some keys) ih = (
          ids-replace low high d _ (window_le radius (length d) a b)
              (ids-write_keys low (drop low (take high d)) keys),
          write_keys-Stamped low (drop low (take high d)) keys,
        )

    -- The window covers the destination once the radius has reached its size.
    covers :
        (radius size : ℕ)
        → at ≤ block_end
        → at ≤ size
        → size ≤ radius
        → (window_low F at radius == 0 && min size (block_end + radius) == size) ≡ true
    covers radius size a b full = ground arith

    pub respace-ends :
        (fuel : ℕ) (d : Cards F) (radius : ℕ)
        → at ≤ block_end
        → at ≤ length d
        → 0 < fuel
        → length d + 1 < radius + fuel
        → respace F fuel d at block_end t radius ≢ err out_of_fuel
    unfolding respace
    respace-ends zero d radius a b pos big e = absurd (omega arith)
    respace-ends (suc fuel) d radius a b pos big e =
        by (spaced_keys F _ _ _)
          (λ small.
            respace-ends fuel d (next_radius F radius) a b (omega arith) (grows radius small))
          e
      where
        low : ℕ
        low = window_low F at radius

        high : ℕ
        high = min (length d) (block_end + radius)

        grows : (r : ℕ) → radius < length d → length d + 1 < next_radius F radius + fuel
        grows r small = ground arith

        by :
            (o : Option (List Double))
            → (radius < length d
                → respace F fuel d at block_end t (next_radius F radius) ≢ err out_of_fuel)
            → (elim o [
              | none ↦
                  if low == 0 && high == length d
                  then err no_sort_keys_available
                  else respace F fuel d at block_end t (next_radius F radius)
              | some keys ↦ ok (
                  replace_window F d low high
                    (write_keys F at block_end t low (drop low (take high d)) keys))
            ])
              ≢ err out_of_fuel
        by none ih h = elim (Bool-cases (low == 0 && high == length d)) [
          | inl all ↦ cc (rw all at h)
          | inr part ↦ elim (Bool-cases (ltb radius (length d))) [
            | inl small ↦ ih (ltb→lt radius (length d) small) (rw part at h)
            | inr full ↦ cc (part, covers radius (length d) a b (ground arith))
          ]
        ]
        by (some keys) ih h = cc

    abbrev pub ChangesStamped : Result (Cards F × Cards F) → Type 0
    ChangesStamped (ok (changed, written)) = Stamped t changed
    ChangesStamped (err e) = Unit

    pub respace-Stamped :
        (fuel : ℕ) (d : Cards F) (radius : ℕ)
        → ChangesStamped (respace F fuel d at block_end t radius)
    unfolding respace
    respace-Stamped zero d radius = tt
    respace-Stamped (suc fuel) d radius =
        by (spaced_keys F _ _ _) (respace-Stamped fuel d (next_radius F radius))
      where
        low : ℕ
        low = window_low F at radius

        high : ℕ
        high = min (length d) (block_end + radius)

        by :
            (o : Option (List Double))
            → ChangesStamped (respace F fuel d at block_end t (next_radius F radius))
            → ChangesStamped (elim o [
              | none ↦
                  if low == 0 && high == length d
                  then err no_sort_keys_available
                  else respace F fuel d at block_end t (next_radius F radius)
              | some keys ↦ ok (
                  replace_window F d low high
                    (write_keys F at block_end t low (drop low (take high d)) keys))
            ])
        by none ih = elim (Bool-cases (low == 0 && high == length d)) [
          | inl all ↦ rw all tt
          | inr part ↦ rw part ih
        ]
        by (some keys) ih = write_keys-Stamped low (drop low (take high d)) keys
