-- ===== src/Card/Placement/Resolve/Failures.antt =====
-- What the insertion at the end of `resolve` throws: that no keys are left.
use holder_core.Common.{
  ℕ, zero, suc, ◌+◌, ◌-◌, ◌≡◌, ◌⊎◌, refl, inl, inr, Bool, true, false, Option, none, some, [], ◌∷◌,
  if◌then◌else◌, Text, ◌&&◌, length, ◌==◌, ltb, min, drop, take, List, ◌≢◌, ap,
}
use holder_core.Common.Int.{ℤ}
use holder_core.Card.{Floats, Card}
use holder_core.Card.Repo.{Cards}
use holder_core.Card.Result.{MoveError, Result, ok, err, ◌>>=◌, no_sort_keys_available, out_of_fuel}
use holder_core.Card.Block.{
  insert_block_into, respace, spaced_keys, window_low, key_at, replace_window, write_keys,
  next_radius,
}
use holder_core.Card.Placement.{CardPlacementIntent, Plan}
use holder_core.Card.Placement.Resolve.{place_at}
use holder_core.Card.Block.Insert.{insert_block_into-Inserted, Inserted}
use holder_core.Card.Placement.Resolve.Intents.{is_step}
use holder_core.Card.Placement.Resolve.Plans.{Fits}

module _ (F : Floats) where
  open F use {Double}

  abbrev KeysFail : Result (Cards F × Cards F) → Type 0
  KeysFail (ok r) = Unit
  KeysFail (err e) = (e ≡ no_sort_keys_available) ⊎ (e ≡ out_of_fuel)

  respace-KeysFail :
      (fuel : ℕ) (destination : Cards F) (at block_end : ℕ) (t : ℤ) (radius : ℕ)
      → KeysFail (respace F fuel destination at block_end t radius)
  unfolding respace
  respace-KeysFail zero destination at block_end t radius = inr refl
  respace-KeysFail (suc fuel) destination at block_end t radius =
      let low = window_low F at radius in
      let high = min (length destination) (block_end + radius) in
      go low high
        (spaced_keys F (if low == 0 then none else key_at F destination (low - 1))
          (if ltb high (length destination) then key_at F destination high else none) (high - low))
        (respace-KeysFail fuel destination at block_end t (next_radius F radius))
    where
      wider : Result (Cards F × Cards F)
      wider = respace F fuel destination at block_end t (next_radius F radius)

      widen :
          (b : Bool) → KeysFail wider → KeysFail (if b then err no_sort_keys_available else wider)
      widen true w = inl refl
      widen false w = w

      go :
          (low high : ℕ) (o : Option (List Double))
          → KeysFail wider
          → KeysFail (elim o as (λ x. Result (Cards F × Cards F)) [
            | none ↦
                if low == 0 && high == length destination then err no_sort_keys_available else wider
            | some keys ↦ ok (
                replace_window F destination low high
                  (write_keys F at block_end t low (drop low (take high destination)) keys))
          ])
      go low high none w = widen (low == 0 && high == length destination) w
      go low high (some keys) w = tt

  insert_block_into-KeysFail :
      (d : Cards F) (at : ℕ) (block : Cards F) (parent : Option Text) (t : ℤ)
      → KeysFail (insert_block_into F d at block parent t)
  unfolding insert_block_into
  insert_block_into-KeysFail d at [] parent t = tt
  insert_block_into-KeysFail d at (b ∷ bs) parent t = respace-KeysFail _ _ at _ t 0

  -- no keys are left, or, for Left and Right alone, the mark of the model's fuel
  abbrev pub KeyError : CardPlacementIntent → MoveError → Type 0
  KeyError intent e = (e ≡ no_sort_keys_available) ⊎ ((e ≡ out_of_fuel) × (is_step intent ≡ true))

  abbrev pub FailsOnly {ℓ} : {A : Type ℓ} → CardPlacementIntent → Result A → Type 0
  FailsOnly intent (ok a) = Unit
  FailsOnly intent (err e) = KeyError intent e

  bind-FailsOnly {ℓ κ} :
      {A : Type ℓ} {B : Type κ} (intent : CardPlacementIntent) (m : Result A) (f : A → Result B)
      → FailsOnly intent m
      → ((a : A) → FailsOnly intent (f a))
      → FailsOnly intent (m >>= f)
  bind-FailsOnly intent (ok a) f hm hf = hf a
  bind-FailsOnly intent (err e) f hm hf = hm

  keys_fail :
      (intent : CardPlacementIntent) (r : Result (Cards F × Cards F))
      → KeysFail r
      → (r ≢ err out_of_fuel) ⊎ (is_step intent ≡ true)
      → FailsOnly intent r
  keys_fail intent (ok a) k ends = tt
  keys_fail intent (err e) (inl n) ends = inl n
  keys_fail intent (err e) (inr n) (inl ends) = absurd (ends (ap err n))
  keys_fail intent (err e) (inr n) (inr step) = inr (n, step)

  ends :
      (d : Cards F) (at : ℕ) (block : Cards F) (t : ℤ) (r : Result (Cards F × Cards F))
      → Inserted F d at block t r
      → r ≢ err out_of_fuel
  ends d at block t (ok r) i h = cc
  ends d at block t (err e) i h = i (err-eq h)
    where
      err-eq : {x y : MoveError} → (e : Path (Result (Cards F × Cards F)) (err x) (err y)) → x ≡ y
      err-eq e = cc

  insert_ends :
      (intent : CardPlacementIntent) (d : Cards F) (at : ℕ) (c : Card Double) (parent : Option Text)
      (t : ℤ)
      → Fits F intent (some at) d
      → (insert_block_into F d at (c ∷ []) parent t ≢ err out_of_fuel) ⊎ (is_step intent ≡ true)
  insert_ends intent d at c parent t (inl step) = inr step
  insert_ends intent d at c parent t (inr le) = inl (
      ends d at (c ∷ []) t (insert_block_into F d at (c ∷ []) parent t)
        (insert_block_into-Inserted F d at (c ∷ []) parent t le (λ e. one_card c e)))
    where
      one_card : (c : Card Double) → c ∷ [] ≢ []
      one_card c e = cc

  pub place_at-FailsOnly :
      (intent : CardPlacementIntent) (source : Card Double) (t : ℤ) (plan : Plan F) (o : Option ℕ)
      → Fits F intent o plan.destination
      → FailsOnly intent (place_at F source t plan o)
  unfolding place_at
  place_at-FailsOnly intent source t plan none fits = tt
  place_at-FailsOnly intent source t plan (some at) fits =
      bind-FailsOnly intent
        (insert_block_into F plan.destination at (source ∷ []) plan.next_parent t) _
        (keys_fail intent _
          (insert_block_into-KeysFail plan.destination at (source ∷ []) plan.next_parent t)
          (insert_ends intent plan.destination at source plan.next_parent t fits))
        (λ placed. tt)
