-- ===== src/Card/Result.antt =====
-- The errors that placing a card can throw, by their messages (card/CardPlacementResolver.h,
-- card/CardHierarchy.cpp), and results that carry one.

use holder_core.Common.{◌≡◌, refl}

pub data MoveError : Type 0 where
  card_not_found cross_project_move_forbidden target_not_found : MoveError
  move_would_create_cycle invalid_target already_at_project_root : MoveError
  missing_target_card_id no_sort_keys_available : MoveError
  -- no message of the code: the model's loop ran out of its fuel
  out_of_fuel : MoveError

pub data Result {ℓ} (Value : Type ℓ) : Type ℓ where
  err : MoveError → Result Value
  ok : Value → Result Value

infixl 5 ◌>>=◌
abbrev pub ◌>>=◌ {ℓ κ} :
    {Value : Type ℓ} {Next : Type κ} (first : Result Value) → (Value → Result Next) → Result Next
err e >>= next = err e
ok value >>= next = next value

-- Both steps of a sequence that succeeds have succeeded.
pub bind_succeeds {ℓ κ} :
    {Value : Type ℓ} {Next : Type κ} (first : Result Value) (then_do : Value → Result Next)
    (result : Next)
    → (first >>= then_do) ≡ ok result
    → (value : Value) × (first ≡ ok value) × (then_do value ≡ ok result)
bind_succeeds (err e) then_do result done = cc
bind_succeeds (ok value) then_do result done = (value, refl, done)
