-- ===== src/Tests/Cards.antt =====
-- The theorems on cards at concrete inputs. The `double` of these runs is a fixed-point number with
-- three digits behind the point.
use holder_core.Card.Repo.Updates.{restore-soft_delete}
use holder_core.Card.Repo.{restore, soft_delete, Cards, get}
use holder_core.Common.{
  ◌≡◌, refl, text, [], ◌∷◌, List, Text, Option, some, none, true, false, arith, length, ◌*◌, ◌/◌,
  ◌+◌, ◌-◌, ltb, leb, ◌==◌, ℕ, ◌≢◌, ◌↔◌, ◌<◌, inl, inr,
}
use holder_core.Common.Int.{pos}
use holder_core.Card.{Floats, IsOrdered, Card, is_deleted}
use holder_core.Card.Result.{move_would_create_cycle, invalid_target, ok, err, out_of_fuel}
use holder_core.Card.Hierarchy.{reachable_card_parent, validate_card_parent}
use holder_core.Card.Hierarchy.Reach.{Reachable, LiveUp, Above, reachable_card_parent-Reachable}
use holder_core.Card.Hierarchy.Fuel.{reachable_card_parent_ends}
use holder_core.Card.Hierarchy.Accepts.{validate_card_parent_iff}
use holder_core.Card.Block.{spaced_keys, insert_block_into, low_end, high_end}
use holder_core.Card.Block.Keys.{Between, spaced_keys-Between}
use holder_core.Card.Block.Insert.{Inserted, insert_block_into-Inserted}
use holder_core.Card.Placement.Resolve.Failures.{KeyError}
use holder_core.Card.Placement.Resolve.Refused.{Refused}
use holder_core.Card.Placement.Resolve.Exact.{resolve_fails_iff}
use holder_core.Card.Placement.{
  into, CardPlacementRequest, CardPlacementResult, is_descendant_of, before, live,
  siblings_for_parent, index_of, normalize_parent_id,
}
use holder_core.Card.Placement.Descent.{Leads, is_descendant_of_iff}
use holder_core.Card.Placement.Resolve.{resolve, plan_beside, place_at, place}
use holder_core.Card.Placement.Resolve.Outcome.{Moves, resolve-Moves}

abbrev pub fixed : Floats
fixed = record {
  Double = ℕ;
  lt = λ a b. ltb a b;
  eq = λ a b. a == b;
  le = λ a b. leb a b;
  is_finite = λ a. true;
  add = λ a b. a + b;
  sub = λ a b. a - b;
  mul = λ a b. a * b / 1000;
  div = λ a b. a * 1000 / b;
  of_count = λ n. n * 1000;
}

fixed-IsOrdered : IsOrdered fixed
fixed-IsOrdered = record { finite_eq = λ a h. ground arith; le_or_lt = λ a b ha hb h. ground arith }

-- a card of the project `p` with the given ID, parent and sort key
abbrev pub card : Text → Option Text → ℕ → Card ℕ
card id parent key = record {
  card_id = id;
  project_id = text "p";
  title = id;
  rel_path = [];
  parent_card_id = parent;
  sort_key = key;
  created_at = pos 1;
  updated_at = pos 1;
  deleted_at = none;
}

-- `a` and `d` at the top level, `b` under `a` and `c` under `b`
abbrev pub cards : Cards fixed
cards =
    card (text "a") none 1000
    ∷ card (text "b") (some (text "a")) 1000
    ∷ card (text "c") (some (text "b")) 1000
    ∷ card (text "d") none 2000
    ∷ []

reaches_b :
    reachable_card_parent fixed cards (card (text "c") (some (text "b")) 1000)
    ≡ ok (some (text "b"))
unfolding reachable_card_parent
reaches_b = refl

reachable_card_parent-Reachable_example : Reachable fixed cards (text "p") (text "b")
reachable_card_parent-Reachable_example =
    reachable_card_parent-Reachable fixed cards (card (text "c") (some (text "b")) 1000) (text "b")
      reaches_b

reachable_card_parent_ends_example :
    reachable_card_parent fixed cards (card (text "c") (some (text "b")) 1000) ≢ err out_of_fuel
reachable_card_parent_ends_example =
    reachable_card_parent_ends fixed cards (card (text "c") (some (text "b")) 1000)

validate_card_parent_iff_example :
    (validate_card_parent fixed cards (card (text "d") (some (text "c")) 1000) ≡ ok (tt {0})) ↔ (
      LiveUp fixed cards (text "p") (some (text "c"))
      × ¬ Above fixed cards (text "d") (some (text "c")))
validate_card_parent_iff_example =
    validate_card_parent_iff fixed cards (card (text "d") (some (text "c")) 1000)

two_keys : spaced_keys fixed (some 1000) (some 2000) 2 ≡ some (1333 ∷ 1666 ∷ [])
unfolding spaced_keys
two_keys = refl

spaced_keys-Between_example :
    (length {A = ℕ} (1333 ∷ 1666 ∷ []) ≡ 2)
    × Between fixed
        (low_end fixed (some 1000) (some 2000) 2000)
        (high_end fixed (low_end fixed (some 1000) (some 2000) 2000) (some 2000) 2000)
        (1333 ∷ 1666 ∷ [])
spaced_keys-Between_example =
    spaced_keys-Between fixed fixed-IsOrdered (some 1000) (some 2000) 2 (1333 ∷ 1666 ∷ []) two_keys

cons-ne-nil : (c : Card ℕ) (cs : List (Card ℕ)) → c ∷ cs ≢ []
cons-ne-nil c cs e = cc

insert_block_into-Inserted_example :
    Inserted fixed cards 1
      (card (text "e") none 5000 ∷ [])
      (pos 7)
      (insert_block_into fixed cards 1 (card (text "e") none 5000 ∷ []) none (pos 7))
insert_block_into-Inserted_example =
    insert_block_into-Inserted fixed cards 1 (card (text "e") none 5000 ∷ []) none (pos 7)
      (omega arith) (cons-ne-nil (card (text "e") none 5000) [])

is_descendant_of_iff_example :
    (is_descendant_of fixed cards (some (text "c")) (text "a") ≡ true)
    ↔ ((k : ℕ) × (k < 1024) × Leads fixed cards (text "a") k (some (text "c")))
is_descendant_of_iff_example = is_descendant_of_iff fixed cards (text "a") (some (text "c"))

abbrev before_a : CardPlacementRequest
before_a = record {
  intent = before;
  target_card_id = some (text "a");
  has_parent_card_id = false;
  parent_card_id = none;
}

abbrev d_first : CardPlacementResult fixed
d_first = record {
  parent_card_id = none;
  sort_key = 500;
  moved_into_title = none;
  sibling_changes = [];
}

resolved : resolve fixed cards (text "p") (text "d") before_a (pos 9) ≡ ok d_first
unfolding resolve live siblings_for_parent index_of normalize_parent_id plan_beside place_at place
    insert_block_into
resolved = refl

resolve-Moves_example :
    (source : Card ℕ) × (get fixed cards (text "d") ≡ some source)
    × (is_deleted source ≡ false)
    × (source.project_id ≡ text "p")
    × Moves fixed (pos 9) source d_first
resolve-Moves_example =
    resolve-Moves fixed (pos 9) cards (text "p") (text "d") before_a d_first resolved

-- a goes under c, which is below it
abbrev into_c : CardPlacementRequest
into_c = record {
  intent = into;
  target_card_id = some (text "c");
  has_parent_card_id = false;
  parent_card_id = none;
}

no-KeyError : ¬ KeyError fixed into move_would_create_cycle
no-KeyError (inl e) = cc e
no-KeyError (inr (e, step)) = cc e

resolve_fails_iff_example :
    (resolve fixed cards (text "p") (text "a") into_c (pos 9) ≡ err move_would_create_cycle)
    ↔ Refused fixed cards (text "p") (text "a") into_c move_would_create_cycle
resolve_fails_iff_example =
    resolve_fails_iff fixed cards (text "p") (text "a") into_c (pos 9) move_would_create_cycle
      no-KeyError

-- It is refused, and so is a move of d beside itself.
into_c_fails :
    resolve fixed cards (text "p") (text "a") into_c (pos 9) ≡ err move_would_create_cycle
unfolding resolve live is_descendant_of normalize_parent_id
into_c_fails = refl

beside_itself_fails :
    resolve fixed cards
      (text "p")
      (text "d")
      (record before_a { target_card_id = some (text "d") })
      (pos 9)
    ≡ err invalid_target
unfolding resolve live siblings_for_parent index_of normalize_parent_id plan_beside
beside_itself_fails = refl

restore-soft_delete_example :
    restore fixed (soft_delete fixed cards (text "b") (pos 5) (pos 5)) (text "b") (pos 6)
    ≡ restore fixed cards (text "b") (pos 6)
restore-soft_delete_example = restore-soft_delete fixed cards (text "b") (pos 5) (pos 5) (pos 6)
