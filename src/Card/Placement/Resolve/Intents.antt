-- ===== src/Card/Placement/Resolve/Intents.antt =====
-- The intents of a placement, by what they need.
use holder_core.Common.{Bool, true, false}
use holder_core.Card.Placement.{
  CardPlacementIntent, into, before, after, to_start, to_end, left, right,
}

-- the intents that need a target
abbrev pub needs_target : CardPlacementIntent → Bool
needs_target into = true
needs_target before = true
needs_target after = true
needs_target _ = false

-- the intents that put a card beside its target
abbrev pub is_beside : CardPlacementIntent → Bool
is_beside before = true
is_beside after = true
is_beside _ = false

-- the intents that may name a parent
abbrev pub is_scope : CardPlacementIntent → Bool
is_scope to_start = true
is_scope to_end = true
is_scope left = true
is_scope right = true
is_scope _ = false

-- the intents whose position is counted among the siblings with the card itself
abbrev pub is_step : CardPlacementIntent → Bool
is_step left = true
is_step right = true
is_step _ = false
