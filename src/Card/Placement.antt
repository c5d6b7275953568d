-- ===== src/Card/Placement.antt =====
-- Where a card lands for a placement intent (card/CardPlacementResolver.cpp).
pub mod Descent
pub mod Resolve
use mathlib.Core.Option
use holder_core.Common.{
  ℕ, zero, suc, ◌+◌, Bool, true, false, Option, none, some, [], ◌∷◌, if◌then◌else◌, ◌==◌, Text,
  length, text_eq, ◌||◌, is_empty, ◌&&◌, opt_text_eq, not, ltb, is_some, ◌++◌, ◌-◌,
}
use holder_core.Card.{Floats, Card, is_deleted, ℤ}
use holder_core.Card.Repo.{Cards, select, sort_by, list_all, get}
use holder_core.Card.Result.{
  Result, ok, err, missing_target_card_id, move_would_create_cycle, invalid_target,
  target_not_found, already_at_project_root, card_not_found, cross_project_move_forbidden,
}
use holder_core.Card.Hierarchy.{card_tree_less}
use holder_core.Card.Block.{insert_block_into}

pub data CardPlacementIntent : Type 0 where
  into before after to_start to_end left right up_level : CardPlacementIntent

pub record CardPlacementRequest : Type 0 where
  pub intent : CardPlacementIntent
  pub target_card_id : Option Text
  pub has_parent_card_id : Bool
  pub parent_card_id : Option Text

abbrev pub is_trimmed : ℕ → Bool
is_trimmed c = c == b' ' || c == b'\t' || c == b'\r' || c == b'\n'

-- the text from `find_first_not_of` on
pub trim_left : Text → Text
trim_left [] = []
trim_left (c ∷ cs) = let rest = trim_left cs in if is_trimmed c then rest else c ∷ cs

-- the text up to `find_last_not_of`
pub trim_right : Text → Text
trim_right [] = []
trim_right (c ∷ cs) =
    let rest = trim_right cs in if is_empty rest && is_trimmed c then [] else c ∷ rest

unfoldable pub normalize_parent_id : Option Text → Option Text
unfolding trim_left trim_right
normalize_parent_id none = none
normalize_parent_id (some raw) =
    let from_start = trim_left raw in
    if is_empty from_start then none else some (trim_right from_start)

module _ (F : Floats) where
  open F use {Double}

  pub record CardPlacementResult : Type 0 where
    pub parent_card_id : Option Text
    pub sort_key : Double
    pub moved_into_title : Option Text
    pub sibling_changes : Cards F

  -- `cards_by_id[c.card_id] = c` for each card, then `find`
  unfoldable pub by_id : Cards F → Text → Option (Card Double)
  by_id [] id = none
  by_id (c ∷ cs) id = elim (by_id cs id) [
    | some d ↦ some d
    | none ↦ if text_eq c.card_id id then some c else none
  ]

  -- `while (candidate && guard < 1024)`; the number is what is left of the guard
  pub is_descendant_within : ℕ → Cards F → Option Text → Text → Bool
  is_descendant_within zero cards candidate id = false
  is_descendant_within (suc guard) cards none id = false
  is_descendant_within (suc guard) cards (some c) id =
      if text_eq c id then true else elim (by_id cards c) [
        | none ↦ false
        | some parent ↦
            is_descendant_within guard cards (normalize_parent_id parent.parent_card_id) id
      ]

  unfoldable pub is_descendant_of : Cards F → Option Text → Text → Bool
  unfolding is_descendant_within by_id
  is_descendant_of cards candidate id = is_descendant_within 1024 cards candidate id

  -- the lambda `siblings_for_parent`
  unfoldable pub siblings_for_parent : Cards F → Option Text → Text → Cards F
  unfolding select sort_by card_tree_less opt_text_eq
  siblings_for_parent cards parent exclude_card_id = sort_by F (card_tree_less F) (
      select F
        (λ c.
          not (is_deleted c)
          && (not (text_eq c.card_id exclude_card_id)
              && opt_text_eq (normalize_parent_id c.parent_card_id) (normalize_parent_id parent)))
        cards)

  -- `find_if` on the ID, as a position
  unfoldable pub index_of : Text → Cards F → Option ℕ
  index_of id [] = none
  index_of id (c ∷ cs) =
      let later = Option.map suc (index_of id cs) in if text_eq c.card_id id then some 0 else later

  -- the variables that the switch sets
  pub record Plan : Type 0 where
    pub next_parent : Option Text
    pub moved_into_title : Option Text
    pub destination : Cards F
    pub at : Option ℕ

  -- a card of the map that is there and not deleted
  unfoldable pub live : Cards F → Text → Option (Card Double)
  unfolding by_id
  live cards id = elim (by_id cards id) [
    | none ↦ none
    | some c ↦ if is_deleted c then none else some c
  ]
