-- ===== src/Card/Lifecycle.antt =====
-- Where the children of a trashed card go, and where a restored card goes: `promoted_card_children`,
-- `placed_card_changes` and `restored_card_placement` of card/CardHierarchy.cpp.
pub mod Lands
use holder_core.Common.{
  ℕ, zero, suc, Bool, true, false, Option, none, some, [], ◌∷◌, if◌then◌else◌, Text, text_eq, not,
  ◌||◌, ◌++◌,
}
use holder_core.Common.Int.{ℤ}
use holder_core.Card.{Floats, Card}
use holder_core.Card.Repo.{Cards, select}
use holder_core.Card.Result.{Result, ok, err, ◌>>=◌}
use holder_core.Card.Hierarchy.{card_tree_less, siblings, reachable_card_parent}
use holder_core.Card.Block.{insert_block_into}

module _ (F : Floats) where
  open F use {Double}

  -- `std::lower_bound` on cards in their order: how many stand before the anchor
  unfoldable pub lower_bound : Cards F → Card Double → ℕ
  unfolding card_tree_less
  lower_bound [] anchor = 0
  lower_bound (c ∷ cs) anchor =
      let rest = lower_bound cs anchor in if card_tree_less F c anchor then suc rest else 0

  -- the siblings of a card without the card of that ID
  unfoldable pub siblings_without : Cards F → Card Double → Text → Cards F
  unfolding select siblings text_eq
  siblings_without repo card id = select F (λ c. not (text_eq c.card_id id)) (siblings F repo card)

  -- behind the walk, with the children that were found
  unfoldable pub promote_into : Cards F → Card Double → ℤ → Option Text → Cards F → Result (Cards F)
  unfolding lower_bound siblings_without
  promote_into repo parent updated_at destination_parent [] = ok []
  promote_into repo parent updated_at destination_parent (c ∷ cs) =
      let anchor = record parent { parent_card_id = destination_parent } in
      let destination = siblings_without repo anchor parent.card_id in
      do
        placed ←
            insert_block_into F destination (lower_bound destination anchor) (c ∷ cs)
              destination_parent updated_at
        ok (placed.0)

  unfoldable pub promoted_card_children : Cards F → Card Double → ℤ → Result (Cards F)
  unfolding promote_into siblings
  promoted_card_children repo parent updated_at = do
    destination_parent ← reachable_card_parent F repo parent
    promote_into repo parent updated_at destination_parent
        (siblings F repo (record parent { parent_card_id = some parent.card_id }))

  unfoldable pub placed_card_changes :
      Cards F → ℕ → Card Double → Option Text → ℤ → Result (Cards F)
  placed_card_changes destination at card parent updated_at = do
    placed ← insert_block_into F destination at (card ∷ []) parent updated_at
    ok (placed.0)

  -- a key that is no number, or that another card has
  unfoldable pub collides : Card Double → Cards F → Bool
  collides restored [] = not (F.is_finite restored.sort_key)
  collides restored (c ∷ cs) =
      let rest = collides restored cs in F.eq c.sort_key restored.sort_key || rest

  -- The last loop: the restored card takes its key from the changes, and leaves them.
  unfoldable pub take_key : Card Double → Cards F → Card Double × Cards F
  unfolding text_eq
  take_key restored [] = (restored, [])
  take_key restored (c ∷ cs) = elim (text_eq c.card_id restored.card_id) [
    | true ↦ take_key (record restored { sort_key = c.sort_key }) cs
    | false ↦ let r = take_key restored cs in (r.0, c ∷ r.1)
  ]

  unfoldable pub restore_into : Cards F → Card Double → ℤ → Result (Card Double × Cards F)
  unfolding lower_bound siblings_without collides take_key
  restore_into repo restored updated_at =
      let destination = siblings_without repo restored restored.card_id in
      if not (collides restored destination) then ok (restored, []) else do
        placed ←
            insert_block_into F destination (lower_bound destination restored) (restored ∷ [])
              restored.parent_card_id updated_at
        ok (take_key restored (placed.0))

  -- the restored card, as the reference leaves it, and the changes of its siblings
  unfoldable pub restored_card_placement :
      Cards F → Card Double → ℤ → Result (Card Double × Cards F)
  unfolding restore_into
  restored_card_placement repo restored updated_at = do
    parent ← reachable_card_parent F repo restored
    restore_into repo (record restored { parent_card_id = parent }) updated_at
