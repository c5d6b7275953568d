-- ===== src/Card/Hierarchy.antt =====
-- The order of siblings, the walk up the ancestors, and new sort keys for a block of cards
-- (card/CardHierarchy.cpp).
pub mod Reach
pub mod Fuel
pub mod Validate
pub mod Accepts
use holder_core.Common.{
  ℕ, zero, suc, Bool, true, false, Option, none, some, List, [], ◌∷◌, if◌then◌else◌, not, Text,
  contains, opt_text_eq, text_eq, length, text_lt,
}
use holder_core.Common.Int.{eqb_ℤ, ltb_ℤ}
use holder_core.Card.{Floats, Card, is_deleted}
use holder_core.Card.Repo.{Cards, get, select, sort_by, list_children, list_roots}
use holder_core.Card.Result.{
  Result, ok, err, ◌>>=◌, target_not_found, out_of_fuel, move_would_create_cycle,
}
use holder_core.Card.Tag.{to_lower}

module _ (F : Floats) where
  open F use {Double}

  -- `lower` and the comparison of the titles and IDs
  pub title_less : Card Double → Card Double → Bool
  unfolding to_lower text_eq text_lt
  title_less a b =
      if not (text_eq (to_lower a.title) (to_lower b.title))
      then text_lt (to_lower a.title) (to_lower b.title)
      else text_lt a.card_id b.card_id

  unfoldable pub card_tree_less : Card Double → Card Double → Bool
  card_tree_less a b =
      if F.lt a.sort_key b.sort_key
      then true
      else if F.lt b.sort_key a.sort_key
      then false
      else if not (eqb_ℤ a.updated_at b.updated_at)
      then ltb_ℤ b.updated_at a.updated_at
      else title_less a b

  unfoldable pub siblings : Cards F → Card Double → Cards F
  unfolding select sort_by list_children list_roots card_tree_less title_less
  siblings repo card = sort_by F (card_tree_less) (
      select F (λ c. not (is_deleted c))
        (elim card.parent_card_id [
          | none ↦ list_roots F repo card.project_id
          | some parent ↦ list_children F repo card.project_id parent
        ]))

  -- One step of the walk in `reachable_card_parent`, from the ancestor that was looked up
  pub climb :
      (Option Text → Option Text → Result (Option Text))
      → Card Double
      → Option (Card Double)
      → Option Text
      → Result (Option Text)
  climb next card none candidate = ok none
  climb next card (some ancestor) candidate =
      if not (text_eq ancestor.project_id card.project_id)
      then ok none
      else next ancestor.parent_card_id (
          if is_deleted ancestor
          then none
          else elim candidate [ none ↦ some ancestor.card_id | some c ↦ some c ])

  -- `while (next)`, on fuel
  pub walk :
      ℕ → Cards F → Card Double → List Text → Option Text → Option Text → Result (Option Text)
  walk zero repo card visited next candidate = err out_of_fuel
  walk (suc fuel) repo card visited none candidate = ok candidate
  walk (suc fuel) repo card visited (some id) candidate =
      if contains id visited
      then err move_would_create_cycle
      else climb (walk fuel repo card (id ∷ visited)) card (get F repo id) candidate

  -- Every step looks up a card that was not visited before, so one step more than the table has
  -- cards is enough fuel (Hierarchy/Fuel).
  unfoldable pub reachable_card_parent : Cards F → Card Double → Result (Option Text)
  unfolding walk climb get contains text_eq
  reachable_card_parent repo card =
      walk (suc (length repo)) repo card (card.card_id ∷ []) card.parent_card_id none

  unfoldable pub validate_card_parent : Cards F → Card Double → Result (Unit {0})
  unfolding opt_text_eq
  validate_card_parent repo card = do
    reachable ← reachable_card_parent repo card
    if not (opt_text_eq reachable card.parent_card_id) then err target_not_found else ok tt
