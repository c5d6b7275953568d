-- ===== src/Card/Repo/Parents.antt =====
-- The key from a card to its parent, when a card is removed.
use holder_core.Common.{◌≡◌, ◌⊎◌, true, none, some, Text, is_some}
use holder_core.Card.{Floats, Card}
use holder_core.Card.Repo.{Cards, get}

module _ (F : Floats) where
  open F use {Double}

  -- the row's parent, if it has one, is a row of the table
  abbrev pub HasParent : Cards F → Card Double → Type 0
  HasParent repo c =
      (c.parent_card_id ≡ none)
      ⊎ ((p : Text) × (c.parent_card_id ≡ some p) × (is_some (get F repo p) ≡ true))
