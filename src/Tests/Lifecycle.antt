-- ===== src/Tests/Lifecycle.antt =====
-- A restored card whose key another card has, and the children of a trashed card.
use holder_core.Common.{opt_text_eq, ◌≡◌, ◌≢◌, refl, text, [], some, false, All, text_eq}
use holder_core.Common.Int.{pos}
use holder_core.Card.Repo.{Cards}
use holder_core.Card.Result.{ok, err, out_of_fuel}
use holder_core.Card.Hierarchy.{reachable_card_parent, siblings}
use holder_core.Card.Hierarchy.Reach.{LiveUp}
use holder_core.Card.Block.{insert_block_into}
use holder_core.Card.Lifecycle.{restored_card_placement, promoted_card_children}
use holder_core.Card.Lifecycle.Lands.{restored_card_placement-Lands, promoted_card_children_ends}
use holder_core.Tests.Cards.{fixed, card, cards}

abbrev no_changes : Cards fixed
no_changes = []

restored_behind_c :
    restored_card_placement fixed cards (card (text "e") (some (text "b")) 1000) (pos 7)
    ≡ ok (card (text "e") (some (text "b")) 2000, no_changes)
unfolding restored_card_placement reachable_card_parent siblings insert_block_into opt_text_eq
restored_behind_c = refl

restored_card_placement-Lands_example :
    LiveUp fixed cards (text "p") (some (text "b"))
    × ((text "e" ≡ text "e")
        × All (λ c. (text_eq c.card_id (text "e") ≡ false) × (c.updated_at ≡ pos 7)) no_changes)
restored_card_placement-Lands_example =
    restored_card_placement-Lands fixed (pos 7) cards (card (text "e") (some (text "b")) 1000)
      (card (text "e") (some (text "b")) 2000) no_changes restored_behind_c

promoted_card_children_ends_example :
    promoted_card_children fixed cards (card (text "b") (some (text "a")) 1000) (pos 7)
    ≢ err out_of_fuel
promoted_card_children_ends_example =
    promoted_card_children_ends fixed (pos 7) cards (card (text "b") (some (text "a")) 1000)
