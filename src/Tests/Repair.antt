-- ===== src/Tests/Repair.antt =====
-- The repair of a hierarchy at a concrete table.
use holder_core.Common.{◌≡◌, ◌≢◌, refl, text, [], ◌∷◌, some, none, All}
use holder_core.Common.Int.{pos}
use holder_core.Card.Repo.{Cards}
use holder_core.Card.Result.{ok, err, out_of_fuel}
use holder_core.Card.Repair.{plan_hierarchy_repair, Scan, scan_cards}
use holder_core.Card.Repair.Heads.{IsHidden, scan_cards_finds}
use holder_core.Card.Repair.Ends.{plan_hierarchy_repair_ends}
use holder_core.Tests.Cards.{fixed, card}
use holder_core.Card.Hierarchy.{card_tree_less}
use holder_core.Card.Block.{insert_block_into}

-- a trashed root with a child, and two cards that are each other's parents
abbrev broken : Cards fixed
broken =
    record (card (text "a") none 1000) { deleted_at = some (pos 5) }
    ∷ card (text "b") (some (text "a")) 1000
    ∷ card (text "c") (some (text "d")) 1000
    ∷ card (text "d") (some (text "c")) 2000
    ∷ []

plan_hierarchy_repair_ends_example :
    plan_hierarchy_repair fixed broken (text "p") (pos 9) ≢ err out_of_fuel
plan_hierarchy_repair_ends_example = plan_hierarchy_repair_ends fixed broken (text "p") (pos 9)

scan_cards_finds_example :
    (scan : Scan fixed) × (scan_cards fixed broken broken ≡ ok scan)
    × All (IsHidden fixed broken) scan.heads
scan_cards_finds_example = scan_cards_finds fixed broken broken

-- b moves to the roots, in the place of a; c and d need a decision.
repaired :
    plan_hierarchy_repair fixed broken (text "p") (pos 9)
    ≡ ok (record {
      placements = record (card (text "b") none 1000) { updated_at = pos 9 } ∷ [];
      moved_card_ids = text "b" ∷ [];
      cycle_card_ids = text "c" ∷ text "d" ∷ [];
    })
unfolding plan_hierarchy_repair card_tree_less insert_block_into
repaired = refl
