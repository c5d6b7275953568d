-- ===== src/Card/Repair.antt =====
-- Live cards that browsing cannot reach, and where they are put: `plan_hierarchy_repair` of
-- card/CardHierarchy.cpp.
pub mod Ends
pub mod Heads
use holder_core.Common.{
  ℕ, zero, suc, Option, none, some, List, [], ◌∷◌, ◌++◌, if◌then◌else◌, Text, contains, opt_text_eq,
  text_eq, text_lt, length, Bool, true, false, not, ◌&&◌,
}
use holder_core.Card.{Floats, Card, is_deleted}
use holder_core.Card.Repo.{Cards, get, list_all, sort_by, select}
use holder_core.Card.Result.{Result, ok, err, ◌>>=◌, out_of_fuel}
use holder_core.Common.Int.{ℤ}
use holder_core.Card.Lifecycle.{lower_bound}
use holder_core.Card.Block.{insert_block_into}
use holder_core.Card.Hierarchy.{card_tree_less}

module _ (F : Floats) where
  open F use {Double}

  pub record HierarchyRepairPlan : Type 0 where
    pub placements : Cards F
    pub moved_card_ids : List Text
    pub cycle_card_ids : List Text

  -- a branch that moves, with the ancestor whose place it takes
  pub record Head : Type 0 where
    pub card : Card Double
    pub destination : Option Text
    pub anchor : Option (Card Double)

  -- `emplace` into a map by ID: the first of two cards with one ID stays
  unfoldable pub emplace : Card Double → Cards F → Cards F
  unfolding text_eq text_lt
  emplace c [] = c ∷ []
  emplace c (d ∷ ds) =
      let rest = emplace c ds in
      if text_eq c.card_id d.card_id
      then d ∷ ds
      else if text_lt c.card_id d.card_id
      then c ∷ d ∷ ds
      else d ∷ rest

  unfoldable pub by_id_from : Cards F → Cards F → Cards F
  unfolding emplace
  by_id_from [] by_id = by_id
  by_id_from (c ∷ cs) by_id = by_id_from cs (emplace c by_id)

  -- `changed[card.card_id] = card`
  unfoldable pub assign : Card Double → Cards F → Cards F
  unfolding text_eq text_lt
  assign c [] = c ∷ []
  assign c (d ∷ ds) =
      let rest = assign c ds in
      if text_eq c.card_id d.card_id
      then c ∷ ds
      else if text_lt c.card_id d.card_id
      then c ∷ d ∷ ds
      else d ∷ rest

  unfoldable pub assign_all : Cards F → Cards F → Cards F
  unfolding assign
  assign_all [] changed = changed
  assign_all (c ∷ cs) changed = assign_all cs (assign c changed)

  -- What the walk up the ancestors comes to: a cycle, or the destination and the ancestors that
  -- it met, from the parent on.
  pub data Walked : Type 0 where
    cycle : Walked
    ends : Option Text → Cards F → Walked

  -- `destination` at an ancestor
  unfoldable pub destination_at : Card Double → Option Text → Option Text
  destination_at ancestor destination =
      if is_deleted ancestor
      then none
      else elim destination [ none ↦ some ancestor.card_id | some d ↦ some d ]

  unfoldable pub meet :
      (List Text → Option Text → Option Text → Cards F → Result Walked)
      → List Text
      → Text
      → Option Text
      → Cards F
      → Option (Card Double)
      → Result Walked
  unfolding destination_at
  meet next visited id destination met none = ok (ends none met)
  meet next visited id destination met (some ancestor) =
      next (id ∷ visited) ancestor.parent_card_id (destination_at ancestor destination)
        (met ++ ancestor ∷ [])

  unfoldable pub walk_up :
      ℕ → Cards F → List Text → Option Text → Option Text → Cards F → Result Walked
  unfolding meet get contains
  walk_up zero by_id visited next destination met = err out_of_fuel
  walk_up (suc fuel) by_id visited none destination met = ok (ends destination met)
  walk_up (suc fuel) by_id visited (some id) destination met =
      if contains id visited
      then ok cycle
      else meet (walk_up fuel by_id) visited id destination met (get F by_id id)

  -- the first of the ancestors that sits at the destination; a walk that ended met each of them
  unfoldable pub find_anchor : Option Text → Cards F → Option (Card Double)
  unfolding opt_text_eq
  find_anchor destination [] = none
  find_anchor destination (a ∷ cs) =
      let rest = find_anchor destination cs in
      if opt_text_eq a.parent_card_id destination then some a else rest

  -- what is collected: the heads and the cards on cycles
  pub record Scan : Type 0 where
    pub heads : List Head
    pub cycles : List Text

  unfoldable pub hidden : Card Double → Option Text → Cards F → Scan → Scan
  unfolding find_anchor
  hidden card destination met scan = record scan {
    heads =
        record { card = card; destination = destination; anchor = find_anchor destination met }
        ∷ scan.heads;
  }

  -- A card whose parent is live moves, if at all, with that parent's branch.
  unfoldable pub note_card : Card Double → Walked → Scan → Scan
  unfolding hidden
  note_card card cycle scan = record scan { cycles = card.card_id ∷ scan.cycles }
  note_card card (ends destination []) scan = hidden card destination [] scan
  note_card card (ends destination (parent ∷ met)) scan =
      if is_deleted parent then hidden card destination (parent ∷ met) scan else scan

  -- the loop over the cards; what is found stands in the order of the cards
  unfoldable pub scan_cards : Cards F → Cards F → Result Scan
  unfolding walk_up note_card
  scan_cards by_id [] = ok (record { heads = []; cycles = [] })
  scan_cards by_id (c ∷ cs) = elim c.parent_card_id [
    | none ↦ scan_cards by_id cs
    | some parent ↦ if is_deleted c then scan_cards by_id cs else do
      walked ← walk_up (suc (length by_id)) by_id (c.card_id ∷ []) (some parent) none []
      scan ← scan_cards by_id cs
      ok (note_card c walked scan)
  ]

  -- the order of an optional ID in a map: nothing first
  unfoldable pub opt_text_lt : Option Text → Option Text → Bool
  unfolding text_lt
  opt_text_lt none (some t) = true
  opt_text_lt (some s) (some t) = text_lt s t
  opt_text_lt _ none = false

  pub record Group : Type 0 where
    pub destination : Option Text
    pub heads : List Head

  -- `by_destination[head.destination].push_back(head)`
  unfoldable pub push_head : Head → List Group → List Group
  unfolding opt_text_eq opt_text_lt
  push_head h [] = record { destination = h.destination; heads = h ∷ [] } ∷ []
  push_head h (g ∷ gs) =
      let rest = push_head h gs in
      if opt_text_eq h.destination g.destination
      then record g { heads = g.heads ++ h ∷ [] } ∷ gs
      else if opt_text_lt h.destination g.destination
      then record { destination = h.destination; heads = h ∷ [] } ∷ g ∷ gs
      else g ∷ rest

  unfoldable pub group_heads : List Head → List Group → List Group
  unfolding push_head
  group_heads [] groups = groups
  group_heads (h ∷ hs) groups = group_heads hs (push_head h groups)

  -- an anchor with the heads that go before it
  pub record Anchored : Type 0 where
    pub anchor : Card Double
    pub block : Cards F

  -- `anchors.emplace(...)` and `anchored[...].push_back(...)`
  unfoldable pub push_anchored : Card Double → Card Double → List Anchored → List Anchored
  unfolding text_eq text_lt
  push_anchored anchor card [] = record { anchor = anchor; block = card ∷ [] } ∷ []
  push_anchored anchor card (a ∷ more) =
      let rest = push_anchored anchor card more in
      if text_eq anchor.card_id a.anchor.card_id
      then record a { block = a.block ++ card ∷ [] } ∷ more
      else if text_lt anchor.card_id a.anchor.card_id
      then record { anchor = anchor; block = card ∷ [] } ∷ a ∷ more
      else a ∷ rest

  -- the loop over a group, for the heads with an anchor and for those without
  unfoldable pub anchored_of : List Head → List Anchored → List Anchored
  unfolding push_anchored
  anchored_of [] done = done
  anchored_of (h ∷ hs) done = elim h.anchor [
    | none ↦ anchored_of hs done
    | some anchor ↦ anchored_of hs (push_anchored anchor h.card done)
  ]

  unfoldable pub unanchored_of : List Head → Cards F
  unanchored_of [] = []
  unanchored_of (h ∷ hs) =
      let rest = unanchored_of hs in elim h.anchor [ none ↦ h.card ∷ rest | some anchor ↦ rest ]

  -- `place`: the siblings and the changes afterwards
  unfoldable pub place :
      Option Text → ℤ → Cards F → ℕ → Cards F × Cards F → Result (Cards F × Cards F)
  unfolding sort_by assign_all
  place destination updated_at block at (siblings, changed) = do
    placed ←
        insert_block_into F siblings at (sort_by F (card_tree_less F) block) destination updated_at
    ok (placed.1, assign_all placed.0 changed)

  unfoldable pub place_anchored :
      Option Text → ℤ → List Anchored → Cards F × Cards F → Result (Cards F × Cards F)
  unfolding place lower_bound
  place_anchored destination updated_at [] state = ok state
  place_anchored destination updated_at (a ∷ more) state = do
    next ← place destination updated_at a.block (lower_bound F state.0 a.anchor) state
    place_anchored destination updated_at more next

  unfoldable pub place_rest :
      Option Text → ℤ → Cards F → Cards F × Cards F → Result (Cards F × Cards F)
  unfolding place
  place_rest destination updated_at [] state = ok state
  place_rest destination updated_at (c ∷ cs) state =
      place destination updated_at (c ∷ cs) (length state.0) state

  unfoldable pub children_at : Cards F → Option Text → Cards F
  unfolding sort_by select opt_text_eq
  children_at by_id destination =
      sort_by F (card_tree_less F)
        (select F (λ c. not (is_deleted c) && opt_text_eq c.parent_card_id destination) by_id)

  unfoldable pub place_group : Cards F → ℤ → Group → Cards F → Result (Cards F)
  unfolding place_anchored place_rest children_at anchored_of unanchored_of
  place_group by_id updated_at g changed = do
    anchored ←
        place_anchored g.destination updated_at (anchored_of g.heads [])
          (children_at by_id g.destination, changed)
    state ← place_rest g.destination updated_at (unanchored_of g.heads) anchored
    ok (state.1)

  unfoldable pub place_groups : Cards F → ℤ → List Group → Cards F → Result (Cards F)
  unfolding place_group
  place_groups by_id updated_at [] changed = ok changed
  place_groups by_id updated_at (g ∷ gs) changed = do
    changed' ← place_group by_id updated_at g changed
    place_groups by_id updated_at gs changed'

  -- `std::sort` on the moved IDs
  unfoldable pub insert_id : Text → List Text → List Text
  unfolding text_lt
  insert_id t [] = t ∷ []
  insert_id t (s ∷ ss) = let rest = insert_id t ss in if text_lt s t then s ∷ rest else t ∷ s ∷ ss

  unfoldable pub head_ids : List Head → List Text
  unfolding insert_id
  head_ids [] = []
  head_ids (h ∷ hs) = insert_id h.card.card_id (head_ids hs)

  -- the placements behind the scan
  unfoldable pub plan_from : Cards F → ℤ → Scan → Result HierarchyRepairPlan
  unfolding group_heads place_groups head_ids
  plan_from by_id updated_at scan = do
    changed ← place_groups by_id updated_at (group_heads scan.heads []) []
    ok (record {
      placements = changed;
      moved_card_ids = head_ids scan.heads;
      cycle_card_ids = scan.cycles;
    })

  unfoldable pub plan_hierarchy_repair : Cards F → Text → ℤ → Result HierarchyRepairPlan
  unfolding by_id_from list_all scan_cards plan_from
  plan_hierarchy_repair repo project_id updated_at = do
    scan ←
        scan_cards (by_id_from (list_all F repo project_id) [])
          (by_id_from (list_all F repo project_id) [])
    plan_from (by_id_from (list_all F repo project_id) []) updated_at scan
