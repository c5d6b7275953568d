-- ===== src/Card/Placement/Resolve.antt =====
-- The switch of `CardPlacementResolver::resolve` and what follows it (card/CardPlacementResolver.cpp).
pub mod Outcome
pub mod Intents
pub mod Plans
pub mod Beside
pub mod Failures
pub mod Refused
pub mod Lookups
pub mod Refusals
pub mod Exact
use mathlib.Core.Option
use holder_core.Common.{
  ℕ, ◌+◌, Bool, true, Option, none, some, [], ◌∷◌, ◌++◌, if◌then◌else◌, ltb, Text, text_eq, ◌-◌,
  ◌||◌, is_some, opt_text_eq, not, is_empty, length, ◌&&◌,
}
use holder_core.Common.Int.{ℤ}
use holder_core.Card.{Floats, Card, is_deleted}
use holder_core.Card.Repo.{Cards, get, list_all}
use holder_core.Card.Result.{
  Result, ok, err, ◌>>=◌, card_not_found, missing_target_card_id, cross_project_move_forbidden,
  move_would_create_cycle, already_at_project_root, invalid_target, target_not_found,
}
use holder_core.Card.Placement.{
  CardPlacementIntent, into, before, after, to_start, to_end, left, right, up_level, live, Plan,
  CardPlacementResult, CardPlacementRequest, index_of, siblings_for_parent, normalize_parent_id,
  is_descendant_of,
}
use holder_core.Card.Block.{insert_block_into}

module _ (F : Floats) where
  open F use {Double}

  -- case Into, Before, After, with the target that was found
  unfoldable pub plan_into : Cards F → Card Double → Card Double → Result (Plan F)
  plan_into cards source target =
      if is_descendant_of F cards (some target.card_id) source.card_id
      then err move_would_create_cycle
      else let destination = siblings_for_parent F cards (some target.card_id) source.card_id in
        ok (record {
          next_parent = some target.card_id;
          moved_into_title = some target.title;
          destination = destination;
          at = some (length destination);
        })

  unfoldable pub plan_beside : ℕ → Cards F → Card Double → Card Double → Result (Plan F)
  unfolding index_of
  plan_beside offset cards source target =
      let next_parent = normalize_parent_id target.parent_card_id in
      let destination = siblings_for_parent F cards next_parent source.card_id in
      elim (index_of F target.card_id destination) [
        | none ↦ err invalid_target
        | some i ↦ ok (record {
          next_parent = next_parent;
          moved_into_title = none;
          destination = destination;
          at = some (i + offset);
        })
      ]

  unfoldable pub plan_target :
      (Card Double → Result (Plan F)) → Cards F → CardPlacementRequest → Result (Plan F)
  plan_target plan cards request = elim request.target_card_id [
    | none ↦ err missing_target_card_id
    | some id ↦ elim (live F cards id) [ none ↦ err target_not_found | some target ↦ plan target ]
  ]

  -- case ToStart, ToEnd, Left, Right: the parent that the request names, or the card's own
  abbrev pub scope_parent : CardPlacementRequest → Option Text → Option Text
  scope_parent request original_parent =
      if request.has_parent_card_id || is_some request.parent_card_id
      then normalize_parent_id request.parent_card_id
      else original_parent

  -- a parent that is given must be live
  pub scope_exists : Cards F → Option Text → Bool
  scope_exists cards none = true
  scope_exists cards (some p) = is_some (live F cards p)

  -- the position for Left and Right, from the source's index among all siblings
  pub step_left : ℕ → Option ℕ
  step_left index = if ltb 0 index then some (index - 1) else none

  pub step_right : ℕ → ℕ → Option ℕ
  step_right index count = if ltb (index + 1) count then some (index + 1) else none

  pub scope_position :
      CardPlacementIntent → Card Double → Option Text → Option Text → Cards F → Cards F → Option ℕ
  unfolding index_of step_left step_right opt_text_eq
  scope_position to_start source original_parent next_parent destination with_source =
      if is_empty destination && opt_text_eq next_parent original_parent then none else some 0
  scope_position to_end source original_parent next_parent destination with_source =
      if is_empty destination && opt_text_eq next_parent original_parent
      then none
      else some (length destination)
  scope_position left source original_parent next_parent destination with_source =
      Option.bind (index_of F source.card_id with_source) step_left
  scope_position right source original_parent next_parent destination with_source =
      Option.bind (index_of F source.card_id with_source) (λ i. step_right i (length with_source))
  scope_position _ source original_parent next_parent destination with_source = none

  unfoldable pub plan_scope : Cards F → Card Double → CardPlacementRequest → Result (Plan F)
  unfolding scope_exists scope_position
  plan_scope cards source request =
      let original_parent = normalize_parent_id source.parent_card_id in
      let next_parent = scope_parent request original_parent in
      if not (scope_exists cards next_parent)
      then err target_not_found
      else let destination = siblings_for_parent F cards next_parent source.card_id in
        let with_source = siblings_for_parent F cards next_parent [] in
        ok (record {
          next_parent = next_parent;
          moved_into_title = none;
          destination = destination;
          at =
              scope_position request.intent source original_parent next_parent destination
                with_source;
        })

  -- case UpLevel
  unfoldable pub plan_up : Cards F → Card Double → Result (Plan F)
  plan_up cards source = elim (normalize_parent_id source.parent_card_id) [
    | none ↦ err already_at_project_root
    | some parent ↦
        let next_parent =
          Option.bind (live F cards parent) (λ p. normalize_parent_id p.parent_card_id) in
        let destination = siblings_for_parent F cards next_parent source.card_id in
        ok (record {
          next_parent = next_parent;
          moved_into_title = Option.map (λ c. c.title) (Option.bind next_parent (live F cards));
          destination = destination;
          at = some (length destination);
        })
  ]

  -- the switch
  unfoldable pub plan_move :
      Cards F → Card Double → CardPlacementRequest → CardPlacementIntent → Result (Plan F)
  unfolding plan_target plan_into plan_beside plan_scope plan_up
  plan_move cards source request into = plan_target (plan_into cards source) cards request
  plan_move cards source request before = plan_target (plan_beside 0 cards source) cards request
  plan_move cards source request after = plan_target (plan_beside 1 cards source) cards request
  plan_move cards source request up_level = plan_up cards source
  plan_move cards source request _ = plan_scope cards source request

  -- The loop over the changed cards: the source's key goes into the result, the others into its list.
  unfoldable pub add_change : Text → CardPlacementResult F → Card Double → CardPlacementResult F
  unfolding text_eq
  add_change source_id result c =
      if text_eq c.card_id source_id
      then record result { sort_key = c.sort_key }
      else record result { sibling_changes = result.sibling_changes ++ c ∷ [] }

  unfoldable pub collect : Text → CardPlacementResult F → Cards F → CardPlacementResult F
  collect source_id result [] = result
  collect source_id result (c ∷ cs) = collect source_id (add_change source_id result c) cs

  -- the end of `resolve`, by whether there is an insertion point
  unfoldable pub place_at : Card Double → ℤ → Plan F → Option ℕ → Result (CardPlacementResult F)
  place_at source updated_at plan none = ok (record {
    parent_card_id = normalize_parent_id source.parent_card_id;
    sort_key = source.sort_key;
    moved_into_title = plan.moved_into_title;
    sibling_changes = [];
  })
  place_at source updated_at plan (some at) = do
    placed ← insert_block_into F plan.destination at (source ∷ []) plan.next_parent updated_at
    ok (
        collect source.card_id
          (record {
            parent_card_id = plan.next_parent;
            sort_key = F.of_count 0;
            moved_into_title = plan.moved_into_title;
            sibling_changes = [];
          })
          (placed.0))

  unfoldable pub place : Card Double → ℤ → Plan F → Result (CardPlacementResult F)
  unfolding insert_block_into add_change collect place_at
  place source updated_at plan = place_at source updated_at plan plan.at

  -- the card that is to move
  unfoldable pub find_source : Cards F → Text → Text → Result (Card Double)
  unfolding get text_eq
  find_source repo project_id card_id = elim (get F repo card_id) [
    | none ↦ err card_not_found
    | some source ↦
        if is_deleted source
        then err card_not_found
        else if not (text_eq source.project_id project_id)
        then err cross_project_move_forbidden
        else ok source
  ]

  unfoldable pub resolve :
      Cards F → Text → Text → CardPlacementRequest → ℤ → Result (CardPlacementResult F)
  unfolding find_source plan_move place list_all siblings_for_parent
  resolve repo project_id card_id request updated_at = do
    source ← find_source repo project_id card_id
    plan ← plan_move (list_all F repo project_id) source request request.intent
    place source updated_at plan
