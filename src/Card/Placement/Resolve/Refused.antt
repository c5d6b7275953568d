-- ===== src/Card/Placement/Resolve/Refused.antt =====
-- When `resolve` fails, and with which error.
use holder_core.Common.{ℕ, ◌<◌, ◌≡◌, ◌≢◌, true, false, none, some, Text}
use holder_core.Card.{Floats, Card, is_deleted}
use holder_core.Card.Repo.{Cards, get, list_all}
use holder_core.Card.Result.{
  MoveError, card_not_found, cross_project_move_forbidden, target_not_found,
  move_would_create_cycle, invalid_target, already_at_project_root, missing_target_card_id,
}
use holder_core.Card.Placement.{into, up_level, CardPlacementRequest, by_id, normalize_parent_id}
use holder_core.Card.Placement.Descent.{Leads}
use holder_core.Card.Placement.Resolve.{scope_parent}
use holder_core.Card.Placement.Resolve.Intents.{needs_target, is_beside, is_scope}

module _ (F : Floats) (repo : Cards F) (project_id card_id : Text)
    (request : CardPlacementRequest) where
  open F use {Double}

  abbrev cards : Cards F
  cards = list_all F repo project_id

  -- the card that moves: it is there, live, and of the project
  pub record Moving (source : Card Double) : Type 0 where
    pub here : get F repo card_id ≡ some source
    pub alive : is_deleted source ≡ false
    pub own : source.project_id ≡ project_id

  -- the project has no live card of the ID
  abbrev pub Gone : Text → Type 0
  Gone id = (c : Card Double) → by_id F cards id ≡ some c → is_deleted c ≡ true

  -- the target that the request names
  pub record Aimed (id : Text) (target : Card Double) : Type 0 where
    pub named : request.target_card_id ≡ some id
    pub there : by_id F cards id ≡ some target
    pub alive : is_deleted target ≡ false

  -- the condition of each error
  pub data Refused : MoveError → Type 0 where
    no_card : get F repo card_id ≡ none → Refused card_not_found
    in_trash :
        (source : Card Double)
        → get F repo card_id ≡ some source
        → is_deleted source ≡ true
        → Refused card_not_found
    of_other_project :
        (source : Card Double)
        → get F repo card_id ≡ some source
        → is_deleted source ≡ false
        → source.project_id ≢ project_id
        → Refused cross_project_move_forbidden
    no_target :
        (source : Card Double)
        → Moving source
        → needs_target request.intent ≡ true
        → request.target_card_id ≡ none
        → Refused missing_target_card_id
    target_gone :
        (source : Card Double) (id : Text)
        → Moving source
        → needs_target request.intent ≡ true
        → request.target_card_id ≡ some id
        → Gone id
        → Refused target_not_found
    parent_gone :
        (source : Card Double) (id : Text)
        → Moving source
        → is_scope request.intent ≡ true
        → scope_parent F request (normalize_parent_id source.parent_card_id) ≡ some id
        → Gone id
        → Refused target_not_found
    under_itself :
        (source target : Card Double) (id : Text) (k : ℕ)
        → Moving source
        → request.intent ≡ into
        → Aimed id target
        → k < 1024
        → Leads F cards source.card_id k (some target.card_id)
        → Refused move_would_create_cycle
    beside_self :
        (source target : Card Double) (id : Text)
        → Moving source
        → is_beside request.intent ≡ true
        → Aimed id target
        → target.card_id ≡ source.card_id
        → Refused invalid_target
    at_top :
        (source : Card Double)
        → Moving source
        → request.intent ≡ up_level
        → normalize_parent_id source.parent_card_id ≡ none
        → Refused already_at_project_root
