-- ===== src/Card/Placement/Resolve/Exact.antt =====
-- `resolve` fails under the conditions of `Refused`, or for want of keys.
use holder_core.Common.{
  ℕ, ◌≡◌, ◌⊎◌, ◌∙◌, refl, inl, inr, true, none, some, Text, ◌<◌, subst, sym, ◌↔◌,
}
use holder_core.Card.{Floats, Card}
use holder_core.Card.Repo.{Cards}
use holder_core.Card.Result.{
  MoveError, Result, ok, err, target_not_found, move_would_create_cycle, invalid_target,
  already_at_project_root, missing_target_card_id, ◌>>=◌,
}
use holder_core.Card.Placement.{
  CardPlacementIntent, into, before, after, to_start, to_end, left, right, up_level,
  CardPlacementRequest, Plan, live, normalize_parent_id, CardPlacementResult,
}
use holder_core.Card.Placement.Descent.{is_descendant_of_iff, Leads}
use holder_core.Card.Placement.Resolve.{plan_move, scope_parent, resolve, place, find_source}
use holder_core.Card.Placement.Resolve.Intents.{needs_target, is_beside, is_scope}
use holder_core.Card.Placement.Resolve.Beside.{beside_itself}
use holder_core.Card.Placement.Resolve.Refused.{
  no_target, target_gone, parent_gone, under_itself, beside_self, at_top, no_card, in_trash,
  of_other_project,
}
use holder_core.Card.Placement.Resolve.Lookups.{
  Target, live-some, source_missing, find_source-either, Moving-found, source_in_trash,
  source_of_other, ne_text, live-none,
}
use holder_core.Card.Placement.Resolve.Refusals.{
  cards, Refuses, Moves, target_none, target_absent, target_is, into_cycle, beside-none, scope_gone,
  up_at_top, plan_move-Planned,
}
use holder_core.Common.Int.{ℤ}
use holder_core.Card.Placement.Resolve.Failures.{KeyError, FailsOnly, place_at-FailsOnly}
use holder_core.Card.Placement.Resolve.Plans.{Plans, plan_move-Plans}

module _ (F : Floats) (repo : Cards F) (project_id card_id : Text) (request : CardPlacementRequest)
    (t : ℤ) where
  open F use {Double}

  abbrev resolved : Result (CardPlacementResult F)
  resolved = resolve F repo project_id card_id request t

  abbrev all : Cards F
  all = cards F repo project_id card_id request

  abbrev Refuse : MoveError → Type 0
  Refuse = Refuses F repo project_id card_id request

  abbrev From : Card Double → Type 0
  From = Moves F repo project_id card_id request

  source_refused :
      (e : MoveError) → find_source F repo project_id card_id ≡ err e → resolved ≡ err e
  unfolding resolve
  source_refused e h = rw (h, resolve)

  at_plan :
      (s : Card Double)
      → From s
      → resolved ≡ (plan_move F all s request request.intent >>= λ plan. place F s t plan)
  unfolding resolve
  at_plan s m = rw (Moving-found F repo project_id card_id request s m, resolve)

  plan_refused :
      (s : Card Double) (e : MoveError)
      → From s
      → plan_move F all s request request.intent ≡ err e
      → resolved ≡ err e
  plan_refused s e m h = at_plan s m ∙ rw h

  module _ (s : Card Double) where
    move_no_target :
        (intent : CardPlacementIntent)
        → needs_target intent ≡ true
        → request.target_card_id ≡ none
        → plan_move F all s request intent ≡ err missing_target_card_id
    unfolding plan_move
    move_no_target into i n = target_none F repo project_id card_id request _ n
    move_no_target before i n = target_none F repo project_id card_id request _ n
    move_no_target after i n = target_none F repo project_id card_id request _ n
    move_no_target _ i n = cc

    move_target_gone :
        (intent : CardPlacementIntent) (id : Text)
        → needs_target intent ≡ true
        → request.target_card_id ≡ some id
        → live F all id ≡ none
        → plan_move F all s request intent ≡ err target_not_found
    unfolding plan_move
    move_target_gone into id i n l = target_absent F repo project_id card_id request _ id n l
    move_target_gone before id i n l = target_absent F repo project_id card_id request _ id n l
    move_target_gone after id i n l = target_absent F repo project_id card_id request _ id n l
    move_target_gone _ id i n l = cc

    move_parent_gone :
        (intent : CardPlacementIntent) (id : Text)
        → is_scope intent ≡ true
        → scope_parent F request (normalize_parent_id s.parent_card_id) ≡ some id
        → live F all id ≡ none
        → plan_move F all s request intent ≡ err target_not_found
    unfolding plan_move
    move_parent_gone to_start id i n l = scope_gone F repo project_id card_id request s id n l
    move_parent_gone to_end id i n l = scope_gone F repo project_id card_id request s id n l
    move_parent_gone left id i n l = scope_gone F repo project_id card_id request s id n l
    move_parent_gone right id i n l = scope_gone F repo project_id card_id request s id n l
    move_parent_gone _ id i n l = cc

    move_beside_self :
        (intent : CardPlacementIntent) (target : Card Double) (id : Text)
        → is_beside intent ≡ true
        → Target F repo project_id card_id request id target
        → target.card_id ≡ s.card_id
        → plan_move F all s request intent ≡ err invalid_target
    unfolding plan_move
    move_beside_self before target id i aimed same =
        target_is F repo project_id card_id request _ id target aimed.named
          (live-some F repo project_id card_id request id target aimed.there aimed.alive)
        ∙ beside-none F repo project_id card_id request 0 s target
            (beside_itself F all target s.card_id same)
    move_beside_self after target id i aimed same =
        target_is F repo project_id card_id request _ id target aimed.named
          (live-some F repo project_id card_id request id target aimed.there aimed.alive)
        ∙ beside-none F repo project_id card_id request 1 s target
            (beside_itself F all target s.card_id same)
    move_beside_self _ target id i aimed same = cc

    move_under_itself :
        (intent : CardPlacementIntent) (target : Card Double) (id : Text) (k : ℕ)
        → intent ≡ into
        → Target F repo project_id card_id request id target
        → k < 1024
        → Leads F all s.card_id k (some target.card_id)
        → plan_move F all s request intent ≡ err move_would_create_cycle
    unfolding plan_move
    move_under_itself into target id k i aimed lt leads =
        target_is F repo project_id card_id request _ id target aimed.named
          (live-some F repo project_id card_id request id target aimed.there aimed.alive)
        ∙ into_cycle F repo project_id card_id request s target
            ((is_descendant_of_iff F all s.card_id (some target.card_id)).1 (k, lt, leads))
    move_under_itself _ target id k i aimed lt leads = cc

    move_at_top :
        (intent : CardPlacementIntent)
        → intent ≡ up_level
        → normalize_parent_id s.parent_card_id ≡ none
        → plan_move F all s request intent ≡ err already_at_project_root
    unfolding plan_move
    move_at_top up_level i n = up_at_top F repo project_id card_id request s n
    move_at_top _ i n = cc

  refused_fails : (e : MoveError) → Refuse e → resolved ≡ err e
  refused_fails _ (no_card n) =
      source_refused _ (source_missing F repo project_id card_id request n)
  refused_fails _ (in_trash s n d) =
      source_refused _ (source_in_trash F repo project_id card_id request s n d)
  refused_fails _ (of_other_project s n d o) = source_refused _ (
      source_of_other F repo project_id card_id request s n d
        (ne_text F repo project_id card_id request s.project_id project_id o))
  refused_fails _ (no_target s m i n) = plan_refused s _ m (move_no_target s request.intent i n)
  refused_fails _ (target_gone s id m i n gone) = plan_refused s _ m (
      move_target_gone s request.intent id i n
        (live-none F repo project_id card_id request id gone))
  refused_fails _ (parent_gone s id m i n gone) = plan_refused s _ m (
      move_parent_gone s request.intent id i n
        (live-none F repo project_id card_id request id gone))
  refused_fails _ (under_itself s target id k m i aimed lt leads) =
      plan_refused s _ m (move_under_itself s request.intent target id k i aimed lt leads)
  refused_fails _ (beside_self s target id m i aimed same) =
      plan_refused s _ m (move_beside_self s request.intent target id i aimed same)
  refused_fails _ (at_top s m i n) = plan_refused s _ m (move_at_top s request.intent i n)

  err_eq : {A : Type 0} {x y : MoveError} → Path (Result A) (err x) (err y) → x ≡ y
  err_eq e = cc

  placed_fails :
      (s : Card Double) (plan : Plan F) (e : MoveError)
      → Plans F request.intent (ok plan)
      → place F s t plan ≡ err e
      → KeyError F request.intent e
  unfolding place
  placed_fails s plan e fits h =
      subst (FailsOnly F request.intent) h
        (place_at-FailsOnly F request.intent s t plan plan.at fits)

  fails_refused : (e : MoveError) → resolved ≡ err e → Refuse e ⊎ KeyError F request.intent e
  fails_refused e h = elim (find_source-either F repo project_id card_id request) [
    | inl (e', f, r) ↦ inl (subst Refuse (err_eq (sym (source_refused e' f) ∙ h)) r)
    | inr (s, f, m) ↦
        elim (plan_move-Planned F repo project_id card_id request s request.intent m refl) [
          | inl (e', p, r) ↦ inl (subst Refuse (err_eq (sym (plan_refused s e' m p) ∙ h)) r)
          | inr (plan, p) ↦
              let fits =
                subst (Plans F request.intent) p
                  (plan_move-Plans F request.intent all s request refl) in
              inr (placed_fails s plan e fits (sym (at_plan s m ∙ rw p) ∙ h))
        ]
  ]

  -- Take any error but that no keys are left and, for Left and Right alone, that the fuel of the
  -- model runs out. `resolve` fails with it exactly under its condition: the card that moves is
  -- not in the table or is in the trash; it is of another project; Into, Before or After has no
  -- target, or one that is not live; ToStart, ToEnd, Left or Right is to go under a parent that
  -- is not live; Into has a target that the card is, or is above, by fewer than 1024 parent
  -- links; Before or After has the card itself as target; UpLevel finds the card at the top. The
  -- conditions on a target or a parent are for a card that is live and of the project.
  pub resolve_fails_iff :
      (e : MoveError) → ¬ KeyError F request.intent e → (resolved ≡ err e) ↔ Refuse e
  resolve_fails_iff e other =
      (λ h. elim (fails_refused e h) [ inl r ↦ r | inr k ↦ absurd (other k) ], refused_fails e)
