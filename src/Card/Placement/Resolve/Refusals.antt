-- ===== src/Card/Placement/Resolve/Refusals.antt =====
-- The plans of the switch: what is refused, and under which condition.
use holder_core.Common.{
  ℕ, ◌≡◌, ◌⊎◌, ◌∙◌, refl, inl, inr, Bool, true, false, Option, none, some, Text, Option-cases, ap,
  if◌then◌else◌, not,
}
use holder_core.Card.{Floats, Card}
use holder_core.Card.Repo.{Cards}
use holder_core.Card.Result.{
  MoveError, Result, ok, err, target_not_found, move_would_create_cycle, invalid_target,
  already_at_project_root, missing_target_card_id,
}
use holder_core.Card.Placement.{
  CardPlacementIntent, into, before, after, to_start, to_end, left, right, up_level,
  CardPlacementRequest, Plan, live, normalize_parent_id, is_descendant_of,
}
use holder_core.Card.Placement.Descent.{is_descendant_of_iff}
use holder_core.Card.Placement.Resolve.{
  plan_move, plan_target, plan_into, plan_beside, plan_scope, plan_up, scope_parent, scope_exists,
}
use holder_core.Card.Placement.Resolve.Intents.{needs_target, is_beside, is_scope}
use holder_core.Card.Placement.Resolve.Beside.{beside, beside_missing}
use holder_core.Card.Placement.Resolve.Refused.{
  no_target, target_gone, parent_gone, under_itself, beside_self, at_top,
}
use holder_core.Card.Placement.Resolve.Lookups.{table, Refusal, Source, Target, live-either}

module _ (F : Floats) (repo : Cards F) (project_id card_id : Text)
    (request : CardPlacementRequest) where
  open F use {Double}

  abbrev pub cards : Cards F
  cards = table F repo project_id card_id request

  abbrev pub Refuses : MoveError → Type 0
  Refuses = Refusal F repo project_id card_id request

  abbrev pub Moves : Card Double → Type 0
  Moves = Source F repo project_id card_id request

  -- refused, or not
  abbrev pub Planned : {A : Type 0} → Result A → Type 0
  Planned {A} m = ((e : MoveError) × (m ≡ err e) × Refuses e) ⊎ ((a : A) × (m ≡ ok a))

  Planned-if :
      {A : Type 0} (b : Bool) (e : MoveError) (a : A)
      → (b ≡ true → Refuses e)
      → Planned (if b then err e else ok a)
  Planned-if true e a h = inl (e, refl, h refl)
  Planned-if false e a h = inr (a, refl)

  Planned-elim :
      {A B : Type 0} (o : Option B) (e : MoveError) (f : B → A)
      → (o ≡ none → Refuses e)
      → Planned (elim o as (λ x. Result A) [ none ↦ err e | some i ↦ ok (f i) ])
  Planned-elim none e f h = inl (e, refl, h refl)
  Planned-elim (some i) e f h = inr (f i, refl)

  -- a target that is not given, not live, or there
  pub target_none :
      (plan : Card Double → Result (Plan F))
      → request.target_card_id ≡ none
      → plan_target F plan cards request ≡ err missing_target_card_id
  unfolding plan_target
  target_none plan n = rw (n, plan_target)

  pub target_absent :
      (plan : Card Double → Result (Plan F)) (id : Text)
      → request.target_card_id ≡ some id
      → live F cards id ≡ none
      → plan_target F plan cards request ≡ err target_not_found
  unfolding plan_target
  target_absent plan id n l = rw (n, plan_target) (rw l)

  pub target_is :
      (plan : Card Double → Result (Plan F)) (id : Text) (t : Card Double)
      → request.target_card_id ≡ some id
      → live F cards id ≡ some t
      → plan_target F plan cards request ≡ plan t
  unfolding plan_target
  target_is plan id t n l = rw (n, plan_target) (rw l)

  plan_target-Planned :
      (plan : Card Double → Result (Plan F)) (s : Card Double)
      → Moves s
      → needs_target request.intent ≡ true
      → ((id : Text) (t : Card Double)
          → Target F repo project_id card_id request id t
          → Planned (plan t))
      → Planned (plan_target F plan cards request)
  plan_target-Planned plan s m needs each = elim (Option-cases request.target_card_id) [
    | inl n ↦ inl (missing_target_card_id, target_none plan n, no_target s m needs n)
    | inr (id, n) ↦ elim (live-either F repo project_id card_id request id) [
      | inl (l, gone) ↦
          inl (target_not_found, target_absent plan id n l, target_gone s id m needs n gone)
      | inr (t, l, there, alive) ↦
          let same = target_is plan id t n l in
          elim (each id t (record { named = n; there = there; alive = alive })) [
            | inl (e, h, r) ↦ inl (e, same ∙ h, r)
            | inr (a, h) ↦ inr (a, same ∙ h)
          ]
    ]
  ]

  -- Into
  pub into_cycle :
      (s t : Card Double)
      → is_descendant_of F cards (some t.card_id) s.card_id ≡ true
      → plan_into F cards s t ≡ err move_would_create_cycle
  unfolding plan_into
  into_cycle s t d = rw d

  plan_into-Planned :
      (s t : Card Double) (id : Text)
      → Moves s
      → request.intent ≡ into
      → Target F repo project_id card_id request id t
      → Planned (plan_into F cards s t)
  unfolding plan_into
  plan_into-Planned s t id m i aimed =
      Planned-if (is_descendant_of F cards (some t.card_id) s.card_id) move_would_create_cycle _
        λ d.
          let (k, lt, leads) = (is_descendant_of_iff F cards s.card_id (some t.card_id)).0 d in
          under_itself s t id k m i aimed lt leads

  -- Before and After
  pub beside-none :
      (offset : ℕ) (s t : Card Double)
      → beside F cards t s.card_id ≡ none
      → plan_beside F offset cards s t ≡ err invalid_target
  unfolding plan_beside
  beside-none offset s t n = rw (n, plan_beside)

  plan_beside-Planned :
      (offset : ℕ) (s t : Card Double) (id : Text)
      → Moves s
      → is_beside request.intent ≡ true
      → Target F repo project_id card_id request id t
      → Planned (plan_beside F offset cards s t)
  unfolding plan_beside
  plan_beside-Planned offset s t id m i aimed =
      Planned-elim (beside F cards t s.card_id) invalid_target _ λ n.
        beside_self s t id m i aimed
          (beside_missing F cards id t s.card_id aimed.there aimed.alive n)

  -- ToStart, ToEnd, Left and Right
  pub scope_gone :
      (s : Card Double) (id : Text)
      → scope_parent F request (normalize_parent_id s.parent_card_id) ≡ some id
      → live F cards id ≡ none
      → plan_scope F cards s request ≡ err target_not_found
  unfolding plan_scope scope_exists
  scope_gone s id n l = rw (n, scope_exists) (rw l)

  scope-Refuses :
      (s : Card Double)
      → Moves s
      → is_scope request.intent ≡ true
      → (parent : Option Text)
      → scope_parent F request (normalize_parent_id s.parent_card_id) ≡ parent
      → not (scope_exists F cards parent) ≡ true
      → Refuses target_not_found
  unfolding scope_exists
  scope-Refuses s m i none n h = cc
  scope-Refuses s m i (some id) n h = elim (live-either F repo project_id card_id request id) [
    | inl (l, gone) ↦ parent_gone s id m i n gone
    | inr (t, l, there, alive) ↦ absurd (cc (rw l at h))
  ]

  plan_scope-Planned :
      (s : Card Double)
      → Moves s
      → is_scope request.intent ≡ true
      → Planned (plan_scope F cards s request)
  unfolding plan_scope
  plan_scope-Planned s m i =
      Planned-if
        (not (scope_exists F cards (scope_parent F request (normalize_parent_id s.parent_card_id))))
        target_not_found _ (scope-Refuses s m i _ refl)

  -- UpLevel
  pub up_at_top :
      (s : Card Double)
      → normalize_parent_id s.parent_card_id ≡ none
      → plan_up F cards s ≡ err already_at_project_root
  unfolding plan_up
  up_at_top s n = rw (n, plan_up)

  plan_up-Planned :
      (s : Card Double) → Moves s → request.intent ≡ up_level → Planned (plan_up F cards s)
  unfolding plan_up
  plan_up-Planned s m i =
      Planned-elim (normalize_parent_id s.parent_card_id) already_at_project_root _ (at_top s m i)

  -- the switch
  pub plan_move-Planned :
      (s : Card Double) (intent : CardPlacementIntent)
      → Moves s
      → request.intent ≡ intent
      → Planned (plan_move F cards s request intent)
  unfolding plan_move
  plan_move-Planned s into m i =
      plan_target-Planned (plan_into F cards s) s m (ap needs_target i)
        (λ id t. plan_into-Planned s t id m i)
  plan_move-Planned s before m i =
      plan_target-Planned (plan_beside F 0 cards s) s m (ap needs_target i)
        (λ id t. plan_beside-Planned 0 s t id m (ap is_beside i))
  plan_move-Planned s after m i =
      plan_target-Planned (plan_beside F 1 cards s) s m (ap needs_target i)
        (λ id t. plan_beside-Planned 1 s t id m (ap is_beside i))
  plan_move-Planned s up_level m i = plan_up-Planned s m i
  plan_move-Planned s to_start m i = plan_scope-Planned s m (ap is_scope i)
  plan_move-Planned s to_end m i = plan_scope-Planned s m (ap is_scope i)
  plan_move-Planned s left m i = plan_scope-Planned s m (ap is_scope i)
  plan_move-Planned s right m i = plan_scope-Planned s m (ap is_scope i)
