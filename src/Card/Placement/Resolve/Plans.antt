-- ===== src/Card/Placement/Resolve/Plans.antt =====
-- The plans of the switch: their positions lie within the destination.
use mathlib.Core.Option
use holder_core.Common.{
  ◌<◌, subst, ℕ, suc, ◌+◌, ◌≡◌, ◌⊎◌, refl, inl, inr, true, Option, none, some, [], ◌∷◌, Text,
  text_eq, ◌&&◌, length, arith, Bool-cases, Option-cases, ◌≤◌, is_empty, opt_text_eq,
}
use holder_core.Card.{Floats, Card}
use holder_core.Card.Repo.{Cards}
use holder_core.Card.Result.{
  Result, ok, err, target_not_found, invalid_target, already_at_project_root,
  missing_target_card_id,
}
use holder_core.Card.Placement.{
  CardPlacementIntent, into, before, after, to_start, to_end, left, right, up_level,
  CardPlacementRequest, Plan, index_of, live, normalize_parent_id, is_descendant_of,
  siblings_for_parent,
}
use holder_core.Card.Placement.Resolve.{
  plan_move, plan_target, plan_into, plan_beside, plan_scope, plan_up, scope_parent, scope_exists,
  scope_position,
}
use holder_core.Card.Placement.Resolve.Intents.{is_step}

module _ (F : Floats) where
  open F use {Double}

  abbrev pub Fits : CardPlacementIntent → Option ℕ → Cards F → Type 0
  Fits intent none d = Unit
  Fits intent (some at) d = (is_step intent ≡ true) ⊎ (at ≤ length d)

  index_of-lt-length :
      (id : Text) (cs : Cards F) (i : ℕ) → index_of F id cs ≡ some i → i < length cs
  unfolding index_of
  index_of-lt-length id [] i h = cc
  index_of-lt-length id (c ∷ cs) i h = elim (Bool-cases (text_eq c.card_id id)) [
    | inl b ↦ let z : 0 ≡ i = some-eq (rw b at h) in omega arith
    | inr b ↦ elim (Option-cases (index_of F id cs)) [
      | inl n ↦ cc (rw (b, n) at h)
      | inr (j, e) ↦
          let z : suc j ≡ i = some-eq (rw (b, e) at h) in
          let lt = index_of-lt-length id cs j e in omega arith
    ]
  ]
    where
      some-eq : {x y : ℕ} → some x ≡ some y → x ≡ y
      some-eq e = cc

  stepped :
      (intent : CardPlacementIntent) (d : Cards F)
      → is_step intent ≡ true
      → (o : Option ℕ) → Fits intent o d
  stepped intent d e none = tt
  stepped intent d e (some at) = inl e

  scope_position-Fits :
      (intent : CardPlacementIntent) (source : Card Double) (original next : Option Text)
      (d with_source : Cards F)
      → Fits intent (scope_position F intent source original next d with_source) d
  unfolding scope_position
  scope_position-Fits to_start source original next d with_source =
      elim (Bool-cases (is_empty d && opt_text_eq next original)) [
        | inl b ↦ rw b tt
        | inr b ↦ rw b (inr (omega arith))
      ]
  scope_position-Fits to_end source original next d with_source =
      elim (Bool-cases (is_empty d && opt_text_eq next original)) [
        | inl b ↦ rw b tt
        | inr b ↦ rw b (inr (omega arith))
      ]
  scope_position-Fits left source original next d with_source = stepped left d refl _
  scope_position-Fits right source original next d with_source = stepped right d refl _
  scope_position-Fits into source original next d with_source = tt
  scope_position-Fits before source original next d with_source = tt
  scope_position-Fits after source original next d with_source = tt
  scope_position-Fits up_level source original next d with_source = tt

  -- what a plan says
  abbrev pub Plans : CardPlacementIntent → Result (Plan F) → Type 0
  Plans intent (err e) = Unit
  Plans intent (ok plan) = Fits intent plan.at plan.destination

  plan_target-Plans :
      (intent : CardPlacementIntent) (plan : Card Double → Result (Plan F)) (cards : Cards F)
      (request : CardPlacementRequest)
      → ((target : Card Double) → Plans intent (plan target))
      → Plans intent (plan_target F plan cards request)
  unfolding plan_target
  plan_target-Plans intent plan cards request each = go request.target_card_id
    where
      found :
          (o : Option (Card Double))
          → Plans intent (elim o as (λ x. Result (Plan F)) [
            | none ↦ err target_not_found
            | some target ↦ plan target
          ])
      found none = tt
      found (some target) = each target

      go :
          (o : Option Text)
          → Plans intent (elim o as (λ x. Result (Plan F)) [
            | none ↦ err missing_target_card_id
            | some id ↦ elim (live F cards id) as (λ x. Result (Plan F)) [
              | none ↦ err target_not_found
              | some target ↦ plan target
            ]
          ])
      go none = tt
      go (some id) = found (live F cards id)

  plan_into-Plans :
      (cards : Cards F) (source target : Card Double) → Plans into (plan_into F cards source target)
  unfolding plan_into
  plan_into-Plans cards source target =
      elim (Bool-cases (is_descendant_of F cards (some target.card_id) source.card_id)) [
        | inl b ↦ rw b tt
        | inr b ↦ rw b (inr (omega arith))
      ]

  plan_beside-Plans :
      (intent : CardPlacementIntent) (offset : ℕ) (cards : Cards F) (source target : Card Double)
      → offset ≤ 1
      → Plans intent (plan_beside F offset cards source target)
  unfolding plan_beside
  plan_beside-Plans intent offset cards source target near =
      go (index_of F target.card_id destination) refl
    where
      next_parent : Option Text
      next_parent = normalize_parent_id target.parent_card_id

      destination : Cards F
      destination = siblings_for_parent F cards next_parent source.card_id

      go :
          (o : Option ℕ)
          → index_of F target.card_id destination ≡ o
          → Plans intent (elim o as (λ x. Result (Plan F)) [
            | none ↦ err invalid_target
            | some i ↦ ok (record {
              next_parent = next_parent;
              moved_into_title = none;
              destination = destination;
              at = some (i + offset);
            })
          ])
      go none e = tt
      go (some i) e =
          let lt = index_of-lt-length target.card_id destination i e in inr (omega arith)

  plan_scope-Plans :
      (cards : Cards F) (source : Card Double) (request : CardPlacementRequest)
      → Plans request.intent (plan_scope F cards source request)
  unfolding plan_scope
  plan_scope-Plans cards source request =
      elim (Bool-cases (
        scope_exists F cards
          (scope_parent F request (normalize_parent_id source.parent_card_id)))) [
            | inl b ↦ rw (b, scope_exists) (scope_position-Fits request.intent source _ _ _ _)
            | inr b ↦ rw (b, scope_exists) tt
          ]

  plan_up-Plans : (cards : Cards F) (source : Card Double) → Plans up_level (plan_up F cards source)
  unfolding plan_up
  plan_up-Plans cards source = go (normalize_parent_id source.parent_card_id)
    where
      up_plan : Text → Plan F
      up_plan parent =
          let next_parent =
            Option.bind (live F cards parent) (λ p. normalize_parent_id p.parent_card_id) in
          let destination = siblings_for_parent F cards next_parent source.card_id in
          record {
            next_parent = next_parent;
            moved_into_title = Option.map (λ c. c.title) (Option.bind next_parent (live F cards));
            destination = destination;
            at = some (length destination);
          }

      go :
          (o : Option Text)
          → Plans up_level (elim o as (λ x. Result (Plan F)) [
            | none ↦ err already_at_project_root
            | some parent ↦ ok (up_plan parent)
          ])
      go none = tt
      go (some p) = inr (omega arith)

  in_scope :
      (cards : Cards F) (source : Card Double) (request : CardPlacementRequest)
      (intent : CardPlacementIntent)
      → request.intent ≡ intent
      → Plans intent (plan_scope F cards source request)
  in_scope cards source request intent e =
      subst (λ i. Plans i (plan_scope F cards source request)) e
        (plan_scope-Plans cards source request)

  pub plan_move-Plans :
      (intent : CardPlacementIntent) (cards : Cards F) (source : Card Double)
      (request : CardPlacementRequest)
      → request.intent ≡ intent
      → Plans intent (plan_move F cards source request intent)
  unfolding plan_move
  plan_move-Plans into cards source request e =
      plan_target-Plans into (plan_into F cards source) cards request (plan_into-Plans cards source)
  plan_move-Plans before cards source request e =
      plan_target-Plans before (plan_beside F 0 cards source) cards request
        (λ target. plan_beside-Plans before 0 cards source target (omega arith))
  plan_move-Plans after cards source request e =
      plan_target-Plans after (plan_beside F 1 cards source) cards request
        (λ target. plan_beside-Plans after 1 cards source target (omega arith))
  plan_move-Plans up_level cards source request e = plan_up-Plans cards source
  plan_move-Plans to_start cards source request e = in_scope cards source request to_start e
  plan_move-Plans to_end cards source request e = in_scope cards source request to_end e
  plan_move-Plans left cards source request e = in_scope cards source request left e
  plan_move-Plans right cards source request e = in_scope cards source request right e
