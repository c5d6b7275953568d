-- ===== src/Card/Placement/Resolve/Outcome.antt =====
-- What a placement that is resolved says.
use holder_core.Common.{
  ℕ, ◌+◌, ◌≡◌, inl, inr, false, Option, none, some, [], ◌∷◌, arith, if◌then◌else◌, All, Text,
  text_eq, Bool-cases, subst, All-append, not, text_eq_iff,
}
use holder_core.Common.Int.{ℤ}
use holder_core.Card.{Floats, Card, is_deleted}
use holder_core.Card.Repo.{Cards, get, list_all}
use holder_core.Card.Result.{
  bind_succeeds, Result, ok, err, ◌>>=◌, card_not_found, cross_project_move_forbidden,
}
use holder_core.Card.Placement.{CardPlacementRequest, CardPlacementResult, Plan}
use holder_core.Card.Placement.Resolve.{
  find_source, plan_move, place_at, collect, resolve, add_change,
}
use holder_core.Card.Block.Respace.{Stamped, ChangesStamped}
use holder_core.Card.Block.{insert_block_into}
use holder_core.Card.Block.Insert.{insert_block_into-Stamped}

ok-eq {ℓ} : {A : Type ℓ} {x y : A} → Result.ok x ≡ ok y → x ≡ y
ok-eq e = cc

module _ (F : Floats) (t : ℤ) where
  open F use {Double}

  -- a change of another card than the one that moves, at the time of the move
  abbrev pub Other : Text → Card Double → Type 0
  Other source_id c = (text_eq c.card_id source_id ≡ false) × (c.updated_at ≡ t)

  add_change-Other :
      (source_id : Text) (result : CardPlacementResult F) (c : Card Double)
      → c.updated_at ≡ t
      → All (Other source_id) result.sibling_changes
      → All (Other source_id) (add_change F source_id result c).sibling_changes
  unfolding add_change
  add_change-Other source_id result c s h = elim (Bool-cases (text_eq c.card_id source_id)) [
    | inl b ↦ rw b h
    | inr b ↦ rw b (All-append _ result.sibling_changes (c ∷ []) h ((b, s), tt))
  ]

  collect-Other :
      (source_id : Text) (result : CardPlacementResult F) (cs : Cards F)
      → Stamped F t cs
      → All (Other source_id) result.sibling_changes
      → All (Other source_id) (collect F source_id result cs).sibling_changes
  unfolding collect
  collect-Other source_id result [] s h = h
  collect-Other source_id result (c ∷ cs) s h =
      collect-Other source_id (add_change F source_id result c) cs s.1
        (add_change-Other source_id result c s.0 h)

  -- what a placement of `source` says
  abbrev pub Moves : Card Double → CardPlacementResult F → Type 0
  Moves source r = All (Other source.card_id) r.sibling_changes

  place_at-Moves :
      (source : Card Double) (plan : Plan F) (o : Option ℕ) (r : CardPlacementResult F)
      → place_at F source t plan o ≡ ok r
      → Moves source r
  unfolding place_at
  place_at-Moves source plan none r h = subst (λ z. placed_changes z) h tt
    where
      placed_changes : Result (CardPlacementResult F) → Type 0
      placed_changes (ok z) = Moves source z
      placed_changes (err e) = Unit
  place_at-Moves source plan (some at) r h =
      by (insert_block_into F plan.destination at (source ∷ []) plan.next_parent t)
        (insert_block_into-Stamped F plan.destination at (source ∷ []) plan.next_parent t) h
    where
      start : CardPlacementResult F
      start = record {
        parent_card_id = plan.next_parent;
        sort_key = F.of_count 0;
        moved_into_title = plan.moved_into_title;
        sibling_changes = [];
      }

      by :
          (w : Result (Cards F × Cards F))
          → ChangesStamped F at (at + 1) t w
          → (w >>= λ placed. ok (collect F source.card_id start placed.0)) ≡ ok r
          → Moves source r
      by (err e) s k = cc
      by (ok (changed, written)) s k =
          subst (Moves source) (ok-eq k) (collect-Other source.card_id start changed s tt)

  find_source-live :
      (repo : Cards F) (project_id card_id : Text) (source : Card Double)
      → find_source F repo project_id card_id ≡ ok source
      → (get F repo card_id ≡ some source)
        × (is_deleted source ≡ false)
        × (source.project_id ≡ project_id)
  unfolding find_source
  find_source-live repo project_id card_id source h = by (get F repo card_id) h
    where
      by :
          (o : Option (Card Double))
          → (elim o [
            | none ↦ err card_not_found
            | some c ↦
                if is_deleted c
                then err card_not_found
                else if not (text_eq c.project_id project_id)
                then err cross_project_move_forbidden
                else ok c
          ])
            ≡ ok source
          → (o ≡ some source) × (is_deleted source ≡ false) × (source.project_id ≡ project_id)
      by none k = cc
      by (some c) k = ground (arith, text_eq_iff c.project_id project_id)

  -- If `resolve` succeeds, the moved card is a live card of the project, and each returned
  -- sibling change is of another card and carries the time of the move.
  pub resolve-Moves :
      (repo : Cards F) (project_id card_id : Text) (request : CardPlacementRequest)
      (r : CardPlacementResult F)
      → resolve F repo project_id card_id request t ≡ ok r
      → (source : Card Double) × (get F repo card_id ≡ some source)
        × (is_deleted source ≡ false)
        × (source.project_id ≡ project_id)
        × Moves source r
  unfolding resolve
  resolve-Moves repo project_id card_id request r h =
      let (source, found, rest) = bind_succeeds (find_source F repo project_id card_id) _ r h in
      let (plan, planned, last) =
        bind_succeeds (plan_move F (list_all F repo project_id) source request request.intent) _ r
          rest in
      let (e, d, p) = find_source-live repo project_id card_id source found in
      (source, e, d, p, place_at-Moves source plan plan.at r last)
