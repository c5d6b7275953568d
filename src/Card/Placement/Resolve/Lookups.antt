-- ===== src/Card/Placement/Resolve/Lookups.antt =====
-- The cards that `resolve` looks up: found, or refused.
use holder_core.Common.{
  ◌≡◌, ◌≢◌, ◌⊎◌, ◌∙◌, inl, inr, true, false, Option, none, some, Text, text_eq, text_eq_sound,
  Bool-cases, Option-cases, sym, text_eq_iff, ap,
}
use holder_core.Card.{Floats, Card, is_deleted}
use holder_core.Card.Repo.{Cards, get, list_all}
use holder_core.Card.Result.{MoveError, ok, err, card_not_found, cross_project_move_forbidden}
use holder_core.Card.Placement.{CardPlacementRequest, by_id, live}
use holder_core.Card.Placement.Resolve.{find_source}
use holder_core.Card.Placement.Resolve.Refused.{
  Refused, Moving, Aimed, Gone, no_card, in_trash, of_other_project,
}

module _ (F : Floats) (repo : Cards F) (project_id card_id : Text)
    (request : CardPlacementRequest) where
  open F use {Double}

  abbrev pub table : Cards F
  table = list_all F repo project_id

  abbrev pub Refusal : MoveError → Type 0
  Refusal = Refused F repo project_id card_id request

  abbrev pub Source : Card Double → Type 0
  Source = Moving F repo project_id card_id request

  abbrev pub Target : Text → Card Double → Type 0
  Target = Aimed F repo project_id card_id request

  -- The card that moves.
  pub source_missing :
      get F repo card_id ≡ none → find_source F repo project_id card_id ≡ err card_not_found
  unfolding find_source
  source_missing n = rw (n, find_source)

  pub source_in_trash :
      (s : Card Double)
      → get F repo card_id ≡ some s
      → is_deleted s ≡ true
      → find_source F repo project_id card_id ≡ err card_not_found
  unfolding find_source
  source_in_trash s n d = rw (n, find_source) (rw d)

  pub source_of_other :
      (s : Card Double)
      → get F repo card_id ≡ some s
      → is_deleted s ≡ false
      → text_eq s.project_id project_id ≡ false
      → find_source F repo project_id card_id ≡ err cross_project_move_forbidden
  unfolding find_source
  source_of_other s n d f = rw (n, find_source) (rw d (rw f))

  source_found :
      (s : Card Double)
      → get F repo card_id ≡ some s
      → is_deleted s ≡ false
      → text_eq s.project_id project_id ≡ true
      → find_source F repo project_id card_id ≡ ok s
  unfolding find_source
  source_found s n d t = rw (n, find_source) (rw d (rw t))

  text_ne : (a b : Text) → text_eq a b ≡ false → a ≢ b
  text_ne a b f e = cc (f, (text_eq_iff a b).1 e)

  pub ne_text : (a b : Text) → a ≢ b → text_eq a b ≡ false
  ne_text a b n = elim (Bool-cases (text_eq a b)) [
    | inl t ↦ absurd (n (text_eq_sound a b t))
    | inr f ↦ f
  ]

  -- either a refusal, or the card that moves
  pub find_source-either :
      ((e : MoveError) × (find_source F repo project_id card_id ≡ err e) × Refusal e)
      ⊎ ((s : Card Double) × (find_source F repo project_id card_id ≡ ok s) × Source s)
  find_source-either = elim (Option-cases (get F repo card_id)) [
    | inl n ↦ inl (card_not_found, source_missing n, no_card n)
    | inr (s, n) ↦ elim (Bool-cases (is_deleted s)) [
      | inl d ↦ inl (card_not_found, source_in_trash s n d, in_trash s n d)
      | inr d ↦ elim (Bool-cases (text_eq s.project_id project_id)) [
        | inl t ↦ inr (
          s,
          source_found s n d t,
          record { here = n; alive = d; own = text_eq_sound s.project_id project_id t },
        )
        | inr f ↦ inl (
          cross_project_move_forbidden,
          source_of_other s n d f,
          of_other_project s n d (text_ne s.project_id project_id f),
        )
      ]
    ]
  ]

  pub Moving-found : (s : Card Double) → Source s → find_source F repo project_id card_id ≡ ok s
  Moving-found s m = source_found s m.here m.alive ((text_eq_iff s.project_id project_id).1 m.own)

  -- The target.
  pub live-none : (id : Text) → Gone F repo project_id card_id request id → live F table id ≡ none
  unfolding live
  live-none id g = elim (Option-cases (by_id F table id)) [
    | inl n ↦ rw (n, live)
    | inr (c, n) ↦ rw (n, live) (rw (g c n))
  ]

  pub live-some :
      (id : Text) (c : Card Double)
      → by_id F table id ≡ some c
      → is_deleted c ≡ false
      → live F table id ≡ some c
  unfolding live
  live-some id c n d = rw (n, live) (rw d)

  none-some : {A : Type 0} {a : A} → Path (Option A) none (some a) → ⊥
  none-some e = cc

  some_eq : {A : Type 0} {a b : A} → Path (Option A) (some a) (some b) → a ≡ b
  some_eq e = cc

  pub live-either :
      (id : Text)
      → ((live F table id ≡ none) × Gone F repo project_id card_id request id)
        ⊎ ((c : Card Double) × (live F table id ≡ some c)
            × (by_id F table id ≡ some c)
            × (is_deleted c ≡ false))
  live-either id = elim (Option-cases (by_id F table id)) [
    | inl n ↦
        let gone : Gone F repo project_id card_id request id =
          λ c e. absurd (none-some (sym n ∙ e)) in
        inl (live-none id gone, gone)
    | inr (c, n) ↦ elim (Bool-cases (is_deleted c)) [
      | inl d ↦
          let gone : Gone F repo project_id card_id request id =
            λ c' e. ap is_deleted (sym (some_eq (sym n ∙ e))) ∙ d in
          inl (live-none id gone, gone)
      | inr d ↦ inr (c, live-some id c n d, n, d)
    ]
  ]
