-- ===== src/Card/Placement/Resolve/Beside.antt =====
-- When a card is found among the siblings of a target: unless it is the card that moves.
use mathlib.Core.Option
use holder_core.Common.{
  ℕ, suc, ◌≡◌, refl, inl, inr, Bool, true, false, Option, none, some, [], ◌∷◌, ◌∙◌, sym, arith,
  Text, text_eq, text_eq_refl, text_eq_sound, Bool-cases, Option-cases, is_some, is_empty, ◌||◌,
  ◌&&◌, not, opt_text_eq, opt_text_eq_iff, ap,
}
use holder_core.Card.{Floats, Card, is_deleted}
use holder_core.Card.Repo.{Cards, select, sort_by, insert_by}
use holder_core.Card.Placement.{
  index_of, by_id, siblings_for_parent, normalize_parent_id, trim_left, trim_right, is_trimmed,
}
use holder_core.Card.Hierarchy.{card_tree_less}

-- Normalising a parent is done after one time.
trim_right_idem : (s : Text) → trim_right (trim_right s) ≡ trim_right s
unfolding trim_right
trim_right_idem [] = refl
trim_right_idem (c ∷ cs) = elim (Bool-cases (is_empty (trim_right cs) && is_trimmed c)) [
  | inl b ↦ rw (b, trim_right)
  | inr b ↦ rw (b, trim_right) (rw (trim_right_idem cs) (rw b))
]

and_false : (b : Bool) → (b && false) ≡ false
and_false true = refl
and_false false = refl

trim_right_kept :
    (c : ℕ) (cs : Text) → is_trimmed c ≡ false → trim_right (c ∷ cs) ≡ c ∷ trim_right cs
unfolding trim_right
trim_right_kept c cs b = rw b (rw (and_false (is_empty (trim_right cs))))

normal_stays :
    (c : ℕ) (cs : Text)
    → is_trimmed c ≡ false
    → normalize_parent_id (some (c ∷ trim_right cs)) ≡ some (c ∷ trim_right cs)
unfolding normalize_parent_id trim_left
normal_stays c cs b = rw b (rw (trim_right_kept c (trim_right cs) b) (rw (trim_right_idem cs)))

trimmed_idem :
    (s : Text) → normalize_parent_id (normalize_parent_id (some s)) ≡ normalize_parent_id (some s)
unfolding normalize_parent_id trim_left trim_right
trimmed_idem [] = refl
trimmed_idem (c ∷ cs) = elim (Bool-cases (is_trimmed c)) [
  | inl b ↦ rw b (trimmed_idem cs)
  | inr b ↦ rw b (rw (trim_right_kept c cs b) (normal_stays c cs b))
]

normalize_idem :
    (o : Option Text) → normalize_parent_id (normalize_parent_id o) ≡ normalize_parent_id o
unfolding normalize_parent_id
normalize_idem none = refl
normalize_idem (some s) = trimmed_idem s

module _ (F : Floats) where
  open F use {Double}

  -- whether a card with the ID is among them
  has : Text → Cards F → Bool
  has id [] = false
  has id (c ∷ cs) = text_eq c.card_id id || has id cs

  is_some-map : (o : Option ℕ) → is_some (Option.map suc o) ≡ is_some o
  is_some-map none = refl
  is_some-map (some n) = refl

  is_some-index_of : (id : Text) (cs : Cards F) → is_some (index_of F id cs) ≡ has id cs
  unfolding index_of has
  is_some-index_of id [] = refl
  is_some-index_of id (c ∷ cs) = elim (Bool-cases (text_eq c.card_id id)) [
    | inl b ↦ rw b
    | inr b ↦ rw b (is_some-map (index_of F id cs) ∙ is_some-index_of id cs)
  ]

  has-insert_by :
      (less : Card Double → Card Double → Bool) (id : Text) (c : Card Double) (cs : Cards F)
      → has id (insert_by F less c cs) ≡ (text_eq c.card_id id || has id cs)
  unfolding insert_by has
  has-insert_by less id c [] = refl
  has-insert_by less id c (d ∷ ds) = ground (arith, has-insert_by less id c ds)

  has-sort_by :
      (less : Card Double → Card Double → Bool) (id : Text) (cs : Cards F)
      → has id (sort_by F less cs) ≡ has id cs
  unfolding sort_by has
  has-sort_by less id [] = refl
  has-sort_by less id (c ∷ cs) =
      has-insert_by less id c (sort_by F less cs)
      ∙ ap (λ b. text_eq c.card_id id || b) (has-sort_by less id cs)

  -- Every card of the ID is left out.
  has-select_none :
      (p : Card Double → Bool) (id : Text) (cs : Cards F)
      → ((c : Card Double) → c.card_id ≡ id → p c ≡ false)
      → has id (select F p cs) ≡ false
  unfolding select has
  has-select_none p id [] h = refl
  has-select_none p id (c ∷ cs) h = elim (Bool-cases (p c)) [
    | inr b ↦ rw b (has-select_none p id cs h)
    | inl b ↦ rw b (elim (Bool-cases (text_eq c.card_id id)) [
      | inl t ↦ absurd (let f = h c (text_eq_sound c.card_id id t) in cc (b, f))
      | inr n ↦ rw n (has-select_none p id cs h)
    ])
  ]

  or_true : (b : Bool) → (b || true) ≡ true
  or_true true = refl
  or_true false = refl

  some_card : {a b : Card Double} → Path (Option (Card Double)) (some a) (some b) → a ≡ b
  some_card e = cc

  by_id-card_id :
      (cs : Cards F) (id : Text) (t : Card Double) → by_id F cs id ≡ some t → t.card_id ≡ id
  unfolding by_id
  by_id-card_id [] id t e = cc
  by_id-card_id (c ∷ cs) id t e = elim (Option-cases (by_id F cs id)) [
    | inr (d, n) ↦ by_id-card_id cs id t (n ∙ (rw n at e))
    | inl n ↦ elim (Bool-cases (text_eq c.card_id id)) [
      | inl b ↦
          ap (λ x. x.card_id) (sym (some_card (rw (n, b) at e))) ∙ text_eq_sound c.card_id id b
      | inr b ↦ absurd (cc (rw (n, b) at e))
    ]
  ]

  -- The card that the map holds is one of the cards.
  has-select-by_id :
      (p : Card Double → Bool) (id : Text) (cs : Cards F) (t : Card Double)
      → by_id F cs id ≡ some t
      → p t ≡ true
      → has id (select F p cs) ≡ true
  unfolding select has by_id
  has-select-by_id p id [] t e h = cc
  has-select-by_id p id (c ∷ cs) t e h = elim (Option-cases (by_id F cs id)) [
    | inr (d, n) ↦
        let below = has-select-by_id p id cs t (n ∙ (rw n at e)) h in
        elim (Bool-cases (p c)) [
          | inl b ↦ rw b (rw below (or_true (text_eq c.card_id id)))
          | inr b ↦ rw b below
        ]
    | inl n ↦ elim (Bool-cases (text_eq c.card_id id)) [
      | inl b ↦
          let same : c ≡ t = some_card (rw (n, b) at e) in
          let kept : p c ≡ true = ap p same ∙ h in rw kept (rw b)
      | inr b ↦ absurd (cc (rw (n, b) at e))
    ]
  ]

  -- The siblings of a live target that are looked at, by the target's ID.
  abbrev pub beside : Cards F → Card Double → Text → Option ℕ
  beside cards target card_id =
      index_of F target.card_id
        (siblings_for_parent F cards (normalize_parent_id target.parent_card_id) card_id)

  none-is_some : (o : Option ℕ) → o ≡ none → is_some o ≡ false
  none-is_some none e = refl
  none-is_some (some n) e = cc

  is_some-none : (o : Option ℕ) → is_some o ≡ false → o ≡ none
  is_some-none none e = refl
  is_some-none (some n) e = cc

  true-false : Path Bool true false → ⊥
  true-false e = cc

  -- the test of `siblings_for_parent`
  abbrev is_sibling : Option Text → Text → Card Double → Bool
  is_sibling parent exclude_card_id c =
      not (is_deleted c)
      && (not (text_eq c.card_id exclude_card_id)
          && opt_text_eq (normalize_parent_id c.parent_card_id) (normalize_parent_id parent))

  is_sibling_self :
      (target : Card Double) (card_id : Text)
      → is_deleted target ≡ false
      → text_eq target.card_id card_id ≡ false
      → is_sibling (normalize_parent_id target.parent_card_id) card_id target ≡ true
  is_sibling_self target card_id l b = rw l (
      rw b (
        rw (normalize_idem target.parent_card_id)
          ((opt_text_eq_iff (normalize_parent_id target.parent_card_id) _).1 refl)))

  excluded :
      (parent : Option Text) (card_id : Text) (c : Card Double)
      → c.card_id ≡ card_id
      → is_sibling parent card_id c ≡ false
  excluded parent card_id c e = rw e (rw (text_eq_refl card_id) (and_false (not (is_deleted c))))

  pub beside_missing :
      (cards : Cards F) (id : Text) (target : Card Double) (card_id : Text)
      → by_id F cards id ≡ some target
      → is_deleted target ≡ false
      → beside cards target card_id ≡ none
      → target.card_id ≡ card_id
  unfolding siblings_for_parent
  beside_missing cards id target card_id e l n =
      elim (Bool-cases (text_eq target.card_id card_id)) [
        | inl b ↦ text_eq_sound target.card_id card_id b
        | inr b ↦
            let here : by_id F cards target.card_id ≡ some target =
              ap (λ x. by_id F cards x) (by_id-card_id cards id target e) ∙ e in
            let there : is_some (beside cards target card_id) ≡ true =
              is_some-index_of target.card_id _
              ∙ has-sort_by (card_tree_less F) target.card_id _
              ∙ has-select-by_id _ target.card_id cards target here
                  (is_sibling_self target card_id l b) in
            absurd (true-false (sym there ∙ none-is_some _ n))
      ]

  pub beside_itself :
      (cards : Cards F) (target : Card Double) (card_id : Text)
      → target.card_id ≡ card_id
      → beside cards target card_id ≡ none
  unfolding siblings_for_parent
  beside_itself cards target card_id e = is_some-none _ (
      is_some-index_of target.card_id _
      ∙ has-sort_by (card_tree_less F) target.card_id _
      ∙ has-select_none _ target.card_id cards (λ c s. excluded _ card_id c (s ∙ e)))
