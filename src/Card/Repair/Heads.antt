-- ===== src/Card/Repair/Heads.antt =====
-- Which branches a repair moves.
use holder_core.Common.{
  ℕ, zero, suc, ◌≡◌, refl, inl, inr, ◌⊎◌, Bool, true, false, Option, none, some, List, [], ◌∷◌,
  ◌++◌, Text, contains, Bool-cases, Option-cases, sym, ap, All, subst, ◌∙◌, length, arith, ◌<◌,
}
use holder_core.Card.{Floats, Card, is_deleted}
use holder_core.Card.Repo.{Cards, get}
use holder_core.Card.Result.{Result, ok, bind_succeeds, ◌>>=◌}
use holder_core.Card.Hierarchy.Fuel.{unvisited, unvisited-le, unvisited-get}
use holder_core.Card.Repair.{
  cycle, Walked, ends, meet, walk_up, Head, destination_at, note_card, scan_cards, Scan, hidden,
}

module _ (F : Floats) where
  open F use {Double}

  -- an ancestor that hides what is below it: missing or in the trash
  abbrev pub hides : Option (Card Double) → Bool
  hides none = true
  hides (some a) = is_deleted a

  -- a live card under a parent that hides it
  abbrev pub IsHidden : Cards F → Head F → Type 0
  IsHidden by_id h =
      (is_deleted h.card ≡ false)
      × (parent : Text) × (h.card.parent_card_id ≡ some parent)
      × (hides (get F by_id parent) ≡ true)

  ok_ends :
      {d d' : Option Text} {m m' : Cards F}
      → Path (Result (Walked F)) (ok (ends d m)) (ok (ends d' m'))
      → m ≡ m'
  ok_ends h = cc

  -- The walk adds to what it has met.
  walk_up-keeps :
      (fuel : ℕ) (by_id : Cards F) (visited : List Text) (next d d' : Option Text) (a : Card Double)
      (m m' : Cards F)
      → walk_up F fuel by_id visited next d (a ∷ m) ≡ ok (ends d' m')
      → (rest : Cards F) × (m' ≡ a ∷ rest)
  unfolding walk_up meet
  walk_up-keeps zero by_id visited next d d' a m m' h = absurd (cc h)
  walk_up-keeps (suc fuel) by_id visited none d d' a m m' h = (m, sym (ok_ends h))
  walk_up-keeps (suc fuel) by_id visited (some id) d d' a m m' h =
      elim (Bool-cases (contains id visited)) [
        | inl b ↦ absurd (cc (rw b at h))
        | inr b ↦ elim (Option-cases (get F by_id id)) [
          | inl n ↦ (m, sym (ok_ends (rw (b, n) at h)))
          | inr (c, n) ↦
              walk_up-keeps fuel by_id (id ∷ visited) c.parent_card_id (destination_at F c d) d' a
                (m ++ c ∷ []) m' (rw (b, n) at h)
        ]
      ]

  -- The first that a walk meets is the parent.
  walk_up-first :
      (fuel : ℕ) (by_id : Cards F) (visited : List Text) (id : Text) (d d' : Option Text)
      (m' : Cards F)
      → walk_up F fuel by_id visited (some id) d [] ≡ ok (ends d' m')
      → ((get F by_id id ≡ none) × (m' ≡ []))
        ⊎ ((a : Card Double) × (rest : Cards F) × (get F by_id id ≡ some a) × (m' ≡ a ∷ rest))
  unfolding walk_up meet
  walk_up-first zero by_id visited id d d' m' h = absurd (cc h)
  walk_up-first (suc fuel) by_id visited id d d' m' h = elim (Bool-cases (contains id visited)) [
    | inl b ↦ absurd (cc (rw b at h))
    | inr b ↦ elim (Option-cases (get F by_id id)) [
      | inl n ↦ inl (n, sym (ok_ends (rw (b, n) at h)))
      | inr (c, n) ↦
          let (rest, e) =
            walk_up-keeps fuel by_id (id ∷ visited) c.parent_card_id (destination_at F c d) d' c []
              m' (rw (b, n) at h) in
          inr (c, rest, n, e)
    ]
  ]

  head_eq : {a b : Card Double} {m n : Cards F} → Path (Cards F) (a ∷ m) (b ∷ n) → a ≡ b
  head_eq h = cc

  -- What a walk that ends says of the parent.
  hides_parent :
      (fuel : ℕ) (by_id : Cards F) (visited : List Text) (id : Text) (d d' : Option Text)
      (m' : Cards F)
      → walk_up F fuel by_id visited (some id) d [] ≡ ok (ends d' m')
      → hides (get F by_id id) ≡ elim m' [ [] ↦ true | a ∷ rest ↦ is_deleted a ]
  hides_parent fuel by_id visited id d d' [] h =
      elim (walk_up-first fuel by_id visited id d d' [] h) [
        | inl (n, e) ↦ rw n
        | inr (a, rest, n, e) ↦ absurd (cc e)
      ]
  hides_parent fuel by_id visited id d d' (p ∷ met) h =
      elim (walk_up-first fuel by_id visited id d d' (p ∷ met) h) [
        | inl (n, e) ↦ absurd (cc e)
        | inr (a, rest, n, e) ↦ rw n (ap is_deleted (sym (head_eq e)))
      ]

  note_card-IsHidden :
      (fuel : ℕ) (by_id : Cards F) (visited : List Text) (c : Card Double) (parent : Text)
      (walked : Walked F) (scan : Scan F)
      → is_deleted c ≡ false
      → c.parent_card_id ≡ some parent
      → walk_up F fuel by_id visited (some parent) none [] ≡ ok walked
      → All (IsHidden by_id) scan.heads
      → All (IsHidden by_id) (note_card F c walked scan).heads
  unfolding note_card hidden
  note_card-IsHidden fuel by_id visited c parent cycle scan l p w hs = hs
  note_card-IsHidden fuel by_id visited c parent (ends d []) scan l p w hs =
      ((l, parent, p, hides_parent fuel by_id visited parent none d [] w), hs)
  note_card-IsHidden fuel by_id visited c parent (ends d (a ∷ met)) scan l p w hs =
      elim (Bool-cases (is_deleted a)) [
        | inl t ↦
            rw t ((l, parent, p, hides_parent fuel by_id visited parent none d (a ∷ met) w ∙ t), hs)
        | inr f ↦ rw f hs
      ]

  ok_eq : {A : Type 0} {a b : A} → Path (Result A) (ok a) (ok b) → a ≡ b
  ok_eq h = cc

  scan_cards-IsHidden :
      (by_id cs : Cards F) (scan : Scan F)
      → scan_cards F by_id cs ≡ ok scan
      → All (IsHidden by_id) scan.heads
  unfolding scan_cards
  scan_cards-IsHidden by_id [] scan h =
      subst (λ (x : Scan F). All (IsHidden by_id) x.heads) (ok_eq h) tt
  scan_cards-IsHidden by_id (c ∷ cs) scan h = elim (Option-cases c.parent_card_id) [
    | inl n ↦ scan_cards-IsHidden by_id cs scan (rw (n, scan_cards) at h)
    | inr (parent, n) ↦ elim (Bool-cases (is_deleted c)) [
      | inl d ↦ scan_cards-IsHidden by_id cs scan (rw (n, d, scan_cards) at h)
      | inr d ↦
          let (walked, w, rest) =
            bind_succeeds
              (walk_up F (suc (length by_id)) by_id (c.card_id ∷ []) (some parent) none [])
              (λ walked. scan_cards F by_id cs >>= λ scan. ok (note_card F c walked scan)) scan
              (rw (n, d, scan_cards) at h) in
          let (below, s, e) =
            bind_succeeds (scan_cards F by_id cs) (λ scan. ok (note_card F c walked scan)) scan
              rest in
          subst (λ (x : Scan F). All (IsHidden by_id) x.heads) (ok_eq e)
            (note_card-IsHidden (suc (length by_id)) by_id (c.card_id ∷ []) c parent walked below d
              n w (scan_cards-IsHidden by_id cs below s))
    ]
  ]

  -- The walk comes to an end or to a cycle, on every table.
  walk_up_total :
      (fuel : ℕ) (by_id : Cards F) (visited : List Text) (next destination : Option Text)
      (met : Cards F)
      → unvisited F visited by_id < fuel
      → (walked : Walked F) × (walk_up F fuel by_id visited next destination met ≡ ok walked)
  unfolding walk_up meet
  walk_up_total zero by_id visited next destination met lt = absurd (omega (arith, lt))
  walk_up_total (suc fuel) by_id visited none destination met lt = (_, refl)
  walk_up_total (suc fuel) by_id visited (some id) destination met lt =
      elim (Bool-cases (contains id visited)) [
        | inl b ↦ (cycle, rw b)
        | inr b ↦ elim (Option-cases (get F by_id id)) [
          | inl n ↦ (ends none met, rw b (rw (n, meet)))
          | inr (a, n) ↦
              let (walked, e) =
                walk_up_total fuel by_id (id ∷ visited) a.parent_card_id
                  (destination_at F a destination) (met ++ a ∷ [])
                  (omega (arith, lt, unvisited-get F id visited by_id a n b)) in
              (walked, rw b (rw (n, meet) e))
        ]
      ]

  then_ok :
      {A B : Type 0} (m : Result A) (f : A → Result B) {a : A} {b : B}
      → m ≡ ok a
      → f a ≡ ok b
      → (m >>= f) ≡ ok b
  then_ok m f h k = rw h k

  scan_cards_total : (by_id cs : Cards F) → (scan : Scan F) × (scan_cards F by_id cs ≡ ok scan)
  unfolding scan_cards
  scan_cards_total by_id [] = (_, refl)
  scan_cards_total by_id (c ∷ cs) = elim (Option-cases c.parent_card_id) [
    | inl n ↦ rw (n, scan_cards) (scan_cards_total by_id cs)
    | inr (parent, n) ↦
        rw (n, scan_cards)
          (elim (Bool-cases (is_deleted c)) [
            | inl d ↦ rw d (scan_cards_total by_id cs)
            | inr d ↦
                let (below, e) = scan_cards_total by_id cs in
                let (walked, w) =
                  walk_up_total (suc (length by_id)) by_id (c.card_id ∷ []) (some parent) none []
                    (omega (arith, unvisited-le F (c.card_id ∷ []) by_id)) in
                rw d (_, then_ok _ _ w (then_ok _ _ e refl))
          ])
  ]

  -- On every table, the scan of `plan_hierarchy_repair` ends, and each branch that it finds to
  -- move is headed by a live card whose parent is not in the table or is in the trash.
  pub scan_cards_finds :
      (by_id cs : Cards F)
      → (scan : Scan F) × (scan_cards F by_id cs ≡ ok scan) × All (IsHidden by_id) scan.heads
  scan_cards_finds by_id cs =
      let (scan, e) = scan_cards_total by_id cs in (scan, e, scan_cards-IsHidden by_id cs scan e)
