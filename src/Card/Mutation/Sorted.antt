-- ===== src/Card/Mutation/Sorted.antt =====
-- The keys of a journal: a JSON object keeps them in order, so that no two are the same.
use holder_core.Common.{
  true, false, Option, some, List, [], ◌∷◌, ◌≡◌, refl, inl, inr, arith, Text, Bool-cases,
  Option-cases, All, text_lt, text_eq, text_eq_sound, subst, sym,
}
use holder_core.Card.Mutation.{JournalFile}
use holder_core.Card.Mutation.Journal.{set_file, set_after}

pub set_file-All {κ} :
    (P : JournalFile → Type κ) (f : JournalFile) (gs : List JournalFile)
    → P f
    → All P gs
    → All P (set_file f gs)
unfolding set_file
set_file-All P f [] p h = (p, tt)
set_file-All P f (g ∷ gs) p h = elim (Bool-cases (text_eq f.key g.key)) [
  | inl e ↦ rw e (p, h.1)
  | inr e ↦ rw e (elim (Bool-cases (text_lt f.key g.key)) [
    | inl l ↦ rw l (p, h)
    | inr l ↦ rw l (h.0, set_file-All P f gs p h.1)
  ])
]

pub some_eq : {A : Type 0} {a b : A} → Path (Option A) (some a) (some b) → a ≡ b
some_eq h = cc

-- Setting an `after` keeps what depends on the keys and the bytes before.
pub set_after-All :
    (P : Text → Option Text → Type 0) (key : Text) (bytes : Option Text) (fs fs' : List JournalFile)
    → set_after key bytes fs ≡ some fs'
    → All (λ f. P f.key f.before) fs
    → All (λ f. P f.key f.before) fs'
unfolding set_after
set_after-All P key bytes [] fs' e h = cc
set_after-All P key bytes (f ∷ fs) fs' e h = elim (Bool-cases (text_eq f.key key)) [
  | inl t ↦ subst (All (λ (f : JournalFile). P f.key f.before)) (some_eq (rw t at e)) h
  | inr t ↦ elim (Option-cases (set_after key bytes fs)) [
    | inl n ↦ absurd (cc (rw (t, n) at e))
    | inr (gs, n) ↦
        subst (All (λ (f : JournalFile). P f.key f.before)) (some_eq (rw (t, n) at e))
          (h.0, set_after-All P key bytes fs gs n h.1)
  ]
]

pub text_lt_trans : (a b c : Text) → text_lt a b ≡ true → text_lt b c ≡ true → text_lt a c ≡ true
unfolding text_lt
text_lt_trans [] (y ∷ b) (z ∷ c) h k = refl
text_lt_trans (x ∷ a) (y ∷ b) (z ∷ c) h k = ground (arith, text_lt_trans a b c)
text_lt_trans [] [] c h k = cc
text_lt_trans (x ∷ a) [] c h k = cc
text_lt_trans a (y ∷ b) [] h k = cc

pub text_lt_ne : (a b : Text) → text_lt a b ≡ true → text_eq a b ≡ false
unfolding text_lt text_eq
text_lt_ne [] (y ∷ b) h = refl
text_lt_ne (x ∷ a) (y ∷ b) h = ground (arith, text_lt_ne a b)
text_lt_ne [] [] h = cc
text_lt_ne (x ∷ a) [] h = cc

pub text_lt_total : (a b : Text) → text_eq a b ≡ false → text_lt a b ≡ false → text_lt b a ≡ true
unfolding text_lt text_eq
text_lt_total [] [] e h = cc
text_lt_total [] (y ∷ b) e h = cc
text_lt_total (x ∷ a) [] e h = refl
text_lt_total (x ∷ a) (y ∷ b) e h = ground (arith, text_lt_total a b)

-- the key stands below all of the others
unfoldable pub Below : Text → List JournalFile → Type 0
Below key fs = All (λ (f : JournalFile). text_lt key f.key ≡ true) fs

unfoldable pub IsSorted : List JournalFile → Type 0
unfolding Below
IsSorted [] = Unit
IsSorted (f ∷ fs) = Below f.key fs × IsSorted fs

Below-trans : (a b : Text) (fs : List JournalFile) → text_lt a b ≡ true → Below b fs → Below a fs
unfolding Below
Below-trans a b [] h k = tt
Below-trans a b (f ∷ fs) h k = (text_lt_trans a b f.key h k.0, Below-trans a b fs h k.1)

pub set_file-IsSorted :
    (f : JournalFile) (gs : List JournalFile) → IsSorted gs → IsSorted (set_file f gs)
unfolding set_file IsSorted Below
set_file-IsSorted f [] h = (tt, tt)
set_file-IsSorted f (g ∷ gs) h = elim (Bool-cases (text_eq f.key g.key)) [
  | inl e ↦ rw e (subst (λ k. Below k gs) (sym (text_eq_sound f.key g.key e)) h.0, h.1)
  | inr e ↦ rw e (elim (Bool-cases (text_lt f.key g.key)) [
    | inl l ↦ rw l ((l, Below-trans f.key g.key gs l h.0), h)
    | inr l ↦ rw l (
      set_file-All (λ x. text_lt g.key x.key ≡ true) f gs (text_lt_total f.key g.key e l) h.0,
      set_file-IsSorted f gs h.1,
    )
  ])
]

pub set_after-IsSorted :
    (key : Text) (bytes : Option Text) (fs fs' : List JournalFile)
    → set_after key bytes fs ≡ some fs'
    → IsSorted fs
    → IsSorted fs'
unfolding set_after IsSorted
set_after-IsSorted key bytes [] fs' e h = cc
set_after-IsSorted key bytes (f ∷ fs) fs' e h = elim (Bool-cases (text_eq f.key key)) [
  | inl t ↦ subst IsSorted (some_eq (rw t at e)) h
  | inr t ↦ elim (Option-cases (set_after key bytes fs)) [
    | inl n ↦ absurd (cc (rw (t, n) at e))
    | inr (gs, n) ↦ subst IsSorted (some_eq (rw (t, n) at e)) (
      set_after-All (λ k before. text_lt f.key k ≡ true) key bytes fs gs n h.0,
      set_after-IsSorted key bytes fs gs n h.1,
    )
  ]
]
