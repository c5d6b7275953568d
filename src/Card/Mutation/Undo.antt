-- ===== src/Card/Mutation/Undo.antt =====
-- The loop of `recover_journal` that undoes what was not committed, one file after the other: each
-- comes to what `undone` says of what it holds.
use holder_core.Common.{
  ◌≤◌, ◌<◌, true, false, Option, none, some, List, [], ◌∷◌, ◌≡◌, refl, inl, inr, arith, Text,
  Bool-cases, Option-cases, All, length, sym, if◌then◌else◌, opt_text_eq, text_eq_refl, text_lt,
}
use holder_core.Card.Mutation.{Place, project_file, place_eq, JournalFile, Git, World, done, next}
use holder_core.Card.Mutation.Journal.{journal_file_path, is_recovery_path, snapshot}
use holder_core.Card.Mutation.Recovery.{undo_file, undo_files}
use holder_core.Card.Mutation.Places.{is_journaled, is_touched}
use holder_core.Card.Mutation.Frame.{undo_file-Frame}
use holder_core.Card.Mutation.Phases.{Frame-refl}
use holder_core.Card.Mutation.Restores.{
  Restored, Restored-none, Restored-trans, restore-Restored, absent-Restored,
}
use holder_core.Card.Mutation.Sorted.{IsSorted, Below, text_lt_ne}

-- A file that holds what the operation meant to write goes back, and any other content stays.
unfoldable pub undone : JournalFile → Option Text → Option Text
undone f now = elim (f.after) [
  | none ↦ now
  | some after ↦ if opt_text_eq now after then f.before else now
]

unfoldable pub AllValid : List JournalFile → Type 0
AllValid fs = All (λ (f : JournalFile). is_recovery_path f.key ≡ true) fs

other_untouched :
    (f g : JournalFile)
    → text_lt f.key g.key ≡ true
    → is_touched (f ∷ []) (project_file g.key) ≡ false
unfolding is_touched is_journaled place_eq
other_untouched f g h = ground (arith, text_lt_ne f.key g.key)

self_touched : (f : JournalFile) → is_touched (f ∷ []) (project_file f.key) ≡ true
unfolding is_touched is_journaled place_eq
self_touched f = ground (arith, text_eq_refl f.key)

module _ {G : Git} (orig : Place → Option Text) where
  -- the aim for each file, against what it holds
  unfoldable pub Aims : World G → List JournalFile → Type 0
  Aims w fs =
      All (λ (f : JournalFile). orig (project_file f.key) ≡ undone f (w.disk (project_file f.key)))
        fs

  undo_file-Restored :
      (f : JournalFile) (w : World G)
      → is_recovery_path f.key ≡ true
      → orig (project_file f.key) ≡ undone f (w.disk (project_file f.key))
      → 0 < w.writes_left
      → (w' : World G) × (undo_file G f f.after w ≡ (done tt, w'))
        × Restored orig (place_eq (project_file f.key)) 1 w w'
  unfolding undo_file undone next journal_file_path snapshot
  undo_file-Restored f w v aim left = elim (Option-cases f.after) [
    | inl a ↦ (w, rw a, absent-Restored (project_file f.key) w (sym (rw a at aim)))
    | inr (after, a) ↦ elim (Bool-cases (opt_text_eq (w.disk (project_file f.key)) after)) [
      | inl t ↦
          let (w1, e1, r1) =
            restore-Restored (project_file f.key) f.before w (rw (a, t) at aim) left in
          (w1, rw a (rw v (rw t e1)), r1)
      | inr n ↦
          (w, rw a (rw v (rw n)), absent-Restored (project_file f.key) w (sym (rw (a, n) at aim)))
    ]
  ]

  -- Undoing one file leaves the others alone.
  Aims-next :
      (f : JournalFile) (fs : List JournalFile) (w w1 : World G)
      → undo_file G f f.after w ≡ (done tt, w1)
      → Below f.key fs
      → Aims w fs
      → Aims w1 fs
  unfolding Below Aims
  Aims-next f [] w w1 e b h = tt
  Aims-next f (g ∷ gs) w w1 e b h =
      let frame =
        undo_file-Frame {G = G} {fs = f ∷ []} {first = w} f f.after w (self_touched f)
          (Frame-refl w) in
      let kept = (rw e at frame) in
      (
        rw (kept.others (project_file g.key) (other_untouched f g b.0)) h.0,
        Aims-next f gs w w1 e b.1 h.1,
      )

  pub undo_files-Restored :
      (fs : List JournalFile) (w : World G)
      → AllValid fs
      → IsSorted fs
      → Aims w fs
      → length fs ≤ w.writes_left
      → (w' : World G) × (undo_files G fs w ≡ (done tt, w'))
        × Restored orig (is_journaled fs) (length fs) w w'
  unfolding undo_files next is_journaled IsSorted AllValid Aims
  undo_files-Restored [] w v s h left = (w, refl, Restored-none w)
  undo_files-Restored (f ∷ fs) w v s h left =
      let (w1, e1, r1) = undo_file-Restored f w v.0 h.0 (omega (arith, left)) in
      let (w2, e2, r2) =
        undo_files-Restored fs w1 v.1 s.1 (Aims-next f fs w w1 e1 s.0 h.1)
          (omega (arith, left, r1.left)) in
      (w2, rw e1 e2, Restored-trans (omega arith) r1 r2)
