-- ===== src/Card/Mutation/Settles.antt =====
-- What `recover_journal` promises, as a function of the journal and of the branch alone, and that
-- the code does it to every card file.
use holder_core.Common.{
  ℕ, false, Option, none, some, List, [], ◌∷◌, ◌≡◌, refl, inl, inr, arith, Text, Bool-cases, All,
  sym, if◌then◌else◌, text_eq, text_eq_refl, length, ◌≤◌, ◌∙◌, text, Option-cases, ==_iff, true,
}
use holder_core.Card.Mutation.{
  Place, project_file, git_index, place_eq, JournalFile, SavedState, Git, World, next, check, found,
  done, journal_file, ◌>>◌,
}
use holder_core.Card.Mutation.Journal.{restore, construct}
use holder_core.Card.Mutation.Recovery.{
  same, branch_tip, landed_commit, settle, head_is, restore_original_files, recover_in, undo_files,
  recover_journal, recover_files, index_path,
}
use holder_core.Card.Mutation.Places.{is_journaled, is_touched}
use holder_core.Card.Mutation.Frame.{
  restore_index-Frame, restore_unrelated_index-Frame, recover_journal-Frame, next-Frame,
  index_path-Frame,
}
use holder_core.Card.Mutation.Phases.{Frame-refl, opened_found, recover_files_lem}
use holder_core.Card.Mutation.Restores.{Restored, SavedFrom, restore_original_files-Restored}
use holder_core.Card.Mutation.Sorted.{IsSorted, Below, text_lt_ne, some_eq}
use holder_core.Card.Mutation.Undo.{undone, AllValid, Aims, undo_files-Restored}
use holder_core.Card.Mutation.Saves.{IsGit, construct-Saved}

-- What is to become of the files: all back, as nothing was committed since; none, as the commit
-- landed; or back where they hold this operation's bytes, as others committed.
pub data Verdict : Type 0 where
  put_back keep undo : Verdict

unfoldable pub landed_verdict : {Oid : Type 0} → Option Oid → Verdict
landed_verdict none = undo
landed_verdict (some oid) = keep

unfoldable pub verdict : (G : Git) → G.Repo → SavedState G.Oid → Option Verdict
unfolding landed_verdict
verdict G r saved = elim (branch_tip G r saved) [
  | none ↦ none
  | some tip ↦ if same G tip saved.head then some put_back else elim (landed_commit G r saved) [
    | none ↦ none
    | some landed ↦ some (landed_verdict landed)
  ]
]

unfoldable pub settled_file : Verdict → JournalFile → Option Text → Option Text
unfolding undone
settled_file put_back f now = f.before
settled_file keep f now = now
settled_file undo f now = undone f now

-- the card files afterwards, by their paths
unfoldable pub settled : Verdict → List JournalFile → (Text → Option Text) → Text → Option Text
unfolding settled_file
settled v [] cards key = cards key
settled v (f ∷ fs) cards key =
    let rest = settled v fs cards key in
    if text_eq f.key key then settled_file v f (cards key) else rest

module _ (v : Verdict) (cards : Text → Option Text) where
  SettledIn : List JournalFile → List JournalFile → Type 0
  SettledIn fs gs =
      All (λ (g : JournalFile). settled v fs cards g.key ≡ settled_file v g (cards g.key)) gs

  SettledIn-cons :
      (f : JournalFile) (fs gs : List JournalFile)
      → Below f.key gs
      → SettledIn fs gs
      → SettledIn (f ∷ fs) gs
  unfolding Below SettledIn settled
  SettledIn-cons f fs [] b h = tt
  SettledIn-cons f fs (g ∷ gs) b h =
      (rw (text_lt_ne f.key g.key b.0) h.0, SettledIn-cons f fs gs b.1 h.1)

  SettledIn-self : (fs : List JournalFile) → IsSorted fs → SettledIn fs fs
  unfolding IsSorted SettledIn settled
  SettledIn-self [] s = tt
  SettledIn-self (f ∷ fs) s =
      (rw (text_eq_refl f.key), SettledIn-cons f fs fs s.0 (SettledIn-self fs s.1))

  settled_elsewhere :
      (fs : List JournalFile) (key : Text)
      → is_journaled fs (project_file key) ≡ false
      → settled v fs cards key ≡ cards key
  unfolding settled is_journaled place_eq
  settled_elsewhere [] key h = refl
  settled_elsewhere (f ∷ fs) key h = ground (arith, settled_elsewhere fs key)

settled_keep :
    (fs : List JournalFile) (cards : Text → Option Text) (key : Text)
    → settled keep fs cards key ≡ cards key
unfolding settled
settled_keep [] cards key = refl
settled_keep (f ∷ fs) cards key = ground (arith, settled_keep fs cards key)

module _ {G : Git} where
  -- the card files of a world
  abbrev pub cards_of : World G → Text → Option Text
  cards_of w key = w.disk (project_file key)

  -- every file as it is to be: the card files settled, the others as they are
  aim : Verdict → List JournalFile → World G → Place → Option Text
  aim v fs w (project_file key) = settled v fs (cards_of w) key
  aim v fs w p = w.disk p

  -- A run that restores to the aim has settled every card.
  Restored-settled :
      (v : Verdict) (fs : List JournalFile) (w w' : World G) (key : Text) (n : ℕ)
      → Restored (aim v fs w) (is_journaled fs) n w w'
      → cards_of w' key ≡ settled v fs (cards_of w) key
  unfolding aim
  Restored-settled v fs w w' key n h = elim (Bool-cases (is_journaled fs (project_file key))) [
    | inl t ↦ h.back (project_file key) (inl t)
    | inr f ↦ h.back (project_file key) (inr (sym (settled_elsewhere v (cards_of w) fs key f)))
  ]

  SavedFrom-aim :
      (fs gs : List JournalFile) (w : World G)
      → AllValid gs
      → SettledIn put_back (cards_of w) fs gs
      → All (SavedFrom (aim put_back fs w)) gs
  unfolding AllValid SettledIn settled_file aim
  SavedFrom-aim fs [] w v h = tt
  SavedFrom-aim fs (g ∷ gs) w v h = ((v.0, h.0), SavedFrom-aim fs gs w v.1 h.1)

  index_keeps_cards :
      (content : Option Text) (w : World G) (key : Text)
      → cards_of ((index_path G >> restore G git_index content) w).1 key ≡ cards_of w key
  unfolding is_touched is_journaled place_eq
  index_keeps_cards content w key =
      (next-Frame (index_path G w) _ (index_path-Frame {fs = []} w (Frame-refl w))
          λ _ w1 h. restore_index-Frame content w1 h).others
        (project_file key) refl

  put_back-settled :
      (saved : SavedState G.Oid) (w : World G) (key : Text)
      → AllValid saved.files
      → IsSorted saved.files
      → length saved.files ≤ w.writes_left
      → cards_of
          (next
            (restore_original_files G saved.files w)
            (λ _. index_path G >> restore G git_index saved.index)).1
          key
        ≡ settled put_back saved.files (cards_of w) key
  unfolding next
  put_back-settled saved w key v s left =
      let (w1, e1, r1) =
        restore_original_files-Restored {G = G} {orig = aim put_back saved.files w} saved.files w
          (SavedFrom-aim saved.files saved.files w v
            (SettledIn-self put_back (cards_of w) saved.files s))
          left in
      rw e1 (
        index_keeps_cards saved.index w1 key
        ∙ Restored-settled put_back saved.files w w1 key (length saved.files) r1)

  Aims-aim :
      (fs gs : List JournalFile) (w : World G)
      → SettledIn undo (cards_of w) fs gs
      → Aims (aim undo fs w) w gs
  unfolding Aims SettledIn settled_file aim
  Aims-aim fs [] w h = tt
  Aims-aim fs (g ∷ gs) w h = (h.0, Aims-aim fs gs w h.1)

  undo-settled :
      (fs : List JournalFile) (w : World G) (key : Text)
      → AllValid fs
      → IsSorted fs
      → length fs ≤ w.writes_left
      → cards_of (undo_files G fs w).1 key ≡ settled undo fs (cards_of w) key
  undo-settled fs w key v s left =
      let (w1, e1, r1) =
        undo_files-Restored {G = G} (aim undo fs w) fs w v s
          (Aims-aim fs fs w (SettledIn-self undo (cards_of w) fs s)) left in
      rw e1 (Restored-settled undo fs w w1 key (length fs) r1)

  -- A commit that landed: at most the index is written.
  keep-settled :
      (r : G.Repo) (saved : SavedState G.Oid) (landed : G.Oid) (w : World G) (key : Text)
      → cards_of (settle G r saved (some landed) w).1 key ≡ cards_of w key
  unfolding settle is_touched is_journaled place_eq
  keep-settled r saved landed w key =
      elim (Bool-cases (head_is G (G.name_to_id r (text "HEAD")) landed)) [
        | inl t ↦ rw t (
            (restore_unrelated_index-Frame {fs = []} r saved landed w (Frame-refl w)).others
              (project_file key) refl)
        | inr f ↦ rw f
      ]

  module _ (r : G.Repo) (saved : SavedState G.Oid) (w : World G) (key : Text)
      (valid : AllValid saved.files) (sorted : IsSorted saved.files)
      (left : length saved.files ≤ w.writes_left) where
    settle-settled :
        (landed : Option G.Oid)
        → cards_of (settle G r saved landed w).1 key
          ≡ settled (landed_verdict landed) saved.files (cards_of w) key
    unfolding settle landed_verdict
    settle-settled none = undo-settled saved.files w key valid sorted left
    settle-settled (some oid) =
        keep-settled r saved oid w key ∙ sym (settled_keep saved.files (cards_of w) key)

    recover_in-settled :
        (v : Verdict)
        → verdict G r saved ≡ some v
        → cards_of (recover_in G (some r) saved w).1 key ≡ settled v saved.files (cards_of w) key
    unfolding verdict recover_in next check
    recover_in-settled v e = elim (Option-cases (branch_tip G r saved)) [
      | inl n ↦ absurd (cc (rw (n, verdict) at e))
      | inr (tip, t) ↦ elim (Bool-cases (same G tip saved.head)) [
        | inl q ↦
            let is_put_back : v ≡ put_back = sym (some_eq (rw (t, q, verdict) at e)) in
            rw is_put_back (rw (t, check) (rw q (put_back-settled saved w key valid sorted left)))
        | inr q ↦ elim (Option-cases (landed_commit G r saved)) [
          | inl n ↦ absurd (cc (rw (t, q, n, verdict) at e))
          | inr (landed, l) ↦
              let is_landed : v ≡ landed_verdict landed =
                sym (some_eq (rw (t, q, l, verdict) at e)) in
              rw is_landed (rw (t, check) (rw q (rw (l, check) (settle-settled landed))))
        ]
      ]
    ]

    recover_journal-settled :
        (v : Verdict)
        → w.repository ≡ found r
        → saved.version ≡ 2
        → verdict G r saved ≡ some v
        → (cards_of (recover_journal G saved w).1 key ≡ settled v saved.files (cards_of w) key)
          × ((recover_journal G saved w).1.repository ≡ found r)
    unfolding recover_journal
    recover_journal-settled v o two e = (
      rw ((==_iff saved.version 2).1 two) (rw (opened_found w o) (recover_in-settled v e)),
      (recover_journal-Frame G saved w (Frame-refl w)).refs ∙ o,
    )

AllValid-of :
    (disk : Place → Option Text) (fs : List JournalFile) → All (SavedFrom disk) fs → AllValid fs
unfolding AllValid
AllValid-of disk [] h = tt
AllValid-of disk (f ∷ fs) h = (h.0.0, AllValid-of disk fs h.1)

module _ {G : Git} where
  -- Recovery implements its specification `settled` on every card file, whatever the world in
  -- which it finds a journal that the constructor had saved: if the branch is at the saved head,
  -- each file of the journal is back; if the operation's commit is found behind the branch, no
  -- card file changes; otherwise a file goes back exactly if it holds the bytes that the
  -- operation meant to write. In each case no ref moves. Git answers without a fault, and the
  -- process can make as many writes as the journal has files.
  pub recover_files-settled :
      (paths : List Text) (changes : List (Text × Option Text)) (first w0 w : World G)
      (r0 r : G.Repo) (saved : SavedState G.Oid) (v : Verdict) (key : Text)
      → IsGit G
      → G.from_msgpack (G.to_msgpack saved) ≡ some saved
      → first.repository ≡ found r0
      → construct G paths changes first ≡ (done saved, w0)
      → w.repository ≡ found r
      → w.disk (journal_file true) ≡ some (G.to_msgpack saved)
      → length saved.files ≤ w.writes_left
      → verdict G r saved ≡ some v
      → (cards_of (recover_files G w).1 key ≡ settled v saved.files (cards_of w) key)
        × ((recover_files G w).1.repository ≡ found r)
  recover_files-settled paths changes first w0 w r0 r saved v key laws packs o0 built o j left e =
      let (same_world, s) = construct-Saved laws paths changes r0 first w0 saved o0 built in
      rw (recover_files_lem w packs o j) (
        recover_journal-settled r saved w key (AllValid-of first.disk saved.files s.files) s.sorted
          left v o s.version e)
