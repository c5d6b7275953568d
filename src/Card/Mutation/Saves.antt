-- ===== src/Card/Mutation/Saves.antt =====
-- What the constructor of a card change saves: the files and the index as they are, and a branch
-- whose commit is the saved head.
use holder_core.Common.{
  Bool, true, false, Option, none, some, List, [], ◌∷◌, ◌≡◌, refl, inl, inr, ◌∙◌, Text, Bool-cases,
  Option-cases, All, if◌then◌else◌, subst,
}
use holder_core.Card.Mutation.{
  Fault, Lookup, found, missing, failed, project_file, git_index, journal_file, JournalFile,
  SavedState, Git, World, Outcome, killed, thrown, done, Run, next, check, exists, throw, pure,
  Place,
}
use holder_core.Card.Mutation.Journal.{
  journal_file_path, is_recovery_path, snapshot, set_after, snapshot_files, intend,
  head_reference_name, saved_branch, open_index, saved_with, construct_in, construct,
}
use holder_core.Card.Mutation.Recovery.{branch_tip}
use holder_core.Card.Mutation.Restores.{SavedFrom}
use holder_core.Card.Mutation.Sorted.{
  IsSorted, set_file-All, set_after-All, set_file-IsSorted, set_after-IsSorted,
}

-- What the code relies on in libgit2: equality of IDs, and that HEAD names a branch whose commit,
-- if it has one, is HEAD's.
pub record IsGit (G : Git) : Type 0 where
  pub oid_refl : (oid : G.Oid) → G.oid_equal oid oid ≡ true
  pub head_named :
      (r : G.Repo) (h : Text × G.Oid)
      → G.repository_head r ≡ found h
      → G.name_to_id r h.0 ≡ found (h.1)
  pub head_unborn :
      (r : G.Repo) (name : Text)
      → G.repository_head r ≡ missing
      → G.symbolic_head r ≡ found name
      → G.name_to_id r name ≡ missing

-- What a card change has saved, against the world it starts in.
pub record IsSaved (G : Git) (r : G.Repo) (w : World G) (saved : SavedState G.Oid) : Type 0 where
  pub version : saved.version ≡ 2
  pub files : All (SavedFrom w.disk) saved.files
  pub sorted : IsSorted saved.files
  pub index : w.disk git_index ≡ saved.index
  pub tip : branch_tip G r saved ≡ some saved.head
  pub clear : w.disk (journal_file true) ≡ none

-- A step that is done has done its first part, and the rest from there.
pub next_done :
    {G : Git} {A B : Type 0} (m : Outcome A × World G) (f : A → Run G B) (b : B) (w' : World G)
    → next m f ≡ (done b, w')
    → (a : A) × (w1 : World G) × (m ≡ (done a, w1)) × (f a w1 ≡ (done b, w'))
unfolding next
next_done (killed, w) f b w' h = cc
next_done (thrown fault, w) f b w' h = cc
next_done (done a, w) f b w' h = (a, w, refl, h)

-- the files as they are, by the order of their keys
abbrev SnapshotOf : (Place → Option Text) → List JournalFile → Type 0
SnapshotOf disk files = All (SavedFrom disk) files × IsSorted files

module _ {G : Git} where
  pub done_eq :
      {A : Type 0} {a b : A} {w w' : World G}
      → Path (Outcome A × World G) (done a, w) (done b, w')
      → (w' ≡ w) × (a ≡ b)
  done_eq h = (cc, cc)

  check_done :
      {A : Type 0} (o : Option A) {a : A} {w w' : World G} → check o w ≡ (done a, w') → w' ≡ w
  unfolding check
  check_done none h = cc
  check_done (some a) h = (done_eq h).0

  unless_done :
      {A : Type 0} (b : Bool) (fault : Fault) {a a' : A} {w w' : World G}
      → (if b then throw {A = A} fault else pure a) w ≡ (done a', w')
      → (w' ≡ w) × (a ≡ a')
  unless_done true fault h = absurd (cc h)
  unless_done false fault h = done_eq h

  keeps_files :
      {files files' : List JournalFile} {w w' : World G}
      → Path (Outcome (List JournalFile) × World G) (done files, w) (done files', w')
      → SnapshotOf w.disk files
      → (w' ≡ w) × SnapshotOf w.disk files'
  keeps_files {w} e h = ((done_eq e).0, subst (SnapshotOf w.disk) (done_eq e).1 h)

  snapshot_files-Saved :
      (paths : List Text) (files files' : List JournalFile) (w w' : World G)
      → snapshot_files G paths files w ≡ (done files', w')
      → SnapshotOf w.disk files
      → (w' ≡ w) × SnapshotOf w.disk files'
  unfolding snapshot_files next journal_file_path snapshot
  snapshot_files-Saved [] files files' w w' e h = keeps_files e h
  snapshot_files-Saved (path ∷ paths) files files' w w' e h =
      elim (Bool-cases (is_recovery_path path)) [
        | inl v ↦
            snapshot_files-Saved paths _ files' w w' (rw v at e)
              (set_file-All (SavedFrom w.disk) _ files (v, refl) h.0, set_file-IsSorted _ files h.1)
        | inr v ↦ absurd (cc (rw v at e))
      ]

  intend-Saved :
      (changes : List (Text × Option Text)) (files files' : List JournalFile) (w w' : World G)
      → intend G changes files w ≡ (done files', w')
      → SnapshotOf w.disk files
      → (w' ≡ w) × SnapshotOf w.disk files'
  unfolding intend next
  intend-Saved [] files files' w w' e h = keeps_files e h
  intend-Saved ((path, bytes) ∷ changes) files files' w w' e h =
      elim (Option-cases (set_after path bytes files)) [
        | inl n ↦ absurd (cc (rw (n, intend) at e))
        | inr (next_files, n) ↦ intend-Saved changes next_files files' w w' (rw (n, intend) at e) (
          set_after-All
              (λ key before. (is_recovery_path key ≡ true) × (w.disk (project_file key) ≡ before))
              path bytes files next_files n h.0,
          set_after-IsSorted path bytes files next_files n h.1,
        )
      ]

module _ {G : Git} (laws : IsGit G) where
  -- The tip of the branch that was saved is the head that was saved.
  saved_branch_tip :
      (r : G.Repo) (h : Lookup (Text × G.Oid)) (s : Lookup Text) (branch : Text × Option G.Oid)
      (w w' : World G)
      → G.repository_head r ≡ h
      → G.symbolic_head r ≡ s
      → saved_branch G r w ≡ (done branch, w')
      → (saved : SavedState G.Oid) → saved.reference ≡ some (branch.0)
      → (w' ≡ w) × (branch_tip G r saved ≡ some (branch.1))
  unfolding saved_branch head_reference_name branch_tip next
  saved_branch_tip r (found (name, oid)) s branch w w' a b e saved ref =
      let (same_world, same_branch) = done_eq (rw (a, saved_branch) at e) in
      (
        same_world,
        subst (λ x. saved.reference ≡ some (x.0) → branch_tip G r saved ≡ some (x.1)) same_branch
            (λ named. rw (named, branch_tip) (rw (laws.head_named r (name, oid) a))) ref,
      )
  saved_branch_tip r missing (found name) branch w w' a b e saved ref =
      let (same_world, same_branch) = done_eq (rw (a, b, saved_branch, head_reference_name) at e) in
      (
        same_world,
        subst (λ x. saved.reference ≡ some (x.0) → branch_tip G r saved ≡ some (x.1)) same_branch
            (λ named. rw (named, branch_tip) (rw (laws.head_unborn r name a b))) ref,
      )
  saved_branch_tip r missing missing branch w w' a b e saved ref =
      absurd (cc (rw (a, b, saved_branch, head_reference_name) at e))
  saved_branch_tip r missing failed branch w w' a b e saved ref =
      absurd (cc (rw (a, b, saved_branch, head_reference_name) at e))
  saved_branch_tip r failed s branch w w' a b e saved ref = absurd (cc (rw (a, saved_branch) at e))

  saved_with-Saved :
      (r : G.Repo) (files : List JournalFile) (w w' : World G) (saved : SavedState G.Oid)
      → saved_with G files (some r) w ≡ (done saved, w')
      → SnapshotOf w.disk files
      → w.disk (journal_file true) ≡ none
      → (w' ≡ w) × IsSaved G r w saved
  unfolding saved_with snapshot next open_index
  saved_with-Saved r files w w' saved e h c =
      let (branch, w1, e1, e2) = next_done (saved_branch G r w) _ saved w' e in
      let (current, w2, e3, e4) =
        next_done (check (G.index_open (w1.disk git_index)) w1) _ saved w' e2 in
      let (e5, e6) = unless_done (G.has_conflicts current) Fault.unresolved_conflicts e4 in
      let (e7, tip) =
        saved_branch_tip r (G.repository_head r) (G.symbolic_head r) branch w w1 refl refl e1 _
          refl in
      (
        e5 ∙ check_done (G.index_open (w1.disk git_index)) e3 ∙ e7,
        subst (IsSaved G r w) e6 (record {
          version = refl;
          files = h.0;
          sorted = h.1;
          index = refl;
          tip = tip;
          clear = c;
        }),
      )

  construct_in-Saved :
      (paths : List Text) (changes : List (Text × Option Text)) (r : G.Repo) (w w' : World G)
      (saved : SavedState G.Oid)
      → construct_in G paths changes (some r) w ≡ (done saved, w')
      → w.disk (journal_file true) ≡ none
      → (w' ≡ w) × IsSaved G r w saved
  unfolding construct_in exists IsSorted
  construct_in-Saved paths changes r w w' saved e c =
      let e0 = (rw (c, exists) at e) in
      let (files, w1, e1, e2) = next_done (snapshot_files G paths [] w) _ saved w' e0 in
      let (intended, w2, e3, e4) = next_done (intend G changes files w1) _ saved w' e2 in
      let (s1, h1) = snapshot_files-Saved paths [] files w w1 e1 (tt, tt) in
      let (s2, h2) =
        intend-Saved changes files intended w w2
          (subst (λ x. intend G changes files x ≡ (done intended, w2)) s1 e3) h1 in
      saved_with-Saved r intended w w' saved
        (subst (λ x. saved_with G intended (some r) x ≡ (done saved, w')) s2 e4) h2 c

  pub construct-Saved :
      (paths : List Text) (changes : List (Text × Option Text)) (r : G.Repo) (w w' : World G)
      (saved : SavedState G.Oid)
      → w.repository ≡ found r
      → construct G paths changes w ≡ (done saved, w')
      → (w' ≡ w) × IsSaved G r w saved
  unfolding construct construct_in exists
  construct-Saved paths changes r w w' saved o e =
      let e0 = (rw (o, construct) at e) in
      elim (Option-cases (w.disk (journal_file true))) [
        | inl c ↦ construct_in-Saved paths changes r w w' saved e0 c
        | inr (b, c) ↦ absurd (cc (rw (c, construct_in, exists) at e0))
      ]
