-- ===== src/Card/Mutation/Staged.antt =====
-- `preserve_unrelated_index`: behind the commit, the index has the committed state of the paths of
-- the operation, and what was staged before for every other path.
use holder_core.Common.{
  ℕ, suc, ◌≤◌, Bool, false, Option, none, some, List, [], ◌∷◌, ◌≡◌, refl, inl, inr, ◌∙◌, arith,
  Text, text_eq, Bool-cases, Option-cases, ℕ-cases, ◌||◌, if◌then◌else◌, ap, text_eq_sound, sym,
}
use holder_core.Card.Mutation.{
  Lookup, found, missing, failed, Place, git_index, JournalFile, SavedState, Git, World, done, next,
  put, check, write_file, write_within,
}
use holder_core.Card.Mutation.Journal.{
  index_drop, take_entry, take_staged, open_index, write_index, preserve_in,
  preserve_unrelated_index, snapshot,
}
use holder_core.Card.Mutation.Places.{place_eq_refl, put_self}
use holder_core.Card.Mutation.Phases.{opened_found}
use holder_core.Card.Mutation.Restores.{restore-Restored}
use holder_core.Card.Mutation.Sorted.{some_eq}

-- What the code relies on in the index of libgit2: an entry that was found under a path goes to
-- that path when it is added, and removal takes the entry of a path.
pub record IsIndex (G : Git) : Type 0 where
  pub get-add :
      (from to to' : G.Index) (entry : G.IndexEntry) (path other : Text)
      → G.index_get from path ≡ some entry
      → G.index_add to entry ≡ some to'
      → G.index_get to' other ≡ (if text_eq path other then some entry else G.index_get to other)
  pub get-remove :
      (index index' : G.Index) (path other : Text)
      → G.index_remove index path ≡ found index'
      → G.index_get index' other ≡ (if text_eq path other then none else G.index_get index other)
  pub remove_missing :
      (index : G.Index) (path : Text)
      → G.index_remove index path ≡ missing
      → G.index_get index path ≡ none

-- a path of the operation
unfoldable pub is_operation_path : List JournalFile → Text → Bool
is_operation_path [] path = false
is_operation_path (f ∷ fs) path = text_eq f.key path || is_operation_path fs path

module _ {G : Git} (laws : IsIndex G) where
  index_drop-get :
      (l : Lookup G.Index) (index index' : G.Index) (path other : Text)
      → G.index_remove index path ≡ l
      → index_drop G index path ≡ some index'
      → G.index_get index' other ≡ (if text_eq path other then none else G.index_get index other)
  unfolding index_drop
  index_drop-get (found i) index index' path other r e =
      let removed : i ≡ index' = some_eq (rw (r, index_drop) at e) in
      laws.get-remove index index' path other (r ∙ ap found removed)
  index_drop-get missing index index' path other r e =
      let kept : index ≡ index' = some_eq (rw (r, index_drop) at e) in
      rw (← kept) (elim (Bool-cases (text_eq path other)) [
        | inl t ↦ rw t (
            ap (G.index_get index) (sym (text_eq_sound path other t))
            ∙ laws.remove_missing index path r)
        | inr f ↦ rw f
      ])
  index_drop-get failed index index' path other r e = absurd (cc (rw (r, index_drop) at e))

  take_entry-get :
      (from to to' : G.Index) (path other : Text)
      → take_entry G (G.index_get from path) path to ≡ some to'
      → G.index_get to' other
        ≡ (if text_eq path other then G.index_get from path else G.index_get to other)
  unfolding take_entry
  take_entry-get from to to' path other e = elim (Option-cases (G.index_get from path)) [
    | inl n ↦ rw n (index_drop-get (G.index_remove to path) to to' path other refl (rw n at e))
    | inr (entry, n) ↦ rw n (laws.get-add from to to' entry path other n (rw n at e))
  ]

  overlaid :
      (f : JournalFile) (fs : List JournalFile) (committed original step updated : G.Index)
      (path : Text)
      → G.index_get step path
        ≡ (if text_eq f.key path then G.index_get committed f.key else G.index_get original path)
      → G.index_get updated path
        ≡ (if is_operation_path fs path then G.index_get committed path else G.index_get step path)
      → G.index_get updated path ≡ (
          if text_eq f.key path || is_operation_path fs path
          then G.index_get committed path
          else G.index_get original path)
  overlaid f fs committed original step updated path here there =
      ground (arith, text_eq_sound f.key path)

  take_staged-get :
      (committed original updated : G.Index) (fs : List JournalFile) (path : Text)
      → take_staged G committed fs original ≡ some updated
      → G.index_get updated path ≡ (
          if is_operation_path fs path
          then G.index_get committed path
          else G.index_get original path)
  unfolding take_staged is_operation_path
  take_staged-get committed original updated [] path e =
      ap (λ x. G.index_get x path) (sym (some_eq e))
  take_staged-get committed original updated (f ∷ fs) path e =
      elim (Option-cases (take_entry G (G.index_get committed f.key) f.key original)) [
        | inl n ↦ absurd (cc (rw (n, take_staged) at e))
        | inr (step, n) ↦
            let here = take_entry-get committed original step f.key path n in
            let there = take_staged-get committed step updated fs path (rw (n, take_staged) at e) in
            overlaid f fs committed original step updated path here there
      ]

  write_index_lem :
      (index : G.Index) (n : ℕ) (w : World G)
      → w.writes_left ≡ suc n
      → write_index G index w ≡ (
        done tt,
        record w { writes_left = n; disk = put w.disk git_index (some (G.index_bytes index)) },
      )
  unfolding write_index write_file write_within
  write_index_lem index n w s =
      ap (λ k. write_within k git_index w.torn (some (G.index_bytes index)) w) s

  -- Where libgit2 takes each change of the index, `preserve_unrelated_index` ends, and the index
  -- then has the committed entry, or none, for each path of the operation, and for every other
  -- path what was staged before the operation.
  pub preserve_unrelated_index-get :
      (r : G.Repo) (saved : SavedState G.Oid) (w : World G) (committed original updated : G.Index)
      (path : Text)
      → w.repository ≡ found r
      → G.index_open (w.disk git_index) ≡ some committed
      → G.index_open saved.index ≡ some original
      → take_staged G committed saved.files original ≡ some updated
      → G.index_open (some (G.index_bytes updated)) ≡ some updated
      → 2 ≤ w.writes_left
      → (w' : World G) × (preserve_unrelated_index G saved w ≡ (done tt, w'))
        × (G.index_open (w'.disk git_index) ≡ some updated)
        × (G.index_get updated path ≡ (
            if is_operation_path saved.files path
            then G.index_get committed path
            else G.index_get original path))
  unfolding preserve_unrelated_index preserve_in open_index snapshot check next write_index
      write_file write_within
  preserve_unrelated_index-get r saved w committed original updated path o c i taken reopens left =
      let orig : Place → Option Text = λ _. saved.index in
      let (w1, e1, r1) =
        restore-Restored {G = G} {orig = orig} git_index saved.index w refl (omega (arith, left)) in
      let reopened = ap (G.index_open) (r1.back git_index (inl (place_eq_refl git_index))) ∙ i in
      elim (ℕ-cases w1.writes_left) [
        | inl z ↦ absurd (omega (arith, left, r1.left, z))
        | inr (n, s) ↦ (
          record w1 {
            writes_left = n;
            disk = put w1.disk git_index (some (G.index_bytes updated));
          },
          rw (opened_found w o) (
              rw (c, check)
                (rw e1
                  (rw (reopened, check) (rw (taken, check) (write_index_lem updated n w1 s))))),
          rw (put_self w1.disk git_index (some (G.index_bytes updated))) reopens,
          take_staged-get committed original updated saved.files path taken,
        )
      ]
