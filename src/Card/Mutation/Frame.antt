-- ===== src/Card/Mutation/Frame.antt =====
-- What no run of a card change or of its recovery alters, wherever it is killed: the refs, and all
-- files but the index and those of the journal.
use holder_core.Common.{
  ℕ, zero, suc, true, false, Option, none, some, List, ◌≡◌, ◌∙◌, Text, Bool, All, if◌then◌else◌,
  ◌∷◌, Bool-cases, inl, text_eq, inr, refl, arith, [], opt_text_eq, not, ◌==◌, text,
}
use holder_core.Card.Mutation.{
  Fault, Place, JournalFile, Git, World, Outcome, killed, thrown, done, put, Run, next, check,
  write_within, read_file, place_eq, git_index, remove_file, project_file, SavedState, write_file,
  exists, pure, throw, opened,
}
use holder_core.Card.Mutation.Places.{is_touched, apart, put_ne, is_journaled, place_eq_refl}
use holder_core.Card.Mutation.Journal.{
  open_index, write_index, journal_file_path, snapshot, read_back, is_recovery_path, restore,
  read_head_tree,
}
use holder_core.Card.Mutation.Recovery.{
  restore_unrelated_index, take_committed, restore_original_files, undo_file, undo_files, settle,
  recover_in, recover_journal, branch_tip, head_is, same, landed_commit, index_path,
}

module _ (G : Git) (fs : List JournalFile) (first : World G) where
  pub record Frame (w : World G) : Type 0 where
    pub refs : w.repository ≡ first.repository
    pub others : (p : Place) → is_touched fs p ≡ false → w.disk p ≡ first.disk p

module _ {G : Git} {fs : List JournalFile} {first : World G} where
  pub next-Frame :
      {A B : Type 0} (r : Outcome A × World G) (f : A → Run G B)
      → Frame G fs first r.1
      → ((a : A) (w : World G) → Frame G fs first w → Frame G fs first (f a w).1)
      → Frame G fs first (next r f).1
  unfolding next
  next-Frame (killed, w) f h k = h
  next-Frame (thrown fault, w) f h k = h
  next-Frame (done a, w) f h k = k a w h

  pub check-Frame :
      {A : Type 0} (o : Option A) (w : World G)
      → Frame G fs first w
      → Frame G fs first (check o w).1
  unfolding check
  check-Frame none w h = h
  check-Frame (some a) w h = h

  pub put-Frame :
      (p : Place) (content : Option Text) (left : ℕ) (w : World G)
      → is_touched fs p ≡ true
      → Frame G fs first w
      → Frame G fs first (record w { writes_left = left; disk = put w.disk p content })
  put-Frame p content left w t h = record {
    refs = h.refs;
    others = λ q u. put_ne w.disk p q content (apart (is_touched fs) p q t u) ∙ h.others q u;
  }

  write_within-Frame :
      (n : ℕ) (p : Place) (left content : Option Text) (w : World G)
      → is_touched fs p ≡ true
      → Frame G fs first w
      → Frame G fs first (write_within n p left content w).1
  unfolding write_within
  write_within-Frame zero p left content w t h = put-Frame p left w.writes_left w t h
  write_within-Frame (suc n) p left content w t h = put-Frame p content n w t h

  read_file-Frame :
      (p : Place) (w : World G) → Frame G fs first w → Frame G fs first (read_file p w).1
  unfolding read_file
  read_file-Frame p w h =
      elim (w.disk p)
        as (λ o.
          Frame G fs first
            (elim o as (λ o'. Outcome Text × World G) [
              | none ↦ (thrown Fault.unreadable_file, w)
              | some content ↦ (done content, w)
            ]).1) [ none ↦ h | some content ↦ h ]

  if-Frame :
      {A : Type 0} (b : Bool) (m k : Run G A) (w : World G)
      → Frame G fs first (m w).1
      → Frame G fs first (k w).1
      → Frame G fs first ((if b then m else k) w).1
  if-Frame true m k w h h' = h
  if-Frame false m k w h h' = h'

  branch-Frame :
      {A : Type 0} (b : Bool) (x y : Outcome A × World G)
      → Frame G fs first x.1
      → Frame G fs first y.1
      → Frame G fs first (if b then x else y).1
  branch-Frame true x y h h' = h
  branch-Frame false x y h h' = h'

  pub restore-Frame :
      (p : Place) (content : Option Text) (w : World G)
      → is_touched fs p ≡ true
      → Frame G fs first w
      → Frame G fs first (restore G p content w).1
  unfolding restore remove_file write_file read_back
  restore-Frame p none w t h =
      branch-Frame (exists p w) _ _ (write_within-Frame w.writes_left p (w.disk p) none w t h) h
  restore-Frame p (some content) w t h =
      next-Frame (write_file p content w) _
        (write_within-Frame w.writes_left p w.torn (some content) w t h)
        λ _ w1 h1. next-Frame (read_file p w1) _ (read_file-Frame p w1 h1) λ back w2 h2.
          if-Frame (text_eq back content) (pure tt) (throw Fault.incomplete_recovery_write) w2 h2 h2

  -- A valid key goes on at its place.
  next_path-Frame :
      {A : Type 0} (key : Text) (k : Place → Run G A) (w : World G)
      → Frame G fs first w
      → Frame G fs first (k (project_file key) w).1
      → Frame G fs first (next (journal_file_path G key w) k).1
  unfolding journal_file_path next
  next_path-Frame key k w h go = elim (Bool-cases (is_recovery_path key)) [
    | inl e ↦ rw e go
    | inr e ↦ rw e h
  ]

  open_index-Frame : (w : World G) → Frame G fs first w → Frame G fs first (open_index G w).1
  unfolding open_index next snapshot
  open_index-Frame w h = check-Frame (G.index_open (w.disk git_index)) w h

  write_index-Frame :
      (index : G.Index) (w : World G)
      → Frame G fs first w
      → Frame G fs first (write_index G index w).1
  unfolding write_index write_file is_touched place_eq
  write_index-Frame index w h =
      write_within-Frame w.writes_left git_index w.torn (some (G.index_bytes index)) w refl h

  pub read_head_tree-Frame :
      (repo : Option G.Repo) (saved : SavedState G.Oid) (w : World G)
      → Frame G fs first w
      → Frame G fs first (read_head_tree G repo saved w).1
  unfolding read_head_tree
  read_head_tree-Frame none saved w h = h
  read_head_tree-Frame (some r) saved w h =
      next-Frame (open_index G w) _ (open_index-Frame w h) λ index w1 h1.
        next-Frame _ _ (check-Frame _ w1 h1) λ clean w2 h2. write_index-Frame clean w2 h2

  pub restore_index-Frame :
      (content : Option Text) (w : World G)
      → Frame G fs first w
      → Frame G fs first (restore G git_index content w).1
  unfolding is_touched place_eq
  restore_index-Frame content w h = restore-Frame git_index content w refl h

  pub index_path-Frame : (w : World G) → Frame G fs first w → Frame G fs first (index_path G w).1
  unfolding index_path
  index_path-Frame w h = next-Frame (open_index G w) _ (open_index-Frame w h) λ index w1 h1. h1

  pub restore_unrelated_index-Frame :
      (r : G.Repo) (saved : SavedState G.Oid) (oid : G.Oid) (w : World G)
      → Frame G fs first w
      → Frame G fs first (restore_unrelated_index G r saved oid w).1
  unfolding restore_unrelated_index
  restore_unrelated_index-Frame r saved oid w h =
      next-Frame (check (G.commit_lookup r oid) w) _ (check-Frame _ w h) λ commit w1 h1.
        next-Frame (check commit.tree w1) _ (check-Frame _ w1 h1) λ tree w2 h2.
          next-Frame (index_path G w2) _ (index_path-Frame w2 h2) λ _ w2' h2'.
            next-Frame (restore G git_index saved.index w2') _
              (restore_index-Frame saved.index w2' h2')
              λ _ w3 h3. next-Frame (open_index G w3) _ (open_index-Frame w3 h3) λ index w4 h4.
                next-Frame (check (take_committed G tree saved.files index) w4) _
                  (check-Frame _ w4 h4) λ updated w5 h5. write_index-Frame updated w5 h5

-- Of a journal's list, every file may be touched.
unfoldable pub AllTouched : List JournalFile → List JournalFile → Type 0
AllTouched fs gs = All (λ (g : JournalFile). is_touched fs (project_file g.key) ≡ true) gs

module _ (f : JournalFile) (fs : List JournalFile) where
  is_touched-cons : (p : Place) → is_touched fs p ≡ true → is_touched (f ∷ fs) p ≡ true
  unfolding is_touched is_journaled
  is_touched-cons p h = ground arith

  is_touched_head : is_touched (f ∷ fs) (project_file f.key) ≡ true
  unfolding is_touched is_journaled
  is_touched_head = ground (arith, place_eq_refl (project_file f.key))

  AllTouched-cons : (gs : List JournalFile) → AllTouched fs gs → AllTouched (f ∷ fs) gs
  unfolding AllTouched
  AllTouched-cons [] h = tt
  AllTouched-cons (g ∷ gs) h = (is_touched-cons (project_file g.key) h.0, AllTouched-cons gs h.1)

pub AllTouched-self : (fs : List JournalFile) → AllTouched fs fs
unfolding AllTouched
AllTouched-self [] = tt
AllTouched-self (f ∷ fs) = (is_touched_head f fs, AllTouched-cons f fs fs (AllTouched-self fs))

module _ {G : Git} {fs : List JournalFile} {first : World G} where
  restore_original_files-Frame :
      (gs : List JournalFile) (w : World G)
      → AllTouched fs gs
      → Frame G fs first w
      → Frame G fs first (restore_original_files G gs w).1
  unfolding restore_original_files AllTouched
  restore_original_files-Frame [] w t h = h
  restore_original_files-Frame (g ∷ gs) w t h = next_path-Frame g.key _ w h (
      next-Frame (restore G (project_file g.key) g.before w) _
        (restore-Frame (project_file g.key) g.before w t.0 h)
        λ _ w1 h1. restore_original_files-Frame gs w1 t.1 h1)

  pub undo_file-Frame :
      (g : JournalFile) (after : Option (Option Text)) (w : World G)
      → is_touched fs (project_file g.key) ≡ true
      → Frame G fs first w
      → Frame G fs first (undo_file G g after w).1
  unfolding undo_file next snapshot
  undo_file-Frame g none w t h = h
  undo_file-Frame g (some after) w t h = next_path-Frame g.key _ w h (
      if-Frame (opt_text_eq (w.disk (project_file g.key)) after)
        (restore G (project_file g.key) g.before) (pure tt) w
        (restore-Frame (project_file g.key) g.before w t h) h)

  undo_files-Frame :
      (gs : List JournalFile) (w : World G)
      → AllTouched fs gs
      → Frame G fs first w
      → Frame G fs first (undo_files G gs w).1
  unfolding undo_files AllTouched
  undo_files-Frame [] w t h = h
  undo_files-Frame (g ∷ gs) w t h =
      next-Frame (undo_file G g g.after w) _ (undo_file-Frame g g.after w t.0 h)
        λ _ w1 h1. undo_files-Frame gs w1 t.1 h1

module _ (G : Git) (saved : SavedState G.Oid) {first : World G} where
  pub settle-Frame :
      (r : G.Repo) (landed : Option G.Oid) (w : World G)
      → Frame G saved.files first w
      → Frame G saved.files first (settle G r saved landed w).1
  unfolding settle
  settle-Frame r (some landed) w h =
      if-Frame (head_is G (G.name_to_id r (text "HEAD")) landed)
        (restore_unrelated_index G r saved landed) (pure tt) w
        (restore_unrelated_index-Frame r saved landed w h) h
  settle-Frame r none w h = undo_files-Frame saved.files w (AllTouched-self saved.files) h

  recover_in-Frame :
      (repo : Option G.Repo) (w : World G)
      → Frame G saved.files first w
      → Frame G saved.files first (recover_in G repo saved w).1
  unfolding recover_in
  recover_in-Frame none w h =
      restore_original_files-Frame saved.files w (AllTouched-self saved.files) h
  recover_in-Frame (some r) w h =
      next-Frame (check (branch_tip G r saved) w) _ (check-Frame _ w h) λ tip w1 h1.
        if-Frame (same G tip saved.head) _ _ w1
          (next-Frame (restore_original_files G saved.files w1) _
            (restore_original_files-Frame saved.files w1 (AllTouched-self saved.files) h1)
            λ _ w2 h2.
              next-Frame (index_path G w2) _ (index_path-Frame w2 h2)
                λ _ w3 h3. restore_index-Frame saved.index w3 h3)
          (next-Frame (check (landed_commit G r saved) w1) _ (check-Frame _ w1 h1)
            λ landed w2 h2. settle-Frame r landed w2 h2)

  pub recover_journal-Frame :
      (w : World G)
      → Frame G saved.files first w
      → Frame G saved.files first (recover_journal G saved w).1
  unfolding recover_journal
  recover_journal-Frame w h =
      branch-Frame (not (saved.version == 2)) _ _ h (recover_in-Frame (opened w) w h)
