-- ===== src/Card/Mutation/Recovery.antt =====
-- Undoing a card change, in the process that made it or behind one that was interrupted:
-- `is_operation_commit`, `landed_commit`, `roll_back`, `recover_journal`, `recover_files` and
-- `finish_recovery` of card/CardMutation.cpp.
use holder_core.Common.{
  Bool, true, false, Option, none, some, List, [], ◌∷◌, Text, if◌then◌else◌, ◌==◌, not, is_some,
  opt_text_eq, take, is_empty, text,
}
use holder_core.Card.Mutation.{
  Fault, Lookup, found, missing, failed, git_index, journal_file, JournalFile, SavedState, Commit,
  Git, Run, pure, throw, ◌>>=◌, ◌>>◌, next, check, remove_file, exists, read_file, opened,
  set_repository,
}
use holder_core.Card.Mutation.Journal.{
  snapshot, journal_file_path, restore, index_drop, open_index, write_index, finish,
}

module _ (G : Git) where
  open G use {Oid, Entry, Repo, Index}

  unfoldable pub same : Option Oid → Option Oid → Bool
  same none none = true
  same (some a) (some b) = G.oid_equal a b
  same _ _ = false

  -- The saved branch's commit, `some none` while it is unborn, and `none` for a fault.
  unfoldable pub branch_tip : Repo → SavedState Oid → Option (Option Oid)
  branch_tip r saved = elim (saved.reference) [
    | none ↦ none
    | some name ↦ elim (G.name_to_id r name) [
      | found oid ↦ some (some oid)
      | missing ↦ some none
      | failed ↦ none
    ]
  ]

  -- exactly the saved head as the parent, or none
  unfoldable pub parents_match : List Oid → Option Oid → Bool
  parents_match parents none = is_empty parents
  parents_match (p ∷ []) (some before) = G.oid_equal p before
  parents_match _ (some before) = false

  -- the tree's entry for a path, against the intended bytes
  unfoldable pub entry_matches : Lookup Entry → Option (Option Text) → Option Bool
  entry_matches entry none = some true
  entry_matches missing (some none) = some true
  entry_matches failed (some none) = some false
  entry_matches (found e) (some none) = some false
  entry_matches missing (some (some bytes)) = some false
  entry_matches failed (some (some bytes)) = none
  entry_matches (found e) (some (some bytes)) =
      some (G.oid_equal (G.hash_blob bytes) (G.entry_id e))

  unfoldable pub tree_matches : (Text → Lookup Entry) → List JournalFile → Option Bool
  unfolding entry_matches
  tree_matches tree [] = some true
  tree_matches tree (f ∷ fs) =
      let rest = tree_matches tree fs in
      elim (entry_matches (tree f.key) f.after) [
        | none ↦ none
        | some false ↦ some false
        | some true ↦ rest
      ]

  unfoldable pub commit_matches : Commit Oid Entry → SavedState Oid → Option Bool
  unfolding parents_match tree_matches
  commit_matches commit saved =
      if not (parents_match commit.parents saved.head)
      then some false
      else elim (commit.tree) [ none ↦ none | some tree ↦ tree_matches tree saved.files ]

  unfoldable pub is_operation_commit : Repo → Oid → SavedState Oid → Option Bool
  unfolding commit_matches
  is_operation_commit r oid saved = elim (G.commit_lookup r oid) [
    | none ↦ none
    | some commit ↦ commit_matches commit saved
  ]

  unfoldable pub first_operation_commit : Repo → SavedState Oid → List Oid → Option (Option Oid)
  unfolding is_operation_commit
  first_operation_commit r saved [] = some none
  first_operation_commit r saved (oid ∷ oids) =
      let rest = first_operation_commit r saved oids in
      elim (is_operation_commit r oid saved) [
        | none ↦ none
        | some true ↦ some (some oid)
        | some false ↦ rest
      ]

  unfoldable pub landed_below : Repo → SavedState Oid → Option Oid → Option (Option Oid)
  unfolding first_operation_commit
  landed_below r saved none = some none
  landed_below r saved (some tip) = elim (G.walk r tip saved.head) [
    | none ↦ none
    | some commits ↦ first_operation_commit r saved (take 10000 commits)
  ]

  unfoldable pub landed_commit : Repo → SavedState Oid → Option (Option Oid)
  unfolding branch_tip landed_below
  landed_commit r saved = elim (branch_tip r saved) [
    | none ↦ none
    | some tip ↦ landed_below r saved tip
  ]

  unfoldable pub restore_original_files : List JournalFile → Run G (Unit {0})
  unfolding next journal_file_path restore
  restore_original_files [] = pure tt
  restore_original_files (f ∷ fs) = do
    p ← journal_file_path G f.key
    restore G p f.before
    restore_original_files fs

  unfoldable pub take_tree_entry : Lookup Entry → Text → Index → Option Index
  unfolding index_drop
  take_tree_entry missing key index = index_drop G index key
  take_tree_entry failed key index = none
  take_tree_entry (found e) key index = G.index_add index (G.index_entry e key)

  -- each path of the operation as the commit's tree has it
  unfoldable pub take_committed : (Text → Lookup Entry) → List JournalFile → Index → Option Index
  unfolding take_tree_entry
  take_committed tree [] index = some index
  take_committed tree (f ∷ fs) index = elim (take_tree_entry (tree f.key) f.key index) [
    | none ↦ none
    | some index' ↦ take_committed tree fs index'
  ]

  -- `index_path`, in a process that has not opened the index: libgit2 reads it, and may refuse it
  unfoldable pub index_path : Run G (Unit {0})
  unfolding next open_index
  index_path = do index ← open_index G; pure tt

  unfoldable pub restore_unrelated_index : Repo → SavedState Oid → Oid → Run G (Unit {0})
  unfolding next check index_path restore open_index take_committed write_index
  restore_unrelated_index r saved oid = do
    commit ← check (G.commit_lookup r oid)
    tree ← check (commit.tree)
    index_path
    restore G git_index saved.index
    index ← open_index G
    updated ← check (take_committed tree saved.files index)
    write_index G updated

  unfoldable pub reset_branch : Repo → Text → Option Oid → Run G (Unit {0})
  unfolding next check set_repository
  reset_branch r name (some before) = do r' ← check (G.set_target r name before); set_repository r'
  reset_branch r name none = do r' ← check (G.delete_reference r name); set_repository r'

  unfoldable pub reset_own : Repo → SavedState Oid → Option Oid → Run G (Unit {0})
  unfolding next check is_operation_commit reset_branch same
  reset_own r saved none = pure tt
  reset_own r saved (some tip) = if same (some tip) saved.head then pure tt else do
    own ← check (is_operation_commit r tip saved)
    if own then (do name ← check (saved.reference); reset_branch r name saved.head) else pure tt

  unfoldable pub roll_back_in : Option Repo → SavedState Oid → Run G (Unit {0})
  unfolding next check branch_tip reset_own restore_original_files restore
  roll_back_in none saved = restore_original_files saved.files
  -- the handle has the index in memory since its constructor, so that `index_path` cannot fail
  roll_back_in (some r) saved = do
    tip ← check (branch_tip r saved)
    reset_own r saved tip
    restore_original_files saved.files
    restore G git_index saved.index

  unfoldable pub roll_back : SavedState Oid → Run G (Unit {0})
  unfolding opened roll_back_in
  roll_back saved w = roll_back_in (opened w) saved w

  unfoldable pub rollback : SavedState Oid → Run G (Unit {0})
  unfolding next roll_back finish
  rollback saved = roll_back saved >> finish G

  -- put back only what this operation wrote
  unfoldable pub undo_file : JournalFile → Option (Option Text) → Run G (Unit {0})
  unfolding next journal_file_path snapshot restore opt_text_eq
  undo_file f none = pure tt
  undo_file f (some after) = do
    p ← journal_file_path G f.key
    now ← snapshot G p
    if opt_text_eq now after then restore G p f.before else pure tt

  unfoldable pub undo_files : List JournalFile → Run G (Unit {0})
  unfolding next undo_file
  undo_files [] = pure tt
  undo_files (f ∷ fs) = do undo_file f f.after; undo_files fs

  -- HEAD can be read, and is the commit
  unfoldable pub head_is : Lookup Oid → Oid → Bool
  head_is (found head) landed = G.oid_equal head landed
  head_is missing landed = false
  head_is failed landed = false

  unfoldable pub settle : Repo → SavedState Oid → Option Oid → Run G (Unit {0})
  unfolding head_is restore_unrelated_index undo_files
  settle r saved (some landed) =
      if head_is (G.name_to_id r (text "HEAD")) landed
      then restore_unrelated_index r saved landed
      else pure tt
  settle r saved none = undo_files saved.files

  unfoldable pub recover_in : Option Repo → SavedState Oid → Run G (Unit {0})
  unfolding next check index_path
  recover_in none saved = restore_original_files saved.files
  recover_in (some r) saved = do
    tip ← check (branch_tip r saved)
    if same tip saved.head
        then (do restore_original_files saved.files; index_path; restore G git_index saved.index)
        else (do landed ← check (landed_commit r saved); settle r saved landed)

  unfoldable pub recover_journal : SavedState Oid → Run G (Unit {0})
  unfolding opened recover_in
  recover_journal saved w =
      if not (saved.version == 2)
      then throw Fault.unsupported_journal w
      else recover_in (opened w) saved w

  unfoldable pub parsed_journal : Text → Run G (SavedState Oid)
  parsed_journal raw = elim (G.from_msgpack raw) [
    | none ↦ throw Fault.malformed_journal
    | some saved ↦ pure saved
  ]

  unfoldable pub recover_files : Run G (Unit {0})
  unfolding next opened exists read_file parsed_journal
  recover_files w =
      if not (exists (journal_file (is_some (opened w))) w)
      then pure tt w
      else (do
        raw ← read_file (journal_file (is_some (opened w)))
        saved ← parsed_journal raw
        recover_journal saved)
          w

  unfoldable pub finish_recovery : Run G (Unit {0})
  unfolding opened exists remove_file
  finish_recovery w =
      if exists (journal_file (is_some (opened w))) w
      then remove_file (journal_file (is_some (opened w))) w
      else pure tt w
