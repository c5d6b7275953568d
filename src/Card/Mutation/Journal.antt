-- ===== src/Card/Mutation/Journal.antt =====
-- What a card change saves before it starts, and its beginning and end: `snapshot`, `restore`,
-- `journal_file_path`, the constructor, `begin`, `preserve_unrelated_index`, `finish` and `pending`
-- of card/CardMutation.cpp.
use holder_core.Common.{
  ℕ, Bool, true, false, Option, none, some, List, [], ◌∷◌, Text, text, text_eq, text_lt,
  if◌then◌else◌, ◌==◌, ◌&&◌, ◌||◌, not, is_some,
}
use holder_core.Card.Mutation.{
  Fault, found, missing, failed, Place, thrown, project_file, git_index, journal_file,
  journal_temporary, JournalFile, SavedState, Git, World, Run, pure, throw, ◌>>=◌, ◌>>◌, next,
  check, write_file, remove_file, exists, read_file, rename_file, opened,
}

-- The elements of a path, split at each slash.
unfoldable pub first_with : ℕ → List Text → List Text
first_with c [] = (c ∷ []) ∷ []
first_with c (e ∷ es) = (c ∷ e) ∷ es

unfoldable pub path_elements : Text → List Text
unfolding first_with
path_elements [] = [] ∷ []
path_elements (c ∷ s) =
    let rest = path_elements s in if c == b'/' then [] ∷ rest else first_with c rest

-- `rfind(prefix, 0) == 0`
unfoldable pub begins_with : Text → Text → Bool
begins_with [] s = true
begins_with (p ∷ ps) [] = false
begins_with (p ∷ ps) (c ∷ s) = p == c && begins_with ps s

-- `find("..")` finds something
unfoldable pub has_two_dots : Text → Bool
unfolding begins_with
has_two_dots [] = false
has_two_dots (c ∷ s) = begins_with (text "..") (c ∷ s) || has_two_dots s

-- Some element is a single dot. As a path without two dots in a row, it then differs from its
-- normal form, and only then: paths are compared element by element, so doubled slashes are equal
-- to one.
unfoldable pub has_dot_element : List Text → Bool
unfolding text_eq
has_dot_element [] = false
has_dot_element (e ∷ es) = text_eq e (text ".") || has_dot_element es

unfoldable pub is_recovery_path : Text → Bool
unfolding begins_with has_two_dots has_dot_element path_elements
is_recovery_path key =
    not (begins_with (text "/") key)
    && not (has_dot_element (path_elements key))
    && not (has_two_dots key)
    && (begins_with (text "cards/") key || begins_with (text "trash/cards/") key)

-- The entry of a key in a JSON object, which keeps its members in the order of their keys.
unfoldable pub set_file : JournalFile → List JournalFile → List JournalFile
unfolding text_eq text_lt
set_file f [] = f ∷ []
set_file f (g ∷ gs) =
    let rest = set_file f gs in
    if text_eq f.key g.key then f ∷ gs else if text_lt f.key g.key then f ∷ g ∷ gs else g ∷ rest

-- `s.saved["files"][path]["after"] = bytes`, if the path has an entry
unfoldable pub set_after : Text → Option Text → List JournalFile → Option (List JournalFile)
unfolding text_eq
set_after key bytes [] = none
set_after key bytes (f ∷ fs) =
    let rest = set_after key bytes fs in
    if text_eq f.key key
    then some (record f { after = some bytes } ∷ fs)
    else elim rest [ none ↦ none | some fs' ↦ some (f ∷ fs') ]

module _ (G : Git) where
  open G use {Oid, Repo, Index}

  unfoldable pub snapshot : Place → Run G (Option Text)
  snapshot p w = pure (w.disk p) w

  unfoldable pub journal_file_path : Text → Run G Place
  unfolding is_recovery_path
  journal_file_path key =
      if is_recovery_path key then pure (project_file key) else throw Fault.invalid_recovery_path

  -- the read behind the write: what is there is what was written
  unfoldable pub read_back : Place → Text → Fault → Run G (Unit {0})
  unfolding text_eq next read_file
  read_back p content fault = do
    back ← read_file p
    if text_eq back content then pure tt else throw fault

  unfoldable pub restore : Place → Option Text → Run G (Unit {0})
  unfolding next exists remove_file write_file read_back
  restore p none w = if exists p w then remove_file p w else pure tt w
  restore p (some content) w =
      (write_file p content >> read_back p content Fault.incomplete_recovery_write) w

  -- the loop over `paths`
  unfoldable pub snapshot_files : List Text → List JournalFile → Run G (List JournalFile)
  unfolding next journal_file_path snapshot set_file
  snapshot_files [] files = pure files
  snapshot_files (path ∷ paths) files = do
    p ← journal_file_path path
    bytes ← snapshot p
    snapshot_files paths (set_file (record { key = path; before = bytes; after = none }) files)

  -- the loop over `changes`
  unfoldable pub intend : List (Text × Option Text) → List JournalFile → Run G (List JournalFile)
  unfolding next set_after
  intend [] files = pure files
  intend ((path, bytes) ∷ changes) files = elim (set_after path bytes files) [
    | none ↦ throw Fault.unjournaled_card_change
    | some files' ↦ intend changes files'
  ]

  unfoldable pub head_reference_name : Repo → Run G Text
  head_reference_name r = elim (G.symbolic_head r) [
    | found name ↦ pure name
    | missing ↦ throw Fault.head_names_no_branch
    | failed ↦ throw Fault.git_failure
  ]

  -- the saved head and reference
  unfoldable pub saved_branch : Repo → Run G (Text × Option Oid)
  unfolding next head_reference_name
  saved_branch r = elim (G.repository_head r) [
    | missing ↦ do name ← head_reference_name r; pure (name, none)
    | failed ↦ throw Fault.git_failure
    | found h ↦ pure (h.0, some (h.1))
  ]

  unfoldable pub open_index : Run G Index
  unfolding next check snapshot
  open_index = do bytes ← snapshot git_index; check (G.index_open bytes)

  unfoldable pub saved_with : List JournalFile → Option Repo → Run G (SavedState Oid)
  unfolding next snapshot saved_branch open_index
  saved_with files none =
      pure (record { version = 2; files = files; head = none; index = none; reference = none })
  saved_with files (some r) = do
    index ← snapshot git_index
    branch ← saved_branch r
    current ← open_index
    if G.has_conflicts current
        then throw Fault.unresolved_conflicts
        else pure (record {
          version = 2;
          files = files;
          head = branch.1;
          index = index;
          reference = some (branch.0);
        })

  unfoldable pub construct_in :
      List Text → List (Text × Option Text) → Option Repo → Run G (SavedState Oid)
  unfolding next exists snapshot_files intend saved_with
  construct_in paths changes repo w =
      if exists (journal_file (is_some repo)) w
      then throw Fault.recovery_required w
      else (do
        files ← snapshot_files paths []
        intended ← intend changes files
        saved_with intended repo)
          w

  -- The constructor. Its repository is opened strictly: a failure other than GIT_ENOTFOUND throws.
  unfoldable pub construct : List Text → List (Text × Option Text) → Run G (SavedState Oid)
  unfolding construct_in
  construct paths changes w = elim (w.repository) [
    | failed ↦ (thrown Fault.git_failure, w)
    | missing ↦ construct_in paths changes none w
    | found r ↦ construct_in paths changes (some r) w
  ]

  unfoldable pub write_index : Index → Run G (Unit {0})
  unfolding write_file
  write_index index = write_file git_index (G.index_bytes index)

  -- the end of `begin`: the index becomes the tree of the saved head
  unfoldable pub read_head_tree : Option Repo → SavedState Oid → Run G (Unit {0})
  unfolding next check open_index write_index
  read_head_tree none saved = pure tt
  read_head_tree (some r) saved = do
    index ← open_index
    clean ← check (elim (saved.head) [
      | none ↦ some (G.index_clear index)
      | some h ↦ G.index_read_tree r index h
    ])
    write_index clean

  unfoldable pub begin : SavedState Oid → Run G (Unit {0})
  unfolding next opened write_file read_back rename_file read_head_tree
  begin saved w =
      (do
        write_file (journal_temporary (is_some (opened w))) (G.to_msgpack saved)
        read_back (journal_temporary (is_some (opened w))) (G.to_msgpack saved)
            Fault.incomplete_recovery_journal
        rename_file (journal_temporary (is_some (opened w))) (journal_file (is_some (opened w)))
        read_head_tree (opened w) saved)
        w

  -- `git_index_remove_bypath`, with GIT_ENOTFOUND let through
  unfoldable pub index_drop : Index → Text → Option Index
  index_drop index key = elim (G.index_remove index key) [
    | found index' ↦ some index'
    | missing ↦ some index
    | failed ↦ none
  ]

  unfoldable pub take_entry : Option (G.IndexEntry) → Text → Index → Option Index
  unfolding index_drop
  take_entry (some updated) key index = G.index_add index updated
  take_entry none key index = index_drop index key

  -- each path of the operation as the first index has it
  unfoldable pub take_staged : Index → List JournalFile → Index → Option Index
  unfolding take_entry
  take_staged committed [] original = some original
  take_staged committed (f ∷ fs) original =
      elim (take_entry (G.index_get committed f.key) f.key original) [
        | none ↦ none
        | some original' ↦ take_staged committed fs original'
      ]

  unfoldable pub preserve_in : Option Repo → SavedState Oid → Run G (Unit {0})
  unfolding next check open_index restore take_staged write_index
  preserve_in none saved = pure tt
  preserve_in (some r) saved = do
    committed ← open_index
    restore git_index (saved.index)
    original ← open_index
    updated ← check (take_staged committed saved.files original)
    write_index updated

  unfoldable pub preserve_unrelated_index : SavedState Oid → Run G (Unit {0})
  unfolding opened preserve_in
  preserve_unrelated_index saved w = preserve_in (opened w) saved w

  unfoldable pub finish : Run G (Unit {0})
  unfolding opened exists remove_file
  finish w =
      if exists (journal_file (is_some (opened w))) w
      then remove_file (journal_file (is_some (opened w))) w
      else pure tt w

  -- a `.git` directory is taken for the repository's without opening it
  unfoldable pub pending : World G → Bool
  unfolding opened exists
  pending w =
      if w.git_directory
      then exists (journal_file true) w
      else exists (journal_file (is_some (opened w))) w
