-- ===== src/Card/Mutation.antt =====
-- The crash journal of card changes (card/CardMutation.cpp, platform/Fs.cpp): the files it works
-- on, what it asks of libgit2 and of the MessagePack library, and the writes it makes, each of
-- which the process may not survive. The children hold the operations, then what is proved.
pub mod Journal
pub mod Recovery
pub mod Places
pub mod Frame
pub mod Restores
pub mod Saves
pub mod Phases
pub mod Crash
pub mod Sorted
pub mod Undo
pub mod Settles
pub mod RollBack
pub mod Staged
use holder_core.Common.{
  ℕ, zero, suc, Bool, true, false, Option, none, some, List, Text, text_eq, if◌then◌else◌,
}

-- what the code throws; `git_failure` is what `check` throws for any refusal of libgit2
pub data Fault : Type 0 where
  git_failure head_names_no_branch incomplete_recovery_write invalid_recovery_path : Fault
  malformed_journal unsupported_journal recovery_required unjournaled_card_change : Fault
  unresolved_conflicts incomplete_recovery_journal unreadable_file : Fault

-- An answer of libgit2: `missing` is GIT_ENOTFOUND, or GIT_EUNBORNBRANCH for HEAD.
pub data Lookup (Value : Type 0) : Type 0 where
  found : Value → Lookup Value
  missing failed : Lookup Value

-- The files in reach: a path below the project's root, the Git index, and the journal with its
-- temporary name. The journal lies in the Git directory (`true`) or in the root (`false`).
pub data Place : Type 0 where
  project_file : Text → Place
  git_index : Place
  journal_file journal_temporary : Bool → Place

unfoldable pub place_eq : Place → Place → Bool
unfolding text_eq
place_eq (project_file a) (project_file b) = text_eq a b
place_eq git_index git_index = true
place_eq (journal_file true) (journal_file true) = true
place_eq (journal_file false) (journal_file false) = true
place_eq (journal_temporary true) (journal_temporary true) = true
place_eq (journal_temporary false) (journal_temporary false) = true
place_eq _ _ = false

-- One member of `files`. A path that the operation leaves alone has no `after`; `some none` is a
-- file that the operation removes.
pub record JournalFile : Type 0 where
  pub key : Text
  pub before : Option Text
  pub after : Option (Option Text)

-- `State::saved`. Without a repository there is no `reference`.
pub record SavedState (Oid : Type 0) : Type 0 where
  pub version : ℕ
  pub files : List JournalFile
  pub head : Option Oid
  pub index : Option Text
  pub reference : Option Text

-- A commit as libgit2 hands it over; `Entry` is a tree entry.
pub record Commit (Oid Entry : Type 0) : Type 0 where
  pub parents : List Oid
  pub tree : Option (Text → Lookup Entry)

-- libgit2 and the MessagePack codec. `Repo` is the state of refs and objects, `none` an error.
pub record Git : Type 1 where
  pub Oid : Type 0
  pub Entry : Type 0
  pub Repo : Type 0
  pub Index : Type 0
  pub IndexEntry : Type 0
  pub oid_equal : Oid → Oid → Bool
  pub entry_id : Entry → Oid
  pub hash_blob : Text → Oid
  pub commit_lookup : Repo → Oid → Option (Commit Oid Entry)
  pub name_to_id : Repo → Text → Lookup Oid
  pub repository_head : Repo → Lookup (Text × Oid)
  pub symbolic_head : Repo → Lookup Text
  -- the walk from the first commit, with what the second one reaches hidden
  pub walk : Repo → Oid → Option Oid → Option (List Oid)
  pub set_target : Repo → Text → Oid → Option Repo
  pub delete_reference : Repo → Text → Option Repo
  pub index_open : Option Text → Option Index
  pub index_bytes : Index → Text
  pub index_get : Index → Text → Option IndexEntry
  pub index_add : Index → IndexEntry → Option Index
  pub index_remove : Index → Text → Lookup Index
  pub index_entry : Entry → Text → IndexEntry
  pub has_conflicts : Index → Bool
  pub index_clear : Index → Index
  pub index_read_tree : Repo → Index → Oid → Option Index
  pub to_msgpack : SavedState Oid → Text
  pub from_msgpack : Text → Option (SavedState Oid)

module _ (G : Git) where
  open G use {Repo}

  -- The process can be killed in any write. `writes_left` is how many writes it survives, and
  -- `torn` what the next one leaves of a file that it was writing.
  pub record World : Type 0 where
    pub disk : Place → Option Text
    pub repository : Lookup Repo
    pub git_directory : Bool
    pub writes_left : ℕ
    pub torn : Option Text

pub data Outcome (Value : Type 0) : Type 0 where
  killed : Outcome Value
  thrown : Fault → Outcome Value
  done : Value → Outcome Value

-- The map of files with one of them written (`some`) or removed (`none`).
unfoldable pub put : (Place → Option Text) → Place → Option Text → Place → Option Text
put disk p content q = if place_eq p q then content else disk q

module _ (G : Git) where
  abbrev pub Run : Type 0 → Type 0
  Run Value = World G → Outcome Value × World G

module _ {G : Git} where
  abbrev pub pure : {A : Type 0} → A → Run G A
  pure a w = (done a, w)

  abbrev pub throw : {A : Type 0} → Fault → Run G A
  throw fault w = (thrown fault, w)

  -- what follows a step: nothing, behind a fault or a kill
  unfoldable pub next : {A B : Type 0} → Outcome A × World G → (A → Run G B) → Outcome B × World G
  next (killed, w) f = (killed, w)
  next (thrown fault, w) f = (thrown fault, w)
  next (done a, w) f = f a w

  infixl 5 ◌>>=◌ ◌>>◌
  abbrev pub ◌>>=◌ : {A B : Type 0} → Run G A → (A → Run G B) → Run G B
  ◌>>=◌ m f w = next (m w) f

  abbrev pub ◌>>◌ : {A B : Type 0} → Run G A → Run G B → Run G B
  m >> k = m >>= λ _. k

  -- `check` on a call that returns a value
  unfoldable pub check : {A : Type 0} → Option A → Run G A
  check none w = (thrown git_failure, w)
  check (some a) w = (done a, w)

  -- A write of the file, if the process survives it; else the first content is what is left.
  unfoldable pub write_within :
      ℕ → Place → Option Text → Option Text → World G → Outcome (Unit {0}) × World G
  unfolding put
  write_within zero p left content w = (killed, record w { disk = put w.disk p left })
  write_within (suc n) p left content w =
      (done tt, record w { writes_left = n; disk = put w.disk p content })

  unfoldable pub write_file : Place → Text → Run G (Unit {0})
  unfolding write_within
  write_file p content w = write_within w.writes_left p w.torn (some content) w

  -- One system call, so that a kill leaves the file.
  unfoldable pub remove_file : Place → Run G (Unit {0})
  unfolding write_within
  remove_file p w = write_within w.writes_left p (w.disk p) none w

  unfoldable pub exists : Place → World G → Bool
  exists p w = elim (w.disk p) [ none ↦ false | some content ↦ true ]

  unfoldable pub read_file : Place → Run G Text
  read_file p w = elim (w.disk p) [
    | none ↦ (thrown unreadable_file, w)
    | some content ↦ (done content, w)
  ]

  unfoldable pub rename_within : ℕ → Place → Place → Text → World G → Outcome (Unit {0}) × World G
  unfolding put
  rename_within zero from to content w = (killed, w)
  rename_within (suc n) from to content w =
      (done tt, record w { writes_left = n; disk = put (put w.disk to (some content)) from none })

  unfoldable pub rename_file : Place → Place → Run G (Unit {0})
  unfolding rename_within
  rename_file from to w = elim (w.disk from) [
    | none ↦ (thrown unreadable_file, w)
    | some content ↦ rename_within w.writes_left from to content w
  ]

  -- `Repository` opened without `strict`: any failure counts as no repository.
  unfoldable pub opened : World G → Option (G.Repo)
  opened w = elim (w.repository) [ found r ↦ some r | missing ↦ none | failed ↦ none ]

  unfoldable pub set_within : ℕ → G.Repo → World G → Outcome (Unit {0}) × World G
  set_within zero r w = (killed, w)
  set_within (suc n) r w = (done tt, record w { writes_left = n; repository = found r })

  -- a change of a branch
  unfoldable pub set_repository : G.Repo → Run G (Unit {0})
  unfolding set_within
  set_repository r w = set_within w.writes_left r w
