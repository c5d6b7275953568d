-- ===== src/Sync/State.antt =====
-- The `project_sync_state` table (project/ProjectSyncRepo.cpp, model/ProjectSyncState.h). The table is
-- the list of its rows; failures of the database are not modelled.
pub mod Retries
pub mod Fields
use holder_core.Common.{
  Bool, true, false, Option, none, some, List, [], ◌∷◌, if◌then◌else◌, text_eq, Text, is_empty,
  text, get_elem?, ◌-◌,
}
use holder_core.Common.Int.{ℤ, pos, leb_ℤ, ◌+ℤ◌, pos_part}

pub record ProjectSyncState : Type 0 where
  pub project_id : Text
  pub last_commit_at : Option ℤ
  pub last_push_at : Option ℤ
  pub last_pull_at : Option ℤ
  pub uncommitted_changes_count : ℤ
  pub unpushed_commits_count : ℤ
  pub last_push_status : Option Text
  pub last_pull_status : Option Text
  pub last_sync_error : Option Text
  pub last_sync_error_at : Option ℤ
  pub retry_count : ℤ
  pub next_retry_at : Option ℤ
  pub pull_retry_count : ℤ
  pub next_pull_retry_at : Option ℤ
  pub updated_at : ℤ

-- `ProjectSyncState{}`
abbrev pub initial_state : ProjectSyncState
initial_state = record {
  project_id = [];
  last_commit_at = none;
  last_push_at = none;
  last_pull_at = none;
  uncommitted_changes_count = pos 0;
  unpushed_commits_count = pos 0;
  last_push_status = none;
  last_pull_status = none;
  last_sync_error = none;
  last_sync_error_at = none;
  retry_count = pos 0;
  next_retry_at = none;
  pull_retry_count = pos 0;
  next_pull_retry_at = none;
  updated_at = pos 0;
}

abbrev pub SyncTable : Type 0
SyncTable = List ProjectSyncState

unfoldable pub get : SyncTable → Text → Option ProjectSyncState
get [] id = none
get (s ∷ rows) id = let rest = get rows id in if text_eq s.project_id id then some s else rest

-- INSERT ... ON CONFLICT(project_id) DO UPDATE
unfoldable pub upsert : SyncTable → ProjectSyncState → SyncTable
upsert [] state = state ∷ []
upsert (s ∷ rows) state =
    let rest = upsert rows state in
    if text_eq s.project_id state.project_id then state ∷ rows else s ∷ rest

unfoldable pub remove : SyncTable → Text → SyncTable
remove [] id = []
remove (s ∷ rows) id =
    let rest = remove rows id in if text_eq s.project_id id then rest else s ∷ rest

abbrev pub schedule : List ℤ
schedule = pos 60 ∷ pos 300 ∷ pos 900 ∷ pos 1800 ∷ []

abbrev pub in_schedule : Option ℤ → ℤ
in_schedule none = pos 1800
in_schedule (some seconds) = seconds

unfoldable pub backoff_seconds_for_retry : ℤ → ℤ
backoff_seconds_for_retry retry_count =
    if leb_ℤ retry_count (pos 0)
    then pos 0
    else in_schedule (get_elem? schedule (pos_part retry_count - 1))

-- `get(project_id).value_or(ProjectSyncState{})`, with the ID set
unfoldable pub current : SyncTable → Text → ProjectSyncState
unfolding get
current table project_id = elim (get table project_id) [
  | none ↦ record initial_state { project_id = project_id }
  | some s ↦ record s { project_id = project_id }
]

-- the message, or the default where there is none or an empty one
abbrev pub error_or : Text → Option Text → Option Text
error_or default none = some default
error_or default (some message) = if is_empty message then some default else some message

unfoldable pub update_activity_counts : SyncTable → Text → ℤ → ℤ → ℤ → SyncTable
unfolding current upsert
update_activity_counts table project_id uncommitted unpushed updated_at =
    upsert table (record (current table project_id) {
      uncommitted_changes_count = uncommitted;
      unpushed_commits_count = unpushed;
      updated_at = updated_at;
    })

-- the row that `record_push_result` writes
pub pushed_state : ProjectSyncState → Text → Bool → Option Text → ℤ → ProjectSyncState
unfolding backoff_seconds_for_retry ◌+ℤ◌
pushed_state s status true error_message now = record s {
  last_push_status = some status;
  updated_at = now;
  last_push_at = some now;
  last_sync_error = none;
  last_sync_error_at = none;
  retry_count = pos 0;
  next_retry_at = none;
}
pushed_state s status false error_message now = record s {
  last_push_status = some status;
  updated_at = now;
  last_sync_error = error_or (text "push failed") error_message;
  last_sync_error_at = some now;
  retry_count = s.retry_count +ℤ pos 1;
  next_retry_at = some (now +ℤ backoff_seconds_for_retry (s.retry_count +ℤ pos 1));
}

pub pulled_state : ProjectSyncState → Text → Bool → Option Text → ℤ → ProjectSyncState
unfolding backoff_seconds_for_retry ◌+ℤ◌
pulled_state s status true error_message now = record s {
  last_pull_status = some status;
  updated_at = now;
  last_pull_at = some now;
  last_sync_error = none;
  last_sync_error_at = none;
  pull_retry_count = pos 0;
  next_pull_retry_at = none;
}
pulled_state s status false error_message now = record s {
  last_pull_status = some status;
  updated_at = now;
  last_sync_error = error_or (text "pull failed") error_message;
  last_sync_error_at = some now;
  pull_retry_count = s.pull_retry_count +ℤ pos 1;
  next_pull_retry_at = some (now +ℤ backoff_seconds_for_retry (s.pull_retry_count +ℤ pos 1));
}

unfoldable pub record_push_result : SyncTable → Text → Text → Bool → Option Text → ℤ → SyncTable
unfolding current upsert pushed_state
record_push_result table project_id status success error_message now =
    upsert table (pushed_state (current table project_id) status success error_message now)

unfoldable pub record_pull_result : SyncTable → Text → Text → Bool → Option Text → ℤ → SyncTable
unfolding current upsert pulled_state
record_pull_result table project_id status success error_message now =
    upsert table (pulled_state (current table project_id) status success error_message now)
