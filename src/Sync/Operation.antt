-- ===== src/Sync/Operation.antt =====
-- One sync of a project (sync/ProjectSyncOperation.h and .cpp, git/PushResult.h). The values,
-- and the interface `World` to git, the index and the card store; Sync/Run has the phases. An
-- operation that throws a `std::exception` returns its message.
use holder_core.Common.{
  Bool, true, false, Option, none, some, if◌then◌else◌, Text, text, ◌&&◌, ◌||◌, not, is_empty,
}
use holder_core.Common.Int.{ℤ, pos}

-- what the sync reads of model/Project.h
pub record Project : Type 0 where
  pub project_id : Text
  pub root_path : Text
  pub git_remote_url : Option Text
  pub privacy_mode : Text

pub data PushStatus : Type 0 where
  pushed up_to_date auth_failed not_found network_error : PushStatus
  non_fast_forward push_remote_unset unknown_error : PushStatus

pub record PushResult : Type 0 where
  pub status : PushStatus
  pub ahead_count : ℤ
  pub behind_count : ℤ
  pub local_head_commit : Text
  pub error_message : Text

pub data PullPhaseStatus : Type 0 where
  not_attempted succeeded_pull remote_unset failed : PullPhaseStatus

pub record PullPhaseResult : Type 0 where
  pub attempted : Bool
  pub status : PullPhaseStatus
  pub conflicts_resolved : ℤ
  pub hidden_cards_repaired : ℤ
  pub error_message : Option Text

pub record PushPhaseResult : Type 0 where
  pub attempted : Bool
  pub status : PushStatus
  pub ahead_count : ℤ
  pub behind_count : ℤ
  pub local_head_commit : Option Text
  pub error_message : Option Text

pub record ProjectSyncRequest : Type 0 where
  pub pull : Bool
  pub push : Bool
  pub push_after_failed_pull : Bool
  pub branch : Text
  pub set_upstream : Bool
  pub now : ℤ

pub record ProjectSyncResult : Type 0 where
  pub project_id : Text
  pub remote_url : Option Text
  pub pull : PullPhaseResult
  pub push : PushPhaseResult

-- a call that throws, with the message, or returns
pub data Attempt (A : Type 0) : Type 0 where
  threw : Text → Attempt A
  returned : A → Attempt A

-- what `pull_remote_ff_only` finds: NonFastForwardPullError carries the two commits
pub data Pulled : Type 0 where
  up_to_remote : Pulled
  diverged : (local_oid remote_oid : Text) → Pulled

-- the operations of the other components, on a state of their own
pub record World : Type 1 where
  pub State : Type 0
  pub get_project : State → Text → Option Project
  -- the state when the lock is held: others may have changed it in the meantime
  pub lock_operation : State → Text → State
  pub open_or_init : State → Text → Attempt (Unit {0}) × State
  pub set_remote : State → Text → Text → Attempt (Unit {0}) × State
  pub pull_remote_ff_only : State → Text → Attempt Pulled × State
  pub resolve_pull_conflicts : State → Project → Text → Text → ℤ → Attempt ℤ × State
  pub reconcile_index_after_pull : State → Project → Attempt (Unit {0}) × State
  -- the number of cards that were moved
  pub repair_hierarchy : State → Text → ℤ → Attempt ℤ × State
  pub inspect_repo_sync_metrics : State → Text → Attempt (ℤ × ℤ)
  pub assert_encryption_push_safe : State → Text → Attempt (Unit {0})
  pub push_branch : State → Text → Text → Bool → Attempt PushResult × State

unfoldable pub push_status_name : PushStatus → Text
push_status_name pushed = text "pushed"
push_status_name up_to_date = text "up_to_date"
push_status_name auth_failed = text "auth_failed"
push_status_name not_found = text "not_found"
push_status_name network_error = text "network_error"
push_status_name non_fast_forward = text "non_fast_forward"
push_status_name push_remote_unset = text "remote_unset"
push_status_name unknown_error = text "unknown_error"

unfoldable pub pull_phase_status_name : PullPhaseStatus → Text
pull_phase_status_name not_attempted = text "not_attempted"
pull_phase_status_name succeeded_pull = text "succeeded"
pull_phase_status_name remote_unset = text "remote_unset"
pull_phase_status_name failed = text "failed"

abbrev pub push_succeeded : PushStatus → Bool
push_succeeded pushed = true
push_succeeded up_to_date = true
push_succeeded _ = false

abbrev pub pull_succeeded : PullPhaseStatus → Bool
pull_succeeded succeeded_pull = true
pull_succeeded _ = false

abbrev pub nonempty : Text → Option Text
nonempty value = if is_empty value then none else some value

-- `ProjectSyncResult::succeeded`
unfoldable pub succeeded : ProjectSyncResult → Bool
succeeded r =
    if r.pull.attempted && not (pull_succeeded r.pull.status)
    then false
    else if r.push.attempted && not (push_succeeded r.push.status)
    then false
    else r.pull.attempted || r.push.attempted

abbrev pub initial_pull : Bool → PullPhaseResult
initial_pull attempted = record {
  attempted = attempted;
  status = not_attempted;
  conflicts_resolved = pos 0;
  hidden_cards_repaired = pos 0;
  error_message = none;
}

abbrev pub initial_push : PushPhaseResult
initial_push = record {
  attempted = false;
  status = unknown_error;
  ahead_count = pos 0;
  behind_count = pos 0;
  local_head_commit = none;
  error_message = none;
}
