-- ===== src/Sync/Run.antt =====
-- The phases of `run_project_sync` (sync/ProjectSyncOperation.cpp).
pub mod Recorded
use holder_core.Common.{
  Bool, true, false, Option, none, some, [], if◌then◌else◌, Text, text, text_eq, ◌&&◌, ◌||◌, not,
  is_empty,
}
use holder_core.Common.Int.{ℤ, pos}
use holder_core.Sync.State.{
  SyncTable, record_push_result, record_pull_result, update_activity_counts,
}
use holder_core.Sync.Operation.{
  World, Project, Attempt, threw, returned, PullPhaseResult, PushPhaseResult, PushResult, Pulled,
  up_to_remote, diverged, ProjectSyncRequest, ProjectSyncResult, initial_pull, initial_push, failed,
  succeeded_pull, remote_unset, push_remote_unset, nonempty, pull_succeeded, push_succeeded,
  pull_phase_status_name, push_status_name,
}

pub data SyncOutcome (State : Type 0) : Type 0 where
  invalid_argument project_not_found root_changed : SyncOutcome State
  synced : ProjectSyncResult → State → SyncTable → SyncOutcome State

module _ (W : World) where
  open W use {State}

  -- a call, the `catch` around it, and what follows it
  unfoldable pub attempt :
      {A R : Type 0} → Attempt A × State → (Text → State → R) → (A → State → R) → R
  attempt (threw message, w) caught next = caught message w
  attempt (returned a, w) caught next = next a w

  -- the `catch` of the pull, with the conflicts that were resolved before
  unfoldable pub pull_failed : ℤ → Text → State → PullPhaseResult × State
  pull_failed conflicts message w = (
    record (initial_pull true) {
      status = failed;
      conflicts_resolved = conflicts;
      error_message = some message;
    },
    w,
  )

  unfoldable pub pull_done : ℤ → ℤ → State → PullPhaseResult × State
  pull_done conflicts repaired w = (
    record (initial_pull true) {
      status = succeeded_pull;
      conflicts_resolved = conflicts;
      hidden_cards_repaired = repaired;
    },
    w,
  )

  -- behind the pull itself: the index, and the repair, which is best effort
  unfoldable pub after_pull : Project → ℤ → ℤ → State → PullPhaseResult × State
  after_pull project now conflicts w =
      attempt (W.reconcile_index_after_pull w project) (pull_failed conflicts) (λ u w1.
        attempt (W.repair_hierarchy w1 project.project_id now)
          (λ message w2. pull_done conflicts (pos 0) w2) (λ n w2. pull_done conflicts n w2))

  unfoldable pub after_fetch : Project → ℤ → Pulled → State → PullPhaseResult × State
  after_fetch project now up_to_remote w = after_pull project now (pos 0) w
  after_fetch project now (diverged l r) w =
      attempt (W.resolve_pull_conflicts w project l r now) (pull_failed (pos 0))
        (λ n w1. after_pull project now n w1)

  unfoldable pub pull_phase : Project → Text → ℤ → State → PullPhaseResult × State
  pull_phase project url now w =
      attempt (W.open_or_init w project.root_path) (pull_failed (pos 0)) (λ u w1.
        attempt (W.set_remote w1 (text "origin") url) (pull_failed (pos 0)) (λ v w2.
          attempt (W.pull_remote_ff_only w2 (text "origin")) (pull_failed (pos 0))
            (after_fetch project now)))

  unfoldable pub push_failed : Text → State → PushPhaseResult × State
  push_failed message w =
      (record initial_push { attempted = true; error_message = some message }, w)

  unfoldable pub push_done : PushResult → State → PushPhaseResult × State
  push_done r w = (
    record {
      attempted = true;
      status = r.status;
      ahead_count = r.ahead_count;
      behind_count = r.behind_count;
      local_head_commit = nonempty r.local_head_commit;
      error_message = nonempty r.error_message;
    },
    w,
  )

  unfoldable pub push_is_safe : Project → State → Attempt (Unit {0})
  unfolding text_eq
  push_is_safe project w =
      if text_eq project.privacy_mode (text "encrypted_git")
      then W.assert_encryption_push_safe w project.root_path
      else returned tt

  unfoldable pub push_phase : Project → Text → ProjectSyncRequest → State → PushPhaseResult × State
  push_phase project url request w =
      attempt (W.open_or_init w project.root_path) push_failed (λ u w1.
        attempt (W.set_remote w1 (text "origin") url) push_failed (λ v w2.
          attempt (push_is_safe project w2, w2) push_failed
            (λ s w3.
              attempt (W.push_branch w3 (text "origin") request.branch request.set_upstream)
                push_failed push_done)))

  unfoldable pub refresh_activity_best_effort : Project → ℤ → State → SyncTable → SyncTable
  unfolding update_activity_counts
  refresh_activity_best_effort project now w table =
      elim (W.inspect_repo_sync_metrics w project.root_path) [
        | threw message ↦ table
        | returned counts ↦ update_activity_counts table project.project_id counts.0 counts.1 now
      ]

  abbrev pub record_pull : Text → ℤ → PullPhaseResult → SyncTable → SyncTable
  record_pull id now r table =
      record_pull_result table id (pull_phase_status_name r.status) (pull_succeeded r.status)
        r.error_message now

  abbrev pub record_push : Text → ℤ → PushPhaseResult → SyncTable → SyncTable
  record_push id now r table =
      record_push_result table id (push_status_name r.status) (push_succeeded r.status)
        r.error_message now

  -- the two phases where there is a remote
  unfoldable pub pull_if :
      Bool → Project → Text → Text → ℤ → State → SyncTable → PullPhaseResult × (State × SyncTable)
  unfolding pull_phase refresh_activity_best_effort
  pull_if false project id url now w table = (initial_pull false, (w, table))
  pull_if true project id url now w table =
      let (r, w1) = pull_phase project url now w in
      (r, (w1, refresh_activity_best_effort project now w1 (record_pull id now r table)))

  unfoldable pub push_if :
      Bool
      → Project
      → Text
      → Text
      → ProjectSyncRequest
      → State
      → SyncTable
      → PushPhaseResult × (State × SyncTable)
  unfolding push_phase refresh_activity_best_effort
  push_if false project id url request w table = (initial_push, (w, table))
  push_if true project id url request w table =
      let (r, w1) = push_phase project url request w in
      (
        r,
        (
          w1,
          refresh_activity_best_effort project request.now w1 (record_push id request.now r table),
        ),
      )

  -- `request.push && (!request.pull || ... || request.push_after_failed_pull)`
  abbrev pub push_wanted : ProjectSyncRequest → PullPhaseResult → Bool
  push_wanted request r =
      request.push
      && (not request.pull || (pull_succeeded r.status || request.push_after_failed_pull))

  unfoldable pub sync_phases :
      Project → Text → Text → ProjectSyncRequest → State → SyncTable → SyncOutcome State
  unfolding pull_if push_if
  sync_phases project id url request w table =
      let (pull, (w1, t1)) = pull_if request.pull project id url request.now w table in
      let (push, (w2, t2)) = push_if (push_wanted request pull) project id url request w1 t1 in
      synced
        (record {
          project_id = project.project_id;
          remote_url = project.git_remote_url;
          pull = pull;
          push = push;
        })
        w2 t2

  abbrev pub remote_error : Text
  remote_error = text "Remote URL is not configured."

  abbrev pub unset_pull : PullPhaseResult
  unset_pull = record (initial_pull true) {
    status = remote_unset;
    error_message = some remote_error;
  }

  abbrev pub unset_push : PushPhaseResult
  unset_push = record initial_push {
    attempted = true;
    status = push_remote_unset;
    error_message = some remote_error;
  }

  unfoldable pub without_remote : Bool → Project → Text → ℤ → State → SyncTable → SyncOutcome State
  without_remote true project id now w table =
      synced
        (record {
          project_id = project.project_id;
          remote_url = project.git_remote_url;
          pull = unset_pull;
          push = initial_push;
        })
        w (record_pull id now unset_pull table)
  without_remote false project id now w table =
      synced
        (record {
          project_id = project.project_id;
          remote_url = project.git_remote_url;
          pull = initial_pull false;
          push = unset_push;
        })
        w (record_push id now unset_push table)

  unfoldable pub sync_project :
      Project → Text → ProjectSyncRequest → State → SyncTable → SyncOutcome State
  unfolding sync_phases without_remote
  sync_project project id request w table = elim project.git_remote_url [
    | none ↦ without_remote request.pull project id request.now w table
    | some url ↦
        if is_empty url
        then without_remote request.pull project id request.now w table
        else sync_phases project id url request w table
  ]

  -- behind the lock, which is taken on the root that the project had before
  unfoldable pub locked :
      Option Project → Text → Text → ProjectSyncRequest → State → SyncTable → SyncOutcome State
  unfolding sync_project text_eq
  locked none root id request w table = project_not_found
  locked (some project) root id request w table =
      if not (text_eq project.root_path root)
      then root_changed
      else sync_project project id request w table

  unfoldable pub run_project_sync :
      State → SyncTable → Text → ProjectSyncRequest → SyncOutcome State
  unfolding locked
  run_project_sync w table id request =
      if is_empty id
      then invalid_argument
      else if not request.pull && not request.push
      then invalid_argument
      else elim (W.get_project w id) [
        | none ↦ project_not_found
        | some before ↦
            let w1 = W.lock_operation w before.root_path in
            locked (W.get_project w1 id) before.root_path id request w1 table
      ]
