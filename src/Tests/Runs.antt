-- ===== src/Tests/Runs.antt =====
-- A sync of a project whose remote takes every pull and push, and the theorems on it.
use holder_core.Common.{
  ◌≡◌, refl, text, [], ◌∷◌, some, none, true, false, text_eq, if◌then◌else◌, ℕ, suc,
}
use holder_core.Common.Int.{pos}
use holder_core.Sync.State.{
  SyncTable, current, initial_state, record_push_result, record_pull_result,
}
use holder_core.Sync.Operation.{
  World, Project, returned, up_to_remote, pushed, ProjectSyncRequest, ProjectSyncResult,
  initial_pull, succeeded_pull, succeeded, pull_phase_status_name, push_status_name,
}
use holder_core.Sync.Run.{
  synced, run_project_sync, attempt, after_pull, after_fetch, pull_phase, pull_done, push_phase,
  push_done, push_is_safe,
}
use holder_core.Sync.Run.Recorded.Outcome.{
  Recorded, PushAllowed, run_project_sync-Recorded, run_project_sync-PushAllowed,
  run_project_sync-clears_error,
}

abbrev project_p : Project
project_p = record {
  project_id = text "p";
  root_path = text "/p";
  git_remote_url = some (text "git@h:p");
  privacy_mode = text "plain";
}

-- the state counts the calls of git
abbrev willing : World
willing = record {
  State = ℕ;
  get_project = λ w id. if text_eq id (text "p") then some project_p else none;
  lock_operation = λ w root. w;
  open_or_init = λ w root. (returned tt, suc w);
  set_remote = λ w name url. (returned tt, suc w);
  pull_remote_ff_only = λ w name. (returned up_to_remote, suc w);
  resolve_pull_conflicts = λ w p l r now. (returned (pos 0), w);
  reconcile_index_after_pull = λ w p. (returned tt, w);
  repair_hierarchy = λ w id now. (returned (pos 2), w);
  inspect_repo_sync_metrics = λ w root. returned (pos 0, pos 0);
  assert_encryption_push_safe = λ w root. returned tt;
  push_branch = λ w name branch upstream. (
    returned (record {
      status = pushed;
      ahead_count = pos 0;
      behind_count = pos 0;
      local_head_commit = text "c0";
      error_message = [];
    }),
    suc w,
  );
}

abbrev both : ProjectSyncRequest
both = record {
  pull = true;
  push = true;
  push_after_failed_pull = false;
  branch = text "main";
  set_upstream = true;
  now = pos 50;
}

abbrev both_done : ProjectSyncResult
both_done = record {
  project_id = text "p";
  remote_url = some (text "git@h:p");
  pull = record (initial_pull true) { status = succeeded_pull; hidden_cards_repaired = pos 2 };
  push = record {
    attempted = true;
    status = pushed;
    ahead_count = pos 0;
    behind_count = pos 0;
    local_head_commit = some (text "c0");
    error_message = none;
  };
}

abbrev row_after : SyncTable
row_after =
    record initial_state {
      project_id = text "p";
      last_push_at = some (pos 50);
      last_pull_at = some (pos 50);
      last_push_status = some (text "pushed");
      last_pull_status = some (text "succeeded");
      updated_at = pos 50;
    }
    ∷ []

run_both : run_project_sync willing 0 [] (text "p") both ≡ synced both_done 6 row_after
unfolding run_project_sync attempt after_pull after_fetch pull_phase pull_done push_phase push_done
    push_is_safe text_eq pull_phase_status_name push_status_name record_push_result
    record_pull_result
run_both = refl

both_succeeded : succeeded both_done ≡ true
unfolding succeeded
both_succeeded = refl

run_project_sync-Recorded_example :
    Recorded willing (text "p") [] both_done row_after × (both_done.pull.attempted ≡ both.pull)
run_project_sync-Recorded_example =
    run_project_sync-Recorded willing (text "p") 0 [] both both_done 6 row_after run_both

run_project_sync-PushAllowed_example : PushAllowed willing (text "p") both both_done
run_project_sync-PushAllowed_example =
    run_project_sync-PushAllowed willing (text "p") 0 [] both both_done 6 row_after run_both

run_project_sync-clears_error_example : (current row_after (text "p")).last_sync_error ≡ none
run_project_sync-clears_error_example =
    run_project_sync-clears_error willing (text "p") 0 [] both both_done 6 row_after run_both
      both_succeeded
