-- ===== src/Sync/Run/Recorded.antt =====
-- What a sync leaves in the sync table, and when it pushes.
pub mod Outcome
use holder_core.Common.{
  true, false, inl, inr, ◌⊎◌, Bool-cases, ◌≡◌, arith, is_empty, text_eq, ◌&&◌, ◌||◌, not, refl,
  Text, ◌≡◌, true, Bool, Option, if◌then◌else◌, some, ◌∙◌, none, text,
}
use holder_core.Common.Int.{ℤ, pos}
use holder_core.Sync.State.{SyncTable, current, update_activity_counts, ProjectSyncState, error_or}
use holder_core.Sync.State.Fields.{
  SameSays, update_activity_counts-SameSays, record_pull_result-Says, record_push_result-Says, Says,
}
use holder_core.Sync.Operation.{
  World, Project, Pulled, up_to_remote, diverged, Attempt, threw, returned, PushPhaseResult,
  PullPhaseResult, ProjectSyncRequest, PushResult, push_succeeded, pull_succeeded,
  pull_phase_status_name, push_status_name,
}
use holder_core.Sync.Run.{
  refresh_activity_best_effort, push_phase, pull_failed, attempt, after_fetch, pull_phase,
  after_pull, push_failed, push_if, pull_done, pull_if, push_done, record_push, record_pull,
}

module _ (W : World) (id : Text) where
  open W use {State}

  refresh-SameSays :
      (project : Project) (now : ℤ) (w : State) (table : SyncTable)
      → SameSays
          (current table id)
          (current (refresh_activity_best_effort W project now w table) id)
  unfolding refresh_activity_best_effort
  refresh-SameSays project now w table = go (W.inspect_repo_sync_metrics w project.root_path)
    where
      go :
          (a : Attempt (ℤ × ℤ))
          → SameSays (current table id) (
              current
                (elim a as (λ x. SyncTable) [
                  | threw message ↦ table
                  | returned counts ↦
                      update_activity_counts table project.project_id counts.0 counts.1 now
                ])
                id)
      go (threw m) = (refl, refl, refl)
      go (returned c) = update_activity_counts-SameSays table project.project_id id c.0 c.1 now

  -- what holds of a caught call and of what follows it holds of both
  attempt-Each :
      {A R : Type 0} (P : R → Type 0) (a : Attempt A × State) (caught : Text → State → R)
      (next : A → State → R)
      → ((m : Text) (w : State) → P (caught m w))
      → ((x : A) (w : State) → P (next x w))
      → P (attempt W a caught next)
  unfolding attempt
  attempt-Each P (threw m, w) caught next hc hn = hc m w
  attempt-Each P (returned x, w) caught next hc hn = hn x w

  PullAttempted : PullPhaseResult × State → Type 0
  PullAttempted r = r.0.attempted ≡ true

  PushAttempted : PushPhaseResult × State → Type 0
  PushAttempted r = r.0.attempted ≡ true

  pull_failed-PullAttempted :
      (conflicts : ℤ) (m : Text) (w : State) → PullAttempted (pull_failed W conflicts m w)
  unfolding pull_failed PullAttempted
  pull_failed-PullAttempted conflicts m w = refl

  pull_done-PullAttempted :
      (conflicts repaired : ℤ) (w : State) → PullAttempted (pull_done W conflicts repaired w)
  unfolding pull_done PullAttempted
  pull_done-PullAttempted conflicts repaired w = refl

  push_done-PushAttempted : (r : PushResult) (w : State) → PushAttempted (push_done W r w)
  unfolding push_done PushAttempted
  push_done-PushAttempted r w = refl

  after_pull-PullAttempted :
      (project : Project) (now conflicts : ℤ) (w : State)
      → PullAttempted (after_pull W project now conflicts w)
  unfolding after_pull
  after_pull-PullAttempted project now conflicts w =
      attempt-Each PullAttempted _ _ _ (pull_failed-PullAttempted conflicts) (λ u w1.
        attempt-Each PullAttempted _ _ _ (λ m w2. pull_done-PullAttempted conflicts (pos 0) w2)
          (λ n w2. pull_done-PullAttempted conflicts n w2))

  after_fetch-PullAttempted :
      (project : Project) (now : ℤ) (p : Pulled) (w : State)
      → PullAttempted (after_fetch W project now p w)
  unfolding after_fetch
  after_fetch-PullAttempted project now up_to_remote w = after_pull-PullAttempted project now _ w
  after_fetch-PullAttempted project now (diverged l r) w =
      attempt-Each PullAttempted _ _ _ (pull_failed-PullAttempted _)
        (λ n w1. after_pull-PullAttempted project now n w1)

  pull_phase-PullAttempted :
      (project : Project) (url : Text) (now : ℤ) (w : State)
      → PullAttempted (pull_phase W project url now w)
  unfolding pull_phase
  pull_phase-PullAttempted project url now w =
      attempt-Each PullAttempted _ _ _ (pull_failed-PullAttempted _) (λ u w1.
        attempt-Each PullAttempted _ _ _ (pull_failed-PullAttempted _) (λ v w2.
          attempt-Each PullAttempted _ _ _ (pull_failed-PullAttempted _)
            (λ p w3. after_fetch-PullAttempted project now p w3)))

  push_failed-PushAttempted : (m : Text) (w : State) → PushAttempted (push_failed W m w)
  unfolding push_failed PushAttempted
  push_failed-PushAttempted m w = refl

  push_phase-PushAttempted :
      (project : Project) (url : Text) (request : ProjectSyncRequest) (w : State)
      → PushAttempted (push_phase W project url request w)
  unfolding push_phase
  push_phase-PushAttempted project url request w =
      attempt-Each PushAttempted _ _ _ push_failed-PushAttempted (λ u w1.
        attempt-Each PushAttempted _ _ _ push_failed-PushAttempted (λ v w2.
          attempt-Each PushAttempted _ _ _ push_failed-PushAttempted (λ s w3.
            attempt-Each PushAttempted _ _ _ push_failed-PushAttempted push_done-PushAttempted)))

  -- what the table says after a pull phase that ran or did not
  abbrev pub pull_error : Bool → PullPhaseResult → Option Text → Option Text
  pull_error attempted r old =
      if attempted
      then if pull_succeeded r.status then none else error_or (text "pull failed") r.error_message
      else old

  abbrev pub push_error : Bool → PushPhaseResult → Option Text → Option Text
  push_error attempted r old =
      if attempted
      then if push_succeeded r.status then none else error_or (text "push failed") r.error_message
      else old

  pub Says-same :
      {pull push error : Option Text} (s t : ProjectSyncState)
      → Says pull push error s
      → SameSays s t
      → Says pull push error t
  Says-same s t r e = (e.0 ∙ r.0, e.1 ∙ r.1, e.2 ∙ r.2)

  pub pull_if-Says :
      (b : Bool) (project : Project) (url : Text) (now : ℤ) (w : State) (table : SyncTable)
      → let out = pull_if W b project id url now w table in
        let s = current table id in
        (out.0.attempted ≡ b)
        × Says
            (if b then some (pull_phase_status_name out.0.status) else s.last_pull_status)
            s.last_push_status
            (pull_error b out.0 s.last_sync_error)
            (current out.1.1 id)
  unfolding pull_if
  pull_if-Says false project url now w table = (refl, (refl, refl, refl))
  pull_if-Says true project url now w table =
      let (r, w1) = pull_phase W project url now w in
      (
        unfold PullAttempted in pull_phase-PullAttempted project url now w,
        Says-same (current (record_pull W id now r table) id)
            (current (refresh_activity_best_effort W project now w1 (record_pull W id now r table))
              id)
            (record_pull_result-Says table id (pull_phase_status_name r.status) r.error_message now
              (pull_succeeded r.status))
            (refresh-SameSays project now w1 (record_pull W id now r table)),
      )

  pub push_if-Says :
      (b : Bool) (project : Project) (url : Text) (request : ProjectSyncRequest) (w : State)
      (table : SyncTable)
      → let out = push_if W b project id url request w table in
        let s = current table id in
        (out.0.attempted ≡ b)
        × Says s.last_pull_status
            (if b then some (push_status_name out.0.status) else s.last_push_status)
            (push_error b out.0 s.last_sync_error)
            (current out.1.1 id)
  unfolding push_if
  push_if-Says false project url request w table = (refl, (refl, refl, refl))
  push_if-Says true project url request w table =
      let (r, w1) = push_phase W project url request w in
      (
        unfold PushAttempted in push_phase-PushAttempted project url request w,
        Says-same (current (record_push W id request.now r table) id)
            (current
              (refresh_activity_best_effort W project request.now w1
                (record_push W id request.now r table))
              id)
            (record_push_result-Says table id (push_status_name r.status) r.error_message
              request.now (push_succeeded r.status))
            (refresh-SameSays project request.now w1 (record_push W id request.now r table)),
      )
