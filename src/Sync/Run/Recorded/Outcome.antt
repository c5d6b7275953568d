-- ===== src/Sync/Run/Recorded/Outcome.antt =====
-- What `run_project_sync` leaves where it returns a result.
use holder_core.Common.{
  ◌≡◌, refl, inl, inr, Bool, true, false, Option, none, some, if◌then◌else◌, Text, text_eq,
  Bool-cases, Option-cases, ap, sym, ◌∙◌, ◌&&◌, ◌||◌, not, is_empty, arith, subst,
}
use holder_core.Sync.State.{SyncTable, current}
use holder_core.Sync.State.Fields.{Says, record_push_result-Says, record_pull_result-Says}
use holder_core.Sync.Operation.{
  World, Project, ProjectSyncRequest, ProjectSyncResult, pull_succeeded, pull_phase_status_name,
  push_status_name, succeeded, remote_unset, push_remote_unset,
}
use holder_core.Sync.Run.{
  SyncOutcome, synced, run_project_sync, locked, sync_project, sync_phases, without_remote, pull_if,
  push_if, push_wanted, remote_error,
}
use holder_core.Sync.Run.Recorded.{pull_error, push_error, pull_if-Says, push_if-Says}

implies_self : (x b : Bool) → x ≡ b → (not x || b) ≡ true
implies_self x b e = ground arith

module _ (W : World) (id : Text) where
  open W use {State}

  -- the row of the project says what the result says, the push after the pull
  abbrev pub Recorded : SyncTable → ProjectSyncResult → SyncTable → Type 0
  Recorded before r after =
      Says
        (if r.pull.attempted
          then some (pull_phase_status_name r.pull.status)
          else (current before id).last_pull_status)
        (if r.push.attempted
          then some (push_status_name r.push.status)
          else (current before id).last_push_status)
        (push_error W id r.push.attempted r.push
          (pull_error W id r.pull.attempted r.pull (current before id).last_sync_error))
        (current after id)

  -- a push was asked for, and no pull that was asked for stands in its way
  abbrev pub PushAllowed : ProjectSyncRequest → ProjectSyncResult → Type 0
  PushAllowed request r =
      (not r.push.attempted
        || (request.push
            && (not request.pull
                || (pull_succeeded r.pull.status || request.push_after_failed_pull))))
      ≡ true

  abbrev Holds : SyncTable → ProjectSyncRequest → SyncOutcome State → Type 0
  Holds before request (synced r w after) =
      Recorded before r after × ((r.pull.attempted ≡ request.pull) × PushAllowed request r)
  Holds before request _ = Unit

  -- both phases, one after the other
  phases-Recorded :
      (before middle after : SyncTable) (r : ProjectSyncResult)
      → Says
          (if r.pull.attempted
            then some (pull_phase_status_name r.pull.status)
            else (current before id).last_pull_status)
          (current before id).last_push_status
          (pull_error W id r.pull.attempted r.pull (current before id).last_sync_error)
          (current middle id)
      → Says
          (current middle id).last_pull_status
          (if r.push.attempted
            then some (push_status_name r.push.status)
            else (current middle id).last_push_status)
          (push_error W id r.push.attempted r.push (current middle id).last_sync_error)
          (current after id)
      → Recorded before r after
  phases-Recorded before middle after r p q = (
    q.0 ∙ p.0,
    q.1 ∙ ap (λ o. if r.push.attempted then some (push_status_name r.push.status) else o) p.1,
    q.2 ∙ ap (push_error W id r.push.attempted r.push) p.2,
  )

  sync_phases-Holds :
      (project : Project) (url : Text) (request : ProjectSyncRequest) (w : State)
      (table : SyncTable)
      → Holds table request (sync_phases W project id url request w table)
  unfolding sync_phases
  sync_phases-Holds project url request w table =
      let first = pull_if W request.pull project id url request.now w table in
      let second =
        push_if W (push_wanted W request first.0) project id url request first.1.0 first.1.1 in
      let (a, p) = pull_if-Says W id request.pull project url request.now w table in
      let (b, q) =
        push_if-Says W id (push_wanted W request first.0) project url request first.1.0 first.1.1 in
      (
        phases-Recorded table first.1.1 second.1.1
            (record {
              project_id = project.project_id;
              remote_url = project.git_remote_url;
              pull = first.0;
              push = second.0;
            })
            (rw a p) (rw b q),
        (a, implies_self second.0.attempted (push_wanted W request first.0) b),
      )

  without_remote-Holds :
      (project : Project) (request : ProjectSyncRequest) (w : State) (table : SyncTable)
      (pull : Bool)
      → request.pull ≡ pull
      → (not request.pull && not request.push) ≡ false
      → Holds table request (without_remote W pull project id request.now w table)
  unfolding without_remote
  without_remote-Holds project request w table true e asked = (
    record_pull_result-Says table id (pull_phase_status_name remote_unset) (some (remote_error W))
        request.now false,
    (sym e, refl),
  )
  without_remote-Holds project request w table false e asked = (
    record_push_result-Says table id (push_status_name push_remote_unset) (some (remote_error W))
        request.now false,
    (sym e, ground arith),
  )

  sync_project-Holds :
      (project : Project) (request : ProjectSyncRequest) (w : State) (table : SyncTable)
      → (not request.pull && not request.push) ≡ false
      → Holds table request (sync_project W project id request w table)
  unfolding sync_project
  sync_project-Holds project request w table asked = go project.git_remote_url
    where
      unset : Holds table request (without_remote W request.pull project id request.now w table)
      unset = without_remote-Holds project request w table request.pull refl asked

      chosen :
          (b : Bool) (url : Text)
          → Holds table request (
              if b
              then without_remote W request.pull project id request.now w table
              else sync_phases W project id url request w table)
      chosen true url = unset
      chosen false url = sync_phases-Holds project url request w table

      go :
          (o : Option Text)
          → Holds table request (elim o as (λ x. SyncOutcome State) [
            | none ↦ without_remote W request.pull project id request.now w table
            | some url ↦
                if is_empty url
                then without_remote W request.pull project id request.now w table
                else sync_phases W project id url request w table
          ])
      go none = unset
      go (some url) = chosen (is_empty url) url

  locked-Holds :
      (o : Option Project) (root : Text) (request : ProjectSyncRequest) (w : State)
      (table : SyncTable)
      → (not request.pull && not request.push) ≡ false
      → Holds table request (locked W o root id request w table)
  unfolding locked
  locked-Holds none root request w table asked = tt
  locked-Holds (some project) root request w table asked =
      elim (Bool-cases (text_eq project.root_path root)) [
        | inl b ↦ rw b (sync_project-Holds project request w table asked)
        | inr b ↦ rw b tt
      ]

  run-Holds :
      (w : State) (table : SyncTable) (request : ProjectSyncRequest)
      → Holds table request (run_project_sync W w table id request)
  unfolding run_project_sync
  run-Holds w table request = elim (Bool-cases (is_empty id)) [
    | inl b ↦ rw b tt
    | inr b ↦ elim (Bool-cases (not request.pull && not request.push)) [
      | inl c ↦ rw (b, c) tt
      | inr c ↦ elim (Option-cases (W.get_project w id)) [
        | inl n ↦ rw (b, c, n) tt
        | inr (before, e) ↦
            rw (b, c, e)
              (locked-Holds (W.get_project (W.lock_operation w before.root_path) id)
                before.root_path request (W.lock_operation w before.root_path) table c)
      ]
    ]
  ]

  module _ (w : State) (table : SyncTable) (request : ProjectSyncRequest) (r : ProjectSyncResult)
      (w' : State) (after : SyncTable) where
    -- Where `run_project_sync` returns a result, the pull is attempted exactly if it was asked
    -- for, and the sync row of the project holds the status of each phase that was attempted and
    -- what it held before of the others; its error is the one of the last phase attempted, or
    -- none where that phase succeeded.
    pub run_project_sync-Recorded :
        run_project_sync W w table id request ≡ synced r w' after
        → Recorded table r after × (r.pull.attempted ≡ request.pull)
    run_project_sync-Recorded h =
        let x = subst (Holds table request) h (run-Holds w table request) in (x.0, x.1.0)

    -- Where `run_project_sync` returns a result, a push was attempted only if it was asked for,
    -- and if a pull was asked for too, only after one that succeeded or where the request lets a
    -- push follow a failed pull.
    pub run_project_sync-PushAllowed :
        run_project_sync W w table id request ≡ synced r w' after → PushAllowed request r
    run_project_sync-PushAllowed h = (subst (Holds table request) h (run-Holds w table request)).1.1

    -- Where `run_project_sync` returns a result that has succeeded, the sync row of the project
    -- holds no error.
    pub run_project_sync-clears_error :
        run_project_sync W w table id request ≡ synced r w' after
        → succeeded r ≡ true
        → (current after id).last_sync_error ≡ none
    unfolding succeeded
    run_project_sync-clears_error h done = (run_project_sync-Recorded h).0.2 ∙ ground arith
