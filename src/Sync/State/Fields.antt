-- ===== src/Sync/State/Fields.antt =====
-- What a recorded result says in the row of its project, and what a refresh of the counts keeps.
use holder_core.Common.{
  ◌≡◌, refl, inl, inr, Bool, true, false, Option, none, some, if◌then◌else◌, Text, text, text_eq,
  Bool-cases, ap, sym, ◌∙◌, text_eq_sound,
}
use holder_core.Common.Int.{ℤ}
use holder_core.Sync.State.{
  SyncTable, ProjectSyncState, get, upsert, current, error_or, pushed_state, pulled_state,
  record_push_result, record_pull_result, update_activity_counts,
}
use holder_core.Sync.State.Retries.{
  get-upsert, current-get, get-record_push_result, get-record_pull_result, project_id-current,
}

-- the three fields that the phases of a sync report to
abbrev pub Says : Option Text → Option Text → Option Text → ProjectSyncState → Type 0
Says pull push error s =
    (s.last_pull_status ≡ pull) × (s.last_push_status ≡ push) × (s.last_sync_error ≡ error)

abbrev pub SameSays : ProjectSyncState → ProjectSyncState → Type 0
SameSays s t = Says s.last_pull_status s.last_push_status s.last_sync_error t

module _ (table : SyncTable) (id status : Text) (message : Option Text) (now : ℤ) where
  pushed-Says :
      (success : Bool) (s : ProjectSyncState)
      → Says s.last_pull_status
          (some status)
          (if success then none else error_or (text "push failed") message)
          (pushed_state s status success message now)
  unfolding pushed_state
  pushed-Says true s = (refl, refl, refl)
  pushed-Says false s = (refl, refl, refl)

  pulled-Says :
      (success : Bool) (s : ProjectSyncState)
      → Says
          (some status)
          s.last_push_status
          (if success then none else error_or (text "pull failed") message)
          (pulled_state s status success message now)
  unfolding pulled_state
  pulled-Says true s = (refl, refl, refl)
  pulled-Says false s = (refl, refl, refl)

  pub record_push_result-Says :
      (success : Bool)
      → Says
          (current table id).last_pull_status
          (some status)
          (if success then none else error_or (text "push failed") message)
          (current (record_push_result table id status success message now) id)
  record_push_result-Says success =
      rw
        (current-get (record_push_result table id status success message now) id _
          (get-record_push_result table id status success message now))
        (pushed-Says success (current table id))

  pub record_pull_result-Says :
      (success : Bool)
      → Says
          (some status)
          (current table id).last_push_status
          (if success then none else error_or (text "pull failed") message)
          (current (record_pull_result table id status success message now) id)
  record_pull_result-Says success =
      rw
        (current-get (record_pull_result table id status success message now) id _
          (get-record_pull_result table id status success message now))
        (pulled-Says success (current table id))

current-same : (t u : SyncTable) (id : Text) → get t id ≡ get u id → current t id ≡ current u id
unfolding current
current-same t u id e = rw (e, current) refl

-- A refresh of the counts of any project keeps what the row says of the phases.
pub update_activity_counts-SameSays :
    (table : SyncTable) (project id : Text) (uncommitted unpushed now : ℤ)
    → SameSays
        (current table id)
        (current (update_activity_counts table project uncommitted unpushed now) id)
unfolding update_activity_counts upsert
update_activity_counts-SameSays table project id uncommitted unpushed now =
    let new : ProjectSyncState = record (current table project) {
      uncommitted_changes_count = uncommitted;
      unpushed_commits_count = unpushed;
      updated_at = now;
    } in
    let written = get-upsert table new id in
    elim (Bool-cases (text_eq (current table project).project_id id)) [
      | inl b ↦
          let e : project ≡ id = sym (project_id-current table project) ∙ text_eq_sound _ _ b in
          let cur : current (upsert table new) id ≡ record new { project_id = id } =
            current-get (upsert table new) id new (written ∙ rw b refl) in
          (
            ap (λ s. s.last_pull_status) cur ∙ ap (λ p. (current table p).last_pull_status) e,
            ap (λ s. s.last_push_status) cur ∙ ap (λ p. (current table p).last_push_status) e,
            ap (λ s. s.last_sync_error) cur ∙ ap (λ p. (current table p).last_sync_error) e,
          )
      | inr b ↦
          let cur : current (upsert table new) id ≡ current table id =
            current-same (upsert table new) table id (written ∙ rw b refl) in
          (
            ap (λ s. s.last_pull_status) cur,
            ap (λ s. s.last_push_status) cur,
            ap (λ s. s.last_sync_error) cur,
          )
    ]
