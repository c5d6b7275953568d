-- ===== src/Sync/State/Retries.antt =====
-- The table after recorded results, the retry counters, and what they mean for the next decision.
use holder_core.Common.{
  ℕ, zero, suc, ◌≡◌, sym, ap, length, refl, inl, inr, Bool, true, false, Option, some, List, [],
  ◌∷◌, arith, if◌then◌else◌, Text, ◌≢◌, Option-cases, text_eq, text_eq_refl, ◌∙◌, text_eq_iff,
  subst,
}
use holder_core.Common.Int.{ℤ, pos, negsuc, ◌+ℤ◌, ◌≤ℤ◌, int_laws, +ℤ_parts}
use holder_core.Sync.Policy.{PushDecisionInput, should_attempt_push, is_due}
use holder_core.Sync.State.{
  SyncTable, ProjectSyncState, get, upsert, current, pushed_state, pulled_state, record_push_result,
  record_pull_result, backoff_seconds_for_retry,
}

pub get-upsert :
    (table : SyncTable) (s : ProjectSyncState) (id : Text)
    → get (upsert table s) id ≡ (if text_eq s.project_id id then some s else get table id)
unfolding get upsert
get-upsert [] s id = refl
get-upsert (r ∷ rows) s id = ground (
  arith,
  text_eq_iff r.project_id s.project_id,
  text_eq_iff s.project_id id,
  text_eq_iff r.project_id id,
  get-upsert rows s id,
)

pub project_id-current : (table : SyncTable) (id : Text) → (current table id).project_id ≡ id
unfolding current
project_id-current table id = elim (Option-cases (get table id)) [
  | inl n ↦ rw (n, current) refl
  | inr (s, e) ↦ rw (e, current) refl
]

-- A row that is written for the project is the one that is read back, and no other row changes.
pub get-written :
    (table : SyncTable) (id : Text) (s : ProjectSyncState)
    → s.project_id ≡ id
    → (get (upsert table s) id ≡ some s)
      × ((other : Text) → id ≢ other → get (upsert table s) other ≡ get table other)
get-written table id s e = (
  rw (get-upsert table s id) (rw e (rw (text_eq_refl id))),
  λ other ne. rw (get-upsert table s other) (rw e (ground (arith, text_eq_iff id other))),
)

project_id-pushed_state :
    (s : ProjectSyncState) (status : Text) (success : Bool) (message : Option Text) (now : ℤ)
    → (pushed_state s status success message now).project_id ≡ s.project_id
unfolding pushed_state
project_id-pushed_state s status true message now = refl
project_id-pushed_state s status false message now = refl

project_id-pulled_state :
    (s : ProjectSyncState) (status : Text) (success : Bool) (message : Option Text) (now : ℤ)
    → (pulled_state s status success message now).project_id ≡ s.project_id
unfolding pulled_state
project_id-pulled_state s status true message now = refl
project_id-pulled_state s status false message now = refl

module _ (table : SyncTable) (id status : Text) (success : Bool) (message : Option Text)
    (now : ℤ) where
  pub get-record_push_result :
      get (record_push_result table id status success message now) id
      ≡ some (pushed_state (current table id) status success message now)
  unfolding record_push_result upsert
  get-record_push_result =
      (get-written table id (pushed_state (current table id) status success message now) (
        project_id-pushed_state (current table id) status success message now
        ∙ project_id-current table id)).0

  pub get-record_pull_result :
      get (record_pull_result table id status success message now) id
      ≡ some (pulled_state (current table id) status success message now)
  unfolding record_pull_result upsert
  get-record_pull_result =
      (get-written table id (pulled_state (current table id) status success message now) (
        project_id-pulled_state (current table id) status success message now
        ∙ project_id-current table id)).0

-- The row after a recorded push result, as `current` reads it.
pub current-get :
    (table : SyncTable) (id : Text) (s : ProjectSyncState)
    → get table id ≡ some s
    → current table id ≡ record s { project_id = id }
unfolding current
current-get table id s e = rw (e, current) refl

-- A run of failed pushes of one project, each with its message and its time.
pub failed_pushes : SyncTable → Text → Text → List (Option Text × ℤ) → SyncTable
failed_pushes table id status [] = table
failed_pushes table id status (f ∷ fs) =
    failed_pushes (record_push_result table id status false f.0 f.1) id status fs

pub backoff-Bounds :
    (n : ℕ)
    → (pos 60 ≤ℤ backoff_seconds_for_retry (pos (suc n)))
      × (backoff_seconds_for_retry (pos (suc n)) ≤ℤ pos 1800)
unfolding backoff_seconds_for_retry
backoff-Bounds zero = ground arith
backoff-Bounds (suc zero) = ground arith
backoff-Bounds (suc (suc zero)) = ground arith
backoff-Bounds (suc (suc (suc zero))) = ground arith
backoff-Bounds (suc (suc (suc (suc n)))) = ground arith

-- The row of a project after a push that failed.
pub current-failed_push :
    (table : SyncTable) (id status : Text) (message : Option Text) (now : ℤ)
    → ((current (record_push_result table id status false message now) id).retry_count
        ≡ (current table id).retry_count +ℤ pos 1)
      × ((current (record_push_result table id status false message now) id).next_retry_at
          ≡ some (now +ℤ backoff_seconds_for_retry ((current table id).retry_count +ℤ pos 1)))
unfolding pushed_state
current-failed_push table id status message now =
    let e =
      current-get (record_push_result table id status false message now) id
        (pushed_state (current table id) status false message now)
        (get-record_push_result table id status false message now) in
    (ap (λ s. s.retry_count) e, ap (λ s. s.next_retry_at) e)

-- the policy's input for a project's row
abbrev pub push_input : ProjectSyncState → ℤ → ℤ → PushDecisionInput
push_input s interval t = record {
  last_push_at = s.last_push_at;
  next_retry_at = s.next_retry_at;
  now = t;
  push_interval_seconds = interval;
}

+ℤ_zero : (a : ℤ) → a ≡ a +ℤ pos 0
+ℤ_zero a = grind int_laws

+ℤ_suc : (a : ℤ) (n : ℕ) → a +ℤ pos 1 +ℤ pos n ≡ a +ℤ pos (suc n)
+ℤ_suc a n = grind int_laws

retry_count-failed_pushes :
    (table : SyncTable) (id status : Text) (fails : List (Option Text × ℤ))
    → (current (failed_pushes table id status fails) id).retry_count
      ≡ (current table id).retry_count +ℤ pos (length fails)
unfolding failed_pushes
retry_count-failed_pushes table id status [] = +ℤ_zero _
retry_count-failed_pushes table id status (f ∷ fs) =
    retry_count-failed_pushes (record_push_result table id status false f.0 f.1) id status fs
    ∙ ap (λ c. c +ℤ pos (length fs)) (current-failed_push table id status f.0 f.1).0
    ∙ +ℤ_suc (current table id).retry_count (length fs)

retry_count-pushed :
    (table : SyncTable) (id status : Text) (message : Option Text) (now : ℤ)
    → (current (record_push_result table id status true message now) id).retry_count ≡ pos 0
unfolding pushed_state
retry_count-pushed table id status message now =
    ap (λ s. s.retry_count)
      (current-get (record_push_result table id status true message now) id
        (pushed_state (current table id) status true message now)
        (get-record_push_result table id status true message now))

next_pos : (n : ℕ) → pos n +ℤ pos 1 ≡ pos (suc n)
next_pos n = grind int_laws

one_more : (n : ℕ) → pos 0 +ℤ pos n +ℤ pos 1 ≡ pos (suc n)
one_more n = grind int_laws

-- After a push that succeeded and n + 1 failures in a row the retry counter is n + 1, and the
-- next retry is due `backoff_seconds_for_retry (n + 1)` seconds after the last failure, whatever
-- the table held before.
pub failed_pushes-retry :
    (table : SyncTable) (id ok_status status : Text) (ok_message : Option Text) (at : ℤ)
    → (fails : List (Option Text × ℤ)) (message : Option Text) (now : ℤ)
    → let before =
        failed_pushes (record_push_result table id ok_status true ok_message at) id status fails in
      let after = record_push_result before id status false message now in
      ((current after id).retry_count ≡ pos (suc (length fails)))
      × ((current after id).next_retry_at
          ≡ some (now +ℤ backoff_seconds_for_retry (pos (suc (length fails)))))
failed_pushes-retry table id ok_status status ok_message at fails message now =
    let start = record_push_result table id ok_status true ok_message at in
    let before = failed_pushes start id status fails in
    let count : (current before id).retry_count +ℤ pos 1 ≡ pos (suc (length fails)) =
      ap (λ c. c +ℤ pos 1)
        (retry_count-failed_pushes start id status fails
          ∙ ap (λ c. c +ℤ pos (length fails)) (retry_count-pushed table id ok_status ok_message at))
      ∙ one_more (length fails) in
    let step = current-failed_push before id status message now in
    (step.0 ∙ count, step.1 ∙ ap (λ c. some (now +ℤ backoff_seconds_for_retry c)) count)

-- A failure leaves the time of the last success.
last_push_at-failed_push :
    (table : SyncTable) (id status : Text) (message : Option Text) (now : ℤ)
    → (current (record_push_result table id status false message now) id).last_push_at
      ≡ (current table id).last_push_at
unfolding pushed_state
last_push_at-failed_push table id status message now =
    ap (λ s. s.last_push_at)
      (current-get (record_push_result table id status false message now) id
        (pushed_state (current table id) status false message now)
        (get-record_push_result table id status false message now))

backoff_after :
    (c : ℤ)
    → pos 0 ≤ℤ c
    → (pos 60 ≤ℤ backoff_seconds_for_retry (c +ℤ pos 1))
      × (backoff_seconds_for_retry (c +ℤ pos 1) ≤ℤ pos 1800)
backoff_after (pos n) h =
    subst (λ k. (pos 60 ≤ℤ backoff_seconds_for_retry k) × (backoff_seconds_for_retry k ≤ℤ pos 1800))
      (sym (next_pos n)) (backoff-Bounds n)
backoff_after (negsuc n) h = grind arith

should_attempt_push-waits :
    (s : ProjectSyncState) (interval t w : ℤ)
    → s.next_retry_at ≡ some w
    → (t +ℤ pos 1 ≤ℤ w → should_attempt_push (push_input s interval t) ≡ false)
      × (w ≤ℤ t → should_attempt_push (push_input s interval t) ≡ is_due t interval s.last_push_at)
unfolding should_attempt_push
should_attempt_push-waits s interval t w e =
    (λ h. rw e (ground (arith, +ℤ_parts t (pos 1))), λ h. rw e (grind int_laws))

-- Within a minute of a failed push, no push is attempted, whatever the interval. The retry
-- counter before the failure is not negative.
pub should_attempt_push-early :
    (table : SyncTable) (id status : Text) (message : Option Text) (now t interval : ℤ)
    → pos 0 ≤ℤ (current table id).retry_count
    → t +ℤ pos 1 ≤ℤ now +ℤ pos 60
    → should_attempt_push
        (push_input (current (record_push_result table id status false message now) id) interval t)
      ≡ false
should_attempt_push-early table id status message now t interval h early =
    let b = backoff_after (current table id).retry_count h in
    (should_attempt_push-waits (current (record_push_result table id status false message now) id)
        interval t (now +ℤ backoff_seconds_for_retry ((current table id).retry_count +ℤ pos 1))
        (current-failed_push table id status message now).1).0
      (grind int_laws)

-- From half an hour after a failed push on, the failure holds no push back: a push is attempted
-- exactly if the interval since the last successful push has passed, or there was none. The retry
-- counter before the failure is not negative.
pub should_attempt_push-late :
    (table : SyncTable) (id status : Text) (message : Option Text) (now t interval : ℤ)
    → pos 0 ≤ℤ (current table id).retry_count
    → now +ℤ pos 1800 ≤ℤ t
    → should_attempt_push
        (push_input (current (record_push_result table id status false message now) id) interval t)
      ≡ is_due t interval (current table id).last_push_at
should_attempt_push-late table id status message now t interval h late =
    let b = backoff_after (current table id).retry_count h in
    (should_attempt_push-waits (current (record_push_result table id status false message now) id)
        interval t (now +ℤ backoff_seconds_for_retry ((current table id).retry_count +ℤ pos 1))
        (current-failed_push table id status message now).1).1
      (grind int_laws)
    ∙ ap (is_due t interval) (last_push_at-failed_push table id status message now)
