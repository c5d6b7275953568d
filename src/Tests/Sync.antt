-- ===== src/Tests/Sync.antt =====
-- The retry theorems at concrete inputs.
use holder_core.Common.{
  text_eq, ◌≡◌, refl, text, [], ◌∷◌, List, Text, Option, some, none, true, false, arith,
}
use holder_core.Common.Int.{ℤ, pos, ◌+ℤ◌, ◌≤ℤ◌}
use holder_core.Sync.Policy.{should_attempt_push, is_due}
use holder_core.Sync.State.{
  SyncTable, initial_state, current, get, record_push_result, backoff_seconds_for_retry,
}
use holder_core.Sync.State.Retries.{
  failed_pushes, failed_pushes-retry, should_attempt_push-early, should_attempt_push-late,
  push_input,
}

abbrev one_row : SyncTable
one_row = record initial_state { project_id = text "p1"; last_push_at = some (pos 100) } ∷ []

abbrev two_failures : List (Option Text × ℤ)
two_failures = (none, pos 200) ∷ (some (text "timeout"), pos 300) ∷ []

-- the third failure in a row waits a quarter of an hour
third_wait : backoff_seconds_for_retry (pos 3) ≡ pos 900
unfolding backoff_seconds_for_retry
third_wait = refl

no_retries : pos 0 ≤ℤ (current one_row (text "p1")).retry_count
unfolding current get text_eq
no_retries = omega arith

failed_pushes-retry_example :
    ((current
        (record_push_result
          (failed_pushes
            (record_push_result one_row (text "p1") (text "pushed") true none (pos 100))
            (text "p1")
            (text "network_error")
            two_failures)
          (text "p1")
          (text "network_error")
          false
          none
          (pos 400))
        (text "p1")).retry_count
      ≡ pos 3)
    × ((current
          (record_push_result
            (failed_pushes
              (record_push_result one_row (text "p1") (text "pushed") true none (pos 100))
              (text "p1")
              (text "network_error")
              two_failures)
            (text "p1")
            (text "network_error")
            false
            none
            (pos 400))
          (text "p1")).next_retry_at
        ≡ some (pos 400 +ℤ backoff_seconds_for_retry (pos 3)))
failed_pushes-retry_example =
    failed_pushes-retry one_row (text "p1") (text "pushed") (text "network_error") none (pos 100)
      two_failures none (pos 400)

early : pos 250 +ℤ pos 1 ≤ℤ pos 200 +ℤ pos 60
unfolding ◌+ℤ◌
early = omega arith

should_attempt_push-early_example :
    should_attempt_push (
      push_input
        (current
          (record_push_result one_row (text "p1") (text "network_error") false none (pos 200))
          (text "p1"))
        (pos 10)
        (pos 250))
    ≡ false
should_attempt_push-early_example =
    should_attempt_push-early one_row (text "p1") (text "network_error") none (pos 200) (pos 250)
      (pos 10) no_retries early

late : pos 200 +ℤ pos 1800 ≤ℤ pos 2000
unfolding ◌+ℤ◌
late = omega arith

should_attempt_push-late_example :
    should_attempt_push (
      push_input
        (current
          (record_push_result one_row (text "p1") (text "network_error") false none (pos 200))
          (text "p1"))
        (pos 1200)
        (pos 2000))
    ≡ is_due (pos 2000) (pos 1200) (current one_row (text "p1")).last_push_at
should_attempt_push-late_example =
    should_attempt_push-late one_row (text "p1") (text "network_error") none (pos 200) (pos 2000)
      (pos 1200) no_retries late
