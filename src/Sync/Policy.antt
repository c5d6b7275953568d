-- ===== src/Sync/Policy.antt =====
-- When the scheduler may push or pull (sync/ProjectSyncPolicy.h and .cpp). Times are seconds; a sum
-- that overflows `long long` is not modelled.
use holder_core.Common.{Bool, true, false, Option, none, some, if◌then◌else◌}
use holder_core.Common.Int.{ℤ, ltb_ℤ, ◌-ℤ◌, leb_ℤ}

pub record PushDecisionInput : Type 0 where
  pub last_push_at : Option ℤ
  pub next_retry_at : Option ℤ
  pub now : ℤ
  pub push_interval_seconds : ℤ

pub record PullDecisionInput : Type 0 where
  pub last_pull_at : Option ℤ
  pub next_pull_retry_at : Option ℤ
  pub now : ℤ
  pub pull_interval_seconds : ℤ

-- `value.has_value() && now < value.value()`
abbrev pub is_before : ℤ → Option ℤ → Bool
is_before now none = false
is_before now (some t) = ltb_ℤ now t

-- what follows the retry test
abbrev pub is_due : ℤ → ℤ → Option ℤ → Bool
is_due now interval none = true
is_due now interval (some last) = let elapsed = now -ℤ last in leb_ℤ interval elapsed

unfoldable pub should_attempt_push : PushDecisionInput → Bool
unfolding ◌-ℤ◌
should_attempt_push input =
    if is_before input.now input.next_retry_at
    then false
    else is_due input.now input.push_interval_seconds input.last_push_at

unfoldable pub should_attempt_pull : PullDecisionInput → Bool
unfolding ◌-ℤ◌
should_attempt_pull input =
    if is_before input.now input.next_pull_retry_at
    then false
    else is_due input.now input.pull_interval_seconds input.last_pull_at
