-- ===== src/Work/Runner.antt =====
-- Who works on a claimed item: `runner_state` of tools/clearwright_work.py.
pub mod Laws
use clear_wright.Prelude.{ℕ, Bool, true, false, ◌||◌, Option, if◌then◌else◌}
use clear_wright.Json.{Value}
use clear_wright.Work.{Python}
use clear_wright.Work.Iso.{age, is_within}
use clear_wright.Work.State.{WorkState, operator_required}

-- The windows of the source, in seconds.
abbrev pub running_window : ℕ
running_window = 900

abbrev pub stale_window : ℕ
stale_window = 86400

abbrev pub recent_window : ℕ
recent_window = 86400

pub data RunnerState : Type 0 where
  unowned active_runner waiting_on_council waiting_on_operator claimed_idle stale_or_no_heartbeat
        unknown :
      RunnerState

abbrev pub is_operator_required : WorkState → Bool
is_operator_required operator_required = true
is_operator_required _ = false

-- A claim neither fresh nor stale is idle too.
claimed_state : Option ℕ → RunnerState
claimed_state claim_age =
    if is_within running_window claim_age
    then claimed_idle
    else if is_within stale_window claim_age
    then claimed_idle
    else stale_or_no_heartbeat

unfoldable pub runner_state :
    Python → Bool → Value → Bool → Bool → Bool → Bool → WorkState → ℕ → RunnerState
unfolding claimed_state
runner_state py is_claimed claim_at active in_council awaiting_operator has_gate status now =
    if is_claimed
    then (if active
        then active_runner
        else if in_council
        then waiting_on_council
        else if has_gate || is_operator_required status || awaiting_operator
        then waiting_on_operator
        else claimed_state (age py now claim_at claim_at))
    else unowned
