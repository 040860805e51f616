-- ===== src/Work/Runner/Laws.antt =====
-- What the runner state claims.
use clear_wright.Prelude.{ℕ, ◌≡◌, arith, Bool, false}
use clear_wright.Json.{Value}
use clear_wright.Work.{Python}
use clear_wright.Work.State.{WorkState}
use clear_wright.Work.Runner.{active_runner, runner_state, claimed_state}

-- An active runner is claimed only with evidence.
pub runner_state_active :
    (py : Python) (is_claimed : Bool) (at : Value) (active council awaiting gate : Bool)
    (status : WorkState) (now : ℕ)
    → active ≡ false
    → runner_state py is_claimed at active council awaiting gate status now ≡ active_runner
    → ⊥
unfolding runner_state claimed_state
runner_state_active py is_claimed at active council awaiting gate status now a h = ground arith
