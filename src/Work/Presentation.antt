-- ===== src/Work/Presentation.antt =====
-- How the console shows a work item: `presentation_state` and `in_default_view` of
-- tools/clearwright_work.py.
pub mod Laws
use clear_wright.Prelude.{ℕ, Bool, true, false, not, ◌&&◌, ◌||◌, Option, if◌then◌else◌}
use clear_wright.Json.{Value}
use clear_wright.Work.{Python}
use clear_wright.Work.Iso.{age, is_within}
use clear_wright.Work.State.{WorkState, superseded, done, closed}
use clear_wright.Work.Runner.{stale_window, recent_window}

pub data PresentationState : Type 0 where
  needs_operator blocked running waiting_on_claude waiting_on_operator recently_completed stale
        superseded_item historical :
      PresentationState

-- The arguments of `presentation_state`.
pub record Signals : Type 0 where
  pub status : WorkState
  pub needs_operator : Bool
  pub blocked : Bool
  pub awaiting_operator : Bool
  pub claimed : Bool
  pub active_runner : Bool
  pub last_activity_at : Value
  pub created_at : Value

by_age : Option ℕ → PresentationState
by_age a = if is_within stale_window a then waiting_on_claude else stale

active_state : Signals → Option ℕ → PresentationState
unfolding by_age
active_state s a =
    if s.needs_operator
    then needs_operator
    else if s.blocked
    then blocked
    else if s.awaiting_operator
    then waiting_on_operator
    else if s.claimed
    then (if s.active_runner then running else by_age a)
    else by_age a

completed_state : Option ℕ → PresentationState
completed_state a = if is_within recent_window a then recently_completed else historical

shown_state : WorkState → Signals → Option ℕ → PresentationState
unfolding active_state completed_state
shown_state superseded s a = superseded_item
shown_state done s a = completed_state a
shown_state closed s a = completed_state a
shown_state _ s a = active_state s a

unfoldable pub presentation_state : Python → ℕ → Signals → PresentationState
unfolding shown_state
presentation_state py now s = shown_state s.status s (age py now s.last_activity_at s.created_at)

-- The members of _DEFAULT_VIEW_STATES
abbrev pub is_current : PresentationState → Bool
is_current stale = false
is_current superseded_item = false
is_current historical = false
is_current _ = true
