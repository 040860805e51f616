-- ===== src/Work/Presentation/Laws.antt =====
-- What the presentation of an item says of it.
use clear_wright.Prelude.{ℕ, ◌≡◌, refl, arith, Bool, true, false, Option}
use clear_wright.Work.{Python}
use clear_wright.Work.Iso.{age}
use clear_wright.Work.State.{WorkState, superseded, done, closed, is_terminal}
use clear_wright.Work.Presentation.{
  PresentationState, Signals, presentation_state, shown_state, active_state, by_age,
  completed_state, needs_operator, running, recently_completed, historical, superseded_item,
}

-- One of the states of work that is over.
abbrev pub is_past : PresentationState → Bool
is_past recently_completed = true
is_past historical = true
is_past superseded_item = true
is_past _ = false

active_state_past : (s : Signals) (a : Option ℕ) → is_past (active_state s a) ≡ false
unfolding active_state by_age
active_state_past s a = ground arith

shown_state_past :
    (w : WorkState) (s : Signals) (a : Option ℕ) → is_past (shown_state w s a) ≡ is_terminal w
unfolding shown_state completed_state
shown_state_past superseded s a = refl
shown_state_past done s a = ground arith
shown_state_past closed s a = ground arith
shown_state_past w s a = active_state_past s a

-- An item is shown as work that is over exactly when its status is terminal, whatever the other
-- signals and the time say.
pub presentation_state_past :
    (py : Python) (now : ℕ) (s : Signals)
    → is_past (presentation_state py now s) ≡ is_terminal s.status
unfolding presentation_state
presentation_state_past py now s =
    shown_state_past s.status s (age py now s.last_activity_at s.created_at)

shown_state_needs :
    (w : WorkState) (s : Signals) (a : Option ℕ)
    → is_terminal w ≡ false
    → s.needs_operator ≡ true
    → shown_state w s a ≡ needs_operator
unfolding shown_state active_state
shown_state_needs superseded s a o n = cc
shown_state_needs done s a o n = cc
shown_state_needs closed s a o n = cc
shown_state_needs w s a o n = rw (n) refl

-- An open item that needs the operator is shown so, whatever else is true of it.
pub needs_operator_shown :
    (py : Python) (now : ℕ) (s : Signals)
    → is_terminal s.status ≡ false
    → s.needs_operator ≡ true
    → presentation_state py now s ≡ needs_operator
unfolding presentation_state
needs_operator_shown py now s o n =
    shown_state_needs s.status s (age py now s.last_activity_at s.created_at) o n

active_state_running :
    (s : Signals) (a : Option ℕ)
    → active_state s a ≡ running
    → (s.claimed ≡ true) × (s.active_runner ≡ true)
unfolding active_state by_age
active_state_running s a h = (ground arith, ground arith)

shown_state_running :
    (w : WorkState) (s : Signals) (a : Option ℕ)
    → shown_state w s a ≡ running
    → (s.claimed ≡ true) × (s.active_runner ≡ true)
unfolding shown_state completed_state
shown_state_running superseded s a h = (cc, cc)
shown_state_running done s a h = (ground arith, ground arith)
shown_state_running closed s a h = (ground arith, ground arith)
shown_state_running w s a h = active_state_running s a h

-- An item is shown as running only if it is claimed and there is evidence of a runner.
pub presentation_state_running :
    (py : Python) (now : ℕ) (s : Signals)
    → presentation_state py now s ≡ running
    → (s.claimed ≡ true) × (s.active_runner ≡ true)
unfolding presentation_state
presentation_state_running py now s h =
    shown_state_running s.status s (age py now s.last_activity_at s.created_at) h
