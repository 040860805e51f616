-- ===== src/Work/State/Laws.antt =====
-- When a work item is over.
use clear_wright.Prelude.{
  ◌≡◌, refl, arith, Bool, true, false, List, [], ◌∷◌, not, ◌&&◌, str_eq, ◌||◌, Option, none, some,
  is_empty,
}
use clear_wright.Json.{Fields}
use clear_wright.Work.{Python}
use clear_wright.Work.State.{
  WorkState, select, is_recognized, is_response, is_claim, derive_state, state_of_closures,
  running_state, council_state, closed_state, latest_closure, is_terminal, stripped,
  classify_record, governed_work, operator_required,
}

closed_state_terminal : (py : Python) (m : Fields) → is_terminal (closed_state py m) ≡ true
unfolding closed_state
closed_state_terminal py m = ground arith

council_state_terminal :
    (councils claims : List Fields) → is_terminal (council_state councils claims) ≡ false
unfolding council_state
council_state_terminal councils claims = ground arith

abbrev pub is_none : Option Fields → Bool
is_none none = true
is_none (some g) = false

-- A recognized closure, or a response while no gate is open.
abbrev pub has_ended : Python → List Fields → Option Fields → Bool
has_ended py bound gate =
    not (is_empty (select (is_recognized py) bound))
    || (is_none gate && not (is_empty (select is_response bound)))

running_state_terminal :
    (bound councils : List Fields) (gate : Option Fields)
    → is_terminal (running_state bound gate councils)
      ≡ (is_none gate && not (is_empty (select is_response bound)))
unfolding running_state
running_state_terminal bound councils (some g) = refl
running_state_terminal bound councils none =
    ground (arith, council_state_terminal councils (select is_claim bound))

closures_terminal :
    (py : Python) (ms bound councils : List Fields) (gate : Option Fields)
    → is_terminal (state_of_closures py ms bound gate councils)
      ≡ (not (is_empty ms) || (is_none gate && not (is_empty (select is_response bound))))
unfolding state_of_closures
closures_terminal py [] bound councils gate = running_state_terminal bound councils gate
closures_terminal py (m ∷ ms) bound councils gate =
    closed_state_terminal py (latest_closure py m ms)

-- A work item whose origin is on record is over exactly when a recognized closure is bound to it, or
-- when no gate is open and a response is bound to it.
pub derive_state_terminal :
    (py : Python) (origin : Fields) (bound councils : List Fields) (gate : Option Fields)
    → is_terminal (derive_state py (some origin) bound gate councils) ≡ has_ended py bound gate
unfolding derive_state
derive_state_terminal py origin bound councils gate =
    closures_terminal py (select (is_recognized py) bound) bound councils gate

-- Without a recognized closure an open gate decides the state.
pub derive_state_gated :
    (py : Python) (origin gate : Fields) (bound councils : List Fields)
    → select (is_recognized py) bound ≡ []
    → derive_state py (some origin) bound (some gate) councils ≡ operator_required
unfolding derive_state state_of_closures running_state
derive_state_gated py origin gate bound councils h = rw (h) refl

pub classify_record_lifecycle :
    (py : Python) (origin : Fields) (status : WorkState)
    → str_eq (stripped py origin "intent") "chat" ≡ false
    → classify_record py origin true status ≡ governed_work
unfolding classify_record
classify_record_lifecycle py origin status h = rw (h) refl
