-- ===== src/Work/State.antt =====
-- The state of one work item: `_derive_state` and `classify_record` of tools/clearwright_work.py. A closure time that is no text is compared by the
-- text that `str` gives, where the source cannot compare it.
pub mod Laws
use clear_wright.Prelude.{
  ℕ, String, Bool, true, false, not, ◌&&◌, ◌||◌, List, [], ◌∷◌, ◌++◌, Option, none, some, str_eq,
  elem, if◌then◌else◌, is_empty, length, ltb, text_ltb, has_text, strip, any,
}
use clear_wright.Json.{Value, str, obj, Fields, end, get, truthy}
use clear_wright.Work.{Python, is_text, shown, folded_value}
use clear_wright.Work.Activity.{recognized_closures}

-- The states of `_derive_state`; `open_item` is the source's "open".
pub data WorkState : Type 0 where
  open_item claimed planning verification operator_required done closed superseded malformed :
      WorkState

-- The members of _TERMINAL
abbrev pub is_terminal : WorkState → Bool
is_terminal done = true
is_terminal closed = true
is_terminal superseded = true
is_terminal _ = false

-- What is odd about the records of a work item; it annotates the state and never overrides it.
pub data Warning : Type 0 where
  unknown_closure_value : Value → Value → Warning
  conflicting_closures : List Value → Warning
  duplicate_claim : List Value → Warning
  gate_open_at_closure : Value → Warning
  legacy_ambiguity : String → Warning

abbrev pub select : (Fields → Bool) → List Fields → List Fields
select p [] = []
select p (m ∷ ms) = let rest = select p ms in if p m then m ∷ rest else rest

-- `next((c for c in councils if …), None)`
abbrev pub first_with : (Fields → Bool) → List Fields → Option Fields
first_with p [] = none
first_with p (m ∷ ms) = let rest = first_with p ms in if p m then some m else rest

unfoldable pub is_recognized : Python → Fields → Bool
is_recognized py m =
    truthy (get m "closure") && elem (folded_value py (get m "closure")) recognized_closures

unfoldable pub is_unknown_closure : Python → Fields → Bool
is_unknown_closure py m = truthy (get m "closure") && not (is_recognized py m)

abbrev pub is_claim : Fields → Bool
is_claim m = is_text (get m "status") "claimed"

unfoldable pub is_response : Fields → Bool
is_response m = is_text (get m "direction") "outbound" || is_text (get m "status") "responded"

-- `max(closures, key=lambda m: m.get("at") or "")`: the first of the greatest.
unfoldable pub latest_closure : Python → Fields → List Fields → Fields
latest_closure py best [] = best
latest_closure py best (m ∷ ms) =
    latest_closure py
      (if text_ltb (shown py (get best "at")) (shown py (get m "at")) then m else best) ms

-- `value or {}`
abbrev pub fields_of : Value → Fields
fields_of (obj fs) = fs
fields_of _ = end

either_value : Value → Value → Value
either_value a b = if truthy a then a else b

unfoldable pub says_superseded : Python → Fields → Bool
unfolding either_value
says_superseded py m =
    let meta = fields_of (get m "closure_meta") in
    str_eq (py.casefold (shown py (get meta "disposition"))) "superseded"
    || has_text "supersede"
        (py.casefold (shown py (either_value (get meta "reason") (get m "message"))))

unfoldable pub closed_state : Python → Fields → WorkState
closed_state py winner =
    if str_eq (folded_value py (get winner "closure")) "closed_by_operator"
    then (if says_superseded py winner then superseded else closed)
    else done

-- A council of the phase that has not reached agreement; only the first of the phase counts.
is_undecided : Option Fields → Bool
is_undecided none = false
is_undecided (some c) = not (is_text (get c "outcome") "agreement_threshold_met")

unfoldable pub council_state : List Fields → List Fields → WorkState
unfolding is_undecided
council_state councils claims =
    if is_undecided (first_with (λ c. is_text (get c "phase") "verify") councils)
    then verification
    else if is_undecided (first_with (λ c. is_text (get c "phase") "plan") councils)
    then planning
    else if is_empty claims
    then open_item
    else claimed

unfoldable pub running_state : List Fields → Option Fields → List Fields → WorkState
running_state bound (some gate) councils = operator_required
running_state bound none councils =
    if is_empty (select is_response bound)
    then council_state councils (select is_claim bound)
    else done

state_of_closures : Python → List Fields → List Fields → Option Fields → List Fields → WorkState
state_of_closures py [] bound gate councils = running_state bound gate councils
state_of_closures py (m ∷ ms) bound gate councils = closed_state py (latest_closure py m ms)

unfoldable pub derive_state :
    Python → Option Fields → List Fields → Option Fields → List Fields → WorkState
unfolding state_of_closures
derive_state py none bound gate councils = malformed
derive_state py (some origin) bound gate councils =
    state_of_closures py (select (is_recognized py) bound) bound gate councils

record_ids : List Fields → List Value
record_ids [] = []
record_ids (m ∷ ms) = get m "message_id" ∷ record_ids ms

unknown_closures : List Fields → List Warning
unknown_closures [] = []
unknown_closures (m ∷ ms) =
    unknown_closure_value (get m "message_id") (get m "closure") ∷ unknown_closures ms

gate_warning : List Fields → Option Fields → List Warning
gate_warning [] gate = []
gate_warning (m ∷ ms) none = []
gate_warning (m ∷ ms) (some g) = gate_open_at_closure (get g "gate_id") ∷ []

-- What `_derive_state` appends to the warnings.
unfoldable pub derive_warnings : Python → Option Fields → List Fields → Option Fields → List Warning
unfolding record_ids unknown_closures gate_warning
derive_warnings py none bound gate = []
derive_warnings py (some origin) bound gate =
    let recognized = select (is_recognized py) bound in
    let claims = select is_claim bound in
    unknown_closures (select (is_unknown_closure py) bound)
    ++ ((if ltb 1 (length recognized)
          then conflicting_closures (record_ids recognized) ∷ []
          else [])
        ++ ((if ltb 1 (length claims) then duplicate_claim (record_ids claims) ∷ [] else [])
            ++ gate_warning recognized gate))

pub data RecordClass : Type 0 where
  chat governed_work authority note : RecordClass

-- The members of _ACTIONABLE
abbrev pub is_actionable : WorkState → Bool
is_actionable open_item = true
is_actionable claimed = true
is_actionable planning = true
is_actionable verification = true
is_actionable operator_required = true
is_actionable _ = false

-- `str(origin.get(key) or "").strip()`
unfoldable pub stripped : Python → Fields → String → String
stripped py m k = strip (shown py (get m k))

unfoldable pub classify_record : Python → Fields → Bool → WorkState → RecordClass
unfolding stripped
classify_record py origin has_lifecycle status =
    if str_eq (stripped py origin "intent") "chat"
    then chat
    else if has_lifecycle
    then governed_work
    else if str_eq (stripped py origin "intent") "request"
    then governed_work
    else if str_eq (stripped py origin "role") "operator"
        && str_eq (stripped py origin "source") "operator-ui"
    then authority
    else if is_actionable status
    then governed_work
    else note
