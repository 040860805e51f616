-- ===== src/Work/Activity.antt =====
-- The last activity of a work item: the total order of tools/clearwright_work.py over the records
-- that are bound to it.
pub mod Latest
use clear_wright.Prelude.{
  ℕ, String, Bool, true, false, not, ◌&&◌, ◌||◌, List, [], ◌∷◌, ◌++◌, Option, none, some, str_eq,
  elem, if◌then◌else◌, ltb, ◌==◌, is_blank, is_empty, text_ltb,
}
use clear_wright.Json.{Value, null, str, Fields, get, truthy}
use clear_wright.Work.{Python, is_text, shown, folded_value}
use clear_wright.Work.Iso.{parse_time}

-- A class of events: its precedence, the lowest number first, and its label.
pub record EventClass : Type 0 where
  pub precedence : ℕ
  pub label : String

abbrev pub event_completion : EventClass
event_completion = record { precedence = 1; label = "completion" }

abbrev pub event_verification : EventClass
event_verification = record { precedence = 2; label = "verification" }

abbrev pub event_council : EventClass
event_council = record { precedence = 3; label = "council" }

abbrev pub event_gate : EventClass
event_gate = record { precedence = 4; label = "gate" }

abbrev pub event_progress : EventClass
event_progress = record { precedence = 5; label = "progress" }

abbrev pub event_claim : EventClass
event_claim = record { precedence = 6; label = "claim" }

abbrev pub event_response : EventClass
event_response = record { precedence = 7; label = "response" }

abbrev pub event_evidence : EventClass
event_evidence = record { precedence = 8; label = "evidence" }

-- RECOGNIZED_CLOSURES
abbrev pub recognized_closures : List String
recognized_closures = "done" ∷ "closed_by_operator" ∷ []

unfoldable pub message_event_class : Python → Fields → EventClass
message_event_class py m =
    if elem (folded_value py (get m "closure")) recognized_closures
    then event_completion
    else if is_text (get m "status") "claimed"
    then event_claim
    else if is_text (get m "status") "responded" || is_text (get m "direction") "outbound"
    then event_response
    else if is_text (get m "status") "posted" || is_text (get m "direction") "internal"
    then event_progress
    else event_evidence

pub record Candidate : Type 0 where
  pub at : Value
  pub precedence : ℕ
  pub source_id : String
  pub label : String

unfoldable pub candidate : Value → EventClass → String → Candidate
candidate at c sid = record { at = at; precedence = c.precedence; source_id = sid; label = c.label }

unfoldable pub message_candidates : Python → List Fields → List Candidate
unfolding candidate
message_candidates py [] = []
message_candidates py (m ∷ ms) =
    let rest = message_candidates py ms in
    if truthy (get m "at")
    then candidate (get m "at") (message_event_class py m) (shown py (get m "message_id")) ∷ rest
    else rest

unfoldable pub council_candidates : Python → List Fields → List Candidate
unfolding candidate
council_candidates py [] = []
council_candidates py (c ∷ cs) =
    let rest = council_candidates py cs in
    if truthy (get c "created_at")
    then candidate (get c "created_at") event_council (shown py (get c "council_id")) ∷ rest
    else rest

-- `a or b`
or_value : Value → Value → Value
or_value a b = if truthy a then a else b

unfoldable pub gate_candidates : Python → Option Fields → List Candidate
unfolding candidate or_value
gate_candidates py none = []
gate_candidates py (some g) =
    let at = or_value (get g "resolved_at") (get g "created_at") in
    if truthy at then candidate at event_gate (shown py (get g "gate_id")) ∷ [] else []

unfoldable pub activity_candidates :
    Python → List Fields → List Fields → Option Fields → List Candidate
activity_candidates py bound councils gate =
    message_candidates py bound ++ (council_candidates py councils ++ gate_candidates py gate)

-- A candidate whose time could be read.
pub record Dated : Type 0 where
  pub instant : ℕ
  pub candidate : Candidate

-- The later one of two goes first, then the one of the lower precedence, then that of the smaller id.
unfoldable pub goes_before : Dated → Dated → Bool
goes_before a b =
    ltb b.instant a.instant
    || (a.instant == b.instant
        && (ltb a.candidate.precedence b.candidate.precedence
            || (a.candidate.precedence == b.candidate.precedence
                && text_ltb a.candidate.source_id b.candidate.source_id)))

better : Option Dated → Dated → Dated
better none c = c
better (some best) c = if goes_before c best then c else best

dated : Option ℕ → Candidate → Option Dated → Option Dated
unfolding better
dated none c best = best
dated (some t) c best = some (better best (record { instant = t; candidate = c }))

winner_from : Python → Option Dated → List Candidate → Option Dated
unfolding dated
winner_from py best [] = best
winner_from py best (c ∷ cs) = winner_from py (dated (parse_time py c.at) c best) cs

unfoldable pub total_order_winner : Python → List Candidate → Option Dated
unfolding winner_from
total_order_winner py cs = winner_from py none cs

-- The time, the event and the source of the last activity.
pub record LastActivity : Type 0 where
  pub last_activity_at : Value
  pub event : String
  pub last_activity_source_id : Option String

reported_activity : Option Dated → LastActivity
reported_activity none = record {
  last_activity_at = null;
  event = "created";
  last_activity_source_id = none;
}
reported_activity (some w) = record {
  last_activity_at = w.candidate.at;
  event = w.candidate.label;
  last_activity_source_id = some (w.candidate.source_id);
}

unfoldable pub last_activity : Python → List Fields → List Fields → Option Fields → LastActivity
unfolding reported_activity
last_activity py bound councils gate =
    reported_activity (total_order_winner py (activity_candidates py bound councils gate))

unfoldable pub has_work : List Fields → Bool
has_work [] = false
has_work (m ∷ ms) =
    truthy (get m "closure")
    || is_text (get m "status") "claimed"
    || is_text (get m "status") "posted"
    || is_text (get m "status") "responded"
    || has_work ms

unfoldable pub has_lifecycle : List Fields → List Fields → Option Fields → Option Fields → Bool
has_lifecycle bound councils (some gate) claim = true
has_lifecycle bound councils none (some claim) = true
has_lifecycle bound councils none none = not (is_empty councils) || has_work bound

-- `by_id.get(id)`: the last of the dated messages with this id.
message_by_id : Python → String → List Fields → Option Fields
message_by_id py mid [] = none
message_by_id py mid (m ∷ ms) = elim (message_by_id py mid ms) [
  | some n ↦ some n
  | none ↦
      if truthy (get m "at") && str_eq (shown py (get m "message_id")) mid then some m else none
]

is_awaiting : Python → Option Fields → Bool
is_awaiting py none = false
is_awaiting py (some m) =
    is_text (get m "direction") "outbound"
    && not (str_eq (shown py (get m "status")) "responded")
    && not (str_eq (shown py (get m "role")) "operator")
    && truthy (get m "awaiting_operator")

latest_message : Python → List Fields → Option Dated → Option Fields
unfolding message_by_id
latest_message py bound none = none
latest_message py bound (some w) = message_by_id py w.candidate.source_id bound

unfoldable pub awaiting_operator_reply : Python → List Fields → Bool
unfolding latest_message is_awaiting
awaiting_operator_reply py bound =
    is_awaiting py (latest_message py bound (total_order_winner py (message_candidates py bound)))

-- The claims that have a time.
unfoldable pub dated_claims : List Fields → List Fields
dated_claims [] = []
dated_claims (m ∷ ms) =
    let rest = dated_claims ms in
    if is_text (get m "status") "claimed" && truthy (get m "at") then m ∷ rest else rest

claim_candidates : Python → List Fields → List Candidate
unfolding candidate
claim_candidates py [] = []
claim_candidates py (m ∷ ms) =
    candidate (get m "at") event_claim (shown py (get m "message_id")) ∷ claim_candidates py ms

first_by_id : Python → String → List Fields → Option Fields
first_by_id py mid [] = none
first_by_id py mid (m ∷ ms) =
    let rest = first_by_id py mid ms in
    if str_eq (shown py (get m "message_id")) mid then some m else rest

claim_of : Python → List Fields → Option Dated → Option Fields
unfolding first_by_id
claim_of py claims none = none
claim_of py claims (some w) = first_by_id py w.candidate.source_id claims

unfoldable pub latest_claim : Python → List Fields → Option Fields
unfolding claim_of claim_candidates
latest_claim py bound =
    let claims = dated_claims bound in
    claim_of py claims (total_order_winner py (claim_candidates py claims))
