-- ===== src/Alf/Findings/Dispose.antt =====
-- The operator's dispositions of findings: tools/clearwright_alf_review.py. A float of a confidence
-- and the search for the entry id as a token of the message are parameters.
pub mod Laws
use clear_wright.Prelude.{
  ℕ, String, Bool, true, false, not, ◌&&◌, ◌||◌, List, [], ◌∷◌, ◌++◌, Option, none, some, str_eq,
  elem, any, if◌then◌else◌, is_blank, is_empty, text_ltb, Result, ok, err, refuse_if, ◌>>◌, ◌>>=◌,
}
use clear_wright.Json.{
  Value, null, str, arr, obj, Items, nil, cons, Fields, get, set, truthy, is_null,
}
use clear_wright.Alf.{is_text}
use clear_wright.Alf.Paths.{safe_id}
use clear_wright.Alf.Findings.{
  Revision, Disposition, disposed, no_line, FindingStore, AlfError, no_finding, illegal_transition,
  message_not_found, not_an_operator_message, not_after_revision, not_named, replayed,
  incomplete_deferral, no_history, unsafe_entry_id, unsafe_message_id, promotion_gate, Host,
  Produced, last_revision, atomic_finding_update,
}

-- `OPERATOR_TRANSITIONS[status]`; another status allows nothing.
unfoldable pub operator_transitions : Value → List String
operator_transitions v =
    if is_text v "OPERATOR_REVIEW"
    then "APPROVED_FOR_PLANNING" ∷ "DEFERRED" ∷ "REJECTED" ∷ "ACCEPTED_RISK" ∷ "SUPERSEDED"
      ∷ "NOT_REPRODUCIBLE" ∷ []
    else if is_text v "TRIAGED"
    then "MERGED" ∷ []
    else []

unfoldable pub disposition_for_status : String → String
disposition_for_status s =
    if str_eq s "APPROVED_FOR_PLANNING"
    then "approved"
    else if str_eq s "DEFERRED"
    then "deferred"
    else if str_eq s "REJECTED"
    then "rejected"
    else if str_eq s "ACCEPTED_RISK"
    then "accepted_risk"
    else if str_eq s "NOT_REPRODUCIBLE"
    then "not_reproducible"
    else "superseded"

-- A value as `float` reads it against 0.50, and whether the text has the id as a token.
pub record Reading : Type 0 where
  pub is_half_or_more : Value → Bool
  pub names_token : String → String → Bool

-- What the source of a message gives for `msg.get(key) or ""`.
unfoldable pub text_of : Value → String
text_of (str s) = s
text_of _ = ""

missing_fields : List String → Fields → List String
missing_fields [] f = []
missing_fields (k ∷ ks) f =
    let rest = missing_fields ks f in if truthy (get f k) then rest else k ∷ rest

unpopulated : List String → Fields → List String
unpopulated [] f = []
unpopulated (k ∷ ks) f = let rest = unpopulated ks f in if is_null (get f k) then k ∷ rest else rest

has_role : Value → Bool
has_role (obj e) = is_text (get e "role") "observed_occurrence"
has_role _ = false

any_observed : Items → Bool
any_observed nil = false
any_observed (cons v vs) = has_role v || any_observed vs

items_of_value : Value → Items
items_of_value (arr xs) = xs
items_of_value _ = nil

-- `promotion_gate_problems`: a problem is named by its field.
unfoldable pub promotion_gate_problems : Reading → Fields → List String
unfolding missing_fields unpopulated has_role any_observed items_of_value
promotion_gate_problems r f =
    missing_fields
      ("permanent_resolution" ∷ "objective_acceptance_criteria" ∷ "required_regression_tests" ∷ [])
      f
    ++ ((if any_observed (items_of_value (get f "evidence_references"))
          then []
          else "evidence_references" ∷ [])
        ++ ((if r.is_half_or_more (get f "root_cause_confidence")
                || truthy (get f "investigation_requirement")
              then []
              else "root_cause_confidence" ∷ [])
            ++ unpopulated ("dependencies" ∷ "blockers" ∷ []) f))

unfoldable pub message_consumed : FindingStore → String → Bool
message_consumed s id = any (λ d. str_eq d.operator_message_id id) s.dispositions

-- `at` of the message is later than the latest revision.
unfoldable pub postdates : Fields → Revision → Bool
unfolding text_of
postdates msg r = text_ltb r.revised_at (text_of (get msg "at"))

unfoldable pub is_operator_message : Fields → Bool
is_operator_message msg =
    is_text (get msg "role") "operator" && is_text (get msg "direction") "inbound"

-- The arguments of `dispose` behind the entry; a text that is `None` is empty.
pub record Request : Type 0 where
  pub target_status : String
  pub operator_message_id : String
  pub deferral_reason : String
  pub review_date : String

-- A test of membership that is kept as one.
unfoldable pub is_allowed : List String → String → Bool
is_allowed names s = elem s names

module _ (h : Host) (r : Reading) where
  found_message : Option Fields → Result AlfError Fields
  found_message none = err message_not_found
  found_message (some m) = ok m

  latest : Option Revision → Result AlfError Revision
  latest none = err no_history
  latest (some v) = ok v

  unfoldable pub gate_problems : Request → Fields → List String
  gate_problems q head =
      if str_eq q.target_status "APPROVED_FOR_PLANNING" then promotion_gate_problems r head else []

  unfoldable pub is_incomplete_deferral : Request → Bool
  is_incomplete_deferral q =
      str_eq q.target_status "DEFERRED" && (is_blank q.deferral_reason || is_blank q.review_date)

  -- The checks of a disposition.
  unfoldable pub check_disposition :
      FindingStore → String → Request → Option Fields → Fields → Result AlfError (Unit {0})
  unfolding found_message latest gate_problems is_incomplete_deferral text_of
  check_disposition s id q msg head = do
    refuse_if (not (is_allowed (operator_transitions (get head "status")) q.target_status))
        illegal_transition
    m ← found_message msg
    refuse_if (not (is_operator_message m)) not_an_operator_message
    v ← latest (last_revision (s.history id))
    refuse_if (not (postdates m v)) not_after_revision
    refuse_if (not (r.names_token id (text_of (get m "message")))) not_named
    refuse_if (message_consumed s q.operator_message_id) replayed
    refuse_if (is_incomplete_deferral q) incomplete_deferral
    refuse_if (not (is_empty (gate_problems q head))) (promotion_gate (gate_problems q head))

  deferred : Request → Fields → Fields
  deferred q f =
      if str_eq q.target_status "DEFERRED"
      then set (set f "deferral_reason" (str q.deferral_reason)) "review_date" (str q.review_date)
      else f

  unfoldable pub disposed_finding : Request → Fields → Fields
  unfolding deferred
  disposed_finding q head = deferred q (
      set
        (set (set head "status" (str q.target_status)) "operator_disposition"
          (str (disposition_for_status q.target_status)))
        "last_operator_reviewed_at" (str h.now))

  unfoldable pub disposition :
      FindingStore
      → String
      → Request
      → Option Fields
      → Option Fields
      → Result AlfError (Option Produced)
  unfolding disposed_finding
  disposition s id q msg none = err no_finding
  disposition s id q msg (some head) = elim (check_disposition s id q msg head) [
    | err e ↦ err e
    | ok u ↦ ok (
        some (record {
          finding = disposed_finding q head;
          reason = q.target_status;
          line = disposed (record {
            entry_id = id;
            target_status = q.target_status;
            operator_message_id = q.operator_message_id;
          });
        }))
  ]

  -- `messages` are the parsed files of the communications directory by message id.
  unfoldable pub dispose :
      FindingStore
      → String
      → String
      → Request
      → (String → Option Fields)
      → Result AlfError (Option Produced) × FindingStore
  unfolding disposition
  dispose s id actor q messages =
      if not (safe_id id)
      then (err unsafe_entry_id, s)
      else if not (safe_id q.operator_message_id)
      then (err unsafe_message_id, s)
      else atomic_finding_update h s id actor (disposition s id q (messages q.operator_message_id))

  unfoldable pub surfaced : Option Fields → Result AlfError (Option Produced)
  surfaced none = err no_finding
  surfaced (some head) =
      if is_text (get head "status") "PRIORITIZED"
      then ok (
          some (record {
            finding = set (set head "status" (str "OPERATOR_REVIEW")) "surfaced_at" (str h.now);
            reason = "surface_for_review";
            line = no_line;
          }))
      else ok none

  unfoldable pub surface_for_review :
      FindingStore → String → Result AlfError (Option Produced) × FindingStore
  unfolding surfaced
  surface_for_review s id = atomic_finding_update h s id "alf-synth" surfaced
