-- ===== src/Gate.antt =====
-- The gate of a work item (tools/clearwright_gate.py): the durable refusal that a council
-- escalation leaves, and the ways it is opened. The file of a subject is its record; SHA-256,
-- Unicode normalization and case folding are parameters.
pub mod Subject
pub mod Ensure
pub mod Tokens
pub mod Authority
pub mod Laws
use clear_wright.Prelude.{
  ℕ, String, Bool, true, false, not, ◌&&◌, ◌||◌, List, [], ◌∷◌, ◌++◌, Option, none, some, str_eq,
  any, ◌==◌, if◌then◌else◌, Result, ok, err, ◌>>=◌, ◌>>◌, refuse_if, is_blank,
}
use clear_wright.Gate.Subject.{canonical_subject}

pub data Disposition : Type 0 where
  unresolved resolved closed_unresolved : Disposition

-- An entry of `deduplicated_events`; its trigger is always "reconcile".
pub record Event : Type 0 where
  pub council_id : String
  pub invocation_id : String
  pub at : String

pub record Grant : Type 0 where
  pub message_id : String
  pub excerpt : String
  pub recorded_at : String

-- A gate as the store keeps it. The empty key, council or outcome is a missing one; the two last
-- fields are of gates from before the keys.
pub record Gate : Type 0 where
  pub gate_id : String
  pub subject : String
  pub seen : String
  pub council_id : String
  pub phase : String
  pub outcome : String
  pub dedup_key : String
  pub created_at : String
  pub disposition : Disposition
  pub authority : Option Grant
  pub events : List Event
  pub rounds : Option ℕ
  pub scope_hash : Option String

pub record GateRecord : Type 0 where
  pub subject : String
  pub gates : List Gate

pub data GateError : Type 0 where
  gate_subject_mismatch : String → String → GateError
  unresolved_gate : Gate → GateError
  gate_already_unresolved : String → String → GateError
  no_unresolved_gate : String → GateError
  invocation_id_required maintenance_in_progress : GateError
  authority_message_not_found authority_not_operator_inbound authority_source_excluded : GateError
  authority_not_after_gate authority_not_after_failed_outcome : GateError
  authority_missing_target_id authority_missing_phrase : GateError

-- The files under `gates/`, by the digest that names them.
abbrev pub Store : Type 0
Store = String → Option GateRecord

-- What `_dedup_key` serializes: the version, then the normalized fields.
pub record KeyPayload : Type 0 where
  pub v : ℕ
  pub subject : String
  pub council : String
  pub phase : String
  pub outcome : String
  pub rounds : ℕ
  pub scope : String

-- `hashlib.sha256` of a subject and of a serialized payload, `unicodedata.normalize("NFC", …)` and
-- `str.casefold`.
pub record Digests : Type 0 where
  pub of_subject : String → String
  pub of_payload : KeyPayload → String
  pub nfc : String → String
  pub casefold : String → String

-- The time of a call, as it goes into a gate's id and into the records.
pub record Moment : Type 0 where
  pub stamp : String
  pub iso : String

unfoldable pub is_unresolved : Gate → Bool
is_unresolved gate = elim gate.disposition [
  | unresolved ↦ true
  | resolved ↦ false
  | closed_unresolved ↦ false
]

-- The first unresolved gate of a list.
unfoldable pub first_unresolved : List Gate → Option Gate
first_unresolved [] = none
first_unresolved (g ∷ gs) =
    let rest = first_unresolved gs in if is_unresolved g then some g else rest

abbrev pub put : Store → String → GateRecord → Store
put store name r other = if str_eq name other then some r else store other

or_text : String → String → String
or_text s d = if is_blank s then d else s

abbrev pub has_event : String → String → List Event → Bool
has_event council_id invocation_id events =
    any (λ (e : Event). str_eq e.council_id council_id && str_eq e.invocation_id invocation_id)
      events

module _ (d : Digests) where
  stored : Option GateRecord → String → Result GateError GateRecord
  stored none subject = ok (record { subject = subject; gates = [] })
  stored (some r) subject =
      if str_eq r.subject subject then ok r else err (gate_subject_mismatch subject r.subject)

  -- `_load_record`
  unfoldable pub load_record : Store → String → Result GateError GateRecord
  unfolding stored
  load_record store subject = stored (store (d.of_subject subject)) subject

  -- `_write_record_locked`: an atomic replacement of the subject's file.
  unfoldable pub write_record : Store → GateRecord → Store
  write_record store r = put store (d.of_subject r.subject) r

  unfoldable pub load_gates : Store → String → Result GateError (List Gate)
  load_gates store work_item_id =
      let subject = canonical_subject work_item_id in
      let loaded = load_record store subject in
      if is_blank subject then ok [] else loaded >>= λ r. ok r.gates

  unfoldable pub active_gate : Store → String → Result GateError (Option Gate)
  active_gate store work_item_id = do
    gates ← load_gates store work_item_id
    ok (first_unresolved gates)

  unfoldable pub require_open : Store → String → Result GateError (Unit {0})
  require_open store work_item_id = do
    gate ← active_gate store work_item_id
    elim gate [ none ↦ ok tt | some g ↦ err (unresolved_gate g) ]

  unfoldable pub is_blocked : Store → String → Result GateError Bool
  is_blocked store work_item_id = do
    gate ← active_gate store work_item_id
    elim gate [ none ↦ ok false | some g ↦ ok true ]

  -- `_dedup_key`, with version 1
  unfoldable pub dedup_key : String → String → String → String → ℕ → String → String
  unfolding or_text
  dedup_key subject council_id phase outcome rounds scope_hash = d.of_payload (record {
    v = 1;
    subject = d.nfc subject;
    council = d.nfc council_id;
    phase = d.casefold (d.nfc phase);
    outcome = d.casefold (d.nfc outcome);
    rounds = rounds;
    scope = d.nfc (or_text scope_hash "none");
  })
