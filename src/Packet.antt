-- ===== src/Packet.antt =====
-- The clearance packet and its validator (tools/clearwright_validate.py). A packet is the `dict`
-- that `json.load` returns. Each message that the validator formats is a constructor that carries
-- the values it names.
pub mod Rules
pub mod Moves
use clear_wright.Prelude.{
  String, Bool, true, false, not, ◌&&◌, ◌||◌, List, [], ◌∷◌, ◌++◌, Option, none, some, str_eq, elem,
  if◌then◌else◌, ◌==◌,
}
use clear_wright.Json.{
  Value, null, bool, int, neg_int, str, Fields, get, is_null, is_missing, truthy, is_container,
}

abbrev pub required_fields : List String
required_fields =
    "packet_id" ∷ "packet_type" ∷ "title" ∷ "requesting_agent" ∷ "created_at" ∷ "updated_at"
    ∷ "status" ∷ "source_path" ∷ "packet_hash" ∷ []

abbrev pub allowed_status : List String
allowed_status =
    "RTA" ∷ "IN_REVIEW" ∷ "RFI_PENDING" ∷ "CTA" ∷ "IN_PROGRESS" ∷ "DTA" ∷ "DONE" ∷ "FAILED"
    ∷ "SUPERSEDED" ∷ []

abbrev pub allowed_authority_class : List String
allowed_authority_class =
    "OPERATOR" ∷ "ORCHESTRATOR" ∷ "REVIEWER" ∷ "WORKER" ∷ "OBSERVER" ∷ "POLICY_ENGINE" ∷ []

abbrev pub allowed_clearance_class : List String
allowed_clearance_class =
    "READ_ONLY" ∷ "DOCS_ONLY" ∷ "BRANCH_CODE" ∷ "QUEUE_MOVE" ∷ "EXECUTION_CANDIDATE"
    ∷ "HUMAN_REQUIRED" ∷ []

abbrev pub allowed_priority_class : List String
allowed_priority_class = "LOW" ∷ "NORMAL" ∷ "HIGH" ∷ "URGENT" ∷ []

abbrev pub allowed_channel_state : List String
allowed_channel_state = "CLEAR" ∷ "BUSY" ∷ "BLOCKED" ∷ "STALE" ∷ "ESCALATED" ∷ []

abbrev pub json_blob_fields : List String
json_blob_fields =
    "inputs_json" ∷ "review_json" ∷ "rfi_json" ∷ "decision_json" ∷ "audit_json"
    ∷ "backpressure_json" ∷ []

pub data PacketError : Type 0 where
  missing_field : String → PacketError
  invalid_enum : String → Value → PacketError
  invalid_escalation : Value → PacketError
  missing_lease : String → PacketError
  not_a_container : String → Value → PacketError
  unknown_directory : String → PacketError
  outside_queue_root : String → PacketError
  misplaced_status : String → String → PacketError

unfoldable pub missing_errors : Fields → List String → List PacketError
missing_errors p [] = []
missing_errors p (f ∷ fs) =
    let rest = missing_errors p fs in if is_missing (get p f) then missing_field f ∷ rest else rest

-- `value is not None and (not isinstance(value, str) or value not in allowed)`
enum_bad : Value → List String → Bool
enum_bad null allowed = false
enum_bad (str s) allowed = not (elem s allowed)
enum_bad _ allowed = true

unfoldable pub enum_error : Fields → String → List String → List PacketError
unfolding enum_bad
enum_error p f allowed = if enum_bad (get p f) allowed then invalid_enum f (get p f) ∷ [] else []

-- Python's `bool` is an `int`, and `True` and `False` are 1 and 0.
escalation_bad : Value → Bool
escalation_bad null = false
escalation_bad (bool b) = false
escalation_bad (int n) = not (n == 0 || n == 1)
escalation_bad (neg_int n) = not (n == 0)
escalation_bad _ = true

unfoldable pub escalation_error : Fields → List PacketError
unfolding escalation_bad
escalation_error p =
    let esc = get p "escalation_required" in
    if escalation_bad esc then invalid_escalation esc ∷ [] else []

needs_lease : Value → Bool
needs_lease (str s) = elem s ("CTA" ∷ "IN_PROGRESS" ∷ [])
needs_lease _ = false

text_of : Value → String
text_of (str s) = s
text_of _ = ""

unfoldable pub lease_error : Fields → List PacketError
unfolding needs_lease text_of
lease_error p =
    let status = get p "status" in
    if needs_lease status && not (truthy (get p "clearance_expires_at"))
    then missing_lease (text_of status) ∷ []
    else []

unfoldable pub blob_errors : Fields → List String → List PacketError
blob_errors p [] = []
blob_errors p (f ∷ fs) =
    let rest = blob_errors p fs in
    if not (is_null (get p f)) && not (is_container (get p f))
    then not_a_container f (get p f) ∷ rest
    else rest

unfoldable pub validate : Fields → List PacketError
validate p =
    missing_errors p required_fields
    ++ (enum_error p "status" allowed_status
        ++ (enum_error p "authority_class" allowed_authority_class
            ++ (enum_error p "clearance_class" allowed_clearance_class
                ++ (enum_error p "priority_class" allowed_priority_class
                    ++ (enum_error p "channel_state" allowed_channel_state
                        ++ (escalation_error p
                            ++ (lease_error p ++ blob_errors p json_blob_fields)))))))

-- QUEUE_STATUS: the queue directories, each with the statuses that it holds.
unfoldable pub queue_status : String → Option (List String)
queue_status dir =
    if str_eq dir "clearance_outbox"
    then some ("RTA" ∷ "IN_REVIEW" ∷ "RFI_PENDING" ∷ "CTA" ∷ [])
    else if str_eq dir "clearance_in_progress"
    then some ("IN_PROGRESS" ∷ [])
    else if str_eq dir "clearance_done"
    then some ("DONE" ∷ "DTA" ∷ "SUPERSEDED" ∷ [])
    else if str_eq dir "clearance_failed"
    then some ("FAILED" ∷ [])
    else none

-- An absolute path, taken apart by `os.path`: the directory's parent, the directory's name, the
-- file's name.
pub record FilePath : Type 0 where
  pub parent : String
  pub dir : String
  pub name : String

root_errors : FilePath → Option String → List PacketError
root_errors path none = []
root_errors path (some root) = if str_eq path.parent root then [] else outside_queue_root root ∷ []

placement_errors : String → List String → Value → List PacketError
placement_errors dir held (str s) =
    if elem s allowed_status && not (elem s held) then misplaced_status s dir ∷ [] else []
placement_errors dir held _ = []

queue_path_errors : FilePath → Value → Option String → Option (List String) → List PacketError
queue_path_errors path status root none = unknown_directory path.dir ∷ []
queue_path_errors path status root (some held) =
    root_errors path root ++ placement_errors path.dir held status

-- The queue root is absolute, as `os.path.abspath` makes it.
unfoldable pub validate_queue_path : FilePath → Value → Option String → List PacketError
unfolding root_errors placement_errors queue_path_errors
validate_queue_path path status root = queue_path_errors path status root (queue_status path.dir)
