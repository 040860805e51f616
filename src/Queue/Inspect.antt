-- ===== src/Queue/Inspect.antt =====
-- Inspecting one packet: the read-only half of tools/clearwright_lifecycle.py for a single file, and
-- the exit policy of its scans. `datetime.fromisoformat`, with a time without a zone taken as UTC, is
-- a parameter; times are instants.
pub mod Laws
use clear_wright.Prelude.{
  ℕ, String, ◌-◌, Bool, true, false, not, ◌&&◌, ◌||◌, List, [], ◌∷◌, ◌++◌, Option, none, some, elem,
  ltb, ◌==◌, is_empty, if◌then◌else◌, Result, ok, err, concat, is_blank, strip, ends_with,
  take_text, text_length,
}
use clear_wright.Json.{Value, null, str, arr, obj, Fields, get, is_container, count_items}
use clear_wright.Packet.{FilePath, PacketError, validate, validate_queue_path}
use clear_wright.Queue.{Host, Fs, load_packet, Exit, exit_code}

pub data IsoError : Type 0 where
  not_a_text not_a_time : IsoError

-- A lease of a packet: none, one that cannot be read, or one that has or has not expired.
pub data Lease : Type 0 where
  no_lease unreadable expired current : Lease

-- What `analyze` reports of a packet, as far as it is computed.
pub record Info : Type 0 where
  pub physical_queue : String
  pub expected_queue : Option String
  pub strict_path_errors : List PacketError
  pub field_errors : List PacketError
  pub claim_lease : Lease
  pub clearance_lease : Lease
  pub audit_event_count : Option ℕ

zoned : String → String
zoned text =
    if ends_with "Z" text then concat (take_text (text_length text - 1) text) "+00:00" else text

time_or_error : Option ℕ → Result IsoError ℕ
time_or_error none = err not_a_time
time_or_error (some t) = ok t

unfoldable pub parse_iso : (String → Option ℕ) → Value → Result IsoError ℕ
unfolding zoned time_or_error
parse_iso from_iso (str s) =
    if is_blank (strip s) then err not_a_text else time_or_error (from_iso (zoned (strip s)))
parse_iso from_iso _ = err not_a_text

read_lease : ℕ → Result IsoError ℕ → Lease
read_lease now (err e) = unreadable
read_lease now (ok t) = if ltb t now then expired else current

unfoldable pub lease_of : (String → Option ℕ) → ℕ → Value → Lease
unfolding read_lease
lease_of from_iso now null = no_lease
lease_of from_iso now v = read_lease now (parse_iso from_iso v)

queue_of : String → Option String
queue_of s =
    if elem s ("RTA" ∷ "IN_REVIEW" ∷ "RFI_PENDING" ∷ "CTA" ∷ [])
    then some "clearance_outbox"
    else if elem s ("IN_PROGRESS" ∷ [])
    then some "clearance_in_progress"
    else if elem s ("DONE" ∷ "DTA" ∷ "SUPERSEDED" ∷ [])
    then some "clearance_done"
    else if elem s ("FAILED" ∷ [])
    then some "clearance_failed"
    else none

-- No answer is the `TypeError` of a status that cannot be hashed.
unfoldable pub expected_queue_for : Value → Option (Option String)
unfolding queue_of
expected_queue_for (str s) = some (queue_of s)
expected_queue_for (arr xs) = none
expected_queue_for (obj fs) = none
expected_queue_for _ = some none

events_count : Value → Option ℕ
events_count (arr xs) = some (count_items xs)
events_count _ = none

unfoldable pub audit_event_count_of : Value → Option ℕ
unfolding events_count
audit_event_count_of (obj audit) = events_count (get audit "events")
audit_event_count_of _ = none

unfoldable pub analyze : (String → Option ℕ) → ℕ → FilePath → Fields → Option String → Option Info
analyze from_iso now path p root = elim (expected_queue_for (get p "status")) [
  | none ↦ none
  | some expected ↦ some (record {
    physical_queue = path.dir;
    expected_queue = expected;
    strict_path_errors = validate_queue_path path (get p "status") root;
    field_errors = validate p;
    claim_lease = lease_of from_iso now (get p "claim_expires_at");
    clearance_lease = lease_of from_iso now (get p "clearance_expires_at");
    audit_event_count = audit_event_count_of (get p "audit_json");
  })
]

abbrev pub is_expired : Lease → Bool
is_expired expired = true
is_expired _ = false

unfoldable pub is_stale : Info → Bool
is_stale info = is_expired info.claim_lease || is_expired info.clearance_lease

-- The exit of an inspection: 0 only for a valid packet in its place that is not stale.
unfoldable pub inspect_exit : Info → ℕ
inspect_exit info =
    if is_empty info.field_errors && (is_empty info.strict_path_errors && not (is_stale info))
    then 0
    else 1

reported : Option Info → Option ℕ
reported none = none
reported (some info) = some (inspect_exit info)

-- `cmd_inspect`; `fails` says whether opening the file fails.
unfoldable pub cmd_inspect :
    (h : Host) → Fs h → Bool → (String → Option ℕ) → ℕ → FilePath → Option String → Option ℕ
unfolding reported
cmd_inspect h fs fails from_iso now path root = elim (load_packet h fs fails path) [
  | err e ↦ some (exit_code e)
  | ok p ↦ reported (analyze from_iso now path p root)
]

-- `_scan_exit`
unfoldable pub scan_exit : ℕ → ℕ → Bool → Bool → ℕ
scan_exit stale_count invalid_count fail_on_stale fail_on_invalid =
    if not fail_on_stale && not fail_on_invalid
    then (if stale_count == 0 && invalid_count == 0 then 0 else 1)
    else if fail_on_stale && not (stale_count == 0)
    then 1
    else if fail_on_invalid && not (invalid_count == 0)
    then 1
    else 0
