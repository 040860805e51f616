-- ===== src/Queue.antt =====
-- The clearance queue on disk, and the safe-write steps that the queue tools share:
-- load_packet and write_exclusive of tools/clearwright_claim.py, write_inplace of
-- tools/clearwright_decide.py, and the verified move with which claim, decide (DTA) and lifecycle
-- end. The operating system and Python's `json` are parameters.
pub mod Store
mod Audit
pub mod Claim
pub mod Decide
pub mod Lifecycle
pub mod Request
pub mod Inspect
pub mod Invariant
use clear_wright.Prelude.{
  ℕ, String, ◌≡◌, Bool, true, false, not, ◌&&◌, List, [], ◌∷◌, ◌++◌, Option, none, some, str_eq,
  is_empty, if◌then◌else◌, Result, ok, err, concat,
}
use clear_wright.Json.{
  Value, null, str, arr, obj, Items, nil, cons, Fields, end, field, get, set, append_item,
}
use clear_wright.Packet.{FilePath, PacketError, validate, validate_queue_path}

-- `json.dumps` and `json.loads`; `none` is a `JSONDecodeError`.
pub record Host : Type 1 where
  pub Bytes : Type 0
  pub dump : Fields → Bytes
  pub load : Bytes → Option Value

-- Reading back what was written gives the packet that was written.
abbrev pub RoundTrips : Host → Fields → Type 0
RoundTrips h p = h.load (h.dump p) ≡ some (obj p)

abbrev pub Fs : Host → Type 0
Fs h = FilePath → Option h.Bytes

-- Which system calls of one run of a tool raise `OSError`: opening the packet, creating the
-- destination or the temporary file, writing it, reading it back, removing it after a failure, and
-- removing the source. `partial` is what an interrupted write leaves.
pub record Faults (h : Host) : Type 0 where
  pub read : Bool
  pub create : Bool
  pub write : Bool
  pub reread : Bool
  pub cleanup : Bool
  pub remove : Bool
  pub partial : h.Bytes

pub data LoadError : Type 0 where
  not_found unreadable parse_error not_an_object : LoadError

pub data Refusal : Type 0 where
  invalid_source : List PacketError → Refusal
  wrong_directory : String → Refusal
  path_mismatch : List PacketError → Refusal
  wrong_status : Value → Refusal
  invalid_result : List PacketError → Refusal
  blank_argument : String → Refusal
  no_outbox : Refusal
  destination_exists create_failed write_failed rolled_back needs_review : Refusal

-- How a run of a tool ends, and the exit code that it returns.
pub data Exit : Type 0 where
  success dry_run_pass source_not_removed : Exit
  load_failed : LoadError → Exit
  refused : Refusal → Exit

unfoldable pub exit_code : Exit → ℕ
exit_code success = 0
exit_code dry_run_pass = 0
exit_code source_not_removed = 1
exit_code (load_failed e) = 2
exit_code (refused r) = 1

abbrev pub same_path : FilePath → FilePath → Bool
same_path p q = str_eq p.parent q.parent && (str_eq p.dir q.dir && str_eq p.name q.name)

-- The file system with what stands at one path replaced.
unfoldable pub update {ℓ} : {A : Type ℓ} → (FilePath → A) → FilePath → A → FilePath → A
update fs p v q = if same_path p q then v else fs q

parsed : Option Value → Result Exit Fields
parsed none = err (load_failed parse_error)
parsed (some (obj p)) = ok p
parsed (some v) = err (load_failed not_an_object)

-- `audit["events"] = list(audit["events"]) + [event]`, where the audit has that shape.
events_extended : Fields → Value → Value → Option Value
events_extended audit (arr xs) event = some (obj (set audit "events" (arr (append_item xs event))))
events_extended audit _ event = none

unfoldable pub audit_extended : Value → Value → Option Value
unfolding events_extended
audit_extended (obj audit) event = events_extended audit (get audit "events") event
audit_extended _ event = none

-- `_append_audit`: a minimal audit is made where there is none.
unfoldable pub append_audit : Fields → Value → Fields
append_audit p event = elim (audit_extended (get p "audit_json") event) [
  | some audit ↦ set p "audit_json" audit
  | none ↦ set p "audit_json" (obj (field "events" (arr (cons event nil)) end))
]

unfoldable pub packet_ok : FilePath → Fields → Bool
packet_ok path p = is_empty (validate p ++ validate_queue_path path (get p "status") none)

-- The temporary file of an atomic rewrite.
abbrev pub temp_path : FilePath → FilePath
temp_path path = record path { name = concat path.name ".tmp" }

module _ (h : Host) where
  unfoldable pub load_packet : Fs h → Bool → FilePath → Result Exit Fields
  unfolding parsed
  load_packet fs fails path = elim (fs path) [
    | none ↦ err (load_failed not_found)
    | some text ↦ if fails then err (load_failed unreadable) else parsed (h.load text)
  ]

  unfoldable pub write_exclusive : Fs h → Faults h → FilePath → Fields → Option Refusal × Fs h
  write_exclusive fs faults dest p = elim (fs dest) [
    | some _ ↦ (some destination_exists, fs)
    | none ↦
        if faults.create
        then (some create_failed, fs)
        else if faults.write
        then (
          some write_failed,
          if faults.cleanup then update fs dest (some faults.partial) else fs,
        )
        else (none, update fs dest (some (h.dump p)))
  ]

  -- Temporary file, fsync, `os.replace`; a failure removes the temporary file.
  unfoldable pub write_inplace : Fs h → Faults h → FilePath → Fields → Option Refusal × Fs h
  write_inplace fs faults path p =
      let tmp = temp_path path in
      if faults.create
      then (some write_failed, if faults.cleanup then fs else update fs tmp none)
      else if faults.write
      then (some write_failed, update fs tmp (if faults.cleanup then some faults.partial else none))
      else (none, update (update fs tmp none) path (some (h.dump p)))

  -- The check of the packet as written on disk.
  unfoldable pub disk_ok : Fs h → Bool → FilePath → Bool
  disk_ok fs fails path = elim (load_packet fs fails path) [
    | err e ↦ false
    | ok p ↦ packet_ok path p
  ]

  unfoldable pub finish_move : Fs h → Faults h → FilePath → FilePath → Exit × Fs h
  finish_move fs faults src dest =
      if disk_ok fs faults.reread dest
      then (if faults.remove then (source_not_removed, fs) else (success, update fs src none))
      else (refused rolled_back, if faults.cleanup then fs else update fs dest none)

  -- Exclusive create, re-validation from disk, removal of the source last.
  unfoldable pub move_packet : Fs h → Faults h → FilePath → FilePath → Fields → Exit × Fs h
  move_packet fs faults src dest p =
      let (failure, written) = write_exclusive fs faults dest p in
      elim failure [ some r ↦ (refused r, written) | none ↦ finish_move written faults src dest ]

  -- The end of a tool's run: an early exit, a dry run, or the move of the packet that was prepared.
  unfoldable pub run_move :
      Fs h → Faults h → FilePath → FilePath → Bool → Result Exit Fields → Exit × Fs h
  run_move fs faults src dest dry_run prepared = elim prepared [
    | err e ↦ (e, fs)
    | ok p ↦ if dry_run then (dry_run_pass, fs) else move_packet fs faults src dest p
  ]
