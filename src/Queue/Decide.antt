-- ===== src/Queue/Decide.antt =====
-- Manual clearance decisions: tools/clearwright_decide.py.
pub mod Keys
pub mod Laws
use clear_wright.Prelude.{
  String, Bool, true, false, not, ◌||◌, List, [], ◌∷◌, ◌++◌, Option, none, some, str_eq, elem,
  is_empty, if◌then◌else◌, Result, ok, err, ◌>>=◌, ◌>>◌, refuse_if, concat, is_blank, strip, ℤ, pos,
  zero, suc,
}
use clear_wright.Json.{Value, str, obj, Fields, end, field, get, set}
use clear_wright.Packet.{FilePath, validate, validate_queue_path}
use clear_wright.Queue.{
  Host, Fs, Faults, Exit, success, dry_run_pass, refused, invalid_source, wrong_directory,
  path_mismatch, wrong_status, invalid_result, blank_argument, needs_review, Refusal, append_audit,
  load_packet, disk_ok, write_inplace, run_move,
}
use clear_wright.Queue.Claim.{or_default, sibling}

pub data Decision : Type 0 where
  cta dta rfi : Decision

-- The status that a decision gives, and the directory in which the packet then belongs.
unfoldable pub decided_status : Decision → String
decided_status cta = "CTA"
decided_status dta = "DTA"
decided_status rfi = "RFI_PENDING"

unfoldable pub decided_dir : Decision → String
decided_dir dta = "clearance_done"
decided_dir _ = "clearance_outbox"

-- `datetime.now`, and a time that many minutes later, as ISO texts.
pub record Clock : Type 0 where
  pub now : String
  pub iso_in : ℤ → String

-- `lease_minutes if lease_minutes else DEFAULT_LEASE_MINUTES`
unfoldable pub lease_length : Option ℤ → ℤ
lease_length none = pos 120
lease_length (some (pos zero)) = pos 120
lease_length (some m) = m

reason_suffix : String → String → String
reason_suffix note reason = if is_blank reason then note else concat note (concat ": " reason)

decision_event : String → String → String → String → Fields → Value
decision_event now event actor note rest = obj (
    field "at" (str now)
      (field "event" (str event) (field "actor" (str actor) (field "note" (str note) rest))))

build_cta : Fields → String → String → String → String → String → Fields
unfolding reason_suffix decision_event
build_cta p name now actor reason expires =
    let cleared =
      set
        (set
          (set (set p "status" (str "CTA")) "source_path" (str (concat "clearance_outbox/" name)))
          "cleared_by" (str actor))
        "clearance_expires_at" (str expires) in
    let decided = set cleared "decision_json" (
      obj (
        field "decision" (str "CTA") (
          field "decided_by" (str actor) (
            field "decided_at" (str now) (
              field "rationale" (str reason)
                (field "clearance_expires_at" (str expires) end)))))) in
    append_audit decided (
      decision_event now "CTA" actor
        (reason_suffix (concat "Cleared to act; lease expires " expires) reason) end)

build_dta : Fields → String → String → String → String → Fields
unfolding decision_event
build_dta p name now actor reason =
    let denied =
      set (set (set p "status" (str "DTA")) "source_path" (str (concat "clearance_done/" name)))
        "denied_by" (str actor) in
    let decided = set denied "decision_json" (
      obj (
        field "decision" (str "DTA") (
          field "decided_by" (str actor)
            (field "decided_at" (str now) (field "rationale" (str reason) end))))) in
    append_audit decided (
      decision_event now "DTA" actor (concat "Denied to act: " reason)
        (field "reason" (str reason) end))

build_rfi : Fields → String → String → String → String → Fields
unfolding decision_event
build_rfi p name now actor reason =
    let pending =
      set (set p "status" (str "RFI_PENDING")) "source_path"
        (str (concat "clearance_outbox/" name)) in
    let asked = set pending "rfi_json" (
      obj (
        field "requested_by" (str actor)
          (field "requested_at" (str now) (field "question" (str reason) end)))) in
    append_audit asked (
      decision_event now "RFI_PENDING" actor (concat "Information requested: " reason)
        (field "reason" (str reason) end))

-- A reason that was not given is the empty text; only a CTA can lack one.
unfoldable pub build_decision :
    Fields → String → Decision → Option String → String → Option ℤ → Clock → Fields
unfolding build_cta build_dta build_rfi
build_decision p name cta actor reason lease clock =
    build_cta (set p "updated_at" (str clock.now)) name clock.now (or_default actor "OPERATOR-0001")
      reason (clock.iso_in (lease_length lease))
build_decision p name dta actor reason lease clock =
    build_dta (set p "updated_at" (str clock.now)) name clock.now (or_default actor "OPERATOR-0001")
      reason
build_decision p name rfi actor reason lease clock =
    build_rfi (set p "updated_at" (str clock.now)) name clock.now (or_default actor "OPERATOR-0001")
      reason

abbrev pub is_decidable : Value → Bool
is_decidable (str s) = elem s ("RTA" ∷ "IN_REVIEW" ∷ [])
is_decidable _ = false

module _ (h : Host) where
  -- Steps 1 to 6.
  unfoldable pub prepare_decision :
      Fs h
      → Faults h
      → FilePath
      → Decision
      → Option String
      → String
      → Option ℤ
      → Clock
      → Result Exit Fields
  prepare_decision fs faults path decision actor reason lease clock = do
    p ← load_packet h fs faults.read path
    let errors = validate p
    refuse_if (not (is_empty errors)) (refused (invalid_source errors))
    refuse_if (not (str_eq path.dir "clearance_outbox")) (refused (wrong_directory path.dir))
    let path_errors = validate_queue_path path (get p "status") none
    refuse_if (not (is_empty path_errors)) (refused (path_mismatch path_errors))
    refuse_if (not (is_decidable (get p "status"))) (refused (wrong_status (get p "status")))
    let result = build_decision p path.name decision actor reason lease clock
    let dest = sibling path (decided_dir decision)
    let post = validate result ++ validate_queue_path dest (get result "status") none
    refuse_if (not (is_empty post)) (refused (invalid_result post))
    ok result

  review_written : Fs h → Bool → FilePath → Exit × Fs h
  review_written fs fails path =
      if disk_ok h fs fails path then (success, fs) else (refused needs_review, fs)

  after_rewrite : Faults h → FilePath → Option Refusal × Fs h → Exit × Fs h
  unfolding review_written
  after_rewrite faults path (some r, fs) = (refused r, fs)
  after_rewrite faults path (none, fs) = review_written fs faults.reread path

  -- Step 8b: the packet stays in the outbox and is rewritten in place.
  unfoldable pub run_inplace : Fs h → Faults h → FilePath → Bool → Result Exit Fields → Exit × Fs h
  unfolding after_rewrite
  run_inplace fs faults path dry_run prepared = elim prepared [
    | err e ↦ (e, fs)
    | ok p ↦
        if dry_run
        then (dry_run_pass, fs)
        else after_rewrite faults path (write_inplace h fs faults path p)
  ]

  run_decision : Decision → Fs h → Faults h → FilePath → Bool → Result Exit Fields → Exit × Fs h
  run_decision dta fs faults path dry_run prepared =
      run_move h fs faults path (sibling path "clearance_done") dry_run prepared
  run_decision _ fs faults path dry_run prepared = run_inplace fs faults path dry_run prepared

  unfoldable pub decide :
      Fs h
      → Faults h
      → FilePath
      → Decision
      → Option String
      → String
      → Bool
      → Option ℤ
      → Clock
      → Exit × Fs h
  unfolding run_decision
  decide fs faults path decision actor reason dry_run lease clock =
      run_decision decision fs faults path dry_run
        (prepare_decision fs faults path decision actor reason lease clock)

  -- `cmd_cta`, `cmd_dta`, `cmd_rfi`: a denial and a question need a reason.
  unfoldable pub cmd_cta :
      Fs h → Faults h → FilePath → Option String → String → Bool → Option ℤ → Clock → Exit × Fs h
  cmd_cta fs faults path actor reason dry_run lease clock =
      decide fs faults path cta actor (strip reason) dry_run lease clock

  unfoldable pub cmd_dta :
      Fs h → Faults h → FilePath → Option String → String → Bool → Clock → Exit × Fs h
  cmd_dta fs faults path actor reason dry_run clock =
      if is_blank (strip reason)
      then (refused (blank_argument "--reason"), fs)
      else decide fs faults path dta actor (strip reason) dry_run none clock

  unfoldable pub cmd_rfi :
      Fs h → Faults h → FilePath → Option String → String → Bool → Clock → Exit × Fs h
  cmd_rfi fs faults path actor reason dry_run clock =
      if is_blank (strip reason)
      then (refused (blank_argument "--reason"), fs)
      else decide fs faults path rfi actor (strip reason) dry_run none clock
