-- ===== src/Examples/Queue.antt =====
-- The theorems on the queue tools at concrete packets.
use clear_wright.Prelude.{◌≡◌, ◌≢◌, ◌⊎◌, refl, false, none, some, ok, arith, eq_iff}
use clear_wright.Json.{obj, Fields, get, set}
use clear_wright.Packet.{
  validate, validate_queue_path, missing_errors, enum_error, escalation_error, lease_error,
  blob_errors, queue_status,
}
use clear_wright.Packet.Rules.{IsWellFormed, validate-IsWellFormed}
use clear_wright.Queue.{
  RoundTrips, Fs, Exit, success, refused, wrong_directory, needs_review, update, load_packet,
  temp_path, audit_extended, append_audit, write_exclusive, disk_ok, finish_move, packet_ok,
  run_move, move_packet,
}
use clear_wright.Queue.Store.{OnDisk, same_path_iff}
use clear_wright.Queue.Claim.{build_claimed, sibling, prepare_claim, claim}
use clear_wright.Queue.Claim.Laws.{
  IsReady, claim_success, claim_refused, claim_keeps, claim_complete,
}
use clear_wright.Queue.Decide.{
  cta, dta, decided_status, decided_dir, prepare_decision, run_inplace, build_decision, decide,
}
use clear_wright.Queue.Decide.Laws.{IsPending, archived, decide_success, decide_refused}
use clear_wright.Queue.Lifecycle.{
  completed, failed, ending_dir, ending_status, prepare_transition, build_transition, transition,
}
use clear_wright.Queue.Lifecycle.Laws.{IsActive, transition_success, transition_keeps}
use clear_wright.Examples.{
  host, no_faults, requested_packet, cleared_packet, active_packet, outbox, in_progress, holding,
  clock,
}

abbrev pub cleared : Fs host
cleared = holding outbox cleared_packet

abbrev requested_files : Fs host
requested_files = holding outbox requested_packet

abbrev active_files : Fs host
active_files = holding in_progress active_packet

abbrev pub empty_files : Fs host
empty_files q = none

outbox_is_not_in_progress : outbox.dir ≢ "clearance_in_progress"
outbox_is_not_in_progress e = ground (arith, eq_iff "clearance_outbox" "clearance_in_progress")

temp_is_another : temp_path in_progress ≢ in_progress
temp_is_another e = ground (arith, same_path_iff (temp_path in_progress) in_progress)

wrong_directory_no_review : wrong_directory "clearance_in_progress" ≢ needs_review
wrong_directory_no_review e = cc

pub codec-RoundTrips : (p : Fields) → RoundTrips host p
codec-RoundTrips p = refl

pub cleared-IsWellFormed : IsWellFormed cleared_packet
unfolding validate missing_errors get enum_error escalation_error lease_error blob_errors
    validate_queue_path queue_status
cleared-IsWellFormed = (validate-IsWellFormed cleared_packet).0 refl

pub requested-IsWellFormed : IsWellFormed requested_packet
unfolding validate missing_errors get enum_error escalation_error lease_error blob_errors
    validate_queue_path queue_status
requested-IsWellFormed = (validate-IsWellFormed requested_packet).0 refl

cleared-IsReady : IsReady outbox cleared_packet
unfolding get
cleared-IsReady = record {
  well_formed = cleared-IsWellFormed;
  in_outbox = refl;
  claimable = refl;
  leased = refl;
}

abbrev claimed_run : Exit × Fs host
claimed_run = claim host cleared no_faults outbox (some "w") false "2026-01-02"

claim_succeeds : claimed_run.0 ≡ success
unfolding claim prepare_claim build_claimed validate missing_errors get enum_error escalation_error
    lease_error blob_errors validate_queue_path queue_status load_packet set audit_extended
    append_audit write_exclusive disk_ok finish_move packet_ok update run_move move_packet
claim_succeeds = refl

claim_success_example :
    (p : Fields) × (load_packet host cleared false outbox ≡ ok p)
    × IsReady outbox p
    × (cleared in_progress ≡ none)
    × (claimed_run.1
        ≡ update
            (update cleared in_progress
              (some (obj (build_claimed p "p1.json" (some "w") "2026-01-02"))))
            outbox
            none)
claim_success_example =
    claim_success host cleared no_faults outbox (some "w") "2026-01-02" claim_succeeds

claim_keeps_example :
    (claimed_run.1 outbox ≡ cleared outbox)
    ⊎ ((claimed_run.0 ≡ success) × ((q : Fields) × OnDisk host claimed_run.1 in_progress q))
claim_keeps_example =
    claim_keeps host cleared no_faults outbox (some "w") "2026-01-02" false
      outbox_is_not_in_progress

claim_complete_example : claimed_run.0 ≡ success
unfolding load_packet get
claim_complete_example =
    claim_complete host cleared no_faults outbox (some "w") "2026-01-02" cleared_packet refl
      cleared-IsReady refl refl refl refl refl refl refl

abbrev misplaced : Fs host
misplaced = holding in_progress cleared_packet

abbrev misplaced_run : Exit × Fs host
misplaced_run = claim host misplaced no_faults in_progress none false "2026-01-02"

claim_refuses : misplaced_run.0 ≡ refused (wrong_directory "clearance_in_progress")
unfolding claim prepare_claim validate missing_errors get enum_error escalation_error lease_error
    blob_errors validate_queue_path queue_status load_packet set audit_extended append_audit
    write_exclusive disk_ok finish_move packet_ok update run_move move_packet
claim_refuses = refl

claim_refused_example : misplaced_run.1 in_progress ≡ misplaced in_progress
claim_refused_example =
    claim_refused host misplaced no_faults in_progress none "2026-01-02" false
      (wrong_directory "clearance_in_progress") in_progress refl claim_refuses

abbrev denied_run : Exit × Fs host
denied_run = decide host requested_files no_faults outbox dta none "no" false none clock

decide_succeeds : denied_run.0 ≡ success
unfolding decide prepare_decision build_decision decided_status decided_dir validate missing_errors
    get enum_error escalation_error lease_error blob_errors validate_queue_path queue_status
    load_packet set audit_extended append_audit write_exclusive disk_ok finish_move packet_ok update
    run_move move_packet
decide_succeeds = refl

decide_success_example :
    (p : Fields) × (load_packet host requested_files false outbox ≡ ok p)
    × IsPending outbox p
    × (dta ≡ dta → requested_files (sibling outbox "clearance_done") ≡ none)
    × (denied_run.1
        ≡ archived host requested_files dta outbox
            (build_decision p "p1.json" dta none "no" none clock))
decide_success_example =
    decide_success host requested_files no_faults outbox none "no" none clock dta decide_succeeds

decide_refuses :
    (decide host misplaced no_faults in_progress cta none "" false none clock).0
    ≡ refused (wrong_directory "clearance_in_progress")
unfolding decide prepare_decision run_inplace decided_dir validate missing_errors get enum_error
    escalation_error lease_error blob_errors validate_queue_path queue_status load_packet set
    audit_extended append_audit write_exclusive disk_ok finish_move packet_ok update run_move
    move_packet
decide_refuses = refl

decide_refused_example :
    (decide host misplaced no_faults in_progress cta none "" false none clock).1 in_progress
    ≡ misplaced in_progress
decide_refused_example =
    decide_refused host misplaced no_faults in_progress none "" none clock cta false
      (wrong_directory "clearance_in_progress") in_progress refl temp_is_another
      wrong_directory_no_review decide_refuses

abbrev completed_run : Exit × Fs host
completed_run =
    transition host active_files no_faults in_progress completed none false "" none "2026-01-02"

transition_succeeds : completed_run.0 ≡ success
unfolding transition prepare_transition build_transition ending_dir ending_status validate
    missing_errors get enum_error escalation_error lease_error blob_errors validate_queue_path
    queue_status load_packet set audit_extended append_audit write_exclusive disk_ok finish_move
    packet_ok update run_move move_packet
transition_succeeds = refl

transition_success_example :
    (p : Fields) × (load_packet host active_files false in_progress ≡ ok p)
    × IsActive in_progress p
    × (active_files (sibling in_progress (ending_dir completed)) ≡ none)
    × (completed_run.1
        ≡ update
            (update active_files
              (sibling in_progress (ending_dir completed))
              (some (obj (build_transition p "p1.json" completed none "" none "2026-01-02"))))
            in_progress
            none)
transition_success_example =
    transition_success host active_files no_faults in_progress completed none "" none "2026-01-02"
      transition_succeeds

transition_keeps_example :
    (completed_run.1 in_progress ≡ active_files in_progress)
    ⊎ ((completed_run.0 ≡ success)
        × ((p : Fields) × OnDisk host completed_run.1
              (sibling in_progress (ending_dir completed))
              p))
transition_keeps_example =
    transition_keeps host active_files no_faults in_progress completed none "" none "2026-01-02"
      false refl

transition_refuses :
    (transition host cleared no_faults outbox failed none false "r" none "2026-01-02").0
    ≡ refused (wrong_directory "clearance_outbox")
unfolding transition prepare_transition ending_dir validate missing_errors get enum_error
    escalation_error lease_error blob_errors validate_queue_path queue_status load_packet set
    audit_extended append_audit write_exclusive disk_ok finish_move packet_ok update run_move
    move_packet
transition_refuses = refl
