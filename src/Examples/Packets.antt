-- ===== src/Examples/Packets.antt =====
-- The theorems on requests, on packets and on sequences of runs, at concrete packets.
use clear_wright.Prelude.{
  ok, ◌≡◌, ◌↔◌, refl, true, false, [], none, some, strip, is_space, String, Option, ℕ,
}
use clear_wright.Json.{str, obj, get, set, Fields}
use clear_wright.Packet.{
  validate, validate_queue_path, missing_errors, enum_error, escalation_error, lease_error,
  blob_errors, queue_status,
}
use clear_wright.Packet.Rules.{
  IsWellFormed, validate-IsWellFormed, validate_queue_path-Holds, Holds,
}
use clear_wright.Queue.{
  Fs, Exit, success, refused, no_outbox, update, load_packet, audit_extended, append_audit,
  write_exclusive, disk_ok, finish_move, packet_ok, run_move, move_packet,
}
use clear_wright.Queue.Decide.{dta, rfi, build_decision, decide}
use clear_wright.Queue.Decide.Keys.{IsDecided, build_decision-IsDecided}
use clear_wright.Queue.Request.{
  packet_id, prepare_request, write_request, finish_request, build_request, request_path, request,
}
use clear_wright.Queue.Request.Laws.{request_success}
use clear_wright.Queue.Inspect.{
  parse_iso, lease_of, expected_queue_for, audit_event_count_of, analyze, is_stale, inspect_exit,
  cmd_inspect,
}
use clear_wright.Queue.Inspect.Laws.{HasExpired, cmd_inspect_clean}
use clear_wright.Queue.Invariant.{Reaches, start, after, requested, decided, Reaches-IsSorted}
use clear_wright.Queue.Invariant.Effect.{IsSorted}
use clear_wright.Examples.{
  host, no_faults, requested_packet, cleared_packet, outbox, clock, stamp, request_args,
}
use clear_wright.Examples.Queue.{cleared, empty_files, codec-RoundTrips}

abbrev request_run : Exit × Fs host
request_run = request host empty_files no_faults true "q" request_args false stamp

request_succeeds : request_run.0 ≡ success
unfolding request prepare_request build_request packet_id write_request finish_request is_space
    strip validate missing_errors get enum_error escalation_error lease_error blob_errors
    validate_queue_path queue_status load_packet set audit_extended append_audit write_exclusive
    disk_ok finish_move packet_ok update run_move move_packet
request_succeeds = refl

request_success_example :
    (true ≡ true)
    × IsWellFormed (build_request request_args stamp)
    × (empty_files (request_path "q" request_args stamp) ≡ none)
    × (request_run.1
        ≡ update empty_files
            (request_path "q" request_args stamp)
            (some (obj (build_request request_args stamp))))
request_success_example =
    request_success host empty_files no_faults true "q" request_args stamp request_succeeds

request_refuses :
    (request host cleared no_faults false "q" request_args false stamp).0 ≡ refused no_outbox
unfolding request prepare_request is_space strip
request_refuses = refl

empty-IsSorted : IsSorted host empty_files
unfolding load_packet
empty-IsSorted path p held l d = let bad : ⊥ = cc in elim bad [ ]

request_then_deny :
    Reaches host empty_files
      (decide host request_run.1 no_faults
        (request_path "q" request_args stamp)
        dta
        none
        "no"
        false
        none
        clock).1
request_then_deny =
    after (after start (requested no_faults true "q" request_args false stamp refl))
      (decided no_faults (request_path "q" request_args stamp) dta none "no" false none clock refl)

Reaches-IsSorted_example :
    IsSorted host
      (decide host request_run.1 no_faults
        (request_path "q" request_args stamp)
        dta
        none
        "no"
        false
        none
        clock).1
Reaches-IsSorted_example =
    Reaches-IsSorted host empty_files codec-RoundTrips request_then_deny empty-IsSorted

validate-IsWellFormed_example : (validate cleared_packet ≡ []) ↔ IsWellFormed cleared_packet
validate-IsWellFormed_example = validate-IsWellFormed cleared_packet

validate_queue_path-Holds_example :
    (validate_queue_path outbox (str "CTA") none ≡ []) ↔ Holds "clearance_outbox" "CTA"
validate_queue_path-Holds_example = validate_queue_path-Holds outbox "CTA" refl

build_decision-IsDecided_example :
    IsDecided rfi requested_packet
      (build_decision requested_packet "p1.json" rfi none "why" none clock)
      "p1.json"
      "OPERATOR-0001"
      "why"
      "2026-01-01"
      "2026-01-03"
build_decision-IsDecided_example =
    build_decision-IsDecided requested_packet "p1.json" none "why" none clock rfi

-- Every time is the instant 5.
abbrev five : String → Option ℕ
five s = some 5

inspects : cmd_inspect host cleared false five 3 outbox none ≡ some 0
unfolding cmd_inspect inspect_exit analyze lease_of parse_iso expected_queue_for is_stale
    audit_event_count_of validate missing_errors get enum_error escalation_error lease_error
    blob_errors validate_queue_path queue_status load_packet is_space strip
inspects = refl

cmd_inspect_clean_example :
    (p : Fields) × (load_packet host cleared false outbox ≡ ok p)
    × IsWellFormed p
    × (validate_queue_path outbox (get p "status") none ≡ [])
    × (¬ HasExpired five 3 (get p "claim_expires_at"))
    × (¬ HasExpired five 3 (get p "clearance_expires_at"))
cmd_inspect_clean_example = cmd_inspect_clean five 3 host cleared false outbox none inspects
