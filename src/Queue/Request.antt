-- ===== src/Queue/Request.antt =====
-- Authoring one new request: tools/clearwright_request.py. The packet id is a plain file name: an id
-- with path separators, which names a file elsewhere, is not modelled.
pub mod Laws
use clear_wright.Prelude.{
  String, Bool, true, false, not, List, [], ◌∷◌, ◌++◌, Option, none, some, is_empty, if◌then◌else◌,
  Result, ok, err, ◌>>=◌, ◌>>◌, refuse_if, concat, is_blank, strip,
}
use clear_wright.Json.{Value, str, obj, arr, nil, cons, Fields, end, field, get, set}
use clear_wright.Packet.{FilePath, validate, validate_queue_path}
use clear_wright.Queue.{
  Host, Fs, Faults, Exit, success, dry_run_pass, refused, invalid_result, blank_argument, no_outbox,
  rolled_back, Refusal, update, disk_ok, write_exclusive,
}

-- The parsed command line; an option that was not given is the empty text.
pub record RequestArgs : Type 0 where
  pub title : String
  pub packet_type : String
  pub agent : String
  pub action : String
  pub target_label : String
  pub allowed_scope : String
  pub test_command : String
  pub risk : String
  pub authority : String
  pub clearance : String
  pub priority : String
  pub id : String

-- The time of the run, as it goes into the packet and into a default packet id.
pub record Stamp : Type 0 where
  pub now : String
  pub compact : String

unfoldable pub packet_id : RequestArgs → Stamp → String
packet_id args at = if is_blank (strip args.id) then concat "cw-req-" at.compact else strip args.id

add_optional : Fields → String → String → Fields
add_optional p key text = if is_blank (strip text) then p else set p key (str (strip text))

request_inputs : RequestArgs → Fields
unfolding add_optional
request_inputs args =
    let inputs =
      field "target_project" (str args.target_label)
        (field "requested_action" (str (strip args.action)) end) in
    add_optional (add_optional inputs "allowed_scope" args.allowed_scope) "test_command"
      args.test_command

request_event : RequestArgs → String → Value
request_event args now = obj (
    field "at" (str now) (
      field "event" (str "RTA") (
        field "actor" (str (strip args.agent))
          (field "note" (str (concat "Requested clearance: " (strip args.title))) end))))

unfoldable pub build_request : RequestArgs → Stamp → Fields
unfolding packet_id request_inputs request_event
build_request args at =
    let id = packet_id args at in
    let packet = field "packet_id" (str id) (
      field "packet_type" (str (strip args.packet_type)) (
        field "title" (str (strip args.title)) (
          field "requesting_agent" (str (strip args.agent)) (
            field "created_at" (str at.now) (
              field "updated_at" (str at.now) (
                field "status" (str "RTA") (
                  field "source_path" (str (concat "clearance_outbox/" (concat id ".json"))) (
                    field "packet_hash" (str "sha256:unverified-manual-request") (
                      field "authority_class" (str args.authority) (
                        field "clearance_class" (str args.clearance) (
                          field "priority_class" (str args.priority) (
                            field "inputs_json" (obj (request_inputs args)) (
                              field "audit_json"
                                (obj
                                  (field "events" (arr (cons (request_event args at.now) nil)) end))
                                end))))))))))))) in
    add_optional packet "risk_notes" args.risk

-- The outbox file of the request; `root` is the queue root, made absolute.
abbrev pub request_path : String → RequestArgs → Stamp → FilePath
request_path root args at = record {
  parent = root;
  dir = "clearance_outbox";
  name = concat (packet_id args at) ".json";
}

unfoldable pub prepare_request : Bool → String → RequestArgs → Stamp → Result Exit Fields
prepare_request has_outbox root args at = do
  refuse_if (is_blank (strip args.title)) (refused (blank_argument "--title"))
  refuse_if (is_blank (strip args.packet_type)) (refused (blank_argument "--type"))
  refuse_if (is_blank (strip args.agent)) (refused (blank_argument "--agent"))
  refuse_if (is_blank (strip args.action)) (refused (blank_argument "--action"))
  refuse_if (not has_outbox) (refused no_outbox)
  let packet = build_request args at
  let errors =
      validate packet ++ validate_queue_path (request_path root args at) (get packet "status") none
  refuse_if (not (is_empty errors)) (refused (invalid_result errors))
  ok packet

module _ (h : Host) where
  unfoldable pub finish_request : Fs h → Faults h → FilePath → Exit × Fs h
  finish_request fs faults dest =
      if disk_ok h fs faults.reread dest
      then (success, fs)
      else (refused rolled_back, if faults.cleanup then fs else update fs dest none)

  unfoldable pub write_request : Fs h → Faults h → FilePath → Fields → Exit × Fs h
  write_request fs faults dest p =
      let (failure, written) = write_exclusive h fs faults dest p in
      elim failure [ some r ↦ (refused r, written) | none ↦ finish_request written faults dest ]

  -- `request`; `has_outbox` says whether the queue root has an outbox directory.
  unfoldable pub request :
      Fs h → Faults h → Bool → String → RequestArgs → Bool → Stamp → Exit × Fs h
  request fs faults has_outbox root args dry_run at =
      elim (prepare_request has_outbox root args at) [
        | err e ↦ (e, fs)
        | ok p ↦
            if dry_run
            then (dry_run_pass, fs)
            else write_request fs faults (request_path root args at) p
      ]
