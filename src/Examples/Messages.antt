-- ===== src/Examples/Messages.antt =====
-- The theorems on the message log at a concrete log.
use mathlib.Core.List.{Perm}
use clear_wright.Prelude.{
  ℕ, String, ◌≡◌, refl, true, false, List, [], ◌∷◌, none, some, ok, is_space, strip, sort_by,
}
use clear_wright.Json.{null, bool, int, str, Fields, end, field, get, set}
use clear_wright.Messages.{
  MessageArgs, build_message, base_record, message_record, or_default, is_among, optional_ok,
  set_text,
}
use clear_wright.Messages.Text.{canonical_content, byte_length}
use clear_wright.Messages.Valid.{IsMessage, build_message-IsMessage}
use clear_wright.Messages.Log.{
  LogFile, LogFaults, write_message, is_taken, free_name, read_messages, write_message_idempotent,
  find_by_idempotency_key, all_messages, rows, row_before, first_match, filtered, keep, most_recent,
  same_value, same_post,
}
use clear_wright.Messages.Log.Append.{write_message-read_messages}
use clear_wright.Messages.Log.Retry.{start, then_post, write_message_idempotent_retry}

abbrev decimal : ℕ → String
decimal n = "1"

abbrev args : MessageArgs
args = record {
  actor = "claude";
  message = "a request";
  role = "";
  packet_id = "";
  thread_id = "thr-1";
  direction = "";
  status = "";
  source = "";
  simulated = false;
  work_item_id = "";
  intent = "request";
  closure = "";
  closure_meta = null;
  idempotency_key = "key-1";
}

abbrev args_built : Fields
args_built = field "message_id" (str "msg-2") (
    field "thread_id" (str "thr-1") (
      field "at" (str "2026-01-02") (
        field "identity_version" (int 2) (
          field "actor" (str "claude") (
            field "role" (str "agent") (
              field "direction" (str "inbound") (
                field "status" (str "posted") (
                  field "message" (str "a request") (
                    field "source" (str "local-adapter") (
                      field "simulated" (bool false) (
                        field "intent" (str "request")
                          (field "idempotency_key" (str "key-1") end))))))))))))

builds : build_message "2" "2026-01-02" args ≡ ok args_built
unfolding build_message strip is_space canonical_content byte_length is_among or_default optional_ok
    message_record base_record set_text set
builds = refl

build_message-IsMessage_example : IsMessage args_built
build_message-IsMessage_example = build_message-IsMessage "2" "2026-01-02" args args_built builds

abbrev log : List LogFile
log = record { name = "msg-2.json"; message = some (field "at" (str "2026-01-01") end) } ∷ []

abbrev no_faults : LogFaults
no_faults = record { in_maintenance = false; create = false; write = false; sync = false }

abbrev failing : LogFaults
failing = record { in_maintenance = true; create = true; write = true; sync = true }

abbrev log_written : List LogFile
log_written =
    record { name = "msg-2.json"; message = some (field "at" (str "2026-01-01") end) }
    ∷ record { name = "msg-2-1.json"; message = some args_built }
    ∷ []

writes : write_message decimal log no_faults args_built ≡ (ok "msg-2-1.json", log_written)
unfolding write_message free_name is_taken get
writes = refl

write_message-read_messages_example :
    Perm (args_built ∷ read_messages log null null none) (read_messages log_written null null none)
write_message-read_messages_example =
    write_message-read_messages decimal log no_faults args_built "msg-2-1.json" log_written writes

posts :
    write_message_idempotent decimal log no_faults false args_built
    ≡ (ok (record { message = args_built; is_retry = false }), log_written)
unfolding write_message_idempotent find_by_idempotency_key read_messages all_messages rows
    row_before first_match filtered keep most_recent same_value sort_by write_message free_name
    is_taken get
posts = refl

-- In between, another message is posted.
abbrev other : Fields
other = field "message_id" (str "msg-3") (field "thread_id" (str "thr-1") end)

abbrev log_later : List LogFile
log_later = (write_message_idempotent decimal log_written no_faults false other).1

write_message_idempotent_retry_example :
    write_message_idempotent decimal log_later failing false args_built
    ≡ (ok (record { message = args_built; is_retry = true }), log_later)
unfolding get same_post same_value
write_message_idempotent_retry_example =
    write_message_idempotent_retry decimal log no_faults failing false args_built args_built
      log_written log_later "key-1" "thr-1" refl refl refl refl refl refl refl posts
      (then_post no_faults false other start)
