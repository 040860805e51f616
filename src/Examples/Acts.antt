-- ===== src/Examples/Acts.antt =====
-- The theorems on the acts at a request that is answered, and at one with an open gate.
use clear_wright.Prelude.{
  ℕ, String, ◌≡◌, refl, true, false, List, [], ◌∷◌, ◌++◌, none, some, ok, err, is_space, strip,
  sort_by,
}
use clear_wright.Json.{get, set, bool, int, str, Fields, end, field}
use clear_wright.Messages.Log.{
  all_messages, rows, row_before, write_message, free_name, LogFile, LogFaults, is_taken,
}
use clear_wright.Work.Acts.{
  prepare_act, is_item, gate_block, claim_first, act_note, act_direction, act_status,
  resolve_target, respond, Surroundings, ActError, ActArgs, act_on_item,
}
use clear_wright.Work.Acts.Laws.{IsPrepared, act_on_item_success, act_on_item_gated}
use clear_wright.Work.Ids.{parse_work_item_id}
use clear_wright.Work.Items.{
  derive_work_items, all_items, packet_items, origin_message_ids, message_item, context, thread_of,
  kind_before,
}
use clear_wright.Identity.{is_v2, v2_is_origin, is_text_of, work_item_id_for}
use clear_wright.Work.{is_text, shown}
use clear_wright.Messages.{
  build_message, base_record, message_record, or_default, is_among, optional_ok, set_text,
}
use clear_wright.Messages.Text.{canonical_content, byte_length}
use clear_wright.Examples.Work.{python, never, request_message, gate, records}

abbrev decimal : ℕ → String
decimal n = "1"

abbrev open_queue : Surroundings
open_queue = record {
  records_of = records;
  heal = λ wid. none;
  active_gate = λ wid. none;
  claim_packet = λ ref. none;
  is_frozen = true;
}

abbrev gated_queue : Surroundings
gated_queue = record open_queue { active_gate = λ wid. some gate }

abbrev log : List LogFile
log = record { name = "m1.json"; message = some request_message } ∷ []

abbrev faultless : LogFaults
faultless = record { in_maintenance = false; create = false; write = false; sync = false }

abbrev answer : ActArgs
answer = record {
  act = respond;
  work_item_id = "message:m1";
  actor = "claude";
  note = "done";
  role = "";
  source = "";
}

abbrev answered : Fields
answered = field "message_id" (str "msg-3") (
    field "thread_id" (str "t1") (
      field "at" (str "2027") (
        field "identity_version" (int 2) (
          field "actor" (str "claude") (
            field "role" (str "agent") (
              field "direction" (str "outbound") (
                field "status" (str "responded") (
                  field "message" (str "done") (
                    field "source" (str "local-adapter") (
                      field "simulated" (bool false)
                        (field "work_item_id" (str "message:m1") end)))))))))))

abbrev log_answered : List LogFile
log_answered =
    record { name = "m1.json"; message = some request_message }
    ∷ record { name = "msg-3.json"; message = some answered }
    ∷ []

answers :
    act_on_item python never 7 decimal "3" "2027" open_queue log faultless answer
    ≡ (ok answered, log_answered)
unfolding act_on_item prepare_act is_item gate_block claim_first act_note act_direction act_status
    resolve_target parse_work_item_id derive_work_items all_items packet_items origin_message_ids
    message_item context thread_of kind_before all_messages rows row_before write_message free_name
    is_v2 v2_is_origin is_text_of work_item_id_for is_text shown build_message base_record
    message_record or_default is_among optional_ok set_text canonical_content byte_length get set
    is_taken strip is_space sort_by
answers = refl

act_on_item_success_example :
    IsPrepared python never 7 decimal "3" "2027" open_queue log answer answered
    × ((name : String) × (is_taken name log ≡ false)
        × (log_answered ≡ (log ++ (record { name = name; message = some answered } ∷ []))))
act_on_item_success_example =
    act_on_item_success python never 7 decimal "3" "2027" open_queue log log_answered faultless
      answer answered answers

act_on_item_gated_example :
    (e : ActError) × (act_on_item python never 7 decimal "3" "2027" gated_queue log faultless answer
      ≡ (err e, log))
unfolding strip is_space
act_on_item_gated_example =
    act_on_item_gated python never 7 decimal "3" "2027" gated_queue log faultless answer gate refl
      refl refl
