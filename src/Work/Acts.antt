-- ===== src/Work/Acts.antt =====
-- The acts on work items: `claim_work_item`, `respond_work_item` and `progress_work_item` of
-- tools/clearwright_work.py, with `_gate_block` before them. The healing of missing gates, the gate
-- that is active behind it, the packet claim and the freezing of the legacy origins are parameters:
-- what they write is not followed here, nor is the notice that a failed healing posts into the message
-- log.
pub mod Laws
use clear_wright.Prelude.{
  ℕ, ◌==◌, ◌||◌, String, Bool, true, false, not, ◌&&◌, List, [], ◌∷◌, Option, none, some, str_eq,
  if◌then◌else◌, is_blank, strip, concat, any, elem, Result, ok, err, refuse_if, ◌>>=◌, ◌>>◌,
}
use clear_wright.Json.{Value, null, str, Fields, get, truthy}
use clear_wright.Identity.{work_item_id_for, message_id_of}
use clear_wright.Messages.{MessageArgs, MessageError, build_message}
use clear_wright.Messages.Log.{LogFile, LogFaults, WriteError, all_messages, write_message}
use clear_wright.Work.{Python, is_text, shown}
use clear_wright.Work.View.{WorkItem, Kind, packet, rfi, in_progress, message}
use clear_wright.Work.Items.{Records, origins, derive_work_items}
use clear_wright.Work.Ids.{Target, parse_work_item_id}

pub data Act : Type 0 where
  claim respond progress : Act

pub data ActError : Type 0 where
  no_actor unrecognized not_found gated maintenance cta_not_found : ActError
  healing_failed : String → ActError
  claim_refused : ℕ → ActError
  invalid_message : MessageError → ActError
  not_recorded : WriteError → ActError

-- What an act finds in the queue, beside the message log. `heal` fails with a text, `active_gate` is
-- read behind it; `claim_packet` gives no exit code where there is no such CTA packet.
pub record Surroundings : Type 0 where
  pub records_of : List Fields → Records
  pub heal : String → Option String
  pub active_gate : String → Option Fields
  pub claim_packet : String → Option ℕ
  pub is_frozen : Bool

-- OPERATOR_ACTOR
abbrev pub operator_actor : String
operator_actor = "OPERATOR-0001"

-- The arguments of an act: `note` is the text of a response or a progress note.
pub record ActArgs : Type 0 where
  pub act : Act
  pub work_item_id : String
  pub actor : String
  pub note : String
  pub role : String
  pub source : String

module _ (s : Surroundings) where
  gate_refusal : String → Option Fields → Result ActError (Unit {0})
  gate_refusal actor none = ok tt
  gate_refusal actor (some g) = if str_eq (strip actor) operator_actor then ok tt else err gated

  -- `_gate_block`: healing first, then the operator's exemption, then the gate.
  unfoldable pub gate_block : String → String → Result ActError (Unit {0})
  unfolding gate_refusal
  gate_block wid actor = elim (s.heal wid) [
    | some e ↦ err (healing_failed e)
    | none ↦ gate_refusal actor (s.active_gate wid)
  ]

  claim_exit : Option ℕ → Result ActError (Unit {0})
  claim_exit none = err cta_not_found
  claim_exit (some code) = if code == 0 then ok tt else err (claim_refused code)

  -- Claiming a CTA packet claims the packet first.
  unfoldable pub claim_first : Act → Kind → String → Result ActError (Unit {0})
  unfolding claim_exit
  claim_first claim packet ref = claim_exit (s.claim_packet ref)
  claim_first _ _ ref = ok tt

is_claiming : Act → Bool
is_claiming claim = true
is_claiming _ = false

-- What was claimed, or the text of the caller.
unfoldable pub act_note : ActArgs → Target → String
act_note a t = note_of a.act t.kind
  where
    note_of : Act → Kind → String
    note_of claim packet = concat "claimed CTA packet " t.ref
    note_of claim _ = concat "claimed work item " a.work_item_id
    note_of _ _ = a.note

unfoldable pub act_direction : Act → String
act_direction respond = "outbound"
act_direction _ = "internal"

unfoldable pub act_status : Act → String
act_status claim = "claimed"
act_status respond = "responded"
act_status progress = "posted"

first_with_id : Python → String → List Fields → Option Fields
first_with_id py id [] = none
first_with_id py id (m ∷ ms) =
    let rest = first_with_id py id ms in if is_text (get m "message_id") id then some m else rest

-- The first message of the packet that has a thread.
packet_thread : Python → String → List Fields → String
packet_thread py ref [] = ""
packet_thread py ref (m ∷ ms) =
    let rest = packet_thread py ref ms in
    if is_text (get m "packet_id") ref && truthy (get m "thread_id")
    then shown py (get m "thread_id")
    else rest

-- A thread and a packet; the empty text stands for `None`.
pub record Place : Type 0 where
  pub thread_id : String
  pub packet_id : String

message_place : Python → Option Fields → Place
message_place py none = record { thread_id = ""; packet_id = "" }
message_place py (some m) = record {
  thread_id = shown py (get m "thread_id");
  packet_id = shown py (get m "packet_id");
}

unfoldable pub resolve_target : Python → List Fields → Kind → String → Place
unfolding message_place first_with_id packet_thread
resolve_target py ms message ref = message_place py (first_with_id py ref ms)
resolve_target py ms _ ref = record { thread_id = packet_thread py ref ms; packet_id = ref }

module _ (py : Python) (at_least_two : Value → Bool) (now : ℕ) (decimal : ℕ → String)
    (stamp at : String) where
  is_origin_id : Records → Option String → Bool
  is_origin_id recs none = false
  is_origin_id recs (some id) = elem id (origins py at_least_two now recs)

  -- `find_work_item(…) is not None`
  unfoldable pub is_item : Records → String → Bool
  unfolding is_origin_id
  is_item recs wid =
      any (λ it. str_eq it.work_item_id wid) (derive_work_items py at_least_two now recs true)
      || is_origin_id recs (message_id_of wid)

  message_args : ActArgs → Target → Place → MessageArgs
  message_args a t place = record {
    actor = a.actor;
    message = act_note a t;
    role = a.role;
    packet_id = place.packet_id;
    thread_id = place.thread_id;
    direction = act_direction a.act;
    status = act_status a.act;
    source = a.source;
    simulated = false;
    work_item_id = a.work_item_id;
    intent = "";
    closure = "";
    closure_meta = null;
    idempotency_key = "";
  }

  parsed_target : Option Target → Result ActError Target
  parsed_target none = err unrecognized
  parsed_target (some t) = ok t

  built : Result MessageError Fields → Result ActError Fields
  built (err e) = err (invalid_message e)
  built (ok m) = ok m

  -- The checks and the record of an act.
  unfoldable pub prepare_act : Surroundings → List LogFile → Bool → ActArgs → Result ActError Fields
  unfolding message_args parsed_target built is_claiming
  prepare_act s log in_maintenance a = do
    refuse_if (is_claiming a.act && is_blank (strip a.actor)) no_actor
    t ← parsed_target (parse_work_item_id a.work_item_id)
    let ms = all_messages log
    refuse_if (not (is_item (s.records_of ms) a.work_item_id)) not_found
    gate_block s a.work_item_id a.actor
    claim_first s a.act t.kind t.ref
    refuse_if (not s.is_frozen && in_maintenance) maintenance
    built (build_message stamp at (message_args a t (resolve_target py ms t.kind t.ref)))

  recorded :
      Fields → Result WriteError String × List LogFile → Result ActError Fields × List LogFile
  recorded m (err e, log) = (err (not_recorded e), log)
  recorded m (ok name, log) = (ok m, log)

  unfoldable pub act_on_item :
      Surroundings → List LogFile → LogFaults → ActArgs → Result ActError Fields × List LogFile
  unfolding recorded
  act_on_item s log faults a = elim (prepare_act s log faults.in_maintenance a) [
    | err e ↦ (err e, log)
    | ok m ↦ recorded m (write_message decimal log faults m)
  ]
