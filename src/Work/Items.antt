-- ===== src/Work/Items.antt =====
-- The derivation of the work items: `derive_work_items` and `integrity_warnings` of
-- tools/clearwright_work.py, over the records that they read. Of a set of ids Python gives the members
-- in some order; here it is that of the messages. The index by id holds the last message of an id.
pub mod Gated
pub mod Listed
use clear_wright.Prelude.{
  ℕ, String, suc, Bool, true, false, not, ◌&&◌, ◌||◌, List, [], ◌∷◌, ◌++◌, Option, none, some,
  str_eq, elem, any, is_empty, map, if◌then◌else◌, leb, ltb, ◌==◌, codes_ltb, sort_by, concat,
  ends_with, starts_with, Result, ok, err,
}
use clear_wright.Json.{Value, null, str, Fields, end, get, truthy}
use clear_wright.Identity.{is_v2, v2_is_origin, work_item_id_for, message_id_of}
use clear_wright.Work.{Python, is_text, shown}
use clear_wright.Work.Iso.{age, is_within}
use clear_wright.Work.Activity.{
  LastActivity, last_activity, has_lifecycle, awaiting_operator_reply, latest_claim,
}
use clear_wright.Work.State.{
  WorkState, open_item, is_terminal, malformed, Warning, legacy_ambiguity, select, derive_state,
  derive_warnings, classify_record, governed_work,
}
use clear_wright.Work.Runner.{
  running_window, RunnerState, runner_state, unknown, waiting_on_operator, is_operator_required,
}
use clear_wright.Work.Presentation.{
  Signals, PresentationState, needs_operator, waiting_on_claude, presentation_state,
}
use clear_wright.Work.View.{WorkItem, Kind, packet, rfi, in_progress, message, neg_time}

-- `_read_packets`: a packet that could be read, with its lane.
pub record PacketRow : Type 0 where
  pub packet_id : Value
  pub status : Value
  pub lane : String
  pub title : Value

-- What one derivation reads. `gate_of` is `active_gate`, no gate where it fails; `is_running` is
-- the injected snapshot of runs by work item or thread.
pub record Records : Type 0 where
  pub packets : List PacketRow
  pub messages : List Fields
  pub councils : List Fields
  pub legacy : List String
  pub gate_of : String → Option Fields
  pub is_running : String → Bool

-- A warning with its work item.
pub record Noted : Type 0 where
  pub work_item_id : String
  pub warning : Warning

record_with_id : Python → String → List Fields → Option Fields
record_with_id py id [] = none
record_with_id py id (m ∷ ms) = elim (record_with_id py id ms) [
  | some n ↦ some n
  | none ↦
      if truthy (get m "message_id") && str_eq (shown py (get m "message_id")) id
      then some m
      else none
]

-- `thread_id or "thr-unknown"`
unfoldable pub thread_of : Python → Fields → String
thread_of py m = if truthy (get m "thread_id") then shown py (get m "thread_id") else "thr-unknown"

is_origin : (Value → Bool) → List String → Python → Fields → Bool
is_origin at_least_two legacy py m =
    if is_v2 at_least_two m then v2_is_origin m else elem (shown py (get m "message_id")) legacy

-- `_origin_message_ids`
unfoldable pub origin_message_ids :
    (Value → Bool) → List String → Python → List Fields → List String
unfolding is_origin
origin_message_ids at_least_two legacy py [] = []
origin_message_ids at_least_two legacy py (m ∷ ms) =
    let rest = origin_message_ids at_least_two legacy py ms in
    let id = shown py (get m "message_id") in
    if truthy (get m "message_id") && is_origin at_least_two legacy py m && not (elem id rest)
    then id ∷ rest
    else rest

is_bound : String → Fields → Bool
is_bound wid m = is_text (get m "work_item_id") wid

is_unbound_in : Python → String → Fields → Bool
is_unbound_in py tid m = not (truthy (get m "work_item_id")) && is_text (get m "thread_id") tid

-- `_bound`: the records bound to the work item, with those of its thread that name none where the
-- thread has one item only.
unfoldable pub bound_records : Python → List Fields → String → String → Bool → List Fields
unfolding is_bound is_unbound_in
bound_records py ms wid tid single =
    select (λ m. is_bound wid m || (single && is_unbound_in py tid m)) ms

unfoldable pub is_ambiguous : Python → List Fields → String → String → Bool → Bool
unfolding is_bound is_unbound_in
is_ambiguous py ms wid tid single =
    not single && any (λ m. not (is_bound wid m) && is_unbound_in py tid m) ms

thread_of_id : Python → List Fields → String → String
unfolding record_with_id
thread_of_id py ms id = elim (record_with_id py id ms) [
  | none ↦ "thr-unknown"
  | some m ↦ thread_of py m
]

count_same : String → List String → ℕ
count_same t [] = 0
count_same t (x ∷ xs) = let rest = count_same t xs in if str_eq x t then suc rest else rest

councils_of : List Fields → String → String → Bool → List Fields
councils_of all wid tid single =
    let own = select (λ c. is_text (get c "work_item_id") wid) all in
    if is_empty own && single then select (λ c. is_text (get c "thread_id") tid) all else own

-- `_council_in_flight`
unfoldable pub council_in_flight : List Fields → Bool
council_in_flight = any (λ c. not (is_text (get c "outcome") "agreement_threshold_met"))

is_malformed : WorkState → Bool
is_malformed malformed = true
is_malformed _ = false

field_of : Option Fields → String → Value
field_of none k = null
field_of (some m) k = get m k

is_some : {A : Type 0} → Option A → Bool
is_some none = false
is_some (some a) = true

warned : String → List Noted → Bool
warned wid = any (λ w. str_eq w.work_item_id wid)

note_all : String → List Warning → List Noted
note_all wid = map (λ w. record { work_item_id = wid; warning = w })

-- What is known of one message work item when its state is derived.
pub record Context : Type 0 where
  pub work_item_id : String
  pub thread_id : String
  pub origin_id : String
  pub origin : Option Fields
  pub bound : List Fields
  pub councils : List Fields
  pub gate : Option Fields

module _ (py : Python) (at_least_two : Value → Bool) (now : ℕ) (recs : Records) where
  unfoldable pub origins : List String
  origins = origin_message_ids at_least_two recs.legacy py recs.messages

  is_single : String → Bool
  unfolding count_same thread_of_id origins
  is_single tid = leb (count_same tid (map (λ id. thread_of_id py recs.messages id) origins)) 1

  unfoldable pub context : String → Context
  unfolding is_single thread_of_id councils_of record_with_id
  context id =
      let wid = work_item_id_for id in
      let tid = thread_of_id py recs.messages id in
      record {
        work_item_id = wid;
        thread_id = tid;
        origin_id = id;
        origin = record_with_id py id recs.messages;
        bound = bound_records py recs.messages wid tid (is_single tid);
        councils = councils_of recs.councils wid tid (is_single tid);
        gate = recs.gate_of wid;
      }

  unfoldable pub state_of : Context → WorkState
  state_of c = derive_state py c.origin c.bound c.gate c.councils

  -- The warnings that one item adds.
  unfoldable pub item_warnings : Context → List Noted
  unfolding note_all is_single
  item_warnings c = note_all c.work_item_id (
      (if is_ambiguous py recs.messages c.work_item_id c.thread_id (is_single c.thread_id)
        then legacy_ambiguity c.thread_id ∷ []
        else [])
      ++ derive_warnings py c.origin c.bound c.gate)

  -- The records bound to the item but for its origin.
  unfoldable pub activity_records : Context → List Fields
  activity_records c =
      select (λ m. not (str_eq (shown py (get m "message_id")) c.origin_id)) c.bound

  recent_run : LastActivity → Bool
  recent_run run =
      truthy run.last_activity_at && is_within running_window (age py now run.last_activity_at null)

  -- Only activity other than claims, or the injected snapshot, shows that an item runs.
  unfoldable pub is_active : Context → Bool
  unfolding recent_run is_some
  is_active c =
      (is_some (latest_claim py c.bound)
        && recent_run (
            last_activity py
              (select (λ m. not (is_text (get m "status") "claimed")) (activity_records c))
              c.councils c.gate))
      || recs.is_running c.work_item_id
      || recs.is_running c.thread_id

  unfoldable pub signals_of : Context → Bool → Signals
  unfolding is_some is_malformed field_of
  signals_of c is_warned = record {
    status = state_of c;
    needs_operator = is_operator_required (state_of c);
    blocked = is_malformed (state_of c) || is_warned;
    awaiting_operator = awaiting_operator_reply py c.bound;
    claimed = is_some (latest_claim py c.bound);
    active_runner = is_active c;
    last_activity_at = (last_activity py (activity_records c) c.councils c.gate).last_activity_at;
    created_at = field_of c.origin "at";
  }

  origin_fields : Option Fields → Fields
  origin_fields none = end
  origin_fields (some m) = m

  unfoldable pub message_item : Context → Bool → WorkItem
  unfolding field_of is_some origin_fields
  message_item c is_warned =
      let claim = latest_claim py c.bound in
      let s = signals_of c is_warned in
      record {
        work_item_id = c.work_item_id;
        kind = message;
        status = state_of c;
        title = field_of c.origin "message";
        created_at = s.created_at;
        claimed_by = field_of claim "actor";
        claimed_at = field_of claim "at";
        last_activity_at = s.last_activity_at;
        runner_state =
            runner_state py s.claimed (field_of claim "at") s.active_runner
              (council_in_flight c.councils) s.awaiting_operator (is_some c.gate) s.status now;
        record_class =
            classify_record py (origin_fields c.origin)
              (has_lifecycle (activity_records c) c.councils c.gate claim) s.status;
        presentation_state = presentation_state py now s;
      }

  -- The items in turn, each with the warnings so far.
  message_items : List Noted → List String → List Noted × List WorkItem
  unfolding warned
  message_items notes [] = (notes, [])
  message_items notes (id ∷ ids) =
      let c = context id in
      let seen = notes ++ item_warnings c in
      let (all, rest) = message_items seen ids in
      (all, message_item c (warned c.work_item_id seen) ∷ rest)

  packet_record : String → Kind → Value → PresentationState → RunnerState → WorkItem
  packet_record wid kind title shown_as runner = record {
    work_item_id = wid;
    kind = kind;
    status = open_item;
    title = title;
    created_at = null;
    claimed_by = null;
    claimed_at = null;
    last_activity_at = null;
    runner_state = runner;
    record_class = governed_work;
    presentation_state = shown_as;
  }

  unfoldable pub packet_items : List PacketRow → List WorkItem
  unfolding packet_record
  packet_items [] = []
  packet_items (p ∷ ps) =
      let rest = packet_items ps in
      let id = shown py p.packet_id in
      if not (truthy p.packet_id)
      then rest
      else if str_eq p.lane "clearance_outbox" && is_text p.status "CTA"
      then packet_record (concat "packet:" (concat id ":cta")) packet p.title needs_operator
          waiting_on_operator
        ∷ rest
      else if str_eq p.lane "clearance_outbox" && is_text p.status "RFI_PENDING"
      then packet_record (concat "rfi:" id) rfi p.title needs_operator waiting_on_operator ∷ rest
      else if str_eq p.lane "clearance_in_progress" && is_text p.status "IN_PROGRESS"
      then packet_record (concat "in_progress:" id) in_progress p.title waiting_on_claude unknown
        ∷ rest
      else rest

  -- `integrity_warnings`, but for the manifest's own.
  unfoldable pub integrity_warnings : List Noted
  unfolding message_items origins
  integrity_warnings = (message_items [] origins).0

  unfoldable pub all_items : List WorkItem
  unfolding message_items origins
  all_items = packet_items recs.packets ++ (message_items [] origins).1

-- _KIND_ORDER
abbrev kind_order : Kind → ℕ
kind_order packet = 0
kind_order rfi = 1
kind_order in_progress = 2
kind_order message = 3

unfoldable pub kind_before : WorkItem → WorkItem → Bool
kind_before a b =
    ltb (kind_order a.kind) (kind_order b.kind)
    || (kind_order a.kind == kind_order b.kind
        && codes_ltb (neg_time a.created_at) (neg_time b.created_at))

nonterminal : List WorkItem → List WorkItem
nonterminal [] = []
nonterminal (it ∷ its) =
    let rest = nonterminal its in if is_terminal it.status then rest else it ∷ rest

-- `derive_work_items`; `everything` is include="all".
unfoldable pub derive_work_items : Python → (Value → Bool) → ℕ → Records → Bool → List WorkItem
unfolding nonterminal
derive_work_items py at_least_two now recs everything =
    let items = all_items py at_least_two now recs in
    sort_by kind_before (if everything then items else nonterminal items)
