-- ===== src/Examples/Work.antt =====
-- The theorems on work items at one request, its claim and its gate.
use mathlib.Core.List.{Perm}
use mathlib.Core.Option
use clear_wright.Prelude.{
  String, ◌≡◌, ◌≢◌, inl, inr, refl, Bool, true, false, List, [], ◌∷◌, Option, none, some, Any,
  strip, text_length, length, IsInOrder, arith,
}
use clear_wright.Json.{Value, int, str, Fields, end, field, get}
use clear_wright.Identity.{is_v2, v2_is_origin, is_text_of, work_item_id_for}
use clear_wright.Work.{Python, is_text, shown}
use clear_wright.Work.Activity.{Candidate, total_order_winner}
use clear_wright.Work.Activity.Latest.{rank, total_order_winner_unordered}
use clear_wright.Work.State.{
  operator_required, is_recognized, stripped, derive_state, running_state, is_response,
  council_state,
}
use clear_wright.Work.Runner.{active_runner}
use clear_wright.Work.Presentation.{needs_operator, running}
use clear_wright.Work.View.{
  WorkItem, in_default_view, choose, in_scope, queue_view, attention_counts,
}
use clear_wright.Work.View.Order.{comes_before}
use clear_wright.Work.View.Laws.{queue_view-IsInOrder, attention_counts-queue_view}
use clear_wright.Work.Items.{
  Records, Context, origins, message_item, derive_work_items, state_of, context, activity_records,
  origin_message_ids, bound_records, thread_of,
}
use clear_wright.Work.Items.Gated.{message_item_gated, message_item_claim_only}
use clear_wright.Work.Items.Listed.{IsItemOf, derive_work_items_listed}

abbrev pub python : Python
python = record {
  from_iso = λ s. some (text_length s);
  str_of = λ v. "?";
  casefold = λ s. s;
  is_digit = λ c. false;
}

abbrev pub never : Value → Bool
never v = false

abbrev candidate : String → Candidate
candidate id = record { at = str "2026"; precedence = 5; source_id = id; label = "progress" }

total_order_winner_unordered_example :
    Option.map rank (total_order_winner python (candidate "a" ∷ candidate "b" ∷ []))
    ≡ Option.map rank (total_order_winner python (candidate "b" ∷ candidate "a" ∷ []))
total_order_winner_unordered_example =
    total_order_winner_unordered python (candidate "a" ∷ candidate "b" ∷ [])
      (candidate "b" ∷ candidate "a" ∷ []) (inr (inl refl), (inl refl, tt))
      (inr (inl refl), (inl refl, tt))

abbrev pub request_message : Fields
request_message = field "message_id" (str "m1") (
    field "thread_id" (str "t1") (
      field "at" (str "2026") (
        field "identity_version" (int 2) (
          field "direction" (str "inbound")
            (field "intent" (str "request") (field "message" (str "do it") end))))))

abbrev claim_message : Fields
claim_message = field "message_id" (str "m2") (
    field "thread_id" (str "t1") (
      field "at" (str "20267") (
        field "identity_version" (int 2) (
          field "direction" (str "internal")
            (field "status" (str "claimed") (field "work_item_id" (str "message:m1") end))))))

abbrev pub gate : Fields
gate = field "gate_id" (str "g1") (field "created_at" (str "2026") end)

abbrev pub records : List Fields → Records
records ms = record {
  packets = [];
  messages = ms;
  councils = [];
  legacy = [];
  gate_of = λ wid. none;
  is_running = λ k. false;
}

abbrev context_with : Option Fields → Context
context_with g = record {
  work_item_id = "message:m1";
  thread_id = "t1";
  origin_id = "m1";
  origin = some request_message;
  bound = request_message ∷ claim_message ∷ [];
  councils = [];
  gate = g;
}

abbrev item_with : Option Fields → WorkItem
item_with g = message_item python never 7 (records []) (context_with g) false

message_item_gated_example :
    ((item_with (some gate)).status ≡ operator_required)
    × ((item_with (some gate)).presentation_state ≡ needs_operator)
    × (in_default_view (item_with (some gate)) ≡ true)
unfolding is_recognized stripped shown get strip
message_item_gated_example =
    message_item_gated python never 7 (records []) (context_with (some gate)) request_message gate
      false refl refl refl refl

message_item_claim_only_example :
    ((item_with none).presentation_state ≢ running)
    × ((item_with none).runner_state ≢ active_runner)
unfolding activity_records is_text get shown
message_item_claim_only_example =
    message_item_claim_only python never 7 (records []) (context_with none) false refl refl refl
      refl refl

derive_work_items_listed_example :
    Any
      (IsItemOf python never 7 (records (request_message ∷ claim_message ∷ [])) "m1")
      (derive_work_items python never 7 (records (request_message ∷ claim_message ∷ [])) false)
unfolding origins state_of context origin_message_ids get is_v2 v2_is_origin is_text is_text_of
    shown derive_state bound_records thread_of is_recognized work_item_id_for running_state
    is_response council_state
derive_work_items_listed_example =
    derive_work_items_listed python never 7 (records (request_message ∷ claim_message ∷ [])) false
      "m1" (inl refl) refl

abbrev items : List WorkItem
items = item_with none ∷ item_with (some gate) ∷ []

abbrev timed_items : List WorkItem
timed_items =
    record (item_with none) { last_activity_at = str "26" }
    ∷ record (item_with (some gate)) { last_activity_at = str "25" }
    ∷ []

queue_view-IsInOrder_example :
    Perm
      (choose (in_scope python "current" (strip " Do ")) timed_items)
      (queue_view python timed_items "current" " Do ")
    × IsInOrder comes_before (queue_view python timed_items "current" " Do ")
queue_view-IsInOrder_example = queue_view-IsInOrder python timed_items "current" " Do " 2 (
  ("26", refl, refl, (omega arith, (omega arith, tt))),
  (("25", refl, refl, (omega arith, (omega arith, tt))), tt),
)

attention_counts-queue_view_example :
    ((attention_counts items).needs_operator
      ≡ length (queue_view python items "needs_attention" ""))
    × ((attention_counts items).running ≡ length (queue_view python items "running" ""))
    × ((attention_counts items).blocked ≡ length (queue_view python items "blocked" ""))
    × ((attention_counts items).stale ≡ length (queue_view python items "stale" ""))
attention_counts-queue_view_example = attention_counts-queue_view python items refl
