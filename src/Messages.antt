-- ===== src/Messages.antt =====
-- Durable messages: `build_message` of tools/clearwright_message.py. A text argument that is `None`
-- is the empty text here; the texts of the clock are parameters.
pub mod Text
pub mod Valid
pub mod Log
use clear_wright.Prelude.{
  ℕ, String, Bool, true, false, not, ◌&&◌, ◌||◌, List, [], ◌∷◌, elem, if◌then◌else◌, ltb, is_blank,
  strip, concat, Result, ok, err, refuse_if, ◌>>◌, ◌>>=◌,
}
use clear_wright.Json.{Value, null, bool, int, str, obj, Fields, end, field, set, truthy}
use clear_wright.Messages.Text.{canonical_content, byte_length}

pub data MessageError : Type 0 where
  no_actor no_message too_large bad_direction bad_status bad_intent bad_closure bad_closure_meta :
      MessageError

-- MESSAGE_MAX_BYTES
abbrev pub message_max_bytes : ℕ
message_max_bytes = 65536

abbrev pub directions : List String
directions = "inbound" ∷ "outbound" ∷ "internal" ∷ []

abbrev pub statuses : List String
statuses = "posted" ∷ "read" ∷ "claimed" ∷ "responded" ∷ []

abbrev pub intents : List String
intents = "chat" ∷ "request" ∷ []

abbrev pub closures : List String
closures = "done" ∷ "closed_by_operator" ∷ []

-- The arguments of `build_message`.
pub record MessageArgs : Type 0 where
  pub actor : String
  pub message : String
  pub role : String
  pub packet_id : String
  pub thread_id : String
  pub direction : String
  pub status : String
  pub source : String
  pub simulated : Bool
  pub work_item_id : String
  pub intent : String
  pub closure : String
  pub closure_meta : Value
  pub idempotency_key : String

-- `str(value).strip() or default`
unfoldable pub or_default : String → String → String
or_default default s = let t = strip s in if is_blank t then default else t

is_object_or_none : Value → Bool
is_object_or_none null = true
is_object_or_none (obj fs) = true
is_object_or_none _ = false

-- A test of membership that is kept as one.
unfoldable pub is_among : List String → String → Bool
is_among names s = elem s names

unfoldable pub optional_ok : List String → String → Bool
optional_ok names s = is_blank s || is_among names s

-- The key is set where the value is not blank.
unfoldable pub set_text : String → String → Fields → Fields
set_text k s m = if is_blank s then m else set m k (str s)

set_closure : String → Value → Fields → Fields
set_closure closure meta m =
    if is_blank closure
    then m
    else if truthy meta
    then set (set m "closure" (str closure)) "closure_meta" meta
    else set m "closure" (str closure)

-- The keys that every message has.
unfoldable pub base_record : String → String → MessageArgs → String → Fields
base_record stamp at a content = field "message_id" (str (concat "msg-" stamp)) (
    field "thread_id" (str (or_default (concat "thr-" stamp) a.thread_id)) (
      field "at" (str at) (
        field "identity_version" (int 2) (
          field "actor" (str (strip a.actor)) (
            field "role" (str (or_default "agent" a.role)) (
              field "direction" (str (or_default "inbound" a.direction)) (
                field "status" (str (or_default "posted" a.status)) (
                  field "message" (str content) (
                    field "source" (str (or_default "local-adapter" a.source))
                      (field "simulated" (bool a.simulated) end))))))))))

-- The keys that are set only where a value is given.
unfoldable pub message_record : String → String → MessageArgs → String → Fields
unfolding set_closure
message_record stamp at a content =
    let scoped =
      set_text "work_item_id" (strip a.work_item_id)
        (set_text "packet_id" (strip a.packet_id) (base_record stamp at a content)) in
    set_text "idempotency_key" (strip a.idempotency_key)
      (set_closure (strip a.closure) a.closure_meta (set_text "intent" (strip a.intent) scoped))

unfoldable pub build_message : String → String → MessageArgs → Result MessageError Fields
unfolding is_object_or_none
build_message stamp at a = do
  refuse_if (is_blank (strip a.actor)) no_actor
  refuse_if (is_blank (strip a.message)) no_message
  let content = canonical_content a.message
  refuse_if (ltb message_max_bytes (byte_length content)) too_large
  refuse_if (not (is_among directions (or_default "inbound" a.direction))) bad_direction
  refuse_if (not (is_among statuses (or_default "posted" a.status))) bad_status
  refuse_if (not (optional_ok intents (strip a.intent))) bad_intent
  refuse_if (not (optional_ok closures (strip a.closure))) bad_closure
  refuse_if (not (is_object_or_none a.closure_meta)) bad_closure_meta
  ok (message_record stamp at a content)
