-- ===== src/Messages/Valid.antt =====
-- What every message that is built satisfies.
use clear_wright.Prelude.{
  String, ◌≤◌, ◌≡◌, inl, inr, refl, arith, true, false, List, [], ◌∷◌, elem, strip, is_blank, ok,
  Bool-cases,
}
use clear_wright.Json.{Value, int, str, Fields, get, truthy, AgreeOff, AgreeOff-refl, AgreeOff-set}
use clear_wright.Messages.{
  MessageArgs, message_max_bytes, directions, statuses, intents, closures, or_default, is_among,
  optional_ok, set_text, set_closure, base_record, message_record, build_message,
}
use clear_wright.Messages.Text.{canonical_content, byte_length}

abbrev pub optional_keys : List String
optional_keys =
    "packet_id" ∷ "work_item_id" ∷ "intent" ∷ "closure" ∷ "closure_meta" ∷ "idempotency_key" ∷ []

AgreeOff-set_text :
    {p q : Fields} (k s : String)
    → elem k optional_keys ≡ true
    → AgreeOff optional_keys p q
    → AgreeOff optional_keys p (set_text k s q)
unfolding set_text
AgreeOff-set_text {q = q} k s e agree = elim (Bool-cases (is_blank s)) [
  | inl b ↦ rw (b) agree
  | inr b ↦ rw (b) (AgreeOff-set optional_keys k (str s) e agree)
]

AgreeOff-set_closure :
    {p q : Fields} (c : String) (meta : Value)
    → AgreeOff optional_keys p q
    → AgreeOff optional_keys p (set_closure c meta q)
unfolding set_closure
AgreeOff-set_closure {q = q} c meta agree =
    let closed = AgreeOff-set optional_keys "closure" (str c) refl agree in
    elim (Bool-cases (is_blank c)) [
      | inl b ↦ rw (b) agree
      | inr b ↦ elim (Bool-cases (truthy meta)) [
        | inl t ↦ rw (b, t) (AgreeOff-set optional_keys "closure_meta" meta refl closed)
        | inr t ↦ rw (b, t) closed
      ]
    ]

-- The optional keys apart, the message is the record of its arguments.
pub message_record-AgreeOff :
    (stamp at : String) (a : MessageArgs) (content : String)
    → AgreeOff optional_keys (base_record stamp at a content) (message_record stamp at a content)
unfolding message_record
message_record-AgreeOff stamp at a content =
    let base = AgreeOff-refl optional_keys (base_record stamp at a content) in
    let packet = AgreeOff-set_text "packet_id" (strip a.packet_id) refl base in
    let item = AgreeOff-set_text "work_item_id" (strip a.work_item_id) refl packet in
    let intent = AgreeOff-set_text "intent" (strip a.intent) refl item in
    let closure = AgreeOff-set_closure (strip a.closure) a.closure_meta intent in
    AgreeOff-set_text "idempotency_key" (strip a.idempotency_key) refl closure

-- A message of the second identity version: an actor, a direction and a status of the lists, and a
-- content within the limit.
pub record IsMessage (m : Fields) : Type 0 where
  pub identity_version : get m "identity_version" ≡ int 2
  pub actor : (s : String) × (get m "actor" ≡ str s) × (is_blank s ≡ false)
  pub direction : (s : String) × (get m "direction" ≡ str s) × (is_among directions s ≡ true)
  pub status : (s : String) × (get m "status" ≡ str s) × (is_among statuses s ≡ true)
  pub content : (s : String) × (get m "message" ≡ str s) × (byte_length s ≤ message_max_bytes)

build_message-checks :
    (stamp at : String) (a : MessageArgs) (m : Fields)
    → build_message stamp at a ≡ ok m
    → (m ≡ message_record stamp at a (canonical_content a.message))
      × (is_blank (strip a.actor) ≡ false)
      × (is_among directions (or_default "inbound" a.direction) ≡ true)
      × (is_among statuses (or_default "posted" a.status) ≡ true)
      × (optional_ok intents (strip a.intent) ≡ true)
      × (optional_ok closures (strip a.closure) ≡ true)
      × (byte_length (canonical_content a.message) ≤ message_max_bytes)
unfolding build_message
build_message-checks stamp at a m h = ground arith

-- A message that is built has identity version 2, an actor that is not blank, a direction and a
-- status of the allowed ones, and at most 65536 bytes of content.
pub build_message-IsMessage :
    (stamp at : String) (a : MessageArgs) (m : Fields)
    → build_message stamp at a ≡ ok m
    → IsMessage m
unfolding base_record get
build_message-IsMessage stamp at a m h =
    let (eq, actor, direction, status, i, c, size) = build_message-checks stamp at a m h in
    let content = canonical_content a.message in
    let agree = message_record-AgreeOff stamp at a content in
    rw (eq) (record {
      identity_version = agree.at "identity_version" refl;
      actor = (strip a.actor, agree.at "actor" refl, actor);
      direction = (or_default "inbound" a.direction, agree.at "direction" refl, direction);
      status = (or_default "posted" a.status, agree.at "status" refl, status);
      content = (content, agree.at "message" refl, size);
    })
