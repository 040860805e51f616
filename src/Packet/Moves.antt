-- ===== src/Packet/Moves.antt =====
-- What a queue tool may change of a packet that stays well formed.
use clear_wright.Prelude.{
  String, is_blank, ◌≡◌, refl, ◌⊎◌, inr, true, false, List, [], ◌∷◌, none, some, arith, elem,
  Any-elem,
}
use clear_wright.Json.{AgreeOff, Value, null, str, Fields, get, is_missing, truthy, is_container}
use clear_wright.Packet.{FilePath, allowed_status, queue_status, validate_queue_path}
use clear_wright.Packet.Rules.{IsWellFormed}

-- The keys that the queue tools write.
abbrev pub moved_keys : List String
moved_keys =
    "status" ∷ "source_path" ∷ "updated_at" ∷ "claimed_by" ∷ "claimed_at" ∷ "audit_json"
    ∷ "cleared_by" ∷ "clearance_expires_at" ∷ "decision_json" ∷ "denied_by" ∷ "rfi_json" ∷ []

-- A container, or no value at all.
abbrev pub IsBlob : Value → Type 0
IsBlob v = (v ≡ null) ⊎ (is_container v ≡ true)

known_status_text : (s : String) → elem s allowed_status ≡ true → is_blank s ≡ false
known_status_text String.[] h = cc
known_status_text (String.◌∷◌ c s) h = refl

-- A well-formed packet stays so when a tool rewrites those keys with values of their kind.
pub moved-IsWellFormed :
    (p q : Fields) (s : String)
    → IsWellFormed p
    → AgreeOff moved_keys p q
    → get q "status" ≡ str s
    → elem s allowed_status ≡ true
    → is_missing (get q "source_path") ≡ false
    → is_missing (get q "updated_at") ≡ false
    → ((s ≡ "CTA") ⊎ (s ≡ "IN_PROGRESS") → truthy (get q "clearance_expires_at") ≡ true)
    → IsBlob (get q "rfi_json")
    → IsBlob (get q "decision_json")
    → IsBlob (get q "audit_json")
    → IsWellFormed q
moved-IsWellFormed p q s w agree st known source updated lease rfi decision audit =
    let same = agree.at in
    record {
      present = (
        rw (same "packet_id" refl) w.present.0,
        (
          rw (same "packet_type" refl) w.present.1.0,
          (
            rw (same "title" refl) w.present.1.1.0,
            (
              rw (same "requesting_agent" refl) w.present.1.1.1.0,
              (
                rw (same "created_at" refl) w.present.1.1.1.1.0,
                (
                  updated,
                  (
                    rw st (known_status_text s known),
                    (source, (rw (same "packet_hash" refl) w.present.1.1.1.1.1.1.1.1.0, tt)),
                  ),
                ),
              ),
            ),
          ),
        ),
      );
      status = inr (s, st, Any-elem s allowed_status known);
      authority = rw (same "authority_class" refl) w.authority;
      clearance = rw (same "clearance_class" refl) w.clearance;
      priority = rw (same "priority_class" refl) w.priority;
      channel = rw (same "channel_state" refl) w.channel;
      escalation = rw (same "escalation_required" refl) w.escalation;
      leased = λ h. lease (ground arith);
      blobs = (
        rw (same "inputs_json" refl) w.blobs.0,
        (
          rw (same "review_json" refl) w.blobs.1.0,
          (rfi, (decision, (audit, (rw (same "backpressure_json" refl) w.blobs.1.1.1.1.1.0, tt)))),
        ),
      );
    }

-- A packet stands where its status belongs, whatever the file's name and queue root.
pub placed :
    (path : FilePath) (v : Value) (s : String) (held : List String)
    → queue_status path.dir ≡ some held
    → v ≡ str s
    → elem s held ≡ true
    → validate_queue_path path v none ≡ []
unfolding validate_queue_path
placed path v s held q e m = rw (e, q) (ground arith)
