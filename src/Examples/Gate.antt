-- ===== src/Examples/Gate.antt =====
-- The theorems on gates at a concrete store.
use clear_wright.Prelude.{
  ◌≡◌, ◌↔◌, refl, false, [], ◌∷◌, none, some, ok, str_eq, if◌then◌else◌, is_blank, is_space, strip,
  concat, subst, Bool-cases, inl, inr, arith,
}
use clear_wright.Gate.{
  Gate, GateRecord, Store, Digests, KeyPayload, Moment, unresolved, resolved, is_unresolved,
  first_unresolved, load_record, write_record, load_gates, active_gate, require_open,
}
use clear_wright.Gate.Laws.{unresolved_count, require_open_iff}
use clear_wright.Gate.Subject.{subject_of, canonical_subject}
use clear_wright.Gate.Subject.Alias.{IsPacketId, subject_of_alias}
use clear_wright.Gate.Ensure.{Escalation, ensure_gate}
use clear_wright.Gate.Ensure.Once.{IsSingle, AllSingle, ensure_gate-AllSingle}
use clear_wright.Gate.Tokens.{is_id_char, token_in, id_token_present, count_code, phrase_from}
use clear_wright.Gate.Authority.{
  Message, Texts, proceed_phrases, find_message, dispose_first, iso_time, phrase_authorizes,
  names_target, validate_authority, record_disposition, grant_proceed,
}
use clear_wright.Gate.Authority.Laws.{IsAuthority, OneFewer, grant_proceed_success}

abbrev digests : Digests
digests = record {
  of_subject = λ s. s;
  of_payload = λ p. concat "k" (concat p.council p.outcome);
  nfc = λ s. s;
  casefold = λ s. s;
}

abbrev texts : Texts
texts = record {
  parse_time = λ s. if str_eq s "early" then some 1 else some 2;
  lower = λ s. s;
  is_word = is_id_char;
}

abbrev gate : Gate
gate = record {
  gate_id = "gate-1";
  subject = "packet:p1";
  seen = "packet:p1:cta";
  council_id = "council-1";
  phase = "plan";
  outcome = "operator_required";
  dedup_key = "kcouncil-1operator_required";
  created_at = "early";
  disposition = unresolved;
  authority = none;
  events = [];
  rounds = none;
  scope_hash = none;
}

abbrev store : Store
store name =
    if str_eq name "packet:p1"
    then some (record { subject = "packet:p1"; gates = gate ∷ [] })
    else none

abbrev message : Message
message = record {
  message_id = "m1";
  actor = "OPERATOR-0001";
  direction = "inbound";
  source = "cli";
  at = "late";
  message = "For council-1 I authorize proceeding";
}

abbrev moment : Moment
moment = record { stamp = "s"; iso = "now" }

abbrev opened : Gate
opened = record gate {
  disposition = resolved;
  authority = some (record { message_id = "m1"; excerpt = message.message; recorded_at = "now" });
}

grants : (grant_proceed texts digests store false (message ∷ []) "rfi:p1" "m1" moment).0 ≡ ok opened
unfolding grant_proceed active_gate load_gates load_record canonical_subject subject_of is_space
    strip first_unresolved is_unresolved validate_authority find_message iso_time names_target
    id_token_present token_in is_id_char phrase_authorizes phrase_from count_code record_disposition
    dispose_first write_record
grants = refl

grant_proceed_success_example :
    (g : Gate) × (m : Message) × (active_gate digests store "rfi:p1" ≡ ok (some g))
    × IsAuthority texts (message ∷ []) g "m1" proceed_phrases m
    × (resolved ≡ resolved)
    × ("gate-1" ≡ g.gate_id)
    × OneFewer texts digests store false "rfi:p1"
        (grant_proceed texts digests store false (message ∷ []) "rfi:p1" "m1" moment).1
grant_proceed_success_example =
    grant_proceed_success texts digests store false "rfi:p1" (message ∷ []) "m1" moment opened
      grants

abbrev escalation : Escalation
escalation = record {
  work_item_id = "in_progress:p1";
  council_id = "council-2";
  phase = "plan";
  outcome = "hard_gate";
  rounds = 2;
  scope_hash = "none";
  invocation_id = "i1";
}

key_is_not_blank : (p : KeyPayload) → is_blank (digests.of_payload p) ≡ false
key_is_not_blank p = refl

gate-IsSingle : IsSingle (gate ∷ [])
gate-IsSingle = record { keyed = (refl, tt); once = λ k. ground arith }

store-AllSingle : AllSingle store
store-AllSingle name r h = elim (Bool-cases (str_eq name "packet:p1")) [
  | inl e ↦
      let kept : record { subject = "packet:p1"; gates = gate ∷ [] } ≡ r = ground arith in
      subst (λ (x : GateRecord). IsSingle x.gates) kept gate-IsSingle
  | inr e ↦ let bad : ⊥ = ground arith in elim bad [ ]
]

ensure_gate-AllSingle_example :
    AllSingle (ensure_gate digests store store false escalation moment).1
ensure_gate-AllSingle_example =
    ensure_gate-AllSingle digests key_is_not_blank store store false escalation moment
      store-AllSingle

gates_loaded : load_gates digests store "p1" ≡ ok (gate ∷ [])
unfolding load_gates load_record canonical_subject subject_of is_space strip
gates_loaded = refl

require_open_iff_example :
    (require_open digests store "p1" ≡ ok tt) ↔ (unresolved_count (gate ∷ []) ≡ 0)
require_open_iff_example = require_open_iff digests store "p1" (gate ∷ []) gates_loaded

plain_id : IsPacketId "p1"
unfolding is_space
plain_id = record { solid = refl; uncoloned = refl; nonempty = refl }

subject_of_alias_example :
    (canonical_subject "packet:p1:cta" ≡ "packet:p1")
    × (canonical_subject "in_progress:p1" ≡ "packet:p1")
    × (canonical_subject "rfi:p1" ≡ "packet:p1")
    × (canonical_subject "packet:p1" ≡ "packet:p1")
    × (canonical_subject "p1" ≡ "packet:p1")
subject_of_alias_example = subject_of_alias "p1" plain_id refl
