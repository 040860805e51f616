-- ===== src/Queue/Audit.antt =====
-- Appending an event to a packet's audit history.
use clear_wright.Prelude.{
  String, ◌≡◌, refl, inl, inr, true, false, List, some, arith, str_eq, elem, Option-cases,
}
use clear_wright.Json.{
  Value, Fields, get, get-set_ne, get-set_self, is_container, AgreeOff, AgreeOff-set,
}
use clear_wright.Packet.Moves.{IsBlob}
use clear_wright.Queue.{audit_extended, append_audit}

pub audit_extended-container : (a e v : Value) → audit_extended a e ≡ some v → is_container v ≡ true
unfolding audit_extended
audit_extended-container a e v h = ground arith

module _ (p : Fields) (event : Value) where
  pub get-append_audit :
      (f : String) → str_eq "audit_json" f ≡ false → get (append_audit p event) f ≡ get p f
  unfolding append_audit
  get-append_audit f h = elim (Option-cases (audit_extended (get p "audit_json") event)) [
    | inl n ↦ rw (n, append_audit) (get-set_ne p "audit_json" _ f h)
    | inr (v, s) ↦ rw (s, append_audit) (get-set_ne p "audit_json" v f h)
  ]

  pub append_audit-IsBlob : IsBlob (get (append_audit p event) "audit_json")
  unfolding append_audit
  append_audit-IsBlob = elim (Option-cases (audit_extended (get p "audit_json") event)) [
    | inl n ↦ rw (n, append_audit) (rw get-set_self (inr refl))
    | inr (v, s) ↦
        rw (s, append_audit) (rw get-set_self (inr (audit_extended-container _ event v s)))
  ]

  pub append_audit-AgreeOff :
      (ks : List String) {o : Fields}
      → elem "audit_json" ks ≡ true
      → AgreeOff ks o p
      → AgreeOff ks o (append_audit p event)
  unfolding append_audit
  append_audit-AgreeOff ks m a = elim (Option-cases (audit_extended (get p "audit_json") event)) [
    | inl n ↦ rw (n, append_audit) (AgreeOff-set ks "audit_json" _ m a)
    | inr (v, s) ↦ rw (s, append_audit) (AgreeOff-set ks "audit_json" v m a)
  ]
