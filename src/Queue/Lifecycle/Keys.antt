-- ===== src/Queue/Lifecycle/Keys.antt =====
-- The keys of a completed or failed packet.
use clear_wright.Prelude.{
  String, ◌≡◌, refl, true, false, List, [], ◌∷◌, Option, arith, eq_iff, elem, is_blank,
}
use clear_wright.Json.{str, Fields, get, get-set, AgreeOff, AgreeOff-refl, AgreeOff-set}
use clear_wright.Packet.Moves.{moved_keys, moved-IsWellFormed}
use clear_wright.Packet.Rules.{IsWellFormed}
use clear_wright.Queue.Audit.{get-append_audit, append_audit-IsBlob, append_audit-AgreeOff}
use clear_wright.Queue.Lifecycle.{
  Ending, completed, failed, ending_status, ending_dir, build_transition,
}

-- The keys that a transition may write.
abbrev pub transition_keys : List String
transition_keys = "status" ∷ "source_path" ∷ "updated_at" ∷ "audit_json" ∷ []

ruleset agree_rules = (AgreeOff-set, append_audit-AgreeOff, AgreeOff-refl)

module _ (p : Fields) (name : String) (actor : Option String) (reason : String)
    (results : Option Fields) (now : String) where
  abbrev result : Ending → Fields
  result e = build_transition p name e actor reason results now

  pub build_transition-AgreeOff :
      (e : Ending) (ks : List String)
      → elem "status" ks ≡ true
      → elem "source_path" ks ≡ true
      → elem "updated_at" ks ≡ true
      → elem "audit_json" ks ≡ true
      → AgreeOff ks p (result e)
  unfolding build_transition
  build_transition-AgreeOff e ks a b c d = search agree_rules depth 9

  pub status-build_transition : (e : Ending) → get (result e) "status" ≡ str (ending_status e)
  unfolding build_transition
  status-build_transition e = simp (get-append_audit, get-set)

  pub build_transition-IsWellFormed :
      (e : Ending) → IsWellFormed p → is_blank now ≡ false → IsWellFormed (result e)
  unfolding build_transition ending_status ending_dir
  build_transition-IsWellFormed completed w n =
      moved-IsWellFormed p _ "DONE" w
        (build_transition-AgreeOff completed moved_keys refl refl refl refl)
        (status-build_transition completed) refl (simp (get-append_audit, get-set))
        (simp (get-append_audit, get-set) n)
        (λ c. ground (arith, eq_iff "DONE" "CTA", eq_iff "DONE" "IN_PROGRESS"))
        (simp (get-append_audit, get-set) w.blobs.1.1.0)
        (simp (get-append_audit, get-set) w.blobs.1.1.1.0) (append_audit-IsBlob _ _)
  build_transition-IsWellFormed failed w n =
      moved-IsWellFormed p _ "FAILED" w
        (build_transition-AgreeOff failed moved_keys refl refl refl refl)
        (status-build_transition failed) refl (simp (get-append_audit, get-set))
        (simp (get-append_audit, get-set) n)
        (λ c. ground (arith, eq_iff "FAILED" "CTA", eq_iff "FAILED" "IN_PROGRESS"))
        (simp (get-append_audit, get-set) w.blobs.1.1.0)
        (simp (get-append_audit, get-set) w.blobs.1.1.1.0) (append_audit-IsBlob _ _)
