-- ===== src/Queue/Decide/Keys.antt =====
-- The keys of a decided packet.
use clear_wright.Prelude.{
  concat, List, [], ◌∷◌, String, ◌≡◌, refl, inr, false, Option, arith, ℤ, is_blank, eq_iff,
}
use clear_wright.Json.{
  Value, null, obj, AgreeOff-mono, str, Fields, get, get-set, AgreeOff, AgreeOff-refl, AgreeOff-set,
}
use clear_wright.Packet.Moves.{moved_keys, moved-IsWellFormed}
use clear_wright.Packet.Rules.{IsWellFormed}
use clear_wright.Queue.Audit.{get-append_audit, append_audit-IsBlob, append_audit-AgreeOff}
use clear_wright.Queue.Claim.{or_default}
use clear_wright.Queue.Decide.{
  Decision, cta, dta, rfi, decided_status, decided_dir, Clock, lease_length, build_decision,
}

ruleset agree_rules = (AgreeOff-set, append_audit-AgreeOff, AgreeOff-refl)

-- The keys that a decision may write.
abbrev pub decision_keys : Decision → List String
decision_keys cta =
    "status" ∷ "source_path" ∷ "updated_at" ∷ "cleared_by" ∷ "clearance_expires_at"
    ∷ "decision_json" ∷ "audit_json" ∷ []
decision_keys dta =
    "status" ∷ "source_path" ∷ "updated_at" ∷ "denied_by" ∷ "decision_json" ∷ "audit_json" ∷ []
decision_keys rfi = "status" ∷ "source_path" ∷ "updated_at" ∷ "rfi_json" ∷ "audit_json" ∷ []

-- The key under which a decision is recorded in the packet, and what that record calls the one who
-- decides, the time and the reason.
abbrev pub record_key : Decision → String
record_key rfi = "rfi_json"
record_key _ = "decision_json"

abbrev pub by_key : Decision → String
by_key rfi = "requested_by"
by_key _ = "decided_by"

abbrev pub at_key : Decision → String
at_key rfi = "requested_at"
at_key _ = "decided_at"

abbrev pub reason_key : Decision → String
reason_key rfi = "question"
reason_key _ = "rationale"

abbrev pub member : Value → String → Value
member (obj fs) k = get fs k
member _ k = null

-- Who cleared or denied the packet; an information request names nobody at the top.
abbrev pub IsSigned : Decision → Fields → String → Type 0
IsSigned cta q actor = get q "cleared_by" ≡ str actor
IsSigned dta q actor = get q "denied_by" ≡ str actor
IsSigned rfi q actor = Unit

-- The lease of a clearance, at the top and in the record of the decision.
abbrev pub IsLeased : Decision → Fields → String → Type 0
IsLeased cta q expires =
    (get q "clearance_expires_at" ≡ str expires)
    × (member (get q "decision_json") "clearance_expires_at" ≡ str expires)
IsLeased _ q expires = Unit

-- `q` is `p` behind the decision `d` of `actor`, in a file of that name.
pub record IsDecided (d : Decision) (p q : Fields) (name actor reason now expires : String)
    : Type 0 where
  pub others : AgreeOff (decision_keys d) p q
  pub status : get q "status" ≡ str (decided_status d)
  pub place : get q "source_path" ≡ str (concat (decided_dir d) (concat "/" name))
  pub updated : get q "updated_at" ≡ str now
  pub by : member (get q (record_key d)) (by_key d) ≡ str actor
  pub when : member (get q (record_key d)) (at_key d) ≡ str now
  pub why : member (get q (record_key d)) (reason_key d) ≡ str reason
  pub signed : IsSigned d q actor
  pub leased : IsLeased d q expires

module _ (p : Fields) (name : String) (actor : Option String) (reason : String) (lease : Option ℤ)
    (clock : Clock) where
  abbrev result : Decision → Fields
  result d = build_decision p name d actor reason lease clock

  decision-AgreeOff : (d : Decision) → AgreeOff (decision_keys d) p (result d)
  unfolding build_decision
  decision-AgreeOff cta = search agree_rules depth 9
  decision-AgreeOff dta = search agree_rules depth 9
  decision-AgreeOff rfi = search agree_rules depth 9

  build_decision-AgreeOff : (d : Decision) → AgreeOff moved_keys p (result d)
  build_decision-AgreeOff cta = AgreeOff-mono refl (decision-AgreeOff cta)
  build_decision-AgreeOff dta = AgreeOff-mono refl (decision-AgreeOff dta)
  build_decision-AgreeOff rfi = AgreeOff-mono refl (decision-AgreeOff rfi)

  pub status-build_decision : (d : Decision) → get (result d) "status" ≡ str (decided_status d)
  unfolding build_decision decided_status
  status-build_decision cta = simp (get-append_audit, get-set)
  status-build_decision dta = simp (get-append_audit, get-set)
  status-build_decision rfi = simp (get-append_audit, get-set)

  -- A clearance is a lease that ends when the clock says.
  pub lease-build_decision :
      get (result cta) "clearance_expires_at" ≡ str (clock.iso_in (lease_length lease))
  unfolding build_decision
  lease-build_decision = simp (get-append_audit, get-set)

  -- A decision writes only the keys of its kind, with the status and the directory of its kind and
  -- the time; its record names the actor, or the operator where none is given, with the time and the
  -- reason. A clearance or a denial also names the actor at the top, and a clearance has its lease
  -- there and in its record.
  pub build_decision-IsDecided :
      (d : Decision)
      → IsDecided d p
          (result d)
          name
          (or_default actor "OPERATOR-0001")
          reason
          clock.now
          (clock.iso_in (lease_length lease))
  unfolding build_decision decided_status decided_dir get
  build_decision-IsDecided cta = record {
    others = decision-AgreeOff cta;
    status = status-build_decision cta;
    place = simp (get-append_audit, get-set);
    updated = simp (get-append_audit, get-set);
    by = simp (get-append_audit, get-set);
    when = simp (get-append_audit, get-set);
    why = simp (get-append_audit, get-set);
    signed = simp (get-append_audit, get-set);
    leased = (lease-build_decision, simp (get-append_audit, get-set));
  }
  build_decision-IsDecided dta = record {
    others = decision-AgreeOff dta;
    status = status-build_decision dta;
    place = simp (get-append_audit, get-set);
    updated = simp (get-append_audit, get-set);
    by = simp (get-append_audit, get-set);
    when = simp (get-append_audit, get-set);
    why = simp (get-append_audit, get-set);
    signed = simp (get-append_audit, get-set);
    leased = tt;
  }
  build_decision-IsDecided rfi = record {
    others = decision-AgreeOff rfi;
    status = status-build_decision rfi;
    place = simp (get-append_audit, get-set);
    updated = simp (get-append_audit, get-set);
    by = simp (get-append_audit, get-set);
    when = simp (get-append_audit, get-set);
    why = simp (get-append_audit, get-set);
    signed = tt;
    leased = tt;
  }

  -- A decision on a well-formed packet gives a well-formed packet, if the clock's texts are not
  -- blank.
  pub build_decision-IsWellFormed :
      (d : Decision)
      → IsWellFormed p
      → is_blank clock.now ≡ false
      → is_blank (clock.iso_in (lease_length lease)) ≡ false
      → IsWellFormed (result d)
  unfolding build_decision decided_status
  build_decision-IsWellFormed cta w n x =
      moved-IsWellFormed p _ "CTA" w (build_decision-AgreeOff cta) (status-build_decision cta) refl
        (simp (get-append_audit, get-set)) (simp (get-append_audit, get-set) n)
        (λ _. rw lease-build_decision (rw x)) (simp (get-append_audit, get-set) w.blobs.1.1.0)
        (simp (get-append_audit, get-set) (inr refl)) (append_audit-IsBlob _ _)
  build_decision-IsWellFormed dta w n x =
      moved-IsWellFormed p _ "DTA" w (build_decision-AgreeOff dta) (status-build_decision dta) refl
        (simp (get-append_audit, get-set)) (simp (get-append_audit, get-set) n)
        (λ c. ground (arith, eq_iff "DTA" "CTA", eq_iff "DTA" "IN_PROGRESS"))
        (simp (get-append_audit, get-set) w.blobs.1.1.0)
        (simp (get-append_audit, get-set) (inr refl)) (append_audit-IsBlob _ _)
  build_decision-IsWellFormed rfi w n x =
      moved-IsWellFormed p _ "RFI_PENDING" w (build_decision-AgreeOff rfi)
        (status-build_decision rfi) refl (simp (get-append_audit, get-set))
        (simp (get-append_audit, get-set) n)
        (λ c. ground (arith, eq_iff "RFI_PENDING" "CTA", eq_iff "RFI_PENDING" "IN_PROGRESS"))
        (simp (get-append_audit, get-set) (inr refl))
        (simp (get-append_audit, get-set) w.blobs.1.1.1.0) (append_audit-IsBlob _ _)
