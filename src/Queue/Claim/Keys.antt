-- ===== src/Queue/Claim/Keys.antt =====
-- The keys of a claimed packet: the ones that the claim sets, and the rest unchanged.
use clear_wright.Prelude.{
  String, ◌≡◌, refl, inl, inr, true, false, List, [], ◌∷◌, Option, none, some, str_eq, is_blank,
  Bool-cases, Option-cases,
}
use clear_wright.Json.{
  Value, str, Fields, get, set, get-set, get-set_ne, get-set_self, AgreeOff, AgreeOff-refl,
  AgreeOff-set, AgreeOff-mono, truthy,
}
use clear_wright.Packet.Moves.{IsBlob, moved-IsWellFormed}
use clear_wright.Packet.Rules.{IsWellFormed}
use clear_wright.Queue.{audit_extended}
use clear_wright.Queue.Audit.{audit_extended-container}
use clear_wright.Queue.Claim.{set_claimant, keep_audit, build_claimed}

-- The keys that a claim may write.
abbrev pub claim_keys : List String
claim_keys =
    "status" ∷ "source_path" ∷ "updated_at" ∷ "claimed_by" ∷ "claimed_at" ∷ "audit_json" ∷ []

set_claimant-AgreeOff :
    (p q : Fields) (claimant : Option String) (now : String)
    → AgreeOff claim_keys p q
    → AgreeOff claim_keys p (set_claimant q claimant now)
unfolding set_claimant
set_claimant-AgreeOff p q none now a = a
set_claimant-AgreeOff p q (some who) now a = elim (Bool-cases (is_blank who)) [
  | inl e ↦ rw e a
  | inr e ↦ rw e (AgreeOff-set _ "claimed_at" _ refl (AgreeOff-set _ "claimed_by" _ refl a))
]

keep_audit-AgreeOff :
    (p q : Fields) (a : Option Value)
    → AgreeOff claim_keys p q
    → AgreeOff claim_keys p (keep_audit q a)
unfolding keep_audit
keep_audit-AgreeOff p q none a = a
keep_audit-AgreeOff p q (some v) a = AgreeOff-set _ "audit_json" v refl a

get-set_claimant :
    (f : String) (p : Fields) (claimant : Option String) (now : String)
    → str_eq "claimed_by" f ≡ false
    → str_eq "claimed_at" f ≡ false
    → get (set_claimant p claimant now) f ≡ get p f
unfolding set_claimant
get-set_claimant f p none now a b = refl
get-set_claimant f p (some who) now a b = elim (Bool-cases (is_blank who)) [
  | inl e ↦ rw e
  | inr e ↦ rw (
    e,
    get-set_ne (set p "claimed_by" (str who)) "claimed_at" (str now) f b,
    get-set_ne p "claimed_by" (str who) f a,
  )
]

get-keep_audit :
    (f : String) (a : Option Value) (q : Fields)
    → str_eq "audit_json" f ≡ false
    → get (keep_audit q a) f ≡ get q f
unfolding keep_audit
get-keep_audit f none q h = refl
get-keep_audit f (some v) q h = get-set_ne q "audit_json" v f h

keep_audit-IsBlob :
    (q : Fields) (e : Value)
    → IsBlob (get q "audit_json")
    → IsBlob (get (keep_audit q (audit_extended (get q "audit_json") e)) "audit_json")
unfolding keep_audit
keep_audit-IsBlob q e b = elim (Option-cases (audit_extended (get q "audit_json") e)) [
  | inl n ↦ rw n b
  | inr (v, s) ↦ rw (s, get-set_self q "audit_json" v) (inr (audit_extended-container _ _ v s))
]

module _ (p : Fields) (name : String) (claimant : Option String) (now : String) where
  -- A key that the claim does not write keeps its value.
  pub build_claimed-AgreeOff : AgreeOff claim_keys p (build_claimed p name claimant now)
  unfolding build_claimed
  build_claimed-AgreeOff = keep_audit-AgreeOff p _ _ (
      set_claimant-AgreeOff p _ claimant now (
        AgreeOff-set _ "updated_at" _ refl (
          AgreeOff-set _ "source_path" _ refl
            (AgreeOff-set _ "status" _ refl (AgreeOff-refl _ p)))))

  pub status-build_claimed : get (build_claimed p name claimant now) "status" ≡ str "IN_PROGRESS"
  unfolding build_claimed
  status-build_claimed = simp (get-keep_audit "status", get-set_claimant "status", get-set)

  -- A claim of a well-formed packet with a clearance lease gives a well-formed packet, if the time
  -- of the claim is not blank.
  pub build_claimed-IsWellFormed :
      IsWellFormed p
      → truthy (get p "clearance_expires_at") ≡ true
      → is_blank now ≡ false
      → IsWellFormed (build_claimed p name claimant now)
  unfolding build_claimed
  build_claimed-IsWellFormed w lease n =
      let same = build_claimed-AgreeOff.at in
      moved-IsWellFormed p _ "IN_PROGRESS" w (AgreeOff-mono refl build_claimed-AgreeOff)
        status-build_claimed refl
        (simp (get-keep_audit "source_path", get-set_claimant "source_path", get-set))
        (simp (get-keep_audit "updated_at", get-set_claimant "updated_at", get-set) n)
        (λ _. rw (same "clearance_expires_at" refl) lease) (rw (same "rfi_json" refl) w.blobs.1.1.0)
        (rw (same "decision_json" refl) w.blobs.1.1.1.0)
        (keep_audit-IsBlob _ _ (simp (get-set_claimant "audit_json", get-set) w.blobs.1.1.1.1.0))
