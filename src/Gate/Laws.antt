-- ===== src/Gate/Laws.antt =====
-- What the gate store serves and refuses.
use clear_wright.Prelude.{
  ℕ, String, suc, ◌≡◌, ◌↔◌, refl, subst, inl, inr, false, List, [], ◌∷◌, none, some, arith, eq_iff,
  eq_refl, if◌then◌else◌, ok, is_blank, Option-cases, Result-cases, Bool-cases,
}
use clear_wright.Gate.{
  Gate, GateRecord, Store, Digests, is_unresolved, first_unresolved, load_record, write_record,
  stored, load_gates, active_gate, require_open,
}
use clear_wright.Gate.Subject.{canonical_subject}

abbrev pub unresolved_count : List Gate → ℕ
unresolved_count [] = 0
unresolved_count (g ∷ gs) =
    let rest = unresolved_count gs in if is_unresolved g then suc rest else rest

none_unresolved : (gs : List Gate) → (first_unresolved gs ≡ none) ↔ (unresolved_count gs ≡ 0)
unfolding first_unresolved
none_unresolved [] = (λ h. refl, λ h. refl)
none_unresolved (g ∷ gs) =
    (λ h. ground (arith, (none_unresolved gs).0), λ h. ground (arith, (none_unresolved gs).1))

module _ (d : Digests) (store : Store) where
  pub load_record-subject :
      (subject : String) (r : GateRecord) → load_record d store subject ≡ ok r → r.subject ≡ subject
  unfolding load_record stored
  load_record-subject subject r l = elim (Option-cases (store (d.of_subject subject))) [
    | inl n ↦ ground arith
    | inr (s, q) ↦ ground (arith, eq_iff s.subject subject)
  ]

  load_record-write : (r : GateRecord) → load_record d (write_record d store r) r.subject ≡ ok r
  unfolding load_record stored write_record
  load_record-write r = rw (eq_refl, eq_refl, stored) refl

  pub load_written :
      (r : GateRecord) (subject : String)
      → r.subject ≡ subject
      → load_record d (write_record d store r) subject ≡ ok r
  load_written r subject e =
      subst (λ (x : String). load_record d (write_record d store r) x ≡ ok r) e
        (load_record-write r)

module _ (d : Digests) (store : Store) (work_item_id : String) where
  pub active_gate-some :
      (g : Gate)
      → active_gate d store work_item_id ≡ ok (some g)
      → (r : GateRecord) × (load_record d store (canonical_subject work_item_id) ≡ ok r)
        × (is_blank (canonical_subject work_item_id) ≡ false)
        × (first_unresolved r.gates ≡ some g)
  unfolding active_gate load_gates first_unresolved
  active_gate-some g h = elim (Bool-cases (is_blank (canonical_subject work_item_id))) [
    | inl b ↦ let bad : ⊥ = ground arith in elim bad [ ]
    | inr b ↦ elim (Result-cases (load_record d store (canonical_subject work_item_id))) [
      | inr (x, l) ↦ ground arith
      | inl (r, l) ↦ (r, l, b, ground arith)
    ]
  ]

  -- A work item is refused exactly when a gate of its subject is unresolved.
  pub require_open_iff :
      (gates : List Gate)
      → load_gates d store work_item_id ≡ ok gates
      → (require_open d store work_item_id ≡ ok tt) ↔ (unresolved_count gates ≡ 0)
  unfolding require_open active_gate
  require_open_iff gates l =
      (λ h. (none_unresolved gates).0 (ground arith), λ h. rw (l, (none_unresolved gates).1 h) refl)
