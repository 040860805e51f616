-- ===== src/Alf/Findings/Dispose/Laws.antt =====
-- What a disposition needs, and that a message is used once.
use clear_wright.Prelude.{
  String, ◌≡◌, inl, inr, refl, arith, true, false, [], ◌∷◌, ◌++◌, Option, none, some, str_eq,
  eq_refl, any-append_last, is_empty-nil, ok, Result-cases, Option-cases, Bool-cases,
}
use clear_wright.Json.{Fields, get}
use clear_wright.Alf.Paths.{safe_id}
use clear_wright.Alf.Findings.{
  Revision, Disposition, FindingStore, Host, Produced, last_revision, atomic_finding_update,
  committed, commit_revision, with_line,
}
use clear_wright.Alf.Findings.Dispose.{
  Reading, Request, operator_transitions, is_allowed, message_consumed, postdates,
  is_operator_message, text_of, check_disposition, found_message, latest, gate_problems,
  is_incomplete_deferral, disposition, dispose,
}

module _ (h : Host) (r : Reading) where
  -- What a disposition of an entry by a message rests on.
  pub record IsWarranted (s : FindingStore) (id : String) (q : Request) (msg : Option Fields)
      : Type 0 where
    pub head : Fields
    pub message : Fields
    pub revision : Revision
    pub on_record : s.heads id ≡ some head
    pub given : msg ≡ some message
    pub last : last_revision (s.history id) ≡ some revision
    pub legal : is_allowed (operator_transitions (get head "status")) q.target_status ≡ true
    pub operator : is_operator_message message ≡ true
    pub later : postdates message revision ≡ true
    pub named : r.names_token id (text_of (get message "message")) ≡ true
    pub unused : message_consumed s q.operator_message_id ≡ false
    pub complete : is_incomplete_deferral h r q ≡ false
    pub promoted : gate_problems h r q head ≡ []

  checked :
      (s : FindingStore) (id : String) (q : Request) (msg : Option Fields) (head : Fields)
      → s.heads id ≡ some head
      → check_disposition h r s id q msg head ≡ ok tt
      → IsWarranted s id q msg
  unfolding check_disposition found_message latest
  checked s id q none head o c = let bad : ⊥ = ground arith in elim bad [ ]
  checked s id q (some m) head o c = elim (Option-cases (last_revision (s.history id))) [
    | inl n ↦ let bad : ⊥ = ground arith in elim bad [ ]
    | inr (v, n) ↦ record {
      head = head;
      message = m;
      revision = v;
      on_record = o;
      given = refl;
      last = n;
      legal = ground arith;
      operator = ground arith;
      later = ground arith;
      named = ground arith;
      unused = ground arith;
      complete = ground arith;
      promoted = is_empty-nil (gate_problems h r q head) (ground arith);
    }
  ]

  pub check_disposition_unused :
      (s : FindingStore) (id : String) (q : Request) (msg : Option Fields) (head : Fields)
      → check_disposition h r s id q msg head ≡ ok tt
      → message_consumed s q.operator_message_id ≡ false
  unfolding check_disposition found_message latest
  check_disposition_unused s id q none head c = let bad : ⊥ = ground arith in elim bad [ ]
  check_disposition_unused s id q (some m) head c =
      elim (Option-cases (last_revision (s.history id))) [
        | inl n ↦ let bad : ⊥ = ground arith in elim bad [ ]
        | inr (v, n) ↦ ground arith
      ]

  produced :
      (s left : FindingStore) (id actor : String) (q : Request) (msg : Option Fields) (p : Produced)
      → atomic_finding_update h s id actor (disposition h r s id q msg) ≡ (ok (some p), left)
      → IsWarranted s id q msg × (message_consumed left q.operator_message_id ≡ true)
  unfolding disposition atomic_finding_update committed commit_revision with_line message_consumed
  produced s left id actor q msg p e = elim (Option-cases (s.heads id)) [
    | inl n ↦ let bad : ⊥ = ground arith in elim bad [ ]
    | inr (head, n) ↦ elim (Result-cases (check_disposition h r s id q msg head)) [
      | inr (x, c) ↦ let bad : ⊥ = ground arith in elim bad [ ]
      | inl (u, c) ↦
          let d : Disposition = record {
            entry_id = id;
            target_status = q.target_status;
            operator_message_id = q.operator_message_id;
          } in
          let added : left.dispositions ≡ (s.dispositions ++ (d ∷ [])) = ground arith in
          (
            checked s id q msg head n c,
            rw (added) (
                any-append_last (λ x. str_eq x.operator_message_id q.operator_message_id)
                  s.dispositions d (eq_refl q.operator_message_id)),
          )
    ]
  ]

  -- A disposition that succeeds has safe names and was a legal transition of a finding on record,
  -- asked for by the inbound operator message of that id, which is later than the latest revision,
  -- names the entry and was used for no disposition before, with the reason and the date of a deferral
  -- and without a problem of the promotion gate for an approval; behind it the message counts as used.
  pub dispose_success :
      (s left : FindingStore) (id actor : String) (q : Request) (messages : String → Option Fields)
      (p : Produced)
      → dispose h r s id actor q messages ≡ (ok (some p), left)
      → (safe_id id ≡ true)
        × (safe_id q.operator_message_id ≡ true)
        × IsWarranted s id q (messages q.operator_message_id)
        × (message_consumed left q.operator_message_id ≡ true)
  unfolding dispose
  dispose_success s left id actor q messages p e = elim (Bool-cases (safe_id id)) [
    | inr a ↦ let bad : ⊥ = ground arith in elim bad [ ]
    | inl a ↦ elim (Bool-cases (safe_id q.operator_message_id)) [
      | inr b ↦ let bad : ⊥ = ground arith in elim bad [ ]
      | inl b ↦
          let (warranted, used) =
            produced s left id actor q (messages q.operator_message_id) p
              (rw (a, b, dispose) at e) in
          (a, b, warranted, used)
    ]
  ]
