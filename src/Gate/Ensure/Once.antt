-- ===== src/Gate/Ensure/Once.antt =====
-- One gate per escalation, whatever the lock-free read saw.
use clear_wright.Prelude.{
  ℕ, String, ◌+◌, ◌≤◌, suc, ◌≡◌, refl, ◌⊎◌, inl, inr, Bool, true, false, List, [], ◌∷◌, ◌++◌, none,
  some, str_eq, if◌then◌else◌, ok, is_blank, arith, subst, eq_iff, All, Option-cases, Result-cases,
  Bool-cases,
}
use clear_wright.Gate.{
  Gate, GateRecord, Store, Digests, Moment, has_event, load_record, write_record, put, stored,
  KeyPayload, dedup_key,
}
use clear_wright.Gate.Subject.{canonical_subject}
use clear_wright.Gate.Ensure.{
  Escalation, with_event, new_gate, escalation_key, recognize, seen_already, ensured, ensure_locked,
  ensure_gate,
}

-- How many of the gates have the key.
abbrev pub keyed_count : String → List Gate → ℕ
keyed_count key [] = 0
keyed_count key (g ∷ gs) =
    let rest = keyed_count key gs in if str_eq g.dedup_key key then suc rest else rest

abbrev pub IsKeyed : Gate → Type 0
IsKeyed g = is_blank g.dedup_key ≡ false

-- Every gate has a key, and no two have the same.
pub record IsSingle (gs : List Gate) : Type 0 where
  pub keyed : All IsKeyed gs
  pub once : (key : String) → keyed_count key gs ≤ 1

abbrev pub AllSingle : Store → Type 0
AllSingle store = (name : String) (r : GateRecord) → store name ≡ some r → IsSingle r.gates

keyed_count-append :
    (key : String) (gs : List Gate) (g : Gate)
    → keyed_count key (gs ++ (g ∷ []))
      ≡ keyed_count key gs + (if str_eq g.dedup_key key then 1 else 0)
keyed_count-append key [] g = ground arith
keyed_count-append key (x ∷ gs) g = ground (arith, keyed_count-append key gs g)

fresh_count :
    (key k : String) (gs : List Gate)
    → keyed_count key gs ≡ 0
    → keyed_count k gs ≤ 1
    → keyed_count k gs + (if str_eq key k then 1 else 0) ≤ 1
fresh_count key k gs h b = ground (arith, eq_iff key k)

IsKeyed-append :
    (gs : List Gate) (g : Gate)
    → All IsKeyed gs
    → is_blank g.dedup_key ≡ false
    → All IsKeyed (gs ++ (g ∷ []))
IsKeyed-append [] g a b = (b, tt)
IsKeyed-append (x ∷ gs) g a b = (a.0, IsKeyed-append gs g a.1 b)

with_event-key :
    (g : Gate) (e : Escalation) (now : Moment) → (with_event g e now).0.dedup_key ≡ g.dedup_key
unfolding with_event
with_event-key g e now = elim (Bool-cases (has_event e.council_id e.invocation_id g.events)) [
  | inl h ↦ rw (h, with_event)
  | inr h ↦ rw (h, with_event)
]

module _ (d : Digests) (key subject : String) (e : Escalation) (now : Moment) where
  recognize-none :
      (gs : List Gate) → recognize d key subject e now gs ≡ none → keyed_count key gs ≡ 0
  unfolding recognize
  recognize-none [] h = refl
  recognize-none (g ∷ gs) h = ground (arith, recognize-none gs)

  recognize_cons :
      (g : Gate) (gs hs : List Gate) (m : Gate) (changed : Bool)
      → is_blank g.dedup_key ≡ false
      → recognize d key subject e now (g ∷ gs) ≡ some (hs, m, changed)
      → (hs ≡ ((with_event g e now).0 ∷ gs))
        ⊎ ((ks : List Gate) × (recognize d key subject e now gs ≡ some (ks, m, changed))
            × (hs ≡ (g ∷ ks)))
  unfolding recognize
  recognize_cons g gs hs m changed b h = elim (Bool-cases (str_eq g.dedup_key key)) [
    | inl t ↦ inl (ground arith)
    | inr t ↦ elim (Option-cases (recognize d key subject e now gs)) [
      | inl n ↦ ground arith
      | inr ((ks, n, c), r) ↦ inr (ks, ground arith, ground arith)
    ]
  ]

  recognize-some :
      (gs hs : List Gate) (m : Gate) (changed : Bool)
      → All IsKeyed gs
      → recognize d key subject e now gs ≡ some (hs, m, changed)
      → All IsKeyed hs × ((k : String) → keyed_count k hs ≡ keyed_count k gs)
  unfolding recognize
  recognize-some [] hs m changed a h = cc
  recognize-some (g ∷ gs) hs m changed a h = elim (recognize_cons g gs hs m changed a.0 h) [
    | inl q ↦ rw q ((rw (with_event-key g e now) a.0, a.1), λ k. rw (with_event-key g e now) refl)
    | inr (ks, r, q) ↦
        let (kept, same) = recognize-some gs ks m changed a.1 r in
        rw q ((a.0, kept), λ k. rw (same k) refl)
  ]

put_single :
    (store : Store) (name : String) (r : GateRecord)
    → AllSingle store
    → IsSingle r.gates
    → AllSingle (put store name r)
put_single store name r a b other s h = elim (Bool-cases (str_eq name other)) [
  | inl q ↦ let same : r ≡ s = ground arith in subst (λ (x : GateRecord). IsSingle x.gates) same b
  | inr q ↦ a other s (ground arith)
]

module _ (d : Digests) (digested : (p : KeyPayload) → is_blank (d.of_payload p) ≡ false) where
  ensured-AllSingle :
      (store : Store) (subject : String) (e : Escalation) (now : Moment) (r : GateRecord)
      → AllSingle store
      → IsSingle r.gates
      → AllSingle (ensured d store (escalation_key d e) subject e now r).1
  unfolding ensured write_record escalation_key dedup_key new_gate
  ensured-AllSingle store subject e now r a b =
      let key = escalation_key d e in
      elim (Option-cases (recognize d key subject e now r.gates)) [
        | inl q ↦
            rw (q, ensured)
              (put_single store _ _ a (record {
                keyed = IsKeyed-append r.gates (new_gate subject key e now) b.keyed (digested _);
                once = λ k. rw (keyed_count-append k r.gates (new_gate subject key e now)) (
                    fresh_count key k r.gates (recognize-none d key subject e now r.gates q)
                      (b.once k));
              }))
        | inr ((gs, g, changed), q) ↦
            let (keyed, same) = recognize-some d key subject e now r.gates gs g changed b.keyed q in
            let single : IsSingle gs = record {
              keyed = keyed;
              once = λ k. rw (same k) (b.once k);
            } in
            elim (Bool-cases changed) [
              | inl t ↦ rw (q, t, ensured) (put_single store _ (record r { gates = gs }) a single)
              | inr t ↦ rw (q, t, ensured) a
            ]
      ]

  load_record-IsSingle :
      (store : Store) (subject : String) (r : GateRecord)
      → AllSingle store
      → load_record d store subject ≡ ok r
      → IsSingle r.gates
  unfolding load_record stored
  load_record-IsSingle store subject r a l = elim (Option-cases (store (d.of_subject subject))) [
    | inl q ↦
        let fresh : record { subject = subject; gates = [] } ≡ r = ground arith in
        subst (λ (x : GateRecord). IsSingle x.gates) fresh
          (record { keyed = tt; once = λ k. omega arith })
    | inr (s, q) ↦ a (d.of_subject subject) r (ground arith)
  ]

  ensure_locked-AllSingle :
      (store : Store) (busy : Bool) (e : Escalation) (now : Moment)
      → AllSingle store
      → AllSingle (ensure_locked d store busy e now).1
  unfolding ensure_locked
  ensure_locked-AllSingle store true e now a = a
  ensure_locked-AllSingle store false e now a =
      let subject = canonical_subject e.work_item_id in
      elim (Result-cases (load_record d store subject)) [
        | inr (x, l) ↦ rw (l, ensure_locked) a
        | inl (r, l) ↦
            rw (l, ensure_locked)
              (ensured-AllSingle store subject e now r a (load_record-IsSingle store subject r a l))
      ]

  -- However stale the store that the lock-free read saw, and whatever the call returns, no subject
  -- comes to have two gates for one escalation, where every gate had a key and no two the same, and
  -- the digest of a key is never blank.
  pub ensure_gate-AllSingle :
      (early store : Store) (busy : Bool) (e : Escalation) (now : Moment)
      → AllSingle store
      → AllSingle (ensure_gate d early store busy e now).1
  unfolding ensure_gate
  ensure_gate-AllSingle early store busy e now a =
      let locked = ensure_locked-AllSingle store busy e now a in
      elim (Bool-cases (is_blank e.invocation_id)) [
        | inl b ↦ rw (b, ensure_gate) a
        | inr b ↦ elim (Result-cases (load_record d early (canonical_subject e.work_item_id))) [
          | inr (x, l) ↦ rw (b, l, ensure_gate) a
          | inl (r, l) ↦ elim (Option-cases (seen_already d (escalation_key d e) e r.gates)) [
            | inl n ↦ rw (b, l, n, ensure_gate) locked
            | inr (g, n) ↦ rw (b, l, n, ensure_gate) a
          ]
        ]
      ]
