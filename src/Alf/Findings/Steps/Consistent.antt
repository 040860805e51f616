-- ===== src/Alf/Findings/Steps/Consistent.antt =====
-- Every operation keeps the findings store consistent.
use clear_wright.Prelude.{
  ℕ, String, suc, ◌≡◌, inl, inr, refl, arith, [], Option, none, some, str_eq, eq_iff, Result, ok,
  err, Option-cases, Bool-cases, Result-cases,
}
use clear_wright.Json.{Fields, get, truthy}
use clear_wright.Alf.Paths.{safe_id}
use clear_wright.Alf.Findings.{
  Disposition, FindingStore, AlfError, no_line, attributed, disposed, Produced, at_entry,
  last_revision, committed, atomic_finding_update, create_finding, updated, update_finding,
  rebuild_head, finding_of,
}
use clear_wright.Alf.Findings.Attribute.{
  Occurrence, ledger_has, attribution, ledger_line, attribute_occurrence, record_regression,
  is_released, record_recurrence, with_baseline, set_release_baseline,
}
use clear_wright.Alf.Findings.Dispose.{
  Reading, Request, check_disposition, disposition, dispose, surfaced, surface_for_review,
}
use clear_wright.Alf.Findings.Dispose.Laws.{check_disposition_unused}
use clear_wright.Alf.{is_text}
use clear_wright.Alf.Findings.Steps.{host, Step, Reaches, IsConsistent}
use clear_wright.Alf.Findings.Steps.Revised.{Fits, commit-IsConsistent}

module _ (entry_id : ℕ → String) (attribution_id : String → String → String → String) where
  module _ (now : String) where
    -- A product is made of a head only, with a line that fits.
    IsSound : FindingStore → (Option Fields → Result AlfError (Option Produced)) → Type 0
    IsSound s produce =
        (o : Option Fields) (p : Produced)
        → produce o ≡ ok (some p)
        → ((head : Fields) × (o ≡ some head)) × Fits s p.line

    committed-IsConsistent :
        (s : FindingStore) (id actor : String) (o : Result AlfError (Option Produced))
        → ((p : Produced)
            → o ≡ ok (some p)
            → ((head : Fields) × (s.heads id ≡ some head)) × Fits s p.line)
        → IsConsistent entry_id attribution_id s
        → IsConsistent entry_id attribution_id
            (committed (host entry_id attribution_id now) s id actor o).1
    unfolding committed
    committed-IsConsistent s id actor (err e) f c = c
    committed-IsConsistent s id actor (ok none) f c = c
    committed-IsConsistent s id actor (ok (some p)) f c =
        let ((head, h), fits) = f p refl in
        commit-IsConsistent entry_id attribution_id now s id actor p head c h fits

    atomic-IsConsistent :
        (s : FindingStore) (id actor : String)
        (produce : Option Fields → Result AlfError (Option Produced))
        → IsSound s produce
        → IsConsistent entry_id attribution_id s
        → IsConsistent entry_id attribution_id
            (atomic_finding_update (host entry_id attribution_id now) s id actor produce).1
    unfolding atomic_finding_update IsSound
    atomic-IsConsistent s id actor produce f c =
        committed-IsConsistent s id actor (produce (s.heads id)) (f (s.heads id)) c

    attribution-IsSound :
        (s : FindingStore) (id type : String) (o : Occurrence) (change : Fields → Fields)
        → IsSound s (attribution (host entry_id attribution_id now) s id o type change)
    unfolding attribution IsSound Fits ledger_line
    attribution-IsSound s id type o change none p e = let bad : ⊥ = ground arith in elim bad [ ]
    attribution-IsSound s id type o change (some head) p e =
        elim (Bool-cases (ledger_has s (attribution_id o.occurrence_id id type))) [
          | inl l ↦ let bad : ⊥ = ground arith in elim bad [ ]
          | inr l ↦
              let line : p.line
                  ≡ attributed (ledger_line (host entry_id attribution_id now) id o type) =
                ground arith in
              ((head, refl), rw (line) l)
        ]

    disposition-IsSound :
        (s : FindingStore) (id : String) (r : Reading) (q : Request) (msg : Option Fields)
        → IsSound s (disposition (host entry_id attribution_id now) r s id q msg)
    unfolding disposition IsSound Fits
    disposition-IsSound s id r q msg none p e = let bad : ⊥ = ground arith in elim bad [ ]
    disposition-IsSound s id r q msg (some head) p e =
        elim (Result-cases
          (check_disposition (host entry_id attribution_id now) r s id q msg head)) [
            | inr (x, k) ↦ let bad : ⊥ = ground arith in elim bad [ ]
            | inl (u, k) ↦
                let d : Disposition = record {
                  entry_id = id;
                  target_status = q.target_status;
                  operator_message_id = q.operator_message_id;
                } in
                let line : p.line ≡ disposed d = ground arith in
                (
                  (head, refl),
                  rw (line) (
                      check_disposition_unused (host entry_id attribution_id now) r s id q msg head
                        k),
                )
          ]

    updated-IsSound :
        (s : FindingStore) (mutate : Fields → Fields)
        → IsSound s (updated (host entry_id attribution_id now) mutate)
    unfolding updated IsSound Fits
    updated-IsSound s mutate none p e = let bad : ⊥ = ground arith in elim bad [ ]
    updated-IsSound s mutate (some head) p e =
        let line : p.line ≡ no_line = ground arith in ((head, refl), rw (line) tt)

    surfaced-IsSound :
        (s : FindingStore) (r : Reading) → IsSound s (surfaced (host entry_id attribution_id now) r)
    unfolding surfaced IsSound Fits
    surfaced-IsSound s r none p e = let bad : ⊥ = ground arith in elim bad [ ]
    surfaced-IsSound s r (some head) p e =
        elim (Bool-cases (is_text (get head "status") "PRIORITIZED")) [
          | inl b ↦ let line : p.line ≡ no_line = ground arith in ((head, refl), rw (line) tt)
          | inr b ↦ let bad : ⊥ = ground arith in elim bad [ ]
        ]

    release-IsConsistent :
        (s : FindingStore) (id : String)
        → IsConsistent entry_id attribution_id s
        → IsConsistent entry_id attribution_id
            (set_release_baseline (host entry_id attribution_id now) s id)
    unfolding set_release_baseline atomic_finding_update committed Fits
    release-IsConsistent s id c = elim (Option-cases (s.heads id)) [
      | inl n ↦ rw (n, set_release_baseline) c
      | inr (head, n) ↦ elim (Bool-cases (truthy (get head "release_baseline"))) [
        | inl b ↦ rw (n, b, set_release_baseline) c
        | inr b ↦
            rw (n, b, set_release_baseline)
              (commit-IsConsistent entry_id attribution_id now s id "alf-synth"
                (record {
                  finding = with_baseline (host entry_id attribution_id now) head;
                  reason = "release_baseline";
                  line = no_line;
                })
                head c n tt)
      ]
    ]

    recurrence-IsConsistent :
        (s : FindingStore) (id : String) (o : Occurrence)
        → IsConsistent entry_id attribution_id s
        → IsConsistent entry_id attribution_id
            (record_recurrence (host entry_id attribution_id now) s id o).1
    unfolding record_recurrence record_regression attribute_occurrence
    recurrence-IsConsistent s id o c = elim (Option-cases (s.heads id)) [
      | inl n ↦ rw (n, record_recurrence) c
      | inr (head, n) ↦
          elim (Bool-cases (is_released (host entry_id attribution_id now) (get head "status"))) [
            | inl b ↦
                rw (n, b, record_recurrence)
                  (atomic-IsConsistent s id "alf-synth" _
                    (attribution-IsSound s id "regression" o _) c)
            | inr b ↦
                rw (n, b, record_recurrence)
                  (atomic-IsConsistent s id "alf-synth" _
                    (attribution-IsSound s id "recurrence" o _) c)
          ]
    ]

    create-IsConsistent :
        (s : FindingStore) (actor : String) (f : Fields)
        → ((m n : ℕ) → entry_id m ≡ entry_id n → m ≡ n)
        → IsConsistent entry_id attribution_id s
        → IsConsistent entry_id attribution_id
            (create_finding (host entry_id attribution_id now) s actor f).1
    unfolding create_finding at_entry rebuild_head finding_of last_revision
    create-IsConsistent s actor f injective c =
        let id = entry_id (suc s.last_seq) in
        let empty : s.history id ≡ [] = c.fresh (suc s.last_seq) (omega arith) in
        record {
          head_is_last = λ k. elim (Bool-cases (str_eq id k)) [
            | inl b ↦ rw (b, empty) refl
            | inr b ↦ rw (b) (c.head_is_last k)
          ];
          numbered = λ k. elim (Bool-cases (str_eq id k)) [
            | inl b ↦ rw (b, empty) (refl, tt)
            | inr b ↦ rw (b) (c.numbered k)
          ];
          fresh = λ n lt. elim (Bool-cases (str_eq id (entry_id n))) [
            | inl b ↦
                let same = injective (suc s.last_seq) n ((eq_iff id (entry_id n)).0 b) in
                let bad : ⊥ = omega (arith, same, lt) in elim bad [ ]
            | inr b ↦ rw (b) (c.fresh n (omega (arith, lt)))
          ];
          attributed_once = c.attributed_once;
          used_once = c.used_once;
        }

  module _ (injective : (m n : ℕ) → entry_id m ≡ entry_id n → m ≡ n) where
    Step-IsConsistent :
        {s t : FindingStore}
        → Step entry_id attribution_id s t
        → IsConsistent entry_id attribution_id s
        → IsConsistent entry_id attribution_id t
    unfolding update_finding attribute_occurrence record_regression dispose surface_for_review
    Step-IsConsistent (Step.creates now actor f s) c = create-IsConsistent now s actor f injective c
    Step-IsConsistent (Step.updates now id mutate s) c =
        atomic-IsConsistent now s id "alf-synth" _ (updated-IsSound now s mutate) c
    Step-IsConsistent (Step.attributes now id type o s) c =
        atomic-IsConsistent now s id "alf-synth" _ (attribution-IsSound now s id type o _) c
    Step-IsConsistent (Step.regresses now id o s) c =
        atomic-IsConsistent now s id "alf-synth" _ (attribution-IsSound now s id "regression" o _) c
    Step-IsConsistent (Step.recurs now id o s) c = recurrence-IsConsistent now s id o c
    Step-IsConsistent (Step.releases now id s) c = release-IsConsistent now s id c
    Step-IsConsistent (Step.disposes now id actor r q messages s) c =
        elim (Bool-cases (safe_id id)) [
          | inr e ↦ rw (e, dispose) c
          | inl e ↦ elim (Bool-cases (safe_id q.operator_message_id)) [
            | inr k ↦ rw (e, k, dispose) c
            | inl k ↦
                rw (e, k, dispose)
                  (atomic-IsConsistent now s id actor _
                    (disposition-IsSound now s id r q (messages q.operator_message_id)) c)
          ]
        ]
    Step-IsConsistent (Step.surfaces now id r s) c =
        atomic-IsConsistent now s id "alf-synth" _ (surfaced-IsSound now s r) c

  -- Where no two numbers have one entry id, no sequence of operations breaks this: every head is its
  -- last revision, revisions are numbered from 1 without gaps, ids that are not allocated have no
  -- log, no attribution stands twice in the ledger and no message disposed twice.
  pub Reaches-IsConsistent :
      {s t : FindingStore}
      → ((m n : ℕ) → entry_id m ≡ entry_id n → m ≡ n)
      → Reaches entry_id attribution_id s t
      → IsConsistent entry_id attribution_id s
      → IsConsistent entry_id attribution_id t
  Reaches-IsConsistent injective Reaches.here c = c
  Reaches-IsConsistent injective (Reaches.next r st) c =
      Step-IsConsistent injective st (Reaches-IsConsistent injective r c)
