-- ===== src/Gate/Authority/Laws.antt =====
-- What it takes to open a gate, and what opening it changes.
use clear_wright.Prelude.{
  ℕ, String, suc, ◌<◌, ◌≡◌, refl, inl, inr, Bool, true, false, List, [], ◌∷◌, Option, none, some,
  elem, arith, subst, ◌≢◌, eq_iff, ltb→lt, ok, is_blank, take_text, Option-cases, Result-cases,
  Bool-cases,
}
use clear_wright.Gate.{
  Gate, GateRecord, Store, Digests, Moment, Disposition, unresolved, resolved, closed_unresolved,
  Grant, is_unresolved, first_unresolved, load_record, write_record, load_gates, active_gate,
}
use clear_wright.Gate.Laws.{unresolved_count, load_record-subject, load_written, active_gate-some}
use clear_wright.Gate.Subject.{canonical_subject}
use clear_wright.Gate.Authority.{
  Message, Texts, exempt_message_sources, proceed_phrases, find_message, later, disposed,
  dispose_first, iso_time, phrase_authorizes, names_target, validate_authority, record_disposition,
  resolve_active, grant_proceed,
}

-- A message that authorizes opening the gate: the operator's, inbound, not one of the engine's own
-- reflections, newer than the gate, naming its work item or council, with an allowed phrase.
pub record IsAuthority (t : Texts) (log : List Message) (g : Gate) (id : String)
    (phrases : List String) (m : Message) : Type 0 where
  pub logged : find_message id log ≡ some m
  pub operator : m.actor ≡ "OPERATOR-0001"
  pub inbound : m.direction ≡ "inbound"
  pub source : elem m.source exempt_message_sources ≡ false
  pub newer :
      (created : ℕ) × (gated : ℕ) × (iso_time t m.at ≡ some created)
      × (iso_time t g.created_at ≡ some gated)
      × (gated < created)
  pub target : names_target t m.message g ≡ true
  pub phrase : phrase_authorizes t m.message phrases ≡ true

later-some :
    (a b : Option ℕ) → later a b ≡ true → (x : ℕ) × (y : ℕ) × (a ≡ some x) × (b ≡ some y) × (y < x)
unfolding later
later-some none b h = cc
later-some (some x) none h = cc
later-some (some x) (some y) h = (x, y, refl, refl, ltb→lt y x h)

module _ (t : Texts) (log : List Message) (g : Gate) (id : String) (phrases : List String)
    (outcome_at : String) where
  validate_tests :
      (m n : Message)
      → find_message id log ≡ some n
      → validate_authority t log g id phrases outcome_at ≡ ok m
      → (n ≡ m)
        × (n.actor ≡ "OPERATOR-0001")
        × (n.direction ≡ "inbound")
        × (elem n.source exempt_message_sources ≡ false)
        × (later (iso_time t n.at) (iso_time t g.created_at) ≡ true)
        × (names_target t n.message g ≡ true)
        × (phrase_authorizes t n.message phrases ≡ true)
  unfolding validate_authority
  validate_tests m n f h =
      ground (arith, eq_iff n.actor "OPERATOR-0001", eq_iff n.direction "inbound")

  pub validate_authority-IsAuthority :
      (m : Message)
      → validate_authority t log g id phrases outcome_at ≡ ok m
      → IsAuthority t log g id phrases m
  unfolding validate_authority
  validate_authority-IsAuthority m h = elim (Option-cases (find_message id log)) [
    | inl n ↦ ground arith
    | inr (n, f) ↦
        let (same, actor, inbound, source, new, target, phrase) = validate_tests m n f h in
        let authority : IsAuthority t log g id phrases n = record {
          logged = f;
          operator = actor;
          inbound = inbound;
          source = source;
          newer = later-some _ _ new;
          target = target;
          phrase = phrase;
        } in
        subst (IsAuthority t log g id phrases) same authority
  ]

disposed_settled :
    (g : Gate) (disposition : Disposition) (grant : Grant)
    → disposition ≢ unresolved
    → is_unresolved (disposed g disposition grant) ≡ false
unfolding is_unresolved disposed
disposed_settled g unresolved grant n = elim (n refl) [ ]
disposed_settled g resolved grant n = refl
disposed_settled g closed_unresolved grant n = refl

dispose_first-some :
    (disposition : Disposition) (grant : Grant) (gs hs : List Gate) (m : Gate)
    → disposition ≢ unresolved
    → dispose_first disposition grant gs ≡ some (hs, m)
    → (g : Gate) × (first_unresolved gs ≡ some g)
      × (m ≡ disposed g disposition grant)
      × (unresolved_count gs ≡ suc (unresolved_count hs))
unfolding dispose_first first_unresolved is_unresolved
dispose_first-some disposition grant [] hs m c h = cc
dispose_first-some disposition grant (g ∷ gs) hs m c h = elim (Bool-cases (is_unresolved g)) [
  | inl u ↦ (g, ground arith, ground arith, ground (arith, disposed_settled g disposition grant c))
  | inr u ↦ elim (Option-cases (dispose_first disposition grant gs)) [
    | inl n ↦ ground arith
    | inr ((ks, k), q) ↦
        let (first, found, made, fewer) = dispose_first-some disposition grant gs ks k c q in
        (first, ground arith, ground arith, ground arith)
  ]
]

module _ (t : Texts) (d : Digests) (store : Store) (busy : Bool) (work_item_id : String) where
  -- One unresolved gate fewer stands against the work item than before.
  abbrev pub OneFewer : Store → Type 0
  OneFewer new =
      (before after : List Gate) × (load_gates d store work_item_id ≡ ok before)
      × (load_gates d new work_item_id ≡ ok after)
      × (unresolved_count before ≡ suc (unresolved_count after))

  after_write :
      (r : GateRecord) (gs : List Gate)
      → load_record d store (canonical_subject work_item_id) ≡ ok r
      → is_blank (canonical_subject work_item_id) ≡ false
      → load_gates d (write_record d store (record r { gates = gs })) work_item_id ≡ ok gs
  unfolding load_gates
  after_write r gs l b =
      let same = load_record-subject d store (canonical_subject work_item_id) r l in
      rw (b, load_written d store (record r { gates = gs }) (canonical_subject work_item_id) same)

  record_disposition_success :
      (disposition : Disposition) (m : Message) (now : Moment) (g h : Gate) (r : GateRecord)
      → disposition ≢ unresolved
      → load_record d store (canonical_subject work_item_id) ≡ ok r
      → is_blank (canonical_subject work_item_id) ≡ false
      → first_unresolved r.gates ≡ some g
      → (record_disposition t d store busy work_item_id disposition m now).0 ≡ ok h
      → (h.disposition ≡ disposition)
        × (h.gate_id ≡ g.gate_id)
        × OneFewer (record_disposition t d store busy work_item_id disposition m now).1
  unfolding record_disposition load_gates disposed
  record_disposition_success disposition m now g h r c l b f e =
      let subject = canonical_subject work_item_id in
      let grant : Grant = record {
        message_id = m.message_id;
        excerpt = take_text 280 m.message;
        recorded_at = now.iso;
      } in
      elim (Option-cases (dispose_first disposition grant r.gates)) [
        | inl n ↦ ground arith
        | inr ((gs, k), q) ↦
            let (first, found, made, fewer) =
              dispose_first-some disposition grant r.gates gs k c q in
            let written : (record_disposition t d store busy work_item_id disposition m now).1
                ≡ write_record d store (record r { gates = gs }) =
              ground arith in
            let same : h ≡ disposed g disposition grant = ground arith in
            (
              rw same refl,
              rw same refl,
              (r.gates, gs, rw (b, l) refl, rw (written) (after_write r gs l b), fewer),
            )
      ]

  resolve_success :
      (log : List Message) (id : String) (phrases : List String) (outcome_at : String)
      (disposition : Disposition) (now : Moment) (h : Gate)
      → disposition ≢ unresolved
      → (resolve_active t d store busy log work_item_id id phrases outcome_at disposition now
          (active_gate d store work_item_id)).0
        ≡ ok h
      → (g : Gate) × (m : Message) × (active_gate d store work_item_id ≡ ok (some g))
        × IsAuthority t log g id phrases m
        × (h.disposition ≡ disposition)
        × (h.gate_id ≡ g.gate_id)
        × OneFewer
            (resolve_active t d store busy log work_item_id id phrases outcome_at disposition now
              (active_gate d store work_item_id)).1
  unfolding resolve_active
  resolve_success log id phrases outcome_at disposition now h c e =
      elim (Result-cases (active_gate d store work_item_id)) [
        | inr (x, l) ↦ let bad : ⊥ = ground arith in elim bad [ ]
        | inl (none, l) ↦ let bad : ⊥ = ground arith in elim bad [ ]
        | inl (some g, l) ↦ elim (Result-cases (validate_authority t log g id phrases outcome_at)) [
          | inr (x, v) ↦ let bad : ⊥ = ground arith in elim bad [ ]
          | inl (m, v) ↦
              let (r, loaded, named, first) = active_gate-some d store work_item_id g l in
              let (disposition_set, same_id, fewer) =
                record_disposition_success disposition m now g h r c loaded named first
                  (rw (l, v, resolve_active) at e) in
              (
                g,
                m,
                l,
                validate_authority-IsAuthority t log g id phrases outcome_at m v,
                disposition_set,
                same_id,
                rw (l, v, resolve_active) fewer,
              )
        ]
      ]

  -- Leave to proceed is given only by a logged operator message with authority over the gate that
  -- blocks the work item: that gate is resolved, and of the work item's gates one fewer is
  -- unresolved.
  pub grant_proceed_success :
      (log : List Message) (id : String) (now : Moment) (h : Gate)
      → (grant_proceed t d store busy log work_item_id id now).0 ≡ ok h
      → (g : Gate) × (m : Message) × (active_gate d store work_item_id ≡ ok (some g))
        × IsAuthority t log g id proceed_phrases m
        × (h.disposition ≡ resolved)
        × (h.gate_id ≡ g.gate_id)
        × OneFewer (grant_proceed t d store busy log work_item_id id now).1
  unfolding grant_proceed
  grant_proceed_success log id now h e =
      resolve_success log id proceed_phrases "" resolved now h (λ q. cc) e
