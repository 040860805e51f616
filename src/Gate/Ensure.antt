-- ===== src/Gate/Ensure.antt =====
-- Creating a gate once per escalation: `ensure_gate`, `_legacy_matches` and `create_gate` of
-- tools/clearwright_gate.py. The first read of `ensure_gate` is made without the writer lock, so
-- it may see an older store than the one that the locked part reads and writes.
pub mod Once
use clear_wright.Prelude.{
  ℕ, String, Bool, true, false, not, ◌&&◌, ◌||◌, List, [], ◌∷◌, ◌++◌, Option, none, some, str_eq,
  if◌then◌else◌, Result, ok, err, ◌>>=◌, is_blank, concat,
}
use clear_wright.Gate.{
  Gate, GateRecord, GateError, Event, Store, Digests, Moment, unresolved, has_event,
  first_unresolved, or_text, load_record, write_record, dedup_key, invocation_id_required,
  maintenance_in_progress, gate_already_unresolved,
}
use clear_wright.Gate.Subject.{canonical_subject}

-- The arguments of `ensure_gate`.
pub record Escalation : Type 0 where
  pub work_item_id : String
  pub council_id : String
  pub phase : String
  pub outcome : String
  pub rounds : ℕ
  pub scope_hash : String
  pub invocation_id : String

or_count : Option ℕ → ℕ → ℕ
or_count none n = n
or_count (some m) n = m

or_given : Option String → String → String
or_given none s = s
or_given (some t) s = t

-- The gate with the event of this invocation, and whether it had to be added.
with_event : Gate → Escalation → Moment → Gate × Bool
with_event g e now = if has_event e.council_id e.invocation_id g.events then (g, false) else (
  record g {
    events =
        g.events
        ++ (record { council_id = e.council_id; invocation_id = e.invocation_id; at = now.iso }
            ∷ []);
  },
  true,
)

-- The gates after a recognition, the gate that was recognized, and whether anything changed.
abbrev pub Recognized : Type 0
Recognized = List Gate × Gate × Bool

behind : Gate → Option Recognized → Option Recognized
behind g none = none
behind g (some (gs, m, changed)) = some (g ∷ gs, m, changed)

recognized : Gate × Bool → Bool → List Gate → Recognized
recognized (g, appended) backfilled gs = (g ∷ gs, g, appended || backfilled)

new_gate : String → String → Escalation → Moment → Gate
new_gate subject key e now = record {
  gate_id = concat "gate-" now.stamp;
  subject = subject;
  seen = e.work_item_id;
  council_id = e.council_id;
  phase = e.phase;
  outcome = e.outcome;
  dedup_key = key;
  created_at = now.iso;
  disposition = unresolved;
  authority = none;
  events = [];
  rounds = none;
  scope_hash = none;
}

module _ (d : Digests) where
  unfoldable pub escalation_key : Escalation → String
  escalation_key e =
      dedup_key d (canonical_subject e.work_item_id) e.council_id e.phase e.outcome e.rounds
        e.scope_hash

  unfoldable pub legacy_matches : Gate → String → Escalation → Bool
  unfolding or_count or_given or_text
  legacy_matches g subject e =
      not (is_blank g.council_id)
      && (not (is_blank g.outcome)
          && str_eq
              (dedup_key d (or_text g.subject subject) g.council_id g.phase g.outcome
                (or_count g.rounds e.rounds) (or_given g.scope_hash e.scope_hash))
              (dedup_key d subject e.council_id e.phase e.outcome e.rounds e.scope_hash))

  -- The loop that looks for the escalation's gate; a matching gate without a key receives it.
  unfoldable pub recognize : String → String → Escalation → Moment → List Gate → Option Recognized
  unfolding with_event behind recognized
  recognize key subject e now [] = none
  recognize key subject e now (g ∷ gs) =
      let rest = recognize key subject e now gs in
      if str_eq g.dedup_key key
      then some (recognized (with_event g e now) false gs)
      else if is_blank g.dedup_key && legacy_matches g subject e
      then some (recognized (with_event (record g { dedup_key = key }) e now) true gs)
      else behind g rest

  -- The lock-free read: the escalation's gate, if it knows this invocation already.
  unfoldable pub seen_already : String → Escalation → List Gate → Option Gate
  seen_already key e [] = none
  seen_already key e (g ∷ gs) =
      let rest = seen_already key e gs in
      if str_eq g.dedup_key key
      then (if has_event e.council_id e.invocation_id g.events then some g else none)
      else rest

  ensured : Store → String → String → Escalation → Moment → GateRecord → (Gate × Bool) × Store
  unfolding new_gate
  ensured store key subject e now r = elim (recognize key subject e now r.gates) [
    | some (gs, g, changed) ↦
        ((g, true), if changed then write_record d store (record r { gates = gs }) else store)
    | none ↦
        let g = new_gate subject key e now in
        ((g, false), write_record d store (record r { gates = r.gates ++ (g ∷ []) }))
  ]

  -- The part under the writer lock; `busy` is an archive operation that holds exclusivity.
  unfoldable pub ensure_locked :
      Store → Bool → Escalation → Moment → Result GateError (Gate × Bool) × Store
  unfolding ensured
  ensure_locked store busy e now =
      let subject = canonical_subject e.work_item_id in
      let key = escalation_key e in
      if busy then (err maintenance_in_progress, store) else elim (load_record d store subject) [
        | err x ↦ (err x, store)
        | ok r ↦ let (g, after) = ensured store key subject e now r in (ok g, after)
      ]

  -- `ensure_gate`: the gate, whether it was there before, and the store; `early` is the store that
  -- the lock-free read sees.
  unfoldable pub ensure_gate :
      Store → Store → Bool → Escalation → Moment → Result GateError (Gate × Bool) × Store
  ensure_gate early store busy e now =
      let locked = ensure_locked store busy e now in
      if is_blank e.invocation_id
      then (err invocation_id_required, store)
      else elim (load_record d early (canonical_subject e.work_item_id)) [
        | err x ↦ (err x, store)
        | ok r ↦ elim (seen_already (escalation_key e) e r.gates) [
          | some g ↦ (ok (g, true), store)
          | none ↦ locked
        ]
      ]
