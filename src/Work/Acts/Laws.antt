-- ===== src/Work/Acts/Laws.antt =====
-- What an act on a work item leaves behind.
use clear_wright.Prelude.{
  ℕ, String, ◌≡◌, ◌⊎◌, inl, inr, refl, arith, Bool, true, false, List, [], ◌∷◌, ◌++◌, none, some,
  str_eq, eq_iff, strip, subst, Result, ok, err, Result-cases, Option-cases,
}
use clear_wright.Json.{Value, Fields}
use clear_wright.Messages.{build_message}
use clear_wright.Messages.Valid.{IsMessage, build_message-IsMessage}
use clear_wright.Messages.Log.{
  is_taken, LogFile, LogFaults, WriteError, all_messages, write_message,
}
use clear_wright.Messages.Log.Append.{IsAppended, write_message-IsAppended}
use clear_wright.Work.{Python}
use clear_wright.Work.Ids.{Target, parse_work_item_id}
use clear_wright.Work.Acts.{
  ActError, Surroundings, operator_actor, ActArgs, gate_refusal, gate_block, is_item,
  resolve_target, message_args, parsed_target, built, prepare_act, recorded, act_on_item,
}

-- The item has no open gate behind a healing that succeeded, or the operator acts.
pub record IsAllowed (s : Surroundings) (a : ActArgs) : Type 0 where
  pub healed : s.heal a.work_item_id ≡ none
  pub open_or_operator : (s.active_gate a.work_item_id ≡ none) ⊎ (strip a.actor ≡ operator_actor)

gate_block-IsAllowed :
    (s : Surroundings) (a : ActArgs) → gate_block s a.work_item_id a.actor ≡ ok tt → IsAllowed s a
unfolding gate_block gate_refusal
gate_block-IsAllowed s a h = elim (Option-cases (s.heal a.work_item_id)) [
  | inr (e, n) ↦ let bad : ⊥ = ground arith in elim bad [ ]
  | inl n ↦ elim (Option-cases (s.active_gate a.work_item_id)) [
    | inl g ↦ record { healed = n; open_or_operator = inl g }
    | inr (g, e) ↦ record {
      healed = n;
      open_or_operator = inr (ground (arith, eq_iff (strip a.actor) operator_actor));
    }
  ]
]

module _ (py : Python) (at_least_two : Value → Bool) (now : ℕ) (decimal : ℕ → String)
    (stamp at : String) where
  -- What the checks before an act establish.
  pub record IsPrepared (s : Surroundings) (log : List LogFile) (a : ActArgs) (m : Fields)
      : Type 0 where
    pub target : Target
    pub parsed : parse_work_item_id a.work_item_id ≡ some target
    pub found :
        is_item py at_least_two now decimal stamp at
          (s.records_of (all_messages log))
          a.work_item_id
        ≡ true
    pub allowed : IsAllowed s a
    pub message : IsMessage m

  prepare_act-IsPrepared :
      (s : Surroundings) (log : List LogFile) (in_maintenance : Bool) (a : ActArgs) (m : Fields)
      → prepare_act py at_least_two now decimal stamp at s log in_maintenance a ≡ ok m
      → IsPrepared s log a m
  unfolding prepare_act parsed_target built
  prepare_act-IsPrepared s log in_maintenance a m h =
      elim (Option-cases (parse_work_item_id a.work_item_id)) [
        | inl n ↦ let bad : ⊥ = ground arith in elim bad [ ]
        | inr (t, n) ↦ record {
          target = t;
          parsed = n;
          found = ground arith;
          allowed = gate_block-IsAllowed s a (ground arith);
          message =
              elim (Result-cases (
                build_message stamp at (
                  message_args py at_least_two now decimal stamp at a t
                    (resolve_target py (all_messages log) t.kind t.ref)))) [
                      | inr (x, e) ↦ let bad : ⊥ = ground arith in elim bad [ ]
                      | inl (x, e) ↦
                          let same : x ≡ m = ground arith in
                          subst IsMessage same (build_message-IsMessage stamp at _ x e)
                    ];
        }
      ]

  recorded_ok :
      (log left : List LogFile) (x m : Fields) (w : Result WriteError String × List LogFile)
      → IsAppended decimal log x w
      → recorded py at_least_two now decimal stamp at x w ≡ (ok m, left)
      → (x ≡ m)
        × ((name : String) × (is_taken name log ≡ false)
            × (left ≡ (log ++ (record { name = name; message = some m } ∷ []))))
  unfolding recorded
  recorded_ok log left x m w (IsAppended.unchanged e) h = let bad : ⊥ = ground arith in elim bad [ ]
  recorded_ok log left x m w (IsAppended.partial e name f) h =
      let bad : ⊥ = ground arith in elim bad [ ]
  recorded_ok log left x m w (IsAppended.unsynced e name f j) h =
      let bad : ⊥ = ground arith in elim bad [ ]
  recorded_ok log left x m w (IsAppended.written name f) h =
      let same : x ≡ m = ground arith in (same, (name, f, ground arith))

  -- An act that succeeds was made on an item of the derived list, which no open gate blocks for this
  -- actor behind the healing, and added to the log, under a name that no file had, one well-formed
  -- message, and nothing else.
  pub act_on_item_success :
      (s : Surroundings) (log left : List LogFile) (faults : LogFaults) (a : ActArgs) (m : Fields)
      → act_on_item py at_least_two now decimal stamp at s log faults a ≡ (ok m, left)
      → IsPrepared s log a m
        × ((name : String) × (is_taken name log ≡ false)
            × (left ≡ (log ++ (record { name = name; message = some m } ∷ []))))
  unfolding act_on_item
  act_on_item_success s log left faults a m h =
      elim (Result-cases
        (prepare_act py at_least_two now decimal stamp at s log faults.in_maintenance a)) [
          | inr (e, p) ↦ let bad : ⊥ = ground arith in elim bad [ ]
          | inl (x, p) ↦
              let (same, added) =
                recorded_ok log left x m (write_message decimal log faults x)
                  (write_message-IsAppended decimal log faults x) (rw (p, act_on_item) at h) in
              let prepared = prepare_act-IsPrepared s log faults.in_maintenance a x p in
              (subst (IsPrepared s log a) same prepared, added)
        ]

  -- An act of an agent on an item whose gate is open, once missing gates are healed, is refused and
  -- leaves the log as it is.
  pub act_on_item_gated :
      (s : Surroundings) (log : List LogFile) (faults : LogFaults) (a : ActArgs) (gate : Fields)
      → s.heal a.work_item_id ≡ none
      → s.active_gate a.work_item_id ≡ some gate
      → str_eq (strip a.actor) operator_actor ≡ false
      → (e : ActError) × (act_on_item py at_least_two now decimal stamp at s log faults a
          ≡ (err e, log))
  unfolding act_on_item
  act_on_item_gated s log faults a gate k g o =
      elim (Result-cases
        (prepare_act py at_least_two now decimal stamp at s log faults.in_maintenance a)) [
          | inr (e, p) ↦ (e, rw (p, act_on_item) refl)
          | inl (x, p) ↦
              let allowed = (prepare_act-IsPrepared s log faults.in_maintenance a x p).allowed in
              let bad : ⊥ = elim allowed.open_or_operator [
                | inl n ↦ cc
                | inr n ↦ ground (arith, eq_iff (strip a.actor) operator_actor)
              ] in
              elim bad [ ]
        ]
