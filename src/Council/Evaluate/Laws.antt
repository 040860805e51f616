-- ===== src/Council/Evaluate/Laws.antt =====
-- What agreement takes.
use clear_wright.Prelude.{
  ℕ, String, ◌≡◌, ◌≢◌, inl, inr, refl, Bool, true, false, List, [], ◌∷◌, ◌++◌, Option, none, some,
  arith, leb, is_empty, is_empty-nil, Option-cases, Bool-cases, strip, is_blank,
}
use clear_wright.Json.{Fields, get}
use clear_wright.Council.Verdict.{Python}
use clear_wright.Council.Rounds.{
  Reviewer, gpt, codex, Reconciliation, Round, CouncilState, agreement_threshold_met, ItemRef,
  Blocker, Outcome, substantive_rounds, substantive_round_count, last_of, counted_verdict,
}
use clear_wright.Council.Evaluate.{
  is_nonblocking, below_floor, required_item_refs, capability_refs, reported_blockers,
  verdict_blocker, confidence_blocker, is_hard_gated, uncovered, item_blocker, scope_blocker,
  all_blockers, conclude, unreconciled, reconciled, judged, judge_round, review_round, evaluate,
}

parts_nil :
    (a b c d e f g : List Blocker)
    → (a ++ (b ++ (c ++ (d ++ (e ++ (f ++ g)))))) ≡ []
    → (a ≡ []) × (b ≡ []) × (c ≡ []) × (d ≡ []) × (e ≡ []) × (f ≡ []) × (g ≡ [])
parts_nil [] [] [] [] [] [] g h = (refl, refl, refl, refl, refl, refl, h)
parts_nil [] [] [] [] [] (x ∷ f) g h = cc
parts_nil [] [] [] [] (x ∷ e) f g h = cc
parts_nil [] [] [] (x ∷ d) e f g h = cc
parts_nil [] [] (x ∷ c) d e f g h = cc
parts_nil [] (x ∷ b) c d e f g h = cc
parts_nil (x ∷ a) b c d e f g h = cc

verdict_blocker_nil :
    (who : Reviewer) (v : Fields)
    → verdict_blocker who v ≡ []
    → is_nonblocking (get v "verdict") ≡ true
unfolding verdict_blocker
verdict_blocker_nil who v h = ground arith

confidence_blocker_nil :
    (who : Reviewer) (low : Bool) → confidence_blocker who low ≡ [] → low ≡ false
unfolding confidence_blocker
confidence_blocker_nil who low h = ground arith

reported_blockers_nil : (bs : List String) → reported_blockers bs ≡ [] → bs ≡ []
unfolding reported_blockers
reported_blockers_nil [] h = refl
reported_blockers_nil (b ∷ bs) h = cc

module _ (py : Python) (format_ref : ItemRef → String) (council : CouncilState) where
  -- Nothing stands against agreement in a reconciled round.
  pub record IsClear (gv cv : Fields) (recon : Reconciliation) : Type 0 where
    pub gpt_approves : is_nonblocking (get gv "verdict") ≡ true
    pub codex_approves : is_nonblocking (get cv "verdict") ≡ true
    pub gpt_confident : below_floor (get gv "confidence") ≡ some false
    pub codex_confident : below_floor (get cv "confidence") ≡ some false
    pub none_reported : recon.unresolved_blockers ≡ []
    pub covered : uncovered py format_ref recon.resolutions (required_item_refs gv cv) ≡ []
    pub scope : is_blank (strip council.approved_scope) ≡ false

  -- The round that an agreement rests on.
  pub record IsAgreement (rounds : List Round) (r : Round) (gv cv : Fields) (recon : Reconciliation)
      : Type 0 where
    pub not_gated : is_hard_gated rounds ≡ false
    pub latest : last_of (substantive_rounds rounds) ≡ some r
    pub gpt_counts : counted_verdict py gpt r.gpt ≡ some gv
    pub codex_counts : counted_verdict py codex r.codex ≡ some cv
    pub reconciliation : r.reconciliation ≡ some recon
    pub enough : leb council.min_rounds (substantive_round_count rounds) ≡ true
    pub feasible : capability_refs recon.resolutions ≡ []
    pub ready : recon.ready_to_proceed ≡ true
    pub clear : IsClear gv cv recon

  item_blocker_nil : (is : List ItemRef) → item_blocker py format_ref is ≡ [] → is ≡ []
  unfolding item_blocker
  item_blocker_nil [] h = refl
  item_blocker_nil (i ∷ is) h = cc

  all_blockers_nil :
      (gv cv : Fields) (lg lc : Bool) (recon : Reconciliation)
      → below_floor (get gv "confidence") ≡ some lg
      → below_floor (get cv "confidence") ≡ some lc
      → all_blockers py format_ref council gv cv lg lc recon ≡ []
      → IsClear gv cv recon
  unfolding all_blockers verdict_blocker confidence_blocker reported_blockers item_blocker
      scope_blocker
  all_blockers_nil gv cv lg lc recon a b h =
      let (a1, a2, a3, a4, a5, a6, a7) =
        parts_nil (verdict_blocker gpt gv) (verdict_blocker codex cv) (confidence_blocker gpt lg)
          (confidence_blocker codex lc) (reported_blockers recon.unresolved_blockers)
          (item_blocker py format_ref
            (uncovered py format_ref recon.resolutions (required_item_refs gv cv)))
          (scope_blocker py format_ref council.approved_scope) h in
      record {
        gpt_approves = verdict_blocker_nil gpt gv a1;
        codex_approves = verdict_blocker_nil codex cv a2;
        gpt_confident = rw (← confidence_blocker_nil gpt lg a3) a;
        codex_confident = rw (← confidence_blocker_nil codex lc a4) b;
        none_reported = reported_blockers_nil recon.unresolved_blockers a5;
        covered = item_blocker_nil _ a6;
        scope = ground (arith, a7);
      }

  conclude_agreement :
      (completed : ℕ) (ready : Bool) (blockers : List Blocker)
      → (conclude py format_ref council completed ready blockers).outcome ≡ agreement_threshold_met
      → (leb council.min_rounds completed ≡ true) × (blockers ≡ []) × (ready ≡ true)
  unfolding conclude
  conclude_agreement completed ready blockers h = ground (arith, is_empty-nil blockers)

  unreconciled_disagrees :
      (completed : ℕ) (blockers : List Blocker)
      → (unreconciled py format_ref council completed blockers).outcome ≢ agreement_threshold_met
  unfolding unreconciled
  unreconciled_disagrees completed blockers h = ground arith

  judged_agreement :
      (completed : ℕ) (gv cv : Fields) (lg lc : Bool) (recon : Option Reconciliation)
      → below_floor (get gv "confidence") ≡ some lg
      → below_floor (get cv "confidence") ≡ some lc
      → (judged py format_ref council completed gv cv recon lg lc).outcome ≡ agreement_threshold_met
      → (k : Reconciliation) × (recon ≡ some k)
        × (leb council.min_rounds completed ≡ true)
        × (capability_refs k.resolutions ≡ [])
        × (k.ready_to_proceed ≡ true)
        × IsClear gv cv k
  unfolding judged reconciled
  judged_agreement completed gv cv lg lc none a b h =
      elim (unreconciled_disagrees completed _ h) [ ]
  judged_agreement completed gv cv lg lc (some k) a b h =
      elim (Bool-cases (is_empty (capability_refs k.resolutions))) [
        | inl e ↦
            let (enough, clear, ready) =
              conclude_agreement completed k.ready_to_proceed
                (all_blockers py format_ref council gv cv lg lc k) (rw (e) at h) in
            (k, refl, enough, is_empty-nil _ e, ready, all_blockers_nil gv cv lg lc k a b clear)
        | inr e ↦ let bad : ⊥ = ground arith in elim bad [ ]
      ]

  judge_round-some :
      (completed : ℕ) (gv cv : Fields) (recon : Option Reconciliation) (o : Outcome)
      → judge_round py format_ref council completed gv cv recon ≡ some o
      → (lg : Bool) × (lc : Bool) × (below_floor (get gv "confidence") ≡ some lg)
        × (below_floor (get cv "confidence") ≡ some lc)
        × (judged py format_ref council completed gv cv recon lg lc ≡ o)
  unfolding judge_round
  judge_round-some completed gv cv recon o h =
      elim (Option-cases (below_floor (get gv "confidence"))) [
        | inl n ↦ let bad : ⊥ = ground arith in elim bad [ ]
        | inr (lg, a) ↦ elim (Option-cases (below_floor (get cv "confidence"))) [
          | inl n ↦ let bad : ⊥ = ground arith in elim bad [ ]
          | inr (lc, b) ↦ (lg, lc, a, b, ground arith)
        ]
      ]

  review_round_agreement :
      (completed : ℕ) (latest : Option Round) (o : Outcome)
      → review_round py format_ref council completed latest ≡ some o
      → o.outcome ≡ agreement_threshold_met
      → (r : Round) × (gv : Fields) × (cv : Fields) × (latest ≡ some r)
        × (counted_verdict py gpt r.gpt ≡ some gv)
        × (counted_verdict py codex r.codex ≡ some cv)
        × (judge_round py format_ref council completed gv cv r.reconciliation ≡ some o)
  unfolding review_round
  review_round_agreement completed none o h a = let bad : ⊥ = ground arith in elim bad [ ]
  review_round_agreement completed (some r) o h a =
      elim (Option-cases (counted_verdict py gpt r.gpt)) [
        | inl n ↦ let bad : ⊥ = ground arith in elim bad [ ]
        | inr (gv, g) ↦ elim (Option-cases (counted_verdict py codex r.codex)) [
          | inl n ↦ let bad : ⊥ = ground arith in elim bad [ ]
          | inr (cv, c) ↦ (r, gv, cv, refl, g, c, ground arith)
        ]
      ]

  -- Agreement is declared only on a reconciled round whose two reviewers' verdicts count, approve
  -- and are confident, with every required item covered by a resolution, no capability block, no
  -- reported blocker, the operator's scope on record, enough rounds, and no hard gate.
  pub evaluate-IsAgreement :
      (rounds : List Round) (o : Outcome)
      → evaluate py format_ref council rounds ≡ some o
      → o.outcome ≡ agreement_threshold_met
      → (r : Round) × (gv : Fields) × (cv : Fields) × (recon : Reconciliation) × IsAgreement rounds
          r gv cv recon
  unfolding evaluate
  evaluate-IsAgreement rounds o h a = elim (Bool-cases (is_hard_gated rounds)) [
    | inl g ↦ let bad : ⊥ = ground arith in elim bad [ ]
    | inr g ↦
        let completed = substantive_round_count rounds in
        let (r, gv, cv, latest, gc, cc, judge) =
          review_round_agreement completed (last_of (substantive_rounds rounds)) o
            (rw (g, evaluate) at h) a in
        let (lg, lc, p, q, made) = judge_round-some completed gv cv r.reconciliation o judge in
        let (recon, found, enough, feasible, ready, clear) =
          judged_agreement completed gv cv lg lc r.reconciliation p q (rw made a) in
        let agreement : IsAgreement rounds r gv cv recon = record {
          not_gated = g;
          latest = latest;
          gpt_counts = gc;
          codex_counts = cc;
          reconciliation = found;
          enough = enough;
          feasible = feasible;
          ready = ready;
          clear = clear;
        } in
        (r, gv, cv, recon, agreement)
  ]
