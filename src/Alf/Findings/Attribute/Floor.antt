-- ===== src/Alf/Findings/Attribute/Floor.antt =====
-- A regression never lowers a finding below the baseline of its release.
use clear_wright.Prelude.{
  ℕ, String, ◌≤◌, ◌≡◌, inl, inr, refl, arith, Bool, true, some, eq_refl, ==_iff, ok, Option-cases,
  Bool-cases,
}
use clear_wright.Json.{Value, int, str, Fields, get, set, get-set}
use clear_wright.Alf.{number_at}
use clear_wright.Alf.Score.{assign_tier, compute_score}
use clear_wright.Alf.Findings.{
  FindingStore, Host, Produced, atomic_finding_update, committed, commit_revision, with_line,
  at_entry, stamped,
}
use clear_wright.Alf.Findings.Attribute.{
  counted, iv_from_finding, Occurrence, Baseline, baseline_of, effective_tier, effective_score,
  score_floor, reopened, ledger_has, attribution, record_regression, is_new_run,
}

all_set : Fields → Value → Value → Value → Value → Value → Value → Value → Fields
all_set f status tier score related decision id version =
    set
      (set
        (set
          (set (set (set (set f "status" status) "priority_tier" tier) "priority_score" score)
            "related_entries" related)
          "tier_decision" decision)
        "entry_id" id)
      "alf_record_version" version

module _ (h : Host) where
  -- A reopened finding: its status, its tier and its score.
  pub record IsReopened (b : Baseline) (f : Fields) : Type 0 where
    pub tier : ℕ
    pub score : ℕ
    pub status : get f "status" ≡ str "PRIORITIZED"
    pub has_tier : get f "priority_tier" ≡ int tier
    pub has_score : get f "priority_score" ≡ int score
    pub tier_floor : (base : ℕ) → b.tier ≡ some base → tier ≤ base
    pub score_floor : (floor : ℕ) → b.tier ≡ some tier → b.score ≡ some floor → floor ≤ score

  tier_at_most : (b : Baseline) (t base : ℕ) → b.tier ≡ some base → effective_tier b t ≤ base
  unfolding effective_tier
  tier_at_most b t base e = rw (e) (omega arith)

  score_at_least :
      (b : Baseline) (t s floor : ℕ)
      → b.tier ≡ some (effective_tier b t)
      → b.score ≡ some floor
      → floor ≤ effective_score b t s
  unfolding effective_score score_floor
  score_at_least b t s floor e f = elim (Option-cases b.tier) [
    | inl n ↦ let bad : ⊥ = cc in elim bad [ ]
    | inr (base, n) ↦
        let same : effective_tier b t ≡ base = cc in
        ground (arith, same, ==_iff (effective_tier b t) base)
  ]

  -- The keys that a reopening sets, behind the keys that it sets later.
  get_sets :
      (f : Fields) (status tier score related decision id version : Value)
      → (get (all_set f status tier score related decision id version) "status" ≡ status)
        × (get (all_set f status tier score related decision id version) "priority_tier" ≡ tier)
        × (get (all_set f status tier score related decision id version) "priority_score" ≡ score)
  unfolding all_set
  get_sets f status tier score related decision id version =
      (simp (get-set) refl, simp (get-set) refl, simp (get-set) refl)

  reopened-IsReopened :
      (id : String) (o : Occurrence) (new_run : Bool) (head : Fields)
      → IsReopened (baseline_of head) (stamped h id (reopened h id o new_run head))
  unfolding reopened stamped all_set
  reopened-IsReopened id o new_run head =
      let base = baseline_of head in
      let f = set (counted true new_run o head) "status" (str "PRIORITIZED") in
      let tier = assign_tier (iv_from_finding f) in
      let score = compute_score f (number_at f "occurrence_count") true in
      let (status, has_tier, has_score) =
        get_sets (counted true new_run o head) (str "PRIORITIZED") (int (effective_tier base tier))
          (int (effective_score base tier score)) _ _ _ _ in
      record {
        tier = effective_tier base tier;
        score = effective_score base tier score;
        status = status;
        has_tier = has_tier;
        has_score = has_score;
        tier_floor = tier_at_most base tier;
        score_floor = score_at_least base tier score;
      }

  -- A regression that is recorded leaves a finding on record that is PRIORITIZED, with a tier no
  -- weaker than that of the release's baseline, and with a score no less than the baseline's where
  -- the tier is the baseline's.
  pub record_regression-IsReopened :
      (s left : FindingStore) (id : String) (o : Occurrence) (p : Produced) (head : Fields)
      → s.heads id ≡ some head
      → record_regression h s id o ≡ (ok (some p), left)
      → (f : Fields) × (left.heads id ≡ some f) × IsReopened (baseline_of head) f
  unfolding record_regression attribution atomic_finding_update committed commit_revision with_line
      at_entry
  record_regression-IsReopened s left id o p head n e =
      elim (Bool-cases (ledger_has s (h.attribution_id o.occurrence_id id "regression"))) [
        | inl l ↦ let bad : ⊥ = ground arith in elim bad [ ]
        | inr l ↦ (
          stamped h id (reopened h id o (is_new_run s id o.run_id) head),
          ground (arith, eq_refl id),
          reopened-IsReopened id o (is_new_run s id o.run_id) head,
        )
      ]
