-- ===== src/Council/Evaluate.antt =====
-- The deterministic agreement rule: `required_item_refs` and `evaluate` of
-- tools/clearwright_review_council.py.
pub mod Laws
use clear_wright.Prelude.{
  ℕ, String, zero, suc, ◌*◌, ◌^◌, Bool, true, false, not, ◌&&◌, ◌||◌, List, [], ◌∷◌, ◌++◌, Option,
  none, some, str_eq, elem, any, all, ltb, leb, ◌==◌, if◌then◌else◌, Result, ok, err, is_blank,
  is_empty, strip,
}
use clear_wright.Json.{
  Value, null, bool, int, neg_int, real, neg_real, str, arr, obj, Items, Fields, get, count_items,
}
use clear_wright.Council.Verdict.{Python, Verdict, VerdictError, validate_verdict}
use clear_wright.Council.Rounds.{
  Reviewer, gpt, codex, reviewer_name, expected_source, ReviewResult, Resolution, Reconciliation,
  Round, CouncilState, OutcomeKind, agreement_threshold_met, needs_revision, operator_required,
  hard_gate, reviewer_unavailable, ItemRef, Blocker, verdict_blocks, low_confidence,
  no_reconciliation, scope_not_recorded, capability, reported, unresolved_items, Outcome,
  substantive_rounds, substantive_round_count, last_of, or_else, reviewer_status, counted_verdict,
}

-- `gv["verdict"] in NON_BLOCKING_VERDICTS`
unfoldable pub is_nonblocking : Value → Bool
is_nonblocking (str s) = elem s ("approve" ∷ "approve_with_changes" ∷ [])
is_nonblocking _ = false

-- `gv["confidence"] < 0.70`; no answer is a `TypeError`.
unfoldable pub below_floor : Value → Option Bool
below_floor (bool b) = some (not b)
below_floor (int n) = some (n == 0)
below_floor (neg_int n) = some true
below_floor (real n e) = some (ltb (100 * n) (70 * 10 ^ e))
below_floor (neg_real n e) = some true
below_floor _ = none

-- `len(v.get(field) or [])`, of a list or of nothing
count_of : Value → ℕ
count_of (arr xs) = count_items xs
count_of _ = 0

refs_below : Reviewer → String → ℕ → List ItemRef
refs_below who list zero = []
refs_below who list (suc n) =
    refs_below who list n ++ (record { reviewer = who; list = list; index = n } ∷ [])

item_refs : Reviewer → Fields → List ItemRef
unfolding count_of refs_below
item_refs who v =
    refs_below who "required_changes" (count_of (get v "required_changes"))
    ++ refs_below who "blocking_findings" (count_of (get v "blocking_findings"))

unfoldable pub required_item_refs : Fields → Fields → List ItemRef
unfolding item_refs
required_item_refs gv cv = item_refs gpt gv ++ item_refs codex cv

abbrev pub capability_blocked : Resolution → Bool
capability_blocked r = str_eq r.disposition "blocked_by_capability"

unfoldable pub capability_refs : List Resolution → List Blocker
capability_refs [] = []
capability_refs (r ∷ rs) =
    let rest = capability_refs rs in if capability_blocked r then capability r.ref ∷ rest else rest

reported_blockers : List String → List Blocker
reported_blockers [] = []
reported_blockers (b ∷ bs) = reported b ∷ reported_blockers bs

verdict_blocker : Reviewer → Fields → List Blocker
verdict_blocker who v = if is_nonblocking (get v "verdict") then [] else verdict_blocks who ∷ []

confidence_blocker : Reviewer → Bool → List Blocker
confidence_blocker who low = if low then low_confidence who ∷ [] else []

unfoldable pub is_hard_gated : List Round → Bool
is_hard_gated rounds = elim (last_of rounds) [
  | none ↦ false
  | some r ↦ elim r.gpt [ none ↦ r.hard_gate | some g ↦ g.hard_gate || r.hard_gate ]
]

-- `format_ref` is the text of an item's reference, `"{}.{}[{}]".format(who, field, i)`.
module _ (py : Python) (format_ref : ItemRef → String) where
  -- The items that no resolution names.
  unfoldable pub uncovered : List Resolution → List ItemRef → List ItemRef
  uncovered resolutions [] = []
  uncovered resolutions (i ∷ is) =
      let rest = uncovered resolutions is in
      if any (λ (r : Resolution). str_eq r.ref (format_ref i)) resolutions then rest else i ∷ rest

  item_blocker : List ItemRef → List Blocker
  item_blocker [] = []
  item_blocker (i ∷ is) = unresolved_items (i ∷ is) ∷ []

  scope_blocker : String → List Blocker
  scope_blocker scope = if is_blank (strip scope) then scope_not_recorded ∷ [] else []

  -- Everything that stands against agreement in a round with a reconciliation.
  unfoldable pub all_blockers :
      CouncilState → Fields → Fields → Bool → Bool → Reconciliation → List Blocker
  unfolding verdict_blocker confidence_blocker reported_blockers item_blocker scope_blocker
  all_blockers council gv cv low_gpt low_codex recon =
      verdict_blocker gpt gv
      ++ (verdict_blocker codex cv
          ++ (confidence_blocker gpt low_gpt
              ++ (confidence_blocker codex low_codex
                  ++ (reported_blockers recon.unresolved_blockers
                      ++ (item_blocker (uncovered recon.resolutions (required_item_refs gv cv))
                          ++ scope_blocker council.approved_scope)))))

  conclude : CouncilState → ℕ → Bool → List Blocker → Outcome
  conclude council completed ready blockers =
      if leb council.min_rounds completed && (is_empty blockers && ready)
      then record {
        outcome = agreement_threshold_met;
        current_round = completed;
        unresolved_blockers = blockers;
      }
      else if leb council.max_rounds completed
      then record {
        outcome = operator_required;
        current_round = completed;
        unresolved_blockers = blockers;
      }
      else record {
        outcome = needs_revision;
        current_round = completed;
        unresolved_blockers = blockers;
      }

  unreconciled : CouncilState → ℕ → List Blocker → Outcome
  unreconciled council completed blockers =
      if leb council.max_rounds completed
      then record {
        outcome = operator_required;
        current_round = completed;
        unresolved_blockers = blockers;
      }
      else record {
        outcome = needs_revision;
        current_round = completed;
        unresolved_blockers = blockers;
      }

  reconciled : CouncilState → ℕ → Fields → Fields → Bool → Bool → Reconciliation → Outcome
  unfolding conclude
  reconciled council completed gv cv low_gpt low_codex recon =
      let capability = capability_refs recon.resolutions in
      if is_empty capability
      then conclude council completed recon.ready_to_proceed
          (all_blockers council gv cv low_gpt low_codex recon)
      else record {
        outcome = operator_required;
        current_round = completed;
        unresolved_blockers = capability;
      }

  judged : CouncilState → ℕ → Fields → Fields → Option Reconciliation → Bool → Bool → Outcome
  unfolding reconciled unreconciled verdict_blocker confidence_blocker
  judged council completed gv cv none low_gpt low_codex = unreconciled council completed (
      verdict_blocker gpt gv
      ++ (verdict_blocker codex cv
          ++ (confidence_blocker gpt low_gpt
              ++ (confidence_blocker codex low_codex ++ (no_reconciliation ∷ [])))))
  judged council completed gv cv (some recon) low_gpt low_codex =
      reconciled council completed gv cv low_gpt low_codex recon

  -- The latest substantive round, once both reviewers' verdicts count; no answer is a `TypeError`
  -- of a comparison of a confidence.
  judge_round : CouncilState → ℕ → Fields → Fields → Option Reconciliation → Option Outcome
  unfolding judged
  judge_round council completed gv cv recon = elim (below_floor (get gv "confidence")) [
    | none ↦ none
    | some low_gpt ↦ elim (below_floor (get cv "confidence")) [
      | none ↦ none
      | some low_codex ↦ some (judged council completed gv cv recon low_gpt low_codex)
    ]
  ]

  review_round : CouncilState → ℕ → Option Round → Option Outcome
  unfolding judge_round
  review_round council completed none =
      some
        (record { outcome = needs_revision; current_round = completed; unresolved_blockers = [] })
  review_round council completed (some r) = elim (counted_verdict py gpt r.gpt) [
    | none ↦ some (record {
      outcome = reviewer_unavailable;
      current_round = completed;
      unresolved_blockers = [];
    })
    | some gv ↦ elim (counted_verdict py codex r.codex) [
      | none ↦ some (record {
        outcome = reviewer_unavailable;
        current_round = completed;
        unresolved_blockers = [];
      })
      | some cv ↦ judge_round council completed gv cv r.reconciliation
    ]
  ]

  -- `evaluate`
  unfoldable pub evaluate : CouncilState → List Round → Option Outcome
  unfolding review_round
  evaluate council rounds =
      let completed = substantive_round_count rounds in
      if is_hard_gated rounds
      then some
          (record { outcome = hard_gate; current_round = completed; unresolved_blockers = [] })
      else review_round council completed (last_of (substantive_rounds rounds))
