-- ===== src/Examples/Council.antt =====
-- The theorems on the review council at a concrete round.
use clear_wright.Prelude.{String, ◌≡◌, refl, true, false, [], ◌∷◌, none, some, ok, is_space, strip}
use clear_wright.Json.{real, str, arr, nil, Fields, end, field, get}
use clear_wright.Council.Verdict.{
  Python, Verdict, unit_number, as_list, as_lists, is_one_of, folded, assemble, validate_verdict,
}
use clear_wright.Council.Verdict.Rules.{IsVerdict, validate_verdict-IsVerdict}
use clear_wright.Council.Rounds.{
  codex, ReviewResult, Reconciliation, Round, CouncilState, agreement_threshold_met, ItemRef,
  Outcome, reviewer_status, counted_verdict, last_of, substantive_rounds, substantive_round_count,
}
use clear_wright.Council.Evaluate.{
  evaluate, is_nonblocking, below_floor, required_item_refs, capability_refs, is_hard_gated,
  uncovered, all_blockers,
}
use clear_wright.Council.Evaluate.Laws.{IsAgreement, evaluate-IsAgreement}
use clear_wright.Council.Rounds.Honest.{IsReal, counted_verdict-IsReal}

abbrev python : Python
python = record { str_of = λ v. "?"; lower = λ s. s; float_of = λ s. none }

abbrev verdict_by : String → Fields
verdict_by who = field "reviewer" (str who) (
    field "verdict" (str "approve") (
      field "risk_level" (str "low") (
        field "confidence" (real 9 1)
          (field "summary" (str "looks right to me") (field "required_changes" (arr nil) end)))))

abbrev checked_by : String → Verdict
checked_by who = record {
  reviewer = who;
  verdict = "approve";
  confidence = record { num = 9; exp = 1 };
  risk_level = "low";
  summary = "looks right to me";
  lists = nil ∷ nil ∷ nil ∷ nil ∷ nil ∷ nil ∷ nil ∷ [];
}

abbrev result_of : String → String → ReviewResult
result_of who source = record {
  succeeded = true;
  posted = true;
  validated = true;
  hard_gate = false;
  error = "";
  classification = "";
  source = source;
  verdict = some (verdict_by who);
}

abbrev round : Round
round = record {
  substantive = true;
  hard_gate = false;
  gpt = some (result_of "gpt" "openai-api");
  codex = some (result_of "codex" "codex-cli");
  reconciliation =
      some (record { ready_to_proceed = true; unresolved_blockers = []; resolutions = [] });
}

abbrev council : CouncilState
council = record { min_rounds = 2; max_rounds = 5; approved_scope = "the scope" }

abbrev agreed : Outcome
agreed = record { outcome = agreement_threshold_met; current_round = 2; unresolved_blockers = [] }

abbrev ref_text : ItemRef → String
ref_text i = i.list

validates : validate_verdict python (verdict_by "gpt") (some "gpt") ≡ ok (checked_by "gpt")
unfolding validate_verdict is_one_of folded strip get assemble unit_number as_lists as_list
validates = refl

validate_verdict-IsVerdict_example : IsVerdict (checked_by "gpt")
validate_verdict-IsVerdict_example =
    validate_verdict-IsVerdict python (verdict_by "gpt") (some "gpt") (checked_by "gpt") validates

agrees : evaluate python ref_text council (round ∷ round ∷ []) ≡ some agreed
unfolding evaluate substantive_rounds substantive_round_count last_of is_hard_gated counted_verdict
    reviewer_status is_nonblocking below_floor required_item_refs capability_refs uncovered
    all_blockers is_space validate_verdict is_one_of folded strip get assemble unit_number as_lists
    as_list
agrees = refl

evaluate-IsAgreement_example :
    (r : Round) × (gv : Fields) × (cv : Fields) × (recon : Reconciliation) × IsAgreement python
      ref_text council
      (round ∷ round ∷ [])
      r
      gv
      cv
      recon
evaluate-IsAgreement_example =
    evaluate-IsAgreement python ref_text council (round ∷ round ∷ []) agreed agrees refl

counts :
    counted_verdict python codex (some (result_of "codex" "codex-cli")) ≡ some (verdict_by "codex")
unfolding counted_verdict reviewer_status validate_verdict is_one_of folded strip get assemble
    unit_number as_lists as_list
counts = refl

counted_verdict-IsReal_example :
    IsReal python codex (result_of "codex" "codex-cli") (verdict_by "codex")
counted_verdict-IsReal_example =
    counted_verdict-IsReal python codex (result_of "codex" "codex-cli") (verdict_by "codex") refl
      refl counts
