-- ===== src/Council/Rounds.antt =====
-- The rounds of a council and the reviewers' results in them: `_reviewer_status` and
-- `substantive_round_count` of tools/clearwright_review_council.py.
pub mod Honest
use clear_wright.Prelude.{
  ℕ, String, zero, suc, ◌*◌, ◌^◌, Bool, true, false, not, ◌&&◌, ◌||◌, List, [], ◌∷◌, ◌++◌, Option,
  none, some, str_eq, elem, any, all, ltb, leb, ◌==◌, if◌then◌else◌, Result, ok, err, is_blank,
  is_empty, strip,
}
use clear_wright.Json.{
  Value, null, bool, int, neg_int, real, neg_real, str, arr, obj, Items, Fields, get, count_items,
}
use clear_wright.Council.Verdict.{Python, Verdict, VerdictError, validate_verdict}

pub data Reviewer : Type 0 where
  gpt codex : Reviewer

abbrev pub reviewer_name : Reviewer → String
reviewer_name gpt = "gpt"
reviewer_name codex = "codex"

-- EXPECTED_SOURCE
abbrev pub expected_source : Reviewer → String
expected_source gpt = "openai-api"
expected_source codex = "codex-cli"

-- A stored reviewer result; a text that is not there is empty. The verdict is as stored, not
-- normalized.
pub record ReviewResult : Type 0 where
  pub succeeded : Bool
  pub posted : Bool
  pub validated : Bool
  pub hard_gate : Bool
  pub error : String
  pub classification : String
  pub source : String
  pub verdict : Option Fields

pub record Resolution : Type 0 where
  pub ref : String
  pub disposition : String

pub record Reconciliation : Type 0 where
  pub ready_to_proceed : Bool
  pub unresolved_blockers : List String
  pub resolutions : List Resolution

pub record Round : Type 0 where
  pub substantive : Bool
  pub hard_gate : Bool
  pub gpt : Option ReviewResult
  pub codex : Option ReviewResult
  pub reconciliation : Option Reconciliation

pub record CouncilState : Type 0 where
  pub min_rounds : ℕ
  pub max_rounds : ℕ
  pub approved_scope : String

pub data OutcomeKind : Type 0 where
  agreement_threshold_met needs_revision operator_required hard_gate reviewer_unavailable :
      OutcomeKind

-- A required item: whose, of which list, at which index.
pub record ItemRef : Type 0 where
  pub reviewer : Reviewer
  pub list : String
  pub index : ℕ

pub data Blocker : Type 0 where
  verdict_blocks low_confidence : Reviewer → Blocker
  no_reconciliation scope_not_recorded : Blocker
  capability reported : String → Blocker
  unresolved_items : List ItemRef → Blocker

pub record Outcome : Type 0 where
  pub outcome : OutcomeKind
  pub current_round : ℕ
  pub unresolved_blockers : List Blocker

unfoldable pub substantive_rounds : List Round → List Round
substantive_rounds [] = []
substantive_rounds (r ∷ rs) =
    let rest = substantive_rounds rs in if r.substantive then r ∷ rest else rest

unfoldable pub substantive_round_count : List Round → ℕ
substantive_round_count [] = 0
substantive_round_count (r ∷ rs) =
    let rest = substantive_round_count rs in if r.substantive then suc rest else rest

-- `rs[-1]`
unfoldable pub last_of {ℓ} : {A : Type ℓ} → List A → Option A
last_of [] = none
last_of (r ∷ []) = some r
last_of (r ∷ (s ∷ rs)) = last_of (s ∷ rs)

-- `a or b`
abbrev pub or_else : String → String → String
or_else a b = if is_blank a then b else a

module _ (py : Python) where
  verdict_status : Reviewer → ReviewResult → Option Fields → String
  verdict_status who r none = "no_verdict"
  verdict_status who r (some v) = elim (validate_verdict py v (some (reviewer_name who))) [
    | err e ↦ "invalid_verdict"
    | ok checked ↦
        if not r.validated
        then "unvalidated"
        else if not (str_eq r.source (expected_source who))
        then "source_mismatch"
        else "review"
  ]

  -- `_reviewer_status`, for an expected reviewer
  unfoldable pub reviewer_status : Reviewer → Option ReviewResult → String
  unfolding verdict_status
  reviewer_status who none = "missing"
  reviewer_status who (some r) =
      if not r.succeeded
      then or_else r.error "unavailable"
      else if not r.posted
      then or_else r.error (or_else r.classification "unavailable")
      else verdict_status who r r.verdict

  verdict_of : Option ReviewResult → Option Fields
  verdict_of none = none
  verdict_of (some r) = r.verdict

  -- The verdict of a reviewer whose result counts.
  unfoldable pub counted_verdict : Reviewer → Option ReviewResult → Option Fields
  unfolding verdict_of
  counted_verdict who result =
      if str_eq (reviewer_status who result) "review" then verdict_of result else none
