-- ===== src/Alf/Findings/Attribute.antt =====
-- Occurrences of a finding: `attribute_occurrence`, `record_regression`, `record_recurrence` and
-- `set_release_baseline` of tools/clearwright_alf_synth.py.
pub mod Once
pub mod Floor
use clear_wright.Prelude.{
  ℕ, String, suc, ◌+◌, min, max, Bool, true, false, not, ◌&&◌, ◌||◌, List, [], ◌∷◌, Option, none,
  some, str_eq, if◌then◌else◌, any, is_blank, ◌==◌, Result, ok, err,
}
use clear_wright.Json.{
  Value, null, bool, int, str, arr, obj, Items, nil, cons, append_item, Fields, end, field, get,
  set, truthy,
}
use clear_wright.Alf.{number_at, is_text}
use clear_wright.Alf.Score.{assign_tier, compute_score}
use clear_wright.Alf.Findings.{
  Attribution, attributed, FindingStore, AlfError, no_finding, Host, Produced, no_line,
  atomic_finding_update,
}

pub record Occurrence : Type 0 where
  pub occurrence_id : String
  pub run_id : String
  pub captured_at : String
  pub metrics : Fields

-- How an attribution ends; `seen_before` writes nothing.
pub data Attributed : Type 0 where
  seen_before attributed_now : Attributed

unfoldable pub ledger_has : FindingStore → String → Bool
ledger_has s id = any (λ a. str_eq a.attribution_id id) s.ledger

unfoldable pub is_new_run : FindingStore → String → String → Bool
is_new_run s entry run = not (any (λ a. str_eq a.entry_id entry && str_eq a.run_id run) s.ledger)

add_number : String → ℕ → Fields → Fields
add_number k n f = set f k (int (number_at f k + n))

unfoldable pub fold_metric : String → String → Fields → Fields → Fields
unfolding add_number
fold_metric cumulative source metrics f =
    if number_at metrics source == 0 then f else add_number cumulative (number_at metrics source) f

-- `_fold_metrics`
unfoldable pub fold_metrics : Fields → Fields → Fields
fold_metrics m f = fold_metric "cumulative_council_attempts_wasted" "council_attempts" m (
    fold_metric "cumulative_tool_attempts_wasted" "tool_attempts" m (
      fold_metric "cumulative_api_attempts_wasted" "api_attempts" m (
        fold_metric "cumulative_token_estimate" "token_estimate" m (
          fold_metric "cumulative_execution_delay" "execution_delay_seconds" m
            (fold_metric "cumulative_operator_minutes" "operator_minutes" m f)))))

set_seen : String → Fields → Fields
set_seen at f = if is_blank at then f else set f "last_seen_at" (str at)

-- The counts, the time and the metrics of one more occurrence.
unfoldable pub counted : Bool → Bool → Occurrence → Fields → Fields
unfolding add_number set_seen
counted recurs new_run o f =
    let once = if recurs then add_number "occurrence_count" 1 f else f in
    let run = if new_run then add_number "affected_run_count" 1 once else once in
    fold_metrics o.metrics (set_seen o.captured_at run)

-- `_iv_from_finding`
unfoldable pub iv_from_finding : Fields → Fields
iv_from_finding f = field "risk_activity" (str "historical") (
    field "failure_class" (get f "failure_class") (
      field "authority_integrity_impact" (int (number_at f "authority_integrity_impact")) (
        field "durable_record_integrity_impact"
          (int (number_at f "durable_record_integrity_impact"))
          (field "operator_time_impact" (int (number_at f "operator_time_impact")) (
            field "execution_delay_impact" (int (number_at f "execution_delay_impact")) (
              field "token_api_compute_impact" (int (number_at f "token_api_compute_impact"))
                end))))))

number_or_none : Value → Option ℕ
number_or_none (int n) = some n
number_or_none _ = none

object_or_empty : Value → Fields
object_or_empty (obj fs) = fs
object_or_empty _ = end

-- The tier and the score of the baseline that a release left.
pub record Baseline : Type 0 where
  pub tier : Option ℕ
  pub score : Option ℕ

unfoldable pub baseline_of : Fields → Baseline
unfolding number_or_none object_or_empty
baseline_of f =
    let b = object_or_empty (get f "release_baseline") in
    record { tier = number_or_none (get b "tier"); score = number_or_none (get b "score") }

unfoldable pub effective_tier : Baseline → ℕ → ℕ
effective_tier b t = elim b.tier [ none ↦ t | some base ↦ min t base ]

score_floor : Option ℕ → ℕ → ℕ
score_floor none s = s
score_floor (some base) s = max s base

-- The baseline's score is a floor where its tier decides.
unfoldable pub effective_score : Baseline → ℕ → ℕ → ℕ
unfolding score_floor
effective_score b t s = elim b.tier [
  | none ↦ s
  | some base ↦ if effective_tier b t == base then score_floor b.score s else s
]

items_of : Value → Items
items_of (arr xs) = xs
items_of _ = nil

value_of : Option ℕ → Value
value_of none = null
value_of (some n) = int n

module _ (h : Host) where
  unfoldable pub ledger_line : String → Occurrence → String → Attribution
  ledger_line id o type = record {
    attribution_id = h.attribution_id o.occurrence_id id type;
    occurrence_id = o.occurrence_id;
    entry_id = id;
    attribution_type = type;
    run_id = o.run_id;
  }

  unfoldable pub attribution :
      FindingStore
      → String
      → Occurrence
      → String
      → (Fields → Fields)
      → Option Fields
      → Result AlfError (Option Produced)
  unfolding ledger_line
  attribution s id o type change none = err no_finding
  attribution s id o type change (some head) =
      if ledger_has s (h.attribution_id o.occurrence_id id type)
      then ok none
      else ok (
          some (record {
            finding = change head;
            reason = type;
            line = attributed (ledger_line id o type);
          }))

  unfoldable pub attribute_occurrence :
      FindingStore → String → Occurrence → String → Result AlfError (Option Produced) × FindingStore
  unfolding attribution
  attribute_occurrence s id o type = atomic_finding_update h s id "alf-synth" (
      attribution s id o type (
        counted (str_eq type "recurrence" || str_eq type "regression") (is_new_run s id o.run_id)
          o))

  -- The finding as a regression reopens it.
  unfoldable pub reopened : String → Occurrence → Bool → Fields → Fields
  unfolding items_of value_of
  reopened id o new_run head =
      let base = baseline_of head in
      let f = set (counted true new_run o head) "status" (str "PRIORITIZED") in
      let tier = assign_tier (iv_from_finding f) in
      let score = compute_score f (number_at f "occurrence_count") true in
      let relation = field "entry_id" (str id) (field "relationship" (str "regression_of") end) in
      let decision = field "recomputed_tier" (int tier) (
        field "recomputed_score" (int score) (
          field "baseline_tier" (value_of base.tier) (
            field "baseline_score" (value_of base.score) (
              field "effective_tier" (int (effective_tier base tier)) (
                field "effective_score" (int (effective_score base tier score)) (
                  field "regression_floor_applied" (bool true)
                    (field "computed_at" (str h.now) end))))))) in
      set
        (set
          (set (set f "priority_tier" (int (effective_tier base tier))) "priority_score"
            (int (effective_score base tier score)))
          "related_entries" (arr (append_item (items_of (get f "related_entries")) (obj relation))))
        "tier_decision" (obj decision)

  unfoldable pub record_regression :
      FindingStore → String → Occurrence → Result AlfError (Option Produced) × FindingStore
  unfolding attribution
  record_regression s id o =
      atomic_finding_update h s id "alf-synth"
        (attribution s id o "regression" (reopened id o (is_new_run s id o.run_id)))

  -- The members of RELEASED_STATES
  unfoldable pub is_released : Value → Bool
  is_released v = is_text v "RELEASED" || is_text v "MONITORING"

  unfoldable pub record_recurrence :
      FindingStore → String → Occurrence → Result AlfError (Option Produced) × FindingStore
  unfolding is_released
  record_recurrence s id o = elim (s.heads id) [
    | none ↦ (err no_finding, s)
    | some head ↦
        if is_released (get head "status")
        then record_regression s id o
        else attribute_occurrence s id o "recurrence"
  ]

  unfoldable pub with_baseline : Fields → Fields
  with_baseline head = set head "release_baseline" (
      obj (
        field "tier" (get head "priority_tier") (
          field "score" (get head "priority_score") (
            field "priority_model_version" (str "priority-model-v1")
              (field "at" (str h.now) end)))))

  -- The product is made of the head as read before the lock.
  unfoldable pub set_release_baseline : FindingStore → String → FindingStore
  unfolding with_baseline
  set_release_baseline s id = elim (s.heads id) [
    | none ↦ s
    | some head ↦
        if truthy (get head "release_baseline")
        then s
        else (atomic_finding_update h s id "alf-synth" (λ any. ok (
            some (record {
              finding = with_baseline head;
              reason = "release_baseline";
              line = no_line;
            })))).1
  ]
