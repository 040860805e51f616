-- ===== src/Alf/Score.antt =====
-- Priorities: `assign_tier` and `compute_score` of tools/clearwright_alf_synth.py.
pub mod Bounds
use clear_wright.Prelude.{
  ℕ, String, suc, ◌+◌, ◌*◌, ◌-◌, min, max, Bool, true, false, not, ◌&&◌, ◌||◌, List, [], ◌∷◌,
  Option, none, some, elem, if◌then◌else◌, leb, str_eq,
}
use clear_wright.Json.{Value, null, int, str, Fields, end, field, get, truthy}
use clear_wright.Alf.{number_at, is_text}

-- `value in names`
is_one_of : List String → Value → Bool
is_one_of names (str s) = elem s names
is_one_of names _ = false

-- The value of a key, if the key is there.
value_at : Fields → String → Option Value
value_at end k = none
value_at (field j v fs) k = if str_eq j k then some v else value_at fs k

-- `iv.get(key, "none") != "none"`: an explicit `None` is another class.
is_some_class : Fields → String → Bool
unfolding value_at
is_some_class iv k = other (value_at iv k)
  where
    other : Option Value → Bool
    other none = false
    other (some (str s)) = not (str_eq s "none")
    other (some v) = true

abbrev pub tier1_classes : List String
tier1_classes =
    "authority_bypass_risk" ∷ "durable_record_integrity" ∷ "correctness" ∷ "operational_reliability"
    ∷ "stale_state" ∷ "broken_recovery" ∷ "work_blocker" ∷ "council_failure" ∷ "queue_failure"
    ∷ "lifecycle_failure" ∷ "deployment_failure" ∷ []

abbrev pub tier2_classes : List String
tier2_classes =
    "operator_time" ∷ "execution_delay" ∷ "resource_waste" ∷ "poor_failure_reporting"
    ∷ "excess_deliberation" ∷ []

is_at_least_two : Fields → String → Bool
is_at_least_two iv k = leb 2 (number_at iv k)

unfoldable pub is_tier0 : Fields → Bool
unfolding is_one_of is_some_class
is_tier0 iv =
    is_one_of ("active" ∷ "plausible" ∷ []) (get iv "risk_activity")
    && (is_some_class iv "exposure_class"
        || is_some_class iv "mutation_class"
        || is_some_class iv "record_integrity_class"
        || truthy (get iv "ownership_conflict"))

unfoldable pub is_tier1 : Fields → Bool
unfolding is_one_of is_at_least_two
is_tier1 iv =
    is_at_least_two iv "authority_integrity_impact"
    || is_at_least_two iv "durable_record_integrity_impact"
    || is_one_of tier1_classes (get iv "failure_class")

unfoldable pub is_tier2 : Fields → Bool
unfolding is_one_of is_at_least_two
is_tier2 iv =
    is_one_of tier2_classes (get iv "failure_class")
    || is_at_least_two iv "operator_time_impact"
    || is_at_least_two iv "execution_delay_impact"
    || is_at_least_two iv "token_api_compute_impact"

-- The tier of `assign_tier`; the first predicate that holds decides.
unfoldable pub assign_tier : Fields → ℕ
assign_tier iv = if is_tier0 iv then 0 else if is_tier1 iv then 1 else if is_tier2 iv then 2 else 3

-- The inclusive lower bounds of a counter's bands.
pub record Bands : Type 0 where
  pub band1 : ℕ
  pub band2 : ℕ
  pub band3 : ℕ

pub record Counter : Type 0 where
  pub name : String
  pub bands : Bands

abbrev counter : String → ℕ → ℕ → ℕ → Counter
counter name a b c = record { name = name; bands = record { band1 = a; band2 = b; band3 = c } }

-- WASTE_COUNTERS, with the bands of the model
abbrev pub waste_counters : List Counter
waste_counters =
    counter "cumulative_operator_minutes" 30 120 480
    ∷ counter "cumulative_execution_delay" 600 3600 14400
    ∷ counter "cumulative_token_estimate" 100000 500000 2000000
    ∷ counter "cumulative_api_attempts_wasted" 3 10 25
    ∷ counter "cumulative_tool_attempts_wasted" 10 50 200
    ∷ counter "cumulative_council_attempts_wasted" 2 5 10
    ∷ []

unfoldable pub waste_band : Bands → ℕ → ℕ
waste_band b v =
    if leb b.band3 v then 3 else if leb b.band2 v then 2 else if leb b.band1 v then 1 else 0

waste_over : List Counter → Fields → ℕ
waste_over [] f = 0
waste_over (c ∷ cs) f = max (waste_band c.bands (number_at f c.name)) (waste_over cs f)

unfoldable pub waste_band_max : Fields → ℕ
unfolding waste_over
waste_band_max f = waste_over waste_counters f

-- An axis of the score, with its weight.
pub record Axis : Type 0 where
  pub name : String
  pub weight : ℕ

abbrev axis : String → ℕ → Axis
axis name weight = record { name = name; weight = weight }

abbrev pub axes : List Axis
axes =
    axis "security_impact" 4
    ∷ axis "authority_integrity_impact" 4
    ∷ axis "durable_record_integrity_impact" 4
    ∷ axis "reliability_impact" 3
    ∷ axis "operator_time_impact" 2
    ∷ axis "execution_delay_impact" 2
    ∷ axis "token_api_compute_impact" 1
    ∷ []

unfoldable pub weighted_sum : List Axis → Fields → ℕ
weighted_sum [] f = 0
weighted_sum (a ∷ rest) f = a.weight * number_at f a.name + weighted_sum rest f

position : String → ℕ → List String → ℕ
position s n [] = 0
position s n (x ∷ xs) = let rest = position s (suc n) xs in if str_eq x s then n else rest

-- BLAST_RADIUS, in the order of the ranks
abbrev pub blast_radii : List String
blast_radii =
    "single_event" ∷ "single_run" ∷ "single_work_item" ∷ "single_subsystem" ∷ "multiple_subsystems"
    ∷ "all_councils" ∷ "system_wide" ∷ "external_or_public" ∷ []

-- The rank of a blast radius; an unknown one has rank 0.
unfoldable pub blast_radius_rank : Value → ℕ
unfolding position
blast_radius_rank (str s) = position s 0 blast_radii
blast_radius_rank _ = 0

-- `compute_score` with its arguments given.
unfoldable pub compute_score : Fields → ℕ → Bool → ℕ
compute_score f occurrence_count regression =
    weighted_sum axes f
    + 2 * blast_radius_rank (get f "blast_radius")
    + 2 * min (occurrence_count - 1) 10
    + 12 * (if regression then 1 else 0)
    + 2 * waste_band_max f
