-- ===== src/Examples/Alf.antt =====
-- The theorems on the lessons store at one finding, its occurrence and its disposition.
use clear_wright.Prelude.{
  ℕ, String, zero, sym, ap, ◌∙◌, text_length, suc, ◌+◌, ◌*◌, ◌≤◌, ◌≡◌, refl, true, false, [], ◌∷◌,
  Option, none, some, ok, err, str_eq, text_ltb, codes_ltb, concat, arith,
}
use clear_wright.Json.{int, str, obj, Fields, end, field, get}
use clear_wright.Alf.{number_at, is_text}
use clear_wright.Alf.Paths.{safe_id, matches_id, id_tail, is_name_char, is_alnum}
use clear_wright.Alf.Score.{compute_score}
use clear_wright.Alf.Score.Bounds.{compute_score_bound}
use clear_wright.Alf.Findings.{
  FindingStore, Host, Produced, Revision, attributed, disposed, create_finding,
  atomic_finding_update, commit_revision, last_revision, at_entry, rebuild_head, committed,
}
use clear_wright.Alf.Findings.Attribute.{
  is_new_run, reopened, ledger_line, attribution, Occurrence, ledger_has, attribute_occurrence,
  record_regression, baseline_of,
}
use clear_wright.Alf.Findings.Attribute.Once.{attribute_occurrence_once}
use clear_wright.Alf.Findings.Attribute.Floor.{IsReopened, record_regression-IsReopened}
use clear_wright.Alf.Findings.Dispose.{
  Reading, Request, message_consumed, dispose, disposition, disposed_finding, check_disposition,
  operator_transitions, is_allowed, is_operator_message, postdates, text_of, is_incomplete_deferral,
  gate_problems,
}
use clear_wright.Alf.Findings.Dispose.Laws.{IsWarranted, dispose_success}
use clear_wright.Alf.Findings.Steps.{Step, Reaches, IsConsistent}
use clear_wright.Alf.Findings.Steps.Consistent.{Reaches-IsConsistent}

-- An id for each number: as many strokes.
abbrev strokes : ℕ → String
strokes zero = ""
strokes (suc n) = concat "|" (strokes n)

length-strokes : (n : ℕ) → text_length (strokes n) ≡ n
length-strokes zero = refl
length-strokes (suc n) = ap suc (length-strokes n)

strokes_injective : (m n : ℕ) → strokes m ≡ strokes n → m ≡ n
strokes_injective m n h = sym (length-strokes m) ∙ (ap text_length h ∙ length-strokes n)

abbrev attribution_id : String → String → String → String
attribution_id occurrence entry type = concat occurrence (concat entry type)

abbrev host : Host
host = record { now = "2026-01-05"; entry_id = strokes; attribution_id = attribution_id }

abbrev finding : Fields
finding = field "status" (str "RELEASED") (
    field "security_impact" (int 3)
      (field "release_baseline" (obj (field "tier" (int 1) (field "score" (int 90) end))) end))

compute_score_bound_example :
    (compute_score finding 4 true ≤ 20 * 3 + 52)
    × (compute_score finding 4 true ≡ compute_score finding 4 false + 12)
    × (compute_score finding 4 true ≤ compute_score finding 5 true)
unfolding number_at get
compute_score_bound_example = compute_score_bound 3 finding 4 true (
  omega arith,
  (omega arith, (omega arith, (omega arith, (omega arith, (omega arith, (omega arith, tt)))))),
)

abbrev empty_store : FindingStore
empty_store = record {
  last_seq = 0;
  heads = λ id. none;
  history = λ id. [];
  ledger = [];
  dispositions = [];
}

empty_IsConsistent : IsConsistent strokes attribution_id empty_store
unfolding rebuild_head last_revision
empty_IsConsistent = record {
  head_is_last = λ id. refl;
  numbered = λ id. tt;
  fresh = λ n lt. refl;
  attributed_once = tt;
  used_once = tt;
}

Reaches-IsConsistent_example :
    IsConsistent strokes attribution_id (create_finding host empty_store "alf-synth" finding).1
Reaches-IsConsistent_example =
    Reaches-IsConsistent strokes attribution_id strokes_injective
      (Reaches.next Reaches.here (Step.creates "2026-01-05" "alf-synth" finding empty_store))
      empty_IsConsistent

abbrev first : Fields → Revision
first f = record {
  revision_no = 1;
  revised_at = "2026-01-01";
  revising_actor = "alf-synth";
  reason = "created";
  finding = f;
}

-- The store with one finding under the id `e`.
abbrev holding : Fields → FindingStore
holding f = record empty_store {
  heads = at_entry empty_store.heads "e" (some f);
  history = at_entry empty_store.history "e" (first f ∷ []);
}

abbrev occurrence : Occurrence
occurrence = record {
  occurrence_id = "o1";
  run_id = "r1";
  captured_at = "2026-01-04";
  metrics = field "operator_minutes" (int 40) end;
}

abbrev attributed_store : FindingStore
attributed_store = (attribute_occurrence host (holding finding) "e" occurrence "recurrence").1

abbrev attribution_product : Option Produced
attribution_product =
    elim (attribute_occurrence host (holding finding) "e" occurrence "recurrence").0 [
      | ok p ↦ p
      | err e ↦ none
    ]

attribute_occurrence_once_example :
    (ledger_has attributed_store (attribution_id "o1" "e" "recurrence") ≡ true)
    × (attribute_occurrence host attributed_store "e" occurrence "recurrence"
        ≡ (ok none, attributed_store))
unfolding attribute_occurrence atomic_finding_update committed attribution at_entry ledger_has
attribute_occurrence_once_example =
    attribute_occurrence_once host (holding finding) attributed_store "e" "recurrence" occurrence
      occurrence attribution_product refl refl

abbrev regressed : Produced
regressed = record {
  finding = reopened host "e" occurrence true finding;
  reason = "regression";
  line = attributed (ledger_line host "e" occurrence "regression");
}

abbrev regressed_store : FindingStore
regressed_store = commit_revision host (holding finding) "e" "alf-synth" regressed

record_regression-IsReopened_example :
    (f : Fields) × (regressed_store.heads "e" ≡ some f) × IsReopened host (baseline_of finding) f
unfolding record_regression atomic_finding_update committed attribution at_entry ledger_has
    is_new_run
record_regression-IsReopened_example =
    record_regression-IsReopened host (holding finding) regressed_store "e" occurrence regressed
      finding refl refl

abbrev reviewed : Fields
reviewed = field "status" (str "OPERATOR_REVIEW") end

abbrev reading : Reading
reading = record { is_half_or_more = λ v. false; names_token = λ id text. str_eq text id }

abbrev rejection : Request
rejection = record {
  target_status = "REJECTED";
  operator_message_id = "m1";
  deferral_reason = "";
  review_date = "";
}

abbrev operator_message : Fields
operator_message = field "role" (str "operator") (
    field "direction" (str "inbound")
      (field "at" (str "2026-01-02") (field "message" (str "e") end)))

abbrev rejected : Produced
rejected = record {
  finding = disposed_finding host reading rejection reviewed;
  reason = "REJECTED";
  line =
      disposed (record { entry_id = "e"; target_status = "REJECTED"; operator_message_id = "m1" });
}

abbrev rejected_store : FindingStore
rejected_store = commit_revision host (holding reviewed) "e" "OPERATOR-0001" rejected

dispose_success_example :
    (safe_id "e" ≡ true)
    × (safe_id "m1" ≡ true)
    × IsWarranted host reading (holding reviewed) "e" rejection (some operator_message)
    × (message_consumed rejected_store "m1" ≡ true)
unfolding dispose disposition check_disposition atomic_finding_update committed at_entry
    last_revision operator_transitions is_allowed is_operator_message postdates text_of
    message_consumed is_incomplete_deferral gate_problems is_text get text_ltb codes_ltb safe_id
    matches_id id_tail is_name_char is_alnum
dispose_success_example =
    dispose_success host reading (holding reviewed) rejected_store "e" "OPERATOR-0001" rejection
      (λ id. some operator_message) rejected refl
