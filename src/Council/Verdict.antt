-- ===== src/Council/Verdict.antt =====
-- The structured verdict of a reviewer: `validate_verdict` of tools/clearwright_verdict.py.
-- `str` of a value that is no text, `str.lower` and `float` of a text are parameters; a confidence
-- is kept as the decimal num / 10^exp.
pub mod Rules
use clear_wright.Prelude.{
  ℕ, String, ◌*◌, ◌^◌, Bool, true, false, not, ◌&&◌, ◌||◌, List, [], ◌∷◌, Option, none, some,
  str_eq, elem, ltb, leb, ◌==◌, if◌then◌else◌, Result, ok, err, ◌>>=◌, ◌>>◌, refuse_if, is_blank,
  strip, text_length,
}
use clear_wright.Json.{
  Value, null, bool, int, neg_int, real, neg_real, str, arr, Items, nil, cons, Fields, get, truthy,
}

abbrev pub verdicts : List String
verdicts = "approve" ∷ "approve_with_changes" ∷ "revise" ∷ "block" ∷ []

abbrev pub risk_levels : List String
risk_levels = "low" ∷ "medium" ∷ "high" ∷ "critical" ∷ []

abbrev pub reviewers : List String
reviewers = "gpt" ∷ "codex" ∷ []

abbrev pub verdict_list_fields : List String
verdict_list_fields =
    "blocking_findings" ∷ "required_changes" ∷ "nonblocking_findings" ∷ "disagreements"
    ∷ "assumptions" ∷ "questions" ∷ "recommended_plan" ∷ []

pub record Python : Type 0 where
  pub str_of : Value → String
  pub lower : String → String
  pub float_of : String → Option Value

pub record Decimal : Type 0 where
  pub num : ℕ
  pub exp : ℕ

-- The message of a `VerdictError`, by what it complains of.
pub data VerdictError : Type 0 where
  unknown_reviewer unknown_verdict unknown_risk : String → VerdictError
  reviewer_mismatch : String → VerdictError
  bad_confidence bad_summary : VerdictError
  not_an_array : String → VerdictError

-- A normalized verdict; `lists` follows the order of the list fields.
pub record Verdict : Type 0 where
  pub reviewer : String
  pub verdict : String
  pub confidence : Decimal
  pub risk_level : String
  pub summary : String
  pub lists : List Items

-- A number from 0.0 to 1.0.
unfoldable pub unit_number : Value → Option Decimal
unit_number (bool true) = some (record { num = 1; exp = 0 })
unit_number (bool false) = some (record { num = 0; exp = 0 })
unit_number (int n) = if leb n 1 then some (record { num = n; exp = 0 }) else none
unit_number (neg_int n) = if n == 0 then some (record { num = 0; exp = 0 }) else none
unit_number (real n e) = if leb n (10 ^ e) then some (record { num = n; exp = e }) else none
unit_number (neg_real n e) = if n == 0 then some (record { num = 0; exp = 0 }) else none
unit_number _ = none

abbrev pub or_number : Option Value → Option Decimal
or_number none = none
or_number (some v) = unit_number v

-- `_as_list`
unfoldable pub as_list : Value → String → Result VerdictError Items
as_list null f = ok nil
as_list (arr xs) f = ok xs
as_list _ f = err (not_an_array f)

unfoldable pub as_lists : Fields → List String → Result VerdictError (List Items)
as_lists p [] = ok []
as_lists p (f ∷ fs) =
    let rest = as_lists p fs in as_list (get p f) f >>= λ xs. rest >>= λ xss. ok (xs ∷ xss)

substantive_text : Value → Result VerdictError String
substantive_text (str s) = if ltb (text_length (strip s)) 8 then err bad_summary else ok (strip s)
substantive_text _ = err bad_summary

unfoldable pub is_one_of : List String → String → Bool
is_one_of xs s = elem s xs

mismatch : Option String → String → Bool
mismatch none who = false
mismatch (some expected) who = not (str_eq who expected)

module _ (py : Python) where
  text_value : Value → String
  text_value (str s) = s
  text_value v = py.str_of v

  -- `str(value or "").strip().lower()`
  unfoldable pub folded : Value → String
  unfolding text_value
  folded v = py.lower (strip (if truthy v then text_value v else ""))

  -- `float(value)`, from 0.0 to 1.0
  confidence_of : Value → Option Decimal
  confidence_of (str s) = or_number (py.float_of s)
  confidence_of v = unit_number v

  confident : Option Decimal → Result VerdictError Decimal
  confident none = err bad_confidence
  confident (some c) = ok c

  -- The part of the check that follows the enumerated fields.
  unfoldable pub assemble : Fields → String → String → String → Result VerdictError Verdict
  unfolding substantive_text confidence_of confident
  assemble p who verdict risk = do
    confidence ← confident (confidence_of (get p "confidence"))
    summary ← substantive_text (get p "summary")
    lists ← as_lists p verdict_list_fields
    ok (record {
      reviewer = who;
      verdict = verdict;
      confidence = confidence;
      risk_level = risk;
      summary = summary;
      lists = lists;
    })

  unfoldable pub validate_verdict : Fields → Option String → Result VerdictError Verdict
  unfolding mismatch
  validate_verdict p reviewer = do
    let who = folded (get p "reviewer")
    refuse_if (not (is_one_of reviewers who)) (unknown_reviewer who)
    refuse_if (mismatch reviewer who) (reviewer_mismatch who)
    let verdict = folded (get p "verdict")
    refuse_if (not (is_one_of verdicts verdict)) (unknown_verdict verdict)
    let risk = folded (get p "risk_level")
    refuse_if (not (is_one_of risk_levels risk)) (unknown_risk risk)
    assemble p who verdict risk
