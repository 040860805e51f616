-- ===== src/Council/Verdict/Rules.antt =====
-- What a verdict that passes the contract is like.
use clear_wright.Prelude.{
  String, ◌≤◌, ◌^◌, ◌≡◌, inl, inr, true, false, List, [], ◌∷◌, Option, some, arith, Any, Any-elem,
  length, leb→le, ok, text_length, Option-cases, Result-cases,
}
use clear_wright.Json.{Value, bool, int, real, str, Items, Fields, get}
use clear_wright.Council.Verdict.{
  Python, Decimal, Verdict, verdicts, risk_levels, reviewers, verdict_list_fields, unit_number,
  as_list, as_lists, substantive_text, mismatch, is_one_of, folded, assemble, confidence_of,
  validate_verdict,
}

unit_number-bound : (v : Value) (c : Decimal) → unit_number v ≡ some c → c.num ≤ 10 ^ c.exp
unfolding unit_number
unit_number-bound (bool true) c h = ground arith
unit_number-bound (int n) c h = ground (arith, leb→le n 1)
unit_number-bound (real n e) c h = ground (arith, leb→le n (10 ^ e))
unit_number-bound _ c h = ground arith

confidence_of-bound :
    (py : Python) (v : Value) (c : Decimal) → confidence_of py v ≡ some c → c.num ≤ 10 ^ c.exp
unfolding confidence_of
confidence_of-bound py (str s) c h = elim (Option-cases (py.float_of s)) [
  | inl n ↦ ground arith
  | inr (v, q) ↦ unit_number-bound v c (ground arith)
]
confidence_of-bound py v c h = unit_number-bound v c h

as_lists-length :
    (p : Fields) (fs : List String) (xss : List Items)
    → as_lists p fs ≡ ok xss
    → length xss ≡ length fs
unfolding as_lists
as_lists-length p [] xss h = ground arith
as_lists-length p (f ∷ fs) xss h = elim (Result-cases (as_list (get p f) f)) [
  | inr (x, l) ↦ ground arith
  | inl (xs, l) ↦ elim (Result-cases (as_lists p fs)) [
    | inr (x, m) ↦ ground arith
    | inl (yss, m) ↦ ground (arith, as_lists-length p fs yss m)
  ]
]

substantive_text-length : (v : Value) (s : String) → substantive_text v ≡ ok s → 8 ≤ text_length s
unfolding substantive_text
substantive_text-length (str t) s h = ground (arith)
substantive_text-length _ s h = cc

-- A verdict that keeps the contract.
pub record IsVerdict (v : Verdict) : Type 0 where
  pub reviewer : Any (λ x. v.reviewer ≡ x) reviewers
  pub verdict : Any (λ x. v.verdict ≡ x) verdicts
  pub risk_level : Any (λ x. v.risk_level ≡ x) risk_levels
  pub confidence : v.confidence.num ≤ 10 ^ v.confidence.exp
  pub summary : 8 ≤ text_length v.summary
  pub lists : length v.lists ≡ 7

module _ (py : Python) (p : Fields) where
  assemble_ok :
      (who verdict risk : String) (v : Verdict)
      → assemble py p who verdict risk ≡ ok v
      → (v.reviewer ≡ who)
        × (v.verdict ≡ verdict)
        × (v.risk_level ≡ risk)
        × (v.confidence.num ≤ 10 ^ v.confidence.exp)
        × (8 ≤ text_length v.summary)
        × (length v.lists ≡ 7)
  unfolding assemble
  assemble_ok who verdict risk v h = elim (Option-cases (confidence_of py (get p "confidence"))) [
    | inl n ↦ let bad : ⊥ = ground arith in elim bad [ ]
    | inr (c, q) ↦ elim (Result-cases (substantive_text (get p "summary"))) [
      | inr (x, t) ↦ let bad : ⊥ = ground arith in elim bad [ ]
      | inl (s, t) ↦ elim (Result-cases (as_lists p verdict_list_fields)) [
        | inr (x, l) ↦ let bad : ⊥ = ground arith in elim bad [ ]
        | inl (xss, l) ↦ ground (
          arith,
          confidence_of-bound py (get p "confidence") c q,
          substantive_text-length (get p "summary") s t,
          as_lists-length p verdict_list_fields xss l,
        )
      ]
    ]
  ]

  verdict_tests :
      (reviewer : Option String) (v : Verdict)
      → validate_verdict py p reviewer ≡ ok v
      → (is_one_of reviewers (folded py (get p "reviewer")) ≡ true)
        × (mismatch reviewer (folded py (get p "reviewer")) ≡ false)
        × (is_one_of verdicts (folded py (get p "verdict")) ≡ true)
        × (is_one_of risk_levels (folded py (get p "risk_level")) ≡ true)
        × (assemble py p
              (folded py (get p "reviewer"))
              (folded py (get p "verdict"))
              (folded py (get p "risk_level"))
            ≡ ok v)
  unfolding validate_verdict
  verdict_tests reviewer v h = ground arith

  -- A verdict that passes is normalized and keeps the contract: a known reviewer, verdict and risk
  -- level, a confidence from 0 to 1, a summary of at least eight characters, and all seven lists.
  pub validate_verdict-IsVerdict :
      (reviewer : Option String) (v : Verdict) → validate_verdict py p reviewer ≡ ok v → IsVerdict v
  unfolding is_one_of
  validate_verdict-IsVerdict reviewer v h =
      let (who, _, verdict, risk, made) = verdict_tests reviewer v h in
      let (a, b, c, confidence, summary, lists) = assemble_ok _ _ _ v made in
      record {
        reviewer = rw a (Any-elem _ reviewers who);
        verdict = rw b (Any-elem _ verdicts verdict);
        risk_level = rw c (Any-elem _ risk_levels risk);
        confidence = confidence;
        summary = summary;
        lists = lists;
      }
