-- ===== src/Council/Rounds/Honest.antt =====
-- The trust boundary of the evaluator: which stored reviewer results count.
use clear_wright.Prelude.{◌≡◌, inl, inr, true, false, some, str_eq, eq_iff, arith, ok, Result-cases}
use clear_wright.Json.{Fields}
use clear_wright.Council.Verdict.{Python, Verdict, validate_verdict}
use clear_wright.Council.Rounds.{
  Reviewer, reviewer_name, expected_source, ReviewResult, verdict_status, reviewer_status,
  verdict_of, counted_verdict,
}

-- A successful, posted and validated run from the reviewer's own source, whose verdict keeps the
-- contract for this reviewer.
pub record IsReal (py : Python) (who : Reviewer) (x : ReviewResult) (v : Fields) : Type 0 where
  pub succeeded : x.succeeded ≡ true
  pub posted : x.posted ≡ true
  pub validated : x.validated ≡ true
  pub source : x.source ≡ expected_source who
  pub verdict : x.verdict ≡ some v
  pub contract : (c : Verdict) × (validate_verdict py v (some (reviewer_name who)) ≡ ok c)

module _ (py : Python) (who : Reviewer) (x : ReviewResult) where
  verdict_status_review :
      (v : Fields)
      → verdict_status py who x (some v) ≡ "review"
      → (x.validated ≡ true)
        × (x.source ≡ expected_source who)
        × ((c : Verdict) × (validate_verdict py v (some (reviewer_name who)) ≡ ok c))
  unfolding verdict_status
  verdict_status_review v h =
      elim (Result-cases (validate_verdict py v (some (reviewer_name who)))) [
        | inr (e, q) ↦
            let bad : ⊥ = ground (arith, eq_iff "invalid_verdict" "review") in elim bad [ ]
        | inl (c, q) ↦ (
          ground (arith, eq_iff "unvalidated" "review"),
          ground (
            arith,
            eq_iff "unvalidated" "review",
            eq_iff "source_mismatch" "review",
            eq_iff x.source (expected_source who),
          ),
          (c, q),
        )
      ]

  reviewer_status_review :
      str_eq x.error "review" ≡ false
      → str_eq x.classification "review" ≡ false
      → reviewer_status py who (some x) ≡ "review"
      → (x.succeeded ≡ true) × (x.posted ≡ true) × (verdict_status py who x x.verdict ≡ "review")
  unfolding reviewer_status
  reviewer_status_review a b h = ground (
    arith,
    eq_iff "unavailable" "review",
    eq_iff x.error "review",
    eq_iff x.classification "review",
  )

  -- A result that counts is a real review, where its error and classification texts are not the
  -- word `review` itself.
  pub counted_verdict-IsReal :
      (v : Fields)
      → str_eq x.error "review" ≡ false
      → str_eq x.classification "review" ≡ false
      → counted_verdict py who (some x) ≡ some v
      → IsReal py who x v
  unfolding counted_verdict verdict_of verdict_status
  counted_verdict-IsReal v a b h =
      let status : reviewer_status py who (some x) ≡ "review" =
        ground (arith, eq_iff (reviewer_status py who (some x)) "review") in
      let verdict : x.verdict ≡ some v = ground arith in
      let (succeeded, posted, checked) = reviewer_status_review a b status in
      let (validated, source, contract) = verdict_status_review v (rw (verdict) at checked) in
      record {
        succeeded = succeeded;
        posted = posted;
        validated = validated;
        source = source;
        verdict = verdict;
        contract = contract;
      }
