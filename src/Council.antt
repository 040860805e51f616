-- ===== src/Council.antt =====
-- The review council: the structured verdict contract (tools/clearwright_verdict.py) and the
-- deterministic agreement rule (tools/clearwright_review_council.py).
pub mod Verdict
pub mod Rounds
pub mod Evaluate
