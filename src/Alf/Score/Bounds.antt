-- ===== src/Alf/Score/Bounds.antt =====
-- Bounds of the scores.
use clear_wright.Prelude.{
  ℕ, String, suc, ◌+◌, ◌*◌, ◌-◌, ◌≤◌, ◌≡◌, arith, Bool, true, false, List, [], ◌∷◌, All, length,
}
use clear_wright.Json.{Value, str, Fields, get}
use clear_wright.Alf.{number_at}
use clear_wright.Alf.Score.{
  Bands, Counter, waste_band, waste_over, waste_counters, waste_band_max, Axis, axes, weighted_sum,
  position, blast_radii, blast_radius_rank, compute_score,
}

waste_band_bound : (b : Bands) (v : ℕ) → waste_band b v ≤ 3
unfolding waste_band
waste_band_bound b v = ground arith

waste_over_bound : (cs : List Counter) (f : Fields) → waste_over cs f ≤ 3
unfolding waste_over
waste_over_bound [] f = omega arith
waste_over_bound (c ∷ cs) f =
    omega (arith, waste_band_bound c.bands (number_at f c.name), waste_over_bound cs f)

position_bound : (s : String) (n : ℕ) (xs : List String) → position s n xs ≤ n + (length xs - 1)
unfolding position
position_bound s n [] = omega arith
position_bound s n (x ∷ []) = ground arith
position_bound s n (x ∷ (y ∷ ys)) = ground (arith, position_bound s (suc n) (y ∷ ys))

blast_radius_bound : (v : Value) → blast_radius_rank v ≤ 7
unfolding blast_radius_rank
blast_radius_bound (str s) = position_bound s 0 blast_radii
blast_radius_bound v = omega arith

-- Every axis of the finding is at most `top`.
abbrev pub AreBounded : ℕ → Fields → List Axis → Type 0
AreBounded top f = All (λ a. number_at f a.name ≤ top)

axes_bound : (top : ℕ) (f : Fields) → AreBounded top f axes → weighted_sum axes f ≤ 20 * top
unfolding weighted_sum
axes_bound top f b =
    omega (arith, b.0, b.1.0, b.1.1.0, b.1.1.1.0, b.1.1.1.1.0, b.1.1.1.1.1.0, b.1.1.1.1.1.1.0)

-- Where every impact axis is at most `top`, a score is at most 20 times that and 52: 14 for the
-- blast radius, 20 for the recurrence, 12 for a regression and 6 for the waste. A regression adds 12,
-- and one occurrence more never lowers the score.
pub compute_score_bound :
    (top : ℕ) (f : Fields) (occurrences : ℕ) (regression : Bool)
    → AreBounded top f axes
    → (compute_score f occurrences regression ≤ 20 * top + 52)
      × (compute_score f occurrences true ≡ compute_score f occurrences false + 12)
      × (compute_score f occurrences regression ≤ compute_score f (suc occurrences) regression)
unfolding compute_score waste_band_max
compute_score_bound top f occurrences regression b =
    let a = axes_bound top f b in
    let w = waste_over_bound waste_counters f in
    let r = blast_radius_bound (get f "blast_radius") in
    (ground (arith, a, w, r), omega arith, omega arith)
