-- ===== src/Work/Activity/Latest.antt =====
-- The total order on the activity of a work item: the winner is the first of all candidates, in
-- whatever order the records are read.
use clear_wright.Prelude.{
  ℕ, String, ◌≡◌, ◌⊎◌, inl, inr, refl, sym, arith, ap, true, false, List, [], ◌∷◌, Option, none,
  some, text_ltb_irrefl, text_ltb_trans, text_ltb_total, Any, All, All_at, Option-cases, Bool-cases,
}
use mathlib.Core.Option
use clear_wright.Json.{null}
use clear_wright.Work.{Python}
use clear_wright.Work.Iso.{parse_time}
use clear_wright.Work.Activity.{
  Candidate, Dated, goes_before, better, dated, winner_from, total_order_winner, last_activity,
  reported_activity, activity_candidates, message_candidates, council_candidates, gate_candidates,
}

goes_before_irrefl : (a : Dated) → goes_before a a ≡ false
unfolding goes_before
goes_before_irrefl a = ground (arith, text_ltb_irrefl a.candidate.source_id)

goes_before_trans :
    (a b c : Dated) → goes_before a b ≡ true → goes_before b c ≡ true → goes_before a c ≡ true
unfolding goes_before
goes_before_trans a b c p q =
    ground (arith, text_ltb_trans a.candidate.source_id b.candidate.source_id c.candidate.source_id)

-- What the order reads of a candidate.
pub record Rank : Type 0 where
  pub instant : ℕ
  pub precedence : ℕ
  pub source_id : String

abbrev pub rank : Dated → Rank
rank a = record {
  instant = a.instant;
  precedence = a.candidate.precedence;
  source_id = a.candidate.source_id;
}

goes_before_total :
    (a b : Dated) → goes_before a b ≡ false → goes_before b a ≡ false → rank a ≡ rank b
unfolding goes_before
goes_before_total a b p q =
    ground (arith, text_ltb_total a.candidate.source_id b.candidate.source_id)

not_before_trans :
    (a b c : Dated) → goes_before b a ≡ false → goes_before c b ≡ false → goes_before c a ≡ false
unfolding goes_before
not_before_trans a b c p q = ground (
  arith,
  text_ltb_trans c.candidate.source_id a.candidate.source_id b.candidate.source_id,
  text_ltb_total a.candidate.source_id b.candidate.source_id,
)

-- The candidate does not go before `w`, if its time can be read.
abbrev pub IsBehind : Python → Dated → Candidate → Type 0
IsBehind py w c =
    (t : ℕ)
    → parse_time py c.at ≡ some t
    → goes_before (record { instant = t; candidate = c }) w ≡ false

-- One of the candidates, and no other goes before it.
pub record IsLatest (py : Python) (cs : List Candidate) (w : Dated) : Type 0 where
  pub listed : Any (λ c. c ≡ w.candidate) cs
  pub time : parse_time py w.candidate.at ≡ some w.instant
  pub first : All (IsBehind py w) cs

module _ (py : Python) (w : Dated) where
  covers :
      (best : Option Dated) (d : Dated)
      → goes_before (better best d) w ≡ false
      → (goes_before d w ≡ false) × ((b : Dated) → best ≡ some b → goes_before b w ≡ false)
  unfolding better
  covers none d h = (h, λ b e. cc)
  covers (some a) d h = elim (Bool-cases (goes_before d a)) [
    | inl p ↦
        let q : goes_before d w ≡ false = ground arith in
        (q, λ b e. ground (arith, goes_before_trans d a w))
    | inr p ↦
        let q : goes_before a w ≡ false = ground arith in
        (not_before_trans w a d q p, λ b e. ground arith)
  ]

  winner_first :
      (best : Option Dated) (cs : List Candidate)
      → winner_from py best cs ≡ some w
      → ((b : Dated) → best ≡ some b → goes_before b w ≡ false) × All (IsBehind py w) cs
  unfolding winner_from dated
  winner_first best [] h = (λ b e. ground (arith, goes_before_irrefl w), tt)
  winner_first best (c ∷ cs) h = elim (Option-cases (parse_time py c.at)) [
    | inl n ↦ let (old, rest) = winner_first best cs (rw (n) at h) in (old, (λ t e. cc, rest))
    | inr (s, n) ↦
        let (old, rest) =
          winner_first (some (better best (record { instant = s; candidate = c }))) cs
            (rw (n) at h) in
        let (new, old) =
          covers best (record { instant = s; candidate = c })
            (old (better best (record { instant = s; candidate = c })) refl) in
        (old, (λ t e. ground arith, rest))
  ]

  better_cases : (best : Option Dated) (d : Dated) → better best d ≡ w → (best ≡ some w) ⊎ (d ≡ w)
  unfolding better
  better_cases none d h = inr h
  better_cases (some b) d h = elim (Bool-cases (goes_before d b)) [
    | inl p ↦ inr (rw (p) at h)
    | inr p ↦ inl (ap some (rw (p) at h))
  ]

  winner_listed :
      (best : Option Dated) (cs : List Candidate)
      → winner_from py best cs ≡ some w
      → (best ≡ some w)
        ⊎ (Any (λ c. c ≡ w.candidate) cs × (parse_time py w.candidate.at ≡ some w.instant))
  unfolding winner_from dated better
  winner_listed best [] h = inl h
  winner_listed best (c ∷ cs) h = elim (Option-cases (parse_time py c.at)) [
    | inl n ↦ elim (winner_listed best cs (rw (n) at h)) [
      | inl e ↦ inl e
      | inr (l, t) ↦ inr (inr l, t)
    ]
    | inr (s, n) ↦
        elim (winner_listed (some (better best (record { instant = s; candidate = c }))) cs
          (rw (n) at h)) [
            | inl e ↦ elim (better_cases best (record { instant = s; candidate = c }) cc) [
              | inl b ↦ inl b
              | inr d ↦ inr (inl (ap (λ x. x.candidate) d), rw (sym d) n)
            ]
            | inr (l, t) ↦ inr (inr l, t)
          ]
  ]

winner_none :
    (py : Python) (best : Option Dated) (cs : List Candidate)
    → winner_from py best cs ≡ none
    → (best ≡ none) × All (λ c. parse_time py c.at ≡ none) cs
unfolding winner_from dated
winner_none py best [] h = (h, tt)
winner_none py best (c ∷ cs) h = elim (Option-cases (parse_time py c.at)) [
  | inl n ↦ let (old, rest) = winner_none py best cs (rw (n) at h) in (old, (n, rest))
  | inr (s, n) ↦
      let (old, rest) =
        winner_none py (some (better best (record { instant = s; candidate = c }))) cs
          (rw (n) at h) in
      let bad : ⊥ = cc in elim bad [ ]
]

module _ (py : Python) where
  -- The winner is one of the candidates, with a time that can be read, and no other candidate goes
  -- before it: none is later, or of its time and of a lower precedence, or of its time and
  -- precedence and of a smaller id.
  pub total_order_winner-IsLatest :
      (cs : List Candidate) (w : Dated) → total_order_winner py cs ≡ some w → IsLatest py cs w
  unfolding total_order_winner
  total_order_winner-IsLatest cs w h = elim (winner_listed py w none cs h) [
    | inl e ↦ let bad : ⊥ = cc in elim bad [ ]
    | inr (l, t) ↦ record { listed = l; time = t; first = (winner_first py w none cs h).1 }
  ]

  IsLatest-rank :
      {cs ds : List Candidate} {v w : Dated}
      → All (λ c. Any (λ d. d ≡ c) ds) cs
      → All (λ d. Any (λ c. c ≡ d) cs) ds
      → IsLatest py cs v
      → IsLatest py ds w
      → rank v ≡ rank w
  IsLatest-rank {cs} {ds} {v} {w} sub sup p q =
      let v_in = All_at (λ c. Any (λ d. d ≡ c) ds) v.candidate cs sub p.listed in
      let w_in = All_at (λ d. Any (λ c. c ≡ d) cs) w.candidate ds sup q.listed in
      goes_before_total v w (All_at (IsBehind py w) v.candidate ds q.first v_in v.instant p.time)
        (All_at (IsBehind py v) w.candidate cs p.first w_in w.instant q.time)

  undated :
      (cs ds : List Candidate) (w : Dated)
      → All (λ d. Any (λ c. c ≡ d) cs) ds
      → total_order_winner py cs ≡ none
      → IsLatest py ds w
      → ⊥
  unfolding total_order_winner
  undated cs ds w sup n q =
      let w_in = All_at (λ d. Any (λ c. c ≡ d) cs) w.candidate ds sup q.listed in
      let none_at =
        All_at (λ c. parse_time py c.at ≡ none) w.candidate cs (winner_none py none cs n).1 w_in in
      let time = q.time in cc

  -- Two lists with the same candidates, in whatever order and however often each, have winners of
  -- the same time, precedence and id, or neither has one.
  pub total_order_winner_unordered :
      (cs ds : List Candidate)
      → All (λ c. Any (λ d. d ≡ c) ds) cs
      → All (λ d. Any (λ c. c ≡ d) cs) ds
      → Option.map rank (total_order_winner py cs) ≡ Option.map rank (total_order_winner py ds)
  total_order_winner_unordered cs ds sub sup = elim (Option-cases (total_order_winner py cs)) [
    | inl n ↦ elim (Option-cases (total_order_winner py ds)) [
      | inl m ↦ rw (n, m) refl
      | inr (w, m) ↦
          let bad = undated cs ds w sup n (total_order_winner-IsLatest ds w m) in elim bad [ ]
    ]
    | inr (v, n) ↦ elim (Option-cases (total_order_winner py ds)) [
      | inl m ↦ let bad = undated ds cs v sub m (total_order_winner-IsLatest cs v n) in elim bad [ ]
      | inr (w, m) ↦
          rw (n, m)
            (ap some (
              IsLatest-rank sub sup (total_order_winner-IsLatest cs v n)
                (total_order_winner-IsLatest ds w m)))
    ]
  ]

pub last_activity_nothing :
    (py : Python)
    → last_activity py [] [] none
      ≡ (record { last_activity_at = null; event = "created"; last_activity_source_id = none })
unfolding last_activity reported_activity total_order_winner winner_from activity_candidates
    message_candidates council_candidates gate_candidates
last_activity_nothing py = refl
