-- ===== src/Work/View/Order.antt =====
-- The order of the console's list.
use clear_wright.Prelude.{
  Bool, suc, ltb, ◌||◌, ◌&&◌, ◌==◌, any, if◌then◌else◌, ℕ, String, ◌<◌, ◌≡◌, refl, arith, true,
  false, List, [], ◌∷◌, All, length, codes, codes_ltb, codes_ltb_trans, codes_ltb_total,
  codes_ltb_irrefl, text_ltb, is_blank,
}
use clear_wright.Json.{Value, null, str, truthy}
use clear_wright.Work.Presentation.{
  PresentationState, needs_operator, blocked, running, waiting_on_claude, waiting_on_operator,
  recently_completed, stale, superseded_item, historical,
}
use clear_wright.Work.View.{
  same_state, WorkItem, sort_rank, neg_codes, neg_time, either_time, sort_time, sorts_before,
}

pub sorts_before_asym : (a b : WorkItem) → sorts_before a b ≡ true → sorts_before b a ≡ false
unfolding sorts_before
sorts_before_asym a b h = ground (
  arith,
  codes_ltb_trans (sort_time a) (sort_time b) (sort_time a),
  codes_ltb_irrefl (sort_time a),
)

pub not_sorts_before_trans :
    (a b c : WorkItem)
    → sorts_before b a ≡ false
    → sorts_before c b ≡ false
    → sorts_before c a ≡ false
unfolding sorts_before
not_sorts_before_trans a b c p q = ground (
  arith,
  codes_ltb_trans (sort_time c) (sort_time a) (sort_time b),
  codes_ltb_total (sort_time a) (sort_time b),
)

-- Every code is below 255.
abbrev pub IsLatin : List ℕ → Type 0
IsLatin = All (λ c. c < 255)

neg_codes_reverse :
    (s t : List ℕ)
    → IsLatin s
    → IsLatin t
    → length s ≡ length t
    → codes_ltb (neg_codes s) (neg_codes t) ≡ codes_ltb t s
unfolding neg_codes codes_ltb
neg_codes_reverse [] [] p q l = refl
neg_codes_reverse [] (d ∷ t) p q l = cc
neg_codes_reverse (c ∷ s) [] p q l = cc
neg_codes_reverse (c ∷ s) (d ∷ t) p q l =
    ground (arith, neg_codes_reverse s t p.1 q.1 (omega (arith, l)))

-- Of two items of one rank whose last activities are texts of one length with codes below 255, the
-- one with the greater text goes first.
pub sorts_before_newest :
    (a b : WorkItem) (s t : String)
    → sort_rank a.presentation_state ≡ sort_rank b.presentation_state
    → a.last_activity_at ≡ str s
    → b.last_activity_at ≡ str t
    → is_blank s ≡ false
    → is_blank t ≡ false
    → length (codes s) ≡ length (codes t)
    → IsLatin (codes s)
    → IsLatin (codes t)
    → sorts_before a b ≡ text_ltb t s
unfolding sorts_before sort_time either_time neg_time text_ltb
sorts_before_newest a b s t r p q x y l m n =
    ground (arith, neg_codes_reverse (codes s) (codes t) m n l)

timed_codes : (t : String) → is_blank t ≡ false → codes_ltb [] (neg_codes (codes t)) ≡ true
unfolding codes_ltb neg_codes
timed_codes String.[] h = cc
timed_codes (String.◌∷◌ c t) h = refl

-- Of two items of one rank, the one that has neither an activity nor a time of creation goes before
-- the one whose last activity is a text that is not empty.
pub sorts_before_untimed :
    (a b : WorkItem) (t : String)
    → sort_rank a.presentation_state ≡ sort_rank b.presentation_state
    → a.last_activity_at ≡ null
    → a.created_at ≡ null
    → b.last_activity_at ≡ str t
    → is_blank t ≡ false
    → sorts_before a b ≡ true
unfolding sorts_before sort_time either_time neg_time neg_codes codes_ltb
sorts_before_untimed a b t r p c q y = ground (arith, timed_codes t y)

-- What needs the operator goes first, then what runs, what is blocked, what waits for an answer of
-- either side, what was completed recently, what is stale, what is superseded, and the rest.
abbrev pub attention_order : List (List PresentationState)
attention_order =
    (needs_operator ∷ [])
    ∷ (running ∷ [])
    ∷ (blocked ∷ [])
    ∷ (waiting_on_operator ∷ waiting_on_claude ∷ [])
    ∷ (recently_completed ∷ [])
    ∷ (stale ∷ [])
    ∷ (superseded_item ∷ [])
    ∷ (historical ∷ [])
    ∷ []

-- The number of groups before that of the state.
abbrev pub groups_before : List (List PresentationState) → PresentationState → ℕ
groups_before [] s = 0
groups_before (g ∷ gs) s =
    let rest = groups_before gs s in if any (λ x. same_state s x) g then 0 else suc rest

-- The text of the last activity, or of the creation where there was none.
abbrev pub text_of_time : Value → String
text_of_time (str s) = s
text_of_time _ = ""

abbrev pub item_time : WorkItem → Value
item_time it = if truthy it.last_activity_at then it.last_activity_at else it.created_at

-- The item has a time of that length, in characters below 255.
abbrev pub IsTimed : ℕ → WorkItem → Type 0
IsTimed n it = (s : String) × (item_time it ≡ str s) × (length (codes s) ≡ n) × IsLatin (codes s)

-- The first item is in an earlier group, or in the same one and newer.
abbrev pub comes_before : WorkItem → WorkItem → Bool
comes_before a b =
    let ga = groups_before attention_order a.presentation_state in
    let gb = groups_before attention_order b.presentation_state in
    ltb ga gb || (ga == gb && text_ltb (text_of_time (item_time b)) (text_of_time (item_time a)))

rank_groups : (s : PresentationState) → groups_before attention_order s ≡ sort_rank s
rank_groups needs_operator = refl
rank_groups blocked = refl
rank_groups running = refl
rank_groups waiting_on_claude = refl
rank_groups waiting_on_operator = refl
rank_groups recently_completed = refl
rank_groups stale = refl
rank_groups superseded_item = refl
rank_groups historical = refl

pub sorts_before-comes_before :
    (n : ℕ) (a b : WorkItem) → IsTimed n a → IsTimed n b → sorts_before a b ≡ comes_before a b
unfolding sorts_before sort_time either_time neg_time text_ltb
sorts_before-comes_before n a b (s, p, k, l) (t, q, j, m) = rw (
  rank_groups a.presentation_state,
  rank_groups b.presentation_state,
  p,
  q,
  neg_codes_reverse (codes s) (codes t) l m (omega (arith, k, j)),
)
