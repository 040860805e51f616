-- ===== src/Work/View.antt =====
-- The console's list of work items: `in_default_view`, `queue_view` and `attention_counts` of
-- tools/clearwright_work.py.
pub mod Order
pub mod Laws
use clear_wright.Prelude.{
  ℕ, String, suc, List, [], ◌∷◌, Option, none, some, any, codes, codes_ltb, ◌-◌, Bool, true, false,
  not, ◌&&◌, ◌||◌, str_eq, if◌then◌else◌, ltb, ◌==◌, is_blank, strip, has_text, sort_by,
}
use clear_wright.Json.{Value, str, truthy}
use clear_wright.Work.{Python, shown}
use clear_wright.Work.State.{WorkState, RecordClass, governed_work}
use clear_wright.Work.Runner.{RunnerState}
use clear_wright.Work.Presentation.{
  PresentationState, needs_operator, blocked, running, waiting_on_claude, waiting_on_operator,
  recently_completed, stale, superseded_item, historical, is_current,
}

pub data Kind : Type 0 where
  packet rfi in_progress message : Kind

-- A derived work item.
pub record WorkItem : Type 0 where
  pub work_item_id : String
  pub kind : Kind
  pub status : WorkState
  pub title : Value
  pub created_at : Value
  pub claimed_by : Value
  pub claimed_at : Value
  pub last_activity_at : Value
  pub runner_state : RunnerState
  pub record_class : RecordClass
  pub presentation_state : PresentationState

-- `item.get("kind") != "message" or record_class == "governed_work"`
abbrev pub is_governed : WorkItem → Bool
is_governed it = governed it.kind it.record_class
  where
    governed : Kind → RecordClass → Bool
    governed message governed_work = true
    governed message _ = false
    governed _ _ = true

unfoldable pub in_default_view : WorkItem → Bool
in_default_view it = if is_governed it then is_current it.presentation_state else false

-- _SORT_RANK
abbrev pub sort_rank : PresentationState → ℕ
sort_rank needs_operator = 0
sort_rank running = 1
sort_rank blocked = 2
sort_rank waiting_on_operator = 3
sort_rank waiting_on_claude = 3
sort_rank recently_completed = 4
sort_rank stale = 5
sort_rank superseded_item = 6
sort_rank historical = 7

abbrev pub same_state : PresentationState → PresentationState → Bool
same_state a b = state_number a == state_number b
  where
    state_number : PresentationState → ℕ
    state_number needs_operator = 0
    state_number blocked = 1
    state_number running = 2
    state_number waiting_on_claude = 3
    state_number waiting_on_operator = 4
    state_number recently_completed = 5
    state_number stale = 6
    state_number superseded_item = 7
    state_number historical = 8

-- The codes of `_neg_time` of a text.
unfoldable pub neg_codes : List ℕ → List ℕ
neg_codes [] = []
neg_codes (c ∷ s) = (if ltb c 255 then 255 - c else c) ∷ neg_codes s

-- `_neg_time`: a value that is no text has no codes.
unfoldable pub neg_time : Value → List ℕ
neg_time (str s) = neg_codes (codes s)
neg_time _ = []

either_time : Value → Value → Value
either_time a b = if truthy a then a else b

sort_time : WorkItem → List ℕ
unfolding either_time
sort_time it = neg_time (either_time it.last_activity_at it.created_at)

-- The order of the sort keys.
unfoldable pub sorts_before : WorkItem → WorkItem → Bool
unfolding sort_time
sorts_before a b =
    let ra = sort_rank a.presentation_state in
    let rb = sort_rank b.presentation_state in
    ltb ra rb || (ra == rb && codes_ltb (sort_time a) (sort_time b))

-- The presentation states of a filter chip.
unfoldable pub filter_states : String → Option (List PresentationState)
filter_states mode =
    if str_eq mode "needs_attention"
    then some (needs_operator ∷ [])
    else if str_eq mode "running"
    then some (running ∷ [])
    else if str_eq mode "blocked"
    then some (blocked ∷ [])
    else if str_eq mode "stale"
    then some (stale ∷ [])
    else if str_eq mode "recently_completed"
    then some (recently_completed ∷ [])
    else none

in_states : WorkItem → Option (List PresentationState) → Bool
in_states it none = in_default_view it
in_states it (some states) = is_governed it && any (λ s. same_state it.presentation_state s) states

matches_query : Python → String → WorkItem → Bool
matches_query py q it =
    is_blank q
    || has_text q (py.casefold (shown py it.title))
    || has_text q (py.casefold it.work_item_id)

unfoldable pub keeps : String → WorkItem → Bool
unfolding in_states
keeps mode it =
    if str_eq mode "all"
    then true
    else if str_eq mode "current"
    then in_default_view it
    else in_states it (filter_states mode)

unfoldable pub in_scope : Python → String → String → WorkItem → Bool
unfolding matches_query
in_scope py mode q it = keeps mode it && matches_query py q it

unfoldable pub choose : (WorkItem → Bool) → List WorkItem → List WorkItem
choose p [] = []
choose p (it ∷ its) = let rest = choose p its in if p it then it ∷ rest else rest

unfoldable pub queue_view : Python → List WorkItem → String → String → List WorkItem
queue_view py items mode query =
    sort_by sorts_before (choose (in_scope py mode (py.casefold (strip query))) items)

pub record Counts : Type 0 where
  pub running : ℕ
  pub needs_operator : ℕ
  pub blocked : ℕ
  pub stale : ℕ

count_state : PresentationState → Counts → Counts
count_state running c = record {
  running = suc c.running;
  needs_operator = c.needs_operator;
  blocked = c.blocked;
  stale = c.stale;
}
count_state needs_operator c = record {
  running = c.running;
  needs_operator = suc c.needs_operator;
  blocked = c.blocked;
  stale = c.stale;
}
count_state blocked c = record {
  running = c.running;
  needs_operator = c.needs_operator;
  blocked = suc c.blocked;
  stale = c.stale;
}
count_state stale c = record {
  running = c.running;
  needs_operator = c.needs_operator;
  blocked = c.blocked;
  stale = suc c.stale;
}
count_state _ c = c

unfoldable pub attention_counts : List WorkItem → Counts
unfolding count_state
attention_counts [] = record { running = 0; needs_operator = 0; blocked = 0; stale = 0 }
attention_counts (it ∷ its) =
    let rest = attention_counts its in
    if is_governed it then count_state it.presentation_state rest else rest
