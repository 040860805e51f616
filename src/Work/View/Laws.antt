-- ===== src/Work/View/Laws.antt =====
-- What the console lists and counts.
use mathlib.Core.List.{Perm}
use clear_wright.Prelude.{
  ℕ, false, All, All-sort_by, sort_by, Bool-cases, inl, inr, String, suc, ◌+◌, ◌≤◌, ◌≡◌, refl, sym,
  ap, ◌∙◌, ◌&&◌, if◌then◌else◌, length-sort_by, arith, Bool, List, [], ◌∷◌, length, strip, is_space,
  sort_by-Perm, sort_by-IsInOrder, IsInOrder,
}
use clear_wright.Work.{Python}
use clear_wright.Work.View.{
  WorkItem, is_governed, sorts_before, in_scope, keeps, in_states, matches_query, filter_states,
  choose, queue_view, Counts, count_state, attention_counts, same_state,
}
use clear_wright.Work.Presentation.{
  PresentationState, needs_operator, blocked, running, waiting_on_claude, waiting_on_operator,
  recently_completed, stale, superseded_item, historical,
}
use clear_wright.Work.View.Order.{
  sorts_before_asym, not_sorts_before_trans, sorts_before-comes_before, IsTimed, comes_before,
}

All-choose :
    (P : WorkItem → Type 0) (p : WorkItem → Bool) (its : List WorkItem)
    → All P its
    → All P (choose p its)
unfolding choose
All-choose P p [] a = tt
All-choose P p (it ∷ its) a = elim (Bool-cases (p it)) [
  | inl e ↦ rw (e, choose) (a.0, All-choose P p its a.1)
  | inr e ↦ rw (e, choose) (All-choose P p its a.1)
]

module _ (n : ℕ) where
  first_row :
      (a : WorkItem) (its : List WorkItem)
      → IsTimed n a
      → All (IsTimed n) its
      → All (λ b. sorts_before b a ≡ false) its
      → All (λ b. comes_before b a ≡ false) its
  first_row a [] t ts h = tt
  first_row a (b ∷ its) t ts h =
      (sym (sorts_before-comes_before n b a ts.0 t) ∙ h.0, first_row a its t ts.1 h.1)

  sorted-IsInOrder :
      (its : List WorkItem)
      → All (IsTimed n) its
      → IsInOrder sorts_before its
      → IsInOrder comes_before its
  sorted-IsInOrder [] t h = tt
  sorted-IsInOrder (a ∷ its) t h = (first_row a its t.0 t.1 h.0, sorted-IsInOrder its t.1 h.1)

-- Where every item has a time and the times are texts of one length with characters below 255, the
-- list is a rearrangement of the items in scope, and no item comes before an earlier one in the order
-- of attention, and the newer first where the attention is the same.
pub queue_view-IsInOrder :
    (py : Python) (items : List WorkItem) (mode query : String) (n : ℕ)
    → All (IsTimed n) items
    → Perm
        (choose (in_scope py mode (py.casefold (strip query))) items)
        (queue_view py items mode query)
      × IsInOrder comes_before (queue_view py items mode query)
unfolding queue_view
queue_view-IsInOrder py items mode query n timed =
    let selected = choose (in_scope py mode (py.casefold (strip query))) items in
    let kept = All-choose (IsTimed n) (in_scope py mode (py.casefold (strip query))) items timed in
    (
      sort_by-Perm sorts_before selected,
      sorted-IsInOrder n (sort_by sorts_before selected)
          ((All-sort_by sorts_before (IsTimed n) selected).0 kept)
          (sort_by-IsInOrder sorts_before not_sorts_before_trans (λ a b. sorts_before_asym b a)
            selected),
    )

-- The four counts together are at most the number of the items.
pub attention_counts_bound :
    (items : List WorkItem)
    → (attention_counts items).running
        + (attention_counts items).needs_operator
        + (attention_counts items).blocked
        + (attention_counts items).stale
      ≤ length items
unfolding attention_counts count_state
attention_counts_bound [] = omega arith
attention_counts_bound (it ∷ its) = ground (arith, attention_counts_bound its)

count_state_cases :
    (s : PresentationState) (c : Counts)
    → ((count_state s c).needs_operator
        ≡ (if same_state s needs_operator then suc c.needs_operator else c.needs_operator))
      × ((count_state s c).running ≡ (if same_state s running then suc c.running else c.running))
      × ((count_state s c).blocked ≡ (if same_state s blocked then suc c.blocked else c.blocked))
      × ((count_state s c).stale ≡ (if same_state s stale then suc c.stale else c.stale))
unfolding count_state
count_state_cases needs_operator c = (refl, refl, refl, refl)
count_state_cases blocked c = (refl, refl, refl, refl)
count_state_cases running c = (refl, refl, refl, refl)
count_state_cases waiting_on_claude c = (refl, refl, refl, refl)
count_state_cases waiting_on_operator c = (refl, refl, refl, refl)
count_state_cases recently_completed c = (refl, refl, refl, refl)
count_state_cases stale c = (refl, refl, refl, refl)
count_state_cases superseded_item c = (refl, refl, refl, refl)
count_state_cases historical c = (refl, refl, refl, refl)

-- The items that a chip of one state shows.
shows : PresentationState → WorkItem → Bool
shows s it = is_governed it && same_state it.presentation_state s

attention_counts-choose :
    (items : List WorkItem)
    → ((attention_counts items).needs_operator ≡ length (choose (shows needs_operator) items))
      × ((attention_counts items).running ≡ length (choose (shows running) items))
      × ((attention_counts items).blocked ≡ length (choose (shows blocked) items))
      × ((attention_counts items).stale ≡ length (choose (shows stale) items))
unfolding attention_counts choose shows
attention_counts-choose [] = (refl, refl, refl, refl)
attention_counts-choose (it ∷ its) =
    let (n, r, b, s) = attention_counts-choose its in
    let (cn, cr, cb, cs) = count_state_cases it.presentation_state (attention_counts its) in
    (ground arith, ground arith, ground arith, ground arith)

choose_same :
    (p q : WorkItem → Bool) (its : List WorkItem)
    → ((it : WorkItem) → p it ≡ q it)
    → choose p its ≡ choose q its
unfolding choose
choose_same p q [] h = refl
choose_same p q (it ∷ its) h = ground (arith, h it, choose_same p q its h)

module _ (py : Python) (h : py.casefold "" ≡ "") where
  chip_list :
      (mode : String) (s : PresentationState) (items : List WorkItem)
      → ((it : WorkItem) → in_scope py mode "" it ≡ shows s it)
      → length (queue_view py items mode "") ≡ length (choose (shows s) items)
  unfolding queue_view strip is_space
  chip_list mode s items e = rw (h) (
      length-sort_by sorts_before (choose (in_scope py mode "") items)
      ∙ ap length (choose_same (in_scope py mode "") (shows s) items e))

-- The counts are the lengths of the lists that the chips of the four states show, where folding the
-- case of the empty text leaves it empty.
pub attention_counts-queue_view :
    (py : Python) (items : List WorkItem)
    → py.casefold "" ≡ ""
    → ((attention_counts items).needs_operator ≡ length (queue_view py items "needs_attention" ""))
      × ((attention_counts items).running ≡ length (queue_view py items "running" ""))
      × ((attention_counts items).blocked ≡ length (queue_view py items "blocked" ""))
      × ((attention_counts items).stale ≡ length (queue_view py items "stale" ""))
unfolding in_scope keeps in_states matches_query filter_states shows
attention_counts-queue_view py items h =
    let (n, r, b, s) = attention_counts-choose items in
    (
      n ∙ sym (chip_list py h "needs_attention" needs_operator items (λ it. ground arith)),
      r ∙ sym (chip_list py h "running" running items (λ it. ground arith)),
      b ∙ sym (chip_list py h "blocked" blocked items (λ it. ground arith)),
      s ∙ sym (chip_list py h "stale" stale items (λ it. ground arith)),
    )
