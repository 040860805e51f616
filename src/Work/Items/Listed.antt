-- ===== src/Work/Items/Listed.antt =====
-- No actionable message vanishes from the derived list.
use clear_wright.Prelude.{
  ℕ, String, ◌≡◌, inl, inr, refl, arith, Bool, true, false, not, ◌||◌, List, [], ◌∷◌, ◌++◌, Any,
  subst, Bool-cases, Any-sort_by,
}
use clear_wright.Json.{Value}
use clear_wright.Identity.{work_item_id_for}
use clear_wright.Work.{Python}
use clear_wright.Work.State.{is_terminal}
use clear_wright.Work.View.{WorkItem}
use clear_wright.Work.Items.{
  Records, Noted, origins, context, state_of, signals_of, message_item, message_items, packet_items,
  all_items, nonterminal, kind_before, derive_work_items, item_warnings, warned,
}

Any-append_right : {A : Type 0} (P : A → Type 0) (xs ys : List A) → Any P ys → Any P (xs ++ ys)
Any-append_right P [] ys m = m
Any-append_right P (x ∷ xs) ys m = inr (Any-append_right P xs ys m)

Any-nonterminal :
    (P : WorkItem → Type 0) (its : List WorkItem)
    → ((it : WorkItem) → P it → is_terminal it.status ≡ false)
    → Any P its
    → Any P (nonterminal its)
unfolding nonterminal
Any-nonterminal P [] h m = m
Any-nonterminal P (it ∷ its) h m = elim m [
  | inl p ↦ rw (h it p) (inl p)
  | inr n ↦ elim (Bool-cases (is_terminal it.status)) [
    | inl t ↦ rw (t) (Any-nonterminal P its h n)
    | inr t ↦ rw (t) (inr (Any-nonterminal P its h n))
  ]
]

module _ (py : Python) (at_least_two : Value → Bool) (now : ℕ) (recs : Records) where
  -- The item of this message, in its derived state.
  pub record IsItemOf (id : String) (it : WorkItem) : Type 0 where
    pub work_item_id : it.work_item_id ≡ work_item_id_for id
    pub status : it.status ≡ state_of py at_least_two now recs (context py at_least_two now recs id)

  item_IsItemOf :
      (id : String) (is_warned : Bool)
      → IsItemOf id
          (message_item py at_least_two now recs (context py at_least_two now recs id) is_warned)
  unfolding message_item signals_of context
  item_IsItemOf id is_warned = record { work_item_id = refl; status = refl }

  listed_item :
      (notes : List Noted) (id : String) (ids : List String)
      → Any (λ x. x ≡ id) ids
      → Any (IsItemOf id) (message_items py at_least_two now recs notes ids).1
  unfolding message_items
  listed_item notes id [] m = elim m [ ]
  listed_item notes id (x ∷ ids) m =
      let c = context py at_least_two now recs x in
      let seen = notes ++ item_warnings py at_least_two now recs c in
      elim m [
        | inl e ↦ inl (
            subst
              (λ y.
                IsItemOf y (message_item py at_least_two now recs c (warned c.work_item_id seen)))
              e (item_IsItemOf x (warned c.work_item_id seen)))
        | inr n ↦ inr (listed_item seen id ids n)
      ]

  -- Every origin has an item of its own in the derived list: in the list of all items, and in that of
  -- the open items if its state is not terminal.
  pub derive_work_items_listed :
      (everything : Bool) (id : String)
      → Any (λ x. x ≡ id) (origins py at_least_two now recs)
      → (everything
          || not (
              is_terminal
                (state_of py at_least_two now recs (context py at_least_two now recs id))))
        ≡ true
      → Any (IsItemOf id) (derive_work_items py at_least_two now recs everything)
  unfolding derive_work_items all_items
  derive_work_items_listed everything id m h =
      let listed =
        Any-append_right (IsItemOf id) (packet_items py at_least_two now recs recs.packets)
          (message_items py at_least_two now recs [] (origins py at_least_two now recs)).1
          (listed_item [] id (origins py at_least_two now recs) m) in
      elim (Bool-cases everything) [
        | inl e ↦
            rw (e)
              (Any-sort_by kind_before (IsItemOf id) (all_items py at_least_two now recs) listed)
        | inr e ↦
            let open_state : is_terminal
                  (state_of py at_least_two now recs (context py at_least_two now recs id))
                ≡ false =
              ground arith in
            rw (e) (
              Any-sort_by kind_before (IsItemOf id)
                (nonterminal (all_items py at_least_two now recs))
                (Any-nonterminal (IsItemOf id) (all_items py at_least_two now recs)
                  (λ it p. rw (p.status) open_state) listed))
      ]
