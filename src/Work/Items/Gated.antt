-- ===== src/Work/Items/Gated.antt =====
-- What the derived items show: gated work is never hidden, and a claim alone is not a run.
use clear_wright.Prelude.{
  ℕ, ◌≡◌, ◌≢◌, refl, arith, Bool, true, false, not, List, [], Option, none, some, str_eq,
}
use clear_wright.Json.{Value, Fields, get}
use clear_wright.Work.{Python, is_text}
use clear_wright.Work.Activity.{has_lifecycle}
use clear_wright.Work.Activity.Latest.{last_activity_nothing}
use clear_wright.Work.State.{
  is_recognized, select, operator_required, stripped, governed_work, derive_state,
}
use clear_wright.Work.State.Laws.{derive_state_gated, classify_record_lifecycle}
use clear_wright.Work.Runner.{active_runner}
use clear_wright.Work.Runner.Laws.{runner_state_active}
use clear_wright.Work.Presentation.{needs_operator, running}
use clear_wright.Work.Presentation.Laws.{needs_operator_shown, presentation_state_running}
use clear_wright.Work.View.{in_default_view}
use clear_wright.Work.Items.{
  Records, Context, state_of, activity_records, recent_run, is_active, signals_of, message_item,
  origin_fields,
}

lifecycle_of_gate :
    (bound councils : List Fields) (gate : Fields) (claim : Option Fields)
    → has_lifecycle bound councils (some gate) claim ≡ true
unfolding has_lifecycle
lifecycle_of_gate bound councils gate claim = refl

module _ (py : Python) (at_least_two : Value → Bool) (now : ℕ) (recs : Records) where
  -- An item whose origin is on record and is no chat, with an open gate and without a recognized
  -- closure, requires the operator, is shown so and stands in the default view.
  pub message_item_gated :
      (c : Context) (origin gate : Fields) (is_warned : Bool)
      → c.origin ≡ some origin
      → c.gate ≡ some gate
      → select (is_recognized py) c.bound ≡ []
      → str_eq (stripped py origin "intent") "chat" ≡ false
      → ((message_item py at_least_two now recs c is_warned).status ≡ operator_required)
        × ((message_item py at_least_two now recs c is_warned).presentation_state ≡ needs_operator)
        × (in_default_view (message_item py at_least_two now recs c is_warned) ≡ true)
  unfolding message_item signals_of state_of in_default_view has_lifecycle origin_fields
  message_item_gated c origin gate is_warned o g r i =
      let state : state_of py at_least_two now recs c ≡ operator_required =
        rw (o, g) (derive_state_gated py origin gate c.bound c.councils r) in
      let shown_as =
        needs_operator_shown py now (signals_of py at_least_two now recs c is_warned)
          (rw (state) refl) (rw (state) refl) in
      let class : (message_item py at_least_two now recs c is_warned).record_class ≡ governed_work =
        rw (o, g)
          (classify_record_lifecycle py origin
            (derive_state py (some origin) c.bound (some gate) c.councils) i) in
      (state, shown_as, rw (class, shown_as) refl)

  no_run :
      (c : Context)
      → select
          (λ m. not (is_text (get m "status") "claimed"))
          (activity_records py at_least_two now recs c)
        ≡ []
      → c.councils ≡ []
      → c.gate ≡ none
      → recs.is_running c.work_item_id ≡ false
      → recs.is_running c.thread_id ≡ false
      → is_active py at_least_two now recs c ≡ false
  unfolding is_active recent_run
  no_run c a k g w t = rw (a, k, g, w, t) (rw (last_activity_nothing py) (ground arith))

  -- A claim alone is not a run: an item that has no record but its origin and claims, no council and
  -- no gate, and of which no run is reported, is shown neither as running nor with an active runner.
  pub message_item_claim_only :
      (c : Context) (is_warned : Bool)
      → select
          (λ m. not (is_text (get m "status") "claimed"))
          (activity_records py at_least_two now recs c)
        ≡ []
      → c.councils ≡ []
      → c.gate ≡ none
      → recs.is_running c.work_item_id ≡ false
      → recs.is_running c.thread_id ≡ false
      → ((message_item py at_least_two now recs c is_warned).presentation_state ≢ running)
        × ((message_item py at_least_two now recs c is_warned).runner_state ≢ active_runner)
  unfolding message_item signals_of
  message_item_claim_only c is_warned a k g w t =
      let idle = no_run c a k g w t in
      (
        λ h.
            let run =
              (presentation_state_running py now (signals_of py at_least_two now recs c is_warned)
                h).1 in
            cc,
        λ h. runner_state_active py _ _ (is_active py at_least_two now recs c) _ _ _ _ now idle h,
      )
