-- ===== src/SidebarOrder/Invariant.antt =====
-- What holds of the sidebar's order at any time.
use euphony.Prelude.{
  ℕ, ◌≡◌, ◌≤◌, refl, true, Option, some, none, String, List, [], ◌∷◌, map, arith, Option-cases, inl,
  inr,
}
use euphony.Order.Merging.{merge_items_in_current_order_lem}
use euphony.SidebarOrder.{
  OrderRequest, SidebarOrder, flush_sidebar_order, reorder_sidebar, saved, failed, finish, Event,
  dragged, answered, refused, step, run,
}

-- How the desired order and the request in flight fit together: either there is neither, or both,
-- and then a request of the current revision asks for the desired order.
abbrev pub Fits : Option OrderRequest → Option (List String) → ℕ → Type 0
Fits none none revision = Unit {0}
Fits none (some ids) revision = ⊥
Fits (some r) none revision = ⊥
Fits (some r) (some ids) revision = (r.revision ≤ revision) × (r.revision ≡ revision → ids ≡ r.ids)

module _ {A : Type 0} (id : A → String) where
  -- A desired order is the order that is shown.
  abbrev pub IsShown : List A → Option (List String) → Type 0
  IsShown items none = Unit {0}
  IsShown items (some ids) = map id items ≡ ids

  pub record IsSynced (s : SidebarOrder A) : Type 0 where
    pub online : s.has_api ≡ true
    pub fits : Fits s.in_flight s.desired_ids s.revision
    pub shown : IsShown s.items s.desired_ids

  -- What is left to flush: the same without a request in flight.
  flush-IsSynced :
      (s : SidebarOrder A)
      → s.has_api ≡ true
      → IsShown s.items s.desired_ids
      → s.in_flight ≡ none
      → IsSynced (flush_sidebar_order id s)
  unfolding flush_sidebar_order
  flush-IsSynced s api h e = ground arith

  reorder_sidebar-IsSynced :
      (ids : List String) (s : SidebarOrder A) → IsSynced s → IsSynced (reorder_sidebar id ids s)
  unfolding reorder_sidebar
  reorder_sidebar-IsSynced ids s v = ground arith

  finish-IsSynced :
      (s : SidebarOrder A)
      → s.has_api ≡ true
      → IsShown s.items s.desired_ids
      → IsSynced (finish id s)
  unfolding finish
  finish-IsSynced s api h = flush-IsSynced (record s { in_flight = none }) api h refl

  answered-IsSynced :
      (response : List A) (s : SidebarOrder A)
      → IsSynced s
      → IsSynced (step id (answered response) s)
  unfolding step saved
  answered-IsSynced response s v = elim (Option-cases s.in_flight) [
    | inl e ↦ rw (e, step) v
    | inr (r, e) ↦
        rw (e, step)
          (finish-IsSynced (saved id r response s) (ground arith)
            (ground (arith, merge_items_in_current_order_lem id s.items response)))
  ]

  refused-IsSynced : (s : SidebarOrder A) → IsSynced s → IsSynced (step id refused s)
  unfolding step failed
  refused-IsSynced s v = elim (Option-cases s.in_flight) [
    | inl e ↦ rw (e, step) v
    | inr (r, e) ↦ rw (e, step) (finish-IsSynced (failed id r s) (ground arith) (ground arith))
  ]

  -- Every event keeps this: with no request in flight there is no order left to send, a request of
  -- the current revision asks for the desired order, and a desired order is the one that is shown.
  pub step-IsSynced : (e : Event A) (s : SidebarOrder A) → IsSynced s → IsSynced (step id e s)
  unfolding step
  step-IsSynced (dragged ids) s v = reorder_sidebar-IsSynced ids s v
  step-IsSynced (answered response) s v = answered-IsSynced response s v
  step-IsSynced refused s v = refused-IsSynced s v

  -- So it holds after any sequence of drags and answers.
  pub run-IsSynced :
      (es : List (Event A)) (s : SidebarOrder A) → IsSynced s → IsSynced (run id es s)
  unfolding run
  run-IsSynced [] s v = v
  run-IsSynced (e ∷ es) s v = run-IsSynced es (step id e s) (step-IsSynced e s v)
