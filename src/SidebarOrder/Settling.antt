-- ===== src/SidebarOrder/Settling.antt =====
-- The sidebar's order with a server that saves what it is asked.
use euphony.Prelude.{
  ◌≡◌, refl, sym, ◌∙◌, some, none, String, List, map, eqb, arith, Option-cases, Bool-cases, inl,
  inr, IsNodup, ◌≢◌,
}
use euphony.Order.{merge_ordered_items}
use euphony.Order.Merging.{merge_items_in_current_order_lem, merge_ordered_items_lem}
use euphony.SidebarOrder.{
  OrderRequest, SidebarOrder, flush_sidebar_order, saved, finish, answered, step,
}
use euphony.SidebarOrder.Invariant.{IsSynced, step-IsSynced}

-- `respond` is the server: it returns the items of the ids that it is asked to save, in their order.
module _ {A : Type 0} (id : A → String) (respond : List String → List A)
    (echoes : (ids : List String) → map id (respond ids) ≡ ids) where
  -- The answer to the request in flight, if there is one.
  pub answer : SidebarOrder A → SidebarOrder A
  answer s = elim s.in_flight [ none ↦ s | some r ↦ step id (answered (respond r.ids)) s ]

  -- The state has nothing to send and shows these ids.
  pub record IsSettled (ids : List String) (s : SidebarOrder A) : Type 0 where
    pub idle : s.in_flight ≡ none
    pub saved_all : s.desired_ids ≡ none
    pub shows : map id s.items ≡ ids

  answer_current :
      (s : SidebarOrder A) (r : OrderRequest)
      → IsSynced id s
      → IsNodup (map id s.items)
      → s.in_flight ≡ some r
      → s.revision ≡ r.revision
      → IsSettled (map id s.items) (answer s)
  unfolding answer step finish saved flush_sidebar_order
  answer_current s r v n e current =
      let wanted : s.desired_ids ≡ some r.ids = ground arith in
      let shown : map id s.items ≡ r.ids = ground arith in
      let same : map id (respond r.ids) ≡ map id s.items = echoes r.ids ∙ sym shown in
      let (order, _) =
        merge_ordered_items_lem id s.items (respond r.ids) (rw same n) (λ a h. rw same h)
          (λ a h. rw same at h) in
      let ids : map id (merge_ordered_items id s.items (respond r.ids)) ≡ map id s.items =
        order ∙ same in
      ground (arith, ids)

  answer_newer :
      (s : SidebarOrder A) (r : OrderRequest)
      → IsSynced id s
      → s.in_flight ≡ some r
      → s.revision ≢ r.revision
      → let t = answer s in
        (map id t.items ≡ map id s.items)
        × ((q : OrderRequest) × (t.in_flight ≡ some q) × (t.revision ≡ q.revision))
  unfolding answer step finish saved flush_sidebar_order
  answer_newer s r v e newer =
      let (order, _) = merge_items_in_current_order_lem id s.items (respond r.ids) in
      elim (Option-cases s.desired_ids) [
        | inl none_left ↦ absurd (ground arith)
        | inr (ids, wanted) ↦ (
          ground (arith, order),
          (record { ids = ids; revision = s.revision }, ground arith, ground arith),
        )
      ]

  answer_idle : (s : SidebarOrder A) → s.in_flight ≡ none → answer s ≡ s
  unfolding answer
  answer_idle s e = ground arith

  IsSettled-again :
      (ids : List String) (s : SidebarOrder A) → IsSettled ids s → IsSettled ids (answer s)
  IsSettled-again ids s v = rw (answer_idle s v.idle) v

  answer-IsSynced : (s : SidebarOrder A) → IsSynced id s → IsSynced id (answer s)
  unfolding answer
  answer-IsSynced s v = elim (Option-cases s.in_flight) [
    | inl e ↦ rw (e, answer) v
    | inr (r, e) ↦ rw (e, answer) (step-IsSynced id (answered (respond r.ids)) s v)
  ]

  idle-IsSettled :
      (s : SidebarOrder A) → IsSynced id s → s.in_flight ≡ none → IsSettled (map id s.items) s
  idle-IsSettled s v e = record {
    idle = e;
    saved_all = elim (Option-cases s.desired_ids) [
      | inl nothing ↦ nothing
      | inr (ids, wanted) ↦ absurd (ground arith)
    ];
    shows = refl;
  }

  -- If the server echoes every order that it is asked to save, then from a state in which
  -- `IsSynced` holds, as it does after any events, and whose items have distinct ids, two answers
  -- are enough to settle: the order that the user sees is kept, no request is left in flight and no
  -- order is left to send.
  pub answer_twice-IsSettled :
      (s : SidebarOrder A)
      → IsSynced id s
      → IsNodup (map id s.items)
      → IsSettled (map id s.items) (answer (answer s))
  answer_twice-IsSettled s v n = elim (Option-cases s.in_flight) [
    | inl e ↦ IsSettled-again _ _ (IsSettled-again _ s (idle-IsSettled s v e))
    | inr (r, e) ↦ elim (Bool-cases (eqb s.revision r.revision)) [
      | inl current ↦ IsSettled-again _ (answer s) (answer_current s r v n e (ground arith))
      | inr newer ↦
          let (order, (q, f, now)) = answer_newer s r v e (ground arith) in
          let done = answer_current (answer s) q (answer-IsSynced s v) (rw order n) f now in
          rw order at done
    ]
  ]
