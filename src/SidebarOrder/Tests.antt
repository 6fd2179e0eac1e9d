-- ===== src/SidebarOrder/Tests.antt =====
-- Tests of the sidebar's order, and the theorems about it and about reordering at concrete inputs.
use mathlib.Core.List.{Perm}
use euphony.Prelude.{
  ◌≡◌, refl, true, false, some, none, String, List, [], ◌∷◌, ◌++◌, filter, includes, not, unique,
  map, arith, ap,
}
use euphony.Order.{reorder_items_by_ids, merge_items_in_current_order, merge_ordered_items}
use euphony.Order.Permutation.{reorder_items_by_ids-perm}
use euphony.Order.Listing.{reorder_items_by_ids_ids}
use euphony.Order.Merging.{AllFresh, merge_items_in_current_order_lem, merge_ordered_items_lem}
use euphony.SidebarOrder.{
  Project, SidebarOrder, dragged, answered, refused, run, reorder_sidebar_projects,
}
use euphony.SidebarOrder.Invariant.{IsSynced, run-IsSynced}
use euphony.SidebarOrder.Settling.{IsSettled, answer, answer_twice-IsSettled}

abbrev id : String → String
id x = x

abbrev abc : List String
abc = "a" ∷ "b" ∷ "c" ∷ []

reordered : reorder_items_by_ids id abc ("c" ∷ "z" ∷ "c" ∷ "a" ∷ []) ≡ "c" ∷ "a" ∷ "b" ∷ []
unfolding reorder_items_by_ids
reordered = refl

abbrev idle : SidebarOrder String
idle = record {
  has_api = true;
  endpoint_available = true;
  items = abc;
  committed_ids = none;
  desired_ids = none;
  in_flight = none;
  revision = 0;
  request_error = false;
}

idle-IsSynced : IsSynced id idle
idle-IsSynced = record { online = refl; fits = tt; shown = tt }

-- A refused request brings the last saved order back.
rolled_back : (run id (dragged ("c" ∷ []) ∷ refused ∷ []) idle).items ≡ abc
unfolding run reorder_items_by_ids
rolled_back = refl

-- A drag while a request is in flight is sent when the answer comes.
sent_later :
    (run id
      (dragged ("c" ∷ []) ∷ dragged ("b" ∷ []) ∷ answered ("c" ∷ "a" ∷ "b" ∷ []) ∷ [])
      idle).in_flight
    ≡ some (record { ids = "b" ∷ "c" ∷ "a" ∷ []; revision = 2 })
unfolding run reorder_items_by_ids
sent_later = refl

abbrev project : String → Project
project name = record { id = name; path = "/"; created_at = ""; order = none }

projects_dragged :
    (reorder_sidebar_projects ("q" ∷ []) (record {
      has_api = true;
      endpoint_available = true;
      items = project "p" ∷ project "q" ∷ [];
      committed_ids = none;
      desired_ids = none;
      in_flight = none;
      revision = 0;
      request_error = false;
    })).items
    ≡ project "q" ∷ project "p" ∷ []
unfolding reorder_sidebar_projects reorder_items_by_ids
projects_dragged = refl

reorder_items_by_ids-perm_example : Perm (reorder_items_by_ids id abc ("c" ∷ "z" ∷ [])) abc
reorder_items_by_ids-perm_example =
    reorder_items_by_ids-perm id abc ("c" ∷ "z" ∷ []) (refl, (refl, (refl, tt)))

reorder_items_by_ids_ids_example :
    map id (reorder_items_by_ids id abc ("c" ∷ "z" ∷ []))
    ≡ unique (filter (includes (map id abc)) ("c" ∷ "z" ∷ []))
      ++ filter (λ key. not (includes ("c" ∷ "z" ∷ []) key)) (map id abc)
reorder_items_by_ids_ids_example = reorder_items_by_ids_ids id abc ("c" ∷ "z" ∷ [])

merge_items_in_current_order_lem_example :
    (map id (merge_items_in_current_order id abc ("c" ∷ [])) ≡ map id abc)
    × AllFresh id ("c" ∷ []) (merge_items_in_current_order id abc ("c" ∷ []))
merge_items_in_current_order_lem_example = merge_items_in_current_order_lem id abc ("c" ∷ [])

abbrev ab : List String
ab = "a" ∷ "b" ∷ []

abbrev ba : List String
ba = "b" ∷ "a" ∷ []

merge_ordered_items_lem_example :
    (map id (merge_ordered_items id ab ba) ≡ map id ba)
    × AllFresh id ba (merge_ordered_items id ab ba)
merge_ordered_items_lem_example =
    merge_ordered_items_lem id ab ba (refl, (refl, tt)) (λ a. ground arith) (λ a. ground arith)

run-IsSynced_example : IsSynced id (run id (dragged ("c" ∷ []) ∷ refused ∷ []) idle)
run-IsSynced_example = run-IsSynced id (dragged ("c" ∷ []) ∷ refused ∷ []) idle idle-IsSynced

abbrev busy : SidebarOrder String
busy = record idle {
  desired_ids = some abc;
  in_flight = some (record { ids = "b" ∷ "a" ∷ "c" ∷ []; revision = 1 });
  revision = 2;
}

busy-IsSynced : IsSynced id busy
busy-IsSynced = record {
  online = refl;
  fits = (omega arith, λ e. absurd (omega arith));
  shown = refl;
}

-- A server that returns the ids themselves.
echoed : (ids : List String) → map id ids ≡ ids
echoed [] = refl
echoed (x ∷ ids) = ap (◌∷◌ x) (echoed ids)

answer_twice-IsSettled_example :
    IsSettled id
      (λ ids. ids)
      echoed
      abc
      (answer id (λ ids. ids) echoed (answer id (λ ids. ids) echoed busy))
answer_twice-IsSettled_example =
    answer_twice-IsSettled id (λ ids. ids) echoed busy busy-IsSynced (refl, (refl, (refl, tt)))
