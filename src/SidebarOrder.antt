-- ===== src/SidebarOrder.antt =====
-- web/src/App.tsx: the order of the sidebar, dragged by the user and saved on the server. The
-- code has one copy for sessions and one for projects, which differ in their names; the model is
-- over items of any type with an id. The server's answer is an event, which comes at any time
-- while a request is in flight.
pub mod Invariant
pub mod Settling
mod Tests
use euphony.Prelude.{
  ℕ, ◌+◌, Bool, true, false, not, Option, some, none, String, List, [], ◌∷◌, map, eqb,
  if◌then◌else◌, or_else, ◌==◌, ◌&&◌, ◌||◌,
}
use euphony.Session.{Session}
use euphony.Order.{reorder_items_by_ids, merge_items_in_current_order, merge_ordered_items}

-- A project, as the sidebar lists it (web/src/types.ts).
pub record Project : Type 0 where
  pub id : String
  pub path : String
  pub created_at : String
  pub order : Option euphony.Prelude.ℤ

pub record OrderRequest : Type 0 where
  pub ids : List String
  pub revision : ℕ

-- `SidebarOrderSync`, with the items that are shown (once they are loaded), the request in flight,
-- whether there is an error to show, and what the two first guards test.
pub record SidebarOrder (A : Type 0) : Type 0 where
  pub has_api : Bool
  pub endpoint_available : Bool
  pub items : List A
  pub committed_ids : Option (List String)
  pub desired_ids : Option (List String)
  pub in_flight : Option OrderRequest
  pub revision : ℕ
  pub request_error : Bool

pub data Event (A : Type 0) : Type 0 where
  dragged : List String → Event A
  answered : List A → Event A
  refused : Event A

-- `optimistic.every((item, index) => item.id === previousOrderIDs[index])` on lists of one length.
ids_equal : List String → List String → Bool
ids_equal [] [] = true
ids_equal (x ∷ xs) (y ∷ ys) = (x == y) && ids_equal xs ys
ids_equal _ _ = false

module _ {A : Type 0} (id : A → String) where
  -- A request is sent if none is in flight and an order is desired.
  unfoldable pub flush_sidebar_order : SidebarOrder A → SidebarOrder A
  flush_sidebar_order s = elim s.in_flight [
    | some request ↦ s
    | none ↦ elim s.desired_ids [
      | none ↦ s
      | some ids ↦
          if s.has_api
          then record s { in_flight = some (record { ids = ids; revision = s.revision }) }
          else s
    ]
  ]

  unfoldable pub reorder_sidebar : List String → SidebarOrder A → SidebarOrder A
  unfolding flush_sidebar_order ids_equal
  reorder_sidebar ordered_ids s =
      let previous_ids = map id s.items in
      let optimistic = reorder_items_by_ids id s.items ordered_ids in
      if not (s.has_api && s.endpoint_available) || ids_equal (map id optimistic) previous_ids
      then s
      else flush_sidebar_order (record s {
        items = optimistic;
        committed_ids = elim s.desired_ids [ none ↦ some previous_ids | some _ ↦ s.committed_ids ];
        desired_ids = some (map id optimistic);
        revision = s.revision + 1;
      })

  -- `.then`: the response to the request.
  saved : OrderRequest → List A → SidebarOrder A → SidebarOrder A
  saved request response s =
      if eqb s.revision request.revision
      then record s {
        committed_ids = some (map id response);
        desired_ids = none;
        items = merge_ordered_items id s.items response;
        request_error = false;
      }
      else record s {
        committed_ids = some (map id response);
        items = merge_items_in_current_order id s.items response;
      }

  -- `.catch`: the order that the server is known to have comes back, unless a newer one is shown.
  failed : OrderRequest → SidebarOrder A → SidebarOrder A
  failed request s =
      if eqb s.revision request.revision
      then record s {
        desired_ids = none;
        items = reorder_items_by_ids id s.items (or_else s.committed_ids request.ids);
        request_error = true;
      }
      else s

  -- `.finally`.
  finish : SidebarOrder A → SidebarOrder A
  unfolding flush_sidebar_order
  finish s = flush_sidebar_order (record s { in_flight = none })

  -- An answer without a request in flight does not occur, and changes nothing.
  unfoldable pub step : Event A → SidebarOrder A → SidebarOrder A
  unfolding reorder_sidebar saved failed finish
  step (dragged ids) s = reorder_sidebar ids s
  step (answered response) s = elim s.in_flight [
    | none ↦ s
    | some request ↦ finish (saved request response s)
  ]
  step refused s = elim s.in_flight [ none ↦ s | some request ↦ finish (failed request s) ]

  unfoldable pub run : List (Event A) → SidebarOrder A → SidebarOrder A
  unfolding step
  run [] s = s
  run (e ∷ es) s = run es (step e s)

unfoldable pub reorder_sidebar_sessions : List String → SidebarOrder Session → SidebarOrder Session
unfolding reorder_sidebar
reorder_sidebar_sessions = reorder_sidebar (λ s. s.id)

unfoldable pub reorder_sidebar_projects : List String → SidebarOrder Project → SidebarOrder Project
unfolding reorder_sidebar
reorder_sidebar_projects = reorder_sidebar (λ p. p.id)
