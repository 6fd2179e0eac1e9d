-- ===== src/Workspace/Location.antt =====
-- The part of a URL that web/src/App.tsx reads and writes: the path and the query's parameters, as
-- `URLSearchParams` holds them. The hash is never changed and is left out.
pub mod Parameters
pub mod RoundTrip
use euphony.Prelude.{
  Bool, true, false, not, Option, some, none, String, List, [], ◌∷◌, ◌++◌, ◌==◌, map, filter,
  includes, unique, if◌then◌else◌, truthy, or_else, ◌&&◌,
}
use euphony.Session.{Session}
use euphony.Workspace.Filters.{parse_cwd_filter}

pub record Location : Type 0 where
  pub pathname : String
  pub search : List (String × String)

-- The session history: the current entry and those behind it.
pub record History : Type 0 where
  pub current : Location
  pub back : List Location

pub data HistoryMode : Type 0 where
  push replace : HistoryMode

pub data AgentKind : Type 0 where
  codex claude : AgentKind

abbrev pub agent_name : AgentKind → String
agent_name codex = "codex"
agent_name claude = "claude"

pub record ResumeQuery : Type 0 where
  pub agent : AgentKind
  pub session_id : String
  pub cwd : String

-- `URLSearchParams`: getAll, get, delete, set and the values appended one by one.
abbrev pub get_all : String → List (String × String) → List String
get_all key [] = []
get_all key ((k, v) ∷ rest) = if k == key then v ∷ get_all key rest else get_all key rest

abbrev pub get : String → List (String × String) → Option String
get key [] = none
get key ((k, v) ∷ rest) = if k == key then some v else get key rest

abbrev pub delete : String → List (String × String) → List (String × String)
delete key ps = filter (λ p. not (p.0 == key)) ps

abbrev pub set_param : String → String → List (String × String) → List (String × String)
set_param key value [] = (key, value) ∷ []
set_param key value ((k, v) ∷ rest) =
    if k == key then (k, value) ∷ delete key rest else (k, v) ∷ set_param key value rest

abbrev pub append_all : String → List String → List (String × String) → List (String × String)
append_all key values ps = ps ++ map (λ v. (key, v)) values

-- The selection as the URL shows it: what `workspaceFromURL` returns.
pub record WorkspaceSelection : Type 0 where
  pub selected_ids : List String
  pub pinned_ids : List String
  pub focused_id : Option String
  pub status_filters : List String
  pub cwd_filters : List String
  pub pinned_status_filters : List String
  pub pinned_cwd_filters : List String

cleared_search : List (String × String) → List (String × String)
cleared_search ps = delete "pin-cwd" (
    delete "pin-status" (
      delete "cwd" (
        delete "status" (delete "pin" (delete "terminal" (delete "split" (delete "session" ps)))))))

preserve : Option ResumeQuery → List (String × String) → List (String × String)
preserve none ps = ps
preserve (some query) ps =
    set_param "cwd" query.cwd
      (set_param "session" query.session_id (set_param "agent" (agent_name query.agent) ps))

write_focus : Option String → List (String × String) → List (String × String)
write_focus focus ps =
    if truthy focus then set_param "focus" (or_else focus "") ps else delete "focus" ps

workspace_search :
    WorkspaceSelection → Option ResumeQuery → List (String × String) → List (String × String)
workspace_search s preserved ps =
    let cleared = preserve preserved (cleared_search ps) in
    let terminals = append_all "pin" s.pinned_ids (append_all "terminal" s.selected_ids cleared) in
    let filters = append_all "cwd" s.cwd_filters (append_all "status" s.status_filters terminals) in
    let pinned =
      append_all "pin-cwd" s.pinned_cwd_filters
        (append_all "pin-status" s.pinned_status_filters filters) in
    write_focus s.focused_id pinned

navigate : HistoryMode → Location → History → History
navigate push url h = record { current = url; back = h.current ∷ h.back }
navigate replace url h = record h { current = url }

unfoldable pub write_workspace_url :
    WorkspaceSelection → HistoryMode → String → Option ResumeQuery → History → History
unfolding workspace_search cleared_search preserve write_focus navigate
write_workspace_url s mode pathname preserved h =
    navigate mode
      (record { pathname = pathname; search = workspace_search s preserved h.current.search }) h

-- `array.indexOf(value)` and `splice(index, 1)`: the first occurrence is taken out, if any.
remove_first : String → List String → List String
remove_first x [] = []
remove_first x (y ∷ ys) = if y == x then ys else y ∷ remove_first x ys

without_resume : Option ResumeQuery → List String → List String
without_resume none cwds = cwds
without_resume (some query) cwds = remove_first query.cwd cwds

-- `[session, split].filter((id) => Boolean(id && available.has(id)))`
fallback_id : List String → Option String → List String
fallback_id available id =
    if truthy id && includes available (or_else id "") then or_else id "" ∷ [] else []

fallback_ids : List String → Option ResumeQuery → List (String × String) → List String
unfolding fallback_id
fallback_ids available resume ps =
    fallback_id available (elim resume [ none ↦ get "session" ps | some _ ↦ none ])
    ++ fallback_id available (get "split" ps)

abbrev first_id : List String → Option String
first_id [] = none
first_id (x ∷ xs) = some x

if_empty : List String → List String → List String
if_empty [] ys = ys
if_empty (x ∷ xs) ys = x ∷ xs

or_first : List String → List String → List String
or_first [] [] = []
or_first [] (x ∷ xs) = x ∷ []
or_first (x ∷ xs) available = x ∷ xs

url_selected_ids :
    List String → Option ResumeQuery → List (String × String) → List String → List String
url_selected_ids available resume ps pinned =
    let terminals = filter (includes available) (get_all "terminal" ps) in
    let chosen = if_empty terminals (fallback_ids available resume ps) in
    or_first (unique (chosen ++ pinned)) available

url_focus : Option String → List String → Option String
url_focus focus selected =
    if truthy focus && includes selected (or_else focus "") then focus else first_id selected

unfoldable pub workspace_from_url :
    List Session → Option ResumeQuery → Location → WorkspaceSelection
unfolding url_selected_ids fallback_ids if_empty or_first url_focus without_resume remove_first
workspace_from_url sessions resume location =
    let ps = location.search in
    let available = map (λ s. s.id) sessions in
    let pinned = unique (filter (includes available) (get_all "pin" ps)) in
    let selected = url_selected_ids available resume ps pinned in
    let pinned_statuses = unique (get_all "pin-status" ps) in
    let pinned_cwds = unique (get_all "pin-cwd" ps) in
    record {
      selected_ids = selected;
      pinned_ids = pinned;
      focused_id = url_focus (get "focus" ps) selected;
      status_filters = unique (get_all "status" ps ++ pinned_statuses);
      cwd_filters = unique (without_resume resume (get_all "cwd" ps) ++ pinned_cwds);
      pinned_status_filters = pinned_statuses;
      pinned_cwd_filters = pinned_cwds;
    }
