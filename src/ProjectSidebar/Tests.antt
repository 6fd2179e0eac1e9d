-- ===== src/ProjectSidebar/Tests.antt =====
-- A sidebar with two projects.
use euphony.Prelude.{◌≡◌, refl, some, none, String, List, [], ◌∷◌, ◌++◌, map, filter, not}
use euphony.Session.{Session}
use euphony.Session.Tests.{s1, s2, s3, s4}
use euphony.SidebarOrder.{Project}
use euphony.ProjectSidebar.{flat_map, is_assigned, flatten_project_sidebar_sessions}
use euphony.ProjectSidebar.Grouping.{belongs, flatten_project_sidebar_sessions_lem}

abbrev project : String → Project
project id = record { id = id; path = "/"; created_at = ""; order = none }

abbrev in_project : String → Session → Session
in_project id s = record s { project_id = some id }

abbrev projects : List Project
projects = project "p" ∷ project "q" ∷ []

abbrev sessions : List Session
sessions = in_project "q" s1 ∷ s2 ∷ in_project "p" s3 ∷ in_project "q" s4 ∷ []

listed :
    map (λ s. s.id) (flatten_project_sidebar_sessions projects sessions)
    ≡ "s3" ∷ "s1" ∷ "s4" ∷ "s2" ∷ []
unfolding flatten_project_sidebar_sessions
listed = refl

flatten_project_sidebar_sessions_lem_example :
    flatten_project_sidebar_sessions projects sessions
    ≡ flat_map (λ project. filter (belongs ("p" ∷ "q" ∷ []) project.id) sessions) projects
      ++ filter (λ s. not (is_assigned ("p" ∷ "q" ∷ []) s)) sessions
flatten_project_sidebar_sessions_lem_example =
    flatten_project_sidebar_sessions_lem projects sessions
