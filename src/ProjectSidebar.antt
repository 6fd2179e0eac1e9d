-- ===== src/ProjectSidebar.antt =====
-- web/src/projectSidebarUtils.ts: the sessions of the sidebar, grouped by project.
pub mod Grouping
mod Tests
use euphony.Prelude.{
  Bool, Option, some, none, String, List, [], ◌∷◌, ◌++◌, map, ◌&&◌, ◌==◌, if◌then◌else◌, truthy,
  or_else, includes, map_get, map_set, not,
}
use euphony.Session.{Session}
use euphony.SidebarOrder.{Project}

pub record ProjectSidebarGroups : Type 0 where
  pub grouped : List (String × List Session)
  pub ordered_projects : List Project
  pub unassigned : List Session

abbrev pub project_key : Session → String
project_key session = or_else session.project_id ""

-- The project of the session is one of the known ones.
abbrev pub is_assigned : List String → Session → Bool
is_assigned known session = truthy session.project_id && includes known (project_key session)

-- A group that exists gets the session at its end, else a group of it is set.
unfoldable pub add_to_group : Session → List (String × List Session) → List (String × List Session)
unfolding map_get map_set
add_to_group session grouped =
    map_set grouped (project_key session)
      (or_else (map_get grouped (project_key session)) [] ++ session ∷ [])

-- The body of the loop over the sessions, and the loop.
unfoldable pub place : List String → Session → ProjectSidebarGroups → ProjectSidebarGroups
unfolding add_to_group
place known session g =
    if not (is_assigned known session)
    then record g { unassigned = g.unassigned ++ session ∷ [] }
    else record g { grouped = add_to_group session g.grouped }

unfoldable pub group_from : List String → List Session → ProjectSidebarGroups → ProjectSidebarGroups
unfolding place
group_from known [] g = g
group_from known (session ∷ sessions) g = group_from known sessions (place known session g)

unfoldable pub group_project_sidebar_sessions : List Project → List Session → ProjectSidebarGroups
unfolding group_from
group_project_sidebar_sessions projects sessions =
    group_from (map (λ p. p.id) projects) sessions
      (record { grouped = []; ordered_projects = projects; unassigned = [] })

abbrev pub flat_map : {A B : Type 0} → (A → List B) → List A → List B
flat_map f [] = []
flat_map f (x ∷ xs) = f x ++ flat_map f xs

unfoldable pub flatten_project_sidebar_sessions : List Project → List Session → List Session
unfolding group_project_sidebar_sessions map_get
flatten_project_sidebar_sessions projects sessions =
    let g = group_project_sidebar_sessions projects sessions in
    flat_map (λ project. or_else (map_get g.grouped project.id) []) g.ordered_projects
    ++ g.unassigned
