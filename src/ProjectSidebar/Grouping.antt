-- ===== src/ProjectSidebar/Grouping.antt =====
-- The order of the sidebar, described by what stands where.
use euphony.Prelude.{
  Bool, String, List, [], ◌∷◌, ◌++◌, map, filter, ◌&&◌, ◌==◌, ◌≡◌, refl, sym, ap, ap₂, ◌∙◌,
  if◌then◌else◌, or_else, map_get, map_get-set, not, arith, eq_iff, append_assoc, append-nil,
  Bool-cases, inl, inr,
}
use euphony.Session.{Session}
use euphony.SidebarOrder.{Project}
use euphony.ProjectSidebar.{
  ProjectSidebarGroups, project_key, is_assigned, add_to_group, place, group_from,
  group_project_sidebar_sessions, flat_map, flatten_project_sidebar_sessions,
}

-- The session belongs to a known project of this id.
abbrev pub belongs : List String → String → Session → Bool
belongs known key session = is_assigned known session && project_key session == key

group_of : List (String × List Session) → String → List Session
group_of grouped key = or_else (map_get grouped key) []

group_of-add :
    (session : Session) (grouped : List (String × List Session)) (key : String)
    → group_of (add_to_group session grouped) key
      ≡ group_of grouped key ++ (if project_key session == key then session ∷ [] else [])
unfolding group_of add_to_group
group_of-add session grouped key = ground (
  arith,
  map_get-set grouped (project_key session) key
      (group_of grouped (project_key session) ++ session ∷ []),
  eq_iff (project_key session) key,
  append-nil (group_of grouped key),
)

filter-cons :
    (p : Session → Bool) (s : Session) (ss : List Session)
    → filter p (s ∷ ss) ≡ (if p s then s ∷ [] else []) ++ filter p ss
filter-cons p s ss = ground arith

-- What one session adds to the group of a project, and to the sessions without one.
place-group :
    (known : List String) (s : Session) (g : ProjectSidebarGroups) (key : String)
    → group_of (place known s g).grouped key
      ≡ group_of g.grouped key ++ (if belongs known key s then s ∷ [] else [])
unfolding place
place-group known s g key = elim (Bool-cases (is_assigned known s)) [
  | inl e ↦ rw e (group_of-add s g.grouped key)
  | inr e ↦ rw e (sym (append-nil (group_of g.grouped key)))
]

place-unassigned :
    (known : List String) (s : Session) (g : ProjectSidebarGroups)
    → (place known s g).unassigned
      ≡ g.unassigned ++ (if not (is_assigned known s) then s ∷ [] else [])
unfolding place
place-unassigned known s g = elim (Bool-cases (is_assigned known s)) [
  | inl e ↦ rw e (sym (append-nil g.unassigned))
  | inr e ↦ rw e refl
]

group_from-group :
    (known : List String) (ss : List Session) (g : ProjectSidebarGroups) (key : String)
    → group_of (group_from known ss g).grouped key
      ≡ group_of g.grouped key ++ filter (belongs known key) ss
unfolding group_from
group_from-group known [] g key = sym (append-nil (group_of g.grouped key))
group_from-group known (s ∷ ss) g key =
    group_from-group known ss (place known s g) key
    ∙ ap (λ group. group ++ filter (belongs known key) ss) (place-group known s g key)
    ∙ append_assoc (group_of g.grouped key) (if belongs known key s then s ∷ [] else [])
        (filter (belongs known key) ss)
    ∙ sym (ap (◌++◌ (group_of g.grouped key)) (filter-cons (belongs known key) s ss))

group_from-unassigned :
    (known : List String) (ss : List Session) (g : ProjectSidebarGroups)
    → (group_from known ss g).unassigned
      ≡ g.unassigned ++ filter (λ s. not (is_assigned known s)) ss
unfolding group_from
group_from-unassigned known [] g = sym (append-nil g.unassigned)
group_from-unassigned known (s ∷ ss) g =
    let free = λ (x : Session). not (is_assigned known x) in
    group_from-unassigned known ss (place known s g)
    ∙ ap (λ rest. rest ++ filter free ss) (place-unassigned known s g)
    ∙ append_assoc g.unassigned (if free s then s ∷ [] else []) (filter free ss)
    ∙ sym (ap (◌++◌ g.unassigned) (filter-cons free s ss))

place-projects :
    (known : List String) (s : Session) (g : ProjectSidebarGroups)
    → (place known s g).ordered_projects ≡ g.ordered_projects
unfolding place
place-projects known s g = ground arith

group_from-projects :
    (known : List String) (ss : List Session) (g : ProjectSidebarGroups)
    → (group_from known ss g).ordered_projects ≡ g.ordered_projects
unfolding group_from
group_from-projects known [] g = refl
group_from-projects known (s ∷ ss) g =
    group_from-projects known ss (place known s g) ∙ place-projects known s g

flat_map_ext :
    (f h : Project → List Session)
    → ((p : Project) → f p ≡ h p)
    → (ps : List Project) → flat_map f ps ≡ flat_map h ps
flat_map_ext f h e [] = refl
flat_map_ext f h e (p ∷ ps) = ap₂ ◌++◌ (e p) (flat_map_ext f h e ps)

-- The sidebar lists, project by project in their order, the sessions of the project in theirs, and
-- then the sessions whose project is not known.
pub flatten_project_sidebar_sessions_lem :
    (projects : List Project) (sessions : List Session)
    → flatten_project_sidebar_sessions projects sessions
      ≡ flat_map
          (λ project. filter (belongs (map (λ p. p.id) projects) project.id) sessions)
          projects
        ++ filter (λ s. not (is_assigned (map (λ p. p.id) projects) s)) sessions
unfolding flatten_project_sidebar_sessions group_project_sidebar_sessions group_of map_get
flatten_project_sidebar_sessions_lem projects sessions =
    let known = map (λ (p : Project). p.id) projects in
    let empty : ProjectSidebarGroups = record {
      grouped = [];
      ordered_projects = projects;
      unassigned = [];
    } in
    ap₂ ◌++◌
      (ap (flat_map (λ project. group_of (group_from known sessions empty).grouped project.id))
          (group_from-projects known sessions empty)
        ∙ flat_map_ext (λ project. group_of (group_from known sessions empty).grouped project.id)
            (λ project. filter (belongs known project.id) sessions)
            (λ project. group_from-group known sessions empty project.id) projects)
      (group_from-unassigned known sessions empty)
