-- ===== src/Workspace/Update/Siblings.antt =====
-- web/src/App.tsx, updateCwdFilter: the cwd filters of the directories in which sessions of a status
-- are.
use euphony.Prelude.{
  ◌≡◌, ◌∙◌, Bool, true, not, String, List, [], ◌∷◌, ◌++◌, map, filter, includes, any, all, arith,
  ◌&&◌, ◌==◌, eq_iff, eq_refl, includes-unique,
}
use euphony.Session.{Session, session_activity}
use euphony.Workspace.Filters.{cwd_filter_key}
use euphony.Workspace.Filters.Keys.{NoSeparator}
use euphony.Workspace.Select.{sibling_cwd_filters}
use euphony.Workspace.Update.Covering.{cwd_filter_key_eq}

-- Some session has the status in the directory.
abbrev pub is_live : List Session → String → String → Bool
is_live sessions status dir = any (λ s. (session_activity s == status) && s.cwd == dir) sessions

pub includes-status_keys :
    (sessions : List Session) (status dir : String)
    → NoSeparator status
    → is_live sessions status dir ≡ true
    → includes
        (map
          (λ s. cwd_filter_key status s.cwd)
          (filter (λ s. session_activity s == status) sessions))
        (cwd_filter_key status dir)
      ≡ true
includes-status_keys [] status dir n h = cc
includes-status_keys (s ∷ sessions) status dir n h = ground (
  arith,
  includes-status_keys sessions status dir n,
  cwd_filter_key_eq status status s.cwd dir n n,
  eq_refl status,
)

includes-sibling_keys :
    (sessions : List Session) (status cwd other dir : String)
    → NoSeparator status
    → NoSeparator other
    → includes
        (map
          (λ s. cwd_filter_key status s.cwd)
          (filter (λ s. (session_activity s == status) && not (s.cwd == cwd)) sessions))
        (cwd_filter_key other dir)
      ≡ ((other == status) && (not (dir == cwd) && is_live sessions status dir))
includes-sibling_keys [] status cwd other dir n m = ground arith
includes-sibling_keys (s ∷ sessions) status cwd other dir n m = ground (
  arith,
  includes-sibling_keys sessions status cwd other dir n m,
  cwd_filter_key_eq status other s.cwd dir n m,
  eq_iff other status,
  eq_iff status other,
  eq_iff s.cwd dir,
  eq_iff s.cwd cwd,
  eq_iff dir cwd,
)

pub includes-sibling_cwd_filters :
    (sessions : List Session) (status cwd other dir : String)
    → NoSeparator status
    → NoSeparator other
    → includes (sibling_cwd_filters sessions status cwd) (cwd_filter_key other dir)
      ≡ ((other == status) && (not (dir == cwd) && is_live sessions status dir))
unfolding sibling_cwd_filters
includes-sibling_cwd_filters sessions status cwd other dir n m =
    includes-unique
      (map (λ s. cwd_filter_key status s.cwd)
        (filter (λ s. (session_activity s == status) && not (s.cwd == cwd)) sessions))
      (cwd_filter_key other dir)
    ∙ includes-sibling_keys sessions status cwd other dir n m

pub all_includes :
    (xs ys : List String) (a : String)
    → all (includes ys) xs ≡ true
    → includes xs a ≡ true
    → includes ys a ≡ true
all_includes [] ys a h k = cc
all_includes (x ∷ xs) ys a h k = ground (arith, all_includes xs ys a, eq_iff x a)

pub any-middle :
    (p : Session → Bool) (before later : List Session) (s : Session)
    → p s ≡ true
    → any p (before ++ s ∷ later) ≡ true
any-middle p [] later s h = ground arith
any-middle p (t ∷ before) later s h = ground (arith, any-middle p before later s h)
