-- ===== src/Workspace/Consistent.antt =====
-- When the selection of a workspace hangs together (web/src/App.tsx).
use euphony.Prelude.{
  ◌≡◌, true, false, Option, some, none, String, List, [], ◌∷◌, ◌++◌, includes, IsNodup, Subset,
  arith, includes_self, ◌==◌, filter, not, includes-filter, ◌&&◌, unique, includes-unique,
  includes-append,
}
use euphony.Workspace.{Workspace, without, keep_focus, head_id}

abbrev pub IsFocusOf : List String → Option String → Type 0
IsFocusOf ids none = Unit {0}
IsFocusOf ids (some id) = includes ids id ≡ true

pub record Consistent (selected pinned : List String) (focus : Option String)
    (statuses pinned_statuses filter_selected : List String) : Type 0 where
  pub selected_nodup : IsNodup selected
  pub pinned_nodup : IsNodup pinned
  pub pinned_selected : Subset pinned selected
  pub focus_selected : IsFocusOf selected focus
  pub pinned_checked : Subset pinned_statuses statuses
  pub filter_unpinned : (a : String) → includes filter_selected a ≡ true → includes pinned a ≡ false

-- No terminal is selected twice or pinned twice, every pinned one is selected, the focused one is
-- selected, every pinned status is checked, and no terminal counts both as pinned and as brought
-- in by a filter.
abbrev pub IsConsistent : Workspace → Type 0
IsConsistent w =
    Consistent w.selected_ids w.pinned_ids w.focused_id w.status_filters w.pinned_status_filters
      w.filter_selected_ids

head_id-IsFocusOf : (ids : List String) → IsFocusOf ids (head_id ids)
head_id-IsFocusOf [] = tt
head_id-IsFocusOf (x ∷ xs) = includes_self x xs

pub keep_focus-IsFocusOf :
    (focus : Option String) (ids : List String) → IsFocusOf ids (keep_focus focus ids)
unfolding keep_focus
keep_focus-IsFocusOf none ids = head_id-IsFocusOf ids
keep_focus-IsFocusOf (some f) ids = ground (arith, head_id-IsFocusOf ids)

pub includes-without :
    (x : String) (xs : List String) (a : String)
    → includes (without x xs) a ≡ (includes xs a && not (a == x))
includes-without x xs a = includes-filter (λ item. not (item == x)) xs a

pub without-Subset :
    (x : String) (xs ys : List String) → Subset xs ys → Subset (without x xs) (without x ys)
without-Subset x xs ys h a = ground (arith, h a, includes-without x xs a, includes-without x ys a)

-- What is left of `ids` when those outside `pinned` go, joined with `more`, holds `pinned`.
pub pinned_kept :
    (pinned selected more : List String)
    → Subset pinned selected
    → Subset pinned (unique (filter (includes pinned) selected ++ more))
pinned_kept pinned selected more h a = ground (
  arith,
  h a,
  includes-unique (filter (includes pinned) selected ++ more) a,
  includes-append (filter (includes pinned) selected) more a,
  includes-filter (includes pinned) selected a,
)

pub unpinned_filter :
    (pinned matching : List String) (a : String)
    → includes (unique (filter (λ item. not (includes pinned item)) matching)) a ≡ true
    → includes pinned a ≡ false
unpinned_filter pinned matching a = ground (
  arith,
  includes-unique (filter (λ item. not (includes pinned item)) matching) a,
  includes-filter (λ item. not (includes pinned item)) matching a,
)
