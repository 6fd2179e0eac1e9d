-- ===== src/Session/Replacement.antt =====
-- web/src/sessionUtils.ts: which session takes the place of one that was removed.
pub mod Nearest
use mathlib.Core.List.{reverse}
use euphony.Prelude.{
  ℕ, zero, suc, ◌+◌, Bool, true, false, Option, some, none, String, List, [], ◌∷◌, ◌++◌, map,
  filter, ◌==◌, find, take, drop, includes, if◌then◌else◌,
}
use euphony.Session.{Session}

-- `array.findIndex((session) => session.id === id)`; `none` is -1.
unfoldable pub find_index : String → List Session → Option ℕ
find_index id [] = none
find_index id (s ∷ rest) =
    if s.id == id
    then some 0
    else (elim (find_index id rest) [ none ↦ none | some i ↦ some (suc i) ])

abbrev pub ids : List Session → List String
ids sessions = map (λ s. s.id) sessions

abbrev pub first : List Session → Option Session
first [] = none
first (s ∷ rest) = some s

fallback : Bool → List Session → Option Session
fallback fallback_to_first remaining = if fallback_to_first then first remaining else none

-- The chain of `??`, over the sessions before the removed one and those after it.
nearest : List Session → List Session → List Session → Bool → Option Session
unfolding fallback
nearest before after remaining fallback_to_first =
    let survives = λ (s : Session). includes (ids remaining) s.id in
    elim (find survives after) [
      | some s ↦ some s
      | none ↦ elim (find survives (reverse before)) [
        | some s ↦ some s
        | none ↦ fallback fallback_to_first remaining
      ]
    ]

unfoldable pub replacement_session : List Session → String → List Session → Bool → Option Session
unfolding find_index nearest fallback
replacement_session previous removed_id remaining fallback_to_first =
    elim (find_index removed_id previous) [
      | none ↦ fallback fallback_to_first remaining
      | some index ↦
          nearest (take index previous) (drop (index + 1) previous) remaining fallback_to_first
    ]

unfoldable pub replacement_session_for_close : List Session → String → List Session → Option Session
unfolding replacement_session
replacement_session_for_close previous removed_id remaining =
    replacement_session previous removed_id remaining false
