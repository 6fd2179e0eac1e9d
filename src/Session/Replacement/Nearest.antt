-- ===== src/Session/Replacement/Nearest.antt =====
-- Which session `replacement_session` picks, stated without positions.
use mathlib.Core.List.{reverse}
use euphony.Prelude.{
  ◌+◌, Bool, true, false, some, none, String, List, [], ◌∷◌, ◌++◌, find, take, drop, includes,
  if◌then◌else◌, ◌≡◌, arith, eq_refl, length, take_left, drop_past, find_sound, Option-cases, inl,
  inr,
}
use euphony.Session.{Session}
use euphony.Session.Replacement.{find_index, ids, first, fallback, nearest, replacement_session}

abbrev survives : List Session → Session → Bool
survives remaining s = includes (ids remaining) s.id

find_index-split :
    (before after : List Session) (removed : Session)
    → includes (ids before) removed.id ≡ false
    → find_index removed.id (before ++ removed ∷ after) ≡ some (length before)
unfolding find_index
find_index-split [] after removed h = rw (eq_refl removed.id)
find_index-split (s ∷ before) after removed h =
    ground (arith, find_index-split before after removed)

-- In a list in which the removed session stands between `before` and `after`, its replacement is
-- the first surviving session after it, or else the last surviving one before it, or else (where
-- the fallback is allowed) the first of the remaining sessions.
pub replacement_session_nearest :
    (before after : List Session) (removed : Session) (remaining : List Session) (fb : Bool)
    → includes (ids before) removed.id ≡ false
    → replacement_session (before ++ removed ∷ after) removed.id remaining fb
      ≡ (elim (find (survives remaining) after) [
        | some s ↦ some s
        | none ↦ elim (find (survives remaining) (reverse before)) [
          | some s ↦ some s
          | none ↦ if fb then first remaining else none
        ]
      ])
unfolding replacement_session nearest fallback
replacement_session_nearest before after removed remaining fb h = ground (
  arith,
  find_index-split before after removed h,
  take_left before (removed ∷ after),
  drop_past before removed after,
)

fallback-survives :
    (fb : Bool) (remaining : List Session) (s : Session)
    → fallback fb remaining ≡ some s
    → survives remaining s ≡ true
unfolding fallback
fallback-survives fb [] s h = ground arith
fallback-survives fb (r ∷ remaining) s h = ground (arith, eq_refl s.id)

nearest-survives :
    (before after remaining : List Session) (fb : Bool) (s : Session)
    → nearest before after remaining fb ≡ some s
    → survives remaining s ≡ true
unfolding nearest
nearest-survives before after remaining fb s h = ground (
  arith,
  find_sound (survives remaining) after s,
  find_sound (survives remaining) (reverse before) s,
  fallback-survives fb remaining s,
)

-- Whatever the lists, a replacement is one of the remaining sessions, by its id.
pub replacement_session-survives :
    (previous : List Session) (removed_id : String) (remaining : List Session) (fb : Bool)
    (s : Session)
    → replacement_session previous removed_id remaining fb ≡ some s
    → includes (ids remaining) s.id ≡ true
unfolding replacement_session
replacement_session-survives previous removed_id remaining fb s h =
    elim (Option-cases (find_index removed_id previous)) [
      | inl e ↦ fallback-survives fb remaining s (rw (e, replacement_session) at h)
      | inr (i, e) ↦
          nearest-survives (take i previous) (drop (i + 1) previous) remaining fb s
            (rw (e, replacement_session) at h)
    ]
