-- ===== src/Session/Transitions.antt =====
-- web/src/sessionUtils.ts: the sessions whose state changed between two snapshots.
use euphony.Prelude.{
  Bool, Option, some, none, String, List, map, filter, ◌&&◌, not, ◌==◌, is_set, truthy, map_get,
  from_entries,
}
use euphony.Session.{Session, session_activity}

unfoldable pub attention_transitions : List Session → List Session → List Session
unfolding map_get from_entries
attention_transitions previous next =
    let previous_attention : List (String × Bool) =
      from_entries (map (λ s. (s.id, is_set s.needs_attention)) previous) in
    filter
      (λ session.
        is_set session.needs_attention && not (is_set (map_get previous_attention session.id)))
      next

was_terminal : Option String → Bool
was_terminal none = Bool.false
was_terminal (some activity) = activity == "terminal"

unfoldable pub agent_launch_transitions : List Session → List Session → List Session
unfolding map_get from_entries session_activity was_terminal
agent_launch_transitions previous next =
    let previous_activity : List (String × String) =
      from_entries (map (λ s. (s.id, session_activity s)) previous) in
    filter
      (λ session.
        truthy session.agent
        && was_terminal (map_get previous_activity session.id)
        && not (session_activity session == "terminal"))
      next
