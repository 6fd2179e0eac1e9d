-- ===== src/Session/Tests.antt =====
-- Sessions for the tests of this and the other parts, and the tests of replacement.
use euphony.Prelude.{◌≡◌, refl, true, false, some, none, String, List, [], ◌∷◌, Option, includes}
use euphony.Session.{Session, SessionState, session_activity}
use euphony.Session.Replacement.{ids, replacement_session, replacement_session_for_close}
use euphony.Session.Replacement.Nearest.{replacement_session_nearest, replacement_session-survives}
use euphony.Session.Transitions.{attention_transitions, agent_launch_transitions}

abbrev pub session : String → String → Option String → Session
session id cwd status = record {
  id = id;
  name = id;
  state = SessionState.running;
  cwd = cwd;
  project_id = none;
  order = none;
  repo_root = none;
  archived = none;
  agent = none;
  agent_status = status;
  agent_session_id = none;
  needs_attention = none;
  agent_title = none;
  process_name = none;
  custom_name = none;
  created_at = "";
  updated_at = none;
  exited_at = none;
  exit_code = none;
  message = none;
}

abbrev pub s1 : Session
s1 = session "s1" "/a" none

abbrev pub s2 : Session
s2 = session "s2" "/b" (some "running")

abbrev pub s3 : Session
s3 = session "s3" "/b" (some "running")

abbrev pub s4 : Session
s4 = session "s4" "/a" (some "waiting")

abbrev pub all_sessions : List Session
all_sessions = s1 ∷ s2 ∷ s3 ∷ s4 ∷ []

activities : (session_activity s1 ≡ "terminal")
unfolding session_activity
activities = refl

-- The one after the removed session, before the ones in front of it.
next_first : replacement_session all_sessions "s2" (s1 ∷ s4 ∷ []) true ≡ some s4
unfolding replacement_session
next_first = refl

unknown_removed : replacement_session_for_close all_sessions "s9" (s1 ∷ []) ≡ none
unfolding replacement_session_for_close
unknown_removed = refl

launched :
    agent_launch_transitions all_sessions
      (record s1 { agent = some "codex"; agent_status = some "running" } ∷ [])
    ≡ record s1 { agent = some "codex"; agent_status = some "running" } ∷ []
unfolding agent_launch_transitions
launched = refl

attentive :
    attention_transitions all_sessions (record s2 { needs_attention = some true } ∷ s1 ∷ [])
    ≡ record s2 { needs_attention = some true } ∷ []
unfolding attention_transitions
attentive = refl

replacement_session_nearest_example :
    replacement_session (s1 ∷ s2 ∷ s3 ∷ []) "s2" (s1 ∷ []) false ≡ some s1
replacement_session_nearest_example =
    replacement_session_nearest (s1 ∷ []) (s3 ∷ []) s2 (s1 ∷ []) false refl

replacement_session-survives_example : includes (ids (s1 ∷ s4 ∷ [])) "s4" ≡ true
replacement_session-survives_example =
    replacement_session-survives all_sessions "s2" (s1 ∷ s4 ∷ []) true s4 next_first
