-- ===== src/Session.antt =====
-- web/src/types.ts (Session) and the activity that web/src/sessionUtils.ts and web/src/App.tsx
-- compute from it. An optional property is an `Option`.
pub mod Transitions
pub mod Replacement
pub mod Tests
use euphony.Prelude.{Bool, Option, String, ℤ, truthy, or_else, if◌then◌else◌}

pub data SessionState : Type 0 where
  starting running exited failed : SessionState

pub record Session : Type 0 where
  pub id : String
  pub name : String
  pub state : SessionState
  pub cwd : String
  pub project_id : Option String
  pub order : Option ℤ
  pub repo_root : Option String
  pub archived : Option Bool
  pub agent : Option String
  pub agent_status : Option String
  pub agent_session_id : Option String
  pub needs_attention : Option Bool
  pub agent_title : Option String
  pub process_name : Option String
  pub custom_name : Option Bool
  pub created_at : String
  pub updated_at : Option String
  pub exited_at : Option String
  pub exit_code : Option ℤ
  pub message : Option String

state_activity : SessionState → String
state_activity starting = "starting"
state_activity running = "terminal"
state_activity exited = "exited"
state_activity failed = "failed"

unfoldable pub session_activity : Session → String
unfolding state_activity
session_activity session =
    if truthy session.agent_status
    then or_else session.agent_status ""
    else state_activity session.state
