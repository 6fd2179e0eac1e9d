-- ===== src/AgentLog/Refreshing.antt =====
-- web/src/components/AgentLogView.tsx, `AgentLogViewContent`: the log of one session, which is
-- mounted anew for another one. One request for the news and one for an older page are on their
-- way at a time; their answers come in any order. The ETag that goes with a request is left out,
-- and so is the scroll position.
pub mod Pages
pub mod Extending
pub mod Shown
use euphony.Prelude.{
  ℕ, Bool, true, false, not, Option, some, none, List, [], ◌∷◌, ◌++◌, String, ◌&&◌, ◌||◌, ◌==◌,
  if◌then◌else◌,
}
use euphony.AgentLog.{AgentLogEntry, merge_adjacent_tool_groups}

pub data Agent : Type 0 where
  claude codex : Agent

pub record AgentTranscript : Type 0 where
  pub agent : Agent
  pub session_id : String
  pub entries : List AgentLogEntry
  pub start_cursor : Option String
  pub end_cursor : Option String
  pub next_cursor : Option String

-- A request for an older page: its cursor and the transcript it was made for.
pub record OlderRequest : Type 0 where
  pub before : String
  pub transcript_id : String

-- `refreshing` is the cursor after which the news are asked for.
pub record AgentLog : Type 0 where
  pub log : Option AgentTranscript
  pub loading : Bool
  pub unavailable : Bool
  pub error : String
  pub loading_more : Option OlderRequest
  pub end_cursor : String
  pub refreshing : Option String

abbrev pub create : AgentLog
create = record {
  log = none;
  loading = true;
  unavailable = false;
  error = "";
  loading_more = none;
  end_cursor = "";
  refreshing = none;
}

-- `cursor ?? ""`.
abbrev pub or_empty : Option String → String
or_empty none = ""
or_empty (some cursor) = cursor

-- `start === cursor`.
abbrev pub is_cursor : Option String → String → Bool
is_cursor none cursor = false
is_cursor (some start) cursor = start == cursor

abbrev pub is_none : {A : Type 0} → Option A → Bool
is_none none = true
is_none (some x) = false

unfoldable pub start_refresh : AgentLog → AgentLog
start_refresh s = if is_none s.refreshing then record s { refreshing = some s.end_cursor } else s

unfoldable pub append_news : AgentTranscript → AgentTranscript → AgentTranscript
append_news current next = record current {
  entries = merge_adjacent_tool_groups (current.entries ++ next.entries);
  end_cursor = next.end_cursor;
}

-- What is shown after an answer, given what is shown and the cursor that was asked for.
unfoldable pub extend_log : String → Option AgentTranscript → AgentTranscript → AgentTranscript
unfolding append_news
extend_log after none next = next
extend_log after (some current) next =
    if not (current.session_id == next.session_id)
      || (not (after == "") && not (is_cursor next.start_cursor after))
    then next
    else if after == ""
    then next
    else append_news current next

-- `none` is an answer that nothing has changed.
unfoldable pub take_news : String → Option AgentTranscript → AgentLog → AgentLog
unfolding extend_log
take_news after none s = s
take_news after (some next) s = record s {
  log = some (extend_log after s.log next);
  end_cursor = or_empty next.end_cursor;
}

unfoldable pub refreshed : Option String → Option AgentTranscript → AgentLog → AgentLog
unfolding take_news
refreshed none news s = s
refreshed (some after) news s = record (take_news after news s) {
  unavailable = false;
  error = "";
  loading = false;
  refreshing = none;
}

pub data Failure : Type 0 where
  agent_log_not_found : Failure
  other_failure : String → Failure

unfoldable pub refresh_failed : Failure → AgentLog → AgentLog
refresh_failed agent_log_not_found s = record s {
  unavailable = true;
  error = "";
  loading = false;
  refreshing = none;
}
refresh_failed (other_failure text) s = record s {
  error = text;
  loading = false;
  refreshing = none;
}

unfoldable pub request_before : String → Option String → AgentLog → AgentLog
request_before id none s = s
request_before id (some before) s =
    if before == "" || not (is_none s.loading_more)
    then s
    else record s { loading_more = some (record { before = before; transcript_id = id }) }

unfoldable pub request_older : Option AgentTranscript → AgentLog → AgentLog
unfolding request_before
request_older none s = s
request_older (some log) s = request_before log.session_id log.next_cursor s

unfoldable pub load_more : AgentLog → AgentLog
unfolding request_older
load_more s = request_older s.log s

unfoldable pub prepend_older : AgentTranscript → AgentTranscript → AgentTranscript
prepend_older older current = record current {
  entries = merge_adjacent_tool_groups (older.entries ++ current.entries);
  start_cursor = older.start_cursor;
  next_cursor = older.next_cursor;
}

-- The answer is dropped when it is about another transcript, or another one is shown.
unfoldable pub prepend_log :
    OlderRequest → AgentTranscript → Option AgentTranscript → Option AgentTranscript
unfolding prepend_older
prepend_log request older none = none
prepend_log request older (some current) =
    if not (older.session_id == request.transcript_id)
      || not (current.session_id == request.transcript_id)
    then some current
    else some (prepend_older older current)

unfoldable pub take_older : OlderRequest → Option AgentTranscript → AgentLog → AgentLog
unfolding prepend_log
take_older request none s = record s { loading_more = none }
take_older request (some older) s = record s {
  log = prepend_log request older s.log;
  loading_more = none;
}

unfoldable pub more_loaded : Option OlderRequest → Option AgentTranscript → AgentLog → AgentLog
unfolding take_older
more_loaded none answer s = s
more_loaded (some request) answer s = take_older request answer s

unfoldable pub more_failed : String → AgentLog → AgentLog
more_failed text s = record s { error = text; loading_more = none }

-- `paused` is the cleanup of the effect, after which the answer on its way is dropped.
pub data Event : Type 0 where
  ticked paused more_asked : Event
  news_answered : Option AgentTranscript → Event
  news_rejected : Failure → Event
  more_answered : Option AgentTranscript → Event
  more_rejected : String → Event

-- An answer comes only while its request is on its way.
unfoldable pub step : Event → AgentLog → AgentLog
unfolding start_refresh refreshed refresh_failed load_more more_loaded more_failed
step ticked s = start_refresh s
step paused s = record s { refreshing = none }
step more_asked s = load_more s
step (news_answered news) s = refreshed s.refreshing news s
step (news_rejected failure) s = if is_none s.refreshing then s else refresh_failed failure s
step (more_answered answer) s = more_loaded s.loading_more answer s
step (more_rejected text) s = if is_none s.loading_more then s else more_failed text s

unfoldable pub run : List Event → AgentLog → AgentLog
unfolding step
run [] s = s
run (e ∷ es) s = run es (step e s)
