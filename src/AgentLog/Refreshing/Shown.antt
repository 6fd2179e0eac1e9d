-- ===== src/AgentLog/Refreshing/Shown.antt =====
-- What the client shows of a transcript, over any sequence of requests and answers.
use euphony.Prelude.{
  ℕ, ◌≡◌, refl, sym, ap, ◌∙◌, Bool, true, false, not, Option, some, none, List, [], ◌∷◌, String,
  ◌||◌, ◌==◌, if◌then◌else◌, arith, eq_iff,
}
use euphony.AgentLog.{AgentLogEntry}
use euphony.AgentLog.Refreshing.{
  AgentTranscript, OlderRequest, AgentLog, create, or_empty, is_none, start_refresh, extend_log,
  take_news, refreshed, Failure, agent_log_not_found, other_failure, refresh_failed, request_older,
  load_more, prepend_older, request_before, prepend_log, take_older, more_loaded, more_failed,
  Event, ticked, paused, more_asked, news_answered, news_rejected, more_answered, more_rejected,
  step, run,
}
use euphony.AgentLog.Refreshing.Pages.{
  Each, place_of, IsPage, append_news-IsPage, prepend_older-IsPage,
}
use euphony.AgentLog.Refreshing.Extending.{
  Asks, GoOn, or_empty_iff, extend_log_cases, extend_log-end, extend_log-Asks, requested-Asks,
}

module _ (position : String → ℕ) (transcript : String → ℕ → AgentLogEntry) where
  abbrev Page : AgentTranscript → Type 0
  Page = IsPage position transcript

  next_cursor-start :
      (current : AgentTranscript) (before : String)
      → Page current
      → current.next_cursor ≡ some before
      → position before ≡ place_of position transcript current.start_cursor
  next_cursor-start current before v e = rewritten v.older
    where
      rewritten :
          Each
            (λ cursor. position cursor ≡ place_of position transcript current.start_cursor)
            current.next_cursor
          → position before ≡ place_of position transcript current.start_cursor
      rewritten = rw e (λ start. start)

  extend_log-IsPage :
      (after : String) (log : Option AgentTranscript) (next : AgentTranscript)
      → Each Page log
      → Each (λ l. after ≡ or_empty l.end_cursor) log
      → Page next
      → Page (extend_log after log next)
  unfolding extend_log
  extend_log-IsPage after none next v asked w = w
  extend_log-IsPage after (some current) next v asked w =
      extend_log_cases Page after current next (λ e. w)
        (λ same e start. append_news-IsPage position transcript current next v w same (
          ap (place_of position transcript)
            (or_empty_iff current.end_cursor after asked e ∙ sym start)))

  -- What is shown is a page, whose end is the cursor of the next request for news.
  pub record IsShown (s : AgentLog) : Type 0 where
    pub page : Each Page s.log
    pub live : Each (λ l. s.end_cursor ≡ or_empty l.end_cursor) s.log
    pub asked : Each (λ after. after ≡ s.end_cursor) s.refreshing
    pub older : Asks s.loading_more s.log

  -- What the server answers.
  abbrev pub IsServed : Event → AgentLog → Type 0
  IsServed ticked s = Unit
  IsServed paused s = Unit
  IsServed more_asked s = Unit
  IsServed (news_answered none) s = Unit
  IsServed (news_answered (some next)) s =
      Page next × Each (λ after. GoOn s.loading_more s.log after next) s.refreshing
  IsServed (news_rejected failure) s = Unit
  IsServed (more_answered none) s = Unit
  IsServed (more_answered (some older)) s =
      Page older
      × Each (λ request. place_of position transcript older.end_cursor ≡ position request.before)
          s.loading_more
  IsServed (more_rejected text) s = Unit

  either-IsShown :
      (test : Bool) (s t : AgentLog) → IsShown s → IsShown t → IsShown (if test then s else t)
  either-IsShown true s t v w = v
  either-IsShown false s t v w = w

  asked-live :
      (after cursor : String) (log : Option AgentTranscript)
      → after ≡ cursor
      → Each (λ l. cursor ≡ or_empty l.end_cursor) log
      → Each (λ l. after ≡ or_empty l.end_cursor) log
  asked-live after cursor none e v = tt
  asked-live after cursor (some l) e v = e ∙ v

  refreshed-IsShown :
      (refreshing : Option String) (news : Option AgentTranscript) (s : AgentLog)
      → IsShown s
      → Each (λ after. after ≡ s.end_cursor) refreshing
      → Each
          (λ next. Page next × Each (λ after. GoOn s.loading_more s.log after next) refreshing)
          news
      → IsShown (refreshed refreshing news s)
  unfolding refreshed take_news
  refreshed-IsShown none news s v e w = v
  refreshed-IsShown (some after) none s v e w = ground arith
  refreshed-IsShown (some after) (some next) s v e w = record {
    page =
        extend_log-IsPage after s.log next v.page (asked-live after s.end_cursor s.log e v.live)
          w.0;
    live = ap or_empty (sym (extend_log-end after s.log next));
    asked = tt;
    older = extend_log-Asks s.loading_more after s.log next v.older w.1;
  }

  request_before-IsShown :
      (log : AgentTranscript) (cursor : Option String) (s : AgentLog)
      → s.log ≡ some log
      → log.next_cursor ≡ cursor
      → IsShown s
      → IsShown (request_before log.session_id cursor s)
  unfolding request_before
  request_before-IsShown log none s e k v = v
  request_before-IsShown log (some before) s e k v =
      let request : OlderRequest = record { before = before; transcript_id = log.session_id } in
      either-IsShown (before == "" || not (is_none s.loading_more)) s
        (record s { loading_more = some request }) v
        (record {
          page = v.page;
          live = v.live;
          asked = v.asked;
          older = rw e (requested-Asks log before k);
        })

  -- `log` is the one that is shown.
  request_older-IsShown :
      (log : Option AgentTranscript) (s : AgentLog)
      → s.log ≡ log
      → IsShown s
      → IsShown (request_older log s)
  unfolding request_older
  request_older-IsShown none s e v = v
  request_older-IsShown (some log) s e v = request_before-IsShown log log.next_cursor s e refl v

  -- What is shown after the answer for an older page.
  record IsPrepended (cursor : String) (log : Option AgentTranscript) : Type 0 where
    page : Each Page log
    live : Each (λ l. cursor ≡ or_empty l.end_cursor) log

  prepend_older-end :
      (older current : AgentTranscript)
      → (prepend_older older current).end_cursor ≡ current.end_cursor
  unfolding prepend_older
  prepend_older-end older current = refl

  either-IsPrepended :
      (cursor : String) (test : Bool) (x y : Option AgentTranscript)
      → IsPrepended cursor x
      → (test ≡ false → IsPrepended cursor y)
      → IsPrepended cursor (if test then x else y)
  either-IsPrepended cursor true x y v w = v
  either-IsPrepended cursor false x y v w = w refl

  prepend_log-IsPrepended :
      (request : OlderRequest) (older : AgentTranscript) (cursor : String)
      (log : Option AgentTranscript)
      → Each Page log
      → Each (λ l. cursor ≡ or_empty l.end_cursor) log
      → Asks (some request) log
      → Page older
      → place_of position transcript older.end_cursor ≡ position request.before
      → IsPrepended cursor (prepend_log request older log)
  unfolding prepend_log
  prepend_log-IsPrepended request older cursor none v live asks w meet = record {
    page = tt;
    live = tt;
  }
  prepend_log-IsPrepended request older cursor (some current) v live asks w meet =
      either-IsPrepended cursor
        (not (older.session_id == request.transcript_id)
          || not (current.session_id == request.transcript_id))
        (some current) (some (prepend_older older current)) (record { page = v; live = live })
        (λ e.
          let this : older.session_id ≡ request.transcript_id =
            (eq_iff older.session_id request.transcript_id).0 (ground arith) in
          let that : current.session_id ≡ request.transcript_id =
            (eq_iff current.session_id request.transcript_id).0 (ground arith) in
          let start : position request.before ≡ place_of position transcript current.start_cursor =
            next_cursor-start current request.before v (asks that) in
          record {
            page =
                prepend_older-IsPage position transcript older current w v (this ∙ sym that)
                  (meet ∙ start);
            live = live ∙ ap or_empty (sym (prepend_older-end older current));
          })

  more_loaded-IsShown :
      (request : Option OlderRequest) (answer : Option AgentTranscript) (s : AgentLog)
      → IsShown s
      → Asks request s.log
      → Each
          (λ older.
            Page older
            × Each
                (λ request. place_of position transcript older.end_cursor ≡ position request.before)
                request)
          answer
      → IsShown (more_loaded request answer s)
  unfolding more_loaded take_older
  more_loaded-IsShown none answer s v asks w = v
  more_loaded-IsShown (some request) none s v asks w = record {
    page = v.page;
    live = v.live;
    asked = v.asked;
    older = tt;
  }
  more_loaded-IsShown (some request) (some older) s v asks w =
      let prepended =
        prepend_log-IsPrepended request older s.end_cursor s.log v.page v.live asks w.0 w.1 in
      record { page = prepended.page; live = prepended.live; asked = v.asked; older = tt }

  start_refresh-IsShown : (s : AgentLog) → IsShown s → IsShown (start_refresh s)
  unfolding start_refresh
  start_refresh-IsShown s v =
      either-IsShown (is_none s.refreshing) (record s { refreshing = some s.end_cursor }) s
        (record { page = v.page; live = v.live; asked = refl; older = v.older }) v

  refresh_failed-IsShown :
      (failure : Failure) (s : AgentLog) → IsShown s → IsShown (refresh_failed failure s)
  unfolding refresh_failed
  refresh_failed-IsShown agent_log_not_found s v = record {
    page = v.page;
    live = v.live;
    asked = tt;
    older = v.older;
  }
  refresh_failed-IsShown (other_failure text) s v = record {
    page = v.page;
    live = v.live;
    asked = tt;
    older = v.older;
  }

  more_failed-IsShown : (text : String) (s : AgentLog) → IsShown s → IsShown (more_failed text s)
  unfolding more_failed
  more_failed-IsShown text s v = record {
    page = v.page;
    live = v.live;
    asked = v.asked;
    older = tt;
  }

  step-IsShown : (e : Event) (s : AgentLog) → IsShown s → IsServed e s → IsShown (step e s)
  unfolding step load_more
  step-IsShown ticked s v w = start_refresh-IsShown s v
  step-IsShown paused s v w = record { page = v.page; live = v.live; asked = tt; older = v.older }
  step-IsShown more_asked s v w = request_older-IsShown s.log s refl v
  step-IsShown (news_answered none) s v w = refreshed-IsShown s.refreshing none s v v.asked tt
  step-IsShown (news_answered (some next)) s v w =
      refreshed-IsShown s.refreshing (some next) s v v.asked w
  step-IsShown (news_rejected failure) s v w =
      either-IsShown (is_none s.refreshing) s (refresh_failed failure s) v
        (refresh_failed-IsShown failure s v)
  step-IsShown (more_answered none) s v w = more_loaded-IsShown s.loading_more none s v v.older tt
  step-IsShown (more_answered (some older)) s v w =
      more_loaded-IsShown s.loading_more (some older) s v v.older w
  step-IsShown (more_rejected text) s v w =
      either-IsShown (is_none s.loading_more) s (more_failed text s) v
        (more_failed-IsShown text s v)

  abbrev pub AreServed : List Event → AgentLog → Type 0
  AreServed [] s = Unit
  AreServed (e ∷ es) s = IsServed e s × AreServed es (step e s)

  run-keeps : (es : List Event) (s : AgentLog) → IsShown s → AreServed es s → IsShown (run es s)
  unfolding run
  run-keeps [] s v w = v
  run-keeps (e ∷ es) s v w = run-keeps es (step e s) (step-IsShown e s v w.0) w.1

  create-IsShown : IsShown create
  create-IsShown = record { page = tt; live = tt; asked = tt; older = tt }

  -- If each answer is a page of the transcript, an older page ends where the one that was asked
  -- from starts, and news that come while an older page of the same transcript is on its way go on
  -- from what is shown, then in any order of requests, answers, errors and pauses the client shows
  -- a page of the transcript: its entries are those between its two cursors, all of them, once and
  -- in their order, with the tool groups merged, and the next request asks for what follows.
  pub run-IsShown : (es : List Event) → AreServed es create → IsShown (run es create)
  run-IsShown es w = run-keeps es create create-IsShown w
