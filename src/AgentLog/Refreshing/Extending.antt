-- ===== src/AgentLog/Refreshing/Extending.antt =====
-- What an answer does to the log that is shown, by its tests.
use euphony.Prelude.{
  ◌≡◌, ◌⊎◌, refl, sym, ap, ◌∙◌, Bool, true, false, not, Option, some, none, String, ◌&&◌, ◌||◌,
  ◌==◌, if◌then◌else◌, arith, inl, inr, eq_iff, eq_refl,
}
use euphony.AgentLog.Refreshing.{
  AgentTranscript, OlderRequest, or_empty, is_cursor, append_news, extend_log,
}

-- A request for an older page was made for what is shown, or it is out of date.
abbrev pub Asks : Option OlderRequest → Option AgentTranscript → Type 0
Asks none log = Unit
Asks (some request) none = ⊥
Asks (some request) (some log) =
    log.session_id ≡ request.transcript_id → log.next_cursor ≡ some request.before

-- News of the transcript of which an older page is on its way go on from what is shown.
abbrev pub GoOn : Option OlderRequest → Option AgentTranscript → String → AgentTranscript → Type 0
GoOn none log after next = Unit
GoOn (some request) none after next = Unit
GoOn (some request) (some log) after next =
    next.session_id ≡ request.transcript_id
    → (log.session_id ≡ next.session_id)
      × ((after == "") ≡ false)
      × (next.start_cursor ≡ some after)

pub or_empty_iff :
    (cursor : Option String) (after : String)
    → after ≡ or_empty cursor
    → (after == "") ≡ false
    → cursor ≡ some after
or_empty_iff none after e h = absurd (ground (arith, h, (eq_iff after "").1 e))
or_empty_iff (some cursor) after e h = ap some (sym e)

is_cursor_iff :
    (start : Option String) (cursor : String) → is_cursor start cursor ≡ true → start ≡ some cursor
is_cursor_iff none cursor h = absurd (ground arith)
is_cursor_iff (some start) cursor h = ap some ((eq_iff start cursor).0 h)

is_cursor_of :
    (start : Option String) (cursor : String) → start ≡ some cursor → is_cursor start cursor ≡ true
is_cursor_of start cursor h = rw h (eq_refl cursor)

abbrev differs : String → AgentTranscript → AgentTranscript → Bool
differs after current next =
    not (current.session_id == next.session_id)
    || (not (after == "") && not (is_cursor next.start_cursor after))

either :
    (P : AgentTranscript → Type 0) (test : Bool) (x y : AgentTranscript)
    → (test ≡ true → P x)
    → (test ≡ false → P y)
    → P (if test then x else y)
either P true x y v w = v refl
either P false x y v w = w refl

-- By the tests of the answer: it replaces what is shown, or goes on from it.
pub extend_log_cases :
    (P : AgentTranscript → Type 0) (after : String) (current next : AgentTranscript)
    → ((differs after current next ≡ true) ⊎ ((after == "") ≡ true) → P next)
    → (current.session_id ≡ next.session_id
        → (after == "") ≡ false
        → next.start_cursor ≡ some after
        → P (append_news current next))
    → P (extend_log after (some current) next)
unfolding extend_log
extend_log_cases P after current next replaced appended =
    either P (differs after current next) next
      (if after == "" then next else append_news current next) (λ e. replaced (inl e))
      (λ e.
        either P (after == "") next (append_news current next) (λ f. replaced (inr f))
          (λ f.
            appended ((eq_iff current.session_id next.session_id).0 (ground arith)) f
              (is_cursor_iff next.start_cursor after (ground arith))))

-- An answer that goes on does not replace what is shown.
goes_on :
    (after : String) (current next : AgentTranscript)
    → (current.session_id ≡ next.session_id)
      × ((after == "") ≡ false)
      × (next.start_cursor ≡ some after)
    → ¬ ((differs after current next ≡ true) ⊎ ((after == "") ≡ true))
goes_on after current next v (inl e) = ground (
  arith,
  e,
  (eq_iff current.session_id next.session_id).1 v.0,
  is_cursor_of next.start_cursor after v.2,
)
goes_on after current next v (inr e) = ground (arith, e, v.1)

append_news-end :
    (current next : AgentTranscript) → (append_news current next).end_cursor ≡ next.end_cursor
unfolding append_news
append_news-end current next = refl

append_news-next :
    (current next : AgentTranscript)
    → ((append_news current next).session_id ≡ current.session_id)
      × ((append_news current next).next_cursor ≡ current.next_cursor)
unfolding append_news
append_news-next current next = (refl, refl)

pub extend_log-end :
    (after : String) (log : Option AgentTranscript) (next : AgentTranscript)
    → (extend_log after log next).end_cursor ≡ next.end_cursor
unfolding extend_log
extend_log-end after none next = refl
extend_log-end after (some current) next =
    extend_log_cases (λ shown. shown.end_cursor ≡ next.end_cursor) after current next (λ e. refl)
      (λ same e start. append_news-end current next)

pub extend_log-Asks :
    (request : Option OlderRequest) (after : String) (log : Option AgentTranscript)
    (next : AgentTranscript)
    → Asks request log
    → GoOn request log after next
    → Asks request (some (extend_log after log next))
extend_log-Asks none after log next v w = tt
extend_log-Asks (some request) after none next v w = absurd v
extend_log-Asks (some request) after (some current) next v w =
    extend_log_cases
      (λ shown. shown.session_id ≡ request.transcript_id → shown.next_cursor ≡ some request.before)
      after current next (λ e k. absurd (goes_on after current next (w k) e))
      (λ same e start k. let kept = append_news-next current next in kept.1 ∙ v (sym kept.0 ∙ k))

pub requested-Asks :
    (log : AgentTranscript) (before : String)
    → log.next_cursor ≡ some before
    → Asks (some (record { before = before; transcript_id = log.session_id })) (some log)
requested-Asks log before e = λ same. e
