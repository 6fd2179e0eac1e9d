-- ===== src/TerminalConnection/Ordering/Messages.antt =====
-- What each message does to the order of the bytes.
use euphony.Prelude.{
  ℕ, ◌≡◌, sym, Bool, true, false, some, none, List, [], ◌∷◌, ◌++◌, ◌&&◌, ◌||◌, arith, append-nil,
}
use euphony.TerminalConnection.{
  takes, ConnectionState, exited, Notice, process_exited, server_error, Connection, end_replay,
  Message, history, history_end, output, resize, exit, error, receive_history, receive_output,
  is_size, flush_output, accept_size, note, receive_error, handle_message, message, step,
}
use euphony.TerminalConnection.Ordering.{IsOrdered}
use euphony.TerminalConnection.Ordering.Steps.{
  IsWatched, either, receive_history-IsWatched, receive_output-IsWatched, flush_output-IsOrdered,
}
use euphony.TerminalConnection.Ordering.Sizes.{end_replay-IsOrdered, accept_size-IsOrdered}
use euphony.TerminalConnection.Replaying.{IsReplaying}

abbrev pub message_bytes : Message → List ℕ
message_bytes (history none) = []
message_bytes (history (some bytes)) = bytes
message_bytes history_end = []
message_bytes (output none) = []
message_bytes (output (some bytes)) = bytes
message_bytes (resize cols rows) = []
message_bytes (exit code) = []
message_bytes (error bytes) = []

abbrev pub is_output : Message → Bool
is_output (history bytes) = false
is_output history_end = false
is_output (output none) = false
is_output (output (some bytes)) = true
is_output (resize cols rows) = false
is_output (exit code) = false
is_output (error bytes) = false

-- A history does not come after an output.
abbrev pub IsAllowed : Bool → Message → Type 0
IsAllowed seen (history none) = Unit
IsAllowed seen (history (some bytes)) = seen ≡ false
IsAllowed seen history_end = Unit
IsAllowed seen (output bytes) = Unit
IsAllowed seen (resize cols rows) = Unit
IsAllowed seen (exit code) = Unit
IsAllowed seen (error bytes) = Unit

-- The same data under other notices and states.
noted-IsOrdered :
    (seen : Bool) (before : List ℕ) (notice : Notice) (c : Connection)
    → IsOrdered seen before c
    → IsOrdered seen before (note notice c)
unfolding note
noted-IsOrdered seen before notice c v = record {
  active = v.active;
  sound = v.sound;
  delivered = v.delivered;
  first = v.first;
  emptied = v.emptied;
  waiting = v.waiting;
  unseen = v.unseen;
}

IsHandled : Bool → Bool → List ℕ → Message → Connection → Type 0
IsHandled synchronous seen before m c =
    IsWatched (seen || is_output m) (before ++ message_bytes m)
      (handle_message (takes synchronous) m c)

nothing-IsWatched :
    (seen : Bool) (before : List ℕ) (c : Connection)
    → IsOrdered seen before c
    → IsWatched (seen || false) (before ++ []) c
nothing-IsWatched seen before c v listening =
    let same : (seen || false) ≡ seen = ground arith in rw (append-nil before, same) v

later-IsWatched :
    (seen later : Bool) (bytes : List ℕ) (c : Connection)
    → seen ≡ later
    → IsWatched seen bytes c
    → IsWatched later bytes c
later-IsWatched seen later bytes c e v = rw (sym e) v

noted_flush-IsOrdered :
    (seen : Bool) (before : List ℕ) (notice : Notice) (c : Connection)
    → IsOrdered seen before c
    → IsOrdered seen before (note notice (flush_output c))
noted_flush-IsOrdered seen before notice c v =
    noted-IsOrdered seen before notice (flush_output c) (flush_output-IsOrdered seen before c v)

exited-IsOrdered :
    (seen : Bool) (before : List ℕ) (c : Connection) (state : ConnectionState)
    → IsOrdered seen before c
    → IsOrdered seen before (record c { state = state })
exited-IsOrdered seen before c state v = record {
  active = v.active;
  sound = v.sound;
  delivered = v.delivered;
  first = v.first;
  emptied = v.emptied;
  waiting = v.waiting;
  unseen = v.unseen;
}

handle_message-IsHandled :
    (synchronous seen : Bool) (before : List ℕ) (m : Message) (c : Connection)
    → IsOrdered seen before c
    → IsAllowed seen m
    → (c.initial_queue_overflowed ≡ true → c.listening ≡ false)
    → IsHandled synchronous seen before m c
unfolding IsHandled handle_message receive_history receive_output flush_output receive_error
handle_message-IsHandled synchronous seen before (history none) c v allowed whole =
    nothing-IsWatched seen before c v
handle_message-IsHandled synchronous seen before (history (some bytes)) c v allowed whole =
    later-IsWatched seen (seen || false) (before ++ bytes)
      (receive_history (takes synchronous) (some bytes) c) (ground arith)
      (receive_history-IsWatched synchronous seen before bytes c v allowed whole)
handle_message-IsHandled synchronous seen before history_end c v allowed whole =
    let complete : Connection = record c { history_stream_complete = true } in
    let w : IsOrdered seen before complete = ground arith in
    nothing-IsWatched seen before (end_replay complete)
      (end_replay-IsOrdered seen before complete w)
handle_message-IsHandled synchronous seen before (output none) c v allowed whole =
    nothing-IsWatched seen before c v
handle_message-IsHandled synchronous seen before (output (some bytes)) c v allowed whole =
    later-IsWatched true (seen || true) (before ++ bytes) (receive_output (some bytes) c)
      (ground arith) (receive_output-IsWatched seen before bytes c v whole)
handle_message-IsHandled synchronous seen before (resize cols rows) c v allowed whole =
    either (IsWatched (seen || false) (before ++ [])) (is_size cols && is_size rows)
      (accept_size (takes synchronous) cols rows c) c
      (λ e.
        nothing-IsWatched seen before (accept_size (takes synchronous) cols rows c)
          (accept_size-IsOrdered synchronous seen before cols rows c v))
      (λ e. nothing-IsWatched seen before c v)
handle_message-IsHandled synchronous seen before (exit code) c v allowed whole =
    nothing-IsWatched seen before
      (note (process_exited code) (record (flush_output c) { state = exited }))
      (noted-IsOrdered seen before (process_exited code)
        (record (flush_output c) { state = exited })
        (exited-IsOrdered seen before (flush_output c) exited
          (flush_output-IsOrdered seen before c v)))
handle_message-IsHandled synchronous seen before (error []) c v allowed whole =
    nothing-IsWatched seen before c v
handle_message-IsHandled synchronous seen before (error (byte ∷ bytes)) c v allowed whole =
    nothing-IsWatched seen before (note (server_error (byte ∷ bytes)) (flush_output c))
      (noted_flush-IsOrdered seen before (server_error (byte ∷ bytes)) c v)

pub message_step-IsWatched :
    (synchronous seen : Bool) (before : List ℕ) (m : Message) (c : Connection)
    → IsWatched seen before c
    → IsAllowed seen m
    → IsReplaying c
    → IsWatched
        (seen || is_output m)
        (before ++ message_bytes m)
        (step (message (takes synchronous) m) c)
unfolding step IsHandled
message_step-IsWatched synchronous seen before m c v allowed replaying =
    either (IsWatched (seen || is_output m) (before ++ message_bytes m)) (c.active && c.listening)
      (handle_message (takes synchronous) m c) c
      (λ e.
        handle_message-IsHandled synchronous seen before m c (v (ground arith)) allowed
          replaying.writing.overflowed)
      (λ e listening. absurd (ground (arith, (v listening).active)))
