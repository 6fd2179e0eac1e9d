-- ===== src/TerminalConnection/Ordering/Events.antt =====
-- What the events that bring no data do to the order of the bytes.
use euphony.Prelude.{
  ℕ, ◌-◌, ◌≡◌, refl, sym, ◌∙◌, Bool, true, false, not, List, [], ◌∷◌, ◌++◌, ltb, ◌&&◌, ◌||◌,
  if◌then◌else◌, arith,
}
use euphony.TerminalOutput.{Batcher, flush, note_input, write, dispose, write_out}
use euphony.TerminalOutput.Delivery.{joined, flush-IsFlushed}
use euphony.TerminalOutput.Delivery as D
use euphony.TerminalOutput.Delivery.Steps.{
  all_bytes, IsDelivered, note_input-IsDelivered, step-IsDelivered,
}
use euphony.TerminalOutput as T
use euphony.TerminalConnection.{
  end_history_write, send_newline, wheel_input, wheel, shift_enter, lock_changed, ConnectionState,
  connected, disconnected, is_exited, Connection, end_replay, history_written, terminal_input,
  opened, closed, callback, flush_timeout, interactive_timeout, input, step,
}
use euphony.TerminalConnection.Ordering.{IsOrdered}
use euphony.TerminalConnection.Ordering.Steps.{IsWatched, either, nothing-IsOrdered}

-- The events that bring no data keep the order.
keeps-IsWatched :
    (seen : Bool) (before : List ℕ) (c d : Connection)
    → d.listening ≡ c.listening
    → (IsOrdered seen before c → IsOrdered seen before d)
    → IsWatched seen before c
    → IsWatched seen before d
keeps-IsWatched seen before c d same keeps v listening = keeps (v (sym same ∙ listening))

-- Another state of the socket or the counters.
opened-IsOrdered :
    (seen : Bool) (before : List ℕ) (c : Connection) (state : ConnectionState) (socket_open : Bool)
    → IsOrdered seen before c
    → IsOrdered seen before (record c { state = state; socket_open = socket_open })
opened-IsOrdered seen before c state socket_open v = record {
  active = v.active;
  sound = v.sound;
  delivered = v.delivered;
  first = v.first;
  emptied = v.emptied;
  waiting = v.waiting;
  unseen = v.unseen;
}

history_written-IsWatched :
    (seen : Bool) (before : List ℕ) (c : Connection)
    → IsWatched seen before c
    → IsWatched seen before (history_written c)
unfolding history_written end_history_write end_replay
history_written-IsWatched seen before c v =
    either (IsWatched seen before) (ltb 0 c.open_history_writes)
      (end_history_write (record c { open_history_writes = c.open_history_writes - 1 })) c
      (λ e listening.
        let w = v listening in
        record {
          active = w.active;
          sound = w.sound;
          delivered = w.delivered;
          first = w.first;
          emptied = w.emptied;
          waiting = w.waiting;
          unseen = w.unseen;
        })
      (λ e. v)

batch-IsOrdered :
    (seen : Bool) (before : List ℕ) (c : Connection) (b : Batcher) (inputs : List (List ℕ))
    → IsDelivered (all_bytes c.batcher) [] b
    → (joined c.batcher.pending ≡ [] → joined b.pending ≡ [])
    → IsOrdered seen before c
    → IsOrdered seen before (record c { batcher = b; inputs = inputs })
batch-IsOrdered seen before c b inputs batch held v =
    nothing-IsOrdered seen before c (record c { batcher = b; inputs = inputs })
      (record { active = refl; queue = refl; accepted = refl; batch = batch }) held v

flush_timeout-pending :
    (b : Batcher)
    → D.IsSound b
    → joined b.pending ≡ []
    → joined (T.step T.flush_timeout b).pending ≡ []
unfolding T.step
flush_timeout-pending b v h = ground (arith, flush-IsFlushed b v.counted)

interactive_timeout-pending :
    (b : Batcher) → joined b.pending ≡ [] → joined (T.step T.interactive_timeout b).pending ≡ []
unfolding T.step
interactive_timeout-pending b h = ground arith

note_input-pending : (b : Batcher) → D.IsSound b → joined (note_input b).pending ≡ []
unfolding note_input
note_input-pending b v =
    (flush-IsFlushed (record b { interactive = true; interactive_timer = true }) v.counted).emptied

terminal_input-IsWatched :
    (seen : Bool) (before bytes : List ℕ) (c : Connection)
    → IsWatched seen before c
    → IsWatched seen before (terminal_input bytes c)
unfolding terminal_input
terminal_input-IsWatched seen before bytes c v =
    let sent = if c.socket_open then c.inputs ++ bytes ∷ [] else c.inputs in
    either (IsWatched seen before) (c.replaying_history || c.locked) c
      (record c { batcher = note_input c.batcher; inputs = sent }) (λ e. v)
      (λ e listening.
        let w = v listening in
        batch-IsOrdered seen before c (note_input c.batcher) sent
          (note_input-IsDelivered c.batcher w.sound) (λ h. note_input-pending c.batcher w.sound) w)

wheel_input-IsWatched :
    (seen : Bool) (before bytes : List ℕ) (c : Connection)
    → IsWatched seen before c
    → IsWatched seen before (wheel_input bytes c)
unfolding wheel_input
wheel_input-IsWatched seen before [] c v = v
wheel_input-IsWatched seen before (byte ∷ bytes) c v =
    let sent = if c.socket_open then c.inputs ++ (byte ∷ bytes) ∷ [] else c.inputs in
    either (IsWatched seen before) c.locked c
      (record c { batcher = note_input c.batcher; inputs = sent }) (λ e. v)
      (λ e listening.
        let w = v listening in
        batch-IsOrdered seen before c (note_input c.batcher) sent
          (note_input-IsDelivered c.batcher w.sound) (λ h. note_input-pending c.batcher w.sound) w)

-- Another lock, or another input that was sent.
sent-IsOrdered :
    (seen : Bool) (before : List ℕ) (c : Connection) (locked : Bool) (inputs : List (List ℕ))
    → IsOrdered seen before c
    → IsOrdered seen before (record c { locked = locked; inputs = inputs })
sent-IsOrdered seen before c locked inputs v = record {
  active = v.active;
  sound = v.sound;
  delivered = v.delivered;
  first = v.first;
  emptied = v.emptied;
  waiting = v.waiting;
  unseen = v.unseen;
}

send_newline-IsWatched :
    (seen : Bool) (before : List ℕ) (c : Connection)
    → IsWatched seen before c
    → IsWatched seen before (send_newline c)
unfolding send_newline
send_newline-IsWatched seen before c v =
    let sent = c.inputs ++ (10 ∷ []) ∷ [] in
    either (IsWatched seen before) (c.locked || not c.socket_open) c (record c { inputs = sent })
      (λ e. v) (λ e listening. sent-IsOrdered seen before c c.locked sent (v listening))

pub step-opened-IsWatched :
    (seen : Bool) (before : List ℕ) (c : Connection)
    → IsWatched seen before c
    → IsWatched seen before (step opened c)
unfolding step
step-opened-IsWatched seen before c v =
    either (IsWatched seen before) (c.active && c.listening)
      (record c { state = connected; socket_open = true }) c
      (λ e listening. opened-IsOrdered seen before c connected true (v listening)) (λ e. v)

pub step-closed-IsWatched :
    (seen : Bool) (before : List ℕ) (c : Connection)
    → IsWatched seen before c
    → IsWatched seen before (step closed c)
unfolding step
step-closed-IsWatched seen before c v =
    let state = if is_exited c.state then c.state else disconnected in
    either (IsWatched seen before) (c.active && c.listening)
      (record c { socket_open = false; state = state }) c
      (λ e listening. opened-IsOrdered seen before c state false (v listening)) (λ e. v)

pub step-callback-IsWatched :
    (seen : Bool) (before : List ℕ) (c : Connection)
    → IsWatched seen before c
    → IsWatched seen before (step callback c)
unfolding step
step-callback-IsWatched seen before c v =
    either (IsWatched seen before) c.active (history_written c) c
      (λ e. history_written-IsWatched seen before c v) (λ e. v)

pub step-flush_timeout-IsWatched :
    (seen : Bool) (before : List ℕ) (c : Connection)
    → IsWatched seen before c
    → IsWatched seen before (step flush_timeout c)
unfolding step
step-flush_timeout-IsWatched seen before c v =
    let b = T.step T.flush_timeout c.batcher in
    either (IsWatched seen before) c.active (record c { batcher = b }) c
      (λ e listening.
        let w = v listening in
        batch-IsOrdered seen before c b c.inputs
          (step-IsDelivered T.flush_timeout c.batcher w.sound)
          (flush_timeout-pending c.batcher w.sound) w)
      (λ e. v)

pub step-interactive_timeout-IsWatched :
    (seen : Bool) (before : List ℕ) (c : Connection)
    → IsWatched seen before c
    → IsWatched seen before (step interactive_timeout c)
unfolding step
step-interactive_timeout-IsWatched seen before c v =
    let b = T.step T.interactive_timeout c.batcher in
    either (IsWatched seen before) c.active (record c { batcher = b }) c
      (λ e listening.
        let w = v listening in
        batch-IsOrdered seen before c b c.inputs
          (step-IsDelivered T.interactive_timeout c.batcher w.sound)
          (interactive_timeout-pending c.batcher) w)
      (λ e. v)

pub step-input-IsWatched :
    (seen : Bool) (before bytes : List ℕ) (c : Connection)
    → IsWatched seen before c
    → IsWatched seen before (step (input bytes) c)
unfolding step
step-input-IsWatched seen before bytes c v =
    either (IsWatched seen before) c.active (terminal_input bytes c) c
      (λ e. terminal_input-IsWatched seen before bytes c v) (λ e. v)

pub step-wheel-IsWatched :
    (seen : Bool) (before bytes : List ℕ) (c : Connection)
    → IsWatched seen before c
    → IsWatched seen before (step (wheel bytes) c)
unfolding step
step-wheel-IsWatched seen before bytes c v =
    either (IsWatched seen before) c.active (wheel_input bytes c) c
      (λ e. wheel_input-IsWatched seen before bytes c v) (λ e. v)

pub step-shift_enter-IsWatched :
    (seen : Bool) (before : List ℕ) (c : Connection)
    → IsWatched seen before c
    → IsWatched seen before (step shift_enter c)
unfolding step
step-shift_enter-IsWatched seen before c v =
    either (IsWatched seen before) c.active (send_newline c) c
      (λ e. send_newline-IsWatched seen before c v) (λ e. v)

pub step-lock_changed-IsWatched :
    (seen : Bool) (before : List ℕ) (c : Connection) (locked : Bool)
    → IsWatched seen before c
    → IsWatched seen before (step (lock_changed locked) c)
unfolding step
step-lock_changed-IsWatched seen before c locked v listening =
    sent-IsOrdered seen before c locked c.inputs (v listening)
