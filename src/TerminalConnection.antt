-- ===== src/TerminalConnection.antt =====
-- web/src/components/TerminalView.tsx, the effect of `useTerminalView` that joins a terminal with
-- the socket of a session, from the moment that the socket is made. Decoded payloads are lists of
-- bytes; `none` is a payload that is missing or malformed.
--
-- Everything passes through the flow control on its way to the terminal, and none of its branches
-- drops or delays bytes, so what the terminal was given is the `written` of the batcher, to which
-- the history writes are added. The terminal may throw on a history write; a terminal that throws
-- on output is left out.
pub mod Replaying
pub mod Ordering
pub mod Capacity
mod Tests
use euphony.Prelude.{
  ℕ, ◌+◌, ◌-◌, Bool, true, false, not, Option, some, none, List, [], ◌∷◌, ◌++◌, length, ltb, leb,
  eqb, ◌&&◌, ◌||◌, if◌then◌else◌, max, min, ℤ, pos, negsuc, zero, suc,
}
use euphony.TerminalOutput.{Batcher, flush, note_input, write, dispose, write_out}

pub data ConnectionState : Type 0 where
  connecting connected disconnected exited : ConnectionState

pub record InitialData : Type 0 where
  pub bytes : List ℕ
  pub history : Bool

-- What the terminal does with the history writes of a message: it takes them, and calls back within
-- the call if `synchronous`, else later; or it throws.
pub data HistoryOutcome : Type 0 where
  takes : (synchronous : Bool) → HistoryOutcome
  throws : HistoryOutcome

-- What the terminal is told at the end of a session or on an error, with the number of writes
-- that came before it.
pub data Notice : Type 0 where
  process_exited : Option ℤ → Notice
  server_error : List ℕ → Notice

-- `open_history_writes` counts the callbacks that the terminal still owes; the count of the source
-- is `pending_history_writes`.
pub record Connection : Type 0 where
  pub active : Bool
  pub locked : Bool
  pub listening : Bool
  pub socket_open : Bool
  pub state : ConnectionState
  pub replaying_history : Bool
  pub accepted_size_received : Bool
  pub queued_initial_data : List InitialData
  pub queued_initial_bytes : ℕ
  pub initial_queue_overflowed : Bool
  pub initial_queue_limit : ℕ
  pub pending_history_writes : ℤ
  pub open_history_writes : ℕ
  pub history_stream_complete : Bool
  pub shared_size : Option (ℕ × ℕ)
  pub batcher : Batcher
  pub notices : List (ℕ × Notice)
  pub inputs : List (List ℕ)

abbrev pub max_queued_initial_bytes : ℕ
max_queued_initial_bytes = 2_097_152

unfoldable pub initial_queue_limit_for : ℕ → ℕ
initial_queue_limit_for history_limit =
    if ltb 0 history_limit
    then min max_queued_initial_bytes (max 1024 history_limit)
    else max_queued_initial_bytes

unfoldable pub create : ℕ → Bool → Connection
unfolding initial_queue_limit_for
create history_limit locked = record {
  active = true;
  locked = locked;
  listening = true;
  socket_open = false;
  state = connecting;
  replaying_history = false;
  accepted_size_received = false;
  queued_initial_data = [];
  queued_initial_bytes = 0;
  initial_queue_overflowed = false;
  initial_queue_limit = initial_queue_limit_for history_limit;
  pending_history_writes = pos 0;
  open_history_writes = 0;
  history_stream_complete = false;
  shared_size = none;
  batcher = euphony.TerminalOutput.create;
  notices = [];
  inputs = [];
}

abbrev pub is_empty : {A : Type 0} → List A → Bool
is_empty [] = true
is_empty (x ∷ xs) = false

abbrev pub increment : ℤ → ℤ
increment (pos n) = pos (n + 1)
increment (negsuc zero) = pos 0
increment (negsuc (suc n)) = negsuc n

abbrev pub decrement : ℤ → ℤ
decrement (pos zero) = negsuc 0
decrement (pos (suc n)) = pos n
decrement (negsuc n) = negsuc (n + 1)

abbrev pub is_zero : ℤ → Bool
is_zero (pos n) = eqb n 0
is_zero (negsuc n) = false

-- The end of the replay, tested after a history write, the end of the history and the first size.
unfoldable pub end_replay : Connection → Connection
end_replay c = record c {
  replaying_history =
      if c.accepted_size_received
        && (c.history_stream_complete
            && (is_zero c.pending_history_writes && is_empty c.queued_initial_data))
      then false
      else c.replaying_history;
}

unfoldable pub close_socket : Connection → Connection
close_socket c = record c { listening = false; socket_open = false }

pub overflow : Connection → Connection
unfolding close_socket
overflow c = close_socket (record c {
  queued_initial_data = [];
  queued_initial_bytes = 0;
  initial_queue_overflowed = true;
})

pub enqueue : List ℕ → Bool → Connection → Connection
enqueue bytes history c = record c {
  queued_initial_data = c.queued_initial_data ++ record { bytes = bytes; history = history } ∷ [];
  queued_initial_bytes = c.queued_initial_bytes + length bytes;
}

unfoldable pub queue_initial_data : List ℕ → Bool → Connection → Connection
unfolding overflow enqueue
queue_initial_data bytes history c =
    if c.initial_queue_overflowed
    then c
    else if ltb c.initial_queue_limit (c.queued_initial_bytes + length bytes)
    then overflow c
    else enqueue bytes history c

-- One more pending write, and one less: as the terminal calls back, and as `catch` does.
begin_history_write : Connection → Connection
begin_history_write c = record c {
  replaying_history = true;
  pending_history_writes = increment c.pending_history_writes;
}

end_history_write : Connection → Connection
unfolding end_replay
end_history_write c =
    end_replay (record c { pending_history_writes = decrement c.pending_history_writes })

-- The flow control calls back at once for no bytes; for a write that throws it calls back and
-- throws again, so that the write ends twice.
unfoldable pub write_history : HistoryOutcome → List ℕ → Connection → Connection
unfolding begin_history_write end_history_write write_out
write_history outcome [] c = end_history_write (begin_history_write c)
write_history (takes synchronous) (byte ∷ bytes) c =
    let begun = begin_history_write c in
    let written = record begun { batcher = write_out (byte ∷ bytes) c.batcher } in
    if synchronous
    then end_history_write written
    else record written { open_history_writes = c.open_history_writes + 1 }
write_history throws (byte ∷ bytes) c =
    end_history_write (end_history_write (begin_history_write c))

-- The callback of a history write, if the terminal owes one.
unfoldable pub history_written : Connection → Connection
unfolding end_history_write
history_written c =
    if ltb 0 c.open_history_writes
    then end_history_write (record c { open_history_writes = c.open_history_writes - 1 })
    else c

pub data Message : Type 0 where
  history : Option (List ℕ) → Message
  history_end : Message
  output : Option (List ℕ) → Message
  resize : ℕ → ℕ → Message
  exit : Option ℤ → Message
  error : List ℕ → Message

pub receive_history : HistoryOutcome → Option (List ℕ) → Connection → Connection
unfolding write_history queue_initial_data
receive_history outcome none c = c
receive_history outcome (some bytes) c =
    let replaying = record c { replaying_history = true } in
    if c.accepted_size_received
    then write_history outcome bytes replaying
    else queue_initial_data bytes true replaying

pub receive_output : Option (List ℕ) → Connection → Connection
unfolding write queue_initial_data
receive_output none c = c
receive_output (some bytes) c =
    if c.accepted_size_received
    then record c { batcher = write bytes c.batcher }
    else queue_initial_data bytes false c

-- The loop over what came before the first size.
unfoldable pub write_entry : HistoryOutcome → InitialData → Connection → Connection
unfolding write_history write
write_entry outcome entry c =
    if entry.history
    then write_history outcome entry.bytes c
    else record c { batcher = write entry.bytes c.batcher }

unfoldable pub write_initial : HistoryOutcome → List InitialData → Connection → Connection
unfolding write_entry
write_initial outcome [] c = c
write_initial outcome (entry ∷ entries) c =
    write_initial outcome entries (write_entry outcome entry c)

is_size : ℕ → Bool
is_size n = leb 1 n && leb n 1000

pub flush_output : Connection → Connection
unfolding flush
flush_output c = record c { batcher = flush c.batcher }

-- The terminal has the size, and the queue is taken.
take_size : ℕ → ℕ → Connection → Connection
unfolding flush_output
take_size cols rows c = record (flush_output c) {
  accepted_size_received = true;
  shared_size = some (cols, rows);
  queued_initial_data = [];
  queued_initial_bytes = 0;
}

pub accept_size : HistoryOutcome → ℕ → ℕ → Connection → Connection
unfolding flush_output take_size write_initial end_replay
accept_size outcome cols rows c =
    end_replay (flush_output (write_initial outcome c.queued_initial_data (take_size cols rows c)))

pub note : Notice → Connection → Connection
note notice c = record c { notices = c.notices ++ (length c.batcher.written, notice) ∷ [] }

pub receive_error : List ℕ → Connection → Connection
unfolding note flush_output
receive_error [] c = c
receive_error (byte ∷ message) c = note (server_error (byte ∷ message)) (flush_output c)

unfoldable pub handle_message : HistoryOutcome → Message → Connection → Connection
unfolding receive_history receive_output is_size accept_size receive_error note flush_output
    end_replay
handle_message outcome (history bytes) c = receive_history outcome bytes c
handle_message outcome history_end c = end_replay (record c { history_stream_complete = true })
handle_message outcome (output bytes) c = receive_output bytes c
handle_message outcome (resize cols rows) c =
    if is_size cols && is_size rows then accept_size outcome cols rows c else c
handle_message outcome (exit code) c =
    note (process_exited code) (record (flush_output c) { state = exited })
handle_message outcome (error message) c = receive_error message c

is_exited : ConnectionState → Bool
is_exited exited = true
is_exited connecting = false
is_exited connected = false
is_exited disconnected = false

-- Input of the user, which the terminal also makes up as an answer to what it is given.
unfoldable pub terminal_input : List ℕ → Connection → Connection
unfolding note_input
terminal_input bytes c = if c.replaying_history || c.locked then c else record c {
  batcher = note_input c.batcher;
  inputs = if c.socket_open then c.inputs ++ bytes ∷ [] else c.inputs;
}

-- Shift+Enter sends a line feed, also during the replay.
unfoldable pub send_newline : Connection → Connection
send_newline c =
    if c.locked || not c.socket_open then c else record c { inputs = c.inputs ++ (10 ∷ []) ∷ [] }

-- The keys that stand for a turn of the wheel, for a terminal without `input`; with it they come
-- as input of the user.
unfoldable pub wheel_input : List ℕ → Connection → Connection
unfolding note_input
wheel_input [] c = c
wheel_input (byte ∷ bytes) c = if c.locked then c else record c {
  batcher = note_input c.batcher;
  inputs = if c.socket_open then c.inputs ++ (byte ∷ bytes) ∷ [] else c.inputs;
}

-- The cleanup of the effect.
unfoldable pub clean_up : Connection → Connection
unfolding dispose close_socket
clean_up c = close_socket (record c { active = false; batcher = dispose c.batcher })

pub data Event : Type 0 where
  opened closed callback flush_timeout interactive_timeout cleaned : Event
  message : HistoryOutcome → Message → Event
  input wheel : List ℕ → Event
  shift_enter : Event
  lock_changed : Bool → Event

-- Listeners are called while they are attached, and nothing is done after the cleanup. A render
-- may change whether the terminal is locked.
unfoldable pub step : Event → Connection → Connection
unfolding handle_message history_written terminal_input send_newline wheel_input clean_up is_exited
    flush_output
step opened c =
    if c.active && c.listening then record c { state = connected; socket_open = true } else c
step closed c =
    if c.active && c.listening
    then record c {
      socket_open = false;
      state = if is_exited c.state then c.state else disconnected;
    }
    else c
step callback c = if c.active then history_written c else c
step flush_timeout c =
    if c.active
    then record c {
      batcher = euphony.TerminalOutput.step euphony.TerminalOutput.flush_timeout c.batcher;
    }
    else c
step interactive_timeout c =
    if c.active
    then record c {
      batcher = euphony.TerminalOutput.step euphony.TerminalOutput.interactive_timeout c.batcher;
    }
    else c
step cleaned c = if c.active then clean_up c else c
step (message outcome m) c = if c.active && c.listening then handle_message outcome m c else c
step (input bytes) c = if c.active then terminal_input bytes c else c
step (wheel bytes) c = if c.active then wheel_input bytes c else c
step shift_enter c = if c.active then send_newline c else c
step (lock_changed locked) c = record c { locked = locked }

unfoldable pub run : List Event → Connection → Connection
unfolding step
run [] c = c
run (e ∷ es) c = run es (step e c)
