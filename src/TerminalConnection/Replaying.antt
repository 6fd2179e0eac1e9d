-- ===== src/TerminalConnection/Replaying.antt =====
-- When the replay of the history is on, and the bounds of the queue.
use euphony.Prelude.{
  ℕ, ◌+◌, ◌-◌, ◌≤◌, ◌<◌, ◌≡◌, refl, ap, ◌∙◌, Bool, true, false, Option, some, none, List, [], ◌∷◌,
  ◌++◌, length, ltb, ◌&&◌, ◌||◌, if◌then◌else◌, arith, any, pos, zero, suc, eqb,
}
use euphony.TerminalOutput.{write}
use euphony.TerminalConnection.{
  InitialData, Connection, create, is_empty, end_replay, takes, throws, increment, decrement,
  is_zero, begin_history_write, end_history_write, send_newline, wheel_input, wheel, shift_enter,
  lock_changed, close_socket, overflow, enqueue, queue_initial_data, write_history, history_written,
  Message, history, history_end, output, resize, exit, error, receive_history, receive_output,
  write_entry, write_initial, take_size, is_size, flush_output, accept_size, note, receive_error,
  handle_message, terminal_input, clean_up, Event, opened, closed, callback, flush_timeout,
  interactive_timeout, cleaned, message, input, step, run,
}

abbrev pub total_bytes : List InitialData → ℕ
total_bytes [] = 0
total_bytes (entry ∷ entries) = length entry.bytes + total_bytes entries

abbrev pub has_history : List InitialData → Bool
has_history entries = any (λ entry. entry.history) entries

total_bytes-snoc :
    (entries : List InitialData) (entry : InitialData)
    → total_bytes (entries ++ entry ∷ []) ≡ total_bytes entries + length entry.bytes
total_bytes-snoc [] entry = omega arith
total_bytes-snoc (x ∷ entries) entry = omega (arith, total_bytes-snoc entries entry)

has_history-snoc :
    (entries : List InitialData) (entry : InitialData)
    → has_history (entries ++ entry ∷ []) ≡ (has_history entries || entry.history)
has_history-snoc [] entry = ground arith
has_history-snoc (x ∷ entries) entry = ground (arith, has_history-snoc entries entry)

-- The pending history writes are the callbacks that the terminal owes; the replay is on while a
-- history write is pending or a history waits in the queue; the queue
-- keeps count, within its limit, and is empty after the first size.
pub record IsWriting (c : Connection) : Type 0 where
  pub owed : c.pending_history_writes ≡ pos c.open_history_writes
  pub while_writing : 0 < c.open_history_writes → c.replaying_history ≡ true
  pub while_queued : has_history c.queued_initial_data ≡ true → c.replaying_history ≡ true
  pub counted : c.queued_initial_bytes ≡ total_bytes c.queued_initial_data
  pub bounded : c.queued_initial_bytes ≤ c.initial_queue_limit
  pub emptied : c.accepted_size_received ≡ true → c.queued_initial_data ≡ []
  pub overflowed : c.initial_queue_overflowed ≡ true → c.listening ≡ false

-- It is off once the first size has come and the history is complete and written.
pub record IsReplaying (c : Connection) : Type 0 where
  pub writing : IsWriting c
  pub ends :
      c.accepted_size_received ≡ true
      → c.history_stream_complete ≡ true
      → c.pending_history_writes ≡ pos 0
      → c.replaying_history ≡ false

is_empty_iff : (entries : List InitialData) → is_empty entries ≡ true → entries ≡ []
is_empty_iff [] h = refl
is_empty_iff (x ∷ entries) h = cc

end_replay-IsReplaying : (c : Connection) → IsWriting c → IsReplaying (end_replay c)
unfolding end_replay
end_replay-IsReplaying c v =
    let counted : is_zero c.pending_history_writes ≡ eqb c.open_history_writes 0 = rw v.owed refl in
    ground (arith, is_empty_iff c.queued_initial_data, counted)

decrement_lem : (n : ℕ) → 0 < n → decrement (pos n) ≡ pos (n - 1)
decrement_lem zero h = absurd (ground arith)
decrement_lem (suc n) h = ap pos (omega arith)

decrement-increment : (n : ℕ) → decrement (increment (pos n)) ≡ pos n
decrement-increment n = decrement_lem (n + 1) (omega arith) ∙ ap pos (omega arith)

-- A write that begins and ends leaves the counts as they were.
written_at_once :
    (c : Connection)
    → IsWriting c
    → decrement (increment c.pending_history_writes) ≡ pos c.open_history_writes
written_at_once c v = rw v.owed (decrement-increment c.open_history_writes)

write_history-IsReplaying :
    (synchronous : Bool) (bytes : List ℕ) (c : Connection)
    → c.accepted_size_received ≡ true
    → IsWriting c
    → IsReplaying (write_history (takes synchronous) bytes c)
unfolding write_history end_history_write begin_history_write
write_history-IsReplaying synchronous [] c accepted v =
    end_replay-IsReplaying _ (ground (arith, written_at_once c v))
write_history-IsReplaying true (byte ∷ bytes) c accepted v =
    end_replay-IsReplaying _ (ground (arith, written_at_once c v))
write_history-IsReplaying false (byte ∷ bytes) c accepted v =
    let more : increment c.pending_history_writes ≡ pos (c.open_history_writes + 1) =
      rw v.owed refl in
    ground (arith, more)

write_history-accepted :
    (synchronous : Bool) (bytes : List ℕ) (c : Connection)
    → (write_history (takes synchronous) bytes c).accepted_size_received ≡ c.accepted_size_received
unfolding write_history end_history_write begin_history_write end_replay
write_history-accepted synchronous [] c = refl
write_history-accepted true (byte ∷ bytes) c = refl
write_history-accepted false (byte ∷ bytes) c = refl

queue_initial_data-IsReplaying :
    (bytes : List ℕ) (is_history : Bool) (c : Connection)
    → c.accepted_size_received ≡ false
    → (is_history ≡ true → c.replaying_history ≡ true)
    → IsWriting c
    → IsReplaying (queue_initial_data bytes is_history c)
unfolding queue_initial_data overflow enqueue close_socket
queue_initial_data-IsReplaying bytes is_history c waiting on v =
    let entry : InitialData = record { bytes = bytes; history = is_history } in
    ground (
      arith,
      total_bytes-snoc c.queued_initial_data entry,
      has_history-snoc c.queued_initial_data entry,
    )

either-IsWriting :
    (test : Bool) (c d : Connection) → IsWriting c → IsWriting d → IsWriting (if test then c else d)
either-IsWriting true c d v w = v
either-IsWriting false c d v w = w

either-IsReplaying :
    (test : Bool) (c d : Connection)
    → (test ≡ true → IsReplaying c)
    → (test ≡ false → IsReplaying d)
    → IsReplaying (if test then c else d)
either-IsReplaying true c d v w = v refl
either-IsReplaying false c d v w = w refl

receive_history-IsReplaying :
    (synchronous : Bool) (bytes : Option (List ℕ)) (c : Connection)
    → IsReplaying c
    → IsReplaying (receive_history (takes synchronous) bytes c)
unfolding receive_history
receive_history-IsReplaying synchronous none c v = v
receive_history-IsReplaying synchronous (some bytes) c v =
    let replaying = record c { replaying_history = true } in
    let writing : IsWriting replaying = ground arith in
    either-IsReplaying c.accepted_size_received (write_history (takes synchronous) bytes replaying)
      (queue_initial_data bytes true replaying)
      (λ e. write_history-IsReplaying synchronous bytes replaying e writing)
      (λ e. queue_initial_data-IsReplaying bytes true replaying e (λ on. refl) writing)

receive_output-IsReplaying :
    (bytes : Option (List ℕ)) (c : Connection)
    → IsReplaying c
    → IsReplaying (receive_output bytes c)
unfolding receive_output
receive_output-IsReplaying none c v = v
receive_output-IsReplaying (some bytes) c v =
    either-IsReplaying c.accepted_size_received (record c { batcher = write bytes c.batcher })
      (queue_initial_data bytes false c) (λ e. ground arith)
      (λ e. queue_initial_data-IsReplaying bytes false c e (λ on. cc) v.writing)

write_entry-accepted :
    (synchronous : Bool) (entry : InitialData) (c : Connection)
    → (write_entry (takes synchronous) entry c).accepted_size_received ≡ c.accepted_size_received
unfolding write_entry
write_entry-accepted synchronous entry c =
    ground (arith, write_history-accepted synchronous entry.bytes c)

write_entry-IsReplaying :
    (synchronous : Bool) (entry : InitialData) (c : Connection)
    → c.accepted_size_received ≡ true
    → IsWriting c
    → IsWriting (write_entry (takes synchronous) entry c)
unfolding write_entry
write_entry-IsReplaying synchronous entry c accepted v =
    either-IsWriting entry.history (write_history (takes synchronous) entry.bytes c)
      (record c { batcher = write entry.bytes c.batcher })
      (write_history-IsReplaying synchronous entry.bytes c accepted v).writing (ground arith)

write_initial-IsWriting :
    (synchronous : Bool) (entries : List InitialData) (c : Connection)
    → c.accepted_size_received ≡ true
    → IsWriting c
    → IsWriting (write_initial (takes synchronous) entries c)
unfolding write_initial
write_initial-IsWriting synchronous [] c accepted v = v
write_initial-IsWriting synchronous (entry ∷ entries) c accepted v =
    write_initial-IsWriting synchronous entries (write_entry (takes synchronous) entry c)
      (write_entry-accepted synchronous entry c ∙ accepted)
      (write_entry-IsReplaying synchronous entry c accepted v)

flush_output-IsWriting : (c : Connection) → IsWriting c → IsWriting (flush_output c)
unfolding flush_output
flush_output-IsWriting c v = ground arith

take_size-IsWriting :
    (cols rows : ℕ) (c : Connection) → IsWriting c → IsWriting (take_size cols rows c)
unfolding take_size flush_output
take_size-IsWriting cols rows c v = ground arith

take_size-accepted :
    (cols rows : ℕ) (c : Connection) → (take_size cols rows c).accepted_size_received ≡ true
unfolding take_size
take_size-accepted cols rows c = refl

accept_size-IsReplaying :
    (synchronous : Bool) (cols rows : ℕ) (c : Connection)
    → IsReplaying c
    → IsReplaying (accept_size (takes synchronous) cols rows c)
unfolding accept_size
accept_size-IsReplaying synchronous cols rows c v =
    let taken = take_size cols rows c in
    let written = write_initial (takes synchronous) c.queued_initial_data taken in
    end_replay-IsReplaying (flush_output written) (
      flush_output-IsWriting written (
        write_initial-IsWriting synchronous c.queued_initial_data taken
          (take_size-accepted cols rows c) (take_size-IsWriting cols rows c v.writing)))

handle_message-IsReplaying :
    (synchronous : Bool) (m : Message) (c : Connection)
    → IsReplaying c
    → IsReplaying (handle_message (takes synchronous) m c)
unfolding handle_message note flush_output receive_error
handle_message-IsReplaying synchronous (history bytes) c v =
    receive_history-IsReplaying synchronous bytes c v
handle_message-IsReplaying synchronous history_end c v =
    end_replay-IsReplaying (record c { history_stream_complete = true }) (ground arith)
handle_message-IsReplaying synchronous (output bytes) c v = receive_output-IsReplaying bytes c v
handle_message-IsReplaying synchronous (resize cols rows) c v =
    either-IsReplaying (is_size cols && is_size rows) (accept_size (takes synchronous) cols rows c)
      c (λ e. accept_size-IsReplaying synchronous cols rows c v) (λ e. v)
handle_message-IsReplaying synchronous (exit code) c v = ground arith
handle_message-IsReplaying synchronous (error []) c v = v
handle_message-IsReplaying synchronous (error (byte ∷ bytes)) c v = ground arith

history_written-IsReplaying : (c : Connection) → IsReplaying c → IsReplaying (history_written c)
unfolding history_written end_history_write
history_written-IsReplaying c v =
    let called = record c { open_history_writes = c.open_history_writes - 1 } in
    either-IsReplaying (ltb 0 c.open_history_writes) (end_history_write called) c
      (λ e.
        let fewer : decrement c.pending_history_writes ≡ pos (c.open_history_writes - 1) =
          rw v.writing.owed (decrement_lem c.open_history_writes (ground arith)) in
        end_replay-IsReplaying _ (ground (arith, fewer)))
      (λ e. v)

-- The terminal takes the history writes of the event.
abbrev pub IsTaken : Event → Type 0
IsTaken (message (takes synchronous) m) = Unit
IsTaken (message throws m) = ⊥
IsTaken e = Unit

abbrev pub AreTaken : List Event → Type 0
AreTaken [] = Unit
AreTaken (e ∷ es) = IsTaken e × AreTaken es

pub step-IsReplaying :
    (e : Event) (c : Connection) → IsTaken e → IsReplaying c → IsReplaying (step e c)
unfolding step terminal_input send_newline wheel_input clean_up close_socket
step-IsReplaying opened c t v = ground arith
step-IsReplaying closed c t v = ground arith
step-IsReplaying callback c t v =
    either-IsReplaying c.active (history_written c) c (λ e. history_written-IsReplaying c v)
      (λ e. v)
step-IsReplaying flush_timeout c t v = ground arith
step-IsReplaying interactive_timeout c t v = ground arith
step-IsReplaying cleaned c t v = ground arith
step-IsReplaying (message (takes synchronous) m) c t v =
    either-IsReplaying (c.active && c.listening) (handle_message (takes synchronous) m c) c
      (λ e. handle_message-IsReplaying synchronous m c v) (λ e. v)
step-IsReplaying (message throws m) c t v = absurd t
step-IsReplaying (input bytes) c t v = ground arith
step-IsReplaying (wheel []) c t v = ground arith
step-IsReplaying (wheel (byte ∷ bytes)) c t v = ground arith
step-IsReplaying shift_enter c t v = ground arith
step-IsReplaying (lock_changed locked) c t v = ground arith

run-keeps :
    (es : List Event) (c : Connection) → AreTaken es → IsReplaying c → IsReplaying (run es c)
unfolding run
run-keeps [] c t v = v
run-keeps (e ∷ es) c (t, ts) v = run-keeps es (step e c) ts (step-IsReplaying e c t v)

pub create-IsReplaying : (limit : ℕ) (locked : Bool) → IsReplaying (create limit locked)
unfolding create
create-IsReplaying limit locked = ground arith

-- Whatever arrives and in whatever order, as long as the terminal throws on no history write: the
-- replay is on while a history write is pending or waits in the queue, and off once the first size
-- has come and the history is complete and written; the queue keeps count and stays within its
-- limit, is empty after the first size, and when it has overflowed the client listens no more.
pub run-IsReplaying :
    (limit : ℕ) (locked : Bool) (es : List Event)
    → AreTaken es
    → IsReplaying (run es (create limit locked))
run-IsReplaying limit locked es taken =
    run-keeps es (create limit locked) taken (create-IsReplaying limit locked)
