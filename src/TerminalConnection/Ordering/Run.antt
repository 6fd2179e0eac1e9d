-- ===== src/TerminalConnection/Ordering/Run.antt =====
-- The order of the bytes over a sequence of events.
use euphony.Prelude.{
  ℕ, ◌≡◌, sym, ap, ◌∙◌, Bool, true, false, List, [], ◌∷◌, ◌++◌, ◌||◌, arith, append_assoc,
  append-nil,
}
use euphony.TerminalOutput.Delivery.{joined}
use euphony.TerminalOutput.Delivery.Steps.{all_bytes, timeout_written}
use euphony.TerminalConnection.{
  takes, throws, wheel, shift_enter, lock_changed, Connection, create, Event, opened, closed,
  callback, flush_timeout, interactive_timeout, cleaned, message, input, step, run,
}
use euphony.TerminalConnection.Ordering.{queued, IsOrdered}
use euphony.TerminalConnection.Ordering.Steps.{IsWatched}
use euphony.TerminalConnection.Replaying.{IsReplaying, step-IsReplaying, create-IsReplaying}
use euphony.TerminalConnection.Ordering.Messages.{
  message_bytes, is_output, IsAllowed, message_step-IsWatched,
}
use euphony.TerminalConnection.Ordering.Events.{
  step-opened-IsWatched, step-closed-IsWatched, step-callback-IsWatched,
  step-flush_timeout-IsWatched, step-interactive_timeout-IsWatched, step-input-IsWatched,
  step-wheel-IsWatched, step-shift_enter-IsWatched, step-lock_changed-IsWatched,
}

abbrev pub received : List Event → List ℕ
received [] = []
received (message outcome m ∷ es) = message_bytes m ++ received es
received (opened ∷ es) = received es
received (closed ∷ es) = received es
received (callback ∷ es) = received es
received (flush_timeout ∷ es) = received es
received (interactive_timeout ∷ es) = received es
received (cleaned ∷ es) = received es
received (input bytes ∷ es) = received es
received (wheel bytes ∷ es) = received es
received (shift_enter ∷ es) = received es
received (lock_changed locked ∷ es) = received es

-- Each history comes before any output, the terminal throws on no history write, and the effect is
-- not cleaned up.
abbrev pub IsHistoryThenOutput : Bool → List Event → Type 0
IsHistoryThenOutput seen [] = Unit
IsHistoryThenOutput seen (message (takes synchronous) m ∷ es) =
    IsAllowed seen m × IsHistoryThenOutput (seen || is_output m) es
IsHistoryThenOutput seen (opened ∷ es) = IsHistoryThenOutput seen es
IsHistoryThenOutput seen (closed ∷ es) = IsHistoryThenOutput seen es
IsHistoryThenOutput seen (callback ∷ es) = IsHistoryThenOutput seen es
IsHistoryThenOutput seen (flush_timeout ∷ es) = IsHistoryThenOutput seen es
IsHistoryThenOutput seen (interactive_timeout ∷ es) = IsHistoryThenOutput seen es
IsHistoryThenOutput seen (cleaned ∷ es) = ⊥
IsHistoryThenOutput seen (message throws m ∷ es) = ⊥
IsHistoryThenOutput seen (input bytes ∷ es) = IsHistoryThenOutput seen es
IsHistoryThenOutput seen (wheel bytes ∷ es) = IsHistoryThenOutput seen es
IsHistoryThenOutput seen (shift_enter ∷ es) = IsHistoryThenOutput seen es
IsHistoryThenOutput seen (lock_changed locked ∷ es) = IsHistoryThenOutput seen es

run-IsWatched :
    (seen : Bool) (before : List ℕ) (es : List Event) (c : Connection)
    → IsReplaying c
    → IsWatched seen before c
    → IsHistoryThenOutput seen es
    → (run es c).listening ≡ true
    → (later : Bool) × IsOrdered later (before ++ received es) (run es c)
unfolding run
run-IsWatched seen before [] c r v h listening = (seen, rw (append-nil before) (v listening))
run-IsWatched seen before (opened ∷ es) c r v h listening =
    run-IsWatched seen before es (step opened c) (step-IsReplaying opened c tt r)
      (step-opened-IsWatched seen before c v) h listening
run-IsWatched seen before (closed ∷ es) c r v h listening =
    run-IsWatched seen before es (step closed c) (step-IsReplaying closed c tt r)
      (step-closed-IsWatched seen before c v) h listening
run-IsWatched seen before (callback ∷ es) c r v h listening =
    run-IsWatched seen before es (step callback c) (step-IsReplaying callback c tt r)
      (step-callback-IsWatched seen before c v) h listening
run-IsWatched seen before (flush_timeout ∷ es) c r v h listening =
    run-IsWatched seen before es (step flush_timeout c) (step-IsReplaying flush_timeout c tt r)
      (step-flush_timeout-IsWatched seen before c v) h listening
run-IsWatched seen before (interactive_timeout ∷ es) c r v h listening =
    run-IsWatched seen before es (step interactive_timeout c)
      (step-IsReplaying interactive_timeout c tt r)
      (step-interactive_timeout-IsWatched seen before c v) h listening
run-IsWatched seen before (cleaned ∷ es) c r v h listening = absurd h
run-IsWatched seen before (message (takes synchronous) m ∷ es) c r v h listening =
    rw (sym (append_assoc before (message_bytes m) (received es))) (
      run-IsWatched (seen || is_output m) (before ++ message_bytes m) es
        (step (message (takes synchronous) m) c)
        (step-IsReplaying (message (takes synchronous) m) c tt r)
        (message_step-IsWatched synchronous seen before m c v h.0 r) h.1 listening)
run-IsWatched seen before (input bytes ∷ es) c r v h listening =
    run-IsWatched seen before es (step (input bytes) c) (step-IsReplaying (input bytes) c tt r)
      (step-input-IsWatched seen before bytes c v) h listening
run-IsWatched seen before (message throws m ∷ es) c r v h listening = absurd h
run-IsWatched seen before (wheel bytes ∷ es) c r v h listening =
    run-IsWatched seen before es (step (wheel bytes) c) (step-IsReplaying (wheel bytes) c tt r)
      (step-wheel-IsWatched seen before bytes c v) h listening
run-IsWatched seen before (shift_enter ∷ es) c r v h listening =
    run-IsWatched seen before es (step shift_enter c) (step-IsReplaying shift_enter c tt r)
      (step-shift_enter-IsWatched seen before c v) h listening
run-IsWatched seen before (lock_changed locked ∷ es) c r v h listening =
    run-IsWatched seen before es (step (lock_changed locked) c)
      (step-IsReplaying (lock_changed locked) c tt r)
      (step-lock_changed-IsWatched seen before c locked v) h listening

create-IsWatched : (limit : ℕ) (locked : Bool) → IsWatched false [] (create limit locked)
unfolding create
create-IsWatched limit locked listening = ground arith

run-IsOrdered :
    (limit : ℕ) (locked : Bool) (es : List Event)
    → IsHistoryThenOutput false es
    → (run es (create limit locked)).listening ≡ true
    → (later : Bool) × IsOrdered later (received es) (run es (create limit locked))
run-IsOrdered limit locked es h listening =
    run-IsWatched false [] es (create limit locked) (create-IsReplaying limit locked)
      (create-IsWatched limit locked) h listening

-- When the server sends each history before any output and the terminal throws on no history write, then for any order of the other events
-- before the cleanup, and as long as the client listens: what the terminal was given, what the
-- batcher holds and what waits for the first size are together exactly the bytes that were
-- received, in their order.
pub run_delivers :
    (limit : ℕ) (locked : Bool) (es : List Event)
    → IsHistoryThenOutput false es
    → (run es (create limit locked)).listening ≡ true
    → all_bytes (run es (create limit locked)).batcher
        ++ queued (run es (create limit locked)).queued_initial_data
      ≡ received es
run_delivers limit locked es h listening = (run-IsOrdered limit locked es h listening).1.delivered

timeout_delivered :
    (seen : Bool) (before : List ℕ) (c : Connection)
    → c.accepted_size_received ≡ true
    → IsOrdered seen before c
    → joined (step flush_timeout c).batcher.written ≡ before
unfolding step
timeout_delivered seen before c accepted v = rw v.active (
    timeout_written c.batcher v.sound
    ∙ sym (append-nil (all_bytes c.batcher))
    ∙ sym (ap (λ entries. all_bytes c.batcher ++ queued entries) (v.emptied accepted))
    ∙ v.delivered)

-- When moreover the first size has come, then after the flush timer's time the terminal was given
-- exactly the bytes that were received, in their order: none is held back for good.
pub timeout_delivers_all :
    (limit : ℕ) (locked : Bool) (es : List Event)
    → IsHistoryThenOutput false es
    → (run es (create limit locked)).listening ≡ true
    → (run es (create limit locked)).accepted_size_received ≡ true
    → joined (step flush_timeout (run es (create limit locked))).batcher.written ≡ received es
timeout_delivers_all limit locked es h listening accepted =
    let ordered = run-IsOrdered limit locked es h listening in
    timeout_delivered ordered.0 (received es) (run es (create limit locked)) accepted ordered.1
