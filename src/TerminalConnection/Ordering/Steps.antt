-- ===== src/TerminalConnection/Ordering/Steps.antt =====
-- What data and a flush do to the order of the bytes.
use euphony.Prelude.{
  ℕ, ◌+◌, ◌≡◌, refl, sym, ap, ◌∙◌, Bool, true, false, not, some, List, [], ◌∷◌, ◌++◌, length, ltb,
  ◌||◌, if◌then◌else◌, arith, append_assoc, append-nil,
}
use euphony.TerminalOutput.{write}
use euphony.TerminalOutput.Delivery.{joined, flush-IsFlushed}
use euphony.TerminalOutput.Delivery as D
use euphony.TerminalOutput.Delivery.Steps.{
  all_bytes, IsDelivered, flush-IsDelivered, write-IsDelivered,
}
use euphony.TerminalConnection.{
  takes, begin_history_write, end_history_write, InitialData, Connection, end_replay, close_socket,
  overflow, enqueue, queue_initial_data, write_history, receive_history, receive_output,
  flush_output,
}
use euphony.TerminalConnection.Ordering.{
  queued, IsOrdered, all_history, write_history-IsDelivered, write_history-pending,
  snoc-IsHistoryFirst, all_history-snoc, queued-snoc,
}

-- The claim is about a connection that still listens.
abbrev pub IsWatched : Bool → List ℕ → Connection → Type 0
IsWatched seen bytes c = c.listening ≡ true → IsOrdered seen bytes c

pub either :
    (P : Connection → Type 0) (test : Bool) (c d : Connection)
    → (test ≡ true → P c)
    → (test ≡ false → P d)
    → P (if test then c else d)
either P true c d v w = v refl
either P false c d v w = w refl

unwatched :
    (seen : Bool) (bytes : List ℕ) (c : Connection) → c.listening ≡ false → IsWatched seen bytes c
unwatched seen bytes c h listening = absurd (ground arith)

enqueue-IsOrdered :
    (bytes before : List ℕ) (is_history seen : Bool) (c : Connection)
    → IsOrdered seen before c
    → c.accepted_size_received ≡ false
    → (is_history ≡ true → seen ≡ false)
    → IsOrdered (seen || not is_history) (before ++ bytes) (enqueue bytes is_history c)
unfolding enqueue
enqueue-IsOrdered bytes before is_history seen c v waits allowed =
    let entry : InitialData = record { bytes = bytes; history = is_history } in
    record {
      active = v.active;
      sound = v.sound;
      delivered =
          ap (◌++◌ (all_bytes c.batcher)) (queued-snoc c.queued_initial_data entry)
          ∙ sym (append_assoc (all_bytes c.batcher) (queued c.queued_initial_data) bytes)
          ∙ ap (λ t. t ++ bytes) v.delivered;
      first =
          snoc-IsHistoryFirst false c.queued_initial_data entry v.first
            (λ e. (refl, (v.unseen (allowed e)).1));
      emptied = λ accepted. absurd (ground arith);
      waiting = v.waiting;
      unseen = λ e. (
        v.waiting waits,
        all_history-snoc c.queued_initial_data entry ∙ ground (arith, v.unseen),
      );
    }

overflow-listening : (c : Connection) → (overflow c).listening ≡ false
unfolding overflow close_socket
overflow-listening c = refl

queue_initial_data-IsWatched :
    (bytes before : List ℕ) (is_history seen : Bool) (c : Connection)
    → IsOrdered seen before c
    → c.accepted_size_received ≡ false
    → (is_history ≡ true → seen ≡ false)
    → (c.initial_queue_overflowed ≡ true → c.listening ≡ false)
    → IsWatched (seen || not is_history) (before ++ bytes) (queue_initial_data bytes is_history c)
unfolding queue_initial_data
queue_initial_data-IsWatched bytes before is_history seen c v waits allowed whole =
    let P = IsWatched (seen || not is_history) (before ++ bytes) in
    let full = ltb c.initial_queue_limit (c.queued_initial_bytes + length bytes) in
    either P c.initial_queue_overflowed c (if full then overflow c else enqueue bytes is_history c)
      (λ e. unwatched (seen || not is_history) (before ++ bytes) c (whole e))
      (λ e.
        either P full (overflow c) (enqueue bytes is_history c)
          (λ f.
            unwatched (seen || not is_history) (before ++ bytes) (overflow c)
              (overflow-listening c))
          (λ f listening. enqueue-IsOrdered bytes before is_history seen c v waits allowed))

-- What keeps the order: the batcher goes on, and the queue stays.
pub record IsAfter (bytes : List ℕ) (c d : Connection) : Type 0 where
  pub active : d.active ≡ c.active
  pub queue : d.queued_initial_data ≡ c.queued_initial_data
  pub accepted : d.accepted_size_received ≡ c.accepted_size_received
  pub batch : IsDelivered (all_bytes c.batcher) bytes d.batcher

pub nothing-IsOrdered :
    (seen : Bool) (before : List ℕ) (c d : Connection)
    → IsAfter [] c d
    → (joined c.batcher.pending ≡ [] → joined d.batcher.pending ≡ [])
    → IsOrdered seen before c
    → IsOrdered seen before d
nothing-IsOrdered seen before c d after held v = record {
  active = after.active ∙ v.active;
  sound = after.batch.sound;
  delivered = rw (after.queue, after.batch.delivered, append-nil (all_bytes c.batcher)) v.delivered;
  first = rw after.queue v.first;
  emptied = λ e. after.queue ∙ v.emptied (sym after.accepted ∙ e);
  waiting = λ e. held (v.waiting (sym after.accepted ∙ e));
  unseen = λ e. (held (v.unseen e).0, ap all_history after.queue ∙ (v.unseen e).1);
}

written-IsOrdered :
    (seen later : Bool) (before bytes : List ℕ) (c d : Connection)
    → IsAfter bytes c d
    → c.accepted_size_received ≡ true
    → (later ≡ false → joined d.batcher.pending ≡ [])
    → IsOrdered seen before c
    → IsOrdered later (before ++ bytes) d
written-IsOrdered seen later before bytes c d after accepted held v =
    let none_queued : d.queued_initial_data ≡ [] = after.queue ∙ v.emptied accepted in
    let earlier : all_bytes c.batcher ≡ before =
      sym (append-nil (all_bytes c.batcher))
      ∙ sym (ap (λ entries. all_bytes c.batcher ++ queued entries) (v.emptied accepted))
      ∙ v.delivered in
    record {
      active = after.active ∙ v.active;
      sound = after.batch.sound;
      delivered =
          rw none_queued (
            append-nil (all_bytes d.batcher)
            ∙ after.batch.delivered
            ∙ ap (λ t. t ++ bytes) earlier);
      first = rw none_queued tt;
      emptied = λ e. none_queued;
      waiting = λ e. absurd (ground arith);
      unseen = λ e. (held e, ap all_history none_queued);
    }

write_history-IsAfter :
    (synchronous : Bool) (bytes : List ℕ) (c : Connection)
    → D.IsSound c.batcher
    → joined c.batcher.pending ≡ []
    → IsAfter bytes c (write_history (takes synchronous) bytes c)
unfolding write_history begin_history_write end_history_write end_replay
write_history-IsAfter synchronous [] c v h = record {
  active = refl;
  queue = refl;
  accepted = refl;
  batch = write_history-IsDelivered synchronous [] c v h;
}
write_history-IsAfter true (byte ∷ bytes) c v h = record {
  active = refl;
  queue = refl;
  accepted = refl;
  batch = write_history-IsDelivered true (byte ∷ bytes) c v h;
}
write_history-IsAfter false (byte ∷ bytes) c v h = record {
  active = refl;
  queue = refl;
  accepted = refl;
  batch = write_history-IsDelivered false (byte ∷ bytes) c v h;
}

same_seen :
    (seen later : Bool) (bytes : List ℕ) (c : Connection)
    → seen ≡ later
    → IsOrdered seen bytes c
    → IsOrdered later bytes c
same_seen seen later bytes c e v = rw (sym e) v

pub receive_history-IsWatched :
    (synchronous seen : Bool) (before : List ℕ) (bytes : List ℕ) (c : Connection)
    → IsOrdered seen before c
    → seen ≡ false
    → (c.initial_queue_overflowed ≡ true → c.listening ≡ false)
    → IsWatched seen (before ++ bytes) (receive_history (takes synchronous) (some bytes) c)
unfolding receive_history
receive_history-IsWatched synchronous seen before bytes c v unseen whole =
    let replaying : Connection = record c { replaying_history = true } in
    let w : IsOrdered seen before replaying = ground arith in
    let empty = (v.unseen unseen).0 in
    let same : (seen || not true) ≡ seen = ground arith in
    either (IsWatched seen (before ++ bytes)) c.accepted_size_received
      (write_history (takes synchronous) bytes replaying) (queue_initial_data bytes true replaying)
      (λ e listening.
        written-IsOrdered seen seen before bytes replaying
          (write_history (takes synchronous) bytes replaying)
          (write_history-IsAfter synchronous bytes replaying v.sound empty) e
          (λ k. ap joined (write_history-pending synchronous bytes replaying) ∙ empty) w)
      (λ e listening.
        same_seen (seen || not true) seen (before ++ bytes)
          (queue_initial_data bytes true replaying) same
          (queue_initial_data-IsWatched bytes before true seen replaying w e (λ k. unseen) whole
            listening))

pub receive_output-IsWatched :
    (seen : Bool) (before : List ℕ) (bytes : List ℕ) (c : Connection)
    → IsOrdered seen before c
    → (c.initial_queue_overflowed ≡ true → c.listening ≡ false)
    → IsWatched true (before ++ bytes) (receive_output (some bytes) c)
unfolding receive_output
receive_output-IsWatched seen before bytes c v whole =
    let later : (seen || not false) ≡ true = ground arith in
    either (IsWatched true (before ++ bytes)) c.accepted_size_received
      (record c { batcher = write bytes c.batcher }) (queue_initial_data bytes false c)
      (λ e listening.
        written-IsOrdered seen true before bytes c (record c { batcher = write bytes c.batcher })
          (record {
            active = refl;
            queue = refl;
            accepted = refl;
            batch = write-IsDelivered c.batcher bytes v.sound;
          })
          e (λ k. absurd (ground arith)) v)
      (λ e listening.
        same_seen (seen || not false) true (before ++ bytes) (queue_initial_data bytes false c)
          later
          (queue_initial_data-IsWatched bytes before false seen c v e (λ k. absurd (ground arith))
            whole listening))

pub flush_output-IsAfter : (c : Connection) → D.IsSound c.batcher → IsAfter [] c (flush_output c)
unfolding flush_output
flush_output-IsAfter c v = record {
  active = refl;
  queue = refl;
  accepted = refl;
  batch = flush-IsDelivered c.batcher v.counted v.ends;
}

flush_output-pending :
    (c : Connection) → D.IsSound c.batcher → joined (flush_output c).batcher.pending ≡ []
unfolding flush_output
flush_output-pending c v = (flush-IsFlushed c.batcher v.counted).emptied

pub flush_output-IsOrdered :
    (seen : Bool) (before : List ℕ) (c : Connection)
    → IsOrdered seen before c
    → IsOrdered seen before (flush_output c)
flush_output-IsOrdered seen before c v =
    nothing-IsOrdered seen before c (flush_output c) (flush_output-IsAfter c v.sound)
      (λ h. flush_output-pending c v.sound) v
