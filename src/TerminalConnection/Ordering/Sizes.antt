-- ===== src/TerminalConnection/Ordering/Sizes.antt =====
-- What the first size does to the order of the bytes.
use euphony.Prelude.{
  ℕ, ◌≡◌, refl, ap, ◌∙◌, Bool, true, false, List, [], ◌∷◌, ◌++◌, arith, Bool-cases, inl, inr,
  append-nil,
}
use euphony.TerminalOutput.{write}
use euphony.TerminalOutput.Delivery.{joined, flush-IsFlushed}
use euphony.TerminalOutput.Delivery as D
use euphony.TerminalOutput.Delivery.Steps.{all_bytes, IsDelivered, flush-IsDelivered}
use euphony.TerminalConnection.{
  takes, begin_history_write, end_history_write, InitialData, Connection, end_replay, write_history,
  write_entry, write_initial, flush_output, take_size, accept_size,
}
use euphony.TerminalConnection.Ordering.{
  queued, IsHistoryFirst, IsOrdered, all_history, write_initial-IsDelivered, write_initial-pending,
}
use euphony.TerminalConnection.Ordering.Steps.{either, flush_output-IsOrdered}

-- What a write leaves as it was.
record IsSame (c d : Connection) : Type 0 where
  active : d.active ≡ c.active
  queue : d.queued_initial_data ≡ c.queued_initial_data
  accepted : d.accepted_size_received ≡ c.accepted_size_received

write_history-IsSame :
    (synchronous : Bool) (bytes : List ℕ) (c : Connection)
    → IsSame c (write_history (takes synchronous) bytes c)
unfolding write_history begin_history_write end_history_write end_replay
write_history-IsSame synchronous [] c = record { active = refl; queue = refl; accepted = refl }
write_history-IsSame true (byte ∷ bytes) c = record { active = refl; queue = refl; accepted = refl }
write_history-IsSame false (byte ∷ bytes) c = record {
  active = refl;
  queue = refl;
  accepted = refl;
}

write_entry-IsSame :
    (synchronous : Bool) (entry : InitialData) (c : Connection)
    → IsSame c (write_entry (takes synchronous) entry c)
unfolding write_entry
write_entry-IsSame synchronous entry c =
    let written : Connection = record c { batcher = write entry.bytes c.batcher } in
    let same : IsSame c written = record { active = refl; queue = refl; accepted = refl } in
    either (IsSame c) entry.history (write_history (takes synchronous) entry.bytes c) written
      (λ e. write_history-IsSame synchronous entry.bytes c) (λ e. same)

write_initial-IsSame :
    (synchronous : Bool) (entries : List InitialData) (c : Connection)
    → IsSame c (write_initial (takes synchronous) entries c)
unfolding write_initial
write_initial-IsSame synchronous [] c = record { active = refl; queue = refl; accepted = refl }
write_initial-IsSame synchronous (entry ∷ entries) c =
    let here = write_entry-IsSame synchronous entry c in
    let rest = write_initial-IsSame synchronous entries (write_entry (takes synchronous) entry c) in
    record {
      active = rest.active ∙ here.active;
      queue = rest.queue ∙ here.queue;
      accepted = rest.accepted ∙ here.accepted;
    }

-- The queue may be written when it is empty or the batcher is.
first-IsHistoryFirst :
    (seen : Bool) (before : List ℕ) (c : Connection)
    → IsOrdered seen before c
    → IsHistoryFirst c.accepted_size_received c.queued_initial_data
first-IsHistoryFirst seen before c v = elim (Bool-cases c.accepted_size_received) [
  | inl e ↦ rw (v.emptied e) tt
  | inr e ↦ rw e v.first
]

take_size-taken :
    (cols rows : ℕ) (c : Connection)
    → D.IsSound c.batcher
    → ((take_size cols rows c).queued_initial_data ≡ [])
      × ((take_size cols rows c).accepted_size_received ≡ true)
      × ((take_size cols rows c).active ≡ c.active)
      × (joined (take_size cols rows c).batcher.pending ≡ [])
      × IsDelivered (all_bytes c.batcher) [] (take_size cols rows c).batcher
unfolding take_size flush_output
take_size-taken cols rows c v = (
  refl,
  refl,
  refl,
  (flush-IsFlushed c.batcher v.counted).emptied,
  flush-IsDelivered c.batcher v.counted v.ends,
)

write_queue-IsOrdered :
    (synchronous seen : Bool) (before : List ℕ) (cols rows : ℕ) (c : Connection)
    → IsOrdered seen before c
    → IsOrdered seen before
        (write_initial (takes synchronous) c.queued_initial_data (take_size cols rows c))
write_queue-IsOrdered synchronous seen before cols rows c v =
    let entries = c.queued_initial_data in
    let taken = take_size cols rows c in
    let about = take_size-taken cols rows c v.sound in
    let same = write_initial-IsSame synchronous entries taken in
    let batch =
      write_initial-IsDelivered synchronous c.accepted_size_received entries taken about.4.sound
        (λ e. about.3) (first-IsHistoryFirst seen before c v) in
    let empty : (write_initial (takes synchronous) entries taken).queued_initial_data ≡ [] =
      same.queue ∙ about.0 in
    record {
      active = same.active ∙ about.2 ∙ v.active;
      sound = batch.sound;
      delivered =
          rw
            (
              empty,
              append-nil (all_bytes (write_initial (takes synchronous) entries taken).batcher),
            )
            (batch.delivered
              ∙ ap (λ t. t ++ queued entries) (about.4.delivered ∙ append-nil (all_bytes c.batcher))
              ∙ v.delivered);
      first = rw empty tt;
      emptied = λ e. empty;
      waiting = λ e. absurd (ground (arith, same.accepted, about.1));
      unseen = λ e. (
        ap joined (write_initial-pending synchronous entries taken (v.unseen e).1) ∙ about.3,
        ap all_history empty,
      );
    }

pub end_replay-IsOrdered :
    (seen : Bool) (before : List ℕ) (c : Connection)
    → IsOrdered seen before c
    → IsOrdered seen before (end_replay c)
unfolding end_replay
end_replay-IsOrdered seen before c v = record {
  active = v.active;
  sound = v.sound;
  delivered = v.delivered;
  first = v.first;
  emptied = v.emptied;
  waiting = v.waiting;
  unseen = v.unseen;
}

pub accept_size-IsOrdered :
    (synchronous seen : Bool) (before : List ℕ) (cols rows : ℕ) (c : Connection)
    → IsOrdered seen before c
    → IsOrdered seen before (accept_size (takes synchronous) cols rows c)
unfolding accept_size
accept_size-IsOrdered synchronous seen before cols rows c v =
    let written = write_initial (takes synchronous) c.queued_initial_data (take_size cols rows c) in
    end_replay-IsOrdered seen before (flush_output written) (
      flush_output-IsOrdered seen before written
        (write_queue-IsOrdered synchronous seen before cols rows c v))
