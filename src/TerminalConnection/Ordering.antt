-- ===== src/TerminalConnection/Ordering.antt =====
-- The bytes that the terminal gets, when the server sends the history first.
pub mod Steps
pub mod Sizes
pub mod Messages
pub mod Events
pub mod Run
use euphony.Prelude.{
  ℕ, ◌+◌, ◌-◌, ◌≤◌, ◌<◌, ◌≡◌, refl, sym, ap, ◌∙◌, Bool, true, false, not, Option, some, none, List,
  [], ◌∷◌, ◌++◌, length, ltb, leb, eqb, ◌&&◌, ◌||◌, if◌then◌else◌, arith, any, Bool-cases, inl, inr,
  append_assoc, append-nil,
}
use euphony.TerminalOutput.{Batcher, flush, note_input, write, dispose, write_out}
use euphony.TerminalOutput.Delivery.{joined, joined-snoc}
use euphony.TerminalOutput.Delivery as D
use euphony.TerminalOutput.Delivery.Steps.{
  all_bytes, IsDelivered, flush-IsDelivered, note_input-IsDelivered, write-IsDelivered,
  step-IsDelivered,
}
use euphony.TerminalConnection.{
  takes, throws, begin_history_write, end_history_write, send_newline, wheel_input, wheel,
  shift_enter, lock_changed, InitialData, Connection, create, end_replay, close_socket,
  queue_initial_data, write_history, history_written, Message, history, history_end, output, resize,
  exit, error, receive_history, receive_output, write_entry, write_initial, is_size, flush_output,
  take_size, accept_size, note, receive_error, handle_message, terminal_input, clean_up, Event,
  opened, closed, callback, flush_timeout, interactive_timeout, cleaned, message, input, step, run,
}
use euphony.TerminalConnection.Replaying.{IsReplaying, step-IsReplaying, create-IsReplaying}

abbrev pub queued : List InitialData → List ℕ
queued [] = []
queued (entry ∷ entries) = entry.bytes ++ queued entries

-- No history behind an output, where `seen` says that there was one before.
abbrev pub IsHistoryFirst : Bool → List InitialData → Type 0
IsHistoryFirst seen [] = Unit
IsHistoryFirst seen (entry ∷ entries) =
    (entry.history ≡ true → seen ≡ false) × IsHistoryFirst (seen || not entry.history) entries

-- Writing past a batcher that holds nothing back.
write_out-IsDelivered :
    (b : Batcher) (bytes : List ℕ)
    → D.IsSound b
    → joined b.pending ≡ []
    → IsDelivered (all_bytes b) bytes (write_out bytes b)
unfolding write_out
write_out-IsDelivered b bytes v h = record {
  sound = ground arith;
  delivered =
      rw (joined-snoc b.written bytes, h)
        (append-nil (joined b.written ++ bytes)
          ∙ ap (λ t. t ++ bytes) (sym (append-nil (joined b.written))));
}

pub write_history-IsDelivered :
    (synchronous : Bool) (bytes : List ℕ) (c : Connection)
    → D.IsSound c.batcher
    → joined c.batcher.pending ≡ []
    → IsDelivered (all_bytes c.batcher) bytes (write_history (takes synchronous) bytes c).batcher
unfolding write_history begin_history_write end_history_write end_replay
write_history-IsDelivered synchronous [] c v h = record {
  sound = v;
  delivered = sym (append-nil (all_bytes c.batcher));
}
write_history-IsDelivered true (byte ∷ bytes) c v h =
    write_out-IsDelivered c.batcher (byte ∷ bytes) v h
write_history-IsDelivered false (byte ∷ bytes) c v h =
    write_out-IsDelivered c.batcher (byte ∷ bytes) v h

pub write_history-pending :
    (synchronous : Bool) (bytes : List ℕ) (c : Connection)
    → (write_history (takes synchronous) bytes c).batcher.pending ≡ c.batcher.pending
unfolding write_history begin_history_write end_history_write end_replay write_out
write_history-pending synchronous [] c = refl
write_history-pending true (byte ∷ bytes) c = refl
write_history-pending false (byte ∷ bytes) c = refl

write_entry-IsDelivered :
    (synchronous : Bool) (entry : InitialData) (c : Connection)
    → D.IsSound c.batcher
    → (entry.history ≡ true → joined c.batcher.pending ≡ [])
    → IsDelivered
        (all_bytes c.batcher)
        entry.bytes
        (write_entry (takes synchronous) entry c).batcher
unfolding write_entry
write_entry-IsDelivered synchronous entry c v h = elim (Bool-cases entry.history) [
  | inl e ↦ rw e (write_history-IsDelivered synchronous entry.bytes c v (h e))
  | inr e ↦ rw e (write-IsDelivered c.batcher entry.bytes v)
]

pub write_entry-pending :
    (synchronous : Bool) (entry : InitialData) (c : Connection)
    → entry.history ≡ true
    → (write_entry (takes synchronous) entry c).batcher.pending ≡ c.batcher.pending
unfolding write_entry
write_entry-pending synchronous entry c e = rw e (write_history-pending synchronous entry.bytes c)

pub write_initial-IsDelivered :
    (synchronous seen : Bool) (entries : List InitialData) (c : Connection)
    → D.IsSound c.batcher
    → (seen ≡ false → joined c.batcher.pending ≡ [])
    → IsHistoryFirst seen entries
    → IsDelivered
        (all_bytes c.batcher)
        (queued entries)
        (write_initial (takes synchronous) entries c).batcher
unfolding write_initial
write_initial-IsDelivered synchronous seen [] c v h first = record {
  sound = v;
  delivered = sym (append-nil (all_bytes c.batcher));
}
write_initial-IsDelivered synchronous seen (entry ∷ entries) c v h first =
    let here = write_entry-IsDelivered synchronous entry c v (λ e. h (first.0 e)) in
    let still_empty = λ (k : (seen || not entry.history) ≡ false).
      let e : entry.history ≡ true = ground arith in
      let unseen : seen ≡ false = ground arith in
      ap joined (write_entry-pending synchronous entry c e) ∙ h unseen in
    let rest =
      write_initial-IsDelivered synchronous (seen || not entry.history) entries
        (write_entry (takes synchronous) entry c) here.sound (λ k. still_empty k) first.1 in
    record {
      sound = rest.sound;
      delivered =
          rest.delivered
          ∙ ap (λ t. t ++ queued entries) here.delivered
          ∙ append_assoc (all_bytes c.batcher) entry.bytes (queued entries);
    }

abbrev pub all_history : List InitialData → Bool
all_history [] = true
all_history (entry ∷ entries) = entry.history && all_history entries

pub snoc-IsHistoryFirst :
    (seen : Bool) (entries : List InitialData) (entry : InitialData)
    → IsHistoryFirst seen entries
    → (entry.history ≡ true → (seen ≡ false) × (all_history entries ≡ true))
    → IsHistoryFirst seen (entries ++ entry ∷ [])
snoc-IsHistoryFirst seen [] entry v h = ground arith
snoc-IsHistoryFirst seen (x ∷ entries) entry v h =
    (v.0, snoc-IsHistoryFirst (seen || not x.history) entries entry v.1 (λ e. ground (arith, h e)))

pub all_history-snoc :
    (entries : List InitialData) (entry : InitialData)
    → all_history (entries ++ entry ∷ []) ≡ (all_history entries && entry.history)
all_history-snoc [] entry = ground arith
all_history-snoc (x ∷ entries) entry = ground (arith, all_history-snoc entries entry)

pub queued-snoc :
    (entries : List InitialData) (entry : InitialData)
    → queued (entries ++ entry ∷ []) ≡ queued entries ++ entry.bytes
queued-snoc [] entry = append-nil entry.bytes
queued-snoc (x ∷ entries) entry =
    ap (◌++◌ x.bytes) (queued-snoc entries entry)
    ∙ sym (append_assoc x.bytes (queued entries) entry.bytes)

-- What was received is what the terminal was given, what the batcher holds and what is queued, in
-- this order; `seen` says that an output was received.
pub record IsOrdered (seen : Bool) (bytes : List ℕ) (c : Connection) : Type 0 where
  pub active : c.active ≡ true
  pub sound : D.IsSound c.batcher
  pub delivered : all_bytes c.batcher ++ queued c.queued_initial_data ≡ bytes
  pub first : IsHistoryFirst false c.queued_initial_data
  pub emptied : c.accepted_size_received ≡ true → c.queued_initial_data ≡ []
  pub waiting : c.accepted_size_received ≡ false → joined c.batcher.pending ≡ []
  pub unseen :
      seen ≡ false → (joined c.batcher.pending ≡ []) × (all_history c.queued_initial_data ≡ true)

pub write_initial-pending :
    (synchronous : Bool) (entries : List InitialData) (c : Connection)
    → all_history entries ≡ true
    → (write_initial (takes synchronous) entries c).batcher.pending ≡ c.batcher.pending
unfolding write_initial
write_initial-pending synchronous [] c h = refl
write_initial-pending synchronous (entry ∷ entries) c h =
    write_initial-pending synchronous entries (write_entry (takes synchronous) entry c)
      (ground arith)
    ∙ write_entry-pending synchronous entry c (ground arith)
