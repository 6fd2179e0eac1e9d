-- ===== src/TerminalOutput.antt =====
-- web/src/components/TerminalView.tsx, `createTerminalOutputBatcher`: output is collected for a
-- short time and written at once, except just after the user typed. Bytes are numbers. Timers fire
-- at any time while they are set.
pub mod Delivery
mod Tests
use euphony.Prelude.{
  ℕ, zero, suc, ◌+◌, Bool, true, false, Option, some, none, List, [], ◌∷◌, ◌++◌, length, take, drop,
  ltb, eqb, if◌then◌else◌,
}

-- `written` is what was passed to `write`, the oldest first.
pub record Batcher : Type 0 where
  pub pending : List (List ℕ)
  pub pending_bytes : ℕ
  pub timer : Bool
  pub interactive : Bool
  pub interactive_timer : Bool
  pub written : List (List ℕ)

abbrev pub create : Batcher
create = record {
  pending = [];
  pending_bytes = 0;
  timer = false;
  interactive = false;
  interactive_timer = false;
  written = [];
}

-- `new Uint8Array(n)`.
abbrev pub zeros : ℕ → List ℕ
zeros zero = []
zeros (suc n) = 0 ∷ zeros n

-- `data.set(chunk, offset)`, which throws if the chunk does not fit.
unfoldable pub set_at : List ℕ → List ℕ → ℕ → Option (List ℕ)
set_at array chunk offset =
    if ltb (length array) (offset + length chunk)
    then none
    else some (take offset array ++ (chunk ++ drop (offset + length chunk) array))

-- The loop that copies the chunks one after the other.
unfoldable pub copy_chunks : List (List ℕ) → ℕ → List ℕ → Option (List ℕ)
unfolding set_at
copy_chunks [] offset array = some array
copy_chunks (chunk ∷ chunks) offset array = elim (set_at array chunk offset) [
  | none ↦ none
  | some copied ↦ copy_chunks chunks (offset + length chunk) copied
]

cancel_flush_timer : Batcher → Batcher
cancel_flush_timer b = record b { timer = false }

unfoldable pub write_out : List ℕ → Batcher → Batcher
write_out array b = record b { written = b.written ++ array ∷ [] }

-- A copy that throws leaves the pending chunks.
unfoldable pub flush : Batcher → Batcher
unfolding cancel_flush_timer copy_chunks write_out
flush b =
    if eqb b.pending_bytes 0
    then cancel_flush_timer b
    else elim (copy_chunks b.pending 0 (zeros b.pending_bytes)) [
      | none ↦ cancel_flush_timer b
      | some array ↦
          write_out array (record (cancel_flush_timer b) { pending = []; pending_bytes = 0 })
    ]

unfoldable pub note_input : Batcher → Batcher
unfolding flush
note_input b = flush (record b { interactive = true; interactive_timer = true })

unfoldable pub write : List ℕ → Batcher → Batcher
unfolding flush write_out
write [] b = b
write (byte ∷ bytes) b = if b.interactive then write_out (byte ∷ bytes) (flush b) else record b {
  pending = b.pending ++ (byte ∷ bytes) ∷ [];
  pending_bytes = b.pending_bytes + length (byte ∷ bytes);
  timer = true;
}

unfoldable pub dispose : Batcher → Batcher
unfolding flush cancel_flush_timer
dispose b = flush (record (cancel_flush_timer b) { interactive = false; interactive_timer = false })

pub data Event : Type 0 where
  typed flushes flush_timeout interactive_timeout disposes : Event
  receives : List ℕ → Event

-- A timer that is not set does not fire, and changes nothing.
unfoldable pub step : Event → Batcher → Batcher
unfolding note_input write dispose flush
step typed b = note_input b
step flushes b = flush b
step flush_timeout b = if b.timer then flush b else b
step interactive_timeout b =
    if b.interactive_timer then record b { interactive = false; interactive_timer = false } else b
step disposes b = dispose b
step (receives array) b = write array b

unfoldable pub run : List Event → Batcher → Batcher
unfolding step
run [] b = b
run (e ∷ es) b = run es (step e b)
