-- ===== src/FlowControl.antt =====
-- web/src/components/terminalFlowControl.ts: the gate that pauses the server's output while the
-- terminal has too many writes pending. `send` is the socket, an oracle on the messages that were
-- tried before; the terminal calls a write's completion at any time, also within the write.
pub mod Completion
pub mod Gate
pub mod Levels
mod Tests
use euphony.Prelude.{
  ℕ, zero, suc, ◌+◌, ◌-◌, ◌≤◌, Bool, true, false, Option, some, none, List, [], ◌∷◌, ltb, eqb,
  if◌then◌else◌, ℤ, ◌&&◌, ◌||◌, not,
}

pub data Message : Type 0 where
  pause resume : Message

pub record FlowOptions : Type 0 where
  pub limit : ℕ
  pub high_water : ℕ
  pub low_water : ℕ

-- `Math.max(0, option ?? fallback)`.
level : Option ℤ → ℕ → ℕ
level none fallback = fallback
level (some (ℤ.pos n)) fallback = n
level (some (ℤ.negsuc n)) fallback = 0

unfoldable pub flow_options : Option ℤ → Option ℤ → Option ℤ → FlowOptions
unfolding level
flow_options limit high low = record {
  limit = level limit 100_000;
  high_water = level high 10;
  low_water = level low 4;
}

-- `open_writes` are the tracked writes whose completion was not called yet, each by a number;
-- `tried`, `sent` and `notified` are what was passed to `send`, what it accepted, and what was
-- passed to `onStateChange`, the newest first.
pub record FlowControl : Type 0 where
  pub written : ℕ
  pub pending_writes : ℕ
  pub paused : Bool
  pub disposed : Bool
  pub open_writes : List ℕ
  pub next_write : ℕ
  pub tried : List Message
  pub sent : List Message
  pub notified : List (ℕ × Bool)

unfoldable pub create : FlowControl
create = record {
  written = 0;
  pending_writes = 0;
  paused = false;
  disposed = false;
  open_writes = [];
  next_write = 0;
  tried = [];
  sent = [];
  notified = [];
}

notify_state : FlowControl → FlowControl
notify_state s = record s { notified = (s.pending_writes, s.paused) ∷ s.notified }

-- What the terminal does with a tracked write: it calls the completion later, or within the call,
-- or it throws.
pub data WriteOutcome : Type 0 where
  queued synchronous throws : WriteOutcome

abbrev pub is_open : ℕ → List ℕ → Bool
is_open w [] = false
is_open w (v ∷ vs) = eqb w v || is_open w vs

abbrev pub close : ℕ → List ℕ → List ℕ
close w [] = []
close w (v ∷ vs) = if eqb w v then vs else v ∷ close w vs

count_down : ℕ → FlowControl → FlowControl
unfolding notify_state
count_down w s =
    notify_state
      (record s { open_writes = close w s.open_writes; pending_writes = s.pending_writes - 1 })

unfoldable pub dispose : FlowControl → FlowControl
dispose s = record s { disposed = true }

module _ (options : FlowOptions) (send : List Message → Message → Bool) where
  try_send : Message → Bool → FlowControl → FlowControl
  unfolding notify_state
  try_send m paused s =
      let tried = record s { tried = m ∷ s.tried } in
      if send s.tried m
      then notify_state (record tried { paused = paused; sent = m ∷ s.sent })
      else tried

  unfoldable pub reconcile : FlowControl → FlowControl
  unfolding try_send
  reconcile s =
      if s.disposed
      then s
      else if s.paused
      then (if ltb s.pending_writes options.low_water then try_send resume false s else s)
      else if ltb options.high_water s.pending_writes
      then try_send pause true s
      else s

  -- The completion of a write, which does nothing the second time it is called.
  unfoldable pub complete : ℕ → FlowControl → FlowControl
  unfolding reconcile count_down
  complete w s = if is_open w s.open_writes then reconcile (count_down w s) else s

  -- The write gets the next number and is pending.
  track : ℕ → FlowControl → FlowControl
  unfolding notify_state
  track bytes s =
      let written = s.written + bytes in
      notify_state (record s {
        written = if ltb options.limit written then 0 else written;
        pending_writes = s.pending_writes + 1;
        open_writes = s.next_write ∷ s.open_writes;
        next_write = s.next_write + 1;
      })

  settle : WriteOutcome → ℕ → FlowControl → FlowControl
  unfolding complete reconcile
  settle queued w s = reconcile s
  settle synchronous w s = reconcile (complete w s)
  settle throws w s = complete w s

  -- `write` with data of a length, with or without a callback.
  unfoldable pub write : ℕ → Bool → WriteOutcome → FlowControl → FlowControl
  unfolding track settle
  write bytes has_callback outcome s =
      if eqb bytes 0 || s.disposed
      then s
      else if has_callback || ltb options.limit (s.written + bytes)
      then settle outcome s.next_write (track bytes s)
      else record s { written = s.written + bytes }

  pub data Step (s : FlowControl) : FlowControl → Type 0 where
    writes :
        (bytes : ℕ) (callback : Bool) (outcome : WriteOutcome)
        → Step s (write bytes callback outcome s)
    completes : (w : ℕ) → Step s (complete w s)
    connects : Step s (reconcile s)
    disposes : Step s (dispose s)

  pub data Reach : FlowControl → Type 0 where
    start : Reach create
    next : {s t : FlowControl} → Reach s → Step s t → Reach t
