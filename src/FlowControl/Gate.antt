-- ===== src/FlowControl/Gate.antt =====
-- What the counters, the messages to the server and the observer have to do with one another.
use euphony.Prelude.{
  ℕ, ◌+◌, ◌≡◌, Bool, true, false, List, [], ◌∷◌, length, arith, ltb, eqb, ◌||◌, Bool-cases, inl,
  inr,
}
use euphony.FlowControl.{
  Message, pause, resume, FlowOptions, FlowControl, create, WriteOutcome, queued, synchronous,
  throws, is_open, close, reconcile, count_down, complete, track, settle, write, dispose, Step,
  writes, completes, connects, disposes, Reach, start, next,
}

-- The messages sent, the newest first, alternate, the first was a pause, and the last one agrees
-- with `paused`.
abbrev pub Alternates : List Message → Bool → Type 0
Alternates [] paused = paused ≡ false
Alternates (pause ∷ sent) paused = (paused ≡ true) × Alternates sent false
Alternates (resume ∷ sent) paused = (paused ≡ false) × Alternates sent true

-- The observer was last told this.
abbrev pub IsTold : List (ℕ × Bool) → ℕ → Bool → Type 0
IsTold [] pending paused = (pending ≡ 0) × (paused ≡ false)
IsTold ((n, b) ∷ notified) pending paused = (n ≡ pending) × (b ≡ paused)

pub record IsSound (s : FlowControl) : Type 0 where
  pub counted : s.pending_writes ≡ length s.open_writes
  pub alternates : Alternates s.sent s.paused
  pub told : IsTold s.notified s.pending_writes s.paused

pub length-close : (w : ℕ) (ws : List ℕ) → is_open w ws ≡ true → length (close w ws) + 1 ≡ length ws
length-close w [] h = cc
length-close w (v ∷ ws) h = ground (arith, length-close w ws)

count_down-IsSound :
    (w : ℕ) (s : FlowControl)
    → is_open w s.open_writes ≡ true
    → IsSound s
    → IsSound (count_down w s)
unfolding count_down
count_down-IsSound w s h v = ground (arith, length-close w s.open_writes)

dispose-IsSound : (s : FlowControl) → IsSound s → IsSound (dispose s)
unfolding dispose
dispose-IsSound s v = ground arith

create-IsSound : IsSound create
unfolding create
create-IsSound = ground arith

module _ (options : FlowOptions) (send : List Message → Message → Bool) where
  reconcile-IsSound : (s : FlowControl) → IsSound s → IsSound (reconcile options send s)
  unfolding reconcile
  reconcile-IsSound s v = ground arith

  complete-IsSound : (w : ℕ) (s : FlowControl) → IsSound s → IsSound (complete options send w s)
  unfolding complete
  complete-IsSound w s v = elim (Bool-cases (is_open w s.open_writes)) [
    | inl e ↦ rw e (reconcile-IsSound (count_down w s) (count_down-IsSound w s e v))
    | inr e ↦ rw e v
  ]

  track-IsSound : (bytes : ℕ) (s : FlowControl) → IsSound s → IsSound (track options send bytes s)
  unfolding track
  track-IsSound bytes s v = ground arith

  settle-IsSound :
      (outcome : WriteOutcome) (w : ℕ) (s : FlowControl)
      → IsSound s
      → IsSound (settle options send outcome w s)
  unfolding settle
  settle-IsSound queued w s v = reconcile-IsSound s v
  settle-IsSound synchronous w s v =
      reconcile-IsSound (complete options send w s) (complete-IsSound w s v)
  settle-IsSound throws w s v = complete-IsSound w s v

  write-IsSound :
      (bytes : ℕ) (callback : Bool) (outcome : WriteOutcome) (s : FlowControl)
      → IsSound s
      → IsSound (write options send bytes callback outcome s)
  unfolding write
  write-IsSound bytes callback outcome s v = elim (Bool-cases (eqb bytes 0 || s.disposed)) [
    | inl e ↦ rw e v
    | inr e ↦ elim (Bool-cases (callback || ltb options.limit (s.written + bytes))) [
      | inl tracked ↦
          rw (e, tracked)
            (settle-IsSound outcome s.next_write (track options send bytes s)
              (track-IsSound bytes s v))
      | inr untracked ↦ rw (e, untracked) (ground arith)
    ]
  ]

  Step-IsSound : {s t : FlowControl} → IsSound s → Step options send s t → IsSound t
  Step-IsSound {s} v (writes bytes callback outcome) = write-IsSound bytes callback outcome s v
  Step-IsSound {s} v (completes w) = complete-IsSound w s v
  Step-IsSound {s} v connects = reconcile-IsSound s v
  Step-IsSound {s} v disposes = dispose-IsSound s v

  -- Whatever the terminal and the server's connection do, and in whatever order the completions
  -- are called: the pending writes are the tracked ones not completed yet, the messages that the
  -- server got alternate, starting with a pause, and agree with `paused`, and the observer was last
  -- told the current number and state.
  pub Reach-IsSound : {s : FlowControl} → Reach options send s → IsSound s
  Reach-IsSound start = create-IsSound
  Reach-IsSound (next reached step) = Step-IsSound (Reach-IsSound reached) step
