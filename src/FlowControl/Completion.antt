-- ===== src/FlowControl/Completion.antt =====
-- The completion of a write, called once and again.
use euphony.Prelude.{
  ℕ, ◌+◌, ◌-◌, ◌≤◌, ◌<◌, ◌≡◌, refl, Bool, true, false, List, [], ◌∷◌, arith, ltb, eqb, Bool-cases,
  inl, inr, ◌||◌, sym,
}
use euphony.FlowControl.{
  Message, FlowOptions, FlowControl, create, WriteOutcome, queued, synchronous, throws, is_open,
  close, count_down, reconcile, complete, track, settle, write, dispose, writes, completes,
  connects, disposes, Reach, start, next,
}
use euphony.FlowControl.Gate.{length-close, Reach-IsSound}

-- The open writes, the newest first, have falling numbers below the next one.
abbrev pub IsFalling : List ℕ → ℕ → Type 0
IsFalling [] bound = Unit
IsFalling (w ∷ ws) bound = (w < bound) × IsFalling ws w

weaken-IsFalling : (ws : List ℕ) (a b : ℕ) → a ≤ b → IsFalling ws a → IsFalling ws b
weaken-IsFalling [] a b h v = tt
weaken-IsFalling (w ∷ ws) a b h v = ground arith

close-IsFalling : (w : ℕ) (ws : List ℕ) (b : ℕ) → IsFalling ws b → IsFalling (close w ws) b
close-IsFalling w [] b v = tt
close-IsFalling w (x ∷ ws) b v = ground (arith, close-IsFalling w ws x, weaken-IsFalling ws x b)

is_open_falling : (w : ℕ) (ws : List ℕ) (b : ℕ) → IsFalling ws b → b ≤ w → is_open w ws ≡ false
is_open_falling w [] b v h = refl
is_open_falling w (x ∷ ws) b v h = ground (arith, is_open_falling w ws x)

is_open-close : (w : ℕ) (ws : List ℕ) (b : ℕ) → IsFalling ws b → is_open w (close w ws) ≡ false
is_open-close w [] b v = refl
is_open-close w (x ∷ ws) b v = ground (arith, is_open_falling w ws x, is_open-close w ws x)

close_absent : (w : ℕ) (ws : List ℕ) → is_open w ws ≡ false → close w ws ≡ ws
close_absent w [] h = refl
close_absent w (x ∷ ws) h = ground (arith, close_absent w ws)

module _ (options : FlowOptions) (send : List Message → Message → Bool) where
  -- The numbers of the open writes and of the next one.
  reconcile-open :
      (s : FlowControl)
      → ((reconcile options send s).open_writes ≡ s.open_writes)
        × ((reconcile options send s).next_write ≡ s.next_write)
  unfolding reconcile
  reconcile-open s = ground arith

  complete-open :
      (w : ℕ) (s : FlowControl)
      → ((complete options send w s).open_writes ≡ close w s.open_writes)
        × ((complete options send w s).next_write ≡ s.next_write)
  unfolding complete count_down
  complete-open w s = elim (Bool-cases (is_open w s.open_writes)) [
    | inl e ↦ rw e (reconcile-open (count_down w s))
    | inr e ↦ rw e (sym (close_absent w s.open_writes e), refl)
  ]

  settle-open :
      (outcome : WriteOutcome) (w : ℕ) (s : FlowControl)
      → IsFalling s.open_writes s.next_write
      → IsFalling
          (settle options send outcome w s).open_writes
          (settle options send outcome w s).next_write
  unfolding settle
  settle-open queued w s v = ground (arith, reconcile-open s)
  settle-open synchronous w s v = ground (
    arith,
    reconcile-open (complete options send w s),
    complete-open w s,
    close-IsFalling w s.open_writes s.next_write,
  )
  settle-open throws w s v =
      ground (arith, complete-open w s, close-IsFalling w s.open_writes s.next_write)

  write-open :
      (bytes : ℕ) (callback : Bool) (outcome : WriteOutcome) (s : FlowControl)
      → IsFalling s.open_writes s.next_write
      → IsFalling
          (write options send bytes callback outcome s).open_writes
          (write options send bytes callback outcome s).next_write
  unfolding write track
  write-open bytes callback outcome s v = elim (Bool-cases (eqb bytes 0 || s.disposed)) [
    | inl e ↦ rw e v
    | inr e ↦ elim (Bool-cases (callback || ltb options.limit (s.written + bytes))) [
      | inl tracked ↦
          rw (e, tracked)
            (settle-open outcome s.next_write (track options send bytes s) (ground arith))
      | inr untracked ↦ rw (e, untracked) v
    ]
  ]

  Reach-IsFalling : {s : FlowControl} → Reach options send s → IsFalling s.open_writes s.next_write
  unfolding create dispose
  Reach-IsFalling start = tt
  Reach-IsFalling (next {s} reached (writes bytes callback outcome)) =
      write-open bytes callback outcome s (Reach-IsFalling reached)
  Reach-IsFalling (next {s} reached (completes w)) = ground (
    arith,
    complete-open w s,
    close-IsFalling w s.open_writes s.next_write,
    Reach-IsFalling reached,
  )
  Reach-IsFalling (next {s} reached connects) =
      ground (arith, reconcile-open s, Reach-IsFalling reached)
  Reach-IsFalling (next reached disposes) = Reach-IsFalling reached

  reconcile-pending :
      (s : FlowControl) → (reconcile options send s).pending_writes ≡ s.pending_writes
  unfolding reconcile
  reconcile-pending s = ground arith

  complete_closed :
      (w : ℕ) (s : FlowControl) → is_open w s.open_writes ≡ false → complete options send w s ≡ s
  unfolding complete
  complete_closed w s h = rw h

  complete-pending :
      (w : ℕ) (s : FlowControl)
      → is_open w s.open_writes ≡ true
      → (complete options send w s).pending_writes ≡ s.pending_writes - 1
  unfolding complete count_down
  complete-pending w s h = rw h (reconcile-pending (count_down w s))

  complete_again :
      (w : ℕ) (s : FlowControl)
      → Reach options send s
      → complete options send w (complete options send w s) ≡ complete options send w s
  complete_again w s reached = complete_closed w (complete options send w s) (
      rw (complete-open w s).0
        (is_open-close w s.open_writes s.next_write (Reach-IsFalling reached)))

  -- The completion of an open write counts exactly once: it takes one from the pending writes, of
  -- which there was one, and when it is called again, nothing changes.
  pub complete_once :
      (w : ℕ) (s : FlowControl)
      → Reach options send s
      → is_open w s.open_writes ≡ true
      → ((complete options send w s).pending_writes + 1 ≡ s.pending_writes)
        × (complete options send w (complete options send w s) ≡ complete options send w s)
  complete_once w s reached h = (
    ground (
      arith,
      complete-pending w s h,
      (Reach-IsSound options send reached).counted,
      length-close w s.open_writes h,
    ),
    complete_again w s reached,
  )
