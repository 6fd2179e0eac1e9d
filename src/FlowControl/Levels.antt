-- ===== src/FlowControl/Levels.antt =====
-- When the gate is open and when it is closed.
use euphony.Prelude.{
  ℕ, ◌+◌, ◌≤◌, ◌≡◌, refl, Bool, true, false, List, arith, ltb, eqb, Bool-cases, inl, inr, ◌||◌, ◌∙◌,
  sym,
}
use euphony.FlowControl.{
  Message, pause, resume, FlowOptions, FlowControl, create, WriteOutcome, queued, synchronous,
  throws, is_open, count_down, reconcile, complete, track, settle, write, dispose, Step, writes,
  completes, connects, disposes, Reach, start, next,
}

dispose-disposed : (s : FlowControl) → ¬ ((dispose s).disposed ≡ false)
unfolding dispose
dispose-disposed s = ground arith

module _ (options : FlowOptions) (send : List Message → Message → Bool) where
  pub record IsLevel (s : FlowControl) : Type 0 where
    pub open_below : s.paused ≡ false → s.pending_writes ≤ options.high_water
    pub closed_above : s.paused ≡ true → options.low_water ≤ s.pending_writes

  reconcile-IsLevel :
      ((tried : List Message) (m : Message) → send tried m ≡ true)
      → options.low_water ≤ options.high_water + 1
      → (s : FlowControl) → s.disposed ≡ false
      → IsLevel (reconcile options send s)
  unfolding reconcile
  reconcile-IsLevel reliable ordered s live =
      ground (arith, reliable s.tried pause, reliable s.tried resume)

  reconcile-disposed : (s : FlowControl) → (reconcile options send s).disposed ≡ s.disposed
  unfolding reconcile
  reconcile-disposed s = ground arith

  complete-disposed : (w : ℕ) (s : FlowControl) → (complete options send w s).disposed ≡ s.disposed
  unfolding complete count_down
  complete-disposed w s = elim (Bool-cases (is_open w s.open_writes)) [
    | inl e ↦ rw e (reconcile-disposed (count_down w s))
    | inr e ↦ rw e refl
  ]

  settle-disposed :
      (outcome : WriteOutcome) (w : ℕ) (s : FlowControl)
      → (settle options send outcome w s).disposed ≡ s.disposed
  unfolding settle
  settle-disposed queued w s = reconcile-disposed s
  settle-disposed synchronous w s =
      reconcile-disposed (complete options send w s) ∙ complete-disposed w s
  settle-disposed throws w s = complete-disposed w s

  write-disposed :
      (bytes : ℕ) (callback : Bool) (outcome : WriteOutcome) (s : FlowControl)
      → (write options send bytes callback outcome s).disposed ≡ s.disposed
  unfolding write track
  write-disposed bytes callback outcome s = elim (Bool-cases (eqb bytes 0 || s.disposed)) [
    | inl e ↦ rw e refl
    | inr e ↦ elim (Bool-cases (callback || ltb options.limit (s.written + bytes))) [
      | inl tracked ↦
          rw (e, tracked) (settle-disposed outcome s.next_write (track options send bytes s))
      | inr untracked ↦ rw (e, untracked) refl
    ]
  ]

  module _ (reliable : (tried : List Message) (m : Message) → send tried m ≡ true)
      (ordered : options.low_water ≤ options.high_water + 1) where
    complete-IsLevel :
        (w : ℕ) (s : FlowControl)
        → s.disposed ≡ false
        → (is_open w s.open_writes ≡ false → IsLevel s)
        → IsLevel (complete options send w s)
    unfolding complete count_down
    complete-IsLevel w s live v = elim (Bool-cases (is_open w s.open_writes)) [
      | inl e ↦ rw e (reconcile-IsLevel reliable ordered (count_down w s) live)
      | inr e ↦ rw e (v e)
    ]

    settle-IsLevel :
        (outcome : WriteOutcome) (w : ℕ) (s : FlowControl)
        → s.disposed ≡ false
        → is_open w s.open_writes ≡ true
        → IsLevel (settle options send outcome w s)
    unfolding settle
    settle-IsLevel queued w s live h = reconcile-IsLevel reliable ordered s live
    settle-IsLevel synchronous w s live h =
        reconcile-IsLevel reliable ordered (complete options send w s)
          (complete-disposed w s ∙ live)
    settle-IsLevel throws w s live h = complete-IsLevel w s live (λ closed. ground arith)

    write-IsLevel :
        (bytes : ℕ) (callback : Bool) (outcome : WriteOutcome) (s : FlowControl)
        → s.disposed ≡ false
        → IsLevel s
        → IsLevel (write options send bytes callback outcome s)
    unfolding write track
    write-IsLevel bytes callback outcome s live v = elim (Bool-cases (eqb bytes 0 || s.disposed)) [
      | inl e ↦ rw e v
      | inr e ↦ elim (Bool-cases (callback || ltb options.limit (s.written + bytes))) [
        | inl tracked ↦
            rw (e, tracked)
              (settle-IsLevel outcome s.next_write (track options send bytes s) live (ground arith))
        | inr untracked ↦ rw (e, untracked) (ground arith)
      ]
    ]

    Step-IsLevel :
        {s t : FlowControl}
        → (s.disposed ≡ false → IsLevel s)
        → Step options send s t
        → t.disposed ≡ false
        → IsLevel t
    Step-IsLevel {s} v (writes bytes callback outcome) live =
        let live_before = sym (write-disposed bytes callback outcome s) ∙ live in
        write-IsLevel bytes callback outcome s live_before (v live_before)
    Step-IsLevel {s} v (completes w) live =
        let live_before = sym (complete-disposed w s) ∙ live in
        complete-IsLevel w s live_before (λ closed. v live_before)
    Step-IsLevel {s} v connects live =
        reconcile-IsLevel reliable ordered s (sym (reconcile-disposed s) ∙ live)
    Step-IsLevel {s} v disposes live = elim (dispose-disposed s live) [ ]

    create-IsLevel : IsLevel create
    unfolding create
    create-IsLevel = ground arith

    -- As long as the connection takes every message and the gate is not disposed, and the low
    -- level is at most one above the high one, after every call the gate is open only with at most
    -- `highWater` writes pending, and closed only with at least `lowWater`: the output is never left
    -- paused with fewer writes pending.
    pub Reach-IsLevel : {s : FlowControl} → Reach options send s → s.disposed ≡ false → IsLevel s
    Reach-IsLevel start live = create-IsLevel
    Reach-IsLevel (next reached step) live = Step-IsLevel (Reach-IsLevel reached) step live
