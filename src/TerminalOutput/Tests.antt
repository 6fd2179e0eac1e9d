-- ===== src/TerminalOutput/Tests.antt =====
-- Runs of the batcher.
use euphony.Prelude.{◌≡◌, refl, List, [], ◌∷◌}
use euphony.TerminalOutput.{
  create, dispose, typed, flush_timeout, interactive_timeout, receives, run, Event, step,
}
use euphony.TerminalOutput.Delivery.{joined, IsSound}
use euphony.TerminalOutput.Delivery.Steps.{run-IsSound, dispose_delivers, timeout_delivers}

abbrev some_events : List Event
some_events =
    receives (1 ∷ 2 ∷ [])
    ∷ receives (3 ∷ [])
    ∷ typed
    ∷ receives (4 ∷ [])
    ∷ interactive_timeout
    ∷ receives (5 ∷ 6 ∷ [])
    ∷ []

-- Two chunks are written as one, the echo of the input alone, and the rest when the time is over.
chunks_written : (run (some_events) create).written ≡ (1 ∷ 2 ∷ 3 ∷ []) ∷ (4 ∷ []) ∷ []
unfolding run
chunks_written = refl

rest_pending : (run (some_events) create).pending ≡ (5 ∷ 6 ∷ []) ∷ []
unfolding run
rest_pending = refl

run-IsSound_example : IsSound (run some_events create)
run-IsSound_example = run-IsSound some_events

dispose_delivers_example :
    joined (dispose (run some_events create)).written ≡ 1 ∷ 2 ∷ 3 ∷ 4 ∷ 5 ∷ 6 ∷ []
dispose_delivers_example = dispose_delivers some_events

timeout_delivers_example :
    joined (step flush_timeout (run some_events create)).written ≡ 1 ∷ 2 ∷ 3 ∷ 4 ∷ 5 ∷ 6 ∷ []
timeout_delivers_example = timeout_delivers some_events
