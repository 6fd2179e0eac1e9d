-- ===== src/FlowControl/Tests.antt =====
-- Runs of the gate with a high level of 1 and a low level of 1.
use euphony.Prelude.{◌+◌, ◌≡◌, refl, Bool, true, false, some, none, List, [], ◌∷◌, ℤ, arith}
use euphony.FlowControl.{
  Message, pause, resume, FlowOptions, flow_options, FlowControl, create, queued, complete, write,
  writes, Reach, start, next, is_open,
}
use euphony.FlowControl.Gate.{Reach-IsSound, IsSound}
use euphony.FlowControl.Levels.{Reach-IsLevel, IsLevel}
use euphony.FlowControl.Completion.{complete_once}

abbrev small_levels : FlowOptions
small_levels = record { limit = 8; high_water = 1; low_water = 1 }

abbrev accepting : List Message → Message → Bool
accepting tried m = true

-- One write is pending, then a second one passes the high level.
abbrev after_one : FlowControl
after_one = write small_levels accepting 9 false queued create

abbrev after_two : FlowControl
after_two = write small_levels accepting 1 true queued after_one

after_one_reached : Reach small_levels accepting after_one
after_one_reached = next start (writes 9 false queued)

after_two_reached : Reach small_levels accepting after_two
after_two_reached = next after_one_reached (writes 1 true queued)

after_two_paused :
    (after_two.paused ≡ true) × (after_two.sent ≡ pause ∷ []) × (after_two.pending_writes ≡ 2)
unfolding create write
after_two_paused = (refl, refl, refl)

after_completions :
    (complete small_levels accepting 0 (complete small_levels accepting 1 after_two)).sent
    ≡ resume ∷ pause ∷ []
unfolding create write complete
after_completions = refl

default_levels :
    flow_options none (some (ℤ.negsuc 3)) none
    ≡ record { limit = 100_000; high_water = 0; low_water = 4 }
unfolding flow_options
default_levels = refl

after_two_live : after_two.disposed ≡ false
unfolding create write
after_two_live = refl

after_two_open : is_open 0 after_two.open_writes ≡ true
unfolding create write
after_two_open = refl

Reach-IsSound_example : IsSound after_two
Reach-IsSound_example = Reach-IsSound small_levels accepting after_two_reached

Reach-IsLevel_example : IsLevel small_levels accepting after_two
Reach-IsLevel_example =
    Reach-IsLevel small_levels accepting (λ tried m. refl) (ground arith) after_two_reached
      after_two_live

complete_once_example :
    ((complete small_levels accepting 0 after_two).pending_writes + 1 ≡ after_two.pending_writes)
    × (complete small_levels accepting 0 (complete small_levels accepting 0 after_two)
        ≡ complete small_levels accepting 0 after_two)
complete_once_example =
    complete_once small_levels accepting 0 after_two after_two_reached after_two_open
