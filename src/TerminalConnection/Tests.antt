-- ===== src/TerminalConnection/Tests.antt =====
-- Runs of a terminal's connection.
use euphony.Prelude.{ℕ, ◌≡◌, refl, true, false, some, none, List, [], ◌∷◌, ◌++◌}
use euphony.TerminalOutput.Delivery.{joined}
use euphony.TerminalOutput.Delivery.Steps.{all_bytes}
use euphony.TerminalConnection.{
  takes, throws, shift_enter, lock_changed, Connection, create, Message, history, history_end,
  output, exit, error, Event, opened, callback, flush_timeout, message, input, step, run,
}
use euphony.TerminalConnection as M
use euphony.TerminalConnection.Replaying.{IsReplaying, AreTaken, run-IsReplaying}
use euphony.TerminalConnection.Ordering.{queued}
use euphony.TerminalConnection.Ordering.Run.{
  IsHistoryThenOutput, run_delivers, timeout_delivers_all,
}
use euphony.TerminalConnection.Capacity as C
use euphony.TerminalConnection.Capacity.Claims.{IsClaimed, claim_refined}

abbrev session : List Event
session =
    opened
    ∷ message (takes false) (history (some (1 ∷ 2 ∷ [])))
    ∷ message (takes false) history_end
    ∷ message (takes false) (output (some (3 ∷ [])))
    ∷ input (9 ∷ [])
    ∷ message (takes false) (M.resize 80 24)
    ∷ message (takes false) (output (some (4 ∷ 5 ∷ [])))
    ∷ []

session_in_order : IsHistoryThenOutput false session
session_in_order = (refl, (tt, (tt, (tt, (tt, tt)))))

replay_blocks_input : (run session (create 0 false)).inputs ≡ []
unfolding run create
replay_blocks_input = refl

input_after_replay :
    (run (session ++ callback ∷ input (7 ∷ []) ∷ []) (create 0 false)).inputs ≡ (7 ∷ []) ∷ []
unfolding run create
input_after_replay = refl

abbrev small_queue : Connection
small_queue = record (create 0 false) { initial_queue_limit = 1 }

-- The terminal throws on the history: the count goes below zero, and input stays blocked.
throw_blocks_input :
    (run
      (opened
        ∷ message (takes false) (M.resize 80 24)
        ∷ message throws (history (some (1 ∷ [])))
        ∷ message (takes false) history_end
        ∷ input (7 ∷ [])
        ∷ [])
      (create 0 false)).inputs
    ≡ []
unfolding run create
throw_blocks_input = refl

sent_in_replay :
    (run (session ++ shift_enter ∷ lock_changed true ∷ shift_enter ∷ []) (create 0 false)).inputs
    ≡ (10 ∷ []) ∷ []
unfolding run create
sent_in_replay = refl

overflow_closes :
    (run (message (takes false) (output (some (1 ∷ 2 ∷ []))) ∷ []) small_queue).listening ≡ false
unfolding run create
overflow_closes = refl

session_taken : AreTaken session
session_taken = (tt, (tt, (tt, (tt, (tt, (tt, (tt, tt)))))))

run-IsReplaying_example : IsReplaying (run session (create 0 false))
run-IsReplaying_example = run-IsReplaying 0 false session session_taken

session_listens : (run session (create 0 false)).listening ≡ true
unfolding run create
session_listens = refl

session_accepted : (run session (create 0 false)).accepted_size_received ≡ true
unfolding run create
session_accepted = refl

run_delivers_example :
    all_bytes (run session (create 0 false)).batcher
      ++ queued (run session (create 0 false)).queued_initial_data
    ≡ 1 ∷ 2 ∷ 3 ∷ 4 ∷ 5 ∷ []
run_delivers_example = run_delivers 0 false session session_in_order session_listens

timeout_delivers_all_example :
    joined (step flush_timeout (run session (create 0 false))).batcher.written
    ≡ 1 ∷ 2 ∷ 3 ∷ 4 ∷ 5 ∷ []
timeout_delivers_all_example =
    timeout_delivers_all 0 false session session_in_order session_listens session_accepted

abbrev shown : ℕ → C.Report
shown cols = record {
  aria_hidden = false;
  source_visible = true;
  element_visible = true;
  dimensions = some (cols, 24);
}

abbrev hidden : C.Report
hidden = record {
  aria_hidden = true;
  source_visible = true;
  element_visible = false;
  dimensions = none;
}

abbrev reports : List C.Event
reports =
    C.reported (shown 80)
    ∷ C.opened (shown 80)
    ∷ C.reported (shown 80)
    ∷ C.reported hidden
    ∷ C.reported (shown 100)
    ∷ []

reports_sent :
    (C.run reports C.create).sent ≡ C.resize 100 24 ∷ C.resize_release ∷ C.resize 80 24 ∷ []
unfolding C.run
reports_sent = refl

claim_refined_example : IsClaimed (true, some (100, 24)) (C.run reports C.create)
claim_refined_example = claim_refined reports
