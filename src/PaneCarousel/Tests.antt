-- ===== src/PaneCarousel/Tests.antt =====
-- A carousel of four panes, one of them cached.
use euphony.Prelude.{◌≡◌, refl, Bool, true, false, some, List, [], ◌∷◌, String, ◌++◌}
use euphony.PaneCarousel.{
  Pane, mount, Event, rendered, resized, previous_clicked, run, visible_count,
}
use euphony.PaneCarousel.Shown.{IsSettled}
use euphony.PaneCarousel.Navigating.{run-IsSettled}

abbrev pane : String → Bool → Pane
pane id cached = record { id = id; cached = cached }

abbrev panes : List Pane
panes = pane "a" false ∷ pane "b" false ∷ pane "x" true ∷ pane "c" false ∷ []

abbrev visit : List Event
visit = resized 800 ∷ rendered panes (some "c") ∷ []

focus_shown : (run visit (mount panes (some "a"))).offset ≡ 1
unfolding run mount visible_count
focus_shown = refl

buttons : (run (visit ++ previous_clicked ∷ []) (mount panes (some "a"))).offset ≡ 0
unfolding run mount visible_count
buttons = refl

narrow_keeps_choice :
    (run (visit ++ previous_clicked ∷ resized 400 ∷ []) (mount panes (some "a"))).offset ≡ 0
unfolding run mount visible_count
narrow_keeps_choice = refl

run-IsSettled_example : IsSettled (run visit (mount panes (some "a")))
run-IsSettled_example = run-IsSettled panes (some "a") visit
