-- ===== src/PaneCarousel.antt =====
-- web/src/components/PaneCarousel.tsx. The two layout effects run after each render, and do
-- nothing when what they depend on is as before. A width is rounded down, which its quotient does
-- not tell. `paneKey` is the list of the identifiers that the code joins.
pub mod Shown
pub mod Navigating
mod Tests
use euphony.Prelude.{
  ℕ, zero, suc, ◌+◌, ◌-◌, ◌/◌, Bool, true, false, not, Option, some, none, List, [], ◌∷◌, String,
  ◌&&◌, ◌||◌, ◌==◌, if◌then◌else◌, length, filter, map, ltb, leb, eqb, min, max, same_ids,
}

abbrev pub min_pane_width : ℕ
min_pane_width = 360

unfoldable pub visible_pane_count : ℕ → ℕ → ℕ
visible_pane_count width pane_count =
    if eqb pane_count 0 then 0 else min pane_count (max 1 (width / min_pane_width))

pub record Pane : Type 0 where
  pub id : String
  pub cached : Bool

-- The refs of the effects are none before the first run.
pub record Carousel : Type 0 where
  pub displayed : List String
  pub focused_id : Option String
  pub viewport_width : ℕ
  pub offset : ℕ
  pub manual_navigation : Bool
  pub previous_max_offset : Option ℕ
  pub previous_focused_id : Option (Option String)
  pub previous_pane_key : Option (List String)
  pub previous_visible_count : Option ℕ

abbrev pub create : Carousel
create = record {
  displayed = [];
  focused_id = none;
  viewport_width = 0;
  offset = 0;
  manual_navigation = false;
  previous_max_offset = none;
  previous_focused_id = none;
  previous_pane_key = none;
  previous_visible_count = none;
}

abbrev pub displayed_panes : List Pane → List String
displayed_panes panes = map (λ pane. pane.id) (filter (λ pane. not pane.cached) panes)

unfoldable pub visible_count : Carousel → ℕ
unfolding visible_pane_count
visible_count s = visible_pane_count s.viewport_width (length s.displayed)

abbrev pub max_offset : Carousel → ℕ
max_offset s = length s.displayed - visible_count s

-- A map from the identifiers to their places keeps the last place.
abbrev pub index_in : List String → String → Option ℕ
index_in [] id = none
index_in (other ∷ ids) id = elim (index_in ids id) [
  | some i ↦ some (suc i)
  | none ↦ if other == id then some 0 else none
]

abbrev pub index_of : List String → Option String → Option ℕ
index_of ids none = none
index_of ids (some id) = index_in ids id

abbrev pub focused_index : Carousel → Option ℕ
focused_index s = index_of s.displayed s.focused_id

abbrev pub same_number : Option ℕ → ℕ → Bool
same_number none n = false
same_number (some m) n = eqb m n

abbrev pub same_id : Option String → Option String → Bool
same_id none none = true
same_id none (some id) = false
same_id (some id) none = false
same_id (some id) (some other) = id == other

abbrev pub same_focus : Option (Option String) → Option String → Bool
same_focus none id = false
same_focus (some previous) id = same_id previous id

abbrev pub same_key : Option (List String) → List String → Bool
same_key none ids = false
same_key (some previous) ids = same_ids previous ids

-- The effect on the greatest offset.
unfoldable pub clamp_offset : Carousel → Carousel
clamp_offset s = if same_number s.previous_max_offset (max_offset s) then s else record s {
  previous_max_offset = some (max_offset s);
  manual_navigation = if eqb (max_offset s) 0 then false else s.manual_navigation;
  offset = min s.offset (max_offset s);
}

-- The offset that shows a pane.
unfoldable pub show_index : ℕ → ℕ → ℕ → ℕ → ℕ
show_index index count greatest current =
    if ltb index current
    then index
    else if leb (current + count) index
    then min greatest ((index - count) + 1)
    else min current greatest

unfoldable pub show_focused : Option ℕ → ℕ → ℕ → ℕ → ℕ
unfolding show_index
show_focused none count greatest current = current
show_focused (some index) count greatest current =
    if eqb count 0 then current else show_index index count greatest current

abbrev pub focus_or_panes_changed : Carousel → Bool
focus_or_panes_changed s =
    not (same_focus s.previous_focused_id s.focused_id)
    || not (same_key s.previous_pane_key s.displayed)

abbrev pub capacity_changed : Carousel → Bool
capacity_changed s = not (same_number s.previous_visible_count (visible_count s))

abbrev pub remember : Carousel → Carousel
remember s = record s {
  previous_focused_id = some s.focused_id;
  previous_pane_key = some s.displayed;
  previous_visible_count = some (visible_count s);
}

-- The effect on the focused pane.
unfoldable pub follow_focus : Carousel → Carousel
unfolding show_focused
follow_focus s =
    if not (focus_or_panes_changed s) && (not (capacity_changed s) || s.manual_navigation)
    then remember s
    else record (remember s) {
      manual_navigation = if focus_or_panes_changed s then false else s.manual_navigation;
      offset = show_focused (focused_index s) (visible_count s) (max_offset s) s.offset;
    }

unfoldable pub run_effects : Carousel → Carousel
unfolding clamp_offset follow_focus
run_effects s = follow_focus (clamp_offset s)

-- The first render.
unfoldable pub mount : List Pane → Option String → Carousel
unfolding run_effects
mount panes id = run_effects (record create { displayed = displayed_panes panes; focused_id = id })

pub data Event : Type 0 where
  rendered : List Pane → Option String → Event
  resized : ℕ → Event
  previous_clicked next_clicked : Event

-- What an event changes before the effects. The buttons are there while they lead somewhere.
unfoldable pub change : Event → Carousel → Carousel
change (rendered panes id) s = record s { displayed = displayed_panes panes; focused_id = id }
change (resized width) s = record s { viewport_width = width }
change previous_clicked s =
    if ltb 0 s.offset then record s { manual_navigation = true; offset = s.offset - 1 } else s
change next_clicked s =
    if ltb s.offset (max_offset s)
    then record s { manual_navigation = true; offset = min (max_offset s) (s.offset + 1) }
    else s

unfoldable pub run : List Event → Carousel → Carousel
unfolding change run_effects
run [] s = s
run (e ∷ es) s = run es (run_effects (change e s))
