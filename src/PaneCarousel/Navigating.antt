-- ===== src/PaneCarousel/Navigating.antt =====
-- Which panes can be seen, over any sequence of events.
use euphony.Prelude.{
  ℕ, ◌+◌, ◌-◌, ◌≤◌, ◌≡◌, sym, ap, ◌∙◌, true, Option, some, none, List, [], ◌∷◌, String, ltb, min,
  arith,
}
use euphony.PaneCarousel.{
  Pane, Carousel, create, displayed_panes, visible_count, max_offset, index_of, same_focus,
  same_key, clamp_offset, run_effects, mount, Event, rendered, resized, previous_clicked,
  next_clicked, change, run,
}
use euphony.PaneCarousel.Shown.{
  InView, IsReady, IsSettled, either, same_number_iff, same_id_iff, same_ids_iff,
  clamp_offset-IsClamped, follow_focus-IsSettled,
}

some-inj : {A : Type 0} (x y : A) → some x ≡ some y → x ≡ y
some-inj x y h = cc

same_focus_iff :
    (known : Option (Option String)) (id : Option String)
    → same_focus known id ≡ true
    → known ≡ some id
same_focus_iff none id h = absurd (ground arith)
same_focus_iff (some other) id h = ap some (same_id_iff other id h)

same_key_iff :
    (known : Option (List String)) (ids : List String)
    → same_key known ids ≡ true
    → known ≡ some ids
same_key_iff none ids h = absurd (ground arith)
same_key_iff (some others) ids h = ap some (same_ids_iff others ids h)

same_view :
    (offset count other : ℕ) (ids others : List String) (id changed : Option String)
    → count ≡ other
    → ids ≡ others
    → id ≡ changed
    → InView offset count (index_of ids id)
    → InView offset other (index_of others changed)
same_view offset count other ids others id changed e f g v = rw (sym e, sym f, sym g) v

-- Other panes, another focus or another width.
moved-IsReady :
    (s : Carousel) (ids : List String) (id : Option String) (width : ℕ)
    → IsSettled s
    → IsReady (record s { displayed = ids; focused_id = id; viewport_width = width })
moved-IsReady s ids id width v =
    let t : Carousel = record s { displayed = ids; focused_id = id; viewport_width = width } in
    record {
      bounded = λ h.
          let same : max_offset s ≡ max_offset t =
            some-inj (max_offset s) (max_offset t)
              (sym v.max_known ∙ same_number_iff s.previous_max_offset (max_offset t) h) in
          omega (arith, v.bounded, same);
      shown = λ f g m.
          let focus = same_focus_iff s.previous_focused_id id (ground arith) in
          let key = same_key_iff s.previous_pane_key ids (ground arith) in
          let count = same_number_iff s.previous_visible_count (visible_count t) (ground arith) in
          same_view s.offset (visible_count s) (visible_count t) s.displayed ids s.focused_id id
            (some-inj (visible_count s) (visible_count t) (sym v.count_known ∙ count))
            (some-inj s.displayed ids (sym v.key_known ∙ key))
            (some-inj s.focused_id id (sym v.focus_known ∙ focus)) (v.shown m);
    }

-- A button.
navigated-IsReady :
    (s : Carousel) (offset : ℕ)
    → offset ≤ max_offset s
    → IsReady (record s { manual_navigation = true; offset = offset })
unfolding visible_count
navigated-IsReady s offset h = record { bounded = λ e. h; shown = λ f g m. absurd (ground arith) }

settled-IsReady : (s : Carousel) → IsSettled s → IsReady s
settled-IsReady s v = record { bounded = λ e. v.bounded; shown = λ f g m. v.shown m }

change-IsReady : (e : Event) (s : Carousel) → IsSettled s → IsReady (change e s)
unfolding change
change-IsReady (rendered panes id) s v =
    moved-IsReady s (displayed_panes panes) id s.viewport_width v
change-IsReady (resized width) s v = moved-IsReady s s.displayed s.focused_id width v
change-IsReady previous_clicked s v =
    either IsReady (ltb 0 s.offset) (record s { manual_navigation = true; offset = s.offset - 1 }) s
      (λ e. navigated-IsReady s (s.offset - 1) (omega (arith, v.bounded)))
      (λ e. settled-IsReady s v)
change-IsReady next_clicked s v =
    let next = min (max_offset s) (s.offset + 1) in
    either IsReady (ltb s.offset (max_offset s))
      (record s { manual_navigation = true; offset = next }) s
      (λ e. navigated-IsReady s next (ground arith)) (λ e. settled-IsReady s v)

run_effects-IsSettled : (s : Carousel) → IsReady s → IsSettled (run_effects s)
unfolding run_effects
run_effects-IsSettled s v = follow_focus-IsSettled (clamp_offset s) (clamp_offset-IsClamped s v)

run-keeps : (es : List Event) (s : Carousel) → IsSettled s → IsSettled (run es s)
unfolding run
run-keeps [] s v = v
run-keeps (e ∷ es) s v =
    run-keeps es (run_effects (change e s))
      (run_effects-IsSettled (change e s) (change-IsReady e s v))

mount-IsSettled : (panes : List Pane) (id : Option String) → IsSettled (mount panes id)
unfolding mount
mount-IsSettled panes id =
    let first : Carousel = record create { displayed = displayed_panes panes; focused_id = id } in
    run_effects-IsSettled first
      (record { bounded = λ e. absurd (ground arith); shown = λ f g m. absurd (ground arith) })

-- Whatever is rendered, resized and clicked: no more panes are visible than there are, and at
-- least one if there is any; the visible ones all exist; and the focused pane, if it is displayed,
-- is one of them, unless the user has moved on with a button since the focus or the panes changed.
pub run-IsSettled :
    (panes : List Pane) (id : Option String) (es : List Event) → IsSettled (run es (mount panes id))
run-IsSettled panes id es = run-keeps es (mount panes id) (mount-IsSettled panes id)
