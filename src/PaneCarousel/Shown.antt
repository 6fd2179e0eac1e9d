-- ===== src/PaneCarousel/Shown.antt =====
-- What the two effects do.
use euphony.Prelude.{
  same_ids, ℕ, suc, ◌+◌, ◌-◌, ◌≤◌, ◌<◌, ◌≡◌, refl, ap, Bool, true, false, not, Option, some, none,
  List, [], ◌∷◌, String, ◌&&◌, ◌||◌, ◌==◌, if◌then◌else◌, length, eqb, min, arith, Bool-cases, inl,
  inr, eq_iff,
}
use euphony.PaneCarousel.{
  visible_pane_count, Carousel, visible_count, max_offset, index_in, index_of, focused_index,
  same_number, same_id, clamp_offset, show_index, show_focused, focus_or_panes_changed,
  capacity_changed, remember, follow_focus,
}

-- The number of visible panes.
visible_pane_count_bounds :
    (width n : ℕ) → (visible_pane_count width n ≤ n) × (0 < n → 0 < visible_pane_count width n)
unfolding visible_pane_count
visible_pane_count_bounds width n = ground arith

abbrev IsBelow : ℕ → Option ℕ → Type 0
IsBelow n none = Unit
IsBelow n (some i) = i < n

next-IsBelow :
    (n : ℕ) (index : Option ℕ) (found : Bool)
    → IsBelow n index
    → IsBelow (suc n) (elim index [ some i ↦ some (suc i) | none ↦ if found then some 0 else none ])
next-IsBelow n (some i) found v = ground arith
next-IsBelow n none true v = omega arith
next-IsBelow n none false v = tt

index_in-IsBelow : (ids : List String) (id : String) → IsBelow (length ids) (index_in ids id)
index_in-IsBelow [] id = tt
index_in-IsBelow (other ∷ ids) id =
    next-IsBelow (length ids) (index_in ids id) (other == id) (index_in-IsBelow ids id)

index_of-IsBelow : (ids : List String) (id : Option String) → IsBelow (length ids) (index_of ids id)
index_of-IsBelow ids none = tt
index_of-IsBelow ids (some id) = index_in-IsBelow ids id

abbrev pub InView : ℕ → ℕ → Option ℕ → Type 0
InView offset count none = Unit
InView offset count (some index) = (offset ≤ index) × (index < offset + count)

show_index-InView :
    (index count n current : ℕ)
    → index < n
    → 0 < count
    → count ≤ n
    → current ≤ n - count
    → InView (show_index index count (n - count) current) count (some index)
      × (show_index index count (n - count) current ≤ n - count)
unfolding show_index
show_index-InView index count n current h k l m = (ground arith, ground arith)

show_focused-InView :
    (index : Option ℕ) (count n current : ℕ)
    → IsBelow n index
    → (0 < n → 0 < count)
    → count ≤ n
    → current ≤ n - count
    → InView (show_focused index count (n - count) current) count index
      × (show_focused index count (n - count) current ≤ n - count)
unfolding show_focused
show_focused-InView none count n current h k l m = (tt, m)
show_focused-InView (some index) count n current h k l m =
    let positive : 0 < count = k (omega arith) in
    let nonzero : eqb count 0 ≡ false = ground arith in
    rw nonzero (show_index-InView index count n current h positive l m)

clamped-InView :
    (index : Option ℕ) (manual : Bool) (offset count n : ℕ)
    → IsBelow n index
    → count ≤ n
    → (manual ≡ false → InView offset count index)
    → (if eqb (n - count) 0 then false else manual) ≡ false
    → InView (min offset (n - count)) count index
clamped-InView none manual offset count n h k v e = tt
clamped-InView (some index) manual offset count n h k v e = elim (Bool-cases (eqb (n - count) 0)) [
  | inl f ↦ ground arith
  | inr f ↦ let w = v (ground arith) in ground arith
]

pub same_number_iff : (known : Option ℕ) (n : ℕ) → same_number known n ≡ true → known ≡ some n
same_number_iff none n h = absurd (ground arith)
same_number_iff (some m) n h = let e : m ≡ n = ground arith in ap some e

pub same_id_iff : (id other : Option String) → same_id id other ≡ true → id ≡ other
same_id_iff none none h = refl
same_id_iff none (some other) h = absurd (ground arith)
same_id_iff (some id) none h = absurd (ground arith)
same_id_iff (some id) (some other) h = ap some ((eq_iff id other).0 h)

pub same_ids_iff : (ids others : List String) → same_ids ids others ≡ true → ids ≡ others
same_ids_iff [] [] h = refl
same_ids_iff [] (other ∷ others) h = absurd (ground arith)
same_ids_iff (id ∷ ids) [] h = absurd (ground arith)
same_ids_iff (id ∷ ids) (other ∷ others) h =
    let first : id ≡ other = (eq_iff id other).0 (ground arith) in
    let rest : ids ≡ others = same_ids_iff ids others (ground arith) in rw (first, rest) refl

-- Before the effects: what has not changed since they ran is still right.
pub record IsReady (s : Carousel) : Type 0 where
  pub bounded : same_number s.previous_max_offset (max_offset s) ≡ true → s.offset ≤ max_offset s
  pub shown :
      focus_or_panes_changed s ≡ false
      → capacity_changed s ≡ false
      → s.manual_navigation ≡ false
      → InView s.offset (visible_count s) (focused_index s)

pub record IsClamped (s : Carousel) : Type 0 where
  pub bounded : s.offset ≤ max_offset s
  pub max_known : s.previous_max_offset ≡ some (max_offset s)
  pub shown :
      focus_or_panes_changed s ≡ false
      → capacity_changed s ≡ false
      → s.manual_navigation ≡ false
      → InView s.offset (visible_count s) (focused_index s)

-- After the effects: the offset is within its bounds, and the focused pane, if it is displayed, is
-- one of the visible ones, unless the user has moved on with a button.
pub record IsSettled (s : Carousel) : Type 0 where
  pub bounded : s.offset ≤ max_offset s
  pub filled :
      (visible_count s ≤ length s.displayed) × (0 < length s.displayed → 0 < visible_count s)
  pub max_known : s.previous_max_offset ≡ some (max_offset s)
  pub focus_known : s.previous_focused_id ≡ some s.focused_id
  pub key_known : s.previous_pane_key ≡ some s.displayed
  pub count_known : s.previous_visible_count ≡ some (visible_count s)
  pub shown : s.manual_navigation ≡ false → InView s.offset (visible_count s) (focused_index s)

pub either :
    (P : Carousel → Type 0) (test : Bool) (s t : Carousel)
    → (test ≡ true → P s)
    → (test ≡ false → P t)
    → P (if test then s else t)
either P true s t v w = v refl
either P false s t v w = w refl

count_bounds :
    (s : Carousel)
    → (visible_count s ≤ length s.displayed) × (0 < length s.displayed → 0 < visible_count s)
unfolding visible_count
count_bounds s = visible_pane_count_bounds s.viewport_width (length s.displayed)

pub clamp_offset-IsClamped : (s : Carousel) → IsReady s → IsClamped (clamp_offset s)
unfolding clamp_offset visible_count
clamp_offset-IsClamped s v =
    let clamped : Carousel = record s {
      previous_max_offset = some (max_offset s);
      manual_navigation = if eqb (max_offset s) 0 then false else s.manual_navigation;
      offset = min s.offset (max_offset s);
    } in
    either IsClamped (same_number s.previous_max_offset (max_offset s)) s clamped
      (λ e. record {
        bounded = v.bounded e;
        max_known = same_number_iff s.previous_max_offset (max_offset s) e;
        shown = v.shown;
      })
      (λ e. record {
        bounded = ground arith;
        max_known = refl;
        shown = λ f g h.
            clamped-InView (focused_index s) s.manual_navigation s.offset (visible_count s)
              (length s.displayed) (index_of-IsBelow s.displayed s.focused_id) (count_bounds s).0
              (λ m. v.shown f g m) h;
      })

pub follow_focus-IsSettled : (s : Carousel) → IsClamped s → IsSettled (follow_focus s)
unfolding follow_focus visible_count
follow_focus-IsSettled s v =
    let count = visible_count s in
    let n = length s.displayed in
    let offset = show_focused (focused_index s) count (max_offset s) s.offset in
    let moved : Carousel = record (remember s) {
      manual_navigation = if focus_or_panes_changed s then false else s.manual_navigation;
      offset = offset;
    } in
    let view =
      show_focused-InView (focused_index s) count n s.offset
        (index_of-IsBelow s.displayed s.focused_id) (count_bounds s).1 (count_bounds s).0
        v.bounded in
    either IsSettled
      (not (focus_or_panes_changed s) && (not (capacity_changed s) || s.manual_navigation))
      (remember s) moved
      (λ e. record {
        bounded = v.bounded;
        filled = count_bounds s;
        max_known = v.max_known;
        focus_known = refl;
        key_known = refl;
        count_known = refl;
        shown = λ m. v.shown (ground arith) (ground arith) m;
      })
      (λ e. record {
        bounded = view.1;
        filled = count_bounds s;
        max_known = v.max_known;
        focus_known = refl;
        key_known = refl;
        count_known = refl;
        shown = λ m. view.0;
      })
