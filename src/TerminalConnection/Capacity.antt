-- ===== src/TerminalConnection/Capacity.antt =====
-- `reportCapacity`, `sendResize` and `releaseCapacity`: what the server is told about the room for
-- the terminal. A size is the pair of its columns and rows, where the code keeps it as a string,
-- and no size the empty string. The messages sent stand the latest first.
pub mod Claims
use euphony.Prelude.{
  ℕ, ◌≡◌, refl, sym, ◌∙◌, ap, Bool, true, false, not, Option, some, none, List, [], ◌∷◌, eqb, ◌&&◌,
  ◌||◌, if◌then◌else◌, arith, Bool-cases, inl, inr,
}

pub data Request : Type 0 where
  resize : ℕ → ℕ → Request
  resize_release : Request

pub record Capacity : Type 0 where
  pub socket_open : Bool
  pub claim_active : Bool
  pub last_size : Option (ℕ × ℕ)
  pub sent : List Request

abbrev pub create : Capacity
create = record { socket_open = false; claim_active = false; last_size = none; sent = [] }

abbrev pub same_size : ℕ → ℕ → Option (ℕ × ℕ) → Bool
same_size cols rows none = false
same_size cols rows (some size) = eqb cols size.0 && eqb rows size.1

-- What a report reads from the page.
pub record Report : Type 0 where
  pub aria_hidden : Bool
  pub source_visible : Bool
  pub element_visible : Bool
  pub dimensions : Option (ℕ × ℕ)

unfoldable pub release_capacity : Capacity → Capacity
release_capacity c =
    if c.claim_active && c.socket_open
    then record c { claim_active = false; last_size = none; sent = resize_release ∷ c.sent }
    else c

unfoldable pub send_resize : ℕ → ℕ → Capacity → Capacity
send_resize cols rows c =
    if eqb cols 0 || eqb rows 0
    then c
    else if same_size cols rows c.last_size
    then c
    else if c.socket_open
    then record c {
      last_size = some (cols, rows);
      claim_active = true;
      sent = resize cols rows ∷ c.sent;
    }
    else c

abbrev pub send_dimensions : Option (ℕ × ℕ) → Capacity → Capacity
send_dimensions none c = c
send_dimensions (some size) c =
    if eqb size.0 0 || eqb size.1 0 then c else send_resize size.0 size.1 c

unfoldable pub report_capacity : Report → Capacity → Capacity
unfolding release_capacity send_resize
report_capacity r c =
    if r.aria_hidden
    then release_capacity c
    else if not r.source_visible
    then c
    else if not r.element_visible
    then release_capacity c
    else send_dimensions r.dimensions c

pub data Event : Type 0 where
  opened reported : Report → Event
  closed : Event

unfoldable pub step : Event → Capacity → Capacity
unfolding report_capacity
step (opened r) c = report_capacity r (record c { socket_open = true })
step closed c = record c { socket_open = false }
step (reported r) c = report_capacity r c

unfoldable pub run : List Event → Capacity → Capacity
unfolding step
run [] c = c
run (e ∷ es) c = run es (step e c)
