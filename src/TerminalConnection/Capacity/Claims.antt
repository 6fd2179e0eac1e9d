-- ===== src/TerminalConnection/Capacity/Claims.antt =====
-- What the server knows of the room for a terminal.
use euphony.Prelude.{
  ℕ, ◌≡◌, refl, sym, ◌∙◌, ap, Bool, true, false, not, Option, some, none, List, [], ◌∷◌, eqb, ◌&&◌,
  ◌||◌, if◌then◌else◌, arith, Bool-cases, inl, inr,
}
use euphony.TerminalConnection.Capacity.{
  Request, resize, resize_release, Capacity, create, same_size, Report, release_capacity,
  send_resize, send_dimensions, report_capacity, Event, opened, reported, closed, step, run,
}

-- What the server knows from the messages: the size of the latest claim that is not released.
abbrev pub server_claim : List Request → Option (ℕ × ℕ)
server_claim [] = none
server_claim (resize cols rows ∷ requests) = some (cols, rows)
server_claim (resize_release ∷ requests) = none

-- The claim that a report asks for, given the claim there was.
abbrev pub claim_of : Option (ℕ × ℕ) → Option (ℕ × ℕ) → Option (ℕ × ℕ)
claim_of none claim = claim
claim_of (some size) claim = if eqb size.0 0 || eqb size.1 0 then claim else some size

abbrev pub wanted : Report → Option (ℕ × ℕ) → Option (ℕ × ℕ)
wanted r claim =
    if r.aria_hidden || (r.source_visible && not r.element_visible)
    then none
    else if r.source_visible
    then claim_of r.dimensions claim
    else claim

-- The abstract terminal: whether it is connected, and its claim.
abbrev pub Claim : Type 0
Claim = Bool × Option (ℕ × ℕ)

abbrev pub claim_step : Event → Claim → Claim
claim_step (opened r) claim = (true, wanted r claim.1)
claim_step closed claim = (false, claim.1)
claim_step (reported r) claim = if claim.0 then (true, wanted r claim.1) else claim

abbrev pub claim_run : List Event → Claim → Claim
claim_run [] claim = claim
claim_run (e ∷ es) claim = claim_run es (claim_step e claim)

-- No message repeats what the server knows.
abbrev pub IsTerse : List Request → Type 0
IsTerse [] = Unit
IsTerse (request ∷ requests) =
    ¬ (server_claim (request ∷ requests) ≡ server_claim requests) × IsTerse requests

pub record IsClaimed (claim : Claim) (c : Capacity) : Type 0 where
  pub connected : c.socket_open ≡ claim.0
  pub known : server_claim c.sent ≡ claim.1
  pub remembered : c.last_size ≡ claim.1
  pub idle : c.claim_active ≡ false → claim.1 ≡ none
  pub claiming : c.claim_active ≡ true → ¬ (claim.1 ≡ none)
  pub terse : IsTerse c.sent

same_size_iff :
    (cols rows : ℕ) (claim : Option (ℕ × ℕ))
    → same_size cols rows claim ≡ true
    → claim ≡ some (cols, rows)
same_size_iff cols rows none h = absurd (ground arith)
same_size_iff cols rows (some size) h = ground arith

same_size_refl : (cols rows : ℕ) → same_size cols rows (some (cols, rows)) ≡ true
same_size_refl cols rows = ground arith

either :
    (P : Capacity → Type 0) (test : Bool) (c d : Capacity)
    → (test ≡ true → P c)
    → (test ≡ false → P d)
    → P (if test then c else d)
either P true c d v w = v refl
either P false c d v w = w refl

release_capacity-IsClaimed :
    (claim : Claim) (c : Capacity)
    → IsClaimed claim c
    → c.socket_open ≡ true
    → IsClaimed (true, none) (release_capacity c)
unfolding release_capacity
release_capacity-IsClaimed claim c v h =
    let released : Capacity = record c {
      claim_active = false;
      last_size = none;
      sent = resize_release ∷ c.sent;
    } in
    either (IsClaimed (true, none)) (c.claim_active && c.socket_open) released c
      (λ e. record {
        connected = h;
        known = refl;
        remembered = refl;
        idle = λ k. refl;
        claiming = λ k. absurd (ground arith);
        terse = (λ k. v.claiming (ground arith) (sym v.known ∙ sym k), v.terse);
      })
      (λ e.
        let unclaimed : claim.1 ≡ none = v.idle (ground arith) in
        record {
          connected = h;
          known = v.known ∙ unclaimed;
          remembered = v.remembered ∙ unclaimed;
          idle = λ k. refl;
          claiming = λ k. absurd (ground arith);
          terse = v.terse;
        })

send_resize-IsClaimed :
    (cols rows : ℕ) (claim : Claim) (c : Capacity)
    → IsClaimed claim c
    → c.socket_open ≡ true
    → (eqb cols 0 || eqb rows 0) ≡ false
    → IsClaimed (true, some (cols, rows)) (send_resize cols rows c)
unfolding send_resize
send_resize-IsClaimed cols rows claim c v h nonzero =
    let size : Option (ℕ × ℕ) = some (cols, rows) in
    let P = IsClaimed (true, size) in
    let claimed : Capacity = record c {
      last_size = size;
      claim_active = true;
      sent = resize cols rows ∷ c.sent;
    } in
    let send_open = if c.socket_open then claimed else c in
    either P (eqb cols 0 || eqb rows 0) c (if same_size cols rows c.last_size then c else send_open)
      (λ e. absurd (ground arith))
      (λ e.
        either P (same_size cols rows c.last_size) c send_open
          (λ f.
            let same : claim.1 ≡ size = sym v.remembered ∙ same_size_iff cols rows c.last_size f in
            record {
              connected = h;
              known = v.known ∙ same;
              remembered = v.remembered ∙ same;
              idle = λ k. sym same ∙ v.idle k;
              claiming = λ k l. v.claiming k (same ∙ l);
              terse = v.terse;
            })
          (λ f.
            either P c.socket_open claimed c
              (λ g. record {
                connected = h;
                known = refl;
                remembered = refl;
                idle = λ k. absurd (ground arith);
                claiming = λ k l. ground arith;
                terse = (
                  λ k. ground (
                    arith,
                    same_size_refl cols rows,
                    ap (same_size cols rows) (k ∙ v.known ∙ sym v.remembered),
                  ),
                  v.terse,
                );
              })
              (λ g. absurd (ground arith))))

open_claim :
    (claim : Claim) (c : Capacity)
    → IsClaimed claim c
    → c.socket_open ≡ true
    → IsClaimed (true, claim.1) c
open_claim claim c v h = record {
  connected = h;
  known = v.known;
  remembered = v.remembered;
  idle = v.idle;
  claiming = v.claiming;
  terse = v.terse;
}

-- Nothing is sent while the socket is not open.
send_dimensions-IsClaimed :
    (dimensions : Option (ℕ × ℕ)) (claim : Claim) (c : Capacity)
    → IsClaimed claim c
    → c.socket_open ≡ true
    → IsClaimed (true, claim_of dimensions claim.1) (send_dimensions dimensions c)
send_dimensions-IsClaimed none claim c v h = open_claim claim c v h
send_dimensions-IsClaimed (some size) claim c v h =
    elim (Bool-cases (eqb size.0 0 || eqb size.1 0)) [
      | inl e ↦ rw e (open_claim claim c v h)
      | inr e ↦ rw e (send_resize-IsClaimed size.0 size.1 claim c v h e)
    ]

abbrev report_of : Bool → Bool → Bool → Option (ℕ × ℕ) → Report
report_of aria_hidden source_visible element_visible dimensions = record {
  aria_hidden = aria_hidden;
  source_visible = source_visible;
  element_visible = element_visible;
  dimensions = dimensions;
}

report_of-IsClaimed :
    (hidden visible element : Bool) (dimensions : Option (ℕ × ℕ)) (claim : Claim) (c : Capacity)
    → IsClaimed claim c
    → c.socket_open ≡ true
    → IsClaimed
        (true, wanted (report_of hidden visible element dimensions) claim.1)
        (report_capacity (report_of hidden visible element dimensions) c)
unfolding report_capacity
report_of-IsClaimed true visible element dimensions claim c v h =
    release_capacity-IsClaimed claim c v h
report_of-IsClaimed false false element dimensions claim c v h = open_claim claim c v h
report_of-IsClaimed false true false dimensions claim c v h = release_capacity-IsClaimed claim c v h
report_of-IsClaimed false true true dimensions claim c v h =
    send_dimensions-IsClaimed dimensions claim c v h

report_capacity-IsClaimed :
    (r : Report) (claim : Claim) (c : Capacity)
    → IsClaimed claim c
    → c.socket_open ≡ true
    → IsClaimed (true, wanted r claim.1) (report_capacity r c)
report_capacity-IsClaimed r claim c v h =
    report_of-IsClaimed r.aria_hidden r.source_visible r.element_visible r.dimensions claim c v h

-- Nothing is sent or changed while the socket is not open.
report_of_closed :
    (hidden visible element : Bool) (dimensions : Option (ℕ × ℕ)) (c : Capacity)
    → c.socket_open ≡ false
    → report_capacity (report_of hidden visible element dimensions) c ≡ c
unfolding report_capacity release_capacity send_resize
report_of_closed true visible element dimensions c h = ground arith
report_of_closed false false element dimensions c h = refl
report_of_closed false true false dimensions c h = ground arith
report_of_closed false true true none c h = refl
report_of_closed false true true (some size) c h = ground arith

step-IsClaimed :
    (e : Event) (claim : Claim) (c : Capacity)
    → IsClaimed claim c
    → IsClaimed (claim_step e claim) (step e c)
unfolding step
step-IsClaimed (opened r) claim c v =
    let connected : Capacity = record c { socket_open = true } in
    let w : IsClaimed (true, claim.1) connected = record {
      connected = refl;
      known = v.known;
      remembered = v.remembered;
      idle = v.idle;
      claiming = v.claiming;
      terse = v.terse;
    } in
    report_capacity-IsClaimed r (true, claim.1) connected w refl
step-IsClaimed closed claim c v = record {
  connected = refl;
  known = v.known;
  remembered = v.remembered;
  idle = v.idle;
  claiming = v.claiming;
  terse = v.terse;
}
step-IsClaimed (reported r) (true, known) c v =
    report_capacity-IsClaimed r (true, known) c v v.connected
step-IsClaimed (reported r) (false, known) c v =
    rw
      (report_of_closed r.aria_hidden r.source_visible r.element_visible r.dimensions c v.connected)
      v

run-IsClaimed :
    (es : List Event) (claim : Claim) (c : Capacity)
    → IsClaimed claim c
    → IsClaimed (claim_run es claim) (run es c)
unfolding run
run-IsClaimed [] claim c v = v
run-IsClaimed (e ∷ es) claim c v =
    run-IsClaimed es (claim_step e claim) (step e c) (step-IsClaimed e claim c v)

create-IsClaimed : IsClaimed (false, none) create
create-IsClaimed = ground arith

-- Whatever is reported and whenever the socket opens and closes: the size that the server knows
-- from the messages is the one of the abstract claim, which each report made while the socket is
-- open renews, keeps or gives up; and no message repeats what the server knows.
pub claim_refined : (es : List Event) → IsClaimed (claim_run es (false, none)) (run es create)
claim_refined es = run-IsClaimed es (false, none) create create-IsClaimed
