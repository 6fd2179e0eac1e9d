-- ===== src/TerminalOutput/Delivery/Steps.antt =====
-- The bytes that the terminal gets, over any sequence of events.
use euphony.Prelude.{
  ℕ, ◌+◌, ◌≡◌, refl, sym, ◌∙◌, ap, Bool, true, false, List, [], ◌∷◌, ◌++◌, length, if◌then◌else◌,
  arith, length-append, append_assoc, append-nil,
}
use euphony.TerminalOutput.{
  Batcher, create, cancel_flush_timer, write_out, flush, note_input, write, dispose, Event, typed,
  flushes, flush_timeout, interactive_timeout, disposes, receives, step, run,
}
use euphony.TerminalOutput.Delivery.{joined, joined-snoc, IsSound, flush-IsFlushed, length_zero}

abbrev pub received : List Event → List ℕ
received [] = []
received (receives bytes ∷ es) = bytes ++ received es
received (typed ∷ es) = received es
received (flushes ∷ es) = received es
received (flush_timeout ∷ es) = received es
received (interactive_timeout ∷ es) = received es
received (disposes ∷ es) = received es

-- What was given to the terminal, then what is pending.
abbrev pub all_bytes : Batcher → List ℕ
all_bytes b = joined b.written ++ joined b.pending

pub record IsDelivered (before bytes : List ℕ) (c : Batcher) : Type 0 where
  pub sound : IsSound c
  pub delivered : all_bytes c ≡ before ++ bytes

pub flush-IsDelivered :
    (b : Batcher)
    → b.pending_bytes ≡ length (joined b.pending)
    → b.interactive ≡ b.interactive_timer
    → IsDelivered (all_bytes b) [] (flush b)
flush-IsDelivered b counted ends =
    let flushed = flush-IsFlushed b counted in
    record {
      sound = ground (arith, flushed);
      delivered = rw (flushed.emptied, flushed.delivered) refl;
    }

pub note_input-IsDelivered : (b : Batcher) → IsSound b → IsDelivered (all_bytes b) [] (note_input b)
unfolding note_input
note_input-IsDelivered b v =
    flush-IsDelivered (record b { interactive = true; interactive_timer = true }) v.counted refl

dispose-IsDelivered : (b : Batcher) → IsSound b → IsDelivered (all_bytes b) [] (dispose b)
unfolding dispose cancel_flush_timer
dispose-IsDelivered b v =
    flush-IsDelivered (record b { timer = false; interactive = false; interactive_timer = false })
      v.counted refl

write_out-IsDelivered :
    (b : Batcher) (bytes : List ℕ)
    → IsSound b
    → IsDelivered (all_bytes b) bytes (write_out bytes (flush b))
unfolding write_out
write_out-IsDelivered b bytes v =
    let flushed = flush-IsFlushed b v.counted in
    record {
      sound = ground (arith, flushed, v);
      delivered =
          rw (joined-snoc (flush b).written bytes, flushed.emptied, flushed.delivered)
            (append-nil (all_bytes b ++ bytes));
    }

hold-IsDelivered :
    (b : Batcher) (byte : ℕ) (bytes : List ℕ)
    → IsSound b
    → b.interactive ≡ false
    → IsDelivered (all_bytes b) (byte ∷ bytes) (record b {
      pending = b.pending ++ (byte ∷ bytes) ∷ [];
      pending_bytes = b.pending_bytes + length (byte ∷ bytes);
      timer = true;
    })
hold-IsDelivered b byte bytes v e = record {
  sound = record {
    counted =
        rw
          (
            joined-snoc b.pending (byte ∷ bytes),
            length-append (joined b.pending) (byte ∷ bytes),
            sym v.counted,
          )
          refl;
    scheduled = ground arith;
    direct = λ typing. cc;
    ends = v.ends;
  };
  delivered =
      rw (joined-snoc b.pending (byte ∷ bytes))
        (sym (append_assoc (joined b.written) (joined b.pending) (byte ∷ bytes)));
}

either-IsDelivered :
    (test : Bool) {before bytes : List ℕ} {c d : Batcher}
    → (test ≡ true → IsDelivered before bytes c)
    → (test ≡ false → IsDelivered before bytes d)
    → IsDelivered before bytes (if test then c else d)
either-IsDelivered true v w = v refl
either-IsDelivered false v w = w refl

pub write-IsDelivered :
    (b : Batcher) (bytes : List ℕ) → IsSound b → IsDelivered (all_bytes b) bytes (write bytes b)
unfolding write
write-IsDelivered b [] v = record { sound = v; delivered = sym (append-nil (all_bytes b)) }
write-IsDelivered b (byte ∷ bytes) v =
    either-IsDelivered b.interactive (λ e. write_out-IsDelivered b (byte ∷ bytes) v)
      (λ e. hold-IsDelivered b byte bytes v e)

nothing-IsDelivered : (b : Batcher) → IsSound b → IsDelivered (all_bytes b) [] b
nothing-IsDelivered b v = record { sound = v; delivered = sym (append-nil (all_bytes b)) }

interactive_timeout-IsDelivered :
    (b : Batcher)
    → IsSound b
    → IsDelivered (all_bytes b) [] (record b { interactive = false; interactive_timer = false })
interactive_timeout-IsDelivered b v = record {
  sound = ground arith;
  delivered = sym (append-nil (all_bytes b));
}

pub step-IsDelivered :
    (e : Event) (b : Batcher) → IsSound b → IsDelivered (all_bytes b) (received (e ∷ [])) (step e b)
unfolding step
step-IsDelivered typed b v = note_input-IsDelivered b v
step-IsDelivered flushes b v = flush-IsDelivered b v.counted v.ends
step-IsDelivered flush_timeout b v =
    either-IsDelivered b.timer (λ e. flush-IsDelivered b v.counted v.ends)
      (λ e. nothing-IsDelivered b v)
step-IsDelivered interactive_timeout b v =
    either-IsDelivered b.interactive_timer (λ e. interactive_timeout-IsDelivered b v)
      (λ e. nothing-IsDelivered b v)
step-IsDelivered disposes b v = dispose-IsDelivered b v
step-IsDelivered (receives bytes) b v = rw (append-nil bytes) (write-IsDelivered b bytes v)

received-cons : (e : Event) (es : List Event) → received (e ∷ es) ≡ received (e ∷ []) ++ received es
received-cons typed es = refl
received-cons flushes es = refl
received-cons flush_timeout es = refl
received-cons interactive_timeout es = refl
received-cons disposes es = refl
received-cons (receives bytes) es = rw (append-nil bytes) refl

run-IsDelivered :
    (es : List Event) (b : Batcher) → IsSound b → IsDelivered (all_bytes b) (received es) (run es b)
unfolding run
run-IsDelivered [] b v = nothing-IsDelivered b v
run-IsDelivered (e ∷ es) b v =
    let first = step-IsDelivered e b v in
    let rest = run-IsDelivered es (step e b) first.sound in
    record {
      sound = rest.sound;
      delivered =
          rest.delivered
          ∙ ap (λ bytes. bytes ++ received es) first.delivered
          ∙ append_assoc (all_bytes b) (received (e ∷ [])) (received es)
          ∙ sym (ap (◌++◌ (all_bytes b)) (received-cons e es));
    }

create-IsSound : IsSound create
create-IsSound = ground arith

-- From a new batcher, whatever arrives and whichever timers fire: the pending bytes are counted, a
-- timer is set exactly while bytes are pending, and no bytes are held back just after the user
-- typed.
pub run-IsSound : (es : List Event) → IsSound (run es create)
run-IsSound es = (run-IsDelivered es create create-IsSound).sound

run-received : (es : List Event) → all_bytes (run es create) ≡ received es
run-received es = (run-IsDelivered es create create-IsSound).delivered

dispose_written :
    (b : Batcher)
    → b.pending_bytes ≡ length (joined b.pending)
    → joined (dispose b).written ≡ all_bytes b
unfolding dispose cancel_flush_timer
dispose_written b counted =
    (flush-IsFlushed (record b { timer = false; interactive = false; interactive_timer = false })
      counted).delivered

-- Once the batcher is disposed of, the terminal has got exactly the bytes that were received, in
-- their order.
pub dispose_delivers : (es : List Event) → joined (dispose (run es create)).written ≡ received es
dispose_delivers es = dispose_written (run es create) (run-IsSound es).counted ∙ run-received es

-- While no timer is set nothing is pending.
idle_written : (b : Batcher) → IsSound b → b.timer ≡ false → joined b.written ≡ all_bytes b
idle_written b v e =
    rw (length_zero (joined b.pending) (ground arith)) (sym (append-nil (joined b.written)))

either_written :
    (test : Bool) (bytes : List ℕ) (c d : Batcher)
    → joined c.written ≡ bytes
    → (test ≡ false → joined d.written ≡ bytes)
    → joined (if test then c else d).written ≡ bytes
either_written true bytes c d h k = h
either_written false bytes c d h k = k refl

pub timeout_written :
    (b : Batcher) → IsSound b → joined (step flush_timeout b).written ≡ all_bytes b
unfolding step
timeout_written b v =
    either_written b.timer (all_bytes b) (flush b) b (flush-IsFlushed b v.counted).delivered
      (idle_written b v)

-- When the flush timer's time is over, the terminal has got exactly the bytes that were received
-- until then, in their order: none is held back for good.
pub timeout_delivers :
    (es : List Event) → joined (step flush_timeout (run es create)).written ≡ received es
timeout_delivers es = timeout_written (run es create) (run-IsSound es) ∙ run-received es
