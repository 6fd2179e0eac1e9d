-- ===== src/TerminalOutput/Delivery.antt =====
-- What a flush does with the pending chunks.
pub mod Steps
use euphony.Prelude.{
  ℕ, zero, suc, ◌+◌, ◌≡◌, refl, sym, ◌∙◌, ap, Bool, true, false, Option, some, none, List, [], ◌∷◌,
  ◌++◌, length, take, drop, ltb, eqb, if◌then◌else◌, arith, Bool-cases, inl, inr, length-append,
  append_assoc, append-nil, take_left, drop_left,
}
use euphony.TerminalOutput.{
  Batcher, create, zeros, set_at, copy_chunks, cancel_flush_timer, write_out, flush, note_input,
  write, dispose, Event, typed, flushes, flush_timeout, interactive_timeout, disposes, receives,
  step, run,
}

abbrev pub joined : List (List ℕ) → List ℕ
joined [] = []
joined (xs ∷ xss) = xs ++ joined xss

pub joined-append : (xss yss : List (List ℕ)) → joined (xss ++ yss) ≡ joined xss ++ joined yss
joined-append [] yss = refl
joined-append (xs ∷ xss) yss =
    ap (◌++◌ xs) (joined-append xss yss) ∙ sym (append_assoc xs (joined xss) (joined yss))

pub joined-snoc : (xss : List (List ℕ)) (xs : List ℕ) → joined (xss ++ xs ∷ []) ≡ joined xss ++ xs
joined-snoc xss xs = joined-append xss (xs ∷ []) ∙ ap (◌++◌ (joined xss)) (append-nil xs)

length-zeros : (n : ℕ) → length (zeros n) ≡ n
length-zeros zero = refl
length-zeros (suc n) = ap suc (length-zeros n)

zeros-add : (m n : ℕ) → zeros (m + n) ≡ zeros m ++ zeros n
zeros-add zero n = ap zeros (omega arith)
zeros-add (suc m) n =
    let shifted : suc m + n ≡ suc (m + n) = omega arith in
    ap zeros shifted ∙ ap (◌∷◌ 0) (zeros-add m n)

drop_both : (xs ys zs : List ℕ) → drop (length xs + length ys) (xs ++ (ys ++ zs)) ≡ zs
drop_both xs ys zs =
    rw (sym (length-append xs ys), sym (append_assoc xs ys zs)) (drop_left (xs ++ ys) zs)

-- What stood between two parts is replaced by a chunk of its length.
set_at_between :
    (done old chunk rest : List ℕ)
    → length old ≡ length chunk
    → set_at (done ++ (old ++ rest)) chunk (length done) ≡ some (done ++ (chunk ++ rest))
unfolding set_at
set_at_between done old chunk rest h = ground (
  arith,
  length-append done (old ++ rest),
  length-append old rest,
  take_left done (old ++ rest),
  sym h,
  drop_both done old rest,
)

copy_step :
    (array chunk copied : List ℕ) (chunks : List (List ℕ)) (offset : ℕ)
    → set_at array chunk offset ≡ some copied
    → copy_chunks (chunk ∷ chunks) offset array ≡ copy_chunks chunks (offset + length chunk) copied
unfolding copy_chunks
copy_step array chunk copied chunks offset h = rw (copy_chunks, h) refl

copy_nothing : (array : List ℕ) (offset : ℕ) → copy_chunks [] offset array ≡ some array
unfolding copy_chunks
copy_nothing array offset = refl

copy_chunks-joined :
    (chunks : List (List ℕ)) (done : List ℕ)
    → copy_chunks chunks (length done) (done ++ zeros (length (joined chunks)))
      ≡ some (done ++ joined chunks)
copy_chunks-joined [] done = rw append-nil (copy_nothing done (length done))
copy_chunks-joined (chunk ∷ chunks) done =
    let rest = zeros (length (joined chunks)) in
    let split = length-append chunk (joined chunks) in
    rw (split, zeros-add (length chunk) (length (joined chunks)))
      (copy_step (done ++ (zeros (length chunk) ++ rest)) chunk (done ++ (chunk ++ rest)) chunks
          (length done)
          (set_at_between done (zeros (length chunk)) chunk rest (length-zeros (length chunk)))
        ∙ rw
            (
              sym (length-append done chunk),
              sym (append_assoc done chunk rest),
              sym (append_assoc done chunk (joined chunks)),
            )
            (copy_chunks-joined chunks (done ++ chunk)))

-- The bytes are counted, a timer is set exactly if bytes are pending, no bytes are pending just
-- after the user typed, and that state has a timer that ends it.
pub record IsSound (b : Batcher) : Type 0 where
  pub counted : b.pending_bytes ≡ length (joined b.pending)
  pub scheduled : b.timer ≡ ltb 0 b.pending_bytes
  pub direct : b.interactive ≡ true → b.pending_bytes ≡ 0
  pub ends : b.interactive ≡ b.interactive_timer

pub record IsFlushed (b c : Batcher) : Type 0 where
  pub emptied : joined c.pending ≡ []
  pub counted_down : c.pending_bytes ≡ 0
  pub unscheduled : c.timer ≡ false
  pub delivered : joined c.written ≡ joined b.written ++ joined b.pending
  pub interactive_kept : c.interactive ≡ b.interactive
  pub timer_kept : c.interactive_timer ≡ b.interactive_timer

pub length_zero : (xs : List ℕ) → length xs ≡ 0 → xs ≡ []
length_zero [] h = refl
length_zero (x ∷ xs) h = ground arith

-- What a flush does when no bytes are pending, and when some are.
flush_empty : (b : Batcher) → b.pending_bytes ≡ 0 → flush b ≡ cancel_flush_timer b
unfolding flush
flush_empty b h = rw (flush, h) refl

flush_copied :
    (b : Batcher) (array : List ℕ)
    → eqb b.pending_bytes 0 ≡ false
    → copy_chunks b.pending 0 (zeros b.pending_bytes) ≡ some array
    → flush b ≡ write_out array (record (cancel_flush_timer b) { pending = []; pending_bytes = 0 })
unfolding flush
flush_copied b array h copied = rw (flush, h, copied) refl

pub flush-IsFlushed :
    (b : Batcher) → b.pending_bytes ≡ length (joined b.pending) → IsFlushed b (flush b)
unfolding cancel_flush_timer write_out
flush-IsFlushed b h = elim (Bool-cases (eqb b.pending_bytes 0)) [
  | inl e ↦
      let none_pending = length_zero (joined b.pending) (ground arith) in
      rw (flush_empty b (ground arith)) (record {
        emptied = none_pending;
        counted_down = ground arith;
        unscheduled = refl;
        delivered = rw none_pending (sym (append-nil (joined b.written)));
        interactive_kept = refl;
        timer_kept = refl;
      })
  | inr e ↦
      rw (flush_copied b (joined b.pending) e (rw h (copy_chunks-joined b.pending []))) (record {
        emptied = refl;
        counted_down = refl;
        unscheduled = refl;
        delivered = joined-snoc b.written (joined b.pending);
        interactive_kept = refl;
        timer_kept = refl;
      })
]
