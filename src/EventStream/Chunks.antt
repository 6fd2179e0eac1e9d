-- ===== src/EventStream/Chunks.antt =====
-- The cut of the response into chunks, and the events.
use euphony.Prelude.{
  ℕ, Bool, true, false, Option, List, [], ◌∷◌, ◌++◌, eqb, if◌then◌else◌, ◌≡◌, refl, sym, ap, ◌∙◌,
  Bool-cases, inl, inr, append_assoc, arith,
}
use euphony.EventStream.{
  Text, newline, split_cons, split_lines, Delivered, deliver, deliver_all, read_last, read_chunks,
  subscribe_events,
}

abbrev pub joined : List Text → Text
joined [] = []
joined (text ∷ texts) = text ++ joined texts

-- A text behind one that is split already continues its last line.
extend : List Text × Text → Text → List Text × Text
unfolding split_lines
extend (lines, last) b = (lines ++ (split_lines (last ++ b)).0, (split_lines (last ++ b)).1)

split_cons-extend :
    (c : ℕ) (b : Text) (split : List Text × Text)
    → eqb c newline ≡ false
    → split_cons c (extend split b) ≡ extend (split_cons c split) b
unfolding split_cons extend split_lines
split_cons-extend c b ([], last) h = rw h
split_cons-extend c b (line ∷ lines, last) h = refl

split_lines-append : (a b : Text) → split_lines (a ++ b) ≡ extend (split_lines a) b
unfolding split_lines extend
split_lines-append [] b = refl
split_lines-append (c ∷ a) b = elim (Bool-cases (eqb c newline)) [
  | inl e ↦ rw (e, split_lines-append a b) refl
  | inr e ↦ rw (e, split_lines-append a b) (split_cons-extend c b (split_lines a) e)
]

module _ {E : Type 0} (parse : Text → Option E) where
  deliver-failed : (line : Text) (d : Delivered E) → d.failed ≡ true → deliver parse line d ≡ d
  unfolding deliver
  deliver-failed line d h = ground arith

  deliver_all-failed :
      (lines : List Text) (d : Delivered E) → d.failed ≡ true → deliver_all parse lines d ≡ d
  unfolding deliver_all
  deliver_all-failed [] d h = refl
  deliver_all-failed (line ∷ lines) d h =
      rw (deliver-failed line d h) (deliver_all-failed lines d h)

  deliver_all-append :
      (xs ys : List Text) (d : Delivered E)
      → deliver_all parse (xs ++ ys) d ≡ deliver_all parse ys (deliver_all parse xs d)
  unfolding deliver_all
  deliver_all-append [] ys d = refl
  deliver_all-append (x ∷ xs) ys d = deliver_all-append xs ys (deliver parse x d)

  -- What is read of a text that is split already.
  read_split : Delivered E → List Text × Text → Delivered E
  read_split d split = deliver parse split.1 (deliver_all parse split.0 d)

  read_last-failed : (text : Text) (d : Delivered E) → d.failed ≡ true → read_last parse text d ≡ d
  unfolding read_last
  read_last-failed text d h =
      ap (deliver parse (split_lines text).1) (deliver_all-failed (split_lines text).0 d h)
      ∙ deliver-failed (split_lines text).1 d h

  -- What is read before is delivered before.
  pub read_last-append :
      (a b : Text) (d : Delivered E)
      → read_last parse (a ++ b) d
        ≡ read_last parse ((split_lines a).1 ++ b) (deliver_all parse (split_lines a).0 d)
  unfolding read_last extend read_split
  read_last-append a b d =
      ap (read_split d) (split_lines-append a b)
      ∙ ap (deliver parse (split_lines ((split_lines a).1 ++ b)).1)
          (deliver_all-append (split_lines a).0 (split_lines ((split_lines a).1 ++ b)).0 d)

  either_read :
      (test : Bool) (c d e : Delivered E)
      → (test ≡ true → c ≡ e)
      → (test ≡ false → d ≡ e)
      → (if test then c else d) ≡ e
  either_read true c d e h k = h refl
  either_read false c d e h k = k refl

  read_chunks-joined :
      (chunks : List Text) (last pending : Text) (d : Delivered E)
      → read_chunks parse chunks last pending d
        ≡ read_last parse (pending ++ (joined chunks ++ last)) d
  unfolding read_chunks
  read_chunks-joined [] last pending d = refl
  read_chunks-joined (chunk ∷ chunks) last pending d =
      let text = pending ++ chunk in
      let rest = joined chunks ++ last in
      let delivered = deliver_all parse (split_lines text).0 d in
      let whole : read_last parse (pending ++ ((chunk ++ joined chunks) ++ last)) d
          ≡ read_last parse ((split_lines text).1 ++ rest) delivered =
        ap (λ t. read_last parse (pending ++ t) d) (append_assoc chunk (joined chunks) last)
        ∙ ap (λ t. read_last parse t d) (sym (append_assoc pending chunk rest))
        ∙ read_last-append text rest d in
      either_read delivered.failed delivered
        (read_chunks parse chunks last (split_lines text).1 delivered) _
        (λ failed. sym (whole ∙ read_last-failed ((split_lines text).1 ++ rest) delivered failed))
        (λ going. read_chunks-joined chunks last (split_lines text).1 delivered ∙ sym whole)

  -- However the response is cut into chunks, the events that are delivered, and whether the
  -- subscription fails, are those of the whole text read at once.
  pub subscribe_events-joined :
      (chunks : List Text) (last : Text)
      → subscribe_events parse chunks last ≡ subscribe_events parse [] (joined chunks ++ last)
  unfolding subscribe_events read_chunks
  subscribe_events-joined chunks last =
      read_chunks-joined chunks last [] (record { events = []; failed = false })
