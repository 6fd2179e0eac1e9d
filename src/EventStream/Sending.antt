-- ===== src/EventStream/Sending.antt =====
-- A server that writes one event on a line, and the events that the client gets.
use euphony.Prelude.{
  false, Option, some, List, [], ◌∷◌, ◌++◌, eqb, ◌≡◌, refl, sym, ap, ◌∙◌, append_assoc, append-nil,
}
use euphony.EventStream.{
  Text, is_blank, newline, split_cons, split_lines, Delivered, deliver, deliver_all, read_last,
  read_chunks, subscribe_events,
}
use euphony.EventStream.Chunks.{joined, subscribe_events-joined, read_last-append}

-- The text has no newline.
abbrev pub IsLine : Text → Type 0
IsLine [] = Unit
IsLine (c ∷ text) = (eqb c newline ≡ false) × IsLine text

split_lines-line :
    (line : Text) → IsLine line → split_lines (line ++ newline ∷ []) ≡ (line ∷ [], [])
unfolding split_lines split_cons
split_lines-line [] h = refl
split_lines-line (c ∷ line) h = rw (h.0, split_lines-line line h.1) refl

module _ {E : Type 0} (parse : Text → Option E) (print : E → Text) where
  -- What the server sends: each event on its own line.
  abbrev pub stream : List E → Text
  stream [] = []
  stream (e ∷ es) = (print e ++ newline ∷ []) ++ stream es

  module _ (parse-print : (e : E) → parse (print e) ≡ some e)
      (print-IsLine : (e : E) → IsLine (print e))
      (print_visible : (e : E) → is_blank (print e) ≡ false) where
    deliver-print :
        (e : E) (events : List E)
        → deliver parse (print e) (record { events = events; failed = false })
          ≡ record { events = events ++ e ∷ []; failed = false }
    unfolding deliver
    deliver-print e events = rw (print_visible e, parse-print e) refl

    read_last-stream :
        (es events : List E)
        → read_last parse (stream es) (record { events = events; failed = false })
          ≡ record { events = events ++ es; failed = false }
    unfolding read_last deliver_all deliver split_lines
    read_last-stream [] events =
        ap (λ es. record { events = es; failed = false }) (sym (append-nil events))
    read_last-stream (e ∷ es) events =
        let before : Delivered E = record { events = events; failed = false } in
        read_last-append parse (print e ++ newline ∷ []) (stream es) before
        ∙ ap (λ split. read_last parse (split.1 ++ stream es) (deliver_all parse split.0 before))
            (split_lines-line (print e) (print-IsLine e))
        ∙ ap (read_last parse (stream es)) (deliver-print e events)
        ∙ read_last-stream es (events ++ e ∷ [])
        ∙ ap (λ all. record { events = all; failed = false }) (append_assoc events (e ∷ []) es)

    -- If `parse` reads what `print` writes, on one line that is not blank, then the client gets the
    -- events that the server writes, in order and without failing, however the stream is cut.
    pub subscribe_events-stream :
        (es : List E) (chunks : List Text) (last : Text)
        → joined chunks ++ last ≡ stream es
        → subscribe_events parse chunks last ≡ record { events = es; failed = false }
    unfolding subscribe_events read_chunks
    subscribe_events-stream es chunks last h =
        subscribe_events-joined parse chunks last
        ∙ ap (λ text. read_last parse text (record { events = []; failed = false })) h
        ∙ read_last-stream es []
