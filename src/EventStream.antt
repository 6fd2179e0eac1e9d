-- ===== src/EventStream.antt =====
-- web/src/api.ts, `subscribeEvents`: the loop that cuts the event response into lines. A text is the
-- list of its code units. The chunks are what `TextDecoder` returns for each read, the last one for
-- the read that says `done`. `parse` is `JSON.parse`, which throws on malformed text.
pub mod Chunks
pub mod Sending
mod Tests
use euphony.Prelude.{
  ℕ, Bool, true, false, Option, some, none, List, [], ◌∷◌, ◌++◌, all, any, eqb, leb, ◌&&◌, ◌||◌,
  if◌then◌else◌,
}

abbrev pub Text : Type 0
Text = List ℕ

-- The characters that `trim` takes away.
abbrev pub is_space : ℕ → Bool
is_space c =
    (leb 9 c && leb c 13)
    || (eqb c 32
        || (eqb c 160
            || (eqb c 5760
                || ((leb 8192 c && leb c 8202)
                    || (eqb c 8232
                        || (eqb c 8233
                            || (eqb c 8239 || (eqb c 8287 || (eqb c 12288 || eqb c 65279)))))))))

-- `!line.trim()`.
abbrev pub is_blank : Text → Bool
is_blank text = all is_space text

abbrev pub newline : ℕ
newline = 10

-- A character in front of a text that is split already.
unfoldable pub split_cons : ℕ → List Text × Text → List Text × Text
split_cons c ([], last) = ([], c ∷ last)
split_cons c (line ∷ lines, last) = ((c ∷ line) ∷ lines, last)

-- `text.split("\n")`, with what `pop` takes off the end.
unfoldable pub split_lines : Text → List Text × Text
unfolding split_cons
split_lines [] = ([], [])
split_lines (c ∷ text) =
    let rest = split_lines text in
    if eqb c newline then ([] ∷ rest.0, rest.1) else split_cons c rest

-- The events that were passed to `onEvent`, and whether the subscription has thrown.
pub record Delivered (E : Type 0) : Type 0 where
  pub events : List E
  pub failed : Bool

module _ {E : Type 0} (parse : Text → Option E) where
  -- One line of the loop; nothing is done after an exception.
  unfoldable pub deliver : Text → Delivered E → Delivered E
  deliver line d = if d.failed || is_blank line then d else elim (parse line) [
    | none ↦ record d { failed = true }
    | some event ↦ record d { events = d.events ++ event ∷ [] }
  ]

  unfoldable pub deliver_all : List Text → Delivered E → Delivered E
  unfolding deliver
  deliver_all [] d = d
  deliver_all (line ∷ lines) d = deliver_all lines (deliver line d)

  -- The read that says `done`: the last line needs no newline.
  unfoldable pub read_last : Text → Delivered E → Delivered E
  unfolding deliver deliver_all split_lines
  read_last pending d = let lines = split_lines pending in deliver lines.1 (deliver_all lines.0 d)

  unfoldable pub read_chunks : List Text → Text → Text → Delivered E → Delivered E
  unfolding read_last deliver_all split_lines
  read_chunks [] last pending d = read_last (pending ++ last) d
  read_chunks (chunk ∷ chunks) last pending d =
      let lines = split_lines (pending ++ chunk) in
      let delivered = deliver_all lines.0 d in
      let rest = read_chunks chunks last lines.1 delivered in
      if delivered.failed then delivered else rest

  unfoldable pub subscribe_events : List Text → Text → Delivered E
  unfolding read_chunks
  subscribe_events chunks last = read_chunks chunks last [] (record { events = []; failed = false })
