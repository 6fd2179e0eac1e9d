-- ===== src/AgentLog/Refreshing/Pages.antt =====
-- The log against the transcript of which the server sends pages.
use euphony.Prelude.{
  ℕ, zero, suc, ◌+◌, ◌-◌, ◌≤◌, ◌≡◌, sym, ap, ◌∙◌, Option, some, none, List, [], ◌∷◌, ◌++◌, String,
  arith,
}
use euphony.AgentLog.{AgentLogEntry, merge_adjacent_tool_groups}
use euphony.AgentLog.Merging.{merge_adjacent_tool_groups-append}
use euphony.AgentLog.Refreshing.{AgentTranscript, append_news, prepend_older}

-- `n` items of a sequence, from a place on.
abbrev pub items : {A : Type 0} → (ℕ → A) → ℕ → ℕ → List A
items f start zero = []
items f start (suc n) = f start ∷ items f (suc start) n

items-add :
    {A : Type 0} (f : ℕ → A) (start m n : ℕ)
    → items f start m ++ items f (start + m) n ≡ items f start (m + n)
items-add f start zero n =
    let here : start + 0 ≡ start = omega arith in
    let count : n ≡ 0 + n = omega arith in
    ap (λ place. items f place n) here ∙ ap (items f start) count
items-add f start (suc m) n =
    let place : start + suc m ≡ suc start + m = omega arith in
    let count : suc (m + n) ≡ suc m + n = omega arith in
    ap (λ place. f start ∷ (items f (suc start) m ++ items f place n)) place
    ∙ ap (◌∷◌ (f start)) (items-add f (suc start) m n)
    ∙ ap (items f start) count

abbrev pub Each : {A : Type 0} → (A → Type 0) → Option A → Type 0
Each P none = Unit
Each P (some x) = P x

module _ (position : String → ℕ) (transcript : String → ℕ → AgentLogEntry) where
  -- Where a cursor points to in a transcript.
  abbrev pub place_of : Option String → ℕ
  place_of none = 0
  place_of (some cursor) = position cursor

  abbrev pub between : String → ℕ → ℕ → List AgentLogEntry
  between id start end = items (transcript id) start (end - start)

  between-append :
      (id : String) (a b c : ℕ) → a ≤ b → b ≤ c → between id a b ++ between id b c ≡ between id a c
  between-append id a b c h k =
      let middle : a + (b - a) ≡ b = omega arith in
      let count : (b - a) + (c - b) ≡ c - a = omega arith in
      ap (λ place. between id a b ++ items (transcript id) place (c - b)) (sym middle)
      ∙ items-add (transcript id) a (b - a) (c - b)
      ∙ ap (items (transcript id) a) count

  -- The entries are those of the transcript between the cursors, merged; an older page is asked
  -- for with the cursor of the start.
  pub record IsPage (p : AgentTranscript) : Type 0 where
    pub ordered : place_of p.start_cursor ≤ place_of p.end_cursor
    pub covers :
        p.entries
        ≡ merge_adjacent_tool_groups
            (between p.session_id (place_of p.start_cursor) (place_of p.end_cursor))
    pub older : Each (λ cursor. position cursor ≡ place_of p.start_cursor) p.next_cursor

  merged-between :
      (id : String) (xs ys : List AgentLogEntry) (a b c : ℕ)
      → a ≤ b
      → b ≤ c
      → xs ≡ merge_adjacent_tool_groups (between id a b)
      → ys ≡ merge_adjacent_tool_groups (between id b c)
      → merge_adjacent_tool_groups (xs ++ ys) ≡ merge_adjacent_tool_groups (between id a c)
  merged-between id xs ys a b c h k ex ey =
      ap (λ entries. merge_adjacent_tool_groups (entries ++ ys)) ex
      ∙ ap
          (λ entries.
            merge_adjacent_tool_groups (merge_adjacent_tool_groups (between id a b) ++ entries))
          ey
      ∙ merge_adjacent_tool_groups-append (between id a b) (between id b c)
      ∙ ap merge_adjacent_tool_groups (between-append id a b c h k)

  pub append_news-IsPage :
      (current next : AgentTranscript)
      → IsPage current
      → IsPage next
      → current.session_id ≡ next.session_id
      → place_of current.end_cursor ≡ place_of next.start_cursor
      → IsPage (append_news current next)
  unfolding append_news
  append_news-IsPage current next v w same meet =
      let id = current.session_id in
      let a = place_of current.start_cursor in
      let c = place_of next.end_cursor in
      let covers : next.entries
          ≡ merge_adjacent_tool_groups (between id (place_of current.end_cursor) c) =
        w.covers
        ∙ ap (λ id. merge_adjacent_tool_groups (between id (place_of next.start_cursor) c))
            (sym same)
        ∙ ap (λ b. merge_adjacent_tool_groups (between id b c)) (sym meet) in
      record {
        ordered = omega (arith, v.ordered, w.ordered, meet);
        covers =
            merged-between id current.entries next.entries a (place_of current.end_cursor) c
              v.ordered (omega (arith, w.ordered, meet)) v.covers covers;
        older = v.older;
      }

  pub prepend_older-IsPage :
      (older current : AgentTranscript)
      → IsPage older
      → IsPage current
      → older.session_id ≡ current.session_id
      → place_of older.end_cursor ≡ place_of current.start_cursor
      → IsPage (prepend_older older current)
  unfolding prepend_older
  prepend_older-IsPage older current w v same meet =
      let id = current.session_id in
      let a = place_of older.start_cursor in
      let b = place_of older.end_cursor in
      let c = place_of current.end_cursor in
      let covers : older.entries ≡ merge_adjacent_tool_groups (between id a b) =
        w.covers ∙ ap (λ id. merge_adjacent_tool_groups (between id a b)) same in
      record {
        ordered = omega (arith, v.ordered, w.ordered, meet);
        covers =
            merged-between id older.entries current.entries a b c w.ordered
              (omega (arith, v.ordered, meet)) covers
              (v.covers ∙ ap (λ b. merge_adjacent_tool_groups (between id b c)) (sym meet));
        older = w.older;
      }
