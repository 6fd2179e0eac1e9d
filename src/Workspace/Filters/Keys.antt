-- ===== src/Workspace/Filters/Keys.antt =====
-- The encoding of a cwd filter as one text, and what a match of a filter depends on.
use Prim.Native.String
use Prim.Native.Char.{Char, code}
use text.Mathlib.TextLemmas.{nil-append, cons-append}
use text.Mathlib.Text.{starts_with}
use text.Mathlib.TextEquality.{Char-path, starts_with_iff}
use text.Mathlib.TextPositions.{starts_with-append}
use euphony.Prelude.{
  Bool-cases, ◌≡◌, ◌≢◌, true, some, String, eqb, arith, eq_iff, ap, Option-cases, inl, inr, ◌∙◌,
  sym, refl, ◌==◌,
}
use euphony.Workspace.Filters.{
  CwdSelectionFilter, separator, cwd_filter_key, split_separator, parse_cwd_filter,
  cwd_filter_belongs_to_status,
}

-- No character of the text is the separator.
abbrev pub NoSeparator : String → Type 0
NoSeparator String.[] = Unit {0}
NoSeparator (String.◌∷◌ c s) = (code c ≢ 0) × NoSeparator s

split_separator-key :
    (status cwd : String)
    → NoSeparator status
    → split_separator (cwd_filter_key status cwd) ≡ some (status, cwd)
unfolding split_separator cwd_filter_key
split_separator-key String.[] cwd n = rw nil-append
split_separator-key (String.◌∷◌ c s) cwd (n, ns) =
    rw cons-append (ground (arith, split_separator-key s cwd ns))

-- A filter is read back as it was written, if its status has no separator and neither part is
-- empty.
pub parse_cwd_filter-cwd_filter_key :
    (status cwd : String)
    → NoSeparator status
    → status ≢ ""
    → cwd ≢ ""
    → parse_cwd_filter (cwd_filter_key status cwd) ≡ some (record { status = status; cwd = cwd })
unfolding parse_cwd_filter
parse_cwd_filter-cwd_filter_key status cwd n s c =
    rw (split_separator-key status cwd n, parse_cwd_filter)
      (ground (arith, eq_iff status "", eq_iff cwd ""))

eq_separator : (c : Char) → eqb (code c) 0 ≡ true → separator ≡ c
eq_separator c h = Char-path separator c (ground arith)

split_separator_sound :
    (key : String) (parts : String × String)
    → split_separator key ≡ some parts
    → (cwd_filter_key parts.0 parts.1 ≡ key) × NoSeparator parts.0
unfolding split_separator cwd_filter_key
split_separator_sound String.[] parts h = cc
split_separator_sound (String.◌∷◌ c s) parts h = elim (Bool-cases (eqb (code c) 0)) [
  | inl e ↦
      let here : String × String = (String.[], s) in
      let found : some here ≡ some parts = rw (e, split_separator) at h in
      let same : here ≡ parts = cc in
      rw (← same) (rw nil-append (ap (λ d. String.◌∷◌ d s) (eq_separator c e)), tt)
  | inr e ↦ elim (Option-cases (split_separator s)) [
    | inl missing ↦ absurd (ground (arith, missing))
    | inr (rest, later) ↦
        let here : String × String = (String.◌∷◌ c rest.0, rest.1) in
        let found : some here ≡ some parts = ground (arith, later) in
        let same : here ≡ parts = cc in
        let (whole, free) = split_separator_sound s rest later in
        rw (← same) (rw cons-append (ap (String.◌∷◌ c) whole), (ground arith, free))
  ]
]

-- What is read from a text is written back as that text, and its parts are as the writer needs
-- them.
pub parse_cwd_filter_sound :
    (key : String) (filter : CwdSelectionFilter)
    → parse_cwd_filter key ≡ some filter
    → (cwd_filter_key filter.status filter.cwd ≡ key)
      × NoSeparator filter.status
      × (filter.status ≢ "")
      × (filter.cwd ≢ "")
unfolding parse_cwd_filter
parse_cwd_filter_sound key filter h = elim (Option-cases (split_separator key)) [
  | inl missing ↦ absurd (ground (arith, missing))
  | inr (parts, e) ↦
      let (whole, free) = split_separator_sound key parts e in
      ground (arith, e, eq_iff parts.0 "", eq_iff parts.1 "")
]

-- The keys of statuses without separators differ where the statuses or the directories do.
pub cwd_filter_key_injective :
    (status other cwd dir : String)
    → NoSeparator status
    → NoSeparator other
    → cwd_filter_key status cwd ≡ cwd_filter_key other dir
    → (status ≡ other) × (cwd ≡ dir)
cwd_filter_key_injective status other cwd dir n m e =
    let here : String × String = (status, cwd) in
    let there : String × String = (other, dir) in
    let same : some here ≡ some there =
      sym (split_separator-key status cwd n)
      ∙ ap split_separator e
      ∙ split_separator-key other dir m in
    let parts : here ≡ there = cc in (ap (λ p. p.0) parts, ap (λ p. p.1) parts)

key_of_prefix :
    (status rest : String)
    → String.◌++◌ (String.◌++◌ status (String.◌∷◌ separator String.[])) rest
      ≡ cwd_filter_key status rest
unfolding cwd_filter_key
key_of_prefix String.[] rest = rw (nil-append, nil-append, cons-append, nil-append) refl
key_of_prefix (String.◌∷◌ c s) rest =
    rw (cons-append, cons-append, cons-append) (ap (String.◌∷◌ c) (key_of_prefix s rest))

-- A cwd filter belongs to the status that it was made from, and to no other.
pub cwd_filter_belongs_to_status-cwd_filter_key :
    (status other cwd : String)
    → NoSeparator status
    → NoSeparator other
    → cwd_filter_belongs_to_status (cwd_filter_key other cwd) status ≡ (other == status)
unfolding cwd_filter_belongs_to_status
cwd_filter_belongs_to_status-cwd_filter_key status other cwd n m =
    let prefix = String.◌++◌ status (String.◌∷◌ separator String.[]) in
    let key = cwd_filter_key other cwd in
    let same : other ≡ status → starts_with key prefix ≡ true = λ e.
      let whole : String.◌++◌ prefix cwd ≡ key =
        key_of_prefix status cwd ∙ ap (λ t. cwd_filter_key t cwd) (sym e) in
      rw (← whole) (starts_with-append prefix cwd) in
    let belongs : starts_with key prefix ≡ true → other ≡ status = λ h.
      let (rest, e) = (starts_with_iff key prefix).0 h in
      sym
        (cwd_filter_key_injective status other rest cwd n m
          (sym (key_of_prefix status rest) ∙ e)).0 in
    ground (arith, same, belongs, eq_iff other status)
