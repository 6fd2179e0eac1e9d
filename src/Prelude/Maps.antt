-- ===== src/Prelude/Maps.antt =====
-- `Map` and plain objects with string keys, as association lists in insertion order.
use Prim.Native.String.{String}
use mathlib.Core.Path.{◌≡◌, refl}
use mathlib.Core.Option.{Option, none, some}
use mathlib.Core.Bool.{true, false}
use mathlib.Core.List.{List, [], ◌∷◌}
use native.Mathlib.Omega.{arith}
use text.Mathlib.Text.{◌==◌}
use text.Mathlib.TextEquality.{eq_iff}
use euphony.Prelude.Tests.{if◌then◌else◌}

module _ {ℓ} {V : Type ℓ} where
  -- `map.get(key)`; `none` is undefined.
  unfoldable pub map_get : List (String × V) → String → Option V
  map_get [] key = none
  map_get (entry ∷ rest) key = elim (entry.0 == key) [
    | true ↦ some entry.1
    | false ↦ map_get rest key
  ]

  -- `map.set(key, value)`: a key that is present keeps its place, a new one goes to the end.
  unfoldable pub map_set : List (String × V) → String → V → List (String × V)
  map_set [] key value = (key, value) ∷ []
  map_set (entry ∷ rest) key value =
      if entry.0 == key then (entry.0, value) ∷ rest else entry ∷ map_set rest key value

  pub map_get-set :
      (m : List (String × V)) (key other : String) (value : V)
      → map_get (map_set m key value) other
        ≡ (elim (key == other) [ true ↦ some value | false ↦ map_get m other ])
  unfolding map_get map_set
  map_get-set [] key other value = refl
  map_get-set (entry ∷ rest) key other value =
      let ih = map_get-set rest key other value in
      ground (arith, ih, eq_iff entry.0 other, eq_iff entry.0 key, eq_iff key other)

  set_all : List (String × V) → List (String × V) → List (String × V)
  set_all m [] = m
  set_all m (entry ∷ entries) = set_all (map_set m entry.0 entry.1) entries

  -- `new Map(entries)`.
  unfoldable pub from_entries : List (String × V) → List (String × V)
  unfolding set_all map_set
  from_entries entries = set_all [] entries

  -- The last entry of a key wins.
  abbrev pub lookup_last : String → List (String × V) → Option V
  lookup_last k [] = none
  lookup_last k ((j, v) ∷ entries) = elim (lookup_last k entries) [
    | some w ↦ some w
    | none ↦ if j == k then some v else none
  ]

  map_get-set_all :
      (key : String) (m entries : List (String × V))
      → map_get (set_all m entries) key
        ≡ (elim (lookup_last key entries) [ some w ↦ some w | none ↦ map_get m key ])
  unfolding set_all
  map_get-set_all key m [] = refl
  map_get-set_all key m ((j, v) ∷ entries) =
      ground (arith, map_get-set_all key (map_set m j v) entries, map_get-set m j key v)

  pub map_get-from_entries :
      (key : String) (entries : List (String × V))
      → map_get (from_entries entries) key ≡ lookup_last key entries
  unfolding from_entries map_get
  map_get-from_entries key entries = ground (arith, map_get-set_all key [] entries)
