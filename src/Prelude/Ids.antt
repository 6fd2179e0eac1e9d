-- ===== src/Prelude/Ids.antt =====
-- Arrays of strings as sets: `includes`, and `[...new Set(xs)]` as insertion at the end.
use Prim.Native.String.{String}
use mathlib.Core.Path.{◌≡◌, refl, sym, ap, ◌∙◌}
use mathlib.Core.Bool.{Bool, true, false, ◌&&◌, ◌||◌}
use mathlib.Core.List.{List, [], ◌∷◌, ◌++◌, append-nil, append_assoc}
use native.Mathlib.Omega.{arith}
use text.Mathlib.Text.{◌==◌}
use text.Mathlib.TextEquality.{eq_iff}
use text.Mathlib.TextPositions.{eq_refl}
use euphony.Prelude.Tests.{if◌then◌else◌}
use euphony.Prelude.Lists.{filter}

abbrev pub includes : List String → String → Bool
includes [] a = false
includes (x ∷ xs) a = x == a || includes xs a

abbrev pub IsNodup : List String → Type 0
IsNodup [] = Unit {0}
IsNodup (x ∷ xs) = (includes xs x ≡ false) × IsNodup xs

-- `Set.prototype.add` on the elements in insertion order.
unfoldable pub set_add : List String → String → List String
set_add s x = if includes s x then s else s ++ x ∷ []

unfoldable pub set_from : List String → List String → List String
set_from s [] = s
set_from s (x ∷ xs) = set_from (set_add s x) xs

-- `[...new Set(xs)]`.
unfoldable pub unique : List String → List String
unfolding set_from set_add
unique xs = set_from [] xs

pub includes-append :
    (xs ys : List String) (a : String) → includes (xs ++ ys) a ≡ (includes xs a || includes ys a)
includes-append [] ys a = refl
includes-append (x ∷ xs) ys a = ground (arith, includes-append xs ys a)

pub includes-filter :
    (p : String → Bool) (xs : List String) (a : String)
    → includes (filter p xs) a ≡ (includes xs a && p a)
includes-filter p [] a = refl
includes-filter p (x ∷ xs) a = ground (arith, includes-filter p xs a, eq_iff x a)

pub includes-set_add :
    (s : List String) (x a : String) → includes (set_add s x) a ≡ (includes s a || x == a)
unfolding set_add
includes-set_add s x a = ground (arith, includes-append s (x ∷ []) a, eq_iff x a)

includes-set_from :
    (s xs : List String) (a : String) → includes (set_from s xs) a ≡ (includes s a || includes xs a)
unfolding set_from
includes-set_from s [] a = ground arith
includes-set_from s (x ∷ xs) a =
    ground (arith, includes-set_from (set_add s x) xs a, includes-set_add s x a)

pub includes-unique : (xs : List String) (a : String) → includes (unique xs) a ≡ includes xs a
unfolding unique
includes-unique xs a = includes-set_from [] xs a

pub snoc-IsNodup :
    (s : List String) (x : String) → includes s x ≡ false → IsNodup s → IsNodup (s ++ x ∷ [])
snoc-IsNodup [] x h n = ground arith
snoc-IsNodup (y ∷ s) x h n =
    ground (arith, includes-append s (x ∷ []) y, snoc-IsNodup s x, eq_iff x y, eq_iff y x)

set_from-IsNodup : (s xs : List String) → IsNodup s → IsNodup (set_from s xs)
unfolding set_from set_add
set_from-IsNodup s [] n = n
set_from-IsNodup s (x ∷ xs) n = set_from-IsNodup (set_add s x) xs (ground (arith, snoc-IsNodup s x))

pub unique-IsNodup : (xs : List String) → IsNodup (unique xs)
unfolding unique
unique-IsNodup xs = set_from-IsNodup [] xs tt

pub filter-IsNodup : (p : String → Bool) (xs : List String) → IsNodup xs → IsNodup (filter p xs)
filter-IsNodup p [] n = tt
filter-IsNodup p (x ∷ xs) n = ground (arith, includes-filter p xs x, filter-IsNodup p xs)

abbrev pub Subset : List String → List String → Type 0
Subset xs ys = (a : String) → includes xs a ≡ true → includes ys a ≡ true

pub not-includes-filter :
    (p : String → Bool) (xs : List String) (a : String)
    → includes xs a ≡ false
    → includes (filter p xs) a ≡ false
not-includes-filter p xs a h = ground (arith, includes-filter p xs a)

pub includes_self : (x : String) (xs : List String) → includes (x ∷ xs) x ≡ true
includes_self x xs = rw (eq_refl x)

pub filter_all :
    (p : String → Bool) (xs : List String)
    → ((a : String) → includes xs a ≡ true → p a ≡ true)
    → filter p xs ≡ xs
filter_all p [] h = refl
filter_all p (x ∷ xs) h =
    rw (h x (includes_self x xs)) (ap (◌∷◌ x) (filter_all p xs (λ a k. h a (ground arith))))

set_from-IsNodup_append :
    (s xs : List String)
    → IsNodup xs
    → ((a : String) → includes xs a ≡ true → includes s a ≡ false)
    → set_from s xs ≡ s ++ xs
unfolding set_from set_add
set_from-IsNodup_append s [] n h = sym (append-nil s)
set_from-IsNodup_append s (x ∷ xs) n h = rw (h x (includes_self x xs)) (
    set_from-IsNodup_append (s ++ x ∷ []) xs n.1
      (λ a k. ground (arith, h a, n.0, includes-append s (x ∷ []) a, eq_iff x a))
    ∙ append_assoc s (x ∷ []) xs)

set_from_of_Subset : (s xs : List String) → Subset xs s → set_from s xs ≡ s
unfolding set_from set_add
set_from_of_Subset s [] h = refl
set_from_of_Subset s (x ∷ xs) h =
    rw (h x (includes_self x xs)) (set_from_of_Subset s xs (λ a k. h a (ground arith)))

set_from-append : (s xs ys : List String) → set_from s (xs ++ ys) ≡ set_from (set_from s xs) ys
unfolding set_from
set_from-append s [] ys = refl
set_from-append s (x ∷ xs) ys = set_from-append (set_add s x) xs ys

-- A list without repetitions is its own set, also followed by some of its elements.
pub unique_of_IsNodup : (xs : List String) → IsNodup xs → unique xs ≡ xs
unfolding unique
unique_of_IsNodup xs n = set_from-IsNodup_append [] xs n (λ a h. refl)

pub unique_of_Subset : (xs ys : List String) → IsNodup xs → Subset ys xs → unique (xs ++ ys) ≡ xs
unfolding unique
unique_of_Subset xs ys n h =
    rw set_from-append
      (rw (set_from-IsNodup_append [] xs n (λ a k. refl)) (set_from_of_Subset xs ys h))

-- The comparison of two lists of identifiers, which the code joins to texts.
abbrev pub same_ids : List String → List String → Bool
same_ids [] [] = true
same_ids [] (id ∷ ids) = false
same_ids (id ∷ ids) [] = false
same_ids (id ∷ ids) (other ∷ others) = (id == other) && same_ids ids others
