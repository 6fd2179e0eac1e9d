-- ===== src/Workspace/Location/Parameters.antt =====
-- The parameters of a query: what `getAll` and `get` see after `append`, `delete` and `set`.
use euphony.Prelude.{
  ◌≡◌, refl, false, some, String, List, [], ◌∷◌, ◌++◌, map, arith, ◌==◌, eq_iff, eq_refl,
  if◌then◌else◌,
}
use euphony.Workspace.Location.{get_all, get, delete, set_param}

pub get_all-append :
    (k : String) (ps qs : List (String × String))
    → get_all k (ps ++ qs) ≡ get_all k ps ++ get_all k qs
get_all-append k [] qs = refl
get_all-append k ((j, v) ∷ ps) qs = ground (arith, get_all-append k ps qs)

pub get_all-map :
    (k j : String) (vs : List String)
    → get_all k (map (λ v. (j, v)) vs) ≡ (if j == k then vs else [])
get_all-map k j [] = ground arith
get_all-map k j (v ∷ vs) = ground (arith, get_all-map k j vs)

pub get_all-delete :
    (k j : String) (ps : List (String × String))
    → get_all k (delete j ps) ≡ (if j == k then [] else get_all k ps)
get_all-delete k j [] = ground arith
get_all-delete k j ((i, v) ∷ ps) =
    ground (arith, get_all-delete k j ps, eq_iff i j, eq_iff i k, eq_iff j k)

pub get_all-set_param :
    (k j v : String) (ps : List (String × String))
    → (j == k) ≡ false
    → get_all k (set_param j v ps) ≡ get_all k ps
get_all-set_param k j v [] h = ground arith
get_all-set_param k j v ((i, w) ∷ ps) h =
    ground
      (arith, get_all-set_param k j v ps, get_all-delete k j ps, eq_iff i j, eq_iff i k, eq_iff j k)

pub get-set_param : (k v : String) (ps : List (String × String)) → get k (set_param k v ps) ≡ some v
get-set_param k v [] = rw (eq_refl k)
get-set_param k v ((i, w) ∷ ps) = ground (arith, get-set_param k v ps)
