-- ===== src/Json/Fields.antt =====
-- `d.get(k)`, `d[k] = v` and `d.update(...)`, with the law that relates them.
use collective_capability_ru.Prelude.{
  String, ◌≡◌, refl, Bool, true, false, Option, none, some, List, [], ◌∷◌, arith, eq_iff, eq_refl,
  str_eq, if◌then◌else◌,
}
use collective_capability_ru.Json.{Json, Dict, end, entry}

unfoldable pub get : String → Dict → Option Json
get k end = none
get k (entry j v d) = if str_eq j k then some v else get k d

-- An old key keeps its place, a new one goes to the end.
unfoldable pub set : String → Json → Dict → Dict
set k v end = entry k v end
set k v (entry j w d) = if str_eq j k then entry j v d else entry j w (set k v d)

-- `d.update({...})`, and `{**d, ...}`.
abbrev pub update : Dict → List (String × Json) → Dict
update d [] = d
update d ((k, v) ∷ kvs) = update (set k v d) kvs

-- `k in d`.
unfoldable pub contains : String → Dict → Bool
contains k end = false
contains k (entry j v d) = if str_eq j k then true else contains k d

pub get-set :
    (k j : String) (v : Json) (d : Dict)
    → get j (set k v d) ≡ (if str_eq k j then some v else get j d)
unfolding get set
get-set k j v end = refl
get-set k j v (entry i w d) = ground (arith, eq_iff k j, eq_iff i k, eq_iff i j, get-set k j v d)

pub get-set_self : (k : String) (v : Json) (d : Dict) → get k (set k v d) ≡ some v
get-set_self k v d = simp (get-set, eq_refl)
