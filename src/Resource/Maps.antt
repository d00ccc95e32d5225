-- ===== src/Resource/Maps.antt =====
-- `BTreeMap<String, V>` and `BTreeSet<String>` as lists of their entries. No result depends on the
-- order of the entries: what is collected from them is sorted.
use casegraphen.Prelude.{
  String, Bool, false, Option, none, some, List, [], ◌∷◌, ◌≡◌, refl, ◌||◌, ◌&&◌, not, arith,
  if◌then◌else◌, str_eq, eq_iff, Bool-cases, inl, inr,
}

abbrev pub set_contains : String → List String → Bool
set_contains a [] = false
set_contains a (x ∷ xs) = str_eq x a || set_contains a xs

unfoldable pub set_insert : String → List String → List String
set_insert a xs = if set_contains a xs then xs else a ∷ xs

unfoldable pub set_remove : String → List String → List String
set_remove a [] = []
set_remove a (x ∷ xs) = let rest = set_remove a xs in if str_eq x a then rest else x ∷ rest

pub set_contains-insert :
    (a b : String) (xs : List String)
    → set_contains b (set_insert a xs) ≡ (str_eq a b || set_contains b xs)
unfolding set_insert
set_contains-insert a b xs = elim (Bool-cases (set_contains a xs)) [
  | inl old ↦ rw old (ground (arith, eq_iff a b))
  | inr new ↦ rw new refl
]

pub set_contains-remove :
    (a b : String) (xs : List String)
    → set_contains b (set_remove a xs) ≡ (not (str_eq a b) && set_contains b xs)
unfolding set_remove
set_contains-remove a b [] = ground arith
set_contains-remove a b (x ∷ xs) =
    ground (arith, set_contains-remove a b xs, eq_iff x a, eq_iff x b, eq_iff a b)

module _ {ℓ} {V : Type ℓ} where
  abbrev pub get : String → List (String × V) → Option V
  get k [] = none
  get k ((j, v) ∷ m) = if str_eq j k then some v else get k m

  -- `*entry(k).or_insert(default) = f(it)`
  unfoldable pub upsert : String → V → (V → V) → List (String × V) → List (String × V)
  upsert k default f [] = (k, f default) ∷ []
  upsert k default f ((j, v) ∷ m) =
      if str_eq j k then (j, f v) ∷ m else (j, v) ∷ upsert k default f m

  unfoldable pub remove : String → List (String × V) → List (String × V)
  remove k [] = []
  remove k ((j, v) ∷ m) = let rest = remove k m in if str_eq j k then rest else (j, v) ∷ rest

  abbrev pub or_default : V → Option V → V
  or_default default none = default
  or_default default (some v) = v

  pub get-upsert :
      (k j : String) (default : V) (f : V → V) (m : List (String × V))
      → get j (upsert k default f m)
        ≡ (if str_eq k j then some (f (or_default default (get j m))) else get j m)
  unfolding upsert
  get-upsert k j default f [] = refl
  get-upsert k j default f ((i, v) ∷ m) =
      ground (arith, eq_iff k j, eq_iff i k, eq_iff i j, get-upsert k j default f m)

  pub get-remove :
      (k j : String) (m : List (String × V))
      → get j (remove k m) ≡ (if str_eq k j then none else get j m)
  unfolding remove
  get-remove k j [] = ground arith
  get-remove k j ((i, v) ∷ m) = ground (arith, eq_iff k j, eq_iff i k, eq_iff i j, get-remove k j m)
