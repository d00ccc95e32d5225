-- ===== src/Prelude/Sets.antt =====
-- Lists asked by `contains`: what is joined, and lists with no element twice.
use mathlib.Core.Path.{◌≡◌, refl}
use mathlib.Core.Bool.{Bool, true, false, ◌&&◌, ◌||◌, not}
use mathlib.Core.List.{List, [], ◌∷◌, ◌++◌}
use native.Mathlib.Omega.{arith}
use casegraphen.Prelude.Lists.{contains}

module _ {ℓ} {A : Type ℓ} (d : Discrete A) where
  pub contains-append :
      (xs ys : List A) (a : A) → contains d (xs ++ ys) a ≡ (contains d xs a || contains d ys a)
  contains-append [] ys a = refl
  contains-append (x ∷ xs) ys a = ground (arith, contains-append xs ys a)

  -- No element stands twice.
  abbrev pub unique : List A → Bool
  unique [] = true
  unique (x ∷ xs) = not (contains d xs x) && unique xs

  disjoint : List A → List A → Bool
  disjoint [] ys = true
  disjoint (x ∷ xs) ys = not (contains d ys x) && disjoint xs ys

  -- A new element may be put anywhere.
  pub unique-insert :
      (xs ys : List A) (a : A)
      → unique (xs ++ ys) ≡ true
      → contains d (xs ++ ys) a ≡ false
      → unique (xs ++ a ∷ ys) ≡ true
  unique-insert [] ys a u n = ground arith
  unique-insert (x ∷ xs) ys a u n =
      ground (arith, unique-insert xs ys a, contains-append xs ys x, contains-append xs (a ∷ ys) x)

  -- An element may be taken out anywhere.
  pub unique-remove :
      (xs ys : List A) (a : A) → unique (xs ++ a ∷ ys) ≡ true → unique (xs ++ ys) ≡ true
  unique-remove [] ys a u = ground arith
  unique-remove (x ∷ xs) ys a u =
      ground (arith, unique-remove xs ys a, contains-append xs ys x, contains-append xs (a ∷ ys) x)
