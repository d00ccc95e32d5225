-- ===== src/Prelude/Results.antt =====
-- Fallible code: `Result<A, E>` with the chaining that `?` makes.
use mathlib.Core.Path.{◌≡◌, refl}
use mathlib.Core.Bool.{Bool, true, false}

pub data Result {ℓ} (E A : Type ℓ) : Type ℓ where
  err : E → Result E A
  ok : A → Result E A

module _ {ℓ} {E : Type ℓ} where
  -- `if !test { return Err(reason) }`
  abbrev pub require : Bool → E → Result E (Unit {ℓ})
  require false reason = err reason
  require true reason = ok tt

  pub require-eq-ok :
      (test : Bool) (reason : E) {u : Unit {ℓ}} → require test reason ≡ ok u → test ≡ true
  require-eq-ok true reason e = refl
  require-eq-ok false reason e = cc

  pub ok-injective : {A : Type ℓ} {a a' : A} → ◌≡◌ {A = Result E A} (ok a) (ok a') → a ≡ a'
  ok-injective e = cc

infixl 5 ◌>>=◌
abbrev pub ◌>>=◌ {ℓ} : {E A B : Type ℓ} → Result E A → (A → Result E B) → Result E B
err reason >>= rest = err reason
ok value >>= rest = rest value

-- Inversion of a successful chain.
pub >>=-eq-ok {ℓ} :
    {E A B : Type ℓ} (first : Result E A) (rest : A → Result E B) {b : B}
    → (first >>= rest) ≡ ok b
    → (value : A) × (first ≡ ok value) × (rest value ≡ ok b)
>>=-eq-ok (err reason) rest e = cc
>>=-eq-ok (ok value) rest e = (value, refl, e)

infixl 5 ◌>>◌
abbrev pub ◌>>◌ {ℓ} : {E A B : Type ℓ} → Result E A → Result E B → Result E B
first >> rest = first >>= (λ _. rest)
