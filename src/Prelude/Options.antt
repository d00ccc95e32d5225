-- ===== src/Prelude/Options.antt =====
-- `?` on an `Option`.
use mathlib.Core.Path.{◌≡◌, refl}
use mathlib.Core.Bool.{Bool, true, false}
use mathlib.Core.Option.{Option, none, some}

infixl 5 ◌>>=◌ ◌>>◌
abbrev pub ◌>>=◌ {ℓ κ} : {A : Type ℓ} {B : Type κ} → Option A → (A → Option B) → Option B
none >>= rest = none
some value >>= rest = rest value

abbrev pub ◌>>◌ {κ} : {B : Type κ} → Option (Unit {0}) → Option B → Option B
first >> rest = first >>= (λ _. rest)

-- `if !test { return None }`
abbrev pub require_some : Bool → Option (Unit {0})
require_some false = none
require_some true = some tt

pub require_some-eq : (test : Bool) {u : Unit {0}} → require_some test ≡ some u → test ≡ true
require_some-eq true e = refl
require_some-eq false e = cc

pub >>=-eq-some {ℓ κ} :
    {A : Type ℓ} {B : Type κ} (first : Option A) (rest : A → Option B) {b : B}
    → (first >>= rest) ≡ some b
    → (value : A) × (first ≡ some value) × (rest value ≡ some b)
>>=-eq-some none rest e = cc
>>=-eq-some (some value) rest e = (value, refl, e)

pub some-injective {ℓ} : {A : Type ℓ} {a b : A} → some a ≡ some b → a ≡ b
some-injective e = cc
