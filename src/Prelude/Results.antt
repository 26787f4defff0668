-- ===== src/Prelude/Results.antt =====
-- A computation that may raise: `err e` stands for the exception `e`.
use mathlib.Core.Option.{Option, none, some}
use mathlib.Core.Bool.{Bool, true, false}
use mathlib.Core.Path.{◌≡◌, refl}

pub data Result {ℓ} (Exc V : Type ℓ) : Type ℓ where
  err : Exc → Result Exc V
  ok : V → Result Exc V

-- `if b: raise e`
abbrev pub raise_if : {Exc : Type 0} → Bool → Exc → Result Exc Unit
raise_if false e = ok tt
raise_if true e = err e

-- the value, or the exception where there is none
abbrev pub or_raise {ℓ} : {Exc V : Type ℓ} → Option V → Exc → Result Exc V
or_raise (some v) e = ok v
or_raise none e = err e

-- One statement after another: the first exception ends the block.
infixl 5 ◌>>◌ ◌>>=◌
abbrev pub ◌>>=◌ {ℓ} : {Exc V W : Type ℓ} → Result Exc V → (V → Result Exc W) → Result Exc W
err e >>= rest = err e
ok v >>= rest = rest v

abbrev pub ◌>>◌ {ℓ} : {Exc V W : Type ℓ} → Result Exc V → Result Exc W → Result Exc W
first >> rest = first >>= λ v. rest

module _ {ℓ} {Exc V W : Type ℓ} where
  -- A block that returns had a first statement that returned.
  pub block_returned :
      (first : Result Exc V) (rest : V → Result Exc W) {w : W}
      → (first >>= rest) ≡ ok w
      → (v : V) × (first ≡ ok v) × (rest v ≡ ok w)
  block_returned (err e) rest h = cc
  block_returned (ok v) rest h = (v, refl, h)

pub raise_if-ok : {Exc : Type 0} (b : Bool) (e : Exc) → raise_if b e ≡ ok tt → b ≡ false
raise_if-ok false e h = refl
raise_if-ok true e h = cc

-- A block that returned passed its first check.
pub check_passed :
    {Exc W : Type 0} (b : Bool) (e : Exc) (rest : Unit → Result Exc W) {w : W}
    → (raise_if b e >>= rest) ≡ ok w
    → (b ≡ false) × (rest tt ≡ ok w)
check_passed false e rest h = (refl, h)
check_passed true e rest h = cc

-- A value that was asked for is there.
pub or_raise-ok {ℓ} :
    {Exc V : Type ℓ} (o : Option V) (e : Exc) {v : V} → or_raise o e ≡ ok v → o ≡ some v
or_raise-ok none e h = cc
or_raise-ok (some v) e h = cc

pub ok-injective {ℓ} : {Exc V : Type ℓ} {v w : V} → ◌≡◌ {A = Result Exc V} (ok v) (ok w) → v ≡ w
ok-injective h = cc
