-- ===== src/Base/Errors.antt =====
-- What a call of the C++ code comes to: a value, a negative errno, or undefined behaviour
-- (an access outside an array).
use Prim.Native.Nat.{ℕ, ◌<◌}
use mathlib.Core.Path.{◌≡◌, refl}
use mathlib.Core.Bool.{Bool, true, false}
use mathlib.Core.List.{List}
use mathlib.Core.Option.{none, some}
use native.Mathlib.Omega.{arith}
use vstreamer.Base.Lists.{length, get_elem?, get_elem?_in}

pub data Errno : Type 0 where
  einval eagain enomem emsgsize eproto enotsup : Errno

pub data Outcome {ℓ} (A : Type ℓ) : Type ℓ where
  ok : A → Outcome A
  err : Errno → Outcome A
  fault : Outcome A

infixl 5 ◌>>=◌ ◌>>◌
abbrev pub ◌>>=◌ {ℓ κ} : {A : Type ℓ} {B : Type κ} → Outcome A → (A → Outcome B) → Outcome B
ok a >>= f = f a
err e >>= f = err e
fault >>= f = fault

abbrev pub ◌>>◌ {ℓ} : {B : Type ℓ} → Outcome (Unit {0}) → Outcome B → Outcome B
m >> k = m >>= λ _. k

abbrev pub require : Bool → Errno → Outcome (Unit {0})
require true e = ok tt
require false e = err e

-- `p[i]`.
abbrev pub read : List ℕ → ℕ → Outcome ℕ
read xs i = elim (get_elem? xs i) [ none ↦ fault | some x ↦ ok x ]

pub read_in : (xs : List ℕ) (i : ℕ) → i < length xs → (x : ℕ) × (read xs i ≡ ok x)
read_in xs i h = let (x, e) = get_elem?_in xs i h in (x, ground (arith, e))

-- A chain that returns, taken apart.
pub bind-ok {ℓ κ} :
    {A : Type ℓ} {B : Type κ} (m : Outcome A) (f : A → Outcome B) (b : B)
    → (m >>= f) ≡ ok b
    → (a : A) × (m ≡ ok a) × (f a ≡ ok b)
bind-ok (ok a) f b e = (a, refl, e)
bind-ok (err x) f b e = absurd (ground (arith, e))
bind-ok fault f b e = absurd (ground (arith, e))

pub ok_injective {ℓ} : {A : Type ℓ} {a b : A} → (ok a ≡ ok b) → a ≡ b
ok_injective e = ground (arith, e)
