-- ===== src/Base/Act.antt =====
-- Methods that may fail: the state as it is left, on every path, beside what is returned.
use vstreamer.Base.Errors.{Outcome, ok, err, fault, Errno}

abbrev pub Act : Type 0 → Type 0 → Type 0
Act S A = S → S × Outcome A

module _ {S : Type 0} where
  abbrev pub pure : {A : Type 0} → A → Act S A
  pure a s = (s, ok a)

  abbrev pub fail : {A : Type 0} → Errno → Act S A
  fail e s = (s, err e)

  abbrev pub modify : (S → S) → Act S (Unit {0})
  modify f s = (f s, ok tt)

-- What follows a call that has returned.
abbrev pub resume : {S A B : Type 0} → (A → Act S B) → S → Outcome A → S × Outcome B
resume f s (ok a) = f a s
resume f s (err e) = (s, err e)
resume f s fault = (s, fault)

infixl 5 ◌>>=◌ ◌>>◌
abbrev pub ◌>>=◌ : {S A B : Type 0} → Act S A → (A → Act S B) → Act S B
◌>>=◌ m f s = let r = m s in resume f r.0 r.1

abbrev pub ◌>>◌ : {S B : Type 0} → Act S (Unit {0}) → Act S B → Act S B
m >> k = m >>= λ _. k
