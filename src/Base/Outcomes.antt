-- ===== src/Base/Outcomes.antt =====
-- What a piece of C code comes to: a value, a halt of the machine, or undefined behaviour.
use Prim.Native.Nat.{ℕ}
use mathlib.Core.Path.{◌≡◌}
use mathlib.Core.Bool.{Bool, true, false}
use mathlib.Core.Option.{Option, none, some}

-- `halted code` is `_halt(code)`, which `panic`, `abort` and `_Exit` end in. `undefined` is an
-- access outside an object, an access through NULL, or an operation that C leaves undefined.
-- `unfinished` is no outcome of the program: the fuel of a loop ran out.
pub data Outcome {ℓ} (A : Type ℓ) : Type ℓ where
  ok : A → Outcome A
  halted : ℕ → Outcome A
  undefined : Outcome A
  unfinished : Outcome A

infixl 5 ◌>>=◌ ◌>>◌
abbrev pub ◌>>=◌ {ℓ κ} : {A : Type ℓ} {B : Type κ} → Outcome A → (A → Outcome B) → Outcome B
ok a >>= f = f a
halted c >>= f = halted c
undefined >>= f = undefined
unfinished >>= f = unfinished

abbrev pub ◌>>◌ {ℓ} : {B : Type ℓ} → Outcome (Unit {0}) → Outcome B → Outcome B
m >> k = m >>= λ _. k

-- A read that must be within its object.
abbrev pub defined {ℓ} : {A : Type ℓ} → Option A → Outcome A
defined none = undefined
defined (some a) = ok a

-- `assert(cond)`, whose failure ends in `abort`.
abbrev pub assert : Bool → Outcome (Unit {0})
assert true = ok tt
assert false = halted 1

pub ok_injective {ℓ} : {A : Type ℓ} {a b : A} → ◌≡◌ {A = Outcome A} (ok a) (ok b) → a ≡ b
ok_injective q = cc
