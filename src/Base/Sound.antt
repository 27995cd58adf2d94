-- ===== src/Base/Sound.antt =====
-- A condition on what a piece of code returns, with the promise that it comes to an end, and without.
use mathlib.Core.Bool.{Bool, true, false}
use oslab2_virtualfs.Base.Tests.{if◌then◌else◌}
use oslab2_virtualfs.Base.Outcomes.{Outcome, ok, halted, undefined, unfinished, ◌>>=◌}

-- The code comes to an end, and a value that it returns has P.
unfoldable pub Sound {ℓ} : {A : Type ℓ} → (A → Type 0) → Outcome A → Type 0
Sound P (ok a) = P a
Sound P (halted c) = Unit {0}
Sound P undefined = Unit {0}
Sound P unfinished = ⊥

pub Sound-bind {ℓ κ} :
    {A : Type ℓ} {B : Type κ} (P : A → Type 0) (Q : B → Type 0) (m : Outcome A) (f : A → Outcome B)
    → Sound P m
    → ((a : A) → P a → Sound Q (f a))
    → Sound Q (m >>= f)
unfolding Sound
Sound-bind P Q (ok a) f s k = k a s
Sound-bind P Q (halted c) f s k = tt
Sound-bind P Q undefined f s k = tt
Sound-bind P Q unfinished f s k = absurd s

pub Sound-weaken {ℓ} :
    {A : Type ℓ} {P Q : A → Type 0} (m : Outcome A) → ((a : A) → P a → Q a) → Sound P m → Sound Q m
unfolding Sound
Sound-weaken (ok a) f s = f a s
Sound-weaken (halted c) f s = tt
Sound-weaken undefined f s = tt
Sound-weaken unfinished f s = s

pub undefined-Sound {ℓ} : {A : Type ℓ} (P : A → Type 0) → Sound P undefined
unfolding Sound
undefined-Sound P = tt

pub ok-Sound {ℓ} : {A : Type ℓ} (P : A → Type 0) {a : A} → P a → Sound P (ok a)
unfolding Sound
ok-Sound P h = h

pub Sound-if {ℓ} :
    {A : Type ℓ} (P : A → Type 0) (b : Bool) (m k : Outcome A)
    → Sound P m
    → Sound P k
    → Sound P (if b then m else k)
Sound-if P true m k s t = s
Sound-if P false m k s t = t

pub Sound-elim {ℓ} :
    {A : Type ℓ} (P : A → Type 0) (b : Bool) (m k : Outcome A)
    → Sound P m
    → Sound P k
    → Sound P (elim b [ true ↦ m | false ↦ k ])
Sound-elim P true m k s t = s
Sound-elim P false m k s t = t

-- What the code returns, if it returns, has P.
unfoldable pub Holds {ℓ} : {A : Type ℓ} → (A → Type 0) → Outcome A → Type 0
Holds P (ok a) = P a
Holds P (halted c) = Unit {0}
Holds P undefined = Unit {0}
Holds P unfinished = Unit {0}

pub Holds-bind {ℓ κ} :
    {A : Type ℓ} {B : Type κ} (Q : B → Type 0) (m : Outcome A) (f : A → Outcome B)
    → ((a : A) → Holds Q (f a))
    → Holds Q (m >>= f)
unfolding Holds
Holds-bind Q (ok a) f k = k a
Holds-bind Q (halted c) f k = tt
Holds-bind Q undefined f k = tt
Holds-bind Q unfinished f k = tt

pub Holds-then {ℓ κ} :
    {A : Type ℓ} {B : Type κ} (P : A → Type 0) (Q : B → Type 0) (m : Outcome A) (f : A → Outcome B)
    → Holds P m
    → ((a : A) → P a → Holds Q (f a))
    → Holds Q (m >>= f)
unfolding Holds
Holds-then P Q (ok a) f h k = k a h
Holds-then P Q (halted c) f h k = tt
Holds-then P Q undefined f h k = tt
Holds-then P Q unfinished f h k = tt
