-- ===== src/Base/Ors.antt =====
-- `|` on machine words as arithmetic: a field of bits below a number that is shifted left.
use Prim.Native.Nat.{
  ℕ, zero, suc, ◌+◌, ◌*◌, ◌/◌, ◌%◌, ◌^◌, ◌≤◌, ◌<◌, max, digits, bit_or, bit_or-bitwise,
}
use mathlib.Core.Path.{◌≡◌, refl}
use native.Mathlib.Omega.{arith}
use oslab2_virtualfs.Base.Bits.{two_pow-suc, scale-suc}

-- The recursion on binary digits for which the native `|` stands. Fuel above the number adds nothing.
abbrev or_digits : ℕ → ℕ → ℕ → ℕ
or_digits = digits (λ b. b) max

or_digits-fuel : (fuel more x y : ℕ) → x ≤ more → x ≤ fuel → or_digits more x y ≡ or_digits fuel x y
or_digits-fuel fuel zero (suc x) y lt le = absurd (omega arith)
or_digits-fuel zero more (suc x) y lt le = absurd (omega arith)
or_digits-fuel zero zero zero y lt le = refl
or_digits-fuel zero (suc more) zero y lt le = refl
or_digits-fuel (suc fuel) zero zero y lt le = refl
or_digits-fuel (suc fuel) (suc more) zero y lt le = refl
or_digits-fuel (suc fuel) (suc more) (suc x) y lt le =
    let halves = or_digits-fuel fuel more (suc x / 2) (y / 2) (omega arith) (omega arith) in
    omega (arith, halves)

-- One digit of `|`.
bit_or_digit : (a b : ℕ) → bit_or a b ≡ bit_or (a / 2) (b / 2) * 2 + max (a % 2) (b % 2)
bit_or_digit zero y = omega (arith, bit_or-bitwise 0 y, bit_or-bitwise 0 (y / 2))
bit_or_digit (suc x) y =
    let half = suc x / 2 in
    let enough = or_digits-fuel half x half (y / 2) (omega arith) (omega arith) in
    omega (arith, enough, bit_or-bitwise half (y / 2), bit_or-bitwise (suc x) y)

or_zero_fuel : (fuel x : ℕ) → x ≤ fuel → bit_or x 0 ≡ x
or_zero_fuel fuel zero le = bit_or-bitwise 0 0
or_zero_fuel zero (suc x) le = absurd (omega arith)
or_zero_fuel (suc fuel) (suc x) le =
    omega (arith, bit_or_digit (suc x) 0, or_zero_fuel fuel (suc x / 2) (omega arith))

or_even : (m b : ℕ) → bit_or (2 * m) b ≡ bit_or m (b / 2) * 2 + b % 2
or_even m b = rw (bit_or_digit (2 * m) b, half, last) (omega arith)
  where
    half : 2 * m / 2 ≡ m
    half = omega arith

    last : 2 * m % 2 ≡ 0
    last = omega arith

-- `x << k | b`, for a field of `k` bits.
pub bit_or_field : (k x b : ℕ) → b < 2 ^ k → bit_or (x * 2 ^ k) b ≡ x * 2 ^ k + b
bit_or_field zero x zero small =
    let e : x * 2 ^ 0 ≡ x = omega arith in rw (e, or_zero_fuel x x (omega arith)) (omega arith)
bit_or_field zero x (suc b) small = absurd (omega arith)
bit_or_field (suc k) x b small =
    rw (scale-suc x k, or_even (x * 2 ^ k) b)
      (omega (arith, bit_or_field k x (b / 2) (omega (arith, two_pow-suc k))))
