-- ===== src/Base/Bits.antt =====
-- `&` on machine words as arithmetic: masks, complements, and the lowest set bit.
use Prim.Native.Nat.{
  ℕ, zero, suc, ◌+◌, ◌-◌, ◌*◌, ◌/◌, ◌%◌, ◌^◌, ◌≤◌, ◌<◌, min, digits, bit_and, bit_and-bitwise,
}
use mathlib.Core.Path.{◌≡◌, refl, ap}
use mathlib.Core.Logic.{◌≢◌}
use native.Mathlib.Nat.{pow-suc, one-le-pow, pow-le-pow_right, mod-eq_of_lt, mul-one}
use native.Mathlib.Omega.{arith}

-- The recursion on binary digits for which the native `&` stands. Fuel above the number adds nothing.
abbrev and_digits : ℕ → ℕ → ℕ → ℕ
and_digits = digits (λ _. zero) min

and_digits-fuel :
    (fuel more x y : ℕ) → x ≤ more → x ≤ fuel → and_digits more x y ≡ and_digits fuel x y
and_digits-fuel fuel zero (suc x) y lt le = absurd (omega arith)
and_digits-fuel zero more (suc x) y lt le = absurd (omega arith)
and_digits-fuel zero zero zero y lt le = refl
and_digits-fuel zero (suc more) zero y lt le = refl
and_digits-fuel (suc fuel) zero zero y lt le = refl
and_digits-fuel (suc fuel) (suc more) zero y lt le = refl
and_digits-fuel (suc fuel) (suc more) (suc x) y lt le =
    let halves = and_digits-fuel fuel more (suc x / 2) (y / 2) (omega arith) (omega arith) in
    omega (arith, halves)

-- One digit of `&`.
pub bit_and_digit : (a b : ℕ) → bit_and a b ≡ bit_and (a / 2) (b / 2) * 2 + min (a % 2) (b % 2)
bit_and_digit zero y = omega (arith, bit_and-bitwise 0 y, bit_and-bitwise 0 (y / 2))
bit_and_digit (suc x) y =
    let half = suc x / 2 in
    let enough = and_digits-fuel half x half (y / 2) (omega arith) (omega arith) in
    omega (arith, enough, bit_and-bitwise half (y / 2), bit_and-bitwise (suc x) y)

pub zero-bit_and : (b : ℕ) → bit_and 0 b ≡ 0
zero-bit_and b = bit_and-bitwise 0 b

-- The same with the halves and the last digits named.
pub bit_and_halves :
    (a b x y r s : ℕ)
    → a ≡ 2 * x + r
    → b ≡ 2 * y + s
    → r < 2
    → s < 2
    → bit_and a b ≡ 2 * bit_and x y + min r s
bit_and_halves a b x y r s ea eb hr hs = rw (bit_and_digit a b, ha, hb, la, lb) (omega arith)
  where
    ha : a / 2 ≡ x
    ha = omega arith

    hb : b / 2 ≡ y
    hb = omega arith

    la : a % 2 ≡ r
    la = omega arith

    lb : b % 2 ≡ s
    lb = omega arith

-- `2 ^ suc n` doubles.
pub two_pow-suc : (n : ℕ) → 2 ^ suc n ≡ 2 * 2 ^ n
two_pow-suc n = omega (arith, pow-suc 2 n)

pub scale-suc : (q n : ℕ) → q * 2 ^ suc n ≡ 2 * (q * 2 ^ n)
scale-suc q n = rw (two_pow-suc n) (omega arith)

-- Powers of two multiply by adding exponents.
pub two_pow-add : (j d k : ℕ) → j + d ≡ k → 2 ^ j * 2 ^ d ≡ 2 ^ k
two_pow-add zero d k e = let e' : k ≡ d = omega arith in rw e' (omega arith)
two_pow-add (suc j) d zero e = absurd (omega arith)
two_pow-add (suc j) d (suc k) e =
    rw (two_pow-suc j, two_pow-suc k) (omega (arith, two_pow-add j d k (omega arith)))

pub two_pow-pos : (n : ℕ) → 1 ≤ 2 ^ n
two_pow-pos n = one-le-pow n 2 (omega arith)

pub two_pow_mono : (m n : ℕ) → m ≤ n → 2 ^ m ≤ 2 ^ n
two_pow_mono m n h = pow-le-pow_right (omega arith) h

-- `x & 0` and `x & x`.
fixed_bits_fuel : (fuel x : ℕ) → x ≤ fuel → (bit_and x 0 ≡ 0) × (bit_and x x ≡ x)
fixed_bits_fuel fuel zero le = (refl, refl)
fixed_bits_fuel zero (suc x) le = absurd (omega arith)
fixed_bits_fuel (suc fuel) (suc x) le =
    let (none_set, same) = fixed_bits_fuel fuel (suc x / 2) (omega arith) in
    (
      omega (arith, none_set, bit_and_digit (suc x) 0),
      omega (arith, same, bit_and_digit (suc x) (suc x)),
    )

pub bit_and-zero : (x : ℕ) → bit_and x 0 ≡ 0
bit_and-zero x = (fixed_bits_fuel x x (omega arith)).0

pub bit_and_self : (x : ℕ) → bit_and x x ≡ x
bit_and_self x = (fixed_bits_fuel x x (omega arith)).1

-- A number and its complement have no bit in common.
pub bit_and_complement : (w m : ℕ) → m < 2 ^ w → bit_and m (2 ^ w - 1 - m) ≡ 0
bit_and_complement zero m h = let e : m ≡ 0 = omega arith in rw e
bit_and_complement (suc w) m h = omega (
  arith,
  two_pow-suc w,
  bit_and_halves m (2 ^ suc w - 1 - m) (m / 2) (2 ^ w - 1 - m / 2) (m % 2) (1 - m % 2) (omega arith)
      (omega (arith, two_pow-suc w)) (omega arith) (omega arith),
  bit_and_complement w (m / 2) (omega (arith, two_pow-suc w)),
)

-- `x & -x` on words of `w` bits.
abbrev pub low_bit : ℕ → ℕ → ℕ
low_bit w x = bit_and x ((2 ^ w - x) % 2 ^ w)

-- Without the wrap, which a nonzero word does not need.
low_bit_unwrapped :
    (j w m : ℕ)
    → (2 * m + 1) * 2 ^ j < 2 ^ w
    → bit_and ((2 * m + 1) * 2 ^ j) (2 ^ w - (2 * m + 1) * 2 ^ j) ≡ 2 ^ j
low_bit_unwrapped zero zero m h = absurd (omega arith)
low_bit_unwrapped zero (suc w) m h = omega (
  arith,
  bit_and_halves ((2 * m + 1) * 2 ^ 0) (2 ^ suc w - (2 * m + 1) * 2 ^ 0) m (2 ^ w - 1 - m) 1 1
      (omega arith) (omega (arith, two_pow-suc w)) (omega arith) (omega arith),
  bit_and_complement w m (omega (arith, two_pow-suc w)),
)
low_bit_unwrapped (suc j) zero m h =
    absurd (omega (arith, two_pow-pos (suc j), grows (2 * m) (2 ^ suc j)))
  where
    grows : (a b : ℕ) → b ≤ (a + 1) * b
    grows a b = omega arith
low_bit_unwrapped (suc j) (suc w) m h = omega (
  arith,
  two_pow-suc j,
  bit_and_halves ((2 * m + 1) * 2 ^ suc j) (2 ^ suc w - (2 * m + 1) * 2 ^ suc j)
      ((2 * m + 1) * 2 ^ j) (2 ^ w - (2 * m + 1) * 2 ^ j) 0 0 double
      (omega (arith, two_pow-suc w, double)) (omega arith) (omega arith),
  low_bit_unwrapped j w m (omega (arith, two_pow-suc w, double)),
)
  where
    double : (2 * m + 1) * 2 ^ suc j ≡ 2 * ((2 * m + 1) * 2 ^ j) + 0
    double = omega (arith, scale-suc (2 * m + 1) j)

-- `x & -x` is the lowest set bit.
pub low_bit_lem :
    (j w m : ℕ) → (2 * m + 1) * 2 ^ j < 2 ^ w → low_bit w ((2 * m + 1) * 2 ^ j) ≡ 2 ^ j
low_bit_lem j w m h = rw (mod-eq_of_lt (less)) (low_bit_unwrapped j w m h)
  where
    less : 2 ^ w - (2 * m + 1) * 2 ^ j < 2 ^ w
    less = omega (arith, two_pow-pos w, two_pow-pos j)

-- The low `k` bits of a multiple of `2 ^ j`.
pub bit_and_mask_scaled :
    (j d k q : ℕ) → j + d ≡ k → bit_and (q * 2 ^ j) (2 ^ k - 1) ≡ bit_and q (2 ^ d - 1) * 2 ^ j
bit_and_mask_scaled zero d k q e = let e' : k ≡ d = omega arith in rw (e', mul-one q, mul-one)
bit_and_mask_scaled (suc j) d zero q e = absurd (omega arith)
bit_and_mask_scaled (suc j) d (suc k) q e = omega (
  arith,
  two_pow-suc j,
  scale-suc q j,
  scale-suc (bit_and q (2 ^ d - 1)) j,
  bit_and_halves (q * 2 ^ suc j) (2 ^ suc k - 1) (q * 2 ^ j) (2 ^ k - 1) 0 1
      (omega (arith, scale-suc q j)) (omega (arith, two_pow-suc k, two_pow-pos k)) (omega arith)
      (omega arith),
  bit_and_mask_scaled j d k q (omega arith),
)

-- `& (2 ^ k - 1)` is the remainder by `2 ^ k`.
pub bit_and_mask : (k a : ℕ) → bit_and a (2 ^ k - 1) ≡ a % 2 ^ k
bit_and_mask zero a = rw (bit_and-zero a) (omega arith)
bit_and_mask (suc k) a = omega (
  arith,
  bit_and_halves a (2 ^ suc k - 1) (a / 2) (2 ^ k - 1) (a % 2) 1 (omega arith)
      (omega (arith, two_pow-suc k, two_pow-pos k)) (omega arith) (omega arith),
  bit_and_mask k (a / 2),
  mod_double a (2 ^ k) (two_pow-pos k),
  ap (λ (m : ℕ). a % m) (two_pow-suc k),
)
  where
    mod_double : (a m : ℕ) → 1 ≤ m → a % (2 * m) ≡ 2 * (a / 2 % m) + a % 2
    mod_double a m h = grind arith

-- The lowest bit under a nonempty mask.
pub bit_and_odd_mask : (m d : ℕ) → bit_and (2 * m + 1) (2 ^ suc d - 1) ≢ 0
bit_and_odd_mask m d e = omega (
  arith,
  bit_and_halves (2 * m + 1) (2 ^ suc d - 1) m (2 ^ d - 1) 1 1 (omega arith)
      (omega (arith, two_pow-suc d, two_pow-pos d)) (omega arith) (omega arith),
)

-- `x & (x - 1)` clears the lowest set bit.
pub bit_and_pred :
    (j m : ℕ) → bit_and ((2 * m + 1) * 2 ^ j) ((2 * m + 1) * 2 ^ j - 1) ≡ 2 * m * 2 ^ j
bit_and_pred zero m = omega (
  arith,
  bit_and_halves ((2 * m + 1) * 2 ^ 0) ((2 * m + 1) * 2 ^ 0 - 1) m m 1 0 (omega arith) (omega arith)
      (omega arith) (omega arith),
  bit_and_self m,
)
bit_and_pred (suc j) m = omega (
  arith,
  scale-suc (2 * m) j,
  bit_and_halves ((2 * m + 1) * 2 ^ suc j) ((2 * m + 1) * 2 ^ suc j - 1) ((2 * m + 1) * 2 ^ j)
      ((2 * m + 1) * 2 ^ j - 1) 0 1 (omega (arith, scale-suc (2 * m + 1) j))
      (omega (arith, scale-suc (2 * m + 1) j, two_pow-pos j)) (omega arith) (omega arith),
  bit_and_pred j m,
)
