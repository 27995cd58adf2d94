-- ===== src/Pmm/Sizes.antt =====
-- How `pmm_alloc` of src/pmm.c rounds a size up to a power of two and takes its logarithm.
use oslab2_virtualfs.Base.{
  ℕ, zero, suc, ◌+◌, ◌-◌, ◌*◌, ◌/◌, ◌%◌, ◌^◌, ◌≤◌, ◌<◌, ◌≡◌, refl, sym, ◌≢◌, ap, ◌∙◌, inl, inr,
  bit_and, eq→==, ne→==, arith, ok, word_limit, add32, sub32,
}
use oslab2_virtualfs.Base.Bits.{
  low_bit_lem, two_pow-suc, two_pow-add, scale-suc, two_pow-pos, two_pow_mono, bit_and_pred,
}
use native.Mathlib.Nat.{mul-le-mul_right, mul-one}
use oslab2_virtualfs.Pmm.Rounding.{parity}
use oslab2_virtualfs.Pmm.{round_size_loop, log_loop, loop_fuel}

-- `size - 1` does not wrap, since `size` is not 0.
test_value :
    (j m : ℕ)
    → (2 * m + 1) * 2 ^ j < word_limit
    → bit_and ((2 * m + 1) * 2 ^ j) (sub32 ((2 * m + 1) * 2 ^ j) 1) ≡ 2 * m * 2 ^ j
test_value j m h = ap (bit_and ((2 * m + 1) * 2 ^ j)) unwrapped ∙ bit_and_pred j m
  where
    unwrapped : sub32 ((2 * m + 1) * 2 ^ j) 1 ≡ (2 * m + 1) * 2 ^ j - 1
    unwrapped = omega (arith, two_pow-pos j)

size_stop :
    (fuel j : ℕ) → 2 ^ j < word_limit → round_size_loop (suc fuel) (1 * 2 ^ j) ≡ ok (1 * 2 ^ j)
unfolding round_size_loop
size_stop fuel j h = rw (eq→== _ 0 (test_value j 0 (omega arith) ∙ omega arith), round_size_loop)

-- The other rounds move the lowest bit, and wrap only at the top.
size_round :
    (fuel j m next : ℕ)
    → 1 ≤ m
    → (2 * m + 1) * 2 ^ j < word_limit
    → next ≡ add32 ((2 * m + 1) * 2 ^ j) (2 ^ j)
    → round_size_loop (suc fuel) ((2 * m + 1) * 2 ^ j) ≡ round_size_loop fuel next
unfolding round_size_loop
size_round fuel j m next pos h e = rw (ne→== _ 0 more, round_size_loop, low_bit_lem j 32 m h, e)
  where
    more : bit_and ((2 * m + 1) * 2 ^ j) (sub32 ((2 * m + 1) * 2 ^ j) 1) ≢ 0
    more e = omega (arith, test_value j m h, two_pow-pos j, mul-le-mul_right (2 ^ j) pos)

pub size_step :
    (fuel j m : ℕ)
    → 1 ≤ m
    → (2 * m + 1) * 2 ^ j + 2 ^ j < word_limit
    → round_size_loop (suc fuel) ((2 * m + 1) * 2 ^ j) ≡ round_size_loop fuel ((m + 1) * 2 ^ suc j)
size_step fuel j m pos h =
    size_round fuel j m ((m + 1) * 2 ^ suc j) pos (omega arith) (omega (arith, scale-suc (m + 1) j))

pub size_wrap :
    (fuel j m : ℕ)
    → 1 ≤ m
    → (2 * m + 1) * 2 ^ j + 2 ^ j ≡ word_limit
    → round_size_loop (suc fuel) ((2 * m + 1) * 2 ^ j) ≡ round_size_loop fuel 0
size_wrap fuel j m pos h = size_round fuel j m 0 pos (omega (arith, two_pow-pos j)) (omega arith)

even_power : (c m : ℕ) → 1 ≤ m → m + 1 ≤ 2 ^ c → 2 ^ c < 2 * (m + 1) → 2 ^ c ≤ 2 * m
even_power zero m pos lo hi = absurd (omega arith)
even_power (suc c) m pos lo hi = omega (arith, two_pow-suc c)

-- In a round for each bit, `q * 2 ^ j` goes up to `2 ^ c * 2 ^ j`.
abbrev Rounds : ℕ → ℕ → ℕ → ℕ → ℕ → Type 0
Rounds n j q fuel x =
    (c : ℕ) × (round_size_loop fuel x ≡ ok (2 ^ c * 2 ^ j))
    × (q ≤ 2 ^ c)
    × (2 ^ c < 2 * q)
    × (c ≤ n)

one_Rounds : (n j fuel : ℕ) → j ≤ 31 → Rounds n j 1 (suc fuel) (1 * 2 ^ j)
one_Rounds n j fuel h = (
  0,
  size_stop fuel j (omega (arith, two_pow_mono j 31 h)),
  omega arith,
  omega arith,
  omega arith,
)

step_room : (n j m : ℕ) → j + suc n ≡ 31 → m + 1 ≤ 2 ^ n → (2 * m + 1) * 2 ^ j + 2 ^ j ≤ 2 ^ 31
step_room n j m e h = omega (
  arith,
  two_pow-add (suc j) n 31 (omega arith),
  mul-le-mul_right (2 ^ suc j) h,
  scale-suc (m + 1) j,
)

round_size_loop_lem :
    (n j q fuel : ℕ) → j + n ≡ 31 → n < fuel → 1 ≤ q → q ≤ 2 ^ n → Rounds n j q fuel (q * 2 ^ j)
round_size_loop_lem n j q zero e f pos h = absurd (omega arith)
round_size_loop_lem zero j q (suc fuel) e f pos h =
    let one : q ≡ 1 = omega arith in rw one (one_Rounds 0 j fuel (omega arith))
round_size_loop_lem (suc n) j q (suc fuel) e f pos h = elim (parity q) [
  | inl (m, even) ↦
      let (c, runs, lo, hi, le) =
        round_size_loop_lem n (suc j) m (suc fuel) (omega arith) (omega arith) (omega arith)
          (omega (arith, two_pow-suc n)) in
      (
        suc c,
        ap (round_size_loop (suc fuel)) (halve m even) ∙ runs ∙ ap ok (shift c),
        omega (arith, two_pow-suc c),
        omega (arith, two_pow-suc c),
        omega arith,
      )
  | inr (zero, odd) ↦
      let one : q ≡ 1 = omega arith in rw one (one_Rounds (suc n) j fuel (omega arith))
  | inr (suc m, odd) ↦
      let bound : suc m + 1 ≤ 2 ^ n = omega (arith, two_pow-suc n) in
      let (c, runs, lo, hi, le) =
        round_size_loop_lem n (suc j) (suc m + 1) fuel (omega arith) (omega arith) (omega arith)
          bound in
      (
        suc c,
        ap (λ x. round_size_loop (suc fuel) (x * 2 ^ j)) odd
            ∙ size_step fuel j (suc m) (omega arith) (omega (arith, step_room n j (suc m) e bound))
            ∙ runs
            ∙ ap ok (shift c),
        omega (arith, two_pow-suc c),
        omega (arith, two_pow-suc c, even_power c (suc m) (omega arith) lo hi),
        omega arith,
      )
]
  where
    halve : (m : ℕ) → q ≡ 2 * m → q * 2 ^ j ≡ m * 2 ^ suc j
    halve m even = omega (arith, scale-suc m j, ap (λ (x : ℕ). x * 2 ^ j) even)

    shift : (c : ℕ) → 2 ^ c * 2 ^ suc j ≡ 2 ^ suc c * 2 ^ j
    shift c = rw (two_pow-suc c) (omega (arith, scale-suc (2 ^ c) j))

-- A size of at most 2 GiB is rounded up to the least power of two that is not below it.
pub round_size_lem :
    (size : ℕ)
    → 1 ≤ size
    → size ≤ 2 ^ 31
    → (c : ℕ) × (round_size_loop loop_fuel size ≡ ok (2 ^ c))
      × (size ≤ 2 ^ c)
      × (2 ^ c < 2 * size)
      × (c ≤ 31)
round_size_lem size pos small =
    let (c, runs, lo, hi, le) =
      round_size_loop_lem 31 0 size loop_fuel refl (omega arith) pos (omega arith) in
    (
      c,
      ap (round_size_loop loop_fuel) (sym (mul-one size)) ∙ runs ∙ ap ok (mul-one (2 ^ c)),
      lo,
      hi,
      le,
    )

-- `log_chk` is one more than the logarithm of the count of chunks.
pub log_loop_lem :
    (c fuel l : ℕ) → c + 1 < fuel → l + c + 1 < 256 → log_loop fuel (2 ^ c) l ≡ ok (l + c + 1)
unfolding log_loop
log_loop_lem c zero l f h = absurd (omega arith)
log_loop_lem zero (suc zero) l f h = absurd (omega arith)
log_loop_lem zero (suc (suc fuel)) l f h = ap ok (omega arith)
log_loop_lem (suc c) (suc fuel) l f h =
    rw (ne→== (2 ^ suc c) 0 nonzero, log_loop, halved, next)
      (log_loop_lem c fuel (l + 1) (omega arith) (omega arith) ∙ ap ok (omega arith))
  where
    nonzero : 2 ^ suc c ≢ 0
    nonzero = omega (arith, two_pow-pos (suc c))

    halved : 2 ^ suc c / 2 ≡ 2 ^ c
    halved = omega (arith, two_pow-suc c)

    next : (l + 1) % 2 ^ 8 ≡ l + 1
    next = omega arith
