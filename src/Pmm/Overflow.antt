-- ===== src/Pmm/Overflow.antt =====
-- The rounding loop of `pmm_alloc` of src/pmm.c on sizes whose power of two needs 33 bits.
use oslab2_virtualfs.Base.{
  ℕ, zero, suc, ◌+◌, ◌*◌, ◌^◌, ◌≤◌, ◌<◌, ◌≡◌, refl, sym, ap, ◌∙◌, inl, inr, arith, ok,
}
use oslab2_virtualfs.Base.Bits.{two_pow-suc, two_pow-add, two_pow-pos, scale-suc}
use native.Mathlib.Nat.{mul-le-mul_right, mul-one}
use native.Mathlib.Decide.{ℕ_discrete}
use oslab2_virtualfs.Pmm.{round_size_loop, loop_fuel}
use oslab2_virtualfs.Pmm.Rounding.{parity}
use oslab2_virtualfs.Pmm.Sizes.{size_step, size_wrap}

stop_at_zero : (fuel : ℕ) → round_size_loop (suc fuel) 0 ≡ ok 0
unfolding round_size_loop
stop_at_zero fuel = refl

pub round_size_one : round_size_loop loop_fuel 1 ≡ ok 1
unfolding round_size_loop
round_size_one = refl

-- `(m + 1) * 2 ^ (j + 1)`, the value after a round.
after_round :
    (n j m : ℕ) → j + suc n ≡ 31 → m + 1 ≤ 2 ^ suc n → (2 * m + 1) * 2 ^ j + 2 ^ j ≤ 2 ^ 32
after_round n j m e h = omega (
  arith,
  two_pow-add (suc j) (suc n) 32 (omega arith),
  mul-le-mul_right (2 ^ suc j) h,
  scale-suc (m + 1) j,
)

at_top : (n j m : ℕ) → j + suc n ≡ 31 → m + 1 ≡ 2 ^ suc n → (2 * m + 1) * 2 ^ j + 2 ^ j ≡ 2 ^ 32
at_top n j m e h = omega (
  arith,
  two_pow-add (suc j) (suc n) 32 (omega arith),
  ap (λ (x : ℕ). x * 2 ^ suc j) h,
  scale-suc (m + 1) j,
)

below_top : (n j m : ℕ) → j + suc n ≡ 31 → m + 2 ≤ 2 ^ suc n → (2 * m + 1) * 2 ^ j + 2 ^ j < 2 ^ 32
below_top n j m e h = omega (arith, two_pow-pos j, after_round n j (m + 1) e (omega arith))

overflow_loop :
    (n j q fuel : ℕ)
    → j + n ≡ 31
    → n + 1 < fuel
    → 2 ^ n < q
    → q < 2 ^ suc n
    → round_size_loop fuel (q * 2 ^ j) ≡ ok 0
overflow_loop n j q zero e f lo hi = absurd (omega arith)
overflow_loop zero j q (suc fuel) e f lo hi = absurd (omega arith)
overflow_loop (suc n) j q (suc zero) e f lo hi = absurd (omega arith)
overflow_loop (suc n) j q (suc (suc fuel)) e f lo hi = elim (parity q) [
  | inl (m, even) ↦
      ap (round_size_loop (suc (suc fuel))) (halve m even)
      ∙ overflow_loop n (suc j) m (suc (suc fuel)) (omega arith) (omega arith)
          (omega (arith, two_pow-suc n)) (omega (arith, two_pow-suc (suc n)))
  | inr (m, odd) ↦
      ap (λ x. round_size_loop (suc (suc fuel)) (x * 2 ^ j)) odd
      ∙ elim (ℕ_discrete (m + 1) (2 ^ suc n)) [
        | yes top ↦
            size_wrap (suc fuel) j m (positive m odd) (at_top n j m e top) ∙ stop_at_zero fuel
        | no below ↦
            size_step (suc fuel) j m (positive m odd)
              (below_top n j m e (omega (arith, two_pow-suc (suc n))))
            ∙ overflow_loop n (suc j) (m + 1) (suc fuel) (omega arith) (omega arith)
                (omega (arith, two_pow-suc n)) (omega (arith, two_pow-suc (suc n)))
      ]
]
  where
    halve : (m : ℕ) → q ≡ 2 * m → q * 2 ^ j ≡ m * 2 ^ suc j
    halve m even = omega (arith, scale-suc m j, ap (λ (x : ℕ). x * 2 ^ j) even)

    positive : (m : ℕ) → q ≡ 2 * m + 1 → 1 ≤ m
    positive m odd = omega (arith, two_pow-suc n, two_pow-pos n)

pub round_size_overflow :
    (size : ℕ) → 2 ^ 31 < size → size < 2 ^ 32 → round_size_loop loop_fuel size ≡ ok 0
round_size_overflow size h k =
    ap (round_size_loop loop_fuel) (sym (mul-one size))
    ∙ overflow_loop 31 0 size loop_fuel refl (omega arith) h k
