-- ===== src/Pmm/Rounding.antt =====
-- The bit loops of src/pmm.c: what they compute, and that they end.
use oslab2_virtualfs.Base.{
  ℕ, zero, suc, ◌+◌, ◌-◌, ◌*◌, ◌/◌, ◌%◌, ◌^◌, ◌≤◌, ◌<◌, ◌≡◌, ap, ◌∙◌, inl, inr, ◌⊎◌, ◌≢◌, bit_and,
  false, ◌==◌, eq→==, ne→==, arith, ok, word_limit, add32, sub32,
}
use oslab2_virtualfs.Base.Bits.{
  low_bit, low_bit_lem, two_pow-suc, two_pow-add, scale-suc, two_pow-pos, bit_and-zero,
  bit_and_mask_scaled, bit_and_odd_mask,
}
use native.Mathlib.Decide.{ℕ_discrete}
use native.Mathlib.Nat.{le_trans, mul-le-mul_right, lt-div-mul-add, div-mul-le_self}
use oslab2_virtualfs.Pmm.{align_up_loop, align_down_loop, loop_fuel}

pub parity : (n : ℕ) → ((m : ℕ) × (n ≡ 2 * m)) ⊎ ((m : ℕ) × (n ≡ 2 * m + 1))
parity n = elim (ℕ_discrete (n % 2) 0) [
  | yes e ↦ inl (n / 2, omega arith)
  | no e ↦ inr (n / 2, omega arith)
]

scaled_le : (q t j d k : ℕ) → j + d ≡ k → q ≤ t * 2 ^ d → q * 2 ^ j ≤ t * 2 ^ k
scaled_le q t j d k e h =
    rw (← two_pow-add j d k e) (le_trans (mul-le-mul_right (2 ^ j) h) (omega arith))

-- One round of each loop: the test passes, or the lowest bit moves.
align_stop : (fuel k q : ℕ) → align_up_loop (suc fuel) (2 ^ k - 1) (q * 2 ^ k) ≡ ok (q * 2 ^ k)
unfolding align_up_loop
align_stop fuel k q = rw (eq→== _ 0 masked, align_up_loop)
  where
    masked : bit_and (q * 2 ^ k) (2 ^ k - 1) ≡ 0
    masked = rw (bit_and_mask_scaled k 0 k q (omega arith), bit_and-zero q) (omega arith)

odd_masked :
    (j d k m : ℕ) → j + suc d ≡ k → (bit_and ((2 * m + 1) * 2 ^ j) (2 ^ k - 1) == 0) ≡ false
odd_masked j d k m e =
    ne→== _ 0 (
      rw (bit_and_mask_scaled j (suc d) k (2 * m + 1) e) (λ z. bit_and_odd_mask m d (pos_factor z)))
  where
    pos_factor : {a : ℕ} → a * 2 ^ j ≡ 0 → a ≡ 0
    pos_factor {a} z = elim (ℕ_discrete a 0) [
      | yes e ↦ e
      | no ne ↦ absurd (omega (arith, two_pow-pos j, mul-le-mul_right (2 ^ j) (one_le ne)))
    ]
      where
        one_le : a ≢ 0 → 1 ≤ a
        one_le ne = omega arith

up_step :
    (j m : ℕ)
    → (2 * m + 1) * 2 ^ j + 2 ^ j < word_limit
    → add32 ((2 * m + 1) * 2 ^ j) (low_bit 32 ((2 * m + 1) * 2 ^ j)) ≡ (m + 1) * 2 ^ suc j
up_step j m h = rw (low_bit_lem j 32 m (omega arith)) (omega (arith, scale-suc (m + 1) j))

align_step :
    (fuel j d k m : ℕ)
    → j + suc d ≡ k
    → (2 * m + 1) * 2 ^ j + 2 ^ j < word_limit
    → align_up_loop (suc fuel) (2 ^ k - 1) ((2 * m + 1) * 2 ^ j)
      ≡ align_up_loop fuel (2 ^ k - 1) ((m + 1) * 2 ^ suc j)
unfolding align_up_loop
align_step fuel j d k m e h = rw (odd_masked j d k m e, align_up_loop, up_step j m h)

-- A multiple `q` of `2 ^ j` goes up to the next multiple of `2 ^ k`, in a round for each bit.
abbrev UpTo : ℕ → ℕ → ℕ → ℕ → ℕ → ℕ → Type 0
UpTo fuel j d k q x =
    (r : ℕ) × (align_up_loop fuel (2 ^ k - 1) x ≡ ok (r * 2 ^ k))
    × (q ≤ r * 2 ^ d)
    × (r * 2 ^ d < q + 2 ^ d)

align_up_loop_lem :
    (d j k q t fuel : ℕ)
    → j + d ≡ k
    → d < fuel
    → q ≤ t * 2 ^ d
    → t * 2 ^ k < word_limit
    → UpTo fuel j d k q (q * 2 ^ j)
align_up_loop_lem d j k q t zero e f h top = absurd (omega arith)
align_up_loop_lem zero j k q t (suc fuel) e f h top =
    let same : j ≡ k = omega arith in (q, rw same (align_stop fuel k q), omega arith, omega arith)
align_up_loop_lem (suc d) j k q t (suc fuel) e f h top = elim (parity q) [
  | inl (m, even) ↦
      let (r, runs, lo, hi) =
        align_up_loop_lem d (suc j) k m t (suc fuel) (omega arith) (omega arith)
          (omega (arith, scale-suc t d)) top in
      (
        r,
        ap (align_up_loop (suc fuel) (2 ^ k - 1)) (halve m even) ∙ runs,
        omega (arith, scale-suc r d),
        omega (arith, scale-suc r d, two_pow-suc d),
      )
  | inr (m, odd) ↦
      let (r, runs, lo, hi) =
        align_up_loop_lem d (suc j) k (m + 1) t fuel (omega arith) (omega arith)
          (omega (arith, scale-suc t d)) top in
      (
        r,
        ap (λ x. align_up_loop (suc fuel) (2 ^ k - 1) (x * 2 ^ j)) odd
            ∙ align_step fuel j d k m e (room m (omega (arith, scale-suc t d)))
            ∙ runs,
        omega (arith, scale-suc r d),
        omega (arith, scale-suc r d, two_pow-suc d),
      )
]
  where
    room : (m : ℕ) → m + 1 ≤ t * 2 ^ d → (2 * m + 1) * 2 ^ j + 2 ^ j < word_limit
    room m le = omega (arith, scaled_le (m + 1) t (suc j) d k (omega arith) le, scale-suc (m + 1) j)

    halve : (m : ℕ) → q ≡ 2 * m → q * 2 ^ j ≡ m * 2 ^ suc j
    halve m even = omega (arith, scale-suc m j, ap (λ (x : ℕ). x * 2 ^ j) even)

-- An address for which `p + 2 ^ k` is at most 2 ^ 32 goes up to the least multiple of `2 ^ k` that is not
-- below it, within the fuel of the loop.
pub align_up_lem :
    (k p : ℕ)
    → k ≤ 32
    → p + 2 ^ k ≤ word_limit
    → (r : ℕ) × (align_up_loop loop_fuel (2 ^ k - 1) p ≡ ok (r * 2 ^ k))
      × (p ≤ r * 2 ^ k)
      × (r * 2 ^ k < p + 2 ^ k)
align_up_lem k p small room =
    let (r, runs, lo, hi) =
      align_up_loop_lem k 0 k p t loop_fuel (omega arith) (omega arith) covers below in
    (r, rw one_times at runs, lo, hi)
  where
    t : ℕ
    t = (p + 2 ^ k - 1) / 2 ^ k

    covers : p ≤ t * 2 ^ k
    covers =
        omega (arith, two_pow-pos k, lt-div-mul-add {a = p + 2 ^ k - 1} {b = 2 ^ k} (two_pow-pos k))

    below : t * 2 ^ k < word_limit
    below = omega (arith, two_pow-pos k, div-mul-le_self (p + 2 ^ k - 1) (2 ^ k))

    one_times : p * 2 ^ 0 ≡ p
    one_times = omega arith

down_stop : (fuel k q : ℕ) → align_down_loop (suc fuel) (2 ^ k - 1) (q * 2 ^ k) ≡ ok (q * 2 ^ k)
unfolding align_down_loop
down_stop fuel k q = rw (eq→== _ 0 masked, align_down_loop)
  where
    masked : bit_and (q * 2 ^ k) (2 ^ k - 1) ≡ 0
    masked = rw (bit_and_mask_scaled k 0 k q (omega arith), bit_and-zero q) (omega arith)

down_step :
    (fuel j d k m : ℕ)
    → j + suc d ≡ k
    → (2 * m + 1) * 2 ^ j < word_limit
    → align_down_loop (suc fuel) (2 ^ k - 1) ((2 * m + 1) * 2 ^ j)
      ≡ align_down_loop fuel (2 ^ k - 1) (m * 2 ^ suc j)
unfolding align_down_loop
down_step fuel j d k m e h = rw (odd_masked j d k m e, align_down_loop, cleared)
  where
    cleared : sub32 ((2 * m + 1) * 2 ^ j) (low_bit 32 ((2 * m + 1) * 2 ^ j)) ≡ m * 2 ^ suc j
    cleared = rw (low_bit_lem j 32 m h) (omega (arith, scale-suc m j))

align_down_loop_lem :
    (d j k q fuel : ℕ)
    → j + d ≡ k
    → d < fuel
    → q * 2 ^ j < word_limit
    → (r : ℕ) × (align_down_loop fuel (2 ^ k - 1) (q * 2 ^ j) ≡ ok (r * 2 ^ k))
      × (r * 2 ^ d ≤ q)
      × (q < r * 2 ^ d + 2 ^ d)
align_down_loop_lem d j k q zero e f h = absurd (omega arith)
align_down_loop_lem zero j k q (suc fuel) e f h =
    let same : j ≡ k = omega arith in (q, rw same (down_stop fuel k q), omega arith, omega arith)
align_down_loop_lem (suc d) j k q (suc fuel) e f h = elim (parity q) [
  | inl (m, even) ↦
      let same : q * 2 ^ j ≡ m * 2 ^ suc j =
        omega (arith, scale-suc m j, ap (λ (x : ℕ). x * 2 ^ j) even) in
      let (r, runs, lo, hi) =
        align_down_loop_lem d (suc j) k m (suc fuel) (omega arith) (omega arith) (omega arith) in
      (
        r,
        ap (align_down_loop (suc fuel) (2 ^ k - 1)) same ∙ runs,
        omega (arith, scale-suc r d),
        omega (arith, scale-suc r d, two_pow-suc d),
      )
  | inr (m, odd) ↦
      let fits : (2 * m + 1) * 2 ^ j < word_limit = omega (arith, ap (λ (x : ℕ). x * 2 ^ j) odd) in
      let (r, runs, lo, hi) =
        align_down_loop_lem d (suc j) k m fuel (omega arith) (omega arith)
          (omega (arith, scale-suc m j)) in
      (
        r,
        at_multiple odd ∙ down_step fuel j d k m e fits ∙ runs,
        omega (arith, scale-suc r d),
        omega (arith, scale-suc r d, two_pow-suc d),
      )
]
  where
    at_multiple :
        {x : ℕ}
        → q ≡ x
        → align_down_loop (suc fuel) (2 ^ k - 1) (q * 2 ^ j)
          ≡ align_down_loop (suc fuel) (2 ^ k - 1) (x * 2 ^ j)
    at_multiple = ap (λ x. align_down_loop (suc fuel) (2 ^ k - 1) (x * 2 ^ j))

-- Every address goes down to the greatest multiple of `2 ^ k` that is not above it.
pub align_down_lem :
    (k p : ℕ)
    → k ≤ 32
    → p < word_limit
    → (r : ℕ) × (align_down_loop loop_fuel (2 ^ k - 1) p ≡ ok (r * 2 ^ k))
      × (r * 2 ^ k ≤ p)
      × (p < r * 2 ^ k + 2 ^ k)
align_down_lem k p small h =
    let (r, runs, lo, hi) =
      align_down_loop_lem k 0 k p loop_fuel (omega arith) (omega arith) (omega arith) in
    (r, rw one_times at runs, lo, hi)
  where
    one_times : p * 2 ^ 0 ≡ p
    one_times = omega arith
