-- ===== src/Pmm/Alloc.antt =====
-- `pmm_alloc` of src/pmm.c: a block of the least sufficient order, or NULL when there is none.
use oslab2_virtualfs.Base.{
  ℕ, suc, ◌+◌, ◌-◌, ◌*◌, ◌/◌, ◌^◌, ◌≤◌, ◌<◌, ◌≡◌, ◌≢◌, refl, sym, ◌∙◌, ◌⊎◌, inl, inr, arith,
  Outcome, ok, ◌>>=◌, ltb, lt→ltb, le→ltb_false, ne→==, if◌then◌else◌, sub32,
}
use oslab2_virtualfs.Base.Bits.{two_pow-pos, two_pow_mono, two_pow-add}
use native.Mathlib.Decide.{dec_lt}
use native.Mathlib.Nat.{mul-le-mul_right}
use oslab2_virtualfs.Pmm.{
  Pmm, search_loop, alloc, alloc_rounded, round_size_loop, loop_fuel, chunk_size,
}
use oslab2_virtualfs.Pmm.Rounding.{align_up_lem}
use oslab2_virtualfs.Pmm.Sizes.{round_size_lem, log_loop_lem}
use oslab2_virtualfs.Pmm.Overflow.{round_size_overflow, round_size_one}
use oslab2_virtualfs.Pmm.Blocks.{IsValid, IsFree, Searched, search_loop_lem}

-- A size and the order of its blocks: the least `c` such that `2 ^ c` chunks hold it.
pub record Order (size c : ℕ) : Type 0 where
  pub holds : size ≤ 512 * 2 ^ c
  pub least : (c ≡ 0) ⊎ (512 * 2 ^ c < 2 * size)
  pub bounded : c ≤ 22

alloc_step :
    (size x : ℕ) (s : Pmm)
    → 1 ≤ size
    → round_size_loop loop_fuel size ≡ ok x
    → alloc size s ≡ alloc_rounded (if ltb x chunk_size then chunk_size else x) s
unfolding alloc
alloc_step size x s pos e = rw (ne→== size 0 nonzero, alloc, e, ◌>>=◌)
  where
    nonzero : size ≢ 0
    nonzero = omega arith

-- The rounded size is a number of chunks.
rounded_lem :
    (size : ℕ) (s : Pmm)
    → 1 ≤ size
    → size ≤ 2 ^ 31
    → (c : ℕ) × Order size c × (alloc size s ≡ alloc_rounded (512 * 2 ^ c) s)
rounded_lem size s pos big =
    let (e, runs, lo, hi, le) = round_size_lem size pos big in
    let step = alloc_step size (2 ^ e) s pos runs in
    elim (dec_lt (2 ^ e) 512) [
      | yes small ↦ (
        0,
        record { holds = omega arith; least = inl refl; bounded = omega arith },
        step ∙ rw (lt→ltb _ _ small),
      )
      | no large ↦
          let nine : 9 ≤ e = at_least e (omega arith) in
          let whole : 512 * 2 ^ (e - 9) ≡ 2 ^ e = two_pow-add 9 (e - 9) e (omega arith) in
          (
            e - 9,
            record { holds = omega arith; least = inr (omega arith); bounded = omega arith },
            step ∙ rw (le→ltb_false (2 ^ e) 512 (omega arith), whole),
          )
    ]
  where
    at_least : (e : ℕ) → 512 ≤ 2 ^ e → 9 ≤ e
    at_least e h = elim (dec_lt e 9) [
      | yes less ↦ absurd (omega (arith, two_pow_mono e 8 (omega arith)))
      | no ge ↦ omega arith
    ]

-- The block of order `c` that the search starts at.
alloc_rounded_lem :
    (s : Pmm) (c : ℕ)
    → IsValid s
    → c ≤ 22
    → (r : ℕ) × (s.chk_start ≤ r * 2 ^ c)
      × (r * 2 ^ c < s.chk_start + 2 ^ c)
      × (alloc_rounded (512 * 2 ^ c) s ≡ search_loop (suc s.chk_end) (2 ^ c) (suc c) (r * 2 ^ c) s)
unfolding alloc_rounded
alloc_rounded_lem s c v le =
    let (r, runs, lo, hi) =
      align_up_lem c s.chk_start (omega arith)
        (omega (arith, v.small, v.ordered, two_pow_mono c 22 le)) in
    (
      r,
      lo,
      hi,
      rw (
        whole,
        log_loop_lem c loop_fuel 0 (omega arith) (omega arith),
        ◌>>=◌,
        mask,
        runs,
        ◌>>=◌,
        order,
      ),
    )
  where
    whole : 512 * 2 ^ c / chunk_size ≡ 2 ^ c
    whole = omega arith

    mask : sub32 (2 ^ c) 1 ≡ 2 ^ c - 1
    mask = omega (arith, two_pow-pos c, two_pow_mono c 22 le)

    order : 0 + c + 1 ≡ suc c
    order = omega arith

-- No block before the one at which the search starts lies in the pool.
from_zero :
    (s : Pmm) (n log r : ℕ) {result : Outcome (ℕ × Pmm)}
    → r * n < s.chk_start + n
    → Searched s n log r result
    → Searched s n log 0 result
from_zero s n log r below (inl (q, e, f, first)) =
    inl (q, e, f, λ p _ lt. early p (λ le. first p le lt))
  where
    early : (p : ℕ) → (r ≤ p → IsFree s p n → ⊥) → IsFree s p n → ⊥
    early p rest f = elim (dec_lt p r) [
      | yes before ↦ omega (arith, f.from_start, mul-le-mul_right n before)
      | no after ↦ rest (omega arith) f
    ]
from_zero s n log r below (inr (e, rest)) = inr (e, λ p _. early p (rest p))
  where
    early : (p : ℕ) → (r ≤ p → IsFree s p n → ⊥) → IsFree s p n → ⊥
    early p later f = elim (dec_lt p r) [
      | yes before ↦ omega (arith, f.from_start, mul-le-mul_right n before)
      | no after ↦ later (omega arith) f
    ]

-- For a size from 1 byte to 2 GiB, `pmm_alloc` ends, and takes the first free aligned block of the least
-- order that holds the size: it returns the block's address and marks just its chunks with the order
-- plus 1. If no such block is free it returns NULL and changes nothing.
pub alloc_lem :
    (size : ℕ) (s : Pmm)
    → IsValid s
    → 1 ≤ size
    → size ≤ 2 ^ 31
    → (c : ℕ) × Order size c × Searched s (2 ^ c) (suc c) 0 (alloc size s)
alloc_lem size s v pos big =
    let (c, order, rounded) = rounded_lem size s pos big in
    let (r, lo, hi, starts) = alloc_rounded_lem s c v order.bounded in
    let found =
      search_loop_lem s v (2 ^ c) (suc c) (two_pow-pos c) (two_pow_mono c 22 order.bounded)
        s.chk_end r lo (omega (arith, v.small, v.ordered, two_pow_mono c 22 order.bounded))
        (omega arith) in
    (c, order, rw (rounded, starts) (from_zero s (2 ^ c) (suc c) r hi found))

-- A size above 2 GiB overflows the rounding loop: it is served as a request for one byte is.
pub alloc_overflow : (size : ℕ) (s : Pmm) → 2 ^ 31 < size → size < 2 ^ 32 → alloc size s ≡ alloc 1 s
alloc_overflow size s h k =
    alloc_step size 0 s (omega arith) (round_size_overflow size h k)
    ∙ sym (alloc_step 1 1 s (omega arith) round_size_one)
