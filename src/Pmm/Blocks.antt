-- ===== src/Pmm/Blocks.antt =====
-- The search of `pmm_alloc` of src/pmm.c: it takes the first aligned block that is free.
use oslab2_virtualfs.Base.{
  ℕ, zero, suc, ◌+◌, ◌-◌, ◌*◌, ◌^◌, ◌≤◌, ◌<◌, ◌≡◌, ◌⊎◌, inl, inr, true, false, arith, Outcome, ok,
  ◌>>=◌, le→leb, length, add32, mul32,
}
use native.Mathlib.Nat.{mul-le-mul_right}
use native.Mathlib.Decide.{ℕ_discrete, dec_le}
use oslab2_virtualfs.Pmm.{Pmm, fill, search_loop, chunk_size, all_free}
use oslab2_virtualfs.Pmm.Cells.{Run, all_free_lem}

-- The table covers every chunk, chunk 0 is never given out, and there are at most 2 ^ 23 chunks, which is
-- all of a 32-bit address space.
pub record IsValid (s : Pmm) : Type 0 where
  pub covered : s.chk_end ≤ length s.mem_table
  pub small : s.chk_end ≤ 2 ^ 23
  pub start_pos : 1 ≤ s.chk_start
  pub ordered : s.chk_start ≤ s.chk_end

-- The aligned block number `q` of `n` chunks lies in the pool and is free.
pub record IsFree (s : Pmm) (q n : ℕ) : Type 0 where
  pub from_start : s.chk_start ≤ q * n
  pub to_end : q * n + n ≤ s.chk_end
  pub free : Run s.mem_table (q * n) n 0

-- What the search reports from block `r` on.
abbrev pub Searched : Pmm → ℕ → ℕ → ℕ → Outcome (ℕ × Pmm) → Type 0
Searched s n log r result =
    ((q : ℕ) × (result ≡ ok (q * n * 512, record s { mem_table = fill n (q * n) log s.mem_table }))
      × IsFree s q n
      × ((p : ℕ) → r ≤ p → p < q → IsFree s p n → ⊥))
    ⊎ ((result ≡ ok (0, s)) × ((p : ℕ) → r ≤ p → IsFree s p n → ⊥))

module _ (s : Pmm) (v : IsValid s) (n log : ℕ) (pos : 1 ≤ n) (big : n ≤ 2 ^ 22) where
  search_stop :
      (fuel r : ℕ)
      → s.chk_end < r * n + n
      → r * n ≤ 2 ^ 24
      → search_loop (suc fuel) n log (r * n) s ≡ ok (0, s)
  unfolding search_loop
  search_stop fuel r h low = ground arith

  search_take :
      (fuel r : ℕ)
      → r * n + n ≤ s.chk_end
      → all_free n (r * n) s.mem_table ≡ ok true
      → search_loop (suc fuel) n log (r * n) s
        ≡ ok (r * n * 512, record s { mem_table = fill n (r * n) log s.mem_table })
  unfolding search_loop
  search_take fuel r h free = rw (
    unwrapped,
    le→leb _ _ h,
    search_loop,
    unwrapped,
    cancel,
    free,
    ◌>>=◌,
    address,
    unwrapped,
    cancel,
  )
    where
      unwrapped : add32 (r * n) n ≡ r * n + n
      unwrapped = omega arith

      cancel : r * n + n - r * n ≡ n
      cancel = omega arith

      address : mul32 (r * n) chunk_size ≡ r * n * 512
      address = omega arith

  search_next :
      (fuel r : ℕ)
      → r * n + n ≤ s.chk_end
      → all_free n (r * n) s.mem_table ≡ ok false
      → search_loop (suc fuel) n log (r * n) s ≡ search_loop fuel n log ((r + 1) * n) s
  unfolding search_loop
  search_next fuel r h used =
      rw (unwrapped, le→leb _ _ h, search_loop, unwrapped, cancel, used, ◌>>=◌, unwrapped, next)
    where
      unwrapped : add32 (r * n) n ≡ r * n + n
      unwrapped = omega arith

      cancel : r * n + n - r * n ≡ n
      cancel = omega arith

      next : r * n + n ≡ (r + 1) * n
      next = omega arith

  past_end : (r : ℕ) → s.chk_end < r * n + n → (p : ℕ) → r ≤ p → IsFree s p n → ⊥
  past_end r h p le f = omega (arith, f.to_end, mul-le-mul_right n le)

  widen :
      (r : ℕ)
      → (IsFree s r n → ⊥)
      → {result : Outcome (ℕ × Pmm)} → Searched s n log (r + 1) result
      → Searched s n log r result
  widen r used (inl (q, e, f, first)) = inl (q, e, f, λ p lo hi. earlier p lo (first p) hi)
    where
      earlier : (p : ℕ) → r ≤ p → (r + 1 ≤ p → p < q → IsFree s p n → ⊥) → p < q → IsFree s p n → ⊥
      earlier p lo rest hi = elim (ℕ_discrete r p) [
        | yes e ↦ rw e at used
        | no ne ↦ rest (omega arith) hi
      ]
  widen r used (inr (e, rest)) = inr (e, λ p lo. later p lo)
    where
      later : (p : ℕ) → r ≤ p → IsFree s p n → ⊥
      later p lo = elim (ℕ_discrete r p) [ yes e ↦ rw e at used | no ne ↦ rest p (omega arith) ]

  -- The search from block `r` on takes the first free block, and reports NULL only if there is none.
  pub search_loop_lem :
      (fuel r : ℕ)
      → s.chk_start ≤ r * n
      → r * n ≤ 2 ^ 24
      → s.chk_end ≤ fuel + r * n
      → Searched s n log r (search_loop (suc fuel) n log (r * n) s)
  search_loop_lem zero r lo top enough =
      inr (search_stop 0 r (omega arith) top, past_end r (omega arith))
  search_loop_lem (suc fuel) r lo top enough = elim (dec_le (r * n + n) s.chk_end) [
    | no out ↦ inr (search_stop (suc fuel) r (omega arith) top, past_end r (omega arith))
    | yes inside ↦ elim (all_free_lem n (r * n) s.mem_table (omega (arith, v.covered))) [
      | inl (runs, free) ↦ inl (
        r,
        search_take (suc fuel) r inside runs,
        record { from_start = lo; to_end = inside; free = free },
        λ p le lt f. absurd (omega arith),
      )
      | inr (runs, (k, k_lo, k_hi, ne)) ↦ rw (search_next (suc fuel) r inside runs) (
          widen r (λ f. ne (f.free k k_lo k_hi))
            (search_loop_lem fuel (r + 1) (omega arith) (omega (arith, v.small)) (omega arith)))
    ]
  ]
