-- ===== src/Pmm/Tests.antt =====
-- src/pmm.c on concrete pools.
use oslab2_virtualfs.Base.{
  ℕ, zero, suc, ◌-◌, ◌+◌, ◌*◌, ◌^◌, ◌≤◌, ◌<◌, ◌≡◌, refl, arith, ok, [], ◌∷◌, get_or,
}
use oslab2_virtualfs.Pmm.{
  Pmm, alloc, free, search_loop, all_free, fill, clear, round_size_loop, log_loop, align_up_loop,
  alloc_rounded, free_chunk, loop_fuel,
}
use oslab2_virtualfs.Pmm.Blocks.{IsValid, Searched}
use oslab2_virtualfs.Pmm.Rounding.{align_up_lem}
use oslab2_virtualfs.Pmm.Alloc.{Order, alloc_lem, alloc_overflow}
use oslab2_virtualfs.Pmm.Free.{IsBlock, Verdict, free_lem}
use oslab2_virtualfs.Pmm.Safety.{Gives, Releases, alloc-Gives, free-Releases}

abbrev pub small_pool : Pmm
small_pool = record { chk_start = 1; chk_end = 8; mem_table = 255 ∷ 0 ∷ 0 ∷ 0 ∷ 0 ∷ 0 ∷ 0 ∷ 0 ∷ [] }

-- The pool after a request for 700 bytes.
abbrev used_pool : Pmm
used_pool = record { chk_start = 1; chk_end = 8; mem_table = 255 ∷ 0 ∷ 2 ∷ 2 ∷ 0 ∷ 0 ∷ 0 ∷ 0 ∷ [] }

small_pool-IsValid : IsValid small_pool
small_pool-IsValid = record {
  covered = omega arith;
  small = omega arith;
  start_pos = omega arith;
  ordered = omega arith;
}

used_pool-IsValid : IsValid used_pool
used_pool-IsValid = record {
  covered = omega arith;
  small = omega arith;
  start_pos = omega arith;
  ordered = omega arith;
}

alloc_700 : alloc 700 small_pool ≡ ok (1024, used_pool)
unfolding alloc alloc_rounded round_size_loop log_loop align_up_loop search_loop all_free fill
alloc_700 = refl

abbrev pub one_used : Pmm
one_used = record small_pool { mem_table = 255 ∷ 1 ∷ 0 ∷ 0 ∷ 0 ∷ 0 ∷ 0 ∷ 0 ∷ [] }

pub alloc_512 : alloc 512 small_pool ≡ ok (512, one_used)
unfolding alloc alloc_rounded round_size_loop log_loop align_up_loop search_loop all_free fill
alloc_512 = refl

free_1024 : free 1024 used_pool ≡ ok small_pool
unfolding free free_chunk clear
free_1024 = refl

used_pool-IsBlock : IsBlock used_pool 1 1
used_pool-IsBlock = record { from_start = omega arith; to_end = omega arith; marked = two }
  where
    two : (k : ℕ) → 2 ≤ k → k < 4 → get_or used_pool.mem_table k 0 ≡ 2
    two zero lo hi = absurd (omega arith)
    two (suc zero) lo hi = absurd (omega arith)
    two (suc (suc zero)) lo hi = refl
    two (suc (suc (suc zero))) lo hi = refl
    two (suc (suc (suc (suc k)))) lo hi = absurd (omega arith)

alloc_lem_example :
    (c : ℕ) × Order 700 c × Searched small_pool (2 ^ c) (suc c) 0 (alloc 700 small_pool)
alloc_lem_example = alloc_lem 700 small_pool small_pool-IsValid (omega arith) (omega arith)

alloc_overflow_example : alloc 3000000000 small_pool ≡ alloc 1 small_pool
alloc_overflow_example = alloc_overflow 3000000000 small_pool (omega arith) (omega arith)

free_lem_example :
    ((q c : ℕ)
      → 1024 ≡ q * 2 ^ c * 512
      → IsBlock used_pool q c
      → free 1024 used_pool
        ≡ ok (record used_pool { mem_table = fill (2 ^ c) (q * 2 ^ c) 0 used_pool.mem_table }))
    × Verdict used_pool used_pool-IsValid 1024
free_lem_example = free_lem used_pool used_pool-IsValid 1024 (omega arith)

alloc-Gives_example : Gives small_pool 700 1024 used_pool
alloc-Gives_example =
    alloc-Gives small_pool small_pool-IsValid 700 1024 used_pool (omega arith) (omega arith)
      (omega arith) alloc_700

free-Releases_example :
    (q : ℕ) × (c : ℕ) × (1024 ≡ q * 2 ^ c * 512)
    × IsBlock used_pool q c
    × Releases used_pool used_pool-IsValid q c small_pool
free-Releases_example =
    free-Releases used_pool used_pool-IsValid 1024 small_pool (omega arith) free_1024

align_up_lem_example :
    (r : ℕ) × (align_up_loop loop_fuel (2 ^ 9 - 1) 1000 ≡ ok (r * 2 ^ 9))
    × (1000 ≤ r * 2 ^ 9)
    × (r * 2 ^ 9 < 1000 + 2 ^ 9)
align_up_lem_example = align_up_lem 9 1000 (omega arith) (omega arith)
