-- ===== src/Pmm/Init.antt =====
-- `pmm_init` of src/pmm.c: where the pool begins and ends, and which marks the table starts with.
use oslab2_virtualfs.Base.{ℕ, ◌+◌, ◌-◌, ◌*◌, ◌/◌, ◌≤◌, ◌<◌, ◌≡◌, ◌⊎◌, ok, halted, List}
use oslab2_virtualfs.Pmm.{Pmm, init, init_table}
use oslab2_virtualfs.Pmm.Cells.{Run, cell_at}
use oslab2_virtualfs.Pmm.Blocks.{IsValid}

-- The pool that `pmm_init` sets up once its bounds are known.
abbrev pub pool : ℕ → ℕ → List ℕ → Pmm
pool start last memory = record {
  chk_start = start;
  chk_end = last;
  mem_table = init_table start last memory;
}

-- The bytes of the table: -1 before the pool, 0 up to index `last - start`, and from there on whatever
-- the memory held.
pub record Marks (start last : ℕ) (memory : List ℕ) : Type 0 where
  pub reserved : Run (init_table start last memory) 0 start 255
  pub zeroed : (k : ℕ) → start ≤ k → k < last - start → cell_at (init_table start last memory) k ≡ 0
  pub untouched :
      (k : ℕ)
      → start ≤ k
      → last - start ≤ k
      → cell_at (init_table start last memory) k ≡ cell_at memory k

-- What `pmm_init` comes to over a heap from `heap_start` to `heap_end`.
pub record Boots (heap_start heap_end : ℕ) (memory : List ℕ) : Type 0 where
  pub first : ℕ
  pub last : ℕ
  pub start : ℕ
  pub start_is : start ≡ first + (last + 511) / 512
  pub first_bounds : (heap_start ≤ first * 512) × (first * 512 < heap_start + 512)
  pub last_bounds : (last * 512 ≤ heap_end) × (heap_end < last * 512 + 512)
  pub outcome :
      ((last ≤ start) × (init heap_start heap_end memory ≡ halted 1))
      ⊎ ((start < last)
          × (init heap_start heap_end memory ≡ ok (pool start last memory))
          × IsValid (pool start last memory)
          × Marks start last memory)
