-- ===== src/Pmm.antt =====
-- src/pmm.c: the physical memory manager, a first-fit allocator of aligned power-of-two blocks of
-- 512-byte chunks over a table of one byte for each chunk. A pointer is its address; NULL is 0.
pub mod Rounding
pub mod Sizes
mod Overflow
pub mod Cells
pub mod Blocks
pub mod Alloc
pub mod Free
pub mod Safety
pub mod Init
pub mod Tests
use oslab2_virtualfs.Base.{
  ℕ, zero, suc, ◌+◌, ◌-◌, ◌/◌, ◌%◌, ◌^◌, bit_and, Bool, true, false, ◌||◌, List, ◌==◌, ltb, leb,
  if◌then◌else◌, get_elem?, set, Outcome, ok, halted, undefined, unfinished, ◌>>=◌, defined,
  word_bits, add32, sub32, mul32, one_shl32,
}
use oslab2_virtualfs.Base.Bits.{low_bit}

abbrev pub chunk_size : ℕ
chunk_size = 512

-- `while (addr & mask) addr += addr & -addr;`
pub align_up_loop : ℕ → ℕ → ℕ → Outcome ℕ
align_up_loop zero mask addr = unfinished
align_up_loop (suc fuel) mask addr = elim (bit_and addr mask == 0) [
  | true ↦ ok addr
  | false ↦ align_up_loop fuel mask (add32 addr (low_bit word_bits addr))
]

-- `while (addr & mask) addr -= addr & -addr;`
pub align_down_loop : ℕ → ℕ → ℕ → Outcome ℕ
align_down_loop zero mask addr = unfinished
align_down_loop (suc fuel) mask addr = elim (bit_and addr mask == 0) [
  | true ↦ ok addr
  | false ↦ align_down_loop fuel mask (sub32 addr (low_bit word_bits addr))
]

-- A round clears the lowest bit, so there are at most `word_bits` of them.
abbrev pub loop_fuel : ℕ
loop_fuel = 33

pub align_up : ℕ → Outcome ℕ
align_up ptr = align_up_loop loop_fuel (chunk_size - 1) ptr

pub align_down : ℕ → Outcome ℕ
align_down ptr = align_down_loop loop_fuel (chunk_size - 1) ptr

-- `while (size & (size - 1)) size += size & -size;`
pub round_size_loop : ℕ → ℕ → Outcome ℕ
round_size_loop zero size = unfinished
round_size_loop (suc fuel) size = elim (bit_and size (sub32 size 1) == 0) [
  | true ↦ ok size
  | false ↦ round_size_loop fuel (add32 size (low_bit word_bits size))
]

-- `while (chk_cnt) { log_chk++; chk_cnt >>= 1; }`, with `log_chk` a uint8_t.
pub log_loop : ℕ → ℕ → ℕ → Outcome ℕ
log_loop zero chk_cnt log_chk = unfinished
log_loop (suc fuel) chk_cnt log_chk = elim (chk_cnt == 0) [
  | true ↦ ok log_chk
  | false ↦ log_loop fuel (chk_cnt / 2) ((log_chk + 1) % 2 ^ 8)
]

-- The statics of pmm.c. Every table index that the code uses should be below the list's length.
pub record Pmm : Type 0 where
  pub chk_start : ℕ
  pub chk_end : ℕ
  pub mem_table : List ℕ

-- The first inner loop of `pmm_alloc`, with `n` rounds left: `false` is `goto next`.
pub all_free : ℕ → ℕ → List ℕ → Outcome Bool
all_free zero chk_i table = ok true
all_free (suc n) chk_i table = do
  cell ← defined (get_elem? table chk_i)
  elim (cell == 0) [ true ↦ all_free n (chk_i + 1) table | false ↦ ok false ]

-- The second inner loop: it runs over cells that the first has just read.
pub fill : ℕ → ℕ → ℕ → List ℕ → List ℕ
fill zero chk_i v table = table
fill (suc n) chk_i v table = fill n (chk_i + 1) v (set table chk_i v)

-- The search loop of `pmm_alloc`, from `chk_pos` on.
pub search_loop : ℕ → ℕ → ℕ → ℕ → Pmm → Outcome (ℕ × Pmm)
search_loop zero chk_cnt log_chk chk_pos s = unfinished
search_loop (suc fuel) chk_cnt log_chk chk_pos s = elim (leb (add32 chk_pos chk_cnt) s.chk_end) [
  | true ↦ do
    let rounds = add32 chk_pos chk_cnt - chk_pos
    free ← all_free rounds chk_pos s.mem_table
    elim free [
      | true ↦ ok (
        mul32 chk_pos chunk_size,
        record s { mem_table = fill rounds chk_pos log_chk s.mem_table },
      )
      | false ↦ search_loop fuel chk_cnt log_chk (add32 chk_pos chk_cnt) s
    ]
  | false ↦ ok (0, s)
]

-- `pmm_alloc` once the size is rounded.
pub alloc_rounded : ℕ → Pmm → Outcome (ℕ × Pmm)
alloc_rounded size s = do
  let chk_cnt = size / chunk_size
  log_chk ← log_loop loop_fuel chk_cnt 0
  chk_pos ← align_up_loop loop_fuel (sub32 chk_cnt 1) s.chk_start
  search_loop (suc s.chk_end) chk_cnt log_chk chk_pos s

pub alloc : ℕ → Pmm → Outcome (ℕ × Pmm)
unfolding alloc_rounded
alloc size s = elim (size == 0) [
  | true ↦ ok (0, s)
  | false ↦ do
    rounded ← round_size_loop loop_fuel size
    alloc_rounded (if ltb rounded chunk_size then chunk_size else rounded) s
]

-- The loop of `pmm_free`; `halted 1` is `goto free_err`, which ends in `_Exit(EXIT_FAILURE)`.
pub clear : ℕ → ℕ → ℕ → List ℕ → Outcome (List ℕ)
clear zero chk_i log_chk table = ok table
clear (suc n) chk_i log_chk table = do
  cell ← defined (get_elem? table chk_i)
  elim (cell == log_chk) [
    | true ↦ clear n (chk_i + 1) log_chk (set table chk_i 0)
    | false ↦ halted 1
  ]

-- `pmm_free` from the read of `log_chk` on. At 0 the shift count is -1, and above 32 it is not below
-- the width: C leaves both undefined.
pub free_chunk : ℕ → ℕ → Pmm → Outcome Pmm
free_chunk chk log_chk s = elim (log_chk == 0 || ltb word_bits log_chk) [
  | true ↦ undefined
  | false ↦
      let chk_cnt = one_shl32 (log_chk - 1) in
      elim (bit_and chk (sub32 chk_cnt 1) == 0) [
        | false ↦ halted 1
        | true ↦ elim (ltb s.chk_end (add32 chk chk_cnt)) [
          | true ↦ halted 1
          | false ↦ do
            table ← clear (add32 chk chk_cnt - chk) chk log_chk s.mem_table
            ok (record s { mem_table = table })
        ]
      ]
]

pub free : ℕ → Pmm → Outcome Pmm
unfolding free_chunk
free ptr s = elim (ptr == 0) [
  | true ↦ ok s
  | false ↦
      let chk = ptr / chunk_size in
      elim (bit_and ptr (chunk_size - 1) == 0) [
        | false ↦ halted 1
        | true ↦ elim (ltb chk s.chk_start || leb s.chk_end chk) [
          | true ↦ halted 1
          | false ↦ do log_chk ← defined (get_elem? s.mem_table chk); free_chunk chk log_chk s
        ]
      ]
]

-- `memset(mem_table, 0, n)`, and the loop that marks the chunks before `chk_start` with -1.
pub init_table : ℕ → ℕ → List ℕ → List ℕ
unfolding fill
init_table chk_start chk_end memory =
    fill chk_start 0 255 (fill (sub32 chk_end chk_start) 0 0 memory)

-- `pmm_init` over a heap [heap_start, heap_end); `memory` is what stands in the table's place.
pub init : ℕ → ℕ → List ℕ → Outcome Pmm
init heap_start heap_end memory = do
  first ← align_up heap_start
  last ← align_down heap_end
  let chk_end = last / chunk_size
  let chk_start = add32 (first / chunk_size) ((chk_end + chunk_size - 1) / chunk_size)
  elim (leb chk_end chk_start) [
    | true ↦ halted 1
    | false ↦ ok (record {
      chk_start = chk_start;
      chk_end = chk_end;
      mem_table = init_table chk_start chk_end memory;
    })
  ]
