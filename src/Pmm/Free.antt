-- ===== src/Pmm/Free.antt =====
-- `pmm_free` of src/pmm.c: it takes back exactly the blocks that are allocated.
use oslab2_virtualfs.Base.{
  ℕ, zero, suc, ◌+◌, ◌-◌, ◌*◌, ◌/◌, ◌%◌, ◌^◌, ◌≤◌, ◌<◌, ◌≡◌, ◌≢◌, refl, ◌∙◌, ap, ◌⊎◌, inl, inr,
  arith, Outcome, ok, halted, undefined, ◌>>=◌, sub32, add32, one_shl32, bit_and,
  get_elem?-eq-get_or, List,
}
use oslab2_virtualfs.Base.Bits.{two_pow-pos, two_pow_mono, bit_and_mask}
use native.Mathlib.Nat.{mod-eq_of_lt, mul-mod_left, mul-div_left, div-add-mod'}
use native.Mathlib.Decide.{dec_lt, dec_le, ℕ_discrete}
use oslab2_virtualfs.Pmm.{Pmm, fill, free, free_chunk, clear}
use oslab2_virtualfs.Pmm.Cells.{Run, cell_at, clear_lem, clear-Broken, all_hold}
use oslab2_virtualfs.Pmm.Blocks.{IsValid}

-- Chunks `q * 2 ^ c` on are a block of order `c` that is allocated.
pub record IsBlock (s : Pmm) (q c : ℕ) : Type 0 where
  pub from_start : s.chk_start ≤ q * 2 ^ c
  pub to_end : q * 2 ^ c + 2 ^ c ≤ s.chk_end
  pub marked : Run s.mem_table (q * 2 ^ c) (2 ^ c) (suc c)

module _ (s : Pmm) (v : IsValid s) where
  -- The end of `pmm_free`, after its loop.
  abbrev finish : Outcome (List ℕ) → Outcome Pmm
  finish m = m >>= λ table. ok (record s { mem_table = table })

  pub free_enter :
      (b : ℕ)
      → s.chk_start ≤ b
      → b < s.chk_end
      → free (b * 512) s ≡ free_chunk b (cell_at s.mem_table b) s
  unfolding free
  free_enter b lo hi =
      ground (
        arith,
        bit_and_mask 9 (b * 512),
        get_elem?-eq-get_or s.mem_table b 0,
        v.start_pos,
        v.covered,
      )

  -- What `free_chunk` computes with, at a mark that a block can carry.
  module _ (chk c : ℕ) (small : c ≤ 31) (inside : chk < 2 ^ 24) where
    count : one_shl32 (suc c - 1) ≡ 2 ^ c
    count = ap one_shl32 pred_suc ∙ mod-eq_of_lt (omega (arith, two_pow_mono c 31 small))
      where
        pred_suc : suc c - 1 ≡ c
        pred_suc = omega arith

    remainder : bit_and chk (sub32 (2 ^ c) 1) ≡ chk % 2 ^ c
    remainder = ap (bit_and chk) unwrapped ∙ bit_and_mask c chk
      where
        unwrapped : sub32 (2 ^ c) 1 ≡ 2 ^ c - 1
        unwrapped = omega (arith, two_pow-pos c, two_pow_mono c 31 small)

    end_sum : add32 chk (2 ^ c) ≡ chk + 2 ^ c
    end_sum = omega (arith, two_pow_mono c 31 small)

    rounds : chk + 2 ^ c - chk ≡ 2 ^ c
    rounds = omega arith

    -- A chunk that is not aligned to its mark is refused.
    chunk_misaligned : chk % 2 ^ c ≢ 0 → free_chunk chk (suc c) s ≡ halted 1
    unfolding free_chunk
    chunk_misaligned odd = ground (arith, count, remainder)

    chunk_past_end : chk % 2 ^ c ≡ 0 → s.chk_end < chk + 2 ^ c → free_chunk chk (suc c) s ≡ halted 1
    unfolding free_chunk
    chunk_past_end aligned out = ground (arith, count, remainder, end_sum)

    chunk_clear :
        chk % 2 ^ c ≡ 0
        → chk + 2 ^ c ≤ s.chk_end
        → free_chunk chk (suc c) s ≡ finish (clear (2 ^ c) chk (suc c) s.mem_table)
    unfolding free_chunk
    chunk_clear aligned fits = ground (arith, count, remainder, end_sum, rounds)

  -- The address of an allocated block is taken back, and its chunks become free.
  pub free_block :
      (q c : ℕ)
      → IsBlock s q c
      → free (q * 2 ^ c * 512) s
        ≡ ok (record s { mem_table = fill (2 ^ c) (q * 2 ^ c) 0 s.mem_table })
  free_block q c b =
      free_enter (q * 2 ^ c) b.from_start (omega (arith, b.to_end, two_pow-pos c))
      ∙ ap (λ m. free_chunk (q * 2 ^ c) m s) first
      ∙ chunk_clear (q * 2 ^ c) c low (omega (arith, b.to_end, v.small, two_pow-pos c)) aligned
          b.to_end
      ∙ ap finish cleared
    where
      first : cell_at s.mem_table (q * 2 ^ c) ≡ suc c
      first = b.marked (q * 2 ^ c) (omega arith) (omega (arith, two_pow-pos c))

      low : c ≤ 31
      low = elim (dec_lt 31 c) [
        | yes big ↦ absurd (omega (arith, two_pow_mono 24 c (omega arith), b.to_end, v.small))
        | no le ↦ omega arith
      ]

      aligned : q * 2 ^ c % 2 ^ c ≡ 0
      aligned = mul-mod_left q (2 ^ c)

      cleared :
          clear (2 ^ c) (q * 2 ^ c) (suc c) s.mem_table
          ≡ ok (fill (2 ^ c) (q * 2 ^ c) 0 s.mem_table)
      cleared =
          clear_lem (2 ^ c) (q * 2 ^ c) (suc c) s.mem_table (omega (arith, b.to_end, v.covered))
            b.marked

  free_misaligned : (ptr : ℕ) → ptr % 512 ≢ 0 → free ptr s ≡ halted 1
  unfolding free
  free_misaligned ptr odd = ground (arith, bit_and_mask 9 ptr)

  free_outside : (b : ℕ) → 1 ≤ b → (b < s.chk_start) ⊎ (s.chk_end ≤ b) → free (b * 512) s ≡ halted 1
  unfolding free
  free_outside b pos out = ground (arith, bit_and_mask 9 (b * 512))

  pub chunk_undefined : (b m : ℕ) → (m ≡ 0) ⊎ (32 < m) → free_chunk b m s ≡ undefined
  unfolding free_chunk
  chunk_undefined b m bad = ground arith

  -- What `pmm_free` makes of a pointer.
  abbrev pub Verdict : ℕ → Type 0
  Verdict ptr =
      ((q : ℕ) × (c : ℕ) × (ptr ≡ q * 2 ^ c * 512)
        × IsBlock s q c
        × (free ptr s ≡ ok (record s { mem_table = fill (2 ^ c) (q * 2 ^ c) 0 s.mem_table })))
      ⊎ ((free ptr s ≡ halted 1)
          ⊎ ((free ptr s ≡ undefined)
              × ((cell_at s.mem_table (ptr / 512) ≡ 0) ⊎ (32 < cell_at s.mem_table (ptr / 512)))))

  -- A mark `suc c` at chunk `b`: a whole block, or a refusal.
  marked_Verdict :
      (b c : ℕ)
      → s.chk_start ≤ b
      → b < s.chk_end
      → c ≤ 31
      → cell_at s.mem_table b ≡ suc c
      → Verdict (b * 512)
  marked_Verdict b c lo hi small mark = elim (ℕ_discrete (b % 2 ^ c) 0) [
    | no odd ↦ inr (inl (entered ∙ chunk_misaligned b c small below odd))
    | yes aligned ↦ elim (dec_lt s.chk_end (b + 2 ^ c)) [
      | yes out ↦ inr (inl (entered ∙ chunk_past_end b c small below aligned out))
      | no fits ↦ elim (all_hold (2 ^ c) b (suc c) s.mem_table) [
        | inl run ↦
            let whole : b ≡ b / 2 ^ c * 2 ^ c = omega (arith, aligned, div-add-mod' b (2 ^ c)) in
            let block : IsBlock s (b / 2 ^ c) c = record {
              from_start = omega arith;
              to_end = omega arith;
              marked = rw whole at run;
            } in
            inl (
              b / 2 ^ c,
              c,
              ap (λ (x : ℕ). x * 512) whole,
              block,
              ap (λ x. free (x * 512) s) whole ∙ free_block (b / 2 ^ c) c block,
            )
        | inr broken ↦ inr (
            inl (
              entered
              ∙ chunk_clear b c small below aligned (omega arith)
              ∙ ap finish
                  (clear-Broken (2 ^ c) b (suc c) s.mem_table (omega (arith, v.covered)) broken)))
      ]
    ]
  ]
    where
      below : b < 2 ^ 24
      below = omega (arith, v.small)

      entered : free (b * 512) s ≡ free_chunk b (suc c) s
      entered = free_enter b lo hi ∙ ap (λ m. free_chunk b m s) mark

  unmarked_Verdict :
      (b m : ℕ)
      → s.chk_start ≤ b
      → b < s.chk_end
      → (m ≡ 0) ⊎ (32 < m)
      → cell_at s.mem_table b ≡ m
      → Verdict (b * 512)
  unmarked_Verdict b m lo hi bad mark = inr (
      inr (
        free_enter b lo hi ∙ ap (λ x. free_chunk b x s) mark ∙ chunk_undefined b m bad,
        rw (mul-div_left b {n = 512} (omega arith), mark) bad,
      ))

  inside_Verdict :
      (b m : ℕ) → s.chk_start ≤ b → b < s.chk_end → cell_at s.mem_table b ≡ m → Verdict (b * 512)
  inside_Verdict b zero lo hi mark = unmarked_Verdict b 0 lo hi (inl refl) mark
  inside_Verdict b (suc c) lo hi mark = elim (dec_le c 31) [
    | yes small ↦ marked_Verdict b c lo hi small mark
    | no large ↦ unmarked_Verdict b (suc c) lo hi (inr (omega arith)) mark
  ]

  given_back :
      (ptr q c : ℕ)
      → ptr ≡ q * 2 ^ c * 512
      → IsBlock s q c
      → free ptr s ≡ ok (record s { mem_table = fill (2 ^ c) (q * 2 ^ c) 0 s.mem_table })
  given_back ptr q c at block = ap (λ x. free x s) at ∙ free_block q c block

  verdict : (ptr : ℕ) → ptr ≢ 0 → Verdict ptr
  verdict ptr ne = elim (ℕ_discrete (ptr % 512) 0) [
    | no odd ↦ inr (inl (free_misaligned ptr odd))
    | yes aligned ↦
        let whole : ptr ≡ ptr / 512 * 512 = omega arith in
        rw whole (at_chunk (ptr / 512) (omega arith))
  ]
    where
      at_chunk : (b : ℕ) → 1 ≤ b → Verdict (b * 512)
      at_chunk b pos = elim (dec_lt b s.chk_start) [
        | yes below ↦ inr (inl (free_outside b pos (inl below)))
        | no ge ↦ elim (dec_lt b s.chk_end) [
          | yes hi ↦ inside_Verdict b (cell_at s.mem_table b) (omega arith) hi refl
          | no above ↦ inr (inl (free_outside b pos (inr (omega arith))))
        ]
      ]

  -- Over a valid pool, `pmm_free` of a pointer that is not NULL gives back every allocated block whose address the pointer
  -- is, and of any other pointer it halts the machine, or is undefined. It is undefined only where the chunk is
  -- not marked with the order of a block: above all when it is free already.
  pub free_lem :
      (ptr : ℕ)
      → ptr ≢ 0
      → ((q c : ℕ)
          → ptr ≡ q * 2 ^ c * 512
          → IsBlock s q c
          → free ptr s ≡ ok (record s { mem_table = fill (2 ^ c) (q * 2 ^ c) 0 s.mem_table }))
        × Verdict ptr
  free_lem ptr ne = (given_back ptr, verdict ptr ne)
