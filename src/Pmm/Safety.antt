-- ===== src/Pmm/Safety.antt =====
-- Allocation and release together: blocks never overlap, each call leaves the other blocks alone, and
-- a release undoes an allocation.
use oslab2_virtualfs.Base.{
  ℕ, suc, ◌+◌, ◌*◌, ◌^◌, ◌≤◌, ◌<◌, ◌≡◌, ◌≢◌, refl, sym, ◌∙◌, ap, ◌⊎◌, inl, inr, arith, ok,
  undefined, List, length, get_or_ext,
}
use oslab2_virtualfs.Base.Bits.{two_pow-pos}
use native.Mathlib.Decide.{dec_lt}
use native.Mathlib.Nat.{mul-le-mul_right}
use oslab2_virtualfs.Pmm.{Pmm, alloc, free, fill}
use oslab2_virtualfs.Pmm.Cells.{Run, cell_at, length-fill, fill_outside, fill-Run}
use oslab2_virtualfs.Pmm.Blocks.{IsValid, IsFree}
use oslab2_virtualfs.Pmm.Alloc.{Order, alloc_lem}
use oslab2_virtualfs.Pmm.Free.{IsBlock, free_block, free_lem, free_enter, chunk_undefined}

-- Two aligned blocks of one order that share a chunk are one.
same_block : (n q r k : ℕ) → q * n ≤ k → k < q * n + n → r * n ≤ k → k < r * n + n → q ≡ r
same_block n q r k a b c d = elim (dec_lt q r) [
  | yes lt ↦ absurd (omega (arith, mul-le-mul_right n lt))
  | no ge ↦ elim (dec_lt r q) [
    | yes lt ↦ absurd (omega (arith, mul-le-mul_right n lt))
    | no ge' ↦ omega arith
  ]
]

-- Allocated blocks do not overlap: a chunk belongs to one block at most.
pub blocks_disjoint :
    (s : Pmm) (q c r d k : ℕ)
    → IsBlock s q c
    → IsBlock s r d
    → q * 2 ^ c ≤ k
    → k < q * 2 ^ c + 2 ^ c
    → r * 2 ^ d ≤ k
    → k < r * 2 ^ d + 2 ^ d
    → (q ≡ r) × (c ≡ d)
blocks_disjoint s q c r d k b b' lo hi lo' hi' = (one_order d orders b' lo' hi', orders)
  where
    orders : c ≡ d
    orders = omega (arith, b.marked k lo hi, b'.marked k lo' hi')

    one_order : (d : ℕ) → c ≡ d → IsBlock s r d → r * 2 ^ d ≤ k → k < r * 2 ^ d + 2 ^ d → q ≡ r
    one_order d e b'' lo'' hi'' = same_block (2 ^ d) q r k (rw e at lo) (rw e at hi) lo'' hi''

-- The pool after `n` chunks from `i` on are marked with `m`.
abbrev marked : Pmm → ℕ → ℕ → ℕ → Pmm
marked s n i m = record s { mem_table = fill n i m s.mem_table }

marked-IsValid : (s : Pmm) (n i m : ℕ) → IsValid s → IsValid (marked s n i m)
marked-IsValid s n i m v = record {
  covered = omega (arith, v.covered, length-fill n i m s.mem_table);
  small = v.small;
  start_pos = v.start_pos;
  ordered = v.ordered;
}

-- A block none of whose chunks is marked stays a block.
marked_keeps :
    (s : Pmm) (n i m r d : ℕ)
    → ((k : ℕ) → r * 2 ^ d ≤ k → k < r * 2 ^ d + 2 ^ d → (k < i) ⊎ (i + n ≤ k))
    → IsBlock s r d
    → IsBlock (marked s n i m) r d
marked_keeps s n i m r d apart b = record {
  from_start = b.from_start;
  to_end = b.to_end;
  marked = λ k lo hi. fill_outside n i m k s.mem_table (apart k lo hi) ∙ b.marked k lo hi;
}

outside : (k i n : ℕ) → (i ≤ k → k < i + n → ⊥) → (k < i) ⊎ (i + n ≤ k)
outside k i n h = elim (dec_lt k i) [
  | yes lt ↦ inl lt
  | no ge ↦ elim (dec_lt k (i + n)) [
    | yes lt ↦ absurd (h (omega arith) lt)
    | no ge' ↦ inr (omega arith)
  ]
]

-- Filling a free run and clearing it again changes nothing.
fill-fill :
    (n i m : ℕ) (table : List ℕ)
    → i + n ≤ length table
    → Run table i n 0
    → fill n i 0 (fill n i m table) ≡ table
fill-fill n i m table h free =
    get_or_ext 0 _ _ (length-fill n i 0 (fill n i m table) ∙ length-fill n i m table) same
  where
    same :
        (k : ℕ)
        → k < length (fill n i 0 (fill n i m table))
        → cell_at (fill n i 0 (fill n i m table)) k ≡ cell_at table k
    same k lt = elim (dec_lt k i) [
      | yes before ↦
          fill_outside n i 0 k (fill n i m table) (inl before)
          ∙ fill_outside n i m k table (inl before)
      | no ge ↦ elim (dec_lt k (i + n)) [
        | yes within ↦
            fill-Run n i 0 (fill n i m table) (omega (arith, length-fill n i m table)) k
              (omega arith) within
            ∙ sym (free k (omega arith) within)
        | no after ↦
            fill_outside n i 0 k (fill n i m table) (inr (omega arith))
            ∙ fill_outside n i m k table (inr (omega arith))
      ]
    ]

-- What an allocation that does not return NULL gives.
pub record Gives (s : Pmm) (size p : ℕ) (s' : Pmm) : Type 0 where
  pub number : ℕ
  pub order : ℕ
  pub fits : Order size order
  pub address : p ≡ number * 2 ^ order * 512
  pub was_free : IsFree s number (2 ^ order)
  pub block : IsBlock s' number order
  pub valid : IsValid s'
  pub kept : (r d : ℕ) → IsBlock s r d → IsBlock s' r d
  pub undone : free p s' ≡ ok s

module _ (s : Pmm) (v : IsValid s) where
  new-IsBlock : (q c : ℕ) → IsFree s q (2 ^ c) → IsBlock (marked s (2 ^ c) (q * 2 ^ c) (suc c)) q c
  new-IsBlock q c f = record {
    from_start = f.from_start;
    to_end = f.to_end;
    marked = fill-Run (2 ^ c) (q * 2 ^ c) (suc c) s.mem_table (omega (arith, f.to_end, v.covered));
  }

  old_blocks :
      (q c : ℕ)
      → IsFree s q (2 ^ c)
      → (r d : ℕ) → IsBlock s r d
      → IsBlock (marked s (2 ^ c) (q * 2 ^ c) (suc c)) r d
  old_blocks q c f r d b =
      marked_keeps s (2 ^ c) (q * 2 ^ c) (suc c) r d
        (λ k lo hi.
          outside k (q * 2 ^ c) (2 ^ c)
            (λ a z. absurd (omega (arith, f.free k a z, b.marked k lo hi))))
        b

  undo :
      (q c : ℕ)
      → IsFree s q (2 ^ c)
      → free (q * 2 ^ c * 512) (marked s (2 ^ c) (q * 2 ^ c) (suc c)) ≡ ok s
  undo q c f =
      free_block (marked s (2 ^ c) (q * 2 ^ c) (suc c))
        (marked-IsValid s (2 ^ c) (q * 2 ^ c) (suc c) v) q c (new-IsBlock q c f)
      ∙ ap (λ t. ok (record s { mem_table = t }))
          (fill-fill (2 ^ c) (q * 2 ^ c) (suc c) s.mem_table (omega (arith, f.to_end, v.covered))
            f.free)

  given :
      (size q c p : ℕ) (s' : Pmm)
      → Order size c
      → IsFree s q (2 ^ c)
      → q * 2 ^ c * 512 ≡ p
      → marked s (2 ^ c) (q * 2 ^ c) (suc c) ≡ s'
      → Gives s size p s'
  given size q c p s' o f ep es =
      rw (← ep, ← es)
        (record {
          number = q;
          order = c;
          fits = o;
          address = refl;
          was_free = f;
          block = new-IsBlock q c f;
          valid = marked-IsValid s (2 ^ c) (q * 2 ^ c) (suc c) v;
          kept = old_blocks q c f;
          undone = undo q c f;
        })

  -- Over a valid pool, an allocation of 1 byte to 2 GiB that does not return NULL gives a block that was free and holds the size, keeps the
  -- pool valid and every other block allocated, and is undone by `pmm_free` of its pointer.
  pub alloc-Gives :
      (size p : ℕ) (s' : Pmm)
      → 1 ≤ size
      → size ≤ 2 ^ 31
      → p ≢ 0
      → alloc size s ≡ ok (p, s')
      → Gives s size p s'
  alloc-Gives size p s' pos big ne e =
      let (c, o, found) = alloc_lem size s v pos big in
      elim found [
        | inl (q, runs, f, first) ↦ given size q c p s' o f (cc) (cc)
        | inr (runs, nowhere) ↦ absurd (ne (cc))
      ]

  -- What is free after a release of block `q` of order `c`, and what stays allocated.
  pub record Releases (q c : ℕ) (s' : Pmm) : Type 0 where
    pub valid : IsValid s'
    pub now_free : IsFree s' q (2 ^ c)
    pub kept : (r d : ℕ) → ((r ≡ q) × (d ≡ c) → ⊥) → IsBlock s r d → IsBlock s' r d
    pub again : free (q * 2 ^ c * 512) s' ≡ undefined

  releases : (q c : ℕ) → IsBlock s q c → Releases q c (marked s (2 ^ c) (q * 2 ^ c) 0)
  releases q c b = record {
    valid = valid;
    now_free = record { from_start = b.from_start; to_end = b.to_end; free = cleared };
    kept = λ r d other b'.
        marked_keeps s (2 ^ c) (q * 2 ^ c) 0 r d
          (λ k lo hi.
            outside k (q * 2 ^ c) (2 ^ c)
              (λ x y. other (let (e, f) = blocks_disjoint s r d q c k b' b lo hi x y in (e, f))))
          b';
    again =
        free_enter after valid (q * 2 ^ c) b.from_start (omega (arith, b.to_end, two_pow-pos c))
        ∙ chunk_undefined after valid (q * 2 ^ c) (cell_at after.mem_table (q * 2 ^ c))
            (inl (cleared (q * 2 ^ c) (omega arith) (omega (arith, two_pow-pos c))));
  }
    where
      after : Pmm
      after = marked s (2 ^ c) (q * 2 ^ c) 0

      valid : IsValid after
      valid = marked-IsValid s (2 ^ c) (q * 2 ^ c) 0 v

      cleared : Run after.mem_table (q * 2 ^ c) (2 ^ c) 0
      cleared = fill-Run (2 ^ c) (q * 2 ^ c) 0 s.mem_table (omega (arith, b.to_end, v.covered))

  -- Over a valid pool, a release of a pointer that is not NULL that succeeds was of an allocated block: it frees just that block, keeps the pool valid
  -- and every other block allocated, and a second release of the same pointer is undefined.
  pub free-Releases :
      (p : ℕ) (s' : Pmm)
      → p ≢ 0
      → free p s ≡ ok s'
      → (q : ℕ) × (c : ℕ) × (p ≡ q * 2 ^ c * 512) × IsBlock s q c × Releases q c s'
  free-Releases p s' ne e = elim ((free_lem s v p ne).1) [
    | inl (q, c, address, b, runs) ↦
        let same : marked s (2 ^ c) (q * 2 ^ c) 0 ≡ s' = cc in
        (q, c, address, b, rw (← same) (releases q c b))
    | inr (inl halts) ↦ cc
    | inr (inr (bad, why)) ↦ cc
  ]
