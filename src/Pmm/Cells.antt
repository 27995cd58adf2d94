-- ===== src/Pmm/Cells.antt =====
-- The loops of src/pmm.c over the chunk table: scan, mark and clear.
use oslab2_virtualfs.Base.{
  ℕ, zero, suc, ◌+◌, ◌≤◌, ◌<◌, ◌≡◌, refl, sym, ◌∙◌, ◌≢◌, ◌⊎◌, inl, inr, true, false, List, arith,
  ok, halted, length, length-set, set, get_or, get_elem?-eq-get_or, get_or-set_self, get_or-set_ne,
}
use native.Mathlib.Decide.{ℕ_discrete}
use oslab2_virtualfs.Pmm.{all_free, fill, clear}

-- The byte of chunk `i`; the table is read at indices below its length only.
abbrev pub cell_at : List ℕ → ℕ → ℕ
cell_at table i = get_or table i 0

-- The `n` chunks from `i` on all hold `v`.
abbrev pub Run : List ℕ → ℕ → ℕ → ℕ → Type 0
Run table i n v = (k : ℕ) → i ≤ k → k < i + n → cell_at table k ≡ v

-- Some of the `n` chunks from `i` on holds another byte than `v`.
abbrev pub Broken : List ℕ → ℕ → ℕ → ℕ → Type 0
Broken table i n v = (k : ℕ) × (i ≤ k) × (k < i + n) × (cell_at table k ≢ v)

pub length-fill : (n i v : ℕ) (table : List ℕ) → length (fill n i v table) ≡ length table
unfolding fill
length-fill zero i v table = refl
length-fill (suc n) i v table = length-fill n (i + 1) v (set table i v) ∙ length-set table i v

pub fill_outside :
    (n i v k : ℕ) (table : List ℕ)
    → (k < i) ⊎ (i + n ≤ k)
    → cell_at (fill n i v table) k ≡ cell_at table k
unfolding fill
fill_outside zero i v k table out = refl
fill_outside (suc n) i v k table out =
    fill_outside n (i + 1) v k (set table i v) (omega arith)
    ∙ get_or-set_ne table i k v 0 (omega arith)

pub fill-Run : (n i v : ℕ) (table : List ℕ) → i + n ≤ length table → Run (fill n i v table) i n v
unfolding fill
fill-Run zero i v table h k lo hi = absurd (omega arith)
fill-Run (suc n) i v table h k lo hi = elim (ℕ_discrete k i) [
  | yes e ↦ rw e (
      fill_outside n (i + 1) v i (set table i v) (inl (omega arith))
      ∙ get_or-set_self table i v 0 (omega arith))
  | no ne ↦
      fill-Run n (i + 1) v (set table i v) (omega (arith, length-set table i v)) k (omega arith)
        (omega arith)
]

Run-cons :
    (table : List ℕ) (i n v : ℕ)
    → cell_at table i ≡ v
    → Run table (i + 1) n v
    → Run table i (suc n) v
Run-cons table i n v first rest k lo hi = elim (ℕ_discrete k i) [
  | yes e ↦ rw e first
  | no ne ↦ rest k (omega arith) (omega arith)
]

-- The scan says whether every chunk is free, and reads inside the table.
pub all_free_lem :
    (n i : ℕ) (table : List ℕ)
    → i + n ≤ length table
    → ((all_free n i table ≡ ok true) × Run table i n 0)
      ⊎ ((all_free n i table ≡ ok false) × Broken table i n 0)
unfolding all_free
all_free_lem zero i table h = inl (refl, λ k lo hi. absurd (omega arith))
all_free_lem (suc n) i table h = elim (ℕ_discrete (cell_at table i) 0) [
  | yes free ↦ elim (all_free_lem n (i + 1) table (omega arith)) [
    | inl (runs, rest) ↦ inl (go free ∙ runs, Run-cons table i n 0 free rest)
    | inr (runs, (k, lo, hi, ne)) ↦ inr (go free ∙ runs, (k, omega arith, omega arith, ne))
  ]
  | no used ↦ inr (stop used, (i, omega arith, omega arith, used))
]
  where
    go : cell_at table i ≡ 0 → all_free (suc n) i table ≡ all_free n (i + 1) table
    go e = ground (arith, get_elem?-eq-get_or table i 0)

    stop : cell_at table i ≢ 0 → all_free (suc n) i table ≡ ok false
    stop ne = ground (arith, get_elem?-eq-get_or table i 0)

-- Clearing a block that holds `log_chk` throughout overwrites it by zeros.
pub clear_lem :
    (n i log_chk : ℕ) (table : List ℕ)
    → i + n ≤ length table
    → Run table i n log_chk
    → clear n i log_chk table ≡ ok (fill n i 0 table)
unfolding clear fill
clear_lem zero i log_chk table h run = refl
clear_lem (suc n) i log_chk table h run = go ∙ clear_lem n (i + 1) log_chk (set table i 0) fits rest
  where
    go : clear (suc n) i log_chk table ≡ clear n (i + 1) log_chk (set table i 0)
    go = ground (arith, get_elem?-eq-get_or table i 0, run i (omega arith) (omega arith))

    fits : i + 1 + n ≤ length (set table i 0)
    fits = omega (arith, length-set table i 0)

    rest : Run (set table i 0) (i + 1) n log_chk
    rest k lo hi = get_or-set_ne table i k 0 0 (omega arith) ∙ run k (omega arith) (omega arith)

-- At a byte that differs the code gives up.
pub clear-Broken :
    (n i log_chk : ℕ) (table : List ℕ)
    → i + n ≤ length table
    → Broken table i n log_chk
    → clear n i log_chk table ≡ halted 1
unfolding clear
clear-Broken zero i log_chk table h (k, lo, hi, ne) = absurd (omega arith)
clear-Broken (suc n) i log_chk table h (k, lo, hi, ne) =
    elim (ℕ_discrete (cell_at table i) log_chk) [
      | yes same ↦
          go same
          ∙ clear-Broken n (i + 1) log_chk (set table i 0) (omega (arith, length-set table i 0))
              (k, later same, omega arith, kept same)
      | no other ↦ stop other
    ]
  where
    go :
        cell_at table i ≡ log_chk
        → clear (suc n) i log_chk table ≡ clear n (i + 1) log_chk (set table i 0)
    go e = ground (arith, get_elem?-eq-get_or table i 0)

    stop : cell_at table i ≢ log_chk → clear (suc n) i log_chk table ≡ halted 1
    stop other = ground (arith, get_elem?-eq-get_or table i 0)

    moved : cell_at table i ≡ log_chk → k ≢ i
    moved same e = ne (rw e same)

    later : cell_at table i ≡ log_chk → i + 1 ≤ k
    later same = omega (arith, moved same)

    kept : cell_at table i ≡ log_chk → cell_at (set table i 0) k ≢ log_chk
    kept same e = ne (sym (get_or-set_ne table i k 0 0 (λ b. moved same (sym b))) ∙ e)

-- The `n` chunks from `i` on all hold `v`, or some one does not.
pub all_hold : (n i v : ℕ) (table : List ℕ) → Run table i n v ⊎ Broken table i n v
all_hold zero i v table = inl (λ k lo hi. absurd (omega arith))
all_hold (suc n) i v table = elim (ℕ_discrete (cell_at table i) v) [
  | no ne ↦ inr (i, omega arith, omega arith, ne)
  | yes e ↦ elim (all_hold n (i + 1) v table) [
    | inl rest ↦ inl (Run-cons table i n v e rest)
    | inr (k, lo, hi, ne) ↦ inr (k, omega arith, omega arith, ne)
  ]
]
