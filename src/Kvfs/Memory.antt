-- ===== src/Kvfs/Memory.antt =====
-- The bytes of memory that src/fs/kvfile.c copies, clears and writes.
use oslab2_virtualfs.Base.{
  ℕ, zero, suc, ◌+◌, ◌≤◌, ◌<◌, ◌≡◌, ◌≢◌, refl, ap, ap₂, ◌∙◌, ◌⊎◌, inl, arith, List, [], ◌∷◌, ◌++◌,
  length, replicate, take, drop,
}
use oslab2_virtualfs.Kmt.{update, update_self, update_other}
use oslab2_virtualfs.Kvfs.Laws.{store_before}
use oslab2_virtualfs.Kvfs.{load, store, copy, zero_fill}

-- Bytes that are the same at two places are loaded as the same.
pub load_ext :
    (a b n : ℕ) (m k : ℕ → ℕ) → ((i : ℕ) → i < n → m (a + i) ≡ k (b + i)) → load a n m ≡ load b n k
unfolding load
load_ext a b zero m k same = refl
load_ext a b (suc n) m k same =
    ap₂ ◌∷◌ (ap m (omega arith) ∙ same 0 (omega arith) ∙ ap k (omega arith)) (
      load_ext (a + 1) (b + 1) n m k
        (λ i less. ap m (omega arith) ∙ same (suc i) (omega arith) ∙ ap k (omega arith)))

pub load-append : (a n k : ℕ) (m : ℕ → ℕ) → load a (n + k) m ≡ load a n m ++ load (a + n) k m
unfolding load
load-append a zero k m = ap₂ (λ x y. load x y m) (omega arith) (omega arith)
load-append a (suc n) k m =
    let e : suc n + k ≡ suc (n + k) = omega arith in
    rw e (
      ap (◌∷◌ (m a))
        (load-append (a + 1) n k m ∙ ap (λ x. load (a + 1) n m ++ load x k m) (omega arith)))

pub zero_fill_outside :
    (n a : ℕ) (m : ℕ → ℕ) (p : ℕ) → (p < a) ⊎ (a + n ≤ p) → zero_fill n a m p ≡ m p
unfolding zero_fill
zero_fill_outside zero a m p out = refl
zero_fill_outside (suc n) a m p out =
    zero_fill_outside n (a + 1) (update m a 0) p (further out) ∙ update_other m a p 0 (apart out)
  where
    further : (p < a) ⊎ (a + suc n ≤ p) → (p < a + 1) ⊎ (a + 1 + n ≤ p)
    further out = ground (arith, out)

    apart : (p < a) ⊎ (a + suc n ≤ p) → a ≢ p
    apart out = ground (arith, out)

pub load-zero_fill : (n a : ℕ) (m : ℕ → ℕ) → load a n (zero_fill n a m) ≡ replicate n 0
unfolding load zero_fill
load-zero_fill zero a m = refl
load-zero_fill (suc n) a m =
    ap₂ ◌∷◌ (zero_fill_outside n (a + 1) (update m a 0) a (inl (omega arith)) ∙ update_self m a 0)
      (load-zero_fill n (a + 1) (update m a 0))

-- A copy leaves what is outside its destination, and its source if the two do not meet.
copy_outside :
    (n dest src : ℕ) (m : ℕ → ℕ) (p : ℕ) → (p < dest) ⊎ (dest + n ≤ p) → copy n dest src m p ≡ m p
unfolding copy
copy_outside zero dest src m p out = refl
copy_outside (suc n) dest src m p out =
    copy_outside n (dest + 1) (src + 1) (update m dest (m src)) p (further out)
    ∙ update_other m dest p (m src) (apart out)
  where
    further : (p < dest) ⊎ (dest + suc n ≤ p) → (p < dest + 1) ⊎ (dest + 1 + n ≤ p)
    further out = ground (arith, out)

    apart : (p < dest) ⊎ (dest + suc n ≤ p) → dest ≢ p
    apart out = ground (arith, out)

-- Two blocks that do not meet.
abbrev pub Apart : ℕ → ℕ → ℕ → ℕ → Type 0
Apart a n b k = (a + n ≤ b) ⊎ (b + k ≤ a)

pub load-copy :
    (n dest src : ℕ) (m : ℕ → ℕ)
    → Apart dest n src n
    → load dest n (copy n dest src m) ≡ load src n m
unfolding load copy
load-copy zero dest src m apart = refl
load-copy (suc n) dest src m apart =
    ap₂ ◌∷◌
      (copy_outside n (dest + 1) (src + 1) (update m dest (m src)) dest (inl (omega arith))
        ∙ update_self m dest (m src))
      (load-copy n (dest + 1) (src + 1) (update m dest (m src)) (inner apart)
        ∙ load_ext (src + 1) (src + 1) n (update m dest (m src)) m
            (λ i less. update_other m dest (src + 1 + i) (m src) (away apart i less)))
  where
    inner : Apart dest (suc n) src (suc n) → Apart (dest + 1) n (src + 1) n
    inner apart = ground (arith, apart)

    away : Apart dest (suc n) src (suc n) → (i : ℕ) → i < n → dest ≢ src + 1 + i
    away apart i less = ground (arith, apart, less)

store_at_start :
    (n a : ℕ) (new : List ℕ) (m : ℕ → ℕ)
    → length new ≤ n
    → load a n (store a new m) ≡ new ++ drop (length new) (load a n m)
unfolding load store
store_at_start n a [] m fits = refl
store_at_start zero a (b ∷ new) m fits = absurd (omega arith)
store_at_start (suc n) a (b ∷ new) m fits =
    ap₂ ◌∷◌ (store_before (a + 1) new (update m a b) a (omega arith) ∙ update_self m a b) (
      store_at_start n (a + 1) new (update m a b) (omega arith)
      ∙ ap (λ xs. new ++ drop (length new) xs)
          (load_ext (a + 1) (a + 1) n (update m a b) m
            (λ i less. update_other m a (a + 1 + i) b (omega arith))))

-- A store within a block puts its bytes in place of those that were there.
pub load-store_within :
    (offset n a : ℕ) (new : List ℕ) (m : ℕ → ℕ)
    → offset + length new ≤ n
    → load a n (store (a + offset) new m)
      ≡ take offset (load a n m) ++ (new ++ drop (offset + length new) (load a n m))
unfolding load
load-store_within zero n a new m fits =
    ap (λ p. load a n (store p new m)) (omega arith)
    ∙ store_at_start n a new m (omega arith)
    ∙ ap (λ k. new ++ drop k (load a n m)) (omega arith)
load-store_within (suc offset) zero a new m fits = absurd (omega arith)
load-store_within (suc offset) (suc n) a new m fits =
    let rest = load (a + 1) n m in
    ap₂ ◌∷◌ (store_before (a + suc offset) new m a (omega arith)) (
      ap (λ p. load (a + 1) n (store p new m)) (omega arith)
      ∙ load-store_within offset n (a + 1) new m (omega arith)
      ∙ ap (λ xs. take offset rest ++ (new ++ xs)) (deeper rest))
  where
    deeper :
        (rest : List ℕ)
        → drop (offset + length new) rest ≡ drop (suc offset + length new) (m a ∷ rest)
    deeper rest =
        let e : suc offset + length new ≡ suc (offset + length new) = omega arith in rw e refl
