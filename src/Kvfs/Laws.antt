-- ===== src/Kvfs/Laws.antt =====
-- What the values and the keys of src/fs/kvfs.c and src/fs/kvfile.c keep.
use oslab2_virtualfs.Base.{
  ℕ, zero, suc, ◌+◌, ◌≤◌, ◌<◌, ◌≡◌, ◌≢◌, refl, sym, ap, ap₂, ◌∙◌, inl, inr, arith, false,
  Bool-cases, List, [], ◌∷◌, ◌++◌, Outcome, ok, halted, undefined, unfinished, ◌>>=◌, ℤ, pos,
  minus_one, is_neg, length, take, drop, length-take, bit_and, add32, ◌==◌, ne→==, le→ltb_false,
}
use oslab2_virtualfs.Libc.Str.{memcpy}
use oslab2_virtualfs.Libc.Str.Laws.{memcpy_lem}
use oslab2_virtualfs.Kmt.{update, update_self, update_other}
use oslab2_virtualfs.Vfs.Methods.{File}
use oslab2_virtualfs.Kvfs.{
  Kvp, Store, load, store, expand, extend, write_grown, read, write, unsigned, o_rdonly, o_wronly,
}

pub store_before : (a : ℕ) (bs : List ℕ) (m : ℕ → ℕ) (p : ℕ) → p < a → store a bs m p ≡ m p
unfolding store
store_before a [] m p h = refl
store_before a (b ∷ bs) m p h =
    store_before (a + 1) bs (update m a b) p (omega arith) ∙ update_other m a p b (omega arith)

-- What was stored is there.
pub load-store : (a : ℕ) (bs : List ℕ) (m : ℕ → ℕ) → load a (length bs) (store a bs m) ≡ bs
unfolding load store
load-store a [] m = refl
load-store a (b ∷ bs) m =
    ap₂ ◌∷◌ (store_before (a + 1) bs (update m a b) a (omega arith) ∙ update_self m a b)
      (load-store (a + 1) bs (update m a b))

pub length-load : (a n : ℕ) (m : ℕ → ℕ) → length (load a n m) ≡ n
unfolding load
length-load a zero m = refl
length-load a (suc n) m = ap suc (length-load (a + 1) n m)

-- A growth that succeeds gives a value of at least the new size.
pub expand-le :
    (kvp kvp1 : Kvp) (newsize : ℕ) (s s1 : Store) (ret : ℤ)
    → expand kvp newsize s ≡ ok (ret, kvp1, s1)
    → is_neg ret ≡ false
    → newsize ≤ kvp1.length
unfolding expand extend
expand-le kvp kvp1 newsize s s1 ret e nonneg = ground arith

drop_all : (n : ℕ) (xs : List ℕ) → length xs ≡ n → drop n xs ≡ []
drop_all zero [] e = refl
drop_all zero (x ∷ xs) e = absurd (omega arith)
drop_all (suc n) [] e = absurd (omega arith)
drop_all (suc n) (x ∷ xs) e = drop_all n xs (omega arith)

take_all : (n : ℕ) (xs : List ℕ) → length xs ≡ n → take n xs ≡ xs
take_all zero [] e = refl
take_all zero (x ∷ xs) e = absurd (omega arith)
take_all (suc n) [] e = refl
take_all (suc n) (x ∷ xs) e = ap (◌∷◌ x) (take_all n xs (omega arith))

append_nil : (xs : List ℕ) → xs ++ [] ≡ xs
append_nil [] = refl
append_nil (x ∷ xs) = ap (◌∷◌ x) (append_nil xs)

-- A copy over just the bytes that are there.
memcpy_whole :
    (size a : ℕ) (m : ℕ → ℕ) (buf : List ℕ)
    → size ≤ length buf
    → memcpy size (load a size m) buf ≡ ok (take size buf)
memcpy_whole size a m buf fits =
    memcpy_lem size (load a size m) buf (omega (arith, length-load a size m)) fits
    ∙ ap (λ xs. ok (take size buf ++ xs)) (drop_all size (load a size m) (length-load a size m))
    ∙ ap ok (append_nil (take size buf))

load-store-take :
    (size a : ℕ) (buf : List ℕ) (m : ℕ → ℕ)
    → size ≤ length buf
    → load a size (store a (take size buf) m) ≡ take size buf
load-store-take size a buf m fits =
    ap (λ n. load a n (store a (take size buf) m)) (sym (length-take size buf fits))
    ∙ load-store a (take size buf) m

module _ (file : File) (kvp : Kvp) (buf : List ℕ) (size : ℕ) (s : Store) where
  -- What `write` leaves when it does not fail.
  abbrev pub Written : File → Kvp → Store → ℤ → Store → Type 0
  Written file1 kvp1 s1 ret t =
      (ret ≡ pos size)
      × (file1 ≡ record file { offset = pos (unsigned file.offset + size) })
      × (s1 ≡ record t {
        bytes = store (kvp1.address + unsigned file.offset) (take size buf) t.bytes;
      })

  pub grown_lem :
      (r : ℤ) (k kvp1 : Kvp) (t s1 : Store) (file1 : File) (ret : ℤ)
      → size ≤ length buf
      → write_grown file buf size (r, k, t) ≡ ok (ret, file1, kvp1, s1)
      → is_neg ret ≡ false
      → (is_neg r ≡ false) × (k ≡ kvp1) × Written file1 k s1 ret t
  unfolding write_grown
  grown_lem r k kvp1 t s1 file1 ret fits e nonneg =
      ground (arith, memcpy_whole size (k.address + unsigned file.offset) t.bytes buf fits)

  -- A `read` of bytes that are all there.
  read_lem :
      (kvp1 : Kvp) (s1 : Store) (out : List ℕ)
      → bit_and file.flags o_rdonly ≢ 0
      → size ≤ length out
      → add32 (unsigned file.offset) size ≤ kvp1.length
      → read file kvp1 out size s1
        ≡ ok (
          pos size,
          load (kvp1.address + unsigned file.offset) size s1.bytes ++ drop size out,
          record file { offset = pos (unsigned file.offset + size) },
        )
  unfolding read
  read_lem kvp1 s1 out readable space enough =
      rw (ne→== _ 0 readable, le→ltb_false kvp1.length _ enough, filled, ◌>>=◌, read)
    where
      bytes : List ℕ
      bytes = load (kvp1.address + unsigned file.offset) size s1.bytes

      filled : memcpy size out bytes ≡ ok (bytes ++ drop size out)
      filled =
          memcpy_lem size out bytes space
            (omega (arith, length-load (kvp1.address + unsigned file.offset) size s1.bytes))
          ∙ ap (λ bs. ok (bs ++ drop size out))
              (take_all size bytes
                (length-load (kvp1.address + unsigned file.offset) size s1.bytes))

  -- What `write` stores is what `read` gives at the same place: after a `write` that does not fail, a `read` of as
  -- many bytes from the old offset, on a descriptor that is open for both, returns the size, fills the
  -- buffer's first bytes with those written, and moves the offset to where `write` left it.
  pub read-write :
      (file1 : File) (kvp1 : Kvp) (s1 : Store) (ret : ℤ) (out : List ℕ)
      → size ≤ length buf
      → size ≤ length out
      → bit_and file.flags o_rdonly ≢ 0
      → write file kvp buf size s ≡ ok (ret, file1, kvp1, s1)
      → is_neg ret ≡ false
      → read file kvp1 out size s1 ≡ ok (ret, take size buf ++ drop size out, file1)
  unfolding write
  read-write file1 kvp1 s1 ret out fits space readable e nonneg =
      elim (Bool-cases (bit_and file.flags o_wronly == 0)) [
        | inl closed ↦ absurd (refusal ret nonneg (cc))
        | inr open_for_write ↦ from_expand _ refl (cc)
      ]
    where
      refusal : (ret : ℤ) → is_neg ret ≡ false → ret ≡ minus_one → ⊥
      refusal ret nonneg same = cc

      from_expand :
          (x : Outcome (ℤ × Kvp × Store))
          → expand kvp (add32 (unsigned file.offset) size) s ≡ x
          → (x >>= write_grown file buf size) ≡ ok (ret, file1, kvp1, s1)
          → read file kvp1 out size s1 ≡ ok (ret, take size buf ++ drop size out, file1)
      from_expand (ok (r, k, t)) grows writes =
          let (kept, same, (value, moved, stored_bytes)) =
            grown_lem r k kvp1 t s1 file1 ret fits writes nonneg in
          let here : load (kvp1.address + unsigned file.offset) size s1.bytes ≡ take size buf =
            ap₂ (λ (x : Kvp) (y : Store). load (x.address + unsigned file.offset) size y.bytes)
              (sym same) stored_bytes
            ∙ load-store-take size (k.address + unsigned file.offset) buf t.bytes fits in
          let big : add32 (unsigned file.offset) size ≤ k.length =
            expand-le kvp k _ s t r grows kept in
          read_lem kvp1 s1 out readable space (rw same at big)
          ∙ ap₂
              (λ bs z. ok (
                z,
                bs ++ drop size out,
                record file { offset = pos (unsigned file.offset + size) },
              ))
              here (sym value)
          ∙ ap (λ f. ok (ret, take size buf ++ drop size out, f)) (sym moved)
      from_expand (halted c) grows writes = cc
      from_expand undefined grows writes = cc
      from_expand unfinished grows writes = cc
