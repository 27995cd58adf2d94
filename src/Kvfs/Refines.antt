-- ===== src/Kvfs/Refines.antt =====
-- src/fs/kvfile.c: `expand` and `write` on the bytes of a value, wherever the value stands in memory.
use oslab2_virtualfs.Base.{
  ℕ, zero, suc, ◌+◌, ◌-◌, ◌^◌, ◌≤◌, ◌<◌, ◌≡◌, refl, sym, ap, ap₂, ◌∙◌, ◌⊎◌, inl, inr, arith, Bool,
  true, false, Bool-cases, List, [], ◌∷◌, ◌++◌, Outcome, ok, halted, undefined, unfinished, ◌>>=◌,
  ℤ, pos, minus_one, is_neg, bit_and, length-take, length, take, drop, replicate, leb, ltb, ◌==◌,
  mul32, add32, leb→le, ==→eq,
}
use mathlib.Core.Path.{subst}
use oslab2_virtualfs.Base.Sound.{Holds, Holds-bind, Holds-then}
use oslab2_virtualfs.Pmm
use oslab2_virtualfs.Kmt.{update}
use oslab2_virtualfs.Vfs.Methods.{File}
use oslab2_virtualfs.Kvfs.{
  o_wronly, Kvp, Store, load, copy, zero_fill, grow, extend, expand, write_grown, write, unsigned,
}
use oslab2_virtualfs.Kvfs.Laws.{expand-le, grown_lem, length-load}
use oslab2_virtualfs.Kvfs.Memory.{
  load-store_within, load_ext, load-append, load-zero_fill, zero_fill_outside, load-copy, Apart,
}

-- The value that a key stands for.
abbrev pub contents : Kvp → Store → List ℕ
contents kvp s = load kvp.address kvp.length s.bytes

-- The block is where it was, or away from where it was.
abbrev pub Placed : Kvp → Kvp → Type 0
Placed kvp kvp1 =
    (kvp1.address ≡ kvp.address) ⊎ Apart kvp1.address kvp.length kvp.address kvp.length

update_same : (m : ℕ → ℕ) (a p : ℕ) → update m a (m a) p ≡ m p
update_same m a p = elim (Bool-cases (a == p)) [
  | inl e ↦ rw (update, e) (ap m (==→eq a p e))
  | inr e ↦ rw (update, e) refl
]

copy_self : (n a : ℕ) (m : ℕ → ℕ) (p : ℕ) → copy n a a m p ≡ m p
unfolding copy
copy_self zero a m p = refl
copy_self (suc n) a m p = copy_self n (a + 1) (update m a (m a)) p ∙ update_same m a p

copied :
    (kvp : Kvp) (address capacity : ℕ) (s : Store)
    → Placed kvp (record kvp { address = address; capacity = capacity })
    → load address kvp.length (copy kvp.length address kvp.address s.bytes) ≡ contents kvp s
copied kvp address capacity s (inl same) = rw same (
    load_ext kvp.address kvp.address kvp.length _ s.bytes
      (λ i less. copy_self kvp.length kvp.address s.bytes (kvp.address + i)))
copied kvp address capacity s (inr apart) = load-copy kvp.length address kvp.address s.bytes apart

Moved : Kvp → Store → Bool × Kvp × Store → Type 0
Moved kvp s (grown, kvp1, s1) =
    grown ≡ true
    → (kvp1.length ≡ kvp.length) × (Placed kvp kvp1 → contents kvp1 s1 ≡ contents kvp s)

grow-Moved : (kvp : Kvp) (n : ℕ) (s : Store) → Holds (Moved kvp s) (grow kvp n s)
unfolding grow Holds Moved
grow-Moved kvp n s =
    Holds-bind (Moved kvp s) (Pmm.alloc (mul32 n 2) s.pmm) _
      (λ (newdata, pmm). by_null (newdata == 0) newdata pmm)
  where
    by_null :
        (null : Bool) (newdata : ℕ) (pmm : Pmm.Pmm)
        → Holds (Moved kvp s) (elim null [
          | true ↦ ok (false, kvp, record s { pmm = pmm })
          | false ↦
              (Pmm.free kvp.address pmm >>= λ freed. ok (
                true,
                record kvp { address = newdata; capacity = mul32 n 2 },
                record { bytes = copy kvp.length newdata kvp.address s.bytes; pmm = freed },
              ))
        ])
    by_null true newdata pmm = λ e. absurd (ground (arith, e))
    by_null false newdata pmm =
        Holds-bind (Moved kvp s) (Pmm.free kvp.address pmm) _
          (λ freed e. (refl, copied kvp newdata (mul32 n 2) s))

-- The end of `expand` appends zeros.
extend_lem :
    (kvp : Kvp) (n : ℕ) (s : Store)
    → kvp.length ≤ n
    → contents (extend kvp n s).0 (extend kvp n s).1
      ≡ contents kvp s ++ replicate (n - kvp.length) 0
unfolding extend
extend_lem kvp n s larger =
    let more = n - kvp.length in
    let m = zero_fill more (kvp.address + kvp.length) s.bytes in
    let e : n ≡ kvp.length + more = omega (arith, larger) in
    ap (λ x. load kvp.address x m) e
    ∙ load-append kvp.address kvp.length more m
    ∙ ap₂ ◌++◌
        (load_ext kvp.address kvp.address kvp.length m s.bytes (λ i less.
          zero_fill_outside more (kvp.address + kvp.length) s.bytes (kvp.address + i)
            (inl (omega arith))))
        (load-zero_fill more (kvp.address + kvp.length) s.bytes)

Extended : Kvp → ℕ → Store → ℤ × Kvp × Store → Type 0
Extended kvp n s (ret, kvp1, s1) =
    is_neg ret ≡ false
    → Placed kvp kvp1
    → contents kvp1 s1 ≡ contents kvp s ++ replicate (n - kvp.length) 0

append_nil : (xs : List ℕ) → xs ++ [] ≡ xs
append_nil [] = refl
append_nil (x ∷ xs) = ap (◌∷◌ x) (append_nil xs)

expand-Extended : (kvp : Kvp) (n : ℕ) (s : Store) → Holds (Extended kvp n s) (expand kvp n s)
unfolding expand Holds Extended Moved extend
expand-Extended kvp n s = elim (Bool-cases (leb n kvp.length)) [
  | inl small ↦
      rw (expand, small)
        (λ positive placed. sym (
          ap (λ k. contents kvp s ++ replicate k 0) (nothing (leb→le n kvp.length small))
          ∙ append_nil (contents kvp s)))
  | inr large ↦ elim (Bool-cases (ltb kvp.capacity n)) [
    | inr room ↦ rw (expand, large, room) (λ positive placed. extend_lem kvp n s (longer large))
    | inl tight ↦
        rw (expand, large, tight)
          (Holds-then (Moved kvp s) (Extended kvp n s) (grow kvp n s) _ (grow-Moved kvp n s)
            (extended (longer large)))
  ]
]
  where
    nothing : n ≤ kvp.length → n - kvp.length ≡ 0
    nothing le = omega arith

    longer : leb n kvp.length ≡ false → kvp.length ≤ n
    longer large = ground (arith, large)

    extended :
        kvp.length ≤ n
        → (r : Bool × Kvp × Store) → Moved kvp s r
        → Holds (Extended kvp n s) (elim r.0 [
          | true ↦ ok (pos 0, (extend r.1 n r.2).0, (extend r.1 n r.2).1)
          | false ↦ ok (minus_one, r.1, r.2)
        ])
    extended le (true, kvp1, s1) moved =
        let (len, same) = moved refl in
        λ positive placed.
          extend_lem kvp1 n s1 (omega (arith, len, le))
          ∙ ap₂ (λ xs k. xs ++ replicate (n - k) 0) (same placed) len
    extended le (false, kvp1, s1) moved = λ positive placed. absurd (ground (arith, positive))

-- `new` in place of what `old` has from `offset` on, and `old` with zeros up to `n` bytes.
abbrev pub overwrite : ℕ → List ℕ → List ℕ → List ℕ
overwrite offset new old = take offset old ++ (new ++ drop (offset + length new) old)

abbrev pub padded : ℕ → List ℕ → List ℕ
padded n old = old ++ replicate (n - length old) 0

grown_contents :
    (kvp : Kvp) (n : ℕ) (s : Store) (ret : ℤ) (kvp1 : Kvp) (s1 : Store)
    → expand kvp n s ≡ ok (ret, kvp1, s1)
    → is_neg ret ≡ false
    → Placed kvp kvp1
    → contents kvp1 s1 ≡ padded n (contents kvp s)
unfolding Holds Extended
grown_contents kvp n s ret kvp1 s1 grows positive placed =
    subst (Holds (Extended kvp n s)) grows (expand-Extended kvp n s) positive placed
    ∙ ap (λ k. contents kvp s ++ replicate (n - k) 0)
        (sym (length-load kvp.address kvp.length s.bytes))

-- `write` that does not fail is an overwrite of the value's bytes, with zeros where it was too short.
pub write-overwrite :
    (file : File) (kvp : Kvp) (buf : List ℕ) (size : ℕ) (s : Store) (ret : ℤ) (file1 : File)
    (kvp1 : Kvp) (s1 : Store)
    → size ≤ length buf
    → unsigned file.offset + size < 2 ^ 32
    → write file kvp buf size s ≡ ok (ret, file1, kvp1, s1)
    → is_neg ret ≡ false
    → Placed kvp kvp1
    → contents kvp1 s1
      ≡ overwrite
          (unsigned file.offset)
          (take size buf)
          (padded (unsigned file.offset + size) (contents kvp s))
unfolding write
write-overwrite file kvp buf size s ret file1 kvp1 s1 fits small writes positive placed =
    elim (Bool-cases (bit_and file.flags o_wronly == 0)) [
      | inl closed ↦ absurd (refusal ret positive cc)
      | inr open_for_write ↦ from_expand _ refl cc
    ]
  where
    off : ℕ
    off = unsigned file.offset

    sum : add32 off size ≡ off + size
    sum = omega (arith, small)

    room :
        (r : ℤ) (k : Kvp) (t : Store)
        → expand kvp (add32 off size) s ≡ ok (r, k, t)
        → is_neg r ≡ false
        → off + length (take size buf) ≤ k.length
    room r k t grows kept =
        omega
          (arith, sum, expand-le kvp k (add32 off size) s t r grows kept, length-take size buf fits)

    refusal : (ret : ℤ) → is_neg ret ≡ false → ret ≡ minus_one → ⊥
    refusal ret nonneg same = cc

    from_expand :
        (x : Outcome (ℤ × Kvp × Store))
        → expand kvp (add32 (unsigned file.offset) size) s ≡ x
        → (x >>= write_grown file buf size) ≡ ok (ret, file1, kvp1, s1)
        → contents kvp1 s1
          ≡ overwrite
              (unsigned file.offset)
              (take size buf)
              (padded (unsigned file.offset + size) (contents kvp s))
    from_expand (ok (r, k, t)) grows rest =
        let (kept, same, (value, moved, bytes)) =
          grown_lem file kvp buf size s r k kvp1 t s1 file1 ret fits rest positive in
        ap₂ (λ x y. contents x y) (sym same) bytes
        ∙ load-store_within off k.length k.address (take size buf) t.bytes (room r k t grows kept)
        ∙ ap (overwrite off (take size buf)) (
            grown_contents kvp (add32 off size) s r k t grows kept
              (subst (Placed kvp) (sym same) placed)
            ∙ ap (λ n. padded n (contents kvp s)) sum)
    from_expand (halted c) grows rest = cc
    from_expand undefined grows rest = cc
    from_expand unfinished grows rest = cc
