-- ===== src/Kvfs/Create.antt =====
-- `create` and `lookup` of src/fs/kvfs.c: a key that is created is found, and the others are where they were.
use oslab2_virtualfs.Base.{
  ℕ, zero, suc, ◌+◌, ◌-◌, ◌≤◌, ◌<◌, ◌≡◌, ◌≢◌, refl, sym, ap, ◌∙◌, arith, true, false, Bool, List,
  [], ◌∷◌, ◌++◌, some, ok, ◌>>=◌, ℤ, pos, minus_one, get_elem?, ◌==◌, length, drop, replicate,
  length-replicate, ltb,
}
use mathlib.Core.Path.{subst}
use oslab2_virtualfs.Base.Sound.{Holds, Holds-bind, Holds-then}
use oslab2_virtualfs.Libc.Str.{strcpy}
use oslab2_virtualfs.Libc.Str.Laws.{IsText, stored, strcpy_lem, strlen_lem}
use oslab2_virtualfs.Pmm
use oslab2_virtualfs.Kvfs.{Kvp, Store, lookup, create_entry, create}
use oslab2_virtualfs.Kvfs.Created.{Created, here, there, found_Created, other_Created}

-- The key of an entry that is not in use has 32 bytes of 0.
abbrev pub BlankKeys : List Kvp → Type 0
BlankKeys kvps =
    (j : ℕ) (e : Kvp) → get_elem? kvps j ≡ some e → e.valid ≡ false → e.key ≡ replicate 32 0

drop_blank : (n m : ℕ) → n < m → drop {A = ℕ} n (replicate m 0) ≡ 0 ∷ replicate (m - suc n) 0
drop_blank n zero less = absurd (omega arith)
drop_blank zero (suc m) less = ap (λ k. 0 ∷ replicate k 0) (omega arith)
drop_blank (suc n) (suc m) less =
    drop_blank n m (omega arith) ∙ ap (λ k. 0 ∷ replicate k 0) (omega arith)

-- `strcpy` to a key of zeros leaves a string.
blank_key :
    (path rest : List ℕ)
    → IsText path
    → path ≢ []
    → length path ≤ 31
    → strcpy (replicate 32 0) (stored path rest) ≡ ok (stored path (replicate (31 - length path) 0))
blank_key path rest text some_path fits =
    strcpy_lem path rest (replicate 32 0) text some_path
      (omega (arith, length-replicate {A = ℕ} 32 0))
    ∙ ap (λ xs. ok (path ++ xs))
        (drop_blank (length path) 32 (omega arith) ∙ ap (λ k. 0 ∷ replicate k 0) (omega arith))

Makes : List ℕ → ℕ → List Kvp → ℤ × List Kvp × Store → Type 0
Makes path i kvps (ret, kvps1, s1) = (n : ℕ) → ret ≡ pos n → Created path i kvps n kvps1

create_entry-Makes :
    (kvps : List Kvp) (path rest : List ℕ) (i : ℕ) (s : Store)
    → BlankKeys kvps
    → IsText path
    → path ≢ []
    → length path ≤ 31
    → Holds (Makes path i kvps) (create_entry kvps (stored path rest) i s)
unfolding create_entry Holds Makes
create_entry-Makes [] path rest i s blank text some_path fits = λ n e. cc
create_entry-Makes (e ∷ kvps) path rest i s blank text some_path fits =
    by_valid (create_entry-Makes kvps path rest (i + 1) s (λ j. blank (suc j)) text some_path fits)
      e.valid refl
  where
    pos_injective : {a b : ℕ} → pos a ≡ pos b → a ≡ b
    pos_injective q = cc

    made :
        (key : List ℕ) (after : List ℕ) (null : Bool) (address : ℕ) (s1 : Store)
        → key ≡ stored path after
        → e.valid ≡ false
        → Holds (Makes path i (e ∷ kvps)) (elim null [
          | true ↦ ok (minus_one, record e { key = key; address = address } ∷ kvps, s1)
          | false ↦ ok (
            pos i,
            record { valid = true; key = key; length = 0; capacity = 512; address = address }
                ∷ kvps,
            s1,
          )
        ])
    made key after true address s1 is_path off = λ n e. cc
    made key after false address s1 is_path off = λ n same.
        let f : Kvp = record {
          valid = true;
          key = key;
          length = 0;
          capacity = 512;
          address = address;
        } in
        subst (λ m. Created path i (e ∷ kvps) m (f ∷ kvps)) (pos_injective same)
          (here e f after off refl is_path)

    by_valid :
        Holds (Makes path (i + 1) kvps) (create_entry kvps (stored path rest) (i + 1) s)
        → (v : Bool) → e.valid ≡ v
        → Holds (Makes path i (e ∷ kvps)) (elim v [
          | true ↦
              (create_entry kvps (stored path rest) (i + 1) s >>= λ (ret, tail, s1).
              ok (ret, e ∷ tail, s1))
          | false ↦
              (strcpy e.key (stored path rest) >>= λ key. Pmm.alloc 512 s.pmm >>= λ (address, pmm).
              elim (address == 0) [
                | true ↦ ok (
                  minus_one,
                  record e { key = key; address = address } ∷ kvps,
                  record s { pmm = pmm },
                )
                | false ↦ ok (
                  pos i,
                  record { valid = true; key = key; length = 0; capacity = 512; address = address }
                      ∷ kvps,
                  record s { pmm = pmm },
                )
              ])
        ])
    by_valid later true on =
        Holds-then (Makes path (i + 1) kvps) (Makes path i (e ∷ kvps)) _ _ later
          (λ r makes n same. there e on (makes n same))
    by_valid later false off =
        let copies : strcpy e.key (stored path rest)
            ≡ ok (stored path (replicate (31 - length path) 0)) =
          ap (λ x. strcpy x (stored path rest)) (blank 0 e refl off)
          ∙ blank_key path rest text some_path fits in
        rw (copies, ◌>>=◌)
          (Holds-bind (Makes path i (e ∷ kvps)) (Pmm.alloc 512 s.pmm) _
            (λ (address, pmm). made _ _ (address == 0) address _ refl off))

-- After `create` of a path that was not found, `lookup` finds it where `create` put it, and any other path as before.
pub create-lookup :
    (kvps kvps1 : List Kvp) (path rest : List ℕ) (s s1 : Store) (n : ℕ)
    → BlankKeys kvps
    → IsText path
    → path ≢ []
    → lookup kvps (stored path rest) 0 ≡ ok minus_one
    → create kvps (stored path rest) s ≡ ok (pos n, kvps1, s1)
    → (lookup kvps1 (stored path rest) 0 ≡ ok (pos n))
      × ((other after : List ℕ)
          → IsText other
          → other ≢ path
          → lookup kvps1 (stored other after) 0 ≡ lookup kvps (stored other after) 0)
unfolding create Holds Makes
create-lookup kvps kvps1 path rest s s1 n blank text some_path missing creates =
    let made = created in
    (
      found_Created path rest text made missing,
      λ other after text1 differs. other_Created path other after text text1 differs made,
    )
  where
    by_size :
        (long : Bool)
        → ltb 31 (length path) ≡ long
        → elim long [
          | true ↦ ok (minus_one, kvps, s)
          | false ↦ create_entry kvps (stored path rest) 0 s
        ]
          ≡ ok (pos n, kvps1, s1)
        → Created path 0 kvps n kvps1
    by_size true long creates = cc
    by_size false long creates =
        subst (Holds (Makes path 0 kvps)) creates
          (create_entry-Makes kvps path rest 0 s blank text some_path (ground (arith, long))) n refl

    created : Created path 0 kvps n kvps1
    created = by_size _ refl (
        sym (
          ap
            (λ m. m >>= λ len. elim (ltb 31 len) [
              | true ↦ ok (minus_one, kvps, s)
              | false ↦ create_entry kvps (stored path rest) 0 s
            ])
            (strlen_lem path rest text))
        ∙ creates)
