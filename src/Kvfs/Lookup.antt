-- ===== src/Kvfs/Lookup.antt =====
-- `lookup` of src/fs/kvfs.c: the first entry in use with the given key.
use oslab2_virtualfs.Base.{
  ℕ, zero, suc, ◌+◌, ◌<◌, ◌≡◌, refl, sym, ap, ◌∙◌, ◌⊎◌, inl, inr, arith, true, false, Bool-cases,
  List, [], ◌∷◌, some, Outcome, ok, ◌>>=◌, ℤ, pos, negsuc, minus_one, is_zero, get_elem?,
}
use oslab2_virtualfs.Libc.Str.{strcmp}
use oslab2_virtualfs.Libc.Str.Laws.{IsText, stored, strcmp_lem}
use oslab2_virtualfs.Kvfs.{Kvp, lookup}

-- Every entry in use has a string for its key.
abbrev pub AllKeys : List Kvp → Type 0
AllKeys kvps =
    (j : ℕ) (e : Kvp)
    → get_elem? kvps j ≡ some e
    → e.valid ≡ true
    → (key : List ℕ) × (after : List ℕ) × (e.key ≡ stored key after) × IsText key

-- Entry `j` is in use, and its key is `path`.
pub record HasKey (kvps : List Kvp) (j : ℕ) (path : List ℕ) : Type 0 where
  pub entry : Kvp
  pub stands : get_elem? kvps j ≡ some entry
  pub valid : entry.valid ≡ true
  pub after : List ℕ
  pub bytes : entry.key ≡ stored path after

-- What `lookup` gives from the entry of number `i` on.
abbrev pub LookedUp : List Kvp → List ℕ → ℕ → Outcome ℤ → Type 0
LookedUp kvps path i result =
    ((j : ℕ) × (result ≡ ok (pos (i + j)))
      × HasKey kvps j path
      × ((k : ℕ) → k < j → HasKey kvps k path → ⊥))
    ⊎ ((result ≡ ok minus_one) × ((k : ℕ) → HasKey kvps k path → ⊥))

later :
    (e : Kvp) (kvps : List Kvp) (j : ℕ) (path : List ℕ)
    → HasKey (e ∷ kvps) (suc j) path
    → HasKey kvps j path
later e kvps j path h = record {
  entry = h.entry;
  stands = h.stands;
  valid = h.valid;
  after = h.after;
  bytes = h.bytes;
}

pass_by :
    (e : Kvp) (kvps : List Kvp) (path : List ℕ) (i : ℕ) (result : Outcome ℤ)
    → (HasKey (e ∷ kvps) 0 path → ⊥)
    → LookedUp kvps path (i + 1) result
    → LookedUp (e ∷ kvps) path i result
pass_by e kvps path i result head (inl (j, runs, h, first)) = inl (
  suc j,
  runs ∙ ap (λ n. ok (pos n)) (omega arith),
  record { entry = h.entry; stands = h.stands; valid = h.valid; after = h.after; bytes = h.bytes },
  all,
)
  where
    all : (k : ℕ) → k < suc j → HasKey (e ∷ kvps) k path → ⊥
    all zero less w = head w
    all (suc k) less w = first k (omega arith) (later e kvps k path w)
pass_by e kvps path i result head (inr (runs, nowhere)) = inr (runs, all)
  where
    all : (k : ℕ) → HasKey (e ∷ kvps) k path → ⊥
    all zero w = head w
    all (suc k) w = nowhere k (later e kvps k path w)

head_entry :
    (e : Kvp) (kvps : List Kvp) (path : List ℕ) (h : HasKey (e ∷ kvps) 0 path) → e ≡ h.entry
head_entry e kvps path h = cc

unused_head :
    (e : Kvp) (kvps : List Kvp) (path : List ℕ) → e.valid ≡ false → HasKey (e ∷ kvps) 0 path → ⊥
unused_head e kvps path off h = cc
  where
    on : e.valid ≡ true
    on = ap (λ (x : Kvp). x.valid) (head_entry e kvps path h) ∙ h.valid

-- A head with the key compares equal.
head_equal :
    (e : Kvp) (kvps : List Kvp) (path rest : List ℕ) (d : ℤ)
    → IsText path
    → strcmp (stored path rest) e.key ≡ ok d
    → HasKey (e ∷ kvps) 0 path
    → d ≡ pos 0
head_equal e kvps path rest d p runs h =
    let (d', runs', same) = strcmp_lem path path rest h.after p p in
    ok_injective (
      sym runs
      ∙ ap (strcmp (stored path rest))
          (ap (λ (x : Kvp). x.key) (head_entry e kvps path h) ∙ h.bytes)
      ∙ runs')
    ∙ same.1 refl
  where
    ok_injective : {a b : ℤ} → ◌≡◌ {A = Outcome ℤ} (ok a) (ok b) → a ≡ b
    ok_injective q = cc

step_unused :
    (e : Kvp) (kvps : List Kvp) (path : List ℕ) (i : ℕ)
    → e.valid ≡ false
    → lookup (e ∷ kvps) path i ≡ lookup kvps path (i + 1)
unfolding lookup
step_unused e kvps path i off = rw (off, lookup)

step_used :
    (e : Kvp) (kvps : List Kvp) (path : List ℕ) (i : ℕ) (d : ℤ)
    → e.valid ≡ true
    → strcmp path e.key ≡ ok d
    → lookup (e ∷ kvps) path i
      ≡ elim (is_zero d) [ true ↦ ok (pos i) | false ↦ lookup kvps path (i + 1) ]
unfolding lookup
step_used e kvps path i d on runs = rw (on, lookup, runs, ◌>>=◌)

is_zero-pos : (z : ℤ) → is_zero z ≡ true → z ≡ pos 0
is_zero-pos (pos zero) e = refl
is_zero-pos (pos (suc n)) e = cc
is_zero-pos (negsuc n) e = cc

not_zero : (z : ℤ) → is_zero z ≡ false → z ≡ pos 0 → ⊥
not_zero z e same = let zero_z : is_zero z ≡ true = ap is_zero same in cc

-- For a path and keys that are strings, `lookup` ends, and gives the first entry in use whose key is the
-- path, or -1 if there is none.
pub lookup_lem :
    (kvps : List Kvp) (path rest : List ℕ) (i : ℕ)
    → AllKeys kvps
    → IsText path
    → LookedUp kvps path i (lookup kvps (stored path rest) i)
unfolding lookup
lookup_lem [] path rest i a p = inr (refl, λ k h. absurd (empty k h))
  where
    empty : (k : ℕ) → HasKey [] k path → ⊥
    empty k h = let e = h.stands in cc
lookup_lem (e ∷ kvps) path rest i a p = elim (Bool-cases e.valid) [
  | inr off ↦ rw (step_unused e kvps (stored path rest) i off) (
      pass_by e kvps path i _ (unused_head e kvps path off)
        (lookup_lem kvps path rest (i + 1) (λ j. a (suc j)) p))
  | inl on ↦
      let (key, after, bytes, t) = a 0 e refl on in
      let (d, runs, iff) = strcmp_lem path key rest after p t in
      let compares = ap (strcmp (stored path rest)) bytes ∙ runs in
      elim (Bool-cases (is_zero d)) [
        | inl zero_d ↦
            let same : path ≡ key = iff.0 (is_zero-pos d zero_d) in
            inl (
              0,
              step_used e kvps (stored path rest) i d on compares
                  ∙ rw (zero_d) (ap (λ n. ok (pos n)) (omega arith)),
              record {
                entry = e;
                stands = refl;
                valid = on;
                after = after;
                bytes = bytes ∙ ap (λ x. stored x after) (sym same);
              },
              λ k less. absurd (omega arith),
            )
        | inr nonzero ↦
            rw (step_used e kvps (stored path rest) i d on compares, nonzero)
              (pass_by e kvps path i _
                (λ h. absurd (not_zero d nonzero (head_equal e kvps path rest d p compares h)))
                (lookup_lem kvps path rest (i + 1) (λ j. a (suc j)) p))
      ]
]
