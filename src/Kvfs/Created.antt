-- ===== src/Kvfs/Created.antt =====
-- `lookup` of src/fs/kvfs.c on a table with one more key.
use oslab2_virtualfs.Base.{
  ℕ, zero, suc, ◌+◌, ◌≡◌, ◌≢◌, refl, sym, ap, ◌∙◌, true, false, Bool, List, ◌∷◌, Outcome, ok,
  halted, undefined, unfinished, ◌>>=◌, ℤ, pos, negsuc, minus_one, is_zero,
}
use oslab2_virtualfs.Libc.Str.{strcmp}
use oslab2_virtualfs.Libc.Str.Laws.{IsText, stored, strcmp_lem}
use oslab2_virtualfs.Kvfs.{Kvp, lookup}

-- `create` has put the path in the first entry that was not in use, which has number `n`.
pub data Created (path : List ℕ) : ℕ → List Kvp → ℕ → List Kvp → Type 0 where
  here :
      {i : ℕ} {kvps : List Kvp} (e f : Kvp) (after : List ℕ)
      → e.valid ≡ false
      → f.valid ≡ true
      → f.key ≡ stored path after
      → Created path i (e ∷ kvps) i (f ∷ kvps)
  there :
      {i n : ℕ} {kvps kvps1 : List Kvp} (e : Kvp)
      → e.valid ≡ true
      → Created path (i + 1) kvps n kvps1
      → Created path i (e ∷ kvps) n (e ∷ kvps1)

-- What `lookup` does at an entry in use.
used_entry :
    (e : Kvp) (kvps : List Kvp) (path : List ℕ) (i : ℕ)
    → e.valid ≡ true
    → lookup (e ∷ kvps) path i ≡ (
        strcmp path e.key >>= λ d. elim (is_zero d) [
          | true ↦ ok (pos i)
          | false ↦ lookup kvps path (i + 1)
        ])
unfolding lookup
used_entry e kvps path i on = rw (on, lookup)

unused_entry :
    (e : Kvp) (kvps : List Kvp) (path : List ℕ) (i : ℕ)
    → e.valid ≡ false
    → lookup (e ∷ kvps) path i ≡ lookup kvps path (i + 1)
unfolding lookup
unused_entry e kvps path i off = rw (off, lookup)

-- Where the path was not found, it now is.
pub found_Created :
    (path rest : List ℕ) {i n : ℕ} {kvps kvps1 : List Kvp}
    → IsText path
    → Created path i kvps n kvps1
    → lookup kvps (stored path rest) i ≡ ok minus_one
    → lookup kvps1 (stored path rest) i ≡ ok (pos n)
found_Created path rest {i} {n} text (here {kvps = kvps} e f after off on is_path) missing =
    let (d, compares, same) = strcmp_lem path path rest after text text in
    used_entry f kvps (stored path rest) i on ∙ rw (is_path, compares, ◌>>=◌, same.1 refl) refl
found_Created path rest {i} {n} text (there {kvps = kvps} {kvps1 = kvps1} e on later) missing =
    used_entry e kvps1 (stored path rest) i on
    ∙ by_compare (found_Created path rest text later) (strcmp (stored path rest) e.key)
        (sym (used_entry e kvps (stored path rest) i on) ∙ missing)
  where
    Found : Type 0
    Found =
        lookup kvps (stored path rest) (i + 1) ≡ ok minus_one
        → lookup kvps1 (stored path rest) (i + 1) ≡ ok (pos n)

    by_zero :
        Found
        → (zero_d : Bool)
        → elim zero_d [ true ↦ ok (pos i) | false ↦ lookup kvps (stored path rest) (i + 1) ]
          ≡ ok minus_one
        → elim zero_d [ true ↦ ok (pos i) | false ↦ lookup kvps1 (stored path rest) (i + 1) ]
          ≡ ok (pos n)
    by_zero found true missing = cc
    by_zero found false missing = found missing

    by_compare :
        Found
        → (m : Outcome ℤ)
        → (m >>= λ d. elim (is_zero d) [
          | true ↦ ok (pos i)
          | false ↦ lookup kvps (stored path rest) (i + 1)
        ])
          ≡ ok minus_one
        → (m >>= λ d. elim (is_zero d) [
          | true ↦ ok (pos i)
          | false ↦ lookup kvps1 (stored path rest) (i + 1)
        ])
          ≡ ok (pos n)
    by_compare found (ok d) missing = by_zero found (is_zero d) missing
    by_compare found (halted c) missing = cc
    by_compare found undefined missing = cc
    by_compare found unfinished missing = cc

-- Another path is looked up as before.
pub other_Created :
    (path other rest : List ℕ) {i n : ℕ} {kvps kvps1 : List Kvp}
    → IsText path
    → IsText other
    → other ≢ path
    → Created path i kvps n kvps1
    → lookup kvps1 (stored other rest) i ≡ lookup kvps (stored other rest) i
other_Created path other rest {i} {n} text text1 differs
      (here {kvps = kvps} e f after off on is_path) =
    let (d, compares, same) = strcmp_lem other path rest after text1 text in
    used_entry f kvps (stored other rest) i on
    ∙ rw (is_path, compares, ◌>>=◌, not_zero d (λ z. differs (same.0 z))) refl
    ∙ sym (unused_entry e kvps (stored other rest) i off)
  where
    not_zero : (d : ℤ) → (d ≡ pos 0 → ⊥) → is_zero d ≡ false
    not_zero (pos zero) ne = absurd (ne refl)
    not_zero (pos (suc n)) ne = refl
    not_zero (negsuc n) ne = refl
other_Created path other rest {i} {n} text text1 differs
      (there {kvps = kvps} {kvps1 = kvps1} e on later) =
    used_entry e kvps1 (stored other rest) i on
    ∙ ap
        (λ x. strcmp (stored other rest) e.key >>= λ d. elim (is_zero d) [
          | true ↦ ok (pos i)
          | false ↦ x
        ])
        (other_Created path other rest text text1 differs later)
    ∙ sym (used_entry e kvps (stored other rest) i on)
