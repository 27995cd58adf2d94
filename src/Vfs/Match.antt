-- ===== src/Vfs/Match.antt =====
-- The inner loop of `find_fs` of src/vfs.c: whether a path begins with a mount path.
use oslab2_virtualfs.Base.{
  ℕ, ◌+◌, ◌≡◌, refl, ap, ap₂, ◌⊎◌, inl, inr, arith, true, List, [], ◌∷◌, ◌++◌, none, some, length,
  get_elem?, ok,
}
use native.Mathlib.Decide.{ℕ_discrete}
use oslab2_virtualfs.Libc.Str.Laws.{IsText, stored}
use oslab2_virtualfs.Vfs.{Mount, match_loop}

abbrev pub Prefix : List ℕ → List ℕ → Type 0
Prefix text path = (rest : List ℕ) × (path ≡ text ++ rest)

-- A mount path matches, or a byte differs.
pub match_loop_lem :
    (text after path rest : List ℕ) (n : ℕ)
    → IsText text
    → IsText path
    → ((match_loop (stored text after) (stored path rest) n ≡ ok (some (n + length text)))
        × Prefix text path)
      ⊎ ((match_loop (stored text after) (stored path rest) n ≡ ok none) × (Prefix text path → ⊥))
unfolding match_loop
match_loop_lem [] after [] rest n t p = inl (ap (λ x. ok (some x)) (omega arith), ([], refl))
match_loop_lem [] after (c ∷ path) rest n t p =
    inl (ap (λ x. ok (some x)) (omega arith), (c ∷ path, refl))
match_loop_lem (m ∷ text) after [] rest n t p = inr (ground arith, λ (r, e). cc)
match_loop_lem (m ∷ text) after (c ∷ path) rest n t p = elim (ℕ_discrete c m) [
  | no ne ↦ inr (ground arith, λ (r, e). ne (cc))
  | yes same ↦ elim (match_loop_lem text after path rest (n + 1) t.2 p.2) [
    | inl (runs, (r, e)) ↦ inl (ground (arith, runs), (r, ap₂ ◌∷◌ same e))
    | inr (runs, differs) ↦ inr (ground (arith, runs), λ (r, e). differs (r, cc))
  ]
]

-- Entry `j` of the table is in use, and its path is a string `text` that the given path begins with.
pub record Matches (mounts : List Mount) (path : List ℕ) (j : ℕ) (text : List ℕ) : Type 0 where
  pub entry : Mount
  pub stands : get_elem? mounts j ≡ some entry
  pub valid : entry.valid ≡ true
  pub after : List ℕ
  pub bytes : entry.path ≡ stored text after
  pub is_text : IsText text
  pub begins : Prefix text path

-- Every entry in use has a string for its path.
abbrev pub AllStored : List Mount → Type 0
AllStored mounts =
    (j : ℕ) (m : Mount)
    → get_elem? mounts j ≡ some m
    → m.valid ≡ true
    → (text : List ℕ) × (after : List ℕ) × (m.path ≡ stored text after) × IsText text
