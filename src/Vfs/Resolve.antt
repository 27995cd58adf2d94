-- ===== src/Vfs/Resolve.antt =====
-- From a path to its file system and the rest of the path: what `access` and `open` of src/vfs.c begin with.
use oslab2_virtualfs.Base.{
  arith, length-append, ℕ, ◌≡◌, ◌≤◌, ◌<◌, refl, ap, ◌∙◌, ◌⊎◌, inl, inr, true, List, [], ◌∷◌, ◌++◌,
  some, ok, pos, minus_one, length, drop, drop-length_append, get_elem?,
}
use oslab2_virtualfs.Libc.Str.{strlen}
use oslab2_virtualfs.Libc.Str.Laws.{IsText, stored, strlen_lem}
use oslab2_virtualfs.Vfs.Match.{Matches, AllStored}
use oslab2_virtualfs.Vfs.Find.{find_fs_lem}
use oslab2_virtualfs.Vfs.{Mount, find_fs}

-- Entry `j` is the first of those with the longest mount path that `path` begins with, and `tail` is the
-- rest of the path.
pub record Resolves (mounts : List Mount) (path rest : List ℕ) (entry : Mount) (tail : List ℕ)
    : Type 0 where
  pub number : ℕ
  pub text : List ℕ
  pub whole : path ≡ text ++ tail
  pub stands : get_elem? mounts number ≡ some entry
  pub valid : entry.valid ≡ true
  pub after : List ℕ
  pub bytes : entry.path ≡ stored text after
  pub is_text : IsText text
  pub found : find_fs (stored path rest) mounts ≡ ok (pos number)
  pub skipped : strlen entry.path ≡ ok (length text)
  pub relative : drop (length text) (stored path rest) ≡ stored tail rest
  pub tail_text : IsText tail
  pub longest :
      (k : ℕ) (t : List ℕ)
      → Matches mounts path k t
      → (length t ≤ length text) × (k < number → length t < length text)

append_assoc : (a b c : List ℕ) → (a ++ b) ++ c ≡ a ++ (b ++ c)
append_assoc [] b c = refl
append_assoc (x ∷ a) b c = ap (◌∷◌ x) (append_assoc a b c)

suffix-IsText : (a b : List ℕ) → IsText (a ++ b) → IsText b
suffix-IsText [] b t = t
suffix-IsText (x ∷ a) b t = suffix-IsText a b t.2

resolves :
    (mounts : List Mount) (path rest : List ℕ) (j : ℕ) (text : List ℕ)
    → IsText path
    → (w : Matches mounts path j text) → find_fs (stored path rest) mounts ≡ ok (pos j)
    → ((k : ℕ) (t : List ℕ)
        → Matches mounts path k t
        → (length t ≤ length text) × (k < j → length t < length text))
    → Resolves mounts path rest w.entry w.begins.0
resolves mounts path rest j text p w found longest = record {
  number = j;
  text = text;
  whole = w.begins.1;
  stands = w.stands;
  valid = w.valid;
  after = w.after;
  bytes = w.bytes;
  is_text = w.is_text;
  found = found;
  skipped = ap strlen w.bytes ∙ strlen_lem text w.after w.is_text;
  relative =
      ap (λ x. drop (length text) (stored x rest)) w.begins.1
      ∙ ap (drop (length text)) (append_assoc text w.begins.0 (0 ∷ rest))
      ∙ drop-length_append text (stored w.begins.0 rest);
  tail_text = suffix-IsText text w.begins.0 (rw w.begins.1 at p);
  longest = longest;
}

-- The longest mount path is the path itself, if it is a mount path at all.
pub whole_match :
    (mounts : List Mount) (path rest : List ℕ) (entry : Mount) (tail : List ℕ)
    → (r : Resolves mounts path rest entry tail) → (k : ℕ) → Matches mounts path k path
    → path ≡ r.text
whole_match mounts path rest entry tail r k w =
    r.whole ∙ ap (λ t. r.text ++ t) (empty tail short) ∙ append_nil r.text
  where
    short : length tail ≡ 0
    short = omega (
      arith,
      (r.longest k path w).0,
      ap (λ (x : List ℕ). length x) r.whole,
      length-append r.text tail,
    )

    empty : (xs : List ℕ) → length xs ≡ 0 → xs ≡ []
    empty [] e = refl
    empty (x ∷ xs) e = absurd (omega arith)

    append_nil : (xs : List ℕ) → xs ++ [] ≡ xs
    append_nil [] = refl
    append_nil (x ∷ xs) = ap (◌∷◌ x) (append_nil xs)

-- A path resolves, or no mount path that is not empty is a beginning of it.
pub resolve :
    (mounts : List Mount) (path rest : List ℕ)
    → AllStored mounts
    → IsText path
    → ((entry : Mount) × (tail : List ℕ) × Resolves mounts path rest entry tail)
      ⊎ ((find_fs (stored path rest) mounts ≡ ok minus_one)
          × ((k : ℕ) (t : List ℕ) → Matches mounts path k t → length t ≤ 0))
resolve mounts path rest a p = elim (find_fs_lem mounts path rest a p) [
  | inl (runs, none_matches) ↦ inr (runs, none_matches)
  | inr (j, text, runs, w, longer, best) ↦
      inl (w.entry, w.begins.0, resolves mounts path rest j text p w runs best)
]
