-- ===== src/Libc/Str/Laws.antt =====
-- What the functions of libc/src/string do on C strings.
use oslab2_virtualfs.Base.{
  ℕ, zero, suc, ◌+◌, ◌%◌, ◌^◌, ◌≤◌, ◌<◌, ◌≡◌, ◌≢◌, refl, ap, ap₂, ◌∙◌, List, [], ◌∷◌, ◌++◌, arith,
  length, take, drop, replicate, ok, pos, ℤ, ◌↔◌,
}
use native.Mathlib.Decide.{ℕ_discrete}
use oslab2_virtualfs.Libc.Str.{strlen, strlen_loop, strcmp, strcpy, memcpy, memset, char_diff}

-- The bytes of a string: none is the terminator.
abbrev pub IsText : List ℕ → Type 0
IsText [] = Unit {0}
IsText (c ∷ s) = (1 ≤ c) × (c < 256) × IsText s

-- A string in memory: its bytes, the terminator, and what follows it in the object.
abbrev pub stored : List ℕ → List ℕ → List ℕ
stored s after = s ++ 0 ∷ after

strlen_loop_lem :
    (s after : List ℕ) (n : ℕ) → IsText s → strlen_loop (stored s after) n ≡ ok (n + length s)
unfolding strlen_loop
strlen_loop_lem [] after n t = ap ok (omega arith)
strlen_loop_lem (c ∷ s) after n t = ground (arith, strlen_loop_lem s after (n + 1) t.2)

-- `strlen` of a string is its length.
pub strlen_lem : (s after : List ℕ) → IsText s → strlen (stored s after) ≡ ok (length s)
unfolding strlen
strlen_lem s after t = strlen_loop_lem s after 0 t ∙ ap ok (omega arith)

strcmp_self :
    (s after after' : List ℕ) → IsText s → strcmp (stored s after) (stored s after') ≡ ok (pos 0)
unfolding strcmp
strcmp_self [] after after' t = refl
strcmp_self (c ∷ s) after after' t = ground (arith, strcmp_self s after after' t.2)

strcmp_ne :
    (s t after after' : List ℕ)
    → IsText s
    → IsText t
    → s ≢ t
    → (d : ℤ) × (strcmp (stored s after) (stored t after') ≡ ok d) × (d ≢ pos 0)
unfolding strcmp
strcmp_ne [] [] after after' p q ne = absurd (ne refl)
strcmp_ne [] (b ∷ t) after after' p q ne = (char_diff 0 b, refl, ground arith)
strcmp_ne (a ∷ s) [] after after' p q ne = (char_diff a 0, ground arith, ground arith)
strcmp_ne (a ∷ s) (b ∷ t) after after' p q ne = elim (ℕ_discrete a b) [
  | yes e ↦
      let (d, runs, nonzero) = strcmp_ne s t after after' p.2 q.2 (λ r. ne (ap₂ ◌∷◌ e r)) in
      (d, ground arith, nonzero)
  | no differ ↦ (char_diff a b, ground arith, ground arith)
]

-- `strcmp` of two strings ends, and its value is 0 exactly when they are equal.
pub strcmp_lem :
    (s t after after' : List ℕ)
    → IsText s
    → IsText t
    → (d : ℤ) × (strcmp (stored s after) (stored t after') ≡ ok d) × ((d ≡ pos 0) ↔ (s ≡ t))
strcmp_lem s t after after' p q = elim (text_discrete s t) [
  | yes e ↦ (pos 0, rw (← e) (strcmp_self s after after' p), ((λ _. e), λ _. refl))
  | no ne ↦
      let (d, runs, nonzero) = strcmp_ne s t after after' p q ne in
      (d, runs, ((λ z. absurd (nonzero z)), λ e. absurd (ne e)))
]
  where
    text_discrete : (s t : List ℕ) → Dec (s ≡ t)
    text_discrete [] [] = yes refl
    text_discrete [] (b ∷ t) = no (λ e. cc)
    text_discrete (a ∷ s) [] = no (λ e. cc)
    text_discrete (a ∷ s) (b ∷ t) = elim (ℕ_discrete a b) [
      | yes e ↦ elim (text_discrete s t) [ yes r ↦ yes (ap₂ ◌∷◌ e r) | no ne ↦ no (λ h. ne (cc)) ]
      | no ne ↦ no (λ h. ne (cc))
    ]

-- `strcpy` of a string that is not empty copies its bytes and not the terminator: the rest of the
-- destination stays as it was.
pub strcpy_lem :
    (s after dest : List ℕ)
    → IsText s
    → s ≢ []
    → length s ≤ length dest
    → strcpy dest (stored s after) ≡ ok (s ++ drop (length s) dest)
unfolding strcpy
strcpy_lem [] after dest t ne fits = absurd (ne refl)
strcpy_lem (c ∷ s) after [] t ne fits = absurd (omega arith)
strcpy_lem (c ∷ []) after (d ∷ dest) t ne fits = refl
strcpy_lem (c ∷ x ∷ s) after (d ∷ dest) t ne fits =
    ground (arith, strcpy_lem (x ∷ s) after dest t.2 (λ e. cc) (omega arith))

-- `memset` sets the first `n` bytes to the value's low byte and leaves the rest.
pub memset_lem :
    (n ch : ℕ) (dest : List ℕ)
    → n ≤ length dest
    → memset n ch dest ≡ ok (replicate n (ch % 2 ^ 8) ++ drop n dest)
unfolding memset
memset_lem zero ch dest h = refl
memset_lem (suc n) ch [] h = absurd (omega arith)
memset_lem (suc n) ch (d ∷ dest) h = rw (memset_lem n ch dest (omega arith))

-- `memcpy` copies the first `n` bytes and leaves the rest.
pub memcpy_lem :
    (n : ℕ) (dest src : List ℕ)
    → n ≤ length dest
    → n ≤ length src
    → memcpy n dest src ≡ ok (take n src ++ drop n dest)
unfolding memcpy
memcpy_lem zero dest src h k = refl
memcpy_lem (suc n) [] src h k = absurd (omega arith)
memcpy_lem (suc n) (d ∷ dest) [] h k = absurd (omega arith)
memcpy_lem (suc n) (d ∷ dest) (c ∷ src) h k = rw (memcpy_lem n dest src (omega arith) (omega arith))
