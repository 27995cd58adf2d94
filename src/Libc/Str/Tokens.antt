-- ===== src/Libc/Str/Tokens.antt =====
-- libc/src/string/strtok.c. NULL is `none`; `old` holds the bytes from the static pointer on.
use oslab2_virtualfs.Base.{
  ℕ, zero, suc, ◌≡◌, ◌≢◌, refl, sym, ap, ◌∙◌, arith, Bool, true, false, List, [], ◌∷◌, ◌++◌, Option,
  none, some, ◌==◌, Outcome, ok, undefined, ◌>>=◌, get_or, set, length, replicate, length-replicate,
  length-set, get_or-set_self, get_or-set_ne, if◌then◌else◌, ==→eq, ne→==,
}
use oslab2_virtualfs.Libc.Str.Laws.{IsText, stored}

-- The loop that fills `delim_map`.
pub mark_delims : List ℕ → List Bool → Outcome (List Bool)
mark_delims [] delim_map = undefined
mark_delims (c ∷ delim) delim_map = elim (c == 0) [
  | true ↦ ok delim_map
  | false ↦ mark_delims delim (set delim_map c true)
]

-- The loop over `str`; `none` is its end at the terminator.
pub skip_delims : List Bool → List ℕ → Outcome (Option (List ℕ))
skip_delims delim_map [] = undefined
skip_delims delim_map (c ∷ str) = elim (c == 0) [
  | true ↦ ok none
  | false ↦ elim (get_or delim_map c false) [
    | false ↦ ok (some (c ∷ str))
    | true ↦ skip_delims delim_map str
  ]
]

-- The code from `cont` on: the bytes from `str` on, and `old`.
pub cut_token : List Bool → List ℕ → Outcome (List ℕ × Option (List ℕ))
cut_token delim_map [] = undefined
cut_token delim_map (c ∷ old) = elim (c == 0) [
  | true ↦ ok (c ∷ old, none)
  | false ↦ elim (get_or delim_map c false) [
    | true ↦ ok (0 ∷ old, some old)
    | false ↦ do (bytes, old1) ← cut_token delim_map old; ok (c ∷ bytes, old1)
  ]
]

-- `strtok` from the test of `str` for NULL on, when it is not.
pub next_token : List Bool → List ℕ → Outcome (Option (List ℕ) × Option (List ℕ))
unfolding skip_delims
next_token delim_map str = skip_delims delim_map str >>= λ found. elim found [
  | none ↦ ok (none, none)
  | some str1 ↦ do (bytes, old) ← cut_token delim_map str1; ok (some bytes, old)
]

-- `strtok`, with the bytes from the returned pointer on, and the new `old`.
pub strtok :
    Option (List ℕ) → Option (List ℕ) → List ℕ → Outcome (Option (List ℕ) × Option (List ℕ))
unfolding mark_delims
strtok str old delim = mark_delims delim (replicate 256 false) >>= λ delim_map. elim str [
  | some s ↦ next_token delim_map s
  | none ↦ elim old [ none ↦ ok (none, none) | some s ↦ next_token delim_map s ]
]

-- Whether a byte is one of the delimiters.
abbrev pub contains : List ℕ → ℕ → Bool
contains [] c = false
contains (d ∷ delim) c = if d == c then true else contains delim c

abbrev pub AllDelims : List ℕ → List ℕ → Type 0
AllDelims delim [] = Unit {0}
AllDelims delim (c ∷ s) = (contains delim c ≡ true) × AllDelims delim s

abbrev pub NoDelims : List ℕ → List ℕ → Type 0
NoDelims delim [] = Unit {0}
NoDelims delim (c ∷ s) = (contains delim c ≡ false) × NoDelims delim s

-- The map has the delimiters.
abbrev Marks : List ℕ → List Bool → List Bool → Type 0
Marks delim delim_map m =
    (c : ℕ) → get_or m c false ≡ (if contains delim c then true else get_or delim_map c false)

mark_delims-Marks :
    (delim after : List ℕ) (delim_map : List Bool)
    → IsText delim
    → length delim_map ≡ 256
    → (m : List Bool) × (mark_delims (stored delim after) delim_map ≡ ok m)
      × Marks delim delim_map m
unfolding mark_delims
mark_delims-Marks [] after delim_map text size = (delim_map, refl, λ c. refl)
mark_delims-Marks (d ∷ delim) after delim_map text size =
    let (m, runs, marks) =
      mark_delims-Marks delim after (set delim_map d true) text.2
        (length-set delim_map d true ∙ size) in
    (m, ground (arith, text.0), λ c. marks c ∙ by_cases (d == c) (contains delim c) c refl)
  where
    by_cases :
        (same in_rest : Bool) (c : ℕ)
        → (d == c) ≡ same
        → (if in_rest then true else get_or (set delim_map d true) c false)
          ≡ (if (if same then true else in_rest) then true else get_or delim_map c false)
    by_cases true true c e = refl
    by_cases false true c e = refl
    by_cases true false c e =
        ap (get_or (set delim_map d true) c) refl
        ∙ ap (λ k. get_or (set delim_map d true) k false) (sym (==→eq d c e))
        ∙ get_or-set_self delim_map d true false (omega (arith, text.1, size))
    by_cases false false c e = get_or-set_ne delim_map d c true false (ground (arith, e))

-- A map that tells the delimiters.
module _ (delim : List ℕ) (m : List Bool)
    (marks : (c : ℕ) → get_or m c false ≡ contains delim c) where
  skip_before :
      (before tail : List ℕ)
      → IsText before
      → AllDelims delim before
      → skip_delims m (before ++ tail) ≡ skip_delims m tail
  unfolding skip_delims
  skip_before [] tail text all = refl
  skip_before (c ∷ before) tail text all =
      rw (skip_delims, ne→== c 0 (omega (arith, text.0)), marks c, all.0)
        (skip_before before tail text.2 all.1)

  cut_at_delim :
      (tok rest : List ℕ) (d : ℕ)
      → IsText tok
      → NoDelims delim tok
      → d ≢ 0
      → contains delim d ≡ true
      → cut_token m (tok ++ d ∷ rest) ≡ ok (stored tok rest, some rest)
  unfolding cut_token
  cut_at_delim [] rest d text none_in some_byte is_delim =
      rw (cut_token, ne→== d 0 some_byte, marks d, is_delim) refl
  cut_at_delim (c ∷ tok) rest d text none_in some_byte is_delim =
      rw
        (
          cut_token,
          ne→== c 0 (omega (arith, text.0)),
          marks c,
          none_in.0,
          cut_at_delim tok rest d text.2 none_in.1 some_byte is_delim,
        )
        refl

  cut_at_end :
      (tok rest : List ℕ)
      → IsText tok
      → NoDelims delim tok
      → cut_token m (stored tok rest) ≡ ok (stored tok rest, none)
  unfolding cut_token
  cut_at_end [] rest text none_in = refl
  cut_at_end (c ∷ tok) rest text none_in =
      rw
        (
          cut_token,
          ne→== c 0 (omega (arith, text.0)),
          marks c,
          none_in.0,
          cut_at_end tok rest text.2 none_in.1,
        )
        refl

  next_at :
      (before tok tail bytes : List ℕ) (old : Option (List ℕ))
      → IsText before
      → AllDelims delim before
      → IsText tok
      → NoDelims delim tok
      → tok ≢ []
      → cut_token m (tok ++ tail) ≡ ok (bytes, old)
      → next_token m (before ++ (tok ++ tail)) ≡ ok (some bytes, old)
  unfolding next_token skip_delims
  next_at before [] tail bytes old text all text1 none_in some_byte cuts = absurd (some_byte refl)
  next_at before (c ∷ tok) tail bytes old text all text1 none_in some_byte cuts =
      rw (next_token, skip_before before (c ∷ tok ++ tail) text all, stops, ◌>>=◌, cuts) refl
    where
      stops : skip_delims m (c ∷ tok ++ tail) ≡ ok (some (c ∷ tok ++ tail))
      stops = rw (skip_delims, ne→== c 0 (omega (arith, text1.0)), marks c, none_in.0) refl

  next_end :
      (before rest : List ℕ)
      → IsText before
      → AllDelims delim before
      → next_token m (stored before rest) ≡ ok (none, none)
  unfolding next_token skip_delims
  next_end before rest text all = rw (next_token, skip_before before (0 ∷ rest) text all) refl

no_marks : (n c : ℕ) → get_or (replicate n false) c false ≡ false
no_marks zero c = refl
no_marks (suc n) zero = refl
no_marks (suc n) (suc c) = no_marks n c

-- The map of `strtok`.
delim_map_lem :
    (delim after : List ℕ)
    → IsText delim
    → (m : List Bool) × (mark_delims (stored delim after) (replicate 256 false) ≡ ok m)
      × ((c : ℕ) → get_or m c false ≡ contains delim c)
delim_map_lem delim after text =
    let (m, runs, marks) =
      mark_delims-Marks delim after (replicate 256 false) text (length-replicate 256 false) in
    (
      m,
      runs,
      λ c.
          marks c
          ∙ ap (λ b. if contains delim c then true else b) (no_marks 256 c)
          ∙ same (contains delim c),
    )
  where
    same : (b : Bool) → (if b then true else false) ≡ b
    same true = refl
    same false = refl

-- `strtok` on a string, which begins with bytes that are delimiters: with a token after them it gives the token, ended where the next
-- delimiter stood, and keeps what follows, or, at the end of the string, the token and nothing; without one it gives NULL.
-- With NULL for the string it does the same on what was kept, and gives NULL if nothing was.
pub strtok_lem :
    (delim after before tok rest : List ℕ) (d : ℕ) (old : Option (List ℕ))
    → IsText delim
    → IsText before
    → AllDelims delim before
    → IsText tok
    → NoDelims delim tok
    → tok ≢ []
    → d ≢ 0
    → contains delim d ≡ true
    → (strtok (some (before ++ (tok ++ d ∷ rest))) old (stored delim after)
        ≡ ok (some (stored tok rest), some rest))
      × (strtok (some (before ++ stored tok rest)) old (stored delim after)
          ≡ ok (some (stored tok rest), none))
      × (strtok (some (stored before rest)) old (stored delim after) ≡ ok (none, none))
      × ((s : List ℕ)
          → strtok none (some s) (stored delim after) ≡ strtok (some s) old (stored delim after))
      × (strtok none none (stored delim after) ≡ ok (none, none))
unfolding strtok
strtok_lem delim after before tok rest d old text_d text all text1 none_in some_tok some_byte
      is_delim =
    let (m, runs, marks) = delim_map_lem delim after text_d in
    (
      rw (strtok, runs)
          (next_at delim m marks before tok (d ∷ rest) _ _ text all text1 none_in some_tok
            (cut_at_delim delim m marks tok rest d text1 none_in some_byte is_delim)),
      rw (strtok, runs)
          (next_at delim m marks before tok (0 ∷ rest) _ _ text all text1 none_in some_tok
            (cut_at_end delim m marks tok rest text1 none_in)),
      rw (strtok, runs) (next_end delim m marks before rest text all),
      λ s. refl,
      rw (strtok, runs) refl,
    )
