-- ===== src/Vfs/Find.antt =====
-- The search of `find_fs` of src/vfs.c: the longest mount path that the path begins with.
use oslab2_virtualfs.Base.{
  ℕ, zero, suc, ◌+◌, ◌≤◌, ◌<◌, ◌≡◌, refl, sym, ap, ◌∙◌, ◌⊎◌, inl, inr, arith, true, false,
  Bool-cases, List, [], ◌∷◌, Option, none, some, ltb, length, Outcome, ok, ◌>>=◌, ℤ, pos, minus_one,
  lt→ltb, le→ltb_false,
}
use native.Mathlib.Decide.{dec_lt}
use oslab2_virtualfs.Libc.Str.Laws.{IsText, stored}
use oslab2_virtualfs.Vfs.{Mount, match_loop, find_loop, find_fs}
use oslab2_virtualfs.Vfs.Match.{match_loop_lem, Matches, AllStored}

-- What the search reports from the entries of which the first is number `i`: `ret`, where no match is
-- longer than `maxlen`, or the first of the longest.
abbrev Found : List Mount → List ℕ → ℕ → ℕ → ℤ → Outcome ℤ → Type 0
Found mounts path i maxlen ret result =
    ((result ≡ ok ret) × ((k : ℕ) (t : List ℕ) → Matches mounts path k t → length t ≤ maxlen))
    ⊎ ((j : ℕ) × (text : List ℕ) × (result ≡ ok (pos (i + j)))
        × Matches mounts path j text
        × (maxlen < length text)
        × ((k : ℕ) (t : List ℕ)
            → Matches mounts path k t
            → (length t ≤ length text) × (k < j → length t < length text)))

-- What `find_fs` reports.
abbrev pub Longest : List Mount → List ℕ → Outcome ℤ → Type 0
Longest mounts path result =
    ((result ≡ ok minus_one) × ((k : ℕ) (t : List ℕ) → Matches mounts path k t → length t ≤ 0))
    ⊎ ((j : ℕ) × (text : List ℕ) × (result ≡ ok (pos j))
        × Matches mounts path j text
        × (0 < length text)
        × ((k : ℕ) (t : List ℕ)
            → Matches mounts path k t
            → (length t ≤ length text) × (k < j → length t < length text)))

some_injective : {a b : ℕ} → ◌≡◌ {A = Outcome (Option ℕ)} (ok (some a)) (ok (some b)) → a ≡ b
some_injective e = cc

some_ne_none : {a : ℕ} → ◌≡◌ {A = Outcome (Option ℕ)} (ok (some a)) (ok none) → ⊥
some_ne_none e = cc

-- What the inner loop says of a head that matches.
head_run :
    (m : Mount) (ms : List Mount) (path rest text : List ℕ)
    → IsText path
    → Matches (m ∷ ms) path 0 text
    → match_loop m.path (stored path rest) 0 ≡ ok (some (length text))
head_run m ms path rest text p w = elim (match_loop_lem text w.after path rest 0 w.is_text p) [
  | inl (runs, yes_prefix) ↦
      ap (λ bytes. match_loop bytes (stored path rest) 0)
        (ap (λ (x : Mount). x.path) same ∙ w.bytes)
      ∙ runs
      ∙ ap (λ n. ok (some n)) (omega arith)
  | inr (runs, differs) ↦ absurd (differs w.begins)
]
  where
    same : m ≡ w.entry
    same = cc

later :
    (m : Mount) (ms : List Mount) (path : List ℕ) (k : ℕ) (text : List ℕ)
    → Matches (m ∷ ms) path (suc k) text
    → Matches ms path k text
later m ms path k text w = record {
  entry = w.entry;
  stands = w.stands;
  valid = w.valid;
  after = w.after;
  bytes = w.bytes;
  is_text = w.is_text;
  begins = w.begins;
}

sooner :
    (m : Mount) (ms : List Mount) (path : List ℕ) (k : ℕ) (text : List ℕ)
    → Matches ms path k text
    → Matches (m ∷ ms) path (suc k) text
sooner m ms path k text w = record {
  entry = w.entry;
  stands = w.stands;
  valid = w.valid;
  after = w.after;
  bytes = w.bytes;
  is_text = w.is_text;
  begins = w.begins;
}

-- The head of the table does not beat `maxlen`.
skip_head :
    (m : Mount) (ms : List Mount) (path : List ℕ) (i maxlen : ℕ) (ret : ℤ) (result : Outcome ℤ)
    → ((t : List ℕ) → Matches (m ∷ ms) path 0 t → length t ≤ maxlen)
    → Found ms path (i + 1) maxlen ret result
    → Found (m ∷ ms) path i maxlen ret result
skip_head m ms path i maxlen ret result head (inl (runs, most)) = inl (runs, all)
  where
    all : (k : ℕ) (t : List ℕ) → Matches (m ∷ ms) path k t → length t ≤ maxlen
    all zero t w = head t w
    all (suc k) t w = most k t (later m ms path k t w)
skip_head m ms path i maxlen ret result head (inr (j, text, runs, w, longer, best)) =
    inr (
      suc j,
      text,
      runs ∙ ap (λ n. ok (pos n)) (omega arith),
      sooner m ms path j text w,
      longer,
      all,
    )
  where
    all :
        (k : ℕ) (t : List ℕ)
        → Matches (m ∷ ms) path k t
        → (length t ≤ length text) × (k < suc j → length t < length text)
    all zero t w = (omega (arith, head t w), λ _. omega (arith, head t w))
    all (suc k) t w =
        let (le, lt) = best k t (later m ms path k t w) in (le, λ less. lt (omega arith))

-- The head of the table is the longest so far.
take_head :
    (m : Mount) (ms : List Mount) (path : List ℕ) (i maxlen : ℕ) (ret : ℤ) (text : List ℕ)
    (result : Outcome ℤ)
    → Matches (m ∷ ms) path 0 text
    → maxlen < length text
    → ((t : List ℕ) → Matches (m ∷ ms) path 0 t → length t ≡ length text)
    → Found ms path (i + 1) (length text) (pos i) result
    → Found (m ∷ ms) path i maxlen ret result
take_head m ms path i maxlen ret text result w longer head (inl (runs, most)) =
    inr (0, text, runs ∙ ap (λ n. ok (pos n)) (omega arith), w, longer, all)
  where
    all :
        (k : ℕ) (t : List ℕ)
        → Matches (m ∷ ms) path k t
        → (length t ≤ length text) × (k < 0 → length t < length text)
    all zero t w' = (omega (arith, head t w'), λ less. absurd (omega arith))
    all (suc k) t w' = (most k t (later m ms path k t w'), λ less. absurd (omega arith))
take_head m ms path i maxlen ret text result w longer head
      (inr (j, text', runs, w', longer', best)) =
    inr (
      suc j,
      text',
      runs ∙ ap (λ n. ok (pos n)) (omega arith),
      sooner m ms path j text' w',
      omega arith,
      all,
    )
  where
    all :
        (k : ℕ) (t : List ℕ)
        → Matches (m ∷ ms) path k t
        → (length t ≤ length text') × (k < suc j → length t < length text')
    all zero t v = (omega (arith, head t v), λ less. omega (arith, head t v))
    all (suc k) t v =
        let (le, lt) = best k t (later m ms path k t v) in (le, λ less. lt (omega arith))

unused_head :
    (m : Mount) (ms : List Mount) (path text : List ℕ)
    → m.valid ≡ false
    → Matches (m ∷ ms) path 0 text
    → ⊥
unused_head m ms path text off w = cc
  where
    same : m ≡ w.entry
    same = cc

    on : m.valid ≡ true
    on = ap (λ (x : Mount). x.valid) same ∙ w.valid

find_unused :
    (m : Mount) (ms : List Mount) (path : List ℕ) (i maxlen : ℕ) (ret : ℤ)
    → m.valid ≡ false
    → find_loop (m ∷ ms) path i maxlen ret ≡ find_loop ms path (i + 1) maxlen ret
unfolding find_loop
find_unused m ms path i maxlen ret off = rw (off, find_loop)

find_none :
    (m : Mount) (ms : List Mount) (path : List ℕ) (i maxlen : ℕ) (ret : ℤ)
    → m.valid ≡ true
    → match_loop m.path path 0 ≡ ok none
    → find_loop (m ∷ ms) path i maxlen ret ≡ find_loop ms path (i + 1) maxlen ret
unfolding find_loop
find_none m ms path i maxlen ret on e = rw (on, find_loop, e, ◌>>=◌)

find_some :
    (m : Mount) (ms : List Mount) (path : List ℕ) (i maxlen n : ℕ) (ret : ℤ)
    → m.valid ≡ true
    → match_loop m.path path 0 ≡ ok (some n)
    → find_loop (m ∷ ms) path i maxlen ret ≡ elim (ltb maxlen n) [
      | true ↦ find_loop ms path (i + 1) n (pos i)
      | false ↦ find_loop ms path (i + 1) maxlen ret
    ]
unfolding find_loop
find_some m ms path i maxlen n ret on e = rw (on, find_loop, e, ◌>>=◌)

-- A head that is in use, once the rest of the table is known.
find_used :
    (m : Mount) (ms : List Mount) (path rest text after : List ℕ) (i maxlen : ℕ) (ret : ℤ)
    → IsText path
    → m.valid ≡ true
    → m.path ≡ stored text after
    → IsText text
    → ((most : ℕ) (sofar : ℤ)
        → Found ms path (i + 1) most sofar (find_loop ms (stored path rest) (i + 1) most sofar))
    → Found (m ∷ ms) path i maxlen ret (find_loop (m ∷ ms) (stored path rest) i maxlen ret)
find_used m ms path rest text after i maxlen ret p on bytes t tail =
    elim (match_loop_lem text after path rest 0 t p) [
      | inr (runs, differs) ↦
          let none_found = ap (λ b. match_loop b (stored path rest) 0) bytes ∙ runs in
          rw (find_none m ms (stored path rest) i maxlen ret on none_found) (
            skip_head m ms path i maxlen ret _
              (λ t' w. absurd (some_ne_none (sym (head_run m ms path rest t' p w) ∙ none_found)))
              (tail maxlen ret))
      | inl (runs, begins) ↦
          let w : Matches (m ∷ ms) path 0 text = record {
            entry = m;
            stands = refl;
            valid = on;
            after = after;
            bytes = bytes;
            is_text = t;
            begins = begins;
          } in
          let found = head_run m ms path rest text p w in
          let same : (t' : List ℕ) → Matches (m ∷ ms) path 0 t' → length t' ≡ length text =
            λ t' w'. some_injective (sym (head_run m ms path rest t' p w') ∙ found) in
          elim (dec_lt maxlen (length text)) [
            | yes longer ↦
                rw
                  (
                    find_some m ms (stored path rest) i maxlen (length text) ret on found,
                    lt→ltb _ _ longer,
                  )
                  (take_head m ms path i maxlen ret text _ w longer same
                    (tail (length text) (pos i)))
            | no shorter ↦
                rw
                  (
                    find_some m ms (stored path rest) i maxlen (length text) ret on found,
                    le→ltb_false maxlen (length text) (omega arith),
                  )
                  (skip_head m ms path i maxlen ret _ (λ t' w'. omega (arith, same t' w'))
                    (tail maxlen ret))
          ]
    ]

find_loop_lem :
    (mounts : List Mount) (path rest : List ℕ) (i maxlen : ℕ) (ret : ℤ)
    → AllStored mounts
    → IsText path
    → Found mounts path i maxlen ret (find_loop mounts (stored path rest) i maxlen ret)
unfolding find_loop
find_loop_lem [] path rest i maxlen ret a p = inl (refl, λ k t w. absurd (empty k t w))
  where
    empty : (k : ℕ) (t : List ℕ) → Matches [] path k t → ⊥
    empty k t w = let e = w.stands in cc
find_loop_lem (m ∷ ms) path rest i maxlen ret a p = elim (Bool-cases m.valid) [
  | inr off ↦ rw (find_unused m ms (stored path rest) i maxlen ret off) (
      skip_head m ms path i maxlen ret (find_loop ms (stored path rest) (i + 1) maxlen ret)
        (λ t w. absurd (unused_head m ms path t off w))
        (find_loop_lem ms path rest (i + 1) maxlen ret (λ j. a (suc j)) p))
  | inl on ↦
      let (text, after, bytes, t) = a 0 m refl on in
      find_used m ms path rest text after i maxlen ret p on bytes t
        (λ most sofar. find_loop_lem ms path rest (i + 1) most sofar (λ j. a (suc j)) p)
]

-- For a path and mount paths that are strings, `find_fs` ends: it gives the first of the entries in use
-- whose mount path is a longest beginning of the path, and -1 if no mount path that is not empty is one.
pub find_fs_lem :
    (mounts : List Mount) (path rest : List ℕ)
    → AllStored mounts
    → IsText path
    → Longest mounts path (find_fs (stored path rest) mounts)
unfolding find_fs
find_fs_lem mounts path rest a p = elim (find_loop_lem mounts path rest 0 0 minus_one a p) [
  | inl (runs, most) ↦ inl (runs, most)
  | inr (j, text, runs, w, longer, best) ↦
      inr (j, text, runs ∙ ap (λ n. ok (pos n)) (omega arith), w, longer, best)
]
