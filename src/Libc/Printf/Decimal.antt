-- ===== src/Libc/Printf/Decimal.antt =====
-- libc/src/stdio/_vprintf_raw.c and libc/src/stdlib/atoi.c: `atoi` reads what `%d` prints.
use oslab2_virtualfs.Base.{
  ℕ, zero, suc, ◌+◌, ◌-◌, ◌/◌, ◌%◌, ◌^◌, ◌<◌, ◌≡◌, refl, sym, ap, ◌∙◌, Bool, true, false, not, ◌&&◌,
  List, [], ◌∷◌, ◌++◌, ◌==◌, if◌then◌else◌, length, replicate, ok, ◌>>=◌, arith, Bool-cases, inl,
  inr, ne→==, ok_injective, ℤ, pos, negsuc, add32, mul32,
}
use mathlib.Core.Path.{subst}
use oslab2_virtualfs.Libc.Atoi.{atoi_digits, positive, atoi}
use oslab2_virtualfs.Libc.Printf.{
  ConvSpec, has, left_justified, printf_d, digits_loop, digit_char, emit, sign_char, at_least_one,
  field_d, always_signed, space_prepended,
}
use oslab2_virtualfs.Libc.Printf.Fields.{digits_step, digits_loop_ends}
use oslab2_virtualfs.Libc.Printf.Format.{absolute, sign_of}
use oslab2_virtualfs.Libc.Printf.Format.Args.{IntIsWord, absolute_bound}
use oslab2_virtualfs.Libc.Atoi.Laws.{
  spaces, AreDigits, digit_read, zeros-atoi_digits, ends-atoi_digits, spaces-atoi, plain-atoi,
  minus-atoi, plus-atoi, positive_lem, negative_lem,
}

digit_char_lem : (v : ℕ) → v < 10 → digit_char false v ≡ b'0' + v
digit_char_lem v small = ground (arith, small)

rejoined : (v : ℕ) → v < 2 ^ 32 → add32 (mul32 (v / 10) 10) (b'0' + v % 10 - b'0') ≡ v
rejoined v small = omega arith

last_digit :
    (v : ℕ) (xs : List ℕ)
    → v < 2 ^ 32
    → atoi_digits (digit_char false (v % 10) ∷ xs) (v / 10) ≡ atoi_digits xs v
last_digit v xs small = rw (digit_char_lem (v % 10) (omega arith)) (
    digit_read (b'0' + v % 10) xs (v / 10) (omega arith) (omega arith)
    ∙ ap (atoi_digits xs) (rejoined v small))

-- The digits of a value read as the value, whatever follows them.
digits_loop-atoi_digits :
    (fuel value : ℕ) (buf ds xs : List ℕ)
    → value < 2 ^ 32
    → digits_loop fuel 10 false value buf ≡ ok ds
    → atoi_digits (ds ++ xs) 0 ≡ atoi_digits (buf ++ xs) value
unfolding digits_loop
digits_loop-atoi_digits zero value buf ds xs small runs = absurd (ground (arith, runs))
digits_loop-atoi_digits (suc fuel) zero buf ds xs small runs = cc
digits_loop-atoi_digits (suc fuel) (suc value) buf ds xs small runs =
    digits_loop-atoi_digits fuel (suc value / 10) (digit_char false (suc value % 10) ∷ buf) ds xs
      (omega arith) (sym (digits_step fuel 10 value false buf) ∙ runs)
    ∙ last_digit (suc value) (buf ++ xs) small

pub digits_loop-AreDigits :
    (fuel value : ℕ) (buf ds : List ℕ)
    → AreDigits buf
    → digits_loop fuel 10 false value buf ≡ ok ds
    → AreDigits ds
unfolding digits_loop
digits_loop-AreDigits zero value buf ds digits runs = absurd (ground (arith, runs))
digits_loop-AreDigits (suc fuel) zero buf ds digits runs =
    subst AreDigits (ok_injective runs) digits
digits_loop-AreDigits (suc fuel) (suc value) buf ds digits runs =
    digits_loop-AreDigits fuel (suc value / 10) (digit_char false (suc value % 10) ∷ buf) ds
      (rw (digit_char_lem (suc value % 10) (omega arith)) (omega arith, omega arith, digits))
      (sym (digits_step fuel 10 value false buf) ∙ runs)

pub append_assoc {ℓ} : {A : Type ℓ} (xs ys zs : List A) → (xs ++ ys) ++ zs ≡ xs ++ (ys ++ zs)
append_assoc [] ys zs = refl
append_assoc (x ∷ xs) ys zs = ap (λ r. x ∷ r) (append_assoc xs ys zs)

pub append-AreDigits : (ds es : List ℕ) → AreDigits ds → AreDigits es → AreDigits (ds ++ es)
append-AreDigits [] es d e = e
append-AreDigits (x ∷ ds) es d e = (d.0, d.1, append-AreDigits ds es d.2 e)

pub zeros-AreDigits : (n : ℕ) → AreDigits (replicate n b'0')
zeros-AreDigits zero = tt
zeros-AreDigits (suc n) = (omega arith, omega arith, zeros-AreDigits n)

-- What `emit` prints, as `atoi` sees it: spaces, the prefix, the digits, and spaces up to the end.
abbrev field : ℕ → List ℕ → List ℕ → ℕ → List ℕ → List ℕ
field before prefix ds behind after =
    spaces before ++ (prefix ++ (ds ++ (spaces behind ++ (0 ∷ after))))

emit-field :
    (spec : ConvSpec) (prefix : List ℕ) (numzero : ℕ) (buf : List ℕ) (numspace : ℕ) (after : List ℕ)
    → (before behind : ℕ) × ((emit spec prefix numzero buf numspace).1 ++ (0 ∷ after)
        ≡ field before prefix (replicate numzero b'0' ++ buf) behind after)
unfolding emit
emit-field spec prefix numzero buf numspace after = elim (Bool-cases (has spec left_justified)) [
  | inl left ↦ (0, numspace, rw left (simp append_assoc))
  | inr right ↦ (numspace, 0, rw right (simp append_assoc))
]

-- A sign, and the digits of a number behind it.
sign-atoi :
    (spec : ConvSpec) (z : ℤ) (ds : List ℕ) (k : ℕ) (after : List ℕ)
    → IntIsWord z
    → AreDigits ds
    → atoi_digits (ds ++ (spaces k ++ (0 ∷ after))) 0 ≡ ok (absolute z)
    → atoi (sign_char spec (sign_of z) ++ (ds ++ (spaces k ++ (0 ∷ after)))) ≡ ok z
unfolding sign_char
sign-atoi spec (negsuc n) ds k after small digits reads =
    minus-atoi (ds ++ (spaces k ++ (0 ∷ after))) (n + 1) reads ∙ ap ok (negative_lem n small)
sign-atoi spec (pos n) ds k after small digits reads =
    signed_or_not (has spec always_signed) (has spec space_prepended) ∙ ap ok (positive_lem n small)
  where
    text : List ℕ
    text = ds ++ (spaces k ++ (0 ∷ after))

    signed_or_not :
        (plus space : Bool)
        → atoi ((if plus then b'+' ∷ [] else if space then b' ' ∷ [] else []) ++ text)
          ≡ ok (positive n)
    signed_or_not true space = plus-atoi text n reads
    signed_or_not false true = spaces-atoi 1 text ∙ plain-atoi ds k n after digits reads
    signed_or_not false false = plain-atoi ds k n after digits reads

-- A text of digits that reads as a value.
abbrev Reads : List ℕ → ℕ → Type 0
Reads ds v = AreDigits ds × ((xs : List ℕ) → atoi_digits (ds ++ xs) 0 ≡ atoi_digits xs v)

zeros-Reads : (n : ℕ) (ds : List ℕ) (v : ℕ) → Reads ds v → Reads (replicate n b'0' ++ ds) v
zeros-Reads n ds v (digits, reads) = (
  append-AreDigits (replicate n b'0') ds (zeros-AreDigits n) digits,
  λ xs. rw append_assoc (zeros-atoi_digits n (ds ++ xs) ∙ reads xs),
)

-- A lone zero for an empty text.
lone_zero-Reads :
    (alone : Bool) (filled : List ℕ) (v : ℕ)
    → Reads filled v
    → Reads (if length filled == 0 && alone then b'0' ∷ [] else filled) v
lone_zero-Reads true [] v (digits, reads) =
    (zeros-AreDigits 1, λ xs. zeros-atoi_digits 1 xs ∙ reads xs)
lone_zero-Reads false [] v r = r
lone_zero-Reads alone (d ∷ filled) v r = rw (ne→== (suc (length filled)) 0 (omega arith)) r

emit-atoi :
    (spec : ConvSpec) (z : ℤ) (numzero : ℕ) (buf : List ℕ) (numspace : ℕ) (after : List ℕ)
    → IntIsWord z
    → Reads buf (absolute z)
    → atoi ((emit spec (sign_char spec (sign_of z)) numzero buf numspace).1 ++ (0 ∷ after)) ≡ ok z
emit-atoi spec z numzero buf numspace after small r =
    let signs = sign_char spec (sign_of z) in
    let (before, behind, text) = emit-field spec signs numzero buf numspace after in
    let ds = replicate numzero b'0' ++ buf in
    let padded = zeros-Reads numzero buf (absolute z) r in
    ap atoi text
    ∙ spaces-atoi before (signs ++ (ds ++ (spaces behind ++ (0 ∷ after))))
    ∙ sign-atoi spec z ds behind after small padded.0
        (padded.1 (spaces behind ++ (0 ∷ after)) ∙ ends-atoi_digits behind (absolute z) after)

-- One text for all that may follow it.
pub printf_d-text :
    (spec : ConvSpec) (z : ℤ)
    → IntIsWord z
    → (r : ℕ × List ℕ) × (printf_d spec (sign_of z) (absolute z) ≡ ok r)
      × ((after : List ℕ) → atoi (r.1 ++ (0 ∷ after)) ≡ ok z)
unfolding printf_d field_d
printf_d-text spec z small =
    let bound = absolute_bound z small in
    let (filled, runs) = digits_loop_ends 32 10 false (absolute z) [] (omega arith) bound in
    let filled-Reads : Reads filled (absolute z) = (
      digits_loop-AreDigits 33 (absolute z) [] filled tt runs,
      λ xs. digits_loop-atoi_digits 33 (absolute z) [] filled xs bound runs,
    ) in
    (
      field_d spec (sign_of z) filled,
      rw (runs, ◌>>=◌),
      λ after. emit-atoi spec z _ _ _ after small (
          lone_zero-Reads (not (at_least_one spec.precision == 0)) filled (absolute z)
            filled-Reads),
    )

-- `atoi` reads what `%d` has printed, whatever the flags, the width and the precision are, and whatever
-- follows the end of the text.
pub printf_d-atoi :
    (spec : ConvSpec) (z : ℤ) (after : List ℕ)
    → IntIsWord z
    → (r : ℕ × List ℕ) × (printf_d spec (sign_of z) (absolute z) ≡ ok r)
      × (atoi (r.1 ++ (0 ∷ after)) ≡ ok z)
printf_d-atoi spec z after small =
    let (r, runs, reads) = printf_d-text spec z small in (r, runs, reads after)
