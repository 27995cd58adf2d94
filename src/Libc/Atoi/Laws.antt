-- ===== src/Libc/Atoi/Laws.antt =====
-- libc/src/stdlib/atoi.c: how it reads spaces, signs and digits.
use oslab2_virtualfs.Base.{
  ℕ, zero, suc, ◌+◌, ◌-◌, ◌^◌, ◌≤◌, ◌<◌, ◌≡◌, refl, sym, ap, ◌∙◌, List, [], ◌∷◌, ◌++◌, replicate,
  ok, ◌>>=◌, arith, false, ◌≢◌, ne→==, pos, negsuc, add32, sub32, mul32, word_limit,
}
use oslab2_virtualfs.Libc.Ctype.{isdigit, isspace}
use oslab2_virtualfs.Libc.Atoi.{
  char_value, skip_spaces, atoi_digits, to_int, positive, negative, signed, atoi,
}

abbrev pub spaces : ℕ → List ℕ
spaces n = replicate n b' '

-- A text of decimal digits.
abbrev pub AreDigits : List ℕ → Type 0
AreDigits [] = Unit {0}
AreDigits (d ∷ ds) = (b'0' ≤ d) × (d ≤ b'9') × AreDigits ds

pub digit_read :
    (d : ℕ) (xs : List ℕ) (ans : ℕ)
    → b'0' ≤ d
    → d ≤ b'9'
    → atoi_digits (d ∷ xs) ans ≡ atoi_digits xs (add32 (mul32 ans 10) (d - b'0'))
unfolding atoi_digits isdigit
digit_read d xs ans low high = ground (arith, low, high)

-- Zeros before it do not change a number, and a space or the end of the string ends it.
pub zeros-atoi_digits :
    (n : ℕ) (xs : List ℕ) → atoi_digits (replicate n b'0' ++ xs) 0 ≡ atoi_digits xs 0
zeros-atoi_digits zero xs = refl
zeros-atoi_digits (suc n) xs =
    digit_read b'0' (replicate n b'0' ++ xs) 0 (omega arith) (omega arith) ∙ zeros-atoi_digits n xs

pub ends-atoi_digits : (k v : ℕ) (after : List ℕ) → atoi_digits (spaces k ++ (0 ∷ after)) v ≡ ok v
unfolding atoi_digits isdigit
ends-atoi_digits zero v after = refl
ends-atoi_digits (suc k) v after = refl

pub spaces-skip_spaces : (k : ℕ) (xs : List ℕ) → skip_spaces (spaces k ++ xs) ≡ skip_spaces xs
unfolding skip_spaces isspace
spaces-skip_spaces zero xs = refl
spaces-skip_spaces (suc k) xs = spaces-skip_spaces k xs

pub spaces-atoi : (k : ℕ) (xs : List ℕ) → atoi (spaces k ++ xs) ≡ atoi xs
unfolding atoi
spaces-atoi k xs = ap (λ o. o >>= signed) (spaces-skip_spaces k xs)

pub text_end : (after : List ℕ) → atoi (0 ∷ after) ≡ ok (positive 0)
unfolding atoi skip_spaces signed
text_end after = refl

pub digit_skip : (d : ℕ) (xs : List ℕ) → b'0' ≤ d → d ≤ b'9' → skip_spaces (d ∷ xs) ≡ ok (d ∷ xs)
unfolding skip_spaces isspace
digit_skip d xs low high = ground (arith, low, high)

pub digit_signed :
    (d : ℕ) (xs : List ℕ)
    → b'0' ≤ d
    → d ≤ b'9'
    → signed (d ∷ xs) ≡ (atoi_digits (d ∷ xs) 0 >>= λ ans. ok (positive ans))
unfolding signed
digit_signed d xs low high = ground (arith, low, high)

pub digit_start :
    (d : ℕ) (xs : List ℕ)
    → b'0' ≤ d
    → d ≤ b'9'
    → atoi (d ∷ xs) ≡ (atoi_digits (d ∷ xs) 0 >>= λ ans. ok (positive ans))
unfolding atoi
digit_start d xs low high =
    ap (λ o. o >>= signed) (digit_skip d xs low high) ∙ digit_signed d xs low high

-- A text of digits without a sign.
pub plain-atoi :
    (ds : List ℕ) (k v : ℕ) (after : List ℕ)
    → AreDigits ds
    → atoi_digits (ds ++ (spaces k ++ (0 ∷ after))) 0 ≡ ok v
    → atoi (ds ++ (spaces k ++ (0 ∷ after))) ≡ ok (positive v)
plain-atoi [] k v after digits reads =
    spaces-atoi k (0 ∷ after)
    ∙ text_end after
    ∙ ap (λ o. o >>= λ ans. ok (positive ans)) (sym (ends-atoi_digits k 0 after) ∙ reads)
plain-atoi (d ∷ ds) k v after digits reads =
    digit_start d (ds ++ (spaces k ++ (0 ∷ after))) digits.0 digits.1
    ∙ ap (λ o. o >>= λ ans. ok (positive ans)) reads

pub minus-atoi :
    (xs : List ℕ) (v : ℕ) → atoi_digits xs 0 ≡ ok v → atoi (b'-' ∷ xs) ≡ ok (negative v)
unfolding atoi skip_spaces signed isspace
minus-atoi xs v reads = ap (λ o. o >>= λ ans. ok (negative ans)) reads

pub plus-atoi : (xs : List ℕ) (v : ℕ) → atoi_digits xs 0 ≡ ok v → atoi (b'+' ∷ xs) ≡ ok (positive v)
unfolding atoi skip_spaces signed isspace
plus-atoi xs v reads = ap (λ o. o >>= λ ans. ok (positive ans)) reads

pub positive_lem : (n : ℕ) → n < 2 ^ 31 → positive n ≡ pos n
positive_lem n small = ground (arith, small)

pub to_int_high : (m : ℕ) → 2 ^ 31 ≤ m → to_int m ≡ negsuc (word_limit - 1 - m)
to_int_high m high = ground (arith, high)

pub negative_lem : (n : ℕ) → n < 2 ^ 31 → negative (n + 1) ≡ negsuc n
negative_lem n small = to_int_high (sub32 0 (n + 1)) (omega arith) ∙ ap negsuc (omega arith)

-- A text that does not start like a number reads as 0.
pub word-atoi :
    (c : ℕ) (xs : List ℕ)
    → c ≢ 0
    → isspace (char_value c) ≡ false
    → isdigit (char_value c) ≡ false
    → c ≢ b'+'
    → c ≢ b'-'
    → atoi (c ∷ xs) ≡ ok (pos 0)
unfolding atoi skip_spaces signed atoi_digits
word-atoi c xs real space digit plus minus =
    rw
      (
        skip_spaces,
        ne→== c 0 real,
        space,
        ◌>>=◌,
        signed,
        ne→== c 0 real,
        ne→== c b'+' plus,
        ne→== c b'-' minus,
        atoi_digits,
        digit,
        ◌>>=◌,
      )
      refl
