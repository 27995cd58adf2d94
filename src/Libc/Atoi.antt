-- ===== src/Libc/Atoi.antt =====
-- libc/src/stdlib/atoi.c.
pub mod Laws
use oslab2_virtualfs.Base.{
  ℕ, zero, suc, ◌+◌, ◌-◌, ◌*◌, ◌%◌, ◌^◌, List, [], ◌∷◌, ◌==◌, ltb, if◌then◌else◌, Outcome, ok,
  undefined, ◌>>=◌, ℤ, pos, negsuc, word_limit, add32, sub32, mul32, true, false,
}
use oslab2_virtualfs.Libc.Ctype.{isspace, isdigit}

-- A `char` is signed.
abbrev pub char_value : ℕ → ℤ
char_value c = if ltb c 128 then pos c else negsuc (255 - c)

-- `while (*str && isspace(*str)) str++;`, with the bytes from `str` on afterwards.
pub skip_spaces : List ℕ → Outcome (List ℕ)
unfolding isspace
skip_spaces [] = undefined
skip_spaces (c ∷ str) = elim (c == 0) [
  | true ↦ ok (c ∷ str)
  | false ↦ elim (isspace (char_value c)) [ true ↦ skip_spaces str | false ↦ ok (c ∷ str) ]
]

-- `while (isdigit(*str)) …`; `ans` is unsigned.
pub atoi_digits : List ℕ → ℕ → Outcome ℕ
unfolding isdigit
atoi_digits [] ans = undefined
atoi_digits (c ∷ str) ans = elim (isdigit (char_value c)) [
  | true ↦ atoi_digits str (add32 (mul32 ans 10) (c - b'0'))
  | false ↦ ok ans
]

-- An unsigned as an int.
abbrev pub to_int : ℕ → ℤ
to_int n = if ltb n (2 ^ 31) then pos n else negsuc (word_limit - 1 - n)

-- `return ans * sign;`
abbrev pub positive : ℕ → ℤ
positive ans = to_int ans

abbrev pub negative : ℕ → ℤ
negative ans = to_int (sub32 0 ans)

-- `atoi` from the first byte that is no space on.
pub signed : List ℕ → Outcome ℤ
signed [] = undefined
signed (c ∷ str) =
    if c == 0
    then ok (pos 0)
    else if c == b'+'
    then (atoi_digits str 0 >>= λ ans. ok (positive ans))
    else if c == b'-'
    then (atoi_digits str 0 >>= λ ans. ok (negative ans))
    else (atoi_digits (c ∷ str) 0 >>= λ ans. ok (positive ans))

pub atoi : List ℕ → Outcome ℤ
unfolding skip_spaces signed atoi_digits
atoi str = skip_spaces str >>= signed
