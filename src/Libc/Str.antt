-- ===== src/Libc/Str.antt =====
-- libc/src/string. A pointer into an object is the list of the object's bytes from there on; a read
-- or a write past its end is undefined. A function that writes through `dest` returns its new bytes.
pub mod Laws
pub mod Tokens
use oslab2_virtualfs.Base.{
  ℕ, zero, suc, ◌+◌, ◌-◌, ◌%◌, ◌^◌, ◌≡◌, refl, Bool, true, false, ◌&&◌, not, List, [], ◌∷◌, ◌==◌,
  ltb, if◌then◌else◌, Outcome, ok, undefined, ◌>>=◌, ℤ, pos, negsuc, sub_ℕ,
}

-- `while (*ptr) ptr++;`, with `n` for `ptr - str`.
unfoldable pub strlen_loop : List ℕ → ℕ → Outcome ℕ
strlen_loop [] n = undefined
strlen_loop (c ∷ ptr) n = elim (c == 0) [ true ↦ ok n | false ↦ strlen_loop ptr (n + 1) ]

unfoldable pub strlen : List ℕ → Outcome ℕ
unfolding strlen_loop
strlen str = strlen_loop str 0

-- `(int)*lhs - (int)*rhs`, where `char` is signed.
abbrev pub char_diff : ℕ → ℕ → ℤ
char_diff a b = sub_ℕ ((a + 128) % 256) ((b + 128) % 256)

unfoldable pub strcmp : List ℕ → List ℕ → Outcome ℤ
strcmp [] rhs = undefined
strcmp (a ∷ lhs) [] = undefined
strcmp (a ∷ lhs) (b ∷ rhs) = elim (not (a == 0) && not (b == 0) && a == b) [
  | true ↦ strcmp lhs rhs
  | false ↦ ok (char_diff a b)
]

-- `do { *(dest++) = *(src++); } while (*src);`
unfoldable pub strcpy : List ℕ → List ℕ → Outcome (List ℕ)
strcpy [] src = undefined
strcpy (d ∷ dest) [] = undefined
strcpy (d ∷ dest) (c ∷ []) = undefined
strcpy (d ∷ dest) (c ∷ x ∷ src) = elim (x == 0) [
  | true ↦ ok (c ∷ dest)
  | false ↦ do rest ← strcpy dest (x ∷ src); ok (c ∷ rest)
]

-- `src` advances only over a byte that is not 0.
abbrev pub advance : ℕ → List ℕ → List ℕ
advance c src = if c == 0 then c ∷ src else src

pub strncpy : ℕ → List ℕ → List ℕ → Outcome (List ℕ)
strncpy zero dest src = ok dest
strncpy (suc count) [] src = undefined
strncpy (suc count) (d ∷ dest) [] = undefined
strncpy (suc count) (d ∷ dest) (c ∷ src) = do
  rest ← strncpy count dest (advance c src)
  ok (c ∷ rest)

unfoldable pub memcpy : ℕ → List ℕ → List ℕ → Outcome (List ℕ)
memcpy zero dest src = ok dest
memcpy (suc n) [] src = undefined
memcpy (suc n) (d ∷ dest) [] = undefined
memcpy (suc n) (d ∷ dest) (c ∷ src) = do rest ← memcpy n dest src; ok (c ∷ rest)

pub memset : ℕ → ℕ → List ℕ → Outcome (List ℕ)
memset zero ch dest = ok dest
memset (suc count) ch [] = undefined
memset (suc count) ch (d ∷ dest) = do rest ← memset count ch dest; ok (ch % 2 ^ 8 ∷ rest)
