-- ===== src/Libc/Ctype.antt =====
-- libc/src/ctype/ctype.c: the classes of characters, on ints.
use oslab2_virtualfs.Base.{
  ℕ, ◌+◌, ◌-◌, ◌≡◌, Bool, true, false, ◌&&◌, ◌||◌, not, ltb, leb, if◌then◌else◌, ℤ, pos, negsuc,
  arith,
}

-- `ch >= lo && ch <= hi`, for bounds that are characters.
abbrev pub within : ℕ → ℕ → ℤ → Bool
within lo hi (pos n) = leb lo n && leb n hi
within lo hi (negsuc n) = false

-- `ch < hi`
abbrev pub below : ℕ → ℤ → Bool
below hi (pos n) = ltb n hi
below hi (negsuc n) = true

-- `ch + up - down`, which stays above 0 where the code computes it.
abbrev pub shift : ℕ → ℕ → ℤ → ℤ
shift up down (pos n) = pos (n + up - down)
shift up down (negsuc n) = negsuc n

pub islower : ℤ → Bool
islower ch = within b'a' b'z' ch

pub isupper : ℤ → Bool
isupper ch = within b'A' b'Z' ch

pub isalpha : ℤ → Bool
unfolding islower isupper
isalpha ch = isupper ch || islower ch

pub tolower : ℤ → ℤ
unfolding isupper
tolower ch = if not (isupper ch) then ch else shift b'a' b'A' ch

pub toupper : ℤ → ℤ
unfolding islower
toupper ch = if not (islower ch) then ch else shift b'A' b'a' ch

unfoldable pub isdigit : ℤ → Bool
isdigit ch = within b'0' b'9' ch

pub isalnum : ℤ → Bool
unfolding isalpha isdigit
isalnum ch = isalpha ch || isdigit ch

isxdigit : ℤ → Bool
unfolding isdigit tolower
isxdigit ch = if isdigit ch then true else within b'a' b'f' (tolower ch)

pub iscntrl : ℤ → Bool
iscntrl ch = below 32 ch || within 127 127 ch

pub isgraph : ℤ → Bool
isgraph ch = within 33 126 ch

unfoldable pub isspace : ℤ → Bool
isspace ch = within b' ' b' ' ch || within 9 13 ch

pub isblank : ℤ → Bool
isblank ch = within b' ' b' ' ch || within 9 9 ch

pub isprint : ℤ → Bool
isprint ch = within 32 126 ch

pub ispunct : ℤ → Bool
ispunct ch = within 33 47 ch || within 58 64 ch || within 91 96 ch || within 123 126 ch

-- How the classes relate, for every int: the characters that are seen are the letters, the digits and the
-- punctuation, of which no two meet; a printable one is one of those or the space, and a character below 128
-- is printable or a control character, never both; a blank is a space; a letter that is turned upper or lower
-- case is a letter of that case, and turning it back gives the one of the other case.
pub classes_lem :
    (ch : ℤ)
    → (isgraph ch ≡ (isalnum ch || ispunct ch))
      × ((isalnum ch && ispunct ch) ≡ false)
      × ((isalpha ch && isdigit ch) ≡ false)
      × (isprint ch ≡ (isgraph ch || within 32 32 ch))
      × (iscntrl ch ≡ (below 128 ch && not (isprint ch)))
      × ((isblank ch && not (isspace ch)) ≡ false)
      × ((isalpha ch && not (islower (tolower ch))) ≡ false)
      × ((isalpha ch && not (isupper (toupper ch))) ≡ false)
      × (tolower (toupper ch) ≡ tolower ch)
      × (toupper (tolower ch) ≡ toupper ch)
unfolding isgraph isalnum ispunct isprint iscntrl isblank isspace isalpha islower isupper tolower
    toupper isdigit
classes_lem (negsuc n) = ground arith
classes_lem (pos n) = ground arith
