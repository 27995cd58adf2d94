-- ===== src/Libc/Tests.antt =====
-- libc/src/string and libc/src/stdlib/rand.c on concrete bytes.
use oslab2_virtualfs.Base.{
  none, some, ◌++◌, refl, false, ◌&&◌, ◌||◌, not, ℕ, ◌≡◌, ◌↔◌, arith, ok, List, [], ◌∷◌, ℤ, pos,
}
use oslab2_virtualfs.Libc.Str.Tokens.{strtok, strtok_lem}
use oslab2_virtualfs.Libc.Str.{strcmp, strcpy}
use oslab2_virtualfs.Libc.Str.Laws.{IsText, stored, strcmp_lem, strcpy_lem}
use oslab2_virtualfs.Libc.Ctype.{
  within, below, islower, isupper, isalpha, tolower, toupper, isdigit, isalnum, iscntrl, isgraph,
  isspace, isblank, isprint, ispunct, classes_lem,
}

abbrev dev : List ℕ
dev = b'd' ∷ b'e' ∷ b'v' ∷ []

abbrev dem : List ℕ
dem = b'd' ∷ b'e' ∷ b'm' ∷ []

-- What an earlier string left behind.
abbrev stale : List ℕ
stale = b'p' ∷ b'r' ∷ b'o' ∷ b'c' ∷ 0 ∷ []

dev-IsText : IsText dev
dev-IsText = (omega arith, omega arith, (omega arith, omega arith, (omega arith, omega arith, tt)))

dem-IsText : IsText dem
dem-IsText = (omega arith, omega arith, (omega arith, omega arith, (omega arith, omega arith, tt)))

strcmp_lem_example :
    (d : ℤ) × (strcmp (stored dev []) (stored dem stale) ≡ ok d) × ((d ≡ pos 0) ↔ (dev ≡ dem))
strcmp_lem_example = strcmp_lem dev dem [] stale dev-IsText dem-IsText

strcpy_lem_example : strcpy stale (stored dev []) ≡ ok (b'd' ∷ b'e' ∷ b'v' ∷ b'c' ∷ 0 ∷ [])
strcpy_lem_example = strcpy_lem dev [] stale dev-IsText (λ e. cc) (omega arith)

classes_lem_example :
    (isgraph (pos b'k') ≡ (isalnum (pos b'k') || ispunct (pos b'k')))
    × ((isalnum (pos b'k') && ispunct (pos b'k')) ≡ false)
    × ((isalpha (pos b'k') && isdigit (pos b'k')) ≡ false)
    × (isprint (pos b'k') ≡ (isgraph (pos b'k') || within 32 32 (pos b'k')))
    × (iscntrl (pos b'k') ≡ (below 128 (pos b'k') && not (isprint (pos b'k'))))
    × ((isblank (pos b'k') && not (isspace (pos b'k'))) ≡ false)
    × ((isalpha (pos b'k') && not (islower (tolower (pos b'k')))) ≡ false)
    × ((isalpha (pos b'k') && not (isupper (toupper (pos b'k')))) ≡ false)
    × (tolower (toupper (pos b'k')) ≡ tolower (pos b'k'))
    × (toupper (tolower (pos b'k')) ≡ toupper (pos b'k'))
classes_lem_example = classes_lem (pos b'k')

-- " ls  -a" with the delimiter " ".
abbrev spaces : List ℕ
spaces = b' ' ∷ []

abbrev ls : List ℕ
ls = b'l' ∷ b's' ∷ []

abbrev option_a : List ℕ
option_a = b'-' ∷ b'a' ∷ 0 ∷ []

spaces-IsText : IsText spaces
spaces-IsText = (omega arith, omega arith, tt)

strtok_lem_example :
    (strtok (some (spaces ++ (ls ++ b' ' ∷ option_a))) none (stored spaces [])
      ≡ ok (some (stored ls option_a), some option_a))
    × (strtok (some (spaces ++ stored ls option_a)) none (stored spaces [])
        ≡ ok (some (stored ls option_a), none))
    × (strtok (some (stored spaces option_a)) none (stored spaces []) ≡ ok (none, none))
    × ((s : List ℕ)
        → strtok none (some s) (stored spaces []) ≡ strtok (some s) none (stored spaces []))
    × (strtok none none (stored spaces []) ≡ ok (none, none))
strtok_lem_example =
    strtok_lem spaces [] spaces ls option_a b' ' none spaces-IsText spaces-IsText (refl, tt)
      (omega arith, omega arith, (omega arith, omega arith, tt)) (refl, (refl, tt)) (λ e. cc)
      (omega arith) refl
