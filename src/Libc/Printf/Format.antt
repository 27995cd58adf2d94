-- ===== src/Libc/Printf/Format.antt =====
-- The main loop of libc/src/stdio/_vprintf_raw.c, with `sprintf` and `puts`.
pub mod Args
pub mod Convert
pub mod Sprintf
pub mod Numbers
pub mod Dates
pub mod Counts
use oslab2_virtualfs.Base.{
  ℕ, zero, suc, ◌+◌, ◌-◌, ◌*◌, ◌/◌, ◌%◌, ◌^◌, bit_or, Bool, true, false, not, ◌&&◌, ◌||◌, List, [],
  ◌∷◌, ◌++◌, Option, none, some, ◌==◌, ltb, if◌then◌else◌, length, Outcome, ok, undefined,
  unfinished, ◌>>=◌, ◌>>◌, ℤ, pos, negsuc, is_neg, word_limit,
}
use oslab2_virtualfs.Libc.Printf.{
  ConvSpec, left_justified, get_behavior_modifier, get_integer, printf_c, printf_s, printf_d,
  printf_o, printf_x, Sign, unsigned, nonnegative, minus,
}

-- A variadic argument: an int, an unsigned, a string by its bytes, or the address of an int.
pub data Arg : Type 0 where
  int : ℤ → Arg
  uint : ℕ → Arg
  str : List ℕ → Arg
  address : ℕ → Arg

-- What the call has done: `written`, the bytes that went to `putc`, the ints that `%n` stored, and the
-- arguments that are left.
pub record Printed : Type 0 where
  pub written : ℕ
  pub output : List ℕ
  pub stored : List (ℕ × ℕ)
  pub args : List Arg

-- `va_arg`: an argument of another type, or none, is undefined. An int and an unsigned that both can
-- hold are read as each other.
abbrev pub take_int : List Arg → Outcome (ℤ × List Arg)
take_int (int z ∷ args) = ok (z, args)
take_int (uint n ∷ args) = if ltb n (2 ^ 31) then ok (pos n, args) else undefined
take_int (str s ∷ args) = undefined
take_int (address p ∷ args) = undefined
take_int [] = undefined

abbrev pub take_uint : List Arg → Outcome (ℕ × List Arg)
take_uint (int (pos n) ∷ args) = ok (n, args)
take_uint (int (negsuc n) ∷ args) = undefined
take_uint (uint n ∷ args) = ok (n, args)
take_uint (str s ∷ args) = undefined
take_uint (address p ∷ args) = undefined
take_uint [] = undefined

abbrev pub take_str : List Arg → Outcome (List ℕ × List Arg)
take_str (str s ∷ args) = ok (s, args)
take_str (int z ∷ args) = undefined
take_str (uint n ∷ args) = undefined
take_str (address p ∷ args) = undefined
take_str [] = undefined

abbrev pub take_address : List Arg → Outcome (ℕ × List Arg)
take_address (address p ∷ args) = ok (p, args)
take_address (int z ∷ args) = undefined
take_address (uint n ∷ args) = undefined
take_address (str s ∷ args) = undefined
take_address [] = undefined

-- `-(unsigned)p_int` and `p_int`, and the `char` of an int.
abbrev pub absolute : ℤ → ℕ
absolute (pos n) = n
absolute (negsuc n) = n + 1

abbrev pub sign_of : ℤ → Sign
sign_of (pos n) = nonnegative
sign_of (negsuc n) = minus

abbrev pub char_of : ℤ → ℕ
char_of (pos n) = n % 256
char_of (negsuc n) = 255 - n % 256

-- A conversion's result, added to what was printed.
abbrev pub print : List Arg → ℕ × List ℕ → Printed → Printed
print args (count, bytes) p = record p {
  written = p.written + count;
  output = p.output ++ bytes;
  args = args;
}

-- The `switch` on the conversion specifier `c`, which is not 0.
pub convert : ℕ → ConvSpec → Printed → Outcome Printed
convert c spec p =
    if c == b'c'
    then (take_int p.args >>= λ (z, args). ok (print args (printf_c spec (char_of z)) p))
    else if c == b's'
    then (take_str p.args >>= λ (s, args). printf_s spec s >>= λ r. ok (print args r p))
    else if c == b'd' || c == b'i'
    then (take_int p.args >>= λ (z, args).
        printf_d spec (sign_of z) (absolute z) >>= λ r. ok (print args r p))
    else if c == b'u'
    then (take_uint p.args >>= λ (n, args). printf_d spec unsigned n >>= λ r. ok (print args r p))
    else if c == b'o'
    then (take_uint p.args >>= λ (n, args). printf_o spec n >>= λ r. ok (print args r p))
    else if c == b'x'
    then (take_uint p.args >>= λ (n, args). printf_x spec n false >>= λ r. ok (print args r p))
    else if c == b'X' || c == b'p'
    then (take_uint p.args >>= λ (n, args). printf_x spec n true >>= λ r. ok (print args r p))
    else if c == b'%'
    then ok (print p.args (1, b'%' ∷ []) p)
    else if c == b'n'
    then (take_address p.args >>= λ (a, args).
        ok (record p { stored = p.stored ++ ((a, p.written) ∷ []); args = args }))
    else ok p

-- The width that `*` takes: a negative one is left justification and its absolute value.
abbrev pub starred : ℕ → ℤ → ConvSpec
starred behavior (pos n) = record { behavior = behavior; width = n; precision = none }
starred behavior (negsuc n) = record {
  behavior = bit_or behavior left_justified;
  width = n + 1;
  precision = none;
}

-- The minimum field width.
pub get_width : List ℕ → ℕ → List Arg → Outcome (ConvSpec × List ℕ × List Arg)
get_width [] behavior args = undefined
get_width (c ∷ fmt) behavior args =
    if c == b'*'
    then (take_int args >>= λ (z, args'). ok (starred behavior z, fmt, args'))
    else (get_integer (c ∷ fmt) 0 >>= λ (width, rest).
        ok (record { behavior = behavior; width = width; precision = none }, rest, args))

-- The precision that `*` takes.
abbrev pub starred_precision : ℤ → Option ℕ
starred_precision (pos n) = some n
starred_precision (negsuc n) = none

-- The precision after `.`.
pub dot_precision : List ℕ → List Arg → Outcome (Option ℕ × List ℕ × List Arg)
dot_precision [] args = undefined
dot_precision (c ∷ fmt) args =
    if c == b'-'
    then (get_integer fmt 0 >>= λ (ignored, rest). ok (none, rest, args))
    else if c == b'*'
    then (take_int args >>= λ (z, args'). ok (starred_precision z, fmt, args'))
    else (get_integer (c ∷ fmt) 0 >>= λ (precision, rest). ok (some precision, rest, args))

pub get_precision : List ℕ → List Arg → Outcome (Option ℕ × List ℕ × List Arg)
unfolding dot_precision
get_precision [] args = undefined
get_precision (c ∷ fmt) args =
    if c == b'.' then dot_precision fmt args else ok (none, c ∷ fmt, args)

-- The conversion specifier at the head of the format: `none` is `goto ret`.
pub specifier : List ℕ → ConvSpec → Printed → Outcome (Option (List ℕ) × Printed)
unfolding convert
specifier [] spec p = undefined
specifier (c ∷ fmt) spec p =
    if c == 0 then ok (none, p) else (convert c spec p >>= λ p'. ok (some fmt, p'))

-- `case '%'`, from behind the `%` on.
pub directive : List ℕ → Printed → Outcome (Option (List ℕ) × Printed)
directive fmt p = do
  (behavior, fmt1) ← get_behavior_modifier fmt 0
  (spec, fmt2, args2) ← get_width fmt1 behavior p.args
  (precision, fmt3, args3) ← get_precision fmt2 args2
  specifier fmt3 (record spec { precision = precision }) (record p { args = args3 })

-- The loop of `_vprintf_raw`.
pub vprintf_loop : ℕ → List ℕ → Printed → Outcome Printed
vprintf_loop zero fmt p = unfinished
vprintf_loop (suc fuel) [] p = undefined
vprintf_loop (suc fuel) (c ∷ fmt) p = elim (c == 0) [
  | true ↦ ok p
  | false ↦ elim (c == b'%') [
    | false ↦ vprintf_loop fuel fmt (print p.args (1, c ∷ []) p)
    | true ↦ directive fmt p >>= λ (next, p'). elim next [
      | none ↦ ok p'
      | some rest ↦ vprintf_loop fuel rest p'
    ]
  ]
]

abbrev pub start : List Arg → Printed
start args = record { written = 0; output = []; stored = []; args = args }

-- `_vprintf_raw`: a pass of the loop takes a byte of the format, so its length is fuel enough.
pub vprintf_raw : List ℕ → List Arg → Outcome Printed
vprintf_raw format args = vprintf_loop (length format + 1) format (start args)

-- `sprintf` into the bytes from `buffer` on: a write past their end is undefined.
unfoldable pub put_bytes : List ℕ → List ℕ → Outcome (List ℕ)
put_bytes buffer [] = ok buffer
put_bytes [] (c ∷ bytes) = undefined
put_bytes (b ∷ buffer) (c ∷ bytes) = put_bytes buffer bytes >>= λ rest. ok (c ∷ rest)

unfoldable pub sprintf : List ℕ → List ℕ → List Arg → Outcome (ℕ × List ℕ)
sprintf buffer format args = do
  p ← vprintf_raw format args
  filled ← put_bytes buffer (p.output ++ (0 ∷ []))
  ok (p.written, filled)

-- `puts`: what goes to `_putc`; it returns 1.
pub puts : List ℕ → Outcome (List ℕ)
puts [] = undefined
puts (c ∷ text) =
    let rest = puts text in if c == 0 then ok (10 ∷ []) else (rest >>= λ bytes. ok (c ∷ bytes))
