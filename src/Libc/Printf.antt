-- ===== src/Libc/Printf.antt =====
-- libc/src/stdio/_vprintf_raw.c: the conversions, as the bytes that go to `putc` and the number that each
-- returns. A function that walks the format returns what is left of it.
pub mod Format
pub mod Fields
pub mod Decimal
mod Tests
use oslab2_virtualfs.Base.{
  ℕ, zero, suc, ◌+◌, ◌-◌, ◌*◌, ◌/◌, ◌%◌, ◌^◌, bit_and, bit_or, Bool, true, false, not, ◌&&◌, ◌||◌,
  List, [], ◌∷◌, ◌++◌, Option, none, some, ◌==◌, ltb, if◌then◌else◌, length, take, replicate,
  Outcome, ok, undefined, unfinished, ◌>>=◌, ℤ, pos, negsuc,
}
use oslab2_virtualfs.Libc.Str.{strlen}
use oslab2_virtualfs.Libc.Ctype.{isdigit}
use oslab2_virtualfs.Libc.Atoi.{char_value}

abbrev pub left_justified : ℕ
left_justified = 0x1

abbrev pub always_signed : ℕ
always_signed = 0x2

abbrev pub space_prepended : ℕ
space_prepended = 0x4

abbrev pub alternative_form : ℕ
alternative_form = 0x8

abbrev pub zero_padding : ℕ
zero_padding = 0x10

-- `width` is at least 0, and so is `precision`, for which `none` is -1.
pub record ConvSpec : Type 0 where
  pub behavior : ℕ
  pub width : ℕ
  pub precision : Option ℕ

-- `spec->behavior & flag`
abbrev pub has : ConvSpec → ℕ → Bool
has spec flag = not (bit_and spec.behavior flag == 0)

-- `_get_behavior_modifier`, with `behavior` so far.
pub get_behavior_modifier : List ℕ → ℕ → Outcome (ℕ × List ℕ)
get_behavior_modifier [] behavior = undefined
get_behavior_modifier (c ∷ fmt) behavior =
    let minus = get_behavior_modifier fmt (bit_or behavior left_justified) in
    let plus = get_behavior_modifier fmt (bit_or behavior always_signed) in
    let space = get_behavior_modifier fmt (bit_or behavior space_prepended) in
    let sharp = get_behavior_modifier fmt (bit_or behavior alternative_form) in
    let nought = get_behavior_modifier fmt (bit_or behavior zero_padding) in
    if c == b'-'
    then minus
    else if c == b'+'
    then plus
    else if c == b' '
    then space
    else if c == b'#'
    then sharp
    else if c == b'0'
    then nought
    else ok (behavior, c ∷ fmt)

-- `_get_integer`, with `result` so far; a number that is no int is undefined.
pub get_integer : List ℕ → ℕ → Outcome (ℕ × List ℕ)
unfolding isdigit
get_integer [] result = undefined
get_integer (c ∷ fmt) result = elim (isdigit (char_value c)) [
  | true ↦ elim (ltb (result * 10 + (c - b'0')) (2 ^ 31)) [
    | true ↦ get_integer fmt (result * 10 + (c - b'0'))
    | false ↦ undefined
  ]
  | false ↦ ok (result, c ∷ fmt)
]

-- `_print_nch`
abbrev pub print_nch : ℕ → ℕ → List ℕ
print_nch ch n = replicate n ch

-- `_printf_c`
pub printf_c : ConvSpec → ℕ → ℕ × List ℕ
printf_c spec ch =
    if spec.width == 0
    then (1, ch ∷ [])
    else if has spec left_justified
    then (spec.width, ch ∷ print_nch b' ' (spec.width - 1))
    else (spec.width, print_nch b' ' (spec.width - 1) ++ (ch ∷ []))

-- `if (spec->precision != -1 && len > spec->precision) len = spec->precision;`
abbrev pub cut : Option ℕ → ℕ → ℕ
cut none len = len
cut (some precision) len = if ltb precision len then precision else len

-- `_printf_s` with the string's length `full`; its test is `spec->behavior && LEFT_JUSTIFIED`.
pub field_s : ConvSpec → List ℕ → ℕ → ℕ × List ℕ
field_s spec str full =
    let len = cut spec.precision full in
    let nspace = spec.width - len in
    (
      nspace + len,
      if not (spec.behavior == 0)
          then take len str ++ print_nch b' ' nspace
          else print_nch b' ' nspace ++ take len str,
    )

-- `_printf_s`
pub printf_s : ConvSpec → List ℕ → Outcome (ℕ × List ℕ)
unfolding field_s
printf_s spec str = do full ← strlen str; ok (field_s spec str full)

-- `if (precision == -1) precision = 1;`
abbrev pub at_least_one : Option ℕ → ℕ
at_least_one none = 1
at_least_one (some precision) = precision

-- A digit's character.
abbrev pub digit_char : Bool → ℕ → ℕ
digit_char capital cur =
    if ltb cur 10 then b'0' + cur else (if capital then b'A' else b'a') + (cur - 10)

-- The loops that fill `buf` from the last digit on. `buf` is kept in the order in which it is printed, from
-- its last character to its first. A value is below 2 ^ 32, so fuel 33 is enough for each base.
pub digits_loop : ℕ → ℕ → Bool → ℕ → List ℕ → Outcome (List ℕ)
digits_loop zero base capital value buf = unfinished
digits_loop (suc fuel) base capital value buf = elim (value == 0) [
  | true ↦ ok buf
  | false ↦ digits_loop fuel base capital (value / base) (digit_char capital (value % base) ∷ buf)
]

abbrev pub digits_fuel : ℕ
digits_fuel = 33

-- The argument `sign` of `_printf_d`: -1, 0 and 1.
pub data Sign : Type 0 where
  unsigned : Sign
  nonnegative : Sign
  minus : Sign

-- `signchar`, if `signlen` is 1.
pub sign_char : ConvSpec → Sign → List ℕ
sign_char spec unsigned = []
sign_char spec minus = b'-' ∷ []
sign_char spec nonnegative =
    if has spec always_signed then b'+' ∷ [] else if has spec space_prepended then b' ' ∷ [] else []

-- The ends of `_printf_d`, `_printf_o` and `_printf_x`: `prefix`, `numzero` zeros and the digits, in a field
-- that is filled with `numspace` spaces on the side that `LEFT_JUSTIFIED` says.
pub emit : ConvSpec → List ℕ → ℕ → List ℕ → ℕ → ℕ × List ℕ
emit spec prefix numzero buf numspace = (
  numspace + length prefix + numzero + length buf,
  if has spec left_justified
      then prefix ++ (print_nch b'0' numzero ++ (buf ++ print_nch b' ' numspace))
      else print_nch b' ' numspace ++ (prefix ++ (print_nch b'0' numzero ++ buf)),
)

-- `_printf_d` from `if (bufc == 0 && precision != 0)` on, with the digits that the loop has filled in.
pub field_d : ConvSpec → Sign → List ℕ → ℕ × List ℕ
unfolding sign_char emit
field_d spec sign filled =
    let precision0 = at_least_one spec.precision in
    let buf = if length filled == 0 && not (precision0 == 0) then b'0' ∷ [] else filled in
    let signs = sign_char spec sign in
    let padded = has spec zero_padding in
    let precision =
      if padded && ltb (precision0 + length signs) spec.width then spec.width else precision0 in
    let width = if padded then 0 else spec.width in
    let numzero = precision - length buf - length signs in
    let numspace = width - numzero - length buf - length signs in
    emit spec signs numzero buf numspace

-- `_printf_d`
pub printf_d : ConvSpec → Sign → ℕ → Outcome (ℕ × List ℕ)
unfolding field_d
printf_d spec sign absv = do
  filled ← digits_loop digits_fuel 10 false absv []
  ok (field_d spec sign filled)

-- `_printf_o` from behind its loop on.
pub field_o : ConvSpec → List ℕ → ℕ × List ℕ
unfolding emit
field_o spec filled =
    let precision0 = at_least_one spec.precision in
    let buf =
      if (length filled == 0 && not (precision0 == 0)) || has spec alternative_form
      then b'0' ∷ filled
      else filled in
    let padded = has spec zero_padding in
    let precision = if padded && ltb precision0 spec.width then spec.width else precision0 in
    let width = if padded then 0 else spec.width in
    let numzero = precision - length buf in emit spec [] numzero buf (width - numzero - length buf)

-- `_printf_o`
pub printf_o : ConvSpec → ℕ → Outcome (ℕ × List ℕ)
unfolding field_o
printf_o spec value = do filled ← digits_loop digits_fuel 8 false value []; ok (field_o spec filled)

-- The `0x` or `0X` of the alternative form.
abbrev pub hex_prefix : Bool → List ℕ
hex_prefix capital = b'0' ∷ (if capital then b'X' else b'x') ∷ []

-- `_printf_x` from behind its loop on.
pub field_x : ConvSpec → Bool → List ℕ → ℕ × List ℕ
unfolding emit
field_x spec capital filled =
    let precision0 = at_least_one spec.precision in
    let empty = length filled == 0 in
    let buf = if empty && not (precision0 == 0) then b'0' ∷ [] else filled in
    let prefix = if not empty && has spec alternative_form then hex_prefix capital else [] in
    let padded = has spec zero_padding in
    let precision =
      if padded && ltb precision0 (spec.width - length prefix)
      then spec.width - length prefix
      else precision0 in
    let width = if padded then 0 else spec.width in
    let numzero = precision - length buf in
    emit spec prefix numzero buf (width - numzero - length buf - length prefix)

-- `_printf_x`
pub printf_x : ConvSpec → ℕ → Bool → Outcome (ℕ × List ℕ)
unfolding field_x
printf_x spec value capital = do
  filled ← digits_loop digits_fuel 16 capital value []
  ok (field_x spec capital filled)
