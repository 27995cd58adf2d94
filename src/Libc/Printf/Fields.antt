-- ===== src/Libc/Printf/Fields.antt =====
-- The conversions of libc/src/stdio/_vprintf_raw.c: how many bytes they print.
use oslab2_virtualfs.Base.{
  ℕ, zero, suc, ◌+◌, ◌-◌, ◌*◌, ◌/◌, ◌%◌, ◌^◌, ◌≤◌, ◌<◌, ◌≡◌, refl, ◌∙◌, Bool, true, false, not,
  ◌&&◌, List, [], ◌∷◌, ◌++◌, Option, none, some, ◌==◌, ltb, if◌then◌else◌, length, take,
  length-append, length-replicate, length-take, ok, ◌>>=◌, arith, Bool-cases, inl, inr, ◌⊎◌, ne→==,
}
use oslab2_virtualfs.Base.Bits.{two_pow-suc}
use oslab2_virtualfs.Libc.Str.Laws.{strlen_lem, IsText, stored}
use oslab2_virtualfs.Libc.Printf.{
  ConvSpec, has, left_justified, printf_c, printf_s, printf_d, printf_o, printf_x, Sign,
  digits_loop, digits_fuel, digit_char, emit, sign_char, print_nch, cut, at_least_one, field_s,
  field_d, field_o, field_x, zero_padding,
}

pub digits_step :
    (fuel base value : ℕ) (capital : Bool) (buf : List ℕ)
    → digits_loop (suc fuel) base capital (suc value) buf
      ≡ digits_loop fuel base capital
          (suc value / base)
          (digit_char capital (suc value % base) ∷ buf)
unfolding digits_loop
digits_step fuel base value capital buf = rw (ne→== (suc value) 0 (omega arith), digits_loop)

-- A number below 2 ^ k has at most k digits to any base, and the loop comes to its end.
pub digits_loop_ends :
    (k base : ℕ) (capital : Bool) (value : ℕ) (buf : List ℕ)
    → 2 ≤ base
    → value < 2 ^ k
    → (ds : List ℕ) × (digits_loop (suc k) base capital value buf ≡ ok ds)
unfolding digits_loop
digits_loop_ends k base capital zero buf two small = (buf, refl)
digits_loop_ends zero base capital (suc value) buf two small = absurd (omega arith)
digits_loop_ends (suc k) base capital (suc value) buf two small =
    let (ds, runs) =
      digits_loop_ends k base capital (suc value / base)
        (digit_char capital (suc value % base) ∷ buf) two
        (halves (suc value) base (2 ^ k) two (omega (arith, two_pow-suc k))) in
    (ds, digits_step (suc k) base value capital buf ∙ runs)
  where
    halves : (v b m : ℕ) → 2 ≤ b → v < 2 * m → v / b < m
    halves v b m two less = grind arith

-- What a conversion prints: as many bytes as it says, and at least the field's width.
abbrev pub Fills : ℕ → ℕ × List ℕ → Type 0
Fills width (count, bytes) = (length bytes ≡ count) × (width ≤ count)

emit-length :
    (spec : ConvSpec) (prefix : List ℕ) (numzero : ℕ) (buf : List ℕ) (numspace : ℕ)
    → length (emit spec prefix numzero buf numspace).1 ≡ (emit spec prefix numzero buf numspace).0
unfolding emit
emit-length spec prefix numzero buf numspace = elim (Bool-cases (has spec left_justified)) [
  | inl left ↦ rw left (
      omega (
        arith,
        length-append prefix (print_nch b'0' numzero ++ (buf ++ print_nch b' ' numspace)),
        length-append (print_nch b'0' numzero) (buf ++ print_nch b' ' numspace),
        length-append buf (print_nch b' ' numspace),
        length-replicate {A = ℕ} numzero b'0',
        length-replicate {A = ℕ} numspace b' ',
      ))
  | inr right ↦ rw right (
      omega (
        arith,
        length-append (print_nch b' ' numspace) (prefix ++ (print_nch b'0' numzero ++ buf)),
        length-append prefix (print_nch b'0' numzero ++ buf),
        length-append (print_nch b'0' numzero) buf,
        length-replicate {A = ℕ} numzero b'0',
        length-replicate {A = ℕ} numspace b' ',
      ))
]

emit-Fills :
    (spec : ConvSpec) (prefix : List ℕ) (numzero : ℕ) (buf : List ℕ) (numspace : ℕ)
    → spec.width ≤ numspace + length prefix + numzero + length buf
    → Fills spec.width (emit spec prefix numzero buf numspace)
unfolding emit
emit-Fills spec prefix numzero buf numspace enough =
    (emit-length spec prefix numzero buf numspace, enough)

-- The arithmetic of the three fields, with a prefix of `s` bytes and `n` digits.
d_room :
    (padded : Bool) (w p s n : ℕ)
    → (padded ≡ false) ⊎ (p ≤ n)
    → let precision = if padded && ltb (p + s) w then w else p in
      let numzero = precision - n - s in
      w ≤ (if padded then 0 else w) - numzero - n - s + s + numzero + n
d_room true w p s n (inl plain) = absurd (ground (arith, plain))
d_room true w p s n (inr enough) = ground arith
d_room false w p s n either = omega arith

o_room :
    (padded : Bool) (w p n : ℕ)
    → let precision = if padded && ltb p w then w else p in
      let numzero = precision - n in w ≤ (if padded then 0 else w) - numzero - n + 0 + numzero + n
o_room true w p n = ground arith
o_room false w p n = omega arith

x_room :
    (padded : Bool) (w p s n : ℕ)
    → let precision = if padded && ltb p (w - s) then w - s else p in
      let numzero = precision - n in
      w ≤ (if padded then 0 else w) - numzero - n - s + s + numzero + n
x_room true w p s n = ground arith
x_room false w p s n = omega arith

-- Without a precision there is at least one digit.
some_digit :
    (precision : Option ℕ) (filled : List ℕ)
    → precision ≡ none
    → at_least_one precision
      ≤ length
          (if length filled == 0 && not (at_least_one precision == 0) then b'0' ∷ [] else filled)
some_digit none [] absent = omega arith
some_digit none (d ∷ filled) absent = ground arith
some_digit (some p) filled absent = absurd (ground (arith, absent))

field_d-Fills :
    (spec : ConvSpec) (sign : Sign) (filled : List ℕ)
    → (has spec zero_padding ≡ false) ⊎ (spec.precision ≡ none)
    → Fills spec.width (field_d spec sign filled)
unfolding field_d
field_d-Fills spec sign filled plain = emit-Fills spec (sign_char spec sign) _ _ _ (
    d_room _ spec.width _ _ _ (elim plain [
      | inl bare ↦ inl bare
      | inr absent ↦ inr (some_digit spec.precision filled absent)
    ]))

field_o-Fills : (spec : ConvSpec) (filled : List ℕ) → Fills spec.width (field_o spec filled)
unfolding field_o
field_o-Fills spec filled = emit-Fills spec [] _ _ _ (o_room _ spec.width _ _)

field_x-Fills :
    (spec : ConvSpec) (capital : Bool) (filled : List ℕ)
    → Fills spec.width (field_x spec capital filled)
unfolding field_x
field_x-Fills spec capital filled = emit-Fills spec _ _ _ _ (x_room _ spec.width _ _ _)

-- The bytes of a field are as many as it counts, whatever the flags.
pub field_d-Adds :
    (spec : ConvSpec) (sign : Sign) (filled : List ℕ)
    → length (field_d spec sign filled).1 ≡ (field_d spec sign filled).0
unfolding field_d
field_d-Adds spec sign filled = emit-length spec _ _ _ _

pub field_o-Adds :
    (spec : ConvSpec) (filled : List ℕ) → length (field_o spec filled).1 ≡ (field_o spec filled).0
field_o-Adds spec filled = (field_o-Fills spec filled).0

pub field_x-Adds :
    (spec : ConvSpec) (capital : Bool) (filled : List ℕ)
    → length (field_x spec capital filled).1 ≡ (field_x spec capital filled).0
field_x-Adds spec capital filled = (field_x-Fills spec capital filled).0

-- A conversion of digits runs to its end: `finish` is what it does with them.
digits_done :
    {P : ℕ × List ℕ → Type 0} (base value : ℕ) (capital : Bool) (finish : List ℕ → ℕ × List ℕ)
    → 2 ≤ base
    → value < 2 ^ 32
    → ((filled : List ℕ) → P (finish filled))
    → (r : ℕ × List ℕ) × ((digits_loop digits_fuel base capital value [] >>= λ filled.
          ok (finish filled))
        ≡ ok r)
      × P r
digits_done base value capital finish two small holds =
    let (filled, runs) = digits_loop_ends 32 base capital value [] two small in
    (finish filled, rw (runs, ◌>>=◌), holds filled)

pub printf_d-Fills :
    (spec : ConvSpec) (sign : Sign) (absv : ℕ)
    → absv < 2 ^ 32
    → (has spec zero_padding ≡ false) ⊎ (spec.precision ≡ none)
    → (r : ℕ × List ℕ) × (printf_d spec sign absv ≡ ok r) × Fills spec.width r
unfolding printf_d
printf_d-Fills spec sign absv small plain =
    digits_done 10 absv false (field_d spec sign) (omega arith) small
      (λ filled. field_d-Fills spec sign filled plain)

pub printf_o-Fills :
    (spec : ConvSpec) (value : ℕ)
    → value < 2 ^ 32
    → (r : ℕ × List ℕ) × (printf_o spec value ≡ ok r) × Fills spec.width r
unfolding printf_o
printf_o-Fills spec value small =
    digits_done 8 value false (field_o spec) (omega arith) small (field_o-Fills spec)

pub printf_x-Fills :
    (spec : ConvSpec) (value : ℕ) (capital : Bool)
    → value < 2 ^ 32
    → (r : ℕ × List ℕ) × (printf_x spec value capital ≡ ok r) × Fills spec.width r
unfolding printf_x
printf_x-Fills spec value capital small =
    digits_done 16 value capital (field_x spec capital) (omega arith) small
      (field_x-Fills spec capital)

pub printf_c-Fills : (spec : ConvSpec) (ch : ℕ) → Fills spec.width (printf_c spec ch)
unfolding printf_c
printf_c-Fills spec ch = ground (
  arith,
  length-append (print_nch b' ' (spec.width - 1)) (ch ∷ []),
  length-replicate {A = ℕ} (spec.width - 1) b' ',
)

cut_lem : (precision : Option ℕ) (full : ℕ) → cut precision full ≤ full
cut_lem none full = omega arith
cut_lem (some p) full = ground arith

pub field_s-Fills :
    (spec : ConvSpec) (str : List ℕ) (full : ℕ)
    → full ≤ length str
    → Fills spec.width (field_s spec str full)
unfolding field_s
field_s-Fills spec str full inside =
    let len = cut spec.precision full in
    let text = length-take len str (omega (arith, cut_lem spec.precision full)) in
    ground (
      arith,
      text,
      length-replicate {A = ℕ} (spec.width - len) b' ',
      length-append (take len str) (print_nch b' ' (spec.width - len)),
      length-append (print_nch b' ' (spec.width - len)) (take len str),
    )

pub printf_s-Fills :
    (spec : ConvSpec) (s after : List ℕ)
    → IsText s
    → (r : ℕ × List ℕ) × (printf_s spec (stored s after) ≡ ok r) × Fills spec.width r
unfolding printf_s
printf_s-Fills spec s after text = (
  field_s spec (stored s after) (length s),
  rw (strlen_lem s after text, ◌>>=◌),
  field_s-Fills spec (stored s after) (length s) (omega (arith, length-append s (0 ∷ after))),
)
