-- ===== src/Libc/Printf/Format/Sprintf.antt =====
-- libc/src/stdio/sprintf.c and libc/src/stdlib/atoi.c: an int that is written by `%d` and read back.
use oslab2_virtualfs.Base.{
  ℕ, zero, suc, ◌+◌, ◌/◌, ◌%◌, ◌^◌, ◌≤◌, ◌<◌, ◌≡◌, refl, sym, ap, ap₂, replicate, pos, ◌∙◌, false,
  List, [], ◌∷◌, ◌++◌, length, drop, none, ok, ◌>>=◌, arith, ne→==, length-append, ℤ, ok_injective,
}
use native.Mathlib.Nat.{pow-suc}
use mathlib.Core.Path.{subst}
use oslab2_virtualfs.Libc.Atoi.{atoi}
use oslab2_virtualfs.Libc.Printf.{
  ConvSpec, get_behavior_modifier, get_integer, printf_d, digits_loop, digit_char, emit, sign_char,
  Sign, unsigned, nonnegative, minus, field_d,
}
use oslab2_virtualfs.Libc.Printf.Fields.{digits_step, digits_loop_ends, field_d-Adds}
use oslab2_virtualfs.Libc.Printf.Format.{
  absolute, sign_of, int, put_bytes, sprintf, vprintf_raw, vprintf_loop, directive, get_width,
  get_precision, specifier, convert, start, print,
}
use oslab2_virtualfs.Libc.Printf.Format.Args.{IntIsWord, absolute_bound}
use oslab2_virtualfs.Libc.Printf.Decimal.{
  printf_d-text, append_assoc, append-AreDigits, zeros-AreDigits, digits_loop-AreDigits,
}
use oslab2_virtualfs.Libc.Atoi.Laws.{AreDigits}

-- A number below 10 ^ k has at most k digits.
pub digits_loop-length :
    (k fuel value : ℕ) (buf ds : List ℕ)
    → value < 10 ^ k
    → digits_loop fuel 10 false value buf ≡ ok ds
    → length ds ≤ k + length buf
unfolding digits_loop
digits_loop-length k zero value buf ds small runs = absurd (ground (arith, runs))
digits_loop-length k (suc fuel) zero buf ds small runs =
    omega (arith, ap length (ok_injective runs))
digits_loop-length zero (suc fuel) (suc value) buf ds small runs = absurd (omega arith)
digits_loop-length (suc k) (suc fuel) (suc value) buf ds small runs = omega (
  arith,
  digits_loop-length k fuel (suc value / 10) (digit_char false (suc value % 10) ∷ buf) ds
      (omega (arith, pow-suc 10 k)) (sym (digits_step fuel 10 value false buf) ∙ runs),
)

-- `%d` without flags, width and precision.
abbrev plain : ConvSpec
plain = record { behavior = 0; width = 0; precision = none }

plain_count :
    (sign : Sign) (filled : List ℕ) → length filled ≤ 10 → (field_d plain sign filled).0 ≤ 11
unfolding field_d sign_char emit
plain_count unsigned [] short = omega arith
plain_count nonnegative [] short = omega arith
plain_count minus [] short = omega arith
plain_count sign (d ∷ filled) short =
    rw (ne→== (suc (length filled)) 0 (omega arith)) (omega (arith, one_sign sign))
  where
    one_sign : (sign : Sign) → length (sign_char plain sign) ≤ 1
    one_sign unsigned = omega arith
    one_sign nonnegative = omega arith
    one_sign minus = omega arith

-- An int is at most ten digits and a sign.
plain-length :
    (z : ℤ) (r : ℕ × List ℕ)
    → IntIsWord z
    → printf_d plain (sign_of z) (absolute z) ≡ ok r
    → length r.1 ≤ 11
unfolding printf_d
plain-length z r small runs =
    let (filled, ends) =
      digits_loop_ends 32 10 false (absolute z) [] (omega arith) (absolute_bound z small) in
    let short =
      digits_loop-length 10 33 (absolute z) [] filled (omega (arith, absolute_bound z small))
        ends in
    let is : r ≡ field_d plain (sign_of z) filled =
      ok_injective (sym runs ∙ ap (λ o. o >>= λ ds. ok (field_d plain (sign_of z) ds)) ends) in
    subst (λ r. length r.1 ≤ 11) (sym is)
      (omega (arith, field_d-Adds plain (sign_of z) filled, plain_count (sign_of z) filled short))

pub put_bytes_lem :
    (buffer bytes : List ℕ)
    → length bytes ≤ length buffer
    → put_bytes buffer bytes ≡ ok (bytes ++ drop (length bytes) buffer)
unfolding put_bytes
put_bytes_lem buffer [] fits = refl
put_bytes_lem [] (c ∷ bytes) fits = absurd (omega arith)
put_bytes_lem (b ∷ buffer) (c ∷ bytes) fits =
    rw (put_bytes_lem buffer bytes (omega arith), ◌>>=◌) refl

-- The run of `_vprintf_raw` on the format "%d".
vprintf_d :
    (z : ℤ) (r : ℕ × List ℕ)
    → printf_d plain (sign_of z) (absolute z) ≡ ok r
    → vprintf_raw (b'%' ∷ b'd' ∷ 0 ∷ []) (int z ∷ []) ≡ ok (print [] r (start (int z ∷ [])))
unfolding vprintf_raw vprintf_loop directive get_width get_precision specifier convert
    get_behavior_modifier get_integer
vprintf_d z r runs = rw (runs, ◌>>=◌) refl

-- What `sprintf` leaves in the buffer: the text of the conversion, its end, and what was there.
sprintf_text :
    (z : ℤ) (buffer : List ℕ)
    → IntIsWord z
    → 12 ≤ length buffer
    → (r : ℕ × List ℕ) × (n : ℕ) × (after : List ℕ) × (printf_d plain (sign_of z) (absolute z)
        ≡ ok r)
      × (sprintf buffer (b'%' ∷ b'd' ∷ 0 ∷ []) (int z ∷ []) ≡ ok (n, r.1 ++ (0 ∷ after)))
      × (atoi (r.1 ++ (0 ∷ after)) ≡ ok z)
unfolding sprintf
sprintf_text z buffer small room =
    let (r, runs, first) = printf_d-text plain z small in
    let text = r.1 ++ (0 ∷ []) in
    let after = drop (length text) buffer in
    let enough =
      put_bytes_lem buffer text
        (omega (arith, length-append r.1 (0 ∷ []), plain-length z r small runs)) in
    (
      r,
      r.0,
      after,
      runs,
      rw (vprintf_d z r runs, ◌>>=◌, enough, ◌>>=◌)
          (ap₂ (λ n filled. ok (n, filled)) (omega arith) (append_assoc r.1 (0 ∷ []) after)),
      first after,
    )

-- `sprintf` writes an int by "%d" into any 12 bytes, and `atoi` reads the same int back.
pub sprintf-atoi :
    (z : ℤ) (buffer : List ℕ)
    → IntIsWord z
    → 12 ≤ length buffer
    → (n : ℕ) × (filled : List ℕ) × (sprintf buffer (b'%' ∷ b'd' ∷ 0 ∷ []) (int z ∷ [])
        ≡ ok (n, filled))
      × (atoi filled ≡ ok z)
sprintf-atoi z buffer small room =
    let (r, n, after, runs, writes, reads) = sprintf_text z buffer small room in
    (n, r.1 ++ (0 ∷ after), writes, reads)

padded-AreDigits :
    (spaces zeros : ℕ) (ds : List ℕ)
    → spaces ≡ 0
    → AreDigits ds
    → AreDigits (replicate spaces b' ' ++ (replicate zeros b'0' ++ ds))
padded-AreDigits spaces zeros ds none_left digits =
    rw none_left (append-AreDigits (replicate zeros b'0') ds (zeros-AreDigits zeros) digits)

plain_field-AreDigits :
    (filled : List ℕ) → AreDigits filled → AreDigits (field_d plain nonnegative filled).1
unfolding field_d sign_char emit
plain_field-AreDigits [] digits = (omega arith, omega arith, tt)
plain_field-AreDigits (d ∷ filled) digits =
    rw (ne→== (suc (length filled)) 0 (omega arith))
      (padded-AreDigits _ _ (d ∷ filled) (omega arith) digits)

plain-AreDigits :
    (n : ℕ) (r : ℕ × List ℕ) → n < 2 ^ 31 → printf_d plain nonnegative n ≡ ok r → AreDigits r.1
unfolding printf_d
plain-AreDigits n r small runs =
    let (filled, ends) = digits_loop_ends 32 10 false n [] (omega arith) (omega (arith, small)) in
    let is : r ≡ field_d plain nonnegative filled =
      ok_injective (sym runs ∙ ap (λ o. o >>= λ ds. ok (field_d plain nonnegative ds)) ends) in
    subst (λ r. AreDigits r.1) (sym is)
      (plain_field-AreDigits filled (digits_loop-AreDigits 33 n [] filled tt ends))

-- A number that is not negative is written in digits.
pub sprintf-AreDigits :
    (n : ℕ) (buffer : List ℕ)
    → n < 2 ^ 31
    → 12 ≤ length buffer
    → (count : ℕ) × (text : List ℕ) × (after : List ℕ) × (sprintf buffer
          (b'%' ∷ b'd' ∷ 0 ∷ [])
          (int (pos n) ∷ [])
        ≡ ok (count, text ++ (0 ∷ after)))
      × AreDigits text
      × (atoi (text ++ (0 ∷ after)) ≡ ok (pos n))
sprintf-AreDigits n buffer small room =
    let (r, count, after, runs, writes, reads) = sprintf_text (pos n) buffer small room in
    (count, r.1, after, writes, plain-AreDigits n r small runs, reads)
