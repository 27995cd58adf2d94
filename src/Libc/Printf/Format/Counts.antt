-- ===== src/Libc/Printf/Format/Counts.antt =====
-- The main loop of libc/src/stdio/_vprintf_raw.c: it ends, and returns the number of bytes printed.
use oslab2_virtualfs.Base.{
  ℕ, zero, suc, ◌+◌, ◌-◌, ◌*◌, ◌^◌, ltb, undefined, ◌≤◌, ◌<◌, ◌≡◌, refl, Bool, List, [], ◌∷◌,
  Option, none, some, ◌==◌, if◌then◌else◌, length, Outcome, ok, ◌>>=◌, arith, bit_or,
}
use oslab2_virtualfs.Libc.Ctype.{isdigit}
use oslab2_virtualfs.Libc.Atoi.{char_value}
use oslab2_virtualfs.Libc.Printf.{
  ConvSpec, get_behavior_modifier, get_integer, left_justified, always_signed, space_prepended,
  alternative_form, zero_padding,
}
use oslab2_virtualfs.Libc.Printf.Format.{
  Arg, Printed, take_int, print, convert, get_width, dot_precision, get_precision, specifier,
  directive, vprintf_loop, vprintf_raw, start,
}
use oslab2_virtualfs.Base.Sound.{
  Sound, Sound-bind, Sound-weaken, Sound-if, Sound-elim, ok-Sound, undefined-Sound,
}
use oslab2_virtualfs.Libc.Printf.Format.Args.{AreWords, take_int-Sound}
use oslab2_virtualfs.Libc.Printf.Format.Convert.{Counts, print-Counts, convert-Counts}

-- The functions that walk the format: they end, and leave no more of it than there was.
flag :
    (c : ℕ) (fmt : List ℕ) (behavior : ℕ) (t : Bool) (b : ℕ) (m : Outcome (ℕ × List ℕ))
    → Sound (λ (b, rest). length rest ≤ length fmt) (get_behavior_modifier fmt (bit_or behavior b))
    → Sound (λ (b, rest). length rest ≤ length (c ∷ fmt)) m
    → Sound
        (λ (b, rest). length rest ≤ length (c ∷ fmt))
        (if t then get_behavior_modifier fmt (bit_or behavior b) else m)
flag c fmt behavior t b m shorter s =
    Sound-if _ t _ m
      (Sound-weaken (get_behavior_modifier fmt (bit_or behavior b)) (λ r. omega arith) shorter) s

get_behavior_modifier-Sound :
    (fmt : List ℕ) (behavior : ℕ)
    → Sound (λ (b, rest). length rest ≤ length fmt) (get_behavior_modifier fmt behavior)
unfolding get_behavior_modifier
get_behavior_modifier-Sound [] behavior = undefined-Sound _
get_behavior_modifier-Sound (c ∷ fmt) behavior =
    flag c fmt behavior _ left_justified _
      (get_behavior_modifier-Sound fmt (bit_or behavior left_justified))
      (flag c fmt behavior _ always_signed _
        (get_behavior_modifier-Sound fmt (bit_or behavior always_signed))
        (flag c fmt behavior _ space_prepended _
          (get_behavior_modifier-Sound fmt (bit_or behavior space_prepended))
          (flag c fmt behavior _ alternative_form _
            (get_behavior_modifier-Sound fmt (bit_or behavior alternative_form))
            (flag c fmt behavior _ zero_padding (ok (behavior, c ∷ fmt))
              (get_behavior_modifier-Sound fmt (bit_or behavior zero_padding))
              (ok-Sound _ (omega arith))))))

get_integer-Sound :
    (fmt : List ℕ) (result : ℕ)
    → Sound (λ (n, rest). length rest ≤ length fmt) (get_integer fmt result)
unfolding get_integer
get_integer-Sound [] result = undefined-Sound _
get_integer-Sound (c ∷ fmt) result =
    let next = result * 10 + (c - b'0') in
    Sound-elim _ (isdigit (char_value c)) _ (ok (result, c ∷ fmt))
      (Sound-elim _ (ltb next (2 ^ 31)) (get_integer fmt next) undefined
        (Sound-weaken (get_integer fmt next) (λ r. omega arith) (get_integer-Sound fmt next))
        (undefined-Sound _))
      (ok-Sound _ (omega arith))

-- What a part of the format leaves: no more of it than there was, and arguments that are words.
abbrev Rest : List ℕ → List ℕ × List Arg → Type 0
Rest fmt (rest, args) = (length rest ≤ length fmt) × AreWords args

get_width-Sound :
    (fmt : List ℕ) (behavior : ℕ) (args : List Arg)
    → AreWords args
    → Sound (λ (spec, rest, left). Rest fmt (rest, left)) (get_width fmt behavior args)
unfolding get_width
get_width-Sound [] behavior args words = undefined-Sound _
get_width-Sound (c ∷ fmt) behavior args words =
    Sound-if (λ (spec, rest, left). Rest (c ∷ fmt) (rest, left)) (c == b'*') _ _
      (Sound-bind _ _ (take_int args) _ (take_int-Sound args words)
        (λ (z, args') (w, left). ok-Sound _ (omega arith, left)))
      (Sound-bind _ _ (get_integer (c ∷ fmt) 0) _ (get_integer-Sound (c ∷ fmt) 0)
        (λ (n, rest) shorter. ok-Sound _ (shorter, words)))

dot_precision-Sound :
    (fmt : List ℕ) (args : List Arg)
    → AreWords args
    → Sound (λ (precision, rest, left). Rest fmt (rest, left)) (dot_precision fmt args)
unfolding dot_precision
dot_precision-Sound [] args words = undefined-Sound _
dot_precision-Sound (c ∷ fmt) args words =
    Sound-if (λ (precision, rest, left). Rest (c ∷ fmt) (rest, left)) (c == b'-') _ _
      (Sound-bind _ _ (get_integer fmt 0) _ (get_integer-Sound fmt 0)
        (λ (n, rest) shorter. ok-Sound _ (omega (arith, shorter), words)))
      (Sound-if _ (c == b'*') _ _
        (Sound-bind _ _ (take_int args) _ (take_int-Sound args words)
          (λ (z, args') (w, left). ok-Sound _ (omega arith, left)))
        (Sound-bind _ _ (get_integer (c ∷ fmt) 0) _ (get_integer-Sound (c ∷ fmt) 0)
          (λ (n, rest) shorter. ok-Sound _ (shorter, words))))

get_precision-Sound :
    (fmt : List ℕ) (args : List Arg)
    → AreWords args
    → Sound (λ (precision, rest, left). Rest fmt (rest, left)) (get_precision fmt args)
unfolding get_precision
get_precision-Sound [] args words = undefined-Sound _
get_precision-Sound (c ∷ fmt) args words =
    Sound-if _ (c == b'.') (dot_precision fmt args) _
      (Sound-weaken (dot_precision fmt args)
        (λ (precision, rest, left) r. (omega (arith, r.0), r.1))
        (dot_precision-Sound fmt args words))
      (ok-Sound _ (omega arith, words))

-- The rest of the format, if there is one, is shorter.
abbrev Goes : List ℕ → Option (List ℕ) × Printed → Type 0
Goes fmt (none, p) = Counts p
Goes fmt (some rest, p) = (length rest < length fmt) × Counts p

Goes-weaken :
    (f g : List ℕ) → length f ≤ length g → (n : Option (List ℕ) × Printed) → Goes f n → Goes g n
Goes-weaken f g le (none, p) counts = counts
Goes-weaken f g le (some rest, p) (less, counts) = (omega arith, counts)

specifier-Sound :
    (fmt : List ℕ) (spec : ConvSpec) (p : Printed)
    → Counts p
    → Sound (Goes fmt) (specifier fmt spec p)
unfolding specifier
specifier-Sound [] spec p counts = undefined-Sound _
specifier-Sound (c ∷ fmt) spec p counts =
    Sound-if (Goes (c ∷ fmt)) (c == 0) (ok (none, p)) _ (ok-Sound _ counts) (
      Sound-bind Counts (Goes (c ∷ fmt)) (convert c spec p) (λ p'. ok (some fmt, p'))
        (convert-Counts c spec p counts) (λ p' h. ok-Sound _ (omega arith, h)))

directive-Sound : (fmt : List ℕ) (p : Printed) → Counts p → Sound (Goes fmt) (directive fmt p)
unfolding directive
directive-Sound fmt p counts =
    Sound-bind _ _ (get_behavior_modifier fmt 0) _ (get_behavior_modifier-Sound fmt 0)
      (λ (behavior, fmt1) s1.
        Sound-bind _ _ (get_width fmt1 behavior p.args) _
          (get_width-Sound fmt1 behavior p.args counts.1)
          (λ (spec, fmt2, args2) s2.
            Sound-bind _ _ (get_precision fmt2 args2) _ (get_precision-Sound fmt2 args2 s2.1)
              (λ (precision, fmt3, args3) s3.
                Sound-weaken (specifier fmt3 _ _)
                  (Goes-weaken fmt3 fmt (omega (arith, s1, s2.0, s3.0)))
                  (specifier-Sound fmt3 (record spec { precision = precision })
                    (record p { args = args3 }) (counts.0, s3.1)))))

vprintf_loop-Counts :
    (fuel : ℕ) (fmt : List ℕ) (p : Printed)
    → length fmt < fuel
    → Counts p
    → Sound Counts (vprintf_loop fuel fmt p)
unfolding vprintf_loop
vprintf_loop-Counts zero fmt p enough counts = absurd (omega arith)
vprintf_loop-Counts (suc fuel) [] p enough counts = undefined-Sound _
vprintf_loop-Counts (suc fuel) (c ∷ fmt) p enough counts =
    Sound-elim Counts (c == 0) (ok p) _ (ok-Sound _ counts) (
      Sound-elim Counts (c == b'%') (directive fmt p >>= next) _
        (Sound-bind (Goes fmt) Counts (directive fmt p) next (directive-Sound fmt p counts)
          (continues (vprintf_loop-Counts fuel)))
        (vprintf_loop-Counts fuel fmt (print p.args (1, c ∷ []) p) (omega arith)
          (print-Counts p.args (1, c ∷ []) p counts counts.1 refl)))
  where
    next : Option (List ℕ) × Printed → Outcome Printed
    next (n, p') = elim n [ none ↦ ok p' | some rest ↦ vprintf_loop fuel rest p' ]

    continues :
        ((rest : List ℕ) (p' : Printed)
          → length rest < fuel
          → Counts p'
          → Sound Counts (vprintf_loop fuel rest p'))
        → (n : Option (List ℕ) × Printed) → Goes fmt n
        → Sound Counts (next n)
    continues ih (none, p') h = ok-Sound _ h
    continues ih (some rest, p') (less, h) = ih rest p' (omega arith) h

-- `_vprintf_raw` comes to an end whatever the format and the arguments are, and the number that it returns
-- is the number of bytes that it has given to `putc`.
pub vprintf_raw-Counts :
    (format : List ℕ) (args : List Arg)
    → AreWords args
    → Sound (λ p. p.written ≡ length p.output) (vprintf_raw format args)
unfolding vprintf_raw
vprintf_raw-Counts format args words =
    Sound-weaken (vprintf_loop (length format + 1) format (start args)) (λ p counts. counts.0)
      (vprintf_loop-Counts (length format + 1) format (start args) (omega arith) (refl, words))
