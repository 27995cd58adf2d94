-- ===== src/Libc/Printf/Format/Dates.antt =====
-- The run of libc/src/stdio/_vprintf_raw.c on the format of libc/src/time/asctime.c.
use oslab2_virtualfs.Base.{
  ℕ, suc, ◌+◌, ◌^◌, ◌≤◌, ◌<◌, ◌≡◌, refl, ◌∙◌, List, [], ◌∷◌, none, some, length, take, ok, ◌>>=◌,
  pos, ne→==, ◌≢◌, arith,
}
use oslab2_virtualfs.Base.Sound.{Sound}
use mathlib.Core.Path.{subst}
use oslab2_virtualfs.Libc.Printf.{
  field_s, printf_d, printf_s, nonnegative, get_behavior_modifier, get_integer,
}
use oslab2_virtualfs.Libc.Str.{strlen, strlen_loop}
use oslab2_virtualfs.Libc.Printf.Format.{
  Arg, int, str, Printed, print, start, vprintf_raw, vprintf_loop, directive, get_width,
  get_precision, dot_precision, specifier, convert,
}
use oslab2_virtualfs.Libc.Printf.Format.Args.{AreWords}
use oslab2_virtualfs.Libc.Printf.Format.Counts.{vprintf_raw-Counts}
use oslab2_virtualfs.Libc.Printf.Format.Numbers.{bare, number}

-- "%.3s %.3s%3d %.2d:%.2d:%.2d %d\n"
abbrev pub date_format : List ℕ
date_format =
    b'%' ∷ b'.' ∷ b'3' ∷ b's' ∷ b' ' ∷ b'%' ∷ b'.' ∷ b'3' ∷ b's' ∷ b'%' ∷ b'3' ∷ b'd' ∷ b' ' ∷ b'%'
    ∷ b'.' ∷ b'2' ∷ b'd' ∷ b':' ∷ b'%' ∷ b'.' ∷ b'2' ∷ b'd' ∷ b':' ∷ b'%' ∷ b'.' ∷ b'2' ∷ b'd'
    ∷ b' ' ∷ b'%' ∷ b'd' ∷ 10 ∷ 0 ∷ []

-- The name of a weekday or a month.
abbrev pub IsName : List ℕ → Type 0
IsName s = printf_s (bare 0 (some 3)) s ≡ ok (3, take 3 s)

abbrev state : ℕ → List ℕ → List (ℕ × ℕ) → List Arg → Printed
state written output stored args = record {
  written = written;
  output = output;
  stored = stored;
  args = args;
}

module _ (w : ℕ) (o : List ℕ) (st : List (ℕ × ℕ)) (args : List Arg) (rest : List ℕ) where
  -- "%.3s"
  name_directive :
      (s : List ℕ)
      → IsName s
      → directive (b'.' ∷ b'3' ∷ b's' ∷ rest) (state w o st (str s ∷ args))
        ≡ ok (some rest, print args (3, take 3 s) (state w o st (str s ∷ args)))
  unfolding directive get_width get_precision dot_precision specifier convert get_behavior_modifier
      get_integer
  name_directive s named = rw (named, ◌>>=◌) refl

  -- "%3d"
  wide_directive :
      (n : ℕ) (r : ℕ × List ℕ)
      → printf_d (bare 3 none) nonnegative n ≡ ok r
      → directive (b'3' ∷ b'd' ∷ rest) (state w o st (int (pos n) ∷ args))
        ≡ ok (some rest, print args r (state w o st (int (pos n) ∷ args)))
  unfolding directive get_width get_precision specifier convert get_behavior_modifier get_integer
  wide_directive n r runs = rw (runs, ◌>>=◌) refl

  -- "%.2d"
  two_digit_directive :
      (n : ℕ) (r : ℕ × List ℕ)
      → printf_d (bare 0 (some 2)) nonnegative n ≡ ok r
      → directive (b'.' ∷ b'2' ∷ b'd' ∷ rest) (state w o st (int (pos n) ∷ args))
        ≡ ok (some rest, print args r (state w o st (int (pos n) ∷ args)))
  unfolding directive get_width get_precision dot_precision specifier convert get_behavior_modifier
      get_integer
  two_digit_directive n r runs = rw (runs, ◌>>=◌) refl

  -- "%d"
  directive-bare :
      (n : ℕ) (r : ℕ × List ℕ)
      → printf_d (bare 0 none) nonnegative n ≡ ok r
      → directive (b'd' ∷ rest) (state w o st (int (pos n) ∷ args))
        ≡ ok (some rest, print args r (state w o st (int (pos n) ∷ args)))
  unfolding directive get_width get_precision specifier convert get_behavior_modifier get_integer
  directive-bare n r runs = rw (runs, ◌>>=◌) refl

-- One pass of the loop at a directive.
directive_pass :
    (fuel : ℕ) (fmt rest : List ℕ) (p p' : Printed)
    → directive fmt p ≡ ok (some rest, p')
    → vprintf_loop (suc fuel) (b'%' ∷ fmt) p ≡ vprintf_loop fuel rest p'
unfolding vprintf_loop
directive_pass fuel fmt rest p p' runs = rw (vprintf_loop, runs, ◌>>=◌) refl

-- The loop comes to its end with `n` bytes more.
abbrev Ends : ℕ → List ℕ → Printed → ℕ → Type 0
Ends fuel fmt p n =
    (p' : Printed) × (vprintf_loop fuel fmt p ≡ ok p') × (p'.written ≡ p.written + n)

at_end-Ends : (fuel : ℕ) (fmt : List ℕ) (p : Printed) → Ends (suc fuel) (0 ∷ fmt) p 0
unfolding vprintf_loop
at_end-Ends fuel fmt p = (p, refl, omega arith)

char-Ends :
    (fuel c : ℕ) (fmt : List ℕ) (p : Printed) (n : ℕ)
    → c ≢ 0
    → c ≢ b'%'
    → Ends fuel fmt (print p.args (1, c ∷ []) p) n
    → Ends (suc fuel) (c ∷ fmt) p (1 + n)
unfolding vprintf_loop
char-Ends fuel c fmt p n real plain (p', runs, total) =
    (p', rw (vprintf_loop, ne→== c 0 real, ne→== c b'%' plain) runs, omega (arith, total))

directive-Ends :
    (fuel : ℕ) (fmt rest : List ℕ) (args : List Arg) (r : ℕ × List ℕ) (p : Printed) (n : ℕ)
    → directive fmt p ≡ ok (some rest, print args r p)
    → Ends fuel rest (print args r p) n
    → Ends (suc fuel) (b'%' ∷ fmt) p (r.0 + n)
directive-Ends fuel fmt rest args r p n step (p', runs, total) =
    (p', directive_pass fuel fmt rest p (print args r p) step ∙ runs, omega (arith, total))

date-Ends :
    (wday mon : List ℕ) (mday hour min sec year : ℕ) (r1 r2 r3 r4 r5 : ℕ × List ℕ)
    → IsName wday
    → IsName mon
    → printf_d (bare 3 none) nonnegative mday ≡ ok r1
    → printf_d (bare 0 (some 2)) nonnegative hour ≡ ok r2
    → printf_d (bare 0 (some 2)) nonnegative min ≡ ok r3
    → printf_d (bare 0 (some 2)) nonnegative sec ≡ ok r4
    → printf_d (bare 0 none) nonnegative year ≡ ok r5
    → Ends 33 date_format
        (start (
          str wday
          ∷ str mon
          ∷ int (pos mday)
          ∷ int (pos hour)
          ∷ int (pos min)
          ∷ int (pos sec)
          ∷ int (pos year)
          ∷ []))
        (3
          + (1
              + (3 + (r1.0 + (1 + (r2.0 + (1 + (r3.0 + (1 + (r4.0 + (1 + (r5.0 + (1 + 0)))))))))))))
date-Ends wday mon mday hour min sec year r1 r2 r3 r4 r5 w m d h mi s y =
    directive-Ends 32 _ _ _ _ _ _ (name_directive _ _ _ _ _ wday w) (
      char-Ends 31 b' ' _ _ _ (ground arith) (ground arith) (
        directive-Ends 30 _ _ _ _ _ _ (name_directive _ _ _ _ _ mon m) (
          directive-Ends 29 _ _ _ _ _ _ (wide_directive _ _ _ _ _ mday r1 d) (
            char-Ends 28 b' ' _ _ _ (ground arith) (ground arith) (
              directive-Ends 27 _ _ _ _ _ _ (two_digit_directive _ _ _ _ _ hour r2 h) (
                char-Ends 26 b':' _ _ _ (ground arith) (ground arith) (
                  directive-Ends 25 _ _ _ _ _ _ (two_digit_directive _ _ _ _ _ min r3 mi) (
                    char-Ends 24 b':' _ _ _ (ground arith) (ground arith) (
                      directive-Ends 23 _ _ _ _ _ _ (two_digit_directive _ _ _ _ _ sec r4 s) (
                        char-Ends 22 b' ' _ _ _ (ground arith) (ground arith) (
                          directive-Ends 21 _ _ _ _ _ _ (directive-bare _ _ _ _ _ year r5 y) (
                            char-Ends 20 10 _ _ _ (ground arith) (ground arith)
                              (at_end-Ends 19 [] _)))))))))))))

-- What the loop prints is what the call returns.
date_output :
    (args : List Arg) (p : Printed) (n : ℕ)
    → AreWords args
    → vprintf_loop 33 date_format (start args) ≡ ok p
    → (vprintf_raw date_format args ≡ ok p) × (p.written ≡ length p.output)
unfolding vprintf_raw Sound
date_output args p n words runs = (
  runs,
  subst (Sound (λ p. p.written ≡ length p.output)) runs (vprintf_raw-Counts date_format args words),
)

date_args :
    (wday mon : List ℕ) (a b c d e : ℕ)
    → a < 2 ^ 31
    → b < 2 ^ 31
    → c < 2 ^ 31
    → d < 2 ^ 31
    → e < 2 ^ 31
    → AreWords (
        str wday
        ∷ str mon
        ∷ int (pos a)
        ∷ int (pos b)
        ∷ int (pos c)
        ∷ int (pos d)
        ∷ int (pos e)
        ∷ [])
unfolding AreWords
date_args wday mon a b c d e ha hb hc hd he = (tt, (tt, (ha, (hb, (hc, (hd, (he, tt)))))))

-- The run on the format with numbers of the sizes that dates have: at most 31 bytes come out.
pub date_run :
    (wday mon : List ℕ) (mday hour min sec year : ℕ)
    → IsName wday
    → IsName mon
    → mday < 10 ^ 3
    → hour < 10 ^ 2
    → min < 10 ^ 2
    → sec < 10 ^ 2
    → year < 2 ^ 31
    → (p : Printed) × (vprintf_raw date_format (
          str wday
          ∷ str mon
          ∷ int (pos mday)
          ∷ int (pos hour)
          ∷ int (pos min)
          ∷ int (pos sec)
          ∷ int (pos year)
          ∷ [])
        ≡ ok p)
      × (length p.output ≤ 31)
date_run wday mon mday hour min sec year w m dn hn mn sn yn =
    let (r1, d, b1) =
      number 3 none 3 3 mday dn (omega arith) (omega arith) (omega arith) (omega arith) in
    let (r2, h, b2) = two_digits hour hn in
    let (r3, mi, b3) = two_digits min mn in
    let (r4, s, b4) = two_digits sec sn in
    let (r5, y, b5) =
      number 0 none 10 10 year (omega arith) (omega arith) (omega arith) (omega arith)
        (omega arith) in
    let (p, loops, total) =
      date-Ends wday mon mday hour min sec year r1 r2 r3 r4 r5 w m d h mi s y in
    let words : AreWords (
        str wday
        ∷ str mon
        ∷ int (pos mday)
        ∷ int (pos hour)
        ∷ int (pos min)
        ∷ int (pos sec)
        ∷ int (pos year)
        ∷ []) =
      date_args wday mon mday hour min sec year (omega arith) (omega arith) (omega arith)
        (omega arith) yn in
    let (runs, counted) = date_output _ p 0 words loops in
    (p, runs, omega (arith, counted, total, b1, b2, b3, b4, b5))
  where
    two_digits :
        (n : ℕ)
        → n < 10 ^ 2
        → (r : ℕ × List ℕ) × (printf_d (bare 0 (some 2)) nonnegative n ≡ ok r) × (r.0 ≤ 2)
    two_digits n small =
        number 0 (some 2) 2 2 n small (omega arith) (omega arith) (omega arith) (omega arith)

-- Three characters in four bytes.
abbrev pub IsShort : List ℕ → Type 0
IsShort (a ∷ b ∷ c ∷ d ∷ []) = (1 ≤ a) × (1 ≤ b) × (1 ≤ c) × (d ≡ 0)
IsShort (a ∷ b ∷ c ∷ d ∷ e ∷ s) = ⊥
IsShort (a ∷ b ∷ c ∷ []) = ⊥
IsShort (a ∷ b ∷ []) = ⊥
IsShort (a ∷ []) = ⊥
IsShort [] = ⊥

pub short-IsName : (s : List ℕ) → IsShort s → IsName s
unfolding printf_s field_s strlen strlen_loop
short-IsName (a ∷ b ∷ c ∷ d ∷ []) (ha, hb, hc, hd) =
    rw
      (
        strlen_loop,
        ne→== a 0 (ground arith),
        ne→== b 0 (ground arith),
        ne→== c 0 (ground arith),
        hd,
      )
      refl
short-IsName [] none_such = absurd none_such
short-IsName (a ∷ []) none_such = absurd none_such
short-IsName (a ∷ b ∷ []) none_such = absurd none_such
short-IsName (a ∷ b ∷ c ∷ []) none_such = absurd none_such
short-IsName (a ∷ b ∷ c ∷ d ∷ e ∷ s) none_such = absurd none_such
