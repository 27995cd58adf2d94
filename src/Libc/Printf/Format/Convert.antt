-- ===== src/Libc/Printf/Format/Convert.antt =====
-- The `switch` on the conversion specifier in libc/src/stdio/_vprintf_raw.c: every case keeps count.
use oslab2_virtualfs.Base.{
  ℕ, ◌+◌, ◌^◌, ◌≤◌, ◌<◌, ◌≡◌, refl, Bool, true, false, List, [], ◌∷◌, ◌++◌, ◌==◌, length,
  length-append, Outcome, ok, ◌>>=◌, arith,
}
use oslab2_virtualfs.Libc.Printf.{
  ConvSpec, printf_c, printf_s, printf_d, printf_o, printf_x, Sign, unsigned, digits_loop,
  digits_fuel, field_s, field_d, field_o, field_x,
}
use oslab2_virtualfs.Libc.Printf.Fields.{
  digits_loop_ends, printf_c-Fills, field_s-Fills, field_d-Adds, field_o-Adds, field_x-Adds,
}
use oslab2_virtualfs.Libc.Str.{strlen, strlen_loop}
use oslab2_virtualfs.Libc.Printf.Format.{
  Arg, Printed, take_int, take_uint, take_str, take_address, absolute, sign_of, char_of, print,
  convert,
}
use oslab2_virtualfs.Base.Sound.{Sound, Sound-bind, Sound-weaken, Sound-if, Sound-elim}
use oslab2_virtualfs.Libc.Printf.Format.Args.{
  AreWords, IntIsWord, absolute_bound, take_int-Sound, take_uint-Sound, take_str-Sound,
  take_address-Sound,
}

-- The bytes of a conversion are as many as it returns.
abbrev pub Adds : ℕ × List ℕ → Type 0
Adds (count, bytes) = length bytes ≡ count

pub digits_loop-Sound :
    (base value : ℕ) (capital : Bool) (finish : List ℕ → ℕ × List ℕ)
    → 2 ≤ base
    → value < 2 ^ 32
    → ((filled : List ℕ) → Adds (finish filled))
    → Sound Adds (digits_loop digits_fuel base capital value [] >>= λ filled. ok (finish filled))
unfolding Sound
digits_loop-Sound base value capital finish two small adds =
    let (filled, runs) = digits_loop_ends 32 base capital value [] two small in
    rw (runs, ◌>>=◌) (adds filled)

pub printf_d-Sound :
    (spec : ConvSpec) (sign : Sign) (absv : ℕ)
    → absv < 2 ^ 32
    → Sound Adds (printf_d spec sign absv)
unfolding printf_d
printf_d-Sound spec sign absv small =
    digits_loop-Sound 10 absv false (field_d spec sign) (omega arith) small (field_d-Adds spec sign)

pub printf_o-Sound :
    (spec : ConvSpec) (value : ℕ) → value < 2 ^ 32 → Sound Adds (printf_o spec value)
unfolding printf_o
printf_o-Sound spec value small =
    digits_loop-Sound 8 value false (field_o spec) (omega arith) small (field_o-Adds spec)

pub printf_x-Sound :
    (spec : ConvSpec) (value : ℕ) (capital : Bool)
    → value < 2 ^ 32
    → Sound Adds (printf_x spec value capital)
unfolding printf_x
printf_x-Sound spec value capital small =
    digits_loop-Sound 16 value capital (field_x spec capital) (omega arith) small
      (field_x-Adds spec capital)

pub strlen_loop-Sound : (s : List ℕ) (n : ℕ) → Sound (λ len. len ≤ n + length s) (strlen_loop s n)
unfolding strlen_loop Sound
strlen_loop-Sound [] n = tt
strlen_loop-Sound (c ∷ s) n =
    Sound-elim (λ len. len ≤ n + length (c ∷ s)) (c == 0) (ok n) (strlen_loop s (n + 1))
      (omega arith)
      (Sound-weaken (strlen_loop s (n + 1)) (λ len. omega arith) (strlen_loop-Sound s (n + 1)))

pub printf_s-Sound : (spec : ConvSpec) (s : List ℕ) → Sound Adds (printf_s spec s)
unfolding printf_s strlen Sound
printf_s-Sound spec s =
    Sound-bind (λ len. len ≤ 0 + length s) Adds (strlen_loop s 0) (λ full. ok (field_s spec s full))
      (strlen_loop-Sound s 0) (λ full inside. (field_s-Fills spec s full (omega (arith, inside))).0)

-- The state of the loop: `written` counts the output, and the arguments left are words.
abbrev pub Counts : Printed → Type 0
Counts p = (p.written ≡ length p.output) × AreWords p.args

pub print-Counts :
    (args : List Arg) (r : ℕ × List ℕ) (p : Printed)
    → Counts p
    → AreWords args
    → Adds r
    → Counts (print args r p)
print-Counts args r p counts words adds =
    (omega (arith, length-append p.output r.1, counts.0, adds), words)

-- A conversion with its argument: what `take` gives, what `run` does with it.
pub taken-Counts {ℓ} :
    {A : Type ℓ} (P : A → Type 0) (p : Printed) (taken : Outcome (A × List Arg))
    (run : A → Outcome (ℕ × List ℕ))
    → Counts p
    → Sound (λ (a, rest). P a × AreWords rest) taken
    → ((a : A) → P a → Sound Adds (run a))
    → Sound Counts (taken >>= λ (a, rest). run a >>= λ r. ok (print rest r p))
unfolding Sound
taken-Counts P p taken run counts s adds =
    Sound-bind _ Counts taken (λ (a, rest). run a >>= λ r. ok (print rest r p)) s
      (λ (a, rest) (h, words).
        Sound-bind Adds Counts (run a) (λ r. ok (print rest r p)) (adds a h)
          (λ r add. print-Counts rest r p counts words add))

pub printf_c-Sound : (spec : ConvSpec) (ch : ℕ) → Sound Adds (ok (printf_c spec ch))
unfolding Sound
printf_c-Sound spec ch = (printf_c-Fills spec ch).0

pub other-Counts : (p : Printed) → Counts p → Sound Counts (ok p)
unfolding Sound
other-Counts p counts = counts

pub percent-Counts : (p : Printed) → Counts p → Sound Counts (ok (print p.args (1, b'%' ∷ []) p))
unfolding Sound
percent-Counts p counts = print-Counts p.args (1, b'%' ∷ []) p counts counts.1 refl

pub stored-Counts :
    (p : Printed)
    → Counts p
    → Sound Counts (
        take_address p.args >>= λ (a, args).
        ok (record p { stored = p.stored ++ ((a, p.written) ∷ []); args = args }))
unfolding Sound
stored-Counts p counts =
    Sound-bind (λ (a, rest). AreWords rest) Counts (take_address p.args) _
      (take_address-Sound p.args counts.1) (λ (a, rest) words. (counts.0, words))

-- Every case of the `switch` keeps count.
pub convert-Counts :
    (c : ℕ) (spec : ConvSpec) (p : Printed) → Counts p → Sound Counts (convert c spec p)
unfolding convert
convert-Counts c spec p counts =
    Sound-if Counts _ _ _
      (taken-Counts IntIsWord p (take_int p.args) (λ z. ok (printf_c spec (char_of z))) counts
        (take_int-Sound p.args counts.1) (λ z w. printf_c-Sound spec (char_of z)))
      (Sound-if Counts _ _ _
        (taken-Counts (λ s. Unit {0}) p (take_str p.args) (printf_s spec) counts
          (take_str-Sound p.args counts.1) (λ s h. printf_s-Sound spec s))
        (Sound-if Counts _ _ _
          (taken-Counts IntIsWord p (take_int p.args) (λ z. printf_d spec (sign_of z) (absolute z))
            counts (take_int-Sound p.args counts.1)
            (λ z w. printf_d-Sound spec (sign_of z) (absolute z) (absolute_bound z w)))
          (Sound-if Counts _ _ _ (word (printf_d spec unsigned) (printf_d-Sound spec unsigned)) (
            Sound-if Counts _ _ _ (word (printf_o spec) (printf_o-Sound spec)) (
              Sound-if Counts _ _ _
                (word (λ n. printf_x spec n false) (λ n. printf_x-Sound spec n false))
                (Sound-if Counts _ _ _
                  (word (λ n. printf_x spec n true) (λ n. printf_x-Sound spec n true))
                  (Sound-if Counts _ _ _ (percent-Counts p counts)
                    (Sound-if Counts _ _ _ (stored-Counts p counts) (other-Counts p counts)))))))))
  where
    word :
        (run : ℕ → Outcome (ℕ × List ℕ))
        → ((n : ℕ) → n < 2 ^ 32 → Sound Adds (run n))
        → Sound Counts (take_uint p.args >>= λ (n, args). run n >>= λ r. ok (print args r p))
    word run adds =
        taken-Counts (λ n. n < 2 ^ 32) p (take_uint p.args) run counts
          (take_uint-Sound p.args counts.1) adds
