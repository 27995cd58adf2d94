-- ===== src/Libc/Printf/Tests.antt =====
-- libc/src/stdio on concrete formats.
use oslab2_virtualfs.Base.{
  ℕ, ◌≡◌, refl, arith, ok, List, [], ◌∷◌, ◌++◌, length, replicate, inr, none, negsuc,
}
use oslab2_virtualfs.Base.Sound.{Sound}
use oslab2_virtualfs.Libc.Atoi.{atoi}
use oslab2_virtualfs.Libc.Printf.{ConvSpec, printf_d, digits_loop, minus}
use oslab2_virtualfs.Libc.Printf.Fields.{Fills, printf_d-Fills}
use oslab2_virtualfs.Libc.Printf.Decimal.{printf_d-atoi}
use oslab2_virtualfs.Libc.Printf.Format.{Arg, int, str, vprintf_raw, sprintf}
use oslab2_virtualfs.Libc.Printf.Format.Args.{AreWords}
use oslab2_virtualfs.Libc.Printf.Format.Counts.{vprintf_raw-Counts}
use oslab2_virtualfs.Libc.Printf.Format.Sprintf.{sprintf-atoi}

-- "%+06d"
abbrev wide : ConvSpec
wide = record { behavior = 0x12; width = 6; precision = none }

wide_run : printf_d wide minus 42 ≡ ok (6, b'-' ∷ b'0' ∷ b'0' ∷ b'0' ∷ b'4' ∷ b'2' ∷ [])
unfolding printf_d digits_loop
wide_run = refl

-- "%5d:%s\n" with -42 and "dev".
abbrev line : List ℕ
line = b'%' ∷ b'5' ∷ b'd' ∷ b':' ∷ b'%' ∷ b's' ∷ 10 ∷ 0 ∷ []

abbrev line_args : List Arg
line_args = int (negsuc 41) ∷ str (b'd' ∷ b'e' ∷ b'v' ∷ 0 ∷ []) ∷ []

line_args-AreWords : AreWords line_args
unfolding AreWords
line_args-AreWords = (omega arith, (tt, tt))

vprintf_raw-Counts_example : Sound (λ p. p.written ≡ length p.output) (vprintf_raw line line_args)
vprintf_raw-Counts_example = vprintf_raw-Counts line line_args line_args-AreWords

printf_d-Fills_example : (r : ℕ × List ℕ) × (printf_d wide minus 42 ≡ ok r) × Fills 6 r
printf_d-Fills_example = printf_d-Fills wide minus 42 (omega arith) (inr refl)

printf_d-atoi_example :
    (r : ℕ × List ℕ) × (printf_d wide minus 42 ≡ ok r)
    × (atoi (r.1 ++ (0 ∷ b'7' ∷ [])) ≡ ok (negsuc 41))
printf_d-atoi_example = printf_d-atoi wide (negsuc 41) (b'7' ∷ []) (omega arith)

sprintf-atoi_example :
    (n : ℕ) × (filled : List ℕ) × (sprintf
        (replicate 16 b'?')
        (b'%' ∷ b'd' ∷ 0 ∷ [])
        (int (negsuc 41) ∷ [])
      ≡ ok (n, filled))
    × (atoi filled ≡ ok (negsuc 41))
sprintf-atoi_example = sprintf-atoi (negsuc 41) (replicate 16 b'?') (omega arith) (omega arith)
