-- ===== src/Libc/Printf/Format/Numbers.antt =====
-- libc/src/stdio/_vprintf_raw.c: how long the numbers are that `%d` prints without flags.
use oslab2_virtualfs.Base.{
  ℕ, ◌^◌, ◌≤◌, ◌<◌, ◌≡◌, refl, false, not, ◌&&◌, List, [], ◌∷◌, Option, ◌==◌, if◌then◌else◌, length,
  ok, ◌>>=◌, arith,
}
use oslab2_virtualfs.Libc.Printf.{
  ConvSpec, printf_d, sign_char, emit, field_d, nonnegative, at_least_one,
}
use oslab2_virtualfs.Libc.Printf.Fields.{digits_loop_ends}
use oslab2_virtualfs.Libc.Printf.Format.Sprintf.{digits_loop-length}

-- A conversion without flags.
abbrev pub bare : ℕ → Option ℕ → ConvSpec
bare width precision = record { behavior = 0; width = width; precision = precision }

shown_bound :
    (precision m : ℕ) (filled : List ℕ)
    → precision ≤ m
    → length filled ≤ m
    → length (if length filled == 0 && not (precision == 0) then b'0' ∷ [] else filled) ≤ m
shown_bound precision m filled p f = ground (arith, p, f)

bare_count :
    (width : ℕ) (precision : Option ℕ) (m : ℕ) (filled : List ℕ)
    → width ≤ m
    → at_least_one precision ≤ m
    → length filled ≤ m
    → (field_d (bare width precision) nonnegative filled).0 ≤ m
unfolding field_d sign_char emit
bare_count width precision m filled w p f =
    omega (arith, w, p, shown_bound (at_least_one precision) m filled p f)

-- A number of at most `k` digits in a field of at most `m` bytes.
pub number :
    (width : ℕ) (precision : Option ℕ) (k m n : ℕ)
    → n < 10 ^ k
    → n < 2 ^ 32
    → width ≤ m
    → at_least_one precision ≤ m
    → k ≤ m
    → (r : ℕ × List ℕ) × (printf_d (bare width precision) nonnegative n ≡ ok r) × (r.0 ≤ m)
unfolding printf_d
number width precision k m n digits small w p km =
    let (filled, runs) = digits_loop_ends 32 10 false n [] (omega arith) small in
    (
      field_d (bare width precision) nonnegative filled,
      rw (runs, ◌>>=◌) refl,
      bare_count width precision m filled w p
          (omega (arith, km, digits_loop-length k 33 n [] filled digits runs)),
    )
