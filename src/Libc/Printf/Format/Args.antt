-- ===== src/Libc/Printf/Format/Args.antt =====
-- The variadic arguments of libc/src/stdio/_vprintf_raw.c: what the code reads is within its type.
use oslab2_virtualfs.Base.{
  ℕ, ◌^◌, ◌<◌, List, [], ◌∷◌, ltb, arith, Bool-cases, inl, inr, ℤ, pos, negsuc,
}
use oslab2_virtualfs.Libc.Printf.Format.{
  Arg, int, uint, str, address, take_int, take_uint, take_str, take_address, absolute,
}
use oslab2_virtualfs.Base.Sound.{Sound}

-- An argument of 32 bits.
abbrev pub ArgIsWord : Arg → Type 0
ArgIsWord (int (pos n)) = n < 2 ^ 31
ArgIsWord (int (negsuc n)) = n < 2 ^ 31
ArgIsWord (uint n) = n < 2 ^ 32
ArgIsWord (str s) = Unit {0}
ArgIsWord (address p) = Unit {0}

unfoldable pub AreWords : List Arg → Type 0
AreWords [] = Unit {0}
AreWords (a ∷ args) = ArgIsWord a × AreWords args

abbrev pub IntIsWord : ℤ → Type 0
IntIsWord (pos n) = n < 2 ^ 31
IntIsWord (negsuc n) = n < 2 ^ 31

pub absolute_bound : (z : ℤ) → IntIsWord z → absolute z < 2 ^ 32
absolute_bound (pos n) w = omega arith
absolute_bound (negsuc n) w = omega arith

pub take_int-Sound :
    (args : List Arg)
    → AreWords args
    → Sound (λ (z, rest). IntIsWord z × AreWords rest) (take_int args)
unfolding Sound AreWords
take_int-Sound [] w = tt
take_int-Sound (int (pos n) ∷ args) w = w
take_int-Sound (int (negsuc n) ∷ args) w = w
take_int-Sound (uint n ∷ args) w = elim (Bool-cases (ltb n (2 ^ 31))) [
  | inl small ↦ rw small (ground (arith, small), w.1)
  | inr large ↦ rw large tt
]
take_int-Sound (str s ∷ args) w = tt
take_int-Sound (address p ∷ args) w = tt

pub fits : (n : ℕ) → n < 2 ^ 31 → n < 2 ^ 32
fits n small = omega arith

pub take_uint-Sound :
    (args : List Arg)
    → AreWords args
    → Sound (λ (n, rest). (n < 2 ^ 32) × AreWords rest) (take_uint args)
unfolding Sound AreWords
take_uint-Sound [] w = tt
take_uint-Sound (int (pos n) ∷ args) w = (fits n w.0, w.1)
take_uint-Sound (int (negsuc n) ∷ args) w = tt
take_uint-Sound (uint n ∷ args) w = w
take_uint-Sound (str s ∷ args) w = tt
take_uint-Sound (address p ∷ args) w = tt

pub take_str-Sound :
    (args : List Arg)
    → AreWords args
    → Sound (λ (s, rest). Unit {0} × AreWords rest) (take_str args)
unfolding Sound AreWords
take_str-Sound [] w = tt
take_str-Sound (int z ∷ args) w = tt
take_str-Sound (uint n ∷ args) w = tt
take_str-Sound (str s ∷ args) w = (tt, w.1)
take_str-Sound (address p ∷ args) w = tt

pub take_address-Sound :
    (args : List Arg) → AreWords args → Sound (λ (p, rest). AreWords rest) (take_address args)
unfolding Sound AreWords
take_address-Sound [] w = tt
take_address-Sound (int z ∷ args) w = tt
take_address-Sound (uint n ∷ args) w = tt
take_address-Sound (str s ∷ args) w = tt
take_address-Sound (address p ∷ args) w = w.1
