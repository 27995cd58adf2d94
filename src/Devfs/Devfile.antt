-- ===== src/Devfs/Devfile.antt =====
-- src/fs/devfile.c: the files that stand for devices.
use oslab2_virtualfs.Base.{
  ℕ, zero, suc, ◌+◌, true, false, List, [], ◌∷◌, none, some, ◌==◌, ltb, if◌then◌else◌, bit_and,
  get_elem?, Outcome, ok, undefined, ◌>>=◌, defined, ℤ, pos, negsuc, minus_one, is_zero,
}
use oslab2_virtualfs.Vfs.Methods.{File}
use oslab2_virtualfs.Devfs.Devices.{DevState, Device, Getch, Putch, getch, putch}

abbrev pub r_ok : ℕ
r_ok = 4

abbrev pub w_ok : ℕ
w_ok = 2

-- `_ctor`, at the file system `fs`.
unfoldable pub new_devfile : ℕ → ℤ → ℕ → File
new_devfile fs inode flags = record {
  fs = fs;
  inode = inode;
  refcnt = pos 0;
  offset = pos 0;
  flags = flags;
}

-- The loop of `read`, with the bytes from `buf` on and `cnt`: what it returns, and those bytes afterwards.
unfoldable pub read_loop : ℕ → Getch → List ℕ → ℕ → DevState → Outcome ((ℤ × List ℕ) × DevState)
unfolding getch
read_loop zero g buf cnt d = ok ((pos cnt, buf), d)
read_loop (suc size) g buf cnt d = getch g d >>= λ (tmp, d'). elim tmp [
  | negsuc zero ↦ ok ((pos 0, buf), d')
  | negsuc (suc zero) ↦ ok ((pos cnt, buf), d')
  | negsuc (suc (suc n)) ↦ ok ((minus_one, buf), d')
  | pos ch ↦ elim (ltb 0xff ch) [
    | true ↦ ok ((minus_one, buf), d')
    | false ↦ elim buf [
      | [] ↦ undefined
      | b ∷ rest ↦ do
        ((value, filled), d'') ← read_loop size g rest (cnt + 1) d'
        ok ((value, ch ∷ filled), d'')
    ]
  ]
]

-- A device of the table; `inode` is not negative in an open file.
abbrev pub device_at : List Device → ℤ → Outcome Device
device_at devices (pos i) = defined (get_elem? devices i)
device_at devices (negsuc i) = undefined

-- `read`
unfoldable pub read : List Device → File → List ℕ → ℕ → DevState → Outcome ((ℤ × List ℕ) × DevState)
unfolding read_loop
read devices file buf size d =
    if bit_and file.flags r_ok == 0
    then ok ((minus_one, buf), d)
    else (device_at devices file.inode >>= λ dev. elim dev.getch [
      | none ↦ ok ((minus_one, buf), d)
      | some g ↦ read_loop size g buf 0 d
    ])

-- The loop of `write`.
pub write_loop : ℕ → Putch → List ℕ → ℕ → DevState → Outcome (ℤ × DevState)
unfolding putch
write_loop zero p buf cnt d = ok (pos cnt, d)
write_loop (suc size) p [] cnt d = undefined
write_loop (suc size) p (b ∷ buf) cnt d =
    let (value, d') = putch p b d in
    elim (is_zero value) [ false ↦ ok (pos cnt, d') | true ↦ write_loop size p buf (cnt + 1) d' ]

-- `write`
pub write : List Device → File → List ℕ → ℕ → DevState → Outcome (ℤ × DevState)
unfolding write_loop
write devices file buf size d =
    if bit_and file.flags w_ok == 0
    then ok (minus_one, d)
    else (device_at devices file.inode >>= λ dev. elim dev.putch [
      | none ↦ ok (minus_one, d)
      | some p ↦ write_loop size p buf 0 d
    ])
