-- ===== src/Procfs/Tests.antt =====
-- src/fs/procfs.c and src/fs/otrofile.c on concrete names and bytes.
use oslab2_virtualfs.Base.{
  ℕ, false, ◌+◌, ◌-◌, ◌≡◌, ◌≤◌, ◌<◌, ◌⊎◌, refl, arith, List, [], ◌∷◌, ◌++◌, replicate, take, drop,
  ok, pos, negsuc,
}
use oslab2_virtualfs.Libc.Ctype.{isspace, isdigit}
use oslab2_virtualfs.Libc.Str.Laws.{stored}
use oslab2_virtualfs.Libc.Atoi.{char_value}
use oslab2_virtualfs.Kvfs.{add_ℤ}
use oslab2_virtualfs.Procfs.{lookup, print_tid}
use oslab2_virtualfs.Procfs.Names.{lookup-print_tid, lookup_stranger}
use oslab2_virtualfs.Procfs.Files.{Otrofile, read, lseek, move_to}
use oslab2_virtualfs.Procfs.Files.Reading.{IsOpen, read_lem, lseek_lem, Sought, origin}

-- Two threads, in the slots 0 and 17.
abbrev slots : List ℕ
slots = 4096 ∷ replicate 16 0 ++ (8192 ∷ replicate 14 0)

lookup-print_tid_example :
    (name : List ℕ) × (print_tid (replicate 32 b'?') 17 ≡ ok name)
    × (lookup slots name ≡ ok (pos 17))
lookup-print_tid_example =
    lookup-print_tid slots (replicate 32 b'?') 17 8192 refl (ground arith) (omega arith)
      (omega arith)

abbrev stranger : List ℕ
stranger = b'f' ∷ b'o' ∷ b'o' ∷ []

f_letter : (isspace (char_value b'f') ≡ false) × (isdigit (char_value b'f') ≡ false)
unfolding isspace isdigit
f_letter = (refl, refl)

lookup_stranger_example : lookup slots (stored stranger []) ≡ ok (pos 0)
lookup_stranger_example =
    lookup_stranger slots b'f' (b'o' ∷ b'o' ∷ []) [] 4096 (ground arith) (λ e. cc) (λ e. cc)
      f_letter.0 f_letter.1 (ground arith) (ground arith) refl (ground arith)

-- A file of seven bytes, of which three are read.
abbrev meminfo_file : Otrofile
meminfo_file = record {
  file = record { fs = 4096; inode = pos 129; refcnt = pos 1; offset = pos 3; flags = 4 };
  length = 7;
  bytes = b'M' ∷ b'e' ∷ b'm' ∷ b'o' ∷ b'r' ∷ b'y' ∷ 10 ∷ 0 ∷ [];
}

meminfo_file-IsOpen : IsOpen meminfo_file 3
meminfo_file-IsOpen = record {
  at = refl;
  within = omega arith;
  whole = omega arith;
  int = omega arith;
}

read_lem_example :
    ((3 + 2 ≤ 7)
      × (read meminfo_file (replicate 6 b'?') 2
          ≡ ok (
            pos 2,
            take 2 (drop 3 meminfo_file.bytes) ++ drop 2 (replicate 6 b'?'),
            move_to (3 + 2) meminfo_file,
          ))
      × IsOpen (move_to (3 + 2) meminfo_file) (3 + 2))
    ⊎ ((7 < 3 + 2)
        × (read meminfo_file (replicate 6 b'?') 2
            ≡ ok (
              pos 0,
              take (7 - 3) (drop 3 meminfo_file.bytes) ++ drop (7 - 3) (replicate 6 b'?'),
              move_to 7 meminfo_file,
            ))
        × IsOpen (move_to 7 meminfo_file) 7)
read_lem_example =
    read_lem meminfo_file 3 (replicate 6 b'?') 2 meminfo_file-IsOpen (ground arith) (omega arith)
      (omega arith)

lseek_lem_example :
    Sought meminfo_file (add_ℤ (negsuc 1) (origin 2 3 7)) (lseek meminfo_file (negsuc 1) 2)
lseek_lem_example = lseek_lem meminfo_file 3 (negsuc 1) 2 meminfo_file-IsOpen (omega arith)
