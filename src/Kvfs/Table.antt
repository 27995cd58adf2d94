-- ===== src/Kvfs/Table.antt =====
-- src/fs/kvfs.c: the file system over its table, from _ctor to _dtor.
use oslab2_virtualfs.Base.{
  ℕ, ◌+◌, true, false, List, [], ◌∷◌, ◌==◌, Option, none, some, set, Outcome, ok, ◌>>=◌, assert, ℤ,
  pos, inc, is_zero,
}
use oslab2_virtualfs.Libc.Str.{strncpy}
use oslab2_virtualfs.Pmm
use oslab2_virtualfs.Pmm.{Pmm}
use oslab2_virtualfs.Vfs.Methods.{File, Filesystem}
use oslab2_virtualfs.Kvfs.{Kvp, new_file, free_entries}

-- The loop of `_ctor`.
pub clear_entries : List Kvp → List Kvp
clear_entries [] = []
clear_entries (kvp ∷ kvps) = record kvp { valid = false } ∷ clear_entries kvps

-- `_ctor`, over the name and the table that the memory holds; the name has 16 bytes.
pub init : List ℕ → List ℕ → List Kvp → Outcome (Filesystem × List Kvp)
unfolding clear_entries
init held name kvps = do
  copied ← strncpy 16 held name
  ok (record { name = set copied 15 0; refcnt = pos 0 }, clear_entries kvps)

-- `walk` over the entries from number `i` on, with what `fn` returns for the key, the number, the mode and the length;
-- R_OK | W_OK is 6.
pub walk : (List ℕ → ℤ → ℕ → ℕ → ℤ) → List Kvp → ℕ → ℤ
walk fn [] i = pos 0
walk fn (kvp ∷ kvps) i =
    let rest = walk fn kvps (i + 1) in
    let value = fn kvp.key (pos i) 6 kvp.length in
    elim kvp.valid [ false ↦ rest | true ↦ elim (is_zero value) [ true ↦ rest | false ↦ value ] ]

-- `open`: `New` takes `size` bytes for the file from the allocator, and `none` is its NULL. The file comes
-- with its address.
pub open_inode : ℕ → ℕ → ℤ → ℕ → Pmm → Outcome (Option (ℕ × File) × Pmm)
open_inode size fs inode flags s = do
  (address, s1) ← Pmm.alloc size s
  elim (address == 0) [
    | true ↦ ok (none, s1)
    | false ↦
        let file : File = new_file fs inode flags in
        ok (some (address, record file { refcnt = inc file.refcnt }), s1)
  ]

-- `_dtor`
pub delete : Filesystem → List Kvp → Pmm → Outcome (List Kvp × Pmm)
delete fs kvps s = do held ← assert (is_zero fs.refcnt); free_entries kvps s
