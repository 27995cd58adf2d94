-- ===== src/Procfs/Files.antt =====
-- src/fs/otrofile.c: the read-only files, whose bytes are written when they are opened.
use oslab2_virtualfs.Base.{
  ℕ, zero, suc, ◌+◌, true, false, List, ◌==◌, ltb, bit_and, drop, Outcome, ok, ◌>>=◌, ℤ, pos,
  negsuc, minus_one, add32, sub32, if◌then◌else◌,
}
use oslab2_virtualfs.Libc.Str.{memcpy}
use oslab2_virtualfs.Vfs.Methods.{File}
use oslab2_virtualfs.Kvfs.{unsigned, add_ℤ, o_rdonly}
pub mod Reading

-- `struct otrofile`; `length` is at least 0, and `bytes` is what its `data` points to.
pub record Otrofile : Type 0 where
  pub file : File
  pub length : ℕ
  pub bytes : List ℕ

-- `_ctor` at the file system `fs`, with the fields that `open` of procfs.c sets afterwards.
pub new_otrofile : ℕ → ℤ → ℕ → ℕ → List ℕ → Otrofile
new_otrofile fs inode flags size bytes = record {
  file = record { fs = fs; inode = inode; refcnt = pos 1; offset = pos 0; flags = flags };
  length = size;
  bytes = bytes;
}

-- `base.offset = offset;`
abbrev pub move_to : ℕ → Otrofile → Otrofile
move_to offset f = record f { file = record f.file { offset = pos offset } }

-- `read`: the value, the buffer and the file.
pub read : Otrofile → List ℕ → ℕ → Outcome (ℤ × List ℕ × Otrofile)
read f buf size = elim (bit_and f.file.flags o_rdonly == 0) [
  | true ↦ ok (minus_one, buf, f)
  | false ↦
      let offset = unsigned f.file.offset in
      elim (ltb f.length (add32 offset size)) [
        | true ↦ do
          filled ← memcpy (sub32 f.length offset) buf (drop offset f.bytes)
          ok (pos 0, filled, move_to f.length f)
        | false ↦ do
          filled ← memcpy size buf (drop offset f.bytes)
          ok (pos size, filled, move_to (offset + size) f)
      ]
]

-- `write`
pub write : Otrofile → List ℕ → ℕ → ℤ
write f buf size = minus_one

-- `lseek` from the test of the range on.
pub seek_to : ℤ → Otrofile → ℤ × Otrofile
seek_to (negsuc n) f = (minus_one, f)
seek_to (pos offset) f =
    if ltb f.length offset then (minus_one, f) else (pos offset, move_to offset f)

pub lseek : Otrofile → ℤ → ℕ → ℤ × Otrofile
unfolding seek_to
lseek f offset zero = seek_to offset f
lseek f offset (suc zero) = seek_to (add_ℤ offset (unsigned f.file.offset)) f
lseek f offset (suc (suc zero)) = seek_to (add_ℤ offset f.length) f
lseek f offset (suc (suc (suc n))) = (minus_one, f)
