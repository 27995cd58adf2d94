-- ===== src/Kvfs.antt =====
-- src/fs/kvfs.c and src/fs/kvfile.c: a file system whose files are the values of a table of keys. A value is a
-- block of bytes in memory, which grows as it is written.
use oslab2_virtualfs.Base.{
  ℕ, zero, suc, ◌+◌, ◌-◌, ◌%◌, ◌^◌, Bool, true, false, List, [], ◌∷◌, ◌==◌, ltb, leb, if◌then◌else◌,
  bit_and, get_elem?, set, Outcome, ok, undefined, ◌>>=◌, defined, ℤ, pos, negsuc, minus_one,
  is_zero, is_neg, word_limit, add32, sub32, mul32,
}
use oslab2_virtualfs.Libc.Str.{strlen, strcmp, strcpy, memcpy}
use oslab2_virtualfs.Kmt.{update}
use oslab2_virtualfs.Pmm
use oslab2_virtualfs.Pmm.{Pmm}
use oslab2_virtualfs.Vfs.Methods.{File}
pub mod Create
pub mod Created
pub mod Laws
pub mod Lookup
pub mod Memory
pub mod Methods
pub mod Refines
pub mod Table
mod Tests

-- `struct kvfs_kvp`; `length` and `capacity` are at least 0, and `address` is its field `data`.
pub record Kvp : Type 0 where
  pub valid : Bool
  pub key : List ℕ
  pub length : ℕ
  pub capacity : ℕ
  pub address : ℕ

-- The bytes of memory by address, and the allocator.
pub record Store : Type 0 where
  pub bytes : ℕ → ℕ
  pub pmm : Pmm

-- The bytes at an address, and their replacement.
pub load : ℕ → ℕ → (ℕ → ℕ) → List ℕ
load a zero m = []
load a (suc n) m = m a ∷ load (a + 1) n m

pub store : ℕ → List ℕ → (ℕ → ℕ) → ℕ → ℕ
store a [] m = m
store a (b ∷ bs) m = store (a + 1) bs (update m a b)

-- `memcpy` and `memset` within memory, byte by byte.
pub copy : ℕ → ℕ → ℕ → (ℕ → ℕ) → ℕ → ℕ
copy zero dest src m = m
copy (suc n) dest src m = copy n (dest + 1) (src + 1) (update m dest (m src))

pub zero_fill : ℕ → ℕ → (ℕ → ℕ) → ℕ → ℕ
zero_fill zero dest m = m
zero_fill (suc n) dest m = zero_fill n (dest + 1) (update m dest 0)

-- The block that `expand` moves a value to when the capacity does not suffice; `none` is NULL.
pub grow : Kvp → ℕ → Store → Outcome (Bool × Kvp × Store)
grow kvp newsize s = do
  let newcap = mul32 newsize 2
  (newdata, pmm) ← Pmm.alloc newcap s.pmm
  elim (newdata == 0) [
    | true ↦ ok (false, kvp, record s { pmm = pmm })
    | false ↦ do
      freed ← Pmm.free kvp.address pmm
      ok (
        true,
        record kvp { address = newdata; capacity = newcap },
        record { bytes = copy kvp.length newdata kvp.address s.bytes; pmm = freed },
      )
  ]

-- The end of `expand`.
pub extend : Kvp → ℕ → Store → Kvp × Store
extend kvp newsize s = (
  record kvp { length = newsize },
  record s { bytes = zero_fill (newsize - kvp.length) (kvp.address + kvp.length) s.bytes },
)

-- `expand`, for a value of the table and a new size.
pub expand : Kvp → ℕ → Store → Outcome (ℤ × Kvp × Store)
expand kvp newsize s = elim (leb newsize kvp.length) [
  | true ↦ ok (pos 1, kvp, s)
  | false ↦ elim (ltb kvp.capacity newsize) [
    | true ↦ do
      (grown, kvp1, s1) ← grow kvp newsize s
      elim grown [
        | true ↦ let (kvp2, s2) = extend kvp1 newsize s1 in ok (pos 0, kvp2, s2)
        | false ↦ ok (minus_one, kvp1, s1)
      ]
    | false ↦ let (kvp2, s2) = extend kvp newsize s in ok (pos 0, kvp2, s2)
  ]
]

-- An int as an operand of unsigned arithmetic.
abbrev pub unsigned : ℤ → ℕ
unsigned (pos n) = n % word_limit
unsigned (negsuc n) = word_limit - 1 - n

abbrev pub o_rdonly : ℕ
o_rdonly = 4

abbrev pub o_wronly : ℕ
o_wronly = 2

-- `_ctor` of kvfile.c.
pub new_file : ℕ → ℤ → ℕ → File
new_file fs inode flags = record {
  fs = fs;
  inode = inode;
  refcnt = pos 0;
  offset = pos 0;
  flags = flags;
}

-- `read` of kvfile.c over the file's entry: the value, the buffer, and the file.
pub read : File → Kvp → List ℕ → ℕ → Store → Outcome (ℤ × List ℕ × File)
read file kvp buf size s = elim (bit_and file.flags o_rdonly == 0) [
  | true ↦ ok (minus_one, buf, file)
  | false ↦
      let offset = unsigned file.offset in
      elim (ltb kvp.length (add32 offset size)) [
        | true ↦ do
          let rest = sub32 kvp.length offset
          filled ← memcpy rest buf (load (kvp.address + offset) rest s.bytes)
          ok (pos 0, filled, record file { offset = pos kvp.length })
        | false ↦ do
          filled ← memcpy size buf (load (kvp.address + offset) size s.bytes)
          ok (pos size, filled, record file { offset = pos (offset + size) })
      ]
]

-- `write` of kvfile.c from the test of what `expand` returned on.
pub write_grown : File → List ℕ → ℕ → ℤ × Kvp × Store → Outcome (ℤ × File × Kvp × Store)
write_grown file buf size (ret, kvp, s) = elim (is_neg ret) [
  | true ↦ ok (minus_one, file, kvp, s)
  | false ↦ do
    let offset = unsigned file.offset
    written ← memcpy size (load (kvp.address + offset) size s.bytes) buf
    ok (
      pos size,
      record file { offset = pos (offset + size) },
      kvp,
      record s { bytes = store (kvp.address + offset) written s.bytes },
    )
]

-- `write` of kvfile.c.
pub write : File → Kvp → List ℕ → ℕ → Store → Outcome (ℤ × File × Kvp × Store)
write file kvp buf size s = elim (bit_and file.flags o_wronly == 0) [
  | true ↦ ok (minus_one, file, kvp, s)
  | false ↦ expand kvp (add32 (unsigned file.offset) size) s >>= write_grown file buf size
]

-- The `switch` of `lseek` of kvfile.c; `none` is its default.
abbrev pub add_ℤ : ℤ → ℕ → ℤ
add_ℤ (pos n) k = pos (n + k)
add_ℤ (negsuc n) k = if leb (n + 1) k then pos (k - (n + 1)) else negsuc (n - k)

-- `lseek` of kvfile.c from the test of the sign on.
pub seek_to : File → Kvp → ℤ → Store → Outcome (ℤ × File × Kvp × Store)
seek_to file kvp (negsuc n) s = ok (minus_one, file, kvp, s)
seek_to file kvp (pos offset) s = do
  (ret, kvp1, s1) ← expand kvp offset s
  elim (is_neg ret) [
    | true ↦ ok (minus_one, file, kvp1, s1)
    | false ↦ ok (pos offset, record file { offset = pos offset }, kvp1, s1)
  ]

pub lseek : File → Kvp → ℤ → ℕ → Store → Outcome (ℤ × File × Kvp × Store)
lseek file kvp offset zero s = seek_to file kvp offset s
lseek file kvp offset (suc zero) s = seek_to file kvp (add_ℤ offset (unsigned file.offset)) s
lseek file kvp offset (suc (suc zero)) s = seek_to file kvp (add_ℤ offset kvp.length) s
lseek file kvp offset (suc (suc (suc n))) s = ok (minus_one, file, kvp, s)

-- `lookup` of kvfs.c over the entries from number `i` on.
pub lookup : List Kvp → List ℕ → ℕ → Outcome ℤ
lookup [] path i = ok minus_one
lookup (kvp ∷ kvps) path i = elim kvp.valid [
  | false ↦ lookup kvps path (i + 1)
  | true ↦ do
    d ← strcmp path kvp.key
    elim (is_zero d) [ true ↦ ok (pos i) | false ↦ lookup kvps path (i + 1) ]
]

-- The loop of `create` of kvfs.c.
pub create_entry : List Kvp → List ℕ → ℕ → Store → Outcome (ℤ × List Kvp × Store)
create_entry [] path i s = ok (minus_one, [], s)
create_entry (kvp ∷ kvps) path i s = elim kvp.valid [
  | true ↦ do (ret, rest, s1) ← create_entry kvps path (i + 1) s; ok (ret, kvp ∷ rest, s1)
  | false ↦ do
    key ← strcpy kvp.key path
    (address, pmm) ← Pmm.alloc 512 s.pmm
    let s1 : Store = record s { pmm = pmm }
    elim (address == 0) [
      | true ↦ ok (minus_one, record kvp { key = key; address = address } ∷ kvps, s1)
      | false ↦
          let fresh : Kvp = record {
            valid = true;
            key = key;
            length = 0;
            capacity = 512;
            address = address;
          } in
          ok (pos i, fresh ∷ kvps, s1)
    ]
]

pub create : List Kvp → List ℕ → Store → Outcome (ℤ × List Kvp × Store)
create kvps path s = do
  len ← strlen path
  elim (ltb 31 len) [ true ↦ ok (minus_one, kvps, s) | false ↦ create_entry kvps path 0 s ]

pub access : List Kvp → ℤ → Outcome ℤ
access kvps (negsuc n) = undefined
access kvps (pos i) = do
  kvp ← defined (get_elem? kvps i)
  ok (if kvp.valid then pos 0 else minus_one)

-- The loop of `_dtor` of kvfs.c, as it stands: it skips the valid entries.
pub free_entries : List Kvp → Pmm → Outcome (List Kvp × Pmm)
free_entries [] pmm = ok ([], pmm)
free_entries (kvp ∷ kvps) pmm = elim kvp.valid [
  | true ↦ do (rest, pmm1) ← free_entries kvps pmm; ok (kvp ∷ rest, pmm1)
  | false ↦ do
    pmm1 ← Pmm.free kvp.address pmm
    (rest, pmm2) ← free_entries kvps pmm1
    ok (record kvp { valid = false } ∷ rest, pmm2)
]
