-- ===== src/Kvfs/Methods.antt =====
-- src/fs/kvfs.c and src/fs/kvfile.c as an implementation of the interfaces of include/kernel.h: each method on the state of
-- the kernel, with the tables of keys by the address of their file system, and the bytes of memory.
use oslab2_virtualfs.Base.{
  ℕ, refl, List, Option, none, some, get_elem?, set, Outcome, ok, undefined, ◌>>=◌, defined, assert,
  ℤ, pos, negsuc, is_zero,
}
use oslab2_virtualfs.Kmt.{update}
use oslab2_virtualfs.Pmm
use oslab2_virtualfs.Pmm.{Pmm}
use oslab2_virtualfs.Vfs.Methods.{Sys, Drivers, Method, File}
use oslab2_virtualfs.Vfs.Locking.{Quiet}
use oslab2_virtualfs.Vfs.Laws.{Kept, Keeps, Keeps-ok, Keeps-bind, changed_Kept, Laws}
use oslab2_virtualfs.Kvfs
use oslab2_virtualfs.Kvfs.{Kvp, Store}
use oslab2_virtualfs.Kvfs.Table

pub record Memory : Type 0 where
  pub tables : ℕ → List Kvp
  pub bytes : ℕ → ℕ

abbrev store_of : Sys Memory → Store
store_of s = record { bytes = s.world.bytes; pmm = s.kmt.pmm }

-- The kernel with another pool, memory, table and file.
abbrev with_pmm : Pmm → Sys Memory → Sys Memory
with_pmm pmm s = record s { kmt = record s.kmt { pmm = pmm } }

abbrev with_table : ℕ → List Kvp → Store → Sys Memory → Sys Memory
with_table p kvps st s = record s {
  kmt = record s.kmt { pmm = st.pmm };
  world = record { tables = update s.world.tables p kvps; bytes = st.bytes };
}

abbrev with_file : ℕ → File → Sys Memory → Sys Memory
with_file f file s = record s { file = update s.file f file }

-- `kvfs->kvp[inode]` of a file.
abbrev entry_of : File → ℕ → Sys Memory → Outcome Kvp
entry_of file i s = defined (get_elem? (s.world.tables file.fs) i)

-- The methods of a file on its entry, whose number is `inode`.
abbrev pub read_entry : ℕ → List ℕ → ℕ → ℤ → Method Memory (ℤ × List ℕ)
read_entry f buf n (negsuc i) s = undefined
read_entry f buf n (pos i) s = entry_of (s.file f) i s >>= λ kvp.
    Kvfs.read (s.file f) kvp buf n (store_of s) >>= λ (ret, filled, file).
    ok ((ret, filled), with_file f file s)

abbrev changed : ℕ → ℕ → Sys Memory → ℤ × File × Kvp × Store → Outcome (ℤ × Sys Memory)
changed f i s (ret, file, kvp, st) =
    let p = (s.file f).fs in
    ok (ret, with_file f file (with_table p (set (s.world.tables p) i kvp) st s))

abbrev pub write_entry : ℕ → List ℕ → ℕ → ℤ → Method Memory ℤ
write_entry f buf n (negsuc i) s = undefined
write_entry f buf n (pos i) s = entry_of (s.file f) i s >>= λ kvp.
    Kvfs.write (s.file f) kvp buf n (store_of s) >>= changed f i s

abbrev pub lseek_entry : ℕ → ℤ → ℕ → ℤ → Method Memory ℤ
lseek_entry f offset whence (negsuc i) s = undefined
lseek_entry f offset whence (pos i) s = entry_of (s.file f) i s >>= λ kvp.
    Kvfs.lseek (s.file f) kvp offset whence (store_of s) >>= changed f i s

-- The file that `open` has made, at its address.
abbrev opened : Option (ℕ × File) → Sys Memory → Outcome (Option ℕ × Sys Memory)
opened none s = ok (none, s)
opened (some (f, file)) s = ok (some f, with_file f file s)

-- `Delete` of a file, with `_dtor` of kvfile.c.
abbrev pub free_file : ℕ → Method Memory (Unit {0})
free_file f s = assert (is_zero (s.file f).refcnt) >>= λ _.
    Pmm.free f s.kmt.pmm >>= λ pmm. ok (tt, with_pmm pmm s)

-- The methods, where a file takes `size` bytes.
abbrev pub methods : ℕ → Drivers Memory
methods size = record {
  lookup = λ p path s. Kvfs.lookup (s.world.tables p) path 0 >>= λ inode. ok (inode, s);
  create = λ p path s. Kvfs.create (s.world.tables p) path (store_of s) >>= λ (inode, kvps, st).
      ok (inode, with_table p kvps st s);
  access = λ p inode mode s. Kvfs.access (s.world.tables p) inode >>= λ ret. ok (ret, s);
  open_inode = λ p inode flags s.
      Kvfs.Table.open_inode size p inode flags s.kmt.pmm >>= λ (file, pmm).
      opened file (with_pmm pmm s);
  read = λ f buf n s. read_entry f buf n (s.file f).inode s;
  write = λ f buf n s. write_entry f buf n (s.file f).inode s;
  lseek = λ f offset whence s. lseek_entry f offset whence (s.file f).inode s;
  delete_filesystem = λ p s.
      Kvfs.Table.delete (s.filesystem p) (s.world.tables p) s.kmt.pmm >>= λ (kvps, pmm).
      Pmm.free p pmm >>= λ freed.
      ok (tt, with_table p kvps (record { bytes = s.world.bytes; pmm = freed }) s);
  delete_file = free_file;
}

-- Only the pool, the memory, the tables and the files change.
module _ (s : Sys Memory) where
  changed-Keeps : (f i : ℕ) (r : ℤ × File × Kvp × Store) → Keeps Kept s (changed f i s r)
  changed-Keeps f i (ret, file, kvp, st) = Keeps-ok Kept s ret _ (changed_Kept s _ _ _)

  opened-Keeps :
      (file : Option (ℕ × File)) (pmm : Pmm) → Keeps Kept s (opened file (with_pmm pmm s))
  opened-Keeps none pmm = Keeps-ok Kept s none _ (changed_Kept s _ _ _)
  opened-Keeps (some (f, file)) pmm = Keeps-ok Kept s (some f) _ (changed_Kept s _ _ _)

  read-Keeps :
      (f : ℕ) (buf : List ℕ) (n : ℕ) (inode : ℤ) → Keeps Kept s (read_entry f buf n inode s)
  read-Keeps f buf n (negsuc i) = λ a s' e. cc
  read-Keeps f buf n (pos i) = Keeps-bind Kept s (entry_of (s.file f) i s) _ (λ kvp.
      Keeps-bind Kept s (Kvfs.read (s.file f) kvp buf n (store_of s)) _
        (λ (ret, filled, file). Keeps-ok Kept s (ret, filled) _ (changed_Kept s _ _ _)))

  write-Keeps :
      (f : ℕ) (buf : List ℕ) (n : ℕ) (inode : ℤ) → Keeps Kept s (write_entry f buf n inode s)
  write-Keeps f buf n (negsuc i) = λ a s' e. cc
  write-Keeps f buf n (pos i) = Keeps-bind Kept s (entry_of (s.file f) i s) _ (λ kvp.
      Keeps-bind Kept s (Kvfs.write (s.file f) kvp buf n (store_of s)) _ (changed-Keeps f i))

  lseek-Keeps :
      (f : ℕ) (offset : ℤ) (whence : ℕ) (inode : ℤ)
      → Keeps Kept s (lseek_entry f offset whence inode s)
  lseek-Keeps f offset whence (negsuc i) = λ a s' e. cc
  lseek-Keeps f offset whence (pos i) = Keeps-bind Kept s (entry_of (s.file f) i s) _ (λ kvp.
      Keeps-bind Kept s (Kvfs.lseek (s.file f) kvp offset whence (store_of s)) _
        (changed-Keeps f i))

-- The methods of kvfs are as src/vfs.c relies on.
pub methods-Laws : (size : ℕ) → Laws (methods size)
methods-Laws size = record {
  lookup = λ s p path.
      Keeps-bind Kept s (Kvfs.lookup (s.world.tables p) path 0) _
        (λ inode. Keeps-ok Kept s inode _ (changed_Kept s _ _ _));
  create = λ s p path.
      Keeps-bind Kept s (Kvfs.create (s.world.tables p) path (store_of s)) _
        (λ (inode, kvps, st). Keeps-ok Kept s inode _ (changed_Kept s _ _ _));
  access = λ s p inode mode.
      Keeps-bind Kept s (Kvfs.access (s.world.tables p) inode) _
        (λ ret. Keeps-ok Kept s ret _ (changed_Kept s _ _ _));
  open_inode = λ s p inode flags.
      Keeps-bind Kept s (Kvfs.Table.open_inode size p inode flags s.kmt.pmm) _
        (λ (file, pmm). opened-Keeps s file pmm);
  read = λ s f buf n. read-Keeps s f buf n (s.file f).inode;
  write = λ s f buf n. write-Keeps s f buf n (s.file f).inode;
  lseek = λ s f offset whence. lseek-Keeps s f offset whence (s.file f).inode;
  delete_file = λ s f. Keeps-bind Kept s (assert (is_zero (s.file f).refcnt)) _ (λ held.
      Keeps-bind Kept s (Pmm.free f s.kmt.pmm) _
        (λ pmm. Keeps-ok Kept s tt _ (changed_Kept s _ _ _)));
  delete_filesystem = λ s p.
      Keeps-bind (λ s s'. Quiet s.kmt s'.kmt) s
        (Kvfs.Table.delete (s.filesystem p) (s.world.tables p) s.kmt.pmm) _
        (λ (kvps, pmm).
          Keeps-bind (λ s s'. Quiet s.kmt s'.kmt) s (Pmm.free p pmm) _
            (λ freed.
              Keeps-ok (λ s s'. Quiet s.kmt s'.kmt) s tt _
                (record { intr = refl; this_thread = refl; thread = refl })));
}
