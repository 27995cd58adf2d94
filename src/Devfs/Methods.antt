-- ===== src/Devfs/Methods.antt =====
-- src/fs/devfs.c and src/fs/devfile.c as an implementation of the interfaces of include/kernel.h, with the tables of
-- devices by the address of their file system.
use oslab2_virtualfs.Base.{
  ℕ, refl, List, Option, none, some, ◌==◌, if◌then◌else◌, Outcome, ok, ◌>>=◌, assert, ℤ, minus_one,
  is_zero,
}
use oslab2_virtualfs.Kmt.{update}
use oslab2_virtualfs.Pmm
use oslab2_virtualfs.Pmm.{Pmm}
use oslab2_virtualfs.Vfs.Methods.{Sys, Drivers, Method, File}
use oslab2_virtualfs.Vfs.Locking.{Quiet}
use oslab2_virtualfs.Vfs.Laws.{Kept, Keeps, Keeps-ok, Keeps-bind, changed_Kept, Laws}
use oslab2_virtualfs.Devfs
use oslab2_virtualfs.Devfs.Devices.{Device, DevState}
use oslab2_virtualfs.Devfs.Devfile

pub record Hardware : Type 0 where
  pub tables : ℕ → List Device
  pub dev : DevState

abbrev with_pmm : Pmm → Sys Hardware → Sys Hardware
with_pmm pmm s = record s { kmt = record s.kmt { pmm = pmm } }

abbrev with_dev : DevState → Sys Hardware → Sys Hardware
with_dev dev s = record s { world = record s.world { dev = dev } }

-- The file that `open` has made.
abbrev opened : ℕ → Option File → Sys Hardware → Outcome (Option ℕ × Sys Hardware)
opened f none s = ok (none, s)
opened f (some file) s = ok (some f, record s { file = update s.file f file })

-- `open`: the memory, of `size` bytes, is asked for where the device is there.
abbrev pub open_device : ℕ → ℕ → ℤ → ℕ → Option File → Method Hardware (Option ℕ)
open_device size p inode flags none s = ok (none, s)
open_device size p inode flags (some there) s = Pmm.alloc size s.kmt.pmm >>= λ (f, pmm).
    let memory = if f == 0 then none else some f in
    opened f (Devfs.open_inode (s.world.tables p) inode flags memory p) (with_pmm pmm s)

-- `Delete` of an object at `p` that `count` others refer to.
abbrev pub delete : ℕ → ℤ → Method Hardware (Unit {0})
delete p count s =
    assert (is_zero count) >>= λ _. Pmm.free p s.kmt.pmm >>= λ pmm. ok (tt, with_pmm pmm s)

-- The methods, where a file takes `size` bytes.
abbrev pub methods : ℕ → Drivers Hardware
methods size = record {
  lookup = λ p path s. Devfs.lookup (s.world.tables p) path 0 >>= λ inode. ok (inode, s);
  create = λ p path s. ok (Devfs.create path, s);
  access = λ p inode mode s. ok (Devfs.access (s.world.tables p) inode mode, s);
  open_inode = λ p inode flags s.
      open_device size p inode flags (Devfs.open_inode (s.world.tables p) inode flags (some p) p) s;
  read = λ f buf n s.
      Devfs.Devfile.read (s.world.tables (s.file f).fs) (s.file f) buf n s.world.dev
      >>= λ (ret, dev). ok (ret, with_dev dev s);
  write = λ f buf n s.
      Devfs.Devfile.write (s.world.tables (s.file f).fs) (s.file f) buf n s.world.dev
      >>= λ (ret, dev). ok (ret, with_dev dev s);
  lseek = λ f offset whence s. ok (minus_one, s);
  delete_filesystem = λ p s. delete p (s.filesystem p).refcnt s;
  delete_file = λ f s. delete f (s.file f).refcnt s;
}

module _ (s : Sys Hardware) where
  opened-Keeps :
      (f : ℕ) (file : Option File) (pmm : Pmm) → Keeps Kept s (opened f file (with_pmm pmm s))
  opened-Keeps f none pmm = Keeps-ok Kept s none _ (changed_Kept s _ _ _)
  opened-Keeps f (some file) pmm = Keeps-ok Kept s (some f) _ (changed_Kept s _ _ _)

  open_device-Keeps :
      (size p : ℕ) (inode : ℤ) (flags : ℕ) (there : Option File)
      → Keeps Kept s (open_device size p inode flags there s)
  open_device-Keeps size p inode flags none = Keeps-ok Kept s none _ (changed_Kept s _ _ _)
  open_device-Keeps size p inode flags (some there) =
      Keeps-bind Kept s (Pmm.alloc size s.kmt.pmm) _ (λ (f, pmm). opened-Keeps f _ pmm)

-- The methods of devfs are as src/vfs.c relies on.
pub methods-Laws : (size : ℕ) → Laws (methods size)
methods-Laws size = record {
  lookup = λ s p path.
      Keeps-bind Kept s (Devfs.lookup (s.world.tables p) path 0) _
        (λ inode. Keeps-ok Kept s inode _ (changed_Kept s _ _ _));
  create = λ s p path. Keeps-ok Kept s (Devfs.create path) _ (changed_Kept s _ _ _);
  access = λ s p inode mode. Keeps-ok Kept s _ _ (changed_Kept s _ _ _);
  open_inode = λ s p inode flags. open_device-Keeps s size p inode flags _;
  read = λ s f buf n.
      Keeps-bind Kept s _ _ (λ (ret, dev). Keeps-ok Kept s ret _ (changed_Kept s _ _ _));
  write = λ s f buf n.
      Keeps-bind Kept s _ _ (λ (ret, dev). Keeps-ok Kept s ret _ (changed_Kept s _ _ _));
  lseek = λ s f offset whence. Keeps-ok Kept s minus_one _ (changed_Kept s _ _ _);
  delete_file = λ s f. Keeps-bind Kept s (assert (is_zero (s.file f).refcnt)) _ (λ held.
      Keeps-bind Kept s (Pmm.free f s.kmt.pmm) _
        (λ pmm. Keeps-ok Kept s tt _ (changed_Kept s _ _ _)));
  delete_filesystem = λ s p.
      Keeps-bind (λ s s'. Quiet s.kmt s'.kmt) s (assert (is_zero (s.filesystem p).refcnt)) _
        (λ held.
          Keeps-bind (λ s s'. Quiet s.kmt s'.kmt) s (Pmm.free p s.kmt.pmm) _
            (λ pmm.
              Keeps-ok (λ s s'. Quiet s.kmt s'.kmt) s tt _
                (record { intr = refl; this_thread = refl; thread = refl })));
}
