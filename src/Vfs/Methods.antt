-- ===== src/Vfs/Methods.antt =====
-- The interfaces of include/kernel.h: the file systems and files whose methods src/vfs.c invokes, with the
-- fields of `struct filesystem` and `struct file` that it reads and writes.
use oslab2_virtualfs.Base.{ℕ, List, Option, Outcome, ℤ}
use oslab2_virtualfs.Kmt.{Kmt}

pub record Filesystem : Type 0 where
  pub name : List ℕ
  pub refcnt : ℤ

-- `fs` is the address of the file system.
pub record File : Type 0 where
  pub fs : ℕ
  pub inode : ℤ
  pub refcnt : ℤ
  pub offset : ℤ
  pub flags : ℕ

-- The kernel's memory, as the methods see it: the fields above by address, and in `world` whatever the
-- implementations of the interfaces keep.
pub record Sys (World : Type 0) : Type 0 where
  pub kmt : Kmt
  pub filesystem : ℕ → Filesystem
  pub file : ℕ → File
  pub world : World

abbrev pub Method : Type 0 → Type 0 → Type 0
Method World A = Sys World → Outcome (A × Sys World)

-- The methods of the objects by address; `open_inode` is a file system's `open`. A path and a buffer are the bytes from the pointer on, and `read`
-- returns those of its buffer with its value. `delete_filesystem` and `delete_file` are `Delete`.
pub record Drivers (World : Type 0) : Type 0 where
  pub lookup : ℕ → List ℕ → Method World ℤ
  pub create : ℕ → List ℕ → Method World ℤ
  pub access : ℕ → ℤ → ℕ → Method World ℤ
  pub open_inode : ℕ → ℤ → ℕ → Method World (Option ℕ)
  pub read : ℕ → List ℕ → ℕ → Method World (ℤ × List ℕ)
  pub write : ℕ → List ℕ → ℕ → Method World ℤ
  pub lseek : ℕ → ℤ → ℕ → Method World ℤ
  pub delete_filesystem : ℕ → Method World (Unit {0})
  pub delete_file : ℕ → Method World (Unit {0})
