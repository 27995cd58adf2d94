-- ===== src/Vfs/Calls.antt =====
-- The system calls on files of src/vfs.c: `access`, `open`, `read`, `write`, `lseek` and `close`.
use oslab2_virtualfs.Base.{
  ℕ, true, false, List, none, some, leb, get_elem?, drop, Outcome, ok, ◌>>=◌, defined, ℤ, pos,
  negsuc, minus_one, inc, dec, is_zero, is_neg,
}
use oslab2_virtualfs.Libc.Str.{strlen}
use oslab2_virtualfs.Vfs.Methods.{Drivers}
use oslab2_virtualfs.Vfs.{
  Vfs, max_path, find_fs, free_fd, acquire, release, leave, invoke, fds, set_fd, set_fs_refcnt,
  set_file_refcnt, file_at, slot_number,
}

module _ {World : Type 0} (drivers : Drivers World) where
  -- `access` from the test of `fsid` on.
  unfoldable pub access_entry : ℤ → List ℕ → ℕ → Vfs World → Outcome (ℤ × Vfs World)
  access_entry (negsuc n) path mode v = leave minus_one v
  access_entry (pos i) path mode v = do
    m ← defined (get_elem? v.mounts i)
    skipped ← strlen m.path
    (inode, v1) ← invoke (drivers.lookup m.fs (drop skipped path)) v
    elim (is_neg inode) [
      | true ↦ leave minus_one v1
      | false ↦ do (ret, v2) ← invoke (drivers.access m.fs inode mode) v1; leave ret v2
    ]

  unfoldable pub access : List ℕ → ℕ → Vfs World → Outcome (ℤ × Vfs World)
  access path mode v = do
    len ← strlen path
    elim (leb max_path len) [
      | true ↦ ok (minus_one, v)
      | false ↦ do v1 ← acquire v; fsid ← find_fs path v1.mounts; access_entry fsid path mode v1
    ]

  -- `open` from the test of `inode < 0` after `create` on, for the slot `i`.
  unfoldable pub open_inode_at : ℕ → ℕ → ℤ → ℕ → Vfs World → Outcome (ℤ × Vfs World)
  open_inode_at i fs inode flags v = elim (is_neg inode) [
    | true ↦ leave minus_one v
    | false ↦ do
      (file, v1) ← invoke (drivers.open_inode fs inode flags) v
      elim file [
        | none ↦ leave minus_one v1
        | some f ↦
            let v2 = set_fd i (some f) v1 in
            leave (pos i) (set_fs_refcnt fs (inc (v2.sys.filesystem fs).refcnt) v2)
      ]
  ]

  -- `open` from the test of `fsid` on, for the slot `i`.
  unfoldable pub open_entry : ℕ → ℤ → List ℕ → ℕ → Vfs World → Outcome (ℤ × Vfs World)
  open_entry i (negsuc n) path flags v = leave minus_one v
  open_entry i (pos k) path flags v = do
    m ← defined (get_elem? v.mounts k)
    skipped ← strlen m.path
    let relpath = drop skipped path
    (inode, v1) ← invoke (drivers.lookup m.fs relpath) v
    elim (is_neg inode) [
      | true ↦ do
        (created, v2) ← invoke (drivers.create m.fs relpath) v1
        open_inode_at i m.fs created flags v2
      | false ↦ open_inode_at i m.fs inode flags v1
    ]

  -- `open`
  unfoldable pub open_path : List ℕ → ℕ → Vfs World → Outcome (ℤ × Vfs World)
  open_path path flags v = do
    v1 ← acquire v
    elim (free_fd (fds v1) 0) [
      | none ↦ leave minus_one v1
      | some i ↦ do fsid ← find_fs path v1.mounts; open_entry i fsid path flags v1
    ]

  -- `read` returns the bytes of its buffer, too.
  unfoldable pub read : ℤ → List ℕ → ℕ → Vfs World → Outcome ((ℤ × List ℕ) × Vfs World)
  read fd buf nbyte v = do
    v1 ← acquire v
    f ← file_at fd v1
    (ret, v2) ← invoke (drivers.read f buf nbyte) v1
    v3 ← release v2
    ok (ret, v3)

  unfoldable pub write : ℤ → List ℕ → ℕ → Vfs World → Outcome (ℤ × Vfs World)
  write fd buf nbyte v = do
    v1 ← acquire v
    f ← file_at fd v1
    (ret, v2) ← invoke (drivers.write f buf nbyte) v1
    leave ret v2

  unfoldable pub lseek : ℤ → ℤ → ℕ → Vfs World → Outcome (ℤ × Vfs World)
  lseek fd offset whence v = do
    v1 ← acquire v
    f ← file_at fd v1
    (ret, v2) ← invoke (drivers.lseek f offset whence) v1
    leave ret v2

  -- The `if` of `close`, after the count of file `f` went down.
  unfoldable pub drop_file : ℕ → Vfs World → Outcome (Vfs World)
  drop_file f v = elim (is_zero (v.sys.file f).refcnt) [
    | false ↦ ok v
    | true ↦ do
      let fs = (v.sys.file f).fs
      (_, v1) ←
          invoke (drivers.delete_file f) (set_fs_refcnt fs (dec (v.sys.filesystem fs).refcnt) v)
      ok v1
  ]

  -- `close`; the slot's number is within bounds where `file_at` is defined.
  unfoldable pub close : ℤ → Vfs World → Outcome (ℤ × Vfs World)
  close fd v = do
    v1 ← acquire v
    f ← file_at fd v1
    v2 ← drop_file f (set_file_refcnt f (dec (v1.sys.file f).refcnt) v1)
    leave (pos 0) (set_fd (slot_number fd) none v2)
