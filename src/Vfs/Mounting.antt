-- ===== src/Vfs/Mounting.antt =====
-- `mount`, `unmount` and `fsls` of src/vfs.c.
use oslab2_virtualfs.Base.{
  ℕ, Bool, true, false, List, [], ◌∷◌, Option, none, some, leb, get_elem?, set, Outcome, ok, ◌>>=◌,
  defined, ℤ, pos, negsuc, minus_one, is_zero,
}
use oslab2_virtualfs.Libc.Str.{strlen, strcmp, strcpy}
use oslab2_virtualfs.Kmt.Spin.{spin_init}
use oslab2_virtualfs.Vfs.Methods.{Method, Drivers}
use oslab2_virtualfs.Vfs.{
  Vfs, Mount, max_path, find_fs, free_entry, acquire, release, leave, invoke,
}

-- "vfs_lock"
abbrev lock_name : List ℕ
lock_name = b'v' ∷ b'f' ∷ b's' ∷ b'_' ∷ b'l' ∷ b'o' ∷ b'c' ∷ b'k' ∷ 0 ∷ []

-- `init`, with `dev_init` of the device drivers as an argument.
pub init : {World : Type 0} → Method World (Unit {0}) → Vfs World → Outcome (Vfs World)
init dev_init v = do
  (lk, kmt) ← spin_init v.lock (some lock_name) v.sys.kmt
  (_, v1) ← invoke dev_init (record v { lock = lk; sys = record v.sys { kmt = kmt } })
  ok v1

module _ {World : Type 0} (drivers : Drivers World) where
  -- `strcmp(mounts[fsid].path, path) == 0`, for an entry that there is.
  pub same_path : ℤ → List ℕ → Vfs World → Outcome Bool
  same_path (negsuc n) path v = ok false
  same_path (pos i) path v = do
    m ← defined (get_elem? v.mounts i)
    d ← strcmp m.path path
    ok (is_zero d)

  -- The loop of `mount`, and its end.
  pub mount_entry : Option ℕ → List ℕ → ℕ → Vfs World → Outcome (ℤ × Vfs World)
  mount_entry none path fs v = do
    v1 ← release v
    (_, v2) ← invoke (drivers.delete_filesystem fs) v1
    ok (minus_one, v2)
  mount_entry (some i) path fs v = do
    m ← defined (get_elem? v.mounts i)
    copied ← strcpy m.path path
    let entry : Mount = record { valid = true; path = copied; fs = fs }
    leave (pos i) (record v { mounts = set v.mounts i entry })

  pub mount : List ℕ → ℕ → Vfs World → Outcome (ℤ × Vfs World)
  mount path fs v = do
    len ← strlen path
    elim (leb max_path len) [
      | true ↦ do (_, v1) ← invoke (drivers.delete_filesystem fs) v; ok (minus_one, v1)
      | false ↦ do
        v1 ← acquire v
        fsid ← find_fs path v1.mounts
        taken ← same_path fsid path v1
        elim taken [
          | true ↦ do
            v2 ← release v1
            (_, v3) ← invoke (drivers.delete_filesystem fs) v2
            ok (minus_one, v3)
          | false ↦ mount_entry (free_entry v1.mounts 0) path fs v1
        ]
    ]

  -- `unmount` from the test of `id` on.
  unfoldable pub unmount_entry : ℤ → List ℕ → Vfs World → Outcome (ℤ × Vfs World)
  unmount_entry (negsuc n) path v = leave minus_one v
  unmount_entry (pos i) path v = do
    m ← defined (get_elem? v.mounts i)
    d ← strcmp path m.path
    elim (is_zero d) [
      | false ↦ leave minus_one v
      | true ↦ elim (is_zero (v.sys.filesystem m.fs).refcnt) [
        | false ↦ leave minus_one v
        | true ↦ do
          (_, v1) ← invoke (drivers.delete_filesystem m.fs) v
          let entry : Mount = record m { valid = false }
          leave (pos 0) (record v1 { mounts = set v1.mounts i entry })
      ]
    ]

  unfoldable pub unmount : List ℕ → Vfs World → Outcome (ℤ × Vfs World)
  unmount path v = do
    len ← strlen path
    elim (leb max_path len) [
      | true ↦ ok (minus_one, v)
      | false ↦ do v1 ← acquire v; id ← find_fs path v1.mounts; unmount_entry id path v1
    ]

  -- The loop of `fsls` from the first of the entries given, with the call of `fn` for each.
  pub fsls_loop : (List ℕ → ℕ → Method World ℤ) → List Mount → Vfs World → Outcome (ℤ × Vfs World)
  fsls_loop fn [] v = leave (pos 0) v
  fsls_loop fn (m ∷ ms) v = elim m.valid [
    | false ↦ fsls_loop fn ms v
    | true ↦ do
      (val, v1) ← invoke (fn m.path m.fs) v
      elim (is_zero val) [ true ↦ fsls_loop fn ms v1 | false ↦ leave val v1 ]
  ]

  pub fsls : (List ℕ → ℕ → Method World ℤ) → Vfs World → Outcome (ℤ × Vfs World)
  fsls fn v = do v1 ← acquire v; fsls_loop fn v1.mounts v1
