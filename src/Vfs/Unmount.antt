-- ===== src/Vfs/Unmount.antt =====
-- `unmount` of src/vfs.c: the entry with just the given path goes, unless its file system is in use.
use oslab2_virtualfs.Base.{
  ℕ, ◌≡◌, ◌≤◌, ◌⊎◌, true, false, List, Outcome, ok, ℤ, pos, minus_one, is_zero, length, set,
}
use oslab2_virtualfs.Vfs.Methods.{Drivers}
use oslab2_virtualfs.Vfs.Locking.{Quiet, Idle, entered}
use oslab2_virtualfs.Vfs.Laws.{Laws, Stops}
use oslab2_virtualfs.Vfs.Steps.{Settled}
use oslab2_virtualfs.Vfs.Match.{Matches}
use oslab2_virtualfs.Vfs.Resolve.{Resolves}
use oslab2_virtualfs.Vfs.{Vfs, Mount}

module _ {World : Type 0} {d : Drivers World} (laws : Laws d) (v : Vfs World) (ready : Idle v)
    (path rest : List ℕ) where
  -- What a successful `unmount` of entry `j` leaves.
  pub record Removed (j : ℕ) (entry : Mount) (v' : Vfs World) : Type 0 where
    pub mounts : v'.mounts ≡ set v.mounts j (record entry { valid = false })
    pub idle : Idle v'
    pub lock : v'.lock ≡ v.lock
    pub quiet : Quiet v.sys.kmt v'.sys.kmt

  -- The ways `unmount` ends.
  pub data Unmounting (a : ℤ) (v' : Vfs World) : Type 0 where
    absent :
        a ≡ minus_one
        → Settled v v'
        → ((k : ℕ) → Matches v.mounts path k path → length path ≤ 0)
        → Unmounting a v'
    busy :
        a ≡ minus_one
        → Settled v v'
        → (m : Mount) (tail : List ℕ) (r : Resolves v.mounts path rest m tail) → path ≡ r.text
        → is_zero (v.sys.filesystem m.fs).refcnt ≡ false
        → Unmounting a v'
    removed :
        a ≡ pos 0
        → (m : Mount) (tail : List ℕ) (r : Resolves v.mounts path rest m tail) → path ≡ r.text
        → is_zero (v.sys.filesystem m.fs).refcnt ≡ true
        → Removed r.number m v'
        → Unmounting a v'

  -- `unmount` of an entry that is not in use ends as the deletion of its file system does.
  pub data Stopped (o : Outcome (ℤ × Vfs World)) : Type 0 where
    in_delete :
        (m : Mount) (tail : List ℕ) (r : Resolves v.mounts path rest m tail)
        → path ≡ r.text
        → is_zero (v.sys.filesystem m.fs).refcnt ≡ true
        → Stops (d.delete_filesystem m.fs (entered v).sys) o
        → Stopped o

  abbrev pub Unmounts : Outcome (ℤ × Vfs World) → Type 0
  Unmounts o = ((a : ℤ) × (v' : Vfs World) × (o ≡ ok (a, v')) × Unmounting a v') ⊎ Stopped o
