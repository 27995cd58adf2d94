-- ===== src/Vfs.antt =====
-- src/vfs.c: the mount table, and the system calls that find a file system by the longest matching
-- mount path and invoke its methods under one lock.
pub mod Methods
pub mod Match
pub mod Find
pub mod Locking
pub mod Laws
pub mod Steps
pub mod Io
pub mod Resolve
pub mod Access
pub mod Descriptors
pub mod Open
pub mod Close
pub mod Unmount
mod Tests
pub mod Mounting
pub mod Calls
use oslab2_virtualfs.Base.{
  ℕ, zero, suc, ◌+◌, Bool, true, false, List, [], ◌∷◌, Option, none, some, ◌==◌, ltb, leb,
  if◌then◌else◌, get_elem?, set, drop, Outcome, ok, undefined, ◌>>=◌, defined, ℤ, pos, negsuc,
  minus_one, inc, dec, is_zero, is_neg,
}
use oslab2_virtualfs.Libc.Str.{strlen, strcmp, strcpy}
use oslab2_virtualfs.Kmt.{Kmt, Thread, set_thread, update}
use oslab2_virtualfs.Kmt.Spin.{Spinlock, spin_init, spin_lock, spin_unlock}
use oslab2_virtualfs.Vfs.Methods.{Filesystem, File, Sys, Method, Drivers}

abbrev pub max_path : ℕ
max_path = 128

-- An entry of `mounts`; `path` has 128 bytes.
pub record Mount : Type 0 where
  pub valid : Bool
  pub path : List ℕ
  pub fs : ℕ

-- The inner loop of `find_fs`: the length of the mount path if it matches; `none` is `goto next`.
pub match_loop : List ℕ → List ℕ → ℕ → Outcome (Option ℕ)
match_loop [] path n = undefined
match_loop (m ∷ ms) [] n = elim (m == 0) [ true ↦ ok (some n) | false ↦ undefined ]
match_loop (m ∷ ms) (c ∷ cs) n = elim (m == 0) [
  | true ↦ ok (some n)
  | false ↦ elim (c == m) [ true ↦ match_loop ms cs (n + 1) | false ↦ ok none ]
]

-- The outer loop of `find_fs` from entry `i` on, with `maxlen` and `ret`.
pub find_loop : List Mount → List ℕ → ℕ → ℕ → ℤ → Outcome ℤ
find_loop [] path i maxlen ret = ok ret
find_loop (m ∷ ms) path i maxlen ret = elim m.valid [
  | false ↦ find_loop ms path (i + 1) maxlen ret
  | true ↦ do
    matched ← match_loop m.path path 0
    elim matched [
      | none ↦ find_loop ms path (i + 1) maxlen ret
      | some n ↦ elim (ltb maxlen n) [
        | true ↦ find_loop ms path (i + 1) n (pos i)
        | false ↦ find_loop ms path (i + 1) maxlen ret
      ]
    ]
]

pub find_fs : List ℕ → List Mount → Outcome ℤ
find_fs path mounts = find_loop mounts path 0 0 minus_one

-- The statics of vfs.c over the rest of the kernel.
pub record Vfs (World : Type 0) : Type 0 where
  pub sys : Sys World
  pub mounts : List Mount
  pub lock : Spinlock

-- The first free entry of the mount table, from number `i` on.
pub free_entry : List Mount → ℕ → Option ℕ
free_entry [] i = none
free_entry (m ∷ ms) i = elim m.valid [ true ↦ free_entry ms (i + 1) | false ↦ some i ]

-- The first free slot of `fd`, from number `i` on.
pub free_fd : List (Option ℕ) → ℕ → Option ℕ
free_fd [] i = none
free_fd (none ∷ fds) i = some i
free_fd (some file ∷ fds) i = free_fd fds (i + 1)

-- A slot's number, for a number that is one.
abbrev pub slot_number : ℤ → ℕ
slot_number (pos i) = i
slot_number (negsuc n) = 0

module _ {World : Type 0} where
  -- `LOCK`, `UNLOCK`, and `UNLOCK` before a `return`.
  unfoldable pub acquire : Vfs World → Outcome (Vfs World)
  acquire v = do
    (lk, kmt) ← spin_lock v.lock v.sys.kmt
    ok (record v { lock = lk; sys = record v.sys { kmt = kmt } })

  unfoldable pub release : Vfs World → Outcome (Vfs World)
  release v = do
    (lk, kmt) ← spin_unlock v.lock v.sys.kmt
    ok (record v { lock = lk; sys = record v.sys { kmt = kmt } })

  abbrev pub leave : ℤ → Vfs World → Outcome (ℤ × Vfs World)
  leave result v = do v' ← release v; ok (result, v')

  -- A method's call.
  abbrev pub invoke : {A : Type 0} → Method World A → Vfs World → Outcome (A × Vfs World)
  invoke method v = do (a, sys) ← method v.sys; ok (a, record v { sys = sys })

  abbrev pub fds : Vfs World → List (Option ℕ)
  fds v = (v.sys.kmt.thread v.sys.kmt.this_thread).fd

  abbrev pub set_fd : ℕ → Option ℕ → Vfs World → Vfs World
  set_fd i file v =
      let p = v.sys.kmt.this_thread in
      let t : Thread = record (v.sys.kmt.thread p) { fd = set (fds v) i file } in
      record v { sys = record v.sys { kmt = set_thread p t v.sys.kmt } }

  abbrev pub set_fs_refcnt : ℕ → ℤ → Vfs World → Vfs World
  set_fs_refcnt p n v =
      let fs : Filesystem = record (v.sys.filesystem p) { refcnt = n } in
      record v { sys = record v.sys { filesystem = update v.sys.filesystem p fs } }

  abbrev pub set_file_refcnt : ℕ → ℤ → Vfs World → Vfs World
  set_file_refcnt p n v =
      let file : File = record (v.sys.file p) { refcnt = n } in
      record v { sys = record v.sys { file = update v.sys.file p file } }

  -- `this_thread->fd[fd]`, which is about to be dereferenced: NULL and a number that is not a slot's are
  -- undefined.
  pub file_at : ℤ → Vfs World → Outcome ℕ
  file_at (negsuc n) v = undefined
  file_at (pos i) v = do slot ← defined (get_elem? (fds v) i); defined slot
