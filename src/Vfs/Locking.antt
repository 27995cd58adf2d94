-- ===== src/Vfs/Locking.antt =====
-- `LOCK` and `UNLOCK` of src/vfs.c around what a system call does, and what the methods keep.
use oslab2_virtualfs.Base.{ℕ, ◌≡◌, ◌≢◌, refl, ap, ap₂, ◌∙◌, Bool, false, ok, ◌>>=◌}
use oslab2_virtualfs.Kmt.{Kmt, Thread}
use oslab2_virtualfs.Kmt.Spin.{
  Spinlock, IsOpen, Balanced, taken_by, locked_state, inc_intr, spin_lock_lem, spin_unlock_lem,
}
use oslab2_virtualfs.Vfs.{Vfs, acquire, release}

-- The processor and the threads are as they were; a method may use the rest.
pub record Quiet (k k' : Kmt) : Type 0 where
  pub intr : k'.intr ≡ k.intr
  pub this_thread : k'.this_thread ≡ k.this_thread
  pub thread : k'.thread ≡ k.thread

-- The kernel `k'` after a method, as it is when the lock is released.
abbrev pub resumed : Kmt → Kmt → Kmt
resumed k k' = record k' { intr = k.intr; this_thread = k.this_thread; thread = k.thread }

module _ {World : Type 0} where
  -- No system call is under way.
  pub record Idle (v : Vfs World) : Type 0 where
    pub open_lock : IsOpen v.lock
    pub balanced : Balanced v.sys.kmt
    pub thread : v.sys.kmt.this_thread ≢ 0

  -- A system call is under way, and holds the lock: `lk` and `k` are what the lock and the kernel come to
  -- when it is released.
  pub record Inside (v : Vfs World) (lk : Spinlock) (k : Kmt) : Type 0 where
    pub open_lock : IsOpen lk
    pub balanced : Balanced k
    pub thread : k.this_thread ≢ 0
    pub held : v.lock ≡ taken_by k lk
    pub kmt : v.sys.kmt ≡ locked_state k

  abbrev pub with_lock : Vfs World → Spinlock → Kmt → Vfs World
  with_lock v lk k = record v { lock = lk; sys = record v.sys { kmt = k } }

  abbrev pub entered : Vfs World → Vfs World
  entered v = with_lock v (taken_by v.sys.kmt v.lock) (locked_state v.sys.kmt)

  pub acquire_lem : (v : Vfs World) → Idle v → acquire v ≡ ok (entered v)
  unfolding acquire
  acquire_lem v i = rw (spin_lock_lem v.lock v.sys.kmt i.open_lock, ◌>>=◌)

  pub entered-Inside : (v : Vfs World) → Idle v → Inside (entered v) v.lock v.sys.kmt
  entered-Inside v i = record {
    open_lock = i.open_lock;
    balanced = i.balanced;
    thread = i.thread;
    held = refl;
    kmt = refl;
  }

  pub release_lem :
      (v : Vfs World) (lk : Spinlock) (k : Kmt) → Inside v lk k → release v ≡ ok (with_lock v lk k)
  unfolding release
  release_lem v lk k i =
      rw (i.held, i.kmt, spin_unlock_lem lk k i.open_lock i.balanced i.thread, ◌>>=◌)

  pub Quiet-Inside :
      (v v' : Vfs World) (lk : Spinlock) (k : Kmt)
      → Inside v lk k
      → v'.lock ≡ v.lock
      → Quiet v.sys.kmt v'.sys.kmt
      → Inside v' lk (resumed k v'.sys.kmt)
  unfolding inc_intr
  Quiet-Inside v v' lk k i same q = record {
    open_lock = i.open_lock;
    balanced = record { counted = i.balanced.counted; flag = i.balanced.flag };
    thread = i.thread;
    held = same ∙ i.held;
    kmt =
        back (q.intr ∙ ap (λ (x : Kmt). x.intr) i.kmt)
          (q.this_thread ∙ ap (λ (x : Kmt). x.this_thread) i.kmt)
          (q.thread ∙ ap (λ (x : Kmt). x.thread) i.kmt);
  }
    where
      back :
          v'.sys.kmt.intr ≡ (locked_state k).intr
          → v'.sys.kmt.this_thread ≡ (locked_state k).this_thread
          → v'.sys.kmt.thread ≡ (locked_state k).thread
          → v'.sys.kmt ≡ locked_state (resumed k v'.sys.kmt)
      back a b c =
          ap (λ (x : Bool). record v'.sys.kmt { intr = x }) a
          ∙ ap₂
              (λ (p : ℕ) (t : ℕ → Thread). record v'.sys.kmt {
                intr = false;
                this_thread = p;
                thread = t;
              })
              b c
