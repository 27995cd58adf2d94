-- ===== src/Vfs/Steps.antt =====
-- The steps of a system call of src/vfs.c: it takes the lock, invokes methods, and gives the lock back.
use oslab2_virtualfs.Base.{ℕ, ◌≡◌, refl, ◌∙◌, ◌⊎◌, Outcome, ok, ◌>>=◌, ℤ}
use oslab2_virtualfs.Kmt.{Kmt}
use oslab2_virtualfs.Vfs.Methods.{Sys, Method}
use oslab2_virtualfs.Vfs.Locking.{
  Quiet, Idle, Inside, with_lock, entered, entered-Inside, release_lem, Quiet-Inside, resumed,
}
use oslab2_virtualfs.Vfs.Laws.{Kept, Stops, Stops-bind}
use oslab2_virtualfs.Vfs.{Vfs, leave, invoke}

module _ {World : Type 0} where
  -- The state `v` that a call from `v0` has come to while it holds the lock.
  pub record Under (v0 v : Vfs World) : Type 0 where
    pub kmt : Kmt
    pub inside : Inside v v0.lock kmt
    pub quiet : Quiet v0.sys.kmt kmt
    pub mounts : v.mounts ≡ v0.mounts
    pub fs_refcnt : (p : ℕ) → (v.sys.filesystem p).refcnt ≡ (v0.sys.filesystem p).refcnt

  -- What a call leaves: the lock is free again, interrupts and threads are as before, the mounts and
  -- the reference counts are the same.
  pub record Settled (v0 v : Vfs World) : Type 0 where
    pub idle : Idle v
    pub lock : v.lock ≡ v0.lock
    pub quiet : Quiet v0.sys.kmt v.sys.kmt
    pub mounts : v.mounts ≡ v0.mounts
    pub fs_refcnt : (p : ℕ) → (v.sys.filesystem p).refcnt ≡ (v0.sys.filesystem p).refcnt

  abbrev pub Returns : {A : Type 0} → Vfs World → Outcome (A × Vfs World) → Type 0
  Returns {A} v0 o = (a : A) × (v : Vfs World) × (o ≡ ok (a, v)) × Settled v0 v

  pub entered-Under : (v : Vfs World) → Idle v → Under v (entered v)
  entered-Under v i = record {
    kmt = v.sys.kmt;
    inside = entered-Inside v i;
    quiet = record { intr = refl; this_thread = refl; thread = refl };
    mounts = refl;
    fs_refcnt = λ p. refl;
  }

  -- A method's call goes on under the lock.
  pub invoked-Under :
      (v0 v : Vfs World) (s : Sys World)
      → Under v0 v
      → Kept v.sys s
      → Under v0 (record v { sys = s })
  invoked-Under v0 v s u k = record {
    kmt = resumed u.kmt s.kmt;
    inside = Quiet-Inside v (record v { sys = s }) v0.lock u.kmt u.inside refl k.quiet;
    quiet = record {
      intr = u.quiet.intr;
      this_thread = u.quiet.this_thread;
      thread = u.quiet.thread;
    };
    mounts = u.mounts;
    fs_refcnt = λ p. k.fs_refcnt p ∙ u.fs_refcnt p;
  }

  pub settled : (v0 v : Vfs World) (u : Under v0 v) → Settled v0 (with_lock v v0.lock u.kmt)
  settled v0 v u = record {
    idle = record {
      open_lock = u.inside.open_lock;
      balanced = u.inside.balanced;
      thread = u.inside.thread;
    };
    lock = refl;
    quiet = u.quiet;
    mounts = u.mounts;
    fs_refcnt = u.fs_refcnt;
  }

  pub leave_lem :
      (v0 v : Vfs World) (r : ℤ) (u : Under v0 v) → leave r v ≡ ok (r, with_lock v v0.lock u.kmt)
  leave_lem v0 v r u = rw (release_lem v v0.lock u.kmt u.inside, ◌>>=◌)

  -- The call `o` returns what the method `m`, invoked as the lock is taken, returns, or ends as it does.
  abbrev pub Passes : {A : Type 0} → Vfs World → Method World A → Outcome (A × Vfs World) → Type 0
  Passes {A} v0 m o =
      ((a : A) × (s : Sys World) × (v : Vfs World) × (m (entered v0).sys ≡ ok (a, s))
        × (o ≡ ok (a, v))
        × (v.sys.world ≡ s.world)
        × Settled v0 v)
      ⊎ Stops (m (entered v0).sys) o

  -- What the invocation of a method comes to, when the method does not return.
  pub Stops-invoke :
      {A B : Type 0} (m : Method World A) (v : Vfs World) (f : A × Vfs World → Outcome B)
      → Stops (m v.sys) (m v.sys)
      → Stops (m v.sys) (invoke m v >>= f)
  unfolding Stops
  Stops-invoke m v f stop =
      Stops-bind (m v.sys) (invoke m v) f (Stops-bind (m v.sys) (m v.sys) _ stop)
