-- ===== src/Vfs/Close.antt =====
-- `close` of src/vfs.c: the descriptor is free again, and the last reference deletes the file.
use oslab2_virtualfs.Base.{
  ℕ, ◌≡◌, refl, ap, ap₂, ◌∙◌, ◌⊎◌, inl, inr, true, false, Bool-cases, none, Outcome, ok, ◌>>=◌, ℤ,
  pos, dec, is_zero, set,
}
use oslab2_virtualfs.Kmt.{Kmt, Thread, update_self}
use oslab2_virtualfs.Vfs.Methods.{Sys, Drivers, Filesystem, File}
use oslab2_virtualfs.Vfs.Locking.{
  Inside, Idle, entered, entered-Inside, Quiet-Inside, resumed, with_lock, acquire_lem, release_lem,
}
use oslab2_virtualfs.Vfs.Laws.{Laws, Stops, Stops-bind, Ends, ends, returns, stops}
use oslab2_virtualfs.Vfs.Steps.{Stops-invoke}
use oslab2_virtualfs.Vfs.Io.{file_at-entered}
use oslab2_virtualfs.Vfs.Descriptors.{with_fd, fds-with_fd, set_fd-Inside}
use oslab2_virtualfs.Vfs.{
  Vfs, invoke, leave, fds, file_at, set_fd, set_fs_refcnt, set_file_refcnt, slot_number,
}
use oslab2_virtualfs.Vfs.Calls.{close, drop_file}

module _ {World : Type 0} (d : Drivers World) (f : ℕ) (v : Vfs World) where
  drop_file-more : is_zero (v.sys.file f).refcnt ≡ false → drop_file d f v ≡ ok v
  unfolding drop_file
  drop_file-more e = rw (e, drop_file)

  -- The deletion of the file, whose file system is at `fs`.
  abbrev deletion : ℕ → Outcome (Vfs World)
  deletion fs =
      invoke (d.delete_file f) (set_fs_refcnt fs (dec (v.sys.filesystem fs).refcnt) v)
      >>= λ (_, v1). ok v1

  drop_file-last :
      is_zero (v.sys.file f).refcnt ≡ true → drop_file d f v ≡ deletion (v.sys.file f).fs
  unfolding drop_file
  drop_file-last e = rw (e, drop_file)

module _ {World : Type 0} {d : Drivers World} (laws : Laws d) (v : Vfs World) (fd : ℤ) (f : ℕ) where
  abbrev file : File
  file = v.sys.file f

  -- The states of `close` before its end: the count of the file is down; the count of its file system is down.
  abbrev pub counted : Vfs World
  counted = set_file_refcnt f (dec file.refcnt) (entered v)

  abbrev pub released : Vfs World
  released = set_fs_refcnt file.fs (dec (v.sys.filesystem file.fs).refcnt) counted

  -- What `close` leaves.
  pub record Closed (v' : Vfs World) : Type 0 where
    pub descriptors : fds v' ≡ set (fds v) (slot_number fd) none
    pub idle : Idle v'
    pub lock : v'.lock ≡ v.lock
    pub intr : v'.sys.kmt.intr ≡ v.sys.kmt.intr
    pub mounts : v'.mounts ≡ v.mounts
    -- Other references are left, and only their number changed; or this was the last one, the file was
    -- deleted, and its file system has one open file less.
    pub references :
        ((is_zero (dec file.refcnt) ≡ false)
          × ((v'.sys.file f).refcnt ≡ dec file.refcnt)
          × (v'.sys.filesystem ≡ v.sys.filesystem)
          × (v'.sys.world ≡ v.sys.world))
        ⊎ ((is_zero (dec file.refcnt) ≡ true)
            × ((v'.sys.filesystem file.fs).refcnt ≡ dec (v.sys.filesystem file.fs).refcnt)
            × ((s' : Sys World) × (d.delete_file f released.sys ≡ ok (tt, s'))
                × (v'.sys.world ≡ s'.world)))

  -- The end of `close`, from a state under the lock.
  leave_cleared :
      (v1 : Vfs World) (k : Kmt)
      → Inside v1 v.lock k
      → leave (pos 0) (set_fd (slot_number fd) none v1)
        ≡ ok (pos 0, with_lock v1 v.lock (with_fd (slot_number fd) none k))
  leave_cleared v1 k i = rw (
    release_lem (set_fd (slot_number fd) none v1) v.lock (with_fd (slot_number fd) none k)
        (set_fd-Inside v1 v.lock k (slot_number fd) none i),
    ◌>>=◌,
  )

  cleared_Idle :
      (v1 : Vfs World) (k : Kmt)
      → Inside v1 v.lock k
      → Idle (with_lock v1 v.lock (with_fd (slot_number fd) none k))
  cleared_Idle v1 k i =
      let w = set_fd-Inside v1 v.lock k (slot_number fd) none i in
      record { open_lock = w.open_lock; balanced = w.balanced; thread = w.thread }

  cleared_fds :
      (v1 : Vfs World) (k : Kmt)
      → k.this_thread ≡ v.sys.kmt.this_thread
      → k.thread ≡ v.sys.kmt.thread
      → fds (with_lock v1 v.lock (with_fd (slot_number fd) none k))
        ≡ set (fds v) (slot_number fd) none
  cleared_fds v1 k same threads =
      fds-with_fd (slot_number fd) none k
      ∙ ap₂ (λ (t : ℕ → Thread) (q : ℕ). set (t q).fd (slot_number fd) none) threads same

  abbrev down : File
  down = record file { refcnt = dec file.refcnt }

  gone :
      (done : Unit {0}) (s' : Sys World)
      → d.delete_file f released.sys ≡ ok (done, s')
      → deletion d f counted file.fs ≡ ok (record released { sys = s' })
  gone done s' runs = rw (runs, ◌>>=◌)

  counted_file : counted.sys.file f ≡ down
  counted_file = update_self v.sys.file f down

  module _ (idle : Idle v) (here : file_at fd v ≡ ok f) where
    start :
        close d fd v
        ≡ (drop_file d f counted >>= λ v2. leave (pos 0) (set_fd (slot_number fd) none v2))
    unfolding close
    start = rw (acquire_lem v idle, ◌>>=◌, file_at-entered fd v ∙ here, ◌>>=◌)

    -- Over methods that keep the laws, `close` of an open descriptor, when no other call is under way (`Idle`),
    -- returns 0 and frees the descriptor. When another reference to the file is
    -- left, only the file's count goes down; otherwise the file is deleted and the count of its file system goes down.
    -- The lock is free afterwards, and the interrupts and the mounts are as before. Where the deletion of the file
    -- halts or is undefined, so is `close`.
    pub close-Closed :
        ((v' : Vfs World) × (close d fd v ≡ ok (pos 0, v')) × Closed v')
        ⊎ ((is_zero (dec file.refcnt) ≡ true) × Stops (d.delete_file f released.sys) (close d fd v))
    close-Closed = elim (Bool-cases (is_zero (dec file.refcnt))) [
      | inr more ↦
          let i : Inside counted v.lock v.sys.kmt =
            let j = entered-Inside v idle in
            record {
              open_lock = j.open_lock;
              balanced = j.balanced;
              thread = j.thread;
              held = j.held;
              kmt = j.kmt;
            } in
          inl (
            with_lock counted v.lock (with_fd (slot_number fd) none v.sys.kmt),
            start
                ∙ ap (λ m. m >>= λ v2. leave (pos 0) (set_fd (slot_number fd) none v2))
                    (drop_file-more d f counted
                      (ap (λ (x : File). is_zero x.refcnt) counted_file ∙ more))
                ∙ leave_cleared counted v.sys.kmt i,
            record {
              descriptors = cleared_fds counted v.sys.kmt refl refl;
              idle = cleared_Idle counted v.sys.kmt i;
              lock = refl;
              intr = refl;
              mounts = refl;
              references = inl (more, ap (λ (x : File). x.refcnt) counted_file, refl, refl);
            },
          )
      | inl last ↦ deleted last (ends (d.delete_file f released.sys))
    ]
      where
        start_last :
            is_zero (dec file.refcnt) ≡ true
            → close d fd v ≡ (
                deletion d f counted file.fs >>= λ v2.
                leave (pos 0) (set_fd (slot_number fd) none v2))
        start_last last =
            start
            ∙ ap (λ m. m >>= λ v2. leave (pos 0) (set_fd (slot_number fd) none v2))
                (drop_file-last d f counted
                    (ap (λ (x : File). is_zero x.refcnt) counted_file ∙ last)
                  ∙ ap (λ (x : File). deletion d f counted x.fs) counted_file)

        deleted :
            is_zero (dec file.refcnt) ≡ true
            → Ends (d.delete_file f released.sys)
            → ((v' : Vfs World) × (close d fd v ≡ ok (pos 0, v')) × Closed v')
              ⊎ ((is_zero (dec file.refcnt) ≡ true)
                  × Stops (d.delete_file f released.sys) (close d fd v))
        deleted last (stops stop) = inr (
          last,
          rw (start_last last) (
              Stops-bind _ (deletion d f counted file.fs) _
                (Stops-invoke (d.delete_file f) released (λ (_, v1). ok v1) stop)),
        )
        deleted last (returns (done, s') runs) =
            let kept = laws.delete_file released.sys f done s' runs in
            let j = entered-Inside v idle in
            let i : Inside released v.lock v.sys.kmt = record {
              open_lock = j.open_lock;
              balanced = j.balanced;
              thread = j.thread;
              held = j.held;
              kmt = j.kmt;
            } in
            let v3 : Vfs World = record released { sys = s' } in
            let i3 = Quiet-Inside released v3 v.lock v.sys.kmt i refl kept.quiet in
            let k = resumed v.sys.kmt s'.kmt in
            inl (
              with_lock v3 v.lock (with_fd (slot_number fd) none k),
              start_last last
                  ∙ ap (λ m. m >>= λ v2. leave (pos 0) (set_fd (slot_number fd) none v2))
                      (gone done s' runs)
                  ∙ leave_cleared v3 k i3,
              record {
                descriptors = cleared_fds v3 k refl refl;
                idle = cleared_Idle v3 k i3;
                lock = refl;
                intr = refl;
                mounts = refl;
                references = inr (
                  last,
                  kept.fs_refcnt file.fs
                      ∙ ap (λ (x : Filesystem). x.refcnt) (update_self v.sys.filesystem file.fs _),
                  (s', runs, refl),
                );
              },
            )
