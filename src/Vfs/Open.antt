-- ===== src/Vfs/Open.antt =====
-- `open` of src/vfs.c: the lowest free descriptor, the file system that the path leads to, and its count.
use oslab2_virtualfs.Base.{
  ℕ, ◌+◌, ◌≡◌, ◌≢◌, ◌≤◌, refl, ap, ap₂, ◌∙◌, ◌⊎◌, inl, inr, true, false, Bool-cases, List, none,
  some, Option-cases, Outcome, ok, ◌>>=◌, defined, ℤ, pos, minus_one, is_neg, inc, length, arith,
  set, get_elem?,
}
use oslab2_virtualfs.Kmt.{Thread, update_self}
use oslab2_virtualfs.Libc.Str.Laws.{IsText, stored}
use oslab2_virtualfs.Vfs.Methods.{Sys, Drivers, Filesystem}
use oslab2_virtualfs.Vfs.Locking.{Inside, Idle, entered, with_lock, acquire_lem, release_lem}
use oslab2_virtualfs.Vfs.Laws.{Laws, Stops, ends, returns, stops}
use oslab2_virtualfs.Vfs.Steps.{
  Under, Settled, entered-Under, invoked-Under, leave_lem, settled, Stops-invoke,
}
use oslab2_virtualfs.Vfs.Match.{Matches, AllStored}
use oslab2_virtualfs.Vfs.Resolve.{Resolves, resolve}
use oslab2_virtualfs.Vfs.Io.{fds-entered}
use oslab2_virtualfs.Vfs.Descriptors.{FreeSlot, free_fd_lem, with_fd, fds-with_fd, set_fd-Inside}
use oslab2_virtualfs.Vfs.{Vfs, Mount, invoke, leave, find_fs, fds, free_fd, set_fd, set_fs_refcnt}
use oslab2_virtualfs.Vfs.Calls.{open_path, open_entry, open_inode_at}

module _ {World : Type 0} {d : Drivers World} (laws : Laws d) (v : Vfs World) (path rest : List ℕ)
    (flags : ℕ) where
  -- The calls of a file system's methods that precede its `open`: a file that is not there is created.
  pub data Reached (m : Mount) (tail : List ℕ) (inode : ℤ) (s : Sys World) : Type 0 where
    looked_up :
        d.lookup m.fs (stored tail rest) (entered v).sys ≡ ok (inode, s)
        → is_neg inode ≡ false
        → Reached m tail inode s
    created :
        (none_found : ℤ) (s0 : Sys World)
        → d.lookup m.fs (stored tail rest) (entered v).sys ≡ ok (none_found, s0)
        → is_neg none_found ≡ true
        → d.create m.fs (stored tail rest) s0 ≡ ok (inode, s)
        → Reached m tail inode s

  -- What a successful `open` leaves: `f` stands in the descriptor, one more file of the file system is open,
  -- and all else is as after any call.
  pub record Opened (v' : Vfs World) (fs i f : ℕ) : Type 0 where
    pub descriptors : fds v' ≡ set (fds v) i (some f)
    pub counted : (v'.sys.filesystem fs).refcnt ≡ inc (v.sys.filesystem fs).refcnt
    pub idle : Idle v'
    pub lock : v'.lock ≡ v.lock
    pub intr : v'.sys.kmt.intr ≡ v.sys.kmt.intr
    pub this_thread : v'.sys.kmt.this_thread ≡ v.sys.kmt.this_thread
    pub mounts : v'.mounts ≡ v.mounts

  -- The ways `open` ends, with its value and the state it leaves.
  pub data Opening (a : ℤ) (v' : Vfs World) : Type 0 where
    full : a ≡ minus_one → Settled v v' → ((j : ℕ) → get_elem? (fds v) j ≢ some none) → Opening a v'
    unmounted :
        a ≡ minus_one
        → Settled v v'
        → ((k : ℕ) (t : List ℕ) → Matches v.mounts path k t → length t ≤ 0)
        → Opening a v'
    missing :
        a ≡ minus_one
        → Settled v v'
        → (m : Mount) (tail : List ℕ) → Resolves v.mounts path rest m tail
        → (inode : ℤ) (s : Sys World) → Reached m tail inode s
        → is_neg inode ≡ true
        → Opening a v'
    refused :
        a ≡ minus_one
        → Settled v v'
        → (m : Mount) (tail : List ℕ) → Resolves v.mounts path rest m tail
        → (inode : ℤ) (s : Sys World) → Reached m tail inode s
        → (s' : Sys World) → d.open_inode m.fs inode flags s ≡ ok (none, s')
        → Opening a v'
    opened :
        (i f : ℕ)
        → a ≡ pos i
        → FreeSlot (fds v) i
        → (m : Mount) (tail : List ℕ) → Resolves v.mounts path rest m tail
        → (inode : ℤ) (s : Sys World) → Reached m tail inode s
        → (s' : Sys World) → d.open_inode m.fs inode flags s ≡ ok (some f, s')
        → Opened v' m.fs i f
        → Opening a v'

  -- A method that `open` invokes does not return; then `open` ends as the method does.
  pub data Stopped (o : Outcome (ℤ × Vfs World)) : Type 0 where
    in_lookup :
        (m : Mount) (tail : List ℕ)
        → Resolves v.mounts path rest m tail
        → Stops (d.lookup m.fs (stored tail rest) (entered v).sys) o
        → Stopped o
    in_create :
        (m : Mount) (tail : List ℕ)
        → Resolves v.mounts path rest m tail
        → (inode : ℤ) (s : Sys World)
        → d.lookup m.fs (stored tail rest) (entered v).sys ≡ ok (inode, s)
        → is_neg inode ≡ true
        → Stops (d.create m.fs (stored tail rest) s) o
        → Stopped o
    in_open :
        (m : Mount) (tail : List ℕ)
        → Resolves v.mounts path rest m tail
        → (inode : ℤ) (s : Sys World) → Reached m tail inode s
        → is_neg inode ≡ false
        → Stops (d.open_inode m.fs inode flags s) o
        → Stopped o

  abbrev pub Opens : Outcome (ℤ × Vfs World) → Type 0
  Opens o = ((a : ℤ) × (v' : Vfs World) × (o ≡ ok (a, v')) × Opening a v') ⊎ Stopped o

  -- A failure, under the lock.
  fail :
      (v1 : Vfs World) (o : Outcome (ℤ × Vfs World))
      → o ≡ leave minus_one v1
      → (u : Under v v1)
      → (Settled v (with_lock v1 v.lock u.kmt) → Opening minus_one (with_lock v1 v.lock u.kmt))
      → Opens o
  fail v1 o e u opening = inl (
    minus_one,
    with_lock v1 v.lock u.kmt,
    e ∙ leave_lem v v1 minus_one u,
    opening (settled v v1 u),
  )

  -- The state in which a successful `open` unlocks.
  abbrev filled : Vfs World → ℕ → ℕ → ℕ → Vfs World
  filled v1 fs i f = set_fs_refcnt fs (inc (v1.sys.filesystem fs).refcnt) (set_fd i (some f) v1)

  filled-Opened :
      (v1 : Vfs World) (fs i f : ℕ)
      → (u : Under v v1)
      → (leave (pos i) (filled v1 fs i f)
          ≡ ok (pos i, with_lock (filled v1 fs i f) v.lock (with_fd i (some f) u.kmt)))
        × Opened (with_lock (filled v1 fs i f) v.lock (with_fd i (some f) u.kmt)) fs i f
  filled-Opened v1 fs i f u =
      let w = set_fd-Inside v1 v.lock u.kmt i (some f) u.inside in
      let inside : Inside (filled v1 fs i f) v.lock (with_fd i (some f) u.kmt) = record {
        open_lock = w.open_lock;
        balanced = w.balanced;
        thread = w.thread;
        held = w.held;
        kmt = w.kmt;
      } in
      (
        rw (release_lem (filled v1 fs i f) v.lock (with_fd i (some f) u.kmt) inside, ◌>>=◌),
        record {
          descriptors =
              fds-with_fd i (some f) u.kmt
              ∙ ap₂ (λ (t : ℕ → Thread) (q : ℕ). set (t q).fd i (some f)) u.quiet.thread
                  u.quiet.this_thread;
          counted =
              ap (λ (x : Filesystem). x.refcnt) (update_self v1.sys.filesystem fs _)
              ∙ ap inc (u.fs_refcnt fs);
          idle = record { open_lock = w.open_lock; balanced = w.balanced; thread = w.thread };
          lock = refl;
          intr = u.quiet.intr;
          this_thread = u.quiet.this_thread;
          mounts = u.mounts;
        },
      )

  module _ (idle : Idle v) (order : AllStored v.mounts) (p : IsText path) where
    -- From the `open` of the file system on.
    inode_Opens :
        (i : ℕ)
        → FreeSlot (fds v) i
        → (m : Mount) (tail : List ℕ) (r : Resolves v.mounts path rest m tail)
        → (inode : ℤ) (v1 : Vfs World) → Reached m tail inode v1.sys
        → Under v v1
        → Opens (open_inode_at d i m.fs inode flags v1)
    unfolding open_inode_at
    inode_Opens i free m tail r inode v1 reached u = elim (Bool-cases (is_neg inode)) [
      | inl neg ↦
          fail v1 _ (rw (neg, open_inode_at)) u
            (λ s. missing refl s m tail r inode v1.sys reached neg)
      | inr nonneg ↦ elim (ends (d.open_inode m.fs inode flags v1.sys)) [
        | stops stop ↦ inr (
            in_open m tail r inode v1.sys reached nonneg
              (rw (nonneg, open_inode_at) (Stops-invoke (d.open_inode m.fs inode flags) v1 _ stop)))
        | returns (file, s') runs ↦
            let v2 : Vfs World = record v1 { sys = s' } in
            let u2 =
              invoked-Under v v1 s' u (laws.open_inode v1.sys m.fs inode flags file s' runs) in
            elim (Option-cases file) [
              | inl nothing ↦ fail v2 _ (rw (nonneg, open_inode_at, runs, ◌>>=◌, nothing)) u2 (λ s.
                  refused refl s m tail r inode v1.sys reached s'
                    (runs ∙ ap (λ x. ok (x, s')) nothing))
              | inr (f, something) ↦
                  let (leaves, o) = filled-Opened v2 m.fs i f u2 in
                  inl (
                    pos i,
                    with_lock (filled v2 m.fs i f) v.lock (with_fd i (some f) u2.kmt),
                    rw (nonneg, open_inode_at, runs, ◌>>=◌, something) leaves,
                    opened i f refl free m tail r inode v1.sys reached s'
                        (runs ∙ ap (λ x. ok (x, s')) something) o,
                  )
            ]
      ]
    ]

    -- From the answer of `lookup` on.
    found_Opens :
        (i : ℕ)
        → FreeSlot (fds v) i
        → (m : Mount) (tail : List ℕ) → Resolves v.mounts path rest m tail
        → (inode : ℤ) (s : Sys World)
        → d.lookup m.fs (stored tail rest) (entered v).sys ≡ ok (inode, s)
        → Opens (elim (is_neg inode) [
          | true ↦
              invoke (d.create m.fs (stored tail rest)) (record (entered v) { sys = s })
              >>= λ (made, v2). open_inode_at d i m.fs made flags v2
          | false ↦ open_inode_at d i m.fs inode flags (record (entered v) { sys = s })
        ])
    found_Opens i free m tail r inode s looks =
        let v1 : Vfs World = record (entered v) { sys = s } in
        let u1 =
          invoked-Under v (entered v) s (entered-Under v idle)
            (laws.lookup (entered v).sys m.fs (stored tail rest) inode s looks) in
        elim (Bool-cases (is_neg inode)) [
          | inr nonneg ↦
              rw nonneg (inode_Opens i free m tail r inode v1 (looked_up looks nonneg) u1)
          | inl neg ↦ elim (ends (d.create m.fs (stored tail rest) s)) [
            | stops stop ↦ inr (
                in_create m tail r inode s looks neg
                  (rw neg (Stops-invoke (d.create m.fs (stored tail rest)) v1 _ stop)))
            | returns (made, s2) creates ↦
                let u2 =
                  invoked-Under v v1 s2 u1
                    (laws.create s m.fs (stored tail rest) made s2 creates) in
                rw (neg, creates, ◌>>=◌)
                  (inode_Opens i free m tail r made (record v1 { sys = s2 })
                    (created inode s looks neg creates) u2)
          ]
        ]

    -- From the lookup on.
    entry_Opens :
        (i : ℕ)
        → FreeSlot (fds v) i
        → (m : Mount) (tail : List ℕ) (r : Resolves v.mounts path rest m tail)
        → Opens (open_entry d i (pos r.number) (stored path rest) flags (entered v))
    unfolding open_entry
    entry_Opens i free m tail r = elim (ends (d.lookup m.fs (stored tail rest) (entered v).sys)) [
      | stops stop ↦ rw entry (
          inr (
            in_lookup m tail r
              (Stops-invoke (d.lookup m.fs (stored tail rest)) (entered v) _ stop)))
      | returns (inode, s) looks ↦
          rw (entry, looks, ◌>>=◌) (found_Opens i free m tail r inode s looks)
    ]
      where
        body : List ℕ → Outcome (ℤ × Vfs World)
        body relpath = invoke (d.lookup m.fs relpath) (entered v) >>= λ (inode, v1).
            elim (is_neg inode) [
              | true ↦ invoke (d.create m.fs relpath) v1 >>= λ (made, v2).
                  open_inode_at d i m.fs made flags v2
              | false ↦ open_inode_at d i m.fs inode flags v1
            ]

        entry :
            open_entry d i (pos r.number) (stored path rest) flags (entered v)
            ≡ body (stored tail rest)
        entry = rw (open_entry, r.stands, defined, ◌>>=◌, r.skipped, ◌>>=◌) (ap body r.relative)

    slot_Opens :
        (i : ℕ)
        → FreeSlot (fds v) i
        → Opens (
            find_fs (stored path rest) v.mounts >>= λ fsid.
            open_entry d i fsid (stored path rest) flags (entered v))
    unfolding open_entry
    slot_Opens i free = elim (resolve v.mounts path rest order p) [
      | inl (m, tail, r) ↦ rw (r.found, ◌>>=◌) (entry_Opens i free m tail r)
      | inr (none_found, most) ↦
          rw (none_found, ◌>>=◌)
            (fail (entered v) _ refl (entered-Under v idle) (λ s. unmounted refl s most))
    ]

    -- Over methods that keep the laws and mount paths that are strings, when no other call is under way (`Idle`),
    -- `open` of a string either returns, with the lock free, and the interrupts and the mounts as
    -- they were, or halts or is undefined where a method of the file system is. It gives the lowest
    -- free descriptor, in which the file now stands that the file system with the longest matching mount
    -- path opened for the rest of the path, after creating it if it was not there; that file system has one
    -- more file open. It gives -1, and changes no descriptor and no count, if no descriptor is free, no mount path
    -- matches, the file is neither found nor created, or the file system does not open it.
    pub open_path-Opens : Opens (open_path d (stored path rest) flags v)
    unfolding open_path
    open_path-Opens = elim (free_fd_lem (fds v) 0) [
      | inl (runs, used) ↦
          rw (acquire_lem v idle, ◌>>=◌, ap (λ l. free_fd l 0) (fds-entered v) ∙ runs)
            (fail (entered v) _ refl (entered-Under v idle) (λ s. full refl s used))
      | inr (i, runs, free) ↦
          let plain : 0 + i ≡ i = omega arith in
          rw
            (
              acquire_lem v idle,
              ◌>>=◌,
              ap (λ l. free_fd l 0) (fds-entered v) ∙ runs ∙ ap some plain,
            )
            (slot_Opens i free)
    ]
