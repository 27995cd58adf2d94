-- ===== src/Vfs/Io.antt =====
-- `read`, `write` and `lseek` of src/vfs.c: the method of the descriptor's file, under the lock.
use oslab2_virtualfs.Base.{ℕ, ◌≡◌, refl, ap, ◌∙◌, inl, inr, List, ok, ◌>>=◌, ℤ, pos, negsuc, inc}
use oslab2_virtualfs.Kmt.{Thread, update_self}
use oslab2_virtualfs.Kmt.Spin.{inc_intr}
use oslab2_virtualfs.Vfs.Methods.{Drivers, Method}
use oslab2_virtualfs.Vfs.Locking.{Idle, entered, with_lock, acquire_lem, release_lem}
use oslab2_virtualfs.Vfs.Laws.{Kept, Laws, Keeps, ends, returns, stops}
use oslab2_virtualfs.Vfs.Steps.{Passes, entered-Under, invoked-Under, settled, Stops-invoke}
use oslab2_virtualfs.Vfs.{Vfs, acquire, release, invoke, file_at, fds}
use oslab2_virtualfs.Vfs.Calls.{read, write, lseek}

-- Taking the lock leaves the descriptors alone.
pub fds-entered : {World : Type 0} (v : Vfs World) → fds (entered v) ≡ fds v
unfolding inc_intr
fds-entered v =
    let p = v.sys.kmt.this_thread in
    let t : Thread = record (v.sys.kmt.thread p) { intr_cnt = inc (v.sys.kmt.thread p).intr_cnt } in
    ap (λ (t : Thread). t.fd) (update_self v.sys.kmt.thread p t)

pub file_at-entered :
    {World : Type 0} (fd : ℤ) (v : Vfs World) → file_at fd (entered v) ≡ file_at fd v
unfolding file_at
file_at-entered (negsuc n) v = refl
file_at-entered (pos i) v = rw (fds-entered v)

module _ {World : Type 0} {d : Drivers World} (laws : Laws d) (v : Vfs World) (idle : Idle v)
    (fd : ℤ) (f : ℕ) (here : file_at fd v ≡ ok f) where
  -- A method on the descriptor's file, from `LOCK` to `UNLOCK`.
  locked_Passes :
      {A : Type 0} (m : ℕ → Method World A)
      → Keeps Kept (entered v).sys (m f (entered v).sys)
      → Passes v (m f) (
          acquire v >>= λ v1.
          file_at fd v1 >>= λ g. invoke (m g) v1 >>= λ (ret, v2). release v2 >>= λ v3. ok (ret, v3))
  locked_Passes {A} m keeps = elim (ends (m f (entered v).sys)) [
    | stops stop ↦
        rw (acquire_lem v idle, ◌>>=◌, file_at-entered fd v ∙ here, ◌>>=◌)
          (inr (Stops-invoke (m f) (entered v) _ stop))
    | returns (a, s) runs ↦
        let u = invoked-Under v (entered v) s (entered-Under v idle) (keeps a s runs) in
        let v2 : Vfs World = record (entered v) { sys = s } in
        inl (
          a,
          s,
          with_lock v2 v.lock u.kmt,
          runs,
          rw (
            acquire_lem v idle,
            ◌>>=◌,
            file_at-entered fd v ∙ here,
            ◌>>=◌,
            runs,
            ◌>>=◌,
            release_lem v2 v.lock u.kmt u.inside,
          ),
          refl,
          settled v v2 u,
        )
  ]

  -- Over methods that keep the laws, `write` on an open descriptor, when no other call is under way (`Idle`), returns what the file's `write` returns, and leaves
  -- the lock, the interrupts, the threads and the mounts as they were; where the file's `write` halts or is
  -- undefined, so is the call.
  pub write-Passes : (buf : List ℕ) (n : ℕ) → Passes v (d.write f buf n) (write d fd buf n v)
  unfolding write
  write-Passes buf n = locked_Passes (λ g. d.write g buf n) (laws.write (entered v).sys f buf n)

  -- `lseek` does the same with the file's `lseek`.
  pub lseek-Passes :
      (offset : ℤ) (whence : ℕ) → Passes v (d.lseek f offset whence) (lseek d fd offset whence v)
  unfolding lseek
  lseek-Passes offset whence =
      locked_Passes (λ g. d.lseek g offset whence) (laws.lseek (entered v).sys f offset whence)

  -- `read` does the same with the file's `read`, and gives its buffer.
  pub read-Passes : (buf : List ℕ) (n : ℕ) → Passes v (d.read f buf n) (read d fd buf n v)
  unfolding read
  read-Passes buf n = locked_Passes (λ g. d.read g buf n) (laws.read (entered v).sys f buf n)
