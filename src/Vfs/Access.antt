-- ===== src/Vfs/Access.antt =====
-- `access` of src/vfs.c: the answer of the file system that the path leads to.
use oslab2_virtualfs.Base.{
  ℕ, ◌≡◌, ◌≤◌, ◌<◌, refl, ◌∙◌, ◌⊎◌, inl, inr, true, false, Bool-cases, List, Outcome, ok, ◌>>=◌,
  defined, ℤ, pos, minus_one, is_neg, length, le→leb, lt→leb_false, arith,
}
use native.Mathlib.Decide.{dec_lt}
use oslab2_virtualfs.Libc.Str.Laws.{IsText, stored, strlen_lem}
use oslab2_virtualfs.Vfs.Methods.{Sys, Drivers}
use oslab2_virtualfs.Vfs.Locking.{Idle, entered, with_lock, acquire_lem}
use oslab2_virtualfs.Vfs.Laws.{Laws, Stops, ends, returns, stops}
use oslab2_virtualfs.Vfs.Steps.{
  Under, Settled, entered-Under, invoked-Under, leave_lem, settled, Stops-invoke,
}
use oslab2_virtualfs.Vfs.Match.{Matches, AllStored}
use oslab2_virtualfs.Vfs.Resolve.{Resolves, resolve}
use oslab2_virtualfs.Vfs.{Vfs, Mount, invoke, leave, find_fs}
use oslab2_virtualfs.Vfs.Calls.{access, access_entry}

module _ {World : Type 0} {d : Drivers World} (laws : Laws d) (v : Vfs World) (idle : Idle v)
    (path rest : List ℕ) (mode : ℕ) where
  -- Where the value of `access` comes from, once the lock is taken.
  pub data Answer (a : ℤ) : Type 0 where
    unmounted :
        a ≡ minus_one → ((k : ℕ) (t : List ℕ) → Matches v.mounts path k t → length t ≤ 0) → Answer a
    missing :
        a ≡ minus_one
        → (m : Mount) (tail : List ℕ) → Resolves v.mounts path rest m tail
        → (inode : ℤ) (s : Sys World)
        → d.lookup m.fs (stored tail rest) (entered v).sys ≡ ok (inode, s)
        → is_neg inode ≡ true
        → Answer a
    answered :
        (m : Mount) (tail : List ℕ)
        → Resolves v.mounts path rest m tail
        → (inode : ℤ) (s : Sys World)
        → d.lookup m.fs (stored tail rest) (entered v).sys ≡ ok (inode, s)
        → is_neg inode ≡ false
        → (s' : Sys World) → d.access m.fs inode mode s ≡ ok (a, s')
        → Answer a

  -- A method that `access` invokes does not return; then `access` ends as the method does.
  pub data Stopped (o : Outcome (ℤ × Vfs World)) : Type 0 where
    in_lookup :
        (m : Mount) (tail : List ℕ)
        → Resolves v.mounts path rest m tail
        → Stops (d.lookup m.fs (stored tail rest) (entered v).sys) o
        → Stopped o
    in_access :
        (m : Mount) (tail : List ℕ)
        → Resolves v.mounts path rest m tail
        → (inode : ℤ) (s : Sys World)
        → d.lookup m.fs (stored tail rest) (entered v).sys ≡ ok (inode, s)
        → is_neg inode ≡ false
        → Stops (d.access m.fs inode mode s) o
        → Stopped o

  -- What `access` comes to.
  abbrev pub Accessed : Outcome (ℤ × Vfs World) → Type 0
  Accessed o = ((a : ℤ) × (v' : Vfs World) × (o ≡ ok (a, v')) × Settled v v' × Answer a) ⊎ Stopped o

  finish :
      (a : ℤ) (v1 : Vfs World) (o : Outcome (ℤ × Vfs World))
      → o ≡ leave a v1
      → Under v v1
      → Answer a
      → Accessed o
  finish a v1 o e u answer =
      inl (a, with_lock v1 v.lock u.kmt, e ∙ leave_lem v v1 a u, settled v v1 u, answer)

  -- From the answer of `lookup` on.
  found_Accessed :
      (m : Mount) (tail : List ℕ)
      → Resolves v.mounts path rest m tail
      → (inode : ℤ) (s : Sys World)
      → d.lookup m.fs (stored tail rest) (entered v).sys ≡ ok (inode, s)
      → Accessed (elim (is_neg inode) [
        | true ↦ leave minus_one (record (entered v) { sys = s })
        | false ↦
            invoke (d.access m.fs inode mode) (record (entered v) { sys = s }) >>= λ (ret, v2).
            leave ret v2
      ])
  found_Accessed m tail r inode s looks =
      let v1 : Vfs World = record (entered v) { sys = s } in
      let u =
        invoked-Under v (entered v) s (entered-Under v idle)
          (laws.lookup (entered v).sys m.fs (stored tail rest) inode s looks) in
      elim (Bool-cases (is_neg inode)) [
        | inl neg ↦ finish minus_one v1 _ (rw neg refl) u (missing refl m tail r inode s looks neg)
        | inr nonneg ↦ elim (ends (d.access m.fs inode mode s)) [
          | stops stop ↦ inr (
              in_access m tail r inode s looks nonneg
                (rw nonneg (Stops-invoke (d.access m.fs inode mode) v1 _ stop)))
          | returns (a, s') answers ↦
              finish a (record v1 { sys = s' }) _ (rw (nonneg, answers, ◌>>=◌) refl)
                (invoked-Under v v1 s' u (laws.access s m.fs inode mode a s' answers))
                (answered m tail r inode s looks nonneg s' answers)
        ]
      ]

  entry_Accessed :
      (m : Mount) (tail : List ℕ) (r : Resolves v.mounts path rest m tail)
      → Accessed (access_entry d (pos r.number) (stored path rest) mode (entered v))
  unfolding access_entry
  entry_Accessed m tail r = elim (ends (d.lookup m.fs (stored tail rest) (entered v).sys)) [
    | stops stop ↦ rw entry (
        inr
          (in_lookup m tail r (Stops-invoke (d.lookup m.fs (stored tail rest)) (entered v) _ stop)))
    | returns (inode, s) looks ↦ rw (entry, looks, ◌>>=◌) (found_Accessed m tail r inode s looks)
  ]
    where
      entry : access_entry d (pos r.number) (stored path rest) mode (entered v) ≡ (
          invoke (d.lookup m.fs (stored tail rest)) (entered v) >>= λ (inode, v1).
          elim (is_neg inode) [
            | true ↦ leave minus_one v1
            | false ↦ invoke (d.access m.fs inode mode) v1 >>= λ (ret, v2). leave ret v2
          ])
      entry = rw (access_entry, r.stands, defined, ◌>>=◌, r.skipped, ◌>>=◌, r.relative)

  looked_up :
      AllStored v.mounts
      → IsText path
      → Accessed (
          find_fs (stored path rest) v.mounts >>= λ fsid.
          access_entry d fsid (stored path rest) mode (entered v))
  unfolding access_entry
  looked_up order p = elim (resolve v.mounts path rest order p) [
    | inl (m, tail, r) ↦ rw (r.found, ◌>>=◌) (entry_Accessed m tail r)
    | inr (none_found, most) ↦
        rw (none_found, ◌>>=◌)
          (finish minus_one (entered v) _ refl (entered-Under v idle) (unmounted refl most))
  ]

  -- Over methods that keep the laws and mount paths that are strings, when no other call is under way (`Idle`),
  -- `access` of a string gives -1 for a path of 128 bytes or more. Otherwise it asks the file system with
  -- the longest mount path that the path begins with about the rest of the path, and gives that file system's
  -- answer, or -1 if there is none or it knows no such file; it halts or is undefined where
  -- a method of that file system is. When it returns, the lock, the interrupts, the threads and
  -- the mounts are as they were.
  pub access_lem :
      AllStored v.mounts
      → IsText path
      → ((128 ≤ length path) × (access d (stored path rest) mode v ≡ ok (minus_one, v)))
        ⊎ ((length path < 128) × Accessed (access d (stored path rest) mode v))
  unfolding access
  access_lem order p = elim (dec_lt (length path) 128) [
    | no long ↦
        inl
          (omega arith, rw (strlen_lem path rest p, ◌>>=◌, le→leb 128 (length path) (omega arith)))
    | yes short ↦ inr (
      short,
      rw
          (
            strlen_lem path rest p,
            ◌>>=◌,
            lt→leb_false (length path) 128 short,
            acquire_lem v idle,
            ◌>>=◌,
          )
          (looked_up order p),
    )
  ]
