-- ===== src/Vfs/Laws.antt =====
-- What src/vfs.c relies on: a method of include/kernel.h that returns has left the processor, the threads and the
-- numbers of open files alone. A method may also halt, or be undefined; then so is the call that invokes it.
use oslab2_virtualfs.Base.{
  ok_injective, ℕ, ◌≡◌, List, Outcome, ok, halted, undefined, unfinished, ◌>>=◌, ℤ, refl,
}
use mathlib.Core.Path.{subst}
use oslab2_virtualfs.Vfs.Methods.{Sys, Drivers, File}
use oslab2_virtualfs.Pmm.{Pmm}
use oslab2_virtualfs.Vfs.Locking.{Quiet}

-- The code `m` does not return, and `o` ends as it does.
unfoldable pub Stops : {A B : Type 0} → Outcome A → Outcome B → Type 0
Stops (ok a) o = ⊥
Stops (halted c) o = o ≡ halted c
Stops undefined o = o ≡ undefined
Stops unfinished o = o ≡ unfinished

-- What comes after code that does not return is not run.
pub Stops-bind :
    {A B C : Type 0} (m : Outcome A) (o : Outcome B) (f : B → Outcome C)
    → Stops m o
    → Stops m (o >>= f)
unfolding Stops
Stops-bind (ok a) o f e = absurd e
Stops-bind (halted c) o f e = rw e refl
Stops-bind undefined o f e = rw e refl
Stops-bind unfinished o f e = rw e refl

-- Code returns, or it stops.
pub data Ends {A : Type 0} (m : Outcome A) : Type 0 where
  returns : (a : A) → m ≡ ok a → Ends m
  stops : Stops m m → Ends m

pub ends : {A : Type 0} (m : Outcome A) → Ends m
unfolding Stops
ends (ok a) = returns a refl
ends (halted c) = stops refl
ends undefined = stops refl
ends unfinished = stops refl

module _ {World : Type 0} where
  pub record Kept (s s' : Sys World) : Type 0 where
    pub quiet : Quiet s.kmt s'.kmt
    pub fs_refcnt : (p : ℕ) → (s'.filesystem p).refcnt ≡ (s.filesystem p).refcnt

  -- If the method returns, K relates the states before and after it.
  abbrev pub Keeps :
      {A : Type 0} → (Sys World → Sys World → Type 0) → Sys World → Outcome (A × Sys World) → Type 0
  Keeps {A} K s o = (a : A) (s' : Sys World) → o ≡ ok (a, s') → K s s'

  module _ {A : Type 0} (K : Sys World → Sys World → Type 0) (s : Sys World) where
    pub Keeps-ok : (a : A) (s' : Sys World) → K s s' → Keeps K s (ok (a, s'))
    Keeps-ok a s' k b s'' e = subst (λ r. K s r.1) (ok_injective e) k

    pub Keeps-bind :
        {R : Type 0} (m : Outcome R) (f : R → Outcome (A × Sys World))
        → ((r : R) → Keeps K s (f r))
        → Keeps K s (m >>= f)
    Keeps-bind (ok r) f k a s' e = k r a s' e
    Keeps-bind (halted c) f k a s' e = cc
    Keeps-bind undefined f k a s' e = cc
    Keeps-bind unfinished f k a s' e = cc

  -- A change of the pool, the files and what the implementations keep.
  pub changed_Kept :
      (s : Sys World) (pmm : Pmm) (file : ℕ → File) (world : World)
      → Kept s (record s { kmt = record s.kmt { pmm = pmm }; file = file; world = world })
  changed_Kept s pmm file world = record {
    quiet = record { intr = refl; this_thread = refl; thread = refl };
    fs_refcnt = λ p. refl;
  }

  pub record Laws (d : Drivers World) : Type 0 where
    pub lookup : (s : Sys World) (p : ℕ) (path : List ℕ) → Keeps Kept s (d.lookup p path s)
    pub create : (s : Sys World) (p : ℕ) (path : List ℕ) → Keeps Kept s (d.create p path s)
    pub access :
        (s : Sys World) (p : ℕ) (inode : ℤ) (mode : ℕ) → Keeps Kept s (d.access p inode mode s)
    pub open_inode :
        (s : Sys World) (p : ℕ) (inode : ℤ) (flags : ℕ)
        → Keeps Kept s (d.open_inode p inode flags s)
    pub read : (s : Sys World) (f : ℕ) (buf : List ℕ) (n : ℕ) → Keeps Kept s (d.read f buf n s)
    pub write : (s : Sys World) (f : ℕ) (buf : List ℕ) (n : ℕ) → Keeps Kept s (d.write f buf n s)
    pub lseek :
        (s : Sys World) (f : ℕ) (offset : ℤ) (whence : ℕ) → Keeps Kept s (d.lseek f offset whence s)
    pub delete_file : (s : Sys World) (f : ℕ) → Keeps Kept s (d.delete_file f s)
    pub delete_filesystem :
        (s : Sys World) (p : ℕ) → Keeps (λ s s'. Quiet s.kmt s'.kmt) s (d.delete_filesystem p s)
