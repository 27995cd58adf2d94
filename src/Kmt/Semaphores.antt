-- ===== src/Kmt/Semaphores.antt =====
-- kmt_sem_wait and kmt_sem_signal of src/kmt.c, as threads run them in turn.
use oslab2_virtualfs.Base.{
  ℕ, leb, ◌-◌, ◌^◌, ◌>>=◌, undefined, zero, suc, ◌+◌, ◌≡◌, ◌≢◌, refl, sym, ap, ◌∙◌, Bool, true,
  false, not, if◌then◌else◌, ok, ok_injective, ℤ, pos, inc, dec, is_zero, arith,
}
use mathlib.Core.Path.{subst}
use oslab2_virtualfs.Kmt.{Kmt}
use oslab2_virtualfs.Kmt.Spin.{
  Sem, sem_try, sem_signal, inc_int, with_value, IsSem, Balanced, sem_lem,
}

-- What a thread does with the semaphore: a pass of sem_wait that takes one, a pass that finds nothing and yields,
-- and sem_signal, where it is defined. Which thread runs, and on what state of the processor, is open.
pub data Step : Sem → ℕ → ℕ → Sem → Type 0 where
  takes :
      {sem sem' : Sem} (s s' : Kmt)
      → Balanced s
      → s.this_thread ≢ 0
      → sem_try sem s ≡ ok (true, sem', s')
      → Step sem 1 0 sem'
  waits :
      {sem sem' : Sem} (s s' : Kmt)
      → Balanced s
      → s.this_thread ≢ 0
      → sem_try sem s ≡ ok (false, sem', s')
      → Step sem 0 0 sem'
  signals :
      {sem sem' : Sem} (s s' : Kmt)
      → Balanced s
      → s.this_thread ≢ 0
      → sem_signal sem s ≡ ok (sem', s')
      → Step sem 0 1 sem'

-- Steps in any order, with how many have taken one and how many have signalled.
pub data Runs : Sem → ℕ → ℕ → Sem → Type 0 where
  at_start : {sem : Sem} → Runs sem 0 0 sem
  then_step :
      {sem sem' sem'' : Sem} {taken signalled t g : ℕ}
      → Runs sem taken signalled sem'
      → Step sem' t g sem''
      → Runs sem (taken + t) (signalled + g) sem''

-- A step from a semaphore of value `available` keeps it a semaphore, and its account.
abbrev pub Kept : Sem → ℕ → ℕ → ℕ → Sem → Type 0
Kept sem available t g sem' = (i : IsSem sem') × (t + i.available ≡ available + g)

revalue :
    (sem : Sem) (available t g next : ℕ)
    → IsSem sem
    → t + next ≡ available + g
    → Kept sem available t g (record sem { value = pos next })
revalue sem available t g next i sums = (
  record { initialised = i.initialised; open_lock = i.open_lock; available = next; counts = refl },
  sums,
)

-- A pass of sem_wait by the value it finds.
try-Kept :
    (sem : Sem) (i : IsSem sem) (took : Bool) (sem' : Sem)
    → took ≡ not (is_zero sem.value)
    → sem' ≡ record sem { value = if is_zero sem.value then sem.value else dec sem.value }
    → Kept sem i.available (if took then 1 else 0) 0 sem'
try-Kept sem i took sem' took_is sem_is = by_count i.available i.counts
  where
    as_found :
        (n : ℕ) (v : ℤ)
        → sem.value ≡ v
        → Kept sem n
            (if not (is_zero v) then 1 else 0)
            0
            (record sem { value = if is_zero v then v else dec v })
        → Kept sem n (if took then 1 else 0) 0 sem'
    as_found n v e kept =
        subst (λ b. Kept sem n (if b then 1 else 0) 0 sem')
          (sym (took_is ∙ ap (λ v. not (is_zero v)) e))
          (subst (Kept sem n (if not (is_zero v) then 1 else 0) 0)
            (sym (sem_is ∙ ap (λ v. record sem { value = if is_zero v then v else dec v }) e)) kept)

    by_count : (n : ℕ) → sem.value ≡ pos n → Kept sem n (if took then 1 else 0) 0 sem'
    by_count zero e = as_found zero (pos 0) e (revalue sem 0 0 0 0 i (omega arith))
    by_count (suc n) e =
        as_found (suc n) (pos (suc n)) e (revalue sem (suc n) 1 0 n i (omega arith))

-- A signal that is defined, by the value it finds.
signal-Kept :
    (sem : Sem) (i : IsSem sem) (s : Kmt) (sem' : Sem) (s' : Kmt)
    → (inc_int sem.value >>= with_value sem s) ≡ ok (sem', s')
    → Kept sem i.available 0 1 sem'
signal-Kept sem i s sem' s' runs =
    by_room _ refl (sym (ap (λ v. inc_int v >>= with_value sem s) i.counts) ∙ runs)
  where
    by_room :
        (full : Bool)
        → leb (2 ^ 31 - 1) i.available ≡ full
        → ((if full then undefined else ok (inc (pos i.available))) >>= with_value sem s)
          ≡ ok (sem', s')
        → Kept sem i.available 0 1 sem'
    by_room true e runs = cc
    by_room false e runs =
        subst (Kept sem i.available 0 1) (ap (λ r. r.0) (ok_injective runs))
          (revalue sem i.available 0 1 (suc i.available) i (omega arith))

step-Kept :
    {sem sem' : Sem} {t g : ℕ} (i : IsSem sem) → Step sem t g sem' → Kept sem i.available t g sem'
step-Kept {sem} {sem'} i (takes s s' b t runs) =
    let e = ok_injective (sym runs ∙ (sem_lem sem s i b t).1) in
    try-Kept sem i true sem' (ap (λ r. r.0) e) (ap (λ r. r.1) e)
step-Kept {sem} {sem'} i (waits s s' b t runs) =
    let e = ok_injective (sym runs ∙ (sem_lem sem s i b t).1) in
    try-Kept sem i false sem' (ap (λ r. r.0) e) (ap (λ r. r.1) e)
step-Kept {sem} {sem'} i (signals s s' b t runs) =
    signal-Kept sem i s sem' s' (sym (sem_lem sem s i b t).0 ∙ runs)

-- However threads, with their interrupts and counts in balance, wait and signal in turn, as long as no signal
-- overflows the value, an initialised semaphore with a free lock and a value that is not negative stays one, and what waits have taken and what is
-- left make up what there was at the start and what was signalled.
pub runs-Kept :
    {sem sem' : Sem} {taken signalled : ℕ} (i : IsSem sem)
    → Runs sem taken signalled sem'
    → Kept sem i.available taken signalled sem'
runs-Kept i at_start = (i, omega arith)
runs-Kept i (then_step earlier step) =
    let (j, before) = runs-Kept i earlier in
    let (k, after) = step-Kept j step in (k, omega (arith, before, after))
