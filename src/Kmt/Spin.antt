-- ===== src/Kmt/Spin.antt =====
-- The spinlocks and semaphores of src/kmt.c, and the interrupt counts of include/os.h.
use oslab2_virtualfs.Base.{
  ℕ, ◌-◌, ◌^◌, leb, undefined, ◌≡◌, ◌≢◌, refl, sym, ap, ap₂, eq→==, ne→==, ◌∙◌, dec-inc, arith,
  Bool, ◌||◌, true, false, not, List, [], ◌∷◌, Option, none, some, ◌==◌, if◌then◌else◌, set,
  Outcome, ok, halted, unfinished, ◌>>=◌, ◌>>◌, assert, ℤ, pos, negsuc, inc, dec, is_zero, is_neg,
}
use oslab2_virtualfs.Libc.Str.{strncpy}
use oslab2_virtualfs.Kmt.{Kmt, Thread, set_thread, update, update_self, update-update, update_same}

-- `struct spinlock`; `holder` 0 is NULL.
pub record Spinlock : Type 0 where
  pub magic : ℕ
  pub name : List ℕ
  pub holder : ℕ

-- `struct semaphore`; `value` is an int.
pub record Sem : Type 0 where
  pub magic : ℕ
  pub name : List ℕ
  pub lock : Spinlock
  pub value : ℤ

abbrev pub spin_magic : ℕ
spin_magic = 0x8732f8a1

abbrev pub sem_magic : ℕ
sem_magic = 0xb128c183

-- `sizeof lk->name`
abbrev pub name_size : ℕ
name_size = 16

-- "(anon)" in memory
abbrev pub anon : List ℕ
anon = b'(' ∷ b'a' ∷ b'n' ∷ b'o' ∷ b'n' ∷ b')' ∷ 0 ∷ []

abbrev pub or_anon : Option (List ℕ) → List ℕ
or_anon none = anon
or_anon (some name) = name

-- `inc_intr` and `dec_intr`
unfoldable pub inc_intr : ℕ → Kmt → Kmt
inc_intr p s =
    set_thread p (record (s.thread p) { intr_cnt = inc (s.thread p).intr_cnt })
      (record s { intr = false })

unfoldable pub dec_intr : ℕ → Kmt → Kmt
dec_intr p s =
    let cnt = dec (s.thread p).intr_cnt in
    let s1 = set_thread p (record (s.thread p) { intr_cnt = cnt }) s in
    if is_zero cnt then record s1 { intr = true } else s1

-- `kmt_spin_init`: the interrupt flag is saved and restored.
unfoldable pub spin_init : Spinlock → Option (List ℕ) → Kmt → Outcome (Spinlock × Kmt)
spin_init lk name s = do
  let last_intr = s.intr
  let s1 = record s { intr = false }
  copied ← strncpy name_size lk.name (or_anon name)
  let lk1 : Spinlock = record { magic = spin_magic; name = set copied 15 0; holder = 0 }
  ok (lk1, record s1 { intr = last_intr })

unfoldable pub spin_lock : Spinlock → Kmt → Outcome (Spinlock × Kmt)
spin_lock lk s = do
  let s1 = inc_intr s.this_thread s
  assert (lk.magic == spin_magic)
  if lk.holder == 0 then ok (record lk { holder = s1.this_thread }, s1) else halted 1

unfoldable pub spin_unlock : Spinlock → Kmt → Outcome (Spinlock × Kmt)
spin_unlock lk s = do
  assert (lk.magic == spin_magic)
  if lk.holder == 0 then halted 1 else ok (record lk { holder = 0 }, dec_intr s.this_thread s)

-- `kmt_sem_init`: a negative value is a panic.
pub sem_init : Sem → Option (List ℕ) → ℤ → Kmt → Outcome (Sem × Kmt)
sem_init sem name value s = do
  (lock, s1) ← spin_init sem.lock name s
  let last_intr = s1.intr
  copied ← strncpy name_size sem.name (or_anon name)
  let sem1 : Sem = record { magic = sem_magic; name = set copied 15 0; lock = lock; value = value }
  if is_neg value then halted 1 else ok (sem1, record s1 { intr = last_intr })

-- `sem->value <= 0`
abbrev pub exhausted : ℤ → Bool
exhausted z = is_neg z || is_zero z

-- One pass of `kmt_sem_wait` from its `spin_lock` on: `false` is a pass that finds the value exhausted,
-- unlocks and comes to `_yield()`, after which the next pass begins.
pub sem_try : Sem → Kmt → Outcome (Bool × Sem × Kmt)
sem_try sem s = do
  (lock, s1) ← spin_lock sem.lock s
  assert (sem.magic == sem_magic)
  let taken = not (exhausted sem.value)
  (unlocked, s2) ← spin_unlock lock s1
  ok (taken, record sem { lock = unlocked; value = if taken then dec sem.value else sem.value }, s2)

-- `value++` on an int: at INT_MAX it is undefined.
abbrev pub inc_int : ℤ → Outcome ℤ
inc_int (pos n) = if leb (2 ^ 31 - 1) n then undefined else ok (inc (pos n))
inc_int (negsuc n) = ok (inc (negsuc n))

pub sem_signal : Sem → Kmt → Outcome (Sem × Kmt)
sem_signal sem s = do
  (lock, s1) ← spin_lock sem.lock s
  assert (sem.magic == sem_magic)
  value ← inc_int sem.value
  (unlocked, s2) ← spin_unlock lock s1
  ok (record sem { lock = unlocked; value = value }, s2)

-- The lock is initialised and free.
pub record IsOpen (lk : Spinlock) : Type 0 where
  pub initialised : lk.magic ≡ spin_magic
  pub unheld : lk.holder ≡ 0

-- Interrupts are on exactly while the running thread holds no lock, and it holds no negative number.
pub record Balanced (s : Kmt) : Type 0 where
  pub counted : (n : ℕ) × ((s.thread s.this_thread).intr_cnt ≡ pos n)
  pub flag : s.intr ≡ is_zero (s.thread s.this_thread).intr_cnt

-- The state inside the critical section.
abbrev pub locked_state : Kmt → Kmt
locked_state s = inc_intr s.this_thread s

abbrev pub taken_by : Kmt → Spinlock → Spinlock
taken_by s lk = record lk { holder = s.this_thread }

-- `spin_lock` takes a free lock, and turns interrupts off.
pub spin_lock_lem :
    (lk : Spinlock) (s : Kmt) → IsOpen lk → spin_lock lk s ≡ ok (taken_by s lk, locked_state s)
unfolding spin_lock inc_intr
spin_lock_lem lk s o = ground arith

-- A held lock is a panic, for its holder and for every other thread.
pub spin_lock_held :
    (lk : Spinlock) (s : Kmt) → lk.magic ≡ spin_magic → lk.holder ≢ 0 → spin_lock lk s ≡ halted 1
unfolding spin_lock
spin_lock_held lk s m h = ground arith

-- Releasing a lock that is not held is a panic.
pub spin_unlock_free : (lk : Spinlock) (s : Kmt) → IsOpen lk → spin_unlock lk s ≡ halted 1
unfolding spin_unlock
spin_unlock_free lk s o = ground arith

-- The state with the count and the flag of the running thread given.
abbrev with_count : Kmt → ℕ → ℤ → Bool → Kmt
with_count s p cnt flag = record s {
  intr = flag;
  thread = update s.thread p (record (s.thread p) { intr_cnt = cnt });
}

dec_intr-with_count :
    (s : Kmt) (p : ℕ) (cnt : ℤ)
    → dec_intr p (with_count s p (inc cnt) false) ≡ with_count s p cnt (is_zero cnt)
unfolding dec_intr
dec_intr-with_count s p cnt =
    rw
      (
        update_self s.thread p (counting (inc cnt)),
        dec-inc cnt,
        update-update s.thread p (counting (inc cnt)) (counting cnt),
      )
      (by_flag (is_zero cnt))
  where
    counting : ℤ → Thread
    counting c = record (s.thread p) { intr_cnt = c }

    by_flag :
        (b : Bool)
        → (if b then with_count s p cnt true else with_count s p cnt false) ≡ with_count s p cnt b
    by_flag true = refl
    by_flag false = refl

with_count_same :
    (s : Kmt)
    → Balanced s
    → with_count s s.this_thread
        (s.thread s.this_thread).intr_cnt
        (is_zero (s.thread s.this_thread).intr_cnt)
      ≡ s
with_count_same s b =
    ap₂ (λ flag thread. record s { intr = flag; thread = thread }) (sym b.flag)
      (update_same s.thread s.this_thread)

pub dec_intr-inc_intr :
    (s : Kmt) → Balanced s → dec_intr s.this_thread (inc_intr s.this_thread s) ≡ s
unfolding inc_intr
dec_intr-inc_intr s b =
    dec_intr-with_count s s.this_thread (s.thread s.this_thread).intr_cnt ∙ with_count_same s b

pub spin_unlock_lem :
    (lk : Spinlock) (s : Kmt)
    → IsOpen lk
    → Balanced s
    → s.this_thread ≢ 0
    → spin_unlock (taken_by s lk) (locked_state s) ≡ ok (lk, s)
unfolding spin_unlock inc_intr
spin_unlock_lem lk s o b t =
    rw (eq→== _ _ o.initialised, ◌>>=◌, ne→== s.this_thread 0 t)
      (ap₂ (λ l s'. ok (l, s')) unheld (dec_intr-inc_intr s b))
  where
    unheld : record lk { holder = 0 } ≡ lk
    unheld = ap (λ h. record lk { holder = h }) (sym o.unheld)

-- When `this_thread` is not NULL, and the interrupt flag and its count are in balance, taking an initialised
-- lock that is free and releasing it puts everything back as it was: the lock, the interrupt flag
-- and the count of the running thread.
pub spin_unlock-spin_lock :
    (lk : Spinlock) (s : Kmt)
    → IsOpen lk
    → Balanced s
    → s.this_thread ≢ 0
    → (spin_lock lk s >>= λ (lk', s'). spin_unlock lk' s') ≡ ok (lk, s)
spin_unlock-spin_lock lk s o b t = rw (spin_lock_lem lk s o) (spin_unlock_lem lk s o b t)

-- A semaphore that is initialised, with its lock free and its value not negative.
pub record IsSem (sem : Sem) : Type 0 where
  pub initialised : sem.magic ≡ sem_magic
  pub open_lock : IsOpen sem.lock
  pub available : ℕ
  pub counts : sem.value ≡ pos available

-- The semaphore with a new value, in a state.
abbrev pub with_value : Sem → Kmt → ℤ → Outcome (Sem × Kmt)
with_value sem s value = ok (record sem { value = value }, s)

-- When `this_thread` is not NULL, and the interrupt flag and its count are in balance, on an initialised semaphore
-- with a free lock and a value that is not negative, a pass of `sem_wait` takes one from a value that is not exhausted, and otherwise leaves all as it was;
-- `sem_signal` adds one, and is undefined at INT_MAX. Otherwise both give the lock and the interrupts back, and
-- do not panic.
pub sem_lem :
    (sem : Sem) (s : Kmt)
    → IsSem sem
    → Balanced s
    → s.this_thread ≢ 0
    → (sem_signal sem s ≡ (inc_int sem.value >>= with_value sem s))
      × (sem_try sem s
          ≡ ok (
            not (is_zero sem.value),
            record sem { value = if is_zero sem.value then sem.value else dec sem.value },
            s,
          ))
unfolding sem_signal sem_try
sem_lem sem s i b t = (
  rw (spin_lock_lem sem.lock s i.open_lock, eq→== _ _ i.initialised, ◌>>=◌)
      (by_value (inc_int sem.value)),
  rw
      (
        spin_lock_lem sem.lock s i.open_lock,
        eq→== _ _ i.initialised,
        ◌>>=◌,
        spin_unlock_lem sem.lock s i.open_lock b t,
        not_negative sem.value i.counts,
      )
      (by_test (is_zero sem.value)),
)
  where
    unlocks : spin_unlock (taken_by s sem.lock) (locked_state s) ≡ ok (sem.lock, s)
    unlocks = spin_unlock_lem sem.lock s i.open_lock b t

    unlock_with : ℤ → Outcome (Sem × Kmt)
    unlock_with value = spin_unlock (taken_by s sem.lock) (locked_state s) >>= λ (unlocked, s2).
        ok (record sem { lock = unlocked; value = value }, s2)

    by_value : (m : Outcome ℤ) → (m >>= unlock_with) ≡ (m >>= with_value sem s)
    by_value (ok value) = rw unlocks refl
    by_value (halted c) = refl
    by_value undefined = refl
    by_value unfinished = refl

    not_negative : (v : ℤ) → v ≡ pos i.available → is_neg v ≡ false
    not_negative (pos n) e = refl
    not_negative (negsuc n) e = cc

    by_test :
        (z : Bool)
        → ◌≡◌ {A = Outcome (Bool × Sem × Kmt)}
            (ok (not z, record sem { value = if not z then dec sem.value else sem.value }, s))
            (ok (not z, record sem { value = if z then sem.value else dec sem.value }, s))
    by_test true = refl
    by_test false = refl
