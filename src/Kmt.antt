-- ===== src/Kmt.antt =====
-- src/kmt.c and include/os.h: threads, the scheduler, spinlocks and semaphores on one processor.
-- A thread_t pointer is a number and NULL is 0. The kernel runs without paging, so an access through
-- NULL reads and writes the memory at address 0, which is kept as thread 0.
pub mod Spin
pub mod Schedule
pub mod Semaphores
pub mod Tests
use oslab2_virtualfs.Base.{
  ℕ, zero, suc, ◌+◌, ◌-◌, ◌%◌, ◌^◌, ◌≡◌, ◌≢◌, ◌⊎◌, inl, inr, ap, arith, Bool-cases, ==→eq, Bool,
  true, false, not, List, [], ◌∷◌, Option, ◌==◌, ltb, if◌then◌else◌, get_elem?, get_or, set,
  Outcome, ok, halted, undefined, unfinished, ◌>>=◌, ◌>>◌, defined, assert, ℤ, pos, inc, dec,
  is_zero, add32, sub32,
}
use mathlib.Core.Path.{fun_ext}
use oslab2_virtualfs.Libc.Rand.{Rng, rand}
use oslab2_virtualfs.Pmm
use oslab2_virtualfs.Pmm.{Pmm}

abbrev pub max_thread_num : ℕ
max_thread_num = 32

abbrev pub stack_size : ℕ
stack_size = 4194304

-- `enum`-like status codes of include/os.h.
abbrev pub invalid : ℕ
invalid = 0

abbrev pub ready : ℕ
ready = 1

abbrev pub running : ℕ
running = 2

abbrev pub stack_magic1 : ℕ
stack_magic1 = 0x723a3ba8

abbrev pub stack_magic2 : ℕ
stack_magic2 = 0xf38da472

-- `struct thread`; `stack` is the two fields of its `_Area`.
pub record Thread : Type 0 where
  pub tid : ℕ
  pub status : ℕ
  pub intr_cnt : ℤ
  pub stack_start : ℕ
  pub stack_end : ℕ
  pub regset : ℕ
  pub fd : List (Option ℕ)

-- The processor, the statics of kmt.c, the thread objects, and the 32-bit words of memory in which
-- the stack protectors stand.
pub record Kmt : Type 0 where
  pub intr : Bool
  pub this_thread : ℕ
  pub threads : List ℕ
  pub thread : ℕ → Thread
  pub word : ℕ → ℕ
  pub rng : Rng
  pub pmm : Pmm

-- A write at one address.
abbrev pub update {ℓ} : {A : Type ℓ} → (ℕ → A) → ℕ → A → ℕ → A
update f p v q = if p == q then v else f q

pub update_self {ℓ} : {A : Type ℓ} (f : ℕ → A) (p : ℕ) (v : A) → update f p v p ≡ v
update_self f p v = ground arith

pub update_other {ℓ} : {A : Type ℓ} (f : ℕ → A) (p q : ℕ) (v : A) → p ≢ q → update f p v q ≡ f q
update_other f p q v ne = ground arith

pub update-update {ℓ} :
    {A : Type ℓ} (f : ℕ → A) (p : ℕ) (v w : A) → update (update f p v) p w ≡ update f p w
update-update f p v w = fun_ext λ q. ground arith

pub update_same {ℓ} : {A : Type ℓ} (f : ℕ → A) (p : ℕ) → update f p (f p) ≡ f
update_same f p = fun_ext λ q. same q (Bool-cases (p == q))
  where
    same : (q : ℕ) → ((p == q) ≡ true) ⊎ ((p == q) ≡ false) → update f p (f p) q ≡ f q
    same q (inl e) = rw e (ap f (==→eq p q e))
    same q (inr e) = rw e

abbrev pub set_thread : ℕ → Thread → Kmt → Kmt
set_thread p t s = record s { thread = update s.thread p t }

abbrev pub set_status : ℕ → ℕ → Kmt → Kmt
set_status p status s = set_thread p (record (s.thread p) { status = status }) s

pub init : Kmt → Kmt
init s = record s { threads = cleared s.threads; this_thread = 0 }
  where
    cleared : List ℕ → List ℕ
    cleared [] = []
    cleared (t ∷ ts) = 0 ∷ cleared ts

-- `check_stack`: a mismatch is a panic.
pub check_stack : ℕ → Kmt → Outcome (Unit {0})
check_stack p s =
    let t = s.thread p in
    if s.word t.stack_start == stack_magic1
    then (if s.word (sub32 t.stack_end 4) == stack_magic2 then ok tt else halted 1)
    else halted 1

-- The `while` of `kmt_schedule`.
pub find_ready : ℕ → ℕ → ℕ → Kmt → Outcome ℕ
find_ready zero inittid ntid s = unfinished
find_ready (suc fuel) inittid ntid s = elim ((s.thread (get_or s.threads ntid 0)).status == ready) [
  | true ↦ ok ntid
  | false ↦
      let next = (ntid + 1) % max_thread_num in
      elim (next == inittid) [ true ↦ halted 1 | false ↦ find_ready fuel inittid next s ]
]

-- `if (this_thread->status == RUNNING) this_thread->status = READY;`
pub preempt : Kmt → Kmt
preempt s =
    if (s.thread s.this_thread).status == running then set_status s.this_thread ready s else s

-- The rest of `kmt_schedule`, which makes the thread at `p` the running one.
pub switch_to : ℕ → Kmt → Outcome Kmt
switch_to p s =
    let s1 = set_status p running (record (set_status p ready s) { this_thread = p }) in
    check_stack p s1 >>= λ _. ok s1

-- `kmt_schedule`, which returns the new `this_thread` in the state.
pub schedule : Kmt → Outcome Kmt
schedule s = do
  let (r, rng) = rand s.rng
  let s1 = preempt (record s { rng = rng })
  let inittid = r % max_thread_num
  ntid ← find_ready max_thread_num inittid inittid s1
  switch_to (get_or s1.threads ntid 0) s1

module _ (make : ℕ → ℕ → ℕ → ℕ → ℕ) where
  -- The body of `kmt_create` for the free slot `i`. `make` is `_make` of the abstract machine, which
  -- sets up the first context of a stack and returns its address. 0 is `succ == 0`.
  pub create_at : ℕ → ℕ → ℕ → ℕ → Kmt → Outcome (ℕ × Kmt)
  create_at i p entry arg s = do
    (start, pmm) ← Pmm.alloc stack_size s.pmm
    elim (start == 0) [
      | true ↦ ok (0, record s { pmm = pmm })
      | false ↦
          let stop = add32 start stack_size in
          let word = update (update s.word start stack_magic1) (sub32 stop 4) stack_magic2 in
          let t = record (s.thread p) {
            stack_start = start;
            stack_end = stop;
            tid = i;
            intr_cnt = pos 0;
            regset = make (add32 start 4) (sub32 stop 4) entry arg;
            status = ready;
          } in
          ok (
            1,
            record s {
              pmm = pmm;
              word = word;
              thread = update s.thread p t;
              threads = set s.threads i p;
            },
          )
    ]

  -- The loop of `kmt_create` over the slots.
  pub create_loop : List ℕ → ℕ → ℕ → ℕ → ℕ → Kmt → Outcome (ℕ × Kmt)
  create_loop [] i p entry arg s = ok (0, s)
  create_loop (t ∷ ts) i p entry arg s = elim (t == 0) [
    | true ↦ create_at i p entry arg s
    | false ↦ create_loop ts (i + 1) p entry arg s
  ]

  pub create : ℕ → ℕ → ℕ → Kmt → Outcome (ℕ × Kmt)
  create p entry arg s = do
    let last_intr = s.intr
    (succ, s1) ← create_loop s.threads 0 p entry arg (record s { intr = false })
    if succ == 0 then halted 1 else ok (succ, record s1 { intr = last_intr })

-- `kmt_teardown` up to its `_yield()`: the flag says whether the caller tore itself down, in which case
-- it yields with interrupts off and is not scheduled again.
pub teardown : ℕ → Kmt → Outcome (Bool × Kmt)
teardown p s = do
  let last_intr = s.intr
  let s1 = set_status p invalid (record s { intr = false })
  pmm ← Pmm.free (s1.thread p).stack_start s1.pmm
  _ ← defined (get_elem? s1.threads (s1.thread p).tid)
  let s2 = record s1 { pmm = pmm; threads = set s1.threads (s1.thread p).tid 0 }
  if p == s2.this_thread then ok (true, s2) else ok (false, record s2 { intr = last_intr })
