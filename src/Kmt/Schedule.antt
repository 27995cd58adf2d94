-- ===== src/Kmt/Schedule.antt =====
-- The scheduler of src/kmt.c: which thread `kmt_schedule` picks, and that one thread runs at a time.
use oslab2_virtualfs.Base.{
  ℕ, zero, suc, ◌+◌, ◌%◌, ◌<◌, ◌≡◌, ◌≢◌, refl, sym, ap, ◌∙◌, ◌⊎◌, inl, inr, arith, Outcome, ok,
  halted, ◌>>=◌, get_or, eq→==, ne→==, ◌==◌, if◌then◌else◌, undefined, unfinished,
}
use native.Mathlib.Decide.{ℕ_discrete}
use oslab2_virtualfs.Libc.Rand.{rand}
use oslab2_virtualfs.Kmt.{
  Kmt, max_thread_num, ready, running, find_ready, preempt, schedule, check_stack, switch_to,
}

-- The thread in slot `i`.
abbrev pub slot : Kmt → ℕ → ℕ
slot s i = get_or s.threads i 0

abbrev pub IsReady : Kmt → ℕ → Type 0
IsReady s i = (s.thread (slot s i)).status ≡ ready

-- The slot that the scan comes to after `k` steps from `i`.
abbrev pub after : ℕ → ℕ → ℕ
after i k = (i + k) % 32

-- What the scan from slot `i` finds: the first ready thread, or that there is none.
abbrev pub Scanned : Kmt → ℕ → Outcome ℕ → Type 0
Scanned s i result =
    ((k : ℕ) × (k < 32)
      × (result ≡ ok (after i k))
      × IsReady s (after i k)
      × ((j : ℕ) → j < k → IsReady s (after i j) → ⊥))
    ⊎ ((result ≡ halted 1) × ((j : ℕ) → j < 32 → IsReady s (after i j) → ⊥))

scan_hit : (fuel i n : ℕ) (s : Kmt) → IsReady s n → find_ready (suc fuel) i n s ≡ ok n
unfolding find_ready
scan_hit fuel i n s r = rw (eq→== _ _ r, find_ready)

scan_miss :
    (fuel i n m : ℕ) (s : Kmt)
    → (IsReady s n → ⊥)
    → (n + 1) % 32 ≡ m
    → m ≢ i
    → find_ready (suc fuel) i n s ≡ find_ready fuel i m s
unfolding find_ready
scan_miss fuel i n m s r e ne = rw (ne→== _ ready r, find_ready, e, ne→== m i ne, e)

scan_end :
    (fuel i n : ℕ) (s : Kmt)
    → (IsReady s n → ⊥)
    → (n + 1) % 32 ≡ i
    → find_ready (suc fuel) i n s ≡ halted 1
unfolding find_ready
scan_end fuel i n s r e = rw (ne→== _ ready r, find_ready, e, eq→== i i refl)

extend :
    (s : Kmt) (i d : ℕ)
    → ((j : ℕ) → j < d → IsReady s (after i j) → ⊥)
    → (IsReady s (after i d) → ⊥)
    → (j : ℕ) → j < d + 1
    → IsReady s (after i j)
    → ⊥
extend s i d before here j lt r = elim (ℕ_discrete j d) [
  | yes e ↦ here (rw e at r)
  | no ne ↦ before j (omega arith) r
]

scan :
    (fuel d i : ℕ) (s : Kmt)
    → d + suc fuel ≡ 32
    → i < 32
    → ((j : ℕ) → j < d → IsReady s (after i j) → ⊥)
    → Scanned s i (find_ready (suc fuel) i (after i d) s)
scan zero d i s e lt before = elim (ℕ_discrete (s.thread (slot s (after i d))).status ready) [
  | yes r ↦ inl (d, omega arith, scan_hit 0 i (after i d) s r, r, before)
  | no r ↦
      inr (
        scan_end 0 i (after i d) s r (omega arith),
        λ j less. extend s i d before r j (omega arith),
      )
]
scan (suc fuel) d i s e lt before = elim (ℕ_discrete (s.thread (slot s (after i d))).status ready) [
  | yes r ↦ inl (d, omega arith, scan_hit (suc fuel) i (after i d) s r, r, before)
  | no r ↦
      rw (scan_miss (suc fuel) i (after i d) (after i (d + 1)) s r (omega arith) (omega arith))
        (scan fuel (d + 1) i s (omega arith) lt (extend s i d before r))
]

-- The scan of `kmt_schedule` ends within one round: it finds the first ready thread from the
-- slot on at which it starts, and panics only if no slot holds a ready thread.
pub find_ready_lem : (s : Kmt) (i : ℕ) → i < 32 → Scanned s i (find_ready max_thread_num i i s)
find_ready_lem s i lt = rw start at (scan 31 0 i s refl lt (λ j less. absurd (omega arith)))
  where
    start : after i 0 ≡ i
    start = omega arith

-- Only the thread that `this_thread` points to is running.
abbrev pub OneRunning : Kmt → Type 0
OneRunning s = (q : ℕ) → (s.thread q).status ≡ running → q ≡ s.this_thread

-- After the first lines of `kmt_schedule` no thread is running.
preempt-NoneRunning : (s : Kmt) → OneRunning s → (q : ℕ) → ((preempt s).thread q).status ≢ running
unfolding preempt
preempt-NoneRunning s one q = ground (arith, one q, one s.this_thread)

-- What a successful `kmt_schedule` leaves: the thread that now runs is the only one, it stands in the
-- table, and it was ready or was the running one.
pub record Scheduled (s s' : Kmt) : Type 0 where
  pub one : OneRunning s'
  pub runs : (s'.thread s'.this_thread).status ≡ running
  pub from_table : (i : ℕ) × (i < 32) × (slot s i ≡ s'.this_thread)
  pub was_ready :
      ((s.thread s'.this_thread).status ≡ ready) ⊎ ((s.thread s'.this_thread).status ≡ running)

switched :
    (p : ℕ) (s s' : Kmt)
    → switch_to p s ≡ ok s'
    → (s'.this_thread ≡ p)
      × ((q : ℕ) → (s'.thread q).status ≡ (if p == q then running else (s.thread q).status))
unfolding switch_to check_stack
switched p s s' e = (ground arith, λ q. ground arith)

scheduled :
    (s s1 s' : Kmt) (i : ℕ)
    → s1.threads ≡ s.threads
    → ((q : ℕ) → (s1.thread q).status ≢ running)
    → ((q : ℕ)
        → (s1.thread q).status ≡ ready
        → ((s.thread q).status ≡ ready) ⊎ ((s.thread q).status ≡ running))
    → i < 32
    → IsReady s1 i
    → switch_to (slot s1 i) s1 ≡ ok s'
    → Scheduled s s'
scheduled s s1 s' i table none_running origin lt r e =
    let (here, status) = switched (slot s1 i) s1 s' e in
    record {
      one = λ q runs. ground (arith, status q, none_running q, here);
      runs = ground (arith, status s'.this_thread, here);
      from_table = (i, lt, ap (λ t. get_or t i 0) (sym table) ∙ sym here);
      was_ready = rw (here) (origin (slot s1 i) r);
    }

ok_ne_halted : {A : Type 0} {a : A} {c : ℕ} → halted c ≢ ok a
ok_ne_halted e = cc

preempt-threads : (s : Kmt) → (preempt s).threads ≡ s.threads
unfolding preempt
preempt-threads s = ground arith

preempt-ready :
    (s : Kmt) (q : ℕ)
    → ((preempt s).thread q).status ≡ ready
    → ((s.thread q).status ≡ ready) ⊎ ((s.thread q).status ≡ running)
unfolding preempt
preempt-ready s q r = ground arith

-- `kmt_schedule`, when it returns, has made exactly one thread running: one of the table, which was
-- ready, or was the one that ran before.
pub schedule-Scheduled : (s s' : Kmt) → OneRunning s → schedule s ≡ ok s' → Scheduled s s'
unfolding schedule
schedule-Scheduled s s' one e =
    let i = (rand s.rng).0 % 32 in
    let s0 = record s { rng = (rand s.rng).1 } in
    let s1 = preempt s0 in
    elim (find_ready_lem s1 i (omega arith)) [
      | inl found ↦
          let (k, lt, result, r, first) = found in
          scheduled s s1 s' (after i k) (preempt-threads s0) (preempt-NoneRunning s0 one)
            (preempt-ready s0) (omega arith) r
            (ap (λ m. m >>= λ ntid. switch_to (slot s1 ntid) s1) (sym result) ∙ e)
      | inr none_ready ↦ absurd (
          ok_ne_halted (ap (λ m. m >>= λ ntid. switch_to (slot s1 ntid) s1) (sym none_ready.0) ∙ e))
    ]

switch_regset :
    (p : ℕ) (s s' : Kmt)
    → switch_to p s ≡ ok s'
    → (q : ℕ) → (s'.thread q).regset ≡ (s.thread q).regset
unfolding switch_to check_stack
switch_regset p s s' e q = ground arith

preempt_regset : (s : Kmt) (q : ℕ) → ((preempt s).thread q).regset ≡ (s.thread q).regset
unfolding preempt
preempt_regset s q = ground arith

-- `kmt_schedule` leaves every saved context alone.
pub schedule_regset :
    (s s' : Kmt) → schedule s ≡ ok s' → (q : ℕ) → (s'.thread q).regset ≡ (s.thread q).regset
unfolding schedule
schedule_regset s s' e q =
    let i = (rand s.rng).0 % 32 in
    let s0 = record s { rng = (rand s.rng).1 } in
    from_scan (find_ready 32 i i (preempt s0)) e ∙ preempt_regset s0 q
  where
    from_scan :
        (m : Outcome ℕ)
        → (m >>= λ n.
            switch_to
              (slot (preempt (record s { rng = (rand s.rng).1 })) n)
              (preempt (record s { rng = (rand s.rng).1 })))
          ≡ ok s'
        → (s'.thread q).regset ≡ ((preempt (record s { rng = (rand s.rng).1 })).thread q).regset
    from_scan (ok n) h = switch_regset _ _ s' h q
    from_scan (halted c) h = cc
    from_scan undefined h = cc
    from_scan unfinished h = cc
