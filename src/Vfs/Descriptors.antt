-- ===== src/Vfs/Descriptors.antt =====
-- The descriptors of src/vfs.c: the search for a free one, and a change of one under the lock.
use oslab2_virtualfs.Base.{
  ℕ, zero, suc, ◌+◌, ◌≡◌, ◌≢◌, ◌<◌, refl, sym, ap, ◌∙◌, ◌⊎◌, inl, inr, arith, List, [], ◌∷◌, Option,
  none, some, get_elem?, set, inc, false, is_zero,
}
use oslab2_virtualfs.Kmt.{Kmt, Thread, set_thread, update, update_self, update-update}
use oslab2_virtualfs.Kmt.Spin.{Spinlock, locked_state, inc_intr}
use oslab2_virtualfs.Vfs.Locking.{Inside}
use oslab2_virtualfs.Vfs.{Vfs, free_fd, set_fd}

-- `free_fd` finds the first free slot.
abbrev pub FreeSlot : List (Option ℕ) → ℕ → Type 0
FreeSlot fds i = (get_elem? fds i ≡ some none) × ((j : ℕ) → j < i → get_elem? fds j ≢ some none)

pub free_fd_lem :
    (fds : List (Option ℕ)) (b : ℕ)
    → ((free_fd fds b ≡ none) × ((j : ℕ) → get_elem? fds j ≢ some none))
      ⊎ ((i : ℕ) × (free_fd fds b ≡ some (b + i)) × FreeSlot fds i)
unfolding free_fd
free_fd_lem [] b = inl (refl, λ j e. cc)
free_fd_lem (none ∷ fds) b = inr (0, ap some (omega arith), (refl, λ j less. absurd (omega arith)))
free_fd_lem (some f ∷ fds) b = elim (free_fd_lem fds (b + 1)) [
  | inl (runs, used) ↦ inl (runs, all used)
  | inr (i, runs, (here, first)) ↦ inr (suc i, runs ∙ ap some (omega arith), (here, before i first))
]
  where
    all : ((j : ℕ) → get_elem? fds j ≢ some none) → (j : ℕ) → get_elem? (some f ∷ fds) j ≢ some none
    all used zero e = cc
    all used (suc j) e = used j e

    before :
        (i : ℕ)
        → ((j : ℕ) → j < i → get_elem? fds j ≢ some none)
        → (j : ℕ) → j < suc i
        → get_elem? (some f ∷ fds) j ≢ some none
    before i first zero less e = cc
    before i first (suc j) less e = first j (omega arith) e

-- The kernel with one descriptor of the running thread changed.
abbrev pub with_fd : ℕ → Option ℕ → Kmt → Kmt
with_fd i file k =
    let t : Thread = record (k.thread k.this_thread) {
      fd = set (k.thread k.this_thread).fd i file;
    } in
    set_thread k.this_thread t k

with_fd-locked_state :
    (i : ℕ) (file : Option ℕ) (k : Kmt)
    → with_fd i file (locked_state k) ≡ locked_state (with_fd i file k)
unfolding inc_intr
with_fd-locked_state i file k =
    ap (λ (f : ℕ → Thread). record k { intr = false; thread = f }) (left ∙ sym right)
  where
    p : ℕ
    p = k.this_thread

    counted : Thread
    counted = record (k.thread p) { intr_cnt = inc (k.thread p).intr_cnt }

    changed : Thread
    changed = record (k.thread p) { fd = set (k.thread p).fd i file }

    both : Thread
    both = record (k.thread p) {
      intr_cnt = inc (k.thread p).intr_cnt;
      fd = set (k.thread p).fd i file;
    }

    left :
        update (update k.thread p counted) p (record (update k.thread p counted p) {
          fd = set (update k.thread p counted p).fd i file;
        })
        ≡ update k.thread p both
    left =
        ap
          (λ (t : Thread). update (update k.thread p counted) p (record t { fd = set t.fd i file }))
          (update_self k.thread p counted)
        ∙ update-update k.thread p counted both

    right :
        update (update k.thread p changed) p (record (update k.thread p changed p) {
          intr_cnt = inc (update k.thread p changed p).intr_cnt;
        })
        ≡ update k.thread p both
    right =
        ap
          (λ (t : Thread).
            update (update k.thread p changed) p (record t { intr_cnt = inc t.intr_cnt }))
          (update_self k.thread p changed)
        ∙ update-update k.thread p changed both

pub fds-with_fd :
    (i : ℕ) (file : Option ℕ) (k : Kmt)
    → ((with_fd i file k).thread k.this_thread).fd ≡ set (k.thread k.this_thread).fd i file
fds-with_fd i file k = ap (λ (t : Thread). t.fd) (update_self k.thread k.this_thread _)

module _ {World : Type 0} where
  pub set_fd-Inside :
      (v : Vfs World) (lk : Spinlock) (k : Kmt) (i : ℕ) (file : Option ℕ)
      → Inside v lk k
      → Inside (set_fd i file v) lk (with_fd i file k)
  set_fd-Inside v lk k i file u = record {
    open_lock = u.open_lock;
    balanced = record {
      counted = (u.balanced.counted.0, same ∙ u.balanced.counted.1);
      flag = u.balanced.flag ∙ ap is_zero (sym same);
    };
    thread = u.thread;
    held = u.held;
    kmt = ap (with_fd i file) u.kmt ∙ with_fd-locked_state i file k;
  }
    where
      same : ((with_fd i file k).thread k.this_thread).intr_cnt ≡ (k.thread k.this_thread).intr_cnt
      same = ap (λ (t : Thread). t.intr_cnt) (update_self k.thread k.this_thread _)
