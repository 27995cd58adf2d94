-- ===== src/Procfs.antt =====
-- src/fs/procfs.c: the file system that shows the threads, the processor and the memory.
use oslab2_virtualfs.Base.{
  ℕ, zero, suc, ◌+◌, Bool, true, false, List, [], ◌∷◌, Option, none, some, ◌==◌, ltb, if◌then◌else◌,
  bit_and, get_elem?, replicate, ◌++◌, Outcome, ok, ◌>>=◌, ℤ, pos, negsuc, minus_one, is_zero,
}
use oslab2_virtualfs.Libc.Str.{strcmp}
use oslab2_virtualfs.Libc.Atoi.{atoi}
use oslab2_virtualfs.Libc.Printf.Format.{Arg, int, uint, str, sprintf}
use oslab2_virtualfs.Libc.Time.{ctime}
use oslab2_virtualfs.Kmt.{Kmt, Thread, invalid}
use oslab2_virtualfs.Procfs.Files.{Otrofile, new_otrofile}
pub mod Files
pub mod Names
mod Tests

abbrev pub cpuinfo_inode : ℕ
cpuinfo_inode = 128

abbrev pub meminfo_inode : ℕ
meminfo_inode = 129

abbrev pub cpuinfo : List ℕ
cpuinfo = b'c' ∷ b'p' ∷ b'u' ∷ b'i' ∷ b'n' ∷ b'f' ∷ b'o' ∷ []

abbrev pub meminfo : List ℕ
meminfo = b'm' ∷ b'e' ∷ b'm' ∷ b'i' ∷ b'n' ∷ b'f' ∷ b'o' ∷ []

-- `lookup` from `atoi` on.
abbrev pub thread_inode : List ℕ → ℤ → ℤ
thread_inode threads (negsuc n) = minus_one
thread_inode threads (pos tid) = elim (get_elem? threads tid) [
  | none ↦ minus_one
  | some thread ↦ if thread == 0 then minus_one else pos tid
]

-- `lookup`, where `threads` has NR_THREADS entries.
pub lookup : List ℕ → List ℕ → Outcome ℤ
lookup threads path = strcmp path (cpuinfo ++ (0 ∷ [])) >>= λ d1. elim (is_zero d1) [
  | true ↦ ok (pos cpuinfo_inode)
  | false ↦ strcmp path (meminfo ++ (0 ∷ [])) >>= λ d2. elim (is_zero d2) [
    | true ↦ ok (pos meminfo_inode)
    | false ↦ atoi path >>= λ tid. ok (thread_inode threads tid)
  ]
]

-- `create`
pub create : List ℕ → ℤ
create path = minus_one

-- `access`; R_OK is 4.
pub access : ℤ → ℕ → ℤ
access inode mode = if mode == bit_and 4 mode then pos 0 else minus_one

-- `sprintf(buf, "%d", i)`
pub print_tid : List ℕ → ℕ → Outcome (List ℕ)
print_tid buf i = do (n, filled) ← sprintf buf (b'%' ∷ b'd' ∷ 0 ∷ []) (int (pos i) ∷ []); ok filled

-- The loop of `walk` over the threads from number `i` on, with `buf` and what `fn` returns.
pub walk_threads : (List ℕ → ℤ → ℕ → ℕ → ℤ) → List ℕ → List ℕ → ℕ → Outcome ℤ
unfolding print_tid
walk_threads fn buf [] i = ok (pos 0)
walk_threads fn buf (thread ∷ threads) i = elim (thread == 0) [
  | true ↦ walk_threads fn buf threads (i + 1)
  | false ↦ print_tid buf i >>= λ name. elim (is_zero (fn name (pos i) 4 0)) [
    | true ↦ walk_threads fn buf threads (i + 1)
    | false ↦ ok (fn name (pos i) 4 0)
  ]
]

-- `walk`
pub walk : (List ℕ → ℤ → ℕ → ℕ → ℤ) → List ℕ → List ℕ → Outcome ℤ
unfolding walk_threads
walk fn buf threads = walk_threads fn buf threads 0 >>= λ val1. elim (is_zero val1) [
  | false ↦ ok val1
  | true ↦
      let val2 = fn (cpuinfo ++ (0 ∷ [])) (pos cpuinfo_inode) 4 0 in
      let val3 = fn (meminfo ++ (0 ∷ [])) (pos meminfo_inode) 4 0 in
      ok (if is_zero val2 then val3 else val2)
]

abbrev pub cpuinfo_format : List ℕ
cpuinfo_format =
    b'C' ∷ b'P' ∷ b'U' ∷ b' ' ∷ b'T' ∷ b'y' ∷ b'p' ∷ b'e' ∷ b':' ∷ b' ' ∷ b'U' ∷ b'n' ∷ b'k' ∷ b'n'
    ∷ b'o' ∷ b'w' ∷ b'n' ∷ 10 ∷ b'T' ∷ b'i' ∷ b'm' ∷ b'e' ∷ b':' ∷ b' ' ∷ b'%' ∷ b's' ∷ 10 ∷ 0 ∷ []

abbrev pub meminfo_format : List ℕ
meminfo_format =
    b'M' ∷ b'e' ∷ b'm' ∷ b'o' ∷ b'r' ∷ b'y' ∷ b' ' ∷ b'T' ∷ b'y' ∷ b'p' ∷ b'e' ∷ b':' ∷ b' ' ∷ b'U'
    ∷ b'n' ∷ b'k' ∷ b'n' ∷ b'o' ∷ b'w' ∷ b'n' ∷ 10 ∷ 0 ∷ []

abbrev pub thread_format : List ℕ
thread_format =
    b't' ∷ b'i' ∷ b'd' ∷ b':' ∷ b' ' ∷ b'%' ∷ b'd' ∷ 10 ∷ b's' ∷ b't' ∷ b'a' ∷ b't' ∷ b'u' ∷ b's'
    ∷ b':' ∷ b' ' ∷ b'%' ∷ b'd' ∷ 10 ∷ b'i' ∷ b'n' ∷ b't' ∷ b'r' ∷ b'_' ∷ b'c' ∷ b'n' ∷ b't' ∷ b':'
    ∷ b' ' ∷ b'%' ∷ b'd' ∷ 10 ∷ b's' ∷ b't' ∷ b'a' ∷ b'c' ∷ b'k' ∷ b':' ∷ b' ' ∷ b'0' ∷ b'x' ∷ b'%'
    ∷ b'p' ∷ b' ' ∷ b'-' ∷ b' ' ∷ b'0' ∷ b'x' ∷ b'%' ∷ b'p' ∷ 10 ∷ 0 ∷ []

-- The end of each case of `open`: `text` is what `sprintf` gives for the block that `pmm->alloc` gives.
abbrev pub opened : ℕ → ℤ → ℕ → Outcome (ℕ × List ℕ) → Outcome (Option Otrofile)
opened fs inode flags text =
    text >>= λ (size, bytes). ok (some (new_otrofile fs inode flags size bytes))

-- The `default` of `open`, from the test of the thread on.
abbrev pub open_thread : ℕ → ℕ → ℕ → List ℕ → Thread → Outcome (Option Otrofile)
open_thread fs tid flags block t =
    if t.status == invalid
    then ok none
    else opened fs (pos tid) flags (
        let args : List Arg =
          int (pos t.tid)
          ∷ int (pos t.status)
          ∷ int t.intr_cnt
          ∷ uint t.stack_start
          ∷ uint t.stack_end
          ∷ [] in
        sprintf block thread_format args)

-- `open`, with `now` from `time` and the bytes of the block that `pmm->alloc` gives. Neither that block nor the file's
-- own is tested for NULL; both are taken to be there.
pub open_inode : Kmt → ℕ → ℕ → List ℕ → ℤ → ℕ → Outcome (Option Otrofile)
open_inode kmt now fs block (negsuc n) flags = ok none
open_inode kmt now fs block (pos inode) flags =
    if inode == cpuinfo_inode
    then (ctime (replicate 32 0) now >>= λ date.
        opened fs (pos inode) flags (sprintf block cpuinfo_format (str date ∷ [])))
    else if inode == meminfo_inode
    then opened fs (pos inode) flags (sprintf block meminfo_format [])
    else elim (get_elem? kmt.threads inode) [
      | none ↦ ok none
      | some thread ↦ open_thread fs inode flags block (kmt.thread thread)
    ]
