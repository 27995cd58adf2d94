-- ===== src/Procfs/Names.antt =====
-- src/fs/procfs.c: what `lookup` makes of names, and of those that `walk` prints.
use oslab2_virtualfs.Base.{
  ℕ, zero, suc, ◌^◌, ◌≤◌, ◌<◌, ◌≡◌, ◌≢◌, refl, ap, ◌∙◌, false, List, [], ◌∷◌, ◌++◌, some, get_elem?,
  length, ok, ◌>>=◌, ℤ, pos, negsuc, is_zero, arith, ne→==,
}
use mathlib.Core.Path.{subst}
use oslab2_virtualfs.Libc.Ctype.{isspace, isdigit}
use oslab2_virtualfs.Libc.Str.Laws.{IsText, stored, strcmp_lem}
use oslab2_virtualfs.Libc.Atoi.{atoi, char_value}
use oslab2_virtualfs.Libc.Atoi.Laws.{AreDigits, word-atoi}
use oslab2_virtualfs.Libc.Printf.Format.Sprintf.{sprintf-AreDigits}
use oslab2_virtualfs.Procfs.{lookup, cpuinfo, meminfo, thread_inode, print_tid}

cpuinfo-IsText : IsText cpuinfo
cpuinfo-IsText = ground arith

meminfo-IsText : IsText meminfo
meminfo-IsText = ground arith

-- A string that is neither of the two fixed names goes to `atoi`.
lookup_number :
    (threads : List ℕ) (path after : List ℕ) (z : ℤ)
    → IsText path
    → path ≢ cpuinfo
    → path ≢ meminfo
    → atoi (stored path after) ≡ ok z
    → lookup threads (stored path after) ≡ ok (thread_inode threads z)
unfolding lookup
lookup_number threads path after z text c m reads =
    let (d1, compares1, same1) = strcmp_lem path cpuinfo after [] text cpuinfo-IsText in
    let (d2, compares2, same2) = strcmp_lem path meminfo after [] text meminfo-IsText in
    rw
      (
        lookup,
        compares1,
        ◌>>=◌,
        not_zero d1 (λ e. c (same1.0 e)),
        compares2,
        ◌>>=◌,
        not_zero d2 (λ e. m (same2.0 e)),
        reads,
        ◌>>=◌,
      )
      refl
  where
    not_zero : (d : ℤ) → d ≢ pos 0 → is_zero d ≡ false
    not_zero (pos zero) ne = absurd (ne refl)
    not_zero (pos (suc n)) ne = refl
    not_zero (negsuc n) ne = refl

live_thread :
    (threads : List ℕ) (tid thread : ℕ)
    → get_elem? threads tid ≡ some thread
    → thread ≢ 0
    → thread_inode threads (pos tid) ≡ pos tid
live_thread threads tid thread at live = rw (thread_inode, at, ne→== thread 0 live) refl

-- The name that `walk` prints for a thread is looked up as that thread.
pub lookup-print_tid :
    (threads buf : List ℕ) (tid thread : ℕ)
    → get_elem? threads tid ≡ some thread
    → thread ≢ 0
    → tid < 2 ^ 31
    → 12 ≤ length buf
    → (name : List ℕ) × (print_tid buf tid ≡ ok name) × (lookup threads name ≡ ok (pos tid))
unfolding print_tid
lookup-print_tid threads buf tid thread at live small room =
    let (count, text, after, prints, digits, reads) = sprintf-AreDigits tid buf small room in
    (
      stored text after,
      rw (prints, ◌>>=◌) refl,
      lookup_number threads text after (pos tid) (digits-IsText text digits)
            (λ e.
              let bad : AreDigits cpuinfo = subst AreDigits e digits in
              absurd (omega (arith, bad.1)))
            (λ e.
              let bad : AreDigits meminfo = subst AreDigits e digits in
              absurd (omega (arith, bad.1)))
            reads
          ∙ ap ok (live_thread threads tid thread at live),
    )
  where
    digits-IsText : (ds : List ℕ) → AreDigits ds → IsText ds
    digits-IsText [] h = tt
    digits-IsText (d ∷ ds) (low, high, h) =
        (omega (arith, low), omega (arith, high), digits-IsText ds h)

-- A name that starts neither like a number nor like the fixed names is looked up as thread 0.
pub lookup_stranger :
    (threads : List ℕ) (c : ℕ) (path after : List ℕ) (thread : ℕ)
    → IsText (c ∷ path)
    → (c ∷ path) ≢ cpuinfo
    → (c ∷ path) ≢ meminfo
    → isspace (char_value c) ≡ false
    → isdigit (char_value c) ≡ false
    → c ≢ b'+'
    → c ≢ b'-'
    → get_elem? threads 0 ≡ some thread
    → thread ≢ 0
    → lookup threads (stored (c ∷ path) after) ≡ ok (pos 0)
lookup_stranger threads c path after thread text nc nm space digit plus minus at live =
    lookup_number threads (c ∷ path) after (pos 0) text nc nm (
      word-atoi c (path ++ (0 ∷ after)) (λ e. absurd (omega (arith, text.0, e))) space digit plus
        minus)
    ∙ ap ok (live_thread threads 0 thread at live)
