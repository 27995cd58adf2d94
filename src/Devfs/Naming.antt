-- ===== src/Devfs/Naming.antt =====
-- src/fs/devfs.c: which names the file system knows after `_ctor`.
use oslab2_virtualfs.Base.{
  ℕ, zero, suc, ◌+◌, ◌≡◌, ◌≢◌, refl, sym, ◌∙◌, ◌⊎◌, inl, inr, true, false, List, [], ◌∷◌, ◌++◌,
  Option, none, some, replicate, ok, ◌>>=◌, ℤ, pos, negsuc, minus_one, is_zero, arith,
}
use mathlib.Core.Path.{subst}
use oslab2_virtualfs.Libc.Str.{strcpy}
use oslab2_virtualfs.Libc.Str.Laws.{IsText, stored, strcmp_lem}
use oslab2_virtualfs.Libc.Rand.{srand}
use oslab2_virtualfs.Devfs.Devices.{
  Device, DevState, Getch, null_getch, zero_getch, random_getch, stdin_getch, Putch, null_putch,
  stdout_putch,
}
use oslab2_virtualfs.Devfs.{
  init, load_at, load_device, lookup, clear_devices, mode_of, null_name, zero_name, random_name,
  stdin_name, stdout_name,
}

-- A name is looked up at the device of its number; any other is unknown.
pub data Named : List ℕ → ℤ → Type 0 where
  null_device : Named null_name (pos 0)
  zero_device : Named zero_name (pos 1)
  random_device : Named random_name (pos 2)
  stdin_device : Named stdin_name (pos 3)
  stdout_device : Named stdout_name (pos 4)
  unknown :
      {path : List ℕ}
      → path ≢ null_name
      → path ≢ zero_name
      → path ≢ random_name
      → path ≢ stdin_name
      → path ≢ stdout_name
      → Named path minus_one

-- The names of the table are bytes that are 0.
abbrev pub AreBlank : List Device → Type 0
AreBlank [] = Unit {0}
AreBlank (dev ∷ devices) = (dev.name ≡ replicate 32 0) × AreBlank devices

abbrev entry : List ℕ → ℕ → Option Getch → Option Putch → Device
entry name left g p = record {
  valid = true;
  name = stored name (replicate left 0);
  mode = mode_of g p;
  getch = g;
  putch = p;
}

-- The table that `_ctor` leaves.
abbrev table : List Device → List Device
table rest =
    entry null_name 27 (some null_getch) (some null_putch)
    ∷ entry zero_name 27 (some zero_getch) (some null_putch)
    ∷ entry random_name 25 (some random_getch) none
    ∷ entry stdin_name 26 (some stdin_getch) none
    ∷ entry stdout_name 25 none (some stdout_putch)
    ∷ clear_devices rest

-- A device whose name is still blank, and the name that `load_device` gives it.
load_blank :
    (dev : Device) (name : List ℕ) (left : ℕ) (g : Option Getch) (p : Option Putch)
    → dev.name ≡ replicate 32 0
    → strcpy (replicate 32 0) (name ++ (0 ∷ [])) ≡ ok (stored name (replicate left 0))
    → load_device dev (name ++ (0 ∷ [])) g p ≡ ok (entry name left g p)
unfolding load_device
load_blank dev name left g p blank copies = rw (blank, copies, ◌>>=◌) refl

init_lem :
    (now : ℕ) (d0 d1 d2 d3 d4 : Device) (rest : List Device) (d : DevState)
    → AreBlank (d0 ∷ d1 ∷ d2 ∷ d3 ∷ d4 ∷ rest)
    → init now (d0 ∷ d1 ∷ d2 ∷ d3 ∷ d4 ∷ rest) d ≡ ok (table rest, record d { rng = srand now })
unfolding init load_at strcpy
init_lem now d0 d1 d2 d3 d4 rest d (b0, (b1, (b2, (b3, (b4, blank))))) =
    rw
      (
        load_blank (record d0 { valid = false }) null_name 27 (some null_getch) (some null_putch) b0
            refl,
        ◌>>=◌,
        load_blank (record d1 { valid = false }) zero_name 27 (some zero_getch) (some null_putch) b1
            refl,
        ◌>>=◌,
        load_blank (record d2 { valid = false }) random_name 25 (some random_getch) none b2 refl,
        ◌>>=◌,
        load_blank (record d3 { valid = false }) stdin_name 26 (some stdin_getch) none b3 refl,
        ◌>>=◌,
        load_blank (record d4 { valid = false }) stdout_name 25 none (some stdout_putch) b4 refl,
        ◌>>=◌,
      )
      refl

-- One entry: it is looked up, or passed by.
lookup_step :
    (name : List ℕ) (left : ℕ) (g : Option Getch) (p : Option Putch) (devices : List Device)
    (path after : List ℕ) (i : ℕ)
    → IsText path
    → IsText name
    → ((path ≡ name) × (lookup (entry name left g p ∷ devices) (stored path after) i ≡ ok (pos i)))
      ⊎ ((path ≢ name)
          × (lookup (entry name left g p ∷ devices) (stored path after) i
              ≡ lookup devices (stored path after) (i + 1)))
unfolding lookup
lookup_step name left g p devices path after i text known =
    let (d, compares, same) = strcmp_lem path name after (replicate left 0) text known in
    elim (zero_or_not d) [
      | inl z ↦ inl (same.0 z, rw (lookup, compares, ◌>>=◌, z) refl)
      | inr (ne, nz) ↦ inr (λ e. ne (same.1 e), rw (lookup, compares, ◌>>=◌, nz) refl)
    ]
  where
    zero_or_not : (d : ℤ) → (d ≡ pos 0) ⊎ ((d ≢ pos 0) × (is_zero d ≡ false))
    zero_or_not (pos zero) = inl refl
    zero_or_not (pos (suc n)) = inr (ground arith, ground arith)
    zero_or_not (negsuc n) = inr (ground arith, ground arith)

cleared_lookup :
    (devices : List Device) (path : List ℕ) (i : ℕ)
    → lookup (clear_devices devices) path i ≡ ok minus_one
unfolding lookup
cleared_lookup [] path i = refl
cleared_lookup (dev ∷ devices) path i = cleared_lookup devices path (i + 1)

name-IsText :
    IsText null_name
    × IsText zero_name
    × IsText random_name
    × IsText stdin_name
    × IsText stdout_name
name-IsText = ground arith

-- What `lookup` gives from the entry of number `i` on.
abbrev Found : List Device → List ℕ → List ℕ → ℕ → Type 0
Found devices path after i = (n : ℤ) × (lookup devices (stored path after) i ≡ ok n) × Named path n

here-Found :
    (devices : List Device) (path name after : List ℕ) (i j : ℕ)
    → path ≡ name
    → lookup devices (stored path after) i ≡ ok (pos j)
    → Named name (pos j)
    → Found devices path after i
here-Found devices path name after i j e runs named =
    (pos j, runs, subst (λ p. Named p (pos j)) (sym e) named)

later-Found :
    (dev : Device) (devices : List Device) (path after : List ℕ) (i : ℕ)
    → lookup (dev ∷ devices) (stored path after) i ≡ lookup devices (stored path after) (i + 1)
    → Found devices path after (i + 1)
    → Found (dev ∷ devices) path after i
later-Found dev devices path after i passes (n, runs, named) = (n, passes ∙ runs, named)

table_lookup :
    (rest : List Device) (path after : List ℕ) → IsText path → Found (table rest) path after 0
table_lookup rest path after text =
    let (t0, t1, t2, t3, t4) = name-IsText in
    let r4 : List Device = entry stdout_name 25 none (some stdout_putch) ∷ clear_devices rest in
    let r3 : List Device = entry stdin_name 26 (some stdin_getch) none ∷ r4 in
    let r2 : List Device = entry random_name 25 (some random_getch) none ∷ r3 in
    let r1 : List Device = entry zero_name 27 (some zero_getch) (some null_putch) ∷ r2 in
    elim (lookup_step null_name 27 (some null_getch) (some null_putch) r1 path after 0 text t0) [
      | inl (e, runs) ↦ here-Found _ path null_name after 0 0 e runs null_device
      | inr (n0, p0) ↦
          later-Found _ r1 path after 0 p0
            (elim (lookup_step zero_name 27 (some zero_getch) (some null_putch) r2 path after 1 text
              t1) [
                | inl (e, runs) ↦ here-Found _ path zero_name after 1 1 e runs zero_device
                | inr (n1, p1) ↦
                    later-Found _ r2 path after 1 p1
                      (elim (lookup_step random_name 25 (some random_getch) none r3 path after 2
                        text t2) [
                          | inl (e, runs) ↦
                              here-Found _ path random_name after 2 2 e runs random_device
                          | inr (n2, p2) ↦
                              later-Found _ r3 path after 2 p2
                                (elim (lookup_step stdin_name 26 (some stdin_getch) none r4 path
                                  after 3 text t3) [
                                    | inl (e, runs) ↦
                                        here-Found _ path stdin_name after 3 3 e runs stdin_device
                                    | inr (n3, p3) ↦
                                        later-Found _ r4 path after 3 p3
                                          (elim (lookup_step stdout_name 25 none (some stdout_putch)
                                            (clear_devices rest) path after 4 text t4) [
                                              | inl (e, runs) ↦
                                                  here-Found _ path stdout_name after 4 4 e runs
                                                    stdout_device
                                              | inr (n4, p4) ↦ (
                                                minus_one,
                                                p4 ∙ cleared_lookup rest (stored path after) 5,
                                                unknown n0 n1 n2 n3 n4,
                                              )
                                            ])
                                  ])
                        ])
              ])
    ]

-- Over a blank table `_ctor` ends, and `lookup` then knows each of the five names, at its number, and no other.
pub init-Named :
    (now : ℕ) (d0 d1 d2 d3 d4 : Device) (rest : List Device) (d : DevState) (path after : List ℕ)
    → AreBlank (d0 ∷ d1 ∷ d2 ∷ d3 ∷ d4 ∷ rest)
    → IsText path
    → (devices : List Device) × (init now (d0 ∷ d1 ∷ d2 ∷ d3 ∷ d4 ∷ rest) d
        ≡ ok (devices, record d { rng = srand now }))
      × (n : ℤ) × (lookup devices (stored path after) 0 ≡ ok n)
      × Named path n
init-Named now d0 d1 d2 d3 d4 rest d path after blank text =
    let (n, runs, named) = table_lookup rest path after text in
    (table rest, init_lem now d0 d1 d2 d3 d4 rest d blank, n, runs, named)
