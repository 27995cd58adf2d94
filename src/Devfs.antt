-- ===== src/Devfs.antt =====
-- src/fs/devfs.c: the file system that names the devices.
pub mod Keymap
pub mod Devices
pub mod Devfile
pub mod Methods
pub mod Naming
pub mod Typing
pub mod Reading
mod Tests
use oslab2_virtualfs.Base.{
  ℕ, zero, suc, ◌+◌, ◌%◌, Bool, true, false, not, ◌&&◌, ◌||◌, List, [], ◌∷◌, ◌++◌, Option, none,
  some, ◌==◌, ltb, leb, if◌then◌else◌, bit_and, bit_or, get_elem?, set, replicate, Outcome, ok,
  undefined, unfinished, ◌>>=◌, defined, ℤ, pos, negsuc, minus_one, minus_two, is_zero,
}
use oslab2_virtualfs.Libc.Str.{strcmp, strcpy}
use oslab2_virtualfs.Libc.Rand.{Rng, rand, srand}
use oslab2_virtualfs.Devfs.Keymap.{
  keymap_lower, keymap_upper, key_none, key_lshift, key_rshift, key_capslock, key_return,
}
use oslab2_virtualfs.Vfs.Methods.{File}
use oslab2_virtualfs.Devfs.Devices.{
  DevState, Device, Getch, null_getch, zero_getch, random_getch, stdin_getch, Putch, null_putch,
  stdout_putch, getch, putch, stdin_loop,
}
use oslab2_virtualfs.Devfs.Devfile.{r_ok, w_ok, new_devfile}

-- `if (getch != NULL) dev->mode |= R_OK; if (putch != NULL) dev->mode |= W_OK;`
abbrev pub mode_of : Option Getch → Option Putch → ℕ
mode_of none none = 0
mode_of (some g) none = r_ok
mode_of none (some p) = w_ok
mode_of (some g) (some p) = bit_or r_ok w_ok

-- `load_device`
pub load_device : Device → List ℕ → Option Getch → Option Putch → Outcome Device
load_device dev name g p = do
  copied ← strcpy dev.name name
  ok (record { valid = true; name = copied; mode = mode_of g p; getch = g; putch = p })

abbrev pub clear_devices : List Device → List Device
clear_devices [] = []
clear_devices (dev ∷ devices) = record dev { valid = false } ∷ clear_devices devices

-- The names that `_ctor` passes to `load_device`, with their terminators.
abbrev pub null_name : List ℕ
null_name = b'n' ∷ b'u' ∷ b'l' ∷ b'l' ∷ []

abbrev pub zero_name : List ℕ
zero_name = b'z' ∷ b'e' ∷ b'r' ∷ b'o' ∷ []

abbrev pub random_name : List ℕ
random_name = b'r' ∷ b'a' ∷ b'n' ∷ b'd' ∷ b'o' ∷ b'm' ∷ []

abbrev pub stdin_name : List ℕ
stdin_name = b's' ∷ b't' ∷ b'd' ∷ b'i' ∷ b'n' ∷ []

abbrev pub stdout_name : List ℕ
stdout_name = b's' ∷ b't' ∷ b'd' ∷ b'o' ∷ b'u' ∷ b't' ∷ []

-- `load_device(&(this.devices[i]), name, getch, putch);`
pub load_at : ℕ → List ℕ → Option Getch → Option Putch → List Device → Outcome (List Device)
unfolding load_device
load_at i name g p devices = do
  dev ← defined (get_elem? devices i)
  loaded ← load_device dev (name ++ (0 ∷ [])) g p
  ok (set devices i loaded)

-- `_ctor` from the loop on, over the table that the memory holds; `now` is what `time(NULL)` returns.
pub init : ℕ → List Device → DevState → Outcome (List Device × DevState)
unfolding load_at
init now devices d = do
  devs0 ← load_at 0 null_name (some null_getch) (some null_putch) (clear_devices devices)
  devs1 ← load_at 1 zero_name (some zero_getch) (some null_putch) devs0
  devs2 ← load_at 2 random_name (some random_getch) none devs1
  devs3 ← load_at 3 stdin_name (some stdin_getch) none devs2
  devs4 ← load_at 4 stdout_name none (some stdout_putch) devs3
  ok (devs4, record d { rng = srand now })

-- `walk`, with what `fn` returns for the name, the number, the mode and the length.
pub walk : (List ℕ → ℤ → ℕ → ℕ → ℤ) → List Device → ℕ → ℤ
walk fn [] i = pos 0
walk fn (dev ∷ devices) i =
    let rest = walk fn devices (i + 1) in
    let value = fn dev.name (pos i) dev.mode 0 in
    if dev.valid then (if is_zero value then rest else value) else rest

-- `lookup`, from the device of number `i` on.
pub lookup : List Device → List ℕ → ℕ → Outcome ℤ
lookup [] path i = ok minus_one
lookup (dev ∷ devices) path i = elim dev.valid [
  | false ↦ lookup devices path (i + 1)
  | true ↦ strcmp path dev.name >>= λ d. elim (is_zero d) [
    | true ↦ ok (pos i)
    | false ↦ lookup devices path (i + 1)
  ]
]

-- `create`
pub create : List ℕ → ℤ
create path = minus_one

-- `access`
pub access : List Device → ℤ → ℕ → ℤ
access devices (negsuc i) mode = minus_two
access devices (pos i) mode = elim (get_elem? devices i) [
  | none ↦ minus_two
  | some dev ↦
      if dev.valid then (if mode == bit_and dev.mode mode then pos 0 else minus_one) else minus_two
]

-- `open`: the file that `New` makes in memory that the allocator gives, unless it is `none`.
pub open_inode : List Device → ℤ → ℕ → Option ℕ → ℕ → Option File
unfolding new_devfile
open_inode devices (negsuc i) flags memory fs = none
open_inode devices (pos i) flags memory fs = elim (get_elem? devices i) [
  | none ↦ none
  | some dev ↦
      if dev.valid
      then elim memory [
        | none ↦ none
        | some address ↦ some (record (new_devfile fs (pos i) flags) { refcnt = pos 1 })
      ]
      else none
]
