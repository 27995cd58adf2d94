-- ===== src/Devfs/Devices.antt =====
-- src/fs/devices.c: the devices, and the keyboard as a state machine.
use oslab2_virtualfs.Base.{
  ℕ, Bool, true, false, not, ◌||◌, List, [], ◌∷◌, ◌++◌, Option, none, some, ◌==◌, if◌then◌else◌,
  bit_and, get_elem?, Outcome, ok, undefined, unfinished, ℤ, pos, minus_one, minus_two,
}
use oslab2_virtualfs.Libc.Rand.{Rng, rand}
use oslab2_virtualfs.Devfs.Keymap.{
  keymap_lower, keymap_upper, key_none, key_lshift, key_rshift, key_capslock, key_return,
}

-- `_KbdReg`
pub record KbdReg : Type 0 where
  pub keydown : Bool
  pub keycode : ℕ

-- The static variables of `dev_stdin_getch` and of rand.c, what the keyboard's register gives at one read
-- after another, and what has gone to `_putc`.
pub record DevState : Type 0 where
  pub shiftcnt : Bool
  pub capslock : Bool
  pub ret : Bool
  pub input : List KbdReg
  pub console : List ℕ
  pub rng : Rng

-- `keymap[shiftcnt ^ capslock]`
abbrev pub keymap : Bool → Bool → List ℕ
keymap false false = keymap_lower
keymap true true = keymap_lower
keymap true false = keymap_upper
keymap false true = keymap_upper

-- `_putc(ch); return ch;`
abbrev pub echo : ℕ → List KbdReg → DevState → Outcome (ℤ × DevState)
echo ch input d = ok (pos ch, record d { input = input; console = d.console ++ (ch ∷ []) })

-- The `default` of the `switch`; `wait` is the next pass of the loop.
abbrev pub key_default :
    Option ℕ → List KbdReg → DevState → Outcome (ℤ × DevState) → Outcome (ℤ × DevState)
key_default none input d wait = undefined
key_default (some ch) input d wait = elim (ch == 0) [ true ↦ wait | false ↦ echo ch input d ]

-- The `while (1)` of `dev_stdin_getch`: `unfinished` is a thread that still waits for a key.
unfoldable pub stdin_loop : List KbdReg → DevState → Outcome (ℤ × DevState)
stdin_loop [] d = unfinished
stdin_loop (reg ∷ input) d = elim (reg.keycode == key_none) [
  | true ↦ stdin_loop input d
  | false ↦ elim (reg.keycode == key_lshift || reg.keycode == key_rshift) [
    | true ↦ stdin_loop input (record d { shiftcnt = reg.keydown })
    | false ↦ elim reg.keydown [
      | false ↦ stdin_loop input d
      | true ↦ elim (reg.keycode == key_capslock) [
        | true ↦ stdin_loop input (record d { capslock = not d.capslock })
        | false ↦ elim (reg.keycode == key_return) [
          | true ↦ echo 10 input (record d { ret = true })
          | false ↦
              key_default (get_elem? (keymap d.shiftcnt d.capslock) reg.keycode) input d
                (stdin_loop input d)
        ]
      ]
    ]
  ]
]

-- The functions behind `getch` and `putch`.
pub data Getch : Type 0 where
  null_getch : Getch
  zero_getch : Getch
  random_getch : Getch
  stdin_getch : Getch

pub data Putch : Type 0 where
  null_putch : Putch
  stdout_putch : Putch

unfoldable pub getch : Getch → DevState → Outcome (ℤ × DevState)
unfolding stdin_loop
getch null_getch d = ok (minus_one, d)
getch zero_getch d = ok (pos 0, d)
getch random_getch d =
    let (r, rng) = rand d.rng in ok (pos (bit_and r 0xff), record d { rng = rng })
getch stdin_getch d =
    if d.ret then ok (minus_two, record d { ret = false }) else stdin_loop d.input d

unfoldable pub putch : Putch → ℕ → DevState → ℤ × DevState
putch null_putch ch d = (pos 0, d)
putch stdout_putch ch d = (pos 0, record d { console = d.console ++ (ch ∷ []) })

-- `struct device`: `name` has 32 bytes, and `none` is NULL.
pub record Device : Type 0 where
  pub valid : Bool
  pub name : List ℕ
  pub mode : ℕ
  pub getch : Option Getch
  pub putch : Option Putch
