-- ===== src/Devfs/Typing.antt =====
-- src/fs/devices.c and src/fs/devfile.c: what a reader of the keyboard gets for the keys that are struck.
use oslab2_virtualfs.Base.{
  ℕ, ◌≤◌, ◌≡◌, ◌≢◌, refl, ◌∙◌, Bool, true, false, not, ◌||◌, List, [], ◌∷◌, ◌++◌, some, ◌==◌,
  get_elem?, Outcome, ok, ℤ, pos, ne→==,
}
use oslab2_virtualfs.Libc.Rand.{Rng}
use oslab2_virtualfs.Devfs.Keymap.{key_none, key_lshift, key_rshift, key_capslock, key_return}
use oslab2_virtualfs.Devfs.Devices.{KbdReg, DevState, keymap, stdin_loop, getch, stdin_getch, echo}

abbrev pub press : ℕ → KbdReg
press code = record { keydown = true; keycode = code }

abbrev pub release : ℕ → KbdReg
release code = record { keydown = false; keycode = code }

-- A key that is neither a shift, nor the caps lock, nor return.
abbrev pub IsPlain : ℕ → Type 0
IsPlain code =
    (code ≢ key_none)
    × (code ≢ key_lshift)
    × (code ≢ key_rshift)
    × (code ≢ key_capslock)
    × (code ≢ key_return)

-- What the register gives while no character is struck, with the shift and the caps lock before and after.
pub data Silent : Bool → Bool → List KbdReg → Bool → Bool → Type 0 where
  nothing : {shift caps : Bool} → Silent shift caps [] shift caps
  idle :
      {shift caps shift' caps' : Bool} {down : Bool} {regs : List KbdReg}
      → Silent shift caps regs shift' caps'
      → Silent shift caps (record { keydown = down; keycode = key_none } ∷ regs) shift' caps'
  left_shift :
      {shift caps shift' caps' : Bool} {regs : List KbdReg} (down : Bool)
      → Silent down caps regs shift' caps'
      → Silent shift caps (record { keydown = down; keycode = key_lshift } ∷ regs) shift' caps'
  right_shift :
      {shift caps shift' caps' : Bool} {regs : List KbdReg} (down : Bool)
      → Silent down caps regs shift' caps'
      → Silent shift caps (record { keydown = down; keycode = key_rshift } ∷ regs) shift' caps'
  caps_lock :
      {shift caps shift' caps' : Bool} {regs : List KbdReg}
      → Silent shift (not caps) regs shift' caps'
      → Silent shift caps (press key_capslock ∷ regs) shift' caps'
  let_go :
      {shift caps shift' caps' : Bool} {regs : List KbdReg} (code : ℕ)
      → code ≢ key_lshift
      → code ≢ key_rshift
      → Silent shift caps regs shift' caps'
      → Silent shift caps (release code ∷ regs) shift' caps'
  dead_key :
      {shift caps shift' caps' : Bool} {regs : List KbdReg} (code : ℕ)
      → IsPlain code
      → get_elem? (keymap shift caps) code ≡ some 0
      → Silent shift caps regs shift' caps'
      → Silent shift caps (press code ∷ regs) shift' caps'

-- The key `code` stands for the character `ch`.
abbrev pub Shows : Bool → Bool → ℕ → ℕ → Type 0
Shows shift caps code ch =
    IsPlain code × (get_elem? (keymap shift caps) code ≡ some ch) × (ch ≢ 0) × (ch ≤ 0xff)

-- Keys that type the text of a line, with return at its end.
pub data Line : Bool → Bool → List KbdReg → List ℕ → Bool → Bool → Type 0 where
  enter :
      {shift caps shift' caps' : Bool} {regs : List KbdReg}
      → Silent shift caps regs shift' caps'
      → Line shift caps (regs ++ (press key_return ∷ [])) [] shift' caps'
  strike :
      {shift caps shift' caps' shift'' caps'' : Bool} {regs more : List KbdReg} {text : List ℕ}
      (code ch : ℕ)
      → Silent shift caps regs shift' caps'
      → Shows shift' caps' code ch
      → Line shift' caps' more text shift'' caps''
      → Line shift caps (regs ++ (press code ∷ more)) (ch ∷ text) shift'' caps''

-- The state of the keyboard with the given shift and caps lock.
abbrev pub with_keys : Bool → Bool → DevState → DevState
with_keys shift caps d = record d { shiftcnt = shift; capslock = caps }

-- A press of a plain key goes to the keymap.
plain_press :
    (shift caps : Bool) (code : ℕ) (ch : ℕ) (more : List KbdReg) (d : DevState)
    → IsPlain code
    → get_elem? (keymap shift caps) code ≡ some ch
    → stdin_loop (press code ∷ more) (with_keys shift caps d) ≡ elim (ch == 0) [
      | true ↦ stdin_loop more (with_keys shift caps d)
      | false ↦ echo ch more (with_keys shift caps d)
    ]
unfolding stdin_loop
plain_press shift caps code ch more d (n, l, r, c, e) shows =
    rw
      (
        stdin_loop,
        ne→== code key_none n,
        ne→== code key_lshift l,
        ne→== code key_rshift r,
        ne→== code key_capslock c,
        ne→== code key_return e,
        shows,
      )
      refl

released :
    (code : ℕ) (more : List KbdReg) (d : DevState)
    → code ≢ key_lshift
    → code ≢ key_rshift
    → stdin_loop (release code ∷ more) d ≡ stdin_loop more d
unfolding stdin_loop
released code more d l r = step (code == key_none)
  where
    step :
        (none : Bool)
        → elim none as (λ _. Outcome (ℤ × DevState)) [
          | true ↦ stdin_loop more d
          | false ↦
              elim (code == key_lshift || code == key_rshift) as (λ _. Outcome (ℤ × DevState)) [
                | true ↦ stdin_loop more (record d { shiftcnt = false })
                | false ↦ stdin_loop more d
              ]
        ]
          ≡ stdin_loop more d
    step true = refl
    step false = rw (ne→== code key_lshift l, ne→== code key_rshift r) refl

silent_lem :
    {shift caps shift' caps' : Bool} {regs : List KbdReg} (more : List KbdReg) (d : DevState)
    → Silent shift caps regs shift' caps'
    → stdin_loop (regs ++ more) (with_keys shift caps d)
      ≡ stdin_loop more (with_keys shift' caps' d)
unfolding stdin_loop
silent_lem more d nothing = refl
silent_lem more d (idle s) = silent_lem more d s
silent_lem more d (left_shift down s) = silent_lem more d s
silent_lem more d (right_shift down s) = silent_lem more d s
silent_lem more d (caps_lock s) = silent_lem more d s
silent_lem more d (let_go {shift} {caps} {regs = regs} code l r s) =
    released code (regs ++ more) (with_keys shift caps d) l r ∙ silent_lem more d s
silent_lem more d (dead_key {shift} {caps} {regs = regs} code plain dead s) =
    plain_press shift caps code 0 (regs ++ more) d plain dead ∙ silent_lem more d s

abbrev pub keyboard : Bool → Bool → Bool → List KbdReg → List ℕ → Rng → DevState
keyboard shift caps ret input console rng = record {
  shiftcnt = shift;
  capslock = caps;
  ret = ret;
  input = input;
  console = console;
  rng = rng;
}

-- `dev_stdin_getch`, once a key that stands for a character is struck, returns the character that the shift
-- and the caps lock choose, whatever the keyboard gave before that, and echoes it.
pub getch-Shows :
    {shift caps shift' caps' : Bool} {regs : List KbdReg} (code ch : ℕ) (more : List KbdReg)
    (console : List ℕ) (rng : Rng)
    → Silent shift caps regs shift' caps'
    → Shows shift' caps' code ch
    → getch stdin_getch (keyboard shift caps false (regs ++ (press code ∷ more)) console rng)
      ≡ ok (pos ch, keyboard shift' caps' false more (console ++ (ch ∷ [])) rng)
unfolding getch
getch-Shows {shift} {caps} {shift'} {caps'} {regs} code ch more console rng s
      (plain, shows, real, byte) =
    let d = keyboard shift caps false (regs ++ (press code ∷ more)) console rng in
    silent_lem (press code ∷ more) d s
    ∙ plain_press shift' caps' code ch more d plain shows
    ∙ rw (ne→== ch 0 real) refl

pub getch_return :
    {shift caps shift' caps' : Bool} {regs : List KbdReg} (more : List KbdReg) (console : List ℕ)
    (rng : Rng)
    → Silent shift caps regs shift' caps'
    → getch stdin_getch (keyboard shift caps false (regs ++ (press key_return ∷ more)) console rng)
      ≡ ok (pos 10, keyboard shift' caps' true more (console ++ (10 ∷ [])) rng)
unfolding getch stdin_loop
getch_return {shift} {caps} {regs = regs} more console rng s =
    silent_lem (press key_return ∷ more)
      (keyboard shift caps false (regs ++ (press key_return ∷ more)) console rng) s
