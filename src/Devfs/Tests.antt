-- ===== src/Devfs/Tests.antt =====
-- src/fs/devfs.c and its devices on concrete keys and names.
use oslab2_virtualfs.Base.{
  ℕ, ◌≡◌, refl, arith, true, false, List, [], ◌∷◌, ◌++◌, some, none, replicate, ok, ℤ, pos,
}
use oslab2_virtualfs.Libc.Str.Laws.{IsText, stored}
use oslab2_virtualfs.Libc.Rand.{initial, srand}
use oslab2_virtualfs.Vfs.Methods.{File}
use oslab2_virtualfs.Devfs.Keymap.{key_lshift, key_return}
use oslab2_virtualfs.Devfs.Devices.{KbdReg, Device, stdin_getch}
use oslab2_virtualfs.Devfs.Devfile.{read}
use oslab2_virtualfs.Devfs.{init, lookup, random_name}
use oslab2_virtualfs.Devfs.Typing.{
  press, release, keyboard, Shows, Silent, nothing, left_shift, let_go, Line, enter, strike,
}
use oslab2_virtualfs.Devfs.Reading.{read-Line}
use oslab2_virtualfs.Devfs.Naming.{Named, init-Named}

abbrev key_h : ℕ
key_h = 48

abbrev key_i : ℕ
key_i = 36

h_Shows : Shows true false key_h b'H'
h_Shows = (ground arith, refl, ground arith, ground arith)

i_Shows : Shows false false key_i b'i'
i_Shows = (ground arith, refl, ground arith, ground arith)

shifted : Silent false false (press key_lshift ∷ []) true false
shifted = left_shift true nothing

back : Silent true false (release key_lshift ∷ release key_h ∷ []) false false
back = left_shift false (let_go key_h (ground arith) (ground arith) nothing)

abbrev keys : List KbdReg
keys =
    press key_lshift
    ∷ press key_h
    ∷ release key_lshift
    ∷ release key_h
    ∷ press key_i
    ∷ press key_return
    ∷ []

-- "Hi" and return.
hi : Line false false keys (b'H' ∷ b'i' ∷ []) false false
hi = strike key_h b'H' shifted h_Shows (strike key_i b'i' back i_Shows (enter nothing))

abbrev keyboard_device : Device
keyboard_device = record {
  valid = true;
  name = b's' ∷ 0 ∷ [];
  mode = 4;
  getch = some stdin_getch;
  putch = none;
}

abbrev keyboard_file : File
keyboard_file = record { fs = 4096; inode = pos 0; refcnt = pos 1; offset = pos 0; flags = 4 }

read-Line_example :
    read
      (keyboard_device ∷ [])
      keyboard_file
      (replicate 8 b'?')
      8
      (keyboard false false false (keys ++ (press key_h ∷ [])) [] initial)
    ≡ ok (
      (pos 3, b'H' ∷ b'i' ∷ 10 ∷ replicate 5 b'?'),
      keyboard false false false (press key_h ∷ []) (b'H' ∷ b'i' ∷ 10 ∷ []) initial,
    )
read-Line_example =
    read-Line (keyboard_device ∷ []) keyboard_device keyboard_file 8 (replicate 8 b'?')
      (press key_h ∷ []) [] initial refl refl (ground arith) hi (omega arith) (omega arith)

abbrev blank_device : Device
blank_device = record { valid = true; name = replicate 32 0; mode = 0; getch = none; putch = none }

random_name-IsText : IsText random_name
random_name-IsText = ground arith

init-Named_example :
    (devices : List Device) × (init 7
        (replicate 16 blank_device)
        (keyboard false false false [] [] initial)
      ≡ ok (devices, keyboard false false false [] [] (srand 7)))
    × (n : ℤ) × (lookup devices (stored random_name []) 0 ≡ ok n)
    × Named random_name n
init-Named_example =
    init-Named 7 blank_device blank_device blank_device blank_device blank_device
      (replicate 11 blank_device) (keyboard false false false [] [] initial) random_name []
      (
        refl,
        (
          refl,
          (
            refl,
            (
              refl,
              (
                refl,
                (
                  refl,
                  (
                    refl,
                    (refl, (refl, (refl, (refl, (refl, (refl, (refl, (refl, (refl, tt))))))))),
                  ),
                ),
              ),
            ),
          ),
        ),
      )
      random_name-IsText
