-- ===== src/Devfs/Reading.antt =====
-- src/fs/devfile.c: a read of the keyboard is a line.
use oslab2_virtualfs.Base.{
  ℕ, zero, suc, ◌+◌, ◌≤◌, ◌≡◌, ◌≢◌, refl, ap, ◌∙◌, Bool, true, false, List, [], ◌∷◌, ◌++◌, some,
  length, drop, ok, ◌>>=◌, ℤ, pos, arith, bit_and, ne→==, le→ltb_false,
}
use oslab2_virtualfs.Libc.Rand.{Rng}
use oslab2_virtualfs.Devfs.Keymap.{key_return}
use oslab2_virtualfs.Devfs.Devices.{Device, KbdReg, DevState, getch, stdin_getch}
use oslab2_virtualfs.Devfs.Devfile.{read_loop, read, device_at, r_ok}
use oslab2_virtualfs.Vfs.Methods.{File}
use oslab2_virtualfs.Devfs.Typing.{press, Line, enter, strike, keyboard, getch-Shows, getch_return}

-- A character that `getch` returns goes into the buffer.
read_char :
    (size ch cnt b : ℕ) (buf : List ℕ) (d d' d'' : DevState) (value : ℤ) (filled : List ℕ)
    → getch stdin_getch d ≡ ok (pos ch, d')
    → ch ≤ 0xff
    → read_loop size stdin_getch buf (cnt + 1) d' ≡ ok ((value, filled), d'')
    → read_loop (suc size) stdin_getch (b ∷ buf) cnt d ≡ ok ((value, ch ∷ filled), d'')
unfolding read_loop
read_char size ch cnt b buf d d' d'' value filled gets byte rest =
    rw (read_loop, gets, ◌>>=◌, le→ltb_false 0xff ch byte, rest, ◌>>=◌) refl

append_assoc : (xs ys zs : List ℕ) → (xs ++ ys) ++ zs ≡ xs ++ (ys ++ zs)
append_assoc [] ys zs = refl
append_assoc (x ∷ xs) ys zs = ap (◌∷◌ x) (append_assoc xs ys zs)

regs_assoc : (xs ys zs : List KbdReg) → (xs ++ ys) ++ zs ≡ xs ++ (ys ++ zs)
regs_assoc [] ys zs = refl
regs_assoc (x ∷ xs) ys zs = ap (◌∷◌ x) (regs_assoc xs ys zs)

ap₃ {ℓ} :
    {A : Type ℓ} (f : ℕ → List ℕ → List ℕ → A) {n n' : ℕ} {xs xs' ys ys' : List ℕ}
    → n ≡ n'
    → xs ≡ xs'
    → ys ≡ ys'
    → f n xs ys ≡ f n' xs' ys'
ap₃ f p q r = rw (p, q, r) refl

drop_next : (n b : ℕ) (buf : List ℕ) → drop (n + 1) buf ≡ drop (suc n + 1) (b ∷ buf)
drop_next n b buf = let e : suc n + 1 ≡ suc (n + 1) = omega arith in rw e refl

-- `read` of the keyboard gives a line: the characters that were typed and the newline, in the buffer and on
-- the console. It returns as soon as return is struck, and leaves what is struck afterwards.
read_loop-Line :
    {shift caps shift' caps' : Bool} {regs : List KbdReg} {text : List ℕ} (size cnt : ℕ)
    (buf : List ℕ) (more : List KbdReg) (console : List ℕ) (rng : Rng)
    → Line shift caps regs text shift' caps'
    → length text + 2 ≤ size
    → length text + 1 ≤ length buf
    → read_loop size stdin_getch buf cnt (keyboard shift caps false (regs ++ more) console rng)
      ≡ ok (
        (pos (cnt + (length text + 1)), text ++ (10 ∷ drop (length text + 1) buf)),
        keyboard shift' caps' false more (console ++ (text ++ (10 ∷ []))) rng,
      )
unfolding read_loop getch
read_loop-Line zero cnt buf more console rng l room fits = absurd (omega arith)
read_loop-Line (suc size) cnt [] more console rng l room fits = absurd (omega arith)
read_loop-Line (suc zero) cnt (b ∷ buf) more console rng l room fits = absurd (omega arith)
read_loop-Line (suc (suc size)) cnt (b ∷ buf) more console rng
      (enter {shift} {caps} {shift'} {caps'} {regs} s) room fits =
    read_char (suc size) 10 cnt b buf
      (keyboard shift caps false ((regs ++ (press key_return ∷ [])) ++ more) console rng)
      (keyboard shift' caps' true more (console ++ (10 ∷ [])) rng) _ _ _
      (ap (λ input. getch stdin_getch (keyboard shift caps false input console rng))
          (regs_assoc regs (press key_return ∷ []) more)
        ∙ getch_return more console rng s)
      (omega arith) refl
read_loop-Line (suc (suc size)) cnt (b ∷ buf) more console rng
      (strike {shift} {caps} {shift'} {caps'} {shift''} {caps''} {regs} {more = next} {text} code ch
        s shows l)
      room fits =
    read_char (suc size) ch cnt b buf
      (keyboard shift caps false ((regs ++ (press code ∷ next)) ++ more) console rng)
      (keyboard shift' caps' false (next ++ more) (console ++ (ch ∷ [])) rng) _ _ _
      (ap (λ input. getch stdin_getch (keyboard shift caps false input console rng))
          (regs_assoc regs (press code ∷ next) more)
        ∙ getch-Shows code ch (next ++ more) console rng s shows)
      shows.3
      (read_loop-Line (suc size) (cnt + 1) buf more (console ++ (ch ∷ [])) rng l (omega arith)
        (omega arith))
    ∙ ap₃
        (λ n tail log.
          ok ((pos n, ch ∷ (text ++ (10 ∷ tail))), keyboard shift'' caps'' false more log rng))
        (omega arith) (drop_next (length text) b buf)
        (append_assoc console (ch ∷ []) (text ++ (10 ∷ [])))

-- When no earlier read has left the flag for return set, and the size is at least two more than the characters
-- of the line, `read` on a readable file of the keyboard gives a line: the characters that were typed and the newline, in the buffer
-- and on the console. It returns once return is struck, and leaves what is struck afterwards.
pub read-Line :
    {shift caps shift' caps' : Bool} {regs : List KbdReg} {text : List ℕ} (devices : List Device)
    (dev : Device) (file : File) (size : ℕ) (buf : List ℕ) (more : List KbdReg) (console : List ℕ)
    (rng : Rng)
    → device_at devices file.inode ≡ ok dev
    → dev.getch ≡ some stdin_getch
    → bit_and file.flags r_ok ≢ 0
    → Line shift caps regs text shift' caps'
    → length text + 2 ≤ size
    → length text + 1 ≤ length buf
    → read devices file buf size (keyboard shift caps false (regs ++ more) console rng)
      ≡ ok (
        (pos (length text + 1), text ++ (10 ∷ drop (length text + 1) buf)),
        keyboard shift' caps' false more (console ++ (text ++ (10 ∷ []))) rng,
      )
unfolding read
read-Line {shift' = shift'} {caps' = caps'} {text = text} devices dev file size buf more console rng
      at gets readable l room fits =
    rw (ne→== (bit_and file.flags r_ok) 0 readable, at, ◌>>=◌, gets)
      (read_loop-Line size 0 buf more console rng l room fits
        ∙ ap
            (λ n. ok (
              (pos n, text ++ (10 ∷ drop (length text + 1) buf)),
              keyboard shift' caps' false more (console ++ (text ++ (10 ∷ []))) rng,
            ))
            (omega arith))
