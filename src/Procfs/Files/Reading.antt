-- ===== src/Procfs/Files/Reading.antt =====
-- src/fs/otrofile.c: the offset stays within the bytes, and reads give them in their order.
use oslab2_virtualfs.Base.{
  ℕ, zero, suc, ◌+◌, ◌-◌, ◌^◌, ◌≤◌, ◌<◌, ◌≡◌, ◌≢◌, refl, ap, ◌∙◌, ◌⊎◌, inl, inr, List, ◌++◌, ltb,
  bit_and, length, take, drop, length-drop, ok, ◌>>=◌, ℤ, pos, negsuc, minus_one, add32, sub32,
  arith, ne→==, Bool-cases, ltb→lt, ltb_false→le,
}
use mathlib.Core.Path.{subst}
use oslab2_virtualfs.Libc.Str.Laws.{memcpy_lem}
use oslab2_virtualfs.Kvfs.{unsigned, add_ℤ, o_rdonly}
use oslab2_virtualfs.Procfs.Files.{Otrofile, read, lseek, seek_to, move_to}

-- An open file: its bytes are there, the offset is within them, and an int holds the length.
pub record IsOpen (f : Otrofile) (offset : ℕ) : Type 0 where
  pub at : f.file.offset ≡ pos offset
  pub within : offset ≤ f.length
  pub whole : f.length ≤ length f.bytes
  pub int : f.length < 2 ^ 31

moved-IsOpen :
    (f : Otrofile) (offset next : ℕ)
    → IsOpen f offset
    → next ≤ f.length
    → IsOpen (move_to next f) next
moved-IsOpen f offset next v le = record { at = refl; within = le; whole = v.whole; int = v.int }

-- A read of a readable file gives the bytes at the offset. If all that it asks for are there, it returns how
-- many they are and moves behind them; if not, it gives those that are left, moves to the end, and returns 0.
pub read_lem :
    (f : Otrofile) (offset : ℕ) (buf : List ℕ) (size : ℕ)
    → IsOpen f offset
    → bit_and f.file.flags o_rdonly ≢ 0
    → size < 2 ^ 31
    → size ≤ length buf
    → ((offset + size ≤ f.length)
        × (read f buf size
            ≡ ok (
              pos size,
              take size (drop offset f.bytes) ++ drop size buf,
              move_to (offset + size) f,
            ))
        × IsOpen (move_to (offset + size) f) (offset + size))
      ⊎ ((f.length < offset + size)
          × (read f buf size
              ≡ ok (
                pos 0,
                take (f.length - offset) (drop offset f.bytes) ++ drop (f.length - offset) buf,
                move_to f.length f,
              ))
          × IsOpen (move_to f.length f) f.length)
unfolding read
read_lem f offset buf size v readable small room =
    let here : unsigned f.file.offset ≡ offset =
      ap unsigned v.at ∙ omega (arith, v.within, v.int) in
    let sum : add32 offset size ≡ offset + size = omega (arith, v.within, v.int, small) in
    let rest : sub32 f.length offset ≡ f.length - offset = omega (arith, v.within, v.int) in
    elim (Bool-cases (ltb f.length (offset + size))) [
      | inl beyond ↦ inr (
        ltb→lt f.length (offset + size) beyond,
        rw
            (
              read,
              ne→== (bit_and f.file.flags o_rdonly) 0 readable,
              here,
              sum,
              beyond,
              here,
              rest,
              memcpy_lem (f.length - offset) buf (drop offset f.bytes)
                  (omega (arith, v.within, ltb→lt f.length (offset + size) beyond, room))
                  (omega (arith, length-drop offset f.bytes, v.whole)),
              ◌>>=◌,
            )
            refl,
        moved-IsOpen f offset f.length v (omega arith),
      )
      | inr inside ↦ inl (
        ltb_false→le f.length (offset + size) inside,
        rw
            (
              read,
              ne→== (bit_and f.file.flags o_rdonly) 0 readable,
              here,
              sum,
              inside,
              here,
              memcpy_lem size buf (drop offset f.bytes) room (
                  omega (
                    arith,
                    length-drop offset f.bytes,
                    v.whole,
                    ltb_false→le f.length (offset + size) inside,
                  )),
              ◌>>=◌,
            )
            refl,
        moved-IsOpen f offset (offset + size) v (ltb_false→le f.length (offset + size) inside),
      )
    ]

add_ℤ_zero : (z : ℤ) → add_ℤ z 0 ≡ z
add_ℤ_zero (pos n) = ap pos (omega arith)
add_ℤ_zero (negsuc n) = ground arith

-- Where `lseek` counts from.
abbrev pub origin : ℕ → ℕ → ℕ → ℕ
origin zero offset length = 0
origin (suc zero) offset length = offset
origin (suc (suc n)) offset length = length

-- A place within the bytes, or not.
abbrev pub Sought : Otrofile → ℤ → ℤ × Otrofile → Type 0
Sought f to result =
    ((next : ℕ) × (to ≡ pos next)
      × (result ≡ (pos next, move_to next f))
      × IsOpen (move_to next f) next)
    ⊎ (((next : ℕ) → to ≡ pos next → f.length < next) × (result ≡ (minus_one, f)))

seek_to-Sought : (f : Otrofile) (offset : ℕ) (to : ℤ) → IsOpen f offset → Sought f to (seek_to to f)
unfolding seek_to
seek_to-Sought f offset (negsuc n) v = inr (λ next e. absurd (ground (arith, e)), refl)
seek_to-Sought f offset (pos next) v = elim (Bool-cases (ltb f.length next)) [
  | inl beyond ↦
      inr (λ other e. omega (arith, ltb→lt f.length next beyond, pos_injective e), rw beyond refl)
  | inr inside ↦
      inl (
        next,
        refl,
        rw inside refl,
        moved-IsOpen f offset next v (ltb_false→le f.length next inside),
      )
]
  where
    pos_injective : {a b : ℕ} → pos a ≡ pos b → a ≡ b
    pos_injective e = cc

-- `lseek` from the start, the offset or the end moves to the place that is asked for and returns it, if it is
-- within the bytes, and otherwise returns -1 and leaves the file alone.
pub lseek_lem :
    (f : Otrofile) (offset : ℕ) (by : ℤ) (whence : ℕ)
    → IsOpen f offset
    → whence ≤ 2
    → Sought f (add_ℤ by (origin whence offset f.length)) (lseek f by whence)
unfolding lseek
lseek_lem f offset by zero v known =
    subst (λ to. Sought f (add_ℤ by 0) (seek_to to f)) (add_ℤ_zero by)
      (seek_to-Sought f offset (add_ℤ by 0) v)
lseek_lem f offset by (suc zero) v known =
    let here : unsigned f.file.offset ≡ offset =
      ap unsigned v.at ∙ omega (arith, v.within, v.int) in
    rw here (seek_to-Sought f offset (add_ℤ by offset) v)
lseek_lem f offset by (suc (suc zero)) v known = seek_to-Sought f offset (add_ℤ by f.length) v
lseek_lem f offset by (suc (suc (suc n))) v known = absurd (omega arith)
