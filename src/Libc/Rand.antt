-- ===== src/Libc/Rand.antt =====
-- libc/src/stdlib/rand.c: the xorshift+ generator.
use oslab2_virtualfs.Base.{ℕ, ◌+◌, ◌*◌, ◌/◌, ◌%◌, ◌^◌, ◌<◌, bit_xor, ◌==◌, if◌then◌else◌, arith}

-- `state[0]` and `state[1]`.
pub record Rng : Type 0 where
  pub state0 : ℕ
  pub state1 : ℕ

abbrev pub u64_limit : ℕ
u64_limit = 2 ^ 64

abbrev pub initial : Rng
initial = record { state0 = 0x3141592653589793 + 1; state1 = 0xFEDCBA9876543210 }

pub srand : ℕ → Rng
srand seed =
    if seed == 0
    then record { state0 = 0x0123456789ABCDEF; state1 = 0x1A4F2B8E5C7D2718 }
    else record { state0 = (seed + 0x3141592653589793) % u64_limit; state1 = 0xFEDCBA9876543210 }

-- `x ^= x << 23`
abbrev shifted : ℕ → ℕ
shifted x = bit_xor x (x * 2 ^ 23 % u64_limit)

unfoldable pub rand : Rng → ℕ × Rng
rand s =
    let y = s.state1 in
    let x = shifted s.state0 in
    let next = bit_xor (bit_xor (bit_xor x y) (x / 2 ^ 17)) (y / 2 ^ 26) in
    ((next + y) % 2 ^ 32 % 2 ^ 31, record { state0 = y; state1 = next })

-- `rand` returns at most RAND_MAX, whatever the state.
pub rand-lt : (s : Rng) → (rand s).0 < 2 ^ 31
unfolding rand
rand-lt s = omega arith
