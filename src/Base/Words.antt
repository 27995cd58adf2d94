-- ===== src/Base/Words.antt =====
-- `size_t`, `uintptr_t` and `unsigned` of the 32-bit target: words that wrap.
use Prim.Native.Nat.{ℕ, ◌+◌, ◌-◌, ◌*◌, ◌%◌, ◌^◌}

abbrev pub word_bits : ℕ
word_bits = 32

abbrev pub word_limit : ℕ
word_limit = 2 ^ word_bits

abbrev pub add32 : ℕ → ℕ → ℕ
add32 a b = (a + b) % word_limit

abbrev pub sub32 : ℕ → ℕ → ℕ
sub32 a b = (a + word_limit - b) % word_limit

abbrev pub mul32 : ℕ → ℕ → ℕ
mul32 a b = (a * b) % word_limit

-- `(size_t)1 << n`, for a count below the width.
abbrev pub one_shl32 : ℕ → ℕ
one_shl32 n = 2 ^ n % word_limit
