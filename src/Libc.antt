-- ===== src/Libc.antt =====
-- The parts of libc/src that the kernel computes with.
pub mod Str
pub mod Rand
pub mod Ctype
pub mod Atoi
pub mod Printf
pub mod Time
mod Tests
