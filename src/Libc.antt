-- ===== src/Libc.antt =====
-- The C library's strings, blocks and numbers: libc/common. Memory is a function from addresses to
-- `char` values, which are signed; a loop that runs to a string's end takes fuel, and `none` means
-- that the fuel ran out.
pub mod Str
pub mod Block
pub mod Num
mod Tests
use xinu_swd.Prelude.{ℕ}
use xinu_swd.Prelude.Int.{ℤ}

abbrev pub Memory : Type 0
Memory = ℕ → ℤ
