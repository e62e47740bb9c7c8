-- ===== src/Conf.antt =====
-- The constants of include/68000/kernel.h, include/proc.h and xinu/config/mio/conf.h.
-- A C `int` is an unbounded integer here; the constants keep their 32-bit values.
use xinu_swd.Prelude.{◌-◌, ◌^◌, Bool, ◌||◌}
use xinu_swd.Prelude.Int.{ℤ, pos, negsuc, leb_ℤ, ltb_ℤ}

abbrev pub n_proc : ℤ
n_proc = pos 50

abbrev pub n_sem : ℤ
n_sem = pos 512

-- `OK`, `SYSERR`, `EMPTY`, `TIMEOUT`
abbrev pub ok : ℤ
ok = pos 1

abbrev pub syserr : ℤ
syserr = negsuc 0

abbrev pub empty : ℤ
empty = negsuc 0

abbrev pub timeout : ℤ
timeout = negsuc 2

abbrev pub minint : ℤ
minint = negsuc (2 ^ 31 - 1)

abbrev pub maxint : ℤ
maxint = pos (2 ^ 31 - 1)

abbrev pub quantum : ℤ
quantum = pos 10

abbrev pub null_proc : ℤ
null_proc = pos 0

abbrev pub bad_pid : ℤ
bad_pid = negsuc 0

-- `isbadpid(x)`: also the null process is refused.
abbrev pub is_bad_pid : ℤ → Bool
is_bad_pid x = leb_ℤ x (pos 0) || leb_ℤ n_proc x

abbrev pub is_bad_sem : ℤ → Bool
is_bad_sem s = ltb_ℤ s (pos 0) || leb_ℤ n_sem s
