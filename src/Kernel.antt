-- ===== src/Kernel.antt =====
-- The kernel's state (include/proc.h, include/sem.h, include/sleep.h) and the calls of
-- xinu/sys/common that change it. A call takes the state and returns its value with the new state;
-- `none` means that the rounds given to a list's loop ran out. `disable` and `restore` bracket each
-- call, so a call is atomic. A call that gives the processor away returns the value which its caller
-- gets when it runs again.
pub mod Names
pub mod Inv
pub mod Moves
pub mod Entry
pub mod State
pub mod Sched
pub mod Sem
pub mod Msg
pub mod Example
mod Tests
pub mod Clock
use xinu_swd.Prelude.{ℕ, Bool, true, false, Option, none, some}
use xinu_swd.Prelude.Int.{ℤ}
use xinu_swd.Queue.{Qtab, update}

-- `PRCURR` and the other process states of proc.h.
pub data Pstate : Type 0 where
  curr free ready recv sleep susp wait trecv : Pstate

abbrev pub is_curr : Pstate → Bool
is_curr curr = true
is_curr _ = false

abbrev pub is_free : Pstate → Bool
is_free free = true
is_free _ = false

abbrev pub is_ready : Pstate → Bool
is_ready ready = true
is_ready _ = false

abbrev pub is_susp : Pstate → Bool
is_susp susp = true
is_susp _ = false

abbrev pub is_sleep : Pstate → Bool
is_sleep sleep = true
is_sleep _ = false

abbrev pub is_recv : Pstate → Bool
is_recv recv = true
is_recv _ = false

abbrev pub is_trecv : Pstate → Bool
is_trecv trecv = true
is_trecv _ = false

-- The scheduling part of `struct pentry`. `phasmsg` is a `char`: a byte.
pub record Pentry : Type 0 where
  pub pstate : Pstate
  pub pprio : ℤ
  pub psem : ℤ
  pub pmsg : ℤ
  pub phasmsg : ℕ
  pub pnxtkin : ℤ

-- `SFREE` and `SUSED` of sem.h.
pub data Sstate : Type 0 where
  sfree sused : Sstate

abbrev pub is_sfree : Sstate → Bool
is_sfree sfree = true
is_sfree sused = false

pub record Sentry : Type 0 where
  pub sstate : Sstate
  pub semcnt : ℤ
  pub sqhead : ℤ
  pub sqtail : ℤ

-- The kernel's global variables. `sltop` is the entry of `q` whose key it points to.
pub record Kernel : Type 0 where
  pub q : Qtab
  pub proctab : ℤ → Pentry
  pub semaph : ℤ → Sentry
  pub currpid : ℤ
  pub rdyhead : ℤ
  pub rdytail : ℤ
  pub nextsem : ℤ
  pub preempt : ℤ
  pub clkruns : Bool
  pub clockq : ℤ
  pub slnempty : Bool
  pub sltop : ℤ
  pub defclk : ℤ
  pub clkdiff : ℤ

abbrev pub M : Type 0 → Type 0
M A = Kernel → Option (A × Kernel)

abbrev pub pure : {A : Type 0} → A → M A
pure a k = some (a, k)

infixl 5 ◌>>=◌ ◌>>◌
abbrev pub ◌>>=◌ : {A B : Type 0} → M A → (A → M B) → M B
◌>>=◌ m f k = elim (m k) [ none ↦ none | some (a, k') ↦ f a k' ]

abbrev pub ◌>>◌ : {A B : Type 0} → M A → M B → M B
m >> n = m >>= λ _. n

-- What a statement that only changes the state does.
abbrev pub modify : (Kernel → Kernel) → M (Unit {0})
modify f k = some (tt, f k)

-- A table operation that may run out of rounds.
abbrev pub on_q : (Qtab → Option Qtab) → M (Unit {0})
on_q f k = elim (f k.q) [ none ↦ none | some t ↦ some (tt, record k { q = t }) ]

abbrev pub set_pstate : ℤ → Pstate → Kernel → Kernel
set_pstate pid s k = record k {
  proctab = update k.proctab pid (record (k.proctab pid) { pstate = s });
}

abbrev pub set_pprio : ℤ → ℤ → Kernel → Kernel
set_pprio pid p k = record k {
  proctab = update k.proctab pid (record (k.proctab pid) { pprio = p });
}

-- `pstate = PRWAIT` and `psem = s`
abbrev pub set_waiting : ℤ → ℤ → Kernel → Kernel
set_waiting pid s k = record k {
  proctab = update k.proctab pid (record (k.proctab pid) { pstate = Pstate.wait; psem = s });
}

-- `pmsg = m` and `phasmsg = n`
abbrev pub set_msg : ℤ → ℤ → ℕ → Kernel → Kernel
set_msg pid m n k = record k {
  proctab = update k.proctab pid (record (k.proctab pid) { pmsg = m; phasmsg = n });
}

abbrev pub set_phasmsg : ℤ → ℕ → Kernel → Kernel
set_phasmsg pid n k = record k {
  proctab = update k.proctab pid (record (k.proctab pid) { phasmsg = n });
}

abbrev pub set_pnxtkin : ℤ → ℤ → Kernel → Kernel
set_pnxtkin pid n k = record k {
  proctab = update k.proctab pid (record (k.proctab pid) { pnxtkin = n });
}

abbrev pub set_semcnt : ℤ → ℤ → Kernel → Kernel
set_semcnt s n k = record k { semaph = update k.semaph s (record (k.semaph s) { semcnt = n }) }

abbrev pub set_sstate : ℤ → Sstate → Kernel → Kernel
set_sstate s st k = record k { semaph = update k.semaph s (record (k.semaph s) { sstate = st }) }
