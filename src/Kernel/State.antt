-- ===== src/Kernel/State.antt =====
-- The kernel's invariant between calls, and at the point where `resched` is called.
use xinu_swd.Prelude.{◌≡◌, true, false, ◌||◌, Bool-cases, inl, inr, if◌then◌else◌}
use xinu_swd.Prelude.Int.{ℤ, pos, ◌==ℤ◌, ◌≤ℤ◌}
use xinu_swd.Conf.{null_proc, maxint, is_bad_sem}
use xinu_swd.Queue.{update}
use xinu_swd.Queue.Lists.{IsSlot}
use xinu_swd.Kernel.{is_curr, is_ready, is_sfree, Pentry, Sentry, Kernel}
use xinu_swd.Kernel.Names.{ready_list, sem_list}
use xinu_swd.Kernel.Inv.{Lists, IsTable, IsLayout, IsReady, CountIs}

-- Every priority lies between that of the null process and the largest key.
abbrev pub IsPrios : (ℤ → Pentry) → Type 0
IsPrios proctab = (a : ℤ) → IsSlot a → (pos 0 ≤ℤ (proctab a).pprio) × ((proctab a).pprio ≤ℤ maxint)

-- What holds also while a call changes the running process's state.
pub record IsSwitching (k : Kernel) (lists : Lists) : Type 0 where
  pub table : IsTable k.q k.proctab lists
  pub layout : IsLayout k
  pub ready : IsReady k.q k.proctab (lists ready_list)
  pub prios : IsPrios k.proctab
  pub slot : IsSlot k.currpid
  pub alone : (a : ℤ) → IsSlot a → (a ==ℤ k.currpid) ≡ false → is_curr (k.proctab a).pstate ≡ false
  pub idle : (is_curr (k.proctab null_proc).pstate || is_ready (k.proctab null_proc).pstate) ≡ true

-- A semaphore counts the processes on its list; one that is not in use has none.
abbrev pub count_of : Sentry → ℤ
count_of p = if is_sfree p.sstate then pos 0 else p.semcnt

abbrev pub IsCounted : (ℤ → Sentry) → Lists → Type 0
IsCounted semaph lists =
    (s : ℤ) → is_bad_sem s ≡ false → CountIs (count_of (semaph s)) (lists (sem_list s))

-- No process runs: the point at which the next one is chosen.
pub record IsParked (k : Kernel) (lists : Lists) : Type 0 where
  pub table : IsTable k.q k.proctab lists
  pub layout : IsLayout k
  pub ready : IsReady k.q k.proctab (lists ready_list)
  pub prios : IsPrios k.proctab
  pub none_runs : (a : ℤ) → IsSlot a → is_curr (k.proctab a).pstate ≡ false
  pub idle : is_ready (k.proctab null_proc).pstate ≡ true

pub record IsKernel (k : Kernel) (lists : Lists) : Type 0 where
  pub switching : IsSwitching k lists
  pub counted : IsCounted k.semaph lists
  pub running : is_curr (k.proctab k.currpid).pstate ≡ true

-- An entry with the same priority, or another one in range.
pub update-IsPrios :
    (proctab : ℤ → Pentry) (pid : ℤ) (p : Pentry)
    → IsPrios proctab
    → (pos 0 ≤ℤ p.pprio) × (p.pprio ≤ℤ maxint)
    → IsPrios (update proctab pid p)
update-IsPrios proctab pid p prios h a sa = elim (Bool-cases (a ==ℤ pid)) [
  | inl i ↦ rw i h
  | inr i ↦ rw i (prios a sa)
]
