-- ===== src/Kernel/Example.antt =====
-- A kernel at work, for the examples: process 1 runs at priority 20, and only the null process is
-- ready; the lists are those that `sysinit` makes (xinu/sys/mio/initialize.c).
use xinu_swd.Prelude.{
  ◌%◌, ◌≡◌, refl, sym, true, false, some, [], ◌∷◌, arith, Bool-cases, inl, inr, if◌then◌else◌, ◌==◌,
}
use xinu_swd.Prelude.Int.{ℤ, pos, negsuc, ◌==ℤ◌, ◌+ℤ◌, ◌-ℤ◌, pos_part}
use mathlib.Core.Path.{subst}
use xinu_swd.Conf.{minint, maxint, quantum}
use xinu_swd.Queue.{Qtab, update, seek, link_in, insert}
use xinu_swd.Queue.Order.{place}
use xinu_swd.Kernel.{Pstate, curr, free, Pentry, sfree, sused, Sentry, Kernel}
use xinu_swd.Kernel.Names.{QName, ready_list, clock_list, sem_list, head_of, tail_of, out_of_slots}
use xinu_swd.Kernel.Inv.{Lists, relist, is_home, IsTable, IsReady}
use xinu_swd.Kernel.Moves.{Homeless-of, insert-Ready}
use xinu_swd.Kernel.State.{IsSwitching, IsCounted, IsKernel, IsPrios}

-- Every list is empty: heads have even indices, and each tail is one behind its head.
abbrev empty_table : Qtab
empty_table = record {
  qkey = λ i. if pos_part i % 2 == 0 then minint else maxint;
  qnext = λ i. i +ℤ pos 1;
  qprev = λ i. i -ℤ pos 1;
}

abbrev no_lists : Lists
no_lists n = []

abbrev entry : Pstate → ℤ → Pentry
entry s p = record {
  pstate = s;
  pprio = p;
  psem = pos 0;
  pmsg = pos 0;
  phasmsg = 0;
  pnxtkin = negsuc 0;
}

-- Process 1 runs, and the null process is not on a list yet.
abbrev start_procs : ℤ → Pentry
start_procs i = if i ==ℤ pos 1 then entry curr (pos 20) else entry free (pos 0)

start_chain : (n : QName) → (head_of n +ℤ pos 1 ≡ tail_of n) × (tail_of n -ℤ pos 1 ≡ head_of n)
unfolding ◌+ℤ◌ ◌-ℤ◌
start_chain ready_list = ground arith
start_chain clock_list = ground arith
start_chain (sem_list s) = ground arith

start_homeless : (a : ℤ) (n : QName) → is_home (start_procs a) n ≡ false
start_homeless a n = elim (Bool-cases (a ==ℤ pos 1)) [
  | inl i ↦ rw i (Homeless-of (entry curr (pos 20)) refl n)
  | inr i ↦ rw i (Homeless-of (entry free (pos 0)) refl n)
]

IsTable-start : IsTable empty_table start_procs no_lists
IsTable-start = record {
  queues = λ n hn. record {
    chain = start_chain n;
    distinct = tt;
    ends = (out_of_slots n).2;
    slots = tt;
    head_out = (out_of_slots n).0;
    tail_out = (out_of_slots n).1;
  };
  homes = λ a n sa hn. sym (start_homeless a n);
}

IsReady-start : IsReady empty_table start_procs []
IsReady-start = record { sorted = tt; keys = λ a h. absurd (cc); low = refl; high = refl }

-- The null process put on the ready list.
abbrev pub table : Qtab
table = link_in (pos 0) (pos 0) (pos 1075) empty_table

insert_null : insert (pos 0) (pos 1074) (pos 0) empty_table ≡ some table
unfolding insert seek link_in ◌+ℤ◌ ◌==ℤ◌
insert_null = refl

abbrev pub procs : ℤ → Pentry
procs = update start_procs (pos 0) (entry Pstate.ready (pos 0))

abbrev pub lists : Lists
lists = relist no_lists ready_list (pos 0 ∷ [])

moved :
    (t : Qtab) × (insert (pos 0) (pos 1074) (pos 0) empty_table ≡ some t)
    × IsTable t procs lists
    × IsReady t procs (pos 0 ∷ [])
    × (t.qkey ≡ update empty_table.qkey (pos 0) (pos 0))
unfolding place
moved =
    insert-Ready (pos 0) (entry Pstate.ready (pos 0)) IsTable-start IsReady-start (omega arith)
      (start_homeless (pos 0)) refl (omega arith)

moved-table : moved.0 ≡ table
moved-table = cc (moved.1, insert_null)

-- Semaphore 5 is in use with count 0, the others are free.
abbrev semaphores : ℤ → Sentry
semaphores s = record {
  sstate = if s ==ℤ pos 5 then sused else sfree;
  semcnt = pos 0;
  sqhead = head_of (sem_list s);
  sqtail = tail_of (sem_list s);
}

abbrev pub kernel : Kernel
kernel = record {
  q = table;
  proctab = procs;
  semaph = semaphores;
  currpid = pos 1;
  rdyhead = pos 1074;
  rdytail = pos 1075;
  nextsem = pos 511;
  preempt = quantum;
  clkruns = true;
  clockq = pos 1076;
  slnempty = false;
  sltop = pos 1077;
  defclk = pos 0;
  clkdiff = pos 0;
}

kernel-IsPrios : IsPrios procs
kernel-IsPrios a sa = elim (Bool-cases (a ==ℤ pos 0)) [
  | inl i ↦ rw i (omega arith)
  | inr i ↦
      rw i (elim (Bool-cases (a ==ℤ pos 1)) [
        | inl j ↦ rw j (omega arith)
        | inr j ↦ rw j (omega arith)
      ])
]

kernel-IsSwitching : IsSwitching kernel lists
unfolding ◌==ℤ◌
kernel-IsSwitching = record {
  table = subst (λ t. IsTable t procs lists) moved-table moved.2;
  layout = record {
    ready_head = refl;
    ready_tail = refl;
    clock_head = refl;
    sem_head = λ s good. refl;
    sem_tail = λ s good. refl;
  };
  ready = subst (λ t. IsReady t procs (pos 0 ∷ [])) moved-table moved.3;
  prios = kernel-IsPrios;
  slot = omega arith;
  alone = λ a sa ne. elim (Bool-cases (a ==ℤ pos 0)) [ inl i ↦ rw i | inr i ↦ rw (i, ne) ];
  idle = refl;
}

kernel-IsCounted : IsCounted semaphores lists
kernel-IsCounted s good = elim (Bool-cases (s ==ℤ pos 5)) [ inl i ↦ rw i | inr i ↦ rw i ]

pub kernel-IsKernel : IsKernel kernel lists
unfolding ◌==ℤ◌
kernel-IsKernel = record {
  switching = kernel-IsSwitching;
  counted = kernel-IsCounted;
  running = refl;
}
