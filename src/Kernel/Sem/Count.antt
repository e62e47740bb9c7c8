-- ===== src/Kernel/Sem/Count.antt =====
-- Updates of a semaphore's entry, and the counts: for xinu/sys/common/wait.c and its neighbours.
use xinu_swd.Prelude.{◌≡◌, sym, ◌∙◌, false, inl, inr, Bool-cases}
use xinu_swd.Prelude.Int.{ℤ, ◌==ℤ◌, eq_of_==ℤ}
use mathlib.Core.Path.{subst}
use xinu_swd.Queue.{update}
use xinu_swd.Kernel.{Sentry}
use xinu_swd.Kernel.Names.{sem_list}
use xinu_swd.Kernel.Inv.{Lists, LayoutIs, CountIs}
use xinu_swd.Kernel.State.{IsCounted, count_of}

-- A semaphore's entry with other values keeps its head and tail.
pub LayoutIs-sem :
    (rh rt cq : ℤ) (semaph : ℤ → Sentry) (s : ℤ) (p : Sentry)
    → p.sqhead ≡ (semaph s).sqhead
    → p.sqtail ≡ (semaph s).sqtail
    → LayoutIs rh rt cq semaph
    → LayoutIs rh rt cq (update semaph s p)
LayoutIs-sem rh rt cq semaph s p eh et is = record {
  ready_head = is.ready_head;
  ready_tail = is.ready_tail;
  clock_head = is.clock_head;
  sem_head = λ r good. elim (Bool-cases (r ==ℤ s)) [
    | inl i ↦
        rw i (
          subst (λ r. p.sqhead ≡ (semaph r).sqhead) (sym (eq_of_==ℤ r s i)) eh ∙ is.sem_head r good)
    | inr i ↦ rw i (is.sem_head r good)
  ];
  sem_tail = λ r good. elim (Bool-cases (r ==ℤ s)) [
    | inl i ↦
        rw i (
          subst (λ r. p.sqtail ≡ (semaph r).sqtail) (sym (eq_of_==ℤ r s i)) et ∙ is.sem_tail r good)
    | inr i ↦ rw i (is.sem_tail r good)
  ];
}

-- The other counts are as they were.
pub IsCounted-update :
    (semaph : ℤ → Sentry) (lists lists' : Lists) (s : ℤ) (p : Sentry)
    → IsCounted semaph lists
    → ((r : ℤ) → (r ==ℤ s) ≡ false → lists' (sem_list r) ≡ lists (sem_list r))
    → CountIs (count_of p) (lists' (sem_list s))
    → IsCounted (update semaph s p) lists'
IsCounted-update semaph lists lists' s p is others here r good = elim (Bool-cases (r ==ℤ s)) [
  | inl i ↦
      rw i (subst (λ r. CountIs (count_of p) (lists' (sem_list r))) (sym (eq_of_==ℤ r s i)) here)
  | inr i ↦ rw (i, others r i) (is r good)
]
