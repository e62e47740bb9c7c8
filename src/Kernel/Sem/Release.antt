-- ===== src/Kernel/Sem/Release.antt =====
-- The first process on a semaphore's list taken off it, as xinu/sys/common/signal.c does.
use xinu_swd.Prelude.{
  zero, suc, ◌≡◌, refl, sym, ◌∙◌, true, false, some, List, [], ◌∷◌, arith, Bool-cases, inl, inr,
}
use xinu_swd.Prelude.Int.{ℤ, ◌==ℤ◌, ==ℤ-refl, ==ℤ_comm, eq_of_==ℤ, negsuc, pos}
use mathlib.Core.Path.{subst}
use xinu_swd.Conf.{null_proc, is_bad_sem, is_bad_pid}
use xinu_swd.Queue.{dequeue}
use xinu_swd.Queue.Chain.{has}
use xinu_swd.Queue.Lists.{IsSlot, IsQueue, getfirst-cons, qkey-dequeue}
use xinu_swd.Kernel.{susp, is_curr, Pentry, Kernel}
use xinu_swd.Kernel.Names.{ready_list, sem_list, head_of, tail_of}
use xinu_swd.Kernel.Inv.{Lists, relist, is_home, is_home_once, IsReady-keys}
use xinu_swd.Kernel.Moves.{Homeless-of, IsTable-remove, IsReady-entry}
use xinu_swd.Kernel.State.{IsSwitching, update-IsPrios}
use xinu_swd.Kernel.Sched.Wake.{aside}
use xinu_swd.Kernel.Sem.{take_first}

good_pid : (x : ℤ) → IsSlot x → (x ==ℤ null_proc) ≡ false → is_bad_pid x ≡ false
unfolding ◌==ℤ◌
good_pid (pos zero) s ne = absurd (cc)
good_pid (pos (suc n)) s ne = ground arith
good_pid (negsuc n) s ne = absurd (omega arith)

-- The kernel after `getfirst` on the list.
abbrev pub taken : ℤ → Kernel → Kernel
taken x k = record k { q = dequeue x k.q }

module _ {k : Kernel} {lists : Lists} (is : IsSwitching k lists)
    (running : is_curr (k.proctab k.currpid).pstate ≡ true) (sem : ℤ)
    (good : is_bad_sem sem ≡ false) (x : ℤ) (xs : List ℤ) (e : lists (sem_list sem) ≡ x ∷ xs) where
  open is use {table, layout, ready, prios, slot, alone, idle}

  queue : IsQueue k.q (head_of (sem_list sem)) (tail_of (sem_list sem)) (x ∷ xs)
  queue = rw e at (table.queues (sem_list sem) good)

  pub waiter-IsSlot : IsSlot x
  waiter-IsSlot = queue.slots.0

  waits : is_home (k.proctab x) (sem_list sem) ≡ true
  waits =
      let on : has x (lists (sem_list sem)) ≡ true = rw e (ground (arith, ==ℤ-refl x)) in
      sym (table.homes x (sem_list sem) queue.slots.0 good) ∙ on

  pub waiter_ne_running : (x ==ℤ k.currpid) ≡ false
  waiter_ne_running = elim (Bool-cases (x ==ℤ k.currpid)) [
    | inl i ↦
        let w : is_home (k.proctab k.currpid) (sem_list sem) ≡ true =
          subst (λ a. is_home (k.proctab a) (sem_list sem) ≡ true) (eq_of_==ℤ x k.currpid i)
            waits in
        absurd (ground arith)
    | inr i ↦ i
  ]

  waiter_ne_null : (x ==ℤ null_proc) ≡ false
  waiter_ne_null = elim (Bool-cases (x ==ℤ null_proc)) [
    | inl i ↦
        let w : is_home (k.proctab null_proc) (sem_list sem) ≡ true =
          subst (λ a. is_home (k.proctab a) (sem_list sem) ≡ true) (eq_of_==ℤ x null_proc i)
            waits in
        absurd (ground arith)
    | inr i ↦ i
  ]

  pub waiter_good : is_bad_pid x ≡ false
  waiter_good = good_pid x queue.slots.0 waiter_ne_null

  pub take_first-waiter : take_first (k.semaph sem).sqhead k ≡ some (x, taken x k)
  unfolding take_first
  take_first-waiter = rw (layout.sem_head sem good, getfirst-cons x xs queue)

  pub taken-IsSwitching : IsSwitching (aside x (taken x k)) (relist lists (sem_list sem) xs)
  taken-IsSwitching =
      let p : Pentry = record (k.proctab x) { pstate = susp } in
      let out : has x (lists ready_list) ≡ false =
        table.homes x ready_list queue.slots.0 tt
        ∙ is_home_once (k.proctab x) (sem_list sem) ready_list waits refl in
      record {
        table = IsTable-remove table (sem_list sem) x p [] xs good e (Homeless-of p refl);
        layout = layout;
        ready =
            IsReady-keys k.q (dequeue x k.q) _ _ (qkey-dequeue x k.q) (IsReady-entry ready x p out);
        prios = update-IsPrios k.proctab x p prios (prios x queue.slots.0);
        slot = slot;
        alone =
            λ a sa ne. elim (Bool-cases (a ==ℤ x)) [ inl i ↦ rw i | inr i ↦ rw i (alone a sa ne) ];
        idle = rw (==ℤ_comm null_proc x, waiter_ne_null) idle;
      }
