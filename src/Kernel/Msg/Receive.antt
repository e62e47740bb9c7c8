-- ===== src/Kernel/Msg/Receive.antt =====
-- `receive` (xinu/sys/common/receive.c) keeps the kernel's invariant.
use xinu_swd.Prelude.{◌≡◌, refl, sym, ap, ◌∙◌, true, false, some, none, ◌||◌, arith}
use xinu_swd.Prelude.Int.{◌==ℤ◌, ==ℤ-refl, ==ℤ_comm}
use xinu_swd.Conf.{null_proc}
use xinu_swd.Kernel.{Pstate, is_curr, is_ready, Pentry, Kernel, ◌>>=◌, set_phasmsg, set_pstate}
use xinu_swd.Kernel.Names.{QName, ready_list, sem_list, same_name}
use xinu_swd.Kernel.Inv.{Lists}
use xinu_swd.Kernel.Moves.{Homeless-of, Homeless-of_curr}
use xinu_swd.Kernel.State.{IsKernel}
use xinu_swd.Kernel.Entry.{IsSwitching-entry}
use xinu_swd.Kernel.Sched.Switch.{IsHighest, is_awake, left_not_curr, ran_other}
use xinu_swd.Kernel.Sched.Resched.{resched_lem}
use xinu_swd.Kernel.Msg.{has_msg, take_msg, receive}
use xinu_swd.Kernel.Msg.Send.{same_home}

curr_or_ready :
    (k : Kernel)
    → is_curr (k.proctab k.currpid).pstate ≡ true
    → (null_proc ==ℤ k.currpid) ≡ true
    → (is_curr (k.proctab k.currpid).pstate || is_ready (k.proctab k.currpid).pstate) ≡ true
curr_or_ready k c i = ground (arith, c)

module _ {k : Kernel} {lists : Lists} (is : IsKernel k lists) where
  open is use {switching, counted, running}

  -- In a kernel that satisfies the invariant, where the running process has a message: `receive`
  -- returns it, changes nothing but that the process then has none, and the invariant holds.
  pub receive-now :
      has_msg k.currpid k ≡ true
      → (receive k ≡ some (some (k.proctab k.currpid).pmsg, set_phasmsg k.currpid 0 k))
        × IsKernel (set_phasmsg k.currpid 0 k) lists
        × (has_msg k.currpid (set_phasmsg k.currpid 0 k) ≡ false)
  unfolding receive take_msg
  receive-now h =
      let c = k.currpid in
      let p : Pentry = record (k.proctab c) { phasmsg = 0 } in
      (
        rw (h, ◌>>=◌, take_msg),
        record {
          switching =
              IsSwitching-entry switching c p switching.slot
                (λ n. same_home (k.proctab c) p n refl refl) refl
                (λ ne. absurd (ground (arith, ==ℤ-refl c))) (curr_or_ready k running);
          counted = counted;
          running = rw (==ℤ-refl c) running;
        },
        rw (==ℤ-refl c) refl,
      )

  -- In a kernel that satisfies the invariant, where the running process has no message and is not
  -- the null process: `receive` ends, the caller is left waiting in `receive` and another process
  -- runs, the new kernel satisfies the invariant, no ready process has a higher priority than the
  -- one that runs, and only the ready list has changed among the lists.
  pub receive-block :
      has_msg k.currpid k ≡ false
      → (k.currpid ==ℤ null_proc) ≡ false
      → (k' : Kernel) × (lists' : Lists) × (receive k ≡ some (none, k'))
        × IsKernel k' lists'
        × IsHighest k' lists'
        × ((n : QName) → same_name n ready_list ≡ false → lists' n ≡ lists n)
        × ((k'.proctab k.currpid).pstate ≡ Pstate.recv)
        × ((k'.currpid ==ℤ k.currpid) ≡ false)
  unfolding receive
  receive-block h busy =
      let c = k.currpid in
      let p : Pentry = record (k.proctab c) { pstate = Pstate.recv } in
      let none_home = Homeless-of_curr (k.proctab c) running in
      let sw₁ =
        IsSwitching-entry switching c p switching.slot
          (λ n. Homeless-of p refl n ∙ sym (none_home n)) refl (λ ne. refl)
          (λ i. absurd (ground (arith, ==ℤ_comm null_proc c))) in
      let (k', lists', e, sw) = resched_lem sw₁ in
      let was : (set_pstate c Pstate.recv k).proctab c ≡ p = rw (==ℤ-refl c) refl in
      let before : is_awake ((set_pstate c Pstate.recv k).proctab c).pstate ≡ false =
        ap (λ q. is_awake q.pstate) was in
      let left : (k'.proctab c).pstate ≡ Pstate.recv =
        (sw.states c).1 before ∙ ap (λ q. q.pstate) was in
      (
        k',
        lists',
        rw (h, ◌>>=◌, e),
        record {
          switching = sw.switching;
          counted = λ s hs. rw (sw.semaph, sw.others (sem_list s) refl) (counted s hs);
          running = sw.running;
        },
        sw.highest,
        sw.others,
        left,
        ran_other k' c (left_not_curr k' c Pstate.recv left refl) sw.running,
      )
