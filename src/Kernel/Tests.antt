-- ===== src/Kernel/Tests.antt =====
-- The theorems on lists, semaphores and the scheduler at concrete kernels.
use xinu_swd.Prelude.{
  ◌≡◌, refl, sym, true, false, some, none, Option, List, [], ◌∷◌, ◌++◌, ◌||◌, arith,
}
use xinu_swd.Prelude.Int.{ℤ, pos, ◌==ℤ◌, ◌+ℤ◌, ◌-ℤ◌}
use mathlib.Core.Path.{subst}
use xinu_swd.Conf.{ok}
use xinu_swd.Queue.{Qtab, update, enqueue, dequeue, insert, insertd, getlast, seek, link_in}
use xinu_swd.Queue.Chain.{has}
use xinu_swd.Queue.Lists.{IsQueue}
use xinu_swd.Queue.Frame.{SameOutside, cells}
use xinu_swd.Queue.Order.{place, insert-place}
use xinu_swd.Queue.Delta.{dues, schedule, insertd-schedule}
use xinu_swd.Kernel.{Kernel, set_semcnt}
use xinu_swd.Kernel.Names.{QName, ready_list, sem_list, same_name}
use xinu_swd.Kernel.Inv.{Lists, relist}
use xinu_swd.Kernel.State.{IsKernel, IsSwitching}
use xinu_swd.Kernel.Example.{kernel, lists, table, kernel-IsKernel}
use xinu_swd.Kernel.Sched.{make_ready, resched, resume, suspend, dispatch}
use xinu_swd.Kernel.Sched.Switch.{IsHighest, is_awake, Switched}
use xinu_swd.Kernel.Sched.Resched.{resched_lem}
use xinu_swd.Kernel.Sched.Calls.{update_self, resume_lem, suspend_self}
use xinu_swd.Kernel.Sched.Wake.{readied, make_ready_lem}
use xinu_swd.Kernel.Sem.{wait, signal, sdelete}
use xinu_swd.Kernel.Sem.Empty.{sdelete_lem}
use xinu_swd.Kernel.Sem.{screate}
use xinu_swd.Kernel.Sem.Create.{screate_lem}
use xinu_swd.Prelude.{◌⊎◌}
use xinu_swd.Conf.{syserr, is_bad_sem}
use xinu_swd.Kernel.{is_sfree, susp, Pstate}
use xinu_swd.Kernel.{sfree}
use xinu_swd.Kernel.Sem.Wait.{wait-block}
use xinu_swd.Kernel.Sem.Signal.{signal-pass, signal-release}
use xinu_swd.Kernel.{set_msg}
use xinu_swd.Kernel.Msg.{send, receive}
use xinu_swd.Kernel.Msg.Send.{send-wake, send-keep}
use xinu_swd.Kernel.Msg.Receive.{receive-block}
use xinu_swd.Kernel.Clock.{sleep, naps}
use xinu_swd.Kernel.Clock.Interrupt.{lasts, AllNaps, sleep-lasts}

abbrev after : Option (ℤ × Kernel) → Kernel
after none = kernel
after (some r) = r.1

insert_example :
    (t' : Qtab) × (insert (pos 1) (pos 1074) (pos 20) table ≡ some t')
    × IsQueue t' (pos 1074) (pos 1075) (place table.qkey (pos 1) (pos 20) (pos 0 ∷ []))
    × SameOutside (pos 1 ∷ cells (pos 1074) (pos 0 ∷ []) (pos 1075)) table t'
    × (t'.qkey ≡ update table.qkey (pos 1) (pos 20))
unfolding ◌==ℤ◌ link_in
insert_example =
    insert-place (pos 0 ∷ []) (pos 1) (pos 20)
      (kernel-IsKernel.switching.table.queues ready_list tt) (omega arith) refl (omega arith)

schedule_example :
    (t' : Qtab) × (xs' : List ℤ) × (insertd (pos 1) (pos 1074) (pos 5) table ≡ some t')
    × IsQueue t' (pos 1074) (pos 1075) xs'
    × SameOutside (pos 1 ∷ cells (pos 1074) (pos 0 ∷ []) (pos 1075)) table t'
    × ((a : ℤ) → has a xs' ≡ ((a ==ℤ pos 1) || has a (pos 0 ∷ [])))
    × ((a : ℤ) → (a ==ℤ pos 1) ≡ false → has a (pos 0 ∷ []) ≡ false → t'.qkey a ≡ table.qkey a)
    × (dues t'.qkey (pos 0) xs'
        ≡ schedule (pos 1) (pos 0 +ℤ pos 5) (dues table.qkey (pos 0) (pos 0 ∷ [])))
unfolding ◌==ℤ◌ link_in
schedule_example =
    insertd-schedule (pos 0 ∷ []) (pos 1) (pos 5)
      (kernel-IsKernel.switching.table.queues ready_list tt) (omega arith, tt) (omega arith) refl
      (omega arith)

wait-block_example :
    (k' : Kernel) × (lists' : Lists) × (wait (pos 5) kernel ≡ some (ok, k'))
    × IsKernel k' lists'
    × IsHighest k' lists'
    × (lists' (sem_list (pos 5)) ≡ [] ++ pos 1 ∷ [])
unfolding ◌==ℤ◌ ◌-ℤ◌
wait-block_example = wait-block kernel-IsKernel (pos 5) refl refl refl refl

-- The kernel in which process 1 waits for semaphore 5 and the null process runs.
abbrev waiting : Kernel
waiting = after (wait (pos 5) kernel)

waiting-IsKernel :
    (lists' : Lists) × IsKernel waiting lists' × (lists' (sem_list (pos 5)) ≡ pos 1 ∷ [])
unfolding wait resched dispatch getlast enqueue dequeue ◌==ℤ◌ ◌-ℤ◌ link_in
waiting-IsKernel =
    let (k', lists', e, is, high, l) = wait-block kernel-IsKernel (pos 5) refl refl refl refl in
    let run : wait (pos 5) kernel ≡ some (ok, waiting) = refl in
    let same : k' ≡ waiting = cc (e, run) in (lists', subst (λ k. IsKernel k lists') same is, l)

signal-release_example :
    (k' : Kernel) × (lists' : Lists) × (signal (pos 5) waiting ≡ some (ok, k'))
    × IsKernel k' lists'
    × IsHighest k' lists'
    × (lists' (sem_list (pos 5)) ≡ [])
unfolding wait resched dispatch getlast enqueue dequeue ◌==ℤ◌ ◌-ℤ◌ link_in
signal-release_example =
    signal-release waiting-IsKernel.1 (pos 5) refl refl (pos 1) [] waiting-IsKernel.2

-- With no process waiting.
abbrev raised : Kernel
raised = set_semcnt (pos 5) (pos 1) kernel

raised-IsKernel : IsKernel raised lists
unfolding ◌==ℤ◌ ◌+ℤ◌
raised-IsKernel = (signal-pass kernel-IsKernel (pos 5) refl refl refl).1

resched_example :
    (k' : Kernel) × (lists' : Lists) × (resched kernel ≡ some (ok, k'))
    × Switched kernel lists k' lists'
resched_example = resched_lem kernel-IsKernel.switching

suspend_self_example :
    (k' : Kernel) × (lists' : Lists) × (suspend (pos 1) kernel ≡ some (none, k'))
    × IsKernel k' lists'
    × IsHighest k' lists'
    × ((n : QName) → same_name n ready_list ≡ false → lists' n ≡ lists n)
    × ((k'.proctab (pos 1)).pstate ≡ susp)
    × ((k'.currpid ==ℤ pos 1) ≡ false)
unfolding ◌==ℤ◌
suspend_self_example = suspend_self kernel-IsKernel (pos 1) refl refl

abbrev after_suspend : Option (Option ℤ × Kernel) → Kernel
after_suspend none = kernel
after_suspend (some r) = r.1

-- The kernel in which process 1 is suspended and the null process runs.
abbrev idling : Kernel
idling = after_suspend (suspend (pos 1) kernel)

idling-IsKernel : (lists' : Lists) × IsKernel idling lists'
unfolding suspend resched dispatch getlast dequeue ◌==ℤ◌ link_in
idling-IsKernel =
    let (k', lists', e, is, high, rest, left, other) =
      suspend_self kernel-IsKernel (pos 1) refl refl in
    let run : suspend (pos 1) kernel ≡ some (none, idling) = refl in
    let same : k' ≡ idling = cc (e, run) in (lists', subst (λ k. IsKernel k lists') same is)

resume_example :
    (k' : Kernel) × (lists' : Lists) × (resume (pos 1) idling
      ≡ some ((idling.proctab (pos 1)).pprio, k'))
    × IsKernel k' lists'
    × IsHighest k' lists'
    × ((n : QName) → same_name n ready_list ≡ false → lists' n ≡ idling-IsKernel.0 n)
    × (is_awake (k'.proctab (pos 1)).pstate ≡ true)
unfolding suspend resched dispatch getlast dequeue ◌==ℤ◌ link_in
resume_example = resume_lem idling-IsKernel.1 (pos 1) refl refl

-- Process 1 is made ready, and the null process has not given up the processor yet.
abbrev two_ready : Kernel
two_ready = after (make_ready (pos 1) false idling)

two_ready-IsKernel : (lists' : Lists) × IsKernel two_ready lists'
unfolding suspend resched dispatch getlast dequeue ◌==ℤ◌ link_in make_ready insert seek ◌-ℤ◌
two_ready-IsKernel =
    let (t, e, is) =
      make_ready_lem idling idling-IsKernel.0 (pos 1)
        (subst (λ P. IsSwitching (record idling { proctab = P }) idling-IsKernel.0)
          (sym (update_self idling.proctab (pos 1) _ refl)) idling-IsKernel.1.switching)
        (omega arith) refl in
    let run : make_ready (pos 1) false idling ≡ some (ok, two_ready) = refl in
    let same : readied (pos 1) t idling ≡ two_ready = cc (e, run) in
    let l =
      relist idling-IsKernel.0 ready_list
        (place idling.q.qkey (pos 1) (pos 20) (idling-IsKernel.0 ready_list)) in
    (
      l,
      record {
        switching = subst (λ k. IsSwitching k l) same is;
        counted = idling-IsKernel.1.counted;
        running = refl;
      },
    )

-- With a message for process 1.
abbrev sent : Kernel
sent = set_msg (pos 1) (pos 42) 1 kernel

sent-IsKernel : IsKernel sent lists
unfolding ◌==ℤ◌
sent-IsKernel = (send-keep kernel-IsKernel (pos 1) (pos 42) refl refl refl refl refl).1

receive-block_example :
    (k' : Kernel) × (lists' : Lists) × (receive kernel ≡ some (none, k'))
    × IsKernel k' lists'
    × IsHighest k' lists'
    × ((n : QName) → same_name n ready_list ≡ false → lists' n ≡ lists n)
    × ((k'.proctab (pos 1)).pstate ≡ Pstate.recv)
    × ((k'.currpid ==ℤ pos 1) ≡ false)
unfolding ◌==ℤ◌
receive-block_example = receive-block kernel-IsKernel refl refl

-- The kernel in which process 1 waits for a message and the null process runs.
abbrev listening : Kernel
listening = after_suspend (receive kernel)

listening-IsKernel : (lists' : Lists) × IsKernel listening lists'
unfolding receive resched dispatch getlast dequeue ◌==ℤ◌ link_in
listening-IsKernel =
    let (k', lists', e, is, high, rest, left, other) = receive-block kernel-IsKernel refl refl in
    let run : receive kernel ≡ some (none, listening) = refl in
    let same : k' ≡ listening = cc (e, run) in (lists', subst (λ k. IsKernel k lists') same is)

send-wake_example :
    (k' : Kernel) × (lists' : Lists) × (send (pos 1) (pos 42) listening ≡ some (ok, k'))
    × IsKernel k' lists'
    × IsHighest k' lists'
    × ((k'.proctab (pos 1)).pmsg ≡ pos 42)
    × ((k'.proctab (pos 1)).phasmsg ≡ 1)
    × (is_awake (k'.proctab (pos 1)).pstate ≡ true)
unfolding receive resched dispatch getlast dequeue ◌==ℤ◌ link_in
send-wake_example = send-wake listening-IsKernel.1 (pos 1) (pos 42) refl refl refl

sleep-lasts_example :
    (ts : List ℤ) × (sleep (pos 2500) kernel ≡ naps ts) × (lasts ts ≡ 25000) × AllNaps ts
sleep-lasts_example = sleep-lasts 2500 kernel refl (omega arith)

sdelete_example :
    (k' : Kernel) × (lists' : Lists) × (sdelete (pos 5) waiting ≡ some (ok, k'))
    × IsKernel k' lists'
    × (lists' (sem_list (pos 5)) ≡ [])
    × ((k'.semaph (pos 5)).sstate ≡ sfree)
unfolding wait resched dispatch getlast enqueue dequeue ◌==ℤ◌ ◌-ℤ◌ link_in
sdelete_example = sdelete_lem waiting-IsKernel.1 (pos 5) refl refl

screate_example :
    (r : ℤ) × (k' : Kernel) × (screate (pos 3) kernel ≡ (r, k'))
    × IsKernel k' lists
    × (is_bad_sem k'.nextsem ≡ false)
    × ((r ≡ syserr)
        ⊎ ((is_bad_sem r ≡ false)
            × (is_sfree (kernel.semaph r).sstate ≡ true)
            × (is_sfree (k'.semaph r).sstate ≡ false)
            × ((k'.semaph r).semcnt ≡ pos 3)))
screate_example = screate_lem kernel-IsKernel refl (pos 3) refl
