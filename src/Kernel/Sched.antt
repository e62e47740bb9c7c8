-- ===== src/Kernel/Sched.antt =====
-- ready.c, resume.c, suspend.c, chprio.c, getprio.c, setnok.c of xinu/sys/common, and resched.c of
-- xinu/sys/68000 without the stack checks of `STKCHK`; `ctxsw` moves registers only.
pub mod Switch
pub mod Resched
pub mod Wake
pub mod Calls
use xinu_swd.Prelude.{Bool, true, ◌||◌, ◌&&◌, Option, none, some, if◌then◌else◌}
use mathlib.Core.Bool.{not}
use xinu_swd.Prelude.Int.{ℤ, pos, ltb_ℤ, leb_ℤ, ◌==ℤ◌}
use xinu_swd.Conf.{ok, syserr, null_proc, quantum, is_bad_pid}
use xinu_swd.Queue.{dequeue, getlast, insert, last_key}
use xinu_swd.Kernel.{
  Pstate, curr, susp, is_curr, is_free, is_ready, is_susp, Kernel, M, pure, ◌>>◌, ◌>>=◌, modify,
  on_q, set_pstate, set_pprio, set_pnxtkin,
}

-- The second half of `resched`: the last entry of the ready list runs.
unfoldable pub dispatch : M ℤ
dispatch k =
    let (next, t) = getlast k.rdytail k.q in
    some (ok, set_pstate next curr (record k { q = t; currpid = next; preempt = quantum }))

unfoldable pub resched : M ℤ
resched k =
    let old = k.proctab k.currpid in
    let requeue : M ℤ = (do
      modify (set_pstate k.currpid Pstate.ready)
      on_q (insert k.currpid k.rdyhead old.pprio)
      dispatch) in
    if is_curr old.pstate && ltb_ℤ (last_key k.q k.rdytail) old.pprio
    then some (ok, k)
    else (if is_curr old.pstate then requeue k else dispatch k)

-- `resch` says whether to reschedule.
unfoldable pub make_ready : ℤ → Bool → M ℤ
make_ready pid resch k =
    let steps : M ℤ = (do
      modify (set_pstate pid Pstate.ready)
      on_q (insert pid k.rdyhead (k.proctab pid).pprio)
      if resch then (resched >> pure ok) else pure ok) in
    if is_bad_pid pid then some (syserr, k) else steps k

unfoldable pub resume : ℤ → M ℤ
resume pid k =
    let prio = (k.proctab pid).pprio in
    if is_bad_pid pid || not (is_susp (k.proctab pid).pstate)
    then some (syserr, k)
    else (make_ready pid true >> pure prio) k

-- The value that a suspended process returns is read when it runs again.
unfoldable pub suspend_return : ℤ → Kernel → ℤ
suspend_return pid k = (k.proctab pid).pprio

-- `none` as the value: the caller has suspended itself, and goes on with `suspend_return`.
unfoldable pub suspend : ℤ → M (Option ℤ)
suspend pid k =
    let state = (k.proctab pid).pstate in
    let take_off : M (Option ℤ) = (do
      modify (set_pstate pid susp)
      modify (λ k. record k { q = dequeue pid k.q })
      λ k. some (some (suspend_return pid k), k)) in
    let give_up : M (Option ℤ) = (do modify (set_pstate pid susp); resched; pure none) in
    if is_bad_pid pid || pid ==ℤ null_proc || not (is_curr state || is_ready state)
    then some (some syserr, k)
    else (if is_ready state then take_off k else give_up k)

unfoldable pub chprio : ℤ → ℤ → M ℤ
chprio pid newprio k =
    let state = (k.proctab pid).pstate in
    let oldprio = (k.proctab pid).pprio in
    let reorder : M ℤ = (do
      modify (set_pprio pid newprio)
      modify (λ k. record k { q = dequeue pid k.q })
      on_q (insert pid k.rdyhead newprio)
      resched
      pure oldprio) in
    let running : M ℤ = (do modify (set_pprio pid newprio); resched; pure oldprio) in
    if is_bad_pid pid || leb_ℤ newprio (pos 0) || is_free state
    then some (syserr, k)
    else (if is_ready state
        then reorder k
        else (if is_curr state then running k else some (oldprio, set_pprio pid newprio k)))

unfoldable pub getprio : ℤ → Kernel → ℤ
getprio pid k =
    if is_bad_pid pid || is_free (k.proctab pid).pstate then syserr else (k.proctab pid).pprio

unfoldable pub setnok : ℤ → ℤ → Kernel → ℤ × Kernel
setnok nok pid k = if is_bad_pid pid then (syserr, k) else (ok, set_pnxtkin pid nok k)
