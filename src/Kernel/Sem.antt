-- ===== src/Kernel/Sem.antt =====
-- wait.c, signal.c, signaln.c, screate.c, sdelete.c, sreset.c and scount.c of xinu/sys/common.
pub mod Count
pub mod Release
pub mod Signal
pub mod Empty
pub mod Create
pub mod Wait
use xinu_swd.Prelude.{ℕ, zero, suc, Bool, true, false, ◌||◌, none, some, if◌then◌else◌}
use xinu_swd.Prelude.Int.{ℤ, pos, ltb_ℤ, leb_ℤ, ◌==ℤ◌, ◌+ℤ◌, ◌-ℤ◌, pos_part}
use xinu_swd.Conf.{n_sem, ok, syserr, empty, is_bad_sem}
use xinu_swd.Queue.{rounds, enqueue, getfirst, non_empty}
use xinu_swd.Kernel.{
  is_sfree, sfree, sused, Kernel, M, pure, ◌>>=◌, ◌>>◌, modify, set_waiting, set_semcnt, set_sstate,
}
use xinu_swd.Kernel.Sched.{resched, make_ready}

abbrev pub bad_sem : ℤ → Kernel → Bool
bad_sem s k = is_bad_sem s || is_sfree (k.semaph s).sstate

unfoldable pub wait : ℤ → M ℤ
wait sem k =
    let count = (k.semaph sem).semcnt -ℤ pos 1 in
    let tail = (k.semaph sem).sqtail in
    let block : M ℤ = (do
      modify (set_semcnt sem count)
      modify (set_waiting k.currpid sem)
      modify (λ k. record k { q = enqueue k.currpid tail k.q })
      resched
      pure ok) in
    if bad_sem sem k
    then some (syserr, k)
    else (if ltb_ℤ count (pos 0) then block k else some (ok, set_semcnt sem count k))

-- `getfirst` on the list at `head`.
unfoldable pub take_first : ℤ → M ℤ
take_first head k = let (pid, t) = getfirst head k.q in some (pid, record k { q = t })

unfoldable pub signal : ℤ → M ℤ
signal sem k =
    let count = (k.semaph sem).semcnt in
    let release : M ℤ = (do
      modify (set_semcnt sem (count +ℤ pos 1))
      pid ← take_first (k.semaph sem).sqhead
      make_ready pid true
      pure ok) in
    if bad_sem sem k
    then some (syserr, k)
    else (if ltb_ℤ count (pos 0) then release k else some (ok, set_semcnt sem (count +ℤ pos 1) k))

-- The body of the loop of signaln.c, and the loop.
unfoldable pub signal_one : ℤ → M ℤ
signal_one sem k =
    let count = (k.semaph sem).semcnt in
    let release : M ℤ = (do
      modify (set_semcnt sem (count +ℤ pos 1))
      pid ← take_first (k.semaph sem).sqhead
      make_ready pid false) in
    if ltb_ℤ count (pos 0) then release k else some (ok, set_semcnt sem (count +ℤ pos 1) k)

unfoldable pub signal_loop : ℕ → ℤ → M ℤ
signal_loop zero sem = pure ok
signal_loop (suc n) sem = signal_one sem >> signal_loop n sem

unfoldable pub signaln : ℤ → ℤ → M ℤ
signaln sem count k =
    if bad_sem sem k || leb_ℤ count (pos 0)
    then some (syserr, k)
    else (do signal_loop (pos_part count) sem; resched; pure ok) k

-- `newsem`: the search goes down from `nextsem` and round.
unfoldable pub newsem_loop : ℕ → Kernel → ℤ × Kernel
newsem_loop zero k = (syserr, k)
newsem_loop (suc n) k =
    let sem = k.nextsem in
    let down = sem -ℤ pos 1 in
    let k' = record k { nextsem = if ltb_ℤ down (pos 0) then n_sem -ℤ pos 1 else down } in
    let rest = newsem_loop n k' in
    if is_sfree (k.semaph sem).sstate then (sem, set_sstate sem sused k') else rest

unfoldable pub newsem : Kernel → ℤ × Kernel
newsem = newsem_loop (pos_part n_sem)

unfoldable pub screate : ℤ → Kernel → ℤ × Kernel
screate count k =
    let (sem, k') = newsem k in
    if ltb_ℤ count (pos 0)
    then (syserr, k)
    else (if sem ==ℤ syserr then (syserr, k') else (sem, set_semcnt sem count k'))

-- `while ((pid = getfirst(head)) != EMPTY) ready(pid, RESCHNO)`
unfoldable pub release_all : ℕ → ℤ → M ℤ
release_all zero head k = none
release_all (suc n) head k =
    let go : M ℤ = (do
      pid ← take_first head
      let more : M ℤ = make_ready pid false >> release_all n head
      if pid ==ℤ empty then pure ok else more) in
    go k

unfoldable pub sdelete : ℤ → M ℤ
sdelete sem k =
    let head = (k.semaph sem).sqhead in
    let k' = set_sstate sem sfree k in
    if bad_sem sem k
    then some (syserr, k)
    else (if non_empty k.q head
        then (do release_all rounds head; resched; pure ok) k'
        else some (ok, k'))

unfoldable pub sreset : ℤ → ℤ → M ℤ
sreset sem count k =
    let go : M ℤ = (do
      release_all rounds (k.semaph sem).sqhead
      modify (set_semcnt sem count)
      resched
      pure ok) in
    if is_bad_sem sem || ltb_ℤ count (pos 0) || is_sfree (k.semaph sem).sstate
    then some (syserr, k)
    else go k

unfoldable pub scount : ℤ → Kernel → ℤ
scount sem k = if bad_sem sem k then syserr else (k.semaph sem).semcnt
