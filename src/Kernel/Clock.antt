-- ===== src/Kernel/Clock.antt =====
-- sleep.c, sleep10.c, wakeup.c, unsleep.c and ssclock.c of xinu/sys/common, and the clock interrupt
-- `c_clockisr` of xinu/sys/mio/clkinit.c without its lamp.
pub mod Interrupt
use xinu_swd.Prelude.{
  ℕ, zero, suc, ◌+◌, ◌*◌, ◌-◌, true, false, ◌||◌, ◌&&◌, Option, none, some, List, [], ◌∷◌, ◌==◌,
  ltb, if◌then◌else◌,
}
use mathlib.Core.Bool.{not}
use xinu_swd.Prelude.Int.{ℤ, pos, negsuc, ltb_ℤ, leb_ℤ, ◌==ℤ◌, ◌+ℤ◌, ◌-ℤ◌}
use xinu_swd.Conf.{n_proc, ok, syserr, is_bad_pid}
use xinu_swd.Queue.{Qtab, set_key, rounds, dequeue, insertd, non_empty, first_id, first_key}
use xinu_swd.Kernel.{
  Pstate, is_sleep, is_trecv, Kernel, M, pure, ◌>>=◌, ◌>>◌, modify, on_q, set_pstate,
}
use xinu_swd.Kernel.Sched.{resched, make_ready}
use xinu_swd.Kernel.Sem.{take_first}

-- What sleep10.c and recvtim.c do to wait for the clock: `sltop` points to the first key.
unfoldable pub join_clock : ℤ → Pstate → M (Unit {0})
join_clock n s = do
  λ k. on_q (insertd k.currpid k.clockq n) k
  modify (λ k. record k { slnempty = true; sltop = k.q.qnext k.clockq })
  modify (λ k. set_pstate k.currpid s k)

unfoldable pub sleep10 : ℤ → M ℤ
sleep10 n k =
    let wait : M ℤ = (do join_clock n Pstate.sleep; resched; pure ok) in
    if ltb_ℤ n (pos 0) || not k.clkruns
    then some (syserr, k)
    else (if n ==ℤ pos 0 then (resched >> pure ok) k else wait k)

-- The calls of `sleep10` that `sleep(n)` makes for `n > 0`, one after the other.
unfoldable pub sleep_loop : ℕ → ℕ → List ℤ
sleep_loop zero n = []
sleep_loop (suc f) n =
    let rest = sleep_loop f (n - 1000) in
    if ltb n 1000 then (if ltb 0 n then pos (10 * n) ∷ [] else []) else pos 10000 ∷ rest

-- `sleep(n)`: refused, a reschedule, or the calls of `sleep10`.
pub data SleepPlan : Type 0 where
  refused : SleepPlan
  yield : SleepPlan
  naps : List ℤ → SleepPlan

unfoldable pub sleep : ℤ → Kernel → SleepPlan
sleep (negsuc n) k = refused
sleep (pos n) k =
    if not k.clkruns then refused else if n == 0 then yield else naps (sleep_loop (n + 1) n)

unfoldable pub wakeup_loop : ℕ → M ℤ
wakeup_loop zero k = none
wakeup_loop (suc n) k =
    let due = non_empty k.q k.clockq && leb_ℤ (first_key k.q k.clockq) (pos 0) in
    let more : M ℤ = (do pid ← take_first k.clockq; make_ready pid false; wakeup_loop n) in
    if due then more k else some (ok, k)

unfoldable pub wakeup : M ℤ
wakeup = do
  wakeup_loop rounds
  modify (λ k. record k { slnempty = non_empty k.q k.clockq })
  modify (λ k. record k { sltop = if k.slnempty then k.q.qnext k.clockq else k.sltop })
  resched

unfoldable pub unsleep : ℤ → Kernel → ℤ × Kernel
unsleep pid k =
    let state = (k.proctab pid).pstate in
    let remain = k.q.qkey pid in
    let next = k.q.qnext pid in
    let t₁ = if ltb_ℤ next n_proc then set_key k.q next (k.q.qkey next +ℤ remain) else k.q in
    let t₂ = dequeue pid t₁ in
    let first = t₂.qnext k.clockq in
    if is_bad_pid pid || not (is_sleep state || is_trecv state) then (syserr, k) else (
      ok,
      if ltb_ℤ first n_proc
          then record k { q = t₂; sltop = first }
          else record k { q = t₂; slnempty = false },
    )

unfoldable pub stopclk : Kernel → Kernel
stopclk k = record k { defclk = k.defclk +ℤ pos 1 }

-- The loop of `strtclk`: what is left to make up, and the entry at which the loop stops.
pub record Makeup : Type 0 where
  pub makeup : ℤ
  pub next : ℤ
  pub table : Qtab

unfoldable pub strtclk_loop : ℕ → ℤ → ℤ → Qtab → Option Makeup
strtclk_loop zero makeup next t = none
strtclk_loop (suc n) makeup next t =
    let rest = strtclk_loop n (makeup -ℤ t.qkey next) (t.qnext next) (set_key t next (pos 0)) in
    if ltb_ℤ next n_proc && ltb_ℤ (t.qkey next) makeup
    then rest
    else some (record { makeup = makeup; next = next; table = t })

unfoldable pub make_up : ℤ → M (Unit {0})
make_up makeup k = elim (strtclk_loop rounds makeup (first_id k.q k.clockq) k.q) [
  | none ↦ none
  | some m ↦ some (
    tt,
    record k {
      q =
          if ltb_ℤ m.next n_proc
          then set_key m.table m.next (m.table.qkey m.next -ℤ m.makeup)
          else m.table;
    },
  )
]

unfoldable pub strtclk : M ℤ
strtclk k =
    let down = k.defclk -ℤ pos 1 in
    let makeup = k.clkdiff in
    let check : M ℤ = (λ k. if leb_ℤ k.preempt (pos 0) then resched k else some (ok, k)) in
    let go : M ℤ = (do
      modify (λ k. record k { defclk = down; preempt = k.preempt -ℤ makeup; clkdiff = pos 0 })
      λ k. (if k.slnempty then (make_up makeup >> wakeup) else pure ok) k
      check) in
    if leb_ℤ k.defclk (pos 0)
    then some (ok, k)
    else (if ltb_ℤ (pos 0) down then some (ok, record k { defclk = down }) else go k)

-- The counters of the clock interrupt, in hundredths, tenths and seconds.
pub record Ticks : Type 0 where
  pub ticks_10ms : ℕ
  pub count100 : ℕ
  pub count10 : ℕ
  pub clktime : ℕ

-- What the interrupt does to the sleepers and to the running process, every tenth of a second.
unfoldable pub tenth : M ℤ
tenth k =
    let key = k.q.qkey k.sltop -ℤ pos 1 in
    let k₁ = record k { q = set_key k.q k.sltop key } in
    let sleepers : M ℤ = (λ k.
      if k.slnempty then (if key ==ℤ pos 0 then wakeup k₁ else some (ok, k₁)) else some (ok, k)) in
    let slice : M ℤ = (do
      modify (λ k. record k { preempt = k.preempt -ℤ pos 1 })
      λ k. if k.preempt ==ℤ pos 0 then resched k else some (ok, k)) in
    (sleepers >> slice) k

unfoldable pub c_clockisr : Ticks → M Ticks
c_clockisr c =
    let c₁ = record c { ticks_10ms = c.ticks_10ms + 1; count100 = c.count100 + 1 } in
    let c₂ = record c₁ { count100 = 0; count10 = c₁.count10 + 1 } in
    let c₃ = if c₂.count10 == 10 then record c₂ { count10 = 0; clktime = c₂.clktime + 1 } else c₂ in
    if c₁.count100 == 10 then (tenth >> pure c₃) else pure c₁
