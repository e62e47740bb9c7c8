-- ===== src/Kernel/Msg.antt =====
-- send.c, sendf.c, receive.c, recvclr.c and recvtim.c of xinu/sys/common.
pub mod Send
pub mod Receive
use xinu_swd.Prelude.{◌+◌, ◌%◌, Bool, true, ◌||◌, Option, none, some, ltb, if◌then◌else◌}
use mathlib.Core.Bool.{not}
use xinu_swd.Prelude.Int.{ℤ, pos, ltb_ℤ}
use xinu_swd.Conf.{ok, syserr, timeout, is_bad_pid}
use xinu_swd.Kernel.{
  Pstate, is_free, is_recv, is_trecv, Kernel, M, pure, ◌>>=◌, ◌>>◌, modify, set_pstate, set_msg,
  set_phasmsg,
}
use xinu_swd.Kernel.Sched.{resched, make_ready}
use xinu_swd.Kernel.Clock.{join_clock, unsleep}

abbrev pub has_msg : ℤ → Kernel → Bool
has_msg pid k = ltb 0 (k.proctab pid).phasmsg

unfoldable pub send : ℤ → ℤ → M ℤ
send pid msg k =
    let state = (k.proctab pid).pstate in
    let k₁ = set_msg pid msg 1 k in
    if is_bad_pid pid || is_free state || has_msg pid k
    then some (syserr, k)
    else (if is_recv state
        then (make_ready pid true >> pure ok) k₁
        else (if is_trecv state
            then (make_ready pid true >> pure ok) (unsleep pid k₁).1
            else some (ok, k₁)))

-- `phasmsg++` on a `char`
unfoldable pub sendf : ℤ → ℤ → M ℤ
sendf pid msg k =
    let state = (k.proctab pid).pstate in
    let k₁ = set_msg pid msg (((k.proctab pid).phasmsg + 1) % 256) k in
    if is_bad_pid pid || is_free state
    then some (syserr, k)
    else (if is_recv state then (make_ready pid true >> pure ok) k₁ else some (ok, k₁))

-- The end of `receive`, for the process that runs.
unfoldable pub take_msg : M ℤ
take_msg k = some ((k.proctab k.currpid).pmsg, set_phasmsg k.currpid 0 k)

-- `none` as the value: the caller waits, and goes on with `take_msg` when it runs again.
unfoldable pub receive : M (Option ℤ)
receive k =
    let now : M (Option ℤ) = (do m ← take_msg; pure (some m)) in
    let block : M (Option ℤ) = (do modify (set_pstate k.currpid Pstate.recv); resched; pure none) in
    if has_msg k.currpid k then now k else block k

unfoldable pub recvclr : Kernel → ℤ × Kernel
recvclr k =
    if has_msg k.currpid k then ((k.proctab k.currpid).pmsg, set_phasmsg k.currpid 0 k) else (ok, k)

-- The end of `recvtim`: a message, or a timeout.
unfoldable pub take_or_timeout : M ℤ
take_or_timeout k = if has_msg k.currpid k then take_msg k else some (timeout, k)

unfoldable pub recvtim : ℤ → M (Option ℤ)
recvtim maxwait k =
    let now : M (Option ℤ) = (do m ← take_or_timeout; pure (some m)) in
    let block : M (Option ℤ) = (do join_clock maxwait Pstate.trecv; resched; pure none) in
    if ltb_ℤ maxwait (pos 0) || not k.clkruns
    then some (some syserr, k)
    else (if has_msg k.currpid k then now k else block k)
