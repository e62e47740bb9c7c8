-- ===== src/Tcp/Events.antt =====
-- The events of TCP's output: tcp_idle.c, tcp_persist.c, tcp_xmit.c, tcp_rexmt.c and tcp_out.c of
-- xinu/ipnet/common, for connections without urgent data. `tcp_xmit.c` sends in a loop of at most `fuel` rounds.
use xinu_swd.Prelude.{
  ℕ, zero, suc, ◌+◌, ◌*◌, ◌/◌, ◌%◌, ◌^◌, Bool, true, false, ◌&&◌, Option, none, some, if◌then◌else◌,
  ◌==◌, ltb, leb,
}
use mathlib.Core.Bool.{not}
use xinu_swd.Prelude.Int.{ℤ, pos, ◌+ℤ◌, ◌==ℤ◌, ltb_ℤ, leb_ℤ, pos_part}
use xinu_swd.Net.Timer.{
  tmclear, tmleft, mkevent, send_event, persist_event, retransmit_event, delete_event,
}
use xinu_swd.Tcp.{
  Ostate, Tcb, Tcps, tcp_maxretries, tcp_maxrxt, tcp_maxprs, tcpe_timedout, rank, seqcmp, on_tcb,
}
use xinu_swd.Tcp.Output.{set_timer, tcpabort, tcbdealloc}
use xinu_swd.Tcp.Ack.{is_rexmt}
use xinu_swd.Tcp.Open.{min}
use xinu_swd.Tcp.Send.{min_ℤ, tcphowmuch, tcpsend}
use xinu_swd.Tcp.Input.{lock_tcb, unlock_unless_free}

abbrev pub send_new : ℕ → Tcps → Tcps
send_new n s = (tcpsend n false s).1

abbrev pub send_again : ℕ → Tcps → Tcps
send_again n s = (tcpsend n true s).1

-- `x << k` on an `int` that is not negative.
abbrev pub shift_left : ℤ → ℕ → ℕ
shift_left x k = pos_part x * 2 ^ k

unfoldable pub tcppersist : ℕ → ℕ → Tcps → Tcps
tcppersist n event s =
    let longer : Tcb → Tcb =
      λ t. record t { persist = min_ℤ (t.persist +ℤ t.persist) tcp_maxprs } in
    let s' = on_tcb n longer (send_again n s) in
    if event == persist_event
    then set_timer (mkevent persist_event n) (pos_part (s'.tcbtab n).persist) s'
    else s

-- The congestion window after a loss.
abbrev pub threshold : Tcb → ℕ
threshold t = min t.swindow (if is_rexmt t.ostate then t.ssthresh else t.cwnd) / 2

unfoldable pub close_cwnd : Tcb → Tcb
close_cwnd t = record t {
  ssthresh = if ltb (threshold t) t.smss then t.smss else threshold t;
  cwnd = t.smss;
}

abbrev pub count_rexmt : Tcb → Tcb
count_rexmt t = record t { rexmtcount = t.rexmtcount + 1 }

unfoldable pub tcprexmt : ℕ → ℕ → Tcps → Tcps
tcprexmt n event s₀ =
    let s = on_tcb n count_rexmt s₀ in
    let t = s.tcbtab n in
    let sent = send_again n s in
    let time = min (shift_left (sent.tcbtab n).rexmt (sent.tcbtab n).rexmtcount) tcp_maxrxt in
    if not (event == retransmit_event)
    then s₀
    else (if ltb tcp_maxretries t.rexmtcount
        then tcpabort n tcpe_timedout s
        else on_tcb n close_cwnd (set_timer (mkevent retransmit_event n) time sent))

abbrev pub set_ostate : Ostate → Tcb → Tcb
set_ostate os t = record t { ostate = os }

-- The loop of tcp_xmit.c.
abbrev pub may_send : ℕ → Tcb → Bool
may_send window t = ltb_ℤ (pos 0) (tcphowmuch t) && leb_ℤ (seqcmp t.snext t.suna) (pos window)

unfoldable pub xmit_loop : ℕ → ℕ → ℕ → Tcps → Option Tcps
xmit_loop zero n window s = none
xmit_loop (suc fuel) n window s =
    let rest = xmit_loop fuel n window (send_new n s) in
    if may_send window (s.tcbtab n) then rest else some s

-- The timer for the segments that are on their way, unless it runs.
abbrev pub arm : ℕ → Option Tcps → Option Tcps
arm n none = none
arm n (some s) =
    let tv = mkevent retransmit_event n in
    some
      (if tmleft s.oport tv s.timers == 0 then set_timer tv (pos_part (s.tcbtab n).rexmt) s else s)

abbrev pub close_window : ℕ → Tcps → Tcps
close_window n s =
    let waiting : Tcb → Tcb = λ t. record t { ostate = Ostate.persist; persist = t.rexmt } in
    let s' = send_new n (on_tcb n waiting s) in
    set_timer (mkevent persist_event n) (pos_part (s'.tcbtab n).persist) s'

abbrev pub xmit_new : ℕ → ℕ → Tcps → Option Tcps
xmit_new fuel n s =
    let t = s.tcbtab n in
    if tcphowmuch t ==ℤ pos 0
    then some (if t.flags.needout then send_new n s else s)
    else (if t.swindow == 0
        then some (close_window n s)
        else arm n (xmit_loop fuel n (min t.swindow t.cwnd) (on_tcb n (set_ostate Ostate.xmit) s)))

abbrev pub without_send : ℕ → Tcps → Tcps
without_send n s = record s { timers = (tmclear s.now s.oport (mkevent send_event n) s.timers).1 }

unfoldable pub tcpxmit : ℕ → ℕ → ℕ → Tcps → Option Tcps
tcpxmit fuel n event s =
    if event == retransmit_event
    then some (on_tcb n (set_ostate Ostate.rexmt) (tcprexmt n event (without_send n s)))
    else xmit_new fuel n s

unfoldable pub tcpidle : ℕ → ℕ → ℕ → Tcps → Option Tcps
tcpidle fuel n event s = if event == send_event then tcpxmit fuel n event s else some s

-- The table of the output states.
unfoldable pub tcposwitch : Ostate → ℕ → ℕ → ℕ → Tcps → Option Tcps
tcposwitch Ostate.idle fuel n event s = tcpidle fuel n event s
tcposwitch Ostate.persist fuel n event s = some (tcppersist n event s)
tcposwitch Ostate.xmit fuel n event s = tcpxmit fuel n event s
tcposwitch Ostate.rexmt fuel n event s = some (tcprexmt n event s)

abbrev pub unlocked : ℕ → Option Tcps → Option Tcps
unlocked n none = none
unlocked n (some s) = some (unlock_unless_free n s)

-- One turn of the loop of tcp_out.c for the event `i`.
unfoldable pub tcpout : ℕ → ℕ → Tcps → Option Tcps
tcpout fuel i s₀ =
    let n = i / 8 in
    let event = i % 8 in
    let s = on_tcb n lock_tcb s₀ in
    if leb (rank (s₀.tcbtab n).state) 1
    then some s₀
    else unlocked n (
        if event == delete_event
        then some (tcbdealloc n s)
        else tcposwitch (s.tcbtab n).ostate fuel n event s)
