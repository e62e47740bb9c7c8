-- ===== src/Tcp/Output.antt =====
-- What the handlers have sent and set: tcp_kick.c, tcp_wakeup.c, tcp_wait.c, tcp_abort.c, tcpd_dalloc.c,
-- tcp_reset.c and tcp_ackit.c of xinu/ipnet/common.
use xinu_swd.Prelude.{
  ℕ, ◌+◌, ◌%◌, ◌^◌, Bool, true, false, ◌&&◌, ◌||◌, none, [], ◌∷◌, ◌++◌, if◌then◌else◌, ◌==◌, ltb,
  length,
}
use mathlib.Core.Bool.{not}
use xinu_swd.Prelude.Int.{ℤ, pos, ◌+ℤ◌, ◌-ℤ◌, ◌==ℤ◌, ltb_ℤ, leb_ℤ}
use xinu_swd.Conf.{ok}
use xinu_swd.Net.Timer.{tmset, tmleft, tcpkilltimers, mkevent, send_event, delete_event}
use xinu_swd.Tcp.{
  Tstate, Tcbtype, Code, Packet, Tcb, Tcps, tcpqlen, tcp_ackdelay, tcp_twomsl, seq_add, word,
  set_tcb, on_tcb, signal_ocsem,
}
use xinu_swd.Tcp.Window.{tcprwindow}

abbrev pub set_timer : ℕ → ℕ → Tcps → Tcps
set_timer event time s = record s { timers = (tmset s.now s.oport tcpqlen event time s.timers).0 }

-- `tcpkick`: a delayed ACK by a timer, or an event now if the port has room.
unfoldable pub tcpkick : ℕ → Tcps → Tcps
tcpkick n s =
    let tv = mkevent send_event n in
    if (s.tcbtab n).flags.delack && tmleft s.oport tv s.timers == 0
    then set_timer tv tcp_ackdelay s
    else (if ltb (length s.events) tcpqlen then record s { events = s.events ++ tv ∷ [] } else s)

abbrev pub kill_timers : ℕ → Tcps → Tcps
kill_timers n s = record s { timers = tcpkilltimers s.now s.oport n s.timers }

-- `signal` unless the semaphore has a signal already.
abbrev pub wake : Bool → ℤ → ℤ
wake due cnt = if due && leb_ℤ cnt (pos 0) then cnt +ℤ pos 1 else cnt

-- `tcpwakeup(READERS, ptcb)`.
unfoldable pub wake_readers : Tcb → Tcb
wake_readers t = record t {
  rsemacnt = wake (t.flags.rdone || (ltb_ℤ (pos 0) t.rbcount || leb_ℤ (pos 0) t.rudq)) t.rsemacnt;
}

-- `tcpwakeup(READERS|WRITERS, ptcb)`; the id of `ocsem` is above 0 on a connection.
unfoldable pub wake_all : Tcb → Tcb
wake_all t₀ =
    let t = wake_readers t₀ in
    let t' = record t {
      ssemacnt = wake (t.flags.sdone || ltb_ℤ (pos 0) (pos t.sbsize -ℤ t.sbcount)) t.ssemacnt;
    } in
    if t.error ==ℤ pos 0 then t' else signal_ocsem t'

-- `tcpwait`: the connection is deleted after 2 MSL.
unfoldable pub tcpwait : ℕ → Tcps → Tcps
tcpwait n s = set_timer (mkevent delete_event n) tcp_twomsl (kill_timers n s)

unfoldable pub tcpabort : ℕ → ℤ → Tcps → Tcps
tcpabort n error s =
    on_tcb n
      (λ t.
        wake_all
          (record t { flags = record t.flags { rdone = true; sdone = true }; error = error }))
      (kill_timers n s)

abbrev pub is_unused : Tstate → Bool
is_unused Tstate.free = true
is_unused _ = false

-- `tcbdealloc` by the type of the control block; its queues, buffers and semaphores go with it.
abbrev pub dealloc_type : Tcbtype → ℕ → Tcps → Tcps
dealloc_type Tcbtype.connection n s =
    on_tcb n (λ t. record t { state = Tstate.free; rsegq = none }) (kill_timers n s)
dealloc_type Tcbtype.server n s = on_tcb n (λ t. record t { state = Tstate.free; listenq = [] }) s
dealloc_type Tcbtype.master n s = on_tcb n (λ t. record t { mutexcnt = t.mutexcnt +ℤ pos 1 }) s

unfoldable pub tcbdealloc : ℕ → Tcps → Tcps
tcbdealloc n s = if is_unused (s.tcbtab n).state then s else dealloc_type (s.tcbtab n).type_of n s

abbrev pub no_code : Code
no_code = record { urg = false; ack = false; psh = false; rst = false; syn = false; fin = false }

abbrev pub no_data : ℕ → ℕ
no_data i = 0

-- `TcpOutSegs++`, and `ipsend`.
abbrev pub send_packet : Packet → Tcps → ℤ × Tcps
send_packet p s = (
  s.env.ipsend p,
  record s { sent = s.sent ++ p ∷ []; stats = record s.stats { out_segs = s.stats.out_segs + 1 } },
)

-- The answer of `tcpreset` to a packet.
unfoldable pub reset_for : Packet → Packet
reset_for p = record {
  src = p.dst;
  dst = p.src;
  sport = p.dport;
  dport = p.sport;
  seq = if p.code.ack then p.ackno else 0;
  ackno = seq_add p.seq (word (if p.code.fin then p.len +ℤ pos 1 else p.len));
  code = record no_code { rst = true; ack = not p.code.ack };
  window = 0;
  len = pos 0;
  data_at = no_data;
}

-- There are no resets on resets.
unfoldable pub tcpreset : Tcps → ℤ × Tcps
tcpreset s = if s.packet.code.rst then (ok, s) else send_packet (reset_for s.packet) s

-- The answer of `tcpackit`, with the window that it advertises.
unfoldable pub ack_for : Tcb → ℤ → Packet → Packet
ack_for t window p = record {
  src = p.dst;
  dst = p.src;
  sport = p.dport;
  dport = p.sport;
  seq = t.snext;
  ackno = t.rnext;
  code = record no_code { ack = true };
  window = word window % 2 ^ 16;
  len = pos 0;
  data_at = no_data;
}

-- Neither a reset nor a packet without data, `SYN` or `FIN` is acknowledged.
unfoldable pub tcpackit : ℕ → Tcps → ℤ × Tcps
tcpackit n s =
    let p = s.packet in
    let (window, t') = tcprwindow (s.tcbtab n) in
    if p.code.rst || (leb_ℤ p.len (pos 0) && not (p.code.syn || p.code.fin))
    then (ok, s)
    else send_packet (ack_for t' window p) (set_tcb n t' s)
