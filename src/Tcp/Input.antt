-- ===== src/Tcp/Input.antt =====
-- A segment that arrives, and a connection that is closed: tcp_demux.c, tcp_switch.c, tcp_inp.c and
-- tcpd_close.c of xinu/ipnet/common. The segment has the right checksum, its fields are in host order,
-- and it has no options; the mutex of its control block is free.
pub mod Demux
pub mod Legal
pub mod Resets
pub mod Shorts
use xinu_swd.Prelude.{
  ℕ, zero, suc, ◌+◌, Bool, true, false, ◌&&◌, ◌||◌, Option, none, some, if◌then◌else◌, ◌==◌, ltb,
}
use mathlib.Core.Bool.{not}
use xinu_swd.Prelude.Int.{ℤ, pos, ◌+ℤ◌, ◌-ℤ◌, ◌==ℤ◌}
use xinu_swd.Conf.{ok, syserr}
use xinu_swd.Net.Addr.{IpAddr, equ}
use xinu_swd.Tcp.{
  Tstate, Tcbtype, Packet, Tcb, Tcps, ntcp, seq_add, word, set_tcb, on_tcb, set_state,
}
use xinu_swd.Tcp.Window.{tcpok}
use xinu_swd.Tcp.Output.{tcpkick, is_unused, tcbdealloc, tcpackit}
use xinu_swd.Tcp.Open.{tcplisten}
use xinu_swd.Tcp.States.{
  is_listen, reset, same, move_to, tcpclosed, tcpsynsent, tcpsynrcvd, tcpestablished, tcpfin1,
  tcpfin2, tcpclosewait, tcplastack, tcpclosing, tcptimewait,
}

-- The connection that a packet belongs to, and a server for it. A port of a packet is an `unsigned
-- short` and one of a control block a `short`: they are compared as `int`, so one from 2^15 on is equal
-- to none.
abbrev pub is_connection : Packet → Tcb → Bool
is_connection p t =
    (pos p.dport ==ℤ t.lport) && ((pos p.sport ==ℤ t.rport) && (equ p.src t.rip && equ p.dst t.lip))

abbrev pub is_server : Packet → Tcb → Bool
is_server p t = is_listen t.state && (pos p.dport ==ℤ t.lport)

-- The loop of tcp_demux.c over the `k` control blocks from `tcbn` on: the connection, if the loop
-- stops at one, and the last server.
unfoldable pub demux_loop : Packet → (ℕ → Tcb) → ℕ → ℕ → Option ℕ → Option ℕ × Option ℕ
demux_loop p tab zero tcbn lstcbn = (none, lstcbn)
demux_loop p tab (suc k) tcbn lstcbn =
    let t = tab tcbn in
    let rest = demux_loop p tab k (tcbn + 1) lstcbn in
    let rest' = demux_loop p tab k (tcbn + 1) (some tcbn) in
    if is_unused t.state
    then rest
    else (if is_connection p t
        then (some tcbn, lstcbn)
        else (if is_server p t then rest' else rest))

-- A server takes only a packet with `SYN`.
abbrev pub or_server : Bool → Option ℕ × Option ℕ → Option ℕ
or_server syn (some tcbn, lstcbn) = some tcbn
or_server syn (none, lstcbn) = if syn then lstcbn else none

unfoldable pub tcpdemux : Tcps → Option ℕ
tcpdemux s = or_server s.packet.code.syn (demux_loop s.packet s.tcbtab ntcp 0 none)

-- The table of the handlers. `ioerr`, at FREE, does nothing.
unfoldable pub tcpswitch : Tstate → ℕ → Tcps → Tcps
tcpswitch Tstate.free n = same
tcpswitch Tstate.closed n = tcpclosed n
tcpswitch Tstate.listen n = tcplisten n
tcpswitch Tstate.synsent n = tcpsynsent n
tcpswitch Tstate.synrcvd n = tcpsynrcvd n
tcpswitch Tstate.established n = tcpestablished n
tcpswitch Tstate.finwait1 n = tcpfin1 n
tcpswitch Tstate.finwait2 n = tcpfin2 n
tcpswitch Tstate.closewait n = tcpclosewait n
tcpswitch Tstate.lastack n = tcplastack n
tcpswitch Tstate.closing n = tcpclosing n
tcpswitch Tstate.timewait n = tcptimewait n

-- `wait` and `signal` on the mutex of a control block.
abbrev pub lock_tcb : Tcb → Tcb
lock_tcb t = record t { mutexcnt = t.mutexcnt -ℤ pos 1 }

abbrev pub unlock_tcb : Tcb → Tcb
unlock_tcb t = record t { mutexcnt = t.mutexcnt +ℤ pos 1 }

-- A segment of the control block `n`.
abbrev pub handle : ℕ → Tcps → Tcps
handle n s =
    let t = s.tcbtab n in
    let (acceptable, p) = tcpok t s.packet in
    let s' : Tcps = record s { packet = p } in
    if acceptable then tcpswitch t.state n s' else (tcpackit n s').1

abbrev pub unlock_unless_free : ℕ → Tcps → Tcps
unlock_unless_free n s = if is_unused (s.tcbtab n).state then s else on_tcb n unlock_tcb s

abbrev pub arrive : Option ℕ → Tcps → Tcps
arrive none s = reset s
arrive (some n) s = unlock_unless_free n (handle n (on_tcb n lock_tcb s))

-- One turn of the loop of tcp_inp.c for the segment `p`.
unfoldable pub tcpinp : Packet → Tcps → Tcps
tcpinp p s₀ = let s : Tcps = record s₀ { packet = p } in arrive (tcpdemux s) s

-- What `tcpclose` does before it waits for the `FIN` to be acknowledged. It returns at once, with the
-- value given, or `none` for the wait.
abbrev pub closing_state : Tstate → Tstate
closing_state Tstate.established = Tstate.finwait1
closing_state _ = Tstate.lastack

abbrev pub start_close : Tcb → Tcb
start_close t = record t {
  flags = record t.flags { sndfin = true; needout = true };
  slast = seq_add t.suna (word t.sbcount);
  state = closing_state t.state;
}

abbrev pub uncount : Tcps → Tcps
uncount s = record s { stats = record s.stats { curr_estab = s.stats.curr_estab -ℤ pos 1 } }

-- The value of `tcbdealloc`.
abbrev pub dealloc_value : Tcbtype → ℤ
dealloc_value Tcbtype.master = syserr
dealloc_value _ = ok

abbrev pub deallocated : ℕ → Tcps → Option ℤ × Tcps
deallocated n s = (some (dealloc_value (s.tcbtab n).type_of), tcbdealloc n s)

abbrev pub close_open : ℕ → Tcps → Option ℤ × Tcps
close_open n s =
    if not ((s.tcbtab n).error ==ℤ pos 0)
    then deallocated n s
    else (none, on_tcb n unlock_tcb (tcpkick n (on_tcb n start_close (uncount s))))

abbrev pub close_in : Tstate → ℕ → Tcps → Option ℤ × Tcps
close_in Tstate.listen n s = deallocated n s
close_in Tstate.established n s = close_open n s
close_in Tstate.closewait n s = close_open n s
close_in Tstate.free n s = (some syserr, s)
close_in _ n s = (some syserr, on_tcb n unlock_tcb s)

unfoldable pub tcpclose : ℕ → Tcps → Option ℤ × Tcps
tcpclose n s = close_in (s.tcbtab n).state n (on_tcb n lock_tcb s)
