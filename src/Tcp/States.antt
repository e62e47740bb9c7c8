-- ===== src/Tcp/States.antt =====
-- The input handlers of the states, and the table of them: tcp_closed.c, tcp_listen.c, tcp_synsent.c,
-- tcp_synrcvd.c, tcp_estab.c, tcp_fin1.c, tcp_fin2.c, tcp_clwait.c, tcp_lastack.c, tcp_closing.c,
-- tcp_timewait.c, tcp_switch.c and tcpd_close.c of xinu/ipnet/common. What a handler returns is not
-- used, so it is its new state.
pub mod Moves
pub mod Arrivals
pub mod Refusal
use xinu_swd.Prelude.{
  ℕ, ◌+◌, ◌-◌, Bool, true, false, ◌&&◌, ◌||◌, Option, none, some, List, [], ◌∷◌, ◌++◌,
  if◌then◌else◌, ◌==◌, length,
}
use mathlib.Core.Bool.{not}
use xinu_swd.Prelude.Int.{ℤ, pos, ◌+ℤ◌, ◌-ℤ◌, ◌==ℤ◌, ltb_ℤ, leb_ℤ}
use xinu_swd.Conf.{ok, syserr}
use xinu_swd.Tcp.{
  Tstate, Ostate, Tcb, Tcps, tcpe_reset, tcpe_refused, seqcmp, seq_add, set_tcb, on_tcb, set_state,
  signal_ocsem, count_fail, count_reset, count_estab,
}
use xinu_swd.Tcp.Output.{tcpkick, tcpwait, tcpabort, tcbdealloc, kill_timers, tcpreset}
use xinu_swd.Tcp.Ack.{tcpacked, tcpswindow, is_synrcvd}
use xinu_swd.Tcp.Data.{set_code, tcpdata}

abbrev pub reset : Tcps → Tcps
reset s = (tcpreset s).1

abbrev pub acked : ℕ → Tcps → Tcps
acked n s = (tcpacked n s).1

abbrev pub move_to : Tstate → ℕ → Tcps → Tcps
move_to st n s = on_tcb n (set_state st) s

-- What most handlers do on `RST` and on `SYN`; `lost` gives the connection up.
abbrev pub unless_reset : (Tcps → Tcps) → (Tcps → Tcps) → Tcps → Tcps
unless_reset lost go s =
    if s.packet.code.rst then lost s else (if s.packet.code.syn then lost (reset s) else go s)

-- And on a packet without `ACK`.
abbrev pub if_acked : ℕ → (Tcps → Tcps) → Tcps → Tcps
if_acked n go s = if (tcpacked n s).0 ==ℤ syserr then acked n s else go (acked n s)

unfoldable pub tcpclosed : ℕ → Tcps → Tcps
tcpclosed n s = reset s

abbrev pub clear_fin_code : Tcps → Tcps
clear_fin_code s = record s { packet = set_code (record s.packet.code { fin = false }) s.packet }

-- The state behind SYN_SENT, by whether our `SYN` has been acknowledged.
abbrev pub opened : ℕ → Tcps → Tcps
opened n s =
    if (s.tcbtab n).code.syn
    then move_to Tstate.synrcvd n s
    else on_tcb n (λ t. signal_ocsem (set_state Tstate.established t)) (count_estab s)

abbrev pub start_window : Tcps → Tcb → Tcb
start_window s t = record t {
  swindow = s.packet.window;
  lwseq = s.packet.seq;
  rnext = s.packet.seq;
  cwin = seq_add s.packet.seq t.rbsize;
}

-- An acknowledgement of what has not been sent.
abbrev pub is_wrong_ack : ℕ → Tcps → Bool
is_wrong_ack n s =
    s.packet.code.ack
    && (leb_ℤ (seqcmp s.packet.ackno (s.tcbtab n).iss) (pos 0)
        || ltb_ℤ (pos 0) (seqcmp s.packet.ackno (s.tcbtab n).snext))

abbrev pub on_refusal : ℕ → Tcps → Tcps
on_refusal n s = on_tcb n signal_ocsem (
    kill_timers n
      (count_fail (on_tcb n (λ t. record t { state = Tstate.closed; error = tcpe_reset }) s)))

unfoldable pub tcpsynsent : ℕ → Tcps → Tcps
tcpsynsent n s =
    let s₁ = tcpdata n (acked n (on_tcb n (start_window s) s)) in
    if is_wrong_ack n s
    then reset s
    else (if s.packet.code.rst
        then on_refusal n s
        else (if not s.packet.code.syn then s else opened n (clear_fin_code s₁)))

-- ESTABLISHED, and CLOSE_WAIT when the other side has sent all its data.
abbrev pub establish : ℕ → Tcps → Tcps
establish n s =
    let s₁ = tcpdata n (move_to Tstate.established n (count_estab s)) in
    if (s₁.tcbtab n).flags.rdone then move_to Tstate.closewait n s₁ else s₁

abbrev pub is_listen : Tstate → Bool
is_listen Tstate.listen = true
is_listen _ = false

abbrev pub fail : ℕ → Tcps → Tcps
fail n s = tcbdealloc n (count_fail s)

-- The parent's part in a passive open: `psend` of the device to its queue, if there is room. Its mutex
-- is free, or the server is gone and its state is FREE.
abbrev pub by_parent : ℕ → ℕ → Tcps → Tcps
by_parent n m s =
    let parent = s.tcbtab m in
    if not (is_listen parent.state)
    then fail n (reset s)
    else (if leb_ℤ parent.lqsize (pos (length parent.listenq))
        then fail n s
        else establish n
            (set_tcb m (record parent { listenq = parent.listenq ++ (s.tcbtab n).dvnum ∷ [] }) s))

abbrev pub from_open : Option ℕ → ℕ → Tcps → Tcps
from_open none n s = establish n (on_tcb n signal_ocsem s)
from_open (some m) n s = by_parent n m s

abbrev pub refuse : Option ℕ → ℕ → Tcps → Tcps
refuse none n s = tcpabort n tcpe_refused s
refuse (some m) n s = tcbdealloc n s

unfoldable pub tcpsynrcvd : ℕ → Tcps → Tcps
tcpsynrcvd n s =
    if s.packet.code.rst
    then refuse (s.tcbtab n).pptcb n (count_fail s)
    else (if s.packet.code.syn
        then tcpabort n tcpe_reset (reset (count_fail s))
        else if_acked n (λ s. from_open (s.tcbtab n).pptcb n s) s)

-- The end of the other side's data moves the connection on.
abbrev pub if_rdone : ℕ → (Tcps → Tcps) → (Tcps → Tcps) → Tcps → Tcps
if_rdone n f g s = if (s.tcbtab n).flags.rdone then f s else g s

abbrev pub same : Tcps → Tcps
same s = s

unfoldable pub tcpestablished : ℕ → Tcps → Tcps
tcpestablished n =
    unless_reset (λ s. tcpabort n tcpe_reset (count_reset s))
      (if_acked n (λ s. if_rdone n (move_to Tstate.closewait n) same (tcpswindow n (tcpdata n s))))

-- With our `FIN` acknowledged or not, for a connection that has all of the other side's data.
abbrev pub both_closed : ℕ → Tcps → Tcps
both_closed n s =
    if (s.tcbtab n).code.fin
    then move_to Tstate.closing n s
    else tcpwait n (on_tcb n (λ t. signal_ocsem (set_state Tstate.timewait t)) s)

abbrev pub fin_sent : ℕ → Tcps → Tcps
fin_sent n s =
    if (s.tcbtab n).code.fin
    then s
    else on_tcb n (λ t. set_state Tstate.finwait2 (signal_ocsem t)) s

unfoldable pub tcpfin1 : ℕ → Tcps → Tcps
tcpfin1 n =
    unless_reset (tcpabort n tcpe_reset)
      (if_acked n (λ s. if_rdone n (both_closed n) (fin_sent n) (tcpswindow n (tcpdata n s))))

abbrev pub to_timewait : ℕ → Tcps → Tcps
to_timewait n s = tcpwait n (move_to Tstate.timewait n s)

unfoldable pub tcpfin2 : ℕ → Tcps → Tcps
tcpfin2 n =
    unless_reset (tcpabort n tcpe_reset)
      (if_acked n (λ s. if_rdone n (to_timewait n) same (tcpdata n s)))

unfoldable pub tcpclosewait : ℕ → Tcps → Tcps
tcpclosewait n =
    unless_reset (λ s. tcpabort n tcpe_reset (count_reset s)) (λ s. tcpswindow n (acked n s))

abbrev pub unless_fin : ℕ → (Tcps → Tcps) → Tcps → Tcps
unless_fin n f s = if (s.tcbtab n).code.fin then s else f s

unfoldable pub tcplastack : ℕ → Tcps → Tcps
tcplastack n =
    unless_reset (tcpabort n tcpe_reset) (λ s. unless_fin n (on_tcb n signal_ocsem) (acked n s))

unfoldable pub tcpclosing : ℕ → Tcps → Tcps
tcpclosing n = unless_reset (tcbdealloc n) (λ s. unless_fin n (to_timewait n) (acked n s))

unfoldable pub tcptimewait : ℕ → Tcps → Tcps
tcptimewait n = unless_reset (tcbdealloc n) (λ s. tcpwait n (tcpdata n (acked n s)))
