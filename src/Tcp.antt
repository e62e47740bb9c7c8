-- ===== src/Tcp.antt =====
-- TCP: the connection's control block (include/tcb.h, tcpfsm.h and tcp.h) and the state it is part of.
-- A sequence number is a word of 32 bits. The semaphores are their counts, the packet that is being
-- handled is part of the state, since handlers change it, and buffers are there for each packet sent.
pub mod Output
pub mod Window
pub mod Ack
pub mod Data
pub mod Open
pub mod Send
pub mod Events
pub mod User
pub mod States
pub mod Input
mod Example
mod Tests
use xinu_swd.Prelude.{
  ℕ, ◌+◌, ◌-◌, ◌*◌, ◌/◌, ◌%◌, ◌^◌, Bool, true, false, Option, List, [], ◌∷◌, ◌++◌, if◌then◌else◌,
  ◌==◌, ltb,
}
use xinu_swd.Prelude.Int.{ℤ, pos, negsuc, ◌+ℤ◌, ◌-ℤ◌}
use xinu_swd.Net.Addr.{IpAddr}
use xinu_swd.Net.Route.{Rtinfo}
use xinu_swd.Net.Timer.{Tqent}

pub data Tstate : Type 0 where
  free closed listen synsent synrcvd established finwait1 finwait2 closewait lastack closing
        timewait :
      Tstate

-- The number of a state, in which the code compares states.
abbrev pub rank : Tstate → ℕ
rank Tstate.free = 0
rank Tstate.closed = 1
rank Tstate.listen = 2
rank Tstate.synsent = 3
rank Tstate.synrcvd = 4
rank Tstate.established = 5
rank Tstate.finwait1 = 6
rank Tstate.finwait2 = 7
rank Tstate.closewait = 8
rank Tstate.lastack = 9
rank Tstate.closing = 10
rank Tstate.timewait = 11

-- The output states.
pub data Ostate : Type 0 where
  idle persist xmit rexmt : Ostate

pub data Tcbtype : Type 0 where
  server connection master : Tcbtype

-- The control bits `TCPF_URG` to `TCPF_FIN`.
pub record Code : Type 0 where
  pub urg : Bool
  pub ack : Bool
  pub psh : Bool
  pub rst : Bool
  pub syn : Bool
  pub fin : Bool

-- The flags `TCBF_NEEDOUT` to `TCBF_SNDFIN`.
pub record Flags : Type 0 where
  pub needout : Bool
  pub firstsend : Bool
  pub gotfin : Bool
  pub rdone : Bool
  pub sdone : Bool
  pub delack : Bool
  pub buffer : Bool
  pub push : Bool
  pub sndfin : Bool

-- A packet: `len` is the length of its data, what `ip_len` leaves after both headers.
pub record Packet : Type 0 where
  pub src : IpAddr
  pub dst : IpAddr
  pub sport : ℕ
  pub dport : ℕ
  pub seq : ℕ
  pub ackno : ℕ
  pub code : Code
  pub window : ℕ
  pub len : ℤ
  pub data_at : ℕ → ℕ

-- A fragment of `struct tcpfrag`.
pub record Tcpfrag : Type 0 where
  pub tf_seq : ℕ
  pub tf_len : ℤ

-- The control block. Its ports are of type `short`; `rsegq` holds the fragments in order, or `none` for no queue.
pub record Tcb : Type 0 where
  pub state : Tstate
  pub ostate : Ostate
  pub type_of : Tcbtype
  pub mutexcnt : ℤ
  pub code : Code
  pub flags : Flags
  pub error : ℤ
  pub rip : IpAddr
  pub rport : ℤ
  pub lip : IpAddr
  pub lport : ℤ
  pub pni : ℤ
  pub suna : ℕ
  pub snext : ℕ
  pub slast : ℕ
  pub swindow : ℕ
  pub lwseq : ℕ
  pub lwack : ℕ
  pub cwnd : ℕ
  pub ssthresh : ℕ
  pub smss : ℕ
  pub iss : ℕ
  pub srt : ℤ
  pub rtde : ℤ
  pub persist : ℤ
  pub rexmt : ℤ
  pub rexmtcount : ℕ
  pub rnext : ℕ
  pub rudq : ℤ
  pub lqsize : ℤ
  pub listenq : List ℤ
  pub pptcb : Option ℕ
  pub ocsemcnt : ℤ
  pub dvnum : ℤ
  pub ssemacnt : ℤ
  pub sndbuf : ℕ → ℕ
  pub sbstart : ℤ
  pub sbcount : ℤ
  pub sbsize : ℕ
  pub rsemacnt : ℤ
  pub rcvbuf : ℕ → ℕ
  pub rbstart : ℕ
  pub rbcount : ℤ
  pub rbsize : ℕ
  pub rmss : ℕ
  pub cwin : ℕ
  pub rsegq : Option (List Tcpfrag)
  pub finseq : ℕ
  pub pushseq : ℕ

-- The counters that the handlers change.
pub record Stats : Type 0 where
  pub attempt_fails : ℕ
  pub estab_resets : ℕ
  pub curr_estab : ℤ
  pub out_segs : ℕ
  pub passive_opens : ℕ
  pub retrans_segs : ℕ

-- What the code reads of other parts and does not change: what `rtget` takes for its hash and for
-- broadcast addresses, the interface that `rt_ifnum` gives at the address 0, what the MTU of an
-- interface leaves for data after both headers, the clock's seconds, and what `ipsend` returns.
pub record Tcpenv : Type 0 where
  pub junk : ℕ
  pub beyond : ℕ → ℕ
  pub isbrc : IpAddr → Bool
  pub null_ifnum : ℤ
  pub segment_size : ℤ → ℕ
  pub clktime : ℕ
  pub ipsend : Packet → ℤ

-- The control blocks, the packet being handled, the timers with the clock, the events at the output
-- port, the packets sent, the routes, and `seq` of tcp_iss.c. `wild` counts calls of `freemem` with a
-- pointer that was never set.
pub record Tcps : Type 0 where
  pub tcbtab : ℕ → Tcb
  pub packet : Packet
  pub timers : List Tqent
  pub now : ℕ
  pub oport : ℕ
  pub events : List ℕ
  pub sent : List Packet
  pub env : Tcpenv
  pub routes : Rtinfo
  pub iss_seq : ℕ
  pub stats : Stats
  pub wild : ℕ

-- `Ntcp`, `TCPSBS` and `TCPRBS` of config/sun350/conf.h, and `TCPINCR` of tcp_iss.c.
abbrev pub ntcp : ℕ
ntcp = 16

abbrev pub tcpsbs : ℕ
tcpsbs = 4096

abbrev pub tcprbs : ℕ
tcprbs = 16384

abbrev pub tcpincr : ℕ
tcpincr = 904

-- `TCPQLEN`, `NTCPFRAG`, `TCP_ACKDELAY`, `TCP_TWOMSL` and `TCP_MINRXT`.
abbrev pub tcpqlen : ℕ
tcpqlen = 20

abbrev pub ntcpfrag : ℕ
ntcpfrag = 10

abbrev pub tcp_ackdelay : ℕ
tcp_ackdelay = 20

abbrev pub tcp_twomsl : ℕ
tcp_twomsl = 12000

abbrev pub tcp_minrxt : ℤ
tcp_minrxt = pos 50

-- `TCP_MAXRETRIES`, `TCP_MAXRXT` and `TCP_MAXPRS`.
abbrev pub tcp_maxretries : ℕ
tcp_maxretries = 12

abbrev pub tcp_maxrxt : ℕ
tcp_maxrxt = 2000

abbrev pub tcp_maxprs : ℤ
tcp_maxprs = pos 6000

-- `TCPE_TIMEDOUT`, `TCPE_RESET` and `TCPE_REFUSED`.
abbrev pub tcpe_timedout : ℤ
tcpe_timedout = negsuc 3

abbrev pub tcpe_reset : ℤ
tcpe_reset = negsuc 0

abbrev pub tcpe_refused : ℤ
tcpe_refused = negsuc 1

-- Sums and differences of sequence numbers.
abbrev pub seq_add : ℕ → ℕ → ℕ
seq_add a n = (a + n) % 2 ^ 32

-- A word of 32 bits as a `long`.
abbrev pub signed : ℕ → ℤ
signed x = if ltb x (2 ^ 31) then pos x else negsuc (2 ^ 32 - 1 - x)

-- An `int` as a word.
abbrev pub word : ℤ → ℕ
word (pos n) = n % 2 ^ 32
word (negsuc n) = (2 ^ 32 - 1 - n % 2 ^ 32) % 2 ^ 32

-- An `unsigned short` kept in a `short`, and the other way round.
abbrev pub as_short : ℕ → ℤ
as_short x =
    if ltb (x % 2 ^ 16) (2 ^ 15) then pos (x % 2 ^ 16) else negsuc (2 ^ 16 - 1 - x % 2 ^ 16)

abbrev pub as_unsigned : ℤ → ℕ
as_unsigned a = word a % 2 ^ 16

unfoldable pub seqcmp : ℕ → ℕ → ℤ
seqcmp a b = signed ((a + (2 ^ 32 - b % 2 ^ 32)) % 2 ^ 32)

-- `x >> k` on an `int`.
abbrev pub shift_right : ℤ → ℕ → ℤ
shift_right (pos n) k = pos (n / 2 ^ k)
shift_right (negsuc n) k = negsuc (n / 2 ^ k)

-- The remainder of an `int`, with the sign of the dividend.
abbrev pub rem : ℤ → ℕ → ℤ
rem (pos n) m = pos (n % m)
rem (negsuc n) m = pos 0 -ℤ pos ((n + 1) % m)

abbrev pub set_tcb : ℕ → Tcb → Tcps → Tcps
set_tcb n t s = record s { tcbtab = λ i. if i == n then t else s.tcbtab i }

-- `f` on the control block `n`.
abbrev pub on_tcb : ℕ → (Tcb → Tcb) → Tcps → Tcps
on_tcb n f s = set_tcb n (f (s.tcbtab n)) s

abbrev pub set_state : Tstate → Tcb → Tcb
set_state st t = record t { state = st }

abbrev pub signal_ocsem : Tcb → Tcb
signal_ocsem t = record t { ocsemcnt = t.ocsemcnt +ℤ pos 1 }

abbrev pub count_fail : Tcps → Tcps
count_fail s = record s { stats = record s.stats { attempt_fails = s.stats.attempt_fails + 1 } }

abbrev pub count_reset : Tcps → Tcps
count_reset s = record s {
  stats = record s.stats {
    estab_resets = s.stats.estab_resets + 1;
    curr_estab = s.stats.curr_estab -ℤ pos 1;
  };
}

abbrev pub count_estab : Tcps → Tcps
count_estab s = record s { stats = record s.stats { curr_estab = s.stats.curr_estab +ℤ pos 1 } }
