-- ===== src/Tcp/Open.antt =====
-- A connection for a packet in LISTEN: tcpd_alloc.c, tcp_iss.c, tcp_sync.c, tcp_winit.c and tcp_listen.c
-- of xinu/ipnet/common. Memory and semaphores are there, as the code takes for granted.
use xinu_swd.Prelude.{
  ℕ, zero, suc, ◌+◌, Bool, true, false, ◌||◌, Option, none, some, List, [], ◌∷◌, if◌then◌else◌,
  ◌==◌, ltb,
}
use mathlib.Core.Bool.{not}
use xinu_swd.Prelude.Int.{ℤ, pos, negsuc, ◌+ℤ◌, ◌==ℤ◌}
use xinu_swd.Net.Addr.{IpAddr}
use xinu_swd.Net.Route.{Route, Rtinfo, initialized, rthash}
use xinu_swd.Net.Route.Lookup.{Place, is_usable, rtget, rtfree}
use xinu_swd.Tcp.{
  Tstate, Ostate, Tcbtype, Flags, Packet, Tcb, Tcps, Tcpenv, ntcp, tcpsbs, tcprbs, tcpincr, seq_add,
  as_short, on_tcb,
}
use xinu_swd.Tcp.Output.{is_unused, no_code, tcpreset}
use xinu_swd.Tcp.Data.{set_code, tcpdata}

-- The loop of tcpd_alloc.c over the `k` slots from `slot` on: where it stops.
unfoldable pub free_slot : ℕ → ℕ → (ℕ → Tcb) → ℕ
free_slot zero slot tab = slot
free_slot (suc k) slot tab =
    let rest = free_slot k (slot + 1) tab in if is_unused (tab slot).state then slot else rest

unfoldable pub tcballoc : Tcps → Option ℕ × Tcps
tcballoc s =
    let slot = free_slot ntcp 0 s.tcbtab in
    if ltb slot ntcp
    then (some slot, on_tcb slot (λ t. record t { state = Tstate.closed; mutexcnt = pos 0 }) s)
    else (none, s)

unfoldable pub tcpiss : Tcps → ℕ × Tcps
tcpiss s =
    let seq = (if s.iss_seq == 0 then s.env.clktime else s.iss_seq) in
    (seq_add seq tcpincr, record s { iss_seq = seq_add seq tcpincr })

abbrev pub no_flags : Flags
no_flags = record {
  needout = false;
  firstsend = false;
  gotfin = false;
  rdone = false;
  sdone = false;
  delack = false;
  buffer = false;
  push = false;
  sndfin = false;
}

-- A queue of urgent data that is not there.
abbrev pub no_queue : ℤ
no_queue = negsuc 0

-- `tcpsync` for the number `iss` of `tcpiss`.
unfoldable pub synced : ℕ → Tcb → Tcb
synced iss t = record t {
  state = Tstate.closed;
  type_of = Tcbtype.connection;
  iss = iss;
  suna = iss;
  snext = iss;
  lwack = iss;
  sbsize = tcpsbs;
  sbstart = pos 0;
  sbcount = pos 0;
  ssemacnt = pos 1;
  rbsize = tcprbs;
  rbstart = 0;
  rbcount = pos 0;
  rsegq = none;
  rsemacnt = pos 0;
  rudq = no_queue;
  ocsemcnt = pos 0;
  srt = pos 0;
  rtde = pos 0;
  rexmt = pos 50;
  rexmtcount = 0;
  code = record no_code { syn = true };
  flags = no_flags;
}

unfoldable pub tcpsync : ℕ → Tcps → Tcps
tcpsync n s = let (iss, s') = tcpiss s in on_tcb n (synced iss) s'

abbrev pub min : ℕ → ℕ → ℕ
min a b = if ltb a b then a else b

-- The interface of a route, and whether the route is a direct one.
abbrev pub ifnum_of : ℤ → Option Route → ℤ
ifnum_of null_ifnum none = null_ifnum
ifnum_of null_ifnum (some prt) = prt.ifnum

abbrev pub is_direct : Option Route → Bool
is_direct none = false
is_direct (some prt) = prt.metric ==ℤ pos 0

-- Where the route is that `rtget` finds: its index in the bucket `hv`, or the default route.
unfoldable pub index_of : (Route → Bool) → List Route → ℕ → Option ℕ
index_of usable [] i = none
index_of usable (prt ∷ rest) i =
    let later = index_of usable rest (i + 1) in if usable prt then some i else later

abbrev pub place_at : ℕ → Option ℕ → Place
place_at hv none = Place.at_default
place_at hv (some i) = Place.in_table hv i

-- `rtget` and `rtfree` of the route to `dest`.
abbrev pub free_route : Place → Option Route → Rtinfo → Rtinfo
free_route at none r = r
free_route at (some prt) r = (rtfree at r).1

unfoldable pub look_up : Tcpenv → IpAddr → Rtinfo → Option Route × Rtinfo
look_up env dest r =
    let hv = rthash env.junk env.beyond dest in
    let usable = is_usable env.isbrc dest false in
    let at = place_at hv (index_of usable ((initialized r).table hv) 0) in
    let (prt, r') = rtget env.junk env.beyond env.isbrc dest false r in (prt, free_route at prt r')

-- `tcpwinit` for the control block `t` of a server `server`.
unfoldable pub with_window : Packet → ℤ → ℕ → Tcb → Tcb → Tcb
with_window p ifnum mss server t =
    let smss = (if server.smss == 0 then mss else min server.smss mss) in
    record t {
      swindow = p.window;
      lwseq = p.seq;
      lwack = t.iss;
      pni = ifnum;
      smss = smss;
      rmss = mss;
      cwnd = smss;
      ssthresh = 65535;
      rnext = p.seq;
      cwin = seq_add p.seq t.rbsize;
    }

unfoldable pub tcpwinit : ℕ → ℕ → Tcps → Tcps
tcpwinit n m s =
    let server = s.tcbtab n in
    let (prt, routes) = look_up s.env s.packet.src s.routes in
    let ifnum = ifnum_of s.env.null_ifnum prt in
    let mss = (if is_direct prt then s.env.segment_size ifnum else 536) in
    on_tcb n (λ t. record t { smss = 0 })
      (on_tcb m (with_window s.packet ifnum mss server) (record s { routes = routes }))

-- The new connection for the packet `p` to the server `n`.
abbrev pub addressed : ℕ → Packet → Tcb → Tcb
addressed n p t = record t {
  state = Tstate.synrcvd;
  ostate = Ostate.idle;
  error = pos 0;
  pptcb = some n;
  rip = p.src;
  rport = as_short p.sport;
  lip = p.dst;
  lport = as_short p.dport;
}

abbrev pub prepared : Tcb → Tcb
prepared t = record t { finseq = 0; pushseq = 0; flags = record no_flags { needout = true } }

abbrev pub opened_by : ℕ → ℕ → Tcps → Tcps
opened_by n m s =
    let s₁ = on_tcb m prepared (tcpwinit n m (on_tcb m (addressed n s.packet) (tcpsync m s))) in
    let s₂ : Tcps = record s₁ {
      stats = record s₁.stats { passive_opens = s₁.stats.passive_opens + 1 };
      packet = set_code (record s.packet.code { fin = false }) s.packet;
    } in
    on_tcb m (λ t. record t { mutexcnt = t.mutexcnt +ℤ pos 1 }) (tcpdata m s₂)

abbrev pub open_if : ℕ → Option ℕ → Tcps → Tcps
open_if n none s = s
open_if n (some m) s = opened_by n m s

unfoldable pub tcplisten : ℕ → Tcps → Tcps
tcplisten n s =
    let (slot, s') = tcballoc s in
    if s.packet.code.rst
    then s
    else (if s.packet.code.ack || not s.packet.code.syn then (tcpreset s).1 else open_if n slot s')
