-- ===== src/Tcp/Input/Legal/Segments.antt =====
-- A segment that arrives makes legal moves only, whatever the state of its connection.
use xinu_swd.Prelude.{ℕ, ◌≡◌, refl, Bool, true, false, Option, none, some, if◌then◌else◌}
use xinu_swd.Tcp.{Tstate, Packet, Tcps, on_tcb}
use xinu_swd.Tcp.Window.{tcpok}
use xinu_swd.Tcp.Output.{is_unused, tcpackit}
use xinu_swd.Tcp.States.{reset}
use xinu_swd.Tcp.States.Moves.{state_at, state_at-set_tcb, state_at-tcpreset, state_at-tcpackit}
use xinu_swd.Tcp.Input.{
  tcpdemux, tcpswitch, lock_tcb, unlock_tcb, handle, unlock_unless_free, arrive, tcpinp,
}
use xinu_swd.Tcp.Input.Legal.{IsLegal, IsLegal-kept, IsLegal-from, IsLegal-to, IsLegal-if}
use xinu_swd.Tcp.Input.Legal.Handlers.{
  tcpclosed-IsLegal, tcpestablished-IsLegal, tcpfin1-IsLegal, tcpfin2-IsLegal, tcpclosewait-IsLegal,
  tcplastack-IsLegal, tcpclosing-IsLegal, tcptimewait-IsLegal,
}
use xinu_swd.Tcp.Input.Legal.Opening.{tcpsynsent-IsLegal, tcpsynrcvd-IsLegal}
use xinu_swd.Tcp.Input.Legal.Listening.{tcplisten-IsLegal}

tcpswitch-IsLegal :
    (i n : ℕ) (st : Tstate) (s : Tcps) → state_at n s ≡ st → IsLegal i s (tcpswitch st n s)
unfolding tcpswitch
tcpswitch-IsLegal i n Tstate.free s e = IsLegal-kept i s s refl
tcpswitch-IsLegal i n Tstate.closed s e = tcpclosed-IsLegal i n s
tcpswitch-IsLegal i n Tstate.listen s e = tcplisten-IsLegal i n s
tcpswitch-IsLegal i n Tstate.synsent s e = tcpsynsent-IsLegal i n s e
tcpswitch-IsLegal i n Tstate.synrcvd s e = tcpsynrcvd-IsLegal i n s e
tcpswitch-IsLegal i n Tstate.established s e = tcpestablished-IsLegal i n s e
tcpswitch-IsLegal i n Tstate.finwait1 s e = tcpfin1-IsLegal i n s e
tcpswitch-IsLegal i n Tstate.finwait2 s e = tcpfin2-IsLegal i n s e
tcpswitch-IsLegal i n Tstate.closewait s e = tcpclosewait-IsLegal i n s
tcpswitch-IsLegal i n Tstate.lastack s e = tcplastack-IsLegal i n s
tcpswitch-IsLegal i n Tstate.closing s e = tcpclosing-IsLegal i n s e
tcpswitch-IsLegal i n Tstate.timewait s e = tcptimewait-IsLegal i n s e

handle-IsLegal : (i n : ℕ) (s : Tcps) → IsLegal i s (handle n s)
handle-IsLegal i n s =
    let t = s.tcbtab n in
    let s' : Tcps = record s { packet = (tcpok t s.packet).1 } in
    IsLegal-from i s s' (handle n s) refl (
      IsLegal-if i s' (tcpok t s.packet).0 (tcpswitch t.state n s') (tcpackit n s').1
        (λ e. tcpswitch-IsLegal i n t.state s' refl)
        (λ e. IsLegal-kept i s' (tcpackit n s').1 (state_at-tcpackit n s' i)))

state_at-unlock_unless_free :
    (n : ℕ) (s : Tcps) (b : Bool) (i : ℕ)
    → state_at i (if b then s else on_tcb n unlock_tcb s) ≡ state_at i s
state_at-unlock_unless_free n s true i = refl
state_at-unlock_unless_free n s false i = state_at-set_tcb n (unlock_tcb (s.tcbtab n)) s i refl

arrive-IsLegal : (i : ℕ) (tcbn : Option ℕ) (s : Tcps) → IsLegal i s (arrive tcbn s)
arrive-IsLegal i none s = IsLegal-kept i s (reset s) (state_at-tcpreset s i)
arrive-IsLegal i (some n) s =
    let locked = on_tcb n lock_tcb s in
    let handled = handle n locked in
    IsLegal-to i s handled (unlock_unless_free n handled)
      (state_at-unlock_unless_free n handled (is_unused (handled.tcbtab n).state) i)
      (IsLegal-from i s locked handled (state_at-set_tcb n (lock_tcb (s.tcbtab n)) s i refl)
        (handle-IsLegal i n locked))

-- Whatever segment arrives in whatever state of the system, the state of each connection stays or
-- makes one of the moves of TCP's diagram of states, an accepted connection and a reset one
-- included.
pub tcpinp-IsLegal : (i : ℕ) (p : Packet) (s : Tcps) → IsLegal i s (tcpinp p s)
unfolding tcpinp
tcpinp-IsLegal i p s₀ =
    let s : Tcps = record s₀ { packet = p } in
    IsLegal-from i s₀ s (tcpinp p s₀) refl (arrive-IsLegal i (tcpdemux s) s)
