-- ===== src/Tcp/Input/Legal.antt =====
-- The moves of the states of the connections, and that the input handlers make no others.
pub mod Handlers
pub mod Opening
pub mod Listening
pub mod Segments
use xinu_swd.Prelude.{
  ℕ, ◌+◌, ◌≡◌, refl, sym, ap, ◌∙◌, Bool, true, false, ◌&&◌, ◌||◌, if◌then◌else◌, ◌==◌, ==_iff,
  arith, Option, none, some, List, [], ◌∷◌, ◌++◌, Bool-cases, inl, inr, if_true, if_false, length,
}
use mathlib.Core.Bool.{not}
use mathlib.Core.Path.{subst}
use xinu_swd.Prelude.Int.{ℤ, pos, ◌+ℤ◌, ◌==ℤ◌, leb_ℤ}
use xinu_swd.Conf.{syserr}
use xinu_swd.Tcp.{
  Tstate, Tcbtype, Tcb, Tcps, tcpe_reset, tcpe_refused, set_tcb, on_tcb, set_state, signal_ocsem,
  count_fail, count_estab,
}
use xinu_swd.Tcp.Output.{is_unused, dealloc_type, tcbdealloc, tcpabort, tcpwait, kill_timers}
use xinu_swd.Tcp.Ack.{tcpacked, tcpswindow}
use xinu_swd.Tcp.Data.{tcpdata}
use xinu_swd.Tcp.States.{
  reset, acked, move_to, unless_reset, if_acked, tcpestablished, tcpfin1, tcpfin2, tcpclosewait,
  tcplastack, tcpclosing, tcptimewait, if_rdone, same, both_closed, fin_sent, to_timewait,
  unless_fin,
}
use xinu_swd.Tcp.States.Moves.{
  state_at, state_at-set_tcb, state_at-tcpreset, state_at-tcpacked, state_at-tcpswindow,
  state_at-tcpabort, state_at-tcpwait,
}
use xinu_swd.Tcp.States.Arrivals.{state_at-tcpdata}

-- A move of a connection's state while a segment is handled.
pub data Move : Tstate → Tstate → Type 0 where
  stay : (a : Tstate) → Move a a
  accept : Move Tstate.free Tstate.synrcvd
  rejected : Move Tstate.synsent Tstate.closed
  crossed : Move Tstate.synsent Tstate.synrcvd
  completed : Move Tstate.synsent Tstate.established
  established : Move Tstate.synrcvd Tstate.established
  half_opened : Move Tstate.synrcvd Tstate.closewait
  given_up : Move Tstate.synrcvd Tstate.free
  half_closed : Move Tstate.established Tstate.closewait
  fin_answered : Move Tstate.finwait1 Tstate.finwait2
  both_fins : Move Tstate.finwait1 Tstate.closing
  all_acked : Move Tstate.finwait1 Tstate.timewait
  fin_seen : Move Tstate.finwait2 Tstate.timewait
  closing_acked : Move Tstate.closing Tstate.timewait
  closing_reset : Move Tstate.closing Tstate.free
  wait_reset : Move Tstate.timewait Tstate.free

-- Connection `i` makes a legal move, or none, from one state of the system to another.
abbrev pub IsLegal : ℕ → Tcps → Tcps → Type 0
IsLegal i s s' = Move (state_at i s) (state_at i s')

pub IsLegal-kept : (i : ℕ) (s s' : Tcps) → state_at i s' ≡ state_at i s → IsLegal i s s'
IsLegal-kept i s s' e = subst (λ st. Move (state_at i s) st) (sym e) (Move.stay (state_at i s))

-- A change of the state before, or of the one after, that keeps the connection's.
pub IsLegal-from :
    (i : ℕ) (s s' s'' : Tcps) → state_at i s' ≡ state_at i s → IsLegal i s' s'' → IsLegal i s s''
IsLegal-from i s s' s'' e m = subst (λ st. Move st (state_at i s'')) e m

pub IsLegal-to :
    (i : ℕ) (s s' s'' : Tcps) → state_at i s'' ≡ state_at i s' → IsLegal i s s' → IsLegal i s s''
IsLegal-to i s s' s'' e m = subst (λ st. Move (state_at i s) st) (sym e) m

pub IsLegal-if :
    (i : ℕ) (s : Tcps) (b : Bool) (x y : Tcps)
    → (b ≡ true → IsLegal i s x)
    → (b ≡ false → IsLegal i s y)
    → IsLegal i s (if b then x else y)
IsLegal-if i s true x y f g = f refl
IsLegal-if i s false x y f g = g refl

-- A control block whose new state is a legal one.
pub IsLegal-set_tcb :
    (i n : ℕ) (t : Tcb) (s : Tcps) → Move (state_at n s) t.state → IsLegal i s (set_tcb n t s)
IsLegal-set_tcb i n t s m = elim (Bool-cases (i == n)) [
  | inl e ↦
      let same_tcb : i ≡ n = (==_iff i n).0 e in
      let after : state_at i (set_tcb n t s) ≡ t.state = ap Tcb.state (if_true e t (s.tcbtab i)) in
      let from_n : Move (state_at n s) (state_at i (set_tcb n t s)) =
        subst (λ st. Move (state_at n s) st) (sym after) m in
      subst (λ k. Move (state_at k s) (state_at i (set_tcb n t s))) (sym same_tcb) from_n
  | inr e ↦ IsLegal-kept i s (set_tcb n t s) (ap Tcb.state (if_false e t (s.tcbtab i)))
]

-- `reset` and `acked` before what a handler goes on with.
pub IsLegal-unless_reset :
    (i : ℕ) (lost go : Tcps → Tcps) (s : Tcps)
    → ((s' : Tcps) → ((k : ℕ) → state_at k s' ≡ state_at k s) → IsLegal i s (lost s'))
    → IsLegal i s (go s)
    → IsLegal i s (unless_reset lost go s)
IsLegal-unless_reset i lost go s l g =
    IsLegal-if i s s.packet.code.rst (lost s) (if s.packet.code.syn then lost (reset s) else go s)
      (λ e. l s (λ k. refl))
      (λ e.
        IsLegal-if i s s.packet.code.syn (lost (reset s)) (go s)
          (λ e. l (reset s) (λ k. state_at-tcpreset s k)) (λ e. g))

pub IsLegal-if_acked :
    (i n : ℕ) (go : Tcps → Tcps) (s : Tcps)
    → IsLegal i s (go (acked n s))
    → IsLegal i s (if_acked n go s)
IsLegal-if_acked i n go s g =
    IsLegal-if i s ((tcpacked n s).0 ==ℤ syserr) (acked n s) (go (acked n s))
      (λ e. IsLegal-kept i s (acked n s) (state_at-tcpacked n s i)) (λ e. g)

pub IsLegal-tcbdealloc :
    (i n : ℕ) (s : Tcps) → Move (state_at n s) Tstate.free → IsLegal i s (tcbdealloc n s)
unfolding tcbdealloc
IsLegal-tcbdealloc i n s m =
    IsLegal-if i s (is_unused (s.tcbtab n).state) s (dealloc_type (s.tcbtab n).type_of n s)
      (λ e. IsLegal-kept i s s refl) (λ e. by_type (s.tcbtab n).type_of)
  where
    by_type : (ty : Tcbtype) → IsLegal i s (dealloc_type ty n s)
    by_type Tcbtype.connection =
        let t : Tcb = record (s.tcbtab n) { state = Tstate.free; rsegq = none } in
        IsLegal-set_tcb i n t (kill_timers n s) m
    by_type Tcbtype.server =
        let t : Tcb = record (s.tcbtab n) { state = Tstate.free; listenq = [] } in
        IsLegal-set_tcb i n t s m
    by_type Tcbtype.master =
        let t₀ = s.tcbtab n in
        let t : Tcb = record t₀ { mutexcnt = t₀.mutexcnt +ℤ pos 1 } in
        IsLegal-kept i s (set_tcb n t s) (state_at-set_tcb n t s i refl)
