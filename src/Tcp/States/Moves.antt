-- ===== src/Tcp/States/Moves.antt =====
-- The states of the connections under what the handlers share: acknowledgements, data, timers and
-- packets sent leave them as they are.
use xinu_swd.Prelude.{
  ℕ, ◌≡◌, refl, sym, ap, ◌∙◌, true, inl, inr, Bool-cases, ◌||◌, if◌then◌else◌, ◌==◌, ==_iff, arith,
  if_true, if_false,
}
use xinu_swd.Prelude.Int.{ℤ, ◌==ℤ◌}
use xinu_swd.Conf.{syserr}
use xinu_swd.Net.Timer.{tmclear, mkevent, retransmit_event, persist_event}
use xinu_swd.Tcp.{Tstate, Ostate, Tcb, Tcps, seqcmp, set_tcb}
use xinu_swd.Tcp.Window.{tcprwindow}
use xinu_swd.Tcp.Output.{
  tcpkick, kill_timers, wake_readers, wake_all, tcpwait, tcpabort, tcpreset, tcpackit,
}
use xinu_swd.Tcp.Ack.{
  is_rexmt, estimate, open_cwnd, tcprtt, leave_rexmt, tcpostate, take_ack, tcpacked, leave_persist,
  tcpswindow,
}

-- The state of connection `i`.
abbrev pub state_at : ℕ → Tcps → Tstate
state_at i s = (s.tcbtab i).state

-- A change of one control block that keeps its state.
pub state_at-set_tcb :
    (n : ℕ) (t : Tcb) (s : Tcps) (i : ℕ)
    → t.state ≡ state_at n s
    → state_at i (set_tcb n t s) ≡ state_at i s
state_at-set_tcb n t s i h = elim (Bool-cases (i == n)) [
  | inl e ↦
      let same : i ≡ n = (==_iff i n).0 e in
      ap Tcb.state (if_true e t (s.tcbtab i)) ∙ (h ∙ ap (λ i. state_at i s) (sym same))
  | inr e ↦ ap Tcb.state (if_false e t (s.tcbtab i))
]

pub state_at-tcpkick : (n : ℕ) (s : Tcps) (i : ℕ) → state_at i (tcpkick n s) ≡ state_at i s
unfolding tcpkick
state_at-tcpkick n s i = ground arith

pub state_at-tcpwait : (n : ℕ) (s : Tcps) (i : ℕ) → state_at i (tcpwait n s) ≡ state_at i s
unfolding tcpwait
state_at-tcpwait n s i = refl

state-tcprwindow : (t : Tcb) → (tcprwindow t).1.state ≡ t.state
unfolding tcprwindow
state-tcprwindow t = ground arith

pub state_at-tcpreset : (s : Tcps) (i : ℕ) → state_at i (tcpreset s).1 ≡ state_at i s
unfolding tcpreset
state_at-tcpreset s i = ground arith

pub state_at-tcpackit : (n : ℕ) (s : Tcps) (i : ℕ) → state_at i (tcpackit n s).1 ≡ state_at i s
unfolding tcpackit
state_at-tcpackit n s i =
    ground
      (arith, state_at-set_tcb n (tcprwindow (s.tcbtab n)).1 s i (state-tcprwindow (s.tcbtab n)))

state-wake_all : (t : Tcb) → (wake_all t).state ≡ t.state
unfolding wake_all wake_readers
state-wake_all t = ground arith

pub state_at-tcpabort :
    (n : ℕ) (error : ℤ) (s : Tcps) (i : ℕ) → state_at i (tcpabort n error s) ≡ state_at i s
unfolding tcpabort
state_at-tcpabort n error s i =
    let t = s.tcbtab n in
    let t' : Tcb = record t {
      flags = record t.flags { rdone = true; sdone = true };
      error = error;
    } in
    state_at-set_tcb n (wake_all t') (kill_timers n s) i (state-wake_all t')

state-open_cwnd : (t : Tcb) → (open_cwnd t).state ≡ t.state
unfolding open_cwnd
state-open_cwnd t = refl

state-estimate : (rrt : ℤ) (t : Tcb) → (estimate rrt t).state ≡ t.state
unfolding estimate
state-estimate rrt t = refl

state_at-tcprtt : (n : ℕ) (s : Tcps) (i : ℕ) → state_at i (tcprtt n s) ≡ state_at i s
unfolding tcprtt
state_at-tcprtt n s i =
    let t = s.tcbtab n in
    let (rrt, timers) = tmclear s.now s.oport (mkevent retransmit_event n) s.timers in
    let t' : Tcb = (if rrt ==ℤ syserr || is_rexmt t.ostate then t else estimate rrt t) in
    let kept : t'.state ≡ t.state = ground (arith, state-estimate rrt t) in
    state_at-set_tcb n (open_cwnd t') (record s { timers = timers }) i (state-open_cwnd t' ∙ kept)

state-leave_rexmt : (t : Tcb) → (leave_rexmt t).state ≡ t.state
state-leave_rexmt t = ground arith

state_at-tcpostate :
    (n : ℕ) (acked : ℤ) (s : Tcps) (i : ℕ) → state_at i (tcpostate n acked s) ≡ state_at i s
unfolding tcpostate
state_at-tcpostate n acked s i =
    let t = leave_rexmt (s.tcbtab n) in
    let kept = state-leave_rexmt (s.tcbtab n) in
    ground (
      arith,
      state_at-set_tcb n (record t { ostate = Ostate.idle }) s i kept,
      state_at-tcpkick n (set_tcb n t s) i,
      state_at-set_tcb n t s i kept,
    )

state-take_ack : (ackno : ℕ) (acked : ℤ) (t : Tcb) → (take_ack ackno acked t).1.state ≡ t.state
unfolding take_ack
state-take_ack ackno acked t = ground arith

pub state_at-tcpacked : (n : ℕ) (s : Tcps) (i : ℕ) → state_at i (tcpacked n s).1 ≡ state_at i s
unfolding tcpacked
state_at-tcpacked n s i =
    let p = s.packet in
    let acked = seqcmp p.ackno (s.tcbtab n).suna in
    let s₁ = tcprtt n s in
    let t₁ = (take_ack p.ackno acked (s₁.tcbtab n)).1 in
    ground (
      arith,
      state_at-tcpreset s i,
      state_at-tcpackit n s i,
      state_at-tcpostate n acked (set_tcb n t₁ s₁) i,
      state_at-set_tcb n t₁ s₁ i (state-take_ack p.ackno acked (s₁.tcbtab n)),
      state_at-tcprtt n s i,
    )

state_at-leave_persist : (n : ℕ) (s : Tcps) (i : ℕ) → state_at i (leave_persist n s) ≡ state_at i s
state_at-leave_persist n s i =
    let s' = record s { timers = (tmclear s.now s.oport (mkevent persist_event n) s.timers).1 } in
    let t : Tcb = record (s.tcbtab n) { ostate = Ostate.xmit } in
    ground (arith, state_at-set_tcb n t s' i refl)

pub state_at-tcpswindow : (n : ℕ) (s : Tcps) (i : ℕ) → state_at i (tcpswindow n s) ≡ state_at i s
unfolding tcpswindow
state_at-tcpswindow n s i =
    let p = s.packet in
    let t : Tcb = record (s.tcbtab n) { swindow = p.window; lwseq = p.seq; lwack = p.ackno } in
    let s' = set_tcb n t s in
    ground (
      arith,
      state_at-set_tcb n t s i refl,
      state_at-leave_persist n s' i,
      state_at-tcpkick n (leave_persist n s') i,
    )
