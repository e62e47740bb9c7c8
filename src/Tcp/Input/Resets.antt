-- ===== src/Tcp/Input/Resets.antt =====
-- A segment with `RST` is never answered.
use xinu_swd.Prelude.{
  ℕ, ◌≡◌, refl, ap, ◌∙◌, Bool, true, false, ◌&&◌, ◌||◌, if◌then◌else◌, arith, Option, none, some,
  if_true,
}
use mathlib.Core.Bool.{not}
use xinu_swd.Prelude.Int.{ℤ, pos, leb_ℤ}
use xinu_swd.Conf.{ok}
use xinu_swd.Tcp.{
  Tstate, Tcbtype, Packet, Tcb, Tcps, tcpe_reset, on_tcb, set_tcb, count_fail, count_reset,
  signal_ocsem, tcpe_refused,
}
use xinu_swd.Tcp.Window.{tcpok, tcprwindow}
use xinu_swd.Tcp.Output.{
  is_unused, dealloc_type, tcbdealloc, tcpabort, tcpreset, reset_for, tcpackit, ack_for,
  send_packet, tcpwait,
}
use xinu_swd.Tcp.Open.{tcplisten, tcballoc, open_if}
use xinu_swd.Tcp.States.{
  reset, unless_reset, on_refusal, is_wrong_ack, refuse, tcpclosed, tcpsynsent, tcpsynrcvd,
  tcpestablished, tcpfin1, tcpfin2, tcpclosewait, tcplastack, tcpclosing, tcptimewait,
  clear_fin_code, opened, acked, start_window, from_open, if_acked, if_rdone, move_to, same,
  both_closed, fin_sent, to_timewait, unless_fin,
}
use xinu_swd.Tcp.Ack.{tcpswindow}
use xinu_swd.Tcp.Data.{tcpdata}
use xinu_swd.Tcp.Input.{tcpdemux, tcpswitch, lock_tcb, unlock_tcb, handle, arrive, tcpinp}

-- Two states of the system with the same packets sent.
abbrev pub IsSilent : Tcps → Tcps → Type 0
IsSilent s s' = s'.sent ≡ s.sent

IsSilent-if :
    (s : Tcps) (b : Bool) (x y : Tcps)
    → (b ≡ true → IsSilent s x)
    → (b ≡ false → IsSilent s y)
    → IsSilent s (if b then x else y)
IsSilent-if s true x y f g = f refl
IsSilent-if s false x y f g = g refl

tcpreset-IsSilent : (s : Tcps) → s.packet.code.rst ≡ true → IsSilent s (reset s)
unfolding tcpreset
tcpreset-IsSilent s e = ap (λ r. r.1.sent) (if_true e (ok, s) (send_packet (reset_for s.packet) s))

tcpackit-IsSilent : (n : ℕ) (s : Tcps) → s.packet.code.rst ≡ true → IsSilent s (tcpackit n s).1
unfolding tcpackit
tcpackit-IsSilent n s e =
    let p = s.packet in
    let (window, t') = tcprwindow (s.tcbtab n) in
    let bare = leb_ℤ p.len (pos 0) && not (p.code.syn || p.code.fin) in
    let quiet : (p.code.rst || bare) ≡ true = ground arith in
    ap (λ r. r.1.sent) (if_true quiet (ok, s) (send_packet (ack_for t' window p) (set_tcb n t' s)))

tcpabort-IsSilent : (n : ℕ) (error : ℤ) (s : Tcps) → IsSilent s (tcpabort n error s)
unfolding tcpabort
tcpabort-IsSilent n error s = refl

dealloc_type-IsSilent : (ty : Tcbtype) (n : ℕ) (s : Tcps) → IsSilent s (dealloc_type ty n s)
dealloc_type-IsSilent Tcbtype.connection n s = refl
dealloc_type-IsSilent Tcbtype.server n s = refl
dealloc_type-IsSilent Tcbtype.master n s = refl

tcbdealloc-IsSilent : (n : ℕ) (s : Tcps) → IsSilent s (tcbdealloc n s)
unfolding tcbdealloc
tcbdealloc-IsSilent n s =
    IsSilent-if s (is_unused (s.tcbtab n).state) s (dealloc_type (s.tcbtab n).type_of n s)
      (λ e. refl) (λ e. dealloc_type-IsSilent (s.tcbtab n).type_of n s)

-- A handler that only gives the connection up.
unless_reset-IsSilent :
    (lost go : Tcps → Tcps) (s : Tcps)
    → s.packet.code.rst ≡ true
    → IsSilent s (lost s)
    → IsSilent s (unless_reset lost go s)
unless_reset-IsSilent lost go s e l =
    ap Tcps.sent (if_true e (lost s) (if s.packet.code.syn then lost (reset s) else go s)) ∙ l

tcpsynsent-IsSilent : (n : ℕ) (s : Tcps) → s.packet.code.rst ≡ true → IsSilent s (tcpsynsent n s)
unfolding tcpsynsent
tcpsynsent-IsSilent n s e =
    let s₁ = tcpdata n (acked n (on_tcb n (start_window s) s)) in
    let go = if not s.packet.code.syn then s else opened n (clear_fin_code s₁) in
    let later = if s.packet.code.rst then on_refusal n s else go in
    IsSilent-if s (is_wrong_ack n s) (reset s) later (λ w. tcpreset-IsSilent s e)
      (λ w. ap Tcps.sent (if_true e (on_refusal n s) go))

refuse-IsSilent : (pptcb : Option ℕ) (n : ℕ) (s : Tcps) → IsSilent s (refuse pptcb n (count_fail s))
refuse-IsSilent none n s = tcpabort-IsSilent n tcpe_refused (count_fail s)
refuse-IsSilent (some m) n s = tcbdealloc-IsSilent n (count_fail s)

tcpsynrcvd-IsSilent : (n : ℕ) (s : Tcps) → s.packet.code.rst ≡ true → IsSilent s (tcpsynrcvd n s)
unfolding tcpsynrcvd
tcpsynrcvd-IsSilent n s e =
    let go : Tcps → Tcps = λ s. from_open (s.tcbtab n).pptcb n s in
    let aborted = tcpabort n tcpe_reset (reset (count_fail s)) in
    let last = if s.packet.code.syn then aborted else if_acked n go s in
    ap Tcps.sent (if_true e (refuse (s.tcbtab n).pptcb n (count_fail s)) last)
    ∙ refuse-IsSilent (s.tcbtab n).pptcb n s

tcplisten-IsSilent : (n : ℕ) (s : Tcps) → s.packet.code.rst ≡ true → IsSilent s (tcplisten n s)
unfolding tcplisten
tcplisten-IsSilent n s e =
    let opened = open_if n (tcballoc s).0 (tcballoc s).1 in
    let bad = s.packet.code.ack || not s.packet.code.syn in
    ap Tcps.sent (if_true e s (if bad then reset s else opened))

tcpswitch-IsSilent :
    (st : Tstate) (n : ℕ) (s : Tcps) → s.packet.code.rst ≡ true → IsSilent s (tcpswitch st n s)
unfolding tcpswitch tcpclosed tcpestablished tcpfin1 tcpfin2 tcpclosewait tcplastack tcpclosing
    tcptimewait
tcpswitch-IsSilent Tstate.free n s e = refl
tcpswitch-IsSilent Tstate.closed n s e = tcpreset-IsSilent s e
tcpswitch-IsSilent Tstate.listen n s e = tcplisten-IsSilent n s e
tcpswitch-IsSilent Tstate.synsent n s e = tcpsynsent-IsSilent n s e
tcpswitch-IsSilent Tstate.synrcvd n s e = tcpsynrcvd-IsSilent n s e
tcpswitch-IsSilent Tstate.established n s e =
    unless_reset-IsSilent (λ s. tcpabort n tcpe_reset (count_reset s))
      (if_acked n (λ s. if_rdone n (move_to Tstate.closewait n) same (tcpswindow n (tcpdata n s))))
      s e (tcpabort-IsSilent n tcpe_reset (count_reset s))
tcpswitch-IsSilent Tstate.finwait1 n s e =
    unless_reset-IsSilent (tcpabort n tcpe_reset)
      (if_acked n (λ s. if_rdone n (both_closed n) (fin_sent n) (tcpswindow n (tcpdata n s)))) s e
      (tcpabort-IsSilent n tcpe_reset s)
tcpswitch-IsSilent Tstate.finwait2 n s e =
    unless_reset-IsSilent (tcpabort n tcpe_reset)
      (if_acked n (λ s. if_rdone n (to_timewait n) same (tcpdata n s))) s e
      (tcpabort-IsSilent n tcpe_reset s)
tcpswitch-IsSilent Tstate.closewait n s e =
    unless_reset-IsSilent (λ s. tcpabort n tcpe_reset (count_reset s))
      (λ s. tcpswindow n (acked n s)) s e (tcpabort-IsSilent n tcpe_reset (count_reset s))
tcpswitch-IsSilent Tstate.lastack n s e =
    unless_reset-IsSilent (tcpabort n tcpe_reset)
      (λ s. unless_fin n (on_tcb n signal_ocsem) (acked n s)) s e (tcpabort-IsSilent n tcpe_reset s)
tcpswitch-IsSilent Tstate.closing n s e =
    unless_reset-IsSilent (tcbdealloc n) (λ s. unless_fin n (to_timewait n) (acked n s)) s e
      (tcbdealloc-IsSilent n s)
tcpswitch-IsSilent Tstate.timewait n s e =
    unless_reset-IsSilent (tcbdealloc n) (λ s. tcpwait n (tcpdata n (acked n s))) s e
      (tcbdealloc-IsSilent n s)

code-tcpok : (t : Tcb) (p : Packet) → (tcpok t p).1.code.rst ≡ p.code.rst
unfolding tcpok
code-tcpok t p = ground arith

handle-IsSilent : (n : ℕ) (s : Tcps) → s.packet.code.rst ≡ true → IsSilent s (handle n s)
handle-IsSilent n s e =
    let t = s.tcbtab n in
    let s' : Tcps = record s { packet = (tcpok t s.packet).1 } in
    let e' : s'.packet.code.rst ≡ true = code-tcpok t s.packet ∙ e in
    IsSilent-if s' (tcpok t s.packet).0 (tcpswitch t.state n s') (tcpackit n s').1
      (λ a. tcpswitch-IsSilent t.state n s' e') (λ a. tcpackit-IsSilent n s' e')

arrive-IsSilent :
    (tcbn : Option ℕ) (s : Tcps) → s.packet.code.rst ≡ true → IsSilent s (arrive tcbn s)
arrive-IsSilent none s e = tcpreset-IsSilent s e
arrive-IsSilent (some n) s e =
    let locked = on_tcb n lock_tcb s in
    let handled = handle n locked in
    IsSilent-if s (is_unused (handled.tcbtab n).state) handled (on_tcb n unlock_tcb handled)
      (λ b. handle-IsSilent n locked e) (λ b. handle-IsSilent n locked e)

-- A segment with `RST` is never answered: whatever the state of its connection, nothing is sent.
pub tcpinp-IsSilent : (p : Packet) (s : Tcps) → p.code.rst ≡ true → (tcpinp p s).sent ≡ s.sent
unfolding tcpinp
tcpinp-IsSilent p s₀ e = let s : Tcps = record s₀ { packet = p } in arrive-IsSilent (tcpdemux s) s e
