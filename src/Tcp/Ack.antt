-- ===== src/Tcp/Ack.antt =====
-- What an acknowledgement does: tcp_rtt.c, tcp_ostate.c, tcp_acked.c and tcp_swindow.c of
-- xinu/ipnet/common.
use xinu_swd.Prelude.{ℕ, ◌+◌, ◌*◌, ◌/◌, Bool, true, false, ◌&&◌, ◌||◌, if◌then◌else◌, ltb}
use mathlib.Core.Bool.{not}
use xinu_swd.Prelude.Int.{ℤ, pos, ◌+ℤ◌, ◌-ℤ◌, ◌==ℤ◌, ltb_ℤ, leb_ℤ}
use xinu_swd.Conf.{syserr}
use xinu_swd.Net.Timer.{tmclear, mkevent, retransmit_event, persist_event}
use xinu_swd.Tcp.{
  Tstate, Ostate, Packet, Tcb, Tcps, tcp_minrxt, seqcmp, seq_add, shift_right, rem, set_tcb, on_tcb,
}
use xinu_swd.Tcp.Output.{tcpkick, tcpreset, tcpackit, wake}

abbrev pub is_rexmt : Ostate → Bool
is_rexmt Ostate.rexmt = true
is_rexmt _ = false

abbrev pub is_persist : Ostate → Bool
is_persist Ostate.persist = true
is_persist _ = false

-- The magnitude of an `int`.
abbrev pub magnitude : ℤ → ℤ
magnitude a = if ltb_ℤ a (pos 0) then pos 0 -ℤ a else a

abbrev pub at_least : ℤ → ℤ → ℤ
at_least low a = if ltb_ℤ a low then low else a

-- The estimate of the round trip from a time `rrt` that was measured.
unfoldable pub estimate : ℤ → Tcb → Tcb
estimate rrt t =
    let srt₀ =
      (if t.srt ==ℤ pos 0
        then rrt +ℤ rrt +ℤ (rrt +ℤ rrt) +ℤ (rrt +ℤ rrt +ℤ (rrt +ℤ rrt))
        else t.srt) in
    let delta = rrt -ℤ shift_right srt₀ 3 in
    let srt = srt₀ +ℤ delta in
    let rtde = t.rtde +ℤ (magnitude delta -ℤ shift_right t.rtde 2) in
    record t {
      srt = srt;
      rtde = rtde;
      rexmt = at_least tcp_minrxt (shift_right (shift_right srt 2 +ℤ rtde) 1);
    }

-- The congestion window opens.
unfoldable pub open_cwnd : Tcb → Tcb
open_cwnd t = record t {
  cwnd = if ltb t.cwnd t.ssthresh then t.cwnd + t.smss else t.cwnd + t.smss * t.smss / t.cwnd;
}

unfoldable pub tcprtt : ℕ → Tcps → Tcps
tcprtt n s =
    let t = s.tcbtab n in
    let (rrt, timers) = tmclear s.now s.oport (mkevent retransmit_event n) s.timers in
    let t' = (if rrt ==ℤ syserr || is_rexmt t.ostate then t else estimate rrt t) in
    set_tcb n (open_cwnd t') (record s { timers = timers })

-- `tcpostate` for an acknowledgement of something.
abbrev pub leave_rexmt : Tcb → Tcb
leave_rexmt t = if is_rexmt t.ostate then record t { rexmtcount = 0; ostate = Ostate.xmit } else t

unfoldable pub tcpostate : ℕ → ℤ → Tcps → Tcps
tcpostate n acked s =
    let t = leave_rexmt (s.tcbtab n) in
    if leb_ℤ acked (pos 0)
    then s
    else (if t.sbcount ==ℤ pos 0
        then set_tcb n (record t { ostate = Ostate.idle }) s
        else tcpkick n (set_tcb n t s))

-- Our `SYN` and our `FIN`, once they are acknowledged.
abbrev pub syn_acked : ℤ → Tcb → Bool
syn_acked acked t = not (acked ==ℤ pos 0) && t.code.syn

abbrev pub fin_acked : ℕ → Tcb → Bool
fin_acked ackno t = t.code.fin && seqcmp ackno t.snext ==ℤ pos 0

abbrev pub clear_syn : Tcb → Tcb
clear_syn t = record t {
  code = record t.code { syn = false };
  flags = record t.flags { firstsend = false };
}

abbrev pub clear_fin : Tcb → Tcb
clear_fin t = record t {
  code = record t.code { fin = false };
  flags = record t.flags { sndfin = false };
}

abbrev pub less_if : Bool → ℤ → ℤ
less_if b a = if b then a -ℤ pos 1 else a

-- The control block once `ackno` has acknowledged `acked` sequence numbers, and how many of them are
-- data.
unfoldable pub take_ack : ℕ → ℤ → Tcb → ℤ × Tcb
take_ack ackno acked₀ t₀ =
    let t = record t₀ { suna = ackno } in
    let syn = syn_acked acked₀ t in
    let t₁ = (if syn then clear_syn t else t) in
    let fin = fin_acked ackno t₁ in
    let t₂ = (if fin then clear_fin t₁ else t₁) in
    let acked = less_if fin (less_if syn acked₀) in
    (
      acked,
      record t₂ {
        sbstart = rem (t₂.sbstart +ℤ acked) t₂.sbsize;
        sbcount = t₂.sbcount -ℤ acked;
        ssemacnt = wake (not (acked ==ℤ pos 0)) t₂.ssemacnt;
      },
    )

abbrev pub is_synrcvd : Tstate → Bool
is_synrcvd Tstate.synrcvd = true
is_synrcvd _ = false

-- The sum `acked + cacked` of tcp_acked.c is what was acknowledged in all.
unfoldable pub tcpacked : ℕ → Tcps → ℤ × Tcps
tcpacked n s =
    let p = s.packet in
    let t = s.tcbtab n in
    let acked = seqcmp p.ackno t.suna in
    let s₁ = tcprtt n s in
    let (octets, t₁) = take_ack p.ackno acked (s₁.tcbtab n) in
    if not p.code.ack
    then (syserr, s)
    else (if leb_ℤ acked (pos 0)
        then (pos 0, s)
        else (if ltb_ℤ (pos 0) (seqcmp p.ackno t.snext)
            then (if is_synrcvd t.state then tcpreset s else tcpackit n s)
            else (octets, tcpostate n acked (set_tcb n t₁ s₁))))

-- A send window update is not one that is older than the last.
abbrev pub is_old : Packet → Tcb → Bool
is_old p t =
    ltb_ℤ (seqcmp p.seq t.lwseq) (pos 0)
    || (seqcmp p.seq t.lwseq ==ℤ pos 0 && ltb_ℤ (seqcmp p.ackno t.lwack) (pos 0))

abbrev pub leave_persist : ℕ → Tcps → Tcps
leave_persist n s =
    if is_persist (s.tcbtab n).ostate
    then on_tcb n (λ t. record t { ostate = Ostate.xmit })
        (record s { timers = (tmclear s.now s.oport (mkevent persist_event n) s.timers).1 })
    else s

unfoldable pub tcpswindow : ℕ → Tcps → Tcps
tcpswindow n s =
    let p = s.packet in
    let t = s.tcbtab n in
    let owlast = seq_add t.lwack t.swindow in
    let wlast = seq_add p.ackno p.window in
    let s' = set_tcb n (record t { swindow = p.window; lwseq = p.seq; lwack = p.ackno }) s in
    if is_old p t
    then s
    else (if leb_ℤ (seqcmp wlast owlast) (pos 0) then s' else tcpkick n (leave_persist n s'))
