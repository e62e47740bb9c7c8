-- ===== src/Tcp/Input/Legal/Handlers.antt =====
-- Each input handler of TCP makes legal moves only.
use xinu_swd.Prelude.{ℕ, ◌≡◌, refl, sym, ◌∙◌}
use mathlib.Core.Path.{subst}
use xinu_swd.Prelude.Int.{ℤ}
use xinu_swd.Tcp.{
  Tstate, Tcb, Tcps, tcpe_reset, set_tcb, on_tcb, set_state, signal_ocsem, count_reset,
}
use xinu_swd.Tcp.Output.{tcbdealloc, tcpabort, tcpwait}
use xinu_swd.Tcp.Ack.{tcpswindow}
use xinu_swd.Tcp.Data.{tcpdata}
use xinu_swd.Tcp.States.{
  reset, acked, move_to, unless_reset, if_acked, tcpclosed, tcpestablished, tcpfin1, tcpfin2,
  tcpclosewait, tcplastack, tcpclosing, tcptimewait, if_rdone, same, both_closed, fin_sent,
  to_timewait, unless_fin,
}
use xinu_swd.Tcp.States.Moves.{
  state_at, state_at-set_tcb, state_at-tcpreset, state_at-tcpacked, state_at-tcpswindow,
  state_at-tcpabort, state_at-tcpwait,
}
use xinu_swd.Tcp.States.Arrivals.{state_at-tcpdata}
use xinu_swd.Tcp.Input.Legal.{
  Move, IsLegal, IsLegal-kept, IsLegal-from, IsLegal-to, IsLegal-if, IsLegal-set_tcb,
  IsLegal-unless_reset, IsLegal-if_acked, IsLegal-tcbdealloc,
}

-- A move from the state that connection `n` is known to be in.
pub Move-known :
    (n : ℕ) (s : Tcps) (a b : Tstate) → state_at n s ≡ a → Move a b → Move (state_at n s) b
Move-known n s a b e m = subst (λ st. Move st b) (sym e) m

-- What the states with data do first on a segment: its acknowledgement, data and window.
abbrev taken : ℕ → Tcps → Tcps
taken n s = tcpdata n (acked n s)

state_at-acked : (n : ℕ) (s : Tcps) (k : ℕ) → state_at k (acked n s) ≡ state_at k s
state_at-acked n s k = state_at-tcpacked n s k

state_at-taken : (n : ℕ) (s : Tcps) (k : ℕ) → state_at k (taken n s) ≡ state_at k s
state_at-taken n s k = state_at-tcpdata n (acked n s) k ∙ state_at-tcpacked n s k

abbrev windowed : ℕ → Tcps → Tcps
windowed n s = tcpswindow n (taken n s)

state_at-windowed : (n : ℕ) (s : Tcps) (k : ℕ) → state_at k (windowed n s) ≡ state_at k s
state_at-windowed n s k = state_at-tcpswindow n (taken n s) k ∙ state_at-taken n s k

-- A move behind a change that keeps the states.
pub IsLegal-put :
    (i n : ℕ) (t : Tcb) (s s' : Tcps)
    → ((k : ℕ) → state_at k s' ≡ state_at k s)
    → Move (state_at n s) t.state
    → IsLegal i s (set_tcb n t s')
IsLegal-put i n t s s' kept m =
    IsLegal-from i s s' (set_tcb n t s') (kept i)
      (IsLegal-set_tcb i n t s' (subst (λ a. Move a t.state) (sym (kept n)) m))

pub IsLegal-move_to :
    (i n : ℕ) (st : Tstate) (s s' : Tcps)
    → ((k : ℕ) → state_at k s' ≡ state_at k s)
    → Move (state_at n s) st
    → IsLegal i s (move_to st n s')
IsLegal-move_to i n st s s' kept m = IsLegal-put i n (set_state st (s'.tcbtab n)) s s' kept m

IsLegal-to_timewait :
    (i n : ℕ) (s s' : Tcps)
    → ((k : ℕ) → state_at k s' ≡ state_at k s)
    → Move (state_at n s) Tstate.timewait
    → IsLegal i s (to_timewait n s')
IsLegal-to_timewait i n s s' kept m =
    let moved = move_to Tstate.timewait n s' in
    IsLegal-to i s moved (tcpwait n moved) (state_at-tcpwait n moved i)
      (IsLegal-move_to i n Tstate.timewait s s' kept m)

pub IsLegal-tcpabort :
    (i n : ℕ) (error : ℤ) (s s' : Tcps)
    → ((k : ℕ) → state_at k s' ≡ state_at k s)
    → IsLegal i s (tcpabort n error s')
IsLegal-tcpabort i n error s s' kept =
    IsLegal-kept i s (tcpabort n error s') (state_at-tcpabort n error s' i ∙ kept i)

pub tcpclosed-IsLegal : (i n : ℕ) (s : Tcps) → IsLegal i s (tcpclosed n s)
unfolding tcpclosed
tcpclosed-IsLegal i n s = IsLegal-kept i s (reset s) (state_at-tcpreset s i)

pub tcpestablished-IsLegal :
    (i n : ℕ) (s : Tcps) → state_at n s ≡ Tstate.established → IsLegal i s (tcpestablished n s)
unfolding tcpestablished
tcpestablished-IsLegal i n s e =
    let s' = windowed n s in
    IsLegal-unless_reset i (λ s. tcpabort n tcpe_reset (count_reset s))
      (if_acked n (λ s. if_rdone n (move_to Tstate.closewait n) same (tcpswindow n (tcpdata n s))))
      s (λ r kept. IsLegal-tcpabort i n tcpe_reset s (count_reset r) kept)
      (IsLegal-if_acked i n
        (λ s. if_rdone n (move_to Tstate.closewait n) same (tcpswindow n (tcpdata n s))) s
        (IsLegal-if i s (s'.tcbtab n).flags.rdone (move_to Tstate.closewait n s') s'
          (λ b.
            IsLegal-move_to i n Tstate.closewait s s' (state_at-windowed n s)
              (Move-known n s Tstate.established Tstate.closewait e Move.half_closed))
          (λ b. IsLegal-kept i s s' (state_at-windowed n s i))))

-- A `FIN` of ours that is not acknowledged yet keeps the state.
IsLegal-unless_fin :
    (i n : ℕ) (f : Tcps → Tcps) (s s' : Tcps)
    → ((k : ℕ) → state_at k s' ≡ state_at k s)
    → IsLegal i s (f s')
    → IsLegal i s (unless_fin n f s')
IsLegal-unless_fin i n f s s' kept m =
    IsLegal-if i s (s'.tcbtab n).code.fin s' (f s') (λ b. IsLegal-kept i s s' (kept i)) (λ b. m)

-- A handler that gives the connection up on `RST` and on `SYN`.
IsLegal-aborting :
    (i n : ℕ) (go : Tcps → Tcps) (s : Tcps)
    → IsLegal i s (go s)
    → IsLegal i s (unless_reset (tcpabort n tcpe_reset) go s)
IsLegal-aborting i n go s m =
    IsLegal-unless_reset i (tcpabort n tcpe_reset) go s
      (λ r kept. IsLegal-tcpabort i n tcpe_reset s r kept) m

-- One that deletes it.
IsLegal-deleting :
    (i n : ℕ) (go : Tcps → Tcps) (s : Tcps)
    → Move (state_at n s) Tstate.free
    → IsLegal i s (go s)
    → IsLegal i s (unless_reset (tcbdealloc n) go s)
IsLegal-deleting i n go s gone m =
    IsLegal-unless_reset i (tcbdealloc n) go s
      (λ r kept.
        IsLegal-from i s r (tcbdealloc n r) (kept i)
          (IsLegal-tcbdealloc i n r (subst (λ a. Move a Tstate.free) (sym (kept n)) gone)))
      m

abbrev done_fin1 : ℕ → Tcps → Tcps
done_fin1 n s = if_rdone n (both_closed n) (fin_sent n) s

IsLegal-fin1 :
    (i n : ℕ) (s : Tcps) → state_at n s ≡ Tstate.finwait1 → IsLegal i s (done_fin1 n (windowed n s))
IsLegal-fin1 i n s e =
    let s' = windowed n s in
    let kept = state_at-windowed n s in
    let t = s'.tcbtab n in
    let waiting = set_tcb n (signal_ocsem (set_state Tstate.timewait t)) s' in
    IsLegal-if i s t.flags.rdone (both_closed n s') (fin_sent n s')
      (λ r.
        IsLegal-if i s t.code.fin (move_to Tstate.closing n s') (tcpwait n waiting)
          (λ f.
            IsLegal-move_to i n Tstate.closing s s' kept
              (Move-known n s Tstate.finwait1 Tstate.closing e Move.both_fins))
          (λ f. IsLegal-to i s waiting (tcpwait n waiting) (state_at-tcpwait n waiting i) (
            IsLegal-put i n (signal_ocsem (set_state Tstate.timewait t)) s s' kept
              (Move-known n s Tstate.finwait1 Tstate.timewait e Move.all_acked))))
      (λ r.
        IsLegal-if i s t.code.fin s' (on_tcb n (λ t. set_state Tstate.finwait2 (signal_ocsem t)) s')
          (λ f. IsLegal-kept i s s' (kept i))
          (λ f.
            IsLegal-put i n (set_state Tstate.finwait2 (signal_ocsem t)) s s' kept
              (Move-known n s Tstate.finwait1 Tstate.finwait2 e Move.fin_answered)))

pub tcpfin1-IsLegal :
    (i n : ℕ) (s : Tcps) → state_at n s ≡ Tstate.finwait1 → IsLegal i s (tcpfin1 n s)
unfolding tcpfin1
tcpfin1-IsLegal i n s e =
    let go : Tcps → Tcps = λ s. done_fin1 n (tcpswindow n (tcpdata n s)) in
    IsLegal-aborting i n (if_acked n go) s (IsLegal-if_acked i n go s (IsLegal-fin1 i n s e))

pub tcpfin2-IsLegal :
    (i n : ℕ) (s : Tcps) → state_at n s ≡ Tstate.finwait2 → IsLegal i s (tcpfin2 n s)
unfolding tcpfin2
tcpfin2-IsLegal i n s e =
    let s' = taken n s in
    let go : Tcps → Tcps = λ s. if_rdone n (to_timewait n) same (tcpdata n s) in
    IsLegal-aborting i n (if_acked n go) s (
      IsLegal-if_acked i n go s (
        IsLegal-if i s (s'.tcbtab n).flags.rdone (to_timewait n s') s'
          (λ b.
            IsLegal-to_timewait i n s s' (state_at-taken n s)
              (Move-known n s Tstate.finwait2 Tstate.timewait e Move.fin_seen))
          (λ b. IsLegal-kept i s s' (state_at-taken n s i))))

pub tcpclosewait-IsLegal : (i n : ℕ) (s : Tcps) → IsLegal i s (tcpclosewait n s)
unfolding tcpclosewait
tcpclosewait-IsLegal i n s =
    let s' = tcpswindow n (acked n s) in
    IsLegal-unless_reset i (λ s. tcpabort n tcpe_reset (count_reset s))
      (λ s. tcpswindow n (acked n s)) s
      (λ r kept. IsLegal-tcpabort i n tcpe_reset s (count_reset r) kept)
      (IsLegal-kept i s s' (state_at-tcpswindow n (acked n s) i ∙ state_at-acked n s i))

pub tcplastack-IsLegal : (i n : ℕ) (s : Tcps) → IsLegal i s (tcplastack n s)
unfolding tcplastack
tcplastack-IsLegal i n s =
    let s' = acked n s in
    IsLegal-aborting i n (λ s. unless_fin n (on_tcb n signal_ocsem) (acked n s)) s
      (IsLegal-unless_fin i n (on_tcb n signal_ocsem) s s' (state_at-acked n s) (
        IsLegal-kept i s (on_tcb n signal_ocsem s')
          (state_at-set_tcb n (signal_ocsem (s'.tcbtab n)) s' i refl ∙ state_at-acked n s i)))

pub tcpclosing-IsLegal :
    (i n : ℕ) (s : Tcps) → state_at n s ≡ Tstate.closing → IsLegal i s (tcpclosing n s)
unfolding tcpclosing
tcpclosing-IsLegal i n s e =
    IsLegal-deleting i n (λ s. unless_fin n (to_timewait n) (acked n s)) s
      (Move-known n s Tstate.closing Tstate.free e Move.closing_reset)
      (IsLegal-unless_fin i n (to_timewait n) s (acked n s) (state_at-acked n s) (
        IsLegal-to_timewait i n s (acked n s) (state_at-acked n s)
          (Move-known n s Tstate.closing Tstate.timewait e Move.closing_acked)))

pub tcptimewait-IsLegal :
    (i n : ℕ) (s : Tcps) → state_at n s ≡ Tstate.timewait → IsLegal i s (tcptimewait n s)
unfolding tcptimewait
tcptimewait-IsLegal i n s e =
    let s' = taken n s in
    IsLegal-deleting i n (λ s. tcpwait n (tcpdata n (acked n s))) s
      (Move-known n s Tstate.timewait Tstate.free e Move.wait_reset)
      (IsLegal-kept i s (tcpwait n s') (state_at-tcpwait n s' i ∙ state_at-taken n s i))
