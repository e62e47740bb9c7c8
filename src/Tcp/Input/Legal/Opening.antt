-- ===== src/Tcp/Input/Legal/Opening.antt =====
-- The handlers of the states that open a connection, SYN_SENT, SYN_RCVD and LISTEN, make legal moves.
use xinu_swd.Prelude.{
  ℕ, ◌≡◌, refl, sym, ap, ◌∙◌, false, if◌then◌else◌, ◌==◌, ==_iff, Option, none, some, [], ◌∷◌, ◌++◌,
  length, Bool-cases, inl, inr, if_true, if_false,
}
use mathlib.Core.Bool.{not}
use mathlib.Core.Path.{subst}
use xinu_swd.Prelude.Int.{pos, leb_ℤ}
use xinu_swd.Tcp.{
  Tstate, Tcb, Tcps, tcpe_reset, tcpe_refused, set_tcb, on_tcb, set_state, signal_ocsem, count_fail,
  count_estab,
}
use xinu_swd.Tcp.Output.{tcbdealloc, tcpabort, kill_timers}
use xinu_swd.Tcp.Data.{tcpdata}
use xinu_swd.Tcp.States.{
  reset, acked, move_to, if_acked, clear_fin_code, opened, start_window, is_wrong_ack, on_refusal,
  tcpsynsent, establish, is_listen, fail, from_open, refuse, tcpsynrcvd,
}
use xinu_swd.Tcp.States.Moves.{state_at, state_at-set_tcb, state_at-tcpreset, state_at-tcpacked}
use xinu_swd.Tcp.States.Arrivals.{state_at-tcpdata}
use xinu_swd.Tcp.Input.Legal.{
  Move, IsLegal, IsLegal-kept, IsLegal-from, IsLegal-to, IsLegal-if, IsLegal-set_tcb,
  IsLegal-if_acked, IsLegal-tcbdealloc,
}
use xinu_swd.Tcp.Input.Legal.Handlers.{Move-known, IsLegal-put, IsLegal-move_to, IsLegal-tcpabort}

IsLegal-on_refusal :
    (i n : ℕ) (s : Tcps) → state_at n s ≡ Tstate.synsent → IsLegal i s (on_refusal n s)
IsLegal-on_refusal i n s e =
    let t : Tcb = record (s.tcbtab n) { state = Tstate.closed; error = tcpe_reset } in
    let closed = set_tcb n t s in
    let killed = kill_timers n (count_fail closed) in
    IsLegal-to i s closed (on_refusal n s)
      (state_at-set_tcb n (signal_ocsem (killed.tcbtab n)) killed i refl)
      (IsLegal-set_tcb i n t s (Move-known n s Tstate.synsent Tstate.closed e Move.rejected))

-- The segment of SYN_SENT is taken before the connection moves on.
abbrev answered : ℕ → Tcps → Tcps
answered n s = clear_fin_code (tcpdata n (acked n (on_tcb n (start_window s) s)))

state_at-answered : (n : ℕ) (s : Tcps) (k : ℕ) → state_at k (answered n s) ≡ state_at k s
state_at-answered n s k =
    let started = on_tcb n (start_window s) s in
    state_at-tcpdata n (acked n started) k
    ∙ (state_at-tcpacked n started k ∙ state_at-set_tcb n (start_window s (s.tcbtab n)) s k refl)

IsLegal-opened :
    (i n : ℕ) (s s' : Tcps)
    → ((k : ℕ) → state_at k s' ≡ state_at k s)
    → state_at n s ≡ Tstate.synsent
    → IsLegal i s (opened n s')
IsLegal-opened i n s s' kept e =
    let t = signal_ocsem (set_state Tstate.established (s'.tcbtab n)) in
    IsLegal-if i s (s'.tcbtab n).code.syn (move_to Tstate.synrcvd n s')
      (set_tcb n t (count_estab s'))
      (λ b.
        IsLegal-move_to i n Tstate.synrcvd s s' kept
          (Move-known n s Tstate.synsent Tstate.synrcvd e Move.crossed))
      (λ b.
        IsLegal-put i n t s (count_estab s') kept
          (Move-known n s Tstate.synsent Tstate.established e Move.completed))

pub tcpsynsent-IsLegal :
    (i n : ℕ) (s : Tcps) → state_at n s ≡ Tstate.synsent → IsLegal i s (tcpsynsent n s)
unfolding tcpsynsent
tcpsynsent-IsLegal i n s e =
    let go = opened n (answered n s) in
    let synced_or = if not s.packet.code.syn then s else go in
    IsLegal-if i s (is_wrong_ack n s) (reset s)
      (if s.packet.code.rst then on_refusal n s else synced_or)
      (λ b. IsLegal-kept i s (reset s) (state_at-tcpreset s i))
      (λ b.
        IsLegal-if i s s.packet.code.rst (on_refusal n s) synced_or
          (λ r. IsLegal-on_refusal i n s e)
          (λ r.
            IsLegal-if i s (not s.packet.code.syn) s go (λ b. IsLegal-kept i s s refl)
              (λ b. IsLegal-opened i n s (answered n s) (state_at-answered n s) e)))

-- A move of `n` behind changes that keep the states of the others.
pub IsLegal-over :
    (i n : ℕ) (t : Tcb) (s s' : Tcps)
    → ((k : ℕ) → (k == n) ≡ false → state_at k s' ≡ state_at k s)
    → Move (state_at n s) t.state
    → IsLegal i s (set_tcb n t s')
IsLegal-over i n t s s' kept m = elim (Bool-cases (i == n)) [
  | inl e ↦
      let same : i ≡ n = (==_iff i n).0 e in
      let after : state_at i (set_tcb n t s') ≡ t.state =
        ap Tcb.state (if_true e t (s'.tcbtab i)) in
      let moved : Move (state_at n s) (state_at i (set_tcb n t s')) =
        subst (λ st. Move (state_at n s) st) (sym after) m in
      subst (λ k. Move (state_at k s) (state_at i (set_tcb n t s'))) (sym same) moved
  | inr e ↦ IsLegal-kept i s (set_tcb n t s') (ap Tcb.state (if_false e t (s'.tcbtab i)) ∙ kept i e)
]

-- Another control block than the one that changes.
pub state_at-other :
    (n : ℕ) (t : Tcb) (s : Tcps) (k : ℕ)
    → (k == n) ≡ false
    → state_at k (set_tcb n t s) ≡ state_at k s
state_at-other n t s k e = ap Tcb.state (if_false e t (s.tcbtab k))

IsLegal-establish :
    (i n : ℕ) (s s' : Tcps)
    → ((k : ℕ) → state_at k s' ≡ state_at k s)
    → state_at n s ≡ Tstate.synrcvd
    → IsLegal i s (establish n s')
IsLegal-establish i n s s' kept e =
    let t = set_state Tstate.established (s'.tcbtab n) in
    let moved = set_tcb n t (count_estab s') in
    let s₁ = tcpdata n moved in
    IsLegal-if i s (s₁.tcbtab n).flags.rdone (move_to Tstate.closewait n s₁) s₁
      (λ b.
        IsLegal-over i n (set_state Tstate.closewait (s₁.tcbtab n)) s s₁
          (λ k d. state_at-tcpdata n moved k ∙ (state_at-other n t (count_estab s') k d ∙ kept k))
          (Move-known n s Tstate.synrcvd Tstate.closewait e Move.half_opened))
      (λ b. IsLegal-to i s moved s₁ (state_at-tcpdata n moved i) (
        IsLegal-put i n t s (count_estab s') kept
          (Move-known n s Tstate.synrcvd Tstate.established e Move.established)))

IsLegal-gone :
    (i n : ℕ) (s s' : Tcps)
    → ((k : ℕ) → state_at k s' ≡ state_at k s)
    → state_at n s ≡ Tstate.synrcvd
    → IsLegal i s (tcbdealloc n s')
IsLegal-gone i n s s' kept e = IsLegal-from i s s' (tcbdealloc n s') (kept i) (
    IsLegal-tcbdealloc i n s'
      (Move-known n s' Tstate.synrcvd Tstate.free (kept n ∙ e) Move.given_up))

IsLegal-from_open :
    (i n : ℕ) (pptcb : Option ℕ) (s s' : Tcps)
    → ((k : ℕ) → state_at k s' ≡ state_at k s)
    → state_at n s ≡ Tstate.synrcvd
    → IsLegal i s (from_open pptcb n s')
IsLegal-from_open i n none s s' kept e =
    IsLegal-establish i n s (on_tcb n signal_ocsem s')
      (λ k. state_at-set_tcb n (signal_ocsem (s'.tcbtab n)) s' k refl ∙ kept k) e
IsLegal-from_open i n (some m) s s' kept e =
    let parent = s'.tcbtab m in
    let queued : Tcb = record parent { listenq = parent.listenq ++ (s'.tcbtab n).dvnum ∷ [] } in
    let go = establish n (set_tcb m queued s') in
    let full = leb_ℤ parent.lqsize (pos (length parent.listenq)) in
    IsLegal-if i s (not (is_listen parent.state)) (fail n (reset s'))
      (if full then fail n s' else go)
      (λ b. IsLegal-gone i n s (count_fail (reset s')) (λ k. state_at-tcpreset s' k ∙ kept k) e)
      (λ b.
        IsLegal-if i s full (fail n s') go (λ f. IsLegal-gone i n s (count_fail s') kept e)
          (λ f.
            IsLegal-establish i n s (set_tcb m queued s')
              (λ k. state_at-set_tcb m queued s' k refl ∙ kept k) e))

IsLegal-refuse :
    (i n : ℕ) (pptcb : Option ℕ) (s : Tcps)
    → state_at n s ≡ Tstate.synrcvd
    → IsLegal i s (refuse pptcb n (count_fail s))
IsLegal-refuse i n none s e = IsLegal-tcpabort i n tcpe_refused s (count_fail s) (λ k. refl)
IsLegal-refuse i n (some m) s e = IsLegal-gone i n s (count_fail s) (λ k. refl) e

pub tcpsynrcvd-IsLegal :
    (i n : ℕ) (s : Tcps) → state_at n s ≡ Tstate.synrcvd → IsLegal i s (tcpsynrcvd n s)
unfolding tcpsynrcvd
tcpsynrcvd-IsLegal i n s e =
    let go : Tcps → Tcps = λ s. from_open (s.tcbtab n).pptcb n s in
    let aborted = tcpabort n tcpe_reset (reset (count_fail s)) in
    let last = if s.packet.code.syn then aborted else if_acked n go s in
    IsLegal-if i s s.packet.code.rst (refuse (s.tcbtab n).pptcb n (count_fail s)) last
      (λ r. IsLegal-refuse i n (s.tcbtab n).pptcb s e)
      (λ r.
        IsLegal-if i s s.packet.code.syn aborted (if_acked n go s)
          (λ b.
            IsLegal-tcpabort i n tcpe_reset s (reset (count_fail s))
              (λ k. state_at-tcpreset (count_fail s) k))
          (λ b. IsLegal-if_acked i n go s (
            IsLegal-from_open i n ((acked n s).tcbtab n).pptcb s (acked n s)
              (λ k. state_at-tcpacked n s k) e)))
