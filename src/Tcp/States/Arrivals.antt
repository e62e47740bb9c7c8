-- ===== src/Tcp/States/Arrivals.antt =====
-- The states of the connections under the data of a segment, which leaves them as they are.
use xinu_swd.Prelude.{
  ℕ, ◌≡◌, refl, ap, ◌∙◌, true, false, ◌||◌, if◌then◌else◌, ◌==◌, arith, Option, none, some, List,
  [], ◌∷◌, Bool-cases, inl, inr, if_true, if_false,
}
use xinu_swd.Prelude.Int.{ℤ, pos, ltb_ℤ}
use xinu_swd.Tcp.{Tcpfrag, Code, Packet, Tcb, Tcps, seq_add, word, on_tcb}
use xinu_swd.Tcp.Output.{wake_readers}
use xinu_swd.Tcp.Data.{
  set_code, advance, take_push, take_fin, take_frag, coalesce, coalesce_queue, tfcoalesce, tfinsert,
  join_data, take_controls, join_in_order, out_of_order, tcpdodat, take_syn, cut, copy_data,
  kick_if_needed, tcpdata,
}
use xinu_swd.Tcp.States.Moves.{state_at, state_at-set_tcb, state_at-tcpkick}

state-take_frag : (tf : Tcpfrag) (t : Tcb) → (take_frag tf t).state ≡ t.state
state-take_frag tf t = ground arith

state-take_push : (t : Tcb) (p : Packet) → (take_push (t, p)).0.state ≡ t.state
state-take_push t p = ground arith

state-coalesce :
    (tfs : List Tcpfrag) (t : Tcb) (p : Packet) → (coalesce tfs (t, p)).0.state ≡ t.state
unfolding coalesce
state-coalesce [] t p = refl
state-coalesce (tf ∷ tfs) t p =
    let r = take_push (take_frag tf t, p) in
    ground
      (arith, state-coalesce tfs r.0 r.1, state-take_push (take_frag tf t) p, state-take_frag tf t)

state-coalesce_queue :
    (q : Option (List Tcpfrag)) (t : Tcb) (p : Packet) → (coalesce_queue q (t, p)).0.state ≡ t.state
state-coalesce_queue none t p = refl
state-coalesce_queue (some tfs) t p = state-coalesce tfs t p

state_at-tfcoalesce :
    (n : ℕ) (datalen : ℤ) (s : Tcps) (i : ℕ) → state_at i (tfcoalesce n datalen s) ≡ state_at i s
unfolding tfcoalesce
state_at-tfcoalesce n datalen s i =
    let t = advance datalen (s.tcbtab n) in
    let t₁ = (take_fin (t, s.packet)).0 in
    let r = take_push (t, s.packet) in
    let t₂ = (coalesce_queue t.rsegq r).0 in
    let kept : t₂.state ≡ t.state =
      state-coalesce_queue t.rsegq r.0 r.1 ∙ state-take_push t s.packet in
    ground (arith, state_at-set_tcb n t₁ s i refl, state_at-set_tcb n t₂ s i kept)

state-tfinsert : (seq : ℕ) (datalen : ℤ) (t : Tcb) → (tfinsert seq datalen t).state ≡ t.state
unfolding tfinsert
state-tfinsert seq datalen t = ground arith

state-wake_readers : (t : Tcb) → (wake_readers t).state ≡ t.state
unfolding wake_readers
state-wake_readers t = refl

state_at-join_data :
    (n : ℕ) (datalen : ℤ) (s : Tcps) (i : ℕ) → state_at i (join_data n datalen s) ≡ state_at i s
state_at-join_data n datalen s i =
    let s' = tfcoalesce n datalen s in
    let t = s'.tcbtab n in
    ground (
      arith,
      state_at-set_tcb n (record t { flags = record t.flags { needout = true } }) s' i refl,
      state_at-tfcoalesce n datalen s i,
    )

state-take_controls : (c : Code) (t : Tcb) → (take_controls c t).state ≡ t.state
state-take_controls c t = ground arith

state_at-join_in_order :
    (n : ℕ) (datalen : ℤ) (s : Tcps) (i : ℕ) → state_at i (join_in_order n datalen s) ≡ state_at i s
state_at-join_in_order n datalen s₀ i =
    let s = join_data n datalen s₀ in
    let c = s.packet.code in
    let t = take_controls c (s.tcbtab n) in
    let wakeup = ltb_ℤ (pos 0) datalen || (c.fin || c.psh) in
    let t' : Tcb = (if wakeup then wake_readers t else t) in
    let woken : t'.state ≡ t.state = ground (arith, state-wake_readers t) in
    state_at-set_tcb n t' s i (woken ∙ state-take_controls c (s.tcbtab n))
    ∙ state_at-join_data n datalen s₀ i

state_at-out_of_order :
    (n first : ℕ) (datalen : ℤ) (s : Tcps) (i : ℕ)
    → state_at i (out_of_order n first datalen s) ≡ state_at i s
state_at-out_of_order n first datalen s i =
    let p = s.packet in
    let t = s.tcbtab n in
    let last = seq_add p.seq (word datalen) in
    let t' : Tcb = record t {
      finseq = if p.code.fin then last else t.finseq;
      pushseq = if p.code.psh then last else t.pushseq;
    } in
    state_at-set_tcb n (tfinsert first datalen t') s i (state-tfinsert first datalen t')

state_at-tcpdodat :
    (n first : ℕ) (datalen : ℤ) (s : Tcps) (i : ℕ)
    → state_at i (tcpdodat n first datalen s) ≡ state_at i s
unfolding tcpdodat
state_at-tcpdodat n first datalen s i = elim (Bool-cases ((s.tcbtab n).rnext == first)) [
  | inl e ↦
      ap (state_at i) (if_true e (join_in_order n datalen s) (out_of_order n first datalen s))
      ∙ state_at-join_in_order n datalen s i
  | inr e ↦
      ap (state_at i) (if_false e (join_in_order n datalen s) (out_of_order n first datalen s))
      ∙ state_at-out_of_order n first datalen s i
]

state_at-take_syn : (n : ℕ) (s : Tcps) (i : ℕ) → state_at i (take_syn n s) ≡ state_at i s
state_at-take_syn n s i =
    let s' = record s { packet = record s.packet { seq = seq_add s.packet.seq 1 } } in
    let t₀ = s.tcbtab n in
    let t : Tcb = record t₀ {
      rnext = seq_add t₀.rnext 1;
      flags = record t₀.flags { needout = true };
    } in
    ground (arith, state_at-set_tcb n t s' i refl)

state_at-kick_if_needed :
    (n : ℕ) (s : Tcps) (i : ℕ) → state_at i (kick_if_needed n s) ≡ state_at i s
state_at-kick_if_needed n s i = ground (arith, state_at-tcpkick n s i)

pub state_at-tcpdata : (n : ℕ) (s : Tcps) (i : ℕ) → state_at i (tcpdata n s) ≡ state_at i s
unfolding tcpdata
state_at-tcpdata n s₀ i =
    let s = take_syn n s₀ in
    let c = cut (s.tcbtab n) s.packet in
    let p : Packet =
      (if c.is_cut then set_code (record s.packet.code { fin = false }) s.packet else s.packet) in
    let t = copy_data c p (s.tcbtab n) in
    let s₁ : Tcps = record (on_tcb n (copy_data c p) s) { packet = p } in
    state_at-kick_if_needed n (tcpdodat n c.first c.datalen s₁) i
    ∙ (state_at-tcpdodat n c.first c.datalen s₁ i
        ∙ (state_at-set_tcb n t s i refl ∙ state_at-take_syn n s₀ i))
