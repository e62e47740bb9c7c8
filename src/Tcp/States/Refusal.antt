-- ===== src/Tcp/States/Refusal.antt =====
-- What SYN_SENT does with the reset that `tcpreset` answers its `SYN` with.
use xinu_swd.Prelude.{
  ℕ, ◌+◌, ◌-◌, ◌%◌, ◌^◌, ◌<◌, ◌≡◌, ap, ◌∙◌, true, false, if◌then◌else◌, arith, if_true,
}
use mathlib.Core.Bool.{not}
use xinu_swd.Prelude.Int.{pos, ◌+ℤ◌}
use xinu_swd.Tcp.{Packet, Tcps, on_tcb, seqcmp, seq_add, word, signed}
use xinu_swd.Tcp.Output.{reset_for, tcpreset}
use xinu_swd.Tcp.Data.{tcpdata}
use xinu_swd.Tcp.States.{
  reset, acked, start_window, is_wrong_ack, on_refusal, opened, clear_fin_code, tcpsynsent,
}

-- The number that the reset acknowledges is that of the `SYN` itself.
ackno-reset_for :
    (p : Packet) → p.code.fin ≡ false → p.len ≡ pos 0 → p.seq < 2 ^ 32 → (reset_for p).ackno ≡ p.seq
unfolding reset_for
ackno-reset_for p f l b =
    let len : (if p.code.fin then p.len +ℤ pos 1 else p.len) ≡ pos 0 = ground arith in
    ap (λ n. seq_add p.seq (word n)) len ∙ omega arith

seqcmp-same : (a : ℕ) → a < 2 ^ 32 → seqcmp a a ≡ pos 0
unfolding seqcmp
seqcmp-same a b =
    let zero_difference : (a + (2 ^ 32 - a % 2 ^ 32)) % 2 ^ 32 ≡ 0 = omega arith in
    ap signed zero_difference

-- For a packet without `ACK`, `FIN` and data whose number is below 2^32 and the initial one of a
-- connection: the handler of SYN_SENT changes nothing on the reset that `tcpreset` answers the
-- packet with, since that acknowledges the number of the `SYN` itself.
pub tcpsynsent-reset_for :
    (n : ℕ) (p : Packet) (s : Tcps)
    → p.code.ack ≡ false
    → p.code.fin ≡ false
    → p.len ≡ pos 0
    → p.seq < 2 ^ 32
    → (s.tcbtab n).iss ≡ p.seq
    → tcpsynsent n (record s { packet = reset_for p }) ≡ record s { packet = reset_for p }
unfolding tcpsynsent tcpreset reset_for
tcpsynsent-reset_for n p s₀ a f l b i =
    let s : Tcps = record s₀ { packet = reset_for p } in
    let same : seqcmp s.packet.ackno (s.tcbtab n).iss ≡ pos 0 =
      ap (λ x. seqcmp x (s.tcbtab n).iss) (ackno-reset_for p f l b)
      ∙ (ap (λ x. seqcmp p.seq x) i ∙ seqcmp-same p.seq b) in
    let wrong : is_wrong_ack n s ≡ true = ground (arith, same) in
    let s₁ = tcpdata n (acked n (on_tcb n (start_window s) s)) in
    let go = if not s.packet.code.syn then s else opened n (clear_fin_code s₁) in
    if_true wrong (reset s) (if s.packet.code.rst then on_refusal n s else go)
