-- ===== src/Tcp/Send/Delivery.antt =====
-- A segment that is sent brings the octets of the send buffer to the receive buffer.
use xinu_swd.Prelude.{ℕ, suc, ◌+◌, ◌%◌, ◌^◌, ◌<◌, ◌≤◌, ◌≡◌, refl, sym, ap, ◌∙◌, Bool, arith}
use mathlib.Core.Path.{subst}
use xinu_swd.Prelude.Int.{ℤ, pos, negsuc, ◌+ℤ◌, ◌-ℤ◌, pos_part}
use xinu_swd.Tcp.{Packet, Tcb, seqcmp, rem}
use xinu_swd.Tcp.Window.{room, tcprwindow}
use xinu_swd.Tcp.Output.{no_data}
use xinu_swd.Tcp.Data.{Cut, cut, copy_in, copy_data}
use xinu_swd.Tcp.Data.Whole.{cut_whole, seqcmp_self}
use xinu_swd.Tcp.Send.{offset, tcpsndlen, copy_out, with_fin, segment_of, outgoing}
use xinu_swd.Tcp.Send.Stream.{ring_place, copy_out-at, copy_in-at}

-- Where in the send buffer a segment starts, and where in the receive buffer the data ends.
abbrev pub start_of : Bool → Tcb → ℕ
start_of rexmt t = pos_part (rem (t.sbstart +ℤ offset rexmt t) t.sbsize)

abbrev pub end_of : Tcb → ℕ
end_of r = pos_part (pos r.rbstart +ℤ r.rbcount) % r.rbsize

rem_bound : (a : ℤ) (m : ℕ) → 0 < m → pos_part (rem a m) < m
unfolding ◌-ℤ◌
rem_bound (pos n) m h = ground arith
rem_bound (negsuc n) m h = ground arith

+ℤ_none : (a : ℤ) → pos_part (a +ℤ pos 0) ≡ pos_part a
unfolding ◌+ℤ◌
+ℤ_none (pos n) = ground arith
+ℤ_none (negsuc n) = ground arith

zero_add : (k : ℕ) → 0 + k ≡ k
zero_add k = omega arith

mod_bound : (a m : ℕ) → 0 < m → a % m < m
mod_bound a m h = ground arith

-- The copy of a whole segment into the receive buffer.
copy_data_whole :
    (r : Tcb) (p : Packet) (c : Cut) (m k : ℕ)
    → c.first ≡ p.seq
    → c.datalen ≡ pos (suc m)
    → r.rnext ≡ p.seq
    → p.seq < 2 ^ 32
    → suc m ≤ r.rbsize
    → k ≤ m
    → (copy_data c p r).rcvbuf (ring_place r.rbsize (end_of r) k) ≡ p.data_at k
copy_data_whole r p c m k f d e seq_b m_size k_m =
    let rcv : ℕ → ℕ → ℕ → ℕ → ℕ = λ n pp pb. copy_in n r.rbsize pp pb p.data_at r.rcvbuf in
    let at_end = ring_place r.rbsize (end_of r) k in
    let same : seqcmp c.first p.seq ≡ pos 0 =
      ap (λ a. seqcmp a p.seq) f ∙ seqcmp_self p.seq seq_b in
    let near : seqcmp c.first r.rnext ≡ pos 0 = ap (λ a. seqcmp c.first a) e ∙ same in
    let base = pos r.rbstart +ℤ r.rbcount in
    let place : pos_part (base +ℤ seqcmp c.first r.rnext) % r.rbsize ≡ end_of r =
      ap (λ x. pos_part (base +ℤ x) % r.rbsize) near ∙ ap (λ x. x % r.rbsize) (+ℤ_none base) in
    let bound : end_of r < r.rbsize = mod_bound (pos_part base) r.rbsize (omega arith) in
    ap
      (λ x.
        rcv (pos_part x) (pos_part (seqcmp c.first p.seq))
          (pos_part (base +ℤ seqcmp c.first r.rnext) % r.rbsize) at_end)
      d
    ∙ (ap
          (λ x.
            rcv (suc m) (pos_part x) (pos_part (base +ℤ seqcmp c.first r.rnext) % r.rbsize) at_end)
          same
        ∙ (ap (λ x. rcv (suc m) 0 x at_end) place
            ∙ (copy_in-at (suc m) r.rbsize 0 (end_of r) p.data_at r.rcvbuf k (omega arith) m_size
                  bound
                ∙ ap p.data_at (zero_add k))))

-- The octets of a segment of `suc m`.
segment_octets :
    (rexmt : Bool) (window : ℤ) (off : ℤ) (t : Tcb) (m k : ℕ)
    → suc m ≤ t.sbsize
    → k ≤ m
    → (segment_of rexmt off (pos (suc m)) window t).data_at k
      ≡ t.sndbuf (ring_place t.sbsize (pos_part (rem (t.sbstart +ℤ off) t.sbsize)) k)
unfolding segment_of
segment_octets rexmt window off t m k m_size k_m =
    let i = pos_part (rem (t.sbstart +ℤ off) t.sbsize) in
    ap (copy_out (suc m) t.sbsize 0 i t.sndbuf no_data) (sym (zero_add k))
    ∙ copy_out-at (suc m) t.sbsize 0 i t.sndbuf no_data k (omega arith) m_size
        (rem_bound (t.sbstart +ℤ off) t.sbsize (omega arith))

-- What `tcpsend` changes in the control block before it builds the segment.
abbrev readied : Bool → Tcb → Tcb
readied rexmt t = (tcprwindow (with_fin rexmt (tcpsndlen rexmt t) t)).1

sndbuf-readied : (rexmt : Bool) (t : Tcb) → (readied rexmt t).sndbuf ≡ t.sndbuf
unfolding tcprwindow
sndbuf-readied rexmt t = ground arith

sbsize-readied : (rexmt : Bool) (t : Tcb) → (readied rexmt t).sbsize ≡ t.sbsize
unfolding tcprwindow
sbsize-readied rexmt t = ground arith

sbstart-readied : (rexmt : Bool) (t : Tcb) → (readied rexmt t).sbstart ≡ t.sbstart
unfolding tcprwindow
sbstart-readied rexmt t = ground arith

outgoing_octets :
    (rexmt : Bool) (t : Tcb) (m k : ℕ)
    → tcpsndlen rexmt t ≡ pos (suc m)
    → suc m ≤ t.sbsize
    → k ≤ m
    → (outgoing rexmt t).0.data_at k ≡ t.sndbuf (ring_place t.sbsize (start_of rexmt t) k)
unfolding outgoing
outgoing_octets rexmt t m k l m_size k_m =
    let r = readied rexmt t in
    let off = offset rexmt t in
    let window = (tcprwindow (with_fin rexmt (tcpsndlen rexmt t) t)).0 in
    let size : suc m ≤ r.sbsize = subst (λ n. suc m ≤ n) (sym (sbsize-readied rexmt t)) m_size in
    let place : ℕ → ℤ → ℕ = λ n a. ring_place n (pos_part (rem (a +ℤ off) n)) k in
    ap (λ x. (segment_of rexmt off x window r).data_at k) l
    ∙ (segment_octets rexmt window off r m k size k_m
        ∙ (ap (λ b. b (place r.sbsize r.sbstart)) (sndbuf-readied rexmt t)
            ∙ (ap (λ n. t.sndbuf (place n r.sbstart)) (sbsize-readied rexmt t)
                ∙ ap (λ a. t.sndbuf (place t.sbsize a)) (sbstart-readied rexmt t))))

len-outgoing : (rexmt : Bool) (t : Tcb) → (outgoing rexmt t).0.len ≡ tcpsndlen rexmt t
unfolding outgoing segment_of
len-outgoing rexmt t = refl

-- For a connection with octets to send that its send buffer can hold, and a receiver that expects
-- the segment's number, below 2^32, and has room for all of it, of less than 2^31 octets: octet `k`
-- of the segment that `tcpsend` builds is the one at its place in the send buffer, and `tcpdata`
-- cuts nothing off and copies it to its place behind the data in the receive buffer.
pub copy_data-outgoing :
    (rexmt : Bool) (t r : Tcb) (m w k : ℕ)
    → tcpsndlen rexmt t ≡ pos (suc m)
    → suc m ≤ t.sbsize
    → room r ≡ pos (suc w)
    → m ≤ w
    → w < 2 ^ 31
    → suc w ≤ r.rbsize
    → (outgoing rexmt t).0.seq < 2 ^ 32
    → r.rnext ≡ (outgoing rexmt t).0.seq
    → k ≤ m
    → (copy_data (cut r (outgoing rexmt t).0) (outgoing rexmt t).0 r).rcvbuf
        (ring_place r.rbsize (end_of r) k)
      ≡ t.sndbuf (ring_place t.sbsize (start_of rexmt t) k)
copy_data-outgoing rexmt t r m w k l m_size ro m_w w_b w_size seq_b e k_m =
    let p = (outgoing rexmt t).0 in
    let whole = cut_whole r p m w (len-outgoing rexmt t ∙ l) ro m_w w_b seq_b e in
    copy_data_whole r p (cut r p) m k whole.0 whole.1 e seq_b (omega arith) k_m
    ∙ outgoing_octets rexmt t m k l m_size k_m
