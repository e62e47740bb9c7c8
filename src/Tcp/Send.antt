-- ===== src/Tcp/Send.antt =====
-- A segment that is sent: tcp_sndlen.c, tcp_send.c and tcpd_howmuch of xinu/ipnet/common, for a connection
-- without urgent data. The option that tcp_rmss.c puts behind the header of a `SYN` is left out.
pub mod Stream
pub mod Delivery
use xinu_swd.Prelude.{
  ℕ, zero, suc, ◌+◌, ◌-◌, ◌%◌, ◌^◌, Bool, true, false, ◌&&◌, ◌||◌, List, [], ◌∷◌, ◌++◌,
  if◌then◌else◌, ◌==◌, leb,
}
use mathlib.Core.Bool.{not}
use xinu_swd.Prelude.Int.{ℤ, pos, ◌+ℤ◌, ◌-ℤ◌, ◌==ℤ◌, ltb_ℤ, leb_ℤ, pos_part}
use xinu_swd.Tcp.{
  Tstate, Code, Packet, Tcb, Tcps, seqcmp, seq_add, as_unsigned, word, rem, set_tcb, on_tcb,
}
use xinu_swd.Tcp.Window.{tcprwindow, one_if}
use xinu_swd.Tcp.Output.{no_data, tcpwait, send_packet}

abbrev pub min_ℤ : ℤ → ℤ → ℤ
min_ℤ a b = if ltb_ℤ a b then a else b

-- The numbers that are waiting to be sent.
unfoldable pub tcphowmuch : Tcb → ℤ
tcphowmuch t =
    seqcmp (seq_add t.suna (word t.sbcount)) t.snext +ℤ one_if t.code.syn +ℤ one_if t.flags.sndfin

-- The offset of a segment in the send buffer, and its length.
abbrev pub offset : Bool → Tcb → ℤ
offset rexmt t = if rexmt || t.code.syn then pos 0 else seqcmp t.snext t.suna

unfoldable pub tcpsndlen : Bool → Tcb → ℤ
tcpsndlen rexmt t =
    let datalen = t.sbcount -ℤ offset rexmt t in
    min_ℤ (if rexmt then datalen else min_ℤ datalen (pos t.swindow)) (pos t.smss)

-- The loop of tcp_send.c: `k` octets from `i` in the send buffer to `pch` in the packet.
unfoldable pub copy_out : ℕ → ℕ → ℕ → ℕ → (ℕ → ℕ) → (ℕ → ℕ) → ℕ → ℕ
copy_out zero size pch i sndbuf octets = octets
copy_out (suc k) size pch i sndbuf octets =
    copy_out k size (pch + 1) (if leb size (i + 1) then 0 else i + 1) sndbuf
      (λ j. if j == pch then sndbuf i else octets j)

-- The number of a segment.
abbrev pub first_of : Bool → Tcb → ℕ
first_of rexmt t = if rexmt then t.suna else t.snext

-- The control block once its `FIN` is due, if the segment reaches the end of the data.
abbrev pub with_fin : Bool → ℤ → Tcb → Tcb
with_fin rexmt datalen t =
    if t.flags.sndfin && seqcmp (seq_add (first_of rexmt t) (word datalen)) t.slast ==ℤ pos 0
    then record t { code = record t.code { fin = true } }
    else t

abbrev pub code_of : ℤ → Tcb → Code
code_of datalen t =
    let c = (if t.flags.firstsend then t.code else record t.code { ack = true }) in
    if ltb_ℤ (pos 0) datalen then record c { psh = true } else c

-- The segment of a control block `t`, of `datalen` octets from `off` on.
unfoldable pub segment_of : Bool → ℤ → ℤ → ℤ → Tcb → Packet
segment_of rexmt off datalen window t = record {
  src = t.lip;
  dst = t.rip;
  sport = as_unsigned t.lport;
  dport = as_unsigned t.rport;
  seq = first_of rexmt t;
  ackno = t.rnext;
  code = code_of datalen t;
  window = word window % 2 ^ 16;
  len = datalen;
  data_at =
      copy_out (pos_part datalen) t.sbsize 0 (pos_part (rem (t.sbstart +ℤ off) t.sbsize)) t.sndbuf
        no_data;
}

-- How far `tcb_snext` moves.
abbrev pub newdata : Bool → ℤ → Tcb → ℤ
newdata rexmt datalen t =
    if rexmt
    then (let ahead = seqcmp (seq_add t.suna (word datalen)) t.snext in
        if ltb_ℤ ahead (pos 0) then pos 0 else ahead)
    else datalen +ℤ one_if t.code.syn +ℤ one_if t.code.fin

abbrev pub sent_by : Bool → ℤ → Tcb → Tcb
sent_by rexmt datalen t = record t {
  flags = record t.flags { needout = false };
  snext = seq_add t.snext (word (newdata rexmt datalen t));
}

abbrev pub is_timewait : Tstate → Bool
is_timewait Tstate.timewait = true
is_timewait _ = false

abbrev pub count_retrans : Bool → Tcps → Tcps
count_retrans rexmt s =
    if rexmt
    then record s { stats = record s.stats { retrans_segs = s.stats.retrans_segs + 1 } }
    else s

abbrev pub count_out : ℤ → Tcps → Tcps
count_out moved s =
    if leb_ℤ (pos 0) moved
    then record s { stats = record s.stats { out_segs = s.stats.out_segs + 1 } }
    else s

-- The segment that goes out, and the control block then.
unfoldable pub outgoing : Bool → Tcb → Packet × Tcb
outgoing rexmt t₀ =
    let off = offset rexmt t₀ in
    let datalen = tcpsndlen rexmt t₀ in
    let t₁ = with_fin rexmt datalen t₀ in
    let (window, t) = tcprwindow t₁ in
    (segment_of rexmt off datalen window t, sent_by rexmt datalen t)

unfoldable pub tcpsend : ℕ → Bool → Tcps → ℤ × Tcps
tcpsend n rexmt s₀ =
    let t₀ = s₀.tcbtab n in
    let (p, t) = outgoing rexmt t₀ in
    let moved = newdata rexmt p.len (with_fin rexmt p.len t₀) in
    let s = count_out moved (set_tcb n t (count_retrans rexmt s₀)) in
    let s' = (if is_timewait t.state then tcpwait n s else s) in
    (s.env.ipsend p, record s' { sent = s'.sent ++ p ∷ [] })
