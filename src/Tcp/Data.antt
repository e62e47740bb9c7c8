-- ===== src/Tcp/Data.antt =====
-- The data of a segment: tcp_data.c, tcp_dodat.c, tcp_tfcoal.c and tcp_tfinsert.c of xinu/ipnet/common.
-- The queue of fragments is in order of sequence number, as gpq.c keeps it for the keys `-tf_seq`.
pub mod Whole
use xinu_swd.Prelude.{
  ℕ, zero, suc, ◌+◌, ◌%◌, Bool, true, false, ◌||◌, Option, none, some, List, [], ◌∷◌, if◌then◌else◌,
  ◌==◌, ltb, leb, length,
}
use xinu_swd.Prelude.Int.{ℤ, pos, ◌+ℤ◌, ◌-ℤ◌, ◌==ℤ◌, ltb_ℤ, leb_ℤ, pos_part}
use xinu_swd.Tcp.{
  Code, Packet, Tcpfrag, Tcb, Tcps, ntcpfrag, seqcmp, seq_add, signed, word, set_tcb, on_tcb,
}
use xinu_swd.Tcp.Window.{room}
use xinu_swd.Tcp.Output.{tcpkick, wake_readers}

abbrev pub set_code : Code → Packet → Packet
set_code c p = record p { code = c }

-- `tcb_rnext` and `tcb_rbcount` move on.
abbrev pub advance : ℤ → Tcb → Tcb
advance n t = record t { rnext = seq_add t.rnext (word n); rbcount = t.rbcount +ℤ n }

-- A push that was delayed is due.
abbrev pub push_due : Tcb → Bool
push_due t = leb_ℤ (pos 0) (seqcmp t.rnext t.pushseq)

abbrev pub take_push : Tcb × Packet → Tcb × Packet
take_push (t, p) =
    if push_due t
    then (record t { pushseq = 0 }, set_code (record p.code { psh = true }) p)
    else (t, p)

-- The `FIN` that was delayed: the queue is given up.
abbrev pub take_fin : Tcb × Packet → Tcb × Packet
take_fin (t, p) = (record t { rsegq = none }, set_code (record p.code { fin = true }) p)

-- The part of a fragment that is new.
abbrev pub take_frag : Tcpfrag → Tcb → Tcb
take_frag tf t =
    let new = tf.tf_len -ℤ seqcmp t.rnext tf.tf_seq in
    if ltb_ℤ (pos 0) new then advance new t else t

-- `enq` with the key `-tf_seq`: behind the fragments whose numbers are not above its own.
unfoldable pub enq_frag : Tcpfrag → List Tcpfrag → List Tcpfrag
enq_frag tf [] = tf ∷ []
enq_frag tf (x ∷ xs) =
    let rest = enq_frag tf xs in
    if ltb_ℤ (signed tf.tf_seq) (signed x.tf_seq) then tf ∷ x ∷ xs else x ∷ rest

-- The loop of tcp_tfcoal.c over the fragments.
unfoldable pub coalesce : List Tcpfrag → Tcb × Packet → Tcb × Packet
coalesce [] (t, p) = (record t { rsegq = none }, p)
coalesce (tf ∷ tfs) (t, p) =
    let t' = take_frag tf t in
    let rest = coalesce tfs (take_push (t', p)) in
    if ltb_ℤ (pos 0) (seqcmp tf.tf_seq t.rnext)
    then (record t { rsegq = some (enq_frag tf tfs) }, p)
    else (if t'.rnext == t'.finseq then take_fin (t', p) else rest)

abbrev pub coalesce_queue : Option (List Tcpfrag) → Tcb × Packet → Tcb × Packet
coalesce_queue none r = r
coalesce_queue (some tfs) r = coalesce tfs r

-- At a delayed `FIN` in front of all fragments, `tf` has not been set when it is freed.
unfoldable pub tfcoalesce : ℕ → ℤ → Tcps → Tcps
tfcoalesce n datalen s =
    let t = advance datalen (s.tcbtab n) in
    let (t₁, p₁) = take_fin (t, s.packet) in
    let (t₂, p₂) = coalesce_queue t.rsegq (take_push (t, s.packet)) in
    if t.rnext == t.finseq
    then record (set_tcb n t₁ s) { packet = p₁; wild = s.wild + 1 }
    else record (set_tcb n t₂ s) { packet = p₂ }

abbrev pub frags : Option (List Tcpfrag) → List Tcpfrag
frags none = []
frags (some tfs) = tfs

-- A full queue drops the fragment.
unfoldable pub tfinsert : ℕ → ℤ → Tcb → Tcb
tfinsert seq datalen t =
    let tfs = frags t.rsegq in
    let tf : Tcpfrag = record { tf_seq = seq; tf_len = datalen } in
    if datalen ==ℤ pos 0
    then t
    else record t { rsegq = some (if ltb (length tfs) ntcpfrag then enq_frag tf tfs else tfs) }

-- In order: the data joins what is there, then `FIN` and `PSH` are handled.
abbrev pub join_data : ℕ → ℤ → Tcps → Tcps
join_data n datalen s =
    if ltb_ℤ (pos 0) datalen
    then on_tcb n (λ t. record t { flags = record t.flags { needout = true } })
        (tfcoalesce n datalen s)
    else s

abbrev pub take_controls : Code → Tcb → Tcb
take_controls c t₀ =
    let t₁ =
      (if c.fin
        then record t₀ {
          flags = record t₀.flags { rdone = true; needout = true };
          rnext = seq_add t₀.rnext 1;
        }
        else t₀) in
    if c.psh then record t₁ { flags = record t₁.flags { push = true } } else t₁

abbrev pub join_in_order : ℕ → ℤ → Tcps → Tcps
join_in_order n datalen s₀ =
    let s = join_data n datalen s₀ in
    let c = s.packet.code in
    let t = take_controls c (s.tcbtab n) in
    let wakeup = ltb_ℤ (pos 0) datalen || (c.fin || c.psh) in
    set_tcb n (if wakeup then wake_readers t else t) s

-- Out of order: `FIN` and `PSH` are delayed, and the data is a fragment.
abbrev pub out_of_order : ℕ → ℕ → ℤ → Tcps → Tcps
out_of_order n first datalen s =
    let p = s.packet in
    let t = s.tcbtab n in
    let last = seq_add p.seq (word datalen) in
    let t' = record t {
      finseq = if p.code.fin then last else t.finseq;
      pushseq = if p.code.psh then last else t.pushseq;
    } in
    record (set_tcb n (tfinsert first datalen t') s) {
      packet = set_code (record p.code { fin = false; psh = false }) p;
    }

unfoldable pub tcpdodat : ℕ → ℕ → ℤ → Tcps → Tcps
tcpdodat n first datalen s =
    if (s.tcbtab n).rnext == first
    then join_in_order n datalen s
    else out_of_order n first datalen s

-- The loop of tcp_data.c: `k` bytes from `pp` in the packet to `pb` in a buffer of `size`.
unfoldable pub copy_in : ℕ → ℕ → ℕ → ℕ → (ℕ → ℕ) → (ℕ → ℕ) → ℕ → ℕ
copy_in zero size pp pb octets buf = buf
copy_in (suc k) size pp pb octets buf =
    copy_in k size (pp + 1) (if leb size (pb + 1) then 0 else pb + 1) octets
      (λ i. if i == pb then octets pp else buf i)

-- A `SYN` takes a sequence number of its own.
abbrev pub take_syn : ℕ → Tcps → Tcps
take_syn n s =
    if s.packet.code.syn
    then on_tcb n
        (λ t. record t { rnext = seq_add t.rnext 1; flags = record t.flags { needout = true } })
        (record s { packet = record s.packet { seq = seq_add s.packet.seq 1 } })
    else s

-- The segment cut to the window: the first number, the length, and whether the end is cut off.
pub record Cut : Type 0 where
  pub first : ℕ
  pub datalen : ℤ
  pub is_cut : Bool

unfoldable pub cut : Tcb → Packet → Cut
cut t p =
    let wlast = seq_add t.rnext (word (room t -ℤ pos 1)) in
    let last = seq_add p.seq (word (p.len -ℤ pos 1)) in
    let before = seqcmp t.rnext p.seq in
    let beyond = seqcmp last wlast in
    let late = ltb_ℤ (pos 0) before in
    let over = ltb_ℤ (pos 0) beyond in
    let len = (if late then p.len -ℤ before else p.len) in
    record {
      first = if late then t.rnext else p.seq;
      datalen = if over then len -ℤ beyond else len;
      is_cut = over;
    }

abbrev pub kick_if_needed : ℕ → Tcps → Tcps
kick_if_needed n s = if (s.tcbtab n).flags.needout then tcpkick n s else s

-- The copy into the receive buffer, for a segment that has been cut.
abbrev pub copy_data : Cut → Packet → Tcb → Tcb
copy_data c p t =
    let pb = pos_part (pos t.rbstart +ℤ t.rbcount +ℤ seqcmp c.first t.rnext) % t.rbsize in
    record t {
      rcvbuf =
          copy_in (pos_part c.datalen) t.rbsize (pos_part (seqcmp c.first p.seq)) pb p.data_at
            t.rcvbuf;
    }

unfoldable pub tcpdata : ℕ → Tcps → Tcps
tcpdata n s₀ =
    let s = take_syn n s₀ in
    let c = cut (s.tcbtab n) s.packet in
    let p =
      (if c.is_cut then set_code (record s.packet.code { fin = false }) s.packet else s.packet) in
    let s₁ = record (on_tcb n (copy_data c p) s) { packet = p } in
    kick_if_needed n (tcpdodat n c.first c.datalen s₁)
