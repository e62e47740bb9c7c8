-- ===== src/Tcp/Window.antt =====
-- The receive window and the check of a segment: tcp_rwindow.c and tcp_ok.c of xinu/ipnet/common.
use xinu_swd.Prelude.{ℕ, Bool, true, ◌&&◌, ◌||◌, if◌then◌else◌, ◌==◌, ltb}
use xinu_swd.Prelude.Int.{ℤ, pos, ◌+ℤ◌, ◌-ℤ◌, ◌==ℤ◌, ltb_ℤ, leb_ℤ}
use xinu_swd.Tcp.{Packet, Tcb, rank, seqcmp, seq_add, word}

-- The room in the receive buffer.
abbrev pub room : Tcb → ℤ
room t = pos t.rbsize -ℤ t.rbcount

abbrev pub max_ℤ : ℤ → ℤ → ℤ
max_ℤ a b = if ltb_ℤ a b then b else a

-- Four times an `int`.
abbrev pub times4 : ℤ → ℤ
times4 a = a +ℤ a +ℤ (a +ℤ a)

-- A window that is too small to advertise counts as none.
abbrev pub worthwhile : Tcb → ℤ
worthwhile t =
    if ltb_ℤ (times4 (room t)) (pos t.rbsize) || ltb_ℤ (room t) (pos t.rmss) then pos 0 else room t

-- The window that `tcprwindow` advertises from the state ESTABLISHED on.
unfoldable pub advertised : Tcb → ℤ
advertised t = max_ℤ (worthwhile t) (seqcmp t.cwin t.rnext)

unfoldable pub tcprwindow : Tcb → ℤ × Tcb
tcprwindow t =
    if ltb (rank t.state) 5
    then (room t, t)
    else (advertised t, record t { cwin = seq_add t.rnext (word (advertised t)) })

-- The length of a segment in sequence numbers: its data, `SYN` and `FIN`.
abbrev pub one_if : Bool → ℤ
one_if b = if b then pos 1 else pos 0

abbrev pub seglen : Packet → ℤ
seglen p = p.len +ℤ one_if p.code.syn +ℤ one_if p.code.fin

-- A sequence number within the window `wlast` ends.
abbrev pub in_window : Tcb → ℕ → ℕ → Bool
in_window t wlast seq = leb_ℤ (pos 0) (seqcmp seq t.rnext) && leb_ℤ (seqcmp seq wlast) (pos 0)

-- The value of `tcpok`, and the packet, which loses its data when the window is closed. Of a packet
-- with urgent data `tcprcvurg` takes that part first; here is what follows.
unfoldable pub tcpok : Tcb → Packet → Bool × Packet
tcpok t p =
    let rwindow = room t in
    let wlast = seq_add t.rnext (word (rwindow -ℤ pos 1)) in
    let slast = seq_add p.seq (word (seglen p -ℤ pos 1)) in
    let first_in = in_window t wlast p.seq in
    if ltb (rank t.state) 4
    then (true, p)
    else (if rwindow ==ℤ pos 0 && seglen p ==ℤ pos 0
        then (p.seq == t.rnext, p)
        else (if seglen p ==ℤ pos 0 then (first_in, p) else (
          first_in || in_window t wlast slast,
          if rwindow ==ℤ pos 0 then record p { len = pos 0 } else p,
        )))
