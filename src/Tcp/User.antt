-- ===== src/Tcp/User.antt =====
-- Reading and writing on a connection: tcpd_getdata.c, tcpd_read.c, tcpd_gspace.c, tcpd_wr.c
-- and tcpd_write.c of xinu/ipnet/common, for a connection and a process without urgent data.
-- The semaphores of the connection and its mutex are free.
pub mod Octets
use xinu_swd.Prelude.{
  ℕ, zero, suc, ◌+◌, ◌-◌, ◌%◌, Bool, true, false, ◌&&◌, ◌||◌, List, [], ◌∷◌, ◌++◌, if◌then◌else◌,
  ◌==◌, leb, length,
}
use mathlib.Core.Bool.{not}
use xinu_swd.Prelude.Int.{ℤ, pos, negsuc, ◌+ℤ◌, ◌-ℤ◌, ◌==ℤ◌, ltb_ℤ, leb_ℤ, pos_part}
use xinu_swd.Conf.{syserr}
use xinu_swd.Tcp.{Tstate, Tcb, Tcps, seqcmp, rem, set_tcb, on_tcb, signal_ocsem}
use xinu_swd.Tcp.Window.{tcprwindow}
use xinu_swd.Tcp.Output.{tcpkick, wake, wake_readers, is_unused}
use xinu_swd.Tcp.Input.{lock_tcb, unlock_tcb}

-- How a call ends: it waits and starts again, or returns a value with the octets read.
pub data Ending : Type 0 where
  retry : Ending
  returns : ℤ → List ℕ → Ending

-- One octet from the receive buffer.
abbrev pub take_octet : Tcb → Tcb
take_octet t = record t {
  rbcount = t.rbcount -ℤ pos 1;
  rbstart = if leb t.rbsize (t.rbstart + 1) then 0 else t.rbstart + 1;
}

-- The loop of tcpd_getdata.c for at most `k` octets.
unfoldable pub take_octets : ℕ → Tcb → List ℕ × Tcb
take_octets zero t = ([], t)
take_octets (suc k) t =
    let (octets, t') = take_octets k (take_octet t) in
    if t.rbcount ==ℤ pos 0 then ([], t) else (t.rcvbuf t.rbstart ∷ octets, t')

abbrev pub clear_push : Tcb → Tcb
clear_push t =
    if t.rbcount ==ℤ pos 0 then record t { flags = record t.flags { push = false } } else t

-- The window opens again, and the other side is told.
abbrev pub open_window : ℕ → Tcps → Tcps
open_window n s =
    let t = s.tcbtab n in
    let (window, t') = tcprwindow t in
    if leb_ℤ (seqcmp t.cwin t.rnext) (pos 0)
    then (if window ==ℤ pos 0
        then set_tcb n t' s
        else tcpkick n (set_tcb n (record t' { flags = record t'.flags { needout = true } }) s))
    else s

unfoldable pub tcpgetdata : ℕ → ℤ → Tcps → List ℕ × Tcps
tcpgetdata n len s =
    let (octets, t) = take_octets (pos_part len) (s.tcbtab n) in
    (octets, open_window n (set_tcb n (clear_push t) s))

-- The states in which data may be read and written.
abbrev pub has_data : Tstate → Bool
has_data Tstate.established = true
has_data Tstate.closewait = true
has_data _ = false

abbrev pub wait_rsema : Tcb → Tcb
wait_rsema t = record t { rsemacnt = t.rsemacnt -ℤ pos 1 }

-- A reader that wants its buffer full waits for more.
abbrev pub wants_more : ℤ → Tcb → Bool
wants_more len t = ltb_ℤ t.rbcount len && (t.flags.buffer && not (t.flags.push || t.flags.rdone))

abbrev pub read_data : ℕ → ℤ → Tcps → Ending × Tcps
read_data n len s =
    let (octets, s') = tcpgetdata n len s in
    let cc = pos (length octets) in
    if (cc ==ℤ pos 0) && not (s'.tcbtab n).flags.rdone
    then (Ending.retry, on_tcb n unlock_tcb s')
    else (Ending.returns cc octets, on_tcb n (λ t. unlock_tcb (wake_readers t)) s')

-- `tcpread` from its `retry:` on.
unfoldable pub read_pass : ℕ → ℤ → Tcps → Ending × Tcps
read_pass n len s₀ =
    let s = on_tcb n (λ t. lock_tcb (wait_rsema t)) s₀ in
    let t = s.tcbtab n in
    if is_unused t.state
    then (Ending.returns syserr [], s)
    else (if not (t.error ==ℤ pos 0)
        then (Ending.returns t.error [], on_tcb n (λ t. unlock_tcb (wake_readers t)) s)
        else (if wants_more len t
            then (Ending.retry, on_tcb n unlock_tcb s)
            else read_data n len s))

unfoldable pub tcpread : ℕ → ℤ → Tcps → Ending × Tcps
tcpread n len s =
    if has_data (s.tcbtab n).state then read_pass n len s else (Ending.returns syserr [], s)

-- `TCPE_TOOBIG`.
abbrev pub tcpe_toobig : ℤ
tcpe_toobig = negsuc 2

-- `tcpwakeup(WRITERS, ptcb)`.
unfoldable pub wake_writers : Tcb → Tcb
wake_writers t =
    let t' = record t {
      ssemacnt = wake (t.flags.sdone || ltb_ℤ (pos 0) (pos t.sbsize -ℤ t.sbcount)) t.ssemacnt;
    } in
    if t.error ==ℤ pos 0 then t' else signal_ocsem t'

abbrev pub wait_ssema : Tcb → Tcb
wait_ssema t = record t { ssemacnt = t.ssemacnt -ℤ pos 1 }

-- One round of the loop of tcpd_gspace.c.
unfoldable pub tcpgetspace : ℕ → ℤ → Tcps → Ending × Tcps
tcpgetspace n len s₀ =
    let s = on_tcb n (λ t. lock_tcb (wait_ssema t)) s₀ in
    let t = s.tcbtab n in
    if ltb_ℤ (pos t.sbsize) len
    then (Ending.returns tcpe_toobig [], s₀)
    else (if is_unused t.state
        then (Ending.returns syserr [], s)
        else (if not (t.error ==ℤ pos 0)
            then (Ending.returns t.error [], on_tcb n (λ t. unlock_tcb (wake_writers t)) s)
            else (if ltb_ℤ len (pos t.sbsize -ℤ t.sbcount)
                then (Ending.returns len [], s)
                else (Ending.retry, on_tcb n unlock_tcb s))))

-- The loop of tcpd_wr.c from `sboff` on.
unfoldable pub put_octets : List ℕ → ℕ → Tcb → Tcb
put_octets [] sboff t = t
put_octets (ch ∷ pch) sboff t =
    put_octets pch (if leb t.sbsize (sboff + 1) then 0 else sboff + 1) (record t {
      sndbuf = λ i. if i == sboff then ch else t.sndbuf i;
      sbcount = t.sbcount +ℤ pos 1;
    })

abbrev pub kick_first : ℕ → Tcps → Tcps
kick_first n s = if (s.tcbtab n).snext == (s.tcbtab n).suna then tcpkick n s else s

abbrev pub written : List ℕ → Tcb → Tcb
written pch t₀ =
    let t = put_octets pch (pos_part (rem (t₀.sbstart +ℤ t₀.sbcount) t₀.sbsize)) t₀ in
    unlock_tcb (wake_writers (record t { flags = record t.flags { needout = true } }))

abbrev pub write_with : List ℕ → ℕ → Ending × Tcps → Ending × Tcps
write_with pch n (Ending.retry, s) = (Ending.retry, s)
write_with pch n (Ending.returns tocopy octets, s) =
    if leb_ℤ tocopy (pos 0)
    then (Ending.returns tocopy [], s)
    else (Ending.returns tocopy [], kick_first n (on_tcb n (written pch) s))

-- `tcpwr` of the octets `pch`, as normal data.
unfoldable pub tcpwr : ℕ → List ℕ → Tcps → Ending × Tcps
tcpwr n pch s =
    if has_data (s.tcbtab n).state
    then write_with pch n (tcpgetspace n (pos (length pch)) s)
    else (Ending.returns syserr [], s)

unfoldable pub tcpwrite : ℕ → List ℕ → Tcps → Ending × Tcps
tcpwrite n pch s = tcpwr n pch s
