-- ===== src/Tty/Upper.antt =====
-- The upper half of the console driver: tty_getc.c, tty_putc.c, tty_write.c, tty_read.c and tty_cntl.c
-- of xinu/sys/common, and tty_init.c of xinu/sys/mio. An operation that has to wait for a character
-- or for space is `none` there; what it does once it has been released is an operation of its own.
use xinu_swd.Prelude.{
  ℕ, zero, suc, ◌+◌, ◌%◌, Bool, true, false, ◌&&◌, ◌||◌, Option, none, some, List, [], ◌∷◌, ◌++◌,
  if◌then◌else◌, ◌==◌, length,
}
use xinu_swd.Prelude.Int.{ℤ, pos, negsuc, ◌-ℤ◌, ◌+ℤ◌, ◌==ℤ◌, ltb_ℤ, pos_part}
use xinu_swd.Conf.{ok, syserr, bad_pid}
use xinu_swd.Tty.{
  Imode, Input, Output, Modes, Tty, ibuflen, obuflen, newline, return, backsp, wrap, store,
  ttyostart,
}
use xinu_swd.Tty.Interrupt.{set_inp}

-- `EOF` of include/68000/kernel.h.
abbrev pub eof : ℤ
eof = negsuc 1

-- `itail++` and `--icnt`, with `itail` wrapped.
abbrev pub take_input : Input → Input
take_input i = record i { itail = wrap ibuflen i.itail; icnt = i.icnt -ℤ pos 1 }

abbrev pub lower_isem : Input → Input
lower_isem i = record i { isemcnt = i.isemcnt -ℤ pos 1 }

abbrev pub is_eofc : ℕ → Tty → Bool
is_eofc ch t = t.modes.ieof && ch == t.modes.ieofc

-- The part of `ttygetc` behind its `wait`.
unfoldable pub getc_rest : Tty → ℤ × Tty
getc_rest t =
    let ch = t.inp.ibuff t.inp.itail % 256 in
    (if is_eofc ch t then eof else pos ch, set_inp (take_input t.inp) t)

unfoldable pub ttygetc : Tty → Option (ℤ × Tty)
ttygetc t =
    let t' = set_inp (lower_isem t.inp) t in
    if ltb_ℤ t'.inp.isemcnt (pos 0) then none else some (getc_rest t')

-- The part of `ttyputc` behind its `wait`.
unfoldable pub putc_rest : ℕ → Tty → Tty
putc_rest ch t = ttyostart (record t {
  out = record t.out { obuff = store t.out.obuff t.out.ohead ch; ohead = wrap obuflen t.out.ohead };
})

abbrev pub lower_osem : Output → Output
lower_osem o = record o { osemcnt = o.osemcnt -ℤ pos 1 }

unfoldable pub put_one : ℕ → Tty → Option Tty
put_one ch t =
    let t' = record t { out = lower_osem t.out } in
    if ltb_ℤ t'.out.osemcnt (pos 0) then none else some (putc_rest ch t')

abbrev pub and_then : Option Tty → (Tty → Option Tty) → Option Tty
and_then none f = none
and_then (some t) f = f t

-- A newline has a return in front of it.
unfoldable pub ttyputc : ℕ → Tty → Option Tty
ttyputc ch t =
    and_then (if ch == newline && t.modes.ocrlf then put_one return t else some t) (put_one ch)

unfoldable pub write_loop : List ℕ → Tty → Option Tty
write_loop [] t = some t
write_loop (ch ∷ chs) t = and_then (ttyputc ch t) (write_loop chs)

abbrev pub returned : ℤ → Option Tty → Option (ℤ × Tty)
returned v none = none
returned v (some t) = some (v, t)

-- `buff` holds the `count` characters.
unfoldable pub ttywrite : List ℕ → ℤ → Tty → Option (ℤ × Tty)
ttywrite buff count t =
    if ltb_ℤ count (pos 0) then some (syserr, t) else returned ok (write_loop buff t)

-- `sreset(isem, n)`.
abbrev pub sreset_isem : ℤ → Tty → Tty
sreset_isem n t = set_inp (record t.inp { isemcnt = n }) t

-- The first part of `ttyread` has ended with a value, or goes on to wait for more.
pub data Reading : Type 0 where
  done : ℤ → List ℕ → Tty → Reading
  more : ℕ → List ℕ → Tty → Reading

abbrev pub is_eol : ℕ → Bool
is_eol ch = ch == newline || ch == return

-- The body of the loop over the characters that are there, for the next one, `ch`; `buff` has those
-- that were read, and `next` is the rounds that follow.
unfoldable pub read_char : (List ℕ → Tty → Reading) → ℤ → List ℕ → ℕ → Tty → Reading
read_char next avail buff ch t =
    let buff' = buff ++ ch ∷ [] in
    let left = avail -ℤ pos (length buff') in
    let i = take_input t.inp in
    if is_eofc ch t
    then Reading.done (pos (length buff)) buff (sreset_isem (avail -ℤ pos (length buff)) t)
    else (if is_eol ch
        then Reading.done (pos (length buff')) buff'
            (sreset_isem left (set_inp (record i { icnt = left }) t))
        else next buff' (set_inp i t))

-- The loop, with `n` characters still to be read.
unfoldable pub read_avail : ℕ → ℤ → List ℕ → Tty → Reading
read_avail zero avail buff t =
    Reading.more (length buff) buff (sreset_isem (avail -ℤ pos (length buff)) t)
read_avail (suc n) avail buff t =
    read_char (read_avail n avail) avail buff (t.inp.ibuff t.inp.itail) t

-- The first character of them is taken also if it is the end-of-file character, and is no end of the
-- line.
unfoldable pub read_first : ℕ → ℤ → Tty → Reading
read_first zero avail t = Reading.more 0 [] t
read_first (suc n) avail t =
    let ch = t.inp.ibuff t.inp.itail in
    let t' = set_inp (take_input t.inp) t in
    if is_eofc ch t
    then Reading.done eof [] (sreset_isem (avail -ℤ pos 1) t')
    else read_avail n avail (ch ∷ []) t'

-- One round of the loop for the characters to come, behind its `wait`; `nread` have been read in it
-- and `donow` before.
unfoldable pub read_round : ℕ → ℕ → List ℕ → Tty → Reading
read_round donow nread buff t =
    let ch = t.inp.ibuff t.inp.itail in
    let buff' = buff ++ ch ∷ [] in
    let t' = set_inp (take_input t.inp) t in
    let signalled = set_inp (record t.inp { isemcnt = t.inp.isemcnt +ℤ pos 1 }) t in
    if is_eofc ch t
    then (if nread == 0 && donow == 0
        then Reading.done eof buff t'
        else Reading.done (pos (donow + nread)) buff signalled)
    else (if is_eol ch
        then Reading.done (pos (donow + nread + 1)) buff' t'
        else Reading.more (nread + 1) buff' t')

-- `ttyread` up to its second loop.
unfoldable pub ttyread : ℤ → Tty → Reading
ttyread count₀ t =
    let avail = t.inp.icnt in
    let count = (if count₀ ==ℤ pos 0 then avail else count₀) in
    let donow = (if ltb_ℤ count avail then count else avail) in
    if ltb_ℤ count₀ (pos 0)
    then Reading.done syserr [] t
    else (if count₀ ==ℤ pos 0 && avail ==ℤ pos 0
        then Reading.done (pos 0) [] t
        else read_first (pos_part donow) avail t)

-- The functions of `ttycntl`; `tcnextc` with the part behind its `wait`.
pub data Func : Type 0 where
  tcsetbrk tcrstbrk tcnextc tcmoder tcmodec tcmodek tcecho tcnoecho tcichars tcint tcnoint : Func
  other : Func

abbrev pub set_modes : Modes → Tty → Tty
set_modes m t = record t { modes = m }

-- `pid` is `getpid()`.
unfoldable pub ttycntl : Func → ℤ → Tty → Option (ℤ × Tty)
ttycntl Func.tcsetbrk pid t = some (syserr, t)
ttycntl Func.tcrstbrk pid t = some (syserr, t)
ttycntl Func.tcnextc pid t =
    if ltb_ℤ (t.inp.isemcnt -ℤ pos 1) (pos 0) then none else some (pos (t.inp.ibuff t.inp.itail), t)
ttycntl Func.tcmoder pid t = some (ok, set_modes (record t.modes { imode = Imode.raw }) t)
ttycntl Func.tcmodec pid t = some (ok, set_modes (record t.modes { imode = Imode.cooked }) t)
ttycntl Func.tcmodek pid t = some (ok, set_modes (record t.modes { imode = Imode.cbreak }) t)
ttycntl Func.tcecho pid t = some (ok, set_modes (record t.modes { iecho = true }) t)
ttycntl Func.tcnoecho pid t = some (ok, set_modes (record t.modes { iecho = false }) t)
ttycntl Func.tcichars pid t = some (t.inp.icnt, t)
ttycntl Func.tcint pid t = some (ok, set_modes (record t.modes { iintr = true; iintpid = pid }) t)
ttycntl Func.tcnoint pid t = some (ok, set_modes (record t.modes { iintr = false }) t)
ttycntl Func.other pid t = some (syserr, t)

-- The control block after `ttyinit`, which is given what the buffers held and what has been sent.
unfoldable pub ttyinit : Bool → Tty → Tty
ttyinit isconsole t = record t {
  inp = record {
    ihead = 0;
    itail = 0;
    ibuff = t.inp.ibuff;
    isemcnt = pos 0;
    icnt = pos 0;
    icursor = 0;
  };
  out = record t.out { ohead = 0; otail = 0; osemcnt = pos obuflen; odsend = 0; oheld = false };
  echo = record t.echo { ehead = 0; etail = 0 };
  modes = record {
    imode = if isconsole then Imode.cooked else Imode.raw;
    iecho = isconsole;
    ieback = isconsole;
    evis = isconsole;
    ecrlf = isconsole;
    icrlf = isconsole;
    ierase = isconsole;
    ierasec = backsp;
    ikill = isconsole;
    ikillc = 21;
    iintr = false;
    iintrc = 3;
    iintpid = bad_pid;
    ieof = isconsole;
    ieofc = 4;
    oflow = true;
    ostop = 19;
    ostart = 17;
    ocrlf = isconsole;
    ifullc = 7;
  };
}
