-- ===== src/Tty/Interrupt.antt =====
-- ttyiin of tty_iin.c (xinu/sys/common), the input interrupt, with the editing of the line.
use xinu_swd.Prelude.{
  ℕ, ◌+◌, ◌-◌, Bool, true, false, ◌&&◌, ◌||◌, [], ◌∷◌, ◌++◌, if◌then◌else◌, ◌==◌, ltb, leb,
}
use xinu_swd.Prelude.Int.{pos, ◌+ℤ◌, ltb_ℤ, leb_ℤ, pos_part}
use xinu_swd.Tty.{
  Imode, Input, Tty, ibuflen, newline, return, wrap, store, ttyostart, eputc, echoch, erase1,
}

-- `ibuff[ihead++] = ch`, and `ihead` wrapped.
abbrev pub put_input : ℕ → Input → Input
put_input ch i = record i { ibuff = store i.ibuff i.ihead ch; ihead = wrap ibuflen i.ihead }

-- `n` characters are there to be read: `icnt += n`, and the signals for them.
abbrev pub make_ready : ℕ → Input → Input
make_ready n i = record i { icnt = i.icnt +ℤ pos n; isemcnt = i.isemcnt +ℤ pos n }

abbrev pub set_inp : Input → Tty → Tty
set_inp i t = record t { inp = i }

unfoldable pub raw_input : ℕ → Tty → Tty
raw_input ch t =
    if leb_ℤ (pos ibuflen) t.inp.icnt then t else set_inp (make_ready 1 (put_input ch t.inp)) t

abbrev pub echo_if : Bool → ℕ → Tty → Tty
echo_if b ch t = if b then echoch ch t else t

-- The part for `IMCBREAK`.
unfoldable pub cbreak_input : ℕ → Tty → Tty
cbreak_input ch t =
    let t₁ = echo_if t.modes.iecho ch (set_inp (put_input ch t.inp) t) in
    if leb_ℤ (pos ibuflen) t.inp.icnt
    then eputc t.modes.ifullc t
    else (if ltb_ℤ t₁.inp.icnt (pos ibuflen) then set_inp (make_ready 1 t₁.inp) t₁ else t₁)

-- The line is taken back to its start.
abbrev pub kill_line : Input → Input
kill_line i = record i {
  ihead = if ltb i.ihead i.icursor then i.ihead + ibuflen - i.icursor else i.ihead - i.icursor;
  icursor = 0;
}

-- A character that ends the line.
abbrev pub ends_line : ℕ → Tty → Bool
ends_line ch t = ch == newline || (ch == return || (t.modes.ieof && ch == t.modes.ieofc))

-- The echo of a character that ends the line.
abbrev pub echo_end : ℕ → Tty → Tty
echo_end ch t = if t.modes.iecho then echo_if (ch == t.modes.ieofc) newline (echoch ch t) else t

abbrev pub finish_line : ℕ → Input → Input
finish_line ch i = make_ready (i.icursor + 1) (record (put_input ch i) { icursor = 0 })

abbrev pub is_full : Input → Bool
is_full i = leb (ibuflen - 1) (pos_part i.icnt + i.icursor)

abbrev pub extend_line : ℕ → Input → Input
extend_line ch i = put_input ch (record i { icursor = i.icursor + 1 })

-- The part for `IMCOOKED`.
unfoldable pub cooked_input : ℕ → Tty → Tty
cooked_input ch t =
    let ended = echo_end ch t in
    let echoed = echo_if t.modes.iecho ch t in
    if ch == t.modes.ikillc && t.modes.ikill
    then eputc newline (eputc return (set_inp (kill_line t.inp) t))
    else (if ch == t.modes.ierasec && t.modes.ierase
        then (if ltb 0 t.inp.icursor
            then erase1 (set_inp (record t.inp { icursor = t.inp.icursor - 1 }) t)
            else t)
        else (if ends_line ch t
            then set_inp (finish_line ch ended.inp) ended
            else (if is_full t.inp
                then eputc t.modes.ifullc t
                else set_inp (extend_line ch echoed.inp) echoed)))

abbrev pub by_mode : Imode → ℕ → Tty → Tty
by_mode Imode.cbreak ch t = cbreak_input ch t
by_mode _ ch t = cooked_input ch t

abbrev pub set_oheld : Bool → Tty → Tty
set_oheld b t = record t { out = record t.out { oheld = b } }

-- Flow control comes in front of the mode's part.
unfoldable pub flow_input : ℕ → Tty → Tty
flow_input ch t =
    if t.modes.oflow && ch == t.modes.ostart
    then ttyostart (set_oheld false t)
    else (if t.modes.oflow && ch == t.modes.ostop
        then set_oheld true t
        else by_mode t.modes.imode ch (set_oheld false t))

-- The part for `IMCBREAK` and `IMCOOKED`; `send(iintpid, INTRMSG)` is kept in `intrs`.
unfoldable pub edit_input : ℕ → Tty → Tty
edit_input ch₀ t =
    let ch = (if ch₀ == return && t.modes.icrlf then newline else ch₀) in
    if t.modes.iintr && ch == t.modes.iintrc
    then eputc ch (record t { intrs = t.intrs ++ t.modes.iintpid ∷ [] })
    else flow_input ch t

abbrev pub is_raw : Imode → Bool
is_raw Imode.raw = true
is_raw _ = false

unfoldable pub ttyiin : ℕ → Tty → Tty
ttyiin ch t = if is_raw t.modes.imode then raw_input ch t else edit_input ch t
