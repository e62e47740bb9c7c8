-- ===== src/Tty.antt =====
-- The console driver: the control block of include/tty.h, and the echo and output side of tty_iin.c,
-- tty_oin.c (xinu/sys/common), tty_oin-ssp.c, tty_utils.c and tty_init.c (xinu/sys/mio). Characters are
-- numbers of 7 bits. The semaphores `isem` and `osem` are their counts; which process a change of one
-- releases is the business of Kernel.
pub mod Interrupt
pub mod Upper
pub mod Frame
pub mod Ring
pub mod Line
pub mod Overrun
pub mod Reading
mod Tests
use xinu_swd.Prelude.{
  ℕ, ◌+◌, ◌-◌, Bool, true, false, ◌&&◌, ◌||◌, List, [], ◌∷◌, ◌++◌, if◌then◌else◌, ◌==◌, ltb, leb,
}
use mathlib.Core.Bool.{not}
use xinu_swd.Prelude.Int.{ℤ, pos, ◌+ℤ◌, ltb_ℤ}

-- `IMRAW`, `IMCOOKED` and `IMCBREAK`.
pub data Imode : Type 0 where
  raw cooked cbreak : Imode

-- The input queue.
pub record Input : Type 0 where
  pub ihead : ℕ
  pub itail : ℕ
  pub ibuff : ℕ → ℕ
  pub isemcnt : ℤ
  pub icnt : ℤ
  pub icursor : ℕ

-- The output queue; `fttyoint` is whether transmit interrupts are on, and `txd` the characters given
-- to the device so far.
pub record Output : Type 0 where
  pub ohead : ℕ
  pub otail : ℕ
  pub obuff : ℕ → ℕ
  pub osemcnt : ℤ
  pub odsend : ℕ
  pub oheld : Bool
  pub fttyoint : Bool
  pub txd : List ℕ

-- The echo queue.
pub record Echo : Type 0 where
  pub ehead : ℕ
  pub etail : ℕ
  pub ebuff : ℕ → ℕ

-- The modes and the characters with a meaning.
pub record Modes : Type 0 where
  pub imode : Imode
  pub iecho : Bool
  pub ieback : Bool
  pub evis : Bool
  pub ecrlf : Bool
  pub icrlf : Bool
  pub ierase : Bool
  pub ierasec : ℕ
  pub ikill : Bool
  pub ikillc : ℕ
  pub iintr : Bool
  pub iintrc : ℕ
  pub iintpid : ℤ
  pub ieof : Bool
  pub ieofc : ℕ
  pub oflow : Bool
  pub ostop : ℕ
  pub ostart : ℕ
  pub ocrlf : Bool
  pub ifullc : ℕ

-- `intrs` are the processes that `INTRMSG` has been sent to.
pub record Tty : Type 0 where
  pub inp : Input
  pub out : Output
  pub echo : Echo
  pub modes : Modes
  pub intrs : List ℤ

-- `IBUFLEN`, `OBUFLEN`, `EBUFLEN` and `OBMINSP`.
abbrev pub ibuflen : ℕ
ibuflen = 512

abbrev pub obuflen : ℕ
obuflen = 512

abbrev pub ebuflen : ℕ
ebuflen = 50

abbrev pub obminsp : ℕ
obminsp = 40

abbrev pub backsp : ℕ
backsp = 8

abbrev pub newline : ℕ
newline = 10

abbrev pub return : ℕ
return = 13

abbrev pub blank : ℕ
blank = 32

abbrev pub uparrow : ℕ
uparrow = 94

-- An index of a circular buffer, moved on by one.
abbrev pub wrap : ℕ → ℕ → ℕ
wrap len i = if leb len (i + 1) then 0 else i + 1

abbrev pub store : (ℕ → ℕ) → ℕ → ℕ → ℕ → ℕ
store f i c j = if j == i then c else f j

abbrev pub ttyostop : Tty → Tty
ttyostop t = record t { out = record t.out { fttyoint = false } }

-- `signal(osem)`, and `signaln(osem, n)`.
abbrev pub raise_osem : ℕ → Output → Output
raise_osem n o = record o { osemcnt = o.osemcnt +ℤ pos n }

-- The output of one character of the output queue.
abbrev pub send_output : ℤ → Output → Output
send_output ct o =
    let o₁ = record o { txd = o.txd ++ o.obuff o.otail ∷ []; otail = wrap obuflen o.otail } in
    if ltb_ℤ (pos obminsp) ct
    then raise_osem 1 o₁
    else (if o.odsend + 1 == obminsp
        then raise_osem obminsp (record o₁ { odsend = 0 })
        else record o₁ { odsend = o.odsend + 1 })

unfoldable pub ttyoin : Tty → Tty
ttyoin t =
    let ct = t.out.osemcnt in
    if not (t.echo.ehead == t.echo.etail)
    then record t {
      out = record t.out { txd = t.out.txd ++ t.echo.ebuff t.echo.etail ∷ [] };
      echo = record t.echo { etail = wrap ebuflen t.echo.etail };
    }
    else (if t.out.oheld
        then ttyostop t
        else (if ltb_ℤ ct (pos obuflen)
            then record t { out = send_output ct t.out }
            else ttyostop t))

unfoldable pub ttyostart : Tty → Tty
ttyostart t =
    if t.out.fttyoint then t else ttyoin (record t { out = record t.out { fttyoint = true } })

-- `ebuff[ehead++] = ch`, and `ehead` wrapped.
abbrev pub put_echo : ℕ → Tty → Tty
put_echo ch t = record t {
  echo = record t.echo {
    ebuff = store t.echo.ebuff t.echo.ehead ch;
    ehead = wrap ebuflen t.echo.ehead;
  };
}

unfoldable pub eputc : ℕ → Tty → Tty
eputc ch t = ttyostart (put_echo ch t)

-- Control characters, and delete.
abbrev pub is_control : ℕ → Bool
is_control ch = ltb ch blank || ch == 127

unfoldable pub echoch : ℕ → Tty → Tty
echoch ch t =
    if (ch == newline || ch == return) && t.modes.ecrlf
    then eputc newline (eputc return t)
    else (if is_control ch && t.modes.evis then eputc (ch + 64) (eputc uparrow t) else eputc ch t)

-- A backspace, and with `ieback` a blank over the character.
abbrev pub rub_out : Tty → Tty
rub_out t = if t.modes.ieback then eputc backsp (eputc blank (eputc backsp t)) else eputc backsp t

abbrev pub step_back : Input → Input
step_back i = record i { ihead = if i.ihead == 0 then ibuflen - 1 else i.ihead - 1 }

unfoldable pub erase1 : Tty → Tty
erase1 t₀ =
    let t = record t₀ { inp = step_back t₀.inp } in
    let ch = t.inp.ibuff t.inp.ihead in
    if t.modes.iecho
    then (if is_control ch then rub_out (if t.modes.evis then rub_out t else t) else rub_out t)
    else ttyostart t
