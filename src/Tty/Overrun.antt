-- ===== src/Tty/Overrun.antt =====
-- What the console driver does to a full input queue.
use xinu_swd.Prelude.{
  ℕ, ◌+◌, ◌%◌, ◌<◌, ◌≡◌, ap, ◌∙◌, Bool, false, ◌&&◌, [], length, ◌==◌, arith, if_false,
}
use xinu_swd.Prelude.Int.{ℤ, pos, ◌+ℤ◌}
use xinu_swd.Tty.{Imode, Tty, ibuflen, newline, store}
use xinu_swd.Tty.Interrupt.{
  finish_line, echo_end, set_inp, set_oheld, cooked_input, by_mode, flow_input, edit_input, is_raw,
  ttyiin,
}
use xinu_swd.Tty.Frame.{Keeps-echo_end}
use xinu_swd.Tty.Ring.{Line, IsLine, size, pos_add}

and_left : {a : Bool} → a ≡ false → (b : Bool) → (a && b) ≡ false
and_left e b = rw e

and_right : {b : Bool} → b ≡ false → (a : Bool) → (a && b) ≡ false
and_right {b} e a = ground (arith, e)

-- A newline ends the line, whatever the queue holds.
cooked_newline :
    (t : Tty)
    → (t.modes.ikill ≡ false) × (t.modes.ierase ≡ false)
    → cooked_input newline t
      ≡ set_inp (finish_line newline (echo_end newline t).inp) (echo_end newline t)
unfolding cooked_input
cooked_newline t (k, e) =
    if_false (and_right k (newline == t.modes.ikillc)) _ _
    ∙ if_false (and_right e (newline == t.modes.ierasec)) _ _

newline_runs :
    (t : Tty)
    → t.modes.imode ≡ Imode.cooked
    → (t.modes.iintr ≡ false) × (t.modes.oflow ≡ false)
    → (t.modes.ikill ≡ false) × (t.modes.ierase ≡ false)
    → ttyiin newline t
      ≡ set_inp
          (finish_line newline (echo_end newline (set_oheld false t)).inp)
          (echo_end newline (set_oheld false t))
unfolding ttyiin edit_input flow_input
newline_runs t c (i, f) d =
    if_false (ap is_raw c) _ _
    ∙ if_false (and_left i (newline == t.modes.iintrc)) _ _
    ∙ if_false (and_left f (newline == t.modes.ostart)) _ _
    ∙ if_false (and_left f (newline == t.modes.ostop)) _ _
    ∙ ap (λ m. by_mode m newline (set_oheld false t)) c
    ∙ cooked_newline (set_oheld false t) d

finished :
    (n : ℤ) (c r t : ℕ)
    → n ≡ pos r
    → c ≡ t
    → t ≡ 0
    → r + t ≡ ibuflen
    → n +ℤ pos (c + 1) ≡ pos (ibuflen + 1)
finished n c r t e h z q = ap (λ n. n +ℤ pos (c + 1)) e ∙ pos_add r (c + 1) ∙ ap pos (omega arith)

overwritten :
    (f : ℕ → ℕ) (h s : ℕ)
    → s < ibuflen
    → h ≡ (s + ibuflen) % ibuflen
    → store f h newline s ≡ newline
overwritten f h s p e = ground arith

-- In cooked mode, with the input queue full of ready characters, and no interrupt, flow control,
-- kill or erase character: a newline takes the place of the oldest character, and one more is
-- counted than the queue holds.
pub ttyiin-overrun :
    (t : Tty) (l : Line)
    → t.modes.imode ≡ Imode.cooked
    → (t.modes.iintr ≡ false) × (t.modes.oflow ≡ false)
    → (t.modes.ikill ≡ false) × (t.modes.ierase ≡ false)
    → IsLine t.inp l
    → l.typed ≡ []
    → size l ≡ ibuflen
    → ((ttyiin newline t).inp.icnt ≡ pos (ibuflen + 1))
      × ((ttyiin newline t).inp.ibuff t.inp.itail ≡ newline)
ttyiin-overrun t l c b d p n q =
    let same = (Keeps-echo_end newline (set_oheld false t)).inp in
    let run = newline_runs t c b d in
    (
      ap (λ t. t.inp.icnt) run
          ∙ ap (λ i. (finish_line newline i).icnt) same
          ∙ finished t.inp.icnt t.inp.icursor (length l.ready) (length l.typed) p.cnt p.cursor
              (ap length n) q,
      ap (λ t'. t'.inp.ibuff t.inp.itail) run
          ∙ ap (λ i. (finish_line newline i).ibuff t.inp.itail) same
          ∙ overwritten t.inp.ibuff t.inp.ihead t.inp.itail p.tail
              (p.head ∙ ap (λ n. (t.inp.itail + n) % ibuflen) q),
    )
