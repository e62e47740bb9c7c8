-- ===== src/Tty/Tests.antt =====
-- The theorems on the console driver at a console that has just been set up.
use xinu_swd.Prelude.{◌≡◌, refl, true, false, [], ◌∷◌, replicate, arith, if◌then◌else◌, ◌==◌}
use xinu_swd.Prelude.Int.{pos}
use xinu_swd.Conf.{bad_pid}
use xinu_swd.Tty.{Imode, Input, Output, Echo, Modes, Tty, newline}
use xinu_swd.Tty.Interrupt.{ttyiin}
use xinu_swd.Tty.Ring.{IsLine}
use xinu_swd.Tty.Line.{Holds, edit, ttyiin-edit}
use xinu_swd.Tty.Overrun.{ttyiin-overrun}
use xinu_swd.Tty.Upper.{ttyread}
use xinu_swd.Tty.Reading.{Got, ttyread-line}

abbrev console_modes : Modes
console_modes = record {
  imode = Imode.cooked;
  iecho = true;
  ieback = true;
  evis = true;
  ecrlf = true;
  icrlf = true;
  ierase = true;
  ierasec = 8;
  ikill = true;
  ikillc = 21;
  iintr = false;
  iintrc = 3;
  iintpid = bad_pid;
  ieof = true;
  ieofc = 4;
  oflow = true;
  ostop = 19;
  ostart = 17;
  ocrlf = true;
  ifullc = 7;
}

abbrev no_output : Output
no_output = record {
  ohead = 0;
  otail = 0;
  obuff = λ i. 0;
  osemcnt = pos 512;
  odsend = 0;
  oheld = false;
  fttyoint = false;
  txd = [];
}

abbrev no_echo : Echo
no_echo = record { ehead = 0; etail = 0; ebuff = λ i. 0 }

-- `l` has been typed.
abbrev typed_l : Input
typed_l = record {
  ihead = 1;
  itail = 0;
  ibuff = λ i. if i == 0 then 108 else 0;
  isemcnt = pos 0;
  icnt = pos 0;
  icursor = 1;
}

abbrev tty_of : Input → Modes → Tty
tty_of i m = record { inp = i; out = no_output; echo = no_echo; modes = m; intrs = [] }

typed_l-IsLine : IsLine typed_l (record { ready = []; typed = 108 ∷ [] })
typed_l-IsLine = record {
  cnt = refl;
  sem = refl;
  cursor = refl;
  tail = omega arith;
  head = refl;
  fits = omega arith;
  held = refl;
}

ttyiin-edit_example :
    Holds
      (ttyiin newline (tty_of typed_l console_modes))
      console_modes
      (edit console_modes newline (record { ready = []; typed = 108 ∷ [] }))
ttyiin-edit_example =
    ttyiin-edit newline (tty_of typed_l console_modes) (record { ready = []; typed = 108 ∷ [] })
      refl typed_l-IsLine (omega arith)

-- A queue full of `x`, in modes with line editing and flow control off.
abbrev plain_modes : Modes
plain_modes = record console_modes { ierase = false; ikill = false; oflow = false }

abbrev full_queue : Input
full_queue = record {
  ihead = 5;
  itail = 5;
  ibuff = λ i. 120;
  isemcnt = pos 512;
  icnt = pos 512;
  icursor = 0;
}

full_queue-IsLine : IsLine full_queue (record { ready = replicate 512 120; typed = [] })
full_queue-IsLine = record {
  cnt = refl;
  sem = refl;
  cursor = refl;
  tail = omega arith;
  head = refl;
  fits = omega arith;
  held = refl;
}

ttyiin-overrun_example :
    ((ttyiin newline (tty_of full_queue plain_modes)).inp.icnt ≡ pos 513)
    × ((ttyiin newline (tty_of full_queue plain_modes)).inp.ibuff 5 ≡ newline)
ttyiin-overrun_example =
    ttyiin-overrun (tty_of full_queue plain_modes)
      (record { ready = replicate 512 120; typed = [] }) refl (refl, refl) (refl, refl)
      full_queue-IsLine refl refl

-- `ls` and a newline are ready, in the last places of the buffer and the first.
abbrev ready_ls : Input
ready_ls = record {
  ihead = 1;
  itail = 510;
  ibuff = λ i. if i == 510 then 108 else (if i == 511 then 115 else 10);
  isemcnt = pos 3;
  icnt = pos 3;
  icursor = 0;
}

ready_ls-IsLine : IsLine ready_ls (record { ready = 108 ∷ 115 ∷ 10 ∷ []; typed = [] })
ready_ls-IsLine = record {
  cnt = refl;
  sem = refl;
  cursor = refl;
  tail = omega arith;
  head = refl;
  fits = omega arith;
  held = refl;
}

ttyread-line_example :
    Got
      (ttyread (pos 80) (tty_of ready_ls console_modes))
      (108 ∷ 115 ∷ 10 ∷ [])
      console_modes
      (record { ready = []; typed = [] })
ttyread-line_example =
    ttyread-line 80 108 (115 ∷ []) newline [] [] (tty_of ready_ls console_modes)
      ((refl, refl), ((refl, refl), tt)) (refl, refl) ready_ls-IsLine (omega arith)
