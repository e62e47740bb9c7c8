-- ===== src/Tty/Frame.antt =====
-- The echo and the output of the console driver leave the input queue and the modes as they are.
use xinu_swd.Prelude.{ℕ, ◌+◌, ◌≡◌, refl, ◌∙◌, Bool, true, ◌==◌, arith}
use xinu_swd.Tty.{
  Tty, ttyoin, ttyostart, eputc, echoch, erase1, rub_out, step_back, put_echo, newline, return,
  uparrow, backsp, blank,
}
use xinu_swd.Tty.Interrupt.{echo_if, echo_end}

-- `t'` has the input queue, the modes and the interrupts of `t`.
pub record Keeps (t t' : Tty) : Type 0 where
  pub inp : t'.inp ≡ t.inp
  pub modes : t'.modes ≡ t.modes
  pub intrs : t'.intrs ≡ t.intrs

pub Keeps-same : (t : Tty) → Keeps t t
Keeps-same t = record { inp = refl; modes = refl; intrs = refl }

pub Keeps-chain : {t u v : Tty} → Keeps t u → Keeps u v → Keeps t v
Keeps-chain p q = record {
  inp = q.inp ∙ p.inp;
  modes = q.modes ∙ p.modes;
  intrs = q.intrs ∙ p.intrs;
}

pub Keeps-ttyoin : (t : Tty) → Keeps t (ttyoin t)
unfolding ttyoin
Keeps-ttyoin t = ground arith

pub Keeps-ttyostart : (t : Tty) → Keeps t (ttyostart t)
unfolding ttyostart
Keeps-ttyostart t =
    ground (arith, Keeps-ttyoin (record t { out = record t.out { fttyoint = true } }))

pub Keeps-eputc : (ch : ℕ) (t : Tty) → Keeps t (eputc ch t)
unfolding eputc
Keeps-eputc ch t = ground (arith, Keeps-ttyostart (put_echo ch t))

pub Keeps-echoch : (ch : ℕ) (t : Tty) → Keeps t (echoch ch t)
unfolding echoch
Keeps-echoch ch t = ground (
  arith,
  Keeps-eputc return t,
  Keeps-eputc newline (eputc return t),
  Keeps-eputc uparrow t,
  Keeps-eputc (ch + 64) (eputc uparrow t),
  Keeps-eputc ch t,
)

pub Keeps-rub_out : (t : Tty) → Keeps t (rub_out t)
Keeps-rub_out t = ground (
  arith,
  Keeps-eputc backsp t,
  Keeps-eputc blank (eputc backsp t),
  Keeps-eputc backsp (eputc blank (eputc backsp t)),
)

pub Keeps-echo_if : (b : Bool) (ch : ℕ) (t : Tty) → Keeps t (echo_if b ch t)
Keeps-echo_if b ch t = ground (arith, Keeps-echoch ch t)

pub Keeps-echo_end : (ch : ℕ) (t : Tty) → Keeps t (echo_end ch t)
Keeps-echo_end ch t =
    ground (arith, Keeps-echoch ch t, Keeps-echo_if (ch == t.modes.ieofc) newline (echoch ch t))

-- `erase1` takes the input queue back by one character.
pub Keeps-erase1 : (t : Tty) → Keeps (record t { inp = step_back t.inp }) (erase1 t)
unfolding erase1
Keeps-erase1 t =
    let t₁ : Tty = record t { inp = step_back t.inp } in
    ground (arith, Keeps-rub_out t₁, Keeps-rub_out (rub_out t₁), Keeps-ttyostart t₁)
