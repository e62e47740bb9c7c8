-- ===== src/Net/Timer/Schedule.antt =====
-- The timer list as the times at which its timers go off: what `tmset`, `tmclear`, `tmleft` and the
-- timer process do to it.
use xinu_swd.Prelude.{
  ℕ, ◌+◌, ◌-◌, ◌≡◌, refl, ap, ◌∙◌, inl, inr, Bool, true, false, ◌&&◌, List, [], ◌∷◌, arith,
  if◌then◌else◌, ◌==◌, ltb, Bool-cases, ltb→lt,
}
use xinu_swd.Prelude.Int.{pos, ◌-ℤ◌}
use xinu_swd.Net.Timer

-- When a timer goes off, and the message that it then sends.
pub record Alarm : Type 0 where
  pub at : ℕ
  pub port : ℕ
  pub portlen : ℕ
  pub msg : ℕ

-- The alarms of a list whose first entry counts from `start`.
abbrev pub alarms : ℕ → List Timer.Tqent → List Alarm
alarms start [] = []
alarms start (tq ∷ tqs) =
    record { at = start + tq.timeleft; port = tq.port; portlen = tq.portlen; msg = tq.msg }
    ∷ alarms (start + tq.timeleft) tqs

abbrev pub is_alarm : ℕ → ℕ → Alarm → Bool
is_alarm port msg a = a.port == port && a.msg == msg

-- The first alarm of a port and message is gone.
abbrev pub without : ℕ → ℕ → List Alarm → List Alarm
without port msg [] = []
without port msg (a ∷ rest) = if is_alarm port msg a then rest else a ∷ without port msg rest

-- Behind all the alarms that do not go off later.
abbrev pub in_order : Alarm → List Alarm → List Alarm
in_order b [] = b ∷ []
in_order b (a ∷ rest) = if ltb b.at a.at then b ∷ a ∷ rest else a ∷ in_order b rest

-- The alarm of one entry, and the alarms from it on, by the time at which it goes off.
abbrev pub alarm : ℕ → Timer.Tqent → Alarm
alarm at tq = record { at = at; port = tq.port; portlen = tq.portlen; msg = tq.msg }

abbrev pub alarms_from : Timer.Tqent → List Timer.Tqent → ℕ → List Alarm
alarms_from tq tqs at = alarm at tq ∷ alarms at tqs

alarms-lengthen :
    (n start : ℕ) (tqs : List Timer.Tqent)
    → alarms start (Timer.lengthen n tqs) ≡ alarms (start + n) tqs
alarms-lengthen n start [] = refl
alarms-lengthen n start (tq ∷ tqs) = ap (alarms_from tq tqs) (omega arith)

-- After `tmclear` the first timer with the port and message is gone, and the others go off when they
-- did.
pub alarms-tmclear :
    (now port msg start : ℕ) (tqs : List Timer.Tqent)
    → alarms start (Timer.tmclear now port msg tqs).1 ≡ without port msg (alarms start tqs)
unfolding Timer.tmclear
alarms-tmclear now port msg start [] = refl
alarms-tmclear now port msg start (tq ∷ tqs) = elim (Bool-cases (Timer.is_timer port msg tq)) [
  | inl e ↦ rw (e, alarms-lengthen tq.timeleft start tqs)
  | inr e ↦ rw (e, alarms-tmclear now port msg (start + tq.timeleft) tqs)
]

ltb-add : (s a b : ℕ) → ltb (s + a) (s + b) ≡ ltb a b
ltb-add s a b = ground arith

-- An entry whose time counts from one that goes off at `n`.
abbrev sooner : ℕ → Timer.Tqent → Timer.Tqent
sooner n tq = record tq { timeleft = tq.timeleft - n }

ltb_sum : (s a b : ℕ) → ltb a b ≡ false → s + b + (a - b) ≡ s + a
ltb_sum s a b h = ground arith

alarms-place :
    (new : Timer.Tqent) (start : ℕ) (tqs : List Timer.Tqent)
    → alarms start (Timer.place new tqs)
      ≡ in_order (alarm (start + new.timeleft) new) (alarms start tqs)
unfolding Timer.place
alarms-place new start [] = refl
alarms-place new start (tq ∷ tqs) = elim (Bool-cases (ltb new.timeleft tq.timeleft)) [
  | inl e ↦
      rw (ltb-add, e)
        (ap (λ t. alarm (start + new.timeleft) new ∷ alarms_from tq tqs t)
          (omega (arith, ltb→lt _ _ e)))
  | inr e ↦
      rw (ltb-add, e, alarms-place (sooner tq.timeleft new) (start + tq.timeleft) tqs)
        (ap
          (λ t.
            alarm (start + tq.timeleft) tq
            ∷ in_order (alarm t new) (alarms (start + tq.timeleft) tqs))
          (ltb_sum start new.timeleft tq.timeleft e))
]

-- After `tmset` the alarms of the timer list are the old ones, without the first for the same port
-- and message, and the new one put in order among them.
pub tmset-alarms :
    (now port portlen msg time : ℕ) (tqs : List Timer.Tqent)
    → alarms 0 (Timer.tmset now port portlen msg time tqs).0
      ≡ in_order
          (record { at = time; port = port; portlen = portlen; msg = msg })
          (without port msg (alarms 0 tqs))
unfolding Timer.tmset
tmset-alarms now port portlen msg time tqs =
    rw (alarms-place, alarms-tmclear)
      (ap
        (λ t.
          in_order (record { at = t; port = port; portlen = portlen; msg = msg })
            (without port msg (alarms 0 tqs)))
        (omega arith))

-- No timer of the list has the port and message.
abbrev pub IsUnset : ℕ → ℕ → List Timer.Tqent → Type 0
IsUnset port msg [] = Unit
IsUnset port msg (tq ∷ tqs) = (Timer.is_timer port msg tq ≡ false) × IsUnset port msg tqs

tmclear_none :
    (now port msg : ℕ) (tqs : List Timer.Tqent)
    → IsUnset port msg tqs
    → (Timer.tmclear now port msg tqs).1 ≡ tqs
unfolding Timer.tmclear
tmclear_none now port msg [] h = refl
tmclear_none now port msg (tq ∷ tqs) h = rw (h.0, tmclear_none now port msg tqs h.1)

tmclear-place :
    (now port msg : ℕ) (new : Timer.Tqent) (tqs : List Timer.Tqent)
    → Timer.is_timer port msg new ≡ true
    → IsUnset port msg tqs
    → Timer.tmclear now port msg (Timer.place new tqs) ≡ (pos now -ℤ pos new.time, tqs)
unfolding Timer.tmclear Timer.place
tmclear-place now port msg new [] t h = rw t
tmclear-place now port msg new (tq ∷ tqs) t h = elim (Bool-cases (ltb new.timeleft tq.timeleft)) [
  | inl e ↦
      rw (e, t)
        (ap (λ n. (pos now -ℤ pos new.time, record tq { timeleft = n } ∷ tqs))
          (omega (arith, ltb→lt _ _ e)))
  | inr e ↦ rw (e, h.0, tmclear-place now port msg (sooner tq.timeleft new) tqs t h.1)
]

tmleft-place :
    (port msg start : ℕ) (new : Timer.Tqent) (tqs : List Timer.Tqent)
    → Timer.is_timer port msg new ≡ true
    → IsUnset port msg tqs
    → Timer.tmleft_loop port msg start (Timer.place new tqs) ≡ start + new.timeleft
unfolding Timer.tmleft_loop Timer.place
tmleft-place port msg start new [] t h = rw t
tmleft-place port msg start new (tq ∷ tqs) t h = elim (Bool-cases (ltb new.timeleft tq.timeleft)) [
  | inl e ↦ rw (e, t)
  | inr e ↦
      rw (e, h.0, tmleft-place port msg (start + tq.timeleft) (sooner tq.timeleft new) tqs t h.1)
        (ltb_sum start new.timeleft tq.timeleft e)
]

is_timer_self : (port msg : ℕ) → (port == port && msg == msg) ≡ true
is_timer_self port msg = ground arith

abbrev set_at : ℕ → ℕ → ℕ → ℕ → ℕ → Timer.Tqent
set_at now port portlen msg time = record {
  timeleft = time;
  time = now;
  port = port;
  portlen = portlen;
  msg = msg;
}

-- When the timer is not set: after `tmset`, `tmleft` returns its time, and `tmclear` returns the
-- time since then and gives back the list as it was.
pub tmclear-tmset :
    (now later port portlen msg time : ℕ) (tqs : List Timer.Tqent)
    → IsUnset port msg tqs
    → (Timer.tmleft port msg (Timer.tmset now port portlen msg time tqs).0 ≡ time)
      × (Timer.tmclear later port msg (Timer.tmset now port portlen msg time tqs).0
          ≡ (pos later -ℤ pos now, tqs))
unfolding Timer.tmset Timer.tmleft
tmclear-tmset now later port portlen msg time tqs h = rw (tmclear_none now port msg tqs h) (
  tmleft-place port msg 0 (set_at now port portlen msg time) tqs (is_timer_self port msg) h
      ∙ omega arith,
  tmclear-place later port msg (set_at now port portlen msg time) tqs (is_timer_self port msg) h,
)
