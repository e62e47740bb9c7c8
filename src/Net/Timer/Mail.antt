-- ===== src/Net/Timer/Mail.antt =====
-- The alarms that are due after a time, with the mail for a port that they make, for the timer process
-- of xinu/ipnet/common/tcp_timer.c.
use xinu_swd.Prelude.{
  ℕ, ◌+◌, ◌-◌, ◌≤◌, ◌<◌, ◌≡◌, refl, sym, ap, ◌∙◌, true, false, List, [], ◌∷◌, ◌++◌, length,
  length-append, arith, if◌then◌else◌, if_true, if_false, ◌==◌, leb,
}
use xinu_swd.Net.Timer
use xinu_swd.Net.Timer.Schedule.{Alarm, alarm, alarms, alarms_from}

-- The alarms after `delta`, from which on they count then.
abbrev pub later : ℕ → List Alarm → List Alarm
later delta [] = []
later delta (a ∷ rest) =
    if leb a.at delta then later delta rest else record a { at = a.at - delta } ∷ later delta rest

-- The messages for a port of the alarms up to `delta`.
abbrev pub mail_for : ℕ → ℕ → List Alarm → List ℕ
mail_for port delta [] = []
mail_for port delta (a ∷ rest) =
    if leb a.at delta
    then (if port == a.port then a.msg ∷ mail_for port delta rest else mail_for port delta rest)
    else mail_for port delta rest

pub leb_past : (d s t : ℕ) → d < s → leb (s + t) d ≡ false
leb_past d s t h = ground arith

pub leb_from : (d s t : ℕ) → s ≤ d → leb (s + t) d ≡ leb t (d - s)
leb_from d s t h = ground arith

pub lt_of_leb : (d s t : ℕ) → s ≤ d → leb t (d - s) ≡ false → d < s + t
lt_of_leb d s t h e = ground arith

-- No alarm comes up to `delta` if all start behind it.
pub none_due :
    (delta start : ℕ) (tqs : List Timer.Tqent)
    → delta < start
    → ((port : ℕ) → mail_for port delta (alarms start tqs) ≡ [])
      × (later delta (alarms start tqs) ≡ alarms (start - delta) tqs)
none_due delta start [] h = ((λ port. refl), refl)
none_due delta start (tq ∷ tqs) h =
    let rest = none_due delta (start + tq.timeleft) tqs (omega arith) in
    rw (leb_past delta start tq.timeleft h) (
      rest.0,
      ap (λ l. alarm (start + tq.timeleft - delta) tq ∷ l) rest.1
          ∙ ap (alarms_from tq tqs) (omega arith),
    )

-- The mail for a port, with an alarm in front that is due.
pub mail_here :
    (port delta : ℕ) (a : Alarm) (l : List Alarm)
    → leb a.at delta ≡ true
    → (port == a.port) ≡ true
    → mail_for port delta (a ∷ l) ≡ a.msg ∷ mail_for port delta l
mail_here port delta a l due same =
    let mail = mail_for port delta l in
    if_true due (if port == a.port then a.msg ∷ mail else mail) mail
    ∙ if_true same (a.msg ∷ mail) mail

pub mail_elsewhere :
    (port delta : ℕ) (a : Alarm) (l : List Alarm)
    → leb a.at delta ≡ true
    → (port == a.port) ≡ false
    → mail_for port delta (a ∷ l) ≡ mail_for port delta l
mail_elsewhere port delta a l due other =
    let mail = mail_for port delta l in
    if_true due (if port == a.port then a.msg ∷ mail else mail) mail
    ∙ if_false other (a.msg ∷ mail) mail

pub same_total :
    (xs ys xs' ys' : List ℕ)
    → xs ++ ys ≡ xs' ++ ys'
    → length xs + length ys ≡ length xs' + length ys'
same_total xs ys xs' ys' e = sym (length-append xs ys) ∙ (ap length e ∙ length-append xs' ys')
