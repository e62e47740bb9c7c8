-- ===== src/Net/Timer/Expire.antt =====
-- The timer process of xinu/ipnet/common/tcp_timer.c over the times at which timers go off.
use xinu_swd.Prelude.{
  ℕ, ◌+◌, ◌-◌, ◌≤◌, ◌<◌, ◌≡◌, refl, sym, ap, ◌∙◌, inl, inr, true, false, Option, none, some, List,
  [], ◌∷◌, ◌++◌, length, length-append, arith, if◌then◌else◌, if_true, if_false, ◌==◌, ==_iff, leb,
  ltb, Bool-cases, leb→le,
}
use mathlib.Core.Path.{subst}
use mathlib.Core.List.{append-nil, append_assoc}
use xinu_swd.Prelude.Int.{ℤ, pos, ◌+ℤ◌, ◌-ℤ◌, ◌<ℤ◌}
use xinu_swd.Net.Timer
use xinu_swd.Net.Timer.Schedule.{Alarm, alarm, alarms, alarms_from}
use xinu_swd.Net.Timer.Mail.{
  later, mail_for, leb_from, lt_of_leb, none_due, mail_here, mail_elsewhere, same_total,
}

-- The time that a round takes off: what has passed since the last one, or ten ticks when the clock went
-- back or more than a hundred have passed.
pub data IsElapsed (now lastrun : ℤ) : ℕ → Type 0 where
  on_time : (d : ℕ) → d ≤ 100 → now ≡ lastrun +ℤ pos d → IsElapsed now lastrun d
  set_back : now <ℤ lastrun → IsElapsed now lastrun 10
  too_late : lastrun +ℤ pos 100 <ℤ now → IsElapsed now lastrun 10

elapsed_lem : (now lastrun : ℤ) {d : ℕ} → IsElapsed now lastrun d → Timer.elapsed now lastrun ≡ d
unfolding Timer.elapsed ◌-ℤ◌ ◌+ℤ◌
elapsed_lem now lastrun (IsElapsed.on_time d b e) = ground arith
elapsed_lem now lastrun (IsElapsed.set_back b) = ground arith
elapsed_lem now lastrun (IsElapsed.too_late b) = ground arith

minus_zero : (d : ℕ) → d - 0 ≡ d
minus_zero d = omega arith

module _ (ptmaxcnt : ℕ → ℕ) where
  -- Each timer knows how many messages its port holds.
  abbrev pub AllLengths : List Timer.Tqent → Type 0
  AllLengths [] = Unit {0}
  AllLengths (tq ∷ tqs) = (tq.portlen ≡ ptmaxcnt tq.port) × AllLengths tqs

  -- What a round does with the ports, whose messages are `ports`, and with the alarms `l`. Either each
  -- port has room for the mail that is due, all of it is put there in order, and the other timers go
  -- off when they did; or some port has no room for its mail, and the round does not end.
  pub data RoundIs (delta : ℕ) (l : List Alarm) (ports : ℕ → List ℕ)
      : Option ((ℕ → List ℕ) × List Timer.Tqent) → Type 0 where
    ends :
        (ports' : ℕ → List ℕ) (tqs : List Timer.Tqent)
        → ((port : ℕ) → length (ports port) + length (mail_for port delta l) ≤ ptmaxcnt port)
        → ((port : ℕ) → ports' port ≡ ports port ++ mail_for port delta l)
        → alarms 0 tqs ≡ later delta l
        → RoundIs delta l ports (some (ports', tqs))
    waits :
        (port : ℕ)
        → ptmaxcnt port < length (ports port) + length (mail_for port delta l)
        → RoundIs delta l ports none

  -- The same mail in all, with some of it at the ports already.
  RoundIs-same :
      (delta : ℕ) (l rest : List Alarm) (ports ports₁ : ℕ → List ℕ)
      {r : Option ((ℕ → List ℕ) × List Timer.Tqent)}
      → ((port : ℕ) → ports₁ port ++ mail_for port delta rest ≡ ports port ++ mail_for port delta l)
      → later delta rest ≡ later delta l
      → RoundIs delta rest ports₁ r
      → RoundIs delta l ports r
  RoundIs-same delta l rest ports ports₁ same left (RoundIs.ends ports' tqs room mail off) =
      RoundIs.ends ports' tqs
        (λ port. subst (λ n. n ≤ ptmaxcnt port) (same_total _ _ _ _ (same port)) (room port))
        (λ port. mail port ∙ same port) (off ∙ left)
  RoundIs-same delta l rest ports ports₁ same left (RoundIs.waits port full) =
      RoundIs.waits port (subst (λ n. ptmaxcnt port < n) (same_total _ _ _ _ (same port)) full)

  -- The ports with one message more at one of them.
  abbrev posted : ℕ → ℕ → (ℕ → List ℕ) → ℕ → List ℕ
  posted port msg ports i = if i == port then ports i ++ msg ∷ [] else ports i

  posted-mail :
      (delta : ℕ) (a : Alarm) (rest : List Alarm) (ports : ℕ → List ℕ) (port : ℕ)
      → leb a.at delta ≡ true
      → posted a.port a.msg ports port ++ mail_for port delta rest
        ≡ ports port ++ mail_for port delta (a ∷ rest)
  posted-mail delta a rest ports port due = elim (Bool-cases (port == a.port)) [
    | inl e ↦
        ap (λ l. l ++ mail_for port delta rest) (if_true e (ports port ++ a.msg ∷ []) (ports port))
        ∙ (append_assoc (ports port) (a.msg ∷ []) (mail_for port delta rest)
            ∙ ap (λ l. ports port ++ l) (sym (mail_here port delta a rest due e)))
    | inr e ↦
        ap (λ l. l ++ mail_for port delta rest) (if_false e (ports port ++ a.msg ∷ []) (ports port))
        ∙ ap (λ l. ports port ++ l) (sym (mail_elsewhere port delta a rest due e))
  ]

  posted-fits :
      (port msg : ℕ) (ports : ℕ → List ℕ)
      → length (ports port) < ptmaxcnt port
      → ((i : ℕ) → length (ports i) ≤ ptmaxcnt i)
      → (i : ℕ) → length (posted port msg ports i) ≤ ptmaxcnt i
  posted-fits port msg ports room fits i = elim (Bool-cases (i == port)) [
    | inl e ↦
        let same : port ≡ i = sym ((==_iff i port).0 e) in
        let room' : length (ports i) < ptmaxcnt i =
          subst (λ j. length (ports j) < ptmaxcnt j) same room in
        let count =
          ap length (if_true e (ports i ++ msg ∷ []) (ports i))
          ∙ length-append (ports i) (msg ∷ []) in
        omega (arith, count)
    | inr e ↦
        subst (λ l. length l ≤ ptmaxcnt i) (sym (if_false e (ports i ++ msg ∷ []) (ports i)))
          (fits i)
  ]

  -- `deliver` to a port, of whose length the timer knows.
  deliver_lem :
      (port portlen msg : ℕ) (ports : ℕ → List ℕ)
      → portlen ≡ ptmaxcnt port
      → length (ports port) ≤ ptmaxcnt port
      → Timer.deliver ptmaxcnt port portlen msg ports
        ≡ (if ltb (length (ports port)) (ptmaxcnt port) then some (posted port msg ports) else none)
  unfolding Timer.deliver Timer.post
  deliver_lem port portlen msg ports e fits =
      if_true (ground arith)
        (if ltb (length (ports port)) (ptmaxcnt port) then some (posted port msg ports) else none)
        (some ports)

  -- A timer whose time has come.
  RoundIs-due :
      (delta : ℕ) (a : Alarm) (rest : List Alarm) (ports : ℕ → List ℕ)
      {r : Option ((ℕ → List ℕ) × List Timer.Tqent)}
      → leb a.at delta ≡ true
      → RoundIs delta rest (posted a.port a.msg ports) r
      → RoundIs delta (a ∷ rest) ports r
  RoundIs-due delta a rest ports due ro =
      RoundIs-same delta (a ∷ rest) rest ports (posted a.port a.msg ports)
        (λ port. posted-mail delta a rest ports port due)
        (sym (if_true due (later delta rest) (record a { at = a.at - delta } ∷ later delta rest)))
        ro

  -- One whose port is full.
  RoundIs-full :
      (delta : ℕ) (a : Alarm) (rest : List Alarm) (ports : ℕ → List ℕ)
      → leb a.at delta ≡ true
      → ltb (length (ports a.port)) (ptmaxcnt a.port) ≡ false
      → RoundIs delta (a ∷ rest) ports none
  RoundIs-full delta a rest ports due full =
      let here : length (mail_for a.port delta (a ∷ rest))
          ≡ length (mail_for a.port delta rest) + 1 =
        ap length (mail_here a.port delta a rest due (ground arith)) ∙ omega arith in
      RoundIs.waits a.port (ground (arith, here))

  -- One whose time has not come, and so those behind it.
  RoundIs-early :
      (delta start : ℕ) (tq : Timer.Tqent) (tqs : List Timer.Tqent) (ports : ℕ → List ℕ)
      → start ≤ delta
      → leb tq.timeleft (delta - start) ≡ false
      → ((i : ℕ) → length (ports i) ≤ ptmaxcnt i)
      → RoundIs delta
          (alarms start (tq ∷ tqs))
          ports
          (some (ports, record tq { timeleft = tq.timeleft - (delta - start) } ∷ tqs))
  RoundIs-early delta start tq tqs ports h early fits =
      let first : leb (start + tq.timeleft) delta ≡ false =
        leb_from delta start tq.timeleft h ∙ early in
      let behind =
        none_due delta (start + tq.timeleft) tqs (lt_of_leb delta start tq.timeleft h early) in
      let a = alarm (start + tq.timeleft) tq in
      let rest = alarms (start + tq.timeleft) tqs in
      let none_here : (port : ℕ) → mail_for port delta (a ∷ rest) ≡ [] = λ port.
        if_false first
          (if port == tq.port then tq.msg ∷ mail_for port delta rest else mail_for port delta rest)
          (mail_for port delta rest)
        ∙ behind.0 port in
      RoundIs.ends ports (record tq { timeleft = tq.timeleft - (delta - start) } ∷ tqs)
        (λ port.
          let empty = ap length (none_here port) in
          let here = fits port in omega (arith, empty, here))
        (λ port. sym (ap (λ l. ports port ++ l) (none_here port) ∙ append-nil (ports port)))
        (rw first (
          ap (alarms_from tq tqs) (omega (arith, h))
          ∙ sym (ap (λ l. alarm (start + tq.timeleft - delta) tq ∷ l) behind.1)))

  expire_lem :
      (delta start : ℕ) (tqs : List Timer.Tqent) (ports : ℕ → List ℕ)
      → start ≤ delta
      → AllLengths tqs
      → ((i : ℕ) → length (ports i) ≤ ptmaxcnt i)
      → RoundIs delta (alarms start tqs) ports (Timer.expire ptmaxcnt (delta - start) ports tqs)
  unfolding Timer.expire
  expire_lem delta start [] ports h lens fits =
      RoundIs.ends ports [] (λ port. let here = fits port in omega (arith, here))
        (λ port. sym (append-nil (ports port))) refl
  expire_lem delta start (tq ∷ tqs) ports h lens fits =
      let m = delta - start in
      let P : Option ((ℕ → List ℕ) × List Timer.Tqent) → Type 0 =
        λ r. RoundIs delta (alarms start (tq ∷ tqs)) ports r in
      let go : Option (ℕ → List ℕ) → Option ((ℕ → List ℕ) × List Timer.Tqent) = λ d. elim d [
        | none ↦ none
        | some ports' ↦ Timer.expire ptmaxcnt (m - tq.timeleft) ports' tqs
      ] in
      let handed = go (Timer.deliver ptmaxcnt tq.port tq.portlen tq.msg ports) in
      let kept : Option ((ℕ → List ℕ) × List Timer.Tqent) =
        some (ports, record tq { timeleft = tq.timeleft - m } ∷ tqs) in
      let next = posted tq.port tq.msg ports in
      let room = ltb (length (ports tq.port)) (ptmaxcnt tq.port) in
      let d = deliver_lem tq.port tq.portlen tq.msg ports lens.0 (fits tq.port) in
      elim (Bool-cases (leb tq.timeleft m)) [
        | inr early ↦
            subst P (sym (if_false early handed kept))
              (RoundIs-early delta start tq tqs ports h early fits)
        | inl e ↦
            let due : leb (start + tq.timeleft) delta ≡ true =
              leb_from delta start tq.timeleft h ∙ e in
            subst P (sym (if_true e handed kept ∙ ap go d)) (elim (Bool-cases room) [
              | inl r ↦ subst P (sym (ap go (if_true r (some next) none))) (
                  RoundIs-due delta (alarm (start + tq.timeleft) tq)
                    (alarms (start + tq.timeleft) tqs) ports due
                    (subst
                      (λ n.
                        RoundIs delta (alarms (start + tq.timeleft) tqs) next
                          (Timer.expire ptmaxcnt n next tqs))
                      (omega (arith, h))
                      (expire_lem delta (start + tq.timeleft) tqs next (leb→le _ _ due) lens.1
                        (posted-fits tq.port tq.msg ports (ground (arith, r)) fits))))
              | inr r ↦ subst P (sym (ap go (if_false r (some next) none))) (
                  RoundIs-full delta (alarm (start + tq.timeleft) tq)
                    (alarms (start + tq.timeleft) tqs) ports due r)
            ])
      ]

  -- For timers that know the lengths of their ports, none of which holds more than that, and a
  -- round that takes off `d`: either each port has room for the messages of its timers whose time
  -- has come, the round puts all of them there in order, and the other timers go off when they did;
  -- or some port has no room for its messages, and the round waits.
  pub timer_round-RoundIs :
      (now lastrun : ℤ) (d : ℕ) (ports : ℕ → List ℕ) (tqs : List Timer.Tqent)
      → IsElapsed now lastrun d
      → AllLengths tqs
      → ((i : ℕ) → length (ports i) ≤ ptmaxcnt i)
      → RoundIs d (alarms 0 tqs) ports (Timer.timer_round ptmaxcnt now lastrun ports tqs)
  unfolding Timer.timer_round
  timer_round-RoundIs now lastrun d ports tqs el lens fits =
      subst (λ n. RoundIs d (alarms 0 tqs) ports (Timer.expire ptmaxcnt n ports tqs))
        (minus_zero d ∙ sym (elapsed_lem now lastrun el))
        (expire_lem d 0 tqs ports (omega arith) lens fits)
