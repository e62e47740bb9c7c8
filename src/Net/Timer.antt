-- ===== src/Net/Timer.antt =====
-- The fast timers of TCP: tcp_tmset.c, tcp_tmclear.c, tcp_tmleft.c, tcp_killtim.c and the loop of
-- tcp_timer.c, of xinu/ipnet/common. The list at `tqhead` is a list of entries, each with the time
-- from the one before it to its own; the times are not negative, since every caller's is not and each
-- subtraction follows a comparison. The mutex `tqmutex` is free at each call, and `getmem` has room.
pub mod Schedule
pub mod Mail
pub mod Expire
use xinu_swd.Prelude.{
  ℕ, ◌+◌, ◌-◌, ◌*◌, ◌/◌, ◌%◌, Bool, true, false, ◌&&◌, ◌||◌, Option, none, some, List, [], ◌∷◌,
  ◌++◌, length, if◌then◌else◌, ◌==◌, ltb, leb,
}
use xinu_swd.Prelude.Int.{ℤ, pos, ◌-ℤ◌, ltb_ℤ, pos_part}
use xinu_swd.Conf.{syserr}

pub record Tqent : Type 0 where
  pub timeleft : ℕ
  pub time : ℕ
  pub port : ℕ
  pub portlen : ℕ
  pub msg : ℕ

abbrev pub is_timer : ℕ → ℕ → Tqent → Bool
is_timer port msg tq = tq.port == port && tq.msg == msg

-- What the entry behind a removed one takes over.
abbrev pub lengthen : ℕ → List Tqent → List Tqent
lengthen n [] = []
lengthen n (tq ∷ tqs) = record tq { timeleft = tq.timeleft + n } ∷ tqs

-- `now` is `ticks_10ms`; the value is the time spent, or `syserr` when there is no such timer.
unfoldable pub tmclear : ℕ → ℕ → ℕ → List Tqent → ℤ × List Tqent
tmclear now port msg [] = (syserr, [])
tmclear now port msg (tq ∷ tqs) =
    let rest = tmclear now port msg tqs in
    if is_timer port msg tq
    then (pos now -ℤ pos tq.time, lengthen tq.timeleft tqs)
    else (rest.0, tq ∷ rest.1)

-- The search of tcp_tmset.c for the new entry's spot, with its insertion there.
unfoldable pub place : Tqent → List Tqent → List Tqent
place newtq [] = newtq ∷ []
place newtq (tq ∷ tqs) =
    let rest = place (record newtq { timeleft = newtq.timeleft - tq.timeleft }) tqs in
    if ltb newtq.timeleft tq.timeleft
    then newtq ∷ record tq { timeleft = tq.timeleft - newtq.timeleft } ∷ tqs
    else tq ∷ rest

abbrev pub is_empty : List Tqent → Bool
is_empty [] = true
is_empty (tq ∷ tqs) = false

-- The new list, and whether the timer process is resumed.
unfoldable pub tmset : ℕ → ℕ → ℕ → ℕ → ℕ → List Tqent → List Tqent × Bool
tmset now port portlen msg time tqs =
    let newtq : Tqent = record {
      timeleft = time;
      time = now;
      port = port;
      portlen = portlen;
      msg = msg;
    } in
    let left = (tmclear now port msg tqs).1 in (place newtq left, is_empty left)

-- The loop of tcp_tmleft.c with the time so far.
unfoldable pub tmleft_loop : ℕ → ℕ → ℕ → List Tqent → ℕ
tmleft_loop port msg timeleft [] = 0
tmleft_loop port msg timeleft (tq ∷ tqs) =
    let rest = tmleft_loop port msg (timeleft + tq.timeleft) tqs in
    if is_timer port msg tq then timeleft + tq.timeleft else rest

unfoldable pub tmleft : ℕ → ℕ → List Tqent → ℕ
tmleft port msg tqs = tmleft_loop port msg 0 tqs

-- The kinds of events, and a timer's message for one of them on a connection.
abbrev pub send_event : ℕ
send_event = 1

abbrev pub persist_event : ℕ
persist_event = 2

abbrev pub retransmit_event : ℕ
retransmit_event = 3

abbrev pub delete_event : ℕ
delete_event = 4

-- `(tcb<<3) | (timer & TMASK)`
unfoldable pub mkevent : ℕ → ℕ → ℕ
mkevent timer tcb = tcb * 8 + timer % 8

unfoldable pub event : ℕ → ℕ
event x = x % 8

unfoldable pub tcb_of : ℕ → ℕ
tcb_of x = x / 8

unfoldable pub tcpkilltimers : ℕ → ℕ → ℕ → List Tqent → List Tqent
tcpkilltimers now oport tcbnum tqs =
    let tqs₁ = (tmclear now oport (mkevent send_event tcbnum) tqs).1 in
    let tqs₂ = (tmclear now oport (mkevent retransmit_event tcbnum) tqs₁).1 in
    (tmclear now oport (mkevent persist_event tcbnum) tqs₂).1

-- The granularity of the timer process, in tenths of a second.
abbrev pub timergran : ℕ
timergran = 1

-- `delta`, with the check for a clock that was set.
unfoldable pub elapsed : ℤ → ℤ → ℕ
elapsed now lastrun =
    let delta = now -ℤ lastrun in
    if ltb_ℤ delta (pos 0) || ltb_ℤ (pos (timergran * 100)) delta
    then timergran * 10
    else pos_part delta

-- A port as the messages in it, for the ports' `ptmaxcnt`, with no other process that waits to send.
module _ (ptmaxcnt : ℕ → ℕ) where
  -- `psend`, where `none` is a wait for room.
  unfoldable pub post : ℕ → ℕ → (ℕ → List ℕ) → Option (ℕ → List ℕ)
  post port msg ports =
      if ltb (length (ports port)) (ptmaxcnt port)
      then some (λ i. if i == port then ports i ++ msg ∷ [] else ports i)
      else none

  unfoldable pub deliver : ℕ → ℕ → ℕ → (ℕ → List ℕ) → Option (ℕ → List ℕ)
  deliver port portlen msg ports =
      if leb (length (ports port)) portlen then post port msg ports else some ports

  -- The inner loop of the timer process, with the last entry's time taken down; `none` is a `psend`
  -- that waits, with the mutex of the list held.
  unfoldable pub expire : ℕ → (ℕ → List ℕ) → List Tqent → Option ((ℕ → List ℕ) × List Tqent)
  expire delta ports [] = some (ports, [])
  expire delta ports (tq ∷ tqs) =
      if leb tq.timeleft delta
      then elim (deliver tq.port tq.portlen tq.msg ports) [
        | none ↦ none
        | some ports' ↦ expire (delta - tq.timeleft) ports' tqs
      ]
      else some (ports, record tq { timeleft = tq.timeleft - delta } ∷ tqs)

  -- One round of the timer process after its sleep.
  unfoldable pub timer_round :
      ℤ → ℤ → (ℕ → List ℕ) → List Tqent → Option ((ℕ → List ℕ) × List Tqent)
  timer_round now lastrun ports tqs = expire (elapsed now lastrun) ports tqs
