-- ===== src/Net/Tests.antt =====
-- The theorems on timers and routes at small lists and tables.
use xinu_swd.Prelude.{
  ℕ, ◌≤◌, ◌≡◌, refl, Bool, true, false, Option, none, some, List, [], ◌∷◌, arith, if◌then◌else◌,
  ◌==◌,
}
use xinu_swd.Prelude.Int.{pos, ◌+ℤ◌, ◌-ℤ◌, ◌==ℤ◌}
use xinu_swd.Conf.{ok}
use xinu_swd.Net.Timer
use xinu_swd.Net.Timer.Schedule.{alarms, in_order, without, tmset-alarms, tmclear-tmset}
use xinu_swd.Net.Timer.Expire.{IsElapsed, RoundIs, timer_round-RoundIs}
use xinu_swd.Net.Addr.{IpAddr}
use xinu_swd.Net.Route.{Route, Rtinfo, rtadd, rthash, mask_key}
use xinu_swd.Net.Route.Order.{IsBucket}
use xinu_swd.Net.Route.Add.{rtadd-IsBucket}
use xinu_swd.Net.Route.Lookup.{rtget, refer, is_usable}
use xinu_swd.Net.Route.Longest.{rtget-longest}
use xinu_swd.Net.Route.Aging.Survivors.{survivors}

-- Two timers, due after 50 and 170.
abbrev two_timers : List Timer.Tqent
two_timers =
    record { timeleft = 50; time = 1000; port = 1; portlen = 20; msg = 11 }
    ∷ record { timeleft = 120; time = 1000; port = 1; portlen = 20; msg = 19 }
    ∷ []

tmset-alarms_example :
    alarms 0 (Timer.tmset 1030 1 20 27 100 two_timers).0
    ≡ in_order
        (record { at = 100; port = 1; portlen = 20; msg = 27 })
        (without 1 27 (alarms 0 two_timers))
tmset-alarms_example = tmset-alarms 1030 1 20 27 100 two_timers

tmset_runs :
    (Timer.tmset 1030 1 20 27 100 two_timers).0
    ≡ record { timeleft = 50; time = 1000; port = 1; portlen = 20; msg = 11 }
      ∷ record { timeleft = 50; time = 1030; port = 1; portlen = 20; msg = 27 }
      ∷ record { timeleft = 70; time = 1000; port = 1; portlen = 20; msg = 19 }
      ∷ []
unfolding Timer.tmset Timer.tmclear Timer.place
tmset_runs = refl

tmclear-tmset_example :
    (Timer.tmleft 1 27 (Timer.tmset 1030 1 20 27 100 two_timers).0 ≡ 100)
    × (Timer.tmclear 1090 1 27 (Timer.tmset 1030 1 20 27 100 two_timers).0
        ≡ (pos 1090 -ℤ pos 1030, two_timers))
tmclear-tmset_example = tmclear-tmset 1030 1090 1 20 27 100 two_timers (refl, (refl, tt))

-- Empty ports of twenty messages, after a round of 60 ticks and one in which the clock went back.
abbrev twenty : ℕ → ℕ
twenty port = 20

abbrev no_mail : ℕ → List ℕ
no_mail port = []

timer_round-RoundIs_example :
    RoundIs twenty 60
      (alarms 0 two_timers)
      no_mail
      (Timer.timer_round twenty (pos 1060) (pos 1000) no_mail two_timers)
unfolding ◌+ℤ◌
timer_round-RoundIs_example =
    timer_round-RoundIs twenty (pos 1060) (pos 1000) 60 no_mail two_timers
      (IsElapsed.on_time 60 (omega arith) refl) (refl, (refl, tt)) (λ i. omega arith)

abbrev mail_of : Option ((ℕ → List ℕ) × List Timer.Tqent) → Option (List ℕ × List Timer.Tqent)
mail_of none = none
mail_of (some (ports, tqs)) = some (ports 1, tqs)

timer_round_runs :
    mail_of (Timer.timer_round twenty (pos 1060) (pos 1000) no_mail two_timers)
    ≡ some (11 ∷ [], record { timeleft = 110; time = 1000; port = 1; portlen = 20; msg = 19 } ∷ [])
unfolding Timer.timer_round Timer.expire Timer.elapsed Timer.deliver Timer.post ◌-ℤ◌
timer_round_runs = refl

-- A port that is full.
timer_round_waits :
    mail_of (
      Timer.timer_round
        (λ port. 1)
        (pos 1060)
        (pos 1000)
        (λ port. 9 ∷ [])
        (record { timeleft = 50; time = 1000; port = 1; portlen = 1; msg = 11 } ∷ []))
    ≡ none
unfolding Timer.timer_round Timer.expire Timer.elapsed Timer.deliver Timer.post ◌-ℤ◌
timer_round_waits = refl

abbrev ip : ℕ → ℕ → ℕ → ℕ → IpAddr
ip a b c d = record { b0 = a; b1 = b; b2 = c; b3 = d }

-- A route to 10.0.0.0/8.
abbrev class_a : Route
class_a = record {
  net = ip 10 0 0 0;
  mask = ip 255 0 0 0;
  gw = ip 10 0 0 1;
  metric = pos 2;
  ifnum = pos 1;
  key = 8;
  ttl = pos 100;
  refcnt = 1;
  usecnt = 0;
}

abbrev only_if : Bool → List Route
only_if b = if b then class_a ∷ [] else []

abbrev one_route : Rtinfo
one_route = record {
  table = λ i. only_if (i == 10);
  default = none;
  valid = true;
  bpool = 99;
  removed = [];
  dorip = true;
  notes = 0;
}

abbrev nothing : ℕ → ℕ
nothing n = 0

only_if-IsBucket : (b : Bool) → IsBucket (only_if b)
unfolding mask_key
only_if-IsBucket true = (refl, tt, tt)
only_if-IsBucket false = tt

rtadd-IsBucket_example :
    (r' : Rtinfo) × (rtadd 0 nothing
        (ip 10 1 0 0)
        (ip 255 255 0 0)
        (ip 10 0 0 2)
        (pos 1)
        (pos 1)
        (pos 100)
        one_route
      ≡ some (ok, r'))
    × ((i : ℕ) → IsBucket (r'.table i))
rtadd-IsBucket_example =
    rtadd-IsBucket 0 nothing (ip 10 1 0 0) (ip 255 255 0 0) (ip 10 0 0 2) (pos 1) (pos 1) (pos 100)
      one_route refl (omega arith) (λ i. only_if-IsBucket (i == 10))

rtget-longest_example :
    (prt : Route) × ((rtget 0 nothing (λ a. false) (ip 10 1 2 3) true one_route).0
      ≡ some (refer prt))
    × (is_usable (λ a. false) (ip 10 1 2 3) true prt ≡ true)
    × (8 ≤ prt.key)
unfolding rthash is_usable xinu_swd.Net.Addr.netmatch
rtget-longest_example =
    rtget-longest 0 nothing (λ a. false) (ip 10 1 2 3) true one_route 0 {q = class_a} refl
      (only_if-IsBucket true) refl refl

-- A permanent route stays, and one whose time is over is announced to be out of reach.
survivors_run :
    survivors true (pos 5) (record class_a { ttl = pos 999 } ∷ record class_a { ttl = pos 3 } ∷ [])
    ≡ record class_a { ttl = pos 999 } ∷ record class_a { metric = pos 16; ttl = pos 115 } ∷ []
unfolding ◌==ℤ◌ ◌-ℤ◌
survivors_run = refl
