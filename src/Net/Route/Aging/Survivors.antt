-- ===== src/Net/Route/Aging/Survivors.antt =====
-- What `rttimer` (rt_timer.c of xinu/ipnet/common) leaves of a route, by its time to live.
use xinu_swd.Prelude.{Bool, ◌&&◌, Option, none, some, List, [], ◌∷◌, if◌then◌else◌}
use xinu_swd.Prelude.Int.{ℤ, pos, ◌-ℤ◌, ◌==ℤ◌, ltb_ℤ}
use xinu_swd.Net.Route.{Route}

-- What is left of a route after `delta` seconds. A permanent one stays as it is,
-- and one with more time than that has so much less. The time of any other is over. If RIP runs and the
-- route was in reach, it stays out of reach, with what `delta` leaves of the time for which RIP says so,
-- unless that is over too. Else it goes.
abbrev pub survivor : Bool → ℤ → Route → Option Route
survivor dorip delta prt =
    if prt.ttl ==ℤ pos 999
    then some prt
    else (if ltb_ℤ delta prt.ttl
        then some (record prt { ttl = prt.ttl -ℤ delta })
        else (if dorip && (ltb_ℤ prt.metric (pos 16) && ltb_ℤ delta (pos 120))
            then some (record prt { metric = pos 16; ttl = pos 120 -ℤ delta })
            else none))

abbrev pub put_in_front : Option Route → List Route → List Route
put_in_front none l = l
put_in_front (some prt) l = prt ∷ l

abbrev pub survivors : Bool → ℤ → List Route → List Route
survivors dorip delta [] = []
survivors dorip delta (prt ∷ rest) =
    put_in_front (survivor dorip delta prt) (survivors dorip delta rest)
