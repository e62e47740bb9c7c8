-- ===== src/Net/Route/Aging.antt =====
-- `rttimer` (rt_timer.c of xinu/ipnet/common), which takes `delta` off the time to live of each route.
pub mod Expiry
pub mod Survivors
use xinu_swd.Prelude.{
  ℕ, zero, suc, ◌+◌, ◌*◌, ◌-◌, ◌<◌, ◌≡◌, refl, ap, Bool, true, false, ◌&&◌, ◌||◌, Option, none,
  some, List, [], ◌∷◌, if◌then◌else◌, leb, length, arith, Bool-cases, inl, inr,
}
use xinu_swd.Prelude.Int.{ℤ, pos, ◌-ℤ◌, ◌==ℤ◌, ltb_ℤ, leb_ℤ}
use xinu_swd.Net.Route.{
  Route, Rtinfo, rt_inf, rtm_inf, ripztime, rt_tsize, rtfree_out, set_bucket, set_default, notify,
}

-- What becomes of a bucket: the routes kept, those taken out, and whether RIP is told.
pub record Aged : Type 0 where
  pub kept : List Route
  pub freed : List Route
  pub ripnotify : Bool

unfoldable pub older : ℤ → Route → Route
older delta prt = if prt.ttl ==ℤ rt_inf then prt else record prt { ttl = prt.ttl -ℤ delta }

-- A route that RIP still announces as out of reach.
abbrev pub zombie : Route → Route
zombie prt = record prt { metric = rtm_inf; ttl = ripztime }

abbrev pub keep : Route → Aged → Aged
keep prt a = record a { kept = prt ∷ a.kept }

abbrev pub drop_route : Route → Aged → Aged
drop_route prt a = record a { freed = prt ∷ a.freed }

abbrev pub tell : Aged → Aged
tell a = record a { ripnotify = true }

abbrev pub over : (Aged → Aged) → Option Aged → Option Aged
over f none = none
over f (some a) = some (f a)

-- The loop over a bucket; `continue` without a step to the next route is a round on the same one.
-- `none` is out of rounds.
unfoldable pub age_loop : ℕ → Bool → ℤ → List Route → Option Aged
age_loop zero dorip delta prts = none
age_loop (suc f) dorip delta [] = some (record { kept = []; freed = []; ripnotify = false })
age_loop (suc f) dorip delta (prt₀ ∷ rest) =
    let prt = older delta prt₀ in
    let next = age_loop f dorip delta rest in
    let again = age_loop f dorip delta (zombie prt ∷ rest) in
    if leb_ℤ prt.ttl (pos 0)
    then (if dorip && ltb_ℤ prt.metric rtm_inf then over tell again else over (drop_route prt) next)
    else over (keep prt) next

abbrev pub free_all : List Route → Rtinfo → Rtinfo
free_all [] r = r
free_all (prt ∷ rest) r = free_all rest (rtfree_out prt r)

-- The loop over the buckets from `hv` on, with whether RIP is to be told so far.
unfoldable pub age_table : ℕ → ℕ → ℕ → ℤ → Bool → Rtinfo → Option (Bool × Rtinfo)
age_table zero f hv delta told r = some (told, r)
age_table (suc n) f hv delta told r = elim (age_loop f r.dorip delta (r.table hv)) [
  | none ↦ none
  | some a ↦
      age_table n f (hv + 1) delta (told || a.ripnotify) (free_all a.freed (set_bucket hv a.kept r))
]

-- The default route.
unfoldable pub age_default : ℤ → Option Route → Rtinfo → Rtinfo
age_default delta none r = r
age_default delta (some prt) r =
    let prt' = record prt { ttl = prt.ttl -ℤ delta } in
    if ltb_ℤ prt.ttl rt_inf
    then (if leb_ℤ prt'.ttl (pos 0)
        then (if r.dorip && ltb_ℤ prt.metric rtm_inf
            then record r { default = some (zombie prt') }
            else set_default none (record r { default = some prt' }))
        else record r { default = some prt' })
    else r

abbrev pub finish_aging : ℤ → Bool × Rtinfo → Rtinfo
finish_aging delta (told, r) = notify told (age_default delta r.default r)

abbrev pub finish : ℤ → Option (Bool × Rtinfo) → Option Rtinfo
finish delta none = none
finish delta (some res) = some (finish_aging delta res)

unfoldable pub rttimer : ℕ → ℤ → Rtinfo → Option Rtinfo
rttimer f delta r = if r.valid then finish delta (age_table rt_tsize f 0 delta false r) else some r
