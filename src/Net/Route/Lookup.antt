-- ===== src/Net/Route/Lookup.antt =====
-- `rtget` and `rtdel` (rt_get.c and rt_del.c of xinu/ipnet/common), and `rtfree` (rt_free.c).
use xinu_swd.Prelude.{
  ℕ, ◌+◌, ◌-◌, Bool, false, ◌&&◌, Option, none, some, List, [], ◌∷◌, ◌++◌, if◌then◌else◌, leb,
  get_elem?, set, take, drop,
}
use mathlib.Core.Bool.{not}
use xinu_swd.Prelude.Int.{ℤ, pos, ltb_ℤ, leb_ℤ}
use xinu_swd.Conf.{ok, syserr}
use xinu_swd.Net.Addr.{IpAddr, equ, netmatch}
use xinu_swd.Net.Route.{
  Route, Rtinfo, rtm_inf, initialized, rthash, set_bucket, is_route, rtfree_out, set_default,
}

-- A route that `rtget` may choose for `dest`.
unfoldable pub is_usable : (IpAddr → Bool) → IpAddr → Bool → Route → Bool
is_usable isbrc dest local prt =
    not (leb_ℤ prt.ttl (pos 0))
    && (netmatch isbrc dest prt.net prt.mask local && ltb_ℤ prt.metric rtm_inf)

abbrev pub refer : Route → Route
refer prt = record prt { refcnt = prt.refcnt + 1; usecnt = prt.usecnt + 1 }

-- The loop of rt_get.c: the first usable route of the bucket, and the bucket with one more reference
-- to it.
unfoldable pub choose : (Route → Bool) → List Route → Option Route × List Route
choose usable [] = (none, [])
choose usable (prt ∷ rest) =
    let chosen = choose usable rest in
    if usable prt then (some (refer prt), refer prt ∷ rest) else (chosen.0, prt ∷ chosen.1)

-- The default route, for a destination that no other one serves.
abbrev pub get_default : Option Route → Rtinfo → Option Route × Rtinfo
get_default none r = (none, r)
get_default (some prt) r =
    if leb_ℤ rtm_inf prt.metric
    then (none, r)
    else (some (refer prt), record r { default = some (refer prt) })

abbrev pub get_chosen : ℕ → Option Route → List Route → Rtinfo → Option Route × Rtinfo
get_chosen hv none bucket r = get_default r.default r
get_chosen hv (some prt) bucket r = (some prt, set_bucket hv bucket r)

unfoldable pub rtget :
    ℕ → (ℕ → ℕ) → (IpAddr → Bool) → IpAddr → Bool → Rtinfo → Option Route × Rtinfo
rtget junk beyond isbrc dest local r₀ =
    let r = initialized r₀ in
    let hv = rthash junk beyond dest in
    let (prt, bucket) = choose (is_usable isbrc dest local) (r.table hv) in
    get_chosen hv prt bucket r

-- The search of rt_del.c: the route found, and the bucket without it.
unfoldable pub unlink : IpAddr → IpAddr → List Route → Option Route × List Route
unlink net mask [] = (none, [])
unlink net mask (prt ∷ rest) =
    let found = unlink net mask rest in
    if is_route net mask prt then (some prt, rest) else (found.0, prt ∷ found.1)

abbrev pub is_default : IpAddr → Option Route → Bool
is_default net none = false
is_default net (some prt) = equ net prt.net

abbrev pub del_found : ℕ → Option Route → List Route → Rtinfo → ℤ × Rtinfo
del_found hv none bucket r = (syserr, r)
del_found hv (some prt) bucket r = (ok, rtfree_out prt (set_bucket hv bucket r))

unfoldable pub rtdel : ℕ → (ℕ → ℕ) → IpAddr → IpAddr → Rtinfo → ℤ × Rtinfo
rtdel junk beyond net mask r =
    let hv = rthash junk beyond net in
    let (prt, bucket) = unlink net mask (r.table hv) in
    if not r.valid
    then (syserr, r)
    else (if is_default net r.default then (ok, set_default none r) else del_found hv prt bucket r)

-- Where a route is that a caller of `rtget` holds: the bucket and its index there, the default route,
-- or its index among those that have left the table.
pub data Place : Type 0 where
  in_table : ℕ → ℕ → Place
  at_default : Place
  out_of_table : ℕ → Place

abbrev pub lower : Route → Route
lower prt = record prt { refcnt = prt.refcnt - 1 }

-- `freebuf`, for the last reference; the route that is freed stays linked where it is.
abbrev pub free_last : Route → Rtinfo → Rtinfo
free_last prt r = if leb prt.refcnt 1 then record r { bpool = r.bpool + 1 } else r

abbrev pub release_in : ℕ → ℕ → Option Route → Rtinfo → Rtinfo
release_in hv i none r = r
release_in hv i (some prt) r = free_last prt (set_bucket hv (set (r.table hv) i (lower prt)) r)

abbrev pub release_default : Option Route → Rtinfo → Rtinfo
release_default none r = r
release_default (some prt) r = free_last prt (record r { default = some (lower prt) })

abbrev pub release_out : ℕ → Option Route → Rtinfo → Rtinfo
release_out i none r = r
release_out i (some prt) r =
    rtfree_out prt (record r { removed = take i r.removed ++ drop (i + 1) r.removed })

unfoldable pub release : Place → Rtinfo → Rtinfo
release (Place.in_table hv i) r = release_in hv i (get_elem? (r.table hv) i) r
release Place.at_default r = release_default r.default r
release (Place.out_of_table i) r = release_out i (get_elem? r.removed i) r

unfoldable pub rtfree : Place → Rtinfo → ℤ × Rtinfo
rtfree at r = if r.valid then (ok, release at r) else (syserr, r)
