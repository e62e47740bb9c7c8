-- ===== src/Net/Route.antt =====
-- The route table: rt_init.c, rt_new.c, rt_hash.c, rt_add.c, rt_get.c, rt_del.c, rt_free.c and
-- rt_timer.c of xinu/ipnet/common. A bucket is a list of routes. A route that has left the table while
-- others still refer to it is in `removed`. The mutex `ri_mutex` is free at each call; metrics and
-- times fit a `short`.
pub mod Table
pub mod Order
pub mod Add
pub mod Longest
pub mod Lookup
pub mod Aging
use Prim.Native.Nat.{bit_and}
use xinu_swd.Prelude.{
  ℕ, zero, suc, ◌+◌, ◌-◌, ◌*◌, ◌/◌, ◌%◌, Bool, true, false, ◌&&◌, ◌||◌, Option, none, some, List,
  [], ◌∷◌, ◌++◌, if◌then◌else◌, ◌==◌, ltb, leb,
}
use mathlib.Core.Bool.{not}
use xinu_swd.Prelude.Int.{ℤ, pos, ◌-ℤ◌, ◌==ℤ◌, ltb_ℤ, leb_ℤ}
use xinu_swd.Conf.{ok, syserr}
use xinu_swd.Net.Addr.{IpAddr, equ, any_addr, in_class, netmatch}

pub record Route : Type 0 where
  pub net : IpAddr
  pub mask : IpAddr
  pub gw : IpAddr
  pub metric : ℤ
  pub ifnum : ℤ
  pub key : ℕ
  pub ttl : ℤ
  pub refcnt : ℕ
  pub usecnt : ℕ

-- `bpool` counts the free buffers of the pool, and `notes` the messages sent to the RIP process,
-- which exists if `dorip` is set.
pub record Rtinfo : Type 0 where
  pub table : ℕ → List Route
  pub default : Option Route
  pub valid : Bool
  pub bpool : ℕ
  pub removed : List Route
  pub dorip : Bool
  pub notes : ℕ

-- `RT_TSIZE`, `RT_INF`, `RTM_INF`, `RT_BPSIZE` of include/route.h and `RIPZTIME` of include/rip.h.
abbrev pub rt_tsize : ℕ
rt_tsize = 512

abbrev pub rt_inf : ℤ
rt_inf = pos 999

abbrev pub rtm_inf : ℤ
rtm_inf = pos 16

abbrev pub rt_bpsize : ℕ
rt_bpsize = 100

abbrev pub ripztime : ℤ
ripztime = pos 120

unfoldable pub rtinit : Rtinfo → Rtinfo
rtinit r = record r { table = λ hv. []; bpool = rt_bpsize; valid = true; default = none }

abbrev pub initialized : Rtinfo → Rtinfo
initialized r = if r.valid then r else rtinit r

-- The number of bytes of an address that count; `junk` is what `bc` holds when no class matches.
abbrev pub counted : ℕ → IpAddr → ℕ
counted junk net =
    if in_class 0xf8 0xf0 net || in_class 0xf0 0xe0 net
    then 4
    else (if in_class 0xe0 0xc0 net
        then 3
        else (if in_class 0xc0 0x80 net then 2 else (if in_class 0x80 0x00 net then 1 else junk)))

-- `net[bc]`, where `beyond` is the memory behind an address.
abbrev pub byte : (ℕ → ℕ) → IpAddr → ℕ → ℕ
byte beyond net zero = net.b0
byte beyond net (suc zero) = net.b1
byte beyond net (suc (suc zero)) = net.b2
byte beyond net (suc (suc (suc zero))) = net.b3
byte beyond net (suc (suc (suc (suc n)))) = beyond n

abbrev pub byte_sum : (ℕ → ℕ) → IpAddr → ℕ → ℕ
byte_sum beyond net zero = 0
byte_sum beyond net (suc bc) = byte beyond net bc + byte_sum beyond net bc

unfoldable pub rthash : ℕ → (ℕ → ℕ) → IpAddr → ℕ
rthash junk beyond net = byte_sum beyond net (counted junk net) % rt_tsize

-- `freebuf` on the last reference, as `RTFREE` of include/route.h for a route out of the table.
abbrev pub rtfree_out : Route → Rtinfo → Rtinfo
rtfree_out prt r =
    if leb prt.refcnt 1
    then record r { bpool = r.bpool + 1 }
    else record r { removed = record prt { refcnt = prt.refcnt - 1 } ∷ r.removed }

-- The sort key: the number of bits in the mask, eight of each byte.
abbrev pub bits : ℕ → ℕ → ℕ
bits zero b = 0
bits (suc n) b = b % 2 + bits n (b / 2)

unfoldable pub mask_key : IpAddr → ℕ
mask_key mask = bits 8 mask.b0 + bits 8 mask.b1 + bits 8 mask.b2 + bits 8 mask.b3

abbrev pub new_route : IpAddr → IpAddr → IpAddr → ℤ → ℤ → ℤ → Route
new_route net mask gw metric ifnum ttl = record {
  net = net;
  mask = mask;
  gw = gw;
  metric = metric;
  ifnum = ifnum;
  key = mask_key mask;
  ttl = ttl;
  refcnt = 1;
  usecnt = 0;
}

-- The bucket around the spot at which the search of rt_add.c ends: `before` up to `prev`, and
-- `after` from `srt` on.
pub record Spot : Type 0 where
  pub before : List Route
  pub isdup : Bool
  pub after : List Route

abbrev pub is_route : IpAddr → IpAddr → Route → Bool
is_route net mask prt = equ prt.net net && equ prt.mask mask

unfoldable pub search_spot : Route → List Route → Spot
search_spot prt [] = record { before = []; isdup = false; after = [] }
search_spot prt (srt ∷ rest) =
    let spot = search_spot prt rest in
    if ltb srt.key prt.key
    then record { before = []; isdup = false; after = srt ∷ rest }
    else (if is_route prt.net prt.mask srt
        then record { before = []; isdup = true; after = srt ∷ rest }
        else record spot { before = srt ∷ spot.before })

abbrev pub set_bucket : ℕ → List Route → Rtinfo → Rtinfo
set_bucket hv l r = record r { table = λ i. if i == hv then l else r.table i }

-- `send(rippid, 0)`, if RIP runs.
abbrev pub notify : Bool → Rtinfo → Rtinfo
notify changed r = if r.dorip && changed then record r { notes = r.notes + 1 } else r

-- A route to the same net by the same gateway takes over the new metric and time.
unfoldable pub refresh : Bool → ℤ → ℤ → Route → Route
refresh dorip metric ttl srt =
    let ttl' =
      (if srt.metric ==ℤ metric then ttl else (if metric ==ℤ rtm_inf then ripztime else ttl)) in
    record srt { metric = metric; ttl = if dorip then ttl' else srt.ttl }

-- The part of rt_add.c for a duplicate `srt`: by the same gateway, and by another one with a better
-- metric. In the remaining case the new route is dropped.
abbrev pub merge_same : ℕ → Route → List Route → Route → List Route → Rtinfo → Rtinfo
merge_same hv prt before srt after r = rtfree_out prt (
    notify (not (srt.metric ==ℤ prt.metric))
      (set_bucket hv (before ++ refresh r.dorip prt.metric prt.ttl srt ∷ after) r))

abbrev pub merge_better : ℕ → Route → List Route → Route → List Route → Rtinfo → Rtinfo
merge_better hv prt before srt after r =
    set_bucket hv (before ++ prt ∷ after) (rtfree_out srt (notify true r))

unfoldable pub merge : ℕ → Route → List Route → Route → List Route → Rtinfo → Rtinfo
merge hv prt before srt after r =
    if equ srt.gw prt.gw
    then merge_same hv prt before srt after r
    else (if leb_ℤ srt.metric prt.metric
        then rtfree_out prt r
        else merge_better hv prt before srt after r)

-- `isdup` is set only in front of a route.
abbrev pub put_dup : ℕ → Route → List Route → List Route → Rtinfo → Rtinfo
put_dup hv prt before [] r = r
put_dup hv prt before (srt ∷ after) r = merge hv prt before srt after r

unfoldable pub put_route : ℕ → Route → Spot → Rtinfo → Rtinfo
put_route hv prt spot r =
    if spot.isdup
    then put_dup hv prt spot.before spot.after r
    else set_bucket hv (spot.before ++ prt ∷ spot.after) (notify true r)

abbrev pub free_default : Option Route → Rtinfo → Rtinfo
free_default none r = r
free_default (some prt) r = rtfree_out prt r

abbrev pub set_default : Option Route → Rtinfo → Rtinfo
set_default prt r = record (free_default r.default r) { default = prt }

-- The part of `rtadd` behind `rtnew`.
unfoldable pub add_route : ℕ → (ℕ → ℕ) → Route → Rtinfo → Rtinfo
add_route junk beyond prt r =
    let hv = rthash junk beyond prt.net in
    if equ prt.net any_addr
    then set_default (some prt) r
    else put_route hv prt (search_spot prt (r.table hv)) r

-- `none` is a call that waits in `getbuf`, since the pool is empty.
unfoldable pub rtadd :
    ℕ → (ℕ → ℕ) → IpAddr → IpAddr → IpAddr → ℤ → ℤ → ℤ → Rtinfo → Option (ℤ × Rtinfo)
rtadd junk beyond net mask gw metric intf ttl r₀ =
    let r = initialized r₀ in
    if r.bpool == 0
    then none
    else some (
      ok,
      add_route junk beyond (new_route net mask gw metric intf ttl)
          (record r { bpool = r.bpool - 1 }),
    )
