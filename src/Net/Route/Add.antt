-- ===== src/Net/Route/Add.antt =====
-- `rtadd` (rt_add.c of xinu/ipnet/common) keeps the order of the buckets.
use xinu_swd.Prelude.{
  ℕ, ◌-◌, ◌<◌, ◌≡◌, ◌≢◌, refl, sym, ap, ◌∙◌, Bool, true, false, none, some, List, [], ◌∷◌, ◌++◌,
  map, if◌then◌else◌, arith, Bool-cases, inl, inr, ◌==◌, ==_iff, if_true, if_false,
}
use mathlib.Core.Path.{subst}
use mathlib.Core.Bool.{not}
use xinu_swd.Conf.{ok}
use xinu_swd.Prelude.Int.{ℤ, ◌==ℤ◌, leb_ℤ}
use xinu_swd.Net.Addr.{IpAddr, equ, any_addr}
use xinu_swd.Net.Route.Table.{
  rtfree_out-table, notify-table, bucket_self, bucket_other, set_default-table,
}
use xinu_swd.Net.Route.Order.{
  ident, IsOrdered, IsBucket, spot_list, search_spot_found, same_idents, ident-is_route,
  search_spot-IsBucket,
}
use xinu_swd.Net.Route.{
  Route, Rtinfo, Spot, search_spot, mask_key, refresh, merge_same, merge_better, merge, put_dup,
  put_route, set_bucket, rtfree_out, notify, add_route, rtadd, new_route, rthash, set_default,
  rtinit,
}

-- The buckets after `put_route`: with the new route, or the route that was there, with the same net
-- and mask.
put_new-table :
    (hv : ℕ) (prt : Route) (spot : Spot) (r : Rtinfo)
    → spot.isdup ≡ false
    → (put_route hv prt spot r).table hv ≡ spot_list prt spot
unfolding put_route
put_new-table hv prt spot r e =
    ap (λ r. r.table hv)
      (if_false e (put_dup hv prt spot.before spot.after r)
        (set_bucket hv (spot_list prt spot) (notify true r)))
    ∙ bucket_self hv (spot_list prt spot) (notify true r)

merge_same-table :
    (hv : ℕ) (prt : Route) (before : List Route) (srt : Route) (after : List Route) (r : Rtinfo)
    → (merge_same hv prt before srt after r).table hv
      ≡ before ++ refresh r.dorip prt.metric prt.ttl srt ∷ after
merge_same-table hv prt before srt after r =
    let l = before ++ refresh r.dorip prt.metric prt.ttl srt ∷ after in
    let changed = not (srt.metric ==ℤ prt.metric) in
    ap (λ t. t hv)
      ((rtfree_out-table prt (notify changed (set_bucket hv l r))).0
        ∙ notify-table changed (set_bucket hv l r))
    ∙ bucket_self hv l r

ident-refresh :
    (dorip : Bool) (metric ttl : ℤ) (srt : Route) → ident (refresh dorip metric ttl srt) ≡ ident srt
unfolding refresh
ident-refresh dorip metric ttl srt = refl

merge-table :
    (hv : ℕ) (prt : Route) (before : List Route) (srt : Route) (after : List Route) (r : Rtinfo)
    → r.table hv ≡ before ++ srt ∷ after
    → ident prt ≡ ident srt
    → map ident ((merge hv prt before srt after r).table hv) ≡ map ident (r.table hv)
unfolding merge
merge-table hv prt before srt after r l e =
    let same = merge_same hv prt before srt after r in
    let better = merge_better hv prt before srt after r in
    let old = ap (map ident) (sym l) in
    elim (Bool-cases (equ srt.gw prt.gw)) [
      | inl g ↦
          ap (λ r. map ident (r.table hv)) (if_true g same _)
          ∙ ap (map ident) (merge_same-table hv prt before srt after r)
          ∙ same_idents before (refresh r.dorip prt.metric prt.ttl srt) srt after
              (ident-refresh r.dorip prt.metric prt.ttl srt)
          ∙ old
      | inr g ↦ elim (Bool-cases (leb_ℤ srt.metric prt.metric)) [
        | inl m ↦
            ap (λ r. map ident (r.table hv))
              (if_false g same _ ∙ if_true m (rtfree_out prt r) better)
            ∙ ap (λ t. map ident (t hv)) (rtfree_out-table prt r).0
        | inr m ↦
            ap (λ r. map ident (r.table hv))
              (if_false g same _ ∙ if_false m (rtfree_out prt r) better)
            ∙ ap (map ident)
                (bucket_self hv (before ++ prt ∷ after) (rtfree_out srt (notify true r)))
            ∙ same_idents before prt srt after e
            ∙ old
      ]
    ]

key_of :
    (before : List Route) (srt : Route) (rest : List Route)
    → IsBucket (before ++ srt ∷ rest)
    → srt.key ≡ mask_key srt.mask
key_of [] srt rest o = o.0
key_of (x ∷ before) srt rest o = key_of before srt rest o.2

put_dup-table :
    (hv : ℕ) (prt : Route) (r : Rtinfo)
    → prt.key ≡ mask_key prt.mask
    → IsBucket (r.table hv)
    → (search_spot prt (r.table hv)).isdup ≡ true
    → map ident ((put_route hv prt (search_spot prt (r.table hv)) r).table hv)
      ≡ map ident (r.table hv)
unfolding put_route
put_dup-table hv prt r k o e =
    let spot = search_spot prt (r.table hv) in
    let (srt, rest, a, i, l) = search_spot_found prt (r.table hv) e in
    ap (λ r. map ident (r.table hv))
      (if_true e (put_dup hv prt spot.before spot.after r) _
        ∙ ap (λ after. put_dup hv prt spot.before after r) a)
    ∙ merge-table hv prt spot.before srt rest r l
        (ident-is_route prt srt k (key_of spot.before srt rest (subst IsBucket l o)) i)

put_route-IsBucket :
    (hv : ℕ) (prt : Route) (r : Rtinfo)
    → prt.key ≡ mask_key prt.mask
    → IsBucket (r.table hv)
    → IsBucket ((put_route hv prt (search_spot prt (r.table hv)) r).table hv)
put_route-IsBucket hv prt r k o =
    let spot = search_spot prt (r.table hv) in
    elim (Bool-cases spot.isdup) [
      | inl e ↦ subst IsOrdered (sym (put_dup-table hv prt r k o e)) o
      | inr e ↦
          subst IsBucket (sym (put_new-table hv prt spot r e))
            (search_spot-IsBucket prt (r.table hv) k o e)
    ]

merge-other :
    (hv : ℕ) (prt : Route) (before : List Route) (srt : Route) (after : List Route) (r : Rtinfo)
    (i : ℕ)
    → i ≢ hv
    → (merge hv prt before srt after r).table i ≡ r.table i
unfolding merge
merge-other hv prt before srt after r i h =
    let l = before ++ refresh r.dorip prt.metric prt.ttl srt ∷ after in
    let changed = not (srt.metric ==ℤ prt.metric) in
    let same = merge_same hv prt before srt after r in
    let better = merge_better hv prt before srt after r in
    elim (Bool-cases (equ srt.gw prt.gw)) [
      | inl g ↦
          ap (λ r. r.table i) (if_true g same _)
          ∙ ap (λ t. t i)
              ((rtfree_out-table prt (notify changed (set_bucket hv l r))).0
                ∙ notify-table changed (set_bucket hv l r))
          ∙ bucket_other hv l r i h
      | inr g ↦ elim (Bool-cases (leb_ℤ srt.metric prt.metric)) [
        | inl m ↦
            ap (λ r. r.table i) (if_false g same _ ∙ if_true m (rtfree_out prt r) better)
            ∙ ap (λ t. t i) (rtfree_out-table prt r).0
        | inr m ↦
            ap (λ r. r.table i) (if_false g same _ ∙ if_false m (rtfree_out prt r) better)
            ∙ bucket_other hv (before ++ prt ∷ after) (rtfree_out srt (notify true r)) i h
            ∙ ap (λ t. t i) ((rtfree_out-table srt (notify true r)).0 ∙ notify-table true r)
      ]
    ]

put_dup-other :
    (hv : ℕ) (prt : Route) (before after : List Route) (r : Rtinfo) (i : ℕ)
    → i ≢ hv
    → (put_dup hv prt before after r).table i ≡ r.table i
put_dup-other hv prt before [] r i h = refl
put_dup-other hv prt before (srt ∷ after) r i h = merge-other hv prt before srt after r i h

put_route-other :
    (hv : ℕ) (prt : Route) (spot : Spot) (r : Rtinfo) (i : ℕ)
    → i ≢ hv
    → (put_route hv prt spot r).table i ≡ r.table i
unfolding put_route
put_route-other hv prt spot r i h =
    let dup = put_dup hv prt spot.before spot.after r in
    let new = set_bucket hv (spot_list prt spot) (notify true r) in
    elim (Bool-cases spot.isdup) [
      | inl e ↦
          ap (λ r. r.table i) (if_true e dup new)
          ∙ put_dup-other hv prt spot.before spot.after r i h
      | inr e ↦
          ap (λ r. r.table i) (if_false e dup new)
          ∙ bucket_other hv (spot_list prt spot) (notify true r) i h
          ∙ ap (λ t. t i) (notify-table true r)
    ]

-- Every bucket after `add_route`, which is `rtadd` behind `rtnew`.
add_route-IsBucket :
    (junk : ℕ) (beyond : ℕ → ℕ) (prt : Route) (r : Rtinfo)
    → prt.key ≡ mask_key prt.mask
    → ((i : ℕ) → IsBucket (r.table i))
    → (i : ℕ) → IsBucket ((add_route junk beyond prt r).table i)
unfolding add_route
add_route-IsBucket junk beyond prt r k o i =
    let hv = rthash junk beyond prt.net in
    let put = put_route hv prt (search_spot prt (r.table hv)) r in
    elim (Bool-cases (equ prt.net any_addr)) [
      | inl e ↦
          subst IsBucket
            (sym (
              ap (λ r. r.table i) (if_true e (set_default (some prt) r) put)
              ∙ ap (λ t. t i) (set_default-table (some prt) r)))
            (o i)
      | inr e ↦
          subst IsBucket (sym (ap (λ r. r.table i) (if_false e (set_default (some prt) r) put)))
            (elim (Bool-cases (i == hv)) [
              | inl d ↦
                  subst (λ i. IsBucket (put.table i)) (sym ((==_iff i hv).0 d))
                    (put_route-IsBucket hv prt r k (o hv))
              | inr d ↦
                  subst IsBucket
                    (sym (put_route-other hv prt (search_spot prt (r.table hv)) r i (ne d))) (o i)
            ])
    ]
  where
    ne : {i j : ℕ} → (i == j) ≡ false → i ≢ j
    ne {i} {j} d = ground (arith, ==_iff i j)

nonzero : {n : ℕ} → 0 < n → (n == 0) ≡ false
nonzero {n} h = ground arith

-- On a valid table with a free buffer, and with each bucket in order of the masks' lengths, with
-- the right sort keys and without two routes to one net and mask: `rtadd` returns `ok`, and each
-- bucket is so again.
pub rtadd-IsBucket :
    (junk : ℕ) (beyond : ℕ → ℕ) (net mask gw : IpAddr) (metric intf ttl : ℤ) (r : Rtinfo)
    → r.valid ≡ true
    → 0 < r.bpool
    → ((i : ℕ) → IsBucket (r.table i))
    → (r' : Rtinfo) × (rtadd junk beyond net mask gw metric intf ttl r ≡ some (ok, r'))
      × ((i : ℕ) → IsBucket (r'.table i))
unfolding rtadd
rtadd-IsBucket junk beyond net mask gw metric intf ttl r v b o =
    let r₁ = record r { bpool = r.bpool - 1 } in
    let prt = new_route net mask gw metric intf ttl in
    (
      add_route junk beyond prt r₁,
      ap
            (λ q.
              if q.bpool == 0
              then none
              else some (ok, add_route junk beyond prt (record q { bpool = q.bpool - 1 })))
            (if_true v r (rtinit r))
          ∙ if_false (nonzero b) none (some (ok, add_route junk beyond prt r₁)),
      add_route-IsBucket junk beyond prt r₁ refl o,
    )
