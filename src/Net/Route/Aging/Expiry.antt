-- ===== src/Net/Route/Aging/Expiry.antt =====
-- `rttimer` ends, and what it leaves of each bucket of the route table.
use xinu_swd.Prelude.{
  ℕ, zero, suc, ◌+◌, ◌*◌, ◌≤◌, ◌<◌, ◌≡◌, ◌≢◌, refl, ap, ◌∙◌, Bool, true, false, ◌&&◌, ◌||◌, Option,
  none, some, List, [], ◌∷◌, if◌then◌else◌, length, arith, Bool-cases, inl, inr, ◌==◌, ==_iff,
  if_true,
}
use mathlib.Core.Path.{ap₂}
use xinu_swd.Prelude.Int.{ℤ, pos, ◌-ℤ◌, ◌==ℤ◌, ltb_ℤ, leb_ℤ}
use xinu_swd.Net.Route.{Route, Rtinfo, rtm_inf, rt_tsize, rtfree_out, set_bucket, rt_inf}
use xinu_swd.Net.Route.Table.{
  rtfree_out-table, bucket_self, bucket_other, set_default-table, notify-table,
}
use xinu_swd.Net.Route.Aging.{
  Aged, older, zombie, keep, drop_route, tell, over, age_loop, free_all, age_table, age_default,
  finish_aging, finish, rttimer,
}

-- What becomes of a bucket, route by route: a route whose time is over goes, unless RIP announces it
-- first, from when on it ages from `ripztime`.
abbrev pub age_zombie : ℤ → Route → Aged → Aged
age_zombie delta prt a =
    if leb_ℤ (older delta prt).ttl (pos 0)
    then drop_route (older delta prt) a
    else keep (older delta prt) a

abbrev pub aged : Bool → ℤ → List Route → Aged
aged dorip delta [] = record { kept = []; freed = []; ripnotify = false }
aged dorip delta (prt₀ ∷ rest) =
    let prt = older delta prt₀ in
    let a = aged dorip delta rest in
    if leb_ℤ prt.ttl (pos 0)
    then (if dorip && ltb_ℤ prt.metric rtm_inf
        then tell (age_zombie delta (zombie prt) a)
        else drop_route prt a)
    else keep prt a

older-zombie : (delta : ℤ) (prt : Route) → ltb_ℤ (older delta (zombie prt)).metric rtm_inf ≡ false
unfolding older ◌==ℤ◌
older-zombie delta prt = refl

not_again : (b c : Bool) → c ≡ false → (b && c) ≡ false
not_again b c h = ground arith

age_again :
    (f : ℕ) (dorip : Bool) (delta : ℤ) (prt : Route) (rest : List Route)
    → age_loop f dorip delta rest ≡ some (aged dorip delta rest)
    → age_loop (suc f) dorip delta (zombie prt ∷ rest)
      ≡ some (age_zombie delta (zombie prt) (aged dorip delta rest))
unfolding age_loop
age_again f dorip delta prt rest h =
    elim (Bool-cases (leb_ℤ (older delta (zombie prt)).ttl (pos 0))) [
      | inl e ↦ rw (e, not_again dorip _ (older-zombie delta prt), h)
      | inr e ↦ rw (e, h)
    ]

-- With more rounds than twice the routes of a bucket, the loop over it ends.
pub age_loop-aged :
    (f : ℕ) (dorip : Bool) (delta : ℤ) (prts : List Route)
    → 2 * length prts < f
    → age_loop f dorip delta prts ≡ some (aged dorip delta prts)
unfolding age_loop
age_loop-aged zero dorip delta prts h = absurd (omega arith)
age_loop-aged (suc f) dorip delta [] h = refl
age_loop-aged (suc zero) dorip delta (prt ∷ rest) h = absurd (omega arith)
age_loop-aged (suc (suc f)) dorip delta (prt₀ ∷ rest) h =
    let next = age_loop-aged (suc f) dorip delta rest (omega arith) in
    let again =
      age_again f dorip delta (older delta prt₀) rest
        (age_loop-aged f dorip delta rest (omega arith)) in
    elim (Bool-cases (leb_ℤ (older delta prt₀).ttl (pos 0))) [
      | inl e ↦ elim (Bool-cases (dorip && ltb_ℤ (older delta prt₀).metric rtm_inf)) [
        | inl d ↦ rw (e, d) (ap (over tell) again)
        | inr d ↦ rw (e, d, next)
      ]
      | inr e ↦ rw (e, next)
    ]

free_all-table :
    (prts : List Route) (r : Rtinfo)
    → ((free_all prts r).table ≡ r.table) × ((free_all prts r).dorip ≡ r.dorip)
free_all-table [] r = (refl, refl)
free_all-table (prt ∷ rest) r =
    let now = rtfree_out-table prt r in
    let later = free_all-table rest (rtfree_out prt r) in (later.0 ∙ now.0, later.1 ∙ now.1)

-- The loop over the buckets ages those from `hv` on and leaves the ones before.
AgedFrom : ℕ → ℕ → ℤ → Rtinfo → Rtinfo → Type 0
AgedFrom n hv delta r r' =
    ((i : ℕ) → hv ≤ i → i < hv + n → r'.table i ≡ (aged r.dorip delta (r.table i)).kept)
    × ((i : ℕ) → i < hv → r'.table i ≡ r.table i)

-- `r` with its bucket `hv` aged.
abbrev age_bucket : ℕ → ℤ → Rtinfo → Rtinfo
age_bucket hv delta r =
    let a = aged r.dorip delta (r.table hv) in free_all a.freed (set_bucket hv a.kept r)

age_bucket-table :
    (hv : ℕ) (delta : ℤ) (r : Rtinfo)
    → ((age_bucket hv delta r).table hv ≡ (aged r.dorip delta (r.table hv)).kept)
      × ((i : ℕ) → i ≢ hv → (age_bucket hv delta r).table i ≡ r.table i)
      × ((age_bucket hv delta r).dorip ≡ r.dorip)
age_bucket-table hv delta r =
    let a = aged r.dorip delta (r.table hv) in
    let same = free_all-table a.freed (set_bucket hv a.kept r) in
    (
      ap (λ t. t hv) same.0 ∙ bucket_self hv a.kept r,
      (λ i p. ap (λ t. t i) same.0 ∙ bucket_other hv a.kept r i p),
      same.1,
    )

age_table_next :
    (n f hv : ℕ) (delta : ℤ) (told : Bool) (r : Rtinfo)
    → 2 * length (r.table hv) < f
    → age_table (suc n) f hv delta told r
      ≡ age_table n f
          (hv + 1)
          delta
          (told || (aged r.dorip delta (r.table hv)).ripnotify)
          (age_bucket hv delta r)
unfolding age_table
age_table_next n f hv delta told r h = rw (age_table, age_loop-aged f r.dorip delta (r.table hv) h)

AgedFrom-suc :
    (n hv : ℕ) (delta : ℤ) (r r₁ r' : Rtinfo)
    → r₁.table hv ≡ (aged r.dorip delta (r.table hv)).kept
    → ((i : ℕ) → i ≢ hv → r₁.table i ≡ r.table i)
    → r₁.dorip ≡ r.dorip
    → AgedFrom n (hv + 1) delta r₁ r'
    → AgedFrom (suc n) hv delta r r'
unfolding AgedFrom
AgedFrom-suc n hv delta r r₁ r' self other rip a = (
  (λ i p q. elim (Bool-cases (i == hv)) [
    | inl d ↦ let e : i ≡ hv = ground (arith, ==_iff i hv) in rw e (a.1 hv (omega arith) ∙ self)
    | inr d ↦
        let ne : i ≢ hv = ground (arith, ==_iff i hv) in
        a.0 i (ground (arith, p)) (omega (arith, q))
        ∙ ap₂ (λ b l. (aged b delta l).kept) rip (other i ne)
  ]),
  λ i p. a.1 i (omega (arith, p)) ∙ other i (λ e. omega (arith, p, e)),
)

age_table-aged :
    (n f hv : ℕ) (delta : ℤ) (told : Bool) (r : Rtinfo)
    → ((i : ℕ) → hv ≤ i → 2 * length (r.table i) < f)
    → (told' : Bool) × (r' : Rtinfo) × (age_table n f hv delta told r ≡ some (told', r'))
      × AgedFrom n hv delta r r'
unfolding age_table AgedFrom
age_table-aged zero f hv delta told r h =
    (told, r, refl, ((λ i p q. absurd (omega (arith, p, q))), λ i p. refl))
age_table-aged (suc n) f hv delta told r h =
    let (self, other, rip) = age_bucket-table hv delta r in
    let (told', r', e, rest) =
      age_table-aged n f (hv + 1) delta (told || (aged r.dorip delta (r.table hv)).ripnotify)
        (age_bucket hv delta r)
        (λ i p. rw (other i (λ e. omega (arith, p, e))) (h i (omega (arith, p)))) in
    (
      told',
      r',
      age_table_next n f hv delta told r (h hv (omega arith)) ∙ e,
      AgedFrom-suc n hv delta r (age_bucket hv delta r) r' self other rip rest,
    )

-- The default route is set apart, and the table stays.
age_default-table :
    (delta : ℤ) (prt : Option Route) (r : Rtinfo) → (age_default delta prt r).table ≡ r.table
unfolding age_default
age_default-table delta none r = refl
age_default-table delta (some prt) r = elim (Bool-cases (ltb_ℤ prt.ttl rt_inf)) [
  | inr e ↦ rw e
  | inl e ↦ elim (Bool-cases (leb_ℤ (prt.ttl -ℤ delta) (pos 0))) [
    | inr g ↦ rw (e, g)
    | inl g ↦ elim (Bool-cases (r.dorip && ltb_ℤ prt.metric rtm_inf)) [
      | inl d ↦ rw (e, g, d)
      | inr d ↦
          rw (e, g, d)
            (set_default-table none
              (record r { default = some (record prt { ttl = prt.ttl -ℤ delta }) }))
    ]
  ]
]

-- On a valid table, with more rounds than twice the routes of any bucket, `rttimer` ends.
pub rttimer-aged :
    (f : ℕ) (delta : ℤ) (r : Rtinfo)
    → r.valid ≡ true
    → ((i : ℕ) → 2 * length (r.table i) < f)
    → (r' : Rtinfo) × (rttimer f delta r ≡ some r')
      × ((i : ℕ) → i < rt_tsize → r'.table i ≡ (aged r.dorip delta (r.table i)).kept)
unfolding rttimer AgedFrom
rttimer-aged f delta r v h =
    let (told, r', e, rest) = age_table-aged rt_tsize f 0 delta false r (λ i p. h i) in
    let same : (finish_aging delta (told, r')).table ≡ r'.table =
      notify-table told (age_default delta r'.default r') ∙ age_default-table delta r'.default r' in
    (
      finish_aging delta (told, r'),
      if_true v (finish delta (age_table rt_tsize f 0 delta false r)) (some r)
          ∙ ap (finish delta) e,
      λ i p. ap (λ t. t i) same ∙ rest.0 i (omega arith) (omega (arith, p)),
    )
