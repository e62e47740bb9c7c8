-- ===== src/Net/Route/Table.antt =====
-- Which operations on the route table leave its buckets as they are.
use xinu_swd.Prelude.{
  ℕ, ◌≡◌, ◌≢◌, refl, Bool, Option, none, some, List, leb, arith, Bool-cases, inl, inr, ◌&&◌,
}
use xinu_swd.Net.Route.{Route, Rtinfo, rtfree_out, set_bucket, set_default, free_default, notify}

pub rtfree_out-table :
    (prt : Route) (r : Rtinfo)
    → ((rtfree_out prt r).table ≡ r.table) × ((rtfree_out prt r).dorip ≡ r.dorip)
rtfree_out-table prt r = elim (Bool-cases (leb prt.refcnt 1)) [
  | inl e ↦ rw e (refl, refl)
  | inr e ↦ rw e (refl, refl)
]

pub bucket_self : (hv : ℕ) (l : List Route) (r : Rtinfo) → (set_bucket hv l r).table hv ≡ l
bucket_self hv l r = ground arith

pub bucket_other :
    (hv : ℕ) (l : List Route) (r : Rtinfo) (i : ℕ)
    → i ≢ hv
    → (set_bucket hv l r).table i ≡ r.table i
bucket_other hv l r i h = ground arith

pub set_default-table : (prt : Option Route) (r : Rtinfo) → (set_default prt r).table ≡ r.table
set_default-table prt r = go r.default
  where
    go : (d : Option Route) → (free_default d r).table ≡ r.table
    go none = refl
    go (some old) = (rtfree_out-table old r).0

pub notify-table : (told : Bool) (r : Rtinfo) → (notify told r).table ≡ r.table
notify-table told r = elim (Bool-cases (r.dorip && told)) [ inl e ↦ rw e | inr e ↦ rw e ]
