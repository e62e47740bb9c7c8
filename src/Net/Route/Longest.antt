-- ===== src/Net/Route/Longest.antt =====
-- `rtget` (rt_get.c of xinu/ipnet/common) takes the route with the longest mask.
use xinu_swd.Prelude.{
  ℕ, zero, suc, ◌≤◌, ◌≡◌, ◌≢◌, sym, ap, ◌∙◌, Bool, true, false, ◌⊎◌, none, some, List, [], ◌∷◌, map,
  arith, Bool-cases, inl, inr, if_true, get_elem?,
}
use mathlib.Core.Path.{subst}
use xinu_swd.Net.Addr.{IpAddr}
use xinu_swd.Net.Route.{Route, Rtinfo, rthash, rtinit}
use xinu_swd.Net.Route.Order.{Ident, ident, IsAfter, IsBucket}
use xinu_swd.Net.Route.Lookup.{is_usable, refer, choose, get_chosen, rtget}

none_ne_some : {a : Route} → none ≢ some a
none_ne_some e = cc

true_ne_false : true ≢ false
true_ne_false e = cc

le_refl : (n : ℕ) → n ≤ n
le_refl n = omega arith

some_inj : {a b : Route} → some a ≡ some b → a ≡ b
some_inj e = cc

head_or_later :
    (prt : Route) (rest : List Route) (i : ℕ) {q : Route}
    → get_elem? (prt ∷ rest) i ≡ some q
    → (prt ≡ q) ⊎ ((j : ℕ) × (get_elem? rest j ≡ some q))
head_or_later prt rest zero e = inl (some_inj e)
head_or_later prt rest (suc j) e = inr (j, e)

IsAfter-key :
    (a : Ident) (l : List Route) (i : ℕ) {q : Route}
    → IsAfter a (map ident l)
    → get_elem? l i ≡ some q
    → q.key ≤ a.key
IsAfter-key a [] i p e = cc
IsAfter-key a (b ∷ l) zero p e = let e' : b ≡ _ = some_inj e in subst (λ q. q.key ≤ a.key) e' p.0
IsAfter-key a (b ∷ l) (suc i) p e = IsAfter-key a l i p.2 e

IsAfter-at :
    (prt : Route) (rest : List Route) (i : ℕ) {q : Route}
    → IsAfter (ident prt) (map ident rest)
    → get_elem? (prt ∷ rest) i ≡ some q
    → q.key ≤ prt.key
IsAfter-at prt rest i {q} p e = elim (head_or_later prt rest i e) [
  | inl same ↦ subst (λ q. q.key ≤ prt.key) same (le_refl prt.key)
  | inr (j, e') ↦ IsAfter-key (ident prt) rest j p e'
]

-- The first usable route has the longest mask of the usable ones.
choose-longest :
    (usable : Route → Bool) (l : List Route) (i : ℕ) {q : Route}
    → IsBucket l
    → get_elem? l i ≡ some q
    → usable q ≡ true
    → (prt : Route) × ((choose usable l).0 ≡ some (refer prt))
      × (usable prt ≡ true)
      × (q.key ≤ prt.key)
unfolding choose
choose-longest usable [] i o e u = absurd (none_ne_some e)
choose-longest usable (prt ∷ rest) i {q} o e u = elim (Bool-cases (usable prt)) [
  | inl t ↦ (prt, rw t, t, IsAfter-at prt rest i o.1 e)
  | inr t ↦ elim (head_or_later prt rest i e) [
    | inl same ↦ absurd (true_ne_false (sym u ∙ ap usable (sym same) ∙ t))
    | inr (j, e') ↦ let (x, c, ux, k) = choose-longest usable rest j o.2 e' u in (x, rw t c, ux, k)
  ]
]

-- On a valid table with the bucket of `dest` in order, and `q` a usable route of it: `rtget`
-- returns a usable route of a mask at least as long as that of `q`, with one reference more.
pub rtget-longest :
    (junk : ℕ) (beyond : ℕ → ℕ) (isbrc : IpAddr → Bool) (dest : IpAddr) (local : Bool) (r : Rtinfo)
    (i : ℕ) {q : Route}
    → r.valid ≡ true
    → IsBucket (r.table (rthash junk beyond dest))
    → get_elem? (r.table (rthash junk beyond dest)) i ≡ some q
    → is_usable isbrc dest local q ≡ true
    → (prt : Route) × ((rtget junk beyond isbrc dest local r).0 ≡ some (refer prt))
      × (is_usable isbrc dest local prt ≡ true)
      × (q.key ≤ prt.key)
unfolding rtget
rtget-longest junk beyond isbrc dest local r i v o e u =
    let usable = is_usable isbrc dest local in
    let hv = rthash junk beyond dest in
    let (prt, c, up, k) = choose-longest usable (r.table hv) i o e u in
    (
      prt,
      ap (λ q. (get_chosen hv (choose usable (q.table hv)).0 (choose usable (q.table hv)).1 q).0)
            (if_true v r (rtinit r))
          ∙ ap (λ p. (get_chosen hv p (choose usable (r.table hv)).1 r).0) c,
      up,
      k,
    )
