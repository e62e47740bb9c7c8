-- ===== src/Net/Route/Order.antt =====
-- The order of a bucket: by the number of bits in the mask, with one route for a net and mask, and
-- `rtadd` (rt_add.c of xinu/ipnet/common) keeps it.
use xinu_swd.Prelude.{
  ℕ, ◌≤◌, ◌<◌, ◌≡◌, ◌≢◌, sym, ap, ◌∙◌, Bool, true, false, ◌&&◌, List, [], ◌∷◌, ◌++◌, map, ltb,
  arith, Bool-cases, inl, inr, ltb→lt,
}
use xinu_swd.Net.Addr.{IpAddr, equ}
use xinu_swd.Net.Route.{Route, Spot, is_route, search_spot, mask_key}

-- What tells two routes apart, with the sort key.
pub record Ident : Type 0 where
  pub net : IpAddr
  pub mask : IpAddr
  pub key : ℕ

abbrev pub ident : Route → Ident
ident prt = record { net = prt.net; mask = prt.mask; key = prt.key }

abbrev pub same_net : Ident → Ident → Bool
same_net a b = equ b.net a.net && equ b.mask a.mask

-- The routes behind `a` have no longer masks and are not to the same net.
abbrev pub IsAfter : Ident → List Ident → Type 0
IsAfter a [] = Unit
IsAfter a (b ∷ l) = (b.key ≤ a.key) × (same_net a b ≡ false) × IsAfter a l

abbrev pub IsOrdered : List Ident → Type 0
IsOrdered [] = Unit
IsOrdered (a ∷ l) = (a.key ≡ mask_key a.mask) × IsAfter a l × IsOrdered l

abbrev pub IsBucket : List Route → Type 0
IsBucket l = IsOrdered (map ident l)

pub equ_iff : (a b : IpAddr) → equ a b ≡ true → a ≡ b
unfolding equ
equ_iff a b h = ground arith

equ_comm : (a b : IpAddr) → equ a b ≡ equ b a
unfolding equ
equ_comm a b = ground arith

pub equ_refl : (a : IpAddr) → equ a a ≡ true
unfolding equ
equ_refl a = ground arith

same_net_comm : (a b : Ident) → same_net a b ≡ same_net b a
same_net_comm a b = rw (equ_comm b.net a.net, equ_comm b.mask a.mask)

and_false : (b : Bool) → (b && false) ≡ false
and_false b = ground arith

-- Nets with masks of other lengths are not the same.
same_net_key :
    (a b : Ident)
    → a.key ≡ mask_key a.mask
    → b.key ≡ mask_key b.mask
    → b.key < a.key
    → same_net a b ≡ false
same_net_key a b ha hb h = elim (Bool-cases (equ b.mask a.mask)) [
  | inl e ↦ absurd (omega (arith, ap mask_key (equ_iff b.mask a.mask e)))
  | inr e ↦ rw e (and_false (equ b.net a.net))
]

-- The bucket that the search gives, around a route `x`.
abbrev pub spot_list : Route → Spot → List Route
spot_list x spot = spot.before ++ x ∷ spot.after

IsAfter-key_lt :
    (a b : Ident) (l : List Ident)
    → a.key ≡ mask_key a.mask
    → b.key < a.key
    → IsAfter b l
    → IsOrdered l
    → IsAfter a l
IsAfter-key_lt a b [] ha h p o = tt
IsAfter-key_lt a b (c ∷ l) ha h p o = (
  omega (arith, p.0),
  same_net_key a c ha o.0 (omega (arith, p.0)),
  IsAfter-key_lt a b l ha h p.2 o.2,
)

IsAfter-search_spot :
    (a : Ident) (prt : Route) (l : List Route)
    → IsAfter a (map ident l)
    → prt.key ≤ a.key
    → same_net a (ident prt) ≡ false
    → IsAfter a (map ident (spot_list prt (search_spot prt l)))
unfolding search_spot
IsAfter-search_spot a prt [] p k n = (k, n, tt)
IsAfter-search_spot a prt (srt ∷ rest) p k n = elim (Bool-cases (ltb srt.key prt.key)) [
  | inl e ↦ rw e (k, n, p)
  | inr e ↦ elim (Bool-cases (is_route prt.net prt.mask srt)) [
    | inl d ↦ rw (e, d) (k, n, p)
    | inr d ↦ rw (e, d) (p.0, p.1, IsAfter-search_spot a prt rest p.2 k n)
  ]
]

-- The search behind a route that it passes, and at a duplicate.
search_spot_next :
    (prt srt : Route) (rest : List Route)
    → ltb srt.key prt.key ≡ false
    → is_route prt.net prt.mask srt ≡ false
    → search_spot prt (srt ∷ rest)
      ≡ record (search_spot prt rest) { before = srt ∷ (search_spot prt rest).before }
unfolding search_spot
search_spot_next prt srt rest e d = rw (e, d)

search_spot_end :
    (prt srt : Route) (rest : List Route)
    → ltb srt.key prt.key ≡ true
    → search_spot prt (srt ∷ rest) ≡ record { before = []; isdup = false; after = srt ∷ rest }
unfolding search_spot
search_spot_end prt srt rest e = rw e

search_spot_dup :
    (prt srt : Route) (rest : List Route)
    → ltb srt.key prt.key ≡ false
    → is_route prt.net prt.mask srt ≡ true
    → search_spot prt (srt ∷ rest) ≡ record { before = []; isdup = true; after = srt ∷ rest }
unfolding search_spot
search_spot_dup prt srt rest e d = rw (e, d)

true_ne_false : true ≢ false
true_ne_false e = cc

le_of_lt : {a b : ℕ} → a < b → a ≤ b
le_of_lt h = omega arith

-- A route that is no duplicate goes in front of those with shorter masks.
pub search_spot-IsBucket :
    (prt : Route) (l : List Route)
    → prt.key ≡ mask_key prt.mask
    → IsBucket l
    → (search_spot prt l).isdup ≡ false
    → IsBucket (spot_list prt (search_spot prt l))
unfolding search_spot
search_spot-IsBucket prt [] k o n = (k, tt, tt)
search_spot-IsBucket prt (srt ∷ rest) k o n = elim (Bool-cases (ltb srt.key prt.key)) [
  | inl e ↦
      let less : srt.key < prt.key = ltb→lt _ _ e in
      rw e (
        k,
        (
          le_of_lt less,
          same_net_key (ident prt) (ident srt) k o.0 less,
          IsAfter-key_lt (ident prt) (ident srt) (map ident rest) k less o.1 o.2,
        ),
        o,
      )
  | inr e ↦ elim (Bool-cases (is_route prt.net prt.mask srt)) [
    | inl d ↦
        absurd (true_ne_false (ap (λ s. s.isdup) (sym (search_spot_dup prt srt rest e d)) ∙ n))
    | inr d ↦
        rw (e, d)
          (
            o.0,
            IsAfter-search_spot (ident srt) prt rest o.1 (ground arith)
                (same_net_comm (ident srt) (ident prt) ∙ d),
            search_spot-IsBucket prt rest k o.2
                (ap (λ s. s.isdup) (sym (search_spot_next prt srt rest e d)) ∙ n),
          )
  ]
]

-- A duplicate stands where the search ends.
pub search_spot_found :
    (prt : Route) (l : List Route)
    → (search_spot prt l).isdup ≡ true
    → (srt : Route) × (rest : List Route) × ((search_spot prt l).after ≡ srt ∷ rest)
      × (is_route prt.net prt.mask srt ≡ true)
      × (l ≡ (search_spot prt l).before ++ srt ∷ rest)
unfolding search_spot
search_spot_found prt [] h = absurd (true_ne_false (sym h))
search_spot_found prt (srt ∷ rest) h = elim (Bool-cases (ltb srt.key prt.key)) [
  | inl e ↦ absurd (true_ne_false (sym h ∙ ap (λ s. s.isdup) (search_spot_end prt srt rest e)))
  | inr e ↦ elim (Bool-cases (is_route prt.net prt.mask srt)) [
    | inl d ↦ (srt, rest, rw (e, d), d, rw (e, d))
    | inr d ↦
        let (x, xs, a, i, l) =
          search_spot_found prt rest
            (ap (λ s. s.isdup) (sym (search_spot_next prt srt rest e d)) ∙ h) in
        (x, xs, rw (e, d) a, i, rw (e, d) (ap (λ l. srt ∷ l) l))
  ]
]

pub same_idents :
    (b : List Route) (x y : Route) (l : List Route)
    → ident x ≡ ident y
    → map ident (b ++ x ∷ l) ≡ map ident (b ++ y ∷ l)
same_idents [] x y l e = ap (λ i. i ∷ map ident l) e
same_idents (z ∷ b) x y l e = ap (λ l. ident z ∷ l) (same_idents b x y l e)

both_true : (a b : Bool) → (a && b) ≡ true → (a ≡ true) × (b ≡ true)
both_true a b h = ground arith

ident_eq :
    {n n' m m' : IpAddr} {k k' : ℕ}
    → n ≡ n'
    → m ≡ m'
    → k ≡ k'
    → Path Ident (record { net = n; mask = m; key = k }) (record { net = n'; mask = m'; key = k' })
ident_eq p q r = λ i. record { net = p i; mask = q i; key = r i }

pub ident-is_route :
    (prt srt : Route)
    → prt.key ≡ mask_key prt.mask
    → srt.key ≡ mask_key srt.mask
    → is_route prt.net prt.mask srt ≡ true
    → ident prt ≡ ident srt
ident-is_route prt srt hp hs e =
    let (n, m) = both_true (equ srt.net prt.net) (equ srt.mask prt.mask) e in
    let same_mask = sym (equ_iff srt.mask prt.mask m) in
    ident_eq (sym (equ_iff srt.net prt.net n)) same_mask (hp ∙ ap mask_key same_mask ∙ sym hs)
