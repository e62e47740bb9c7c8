-- ===== src/Ports/Nodes.antt =====
-- The nodes of a port's list and of the list of free nodes (include/ports.h) as sequences.
use xinu_swd.Prelude.{
  ℕ, ◌≡◌, refl, ap, ◌∙◌, Bool, true, false, ◌||◌, List, [], ◌∷◌, ◌++◌, map, arith, ◌==◌, ==_iff,
}
use xinu_swd.Prelude.Int.{ℤ}
use xinu_swd.Ports.{Ports, put}

abbrev pub has : ℕ → List ℕ → Bool
has a [] = false
has a (n ∷ ns) = (a == n) || has a ns

abbrev pub Distinct : List ℕ → Type 0
Distinct [] = Unit
Distinct (n ∷ ns) = (has n ns ≡ false) × Distinct ns

-- The nodes `ns` are linked, from `a` on.
abbrev pub Nodes : (ℕ → ℕ) → ℕ → List ℕ → Type 0
Nodes next a [] = a ≡ 0
Nodes next a (n ∷ ns) = (a ≡ n) × ((n == 0) ≡ false) × Nodes next (next n) ns

abbrev pub last : ℕ → List ℕ → ℕ
last d [] = d
last d (n ∷ ns) = last n ns

-- The port `p` has the nodes `ns`, and the nodes `fs` are free.
pub record IsPort (s : Ports) (p : ℤ) (fs ns : List ℕ) : Type 0 where
  pub free : Nodes s.ptnext s.ptfree fs
  pub list : Nodes s.ptnext (s.ports p).pthead ns
  pub tail : (s.ports p).pttail ≡ last 0 ns
  pub free_distinct : Distinct fs
  pub list_distinct : Distinct ns
  pub apart : (a : ℕ) → has a fs ≡ true → has a ns ≡ false

pub put_same {ℓ} : {A : Type ℓ} (f : ℕ → A) (a : ℕ) (v : A) → put f a v a ≡ v
put_same f a v = let e : (a == a) ≡ true = ground (arith, ==_iff a a) in rw e

pub put_other {ℓ} :
    {A : Type ℓ} (f : ℕ → A) (a : ℕ) (v : A) (b : ℕ) → (b == a) ≡ false → put f a v b ≡ f b
put_other f a v b h = rw h

pub ==_comm : (a b : ℕ) → (a == b) ≡ (b == a)
==_comm a b = ground arith

pub Nodes-put :
    (next : ℕ → ℕ) (x v a : ℕ) (ns : List ℕ)
    → has x ns ≡ false
    → Nodes next a ns
    → Nodes (put next x v) a ns
Nodes-put next x v a [] out is = is
Nodes-put next x v a (n ∷ ns) out is =
    let ne : (n == x) ≡ false = ground (arith, ==_comm n x) in
    (is.0, is.1, rw ne (Nodes-put next x v (next n) ns (ground arith) is.2))

pub map-put :
    (f : ℕ → ℤ) (x : ℕ) (v : ℤ) (ns : List ℕ) → has x ns ≡ false → map (put f x v) ns ≡ map f ns
map-put f x v [] out = refl
map-put f x v (n ∷ ns) out =
    let ne : (n == x) ≡ false = ground (arith, ==_comm n x) in
    rw ne (ap (λ z. f n ∷ z) (map-put f x v ns (ground arith)))

pub ne_last : (a n : ℕ) (ns : List ℕ) → has a (n ∷ ns) ≡ false → (a == last n ns) ≡ false
ne_last a n [] h = ground arith
ne_last a n (m ∷ ns) h = ne_last a m ns (ground arith)

-- A node linked behind the last one.
pub Nodes-snoc :
    (next : ℕ → ℕ) (f a n : ℕ) (ns : List ℕ)
    → (f == 0) ≡ false
    → next f ≡ 0
    → Distinct (n ∷ ns)
    → has f (n ∷ ns) ≡ false
    → Nodes next a (n ∷ ns)
    → Nodes (put next (last n ns) f) a ((n ∷ ns) ++ f ∷ [])
Nodes-snoc next f a n [] nz end d out is =
    let ne : (f == n) ≡ false = ground arith in
    (is.0, is.1, (put_same next n f, nz, put_other next n f f ne ∙ end))
Nodes-snoc next f a n (m ∷ ns) nz end d out is =
    let ne : (n == last m ns) ≡ false = ne_last n m ns d.0 in
    (is.0, is.1, rw ne (Nodes-snoc next f (next n) m ns nz end d.1 (ground arith) is.2))

pub has-append : (a : ℕ) (ms ns : List ℕ) → has a (ms ++ ns) ≡ (has a ms || has a ns)
has-append a [] ns = refl
has-append a (m ∷ ms) ns = ground (arith, has-append a ms ns)

pub Distinct-snoc : (f : ℕ) (ns : List ℕ) → has f ns ≡ false → Distinct ns → Distinct (ns ++ f ∷ [])
Distinct-snoc f [] out d = (refl, tt)
Distinct-snoc f (n ∷ ns) out d =
    (ground (arith, has-append n ns (f ∷ []), ==_comm n f), Distinct-snoc f ns (ground arith) d.1)

pub last-snoc : (d f : ℕ) (ns : List ℕ) → last d (ns ++ f ∷ []) ≡ f
last-snoc d f [] = refl
last-snoc d f (n ∷ ns) = last-snoc n f ns

pub map-snoc : (g : ℕ → ℤ) (f : ℕ) (ns : List ℕ) → map g (ns ++ f ∷ []) ≡ map g ns ++ g f ∷ []
map-snoc g f [] = refl
map-snoc g f (n ∷ ns) = ap (λ z. g n ∷ z) (map-snoc g f ns)

abbrev pub msgs : Ports → List ℕ → List ℤ
msgs s ns = map s.ptmsg ns

pub appended_msgs :
    (s : Ports) (f : ℕ) (msg : ℤ) (ns : List ℕ)
    → has f ns ≡ false
    → map (put s.ptmsg f msg) (ns ++ f ∷ []) ≡ msgs s ns ++ msg ∷ []
appended_msgs s f msg ns out =
    map-snoc (put s.ptmsg f msg) f ns
    ∙ rw (map-put s.ptmsg f msg ns out, put_same s.ptmsg f msg) refl
