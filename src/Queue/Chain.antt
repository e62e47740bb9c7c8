-- ===== src/Queue/Chain.antt =====
-- Doubly linked segments of the array `q` (include/q.h), and what the writes of
-- xinu/sys/common/queue.c and insert.c do to them.
use xinu_swd.Prelude.{
  ◌≡◌, refl, Bool, true, false, ◌||◌, List, [], ◌∷◌, ◌++◌, inl, inr, arith, Bool-cases,
}
use xinu_swd.Prelude.Int.{ℤ, ◌==ℤ◌, ==ℤ-refl, ==ℤ_comm, ==ℤ_iff, eq_of_==ℤ}
use mathlib.Core.List.{append-nil}
use xinu_swd.Queue.{update}

abbrev pub has : ℤ → List ℤ → Bool
has a [] = false
has a (x ∷ xs) = (a ==ℤ x) || has a xs

-- No entry twice.
abbrev pub Distinct : List ℤ → Type 0
Distinct [] = Unit
Distinct (x ∷ xs) = (has x xs ≡ false) × Distinct xs

pub has-append : (a : ℤ) (xs ys : List ℤ) → has a (xs ++ ys) ≡ (has a xs || has a ys)
has-append a [] ys = refl
has-append a (x ∷ xs) ys = ground (arith, has-append a xs ys)

-- The last entry of `p ∷ xs`.
abbrev pub last : ℤ → List ℤ → ℤ
last p [] = p
last p (x ∷ xs) = last x xs

-- From `p` the links `nx` lead through `xs` to `t`, and `pv` leads back.
abbrev pub Chain : (ℤ → ℤ) → (ℤ → ℤ) → ℤ → List ℤ → ℤ → Type 0
Chain nx pv p [] t = (nx p ≡ t) × (pv t ≡ p)
Chain nx pv p (x ∷ xs) t = (nx p ≡ x) × (pv x ≡ p) × Chain nx pv x xs t

pub Chain-append :
    (nx pv : ℤ → ℤ) (p : ℤ) (xs : List ℤ) (y : ℤ) (ys : List ℤ) (t : ℤ)
    → Chain nx pv p xs y
    → Chain nx pv y ys t
    → Chain nx pv p (xs ++ y ∷ ys) t
Chain-append nx pv p [] y ys t c d = (c.0, c.1, d)
Chain-append nx pv p (x ∷ xs) y ys t c d = (c.0, c.1, Chain-append nx pv x xs y ys t c.2 d)

pub Chain-split :
    (nx pv : ℤ → ℤ) (p : ℤ) (xs : List ℤ) (y : ℤ) (ys : List ℤ) (t : ℤ)
    → Chain nx pv p (xs ++ y ∷ ys) t
    → Chain nx pv p xs y × Chain nx pv y ys t
Chain-split nx pv p [] y ys t c = ((c.0, c.1), c.2)
Chain-split nx pv p (x ∷ xs) y ys t c =
    let (a, b) = Chain-split nx pv x xs y ys t c.2 in ((c.0, c.1, a), b)

pub Chain-last :
    (nx pv : ℤ → ℤ) (p : ℤ) (xs : List ℤ) (t : ℤ)
    → Chain nx pv p xs t
    → (pv t ≡ last p xs) × (nx (last p xs) ≡ t)
Chain-last nx pv p [] t c = (c.1, c.0)
Chain-last nx pv p (x ∷ xs) t c = Chain-last nx pv x xs t c.2

-- Writes to other entries leave a segment alone.
pub Chain-frame_next :
    (nx pv : ℤ → ℤ) (p : ℤ) (xs : List ℤ) (t a v : ℤ)
    → has a (p ∷ xs) ≡ false
    → Chain nx pv p xs t
    → Chain (update nx a v) pv p xs t
Chain-frame_next nx pv p [] t a v out c = ground (arith, ==ℤ_comm a p)
Chain-frame_next nx pv p (x ∷ xs) t a v out c =
    (ground (arith, ==ℤ_comm a p), c.1, Chain-frame_next nx pv x xs t a v (ground arith) c.2)

pub Chain-frame_prev :
    (nx pv : ℤ → ℤ) (p : ℤ) (xs : List ℤ) (t a v : ℤ)
    → has a (xs ++ t ∷ []) ≡ false
    → Chain nx pv p xs t
    → Chain nx (update pv a v) p xs t
Chain-frame_prev nx pv p [] t a v out c = ground (arith, ==ℤ_comm a t)
Chain-frame_prev nx pv p (x ∷ xs) t a v out c =
    (c.0, ground (arith, ==ℤ_comm a x), Chain-frame_prev nx pv x xs t a v (ground arith) c.2)

pub has-last : (p : ℤ) (xs : List ℤ) → has (last p xs) (p ∷ xs) ≡ true
has-last p [] = ground (arith, ==ℤ-refl p)
has-last p (x ∷ xs) = ground (arith, has-last x xs)

-- What is in a list differs from what is not.
pub ne_of_has : (a b : ℤ) (xs : List ℤ) → has a xs ≡ true → has b xs ≡ false → (a ==ℤ b) ≡ false
ne_of_has a b [] h k = absurd (cc)
ne_of_has a b (x ∷ xs) h k = ground (arith, ne_of_has a b xs, ==ℤ_iff a b, ==ℤ_iff a x, ==ℤ_iff b x)

-- Writes at both ends of the last link make the segment end at `u`.
pub Chain-retarget :
    (nx pv : ℤ → ℤ) (p : ℤ) (xs : List ℤ) (t u : ℤ)
    → Distinct (p ∷ xs)
    → has u xs ≡ false
    → Chain nx pv p xs t
    → Chain (update nx (last p xs) u) (update pv u (last p xs)) p xs u
Chain-retarget nx pv p [] t u d out c = ground (arith, ==ℤ-refl p, ==ℤ-refl u)
Chain-retarget nx pv p (x ∷ xs) t u d out c = (
  ground (arith, ne_of_has (last x xs) p (x ∷ xs) (has-last x xs), ==ℤ_comm (last x xs) p),
  ground (arith, ==ℤ_comm u x),
  Chain-retarget nx pv x xs t u d.1 (ground arith) c.2,
)

pub Distinct-split :
    (xs ys : List ℤ)
    → Distinct (xs ++ ys)
    → Distinct xs × Distinct ys × ((a : ℤ) → has a xs ≡ true → has a ys ≡ false)
Distinct-split [] ys d = (tt, d, λ a h. absurd (cc))
Distinct-split (x ∷ xs) ys d =
    let (dx, dy, apart) = Distinct-split xs ys d.1 in
    (
      (ground (arith, has-append x xs ys), dx),
      dy,
      λ a h. elim (Bool-cases (a ==ℤ x)) [
        | inl e ↦ rw (eq_of_==ℤ a x e) (ground (arith, has-append x xs ys))
        | inr n ↦ apart a (ground arith)
      ],
    )

pub not_has_of_apart : (a : ℤ) (xs : List ℤ) → ¬ (has a xs ≡ true) → has a xs ≡ false
not_has_of_apart a xs k = elim (Bool-cases (has a xs)) [ inl e ↦ absurd (k e) | inr e ↦ e ]

-- An item `i` linked in before `n`, in the order of the writes of queue.c and insert.c.
module _ (nx pv : ℤ → ℤ) (h : ℤ) (xs : List ℤ) (n i : ℤ) where
  abbrev pub linked_next : ℤ → ℤ
  linked_next = update (update nx i n) (last h xs) i

  abbrev pub linked_prev : ℤ → ℤ
  linked_prev = update (update pv i (last h xs)) n i

  pub Chain-link :
      Distinct (h ∷ xs)
      → has i (h ∷ xs) ≡ false
      → has n (xs ++ i ∷ []) ≡ false
      → Chain nx pv h xs n
      → Chain linked_next linked_prev h (xs ++ i ∷ []) n
  Chain-link d out apart c =
      Chain-append linked_next linked_prev h xs i [] n
        (Chain-frame_prev linked_next (update pv i (last h xs)) h xs i n i apart (
          Chain-retarget (update nx i n) pv h xs n i d (ground arith)
            (Chain-frame_next nx pv h xs n i n out c)))
        (ground (
          arith,
          ==ℤ-refl i,
          ==ℤ-refl n,
          ==ℤ_comm i (last h xs),
          ne_of_has (last h xs) i (h ∷ xs) (has-last h xs),
        ))

  -- The rest of the list, behind `n`, is as it was.
  pub Chain-link_rest :
      (ys : List ℤ) (t : ℤ)
      → has i (n ∷ ys) ≡ false
      → has (last h xs) (n ∷ ys) ≡ false
      → has i (ys ++ t ∷ []) ≡ false
      → has n (ys ++ t ∷ []) ≡ false
      → Chain nx pv n ys t
      → Chain linked_next linked_prev n ys t
  Chain-link_rest ys t a b c d s =
      Chain-frame_prev linked_next (update pv i (last h xs)) n ys t n i d (
        Chain-frame_prev linked_next pv n ys t i (last h xs) c (
          Chain-frame_next (update nx i n) pv n ys t (last h xs) i b
            (Chain-frame_next nx pv n ys t i n a s)))

-- An item `x` behind `xs` taken out, whatever follows it.
module _ (nx pv : ℤ → ℤ) (h : ℤ) (xs : List ℤ) (x : ℤ) where
  -- The write of `qprev` finds the index `v` of the follower.
  pub Chain-unlink :
      (ys : List ℤ) (t : ℤ)
      → Distinct ((h ∷ xs) ++ (x ∷ (ys ++ t ∷ [])))
      → Chain nx pv h xs x
      → Chain nx pv x ys t
      → Chain (update nx (last h xs) (nx x)) (update pv (nx x) (last h xs)) h (xs ++ ys) t
  Chain-unlink [] t d c e =
      let (dx, dy, apart) = Distinct-split (h ∷ xs) (x ∷ t ∷ []) d in
      rw (append-nil, e.0)
        (Chain-retarget nx pv h xs x t dx
          (not_has_of_apart t xs (λ k. ground (arith, apart t, ==ℤ-refl t))) c)
  Chain-unlink (y ∷ ys) t d c e =
      let (dx, dy, apart) = Distinct-split (h ∷ xs) (x ∷ y ∷ (ys ++ t ∷ [])) d in
      rw e.0 (
        Chain-append (update nx (last h xs) y) (update pv y (last h xs)) h xs y ys t
          (Chain-retarget nx pv h xs x y dx
            (not_has_of_apart y xs (λ k. ground (arith, apart y, ==ℤ-refl y))) c)
          (Chain-frame_prev (update nx (last h xs) y) pv y ys t y (last h xs) (ground arith) (
            Chain-frame_next nx pv y ys t (last h xs) y
              (ground
                (arith, apart (last h xs) (has-last h xs), has-append (last h xs) ys (t ∷ [])))
              e.2)))
