-- ===== src/Queue/Frame.antt =====
-- Lists that share no entry: an operation of xinu/sys/common on one leaves the others alone.
use xinu_swd.Prelude.{◌≡◌, refl, true, false, List, [], ◌∷◌, ◌++◌, inl, inr, arith, Bool-cases}
use xinu_swd.Prelude.Int.{ℤ, ◌==ℤ◌, ==ℤ-refl, ==ℤ_comm}
use mathlib.Core.Path.{subst}
use mathlib.Core.List.{append-nil, append_assoc}
use xinu_swd.Queue.{Qtab, update, enqueue, dequeue}
use xinu_swd.Queue.Chain.{has, has-append, last, has-last, Chain, ne_of_has}
use xinu_swd.Queue.Lists.{IsSlot, IsQueue, next_of, IsQueue-back, IsQueue-next, next_ne}

-- All links but those of the entries `zs` agree.
abbrev pub SameOutside : List ℤ → Qtab → Qtab → Type 0
SameOutside zs t t' =
    (a : ℤ) → has a zs ≡ false → (t'.qnext a ≡ t.qnext a) × (t'.qprev a ≡ t.qprev a)

abbrev pub Disjoint : List ℤ → List ℤ → Type 0
Disjoint xs ys = (a : ℤ) → has a xs ≡ true → has a ys ≡ false

Chain-same :
    (t t' : Qtab) (zs : List ℤ) (p : ℤ) (xs : List ℤ) (tl : ℤ)
    → SameOutside zs t t'
    → Disjoint (p ∷ (xs ++ tl ∷ [])) zs
    → Chain t.qnext t.qprev p xs tl
    → Chain t'.qnext t'.qprev p xs tl
Chain-same t t' zs p [] tl same apart c =
    ground (arith, same p, same tl, apart p, apart tl, ==ℤ-refl p, ==ℤ-refl tl)
Chain-same t t' zs p (x ∷ xs) tl same apart c = (
  ground (arith, same p, apart p, ==ℤ-refl p),
  ground (arith, same x, apart x, ==ℤ-refl x),
  Chain-same t t' zs x xs tl same (λ a h. apart a (ground arith)) c.2,
)

-- The entries that a list occupies.
abbrev pub cells : ℤ → List ℤ → ℤ → List ℤ
cells h xs tl = h ∷ (xs ++ tl ∷ [])

pub IsQueue-same :
    (t t' : Qtab) (zs : List ℤ) (h tl : ℤ) (xs : List ℤ)
    → SameOutside zs t t'
    → Disjoint (cells h xs tl) zs
    → IsQueue t h tl xs
    → IsQueue t' h tl xs
IsQueue-same t t' zs h tl xs same apart is = record {
  chain = Chain-same t t' zs h xs tl same apart is.chain;
  distinct = is.distinct;
  ends = is.ends;
  slots = is.slots;
  head_out = is.head_out;
  tail_out = is.tail_out;
}

has-next_cells :
    (h : ℤ) (xs ys : List ℤ) (tl : ℤ) → has (next_of tl ys) (cells h (xs ++ ys) tl) ≡ true
has-next_cells h xs [] tl = ground (arith, has-append tl (xs ++ []) (tl ∷ []), ==ℤ-refl tl)
has-next_cells h xs (y ∷ ys) tl =
    ground (arith, has-append y (xs ++ y ∷ ys) (tl ∷ []), has-append y xs (y ∷ ys), ==ℤ-refl y)

has-last-cells : (h : ℤ) (xs ys : List ℤ) (tl : ℤ) → has (last h xs) (cells h (xs ++ ys) tl) ≡ true
has-last-cells h xs ys tl = ground (
  arith,
  has-last h xs,
  has-append (last h xs) xs ys,
  has-append (last h xs) (xs ++ ys) (tl ∷ []),
)

-- A table whose links are those of `i` linked in between `xs` and `ys`.
pub linked-same :
    (t t' : Qtab) (h : ℤ) (xs ys : List ℤ) (tl i : ℤ)
    → t'.qnext ≡ update (update t.qnext i (next_of tl ys)) (last h xs) i
    → t'.qprev ≡ update (update t.qprev i (last h xs)) (next_of tl ys) i
    → SameOutside (i ∷ cells h (xs ++ ys) tl) t t'
linked-same t t' h xs ys tl i en ep a out =
    rw (en, ep)
      (
        ground (
          arith,
          ne_of_has (last h xs) a (cells h (xs ++ ys) tl) (has-last-cells h xs ys tl),
          ==ℤ_comm a (last h xs),
        ),
        ground (
          arith,
          ne_of_has (next_of tl ys) a (cells h (xs ++ ys) tl) (has-next_cells h xs ys tl),
          ==ℤ_comm a (next_of tl ys),
        ),
      )

pub last-snoc : (h : ℤ) (xs : List ℤ) (x : ℤ) → last h (xs ++ x ∷ []) ≡ x
last-snoc h [] x = refl
last-snoc h (y ∷ xs) x = last-snoc y xs x

module _ {t : Qtab} {h tl : ℤ} where
  pub enqueue-same :
      (xs : List ℤ) (i : ℤ)
      → IsQueue t h tl xs
      → IsSlot i
      → has i xs ≡ false
      → SameOutside (i ∷ cells h xs tl) t (enqueue i tl t)
  unfolding enqueue
  enqueue-same xs i is slot out =
      let is' : IsQueue t h tl (xs ++ []) = rw append-nil is in
      let out' : has i (xs ++ []) ≡ false = rw append-nil out in
      rw append-nil at (
        linked-same t (enqueue i tl t) h xs [] tl i
          (rw (next_ne xs [] i is' slot out', IsQueue-back xs [] is'))
          (rw (IsQueue-back xs [] is')))

  pub dequeue-same :
      (xs : List ℤ) (x : ℤ) (ys : List ℤ)
      → IsQueue t h tl (xs ++ x ∷ ys)
      → SameOutside (cells h (xs ++ x ∷ ys) tl) t (dequeue x t)
  unfolding dequeue
  dequeue-same xs x ys is a out =
      let snoc : IsQueue t h tl ((xs ++ x ∷ []) ++ ys) = rw append_assoc is in
      let back : t.qprev x ≡ last h xs = IsQueue-back xs (x ∷ ys) is in
      let next : t.qnext x ≡ next_of tl ys =
        rw last-snoc at (IsQueue-next (xs ++ x ∷ []) ys snoc) in
      let far : (a ==ℤ next_of tl ys) ≡ false = rw (==ℤ_comm a (next_of tl ys)) (
        ne_of_has (next_of tl ys) a (cells h (xs ++ x ∷ ys) tl)
          (subst (λ l. has (next_of tl ys) (cells h l tl) ≡ true) (append_assoc xs (x ∷ []) ys)
            (has-next_cells h (xs ++ x ∷ []) ys tl))
          out) in
      let near : (a ==ℤ last h xs) ≡ false = rw (==ℤ_comm a (last h xs)) (
        ne_of_has (last h xs) a (cells h (xs ++ x ∷ ys) tl) (has-last-cells h xs (x ∷ ys) tl)
          out) in
      elim (Bool-cases (x ==ℤ last h xs)) [
        | inl e ↦ rw (back, e, next, far, near) (refl, refl)
        | inr e ↦ rw (back, e, next, far, near) (refl, refl)
      ]
