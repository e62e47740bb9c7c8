-- ===== src/Queue/Order.antt =====
-- The loop of xinu/sys/common/insert.c: where a key goes, and the order of the list.
use xinu_swd.Prelude.{
  ℕ, zero, suc, ◌<◌, ◌≡◌, refl, sym, true, false, some, ◌||◌, List, [], ◌∷◌, ◌++◌, inl, inr, arith,
  Bool-cases, if◌then◌else◌, length,
}
use xinu_swd.Prelude.Int.{ℤ, ◌==ℤ◌, ◌≤ℤ◌, ltb_ℤ, ==ℤ_comm, ==ℤ-refl, eq_of_==ℤ}
use mathlib.Core.Path.{subst}
use xinu_swd.Queue.{Qtab, update, seek, link_in, insert, rounds}
use xinu_swd.Queue.Chain.{has, last, has-last, Chain}
use xinu_swd.Queue.Lists.{IsSlot, IsQueue, next_of, linked-IsQueue, IsQueue-back, next_ne}
use xinu_swd.Queue.Frame.{SameOutside, cells, linked-same}
use xinu_swd.Queue.Size.{length-lt-rounds}

-- `i` put with key `key` in front of the first entry whose key is not below it.
unfoldable pub place : (ℤ → ℤ) → ℤ → ℤ → List ℤ → List ℤ
place keys i key [] = i ∷ []
place keys i key (x ∷ xs) = if ltb_ℤ (keys x) key then x ∷ place keys i key xs else i ∷ x ∷ xs

-- The entries that `place` passes over, and those it stops at.
abbrev before : (ℤ → ℤ) → ℤ → List ℤ → List ℤ
before keys key [] = []
before keys key (x ∷ xs) = if ltb_ℤ (keys x) key then x ∷ before keys key xs else []

abbrev behind : (ℤ → ℤ) → ℤ → List ℤ → List ℤ
behind keys key [] = []
behind keys key (x ∷ xs) = if ltb_ℤ (keys x) key then behind keys key xs else x ∷ xs

before-append-behind :
    (keys : ℤ → ℤ) (key : ℤ) (xs : List ℤ) → before keys key xs ++ behind keys key xs ≡ xs
before-append-behind keys key [] = refl
before-append-behind keys key (x ∷ xs) = ground (arith, before-append-behind keys key xs)

place-append :
    (keys : ℤ → ℤ) (i key : ℤ) (xs : List ℤ)
    → place keys i key xs ≡ before keys key xs ++ i ∷ behind keys key xs
unfolding place
place-append keys i key [] = refl
place-append keys i key (x ∷ xs) = ground (arith, place-append keys i key xs)

-- With a tail whose key is no smaller the loop stops at the entry that `place` stops at.
seek_lem :
    (n : ℕ) (t : Qtab) (key p : ℤ) (xs : List ℤ) (tl : ℤ)
    → length xs < n
    → Chain t.qnext t.qprev p xs tl
    → key ≤ℤ t.qkey tl
    → seek n t key (t.qnext p) ≡ some (next_of tl (behind t.qkey key xs))
unfolding seek
seek_lem zero t key p xs tl h c k = absurd (omega arith)
seek_lem (suc n) t key p [] tl h c k = rw c.0 (ground arith)
seek_lem (suc n) t key p (x ∷ xs) tl h c k = rw c.0 (ground (arith, seek_lem n t key x xs tl))

-- Keys that do not fall along the list.
abbrev pub AtLeast : (ℤ → ℤ) → ℤ → List ℤ → Type 0
AtLeast keys k [] = Unit
AtLeast keys k (x ∷ xs) = (k ≤ℤ keys x) × AtLeast keys k xs

abbrev pub IsSorted : (ℤ → ℤ) → List ℤ → Type 0
IsSorted keys [] = Unit
IsSorted keys (x ∷ xs) = AtLeast keys (keys x) xs × IsSorted keys xs

AtLeast-mono :
    (keys : ℤ → ℤ) (k l : ℤ) (xs : List ℤ) → k ≤ℤ l → AtLeast keys l xs → AtLeast keys k xs
AtLeast-mono keys k l [] h a = tt
AtLeast-mono keys k l (x ∷ xs) h a = (omega arith, AtLeast-mono keys k l xs h a.1)

-- A key written elsewhere changes nothing.
AtLeast-update :
    (keys : ℤ → ℤ) (i key k : ℤ) (xs : List ℤ)
    → has i xs ≡ false
    → AtLeast keys k xs
    → AtLeast (update keys i key) k xs
AtLeast-update keys i key k [] out a = tt
AtLeast-update keys i key k (x ∷ xs) out a =
    (ground (arith, ==ℤ_comm i x), AtLeast-update keys i key k xs (ground arith) a.1)

pub IsSorted-update :
    (keys : ℤ → ℤ) (i key : ℤ) (xs : List ℤ)
    → has i xs ≡ false
    → IsSorted keys xs
    → IsSorted (update keys i key) xs
IsSorted-update keys i key [] out s = tt
IsSorted-update keys i key (x ∷ xs) out s =
    let e : update keys i key x ≡ keys x = ground (arith, ==ℤ_comm i x) in
    (
      rw e (AtLeast-update keys i key (keys x) xs (ground arith) s.0),
      IsSorted-update keys i key xs (ground arith) s.1,
    )

AtLeast-place :
    (keys : ℤ → ℤ) (i key k : ℤ) (xs : List ℤ)
    → has i xs ≡ false
    → k ≤ℤ key
    → AtLeast keys k xs
    → AtLeast (update keys i key) k (place keys i key xs)
unfolding place
AtLeast-place keys i key k [] out h a = (ground (arith, ==ℤ-refl i), tt)
AtLeast-place keys i key k (x ∷ xs) out h a = elim (Bool-cases (ltb_ℤ (keys x) key)) [
  | inl e ↦ rw e (ground (arith, ==ℤ_comm i x), AtLeast-place keys i key k xs (ground arith) h a.1)
  | inr e ↦ rw e (ground (arith, ==ℤ-refl i), AtLeast-update keys i key k (x ∷ xs) out a)
]

pub place-IsSorted :
    (keys : ℤ → ℤ) (i key : ℤ) (xs : List ℤ)
    → has i xs ≡ false
    → IsSorted keys xs
    → IsSorted (update keys i key) (place keys i key xs)
unfolding place
place-IsSorted keys i key [] out s = (tt, tt)
place-IsSorted keys i key (x ∷ xs) out s = elim (Bool-cases (ltb_ℤ (keys x) key)) [
  | inl e ↦
      let same : update keys i key x ≡ keys x = ground (arith, ==ℤ_comm i x) in
      rw (e, same)
        (
          AtLeast-place keys i key (keys x) xs (ground arith) (ground arith) s.0,
          place-IsSorted keys i key xs (ground arith) s.1,
        )
  | inr e ↦
      let here : update keys i key i ≡ key = ground (arith, ==ℤ-refl i) in
      rw e (
        subst (λ k. AtLeast (update keys i key) k (x ∷ xs)) (sym here)
            (AtLeast-update keys i key key (x ∷ xs) out
              (ground arith, AtLeast-mono keys key (keys x) xs (ground arith) s.0)),
        IsSorted-update keys i key (x ∷ xs) out s,
      )
]

pub has-place :
    (keys : ℤ → ℤ) (i key a : ℤ) (xs : List ℤ)
    → has a (place keys i key xs) ≡ ((a ==ℤ i) || has a xs)
unfolding place
has-place keys i key a [] = refl
has-place keys i key a (x ∷ xs) = ground (arith, has-place keys i key a xs)

module _ {t : Qtab} {h tl : ℤ} where
  -- On a well-linked list, for a process not on it and a key that the tail's key does not fall
  -- below: `insert` ends with the well-linked list in which the process stands before the first one
  -- whose key is not smaller, sets that one key, and touches no links of other lists.
  pub insert-place :
      (xs : List ℤ) (i key : ℤ)
      → IsQueue t h tl xs
      → IsSlot i
      → has i xs ≡ false
      → key ≤ℤ t.qkey tl
      → (t' : Qtab) × (insert i h key t ≡ some t')
        × IsQueue t' h tl (place t.qkey i key xs)
        × SameOutside (i ∷ cells h xs tl) t t'
        × (t'.qkey ≡ update t.qkey i key)
  unfolding insert link_in
  insert-place xs i key is slot out top =
      let front = before t.qkey key xs in
      let rest = behind t.qkey key xs in
      let e : front ++ rest ≡ xs = before-append-behind t.qkey key xs in
      let is' : IsQueue t h tl (front ++ rest) = rw e is in
      let out' : has i (front ++ rest) ≡ false = rw e out in
      let found =
        seek_lem rounds t key h xs tl (length-lt-rounds xs is.distinct is.slots) is.chain top in
      let ne = next_ne front rest i is' slot out' in
      let back = IsQueue-back front rest is' in
      (
        link_in i key (next_of tl rest) t,
        rw (found, insert),
        rw (place-append t.qkey i key xs) (
            linked-IsQueue (link_in i key (next_of tl rest) t) front rest i is' slot out' (rw back)
              (rw back)),
        rw e at (
            linked-same t (link_in i key (next_of tl rest) t) h front rest tl i (rw back)
              (rw back)),
        refl,
      )

AtLeast-remove :
    (keys : ℤ → ℤ) (k x : ℤ) (xs ys : List ℤ)
    → AtLeast keys k (xs ++ x ∷ ys)
    → AtLeast keys k (xs ++ ys)
AtLeast-remove keys k x [] ys a = a.1
AtLeast-remove keys k x (y ∷ xs) ys a = (a.0, AtLeast-remove keys k x xs ys a.1)

pub IsSorted-remove :
    (keys : ℤ → ℤ) (x : ℤ) (xs ys : List ℤ)
    → IsSorted keys (xs ++ x ∷ ys)
    → IsSorted keys (xs ++ ys)
IsSorted-remove keys x [] ys s = s.1
IsSorted-remove keys x (y ∷ xs) ys s =
    (AtLeast-remove keys (keys y) x xs ys s.0, IsSorted-remove keys x xs ys s.1)

AtLeast-has :
    (keys : ℤ → ℤ) (k a : ℤ) (xs : List ℤ) → AtLeast keys k xs → has a xs ≡ true → k ≤ℤ keys a
AtLeast-has keys k a [] s h = absurd (cc)
AtLeast-has keys k a (x ∷ xs) s h = elim (Bool-cases (a ==ℤ x)) [
  | inl e ↦ subst (λ b. k ≤ℤ keys b) (sym (eq_of_==ℤ a x e)) s.0
  | inr e ↦ AtLeast-has keys k a xs s.1 (ground arith)
]

-- The last key is the largest.
pub sorted-le-last :
    (keys : ℤ → ℤ) (h a : ℤ) (xs : List ℤ)
    → IsSorted keys xs
    → has a xs ≡ true
    → keys a ≤ℤ keys (last h xs)
sorted-le-last keys h a [] s k = absurd (cc)
sorted-le-last keys h a (x ∷ []) s k =
    let e : (a ==ℤ x) ≡ true = ground arith in
    subst (λ b. keys b ≤ℤ keys x) (sym (eq_of_==ℤ a x e)) (omega arith)
sorted-le-last keys h a (x ∷ y ∷ xs) s k = elim (Bool-cases (a ==ℤ x)) [
  | inl e ↦
      subst (λ b. keys b ≤ℤ keys (last y xs)) (sym (eq_of_==ℤ a x e))
        (AtLeast-has keys (keys x) (last y xs) (y ∷ xs) s.0 (has-last y xs))
  | inr e ↦ sorted-le-last keys x a (y ∷ xs) s.1 (ground arith)
]
