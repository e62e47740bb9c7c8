-- ===== src/Queue/Delta.antt =====
-- The delta list of xinu/sys/common/insertd.c: a key counts from the entry before it.
use xinu_swd.Prelude.{
  ℕ, zero, suc, ◌<◌, ◌≡◌, refl, ap, true, false, some, ◌||◌, List, [], ◌∷◌, ◌++◌, inl, inr, arith,
  Bool-cases, if◌then◌else◌, length,
}
use xinu_swd.Prelude.Int.{
  ℤ, pos, ◌==ℤ◌, ◌+ℤ◌, ◌-ℤ◌, ◌≤ℤ◌, ltb_ℤ, ==ℤ_comm, ==ℤ-refl, lt→ltb_ℤ, le→ltb_ℤ, +ℤ_parts,
  -ℤ_parts, int_laws,
}
use xinu_swd.Conf.{n_proc}
use xinu_swd.Queue.{Qtab, update, Spot, seekd, link_ind, insertd, rounds}
use xinu_swd.Queue.Chain.{has, has-append, Distinct, ne_of_has, last, Chain}
use xinu_swd.Queue.Lists.{IsSlot, AllSlots-split, IsQueue, next_of, linked-IsQueue}
use xinu_swd.Queue.Frame.{SameOutside, cells, linked-same}
use xinu_swd.Queue.Size.{length-lt-rounds}

-- The processes with the times at which they are due, counted from `at`.
abbrev pub dues : (ℤ → ℤ) → ℤ → List ℤ → List (ℤ × ℤ)
dues keys at [] = []
dues keys at (x ∷ xs) = (x, at +ℤ keys x) ∷ dues keys (at +ℤ keys x) xs

-- A process put in front of the first one that is due no earlier.
abbrev pub schedule : ℤ → ℤ → List (ℤ × ℤ) → List (ℤ × ℤ)
schedule i due [] = (i, due) ∷ []
schedule i due ((x, d) ∷ l) =
    if ltb_ℤ d due then (x, d) ∷ schedule i due l else (i, due) ∷ (x, d) ∷ l

-- No delta is negative.
abbrev pub NonNeg : (ℤ → ℤ) → List ℤ → Type 0
NonNeg keys [] = Unit
NonNeg keys (x ∷ xs) = (pos 0 ≤ℤ keys x) × NonNeg keys xs

-- What the loop passes over, what it stops at, and the part of the key that is left.
abbrev before : (ℤ → ℤ) → ℤ → List ℤ → List ℤ
before keys key [] = []
before keys key (x ∷ xs) = if ltb_ℤ (keys x) key then x ∷ before keys (key -ℤ keys x) xs else []

abbrev behind : (ℤ → ℤ) → ℤ → List ℤ → List ℤ
behind keys key [] = []
behind keys key (x ∷ xs) = if ltb_ℤ (keys x) key then behind keys (key -ℤ keys x) xs else x ∷ xs

abbrev left_over : (ℤ → ℤ) → ℤ → List ℤ → ℤ
left_over keys key [] = key
left_over keys key (x ∷ xs) = if ltb_ℤ (keys x) key then left_over keys (key -ℤ keys x) xs else key

-- The keys after the insertion.
abbrev shifted : (ℤ → ℤ) → ℤ → ℤ → List ℤ → ℤ → ℤ
shifted keys i key [] = update keys i key
shifted keys i key (x ∷ xs) =
    if ltb_ℤ (keys x) key
    then shifted keys i (key -ℤ keys x) xs
    else update (update keys i key) x (keys x -ℤ key)

before-append-behind :
    (keys : ℤ → ℤ) (key : ℤ) (xs : List ℤ) → before keys key xs ++ behind keys key xs ≡ xs
before-append-behind keys key [] = refl
before-append-behind keys key (x ∷ xs) =
    ground (arith, before-append-behind keys (key -ℤ keys x) xs)

seekd_lem :
    (n : ℕ) (t : Qtab) (key p : ℤ) (xs : List ℤ) (tl : ℤ)
    → length xs < n
    → Chain t.qnext t.qprev p xs tl
    → NonNeg t.qkey xs
    → key ≤ℤ t.qkey tl
    → seekd n t key p (t.qnext p)
      ≡ some (record {
        prev = last p (before t.qkey key xs);
        next = next_of tl (behind t.qkey key xs);
        key = left_over t.qkey key xs;
      })
unfolding seekd
seekd_lem zero t key p xs tl h c s k = absurd (omega arith)
seekd_lem (suc n) t key p [] tl h c s k = rw c.0 (ground arith)
seekd_lem (suc n) t key p (x ∷ xs) tl h c s k = rw c.0 (elim (Bool-cases (ltb_ℤ (t.qkey x) key)) [
  | inl e ↦ rw e (
      seekd_lem n t (key -ℤ t.qkey x) x xs tl (omega arith) c.2 s.1
        (omega (arith, -ℤ_parts key (t.qkey x))))
  | inr e ↦ rw e
])

-- Keys that agree along a list give the same times.
dues_congr :
    (f g : ℤ → ℤ) (at : ℤ) (xs : List ℤ)
    → ((a : ℤ) → has a xs ≡ true → f a ≡ g a)
    → dues f at xs ≡ dues g at xs
dues_congr f g at [] h = refl
dues_congr f g at (x ∷ xs) h =
    rw (h x (ground (arith, ==ℤ-refl x)))
      (ap (λ l. (x, at +ℤ g x) ∷ l) (dues_congr f g (at +ℤ g x) xs (λ a k. h a (ground arith))))

shifted_out :
    (keys : ℤ → ℤ) (i key a : ℤ) (xs : List ℤ)
    → (a ==ℤ i) ≡ false
    → has a xs ≡ false
    → shifted keys i key xs a ≡ keys a
shifted_out keys i key a [] ne out = ground arith
shifted_out keys i key a (x ∷ xs) ne out = elim (Bool-cases (ltb_ℤ (keys x) key)) [
  | inl e ↦ rw e (shifted_out keys i (key -ℤ keys x) a xs ne (ground arith))
  | inr e ↦ rw e (ground arith)
]

ltb-add : (a b c : ℤ) → ltb_ℤ (a +ℤ b) (a +ℤ c) ≡ ltb_ℤ b c
ltb-add a b c = ground (arith, +ℤ_parts a b, +ℤ_parts a c)

add-sub : (a b c : ℤ) → (a +ℤ b) +ℤ (c -ℤ b) ≡ a +ℤ c
add-sub a b c = omega int_laws

-- With the keys that the loop leaves, the new process is due at its time and the others are due
-- when they were.
schedule_lem :
    (keys : ℤ → ℤ) (i key at : ℤ) (xs : List ℤ)
    → has i xs ≡ false
    → Distinct xs
    → dues (shifted keys i key xs) at (before keys key xs ++ i ∷ behind keys key xs)
      ≡ schedule i (at +ℤ key) (dues keys at xs)
schedule_lem keys i key at [] out d =
    let e : update keys i key i ≡ key = ground (arith, ==ℤ-refl i) in rw e
schedule_lem keys i key at (x ∷ xs) out d = elim (Bool-cases (ltb_ℤ (keys x) key)) [
  | inl e ↦
      let rest = key -ℤ keys x in
      let same : shifted keys i rest xs x ≡ keys x =
        shifted_out keys i rest x xs (ground (arith, ==ℤ_comm i x)) d.0 in
      let ih = schedule_lem keys i rest (at +ℤ keys x) xs (ground arith) d.1 in
      rw (e, same, ltb-add, e, ih, add-sub)
  | inr e ↦
      let keys' = update (update keys i key) x (keys x -ℤ key) in
      let here : keys' i ≡ key = ground (arith, ==ℤ-refl i) in
      let next : keys' x ≡ keys x -ℤ key = ground (arith, ==ℤ-refl x) in
      let ne : has i (x ∷ xs) ≡ false = out in
      rw (e, ltb-add, e, here, next, add-sub)
        (ap (λ l. (i, at +ℤ key) ∷ (x, at +ℤ keys x) ∷ l)
          (dues_congr keys' keys (at +ℤ keys x) xs
            (λ a k. ground (arith, ne_of_has a i xs k, ne_of_has a x xs k))))
]

-- The same keys by what stands behind the place.
abbrev shifted_at : (ℤ → ℤ) → ℤ → ℤ → List ℤ → ℤ → ℤ
shifted_at keys i r [] = update keys i r
shifted_at keys i r (y ∷ ys) = update (update keys i r) y (keys y -ℤ r)

shifted_lem :
    (keys : ℤ → ℤ) (i key : ℤ) (xs : List ℤ)
    → shifted keys i key xs ≡ shifted_at keys i (left_over keys key xs) (behind keys key xs)
shifted_lem keys i key [] = refl
shifted_lem keys i key (x ∷ xs) = elim (Bool-cases (ltb_ℤ (keys x) key)) [
  | inl e ↦ rw e (shifted_lem keys i (key -ℤ keys x) xs)
  | inr e ↦ rw e
]

has-middle : (a i : ℤ) (xs ys : List ℤ) → has a (xs ++ i ∷ ys) ≡ ((a ==ℤ i) || has a (xs ++ ys))
has-middle a i [] ys = refl
has-middle a i (x ∷ xs) ys = ground (arith, has-middle a i xs ys)

link_ind-links :
    (i : ℤ) (s : Spot) (t : Qtab)
    → ((link_ind i s t).qnext ≡ update (update t.qnext i s.next) s.prev i)
      × ((link_ind i s t).qprev ≡ update (update t.qprev i s.prev) s.next i)
unfolding link_ind
link_ind-links i s t = elim (Bool-cases (ltb_ℤ s.next n_proc)) [
  | inl e ↦ rw e (refl, refl)
  | inr e ↦ rw e (refl, refl)
]

module _ {t : Qtab} {h tl : ℤ} where
  link_ind-keys :
      (xs ys : List ℤ) (i r : ℤ)
      → IsQueue t h tl (xs ++ ys)
      → has i (xs ++ ys) ≡ false
      → (link_ind i (record { prev = last h xs; next = next_of tl ys; key = r }) t).qkey
        ≡ shifted_at t.qkey i r ys
  unfolding link_ind
  link_ind-keys xs [] i r is out = rw (le→ltb_ℤ tl n_proc is.tail_out)
  link_ind-keys xs (y ∷ ys) i r is out =
      let (a, b) = AllSlots-split xs (y ∷ ys) is.slots in
      let ne : (y ==ℤ i) ≡ false = ground (arith, has-append i xs (y ∷ ys), ==ℤ_comm y i) in
      rw (lt→ltb_ℤ y n_proc b.0.1, ne)

  -- On a well-linked list of non-negative deltas, for a process not on it and a key that the tail's
  -- key does not fall below: `insertd` ends with a well-linked list of the old processes and the
  -- new one, touches nothing else, and the times at which processes are due are the old ones with
  -- `key` put in order among them.
  pub insertd-schedule :
      (xs : List ℤ) (i key : ℤ)
      → IsQueue t h tl xs
      → NonNeg t.qkey xs
      → IsSlot i
      → has i xs ≡ false
      → key ≤ℤ t.qkey tl
      → (t' : Qtab) × (xs' : List ℤ) × (insertd i h key t ≡ some t')
        × IsQueue t' h tl xs'
        × SameOutside (i ∷ cells h xs tl) t t'
        × ((a : ℤ) → has a xs' ≡ ((a ==ℤ i) || has a xs))
        × ((a : ℤ) → (a ==ℤ i) ≡ false → has a xs ≡ false → t'.qkey a ≡ t.qkey a)
        × (dues t'.qkey (pos 0) xs' ≡ schedule i (pos 0 +ℤ key) (dues t.qkey (pos 0) xs))
  unfolding insertd link_ind
  insertd-schedule xs i key is deltas slot out top =
      let front = before t.qkey key xs in
      let rest = behind t.qkey key xs in
      let e : front ++ rest ≡ xs = before-append-behind t.qkey key xs in
      let is' : IsQueue t h tl (front ++ rest) = rw e is in
      let out' : has i (front ++ rest) ≡ false = rw e out in
      let found =
        seekd_lem rounds t key h xs tl (length-lt-rounds xs is.distinct is.slots) is.chain deltas
          top in
      let spot : Spot = record {
        prev = last h front;
        next = next_of tl rest;
        key = left_over t.qkey key xs;
      } in
      (
        link_ind i spot t,
        front ++ i ∷ rest,
        rw (found, insertd),
        linked-IsQueue (link_ind i spot t) front rest i is' slot out' (link_ind-links i spot t).0
            (link_ind-links i spot t).1,
        rw e at (
            linked-same t (link_ind i spot t) h front rest tl i (link_ind-links i spot t).0
              (link_ind-links i spot t).1),
        λ a. rw e at (has-middle a i front rest),
        λ a ne o.
            rw
              (
                link_ind-keys front rest i (left_over t.qkey key xs) is' out',
                ← shifted_lem t.qkey i key xs,
              )
              (shifted_out t.qkey i key a xs ne o),
        rw
            (
              link_ind-keys front rest i (left_over t.qkey key xs) is' out',
              ← shifted_lem t.qkey i key xs,
            )
            (schedule_lem t.qkey i key (pos 0) xs out is.distinct),
      )
