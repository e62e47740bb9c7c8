-- ===== src/Queue/Lists.antt =====
-- A list of processes between a head and a tail of the array `q`: the invariant of the lists of
-- include/q.h, kept by xinu/sys/common/queue.c and getitem.c.
use xinu_swd.Prelude.{◌≡◌, refl, true, false, List, [], ◌∷◌, ◌++◌, inl, inr, arith, Bool-cases}
use xinu_swd.Prelude.Int.{
  ℤ, pos, ◌==ℤ◌, ◌≤ℤ◌, ◌<ℤ◌, ==ℤ-refl, ==ℤ_comm, ne_of_lt_le, eq_of_==ℤ, lt→ltb_ℤ, le→ltb_ℤ,
}
use mathlib.Core.List.{append_assoc, append-nil}
use xinu_swd.Conf.{n_proc, empty}
use xinu_swd.Queue.{Qtab, enqueue, dequeue, getfirst, getlast}
use xinu_swd.Queue.Chain.{
  has, Distinct, has-append, last, Chain, Chain-append, Chain-split, Chain-last, Chain-link,
  Chain-link_rest, Chain-unlink, linked_next, linked_prev, Distinct-split, has-last,
  not_has_of_apart,
}

-- A slot of the process table; heads and tails have the indices above.
abbrev pub IsSlot : ℤ → Type 0
IsSlot x = (pos 0 ≤ℤ x) × (x <ℤ n_proc)

abbrev pub AllSlots : List ℤ → Type 0
AllSlots [] = Unit
AllSlots (x ∷ xs) = IsSlot x × AllSlots xs

pub record IsQueue (t : Qtab) (h tl : ℤ) (xs : List ℤ) : Type 0 where
  pub chain : Chain t.qnext t.qprev h xs tl
  pub distinct : Distinct xs
  pub ends : (h ==ℤ tl) ≡ false
  pub slots : AllSlots xs
  pub head_out : n_proc ≤ℤ h
  pub tail_out : n_proc ≤ℤ tl

pub AllSlots-append : (xs ys : List ℤ) → AllSlots xs → AllSlots ys → AllSlots (xs ++ ys)
AllSlots-append [] ys a b = b
AllSlots-append (x ∷ xs) ys a b = (a.0, AllSlots-append xs ys a.1 b)

pub AllSlots-split : (xs ys : List ℤ) → AllSlots (xs ++ ys) → AllSlots xs × AllSlots ys
AllSlots-split [] ys a = (tt, a)
AllSlots-split (x ∷ xs) ys a = let (b, c) = AllSlots-split xs ys a.1 in ((a.0, b), c)

pub Distinct-join :
    (xs ys : List ℤ)
    → Distinct xs
    → Distinct ys
    → ((a : ℤ) → has a xs ≡ true → has a ys ≡ false)
    → Distinct (xs ++ ys)
Distinct-join [] ys dx dy apart = dy
Distinct-join (x ∷ xs) ys dx dy apart = (
  ground (arith, has-append x xs ys, apart x, ==ℤ-refl x),
  Distinct-join xs ys dx.1 dy (λ a h. apart a (ground arith)),
)

-- One more entry in the middle, or one less.
pub Distinct-insert :
    (xs ys : List ℤ) (i : ℤ)
    → has i (xs ++ ys) ≡ false
    → Distinct (xs ++ ys)
    → Distinct (xs ++ i ∷ ys)
Distinct-insert [] ys i out d = (out, d)
Distinct-insert (x ∷ xs) ys i out d = (
  ground (arith, has-append x xs ys, has-append x xs (i ∷ ys), ==ℤ_comm i x),
  Distinct-insert xs ys i (ground arith) d.1,
)

pub Distinct-remove :
    (xs ys : List ℤ) (i : ℤ)
    → Distinct (xs ++ i ∷ ys)
    → Distinct (xs ++ ys) × (has i (xs ++ ys) ≡ false)
Distinct-remove [] ys i d = (d.1, d.0)
Distinct-remove (x ∷ xs) ys i d =
    let (e, out) = Distinct-remove xs ys i d.1 in
    (
      (ground (arith, has-append x xs ys, has-append x xs (i ∷ ys)), e),
      ground (arith, has-append x xs (i ∷ ys), ==ℤ_comm i x),
    )

-- A slot differs from a head and from a tail.
pub slot_ne_out : (i h : ℤ) → IsSlot i → n_proc ≤ℤ h → (i ==ℤ h) ≡ false
slot_ne_out i h s o = ne_of_lt_le i h n_proc s.1 o

pub not_has_out : (a : ℤ) (xs : List ℤ) → AllSlots xs → n_proc ≤ℤ a → has a xs ≡ false
not_has_out a [] s o = refl
not_has_out a (x ∷ xs) s o =
    ground (arith, slot_ne_out x a s.0 o, ==ℤ_comm a x, not_has_out a xs s.1 o)

pub qkey-enqueue : (i tl : ℤ) (t : Qtab) → (enqueue i tl t).qkey ≡ t.qkey
unfolding enqueue
qkey-enqueue i tl t = refl

pub qkey-dequeue : (x : ℤ) (t : Qtab) → (dequeue x t).qkey ≡ t.qkey
unfolding dequeue
qkey-dequeue x t = refl

-- The entry that follows a list's front part `xs` in `xs ++ ys`.
abbrev pub next_of : ℤ → List ℤ → ℤ
next_of tl [] = tl
next_of tl (y ∷ ys) = y

module _ {t : Qtab} {h tl : ℤ} where
  -- All that a list occupies, head and tail included, is distinct.
  pub IsQueue-whole :
      (xs ys : List ℤ) → IsQueue t h tl (xs ++ ys) → Distinct ((h ∷ xs) ++ (ys ++ tl ∷ []))
  IsQueue-whole xs ys is = rw append_assoc at (
      Distinct-join (h ∷ (xs ++ ys)) (tl ∷ [])
        (not_has_out h (xs ++ ys) is.slots is.head_out, is.distinct) (refl, tt)
        (λ a k. elim (Bool-cases (a ==ℤ tl)) [
          | inl e ↦ absurd (
              ground (
                arith,
                not_has_out tl (xs ++ ys) is.slots is.tail_out,
                eq_of_==ℤ a tl e,
                ==ℤ_comm tl h,
                is.ends,
              ))
          | inr n ↦ ground arith
        ]))

  linked-Chain :
      (xs ys : List ℤ) (i : ℤ)
      → IsQueue t h tl (xs ++ ys)
      → IsSlot i
      → has i (xs ++ ys) ≡ false
      → Chain
          (linked_next t.qnext t.qprev h xs (next_of tl ys) i)
          (linked_prev t.qnext t.qprev h xs (next_of tl ys) i)
          h
          (xs ++ i ∷ ys)
          tl
  linked-Chain xs [] i is slot out =
      let (dx, dy, apart) = Distinct-split (h ∷ xs) (tl ∷ []) (IsQueue-whole xs [] is) in
      Chain-link t.qnext t.qprev h xs tl i dx
        (ground (arith, has-append i xs [], slot_ne_out i h slot is.head_out))
        (ground (
          arith,
          has-append tl xs (i ∷ []),
          not_has_of_apart tl xs (λ k. ground (arith, apart tl, ==ℤ-refl tl)),
          slot_ne_out i tl slot is.tail_out,
          ==ℤ_comm i tl,
        ))
        (rw append-nil at is.chain)
  linked-Chain xs (y ∷ ys) i is slot out =
      let (dx, dy, apart) =
        Distinct-split (h ∷ xs) (y ∷ (ys ++ tl ∷ [])) (IsQueue-whole xs (y ∷ ys) is) in
      let (front, rest) = Chain-split t.qnext t.qprev h xs y ys tl is.chain in
      let away : has i (y ∷ ys) ≡ false = ground (arith, has-append i xs (y ∷ ys)) in
      rw append_assoc at (
        Chain-append (linked_next t.qnext t.qprev h xs y i) (linked_prev t.qnext t.qprev h xs y i) h
          (xs ++ i ∷ []) y ys tl
          (Chain-link t.qnext t.qprev h xs y i dx
            (ground (arith, has-append i xs (y ∷ ys), slot_ne_out i h slot is.head_out))
            (ground (
              arith,
              has-append y xs (i ∷ []),
              not_has_of_apart y xs (λ k. ground (arith, apart y, ==ℤ-refl y)),
              away,
              ==ℤ_comm i y,
            ))
            front)
          (Chain-link_rest t.qnext t.qprev h xs y i ys tl away
            (ground (arith, apart (last h xs) (has-last h xs), has-append (last h xs) ys (tl ∷ [])))
            (ground (arith, away, has-append i ys (tl ∷ []), slot_ne_out i tl slot is.tail_out))
            dy.0 rest))

  -- A table whose links are those of `i` linked in between `xs` and `ys`.
  pub linked-IsQueue :
      (t' : Qtab) (xs ys : List ℤ) (i : ℤ)
      → IsQueue t h tl (xs ++ ys)
      → IsSlot i
      → has i (xs ++ ys) ≡ false
      → t'.qnext ≡ linked_next t.qnext t.qprev h xs (next_of tl ys) i
      → t'.qprev ≡ linked_prev t.qnext t.qprev h xs (next_of tl ys) i
      → IsQueue t' h tl (xs ++ i ∷ ys)
  linked-IsQueue t' xs ys i is slot out en ep = record {
    chain = rw (en, ep) (linked-Chain xs ys i is slot out);
    distinct = Distinct-insert xs ys i out is.distinct;
    ends = is.ends;
    slots = let (a, b) = AllSlots-split xs ys is.slots in AllSlots-append xs (i ∷ ys) a (slot, b);
    head_out = is.head_out;
    tail_out = is.tail_out;
  }

  -- What stands behind the front part leads back to it.
  pub IsQueue-back :
      (xs ys : List ℤ) → IsQueue t h tl (xs ++ ys) → t.qprev (next_of tl ys) ≡ last h xs
  IsQueue-back xs [] is = (Chain-last t.qnext t.qprev h xs tl (rw append-nil at is.chain)).0
  IsQueue-back xs (y ∷ ys) is =
      (Chain-last t.qnext t.qprev h xs y (Chain-split t.qnext t.qprev h xs y ys tl is.chain).0).0

  pub IsQueue-next :
      (xs ys : List ℤ) → IsQueue t h tl (xs ++ ys) → t.qnext (last h xs) ≡ next_of tl ys
  IsQueue-next xs [] is = (Chain-last t.qnext t.qprev h xs tl (rw append-nil at is.chain)).1
  IsQueue-next xs (y ∷ ys) is =
      (Chain-last t.qnext t.qprev h xs y (Chain-split t.qnext t.qprev h xs y ys tl is.chain).0).1

  -- A slot outside the list differs from what stands behind the front part.
  pub next_ne :
      (xs ys : List ℤ) (i : ℤ)
      → IsQueue t h tl (xs ++ ys)
      → IsSlot i
      → has i (xs ++ ys) ≡ false
      → (next_of tl ys ==ℤ i) ≡ false
  next_ne xs [] i is slot out = rw (==ℤ_comm tl i) (slot_ne_out i tl slot is.tail_out)
  next_ne xs (y ∷ ys) i is slot out = ground (arith, has-append i xs (y ∷ ys), ==ℤ_comm i y)

  -- On a well-linked list `enqueue` at the tail of a process that is not on it gives a well-linked
  -- list with the process last.
  pub enqueue-IsQueue :
      (xs : List ℤ) (i : ℤ)
      → IsQueue t h tl xs
      → IsSlot i
      → has i xs ≡ false
      → IsQueue (enqueue i tl t) h tl (xs ++ i ∷ [])
  unfolding enqueue
  enqueue-IsQueue xs i is slot out =
      let is' : IsQueue t h tl (xs ++ []) = rw append-nil is in
      let out' : has i (xs ++ []) ≡ false = rw append-nil out in
      linked-IsQueue (enqueue i tl t) xs [] i is' slot out'
        (rw (next_ne xs [] i is' slot out', IsQueue-back xs [] is')) (rw (IsQueue-back xs [] is'))

  -- On a well-linked list `dequeue` of one of its processes leaves a well-linked list of the
  -- others, in their order.
  pub dequeue-IsQueue :
      (xs : List ℤ) (x : ℤ) (ys : List ℤ)
      → IsQueue t h tl (xs ++ x ∷ ys)
      → IsQueue (dequeue x t) h tl (xs ++ ys)
  unfolding dequeue
  dequeue-IsQueue xs x ys is =
      let (front, rest) = Chain-split t.qnext t.qprev h xs x ys tl is.chain in
      let whole = IsQueue-whole xs (x ∷ ys) is in
      let (dx, dy, apart) = Distinct-split (h ∷ xs) (x ∷ (ys ++ tl ∷ [])) whole in
      let (a, b) = AllSlots-split xs (x ∷ ys) is.slots in
      let ne : (x ==ℤ last h xs) ≡ false =
        ground (arith, apart (last h xs) (has-last h xs), ==ℤ_comm x (last h xs)) in
      record {
        chain =
            rw (IsQueue-back xs (x ∷ ys) is, ne)
              (Chain-unlink t.qnext t.qprev h xs x ys tl whole front rest);
        distinct = (Distinct-remove xs ys x is.distinct).0;
        ends = is.ends;
        slots = AllSlots-append xs ys a b.1;
        head_out = is.head_out;
        tail_out = is.tail_out;
      }

  -- `getfirst` on a list that is not empty takes the first process off.
  pub getfirst-cons :
      (x : ℤ) (xs : List ℤ) → IsQueue t h tl (x ∷ xs) → getfirst h t ≡ (x, dequeue x t)
  unfolding getfirst
  getfirst-cons x xs is = rw (is.chain.0, lt→ltb_ℤ x n_proc is.slots.0.1)

  -- On an empty list it returns `EMPTY` and changes nothing.
  pub getfirst-nil : IsQueue t h tl [] → getfirst h t ≡ (empty, t)
  unfolding getfirst
  getfirst-nil is = rw (is.chain.0, le→ltb_ℤ tl n_proc is.tail_out)

  -- `getlast` is `getfirst` at the other end.
  pub getlast-snoc :
      (xs : List ℤ) (x : ℤ) → IsQueue t h tl (xs ++ x ∷ []) → getlast tl t ≡ (x, dequeue x t)
  unfolding getlast
  getlast-snoc xs x is =
      let (a, b) = AllSlots-split xs (x ∷ []) is.slots in
      let (front, rest) = Chain-split t.qnext t.qprev h xs x [] tl is.chain in
      rw (rest.1, lt→ltb_ℤ x n_proc b.0.1)

  pub getlast-nil : IsQueue t h tl [] → getlast tl t ≡ (empty, t)
  unfolding getlast
  getlast-nil is = rw (is.chain.1, le→ltb_ℤ h n_proc is.head_out)
