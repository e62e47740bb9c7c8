-- ===== src/Memory/Freemem.antt =====
-- `freemem` (xinu/sys/common/freemem.c) as a whole.
use xinu_swd.Prelude.{
  ℕ, zero, suc, ◌+◌, ◌≤◌, ◌<◌, ◌≡◌, refl, sym, ap, ◌∙◌, inl, inr, true, false, ◌&&◌, Option, none,
  some, List, [], ◌∷◌, arith, ◌==◌, ltb, ==_iff, Bool-cases, ltb→lt, length,
}
use mathlib.Core.Bool.{not}
use mathlib.Core.Bool.{Bool}
use mathlib.Core.Path.{subst}
use xinu_swd.Prelude.Int.{ℤ}
use xinu_swd.Conf.{ok, syserr}
use xinu_swd.Memory.{Mem, put, add32, roundmb, find_gap, put_back, freemem}
use xinu_swd.Memory.Blocks.{IsFree, put_same, give_back}
use xinu_swd.Memory.Free.{right, Joined}
use xinu_swd.Memory.Release.{
  NotBelow, give_back-join_next, next_lem, linked, linked_lem, Outcome, put_back_lem,
}
use xinu_swd.Memory.Get.{roundmb_lem}

-- The loop of freemem.c and what follows it, from the block `q`.
abbrev walk : ℕ → ℕ → ℕ → ℕ → Mem → Option (ℤ × Mem)
walk f b n q m = elim (find_gap f b q (m.mnext q) m) [
  | none ↦ none
  | some g ↦ some (put_back b n g.0 g.1 m)
]

-- The block in front of those that a step has dealt with.
behind_lem :
    (m m' : Mem) (q kq lo a k : ℕ) (l l' : List (ℕ × ℕ))
    → m.mlen q ≡ kq
    → 0 < kq
    → q + kq < 4294967296
    → IsFree m q (q + kq) ((a, k) ∷ l)
    → Joined m a l' m'
    → Joined m q ((q, kq) ∷ l') m'
behind_lem m m' q kq lo a k l l' len p u is joined =
    let at = joined.below q (omega (arith, is.2)) in
    record {
      len = kq;
      rest = l';
      shape = refl;
      length = at.1 ∙ len;
      positive = p;
      bound = u;
      blocks =
          rw joined.shape
            (at.0 ∙ is.0, joined.length, is.2, joined.positive, joined.bound, joined.blocks);
      below = λ x o. joined.below x (omega (arith, is.2));
    }

-- The loop's test.
abbrev goes_on : ℕ → ℕ → Mem → Bool
goes_on b q m = not (m.mnext q == 0) && ltb (m.mnext q) b

walk_stop :
    (f b n q : ℕ) (m : Mem) (r : ℤ) (m' : Mem)
    → goes_on b q m ≡ false
    → put_back b n q (m.mnext q) m ≡ (r, m')
    → walk (suc f) b n q m ≡ some (r, m')
unfolding find_gap
walk_stop f b n q m r m' c e = rw (walk, c, e)

walk_on :
    (f b n q a : ℕ) (m : Mem)
    → goes_on b q m ≡ true
    → m.mnext q ≡ a
    → walk (suc f) b n q m ≡ walk f b n a m
unfolding find_gap
walk_on f b n q a m c e = rw (walk, c) (ap (λ z. walk f b n z m) e)

Outcome-behind :
    (m m' : Mem) (q kq lo a k b n : ℕ) (l : List (ℕ × ℕ)) (r : ℤ)
    → m.mlen q ≡ kq
    → 0 < kq
    → q + kq < 4294967296
    → IsFree m q (q + kq) ((a, k) ∷ l)
    → a < b
    → Outcome m a (give_back b n ((a, k) ∷ l)) r m'
    → Outcome m q (give_back b n ((q, kq) ∷ (a, k) ∷ l)) r m'
Outcome-behind m m' q kq lo a k b n l r len p u is h o =
    let first : ltb q b ≡ true = ground (arith, is.2) in
    let clear : ltb b (q + kq) ≡ false = ground (arith, is.2) in
    let gap : (q + kq == b) ≡ false = ground (arith, is.2, ==_iff (q + kq) b) in
    elim o [
      | inl (e, er, em) ↦ inl (rw (first, clear, gap, e), er, em)
      | inr (l', e, er, joined) ↦ inr (
        (q, kq) ∷ l',
        rw (first, clear, gap, e),
        er,
        behind_lem m m' q kq lo a k l l' len p u is joined,
      )
    ]

module _ (m : Mem) (b n : ℕ) (p : 0 < n) (u : b + n < 4294967296) where
  walk_lem :
      (f q kq : ℕ) (l : List (ℕ × ℕ))
      → m.mlen q ≡ kq
      → m.memlist < q
      → q < b
      → 0 < kq
      → q + kq < 4294967296
      → IsFree m q (q + kq) l
      → length l < f
      → (r : ℤ) × (m' : Mem) × (walk f b n q m ≡ some (r, m'))
        × Outcome m q (give_back b n ((q, kq) ∷ l)) r m'
  walk_lem zero q kq l len low h pq uq is fuel = absurd (omega arith)
  walk_lem (suc f) q kq [] len low h pq uq is fuel =
      let inner : (q == m.memlist) ≡ false = ground (arith, ==_iff q m.memlist) in
      let (r, m', e, o) = put_back_lem m q kq b n [] len inner h pq uq p u is tt in
      (r, m', walk_stop f b n q m r m' (rw is) e, o)
  walk_lem (suc f) q kq ((a, k) ∷ l) len low h pq uq is fuel =
      let nn : (a == 0) ≡ false = ground (arith, ==_iff a 0, is.2) in
      elim (Bool-cases (ltb a b)) [
        | inl c ↦
            let (r, m', e, o) =
              walk_lem f a k l is.1 (omega (arith, is.2)) (ltb→lt a b c) is.3 is.4 is.5
                (omega arith) in
            (
              r,
              m',
              walk_on f b n q a m (rw (is.0, nn, c)) is.0 ∙ e,
              Outcome-behind m m' q kq 0 a k b n l r len pq uq is (ltb→lt a b c) o,
            )
        | inr c ↦
            let inner : (q == m.memlist) ≡ false = ground (arith, ==_iff q m.memlist) in
            let (r, m', e, o) = put_back_lem m q kq b n ((a, k) ∷ l) len inner h pq uq p u is c in
            (r, m', walk_stop f b n q m r m' (rw (is.0, nn, c)) e, o)
      ]

and_false : (x : Bool) → (x && false) ≡ false
and_false true = refl
and_false false = refl

-- What giving a block back comes to for the whole list.
abbrev pub Result : Mem → ℕ → List (ℕ × ℕ) → Option (List (ℕ × ℕ)) → ℤ → Mem → Type 0
Result m lo l o r m' =
    (r ≡ elim o [ none ↦ syserr | some l' ↦ ok ])
    × IsFree m' m.memlist lo (elim o [ none ↦ l | some l' ↦ l' ])

module _ (m : Mem) (b n lo : ℕ) (p : 0 < n) (u : b + n < 4294967296) (low : m.memlist ≤ lo)
    (h : lo < b) where
  -- The block goes to the front of the list.
  first_lem :
      (l : List (ℕ × ℕ))
      → IsFree m m.memlist lo l
      → NotBelow b l
      → (r : ℤ) × (m' : Mem) × (put_back b n m.memlist (m.mnext m.memlist) m ≡ (r, m'))
        × Result m lo l (give_back b n l) r m'
  unfolding put_back
  first_lem l is front =
      let q = m.memlist in
      let self : (q == q) ≡ true = ground (arith, ==_iff q q) in
      let off = and_false (ltb b (add32 (m.mlen q) q)) in
      let same = give_back-join_next b n l front in
      elim (next_lem m q lo b n b n l is u refl) [
        | inl (cond, j) ↦ (syserr, m, rw (self, off, cond), rw (same, j) (refl, is))
        | inr (cond, l', j) ↦
            let joined = linked_lem m q lo b n l l' (omega arith) p u is j in
            let at = joined.below q (omega arith) in
            (
              ok,
              right (linked m q b n) b (m.mnext q),
              rw (self, off, cond),
              rw (same, j)
                  (
                    refl,
                    rw joined.shape (
                      at.0 ∙ put_same (put m.mnext b (m.mnext q)) q b,
                      joined.length,
                      h,
                      joined.positive,
                      joined.bound,
                      joined.blocks,
                    ),
                  ),
            )
      ]

  Result-of_Outcome :
      (a k : ℕ) (l : List (ℕ × ℕ)) (o : Option (List (ℕ × ℕ))) (r : ℤ) (m' : Mem)
      → IsFree m m.memlist lo ((a, k) ∷ l)
      → Outcome m a o r m'
      → Result m lo ((a, k) ∷ l) o r m'
  Result-of_Outcome a k l o r m' is out = elim out [
    | inl (e, er, em) ↦
        rw (e, er) (refl, subst (λ z. IsFree z m.memlist lo ((a, k) ∷ l)) (sym em) is)
    | inr (l', e, er, joined) ↦
        let at = joined.below m.memlist (omega (arith, is.2)) in
        rw (e, er)
          (
            refl,
            rw joined.shape
                (at.0 ∙ is.0, joined.length, is.2, joined.positive, joined.bound, joined.blocks),
          )
  ]

  all_lem :
      (f : ℕ) (l : List (ℕ × ℕ))
      → IsFree m m.memlist lo l
      → length l < f
      → (r : ℤ) × (m' : Mem) × (walk f b n m.memlist m ≡ some (r, m'))
        × Result m lo l (give_back b n l) r m'
  all_lem zero l is fuel = absurd (omega arith)
  all_lem (suc f) [] is fuel =
      let (r, m', e, o) = first_lem [] is tt in
      (r, m', walk_stop f b n m.memlist m r m' (rw is) e, o)
  all_lem (suc f) ((a, k) ∷ l) is fuel =
      let nn : (a == 0) ≡ false = ground (arith, ==_iff a 0, is.2) in
      elim (Bool-cases (ltb a b)) [
        | inl c ↦
            let (r, m', e, o) =
              walk_lem m b n p u f a k l is.1 (omega (arith, is.2)) (ltb→lt a b c) is.3 is.4 is.5
                (omega arith) in
            (
              r,
              m',
              walk_on f b n m.memlist a m (rw (is.0, nn, c)) is.0 ∙ e,
              Result-of_Outcome a k l (give_back b n ((a, k) ∷ l)) r m' is o,
            )
        | inr c ↦
            let (r, m', e, o) = first_lem ((a, k) ∷ l) is c in
            (r, m', walk_stop f b n m.memlist m r m' (rw (is.0, nn, c)) e, o)
      ]

-- In a heap whose free list represents the blocks `l`, in order of address and with the variable
-- `memlist` below them, for a block within the heap's bounds whose end does not wrap and a size
-- above 0 and at most 2^32 - 8, with more rounds than there are blocks: `freemem` ends; it refuses
-- and leaves the list as it is if the block meets a free one, and otherwise returns `ok` and the
-- free list represents `l` with the block put in order and joined to the blocks that it touches.
pub freemem-give_back :
    (f b size lo : ℕ) (m : Mem) (l : List (ℕ × ℕ))
    → m.memlist ≤ lo
    → lo < b
    → m.end ≤ b
    → b ≤ m.maxaddr
    → 0 < size
    → size ≤ 4294967288
    → b + roundmb size < 4294967296
    → IsFree m m.memlist lo l
    → length l < f
    → (r : ℤ) × (m' : Mem) × (freemem f b size m ≡ some (r, m'))
      × Result m lo l (give_back b (roundmb size) l) r m'
unfolding freemem
freemem-give_back f b size lo m l low h over under p u top is fuel =
    let nz : (size == 0) ≡ false = ground (arith, ==_iff size 0) in
    let inside : ltb m.maxaddr b ≡ false = ground arith in
    let above : ltb b m.end ≡ false = ground arith in
    let (r, m', e, o) =
      all_lem m b (roundmb size) lo (omega (arith, roundmb_lem size p u)) top low h f l is fuel in
    (r, m', rw (freemem, nz, inside, above) e, o)
