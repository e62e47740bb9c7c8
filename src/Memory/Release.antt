-- ===== src/Memory/Release.antt =====
-- `freemem` (xinu/sys/common/freemem.c) between two blocks of the free list.
use xinu_swd.Prelude.{
  ℕ, ◌+◌, ◌<◌, ◌≡◌, refl, ◌∙◌, ◌⊎◌, inl, inr, true, false, ◌&&◌, Option, none, some, List, [], ◌∷◌,
  arith, ◌==◌, ltb, ==_iff, Bool-cases, lt→ltb,
}
use mathlib.Core.Bool.{not}
use mathlib.Core.Path.{subst}
use xinu_swd.Prelude.Int.{ℤ}
use xinu_swd.Conf.{ok, syserr}
use xinu_swd.Memory.{Mem, put, add32, set_mlen, put_back}
use xinu_swd.Memory.Blocks.{IsFree, IsFree-move, put_same, put_other, join_next, give_back}
use xinu_swd.Memory.Free.{right, Joined, right_lem}

-- The first block does not lie below `b`.
abbrev pub NotBelow : ℕ → List (ℕ × ℕ) → Type 0
NotBelow b [] = Unit
NotBelow b ((a, k) ∷ l) = ltb a b ≡ false

pub give_back-join_next :
    (b n : ℕ) (l : List (ℕ × ℕ)) → NotBelow b l → give_back b n l ≡ join_next b n l
give_back-join_next b n [] h = refl
give_back-join_next b n ((a, k) ∷ l) h = rw h

join_next-some :
    (b n a k : ℕ) (l : List (ℕ × ℕ))
    → ltb a (b + n) ≡ false
    → (l' : List (ℕ × ℕ)) × (join_next b n ((a, k) ∷ l) ≡ some l')
join_next-some b n a k l c = elim (Bool-cases (b + n == a)) [
  | inl t ↦ ((b, n + k) ∷ l, rw (c, t))
  | inr t ↦ ((b, n) ∷ (a, k) ∷ l, rw (c, t))
]

-- The test on the block behind is that of `join_next`.
pub next_lem :
    (m : Mem) (q lo b n b' n' : ℕ) (l : List (ℕ × ℕ))
    → IsFree m q lo l
    → b + n < 4294967296
    → b' + n' ≡ b + n
    → (((not (m.mnext q == 0) && ltb (m.mnext q) (add32 n b)) ≡ true) × (join_next b' n' l ≡ none))
      ⊎ (((not (m.mnext q == 0) && ltb (m.mnext q) (add32 n b)) ≡ false)
          × (l' : List (ℕ × ℕ)) × (join_next b' n' l ≡ some l'))
next_lem m q lo b n b' n' [] is u e = inr (rw is, (b', n') ∷ [], refl)
next_lem m q lo b n b' n' ((a, k) ∷ l) is u e =
    let nn : (a == 0) ≡ false = ground (arith, ==_iff a 0, is.2) in
    let s : add32 n b ≡ b + n = omega arith in
    elim (Bool-cases (ltb a (b + n))) [
      | inl c ↦ inl (rw (is.0, nn, s, c), rw (e, c))
      | inr c ↦
          let (l', j) = join_next-some b' n' a k l (rw e c) in inr (rw (is.0, nn, s, c), l', j)
    ]

-- A block linked behind `q`.
abbrev pub linked : Mem → ℕ → ℕ → ℕ → Mem
linked m q b n = record m { mlen = put m.mlen b n; mnext = put (put m.mnext b (m.mnext q)) q b }

IsFree-raise :
    (m : Mem) (q lo b n : ℕ) (l l' : List (ℕ × ℕ))
    → 0 < n
    → join_next b n l ≡ some l'
    → IsFree m q lo l
    → IsFree m q b l
IsFree-raise m q lo b n [] l' p j is = is
IsFree-raise m q lo b n ((a, k) ∷ l) l' p j is = elim (Bool-cases (ltb a (b + n))) [
  | inl c ↦ absurd (ground (arith, rw c at j))
  | inr c ↦ (is.0, is.1, ground arith, is.3, is.4, is.5)
]

pub linked_lem :
    (m : Mem) (q lo b n : ℕ) (l l' : List (ℕ × ℕ))
    → q < b
    → 0 < n
    → b + n < 4294967296
    → IsFree m q lo l
    → join_next b n l ≡ some l'
    → Joined (linked m q b n) b l' (right (linked m q b n) b (m.mnext q))
linked_lem m q lo b n l l' h p u is j =
    let m₁ = linked m q b n in
    let hangs : m₁.mnext b ≡ m.mnext q =
      put_other (put m.mnext b (m.mnext q)) q b b (inr h) ∙ put_same m.mnext b (m.mnext q) in
    let free : IsFree m₁ b b l =
      IsFree-move m m₁ q b b l hangs
        (λ x g. (
          put_other (put m.mnext b (m.mnext q)) q b x (inr (omega arith))
              ∙ put_other m.mnext b (m.mnext q) x (inr g),
          put_other m.mlen b n x (inr g),
        ))
        (IsFree-raise m q lo b n l l' p j is) in
    subst (λ z. Joined m₁ b l' (right m₁ b z)) hangs
      (right_lem m₁ b n b l l' (put_same m.mlen b n) u p (omega arith) free j)

-- What giving a block back behind the one at `q` comes to: `o` is the outcome on the sequence.
abbrev pub Outcome : Mem → ℕ → Option (List (ℕ × ℕ)) → ℤ → Mem → Type 0
Outcome m q o r m' =
    ((o ≡ none) × (r ≡ syserr) × (m' ≡ m))
    ⊎ ((l' : List (ℕ × ℕ)) × (o ≡ some l') × (r ≡ ok) × Joined m q l' m')

module _ (m : Mem) (q kq b n : ℕ) (l : List (ℕ × ℕ)) (len : m.mlen q ≡ kq)
    (inner : (q == m.memlist) ≡ false) (h : q < b) (pq : 0 < kq) (uq : q + kq < 4294967296)
    (p : 0 < n) (u : b + n < 4294967296) (is : IsFree m q (q + kq) l) (front : NotBelow b l) where
  -- The block touches the one at `q`.
  touch_lem :
      (l' : List (ℕ × ℕ))
      → q + kq ≡ b
      → join_next q (kq + n) l ≡ some l'
      → Joined m q l' (right (set_mlen m q (add32 (m.mlen q) n)) q (m.mnext q))
  touch_lem l' t j =
      let m₁ = set_mlen m q (add32 (m.mlen q) n) in
      let sum : add32 (m.mlen q) n ≡ kq + n = rw len (omega arith) in
      let free : IsFree m₁ q (q + kq) l =
        IsFree-move m m₁ q q (q + kq) l refl
          (λ x g. (refl, put_other m.mlen q (add32 (m.mlen q) n) x (inr (omega arith)))) is in
      let joined =
        right_lem m₁ q (kq + n) (q + kq) l l' (put_same m.mlen q (add32 (m.mlen q) n) ∙ sum)
          (omega arith) (omega arith) (omega arith) free j in
      record {
        len = joined.len;
        rest = joined.rest;
        shape = joined.shape;
        length = joined.length;
        positive = joined.positive;
        bound = joined.bound;
        blocks = joined.blocks;
        below = λ x g. (
          (joined.below x g).0,
          (joined.below x g).1 ∙ put_other m.mlen q (add32 (m.mlen q) n) x (inl g),
        );
      }

  -- There is a gap between the two.
  gap_lem :
      (l' : List (ℕ × ℕ))
      → q + kq < b
      → join_next b n l ≡ some l'
      → Joined m q ((q, kq) ∷ l') (right (linked m q b n) b (m.mnext q))
  gap_lem l' g j =
      let joined = linked_lem m q (q + kq) b n l l' h p u is j in
      let at = joined.below q h in
      record {
        len = kq;
        rest = l';
        shape = refl;
        length = at.1 ∙ put_other m.mlen b n q (inl h) ∙ len;
        positive = pq;
        bound = uq;
        blocks = rw joined.shape (
          at.0 ∙ put_same (put m.mnext b (m.mnext q)) q b,
          joined.length,
          g,
          joined.positive,
          joined.bound,
          joined.blocks,
        );
        below = λ x o. (
          (joined.below x (omega arith)).0
              ∙ put_other (put m.mnext b (m.mnext q)) q b x (inl o)
              ∙ put_other m.mnext b (m.mnext q) x (inl (omega arith)),
          (joined.below x (omega arith)).1 ∙ put_other m.mlen b n x (inl (omega arith)),
        );
      }

  pub put_back_lem :
      (r : ℤ) × (m' : Mem) × (put_back b n q (m.mnext q) m ≡ (r, m'))
      × Outcome m q (give_back b n ((q, kq) ∷ l)) r m'
  unfolding put_back
  put_back_lem =
      let top : add32 (m.mlen q) q ≡ q + kq = rw len (omega arith) in
      let ahead : ltb q b ≡ true = lt→ltb q b h in
      elim (Bool-cases (ltb b (q + kq))) [
        | inl c ↦ (syserr, m, rw (top, c, inner), inl (rw (ahead, c), refl, refl))
        | inr c ↦ elim (Bool-cases (q + kq == b)) [
          | inl t ↦
              let at_b : q + kq ≡ b = ground (arith, ==_iff (q + kq) b) in
              elim (next_lem m q (q + kq) b n q (kq + n) l is u (omega arith)) [
                | inl (cond, j) ↦
                    (syserr, m, rw (top, c, inner, cond), inl (rw (ahead, c, t) j, refl, refl))
                | inr (cond, l', j) ↦ (
                  ok,
                  right (set_mlen m q (add32 (m.mlen q) n)) q (m.mnext q),
                  rw (top, c, inner, cond, t),
                  inr (l', rw (ahead, c, t) j, refl, touch_lem l' at_b j),
                )
              ]
          | inr t ↦
              let g : q + kq < b = ground (arith, ==_iff (q + kq) b) in
              let same = give_back-join_next b n l front in
              elim (next_lem m q (q + kq) b n b n l is u refl) [
                | inl (cond, j) ↦ (
                  syserr,
                  m,
                  rw (top, c, inner, cond),
                  inl (rw (ahead, c, t, same, j), refl, refl),
                )
                | inr (cond, l', j) ↦ (
                  ok,
                  right (linked m q b n) b (m.mnext q),
                  rw (top, c, inner, cond, t),
                  inr ((q, kq) ∷ l', rw (ahead, c, t, same, j), refl, gap_lem l' g j),
                )
              ]
        ]
      ]
