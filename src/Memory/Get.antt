-- ===== src/Memory/Get.antt =====
-- `getmem` (xinu/sys/common/getmem.c) is first fit on the sequence of free blocks.
use xinu_swd.Prelude.{
  ℕ, zero, suc, ◌+◌, ◌*◌, ◌-◌, ◌/◌, ◌%◌, ◌≤◌, ◌<◌, ◌≡◌, refl, ◌∙◌, inl, inr, true, false, Option,
  none, some, List, [], ◌∷◌, arith, ◌==◌, ltb, ==_iff, length, Bool-cases, Option-cases, lt→ltb,
  ltb→lt,
}
use xinu_swd.Prelude.Int.{ℤ, pos}
use xinu_swd.Conf.{syserr}
use xinu_swd.Memory.{Mem, put, set_mnext, add32, sub32, roundmb, get_loop, getmem}
use xinu_swd.Memory.Blocks.{IsFree, IsFree-lower, IsFree-move, put_same, put_other, first_fit}

-- The variables of the heap have not changed.
abbrev pub SameBounds : Mem → Mem → Type 0
SameBounds m m' = (m'.memlist ≡ m.memlist) × (m'.maxaddr ≡ m.maxaddr) × (m'.end ≡ m.end)

-- What a search that starts at `q` returns and leaves: `o` is the outcome of first fit.
record Got (m : Mem) (q lo n : ℕ) (o : Option (ℕ × List (ℕ × ℕ))) (l : List (ℕ × ℕ)) (r : ℤ)
    (m' : Mem) : Type 0 where
  value : r ≡ elim o [ none ↦ syserr | some g ↦ pos g.0 ]
  blocks : IsFree m' q lo (elim o [ none ↦ l | some g ↦ g.1 ])
  below : (b : ℕ) → b < q → m'.mnext b ≡ m.mnext b
  lengths : (b : ℕ) → b ≤ q → m'.mlen b ≡ m.mlen b
  bounds : SameBounds m m'

not_null : (lo a : ℕ) → lo < a → (a == 0) ≡ false
not_null lo a h = ground (arith, ==_iff a 0)

-- A block of the very length is unlinked.
abbrev exact : Mem → ℕ → ℕ → Mem
exact m q a = set_mnext m q (m.mnext a)

exact_lem :
    (n q lo : ℕ) (m : Mem) (a k : ℕ) (l : List (ℕ × ℕ))
    → q ≤ lo
    → IsFree m q lo ((a, k) ∷ l)
    → (k == n) ≡ true
    → Got m q lo n (first_fit n ((a, k) ∷ l)) ((a, k) ∷ l) (pos a) (exact m q a)
exact_lem n q lo m a k l h is e = rw e (record {
  value = refl;
  blocks = IsFree-lower (exact m q a) q (a + k) lo l (omega (arith, is.2)) (
      IsFree-move m (exact m q a) a q (a + k) l (put_same m.mnext q (m.mnext a))
        (λ b u. (put_other m.mnext q (m.mnext a) b (inr (omega (arith, is.2))), refl)) is.5);
  below = λ b u. put_other m.mnext q (m.mnext a) b (inl u);
  lengths = λ b u. refl;
  bounds = (refl, refl, refl);
})

-- Of a longer block the front is given out.
abbrev front : Mem → ℕ → ℕ → ℕ → ℕ → Mem
front m q a n k = record m {
  mnext = put (put m.mnext q (a + n)) (a + n) (m.mnext a);
  mlen = put m.mlen (a + n) (k - n);
}

front_lem :
    (n q lo : ℕ) (m : Mem) (a k : ℕ) (l : List (ℕ × ℕ))
    → q ≤ lo
    → 0 < n
    → IsFree m q lo ((a, k) ∷ l)
    → (k == n) ≡ false
    → n < k
    → Got m q lo n (first_fit n ((a, k) ∷ l)) ((a, k) ∷ l) (pos a) (front m q a n k)
front_lem n q lo m a k l h pos_n is e lt =
    let sum : a + n + (k - n) ≡ a + k = omega arith in
    rw (e, lt→ltb n k lt)
      (record {
        value = refl;
        blocks = (
          put_other (put m.mnext q (a + n)) (a + n) (m.mnext a) q (inl (omega (arith, is.2)))
              ∙ put_same m.mnext q (a + n),
          put_same m.mlen (a + n) (k - n),
          omega (arith, is.2),
          omega arith,
          rw sum is.4,
          rw sum (
              IsFree-move m (front m q a n k) a (a + n) (a + k) l
                (put_same (put m.mnext q (a + n)) (a + n) (m.mnext a))
                (λ b u. (
                  put_other (put m.mnext q (a + n)) (a + n) (m.mnext a) b (inr (omega arith))
                      ∙ put_other m.mnext q (a + n) b (inr (omega (arith, is.2))),
                  put_other m.mlen (a + n) (k - n) b (inr (omega arith)),
                ))
                is.5),
        );
        below = λ b u.
            put_other (put m.mnext q (a + n)) (a + n) (m.mnext a) b (inl (omega (arith, is.2)))
            ∙ put_other m.mnext q (a + n) b (inl u);
        lengths = λ b u. put_other m.mlen (a + n) (k - n) b (inl (omega (arith, is.2)));
        bounds = (refl, refl, refl);
      })

-- A shorter block is passed over.
next_lem :
    (n q lo : ℕ) (m : Mem) (a k : ℕ) (l : List (ℕ × ℕ)) (r : ℤ) (m' : Mem)
    → q ≤ lo
    → IsFree m q lo ((a, k) ∷ l)
    → (k == n) ≡ false
    → ltb n k ≡ false
    → Got m a (a + k) n (first_fit n l) l r m'
    → Got m q lo n (first_fit n ((a, k) ∷ l)) ((a, k) ∷ l) r m'
next_lem n q lo m a k l r m' h is e lt got = elim (Option-cases (first_fit n l)) [
  | inl o ↦
      rw (e, lt, o)
        (record {
          value = rw o at got.value;
          blocks = (
            got.below q (omega (arith, is.2)) ∙ is.0,
            got.lengths a (omega arith) ∙ is.1,
            is.2,
            is.3,
            is.4,
            rw o at got.blocks,
          );
          below = λ b u. got.below b (omega (arith, is.2));
          lengths = λ b u. got.lengths b (omega (arith, is.2));
          bounds = got.bounds;
        })
  | inr (g, o) ↦
      rw (e, lt, o)
        (record {
          value = rw o at got.value;
          blocks = (
            got.below q (omega (arith, is.2)) ∙ is.0,
            got.lengths a (omega arith) ∙ is.1,
            is.2,
            is.3,
            is.4,
            rw o at got.blocks,
          );
          below = λ b u. got.below b (omega (arith, is.2));
          lengths = λ b u. got.lengths b (omega (arith, is.2));
          bounds = got.bounds;
        })
]

got_lem :
    (f n q lo : ℕ) (m : Mem) (l : List (ℕ × ℕ))
    → q ≤ lo
    → 0 < n
    → IsFree m q lo l
    → length l < f
    → (r : ℤ) × (m' : Mem) × (get_loop f n q (m.mnext q) m ≡ some (r, m'))
      × Got m q lo n (first_fit n l) l r m'
unfolding get_loop
got_lem zero n q lo m l h pos_n is fuel = absurd (omega arith)
got_lem (suc f) n q lo m [] h pos_n is fuel = (
  syserr,
  m,
  rw is,
  record {
    value = refl;
    blocks = is;
    below = λ b l. refl;
    lengths = λ b l. refl;
    bounds = (refl, refl, refl);
  },
)
got_lem (suc f) n q lo m ((a, k) ∷ l) h pos_n is fuel =
    let nn : (a == 0) ≡ false = not_null lo a is.2 in
    let past : put m.mnext q (a + n) a ≡ m.mnext a =
      put_other m.mnext q (a + n) a (inr (omega (arith, is.2))) in
    elim (Bool-cases (k == n)) [
      | inl e ↦ (pos a, exact m q a, rw (is.0, nn, is.1, e), exact_lem n q lo m a k l h is e)
      | inr e ↦ elim (Bool-cases (ltb n k)) [
        | inl lt ↦
            let less = ltb→lt n k lt in
            let far : add32 a n ≡ a + n = omega (arith, is.4) in
            let short : sub32 k n ≡ k - n = omega (arith, is.4) in
            (
              pos a,
              front m q a n k,
              rw (is.0, nn, is.1, e, lt, far, past, short),
              front_lem n q lo m a k l h pos_n is e less,
            )
        | inr lt ↦
            let (r, m', g, got) =
              got_lem f n a (a + k) m l (omega arith) pos_n is.5 (omega arith) in
            (r, m', rw (is.0, nn, is.1, e, lt) g, next_lem n q lo m a k l r m' h is e lt got)
      ]
    ]

pub roundmb_lem :
    (n : ℕ) → 0 < n → n ≤ 4294967288 → (n ≤ roundmb n) × (roundmb n < n + 8) × (roundmb n % 8 ≡ 0)
unfolding roundmb
roundmb_lem n h u = (omega arith, omega arith, omega arith)

empty_or_not :
    (m : Mem) (lo a k : ℕ) (l : List (ℕ × ℕ))
    → IsFree m m.memlist lo ((a, k) ∷ l)
    → (m.mnext m.memlist == 0) ≡ false
empty_or_not m lo a k l is = rw is.0 (not_null lo a is.2)

-- In a heap whose free list represents the blocks `l`, in order of address and with the variable
-- `memlist` below them, for a size above 0 and at most 2^32 - 8, with more rounds than there are
-- blocks: `getmem` ends, its value is the address that first fit gives for the size rounded up to a
-- multiple of 8, or `syserr` if no block is long enough, the free list then represents the blocks
-- that first fit leaves, and the heap's bounds are unchanged.
pub getmem-first_fit :
    (f nbytes lo : ℕ) (m : Mem) (l : List (ℕ × ℕ))
    → m.memlist ≤ lo
    → IsFree m m.memlist lo l
    → 0 < nbytes
    → nbytes ≤ 4294967288
    → length l < f
    → (r : ℤ) × (m' : Mem) × (getmem f nbytes m ≡ some (r, m'))
      × (r ≡ elim (first_fit (roundmb nbytes) l) [ none ↦ syserr | some g ↦ pos g.0 ])
      × IsFree m' m.memlist lo (elim (first_fit (roundmb nbytes) l) [ none ↦ l | some g ↦ g.1 ])
      × SameBounds m m'
unfolding getmem
getmem-first_fit f nbytes lo m [] low is pos_n u fuel =
    (syserr, m, rw (is, not_null 0 nbytes pos_n), refl, is, (refl, refl, refl))
getmem-first_fit f nbytes lo m ((a, k) ∷ l) low is pos_n u fuel =
    let n = roundmb nbytes in
    let (r, m', e, got) =
      got_lem f n m.memlist lo m ((a, k) ∷ l) low (omega (arith, roundmb_lem nbytes pos_n u)) is
        fuel in
    (
      r,
      m',
      rw (empty_or_not m lo a k l is, not_null 0 nbytes pos_n) e,
      got.value,
      got.blocks,
      got.bounds,
    )

-- In a heap with a free block, for a size within 7 of 2^32, `getmem` returns the address of the
-- first free block, however short it is.
pub getmem-wrap :
    (f nbytes lo a k : ℕ) (m : Mem) (l : List (ℕ × ℕ))
    → m.memlist ≤ lo
    → IsFree m m.memlist lo ((a, k) ∷ l)
    → 4294967288 < nbytes
    → nbytes < 4294967296
    → (m' : Mem) × (getmem (suc f) nbytes m ≡ some (pos a, m'))
unfolding getmem get_loop roundmb
getmem-wrap f nbytes lo a k m l low is h u =
    let none_left : (7 + nbytes) % 4294967296 / 8 * 8 ≡ 0 = omega arith in
    let nn : (a == 0) ≡ false = not_null lo a is.2 in
    let nk : (k == 0) ≡ false = not_null 0 k is.3 in
    let far : add32 a 0 ≡ a + 0 = omega (arith, is.4) in
    let short : sub32 k 0 ≡ k - 0 = omega (arith, is.4) in
    let past : put m.mnext m.memlist (a + 0) a ≡ m.mnext a =
      put_other m.mnext m.memlist (a + 0) a (inr (omega (arith, is.2))) in
    (
      front m m.memlist a 0 k,
      rw (
        empty_or_not m lo a k l is,
        not_null 0 nbytes (omega arith),
        none_left,
        is.0,
        is.1,
        nk,
        lt→ltb 0 k is.3,
        far,
        past,
        short,
      ),
    )
