-- ===== src/Memory/Roundtrip.antt =====
-- `freemem` undoes `getmem` (xinu/sys/common/getmem.c, freemem.c).
use xinu_swd.Prelude.{
  ℕ, suc, ◌+◌, ◌-◌, ◌≤◌, ◌<◌, ◌≡◌, refl, sym, ◌∙◌, true, false, none, some, List, [], ◌∷◌, arith,
  ◌==◌, ltb, ==_iff, Bool-cases, Option-cases, inl, inr, ltb→lt, length,
}
use mathlib.Core.Path.{subst}
use xinu_swd.Prelude.Int.{pos}
use xinu_swd.Conf.{ok, syserr}
use xinu_swd.Memory.{Mem, getmem, freemem, roundmb}
use xinu_swd.Memory.Blocks.{IsFree, first_fit, give_back}
use xinu_swd.Memory.Get.{getmem-first_fit, roundmb_lem}
use xinu_swd.Memory.Freemem.{freemem-give_back}

-- In front of the blocks of `l` there is a gap.
front_lem :
    (m : Mem) (q a n : ℕ) (l : List (ℕ × ℕ))
    → IsFree m q (a + n) l
    → give_back a n l ≡ some ((a, n) ∷ l)
front_lem m q a n [] is = refl
front_lem m q a n ((x, k) ∷ l) is =
    let above : ltb x a ≡ false = ground (arith, is.2) in
    let clear : ltb x (a + n) ≡ false = ground (arith, is.2) in
    let gap : (a + n == x) ≡ false = ground (arith, is.2, ==_iff (a + n) x) in
    rw (above, clear, gap)

some_inj : {A : Type 0} (a b : A) → some a ≡ some b → a ≡ b
some_inj a b e = cc (e)

-- The block that first fit gives out lies above `lo`, and giving it back restores the blocks.
abbrev pub Restores : ℕ → ℕ → List (ℕ × ℕ) → ℕ × List (ℕ × ℕ) → Type 0
Restores lo n l g =
    (lo < g.0) × (g.0 + n < 4294967296) × (length g.1 ≤ length l) × (give_back g.0 n g.1 ≡ some l)

pub give_back-first_fit :
    (m : Mem) (q lo n : ℕ) (l : List (ℕ × ℕ)) (g : ℕ × List (ℕ × ℕ))
    → 0 < n
    → IsFree m q lo l
    → first_fit n l ≡ some g
    → Restores lo n l g
give_back-first_fit m q lo n [] g p is e = absurd (cc)
give_back-first_fit m q lo n ((a, k) ∷ l) g p is e = elim (Bool-cases (k == n)) [
  | inl t ↦
      let same : k ≡ n = ground (arith, ==_iff k n) in
      let back = front_lem m a a k l is.5 in
      subst (Restores lo n ((a, k) ∷ l)) (some_inj (a, l) g (rw t at e)) (
        is.2,
        omega (arith, is.4),
        omega arith,
        subst (λ z. give_back a z l ≡ some ((a, k) ∷ l)) same back,
      )
  | inr t ↦ elim (Bool-cases (ltb n k)) [
    | inl c ↦
        let less = ltb→lt n k c in
        let above : ltb (a + n) a ≡ false = ground arith in
        let clear : ltb (a + n) (a + n) ≡ false = ground arith in
        let touch : (a + n == a + n) ≡ true = ground (arith, ==_iff (a + n) (a + n)) in
        let sum : n + (k - n) ≡ k = omega arith in
        subst (Restores lo n ((a, k) ∷ l)) (some_inj (a, (a + n, k - n) ∷ l) g (rw (t, c) at e))
          (is.2, omega (arith, is.4), omega arith, rw (above, clear, touch, sum))
    | inr c ↦ elim (Option-cases (first_fit n l)) [
      | inl o ↦ let none_some : none ≡ some g = rw (t, c, o) at e in absurd (cc)
      | inr (r, o) ↦
          let (low, top, size, back) = give_back-first_fit m a (a + k) n l r p is.5 o in
          let ahead : ltb a r.0 ≡ true = ground (arith, is.3) in
          let clear : ltb r.0 (a + k) ≡ false = ground arith in
          let gap : (a + k == r.0) ≡ false = ground (arith, ==_iff (a + k) r.0) in
          subst (Restores lo n ((a, k) ∷ l)) (some_inj (r.0, (a, k) ∷ r.1) g (rw (t, c, o) at e))
            (omega (arith, is.2), top, omega arith, rw (ahead, clear, gap, back))
    ]
  ]
]

pos_inj : (a b : ℕ) → pos a ≡ pos b → a ≡ b
pos_inj a b e = cc (e)

-- In a heap whose free list represents the blocks `l`, in order of address, above the variable
-- `memlist` and not below the heap's end, with more rounds than there are blocks: when `getmem` of
-- a size above 0 and at most 2^32 - 8 has returned an address that is not above `maxaddr`,
-- `freemem` of that address and size ends and returns `ok`, and the free list represents `l` again.
pub freemem-getmem :
    (f nbytes lo a : ℕ) (m m' : Mem) (l : List (ℕ × ℕ))
    → m.memlist ≤ lo
    → m.end ≤ suc lo
    → IsFree m m.memlist lo l
    → 0 < nbytes
    → nbytes ≤ 4294967288
    → length l < f
    → getmem f nbytes m ≡ some (pos a, m')
    → a ≤ m.maxaddr
    → (m'' : Mem) × (freemem f a nbytes m' ≡ some (ok, m'')) × IsFree m'' m.memlist lo l
freemem-getmem f nbytes lo a m m' l low over is p u fuel run under =
    let n = roundmb nbytes in
    let (r, m₁, e, value, blocks, bounds) = getmem-first_fit f nbytes lo m l low is p u fuel in
    let at_r : r ≡ pos a = cc (e, run) in
    let at_m : m₁ ≡ m' = cc (e, run) in
    elim (Option-cases (first_fit n l)) [
      | inl o ↦ let failed : r ≡ syserr = rw o at value in absurd (cc)
      | inr (g, o) ↦
          let at_g : g.0 ≡ a = pos_inj g.0 a (sym (rw o at value) ∙ at_r) in
          let pn : 0 < n = omega (arith, roundmb_lem nbytes p u) in
          let (above, top, size, back) = give_back-first_fit m m.memlist lo n l g pn is o in
          let free : IsFree m₁ m₁.memlist lo g.1 = rw bounds.0 (rw o at blocks) in
          let (s, m₂, e₂, result) =
            freemem-give_back f g.0 nbytes lo m₁ g.1 (rw bounds.0 low) above
              (rw bounds.2 (omega arith)) (rw (bounds.1, at_g) under) p u top free (omega arith) in
          let (done, restored) = rw back at result in
          (m₂, cc (e₂, at_g, at_m, done), rw bounds.0 at restored)
    ]
