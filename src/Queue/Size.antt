-- ===== src/Queue/Size.antt =====
-- A list of distinct process slots has at most `NPROC` entries, so the rounds given to the loops of
-- xinu/sys/common/insert.c and insertd.c are enough.
use xinu_swd.Prelude.{
  ℕ, zero, suc, ◌+◌, ◌≤◌, ◌<◌, ◌≡◌, refl, false, List, [], ◌∷◌, inl, inr, arith, Bool-cases,
  if◌then◌else◌, length,
}
use xinu_swd.Prelude.Int.{ℤ, pos, ◌==ℤ◌, ◌≤ℤ◌, ◌<ℤ◌, ==ℤ_comm, eq_of_==ℤ}
use xinu_swd.Queue.{rounds}
use xinu_swd.Queue.Chain.{has, Distinct}
use xinu_swd.Queue.Lists.{AllSlots}

abbrev AllBelow : ℕ → List ℤ → Type 0
AllBelow n [] = Unit
AllBelow n (x ∷ xs) = ((pos 0 ≤ℤ x) × (x <ℤ pos n)) × AllBelow n xs

abbrev without : ℤ → List ℤ → List ℤ
without a [] = []
without a (x ∷ xs) = if x ==ℤ a then without a xs else x ∷ without a xs

has-without : (a b : ℤ) (xs : List ℤ) → has b xs ≡ false → has b (without a xs) ≡ false
has-without a b [] h = refl
has-without a b (x ∷ xs) h = ground (arith, has-without a b xs)

Distinct-without : (a : ℤ) (xs : List ℤ) → Distinct xs → Distinct (without a xs)
Distinct-without a [] d = tt
Distinct-without a (x ∷ xs) d = elim (Bool-cases (x ==ℤ a)) [
  | inl e ↦ rw e (Distinct-without a xs d.1)
  | inr e ↦ rw e (has-without a x xs d.0, Distinct-without a xs d.1)
]

-- Below `n + 1` and not `n` is below `n`.
below_of_ne :
    (n : ℕ) (x : ℤ)
    → (pos 0 ≤ℤ x) × (x <ℤ pos (suc n))
    → (x ==ℤ pos n) ≡ false
    → (pos 0 ≤ℤ x) × (x <ℤ pos n)
unfolding ◌==ℤ◌
below_of_ne n (pos m) h e = ground arith
below_of_ne n x h e = ground arith

AllBelow-without : (n : ℕ) (xs : List ℤ) → AllBelow (suc n) xs → AllBelow n (without (pos n) xs)
AllBelow-without n [] b = tt
AllBelow-without n (x ∷ xs) b = elim (Bool-cases (x ==ℤ pos n)) [
  | inl e ↦ rw e (AllBelow-without n xs b.1)
  | inr e ↦ rw e (below_of_ne n x b.0 e, AllBelow-without n xs b.1)
]

without_none : (a : ℤ) (xs : List ℤ) → has a xs ≡ false → without a xs ≡ xs
without_none a [] h = refl
without_none a (x ∷ xs) h = ground (arith, without_none a xs, ==ℤ_comm a x)

length-without : (a : ℤ) (xs : List ℤ) → Distinct xs → length xs ≤ length (without a xs) + 1
length-without a [] d = omega arith
length-without a (x ∷ xs) d = elim (Bool-cases (x ==ℤ a)) [
  | inl e ↦ rw (e, without_none a xs (rw (← eq_of_==ℤ x a e) d.0)) (omega arith)
  | inr e ↦ rw e (omega (arith, length-without a xs d.1))
]

length-le_of_AllBelow : (n : ℕ) (xs : List ℤ) → Distinct xs → AllBelow n xs → length xs ≤ n
length-le_of_AllBelow zero [] d b = omega arith
length-le_of_AllBelow zero (x ∷ xs) d b = absurd (omega arith)
length-le_of_AllBelow (suc n) xs d b = omega (
  arith,
  length-without (pos n) xs d,
  length-le_of_AllBelow n (without (pos n) xs) (Distinct-without (pos n) xs d)
      (AllBelow-without n xs b),
)

AllBelow-of_AllSlots : (xs : List ℤ) → AllSlots xs → AllBelow 50 xs
AllBelow-of_AllSlots [] s = tt
AllBelow-of_AllSlots (x ∷ xs) s = (s.0, AllBelow-of_AllSlots xs s.1)

pub length-lt-rounds : (xs : List ℤ) → Distinct xs → AllSlots xs → length xs < rounds
length-lt-rounds xs d s = omega (arith, length-le_of_AllBelow 50 xs d (AllBelow-of_AllSlots xs s))
