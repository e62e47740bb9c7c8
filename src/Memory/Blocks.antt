-- ===== src/Memory/Blocks.antt =====
-- The free list as a sequence of blocks, and what leaves it alone.
use xinu_swd.Prelude.{
  ℕ, ◌+◌, ◌-◌, ◌≤◌, ◌<◌, ◌≡◌, ◌∙◌, ◌⊎◌, Option, none, some, List, [], ◌∷◌, arith, if◌then◌else◌,
  ◌==◌, ltb, ==_iff,
}
use xinu_swd.Memory.{Mem, put}

-- The blocks of `l`, each an address and a length, hang on `q`. They lie above `lo`, in order, with a
-- gap in front of each, and none goes round the end of the address space.
abbrev pub IsFree : Mem → ℕ → ℕ → List (ℕ × ℕ) → Type 0
IsFree m q lo [] = m.mnext q ≡ 0
IsFree m q lo ((a, k) ∷ l) =
    (m.mnext q ≡ a)
    × (m.mlen a ≡ k)
    × (lo < a)
    × (0 < k)
    × (a + k < 4294967296)
    × IsFree m a (a + k) l

pub IsFree-lower :
    (m : Mem) (q lo lo' : ℕ) (l : List (ℕ × ℕ)) → lo' ≤ lo → IsFree m q lo l → IsFree m q lo' l
IsFree-lower m q lo lo' [] h is = is
IsFree-lower m q lo lo' ((a, k) ∷ l) h is = (is.0, is.1, omega arith, is.3, is.4, is.5)

-- The same blocks, hung on `q'` in a memory that agrees above `lo`.
pub IsFree-move :
    (m m' : Mem) (q q' lo : ℕ) (l : List (ℕ × ℕ))
    → m'.mnext q' ≡ m.mnext q
    → ((b : ℕ) → lo < b → (m'.mnext b ≡ m.mnext b) × (m'.mlen b ≡ m.mlen b))
    → IsFree m q lo l
    → IsFree m' q' lo l
IsFree-move m m' q q' lo [] e same is = e ∙ is
IsFree-move m m' q q' lo ((a, k) ∷ l) e same is = (
  e ∙ is.0,
  (same a is.2).1 ∙ is.1,
  is.2,
  is.3,
  is.4,
  IsFree-move m m' a a (a + k) l (same a is.2).0 (λ b h. same b (omega (arith, is.2))) is.5,
)

pub put_same : (f : ℕ → ℕ) (a v : ℕ) → put f a v a ≡ v
put_same f a v = ground (arith, ==_iff a a)

pub put_other : (f : ℕ → ℕ) (a v b : ℕ) → (b < a) ⊎ (a < b) → put f a v b ≡ f b
put_other f a v b h = ground (arith, ==_iff b a)

-- First fit on the sequence: the address that is given out, and the blocks that are left.
abbrev pub first_fit : ℕ → List (ℕ × ℕ) → Option (ℕ × List (ℕ × ℕ))
first_fit n [] = none
first_fit n ((a, k) ∷ l) =
    if k == n
    then some (a, l)
    else (if ltb n k
        then some (a, (a + n, k - n) ∷ l)
        else elim (first_fit n l) [ none ↦ none | some r ↦ some (r.0, (a, k) ∷ r.1) ])

-- The bytes of all the blocks.
abbrev pub total : List (ℕ × ℕ) → ℕ
total [] = 0
total ((a, k) ∷ l) = k + total l

-- A block put in front of the blocks of `l`: refused if it meets the first one, and joined to it if
-- it touches it.
abbrev pub join_next : ℕ → ℕ → List (ℕ × ℕ) → Option (List (ℕ × ℕ))
join_next b n [] = some ((b, n) ∷ [])
join_next b n ((a, k) ∷ l) =
    if ltb a (b + n)
    then none
    else (if b + n == a then some ((b, n + k) ∷ l) else some ((b, n) ∷ (a, k) ∷ l))

-- The block of `n` bytes at `b` given back to `l`, joined to its neighbours.
abbrev pub give_back : ℕ → ℕ → List (ℕ × ℕ) → Option (List (ℕ × ℕ))
give_back b n [] = join_next b n []
give_back b n ((a, k) ∷ l) =
    if ltb a b
    then (if ltb b (a + k)
        then none
        else (if a + k == b
            then join_next a (k + n) l
            else elim (give_back b n l) [ none ↦ none | some r ↦ some ((a, k) ∷ r) ]))
    else join_next b n ((a, k) ∷ l)
