-- ===== src/Memory/Free.antt =====
-- `freemem` (xinu/sys/common/freemem.c): the part of it that joins a block to the one behind it.
use xinu_swd.Prelude.{
  ℕ, ◌+◌, ◌≤◌, ◌<◌, ◌≡◌, refl, ap, ◌∙◌, inl, inr, true, false, some, List, [], ◌∷◌, arith,
  if◌then◌else◌, ◌==◌, ltb, ==_iff, Bool-cases,
}
use xinu_swd.Memory.{Mem, put, add32}
use xinu_swd.Memory.Blocks.{IsFree, IsFree-move, put_same, put_other, join_next}

abbrev pub joined_right : Mem → ℕ → ℕ → Mem
joined_right m q p = record m {
  mlen = put m.mlen q (add32 (m.mlen q) (m.mlen p));
  mnext = put m.mnext q (m.mnext p);
}

-- The last statements of freemem.c.
abbrev pub right : Mem → ℕ → ℕ → Mem
right m q p = if add32 (m.mlen q) q == p then joined_right m q p else m

-- The block at `q` with the blocks behind it: what it becomes, and that nothing below it changes.
pub record Joined (m : Mem) (q : ℕ) (l : List (ℕ × ℕ)) (m' : Mem) : Type 0 where
  pub len : ℕ
  pub rest : List (ℕ × ℕ)
  pub shape : l ≡ (q, len) ∷ rest
  pub length : m'.mlen q ≡ len
  pub positive : 0 < len
  pub bound : q + len < 4294967296
  pub blocks : IsFree m' q (q + len) rest
  pub below : (b : ℕ) → b < q → (m'.mnext b ≡ m.mnext b) × (m'.mlen b ≡ m.mlen b)

some_eq : (l l' : List (ℕ × ℕ)) → some l ≡ some l' → l' ≡ l
some_eq l l' e = cc (e)

pub right_lem :
    (m : Mem) (q k lo : ℕ) (l l' : List (ℕ × ℕ))
    → m.mlen q ≡ k
    → q + k < 4294967296
    → 0 < k
    → q ≤ lo
    → IsFree m q lo l
    → join_next q k l ≡ some l'
    → Joined m q l' (right m q (m.mnext q))
right_lem m q k lo [] l' e u p h is j =
    let apart : (add32 k q == 0) ≡ false =
      let s : add32 k q ≡ q + k = omega arith in rw s (ground (arith, ==_iff (q + k) 0)) in
    rw (is, e, apart)
      (record {
        len = k;
        rest = [];
        shape = some_eq ((q, k) ∷ []) l' j;
        length = e;
        positive = p;
        bound = u;
        blocks = is;
        below = λ b l. (refl, refl);
      })
right_lem m q k lo ((a, k₁) ∷ l) l' e u p h is j = elim (Bool-cases (ltb a (q + k))) [
  | inl c ↦ absurd (ground (arith, rw c at j))
  | inr c ↦ elim (Bool-cases (q + k == a)) [
    | inl t ↦
        let touch : q + k ≡ a = ground (arith, ==_iff (q + k) a) in
        let all : add32 k q ≡ q + k = omega arith in
        let hit : (add32 (m.mlen q) q == m.mnext q) ≡ true = rw (e, is.0, all) t in
        let m' = joined_right m q (m.mnext q) in
        let sum : add32 (m.mlen q) (m.mlen (m.mnext q)) ≡ k + k₁ =
          rw (e, is.0, is.1) (omega (arith, is.4)) in
        let top : q + (k + k₁) ≡ a + k₁ = omega arith in
        rw hit (record {
          len = k + k₁;
          rest = l;
          shape = some_eq ((q, k + k₁) ∷ l) l' (rw (c, t) at j);
          length = put_same m.mlen q (add32 (m.mlen q) (m.mlen (m.mnext q))) ∙ sum;
          positive = omega arith;
          bound = rw top is.4;
          blocks = rw top (
              IsFree-move m m' a q (a + k₁) l
                (put_same m.mnext q (m.mnext (m.mnext q)) ∙ ap m.mnext is.0)
                (λ b u. (
                  put_other m.mnext q (m.mnext (m.mnext q)) b (inr (omega arith)),
                  put_other m.mlen q (add32 (m.mlen q) (m.mlen (m.mnext q))) b (inr (omega arith)),
                ))
                is.5);
          below = λ b u. (
            put_other m.mnext q (m.mnext (m.mnext q)) b (inl u),
            put_other m.mlen q (add32 (m.mlen q) (m.mlen (m.mnext q))) b (inl u),
          );
        })
    | inr t ↦
        let all : add32 k q ≡ q + k = omega arith in
        let miss : (add32 (m.mlen q) q == m.mnext q) ≡ false = rw (e, is.0, all) t in
        rw miss (record {
          len = k;
          rest = (a, k₁) ∷ l;
          shape = some_eq ((q, k) ∷ (a, k₁) ∷ l) l' (rw (c, t) at j);
          length = e;
          positive = p;
          bound = u;
          blocks = (is.0, is.1, ground (arith, ==_iff (q + k) a), is.3, is.4, is.5);
          below = λ b l. (refl, refl);
        })
  ]
]
