-- ===== src/Libc/Block/Move.antt =====
-- `bcopy` (libc/common/bcopy.c) copies blocks that overlap, by bytes or by longs.
use xinu_swd.Prelude.{
  ℕ, zero, suc, ◌+◌, ◌*◌, ◌-◌, ◌/◌, ◌%◌, ◌≤◌, ◌<◌, ◌≡◌, refl, ◌∙◌, false, ◌||◌, arith, Bool-cases,
  inl, inr, if◌then◌else◌, ◌==◌, ltb, leb, ==_iff, ltb→lt,
}
use xinu_swd.Libc.{Memory}
use xinu_swd.Libc.Block.{move, copy_up, copy_down, unaligned, bcopy}

-- The bytes of `n` units.
abbrev len : ℕ → ℕ → ℕ
len u zero = 0
len u (suc n) = u + len u n

len_1 : (n : ℕ) → len 1 n ≡ n
len_1 zero = refl
len_1 (suc n) = omega (arith, len_1 n)

len_4 : (n : ℕ) → len 4 n ≡ 4 * n
len_4 zero = refl
len_4 (suc n) = omega (arith, len_4 n)

-- The memory in which the old bytes from `src` stand at `dst`.
abbrev pub copied : ℕ → ℕ → ℕ → Memory → Memory
copied src dst length m a =
    if leb dst a then (if ltb a (dst + length) then m (src + (a - dst)) else m a) else m a

copy_up_lem :
    (u n dst src : ℕ) (m : Memory) (a : ℕ)
    → dst + u ≤ src
    → copy_up u n dst src m a ≡ copied src dst (len u n) m a
unfolding copy_up
copy_up_lem u zero dst src m a h = ground arith
copy_up_lem u (suc n) dst src m a h =
    copy_up_lem u n (dst + u) (src + u) (move u dst src m) a (omega arith) ∙ grind arith

copy_down_lem :
    (u n dst src : ℕ) (m : Memory) (a : ℕ)
    → src + u ≤ dst
    → copy_down u n (dst + len u n) (src + len u n) m a ≡ copied src dst (len u n) m a
unfolding copy_down
copy_down_lem u zero dst src m a h = ground arith
copy_down_lem u (suc n) dst src m a h =
    let at_dst : dst + (u + len u n) - u ≡ dst + len u n = omega arith in
    let at_src : src + (u + len u n) - u ≡ src + len u n = omega arith in
    rw (at_dst, at_src)
      (copy_down_lem u n dst src (move u (dst + len u n) (src + len u n) m) a h ∙ grind arith)

-- What the three tests on alignment give.
aligned_parts :
    (src dst length : ℕ)
    → unaligned src dst length ≡ false
    → (src % 4 ≡ 0) × (dst % 4 ≡ 0) × (length % 4 ≡ 0)
aligned_parts src dst length h = (
  ground (arith, ==_iff (src % 4) 0),
  ground (arith, ==_iff (dst % 4) 0),
  ground (arith, ==_iff (length % 4) 0),
)

four : (n : ℕ) → n % 4 ≡ 0 → len 4 (n / 4) ≡ n
four n h = omega (arith, len_4 (n / 4))

up_lem :
    (src dst length : ℕ) (m : Memory) (a : ℕ)
    → dst < src
    → (if unaligned src dst length
          then copy_up 1 length dst src m
          else copy_up 4 (length / 4) dst src m)
        a
      ≡ copied src dst length m a
up_lem src dst length m a h = elim (Bool-cases (unaligned src dst length)) [
  | inl e ↦ rw e (rw len_1 at (copy_up_lem 1 length dst src m a (omega arith)))
  | inr e ↦
      let (s, d, l) = aligned_parts src dst length e in
      rw e (rw (four length l) at (copy_up_lem 4 (length / 4) dst src m a (omega arith)))
]

down_lem :
    (src dst length : ℕ) (m : Memory) (a : ℕ)
    → src < dst
    → (if unaligned (src + length) (dst + length) length
          then copy_down 1 length (dst + length) (src + length) m
          else copy_down 4 (length / 4) (dst + length) (src + length) m)
        a
      ≡ copied src dst length m a
down_lem src dst length m a h = elim (Bool-cases (unaligned (src + length) (dst + length) length)) [
  | inl e ↦ rw e (rw len_1 at (copy_down_lem 1 length dst src m a (omega arith)))
  | inr e ↦
      let (s, d, l) = aligned_parts (src + length) (dst + length) length e in
      rw e (rw (four length l) at (copy_down_lem 4 (length / 4) dst src m a (omega arith)))
]

-- After `bcopy` every byte of the target has the value that the byte at its place in the source had
-- before, and all other bytes are unchanged, also where the two blocks overlap and whether it
-- copies bytes or longs.
pub bcopy_lem :
    (src dst length : ℕ) (m : Memory) (a : ℕ) → bcopy src dst length m a ≡ copied src dst length m a
unfolding bcopy
bcopy_lem src dst length m a = elim (Bool-cases (length == 0 || src == dst)) [
  | inl e ↦ rw e (grind arith)
  | inr e ↦ elim (Bool-cases (ltb dst src)) [
    | inl b ↦ rw (e, b) (up_lem src dst length m a (ltb→lt dst src b))
    | inr b ↦ rw (e, b) (down_lem src dst length m a (ground arith))
  ]
]
