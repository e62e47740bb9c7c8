-- ===== src/Gpq/Slot.antt =====
-- The array of a queue of xinu/sys/common/gpq.c with one more item in the slot that `enq` finds.
use xinu_swd.Prelude.{
  ℕ, zero, suc, ◌-◌, ◌≤◌, ◌<◌, ◌≡◌, refl, sym, ◌∙◌, inl, inr, arith, if◌then◌else◌, ◌==◌, ltb, leb,
  ==_iff, Bool-cases, ltb→lt, leb→le,
}
use xinu_swd.Prelude.Int.{ℤ, ◌≤ℤ◌, ◌<ℤ◌, ltb_ℤ}
use mathlib.Core.Path.{subst}
use xinu_swd.Gpq.{put, find_slot, shift_up}

-- The array after `v` is put in at `p`, before the items from there up to `n`.
abbrev pub inserted : ℕ → ℕ → ℤ → (ℕ → ℤ) → ℕ → ℤ
inserted p n v a i =
    if ltb i p then a i else (if i == p then v else (if leb i n then a (i - 1) else a i))

pub shift_up_lem :
    (n p : ℕ) (a : ℕ → ℤ) (v : ℤ) (i : ℕ) → p ≤ n → put (shift_up n p a) p v i ≡ inserted p n v a i
unfolding shift_up
shift_up_lem zero p a v i h = grind arith
shift_up_lem (suc j) p a v i h = elim (Bool-cases (leb p j)) [
  | inl e ↦ rw e (shift_up_lem j p (put a (suc j) (a j)) v i (leb→le p j e) ∙ grind arith)
  | inr e ↦ rw e (grind arith)
]

pub find_slot_lem :
    (n : ℕ) (key : ℤ) (keys : ℕ → ℤ)
    → (find_slot n key keys ≤ n)
      × ((i : ℕ) → find_slot n key keys ≤ i → i < n → keys i <ℤ key)
      × ((i : ℕ) → suc i ≡ find_slot n key keys → key ≤ℤ keys i)
unfolding find_slot
find_slot_lem zero key keys =
    (omega arith, λ i h l. absurd (omega arith), λ i h. absurd (omega arith))
find_slot_lem (suc n) key keys = elim (Bool-cases (ltb_ℤ (keys n) key)) [
  | inl e ↦
      let (b, above, at) = find_slot_lem n key keys in
      rw e (
        omega (arith, b),
        λ i h l. elim (Bool-cases (i == n)) [
          | inl s ↦ let same : i ≡ n = ground (arith, ==_iff i n) in rw same (ground arith)
          | inr s ↦ above i h (ground (arith, ==_iff i n))
        ],
        at,
      )
  | inr e ↦ rw e (
    omega arith,
    λ i h l. absurd (omega arith),
    λ i h. let same : i ≡ n = omega arith in rw same (ground arith),
  )
]

-- The first `n` keys go down or stay.
abbrev pub IsDescending : ℕ → (ℕ → ℤ) → Type 0
IsDescending n keys = (i : ℕ) → suc i < n → keys (suc i) ≤ℤ keys i

inserted_low : (n p : ℕ) (v : ℤ) (a : ℕ → ℤ) (i : ℕ) → i < p → inserted p n v a i ≡ a i
inserted_low n p v a i h = ground arith

inserted_at : (n p : ℕ) (v : ℤ) (a : ℕ → ℤ) → inserted p n v a p ≡ v
inserted_at n p v a = ground arith

inserted_high :
    (n p : ℕ) (v : ℤ) (a : ℕ → ℤ) (i : ℕ) → p ≤ i → i < n → inserted p n v a (suc i) ≡ a i
inserted_high n p v a i h l = grind arith

≤ℤ_trans : (a b c : ℤ) → a ≤ℤ b → b ≤ℤ c → a ≤ℤ c
≤ℤ_trans a b c h k = omega arith

pub before_slot :
    (n p : ℕ) (key : ℤ) (keys : ℕ → ℤ)
    → p ≤ n
    → IsDescending n keys
    → ((i : ℕ) → suc i ≡ p → key ≤ℤ keys i)
    → (i : ℕ) → i < p
    → key ≤ℤ keys i
before_slot n zero key keys b down at i h = absurd (omega arith)
before_slot n (suc p) key keys b down at i h = elim (Bool-cases (i == p)) [
  | inl e ↦ at i (ground (arith, ==_iff i p))
  | inr e ↦
      before_slot n p key keys (omega arith) down
        (λ j s. ≤ℤ_trans key (keys p) (keys j) (at p refl) (rw s at (down j (omega arith)))) i
        (ground (arith, ==_iff i p))
]

after_slot :
    (n p : ℕ) (key : ℤ) (keys : ℕ → ℤ) (i : ℕ)
    → p ≤ i
    → i < n
    → ((i : ℕ) → p ≤ i → i < n → keys i <ℤ key)
    → IsDescending n keys
    → keys i ≤ℤ inserted p n key keys i
after_slot n p key keys zero g l above down =
    let z : 0 ≡ p = omega arith in
    subst (λ z. keys 0 ≤ℤ inserted p n key keys z) (sym z)
      (rw (inserted_at n p key keys) (omega (arith, above 0 g l)))
after_slot n p key keys (suc j) g l above down = elim (Bool-cases (suc j == p)) [
  | inl e ↦
      let s : suc j ≡ p = ground (arith, ==_iff (suc j) p) in
      let less = above (suc j) g l in
      subst (λ z. keys (suc j) ≤ℤ inserted p n key keys z) (sym s)
        (rw (inserted_at n p key keys) (omega arith))
  | inr e ↦
      rw (inserted_high n p key keys j (ground (arith, ==_iff (suc j) p)) (omega arith)) (down j l)
]

pub inserted-IsDescending :
    (n p : ℕ) (key : ℤ) (keys : ℕ → ℤ)
    → p ≤ n
    → ((i : ℕ) → p ≤ i → i < n → keys i <ℤ key)
    → ((i : ℕ) → suc i ≡ p → key ≤ℤ keys i)
    → IsDescending n keys
    → IsDescending (suc n) (inserted p n key keys)
inserted-IsDescending n p key keys b above at down i h = elim (Bool-cases (ltb i p)) [
  | inl l ↦ elim (Bool-cases (suc i == p)) [
    | inl e ↦
        let s : suc i ≡ p = ground (arith, ==_iff (suc i) p) in
        rw (inserted_low n p key keys i (ltb→lt i p l), s, inserted_at n p key keys) (at i s)
    | inr e ↦
        let k : suc i < p = ground (arith, ==_iff (suc i) p) in
        rw (inserted_low n p key keys i (ltb→lt i p l), inserted_low n p key keys (suc i) k)
          (down i (omega arith))
  ]
  | inr l ↦
      let g : p ≤ i = ground arith in
      rw (inserted_high n p key keys i g (omega arith))
        (after_slot n p key keys i g (omega arith) above down)
]
