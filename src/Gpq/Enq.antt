-- ===== src/Gpq/Enq.antt =====
-- `enq` (xinu/sys/common/gpq.c) keeps the items in descending order of their keys, and puts a new one
-- behind those of the same key.
use xinu_swd.Prelude.{ℕ, suc, ◌≤◌, ◌<◌, ◌≡◌}
use xinu_swd.Prelude.Int.{ℤ, pos, ◌≤ℤ◌, ◌<ℤ◌}
use xinu_swd.Gpq.{Qinfo}
use xinu_swd.Gpq.Slot.{inserted, IsDescending}

-- The fields that the work leaves alone.
abbrev pub SameFields : Qinfo → Qinfo → Type 0
SameFields before after =
    (after.q_valid ≡ before.q_valid)
    × (after.q_type ≡ before.q_type)
    × (after.q_max ≡ before.q_max)
    × (after.q_seen ≡ before.q_seen)

-- The new item in its place, with the queue behind `enq` as `after`.
pub record Inserted (elt key : ℤ) (n : ℕ) (before after : Qinfo) : Type 0 where
  pub p : ℕ
  pub bound : p ≤ n
  pub keys : (i : ℕ) → after.q_key i ≡ inserted p n key before.q_key i
  pub elts : (i : ℕ) → after.q_elt i ≡ inserted p n elt before.q_elt i
  pub descending : IsDescending (suc n) after.q_key
  pub behind : (i : ℕ) → p ≤ i → i < n → before.q_key i <ℤ key
  pub in_front : (i : ℕ) → i < p → key ≤ℤ before.q_key i
  pub count : after.q_count ≡ pos (suc n)
  pub kept : SameFields before after
