-- ===== src/Gpq/Deq.antt =====
-- `deq` and `seeq` (xinu/sys/common/gpq.c).
use xinu_swd.Prelude.{ℕ, zero, suc, ◌+◌, ◌≡◌, ap, ◌∙◌, true, false, arith, List, [], ◌∷◌}
use xinu_swd.Prelude.Int.{ℤ, pos, negsuc, leb_ℤ, ◌+ℤ◌}
use xinu_swd.Gpq.{seeq_body, Qinfo}

-- The items that `n` calls of `seeq` return, one after the other.
abbrev pub see : ℕ → Qinfo → List ℤ
see zero q = []
see (suc n) q = let (e, q') = seeq_body q in e ∷ see n q'

-- The elements from the place `i` on, and `NULL` behind the last.
abbrev pub from : ℕ → ℕ → (ℕ → ℤ) → List ℤ
from zero i elts = pos 0 ∷ []
from (suc n) i elts = elts i ∷ from n (i + 1) elts

see_next :
    (n i : ℕ) (q : Qinfo)
    → q.q_count ≡ pos (i + suc n)
    → q.q_seen +ℤ pos 1 ≡ pos i
    → seeq_body q ≡ (q.q_elt i, record q { q_seen = pos i })
unfolding seeq_body
see_next n i q c s = let t : leb_ℤ q.q_count (pos i) ≡ false = rw c (ground arith) in rw (s, t)

see_last :
    (i : ℕ) (q : Qinfo)
    → q.q_count ≡ pos i
    → q.q_seen +ℤ pos 1 ≡ pos i
    → seeq_body q ≡ (pos 0, record q { q_seen = negsuc 0 })
unfolding seeq_body
see_last i q c s = let t : leb_ℤ q.q_count (pos i) ≡ true = rw c (ground arith) in rw (s, t)

up_one : (i : ℕ) → pos i +ℤ pos 1 ≡ pos (i + 1)
unfolding ◌+ℤ◌
up_one i = ground arith

see_lem :
    (n i : ℕ) (q : Qinfo)
    → q.q_count ≡ pos (i + n)
    → q.q_seen +ℤ pos 1 ≡ pos i
    → see (suc n) q ≡ from n i q.q_elt
see_lem zero i q c s = rw (see_last i q (c ∙ ap pos (omega arith)) s)
see_lem (suc n) i q c s =
    let next : Qinfo = record q { q_seen = pos i } in
    rw (see_next n i q c s)
      (ap (λ z. q.q_elt i ∷ z) (see_lem n (i + 1) next (c ∙ ap pos (omega arith)) (up_one i)))

-- On a queue of `n` items on which no peek is under way, `n + 1` calls of `seeq` return its
-- elements in order and then `NULL`.
pub see-from :
    (n : ℕ) (q : Qinfo) → q.q_count ≡ pos n → q.q_seen ≡ negsuc 0 → see (suc n) q ≡ from n 0 q.q_elt
unfolding ◌+ℤ◌
see-from n q c s = see_lem n 0 q (rw c (ground arith)) (rw s)
