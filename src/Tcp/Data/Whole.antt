-- ===== src/Tcp/Data/Whole.antt =====
-- A segment in order that fits into the window is taken whole.
use xinu_swd.Prelude.{
  ℕ, suc, ◌+◌, ◌-◌, ◌%◌, ◌^◌, ◌<◌, ◌≤◌, ◌≡◌, ap, ◌∙◌, false, if◌then◌else◌, arith, if_false,
}
use xinu_swd.Prelude.Int.{pos, ◌-ℤ◌, ltb_ℤ}
use xinu_swd.Tcp.{Packet, Tcb, seqcmp, seq_add, word, signed}
use xinu_swd.Tcp.Window.{room}
use xinu_swd.Tcp.Data.{cut}

pub seqcmp_self : (a : ℕ) → a < 2 ^ 32 → seqcmp a a ≡ pos 0
unfolding seqcmp
seqcmp_self a b =
    let none : (a + (2 ^ 32 - a % 2 ^ 32)) % 2 ^ 32 ≡ 0 = omega arith in ap signed none

-- A difference of numbers that is negative or 0.
signed_behind : (x : ℕ) → 2 ^ 31 ≤ x → ltb_ℤ (pos 0) (signed x) ≡ false
signed_behind x h = ground arith

seqcmp_within :
    (a m w : ℕ)
    → m ≤ w
    → w < 2 ^ 31
    → a < 2 ^ 32
    → ltb_ℤ (pos 0) (seqcmp (seq_add a m) (seq_add a w)) ≡ false
unfolding seqcmp
seqcmp_within a m w m_w w_b a_b = ground arith

-- The last number of `suc m` from `a` on.
word_last : (m : ℕ) → m < 2 ^ 31 → word (pos (suc m) -ℤ pos 1) ≡ m
unfolding ◌-ℤ◌
word_last m h =
    let one_less : pos (suc m) -ℤ pos 1 ≡ pos m = ground arith in ap word one_less ∙ omega arith

pub cut_whole :
    (t : Tcb) (p : Packet) (m w : ℕ)
    → p.len ≡ pos (suc m)
    → room t ≡ pos (suc w)
    → m ≤ w
    → w < 2 ^ 31
    → p.seq < 2 ^ 32
    → t.rnext ≡ p.seq
    → ((cut t p).first ≡ p.seq) × ((cut t p).datalen ≡ pos (suc m))
unfolding cut
cut_whole t p m w l r m_w w_b seq_b e =
    let before : seqcmp t.rnext p.seq ≡ pos 0 =
      ap (λ a. seqcmp a p.seq) e ∙ seqcmp_self p.seq seq_b in
    let late : ltb_ℤ (pos 0) (seqcmp t.rnext p.seq) ≡ false = ap (λ d. ltb_ℤ (pos 0) d) before in
    let last : seq_add p.seq (word (p.len -ℤ pos 1)) ≡ seq_add p.seq m =
      ap (λ x. seq_add p.seq (word (x -ℤ pos 1))) l
      ∙ ap (λ x. seq_add p.seq x) (word_last m (omega arith)) in
    let wlast : seq_add t.rnext (word (room t -ℤ pos 1)) ≡ seq_add p.seq w =
      ap (λ a. seq_add a (word (room t -ℤ pos 1))) e
      ∙ (ap (λ x. seq_add p.seq (word (x -ℤ pos 1))) r
          ∙ ap (λ x. seq_add p.seq x) (word_last w w_b)) in
    let beyond =
      seqcmp (seq_add p.seq (word (p.len -ℤ pos 1))) (seq_add t.rnext (word (room t -ℤ pos 1))) in
    let over : ltb_ℤ (pos 0) beyond ≡ false =
      ap (λ a. ltb_ℤ (pos 0) (seqcmp a (seq_add t.rnext (word (room t -ℤ pos 1))))) last
      ∙ (ap (λ a. ltb_ℤ (pos 0) (seqcmp (seq_add p.seq m) a)) wlast
          ∙ seqcmp_within p.seq m w m_w w_b seq_b) in
    let len =
      if ltb_ℤ (pos 0) (seqcmp t.rnext p.seq) then p.len -ℤ seqcmp t.rnext p.seq else p.len in
    (
      if_false late t.rnext p.seq,
      if_false over (len -ℤ beyond) len ∙ (if_false late (p.len -ℤ seqcmp t.rnext p.seq) p.len ∙ l),
    )
