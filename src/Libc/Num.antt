-- ===== src/Libc/Num.antt =====
-- abs.c, atoi.c, atol.c, rand.c and cksum.c of libc/common. An `unsigned long` has 32 bits.
pub mod Cksum
use xinu_swd.Prelude.{
  ℕ, zero, suc, ◌+◌, ◌*◌, ◌-◌, ◌/◌, ◌%◌, ◌^◌, Bool, ◌&&◌, ◌||◌, Option, none, some, List, [], ◌∷◌,
  if◌then◌else◌,
}
use xinu_swd.Prelude.Int.{ℤ, pos, negsuc, ◌==ℤ◌, ◌-ℤ◌, ◌+ℤ◌, ltb_ℤ, leb_ℤ}
use xinu_swd.Libc.{Memory}

abbrev pub negate : ℤ → ℤ
negate n = pos 0 -ℤ n

unfoldable pub abs : ℤ → ℤ
abs arg = if ltb_ℤ arg (pos 0) then negate arg else arg

-- `n * 10`
abbrev pub times10 : ℤ → ℤ
times10 (pos n) = pos (10 * n)
times10 (negsuc n) = negsuc (10 * n + 9)

-- The digits of atoi.c; '0' is 48 and '9' is 57.
unfoldable pub digits : ℕ → Memory → ℕ → ℤ → Option ℤ
digits zero m p n = none
digits (suc f) m p n =
    let rest = digits f m (p + 1) ((times10 n +ℤ m p) -ℤ pos 48) in
    if leb_ℤ (pos 48) (m p) && leb_ℤ (m p) (pos 57) then rest else some n

-- `atoi` and `atol`, which are the same: an `int` has the width of a `long`. Blanks and tabs are
-- passed over, and then one sign.
unfoldable pub atoi : ℕ → Memory → ℕ → Option ℤ
atoi zero m p = none
atoi (suc f) m p =
    let rest = atoi f m (p + 1) in
    let plain = digits f m p (pos 0) in
    let plus = digits f m (p + 1) (pos 0) in
    let minus : Option ℤ = elim (digits f m (p + 1) (pos 0)) [
      | none ↦ none
      | some n ↦ some (negate n)
    ] in
    if m p ==ℤ pos 32 || m p ==ℤ pos 9
    then rest
    else (if m p ==ℤ pos 45 then minus else (if m p ==ℤ pos 43 then plus else plain))

-- `srand` sets the state; `rand` gives fifteen bits of it. The state is kept as 32 bits, and the
-- shift's result agrees with that of the signed one in the bits that the mask keeps.
unfoldable pub rand : ℕ → ℕ × ℕ
rand randx = let next = (randx * 1103515245 + 12345) % 2 ^ 32 in ((next / 2 ^ 16) % 2 ^ 15, next)

-- The sum of 16-bit words.
unfoldable pub word_sum : ℕ → List ℕ → ℕ
word_sum sum [] = sum
word_sum sum (w ∷ ws) = word_sum ((sum + w) % 2 ^ 32) ws

-- The carries added in, twice.
unfoldable pub fold_carries : ℕ → ℕ
fold_carries sum = let once = sum / 2 ^ 16 + sum % 2 ^ 16 in once + once / 2 ^ 16

-- The complement, as 16 bits.
unfoldable pub cksum : List ℕ → ℕ
cksum buf = 2 ^ 16 - 1 - fold_carries (word_sum 0 buf) % 2 ^ 16
