-- ===== src/Libc/Block.antt =====
-- bcopy.c, blkcopy.c, blkcmp.c, blkequ.c, bzero.c, memchr.c and swab.c of libc/common. Lengths are
-- not negative.
pub mod Move
use xinu_swd.Prelude.{
  ℕ, zero, suc, ◌+◌, ◌*◌, ◌-◌, ◌/◌, ◌%◌, Bool, true, false, ◌||◌, Option, none, some, if◌then◌else◌,
  ◌==◌, ltb, leb,
}
use mathlib.Core.Bool.{not}
use xinu_swd.Prelude.Int.{ℤ, pos, ◌==ℤ◌, ◌-ℤ◌, ◌+ℤ◌, ltb_ℤ}
use xinu_swd.Libc.{Memory}
use xinu_swd.Libc.Str.{store}

-- One assignment through pointers to units of `u` bytes.
abbrev pub move : ℕ → ℕ → ℕ → Memory → Memory
move u dst src m a =
    if leb dst a then (if ltb a (dst + u) then m (src + (a - dst)) else m a) else m a

-- `do *dst++ = *src++; while (--length);`
unfoldable pub copy_up : ℕ → ℕ → ℕ → ℕ → Memory → Memory
copy_up u zero dst src m = m
copy_up u (suc n) dst src m = copy_up u n (dst + u) (src + u) (move u dst src m)

-- `do *--dst = *--src; while (--length);` from the pointers behind the blocks.
unfoldable pub copy_down : ℕ → ℕ → ℕ → ℕ → Memory → Memory
copy_down u zero dst src m = m
copy_down u (suc n) dst src m = copy_down u n (dst - u) (src - u) (move u (dst - u) (src - u) m)

-- `((int)src | (int)dst | length) & 3`
abbrev pub unaligned : ℕ → ℕ → ℕ → Bool
unaligned src dst length = not (src % 4 == 0) || not (dst % 4 == 0) || not (length % 4 == 0)

unfoldable pub bcopy : ℕ → ℕ → ℕ → Memory → Memory
bcopy src dst length m =
    if length == 0 || src == dst
    then m
    else (if ltb dst src
        then (if unaligned src dst length
            then copy_up 1 length dst src m
            else copy_up 4 (length / 4) dst src m)
        else (if unaligned (src + length) (dst + length) length
            then copy_down 1 length (dst + length) (src + length) m
            else copy_down 4 (length / 4) (dst + length) (src + length) m))

unfoldable pub blkcopy : ℕ → ℕ → ℕ → Memory → Memory
blkcopy to from n m = copy_up 1 n to from m

-- The value of a `char` as an `unsigned char`.
abbrev pub unsigned_char : ℤ → ℤ
unsigned_char c = if ltb_ℤ c (pos 0) then c +ℤ pos 256 else c

unfoldable pub blkcmp : ℕ → Memory → ℕ → ℕ → ℤ
blkcmp zero m s1 s2 = pos 0
blkcmp (suc n) m s1 s2 =
    let rest = blkcmp n m (s1 + 1) (s2 + 1) in
    let rv = unsigned_char (m s1) -ℤ unsigned_char (m s2) in if rv ==ℤ pos 0 then rest else rv

unfoldable pub blkequ : ℕ → Memory → ℕ → ℕ → Bool
blkequ zero m first second = true
blkequ (suc n) m first second =
    let rest = blkequ n m (first + 1) (second + 1) in if m first ==ℤ m second then rest else false

unfoldable pub bzero : ℕ → ℕ → Memory → Memory
bzero zero pch m = m
bzero (suc n) pch m = bzero n (pch + 1) (store m pch (pos 0))

unfoldable pub memchr : ℕ → Memory → ℕ → ℤ → Option ℕ
memchr zero m s c = none
memchr (suc n) m s c = let rest = memchr n m (s + 1) c in if m s ==ℤ c then some s else rest

-- One round of swab.c on a word of two bytes.
abbrev pub swap_word : ℕ → ℕ → Memory → Memory
swap_word pf pt m = let high = m pf in let low = m (pf + 1) in store (store m pt low) (pt + 1) high

unfoldable pub swab_loop : ℕ → ℕ → ℕ → Memory → Memory
swab_loop zero pf pt m = m
swab_loop (suc n) pf pt m = swab_loop n (pf + 2) (pt + 2) (swap_word pf pt m)

unfoldable pub swab : ℕ → ℕ → ℕ → Memory → Memory
swab pf pt n m = swab_loop (n / 2) pf pt m
