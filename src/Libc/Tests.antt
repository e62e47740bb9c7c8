-- ===== src/Libc/Tests.antt =====
-- The C library's theorems at a memory with the string "ab" at 10.
use xinu_swd.Prelude.{◌≡◌, refl, List, [], ◌∷◌, arith, if◌then◌else◌, ◌==◌}
use xinu_swd.Prelude.Int.{ℤ, pos, ◌==ℤ◌}
use xinu_swd.Libc.{Memory}
use xinu_swd.Libc.Str.Read.{IsStr}
use xinu_swd.Libc.Block.{bcopy}
use xinu_swd.Libc.Block.Move.{copied, bcopy_lem}
use xinu_swd.Libc.Num.{cksum}
use xinu_swd.Libc.Num.Cksum.{cksum-cksum}

abbrev m : Memory
m a = if a == 10 then pos 97 else if a == 11 then pos 98 else pos 0

abbrev ab : List ℤ
ab = pos 97 ∷ pos 98 ∷ []

ab-IsStr : IsStr m 10 ab
unfolding ◌==ℤ◌
ab-IsStr = (refl, refl, (refl, refl, refl))

bcopy_example : bcopy 8 10 4 m 12 ≡ copied 8 10 4 m 12
bcopy_example = bcopy_lem 8 10 4 m 12

cksum-cksum_example : cksum (cksum (17664 ∷ 115 ∷ []) ∷ 17664 ∷ 115 ∷ []) ≡ 0
cksum-cksum_example = cksum-cksum (17664 ∷ 115 ∷ []) (omega arith, (omega arith, tt)) (omega arith)
