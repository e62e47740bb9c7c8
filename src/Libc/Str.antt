-- ===== src/Libc/Str.antt =====
-- strlen.c, strcmp.c, strncmp.c, strcpy.c, strncpy.c, strcat.c, strncat.c, index.c and rindex.c of
-- libc/common. A pointer is an address; `none` in a search's value is `NULL`.
pub mod Read
pub mod Write
use xinu_swd.Prelude.{ℕ, zero, suc, ◌+◌, ◌-◌, Option, none, some, if◌then◌else◌, ◌==◌}
use xinu_swd.Prelude.Int.{ℤ, pos, ◌==ℤ◌, ◌-ℤ◌}
use xinu_swd.Libc.{Memory}

-- A write `*p = c`.
abbrev pub store : Memory → ℕ → ℤ → Memory
store m p c a = if a == p then c else m a

-- The loop of strlen.c with the count so far.
unfoldable pub strlen_loop : ℕ → Memory → ℕ → ℕ → Option ℕ
strlen_loop zero m s n = none
strlen_loop (suc f) m s n =
    let rest = strlen_loop f m (s + 1) (n + 1) in if m s ==ℤ pos 0 then some n else rest

unfoldable pub strlen : ℕ → Memory → ℕ → Option ℕ
strlen f m s = strlen_loop f m s 0

unfoldable pub strcmp : ℕ → Memory → ℕ → ℕ → Option ℤ
strcmp zero m s1 s2 = none
strcmp (suc f) m s1 s2 =
    let rest = strcmp f m (s1 + 1) (s2 + 1) in
    if m s1 ==ℤ m s2 then (if m s1 ==ℤ pos 0 then some (pos 0) else rest) else some (m s1 -ℤ m s2)

-- `n` is the bound on the bytes compared, so no fuel is needed.
unfoldable pub strncmp : ℕ → Memory → ℕ → ℕ → ℤ
strncmp zero m s1 s2 = pos 0
strncmp (suc n) m s1 s2 =
    let rest = strncmp n m (s1 + 1) (s2 + 1) in
    if m s1 ==ℤ m s2 then (if m s1 ==ℤ pos 0 then pos 0 else rest) else m s1 -ℤ m s2

-- `while (*s1++ = *s2++) ;`
unfoldable pub copy_loop : ℕ → ℕ → ℕ → Memory → Option Memory
copy_loop zero s1 s2 m = none
copy_loop (suc f) s1 s2 m =
    let m₁ = store m s1 (m s2) in
    let rest = copy_loop f (s1 + 1) (s2 + 1) m₁ in if m₁ s1 ==ℤ pos 0 then some m₁ else rest

-- The value is `s1`.
unfoldable pub strcpy : ℕ → ℕ → ℕ → Memory → Option (ℕ × Memory)
strcpy f s1 s2 m = elim (copy_loop f s1 s2 m) [ none ↦ none | some m' ↦ some (s1, m') ]

-- The inner loop of strncpy.c.
unfoldable pub pad : ℕ → ℕ → Memory → Memory
pad zero s1 m = m
pad (suc n) s1 m = pad n (s1 + 1) (store m s1 (pos 0))

unfoldable pub strncpy_loop : ℕ → ℕ → ℕ → Memory → Memory
strncpy_loop zero s1 s2 m = m
strncpy_loop (suc n) s1 s2 m =
    let m₁ = store m s1 (m s2) in
    let rest = strncpy_loop n (s1 + 1) (s2 + 1) m₁ in
    if m₁ s1 ==ℤ pos 0 then pad n (s1 + 1) m₁ else rest

unfoldable pub strncpy : ℕ → ℕ → ℕ → Memory → ℕ × Memory
strncpy n s1 s2 m = (s1, strncpy_loop n s1 s2 m)

-- `while (*s1++) ; --s1;`
unfoldable pub find_end : ℕ → ℕ → Memory → Option ℕ
find_end zero s m = none
find_end (suc f) s m = let rest = find_end f (s + 1) m in if m s ==ℤ pos 0 then some s else rest

unfoldable pub strcat : ℕ → ℕ → ℕ → Memory → Option (ℕ × Memory)
strcat f s1 s2 m = elim (find_end f s1 m) [
  | none ↦ none
  | some e ↦ elim (copy_loop f e s2 m) [ none ↦ none | some m' ↦ some (s1, m') ]
]

-- The second loop of strncat.c; it takes at most `n + 1` rounds.
unfoldable pub strncat_loop : ℕ → ℕ → ℕ → Memory → Memory
strncat_loop zero s1 s2 m = store (store m s1 (m s2)) s1 (pos 0)
strncat_loop (suc n) s1 s2 m =
    let m₁ = store m s1 (m s2) in
    let rest = strncat_loop n (s1 + 1) (s2 + 1) m₁ in if m₁ s1 ==ℤ pos 0 then m₁ else rest

unfoldable pub strncat : ℕ → ℕ → ℕ → ℕ → Memory → Option (ℕ × Memory)
strncat f n s1 s2 m = elim (find_end f s1 m) [
  | none ↦ none
  | some e ↦ some (s1, strncat_loop n e s2 m)
]

unfoldable pub index : ℕ → Memory → ℕ → ℤ → Option (Option ℕ)
index zero m sp c = none
index (suc f) m sp c =
    let rest = index f m (sp + 1) c in
    if m sp ==ℤ c then some (some sp) else (if m sp ==ℤ pos 0 then some none else rest)

-- `r` is the last place found so far.
unfoldable pub rindex_loop : ℕ → Memory → ℕ → ℤ → Option ℕ → Option (Option ℕ)
rindex_loop zero m sp c r = none
rindex_loop (suc f) m sp c r =
    let r₁ = if m sp ==ℤ c then some sp else r in
    let rest = rindex_loop f m (sp + 1) c r₁ in if m sp ==ℤ pos 0 then some r₁ else rest

unfoldable pub rindex : ℕ → Memory → ℕ → ℤ → Option (Option ℕ)
rindex f m sp c = rindex_loop f m sp c none
