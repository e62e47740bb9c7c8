-- ===== src/Memory.antt =====
-- getmem.c and freemem.c of xinu/sys/common, with `roundmb` of include/68000/mem.h. An address is
-- an `unsigned`, a number of 32 bits, and arithmetic on addresses wraps.
pub mod Blocks
pub mod Get
pub mod Free
pub mod Release
pub mod Freemem
pub mod Roundtrip
mod Tests
use xinu_swd.Prelude.{
  ℕ, zero, suc, ◌+◌, ◌*◌, ◌-◌, ◌/◌, ◌%◌, ◌^◌, Bool, ◌&&◌, ◌||◌, Option, none, some, if◌then◌else◌,
  ◌==◌, ltb,
}
use mathlib.Core.Bool.{not}
use xinu_swd.Prelude.Int.{ℤ, pos}
use xinu_swd.Conf.{ok, syserr}

-- The two fields of each `struct mblock`, by its address, the address of the variable `memlist`,
-- and the bounds of the heap.
pub record Mem : Type 0 where
  pub mnext : ℕ → ℕ
  pub mlen : ℕ → ℕ
  pub memlist : ℕ
  pub maxaddr : ℕ
  pub end : ℕ

abbrev pub put : (ℕ → ℕ) → ℕ → ℕ → ℕ → ℕ
put f a v i = if i == a then v else f i

abbrev pub set_mnext : Mem → ℕ → ℕ → Mem
set_mnext m p v = record m { mnext = put m.mnext p v }

abbrev pub set_mlen : Mem → ℕ → ℕ → Mem
set_mlen m p v = record m { mlen = put m.mlen p v }

-- `x + y` and `x - y` on `unsigned`.
abbrev pub add32 : ℕ → ℕ → ℕ
add32 x y = (x + y) % 2 ^ 32

abbrev pub sub32 : ℕ → ℕ → ℕ
sub32 x y = (x + (2 ^ 32 - y)) % 2 ^ 32

-- `(7 + x) & ~07`
unfoldable pub roundmb : ℕ → ℕ
roundmb x = (7 + x) % 2 ^ 32 / 8 * 8

-- The loop of getmem.c: first fit, from the block `p` that `q` points to. `none` is out of rounds.
unfoldable pub get_loop : ℕ → ℕ → ℕ → ℕ → Mem → Option (ℤ × Mem)
get_loop zero nbytes q p m = none
get_loop (suc f) nbytes q p m =
    let rest = get_loop f nbytes p (m.mnext p) m in
    let leftover = add32 p nbytes in
    let m₁ = set_mnext m q leftover in
    let m₂ = set_mnext m₁ leftover (m₁.mnext p) in
    let m₃ = set_mlen m₂ leftover (sub32 (m₂.mlen p) nbytes) in
    if p == 0
    then some (syserr, m)
    else (if m.mlen p == nbytes
        then some (pos p, set_mnext m q (m.mnext p))
        else (if ltb nbytes (m.mlen p) then some (pos p, m₃) else rest))

unfoldable pub getmem : ℕ → ℕ → Mem → Option (ℤ × Mem)
getmem f nbytes m =
    if nbytes == 0 || m.mnext m.memlist == 0
    then some (syserr, m)
    else get_loop f (roundmb nbytes) m.memlist (m.mnext m.memlist) m

-- The loop of freemem.c: the blocks between which `block` belongs.
unfoldable pub find_gap : ℕ → ℕ → ℕ → ℕ → Mem → Option (ℕ × ℕ)
find_gap zero block q p m = none
find_gap (suc f) block q p m =
    let rest = find_gap f block p (m.mnext p) m in
    if not (p == 0) && ltb p block then rest else some (q, p)

-- The part of freemem.c behind its loop.
unfoldable pub put_back : ℕ → ℕ → ℕ → ℕ → Mem → ℤ × Mem
put_back block size q p m =
    let top = add32 (m.mlen q) q in
    let joined = set_mlen m q (add32 (m.mlen q) size) in
    let linked = set_mnext (set_mnext (set_mlen m block size) block p) q block in
    let joins = not (q == m.memlist) && top == block in
    let m₁ = if joins then joined else linked in
    let q₁ = if joins then q else block in
    let m₂ = set_mlen m₁ q₁ (add32 (m₁.mlen q₁) (m₁.mlen p)) in
    let m₃ = set_mnext m₂ q₁ (m₂.mnext p) in
    if (ltb block top && not (q == m.memlist)) || (not (p == 0) && ltb p (add32 size block))
    then (syserr, m)
    else (ok, if add32 (m₁.mlen q₁) q₁ == p then m₃ else m₁)

unfoldable pub freemem : ℕ → ℕ → ℕ → Mem → Option (ℤ × Mem)
freemem f block size m =
    if size == 0 || ltb m.maxaddr block || ltb block m.end
    then some (syserr, m)
    else elim (find_gap f block m.memlist (m.mnext m.memlist) m) [
      | none ↦ none
      | some g ↦ some (put_back block (roundmb size) g.0 g.1 m)
    ]
