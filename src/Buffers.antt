-- ===== src/Buffers.antt =====
-- Buffer pools: poolinit.c, mkpool.c, getbuf.c and freebuf.c of xinu/sys/common. A free buffer's
-- first word points to the next one, and a buffer in use has its pool's number there.
use xinu_swd.Prelude.{
  ℕ, zero, suc, ◌+◌, ◌*◌, ◌-◌, Bool, true, false, ◌||◌, Option, none, some, if◌then◌else◌, ◌==◌,
  ltb,
}
use mathlib.Core.Bool.{not}
use xinu_swd.Prelude.Int.{ℤ, pos, ◌==ℤ◌, ltb_ℤ, leb_ℤ, pos_part}
use xinu_swd.Conf.{ok, syserr}
use xinu_swd.Queue.{update}
use xinu_swd.Kernel.{Kernel, M}
use xinu_swd.Kernel.Sem.{wait, signal, screate}
use xinu_swd.Memory.{Mem, getmem}

-- `NBPOOLS` of xinu/config/mio, `BPMINB` of include/bufpool.h, `BPMAXB` and `BPMAXN` of
-- xinu/config/mio.
abbrev pub max_pools : ℤ
max_pools = pos 5

abbrev pub bp_min : ℕ
bp_min = 2

abbrev pub bp_max : ℕ
bp_max = 4096

abbrev pub bp_maxn : ℕ
bp_maxn = 512

pub record Bpool : Type 0 where
  pub bpsize : ℕ
  pub bpnext : ℕ
  pub bpsem : ℤ

-- `words` is the memory that buffers are made of, by the address of a word.
pub record Buffers : Type 0 where
  pub bptab : ℤ → Bpool
  pub nbpools : ℕ
  pub marked : Bool
  pub words : ℕ → ℤ

abbrev pub put {ℓ} : {A : Type ℓ} → (ℕ → A) → ℕ → A → ℕ → A
put f a v i = if i == a then v else f i

-- The first call marks, and sets the number of pools; `mark` returns 0 then.
unfoldable pub poolinit : Buffers → ℤ × Buffers
poolinit b = if b.marked then (syserr, b) else (ok, record b { nbpools = 0; marked = true })

-- The loop of `mkpool`: `n` more buffers of `size` bytes behind the one at `where`.
unfoldable pub link_buffers : ℕ → ℕ → ℕ → (ℕ → ℤ) → ℕ → ℤ
link_buffers zero size at words = put words at (pos 0)
link_buffers (suc n) size at words =
    link_buffers n size (at + size) (put words at (pos (at + size)))

unfoldable pub mkpool : ℕ → ℕ → ℕ → Kernel → Mem → Buffers → Option (ℤ × Kernel × Mem × Buffers)
mkpool f bufsiz numbufs k m b₀ =
    let b = (if b₀.marked then b₀ else (poolinit b₀).1) in
    let (sem, k') = screate (pos numbufs) k in
    if ltb bufsiz bp_min
      || ltb bp_max bufsiz
      || ltb numbufs 1
      || ltb bp_maxn numbufs
      || leb_ℤ max_pools (pos b.nbpools)
    then some (syserr, k, m, b)
    else elim (getmem f ((bufsiz + 4) * numbufs) m) [
      | none ↦ none
      | some (r, m') ↦
          let first = pos_part r in
          let pool : Bpool = record { bpsize = bufsiz; bpnext = first; bpsem = sem } in
          let b' = record b {
            bptab = update b.bptab (pos b.nbpools) pool;
            nbpools = b.nbpools + 1;
            words = link_buffers (numbufs - 1) (bufsiz + 4) first b.words;
          } in
          some (if r ==ℤ syserr then (syserr, k, m', b) else (pos b.nbpools, k', m', b'))
    ]

abbrev pub is_bad_pool : ℤ → Buffers → Bool
is_bad_pool p b = not b.marked || ltb_ℤ p (pos 0) || leb_ℤ (pos b.nbpools) p

-- `getbuf` up to and with its call of `wait`; `false` is `SYSERR`.
unfoldable pub getbuf_wait : ℤ → Buffers → M Bool
getbuf_wait p b k =
    if is_bad_pool p b
    then some (false, k)
    else elim (wait (b.bptab p).bpsem k) [ none ↦ none | some (v, k') ↦ some (true, k') ]

-- The rest of `getbuf`, which returns the address behind the first word.
unfoldable pub getbuf_rest : ℤ → Buffers → ℕ × Buffers
getbuf_rest p b =
    let buf = (b.bptab p).bpnext in
    let next = pos_part (b.words buf) in
    (
      buf + 4,
      record b {
        bptab = update b.bptab p (record (b.bptab p) { bpnext = next });
        words = put b.words buf p;
      },
    )

-- The buffer goes back to the pool whose number stands in front of it.
unfoldable pub freebuf : ℕ → Buffers → Kernel → Option (ℤ × Kernel × Buffers)
freebuf buf b k =
    let at = buf - 4 in
    let p = b.words at in
    let b' = record b {
      bptab = update b.bptab p (record (b.bptab p) { bpnext = at });
      words = put b.words at (pos (b.bptab p).bpnext);
    } in
    if is_bad_pool p b
    then some (syserr, k, b)
    else elim (signal (b.bptab p).bpsem k) [ none ↦ none | some (v, k') ↦ some (ok, k', b') ]
