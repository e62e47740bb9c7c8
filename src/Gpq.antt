-- ===== src/Gpq.antt =====
-- gpq.c of xinu/sys/common: priority queues in arrays. A queue of type `QF_NOWAIT` is worked on with
-- interrupts off; any other one is guarded by a semaphore, and `lock` and `unlock` are the calls
-- made on it before and behind the work.
pub mod Slot
pub mod Enq
pub mod Deq
mod Tests
use xinu_swd.Prelude.{
  ℕ, zero, suc, ◌+◌, ◌*◌, ◌-◌, Bool, true, false, ◌&&◌, ◌||◌, Option, none, some, if◌then◌else◌,
  ◌==◌, leb,
}
use mathlib.Core.Bool.{not}
use xinu_swd.Prelude.Int.{ℤ, pos, negsuc, ◌==ℤ◌, ◌+ℤ◌, ◌-ℤ◌, ltb_ℤ, leb_ℤ, pos_part}
use xinu_swd.Conf.{ok, syserr}
use xinu_swd.Queue.{update}
use xinu_swd.Kernel.{Kernel, M, pure}
use xinu_swd.Kernel.Sem.{wait, signal, screate, sdelete}
use xinu_swd.Memory.{Mem, getmem, freemem}

-- `MAXNQ`
abbrev pub max_nq : ℤ
max_nq = pos 100

-- `QF_NOWAIT`
abbrev pub qf_nowait : ℤ
qf_nowait = pos 1

-- The items of the arrays at `q_key` and `q_elt`, which `newq` takes from the heap: their addresses
-- and what stands in them.
pub record Qinfo : Type 0 where
  pub q_valid : Bool
  pub q_type : ℤ
  pub q_max : ℤ
  pub q_count : ℤ
  pub q_seen : ℤ
  pub q_mutex : ℤ
  pub key_at : ℤ
  pub elt_at : ℤ
  pub q_key : ℕ → ℤ
  pub q_elt : ℕ → ℤ

pub record Gpqs : Type 0 where
  pub qinit : Bool
  pub queues : ℤ → Qinfo

abbrev pub set_queue : ℤ → Qinfo → Gpqs → Gpqs
set_queue q i g = record g { queues = update g.queues q i }

abbrev pub is_bad_q : ℤ → Bool
is_bad_q q = ltb_ℤ q (pos 0) || leb_ℤ max_nq q

abbrev pub put {ℓ} : {A : Type ℓ} → (ℕ → A) → ℕ → A → ℕ → A
put f a v i = if i == a then v else f i

unfoldable pub lock : Qinfo → M ℤ
lock i = if i.q_type ==ℤ qf_nowait then pure ok else wait i.q_mutex

unfoldable pub unlock : Qinfo → M ℤ
unlock i = if i.q_type ==ℤ qf_nowait then pure ok else signal i.q_mutex

-- `while(i >= 0 && key > qp->q_key[i]) --i;` from `i = n - 1`; the value is `i + 1`.
unfoldable pub find_slot : ℕ → ℤ → (ℕ → ℤ) → ℕ
find_slot zero key keys = 0
find_slot (suc n) key keys =
    let rest = find_slot n key keys in if ltb_ℤ (keys n) key then rest else suc n

-- `for (j = n - 1; j >= p; --j) a[j+1] = a[j];`
unfoldable pub shift_up {ℓ} : {A : Type ℓ} → ℕ → ℕ → (ℕ → A) → ℕ → A
shift_up zero p a = a
shift_up (suc j) p a = let rest = shift_up j p (put a (suc j) (a j)) in if leb p j then rest else a

-- What `enq` does between `lock` and `unlock`; the value is `left`.
unfoldable pub enq_body : ℤ → ℤ → Qinfo → ℤ × Qinfo
enq_body elt key i =
    let n = pos_part i.q_count in
    let p = find_slot n key i.q_key in
    let count = pos n +ℤ pos 1 in
    (
      i.q_max -ℤ count,
      record i {
        q_key = put (shift_up n p i.q_key) p key;
        q_elt = put (shift_up n p i.q_elt) p elt;
        q_count = count;
      },
    )

-- The tests at the head of `enq`, made before `lock`.
unfoldable pub enq_refused : ℤ → Gpqs → Bool
enq_refused q g =
    is_bad_q q || not (g.queues q).q_valid || leb_ℤ (g.queues q).q_max (g.queues q).q_count

-- `enq` where `lock` does not block.
unfoldable pub enq : ℤ → ℤ → ℤ → Gpqs → ℤ × Gpqs
enq q elt key g =
    let (left, i) = enq_body elt key (g.queues q) in
    if enq_refused q g then (negsuc 0, g) else (left, set_queue q i g)

-- `for (i=1; i<count; ++i) a[i-1] = a[i];` from `i + 1`, for `n` rounds.
unfoldable pub shift_down {ℓ} : {A : Type ℓ} → ℕ → ℕ → (ℕ → A) → ℕ → A
shift_down zero i a = a
shift_down (suc n) i a = shift_down n (i + 1) (put a i (a (i + 1)))

unfoldable pub deq_body : Qinfo → ℤ × Qinfo
deq_body i =
    let n = pos_part i.q_count - 1 in
    (
      i.q_elt 0,
      record i {
        q_elt = shift_down n 0 i.q_elt;
        q_key = shift_down n 0 i.q_key;
        q_count = i.q_count -ℤ pos 1;
      },
    )

-- `deq` where `lock` does not block; `NULL` is 0.
unfoldable pub deq : ℤ → Gpqs → ℤ × Gpqs
deq q g =
    let (elt, i) = deq_body (g.queues q) in
    if is_bad_q q || not (g.queues q).q_valid || leb_ℤ (g.queues q).q_count (pos 0)
    then (pos 0, g)
    else (elt, set_queue q i g)

unfoldable pub seeq_body : Qinfo → ℤ × Qinfo
seeq_body i =
    let seen = i.q_seen +ℤ pos 1 in
    if leb_ℤ i.q_count seen
    then (pos 0, record i { q_seen = negsuc 0 })
    else (i.q_elt (pos_part seen), record i { q_seen = seen })

-- `seeq` where `lock` does not block.
unfoldable pub seeq : ℤ → Gpqs → ℤ × Gpqs
seeq q g =
    let (elt, i) = seeq_body (g.queues q) in
    if is_bad_q q || not (g.queues q).q_valid || (g.queues q).q_count ==ℤ pos 0
    then (pos 0, g)
    else (elt, set_queue q i g)

unfoldable pub initq : Gpqs → Gpqs
initq g = record {
  qinit = true;
  queues = λ q. if is_bad_q q then g.queues q else record (g.queues q) { q_valid = false };
}

-- The first queue that is not in use, from `q`, in `n` rounds.
unfoldable pub find_free : ℕ → ℤ → Gpqs → Option ℤ
find_free zero q g = none
find_free (suc n) q g =
    let rest = find_free n (q +ℤ pos 1) g in if (g.queues q).q_valid then rest else some q

-- The queue that `newq` sets up before it asks for memory; `mutex` is the semaphore's id.
abbrev pub fresh : ℤ → ℤ → ℤ → Qinfo → Qinfo
fresh size mtype mutex i = record i {
  q_valid = true;
  q_type = mtype;
  q_max = size;
  q_count = pos 0;
  q_seen = negsuc 0;
  q_mutex = if mtype ==ℤ qf_nowait then i.q_mutex else mutex;
}

-- A pointer and an `int` take 4 bytes. `size` is not negative.
unfoldable pub newq : ℕ → ℕ → ℤ → Kernel → Mem → Gpqs → Option (ℤ × Kernel × Mem × Gpqs)
newq f size mtype k m g₀ =
    let g = if g₀.qinit then g₀ else initq g₀ in
    elim (find_free 100 (pos 0) g) [
      | none ↦ some (negsuc 0, k, m, g)
      | some q ↦
          let (mutex, k') = if mtype ==ℤ qf_nowait then (pos 0, k) else screate (pos 1) k in
          let i = fresh (pos size) mtype mutex (g.queues q) in
          elim (getmem f (4 * size) m) [
            | none ↦ none
            | some (elts, m₁) ↦ elim (getmem f (4 * size) m₁) [
              | none ↦ none
              | some (keys, m₂) ↦
                  let g' = set_queue q (record i { elt_at = elts; key_at = keys }) g in
                  some (if keys ==ℤ syserr || elts ==ℤ syserr then negsuc 0 else q, k', m₂, g')
            ]
          ]
    ]

unfoldable pub lenq : ℤ → Gpqs → ℤ
lenq q g = if is_bad_q q || not (g.queues q).q_valid then syserr else (g.queues q).q_count

-- `freeq`, which returns no value on success; `deleted` is the kernel after `sdelete`.
unfoldable pub freeq : ℕ → ℤ → Kernel → Mem → Gpqs → Option (Kernel × Mem × Gpqs)
freeq f q k m g =
    let i = g.queues q in
    let size = 4 * pos_part i.q_max in
    let g' = set_queue q (record i { q_valid = false }) g in
    let sem : Option (ℤ × Kernel) =
      if i.q_type ==ℤ qf_nowait then some (ok, k) else sdelete i.q_mutex k in
    let go : Option (Kernel × Mem × Gpqs) = elim (freemem f (pos_part i.key_at) size m) [
      | none ↦ none
      | some (r, m₁) ↦ elim (freemem f (pos_part i.elt_at) size m₁) [
        | none ↦ none
        | some (r', m₂) ↦ elim sem [ none ↦ none | some (s, k') ↦ some (k', m₂, g') ]
      ]
    ] in
    if is_bad_q q || not i.q_valid || not (i.q_count ==ℤ pos 0) then some (k, m, g) else go
