-- ===== src/Queue.antt =====
-- The array `q` of include/q.h and its operations: xinu/sys/common/queue.c, getitem.c, insert.c,
-- insertd.c and newqueue.c. `q[i].qnext` is `t.qnext i`.
pub mod Chain
pub mod Delta
pub mod Frame
pub mod Lists
pub mod Order
pub mod Size
use xinu_swd.Prelude.{ℕ, zero, suc, ◌+◌, Bool, Option, none, some, Option, if◌then◌else◌}
use xinu_swd.Prelude.Int.{ℤ, pos, ◌==ℤ◌, ◌+ℤ◌, ◌-ℤ◌, ltb_ℤ, leb_ℤ}
use xinu_swd.Conf.{n_proc, ok, empty, minint, maxint}

-- `struct qent q[]`, one function for each field.
pub record Qtab : Type 0 where
  pub qkey : ℤ → ℤ
  pub qnext : ℤ → ℤ
  pub qprev : ℤ → ℤ

-- A write `f[a] = v`.
abbrev pub update {ℓ} : {A : Type ℓ} → (ℤ → A) → ℤ → A → ℤ → A
update f a v i = if i ==ℤ a then v else f i

abbrev pub set_next : Qtab → ℤ → ℤ → Qtab
set_next t i v = record t { qnext = update t.qnext i v }

abbrev pub set_prev : Qtab → ℤ → ℤ → Qtab
set_prev t i v = record t { qprev = update t.qprev i v }

abbrev pub set_key : Qtab → ℤ → ℤ → Qtab
set_key t i v = record t { qkey = update t.qkey i v }

-- The inline procedures of q.h.
abbrev pub is_empty : Qtab → ℤ → Bool
is_empty t list = leb_ℤ n_proc (t.qnext list)

abbrev pub non_empty : Qtab → ℤ → Bool
non_empty t list = ltb_ℤ (t.qnext list) n_proc

abbrev pub first_id : Qtab → ℤ → ℤ
first_id t list = t.qnext list

abbrev pub first_key : Qtab → ℤ → ℤ
first_key t list = t.qkey (t.qnext list)

abbrev pub last_key : Qtab → ℤ → ℤ
last_key t tail = t.qkey (t.qprev tail)

-- queue.c
unfoldable pub enqueue : ℤ → ℤ → Qtab → Qtab
enqueue item tail t =
    let t₁ = set_next t item tail in
    let t₂ = set_prev t₁ item (t₁.qprev tail) in
    let t₃ = set_next t₂ (t₂.qprev tail) item in set_prev t₃ tail item

unfoldable pub dequeue : ℤ → Qtab → Qtab
dequeue item t =
    let t₁ = set_next t (t.qprev item) (t.qnext item) in set_prev t₁ (t₁.qnext item) (t₁.qprev item)

-- getitem.c
unfoldable pub getfirst : ℤ → Qtab → ℤ × Qtab
getfirst head t =
    let proc = t.qnext head in if ltb_ℤ proc n_proc then (proc, dequeue proc t) else (empty, t)

unfoldable pub getlast : ℤ → Qtab → ℤ × Qtab
getlast tail t =
    let proc = t.qprev tail in if ltb_ℤ proc n_proc then (proc, dequeue proc t) else (empty, t)

-- The `while` of insert.c: the entry before which the key belongs; `none` is out of fuel.
unfoldable pub seek : ℕ → Qtab → ℤ → ℤ → Option ℤ
seek zero t key next = none
seek (suc n) t key next =
    let rest = seek n t key (t.qnext next) in if ltb_ℤ (t.qkey next) key then rest else some next

-- The five writes of insert.c behind its loop.
unfoldable pub link_in : ℤ → ℤ → ℤ → Qtab → Qtab
link_in proc key next t =
    let t₁ = set_next t proc next in
    let prev = t₁.qprev next in
    let t₂ = set_prev t₁ proc prev in
    let t₃ = set_key t₂ proc key in let t₄ = set_next t₃ prev proc in set_prev t₄ next proc

-- More rounds than a queue has entries.
abbrev pub rounds : ℕ
rounds = 64

unfoldable pub insert : ℤ → ℤ → ℤ → Qtab → Option Qtab
insert proc head key t = elim (seek rounds t key (t.qnext head)) [
  | none ↦ none
  | some next ↦ some (link_in proc key next t)
]

-- The loop of insertd.c: the two neighbours and the key that is left.
pub record Spot : Type 0 where
  pub prev : ℤ
  pub next : ℤ
  pub key : ℤ

unfoldable pub seekd : ℕ → Qtab → ℤ → ℤ → ℤ → Option Spot
seekd zero t key prev next = none
seekd (suc n) t key prev next =
    let rest = seekd n t (key -ℤ t.qkey next) next (t.qnext next) in
    if ltb_ℤ (t.qkey next) key then rest else some (record { prev = prev; next = next; key = key })

unfoldable pub link_ind : ℤ → Spot → Qtab → Qtab
link_ind pid s t =
    let t₁ = set_next t pid s.next in
    let t₂ = set_prev t₁ pid s.prev in
    let t₃ = set_key t₂ pid s.key in
    let t₄ = set_next t₃ s.prev pid in
    let t₅ = set_prev t₄ s.next pid in
    if ltb_ℤ s.next n_proc then set_key t₅ s.next (t₅.qkey s.next -ℤ s.key) else t₅

unfoldable pub insertd : ℤ → ℤ → ℤ → Qtab → Option Qtab
insertd pid head key t = elim (seekd rounds t key head (t.qnext head)) [
  | none ↦ none
  | some s ↦ some (link_ind pid s t)
]

-- newqueue.c: the head's index and the table; `nextqueue` goes up by two.
unfoldable pub newqueue : ℤ → Qtab → ℤ × ℤ × Qtab
newqueue nextqueue t =
    let hindex = nextqueue in
    let tindex = nextqueue +ℤ pos 1 in
    let t₁ = set_key (set_prev (set_next t hindex tindex) hindex empty) hindex minint in
    let t₂ = set_key (set_prev (set_next t₁ tindex empty) tindex hindex) tindex maxint in
    (hindex, tindex +ℤ pos 1, t₂)
