-- ===== src/Kernel/Moves.antt =====
-- One process put on a list or taken off one, with its new entry: what the calls of
-- xinu/sys/common are made of.
use xinu_swd.Prelude.{
  ◌≡◌, sym, ◌∙◌, Bool, true, false, some, ◌||◌, List, [], ◌∷◌, ◌++◌, arith, Bool-cases, inl, inr,
}
use xinu_swd.Prelude.Int.{ℤ, ◌==ℤ◌, ◌≤ℤ◌, ==ℤ-refl, ==ℤ_comm}
use mathlib.Core.Path.{fun_ext}
use xinu_swd.Conf.{maxint}
use xinu_swd.Queue.{Qtab, update, enqueue, dequeue, insert}
use xinu_swd.Queue.Chain.{has, has-append, ne_of_has}
use xinu_swd.Queue.Lists.{
  IsSlot, IsQueue, Distinct-remove, slot_ne_out, enqueue-IsQueue, dequeue-IsQueue,
}
use xinu_swd.Queue.Frame.{SameOutside, cells, enqueue-same, dequeue-same}
use xinu_swd.Queue.Order.{place, has-place, place-IsSorted, insert-place}
use xinu_swd.Kernel.{Pstate, ready, sleep, wait, trecv, is_curr, Pentry}
use xinu_swd.Kernel.Names.{
  QName, ready_list, clock_list, sem_list, IsName, head_of, tail_of, same_name_comm, IsSlot-of_has,
  out_of_slots,
}
use xinu_swd.Kernel.Inv.{
  is_home, Lists, relist, IsTable, IsReady, is_home_once, IsTable-move, lists_apart,
}

-- An entry of a process that is on no list.
abbrev pub Homeless : Pentry → Type 0
Homeless p = (n : QName) → is_home p n ≡ false

-- The states in which a process is on a list.
abbrev pub is_listed : Pstate → Bool
is_listed ready = true
is_listed sleep = true
is_listed wait = true
is_listed trecv = true
is_listed _ = false

pub Homeless-of : (p : Pentry) → is_listed p.pstate ≡ false → Homeless p
Homeless-of p h ready_list = ground arith
Homeless-of p h clock_list = ground arith
Homeless-of p h (sem_list s) = ground arith

pub Homeless-of_curr : (p : Pentry) → is_curr p.pstate ≡ true → Homeless p
Homeless-of_curr p h = Homeless-of p (ground arith)

pub update-update {ℓ} :
    {A : Type ℓ} (f : ℤ → A) (a : ℤ) (v w : A) → update (update f a v) a w ≡ update f a w
update-update f a v w = fun_ext λ b. elim (Bool-cases (b ==ℤ a)) [ inl e ↦ rw e | inr e ↦ rw e ]

not_has_rest : (a x : ℤ) (xs : List ℤ) → has a (x ∷ xs) ≡ false → has a xs ≡ false
not_has_rest a x xs h = ground arith

module _ {t : Qtab} {proctab : ℤ → Pentry} {lists : Lists} (table : IsTable t proctab lists) where
  open table use {queues, homes}

  -- A process on no list joins the list `n`, by any operation that adds it.
  pub IsTable-add :
      (n : QName) (pid : ℤ) (p : Pentry) (t' : Qtab) (l : List ℤ)
      → IsName n
      → IsSlot pid
      → Homeless (proctab pid)
      → is_home p n ≡ true
      → SameOutside (pid ∷ cells (head_of n) (lists n) (tail_of n)) t t'
      → IsQueue t' (head_of n) (tail_of n) l
      → ((a : ℤ) → has a l ≡ ((a ==ℤ pid) || has a (lists n)))
      → IsTable t' (update proctab pid p) (relist lists n l)
  IsTable-add n pid p t' l hn slot none home same queue has_l =
      IsTable-move table n pid p t' l hn slot same queue (λ m hm ne. homes pid m slot hm ∙ none m)
        (λ m hm ne. is_home_once p n m home (rw (same_name_comm n m) ne))
        (has_l pid ∙ ground (arith, ==ℤ-refl pid)) (λ a ne. has_l a ∙ ground arith)

  -- A process leaves the list `n`.
  pub IsTable-remove :
      (n : QName) (pid : ℤ) (p : Pentry) (xs ys : List ℤ)
      → IsName n
      → lists n ≡ xs ++ pid ∷ ys
      → Homeless p
      → IsTable (dequeue pid t) (update proctab pid p) (relist lists n (xs ++ ys))
  IsTable-remove n pid p xs ys hn e none =
      let queue : IsQueue t (head_of n) (tail_of n) (xs ++ pid ∷ ys) = rw e at (queues n hn) in
      let on_list : has pid (lists n) ≡ true =
        rw e (has-append pid xs (pid ∷ ys) ∙ ground (arith, ==ℤ-refl pid)) in
      let (d, out) = Distinct-remove xs ys pid queue.distinct in
      let slot = IsSlot-of_has pid (lists n) (queues n hn).slots on_list in
      IsTable-move table n pid p (dequeue pid t) (xs ++ ys) hn slot
        (rw e λ a o.
          dequeue-same xs pid ys queue a
            (not_has_rest a pid (cells (head_of n) (xs ++ pid ∷ ys) (tail_of n)) o))
        (dequeue-IsQueue xs pid ys queue)
        (λ m hm ne. lists_apart table n m hn hm (rw (same_name_comm n m) ne) pid on_list)
        (λ m hm ne. none m) (out ∙ sym (none n))
        (λ a ne. rw e (ground (arith, has-append a xs ys, has-append a xs (pid ∷ ys))))

  -- A running process joins a semaphore's list, behind the others.
  pub IsTable-enqueue :
      (n : QName) (pid : ℤ) (p : Pentry)
      → IsName n
      → IsSlot pid
      → Homeless (proctab pid)
      → is_home p n ≡ true
      → IsTable
          (enqueue pid (tail_of n) t)
          (update proctab pid p)
          (relist lists n (lists n ++ pid ∷ []))
  IsTable-enqueue n pid p hn slot none home =
      let out : has pid (lists n) ≡ false = homes pid n slot hn ∙ none n in
      IsTable-add n pid p (enqueue pid (tail_of n) t) (lists n ++ pid ∷ []) hn slot none home
        (enqueue-same (lists n) pid (queues n hn) slot out)
        (enqueue-IsQueue (lists n) pid (queues n hn) slot out)
        (λ a. has-append a (lists n) (pid ∷ []) ∙ ground arith)

module _ {t : Qtab} {proctab : ℤ → Pentry} {l : List ℤ} (is : IsReady t proctab l) where
  open is use {sorted, keys, low, high}

  -- The ready list with one more process, at its priority.
  pub IsReady-place :
      (pid : ℤ) (p : Pentry) (t' : Qtab)
      → IsSlot pid
      → has pid l ≡ false
      → t'.qkey ≡ update t.qkey pid p.pprio
      → IsReady t' (update proctab pid p) (place t.qkey pid p.pprio l)
  IsReady-place pid p t' slot out e = record {
    sorted = rw e (place-IsSorted t.qkey pid p.pprio l out sorted);
    keys = λ a h. rw e (elim (Bool-cases (a ==ℤ pid)) [
      | inl i ↦ rw i
      | inr i ↦ rw i (keys a (ground (arith, has-place t.qkey pid p.pprio a l)))
    ]);
    low =
        rw
          (
            e,
            ==ℤ_comm (head_of ready_list) pid,
            slot_ne_out pid (head_of ready_list) slot (out_of_slots ready_list).0,
          )
          low;
    high =
        rw
          (
            e,
            ==ℤ_comm (tail_of ready_list) pid,
            slot_ne_out pid (tail_of ready_list) slot (out_of_slots ready_list).1,
          )
          high;
  }

  -- Entries of processes off the list do not matter to it.
  pub IsReady-entry :
      (pid : ℤ) (p : Pentry) → has pid l ≡ false → IsReady t (update proctab pid p) l
  IsReady-entry pid p out = record {
    sorted = sorted;
    keys = λ a h. rw (ne_of_has a pid l h out) (keys a h);
    low = low;
    high = high;
  }

-- What `ready` does to the table: `pid`, on no list, is put on the ready list.
pub insert-Ready :
    {t : Qtab} {proctab : ℤ → Pentry} {lists : Lists} (pid : ℤ) (p : Pentry)
    → IsTable t proctab lists
    → IsReady t proctab (lists ready_list)
    → IsSlot pid
    → Homeless (proctab pid)
    → is_home p ready_list ≡ true
    → p.pprio ≤ℤ maxint
    → let l = place t.qkey pid p.pprio (lists ready_list) in
      (t' : Qtab) × (insert pid (head_of ready_list) p.pprio t ≡ some t')
      × IsTable t' (update proctab pid p) (relist lists ready_list l)
      × IsReady t' (update proctab pid p) l
      × (t'.qkey ≡ update t.qkey pid p.pprio)
insert-Ready {t} {proctab} {lists} pid p table is slot none home top =
    let out : has pid (lists ready_list) ≡ false =
      table.homes pid ready_list slot tt ∙ none ready_list in
    let (t', e, queue, same, keys) =
      insert-place (lists ready_list) pid p.pprio (table.queues ready_list tt) slot out
        (rw is.high top) in
    (
      t',
      e,
      IsTable-add table ready_list pid p t' (place t.qkey pid p.pprio (lists ready_list)) tt slot
          none home same queue (λ a. has-place t.qkey pid p.pprio a (lists ready_list)),
      IsReady-place is pid p t' slot out keys,
      keys,
    )
