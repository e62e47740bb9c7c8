-- ===== src/Kernel/Sched/Switch.antt =====
-- `resched` (xinu/sys/68000/resched.c): the process that runs is one of the highest priority.
use xinu_swd.Prelude.{
  ◌≡◌, refl, sym, ap, ◌∙◌, Bool, ◌||◌, true, false, some, List, [], ◌∷◌, ◌++◌, arith, Bool-cases,
  inl, inr,
}
use xinu_swd.Prelude.Int.{ℤ, ◌==ℤ◌, ◌≤ℤ◌, ==ℤ-refl, eq_of_==ℤ}
use mathlib.Core.List.{append-nil}
use xinu_swd.Conf.{null_proc, quantum, ok}
use xinu_swd.Queue.{Qtab, update, dequeue}
use xinu_swd.Queue.Chain.{has, has-append, ne_of_has}
use xinu_swd.Queue.Lists.{IsQueue, AllSlots-split, Distinct-remove, getlast-snoc}
use xinu_swd.Queue.Frame.{last-snoc}
use xinu_swd.Queue.Order.{IsSorted-remove, sorted-le-last}
use mathlib.Core.Path.{subst}
use xinu_swd.Kernel.{Pstate, curr, is_curr, is_ready, Pentry, Kernel, set_pstate}
use xinu_swd.Kernel.Names.{QName, ready_list, same_name, head_of, tail_of}
use xinu_swd.Kernel.Inv.{Lists, relist, IsReady}
use xinu_swd.Kernel.Moves.{Homeless-of, IsTable-remove}
use xinu_swd.Kernel.State.{update-IsPrios, IsSwitching, IsParked}
use xinu_swd.Kernel.Sched.{dispatch}

-- A list that is not empty has a last entry.
pub snoc_view : (x : ℤ) (xs : List ℤ) → (ys : List ℤ) × (y : ℤ) × (x ∷ xs ≡ ys ++ y ∷ [])
snoc_view x [] = ([], x, refl)
snoc_view x (z ∷ xs) = let (ys, y, e) = snoc_view z xs in (x ∷ ys, y, rw e)

-- The ready list without one of its processes.
pub IsReady-remove :
    (t : Qtab) (proctab : ℤ → Pentry) (x : ℤ) (p : Pentry) (xs ys : List ℤ)
    → IsReady t proctab (xs ++ x ∷ ys)
    → has x (xs ++ ys) ≡ false
    → IsReady (dequeue x t) (update proctab x p) (xs ++ ys)
unfolding dequeue
IsReady-remove t proctab x p xs ys is out = record {
  sorted = IsSorted-remove t.qkey x xs ys is.sorted;
  keys = λ a h.
      rw (ne_of_has a x (xs ++ ys) h out)
        (is.keys a (ground (arith, has-append a xs ys, has-append a xs (x ∷ ys))));
  low = is.low;
  high = is.high;
}

-- The process that runs has a priority that none on the ready list exceeds.
abbrev pub IsHighest : Kernel → Lists → Type 0
IsHighest k lists =
    (a : ℤ) → has a (lists ready_list) ≡ true → (k.proctab a).pprio ≤ℤ (k.proctab k.currpid).pprio

-- All of an entry but its state.
abbrev pub SameEntry : Pentry → Pentry → Type 0
SameEntry p p' =
    (p'.pprio ≡ p.pprio)
    × (p'.psem ≡ p.psem)
    × (p'.pmsg ≡ p.pmsg)
    × (p'.phasmsg ≡ p.phasmsg)
    × (p'.pnxtkin ≡ p.pnxtkin)

pub SameEntry-trans : (p p' p'' : Pentry) → SameEntry p p' → SameEntry p' p'' → SameEntry p p''
SameEntry-trans p p' p'' a b = (b.0 ∙ a.0, b.1 ∙ a.1, b.2 ∙ a.2, b.3 ∙ a.3, b.4 ∙ a.4)

pub SameEntry-state :
    (proctab : ℤ → Pentry) (x : ℤ) (s : Pstate) (a : ℤ)
    → SameEntry (proctab a) (update proctab x (record (proctab x) { pstate = s }) a)
SameEntry-state proctab x s a = elim (Bool-cases (a ==ℤ x)) [
  | inl i ↦ rw (i, eq_of_==ℤ a x i) (refl, refl, refl, refl, refl)
  | inr i ↦ rw i (refl, refl, refl, refl, refl)
]

-- A process that runs or is ready. A switch moves processes between these two states, and leaves every
-- other state as it is.
abbrev pub is_awake : Pstate → Bool
is_awake s = is_curr s || is_ready s

abbrev pub StateKept : Pstate → Pstate → Type 0
StateKept s s' = (is_awake s' ≡ is_awake s) × (is_awake s ≡ false → s' ≡ s)

pub StateKept-trans : (s s' s'' : Pstate) → StateKept s s' → StateKept s' s'' → StateKept s s''
StateKept-trans s s' s'' a b = (b.0 ∙ a.0, λ e. b.1 (a.0 ∙ e) ∙ a.1 e)

-- One process that is awake, with another such state.
pub StateKept-state :
    (proctab : ℤ → Pentry) (x : ℤ) (s : Pstate) (a : ℤ)
    → is_awake (proctab x).pstate ≡ true
    → is_awake s ≡ true
    → StateKept (proctab a).pstate (update proctab x (record (proctab x) { pstate = s }) a).pstate
StateKept-state proctab x s a old new = elim (Bool-cases (a ==ℤ x)) [
  | inl i ↦
      let e : is_awake (proctab a).pstate ≡ true =
        subst (λ b. is_awake (proctab b).pstate ≡ true) (sym (eq_of_==ℤ a x i)) old in
      rw i (new ∙ sym e, λ f. absurd (cc))
  | inr i ↦ rw i (refl, λ f. refl)
]

-- What a switch leaves alone: the other lists, all of the entries but states, the states of the
-- processes that neither run nor are ready, and every variable but `currpid` and `preempt`.
pub record Switched (k : Kernel) (lists : Lists) (k' : Kernel) (lists' : Lists) : Type 0 where
  pub switching : IsSwitching k' lists'
  pub running : is_curr (k'.proctab k'.currpid).pstate ≡ true
  pub highest : IsHighest k' lists'
  pub others : (n : QName) → same_name n ready_list ≡ false → lists' n ≡ lists n
  pub semaph : k'.semaph ≡ k.semaph
  pub entries : (a : ℤ) → SameEntry (k.proctab a) (k'.proctab a)
  pub states : (a : ℤ) → StateKept (k.proctab a).pstate (k'.proctab a).pstate
  pub rest :
      k' ≡ record k { q = k'.q; proctab = k'.proctab; currpid = k'.currpid; preempt = k'.preempt }

ready_awake : (s : Pstate) → is_ready s ≡ true → is_awake s ≡ true
ready_awake s h = ground arith

abbrev switched : ℤ → Kernel → Kernel
switched x k = set_pstate x curr (record k { q = dequeue x k.q; currpid = x; preempt = quantum })

module _ {k : Kernel} {lists : Lists} (is : IsParked k lists) where
  open is use {table, layout, ready, prios, none_runs, idle}

  switched-Switched :
      (x : ℤ) (xs : List ℤ)
      → lists ready_list ≡ xs ++ x ∷ []
      → Switched k lists (switched x k) (relist lists ready_list xs)
  switched-Switched x xs e =
      let queue : IsQueue k.q (head_of ready_list) (tail_of ready_list) (xs ++ x ∷ []) =
        rw e at (table.queues ready_list tt) in
      let (d, out) = Distinct-remove xs [] x queue.distinct in
      let out' : has x xs ≡ false = rw append-nil at out in
      let slot = (AllSlots-split xs (x ∷ []) queue.slots).1.0 in
      let p : Pentry = record (k.proctab x) { pstate = curr } in
      let ready' : IsReady k.q k.proctab (xs ++ x ∷ []) = rw e at ready in
      let is_on : is_ready (k.proctab x).pstate ≡ true =
        sym (table.homes x ready_list slot tt)
        ∙ ap (has x) e
        ∙ has-append x xs (x ∷ [])
        ∙ ground (arith, ==ℤ-refl x) in
      record {
        switching = record {
          table =
              rw append-nil at
                (IsTable-remove table ready_list x p xs [] tt e (Homeless-of p refl));
          layout = layout;
          ready =
              rw append-nil at (IsReady-remove k.q k.proctab x p xs [] ready' (rw append-nil out'));
          prios = update-IsPrios k.proctab x p prios (prios x slot);
          slot = slot;
          alone = λ a sa ne. rw ne (none_runs a sa);
          idle = elim (Bool-cases (null_proc ==ℤ x)) [
            | inl i ↦ rw i
            | inr i ↦ rw i (ground (arith, idle))
          ];
        };
        running = rw (==ℤ-refl x);
        highest = λ a h.
            let ne : (a ==ℤ x) ≡ false = ne_of_has a x xs h out' in
            let on : has a (xs ++ x ∷ []) ≡ true = ground (arith, has-append a xs (x ∷ [])) in
            let on_x : has x (xs ++ x ∷ []) ≡ true =
              has-append x xs (x ∷ []) ∙ ground (arith, ==ℤ-refl x) in
            rw (ne, ==ℤ-refl x, ← ready'.keys a on, ← ready'.keys x on_x)
              (rw last-snoc at (sorted-le-last k.q.qkey x a (xs ++ x ∷ []) ready'.sorted on));
        others = λ n ne. rw ne;
        semaph = refl;
        entries = SameEntry-state k.proctab x curr;
        states = λ a. StateKept-state k.proctab x curr a (ready_awake _ is_on) refl;
        rest = refl;
      }

  -- `dispatch` finds a process, and makes it run.
  pub dispatch_lem :
      (k' : Kernel) × (lists' : Lists) × (dispatch k ≡ some (ok, k')) × Switched k lists k' lists'
  unfolding dispatch
  dispatch_lem = go (lists ready_list) refl
    where
      go :
          (l : List ℤ)
          → lists ready_list ≡ l
          → (k' : Kernel) × (lists' : Lists) × (dispatch k ≡ some (ok, k'))
            × Switched k lists k' lists'
      go [] e =
          let on : has null_proc [] ≡ true =
            rw e at (table.homes null_proc ready_list (omega arith) tt ∙ idle) in
          absurd (cc)
      go (z ∷ zs) e =
          let (xs, x, snoc) = snoc_view z zs in
          let queue : IsQueue k.q (head_of ready_list) (tail_of ready_list) (xs ++ x ∷ []) =
            rw (e ∙ snoc) at (table.queues ready_list tt) in
          (
            switched x k,
            relist lists ready_list xs,
            rw (layout.ready_tail, getlast-snoc xs x queue),
            switched-Switched x xs (e ∙ snoc),
          )

-- A process that is left with a state other than running is not the one that runs.
pub left_not_curr :
    (k : Kernel) (x : ℤ) (s : Pstate)
    → (k.proctab x).pstate ≡ s
    → is_curr s ≡ false
    → is_curr (k.proctab x).pstate ≡ false
left_not_curr k x s e h = ap is_curr e ∙ h

pub ran_other :
    (k : Kernel) (x : ℤ)
    → is_curr (k.proctab x).pstate ≡ false
    → is_curr (k.proctab k.currpid).pstate ≡ true
    → (k.currpid ==ℤ x) ≡ false
ran_other k x h c = elim (Bool-cases (k.currpid ==ℤ x)) [
  | inl i ↦
      let c' : is_curr (k.proctab x).pstate ≡ true =
        subst (λ b. is_curr (k.proctab b).pstate ≡ true) (eq_of_==ℤ k.currpid x i) c in
      absurd (cc)
  | inr i ↦ i
]
