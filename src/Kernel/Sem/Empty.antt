-- ===== src/Kernel/Sem/Empty.antt =====
-- The loop of sdelete.c and sreset.c (xinu/sys/common), and these calls: every process that waits for
-- the semaphore becomes ready.
use xinu_swd.Prelude.{
  ℕ, zero, suc, ◌<◌, ◌≡◌, refl, ◌∙◌, true, false, some, List, [], ◌∷◌, arith, length,
}
use xinu_swd.Prelude.Int.{
  ℤ, pos, negsuc, ◌==ℤ◌, ltb_ℤ, lt→ltb_ℤ, le→ltb_ℤ, ==ℤ-refl, ==ℤ_comm, ==ℤ_iff,
}
use xinu_swd.Conf.{ok, empty, n_proc, is_bad_sem}
use xinu_swd.Queue.{rounds, non_empty}
use xinu_swd.Queue.Lists.{IsQueue, IsSlot, getfirst-nil}
use xinu_swd.Queue.Size.{length-lt-rounds}
use xinu_swd.Kernel.{Kernel, Sentry, ◌>>=◌, is_curr, is_sfree, sfree, set_semcnt, set_sstate}
use xinu_swd.Kernel.Names.{QName, ready_list, sem_list, same_name, head_of, tail_of}
use xinu_swd.Kernel.Inv.{Lists, relist, CountIs}
use xinu_swd.Kernel.State.{IsSwitching, IsKernel}
use xinu_swd.Kernel.Sched.Switch.{IsHighest}
use xinu_swd.Kernel.Sched.Resched.{resched_lem}
use xinu_swd.Kernel.Sched.Wake.{readied, make_ready_lem}
use xinu_swd.Kernel.Sem.{take_first, release_all, sreset, sdelete}
use xinu_swd.Kernel.Sem.Count.{LayoutIs-sem, IsCounted-update}
use xinu_swd.Kernel.Sem.Release.{
  taken, take_first-waiter, taken-IsSwitching, waiter-IsSlot, waiter_good, waiter_ne_running,
}

-- What the loop leaves.
record Released (k : Kernel) (lists : Lists) (sem : ℤ) (k' : Kernel) (lists' : Lists) : Type 0 where
  switching : IsSwitching k' lists'
  running : is_curr (k'.proctab k'.currpid).pstate ≡ true
  none_left : lists' (sem_list sem) ≡ []
  others :
      (n : QName)
      → same_name n ready_list ≡ false
      → same_name n (sem_list sem) ≡ false
      → lists' n ≡ lists n
  semaph : k'.semaph ≡ k.semaph

slot_ne_empty : (x : ℤ) → IsSlot x → (x ==ℤ empty) ≡ false
slot_ne_empty (pos n) s = ground (arith, ==ℤ_iff (pos n) empty)
slot_ne_empty (negsuc n) s = absurd (omega arith)

module _ (sem : ℤ) (good : is_bad_sem sem ≡ false) where
  take_first-nil :
      (k : Kernel) (lists : Lists)
      → IsSwitching k lists
      → lists (sem_list sem) ≡ []
      → take_first (k.semaph sem).sqhead k ≡ some (empty, k)
  unfolding take_first
  take_first-nil k lists is e =
      let queue : IsQueue k.q (head_of (sem_list sem)) (tail_of (sem_list sem)) [] =
        rw e at (is.table.queues (sem_list sem) good) in
      rw (is.layout.sem_head sem good, getfirst-nil queue)

  release_all_lem :
      (f : ℕ) (xs : List ℤ) (k : Kernel) (lists : Lists)
      → IsSwitching k lists
      → is_curr (k.proctab k.currpid).pstate ≡ true
      → lists (sem_list sem) ≡ xs
      → length xs < f
      → (k' : Kernel) × (lists' : Lists) × (release_all f (k.semaph sem).sqhead k ≡ some (ok, k'))
        × Released k lists sem k' lists'
  unfolding release_all
  release_all_lem zero xs k lists is running e fuel = absurd (omega arith)
  release_all_lem (suc f) [] k lists is running e fuel = (
    k,
    lists,
    rw (◌>>=◌, take_first-nil k lists is e, ==ℤ-refl empty),
    record {
      switching = is;
      running = running;
      none_left = e;
      others = λ n a b. refl;
      semaph = refl;
    },
  )
  release_all_lem (suc f) (x ∷ xs) k lists is running e fuel =
      let first = take_first-waiter is running sem good x xs e in
      let ne = slot_ne_empty x (waiter-IsSlot is running sem good x xs e) in
      let (t, m, is') =
        make_ready_lem (taken x k) (relist lists (sem_list sem) xs) x
          (taken-IsSwitching is running sem good x xs e) (waiter-IsSlot is running sem good x xs e)
          (waiter_good is running sem good x xs e) in
      let runs : (k.currpid ==ℤ x) ≡ false =
        ==ℤ_comm k.currpid x ∙ waiter_ne_running is running sem good x xs e in
      let (k', lists', r, rel) =
        release_all_lem f xs (readied x t (taken x k)) _ is' (rw runs running) (rw (==ℤ-refl sem))
          (omega arith) in
      (
        k',
        lists',
        rw (◌>>=◌, first, ne, m, r),
        record {
          switching = rel.switching;
          running = rel.running;
          none_left = rel.none_left;
          others = λ n a b. rel.others n a b ∙ rw (a, b);
          semaph = rel.semaph;
        },
      )

pub CountIs-none : (c : ℤ) → ltb_ℤ c (pos 0) ≡ false → CountIs c []
CountIs-none (pos n) h = refl
CountIs-none (negsuc n) h = absurd (ground arith)

module _ {k : Kernel} {lists : Lists} (is : IsKernel k lists) (sem : ℤ)
    (good : is_bad_sem sem ≡ false) (used : is_sfree (k.semaph sem).sstate ≡ false) where
  open is use {switching, counted, running}

  released :
      (k' : Kernel) × (lists' : Lists) × (release_all rounds (k.semaph sem).sqhead k
        ≡ some (ok, k'))
      × Released k lists sem k' lists'
  released =
      let queue = switching.table.queues (sem_list sem) good in
      release_all_lem sem good rounds (lists (sem_list sem)) k lists switching running refl
        (length-lt-rounds (lists (sem_list sem)) queue.distinct queue.slots)

  -- In a kernel that satisfies the invariant, for a semaphore in use and a count that is not
  -- negative: `sreset` ends and returns `ok`, the new kernel satisfies the invariant, no process
  -- waits for the semaphore, no ready process has a higher priority than the one that runs, and the
  -- count is the new one.
  pub sreset_lem :
      (count : ℤ)
      → ltb_ℤ count (pos 0) ≡ false
      → (k' : Kernel) × (lists' : Lists) × (sreset sem count k ≡ some (ok, k'))
        × IsKernel k' lists'
        × IsHighest k' lists'
        × (lists' (sem_list sem) ≡ [])
        × ((k'.semaph sem).semcnt ≡ count)
  unfolding sreset
  sreset_lem count up =
      let (k₁, lists₁, e₁, rel) = released in
      let s : Sentry = record (k₁.semaph sem) { semcnt = count } in
      let old = rel.switching in
      let sw₁ : IsSwitching (set_semcnt sem count k₁) lists₁ = record {
        table = old.table;
        layout = LayoutIs-sem k₁.rdyhead k₁.rdytail k₁.clockq k₁.semaph sem s refl refl old.layout;
        ready = old.ready;
        prios = old.prios;
        slot = old.slot;
        alone = old.alone;
        idle = old.idle;
      } in
      let (k', lists', e₂, sw) = resched_lem sw₁ in
      let here : lists' (sem_list sem) ≡ [] = sw.others (sem_list sem) refl ∙ rel.none_left in
      let same : (k₁.semaph sem).sstate ≡ (k.semaph sem).sstate = rw rel.semaph in
      (
        k',
        lists',
        rw (good, up, used, ◌>>=◌, e₁, e₂),
        record {
          switching = sw.switching;
          counted = rw sw.semaph (
              IsCounted-update k₁.semaph lists lists' sem s (rw rel.semaph counted)
                (λ r ne. sw.others (sem_list r) refl ∙ rel.others (sem_list r) refl ne)
                (rw (here, same, used) (CountIs-none count up)));
          running = sw.running;
        },
        sw.highest,
        here,
        rw (sw.semaph, ==ℤ-refl sem) refl,
      )

  abbrev deleted : Kernel
  deleted = set_sstate sem sfree k

  deleted-IsSwitching : IsSwitching deleted lists
  deleted-IsSwitching = record {
    table = switching.table;
    layout = LayoutIs-sem k.rdyhead k.rdytail k.clockq k.semaph sem _ refl refl switching.layout;
    ready = switching.ready;
    prios = switching.prios;
    slot = switching.slot;
    alone = switching.alone;
    idle = switching.idle;
  }

  deleted-idle :
      lists (sem_list sem) ≡ []
      → (non_empty k.q (k.semaph sem).sqhead ≡ false) × IsKernel deleted lists
  deleted-idle e =
      let queue : IsQueue k.q (head_of (sem_list sem)) (tail_of (sem_list sem)) [] =
        rw e at (switching.table.queues (sem_list sem) good) in
      (
        rw (switching.layout.sem_head sem good, queue.chain.0)
            (le→ltb_ℤ (tail_of (sem_list sem)) n_proc queue.tail_out),
        record {
          switching = deleted-IsSwitching;
          counted = IsCounted-update k.semaph lists lists sem _ counted (λ r ne. refl) (rw e refl);
          running = running;
        },
      )

  deleted-busy :
      (x : ℤ) (xs : List ℤ)
      → lists (sem_list sem) ≡ x ∷ xs
      → non_empty k.q (k.semaph sem).sqhead ≡ true
  deleted-busy x xs e =
      let queue : IsQueue k.q (head_of (sem_list sem)) (tail_of (sem_list sem)) (x ∷ xs) =
        rw e at (switching.table.queues (sem_list sem) good) in
      rw (switching.layout.sem_head sem good, queue.chain.0) (lt→ltb_ℤ x n_proc queue.slots.0.1)

  sdelete_from :
      (l : List ℤ)
      → lists (sem_list sem) ≡ l
      → (k' : Kernel) × (lists' : Lists) × (sdelete sem k ≡ some (ok, k'))
        × IsKernel k' lists'
        × (lists' (sem_list sem) ≡ [])
        × ((k'.semaph sem).sstate ≡ sfree)
  unfolding sdelete
  sdelete_from [] e =
      let (empty_list, is') = deleted-idle e in
      (deleted, lists, rw (good, used, empty_list), is', e, rw (==ℤ-refl sem) refl)
  sdelete_from (x ∷ xs) e =
      let queue = switching.table.queues (sem_list sem) good in
      let (k₁, lists₁, e₁, rel) =
        release_all_lem sem good rounds (lists (sem_list sem)) deleted lists deleted-IsSwitching
          running refl (length-lt-rounds (lists (sem_list sem)) queue.distinct queue.slots) in
      let (k', lists', e₂, sw) = resched_lem rel.switching in
      let here : lists' (sem_list sem) ≡ [] = sw.others (sem_list sem) refl ∙ rel.none_left in
      let run : release_all rounds (k.semaph sem).sqhead deleted ≡ some (ok, k₁) =
        rw (==ℤ-refl sem) at e₁ in
      (
        k',
        lists',
        rw (good, used, deleted-busy x xs e, ◌>>=◌, run, e₂),
        record {
          switching = sw.switching;
          counted =
              rw (sw.semaph, rel.semaph)
                (IsCounted-update k.semaph lists lists' sem _ counted
                  (λ r ne. sw.others (sem_list r) refl ∙ rel.others (sem_list r) refl ne)
                  (rw here refl));
          running = sw.running;
        },
        here,
        rw (sw.semaph, rel.semaph, ==ℤ-refl sem) refl,
      )

  -- In a kernel that satisfies the invariant, for a semaphore in use: `sdelete` ends and returns
  -- `ok`, the new kernel satisfies the invariant, no process waits for the semaphore, and it is
  -- free.
  pub sdelete_lem :
      (k' : Kernel) × (lists' : Lists) × (sdelete sem k ≡ some (ok, k'))
      × IsKernel k' lists'
      × (lists' (sem_list sem) ≡ [])
      × ((k'.semaph sem).sstate ≡ sfree)
  sdelete_lem = sdelete_from (lists (sem_list sem)) refl
