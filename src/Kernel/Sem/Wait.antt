-- ===== src/Kernel/Sem/Wait.antt =====
-- `wait` (xinu/sys/common/wait.c): the count goes down, and a process that has to wait goes to the
-- end of the semaphore's list.
use xinu_swd.Prelude.{
  ◌≡◌, refl, ◌∙◌, true, false, some, List, [], ◌∷◌, ◌++◌, arith, zero, suc, length-append,
}
use xinu_swd.Prelude.Int.{ℤ, pos, negsuc, ◌==ℤ◌, ◌-ℤ◌, ltb_ℤ, ==ℤ-refl, ==ℤ_comm}
use mathlib.Core.Path.{sym, subst}
use xinu_swd.Conf.{null_proc, ok, is_bad_sem}
use xinu_swd.Queue.{update, enqueue}
use xinu_swd.Queue.Chain.{has}
use xinu_swd.Queue.Lists.{qkey-enqueue}
use xinu_swd.Kernel.{Pstate, ◌>>=◌, is_sfree, Pentry, Sentry, Kernel, set_semcnt}
use xinu_swd.Kernel.Names.{ready_list, sem_list}
use xinu_swd.Kernel.Inv.{Lists, relist, IsTable, IsReady-keys, CountIs}
use xinu_swd.Kernel.Moves.{Homeless-of_curr, IsTable-enqueue, IsReady-entry}
use xinu_swd.Kernel.State.{IsSwitching, IsKernel, update-IsPrios}
use xinu_swd.Kernel.Sched.Switch.{IsHighest}
use xinu_swd.Kernel.Sched.Resched.{resched_lem}
use xinu_swd.Kernel.Sem.{wait}
use xinu_swd.Kernel.Sem.Count.{LayoutIs-sem, IsCounted-update}

-- One process more, one count less, when the count is used up.
CountIs-wait :
    (c : ℤ) (xs : List ℤ) (x : ℤ)
    → ltb_ℤ (c -ℤ pos 1) (pos 0) ≡ true
    → CountIs c xs
    → CountIs (c -ℤ pos 1) (xs ++ x ∷ [])
unfolding ◌-ℤ◌
CountIs-wait (pos zero) xs x h is = ground (arith, length-append xs (x ∷ []))
CountIs-wait (pos (suc n)) xs x h is = absurd (ground arith)
CountIs-wait (negsuc n) xs x h is = ground (arith, length-append xs (x ∷ []))

CountIs-pass :
    (c : ℤ) (xs : List ℤ)
    → ltb_ℤ (c -ℤ pos 1) (pos 0) ≡ false
    → CountIs c xs
    → CountIs (c -ℤ pos 1) xs
unfolding ◌-ℤ◌
CountIs-pass (pos zero) xs h is = absurd (ground arith)
CountIs-pass (pos (suc n)) xs h is = ground arith
CountIs-pass (negsuc n) xs h is = absurd (ground arith)

module _ {k : Kernel} {lists : Lists} (is : IsKernel k lists) (sem : ℤ)
    (good : is_bad_sem sem ≡ false) (used : is_sfree (k.semaph sem).sstate ≡ false) where
  open is use {switching, counted, running}

  -- In a kernel that satisfies the invariant, on a semaphore in use whose count does not fall below
  -- zero: `wait` returns `ok`, takes one off the count and changes nothing else, and the invariant
  -- holds.
  pub wait-pass :
      ltb_ℤ ((k.semaph sem).semcnt -ℤ pos 1) (pos 0) ≡ false
      → (wait sem k ≡ some (ok, set_semcnt sem ((k.semaph sem).semcnt -ℤ pos 1) k))
        × IsKernel (set_semcnt sem ((k.semaph sem).semcnt -ℤ pos 1) k) lists
  unfolding wait
  wait-pass h = (
    rw (good, used, h),
    record {
      switching = record {
        table = switching.table;
        layout =
            LayoutIs-sem k.rdyhead k.rdytail k.clockq k.semaph sem _ refl refl switching.layout;
        ready = switching.ready;
        prios = switching.prios;
        slot = switching.slot;
        alone = switching.alone;
        idle = switching.idle;
      };
      counted =
          IsCounted-update k.semaph lists lists sem _ counted (λ r ne. refl)
            (rw used (
              CountIs-pass (k.semaph sem).semcnt (lists (sem_list sem)) h
                (rw used at (counted sem good))));
      running = running;
    },
  )

  -- In a kernel that satisfies the invariant, on a semaphore in use whose count falls below zero,
  -- and with a process other than the null process running: `wait` ends and returns `ok`, the new
  -- kernel satisfies the invariant, no ready process has a higher priority than the one that runs,
  -- and the caller is the last on the semaphore's list.
  pub wait-block :
      ltb_ℤ ((k.semaph sem).semcnt -ℤ pos 1) (pos 0) ≡ true
      → (k.currpid ==ℤ null_proc) ≡ false
      → (k' : Kernel) × (lists' : Lists) × (wait sem k ≡ some (ok, k'))
        × IsKernel k' lists'
        × IsHighest k' lists'
        × (lists' (sem_list sem) ≡ lists (sem_list sem) ++ k.currpid ∷ [])
  unfolding wait
  wait-block h busy =
      let c = k.currpid in
      let p : Pentry = record (k.proctab c) { pstate = Pstate.wait; psem = sem } in
      let s : Sentry = record (k.semaph sem) { semcnt = (k.semaph sem).semcnt -ℤ pos 1 } in
      let none = Homeless-of_curr (k.proctab c) running in
      let l = lists (sem_list sem) ++ c ∷ [] in
      let out : has c (lists ready_list) ≡ false =
        switching.table.homes c ready_list switching.slot tt ∙ none ready_list in
      let tail = (k.semaph sem).sqtail in
      let k₁ : Kernel = record k {
        semaph = update k.semaph sem s;
        proctab = update k.proctab c p;
        q = enqueue c tail k.q;
      } in
      let blocked : IsSwitching k₁ (relist lists (sem_list sem) l) = record {
        table =
            subst
              (λ z.
                IsTable (enqueue c z k.q) (update k.proctab c p) (relist lists (sem_list sem) l))
              (sym (switching.layout.sem_tail sem good))
              (IsTable-enqueue switching.table (sem_list sem) c p good switching.slot none
                (==ℤ-refl sem));
        layout =
            LayoutIs-sem k.rdyhead k.rdytail k.clockq k.semaph sem s refl refl switching.layout;
        ready =
            IsReady-keys k.q (enqueue c tail k.q) _ _ (qkey-enqueue c tail k.q)
              (IsReady-entry switching.ready c p out);
        prios = update-IsPrios k.proctab c p switching.prios (switching.prios c switching.slot);
        slot = switching.slot;
        alone = λ a sa ne. rw ne (switching.alone a sa ne);
        idle = rw (==ℤ_comm null_proc c, busy) switching.idle;
      } in
      let (k', lists', e, sw) = resched_lem blocked in
      let here : lists' (sem_list sem) ≡ l = sw.others (sem_list sem) refl ∙ rw (==ℤ-refl sem) in
      (
        k',
        lists',
        rw (good, used, h, ◌>>=◌, e),
        record {
          switching = sw.switching;
          counted = rw sw.semaph (
              IsCounted-update k.semaph lists lists' sem s counted
                (λ r ne. sw.others (sem_list r) refl ∙ rw ne)
                (rw (here, used)
                  (CountIs-wait (k.semaph sem).semcnt (lists (sem_list sem)) c h
                    (rw used at (counted sem good)))));
          running = sw.running;
        },
        sw.highest,
        here,
      )
