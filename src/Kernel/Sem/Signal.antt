-- ===== src/Kernel/Sem/Signal.antt =====
-- `signal` (xinu/sys/common/signal.c): the count goes up, and the process that has waited longest is
-- made ready.
use xinu_swd.Prelude.{zero, suc, ◌≡◌, refl, ◌∙◌, true, false, some, List, ◌∷◌, arith}
use xinu_swd.Prelude.Int.{ℤ, pos, negsuc, ◌+ℤ◌, ltb_ℤ, ==ℤ-refl}
use xinu_swd.Conf.{ok, is_bad_sem}
use xinu_swd.Kernel.{◌>>=◌, is_sfree, Sentry, Kernel, set_semcnt}
use xinu_swd.Kernel.Names.{sem_list}
use xinu_swd.Kernel.Inv.{Lists, CountIs}
use xinu_swd.Kernel.State.{IsSwitching, IsKernel}
use xinu_swd.Kernel.Sched.Switch.{IsHighest}
use xinu_swd.Kernel.Sched.Wake.{make_ready_resched}
use xinu_swd.Kernel.Sem.{take_first, signal}
use xinu_swd.Kernel.Sem.Count.{LayoutIs-sem, IsCounted-update}
use xinu_swd.Kernel.Sem.Release.{
  taken, waiter-IsSlot, waiter_good, take_first-waiter, taken-IsSwitching,
}

pub CountIs-release : (c : ℤ) (x : ℤ) (xs : List ℤ) → CountIs c (x ∷ xs) → CountIs (c +ℤ pos 1) xs
unfolding ◌+ℤ◌
CountIs-release (pos n) x xs is = absurd (omega arith)
CountIs-release (negsuc zero) x xs is = ground arith
CountIs-release (negsuc (suc n)) x xs is = ground arith

pub negative_of_CountIs :
    (c : ℤ) (x : ℤ) (xs : List ℤ) → CountIs c (x ∷ xs) → ltb_ℤ c (pos 0) ≡ true
negative_of_CountIs (pos n) x xs is = absurd (omega arith)
negative_of_CountIs (negsuc n) x xs is = ground arith

pub CountIs-up :
    (c : ℤ) (xs : List ℤ) → ltb_ℤ c (pos 0) ≡ false → CountIs c xs → CountIs (c +ℤ pos 1) xs
unfolding ◌+ℤ◌
CountIs-up (pos n) xs h is = ground arith
CountIs-up (negsuc n) xs h is = absurd (ground arith)

module _ {k : Kernel} {lists : Lists} (is : IsKernel k lists) (sem : ℤ)
    (good : is_bad_sem sem ≡ false) (used : is_sfree (k.semaph sem).sstate ≡ false) where
  open is use {switching, counted, running}

  pub counted_up : (n : ℤ) → IsSwitching (set_semcnt sem n k) lists
  counted_up n = record {
    table = switching.table;
    layout = LayoutIs-sem k.rdyhead k.rdytail k.clockq k.semaph sem _ refl refl switching.layout;
    ready = switching.ready;
    prios = switching.prios;
    slot = switching.slot;
    alone = switching.alone;
    idle = switching.idle;
  }

  -- In a kernel that satisfies the invariant, on a semaphore in use whose count is not negative:
  -- `signal` returns `ok`, adds one to the count and changes nothing else, and the invariant holds.
  pub signal-pass :
      ltb_ℤ (k.semaph sem).semcnt (pos 0) ≡ false
      → (signal sem k ≡ some (ok, set_semcnt sem ((k.semaph sem).semcnt +ℤ pos 1) k))
        × IsKernel (set_semcnt sem ((k.semaph sem).semcnt +ℤ pos 1) k) lists
  unfolding signal
  signal-pass h = (
    rw (good, used, h),
    record {
      switching = counted_up ((k.semaph sem).semcnt +ℤ pos 1);
      counted =
          IsCounted-update k.semaph lists lists sem _ counted (λ r ne. refl)
            (rw used (
              CountIs-up (k.semaph sem).semcnt (lists (sem_list sem)) h
                (rw used at (counted sem good))));
      running = running;
    },
  )

  -- In a kernel that satisfies the invariant, on a semaphore in use with `x` first among those that
  -- wait: `signal` ends and returns `ok`, the new kernel satisfies the invariant, no ready process
  -- has a higher priority than the one that runs, and `x` alone has left the semaphore's list.
  pub signal-release :
      (x : ℤ) (xs : List ℤ)
      → lists (sem_list sem) ≡ x ∷ xs
      → (k' : Kernel) × (lists' : Lists) × (signal sem k ≡ some (ok, k'))
        × IsKernel k' lists'
        × IsHighest k' lists'
        × (lists' (sem_list sem) ≡ xs)
  unfolding signal
  signal-release x xs e =
      let n = (k.semaph sem).semcnt +ℤ pos 1 in
      let s : Sentry = record (k.semaph sem) { semcnt = n } in
      let k₁ = set_semcnt sem n k in
      let is₁ = counted_up n in
      let c : CountIs (k.semaph sem).semcnt (x ∷ xs) = rw (used, e) at (counted sem good) in
      let neg : ltb_ℤ (k.semaph sem).semcnt (pos 0) ≡ true =
        negative_of_CountIs (k.semaph sem).semcnt x xs c in
      let t : take_first (k.semaph sem).sqhead k₁ ≡ some (x, taken x k₁) =
        rw (==ℤ-refl sem) at (take_first-waiter is₁ running sem good x xs e) in
      let (k', lists', r, sw) =
        make_ready_resched (taken x k₁) _ x (taken-IsSwitching is₁ running sem good x xs e)
          (waiter-IsSlot is₁ running sem good x xs e) (waiter_good is₁ running sem good x xs e) in
      let here : lists' (sem_list sem) ≡ xs = sw.others (sem_list sem) refl ∙ rw (==ℤ-refl sem) in
      (
        k',
        lists',
        rw (good, used, neg, ◌>>=◌, t, r),
        record {
          switching = sw.switching;
          counted = rw sw.semaph (
              IsCounted-update k.semaph lists lists' sem s counted
                (λ r ne. sw.others (sem_list r) refl ∙ rw ne)
                (rw (here, used) (CountIs-release (k.semaph sem).semcnt x xs c)));
          running = sw.running;
        },
        sw.highest,
        here,
      )
