-- ===== src/Kernel/Sem/Create.antt =====
-- `screate` (xinu/sys/common/screate.c) keeps the kernel's invariant.
use xinu_swd.Prelude.{
  ℕ, zero, suc, ◌≡◌, refl, sym, ap, ◌∙◌, ◌⊎◌, inl, inr, true, false, List, [], ◌∷◌, arith,
  Bool-cases, if◌then◌else◌,
}
use mathlib.Core.Path.{subst}
use xinu_swd.Prelude.Int.{ℤ, pos, negsuc, ◌==ℤ◌, ◌-ℤ◌, ltb_ℤ, ==ℤ-refl, ==ℤ_iff, pos_part}
use xinu_swd.Conf.{syserr, n_sem, is_bad_sem}
use xinu_swd.Queue.{update}
use xinu_swd.Kernel.{Kernel, Sentry, sused, is_sfree, set_semcnt, set_sstate}
use xinu_swd.Kernel.Names.{sem_list}
use xinu_swd.Kernel.Inv.{Lists, LayoutIs, CountIs}
use xinu_swd.Kernel.State.{IsKernel, IsSwitching, IsCounted}
use xinu_swd.Kernel.Moves.{update-update}
use xinu_swd.Kernel.Sem.{newsem_loop, newsem, screate}
use xinu_swd.Kernel.Sem.Count.{LayoutIs-sem, IsCounted-update}
use xinu_swd.Kernel.Sem.Empty.{CountIs-none}

abbrev down : ℤ → ℤ
down s = if ltb_ℤ (s -ℤ pos 1) (pos 0) then n_sem -ℤ pos 1 else s -ℤ pos 1

down_good : (s : ℤ) → is_bad_sem s ≡ false → is_bad_sem (down s) ≡ false
unfolding ◌-ℤ◌
down_good (pos zero) h = refl
down_good (pos (suc n)) h = ground arith
down_good (negsuc n) h = absurd (ground arith)

abbrev at_sem : ℤ → Kernel → Kernel
at_sem z k = record k { nextsem = z }

-- The search ends with no semaphore, or with one that was free.
newsem_loop_lem :
    (n : ℕ) (k : Kernel)
    → is_bad_sem k.nextsem ≡ false
    → (z : ℤ) × (is_bad_sem z ≡ false)
      × ((newsem_loop n k ≡ (syserr, at_sem z k))
          ⊎ ((sem : ℤ) × (is_bad_sem sem ≡ false)
              × (is_sfree (k.semaph sem).sstate ≡ true)
              × (newsem_loop n k ≡ (sem, set_sstate sem sused (at_sem z k)))))
unfolding newsem_loop
newsem_loop_lem zero k h = (k.nextsem, h, inl refl)
newsem_loop_lem (suc n) k h = elim (Bool-cases (is_sfree (k.semaph k.nextsem).sstate)) [
  | inl f ↦ (down k.nextsem, down_good k.nextsem h, inr (k.nextsem, h, f, rw f))
  | inr f ↦
      let (z, good, o) = newsem_loop_lem n (at_sem (down k.nextsem) k) (down_good k.nextsem h) in
      (
        z,
        good,
        elim o [ inl e ↦ inl (rw f e) | inr (sem, g, free, e) ↦ inr (sem, g, free, rw f e) ],
      )
]

none_of_CountIs : (l : List ℤ) → CountIs (pos 0) l → l ≡ []
none_of_CountIs [] h = refl
none_of_CountIs (x ∷ l) h = absurd (omega arith)

good_ne_syserr : (s : ℤ) → is_bad_sem s ≡ false → (s ==ℤ syserr) ≡ false
good_ne_syserr s h = ground (arith, ==ℤ_iff s syserr)

module _ {k : Kernel} {lists : Lists} (is : IsKernel k lists)
    (turn : is_bad_sem k.nextsem ≡ false) where
  open is use {switching, counted, running}

  -- The kernel with the semaphore `sem` in use, at `count`.
  abbrev created : ℤ → ℤ → ℤ → Kernel
  created z sem count = set_semcnt sem count (set_sstate sem sused (at_sem z k))

  created-IsKernel :
      (z sem count : ℤ)
      → is_bad_sem sem ≡ false
      → is_sfree (k.semaph sem).sstate ≡ true
      → ltb_ℤ count (pos 0) ≡ false
      → IsKernel (created z sem count) lists
  created-IsKernel z sem count good free up =
      let s₁ : Sentry = record (k.semaph sem) { sstate = sused } in
      let s : Sentry = record (k.semaph sem) { sstate = sused; semcnt = count } in
      let at_s : (update k.semaph sem s₁) sem ≡ s₁ = rw (==ℤ-refl sem) in
      let same : (created z sem count).semaph ≡ update k.semaph sem s =
        ap (λ e. update (update k.semaph sem s₁) sem (record e { semcnt = count })) at_s
        ∙ update-update k.semaph sem s₁ s in
      let old : CountIs (pos 0) (lists (sem_list sem)) = rw free at (counted sem good) in
      record {
        switching = record {
          table = switching.table;
          layout =
              subst (LayoutIs k.rdyhead k.rdytail k.clockq) (sym same) (
                LayoutIs-sem k.rdyhead k.rdytail k.clockq k.semaph sem s refl refl
                  switching.layout);
          ready = switching.ready;
          prios = switching.prios;
          slot = switching.slot;
          alone = switching.alone;
          idle = switching.idle;
        };
        counted =
            subst (λ f. IsCounted f lists) (sym same)
              (IsCounted-update k.semaph lists lists sem s counted (λ r ne. refl)
                (rw (none_of_CountIs (lists (sem_list sem)) old) (CountIs-none count up)));
        running = running;
      }

  turned : (z : ℤ) → IsSwitching (at_sem z k) lists
  turned z = record {
    table = switching.table;
    layout = switching.layout;
    ready = switching.ready;
    prios = switching.prios;
    slot = switching.slot;
    alone = switching.alone;
    idle = switching.idle;
  }

  -- In a kernel that satisfies the invariant, with the next semaphore to look at in range, and for
  -- a count that is not negative: after `screate` the kernel satisfies the invariant, the next
  -- semaphore to look at is in range, and the value is `syserr` or a semaphore that was free and is
  -- in use with that count.
  pub screate_lem :
      (count : ℤ)
      → ltb_ℤ count (pos 0) ≡ false
      → (r : ℤ) × (k' : Kernel) × (screate count k ≡ (r, k'))
        × IsKernel k' lists
        × (is_bad_sem k'.nextsem ≡ false)
        × ((r ≡ syserr)
            ⊎ ((is_bad_sem r ≡ false)
                × (is_sfree (k.semaph r).sstate ≡ true)
                × (is_sfree (k'.semaph r).sstate ≡ false)
                × ((k'.semaph r).semcnt ≡ count)))
  unfolding screate newsem
  screate_lem count up =
      let (z, zg, o) = newsem_loop_lem (pos_part n_sem) k turn in
      elim o [
        | inl e ↦ (
          syserr,
          at_sem z k,
          rw (e, up, ==ℤ-refl syserr),
          record { switching = turned z; counted = counted; running = running },
          zg,
          inl refl,
        )
        | inr (sem, good, free, e) ↦ (
          sem,
          created z sem count,
          rw (e, up, good_ne_syserr sem good),
          created-IsKernel z sem count good free up,
          zg,
          inr (good, free, rw (==ℤ-refl sem) refl, rw (==ℤ-refl sem) refl),
        )
      ]
