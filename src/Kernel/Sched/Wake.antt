-- ===== src/Kernel/Sched/Wake.antt =====
-- `ready` (xinu/sys/common/ready.c) on a process that is on no list.
use xinu_swd.Prelude.{◌≡◌, refl, ◌∙◌, true, false, some, Bool-cases, inl, inr}
use xinu_swd.Prelude.Int.{ℤ, pos, ◌==ℤ◌, ◌≤ℤ◌, ==ℤ-refl}
use mathlib.Core.Path.{subst}
use xinu_swd.Conf.{null_proc, maxint, ok, is_bad_pid}
use xinu_swd.Queue.{Qtab, update, insert}
use xinu_swd.Queue.Lists.{IsSlot}
use xinu_swd.Queue.Order.{place}
use xinu_swd.Kernel.{Pstate, is_curr, susp, on_q, ◌>>=◌, Pentry, Kernel, set_pstate}
use xinu_swd.Kernel.Names.{QName, ready_list, same_name}
use xinu_swd.Kernel.Inv.{Lists, relist}
use xinu_swd.Kernel.Moves.{Homeless, Homeless-of, update-update, insert-Ready}
use xinu_swd.Kernel.State.{IsSwitching, IsPrios, update-IsPrios}
use xinu_swd.Kernel.Sched.{make_ready}
use xinu_swd.Kernel.Sched.Switch.{IsHighest, SameEntry, is_awake, SameEntry-state, SameEntry-trans}
use xinu_swd.Kernel.Sched.Resched.{resched_lem}

-- What making `x` ready leaves alone, with the switch behind it.
pub record Woken (x : ℤ) (k : Kernel) (lists : Lists) (k' : Kernel) (lists' : Lists) : Type 0 where
  pub switching : IsSwitching k' lists'
  pub running : is_curr (k'.proctab k'.currpid).pstate ≡ true
  pub highest : IsHighest k' lists'
  pub others : (n : QName) → same_name n ready_list ≡ false → lists' n ≡ lists n
  pub semaph : k'.semaph ≡ k.semaph
  pub entries : (a : ℤ) → SameEntry (k.proctab a) (k'.proctab a)
  pub awake : is_awake (k'.proctab x).pstate ≡ true

-- The kernel in which `pid` is on no list and does not run.
abbrev pub aside : ℤ → Kernel → Kernel
aside pid k = set_pstate pid susp k

abbrev pub readied : ℤ → Qtab → Kernel → Kernel
readied pid t k = record (set_pstate pid Pstate.ready k) { q = t }

module _ (k : Kernel) (lists : Lists) (x : ℤ) where
  pub readied-IsSwitching :
      IsSwitching (aside x k) lists
      → IsSlot x
      → (t : Qtab) × (insert x k.rdyhead (k.proctab x).pprio k.q ≡ some t)
        × IsSwitching
            (readied x t k)
            (relist lists ready_list (place k.q.qkey x (k.proctab x).pprio (lists ready_list)))
  readied-IsSwitching is slot =
      let p : Pentry = record (k.proctab x) { pstate = Pstate.ready } in
      let out : Pentry = record (k.proctab x) { pstate = susp } in
      let P : ℤ → Pentry = update k.proctab x out in
      let prio : (pos 0 ≤ℤ p.pprio) × (p.pprio ≤ℤ maxint) = rw (==ℤ-refl x) at (is.prios x slot) in
      let off : Homeless (P x) = rw (==ℤ-refl x) (Homeless-of out refl) in
      let (t, e, table, ready, keys) = insert-Ready x p is.table is.ready slot off refl prio.1 in
      let same = update-update k.proctab x out p in
      (
        t,
        rw is.layout.ready_head e,
        record {
          table = rw same at table;
          layout = is.layout;
          ready = rw same at ready;
          prios = subst IsPrios same (update-IsPrios P x p is.prios prio);
          slot = is.slot;
          alone = λ a sa na. elim (Bool-cases (a ==ℤ x)) [
            | inl i ↦ rw i
            | inr i ↦ rw i (rw i at (is.alone a sa na))
          ];
          idle = elim (Bool-cases (null_proc ==ℤ x)) [
            | inl i ↦ rw i
            | inr i ↦ rw i (rw i at is.idle)
          ];
        },
      )

  -- `ready(x, RESCHNO)` puts `x` on the ready list.
  pub make_ready_lem :
      IsSwitching (aside x k) lists
      → IsSlot x
      → is_bad_pid x ≡ false
      → (t : Qtab) × (make_ready x false k ≡ some (ok, readied x t k))
        × IsSwitching
            (readied x t k)
            (relist lists ready_list (place k.q.qkey x (k.proctab x).pprio (lists ready_list)))
  unfolding make_ready
  make_ready_lem is slot good =
      let (t, e, is') = readied-IsSwitching is slot in (t, rw (good, e, on_q, ◌>>=◌), is')

  -- `ready(x, RESCHYES)` then chooses the process to run.
  pub make_ready_resched :
      IsSwitching (aside x k) lists
      → IsSlot x
      → is_bad_pid x ≡ false
      → (k' : Kernel) × (lists' : Lists) × (make_ready x true k ≡ some (ok, k'))
        × Woken x k lists k' lists'
  unfolding make_ready
  make_ready_resched is slot good =
      let (t, e, is') = readied-IsSwitching is slot in
      let (k', lists', r, sw) = resched_lem is' in
      (
        k',
        lists',
        rw (good, e, on_q, ◌>>=◌, r),
        record {
          switching = sw.switching;
          running = sw.running;
          highest = sw.highest;
          others = λ n ne. sw.others n ne ∙ rw ne refl;
          semaph = sw.semaph;
          entries = λ a.
              SameEntry-trans (k.proctab a) ((set_pstate x Pstate.ready k).proctab a) (k'.proctab a)
                (SameEntry-state k.proctab x Pstate.ready a) (sw.entries a);
          awake = (sw.states x).0 ∙ rw (==ℤ-refl x) refl;
        },
      )
