-- ===== src/Kernel/Sched/Calls.antt =====
-- resume.c and suspend.c of xinu/sys/common keep the kernel's invariant.
use xinu_swd.Prelude.{
  ◌≡◌, refl, sym, ap, ◌∙◌, true, false, some, none, List, [], ◌∷◌, ◌++◌, arith, Bool-cases, inl,
  inr,
}
use xinu_swd.Prelude.Int.{ℤ, ◌==ℤ◌, ==ℤ-refl, ==ℤ_comm, ==ℤ_iff, eq_of_==ℤ}
use mathlib.Core.Path.{subst, fun_ext}
use xinu_swd.Conf.{null_proc, is_bad_pid}
use xinu_swd.Queue.{update, dequeue}
use xinu_swd.Queue.Chain.{has}
use xinu_swd.Queue.Lists.{IsSlot, IsQueue, Distinct-remove}
use xinu_swd.Kernel.{Pstate, susp, is_curr, is_ready, is_susp, ◌>>=◌, Pentry, Kernel, set_pstate}
use xinu_swd.Kernel.Names.{QName, ready_list, sem_list, same_name, head_of, tail_of}
use xinu_swd.Kernel.Inv.{Lists, relist}
use xinu_swd.Kernel.Moves.{Homeless-of, Homeless-of_curr, IsTable-remove}
use xinu_swd.Kernel.Entry.{IsSwitching-entry}
use xinu_swd.Kernel.State.{IsSwitching, IsKernel, update-IsPrios}
use xinu_swd.Kernel.Sched.{resume, suspend, suspend_return}
use xinu_swd.Kernel.Sched.Switch.{IsHighest, is_awake, left_not_curr, ran_other, IsReady-remove}
use xinu_swd.Kernel.Sched.Resched.{resched_lem}
use xinu_swd.Kernel.Sched.Wake.{aside, make_ready_resched}

-- An entry written back changes nothing.
pub update_self : (f : ℤ → Pentry) (x : ℤ) (p : Pentry) → p ≡ f x → update f x p ≡ f
update_self f x p e = fun_ext λ a. elim (Bool-cases (a ==ℤ x)) [
  | inl i ↦ rw i (e ∙ sym (ap f (eq_of_==ℤ a x i)))
  | inr i ↦ rw i
]

entry_of_susp : (p : Pentry) → is_susp p.pstate ≡ true → record p { pstate = susp } ≡ p
entry_of_susp p h = ground arith

pub IsSlot-of_good : (x : ℤ) → is_bad_pid x ≡ false → IsSlot x
IsSlot-of_good x h = ground arith

module _ {k : Kernel} {lists : Lists} (is : IsKernel k lists) (x : ℤ)
    (good : is_bad_pid x ≡ false) where
  open is use {switching, counted, running}

  -- In a kernel that satisfies the invariant, for a good process id whose process is suspended:
  -- `resume` ends and returns its priority, the process runs or is ready, the new kernel satisfies
  -- the invariant, no ready process has a higher priority than the one that runs, and only the
  -- ready list has changed among the lists.
  pub resume_lem :
      is_susp (k.proctab x).pstate ≡ true
      → (k' : Kernel) × (lists' : Lists) × (resume x k ≡ some ((k.proctab x).pprio, k'))
        × IsKernel k' lists'
        × IsHighest k' lists'
        × ((n : QName) → same_name n ready_list ≡ false → lists' n ≡ lists n)
        × (is_awake (k'.proctab x).pstate ≡ true)
  unfolding resume
  resume_lem h =
      let self : update k.proctab x (record (k.proctab x) { pstate = susp }) ≡ k.proctab =
        update_self k.proctab x _ (entry_of_susp (k.proctab x) h) in
      let off : IsSwitching (aside x k) lists =
        subst (λ P. IsSwitching (record k { proctab = P }) lists) (sym self) switching in
      let (k', lists', e, sw) = make_ready_resched k lists x off (IsSlot-of_good x good) good in
      (
        k',
        lists',
        rw (good, h, ◌>>=◌, e),
        record {
          switching = sw.switching;
          counted = λ s hs. rw (sw.semaph, sw.others (sem_list s) refl) (counted s hs);
          running = sw.running;
        },
        sw.highest,
        sw.others,
        sw.awake,
      )

-- A list that has a process, parted at it.
has_view :
    (x : ℤ) (l : List ℤ) → has x l ≡ true → (xs : List ℤ) × (ys : List ℤ) × (l ≡ xs ++ x ∷ ys)
has_view x [] h = absurd (cc)
has_view x (y ∷ l) h = elim (Bool-cases (x ==ℤ y)) [
  | inl i ↦ ([], l, ap (λ z. z ∷ l) (sym (eq_of_==ℤ x y i)))
  | inr i ↦ let (xs, ys, e) = has_view x l (ground arith) in (y ∷ xs, ys, ap (λ z. y ∷ z) e)
]

pub not_null : (x : ℤ) → is_bad_pid x ≡ false → (null_proc ==ℤ x) ≡ false
not_null x good = ground (arith, ==ℤ_iff null_proc x)

curr_not_ready : (s : Pstate) → is_curr s ≡ true → is_ready s ≡ false
curr_not_ready s h = ground arith

curr_of_ready : (s : Pstate) → is_ready s ≡ true → is_curr s ≡ false
curr_of_ready s h = ground arith

running_ne_ready :
    (k : Kernel) (x : ℤ)
    → is_curr (k.proctab k.currpid).pstate ≡ true
    → is_ready (k.proctab x).pstate ≡ true
    → (k.currpid ==ℤ x) ≡ false
running_ne_ready k x c h = elim (Bool-cases (k.currpid ==ℤ x)) [
  | inl i ↦
      let c' : is_curr (k.proctab x).pstate ≡ true =
        subst (λ b. is_curr (k.proctab b).pstate ≡ true) (eq_of_==ℤ k.currpid x i) c in
      absurd (ground arith)
  | inr i ↦ i
]

module _ {k : Kernel} {lists : Lists} (is : IsKernel k lists) (x : ℤ)
    (good : is_bad_pid x ≡ false) where
  open is use {switching, counted, running}

  abbrev suspended : Pentry
  suspended = record (k.proctab x) { pstate = susp }

  abbrev taken_off : Kernel
  taken_off = record (set_pstate x susp k) { q = dequeue x k.q }

  suspended-IsSwitching :
      (xs ys : List ℤ)
      → is_ready (k.proctab x).pstate ≡ true
      → lists ready_list ≡ xs ++ x ∷ ys
      → IsSwitching taken_off (relist lists ready_list (xs ++ ys)) × (has x (xs ++ ys) ≡ false)
  suspended-IsSwitching xs ys h e =
      let slot = IsSlot-of_good x good in
      let queue : IsQueue k.q (head_of ready_list) (tail_of ready_list) (xs ++ x ∷ ys) =
        rw e at (switching.table.queues ready_list tt) in
      let (d, out) = Distinct-remove xs ys x queue.distinct in
      (
        record {
          table =
              IsTable-remove switching.table ready_list x suspended xs ys tt e
                (Homeless-of suspended refl);
          layout = switching.layout;
          ready = IsReady-remove k.q k.proctab x suspended xs ys (rw e at switching.ready) out;
          prios = update-IsPrios k.proctab x suspended switching.prios (switching.prios x slot);
          slot = switching.slot;
          alone = λ a sa ne. elim (Bool-cases (a ==ℤ x)) [
            | inl i ↦ rw i
            | inr i ↦ rw i (switching.alone a sa ne)
          ];
          idle = rw (not_null x good) switching.idle;
        },
        out,
      )

  -- In a kernel that satisfies the invariant, for a good process id whose process is ready:
  -- `suspend` returns its priority, the new kernel satisfies the invariant, and the process is not
  -- on the ready list and no other list has changed.
  pub suspend-ready :
      is_ready (k.proctab x).pstate ≡ true
      → (k' : Kernel) × (lists' : Lists) × (suspend x k ≡ some (some (k.proctab x).pprio, k'))
        × IsKernel k' lists'
        × (has x (lists' ready_list) ≡ false)
        × ((n : QName) → same_name n ready_list ≡ false → lists' n ≡ lists n)
  unfolding suspend suspend_return
  suspend-ready h =
      let slot = IsSlot-of_good x good in
      let on_list : has x (lists ready_list) ≡ true =
        switching.table.homes x ready_list slot tt ∙ h in
      let (xs, ys, e) = has_view x (lists ready_list) on_list in
      let (sw, out) = suspended-IsSwitching xs ys h e in
      let runs : (k.currpid ==ℤ x) ≡ false = running_ne_ready k x running h in
      (
        taken_off,
        relist lists ready_list (xs ++ ys),
        rw (good, ==ℤ_comm x null_proc, not_null x good, curr_of_ready (k.proctab x).pstate h, h)
            (rw (suspend_return, ==ℤ-refl x) refl),
        record { switching = sw; counted = counted; running = rw runs running },
        out,
        λ n ne. rw ne,
      )

  -- In a kernel that satisfies the invariant, for a good process id whose process runs: `suspend`
  -- ends, the process is left suspended and another one runs, the new kernel satisfies the
  -- invariant, no ready process has a higher priority than the one that runs, and only the ready
  -- list has changed among the lists.
  pub suspend_self :
      is_curr (k.proctab x).pstate ≡ true
      → (k' : Kernel) × (lists' : Lists) × (suspend x k ≡ some (none, k'))
        × IsKernel k' lists'
        × IsHighest k' lists'
        × ((n : QName) → same_name n ready_list ≡ false → lists' n ≡ lists n)
        × ((k'.proctab x).pstate ≡ susp)
        × ((k'.currpid ==ℤ x) ≡ false)
  unfolding suspend
  suspend_self h =
      let none_home = Homeless-of_curr (k.proctab x) h in
      let sw₁ =
        IsSwitching-entry switching x suspended (IsSlot-of_good x good)
          (λ n. Homeless-of suspended refl n ∙ sym (none_home n)) refl (λ ne. refl)
          (λ i. absurd (ground (arith, not_null x good))) in
      let (k', lists', e, sw) = resched_lem sw₁ in
      let was : (set_pstate x susp k).proctab x ≡ suspended = rw (==ℤ-refl x) refl in
      let before : is_awake ((set_pstate x susp k).proctab x).pstate ≡ false =
        ap (λ q. is_awake q.pstate) was in
      let left : (k'.proctab x).pstate ≡ susp = (sw.states x).1 before ∙ ap (λ q. q.pstate) was in
      (
        k',
        lists',
        rw (
          good,
          ==ℤ_comm x null_proc,
          not_null x good,
          h,
          curr_not_ready (k.proctab x).pstate h,
          ◌>>=◌,
          e,
        ),
        record {
          switching = sw.switching;
          counted = λ s hs. rw (sw.semaph, sw.others (sem_list s) refl) (counted s hs);
          running = sw.running;
        },
        sw.highest,
        sw.others,
        left,
        ran_other k' x (left_not_curr k' x susp left refl) sw.running,
      )
