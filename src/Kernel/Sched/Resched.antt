-- ===== src/Kernel/Sched/Resched.antt =====
-- All paths through `resched` (xinu/sys/68000/resched.c).
use xinu_swd.Prelude.{◌≡◌, refl, sym, ◌∙◌, true, false, some, arith, Bool-cases, inl, inr}
use xinu_swd.Prelude.Int.{◌==ℤ◌, ltb_ℤ, eq_of_==ℤ}
use mathlib.Core.Path.{subst}
use xinu_swd.Conf.{null_proc, ok}
use xinu_swd.Queue.{Qtab, insert, last_key}
use xinu_swd.Queue.Chain.{last, Chain-last}
use xinu_swd.Queue.Order.{place, sorted-le-last}
use xinu_swd.Kernel.{Pstate, on_q, ◌>>=◌, is_curr, Pentry, Kernel, set_pstate}
use xinu_swd.Kernel.Names.{QName, ready_list, same_name, head_of, tail_of}
use xinu_swd.Kernel.Inv.{Lists, relist}
use xinu_swd.Kernel.Moves.{Homeless-of_curr, insert-Ready}
use xinu_swd.Kernel.State.{update-IsPrios, IsSwitching, IsParked}
use xinu_swd.Kernel.Sched.{resched}
use xinu_swd.Kernel.Sched.Switch.{
  is_awake, StateKept-trans, StateKept-state, Switched, SameEntry-state, SameEntry-trans,
  dispatch_lem,
}

curr_awake : (s : Pstate) → is_curr s ≡ true → is_awake s ≡ true
curr_awake s h = ground arith

module _ {k : Kernel} {lists : Lists} (is : IsSwitching k lists) where
  open is use {table, layout, ready, prios, slot, alone, idle}

  -- The running process stays.
  stay :
      is_curr (k.proctab k.currpid).pstate ≡ true
      → ltb_ℤ (last_key k.q k.rdytail) (k.proctab k.currpid).pprio ≡ true
      → Switched k lists k lists
  stay c below = record {
    switching = is;
    running = c;
    highest = λ a h.
        let queue = table.queues ready_list tt in
        let back =
          (Chain-last k.q.qnext k.q.qprev (head_of ready_list) (lists ready_list)
            (tail_of ready_list) queue.chain).0 in
        let most =
          sorted-le-last k.q.qkey (head_of ready_list) a (lists ready_list) ready.sorted h in
        let below' : ltb_ℤ (k.q.qkey (last (head_of ready_list) (lists ready_list)))
              (k.proctab k.currpid).pprio
            ≡ true =
          rw (layout.ready_tail, back, last_key) at below in
        rw (← ready.keys a h) (ground arith);
    others = λ n ne. refl;
    semaph = refl;
    entries = λ a. (refl, refl, refl, refl, refl);
    states = λ a. (refl, λ e. refl);
    rest = refl;
  }

  -- It does not run any more, and has another state than running.
  parked : is_curr (k.proctab k.currpid).pstate ≡ false → IsParked k lists
  parked c = record {
    table = table;
    layout = layout;
    ready = ready;
    prios = prios;
    none_runs = λ a sa. elim (Bool-cases (a ==ℤ k.currpid)) [
      | inl e ↦ subst (λ b. is_curr (k.proctab b).pstate ≡ false) (sym (eq_of_==ℤ a k.currpid e)) c
      | inr e ↦ alone a sa e
    ];
    idle = elim (Bool-cases (null_proc ==ℤ k.currpid)) [
      | inl e ↦
          let c' : is_curr (k.proctab null_proc).pstate ≡ false =
            subst (λ b. is_curr (k.proctab b).pstate ≡ false)
              (sym (eq_of_==ℤ null_proc k.currpid e)) c in
          ground arith
      | inr e ↦ ground (arith, alone null_proc (omega arith) e)
    ];
  }

  abbrev requeued : Qtab → Kernel
  requeued t = record (set_pstate k.currpid Pstate.ready k) { q = t }

  -- It goes back to the ready list.
  requeued-IsParked :
      is_curr (k.proctab k.currpid).pstate ≡ true
      → (t : Qtab) × (lists' : Lists) × (insert k.currpid k.rdyhead (k.proctab k.currpid).pprio k.q
          ≡ some t)
        × IsParked (requeued t) lists'
        × ((n : QName) → same_name n ready_list ≡ false → lists' n ≡ lists n)
  requeued-IsParked c =
      let p : Pentry = record (k.proctab k.currpid) { pstate = Pstate.ready } in
      let l = place k.q.qkey k.currpid p.pprio (lists ready_list) in
      let (t, e, table', ready', keys) =
        insert-Ready k.currpid p table ready slot (Homeless-of_curr (k.proctab k.currpid) c) refl
          (prios k.currpid slot).1 in
      (
        t,
        relist lists ready_list l,
        rw layout.ready_head e,
        record {
          table = table';
          layout = layout;
          ready = ready';
          prios = update-IsPrios k.proctab k.currpid p prios (prios k.currpid slot);
          none_runs = λ a sa. elim (Bool-cases (a ==ℤ k.currpid)) [
            | inl i ↦ rw i
            | inr i ↦ rw i (alone a sa i)
          ];
          idle = elim (Bool-cases (null_proc ==ℤ k.currpid)) [
            | inl i ↦ rw i
            | inr i ↦ rw i (ground (arith, idle, alone null_proc (omega arith) i))
          ];
        },
        λ n ne. rw ne,
      )

  -- From a kernel in which the part of the invariant holds that a change of the running process's
  -- state leaves intact: `resched` ends and returns `ok`, that part holds again, some process runs,
  -- none on the ready list has a higher priority, a process that neither ran nor was ready keeps
  -- its state and any other runs or is ready; and nothing has changed but the array `q`, of its
  -- lists only the ready list, the states of processes, `currpid` and `preempt`.
  pub resched_lem :
      (k' : Kernel) × (lists' : Lists) × (resched k ≡ some (ok, k')) × Switched k lists k' lists'
  unfolding resched
  resched_lem = elim (Bool-cases (is_curr (k.proctab k.currpid).pstate)) [
    | inl c ↦ elim (Bool-cases (ltb_ℤ (last_key k.q k.rdytail) (k.proctab k.currpid).pprio)) [
      | inl b ↦ (k, lists, rw (c, b), stay c b)
      | inr b ↦
          let (t, lists₁, e, parked₁, same) = requeued-IsParked c in
          let (k', lists', d, sw) = dispatch_lem parked₁ in
          (
            k',
            lists',
            rw (c, b, e, on_q, ◌>>=◌, d),
            record {
              switching = sw.switching;
              running = sw.running;
              highest = sw.highest;
              others = λ n ne. sw.others n ne ∙ same n ne;
              semaph = sw.semaph;
              entries = λ a.
                  SameEntry-trans (k.proctab a) ((set_pstate k.currpid Pstate.ready k).proctab a)
                    (k'.proctab a) (SameEntry-state k.proctab k.currpid Pstate.ready a)
                    (sw.entries a);
              states = λ a.
                  StateKept-trans (k.proctab a).pstate
                    ((set_pstate k.currpid Pstate.ready k).proctab a).pstate (k'.proctab a).pstate
                    (StateKept-state k.proctab k.currpid Pstate.ready a (curr_awake _ c) refl)
                    (sw.states a);
              rest = sw.rest;
            },
          )
    ]
    | inr c ↦ let (k', lists', d, sw) = dispatch_lem (parked c) in (k', lists', rw (c, d), sw)
  ]
