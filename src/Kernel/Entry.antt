-- ===== src/Kernel/Entry.antt =====
-- A change to one process's entry that moves it to no other list.
use xinu_swd.Prelude.{◌≡◌, sym, ◌∙◌, true, false, ◌||◌, Bool-cases, inl, inr}
use xinu_swd.Prelude.Int.{ℤ, ◌==ℤ◌, eq_of_==ℤ}
use mathlib.Core.Path.{subst}
use xinu_swd.Conf.{null_proc}
use xinu_swd.Queue.{update}
use xinu_swd.Queue.Lists.{IsSlot}
use xinu_swd.Kernel.{Pentry, Kernel, is_curr, is_ready}
use xinu_swd.Kernel.Names.{QName, ready_list}
use xinu_swd.Kernel.Inv.{Lists, is_home, IsTable, IsReady}
use xinu_swd.Kernel.State.{IsSwitching, update-IsPrios}

abbrev pub with_entry : ℤ → Pentry → Kernel → Kernel
with_entry x p k = record k { proctab = update k.proctab x p }

module _ {k : Kernel} {lists : Lists} (is : IsSwitching k lists) (x : ℤ) (p : Pentry) where
  open is use {table, layout, ready, prios, slot, alone, idle}

  pub IsTable-entry :
      ((n : QName) → is_home p n ≡ is_home (k.proctab x) n)
      → IsTable k.q (update k.proctab x p) lists
  IsTable-entry home = record {
    queues = table.queues;
    homes = λ a n sa hn. elim (Bool-cases (a ==ℤ x)) [
      | inl i ↦ rw i (
          table.homes a n sa hn
          ∙ subst (λ b. is_home (k.proctab b) n ≡ is_home p n) (sym (eq_of_==ℤ a x i))
              (sym (home n)))
      | inr i ↦ rw i (table.homes a n sa hn)
    ];
  }

  pub IsReady-same :
      p.pprio ≡ (k.proctab x).pprio → IsReady k.q (update k.proctab x p) (lists ready_list)
  IsReady-same same = record {
    sorted = ready.sorted;
    keys = λ a h. elim (Bool-cases (a ==ℤ x)) [
      | inl i ↦ rw i (
          ready.keys a h
          ∙ subst (λ b. (k.proctab b).pprio ≡ p.pprio) (sym (eq_of_==ℤ a x i)) (sym same))
      | inr i ↦ rw i (ready.keys a h)
    ];
    low = ready.low;
    high = ready.high;
  }

  pub IsSwitching-entry :
      IsSlot x
      → ((n : QName) → is_home p n ≡ is_home (k.proctab x) n)
      → p.pprio ≡ (k.proctab x).pprio
      → ((x ==ℤ k.currpid) ≡ false → is_curr p.pstate ≡ false)
      → ((null_proc ==ℤ x) ≡ true → (is_curr p.pstate || is_ready p.pstate) ≡ true)
      → IsSwitching (with_entry x p k) lists
  IsSwitching-entry sx home same rest null = record {
    table = IsTable-entry home;
    layout = layout;
    ready = IsReady-same same;
    prios = update-IsPrios k.proctab x p prios (rw same (prios x sx));
    slot = slot;
    alone = λ a sa ne. elim (Bool-cases (a ==ℤ x)) [
      | inl i ↦ rw i (rest (subst (λ b. (b ==ℤ k.currpid) ≡ false) (eq_of_==ℤ a x i) ne))
      | inr i ↦ rw i (alone a sa ne)
    ];
    idle = elim (Bool-cases (null_proc ==ℤ x)) [ inl i ↦ rw i (null i) | inr i ↦ rw i idle ];
  }
