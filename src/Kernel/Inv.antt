-- ===== src/Kernel/Inv.antt =====
-- The invariant of the kernel's lists: every process stands on the list that its state names, once,
-- and on no other.
use xinu_swd.Prelude.{
  suc, ◌≡◌, sym, ◌∙◌, Bool, true, false, ◌||◌, ◌&&◌, List, ◌∷◌, arith, Bool-cases, inl, inr, length,
  if◌then◌else◌,
}
use xinu_swd.Prelude.Int.{ℤ, pos, negsuc, ◌==ℤ◌, ==ℤ_iff, eq_of_==ℤ}
use xinu_swd.Conf.{minint, maxint, is_bad_sem}
use mathlib.Core.Path.{subst}
use xinu_swd.Queue.{Qtab, update}
use xinu_swd.Queue.Chain.{has}
use xinu_swd.Queue.Lists.{IsSlot, IsQueue}
use xinu_swd.Queue.Frame.{SameOutside, Disjoint, cells, IsQueue-same}
use xinu_swd.Queue.Order.{IsSorted}
use xinu_swd.Kernel.{Pstate, wait, is_ready, is_sleep, is_trecv, Pentry, Sentry, Kernel}
use xinu_swd.Kernel.Names.{
  QName, ready_list, clock_list, sem_list, same_name, IsName, head_of, tail_of, eq_of_same_name,
  IsSlot-of_has, cells_apart,
}

abbrev pub is_wait : Pstate → Bool
is_wait wait = true
is_wait _ = false

-- Whether a process's state puts it on a list.
abbrev pub is_home : Pentry → QName → Bool
is_home p ready_list = is_ready p.pstate
is_home p clock_list = is_sleep p.pstate || is_trecv p.pstate
is_home p (sem_list s) = is_wait p.pstate && (p.psem ==ℤ s)

abbrev pub Lists : Type 0
Lists = QName → List ℤ

-- One list replaced.
abbrev pub relist : Lists → QName → List ℤ → Lists
relist lists n l m = if same_name m n then l else lists m

pub record IsTable (t : Qtab) (proctab : ℤ → Pentry) (lists : Lists) : Type 0 where
  pub queues : (n : QName) → IsName n → IsQueue t (head_of n) (tail_of n) (lists n)
  pub homes : (a : ℤ) (n : QName) → IsSlot a → IsName n → has a (lists n) ≡ is_home (proctab a) n

-- The variables that name the lists are those of the start-up.
pub record LayoutIs (rdyhead rdytail clockq : ℤ) (semaph : ℤ → Sentry) : Type 0 where
  pub ready_head : rdyhead ≡ head_of ready_list
  pub ready_tail : rdytail ≡ tail_of ready_list
  pub clock_head : clockq ≡ head_of clock_list
  pub sem_head : (s : ℤ) → is_bad_sem s ≡ false → (semaph s).sqhead ≡ head_of (sem_list s)
  pub sem_tail : (s : ℤ) → is_bad_sem s ≡ false → (semaph s).sqtail ≡ tail_of (sem_list s)

abbrev pub IsLayout : Kernel → Type 0
IsLayout k = LayoutIs k.rdyhead k.rdytail k.clockq k.semaph

-- The ready list is in order of priority, its keys are the priorities, and its two ends keep the
-- smallest and the largest key.
pub record IsReady (t : Qtab) (proctab : ℤ → Pentry) (l : List ℤ) : Type 0 where
  pub sorted : IsSorted t.qkey l
  pub keys : (a : ℤ) → has a l ≡ true → t.qkey a ≡ (proctab a).pprio
  pub low : t.qkey (head_of ready_list) ≡ minint
  pub high : t.qkey (tail_of ready_list) ≡ maxint

pub IsReady-keys :
    (t t' : Qtab) (proctab : ℤ → Pentry) (l : List ℤ)
    → t'.qkey ≡ t.qkey
    → IsReady t proctab l
    → IsReady t' proctab l
IsReady-keys t t' proctab l e is = record {
  sorted = rw e is.sorted;
  keys = λ a h. rw e (is.keys a h);
  low = rw e is.low;
  high = rw e is.high;
}

-- A negative count is the number of waiting processes; otherwise none waits.
abbrev pub CountIs : ℤ → List ℤ → Type 0
CountIs (pos n) l = length l ≡ 0
CountIs (negsuc n) l = length l ≡ suc n

-- A state names one list at most.
pub is_home_once :
    (p : Pentry) (m n : QName) → is_home p m ≡ true → same_name m n ≡ false → is_home p n ≡ false
is_home_once p ready_list ready_list h e = absurd (cc)
is_home_once p clock_list clock_list h e = absurd (cc)
is_home_once p ready_list clock_list h e = ground arith
is_home_once p clock_list ready_list h e = ground arith
is_home_once p ready_list (sem_list r) h e = ground arith
is_home_once p clock_list (sem_list r) h e = ground arith
is_home_once p (sem_list s) ready_list h e = ground arith
is_home_once p (sem_list s) clock_list h e = ground arith
is_home_once p (sem_list s) (sem_list r) h e =
    ground (arith, ==ℤ_iff p.psem s, ==ℤ_iff p.psem r, ==ℤ_iff s r)

module _ {t : Qtab} {proctab : ℤ → Pentry} {lists : Lists} (table : IsTable t proctab lists) where
  open table use {queues, homes}

  -- Two lists share no process.
  pub lists_apart :
      (m n : QName) → IsName m → IsName n → same_name m n ≡ false → Disjoint (lists m) (lists n)
  lists_apart m n hm hn ne a k =
      let slot = IsSlot-of_has a (lists m) (queues m hm).slots k in
      ground (arith, homes a m slot hm, homes a n slot hn, is_home_once (proctab a) m n)

  -- One list changed, with its process `pid`, whose entry becomes `p`.
  pub IsTable-move :
      (n : QName) (pid : ℤ) (p : Pentry) (t' : Qtab) (l : List ℤ)
      → IsName n
      → IsSlot pid
      → SameOutside (pid ∷ cells (head_of n) (lists n) (tail_of n)) t t'
      → IsQueue t' (head_of n) (tail_of n) l
      → ((m : QName) → IsName m → same_name m n ≡ false → has pid (lists m) ≡ false)
      → ((m : QName) → IsName m → same_name m n ≡ false → is_home p m ≡ false)
      → has pid l ≡ is_home p n
      → ((a : ℤ) → (a ==ℤ pid) ≡ false → has a l ≡ has a (lists n))
      → IsTable t' (update proctab pid p) (relist lists n l)
  IsTable-move n pid p t' l hn slot same queue elsewhere gone here others = record {
    queues = λ m hm. elim (Bool-cases (same_name m n)) [
      | inl e ↦
          rw e
            (subst (λ m. IsQueue t' (head_of m) (tail_of m) l) (sym (eq_of_same_name m n e)) queue)
      | inr e ↦ rw e (
          IsQueue-same t t' (pid ∷ cells (head_of n) (lists n) (tail_of n)) (head_of m) (tail_of m)
            (lists m) same
            (cells_apart m n (lists m) (lists n) pid hm hn e (queues m hm).slots (queues n hn).slots
              slot (elsewhere m hm e) (lists_apart m n hm hn e))
            (queues m hm))
    ];
    homes = λ a m sa hm. elim (Bool-cases (same_name m n)) [
      | inl e ↦
          rw (e, eq_of_same_name m n e)
            (elim (Bool-cases (a ==ℤ pid)) [
              | inl i ↦ rw i (subst (λ a. has a l ≡ is_home p n) (sym (eq_of_==ℤ a pid i)) here)
              | inr i ↦ rw i (others a i ∙ homes a n sa hn)
            ])
      | inr e ↦ rw e (elim (Bool-cases (a ==ℤ pid)) [
        | inl i ↦ rw i (
            subst (λ a. has a (lists m) ≡ is_home p m) (sym (eq_of_==ℤ a pid i))
              (elsewhere m hm e ∙ sym (gone m hm e)))
        | inr i ↦ rw i (homes a m sa hm)
      ])
    ];
  }
