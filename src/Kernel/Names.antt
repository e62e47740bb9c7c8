-- ===== src/Kernel/Names.antt =====
-- The lists that the kernel keeps in `q`, and where `sysinit` and `clkinit` (xinu/sys/mio) put their
-- heads and tails: the semaphores' first, then the ready list, then the sleepers.
use xinu_swd.Prelude.{
  ◌+◌, ◌*◌, ◌≡◌, refl, sym, Bool, true, false, List, [], ◌∷◌, inl, inr, arith, Bool-cases,
}
use mathlib.Core.Path.{subst}
use xinu_swd.Prelude.Int.{ℤ, pos, negsuc, ◌==ℤ◌, ◌≤ℤ◌, pos_part, ==ℤ-refl, ==ℤ_comm, eq_of_==ℤ}
use xinu_swd.Conf.{n_proc, is_bad_sem}
use xinu_swd.Queue.Chain.{has, has-append, ne_of_has}
use xinu_swd.Queue.Lists.{IsSlot, AllSlots, slot_ne_out, not_has_out}
use xinu_swd.Queue.Frame.{Disjoint, cells}

pub data QName : Type 0 where
  ready_list : QName
  clock_list : QName
  sem_list : ℤ → QName

abbrev pub same_name : QName → QName → Bool
same_name ready_list ready_list = true
same_name clock_list clock_list = true
same_name (sem_list s) (sem_list r) = s ==ℤ r
same_name _ _ = false

abbrev pub IsName : QName → Type 0
IsName (sem_list s) = is_bad_sem s ≡ false
IsName _ = Unit

abbrev pub head_of : QName → ℤ
head_of ready_list = pos 1074
head_of clock_list = pos 1076
head_of (sem_list s) = pos (50 + 2 * pos_part s)

abbrev pub tail_of : QName → ℤ
tail_of ready_list = pos 1075
tail_of clock_list = pos 1077
tail_of (sem_list s) = pos (51 + 2 * pos_part s)

pub same_name_refl : (n : QName) → same_name n n ≡ true
same_name_refl ready_list = refl
same_name_refl clock_list = refl
same_name_refl (sem_list s) = ==ℤ-refl s

pub same_name_comm : (m n : QName) → same_name m n ≡ same_name n m
same_name_comm ready_list ready_list = refl
same_name_comm ready_list clock_list = refl
same_name_comm ready_list (sem_list s) = refl
same_name_comm clock_list ready_list = refl
same_name_comm clock_list clock_list = refl
same_name_comm clock_list (sem_list s) = refl
same_name_comm (sem_list s) ready_list = refl
same_name_comm (sem_list s) clock_list = refl
same_name_comm (sem_list s) (sem_list r) = ==ℤ_comm s r

pub eq_of_same_name : (m n : QName) → same_name m n ≡ true → m ≡ n
eq_of_same_name ready_list ready_list h = refl
eq_of_same_name ready_list clock_list h = absurd (cc)
eq_of_same_name ready_list (sem_list s) h = absurd (cc)
eq_of_same_name clock_list ready_list h = absurd (cc)
eq_of_same_name clock_list clock_list h = refl
eq_of_same_name clock_list (sem_list s) h = absurd (cc)
eq_of_same_name (sem_list s) ready_list h = absurd (cc)
eq_of_same_name (sem_list s) clock_list h = absurd (cc)
eq_of_same_name (sem_list s) (sem_list r) h = cc (eq_of_==ℤ s r h)

-- No head or tail serves two lists.
pub ends_apart :
    (m n : QName)
    → IsName m
    → IsName n
    → same_name m n ≡ false
    → ((head_of m ==ℤ head_of n) ≡ false)
      × ((head_of m ==ℤ tail_of n) ≡ false)
      × ((tail_of m ==ℤ head_of n) ≡ false)
      × ((tail_of m ==ℤ tail_of n) ≡ false)
unfolding ◌==ℤ◌
ends_apart ready_list ready_list a b h = absurd (cc)
ends_apart clock_list clock_list a b h = absurd (cc)
ends_apart ready_list clock_list a b h = (refl, refl, refl, refl)
ends_apart clock_list ready_list a b h = (refl, refl, refl, refl)
ends_apart ready_list (sem_list (pos s)) a b h = ground arith
ends_apart ready_list (sem_list (negsuc s)) a b h = absurd (ground arith)
ends_apart clock_list (sem_list (pos s)) a b h = ground arith
ends_apart clock_list (sem_list (negsuc s)) a b h = absurd (ground arith)
ends_apart (sem_list (pos s)) ready_list a b h = ground arith
ends_apart (sem_list (negsuc s)) ready_list a b h = absurd (ground arith)
ends_apart (sem_list (pos s)) clock_list a b h = ground arith
ends_apart (sem_list (negsuc s)) clock_list a b h = absurd (ground arith)
ends_apart (sem_list (negsuc s)) (sem_list r) a b h = absurd (ground arith)
ends_apart (sem_list (pos s)) (sem_list (negsuc r)) a b h = absurd (ground arith)
ends_apart (sem_list (pos s)) (sem_list (pos r)) a b h = ground arith

pub out_of_slots :
    (n : QName)
    → (n_proc ≤ℤ head_of n) × (n_proc ≤ℤ tail_of n) × ((head_of n ==ℤ tail_of n) ≡ false)
unfolding ◌==ℤ◌
out_of_slots ready_list = ground arith
out_of_slots clock_list = ground arith
out_of_slots (sem_list s) = ground arith

pub IsSlot-of_has : (a : ℤ) (xs : List ℤ) → AllSlots xs → has a xs ≡ true → IsSlot a
IsSlot-of_has a [] s h = absurd (cc)
IsSlot-of_has a (x ∷ xs) s h = elim (Bool-cases (a ==ℤ x)) [
  | inl e ↦ rw (eq_of_==ℤ a x e) s.0
  | inr e ↦ IsSlot-of_has a xs s.1 (ground arith)
]

not_has-cells_out :
    (e : ℤ) (n : QName) (ys : List ℤ) (i : ℤ)
    → n_proc ≤ℤ e
    → (e ==ℤ head_of n) ≡ false
    → (e ==ℤ tail_of n) ≡ false
    → AllSlots ys
    → IsSlot i
    → has e (i ∷ cells (head_of n) ys (tail_of n)) ≡ false
not_has-cells_out e n ys i o eh et sy si = ground (
  arith,
  not_has_out e ys sy o,
  has-append e ys (tail_of n ∷ []),
  slot_ne_out i e si o,
  ==ℤ_comm i e,
)

not_has-cells_slot :
    (a : ℤ) (n : QName) (ys : List ℤ) (i : ℤ)
    → IsSlot a
    → (a ==ℤ i) ≡ false
    → has a ys ≡ false
    → has a (i ∷ cells (head_of n) ys (tail_of n)) ≡ false
not_has-cells_slot a n ys i sa ne out = ground (
  arith,
  has-append a ys (tail_of n ∷ []),
  slot_ne_out a (head_of n) sa (out_of_slots n).0,
  slot_ne_out a (tail_of n) sa (out_of_slots n).1,
)

-- The cells of two lists, and of a process on neither, are apart.
pub cells_apart :
    (m n : QName) (xs ys : List ℤ) (i : ℤ)
    → IsName m
    → IsName n
    → same_name m n ≡ false
    → AllSlots xs
    → AllSlots ys
    → IsSlot i
    → has i xs ≡ false
    → Disjoint xs ys
    → Disjoint (cells (head_of m) xs (tail_of m)) (i ∷ cells (head_of n) ys (tail_of n))
cells_apart m n xs ys i hm hn ne sx sy si out apart a h =
    let (hh, ht, th, tt') = ends_apart m n hm hn ne in
    elim (Bool-cases (a ==ℤ head_of m)) [
      | inl e ↦
          subst (λ e. has e (i ∷ cells (head_of n) ys (tail_of n)) ≡ false)
            (sym (eq_of_==ℤ a (head_of m) e))
            (not_has-cells_out (head_of m) n ys i (out_of_slots m).0 hh ht sy si)
      | inr e ↦ elim (Bool-cases (has a xs)) [
        | inl k ↦
            not_has-cells_slot a n ys i (IsSlot-of_has a xs sx k) (ne_of_has a i xs k out)
              (apart a k)
        | inr k ↦
            let last : (a ==ℤ tail_of m) ≡ true =
              ground (arith, has-append a xs (tail_of m ∷ [])) in
            subst (λ e. has e (i ∷ cells (head_of n) ys (tail_of n)) ≡ false)
              (sym (eq_of_==ℤ a (tail_of m) last))
              (not_has-cells_out (tail_of m) n ys i (out_of_slots m).1 th tt' sy si)
      ]
    ]
