-- ===== src/Kernel/Msg/Send.antt =====
-- `send` (xinu/sys/common/send.c) keeps the kernel's invariant and delivers the message.
use xinu_swd.Prelude.{◌≡◌, refl, sym, ap, ◌∙◌, true, false, some, arith, Bool-cases, inl, inr}
use mathlib.Core.Path.{subst}
use xinu_swd.Prelude.Int.{ℤ, ◌==ℤ◌, ==ℤ-refl, eq_of_==ℤ}
use xinu_swd.Conf.{ok, is_bad_pid}
use xinu_swd.Queue.{update}
use xinu_swd.Kernel.{
  Pstate, susp, is_curr, is_free, is_recv, is_trecv, Pentry, Kernel, ◌>>=◌, set_msg,
}
use xinu_swd.Kernel.Names.{QName, ready_list, clock_list, sem_list}
use xinu_swd.Kernel.Inv.{Lists, is_home}
use xinu_swd.Kernel.Moves.{Homeless-of, update-update}
use xinu_swd.Kernel.State.{IsSwitching, IsKernel}
use xinu_swd.Kernel.Entry.{IsSwitching-entry}
use xinu_swd.Kernel.Sched.Switch.{IsHighest, is_awake}
use xinu_swd.Kernel.Sched.Wake.{aside, make_ready_resched}
use xinu_swd.Kernel.Sched.Calls.{IsSlot-of_good, not_null}
use xinu_swd.Kernel.Msg.{has_msg, send}

recv_parts : (s : Pstate) → is_recv s ≡ true → (is_free s ≡ false) × (is_curr s ≡ false)
recv_parts s h = (ground arith, ground arith)

recv_homeless : (p : Pentry) → is_recv p.pstate ≡ true → (n : QName) → is_home p n ≡ false
recv_homeless p h = Homeless-of p (ground arith)

pub same_home :
    (p p' : Pentry) (n : QName)
    → p'.pstate ≡ p.pstate
    → p'.psem ≡ p.psem
    → is_home p' n ≡ is_home p n
same_home p p' ready_list e s = rw e
same_home p p' clock_list e s = rw e
same_home p p' (sem_list r) e s = rw (e, s)

module _ {k : Kernel} {lists : Lists} (is : IsKernel k lists) (x msg : ℤ)
    (good : is_bad_pid x ≡ false) (room : has_msg x k ≡ false) where
  open is use {switching, counted, running}

  -- In a kernel that satisfies the invariant, for a good process id whose process waits in
  -- `receive` and has no message: `send` ends and returns `ok`, the new kernel satisfies the
  -- invariant, no ready process has a higher priority than the one that runs, and the process has
  -- the message and runs or is ready.
  pub send-wake :
      is_recv (k.proctab x).pstate ≡ true
      → (k' : Kernel) × (lists' : Lists) × (send x msg k ≡ some (ok, k'))
        × IsKernel k' lists'
        × IsHighest k' lists'
        × ((k'.proctab x).pmsg ≡ msg)
        × ((k'.proctab x).phasmsg ≡ 1)
        × (is_awake (k'.proctab x).pstate ≡ true)
  unfolding send
  send-wake h =
      let k₁ = set_msg x msg 1 k in
      let p₁ : Pentry = record (k.proctab x) { pmsg = msg; phasmsg = 1 } in
      let p : Pentry = record p₁ { pstate = susp } in
      let sw₁ =
        IsSwitching-entry switching x p (IsSlot-of_good x good)
          (λ n. Homeless-of p refl n ∙ sym (recv_homeless (k.proctab x) h n)) refl (λ ne. refl)
          (λ i. absurd (ground (arith, not_null x good))) in
      let at_x : k₁.proctab x ≡ p₁ = rw (==ℤ-refl x) in
      let entry : (aside x k₁).proctab ≡ update k.proctab x p =
        ap (λ z. update k₁.proctab x (record z { pstate = susp })) at_x
        ∙ update-update k.proctab x p₁ p in
      let off : IsSwitching (aside x k₁) lists =
        subst (λ P. IsSwitching (record k { proctab = P }) lists) (sym entry) sw₁ in
      let (k', lists', e, sw) = make_ready_resched k₁ lists x off (IsSlot-of_good x good) good in
      let same = sw.entries x in
      (
        k',
        lists',
        rw (good, (recv_parts (k.proctab x).pstate h).0, room, h, ◌>>=◌, e),
        record {
          switching = sw.switching;
          counted = λ s hs. rw (sw.semaph, sw.others (sem_list s) refl) (counted s hs);
          running = sw.running;
        },
        sw.highest,
        same.2 ∙ ap (λ z. z.pmsg) at_x,
        same.3 ∙ ap (λ z. z.phasmsg) at_x,
        sw.awake,
      )

  -- In a kernel that satisfies the invariant, for a good process id whose process is not free, does
  -- not wait for a message and has none: `send` returns `ok`, changes nothing but that the process
  -- has the message, and the invariant holds.
  pub send-keep :
      is_free (k.proctab x).pstate ≡ false
      → is_recv (k.proctab x).pstate ≡ false
      → is_trecv (k.proctab x).pstate ≡ false
      → (send x msg k ≡ some (ok, set_msg x msg 1 k)) × IsKernel (set_msg x msg 1 k) lists
  unfolding send
  send-keep f r t =
      let p : Pentry = record (k.proctab x) { pmsg = msg; phasmsg = 1 } in
      (
        rw (good, f, room, r, t),
        record {
          switching =
              IsSwitching-entry switching x p (IsSlot-of_good x good)
                (λ n. same_home (k.proctab x) p n refl refl) refl
                (λ ne. switching.alone x (IsSlot-of_good x good) ne)
                (λ i. absurd (ground (arith, not_null x good)));
          counted = counted;
          running = elim (Bool-cases (k.currpid ==ℤ x)) [
            | inl i ↦
                rw i (
                  subst (λ b. is_curr (k.proctab b).pstate ≡ true) (eq_of_==ℤ k.currpid x i)
                    running)
            | inr i ↦ rw i running
          ];
        },
      )
