-- ===== src/Kernel/Clock/Interrupt.antt =====
-- The clock interrupt (xinu/sys/mio/clkinit.c) and the naps of `sleep` (xinu/sys/common/sleep.c).
use xinu_swd.Prelude.{
  ℕ, zero, suc, ◌+◌, ◌*◌, ◌-◌, ◌≤◌, ◌<◌, ◌≡◌, true, false, List, [], ◌∷◌, arith, ◌==◌, ltb,
  Bool-cases, inl, inr,
}
use xinu_swd.Prelude.Int.{ℤ, pos, ◌≤ℤ◌, pos_part}
use xinu_swd.Kernel.{Kernel}
use xinu_swd.Kernel.Clock.{sleep_loop, sleep, naps}

-- The tenths of a second that the naps last in all.
abbrev pub lasts : List ℤ → ℕ
lasts [] = 0
lasts (t ∷ ts) = pos_part t + lasts ts

-- Each nap has a length that `sleep10` takes, and one that is not 0.
abbrev pub AllNaps : List ℤ → Type 0
AllNaps [] = Unit
AllNaps (t ∷ ts) = (pos 1 ≤ℤ t) × (t ≤ℤ pos 10000) × AllNaps ts

sleep_loop_lem : (f n : ℕ) → n < f → (lasts (sleep_loop f n) ≡ 10 * n) × AllNaps (sleep_loop f n)
unfolding sleep_loop
sleep_loop_lem zero n h = absurd (omega arith)
sleep_loop_lem (suc f) n h = elim (Bool-cases (ltb n 1000)) [
  | inl e ↦ elim (Bool-cases (ltb 0 n)) [
    | inl p ↦ rw (e, p) (omega arith, (ground arith, ground arith, tt))
    | inr p ↦ rw (e, p) (ground arith, tt)
  ]
  | inr e ↦
      let less : n - 1000 < f = ground arith in
      let more : 1000 ≤ n = ground arith in
      let (sum, all) = sleep_loop_lem f (n - 1000) less in
      rw e (omega (arith, sum), (omega arith, omega arith, all))
]

-- With a running clock and a number of seconds above 0, `sleep` makes finitely many calls of
-- `sleep10`, each for 1 to 10000 tenths of a second, and they last ten times the number of seconds
-- in all.
pub sleep-lasts :
    (n : ℕ) (k : Kernel)
    → k.clkruns ≡ true
    → 0 < n
    → (ts : List ℤ) × (sleep (pos n) k ≡ naps ts) × (lasts ts ≡ 10 * n) × AllNaps ts
unfolding sleep
sleep-lasts n k runs h =
    let z : (n == 0) ≡ false = ground arith in
    let (sum, all) = sleep_loop_lem (n + 1) n (omega arith) in
    (sleep_loop (n + 1) n, rw (runs, z), sum, all)
