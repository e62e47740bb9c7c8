-- ===== src/Tcp/Input/Legal/Listening.antt =====
-- The handler of LISTEN: a free control block becomes a connection in SYN_RCVD, and no other state
-- changes.
use xinu_swd.Prelude.{
  ℕ, zero, suc, ◌+◌, ◌≡◌, refl, sym, ◌∙◌, true, false, ◌||◌, if◌then◌else◌, ◌==◌, ltb, arith,
  Option, none, some, Bool-cases, inl, inr, if_true, if_false,
}
use mathlib.Core.Bool.{not}
use mathlib.Core.Path.{subst}
use xinu_swd.Prelude.Int.{pos, ◌+ℤ◌}
use xinu_swd.Tcp.{Tstate, Tcb, Tcps, ntcp, set_tcb, on_tcb}
use xinu_swd.Tcp.Output.{is_unused}
use xinu_swd.Tcp.Data.{set_code, tcpdata}
use xinu_swd.Tcp.Open.{
  free_slot, tcballoc, tcpiss, synced, tcpsync, look_up, with_window, tcpwinit, addressed, prepared,
  opened_by, open_if, tcplisten, ifnum_of, is_direct,
}
use xinu_swd.Tcp.States.{reset}
use xinu_swd.Tcp.States.Moves.{state_at, state_at-set_tcb, state_at-tcpreset}
use xinu_swd.Tcp.States.Arrivals.{state_at-tcpdata}
use xinu_swd.Tcp.Input.Legal.{Move, IsLegal, IsLegal-kept, IsLegal-to, IsLegal-if}
use xinu_swd.Tcp.Input.Legal.Opening.{IsLegal-over, state_at-other}

-- The slot at which the loop stops is free.
pub free_slot-Free :
    (k slot : ℕ) (tab : ℕ → Tcb)
    → ltb (free_slot k slot tab) (slot + k) ≡ true
    → is_unused (tab (free_slot k slot tab)).state ≡ true
unfolding free_slot
free_slot-Free zero slot tab h = ground arith
free_slot-Free (suc k) slot tab h = elim (Bool-cases (is_unused (tab slot).state)) [
  | inl e ↦
      subst (λ j. is_unused (tab j).state ≡ true)
        (sym (if_true e slot (free_slot k (slot + 1) tab))) e
  | inr e ↦
      let later = if_false e slot (free_slot k (slot + 1) tab) in
      let bound : ltb (free_slot k (slot + 1) tab) (slot + 1 + k) ≡ true =
        subst (λ j. ltb j (slot + 1 + k) ≡ true) later (ground arith) in
      subst (λ j. is_unused (tab j).state ≡ true) (sym later)
        (free_slot-Free k (slot + 1) tab bound)
]

Move-accept : (a : Tstate) → is_unused a ≡ true → Move a Tstate.synrcvd
Move-accept Tstate.free e = Move.accept
Move-accept a e = ground arith

-- The control block of the new connection, and what follows keeps the states.
abbrev begun : ℕ → ℕ → Tcps → Tcps
begun n m s = on_tcb m (addressed n s.packet) (tcpsync m s)

state_at-tcpwinit : (n m : ℕ) (s : Tcps) (i : ℕ) → state_at i (tcpwinit n m s) ≡ state_at i s
unfolding tcpwinit with_window
state_at-tcpwinit n m s i =
    let server = s.tcbtab n in
    let (prt, routes) = look_up s.env s.packet.src s.routes in
    let ifnum = ifnum_of s.env.null_ifnum prt in
    let mss = (if is_direct prt then s.env.segment_size ifnum else 536) in
    let t = with_window s.packet ifnum mss server (s.tcbtab m) in
    let s₁ : Tcps = record s { routes = routes } in
    let s₂ = set_tcb m t s₁ in
    state_at-set_tcb n (record (s₂.tcbtab n) { smss = 0 }) s₂ i refl
    ∙ state_at-set_tcb m t s₁ i refl

state_at-opened_by :
    (n m : ℕ) (s : Tcps) (i : ℕ) → state_at i (opened_by n m s) ≡ state_at i (begun n m s)
state_at-opened_by n m s i =
    let s₀ = tcpwinit n m (begun n m s) in
    let s₁ = on_tcb m prepared s₀ in
    let s₂ : Tcps = record s₁ {
      stats = record s₁.stats { passive_opens = s₁.stats.passive_opens + 1 };
      packet = set_code (record s.packet.code { fin = false }) s.packet;
    } in
    let s₃ = tcpdata m s₂ in
    let t₃ = s₃.tcbtab m in
    state_at-set_tcb m (record t₃ { mutexcnt = t₃.mutexcnt +ℤ pos 1 }) s₃ i refl
    ∙ (state_at-tcpdata m s₂ i
        ∙ (state_at-set_tcb m (prepared (s₀.tcbtab m)) s₀ i refl
            ∙ state_at-tcpwinit n m (begun n m s) i))

-- A slot that has been allocated, and synchronized.
abbrev allocated : ℕ → Tcps → Tcps
allocated m s = on_tcb m (λ t. record t { state = Tstate.closed; mutexcnt = pos 0 }) s

state_at-tcpsync :
    (m : ℕ) (s : Tcps) (k : ℕ) → (k == m) ≡ false → state_at k (tcpsync m s) ≡ state_at k s
unfolding tcpsync tcpiss
state_at-tcpsync m s k e =
    let (iss, s') = tcpiss s in state_at-other m (synced iss (s'.tcbtab m)) s' k e

IsLegal-opened_by :
    (i n m : ℕ) (s : Tcps)
    → is_unused (state_at m s) ≡ true
    → IsLegal i s (opened_by n m (allocated m s))
IsLegal-opened_by i n m s e =
    let s' = allocated m s in
    let t = addressed n s'.packet ((tcpsync m s').tcbtab m) in
    let t₀ : Tcb = record (s.tcbtab m) { state = Tstate.closed; mutexcnt = pos 0 } in
    IsLegal-to i s (begun n m s') (opened_by n m s') (state_at-opened_by n m s' i) (
      IsLegal-over i m t s (tcpsync m s')
        (λ k d. state_at-tcpsync m s' k d ∙ state_at-other m t₀ s k d)
        (Move-accept (state_at m s) e))

IsLegal-open_if : (i n : ℕ) (s : Tcps) → IsLegal i s (open_if n (tcballoc s).0 (tcballoc s).1)
unfolding tcballoc
IsLegal-open_if i n s =
    let m = free_slot ntcp 0 s.tcbtab in
    let found : Option ℕ × Tcps = (some m, allocated m s) in
    let not_found : Option ℕ × Tcps = (none, s) in
    let P : Option ℕ × Tcps → Type 0 = λ r. IsLegal i s (open_if n r.0 r.1) in
    elim (Bool-cases (ltb m ntcp)) [
      | inl e ↦
          subst P (sym (if_true e found not_found))
            (IsLegal-opened_by i n m s (free_slot-Free ntcp 0 s.tcbtab e))
      | inr e ↦ subst P (sym (if_false e found not_found)) (IsLegal-kept i s s refl)
    ]

pub tcplisten-IsLegal : (i n : ℕ) (s : Tcps) → IsLegal i s (tcplisten n s)
unfolding tcplisten
tcplisten-IsLegal i n s =
    let opened = open_if n (tcballoc s).0 (tcballoc s).1 in
    let bad = s.packet.code.ack || not s.packet.code.syn in
    IsLegal-if i s s.packet.code.rst s (if bad then reset s else opened)
      (λ b. IsLegal-kept i s s refl)
      (λ b.
        IsLegal-if i s bad (reset s) opened
          (λ r. IsLegal-kept i s (reset s) (state_at-tcpreset s i)) (λ r. IsLegal-open_if i n s))
