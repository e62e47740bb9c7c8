-- ===== src/Tcp/Input/Demux.antt =====
-- Which control block `tcpdemux` gives a packet to (tcp_demux.c of xinu/ipnet/common).
use xinu_swd.Prelude.{
  ℕ, zero, suc, ◌+◌, ◌≤◌, ◌<◌, ◌≡◌, ◌≢◌, refl, sym, Bool, true, false, ◌&&◌, if◌then◌else◌, ◌==◌,
  ==_iff, arith, Option, none, some, Bool-cases, inl, inr, if_true, if_false,
}
use mathlib.Core.Bool.{not}
use mathlib.Core.Path.{subst}
use xinu_swd.Tcp.{Packet, Tcb, Tcps, ntcp}
use xinu_swd.Tcp.Output.{is_unused}
use xinu_swd.Tcp.Input.{is_connection, is_server, demux_loop, or_server, tcpdemux}

some_ne_none : {n : ℕ} → some n ≢ none
some_ne_none e = cc

-- No control block from `a` to below `b` passes the test.
abbrev pub NoneIn : (ℕ → Bool) → ℕ → ℕ → Type 0
NoneIn q a b = (m : ℕ) → a ≤ m → m < b → q m ≡ false

-- The first one that passes, and the last one, with `before` for none.
pub data First (q : ℕ → Bool) (a b : ℕ) : Option ℕ → Type 0 where
  no_first : NoneIn q a b → First q a b none
  first_is : (n : ℕ) → a ≤ n → n < b → q n ≡ true → NoneIn q a n → First q a b (some n)

pub data Last (q : ℕ → Bool) (a b : ℕ) (before : Option ℕ) : Option ℕ → Type 0 where
  no_last : NoneIn q a b → Last q a b before before
  last_is : (n : ℕ) → a ≤ n → n < b → q n ≡ true → NoneIn q (n + 1) b → Last q a b before (some n)

NoneIn-nothing : (q : ℕ → Bool) (a : ℕ) → NoneIn q a (a + 0)
NoneIn-nothing q a m l u = absurd (omega arith)

NoneIn-next : (q : ℕ → Bool) (a b : ℕ) → q a ≡ false → NoneIn q (a + 1) b → NoneIn q a b
NoneIn-next q a b e later m l u = elim (Bool-cases (m == a)) [
  | inl same ↦ subst (λ m. q m ≡ false) (sym ((==_iff m a).0 same)) e
  | inr other ↦ later m (ground arith) u
]

First-next :
    (q : ℕ → Bool) (a k : ℕ) {r : Option ℕ}
    → q a ≡ false
    → First q (a + 1) (a + 1 + k) r
    → First q a (a + suc k) r
First-next q a k e (First.no_first h) =
    First.no_first (NoneIn-next q a (a + suc k) e (λ m l u. h m l (omega arith)))
First-next q a k e (First.first_is n l u m h) =
    First.first_is n (omega arith) (omega arith) m (NoneIn-next q a n e h)

-- The control block `a` before the ones that have been searched.
Last-next :
    (q : ℕ → Bool) (a k : ℕ) {before r : Option ℕ}
    → q a ≡ false
    → Last q (a + 1) (a + 1 + k) before r
    → Last q a (a + suc k) before r
Last-next q a k e (Last.no_last h) =
    Last.no_last (NoneIn-next q a (a + suc k) e (λ m l u. h m l (omega arith)))
Last-next q a k e (Last.last_is n l u m h) =
    Last.last_is n (omega arith) (omega arith) m (λ j l u. h j l (omega arith))

Last-here :
    (q : ℕ → Bool) (a k : ℕ) {before r : Option ℕ}
    → q a ≡ true
    → Last q (a + 1) (a + 1 + k) (some a) r
    → Last q a (a + suc k) before r
Last-here q a k e (Last.no_last h) =
    Last.last_is a (omega arith) (omega arith) e (λ j l u. h j l (omega arith))
Last-here q a k e (Last.last_is n l u m h) =
    Last.last_is n (omega arith) (omega arith) m (λ j l u. h j l (omega arith))

-- The control blocks that are in use and have the addresses and ports of a packet, and the servers at
-- its port.
abbrev pub matching : Packet → (ℕ → Tcb) → ℕ → Bool
matching p tab n = not (is_unused (tab n).state) && is_connection p (tab n)

abbrev pub serving : Packet → (ℕ → Tcb) → ℕ → Bool
serving p tab n = not (is_unused (tab n).state) && is_server p (tab n)

-- What the loop finds from `a` to below `b`.
abbrev pub Found : Packet → (ℕ → Tcb) → ℕ → ℕ → Option ℕ → Option ℕ × Option ℕ → Type 0
Found p tab a b before r =
    First (matching p tab) a b r.0 × (r.0 ≡ none → Last (serving p tab) a b before r.1)

Found-next :
    (p : Packet) (tab : ℕ → Tcb) (a k : ℕ) (before : Option ℕ) (r : Option ℕ × Option ℕ)
    → matching p tab a ≡ false
    → serving p tab a ≡ false
    → Found p tab (a + 1) (a + 1 + k) before r
    → Found p tab a (a + suc k) before r
Found-next p tab a k before r m v f =
    (First-next (matching p tab) a k m f.0, λ e. Last-next (serving p tab) a k v (f.1 e))

Found-server :
    (p : Packet) (tab : ℕ → Tcb) (a k : ℕ) (before : Option ℕ) (r : Option ℕ × Option ℕ)
    → matching p tab a ≡ false
    → serving p tab a ≡ true
    → Found p tab (a + 1) (a + 1 + k) (some a) r
    → Found p tab a (a + suc k) before r
Found-server p tab a k before r m v f =
    (First-next (matching p tab) a k m f.0, λ e. Last-here (serving p tab) a k v (f.1 e))

Found-connection :
    (p : Packet) (tab : ℕ → Tcb) (a k : ℕ) (before : Option ℕ)
    → matching p tab a ≡ true
    → Found p tab a (a + suc k) before (some a, before)
Found-connection p tab a k before m = (
  First.first_is a (omega arith) (omega arith) m (λ j l u. absurd (omega arith)),
  λ e. absurd (some_ne_none e),
)

demux_loop-Found :
    (p : Packet) (tab : ℕ → Tcb) (k a : ℕ) (before : Option ℕ)
    → Found p tab a (a + k) before (demux_loop p tab k a before)
unfolding demux_loop
demux_loop-Found p tab zero a before = (
  First.no_first (NoneIn-nothing (matching p tab) a),
  λ e. Last.no_last (NoneIn-nothing (serving p tab) a),
)
demux_loop-Found p tab (suc k) a before =
    let rest = demux_loop p tab k (a + 1) before in
    let rest' = demux_loop p tab k (a + 1) (some a) in
    let here : Option ℕ × Option ℕ = (some a, before) in
    let server = if is_server p (tab a) then rest' else rest in
    let used = if is_connection p (tab a) then here else server in
    let P : Option ℕ × Option ℕ → Type 0 = λ r. Found p tab a (a + suc k) before r in
    elim (Bool-cases (is_unused (tab a).state)) [
      | inl f ↦ subst P (sym (if_true f rest used)) (
          Found-next p tab a k before rest (ground arith) (ground arith)
            (demux_loop-Found p tab k (a + 1) before))
      | inr f ↦ subst P (sym (if_false f rest used)) (elim (Bool-cases (is_connection p (tab a))) [
        | inl c ↦
            subst P (sym (if_true c here server)) (Found-connection p tab a k before (ground arith))
        | inr c ↦ subst P (sym (if_false c here server)) (elim (Bool-cases (is_server p (tab a))) [
          | inl v ↦ subst P (sym (if_true v rest' rest)) (
              Found-server p tab a k before rest' (ground arith) (ground arith)
                (demux_loop-Found p tab k (a + 1) (some a)))
          | inr v ↦ subst P (sym (if_false v rest' rest)) (
              Found-next p tab a k before rest (ground arith) (ground arith)
                (demux_loop-Found p tab k (a + 1) before))
        ])
      ])
    ]

-- The control block that a packet is for, if there is one.
pub data IsFor (s : Tcps) : Option ℕ → Type 0 where
  connection :
      (n : ℕ)
      → n < ntcp
      → matching s.packet s.tcbtab n ≡ true
      → NoneIn (matching s.packet s.tcbtab) 0 n
      → IsFor s (some n)
  server :
      (n : ℕ)
      → n < ntcp
      → NoneIn (matching s.packet s.tcbtab) 0 ntcp
      → s.packet.code.syn ≡ true
      → serving s.packet s.tcbtab n ≡ true
      → NoneIn (serving s.packet s.tcbtab) (n + 1) ntcp
      → IsFor s (some n)
  no_server :
      NoneIn (matching s.packet s.tcbtab) 0 ntcp
      → s.packet.code.syn ≡ true
      → NoneIn (serving s.packet s.tcbtab) 0 ntcp
      → IsFor s none
  no_connection :
      NoneIn (matching s.packet s.tcbtab) 0 ntcp → s.packet.code.syn ≡ false → IsFor s none

IsFor-last :
    (s : Tcps) {lst : Option ℕ}
    → NoneIn (matching s.packet s.tcbtab) 0 ntcp
    → s.packet.code.syn ≡ true
    → Last (serving s.packet s.tcbtab) 0 ntcp none lst
    → IsFor s lst
IsFor-last s h e (Last.no_last v) = IsFor.no_server h e v
IsFor-last s h e (Last.last_is n l u v after) = IsFor.server n u h e v after

IsFor-found :
    (s : Tcps) (lst : Option ℕ) {found : Option ℕ}
    → First (matching s.packet s.tcbtab) 0 ntcp found
    → (found ≡ none → Last (serving s.packet s.tcbtab) 0 ntcp none lst)
    → IsFor s (or_server s.packet.code.syn (found, lst))
IsFor-found s lst (First.first_is n l u m h) f = IsFor.connection n u m h
IsFor-found s lst (First.no_first h) f = elim (Bool-cases s.packet.code.syn) [
  | inl e ↦ subst (λ r. IsFor s r) (sym (if_true e lst none)) (IsFor-last s h e (f refl))
  | inr e ↦ subst (λ r. IsFor s r) (sym (if_false e lst none)) (IsFor.no_connection h e)
]

-- `tcpdemux` gives a packet to the first connection in use whose addresses are the packet's and
-- whose ports, as the `short`s that they are kept as, are the packet's unsigned ones; without one,
-- it gives a packet with `SYN` to the last server whose port is so; any other packet gets nothing.
pub tcpdemux-IsFor : (s : Tcps) → IsFor s (tcpdemux s)
unfolding tcpdemux
tcpdemux-IsFor s =
    let r = demux_loop s.packet s.tcbtab ntcp 0 none in
    let f = demux_loop-Found s.packet s.tcbtab ntcp 0 none in IsFor-found s r.1 f.0 f.1
