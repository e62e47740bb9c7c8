-- ===== src/Tcp/User/Octets.antt =====
-- What a reader gets: the octets at the start of the receive buffer, in order.
use xinu_swd.Prelude.{
  ℕ, zero, suc, ◌<◌, ◌≤◌, ◌≡◌, sym, ap, ◌∙◌, false, some, List, [], ◌∷◌, arith, if_false, get_elem?,
}
use xinu_swd.Prelude.Int.{pos, ◌-ℤ◌, ◌==ℤ◌}
use xinu_swd.Tcp.{Tcb, Tcps}
use xinu_swd.Tcp.Send.Stream.{
  ring_place, next_place, next_place_bound, ring_place_zero, ring_place-next_place,
}
use xinu_swd.Tcp.User.{take_octet, take_octets, tcpgetdata}

one_less : (c : ℕ) → pos (suc c) -ℤ pos 1 ≡ pos c
unfolding ◌-ℤ◌
one_less c = ground arith

not_zero : (c : ℕ) → (pos (suc c) ==ℤ pos 0) ≡ false
unfolding ◌==ℤ◌
not_zero c = ground arith

-- The first octet and those behind it.
octet_at :
    (k : ℕ) (t : Tcb) (j : ℕ)
    → t.rbstart < t.rbsize
    → suc k ≤ t.rbsize
    → j < suc k
    → ((j : ℕ)
        → j < k
        → get_elem? (take_octets k (take_octet t)).0 j
          ≡ some (t.rcvbuf (ring_place t.rbsize (next_place t.rbsize t.rbstart) j)))
    → get_elem? (t.rcvbuf t.rbstart ∷ (take_octets k (take_octet t)).0) j
      ≡ some (t.rcvbuf (ring_place t.rbsize t.rbstart j))
octet_at k t zero start_size k_size j_k later =
    ap (λ i. some (t.rcvbuf i)) (sym (ring_place_zero t.rbsize t.rbstart start_size))
octet_at k t (suc j) start_size k_size j_k later =
    later j (omega arith)
    ∙ ap (λ i. some (t.rcvbuf i))
        (ring_place-next_place t.rbsize t.rbstart j start_size (omega arith))

take_octets-at :
    (k c j : ℕ) (t : Tcb)
    → t.rbcount ≡ pos c
    → k ≤ c
    → c ≤ t.rbsize
    → t.rbstart < t.rbsize
    → j < k
    → get_elem? (take_octets k t).0 j ≡ some (t.rcvbuf (ring_place t.rbsize t.rbstart j))
unfolding take_octets
take_octets-at zero c j t e k_c c_size start_size j_k = absurd (omega arith)
take_octets-at (suc k) zero j t e k_c c_size start_size j_k = absurd (omega arith)
take_octets-at (suc k) (suc c) j t e k_c c_size start_size j_k =
    let some_left : (t.rbcount ==ℤ pos 0) ≡ false = ap (λ x. x ==ℤ pos 0) e ∙ not_zero c in
    let later = take_octets k (take_octet t) in
    let left : (take_octet t).rbcount ≡ pos c = ap (λ x. x -ℤ pos 1) e ∙ one_less c in
    let none : List ℕ × Tcb = ([], t) in
    let taken : List ℕ × Tcb = (t.rcvbuf t.rbstart ∷ later.0, later.1) in
    ap (λ r. get_elem? r.0 j) (if_false some_left none taken)
    ∙ octet_at k t j start_size (omega arith) j_k (λ j l.
      take_octets-at k c j (take_octet t) left (omega arith) (omega arith)
        (next_place_bound t.rbsize t.rbstart start_size) l)

-- When a connection has `c` octets waiting in its receive buffer, which holds them, and `k` of them
-- are asked for, at most `c`: octet `j` that `tcpgetdata` returns, for `j` below `k`, is the one
-- `j` places behind the start of the data in the ring.
pub tcpgetdata_octets :
    (n k c j : ℕ) (s : Tcps)
    → (s.tcbtab n).rbcount ≡ pos c
    → k ≤ c
    → c ≤ (s.tcbtab n).rbsize
    → (s.tcbtab n).rbstart < (s.tcbtab n).rbsize
    → j < k
    → get_elem? (tcpgetdata n (pos k) s).0 j
      ≡ some ((s.tcbtab n).rcvbuf (ring_place (s.tcbtab n).rbsize (s.tcbtab n).rbstart j))
unfolding tcpgetdata
tcpgetdata_octets n k c j s = take_octets-at k c j (s.tcbtab n)
