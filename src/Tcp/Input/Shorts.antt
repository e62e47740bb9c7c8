-- ===== src/Tcp/Input/Shorts.antt =====
-- The ports of a connection that tcp_listen.c opens, as tcp_demux.c compares them.
use xinu_swd.Prelude.{ℕ, ◌^◌, ◌<◌, ◌≡◌, true, ◌&&◌, arith, ltb}
use xinu_swd.Prelude.Int.{pos, ◌==ℤ◌}
use xinu_swd.Net.Addr.{IpAddr, equ}
use xinu_swd.Tcp.{Packet, Tcb, as_short}
use xinu_swd.Tcp.Open.{addressed}
use xinu_swd.Tcp.Input.{is_connection}

equ_self : (a : IpAddr) → equ a a ≡ true
unfolding equ
equ_self a = ground arith

-- A port is equal to itself as a `short` below 2^15 only.
as_short_lem : (x : ℕ) → x < 2 ^ 16 → (pos x ==ℤ as_short x) ≡ ltb x (2 ^ 15)
unfolding ◌==ℤ◌
as_short_lem x h = ground arith

-- A packet with ports below 2^16 is one of the connection that LISTEN has addressed for it exactly
-- if both of its ports are below 2^15.
pub is_connection-addressed :
    (n : ℕ) (p : Packet) (t : Tcb)
    → p.sport < 2 ^ 16
    → p.dport < 2 ^ 16
    → is_connection p (addressed n p t) ≡ (ltb p.dport (2 ^ 15) && ltb p.sport (2 ^ 15))
is_connection-addressed n p t s d =
    rw (as_short_lem p.sport s, as_short_lem p.dport d, equ_self p.src, equ_self p.dst)
      (ground arith)
