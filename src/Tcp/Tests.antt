-- ===== src/Tcp/Tests.antt =====
-- A server with a connection: segments that arrive, as tests of TCP.
use xinu_swd.Prelude.{
  ◌^◌, ◌&&◌, ltb, get_elem?, ◌+◌, ◌∷◌, arith, ◌≡◌, refl, true, false, none, some, [],
}
use xinu_swd.Tcp.Example.{connection, unused, segment, opening, resetting, system}
use xinu_swd.Prelude.Int.{pos, ◌+ℤ◌, ◌-ℤ◌, ◌==ℤ◌}
use xinu_swd.Net.Addr.{equ}
use xinu_swd.Tcp.{seqcmp, Tstate, Packet, Tcb, Tcps}
use xinu_swd.Tcp.Output.{no_code, no_data, reset_for}
use xinu_swd.Tcp.Window.{tcprwindow, advertised}
use xinu_swd.Tcp.Data.{cut, copy_data}
use xinu_swd.Tcp.Send.{tcpsndlen, segment_of, outgoing}
use xinu_swd.Tcp.Send.Stream.{ring_place}
use xinu_swd.Tcp.Send.Delivery.{start_of, end_of, copy_data-outgoing}
use xinu_swd.Tcp.States.{tcpsynsent}
use xinu_swd.Tcp.States.Refusal.{tcpsynsent-reset_for}
use xinu_swd.Tcp.User.{take_octets, tcpgetdata}
use xinu_swd.Tcp.User.Octets.{tcpgetdata_octets}
use xinu_swd.Tcp.Open.{addressed}
use xinu_swd.Tcp.Input.{demux_loop, is_connection, tcpdemux, tcpinp}
use xinu_swd.Tcp.Input.Shorts.{is_connection-addressed}
use xinu_swd.Tcp.Input.Demux.{IsFor, tcpdemux-IsFor}
use xinu_swd.Tcp.Input.Legal.{IsLegal}
use xinu_swd.Tcp.Input.Legal.Segments.{tcpinp-IsLegal}
use xinu_swd.Tcp.Input.Resets.{tcpinp-IsSilent}

-- A segment is for the connection, a `SYN` from elsewhere for the server, and anything else for none.
to_connection : tcpdemux system ≡ some 1
unfolding tcpdemux demux_loop equ ◌==ℤ◌
to_connection = refl

to_server : tcpdemux (record system { packet = opening }) ≡ some 0
unfolding tcpdemux demux_loop equ ◌==ℤ◌
to_server = refl

to_none : tcpdemux (record system { packet = record segment { sport = 9 } }) ≡ none
unfolding tcpdemux demux_loop equ ◌==ℤ◌
to_none = refl

tcpinp-IsLegal_example : IsLegal 2 system (tcpinp opening system)
tcpinp-IsLegal_example = tcpinp-IsLegal 2 opening system

tcpdemux-IsFor_example : IsFor system (tcpdemux system)
tcpdemux-IsFor_example = tcpdemux-IsFor system

tcpinp-IsSilent_example : (tcpinp resetting system).sent ≡ system.sent
tcpinp-IsSilent_example = tcpinp-IsSilent resetting system refl

-- A connection whose `SYN`, of number 999, is refused.
abbrev asking : Tcps
asking = record system { tcbtab = λ i. record connection { state = Tstate.synsent; snext = 1000 } }

abbrev our_syn : Packet
our_syn = record segment { seq = 999; ackno = 0; code = record no_code { syn = true }; len = pos 0 }

tcpsynsent-reset_for_example :
    tcpsynsent 1 (record asking { packet = reset_for our_syn })
    ≡ record asking { packet = reset_for our_syn }
tcpsynsent-reset_for_example =
    tcpsynsent-reset_for 1 our_syn asking refl refl refl (omega arith) refl

-- The first ten octets of the connection once more, and the other side of it.
abbrev receiver : Tcb
receiver = record connection { rnext = 1000 }

copy_data-outgoing_example :
    (copy_data
        (cut receiver (outgoing true connection).0)
        (outgoing true connection).0
        receiver).rcvbuf
      (ring_place 16384 (end_of receiver) 3)
    ≡ no_data (ring_place 4096 (start_of true connection) 3)
unfolding outgoing segment_of tcprwindow advertised tcpsndlen seqcmp ◌+ℤ◌ ◌-ℤ◌
copy_data-outgoing_example =
    copy_data-outgoing true connection receiver 9 16383 3 refl (omega arith) refl (omega arith)
      (omega arith) (omega arith) (omega arith) refl (omega arith)

-- Five octets wait at the end of the ring.
abbrev reading : Tcps
reading = record system {
  tcbtab = λ i. record connection { rcvbuf = λ j. j + 1; rbstart = 16382; rbcount = pos 5 };
}

tcpgetdata_octets_example :
    get_elem? (tcpgetdata 1 (pos 4) reading).0 3 ≡ some (ring_place 16384 16382 3 + 1)
tcpgetdata_octets_example =
    tcpgetdata_octets 1 4 5 3 reading refl (omega arith) (omega arith) (omega arith) (omega arith)

reads_around : (tcpgetdata 1 (pos 4) reading).0 ≡ 16383 ∷ 16384 ∷ 1 ∷ 2 ∷ []
unfolding tcpgetdata take_octets ◌-ℤ◌ ◌==ℤ◌
reads_around = refl

-- A client at port 2000, and one at port 40000, which does not find its connection again.
is_connection-addressed_example :
    is_connection opening (addressed 0 opening unused) ≡ (ltb 80 (2 ^ 15) && ltb 2000 (2 ^ 15))
is_connection-addressed_example =
    is_connection-addressed 0 opening unused (omega arith) (omega arith)

high_port :
    is_connection
      (record opening { sport = 40000 })
      (addressed 0 (record opening { sport = 40000 }) unused)
    ≡ false
unfolding equ ◌==ℤ◌
high_port = refl
