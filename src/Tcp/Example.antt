-- ===== src/Tcp/Example.antt =====
-- A server with a connection, and segments for them.
use xinu_swd.Prelude.{ℕ, true, false, none, [], if◌then◌else◌, ◌==◌}
use xinu_swd.Prelude.Int.{pos}
use xinu_swd.Net.Addr.{IpAddr}
use xinu_swd.Tcp.{Tstate, Ostate, Tcbtype, Packet, Tcb, Tcps}
use xinu_swd.Tcp.Output.{no_code, no_data}
use xinu_swd.Tcp.Open.{no_flags, no_queue}

abbrev pub here : IpAddr
here = record { b0 = 10; b1 = 0; b2 = 0; b3 = 1 }

abbrev pub there : IpAddr
there = record { b0 = 10; b1 = 0; b2 = 0; b3 = 2 }

-- A connection between the port 80 here and the port 1024 there.
abbrev pub connection : Tcb
connection = record {
  state = Tstate.established;
  ostate = Ostate.idle;
  type_of = Tcbtype.connection;
  mutexcnt = pos 1;
  code = no_code;
  flags = no_flags;
  error = pos 0;
  rip = there;
  rport = pos 1024;
  lip = here;
  lport = pos 80;
  pni = pos 0;
  suna = 1000;
  snext = 1010;
  slast = 0;
  swindow = 4096;
  lwseq = 500;
  lwack = 1000;
  cwnd = 536;
  ssthresh = 65535;
  smss = 536;
  iss = 999;
  srt = pos 0;
  rtde = pos 0;
  persist = pos 50;
  rexmt = pos 50;
  rexmtcount = 0;
  rnext = 500;
  rudq = no_queue;
  lqsize = pos 0;
  listenq = [];
  pptcb = none;
  ocsemcnt = pos 0;
  dvnum = pos 7;
  ssemacnt = pos 1;
  sndbuf = no_data;
  sbstart = pos 0;
  sbcount = pos 10;
  sbsize = 4096;
  rsemacnt = pos 0;
  rcvbuf = no_data;
  rbstart = 0;
  rbcount = pos 0;
  rbsize = 16384;
  rmss = 536;
  cwin = 16884;
  rsegq = none;
  finseq = 0;
  pushseq = 0;
}

abbrev pub server : Tcb
server = record connection {
  state = Tstate.listen;
  type_of = Tcbtype.server;
  rport = pos 0;
  lqsize = pos 5;
}

abbrev pub unused : Tcb
unused = record connection { state = Tstate.free }

abbrev pub table : ℕ → Tcb
table i = if i == 0 then server else (if i == 1 then connection else unused)

-- A segment of three octets on the connection, and others.
abbrev pub segment : Packet
segment = record {
  src = there;
  dst = here;
  sport = 1024;
  dport = 80;
  seq = 500;
  ackno = 1010;
  code = record no_code { ack = true; psh = true };
  window = 4096;
  len = pos 3;
  data_at = no_data;
}

abbrev pub opening : Packet
opening = record segment { sport = 2000; code = record no_code { syn = true }; len = pos 0 }

abbrev pub resetting : Packet
resetting = record segment { code = record no_code { rst = true }; len = pos 0 }

abbrev pub system : Tcps
system = record {
  tcbtab = table;
  packet = segment;
  timers = [];
  now = 100;
  oport = 3;
  events = [];
  sent = [];
  env = record {
    junk = 0;
    beyond = no_data;
    isbrc = λ a. false;
    null_ifnum = pos 0;
    segment_size = λ i. 1460;
    clktime = 77;
    ipsend = λ p. pos 1;
  };
  routes = record {
    table = λ hv. [];
    default = none;
    valid = true;
    bpool = 100;
    removed = [];
    dorip = false;
    notes = 0;
  };
  iss_seq = 0;
  stats = record {
    attempt_fails = 0;
    estab_resets = 0;
    curr_estab = pos 1;
    out_segs = 0;
    passive_opens = 0;
    retrans_segs = 0;
  };
  wild = 0;
}
