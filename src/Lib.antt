-- ===== src/Lib.antt =====
-- Xinu on the Rochester 68000 boards: the kernel's process manager, memory and queues, the console
-- driver, parts of the network and of the shell, and the C library, as configured for the board mio
-- (xinu/config/mio).
--
-- The kernel keeps all its linked lists in one array `q` (include/q.h): entries below NPROC are
-- processes, the others are heads and tails of lists. A process table, a semaphore table and a few
-- variables complete the state, and every call of xinu/sys/common changes it with interrupts off.
-- The files and what they model:
--   Conf                the constants of include/proc.h, include/sem.h, include/68000/kernel.h and of
--                       xinu/config/mio.
--   Queue               `q` as three functions, and enqueue, dequeue, getfirst, getlast, insert, insertd
--                       and newqueue (queue.c, getitem.c, insert.c, insertd.c, newqueue.c). Queue/Chain to
--                       Queue/Delta hold what is said of them: a list of `q` as a sequence.
--   Kernel              the state as one record, and a monad of state passing: `none` is out of rounds.
--   Kernel/Sched        ready, resched, resume, suspend, chprio, getprio, setnok.
--   Kernel/Sem          wait, signal, signaln, screate, sdelete, sreset, scount.
--   Kernel/Msg          send, sendf, receive, recvclr, recvtim.
--   Kernel/Clock        sleep, sleep10, wakeup, unsleep, stopclk, strtclk and the clock interrupt.
--   Memory              getmem and freemem, with the free list in memory; Memory/Blocks holds the free
--                       list as a sequence of blocks, Memory/Free, Release and Freemem the proofs on
--                       freemem.
--   Gpq                 gpq.c: priority queues in arrays; Gpq/Slot holds the arrays around a new item.
--   Ports               mark.c and the ports (pcreate.c to ptclear.c); Ports/Nodes holds the lists of nodes
--                       as sequences.
--   Buffers             poolinit, mkpool, getbuf, freebuf.
--   Libc                libc/common: strings, blocks, and numbers with the checksum.
--   Tty                 the console driver: echo and output (tty_iin.c, tty_oin.c, tty_utils.c), with
--                       Tty/Interrupt for ttyiin and Tty/Upper for tty_getc.c to tty_cntl.c. Tty/Ring and
--                       Tty/Line hold the input queue as an editor of a line, Tty/Reading what a reader
--                       gets, Tty/Overrun what a full queue does.
--   Net/Timer           the fast timers of TCP (tcp_tmset.c to tcp_timer.c of xinu/ipnet/common);
--                       Net/Timer/Schedule, Mail and Expire hold a list of timers as alarms. A port is the list of
--                       its messages there, and `none` a psend that waits.
--   Net/Addr, Net/Route the route table (rt_add.c to rt_timer.c, net_match.c), with Net/Route/Lookup for
--                       rtget, rtdel and rtfree, and Net/Route/Aging for rttimer, with
--                       Net/Route/Aging/Survivors for what time leaves of a route.
--   Tcp                 TCP's control block, with Window (tcp_rwindow.c, tcp_ok.c), Output (tcp_kick.c,
--                       tcp_wait.c, tcp_abort.c, tcp_reset.c, tcp_ackit.c, tcp_wakeup.c, tcpd_dalloc.c), Ack
--                       (tcp_rtt.c, tcp_ostate.c, tcp_acked.c, tcp_swindow.c), Data (tcp_data.c,
--                       tcp_dodat.c, tcp_tfcoal.c, tcp_tfinsert.c), Open (tcpd_alloc.c, tcp_iss.c,
--                       tcp_sync.c, tcp_winit.c, tcp_listen.c), States (the other input handlers),
--                       Input (tcp_demux.c, tcp_switch.c, tcp_inp.c, tcpd_close.c), Send (tcp_howmuch.c,
--                       tcp_sndlen.c, tcp_send.c) and Events (tcp_idle.c, tcp_persist.c, tcp_xmit.c,
--                       tcp_rexmt.c, tcp_out.c), and User (tcpd_getdata.c, tcpd_read.c, tcpd_gspace.c,
--                       tcpd_wr.c, tcpd_write.c).
--   Tcp/States/Moves, Arrivals
--                       what keeps the states of the connections; Tcp/Input/Legal holds the moves
--                       of the diagram of states and Tcp/Input/Shorts what becomes of
--                       ports that do not fit. Tcp/Send/Stream and Tcp/Data/Whole follow the octets
--                       of a segment.
--   Shell/Lexan         lexan.c of xinu/shell/common.
--   Kernel/Names, Inv, Moves, Entry, State
--                       the invariant: which list a process's state puts it on, the order of the ready
--                       list, and the counts of semaphores.
--   Kernel/Example, Kernel/Tests
--                       a kernel at work and the theorems at it.
--
-- A C `int` is an unbounded integer here, since overflow of one is not defined in C; the byte `phasmsg`
-- wraps, as do addresses in Memory and the sums of the checksum. The loops over a list of `q` take 64
-- rounds, more than the 50 processes that a list can hold. Loops over memory take a number of rounds as
-- an argument; each theorem says how many suffice.
-- A call that gives the processor away returns the value that its caller gets when it runs again; what
-- the caller does then is an operation of its own (`take_msg`, `suspend_return`, and in Gpq, Ports and
-- Buffers the part behind the call of `wait`). The context switch moves registers only and is left out,
-- as are the stack checks of `STKCHK` and the lamp of the clock interrupt. The records of Gpq, Ports and
-- Buffers hold their own memory, apart from the free list of Memory from which they take it. The console
-- driver counts the signals of its two semaphores, and the loops of Shell and Net take a number of rounds
-- where they are not structural. TCP has its sizes from xinu/config/sun350, and one more state that is
-- explicit, the packet that is being handled; sequence numbers are words of 32 bits, the ports of a
-- control block are shorts, with their sign, beside the unsigned ones of a packet, and the mutex of a
-- control block is free when a segment or tcpclose comes to it. A packet is taken from behind
-- tcp_cksum.c and tcp_net2h.c, without options and urgent data. Only the loop of tcp_xmit.c takes rounds in
-- TCP, since it ends when the window is full or all is sent, which depends on the segments' lengths.
-- Not modelled are creation of processes, devices other than the console, TCP's urgent data, options and
-- calls that open a connection, the rest of the network and of the shell, and the applications.
pub mod Prelude
pub mod Conf
pub mod Queue
pub mod Libc
pub mod Net
pub mod Tcp
pub mod Shell
pub mod Tty
pub mod Memory
pub mod Kernel
pub mod Gpq
pub mod Ports
pub mod Buffers
