-- ===== src/Ports.antt =====
-- Marks (mark.c) and message ports (pcreate.c, pinit.c, psend.c, preceive.c, pcount.c, preset.c,
-- pdelete.c, ptclear.c) of xinu/sys/common. `psend` and `preceive` may block in `wait`, so each is two
-- steps: what it does up to and with that call, and the rest, for when the caller runs again.
pub mod Nodes
pub mod Append
pub mod Take
mod Tests
use xinu_swd.Prelude.{
  ℕ, zero, suc, ◌+◌, ◌*◌, ◌-◌, Bool, true, false, ◌&&◌, ◌||◌, Option, none, some, if◌then◌else◌,
  ◌==◌,
}
use mathlib.Core.Bool.{not}
use xinu_swd.Prelude.Int.{ℤ, pos, ◌==ℤ◌, ◌+ℤ◌, ◌-ℤ◌, ltb_ℤ, leb_ℤ, pos_part}
use xinu_swd.Conf.{ok, syserr}
use xinu_swd.Queue.{update}
use xinu_swd.Kernel.{Kernel, M}
use xinu_swd.Kernel.Sem.{wait, signal, screate, sdelete, sreset, scount}
use xinu_swd.Memory.{Mem, getmem}

-- `NPORTS` of xinu/config/mio, and `MAXMSGS`
abbrev pub n_ports : ℤ
n_ports = pos 200

abbrev pub max_msgs : ℕ
max_msgs = 100

-- `PTFREE`, `PTLIMBO`, `PTALLOC`
pub data Ptstate : Type 0 where
  free limbo alloc : Ptstate

abbrev pub is_free : Ptstate → Bool
is_free free = true
is_free _ = false

abbrev pub is_alloc : Ptstate → Bool
is_alloc alloc = true
is_alloc _ = false

-- `struct pt`; a node is named by its address, and 0 is `NULL`.
pub record Pt : Type 0 where
  pub ptstate : Ptstate
  pub ptssem : ℤ
  pub ptrsem : ℤ
  pub ptmaxcnt : ℤ
  pub ptseq : ℤ
  pub pthead : ℕ
  pub pttail : ℕ

-- The nodes' fields by address, the list of free nodes, the table, and whether `ptmark` is marked.
pub record Ports : Type 0 where
  pub ptmsg : ℕ → ℤ
  pub ptnext : ℕ → ℕ
  pub ptfree : ℕ
  pub ports : ℤ → Pt
  pub ptnextp : ℤ
  pub marked : Bool

abbrev pub put {ℓ} : {A : Type ℓ} → (ℕ → A) → ℕ → A → ℕ → A
put f a v i = if i == a then v else f i

abbrev pub set_pt : ℤ → Pt → Ports → Ports
set_pt p t s = record s { ports = update s.ports p t }

-- The table of marks: `marks[i]` is an address, and `at` what stands there.
pub record Marks : Type 0 where
  pub marks : ℤ → ℕ
  pub nmarks : ℤ
  pub at : ℕ → ℤ

-- `marked(L)` of include/mark.h
abbrev pub is_marked : Marks → ℕ → Bool
is_marked m loc =
    leb_ℤ (pos 0) (m.at loc) && ltb_ℤ (m.at loc) m.nmarks && (m.marks (m.at loc) == loc)

-- `mark`, with `MAXMARK` 20. The semaphore around the two writes is left out.
unfoldable pub mark : ℕ → Marks → ℤ × Marks
mark loc m =
    if is_marked m loc
    then (pos 0, m)
    else (if leb_ℤ (pos 20) m.nmarks then (syserr, m) else (
      ok,
      record {
        marks = update m.marks m.nmarks loc;
        nmarks = m.nmarks +ℤ pos 1;
        at = put m.at loc m.nmarks;
      },
    ))

-- The loop of `pinit` that links the nodes; a node takes 8 bytes.
unfoldable pub link_nodes : ℕ → ℕ → (ℕ → ℕ) → ℕ → ℕ
link_nodes zero prev next = put next prev 0
link_nodes (suc n) prev next = link_nodes n (prev + 8) (put next prev (prev + 8))

-- `pinit`; the value `none` is the panic.
unfoldable pub pinit : ℕ → ℕ → Mem → Ports → Option (Option ℤ × Mem × Ports)
pinit f maxmsgs m s = elim (getmem f (8 * maxmsgs) m) [
  | none ↦ none
  | some (r, m') ↦
      let first = pos_part r in
      let s' = record s {
        ptfree = first;
        ports = λ p.
            if ltb_ℤ p (pos 0) || leb_ℤ n_ports p
            then s.ports p
            else record (s.ports p) { ptstate = free };
        ptnextp = n_ports -ℤ pos 1;
        ptnext = link_nodes (maxmsgs - 1) first s.ptnext;
      } in
      some (if r ==ℤ syserr then (none, m', s) else (some ok, m', s'))
]

-- The search of `pcreate`, in `n` rounds: the free port, and the port at which to go on.
unfoldable pub find_port : ℕ → Ports → Option ℤ × ℤ
find_port zero s = (none, s.ptnextp)
find_port (suc n) s =
    let p = s.ptnextp in
    let down = if leb_ℤ p (pos 0) then n_ports -ℤ pos 1 else p -ℤ pos 1 in
    let rest = find_port n (record s { ptnextp = down }) in
    if is_free (s.ports p).ptstate then (some p, down) else rest

-- `pcreate` behind its tests, once the ports are set up.
unfoldable pub pcreate_rest : ℤ → Kernel → Ports → ℤ × Kernel × Ports
pcreate_rest count k s =
    let (found, nextp) = find_port 200 s in
    let s₁ = record s { ptnextp = nextp } in
    elim found [
      | none ↦ (syserr, k, s₁)
      | some p ↦
          let (ssem, k₁) = screate count k in
          let (rsem, k₂) = screate (pos 0) k₁ in
          let t : Pt = record {
            ptstate = alloc;
            ptssem = ssem;
            ptrsem = rsem;
            ptmaxcnt = count;
            ptseq = (s.ports p).ptseq +ℤ pos 1;
            pthead = 0;
            pttail = 0;
          } in
          (p, k₂, set_pt p t s₁)
    ]

-- `mark(ptmark)` marks at the first call, and the ports are set up then.
unfoldable pub pcreate : ℕ → ℤ → Kernel → Mem → Ports → Option (Option ℤ × Kernel × Mem × Ports)
pcreate f count k m s =
    let init =
      if s.marked then some (some ok, m, s) else pinit f max_msgs m (record s { marked = true }) in
    if ltb_ℤ count (pos 0) then some (some syserr, k, m, s) else elim init [
      | none ↦ none
      | some (none, m', s') ↦ some (none, k, m', s')
      | some (some v, m', s') ↦
          let (p, k', s'') = pcreate_rest count k s' in some (some p, k', m', s'')
    ]

abbrev pub is_bad_port : ℤ → Ports → Bool
is_bad_port p s =
    ltb_ℤ p (pos 0) || leb_ℤ n_ports p || not s.marked || not (is_alloc (s.ports p).ptstate)

-- The first steps of `psend` and `preceive`: the sequence number, and what `wait` returns.
unfoldable pub psend_wait : ℤ → Ports → M (Option (ℤ × ℤ))
psend_wait p s k = if is_bad_port p s then some (none, k) else elim (wait (s.ports p).ptssem k) [
  | none ↦ none
  | some (r, k') ↦ some (some ((s.ports p).ptseq, r), k')
]

unfoldable pub preceive_wait : ℤ → Ports → M (Option (ℤ × ℤ))
preceive_wait p s k = if is_bad_port p s then some (none, k) else elim (wait (s.ports p).ptrsem k) [
  | none ↦ none
  | some (r, k') ↦ some (some ((s.ports p).ptseq, r), k')
]

-- Whether the port is still the one that the caller waited for.
abbrev pub is_stale : ℤ → ℤ → ℤ → Ports → Bool
is_stale p seq r s =
    r ==ℤ syserr || not (is_alloc (s.ports p).ptstate) || not ((s.ports p).ptseq ==ℤ seq)

-- A free node takes the message and goes to the end of the port's list.
unfoldable pub append_msg : ℤ → ℤ → Ports → Ports
append_msg p msg s =
    let t = s.ports p in
    let node = s.ptfree in
    let s₁ = record s {
      ptfree = s.ptnext node;
      ptnext = put s.ptnext node 0;
      ptmsg = put s.ptmsg node msg;
    } in
    if t.pttail == 0
    then set_pt p (record t { pttail = node; pthead = node }) s₁
    else set_pt p (record t { pttail = node }) (record s₁ { ptnext = put s₁.ptnext t.pttail node })

-- The rest of `psend`; the value `none` is the panic when the nodes are used up.
unfoldable pub psend_rest : ℤ → ℤ → ℤ → ℤ → Ports → Kernel → Option (Option ℤ × Kernel × Ports)
psend_rest p msg seq r s k =
    if is_stale p seq r s
    then some (some syserr, k, s)
    else (if s.ptfree == 0 then some (none, k, s) else elim (signal (s.ports p).ptrsem k) [
      | none ↦ none
      | some (v, k') ↦ some (some ok, k', append_msg p msg s)
    ])

-- The first message leaves the port's list, and its node goes to the free ones.
unfoldable pub take_msg : ℤ → Ports → ℤ × Ports
take_msg p s =
    let t = s.ports p in
    let node = t.pthead in
    let t' =
      if t.pthead == t.pttail
      then record t { pthead = 0; pttail = 0 }
      else record t { pthead = s.ptnext node } in
    (s.ptmsg node, set_pt p t' (record s { ptnext = put s.ptnext node s.ptfree; ptfree = node }))

unfoldable pub preceive_rest : ℤ → ℤ → ℤ → Ports → Kernel → Option (ℤ × Kernel × Ports)
preceive_rest p seq r s k =
    let (msg, s') = take_msg p s in
    if is_stale p seq r s
    then some (syserr, k, s)
    else elim (signal (s.ports p).ptssem k) [ none ↦ none | some (v, k') ↦ some (msg, k', s') ]

-- The messages of the port, and the senders that wait for room.
unfoldable pub pcount : ℤ → Ports → Kernel → ℤ
pcount p s k =
    let count = scount (s.ports p).ptrsem k in
    let scnt = scount (s.ports p).ptssem k in
    if is_bad_port p s then syserr else (if ltb_ℤ scnt (pos 0) then count -ℤ scnt else count)

-- The lists of `_ptclear`: the port's nodes, all at once, go to the free ones. What the
-- caller's function `dispose` does with the messages is not part of the state.
unfoldable pub free_msgs : ℤ → Ports → Ports
free_msgs p s =
    let t = s.ports p in
    if t.pthead == 0
    then s
    else record s { ptnext = put s.ptnext t.pttail s.ptfree; ptfree = t.pthead }

-- What `_ptclear` does before it resets the semaphores, and behind that: processes that the reset
-- sets free may run in between, and find the port in limbo.
unfoldable pub ptclear_begin : ℤ → Bool → Ports → Ports
ptclear_begin p again s =
    let t = s.ports p in
    let t₁ = record t { ptstate = limbo; ptseq = t.ptseq +ℤ pos 1 } in
    let s₁ = free_msgs p (set_pt p t₁ s) in
    if again then set_pt p (record t₁ { pttail = 0; pthead = 0 }) s₁ else s₁

unfoldable pub ptclear_sems : ℤ → Bool → Ports → Kernel → Option Kernel
ptclear_sems p again s k =
    let t = s.ports p in
    elim (if again then sreset t.ptssem t.ptmaxcnt k else sdelete t.ptssem k) [
      | none ↦ none
      | some (v, k₁) ↦ elim (if again then sreset t.ptrsem (pos 0) k₁ else sdelete t.ptrsem k₁) [
        | none ↦ none
        | some (w, k₂) ↦ some k₂
      ]
    ]

unfoldable pub ptclear_end : ℤ → Bool → Ports → Ports
ptclear_end p again s = set_pt p (record (s.ports p) { ptstate = if again then alloc else free }) s

-- The whole, where no other process runs in between.
unfoldable pub ptclear : ℤ → Bool → Ports → Kernel → Option (Kernel × Ports)
ptclear p again s k =
    let s₁ = ptclear_begin p again s in
    elim (ptclear_sems p again s₁ k) [ none ↦ none | some k' ↦ some (k', ptclear_end p again s₁) ]

unfoldable pub preset : ℤ → Ports → Kernel → Option (ℤ × Kernel × Ports)
preset p s k =
    if is_bad_port p s
    then some (syserr, k, s)
    else elim (ptclear p true s k) [ none ↦ none | some (k', s') ↦ some (ok, k', s') ]

unfoldable pub pdelete : ℤ → Ports → Kernel → Option (ℤ × Kernel × Ports)
pdelete p s k =
    if is_bad_port p s
    then some (syserr, k, s)
    else elim (ptclear p false s k) [ none ↦ none | some (k', s') ↦ some (ok, k', s') ]
