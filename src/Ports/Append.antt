-- ===== src/Ports/Append.antt =====
-- `psend` (xinu/sys/common/psend.c) puts its message behind the others of the port.
use xinu_swd.Prelude.{
  ℕ, ◌≡◌, refl, sym, ap, ◌∙◌, true, false, List, [], ◌∷◌, ◌++◌, arith, ◌==◌, ==_iff, Bool-cases,
  inl, inr,
}
use mathlib.Core.Path.{subst}
use xinu_swd.Prelude.Int.{ℤ, ==ℤ-refl}
use xinu_swd.Ports.{Ports, put, set_pt, append_msg}
use xinu_swd.Ports.Nodes.{
  has, Nodes, last, IsPort, put_same, Nodes-put, Nodes-snoc, has-append, Distinct-snoc, last-snoc,
  msgs, appended_msgs,
}

abbrev with_node : ℕ → ℤ → Ports → Ports
with_node f msg s = record s {
  ptfree = s.ptnext f;
  ptnext = put s.ptnext f 0;
  ptmsg = put s.ptmsg f msg;
}

-- The message on an empty list, and behind the last node `l`.
abbrev alone : ℤ → ℕ → ℤ → Ports → Ports
alone p f msg s = set_pt p (record (s.ports p) { pttail = f; pthead = f }) (with_node f msg s)

abbrev behind : ℤ → ℕ → ℕ → ℤ → Ports → Ports
behind p l f msg s =
    set_pt p (record (s.ports p) { pttail = f })
      (record (with_node f msg s) { ptnext = put (put s.ptnext f 0) l f })

append_msg-alone :
    (s : Ports) (p msg : ℤ)
    → ((s.ports p).pttail == 0) ≡ true
    → append_msg p msg s ≡ alone p s.ptfree msg s
unfolding append_msg
append_msg-alone s p msg t = rw t

append_msg-behind :
    (s : Ports) (p msg : ℤ)
    → ((s.ports p).pttail == 0) ≡ false
    → append_msg p msg s ≡ behind p (s.ports p).pttail s.ptfree msg s
unfolding append_msg
append_msg-behind s p msg t = rw t

ne_of_has : (a f : ℕ) (ns : List ℕ) → has a ns ≡ true → has f ns ≡ false → (a == f) ≡ false
ne_of_has a f ns h out = elim (Bool-cases (a == f)) [
  | inl e ↦
      let same : a ≡ f = ground (arith, ==_iff a f) in
      let h' : has f ns ≡ true = rw same at h in absurd (ground arith)
  | inr e ↦ e
]

last_ne_0 :
    (next : ℕ → ℕ) (a n : ℕ) (ns : List ℕ) → Nodes next a (n ∷ ns) → (last n ns == 0) ≡ false
last_ne_0 next a n [] is = is.1
last_ne_0 next a n (m ∷ ns) is = last_ne_0 next (next n) m ns is.2

has-last : (n : ℕ) (ns : List ℕ) → has (last n ns) (n ∷ ns) ≡ true
has-last n [] = ground arith
has-last n (m ∷ ns) = ground (arith, has-last m ns)

module _ {s : Ports} {p : ℤ} (msg : ℤ) where
  alone-IsPort :
      (f : ℕ) (fs : List ℕ) → IsPort s p (f ∷ fs) [] → IsPort (alone p f msg s) p fs (f ∷ [])
  alone-IsPort f fs is = record {
    free = Nodes-put s.ptnext f 0 (s.ptnext f) fs is.free_distinct.0 is.free.2;
    list = rw (==ℤ-refl p) (refl, is.free.1, put_same s.ptnext f 0);
    tail = rw (==ℤ-refl p) refl;
    free_distinct = is.free_distinct.1;
    list_distinct = (refl, tt);
    apart = λ a h. rw (ne_of_has a f fs h is.free_distinct.0);
  }

  behind-IsPort :
      (f : ℕ) (fs : List ℕ) (n : ℕ) (ns : List ℕ)
      → IsPort s p (f ∷ fs) (n ∷ ns)
      → IsPort (behind p (last n ns) f msg s) p fs ((n ∷ ns) ++ f ∷ [])
  behind-IsPort f fs n ns is =
      let out : has f (n ∷ ns) ≡ false = is.apart f (ground (arith, ==_iff f f)) in
      let next = put s.ptnext f 0 in
      let list : Nodes next (s.ports p).pthead (n ∷ ns) =
        Nodes-put s.ptnext f 0 (s.ports p).pthead (n ∷ ns) out is.list in
      record {
        free =
            Nodes-put next (last n ns) f (s.ptnext f) fs
              (ground (arith, is.apart (last n ns), has-last n ns))
              (Nodes-put s.ptnext f 0 (s.ptnext f) fs is.free_distinct.0 is.free.2);
        list = rw (==ℤ-refl p) (
            Nodes-snoc next f (s.ports p).pthead n ns is.free.1 (put_same s.ptnext f 0)
              is.list_distinct out list);
        tail = rw (==ℤ-refl p) (sym (last-snoc 0 f (n ∷ ns)));
        free_distinct = is.free_distinct.1;
        list_distinct = Distinct-snoc f (n ∷ ns) out is.list_distinct;
        apart = λ a h. ground (
          arith,
          has-append a (n ∷ ns) (f ∷ []),
          is.apart a,
          ne_of_has a f fs h is.free_distinct.0,
        );
      }

  -- For a port whose nodes and those of the list of free nodes are well linked and apart, with a
  -- free node: what `psend` does once the port has room takes the first free node, leaves both
  -- lists well linked and apart, and the messages of the port are the old ones with the new one
  -- behind them.
  pub append_msg-msgs :
      (f : ℕ) (fs ns : List ℕ)
      → IsPort s p (f ∷ fs) ns
      → IsPort (append_msg p msg s) p fs (ns ++ f ∷ [])
        × (msgs (append_msg p msg s) (ns ++ f ∷ []) ≡ msgs s ns ++ msg ∷ [])
  append_msg-msgs f fs [] is =
      let z : ((s.ports p).pttail == 0) ≡ true = rw is.tail in
      let e : append_msg p msg s ≡ alone p f msg s =
        append_msg-alone s p msg z ∙ ap (λ z. alone p z msg s) is.free.0 in
      rw e (alone-IsPort f fs is, appended_msgs s f msg [] refl)
  append_msg-msgs f fs (n ∷ ns) is =
      let nz : ((s.ports p).pttail == 0) ≡ false =
        rw is.tail (last_ne_0 s.ptnext (s.ports p).pthead n ns is.list) in
      let e : append_msg p msg s ≡ behind p (last n ns) f msg s =
        append_msg-behind s p msg nz ∙ cc (is.tail, is.free.0) in
      subst
        (λ z.
          IsPort z p fs ((n ∷ ns) ++ f ∷ [])
          × (msgs z ((n ∷ ns) ++ f ∷ []) ≡ msgs s (n ∷ ns) ++ msg ∷ []))
        (sym e)
        (
          behind-IsPort f fs n ns is,
          appended_msgs s f msg (n ∷ ns) (is.apart f (ground (arith, ==_iff f f))),
        )
