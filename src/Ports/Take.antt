-- ===== src/Ports/Take.antt =====
-- `preceive` (xinu/sys/common/preceive.c) takes the first message of the port.
use xinu_swd.Prelude.{
  ℕ, ◌≡◌, refl, sym, ap, ◌∙◌, true, false, List, [], ◌∷◌, arith, ◌==◌, ==_iff, Bool-cases, inl, inr,
}
use mathlib.Core.Path.{subst}
use xinu_swd.Prelude.Int.{ℤ, ==ℤ-refl}
use xinu_swd.Ports.{Ports, put, set_pt, take_msg}
use xinu_swd.Ports.Nodes.{has, Nodes, IsPort, put_same, Nodes-put, ne_last, msgs}

abbrev freed : ℕ → Ports → Ports
freed n s = record s { ptnext = put s.ptnext n s.ptfree; ptfree = n }

-- The last message is taken, or one with others behind it.
abbrev emptied : ℤ → ℕ → Ports → Ports
emptied p n s = set_pt p (record (s.ports p) { pthead = 0; pttail = 0 }) (freed n s)

abbrev advanced : ℤ → ℕ → Ports → Ports
advanced p n s = set_pt p (record (s.ports p) { pthead = s.ptnext n }) (freed n s)

take_msg-emptied :
    (s : Ports) (p : ℤ)
    → ((s.ports p).pthead == (s.ports p).pttail) ≡ true
    → take_msg p s ≡ (s.ptmsg (s.ports p).pthead, emptied p (s.ports p).pthead s)
unfolding take_msg
take_msg-emptied s p h = rw h

take_msg-advanced :
    (s : Ports) (p : ℤ)
    → ((s.ports p).pthead == (s.ports p).pttail) ≡ false
    → take_msg p s ≡ (s.ptmsg (s.ports p).pthead, advanced p (s.ports p).pthead s)
unfolding take_msg
take_msg-advanced s p h = rw h

module _ {s : Ports} {p : ℤ} where
  taken-apart :
      (n : ℕ) (fs ns : List ℕ)
      → IsPort s p fs (n ∷ ns)
      → (a : ℕ) → has a (n ∷ fs) ≡ true
      → has a ns ≡ false
  taken-apart n fs ns is a h = elim (Bool-cases (a == n)) [
    | inl e ↦ let same : a ≡ n = ground (arith, ==_iff a n) in rw same is.list_distinct.0
    | inr e ↦ ground (arith, is.apart a)
  ]

  freed-free :
      (n : ℕ) (fs ns : List ℕ)
      → IsPort s p fs (n ∷ ns)
      → (has n fs ≡ false) × Nodes (put s.ptnext n s.ptfree) n (n ∷ fs)
  freed-free n fs ns is =
      let out : has n fs ≡ false = elim (Bool-cases (has n fs)) [
        | inl h ↦ absurd (ground (arith, is.apart n h, ==_iff n n))
        | inr h ↦ h
      ] in
      (
        out,
        (
          refl,
          is.list.1,
          rw (put_same s.ptnext n s.ptfree) (Nodes-put s.ptnext n s.ptfree s.ptfree fs out is.free),
        ),
      )

  emptied-IsPort :
      (n : ℕ) (fs : List ℕ) → IsPort s p fs (n ∷ []) → IsPort (emptied p n s) p (n ∷ fs) []
  emptied-IsPort n fs is =
      let (out, free) = freed-free n fs [] is in
      record {
        free = free;
        list = rw (==ℤ-refl p) refl;
        tail = rw (==ℤ-refl p) refl;
        free_distinct = (out, is.free_distinct);
        list_distinct = tt;
        apart = λ a h. refl;
      }

  advanced-IsPort :
      (n : ℕ) (fs : List ℕ) (m : ℕ) (ns : List ℕ)
      → IsPort s p fs (n ∷ m ∷ ns)
      → IsPort (advanced p n s) p (n ∷ fs) (m ∷ ns)
  advanced-IsPort n fs m ns is =
      let (out, free) = freed-free n fs (m ∷ ns) is in
      record {
        free = free;
        list =
            rw (==ℤ-refl p)
              (Nodes-put s.ptnext n s.ptfree (s.ptnext n) (m ∷ ns) is.list_distinct.0 is.list.2);
        tail = rw (==ℤ-refl p) is.tail;
        free_distinct = (out, is.free_distinct);
        list_distinct = is.list_distinct.1;
        apart = taken-apart n fs (m ∷ ns) is;
      }

  -- For a port with a message whose nodes and those of the list of free nodes are well linked and
  -- apart: what `preceive` does once there is a message returns the first one, its node is then the
  -- first free one, both lists are well linked and apart, and the messages of the port are the
  -- others in their order.
  pub take_msg-msgs :
      (n : ℕ) (fs ns : List ℕ)
      → IsPort s p fs (n ∷ ns)
      → IsPort (take_msg p s).1 p (n ∷ fs) ns
        × (msgs s (n ∷ ns) ≡ (take_msg p s).0 ∷ msgs (take_msg p s).1 ns)
  take_msg-msgs n fs [] is =
      let z : ((s.ports p).pthead == (s.ports p).pttail) ≡ true =
        ground (arith, is.tail, is.list.0, ==_iff (s.ports p).pthead (s.ports p).pttail) in
      let e : take_msg p s ≡ (s.ptmsg n, emptied p n s) =
        take_msg-emptied s p z ∙ ap (λ z. (s.ptmsg z, emptied p z s)) is.list.0 in
      subst (λ z. IsPort z.1 p (n ∷ fs) [] × (msgs s (n ∷ []) ≡ z.0 ∷ msgs z.1 [])) (sym e)
        (emptied-IsPort n fs is, refl)
  take_msg-msgs n fs (m ∷ ns) is =
      let l = ne_last n m ns is.list_distinct.0 in
      let z : ((s.ports p).pthead == (s.ports p).pttail) ≡ false = rw (is.tail, is.list.0) l in
      let e : take_msg p s ≡ (s.ptmsg n, advanced p n s) =
        take_msg-advanced s p z ∙ ap (λ z. (s.ptmsg z, advanced p z s)) is.list.0 in
      subst (λ z. IsPort z.1 p (n ∷ fs) (m ∷ ns) × (msgs s (n ∷ m ∷ ns) ≡ z.0 ∷ msgs z.1 (m ∷ ns)))
        (sym e) (advanced-IsPort n fs m ns is, refl)
