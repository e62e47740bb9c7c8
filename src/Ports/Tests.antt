-- ===== src/Ports/Tests.antt =====
-- The ports' theorems at the port 3 with one message, at the node 8, and one free node, at 16.
use xinu_swd.Prelude.{ℕ, ◌≡◌, refl, false, true, [], ◌∷◌, arith, if◌then◌else◌, ◌==◌}
use xinu_swd.Prelude.Int.{pos}
use xinu_swd.Ports.{Ports, alloc, append_msg, take_msg}
use xinu_swd.Ports.Nodes.{IsPort, has, msgs}
use xinu_swd.Ports.Append.{append_msg-msgs}
use xinu_swd.Ports.Take.{take_msg-msgs}

abbrev one : Ports
one = record {
  ptmsg = λ a. if a == 8 then pos 7 else pos 0;
  ptnext = λ a. 0;
  ptfree = 16;
  ports = λ p. record {
    ptstate = alloc;
    ptssem = pos 1;
    ptrsem = pos 2;
    ptmaxcnt = pos 5;
    ptseq = pos 1;
    pthead = 8;
    pttail = 8;
  };
  ptnextp = pos 2;
  marked = true;
}

one-apart : (a : ℕ) → has a (16 ∷ []) ≡ true → has a (8 ∷ []) ≡ false
one-apart a h = ground arith

one-IsPort : IsPort one (pos 3) (16 ∷ []) (8 ∷ [])
one-IsPort = record {
  free = (refl, refl, refl);
  list = (refl, refl, refl);
  tail = refl;
  free_distinct = (refl, tt);
  list_distinct = (refl, tt);
  apart = one-apart;
}

append_msg-msgs_example :
    IsPort (append_msg (pos 3) (pos 9) one) (pos 3) [] (8 ∷ 16 ∷ [])
    × (msgs (append_msg (pos 3) (pos 9) one) (8 ∷ 16 ∷ []) ≡ pos 7 ∷ pos 9 ∷ [])
append_msg-msgs_example = append_msg-msgs (pos 9) 16 [] (8 ∷ []) one-IsPort

take_msg-msgs_example :
    IsPort (take_msg (pos 3) one).1 (pos 3) (8 ∷ 16 ∷ []) []
    × (msgs one (8 ∷ []) ≡ (take_msg (pos 3) one).0 ∷ [])
take_msg-msgs_example = take_msg-msgs 8 (16 ∷ []) [] one-IsPort
