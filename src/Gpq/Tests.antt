-- ===== src/Gpq/Tests.antt =====
-- The priority queue's theorems at a queue with the keys 5 and 3.
use xinu_swd.Prelude.{true, if◌then◌else◌, ◌==◌}
use xinu_swd.Prelude.Int.{pos, negsuc}
use xinu_swd.Gpq.{Qinfo, Gpqs, qf_nowait}

abbrev two : Qinfo
two = record {
  q_valid = true;
  q_type = qf_nowait;
  q_max = pos 4;
  q_count = pos 2;
  q_seen = negsuc 0;
  q_mutex = pos 0;
  key_at = pos 1024;
  elt_at = pos 1040;
  q_key = λ i. if i == 0 then pos 5 else pos 3;
  q_elt = λ i. if i == 0 then pos 100 else pos 200;
}

-- The queue as number 7 among others.
abbrev queues : Gpqs
queues = record { qinit = true; queues = λ q. two }
