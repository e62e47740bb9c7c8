-- ===== src/Tcp/Send/Stream.antt =====
-- The octets of a segment on their way from the send buffer to the receive buffer.
use xinu_swd.Prelude.{
  ℕ, zero, suc, ◌+◌, ◌-◌, ◌<◌, ◌≤◌, ◌≡◌, refl, sym, ap, ◌∙◌, false, ◌==◌, leb, if◌then◌else◌, arith,
  if_true, if_false,
}
use mathlib.Core.Path.{subst}
use xinu_swd.Tcp.Data.{copy_in}
use xinu_swd.Tcp.Send.{copy_out}

-- The place `k` behind `i` in a ring, for `i` and `k` within its size.
unfoldable pub ring_place : ℕ → ℕ → ℕ → ℕ
ring_place size i k = if leb size (i + k) then i + k - size else i + k

-- The next place in a ring as the loops compute it.
abbrev pub next_place : ℕ → ℕ → ℕ
next_place size i = if leb size (i + 1) then 0 else i + 1

pub next_place_bound : (size i : ℕ) → i < size → next_place size i < size
next_place_bound size i h = ground arith

pub ring_place_zero : (size i : ℕ) → i < size → ring_place size i 0 ≡ i
unfolding ring_place
ring_place_zero size i h = ground arith

pub ring_place-next_place :
    (size i k : ℕ)
    → i < size
    → k + 1 < size
    → ring_place size (next_place size i) k ≡ ring_place size i (suc k)
unfolding ring_place
ring_place-next_place size i k h l = ground arith

ring_place_apart :
    (size i k : ℕ) → i < size → k + 1 < size → (i == ring_place size i (suc k)) ≡ false
unfolding ring_place
ring_place_apart size i k h l = ground arith

-- What the loop of tcp_send.c has written, and what it leaves.
copy_out-before :
    (n size pch i : ℕ) (sndbuf octets : ℕ → ℕ) (j : ℕ)
    → j < pch
    → copy_out n size pch i sndbuf octets j ≡ octets j
unfolding copy_out
copy_out-before zero size pch i sndbuf octets j h = refl
copy_out-before (suc n) size pch i sndbuf octets j h =
    let octets' : ℕ → ℕ = λ j. if j == pch then sndbuf i else octets j in
    copy_out-before n size (pch + 1) (next_place size i) sndbuf octets' j (omega arith)
    ∙ if_false (ground arith) (sndbuf i) (octets j)

pub copy_out-at :
    (n size pch i : ℕ) (sndbuf octets : ℕ → ℕ) (k : ℕ)
    → k < n
    → n ≤ size
    → i < size
    → copy_out n size pch i sndbuf octets (pch + k) ≡ sndbuf (ring_place size i k)
unfolding copy_out
copy_out-at zero size pch i sndbuf octets k k_n n_size i_size = absurd (omega arith)
copy_out-at (suc n) size pch i sndbuf octets zero k_n n_size i_size =
    let octets' : ℕ → ℕ = λ j. if j == pch then sndbuf i else octets j in
    copy_out-before n size (pch + 1) (next_place size i) sndbuf octets' (pch + 0) (omega arith)
    ∙ (if_true (ground arith) (sndbuf i) (octets (pch + 0))
        ∙ ap sndbuf (sym (ring_place_zero size i i_size)))
copy_out-at (suc n) size pch i sndbuf octets (suc k) k_n n_size i_size =
    let octets' : ℕ → ℕ = λ j. if j == pch then sndbuf i else octets j in
    let copied = copy_out n size (pch + 1) (next_place size i) sndbuf octets' in
    let shifted : pch + suc k ≡ pch + 1 + k = omega arith in
    ap copied shifted
    ∙ (copy_out-at n size (pch + 1) (next_place size i) sndbuf octets' k (omega arith) (omega arith)
          (next_place_bound size i i_size)
        ∙ ap sndbuf (ring_place-next_place size i k i_size (omega arith)))

-- The loop of tcp_data.c leaves the places that it does not come to.
copy_in-apart :
    (n size pp pb : ℕ) (octets buf : ℕ → ℕ) (j : ℕ)
    → n ≤ size
    → pb < size
    → ((k : ℕ) → k < n → (j == ring_place size pb k) ≡ false)
    → copy_in n size pp pb octets buf j ≡ buf j
unfolding copy_in
copy_in-apart zero size pp pb octets buf j n_size pb_size h = refl
copy_in-apart (suc n) size pp pb octets buf j n_size pb_size h =
    let buf' : ℕ → ℕ = λ i. if i == pb then octets pp else buf i in
    let here : (j == pb) ≡ false =
      subst (λ i. (j == i) ≡ false) (ring_place_zero size pb pb_size) (h 0 (omega arith)) in
    copy_in-apart n size (pp + 1) (next_place size pb) octets buf' j (omega arith)
      (next_place_bound size pb pb_size)
      (λ k l.
        subst (λ i. (j == i) ≡ false) (sym (ring_place-next_place size pb k pb_size (omega arith)))
          (h (suc k) (omega arith)))
    ∙ if_false here (octets pp) (buf j)

pub copy_in-at :
    (n size pp pb : ℕ) (octets buf : ℕ → ℕ) (k : ℕ)
    → k < n
    → n ≤ size
    → pb < size
    → copy_in n size pp pb octets buf (ring_place size pb k) ≡ octets (pp + k)
unfolding copy_in
copy_in-at zero size pp pb octets buf k k_n n_size pb_size = absurd (omega arith)
copy_in-at (suc n) size pp pb octets buf zero k_n n_size pb_size =
    let buf' : ℕ → ℕ = λ i. if i == pb then octets pp else buf i in
    let at_pb = ring_place_zero size pb pb_size in
    ap (copy_in n size (pp + 1) (next_place size pb) octets buf') at_pb
    ∙ (copy_in-apart n size (pp + 1) (next_place size pb) octets buf' pb (omega arith)
          (next_place_bound size pb pb_size)
          (λ k l.
            subst (λ i. (pb == i) ≡ false)
              (sym (ring_place-next_place size pb k pb_size (omega arith)))
              (ring_place_apart size pb k pb_size (omega arith)))
        ∙ (if_true (ground arith) (octets pp) (buf pb) ∙ ap octets (omega arith)))
copy_in-at (suc n) size pp pb octets buf (suc k) k_n n_size pb_size =
    let buf' : ℕ → ℕ = λ i. if i == pb then octets pp else buf i in
    ap (copy_in n size (pp + 1) (next_place size pb) octets buf')
      (sym (ring_place-next_place size pb k pb_size (omega arith)))
    ∙ (copy_in-at n size (pp + 1) (next_place size pb) octets buf' k (omega arith) (omega arith)
          (next_place_bound size pb pb_size)
        ∙ ap octets (omega arith))
