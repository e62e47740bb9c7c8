-- ===== src/Libc/Num/Cksum.antt =====
-- `cksum` (libc/common/cksum.c) as the checksum of the Internet protocols.
use xinu_swd.Prelude.{ℕ, ◌+◌, ◌*◌, ◌-◌, ◌%◌, ◌≤◌, ◌<◌, ◌≡◌, refl, ◌∙◌, List, [], ◌∷◌, arith, length}
use xinu_swd.Libc.Num.{word_sum, fold_carries, cksum}

-- Every word has 16 bits.
abbrev pub AllWords : List ℕ → Type 0
AllWords [] = Unit
AllWords (w ∷ ws) = (w < 65536) × AllWords ws

-- The sum of the words with no bound.
abbrev pub plain_sum : List ℕ → ℕ
plain_sum [] = 0
plain_sum (w ∷ ws) = w + plain_sum ws

plain_sum-le : (ws : List ℕ) → AllWords ws → plain_sum ws ≤ 65535 * length ws
plain_sum-le [] h = omega arith
plain_sum-le (w ∷ ws) h = omega (arith, plain_sum-le ws h.1)

word_sum_lem :
    (sum : ℕ) (ws : List ℕ) → sum + plain_sum ws < 4294967296 → word_sum sum ws ≡ sum + plain_sum ws
unfolding word_sum
word_sum_lem sum [] h = omega arith
word_sum_lem sum (w ∷ ws) h =
    let here : (sum + w) % 4294967296 ≡ sum + w = omega arith in
    rw here (word_sum_lem (sum + w) ws (omega arith) ∙ omega arith)

-- The 16 bits that are left stand for the same number modulo 65535, and are 0 for 0 only.
fold_carries_lem :
    (s : ℕ)
    → s < 4294967296
    → (fold_carries s % 65536 % 65535 ≡ s % 65535)
      × (fold_carries s % 65536 ≤ s)
      × (s ≤ 4294967296 * (fold_carries s % 65536))
unfolding fold_carries
fold_carries_lem s h = (omega arith, omega arith, omega arith)

cksum_value :
    (ws : List ℕ)
    → AllWords ws
    → length ws ≤ 65536
    → cksum ws ≡ 65535 - fold_carries (plain_sum ws) % 65536
unfolding cksum
cksum_value ws h l =
    let z : 0 + plain_sum ws ≡ plain_sum ws = omega arith in
    rw (word_sum_lem 0 ws (omega (arith, plain_sum-le ws h)), z) refl

complement :
    (s f c g : ℕ)
    → f % 65535 ≡ s % 65535
    → f ≤ s
    → f < 65536
    → c ≡ 65535 - f + s
    → s ≤ 4294967296 * f
    → g % 65535 ≡ c % 65535
    → g < 65536
    → c ≤ 4294967296 * g
    → 65535 - g ≡ 0
complement s f c g h1 h2 h3 h4 h5 h6 h7 h8 = omega arith

verify :
    (s : ℕ)
    → s < 4294901761
    → 65535 - fold_carries ((65535 - fold_carries s % 65536) + s) % 65536 ≡ 0
verify s h =
    let c = (65535 - fold_carries s % 65536) + s in
    let a = fold_carries_lem s (omega arith) in
    let b = fold_carries_lem c (omega arith) in
    complement s (fold_carries s % 65536) c (fold_carries c % 65536) a.0 a.1 (omega arith) refl a.2
      b.0 (omega arith) b.2

-- For at most 65535 words of 16 bits, `cksum` of the words with their `cksum` in front is 0, which
-- is how a receiver checks them.
pub cksum-cksum : (ws : List ℕ) → AllWords ws → length ws ≤ 65535 → cksum (cksum ws ∷ ws) ≡ 0
cksum-cksum ws h l =
    let e = cksum_value ws h (omega arith) in
    rw e (
      cksum_value ((65535 - fold_carries (plain_sum ws) % 65536) ∷ ws) (omega arith, h)
        (omega arith)
      ∙ verify (plain_sum ws) (omega (arith, plain_sum-le ws h)))
