-- ===== src/Tty/Ring.antt =====
-- The input queue of the console driver as two lists: the characters that are ready to be read, and
-- those of the line that is being typed.
use xinu_swd.Prelude.{
  ℕ, zero, suc, ◌+◌, ◌-◌, ◌%◌, ◌≤◌, ◌<◌, ◌≡◌, ◌≢◌, refl, sym, ap, ◌∙◌, true, false, List, [], ◌∷◌,
  ◌++◌, if◌then◌else◌, ◌==◌, ltb, length, take, length-append, length-take, arith, ==_iff,
}
use mathlib.Core.Path.{ap₂}
use mathlib.Core.List.{append_assoc, append-nil}
use xinu_swd.Prelude.Int.{ℤ, pos, ◌+ℤ◌}
use xinu_swd.Tty.{Input, ibuflen, store, wrap, step_back}
use xinu_swd.Tty.Interrupt.{put_input, kill_line, finish_line, extend_line}

-- `n` characters of the circular buffer, from index `s` on.
abbrev pub ring : (ℕ → ℕ) → ℕ → ℕ → List ℕ
ring f s zero = []
ring f s (suc n) = f (s % ibuflen) ∷ ring f (s + 1) n

pub record Line : Type 0 where
  pub ready : List ℕ
  pub typed : List ℕ

abbrev pub size : Line → ℕ
size l = length l.ready + length l.typed

-- The queue `i` holds `l`, and its semaphore counts the characters that are ready.
pub record IsLine (i : Input) (l : Line) : Type 0 where
  pub cnt : i.icnt ≡ pos (length l.ready)
  pub sem : i.isemcnt ≡ pos (length l.ready)
  pub cursor : i.icursor ≡ length l.typed
  pub tail : i.itail < ibuflen
  pub head : i.ihead ≡ (i.itail + size l) % ibuflen
  pub fits : size l ≤ ibuflen
  pub held : ring i.ibuff i.itail (size l) ≡ l.ready ++ l.typed

at_zero : (s h : ℕ) → h ≢ (s + 0) % ibuflen → h ≢ s % ibuflen
at_zero s h ne e = ne (omega (arith, e))

ring-store :
    (f : ℕ → ℕ) (h c s n : ℕ)
    → ((k : ℕ) → k < n → h ≢ (s + k) % ibuflen)
    → ring (store f h c) s n ≡ ring f s n
ring-store f h c s zero ne = refl
ring-store f h c s (suc n) ne =
    let first : (s % ibuflen == h) ≡ false =
      ground (arith, ==_iff (s % ibuflen) h, at_zero s h (ne 0 (omega arith))) in
    rw first (
      ap (λ l. f (s % ibuflen) ∷ l)
        (ring-store f h c (s + 1) n (λ k p e. ne (suc k) (omega (arith, p)) (omega (arith, e)))))

ring_snoc : (f : ℕ → ℕ) (s n : ℕ) → ring f s (suc n) ≡ ring f s n ++ f ((s + n) % ibuflen) ∷ []
ring_snoc f s zero = ap (λ s. f (s % ibuflen) ∷ []) (omega arith)
ring_snoc f s (suc n) =
    ap (λ l. f (s % ibuflen) ∷ l)
      (ring_snoc f (s + 1) n ∙ ap (λ k. ring f (s + 1) n ++ f (k % ibuflen) ∷ []) (omega arith))

ring-take : (f : ℕ → ℕ) (s k n : ℕ) → k ≤ n → ring f s k ≡ take k (ring f s n)
ring-take f s zero n h = refl
ring-take f s (suc k) zero h = absurd (omega arith)
ring-take f s (suc k) (suc n) h =
    ap (λ l. f (s % ibuflen) ∷ l) (ring-take f (s + 1) k n (omega arith))

take-append : (k : ℕ) (xs ys : List ℕ) → take (length xs + k) (xs ++ ys) ≡ xs ++ take k ys
take-append k [] ys = ap (λ k. take k ys) (omega arith)
take-append k (x ∷ xs) ys =
    let e : length (x ∷ xs) + k ≡ suc (length xs + k) = omega arith in
    ap (λ n. take n (x ∷ xs ++ ys)) e ∙ ap (λ l. x ∷ l) (take-append k xs ys)

other_index : (s n k : ℕ) → k < n → n < ibuflen → (s + n) % ibuflen ≢ (s + k) % ibuflen
other_index s n k p q e = absurd (omega arith)

-- A character put behind the `n` that are there.
ring_put :
    (f : ℕ → ℕ) (h c s n : ℕ) (xs : List ℕ)
    → h ≡ (s + n) % ibuflen
    → n < ibuflen
    → ring f s n ≡ xs
    → ring (store f h c) s (suc n) ≡ xs ++ c ∷ []
ring_put f h c s n xs e q r =
    let here : ((s + n) % ibuflen == h) ≡ true = ground (arith, ==_iff ((s + n) % ibuflen) h) in
    let other : (k : ℕ) → k < n → h ≢ (s + k) % ibuflen =
      λ k p d. other_index s n k p q (sym e ∙ d) in
    ring_snoc (store f h c) s n ∙ rw here (ap (λ l. l ++ c ∷ []) (ring-store f h c s n other ∙ r))

wrap_mod : (h a : ℕ) → h ≡ a % ibuflen → wrap ibuflen h ≡ (a + 1) % ibuflen
wrap_mod h a e = ground arith

snoc-length : (xs : List ℕ) (c : ℕ) → length (xs ++ c ∷ []) ≡ suc (length xs)
snoc-length xs c = length-append xs (c ∷ []) ∙ omega arith

pub pos_add : (a b : ℕ) → pos a +ℤ pos b ≡ pos (a + b)
unfolding ◌+ℤ◌
pos_add a b = ground arith

-- The buffer and its head once `ch` is put behind all that is there.
put_held :
    (ch : ℕ) (i : Input) (l : Line) (n : ℕ)
    → IsLine i l
    → size l < ibuflen
    → n ≡ suc (size l)
    → (ring (put_input ch i).ibuff i.itail n ≡ l.ready ++ (l.typed ++ ch ∷ []))
      × ((put_input ch i).ihead ≡ (i.itail + n) % ibuflen)
put_held ch i l n p q e = (
  ap (ring (put_input ch i).ibuff i.itail) e
      ∙ ring_put i.ibuff i.ihead ch i.itail (size l) (l.ready ++ l.typed) p.head q p.held
      ∙ append_assoc l.ready l.typed (ch ∷ []),
  wrap_mod i.ihead (i.itail + size l) p.head ∙ ap (λ k. k % ibuflen) (omega (arith, e)),
)

-- A character more in the line being typed.
pub extend_line-IsLine :
    (ch : ℕ) (i : Input) (l : Line)
    → IsLine i l
    → size l < ibuflen
    → IsLine (extend_line ch i) (record l { typed = l.typed ++ ch ∷ [] })
extend_line-IsLine ch i l p q =
    let longer = snoc-length l.typed ch in
    let put =
      put_held ch i l (length l.ready + length (l.typed ++ ch ∷ [])) p q (omega (arith, longer)) in
    record {
      cnt = p.cnt;
      sem = p.sem;
      cursor = omega (arith, longer, p.cursor);
      tail = p.tail;
      head = put.1;
      fits = omega (arith, longer, q);
      held = put.0;
    }

-- The line being typed is ready, with the character that ends it.
pub finish_line-IsLine :
    (ch : ℕ) (i : Input) (l : Line)
    → IsLine i l
    → size l < ibuflen
    → IsLine (finish_line ch i) (record { ready = l.ready ++ (l.typed ++ ch ∷ []); typed = [] })
finish_line-IsLine ch i l p q =
    let all : length (l.ready ++ (l.typed ++ ch ∷ [])) ≡ suc (size l) =
      length-append l.ready (l.typed ++ ch ∷ []) ∙ omega (arith, snoc-length l.typed ch) in
    let put =
      put_held ch i l (length (l.ready ++ (l.typed ++ ch ∷ [])) + 0) p q (omega (arith, all)) in
    let more : (n : ℤ)
        → n ≡ pos (length l.ready)
        → n +ℤ pos (i.icursor + 1) ≡ pos (length (l.ready ++ (l.typed ++ ch ∷ []))) =
      λ n e.
        ap (λ n. n +ℤ pos (i.icursor + 1)) e
        ∙ pos_add (length l.ready) (i.icursor + 1)
        ∙ ap pos (omega (arith, all, p.cursor)) in
    record {
      cnt = more i.icnt p.cnt;
      sem = more i.isemcnt p.sem;
      cursor = refl;
      tail = p.tail;
      head = put.1;
      fits = omega (arith, all, q);
      held = put.0 ∙ sym (append-nil _);
    }

-- The first `k` characters of the line being typed, when the head stands behind them.
keep_typed :
    (i j : Input) (l : Line) (k : ℕ)
    → IsLine i l
    → k ≤ length l.typed
    → j.icnt ≡ i.icnt
    → j.isemcnt ≡ i.isemcnt
    → j.itail ≡ i.itail
    → j.ibuff ≡ i.ibuff
    → j.icursor ≡ k
    → j.ihead ≡ (i.itail + (length l.ready + k)) % ibuflen
    → IsLine j (record l { typed = take k l.typed })
keep_typed i j l k p q cnt sem tail buff cursor head =
    let kept : length (take k l.typed) ≡ k = length-take k l.typed ∙ omega (arith, q) in
    let n = length l.ready + length (take k l.typed) in
    let n_eq : n ≡ length l.ready + k = omega (arith, kept) in
    record {
      cnt = cnt ∙ p.cnt;
      sem = sem ∙ p.sem;
      cursor = cursor ∙ sym kept;
      tail = omega (arith, tail, p.tail);
      head = head ∙ ap₂ (λ s m. (s + m) % ibuflen) (sym tail) (sym n_eq);
      fits = omega (arith, kept, q, p.fits);
      held =
          ap₂ (λ f s. ring f s n) buff tail
          ∙ ap (ring i.ibuff i.itail) n_eq
          ∙ ring-take i.ibuff i.itail (length l.ready + k) (size l) (omega (arith, q))
          ∙ ap (take (length l.ready + k)) p.held
          ∙ take-append k l.ready l.typed;
    }

-- A line that is killed is empty.
pub kill_line-IsLine :
    (i : Input) (l : Line) → IsLine i l → IsLine (kill_line i) (record l { typed = [] })
kill_line-IsLine i l p =
    keep_typed i (kill_line i) l 0 p (omega arith) refl refl refl refl refl
      (killed i.ihead i.icursor i.itail (length l.ready) (length l.typed) p.head p.cursor p.fits)
  where
    killed :
        (h c s r t : ℕ)
        → h ≡ (s + (r + t)) % ibuflen
        → c ≡ t
        → r + t ≤ ibuflen
        → (if ltb h c then h + ibuflen - c else h - c) ≡ (s + (r + 0)) % ibuflen
    killed h c s r t p q k = ground arith

-- One character less in the line being typed.
pub step_back-IsLine :
    (i : Input) (l : Line)
    → IsLine i l
    → 0 < i.icursor
    → IsLine
        (step_back (record i { icursor = i.icursor - 1 }))
        (record l { typed = take (length l.typed - 1) l.typed })
step_back-IsLine i l p q =
    keep_typed i (step_back (record i { icursor = i.icursor - 1 })) l (length l.typed - 1) p
      (omega arith) refl refl refl refl (ap (λ c. c - 1) p.cursor)
      (stepped i.ihead i.itail (length l.ready) (length l.typed) p.head (omega (arith, q, p.cursor))
        p.fits)
  where
    stepped :
        (h s r t : ℕ)
        → h ≡ (s + (r + t)) % ibuflen
        → 0 < t
        → r + t ≤ ibuflen
        → (if h == 0 then ibuflen - 1 else h - 1) ≡ (s + (r + (t - 1))) % ibuflen
    stepped h s r t p q k = ground arith
