-- ===== src/Tty/Reading.antt =====
-- What a reader gets from the input queue: `ttygetc` and `ttyread` (tty_getc.c and tty_read.c of
-- xinu/sys/common).
use xinu_swd.Prelude.{
  ℕ, zero, suc, ◌+◌, ◌-◌, ◌%◌, ◌<◌, ◌≡◌, refl, sym, ap, ◌∙◌, Bool, true, false, ◌&&◌, inl, inr,
  Bool-cases, List, [], ◌∷◌, ◌++◌, if◌then◌else◌, ◌==◌, leb, length, length-append, arith, if_true,
  if_false,
}
use mathlib.Core.Path.{subst, ap₂}
use mathlib.Core.List.{append_assoc}
use xinu_swd.Prelude.Int.{ℤ, pos, ◌-ℤ◌, ◌==ℤ◌, ltb_ℤ, pos_part}
use xinu_swd.Tty.{Input, Tty, Modes, ibuflen, wrap}
use xinu_swd.Tty.Interrupt.{set_inp}
use xinu_swd.Tty.Ring.{ring, Line, IsLine}
use xinu_swd.Tty.Upper.{
  take_input, is_eofc, is_eol, Reading, sreset_isem, read_char, read_avail, read_first, ttyread,
  eof,
}

-- The queue holds `l`, whatever its semaphore counts.
abbrev IsHeld : Input → Line → Type 0
IsHeld i l = IsLine (record i { isemcnt = pos (length l.ready) }) l

ring_turn : (f : ℕ → ℕ) (s n : ℕ) → ring f (s + ibuflen) n ≡ ring f s n
ring_turn f s zero = refl
ring_turn f s (suc n) =
    let e : s + ibuflen + 1 ≡ s + 1 + ibuflen = omega arith in
    let m : (s + ibuflen) % ibuflen ≡ s % ibuflen = omega arith in
    ap₂ (λ k l. f k ∷ l) m (ap (λ s. ring f s n) e ∙ ring_turn f (s + 1) n)

ring-wrap : (f : ℕ → ℕ) (s n : ℕ) → s < ibuflen → ring f (wrap ibuflen s) n ≡ ring f (s + 1) n
ring-wrap f s n h = elim (Bool-cases (leb ibuflen (s + 1))) [
  | inl e ↦
      let last : 0 + ibuflen ≡ s + 1 = ground arith in
      rw e (sym (ring_turn f 0 n) ∙ ap (λ s. ring f s n) last)
  | inr e ↦ rw e refl
]

wrap_lt : (s : ℕ) → s < ibuflen → wrap ibuflen s < ibuflen
wrap_lt s h = ground arith

wrap_add : (s n : ℕ) → s < ibuflen → (s + suc n) % ibuflen ≡ (wrap ibuflen s + n) % ibuflen
wrap_add s n h = ground arith

pos_suc : (n : ℕ) → pos (suc n) -ℤ pos 1 ≡ pos n
unfolding ◌-ℤ◌
pos_suc n = ground arith

head_eq : {a b : ℕ} {xs ys : List ℕ} → Path (List ℕ) (a ∷ xs) (b ∷ ys) → a ≡ b
head_eq e = cc

tail_eq : {a b : ℕ} {xs ys : List ℕ} → Path (List ℕ) (a ∷ xs) (b ∷ ys) → xs ≡ ys
tail_eq e = cc

-- The first character that is ready, and the queue without it.
take_input-IsHeld :
    (i : Input) (c : ℕ) (cs typed : List ℕ)
    → IsHeld i (record { ready = c ∷ cs; typed = typed })
    → (i.ibuff i.itail ≡ c) × IsHeld (take_input i) (record { ready = cs; typed = typed })
take_input-IsHeld i c cs typed p =
    let n = length cs + length typed in
    let here : i.itail % ibuflen ≡ i.itail = omega (arith, p.tail) in
    let more : suc (length cs) + length typed ≡ suc n = omega arith in
    let held : Path (List ℕ) (ring i.ibuff i.itail (suc n)) (c ∷ (cs ++ typed)) =
      ap (ring i.ibuff i.itail) (sym more) ∙ p.held in
    (
      ap i.ibuff (sym here) ∙ head_eq held,
      record {
        cnt = ap (λ n. n -ℤ pos 1) p.cnt ∙ pos_suc (length cs);
        sem = refl;
        cursor = p.cursor;
        tail = wrap_lt i.itail p.tail;
        head = p.head ∙ ap (λ m. (i.itail + m) % ibuflen) more ∙ wrap_add i.itail n p.tail;
        fits = omega (arith, p.fits);
        held = ring-wrap i.ibuff i.itail n p.tail ∙ tail_eq held;
      },
    )

-- A character within a line, and one that ends it, neither of them the end-of-file character.
abbrev pub IsWithin : Modes → ℕ → Type 0
IsWithin m c = ((m.ieof && c == m.ieofc) ≡ false) × (is_eol c ≡ false)

abbrev pub AreWithin : Modes → List ℕ → Type 0
AreWithin m [] = Unit
AreWithin m (c ∷ cs) = IsWithin m c × AreWithin m cs

abbrev pub IsLast : Modes → ℕ → Type 0
IsLast m c = ((m.ieof && c == m.ieofc) ≡ false) × (is_eol c ≡ true)

-- The reading has ended with `text`, and has left `l` in the queue.
pub record Got (res : Reading) (text : List ℕ) (m : Modes) (l : Line) : Type 0 where
  pub after : Tty
  pub value : res ≡ Reading.done (pos (length text)) text after
  pub left : IsLine after.inp l
  pub modes : after.modes ≡ m

and_left : {a : Bool} → a ≡ false → (b : Bool) → (a && b) ≡ false
and_left e b = rw e

left_over : (a b : ℕ) → pos (a + b) -ℤ pos a ≡ pos b
unfolding ◌-ℤ◌
left_over a b = ground arith

-- The character that ends the line.
read_char-last :
    (next : List ℕ → Tty → Reading) (buff : List ℕ) (e : ℕ) (r typed : List ℕ) (t : Tty)
    → IsLast t.modes e
    → IsHeld t.inp (record { ready = e ∷ r; typed = typed })
    → Got
        (read_char next (pos (length buff + suc (length r))) buff e t)
        (buff ++ e ∷ [])
        t.modes
        (record { ready = r; typed = typed })
unfolding read_char
read_char-last next buff e r typed t (f, d) p =
    let avail = pos (length buff + suc (length r)) in
    let left = avail -ℤ pos (length (buff ++ e ∷ [])) in
    let left_eq : left ≡ pos (length r) =
      ap (λ n. pos n -ℤ pos (length (buff ++ e ∷ []))) (omega (arith, length-append buff (e ∷ [])))
      ∙ left_over (length (buff ++ e ∷ [])) (length r) in
    let h = (take_input-IsHeld t.inp e r typed p).1 in
    let i = take_input t.inp in
    record {
      after = sreset_isem left (set_inp (record i { icnt = left }) t);
      value = if_false f _ _ ∙ if_true d _ _;
      left = record {
        cnt = left_eq;
        sem = left_eq;
        cursor = h.cursor;
        tail = h.tail;
        head = h.head;
        fits = h.fits;
        held = h.held;
      };
      modes = refl;
    }

read_char-within :
    (next : List ℕ → Tty → Reading) (avail : ℤ) (buff : List ℕ) (c : ℕ) (t : Tty)
    → IsWithin t.modes c
    → read_char next avail buff c t ≡ next (buff ++ c ∷ []) (set_inp (take_input t.inp) t)
unfolding read_char
read_char-within next avail buff c t (f, d) = if_false f _ _ ∙ if_false d _ _

read_avail-Got :
    (n : ℕ) (buff w : List ℕ) (e : ℕ) (r typed : List ℕ) (t : Tty)
    → AreWithin t.modes w
    → IsLast t.modes e
    → IsHeld t.inp (record { ready = w ++ e ∷ r; typed = typed })
    → length w < n
    → Got
        (read_avail n (pos (length buff + length (w ++ e ∷ r))) buff t)
        (buff ++ (w ++ e ∷ []))
        t.modes
        (record { ready = r; typed = typed })
unfolding read_avail
read_avail-Got zero buff w e r typed t a l p h = absurd (omega arith)
read_avail-Got (suc n) buff [] e r typed t a l p h =
    subst
      (λ ch.
        Got
          (read_char (read_avail n (pos (length buff + suc (length r))))
            (pos (length buff + suc (length r))) buff ch t)
          (buff ++ e ∷ []) t.modes (record { ready = r; typed = typed }))
      (sym (take_input-IsHeld t.inp e r typed p).0)
      (read_char-last (read_avail n (pos (length buff + suc (length r)))) buff e r typed t l p)
read_avail-Got (suc n) buff (c ∷ w) e r typed t a l p h =
    let avail = pos (length buff + length (c ∷ w ++ e ∷ r)) in
    let (ch, held) = take_input-IsHeld t.inp c (w ++ e ∷ r) typed p in
    let t' : Tty = set_inp (take_input t.inp) t in
    let buff' = buff ++ c ∷ [] in
    let len : length buff' + length (w ++ e ∷ r) ≡ length buff + length (c ∷ w ++ e ∷ r) =
      omega (arith, length-append buff (c ∷ [])) in
    let go = read_avail-Got n buff' w e r typed t' a.1 l held (omega arith) in
    subst (λ res. Got res (buff ++ (c ∷ w ++ e ∷ [])) t.modes (record { ready = r; typed = typed }))
      (ap (λ k. read_avail n (pos k) buff' t') len
        ∙ sym (read_char-within (read_avail n avail) avail buff c t a.0)
        ∙ ap (λ ch. read_char (read_avail n avail) avail buff ch t) (sym ch))
      (subst
        (λ text.
          Got (read_avail n (pos (length buff' + length (w ++ e ∷ r))) buff' t') text t.modes
            (record { ready = r; typed = typed }))
        (append_assoc buff (c ∷ []) (w ++ e ∷ [])) go)

read_first-Got :
    (n : ℕ) (c : ℕ) (w : List ℕ) (e : ℕ) (r typed : List ℕ) (t : Tty)
    → (is_eofc c t ≡ false)
    → AreWithin t.modes w
    → IsLast t.modes e
    → IsHeld t.inp (record { ready = c ∷ w ++ e ∷ r; typed = typed })
    → length w < n
    → Got
        (read_first (suc n) (pos (suc (length (w ++ e ∷ r)))) t)
        (c ∷ w ++ e ∷ [])
        t.modes
        (record { ready = r; typed = typed })
unfolding read_first
read_first-Got n c w e r typed t f a l p h =
    let (ch, held) = take_input-IsHeld t.inp c (w ++ e ∷ r) typed p in
    let avail = pos (suc (length (w ++ e ∷ r))) in
    let t' : Tty = set_inp (take_input t.inp) t in
    let at_end = Reading.done eof [] (sreset_isem (avail -ℤ pos 1) t') in
    let one : length (c ∷ []) + length (w ++ e ∷ r) ≡ suc (length (w ++ e ∷ r)) = omega arith in
    subst (λ res. Got res (c ∷ w ++ e ∷ []) t.modes (record { ready = r; typed = typed }))
      (ap (λ k. read_avail n (pos k) (c ∷ []) t') one
        ∙ sym (if_false f at_end (read_avail n avail (c ∷ []) t'))
        ∙ ap (λ ch. if is_eofc ch t then at_end else read_avail n avail (ch ∷ []) t') (sym ch))
      (read_avail-Got n (c ∷ []) w e r typed t' a l held h)

IsHeld-of : (i : Input) (l : Line) → IsLine i l → IsHeld i l
IsHeld-of i l p = record {
  cnt = p.cnt;
  sem = refl;
  cursor = p.cursor;
  tail = p.tail;
  head = p.head;
  fits = p.fits;
  held = p.held;
}

-- How many characters `ttyread` takes at once, for a count `k` with `a` there.
abbrev at_once : ℕ → ℕ → ℕ
at_once k a = pos_part (if ltb_ℤ (pos k) (pos a) then pos k else pos a)

at_once-suc : (k a n : ℕ) → suc n < k → suc n < a → at_once k a ≡ suc (at_once k a - 1)
at_once-suc k a n h g = ground arith

at_once_lt : (k a n : ℕ) → suc n < k → suc n < a → n < at_once k a - 1
at_once_lt k a n h g = ground arith

not_zero : (k : ℕ) → 0 < k → (pos k ==ℤ pos 0) ≡ false
unfolding ◌==ℤ◌
not_zero k h = ground arith

not_negative : (k : ℕ) → ltb_ℤ (pos k) (pos 0) ≡ false
not_negative k = ground arith

ttyread_start :
    (k a : ℕ) (t : Tty)
    → 0 < k
    → t.inp.icnt ≡ pos a
    → ttyread (pos k) t ≡ read_first (at_once k a) (pos a) t
unfolding ttyread
ttyread_start k a t h c =
    let z = not_zero k h in
    let start : ℤ → ℤ → Reading =
      λ count avail. read_first (pos_part (if ltb_ℤ count avail then count else avail)) avail t in
    if_false (not_negative k) _ _
    ∙ if_false (and_left z (t.inp.icnt ==ℤ pos 0)) _ _
    ∙ ap (λ count. start count t.inp.icnt) (if_false z t.inp.icnt (pos k))
    ∙ ap (start (pos k)) c

-- When the queue has a line ready that starts with a character within the line, and the count asks
-- for all of the line: `ttyread` ends with the characters of the line up to the one that ends it,
-- these are gone from the queue, the semaphore counts those left, and the modes are kept.
pub ttyread-line :
    (k : ℕ) (c : ℕ) (w : List ℕ) (e : ℕ) (r typed : List ℕ) (t : Tty)
    → AreWithin t.modes (c ∷ w)
    → IsLast t.modes e
    → IsLine t.inp (record { ready = c ∷ w ++ e ∷ r; typed = typed })
    → suc (length w) < k
    → Got (ttyread (pos k) t) (c ∷ w ++ e ∷ []) t.modes (record { ready = r; typed = typed })
ttyread-line k c w e r typed t a l p h =
    let n = suc (length (w ++ e ∷ r)) in
    let enough : suc (length w) < n = omega (arith, length-append w (e ∷ r)) in
    subst (λ res. Got res (c ∷ w ++ e ∷ []) t.modes (record { ready = r; typed = typed }))
      (ap (λ m. read_first m (pos n) t) (sym (at_once-suc k n (length w) h enough))
        ∙ sym (ttyread_start k n t (omega (arith, h)) p.cnt))
      (read_first-Got (at_once k n - 1) c w e r typed t a.0.0 a.1 l
        (IsHeld-of t.inp (record { ready = c ∷ w ++ e ∷ r; typed = typed }) p)
        (at_once_lt k n (length w) h enough))
