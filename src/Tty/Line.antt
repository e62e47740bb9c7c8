-- ===== src/Tty/Line.antt =====
-- Cooked input of the console driver (tty_iin.c of xinu/sys/common) as an editor of a line.
use xinu_swd.Prelude.{
  ℕ, ◌+◌, ◌-◌, ◌<◌, ◌≡◌, refl, sym, ap, ◌∙◌, Bool, false, ◌&&◌, ◌||◌, inl, inr, Bool-cases, List,
  [], ◌∷◌, ◌++◌, if◌then◌else◌, ◌==◌, ltb, leb, length, take, arith, if_false, ltb→lt,
}
use mathlib.Core.Path.{subst, ap₂}
use xinu_swd.Prelude.Int.{pos_part}
use xinu_swd.Tty.{Imode, Modes, Input, Tty, ibuflen, newline, return, eputc, erase1, step_back}
use xinu_swd.Tty.Interrupt.{
  kill_line, finish_line, extend_line, ends_line, is_full, echo_if, echo_end, set_inp, set_oheld,
  cooked_input, by_mode, flow_input, edit_input, raw_input, is_raw, ttyiin,
}
use xinu_swd.Tty.Frame.{
  Keeps, Keeps-ttyostart, Keeps-eputc, Keeps-echo_if, Keeps-echo_end, Keeps-erase1,
}
use xinu_swd.Tty.Ring.{
  Line, IsLine, size, extend_line-IsLine, finish_line-IsLine, kill_line-IsLine, step_back-IsLine,
}

-- What a key is taken for.
abbrev pub key : Modes → ℕ → ℕ
key m ch = if ch == return && m.icrlf then newline else ch

abbrev pub is_last : Modes → ℕ → Bool
is_last m ch = ch == newline || (ch == return || (m.ieof && ch == m.ieofc))

-- What a key does to the line, as a user of the console sees it.
abbrev pub edit_key : Modes → ℕ → Line → Line
edit_key m ch l =
    if ch == m.ikillc && m.ikill
    then record l { typed = [] }
    else (if ch == m.ierasec && m.ierase
        then record l { typed = take (length l.typed - 1) l.typed }
        else (if is_last m ch
            then record { ready = l.ready ++ (l.typed ++ ch ∷ []); typed = [] }
            else (if leb (ibuflen - 1) (size l)
                then l
                else record l { typed = l.typed ++ ch ∷ [] })))

-- The interrupt character and flow control come first.
abbrev pub edit : Modes → ℕ → Line → Line
edit m ch₀ l =
    let ch = key m ch₀ in
    if m.iintr && ch == m.iintrc
    then l
    else (if m.oflow && ch == m.ostart
        then l
        else (if m.oflow && ch == m.ostop then l else edit_key m ch l))

-- `t` holds the line, in the modes `m`.
pub record Holds (t : Tty) (m : Modes) (l : Line) : Type 0 where
  pub line : IsLine t.inp l
  pub modes : t.modes ≡ m

Holds-Keeps : (t t' : Tty) (m : Modes) (l : Line) → Keeps t t' → Holds t m l → Holds t' m l
Holds-Keeps t t' m l k h = record {
  line = subst (λ i. IsLine i l) (sym k.inp) h.line;
  modes = k.modes ∙ h.modes;
}

take_nothing : (xs : List ℕ) → length xs ≡ 0 → xs ≡ take (length xs - 1) xs
take_nothing [] e = ap (λ n. take n []) {x = 0} {y = 0 - 1} (omega arith)
take_nothing (x ∷ xs) e = absurd (omega arith)

erase-Holds :
    (t : Tty) (l : Line)
    → IsLine t.inp l
    → Holds
        (if ltb 0 t.inp.icursor
          then erase1 (set_inp (record t.inp { icursor = t.inp.icursor - 1 }) t)
          else t)
        t.modes
        (record l { typed = take (length l.typed - 1) l.typed })
erase-Holds t l p =
    let back : Tty = set_inp (record t.inp { icursor = t.inp.icursor - 1 }) t in
    elim (Bool-cases (ltb 0 t.inp.icursor)) [
      | inl c ↦ rw c (
          Holds-Keeps (set_inp (step_back back.inp) back) (erase1 back) t.modes
            (record l { typed = take (length l.typed - 1) l.typed }) (Keeps-erase1 back)
            (record { line = step_back-IsLine t.inp l p (ltb→lt _ _ c); modes = refl }))
      | inr c ↦
          let none_typed : length l.typed ≡ 0 =
            empty_line t.inp.icursor (length l.typed) p.cursor c in
          rw c (record {
            line =
                subst (λ x. IsLine t.inp (record l { typed = x })) (take_nothing l.typed none_typed)
                  p;
            modes = refl;
          })
    ]
  where
    empty_line : (c n : ℕ) → c ≡ n → ltb 0 c ≡ false → n ≡ 0
    empty_line c n e h = ground arith

end-Holds :
    (ch : ℕ) (t : Tty) (l : Line)
    → IsLine t.inp l
    → size l < ibuflen
    → Holds
        (set_inp (finish_line ch (echo_end ch t).inp) (echo_end ch t))
        t.modes
        (record { ready = l.ready ++ (l.typed ++ ch ∷ []); typed = [] })
end-Holds ch t l p q =
    let k = Keeps-echo_end ch t in
    record {
      line = finish_line-IsLine ch (echo_end ch t).inp l (subst (λ i. IsLine i l) (sym k.inp) p) q;
      modes = k.modes;
    }

extend-Holds :
    (ch : ℕ) (t : Tty) (l : Line)
    → IsLine t.inp l
    → size l < ibuflen
    → Holds
        (set_inp (extend_line ch (echo_if t.modes.iecho ch t).inp) (echo_if t.modes.iecho ch t))
        t.modes
        (record l { typed = l.typed ++ ch ∷ [] })
extend-Holds ch t l p q =
    let echoed = echo_if t.modes.iecho ch t in
    let k = Keeps-echo_if t.modes.iecho ch t in
    record {
      line = extend_line-IsLine ch echoed.inp l (subst (λ i. IsLine i l) (sym k.inp) p) q;
      modes = k.modes;
    }

full-size : (i : Input) (l : Line) → IsLine i l → is_full i ≡ leb (ibuflen - 1) (size l)
full-size i l p = ap₂ (λ n c. leb (ibuflen - 1) (pos_part n + c)) p.cnt p.cursor

cooked_input-Holds :
    (ch : ℕ) (t : Tty) (l : Line)
    → IsLine t.inp l
    → size l < ibuflen
    → Holds (cooked_input ch t) t.modes (edit_key t.modes ch l)
unfolding cooked_input
cooked_input-Holds ch t l p q = elim (Bool-cases (ch == t.modes.ikillc && t.modes.ikill)) [
  | inl k ↦
      let killed : Tty = set_inp (kill_line t.inp) t in
      let bare : Line = record l { typed = [] } in
      rw k (
        Holds-Keeps (eputc return killed) _ t.modes bare (Keeps-eputc newline _) (
          Holds-Keeps killed _ t.modes bare (Keeps-eputc return killed)
            (record { line = kill_line-IsLine t.inp l p; modes = refl })))
  | inr k ↦ elim (Bool-cases (ch == t.modes.ierasec && t.modes.ierase)) [
    | inl e ↦ rw (k, e) (erase-Holds t l p)
    | inr e ↦ elim (Bool-cases (ends_line ch t)) [
      | inl d ↦ rw (k, e, d) (end-Holds ch t l p q)
      | inr d ↦ elim (Bool-cases (is_full t.inp)) [
        | inl f ↦
            rw (k, e, d, f, sym (full-size t.inp l p) ∙ f)
              (Holds-Keeps t _ t.modes l (Keeps-eputc t.modes.ifullc t)
                (record { line = p; modes = refl }))
        | inr f ↦ rw (k, e, d, f, sym (full-size t.inp l p) ∙ f) (extend-Holds ch t l p q)
      ]
    ]
  ]
]

flow_input-Holds :
    (ch : ℕ) (t : Tty) (l : Line)
    → t.modes.imode ≡ Imode.cooked
    → IsLine t.inp l
    → size l < ibuflen
    → Holds (flow_input ch t) t.modes (
        if t.modes.oflow && ch == t.modes.ostart
        then l
        else (if t.modes.oflow && ch == t.modes.ostop then l else edit_key t.modes ch l))
unfolding flow_input
flow_input-Holds ch t l c p q = elim (Bool-cases (t.modes.oflow && ch == t.modes.ostart)) [
  | inl a ↦ rw a (
      Holds-Keeps (set_oheld false t) _ t.modes l (Keeps-ttyostart (set_oheld false t))
        (record { line = p; modes = refl }))
  | inr a ↦ elim (Bool-cases (t.modes.oflow && ch == t.modes.ostop)) [
    | inl b ↦ rw (a, b) (record { line = p; modes = refl })
    | inr b ↦
        rw (a, b)
          (subst (λ t'. Holds t' t.modes (edit_key t.modes ch l))
            (sym (ap (λ m. by_mode m ch (set_oheld false t)) c))
            (cooked_input-Holds ch (set_oheld false t) l p q))
  ]
]

edit_input-Holds :
    (ch : ℕ) (t : Tty) (l : Line)
    → t.modes.imode ≡ Imode.cooked
    → IsLine t.inp l
    → size l < ibuflen
    → Holds (edit_input ch t) t.modes (edit t.modes ch l)
unfolding edit_input
edit_input-Holds ch₀ t l c p q =
    let ch = key t.modes ch₀ in
    let told : Tty = record t { intrs = t.intrs ++ t.modes.iintpid ∷ [] } in
    elim (Bool-cases (t.modes.iintr && ch == t.modes.iintrc)) [
      | inl a ↦
          rw a
            (Holds-Keeps told _ t.modes l (Keeps-eputc ch told) (record { line = p; modes = refl }))
      | inr a ↦ rw a (flow_input-Holds ch t l c p q)
    ]

-- In cooked mode, with room for a character in the input queue: an input interrupt does to the line
-- in the queue what its key does to the line that a user edits, and keeps the modes.
pub ttyiin-edit :
    (ch : ℕ) (t : Tty) (l : Line)
    → t.modes.imode ≡ Imode.cooked
    → IsLine t.inp l
    → size l < ibuflen
    → Holds (ttyiin ch t) t.modes (edit t.modes ch l)
unfolding ttyiin
ttyiin-edit ch t l c p q =
    subst (λ t'. Holds t' t.modes (edit t.modes ch l))
      (sym (if_false (ap is_raw c) (raw_input ch t) (edit_input ch t)))
      (edit_input-Holds ch t l c p q)
