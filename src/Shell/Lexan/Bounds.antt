-- ===== src/Shell/Lexan/Bounds.antt =====
-- `lexan` ends, and how much it writes.
use xinu_swd.Prelude.{
  ℕ, zero, suc, ◌+◌, ◌≤◌, ◌<◌, ◌≡◌, refl, ◌∙◌, ◌⊎◌, inl, inr, Bool, false, ◌||◌, some, List, [],
  ◌∷◌, ◌==◌, leb, length, length-append, arith, Bool-cases,
}
use xinu_swd.Prelude.Int.{ℤ, pos}
use xinu_swd.Conf.{syserr}
use xinu_swd.Shell.Lexan.{
  Shvars, ntok, shmaxtok, newline, blank, is_quote, is_special, ends_word, is_end, skip_blanks,
  copy_quoted, copy_word, token, start_token, end_token, Lexed, lexan_body, lexan_loop, lexan,
}

pub skip_blanks-length : (p : List ℕ) → length (skip_blanks p) ≤ length p
unfolding skip_blanks
skip_blanks-length [] = omega arith
skip_blanks-length (c ∷ cs) = elim (Bool-cases (c == blank)) [
  | inl e ↦ rw e (omega (arith, skip_blanks-length cs))
  | inr e ↦ rw e (omega arith)
]

copy_quoted-length :
    (q : ℕ) (cs : List ℕ)
    → length (copy_quoted q cs).text + length (copy_quoted q cs).rest ≤ length cs
unfolding copy_quoted
copy_quoted-length q [] = omega arith
copy_quoted-length q (c ∷ cs) = elim (Bool-cases (c == q || c == newline)) [
  | inl e ↦ rw e (omega arith)
  | inr e ↦ rw e (omega (arith, copy_quoted-length q cs))
]

copy_word-length :
    (cs : List ℕ) → length (copy_word cs).text + length (copy_word cs).rest ≡ length cs
unfolding copy_word
copy_word-length [] = omega arith
copy_word-length (c ∷ cs) = elim (Bool-cases (ends_word c)) [
  | inl e ↦ rw e (omega arith)
  | inr e ↦ rw e (omega (arith, copy_word-length cs))
]

-- A token takes at least its first character, and has no more than it takes.
token-length :
    (ch : ℕ) (cs : List ℕ)
    → (length (token ch cs).chars + length (token ch cs).behind ≤ suc (length cs))
      × (length (token ch cs).behind ≤ length cs)
unfolding token
token-length ch cs = elim (Bool-cases (is_quote ch)) [
  | inl e ↦ rw e (omega (arith, copy_quoted-length ch cs), omega (arith, copy_quoted-length ch cs))
  | inr e ↦ elim (Bool-cases (is_special ch)) [
    | inl d ↦ rw (e, d) (omega arith, omega arith)
    | inr d ↦ rw (e, d) (omega (arith, copy_word-length cs), omega (arith, copy_word-length cs))
  ]
]

-- From `sh` on a line of `n` characters: `lexan` has ended with `res`, and the characters written are
-- no more than those of the line and one for each token.
Ended : ℕ → Shvars → Lexed → Type 0
Ended n sh res =
    (v : ℤ) × (sh' : Shvars) × (res ≡ some (v, sh'))
    × ((v ≡ syserr) ⊎ (v ≡ pos (ntok sh')))
    × (ntok sh' ≤ shmaxtok)
    × (length sh'.shargst + ntok sh ≤ length sh.shargst + n + ntok sh')

Ended-some : (n : ℕ) (sh : Shvars) → ntok sh ≤ shmaxtok → Ended n sh (some (pos (ntok sh), sh))
unfolding Ended
Ended-some n sh h = (pos (ntok sh), sh, refl, inr refl, h, omega arith)

start_token-size :
    (ch : ℕ) (chars : List ℕ) (sh : Shvars)
    → (ntok (start_token ch chars sh) ≡ suc (ntok sh))
      × (length (start_token ch chars sh).shargst ≡ length sh.shargst + length chars)
start_token-size ch chars sh =
    (length-append sh.shtok (length sh.shargst ∷ []) ∙ omega arith, length-append sh.shargst chars)

end_token-size : (sh : Shvars) → length (end_token sh).shargst ≡ suc (length sh.shargst)
end_token-size sh = length-append sh.shargst (0 ∷ []) ∙ omega arith

-- From a state with one token more, on a shorter line.
Ended-shorter :
    (n m : ℕ) (sh sh₁ : Shvars) (res : Lexed)
    → ntok sh₁ ≡ suc (ntok sh)
    → length sh₁.shargst + m ≤ suc (length sh.shargst + n)
    → Ended m sh₁ res
    → Ended n sh res
unfolding Ended
Ended-shorter n m sh sh₁ res e h (v, sh', run, r, k, b) =
    (v, sh', run, r, k, omega (arith, e, h, b))

unfinished :
    (n : ℕ) (sh sh₁ : Shvars)
    → ntok sh₁ ≡ suc (ntok sh)
    → length sh₁.shargst ≤ length sh.shargst + n
    → ntok sh₁ ≤ shmaxtok
    → Ended n sh (some (syserr, sh₁))
unfolding Ended
unfinished n sh sh₁ e h k = (syserr, sh₁, refl, inl refl, k, omega (arith, e, h))

body-Ended :
    (next : List ℕ → Shvars → Lexed) (p : List ℕ) (sh : Shvars)
    → ntok sh < shmaxtok
    → ((cs : List ℕ) (sh' : Shvars)
        → length cs < length p
        → ntok sh' ≤ shmaxtok
        → Ended (length cs) sh' (next cs sh'))
    → Ended (length p) sh (lexan_body next p sh)
unfolding lexan_body
body-Ended next [] sh h k = Ended-some 0 sh (omega (arith, h))
body-Ended next (ch ∷ cs) sh h k = elim (Bool-cases (ch == newline)) [
  | inl e ↦ rw e (Ended-some (suc (length cs)) sh (omega (arith, h)))
  | inr e ↦ elim (Bool-cases (token ch cs).is_whole) [
    | inl w ↦
        rw (e, w)
          (let t = token ch cs in
            let sh₁ = end_token (start_token ch t.chars sh) in
            let (n, a) = start_token-size ch t.chars sh in
            let (l, b) = token-length ch cs in
            Ended-shorter (suc (length cs)) (length t.behind) sh sh₁ (next t.behind sh₁) n
              (omega (arith, a, end_token-size (start_token ch t.chars sh), l))
              (k t.behind sh₁ (omega (arith, b)) (omega (arith, n, h))))
    | inr w ↦
        rw (e, w)
          (let t = token ch cs in
            let (n, a) = start_token-size ch t.chars sh in
            let (l, b) = token-length ch cs in
            unfinished (suc (length cs)) sh (start_token ch t.chars sh) n (omega (arith, a, l))
              (omega (arith, n, h)))
  ]
]

Ended-le : (n m : ℕ) (sh : Shvars) (res : Lexed) → m ≤ n → Ended m sh res → Ended n sh res
unfolding Ended
Ended-le n m sh res h (v, sh', run, r, k, b) = (v, sh', run, r, k, omega (arith, h, b))

lexan_loop-Ended :
    (f : ℕ) (p : List ℕ) (sh : Shvars)
    → length p < f
    → ntok sh ≤ shmaxtok
    → Ended (length p) sh (lexan_loop f p sh)
unfolding lexan_loop
lexan_loop-Ended zero p sh h k = absurd (omega arith)
lexan_loop-Ended (suc f) p sh h k = elim (Bool-cases (is_end p || leb shmaxtok (ntok sh))) [
  | inl e ↦ rw e (Ended-some (length p) sh k)
  | inr e ↦ rw e (
      Ended-le (length p) (length (skip_blanks p)) sh _ (skip_blanks-length p) (
        body-Ended (lexan_loop f) (skip_blanks p) sh (room (is_end p) e) (λ cs sh' less k'.
          lexan_loop-Ended f cs sh' (omega (arith, less, skip_blanks-length p, h)) k')))
]
  where
    room : (b : Bool) → (b || leb shmaxtok (ntok sh)) ≡ false → ntok sh < shmaxtok
    room b e = ground arith

-- On any line, with more rounds than it has characters: `lexan` ends, with `syserr` or the number
-- of tokens; there are at most `shmaxtok` tokens, and it writes at most the characters of the line
-- and one more for each token.
pub lexan-bounds :
    (f : ℕ) (line : List ℕ)
    → length line < f
    → (v : ℤ) × (sh : Shvars) × (lexan f line ≡ some (v, sh))
      × ((v ≡ syserr) ⊎ (v ≡ pos (ntok sh)))
      × (ntok sh ≤ shmaxtok)
      × (length sh.shargst ≤ length line + ntok sh)
unfolding lexan Ended
lexan-bounds f line h =
    let (v, sh, run, r, k, b) =
      lexan_loop-Ended f line (record { shtok = []; shtktyp = []; shargst = [] }) h (omega arith) in
    (v, sh, run, r, k, omega (arith, b))
