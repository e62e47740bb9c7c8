-- ===== src/Shell/Lexan/Words.antt =====
-- `lexan` of words with a blank between them gives the words back.
use xinu_swd.Prelude.{
  ℕ, zero, suc, ◌+◌, ◌≤◌, ◌<◌, ◌≡◌, refl, sym, ap, ◌∙◌, Bool, false, ◌||◌, Option, some, List, [],
  ◌∷◌, ◌++◌, ◌==◌, leb, length, length-append, arith, if_false,
}
use mathlib.Core.Path.{ap₂}
use mathlib.Core.List.{append_assoc, append-nil}
use xinu_swd.Prelude.Int.{ℤ, pos}
use xinu_swd.Shell.Lexan.{
  Shvars, ntok, shmaxtok, newline, blank, nullch, is_quote, is_special, ends_word, skip_blanks,
  copy_word, token, start_token, end_token, Lexed, lexan_body, lexan_loop, lexan,
}

-- A word's first character and the others, none of which ends a word.
pub record Word : Type 0 where
  pub head : ℕ
  pub tail : List ℕ

abbrev pub ArePlain : List ℕ → Type 0
ArePlain [] = Unit
ArePlain (c ∷ cs) = (ends_word c ≡ false) × ArePlain cs

abbrev pub IsWord : Word → Type 0
IsWord w = (ends_word w.head ≡ false) × ArePlain w.tail

abbrev pub AreWords : List Word → Type 0
AreWords [] = Unit
AreWords (w ∷ ws) = IsWord w × AreWords ws

abbrev pub chars_of : Word → List ℕ
chars_of w = w.head ∷ w.tail

-- The words, each with a blank in front; the line has none in front of the first word.
abbrev pub behind_blank : List Word → List ℕ
behind_blank [] = []
behind_blank (w ∷ ws) = blank ∷ w.head ∷ w.tail ++ behind_blank ws

abbrev pub line_of : List Word → List ℕ
line_of [] = []
line_of (w ∷ ws) = w.head ∷ w.tail ++ behind_blank ws

-- The null-terminated words one behind the other from index `at` on, where each starts, and its type.
abbrev pub area : List Word → List ℕ
area [] = []
area (w ∷ ws) = chars_of w ++ nullch ∷ area ws

abbrev pub starts : ℕ → List Word → List ℕ
starts at [] = []
starts at (w ∷ ws) = at ∷ starts (at + suc (length (chars_of w))) ws

abbrev pub types : List Word → List ℕ
types [] = []
types (w ∷ ws) = w.head ∷ types ws

abbrev pub add_words : List Word → Shvars → Shvars
add_words ws sh = record {
  shtok = sh.shtok ++ starts (length sh.shargst) ws;
  shtktyp = sh.shtktyp ++ types ws;
  shargst = sh.shargst ++ area ws;
}

copy_word-plain :
    (cs : List ℕ) (ws : List Word) → ArePlain cs → (copy_word (cs ++ behind_blank ws)).text ≡ cs
unfolding copy_word
copy_word-plain [] [] p = refl
copy_word-plain [] (w ∷ ws) p = refl
copy_word-plain (c ∷ cs) ws p = rw p.0 (ap (λ l. c ∷ l) (copy_word-plain cs ws p.1))

copy_word-behind :
    (cs : List ℕ) (ws : List Word)
    → ArePlain cs
    → (copy_word (cs ++ behind_blank ws)).rest ≡ behind_blank ws
unfolding copy_word
copy_word-behind [] [] p = refl
copy_word-behind [] (w ∷ ws) p = refl
copy_word-behind (c ∷ cs) ws p = rw p.0 (copy_word-behind cs ws p.1)

plain_char :
    (c : ℕ)
    → ends_word c ≡ false
    → ((c == newline) ≡ false)
      × ((c == blank) ≡ false)
      × (is_quote c ≡ false)
      × (is_special c ≡ false)
plain_char c h = ground arith

skip_blanks-line :
    (w : Word) (ws : List Word)
    → IsWord w
    → (skip_blanks (line_of (w ∷ ws)) ≡ line_of (w ∷ ws))
      × (skip_blanks (behind_blank (w ∷ ws)) ≡ line_of (w ∷ ws))
unfolding skip_blanks
skip_blanks-line w ws h = let (n, b, q, s) = plain_char w.head h.0 in rw b (refl, refl)

-- The state once one word has been taken.
abbrev add_word : Word → Shvars → Shvars
add_word w sh = end_token (start_token w.head (chars_of w) sh)

body-word :
    (next : List ℕ → Shvars → Option (ℤ × Shvars)) (w : Word) (ws : List Word) (sh : Shvars)
    → IsWord w
    → lexan_body next (line_of (w ∷ ws)) sh ≡ next (behind_blank ws) (add_word w sh)
unfolding lexan_body token
body-word next w ws sh h =
    let (n, b, q, s) = plain_char w.head h.0 in
    rw (n, q, s, copy_word-plain w.tail ws h.1, copy_word-behind w.tail ws h.1)

length-word :
    (area : List ℕ) (w : Word)
    → length (area ++ chars_of w ++ nullch ∷ []) ≡ length area + suc (length (chars_of w))
length-word area w =
    length-append (area ++ chars_of w) (nullch ∷ [])
    ∙ omega (arith, length-append area (chars_of w))

add_words_next :
    (w : Word) (ws : List Word) (sh : Shvars) → add_words ws (add_word w sh) ≡ add_words (w ∷ ws) sh
add_words_next w ws sh =
    let at = length sh.shargst in
    let toks =
      append_assoc sh.shtok (at ∷ []) (starts (length (add_word w sh).shargst) ws)
      ∙ ap (λ n. sh.shtok ++ at ∷ starts n ws) (length-word sh.shargst w) in
    let typs = append_assoc sh.shtktyp (w.head ∷ []) (types ws) in
    let args =
      append_assoc (sh.shargst ++ chars_of w) (nullch ∷ []) (area ws)
      ∙ append_assoc sh.shargst (chars_of w) (nullch ∷ area ws) in
    λ i. record { shtok = toks i; shtktyp = typs i; shargst = args i }

ntok-add_word : (w : Word) (sh : Shvars) → ntok (add_word w sh) ≡ suc (ntok sh)
ntok-add_word w sh = length-append sh.shtok (length sh.shargst ∷ []) ∙ omega arith

add_words_nil : (sh : Shvars) → add_words [] sh ≡ sh
add_words_nil sh = λ i. record {
  shtok = append-nil sh.shtok i;
  shtktyp = append-nil sh.shtktyp i;
  shargst = append-nil sh.shargst i;
}

or_false : {b : Bool} → b ≡ false → (b || false) ≡ false
or_false h = rw h

room_left : (t n : ℕ) → t + suc n ≤ shmaxtok → leb shmaxtok t ≡ false
room_left t n h = ground arith

-- A word, when the rounds behind it give the words that follow.
body-words :
    (next : List ℕ → Shvars → Lexed) (w : Word) (ws : List Word) (sh : Shvars)
    → IsWord w
    → next (behind_blank ws) (add_word w sh)
      ≡ some (pos (ntok (add_word w sh) + length ws), add_words ws (add_word w sh))
    → lexan_body next (line_of (w ∷ ws)) sh
      ≡ some (pos (ntok sh + suc (length ws)), add_words (w ∷ ws) sh)
body-words next w ws sh h e =
    body-word next w ws sh h
    ∙ e
    ∙ ap₂ (λ n sh. some (pos n, sh)) (omega (arith, ntok-add_word w sh)) (add_words_next w ws sh)

loop-words :
    (f : ℕ) (ws : List Word) (sh : Shvars)
    → AreWords ws
    → length (behind_blank ws) < f
    → ntok sh + length ws ≤ shmaxtok
    → lexan_loop f (behind_blank ws) sh ≡ some (pos (ntok sh + length ws), add_words ws sh)
unfolding lexan_loop
loop-words zero ws sh h r k = absurd (omega arith)
loop-words (suc f) [] sh h r k =
    ap₂ (λ n sh. some (pos n, sh)) (omega arith) (sym (add_words_nil sh))
loop-words (suc f) (w ∷ ws) sh h r k =
    if_false (room_left (ntok sh) (length ws) k) (some (pos (ntok sh), sh)) _
    ∙ ap (λ p. lexan_body (lexan_loop f) p sh) (skip_blanks-line w ws h.0).1
    ∙ body-words (lexan_loop f) w ws sh h.0 (
        loop-words f ws (add_word w sh) h.1 (omega (arith, length-append w.tail (behind_blank ws)))
          (omega (arith, ntok-add_word w sh, k)))

-- For at most `shmaxtok` words of plain characters, with more rounds than the line of them with
-- blanks between has characters: `lexan` of the line returns their number, and has written them,
-- each with the null character behind it, kept where each starts, and its first character as its
-- type.
pub lexan-line_of :
    (f : ℕ) (ws : List Word)
    → AreWords ws
    → length ws ≤ shmaxtok
    → length (line_of ws) < f
    → lexan f (line_of ws)
      ≡ some
          (pos (length ws), record { shtok = starts 0 ws; shtktyp = types ws; shargst = area ws })
unfolding lexan lexan_loop
lexan-line_of zero ws h k r = absurd (omega arith)
lexan-line_of (suc f) [] h k r = refl
lexan-line_of (suc f) (w ∷ ws) h k r =
    let sh : Shvars = record { shtok = []; shtktyp = []; shargst = [] } in
    let (n, b, q, s) = plain_char w.head h.0.0 in
    if_false (or_false n) (some (pos 0, sh)) _
    ∙ ap (λ p. lexan_body (lexan_loop f) p sh) (skip_blanks-line w ws h.0).0
    ∙ body-words (lexan_loop f) w ws sh h.0 (
        loop-words f ws (add_word w sh) h.1 (omega (arith, length-append w.tail (behind_blank ws)))
          (omega (arith, ntok-add_word w sh, k)))
    ∙ ap (λ n. some (pos n, add_words (w ∷ ws) sh)) (omega arith)
