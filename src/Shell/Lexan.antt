-- ===== src/Shell/Lexan.antt =====
-- lexan.c of xinu/shell/common, the division of the command line into tokens. The line `shbuf` is the
-- list of its characters before the null character, `shargst` the list of those written so far, and
-- an entry of `shtok` the index in `shargst` at which a token starts.
pub mod Bounds
pub mod Words
use xinu_swd.Prelude.{
  ℕ, zero, suc, ◌+◌, Bool, true, false, ◌&&◌, ◌||◌, Option, none, some, List, [], ◌∷◌, ◌++◌,
  if◌then◌else◌, ◌==◌, leb, length,
}
use xinu_swd.Prelude.Int.{ℤ, pos}
use xinu_swd.Conf.{syserr}

-- `SHMAXTOK`, `SHBUFLEN` and `SHARGLEN` of include/shell.h.
abbrev pub shmaxtok : ℕ
shmaxtok = 16

abbrev pub shbuflen : ℕ
shbuflen = 80

abbrev pub sharglen : ℕ
sharglen = 82

abbrev pub nullch : ℕ
nullch = 0

abbrev pub newline : ℕ
newline = 10

abbrev pub blank : ℕ
blank = 32

-- `<`, `>` and `&`, each a token of its own.
abbrev pub is_special : ℕ → Bool
is_special ch = ch == 62 || (ch == 60 || ch == 38)

-- The double and the single quote.
abbrev pub is_quote : ℕ → Bool
is_quote ch = ch == 34 || ch == 39

pub record Shvars : Type 0 where
  pub shtok : List ℕ
  pub shtktyp : List ℕ
  pub shargst : List ℕ

abbrev pub ntok : Shvars → ℕ
ntok sh = length sh.shtok

-- The end of the line.
abbrev pub is_end : List ℕ → Bool
is_end [] = true
is_end (c ∷ cs) = c == newline

unfoldable pub skip_blanks : List ℕ → List ℕ
skip_blanks [] = []
skip_blanks (c ∷ cs) = let rest = skip_blanks cs in if c == blank then rest else c ∷ cs

-- What a loop over the line has copied, the line behind it, and the character that it ended at.
pub record Copied : Type 0 where
  pub text : List ℕ
  pub last : ℕ
  pub rest : List ℕ

abbrev pub copy_one : ℕ → Copied → Copied
copy_one c r = record r { text = c ∷ r.text }

-- The loop for a quoted string takes the character that it ends at.
unfoldable pub copy_quoted : ℕ → List ℕ → Copied
copy_quoted quote [] = record { text = []; last = nullch; rest = [] }
copy_quoted quote (c ∷ cs) =
    let r = copy_quoted quote cs in
    if c == quote || c == newline then record { text = []; last = c; rest = cs } else copy_one c r

-- A character that ends a word.
abbrev pub ends_word : ℕ → Bool
ends_word c = c == newline || (is_special c || (c == blank || is_quote c))

unfoldable pub copy_word : List ℕ → Copied
copy_word [] = record { text = []; last = nullch; rest = [] }
copy_word (c ∷ cs) =
    let r = copy_word cs in
    if ends_word c then record { text = []; last = c; rest = c ∷ cs } else copy_one c r

-- The body of the outer loop behind the blanks, for a line that starts with `ch`: the characters of
-- the token, the line behind it, and whether the token is whole.
pub record Token : Type 0 where
  pub chars : List ℕ
  pub behind : List ℕ
  pub is_whole : Bool

unfoldable pub token : ℕ → List ℕ → Token
token ch cs =
    let quoted = copy_quoted ch cs in
    let word = copy_word cs in
    if is_quote ch
    then record { chars = quoted.text; behind = quoted.rest; is_whole = quoted.last == ch }
    else (if is_special ch
        then record { chars = ch ∷ []; behind = cs; is_whole = true }
        else record { chars = ch ∷ word.text; behind = word.rest; is_whole = true })

-- The token's start and type are kept before its characters are copied.
abbrev pub start_token : ℕ → List ℕ → Shvars → Shvars
start_token ch chars sh = record {
  shtok = sh.shtok ++ length sh.shargst ∷ [];
  shtktyp = sh.shtktyp ++ ch ∷ [];
  shargst = sh.shargst ++ chars;
}

abbrev pub end_token : Shvars → Shvars
end_token sh = record sh { shargst = sh.shargst ++ nullch ∷ [] }

abbrev pub Lexed : Type 0
Lexed = Option (ℤ × Shvars)

-- The body of the outer loop behind the blanks, with `next` for the rounds that follow.
unfoldable pub lexan_body : (List ℕ → Shvars → Lexed) → List ℕ → Shvars → Lexed
lexan_body next [] sh = some (pos (ntok sh), sh)
lexan_body next (ch ∷ cs) sh =
    let t = token ch cs in
    let sh' = start_token ch t.chars sh in
    if ch == newline
    then some (pos (ntok sh), sh)
    else (if t.is_whole then next t.behind (end_token sh') else some (syserr, sh'))

-- The outer loop. `none` is out of rounds.
unfoldable pub lexan_loop : ℕ → List ℕ → Shvars → Lexed
lexan_loop zero p sh = none
lexan_loop (suc f) p sh =
    let rest = lexan_body (lexan_loop f) (skip_blanks p) sh in
    if is_end p || leb shmaxtok (ntok sh) then some (pos (ntok sh), sh) else rest

unfoldable pub lexan : ℕ → List ℕ → Lexed
lexan f line = lexan_loop f line (record { shtok = []; shtktyp = []; shargst = [] })
