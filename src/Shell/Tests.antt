-- ===== src/Shell/Tests.antt =====
-- The theorems on the shell's lexical analysis at small command lines.
use xinu_swd.Prelude.{ℕ, ◌+◌, ◌≤◌, ◌≡◌, ◌⊎◌, refl, some, List, [], ◌∷◌, length, arith}
use xinu_swd.Prelude.Int.{ℤ, pos}
use xinu_swd.Conf.{syserr}
use xinu_swd.Shell.Lexan.{
  Shvars, ntok, shmaxtok, skip_blanks, copy_quoted, copy_word, token, lexan_body, lexan_loop, lexan,
}
use xinu_swd.Shell.Lexan.Bounds.{lexan-bounds}
use xinu_swd.Shell.Lexan.Words.{Word, line_of, starts, types, area, lexan-line_of}

-- `a>"b c"` and `"a`.
abbrev redirect : List ℕ
redirect = 97 ∷ 62 ∷ 34 ∷ 98 ∷ 32 ∷ 99 ∷ 34 ∷ []

abbrev unclosed : List ℕ
unclosed = 34 ∷ 97 ∷ []

redirect_runs :
    lexan 8 redirect
    ≡ some (
      pos 3,
      record {
        shtok = 0 ∷ 2 ∷ 4 ∷ [];
        shtktyp = 97 ∷ 62 ∷ 34 ∷ [];
        shargst = 97 ∷ 0 ∷ 62 ∷ 0 ∷ 98 ∷ 32 ∷ 99 ∷ 0 ∷ [];
      },
    )
unfolding lexan lexan_loop lexan_body token copy_quoted copy_word skip_blanks
redirect_runs = refl

unclosed_runs :
    lexan 3 unclosed
    ≡ some (syserr, record { shtok = 0 ∷ []; shtktyp = 34 ∷ []; shargst = 97 ∷ [] })
unfolding lexan lexan_loop lexan_body token copy_quoted copy_word skip_blanks
unclosed_runs = refl

lexan-bounds_example :
    (v : ℤ) × (sh : Shvars) × (lexan 8 redirect ≡ some (v, sh))
    × ((v ≡ syserr) ⊎ (v ≡ pos (ntok sh)))
    × (ntok sh ≤ shmaxtok)
    × (length sh.shargst ≤ 7 + ntok sh)
lexan-bounds_example = lexan-bounds 8 redirect (omega arith)

-- `ls -l`
abbrev two_words : List Word
two_words = record { head = 108; tail = 115 ∷ [] } ∷ record { head = 45; tail = 108 ∷ [] } ∷ []

lexan-line_of_example :
    lexan 6 (line_of two_words)
    ≡ some (
      pos 2,
      record { shtok = starts 0 two_words; shtktyp = types two_words; shargst = area two_words },
    )
lexan-line_of_example =
    lexan-line_of 6 two_words ((refl, (refl, tt)), ((refl, (refl, tt)), tt)) (omega arith)
      (omega arith)
