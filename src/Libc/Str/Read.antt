-- ===== src/Libc/Str/Read.antt =====
-- Strings in memory, and the routines of libc/common that only read them.
use xinu_swd.Prelude.{
  ℕ, zero, suc, ◌+◌, ◌<◌, ◌≡◌, refl, sym, ap, ◌∙◌, ◌↔◌, ◌≢◌, false, some, List, [], ◌∷◌, arith,
  length, Bool-cases, inl, inr, if◌then◌else◌,
}
use xinu_swd.Prelude.Int.{ℤ, pos, ◌==ℤ◌, ◌-ℤ◌, ==ℤ-refl, ==ℤ_iff, eq_of_==ℤ, -ℤ_parts, eq_of_parts}
use xinu_swd.Libc.{Memory}
use xinu_swd.Libc.Str.{strlen, strlen_loop, strcmp, find_end}

-- The string `cs` stands at `p`, with the null character behind it.
abbrev pub IsStr : Memory → ℕ → List ℤ → Type 0
IsStr m p [] = m p ≡ pos 0
IsStr m p (c ∷ cs) = (m p ≡ c) × ((c ==ℤ pos 0) ≡ false) × IsStr m (p + 1) cs

strlen_loop_lem :
    (f : ℕ) (m : Memory) (s n : ℕ) (cs : List ℤ)
    → IsStr m s cs
    → length cs < f
    → strlen_loop f m s n ≡ some (n + length cs)
unfolding strlen_loop
strlen_loop_lem zero m s n cs is h = absurd (omega arith)
strlen_loop_lem (suc f) m s n [] is h = rw (is, ==ℤ-refl (pos 0)) (ap some (omega arith))
strlen_loop_lem (suc f) m s n (c ∷ cs) is h =
    rw (is.0, is.1)
      (strlen_loop_lem f m (s + 1) (n + 1) cs is.2 (omega arith) ∙ ap some (omega arith))

-- For a string `cs`, with more rounds than it has characters, `strlen` ends with the number of its
-- characters.
pub strlen-length :
    (f : ℕ) (m : Memory) (s : ℕ) (cs : List ℤ)
    → IsStr m s cs
    → length cs < f
    → strlen f m s ≡ some (length cs)
unfolding strlen
strlen-length f m s cs is h = strlen_loop_lem f m s 0 cs is h ∙ ap some (omega arith)

-- The order of strings as strcmp.c has it: the difference of the first characters that differ.
abbrev pub compare_str : List ℤ → List ℤ → ℤ
compare_str [] [] = pos 0
compare_str [] (d ∷ ds) = pos 0 -ℤ d
compare_str (c ∷ cs) [] = c -ℤ pos 0
compare_str (c ∷ cs) (d ∷ ds) = if c ==ℤ d then compare_str cs ds else c -ℤ d

zero_eq : (c : ℤ) → (c ==ℤ pos 0) ≡ false → (pos 0 ==ℤ c) ≡ false
zero_eq c h = ground (arith, ==ℤ_iff c (pos 0), ==ℤ_iff (pos 0) c)

strcmp_lem :
    (f : ℕ) (m : Memory) (s1 s2 : ℕ) (cs ds : List ℤ)
    → IsStr m s1 cs
    → IsStr m s2 ds
    → length cs < f
    → strcmp f m s1 s2 ≡ some (compare_str cs ds)
unfolding strcmp
strcmp_lem zero m s1 s2 cs ds a b h = absurd (omega arith)
strcmp_lem (suc f) m s1 s2 [] [] a b h = rw (a, b, ==ℤ-refl (pos 0))
strcmp_lem (suc f) m s1 s2 [] (d ∷ ds) a b h = rw (a, b.0, zero_eq d b.1)
strcmp_lem (suc f) m s1 s2 (c ∷ cs) [] a b h = rw (a.0, b, a.1)
strcmp_lem (suc f) m s1 s2 (c ∷ cs) (d ∷ ds) a b h = elim (Bool-cases (c ==ℤ d)) [
  | inl e ↦ rw (a.0, b.0, e, a.1) (strcmp_lem f m (s1 + 1) (s2 + 1) cs ds a.2 b.2 (omega arith))
  | inr e ↦ rw (a.0, b.0, e)
]

eq_of_difference : (c d : ℤ) → c -ℤ d ≡ pos 0 → c ≡ d
eq_of_difference c d h = let p = rw h at (-ℤ_parts c d) in eq_of_parts c d (omega (arith, p))

-- No character of the string is null.
abbrev AllChars : List ℤ → Type 0
AllChars [] = Unit
AllChars (c ∷ cs) = ((c ==ℤ pos 0) ≡ false) × AllChars cs

AllChars-of : (m : Memory) (p : ℕ) (cs : List ℤ) → IsStr m p cs → AllChars cs
AllChars-of m p [] is = tt
AllChars-of m p (c ∷ cs) is = (is.1, AllChars-of m (p + 1) cs is.2)

compare_str_refl : (cs : List ℤ) → compare_str cs cs ≡ pos 0
compare_str_refl [] = refl
compare_str_refl (c ∷ cs) = rw (==ℤ-refl c) (compare_str_refl cs)

not_zero : (c : ℤ) → (c ==ℤ pos 0) ≡ false → c ≢ pos 0
not_zero c h e = ground (arith, ==ℤ_iff c (pos 0))

eq_of_compare_str :
    (cs ds : List ℤ) → AllChars cs → AllChars ds → compare_str cs ds ≡ pos 0 → cs ≡ ds
eq_of_compare_str [] [] a b h = refl
eq_of_compare_str [] (d ∷ ds) a b h = absurd (not_zero d b.0 (sym (eq_of_difference (pos 0) d h)))
eq_of_compare_str (c ∷ cs) [] a b h = absurd (not_zero c a.0 (eq_of_difference c (pos 0) h))
eq_of_compare_str (c ∷ cs) (d ∷ ds) a b h = elim (Bool-cases (c ==ℤ d)) [
  | inl e ↦ cc (eq_of_==ℤ c d e, eq_of_compare_str cs ds a.1 b.1 (rw e at h))
  | inr e ↦
      let h' : c -ℤ d ≡ pos 0 = rw e at h in
      let same : c ≡ d = eq_of_difference c d h' in absurd (ground (arith, ==ℤ_iff c d))
]

-- For strings `cs` and `ds`, with more rounds than `cs` has characters, `strcmp` ends, and its
-- value is 0 exactly if the strings are equal.
pub strcmp-IsStr :
    (f : ℕ) (m : Memory) (s1 s2 : ℕ) (cs ds : List ℤ)
    → IsStr m s1 cs
    → IsStr m s2 ds
    → length cs < f
    → (r : ℤ) × (strcmp f m s1 s2 ≡ some r) × ((r ≡ pos 0) ↔ (cs ≡ ds))
strcmp-IsStr f m s1 s2 cs ds a b h = (
  compare_str cs ds,
  strcmp_lem f m s1 s2 cs ds a b h,
  (
    eq_of_compare_str cs ds (AllChars-of m s1 cs a) (AllChars-of m s2 ds b),
    λ e. rw (← e) (compare_str_refl cs),
  ),
)

pub find_end_lem :
    (f : ℕ) (m : Memory) (s : ℕ) (cs : List ℤ)
    → IsStr m s cs
    → length cs < f
    → find_end f s m ≡ some (s + length cs)
unfolding find_end
find_end_lem zero m s cs is h = absurd (omega arith)
find_end_lem (suc f) m s [] is h = rw (is, ==ℤ-refl (pos 0)) (ap some (omega arith))
find_end_lem (suc f) m s (c ∷ cs) is h =
    rw (is.0, is.1) (find_end_lem f m (s + 1) cs is.2 (omega arith) ∙ ap some (omega arith))
