-- ===== src/Libc/Str/Write.antt =====
-- strcpy.c, strncpy.c and strcat.c of libc/common: the string that they write, and that no byte
-- outside its place changes.
use xinu_swd.Prelude.{
  ℕ, zero, suc, ◌+◌, ◌≤◌, ◌<◌, ◌≡◌, ◌∙◌, ◌⊎◌, some, List, [], ◌∷◌, ◌++◌, arith, length, inl, ==_iff,
}
use xinu_swd.Prelude.Int.{ℤ, pos, ==ℤ-refl}
use xinu_swd.Libc.{Memory}
use xinu_swd.Libc.Str.{store, copy_loop, strcpy, strcat}
use xinu_swd.Libc.Str.Read.{IsStr, find_end_lem}

-- A string is where it was when the bytes that it occupies are.
pub IsStr-same :
    (m m' : Memory) (p : ℕ) (cs : List ℤ)
    → ((a : ℕ) → p ≤ a → a < p + length cs + 1 → m' a ≡ m a)
    → IsStr m p cs
    → IsStr m' p cs
IsStr-same m m' p [] same is = same p (omega arith) (omega arith) ∙ is
IsStr-same m m' p (c ∷ cs) same is = (
  same p (omega arith) (omega arith) ∙ is.0,
  is.1,
  IsStr-same m m' (p + 1) cs (λ a h l. same a (omega arith) (omega arith)) is.2,
)

store_same : (m : Memory) (p : ℕ) (c : ℤ) → store m p c p ≡ c
store_same m p c = ground (arith, ==_iff p p)

store_other : (m : Memory) (p : ℕ) (c : ℤ) (a : ℕ) → (a < p) ⊎ (p < a) → store m p c a ≡ m a
store_other m p c a h = ground (arith, ==_iff a p)

-- Two blocks of `n` bytes that do not meet.
abbrev pub Apart : ℕ → ℕ → ℕ → Type 0
Apart s1 s2 n = (s1 + n ≤ s2) ⊎ (s2 + n ≤ s1)

pub copy_loop_lem :
    (f s1 s2 : ℕ) (m : Memory) (cs : List ℤ)
    → IsStr m s2 cs
    → length cs < f
    → Apart s1 s2 (length cs + 1)
    → (m' : Memory) × (copy_loop f s1 s2 m ≡ some m')
      × IsStr m' s1 cs
      × ((a : ℕ) → (a < s1) ⊎ (s1 + length cs < a) → m' a ≡ m a)
unfolding copy_loop
copy_loop_lem zero s1 s2 m cs is h apart = absurd (omega arith)
copy_loop_lem (suc f) s1 s2 m [] is h apart = (
  store m s1 (m s2),
  rw (is, store_same m s1 (pos 0), ==ℤ-refl (pos 0)),
  rw is (store_same m s1 (pos 0)),
  λ a o. store_other m s1 (m s2) a (ground arith),
)
copy_loop_lem (suc f) s1 s2 m (c ∷ cs) is h apart =
    let m₁ = store m s1 (m s2) in
    let is₁ : IsStr m₁ (s2 + 1) cs =
      IsStr-same m m₁ (s2 + 1) cs (λ a l u. store_other m s1 (m s2) a (ground arith)) is.2 in
    let (m', e, str, same) =
      copy_loop_lem f (s1 + 1) (s2 + 1) m₁ cs is₁ (omega arith) (ground arith) in
    let here : m₁ s1 ≡ c = store_same m s1 (m s2) ∙ is.0 in
    (
      m',
      rw (here, is.1) e,
      (same s1 (inl (omega arith)) ∙ here, is.1, str),
      λ a o. same a (ground arith) ∙ store_other m s1 (m s2) a (ground arith),
    )

-- For a string `cs` at `s2`, with more rounds than it has characters, and a target that does not
-- meet it: `strcpy` ends and returns `s1`, `cs` then stands at `s1` and still at `s2`, and no byte
-- outside the target has changed.
pub strcpy-IsStr :
    (f s1 s2 : ℕ) (m : Memory) (cs : List ℤ)
    → IsStr m s2 cs
    → length cs < f
    → Apart s1 s2 (length cs + 1)
    → (m' : Memory) × (strcpy f s1 s2 m ≡ some (s1, m'))
      × IsStr m' s1 cs
      × IsStr m' s2 cs
      × ((a : ℕ) → (a < s1) ⊎ (s1 + length cs < a) → m' a ≡ m a)
unfolding strcpy
strcpy-IsStr f s1 s2 m cs is h apart =
    let (m', e, str, same) = copy_loop_lem f s1 s2 m cs is h apart in
    (m', rw (strcpy, e), str, IsStr-same m m' s2 cs (λ a l u. same a (ground arith)) is, same)

-- A string begun by another one.
IsStr-append :
    (m m' : Memory) (p : ℕ) (cs ds : List ℤ)
    → IsStr m p cs
    → ((a : ℕ) → p ≤ a → a < p + length cs → m' a ≡ m a)
    → IsStr m' (p + length cs) ds
    → IsStr m' p (cs ++ ds)
IsStr-append m m' p [] ds is same rest = let z : p + 0 ≡ p = omega arith in rw z at rest
IsStr-append m m' p (c ∷ cs) ds is same rest =
    let z : p + suc (length cs) ≡ p + 1 + length cs = omega arith in
    (
      same p (omega arith) (omega arith) ∙ is.0,
      is.1,
      IsStr-append m m' (p + 1) cs ds is.2 (λ a l u. same a (omega arith) (omega arith))
          (rw z at rest),
    )

-- For strings `cs` at `s1` and `ds` at `s2`, with more rounds than either has characters, where the
-- space for both at `s1` does not meet `ds`: `strcat` ends and returns `s1`, the string `cs ++ ds`
-- stands at `s1`, and no byte outside the place of `ds` in it has changed.
pub strcat-IsStr :
    (f s1 s2 : ℕ) (m : Memory) (cs ds : List ℤ)
    → IsStr m s1 cs
    → IsStr m s2 ds
    → length cs < f
    → length ds < f
    → (s1 + length cs + length ds < s2) ⊎ (s2 + length ds < s1)
    → (m' : Memory) × (strcat f s1 s2 m ≡ some (s1, m'))
      × IsStr m' s1 (cs ++ ds)
      × ((a : ℕ) → (a < s1 + length cs) ⊎ (s1 + length cs + length ds < a) → m' a ≡ m a)
unfolding strcat
strcat-IsStr f s1 s2 m cs ds is1 is2 h1 h2 apart =
    let end = s1 + length cs in
    let (m', e, str, same) = copy_loop_lem f end s2 m ds is2 h2 (ground arith) in
    (
      m',
      rw (strcat, find_end_lem f m s1 cs is1 h1, e),
      IsStr-append m m' s1 cs ds is1 (λ a l u. same a (inl u)) str,
      same,
    )
