-- ===== src/Prelude/Search.antt =====
-- The searches of `str` that the code uses, by bytes: every sought character is ASCII, and in
-- UTF-8 the byte of an ASCII character stands for that character alone.
use Prim.Native.Nat.{ℕ, ◌+◌}
use mathlib.Core.Path.{◌≡◌, refl}
use mathlib.Core.Bool.{Bool, true, false}
use mathlib.Core.Option.{Option, none, some}
use mathlib.Core.List.{[], ◌∷◌, ◌++◌}
use native.Mathlib.Omega.{arith}
use lightpanda_browser.Prelude.Tests.{◌==◌, if◌then◌else◌}
use lightpanda_browser.Prelude.Lists.{Bytes, length, All}

-- `s.find(…)`.
unfoldable pub find : (ℕ → Bool) → Bytes → Option ℕ
find test [] = none
find test (c ∷ cs) =
    if test c then some 0 else elim (find test cs) [ none ↦ none | some i ↦ some (i + 1) ]

-- `s.rfind(c)`.
unfoldable pub rfind : ℕ → Bytes → Option ℕ
rfind c [] = none
rfind c (x ∷ xs) = elim (rfind c xs) [
  | some i ↦ some (i + 1)
  | none ↦ if x == c then some 0 else none
]

-- `s.strip_suffix(c)`.
unfoldable pub strip_suffix : ℕ → Bytes → Option Bytes
strip_suffix c [] = none
strip_suffix c (x ∷ []) = if x == c then some [] else none
strip_suffix c (x ∷ y ∷ ys) = elim (strip_suffix c (y ∷ ys)) [ none ↦ none | some t ↦ some (x ∷ t) ]

-- `s.split(…).next()`: the text up to the first separator.
unfoldable pub first_piece : (ℕ → Bool) → Bytes → Bytes
first_piece test [] = []
first_piece test (c ∷ cs) = if test c then [] else c ∷ first_piece test cs

-- No byte of the text is `c`; every byte fails the test.
abbrev pub Lacks : ℕ → Bytes → Type 0
Lacks c = All (λ x. (x == c) ≡ false)

abbrev pub NoneOf : (ℕ → Bool) → Bytes → Type 0
NoneOf test = All (λ x. test x ≡ false)

pub rfind-none : (c : ℕ) (xs : Bytes) → Lacks c xs → rfind c xs ≡ none
unfolding rfind
rfind-none c [] h = refl
rfind-none c (x ∷ xs) h = rw (rfind-none c xs h.1, h.0, rfind)

pub rfind_last : (c : ℕ) (xs ys : Bytes) → Lacks c ys → rfind c (xs ++ (c ∷ ys)) ≡ some (length xs)
unfolding rfind
rfind_last c [] ys h = ground (arith, rfind-none c ys h)
rfind_last c (x ∷ xs) ys h = ground (arith, rfind_last c xs ys h)

pub strip_suffix_last : (c : ℕ) (xs : Bytes) → strip_suffix c (xs ++ (c ∷ [])) ≡ some xs
unfolding strip_suffix
strip_suffix_last c [] = ground arith
strip_suffix_last c (x ∷ []) = ground (arith, strip_suffix_last c [])
strip_suffix_last c (x ∷ y ∷ ys) = ground (arith, strip_suffix_last c (y ∷ ys))

pub find_first :
    (test : ℕ → Bool) (xs : Bytes) (c : ℕ) (ys : Bytes)
    → NoneOf test xs
    → test c ≡ true
    → find test (xs ++ (c ∷ ys)) ≡ some (length xs)
unfolding find
find_first test [] c ys h t = rw t
find_first test (x ∷ xs) c ys h t = ground (arith, h.0, find_first test xs c ys h.1 t)

pub find-none : (test : ℕ → Bool) (xs : Bytes) → NoneOf test xs → find test xs ≡ none
unfolding find
find-none test [] h = refl
find-none test (x ∷ xs) h = ground (arith, h.0, find-none test xs h.1)

pub first_piece_before :
    (test : ℕ → Bool) (xs : Bytes) (c : ℕ) (ys : Bytes)
    → NoneOf test xs
    → test c ≡ true
    → first_piece test (xs ++ (c ∷ ys)) ≡ xs
unfolding first_piece
first_piece_before test [] c ys h t = rw t
first_piece_before test (x ∷ xs) c ys h t =
    ground (arith, h.0, first_piece_before test xs c ys h.1 t)

pub first_piece_all : (test : ℕ → Bool) (xs : Bytes) → NoneOf test xs → first_piece test xs ≡ xs
unfolding first_piece
first_piece_all test [] h = refl
first_piece_all test (x ∷ xs) h = ground (arith, h.0, first_piece_all test xs h.1)
