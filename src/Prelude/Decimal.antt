-- ===== src/Prelude/Decimal.antt =====
-- Decimal numbers: `format!("{}", n)` and `str::parse::<u16>`.
use lightpanda_browser.Prelude.Tests.{ltb, ◌==◌, if◌then◌else◌, Bool-cases}
use lightpanda_browser.Prelude.Lists.{Bytes, All, is_empty}
use lightpanda_browser.Prelude.Utf8.{within}
use Prim.Native.Nat.{ℕ, zero, suc, ◌+◌, ◌-◌, ◌*◌, ◌/◌, ◌%◌, ◌^◌, ◌<◌}
use mathlib.Core.Path.{◌≡◌, refl, sym, ◌∙◌}
use mathlib.Core.Logic.{inl, inr}
use mathlib.Core.Bool.{true, false, ◌&&◌}
use mathlib.Core.Option.{Option, none, some}
use mathlib.Core.List.{[], ◌∷◌, ◌++◌}
use native.Mathlib.Omega.{arith}

abbrev and_then : Option ℕ → (ℕ → Option ℕ) → Option ℕ
and_then none f = none
and_then (some n) f = f n

-- The digits of `n` by repeated division, on fuel.
decimal_on : ℕ → ℕ → Bytes
decimal_on zero n = []
decimal_on (suc fuel) n =
    let rest = decimal_on fuel (n / 10) in
    if ltb n 10 then (48 + n) ∷ [] else rest ++ (48 + n % 10) ∷ []

-- `n + 1` rounds are enough, since each divides by ten.
unfoldable pub decimal : ℕ → Bytes
unfolding decimal_on
decimal n = decimal_on (suc n) n

-- One digit more, with the checks of `checked_mul` and `checked_add`.
unfoldable pub push_digit : ℕ → ℕ → Option ℕ
push_digit acc c =
    if within b'0' b'9' c && ltb (acc * 10 + (c - 48)) (2 ^ 16)
    then some (acc * 10 + (c - 48))
    else none

unfoldable pub parse_digits : ℕ → Bytes → Option ℕ
parse_digits acc [] = some acc
parse_digits acc (c ∷ cs) = and_then (push_digit acc c) (λ n. parse_digits n cs)

-- `str::parse::<u16>`: a leading `+` is allowed, a sign alone and an empty text are not.
unfoldable pub parse_u16 : Bytes → Option ℕ
parse_u16 [] = none
parse_u16 (c ∷ []) = parse_digits 0 (c ∷ [])
parse_u16 (c ∷ d ∷ cs) = if c == b'+' then parse_digits 0 (d ∷ cs) else parse_digits 0 (c ∷ d ∷ cs)

parse_digits-snoc :
    (acc : ℕ) (cs : Bytes) (c : ℕ)
    → parse_digits acc (cs ++ c ∷ []) ≡ and_then (parse_digits acc cs) (λ n. push_digit n c)
unfolding parse_digits
parse_digits-snoc acc [] c = ground arith
parse_digits-snoc acc (d ∷ cs) c = step (push_digit acc d) (λ n. parse_digits-snoc n cs c)
  where
    step :
        (o : Option ℕ)
        → ((n : ℕ)
            → parse_digits n (cs ++ c ∷ []) ≡ and_then (parse_digits n cs) (λ m. push_digit m c))
        → and_then o (λ n. parse_digits n (cs ++ c ∷ []))
          ≡ and_then (and_then o (λ n. parse_digits n cs)) (λ m. push_digit m c)
    step none ih = refl
    step (some n) ih = ih n

-- Within 16 bits the digits are read back; beyond, they are refused.
abbrev ReadsBack : ℕ → Bytes → Type 0
ReadsBack n s = parse_digits 0 s ≡ (if ltb n (2 ^ 16) then some n else none)

decimal_on-ReadsBack : (fuel n : ℕ) → n < fuel → ReadsBack n (decimal_on fuel n)
unfolding decimal_on push_digit parse_digits
decimal_on-ReadsBack zero n h = absurd (omega arith)
decimal_on-ReadsBack (suc fuel) n h = elim (Bool-cases (ltb n 10)) [
  | inl small ↦ rw small (ground arith)
  | inr big ↦
      rw
        (
          big,
          parse_digits-snoc 0 (decimal_on fuel (n / 10)) (48 + n % 10),
          decimal_on-ReadsBack fuel (n / 10) (ground arith),
        )
        (ground arith)
]

abbrev pub AreDigits : Bytes → Type 0
AreDigits = All (λ c. within b'0' b'9' c ≡ true)

AreDigits-snoc :
    (cs : Bytes) (c : ℕ) → AreDigits cs → within b'0' b'9' c ≡ true → AreDigits (cs ++ c ∷ [])
AreDigits-snoc [] c h k = (k, tt)
AreDigits-snoc (d ∷ cs) c h k = (h.0, AreDigits-snoc cs c h.1 k)

decimal_on-AreDigits : (fuel n : ℕ) → AreDigits (decimal_on fuel n)
unfolding decimal_on
decimal_on-AreDigits zero n = tt
decimal_on-AreDigits (suc fuel) n = elim (Bool-cases (ltb n 10)) [
  | inl small ↦ rw small (ground arith, tt)
  | inr big ↦ rw big (
      AreDigits-snoc (decimal_on fuel (n / 10)) (48 + n % 10) (decimal_on-AreDigits fuel (n / 10))
        (ground arith))
]

pub decimal-AreDigits : (n : ℕ) → AreDigits (decimal n)
unfolding decimal
decimal-AreDigits n = decimal_on-AreDigits (suc n) n

snoc-ne-nil : (cs : Bytes) (c : ℕ) → is_empty (cs ++ c ∷ []) ≡ false
unfolding is_empty
snoc-ne-nil [] c = refl
snoc-ne-nil (d ∷ cs) c = refl

pub decimal-ne-nil : (n : ℕ) → is_empty (decimal n) ≡ false
unfolding decimal is_empty
decimal-ne-nil n = ground (arith, snoc-ne-nil (decimal_on n (n / 10)) (48 + n % 10))

parse_u16-digits : (s : Bytes) → AreDigits s → is_empty s ≡ false → parse_u16 s ≡ parse_digits 0 s
unfolding parse_u16 is_empty
parse_u16-digits [] h ne = cc
parse_u16-digits (c ∷ []) h ne = refl
parse_u16-digits (c ∷ d ∷ cs) h ne = ground (arith, h.0)

-- A number written in decimal is read back if it fits 16 bits, and refused otherwise.
pub parse_u16-decimal : (n : ℕ) → parse_u16 (decimal n) ≡ (if ltb n (2 ^ 16) then some n else none)
unfolding decimal
parse_u16-decimal n =
    parse_u16-digits (decimal n) (decimal-AreDigits n) (decimal-ne-nil n)
    ∙ decimal_on-ReadsBack (suc n) n (omega arith)

-- A `+` in front of a number in decimal makes no difference.
pub parse_u16_plus : (n : ℕ) → parse_u16 (b'+' ∷ decimal n) ≡ parse_u16 (decimal n)
unfolding parse_u16 is_empty
parse_u16_plus n =
    plus (decimal n) (decimal-AreDigits n) (decimal-ne-nil n)
    ∙ sym (parse_u16-digits (decimal n) (decimal-AreDigits n) (decimal-ne-nil n))
  where
    plus : (s : Bytes) → AreDigits s → is_empty s ≡ false → parse_u16 (b'+' ∷ s) ≡ parse_digits 0 s
    plus [] h ne = cc
    plus (c ∷ cs) h ne = refl
