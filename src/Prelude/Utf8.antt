-- ===== src/Prelude/Utf8.antt =====
-- `std::str::from_utf8`: which byte strings are UTF-8 (Unicode table 3-7), by a machine whose
-- state is the list of the ranges that the next continuation bytes must lie in.
use lightpanda_browser.Prelude.Tests.{leb, ltb, if◌then◌else◌}
use lightpanda_browser.Prelude.Lists.{Bytes, length, length-append}
use Prim.Native.Nat.{ℕ, ◌+◌, ◌/◌, ◌%◌, ◌≤◌}
use mathlib.Core.Path.{◌≡◌, refl, sym, ap, ◌∙◌}
use native.Mathlib.Omega.{arith}
use mathlib.Core.Bool.{Bool, true, false, ◌&&◌}
use mathlib.Core.Option.{Option, none, some}
use mathlib.Core.List.{List, [], ◌∷◌, ◌++◌, append_assoc}

abbrev pub within : ℕ → ℕ → ℕ → Bool
within lo hi c = leb lo c && leb c hi

abbrev Ranges : Type 0
Ranges = List (ℕ × ℕ)

abbrev tail : ℕ × ℕ
tail = (0x80, 0xbf)

-- The ranges that a first byte asks for.
first_byte : ℕ → Option Ranges
first_byte c =
    if leb c 0x7f
    then some []
    else if within 0xc2 0xdf c
    then some (tail ∷ [])
    else if within 0xe0 0xe0 c
    then some ((0xa0, 0xbf) ∷ tail ∷ [])
    else if within 0xed 0xed c
    then some ((0x80, 0x9f) ∷ tail ∷ [])
    else if within 0xe1 0xef c
    then some (tail ∷ tail ∷ [])
    else if within 0xf0 0xf0 c
    then some ((0x90, 0xbf) ∷ tail ∷ tail ∷ [])
    else if within 0xf1 0xf3 c
    then some (tail ∷ tail ∷ tail ∷ [])
    else if within 0xf4 0xf4 c
    then some ((0x80, 0x8f) ∷ tail ∷ tail ∷ [])
    else none

-- The state after one byte.
next_byte : Ranges → ℕ → Option Ranges
unfolding first_byte
next_byte [] c = first_byte c
next_byte ((lo, hi) ∷ rest) c = if within lo hi c then some rest else none

valid_from : Option Ranges → Bytes → Bool
unfolding next_byte
valid_from none cs = false
valid_from (some []) [] = true
valid_from (some (_ ∷ _)) [] = false
valid_from (some r) (c ∷ cs) = valid_from (next_byte r c) cs

unfoldable pub is_utf8 : Bytes → Bool
unfolding valid_from
is_utf8 = valid_from (some [])

valid_from-append :
    (r : Option Ranges) (a b : Bytes)
    → valid_from r a ≡ true
    → is_utf8 b ≡ true
    → valid_from r (a ++ b) ≡ true
unfolding valid_from is_utf8
valid_from-append none [] b e utf8 = cc
valid_from-append none (c ∷ a) b e utf8 = cc
valid_from-append (some []) [] b e utf8 = utf8
valid_from-append (some (x ∷ r)) [] b e utf8 = cc
valid_from-append (some []) (c ∷ a) b e utf8 = valid_from-append (next_byte [] c) a b e utf8
valid_from-append (some (x ∷ r)) (c ∷ a) b e utf8 =
    valid_from-append (next_byte (x ∷ r) c) a b e utf8

-- UTF-8 behind UTF-8 is UTF-8.
pub is_utf8-append : (a b : Bytes) → is_utf8 a ≡ true → is_utf8 b ≡ true → is_utf8 (a ++ b) ≡ true
unfolding is_utf8
is_utf8-append a b ea eb = valid_from-append (some []) a b ea eb

unfoldable pub from_utf8 : Bytes → Option Bytes
unfolding is_utf8
from_utf8 bytes = if is_utf8 bytes then some bytes else none

-- The UTF-8 bytes of a character, and of a text.
unfoldable pub encode_char : ℕ → Bytes
encode_char c =
    if ltb c 0x80
    then c ∷ []
    else if ltb c 0x800
    then (0xc0 + c / 64) ∷ (0x80 + c % 64) ∷ []
    else if ltb c 0x10000
    then (0xe0 + c / 4096) ∷ (0x80 + c / 64 % 64) ∷ (0x80 + c % 64) ∷ []
    else (0xf0 + c / 262144) ∷ (0x80 + c / 4096 % 64) ∷ (0x80 + c / 64 % 64) ∷ (0x80 + c % 64) ∷ []

unfoldable pub to_utf8 : List ℕ → Bytes
to_utf8 [] = []
to_utf8 (c ∷ cs) = encode_char c ++ to_utf8 cs

pub to_utf8-append : (cs ds : List ℕ) → to_utf8 (cs ++ ds) ≡ to_utf8 cs ++ to_utf8 ds
unfolding to_utf8
to_utf8-append [] ds = refl
to_utf8-append (c ∷ cs) ds =
    ap (λ t. encode_char c ++ t) (to_utf8-append cs ds)
    ∙ sym (append_assoc (encode_char c) (to_utf8 cs) (to_utf8 ds))

encode_char-length : (c : ℕ) → 1 ≤ length (encode_char c)
unfolding encode_char
encode_char-length c = ground arith

pub length-to_utf8 : (cs : List ℕ) → length cs ≤ length (to_utf8 cs)
unfolding to_utf8
length-to_utf8 [] = omega arith
length-to_utf8 (c ∷ cs) =
    omega
      (arith, length-append (encode_char c) (to_utf8 cs), encode_char-length c, length-to_utf8 cs)
