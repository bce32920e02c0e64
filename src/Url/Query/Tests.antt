-- ===== src/Url/Query/Tests.antt =====
-- `encode_query_ncr` (src/rust/html5ever/url.rs) with an encoding that has the ASCII characters
-- alone.
use lightpanda_browser.Prelude.{
  ℕ, ◌+◌, ◌-◌, ◌*◌, Bool, true, false, List, [], ◌∷◌, ◌++◌, none, some, Bytes, leb, ltb, codes,
  if◌then◌else◌, is_some, length, length-append, take, drop, take_all, drop_all, ◌≡◌, refl, sym, ap,
  ◌∙◌, arith, Bool-cases, inl, inr,
}
use lightpanda_browser.Prelude.Decimal.{decimal}
use lightpanda_browser.Prelude.Search.{find, find-none, NoneOf}
use lightpanda_browser.Prelude.Utf8.{encode_char, to_utf8, to_utf8-append}
use lightpanda_browser.Encoding.{EncodingRs, EncoderResult, Coded}
use lightpanda_browser.Encoding.Example.{copying}
use lightpanda_browser.Url.Query.{done, reference, encode_query_ncr}
use lightpanda_browser.Url.Query.Pieces.{
  CharMap, IsMapped, mapped, piece, pieces, EncodesBy, encode_query_ncr-pieces,
}

abbrev ascii : CharMap
ascii c = if ltb c 0x80 then some (c ∷ []) else none

abbrev is_high : ℕ → Bool
is_high c = leb 0x80 c

-- The character that starts with a byte which is not ASCII, and the count of its bytes.
first_char : Bytes → ℕ
first_char (a ∷ b ∷ []) = (a - 0xc0) * 64 + (b - 0x80)
first_char (a ∷ b ∷ c ∷ []) =
    if ltb a 0xe0
    then (a - 0xc0) * 64 + (b - 0x80)
    else (a - 0xe0) * 4096 + (b - 0x80) * 64 + (c - 0x80)
first_char (a ∷ b ∷ c ∷ d ∷ _) =
    if ltb a 0xe0
    then (a - 0xc0) * 64 + (b - 0x80)
    else if ltb a 0xf0
    then (a - 0xe0) * 4096 + (b - 0x80) * 64 + (c - 0x80)
    else (a - 0xf0) * 262144 + (b - 0x80) * 4096 + (c - 0x80) * 64 + (d - 0x80)
first_char _ = 0

char_size : Bytes → ℕ
char_size [] = 0
char_size (a ∷ _) = if ltb a 0xe0 then 2 else if ltb a 0xf0 then 3 else 4

encode_ascii : Bytes → Coded EncoderResult (Unit {0})
encode_ascii input = elim (find is_high input) [
  | none ↦ record {
    result = EncoderResult.input_empty;
    bytes_read = length input;
    written = input;
    had_errors = false;
    state = tt;
  }
  | some i ↦ record {
    result = EncoderResult.unmappable (first_char (drop i input));
    bytes_read = i + char_size (drop i input);
    written = take i input;
    had_errors = true;
    state = tt;
  }
]

abbrev ascii_only : EncodingRs
ascii_only = record copying {
  encode = λ a b. (b, is_some (find is_high b));
  encode_from_utf8_without_replacement = λ d input capacity last. encode_ascii input;
}

mapped-ascii : (cs : List ℕ) → IsMapped ascii cs → mapped ascii cs ≡ cs
unfolding mapped
mapped-ascii [] h = refl
mapped-ascii (c ∷ cs) h = ground (arith, mapped-ascii cs h.1)

to_utf8-ascii : (cs : List ℕ) → IsMapped ascii cs → to_utf8 cs ≡ cs
unfolding to_utf8 encode_char
to_utf8-ascii [] h = refl
to_utf8-ascii (c ∷ cs) h = ground (arith, to_utf8-ascii cs h.1)

NoneOf-ascii : (cs : List ℕ) → IsMapped ascii cs → NoneOf is_high cs
NoneOf-ascii [] h = tt
NoneOf-ascii (c ∷ cs) h = (ground arith, NoneOf-ascii cs h.1)

-- A text with no high byte has ASCII characters alone.
IsMapped-ascii : (cs : List ℕ) → is_some (find is_high (to_utf8 cs)) ≡ false → IsMapped ascii cs
unfolding to_utf8 encode_char find
IsMapped-ascii [] h = tt
IsMapped-ascii (c ∷ cs) h = elim (Bool-cases (ltb c 0x80)) [
  | inl low ↦ (ground arith, IsMapped-ascii cs (ground arith))
  | inr high ↦ absurd (ground arith)
]

first_char-encode_char :
    (c : ℕ) (r : Bytes) → ltb c 0x80 ≡ false → first_char (encode_char c ++ r) ≡ c
unfolding first_char encode_char
first_char-encode_char c [] high = ground arith
first_char-encode_char c (x ∷ []) high = ground arith
first_char-encode_char c (x ∷ y ∷ r) high = ground arith

char_size-encode_char :
    (c : ℕ) (r : Bytes)
    → ltb c 0x80 ≡ false
    → char_size (encode_char c ++ r) ≡ length (encode_char c)
unfolding char_size encode_char
char_size-encode_char c r high = ground arith

find-encode_char :
    (cs : List ℕ) (c : ℕ) (r : Bytes)
    → IsMapped ascii cs
    → ltb c 0x80 ≡ false
    → find is_high (cs ++ (encode_char c ++ r)) ≡ some (length cs)
unfolding find encode_char
find-encode_char [] c r h high = ground arith
find-encode_char (x ∷ cs) c r h high = ground (arith, h.0, find-encode_char cs c r h.1 high)

to_utf8-split :
    (cs : List ℕ) (c : ℕ) (rest : List ℕ)
    → IsMapped ascii cs
    → to_utf8 (cs ++ (c ∷ rest)) ≡ cs ++ (encode_char c ++ to_utf8 rest)
unfolding to_utf8
to_utf8-split cs c rest h =
    to_utf8-append cs (c ∷ rest)
    ∙ ap (λ t. t ++ (encode_char c ++ to_utf8 rest)) (to_utf8-ascii cs h)

encode_ascii-split :
    (cs : List ℕ) (c : ℕ) (r : Bytes)
    → IsMapped ascii cs
    → ltb c 0x80 ≡ false
    → encode_ascii (cs ++ (encode_char c ++ r)) ≡ record {
      result = EncoderResult.unmappable c;
      bytes_read = length cs + length (encode_char c);
      written = cs;
      had_errors = true;
      state = tt;
    }
unfolding encode_ascii
encode_ascii-split cs c r h high = rw (
  find-encode_char cs c r h high,
  drop_all cs (encode_char c ++ r),
  take_all cs (encode_char c ++ r),
  first_char-encode_char c r high,
  char_size-encode_char c r high,
  encode_ascii,
)

ascii_only-EncodesBy : EncodesBy ascii_only tt ascii
unfolding encode_ascii to_utf8
ascii_only-EncodesBy = record {
  sized = λ encoder n. (n, refl);
  to_end = λ encoder cs size z h.
      rw (to_utf8-ascii cs h, find-none is_high cs (NoneOf-ascii cs h), encode_ascii)
        (refl, to_utf8-ascii cs h ∙ sym (mapped-ascii cs h));
  to_unmappable = λ encoder cs c rest size z h bad.
      let high : ltb c 0x80 ≡ false = ground arith in
      let read : length (to_utf8 (cs ++ c ∷ [])) ≡ length cs + length (encode_char c) =
        ap length (to_utf8-split cs c [] h)
        ∙ omega (
          arith,
          length-append cs (encode_char c ++ to_utf8 []),
          length-append (encode_char c) (to_utf8 []),
        ) in
      rw (to_utf8-split cs c rest h, encode_ascii-split cs c (to_utf8 rest) h high)
        (refl, sym (mapped-ascii cs h), sym read);
  encode_mapped = λ cs clean.
      let h = IsMapped-ascii cs clean in (h, to_utf8-ascii cs h ∙ sym (mapped-ascii cs h));
}

-- U+00E9 has no byte.
encode_query_ncr-pieces_example :
    encode_query_ncr ascii_only tt (to_utf8 (b'a' ∷ 0xe9 ∷ b'b' ∷ []))
    ≡ done (pieces ascii (b'a' ∷ 0xe9 ∷ b'b' ∷ []))
encode_query_ncr-pieces_example =
    encode_query_ncr-pieces ascii_only tt ascii ascii_only-EncodesBy (b'a' ∷ 0xe9 ∷ b'b' ∷ [])

pieces_accent : pieces ascii (b'a' ∷ 0xe9 ∷ b'b' ∷ []) ≡ codes "a%26%23233%3Bb"
unfolding pieces piece reference decimal
pieces_accent = refl
