-- ===== src/Url/Query/Pieces.antt =====
-- The bytes of a query are those of its characters one by one (src/rust/html5ever/url.rs).
use lightpanda_browser.Prelude.{
  ℕ, zero, suc, ◌+◌, ◌<◌, true, false, List, [], ◌∷◌, ◌++◌, Option, none, some, Bytes, length,
  length-append, drop, drop_all, append_assoc, ◌≡◌, ◌⊎◌, inl, inr, refl, sym, ap, ◌∙◌, arith, All,
  Option-cases, Bool-cases, is_some,
}
use lightpanda_browser.Prelude.Utf8.{to_utf8, to_utf8-append, length-to_utf8}
use lightpanda_browser.Encoding.{EncodingRs, EncoderResult}
use lightpanda_browser.Url.Query.{done, reference, encode_loop, encode_query_ncr}

-- The bytes of a character that can be mapped.
abbrev pub CharMap : Type 0
CharMap = ℕ → Option Bytes

abbrev pub IsMapped : CharMap → List ℕ → Type 0
IsMapped map_char = All (λ c. is_some (map_char c) ≡ true)

unfoldable pub mapped : CharMap → List ℕ → Bytes
mapped map_char [] = []
mapped map_char (c ∷ cs) = elim (map_char c) [ none ↦ [] | some b ↦ b ] ++ mapped map_char cs

-- A character's bytes, or the reference to it.
unfoldable pub piece : CharMap → ℕ → Bytes
piece map_char c = elim (map_char c) [ none ↦ reference c | some b ↦ b ]

unfoldable pub pieces : CharMap → List ℕ → Bytes
pieces map_char [] = []
pieces map_char (c ∷ cs) = piece map_char c ++ pieces map_char cs

-- What `encoding_rs` documents of an encoder that keeps no state, for a complete input and an
-- output of the size that it asks for: it goes on to the end or to the first character that
-- cannot be mapped, reads that one too, and writes the characters before it. `encode` reports an
-- error if there is such a character, and otherwise gives the mapped bytes.
pub record EncodesBy (e : EncodingRs) (encoding : e.Encoding) (map_char : CharMap) : Type 0 where
  pub sized :
      (encoder : e.Encoder) (n : ℕ)
      → (size : ℕ) × (e.max_buffer_length_from_utf8_without_replacement encoder n ≡ some size)
  pub to_end :
      (encoder : e.Encoder) (cs : List ℕ) (size : ℕ)
      → e.max_buffer_length_from_utf8_without_replacement encoder (length (to_utf8 cs)) ≡ some size
      → IsMapped map_char cs
      → ((e.encode_from_utf8_without_replacement encoder (to_utf8 cs) size true).result
          ≡ EncoderResult.input_empty)
        × ((e.encode_from_utf8_without_replacement encoder (to_utf8 cs) size true).written
            ≡ mapped map_char cs)
  pub to_unmappable :
      (encoder : e.Encoder) (cs : List ℕ) (c : ℕ) (rest : List ℕ) (size : ℕ)
      → e.max_buffer_length_from_utf8_without_replacement encoder
          (length (to_utf8 (cs ++ (c ∷ rest))))
        ≡ some size
      → IsMapped map_char cs
      → map_char c ≡ none
      → ((e.encode_from_utf8_without_replacement encoder
            (to_utf8 (cs ++ (c ∷ rest)))
            size
            true).result
          ≡ EncoderResult.unmappable c)
        × ((e.encode_from_utf8_without_replacement encoder
              (to_utf8 (cs ++ (c ∷ rest)))
              size
              true).written
            ≡ mapped map_char cs)
        × ((e.encode_from_utf8_without_replacement encoder
              (to_utf8 (cs ++ (c ∷ rest)))
              size
              true).bytes_read
            ≡ length (to_utf8 (cs ++ c ∷ [])))
  pub encode_mapped :
      (cs : List ℕ)
      → (e.encode encoding (to_utf8 cs)).1 ≡ false
      → IsMapped map_char cs × ((e.encode encoding (to_utf8 cs)).0 ≡ mapped map_char cs)

pieces-mapped : (m : CharMap) (cs : List ℕ) → IsMapped m cs → pieces m cs ≡ mapped m cs
unfolding pieces mapped piece
pieces-mapped m [] h = refl
pieces-mapped m (c ∷ cs) h = ground (arith, pieces-mapped m cs h.1)

pieces-append : (m : CharMap) (cs ds : List ℕ) → pieces m (cs ++ ds) ≡ pieces m cs ++ pieces m ds
unfolding pieces
pieces-append m [] ds = refl
pieces-append m (c ∷ cs) ds =
    ap (λ t. piece m c ++ t) (pieces-append m cs ds)
    ∙ sym (append_assoc (piece m c) (pieces m cs) (pieces m ds))

-- The place of the first character that cannot be mapped.
record Unmapped (m : CharMap) (cs : List ℕ) : Type 0 where
  good : List ℕ
  bad : ℕ
  rest : List ℕ
  splits : cs ≡ good ++ (bad ∷ rest)
  good_mapped : IsMapped m good
  bad_none : m bad ≡ none

split : (m : CharMap) (cs : List ℕ) → IsMapped m cs ⊎ Unmapped m cs
split m [] = inl tt
split m (c ∷ cs) = elim (Option-cases (m c)) [
  | inl missing ↦ inr (record {
    good = [];
    bad = c;
    rest = cs;
    splits = refl;
    good_mapped = tt;
    bad_none = missing;
  })
  | inr (b, found) ↦ elim (split m cs) [
    | inl all ↦ inl (rw found, all)
    | inr s ↦ inr (record {
      good = c ∷ s.good;
      bad = s.bad;
      rest = s.rest;
      splits = ap (◌∷◌ c) s.splits;
      good_mapped = (rw found, s.good_mapped);
      bad_none = s.bad_none;
    })
  ]
]

drop_read :
    (good : List ℕ) (bad : ℕ) (rest : List ℕ)
    → drop (length (to_utf8 (good ++ bad ∷ []))) (to_utf8 (good ++ (bad ∷ rest))) ≡ to_utf8 rest
drop_read good bad rest =
    let whole : to_utf8 (good ++ (bad ∷ rest)) ≡ to_utf8 (good ++ bad ∷ []) ++ to_utf8 rest =
      ap to_utf8 (sym (append_assoc good (bad ∷ []) rest))
      ∙ to_utf8-append (good ++ bad ∷ []) rest in
    rw whole (drop_all (to_utf8 (good ++ bad ∷ [])) (to_utf8 rest))

pieces_bad :
    (m : CharMap) (bad : ℕ) (rest : List ℕ)
    → m bad ≡ none
    → pieces m (bad ∷ rest) ≡ reference bad ++ pieces m rest
unfolding pieces piece
pieces_bad m bad rest b = rw (b, pieces, piece)

pieces_split :
    (m : CharMap) (good : List ℕ) (bad : ℕ) (rest : List ℕ) (result : Bytes)
    → IsMapped m good
    → m bad ≡ none
    → ((result ++ mapped m good) ++ reference bad) ++ pieces m rest
      ≡ result ++ pieces m (good ++ (bad ∷ rest))
pieces_split m good bad rest result g b = simp (
  pieces-append m good (bad ∷ rest),
  pieces-mapped m good g,
  pieces_bad m bad rest b,
  append_assoc,
)

module _ (e : EncodingRs) (encoding : e.Encoding) (m : CharMap) (by : EncodesBy e encoding m) where
  loop_end :
      (fuel : ℕ) (encoder : e.Encoder) (cs : List ℕ) (result : Bytes)
      → IsMapped m cs
      → encode_loop e (suc fuel) encoder (to_utf8 cs) result ≡ done (result ++ pieces m cs)
  unfolding encode_loop
  loop_end fuel encoder cs result all =
      let (size, z) = by.sized encoder (length (to_utf8 cs)) in
      let (r, w) = by.to_end encoder cs size z all in
      rw (z, r, w, encode_loop) (ap (λ t. done (result ++ t)) (sym (pieces-mapped m cs all)))

  loop_round :
      (fuel : ℕ) (encoder : e.Encoder) (good : List ℕ) (bad : ℕ) (rest : List ℕ) (result : Bytes)
      → IsMapped m good
      → m bad ≡ none
      → (next : e.Encoder) × (encode_loop e
            (suc fuel)
            encoder
            (to_utf8 (good ++ (bad ∷ rest)))
            result
          ≡ encode_loop e fuel next (to_utf8 rest) ((result ++ mapped m good) ++ reference bad))
  unfolding encode_loop
  loop_round fuel encoder good bad rest result g b =
      let (size, z) = by.sized encoder (length (to_utf8 (good ++ (bad ∷ rest)))) in
      let (r, w, n) = by.to_unmappable encoder good bad rest size z g b in
      (
        (e.encode_from_utf8_without_replacement encoder (to_utf8 (good ++ (bad ∷ rest))) size
            true).state,
        rw (z, r, w, n, drop_read good bad rest, encode_loop),
      )

  loop-pieces :
      (fuel : ℕ) (encoder : e.Encoder) (cs : List ℕ) (result : Bytes)
      → length cs < fuel
      → encode_loop e fuel encoder (to_utf8 cs) result ≡ done (result ++ pieces m cs)
  loop-pieces zero encoder cs result lt = absurd (omega arith)
  loop-pieces (suc fuel) encoder cs result lt = elim (split m cs) [
    | inl all ↦ loop_end fuel encoder cs result all
    | inr s ↦
        let (next, step) =
          loop_round fuel encoder s.good s.bad s.rest result s.good_mapped s.bad_none in
        ap (λ t. encode_loop e (suc fuel) encoder (to_utf8 t) result) s.splits
        ∙ step
        ∙ loop-pieces fuel next s.rest ((result ++ mapped m s.good) ++ reference s.bad)
            (omega (arith, ap length s.splits, length-append s.good (s.bad ∷ s.rest)))
        ∙ ap done (
            pieces_split m s.good s.bad s.rest result s.good_mapped s.bad_none
            ∙ ap (λ t. result ++ pieces m t) (sym s.splits))
  ]

  -- With an encoder that keeps no state, the query of a text is, character by character, the
  -- mapped bytes or `%26%23`, the number in decimal and `%3B`. The loop ends within its fuel, and
  -- no `unwrap` or `unreachable!` is reached.
  pub encode_query_ncr-pieces :
      (cs : List ℕ) → encode_query_ncr e encoding (to_utf8 cs) ≡ done (pieces m cs)
  unfolding encode_query_ncr
  encode_query_ncr-pieces cs = elim (Bool-cases (e.encode encoding (to_utf8 cs)).1) [
    | inl errors ↦
        rw (errors, encode_query_ncr)
          (loop-pieces (length (to_utf8 cs) + 1) (e.new_encoder encoding) cs []
            (omega (arith, length-to_utf8 cs)))
    | inr clean ↦
        let (all, same) = by.encode_mapped cs clean in
        rw (clean, same, encode_query_ncr) (ap done (sym (pieces-mapped m cs all)))
  ]
