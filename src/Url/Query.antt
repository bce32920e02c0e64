-- ===== src/Url/Query.antt =====
-- `encode_query_ncr` (src/rust/html5ever/url.rs): a query in a legacy encoding, with a
-- percent-encoded numeric character reference for each character that cannot be mapped.
pub mod Pieces
mod Tests
use lightpanda_browser.Prelude.{
  ℕ, zero, suc, ◌+◌, Bool, true, false, not, List, [], ◌∷◌, ◌++◌, Option, none, some, Bytes, codes,
  if◌then◌else◌, length, drop,
}
use lightpanda_browser.Prelude.Decimal.{decimal}
use lightpanda_browser.Encoding.{
  EncodingRs, EncoderResult, input_empty, output_full, unmappable, Coded,
}

-- The bytes, or a panic: `unwrap` on `None`, `unreachable!`. The fuel bounds the rounds.
pub data Encoded : Type 0 where
  done : Bytes → Encoded
  panicked out_of_fuel : Encoded

-- `format!("%26%23{}%3B", c as u32)`.
unfoldable pub reference : ℕ → Bytes
reference c = codes "%26%23" ++ (decimal c ++ codes "%3B")

module _ (e : EncodingRs) where
  open e use {Encoder}

  unfoldable pub encode_loop : ℕ → Encoder → (input result : Bytes) → Encoded
  encode_loop zero encoder input result = out_of_fuel
  encode_loop (suc fuel) encoder input result =
      elim (e.max_buffer_length_from_utf8_without_replacement encoder (length input)) [
        | none ↦ panicked
        | some needed ↦
            let r = e.encode_from_utf8_without_replacement encoder input needed true in
            elim r.result [
              | EncoderResult.input_empty ↦ done (result ++ r.written)
              | EncoderResult.unmappable c ↦
                  encode_loop fuel r.state (drop r.bytes_read input)
                    ((result ++ r.written) ++ reference c)
              | EncoderResult.output_full ↦ panicked
            ]
      ]

  -- The first test is the fast path; a round of the loop reads at least one byte, so there are
  -- at most as many as bytes, and one more.
  unfoldable pub encode_query_ncr : e.Encoding → Bytes → Encoded
  encode_query_ncr encoding s =
      let (out, had_errors) = e.encode encoding s in
      if not had_errors then done out else encode_loop (length s + 1) (e.new_encoder encoding) s []
