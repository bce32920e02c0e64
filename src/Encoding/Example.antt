-- ===== src/Encoding/Example.antt =====
-- A small `encoding_rs` for the tests: its one encoding copies bytes, as many as fit.
use lightpanda_browser.Prelude.{ℕ, true, false, some, Bytes, [], length, take}
use lightpanda_browser.Encoding.{CoderResult, EncoderResult, Coded, EncodingRs}

abbrev copied : {R : Type 0} → R → Bytes → ℕ → Coded R (Unit {0})
copied r input capacity = record {
  result = r;
  bytes_read = length (take capacity input);
  written = take capacity input;
  had_errors = false;
  state = tt;
}

abbrev pub copying : EncodingRs
copying = record {
  Encoding = Unit {0};
  Decoder = Unit {0};
  Encoder = Unit {0};
  for_label = λ label. some tt;
  utf_8 = tt;
  same = λ a b. true;
  name = λ a. [];
  output_encoding = λ a. a;
  decode = λ a b. b;
  encode = λ a b. (b, false);
  new_decoder = λ a. tt;
  new_encoder = λ a. tt;
  max_utf8_buffer_length = λ d n. some n;
  decode_to_utf8 = λ d input capacity last. copied CoderResult.input_empty input capacity;
  encode_from_utf8 = λ d input capacity last. copied CoderResult.input_empty input capacity;
  encode_from_utf8_without_replacement =
      λ d input capacity last. copied EncoderResult.input_empty input capacity;
  max_buffer_length_from_utf8_without_replacement = λ d n. some n;
  max_buffer_length_from_utf8_if_no_unmappables = λ d n. some n;
}
