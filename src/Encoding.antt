-- ===== src/Encoding.antt =====
-- `encoding_rs`, the third-party library behind src/rust/html5ever/{lib,prescan,url}.rs, as a
-- record of the operations that the code calls. An encoder and a decoder carry their state.
pub mod Api
pub mod Example
mod Tests
use lightpanda_browser.Prelude.{ℕ, Bool, Option, Bytes}

-- `CoderResult` and `EncoderResult` with the positions that come with them.
pub data CoderResult : Type 0 where
  input_empty output_full : CoderResult

pub data EncoderResult : Type 0 where
  input_empty output_full : EncoderResult
  unmappable : ℕ → EncoderResult

pub record Coded (R S : Type 0) : Type 0 where
  pub result : R
  pub bytes_read : ℕ
  -- What was written to the start of the output.
  pub written : Bytes
  pub had_errors : Bool
  pub state : S

pub record EncodingRs : Type 1 where
  pub Encoding : Type 0
  pub Decoder : Type 0
  pub Encoder : Type 0
  pub for_label : Bytes → Option Encoding
  pub utf_8 : Encoding
  pub same : Encoding → Encoding → Bool
  pub name : Encoding → Bytes
  pub output_encoding : Encoding → Encoding
  -- `decode`, less its flags.
  pub decode : Encoding → Bytes → Bytes
  -- `encode`, with the flag that says that a character could not be mapped.
  pub encode : Encoding → Bytes → Bytes × Bool
  pub new_decoder : Encoding → Decoder
  pub new_encoder : Encoding → Encoder
  pub max_utf8_buffer_length : Decoder → ℕ → Option ℕ
  -- Input, capacity of the output, and whether the input is the last.
  pub decode_to_utf8 : Decoder → Bytes → ℕ → Bool → Coded CoderResult Decoder
  pub encode_from_utf8 : Encoder → Bytes → ℕ → Bool → Coded CoderResult Encoder
  pub encode_from_utf8_without_replacement :
      Encoder → Bytes → ℕ → Bool → Coded EncoderResult Encoder
  pub max_buffer_length_from_utf8_without_replacement : Encoder → ℕ → Option ℕ
  pub max_buffer_length_from_utf8_if_no_unmappables : Encoder → ℕ → Option ℕ
