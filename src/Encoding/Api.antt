-- ===== src/Encoding/Api.antt =====
-- The encoding functions of src/rust/html5ever/lib.rs, behind `TextDecoder` and the encoder of
-- forms and queries. A handle is a pointer to an encoding, or null; an output is a buffer of some
-- capacity, or null, and a result carries the bytes that it was given.
pub mod Laws
pub mod Pieces
use lightpanda_browser.Prelude.{
  ℕ, ◌-◌, ◌*◌, ◌%◌, ◌^◌, Bool, true, false, not, ◌||◌, [], Option, none, some, Bytes, ◌==◌, ltb,
  if◌then◌else◌, length,
}
use lightpanda_browser.Prelude.Utf8.{from_utf8}
use lightpanda_browser.Ffi.{RawSlice, is_null, read}
use lightpanda_browser.Heap.{Heap, null, into_raw, drop_raw, deref_mut}
use lightpanda_browser.Encoding.{CoderResult, input_empty, output_full, Coded, EncodingRs}

pub record EncodingInfo (E : Type 0) : Type 0 where
  pub found : ℕ
  pub handle : Option E
  pub name : RawSlice

abbrev pub null_slice : RawSlice
null_slice = record { ptr = none; len = 0 }

pub record DecodeResult : Type 0 where
  pub had_errors : ℕ
  pub bytes_read : ℕ
  pub bytes_written : ℕ
  -- What is written to the start of the output.
  pub output : Bytes

abbrev pub decode_refused : DecodeResult
decode_refused = record { had_errors = 1; bytes_read = 0; bytes_written = 0; output = [] }

pub record EncodeResult : Type 0 where
  pub status : ℕ
  pub bytes_read : ℕ
  pub bytes_written : ℕ
  pub output : Bytes

abbrev pub encode_refused : EncodeResult
encode_refused = record { status = 1; bytes_read = 0; bytes_written = 0; output = [] }

-- A pointer that is null or a length of 0 means no bytes.
unfoldable pub input_bytes : RawSlice → Bytes
input_bytes input = if is_null input.ptr || input.len == 0 then [] else read input

-- The input as a text; `none` is the error return.
unfoldable pub input_str : RawSlice → Option Bytes
unfolding from_utf8
input_str input = if is_null input.ptr || input.len == 0 then some [] else from_utf8 (read input)

-- The UTF-8 branch. `copy_from_slice` panics (`none`) if the lengths differ.
unfoldable pub copy_utf8 : RawSlice → Bytes → ℕ → Option EncodeResult
copy_utf8 input s capacity =
    if ltb capacity input.len
    then some encode_refused
    else if length s == input.len
    then some (record { status = 0; bytes_read = input.len; bytes_written = input.len; output = s })
    else none

module _ (e : EncodingRs) where
  open e use {Encoding, Decoder}

  unfoldable pub encoding_for_label : RawSlice → EncodingInfo Encoding
  encoding_for_label label =
      if is_null label.ptr || label.len == 0
      then record { found = 0; handle = none; name = null_slice }
      else elim (e.for_label (read label)) [
        | some encoding ↦ record {
          found = 1;
          handle = some encoding;
          name = record { ptr = some (e.name encoding); len = length (e.name encoding) };
        }
        | none ↦ record { found = 0; handle = none; name = null_slice }
      ]

  unfoldable pub encoding_max_utf8_buffer_length : Option Encoding → ℕ → ℕ
  encoding_max_utf8_buffer_length none len = 0
  encoding_max_utf8_buffer_length (some encoding) len =
      elim (e.max_utf8_buffer_length (e.new_decoder encoding) len) [ none ↦ 0 | some n ↦ n ]

  unfoldable pub decode_result : Coded CoderResult Decoder → DecodeResult
  decode_result r = record {
    had_errors = if r.had_errors then 1 else 0;
    bytes_read = r.bytes_read;
    bytes_written = length r.written;
    output = r.written;
  }

  -- The capacity of the output is `none` if its pointer is null.
  unfoldable pub encoding_decode : Option Encoding → RawSlice → Option ℕ → ℕ → DecodeResult
  encoding_decode none input output is_last = decode_refused
  encoding_decode (some encoding) input none is_last = decode_refused
  encoding_decode (some encoding) input (some capacity) is_last =
      decode_result (
        e.decode_to_utf8 (e.new_decoder encoding) (input_bytes input) capacity (not (is_last == 0)))

  unfoldable pub encoding_decoder_new : Option Encoding → Heap Decoder → ℕ × Heap Decoder
  encoding_decoder_new none h = (null, h)
  encoding_decoder_new (some encoding) h = into_raw (e.new_decoder encoding) h

  -- The state of the decoder stays in its box.
  unfoldable pub encoding_decoder_decode :
      ℕ → RawSlice → Option ℕ → ℕ → Heap Decoder → Option (DecodeResult × Heap Decoder)
  encoding_decoder_decode p input none is_last h = some (decode_refused, h)
  encoding_decoder_decode p input (some capacity) is_last h =
      if p == null
      then some (decode_refused, h)
      else deref_mut
          (λ decoder.
            let r = e.decode_to_utf8 decoder (input_bytes input) capacity (not (is_last == 0)) in
            (r.state, decode_result r))
          p h

  unfoldable pub encoding_decoder_free : ℕ → Heap Decoder → Option (Heap Decoder)
  encoding_decoder_free p h = if p == null then some h else drop_raw p h

  unfoldable pub encode_legacy : Encoding → Bytes → ℕ → EncodeResult
  encode_legacy encoding s capacity =
      let r = e.encode_from_utf8 (e.new_encoder encoding) s capacity true in
      record {
        status = elim r.result [ CoderResult.input_empty ↦ 0 | CoderResult.output_full ↦ 1 ];
        bytes_read = r.bytes_read;
        bytes_written = length r.written;
        output = r.written;
      }

  unfoldable pub encoding_encode_with_ncr :
      Option Encoding → RawSlice → Option ℕ → Option EncodeResult
  encoding_encode_with_ncr none input output = some encode_refused
  encoding_encode_with_ncr (some encoding) input none = some encode_refused
  encoding_encode_with_ncr (some encoding) input (some capacity) = elim (input_str input) [
    | none ↦ some encode_refused
    | some s ↦
        if e.same encoding e.utf_8
        then copy_utf8 input s capacity
        else some (encode_legacy encoding s capacity)
  ]

  -- A `usize` has 64 bits: `saturating_mul` stops at its maximum, and `*` wraps around in a
  -- release build.
  unfoldable pub encoding_max_encode_buffer_length : Option Encoding → ℕ → ℕ
  encoding_max_encode_buffer_length none len = 0
  encoding_max_encode_buffer_length (some encoding) len =
      elim (e.max_buffer_length_from_utf8_if_no_unmappables (e.new_encoder encoding) len) [
        | some n ↦ if ltb (n * 2) (2 ^ 64) then n * 2 else 2 ^ 64 - 1
        | none ↦ (len * 10) % 2 ^ 64
      ]
