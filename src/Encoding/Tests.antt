-- ===== src/Encoding/Tests.antt =====
-- The encoding functions at concrete inputs.
use lightpanda_browser.Prelude.{
  ℕ, zero, suc, ◌≤◌, ◌≡◌, ◌↔◌, refl, true, [], ◌∷◌, none, some, Bytes, codes, length, take, arith,
  ◌<◌, ◌&&◌, not, ltb, if◌then◌else◌,
}
use lightpanda_browser.Prelude.Utf8.{is_utf8, from_utf8}
use lightpanda_browser.Ffi.{slice_of, is_null, read}
use lightpanda_browser.Heap.{Heap}
use lightpanda_browser.Heap.Laws.{IsHeap}
use lightpanda_browser.Encoding.Example.{copying}
use lightpanda_browser.Encoding.Api.{
  encode_refused, encoding_decode, encoding_decoder_new, encoding_decoder_decode,
  encoding_encode_with_ncr, input_str, copy_utf8,
}
use lightpanda_browser.Encoding.Api.Laws.{
  StaysInBounds, length-take-le, room, encoding_decode_bounds, encoding_decoder_first,
  encode_utf8_copies, encode_panics_iff, encode_bounds,
}

take_shorter : (n : ℕ) (s : Bytes) → length (take n s) ≤ length s
take_shorter zero s = omega arith
take_shorter (suc n) [] = omega arith
take_shorter (suc n) (c ∷ s) = omega (arith, take_shorter n s)

copying-StaysInBounds : StaysInBounds copying
copying-StaysInBounds = record {
  reads = λ d input capacity last. take_shorter capacity input;
  writes = λ d input capacity last. length-take-le capacity input;
  encoder_reads = λ d input capacity last. take_shorter capacity input;
  encoder_writes = λ d input capacity last. length-take-le capacity input;
}

encoding_decode_bounds_test :
    let r = encoding_decode copying (some tt) (slice_of (codes "abc")) (some 2) 1 in
    (r.bytes_read ≤ 3) × (r.bytes_written ≡ length r.output) × (r.bytes_written ≤ 2)
encoding_decode_bounds_test =
    encoding_decode_bounds copying (some tt) (slice_of (codes "abc")) (some 2) 1
      copying-StaysInBounds

abbrev no_decoders : Heap (Unit {0})
no_decoders = record { next = 1; cell = λ p. none }

no_decoders-IsHeap : IsHeap no_decoders
no_decoders-IsHeap = record { positive = omega arith; null_dead = refl; fresh_dead = λ p le. refl }

encoding_decoder_first_test :
    let made = encoding_decoder_new copying (some tt) no_decoders in
    (g : Heap (Unit {0})) × (encoding_decoder_decode copying made.0
        (slice_of (codes "abc"))
        (some 2)
        0
        made.1
      ≡ some (encoding_decode copying (some tt) (slice_of (codes "abc")) (some 2) 0, g))
encoding_decoder_first_test =
    encoding_decoder_first copying (some tt) (slice_of (codes "abc")) (some 2) 0 no_decoders
      no_decoders-IsHeap

encode_utf8_copies_test :
    encoding_encode_with_ncr copying
      (some tt)
      (record { ptr = some (codes "abc"); len = 2 })
      (some 4)
    ≡ some (
        if is_utf8 (take 2 (codes "abc")) && not (ltb 4 2)
        then record { status = 0; bytes_read = 2; bytes_written = 2; output = take 2 (codes "abc") }
        else encode_refused)
encode_utf8_copies_test =
    encode_utf8_copies copying tt (codes "abc") 2 4 refl (omega arith) (omega arith)

encode_panics_iff_example :
    (encoding_encode_with_ncr copying (some tt) (record { ptr = none; len = 2 }) (some 4) ≡ none)
    ↔ ((true ≡ true) × (is_null {A = Bytes} none ≡ true) × (0 < 2) × (2 ≤ 4))
encode_panics_iff_example = encode_panics_iff copying tt (record { ptr = none; len = 2 }) 4 tt

encode_bounds_test : (2 ≤ 2) × (2 ≡ length (codes "ab")) × (2 ≤ room (some 4))
unfolding encoding_encode_with_ncr input_str is_utf8 from_utf8 read copy_utf8
encode_bounds_test =
    encode_bounds copying (some tt) (slice_of (codes "ab")) (some 4)
      {r = record { status = 0; bytes_read = 2; bytes_written = 2; output = codes "ab" }}
      copying-StaysInBounds refl
