-- ===== src/Encoding/Api/Laws.antt =====
-- Bounds, panics and agreement of the encoding functions (src/rust/html5ever/lib.rs).
use lightpanda_browser.Prelude.{
  ℕ, zero, suc, ◌∷◌, ◌&&◌, ◌≤◌, ◌<◌, Bool, true, false, not, [], Option, none, some, Bytes, ◌==◌,
  ltb, take, if◌then◌else◌, length, ◌≡◌, ◌≢◌, ◌↔◌, inl, inr, refl, arith, Option-cases, Bool-cases,
}
use lightpanda_browser.Prelude.Utf8.{from_utf8, is_utf8}
use lightpanda_browser.Ffi.{RawSlice, is_null, read, IsReadable}
use lightpanda_browser.Heap.{Heap, null, into_raw, deref_mut, update}
use lightpanda_browser.Heap.Laws.{IsHeap, into_raw-ne-null, cell-into_raw}
use lightpanda_browser.Encoding.{EncodingRs}
use lightpanda_browser.Encoding.Api.{
  EncodeResult, encode_refused, input_bytes, decode_result, encoding_decode, encoding_decoder_new,
  encoding_decoder_decode, input_str, copy_utf8, encode_legacy, encoding_encode_with_ncr,
}

-- What `encoding_rs` documents: it reads no more than the input and writes no more than fits.
pub record StaysInBounds (e : EncodingRs) : Type 0 where
  pub reads :
      (d : e.Decoder) (input : Bytes) (capacity : ℕ) (last : Bool)
      → (e.decode_to_utf8 d input capacity last).bytes_read ≤ length input
  pub writes :
      (d : e.Decoder) (input : Bytes) (capacity : ℕ) (last : Bool)
      → length (e.decode_to_utf8 d input capacity last).written ≤ capacity
  pub encoder_reads :
      (d : e.Encoder) (input : Bytes) (capacity : ℕ) (last : Bool)
      → (e.encode_from_utf8 d input capacity last).bytes_read ≤ length input
  pub encoder_writes :
      (d : e.Encoder) (input : Bytes) (capacity : ℕ) (last : Bool)
      → length (e.encode_from_utf8 d input capacity last).written ≤ capacity

pub length-take-le : (n : ℕ) (s : Bytes) → length (take n s) ≤ n
length-take-le zero s = omega arith
length-take-le (suc n) [] = omega arith
length-take-le (suc n) (c ∷ s) = omega (arith, length-take-le n s)

length-take_of_le : (n : ℕ) (s : Bytes) → n ≤ length s → length (take n s) ≡ n
length-take_of_le zero s h = omega arith
length-take_of_le (suc n) [] h = omega arith
length-take_of_le (suc n) (c ∷ s) h = omega (arith, length-take_of_le n s (omega arith))

read-le : (ptr : Option Bytes) (n : ℕ) → length (read (record { ptr = ptr; len = n })) ≤ n
unfolding read
read-le none n = omega arith
read-le (some m) n = length-take-le n m

input_bytes-le : (input : RawSlice) → length (input_bytes input) ≤ input.len
unfolding input_bytes
input_bytes-le input = ground (arith, read-le input.ptr input.len)

input_str-le : (input : RawSlice) {s : Bytes} → input_str input ≡ some s → length s ≤ input.len
unfolding input_str from_utf8
input_str-le input e = ground (arith, read-le input.ptr input.len)

input_str_lem :
    (bytes : Bytes) (len : ℕ)
    → 0 < len
    → input_str (record { ptr = some bytes; len = len })
      ≡ (if is_utf8 (take len bytes) then some (take len bytes) else none)
unfolding input_str from_utf8 read
input_str_lem bytes len pos = let more : (len == 0) ≡ false = ground arith in rw more

copy_lem :
    (input : RawSlice) (s : Bytes) (capacity : ℕ)
    → length s ≡ input.len
    → copy_utf8 input s capacity
      ≡ some (
          if not (ltb capacity input.len)
          then record { status = 0; bytes_read = input.len; bytes_written = input.len; output = s }
          else encode_refused)
unfolding copy_utf8
copy_lem input s capacity size = ground arith

copy_panics_iff :
    (input : RawSlice) (s : Bytes) (capacity : ℕ)
    → (copy_utf8 input s capacity ≡ none) ↔ ((input.len ≤ capacity) × (length s ≢ input.len))
unfolding copy_utf8
copy_panics_iff input s capacity = ground arith

-- The length of a text from a readable input.
input_str-length :
    (bytes : Bytes) (len : ℕ) {s : Bytes}
    → len ≤ length bytes
    → input_str (record { ptr = some bytes; len = len }) ≡ some s
    → length s ≡ len
unfolding input_str from_utf8 read
input_str-length bytes len fits e = ground (arith, length-take_of_le len bytes fits)

input_str_null : (len : ℕ) → input_str (record { ptr = none; len = len }) ≡ some []
unfolding input_str
input_str_null len = refl

-- The capacity of an output, 0 if its pointer is null.
abbrev pub room : Option ℕ → ℕ
room none = 0
room (some capacity) = capacity

module _ (e : EncodingRs) where
  -- If the decoder stays within the input and the output that it is given, a decoding reports as
  -- many bytes as it wrote, within the caller's output, and reads no more than the caller's input;
  -- so too for null pointers.
  pub encoding_decode_bounds :
      (handle : Option e.Encoding) (input : RawSlice) (output : Option ℕ) (is_last : ℕ)
      → StaysInBounds e
      → let r = encoding_decode e handle input output is_last in
        (r.bytes_read ≤ input.len)
        × (r.bytes_written ≡ length r.output)
        × (r.bytes_written ≤ room output)
  unfolding encoding_decode decode_result
  encoding_decode_bounds none input output is_last b = (omega arith, refl, omega arith)
  encoding_decode_bounds (some encoding) input none is_last b = (omega arith, refl, omega arith)
  encoding_decode_bounds (some encoding) input (some capacity) is_last b = (
    omega (
      arith,
      b.reads (e.new_decoder encoding) (input_bytes input) capacity (not (is_last == 0)),
      input_bytes-le input,
    ),
    refl,
    b.writes (e.new_decoder encoding) (input_bytes input) capacity (not (is_last == 0)),
  )

  -- The first call of a streaming decoder gives what the one-shot function gives.
  pub encoding_decoder_first :
      (handle : Option e.Encoding) (input : RawSlice) (output : Option ℕ) (is_last : ℕ)
      (h : Heap e.Decoder)
      → IsHeap h
      → let made = encoding_decoder_new e handle h in
        (g : Heap e.Decoder) × (encoding_decoder_decode e made.0 input output is_last made.1
          ≡ some (encoding_decode e handle input output is_last, g))
  unfolding encoding_decode encoding_decoder_decode encoding_decoder_new deref_mut
  encoding_decoder_first none input none is_last h i = (h, refl)
  encoding_decoder_first none input (some capacity) is_last h i = (h, refl)
  encoding_decoder_first (some encoding) input none is_last h i =
      ((into_raw (e.new_decoder encoding) h).1, refl)
  encoding_decoder_first (some encoding) input (some capacity) is_last h i =
      let d = e.new_decoder encoding in
      let live : ((into_raw d h).0 == null) ≡ false = ground (arith, into_raw-ne-null h d i) in
      let r = e.decode_to_utf8 d (input_bytes input) capacity (not (is_last == 0)) in
      (
        record (into_raw d h).1 {
          cell = update (into_raw d h).1.cell (into_raw d h).0 (some r.state);
        },
        rw (live, cell-into_raw h d, encoding_decoder_decode, deref_mut),
      )

  -- A text encoded into UTF-8, from a readable input that is not null: copied whole if it fits;
  -- if not, or if it is no UTF-8, refused with nothing written.
  pub encode_utf8_copies :
      (encoding : e.Encoding) (bytes : Bytes) (len capacity : ℕ)
      → e.same encoding e.utf_8 ≡ true
      → 0 < len
      → len ≤ length bytes
      → encoding_encode_with_ncr e
          (some encoding)
          (record { ptr = some bytes; len = len })
          (some capacity)
        ≡ some (
            if is_utf8 (take len bytes) && not (ltb capacity len)
            then record {
              status = 0;
              bytes_read = len;
              bytes_written = len;
              output = take len bytes;
            }
            else encode_refused)
  unfolding encoding_encode_with_ncr copy_utf8
  encode_utf8_copies encoding bytes len capacity u pos fits =
      let size = length-take_of_le len bytes fits in
      rw (input_str_lem bytes len pos, encoding_encode_with_ncr)
        (elim (Bool-cases (is_utf8 (take len bytes))) [
          | inl valid ↦
              rw (valid, u)
                (copy_lem (record { ptr = some bytes; len = len }) (take len bytes) capacity size)
          | inr invalid ↦ rw invalid
        ])

  panics_at :
      (encoding : e.Encoding) (ptr : Option Bytes) (len capacity : ℕ)
      → IsReadable (record { ptr = ptr; len = len })
      → (encoding_encode_with_ncr e
            (some encoding)
            (record { ptr = ptr; len = len })
            (some capacity)
          ≡ none)
        ↔ ((e.same encoding e.utf_8 ≡ true) × (is_null ptr ≡ true) × (0 < len) × (len ≤ capacity))
  unfolding encoding_encode_with_ncr
  panics_at encoding none len capacity r =
      rw (input_str_null len, encoding_encode_with_ncr)
        (elim (Bool-cases (e.same encoding e.utf_8)) [
          | inl u ↦ ground (arith, copy_panics_iff (record { ptr = none; len = len }) [] capacity)
          | inr l ↦ ground arith
        ])
  panics_at encoding (some m) len capacity r =
      elim (Option-cases (input_str (record { ptr = some m; len = len }))) [
        | inl bad ↦ ground arith
        | inr (s, good) ↦ ground (
          arith,
          input_str-length m len r good,
          copy_panics_iff (record { ptr = some m; len = len }) s capacity,
        )
      ]

  -- A null input of a length that is not 0, with UTF-8 and enough room, makes `copy_from_slice`
  -- panic, behind a boundary that no panic may cross; other calls with a readable input return.
  pub encode_panics_iff :
      (encoding : e.Encoding) (input : RawSlice) (capacity : ℕ)
      → IsReadable input
      → (encoding_encode_with_ncr e (some encoding) input (some capacity) ≡ none) ↔ (
          (e.same encoding e.utf_8 ≡ true)
          × (is_null input.ptr ≡ true)
          × (0 < input.len)
          × (input.len ≤ capacity))
  unfolding encoding_encode_with_ncr
  encode_panics_iff encoding input capacity readable =
      panics_at encoding input.ptr input.len capacity readable

  -- An encoding that returns wrote no more than fits and read no more than the input.
  pub encode_bounds :
      (handle : Option e.Encoding) (input : RawSlice) (output : Option ℕ) {r : EncodeResult}
      → StaysInBounds e
      → encoding_encode_with_ncr e handle input output ≡ some r
      → (r.bytes_read ≤ input.len)
        × (r.bytes_written ≡ length r.output)
        × (r.bytes_written ≤ room output)
  unfolding encoding_encode_with_ncr copy_utf8 encode_legacy
  encode_bounds none input output b h = ground arith
  encode_bounds (some encoding) input none b h = ground arith
  encode_bounds (some encoding) input (some capacity) b h = elim (Option-cases (input_str input)) [
    | inl bad ↦ ground arith
    | inr (s, good) ↦ ground (
      arith,
      input_str-le input good,
      b.encoder_reads (e.new_encoder encoding) s capacity true,
      b.encoder_writes (e.new_encoder encoding) s capacity true,
    )
  ]
