-- ===== src/Encoding/Api/Pieces.antt =====
-- A text that is decoded in pieces by a streaming decoder (src/rust/html5ever/lib.rs), against one
-- that is decoded at once.
mod Tests
use lightpanda_browser.Prelude.{
  ℕ, ◌+◌, ◌≤◌, Bool, true, false, not, List, [], ◌∷◌, ◌++◌, Option, none, some, Bytes, ◌==◌,
  if◌then◌else◌, length, append-nil, append_assoc, length-append, subst, ◌≡◌, refl, sym, ap, ◌∙◌,
  arith, take-length,
}
use lightpanda_browser.Ffi.{RawSlice, read, slice_of}
use lightpanda_browser.Heap.{Heap, null, into_raw, drop_raw}
use lightpanda_browser.Heap.Laws.{IsHeap, into_raw-ne-null, drop_raw-into_raw, deref_mut-into_raw}
use lightpanda_browser.Encoding.{EncodingRs, Coded}
use lightpanda_browser.Encoding.Api.{
  DecodeResult, input_bytes, decode_result, encoding_decode, encoding_decoder_new,
  encoding_decoder_decode, encoding_decoder_free,
}

-- What `encoding_rs` documents of a decoder: with the room that it asks for it reads the whole
-- input, and its output does not depend on how the input is cut.
pub record DecodesInPieces (e : EncodingRs) : Type 0 where
  -- What the decoder makes of some bytes, the last ones or not, and the state behind them.
  pub decoded : e.Decoder → Bytes → Bool → Bytes
  pub after : e.Decoder → Bytes → e.Decoder
  pub reads :
      (d : e.Decoder) (input : Bytes) (capacity n : ℕ) (last : Bool)
      → e.max_utf8_buffer_length d (length input) ≡ some n
      → n ≤ capacity
      → (e.decode_to_utf8 d input capacity last).bytes_read ≡ length input
  pub writes :
      (d : e.Decoder) (input : Bytes) (capacity n : ℕ) (last : Bool)
      → e.max_utf8_buffer_length d (length input) ≡ some n
      → n ≤ capacity
      → (e.decode_to_utf8 d input capacity last).written ≡ decoded d input last
  pub continues :
      (d : e.Decoder) (input : Bytes) (capacity n : ℕ)
      → e.max_utf8_buffer_length d (length input) ≡ some n
      → n ≤ capacity
      → (e.decode_to_utf8 d input capacity false).state ≡ after d input
  pub append :
      (d : e.Decoder) (a b : Bytes) (last : Bool)
      → decoded d (a ++ b) last ≡ decoded d a false ++ decoded (after d a) b last

input_bytes-slice_of : (b : Bytes) → input_bytes (slice_of b) ≡ b
unfolding input_bytes read
input_bytes-slice_of [] = refl
input_bytes-slice_of (x ∷ b) = ground (arith, take-length (x ∷ b))

-- A piece, and the capacity of the output that it is decoded into.
pub record Piece : Type 0 where
  pub bytes : Bytes
  pub capacity : ℕ

-- The pieces as one, with the last one behind.
unfoldable pub joined : List Piece → Piece → Bytes
joined [] last = last.bytes
joined (c ∷ cs) last = c.bytes ++ joined cs last

unfoldable pub outputs : List DecodeResult → Bytes
outputs [] = []
outputs (r ∷ rs) = r.output ++ outputs rs

unfoldable pub total_read : List DecodeResult → ℕ
total_read [] = 0
total_read (r ∷ rs) = r.bytes_read + total_read rs

module _ (e : EncodingRs) where
  -- The pieces in turn, and the last one.
  unfoldable pub decode_pieces :
      ℕ → List Piece → Piece → Heap e.Decoder → Option (List DecodeResult × Heap e.Decoder)
  decode_pieces p [] last h =
      elim (encoding_decoder_decode e p (slice_of last.bytes) (some last.capacity) 1 h) [
        | none ↦ none
        | some (r, g) ↦ some (r ∷ [], g)
      ]
  decode_pieces p (c ∷ cs) last h =
      elim (encoding_decoder_decode e p (slice_of c.bytes) (some c.capacity) 0 h) [
        | none ↦ none
        | some (r, g) ↦ elim (decode_pieces p cs last g) [
          | none ↦ none
          | some (rs, k) ↦ some (r ∷ rs, k)
        ]
      ]

  -- The output has the room that the decoder asks for.
  abbrev pub HasRoom : e.Decoder → Bytes → ℕ → Type 0
  HasRoom d input capacity =
      (n : ℕ) × (e.max_utf8_buffer_length d (length input) ≡ some n) × (n ≤ capacity)

  module _ (by : DecodesInPieces e) where
    abbrev pub AllHaveRoom : e.Decoder → List Piece → Piece → Type 0
    AllHaveRoom d [] last = HasRoom d last.bytes last.capacity
    AllHaveRoom d (c ∷ cs) last =
        HasRoom d c.bytes c.capacity × AllHaveRoom (by.after d c.bytes) cs last

    module _ (h : Heap e.Decoder) (heap : IsHeap h) where
      decode_lem :
          (d : e.Decoder) (b : Bytes) (capacity is_last : ℕ)
          → let r = e.decode_to_utf8 d b capacity (not (is_last == 0)) in
            encoding_decoder_decode e
              (into_raw d h).0
              (slice_of b)
              (some capacity)
              is_last
              (into_raw d h).1
            ≡ some (decode_result e r, (into_raw r.state h).1)
      unfolding encoding_decoder_decode
      decode_lem d b capacity is_last =
          let live : ((into_raw d h).0 == null) ≡ false =
            ground (arith, into_raw-ne-null h d heap) in
          rw (input_bytes-slice_of b, live, encoding_decoder_decode)
            (deref_mut-into_raw h
              (λ decoder.
                let r = e.decode_to_utf8 decoder b capacity (not (is_last == 0)) in
                (r.state, decode_result e r))
              d)

      free_lem :
          (d s : e.Decoder)
          → encoding_decoder_free e (into_raw d h).0 (into_raw s h).1
            ≡ some (record h { next = h.next + 1 })
      unfolding encoding_decoder_free into_raw
      free_lem d s =
          let live : (h.next == null) ≡ false = ground (arith, into_raw-ne-null h d heap) in
          rw live (drop_raw-into_raw h s heap)

      -- What a run over the pieces leaves.
      record Decodes (d : e.Decoder) (cs : List Piece) (last : Piece) : Type 0 where
        results : List DecodeResult
        state : e.Decoder
        run :
            decode_pieces (into_raw d h).0 cs last (into_raw d h).1
            ≡ some (results, (into_raw state h).1)
        output : outputs results ≡ by.decoded d (joined cs last) true
        read_all : total_read results ≡ length (joined cs last)

      Decodes-cons :
          (d : e.Decoder) (c : Piece) (cs : List Piece) (last : Piece)
          → HasRoom d c.bytes c.capacity
          → Decodes (e.decode_to_utf8 d c.bytes c.capacity false).state cs last
          → Decodes d (c ∷ cs) last
      unfolding decode_pieces joined outputs total_read decode_result into_raw
      Decodes-cons d c cs last (n, asks, room) rest =
          let r = e.decode_to_utf8 d c.bytes c.capacity false in
          let next = by.continues d c.bytes c.capacity n asks room in
          record {
            results = decode_result e r ∷ rest.results;
            state = rest.state;
            run = rw (decode_lem d c.bytes c.capacity 0, rest.run, decode_pieces) refl;
            output =
                ap (λ x. x ++ outputs rest.results)
                  (by.writes d c.bytes c.capacity n false asks room)
                ∙ ap (λ x. by.decoded d c.bytes false ++ x)
                    (rest.output ∙ ap (λ s. by.decoded s (joined cs last) true) next)
                ∙ sym (by.append d c.bytes (joined cs last) true);
            read_all = omega (
              arith,
              by.reads d c.bytes c.capacity n false asks room,
              rest.read_all,
              length-append c.bytes (joined cs last),
            );
          }

      decode_pieces-Decodes :
          (d : e.Decoder) (cs : List Piece) (last : Piece)
          → AllHaveRoom d cs last
          → Decodes d cs last
      unfolding decode_pieces joined outputs total_read decode_result into_raw
      decode_pieces-Decodes d [] last (n, asks, room) =
          let r = e.decode_to_utf8 d last.bytes last.capacity true in
          record {
            results = decode_result e r ∷ [];
            state = r.state;
            run = rw (decode_lem d last.bytes last.capacity 1, decode_pieces) refl;
            output = append-nil r.written ∙ by.writes d last.bytes last.capacity n true asks room;
            read_all = omega (arith, by.reads d last.bytes last.capacity n true asks room);
          }
      decode_pieces-Decodes d (c ∷ cs) last (has, rooms) =
          let next = by.continues d c.bytes c.capacity has.0 has.1 has.2 in
          Decodes-cons d c cs last has (
            subst (λ s. Decodes s cs last) (sym next)
              (decode_pieces-Decodes (by.after d c.bytes) cs last rooms))

    -- If the heap is well formed and every output has the room that the decoder asks for, then a
    -- text that is fed in pieces to a handle of `encoding_decoder_new`, the last piece marked as
    -- the last, gives piece by piece the output that `encoding_decode` gives for the whole text;
    -- every byte is read, and `encoding_decoder_free` then leaves the heap as it was, but for the
    -- address that is used up.
    pub encoding_decoder-pieces :
        (encoding : e.Encoding) (cs : List Piece) (last : Piece) (capacity : ℕ) (h : Heap e.Decoder)
        → IsHeap h
        → AllHaveRoom (e.new_decoder encoding) cs last
        → HasRoom (e.new_decoder encoding) (joined cs last) capacity
        → let made = encoding_decoder_new e (some encoding) h in
          let whole =
            encoding_decode e (some encoding) (slice_of (joined cs last)) (some capacity) 1 in
          (results : List DecodeResult) × (g : Heap e.Decoder) × (decode_pieces made.0 cs last
              made.1
            ≡ some (results, g))
          × (outputs results ≡ whole.output)
          × (total_read results ≡ length (joined cs last))
          × (encoding_decoder_free e made.0 g ≡ some (record h { next = h.next + 1 }))
    unfolding encoding_decoder_new encoding_decode decode_result
    encoding_decoder-pieces encoding cs last capacity h heap rooms (n, asks, room) =
        let d = e.new_decoder encoding in
        let done = decode_pieces-Decodes h heap d cs last rooms in
        (
          done.results,
          (into_raw done.state h).1,
          done.run,
          done.output
              ∙ sym (by.writes d (joined cs last) capacity n true asks room)
              ∙ ap (λ b. (e.decode_to_utf8 d b capacity true).written)
                  (sym (input_bytes-slice_of (joined cs last))),
          done.read_all,
          free_lem h heap d done.state,
        )
