-- ===== src/Encoding/Api/Pieces/Tests.antt =====
-- A text in pieces at a concrete decoder whose state matters: it keeps every second byte.
use lightpanda_browser.Prelude.{
  ℕ, zero, suc, ◌≤◌, ◌≡◌, refl, ap, Bool, true, false, not, List, [], ◌∷◌, ◌++◌, Option, none, some,
  Bytes, codes, length, take, arith,
}
use lightpanda_browser.Ffi.{slice_of, read}
use lightpanda_browser.Heap.{Heap}
use lightpanda_browser.Heap.Laws.{IsHeap}
use lightpanda_browser.Encoding.{CoderResult, EncodingRs}
use lightpanda_browser.Encoding.Example.{copying}
use lightpanda_browser.Encoding.Api.{
  DecodeResult, input_bytes, decode_result, encoding_decode, encoding_decoder_new,
  encoding_decoder_free,
}
use lightpanda_browser.Encoding.Api.Pieces.{
  DecodesInPieces, Piece, joined, outputs, total_read, decode_pieces, encoding_decoder-pieces,
}

-- The first byte is kept if the state is `true`.
unfoldable every_second : Bool → Bytes → Bytes
every_second keep [] = []
every_second true (c ∷ s) = c ∷ every_second false s
every_second false (c ∷ s) = every_second true s

unfoldable keeps_next : Bool → Bytes → Bool
keeps_next keep [] = keep
keeps_next keep (c ∷ s) = keeps_next (not keep) s

every_second-append :
    (keep : Bool) (a b : Bytes)
    → every_second keep (a ++ b) ≡ every_second keep a ++ every_second (keeps_next keep a) b
unfolding every_second keeps_next
every_second-append keep [] b = refl
every_second-append true (c ∷ a) b = ap (λ s. c ∷ s) (every_second-append false a b)
every_second-append false (c ∷ a) b = every_second-append true a b

take_whole : (n : ℕ) (s : Bytes) → length s ≤ n → take n s ≡ s
take_whole zero [] le = refl
take_whole (suc n) [] le = refl
take_whole zero (c ∷ s) le = absurd (omega (arith, le))
take_whole (suc n) (c ∷ s) le = ap (λ t. c ∷ t) (take_whole n s (omega arith))

abbrev halving : EncodingRs
halving = record copying {
  Decoder = Bool;
  new_decoder = λ a. true;
  max_utf8_buffer_length = λ d n. some n;
  decode_to_utf8 = λ d input capacity last. record {
    result = CoderResult.input_empty;
    bytes_read = length (take capacity input);
    written = every_second d (take capacity input);
    had_errors = false;
    state = keeps_next d (take capacity input);
  };
}

room_lem :
    (input : Bytes) (capacity n : ℕ)
    → (Option.some (length input) ≡ some n)
    → n ≤ capacity
    → take capacity input ≡ input
room_lem input capacity n asks le = take_whole capacity input (ground arith)

halving-DecodesInPieces : DecodesInPieces halving
halving-DecodesInPieces = record {
  decoded = λ d b last. every_second d b;
  after = keeps_next;
  reads = λ d input capacity n last asks le. ap length (room_lem input capacity n asks le);
  writes =
      λ d input capacity n last asks le. ap (every_second d) (room_lem input capacity n asks le);
  continues = λ d input capacity n asks le. ap (keeps_next d) (room_lem input capacity n asks le);
  append = λ d a b last. every_second-append d a b;
}

abbrev no_decoders : Heap Bool
no_decoders = record { next = 1; cell = λ p. none }

no_decoders-IsHeap : IsHeap no_decoders
no_decoders-IsHeap = record { positive = omega arith; null_dead = refl; fresh_dead = λ p le. refl }

abbrev piece : Bytes → Piece
piece b = record { bytes = b; capacity = length b }

abbrev first_pieces : List Piece
first_pieces = piece (codes "abc") ∷ piece (codes "d") ∷ []

abbrev last_piece : Piece
last_piece = piece (codes "efg")

encoding_decoder-pieces_example :
    let made = encoding_decoder_new halving (some tt) no_decoders in
    let whole = encoding_decode halving (some tt) (slice_of (codes "abcdefg")) (some 7) 1 in
    (results : List DecodeResult) × (g : Heap Bool) × (decode_pieces halving made.0 first_pieces
        last_piece made.1
      ≡ some (results, g))
    × (outputs results ≡ whole.output)
    × (total_read results ≡ 7)
    × (encoding_decoder_free halving made.0 g ≡ some (record no_decoders { next = 2 }))
unfolding joined
encoding_decoder-pieces_example =
    encoding_decoder-pieces halving halving-DecodesInPieces tt first_pieces last_piece 7 no_decoders
      no_decoders-IsHeap ((3, refl, omega arith), ((1, refl, omega arith), (3, refl, omega arith)))
      (7, refl, omega arith)

whole_output :
    (encoding_decode halving (some tt) (slice_of (codes "abcdefg")) (some 7) 1).output
    ≡ codes "aceg"
unfolding encoding_decode decode_result input_bytes read every_second
whole_output = refl
