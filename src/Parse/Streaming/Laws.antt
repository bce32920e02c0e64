-- ===== src/Parse/Streaming/Laws.antt =====
-- A document in chunks (src/rust/html5ever/lib.rs): the life of a streaming parser.
use lightpanda_browser.Prelude.{
  ℕ, ◌+◌, Bool, true, false, not, ◌||◌, List, [], ◌∷◌, Option, none, some, Bytes, ◌==◌, is_empty,
  if◌then◌else◌, ◌≡◌, refl, ap, arith, Option-cases, Bool-cases, inl, inr,
}
use lightpanda_browser.Prelude.Utf8.{is_utf8, from_utf8}
use lightpanda_browser.Ffi.{slice_of, ℤ, pos, minus_one}
use lightpanda_browser.Heap.{Heap, null, into_raw, drop_raw, update, deref_mut}
use lightpanda_browser.Heap.Laws.{IsHeap, update_back, update_at, update_same, update_twice}
use lightpanda_browser.Dom.Sink.{Ref, Zig}
use lightpanda_browser.Parse.{Html5ever, new_parse_sink}
use lightpanda_browser.Parse.Agreement.{read-slice_of, length-ne-zero}
use lightpanda_browser.Parse.Streaming.{
  html5ever_streaming_parser_create, feed_bytes, html5ever_streaming_parser_feed,
  html5ever_streaming_parser_finish,
}

is_empty_lem : (c : Bytes) → is_empty c ≡ true → c ≡ []
unfolding is_empty
is_empty_lem [] e = refl
is_empty_lem (x ∷ c) e = absurd (ground (arith, e))

module _ {D : Type 0} (zig : Zig D) (h5 : Html5ever D) where
  -- The chunks in turn, each with its code; `none` is a dead pointer.
  unfoldable pub feed_all : ℕ → List Bytes → Heap h5.Parser → Option (List ℤ × Heap h5.Parser)
  feed_all p [] h = some ([], h)
  feed_all p (c ∷ cs) h = elim (html5ever_streaming_parser_feed zig h5 p (slice_of c) h) [
    | none ↦ none
    | some (code, g) ↦ elim (feed_all p cs g) [
      | none ↦ none
      | some (codes, k) ↦ some (code ∷ codes, k)
    ]
  ]

  -- Made, fed with the chunks in turn, and finished: the codes, the end, and the heap.
  unfoldable pub stream :
      List Bytes → Ref → Bool → D → Heap h5.Parser → Option (List ℤ × Option D × Heap h5.Parser)
  stream chunks document allow d h =
      let (p, g) = html5ever_streaming_parser_create zig h5 document allow d h in
      elim (feed_all p chunks g) [
        | none ↦ none
        | some (codes, g') ↦ elim (html5ever_streaming_parser_finish zig h5 p g') [
          | none ↦ none
          | some (end, k) ↦ some (codes, end, k)
        ]
      ]

  -- The chunks that reach the parser: whole texts that are not empty.
  unfoldable pub texts : List Bytes → List Bytes
  texts [] = []
  texts (c ∷ cs) = let rest = texts cs in if is_empty c || not (is_utf8 c) then rest else c ∷ rest

  -- The parser behind some texts.
  unfoldable pub fed : h5.Parser → List Bytes → h5.Parser
  fed q [] = q
  fed q (t ∷ ts) = fed (h5.process q t).0 ts

  -- The codes of the chunks: -1 exactly for a text that the parser panics on.
  unfoldable pub answers : h5.Parser → List Bytes → List ℤ
  answers q [] = []
  answers q (c ∷ cs) =
      let left_out = pos 0 ∷ answers q cs in
      let (q', panicked) = h5.process q c in
      let taken = (if panicked then minus_one else pos 0) ∷ answers q' cs in
      if is_empty c || not (is_utf8 c) then left_out else taken

  -- The heap with a new parser at `p`.
  abbrev put : ℕ → h5.Parser → Heap h5.Parser → Heap h5.Parser
  put p q h = record h { cell = update h.cell p (some q) }

  -- Bytes that are there reach the closure.
  feed_deref :
      (c : Bytes) (p : ℕ) (h : Heap h5.Parser)
      → (p == null) ≡ false
      → is_empty c ≡ false
      → html5ever_streaming_parser_feed zig h5 p (slice_of c) h
        ≡ deref_mut (feed_bytes zig h5 c) p h
  unfolding html5ever_streaming_parser_feed
  feed_deref c p h live ne =
      rw (live, length-ne-zero c ne, html5ever_streaming_parser_feed)
        (ap (λ b. deref_mut (feed_bytes zig h5 b) p h) (read-slice_of c))

  -- What a chunk of any bytes does to a live parser `q`: the call returns, and no other object
  -- changes. A chunk in UTF-8 is processed, and the code is -1 if the parser panicked on it and
  -- else 0; a chunk that is not UTF-8 is left out whole, and the code is 0.
  feed_outcome :
      (c : Bytes) (p : ℕ) (q : h5.Parser) (h : Heap h5.Parser)
      → (p == null) ≡ false
      → is_empty c ≡ false
      → h.cell p ≡ some q
      → html5ever_streaming_parser_feed zig h5 p (slice_of c) h ≡ (
          if is_utf8 c
          then some (if (h5.process q c).1 then minus_one else pos 0, put p (h5.process q c).0 h)
          else some (pos 0, h))
  unfolding feed_bytes from_utf8 deref_mut
  feed_outcome c p q h live ne at = elim (Bool-cases (is_utf8 c)) [
    | inl valid ↦ rw (feed_deref c p h live ne, at, valid, deref_mut, feed_bytes, from_utf8) refl
    | inr bad ↦
        rw
          (
            feed_deref c p h live ne,
            at,
            bad,
            update_same h.cell p (some q) at,
            deref_mut,
            feed_bytes,
            from_utf8,
          )
          refl
  ]

  feed_nothing :
      (p : ℕ) (h : Heap h5.Parser)
      → html5ever_streaming_parser_feed zig h5 p (slice_of []) h ≡ some (pos 0, h)
  unfolding html5ever_streaming_parser_feed
  feed_nothing p h = ground arith

  feed_all-fed :
      (p : ℕ) (live : (p == null) ≡ false) (cs : List Bytes) (q : h5.Parser) (h : Heap h5.Parser)
      → h.cell p ≡ some q
      → feed_all p cs h ≡ some (answers q cs, put p (fed q (texts cs)) h)
  unfolding feed_all answers fed texts is_empty
  feed_all-fed p live [] q h at = rw (update_same h.cell p (some q) at) refl
  feed_all-fed p live (c ∷ cs) q h at = elim (Bool-cases (is_empty c)) [
    | inl empty ↦
        rw (is_empty_lem c empty, feed_nothing p h, feed_all-fed p live cs q h at, feed_all) refl
    | inr there ↦ elim (Bool-cases (is_utf8 c)) [
      | inl text ↦
          rw
            (
              feed_outcome c p q h live there at,
              text,
              there,
              feed_all-fed p live cs (h5.process q c).0 (put p (h5.process q c).0 h)
                  (update_at h.cell p (some (h5.process q c).0)),
              update_twice h.cell p,
              feed_all,
            )
            refl
      | inr other ↦
          rw
            (
              feed_outcome c p q h live there at,
              other,
              there,
              feed_all-fed p live cs q h at,
              feed_all,
            )
            refl
    ]
  ]

  -- What the end of a live parser's life leaves.
  abbrev pub finished : Heap h5.Parser → Option D → Option (Option D × Heap h5.Parser)
  finished h none = none
  finished h (some d) = some (some d, h)

  drop_put :
      (p : ℕ) (q : h5.Parser) (h : Heap h5.Parser)
      → drop_raw p (put p q h) ≡ some (record h { cell = update h.cell p none })
  unfolding drop_raw
  drop_put p q h = rw (update_at h.cell p (some q), update_twice h.cell p (some q) none, drop_raw)

  finish_put :
      (p : ℕ) (q : h5.Parser) (h : Heap h5.Parser)
      → (p == null) ≡ false
      → html5ever_streaming_parser_finish zig h5 p (put p q h)
        ≡ finished (record h { cell = update h.cell p none }) (h5.finish q)
  unfolding html5ever_streaming_parser_finish
  finish_put p q h live =
      rw (live, update_at h.cell p (some q), drop_put p q h, html5ever_streaming_parser_finish)
        (elim (Option-cases (h5.finish q)) [ inl e ↦ rw e refl | inr (d, e) ↦ rw e refl ])

  -- A parser that is made on a well-formed heap, fed with any chunks, and finished: the codes are
  -- -1 exactly for the chunks that the parser panics on, what is left is what finishing the parser
  -- leaves behind the chunks that are UTF-8 and not empty, each processed once and in order, also
  -- behind a panic, and the heap is as it was, but for the address. If finishing panics, the
  -- process ends.
  pub stream-fed :
      (chunks : List Bytes) (document : Ref) (allow : Bool) (d : D) (h : Heap h5.Parser)
      → IsHeap h
      → let parser = h5.parse_document (new_parse_sink zig h5 d document allow) h5.default_opts in
        stream chunks document allow d h ≡ elim (h5.finish (fed parser (texts chunks))) [
          | none ↦ none
          | some end ↦ some (answers parser chunks, some end, record h { next = h.next + 1 })
        ]
  unfolding stream html5ever_streaming_parser_create into_raw
  stream-fed chunks document allow d h heap =
      let parser = h5.parse_document (new_parse_sink zig h5 d document allow) h5.default_opts in
      let live : (h.next == null) ≡ false = ground (arith, heap.positive) in
      let made : Heap h5.Parser = record {
        next = h.next + 1;
        cell = update h.cell h.next (some parser);
      } in
      let back : update made.cell h.next none ≡ h.cell =
        update_back h.cell h.next (some parser) (heap.fresh_dead h.next (omega arith)) in
      rw
        (
          feed_all-fed h.next live chunks parser made (update_at h.cell h.next (some parser)),
          finish_put h.next (fed parser (texts chunks)) made live,
          stream,
        )
        (elim (Option-cases (h5.finish (fed parser (texts chunks)))) [
          | inl e ↦ rw e refl
          | inr (end, e) ↦ rw e (λ i.
              some (answers parser chunks, some end, record { next = h.next + 1; cell = back i }))
        ])
