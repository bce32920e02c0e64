-- ===== src/Parse/Streaming/Life.antt =====
-- The life of a streaming parser (src/rust/html5ever/lib.rs), whatever it is fed: a relation
-- between the heaps before and after a call.
use lightpanda_browser.Prelude.{
  ℕ, ◌+◌, Bool, ◌||◌, Option, some, ◌==◌, ◌≡◌, refl, sym, ap, ◌∙◌, arith, Option-cases, Bool-cases,
  inl, inr, false,
}
use lightpanda_browser.Ffi.{RawSlice, is_null, read, ℤ, pos}
use lightpanda_browser.Heap.{Heap, null, into_raw}
use lightpanda_browser.Heap.Laws.{
  IsHeap, into_raw-ne-null, cell-into_raw, drop_raw-into_raw, deref_mut-into_raw,
}
use lightpanda_browser.Dom.Sink.{Ref, Zig}
use lightpanda_browser.Parse.{Html5ever}
use lightpanda_browser.Parse.Streaming.{
  html5ever_streaming_parser_create, feed_bytes, html5ever_streaming_parser_feed,
  html5ever_streaming_parser_finish, html5ever_streaming_parser_destroy,
}
use lightpanda_browser.Parse.Streaming.Laws.{finished}

module _ {D : Type 0} (zig : Zig D) (h5 : Html5ever D) where
  -- The heaps that feeding a parser leads to: any bytes, with any code as the result.
  pub data Fed (p : ℕ) (h : Heap h5.Parser) : Heap h5.Parser → Type 0 where
    here : Fed p h h
    next :
        {g : Heap h5.Parser} (html : RawSlice) (code : ℤ) (g' : Heap h5.Parser)
        → Fed p h g
        → html5ever_streaming_parser_feed zig h5 p html g ≡ some (code, g')
        → Fed p h g'

  second_same :
      {A B : Type 0} {a c : A} {b d : B}
      → ◌≡◌ {A = Option (A × B)} (some (a, b)) (some (c, d))
      → d ≡ b
  second_same e = ground (arith, e)

  module _ (h : Heap h5.Parser) (heap : IsHeap h) where
    not_null : (q : h5.Parser) → ((into_raw q h).0 == null) ≡ false
    not_null q = ground (arith, into_raw-ne-null h q heap)

    -- A call on a live parser returns, and the parser stays.
    feed_returns :
        (html : RawSlice) (q : h5.Parser)
        → (code : ℤ) × (q' : h5.Parser) × (html5ever_streaming_parser_feed zig h5
              (into_raw q h).0
              html
              (into_raw q h).1
            ≡ some (code, (into_raw q' h).1))
    unfolding html5ever_streaming_parser_feed
    feed_returns html q =
        elim (Bool-cases ((into_raw q h).0 == null || is_null html.ptr || html.len == 0)) [
          | inl nothing ↦ (pos 0, q, rw nothing refl)
          | inr bytes ↦ (
            (feed_bytes zig h5 (read html) q).1,
            (feed_bytes zig h5 (read html) q).0,
            rw bytes (deref_mut-into_raw h (feed_bytes zig h5 (read html)) q),
          )
        ]

    Fed-into_raw :
        (q : h5.Parser) {g : Heap h5.Parser}
        → Fed (into_raw q h).0 (into_raw q h).1 g
        → (q' : h5.Parser) × (g ≡ (into_raw q' h).1)
    unfolding into_raw
    Fed-into_raw q here = (q, refl)
    Fed-into_raw q (next html code g' fed e) =
        let (q1, same) = Fed-into_raw q fed in
        let (code', q2, returned) = feed_returns html q1 in
        (
          q2,
          second_same (
              sym returned
              ∙ ap (html5ever_streaming_parser_feed zig h5 h.next html) (sym same)
              ∙ e),
        )

    abbrev before : Heap h5.Parser
    before = record h { next = h.next + 1 }

    destroy_lem :
        (q : h5.Parser)
        → html5ever_streaming_parser_destroy zig h5 (into_raw q h).0 (into_raw q h).1 ≡ some before
    unfolding html5ever_streaming_parser_destroy
    destroy_lem q = rw (not_null q) (drop_raw-into_raw h q heap)

    finish_lem :
        (q : h5.Parser)
        → html5ever_streaming_parser_finish zig h5 (into_raw q h).0 (into_raw q h).1
          ≡ finished zig h5 before (h5.finish q)
    unfolding html5ever_streaming_parser_finish
    finish_lem q =
        rw
          (
            not_null q,
            cell-into_raw h q,
            drop_raw-into_raw h q heap,
            html5ever_streaming_parser_finish,
          )
          (elim (Option-cases (h5.finish q)) [ inl e ↦ rw e refl | inr (d, e) ↦ rw e refl ])

    -- Whatever a parser was fed, in any number of calls, and even if it panicked on it: the next
    -- call returns, whatever it is given; cancelling the parser leaves the heap as it was before
    -- the parser was made, but for the address; and so does finishing it, with what `finish` of
    -- the parser that was fed leaves, unless that panics.
    pub streaming_parser_ends :
        (document : Ref) (allow : Bool) (d : D) (html : RawSlice) {g : Heap h5.Parser}
        → Fed
            (html5ever_streaming_parser_create zig h5 document allow d h).0
            (html5ever_streaming_parser_create zig h5 document allow d h).1
            g
        → let p = (html5ever_streaming_parser_create zig h5 document allow d h).0 in
          (q : h5.Parser) × (code : ℤ) × (g' : Heap h5.Parser) × (g.cell p ≡ some q)
          × (html5ever_streaming_parser_feed zig h5 p html g ≡ some (code, g'))
          × (html5ever_streaming_parser_destroy zig h5 p g ≡ some before)
          × (html5ever_streaming_parser_finish zig h5 p g ≡ finished zig h5 before (h5.finish q))
    unfolding html5ever_streaming_parser_create into_raw
    streaming_parser_ends document allow d html fed =
        let (q, same) = Fed-into_raw _ fed in
        let (code, q', returned) = feed_returns html q in
        rw same
          (q, code, (into_raw q' h).1, cell-into_raw h q, returned, destroy_lem q, finish_lem q)
