-- ===== src/Url/Buffers/Laws.antt =====
-- Every buffer of src/rust/html5ever/url.rs is freed with the length of its allocation.
use lightpanda_browser.Prelude.{
  ℕ, ◌+◌, true, [], ◌∷◌, ◌++◌, Option, none, some, Bytes, ◌==◌, length, length-append, ◌≡◌, refl,
  arith,
}
use lightpanda_browser.Ffi.{RawSlice, str_from}
use lightpanda_browser.Heap.{into_raw}
use lightpanda_browser.Heap.Laws.{IsHeap, cell-into_raw, drop_raw-into_raw}
use lightpanda_browser.Url.Buffers.{
  BytePtr, boxed, Boxes, box_bytes, free_sized, Ascii, ok, err, panicked, finish_to_ascii,
  lpurl_domain_to_ascii, lpurl_free, free_owned_string, own,
}

-- The same live boxes; addresses may have been used up.
abbrev pub SameCells : Boxes → Boxes → Type 0
SameCells g h = g.cell ≡ h.cell

length_refl : (n : ℕ) → (n == n) ≡ true
length_refl n = ground arith

module _ (h : Boxes) (i : IsHeap h) where
  free_boxed :
      (c : ℕ) (cs : Bytes)
      → free_sized (boxed (into_raw (c ∷ cs) h).0) (length (c ∷ cs)) (into_raw (c ∷ cs) h).1
        ≡ some (record h { next = h.next + 1 })
  unfolding free_sized
  free_boxed c cs =
      rw (cell-into_raw h (c ∷ cs), length_refl (length (c ∷ cs)), free_sized)
        (drop_raw-into_raw h (c ∷ cs) i)

  -- An owned string of any length, the empty one included, is freed with no fault, and the live
  -- boxes are then those from before it was made.
  pub free_owned_string-own :
      (s : Bytes)
      → (g : Boxes) × (free_owned_string (own s h).0 (own s h).1 ≡ some g) × SameCells g h
  unfolding free_owned_string own box_bytes
  free_owned_string-own [] = (h, refl, refl)
  free_owned_string-own (c ∷ cs) =
      (record h { next = h.next + 1 }, ground (arith, free_boxed c cs), refl)

  -- The outcome of `lpurl_domain_to_ascii`: on failure 1, with nothing written and no box made; on
  -- success 0, a box that holds the name and a NUL, and the length of the name without it, with
  -- which `lpurl_free` frees the box.
  abbrev pub Converts : Ascii → ℕ × Option (BytePtr × ℕ) × Boxes → Type 0
  Converts (ok ascii) r =
      (p : ℕ) × (r.0 ≡ 0)
      × (r.1 ≡ some (boxed p, length ascii))
      × (r.2.cell p ≡ some (ascii ++ 0 ∷ []))
      × (g : Boxes) × (lpurl_free (boxed p) (length ascii) r.2 ≡ some g)
      × SameCells g h
  Converts err r = r ≡ (1, none, h)
  Converts panicked r = r ≡ (1, none, h)

  box_snoc :
      (s : Bytes)
      → box_bytes (s ++ 0 ∷ []) h
        ≡ (boxed (into_raw (s ++ 0 ∷ []) h).0, (into_raw (s ++ 0 ∷ []) h).1)
  unfolding box_bytes
  box_snoc [] = refl
  box_snoc (c ∷ cs) = refl

  free_snoc :
      (s : Bytes)
      → lpurl_free (boxed (into_raw (s ++ 0 ∷ []) h).0) (length s) (into_raw (s ++ 0 ∷ []) h).1
        ≡ some (record h { next = h.next + 1 })
  unfolding lpurl_free free_sized
  free_snoc s =
      let size : (length (s ++ 0 ∷ []) == length s + 1) ≡ true =
        ground (arith, length-append s (0 ∷ [])) in
      rw (cell-into_raw h (s ++ 0 ∷ []), size, lpurl_free, free_sized)
        (drop_raw-into_raw h (s ++ 0 ∷ []) i)

  finish-Converts : (a : Ascii) → Converts a (finish_to_ascii a h)
  unfolding finish_to_ascii
  finish-Converts err = refl
  finish-Converts panicked = refl
  finish-Converts (ok ascii) =
      let p = (into_raw (ascii ++ 0 ∷ []) h).0 in
      rw (box_snoc ascii, finish_to_ascii)
        (
          p,
          refl,
          refl,
          cell-into_raw h (ascii ++ 0 ∷ []),
          record h { next = h.next + 1 },
          free_snoc ascii,
          refl,
        )

  -- A host that is UTF-8 is converted, or refused, as `Converts` says, a panic included.
  pub lpurl_domain_to_ascii-Converts :
      (to_ascii : Bytes → Ascii) (raw : RawSlice) (host : Bytes)
      → str_from raw ≡ some host
      → Converts (to_ascii host) (lpurl_domain_to_ascii to_ascii raw h)
  unfolding lpurl_domain_to_ascii
  lpurl_domain_to_ascii-Converts to_ascii raw host e =
      rw (e, lpurl_domain_to_ascii) (finish-Converts (to_ascii host))
