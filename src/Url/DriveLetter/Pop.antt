-- ===== src/Url/DriveLetter/Pop.antt =====
-- When the fix of src/rust/html5ever/url.rs pops a segment, and which one.
use lightpanda_browser.Prelude.{
  ℕ, ◌+◌, ◌-◌, true, not, ◌||◌, [], ◌∷◌, ◌++◌, some, Bytes, codes, eq_bytes, eq_bytes_iff, ◌==◌,
  ◌≡◌, refl, sym, ap, ◌∙◌, ◌⊎◌, ◌≢◌, inl, inr, arith, take, drop, length, length-append, take_all,
  drop_all, append_assoc, Bool-cases,
}
use lightpanda_browser.Prelude.Search.{
  rfind_last, strip_suffix, strip_suffix_last, first_piece, Lacks,
}
use lightpanda_browser.Url.Crate.{UrlCrate}
use lightpanda_browser.Url.DriveLetter.{
  is_drive_letter_lookalike, first_segment, popped, pop_segment, ends_with_lookalike,
  fix_drive_letter_join, is_ascii_alphabetic,
}

-- `dir/seg/`.
abbrev pub directory : Bytes → Bytes → Bytes
directory dir seg = dir ++ (b'/' ∷ (seg ++ (b'/' ∷ [])))

-- The reference is `..`, alone or in front of a `/`, a `?` or a `#`.
pub data StartsWithParent : Bytes → Type 0 where
  alone : StartsWithParent (codes "..")
  followed :
      (c : ℕ) (rest : Bytes)
      → (c == b'/' || c == b'?' || c == b'#') ≡ true
      → StartsWithParent (b'.' ∷ b'.' ∷ c ∷ rest)

first_segment_parent : {input : Bytes} → StartsWithParent input → first_segment input ≡ codes ".."
unfolding first_segment first_piece
first_segment_parent alone = refl
first_segment_parent (followed c rest h) = ground arith

lookalike-Lacks : (seg : Bytes) → is_drive_letter_lookalike seg ≡ true → Lacks b'/' seg
unfolding is_drive_letter_lookalike is_ascii_alphabetic
lookalike-Lacks (a ∷ b ∷ []) h = ground arith
lookalike-Lacks [] h = cc
lookalike-Lacks (a ∷ []) h = cc
lookalike-Lacks (a ∷ b ∷ c ∷ r) h = cc

directory_regroup : (dir seg : Bytes) → directory dir seg ≡ (dir ++ (b'/' ∷ seg)) ++ b'/' ∷ []
directory_regroup dir seg = sym (append_assoc dir (b'/' ∷ seg) (b'/' ∷ []))

strip-directory :
    (dir seg : Bytes) → strip_suffix b'/' (directory dir seg) ≡ some (dir ++ (b'/' ∷ seg))
strip-directory dir seg =
    rw (directory_regroup dir seg) (strip_suffix_last b'/' (dir ++ (b'/' ∷ seg)))

drop-segment : (dir seg : Bytes) → drop (length dir + 1) (dir ++ (b'/' ∷ seg)) ≡ seg
drop-segment dir seg =
    let size : length dir + 1 ≡ length (dir ++ b'/' ∷ []) =
      omega (arith, length-append dir (b'/' ∷ [])) in
    rw (size, ← append_assoc dir (b'/' ∷ []) seg) (drop_all (dir ++ b'/' ∷ []) seg)

-- The last segment counts, whatever stands before it.
pub ends_with_lookalike_lem :
    (dir seg : Bytes)
    → Lacks b'/' seg
    → ends_with_lookalike (directory dir seg) ≡ is_drive_letter_lookalike seg
unfolding ends_with_lookalike
ends_with_lookalike_lem dir seg h =
    rw (
      strip-directory dir seg,
      rfind_last b'/' dir seg h,
      drop-segment dir seg,
      ends_with_lookalike,
    )

-- Without its last segment.
pub popped_lem :
    (dir seg : Bytes) → Lacks b'/' seg → popped (directory dir seg) ≡ some (dir ++ b'/' ∷ [])
unfolding popped
popped_lem dir seg h =
    let size : length (directory dir seg) - 1 ≡ length (dir ++ (b'/' ∷ seg)) = omega (
      arith,
      length-append dir (b'/' ∷ seg),
      length-append dir (b'/' ∷ (seg ++ b'/' ∷ [])),
      length-append seg (b'/' ∷ []),
    ) in
    let front : take (length (directory dir seg) - 1) (directory dir seg) ≡ dir ++ (b'/' ∷ seg) =
      rw (size, directory_regroup dir seg) (take_all (dir ++ (b'/' ∷ seg)) (b'/' ∷ [])) in
    let size' : length dir + 1 ≡ length (dir ++ b'/' ∷ []) =
      omega (arith, length-append dir (b'/' ∷ [])) in
    let kept : take (length dir + 1) (directory dir seg) ≡ dir ++ b'/' ∷ [] =
      rw (size', ← append_assoc dir (b'/' ∷ []) (seg ++ b'/' ∷ []))
        (take_all (dir ++ b'/' ∷ []) (seg ++ b'/' ∷ [])) in
    rw (strip-directory dir seg, front, rfind_last b'/' dir seg h, kept, popped)

module _ (u : UrlCrate) (base joined : u.Url) (input : Bytes) where
  open u use {Url, scheme, path, set_path}

  fix-pop_segment :
      (dir seg : Bytes)
      → scheme base ≢ codes "file"
      → scheme joined ≢ codes "file"
      → StartsWithParent input
      → is_drive_letter_lookalike seg ≡ true
      → path base ≡ directory dir seg
      → fix_drive_letter_join u base input joined ≡ pop_segment u joined
  unfolding fix_drive_letter_join
  fix-pop_segment dir seg nf nf' st like pb =
      let ends : ends_with_lookalike (path base) ≡ true =
        rw pb (ends_with_lookalike_lem dir seg (lookalike-Lacks seg like) ∙ like) in
      ground (
        arith,
        ends,
        eq_bytes_iff (scheme base) (codes "file"),
        eq_bytes_iff (scheme joined) (codes "file"),
        eq_bytes_iff (first_segment input) (codes ".."),
        first_segment_parent st,
      )

  -- For a base and a result that are no `file` URLs, a reference that starts with `..`, and a base
  -- path that ends in a segment like a drive letter with a slash: if the join kept that segment,
  -- which is the fault that is worked around, the fix replaces the path by the one without it.
  pub fix_pops :
      (dir seg : Bytes)
      → scheme base ≢ codes "file"
      → scheme joined ≢ codes "file"
      → StartsWithParent input
      → is_drive_letter_lookalike seg ≡ true
      → path base ≡ directory dir seg
      → path joined ≡ directory dir seg
      → fix_drive_letter_join u base input joined ≡ set_path joined (dir ++ b'/' ∷ [])
  unfolding pop_segment
  fix_pops dir seg nf nf' st like pb pj =
      fix-pop_segment dir seg nf nf' st like pb
      ∙ rw (pj, popped_lem dir seg (lookalike-Lacks seg like), pop_segment)

  -- The fix pops the last segment of the result, not the one of the base: for a base and a result
  -- that are no `file` URLs, a reference that starts with `..`, and a base path that ends in a
  -- segment like a drive letter with a slash, if the join kept that segment and put `name/` behind
  -- it, then `name` goes and the segment stays.
  pub fix_pops_last :
      (dir seg name : Bytes)
      → scheme base ≢ codes "file"
      → scheme joined ≢ codes "file"
      → StartsWithParent input
      → is_drive_letter_lookalike seg ≡ true
      → Lacks b'/' name
      → path base ≡ directory dir seg
      → path joined ≡ directory (dir ++ (b'/' ∷ seg)) name
      → fix_drive_letter_join u base input joined ≡ set_path joined (path base)
  unfolding pop_segment
  fix_pops_last dir seg name nf nf' st like lacks pb pj =
      fix-pop_segment dir seg nf nf' st like pb
      ∙ rw (pj, popped_lem (dir ++ (b'/' ∷ seg)) name lacks, pop_segment)
          (ap (set_path joined) (sym (pb ∙ directory_regroup dir seg)))

  -- The URL is left alone unless neither scheme is `file`, the reference's first segment is `..`
  -- and the base path ends in a segment like a drive letter with a slash; then its path changes at
  -- most by the loss of its last segment.
  pub fix_changes :
      (fix_drive_letter_join u base input joined ≡ joined)
      ⊎ ((scheme base ≢ codes "file")
          × (scheme joined ≢ codes "file")
          × (first_segment input ≡ codes "..")
          × (ends_with_lookalike (path base) ≡ true)
          × (fix_drive_letter_join u base input joined ≡ pop_segment u joined))
  unfolding fix_drive_letter_join
  fix_changes =
      let skips =
        eq_bytes (scheme base) (codes "file")
        || eq_bytes (scheme joined) (codes "file")
        || not (eq_bytes (first_segment input) (codes ".."))
        || not (ends_with_lookalike (path base)) in
      elim (Bool-cases skips) [
        | inl skip ↦ inl (ground arith)
        | inr go ↦ inr (
          ground (arith, eq_bytes_iff (scheme base) (codes "file")),
          ground (arith, eq_bytes_iff (scheme joined) (codes "file")),
          ground (arith, eq_bytes_iff (first_segment input) (codes "..")),
          ground arith,
          ground arith,
        )
      ]
