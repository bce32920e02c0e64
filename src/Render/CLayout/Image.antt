-- ===== src/Render/CLayout/Image.antt =====
-- A struct in memory: its fields' bytes at their offsets, with any bytes as padding.
use Prim.Native.String.{String}
use text.Mathlib.Text.{◌==◌}
use text.Mathlib.TextEquality.{eq_iff}
use lightpanda_browser.Prelude.{
  ℕ, zero, suc, ◌+◌, ◌-◌, List, [], ◌∷◌, ◌++◌, Option, none, some, Bytes, length, length-append,
  take_all, append_assoc, if◌then◌else◌, ◌≡◌, refl, ap, sym, ◌∙◌, inl, inr, arith, Bool-cases,
}
use lightpanda_browser.Prelude.Slices.{slice}
use lightpanda_browser.Render.CLayout.{
  Repr, Struct, round_up, end_from, align_of, size_of, locate_from, locate,
}
use lightpanda_browser.Render.CLayout.Divides.{round_up-le}
use lightpanda_browser.Render.CLayout.Laws.{
  IsStruct, align_pos, align_of-pos, locate_from_cases, locate_from-IsPlaced,
}

-- A field's value, as its bytes.
pub record Value : Type 0 where
  pub name : String
  pub align : ℕ
  pub bytes : Bytes

unfoldable pub shape : List Value → Struct
shape [] = []
shape (v ∷ vs) = (v.name, record { size = length v.bytes; align = v.align }) ∷ shape vs

unfoldable pub value_of : String → List Value → Option Bytes
value_of field [] = none
value_of field (v ∷ vs) = if v.name == field then some v.bytes else value_of field vs

slice_skip :
    {A : Type 0} (n size : ℕ) (xs ys : List A)
    → slice (length xs + n) size (xs ++ ys) ≡ slice n size ys
unfolding slice
slice_skip n size [] ys = ap (λ k. slice k size ys) (omega arith)
slice_skip n size (x ∷ xs) ys =
    let e : length (x ∷ xs) + n ≡ suc (length xs + n) = omega arith in
    ap (λ k. slice k size (x ∷ xs ++ ys)) e ∙ slice_skip n size xs ys

slice_first :
    (n : ℕ) (xs ys zs rest : Bytes)
    → n ≡ length xs
    → slice n (length ys) ((xs ++ (ys ++ zs)) ++ rest) ≡ ys
slice_first n xs ys zs rest e =
    rw (append_assoc xs (ys ++ zs) rest, append_assoc ys zs rest)
      (ap (λ k. slice k (length ys) (xs ++ (ys ++ (zs ++ rest)))) (omega (arith, e))
        ∙ slice_skip 0 (length ys) xs (ys ++ (zs ++ rest))
        ∙ unfold slice in take_all ys (zs ++ rest))

slice_later :
    (n m size : ℕ) (xs ys zs rest : Bytes)
    → n ≡ length xs + (length ys + m)
    → slice n size ((xs ++ (ys ++ zs)) ++ rest) ≡ slice m size (zs ++ rest)
slice_later n m size xs ys zs rest e =
    rw (append_assoc xs (ys ++ zs) rest, append_assoc ys zs rest)
      (ap (λ k. slice k size (xs ++ (ys ++ (zs ++ rest)))) e
        ∙ slice_skip (length ys + m) size xs (ys ++ (zs ++ rest))
        ∙ slice_skip m size ys (zs ++ rest))

value_of-locate_from :
    (at : ℕ) (field : String) (vs : List Value) {b : Bytes}
    → value_of field vs ≡ some b
    → (start : ℕ) × (r : Repr) × (locate_from at field (shape vs) ≡ some (start, r))
      × (r.size ≡ length b)
unfolding value_of shape locate_from
value_of-locate_from at field [] value = absurd (ground (arith, value))
value_of-locate_from at field (v ∷ vs) {b} value = elim (Bool-cases (v.name == field)) [
  | inl here ↦
      let e : v.bytes ≡ b = ground (arith, here, value) in
      (
        round_up at v.align,
        record { size = length v.bytes; align = v.align },
        rw here refl,
        ap length e,
      )
  | inr apart ↦
      let (start, r, found, sized) =
        value_of-locate_from (round_up at v.align + length v.bytes) field vs
          (ground (arith, apart, value)) in
      (start, r, rw apart found, sized)
]

-- A field that has a value has an offset.
pub value_of-locate :
    (field : String) (vs : List Value) {b : Bytes}
    → value_of field vs ≡ some b
    → (start : ℕ) × (r : Repr) × (locate field (shape vs) ≡ some (start, r)) × (r.size ≡ length b)
unfolding locate
value_of-locate field vs value = value_of-locate_from 0 field vs value

module _ (pad : ℕ → ℕ) where
  unfoldable pub fill : (from count : ℕ) → Bytes
  fill from zero = []
  fill from (suc n) = pad from ∷ fill (from + 1) n

  unfoldable pub image_from : ℕ → List Value → Bytes
  unfolding fill
  image_from at [] = []
  image_from at (v ∷ vs) =
      fill at (round_up at v.align - at)
      ++ (v.bytes ++ image_from (round_up at v.align + length v.bytes) vs)

  unfoldable pub image : List Value → Bytes
  unfolding image_from
  image vs =
      let end = end_from 0 (shape vs) in image_from 0 vs ++ fill end (size_of (shape vs) - end)

  length-fill : (from n : ℕ) → length (fill from n) ≡ n
  unfolding fill
  length-fill from zero = refl
  length-fill from (suc n) = ap suc (length-fill (from + 1) n)

  length-image_from :
      (at : ℕ) (vs : List Value)
      → IsStruct (shape vs)
      → at + length (image_from at vs) ≡ end_from at (shape vs)
  unfolding image_from end_from shape
  length-image_from at [] is = omega arith
  length-image_from at (v ∷ vs) (one, is) =
      let start = round_up at v.align in
      let next = image_from (start + length v.bytes) vs in
      omega (
        arith,
        length-append (fill at (start - at)) (v.bytes ++ next),
        length-append v.bytes next,
        length-fill at (start - at),
        round_up-le at v.align (align_pos one),
        length-image_from (start + length v.bytes) vs is,
      )

  -- A struct's image has the struct's size.
  pub length-image :
      (vs : List Value) → IsStruct (shape vs) → length (image vs) ≡ size_of (shape vs)
  unfolding image size_of
  length-image vs is =
      let end = end_from 0 (shape vs) in
      omega (
        arith,
        length-append (image_from 0 vs) (fill end (size_of (shape vs) - end)),
        length-fill end (size_of (shape vs) - end),
        length-image_from 0 vs is,
        round_up-le end (align_of (shape vs)) (align_of-pos (shape vs) is),
      )

  read_from :
      (at : ℕ) (field : String) (vs : List Value) (rest : Bytes) {o : ℕ} {r : Repr} {b : Bytes}
      → IsStruct (shape vs)
      → locate_from at field (shape vs) ≡ some (o, r)
      → value_of field vs ≡ some b
      → slice (o - at) r.size (image_from at vs ++ rest) ≡ b
  unfolding locate_from shape value_of image_from
  read_from at field [] rest is found value = cc
  read_from at field (v ∷ vs) rest {o} {r} {b} (one, is) found value =
      let start = round_up at v.align in
      let after = start + length v.bytes in
      let pads = length-fill at (start - at) in
      let type : Repr = record { size = length v.bytes; align = v.align } in
      elim (locate_from_cases at field v.name type (shape vs) found) [
        | inl (here, there, same) ↦
            let n : r.size ≡ length v.bytes = sym (ap (λ (x : Repr). x.size) same) in
            ap (λ k. slice (o - at) k (image_from at (v ∷ vs) ++ rest)) n
            ∙ slice_first (o - at) (fill at (start - at)) v.bytes (image_from after vs) rest
                (omega (arith, pads, there))
            ∙ ground (arith, value, here, eq_iff v.name field)
        | inr (apart, found) ↦
            let placed = locate_from-IsPlaced after field (shape vs) is found in
            slice_later (o - at) (o - after) r.size (fill at (start - at)) v.bytes
              (image_from after vs) rest
              (omega (arith, pads, placed.behind, round_up-le at v.align (align_pos one)))
            ∙ read_from after field vs rest is found (ground (arith, apart, value))
      ]

  -- Reading at a field's offset, over the size of its type, gives the field's bytes.
  pub read-image :
      (field : String) (vs : List Value) {o : ℕ} {r : Repr} {b : Bytes}
      → IsStruct (shape vs)
      → locate field (shape vs) ≡ some (o, r)
      → value_of field vs ≡ some b
      → slice o r.size (image vs) ≡ b
  unfolding image locate
  read-image field vs {o} {r} is found value =
      let end = end_from 0 (shape vs) in
      ap (λ k. slice k r.size (image vs)) (omega arith)
      ∙ read_from 0 field vs (fill end (size_of (shape vs) - end)) is found value
