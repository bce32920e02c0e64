-- ===== src/Render/Raster/Laws.antt =====
-- The bounds of the pixmap and of the crop.
use lightpanda_browser.Prelude.{ℕ, ◌+◌, ◌-◌, ◌*◌, ◌/◌, ◌≤◌, ltb, Bool-cases, inl, inr, arith}
use native.Mathlib.Nat.{div-add-mod, mul-le-mul_left}
use lightpanda_browser.Render.Float.{Float}
use lightpanda_browser.Render.Raster.{
  LpRenderOpts, max_raster_dim, max_raster_pixels, raster_size, crop_rect, max_nat, min_nat,
  clamp_dim, scaled,
}

clamp_dim_bounds : (n : ℕ) → (1 ≤ clamp_dim n) × (clamp_dim n ≤ max_raster_dim)
clamp_dim_bounds n = (ground arith, ground arith)

quotient-mul : (n m : ℕ) → m * (n / m) ≤ n
quotient-mul n m = let e = div-add-mod n m in omega (arith, e)

min_nat-le : (a b : ℕ) → (min_nat a b ≤ a) × (min_nat a b ≤ b)
min_nat-le a b = (ground arith, ground arith)

row_limit :
    (pw : ℕ) → pw ≤ max_raster_dim → pw * max_nat (max_raster_pixels / pw) 1 ≤ max_raster_pixels
row_limit pw narrow = elim (Bool-cases (ltb (max_raster_pixels / pw) 1)) [
  | inl none_left ↦ rw none_left (omega (arith, narrow))
  | inr some_left ↦ rw some_left (quotient-mul max_raster_pixels pw)
]

height_bounds :
    (pw a : ℕ)
    → pw ≤ max_raster_dim
    → 1 ≤ a
    → (1 ≤ min_nat a (max_nat (max_raster_pixels / pw) 1))
      × (pw * min_nat a (max_nat (max_raster_pixels / pw) 1) ≤ max_raster_pixels)
height_bounds pw a narrow some_rows =
    let limit = row_limit pw narrow in
    let fewer = mul-le-mul_left pw (min_nat-le a (max_nat (max_raster_pixels / pw) 1)).1 in
    (ground arith, omega (arith, limit, fewer))

-- A part from `from` on, cut at the side of a picture.
cut_bounds :
    (from len side : ℕ)
    → 1 ≤ side
    → 1 ≤ len
    → (1 ≤ min_nat len (side - min_nat from (side - 1)))
      × (min_nat from (side - 1) + min_nat len (side - min_nat from (side - 1)) ≤ side)
cut_bounds from len side wide long = (ground arith, ground arith)

module _ (single double : Float) (widen : single.F → double.F) where
  -- Whatever the options and the height are, with a scale that is not a number too, the pixmap
  -- has at least one pixel, at most 16384 on a side and at most 64 << 20 in all.
  pub raster_size_bounds :
      (opts : LpRenderOpts single.F) (out_h : ℕ)
      → let size = raster_size single double widen opts out_h in
        (1 ≤ size.0)
        × (size.0 ≤ max_raster_dim)
        × (1 ≤ size.1)
        × (size.1 ≤ max_raster_dim)
        × (size.0 * size.1 ≤ max_raster_pixels)
  unfolding raster_size
  raster_size_bounds opts out_h =
      let (wide, narrow) = clamp_dim_bounds (scaled single double widen opts.width opts.scale) in
      let (high, low) = clamp_dim_bounds (scaled single double widen out_h opts.scale) in
      let (rows, few) = height_bounds _ _ narrow high in
      (
        wide,
        narrow,
        rows,
        omega (
          arith,
          (min_nat-le (clamp_dim (scaled single double widen out_h opts.scale)) _).0,
          low,
        ),
        few,
      )

  -- In a pixmap that is not empty the crop is not empty either, and lies within it, if a number
  -- of at least 1.0 is at least 1 as an integer.
  pub crop_rect_within :
      (opts : LpRenderOpts single.F) (pw ph : ℕ)
      → ((a : single.F) → 1 ≤ single.to_u32 (single.max_of a (single.lit 1 1)))
      → 1 ≤ pw
      → 1 ≤ ph
      → let r = crop_rect single double widen opts pw ph in
        (1 ≤ r.w) × (r.x + r.w ≤ pw) × (1 ≤ r.h) × (r.y + r.h ≤ ph)
  unfolding crop_rect
  crop_rect_within opts pw ph one wide high =
      let (w, right) = cut_bounds _ _ pw wide (one _) in
      let (h, bottom) = cut_bounds _ _ ph high (one _) in (w, right, h, bottom)
