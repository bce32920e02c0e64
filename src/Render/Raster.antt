-- ===== src/Render/Raster.antt =====
-- The sizes that `Renderer::render` of src/rust/render/lib.rs computes: the pixmap, and the crop.
pub mod Laws
use lightpanda_browser.Prelude.{ℕ, ◌-◌, ◌/◌, Bool, true, false, if◌then◌else◌, ◌==◌, ltb}
use lightpanda_browser.Render.Float.{Float}

abbrev pub max_raster_dim : ℕ
max_raster_dim = 16384

-- 64 << 20.
abbrev pub max_raster_pixels : ℕ
max_raster_pixels = 67108864

pub record LpRenderOpts (F : Type 0) : Type 0 where
  pub width : ℕ
  pub height : ℕ
  pub clip_x : F
  pub clip_y : F
  pub clip_w : F
  pub clip_h : F
  pub scale : F
  pub flags : ℕ

pub record CropRect : Type 0 where
  pub x : ℕ
  pub y : ℕ
  pub w : ℕ
  pub h : ℕ

abbrev pub max_nat : ℕ → ℕ → ℕ
max_nat a b = if ltb a b then b else a

abbrev pub min_nat : ℕ → ℕ → ℕ
min_nat a b = if ltb b a then b else a

-- `n.clamp(1, MAX_RASTER_DIM)`.
abbrev pub clamp_dim : ℕ → ℕ
clamp_dim n = if ltb n 1 then 1 else if ltb max_raster_dim n then max_raster_dim else n

-- The numbers are `f32`, `single`, but for sums and products that are taken in `f64`, `double`.
module _ (single double : Float) (widen : single.F → double.F) where
  unfoldable pub content_height : single.F → ℕ
  content_height y = single.to_u32 (single.max_of (single.ceil y) (single.lit 1 1))

  -- How far down the clip reaches, within the content.
  unfoldable pub clip_reach : LpRenderOpts single.F → (content_h : ℕ) → ℕ
  clip_reach opts content_h =
      let reach = double.ceil (double.add (widen opts.clip_y) (widen opts.clip_h)) in
      double.to_u32 (double.clamp reach (double.lit 0 1) (double.from content_h))

  -- The height of the strip to draw.
  unfoldable pub strip_height : LpRenderOpts single.F → (content_h : ℕ) → ℕ
  unfolding clip_reach
  strip_height opts content_h =
      let asked = if opts.height == 0 then content_h else opts.height in
      if single.gt opts.clip_w (single.lit 0 1)
      then max_nat asked (clip_reach opts content_h)
      else asked

  -- `(n as f64 * scale as f64).ceil() as u64`.
  abbrev pub scaled : ℕ → single.F → ℕ
  scaled n scale = double.to_u64 (double.ceil (double.mul (double.from n) (widen scale)))

  -- The width and the height of the pixmap.
  unfoldable pub raster_size : LpRenderOpts single.F → (out_h : ℕ) → ℕ × ℕ
  raster_size opts out_h =
      let pw = clamp_dim (scaled opts.width opts.scale) in
      (pw, min_nat (clamp_dim (scaled out_h opts.scale)) (max_nat (max_raster_pixels / pw) 1))

  -- `(v * scale).floor().max(0.0) as u32`, and `(v * scale).ceil().max(1.0) as u32`.
  abbrev pub low : single.F → single.F → ℕ
  low v scale = single.to_u32 (single.max_of (single.floor (single.mul v scale)) (single.lit 0 1))

  abbrev pub extent : single.F → single.F → ℕ
  extent v scale = single.to_u32 (single.max_of (single.ceil (single.mul v scale)) (single.lit 1 1))

  -- The rectangle that is cut out of a pixmap of `pw` by `ph`.
  unfoldable pub crop_rect : LpRenderOpts single.F → (pw ph : ℕ) → CropRect
  crop_rect opts pw ph =
      let x = min_nat (low opts.clip_x opts.scale) (pw - 1) in
      let y = min_nat (low opts.clip_y opts.scale) (ph - 1) in
      record {
        x = x;
        y = y;
        w = min_nat (extent opts.clip_w opts.scale) (pw - x);
        h = min_nat (extent opts.clip_h opts.scale) (ph - y);
      }
