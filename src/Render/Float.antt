-- ===== src/Render/Float.antt =====
-- The machine's `f32`, as the operations that src/rust/render/lib.rs uses.
use lightpanda_browser.Prelude.{ℕ, Bool}

pub record Float : Type 1 where
  pub F : Type 0
  -- The literal of a fraction, and `as f32` of an integer.
  pub lit : (num den : ℕ) → F
  pub from : ℕ → F
  pub add : F → F → F
  pub sub : F → F → F
  pub mul : F → F → F
  pub div : F → F → F
  pub max_of : F → F → F
  -- `a > b` and `a >= b`, false if one is not a number.
  pub gt : F → F → Bool
  pub ge : F → F → Bool
  pub is_finite : F → Bool
  pub to_radians : F → F
  pub tan : F → F
  pub ceil : F → F
  pub floor : F → F
  pub round : F → F
  pub neg : F → F
  pub clamp : (value low high : F) → F
  -- `as u32` and `as u64`, which stops at the ends of their ranges.
  pub to_u32 : F → ℕ
  pub to_u64 : F → ℕ
