-- ===== src/Render/Abi.antt =====
-- The types of src/rust/render/lib.rs that cross the C boundary, and its constants. A pair of a
-- pointer and a length is the list behind it.
use lightpanda_browser.Prelude.{ℕ, ◌-◌, ◌+◌, ◌%◌, ◌^◌, List, Bytes}

-- A length `as u32`, and the difference of two of them, which wraps around in a release build.
abbrev pub as_u32 : ℕ → ℕ
as_u32 n = n % 2 ^ 32

abbrev pub sub_u32 : ℕ → ℕ → ℕ
sub_u32 a b = (a + 2 ^ 32 - b) % 2 ^ 32

-- `u32::MAX`.
abbrev pub layout_none : ℕ
layout_none = 4294967295

abbrev pub block_heading : ℕ
block_heading = 1

abbrev pub block_pre : ℕ
block_pre = 2

abbrev pub block_rule : ℕ
block_rule = 3

abbrev pub cluster_ligature_start : ℕ
cluster_ligature_start = 1

abbrev pub cluster_ligature_cont : ℕ
cluster_ligature_cont = 2

pub record LpDecoration (F : Type 0) : Type 0 where
  pub enabled : ℕ
  pub offset : F
  pub size : F
  pub color : ℕ

pub record LpGlyph (F : Type 0) : Type 0 where
  pub id : ℕ
  pub x : F
  pub y : F
  pub advance : F

pub record LpCluster (F : Type 0) : Type 0 where
  pub font : ℕ
  pub glyph : ℕ
  pub text_start : ℕ
  pub text_len : ℕ
  pub x : F
  pub advance : F
  pub flags : ℕ

pub record LpRun (F : Type 0) : Type 0 where
  pub font : ℕ
  pub size : F
  pub skew : F
  pub color : ℕ
  pub offset : F
  pub baseline : F
  pub advance : F
  pub glyphs : ℕ
  pub glyphs_len : ℕ
  pub underline : LpDecoration F
  pub strike : LpDecoration F

pub record LpLine (F : Type 0) : Type 0 where
  pub x : F
  pub top : F
  pub bottom : F
  pub runs : ℕ
  pub runs_len : ℕ
  pub clusters : ℕ
  pub clusters_len : ℕ

pub record LpLayoutBlock (F : Type 0) : Type 0 where
  pub x : F
  pub y : F
  pub quote_x : F
  pub lines : ℕ
  pub lines_len : ℕ
  pub marker_line : ℕ
  pub kind : ℕ
  pub quote_bars : ℕ

pub record LpFont : Type 0 where
  pub data_ptr : ℕ
  pub data_len : ℕ
  pub index : ℕ
  pub name : Bytes
  pub mono : ℕ

pub record LpLayout (F : Type 0) : Type 0 where
  pub height : F
  pub pre_pad : F
  pub quote_indent : F
  pub rule_color : ℕ
  pub pre_bg : ℕ
  pub blocks : List (LpLayoutBlock F)
  pub lines : List (LpLine F)
  pub runs : List (LpRun F)
  pub glyphs : List (LpGlyph F)
  pub clusters : List (LpCluster F)
  pub fonts : List LpFont
