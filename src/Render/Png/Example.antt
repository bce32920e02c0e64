-- ===== src/Render/Png/Example.antt =====
-- A picture that counts what was painted, an engine with it, and a callback that refuses its
-- second call, for the tests.
use Prim.Native.Nat.{bit_xor}
use lightpanda_browser.Prelude.{ℕ, ◌+◌, true, false, [], ◌∷◌, some, ap}
use lightpanda_browser.Render.Raster.{LpRenderOpts}
use lightpanda_browser.Render.Draw.{Skia, Skrifa, move_to, line_to, close, calls}
use lightpanda_browser.Render.Draw.Cache.{KeysApart}
use lightpanda_browser.Render.Png.{Engine, Write, ended, writes}
use lightpanda_browser.Render.Example.{whole, one_line}

abbrev pub counting : Skia ℕ
counting = record {
  Pixmap = ℕ;
  Rect = ℕ;
  Outline = ℕ;
  new_white = λ width height. some 0;
  from_xywh = λ x y w h. some 1;
  fill_rect = λ r color pixmap. some (pixmap + r);
  fill_path = λ path color t pixmap. some (pixmap + path);
  PathBuilder = ℕ;
  new_builder = 0;
  move_to = λ x y pen. pen + x;
  line_to = λ x y pen. pen + x;
  quad_to = λ cx0 cy0 x y pen. pen + x;
  cubic_to = λ cx0 cy0 cx1 cy1 x y pen. pen + x;
  close = λ pen. pen;
  finish = λ pen. some pen;
  cropped = λ r pixmap. some pixmap;
  width = λ pixmap. 200;
  height = λ pixmap. 50;
  data_bytes = λ pixmap. pixmap ∷ [];
}

abbrev pub by_key : Skrifa ℕ
by_key = record {
  face = λ font. some (some 2048);
  glyph = λ font id.
      calls (move_to (bit_xor font.data_ptr font.index) 0 ∷ line_to id 0 ∷ close ∷ []) true;
}

pub by_key-KeysApart : KeysApart by_key
by_key-KeysApart = record {
  apart = λ f g id e. ap (λ k. calls (move_to k 0 ∷ line_to id 0 ∷ close ∷ []) true) e;
}

abbrev pub opts : LpRenderOpts ℕ
opts = record {
  width = 200;
  height = 0;
  clip_x = 0;
  clip_y = 0;
  clip_w = 0;
  clip_h = 0;
  scale = 1;
  flags = 0;
}

abbrev pub engine : Engine whole whole
engine = record {
  widen = λ a. a;
  parley = one_line;
  skia = counting;
  skrifa = by_key;
  encode = λ width height bytes. writes (137 ∷ 80 ∷ []) (λ ok. writes bytes (λ fine. ended fine));
}

abbrev pub first_alone : Write
first_alone [] buf = true
first_alone (_ ∷ _) buf = false
