-- ===== src/Render/Example.antt =====
-- A machine number that is a natural one, a layout of two blocks, and a `parley` with one line for
-- every text, for the tests.
use lightpanda_browser.Prelude.{
  ℕ, ◌+◌, ◌-◌, ◌*◌, ◌/◌, true, false, [], ◌∷◌, none, some, List, ltb, leb, if◌then◌else◌,
}
use lightpanda_browser.Ffi.{slice_of}
use lightpanda_browser.Render.Blocks.{LpBlock}
use lightpanda_browser.Render.Flow.{Parley}
use lightpanda_browser.Render.Float.{Float}
use lightpanda_browser.Render.Text.{Rgb, FontData, Glyph, Run, glyph_run, inline_box, Line, Layout}
use lightpanda_browser.Render.Export.{Face, Placed, bundled_fonts}

abbrev pub whole : Float
whole = record {
  F = ℕ;
  lit = λ num den. num / den;
  from = λ n. n;
  add = λ a b. a + b;
  sub = λ a b. a - b;
  mul = λ a b. a * b;
  div = λ a b. a / b;
  max_of = λ a b. if ltb a b then b else a;
  gt = λ a b. ltb b a;
  ge = λ a b. leb b a;
  is_finite = λ a. true;
  to_radians = λ a. a;
  tan = λ a. a;
  ceil = λ a. a;
  floor = λ a. a;
  round = λ a. a;
  neg = λ a. a;
  clamp = λ value low high. if ltb value low then low else if ltb high value then high else value;
  to_u32 = λ a. a;
  to_u64 = λ a. a;
}

abbrev pub faces : List Face
faces = bundled_fonts 10 11 12 13

abbrev pub face : FontData
face = record { data_ptr = 10; data_len = 400; index = 0 }

abbrev pub letter : Glyph ℕ
letter = record { id = 36; x = 0; y = 0; advance = 7 }

abbrev pub black : Rgb
black = record { red = 0; green = 0; blue = 0 }

abbrev pub run : Run ℕ
run = record {
  font = face;
  font_size = 16;
  skew = none;
  metrics = record {
    underline_offset = 1;
    underline_size = 1;
    strikethrough_offset = 5;
    strikethrough_size = 1;
  };
  visual_clusters =
      record {
        text_start = 0;
        text_end = 1;
        is_ligature_start = false;
        is_ligature_continuation = false;
        glyphs = letter ∷ [];
        advance = 7;
      }
      ∷ [];
}

abbrev pub line : Line ℕ
line = record {
  metrics = record { offset = 0; block_min_coord = 0; block_max_coord = 20 };
  items =
      glyph_run (record {
        run = run;
        style = record { brush = black; underline = none; strikethrough = none };
        glyphs = letter ∷ [];
        offset = 0;
        baseline = 15;
        advance = 7;
      })
      ∷ inline_box
      ∷ [];
  runs = run ∷ [];
}

abbrev pub text_layout : Layout ℕ
text_layout = record { lines = line ∷ line ∷ []; height = 40; width = 7 }

-- A list item with a marker, and a rule.
abbrev pub placed : List (Placed ℕ)
placed =
    record {
      layout = text_layout;
      x = 40;
      y = 16;
      kind = 0;
      marker =
          some (record { layout = record { lines = line ∷ []; height = 20; width = 7 }; x = 27 });
      quote_bars = 0;
      quote_x = 40;
    }
    ∷ record {
      layout = record { lines = []; height = 0; width = 0 };
      x = 16;
      y = 68;
      kind = 3;
      marker = none;
      quote_bars = 0;
      quote_x = 16;
    }
    ∷ []

-- A line of 20 for every text.
abbrev pub one_line : Parley ℕ
one_line = record {
  build = λ root scale spans width. some (record { lines = line ∷ []; height = 20; width = 7 });
  build_line = λ scale props text. some (record { lines = line ∷ []; height = 20; width = 7 });
  empty = record { lines = []; height = 0; width = 0 };
}

abbrev pub lp_item : LpBlock
lp_item = record {
  spans =
      record { text = slice_of (b'a' ∷ []); flags = 33; color = 0x0000ff; href = slice_of [] } ∷ [];
  marker = slice_of (0xff ∷ []);
  kind = 0;
  level = 0;
  list_depth = 1;
  quote_depth = 0;
  flags = 0;
}
