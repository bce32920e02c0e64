-- ===== src/Xml/Unclosed.antt =====
-- `UnclosedTagSink` (src/rust/html5ever/lib.rs), between the XML tokenizer and the tree builder.
-- The tree builder is third-party code: its `process_token`, and the `parse_error` of the sink
-- inside it, are parameters over the builder's state.
pub mod Laws
use lightpanda_browser.Prelude.{
  ℕ, ◌+◌, ◌-◌, ◌%◌, ◌^◌, ◌<◌, Bool, true, false, List, [], ◌∷◌, ◌++◌, Bytes, codes, ltb,
  if◌then◌else◌, ◌≡◌, refl, ap, ◌∙◌, arith, length, length-append, ◌⊎◌,
}
use lightpanda_browser.Markup.{QualName, Attribute}

-- `xml5ever::tokenizer::TagKind`.
pub data TagKind : Type 0 where
  start_tag end_tag empty_tag short_tag : TagKind

pub record Tag : Type 0 where
  pub kind : TagKind
  pub name : QualName
  pub attrs : List Attribute

pub data Token : Type 0 where
  tag : Tag → Token
  end_of_file null_character doctype processing_instruction : Token
  comment characters : Bytes → Token

-- The depth, a `u32`, after a tag.
unfoldable pub depth_after : TagKind → ℕ → ℕ
depth_after start_tag depth = (depth + 1) % 2 ^ 32
depth_after end_tag depth = depth - 1
depth_after short_tag depth = depth - 1
depth_after empty_tag depth = depth

-- The `match` of `process_token`: the new depth, and whether an error is reported.
unfoldable pub look : ℕ → Token → ℕ × Bool
unfolding depth_after
look depth (tag t) = (depth_after t.kind depth, false)
look depth end_of_file = (depth, ltb 0 depth)
look depth _ = (depth, false)

abbrev pub unclosed_message : Bytes
unclosed_message = codes "Unclosed element at EOF"

pub record UnclosedTagSink (T : Type 0) : Type 0 where
  pub tb : T
  pub depth : ℕ

module _ {T R : Type 0} (tb_process : T → Token → T × R) (parse_error : T → Bytes → T) where
  unfoldable pub process_token : UnclosedTagSink T → Token → UnclosedTagSink T × R
  unfolding look
  process_token s t =
      let (depth, report) = look s.depth t in
      let (tb, result) =
        tb_process (if report then parse_error s.tb unclosed_message else s.tb) t in
      (record { tb = tb; depth = depth }, result)

  unfoldable pub process_tokens : UnclosedTagSink T → List Token → UnclosedTagSink T
  process_tokens s [] = s
  process_tokens s (t ∷ ts) = process_tokens (process_token s t).0 ts

  -- The tokens handed to the tree builder alone.
  unfoldable pub forward : T → List Token → T
  forward tb [] = tb
  forward tb (t ∷ ts) = forward (tb_process tb t).0 ts
