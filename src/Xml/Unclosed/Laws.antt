-- ===== src/Xml/Unclosed/Laws.antt =====
-- What the tree builder sees behind `UnclosedTagSink` (src/rust/html5ever/lib.rs).
use lightpanda_browser.Prelude.{
  ℕ, ◌+◌, ◌-◌, ◌^◌, ◌<◌, true, List, [], ◌∷◌, ◌++◌, Bytes, ltb, ◌≡◌, refl, ap, ◌∙◌, arith, length,
  length-append, ◌⊎◌,
}
use lightpanda_browser.Xml.Unclosed.{
  TagKind, start_tag, end_tag, empty_tag, short_tag, Token, tag, end_of_file, unclosed_message,
  UnclosedTagSink, process_token, process_tokens, forward,
}

abbrev pub IsTag : TagKind → Token → Type 0
IsTag kind (tag t) = t.kind ≡ kind
IsTag kind _ = ⊥

-- A token that neither opens nor closes an element.
abbrev pub IsFlat : Token → Type 0
IsFlat (tag t) = t.kind ≡ empty_tag
IsFlat end_of_file = ⊥
IsFlat _ = Unit

abbrev pub IsClosing : Token → Type 0
IsClosing (tag t) = (t.kind ≡ end_tag) ⊎ (t.kind ≡ short_tag)
IsClosing _ = ⊥

-- Contents in which every element that is opened is closed.
pub data WellNested : List Token → Type 0 where
  nil : WellNested []
  flat : (t : Token) {ts : List Token} → IsFlat t → WellNested ts → WellNested (t ∷ ts)
  element :
      (t u : Token) {inner ts : List Token}
      → IsTag start_tag t
      → IsClosing u
      → WellNested inner
      → WellNested ts
      → WellNested (t ∷ (inner ++ (u ∷ ts)))

-- Contents that are cut off inside at least one element.
pub data CutOff : List Token → Type 0 where
  last :
      (t : Token) {before inner : List Token}
      → WellNested before
      → IsTag start_tag t
      → WellNested inner
      → CutOff (before ++ (t ∷ inner))
  more :
      (t : Token) {before inner : List Token}
      → WellNested before
      → IsTag start_tag t
      → CutOff inner
      → CutOff (before ++ (t ∷ inner))

module _ {T R : Type 0} (tb_process : T → Token → T × R) (parse_error : T → Bytes → T) where
  abbrev at : T → ℕ → UnclosedTagSink T
  at tb depth = record { tb = tb; depth = depth }

  step-flat :
      (tb : T) (d : ℕ) (t : Token)
      → IsFlat t
      → (process_token tb_process parse_error (at tb d) t).0 ≡ at (tb_process tb t).0 d
  unfolding process_token
  step-flat tb d (tag t) f = ground arith
  step-flat tb d end_of_file f = absurd f
  step-flat tb d _ f = refl

  step-start :
      (tb : T) (d : ℕ) (t : Token)
      → IsTag start_tag t
      → d + 1 < 2 ^ 32
      → (process_token tb_process parse_error (at tb d) t).0 ≡ at (tb_process tb t).0 (d + 1)
  unfolding process_token
  step-start tb d (tag t) f fits = ground arith
  step-start tb d _ f fits = absurd f

  step-close :
      (tb : T) (d : ℕ) (t : Token)
      → IsClosing t
      → (process_token tb_process parse_error (at tb d) t).0 ≡ at (tb_process tb t).0 (d - 1)
  unfolding process_token
  step-close tb d (tag t) f = ground arith
  step-close tb d _ f = absurd f

  tokens-append :
      (s : UnclosedTagSink T) (ts us : List Token)
      → process_tokens tb_process parse_error s (ts ++ us)
        ≡ process_tokens tb_process parse_error (process_tokens tb_process parse_error s ts) us
  unfolding process_tokens
  tokens-append s [] us = refl
  tokens-append s (t ∷ ts) us = tokens-append (process_token tb_process parse_error s t).0 ts us

  tokens-cons :
      (s : UnclosedTagSink T) (t : Token) (ts : List Token)
      → process_tokens tb_process parse_error s (t ∷ ts)
        ≡ process_tokens tb_process parse_error (process_token tb_process parse_error s t).0 ts
  unfolding process_tokens
  tokens-cons s t ts = refl

  forward-append :
      (tb : T) (ts us : List Token)
      → forward tb_process parse_error tb (ts ++ us)
        ≡ forward tb_process parse_error (forward tb_process parse_error tb ts) us
  unfolding forward
  forward-append tb [] us = refl
  forward-append tb (t ∷ ts) us = forward-append (tb_process tb t).0 ts us

  tokens-WellNested :
      (tb : T) (d : ℕ) {ts : List Token}
      → WellNested ts
      → d + length ts < 2 ^ 32
      → process_tokens tb_process parse_error (at tb d) ts
        ≡ at (forward tb_process parse_error tb ts) d
  unfolding process_tokens forward
  tokens-WellNested tb d nil fits = refl
  tokens-WellNested tb d (flat t {ts} f w) fits =
      ap (λ s. process_tokens tb_process parse_error s ts) (step-flat tb d t f)
      ∙ tokens-WellNested (tb_process tb t).0 d w (omega arith)
  tokens-WellNested tb d (element t u {inner} {ts} o c w v) fits =
      let size = length-append inner (u ∷ ts) in
      let back : d + 1 - 1 ≡ d = omega arith in
      let tb₁ = (tb_process tb t).0 in
      rw
        (
          tokens-cons _ t,
          step-start tb d t o (omega (arith, size)),
          tokens-append _ inner (u ∷ ts),
          tokens-WellNested tb₁ (d + 1) w (omega (arith, size)),
          tokens-cons _ u,
          step-close _ (d + 1) u c,
          back,
          forward-append tb₁ inner (u ∷ ts),
        )
        (tokens-WellNested _ d v (omega (arith, size)))

  tokens-CutOff :
      (tb : T) (d : ℕ) {ts : List Token}
      → CutOff ts
      → d + length ts < 2 ^ 32
      → (k : ℕ) × (process_tokens tb_process parse_error (at tb d) ts
          ≡ at (forward tb_process parse_error tb ts) (d + 1 + k))
  unfolding forward
  tokens-CutOff tb d (last t {before} {inner} w o v) fits =
      let size = length-append before (t ∷ inner) in
      (
        0,
        rw
            (
              tokens-append _ before (t ∷ inner),
              tokens-WellNested tb d w (omega (arith, size)),
              tokens-cons _ t,
              step-start _ d t o (omega (arith, size)),
              forward-append tb before (t ∷ inner),
            )
            (tokens-WellNested _ (d + 1) v (omega (arith, size)) ∙ ap (at _) (omega arith)),
      )
  tokens-CutOff tb d (more t {before} {inner} w o v) fits =
      let size = length-append before (t ∷ inner) in
      let tb₁ = forward tb_process parse_error tb before in
      let (k, e) = tokens-CutOff (tb_process tb₁ t).0 (d + 1) v (omega (arith, size)) in
      (
        k + 1,
        rw
            (
              tokens-append _ before (t ∷ inner),
              tokens-WellNested tb d w (omega (arith, size)),
              tokens-cons _ t,
              step-start _ d t o (omega (arith, size)),
              forward-append tb before (t ∷ inner),
            )
            (e ∙ ap (at _) (omega arith)),
      )

  -- When every element is closed, the tree builder sees the tokens and the end of the file as
  -- if nothing stood in between: no error is reported.
  pub closed_lem :
      (tb : T) {ts : List Token}
      → WellNested ts
      → length ts < 2 ^ 32
      → (process_tokens tb_process parse_error (at tb 0) (ts ++ (end_of_file ∷ []))).tb
        ≡ forward tb_process parse_error tb (ts ++ (end_of_file ∷ []))
  unfolding process_tokens process_token forward
  closed_lem tb {ts} w fits = rw (
    tokens-append _ ts (end_of_file ∷ []),
    tokens-WellNested tb 0 w (omega arith),
    forward-append tb ts (end_of_file ∷ []),
  )

  -- When the file ends inside an element, one error is reported behind all the other tokens,
  -- before the tree builder sees the end of the file.
  pub cut_off_lem :
      (tb : T) {ts : List Token}
      → CutOff ts
      → length ts < 2 ^ 32
      → (process_tokens tb_process parse_error (at tb 0) (ts ++ (end_of_file ∷ []))).tb
        ≡ (tb_process
            (parse_error (forward tb_process parse_error tb ts) unclosed_message)
            end_of_file).0
  unfolding process_tokens process_token forward
  cut_off_lem tb {ts} w fits =
      let (k, e) = tokens-CutOff tb 0 w (omega arith) in
      let deep : ltb 0 (0 + 1 + k) ≡ true = ground arith in
      rw (tokens-append _ ts (end_of_file ∷ []), e, deep)
