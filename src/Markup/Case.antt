-- ===== src/Markup/Case.antt =====
-- `eq_ignore_ascii_case` compares the lower-case texts.
use lightpanda_browser.Prelude.{true, [], ◌∷◌, Bytes, map, ◌≡◌, ◌↔◌, arith}
use lightpanda_browser.Markup.{to_ascii_lowercase, eq_ignore_ascii_case}

unfoldable pub lowercase : Bytes → Bytes
lowercase = map to_ascii_lowercase

pub eq_ignore_ascii_case_iff :
    (a b : Bytes) → (eq_ignore_ascii_case a b ≡ true) ↔ (lowercase a ≡ lowercase b)
unfolding eq_ignore_ascii_case lowercase
eq_ignore_ascii_case_iff [] [] = ground arith
eq_ignore_ascii_case_iff [] (y ∷ b) = ground arith
eq_ignore_ascii_case_iff (x ∷ a) [] = ground arith
eq_ignore_ascii_case_iff (x ∷ a) (y ∷ b) = ground (arith, eq_ignore_ascii_case_iff a b)
