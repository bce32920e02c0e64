-- ===== src/Render/SelfDescription/Mirror.antt =====
-- What src/rust/render/lib.rs promises by its table: a caller whose mirror agrees with it reads
-- what was written, and the size, which is compared first, tells a field on one side only.
use Prim.Native.String.{String}
use lightpanda_browser.Prelude.{
  ℕ, ◌+◌, ◌*◌, List, [], ◌∷◌, some, ◌≡◌, refl, ap, arith, subst, sym, ◌∙◌, length, ◌↔◌, Bytes,
}
use lightpanda_browser.Prelude.Slices.{slice}
use lightpanda_browser.Render.CLayout.{locate, size_of, align_of, round_up, end_from}
use lightpanda_browser.Render.CLayout.Laws.{IsStruct}
use lightpanda_browser.Render.CLayout.Image.{
  Value, shape, value_of, value_of-locate, image, read-image,
}
use lightpanda_browser.Render.SelfDescription.Structs.{Target, Described, struct_of}
use lightpanda_browser.Render.SelfDescription.Names.{lp_abi_names, all_u32}
use lightpanda_browser.Render.SelfDescription.Table.{lp_render_abi, entry}
use lightpanda_browser.Render.SelfDescription.Laws.{
  entry_name, lp_render_abi-locate, struct_of-IsStruct,
}

-- A reader that takes a field's offset from the table finds that field's bytes, in every struct
-- that is laid out in memory, whatever the values and the padding are.
pub lp_render_abi-read :
    (t : Target) (d : Described) (pad : ℕ → ℕ) (vs : List Value) (field : String) (b : Bytes)
    {at : ℕ}
    → shape vs ≡ struct_of t d
    → value_of field vs ≡ some b
    → entry (entry_name d field) (lp_render_abi t) ≡ some at
    → slice at (length b) (image pad vs) ≡ b
lp_render_abi-read t d pad vs field b {at} shaped value named =
    let is : IsStruct (shape vs) = subst IsStruct (sym shaped) (struct_of-IsStruct t d) in
    let (start, r, found, sized) = value_of-locate field vs value in
    let same : some at ≡ some start =
      sym named ∙ (lp_render_abi-locate t d field (ap (locate field) (sym shaped) ∙ found)).2 in
    ap (λ k. slice k (length b) (image pad vs)) (ground (arith, same))
    ∙ ap (λ k. slice start k (image pad vs)) (sym sized)
    ∙ read-image pad field vs is found value

end_from-all_u32 :
    (k : ℕ) (names : List String) → end_from (4 * k) (all_u32 names) ≡ 4 * (k + length names)
unfolding end_from all_u32 round_up
end_from-all_u32 k [] = omega arith
end_from-all_u32 k (name ∷ names) =
    let next : round_up (4 * k) 4 + 4 ≡ 4 * (k + 1) = omega arith in
    ap (λ at. end_from at (all_u32 names)) next ∙ end_from-all_u32 (k + 1) names ∙ omega arith

align_of-all_u32 : (name : String) (names : List String) → align_of (all_u32 (name ∷ names)) ≡ 4
unfolding align_of all_u32
align_of-all_u32 name [] = refl
align_of-all_u32 name (next ∷ names) = ground (arith, align_of-all_u32 next names)

some_size : {m n : ℕ} → some m ≡ some n → m ≡ n
some_size e = ground (arith, e)

-- The size of a struct of `u32` fields is four times their number.
size_of-all_u32 : (names : List String) → size_of (all_u32 names) ≡ 4 * length names
unfolding size_of all_u32 end_from align_of round_up
size_of-all_u32 [] = refl
size_of-all_u32 (name ∷ names) =
    rw (align_of-all_u32 name names, size_of) (omega (arith, end_from-all_u32 0 (name ∷ names)))

-- Whatever the size of a pointer, a mirror of `LpAbi` made of `u32` fields has the size that the
-- table begins with exactly if it has as many fields.
pub lp_render_abi-size :
    (t : Target) (names : List String)
    → (entry "size" (lp_render_abi t) ≡ some (size_of (all_u32 names)))
      ↔ (length names ≡ length lp_abi_names)
unfolding lp_render_abi entry lp_abi_names
lp_render_abi-size t names = (
  λ e. omega (arith, size_of-all_u32 names, some_size e),
  λ e. ap some (omega (arith, size_of-all_u32 names, e)),
)
