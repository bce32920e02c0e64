-- ===== src/Render/CLayout/Laws.antt =====
-- What the layout of a struct promises: alignment, room, and fields that do not overlap.
use Prim.Native.String.{String}
use text.Mathlib.Text.{◌==◌}
use text.Mathlib.TextEquality.{eq_iff}
use lightpanda_browser.Prelude.{
  ℕ, ◌+◌, ◌*◌, ◌^◌, ◌≤◌, ◌<◌, [], ◌∷◌, some, All, false, ◌≡◌, ◌≢◌, subst, refl, ap, sym, ◌∙◌, ◌⊎◌,
  inl, inr, arith,
}
use lightpanda_browser.Render.CLayout.{
  Repr, Struct, round_up, end_from, align_of, size_of, repr_of, locate_from, locate,
}
use lightpanda_browser.Render.CLayout.Divides.{
  Divides, power_pos, round_up-le, round_up-Divides, Divides_trans, aligns,
}

-- As Rust has it of every type: the alignment is a power of two, and divides the size.
pub record IsRepr (r : Repr) : Type 0 where
  pub log : ℕ
  pub power : r.align ≡ 2 ^ log
  pub units : ℕ
  pub whole : r.size ≡ units * r.align

abbrev pub IsStruct : Struct → Type 0
IsStruct = All (λ f. IsRepr f.1)

pub align_pos : {r : Repr} → IsRepr r → 0 < r.align
align_pos {r} is = rw is.power (power_pos is.log)

pub align_of-pos : (s : Struct) → IsStruct s → 0 < align_of s
unfolding align_of
align_of-pos [] is = omega arith
align_of-pos ((name, r) ∷ fields) is = ground (arith, align_of-pos fields is.1, align_pos is.0)

-- The alignment of a struct is a power of two, and a multiple of each field's.
record IsCommon (s : Struct) : Type 0 where
  log : ℕ
  power : align_of s ≡ 2 ^ log
  each : All (λ f. Divides f.1.align (align_of s)) s

each_Divides :
    (a b : ℕ) (s : Struct)
    → Divides a b
    → All (λ f. Divides f.1.align a) s
    → All (λ f. Divides f.1.align b) s
each_Divides a b [] d all = tt
each_Divides a b ((name, r) ∷ s) d (one, all) =
    (Divides_trans r.align a b one d, each_Divides a b s d all)

align_of_cases :
    (name : String) (r : Repr) (s : Struct)
    → ((align_of ((name, r) ∷ s) ≡ r.align) × (align_of s ≤ r.align))
      ⊎ ((align_of ((name, r) ∷ s) ≡ align_of s) × (r.align ≤ align_of s))
unfolding align_of
align_of_cases name r s = ground arith

align_of-IsCommon : (s : Struct) → IsStruct s → IsCommon s
align_of-IsCommon [] is = record { log = 0; power = unfold align_of in refl; each = tt }
align_of-IsCommon ((name, r) ∷ s) (one, is) =
    let rest = align_of-IsCommon s is in
    elim (align_of_cases name r s) [
      | inl (e, le) ↦ record {
        log = one.log;
        power = e ∙ one.power;
        each = (
          (1, omega (arith, e)),
          each_Divides (align_of s) _ s
              (aligns (align_of s) _ rest.log one.log rest.power (e ∙ one.power)
                (omega (arith, e, le)))
              rest.each,
        );
      }
      | inr (e, le) ↦ record {
        log = rest.log;
        power = e ∙ rest.power;
        each = (
          aligns r.align _ one.log rest.log one.power (e ∙ rest.power) (omega (arith, e, le)),
          each_Divides (align_of s) _ s (1, omega (arith, e)) rest.each,
        );
      }
    ]

pub end_from-le : (at : ℕ) (s : Struct) → IsStruct s → at ≤ end_from at s
unfolding end_from
end_from-le at [] is = omega arith
end_from-le at ((name, r) ∷ s) (one, is) =
    omega (
      arith,
      round_up-le at r.align (align_pos one),
      end_from-le (round_up at r.align + r.size) s is,
    )

-- A field that was placed from `at` on.
pub record IsPlaced (at : ℕ) (s : Struct) (start : ℕ) (r : Repr) : Type 0 where
  pub type : IsRepr r
  pub behind : at ≤ start
  pub aligned : Divides r.align start
  pub before : start + r.size ≤ end_from at s

pub locate_from_cases :
    (at : ℕ) (field name : String) (q : Repr) (s : Struct) {start : ℕ} {r : Repr}
    → locate_from at field ((name, q) ∷ s) ≡ some (start, r)
    → ((name ≡ field) × (start ≡ round_up at q.align) × (q ≡ r))
      ⊎ (((name == field) ≡ false)
          × (locate_from (round_up at q.align + q.size) field s ≡ some (start, r)))
unfolding locate_from
locate_from_cases at field name q s found = ground (arith, found, eq_iff name field)

first-IsPlaced :
    (at : ℕ) (name : String) (r : Repr) (s : Struct)
    → IsStruct ((name, r) ∷ s)
    → IsPlaced at ((name, r) ∷ s) (round_up at r.align) r
unfolding end_from
first-IsPlaced at name r s (one, is) = record {
  type = one;
  behind = round_up-le at r.align (align_pos one);
  aligned = round_up-Divides at r.align;
  before = end_from-le (round_up at r.align + r.size) s is;
}

pub locate_from-IsPlaced :
    (at : ℕ) (field : String) (s : Struct) {start : ℕ} {r : Repr}
    → IsStruct s
    → locate_from at field s ≡ some (start, r)
    → IsPlaced at s start r
unfolding locate_from end_from
locate_from-IsPlaced at field [] is found = cc
locate_from-IsPlaced at field ((name, q) ∷ s) {start} {r} (one, is) found =
    elim (locate_from_cases at field name q s found) [
      | inl (here, there, same) ↦
          subst (λ x. IsPlaced at ((name, q) ∷ s) start x) same
            (subst (λ x. IsPlaced at ((name, q) ∷ s) x q) (sym there)
              (first-IsPlaced at name q s (one, is)))
      | inr (apart, found) ↦
          let later = locate_from-IsPlaced (round_up at q.align + q.size) field s is found in
          record {
            type = later.type;
            behind = omega (arith, later.behind, round_up-le at q.align (align_pos one));
            aligned = later.aligned;
            before = later.before;
          }
    ]

-- Of two ranges one ends before the other starts.
abbrev pub Apart : ℕ → ℕ → ℕ → ℕ → Type 0
Apart a size b size' = (a + size ≤ b) ⊎ (b + size' ≤ a)

pub locate_from-Apart :
    (at : ℕ) (field other : String) (s : Struct) {a b : ℕ} {q r : Repr}
    → IsStruct s
    → field ≢ other
    → locate_from at field s ≡ some (a, q)
    → locate_from at other s ≡ some (b, r)
    → Apart a q.size b r.size
unfolding locate_from
locate_from-Apart at field other [] is ne one two = cc
locate_from-Apart at field other ((name, t) ∷ s) (type, is) ne one two =
    let next = round_up at t.align + t.size in
    elim (locate_from_cases at field name t s one) [
      | inl (n, x, e) ↦ elim (locate_from_cases at other name t s two) [
        | inl (m, y, f) ↦ absurd (ne (sym n ∙ m))
        | inr (apart, two) ↦ inl (
            omega (
              arith,
              x,
              ap (λ (u : Repr). u.size) e,
              (locate_from-IsPlaced next other s is two).behind,
            ))
      ]
      | inr (apart, one) ↦ elim (locate_from_cases at other name t s two) [
        | inl (m, y, f) ↦ inr (
            omega (
              arith,
              y,
              ap (λ (u : Repr). u.size) f,
              (locate_from-IsPlaced next field s is one).behind,
            ))
        | inr (apart, two) ↦ locate_from-Apart next field other s is ne one two
      ]
    ]

-- A struct is a type as each of its fields is.
pub repr_of-IsRepr : (s : Struct) → IsStruct s → IsRepr (repr_of s)
unfolding repr_of size_of
repr_of-IsRepr s is =
    let a = align_of-IsCommon s is in
    let (k, e) = round_up-Divides (end_from 0 s) (align_of s) in
    record { log = a.log; power = a.power; units = k; whole = e }

each_locate :
    (P : Repr → Type 0) (at : ℕ) (field : String) (s : Struct) {start : ℕ} {r : Repr}
    → All (λ f. P f.1) s
    → locate_from at field s ≡ some (start, r)
    → P r
unfolding locate_from
each_locate P at field [] all found = cc
each_locate P at field ((name, q) ∷ s) (one, all) found =
    elim (locate_from_cases at field name q s found) [
      | inl (here, there, same) ↦ subst P same one
      | inr (apart, found) ↦ each_locate P (round_up at q.align + q.size) field s all found
    ]

-- What the layout promises of the field `r` at the offset `start`.
pub record IsField (s : Struct) (start : ℕ) (r : Repr) : Type 0 where
  pub aligned : Divides r.align start
  pub base : Divides r.align (align_of s)
  pub within : start + r.size ≤ size_of s

pub locate-IsField :
    (field : String) (s : Struct) {start : ℕ} {r : Repr}
    → IsStruct s
    → locate field s ≡ some (start, r)
    → IsField s start r
unfolding locate size_of
locate-IsField field s is found =
    let placed = locate_from-IsPlaced 0 field s is found in
    record {
      aligned = placed.aligned;
      base =
          each_locate (λ r. Divides r.align (align_of s)) 0 field s (align_of-IsCommon s is).each
            found;
      within =
          omega (arith, placed.before, round_up-le (end_from 0 s) (align_of s) (align_of-pos s is));
    }
