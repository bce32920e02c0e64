-- ===== src/Prelude/Slices.antt =====
-- Ranges of a list that only grows, and lists that are related member by member.
use Prim.Native.Nat.{ℕ, zero, suc, ◌+◌, ◌≤◌, ◌<◌}
use mathlib.Core.Path.{◌≡◌, refl, sym, ap, ◌∙◌}
use mathlib.Core.Bool.{Bool, true}
use mathlib.Core.Logic.{inl, inr}
use mathlib.Core.Option.{Option, none, some}
use mathlib.Core.List.{List, [], ◌∷◌, ◌++◌, append-nil, append_assoc}
use native.Mathlib.Omega.{arith}
use lightpanda_browser.Prelude.Tests.{if◌then◌else◌, Bool-cases, Option-cases}
use lightpanda_browser.Prelude.Lists.{length, take, drop, length-append}

-- The list `ys` is `xs` with more behind.
pub record Prefix {ℓ} {A : Type ℓ} (xs ys : List A) : Type ℓ where
  pub more : List A
  pub grown : ys ≡ xs ++ more

module _ {ℓ} {A : Type ℓ} where
  unfoldable pub get_elem? : List A → ℕ → Option A
  get_elem? [] i = none
  get_elem? (x ∷ xs) zero = some x
  get_elem? (x ∷ xs) (suc i) = get_elem? xs i

  -- `iter().position(p)`.
  unfoldable pub index_of : (A → Bool) → List A → Option ℕ
  index_of p [] = none
  index_of p (x ∷ xs) =
      if p x then some 0 else elim (index_of p xs) [ none ↦ none | some i ↦ some (i + 1) ]

  unfoldable pub slice : (from len : ℕ) → List A → List A
  slice from len xs = take len (drop from xs)

  pub Prefix-refl : (xs : List A) → Prefix xs xs
  Prefix-refl xs = record { more = []; grown = sym (append-nil xs) }

  pub Prefix-append : (xs zs : List A) → Prefix xs (xs ++ zs)
  Prefix-append xs zs = record { more = zs; grown = refl }

  pub Prefix-trans : {xs ys zs : List A} → Prefix xs ys → Prefix ys zs → Prefix xs zs
  Prefix-trans {xs} p q = record {
    more = p.more ++ q.more;
    grown = q.grown ∙ ap (λ l. l ++ q.more) p.grown ∙ append_assoc xs p.more q.more;
  }

  pub Prefix-length : {xs ys : List A} → Prefix xs ys → length xs ≤ length ys
  Prefix-length {xs} p =
      let size = length-append xs p.more in
      let same = ap length p.grown in omega (arith, size, same)

  take-more : (n : ℕ) (xs zs : List A) → n ≤ length xs → take n (xs ++ zs) ≡ take n xs
  take-more zero xs zs le = refl
  take-more (suc n) [] zs le = absurd (omega (arith, le))
  take-more (suc n) (x ∷ xs) zs le = ap (◌∷◌ x) (take-more n xs zs (omega (arith, le)))

  slice-more :
      (from len : ℕ) (xs zs : List A)
      → from + len ≤ length xs
      → slice from len (xs ++ zs) ≡ slice from len xs
  unfolding slice
  slice-more zero len xs zs le = take-more len xs zs (omega (arith, le))
  slice-more (suc from) zero xs zs le = refl
  slice-more (suc from) (suc len) [] zs le = absurd (omega (arith, le))
  slice-more (suc from) (suc len) (x ∷ xs) zs le =
      slice-more from (suc len) xs zs (omega (arith, le))

  -- What a range within a list holds stays when the list grows.
  pub slice-Prefix :
      (from len : ℕ) {xs ys : List A}
      → Prefix xs ys
      → from + len ≤ length xs
      → slice from len ys ≡ slice from len xs
  slice-Prefix from len {xs} p le = ap (slice from len) p.grown ∙ slice-more from len xs p.more le

  -- What was just pushed is the range behind the old length.
  pub slice_pushed : (xs ys : List A) → slice (length xs) (length ys) (xs ++ ys) ≡ ys
  unfolding slice
  slice_pushed [] ys = take_whole ys
    where
      take_whole : (ys : List A) → take (length ys) ys ≡ ys
      take_whole [] = refl
      take_whole (y ∷ ys) = ap (◌∷◌ y) (take_whole ys)
  slice_pushed (x ∷ xs) ys = slice_pushed xs ys

  get_elem?-more :
      (xs zs : List A) (i : ℕ) {a : A} → get_elem? xs i ≡ some a → get_elem? (xs ++ zs) i ≡ some a
  unfolding get_elem?
  get_elem?-more [] zs i e = absurd (ground (arith, e))
  get_elem?-more (x ∷ xs) zs zero e = e
  get_elem?-more (x ∷ xs) zs (suc i) e = get_elem?-more xs zs i e

  pub get_elem?-Prefix :
      {xs ys : List A} (i : ℕ) {a : A}
      → Prefix xs ys
      → get_elem? xs i ≡ some a
      → get_elem? ys i ≡ some a
  get_elem?-Prefix {xs} i p e = ap (λ l. get_elem? l i) p.grown ∙ get_elem?-more xs p.more i e

  pub get_elem?_pushed : (xs : List A) (a : A) → get_elem? (xs ++ a ∷ []) (length xs) ≡ some a
  unfolding get_elem?
  get_elem?_pushed [] a = refl
  get_elem?_pushed (x ∷ xs) a = get_elem?_pushed xs a

-- Related member by member, and of one length.
module _ {ℓ κ} {A : Type ℓ} {B : Type κ} where
  abbrev pub All2 : (A → B → Type 0) → List A → List B → Type 0
  All2 R [] [] = Unit
  All2 R (x ∷ xs) (y ∷ ys) = R x y × All2 R xs ys
  All2 R _ _ = ⊥

  pub All2-append :
      (R : A → B → Type 0) (xs xs' : List A) (ys ys' : List B)
      → All2 R xs ys
      → All2 R xs' ys'
      → All2 R (xs ++ xs') (ys ++ ys')
  All2-append R [] xs' [] ys' all all' = all'
  All2-append R [] xs' (y ∷ ys) ys' all all' = absurd all
  All2-append R (x ∷ xs) xs' [] ys' all all' = absurd all
  All2-append R (x ∷ xs) xs' (y ∷ ys) ys' all all' = (all.0, All2-append R xs xs' ys ys' all.1 all')

  pub All2-map :
      (R : A → B → Type 0) (S : A → B → Type 0) (xs : List A) (ys : List B)
      → ((x : A) (y : B) → R x y → S x y)
      → All2 R xs ys
      → All2 S xs ys
  All2-map R S [] [] f all = tt
  All2-map R S [] (y ∷ ys) f all = absurd all
  All2-map R S (x ∷ xs) [] f all = absurd all
  All2-map R S (x ∷ xs) (y ∷ ys) f all = (f x y all.0, All2-map R S xs ys f all.1)

pub get_elem?-lt {ℓ} :
    {A : Type ℓ} (xs : List A) (i : ℕ) {a : A} → get_elem? xs i ≡ some a → i < length xs
unfolding get_elem?
get_elem?-lt [] i e = absurd (ground (arith, e))
get_elem?-lt (x ∷ xs) zero e = omega arith
get_elem?-lt (x ∷ xs) (suc i) e = omega (arith, get_elem?-lt xs i e)

-- What stands at a position that was found passes the test.
pub index_of-found {ℓ} :
    {A : Type ℓ} (p : A → Bool) (xs : List A) (i : ℕ)
    → index_of p xs ≡ some i
    → (a : A) × (get_elem? xs i ≡ some a) × (p a ≡ true)
unfolding index_of get_elem?
index_of-found p [] i e = absurd (ground (arith, e))
index_of-found p (x ∷ xs) i e = elim (Bool-cases (p x)) [
  | inl passed ↦
      let at_head : i ≡ 0 = ground (arith, e, passed) in
      (x, ap (get_elem? (x ∷ xs)) at_head, passed)
  | inr failed ↦ elim (Option-cases (index_of p xs)) [
    | inl missing ↦ absurd (ground (arith, e, failed, missing))
    | inr (j, found) ↦
        let behind : i ≡ suc j = ground (arith, e, failed, found) in
        let (a, at, passes) = index_of-found p xs j found in
        (a, ap (get_elem? (x ∷ xs)) behind ∙ at, passes)
  ]
]

-- The same push on lists that are equal.
pub push_same {ℓ} : {A : Type ℓ} (xs ys : List A) (a : A) → xs ≡ ys → xs ++ a ∷ [] ≡ ys ++ a ∷ []
push_same xs ys a e = ap (λ l. l ++ a ∷ []) e

pub All2-length {ℓ κ} :
    {A : Type ℓ} {B : Type κ} (R : A → B → Type 0) (xs : List A) (ys : List B)
    → All2 R xs ys
    → length xs ≡ length ys
All2-length R [] [] all = refl
All2-length R [] (y ∷ ys) all = absurd all
All2-length R (x ∷ xs) [] all = absurd all
All2-length R (x ∷ xs) (y ∷ ys) all = ap suc (All2-length R xs ys all.1)
