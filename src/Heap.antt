-- ===== src/Heap.antt =====
-- Objects that src/rust hands over the C boundary as raw pointers (`Box::into_raw`) and takes back
-- (`Box::from_raw`). Address 0 is null. `none` is undefined behaviour: a dead pointer is used.
pub mod Laws
use lightpanda_browser.Prelude.{ℕ, ◌+◌, Option, none, some, ◌==◌, if◌then◌else◌}

pub record Heap (A : Type 0) : Type 0 where
  pub next : ℕ
  pub cell : ℕ → Option A

abbrev pub null : ℕ
null = 0

module _ {A : Type 0} where
  unfoldable pub update : (ℕ → Option A) → ℕ → Option A → ℕ → Option A
  update f p v q = if q == p then v else f q

  -- `Box::into_raw(Box::new(a))`.
  unfoldable pub into_raw : A → Heap A → ℕ × Heap A
  into_raw a h = (h.next, record { next = h.next + 1; cell = update h.cell h.next (some a) })

  -- `drop(Box::from_raw(p))`.
  unfoldable pub drop_raw : ℕ → Heap A → Option (Heap A)
  drop_raw p h = elim (h.cell p) [
    | none ↦ none
    | some a ↦ some (record h { cell = update h.cell p none })
  ]

  -- `&*p`.
  unfoldable pub deref : {B : Type 0} → (A → B) → ℕ → Heap A → Option B
  deref f p h = elim (h.cell p) [ none ↦ none | some a ↦ some (f a) ]

  -- `&mut *p`, with the new object and a result.
  unfoldable pub deref_mut : {B : Type 0} → (A → A × B) → ℕ → Heap A → Option (B × Heap A)
  deref_mut f p h = elim (h.cell p) [
    | none ↦ none
    | some a ↦ some ((f a).1, record h { cell = update h.cell p (some (f a).0) })
  ]
