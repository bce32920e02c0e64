-- ===== src/Heap/Laws.antt =====
-- Laws of the heap of handed-out objects.
use lightpanda_browser.Prelude.{
  ℕ, ◌+◌, ◌≤◌, ◌<◌, Option, none, some, ◌≡◌, ◌≢◌, arith, fun_ext, Option-cases, inl, inr,
}
use lightpanda_browser.Heap.{Heap, null, update, into_raw, drop_raw, deref_mut}

-- Null and the addresses not yet given out are dead.
pub record IsHeap {A : Type 0} (h : Heap A) : Type 0 where
  pub positive : 0 < h.next
  pub null_dead : h.cell null ≡ none
  pub fresh_dead : (p : ℕ) → h.next ≤ p → h.cell p ≡ none

pub update_back :
    {A : Type 0} (f : ℕ → Option A) (p : ℕ) (v : Option A)
    → f p ≡ none
    → update (update f p v) p none ≡ f
unfolding update
update_back f p v e = fun_ext (λ q. ground arith)

pub update_same :
    {A : Type 0} (f : ℕ → Option A) (p : ℕ) (v : Option A) → f p ≡ v → update f p v ≡ f
unfolding update
update_same f p v e = fun_ext (λ q. ground arith)

pub update_twice :
    {A : Type 0} (f : ℕ → Option A) (p : ℕ) (v w : Option A)
    → update (update f p v) p w ≡ update f p w
unfolding update
update_twice f p v w = fun_ext (λ q. ground arith)

pub update_at : {A : Type 0} (f : ℕ → Option A) (p : ℕ) (v : Option A) → update f p v p ≡ v
unfolding update
update_at f p v = ground arith

module _ {A : Type 0} (h : Heap A) where
  pub into_raw-IsHeap : (a : A) → IsHeap h → IsHeap (into_raw a h).1
  unfolding into_raw update
  into_raw-IsHeap a i = record {
    positive = omega (arith, i.positive);
    null_dead = ground (arith, i.positive, i.null_dead);
    fresh_dead = λ p le. ground (arith, i.fresh_dead p);
  }

  pub into_raw-ne-null : (a : A) → IsHeap h → (into_raw a h).0 ≢ null
  unfolding into_raw
  into_raw-ne-null a i = ground (arith, i.positive)

  pub cell-into_raw : (a : A) → (into_raw a h).1.cell (into_raw a h).0 ≡ some a
  unfolding into_raw update
  cell-into_raw a = ground arith

  pub into_raw-frame : (a : A) (q : ℕ) → IsHeap h → q < h.next → (into_raw a h).1.cell q ≡ h.cell q
  unfolding into_raw update
  into_raw-frame a q i lt = ground arith

  -- Freeing the box just made leaves the cells as they were.
  pub drop_raw-into_raw :
      (a : A)
      → IsHeap h
      → drop_raw (into_raw a h).0 (into_raw a h).1 ≡ some (record h { next = h.next + 1 })
  unfolding drop_raw into_raw
  drop_raw-into_raw a i = rw (
    update_at h.cell h.next (some a),
    update_back h.cell h.next (some a) (i.fresh_dead h.next (omega arith)),
    drop_raw,
  )

  -- Changing the object of the box just made is making the box of the changed object.
  pub deref_mut-into_raw :
      {B : Type 0} (f : A → A × B) (a : A)
      → deref_mut f (into_raw a h).0 (into_raw a h).1 ≡ some ((f a).1, (into_raw (f a).0 h).1)
  unfolding deref_mut into_raw
  deref_mut-into_raw f a = rw (
    update_at h.cell h.next (some a),
    update_twice h.cell h.next (some a) (some (f a).0),
    deref_mut,
  )

  pub drop_raw-IsHeap : (p : ℕ) {g : Heap A} → IsHeap h → drop_raw p h ≡ some g → IsHeap g
  unfolding drop_raw update
  drop_raw-IsHeap p {g} i e = elim (Option-cases (h.cell p)) [
    | inl dead ↦ absurd (ground arith)
    | inr (a, live) ↦
        let same : g ≡ record h { cell = update h.cell p none } = ground arith in
        rw same (record {
          positive = i.positive;
          null_dead = ground (arith, i.null_dead);
          fresh_dead = λ q le. ground (arith, i.fresh_dead q le);
        })
  ]
