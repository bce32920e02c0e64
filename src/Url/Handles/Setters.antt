-- ===== src/Url/Handles/Setters.antt =====
-- What a setter behind a handle leaves alone (src/rust/html5ever/url.rs).
use lightpanda_browser.Prelude.{ℕ, some, ◌≡◌, ◌≢◌, sym, ap, ◌∙◌, arith, Option-cases, inl, inr}
use lightpanda_browser.Ffi.{RawSlice, ℤ, minus_one}
use lightpanda_browser.Heap.{Heap, update, deref_mut}
use lightpanda_browser.Heap.Laws.{update_same}
use lightpanda_browser.Url.Crate.{UrlCrate}
use lightpanda_browser.Url.Host.{url_set_host}
use lightpanda_browser.Url.Host.Laws.{SetHostIsAtomic, url_set_host-atomic}
use lightpanda_browser.Url.Handles.{set_host_at}

module _ (u : UrlCrate) (h : Heap u.Url) (p : ℕ) (raw : RawSlice) where
  -- A `url_set_host` that returns -1 leaves every object as it was.
  pub set_host_at-atomic :
      {g : Heap u.Url} → SetHostIsAtomic u → set_host_at u p raw h ≡ some (minus_one, g) → g ≡ h
  unfolding set_host_at deref_mut
  set_host_at-atomic {g} keeps e = elim (Option-cases (h.cell p)) [
    | inl dead ↦ absurd (ground arith)
    | inr (url, live) ↦
        let failed : (url_set_host u url raw).1 ≡ minus_one = ground arith in
        let same : (url_set_host u url raw).0 ≡ url = url_set_host-atomic u url raw keeps failed in
        let made : g ≡ record h { cell = update h.cell p (some (url_set_host u url raw).0) } =
          ground arith in
        made
        ∙ ap (λ f. record h { cell = f })
            (update_same h.cell p (some (url_set_host u url raw).0) (live ∙ ap some (sym same)))
  ]

  -- A `url_set_host` changes no other object, whatever it returns.
  pub set_host_at_frame :
      {code : ℤ} {g : Heap u.Url}
      → set_host_at u p raw h ≡ some (code, g)
      → (q : ℕ) → q ≢ p
      → g.cell q ≡ h.cell q
  unfolding set_host_at deref_mut update
  set_host_at_frame {code} {g} e q ne = elim (Option-cases (h.cell p)) [
    | inl dead ↦ absurd (ground arith)
    | inr (url, live) ↦ ground arith
  ]
