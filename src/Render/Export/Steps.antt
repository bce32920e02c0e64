-- ===== src/Render/Export/Steps.antt =====
-- A stretch of the export, put together: it pushes records on one array, each of which reads back
-- its part of the layout, and the other arrays only grow.
use lightpanda_browser.Prelude.{List, [], ◌++◌, append-nil, append_assoc, ◌≡◌, sym, ap, ◌∙◌}
use lightpanda_browser.Prelude.Slices.{All2, All2-append, All2-map}
use lightpanda_browser.Render.Export.{LayoutHandle}
use lightpanda_browser.Render.Export.Reads.{Grows, Grows-refl, Grows-trans, Fits, Fits-Grows}

module _ {F R X : Type 0} (array : LayoutHandle F → List R) where
  module _ (Reads : LayoutHandle F → R → X → Type 0) where
    pub record Exports (h g : LayoutHandle F) (parts : List X) : Type 0 where
      pub grows : Grows h g
      pub pushed : List R
      pub array_grown : array g ≡ array h ++ pushed
      pub reads : Fits g → All2 (Reads g) pushed parts

    pub Exports-nothing : (h : LayoutHandle F) → Exports h h []
    Exports-nothing h = record {
      grows = Grows-refl h;
      pushed = [];
      array_grown = sym (append-nil _);
      reads = λ fits. tt;
    }

    -- What is read stays as the arrays grow.
    abbrev pub IsStable : Type 0
    IsStable = (h g : LayoutHandle F) (r : R) (x : X) → Grows h g → Reads h r x → Reads g r x

    module _ (stays : IsStable) where
      pub Exports-append :
          {h g k : LayoutHandle F} {xs ys : List X}
          → Exports h g xs
          → Exports g k ys
          → Exports h k (xs ++ ys)
      Exports-append {h} {g} {k} {xs} {ys} a b = record {
        grows = Grows-trans a.grows b.grows;
        pushed = a.pushed ++ b.pushed;
        array_grown =
            b.array_grown
            ∙ ap (λ l. l ++ b.pushed) a.array_grown
            ∙ append_assoc (array h) a.pushed b.pushed;
        reads = λ fits.
            All2-append (Reads k) a.pushed b.pushed xs ys
              (All2-map (Reads g) (Reads k) a.pushed xs (λ r x. stays g k r x b.grows)
                (a.reads (Fits-Grows b.grows fits)))
              (b.reads fits);
      }
