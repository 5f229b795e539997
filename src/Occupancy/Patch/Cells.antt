-- ===== src/Occupancy/Patch/Cells.antt =====
-- A merge cell by cell, whatever the overlap of the two grids.
use robo_cam_stream_processi.Prelude.Int.{ℤ, pos, negsuc, ◌-ℤ◌, ◌≤ℤ◌, leb_ℤ, ltb_ℤ}
use robo_cam_stream_processi.Occupancy.Patch.Clip.{
  get_at, overlay, over, apart-over, paste-over, overlay-none,
}
use robo_cam_stream_processi.Prelude.{
  Option, ℕ, String, List, length, ◌≡◌, get_elem?, none, sym, refl, arith, ◌∷◌, Bool-cases, ap,
  some_inj, ◌∙◌, true, ◌&&◌, suc, inl, inr,
}
use robo_cam_stream_processi.Occupancy.Array.{Array, cell, paste, AllWide, cell_of, IsRect}
use robo_cam_stream_processi.Occupancy.Patch.{
  merge_cell, clip, Overlap, some, overlaid, apply_patch, supported,
}
use mathlib.Core.Option.{none}
use robo_cam_stream_processi.Occupancy.Grid.{Grid}
use mathlib.Core.List.{[]}
use Prim.Native.Nat.{zero}

row_at : Option (List ℤ) → ℤ → Option ℤ
row_at none col = none
row_at (some row) col = get_at row col

-- The cell at a signed row and column, `none` outside.
pub cell_at : Array → ℤ → ℤ → Option ℤ
unfolding row_at
cell_at a row col = row_at (get_at a.rows row) col

length_row :
    (w : ℕ) (rows : List (List ℤ))
    → AllWide w rows
    → (r : ℕ) (row : List ℤ) → get_elem? rows r ≡ some row
    → length row ≡ w
length_row w [] v r row e = absurd cc
length_row w (x ∷ rows) (l, v) zero row e = ap length (sym (some_inj e)) ∙ l
length_row w (x ∷ rows) (l, v) (suc r) row e = length_row w rows v r row e

length_row_at :
    (w : ℕ) (rows : List (List ℤ))
    → AllWide w rows
    → (r : ℤ) (row : List ℤ) → get_at rows r ≡ some row
    → length row ≡ w
length_row_at w rows v (pos r) row e = length_row w rows v r row e
length_row_at w rows v (negsuc r) row e = absurd cc

-- What a merge leaves at a cell, from what the two grids held there.
pub merged_at : String → Array → ℤ → ℤ → Array → ℕ → ℕ → Option ℤ
merged_at merge patch x0 y0 cells r c =
    overlay (merge_cell merge) (cell cells r c) (cell_at patch (pos r -ℤ y0) (pos c -ℤ x0))

module _ (merge : String) (x0 : ℤ) (w pw c : ℕ) where
  -- A function of two rows that merges them at column `c`.
  Merges : (List ℤ → List ℤ → List ℤ) → Type 0
  Merges f =
      (row prow : List ℤ)
      → length row ≡ w
      → length prow ≡ pw
      → get_elem? (f row prow) c ≡ over (merge_cell merge) row prow x0 c

  keep-Merges : clip w x0 pw ≡ none → Merges (λ row prow. row)
  unfolding Merges
  keep-Merges e row prow p q =
      sym (apart-over (merge_cell merge) row prow x0 w pw (sym p) (sym q) e c)

  paste-Merges :
      (x : Overlap)
      → clip w x0 pw ≡ some x
      → Merges (paste (merge_cell merge) x.start x.count x.from)
  unfolding Merges
  paste-Merges x e row prow p q =
      paste-over (merge_cell merge) row prow x0 w pw x (sym p) (sym q) e c

  cell_of-overlay :
      (f : List ℤ → List ℤ → List ℤ)
      → Merges f
      → (a b : Option (List ℤ)) → ((row : List ℤ) → a ≡ some row → length row ≡ w)
      → ((row : List ℤ) → b ≡ some row → length row ≡ pw)
      → cell_of (overlay f a b) c
        ≡ overlay (merge_cell merge) (cell_of a c) (row_at b (pos c -ℤ x0))
  unfolding Merges row_at
  cell_of-overlay f m none b p q = refl
  cell_of-overlay f m (some row) none p q = sym (overlay-none (merge_cell merge) (get_elem? row c))
  cell_of-overlay f m (some row) (some prow) p q = m row prow (p row refl) (q prow refl)

keep_overlay {ℓ κ} :
    {A : Type ℓ} {B : Type κ} (a : Option A) (b : Option B) → overlay (λ x y. x) a b ≡ a
keep_overlay none b = refl
keep_overlay (some a) none = refl
keep_overlay (some a) (some b) = refl

module _ {F : Type 0} (grid patch : Grid F) (merge : String) where
  cell_by :
      IsRect grid.cells
      → IsRect patch.cells
      → (r c : ℕ) (f : List ℤ → List ℤ → List ℤ)
      → Merges merge patch.x0 grid.cells.width patch.cells.width c f
      → cell_of (over f grid.cells.rows patch.cells.rows patch.y0 r) c
        ≡ merged_at merge patch.cells patch.x0 patch.y0 grid.cells r c
  unfolding merged_at cell cell_at
  cell_by g p r c f m =
      cell_of-overlay merge patch.x0 grid.cells.width patch.cells.width c f m
        (get_elem? grid.cells.rows r) (get_at patch.cells.rows (pos r -ℤ patch.y0))
        (length_row grid.cells.width grid.cells.rows g.wide r)
        (length_row_at patch.cells.width patch.cells.rows p.wide (pos r -ℤ patch.y0))

  abbrev xs : Option Overlap
  xs = clip grid.cells.width patch.x0 patch.cells.width

  abbrev ys : Option Overlap
  ys = clip grid.cells.height patch.y0 patch.cells.height

  -- The three cases of an overlap: none across, none down, or both.
  overlaid-merged_at :
      IsRect grid.cells
      → IsRect patch.cells
      → (o o' : Option Overlap) → xs ≡ o
      → ys ≡ o'
      → (r c : ℕ)
      → cell (overlaid grid patch.cells merge o o').0.cells r c
        ≡ merged_at merge patch.cells patch.x0 patch.y0 grid.cells r c
  unfolding overlaid cell
  overlaid-merged_at g p none o' e e' r c =
      ap (λ a. cell_of a c)
        (sym (
          keep_overlay (get_elem? grid.cells.rows r) (get_at patch.cells.rows (pos r -ℤ patch.y0))))
      ∙ cell_by g p r c (λ row prow. row)
          (keep-Merges merge patch.x0 grid.cells.width patch.cells.width c e)
  overlaid-merged_at g p (some x) none e e' r c =
      let f = paste (merge_cell merge) x.start x.count x.from in
      ap (λ a. cell_of a c)
        (sym (
          apart-over f grid.cells.rows patch.cells.rows patch.y0 grid.cells.height
            patch.cells.height (sym g.tall) (sym p.tall) e' r))
      ∙ cell_by g p r c f (paste-Merges merge patch.x0 grid.cells.width patch.cells.width c x e)
  overlaid-merged_at g p (some x) (some y) e e' r c =
      let f = paste (merge_cell merge) x.start x.count x.from in
      ap (λ a. cell_of a c)
        (paste-over f grid.cells.rows patch.cells.rows patch.y0 grid.cells.height patch.cells.height
          y (sym g.tall) (sym p.tall) e' r)
      ∙ cell_by g p r c f (paste-Merges merge patch.x0 grid.cells.width patch.cells.width c x e)

  -- On rectangular grids and a merge word that exists, `apply_patch` returns a grid, and each cell
  -- of that grid is the old one with the patch's cell of the same place merged in, where the patch,
  -- whose cell (0, 0) lies at row y0 and column x0, has one; other cells are as they were.
  pub apply_patch-merged_at :
      IsRect grid.cells
      → IsRect patch.cells
      → supported merge ≡ true
      → (after : Grid F × ℕ) × (apply_patch grid patch merge ≡ some after)
        × ((r c : ℕ)
            → cell after.0.cells r c ≡ merged_at merge patch.cells patch.x0 patch.y0 grid.cells r c)
  unfolding apply_patch
  apply_patch-merged_at g p s =
      (overlaid grid patch.cells merge xs ys, rw s refl, overlaid-merged_at g p xs ys refl refl)

raised :
    (v : ℤ) (b : Option ℤ)
    → pos 0 ≤ℤ v
    → (w : ℤ) × (overlay (merge_cell "max") (some v) b ≡ some w) × (v ≤ℤ w)
unfolding merge_cell
raised v none h = (v, refl, omega arith)
raised v (some u) h = elim (Bool-cases (leb_ℤ (pos 0) u && ltb_ℤ v u)) [
  | inl up ↦ (u, rw up refl, ground arith)
  | inr same ↦ (v, rw same refl, omega arith)
]

-- A "max" merge never lowers a cell that the grid has observed and never returns one to unknown:
-- an observed cell holds at least its old value afterwards.
pub apply_patch_raises :
    {F : Type 0} (grid patch : Grid F) (after : Grid F × ℕ)
    → IsRect grid.cells
    → IsRect patch.cells
    → apply_patch grid patch "max" ≡ some after
    → (r c : ℕ) (v : ℤ) → cell grid.cells r c ≡ some v
    → pos 0 ≤ℤ v
    → (w : ℤ) × (cell after.0.cells r c ≡ some w) × (v ≤ℤ w)
unfolding merged_at
apply_patch_raises grid patch after g p e r c v at h =
    let (after', e', m) = apply_patch-merged_at grid patch "max" g p refl in
    let (w, f, le) = raised v (cell_at patch.cells (pos r -ℤ patch.y0) (pos c -ℤ patch.x0)) h in
    let same : after ≡ after' = some_inj (sym e ∙ e') in (w, rw same (m r c ∙ rw at f), le)
