-- ===== src/Seek/Reach/Clearance.antt =====
-- `_cell_is_clear` of robocam/seek.py: the window that it looks at.
use robo_cam_stream_processi.Seek.Reach.{any_cell, any_row, window, cell_is_clear, may_stand}
use robo_cam_stream_processi.Occupancy.Grid.{Grid, width, height, is_occupied}
use robo_cam_stream_processi.Occupancy.Array.{slice, IsRect, AllWide}
use robo_cam_stream_processi.Prelude.Int.{ℤ, pos}
use robo_cam_stream_processi.Prelude.{
  List, ℕ, Bool, get_elem?, ◌+◌, ◌≤◌, ◌≡◌, ◌-◌, false, some, ◌<◌, min, true, ◌∷◌, map,
  get_elem?-take, length, arith, subst, some_inj, ap, drop, suc, ◌∙◌, get_elem?-drop,
}
use mathlib.Core.List.{[]}
use Prim.Native.Nat.{zero}

any_cell-false :
    (p : ℤ → Bool) (row : List ℤ) (j : ℕ) (v : ℤ)
    → any_cell p row ≡ false
    → get_elem? row j ≡ some v
    → p v ≡ false
unfolding any_cell
any_cell-false p [] j v none_of e = absurd cc
any_cell-false p (w ∷ row) zero v none_of e =
    let same : w ≡ v = some_inj e in subst (λ k. p k ≡ false) same (ground (arith, none_of))
any_cell-false p (w ∷ row) (suc j) v none_of e =
    any_cell-false p row j v (ground (arith, none_of)) e

any_row-false :
    (p : ℤ → Bool) (rows : List (List ℤ)) (i : ℕ) (row : List ℤ)
    → any_row p rows ≡ false
    → get_elem? rows i ≡ some row
    → any_cell p row ≡ false
unfolding any_row
any_row-false p [] i row none_of e = absurd cc
any_row-false p (r ∷ rows) zero row none_of e =
    let same : r ≡ row = some_inj e in
    subst (λ k. any_cell p k ≡ false) same (ground (arith, none_of))
any_row-false p (r ∷ rows) (suc i) row none_of e =
    any_row-false p rows i row (ground (arith, none_of)) e

get_elem?-map :
    {A B : Type 0} (f : A → B) (xs : List A) (i : ℕ) (x : A)
    → get_elem? xs i ≡ some x
    → get_elem? (map f xs) i ≡ some (f x)
get_elem?-map f [] i x e = absurd cc
get_elem?-map f (y ∷ ys) zero x e = ap (λ k. some (f k)) (some_inj e)
get_elem?-map f (y ∷ ys) (suc i) x e = get_elem?-map f ys i x e

get_elem?-slice :
    {A : Type 0} (i n j k : ℕ) (xs : List A)
    → i + j ≡ k
    → j < n
    → get_elem? (slice i n xs) j ≡ get_elem? xs k
get_elem?-slice i n j k xs e h = get_elem?-take n (drop i xs) j h ∙ get_elem?-drop i xs j k e

get_elem?-lt : {A : Type 0} (xs : List A) (i : ℕ) (x : A) → get_elem? xs i ≡ some x → i < length xs
get_elem?-lt [] i x e = absurd cc
get_elem?-lt (y ∷ ys) zero x e = omega arith
get_elem?-lt (y ∷ ys) (suc i) x e = omega (arith, get_elem?-lt ys i x e)

wide_row :
    (w : ℕ) (rows : List (List ℤ)) (i : ℕ) (row : List ℤ)
    → AllWide w rows
    → get_elem? rows i ≡ some row
    → length row ≡ w
wide_row w [] i row all e = absurd cc
wide_row w (r ∷ rows) zero row (here, all) e =
    subst (λ (k : List ℤ). length k ≡ w) (some_inj e) here
wide_row w (r ∷ rows) (suc i) row (here, all) e = wide_row w rows i row all e

-- Within `k` of each other.
abbrev pub Near : ℕ → ℕ → ℕ → Type 0
Near k a b = (a ≤ b + k) × (b ≤ a + k)

module _ {F : Type 0} (grid : Grid F) where
  -- No cell of the grid within `cells` columns and rows of the place is occupied.
  unfoldable pub StandsClear : ℕ → ℤ × ℤ → Type 0
  StandsClear cells at =
      (c r i j : ℕ) (row : List ℤ) (v : ℤ)
      → at ≡ (pos c, pos r)
      → (c < width grid) × (r < height grid)
      → Near cells i r
      → Near cells j c
      → get_elem? grid.cells.rows i ≡ some row
      → get_elem? row j ≡ some v
      → is_occupied grid v ≡ false

  window-clear :
      (cells c r i j : ℕ) (row : List ℤ) (v : ℤ)
      → IsRect grid.cells
      → any_row (is_occupied grid) (
          window grid
            (r - cells)
            (min (height grid) (r + cells + 1))
            (c - cells)
            (min (width grid) (c + cells + 1)))
        ≡ false
      → Near cells i r
      → Near cells j c
      → get_elem? grid.cells.rows i ≡ some row
      → get_elem? row j ≡ some v
      → is_occupied grid v ≡ false
  unfolding window
  window-clear cells c r i j row v rect clear near_r near_c at_i at_j =
      let r0 = r - cells in
      let c0 = c - cells in
      let r1 = min (height grid) (r + cells + 1) in
      let c1 = min (width grid) (c + cells + 1) in
      let tall = get_elem?-lt grid.cells.rows i row at_i in
      let wide = get_elem?-lt row j v at_j in
      let long = wide_row (width grid) grid.cells.rows i row rect.wide at_i in
      let in_rows =
        get_elem?-slice r0 (r1 - r0) (i - r0) i grid.cells.rows (omega (arith, near_r))
          (omega (arith, near_r, tall, rect.tall))
        ∙ at_i in
      let in_row =
        get_elem?-slice c0 (c1 - c0) (j - c0) j row (omega (arith, near_c))
          (omega (arith, near_c, wide, long))
        ∙ at_j in
      any_cell-false (is_occupied grid) (slice c0 (c1 - c0) row) (j - c0) v
        (any_row-false (is_occupied grid)
          (map (slice c0 (c1 - c0)) (slice r0 (r1 - r0) grid.cells.rows)) (i - r0)
          (slice c0 (c1 - c0) row) clear
          (get_elem?-map (slice c0 (c1 - c0)) (slice r0 (r1 - r0) grid.cells.rows) (i - r0) row
            in_rows))
        in_row

  pub cell_is_clear-StandsClear :
      (cells : ℕ) (at : ℤ × ℤ)
      → IsRect grid.cells
      → may_stand (cell_is_clear grid cells at) ≡ true
      → StandsClear cells at
  unfolding StandsClear cell_is_clear may_stand
  cell_is_clear-StandsClear cells at rect ok c r i j row v e inside near_r near_c at_i at_j =
      window-clear cells c r i j row v rect
        (let ok' = subst (λ p. may_stand (cell_is_clear grid cells p) ≡ true) e ok in
          ground (arith, inside, ok'))
        near_r near_c at_i at_j
