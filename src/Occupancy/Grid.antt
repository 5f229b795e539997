-- ===== src/Occupancy/Grid.antt =====
-- `Grid` of robocam/occupancy.py. Resolutions and origins are floats, a parameter `F`: nothing here
-- computes with them. A cell is an int8, as the integer that it stands for.
use robo_cam_stream_processi.Prelude.{
  ℕ, ◌-◌, String, ◌*◌, Bool, Option, not, List, ◌&&◌, ◌∷◌, if◌then◌else◌, ◌+◌, ◌≤◌, arith, length,
  ◌≡◌, suc, ap,
}
use robo_cam_stream_processi.Occupancy.Array.{Array, AllWide, IsRect}
use robo_cam_stream_processi.Prelude.Int.{ℤ, ltb_ℤ, leb_ℤ, pos, ◌≤ℤ◌, ◌-ℤ◌}
use mathlib.Core.List.{[]}

pub record Counts : Type 0 where
  pub occupied : ℕ
  pub free : ℕ
  pub unknown : ℕ
  pub uncertain : ℕ

pub record Grid (F : Type 0) : Type 0 where
  pub cells : Array
  pub resolution : F
  pub origin : F × F × F
  pub frame : String
  pub map_id : String
  pub seq : ℤ
  pub occupied_min : ℤ
  pub free_max : ℤ
  pub x0 : ℤ
  pub y0 : ℤ
  pub full : Bool
  pub source : String
  pub recv_ts_ns : ℕ
  -- The four counts of `analyse`; its other entries repeat fields of the grid or are ratios of these.
  pub summary : Option Counts

module _ {F : Type 0} (grid : Grid F) where
  abbrev pub width : ℕ
  width = grid.cells.width

  abbrev pub height : ℕ
  height = grid.cells.height

  pub size : ℕ
  size = height * width

  -- `classify`, cell by cell.
  pub is_unknown : ℤ → Bool
  is_unknown v = ltb_ℤ v (pos 0)

  unfoldable pub is_occupied : ℤ → Bool
  is_occupied v = leb_ℤ grid.occupied_min v

  pub is_free : ℤ → Bool
  unfolding is_unknown
  is_free v = not (is_unknown v) && leb_ℤ v grid.free_max

-- `mask.sum()`
pub count_row : (ℤ → Bool) → List ℤ → ℕ
count_row p [] = 0
count_row p (v ∷ row) = (if p v then 1 else 0) + count_row p row

pub count_if : (ℤ → Bool) → List (List ℤ) → ℕ
count_if p [] = 0
count_if p (row ∷ rows) = count_row p row + count_if p rows

module _ {F : Type 0} (grid : Grid F) where
  pub counts : Counts
  counts = record {
    occupied = count_if (is_occupied grid) grid.cells.rows;
    free = count_if (is_free grid) grid.cells.rows;
    unknown = count_if (is_unknown grid) grid.cells.rows;
    uncertain =
        size grid
        - count_if (is_occupied grid) grid.cells.rows
        - count_if (is_free grid) grid.cells.rows
        - count_if (is_unknown grid) grid.cells.rows;
  }

module _ {F : Type 0} (grid : Grid F) (low : pos 0 ≤ℤ grid.free_max)
    (gap : grid.free_max ≤ℤ grid.occupied_min -ℤ pos 1) where
  one_class :
      (v : ℤ)
      → (if is_occupied grid v then 1 else 0)
          + ((if is_free grid v then 1 else 0) + (if is_unknown grid v then 1 else 0))
        ≤ 1
  unfolding is_occupied is_free is_unknown
  one_class v = ground (arith, low, gap)

  row_classes :
      (row : List ℤ)
      → count_row (is_occupied grid) row
          + (count_row (is_free grid) row + count_row (is_unknown grid) row)
        ≤ length row
  unfolding count_row
  row_classes [] = omega arith
  row_classes (v ∷ row) = omega (arith, one_class v, row_classes row)

  all_classes :
      (rows : List (List ℤ))
      → AllWide grid.cells.width rows
      → count_if (is_occupied grid) rows
          + (count_if (is_free grid) rows + count_if (is_unknown grid) rows)
        ≤ length rows * grid.cells.width
  unfolding count_if
  all_classes [] v = omega arith
  all_classes (row ∷ rows) (l, v) =
      let area : suc (length rows) * grid.cells.width
          ≡ length rows * grid.cells.width + grid.cells.width =
        omega arith in
      omega (arith, all_classes rows v, row_classes row, l, area)

  -- On a rectangular grid with thresholds 0 ≤ free_max < occupied_min, the four counts add up to
  -- the number of cells: no cell is in two classes, and the subtraction never goes under 0.
  pub counts-total :
      IsRect grid.cells
      → (counts grid).occupied
          + (counts grid).free
          + (counts grid).unknown
          + (counts grid).uncertain
        ≡ size grid
  unfolding counts size
  counts-total r =
      let total : length grid.cells.rows * grid.cells.width ≡ grid.cells.height * grid.cells.width =
        ap (λ n. n * grid.cells.width) r.tall in
      omega (arith, all_classes grid.cells.rows r.wide, total)
