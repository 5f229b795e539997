-- ===== src/Occupancy/Patch.antt =====
-- `apply_patch` of robocam/occupancy.py: merging one grid into another.
mod Clip
pub mod Cells
use robo_cam_stream_processi.Occupancy.Array.{Array, slice, paste, count_ne_rows, zip_with}
use robo_cam_stream_processi.Occupancy.Grid.{Grid}
use robo_cam_stream_processi.Prelude.{
  String, ℕ, Bool, Option, str_eq, if◌then◌else◌, some, ◌||◌, map, none, ◌&&◌, ◌-◌,
}
use robo_cam_stream_processi.Prelude.Int.{ℤ, pos_part, leb_ℤ, min_ℤ, pos, ◌+ℤ◌, ltb_ℤ, neg_part}

abbrev pub merge_max : String
merge_max = "max"

abbrev pub merge_replace : String
merge_replace = "replace"

abbrev pub supported : String → Bool
supported merge = str_eq merge merge_max || str_eq merge merge_replace

-- `target[:] = source`, or `np.where(has_opinion & (source > target), source, target)`.
unfoldable pub merge_cell : String → ℤ → ℤ → ℤ
merge_cell merge target source =
    if str_eq merge merge_replace
    then source
    else if leb_ℤ (pos 0) source && ltb_ℤ target source
    then source
    else target

-- One axis of the clipping: where the destination starts, how far it goes and where the source
-- starts; `none` where nothing overlaps.
pub record Overlap : Type 0 where
  pub start : ℕ
  pub count : ℕ
  pub from : ℕ

unfoldable pub clip : ℕ → ℤ → ℕ → Option Overlap
clip extent offset patch_extent =
    let start = pos_part offset in
    let stop = min_ℤ (pos extent) (offset +ℤ pos patch_extent) in
    if leb_ℤ stop (pos start)
    then none
    else some (record { start = start; count = pos_part stop - start; from = neg_part offset })

module _ {F : Type 0} where
  -- The grid after the merge and how many cells changed; `none` is the MapError.
  unfoldable pub overlaid : Grid F → Array → String → Option Overlap → Option Overlap → Grid F × ℕ
  overlaid grid patch merge none ys = (grid, 0)
  overlaid grid patch merge (some x) none = (grid, 0)
  overlaid grid patch merge (some x) (some y) =
      let target = map (slice x.start x.count) (slice y.start y.count grid.cells.rows) in
      let source = map (slice x.from x.count) (slice y.from y.count patch.rows) in
      let merged = zip_with (zip_with (merge_cell merge)) target source in
      let cells = record grid.cells {
        rows =
            paste (paste (merge_cell merge) x.start x.count x.from) y.start y.count y.from
              grid.cells.rows patch.rows;
      } in
      (record grid { cells = cells }, count_ne_rows merged target)

  unfoldable pub apply_patch : Grid F → Grid F → String → Option (Grid F × ℕ)
  unfolding overlaid
  apply_patch grid patch merge =
      if supported merge
      then some (
          overlaid grid patch.cells merge (clip grid.cells.width patch.x0 patch.cells.width)
            (clip grid.cells.height patch.y0 patch.cells.height))
      else none
