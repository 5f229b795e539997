-- ===== src/Seek/Reach.antt =====
-- `_cell_is_clear`, `choose_approach` and `judge_reach` of robocam/seek.py: where to stand for a
-- target, and whether the gripper gets it. The poses to stand at and the cells that they are in are
-- float geometry, parameters here; heights are floats with the test `less`. The grid is Occupancy's.
pub mod Clearance
pub mod Standing
use robo_cam_stream_processi.Occupancy.Grid.{Grid, width, height, is_occupied}
use robo_cam_stream_processi.Occupancy.Array.{slice}
use robo_cam_stream_processi.Prelude.Int.{ℤ, pos}
use robo_cam_stream_processi.Prelude.{
  ℕ, Option, Bool, List, false, map, true, some, none, if◌then◌else◌, ◌∷◌, ◌-◌, ltb, not, ◌||◌,
  ◌&&◌, min, ◌+◌,
}
use mathlib.Core.List.{[]}

-- `np.any`
unfoldable pub any_cell : (ℤ → Bool) → List ℤ → Bool
any_cell p [] = false
any_cell p (v ∷ row) = p v || any_cell p row

unfoldable pub any_row : (ℤ → Bool) → List (List ℤ) → Bool
any_row p [] = false
any_row p (row ∷ rows) = any_cell p row || any_row p rows

module _ {F : Type 0} (grid : Grid F) where
  -- `grid.cells[r0:r1, c0:c1]`
  unfoldable pub window : ℕ → ℕ → ℕ → ℕ → List (List ℤ)
  window r0 r1 c0 c1 = map (slice c0 (c1 - c0)) (slice r0 (r1 - r0) grid.cells.rows)

  -- The disc's radius is `cells`; `none` off the grid. A column and a row.
  unfoldable pub cell_is_clear : ℕ → ℤ × ℤ → Option Bool
  cell_is_clear cells (pos c, pos r) =
      if ltb c (width grid) && ltb r (height grid)
      then some (
          not (
            any_row (is_occupied grid) (
              window (r - cells) (min (height grid) (r + cells + 1)) (c - cells)
                (min (width grid) (c + cells + 1)))))
      else none
  cell_is_clear cells (c, r) = none

-- `approach_source`, and what stands for it without a grid.
pub data Source : Type 0 where
  unchecked direct direct_off_map ring nowhere : Source

-- `is not False`
unfoldable pub may_stand : Option Bool → Bool
may_stand none = true
may_stand (some clear) = clear

unfoldable pub direct_source : Option Bool → Source
direct_source none = direct_off_map
direct_source (some clear) = if clear then direct else direct_off_map

pub data Verdict : Type 0 where
  reach_ok too_high below_floor too_low no_standing_room reach_unknown : Verdict

module _ {F Pose : Type 0} (cell_of : Grid F → Pose → ℤ × ℤ) (cells : Grid F → ℕ)
    (less : F → F → Bool) where
  abbrev pub clear_at : Grid F → Pose → Option Bool
  clear_at grid p = cell_is_clear grid (cells grid) (cell_of grid p)

  unfoldable pub around : Grid F → List Pose → Option Pose × Source
  around grid [] = (none, nowhere)
  around grid (p ∷ ps) =
      let rest = around grid ps in if may_stand (clear_at grid p) then (some p, ring) else rest

  -- The natural pose and the ring of others, nearest in angle first.
  unfoldable pub choose_approach : Option (Grid F) → Pose → List Pose → Option Pose × Source
  choose_approach none natural others = (some natural, unchecked)
  choose_approach (some grid) natural others =
      if may_stand (clear_at grid natural)
      then (some natural, direct_source (clear_at grid natural))
      else around grid others

  pub record ReachEnvelope : Type 0 where
    pub grasp_z_min : F
    pub grasp_z_max : F
    pub floor_tolerance_m : F

  pub record Reach : Type 0 where
    pub reachable : Option Bool
    pub verdict : Verdict
    pub approach : Option Pose

  -- The height, for a place where the robot can stand.
  unfoldable pub judge_height : ReachEnvelope → F → Pose → Reach
  judge_height e z p =
      if less z e.floor_tolerance_m
      then record { reachable = some false; verdict = below_floor; approach = some p }
      else if less z e.grasp_z_min
      then record { reachable = some false; verdict = too_low; approach = some p }
      else if less e.grasp_z_max z
      then record { reachable = some false; verdict = too_high; approach = some p }
      else record { reachable = some true; verdict = reach_ok; approach = some p }

  unfoldable pub judge_standing : ReachEnvelope → F → Option Pose → Reach
  judge_standing e z none = record {
    reachable = some false;
    verdict = no_standing_room;
    approach = none;
  }
  judge_standing e z (some p) = judge_height e z p

  unfoldable pub judge_reach : ReachEnvelope → Bool → F → Option (Grid F) → Pose → List Pose → Reach
  judge_reach e z_known z grid natural others =
      let approach = (choose_approach grid natural others).0 in
      if not z_known
      then record { reachable = none; verdict = reach_unknown; approach = approach }
      else judge_standing e z approach
