-- ===== src/Seek/Tests/Judging.antt =====
-- The judgements of robocam/seek.py on small inputs, with numbers for floats.
use robo_cam_stream_processi.Seek.Coverage.{
  Sample, CoverageTracker, IsWindow, observe_all, observe, trim, observe_all-IsWindow, latest, rate,
  Ordered,
}
use robo_cam_stream_processi.Seek.Criteria.{
  T1Criteria, Scan, t1_exit_criteria, Done, t1_exit_criteria-Done, tests_of, reached, open_exits,
  stalled, still_growing, too_soon,
}
use robo_cam_stream_processi.Seek.Reach.{
  window, ReachEnvelope, judge_reach, choose_approach, around, may_stand, cell_is_clear, any_row,
  any_cell, judge_standing, judge_height,
}
use robo_cam_stream_processi.Seek.Reach.Standing.{Reachable, judge_reach-Reachable}
use robo_cam_stream_processi.Occupancy.Grid.{Grid, is_occupied}
use robo_cam_stream_processi.Prelude.{
  ℕ, List, ◌*◌, ◌≡◌, ltb, ◌∷◌, [], arith, some, Bool, true, refl, leb, ◌↔◌, none,
}
use robo_cam_stream_processi.Prelude.Int.{pos, ℤ}

abbrev second : ℕ
second = 1_000_000_000

abbrev history : List Sample
history = (10 * second, 100) ∷ (15 * second, 200) ∷ (30 * second, 260) ∷ (47 * second, 262) ∷ []

abbrev tracker : CoverageTracker
tracker = record { window = 30 * second; samples = [] }

observe_all-IsWindow_example :
    IsWindow (30 * second) (latest 0 history) history (observe_all history tracker).samples
unfolding Ordered
observe_all-IsWindow_example =
    observe_all-IsWindow history tracker refl
      (omega arith, (omega arith, (omega arith, (omega arith, tt))))

-- The first sample is forgotten: the second is older than the window too.
gained : rate (observe_all history tracker) ≡ some (pos 62, 32 * second)
unfolding rate observe_all observe trim
gained = refl

abbrev criteria : T1Criteria ℕ
criteria = record {
  min_explored = 80;
  max_open_exits = pos 0;
  stall_cells_per_s = 15;
  min_stall_window_s = 30;
  min_agreement = 15;
  min_frames = pos 300;
  min_runtime_s = 60;
}

abbrev scanned : Scan ℕ
scanned = record {
  explored_fraction = some 85;
  exits =
      record { status = "visited"; width_m = 90 } ∷ record { status = "open"; width_m = 30 } ∷ [];
  growth = some 2;
  span_s = 32;
  mean_agreement = some 20;
  frames = 400;
  runtime_s = 90;
  min_exit_width_m = 60;
}

abbrev at_least : ℕ → ℕ → Bool
at_least a b = leb b a

t1_exit_criteria-Done_example :
    (((t1_exit_criteria at_least criteria scanned).ready ≡ true)
      ↔ ((t1_exit_criteria at_least criteria scanned).blocking ≡ []))
    × ((t1_exit_criteria at_least criteria scanned).ready ≡ true → Done at_least criteria scanned)
t1_exit_criteria-Done_example = t1_exit_criteria-Done at_least criteria scanned

blocked_by :
    (t1_exit_criteria at_least criteria (record scanned { growth = none; frames = 3 })).blocking
    ≡ still_growing ∷ too_soon ∷ []
unfolding t1_exit_criteria tests_of reached open_exits stalled
blocked_by = refl

-- A wall on the left, and free floor.
abbrev grid : Grid ℕ
grid = record {
  cells = record {
    height = 2;
    width = 4;
    rows = (pos 100 ∷ pos 0 ∷ pos 0 ∷ pos 0 ∷ []) ∷ (pos 100 ∷ pos 0 ∷ pos 0 ∷ pos 0 ∷ []) ∷ [];
  };
  resolution = 5;
  origin = (0, 0, 0);
  frame = "map";
  map_id = "m";
  seq = pos 0;
  occupied_min = pos 65;
  free_max = pos 25;
  x0 = pos 0;
  y0 = pos 0;
  full = true;
  source = "";
  recv_ts_ns = 0;
  summary = none;
}

abbrev column : Grid ℕ → ℕ → ℤ × ℤ
column g c = (pos c, pos 0)

abbrev one_cell : Grid ℕ → ℕ
one_cell g = 1

abbrev envelope : ReachEnvelope column one_cell ltb
envelope = record { grasp_z_min = 3; grasp_z_max = 15; floor_tolerance_m = 0 }

-- Beside the wall there is no room, so the robot goes round.
stands_at :
    (judge_reach column one_cell ltb envelope true 9 (some grid) 1 (0 ∷ 2 ∷ 3 ∷ [])).reachable
    ≡ some true
unfolding judge_reach choose_approach around may_stand cell_is_clear window any_row any_cell
    is_occupied judge_standing judge_height
stands_at = refl

judge_reach-Reachable_example :
    Reachable column one_cell ltb envelope true 9
      (some grid)
      (judge_reach column one_cell ltb envelope true 9 (some grid) 1 (0 ∷ 2 ∷ 3 ∷ []))
judge_reach-Reachable_example =
    judge_reach-Reachable column one_cell ltb envelope true 9 (some grid) 1 (0 ∷ 2 ∷ 3 ∷ [])
      (record { tall = refl; wide = (refl, (refl, tt)) }) stands_at
