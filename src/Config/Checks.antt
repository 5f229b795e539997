-- ===== src/Config/Checks.antt =====
-- The `__post_init__` of each section of robocam/config.py.
use robo_cam_stream_processi.Config.Sections.{
  QueueConfig, ProcessorConfig, LidarConfig, ImuConfig, OdomConfig, MapConfig, CompareConfig,
  MissionConfig, SeekConfig,
}
use robo_cam_stream_processi.Prelude.{
  Bool, List, String, Option, false, not, ◌∷◌, none, str_eq, [], ◌&&◌, if◌then◌else◌, ◌||◌, some,
}
use robo_cam_stream_processi.Prelude.Int.{pos, ℤ, ltb_ℤ, leb_ℤ}

-- The tests on floats.
pub record Floats : Type 1 where
  pub F : Type 0
  pub lt : F → F → Bool
  pub le : F → F → Bool
  pub of_int : ℤ → F

-- `raise ConfigError(message)` where the test holds; `none` is a section that passes.
abbrev pub Check : Type 0
Check = Bool × String

unfoldable pub first_failure : List Check → Option String
first_failure [] = none
first_failure ((test, message) ∷ rest) =
    let later = first_failure rest in if test then some message else later

unfoldable pub one_of : String → List String → Bool
one_of word [] = false
one_of word (w ∷ ws) = str_eq word w || one_of word ws

module _ (f : Floats) (O : Type 0) where
  open f use {F, lt, le, of_int}

  abbrev pub zero_f : F
  zero_f = of_int (pos 0)

  abbrev pub one_f : F
  one_f = of_int (pos 1)

  unfoldable pub queue_checks : QueueConfig F O → List Check
  queue_checks c =
      (
        not (one_of c.drop_policy ("oldest" ∷ "newest" ∷ [])),
        "queue.drop_policy must be 'oldest' or 'newest'",
      )
      ∷ (ltb_ℤ c.max_depth (pos 1), "queue.max_depth must be >= 1")
      ∷ []

  unfoldable pub processor_checks : ProcessorConfig F O → List Check
  processor_checks c = (ltb_ℤ c.workers (pos 1), "processor.workers must be >= 1") ∷ []

  unfoldable pub lidar_checks : LidarConfig F O → List Check
  lidar_checks c =
      (ltb_ℤ c.sectors (pos 1), "lidar.sectors must be >= 1")
      ∷ (ltb_ℤ c.fov_bins (pos 1), "lidar.fov_bins must be >= 1")
      ∷ (
        not (lt zero_f c.camera_hfov_deg && lt c.camera_hfov_deg (of_int (pos 180))),
        "lidar.camera_hfov_deg must be in (0, 180)",
      )
      ∷ (
        le c.front_deg zero_f || lt (of_int (pos 360)) c.front_deg,
        "lidar.front_deg must be in (0, 360]",
      )
      ∷ []

  unfoldable pub imu_checks : ImuConfig F O → List Check
  imu_checks c =
      (lt c.still_gyro_dps zero_f, "imu.still_gyro_dps must be >= 0")
      ∷ (lt c.still_accel_ms2 zero_f, "imu.still_accel_ms2 must be >= 0")
      ∷ (
        not (lt zero_f c.tilt_warn_deg && le c.tilt_warn_deg (of_int (pos 180))),
        "imu.tilt_warn_deg must be in (0, 180]",
      )
      ∷ (le c.shock_ms2 zero_f, "imu.shock_ms2 must be > 0")
      ∷ []

  unfoldable pub odom_checks : OdomConfig F O → List Check
  odom_checks c = (lt c.stale_after_ms zero_f, "odom.stale_after_ms must be >= 0") ∷ []

  unfoldable pub map_checks : MapConfig F O → List Check
  map_checks c =
      (ltb_ℤ c.max_cells (pos 1), "map.max_cells must be >= 1")
      ∷ (not (one_of c.merge ("max" ∷ "replace" ∷ [])), "map.merge must be 'max' or 'replace'")
      ∷ (
        not (leb_ℤ (pos 0) c.occupied_value && leb_ℤ c.occupied_value (pos 100)),
        "map.occupied_value must be in [0, 100]",
      )
      ∷ []

  unfoldable pub compare_checks : CompareConfig F O → List Check
  compare_checks c =
      (le c.z_max c.z_min, "compare.z_min must be below compare.z_max")
      ∷ (ltb_ℤ c.min_points (pos 1), "compare.min_points must be >= 1")
      ∷ (ltb_ℤ c.search_cells (pos 0), "compare.search_cells must be >= 0")
      ∷ (le c.region_block_m zero_f, "compare.region_block_m must be > 0")
      ∷ (ltb_ℤ c.region_min_cells (pos 1), "compare.region_min_cells must be >= 1")
      ∷ (ltb_ℤ c.max_regions (pos 0), "compare.max_regions must be >= 0")
      ∷ []

  unfoldable pub mission_checks : MissionConfig F O → List Check
  mission_checks c =
      (not (one_of c.phase ("t1" ∷ "t2" ∷ [])), "mission.phase must be 't1' or 't2'")
      ∷ (lt c.min_exit_width_m zero_f, "mission.min_exit_width_m must be >= 0")
      ∷ (
        not (le zero_f c.t1_min_explored && le c.t1_min_explored one_f),
        "mission.t1_min_explored must be between 0 and 1",
      )
      ∷ []

  unfoldable pub seek_checks : SeekConfig F O → List Check
  seek_checks c =
      (ltb_ℤ c.detect_every_n (pos 1), "seek.detect_every_n must be >= 1")
      ∷ (le c.grasp_z_max c.grasp_z_min, "seek.grasp_z_max must be above grasp_z_min")
      ∷ (
        lt c.grasp_z_min c.floor_tolerance_m,
        "seek.floor_tolerance_m must be at or below grasp_z_min",
      )
      ∷ (ltb_ℤ c.min_points (pos 1), "seek.min_points must be >= 1")
      ∷ (
        not (lt zero_f c.box_keep_frac && le c.box_keep_frac one_f),
        "seek.box_keep_frac must be in (0, 1]",
      )
      ∷ []
