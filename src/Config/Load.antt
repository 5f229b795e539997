-- ===== src/Config/Load.antt =====
-- `Config.from_dict` of robocam/config.py: the names of the sections and of their keys are checked,
-- then each section's values.
use robo_cam_stream_processi.Prelude.{
  List, String, ◌∷◌, [], Bool, Option, true, none, false, some, ◌⊎◌, ◌&&◌, if◌then◌else◌, not, inl,
  inr,
}
use robo_cam_stream_processi.Prelude.Dict.{get, string_eq, Dict}
use robo_cam_stream_processi.Config.Checks.{
  Floats, Check, one_of, queue_checks, processor_checks, first_failure, lidar_checks, imu_checks,
  odom_checks, map_checks, compare_checks, mission_checks, seek_checks,
}
use robo_cam_stream_processi.Config.Sections.{Config}

-- What the YAML has under a section's name: nothing or an empty value, a mapping with its keys, or
-- something else.
pub data Section : Type 0 where
  absent : Section
  mapping : List String → Section
  no_mapping : Section

abbrev pub Raw : Type 0
Raw = Dict String Section

-- `{f.name for f in dataclasses.fields(...)}`, in the order that `from_dict` goes through.
abbrev pub valid_keys : Dict String (List String)
valid_keys =
    (
      "server",
      "bind" ∷ "io_poll_ms" ∷ "session_timeout_s" ∷ "max_payload_bytes" ∷ "rcvhwm" ∷ "sndhwm" ∷ [],
    )
    ∷ ("queue", "max_depth" ∷ "drop_policy" ∷ [])
    ∷ ("processor", "name" ∷ "workers" ∷ "options" ∷ [])
    ∷ (
      "lidar",
      "enabled" ∷ "mount_yaw_deg" ∷ "camera_hfov_deg" ∷ "sectors" ∷ "obstacle_m" ∷ "clear_m"
          ∷ "min_free_deg" ∷ "front_deg" ∷ "fov_bins" ∷ "stale_after_ms" ∷ [],
    )
    ∷ (
      "imu",
      "enabled" ∷ "still_gyro_dps" ∷ "still_accel_ms2" ∷ "tilt_warn_deg" ∷ "shock_ms2"
          ∷ "gravity_tolerance_ms2" ∷ "stale_after_ms" ∷ [],
    )
    ∷ (
      "odom",
      "enabled" ∷ "stale_after_ms" ∷ "still_speed_ms" ∷ "still_yaw_rate_dps" ∷ "expect_frame" ∷ [],
    )
    ∷ (
      "map",
      "enabled" ∷ "max_cells" ∷ "stale_after_ms" ∷ "send_updates" ∷ "min_update_cells"
          ∷ "occupied_value" ∷ "merge" ∷ "min_update_interval_ms" ∷ [],
    )
    ∷ (
      "compare",
      "enabled" ∷ "z_min" ∷ "z_max" ∷ "min_points" ∷ "camera_x" ∷ "camera_y" ∷ "camera_z"
          ∷ "camera_roll" ∷ "camera_pitch" ∷ "camera_yaw" ∷ "send_hints" ∷ "search_cells"
          ∷ "min_hint_interval_ms" ∷ "send_agreement" ∷ "min_agreement_interval_ms"
          ∷ "region_block_m" ∷ "region_min_cells" ∷ "max_regions" ∷ [],
    )
    ∷ (
      "mission",
      "phase" ∷ "target" ∷ "rank_exits" ∷ "min_exit_width_m" ∷ "turn_cost_m_per_rad"
          ∷ "approach_standoff_m" ∷ "t1_exit_report" ∷ "t1_min_explored" ∷ "t1_max_open_exits"
          ∷ "t1_stall_cells_per_s" ∷ "t1_min_stall_window_s" ∷ "t1_min_agreement" ∷ "t1_min_frames"
          ∷ "t1_min_runtime_s" ∷ [],
    )
    ∷ (
      "seek",
      "enabled" ∷ "detector" ∷ "detector_options" ∷ "detect_every_n" ∷ "min_confidence"
          ∷ "min_points" ∷ "min_point_conf" ∷ "depth_band_m" ∷ "box_keep_frac"
          ∷ "min_found_interval_ms" ∷ "absent_after_runs" ∷ "resend_move_m" ∷ "grasp_z_max"
          ∷ "grasp_z_min" ∷ "floor_tolerance_m" ∷ "reach_radius_m" ∷ "robot_radius_m" ∷ "keyframes"
          ∷ "keyframe_max" ∷ "keyframe_spacing_m" ∷ "keyframe_spacing_rad"
          ∷ "recall_budget_per_frame" ∷ "memory_ttl_s" ∷ [],
    )
    ∷ (
      "snapshot",
      "enabled" ∷ "dir" ∷ "every_n_frames" ∷ "latest_only" ∷ "jpeg_quality" ∷ "lidar_overlay"
          ∷ "imu_overlay" ∷ [],
    )
    ∷ ("logging", "level" ∷ "stats_interval_s" ∷ [])
    ∷ []

-- `ConfigError`: which of the refusals it is, with the section or the message.
pub data ConfigError : Type 0 where
  unknown_sections : ConfigError
  not_a_mapping : String → ConfigError
  unknown_keys : String → ConfigError
  refused : String → ConfigError

abbrev pub is_some : {A : Type 0} → Option A → Bool
is_some none = false
is_some (some a) = true

-- `set(raw) - set(sections)` is empty.
unfoldable pub all_known : {V : Type 0} → Raw → Dict String V → Bool
all_known [] valid = true
all_known ((name, section) ∷ rest) valid = is_some (get name valid) && all_known rest valid

unfoldable pub all_one_of : List String → List String → Bool
all_one_of [] valid = true
all_one_of (key ∷ keys) valid = one_of key valid && all_one_of keys valid

-- `section = raw.get(name) or {}` and its two checks.
unfoldable pub bad_section : String → List String → Section → Option ConfigError
bad_section name valid absent = none
bad_section name valid no_mapping = some (not_a_mapping name)
bad_section name valid (mapping keys) =
    if all_one_of keys valid then none else some (unknown_keys name)

-- `raw.get(name)`
unfoldable pub section_of : String → Raw → Section
section_of name raw = elim (get name raw) [ none ↦ absent | some section ↦ section ]

module _ (f : Floats) (O : Type 0) where
  -- What a section's constructor checks, in the order in which the sections are built.
  unfoldable pub checks_of : Config f.F O → List (List Check)
  checks_of c =
      []
      ∷ queue_checks f O c.queue
      ∷ processor_checks f O c.processor
      ∷ lidar_checks f O c.lidar
      ∷ imu_checks f O c.imu
      ∷ odom_checks f O c.odom
      ∷ map_checks f O c.map
      ∷ compare_checks f O c.compare
      ∷ mission_checks f O c.mission
      ∷ seek_checks f O c.seek
      ∷ []
      ∷ []
      ∷ []

  -- `for name, factory in (...)`
  unfoldable pub build : Raw → Dict String (List String) → List (List Check) → Option ConfigError
  build raw [] checks = none
  build raw ((name, valid) ∷ rest) [] = none
  build raw ((name, valid) ∷ rest) (checks ∷ later) =
      let others = build raw rest later in
      elim (bad_section name valid (section_of name raw)) [
        | some e ↦ some e
        | none ↦ elim (first_failure checks) [
          | some message ↦ some (refused message)
          | none ↦ others
        ]
      ]

  -- `built` is a parameter: what the dataclasses make of the sections' values and their own defaults.
  unfoldable pub from_dict : Raw → Config f.F O → ConfigError ⊎ Config f.F O
  from_dict raw built =
      if not (all_known raw valid_keys)
      then inl unknown_sections
      else elim (build raw valid_keys (checks_of built)) [ some e ↦ inl e | none ↦ inr built ]
