-- ===== src/Config/Sections.antt =====
-- The sections of robocam/config.py, one record for each dataclass. `F` stands for floats and `O`
-- for a dictionary of options that is passed on as it is.
use robo_cam_stream_processi.Prelude.{String, Bool}
use robo_cam_stream_processi.Prelude.Int.{ℤ}

pub record ServerConfig (F O : Type 0) : Type 0 where
  pub bind : String
  pub io_poll_ms : ℤ
  pub session_timeout_s : F
  pub max_payload_bytes : ℤ
  pub rcvhwm : ℤ
  pub sndhwm : ℤ

pub record QueueConfig (F O : Type 0) : Type 0 where
  pub max_depth : ℤ
  pub drop_policy : String

pub record ProcessorConfig (F O : Type 0) : Type 0 where
  pub name : String
  pub workers : ℤ
  pub options : O

pub record LidarConfig (F O : Type 0) : Type 0 where
  pub enabled : Bool
  pub mount_yaw_deg : F
  pub camera_hfov_deg : F
  pub sectors : ℤ
  pub obstacle_m : F
  pub clear_m : F
  pub min_free_deg : F
  pub front_deg : F
  pub fov_bins : ℤ
  pub stale_after_ms : F

pub record ImuConfig (F O : Type 0) : Type 0 where
  pub enabled : Bool
  pub still_gyro_dps : F
  pub still_accel_ms2 : F
  pub tilt_warn_deg : F
  pub shock_ms2 : F
  pub gravity_tolerance_ms2 : F
  pub stale_after_ms : F

pub record OdomConfig (F O : Type 0) : Type 0 where
  pub enabled : Bool
  pub stale_after_ms : F
  pub still_speed_ms : F
  pub still_yaw_rate_dps : F
  pub expect_frame : String

pub record MapConfig (F O : Type 0) : Type 0 where
  pub enabled : Bool
  pub max_cells : ℤ
  pub stale_after_ms : F
  pub send_updates : Bool
  pub min_update_cells : ℤ
  pub occupied_value : ℤ
  pub merge : String
  pub min_update_interval_ms : F

pub record CompareConfig (F O : Type 0) : Type 0 where
  pub enabled : Bool
  pub z_min : F
  pub z_max : F
  pub min_points : ℤ
  pub camera_x : F
  pub camera_y : F
  pub camera_z : F
  pub camera_roll : F
  pub camera_pitch : F
  pub camera_yaw : F
  pub send_hints : Bool
  pub search_cells : ℤ
  pub min_hint_interval_ms : F
  pub send_agreement : Bool
  pub min_agreement_interval_ms : F
  pub region_block_m : F
  pub region_min_cells : ℤ
  pub max_regions : ℤ

pub record MissionConfig (F O : Type 0) : Type 0 where
  pub phase : String
  pub target : String
  pub rank_exits : Bool
  pub min_exit_width_m : F
  pub turn_cost_m_per_rad : F
  pub approach_standoff_m : F
  pub t1_exit_report : Bool
  pub t1_min_explored : F
  pub t1_max_open_exits : ℤ
  pub t1_stall_cells_per_s : F
  pub t1_min_stall_window_s : F
  pub t1_min_agreement : F
  pub t1_min_frames : ℤ
  pub t1_min_runtime_s : F

pub record SeekConfig (F O : Type 0) : Type 0 where
  pub enabled : Bool
  pub detector : String
  pub detector_options : O
  pub detect_every_n : ℤ
  pub min_confidence : F
  pub min_points : ℤ
  pub min_point_conf : F
  pub depth_band_m : F
  pub box_keep_frac : F
  pub min_found_interval_ms : F
  pub absent_after_runs : ℤ
  pub resend_move_m : F
  pub grasp_z_max : F
  pub grasp_z_min : F
  pub floor_tolerance_m : F
  pub reach_radius_m : F
  pub robot_radius_m : F
  pub keyframes : Bool
  pub keyframe_max : ℤ
  pub keyframe_spacing_m : F
  pub keyframe_spacing_rad : F
  pub recall_budget_per_frame : ℤ
  pub memory_ttl_s : F

pub record SnapshotConfig (F O : Type 0) : Type 0 where
  pub enabled : Bool
  pub dir : String
  pub every_n_frames : ℤ
  pub latest_only : Bool
  pub jpeg_quality : ℤ
  pub lidar_overlay : Bool
  pub imu_overlay : Bool

pub record LoggingConfig (F O : Type 0) : Type 0 where
  pub level : String
  pub stats_interval_s : F

-- The whole of it.
pub record Config (F O : Type 0) : Type 0 where
  pub server : ServerConfig F O
  pub queue : QueueConfig F O
  pub processor : ProcessorConfig F O
  pub lidar : LidarConfig F O
  pub imu : ImuConfig F O
  pub odom : OdomConfig F O
  pub map : MapConfig F O
  pub compare : CompareConfig F O
  pub mission : MissionConfig F O
  pub seek : SeekConfig F O
  pub snapshot : SnapshotConfig F O
  pub logging : LoggingConfig F O
