-- ===== src/Config/Tests.antt =====
-- The checks of robocam/config.py on a configuration whose floats are integers.
use robo_cam_stream_processi.Config.Sections.{Config}
use robo_cam_stream_processi.Config.Checks.{
  Floats, first_failure, one_of, queue_checks, processor_checks, lidar_checks, imu_checks,
  odom_checks, map_checks, compare_checks, mission_checks, seek_checks,
}
use robo_cam_stream_processi.Config.Load.{
  Raw, mapping, from_dict, valid_keys, all_known, all_one_of, bad_section, section_of, checks_of,
  build, refused, unknown_keys,
}
use robo_cam_stream_processi.Prelude.Dict.{get, string_eq}
use robo_cam_stream_processi.Config.Accepted.{
  AllSections, IsBounded, from_dict-accepts, AllConstruct, checks_of-IsBounded,
}
use robo_cam_stream_processi.Prelude.Int.{ℤ, ltb_ℤ, pos, leb_ℤ, negsuc}
use robo_cam_stream_processi.Prelude.{◌∷◌, Bool, [], ◌≡◌, true, inr, inl, ◌↔◌, refl}

abbrev whole : Floats
whole = record { F = ℤ; lt = ltb_ℤ; le = leb_ℤ; of_int = λ n. n }

abbrev server : Config ℤ Bool
server = record {
  server = record {
    bind = "x";
    io_poll_ms = pos 1;
    session_timeout_s = pos 1;
    max_payload_bytes = pos 1;
    rcvhwm = pos 1;
    sndhwm = pos 1;
  };
  queue = record { max_depth = pos 2; drop_policy = "oldest" };
  processor = record { name = "x"; workers = pos 1; options = true };
  lidar = record {
    enabled = true;
    mount_yaw_deg = pos 1;
    camera_hfov_deg = pos 70;
    sectors = pos 1;
    obstacle_m = pos 1;
    clear_m = pos 1;
    min_free_deg = pos 1;
    front_deg = pos 60;
    fov_bins = pos 1;
    stale_after_ms = pos 1;
  };
  imu = record {
    enabled = true;
    still_gyro_dps = pos 1;
    still_accel_ms2 = pos 1;
    tilt_warn_deg = pos 15;
    shock_ms2 = pos 1;
    gravity_tolerance_ms2 = pos 1;
    stale_after_ms = pos 1;
  };
  odom = record {
    enabled = true;
    stale_after_ms = pos 1;
    still_speed_ms = pos 1;
    still_yaw_rate_dps = pos 1;
    expect_frame = "x";
  };
  map = record {
    enabled = true;
    max_cells = pos 1;
    stale_after_ms = pos 1;
    send_updates = true;
    min_update_cells = pos 1;
    occupied_value = pos 100;
    merge = "max";
    min_update_interval_ms = pos 1;
  };
  compare = record {
    enabled = true;
    z_min = pos 5;
    z_max = pos 160;
    min_points = pos 1;
    camera_x = pos 1;
    camera_y = pos 1;
    camera_z = pos 1;
    camera_roll = pos 1;
    camera_pitch = pos 1;
    camera_yaw = pos 1;
    send_hints = true;
    search_cells = pos 1;
    min_hint_interval_ms = pos 1;
    send_agreement = true;
    min_agreement_interval_ms = pos 1;
    region_block_m = pos 1;
    region_min_cells = pos 1;
    max_regions = pos 1;
  };
  mission = record {
    phase = "t1";
    target = "x";
    rank_exits = true;
    min_exit_width_m = pos 1;
    turn_cost_m_per_rad = pos 1;
    approach_standoff_m = pos 1;
    t1_exit_report = true;
    t1_min_explored = pos 1;
    t1_max_open_exits = pos 1;
    t1_stall_cells_per_s = pos 1;
    t1_min_stall_window_s = pos 1;
    t1_min_agreement = pos 1;
    t1_min_frames = pos 1;
    t1_min_runtime_s = pos 1;
  };
  seek = record {
    enabled = true;
    detector = "x";
    detector_options = true;
    detect_every_n = pos 1;
    min_confidence = pos 1;
    min_points = pos 1;
    min_point_conf = pos 1;
    depth_band_m = pos 1;
    box_keep_frac = pos 1;
    min_found_interval_ms = pos 1;
    absent_after_runs = pos 1;
    resend_move_m = pos 1;
    grasp_z_max = pos 15;
    grasp_z_min = pos 3;
    floor_tolerance_m = negsuc 4;
    reach_radius_m = pos 1;
    robot_radius_m = pos 1;
    keyframes = true;
    keyframe_max = pos 1;
    keyframe_spacing_m = pos 1;
    keyframe_spacing_rad = pos 1;
    recall_budget_per_frame = pos 1;
    memory_ttl_s = pos 1;
  };
  snapshot = record {
    enabled = true;
    dir = "x";
    every_n_frames = pos 1;
    latest_only = true;
    jpeg_quality = pos 1;
    lidar_overlay = true;
    imu_overlay = true;
  };
  logging = record { level = "x"; stats_interval_s = pos 1 };
}

abbrev raw : Raw
raw = ("queue", mapping ("max_depth" ∷ [])) ∷ ("map", mapping ("merge" ∷ "max_cells" ∷ [])) ∷ []

checks_of-IsBounded_example :
    AllConstruct whole Bool (checks_of whole Bool server) ↔ IsBounded whole Bool server
checks_of-IsBounded_example = checks_of-IsBounded whole Bool server

whole_mapping :
    (from_dict whole Bool raw server ≡ inr server)
    ↔ (all_known raw valid_keys ≡ true) × AllSections raw valid_keys × IsBounded whole Bool server
whole_mapping = from_dict-accepts whole Bool raw server

accepts : from_dict whole Bool raw server ≡ inr server
unfolding from_dict all_known all_one_of bad_section section_of checks_of build first_failure one_of
    queue_checks processor_checks lidar_checks imu_checks odom_checks map_checks compare_checks
    mission_checks seek_checks get
accepts = refl

misspelt :
    from_dict whole Bool (("queue", mapping ("maxdepth" ∷ [])) ∷ []) server
    ≡ inl (unknown_keys "queue")
unfolding from_dict all_known all_one_of bad_section section_of checks_of build first_failure one_of
    queue_checks processor_checks lidar_checks imu_checks odom_checks map_checks compare_checks
    mission_checks seek_checks get
misspelt = refl

no_depth :
    from_dict whole Bool raw
      (record server { queue = record { max_depth = pos 0; drop_policy = "newest" } })
    ≡ inl (refused "queue.max_depth must be >= 1")
unfolding from_dict all_known all_one_of bad_section section_of checks_of build first_failure one_of
    queue_checks processor_checks lidar_checks imu_checks odom_checks map_checks compare_checks
    mission_checks seek_checks get
no_depth = refl
