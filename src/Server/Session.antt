-- ===== src/Server/Session.antt =====
-- `Session` of robocam/server.py: what the server holds of one robot, and its freshness tests. A
-- time is in nanoseconds and is never before one that is stored; an interval of the configuration
-- is in nanoseconds too. The decoder's, the coverage's and the agreement's state is left out.
use robo_cam_stream_processi.Occupancy.Grid.{Grid}
use robo_cam_stream_processi.Prelude.{
  ℕ, String, Option, none, Bool, some, if◌then◌else◌, List, ltb, ◌-◌, not, ◌&&◌, ◌+◌, ◌||◌, ◌≡◌,
  true, arith, refl,
}
use robo_cam_stream_processi.Prelude.Int.{ℤ}
use robo_cam_stream_processi.Prelude.Dict.{Dict}

-- The sensors' decoded messages, and the payload of a processor's announcement.
pub record Sensors : Type 1 where
  pub Float : Type 0
  pub Scan : Type 0
  pub Batch : Type 0
  pub Odom : Type 0
  pub Exit : Type 0
  pub Body : Type 0
  -- `batch.count`, `pose.frame`, `pose.camera is not None`
  pub samples : Batch → ℕ
  pub odom_frame : Odom → String
  pub has_camera : Odom → Bool

pub record Config : Type 0 where
  pub max_payload_bytes : ℕ
  pub session_timeout : ℕ
  pub lidar_enabled : Bool
  pub lidar_stale_after : ℕ
  pub imu_enabled : Bool
  pub imu_stale_after : ℕ
  pub odom_enabled : Bool
  pub odom_stale_after : ℕ
  pub expect_frame : String
  pub map_enabled : Bool
  pub send_updates : Bool
  pub min_update_interval : ℕ
  pub min_update_cells : ℕ
  pub compare_enabled : Bool
  pub send_hints : Bool
  pub min_hint_interval : ℕ
  pub send_agreement : Bool
  pub min_agreement_interval : ℕ
  pub rank_exits : Bool
  pub mission_phase : String
  pub mission_target : String

module _ (s : Sensors) where
  open s use {Float, Scan, Batch, Odom, Exit}

  pub record Session : Type 0 where
    pub session_id : String
    pub client_id : String
    pub run_id : String
    pub codec : String
    pub greeted : Bool
    pub last_seen : ℕ
    pub frames_received : ℕ
    pub frames_processed : ℕ
    pub frames_dropped : ℕ
    pub frames_failed : ℕ
    pub bytes_received : ℕ
    pub last_seq : ℤ
    pub seq_gaps : ℕ
    pub scans_received : ℕ
    pub scans_failed : ℕ
    pub last_scan : Option Scan
    pub last_scan_at : ℕ
    pub imu_bursts_received : ℕ
    pub imu_samples_received : ℕ
    pub imu_failed : ℕ
    pub last_imu : Option Batch
    pub last_imu_at : ℕ
    pub odom_received : ℕ
    pub odom_failed : ℕ
    pub last_odom : Option Odom
    pub last_odom_at : ℕ
    pub prev_odom : Option Odom
    pub frame_poses : ℕ
    pub frame_poses_failed : ℕ
    pub camera_poses_seen : Bool
    pub maps_received : ℕ
    pub maps_failed : ℕ
    pub grid : Option (Grid Float)
    pub grid_at : ℕ
    pub exits : List Exit
    pub exits_at : ℕ
    pub exits_received : ℕ
    pub phase : String
    pub mission : Dict String String
    pub map_update_seq : ℕ
    pub pose_hint_seq : ℕ
    pub found_seq : ℕ
    pub agreement_seq : ℕ
    pub last_map_update : ℕ
    pub last_agreement : ℕ
    pub last_pose_hint : ℕ
    pub map_updates_sent : ℕ
    pub pose_hints_sent : ℕ
    pub founds_sent : ℕ
    pub agreements_sent : ℕ

-- `stale_after_ms > 0 and age_ms > stale_after_ms`
abbrev pub is_stale : ℕ → ℕ → ℕ → Bool
is_stale stale_after now at = ltb 0 stale_after && ltb (at + stale_after) now

-- `fresh_scan`, `fresh_imu` and `fresh_odom`: the reading and its age. The age of a stale one is
-- given with no reading.
unfoldable pub fresh {ℓ} : {A : Type ℓ} → ℕ → ℕ → Option A → ℕ → Option A × ℕ
fresh stale_after now none at = (none, 0)
fresh stale_after now (some reading) at =
    if is_stale stale_after now at then (none, now - at) else (some reading, now - at)

module _ (s : Sensors) where
  unfoldable pub fresh_scan : Config → ℕ → Session s → Option s.Scan × ℕ
  fresh_scan cfg now c = fresh cfg.lidar_stale_after now c.last_scan c.last_scan_at

  unfoldable pub fresh_imu : Config → ℕ → Session s → Option s.Batch × ℕ
  fresh_imu cfg now c = fresh cfg.imu_stale_after now c.last_imu c.last_imu_at

  unfoldable pub fresh_odom : Config → ℕ → Session s → Option s.Odom × ℕ
  fresh_odom cfg now c = fresh cfg.odom_stale_after now c.last_odom c.last_odom_at

  unfoldable pub touch : ℕ → Session s → Session s
  touch now c = record c { last_seen = now }

  -- `_pose_for_frame`'s argument: no pose attached, one that does not decode, or one and its age.
  pub data Attached : Type 0 where
    nothing malformed : Attached
    attached : s.Odom → ℕ → Attached

  pub data PoseSource : Type 0 where
    from_nowhere from_frame from_stream : PoseSource

  pub record Placement : Type 0 where
    pub pose : Option s.Odom
    pub age : ℕ
    pub source : PoseSource

  abbrev pub unplaced : Placement
  unplaced = record { pose = none; age = 0; source = from_nowhere }

  stream_source : Option s.Odom → PoseSource
  stream_source none = from_nowhere
  stream_source (some pose) = from_stream

  by_stream : Option s.Odom × ℕ → Placement
  unfolding stream_source
  by_stream (pose, age) = record { pose = pose; age = age; source = stream_source pose }

  unfoldable pub pose_for_frame :
      Config → Attached → Option s.Odom × ℕ → Session s → Session s × Placement
  unfolding by_stream
  pose_for_frame cfg nothing stream c =
      if c.camera_poses_seen then (c, unplaced) else (c, by_stream stream)
  pose_for_frame cfg malformed stream c =
      if not cfg.odom_enabled
      then (c, unplaced)
      else (record c { frame_poses_failed = c.frame_poses_failed + 1 }, unplaced)
  pose_for_frame cfg (attached pose age) stream c =
      if not cfg.odom_enabled
      then (c, unplaced)
      else let c' = record c {
        frame_poses = c.frame_poses + 1;
        camera_poses_seen = c.camera_poses_seen || s.has_camera pose;
      } in
        if not (s.has_camera pose) && c.camera_poses_seen
        then (c', unplaced)
        else (c', record { pose = some pose; age = age; source = from_frame })

  -- The pose, if there is one, came with the frame and says where the camera was.
  pub HasCamera : Placement → Type 0
  HasCamera p = elim p.pose [
    | none ↦ Unit
    | some pose ↦ (p.source ≡ from_frame) × (s.has_camera pose ≡ true)
  ]

  -- Once a session has sent a camera pose, a frame is placed only by a pose that came with it and
  -- carries a camera pose itself; the session goes on remembering that its camera moves.
  pub pose_for_frame-HasCamera :
      (cfg : Config) (a : Attached) (stream : Option s.Odom × ℕ) (c : Session s)
      → c.camera_poses_seen ≡ true
      → HasCamera (pose_for_frame cfg a stream c).1
        × ((pose_for_frame cfg a stream c).0.camera_poses_seen ≡ true)
  unfolding pose_for_frame HasCamera
  pose_for_frame-HasCamera cfg nothing stream c seen = rw seen (tt, refl)
  pose_for_frame-HasCamera cfg malformed stream c seen = ground (arith, seen)
  pose_for_frame-HasCamera cfg (attached pose age) stream c seen = ground (arith, seen)
