-- ===== src/Server/Tests.antt =====
-- The theorems on the server, on short runs.
mod Dispatching
mod Delivering
use robo_cam_stream_processi.Prelude.Int.{pos, negsuc}
use robo_cam_stream_processi.Server.Session.{
  Sensors, Config, Session, pose_for_frame, attached, HasCamera, pose_for_frame-HasCamera, unplaced,
}
use robo_cam_stream_processi.Server.Streams.{
  serve, serve-asked, asked, about, scan, imu, odom, exits, Message,
}
use robo_cam_stream_processi.Server.Frames.{
  Frame, Settled, on_frame, image, on_frame-Settled, Addressed, on_frame-Addressed,
}
use robo_cam_stream_processi.Pipeline.FrameQueue.{FrameQueue, oldest}
use robo_cam_stream_processi.Prelude.Dict.{get, string_eq}
use robo_cam_stream_processi.Server.Maps.{on_map, on_map-IsPatched, IsPatched}
use robo_cam_stream_processi.Server.Announce.{
  Announcement, announce_all, map_update, found, send_announcements, announce_one, held_back, tell,
}
use robo_cam_stream_processi.Server.Announce.Rate.{
  Counts, Spaced, updates, update_times, announce_all-Counts, announce_all-Spaced,
}
use robo_cam_stream_processi.Occupancy.Grid.{Grid}
use robo_cam_stream_processi.Prelude.{
  ℕ, true, none, some, List, map, inr, ◌==◌, false, [], ◌≡◌, ◌∷◌, refl, arith,
}
use robo_cam_stream_processi.Server.Sessions.{
  Hello, Sessions, Unique, reap_sessions, live, reap_sessions-live,
}

abbrev sensors : Sensors
sensors = record {
  Float = ℕ;
  Scan = ℕ;
  Batch = ℕ;
  Odom = ℕ;
  Exit = ℕ;
  Body = ℕ;
  samples = λ b. b;
  odom_frame = λ o. "map";
  has_camera = λ o. o == 1;
}

abbrev config : Config
config = record {
  max_payload_bytes = 1000;
  session_timeout = 60;
  lidar_enabled = true;
  lidar_stale_after = 500;
  imu_enabled = false;
  imu_stale_after = 100;
  odom_enabled = true;
  odom_stale_after = 200;
  expect_frame = "map";
  map_enabled = true;
  send_updates = true;
  min_update_interval = 1000;
  min_update_cells = 1;
  compare_enabled = true;
  send_hints = true;
  min_hint_interval = 1000;
  send_agreement = true;
  min_agreement_interval = 1000;
  rank_exits = true;
  mission_phase = "t1";
  mission_target = "";
}

abbrev session : Session sensors
session = record {
  session_id = "orin";
  client_id = "orin";
  run_id = "1";
  codec = "jpeg";
  greeted = true;
  last_seen = 0;
  frames_received = 0;
  frames_processed = 0;
  frames_dropped = 0;
  frames_failed = 0;
  bytes_received = 0;
  last_seq = negsuc 0;
  seq_gaps = 0;
  scans_received = 0;
  scans_failed = 0;
  last_scan = none;
  last_scan_at = 0;
  imu_bursts_received = 0;
  imu_samples_received = 0;
  imu_failed = 0;
  last_imu = none;
  last_imu_at = 0;
  odom_received = 0;
  odom_failed = 0;
  last_odom = none;
  last_odom_at = 0;
  prev_odom = none;
  frame_poses = 1;
  frame_poses_failed = 0;
  camera_poses_seen = true;
  maps_received = 0;
  maps_failed = 0;
  grid = none;
  grid_at = 0;
  exits = [];
  exits_at = 0;
  exits_received = 0;
  phase = "t1";
  mission = [];
  map_update_seq = 0;
  pose_hint_seq = 0;
  found_seq = 0;
  agreement_seq = 0;
  last_map_update = 0;
  last_agreement = 0;
  last_pose_hint = 0;
  map_updates_sent = 0;
  pose_hints_sent = 0;
  founds_sent = 0;
  agreements_sent = 0;
}

placed_by_camera :
    HasCamera sensors (pose_for_frame sensors config (attached 0 5) (some 1, 3) session).1
    × ((pose_for_frame sensors config (attached 0 5) (some 1, 3) session).0.camera_poses_seen
        ≡ true)
placed_by_camera = pose_for_frame-HasCamera sensors config (attached 0 5) (some 1, 3) session refl

abbrev messages : List (ℕ × Message sensors)
messages =
    (10, scan (pos 0) 90 (some 4))
    ∷ (11, imu (pos 0) 30 (some 8))
    ∷ (12, odom (pos 3) none)
    ∷ (13, exits (pos 1) (some []))
    ∷ []

serve-asked_example :
    map about (serve sensors config messages session).1 ≡ map (λ m. asked sensors m.1) messages
serve-asked_example = serve-asked sensors config messages session

abbrev patch : Grid ℕ
patch = record {
  cells = record { height = 1; width = 1; rows = (pos 90 ∷ []) ∷ [] };
  resolution = 5;
  origin = (0, 0, 0);
  frame = "map";
  map_id = "room";
  seq = pos 2;
  occupied_min = pos 65;
  free_max = pos 25;
  x0 = pos 1;
  y0 = pos 0;
  full = false;
  source = "";
  recv_ts_ns = 0;
  summary = none;
}

on_map-IsPatched_example :
    IsPatched sensors (pos 2) patch session (on_map sensors config 20 (pos 2) 1 (inr patch) session)
on_map-IsPatched_example = on_map-IsPatched sensors config 20 (pos 2) 1 patch session refl

abbrev results : List (ℕ × List (Announcement ℕ))
results =
    (5, map_update "room" 3 7 ∷ map_update "room" 4 8 ∷ [])
    ∷ (2000, found 1 ∷ map_update "room" 9 9 ∷ [])
    ∷ []

numbered_updates :
    Counts 0
      (updates (announce_all sensors config results session).1)
      (announce_all sensors config results session).0.map_update_seq
numbered_updates = announce_all-Counts sensors config results session

announce_all-Spaced_example : Spaced 1000 0 (update_times sensors config results session)
announce_all-Spaced_example = announce_all-Spaced sensors config results session

-- Of three updates the second comes too soon.
two_updates : updates (announce_all sensors config results session).1 ≡ 0 ∷ 1 ∷ []
unfolding announce_all send_announcements announce_one held_back tell updates
two_updates = refl

abbrev frame_queue : FrameQueue (Frame sensors ℕ)
frame_queue = record {
  max_depth = 2;
  drop_policy = oldest;
  items = [];
  closed = false;
  dropped_total = 0;
}

on_frame-Settled_example :
    Settled sensors ℕ frame_queue
      (on_frame sensors ℕ config 7 (pos 0) 90 (attached 1 0) (image 4) session frame_queue)
on_frame-Settled_example =
    on_frame-Settled sensors ℕ config 7 (pos 0) 90 (attached 1 0) (image 4) session frame_queue
      (omega arith)

abbrev hello : Hello
hello = record {
  protocol = some 2;
  client_id = "orin";
  run_id = "2";
  codec = "jpeg";
  phase = "t2";
  mission = none;
}

abbrev sessions : Sessions sensors
sessions = ("orin", session) ∷ ("nano", record session { last_seen = 90 }) ∷ []

sessions-Unique : Unique sensors sessions
unfolding Unique get
sessions-Unique = (refl, (refl, tt))

orin_reaped :
    get "orin" (reap_sessions sensors 60 100 sessions) ≡ live sensors 60 100 (get "orin" sessions)
orin_reaped = reap_sessions-live sensors 60 100 sessions sessions-Unique "orin"

-- The queue is full of another robot's frame.
abbrev shared_queue : FrameQueue (Frame sensors ℕ)
shared_queue = record {
  max_depth = 1;
  drop_policy = oldest;
  items =
      (
        3,
        record {
          seq = pos 5;
          session_id = "nano";
          picture = 8;
          placement = unplaced sensors;
          phase = "t1";
          mission = [];
        },
      )
      ∷ [];
  closed = false;
  dropped_total = 0;
}

on_frame-Addressed_example :
    Addressed sensors ℕ "orin"
      (on_frame sensors ℕ config 7 (pos 0) 90 (attached 1 0) (image 4) session shared_queue)
on_frame-Addressed_example =
    on_frame-Addressed sensors ℕ config 7 (pos 0) 90 (attached 1 0) (image 4) session shared_queue
