-- ===== src/Client/State.antt =====
-- `RoboCamClient.__init__` of link/robocam_client.py: the client's state. The five streams have the
-- same fields under different names; a `Stream` holds those of one. A time is in nanoseconds.
use robo_cam_stream_processi.Prelude.Dict.{Dict}
use robo_cam_stream_processi.Prelude.{String, ℕ, Bool, Option, [], false, true, max, none}

-- What the client carries without looking into it, and a map's id, which it compares.
pub record Kinds : Type 1 where
  pub Frame : Type 0
  pub Pose : Type 0
  pub Scan : Type 0
  pub Imu : Type 0
  pub Odom : Type 0
  pub Map : Type 0
  pub Data : Type 0
  pub Cells : Type 0
  pub map_id : Map → String

-- Of the camera: `_pending`, `_seq`, `max_inflight`, `sent`, `results_ok`, `results_bad`,
-- `skipped_backpressure`; of the scans: `_pending_scans`, `_scan_seq`, and so on. The camera has no
-- `wanted`, and the map no `limit`.
pub record Stream : Type 0 where
  pub pending : Dict ℕ ℕ
  pub seq : ℕ
  pub limit : ℕ
  pub wanted : Bool
  pub sent : ℕ
  pub ok : ℕ
  pub bad : ℕ
  pub skipped : ℕ

-- Which of the callbacks are not None.
pub record Callbacks : Type 0 where
  pub result : Bool
  pub scan_result : Bool
  pub imu_result : Bool
  pub odom_result : Bool
  pub map_result : Bool
  pub map_update : Bool
  pub pose_hint : Bool
  pub found : Bool
  pub agreement : Bool
  pub exits_result : Bool

module _ (k : Kinds) where
  open k use {Map, Data}

  pub record Client : Type 0 where
    pub client_id : String
    pub run_id : String
    pub reconnect_after : ℕ
    pub map_every : ℕ
    pub callbacks : Callbacks
    pub phase : String
    pub mission : Dict String Data
    pub opened : Bool
    pub connected : Bool
    pub stop : Bool
    pub last_rx : ℕ
    pub frames : Stream
    pub scans : Stream
    pub imu : Stream
    pub odom : Stream
    pub maps : Stream
    pub exits_seq : ℕ
    pub last_map : Option Map
    pub last_map_sent : ℕ
    pub sends_updates : Bool
    pub takes_frame_pose : Option Bool
    pub frame_poses_sent : ℕ
    pub warned_frame_pose : Bool
    pub imu_samples_sent : ℕ
    pub imu_dropped : ℕ
    pub scan_summary : Option Data
    pub imu_summary : Option Data
    pub odom_summary : Option Data
    pub map_summary : Option Data
    pub map_updates_received : ℕ
    pub pose_hints_received : ℕ
    pub founds_received : ℕ
    pub agreements_received : ℕ

  abbrev pub fresh : ℕ → Stream
  fresh limit = record {
    pending = [];
    seq = 0;
    limit = limit;
    wanted = true;
    sent = 0;
    ok = 0;
    bad = 0;
    skipped = 0;
  }

  -- A client with the windows asked for, at least one message wide each.
  unfoldable pub new :
      String → String → ℕ → ℕ → Callbacks → String → Dict String Data → ℕ → ℕ → ℕ → ℕ → ℕ → Client
  new client_id run_id reconnect_after map_every callbacks phase mission now inflight scans imu
        odom =
      record {
        client_id = client_id;
        run_id = run_id;
        reconnect_after = reconnect_after;
        map_every = map_every;
        callbacks = callbacks;
        phase = phase;
        mission = mission;
        opened = false;
        connected = false;
        stop = false;
        last_rx = now;
        frames = fresh (max 1 inflight);
        scans = fresh (max 1 scans);
        imu = fresh (max 1 imu);
        odom = fresh (max 1 odom);
        maps = fresh 1;
        exits_seq = 0;
        last_map = none;
        last_map_sent = 0;
        sends_updates = false;
        takes_frame_pose = none;
        frame_poses_sent = 0;
        warned_frame_pose = false;
        imu_samples_sent = 0;
        imu_dropped = 0;
        scan_summary = none;
        imu_summary = none;
        odom_summary = none;
        map_summary = none;
        map_updates_received = 0;
        pose_hints_received = 0;
        founds_received = 0;
        agreements_received = 0;
      }
