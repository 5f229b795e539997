-- ===== src/Client/Receive.antt =====
-- The receiving half of `RoboCamClient` of link/robocam_client.py: `_handle`, one function for each
-- message type. A callback that raises is logged and forgotten, so a call of one is only recorded.
-- The `int(...)` of a header's numbers is taken as done; what is only logged is left out.
pub mod Patches
use robo_cam_stream_processi.Prelude.Dict.{remove, nat_eq, string_eq, Dict, update}
use robo_cam_stream_processi.Client.State.{Stream, Client, Kinds}
use robo_cam_stream_processi.Prelude.{
  Option, Bool, String, List, if◌then◌else◌, [], ℕ, ◌∷◌, ◌+◌, some, true, false, ◌&&◌, str_eq, not,
  ◌++◌, ◌||◌,
}
use robo_cam_stream_processi.Prelude.Int.{ℤ, pos, negsuc}
use mathlib.Core.Option.{none}

-- A section of the welcome's `server`: what `enabled` says, and whether it has any entry.
pub record Section : Type 0 where
  pub enabled : Option Bool
  pub entries : Bool

pub record Welcome : Type 0 where
  pub accepted : Bool
  pub lidar : Section
  pub imu : Section
  pub odom : Section
  pub map : Section
  pub send_updates : Bool
  pub frame_pose : Bool
  pub phase : String

-- `pending.pop(seq, None)`
abbrev pub pop : ℤ → Dict ℕ ℕ → Dict ℕ ℕ
pop (pos n) pending = remove n pending
pop (negsuc n) pending = pending

unfoldable pub enabled_or : Bool → Option Bool → Bool
enabled_or default none = default
enabled_or default (some b) = b

module _ (k : Kinds) where
  open k use {Map, Data, Cells, map_id}

  pub record Reply : Type 0 where
    pub seq : ℤ
    pub ok : Bool
    pub reason : String
    pub summary : Data

  pub data Incoming : Type 0 where
    welcome : Welcome → Incoming
    result scan_result imu_result odom_result map_result : Reply → Incoming
    -- The map's id, if the header has one, and the patch or nothing where `decode_map_patch` raises.
    map_update : Option String → Option Cells → Incoming
    pose_hint found agreement exits_result : Data → Incoming
    -- accepted, phase, mission
    phase_changed : Option Bool → String → Dict String Data → Incoming
    pong error unexpected : Incoming

  -- The calls of the application's callbacks.
  pub data Call : Type 0 where
    on_result on_scan_result on_imu_result on_odom_result on_map_result : Reply → Call
    on_map_update : Cells → Call
    on_pose_hint on_found on_agreement on_exits_result : Data → Call

  abbrev pub Handled : Type 0
  Handled = Client k × List Call

  abbrev pub call : Bool → Call → List Call
  call set c = if set then c ∷ [] else []

  -- The window and the counters after a reply; `disabled` is the reason that ends the stream.
  unfoldable pub answered : String → Reply → Stream → Stream
  answered disabled r s =
      if r.ok then record s { pending = pop r.seq s.pending; ok = s.ok + 1 } else record s {
        pending = pop r.seq s.pending;
        bad = s.bad + 1;
        wanted = s.wanted && not (str_eq r.reason disabled);
      }

  -- The map's and the pose's sections also say no by being absent.
  unfoldable pub on_welcome : Welcome → Client k → Client k
  unfolding enabled_or
  on_welcome w c =
      if w.accepted
      then record c {
        connected = true;
        scans = record c.scans { wanted = enabled_or true w.lidar.enabled };
        imu = record c.imu { wanted = enabled_or true w.imu.enabled };
        odom = record c.odom { wanted = enabled_or w.odom.entries w.odom.enabled };
        maps = record c.maps { wanted = enabled_or w.map.entries w.map.enabled };
        sends_updates = w.send_updates;
        takes_frame_pose = some w.frame_pose;
        phase = if str_eq w.phase "" then c.phase else w.phase;
      }
      else record c { stop = true }

  unfoldable pub handle_result : Reply → Client k → Handled
  handle_result r c = (
    record c {
      frames =
          if r.ok
          then record c.frames { pending = pop r.seq c.frames.pending; ok = c.frames.ok + 1 }
          else record c.frames { pending = pop r.seq c.frames.pending; bad = c.frames.bad + 1 };
    },
    call c.callbacks.result (on_result r),
  )

  unfoldable pub handle_scan_result : Reply → Client k → Handled
  handle_scan_result r c = (
    record c {
      scans = answered "lidar_disabled" r c.scans;
      scan_summary = if r.ok then some r.summary else c.scan_summary;
    },
    call c.callbacks.scan_result (on_scan_result r),
  )

  unfoldable pub handle_imu_result : Reply → Client k → Handled
  handle_imu_result r c = (
    record c {
      imu = answered "imu_disabled" r c.imu;
      imu_summary = if r.ok then some r.summary else c.imu_summary;
    },
    call c.callbacks.imu_result (on_imu_result r),
  )

  unfoldable pub handle_odom_result : Reply → Client k → Handled
  handle_odom_result r c = (
    record c {
      odom = answered "odom_disabled" r c.odom;
      odom_summary = if r.ok then some r.summary else c.odom_summary;
    },
    call c.callbacks.odom_result (on_odom_result r),
  )

  -- A refused map is due again at once.
  unfoldable pub handle_map_result : Reply → Client k → Handled
  handle_map_result r c = (
    record c {
      maps = answered "map_disabled" r c.maps;
      map_summary = if r.ok then some r.summary else c.map_summary;
      last_map_sent = if r.ok then c.last_map_sent else 0;
    },
    call c.callbacks.map_result (on_map_result r),
  )

  -- `self._last_map is not None and header.get("map_id") not in ("", self._last_map.map_id)`
  unfoldable pub is_stale : Option String → Option Map → Bool
  is_stale id none = false
  is_stale none (some reading) = true
  is_stale (some id) (some reading) = not (str_eq id "" || str_eq id (map_id reading))

  unfoldable pub usable : Bool → Option Cells → List Call
  usable set none = []
  usable set (some cells) = call set (on_map_update cells)

  unfoldable pub handle_map_update : Option String → Option Cells → Client k → Handled
  unfolding is_stale usable
  handle_map_update id cells c =
      let c' = record c { map_updates_received = c.map_updates_received + 1 } in
      if is_stale id c.last_map then (c', []) else (c', usable c.callbacks.map_update cells)

  unfoldable pub handle_phase : Option Bool → String → Dict String Data → Client k → Client k
  handle_phase (some false) phase mission c = c
  handle_phase accepted phase mission c = record c {
    phase = if str_eq phase "" then c.phase else phase;
    mission = update c.mission mission;
  }

  unfoldable pub handle : Incoming → Client k → Handled
  handle (welcome w) c = (on_welcome w c, [])
  handle (result r) c = handle_result r c
  handle (scan_result r) c = handle_scan_result r c
  handle (imu_result r) c = handle_imu_result r c
  handle (odom_result r) c = handle_odom_result r c
  handle (map_result r) c = handle_map_result r c
  handle (map_update id cells) c = handle_map_update id cells c
  handle (pose_hint d) c = (
    record c { pose_hints_received = c.pose_hints_received + 1 },
    call c.callbacks.pose_hint (on_pose_hint d),
  )
  handle (found d) c =
      (record c { founds_received = c.founds_received + 1 }, call c.callbacks.found (on_found d))
  handle (agreement d) c = (
    record c { agreements_received = c.agreements_received + 1 },
    call c.callbacks.agreement (on_agreement d),
  )
  handle (exits_result d) c = (c, call c.callbacks.exits_result (on_exits_result d))
  handle (phase_changed accepted phase mission) c = (handle_phase accepted phase mission c, [])
  handle pong c = (c, [])
  handle error c = (c, [])
  handle unexpected c = (c, [])

  -- `_drain_results`: `none` is a message that does not parse, which counts as heard from.
  unfoldable pub drain_results : ℕ → List (Option Incoming) → Client k → Handled
  drain_results now [] c = (c, [])
  drain_results now (none ∷ messages) c = drain_results now messages (record c { last_rx = now })
  drain_results now (some m ∷ messages) c =
      let (c', calls) = handle m (record c { last_rx = now }) in
      let (c'', calls') = drain_results now messages c' in (c'', calls ++ calls')
