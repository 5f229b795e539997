-- ===== src/Client/Send.antt =====
-- The sending half of `RoboCamClient` of link/robocam_client.py: the pumps and what they post.
-- The socket is an argument: `takes message` says whether `send_multipart` takes it or raises Again.
use robo_cam_stream_processi.Prelude.Dict.{nat_eq, string_eq, put, Dict, update}
use robo_cam_stream_processi.Client.State.{Stream, Client, Kinds}
use robo_cam_stream_processi.Prelude.{
  String, List, Bool, ◌&&◌, if◌then◌else◌, ℕ, ◌+◌, leb, Option, false, ◌∷◌, length, [], not, some,
  true, ◌||◌, ◌==◌, str_eq, ltb,
}
use mathlib.Core.Option.{none}

module _ (k : Kinds) where
  open k use {Frame, Pose, Scan, Imu, Odom, Map, Data, map_id}

  -- The messages that go out. The rest of a header is read off the reading and the clock.
  pub data Outgoing : Type 0 where
    hello : String → String → String → Dict String Data → Outgoing
    frame : ℕ → Frame → Option Pose → Outgoing
    scan : ℕ → Scan → Outgoing
    imu_burst : ℕ → List Imu → ℕ → Outgoing
    odom_pose : ℕ → Odom → Outgoing
    map_upload : ℕ → Map → Outgoing
    exits : ℕ → String → Data → Outgoing
    set_phase_to : String → String → Dict String Data → Outgoing
    bye : Outgoing

  abbrev pub Sent : Type 0
  Sent = Client k × List Outgoing

  module _ (takes : Outgoing → Bool) where
    -- `_send`: whether it went out.
    unfoldable pub goes : Client k → Outgoing → Bool
    goes c message = c.opened && takes message

    abbrev pub posted : Bool → Outgoing → List Outgoing
    posted went message = if went then message ∷ [] else []

    -- `seq = self._seq; self._seq += 1; if self._send(...): pending[seq] = now; sent += 1`
    unfoldable pub post : Bool → ℕ → Stream → Stream
    post went now s =
        if went
        then record s { pending = put s.seq now s.pending; seq = s.seq + 1; sent = s.sent + 1 }
        else record s { seq = s.seq + 1 }

    abbrev pub skip : Stream → Stream
    skip s = record s { skipped = s.skipped + 1 }

    abbrev pub is_full : Stream → Bool
    is_full s = leb s.limit (length s.pending)

    unfoldable pub send_scan : ℕ → Scan → Client k → Sent
    send_scan now reading c =
        let message = scan c.scans.seq reading in
        let went = goes c message in
        let s = post went now c.scans in
        (record c { scans = if went then s else skip s }, posted went message)

    unfoldable pub pump_lidar : ℕ → Option Scan → Client k → Sent
    pump_lidar now none c = (c, [])
    pump_lidar now (some reading) c =
        if not c.scans.wanted
        then (c, [])
        else if is_full c.scans
        then (record c { scans = skip c.scans }, [])
        else send_scan now reading c

    unfoldable pub send_imu : ℕ → List Imu → ℕ → Client k → Sent
    send_imu now samples dropped c =
        let message = imu_burst c.imu.seq samples dropped in
        let went = goes c message in
        (
          record c {
            imu = post went now c.imu;
            imu_samples_sent =
                if went then c.imu_samples_sent + length samples else c.imu_samples_sent;
            imu_dropped = c.imu_dropped + dropped;
          },
          posted went message,
        )

    -- Whether `_pump_imu` gets as far as `feed.take()`.
    abbrev pub drains_imu : Client k → Bool
    drains_imu c = c.imu.wanted && not (is_full c.imu)

    -- The feed's samples and count of losses are those of `feed.take()`, which runs only after the
    -- two guards.
    unfoldable pub pump_imu : ℕ → List Imu → ℕ → Client k → Sent
    pump_imu now [] dropped c = (c, [])
    pump_imu now (s ∷ samples) dropped c =
        if drains_imu c then send_imu now (s ∷ samples) dropped c else (c, [])

    unfoldable pub send_odom : ℕ → Odom → Client k → Sent
    send_odom now reading c =
        let message = odom_pose c.odom.seq reading in
        let went = goes c message in (record c { odom = post went now c.odom }, posted went message)

    unfoldable pub pump_odom : ℕ → Option Odom → Client k → Sent
    pump_odom now none c = (c, [])
    pump_odom now (some reading) c =
        if not c.odom.wanted || is_full c.odom then (c, []) else send_odom now reading c

    unfoldable pub send_map : ℕ → Map → Client k → Sent
    send_map now reading c =
        let message = map_upload c.maps.seq reading in
        let went = goes c message in (record c { maps = post went now c.maps }, posted went message)

    -- `if self._last_map_sent and now - self._last_map_sent < self.map_every_s`
    abbrev pub too_soon : ℕ → Client k → Bool
    too_soon now c = not (c.last_map_sent == 0) && ltb now (c.last_map_sent + c.map_every)

    unfoldable pub upload : ℕ → Option Map → Client k → Sent
    upload now none c = (c, [])
    upload now (some reading) c =
        if too_soon now c || not (length c.maps.pending == 0)
        then (c, [])
        else let (c', out) = send_map now reading c in (record c' { last_map_sent = now }, out)

    unfoldable pub newest : Option Map → Option Map → Option Map
    newest none old = old
    newest (some reading) old = some reading

    unfoldable pub pump_map : ℕ → Option Map → Client k → Sent
    unfolding upload newest
    pump_map now reading c =
        if not c.maps.wanted
        then (c, [])
        else upload now (newest reading c.last_map)
            (record c { last_map = newest reading c.last_map })

    -- `reading` is what is left of a frame after the encoder: `none` where there is no image or
    -- `imencode` fails.
    unfoldable pub warns : Option Bool → Bool
    warns (some false) = true
    warns _ = false

    unfoldable pub with_pose : Option Pose → Client k → Client k
    unfolding warns
    with_pose none c = c
    with_pose (some pose) c = record c {
      frame_poses_sent = c.frame_poses_sent + 1;
      warned_frame_pose = c.warned_frame_pose || warns c.takes_frame_pose;
    }

    unfoldable pub send_frame : ℕ → Option Frame → Option Pose → Client k → Sent
    unfolding with_pose
    send_frame now none pose c = (c, [])
    send_frame now (some image) pose c =
        let message = frame c.frames.seq image pose in
        let went = goes c message in
        let s = post went now c.frames in
        (record (with_pose pose c) { frames = if went then s else skip s }, posted went message)

    map_id_or_last : String → Option Map → String
    map_id_or_last id none = id
    map_id_or_last id (some reading) = if str_eq id "" then map_id reading else id

    unfoldable pub send_exits : Data → String → Client k → Sent
    unfolding map_id_or_last
    send_exits candidates id c =
        let message = exits c.exits_seq (map_id_or_last id c.last_map) candidates in
        (record c { exits_seq = c.exits_seq + 1 }, posted (goes c message) message)

    unfoldable pub set_phase : String → String → Dict String Data → Client k → Sent
    set_phase name reason mission c =
        let c' = record c { phase = name; mission = update c.mission mission } in
        let message = set_phase_to name reason c'.mission in (c', posted (goes c' message) message)

    -- `connect`: the windows of the frames, the scans and the IMU are emptied.
    unfoldable pub connect : ℕ → Client k → Sent
    connect now c =
        let c' = record c {
          opened = true;
          frames = record c.frames { pending = [] };
          scans = record c.scans { pending = [] };
          imu = record c.imu { pending = [] };
          connected = false;
          last_rx = now;
          last_map_sent = 0;
        } in
        let message = hello c.run_id c.client_id c.phase c.mission in
        (c', posted (goes c' message) message)

    unfoldable pub close_socket : Client k → Client k
    close_socket c = record c { opened = false }
