-- ===== src/Client/Run/Windows/Turns.antt =====
-- The windows through the replies and whole turns of the loop.
use robo_cam_stream_processi.Client.State.{Kinds, Client}
use robo_cam_stream_processi.Client.Receive.{
  on_welcome, handle, drain_results, Welcome, handle_result, handle_scan_result, handle_imu_result,
  handle_odom_result, Incoming, handle_map_result, handle_map_update, handle_phase, welcome, result,
  scan_result, imu_result, odom_result, map_result, map_update, pose_hint, found, agreement,
  exits_result, phase_changed, pong, error, unexpected, Handled,
}
use robo_cam_stream_processi.Client.Send.{Outgoing, Sent}
use robo_cam_stream_processi.Prelude.{ℕ, Bool, List, Option, arith, ◌∷◌, if_both}
use robo_cam_stream_processi.Client.Run.{tick, turns, listen, Item, some}
use robo_cam_stream_processi.Client.Run.Windows.{
  AllInWindow, pump_all-AllInWindow, length-pop, answered-InWindow,
}
use mathlib.Core.List.{[]}
use mathlib.Core.Option.{none}
use mathlib.Core.Bool.{false, true}

module _ (k : Kinds) where
  on_welcome-AllInWindow :
      (w : Welcome) (c : Client k) → AllInWindow k c → AllInWindow k (on_welcome k w c)
  unfolding on_welcome
  on_welcome-AllInWindow w c a = ground (arith, a, a.frames, a.scans, a.imu, a.odom, a.maps)

  handle-AllInWindow :
      (m : Incoming k) (c : Client k) → AllInWindow k c → AllInWindow k (handle k m c).0
  unfolding handle handle_result handle_scan_result handle_imu_result handle_odom_result
      handle_map_result handle_map_update handle_phase
  handle-AllInWindow (welcome w) c a = on_welcome-AllInWindow w c a
  handle-AllInWindow (result r) c a = ground (
    arith,
    a,
    a.frames,
    a.scans,
    a.imu,
    a.odom,
    a.maps,
    a.frames.open_for_one,
    a.frames.bounded,
    length-pop r.seq c.frames.pending,
  )
  handle-AllInWindow (scan_result r) c a = record {
    frames = a.frames;
    scans = answered-InWindow k "lidar_disabled" r c.scans a.scans;
    imu = a.imu;
    odom = a.odom;
    maps = a.maps;
  }
  handle-AllInWindow (imu_result r) c a = record {
    frames = a.frames;
    scans = a.scans;
    imu = answered-InWindow k "imu_disabled" r c.imu a.imu;
    odom = a.odom;
    maps = a.maps;
  }
  handle-AllInWindow (odom_result r) c a = record {
    frames = a.frames;
    scans = a.scans;
    imu = a.imu;
    odom = answered-InWindow k "odom_disabled" r c.odom a.odom;
    maps = a.maps;
  }
  handle-AllInWindow (map_result r) c a = record {
    frames = a.frames;
    scans = a.scans;
    imu = a.imu;
    odom = a.odom;
    maps = answered-InWindow k "map_disabled" r c.maps a.maps;
  }
  handle-AllInWindow (map_update id cells) c a =
      ground (arith, a, a.frames, a.scans, a.imu, a.odom, a.maps)
  handle-AllInWindow (pose_hint d) c a = record {
    frames = a.frames;
    scans = a.scans;
    imu = a.imu;
    odom = a.odom;
    maps = a.maps;
  }
  handle-AllInWindow (found d) c a = record {
    frames = a.frames;
    scans = a.scans;
    imu = a.imu;
    odom = a.odom;
    maps = a.maps;
  }
  handle-AllInWindow (agreement d) c a = record {
    frames = a.frames;
    scans = a.scans;
    imu = a.imu;
    odom = a.odom;
    maps = a.maps;
  }
  handle-AllInWindow (exits_result d) c a = a
  handle-AllInWindow (phase_changed (some false) phase mission) c a = a
  handle-AllInWindow (phase_changed (some true) phase mission) c a = record {
    frames = a.frames;
    scans = a.scans;
    imu = a.imu;
    odom = a.odom;
    maps = a.maps;
  }
  handle-AllInWindow (phase_changed none phase mission) c a = record {
    frames = a.frames;
    scans = a.scans;
    imu = a.imu;
    odom = a.odom;
    maps = a.maps;
  }
  handle-AllInWindow pong c a = a
  handle-AllInWindow error c a = a
  handle-AllInWindow unexpected c a = a

  drain_results-AllInWindow :
      (now : ℕ) (ms : List (Option (Incoming k))) (c : Client k)
      → AllInWindow k c
      → AllInWindow k (drain_results k now ms c).0
  unfolding drain_results
  drain_results-AllInWindow now [] c a = a
  drain_results-AllInWindow now (none ∷ ms) c a =
      drain_results-AllInWindow now ms _
        (record { frames = a.frames; scans = a.scans; imu = a.imu; odom = a.odom; maps = a.maps })
  drain_results-AllInWindow now (some m ∷ ms) c a = drain_results-AllInWindow now ms _ (
      handle-AllInWindow m _
        (record { frames = a.frames; scans = a.scans; imu = a.imu; odom = a.odom; maps = a.maps }))

  module _ (takes : Outgoing k → Bool) where
    tick-AllInWindow :
        (i : Item k) (c : Client k) → AllInWindow k c → AllInWindow k (tick k takes i c).0.0
    unfolding tick listen
    tick-AllInWindow i c a = pump_all-AllInWindow k takes i _ (
        if_both (λ (r : Handled k). AllInWindow k r.0) c.opened
          (drain_results-AllInWindow i.now i.messages c a) a)

    -- From a state whose windows are respected, whatever the server sends and the socket refuses,
    -- every turn of the loop leaves each of the five streams with at most as many unanswered
    -- messages as its window allows; the map's window is one.
    pub turns-AllInWindow :
        (is : List (Item k)) (c : Client k) → AllInWindow k c → AllInWindow k (turns k takes is c).0
    unfolding turns
    turns-AllInWindow [] c a = a
    turns-AllInWindow (i ∷ is) c a =
        if_both (λ (r : Sent k). AllInWindow k r.0) c.stop a
          (turns-AllInWindow is _ (tick-AllInWindow i c a))
