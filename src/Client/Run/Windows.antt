-- ===== src/Client/Run/Windows.antt =====
-- The flow control of the client: each stream's window holds, whatever the server and socket do.
pub mod Turns
use robo_cam_stream_processi.Prelude.Dict.{put, remove, Eq, Dict, nat_eq, string_eq}
use robo_cam_stream_processi.Prelude.Int.{ℤ, pos, negsuc}
use robo_cam_stream_processi.Client.State.{Stream, Kinds, Client}
use robo_cam_stream_processi.Prelude.{
  ◌≤◌, length, ℕ, String, Bool, suc, arith, ◌<◌, [], ◌∷◌, Option, some, List, Bool-cases, inl, inr,
}
use robo_cam_stream_processi.Client.Receive.{
  answered, pop, Reply, on_welcome, handle, drain_results, Welcome, handle_result, Incoming,
  handle_scan_result, handle_imu_result, handle_odom_result, handle_map_result, handle_map_update,
  handle_phase, welcome, result, scan_result, imu_result, odom_result, map_result, map_update,
  pose_hint, found, agreement, exits_result, phase_changed, pong, error, unexpected,
}
use robo_cam_stream_processi.Client.Send.{
  Outgoing, post, pump_lidar, send_scan, pump_imu, pump_odom, upload, pump_map, send_frame, connect,
  send_imu, send_odom, send_map, newest, with_pose, is_full,
}
use mathlib.Core.Bool.{true, false}
use mathlib.Core.Option.{none}
use robo_cam_stream_processi.Client.Run.{
  offer_map, offer_frame, reconnect, pump_all, Item, tick, turns, listen,
}

length-put {ℓ κ} :
    {K : Type ℓ} {V : Type κ} ⦃e : Eq K⦄ (k : K) (v : V) (d : Dict K V)
    → length (put k v d) ≤ suc (length d)
unfolding put
length-put k v [] = omega arith
length-put k v ((j, w) ∷ d) = ground (arith, length-put k v d)

length-remove {ℓ κ} :
    {K : Type ℓ} {V : Type κ} ⦃e : Eq K⦄ (k : K) (d : Dict K V) → length (remove k d) ≤ length d
unfolding remove
length-remove k [] = omega arith
length-remove k ((j, w) ∷ d) = ground (arith, length-remove k d)

length-pop : (k : ℤ) (d : Dict ℕ ℕ) → length (pop k d) ≤ length d
length-pop (pos n) d = length-remove n d
length-pop (negsuc n) d = omega arith

-- At most `limit` messages of a stream await their reply, and the window lets one through.
pub record InWindow (s : Stream) : Type 0 where
  pub open_for_one : 1 ≤ s.limit
  pub bounded : length s.pending ≤ s.limit

module _ (k : Kinds) where
  pub record AllInWindow (c : Client k) : Type 0 where
    pub frames : InWindow c.frames
    pub scans : InWindow c.scans
    pub imu : InWindow c.imu
    pub odom : InWindow c.odom
    pub maps : InWindow c.maps

  pub answered-InWindow :
      (disabled : String) (r : Reply k) (s : Stream)
      → InWindow s
      → InWindow (answered k disabled r s)
  unfolding answered
  answered-InWindow disabled r s w =
      ground (arith, w.bounded, w.open_for_one, length-pop r.seq s.pending)

  module _ (takes : Outgoing k → Bool) where
    pump_lidar-AllInWindow :
        (now : ℕ) (r : Option k.Scan) (c : Client k)
        → AllInWindow c
        → AllInWindow (pump_lidar k takes now r c).0
    unfolding pump_lidar send_scan post
    pump_lidar-AllInWindow now none c a = a
    pump_lidar-AllInWindow now (some r) c a = ground (
      arith,
      a,
      a.frames,
      a.scans,
      a.imu,
      a.odom,
      a.maps,
      a.scans.open_for_one,
      a.scans.bounded,
      length-put c.scans.seq now c.scans.pending,
    )

    pump_imu-AllInWindow :
        (now : ℕ) (burst : List k.Imu) (lost : ℕ) (c : Client k)
        → AllInWindow c
        → AllInWindow (pump_imu k takes now burst lost c).0
    unfolding pump_imu send_imu post
    pump_imu-AllInWindow now [] lost c a = a
    pump_imu-AllInWindow now (r ∷ burst) lost c a = ground (
      arith,
      a,
      a.frames,
      a.scans,
      a.imu,
      a.odom,
      a.maps,
      a.imu.bounded,
      length-put c.imu.seq now c.imu.pending,
    )

    pump_odom-AllInWindow :
        (now : ℕ) (r : Option k.Odom) (c : Client k)
        → AllInWindow c
        → AllInWindow (pump_odom k takes now r c).0
    unfolding pump_odom send_odom post
    pump_odom-AllInWindow now none c a = a
    pump_odom-AllInWindow now (some r) c a = ground (
      arith,
      a,
      a.frames,
      a.scans,
      a.imu,
      a.odom,
      a.maps,
      a.odom.bounded,
      length-put c.odom.seq now c.odom.pending,
    )

    upload-AllInWindow :
        (now : ℕ) (r : Option k.Map) (c : Client k)
        → AllInWindow c
        → AllInWindow (upload k takes now r c).0
    unfolding upload send_map post
    upload-AllInWindow now none c a = a
    upload-AllInWindow now (some r) c a = ground (
      arith,
      a,
      a.frames,
      a.scans,
      a.imu,
      a.odom,
      a.maps,
      a.maps.open_for_one,
      a.maps.bounded,
      length-put c.maps.seq now c.maps.pending,
    )

    pump_map-AllInWindow :
        (now : ℕ) (r : Option k.Map) (c : Client k)
        → AllInWindow c
        → AllInWindow (pump_map k takes now r c).0
    unfolding pump_map
    pump_map-AllInWindow now r c a = ground (
      arith,
      a,
      upload-AllInWindow now (newest k takes r c.last_map)
          (record c { last_map = newest k takes r c.last_map })
          (record {
            frames = a.frames;
            scans = a.scans;
            imu = a.imu;
            odom = a.odom;
            maps = a.maps;
          }),
    )

    offer_map-AllInWindow :
        (now : ℕ) (r : Option (Option k.Map)) (c : Client k)
        → AllInWindow c
        → AllInWindow (offer_map k takes now r c).0
    unfolding offer_map
    offer_map-AllInWindow now none c a = a
    offer_map-AllInWindow now (some r) c a = pump_map-AllInWindow now r c a

    send_frame-AllInWindow :
        (now : ℕ) (image : Option k.Frame) (pose : Option k.Pose) (c : Client k)
        → AllInWindow c
        → length c.frames.pending < c.frames.limit
        → AllInWindow (send_frame k takes now image pose c).0
    unfolding send_frame with_pose post
    send_frame-AllInWindow now none pose c a room = a
    send_frame-AllInWindow now (some image) none c a room = ground (
      arith,
      a,
      a.frames,
      a.scans,
      a.imu,
      a.odom,
      a.maps,
      room,
      a.frames.open_for_one,
      a.frames.bounded,
      length-put c.frames.seq now c.frames.pending,
    )
    send_frame-AllInWindow now (some image) (some pose) c a room = ground (
      arith,
      a,
      a.frames,
      a.scans,
      a.imu,
      a.odom,
      a.maps,
      room,
      a.frames.open_for_one,
      a.frames.bounded,
      length-put c.frames.seq now c.frames.pending,
    )

    offer_frame-AllInWindow :
        (i : Item k) (c : Client k) → AllInWindow c → AllInWindow (offer_frame k takes i c).0
    unfolding offer_frame
    offer_frame-AllInWindow i c a = elim (Bool-cases (is_full k takes c.frames)) [
      | inl full ↦ rw full (
          ground (
            arith, a, a.frames, a.scans, a.imu, a.odom, a.maps, a.frames.open_for_one,
            a.frames.bounded,
          ))
      | inr room ↦ rw room (send_frame-AllInWindow i.now i.frame i.pose c a (ground (arith, room)))
    ]

    connect-AllInWindow :
        (now : ℕ) (c : Client k) → AllInWindow c → AllInWindow (connect k takes now c).0
    unfolding connect
    connect-AllInWindow now c a = ground (
      arith, a, a.frames, a.scans, a.imu, a.odom, a.maps, a.frames.open_for_one,
      a.scans.open_for_one, a.imu.open_for_one,
    )

    reconnect-AllInWindow :
        (now : ℕ) (c : Client k) → AllInWindow c → AllInWindow (reconnect k takes now c).0
    unfolding reconnect
    reconnect-AllInWindow now c a = ground (arith, a, connect-AllInWindow now c a)

    pump_all-AllInWindow :
        (i : Item k) (c : Client k) → AllInWindow c → AllInWindow (pump_all k takes i c).0
    unfolding pump_all
    pump_all-AllInWindow i c a = offer_frame-AllInWindow i _ (
        offer_map-AllInWindow i.now i.map _ (
          pump_odom-AllInWindow i.now i.odom _ (
            pump_imu-AllInWindow i.now i.imu i.imu_lost _
              (pump_lidar-AllInWindow i.now i.scan _ (reconnect-AllInWindow i.now c a)))))
