-- ===== src/Client/Run/Recovery.antt =====
-- The frames' window across a silence: the reconnect empties it, and the same turn sends a frame.
use robo_cam_stream_processi.Client.State.{Kinds, Client, Stream}
use robo_cam_stream_processi.Client.Send.{
  Outgoing, pump_lidar, pump_imu, pump_odom, upload, send_scan, send_imu, send_odom, send_map,
  pump_map, send_frame, newest, goes, post, Sent, with_pose, is_full, connect, frame,
}
use robo_cam_stream_processi.Prelude.{
  Bool, ◌≡◌, [], ap, ℕ, true, Option, List, ◌≤◌, ◌∷◌, ◌∙◌, arith, subst, refl, if_both, sym, not,
  ◌+◌, false, length, ◌<◌, ltb,
}
use robo_cam_stream_processi.Client.Run.{offer_map, offer_frame, some, Item, reconnect, pump_all}
use mathlib.Core.Option.{none}

module _ (k : Kinds) (takes : Outgoing k → Bool) where
  -- The pumps of the other streams leave the frames' window and the socket as they were.
  record Aside (c d : Client k) : Type 0 where
    frames : d.frames ≡ c.frames
    opened : d.opened ≡ c.opened

  pump_lidar-Aside :
      (now : ℕ) (r : Option k.Scan) (c : Client k) → Aside c (pump_lidar k takes now r c).0
  unfolding pump_lidar send_scan
  pump_lidar-Aside now none c = record { frames = refl; opened = refl }
  pump_lidar-Aside now (some r) c = ground arith

  pump_imu-Aside :
      (now : ℕ) (burst : List k.Imu) (lost : ℕ) (c : Client k)
      → Aside c (pump_imu k takes now burst lost c).0
  unfolding pump_imu send_imu
  pump_imu-Aside now [] lost c = record { frames = refl; opened = refl }
  pump_imu-Aside now (r ∷ burst) lost c = ground arith

  pump_odom-Aside :
      (now : ℕ) (r : Option k.Odom) (c : Client k) → Aside c (pump_odom k takes now r c).0
  unfolding pump_odom send_odom
  pump_odom-Aside now none c = record { frames = refl; opened = refl }
  pump_odom-Aside now (some r) c = ground arith

  upload-Aside : (now : ℕ) (r : Option k.Map) (c : Client k) → Aside c (upload k takes now r c).0
  unfolding upload send_map
  upload-Aside now none c = record { frames = refl; opened = refl }
  upload-Aside now (some r) c = ground arith

  offer_map-Aside :
      (now : ℕ) (r : Option (Option k.Map)) (c : Client k) → Aside c (offer_map k takes now r c).0
  unfolding offer_map pump_map
  offer_map-Aside now none c = record { frames = refl; opened = refl }
  offer_map-Aside now (some r) c =
      let d = record c { last_map = newest k takes r c.last_map } in
      let a = upload-Aside now (newest k takes r c.last_map) d in
      if_both (λ (x : Sent k). Aside c x.0) (not c.maps.wanted)
        (record { frames = refl; opened = refl }) (record { frames = a.frames; opened = a.opened })

  -- A window that is empty on an open socket.
  record Ready (c : Client k) : Type 0 where
    empty : c.frames.pending ≡ []
    live : c.opened ≡ true
    wide : 1 ≤ c.frames.limit

  Ready-Aside : (c d : Client k) → Aside c d → Ready c → Ready d
  Ready-Aside c d a r = record {
    empty = ap (λ (s : Stream). s.pending) a.frames ∙ r.empty;
    live = a.opened ∙ r.live;
    wide = subst (λ (s : Stream). 1 ≤ s.limit) (sym a.frames) r.wide;
  }

  Aside-trans : (c d e : Client k) → Aside c d → Aside d e → Aside c e
  Aside-trans c d e a b = record { frames = b.frames ∙ a.frames; opened = b.opened ∙ a.opened }

  reconnect-Ready :
      (now : ℕ) (c : Client k)
      → c.last_rx + c.reconnect_after < now
      → 1 ≤ c.frames.limit
      → Ready (reconnect k takes now c).0
        × ((reconnect k takes now c).0.frames.sent ≡ c.frames.sent)
  unfolding reconnect connect
  reconnect-Ready now c late wide =
      let due : ltb (c.last_rx + c.reconnect_after) now ≡ true = ground (arith, late) in
      simp due (record { empty = refl; live = refl; wide = wide }, refl)

  module _ (all : (m : Outgoing k) → takes m ≡ true) where
    send_frame-sent :
        (now : ℕ) (image : k.Frame) (pose : Option k.Pose) (c : Client k)
        → c.opened ≡ true
        → (send_frame k takes now (some image) pose c).0.frames.sent ≡ c.frames.sent + 1
    unfolding send_frame goes post with_pose
    send_frame-sent now image none c live = simp (live, all (frame c.frames.seq image none)) refl
    send_frame-sent now image (some pose) c live =
        simp (live, all (frame c.frames.seq image (some pose))) refl

    offer_frame-sent :
        (i : Item k) (image : k.Frame) (c : Client k)
        → i.frame ≡ some image
        → Ready c
        → (offer_frame k takes i c).0.frames.sent ≡ c.frames.sent + 1
    unfolding offer_frame
    offer_frame-sent i image c e r =
        let bare : length c.frames.pending ≡ 0 = ap length r.empty in
        let room : is_full k takes c.frames ≡ false = ground (arith, bare, r.wide) in
        simp (room, e) (send_frame-sent i.now image i.pose c r.live)

    -- After a silence longer than `reconnect_after` the camera comes back by itself: whatever
    -- replies were lost, the turn of the loop that finds the silence sends its frame, if there is a
    -- picture, the window lets one through and the new socket takes what it is given.
    pub pump_all-sent :
        (i : Item k) (image : k.Frame) (c : Client k)
        → c.last_rx + c.reconnect_after < i.now
        → 1 ≤ c.frames.limit
        → i.frame ≡ some image
        → (pump_all k takes i c).0.frames.sent ≡ c.frames.sent + 1
    unfolding pump_all
    pump_all-sent i image c late wide e =
        let (ready, same) = reconnect-Ready i.now c late wide in
        let c0 = (reconnect k takes i.now c).0 in
        let c1 = (pump_lidar k takes i.now i.scan c0).0 in
        let c2 = (pump_imu k takes i.now i.imu i.imu_lost c1).0 in
        let c3 = (pump_odom k takes i.now i.odom c2).0 in
        let c4 = (offer_map k takes i.now i.map c3).0 in
        let a = Aside-trans c0 c1 c4 (pump_lidar-Aside i.now i.scan c0) (
          Aside-trans c1 c2 c4 (pump_imu-Aside i.now i.imu i.imu_lost c1) (
            Aside-trans c2 c3 c4 (pump_odom-Aside i.now i.odom c2)
              (offer_map-Aside i.now i.map c3))) in
        offer_frame-sent i image c4 e (Ready-Aside c0 c4 a ready)
        ∙ ap (λ (s : Stream). s.sent + 1) a.frames
        ∙ ap (λ n. n + 1) same
