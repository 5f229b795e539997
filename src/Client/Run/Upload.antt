-- ===== src/Client/Run/Upload.antt =====
-- The map's window across a lost reply. `connect` empties the windows of the frames, the scans and
-- the IMU and leaves those of the map and the poses.
use robo_cam_stream_processi.Client.State.{Kinds, Client}
use robo_cam_stream_processi.Prelude.{
  ℕ, List, Option, ◌∷◌, ◌++◌, ◌≡◌, some, Bool, ◌+◌, [], ◌≢◌, suc, arith, length, if_both, refl,
  ◌==◌, Bool-cases, false, inl, ap, sym, inr,
}
use robo_cam_stream_processi.Client.Run.{
  Item, reconnect, offer_map, offer_frame, pump_all, tick, turns, ◌then_do◌, listen,
}
use robo_cam_stream_processi.Client.Send.{
  Outgoing, map_upload, Sent, pump_lidar, pump_imu, pump_odom, upload, send_frame, connect,
  send_scan, send_imu, send_odom, pump_map, with_pose, hello, newest, is_full, frame, scan,
  imu_burst, odom_pose, exits, set_phase_to, bye,
}
use robo_cam_stream_processi.Prelude.Dict.{remove}
use robo_cam_stream_processi.Client.Receive.{
  handle, Incoming, drain_results, handle_result, map_result, handle_scan_result, handle_imu_result,
  welcome, pop, handle_odom_result, result, Handled, handle_map_result, scan_result,
  handle_map_update, imu_result, handle_phase, odom_result, on_welcome, map_update, answered,
  pose_hint, found, agreement, exits_result, phase_changed, pong, error, unexpected,
}
use robo_cam_stream_processi.Prelude.Int.{ℤ, pos, negsuc}
use mathlib.Core.List.{[]}
use mathlib.Core.Option.{none}
use mathlib.Core.Bool.{true}

module _ (k : Kinds) where
  -- Nothing in the messages answers the upload numbered `n`.
  abbrev Misses : ℕ → List (Option (Incoming k)) → Type 0
  Misses n [] = Unit
  Misses n (some (map_result r) ∷ ms) = (r.seq ≢ pos n) × Misses n ms
  Misses n (m ∷ ms) = Misses n ms

  abbrev pub AllMiss : ℕ → List (Item k) → Type 0
  AllMiss n [] = Unit
  AllMiss n (i ∷ is) = Misses n i.messages × AllMiss n is

  pub uploads : List (Outgoing k) → ℕ
  uploads [] = 0
  uploads (map_upload n reading ∷ out) = suc (uploads out)
  uploads (message ∷ out) = uploads out

  uploads-append :
      (out out' : List (Outgoing k)) → uploads (out ++ out') ≡ uploads out + uploads out'
  unfolding uploads
  uploads-append [] out' = omega arith
  uploads-append (map_upload n reading ∷ out) out' = omega (arith, uploads-append out out')
  uploads-append (hello a b c d ∷ out) out' = uploads-append out out'
  uploads-append (frame a b c ∷ out) out' = uploads-append out out'
  uploads-append (scan a b ∷ out) out' = uploads-append out out'
  uploads-append (imu_burst a b c ∷ out) out' = uploads-append out out'
  uploads-append (odom_pose a b ∷ out) out' = uploads-append out out'
  uploads-append (exits a b c ∷ out) out' = uploads-append out out'
  uploads-append (set_phase_to a b c ∷ out) out' = uploads-append out out'
  uploads-append (bye ∷ out) out' = uploads-append out out'

  module _ (n t : ℕ) where
    -- The upload `n` still awaits its reply.
    abbrev Awaits : Client k → Type 0
    Awaits c = c.maps.pending ≡ (n, t) ∷ []

    pop_other : (i : ℤ) → i ≢ pos n → pop i ((n, t) ∷ []) ≡ (n, t) ∷ []
    unfolding remove
    pop_other (pos m) h = elim (Bool-cases (n == m)) [
      | inl e ↦ absurd (h (ap pos (sym (ground (arith, e)))))
      | inr e ↦ rw e refl
    ]
    pop_other (negsuc m) h = refl

    handle-Awaits :
        (m : Incoming k) (c : Client k)
        → Misses n (some m ∷ [])
        → Awaits c
        → Awaits (handle k m c).0
    unfolding handle handle_result handle_scan_result handle_imu_result handle_odom_result
        handle_map_result handle_map_update handle_phase on_welcome answered remove
    handle-Awaits (welcome w) c h a = ground (arith, a)
    handle-Awaits (result r) c h a = a
    handle-Awaits (scan_result r) c h a = a
    handle-Awaits (imu_result r) c h a = a
    handle-Awaits (odom_result r) c h a = a
    handle-Awaits (map_result r) c (h, _) a = ground (arith, a, pop_other r.seq h)
    handle-Awaits (map_update id cells) c h a = ground (arith, a)
    handle-Awaits (pose_hint d) c h a = a
    handle-Awaits (found d) c h a = a
    handle-Awaits (agreement d) c h a = a
    handle-Awaits (exits_result d) c h a = a
    handle-Awaits (phase_changed (some false) phase mission) c h a = a
    handle-Awaits (phase_changed (some true) phase mission) c h a = a
    handle-Awaits (phase_changed none phase mission) c h a = a
    handle-Awaits pong c h a = a
    handle-Awaits error c h a = a
    handle-Awaits unexpected c h a = a

    split :
        (m : Incoming k) (ms : List (Option (Incoming k)))
        → Misses n (some m ∷ ms)
        → Misses n (some m ∷ []) × Misses n ms
    split (map_result r) ms (h, hs) = ((h, tt), hs)
    split (welcome w) ms h = (tt, h)
    split (result r) ms h = (tt, h)
    split (scan_result r) ms h = (tt, h)
    split (imu_result r) ms h = (tt, h)
    split (odom_result r) ms h = (tt, h)
    split (map_update id cells) ms h = (tt, h)
    split (pose_hint d) ms h = (tt, h)
    split (found d) ms h = (tt, h)
    split (agreement d) ms h = (tt, h)
    split (exits_result d) ms h = (tt, h)
    split (phase_changed accepted phase mission) ms h = (tt, h)
    split pong ms h = (tt, h)
    split error ms h = (tt, h)
    split unexpected ms h = (tt, h)

    drain_results-Awaits :
        (now : ℕ) (ms : List (Option (Incoming k))) (c : Client k)
        → Misses n ms
        → Awaits c
        → Awaits (drain_results k now ms c).0
    unfolding drain_results
    drain_results-Awaits now [] c h a = a
    drain_results-Awaits now (none ∷ ms) c h a =
        drain_results-Awaits now ms (record c { last_rx = now }) h a
    drain_results-Awaits now (some m ∷ ms) c h a =
        let (h', hs) = split m ms h in
        drain_results-Awaits now ms _ hs (handle-Awaits m (record c { last_rx = now }) h' a)

    module _ (takes : Outgoing k → Bool) where
      -- Nothing is uploaded and the upload `n` still awaits its reply.
      abbrev Quiet : Sent k → Type 0
      Quiet r = Awaits r.0 × (uploads r.1 ≡ 0)

      then_do-Quiet :
          (r : Sent k) (f : Client k → Sent k)
          → Quiet r
          → (Awaits r.0 → Quiet (f r.0))
          → Quiet (r then_do f)
      then_do-Quiet (c, out) f (a, e) q =
          let (a', e') = q a in (a', omega (arith, e, e', uploads-append out (f c).1))

      reconnect-Quiet : (now : ℕ) (c : Client k) → Awaits c → Quiet (reconnect k takes now c)
      unfolding reconnect connect uploads
      reconnect-Quiet now c a = ground (arith, a)

      pump_lidar-Quiet :
          (now : ℕ) (r : Option k.Scan) (c : Client k)
          → Awaits c
          → Quiet (pump_lidar k takes now r c)
      unfolding pump_lidar send_scan uploads
      pump_lidar-Quiet now none c a = (a, refl)
      pump_lidar-Quiet now (some r) c a = ground (arith, a)

      pump_imu-Quiet :
          (now : ℕ) (burst : List k.Imu) (lost : ℕ) (c : Client k)
          → Awaits c
          → Quiet (pump_imu k takes now burst lost c)
      unfolding pump_imu send_imu uploads
      pump_imu-Quiet now [] lost c a = (a, refl)
      pump_imu-Quiet now (r ∷ burst) lost c a = ground (arith, a)

      pump_odom-Quiet :
          (now : ℕ) (r : Option k.Odom) (c : Client k)
          → Awaits c
          → Quiet (pump_odom k takes now r c)
      unfolding pump_odom send_odom uploads
      pump_odom-Quiet now none c a = (a, refl)
      pump_odom-Quiet now (some r) c a = ground (arith, a)

      upload-Quiet :
          (now : ℕ) (r : Option k.Map) (c : Client k) → Awaits c → Quiet (upload k takes now r c)
      unfolding upload uploads
      upload-Quiet now none c a = (a, refl)
      upload-Quiet now (some r) c a =
          let full : (length c.maps.pending == 0) ≡ false = rw a refl in ground (arith, a, full)

      offer_map-Quiet :
          (now : ℕ) (r : Option (Option k.Map)) (c : Client k)
          → Awaits c
          → Quiet (offer_map k takes now r c)
      unfolding offer_map pump_map uploads
      offer_map-Quiet now none c a = (a, refl)
      offer_map-Quiet now (some r) c a = ground (
        arith,
        a,
        upload-Quiet now (newest k takes r c.last_map)
            (record c { last_map = newest k takes r c.last_map }) a,
      )

      send_frame-Quiet :
          (now : ℕ) (image : Option k.Frame) (pose : Option k.Pose) (c : Client k)
          → Awaits c
          → Quiet (send_frame k takes now image pose c)
      unfolding send_frame with_pose uploads
      send_frame-Quiet now none pose c a = (a, refl)
      send_frame-Quiet now (some image) none c a = ground (arith, a)
      send_frame-Quiet now (some image) (some pose) c a = ground (arith, a)

      offer_frame-Quiet : (i : Item k) (c : Client k) → Awaits c → Quiet (offer_frame k takes i c)
      unfolding offer_frame uploads
      offer_frame-Quiet i c a =
          if_both Quiet (is_full k takes c.frames) (a, refl)
            (send_frame-Quiet i.now i.frame i.pose c a)

      pump_all-Quiet : (i : Item k) (c : Client k) → Awaits c → Quiet (pump_all k takes i c)
      unfolding pump_all
      pump_all-Quiet i c a =
          let p = reconnect k takes i.now c in
          let lidar = pump_lidar k takes i.now i.scan in
          let imu = pump_imu k takes i.now i.imu i.imu_lost in
          let odom = pump_odom k takes i.now i.odom in
          let map = offer_map k takes i.now i.map in
          let q = p then_do lidar in
          let r = q then_do imu in
          let s = r then_do odom in
          let t = s then_do map in
          let q-Quiet =
            then_do-Quiet p lidar (reconnect-Quiet i.now c a) (pump_lidar-Quiet i.now i.scan p.0) in
          let r-Quiet = then_do-Quiet q imu q-Quiet (pump_imu-Quiet i.now i.imu i.imu_lost q.0) in
          let s-Quiet = then_do-Quiet r odom r-Quiet (pump_odom-Quiet i.now i.odom r.0) in
          let t-Quiet = then_do-Quiet s map s-Quiet (offer_map-Quiet i.now i.map s.0) in
          then_do-Quiet t (offer_frame k takes i) t-Quiet (offer_frame-Quiet i t.0)

      tick-Quiet :
          (i : Item k) (c : Client k) → Misses n i.messages → Awaits c → Quiet (tick k takes i c).0
      unfolding tick listen
      tick-Quiet i c h a = pump_all-Quiet i _ (
          if_both (λ (r : Handled k). Awaits r.0) c.opened
            (drain_results-Awaits i.now i.messages c h a) a)

      -- While the reply to the one upload in flight does not come, no map is uploaded again: not
      -- when its timer comes round, and not after any number of reconnects either.
      pub turns_never_upload :
          (is : List (Item k)) (c : Client k)
          → AllMiss n is
          → c.maps.pending ≡ (n, t) ∷ []
          → ((turns k takes is c).0.maps.pending ≡ (n, t) ∷ [])
            × (uploads (turns k takes is c).1 ≡ 0)
      unfolding turns uploads
      turns_never_upload [] c h a = (a, refl)
      turns_never_upload (i ∷ is) c (h, hs) a =
          if_both Quiet c.stop (a, refl)
            (then_do-Quiet (tick k takes i c).0 (turns k takes is) (tick-Quiet i c h a)
              (turns_never_upload is (tick k takes i c).0.0 hs))
