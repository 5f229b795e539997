-- ===== src/Client/Run.antt =====
-- `RoboCamClient.run` of link/robocam_client.py: one turn of its loop for each frame of the source.
pub mod Windows
pub mod Upload
pub mod Recovery
use robo_cam_stream_processi.Client.State.{Client, Kinds}
use robo_cam_stream_processi.Prelude.{
  ℕ, List, Bool, Option, ◌++◌, if◌then◌else◌, [], ◌∷◌, ltb, some, ◌+◌,
}
use robo_cam_stream_processi.Client.Send.{
  Outgoing, Sent, pump_lidar, connect, is_full, pump_imu, close_socket, pump_map, skip, pump_odom,
  posted, send_frame, goes, bye,
}
use robo_cam_stream_processi.Client.Receive.{Handled, Incoming, Call, drain_results}
use mathlib.Core.Option.{none}

-- One step of the turn after another.
infixl 40 ◌then_do◌
abbrev pub ◌then_do◌ : {k : Kinds} → Sent k → (Client k → Sent k) → Sent k
(c, out) then_do f = let (c', out') = f c in (c', out ++ out')

module _ (k : Kinds) where
  open k use {Frame, Pose, Scan, Imu, Odom, Map}

  -- What a turn meets: the clock, the messages that have come, what each feed's `take` would give,
  -- and the frame. `none` for the map is that there is no map source.
  pub record Item : Type 0 where
    pub now : ℕ
    pub messages : List (Option (Incoming k))
    pub scan : Option Scan
    pub imu : List Imu
    pub imu_lost : ℕ
    pub odom : Option Odom
    pub map : Option (Option Map)
    pub frame : Option Frame
    pub pose : Option Pose

  module _ (takes : Outgoing k → Bool) where
    unfoldable pub listen : Item → Client k → Handled k
    listen i c = if c.opened then drain_results k i.now i.messages c else (c, [])

    unfoldable pub reconnect : ℕ → Client k → Sent k
    reconnect now c =
        if ltb (c.last_rx + c.reconnect_after) now then connect k takes now c else (c, [])

    unfoldable pub offer_map : ℕ → Option (Option Map) → Client k → Sent k
    offer_map now none c = (c, [])
    offer_map now (some reading) c = pump_map k takes now reading c

    unfoldable pub offer_frame : Item → Client k → Sent k
    offer_frame i c =
        if is_full k takes c.frames
        then (record c { frames = skip k takes c.frames }, [])
        else send_frame k takes i.now i.frame i.pose c

    -- A turn after the replies are read.
    unfoldable pub pump_all : Item → Client k → Sent k
    pump_all i c =
        reconnect i.now c
        then_do pump_lidar k takes i.now i.scan
        then_do pump_imu k takes i.now i.imu i.imu_lost
        then_do pump_odom k takes i.now i.odom
        then_do offer_map i.now i.map
        then_do offer_frame i

    unfoldable pub tick : Item → Client k → Sent k × List (Call k)
    tick i c = let (c', calls) = listen i c in (pump_all i c', calls)

    -- The loop, up to a refused session or the end of the source.
    unfoldable pub turns : List Item → Client k → Sent k
    turns [] c = (c, [])
    turns (i ∷ is) c = let rest = (tick i c).0 then_do turns is in if c.stop then (c, []) else rest

    -- `run` with its start and its `finally`.
    unfoldable pub run : ℕ → List Item → Client k → Sent k
    run now items c =
        let (c', out) = connect k takes now c then_do turns items in
        (close_socket k takes c', out ++ posted k takes (goes k takes c' bye) bye)
