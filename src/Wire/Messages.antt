-- ===== src/Wire/Messages.antt =====
-- Every message that robocam/wire.py can build, and what `decode` makes of it at the other end.
use robo_cam_stream_processi.Wire.Json.{
  Json, Header, json_string, with_optional, json_object, fields_of, header_of-fields_of,
}
use robo_cam_stream_processi.Prelude.Dict.{get, put, string_eq, get-put_ne}
use robo_cam_stream_processi.Wire.Session.{
  hello, welcome, frame, phase, ping, pong, bye, error, HelloArgs, WelcomeArgs, FrameArgs,
  PhaseArgs, PingArgs, PongArgs, ByeArgs, ErrorArgs,
}
use robo_cam_stream_processi.Wire.Results.{
  result, scan_result, imu_result, odom_result, map_result, exits_result, ResultArgs,
  ScanResultArgs, ImuResultArgs, OdomResultArgs, MapResultArgs, ExitsResultArgs,
}
use robo_cam_stream_processi.Wire.Sensors.{
  scan, imu, odom, occupancy_map, exits, ScanArgs, ImuArgs, OdomArgs, OccupancyMapArgs, ExitsArgs,
}
use robo_cam_stream_processi.Wire.Announcements.{
  map_update, pose_hint, agreement, found, MapUpdateArgs, PoseHintArgs, AgreementArgs, FoundArgs,
}
use robo_cam_stream_processi.Prelude.Int.{ℤ}
use robo_cam_stream_processi.Prelude.{
  String, ℕ, List, ◌≡◌, Option, some, Bool, true, [], none, ◌∷◌, not, refl, str_eq, ◌&&◌, false,
  ◌∙◌, inr, ap, if◌then◌else◌, inl,
}
use robo_cam_stream_processi.Wire.Decode.{
  decode, encode, check_header, with_payload, has_type, no_type,
}

-- A constructor's name and what it is given.
pub data Message (F : Type 0) : Type 0 where
  send_hello : ℤ → HelloArgs F → Message F
  send_welcome : WelcomeArgs F → Message F
  send_frame : ℤ → FrameArgs F → Message F
  send_phase : ℤ → PhaseArgs F → Message F
  send_ping : ℤ → PingArgs F → Message F
  send_pong : PongArgs F → Message F
  send_bye : ByeArgs F → Message F
  send_error : ErrorArgs F → Message F
  send_result : ResultArgs F → Message F
  send_scan_result : ScanResultArgs F → Message F
  send_imu_result : ImuResultArgs F → Message F
  send_odom_result : OdomResultArgs F → Message F
  send_map_result : MapResultArgs F → Message F
  send_exits_result : ExitsResultArgs F → Message F
  send_scan : ℤ → ScanArgs F → Message F
  send_imu : ℤ → ImuArgs F → Message F
  send_odom : ℤ → OdomArgs F → Message F
  send_occupancy_map : ℤ → OccupancyMapArgs F → Message F
  send_exits : ℤ → ExitsArgs F → Message F
  send_map_update : ℤ → MapUpdateArgs F → Message F
  send_pose_hint : ℤ → PoseHintArgs F → Message F
  send_agreement : ℤ → AgreementArgs F → Message F
  send_found : ℤ → FoundArgs F → Message F

-- The word that each is told by.
unfoldable pub type_of : {F : Type 0} → Message F → String
type_of (send_hello now a) = "hello"
type_of (send_welcome a) = "welcome"
type_of (send_frame now a) = "frame"
type_of (send_phase now a) = "phase"
type_of (send_ping now a) = "ping"
type_of (send_pong a) = "pong"
type_of (send_bye a) = "bye"
type_of (send_error a) = "error"
type_of (send_result a) = "result"
type_of (send_scan_result a) = "scan_result"
type_of (send_imu_result a) = "imu_result"
type_of (send_odom_result a) = "odom_result"
type_of (send_map_result a) = "map_result"
type_of (send_exits_result a) = "exits_result"
type_of (send_scan now a) = "scan"
type_of (send_imu now a) = "imu"
type_of (send_odom now a) = "odom"
type_of (send_occupancy_map now a) = "map"
type_of (send_exits now a) = "exits"
type_of (send_map_update now a) = "map_update"
type_of (send_pose_hint now a) = "pose_hint"
type_of (send_agreement now a) = "agreement"
type_of (send_found now a) = "found"

module _ {F : Type 0} (round : ℕ → F → F) where
  unfoldable pub header : Message F → Header F
  header (send_hello now a) = hello now a
  header (send_welcome a) = welcome a
  header (send_frame now a) = frame now a
  header (send_phase now a) = phase now a
  header (send_ping now a) = ping now a
  header (send_pong a) = pong a
  header (send_bye a) = bye a
  header (send_error a) = error a
  header (send_result a) = result round a
  header (send_scan_result a) = scan_result round a
  header (send_imu_result a) = imu_result round a
  header (send_odom_result a) = odom_result round a
  header (send_map_result a) = map_result round a
  header (send_exits_result a) = exits_result round a
  header (send_scan now a) = scan now a
  header (send_imu now a) = imu now a
  header (send_odom now a) = odom now a
  header (send_occupancy_map now a) = occupancy_map now a
  header (send_exits now a) = exits now a
  header (send_map_update now a) = map_update round now a
  header (send_pose_hint now a) = pose_hint round now a
  header (send_agreement now a) = agreement round now a
  header (send_found now a) = found round now a

  abbrev none_is_type : List (String × Option (Json F)) → Bool
  none_is_type [] = true
  none_is_type ((key, v) ∷ rest) = not (str_eq key "type") && none_is_type rest

  both : (b c : Bool) → (not b && c) ≡ true → (b ≡ false) × (c ≡ true)
  both false c e = (refl, e)
  both true c e = absurd cc

  -- Optional keys leave the type as it is.
  optional_type :
      (h : Header F) (opts : List (String × Option (Json F)))
      → none_is_type opts ≡ true
      → get "type" (with_optional h opts) ≡ get "type" h
  unfolding with_optional
  optional_type h [] e = refl
  optional_type h ((key, none) ∷ rest) e =
      optional_type h rest (both (str_eq key "type") (none_is_type rest) e).1
  optional_type h ((key, some v) ∷ rest) e =
      optional_type (put key v h) rest (both (str_eq key "type") (none_is_type rest) e).1
      ∙ get-put_ne "type" key v h (both (str_eq key "type") (none_is_type rest) e).0

  header-type : (m : Message F) → get "type" (header m) ≡ some (json_string (type_of m))
  unfolding header type_of get
  header-type (send_hello now a) = unfold hello in optional_type _ _ refl
  header-type (send_welcome a) = unfold welcome in optional_type _ _ refl
  header-type (send_frame now a) = unfold frame in optional_type _ _ refl
  header-type (send_phase now a) = unfold phase in optional_type _ _ refl
  header-type (send_ping now a) = unfold ping in refl
  header-type (send_pong a) = unfold pong in optional_type _ _ refl
  header-type (send_bye a) = unfold bye in refl
  header-type (send_error a) = unfold error in optional_type _ _ refl
  header-type (send_result a) = unfold result in optional_type _ _ refl
  header-type (send_scan_result a) = unfold scan_result in optional_type _ _ refl
  header-type (send_imu_result a) = unfold imu_result in optional_type _ _ refl
  header-type (send_odom_result a) = unfold odom_result in optional_type _ _ refl
  header-type (send_map_result a) = unfold map_result in optional_type _ _ refl
  header-type (send_exits_result a) = unfold exits_result in optional_type _ _ refl
  header-type (send_scan now a) = unfold scan in optional_type _ _ refl
  header-type (send_imu now a) = unfold imu in optional_type _ _ refl
  header-type (send_odom now a) = unfold odom in optional_type _ _ refl
  header-type (send_occupancy_map now a) = unfold occupancy_map in optional_type _ _ refl
  header-type (send_exits now a) = unfold exits in optional_type _ _ refl
  header-type (send_map_update now a) = unfold map_update in optional_type _ _ refl
  header-type (send_pose_hint now a) = unfold pose_hint in optional_type _ _ refl
  header-type (send_agreement now a) = unfold agreement in optional_type _ _ refl
  header-type (send_found now a) = unfold found in optional_type _ _ refl

  module _ {Bytes : Type 0} (nothing : Bytes) (dumps : Header F → Bytes)
      (loads : Bytes → Option (Json F)) where
    -- Whatever message either end builds, the other end reads: where JSON reads back the header
    -- that it wrote, `decode` gives that header and the payload with no error, and the header
    -- bears the type of its message, so that an optional key never takes its place.
    pub decode-header :
        (m : Message F) (payload : Bytes)
        → loads (dumps (header m)) ≡ some (json_object (fields_of (header m)))
        → (decode nothing dumps loads (encode nothing dumps loads (header m) payload)
            ≡ inr (header m, payload))
          × (get "type" (header m) ≡ some (json_string (type_of m)))
    unfolding decode encode check_header with_payload
    decode-header m payload json = (
      ap (λ read. with_payload nothing dumps loads payload (check_header nothing dumps loads read))
            json
          ∙ ap
              (λ h.
                with_payload nothing dumps loads payload
                  (if has_type h then inr h else inl no_type))
              (header_of-fields_of (header m))
          ∙ ap
              (λ b.
                with_payload nothing dumps loads payload
                  (if b then inr (header m) else inl no_type))
              typed,
      header-type m,
    )
      where
        typed : has_type (header m) ≡ true
        typed = ap (λ o. elim o as (λ _. Bool) [ none ↦ false | some v ↦ true ]) (header-type m)
