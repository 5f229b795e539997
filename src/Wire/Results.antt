-- ===== src/Wire/Results.antt =====
-- The header constructors of robocam/wire.py: the replies to the streams. `now` is what
-- `monotonic_ns()` reads, and `round` on floats is a parameter.
use robo_cam_stream_processi.Wire.Json.{
  Json, Header, json_float, with_optional, json_string, json_int, json_bool, object_or_empty,
  json_array, items_of, nonempty_text, list_or_empty,
}
use robo_cam_stream_processi.Prelude.Dict.{string_eq}
use mathlib.Core.Option
use robo_cam_stream_processi.Prelude.Int.{ℤ}
use robo_cam_stream_processi.Prelude.{ℕ, Bool, String, Option, ◌∷◌, List, []}

pub record ResultArgs (F : Type 0) : Type 0 where
  pub seq : ℤ
  pub ok : Bool
  pub reason : String
  pub width : ℤ
  pub height : ℤ
  pub channels : ℤ
  pub dtype : String
  pub nbytes : ℤ
  pub payload_bytes : ℤ
  pub codec : String
  pub decode_ms : F
  pub process_ms : F
  pub server_ms : F
  pub queue_ms : F
  pub processor : String
  pub «data» : Option (Header F)
  pub t_capture_ns : Option ℤ
  pub t_send_ns : Option ℤ
  pub scan_seq : Option ℤ
  pub scan_age_ms : Option F
  pub imu_seq : Option ℤ
  pub imu_age_ms : Option F
  pub odom_seq : Option ℤ
  pub odom_age_ms : Option F
  pub map_seq : Option ℤ
  pub map_id : Option String
  pub pose_source : Option String

pub record ScanResultArgs (F : Type 0) : Type 0 where
  pub seq : ℤ
  pub ok : Bool
  pub reason : String
  pub points : ℤ
  pub payload_bytes : ℤ
  pub encoding : String
  pub parse_ms : F
  pub server_ms : F
  pub «data» : Option (Header F)
  pub t_capture_ns : Option ℤ
  pub t_send_ns : Option ℤ

pub record ImuResultArgs (F : Type 0) : Type 0 where
  pub seq : ℤ
  pub ok : Bool
  pub reason : String
  pub samples : ℤ
  pub payload_bytes : ℤ
  pub encoding : String
  pub parse_ms : F
  pub server_ms : F
  pub «data» : Option (Header F)
  pub t_capture_ns : Option ℤ
  pub t_send_ns : Option ℤ

pub record OdomResultArgs (F : Type 0) : Type 0 where
  pub seq : ℤ
  pub ok : Bool
  pub reason : String
  pub server_ms : F
  pub «data» : Option (Header F)
  pub t_capture_ns : Option ℤ
  pub t_send_ns : Option ℤ

pub record MapResultArgs (F : Type 0) : Type 0 where
  pub seq : ℤ
  pub ok : Bool
  pub reason : String
  pub cells : ℤ
  pub payload_bytes : ℤ
  pub encoding : String
  pub parse_ms : F
  pub server_ms : F
  pub «data» : Option (Header F)
  pub t_capture_ns : Option ℤ
  pub t_send_ns : Option ℤ

pub record ExitsResultArgs (F : Type 0) : Type 0 where
  pub seq : ℤ
  pub ok : Bool
  pub reason : String
  pub ranked : Option (List (Json F))
  pub chosen : String
  pub server_ms : F
  pub «data» : Option (Header F)
  pub t_capture_ns : Option ℤ
  pub t_send_ns : Option ℤ

module _ {F : Type 0} (round : ℕ → F → F) where
  abbrev rounded : ℕ → F → Json F
  rounded digits v = json_float (round digits v)

  unfoldable pub result : ResultArgs F → Header F
  result a =
      with_optional
        (("type", json_string "result")
          ∷ ("seq", json_int a.seq)
          ∷ ("ok", json_bool a.ok)
          ∷ ("reason", json_string a.reason)
          ∷ ("width", json_int a.width)
          ∷ ("height", json_int a.height)
          ∷ ("channels", json_int a.channels)
          ∷ ("dtype", json_string a.dtype)
          ∷ ("nbytes", json_int a.nbytes)
          ∷ ("payload_bytes", json_int a.payload_bytes)
          ∷ ("codec", json_string a.codec)
          ∷ ("decode_ms", rounded 3 a.decode_ms)
          ∷ ("process_ms", rounded 3 a.process_ms)
          ∷ ("queue_ms", rounded 3 a.queue_ms)
          ∷ ("server_ms", rounded 3 a.server_ms)
          ∷ ("processor", json_string a.processor)
          ∷ ("data", object_or_empty a.«data»)
          ∷ [])
        (("t_capture_ns", Option.map json_int a.t_capture_ns)
          ∷ ("t_send_ns", Option.map json_int a.t_send_ns)
          ∷ ("scan_seq", Option.map json_int a.scan_seq)
          ∷ ("scan_age_ms", Option.map (rounded 2) a.scan_age_ms)
          ∷ ("imu_seq", Option.map json_int a.imu_seq)
          ∷ ("imu_age_ms", Option.map (rounded 2) a.imu_age_ms)
          ∷ ("odom_seq", Option.map json_int a.odom_seq)
          ∷ ("odom_age_ms", Option.map (rounded 2) a.odom_age_ms)
          ∷ ("pose_source", Option.map json_string (nonempty_text a.pose_source))
          ∷ ("map_seq", Option.map json_int a.map_seq)
          ∷ ("map_id", Option.map json_string a.map_id)
          ∷ [])

  unfoldable pub scan_result : ScanResultArgs F → Header F
  scan_result a =
      with_optional
        (("type", json_string "scan_result")
          ∷ ("seq", json_int a.seq)
          ∷ ("ok", json_bool a.ok)
          ∷ ("reason", json_string a.reason)
          ∷ ("points", json_int a.points)
          ∷ ("payload_bytes", json_int a.payload_bytes)
          ∷ ("encoding", json_string a.encoding)
          ∷ ("parse_ms", rounded 3 a.parse_ms)
          ∷ ("server_ms", rounded 3 a.server_ms)
          ∷ ("data", object_or_empty a.«data»)
          ∷ [])
        (("t_capture_ns", Option.map json_int a.t_capture_ns)
          ∷ ("t_send_ns", Option.map json_int a.t_send_ns)
          ∷ [])

  unfoldable pub imu_result : ImuResultArgs F → Header F
  imu_result a =
      with_optional
        (("type", json_string "imu_result")
          ∷ ("seq", json_int a.seq)
          ∷ ("ok", json_bool a.ok)
          ∷ ("reason", json_string a.reason)
          ∷ ("samples", json_int a.samples)
          ∷ ("payload_bytes", json_int a.payload_bytes)
          ∷ ("encoding", json_string a.encoding)
          ∷ ("parse_ms", rounded 3 a.parse_ms)
          ∷ ("server_ms", rounded 3 a.server_ms)
          ∷ ("data", object_or_empty a.«data»)
          ∷ [])
        (("t_capture_ns", Option.map json_int a.t_capture_ns)
          ∷ ("t_send_ns", Option.map json_int a.t_send_ns)
          ∷ [])

  unfoldable pub odom_result : OdomResultArgs F → Header F
  odom_result a =
      with_optional
        (("type", json_string "odom_result")
          ∷ ("seq", json_int a.seq)
          ∷ ("ok", json_bool a.ok)
          ∷ ("reason", json_string a.reason)
          ∷ ("server_ms", rounded 3 a.server_ms)
          ∷ ("data", object_or_empty a.«data»)
          ∷ [])
        (("t_capture_ns", Option.map json_int a.t_capture_ns)
          ∷ ("t_send_ns", Option.map json_int a.t_send_ns)
          ∷ [])

  unfoldable pub map_result : MapResultArgs F → Header F
  map_result a =
      with_optional
        (("type", json_string "map_result")
          ∷ ("seq", json_int a.seq)
          ∷ ("ok", json_bool a.ok)
          ∷ ("reason", json_string a.reason)
          ∷ ("cells", json_int a.cells)
          ∷ ("payload_bytes", json_int a.payload_bytes)
          ∷ ("encoding", json_string a.encoding)
          ∷ ("parse_ms", rounded 3 a.parse_ms)
          ∷ ("server_ms", rounded 3 a.server_ms)
          ∷ ("data", object_or_empty a.«data»)
          ∷ [])
        (("t_capture_ns", Option.map json_int a.t_capture_ns)
          ∷ ("t_send_ns", Option.map json_int a.t_send_ns)
          ∷ [])

  unfoldable pub exits_result : ExitsResultArgs F → Header F
  exits_result a =
      with_optional
        (("type", json_string "exits_result")
          ∷ ("seq", json_int a.seq)
          ∷ ("ok", json_bool a.ok)
          ∷ ("reason", json_string a.reason)
          ∷ ("ranked", json_array (items_of (list_or_empty a.ranked)))
          ∷ ("chosen", json_string a.chosen)
          ∷ ("server_ms", rounded 3 a.server_ms)
          ∷ ("data", object_or_empty a.«data»)
          ∷ [])
        (("t_capture_ns", Option.map json_int a.t_capture_ns)
          ∷ ("t_send_ns", Option.map json_int a.t_send_ns)
          ∷ [])
