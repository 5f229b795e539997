-- ===== src/Wire/Sensors.antt =====
-- The header constructors of robocam/wire.py: the robot's sensors, maps and exits. `now` is what
-- `monotonic_ns()` reads, and `round` on floats is a parameter.
use robo_cam_stream_processi.Wire.Json.{
  Json, Header, with_optional, json_string, json_int, json_float, strings, json_array, json_bool,
  triple, items_of, json_object_of, nonempty,
}
use robo_cam_stream_processi.Prelude.Dict.{string_eq}
use mathlib.Core.Option
use robo_cam_stream_processi.Prelude.Int.{ℤ, negsuc}
use robo_cam_stream_processi.Prelude.{String, List, Option, Bool, ◌∷◌, [], map}

pub record ScanArgs (F : Type 0) : Type 0 where
  pub seq : ℤ
  pub count : ℤ
  pub t_capture_ns : ℤ
  pub encoding : String
  pub angle_min : F
  pub angle_increment : F
  pub range_min : F
  pub range_max : F
  pub scan_time : F
  pub intensities : Bool
  pub source : String
  pub extra : Option (Header F)

pub record ImuArgs (F : Type 0) : Type 0 where
  pub seq : ℤ
  pub count : ℤ
  pub t_capture_ns : ℤ
  pub fields : List String
  pub encoding : String
  pub gyro_units : String
  pub accel_units : String
  pub rate_hz : F
  pub dropped : ℤ
  pub source : String
  pub extra : Option (Header F)

pub record OdomArgs (F : Type 0) : Type 0 where
  pub seq : ℤ
  pub t_capture_ns : ℤ
  pub x : F
  pub y : F
  pub z : F
  pub yaw : F
  pub quaternion : Option (F × F × F × F)
  pub vx : F
  pub vy : F
  pub vyaw : F
  pub frame : String
  pub child_frame : String
  pub pose_cov_diag : Option (List F)
  pub source : String
  pub extra : Option (Header F)

pub record OccupancyMapArgs (F : Type 0) : Type 0 where
  pub seq : ℤ
  pub width : ℤ
  pub height : ℤ
  pub resolution : F
  pub t_capture_ns : ℤ
  pub encoding : String
  pub origin : F × F × F
  pub frame : String
  pub map_id : String
  pub occupied_min : ℤ
  pub free_max : ℤ
  pub full : Bool
  pub x0 : ℤ
  pub y0 : ℤ
  pub source : String
  pub extra : Option (Header F)

pub record ExitsArgs (F : Type 0) : Type 0 where
  pub seq : ℤ
  pub candidates : List (Json F)
  pub t_capture_ns : ℤ
  pub frame : String
  pub map_id : String
  pub source : String
  pub extra : Option (Header F)

module _ {F : Type 0} where
  unfoldable pub scan : ℤ → ScanArgs F → Header F
  scan now a =
      with_optional
        (("type", json_string "scan")
          ∷ ("seq", json_int a.seq)
          ∷ ("encoding", json_string a.encoding)
          ∷ ("count", json_int a.count)
          ∷ ("angle_min", json_float a.angle_min)
          ∷ ("angle_increment", json_float a.angle_increment)
          ∷ ("range_min", json_float a.range_min)
          ∷ ("range_max", json_float a.range_max)
          ∷ ("scan_time", json_float a.scan_time)
          ∷ ("intensities", json_bool a.intensities)
          ∷ ("source", json_string a.source)
          ∷ ("t_capture_ns", json_int a.t_capture_ns)
          ∷ ("t_send_ns", json_int now)
          ∷ [])
        (("extra", Option.map json_object_of (nonempty a.extra)) ∷ [])

  unfoldable pub imu : ℤ → ImuArgs F → Header F
  imu now a =
      with_optional
        (("type", json_string "imu")
          ∷ ("seq", json_int a.seq)
          ∷ ("encoding", json_string a.encoding)
          ∷ ("count", json_int a.count)
          ∷ ("fields", strings a.fields)
          ∷ ("gyro_units", json_string a.gyro_units)
          ∷ ("accel_units", json_string a.accel_units)
          ∷ ("rate_hz", json_float a.rate_hz)
          ∷ ("dropped", json_int a.dropped)
          ∷ ("source", json_string a.source)
          ∷ ("t_capture_ns", json_int a.t_capture_ns)
          ∷ ("t_send_ns", json_int now)
          ∷ [])
        (("extra", Option.map json_object_of (nonempty a.extra)) ∷ [])

  unfoldable pub odom : ℤ → OdomArgs F → Header F
  odom now a =
      with_optional
        (("type", json_string "odom")
          ∷ ("seq", json_int a.seq)
          ∷ ("frame", json_string a.frame)
          ∷ ("child_frame", json_string a.child_frame)
          ∷ ("x", json_float a.x)
          ∷ ("y", json_float a.y)
          ∷ ("z", json_float a.z)
          ∷ ("yaw", json_float a.yaw)
          ∷ ("vx", json_float a.vx)
          ∷ ("vy", json_float a.vy)
          ∷ ("vyaw", json_float a.vyaw)
          ∷ ("source", json_string a.source)
          ∷ ("t_capture_ns", json_int a.t_capture_ns)
          ∷ ("t_send_ns", json_int now)
          ∷ [])
        (("qw", Option.map (λ q. json_float q.0) a.quaternion)
          ∷ ("qx", Option.map (λ q. json_float q.1) a.quaternion)
          ∷ ("qy", Option.map (λ q. json_float q.2) a.quaternion)
          ∷ ("qz", Option.map (λ q. json_float q.3) a.quaternion)
          ∷ (
            "pose_cov_diag",
            Option.map (λ vs. json_array (items_of (map json_float vs))) a.pose_cov_diag,
          )
          ∷ ("extra", Option.map json_object_of (nonempty a.extra))
          ∷ [])

  unfoldable pub occupancy_map : ℤ → OccupancyMapArgs F → Header F
  occupancy_map now a =
      with_optional
        (("type", json_string "map")
          ∷ ("seq", json_int a.seq)
          ∷ ("encoding", json_string a.encoding)
          ∷ ("width", json_int a.width)
          ∷ ("height", json_int a.height)
          ∷ ("resolution", json_float a.resolution)
          ∷ ("origin", triple a.origin)
          ∷ ("frame", json_string a.frame)
          ∷ ("map_id", json_string a.map_id)
          ∷ ("occupied_min", json_int a.occupied_min)
          ∷ ("free_max", json_int a.free_max)
          ∷ ("unknown", json_int (negsuc 0))
          ∷ ("full", json_bool a.full)
          ∷ ("x0", json_int a.x0)
          ∷ ("y0", json_int a.y0)
          ∷ ("source", json_string a.source)
          ∷ ("t_capture_ns", json_int a.t_capture_ns)
          ∷ ("t_send_ns", json_int now)
          ∷ [])
        (("extra", Option.map json_object_of (nonempty a.extra)) ∷ [])

  unfoldable pub exits : ℤ → ExitsArgs F → Header F
  exits now a =
      with_optional
        (("type", json_string "exits")
          ∷ ("seq", json_int a.seq)
          ∷ ("frame", json_string a.frame)
          ∷ ("map_id", json_string a.map_id)
          ∷ ("candidates", json_array (items_of a.candidates))
          ∷ ("source", json_string a.source)
          ∷ ("t_capture_ns", json_int a.t_capture_ns)
          ∷ ("t_send_ns", json_int now)
          ∷ [])
        (("extra", Option.map json_object_of (nonempty a.extra)) ∷ [])
