-- ===== src/Wire/Session.antt =====
-- The header constructors of robocam/wire.py: a session's opening and closing, its phases and its frames. `now` is what
-- `monotonic_ns()` reads, and `round` on floats is a parameter.
use robo_cam_stream_processi.Wire.Json.{
  Header, with_optional, json_string, json_int, json_object_of, json_float, json_bool, nonempty,
  object_or_empty,
}
use robo_cam_stream_processi.Prelude.Dict.{string_eq}
use mathlib.Core.Option
use robo_cam_stream_processi.Prelude.{String, Option, Bool, ◌∷◌, []}
use robo_cam_stream_processi.Prelude.Int.{ℤ, pos}

pub record HelloArgs (F : Type 0) : Type 0 where
  pub client_id : String
  pub run_id : String
  pub codec : String
  pub width : ℤ
  pub height : ℤ
  pub fps : F
  pub camera : String
  pub lidar : Option (Header F)
  pub imu : Option (Header F)
  pub odom : Option (Header F)
  pub map_info : Option (Header F)
  pub phase : String
  pub mission : Option (Header F)
  pub extra : Option (Header F)

pub record WelcomeArgs (F : Type 0) : Type 0 where
  pub session_id : String
  pub processor : String
  pub accepted : Bool
  pub message : String
  pub server_info : Option (Header F)
  pub echo_t_send_ns : Option ℤ

pub record FrameArgs (F : Type 0) : Type 0 where
  pub seq : ℤ
  pub codec : String
  pub width : ℤ
  pub height : ℤ
  pub t_capture_ns : ℤ
  pub channels : ℤ
  pub extra : Option (Header F)
  pub pose : Option (Header F)

pub record PhaseArgs (F : Type 0) : Type 0 where
  pub name : String
  pub reason : String
  pub mission : Option (Header F)
  pub accepted : Option Bool
  pub seq : Option ℤ

pub record PingArgs (F : Type 0) : Type 0 where
  pub nonce : ℤ

pub record PongArgs (F : Type 0) : Type 0 where
  pub nonce : ℤ
  pub echo_t_send_ns : Option ℤ

pub record ByeArgs (F : Type 0) : Type 0 where
  pub reason : String

pub record ErrorArgs (F : Type 0) : Type 0 where
  pub message : String
  pub seq : Option ℤ

module _ {F : Type 0} where
  unfoldable pub hello : ℤ → HelloArgs F → Header F
  hello now a =
      with_optional
        (("type", json_string "hello")
          ∷ ("protocol", json_int (pos 2))
          ∷ ("client_id", json_string a.client_id)
          ∷ ("run_id", json_string a.run_id)
          ∷ ("codec", json_string a.codec)
          ∷ ("width", json_int a.width)
          ∷ ("height", json_int a.height)
          ∷ ("fps", json_float a.fps)
          ∷ ("camera", json_string a.camera)
          ∷ ("lidar", object_or_empty a.lidar)
          ∷ ("imu", object_or_empty a.imu)
          ∷ ("odom", object_or_empty a.odom)
          ∷ ("map", object_or_empty a.map_info)
          ∷ ("phase", json_string a.phase)
          ∷ ("mission", object_or_empty a.mission)
          ∷ ("t_send_ns", json_int now)
          ∷ [])
        (("extra", Option.map json_object_of (nonempty a.extra)) ∷ [])

  unfoldable pub welcome : WelcomeArgs F → Header F
  welcome a =
      with_optional
        (("type", json_string "welcome")
          ∷ ("protocol", json_int (pos 2))
          ∷ ("session_id", json_string a.session_id)
          ∷ ("processor", json_string a.processor)
          ∷ ("accepted", json_bool a.accepted)
          ∷ ("message", json_string a.message)
          ∷ ("server", object_or_empty a.server_info)
          ∷ [])
        (("t_send_ns", Option.map json_int a.echo_t_send_ns) ∷ [])

  unfoldable pub frame : ℤ → FrameArgs F → Header F
  frame now a =
      with_optional
        (("type", json_string "frame")
          ∷ ("seq", json_int a.seq)
          ∷ ("codec", json_string a.codec)
          ∷ ("width", json_int a.width)
          ∷ ("height", json_int a.height)
          ∷ ("channels", json_int a.channels)
          ∷ ("t_capture_ns", json_int a.t_capture_ns)
          ∷ ("t_send_ns", json_int now)
          ∷ [])
        (("extra", Option.map json_object_of (nonempty a.extra))
          ∷ ("pose", Option.map json_object_of a.pose)
          ∷ [])

  unfoldable pub phase : ℤ → PhaseArgs F → Header F
  phase now a =
      with_optional
        (("type", json_string "phase")
          ∷ ("phase", json_string a.name)
          ∷ ("reason", json_string a.reason)
          ∷ ("t_send_ns", json_int now)
          ∷ [])
        (("mission", Option.map json_object_of a.mission)
          ∷ ("accepted", Option.map json_bool a.accepted)
          ∷ ("seq", Option.map json_int a.seq)
          ∷ [])

  unfoldable pub ping : ℤ → PingArgs F → Header F
  ping now a =
      ("type", json_string "ping") ∷ ("nonce", json_int a.nonce) ∷ ("t_send_ns", json_int now) ∷ []

  unfoldable pub pong : PongArgs F → Header F
  pong a =
      with_optional (("type", json_string "pong") ∷ ("nonce", json_int a.nonce) ∷ [])
        (("t_send_ns", Option.map json_int a.echo_t_send_ns) ∷ [])

  unfoldable pub bye : ByeArgs F → Header F
  bye a = ("type", json_string "bye") ∷ ("reason", json_string a.reason) ∷ []

  unfoldable pub error : ErrorArgs F → Header F
  error a =
      with_optional (("type", json_string "error") ∷ ("message", json_string a.message) ∷ [])
        (("seq", Option.map json_int a.seq) ∷ [])
