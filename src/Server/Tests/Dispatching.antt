-- ===== src/Server/Tests/Dispatching.antt =====
-- A message from the socket to its handler, on the server of the parent's tests.
use robo_cam_stream_processi.Server.Tests.{sensors, sessions, frame_queue, hello}
use robo_cam_stream_processi.Wire.Json.{Json, Header, json_object, json_string, field, no_field}
use robo_cam_stream_processi.Server.Dispatch.{Server, Incoming, stream}
use robo_cam_stream_processi.Server.Streams.{scan}
use robo_cam_stream_processi.Prelude.Dict.{string_eq}
use robo_cam_stream_processi.Prelude.{
  String, ℕ, List, Option, ◌∷◌, Bool, if◌then◌else◌, some, [], true, str_eq, none,
}
use robo_cam_stream_processi.Prelude.Int.{pos}

-- A frame of the socket is a text; the header's is the type, and "?" is no JSON.
abbrev loads : String → Option (Json ℕ)
loads text =
    if str_eq text "?" then none else some (json_object (field "type" (json_string text) no_field))

abbrev no_text : Header ℕ → String
no_text h = ""

abbrev interpret : Header ℕ → String → Option (Incoming sensors ℕ)
interpret header body = some (record { opening = hello; kind = stream (scan (pos 0) 90 (some 4)) })

abbrev server : Server sensors ℕ
server = record { sessions = sessions; queue = frame_queue }

abbrev parts : List String
parts = "orin" ∷ "scan" ∷ "" ∷ []

abbrev same : String → String
same text = text

abbrev always : String → Bool
always text = true
