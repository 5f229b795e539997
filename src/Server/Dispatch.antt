-- ===== src/Server/Dispatch.antt =====
-- `_on_message` of robocam/server.py: from the parts that the socket gave to the handler, and
-- `_send`, whose failure drops the session of the peer. What the handlers' decoders read in a
-- header and a payload is a parameter.
pub mod Isolation
use robo_cam_stream_processi.Wire.Json.{Json, Header}
use robo_cam_stream_processi.Wire.Decode.{ProtocolError, decode}
use robo_cam_stream_processi.Server.Session.{Sensors, Config, Session, Attached, touch}
use robo_cam_stream_processi.Server.Streams.{Message, Reply, on_stream, on_phase, Answered}
use robo_cam_stream_processi.Server.Frames.{Decoded, Frame, Framed, on_frame}
use robo_cam_stream_processi.Server.Maps.{on_map}
use robo_cam_stream_processi.Server.Sessions.{
  Hello, Sessions, on_hello, create_session, drop_session,
}
use robo_cam_stream_processi.Pipeline.FrameQueue.{FrameQueue}
use robo_cam_stream_processi.Occupancy.Decode.{MapError}
use robo_cam_stream_processi.Occupancy.Grid.{Grid}
use robo_cam_stream_processi.Prelude.Dict.{Dict, get, put, string_eq}
use mathlib.Core.Option
use robo_cam_stream_processi.Prelude.{
  Bool, Option, String, List, ℕ, ◌⊎◌, some, ◌∷◌, [], none, if◌then◌else◌, inl, inr,
}
use robo_cam_stream_processi.Prelude.Int.{ℤ}
use mathlib.Core.Option.{some}

-- What the server says to one message.
pub data Answer : Type 0 where
  welcome : Bool → Answer
  reply : Reply → Answer
  phase_is : String → Bool → Answer
  pong : ℤ → Answer
  error : Answer

module _ (s : Sensors) (Image : Type 0) where
  -- `msg_type`, with what its handler reads.
  pub data Kind : Type 0 where
    hello : Kind
    frame : ℤ → ℕ → Attached s → Decoded Image → Kind
    stream : Message s → Kind
    grid : ℤ → ℕ → MapError ⊎ Grid s.Float → Kind
    phase : String → Option (Dict String String) → Kind
    ping : ℤ → Kind
    bye : Kind
    unknown : Kind

  -- The part of a header that a new session is made of, and the rest.
  pub record Incoming : Type 0 where
    pub opening : Hello
    pub kind : Kind

  pub record Server : Type 0 where
    pub sessions : Sessions s
    pub queue : FrameQueue (Frame s Image)

  -- The server, and what it sends to whom; `none` is an exception.
  abbrev pub Outcome : Type 0
  Outcome = Option (Server × List (String × Answer))

  -- The handler changed the session in place.
  abbrev pub keep : String → Session s → List (String × Answer) → Server → Outcome
  keep id c out server = some (record server { sessions = put id c server.sessions }, out)

  abbrev pub to_all : String → List Reply → List (String × Answer)
  to_all id [] = []
  to_all id (r ∷ rs) = (id, reply r) ∷ to_all id rs

  abbrev pub addressed : List (String × Reply) → List (String × Answer)
  addressed [] = []
  addressed ((id, r) ∷ rs) = (id, reply r) ∷ addressed rs

  abbrev pub keep_framed : String → Server → Framed s Image → Server × List (String × Answer)
  keep_framed id server (c, (queue, replies)) =
      (record { sessions = put id c server.sessions; queue = queue }, addressed replies)

  -- The chain of `msg_type == ...` behind the hello.
  unfoldable pub handle : Config → ℕ → String → Kind → Session s → Server → Outcome
  handle cfg now id hello c server = keep id c [] server
  handle cfg now id (frame seq bytes given decoded) c server =
      Option.map (keep_framed id server)
        (on_frame s Image cfg now seq bytes given decoded c server.queue)
  handle cfg now id (stream message) c server =
      let (c', replies) = on_stream s cfg now message c in keep id c' (to_all id replies) server
  handle cfg now id (grid seq bytes decoded) c server =
      let (c', replies) = on_map s cfg now seq bytes decoded c in
      keep id c' (to_all id replies) server
  handle cfg now id (phase name mission) c server =
      let (c', accepted) = on_phase s name mission c in
      keep id c' ((id, phase_is c'.phase accepted) ∷ []) server
  handle cfg now id (ping nonce) c server = keep id c ((id, pong nonce) ∷ []) server
  handle cfg now id bye c server =
      some (record server { sessions = drop_session s id server.sessions }, [])
  handle cfg now id unknown c server = keep id c ((id, error) ∷ []) server

  -- `if session is None`: a session for a client that never said hello.
  unfoldable pub or_created :
      Config → ℕ → String → Hello → Sessions s → Option (Session s) → Session s × Sessions s
  or_created cfg now id opening sessions none = create_session s cfg now id opening sessions
  or_created cfg now id opening sessions (some c) = (c, sessions)

  -- `self.sessions.get(identity)`
  unfoldable pub session_for : Config → ℕ → String → Hello → Sessions s → Session s × Sessions s
  session_for cfg now id opening sessions = or_created cfg now id opening sessions (get id sessions)

  unfoldable pub on_decoded : Config → ℕ → String → Hello → Kind → Server → Outcome
  on_decoded cfg now id opening hello server =
      let (sessions, accepted) = on_hello s cfg now id opening server.sessions in
      some (record server { sessions = sessions }, (id, welcome accepted) ∷ [])
  on_decoded cfg now id opening kind server =
      let (c, sessions) = session_for cfg now id opening server.sessions in
      handle cfg now id kind (touch s now c) (record server { sessions = sessions })

  -- A peer that cannot be reached is dropped.
  unfoldable pub settle : (String → Bool) → List (String × Answer) → Sessions s → Sessions s
  settle reachable [] sessions = sessions
  settle reachable ((id, answer) ∷ out) sessions =
      settle reachable out (if reachable id then sessions else drop_session s id sessions)

  abbrev pub settled :
      (String → Bool) → Server × List (String × Answer) → Server × List (String × Answer)
  settled reachable (server, out) =
      (record server { sessions = settle reachable out server.sessions }, out)

  module _ {F : Type 0} {Bytes : Type 0} (nothing : Bytes) (dumps : Header F → Bytes)
      (loads : Bytes → Option (Json F)) (identity : Bytes → String)
      (interpret : Header F → Bytes → Option Incoming) where
    -- `none` is a ValueError or TypeError of `int(...)` or `float(...)` on a field of the header,
    -- which nothing catches.
    unfoldable pub on_header : Config → ℕ → String → Option Incoming → Server → Outcome
    on_header cfg now id none server = none
    on_header cfg now id (some incoming) server =
        on_decoded cfg now id incoming.opening incoming.kind server

    unfoldable pub on_payload :
        Config → ℕ → String → ProtocolError ⊎ (Header F × Bytes) → Server → Outcome
    on_payload cfg now id (inl e) server = some (server, (id, error) ∷ [])
    on_payload cfg now id (inr (header, payload)) server =
        on_header cfg now id (interpret header payload) server

    unfoldable pub on_message : Config → ℕ → (String → Bool) → List Bytes → Server → Outcome
    on_message cfg now reachable [] server = some (server, [])
    on_message cfg now reachable (who ∷ []) server = some (server, [])
    on_message cfg now reachable (who ∷ first ∷ rest) server =
        Option.map (settled reachable)
          (on_payload cfg now (identity who) (decode nothing dumps loads (first ∷ rest)) server)
