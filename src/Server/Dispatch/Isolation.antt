-- ===== src/Server/Dispatch/Isolation.antt =====
-- One client cannot reach another's session through `_on_message` of robocam/server.py.
use robo_cam_stream_processi.Server.Session.{Sensors, Session}
use robo_cam_stream_processi.Server.Sessions.{Sessions}
use robo_cam_stream_processi.Server.Dispatch.{Answer, Server, Outcome, Incoming}
use robo_cam_stream_processi.Prelude.Dict.{get, string_eq}
use mathlib.Core.Option
use robo_cam_stream_processi.Prelude.{String, str_eq, List, ◌≡◌, false, [], none, ◌∷◌, inr, Option}
use mathlib.Core.Option.{some}
use Option.{none}
use robo_cam_stream_processi.Wire.Json.{Header, Json}
use robo_cam_stream_processi.Wire.Decode.{decode}

module _ (s : Sensors) (Image : Type 0) where
  -- The sessions of others are the same.
  abbrev pub OthersSame : String → Sessions s → Sessions s → Type 0
  OthersSame id before after =
      (other : String) → str_eq id other ≡ false → get other after ≡ get other before

  -- All that is sent goes to one peer.
  abbrev pub AllTo : String → List (String × Answer) → Type 0
  AllTo id [] = Unit
  AllTo id ((to, answer) ∷ out) = (to ≡ id) × AllTo id out

  -- The session that is held under an identity bears its name.
  abbrev pub IsNamed : String → Sessions s → Type 0
  IsNamed id sessions = (c : Session s) → get id sessions ≡ some c → c.session_id ≡ id

  -- The handler returned, and did nothing to any other client.
  abbrev pub IsIsolated : String → Server s Image → Outcome s Image → Type 0
  IsIsolated id server none = ⊥
  IsIsolated id server (some (server', out)) =
      OthersSame id server.sessions server'.sessions × AllTo id out

  -- The handler returned so, or it raised, which is accounted for.
  abbrev pub ReturnsOr : Type 0 → String → Server s Image → Outcome s Image → Type 0
  ReturnsOr R id server none = R
  ReturnsOr R id server (some r) = IsIsolated id server (some r)

  module _ {F : Type 0} {Bytes : Type 0} (nothing : Bytes) (dumps : Header F → Bytes)
      (loads : Bytes → Option (Json F)) (identity : Bytes → String)
      (interpret : Header F → Bytes → Option (Incoming s Image)) where
    -- The peer that a message came from; a message of fewer than two parts is ignored.
    abbrev pub sender : List Bytes → String
    sender [] = ""
    sender (who ∷ rest) = identity who

    -- The message decodes, and the conversion of a field of its header raises.
    abbrev pub Raises : List Bytes → Type 0
    Raises [] = ⊥
    Raises (who ∷ []) = ⊥
    Raises (who ∷ first ∷ rest) =
        (header : Header F) × (body : Bytes) × (decode nothing dumps loads (first ∷ rest)
          ≡ inr (header, body))
        × (interpret header body ≡ none)
