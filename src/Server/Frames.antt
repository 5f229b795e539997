-- ===== src/Server/Frames.antt =====
-- `_on_frame` and `_send_dropped` of robocam/server.py. What the decoder made of the payload is an
-- argument; the readings and the grid that travel with a frame, and the snapshots, are left out.
use mathlib.Core.Option
use robo_cam_stream_processi.Prelude.Int.{ℤ, pos, ◌+ℤ◌, leb_ℤ, eqb_ℤ}
use robo_cam_stream_processi.Pipeline.FrameQueue.Window.{put-outcome, outcome, outcome-length}
use robo_cam_stream_processi.Pipeline.FrameQueue.{FrameQueue, put, frames}
use robo_cam_stream_processi.Server.Session.{
  Sensors, Config, Session, Attached, Placement, fresh_odom, pose_for_frame, attached, nothing,
  malformed,
}
use robo_cam_stream_processi.Server.Streams.{Reply, frame_stream}
use robo_cam_stream_processi.Prelude.{
  String, List, ℕ, Option, ◌+◌, some, if◌then◌else◌, ◌≤◌, ◌&&◌, ◌∷◌, length, ltb, if_both, not, [],
  map, ◌≡◌, arith, suc, length-map, refl,
}
use robo_cam_stream_processi.Prelude.Dict.{Dict}
use mathlib.Core.Option.{some}
use Option.{none}

pub data Decoded (Image : Type 0) : Type 0 where
  image : Image → Decoded Image
  unsupported_codec undecodable : Decoded Image

module _ (s : Sensors) (Image : Type 0) where
  pub record Frame : Type 0 where
    pub seq : ℤ
    pub session_id : String
    pub picture : Image
    pub placement : Placement s
    pub phase : String
    pub mission : Dict String String

  -- The session, the queue and the replies, each with the id of the session that it is sent to.
  abbrev pub Framed : Type 0
  Framed = Session s × (FrameQueue Frame × List (String × Reply))

  -- The counts at the head of `_on_frame`.
  count_frame : ℤ → ℕ → Session s → Session s
  count_frame seq bytes c = record c {
    frames_received = c.frames_received + 1;
    bytes_received = c.bytes_received + bytes;
    seq_gaps =
        if leb_ℤ (pos 0) c.last_seq && not (eqb_ℤ seq (c.last_seq +ℤ pos 1))
        then c.seq_gaps + 1
        else c.seq_gaps;
    last_seq = seq;
  }

  fail_frame : ℤ → String → Session s → FrameQueue Frame → Framed
  fail_frame seq reason c q = (
    record c { frames_failed = c.frames_failed + 1 },
    (q, (c.session_id, record { stream = frame_stream; seq = seq; reason = reason }) ∷ []),
  )

  -- `_send_dropped`: to the session whose frame came in, whoever sent the one that went.
  unfoldable pub send_dropped : Session s → Frame → String × Reply
  send_dropped c evicted =
      (c.session_id, record { stream = frame_stream; seq = evicted.seq; reason = "dropped" })

  answer_evicted : Session s → FrameQueue Frame × List Frame → Framed
  answer_evicted c (q, evicted) = (
    record c { frames_dropped = c.frames_dropped + length evicted },
    (q, map (send_dropped c) evicted),
  )

  -- `none` is the IndexError of a queue without depth.
  submit_frame : Config → ℕ → ℤ → Attached s → Image → Session s → FrameQueue Frame → Option Framed
  unfolding answer_evicted
  submit_frame cfg now seq given picture c q =
      let (c', placement) = pose_for_frame s cfg given (fresh_odom s cfg now c) c in
      let frame : Frame = record {
        seq = seq;
        session_id = c.session_id;
        picture = picture;
        placement = placement;
        phase = c.phase;
        mission = c.mission;
      } in
      Option.map (answer_evicted c') (put now frame q)

  decoded_frame :
      Config → ℕ → ℤ → Attached s → Decoded Image → Session s → FrameQueue Frame → Option Framed
  unfolding submit_frame fail_frame
  decoded_frame cfg now seq given (image picture) c q = submit_frame cfg now seq given picture c q
  decoded_frame cfg now seq given unsupported_codec c q =
      some (fail_frame seq "unsupported_codec" c q)
  decoded_frame cfg now seq given undecodable c q = some (fail_frame seq "decode_failed" c q)

  unfoldable pub on_frame :
      Config → ℕ → ℤ → ℕ → Attached s → Decoded Image → Session s → FrameQueue Frame → Option Framed
  unfolding decoded_frame count_frame fail_frame
  on_frame cfg now seq bytes given decoded c q =
      if ltb cfg.max_payload_bytes bytes
      then some (fail_frame seq "decode_failed" (count_frame seq bytes c) q)
      else decoded_frame cfg now seq given decoded (count_frame seq bytes c) q

  -- The frame is answered or queued, and so is what was queued.
  unfoldable pub Settled : FrameQueue Frame → Option Framed → Type 0
  Settled q none = ⊥
  Settled q (some (c, (q', replies))) =
      length replies + length (frames q') ≡ suc (length (frames q))

  submit_frame-Settled :
      (cfg : Config) (now : ℕ) (seq : ℤ) (a : Attached s) (picture : Image) (c : Session s)
      (q : FrameQueue Frame)
      → 1 ≤ q.max_depth
      → Settled q (submit_frame cfg now seq a picture c q)
  unfolding submit_frame Settled answer_evicted
  submit_frame-Settled cfg now seq a picture c q deep =
      let (c', placement) = pose_for_frame s cfg a (fresh_odom s cfg now c) c in
      let frame : Frame = record {
        seq = seq;
        session_id = c.session_id;
        picture = picture;
        placement = placement;
        phase = c.phase;
        mission = c.mission;
      } in
      rw (put-outcome now frame q deep) (
        omega
          (arith, outcome-length now frame q, length-map (outcome now frame q).1 (send_dropped c')))

  -- On a queue of depth at least 1, for a frame whose header is read, the handler returns, and one
  -- frame more is answered or queued: the replies it sends and the frames then queued are together
  -- one more than the frames that were queued, whether the payload is too large, does not decode,
  -- or the queue evicts or refuses.
  pub on_frame-Settled :
      (cfg : Config) (now : ℕ) (seq : ℤ) (bytes : ℕ) (a : Attached s) (decoded : Decoded Image)
      (c : Session s) (q : FrameQueue Frame)
      → 1 ≤ q.max_depth
      → Settled q (on_frame cfg now seq bytes a decoded c q)
  unfolding on_frame Settled decoded_frame fail_frame
  on_frame-Settled cfg now seq bytes a (image picture) c q deep =
      if_both (Settled q) (ltb cfg.max_payload_bytes bytes) (omega arith)
        (submit_frame-Settled cfg now seq a picture (count_frame seq bytes c) q deep)
  on_frame-Settled cfg now seq bytes a unsupported_codec c q deep =
      if_both (Settled q) (ltb cfg.max_payload_bytes bytes) (omega arith) (omega arith)
  on_frame-Settled cfg now seq bytes a undecodable c q deep =
      if_both (Settled q) (ltb cfg.max_payload_bytes bytes) (omega arith) (omega arith)

  -- Each reply goes to the session.
  abbrev pub AllTo : String → List (String × Reply) → Type 0
  AllTo id [] = Unit
  AllTo id (r ∷ replies) = (r.0 ≡ id) × AllTo id replies

  -- Nothing is sent to another session.
  unfoldable pub Addressed : String → Option Framed → Type 0
  Addressed id none = Unit
  Addressed id (some (c, (q, replies))) = AllTo id replies

  pose_for_frame-session_id :
      (cfg : Config) (a : Attached s) (stream : Option s.Odom × ℕ) (c : Session s)
      → (pose_for_frame s cfg a stream c).0.session_id ≡ c.session_id
  unfolding pose_for_frame
  pose_for_frame-session_id cfg nothing stream c = ground arith
  pose_for_frame-session_id cfg malformed stream c = ground arith
  pose_for_frame-session_id cfg (attached pose age) stream c = ground arith

  dropped-AllTo :
      (id : String) (c : Session s) (evicted : List Frame)
      → c.session_id ≡ id
      → AllTo id (map (send_dropped c) evicted)
  unfolding send_dropped
  dropped-AllTo id c [] e = tt
  dropped-AllTo id c (f ∷ evicted) e = (e, dropped-AllTo id c evicted e)

  answered-Addressed :
      (id : String) (c : Session s)
      → c.session_id ≡ id
      → (o : Option (FrameQueue Frame × List Frame))
      → Addressed id (Option.map (answer_evicted c) o)
  unfolding Addressed answer_evicted
  answered-Addressed id c e none = tt
  answered-Addressed id c e (some (q, evicted)) = dropped-AllTo id c evicted e

  decoded_frame-Addressed :
      (cfg : Config) (now : ℕ) (seq : ℤ) (a : Attached s) (decoded : Decoded Image) (c : Session s)
      (q : FrameQueue Frame)
      → Addressed c.session_id (decoded_frame cfg now seq a decoded c q)
  unfolding decoded_frame submit_frame fail_frame Addressed
  decoded_frame-Addressed cfg now seq a (image picture) c q =
      let stream = fresh_odom s cfg now c in
      answered-Addressed c.session_id (pose_for_frame s cfg a stream c).0
        (pose_for_frame-session_id cfg a stream c) (put now _ q)
  decoded_frame-Addressed cfg now seq a unsupported_codec c q = (refl, tt)
  decoded_frame-Addressed cfg now seq a undecodable c q = (refl, tt)

  -- Every reply that the handler of a frame sends goes to the session that the frame came from: the
  -- one to the frame itself, and also those to the frames that the queue evicts, whichever session
  -- they came from.
  pub on_frame-Addressed :
      (cfg : Config) (now : ℕ) (seq : ℤ) (bytes : ℕ) (a : Attached s) (decoded : Decoded Image)
      (c : Session s) (q : FrameQueue Frame)
      → Addressed c.session_id (on_frame cfg now seq bytes a decoded c q)
  unfolding on_frame count_frame fail_frame Addressed
  on_frame-Addressed cfg now seq bytes a decoded c q =
      if_both (Addressed c.session_id) (ltb cfg.max_payload_bytes bytes) (refl, tt)
        (decoded_frame-Addressed cfg now seq a decoded (count_frame seq bytes c) q)
