-- ===== src/Server/Streams.antt =====
-- `_on_scan`, `_on_imu`, `_on_odom` and `_on_exits` of robocam/server.py: each parses, stores and
-- answers on the IO thread. What the decoder made of the message is an argument, `none` where it
-- raised; the measurements in a reply's `data` are left out.
use robo_cam_stream_processi.Prelude.Int.{ℤ}
use robo_cam_stream_processi.Server.Session.{Sensors, Config, Session}
use robo_cam_stream_processi.Prelude.{
  String, Bool, List, ℕ, Option, str_eq, ◌+◌, if◌then◌else◌, ◌∷◌, [], none, map, some, not, ◌||◌,
  false, ◌++◌, ◌≡◌, true, arith, map-append, refl, ◌∙◌, ap₂,
}
use robo_cam_stream_processi.Prelude.Dict.{Dict, update, nat_eq, string_eq}

pub data Stream : Type 0 where
  frame_stream scan_stream imu_stream odom_stream map_stream exits_stream : Stream

-- One of the protocol's answers: which stream, which message of it, and how it went.
pub record Reply : Type 0 where
  pub stream : Stream
  pub seq : ℤ
  pub reason : String

abbrev pub reason_ok : String
reason_ok = "ok"

abbrev pub ok : Reply → Bool
ok r = str_eq r.reason reason_ok

-- What a reply is about: a stream and a number of it.
abbrev pub about : Reply → Stream × ℤ
about r = (r.stream, r.seq)

module _ (s : Sensors) where
  open s use {Scan, Batch, Odom, Exit, samples}

  abbrev pub Answered : Type 0
  Answered = Session s × List Reply

  accept_scan : ℕ → ℤ → Option Scan → Session s → Answered
  accept_scan now seq none c = (
    record c { scans_failed = c.scans_failed + 1 },
    record { stream = scan_stream; seq = seq; reason = "bad_scan" } ∷ [],
  )
  accept_scan now seq (some scan) c = (
    record c { last_scan = some scan; last_scan_at = now },
    record { stream = scan_stream; seq = seq; reason = reason_ok } ∷ [],
  )

  unfoldable pub on_scan : Config → ℕ → ℤ → ℕ → Option Scan → Session s → Answered
  unfolding accept_scan
  on_scan cfg now seq bytes scan c =
      if not cfg.lidar_enabled
      then (c, record { stream = scan_stream; seq = seq; reason = "lidar_disabled" } ∷ [])
      else accept_scan now seq scan (record c {
        scans_received = c.scans_received + 1;
        bytes_received = c.bytes_received + bytes;
      })

  accept_imu : ℕ → ℤ → Option Batch → Session s → Answered
  accept_imu now seq none c = (
    record c { imu_failed = c.imu_failed + 1 },
    record { stream = imu_stream; seq = seq; reason = "bad_imu" } ∷ [],
  )
  accept_imu now seq (some batch) c = (
    record c {
      imu_samples_received = c.imu_samples_received + samples batch;
      last_imu = some batch;
      last_imu_at = now;
    },
    record { stream = imu_stream; seq = seq; reason = reason_ok } ∷ [],
  )

  unfoldable pub on_imu : Config → ℕ → ℤ → ℕ → Option Batch → Session s → Answered
  unfolding accept_imu
  on_imu cfg now seq bytes batch c =
      if not cfg.imu_enabled
      then (c, record { stream = imu_stream; seq = seq; reason = "imu_disabled" } ∷ [])
      else accept_imu now seq batch (record c {
        imu_bursts_received = c.imu_bursts_received + 1;
        bytes_received = c.bytes_received + bytes;
      })

  accept_odom : ℕ → ℤ → Option Odom → Session s → Answered
  accept_odom now seq none c = (
    record c { odom_failed = c.odom_failed + 1 },
    record { stream = odom_stream; seq = seq; reason = "bad_odom" } ∷ [],
  )
  accept_odom now seq (some pose) c = (
    record c { prev_odom = c.last_odom; last_odom = some pose; last_odom_at = now },
    record { stream = odom_stream; seq = seq; reason = reason_ok } ∷ [],
  )

  unfoldable pub on_odom : Config → ℕ → ℤ → Option Odom → Session s → Answered
  unfolding accept_odom
  on_odom cfg now seq pose c =
      if not cfg.odom_enabled
      then (c, record { stream = odom_stream; seq = seq; reason = "odom_disabled" } ∷ [])
      else accept_odom now seq pose (record c { odom_received = c.odom_received + 1 })

  -- The ranking in the reply of a server that ranks is left out.
  unfoldable pub on_exits : Config → ℕ → ℤ → Option (List Exit) → Session s → Answered
  on_exits cfg now seq none c =
      (c, record { stream = exits_stream; seq = seq; reason = "bad_exits" } ∷ [])
  on_exits cfg now seq (some candidates) c = (
    record c { exits = candidates; exits_at = now; exits_received = c.exits_received + 1 },
    record { stream = exits_stream; seq = seq; reason = reason_ok } ∷ [],
  )

  abbrev pub phase_explore : String
  phase_explore = "t1"

  abbrev pub phase_seek : String
  phase_seek = "t2"

  -- `check_phase` of robocam/mission.py
  unfoldable pub check_phase : String → Option String
  check_phase name = if str_eq name phase_explore || str_eq name phase_seek then some name else none

  updated : Option (Dict String String) → Dict String String → Dict String String
  updated none mission = mission
  updated (some given) mission = update mission given

  change_phase : Option String → Option (Dict String String) → Session s → Session s × Bool
  unfolding updated
  change_phase none mission c = (c, false)
  change_phase (some name) mission c =
      (record c { phase = name; mission = updated mission c.mission }, true)

  -- `_on_phase`: the session and `accepted`; the mission is `none` where the message has none that
  -- is usable.
  unfoldable pub on_phase : String → Option (Dict String String) → Session s → Session s × Bool
  unfolding change_phase
  on_phase name mission c = change_phase (check_phase name) mission c

  -- A message of a stream with what its decoder made of it.
  pub data Message : Type 0 where
    scan : ℤ → ℕ → Option Scan → Message
    imu : ℤ → ℕ → Option Batch → Message
    odom : ℤ → Option Odom → Message
    exits : ℤ → Option (List Exit) → Message

  unfoldable pub on_stream : Config → ℕ → Message → Session s → Answered
  on_stream cfg now (scan seq bytes reading) c = on_scan cfg now seq bytes reading c
  on_stream cfg now (imu seq bytes batch) c = on_imu cfg now seq bytes batch c
  on_stream cfg now (odom seq pose) c = on_odom cfg now seq pose c
  on_stream cfg now (exits seq candidates) c = on_exits cfg now seq candidates c

  -- The stream and the number of a message.
  pub asked : Message → Stream × ℤ
  asked (scan seq bytes reading) = (scan_stream, seq)
  asked (imu seq bytes batch) = (imu_stream, seq)
  asked (odom seq pose) = (odom_stream, seq)
  asked (exits seq candidates) = (exits_stream, seq)

  -- A run of messages, each at its time.
  unfoldable pub serve : Config → List (ℕ × Message) → Session s → Answered
  serve cfg [] c = (c, [])
  serve cfg ((now, m) ∷ ms) c =
      let (c', replies) = on_stream cfg now m c in
      let (c'', replies') = serve cfg ms c' in (c'', replies ++ replies')

  on_stream-asked :
      (cfg : Config) (now : ℕ) (m : Message) (c : Session s)
      → map about (on_stream cfg now m c).1 ≡ asked m ∷ []
  unfolding on_stream on_scan on_imu on_odom on_exits asked
  on_stream-asked cfg now (scan seq bytes none) c = ground arith
  on_stream-asked cfg now (scan seq bytes (some r)) c = ground arith
  on_stream-asked cfg now (imu seq bytes none) c = ground arith
  on_stream-asked cfg now (imu seq bytes (some r)) c = ground arith
  on_stream-asked cfg now (odom seq none) c = ground arith
  on_stream-asked cfg now (odom seq (some r)) c = ground arith
  on_stream-asked cfg now (exits seq none) c = refl
  on_stream-asked cfg now (exits seq (some r)) c = refl

  -- Every scan, burst, pose and list of exits whose number is read gets exactly one reply, of its
  -- own stream and with its own number, and the replies come in the order of the messages: whether
  -- the stream is disabled, the message does not decode or all is well.
  pub serve-asked :
      (cfg : Config) (ms : List (ℕ × Message)) (c : Session s)
      → map about (serve cfg ms c).1 ≡ map (λ m. asked m.1) ms
  unfolding serve
  serve-asked cfg [] c = refl
  serve-asked cfg ((now, m) ∷ ms) c =
      map-append about (on_stream cfg now m c).1 (serve cfg ms (on_stream cfg now m c).0).1
      ∙ ap₂ ◌++◌ (on_stream-asked cfg now m c) (serve-asked cfg ms (on_stream cfg now m c).0)
