-- ===== src/Server/Sessions.antt =====
-- `_on_hello`, `_create_session`, `_drop_session` and `_reap_sessions` of robocam/server.py: the
-- sessions by identity. A session id is its identity's text.
use robo_cam_stream_processi.Prelude.Dict.{Dict, get, put, remove, string_eq}
use robo_cam_stream_processi.Server.Session.{Sensors, Config, Session}
use robo_cam_stream_processi.Server.Streams.{check_phase}
use robo_cam_stream_processi.Prelude.{
  Option, String, ℕ, [], none, ◌∷◌, Bool, some, if◌then◌else◌, false, str_eq, ◌≡◌, leb, ◌||◌, not,
  true, ltb, ◌==◌, ◌&&◌, ◌+◌, ◌∙◌, refl, Bool-cases, inr, inl, ap, sym, eq_iff,
}
use robo_cam_stream_processi.Prelude.Int.{negsuc}
use mathlib.Core.Bool.{true}

-- What a hello says. `none` for a protocol that is no int or below 0, and for a mission that is unusable.
pub record Hello : Type 0 where
  pub protocol : Option ℕ
  pub client_id : String
  pub run_id : String
  pub codec : String
  pub phase : String
  pub mission : Option (Dict String String)

-- MIN_PROTOCOL_VERSION..PROTOCOL_VERSION
in_range : Option ℕ → Bool
in_range none = false
in_range (some version) = leb 1 version && leb version 2

supported_codec : String → Bool
supported_codec codec = str_eq codec "jpeg" || (str_eq codec "raw_bgr" || str_eq codec "h264")

module _ (s : Sensors) where
  abbrev pub Sessions : Type 0
  Sessions = Dict String (Session s)

  phase_or : String → Option String → String
  phase_or default none = default
  phase_or default (some name) = name

  mission_of : Option (Dict String String) → Dict String String
  mission_of none = []
  mission_of (some mission) = mission

  is_named : Option String → Bool
  is_named none = false
  is_named (some target) = not (str_eq target "")

  -- The config's target, where the mission has none.
  targeted : String → Dict String String → Dict String String
  unfolding is_named
  targeted target mission =
      if not (is_named (get "target" mission)) && not (str_eq target "")
      then put "target" target mission
      else mission

  unfoldable pub new_session : Config → ℕ → String → Hello → Session s
  unfolding phase_or mission_of targeted
  new_session cfg now id hello = record {
    session_id = id;
    client_id = hello.client_id;
    run_id = hello.run_id;
    codec = hello.codec;
    greeted = false;
    last_seen = now;
    frames_received = 0;
    frames_processed = 0;
    frames_dropped = 0;
    frames_failed = 0;
    bytes_received = 0;
    last_seq = negsuc 0;
    seq_gaps = 0;
    scans_received = 0;
    scans_failed = 0;
    last_scan = none;
    last_scan_at = 0;
    imu_bursts_received = 0;
    imu_samples_received = 0;
    imu_failed = 0;
    last_imu = none;
    last_imu_at = 0;
    odom_received = 0;
    odom_failed = 0;
    last_odom = none;
    last_odom_at = 0;
    prev_odom = none;
    frame_poses = 0;
    frame_poses_failed = 0;
    camera_poses_seen = false;
    maps_received = 0;
    maps_failed = 0;
    grid = none;
    grid_at = 0;
    exits = [];
    exits_at = 0;
    exits_received = 0;
    phase = phase_or cfg.mission_phase (check_phase s hello.phase);
    mission = targeted cfg.mission_target (mission_of hello.mission);
    map_update_seq = 0;
    pose_hint_seq = 0;
    found_seq = 0;
    agreement_seq = 0;
    last_map_update = 0;
    last_agreement = 0;
    last_pose_hint = 0;
    map_updates_sent = 0;
    pose_hints_sent = 0;
    founds_sent = 0;
    agreements_sent = 0;
  }

  unfoldable pub create_session : Config → ℕ → String → Hello → Sessions → Session s × Sessions
  create_session cfg now id hello sessions =
      let c = new_session cfg now id hello in (c, put id c (remove id sessions))

  unfoldable pub drop_session : String → Sessions → Sessions
  drop_session id sessions = remove id sessions

  -- The sessions, and whether the welcome accepts.
  unfoldable pub on_hello : Config → ℕ → String → Hello → Sessions → Sessions × Bool
  unfolding in_range supported_codec
  on_hello cfg now id hello sessions =
      let (c, created) = create_session cfg now id hello sessions in
      let sessions' = put id (record c { greeted = true }) created in
      if not (in_range hello.protocol)
      then (drop_session id sessions', false)
      else if not (supported_codec hello.codec)
      then (drop_session id sessions', false)
      else (sessions', true)

  -- `s.idle_s() > timeout`
  idle : ℕ → ℕ → Session s → Bool
  idle timeout now c = ltb (c.last_seen + timeout) now

  drop_idle : ℕ → ℕ → Sessions → Sessions
  unfolding idle
  drop_idle timeout now [] = []
  drop_idle timeout now ((id, c) ∷ sessions) =
      let rest = drop_idle timeout now sessions in
      if idle timeout now c then rest else (id, c) ∷ rest

  unfoldable pub reap_sessions : ℕ → ℕ → Sessions → Sessions
  unfolding drop_idle
  reap_sessions timeout now sessions =
      if timeout == 0 then sessions else drop_idle timeout now sessions

  -- What the sessions hold under the identity is new: greeted, with nothing received.
  pub Greeted : Config → ℕ → String → Hello → Sessions × Bool → Type 0
  Greeted cfg now id hello (sessions, true) =
      (in_range hello.protocol ≡ true)
      × ((supported_codec hello.codec ≡ true)
          × (get id sessions ≡ some (record (new_session cfg now id hello) { greeted = true })))
  Greeted cfg now id hello (sessions, false) = get id sessions ≡ none

  unfoldable pub Unique : Sessions → Type 0
  Unique [] = Unit
  Unique ((id, c) ∷ sessions) = (get id sessions ≡ none) × Unique sessions

  -- What is left of a session: nothing, if it idled for more than the timeout.
  pub live : ℕ → ℕ → Option (Session s) → Option (Session s)
  live timeout now none = none
  live timeout now (some c) = if not (timeout == 0) && idle timeout now c then none else some c

  live_all :
      (timeout now : ℕ) → (timeout == 0) ≡ true → (o : Option (Session s)) → live timeout now o ≡ o
  unfolding live
  live_all timeout now off none = refl
  live_all timeout now off (some c) = simp off refl

  drop_idle-live :
      (timeout now : ℕ)
      → (timeout == 0) ≡ false
      → (sessions : Sessions) → Unique sessions
      → (id : String) → get id (drop_idle timeout now sessions) ≡ live timeout now (get id sessions)
  unfolding drop_idle live get Unique
  drop_idle-live timeout now on [] u id = refl
  drop_idle-live timeout now on ((j, c) ∷ sessions) (fresh, u) id =
      let rest = drop_idle-live timeout now on sessions u id in
      elim (Bool-cases (str_eq j id)) [
        | inl here ↦ elim (Bool-cases (idle timeout now c)) [
          | inl gone ↦
              let bare : get id sessions ≡ none =
                ap (λ i. get i sessions) (sym ((eq_iff j id).0 here)) ∙ fresh in
              simp (here, gone, on) (rest ∙ ap (live timeout now) bare)
          | inr busy ↦ simp (here, busy, on) refl
        ]
        | inr there ↦ elim (Bool-cases (idle timeout now c)) [
          | inl gone ↦ simp (there, gone) rest
          | inr busy ↦ simp (there, busy) rest
        ]
      ]

  -- With one session for an identity, the reaping drops exactly the sessions that have been idle
  -- for more than the timeout and keeps the others as they are; a timeout of 0 drops none.
  pub reap_sessions-live :
      (timeout now : ℕ) (sessions : Sessions)
      → Unique sessions
      → (id : String)
      → get id (reap_sessions timeout now sessions) ≡ live timeout now (get id sessions)
  unfolding reap_sessions live
  reap_sessions-live timeout now sessions u id = elim (Bool-cases (timeout == 0)) [
    | inl off ↦ simp off (sym (live_all timeout now off (get id sessions)))
    | inr on ↦ simp on (drop_idle-live timeout now on sessions u id)
  ]
