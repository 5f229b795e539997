-- ===== src/Server/Results.antt =====
-- `_flush_results`, `_send_result` and `_session_by_id` of robocam/server.py: what the workers
-- finished, on its way to the clients. `now` is the clock at a result; what the header carries
-- beyond its number and how it went, and the running agreement, are left out.
pub mod Named
pub mod Delivered
use robo_cam_stream_processi.Server.Session.{Sensors, Config, Session}
use robo_cam_stream_processi.Server.Sessions.{Sessions, drop_session}
use robo_cam_stream_processi.Server.Announce.{
  Announced, Announcement, Told, announce_one, send_announcements, held_back, tell, map_update,
  pose_hint, agreement, found, unknown,
}
use robo_cam_stream_processi.Prelude.Int.{ℤ}
use robo_cam_stream_processi.Prelude.{
  String, List, ℕ, [], none, ◌∷◌, Bool, Option, ◌≡◌, Bool-cases, if◌then◌else◌, some, ◌++◌, str_eq,
  ◌∙◌, ◌+◌, inl, if_both, sym, inr, ap, refl, eq_iff, true, false, some_inj, subst,
}
use robo_cam_stream_processi.Prelude.Dict.{
  get, put, remove, string_eq, get-put, get-put_ne, get-remove_ne,
}
use robo_cam_stream_processi.Config.Load.{is_some}

-- What of a result is read here.
pub record Verdict : Type 0 where
  pub seq : ℤ
  pub ok : Bool
  pub reason : String

pub data ToClient (Body : Type 0) : Type 0 where
  announced : Told Body → ToClient Body
  result : Verdict → ToClient Body

pub record Finished (Body : Type 0) : Type 0 where
  pub session_id : String
  pub verdict : Verdict
  pub announcements : List (Announcement Body)

-- The announcements, then the result.
unfoldable pub told_first :
    {Body : Type 0} → String → Verdict → List (Told Body) → List (String × ToClient Body)
told_first id v [] = (id, result v) ∷ []
told_first id v (t ∷ out) = (id, announced t) ∷ told_first id v out

module _ (s : Sensors) where
  open s use {Body}

  -- The session's identity with it.
  unfoldable pub session_by_id : String → Sessions s → Option (String × Session s)
  session_by_id id [] = none
  session_by_id id ((identity, c) ∷ sessions) =
      if str_eq c.session_id id then some (identity, c) else session_by_id id sessions

  abbrev pub Flushed : Type 0
  Flushed = Sessions s × List (String × ToClient Body)

  -- `_send` drops a peer that it cannot reach; a result is always sent, so it is dropped then.
  unfoldable pub send_to :
      Config
      → ℕ
      → (String → Bool)
      → Finished Body
      → Sessions s
      → Option (String × Session s)
      → Flushed
  send_to cfg now reachable item sessions none = (sessions, [])
  send_to cfg now reachable item sessions (some (id, c)) =
      let (c', out) =
        send_announcements s cfg now item.announcements
          (record c { frames_processed = c.frames_processed + 1 }) in
      let updated = put id c' sessions in
      (if reachable id then updated else drop_session s id updated, told_first id item.verdict out)

  unfoldable pub send_result : Config → ℕ → (String → Bool) → Finished Body → Sessions s → Flushed
  send_result cfg now reachable item sessions =
      send_to cfg now reachable item sessions (session_by_id item.session_id sessions)

  unfoldable pub flush_results :
      Config → (String → Bool) → List (ℕ × Finished Body) → Sessions s → Flushed
  flush_results cfg reachable [] sessions = (sessions, [])
  flush_results cfg reachable ((now, item) ∷ items) sessions =
      let (sessions', out) = send_result cfg now reachable item sessions in
      let (sessions'', out') = flush_results cfg reachable items sessions' in
      (sessions'', out ++ out')
