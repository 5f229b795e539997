-- ===== src/Server/Results/Named.antt =====
-- `_session_by_id` of robocam/server.py, where each session bears the name of its client's entry.
use robo_cam_stream_processi.Server.Session.{Sensors, Config, Session}
use robo_cam_stream_processi.Server.Sessions.{Sessions}
use robo_cam_stream_processi.Server.Announce.{
  Announced, Announcement, announce_one, send_announcements, held_back, tell, map_update, pose_hint,
  agreement, found, unknown,
}
use robo_cam_stream_processi.Prelude.{
  String, List, ℕ, [], none, ◌∷◌, Option, ◌≡◌, Bool-cases, some, str_eq, ◌∙◌, inl, if_both, sym,
  inr, ap, refl, eq_iff, some_inj, Bool, false, true,
}
use robo_cam_stream_processi.Prelude.Dict.{get, put, remove, string_eq}
use robo_cam_stream_processi.Server.Results.{session_by_id}

module _ (s : Sensors) where
  open s use {Body}

  -- A session bears the name that it is found under.
  unfoldable pub AllNamed : Sessions s → Type 0
  AllNamed [] = Unit
  AllNamed ((id, c) ∷ sessions) = (c.session_id ≡ id) × AllNamed sessions

  pub put-AllNamed :
      (id : String) (c : Session s) (sessions : Sessions s)
      → c.session_id ≡ id
      → AllNamed sessions
      → AllNamed (put id c sessions)
  unfolding AllNamed put
  put-AllNamed id c [] named all = (named, tt)
  put-AllNamed id c ((j, d) ∷ sessions) named (here, rest) = elim (Bool-cases (str_eq j id)) [
    | inl same ↦ rw same (named ∙ sym ((eq_iff j id).0 same), rest)
    | inr other ↦ rw other (here, put-AllNamed id c sessions named rest)
  ]

  pub remove-AllNamed :
      (id : String) (sessions : Sessions s) → AllNamed sessions → AllNamed (remove id sessions)
  unfolding AllNamed remove
  remove-AllNamed id [] all = tt
  remove-AllNamed id ((j, d) ∷ sessions) (here, rest) = elim (Bool-cases (str_eq j id)) [
    | inl same ↦ rw same (remove-AllNamed id sessions rest)
    | inr other ↦ rw other (here, remove-AllNamed id sessions rest)
  ]

  unfoldable pub found_by : String → Option (Session s) → Option (String × Session s)
  found_by id none = none
  found_by id (some c) = some (id, c)

  pub session_by_id-get :
      (id : String) (sessions : Sessions s)
      → AllNamed sessions
      → session_by_id s id sessions ≡ found_by id (get id sessions)
  unfolding AllNamed session_by_id found_by get
  session_by_id-get id [] all = refl
  session_by_id-get id ((j, d) ∷ sessions) (here, rest) = elim (Bool-cases (str_eq j id)) [
    | inl same ↦
        let named = ap (λ k. str_eq k id) here ∙ same in
        rw (named, same) (ap (λ k. some (k, d)) ((eq_iff j id).0 same))
    | inr other ↦
        let named = ap (λ k. str_eq k id) here ∙ other in
        rw (named, other) (session_by_id-get id sessions rest)
  ]

  pub get-AllNamed :
      (id : String) (sessions : Sessions s) (c : Session s)
      → get id sessions ≡ some c
      → AllNamed sessions
      → c.session_id ≡ id
  unfolding AllNamed get
  get-AllNamed id [] c e all = absurd cc
  get-AllNamed id ((j, d) ∷ sessions) c e (here, rest) = elim (Bool-cases (str_eq j id)) [
    | inl same ↦
        let found : some d ≡ some c = rw (sym e, same) refl in
        ap (λ (k : Session s). k.session_id) (sym (some_inj found)) ∙ (here ∙ (eq_iff j id).0 same)
    | inr other ↦ get-AllNamed id sessions c (rw (sym e, other) refl) rest
  ]

  pub tell-session_id :
      (now : ℕ) (a : Announcement Body) (c : Session s)
      → (tell s now a c).0.session_id ≡ c.session_id
  unfolding tell
  tell-session_id now (map_update id cells body) c = refl
  tell-session_id now (pose_hint id body) c = refl
  tell-session_id now (agreement id body) c = refl
  tell-session_id now (found body) c = refl
  tell-session_id now unknown c = refl

  pub send_announcements-session_id :
      (cfg : Config) (now : ℕ) (news : List (Announcement Body)) (c : Session s)
      → (send_announcements s cfg now news c).0.session_id ≡ c.session_id
  unfolding send_announcements announce_one
  send_announcements-session_id cfg now [] c = refl
  send_announcements-session_id cfg now (a ∷ rest) c =
      send_announcements-session_id cfg now rest (announce_one s cfg now a c).0
      ∙ if_both (λ (r : Announced s). r.0.session_id ≡ c.session_id) (held_back s cfg now a c) refl
          (tell-session_id now a c)

  unfoldable pub has_session : Option (Session s) → Bool
  has_session none = false
  has_session (some c) = true
