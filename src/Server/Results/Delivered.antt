-- ===== src/Server/Results/Delivered.antt =====
-- `_flush_results` of robocam/server.py: what a client is sent of what the workers finished.
use robo_cam_stream_processi.Server.Session.{Sensors, Config, Session}
use robo_cam_stream_processi.Server.Sessions.{Sessions, drop_session}
use robo_cam_stream_processi.Server.Announce.{Told, send_announcements}
use robo_cam_stream_processi.Prelude.{
  String, List, ℕ, [], none, ◌∷◌, Bool, Option, ◌≡◌, Bool-cases, if◌then◌else◌, some, ◌++◌, str_eq,
  ◌∙◌, ◌+◌, inl, inr, ap, refl, eq_iff, true, false, subst,
}
use robo_cam_stream_processi.Prelude.Dict.{get, put, string_eq, get-put, get-put_ne, get-remove_ne}
use robo_cam_stream_processi.Server.Results.{
  Verdict, ToClient, Finished, told_first, send_to, send_result, flush_results, announced, result,
}
use robo_cam_stream_processi.Server.Results.Named.{
  has_session, AllNamed, put-AllNamed, remove-AllNamed, found_by, session_by_id-get, get-AllNamed,
  send_announcements-session_id,
}

-- The results that a client is sent, and those that are finished for it.
unfoldable pub results_to : {Body : Type 0} → String → List (String × ToClient Body) → List Verdict
results_to id [] = []
results_to id ((to, announced t) ∷ out) = results_to id out
results_to id ((to, result v) ∷ out) =
    let rest = results_to id out in if str_eq to id then v ∷ rest else rest

pub finished_for : {Body : Type 0} → String → List (ℕ × Finished Body) → List Verdict
finished_for id [] = []
finished_for id ((now, item) ∷ items) =
    let rest = finished_for id items in
    if str_eq item.session_id id then item.verdict ∷ rest else rest

results_to-told_first :
    {Body : Type 0} (id to : String) (v : Verdict) (out : List (Told Body))
    (more : List (String × ToClient Body))
    → results_to id (told_first to v out ++ more)
      ≡ (if str_eq to id then v ∷ results_to id more else results_to id more)
unfolding results_to told_first
results_to-told_first id to v [] more = refl
results_to-told_first id to v (t ∷ out) more = results_to-told_first id to v out more

module _ (s : Sensors) (cfg : Config) (reachable : String → Bool) (id : String)
    (near : reachable id ≡ true) where
  open s use {Body}

  abbrev Here : Sessions s → Type 0
  Here sessions = (has_session s (get id sessions) ≡ true) × AllNamed s sessions

  other_than : (to : String) → reachable to ≡ false → str_eq to id ≡ false
  other_than to away = elim (Bool-cases (str_eq to id)) [
    | inl same ↦
        let equal : reachable to ≡ reachable id = ap reachable ((eq_iff to id).0 same) in absurd cc
    | inr other ↦ other
  ]

  put-has_session :
      (to : String) (c : Session s) (sessions : Sessions s)
      → has_session s (get id sessions) ≡ true
      → has_session s (get id (put to c sessions)) ≡ true
  unfolding has_session
  put-has_session to c sessions open' = elim (Bool-cases (str_eq to id)) [
    | inl same ↦ rw ((eq_iff to id).0 same, get-put id c sessions) refl
    | inr other ↦ rw (get-put_ne id to c sessions other) open'
  ]

  send_to-Here :
      (now : ℕ) (item : Finished Body) (sessions : Sessions s) (found : Option (Session s))
      → get item.session_id sessions ≡ found
      → Here sessions
      → Here (send_to s cfg now reachable item sessions (found_by s item.session_id found)).0
  unfolding send_to found_by drop_session
  send_to-Here now item sessions none e here = here
  send_to-Here now item sessions (some c) e here =
      let c' =
        (send_announcements s cfg now item.announcements
          (record c { frames_processed = c.frames_processed + 1 })).0 in
      let named =
        send_announcements-session_id s cfg now item.announcements
          (record c { frames_processed = c.frames_processed + 1 })
        ∙ get-AllNamed s item.session_id sessions c e here.1 in
      let updated = put item.session_id c' sessions in
      let opened = put-has_session item.session_id c' sessions here.0 in
      let all = put-AllNamed s item.session_id c' sessions named here.1 in
      elim (Bool-cases (reachable item.session_id)) [
        | inl seen ↦ rw seen (opened, all)
        | inr away ↦
            let left =
              ap (has_session s)
                (get-remove_ne id item.session_id updated (other_than item.session_id away))
              ∙ opened in
            rw away (left, remove-AllNamed s item.session_id updated all)
      ]

  send_result-Here :
      (now : ℕ) (item : Finished Body) (sessions : Sessions s)
      → Here sessions
      → Here (send_result s cfg now reachable item sessions).0
  unfolding send_result
  send_result-Here now item sessions here =
      rw (session_by_id-get s item.session_id sessions here.1)
        (send_to-Here now item sessions (get item.session_id sessions) refl here)

  send_to-results :
      (now : ℕ) (item : Finished Body) (sessions : Sessions s) (found : Option (Session s))
      → get item.session_id sessions ≡ found
      → (more : List (String × ToClient Body)) → Here sessions
      → results_to id
          ((send_to s cfg now reachable item sessions (found_by s item.session_id found)).1 ++ more)
        ≡ (if str_eq item.session_id id
            then item.verdict ∷ results_to id more
            else results_to id more)
  unfolding send_to found_by has_session
  send_to-results now item sessions none e more here =
      elim (Bool-cases (str_eq item.session_id id)) [
        | inl same ↦
            let gone : get id sessions ≡ none =
              subst (λ k. get k sessions ≡ none) ((eq_iff item.session_id id).0 same) e in
            let opened : false ≡ true = subst (λ o. has_session s o ≡ true) gone here.0 in absurd cc
        | inr other ↦ rw other refl
      ]
  send_to-results now item sessions (some c) e more here =
      results_to-told_first id item.session_id item.verdict
        (send_announcements s cfg now item.announcements
          (record c { frames_processed = c.frames_processed + 1 })).1
        more

  send_result-results :
      (now : ℕ) (item : Finished Body) (sessions : Sessions s)
      (more : List (String × ToClient Body))
      → Here sessions
      → results_to id ((send_result s cfg now reachable item sessions).1 ++ more) ≡ (
          if str_eq item.session_id id
          then item.verdict ∷ results_to id more
          else results_to id more)
  unfolding send_result
  send_result-results now item sessions more here =
      rw (session_by_id-get s item.session_id sessions here.1)
        (send_to-results now item sessions (get item.session_id sessions) refl more here)

  -- Whatever the workers finished, for a client that has a session and can be reached, where each
  -- session bears the name that it is found under: the results that the client is sent are those
  -- of its own frames, each of them once, in the order in which they were finished, whatever is
  -- announced and whichever other clients are gone or cannot be reached.
  pub flush_results-finished_for :
      (items : List (ℕ × Finished Body)) (sessions : Sessions s)
      → has_session s (get id sessions) ≡ true
      → AllNamed s sessions
      → results_to id (flush_results s cfg reachable items sessions).1 ≡ finished_for id items
  unfolding flush_results results_to finished_for
  flush_results-finished_for [] sessions opened all = refl
  flush_results-finished_for ((now, item) ∷ items) sessions opened all =
      let (opened', all') = send_result-Here now item sessions (opened, all) in
      let after = (send_result s cfg now reachable item sessions).0 in
      rw
        (
          send_result-results now item sessions (flush_results s cfg reachable items after).1
              (opened, all),
          flush_results-finished_for items after opened' all',
        )
        refl
