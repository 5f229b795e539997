-- ===== src/Server/Tests/Delivering.antt =====
-- Results on their way to two clients, of whom the second cannot be reached.
use robo_cam_stream_processi.Server.Tests.{sensors, config, session}
use robo_cam_stream_processi.Server.Sessions.{Sessions, drop_session}
use robo_cam_stream_processi.Prelude.{String, List, ◌∷◌, Bool, ℕ, [], str_eq, true, refl, ◌≡◌}
use robo_cam_stream_processi.Server.Results.Delivered.{
  results_to, finished_for, flush_results-finished_for,
}
use robo_cam_stream_processi.Prelude.Int.{ℤ, pos}
use robo_cam_stream_processi.Server.Announce.{
  Announcement, found, unknown, send_announcements, announce_one, held_back, tell,
}
use robo_cam_stream_processi.Server.Results.{
  Finished, flush_results, send_result, send_to, session_by_id,
}
use robo_cam_stream_processi.Prelude.Dict.{remove}
use robo_cam_stream_processi.Server.Results.Named.{has_session, AllNamed}
use robo_cam_stream_processi.Prelude.Dict.{get, put, remove, string_eq}
use robo_cam_stream_processi.Server.Results.{told_first}

abbrev peers : Sessions sensors
peers = ("nano", record session { session_id = "nano" }) ∷ ("orin", session) ∷ []

abbrev near : String → Bool
near id = str_eq id "orin"

abbrev result_for : String → ℤ → List (Announcement ℕ) → Finished ℕ
result_for id seq news = record {
  session_id = id;
  verdict = record { seq = seq; ok = true; reason = "ok" };
  announcements = news;
}

abbrev finished : List (ℕ × Finished ℕ)
finished =
    (200, result_for "nano" (pos 4) [])
    ∷ (300, result_for "orin" (pos 7) (found 5 ∷ unknown ∷ []))
    ∷ (400, result_for "nano" (pos 5) [])
    ∷ (500, result_for "gone" (pos 1) [])
    ∷ (600, result_for "orin" (pos 9) [])
    ∷ []

peers-AllNamed : AllNamed sensors peers
unfolding AllNamed
peers-AllNamed = (refl, (refl, tt))

peers_open : has_session sensors (get "orin" peers) ≡ true
unfolding has_session get
peers_open = refl

flush_results-finished_for_example :
    results_to "orin" (flush_results sensors config near finished peers).1
    ≡ finished_for "orin" finished
flush_results-finished_for_example =
    flush_results-finished_for sensors config near "orin" refl finished peers peers_open
      peers-AllNamed

-- The second client is dropped after its first result, which it was sent.
nano_results :
    results_to "nano" (flush_results sensors config near finished peers).1
    ≡ (record { seq = pos 4; ok = true; reason = "ok" } ∷ [])
unfolding flush_results send_result send_to session_by_id told_first send_announcements announce_one
    held_back tell put remove drop_session results_to
nano_results = refl
