-- ===== src/Processors/Tests/Seeking.antt =====
-- The decision stage of robocam/processors/deep3r.py on a few frames: a scene is the list of what the
-- detector finds, and a detection is where it is found.
use robo_cam_stream_processi.Processors.Decision.{
  Vision, Settings, Frame, State, Message, Located, arm_recall, run_recall, recall_loop, hit,
  first_located, or_else, sighting, same_basis, is_empty, absent,
}
use robo_cam_stream_processi.Processors.Decision.Watch.{
  decide_all, decide, decide_placed, seek, maybe_announce, known, live_branch, start_seek,
  detect_live, looked, first_strong, after_look, memory_branch, is_news, elapsed,
}
use robo_cam_stream_processi.Processors.Decision.News.{AllNews, said, decide_all-AllNews}
use robo_cam_stream_processi.Processors.Decision.Mission.{OfMission, decide-OfMission}
use robo_cam_stream_processi.Processors.Decision.Recall.{
  first_hit, recall_calls, recall_calls-first_hit,
}
use robo_cam_stream_processi.Prelude.{
  ℕ, List, true, some, ◌∷◌, ◌≡◌, map, Option, leb, [], length, none, ◌⊎◌, arith, ltb, str_eq, ◌+◌,
  false, refl,
}
use robo_cam_stream_processi.Seek.Memory.{recall, remember}
use robo_cam_stream_processi.Seek.Keyframes.{newest_first}

abbrev place : ℕ → Option (Located ℕ ℕ)
place d = some (record { confidence = d; map_id = "m"; seen_at = 7; spot = d })

abbrev vision : Vision
vision = record {
  Scene = List ℕ;
  Pose = ℕ;
  Keyframe = List ℕ;
  Detection = ℕ;
  Confidence = ℕ;
  Spot = ℕ;
  at_least = λ a b. leb b a;
  pose = length;
  far = λ a b. ltb a b;
  shrunk = λ scene p. some scene;
  detect = λ scene target. some scene;
  detect_kept = λ kept target. some kept;
  strong = λ d. leb 5 d;
  locate = λ scene p d. place d;
  locate_kept = λ kept d. place d;
  moved = λ a b. ltb (a + 3) b;
}

abbrev settings : Settings
settings = record {
  enabled = true;
  loaded = true;
  detect_every_n = 1;
  recall_budget = 2;
  absent_after_runs = 2;
  min_found_interval = 100;
}

abbrev frame : List ℕ → Frame (List ℕ) ℕ
frame scene = record { scene = scene; odom = some 0; phase = "t2"; target = "mug"; map_id = "" }

abbrev start : State vision
start = record {
  keyframes = some (record {
    max_frames = 9;
    frames = (3 ∷ []) ∷ (2 ∷ 8 ∷ []) ∷ [] ∷ (1 ∷ []) ∷ [];
    last = none;
    considered = 4;
    stored = 4;
    evicted = 0;
  });
  best = record { ttl = 0; prefer_newer_after = 20; best = none; updates = 0 };
  recall_target = "";
  recall_queue = [];
  recall_done = true;
  seek_runs = 0;
  absent_runs = 0;
  last_found = 0;
  last_announced = none;
  prev_phase = "t1";
}

abbrev frames : List (ℕ × Frame (List ℕ) ℕ)
frames =
    (10, frame [])
    ∷ (20, frame [])
    ∷ (30, frame (4 ∷ 9 ∷ []))
    ∷ (40, frame (9 ∷ []))
    ∷ (200, frame [])
    ∷ []

decide_all-AllNews_example :
    AllNews vision settings (said vision settings start) (decide_all vision settings frames start).1
decide_all-AllNews_example = decide_all-AllNews vision settings frames start

decide-OfMission_example :
    ((decide vision settings 30 (frame (9 ∷ [])) start).1 ≡ [])
    ⊎ (((frame (9 ∷ [])).phase ≡ "t2")
        × (str_eq "mug" "" ≡ false)
        × OfMission vision settings
            (frame (9 ∷ []))
            (decide vision settings 30 (frame (9 ∷ [])) start).1)
decide-OfMission_example = decide-OfMission vision settings 30 (frame (9 ∷ [])) start

abbrev kept : List (List ℕ)
kept = (1 ∷ []) ∷ [] ∷ (2 ∷ 8 ∷ []) ∷ (3 ∷ []) ∷ []

recall_calls-first_hit_example :
    recall_calls vision "mug" 2 3 kept ≡ (first_hit vision "mug" kept, ([], true))
recall_calls-first_hit_example = recall_calls-first_hit vision "mug" 2 3 kept (omega arith)

-- The first frame and the first call of the search find nothing; the second call does.
times :
    map (λ (m : ℕ × Message vision). m.0) (decide_all vision settings frames start).1
    ≡ 20 ∷ 40 ∷ 200 ∷ []
unfolding decide_all decide decide_placed seek maybe_announce known live_branch start_seek
    arm_recall detect_live looked first_strong after_look memory_branch run_recall recall_loop hit
    first_located or_else sighting recall remember is_news same_basis elapsed is_empty newest_first
times = refl

-- One run of the detector without the cup and one without the mug are told as two without the mug.
counted_for_another :
    (decide vision settings 30 (frame []) (record start {
      keyframes = none;
      recall_target = "cup";
      prev_phase = "t2";
      absent_runs = 1;
    })).1
    ≡ absent "mug" ∷ []
unfolding decide_all decide decide_placed seek maybe_announce known live_branch start_seek
    arm_recall detect_live looked first_strong after_look memory_branch run_recall recall_loop hit
    first_located or_else sighting recall remember is_news same_basis elapsed is_empty newest_first
counted_for_another = refl
