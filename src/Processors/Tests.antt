-- ===== src/Processors/Tests.antt =====
-- The reconstruction's bookkeeping of robocam/processors/deep3r.py on a few frames, with the list of
-- the images seen for a network's state.
mod Seeking
use robo_cam_stream_processi.Processors.Deep3r.{
  Frame, Kinds, Settings, S, process_all, process, follow_run, new_run, reset_state, cleared_store,
  count_frame, step_model, reset_reason, reset_if, fold_in, gap_of,
}
use robo_cam_stream_processi.Processors.Deep3r.Map.{all_of_run, folded, taken, process_all-folded}
use robo_cam_stream_processi.Prelude.{
  Option, ℕ, some, String, List, ◌≡◌, [], ◌++◌, ◌∷◌, true, none, refl, if◌then◌else◌, ◌==◌,
}
use robo_cam_stream_processi.Prelude.Int.{pos}
use mathlib.Core.Option.{none}

abbrev kept : Option (List ℕ) → List ℕ
kept none = []
kept (some images) = images

abbrev kinds : Kinds
kinds = record {
  Image = ℕ;
  Recurrent = List ℕ;
  Keyframe = ℕ;
  Memory = ℕ;
  Sighting = ℕ;
  model = λ state image. if image == 11 then none else some (kept state ++ image ∷ []);
  fresh_memory = 0;
}

abbrev every_second : Settings
every_second = record { every_n = 2; reset_every = pos 0; reset_on_gap = pos 8 }

abbrev state : S kinds every_second
state = record {
  run_id = "a";
  seen = 4;
  last_seq = some (pos 3);
  state = some (1 ∷ []);
  frames_in_state = 1;
  map_id = 2;
  keyframes = some (5 ∷ []);
  memory = 9;
  recall_target = "";
  recall_queue = [];
  last_announced = none;
  prev_phase = "t1";
}

abbrev frame : String → ℕ → ℕ → Frame ℕ
frame run seq image = record { run_id = run; seq = pos seq; image = image }

abbrev frames : List (Frame ℕ)
frames = frame "a" 4 10 ∷ frame "" 5 11 ∷ frame "a" 6 12 ∷ []

same_map : (process_all kinds every_second frames state).1.map_id ≡ 2
unfolding process_all process count_frame follow_run step_model fold_in reset_if reset_reason gap_of
same_map = refl

process_all-folded_example :
    (all_of_run kinds every_second "a" frames ≡ true)
    × ((process_all kinds every_second frames state).1.state
        ≡ folded kinds every_second (some (1 ∷ [])) (taken kinds every_second 4 frames))
process_all-folded_example = process_all-folded kinds every_second frames state refl same_map

other_run : (process_all kinds every_second (frame "b" 0 10 ∷ []) state).1.keyframes ≡ some []
unfolding process_all process follow_run new_run reset_state cleared_store count_frame step_model
    reset_reason reset_if fold_in gap_of
other_run = refl
