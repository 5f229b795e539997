-- ===== src/Pipeline/Tests.antt =====
-- Runs of the frame queue and the worker pool on concrete inputs.
use mathlib.Core.List.Perm
use robo_cam_stream_processi.Pipeline.FrameQueue.{FrameQueue, put, frames, make_room, oldest}
use robo_cam_stream_processi.Pipeline.FrameQueue.Window.{put-outcome, outcome, IsValid}
use robo_cam_stream_processi.Pipeline.FrameQueue.Trace.{
  Event, puts, gets, drains, run, run-perm, run-fifo, submitted,
}
use robo_cam_stream_processi.Pipeline.Workers.{
  Processor, Pool, Reach, submit, here, next, returned, raised, work,
}
use robo_cam_stream_processi.Pipeline.Workers.Conservation.{reach-Accounted, Accounted}
use robo_cam_stream_processi.Prelude.{
  ℕ, ◌≡◌, List, [], ◌∷◌, false, some, arith, Perm, ◌++◌, ◌+◌, refl, if◌then◌else◌, ◌==◌,
}
use robo_cam_stream_processi.Prelude.Int.{pos}

-- The queue of the default configuration, full.
abbrev full_queue : FrameQueue ℕ
full_queue = record {
  max_depth = 2;
  drop_policy = oldest;
  items = (5, 10) ∷ (6, 11) ∷ [];
  closed = false;
  dropped_total = 0;
}

put_evicts :
    put 7 12 full_queue
    ≡ some (record full_queue { items = (6, 11) ∷ (7, 12) ∷ []; dropped_total = 1 }, 10 ∷ [])
unfolding put make_room
put_evicts = refl

put-outcome_example : put 7 12 full_queue ≡ some (outcome 7 12 full_queue)
put-outcome_example = put-outcome 7 12 full_queue (omega arith)

abbrev calls : List (Event ℕ)
calls = puts 7 12 ∷ gets ∷ puts 8 13 ∷ puts 9 14 ∷ drains ∷ []

full_queue-IsValid : IsValid full_queue
full_queue-IsValid = omega arith

no_frame_lost :
    (q' : FrameQueue ℕ) × (out : List ℕ) × (run calls full_queue ≡ some (q', out))
    × IsValid q'
    × Perm (frames full_queue ++ submitted calls) (out ++ frames q')
no_frame_lost = run-perm calls full_queue full_queue-IsValid

arrival_order :
    (q' : FrameQueue ℕ) × (out : List ℕ) × (run calls full_queue ≡ some (q', out))
    × (out ++ frames q' ≡ frames full_queue ++ submitted calls)
arrival_order =
    run-fifo calls full_queue full_queue-IsValid (record { policy = refl; opened = refl })
      (refl, (refl, (refl, (refl, (refl, tt)))))

-- A processor that fails on frame 13 and announces every other frame.
abbrev picky : Processor
picky = record {
  Frame = ℕ;
  State = ℕ;
  Data = ℕ;
  Announcement = ℕ;
  session_id = λ f. "orin";
  seq = λ f. pos f;
  no_data = 0;
  error_data = λ message. 1;
  process = λ s f. (
    s + 1,
    (if f == 13 then raised "bad frame" else returned (some f)),
    (if f == 13 then [] else f ∷ []),
  );
}

failed_frame_keeps_its_seq : (work picky 1 2 3 0 (0, 13)).1.reason ≡ "processor_failed"
unfolding work
failed_frame_keeps_its_seq = refl

abbrev before : Pool picky
before = record {
  queue = full_queue;
  busy = [];
  idle = 0 ∷ [];
  results = [];
  submitted = 10 ∷ 11 ∷ [];
  answered = [];
  discarded = [];
}

abbrev after : Pool picky
after = record before {
  queue = record full_queue { items = (6, 11) ∷ (7, 12) ∷ []; dropped_total = 1 };
  submitted = 10 ∷ 11 ∷ 12 ∷ [];
  answered = 10 ∷ [];
}

submitted_once : Reach picky before after
submitted_once = next here (submit 7 12 put_evicts)

reach-Accounted_example : IsValid after.queue × Accounted picky after
reach-Accounted_example =
    reach-Accounted picky {c = before} full_queue-IsValid (Perm.refl _) submitted_once
