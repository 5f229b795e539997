-- ===== src/Processors/Decision/Watch.antt =====
-- `_detect_live`, `_maybe_announce` and `_decide` of robocam/processors/deep3r.py.
use mathlib.Core.Option
use robo_cam_stream_processi.Seek.Memory.{remember, recall, live}
use robo_cam_stream_processi.Prelude.{
  ℕ, if◌then◌else◌, ◌==◌, Option, String, List, ◌-◌, none, some, ◌+◌, Bool, not, ◌∷◌, ◌%◌, true,
  ◌&&◌, str_eq, [], ◌||◌, max, leb, map, false, ◌++◌,
}
use robo_cam_stream_processi.Processors.Decision.{
  Vision, Settings, Frame, Located, Seen, State, run_recall, Message, or_else, same_basis,
  arm_recall, store_keyframe, absent, found, sighting,
}

-- `elapsed_ms`, in nanoseconds; 1e9 ms where nothing was found yet.
unfoldable pub elapsed : ℕ → ℕ → ℕ
elapsed now last = if last == 0 then 1_000_000_000_000_000 else now - last

module _ (v : Vision) (cfg : Settings) where
  open v use {Scene, Pose, Keyframe, Detection, Confidence, Spot, at_least}

  -- The detections are looked at until one is too weak.
  unfoldable pub first_strong :
      (Detection → Option (Located Confidence Spot))
      → List Detection
      → Option (Located Confidence Spot)
  first_strong place [] = none
  first_strong place (d ∷ ds) =
      if not (v.strong d) then none else or_else (place d) (first_strong place ds)

  -- `none` where the detector raised, and then what it saw.
  unfoldable pub looked : String → Frame Scene Pose → Pose → Option (Option (Seen v))
  looked target frame p =
      Option.map
        (λ ds. Option.map (sighting v target live) (first_strong (v.locate frame.scene p) ds))
        (v.detect frame.scene target)

  unfoldable pub after_look : Option (Option (Seen v)) → State v → State v
  after_look none s = s
  after_look (some none) s = record s { absent_runs = s.absent_runs + 1 }
  after_look (some (some seen)) s = record s {
    best = (remember Confidence Spot at_least seen s.best).0;
    absent_runs = 0;
  }

  abbrev pub joined : Option (Option (Seen v)) → Option (Seen v)
  joined none = none
  joined (some o) = o

  unfoldable pub detect_live :
      String → Frame Scene Pose → Pose → State v → Option (Seen v) × State v
  detect_live target frame p s = let saw = looked target frame p in (joined saw, after_look saw s)

  -- `_seek_runs` counts every frame; the detector runs on the first and each `detect_every_n`-th.
  unfoldable pub live_branch :
      String → Frame Scene Pose → Pose → State v → Option (Seen v) × State v
  live_branch target frame p s =
      let counted = record s { seek_runs = s.seek_runs + 1 } in
      if (counted.seek_runs - 1) % max 1 cfg.detect_every_n == 0
      then detect_live target frame p counted
      else (none, counted)

  abbrev pub remembered : Option (Seen v) → State v → State v
  remembered none s = s
  remembered (some seen) s = record s { best = (remember Confidence Spot at_least seen s.best).0 }

  unfoldable pub memory_branch : String → State v → Option (Seen v) × State v
  memory_branch target s =
      let (recalled, (queue, done)) = run_recall v target cfg.recall_budget s.recall_queue in
      if s.recall_done
      then (none, s)
      else (recalled, remembered recalled (record s { recall_queue = queue; recall_done = done }))

  -- What is known of the target, and whether it is seen now.
  unfoldable pub known :
      ℕ → String → Frame Scene Pose → Option (Seen v) × State v → (Option (Seen v) × Bool) × State v
  known now target frame (some seen, s) = ((some seen, true), s)
  known now target frame (none, s) =
      let (recalled, s') = memory_branch target s in
      (
        (or_else recalled (recall Confidence Spot at_least target frame.map_id now s'.best), false),
        s',
      )

  -- A place that is far from the last, or of the other basis.
  unfoldable pub is_news : Option (Seen v) → Seen v → Bool
  is_news none seen = true
  is_news (some before) seen =
      v.moved before.spot seen.spot || not (same_basis before.basis seen.basis)

  unfoldable pub maybe_announce :
      ℕ → String → Option (Seen v) × Bool → State v → State v × List (Message v)
  maybe_announce now target (none, is_live) s =
      if not (cfg.absent_after_runs == 0) && leb cfg.absent_after_runs s.absent_runs
      then (record s { absent_runs = 0; last_announced = none }, absent target ∷ [])
      else (s, [])
  maybe_announce now target (some seen, is_live) s =
      if leb cfg.min_found_interval (elapsed now s.last_found) || is_news s.last_announced seen
      then (
        record s { last_found = now; last_announced = some seen },
        found target seen is_live ∷ [],
      )
      else (s, [])

  -- `_prev_phase` and the search of a target that is new.
  unfoldable pub start_seek : String → State v → State v
  start_seek target s =
      let armed =
        if not (str_eq s.prev_phase "t2") || not (str_eq s.recall_target target)
        then arm_recall v target s
        else s in
      record armed { prev_phase = "t2" }

  unfoldable pub seek : ℕ → Frame Scene Pose → Pose → State v → State v × List (Message v)
  seek now frame p s =
      let (what, s') =
        known now frame.target frame
          (live_branch frame.target frame p (start_seek frame.target s)) in
      maybe_announce now frame.target what s'

  -- A frame that is placed.
  unfoldable pub decide_placed : ℕ → Frame Scene Pose → Pose → State v → State v × List (Message v)
  decide_placed now frame p s =
      if not (str_eq frame.phase "t2")
      then (record (store_keyframe v frame.scene p s) { prev_phase = frame.phase }, [])
      else if str_eq frame.target ""
      then (s, [])
      else seek now frame p s

  abbrev pub if_placed : ℕ → Frame Scene Pose → Option Pose → State v → State v × List (Message v)
  if_placed now frame none s = (s, [])
  if_placed now frame (some p) s = decide_placed now frame p s

  unfoldable pub decide : ℕ → Frame Scene Pose → State v → State v × List (Message v)
  decide now frame s =
      if not cfg.enabled || not cfg.loaded then (s, []) else if_placed now frame frame.odom s

  -- The frames of a run, each at its time.
  unfoldable pub decide_all : List (ℕ × Frame Scene Pose) → State v → State v × List (ℕ × Message v)
  decide_all [] s = (s, [])
  decide_all ((now, frame) ∷ rest) s =
      let (s', out) = decide now frame s in
      let (s'', out') = decide_all rest s' in (s'', map (λ m. (now, m)) out ++ out')
