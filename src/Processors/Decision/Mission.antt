-- ===== src/Processors/Decision/Mission.antt =====
-- What `_decide` of robocam/processors/deep3r.py announces is of the mission of the frame.
use mathlib.Core.Option
use robo_cam_stream_processi.Processors.Decision.{
  Vision, Settings, Frame, sighting, or_else, recall_loop, hit, run_recall, Message, Seen, Located,
  State, Recalled, absent, found_or, found, in_detections, first_located,
}
use robo_cam_stream_processi.Prelude.{
  String, List, Option, ℕ, suc, ◌∷◌, if_both, str_eq, Bool, ◌≡◌, ◌+◌, max, false, not, [], refl,
  ◌-◌, ◌==◌, ◌⊎◌, ◌%◌, Option-cases, ◌&&◌, inl, leb, inr, Bool-cases, ◌||◌, eq_iff,
}
use robo_cam_stream_processi.Processors.Decision.Watch.{
  memory_branch, decide, live_branch, known, maybe_announce, decide_placed, detect_live, seek,
  joined, looked, first_strong, if_placed, elapsed, is_news, start_seek,
}
use robo_cam_stream_processi.Seek.Memory.{Basis, TargetMemory, live, recall, recall-target}
use mathlib.Core.Option.{some}
use Option.{none}
use robo_cam_stream_processi.Seek.Memory.{memory}
use Prim.Native.Nat.{zero}

module _ (v : Vision) (cfg : Settings) where
  open v use {Scene, Pose, Confidence, Spot, at_least, Detection, Keyframe}

  -- What is sent for a frame is of its mission.
  unfoldable pub OfMission : Frame Scene Pose → List (Message v) → Type 0
  OfMission frame [] = Unit
  OfMission frame (absent target ∷ out) = (target ≡ frame.target) × OfMission frame out
  OfMission frame (found target seen is_live ∷ out) =
      (target ≡ frame.target) × (seen.target ≡ frame.target) × OfMission frame out

  -- A sighting, if there is one, is of the target.
  abbrev Of : String → Option (Seen v) → Type 0
  Of target none = Unit
  Of target (some seen) = seen.target ≡ target

  sighted-Of :
      (target : String) (b : Basis) (o : Option (Located Confidence Spot))
      → Of target (Option.map (sighting v target b) o)
  unfolding sighting
  sighted-Of target b none = tt
  sighted-Of target b (some l) = refl

  or_else-Of :
      (target : String) (o p : Option (Seen v))
      → Of target o
      → Of target p
      → Of target (or_else o p)
  unfolding or_else
  or_else-Of target none p f g = g
  or_else-Of target (some seen) p f g = f

  joined-Of :
      (target : String) (place : Detection → Option (Located Confidence Spot))
      (saw : Option (List Detection))
      → Of target (
          joined v cfg (
            Option.map
              (λ ds. Option.map (sighting v target live) (first_strong v cfg place ds))
              saw))
  joined-Of target place none = tt
  joined-Of target place (some ds) = sighted-Of target live (first_strong v cfg place ds)

  live_branch-Of :
      (target : String) (frame : Frame Scene Pose) (p : Pose) (s : State v)
      → Of target (live_branch v cfg target frame p s).0
  unfolding live_branch detect_live looked
  live_branch-Of target frame p s =
      if_both (λ (r : Option (Seen v) × State v). Of target r.0)
        ((s.seek_runs + 1 - 1) % max 1 cfg.detect_every_n == 0)
        (joined-Of target (v.locate frame.scene p) (v.detect frame.scene target)) tt

  found_or-Of :
      (target : String) (h : Option (Seen v)) (r : Recalled v)
      → Of target h
      → Of target r.0
      → Of target (found_or v h r).0
  found_or-Of target none r f g = g
  found_or-Of target (some seen) r f g = f

  recall_loop-Of :
      (target : String) (n : ℕ) (queue : List Keyframe) → Of target (recall_loop v target n queue).0
  unfolding recall_loop hit
  recall_loop-Of target zero queue = tt
  recall_loop-Of target (suc n) [] = tt
  recall_loop-Of target (suc n) (k ∷ queue) =
      found_or-Of target (hit v target k) (recall_loop v target n queue)
        (sighted-Of target memory
          (in_detections v (first_located v (v.locate_kept k)) (v.detect_kept k target)))
        (recall_loop-Of target n queue)

  memory_branch-Of : (target : String) (s : State v) → Of target (memory_branch v cfg target s).0
  unfolding memory_branch run_recall
  memory_branch-Of target s =
      if_both (λ (r : Option (Seen v) × State v). Of target r.0) s.recall_done tt
        (recall_loop-Of target (max 1 cfg.recall_budget) s.recall_queue)

  recall-Of :
      (target map_id : String) (now : ℕ) (m : TargetMemory Confidence Spot at_least)
      → str_eq target "" ≡ false
      → Of target (recall Confidence Spot at_least target map_id now m)
  recall-Of target map_id now m named =
      elim (Option-cases (recall Confidence Spot at_least target map_id now m)) [
        | inl gone ↦ rw gone tt
        | inr (seen, e) ↦
            rw e (recall-target Confidence Spot at_least target map_id now m seen named e)
      ]

  known-Of :
      (now : ℕ) (target : String) (frame : Frame Scene Pose) (r : Option (Seen v) × State v)
      → str_eq target "" ≡ false
      → Of target r.0
      → Of target (known v cfg now target frame r).0.0
  unfolding known
  known-Of now target frame (some seen, s) named of = of
  known-Of now target frame (none, s) named of =
      or_else-Of target (memory_branch v cfg target s).0
        (recall Confidence Spot at_least target frame.map_id now
          (memory_branch v cfg target s).1.best)
        (memory_branch-Of target s)
        (recall-Of target frame.map_id now (memory_branch v cfg target s).1.best named)

  maybe_announce-OfMission :
      (now : ℕ) (frame : Frame Scene Pose) (what : Option (Seen v) × Bool) (s : State v)
      → Of frame.target what.0
      → OfMission frame (maybe_announce v cfg now frame.target what s).1
  unfolding OfMission maybe_announce
  maybe_announce-OfMission now frame (none, is_live) s of =
      if_both (λ (r : State v × List (Message v)). OfMission frame r.1)
        (not (cfg.absent_after_runs == 0) && leb cfg.absent_after_runs s.absent_runs) (refl, tt) tt
  maybe_announce-OfMission now frame (some seen, is_live) s of =
      if_both (λ (r : State v × List (Message v)). OfMission frame r.1)
        (leb cfg.min_found_interval (elapsed now s.last_found)
          || is_news v cfg s.last_announced seen)
        (refl, of, tt) tt

  -- Whatever a frame brings and whatever is remembered: nothing is announced, or the frame is of
  -- phase t2 and names a target, and then all that is announced is of that target, an absence and
  -- a place alike, whether the place is seen now, found in a keyframe or remembered.
  pub decide-OfMission :
      (now : ℕ) (frame : Frame Scene Pose) (s : State v)
      → ((decide v cfg now frame s).1 ≡ [])
        ⊎ ((frame.phase ≡ "t2")
            × (str_eq frame.target "" ≡ false)
            × OfMission frame (decide v cfg now frame s).1)
  unfolding decide decide_placed seek
  decide-OfMission now frame s = elim (Bool-cases (not cfg.enabled || not cfg.loaded)) [
    | inl off ↦ rw off (inl refl)
    | inr on ↦ rw on (placed frame.odom)
  ]
    where
      Says : State v × List (Message v) → Type 0
      Says r =
          (r.1 ≡ [])
          ⊎ ((frame.phase ≡ "t2") × (str_eq frame.target "" ≡ false) × OfMission frame r.1)

      placed : (o : Option Pose) → Says (if_placed v cfg now frame o s)
      placed none = inl refl
      placed (some p) = elim (Bool-cases (str_eq frame.phase "t2")) [
        | inr other ↦ rw other (inl refl)
        | inl t2 ↦ elim (Bool-cases (str_eq frame.target "")) [
          | inl bare ↦ rw (t2, bare) (inl refl)
          | inr named ↦
              let started = start_seek v cfg frame.target s in
              let r = live_branch v cfg frame.target frame p started in
              let known' = known v cfg now frame.target frame r in
              rw (t2, named)
                (inr (
                  (eq_iff frame.phase "t2").0 t2,
                  refl,
                  maybe_announce-OfMission now frame known'.0 known'.1 (
                      known-Of now frame.target frame r named
                        (live_branch-Of frame.target frame p started)),
                ))
        ]
      ]
