-- ===== src/Processors/Decision/News.antt =====
-- What `_decide` of robocam/processors/deep3r.py announces: of which mission, and when again.
use mathlib.Core.Option
use robo_cam_stream_processi.Processors.Decision.{
  Vision, Settings, Frame, State, Seen, arm_recall, Message, run_recall, absent, found, same_basis,
  store_keyframe,
}
use robo_cam_stream_processi.Prelude.{
  Option, ℕ, List, ◌≡◌, ◌∙◌, String, if_both, leb, Bool, ◌∷◌, ◌⊎◌, not, ◌+◌, refl, ◌||◌, ◌≤◌,
  str_eq, ◌-◌, true, ◌==◌, ◌%◌, arith, ◌&&◌, false, max, Bool-cases, inl, inr, subst, map, ◌++◌,
}
use robo_cam_stream_processi.Processors.Decision.Watch.{
  start_seek, after_look, memory_branch, elapsed, live_branch, known, is_news, maybe_announce,
  detect_live, remembered, looked, decide, decide_all, seek, if_placed, decide_placed,
}
use mathlib.Core.Option.{some}
use Option.{none}
use mathlib.Core.List.{[]}

module _ (v : Vision) (cfg : Settings) where
  open v use {Scene, Pose, Confidence, Spot, at_least}

  -- What is said last, and when.
  unfoldable pub said : State v → Option (ℕ × Seen v)
  said s = Option.map (λ seen. (s.last_found, seen)) s.last_announced

  unfoldable pub News : Option (ℕ × Seen v) → ℕ → Seen v → Type 0
  News none now seen = Unit
  News (some (at, before)) now seen =
      (at ≡ 0)
      ⊎ ((cfg.min_found_interval ≤ now - at)
          ⊎ ((v.moved before.spot seen.spot ≡ true) ⊎ (same_basis before.basis seen.basis ≡ false)))

  -- Each `found` is news after the one before it, if no absence was told in between.
  unfoldable pub AllNews : Option (ℕ × Seen v) → List (ℕ × Message v) → Type 0
  AllNews before [] = Unit
  AllNews before ((now, absent target) ∷ out) = AllNews none out
  AllNews before ((now, found target seen is_live) ∷ out) =
      News before now seen × AllNews (some (now, seen)) out

  Same : State v → State v → Type 0
  Same s s' = (s'.last_found ≡ s.last_found) × (s'.last_announced ≡ s.last_announced)

  chained : (a b c : State v) → Same a b → Same b c → Same a c
  unfolding Same
  chained a b c (p, q) (r, t) = (r ∙ p, t ∙ q)

  start_seek-Same : (target : String) (s : State v) → Same s (start_seek v cfg target s)
  unfolding Same start_seek arm_recall
  start_seek-Same target s =
      if_both
        (λ (a : State v). (a.last_found ≡ s.last_found) × (a.last_announced ≡ s.last_announced))
        (not (str_eq s.prev_phase "t2") || not (str_eq s.recall_target target)) (refl, refl)
        (refl, refl)

  after_look-Same : (saw : Option (Option (Seen v))) (s : State v) → Same s (after_look v cfg saw s)
  unfolding Same after_look
  after_look-Same none s = (refl, refl)
  after_look-Same (some none) s = (refl, refl)
  after_look-Same (some (some seen)) s = (refl, refl)

  live_branch-Same :
      (target : String) (frame : Frame Scene Pose) (p : Pose) (s : State v)
      → Same s (live_branch v cfg target frame p s).1
  unfolding Same live_branch detect_live
  live_branch-Same target frame p s =
      if_both (λ (r : Option (Seen v) × State v). Same s r.1)
        ((s.seek_runs + 1 - 1) % max 1 cfg.detect_every_n == 0)
        (after_look-Same (looked v cfg target frame p) (record s { seek_runs = s.seek_runs + 1 }))
        (refl, refl)

  remembered-Same : (o : Option (Seen v)) (s : State v) → Same s (remembered v cfg o s)
  unfolding Same
  remembered-Same none s = (refl, refl)
  remembered-Same (some seen) s = (refl, refl)

  memory_branch-Same : (target : String) (s : State v) → Same s (memory_branch v cfg target s).1
  unfolding Same memory_branch
  memory_branch-Same target s =
      let r = run_recall v target cfg.recall_budget s.recall_queue in
      if_both (λ (r : Option (Seen v) × State v). Same s r.1) s.recall_done (refl, refl)
        (remembered-Same r.0 (record s { recall_queue = r.1.0; recall_done = r.1.1 }))

  known-Same :
      (now : ℕ) (target : String) (frame : Frame Scene Pose) (r : Option (Seen v) × State v)
      → Same r.1 (known v cfg now target frame r).1
  unfolding Same known
  known-Same now target frame (some seen, s) = (refl, refl)
  known-Same now target frame (none, s) = memory_branch-Same target s

  -- What a frame does to what was said last.
  Step : ℕ → State v → State v × List (Message v) → Type 0
  Step now s (s', []) = Same s s'
  Step now s (s', absent target ∷ []) = s'.last_announced ≡ none
  Step now s (s', found target seen is_live ∷ []) =
      News (said s) now seen × (s'.last_announced ≡ some seen) × (s'.last_found ≡ now)
  Step now s (s', m ∷ n ∷ out) = ⊥

  News_lem :
      (now at : ℕ) (last : Option (Seen v)) (seen : Seen v)
      → (leb cfg.min_found_interval (elapsed now at) || is_news v cfg last seen) ≡ true
      → News (Option.map (λ g. (at, g)) last) now seen
  unfolding News elapsed is_news
  News_lem now at none seen e = tt
  News_lem now at (some before) seen e = ground (arith, e)

  maybe_announce-Step :
      (now : ℕ) (target : String) (what : Option (Seen v) × Bool) (s : State v)
      → Step now s (maybe_announce v cfg now target what s)
  unfolding Step Same maybe_announce said
  maybe_announce-Step now target (none, is_live) s =
      if_both (Step now s)
        (not (cfg.absent_after_runs == 0) && leb cfg.absent_after_runs s.absent_runs) refl
        (refl, refl)
  maybe_announce-Step now target (some seen, is_live) s =
      elim (Bool-cases (
        leb cfg.min_found_interval (elapsed now s.last_found)
        || is_news v cfg s.last_announced seen)) [
          | inl news ↦ rw news (News_lem now s.last_found s.last_announced seen news, refl, refl)
          | inr stale ↦ rw stale (refl, refl)
        ]

  said-Same : (s s' : State v) → Same s s' → said s' ≡ said s
  unfolding said Same
  said-Same s s' (at, last) = rw (at, last) refl

  Step-Same :
      (now : ℕ) (s s' : State v) (r : State v × List (Message v))
      → Same s s'
      → Step now s' r
      → Step now s r
  unfolding Step
  Step-Same now s s' (t, []) same step = chained s s' t same step
  Step-Same now s s' (t, absent target ∷ []) same step = step
  Step-Same now s s' (t, found target seen is_live ∷ []) same (news, set, at) =
      (subst (λ before. News before now seen) (said-Same s s' same) news, set, at)
  Step-Same now s s' (t, m ∷ n ∷ out) same step = step

  decide-Step :
      (now : ℕ) (frame : Frame Scene Pose) (s : State v) → Step now s (decide v cfg now frame s)
  unfolding decide Step Same seek maybe_announce decide_placed store_keyframe
  decide-Step now frame s =
      if_both (Step now s) (not cfg.enabled || not cfg.loaded) (still s) (placed frame.odom)
    where
      still : (s : State v) → Step now s (s, [])
      still s = (refl, refl)

      sought : (p : Pose) → Step now s (seek v cfg now frame p s)
      sought p =
          let started = start_seek v cfg frame.target s in
          let r = live_branch v cfg frame.target frame p started in
          let known' = known v cfg now frame.target frame r in
          Step-Same now s known'.1 (maybe_announce v cfg now frame.target known'.0 known'.1)
            (chained s started known'.1 (start_seek-Same frame.target s) (
              chained started r.1 known'.1 (live_branch-Same frame.target frame p started)
                (known-Same now frame.target frame r)))
            (maybe_announce-Step now frame.target known'.0 known'.1)

      placed : (o : Option Pose) → Step now s (if_placed v cfg now frame o s)
      placed none = still s
      placed (some p) =
          if_both (Step now s) (not (str_eq frame.phase "t2")) (refl, refl)
            (if_both (Step now s) (str_eq frame.target "") (still s) (sought p))

  told_none : (t : State v) → t.last_announced ≡ none → said t ≡ none
  unfolding said
  told_none t gone = rw gone refl

  told_some :
      (t : State v) (now : ℕ) (seen : Seen v)
      → t.last_announced ≡ some seen
      → t.last_found ≡ now
      → said t ≡ some (now, seen)
  unfolding said
  told_some t now seen last at = rw (last, at) refl

  told_now :
      (now : ℕ) (s : State v) (r : State v × List (Message v)) (later : List (ℕ × Message v))
      → Step now s r
      → AllNews (said r.0) later
      → AllNews (said s) (map (λ m. (now, m)) r.1 ++ later)
  unfolding Step AllNews
  told_now now s (t, []) later same rest = subst (λ b. AllNews b later) (said-Same s t same) rest
  told_now now s (t, absent target ∷ []) later gone rest =
      subst (λ b. AllNews b later) (told_none t gone) rest
  told_now now s (t, found target seen is_live ∷ []) later (news, last, at) rest =
      (news, subst (λ b. AllNews b later) (told_some t now seen last at) rest)
  told_now now s (t, m ∷ n ∷ out) later step rest = absurd step

  -- Over any frames at any times, a `found` is sent only where nothing was found since the start or
  -- since an absence was told, or at least `min_found_interval` after the last one, or where the
  -- target has moved by `resend_move_m`, or where it is seen now and was remembered, or the other
  -- way round (a time of 0 stands for none).
  pub decide_all-AllNews :
      (frames : List (ℕ × Frame Scene Pose)) (s : State v)
      → AllNews (said s) (decide_all v cfg frames s).1
  unfolding decide_all AllNews
  decide_all-AllNews [] s = tt
  decide_all-AllNews ((now, frame) ∷ rest) s =
      let r = decide v cfg now frame s in
      told_now now s r (decide_all v cfg rest r.0).1 (decide-Step now frame s)
        (decide_all-AllNews rest r.0)
