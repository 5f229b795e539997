-- ===== src/Processors/Deep3r/Map.antt =====
-- What the map's identity of robocam/processors/deep3r.py stands for.
use robo_cam_stream_processi.Processors.Deep3r.{
  Frame, Kinds, Settings, Reason, S, reset_state, new_run, follow_run, reset_reason, reset_if,
  fold_in, step_model, Outcome, process, skipped, count_frame, gap_of, process_all,
}
use robo_cam_stream_processi.Prelude.{
  ℕ, Option, String, ◌≤◌, str_eq, List, arith, ◌≡◌, ◌<◌, ◌∷◌, Bool, false, ◌⊎◌, ◌+◌, some, true,
  ◌||◌, if◌then◌else◌, ◌&&◌, Bool-cases, inr, ◌%◌, inl, ◌==◌, refl, ◌-◌, ◌∙◌, subst, ap, sym, ap₂,
}
use robo_cam_stream_processi.Prelude.Int.{ℤ}
use mathlib.Core.List.{[]}
use mathlib.Core.Option.{none}

module _ (k : Kinds) (cfg : Settings) where
  open k use {Image, Recurrent, model}

  -- The images that go to the model, of frames that come after `seen` others: each `every_n`-th.
  unfoldable pub taken : ℕ → List (Frame Image) → List Image
  taken seen [] = []
  taken seen (frame ∷ rest) =
      let later = taken (seen + 1) rest in
      if seen % cfg.every_n == 0 then frame.image ∷ later else later

  abbrev pub or_kept : Option Recurrent → Option Recurrent → Option Recurrent
  or_kept none held = held
  or_kept (some r) held = some r

  -- The model's state after some images; one on which it raises leaves the state as it was.
  unfoldable pub folded : Option Recurrent → List Image → Option Recurrent
  folded state [] = state
  folded state (image ∷ rest) = folded (or_kept (model state image) state) rest

  -- No frame names another run.
  unfoldable pub all_of_run : String → List (Frame Image) → Bool
  all_of_run run [] = true
  all_of_run run (frame ∷ rest) =
      (str_eq frame.run_id "" || str_eq frame.run_id run) && all_of_run run rest

  follow_run-map_id :
      (frame : Frame Image) (s : S k cfg) → s.map_id ≤ (follow_run k cfg frame s).map_id
  unfolding follow_run new_run reset_state
  follow_run-map_id frame s = ground arith

  -- In a run that is known, a frame of another run starts another map; others change nothing.
  follow_run-cases :
      (frame : Frame Image) (s : S k cfg)
      → str_eq s.run_id "" ≡ false
      → (s.map_id < (follow_run k cfg frame s).map_id)
        ⊎ ((follow_run k cfg frame s ≡ s)
            × ((str_eq frame.run_id "" || str_eq frame.run_id s.run_id) ≡ true))
  unfolding follow_run new_run reset_state
  follow_run-cases frame s known = elim (Bool-cases (str_eq frame.run_id "")) [
    | inl unnamed ↦ simp unnamed (inr (refl, refl))
    | inr named ↦ elim (Bool-cases (str_eq frame.run_id s.run_id)) [
      | inl same ↦ simp (named, same) (inr (refl, refl))
      | inr other ↦ simp (named, other, known) (inl (omega arith))
    ]
  ]

  -- The frame's image is in the state, or the state is as it was; the run and the map too.
  abbrev pub WentOn : Bool → Frame Image → S k cfg → S k cfg → Type 0
  WentOn takes frame s s' =
      (s'.map_id ≡ s.map_id)
      × (s'.state ≡ (if takes then or_kept (model s.state frame.image) s.state else s.state))
      × (s'.run_id ≡ s.run_id)
      × (s'.seen ≡ s.seen)

  fold_in-kept :
      (o : Option Recurrent) (s : S k cfg)
      → ((fold_in k cfg o s).map_id ≡ s.map_id)
        × ((fold_in k cfg o s).state ≡ or_kept o s.state)
        × ((fold_in k cfg o s).run_id ≡ s.run_id)
        × ((fold_in k cfg o s).seen ≡ s.seen)
  unfolding fold_in
  fold_in-kept none s = (refl, refl, refl, refl)
  fold_in-kept (some r) s = (refl, refl, refl, refl)

  abbrev ran : Frame Image → S k cfg → S k cfg
  ran frame s = fold_in k cfg (model s.state frame.image) s

  fold_in-cases :
      (reason : Option Reason) (frame : Frame Image) (s : S k cfg)
      → (s.map_id < (ran frame (reset_if k cfg reason s)).map_id)
        ⊎ WentOn true frame s (ran frame (reset_if k cfg reason s))
  unfolding reset_if reset_state
  fold_in-cases none frame s = inr (fold_in-kept (model s.state frame.image) s)
  fold_in-cases (some reason) frame s =
      let wiped = reset_state k cfg s in
      let kept = fold_in-kept (model wiped.state frame.image) wiped in inl (omega (arith, kept.0))

  -- `process` behind the run and the count.
  abbrev counted_step : ℤ → Frame Image → S k cfg → Outcome × S k cfg
  counted_step gap frame s =
      if (s.seen - 1) % cfg.every_n == 0
      then step_model k cfg gap frame s
      else (skipped s.map_id s.frames_in_state, s)

  -- The map stays and the state goes on, or another map begins.
  counted_step-cases :
      (gap : ℤ) (frame : Frame Image) (s : S k cfg)
      → (s.map_id < (counted_step gap frame s).1.map_id)
        ⊎ WentOn ((s.seen - 1) % cfg.every_n == 0) frame s (counted_step gap frame s).1
  unfolding step_model
  counted_step-cases gap frame s = elim (Bool-cases ((s.seen - 1) % cfg.every_n == 0)) [
    | inl takes ↦ rw takes (fold_in-cases (reset_reason k cfg gap s) frame s)
    | inr skips ↦ rw skips (inr (refl, refl, refl, refl))
  ]

  counted_step-map_id :
      (gap : ℤ) (frame : Frame Image) (s : S k cfg) → s.map_id ≤ (counted_step gap frame s).1.map_id
  counted_step-map_id gap frame s = elim (counted_step-cases gap frame s) [
    | inl more ↦ omega (arith, more)
    | inr (same, _, _, _) ↦ omega (arith, same)
  ]

  process-map_id : (frame : Frame Image) (s : S k cfg) → s.map_id ≤ (process k cfg frame s).1.map_id
  unfolding process count_frame
  process-map_id frame s = omega (
    arith,
    follow_run-map_id frame s,
    counted_step-map_id (gap_of k cfg (follow_run k cfg frame s).last_seq frame.seq) frame
        (count_frame k cfg frame (follow_run k cfg frame s)),
  )

  -- What `process` can come to.
  abbrev Processed : Frame Image → S k cfg → S k cfg → Type 0
  Processed frame s s' =
      (s.map_id < s'.map_id)
      ⊎ (((str_eq frame.run_id "" || str_eq frame.run_id s.run_id) ≡ true)
          × WentOn (s.seen % cfg.every_n == 0) frame (record s { seen = s.seen + 1 }) s')

  counted-Processed :
      (gap : ℤ) (frame : Frame Image) (s : S k cfg)
      → (str_eq frame.run_id "" || str_eq frame.run_id s.run_id) ≡ true
      → Processed frame s (counted_step gap frame (count_frame k cfg frame s)).1
  unfolding count_frame
  counted-Processed gap frame s ours =
      elim (counted_step-cases gap frame (count_frame k cfg frame s)) [
        | inl more ↦ inl more
        | inr (map, state, run, seen) ↦ inr (
          ours,
          (
            map,
            state
                ∙ ap
                    (λ n.
                      if n % cfg.every_n == 0
                      then or_kept (model s.state frame.image) s.state
                      else s.state)
                    one_less,
            run,
            seen,
          ),
        )
      ]
    where
      one_less : s.seen + 1 - 1 ≡ s.seen
      one_less = omega arith

  process-Processed :
      (frame : Frame Image) (s : S k cfg)
      → str_eq s.run_id "" ≡ false
      → Processed frame s (process k cfg frame s).1
  unfolding process count_frame
  process-Processed frame s known =
      let followed = follow_run k cfg frame s in
      let gap = gap_of k cfg followed.last_seq frame.seq in
      elim (follow_run-cases frame s known) [
        | inl more ↦
            inl (
              omega (arith, more, counted_step-map_id gap frame (count_frame k cfg frame followed)))
        | inr (same, ours) ↦
            subst
              (λ f.
                Processed frame s
                  (counted_step (gap_of k cfg f.last_seq frame.seq) frame
                    (count_frame k cfg frame f)).1)
              (sym same) (counted-Processed (gap_of k cfg s.last_seq frame.seq) frame s ours)
      ]

  process_all-map_id :
      (frames : List (Frame Image)) (s : S k cfg) → s.map_id ≤ (process_all k cfg frames s).1.map_id
  unfolding process_all
  process_all-map_id [] s = omega arith
  process_all-map_id (frame ∷ rest) s =
      omega (arith, process-map_id frame s, process_all-map_id rest (process k cfg frame s).1)

  folded_if :
      (takes : Bool) (state : Option Recurrent) (image : Image) (later : List Image)
      → folded state (if takes then image ∷ later else later)
        ≡ folded (if takes then or_kept (model state image) state else state) later
  unfolding folded
  folded_if true state image later = refl
  folded_if false state image later = refl

  both_true : (a b : Bool) → a ≡ true → b ≡ true → (a && b) ≡ true
  both_true true b e f = f
  both_true false b e f = absurd cc

  -- In a run that is known, as long as the map keeps its name no frame has named another run, and
  -- the network's state is what the model makes, from the state at the start, of every `every_n`-th
  -- image: none of them went into another state, and none was left out but those on which the
  -- network raised.
  pub process_all-folded :
      (frames : List (Frame Image)) (s : S k cfg)
      → str_eq s.run_id "" ≡ false
      → (process_all k cfg frames s).1.map_id ≡ s.map_id
      → (all_of_run s.run_id frames ≡ true)
        × ((process_all k cfg frames s).1.state ≡ folded s.state (taken s.seen frames))
  unfolding process_all all_of_run folded taken
  process_all-folded [] s known same = (refl, refl)
  process_all-folded (frame ∷ rest) s known same = elim (process-Processed frame s known) [
    | inl more ↦
        absurd (omega (arith, more, same, process_all-map_id rest (process k cfg frame s).1))
    | inr (ours, (map, state, run, seen)) ↦
        let (all, fold) =
          process_all-folded rest (process k cfg frame s).1 (ap (λ id. str_eq id "") run ∙ known)
            (same ∙ sym map) in
        (
          both_true _ _ ours (ap (λ id. all_of_run id rest) (sym run) ∙ all),
          fold
              ∙ ap₂ (λ (held : Option Recurrent) (n : ℕ). folded held (taken n rest)) state seen
              ∙ sym (
                  folded_if (s.seen % cfg.every_n == 0) s.state frame.image
                    (taken (s.seen + 1) rest)),
        )
  ]
