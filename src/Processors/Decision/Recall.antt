-- ===== src/Processors/Decision/Recall.antt =====
-- The search of what T1 saw, of robocam/processors/deep3r.py: a few keyframes at a time.
use robo_cam_stream_processi.Processors.Decision.{
  Vision, Seen, Recalled, hit, or_else, recall_loop, run_recall, found_or,
}
use robo_cam_stream_processi.Prelude.{
  String, List, some, ℕ, Option, none, ◌≡◌, suc, length, ◌∷◌, false, [], ◌<◌, ◌+◌, ◌*◌, refl, max,
  arith, ◌∙◌,
}
use mathlib.Core.Option.{none}
use mathlib.Core.Bool.{true}
use Prim.Native.Nat.{zero}

module _ (v : Vision) (target : String) where
  open v use {Keyframe}

  -- The search in one piece.
  unfoldable pub first_hit : List Keyframe → Option (Seen v)
  first_hit [] = none
  first_hit (k ∷ queue) = or_else (hit v target k) (first_hit queue)

  -- Calls of `_run_recall`, until one of them says that the search is over.
  abbrev go_on : Recalled v → Recalled v → Recalled v
  go_on (some seen, (queue, done)) later = (some seen, (queue, done))
  go_on (none, (queue, true)) later = (none, (queue, true))
  go_on (none, (queue, false)) later = later

  unfoldable pub recall_calls : ℕ → ℕ → List Keyframe → Recalled v
  recall_calls budget zero queue = (none, (queue, false))
  recall_calls budget (suc calls) queue =
      let (found, (left, done)) = run_recall v target budget queue in
      go_on (found, (left, done)) (recall_calls budget calls left)

  -- What a call comes to: the end of the search, or the search goes on behind `n` keyframes.
  unfoldable pub Searched : ℕ → List Keyframe → Recalled v → Type 0
  Searched n queue (some seen, (left, done)) =
      (first_hit queue ≡ some seen) × ((left ≡ []) × (done ≡ true))
  Searched n queue (none, (left, true)) = (first_hit queue ≡ none) × (left ≡ [])
  Searched n queue (none, (left, false)) =
      (first_hit queue ≡ first_hit left) × (length queue ≡ n + length left)

  missed-Searched :
      (n : ℕ) (k : Keyframe) (queue : List Keyframe) (r : Recalled v)
      → hit v target k ≡ none
      → Searched n queue r
      → Searched (suc n) (k ∷ queue) r
  unfolding Searched first_hit or_else
  missed-Searched n k queue (some seen, (left, done)) miss (same, over) = (rw miss same, over)
  missed-Searched n k queue (none, (left, true)) miss (same, over) = (rw miss same, over)
  missed-Searched n k queue (none, (left, false)) miss (same, size) =
      (rw miss same, omega (arith, size))

  step-Searched :
      (n : ℕ) (k : Keyframe) (queue : List Keyframe) (h : Option (Seen v)) (r : Recalled v)
      → hit v target k ≡ h
      → Searched n queue r
      → Searched (suc n) (k ∷ queue) (found_or v h r)
  unfolding Searched first_hit or_else
  step-Searched n k queue none r miss later = missed-Searched n k queue r miss later
  step-Searched n k queue (some seen) r e later = (rw e refl, (refl, refl))

  recall_loop-Searched :
      (n : ℕ) (queue : List Keyframe) → Searched n queue (recall_loop v target n queue)
  unfolding recall_loop Searched first_hit
  recall_loop-Searched zero queue = (refl, omega arith)
  recall_loop-Searched (suc n) [] = (refl, refl)
  recall_loop-Searched (suc n) (k ∷ queue) =
      step-Searched n k queue (hit v target k) (recall_loop v target n queue) refl
        (recall_loop-Searched n queue)

  go_on-first_hit :
      (n : ℕ) (queue : List Keyframe) (r later : Recalled v)
      → Searched n queue r
      → (length queue ≡ n + length r.1.0 → later ≡ (first_hit r.1.0, ([], true)))
      → go_on r later ≡ (first_hit queue, ([], true))
  unfolding Searched
  go_on-first_hit n queue (some seen, (left, done)) later (same, (empty, over)) more =
      rw (same, empty, over) refl
  go_on-first_hit n queue (none, (left, true)) later (same, empty) more = rw (same, empty) refl
  go_on-first_hit n queue (none, (left, false)) later (same, size) more = more size ∙ rw same refl

  -- However few keyframes a call searches: where the calls together may search more keyframes than
  -- the queue holds, the search ends, the queue is empty, and what it gives is the first sighting
  -- of a search of the whole queue in one piece, or none where that finds none.
  pub recall_calls-first_hit :
      (budget calls : ℕ) (queue : List Keyframe)
      → length queue < calls * max 1 budget
      → recall_calls budget calls queue ≡ (first_hit queue, ([], true))
  unfolding recall_calls run_recall
  recall_calls-first_hit budget zero queue h = absurd (omega arith)
  recall_calls-first_hit budget (suc calls) queue h =
      let r = run_recall v target budget queue in
      go_on-first_hit (max 1 budget) queue r (recall_calls budget calls r.1.0)
        (recall_loop-Searched (max 1 budget) queue)
        λ size. recall_calls-first_hit budget calls r.1.0 (grind arith)
