-- ===== src/Seek/Tests.antt =====
-- The theorems on the keyframes and the target's memory, on short runs.
mod Judging
use robo_cam_stream_processi.Seek.Keyframes.{IsStore, add_all, empty_store, add_all-IsStore}
use robo_cam_stream_processi.Seek.Memory.{
  Sighting, TargetMemory, remember_all, recall, recall-Answers, Among, Answers, remember, live,
}
use robo_cam_stream_processi.Prelude.{ℕ, ◌∷◌, Bool, [], leb, ◌+◌, none, refl}

abbrev far : ℕ → ℕ → Bool
far a b = leb (a + 3) b

bounded_frames :
    IsStore (λ k. k) far (add_all (λ k. k) far (1 ∷ 2 ∷ 5 ∷ 9 ∷ []) (empty_store (λ k. k) far 2))
bounded_frames = add_all-IsStore (λ k. k) far (1 ∷ 2 ∷ 5 ∷ 9 ∷ []) 2

abbrev mug : Sighting ℕ ℕ leb
mug = record {
  target = "mug";
  map_id = "room";
  confidence = 70;
  seen_at = 5;
  basis = live;
  spot = 3;
}

abbrev memory : TargetMemory ℕ ℕ leb
memory = record { ttl = 900; prefer_newer_after = 20; best = none; updates = 0 }

mug_again :
    Among ℕ ℕ leb mug (mug ∷ [])
    × Answers ℕ ℕ leb (remember_all ℕ ℕ leb (mug ∷ []) memory).ttl "mug" "room" 400 mug
unfolding recall remember_all remember
mug_again = recall-Answers ℕ ℕ leb (mug ∷ []) memory "mug" "room" 400 mug refl refl
