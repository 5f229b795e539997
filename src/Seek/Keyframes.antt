-- ===== src/Seek/Keyframes.antt =====
-- `KeyframeStore` of robocam/seek.py. Whether two poses are far enough apart is the parameter `far`:
-- a distance or a turn between floats.
use mathlib.Core.List.{reverse}
use robo_cam_stream_processi.Prelude.{
  Bool, ℕ, Option, if◌then◌else◌, [], List, length, Bool-cases, none, true, ◌∷◌, not, ◌≤◌, ◌≡◌, inl,
  arith, some, ltb, ◌+◌, if_both, ◌++◌, false, subst, inr, ◌-◌, refl,
}

module _ {Pose Keyframe : Type 0} (pose : Keyframe → Pose) (far : Pose → Pose → Bool) where
  -- `_last_xy` and `_last_yaw` are one pose.
  pub record KeyframeStore : Type 0 where
    pub max_frames : ℕ
    pub frames : List Keyframe
    pub last : Option Pose
    pub considered : ℕ
    pub stored : ℕ
    pub evicted : ℕ

  pub empty_store : ℕ → KeyframeStore
  empty_store max_frames = record {
    max_frames = max_frames;
    frames = [];
    last = none;
    considered = 0;
    stored = 0;
    evicted = 0;
  }

  should_keep_after : Option Pose → Pose → Bool
  should_keep_after none p = true
  should_keep_after (some last) p = far last p

  pub should_keep : KeyframeStore → Pose → Bool
  unfolding should_keep_after
  should_keep s p = should_keep_after s.last p

  -- `while len(self._frames) > self.max_frames: pop(0)`
  evict : ℕ → List Keyframe → List Keyframe
  evict max_frames [] = []
  evict max_frames (k ∷ ks) =
      let rest = evict max_frames ks in if ltb max_frames (length (k ∷ ks)) then rest else k ∷ ks

  unfoldable pub add : Keyframe → KeyframeStore → KeyframeStore × Bool
  unfolding should_keep evict
  add k s =
      if not (should_keep s (pose k))
      then (record s { considered = s.considered + 1 }, false)
      else (
        record s {
          considered = s.considered + 1;
          frames = evict s.max_frames (s.frames ++ k ∷ []);
          last = some (pose k);
          stored = s.stored + 1;
          evicted =
              s.evicted
              + (length (s.frames ++ k ∷ []) - length (evict s.max_frames (s.frames ++ k ∷ [])));
        },
        true,
      )

  pub clear : KeyframeStore → KeyframeStore
  clear s = record s { frames = []; last = none }

  -- The order of the search.
  unfoldable pub newest_first : KeyframeStore → List Keyframe
  newest_first s = reverse s.frames

  -- Each frame is far from the one before it, and the last one stands at `last`.
  pub Thinned : List Keyframe → Option Pose → Type 0
  Thinned [] last = Unit
  Thinned (k ∷ []) last = last ≡ some (pose k)
  Thinned (k ∷ j ∷ ks) last = (far (pose k) (pose j) ≡ true) × Thinned (j ∷ ks) last

  pub record IsStore (s : KeyframeStore) : Type 0 where
    pub bounded : length s.frames ≤ s.max_frames
    pub thinned : Thinned s.frames s.last

  Thinned-tail :
      (k : Keyframe) (ks : List Keyframe) (last : Option Pose)
      → Thinned (k ∷ ks) last
      → Thinned ks last
  unfolding Thinned
  Thinned-tail k [] last t = tt
  Thinned-tail k (j ∷ ks) last t = t.1

  Thinned-evict :
      (n : ℕ) (ks : List Keyframe) (last : Option Pose)
      → Thinned ks last
      → Thinned (evict n ks) last
  unfolding evict
  Thinned-evict n [] last t = t
  Thinned-evict n (k ∷ ks) last t =
      if_both (λ (xs : List Keyframe). Thinned xs last) (ltb n (length (k ∷ ks)))
        (Thinned-evict n ks last (Thinned-tail k ks last t)) t

  length-evict : (n : ℕ) (ks : List Keyframe) → length (evict n ks) ≤ n
  unfolding evict
  length-evict n [] = omega arith
  length-evict n (k ∷ ks) = ground (arith, length-evict n ks)

  Thinned-append :
      (ks : List Keyframe) (last : Option Pose) (k : Keyframe)
      → Thinned ks last
      → should_keep_after last (pose k) ≡ true
      → Thinned (ks ++ k ∷ []) (some (pose k))
  unfolding Thinned should_keep_after
  Thinned-append [] last k t e = refl
  Thinned-append (j ∷ []) last k t e = (subst (λ l. should_keep_after l (pose k) ≡ true) t e, refl)
  Thinned-append (j ∷ i ∷ ks) last k (f, t) e = (f, Thinned-append (i ∷ ks) last k t e)

  add-IsStore : (k : Keyframe) (s : KeyframeStore) → IsStore s → IsStore (add k s).0
  unfolding add should_keep
  add-IsStore k s v = elim (Bool-cases (should_keep s (pose k))) [
    | inl keep ↦ simp keep (record {
      bounded = length-evict s.max_frames (s.frames ++ k ∷ []);
      thinned =
          Thinned-evict s.max_frames (s.frames ++ k ∷ []) (some (pose k))
            (Thinned-append s.frames s.last k v.thinned keep);
    })
    | inr skip ↦ simp skip (record { bounded = v.bounded; thinned = v.thinned })
  ]

  unfoldable pub add_all : List Keyframe → KeyframeStore → KeyframeStore
  add_all [] s = s
  add_all (k ∷ ks) s = add_all ks (add k s).0

  from-IsStore : (ks : List Keyframe) (s : KeyframeStore) → IsStore s → IsStore (add_all ks s)
  unfolding add_all
  from-IsStore [] s v = v
  from-IsStore (k ∷ ks) s v = from-IsStore ks (add k s).0 (add-IsStore k s v)

  -- After any number of frames the store holds at most `max_frames` of them, and each that it
  -- holds was taken far enough from the one that it holds before it, evictions included.
  pub add_all-IsStore :
      (ks : List Keyframe) (max_frames : ℕ) → IsStore (add_all ks (empty_store max_frames))
  unfolding empty_store Thinned
  add_all-IsStore ks max_frames =
      from-IsStore ks (empty_store max_frames) (record { bounded = omega arith; thinned = tt })
