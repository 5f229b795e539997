-- ===== src/Seek/Memory.antt =====
-- `TargetMemory` of robocam/seek.py: one slot for the best sighting. Confidences are floats, a
-- parameter with the test `at_least`; where the target is, in `Spot`, is floats too; times are nanoseconds, `age_s` being how long ago.
use robo_cam_stream_processi.Prelude.{
  Bool, String, ℕ, if◌then◌else◌, none, List, Option, not, some, ◌∷◌, ◌≡◌, str_eq, ◌||◌, true, ◌+◌,
  ◌==◌, ◌&&◌, ◌⊎◌, leb, false, ltb, ◌≤◌, eq_iff, inl, refl, Bool-cases, sym, ap, inr, arith,
  some_inj, subst, ◌∙◌,
}
use mathlib.Core.List.{[]}

-- BASIS_LIVE, BASIS_MEMORY
pub data Basis : Type 0 where
  live memory : Basis

module _ (Confidence Spot : Type 0) (at_least : Confidence → Confidence → Bool) where
  pub record Sighting : Type 0 where
    pub target : String
    pub map_id : String
    pub confidence : Confidence
    pub seen_at : ℕ
    pub basis : Basis
    pub spot : Spot

  pub record TargetMemory : Type 0 where
    pub ttl : ℕ
    pub prefer_newer_after : ℕ
    pub best : Option Sighting
    pub updates : ℕ

  beats : ℕ → Sighting → Sighting → Bool
  beats prefer_newer_after s held =
      not (str_eq held.target s.target)
      || (at_least s.confidence held.confidence
          || leb (held.seen_at + prefer_newer_after) s.seen_at)

  replaces : ℕ → Sighting → Option Sighting → Bool
  unfolding beats
  replaces prefer_newer_after s none = true
  replaces prefer_newer_after s (some held) = beats prefer_newer_after s held

  -- The memory and whether it took the sighting.
  unfoldable pub remember : Sighting → TargetMemory → TargetMemory × Bool
  unfolding replaces
  remember s m =
      if replaces m.prefer_newer_after s m.best
      then (record m { best = some s; updates = m.updates + 1 }, true)
      else (m, false)

  -- A sighting stamped 0 has no age.
  expired : ℕ → ℕ → Sighting → Bool
  expired ttl now held = not (ttl == 0) && (not (held.seen_at == 0) && ltb (held.seen_at + ttl) now)

  still : ℕ → String → String → ℕ → Sighting → Option Sighting
  unfolding expired
  still ttl target map_id now held =
      if not (str_eq target "") && not (str_eq held.target target)
      then none
      else if not (str_eq map_id "")
          && (not (str_eq held.map_id "") && not (str_eq held.map_id map_id))
      then none
      else if expired ttl now held
      then none
      else some held

  recalled : ℕ → String → String → ℕ → Option Sighting → Option Sighting
  unfolding still
  recalled ttl target map_id now none = none
  recalled ttl target map_id now (some held) = still ttl target map_id now held

  unfoldable pub recall : String → String → ℕ → TargetMemory → Option Sighting
  unfolding recalled
  recall target map_id now m = recalled m.ttl target map_id now m.best

  pub forget : TargetMemory → TargetMemory
  forget m = record m { best = none }

  unfoldable pub remember_all : List Sighting → TargetMemory → TargetMemory
  remember_all [] m = m
  remember_all (s ∷ ss) m = remember_all ss (remember s m).0

  -- The sighting was one of these.
  abbrev pub Among : Sighting → List Sighting → Type 0
  Among h [] = ⊥
  Among h (s ∷ ss) = (h ≡ s) ⊎ Among h ss

  -- It answers the question: its target, its map and its age.
  pub record Answers (ttl : ℕ) (target map_id : String) (now : ℕ) (h : Sighting) : Type 0 where
    pub of_target : (target ≡ "") ⊎ (h.target ≡ target)
    pub of_map : (map_id ≡ "") ⊎ ((h.map_id ≡ "") ⊎ (h.map_id ≡ map_id))
    pub in_time : (ttl ≡ 0) ⊎ ((h.seen_at ≡ 0) ⊎ (now ≤ h.seen_at + ttl))

  said : (a b : String) → str_eq a b ≡ true → a ≡ b
  said a b e = (eq_iff a b).0 e

  let_through :
      (b : Bool) (x : Option Sighting) (h : Sighting)
      → (if b then none else x) ≡ some h
      → (b ≡ false) × (x ≡ some h)
  let_through true x h e = absurd cc
  let_through false x h e = (refl, e)

  -- What `a and b != c` being false says, `a` being that a word is not empty.
  one_of :
      (given word want : String)
      → (not (str_eq given "") && not (str_eq word want)) ≡ false
      → (given ≡ "") ⊎ (word ≡ want)
  one_of given word want e = elim (Bool-cases (str_eq given "")) [
    | inl bare ↦ inl (said given "" bare)
    | inr asked ↦ elim (Bool-cases (str_eq word want)) [
      | inl same ↦ inr (said word want same)
      | inr other ↦ absurd (ground (arith, e, asked, other))
    ]
  ]

  one_of_two :
      (given held : String)
      → (not (str_eq given "") && (not (str_eq held "") && not (str_eq held given))) ≡ false
      → (given ≡ "") ⊎ ((held ≡ "") ⊎ (held ≡ given))
  one_of_two given held e = elim (Bool-cases (str_eq given "")) [
    | inl bare ↦ inl (said given "" bare)
    | inr asked ↦ inr (one_of held held given (ground (arith, e, asked)))
  ]

  still-Answers :
      (ttl : ℕ) (target map_id : String) (now : ℕ) (held h : Sighting)
      → still ttl target map_id now held ≡ some h
      → (h ≡ held) × Answers ttl target map_id now held
  unfolding still expired
  still-Answers ttl target map_id now held h e =
      let (target_fits, f) =
        let_through (not (str_eq target "") && not (str_eq held.target target)) _ h e in
      let (map_fits, g) =
        let_through
          (not (str_eq map_id "")
            && (not (str_eq held.map_id "") && not (str_eq held.map_id map_id)))
          _ h f in
      let (young, i) = let_through (expired ttl now held) _ h g in
      (
        sym (some_inj i),
        record {
          of_target = one_of target held.target target target_fits;
          of_map = one_of_two map_id held.map_id map_fits;
          in_time = ground (arith, young);
        },
      )

  recalled-Answers :
      (ttl : ℕ) (target map_id : String) (now : ℕ) (best : Option Sighting) (h : Sighting)
      → recalled ttl target map_id now best ≡ some h
      → (best ≡ some h) × Answers ttl target map_id now h
  unfolding recalled
  recalled-Answers ttl target map_id now none h e = absurd cc
  recalled-Answers ttl target map_id now (some held) h e =
      let (same, a) = still-Answers ttl target map_id now held h e in
      (ap some (sym same), subst (Answers ttl target map_id now) (sym same) a)

  -- Asked for a target, `recall` gives that target.
  pub recall-target :
      (target map_id : String) (now : ℕ) (m : TargetMemory) (h : Sighting)
      → str_eq target "" ≡ false
      → recall target map_id now m ≡ some h
      → h.target ≡ target
  unfolding recall
  recall-target target map_id now m h named e =
      elim (recalled-Answers m.ttl target map_id now m.best h e).1.of_target [
        | inl bare ↦ let same : str_eq target "" ≡ true = (eq_iff target "").1 bare in absurd cc
        | inr this ↦ this
      ]

  taken :
      (s : Sighting) (ss : List Sighting) (m : TargetMemory) (h : Sighting)
      → (remember s m).0.best ≡ some h
      → (m.best ≡ some h) ⊎ Among h (s ∷ ss)
  unfolding remember
  taken s ss m h e = elim (Bool-cases (replaces m.prefer_newer_after s m.best)) [
    | inl better ↦ let p : some s ≡ some h = simp better at e in inr (inl (sym (some_inj p)))
    | inr worse ↦ inl (simp worse at e)
  ]

  remember_all-Among :
      (ss : List Sighting) (m : TargetMemory) (h : Sighting)
      → (remember_all ss m).best ≡ some h
      → (m.best ≡ some h) ⊎ Among h ss
  unfolding remember_all
  remember_all-Among [] m h e = inl e
  remember_all-Among (s ∷ ss) m h e = elim (remember_all-Among ss (remember s m).0 h e) [
    | inr later ↦ inr (inr later)
    | inl now ↦ taken s ss m h now
  ]

  -- From an empty memory, what `recall` gives after any sightings is one of them, and it is of the
  -- target and of the map that were asked for (a word that is empty asks for none, and a sighting
  -- without a map fits any), and no older than the time to live.
  pub recall-Answers :
      (ss : List Sighting) (m : TargetMemory) (target map_id : String) (now : ℕ) (h : Sighting)
      → m.best ≡ none
      → recall target map_id now (remember_all ss m) ≡ some h
      → Among h ss × Answers (remember_all ss m).ttl target map_id now h
  unfolding recall
  recall-Answers ss m target map_id now h bare e =
      let held = remember_all ss m in
      let (best, a) = recalled-Answers held.ttl target map_id now held.best h e in
      (
        elim (remember_all-Among ss m h best) [
          | inl old ↦ absurd (let x : none ≡ some h = sym bare ∙ old in cc)
          | inr among ↦ among
        ],
        a,
      )
