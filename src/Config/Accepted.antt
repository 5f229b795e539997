-- ===== src/Config/Accepted.antt =====
-- Which configurations `Config.from_dict` of robocam/config.py accepts.
use robo_cam_stream_processi.Config.Sections.{
  QueueConfig, MapConfig, ProcessorConfig, LidarConfig, ImuConfig, OdomConfig, CompareConfig,
  MissionConfig, SeekConfig, Config,
}
use robo_cam_stream_processi.Config.Checks.{
  Floats, Check, first_failure, one_of, queue_checks, map_checks, processor_checks, lidar_checks,
  imu_checks, odom_checks, compare_checks, mission_checks, seek_checks, zero_f, one_f,
}
use robo_cam_stream_processi.Config.Load.{
  Raw, bad_section, section_of, checks_of, ConfigError, refused, build, from_dict, all_known,
  valid_keys, unknown_sections,
}
use robo_cam_stream_processi.Prelude.{
  List, [], none, ◌∷◌, ◌≡◌, String, false, ◌↔◌, ◌≢◌, refl, arith, some, Option, length, inr, Bool,
  if◌then◌else◌, not, inl, ◌⊎◌, sym,
}
use robo_cam_stream_processi.Prelude.Dict.{Dict}
use mathlib.Core.Bool.{true}
use robo_cam_stream_processi.Prelude.Int.{pos, ◌≤ℤ◌}

some_differs : {A : Type 0} {a : A} → some a ≢ none
some_differs e = absurd cc

true_differs : true ≢ false
true_differs e = absurd cc

-- No test of a list holds.
abbrev pub AllPass : List Check → Type 0
AllPass [] = Unit
AllPass ((test, message) ∷ rest) = (test ≡ false) × AllPass rest

first_failure-AllPass : (checks : List Check) → (first_failure checks ≡ none) ↔ AllPass checks
unfolding first_failure
first_failure-AllPass [] = (λ _. tt, λ _. refl)
first_failure-AllPass ((true, message) ∷ rest) = (λ e. absurd cc, λ h. absurd (true_differs h.0))
first_failure-AllPass ((false, message) ∷ rest) =
    (λ e. (refl, (first_failure-AllPass rest).0 e), λ h. (first_failure-AllPass rest).1 h.1)

-- The sections that are there are mappings with keys that exist.
abbrev pub AllSections : Raw → Dict String (List String) → Type 0
AllSections raw [] = Unit
AllSections raw ((name, valid) ∷ rest) =
    (bad_section name valid (section_of name raw) ≡ none) × AllSections raw rest

module _ (f : Floats) (O : Type 0) where
  open f use {F, lt, le, of_int}

  -- A queue that holds a frame at least, and a policy that exists.
  abbrev pub QueueBounds : QueueConfig F O → Type 0
  QueueBounds c = (one_of c.drop_policy ("oldest" ∷ "newest" ∷ []) ≡ true) × (pos 1 ≤ℤ c.max_depth)

  queue-bounds : (c : QueueConfig F O) → AllPass (queue_checks f O c) ↔ QueueBounds c
  unfolding queue_checks
  queue-bounds c = ground arith

  abbrev pub MapBounds : MapConfig F O → Type 0
  MapBounds c =
      (pos 1 ≤ℤ c.max_cells)
      × (one_of c.merge ("max" ∷ "replace" ∷ []) ≡ true)
      × (pos 0 ≤ℤ c.occupied_value)
      × (c.occupied_value ≤ℤ pos 100)

  map-bounds : (c : MapConfig F O) → AllPass (map_checks f O c) ↔ MapBounds c
  unfolding map_checks
  map-bounds c = ground arith

  abbrev pub ProcessorBounds : ProcessorConfig F O → Type 0
  ProcessorBounds c = (pos 1 ≤ℤ c.workers)

  processor-bounds :
      (c : ProcessorConfig F O) → AllPass (processor_checks f O c) ↔ ProcessorBounds c
  unfolding processor_checks
  processor-bounds c = ground arith

  abbrev pub LidarBounds : LidarConfig F O → Type 0
  LidarBounds c =
      (pos 1 ≤ℤ c.sectors)
      × (pos 1 ≤ℤ c.fov_bins)
      × (lt (zero_f f O) c.camera_hfov_deg ≡ true)
      × (lt c.camera_hfov_deg (of_int (pos 180)) ≡ true)
      × (le c.front_deg (zero_f f O) ≡ false)
      × (lt (of_int (pos 360)) c.front_deg ≡ false)

  lidar-bounds : (c : LidarConfig F O) → AllPass (lidar_checks f O c) ↔ LidarBounds c
  unfolding lidar_checks
  lidar-bounds c = ground arith

  abbrev pub ImuBounds : ImuConfig F O → Type 0
  ImuBounds c =
      (lt c.still_gyro_dps (zero_f f O) ≡ false)
      × (lt c.still_accel_ms2 (zero_f f O) ≡ false)
      × (lt (zero_f f O) c.tilt_warn_deg ≡ true)
      × (le c.tilt_warn_deg (of_int (pos 180)) ≡ true)
      × (le c.shock_ms2 (zero_f f O) ≡ false)

  imu-bounds : (c : ImuConfig F O) → AllPass (imu_checks f O c) ↔ ImuBounds c
  unfolding imu_checks
  imu-bounds c = ground arith

  abbrev pub OdomBounds : OdomConfig F O → Type 0
  OdomBounds c = (lt c.stale_after_ms (zero_f f O) ≡ false)

  odom-bounds : (c : OdomConfig F O) → AllPass (odom_checks f O c) ↔ OdomBounds c
  unfolding odom_checks
  odom-bounds c = ground arith

  abbrev pub CompareBounds : CompareConfig F O → Type 0
  CompareBounds c =
      (le c.z_max c.z_min ≡ false)
      × (pos 1 ≤ℤ c.min_points)
      × (pos 0 ≤ℤ c.search_cells)
      × (le c.region_block_m (zero_f f O) ≡ false)
      × (pos 1 ≤ℤ c.region_min_cells)
      × (pos 0 ≤ℤ c.max_regions)

  compare-bounds : (c : CompareConfig F O) → AllPass (compare_checks f O c) ↔ CompareBounds c
  unfolding compare_checks
  compare-bounds c = ground arith

  abbrev pub MissionBounds : MissionConfig F O → Type 0
  MissionBounds c =
      (one_of c.phase ("t1" ∷ "t2" ∷ []) ≡ true)
      × (lt c.min_exit_width_m (zero_f f O) ≡ false)
      × (le (zero_f f O) c.t1_min_explored ≡ true)
      × (le c.t1_min_explored (one_f f O) ≡ true)

  mission-bounds : (c : MissionConfig F O) → AllPass (mission_checks f O c) ↔ MissionBounds c
  unfolding mission_checks
  mission-bounds c = ground arith

  abbrev pub SeekBounds : SeekConfig F O → Type 0
  SeekBounds c =
      (pos 1 ≤ℤ c.detect_every_n)
      × (le c.grasp_z_max c.grasp_z_min ≡ false)
      × (lt c.grasp_z_min c.floor_tolerance_m ≡ false)
      × (pos 1 ≤ℤ c.min_points)
      × (lt (zero_f f O) c.box_keep_frac ≡ true)
      × (le c.box_keep_frac (one_f f O) ≡ true)

  seek-bounds : (c : SeekConfig F O) → AllPass (seek_checks f O c) ↔ SeekBounds c
  unfolding seek_checks
  seek-bounds c = ground arith

  -- What a configuration has to satisfy, section by section.
  abbrev pub IsBounded : Config F O → Type 0
  IsBounded c =
      QueueBounds c.queue
      × ProcessorBounds c.processor
      × LidarBounds c.lidar
      × ImuBounds c.imu
      × OdomBounds c.odom
      × MapBounds c.map
      × CompareBounds c.compare
      × MissionBounds c.mission
      × SeekBounds c.seek

  -- No section's check holds.
  abbrev EachPasses : List (List Check) → Type 0
  EachPasses [] = Unit
  EachPasses (checks ∷ rest) = AllPass checks × EachPasses rest

  bounds-checks : (c : Config F O) → EachPasses (checks_of f O c) ↔ IsBounded c
  unfolding checks_of
  bounds-checks c = (
    λ (_, (q, (p, (l, (i, (o, (m, (k, (n, (s, _)))))))))). (
      (queue-bounds c.queue).0 q,
      (processor-bounds c.processor).0 p,
      (lidar-bounds c.lidar).0 l,
      (imu-bounds c.imu).0 i,
      (odom-bounds c.odom).0 o,
      (map-bounds c.map).0 m,
      (compare-bounds c.compare).0 k,
      (mission-bounds c.mission).0 n,
      (seek-bounds c.seek).0 s,
    ),
    λ (q, p, l, i, o, m, k, n, s). (
      tt,
      (
        (queue-bounds c.queue).1 q,
        (
          (processor-bounds c.processor).1 p,
          (
            (lidar-bounds c.lidar).1 l,
            (
              (imu-bounds c.imu).1 i,
              (
                (odom-bounds c.odom).1 o,
                (
                  (map-bounds c.map).1 m,
                  (
                    (compare-bounds c.compare).1 k,
                    ((mission-bounds c.mission).1 n, ((seek-bounds c.seek).1 s, (tt, (tt, tt)))),
                  ),
                ),
              ),
            ),
          ),
        ),
      ),
    ),
  )

  -- No section's constructor raises.
  abbrev pub AllConstruct : List (List Check) → Type 0
  AllConstruct [] = Unit
  AllConstruct (checks ∷ rest) = (first_failure checks ≡ none) × AllConstruct rest

  construct-passes : (checks : List (List Check)) → AllConstruct checks ↔ EachPasses checks
  construct-passes [] = (λ _. tt, λ _. tt)
  construct-passes (checks ∷ rest) =
      let here = first_failure-AllPass checks in
      let there = construct-passes rest in
      (λ (e, es). (here.0 e, there.0 es), λ (p, ps). (here.1 p, there.1 ps))

  -- The checks of all the sections' `__post_init__` let a configuration pass exactly when every
  -- section's values are within its bounds.
  pub checks_of-IsBounded : (c : Config F O) → AllConstruct (checks_of f O c) ↔ IsBounded c
  checks_of-IsBounded c =
      let passes = construct-passes (checks_of f O c) in
      let bounds = bounds-checks c in (λ h. bounds.0 (passes.0 h), λ h. passes.1 (bounds.1 h))

  step :
      (e : Option ConfigError) (m : Option String) (rest : Option ConfigError)
      → (elim e [
        | some x ↦ some x
        | none ↦ elim m [ some message ↦ some (refused message) | none ↦ rest ]
      ]
          ≡ none)
        ↔ (e ≡ none) × (m ≡ none) × (rest ≡ none)
  step none none rest = (λ h. (refl, refl, h), λ h. h.2)
  step none (some m) rest = (λ h. absurd cc, λ h. absurd (some_differs h.1))
  step (some e) m rest = (λ h. absurd cc, λ h. absurd (some_differs h.0))

  build-none :
      (raw : Raw) (names : Dict String (List String)) (checks : List (List Check))
      → length names ≡ length checks
      → (build f O raw names checks ≡ none) ↔ AllSections raw names × EachPasses checks
  unfolding build
  build-none raw [] [] e = (λ _. (tt, tt), λ _. refl)
  build-none raw [] (checks ∷ later) e = absurd (omega (arith, e))
  build-none raw ((name, valid) ∷ rest) [] e = absurd (omega (arith, e))
  build-none raw ((name, valid) ∷ rest) (checks ∷ later) e =
      let here =
        step (bad_section name valid (section_of name raw)) (first_failure checks)
          (build f O raw rest later) in
      let there = build-none raw rest later (omega (arith, e)) in
      let passes = first_failure-AllPass checks in
      (
        λ h. (
          ((here.0 h).0, (there.0 (here.0 h).2).0),
          (passes.0 (here.0 h).1, (there.0 (here.0 h).2).1),
        ),
        λ ((s, ss), (p, ps)). here.1 (s, passes.1 p, there.1 (ss, ps)),
      )

  accepted :
      (known : Bool) (e : Option ConfigError) (built : Config F O)
      → ((if not known
            then inl unknown_sections
            else elim e as (λ _. ConfigError ⊎ Config F O) [ some x ↦ inl x | none ↦ inr built ])
          ≡ inr built)
        ↔ (known ≡ true) × (e ≡ none)
  accepted true none built = (λ _. (refl, refl), λ _. refl)
  accepted true (some e) built = (λ h. absurd cc, λ h. absurd (some_differs h.1))
  accepted false e built = (λ h. absurd cc, λ h. absurd (true_differs (sym h.0)))

  twelve : (c : Config F O) → length valid_keys ≡ length (checks_of f O c)
  unfolding checks_of
  twelve c = refl

  -- What the dataclasses made is returned exactly when the tests of the sections' and keys' names
  -- pass and its values are within the bounds of their sections.
  pub from_dict-accepts :
      (raw : Raw) (built : Config F O)
      → (from_dict f O raw built ≡ inr built)
        ↔ (all_known raw valid_keys ≡ true) × AllSections raw valid_keys × IsBounded built
  unfolding from_dict
  from_dict-accepts raw built =
      let outcome =
        accepted (all_known raw valid_keys) (build f O raw valid_keys (checks_of f O built))
          built in
      let sections = build-none raw valid_keys (checks_of f O built) (twelve built) in
      let bounds = bounds-checks built in
      (
        λ h. (
          (outcome.0 h).0,
          (sections.0 (outcome.0 h).1).0,
          bounds.0 (sections.0 (outcome.0 h).1).1,
        ),
        λ (k, s, b). outcome.1 (k, sections.1 (s, bounds.1 b)),
      )
