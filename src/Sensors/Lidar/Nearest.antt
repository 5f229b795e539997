-- ===== src/Sensors/Lidar/Nearest.antt =====
-- What a revolution's bins hold: `SerialLdsSource.scans` of link/robocam_client.py against the
-- rule that the nearest return of a bin wins.
use robo_cam_stream_processi.Sensors.Lidar.{Point}
use robo_cam_stream_processi.Sensors.Lidar.Sweep.{Sweep, cleared, bin_index, add_point, add_points}
use robo_cam_stream_processi.Prelude.{
  ℕ, List, ◌∷◌, length, Option, ◌<◌, ◌≡◌, if◌then◌else◌, length-replicate, get_or, ◌==◌, sym, set,
  refl, ◌+◌, arith, ap, inl, subst, ◌∙◌, inr, ◌≤◌, length-set,
}
use mathlib.Core.List.{[]}
use robo_cam_stream_processi.Sensors.Lidar.Bins.{
  nearer, returns, returns-replicate, dec_zero, set_bins, keep_bins, nearer_none, returns-new,
  nearer_first, compare_cases, returns-old, nearer-min,
}

module _ (points : ℕ) (rounded : ℕ → ℕ → ℕ → ℕ) where
  -- The nearest return among the points of a bin, from what the bin held before.
  unfoldable pub nearest : ℕ → List Point → ℕ → ℕ
  nearest bin [] held = held
  nearest bin (p ∷ ps) held =
      nearest bin ps (if bin_index points rounded p == bin then nearer held p.distance_mm else held)

  -- The tables have a place for each bin, and `filled` is how many bins hold a return.
  abbrev pub IsSwept : Sweep → Type 0
  IsSwept w =
      (length w.ranges ≡ points) × (length w.intensities ≡ points) × (w.filled ≡ returns w.ranges)

  pub cleared-IsSwept : (last : Option ℕ) → IsSwept (cleared points rounded last)
  unfolding cleared
  cleared-IsSwept last =
      (length-replicate points 0, length-replicate points 0, sym (returns-replicate points))

  -- What one point does to the bins.
  abbrev Effect : Point → Sweep → Sweep → Type 0
  Effect p w w' =
      IsSwept w'
      × (w'.last_start_cdeg ≡ w.last_start_cdeg)
      × ((bin : ℕ)
          → get_or w'.ranges bin 0 ≡ (
              if bin_index points rounded p == bin
              then nearer (get_or w.ranges bin 0) p.distance_mm
              else get_or w.ranges bin 0))

  module _ (p : Point) (w : Sweep) (h : 0 < points) (swept : IsSwept w) where
    abbrev index : ℕ
    index = bin_index points rounded p

    in_range : index < length w.ranges
    unfolding bin_index
    in_range = omega (arith, h, swept)

    abbrev placed : ℕ → ℕ → Sweep
    placed d n = record {
      ranges = set w.ranges index d;
      intensities = set w.intensities index p.intensity;
      filled = n;
      last_start_cdeg = w.last_start_cdeg;
    }

    step_no_return : p.distance_mm ≡ 0 → add_point points rounded p w ≡ w
    unfolding add_point
    step_no_return z = ground (arith, z)

    step_new :
        0 < p.distance_mm
        → get_or w.ranges index 0 ≡ 0
        → add_point points rounded p w ≡ placed p.distance_mm (w.filled + 1)
    unfolding add_point
    step_new d z = ground (arith, d, z)

    step_nearer :
        0 < p.distance_mm
        → p.distance_mm < get_or w.ranges index 0
        → add_point points rounded p w ≡ placed p.distance_mm w.filled
    unfolding add_point
    step_nearer d n = ground (arith, d, n)

    step_farther :
        0 < get_or w.ranges index 0
        → get_or w.ranges index 0 ≤ p.distance_mm
        → add_point points rounded p w ≡ w
    unfolding add_point
    step_farther d n = ground (arith, d, n)

    placed-Effect :
        (n : ℕ)
        → n ≡ returns (set w.ranges index p.distance_mm)
        → p.distance_mm ≡ nearer (get_or w.ranges index 0) p.distance_mm
        → Effect p w (placed p.distance_mm n)
    placed-Effect n filled nearest_wins =
        let (lr, li, _) = swept in
        (
          (
            length-set w.ranges index p.distance_mm ∙ lr,
            length-set w.intensities index p.intensity ∙ li,
            filled,
          ),
          refl,
          set_bins w.ranges index p.distance_mm p.distance_mm in_range nearest_wins,
        )

    kept-Effect :
        get_or w.ranges index 0 ≡ nearer (get_or w.ranges index 0) p.distance_mm → Effect p w w
    kept-Effect e = (swept, refl, keep_bins w.ranges index p.distance_mm e)

    -- The four things that can happen to a point.
    add_point-Effect : Effect p w (add_point points rounded p w)
    add_point-Effect = elim (dec_zero p.distance_mm) [
      | inl z ↦
          subst (Effect p w) (sym (step_no_return z)) (kept-Effect (rw z (sym (nearer_none _))))
      | inr d ↦ elim (dec_zero (get_or w.ranges index 0)) [
        | inl e ↦ subst (Effect p w) (sym (step_new d e)) (
            placed-Effect (w.filled + 1)
              (omega (arith, swept.2, returns-new w.ranges index p.distance_mm d in_range e))
              (rw e (sym (nearer_first p.distance_mm))))
        | inr k ↦ elim (compare_cases p.distance_mm (get_or w.ranges index 0)) [
          | inl n ↦ subst (Effect p w) (sym (step_nearer d n)) (
              placed-Effect w.filled
                (omega (arith, swept.2, returns-old w.ranges index p.distance_mm d k))
                (omega (arith, nearer-min (get_or w.ranges index 0) p.distance_mm k d, n)))
          | inr n ↦ subst (Effect p w) (sym (step_farther k n)) (
              kept-Effect
                (omega (arith, nearer-min (get_or w.ranges index 0) p.distance_mm k d, n)))
        ]
      ]
    ]

  -- With at least one bin and from a table that the invariant holds of, after a packet's points each bin holds the nearest
  -- return among those of the points that fall into it and what it held before; the invariant
  -- holds again.
  pub add_points-nearest :
      (ps : List Point) (w : Sweep)
      → 0 < points
      → IsSwept w
      → IsSwept (add_points points rounded ps w)
        × ((bin : ℕ)
            → get_or (add_points points rounded ps w).ranges bin 0
              ≡ nearest bin ps (get_or w.ranges bin 0))
  unfolding add_points nearest
  add_points-nearest [] w h swept = (swept, λ bin. refl)
  add_points-nearest (p ∷ ps) w h swept =
      let (swept', _, effect) = add_point-Effect p w h swept in
      let (done, bins) = add_points-nearest ps (add_point points rounded p w) h swept' in
      (done, λ bin. bins bin ∙ ap (nearest bin ps) (effect bin))
