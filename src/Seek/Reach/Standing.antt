-- ===== src/Seek/Reach/Standing.antt =====
-- What `judge_reach` of robocam/seek.py promises of a target that it calls reachable.
use robo_cam_stream_processi.Seek.Reach.{
  may_stand, around, choose_approach, ReachEnvelope, judge_height, judge_standing, judge_reach,
  clear_at, Reach,
}
use robo_cam_stream_processi.Occupancy.Grid.{Grid}
use robo_cam_stream_processi.Occupancy.Array.{IsRect}
use robo_cam_stream_processi.Prelude.Int.{ℤ}
use robo_cam_stream_processi.Prelude.{
  List, ℕ, Bool, ◌≡◌, false, some, true, ◌∷◌, subst, some_inj, Option, Bool-cases, inl, refl, inr,
}
use mathlib.Core.List.{[]}
use mathlib.Core.Option.{none}
use robo_cam_stream_processi.Seek.Reach.Clearance.{StandsClear, cell_is_clear-StandsClear}

module _ {F Pose : Type 0} (cell_of : Grid F → Pose → ℤ × ℤ) (cells : Grid F → ℕ)
    (less : F → F → Bool) where
  -- Where there is a grid, the pose stands clear on it.
  pub StandsOn : Option (Grid F) → Pose → Type 0
  StandsOn none p = Unit
  StandsOn (some grid) p = StandsClear grid (cells grid) (cell_of grid p)

  abbrev pub RectGrid : Option (Grid F) → Type 0
  RectGrid none = Unit
  RectGrid (some grid) = IsRect grid.cells

  around-may_stand :
      (grid : Grid F) (ps : List Pose) (p : Pose)
      → (around cell_of cells less grid ps).0 ≡ some p
      → may_stand (clear_at cell_of cells less grid p) ≡ true
  unfolding around
  around-may_stand grid [] p e = absurd cc
  around-may_stand grid (q ∷ ps) p e =
      elim (Bool-cases (may_stand (clear_at cell_of cells less grid q))) [
        | inl free ↦
            let same : some q ≡ some p = simp free at e in
            subst (λ k. may_stand (clear_at cell_of cells less grid k) ≡ true) (some_inj same) free
        | inr blocked ↦ around-may_stand grid ps p (simp blocked at e)
      ]

  choose_approach-StandsOn :
      (grid : Option (Grid F)) (natural : Pose) (others : List Pose) (p : Pose)
      → RectGrid grid
      → (choose_approach cell_of cells less grid natural others).0 ≡ some p
      → StandsOn grid p
  unfolding choose_approach StandsOn
  choose_approach-StandsOn none natural others p rect e = tt
  choose_approach-StandsOn (some grid) natural others p rect e =
      cell_is_clear-StandsClear grid (cells grid) (cell_of grid p) rect
        (elim (Bool-cases (may_stand (clear_at cell_of cells less grid natural))) [
          | inl free ↦
              let same : some natural ≡ some p = simp free at e in
              subst (λ k. may_stand (clear_at cell_of cells less grid k) ≡ true) (some_inj same)
                free
          | inr blocked ↦ around-may_stand grid others p (simp blocked at e)
        ])

  -- The height is over the floor and within the gripper's envelope.
  abbrev pub Grasped : ReachEnvelope cell_of cells less → F → Type 0
  Grasped e z =
      (less z e.floor_tolerance_m ≡ false)
      × (less z e.grasp_z_min ≡ false)
      × (less e.grasp_z_max z ≡ false)

  judge_height-Grasped :
      (e : ReachEnvelope cell_of cells less) (z : F) (p : Pose)
      → (judge_height cell_of cells less e z p).reachable ≡ some true
      → Grasped e z × ((judge_height cell_of cells less e z p).approach ≡ some p)
  unfolding judge_height
  judge_height-Grasped e z p h = elim (Bool-cases (less z e.floor_tolerance_m)) [
    | inl under ↦ absurd (let no : some false ≡ some true = simp under at h in cc)
    | inr over ↦ elim (Bool-cases (less z e.grasp_z_min)) [
      | inl low ↦ absurd (let no : some false ≡ some true = simp (over, low) at h in cc)
      | inr fits ↦ elim (Bool-cases (less e.grasp_z_max z)) [
        | inl high ↦ absurd (let no : some false ≡ some true = simp (over, fits, high) at h in cc)
        | inr below ↦ simp (over, fits, below) ((refl, refl, refl), refl)
      ]
    ]
  ]

  -- What is promised of a target that can be reached.
  pub record Reachable (e : ReachEnvelope cell_of cells less) (z_known : Bool) (z : F)
      (grid : Option (Grid F)) (r : Reach cell_of cells less) : Type 0 where
    pub pose : Pose
    pub approach : r.approach ≡ some pose
    pub stands : StandsOn grid pose
    pub known : z_known ≡ true
    pub grasped : Grasped e z

  standing-Reachable :
      (e : ReachEnvelope cell_of cells less) (z : F) (grid : Option (Grid F)) (o : Option Pose)
      → ((p : Pose) → o ≡ some p → StandsOn grid p)
      → (judge_standing cell_of cells less e z o).reachable ≡ some true
      → Reachable e true z grid (judge_standing cell_of cells less e z o)
  unfolding judge_standing
  standing-Reachable e z grid none stands h = absurd cc
  standing-Reachable e z grid (some p) stands h =
      let (grasped, approach) = judge_height-Grasped e z p h in
      record {
        pose = p;
        approach = approach;
        stands = stands p refl;
        known = refl;
        grasped = grasped;
      }

  -- On a rectangular grid or none: a target is called reachable only where its height is known and
  -- over the floor and within the gripper's envelope, and there is a pose to stand at; and where
  -- that pose lies on the grid, no cell of the grid within the robot's radius of it is occupied.
  pub judge_reach-Reachable :
      (e : ReachEnvelope cell_of cells less) (z_known : Bool) (z : F) (grid : Option (Grid F))
      (natural : Pose) (others : List Pose)
      → RectGrid grid
      → (judge_reach cell_of cells less e z_known z grid natural others).reachable ≡ some true
      → Reachable e z_known z grid (judge_reach cell_of cells less e z_known z grid natural others)
  unfolding judge_reach
  judge_reach-Reachable e false z grid natural others rect h = absurd cc
  judge_reach-Reachable e true z grid natural others rect h =
      standing-Reachable e z grid (choose_approach cell_of cells less grid natural others).0
        (λ p q. choose_approach-StandsOn grid natural others p rect q) h
