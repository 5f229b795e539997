-- ===== src/Seek/Criteria.antt =====
-- `t1_exit_criteria` of robocam/seek.py: is the first scan done, and what blocks it. Floats are the
-- parameter `F` with `at_least`, which is `>=`; the texts of the reasons are left out.
use robo_cam_stream_processi.Prelude.{
  ℕ, List, [], ◌∷◌, String, Option, Bool, false, if◌then◌else◌, ◌&&◌, ◌≡◌, some, str_eq, ◌++◌, ◌↔◌,
  suc, not, arith, refl,
}
use robo_cam_stream_processi.Prelude.Int.{ℤ, leb_ℤ, pos}
use mathlib.Core.Bool.{true}
use mathlib.Core.Option.{none}

-- What stands in the way, in the order of the tests.
pub data Blocking : Type 0 where
  unexplored exits_open still_growing unplaced too_soon : Blocking

pub record T1Criteria (F : Type 0) : Type 0 where
  pub min_explored : F
  pub max_open_exits : ℤ
  pub stall_cells_per_s : F
  pub min_stall_window_s : F
  pub min_agreement : F
  pub min_frames : ℤ
  pub min_runtime_s : F

-- An exit's status and width.
pub record Exit (F : Type 0) : Type 0 where
  pub status : String
  pub width_m : F

-- The arguments: the explored share of the grid, if there is one, and the rate, if it is measured.
pub record Scan (F : Type 0) : Type 0 where
  pub explored_fraction : Option F
  pub exits : List (Exit F)
  pub growth : Option F
  pub span_s : F
  pub mean_agreement : Option F
  pub frames : ℕ
  pub runtime_s : F
  pub min_exit_width_m : F

pub record Tests : Type 0 where
  pub explored : Bool
  pub no_open_exits : Bool
  pub not_growing : Bool
  pub placed : Bool
  pub past_minimums : Bool

pub record Verdict : Type 0 where
  pub ready : Bool
  pub tests : Tests
  pub blocking : List Blocking

module _ {F : Type 0} (at_least : F → F → Bool) where
  unfoldable pub reached : F → Option F → Bool
  reached wanted none = false
  reached wanted (some value) = at_least value wanted

  unfoldable pub open_exits : F → List (Exit F) → ℕ
  open_exits width [] = 0
  open_exits width (e ∷ es) =
      let rest = open_exits width es in
      if str_eq e.status "open" && at_least e.width_m width then suc rest else rest

  -- A rate under the stall, measured for long enough.
  unfoldable pub stalled : T1Criteria F → F → Option F → Bool
  stalled c span none = false
  stalled c span (some rate) =
      at_least span c.min_stall_window_s && not (at_least rate c.stall_cells_per_s)

  unfoldable pub tests_of : T1Criteria F → Scan F → Tests
  tests_of c s = record {
    explored = reached c.min_explored s.explored_fraction;
    no_open_exits = leb_ℤ (pos (open_exits s.min_exit_width_m s.exits)) c.max_open_exits;
    not_growing = stalled c s.span_s s.growth;
    placed = reached c.min_agreement s.mean_agreement;
    past_minimums = leb_ℤ c.min_frames (pos s.frames) && at_least s.runtime_s c.min_runtime_s;
  }

  -- `if not ok: reasons.append(...)`
  abbrev unless : Bool → Blocking → List Blocking
  unless true reason = []
  unless false reason = reason ∷ []

  unfoldable pub t1_exit_criteria : T1Criteria F → Scan F → Verdict
  t1_exit_criteria c s =
      let t = tests_of c s in
      record {
        ready = t.explored && t.no_open_exits && t.not_growing && t.placed && t.past_minimums;
        tests = t;
        blocking =
            unless t.explored unexplored
            ++ (unless t.no_open_exits exits_open
                ++ (unless t.not_growing still_growing
                    ++ (unless t.placed unplaced ++ unless t.past_minimums too_soon)));
      }

  -- Seen against the scan itself.
  pub record Done (c : T1Criteria F) (s : Scan F) : Type 0 where
    pub explored :
        (value : F) × ((s.explored_fraction ≡ some value) × (at_least value c.min_explored ≡ true))
    pub exits : leb_ℤ (pos (open_exits s.min_exit_width_m s.exits)) c.max_open_exits ≡ true
    pub growth :
        (rate : F) × ((s.growth ≡ some rate)
          × ((at_least rate c.stall_cells_per_s ≡ false)
              × (at_least s.span_s c.min_stall_window_s ≡ true)))
    pub agreement :
        (value : F) × ((s.mean_agreement ≡ some value) × (at_least value c.min_agreement ≡ true))
    pub minimums :
        (leb_ℤ c.min_frames (pos s.frames) ≡ true) × (at_least s.runtime_s c.min_runtime_s ≡ true)

  reached_lem :
      (wanted : F) (o : Option F)
      → reached wanted o ≡ true
      → (value : F) × ((o ≡ some value) × (at_least value wanted ≡ true))
  unfolding reached
  reached_lem wanted none e = absurd cc
  reached_lem wanted (some value) e = (value, (refl, e))

  stalled_lem :
      (c : T1Criteria F) (span : F) (o : Option F)
      → stalled c span o ≡ true
      → (rate : F) × ((o ≡ some rate)
          × ((at_least rate c.stall_cells_per_s ≡ false)
              × (at_least span c.min_stall_window_s ≡ true)))
  unfolding stalled
  stalled_lem c span none e = absurd cc
  stalled_lem c span (some rate) e = (rate, (refl, (ground (arith, e), ground (arith, e))))

  ready_iff :
      (a b c d e : Bool)
      → ((a && b && c && d && e) ≡ true) ↔ (
          (unless a unexplored
            ++ (unless b exits_open
                ++ (unless c still_growing ++ (unless d unplaced ++ unless e too_soon))))
          ≡ [])
  ready_iff false b c d e = (λ h. absurd cc, λ h. absurd cc)
  ready_iff true false c d e = (λ h. absurd cc, λ h. absurd cc)
  ready_iff true true false d e = (λ h. absurd cc, λ h. absurd cc)
  ready_iff true true true false e = (λ h. absurd cc, λ h. absurd cc)
  ready_iff true true true true false = (λ h. absurd cc, λ h. absurd cc)
  ready_iff true true true true true = (λ h. refl, λ h. refl)

  all_five :
      (a b c d e : Bool)
      → (a && b && c && d && e) ≡ true
      → (a ≡ true) × (b ≡ true) × (c ≡ true) × (d ≡ true) × (e ≡ true)
  all_five a b c d e h = ground (arith, h)

  -- A scan is called ready exactly where nothing is listed as blocking it; and then each of the
  -- five tests has passed on a value that was measured: there is a grid and a share of it explored,
  -- a rate over the window and a mean agreement, the open exits and the minimums besides.
  pub t1_exit_criteria-Done :
      (c : T1Criteria F) (s : Scan F)
      → (((t1_exit_criteria c s).ready ≡ true) ↔ ((t1_exit_criteria c s).blocking ≡ []))
        × ((t1_exit_criteria c s).ready ≡ true → Done c s)
  unfolding t1_exit_criteria tests_of
  t1_exit_criteria-Done c s =
      let t = tests_of c s in
      (ready_iff t.explored t.no_open_exits t.not_growing t.placed t.past_minimums, done)
    where
      done : (t1_exit_criteria c s).ready ≡ true → Done c s
      done e =
          let t = tests_of c s in
          let (a, b, g, d, m) =
            all_five t.explored t.no_open_exits t.not_growing t.placed t.past_minimums e in
          record {
            explored = reached_lem c.min_explored s.explored_fraction a;
            exits = b;
            growth = stalled_lem c s.span_s s.growth g;
            agreement = reached_lem c.min_agreement s.mean_agreement d;
            minimums = (ground (arith, m), ground (arith, m));
          }
