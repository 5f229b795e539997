-- ===== src/Processors/Deep3r.antt =====
-- `Deep3rProcessor` of robocam/processors/deep3r.py: which frames go into the recurrent state, when
-- it is thrown away, and how its map is named. The network, the cloud that is made of its output
-- and the decision stage are left out; `_process_locked` holds the lock, so a call is one step.
pub mod Map
use robo_cam_stream_processi.Prelude.{
  String, ℕ, Option, none, List, [], if◌then◌else◌, ◌+◌, some, max, not, ◌-◌, ◌∷◌, str_eq, ◌==◌,
  ◌%◌, ◌*◌, ◌&&◌, leb,
}
use robo_cam_stream_processi.Prelude.Int.{ℤ, pos, ltb_ℤ, eqb_ℤ, ◌-ℤ◌, pos_part, leb_ℤ}

-- What of a frame is read here.
pub record Frame (Image : Type 0) : Type 0 where
  pub run_id : String
  pub seq : ℤ
  pub image : Image

-- The image, the network's state, and what T2 remembers; `model` is `_run_model`: the recurrent state
-- after an image, from none after a reset; `none` where it raises, which leaves the state alone.
pub record Kinds : Type 1 where
  pub Image : Type 0
  pub Recurrent : Type 0
  pub Keyframe : Type 0
  pub Memory : Type 0
  pub Sighting : Type 0
  pub model : Option Recurrent → Image → Option Recurrent
  pub fresh_memory : Memory

pub record Settings : Type 0 where
  pub every_n : ℕ
  pub reset_every : ℤ
  pub reset_on_gap : ℤ

-- The constructor's `max(1, int(every_n))` and `int(reset_on_gap) or (4 * self.every_n)`.
unfoldable pub settings : ℤ → ℤ → ℤ → Settings
settings every_n reset_every reset_on_gap = record {
  every_n = max 1 (pos_part every_n);
  reset_every = reset_every;
  reset_on_gap =
      if eqb_ℤ reset_on_gap (pos 0) then pos (4 * max 1 (pos_part every_n)) else reset_on_gap;
}

-- The fields that a run changes; `Recurrent` is CUT3R's state. The others are what T2 remembers.
pub record State (Recurrent Keyframe Memory Sighting : Type 0) : Type 0 where
  pub run_id : String
  pub seen : ℕ
  pub last_seq : Option ℤ
  pub state : Option Recurrent
  pub frames_in_state : ℕ
  pub map_id : ℕ
  pub keyframes : Option (List Keyframe)
  pub memory : Memory
  pub recall_target : String
  pub recall_queue : List Keyframe
  pub last_announced : Option Sighting
  pub prev_phase : String

pub data Reason : Type 0 where
  first_frame sequence_gap reset_every_reached : Reason

-- What is said of a frame, without the cloud.
pub data Outcome : Type 0 where
  skipped : ℕ → ℕ → Outcome
  failed : Outcome
  done : ℕ → ℕ → Option Reason → ℤ → Outcome

module _ (k : Kinds) (cfg : Settings) where
  open k use {Image, Recurrent, Keyframe, Memory, Sighting, model, fresh_memory}

  abbrev pub S : Type 0
  S = State Recurrent Keyframe Memory Sighting

  unfoldable pub reset_state : S → S
  reset_state s = record s { state = none; frames_in_state = 0; map_id = s.map_id + 1 }

  -- `self._keyframes.clear()`, where there is a store.
  unfoldable pub cleared_store : Option (List Keyframe) → Option (List Keyframe)
  cleared_store none = none
  cleared_store (some kept) = some []

  unfoldable pub new_run : S → S
  new_run s =
      let r = reset_state s in
      record r {
        keyframes = cleared_store s.keyframes;
        memory = fresh_memory;
        recall_target = "";
        recall_queue = [];
        last_announced = none;
        prev_phase = "t1";
        last_seq = none;
      }

  -- `if frame.run_id and frame.run_id != self._run_id`
  unfoldable pub follow_run : Frame Image → S → S
  follow_run frame s =
      if not (str_eq frame.run_id "") && not (str_eq frame.run_id s.run_id)
      then (let wiped = if not (str_eq s.run_id "") then new_run s else s in
          record wiped { run_id = frame.run_id })
      else s

  unfoldable pub gap_of : Option ℤ → ℤ → ℤ
  gap_of none seq = pos 0
  gap_of (some last) seq = seq -ℤ last

  unfoldable pub count_frame : Frame Image → S → S
  count_frame frame s = record s { seen = s.seen + 1; last_seq = some frame.seq }

  -- Whether to throw the state away, and why.
  unfoldable pub reset_reason : ℤ → S → Option Reason
  reset_reason gap s = elim s.state [
    | none ↦ some first_frame
    | some held ↦
        if ltb_ℤ cfg.reset_on_gap gap
        then some sequence_gap
        else if not (eqb_ℤ cfg.reset_every (pos 0)) && leb_ℤ cfg.reset_every (pos s.frames_in_state)
        then some reset_every_reached
        else none
  ]

  unfoldable pub reset_if : Option Reason → S → S
  reset_if none s = s
  reset_if (some reason) s = reset_state s

  -- The frame goes into the state, unless the network raised.
  unfoldable pub fold_in : Option Recurrent → S → S
  fold_in none s = s
  fold_in (some r) s = record s { state = some r; frames_in_state = s.frames_in_state + 1 }

  unfoldable pub outcome_of : Option Recurrent → Option Reason → ℤ → S → Outcome
  outcome_of none reason gap s = failed
  outcome_of (some r) reason gap s = done s.map_id s.frames_in_state reason gap

  -- `_process_locked` behind the run and the count.
  unfoldable pub step_model : ℤ → Frame Image → S → Outcome × S
  step_model gap frame s =
      let reason = reset_reason gap s in
      let wiped = reset_if reason s in
      let ran = model wiped.state frame.image in
      let s' = fold_in ran wiped in (outcome_of ran reason gap s', s')

  unfoldable pub process : Frame Image → S → Outcome × S
  process frame s =
      let followed = follow_run frame s in
      let counted = count_frame frame followed in
      if (counted.seen - 1) % cfg.every_n == 0
      then step_model (gap_of followed.last_seq frame.seq) frame counted
      else (skipped counted.map_id counted.frames_in_state, counted)

  unfoldable pub process_all : List (Frame Image) → S → List Outcome × S
  process_all [] s = ([], s)
  process_all (frame ∷ rest) s =
      let (outcome, s') = process frame s in
      let (outcomes, s'') = process_all rest s' in (outcome ∷ outcomes, s'')
