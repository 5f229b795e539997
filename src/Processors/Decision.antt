-- ===== src/Processors/Decision.antt =====
-- The decision stage of robocam/processors/deep3r.py: `_decide` with the search of what T1 saw, the
-- detector on the frame, and when a `found` is sent. Times are nanoseconds; `now` is the clock's
-- value, read once for a frame. The statistics are left out, and so is how a message says it.

pub mod Watch
pub mod Recall
pub mod News
pub mod Mission
use mathlib.Core.Option
use robo_cam_stream_processi.Seek.Memory.{Sighting, TargetMemory, Basis, live, memory}
use robo_cam_stream_processi.Seek.Keyframes.{KeyframeStore, add, should_keep, newest_first}
use robo_cam_stream_processi.Prelude.{
  String, Bool, Option, List, ℕ, some, [], true, none, if◌then◌else◌, ◌∷◌, false, max, not, suc,
}
use Prim.Native.Nat.{zero}

-- What `locate` makes of a detection; its float geometry is a parameter below.
pub record Located (Confidence Spot : Type 0) : Type 0 where
  pub confidence : Confidence
  pub map_id : String
  pub seen_at : ℕ
  pub spot : Spot

-- `Scene` is a frame's image with its cloud. The detector gives `none` where it raises.
pub record Vision : Type 1 where
  pub Scene : Type 0
  pub Pose : Type 0
  pub Keyframe : Type 0
  pub Detection : Type 0
  pub Confidence : Type 0
  pub Spot : Type 0
  pub at_least : Confidence → Confidence → Bool
  pub pose : Keyframe → Pose
  pub far : Pose → Pose → Bool
  -- The stored copy of a frame; `none` where the resize raises.
  pub shrunk : Scene → Pose → Option Keyframe
  pub detect : Scene → String → Option (List Detection)
  pub detect_kept : Keyframe → String → Option (List Detection)
  -- `det.score >= cfg.min_confidence`
  pub strong : Detection → Bool
  pub locate : Scene → Pose → Detection → Option (Located Confidence Spot)
  pub locate_kept : Keyframe → Detection → Option (Located Confidence Spot)
  -- `moved >= cfg.resend_move_m`
  pub moved : Spot → Spot → Bool

pub record Settings : Type 0 where
  pub enabled : Bool
  -- `self._detector is not None`
  pub loaded : Bool
  pub detect_every_n : ℕ
  pub recall_budget : ℕ
  pub absent_after_runs : ℕ
  pub min_found_interval : ℕ

-- What of a frame is read here; `target` is "" where the mission names none.
pub record Frame (Scene Pose : Type 0) : Type 0 where
  pub scene : Scene
  pub odom : Option Pose
  pub phase : String
  pub target : String
  -- The grid's, or "" where there is none.
  pub map_id : String

unfoldable pub same_basis : Basis → Basis → Bool
same_basis live live = true
same_basis memory memory = true
same_basis b c = false

unfoldable pub or_else {ℓ} : {A : Type ℓ} → Option A → Option A → Option A
or_else none o = o
or_else (some a) o = some a

module _ (v : Vision) where
  open v use {Scene, Pose, Keyframe, Detection, Confidence, Spot, at_least}

  abbrev pub Seen : Type 0
  Seen = Sighting Confidence Spot at_least

  abbrev pub Kept : Type 0
  Kept = KeyframeStore v.pose v.far

  pub record State : Type 0 where
    pub keyframes : Option Kept
    pub best : TargetMemory Confidence Spot at_least
    pub recall_target : String
    pub recall_queue : List Keyframe
    pub recall_done : Bool
    pub seek_runs : ℕ
    pub absent_runs : ℕ
    pub last_found : ℕ
    pub last_announced : Option Seen
    pub prev_phase : String

  -- `found` announcements: the target, and where it is, and whether it is seen now.
  pub data Message : Type 0 where
    absent : String → Message
    found : String → Seen → Bool → Message

  unfoldable pub sighting : String → Basis → Located Confidence Spot → Seen
  sighting target basis l = record {
    target = target;
    map_id = l.map_id;
    confidence = l.confidence;
    seen_at = l.seen_at;
    basis = basis;
    spot = l.spot;
  }

  unfoldable pub stored : Scene → Pose → Option Kept → Option Kept
  stored scene p none = none
  stored scene p (some kept) =
      if not (should_keep v.pose v.far kept p)
      then some kept
      else stored_copy kept (v.shrunk scene p)
    where
      stored_copy : Kept → Option Keyframe → Option Kept
      stored_copy kept none = some kept
      stored_copy kept (some k) = some (add v.pose v.far k kept).0

  unfoldable pub store_keyframe : Scene → Pose → State → State
  store_keyframe scene p s = record s { keyframes = stored scene p s.keyframes }

  abbrev pub queue_of : Option Kept → List Keyframe
  queue_of none = []
  queue_of (some kept) = newest_first v.pose v.far kept

  unfoldable pub is_empty : List Keyframe → Bool
  is_empty [] = true
  is_empty (k ∷ ks) = false

  unfoldable pub arm_recall : String → State → State
  arm_recall target s = record s {
    recall_target = target;
    recall_done = is_empty (queue_of s.keyframes);
    recall_queue = queue_of s.keyframes;
  }

  -- The first detection that is strong enough and can be placed.
  unfoldable pub first_located :
      (Detection → Option (Located Confidence Spot))
      → List Detection
      → Option (Located Confidence Spot)
  first_located place [] = none
  first_located place (d ∷ ds) =
      if not (v.strong d)
      then first_located place ds
      else or_else (place d) (first_located place ds)

  abbrev pub in_detections :
      {A : Type 0} → (List Detection → Option A) → Option (List Detection) → Option A
  in_detections search none = none
  in_detections search (some ds) = search ds

  -- One keyframe of the search.
  unfoldable pub hit : String → Keyframe → Option Seen
  hit target k =
      Option.map (sighting target memory)
        (in_detections (first_located (v.locate_kept k)) (v.detect_kept k target))

  -- The sighting, the queue that is left, and `_recall_done`.
  abbrev pub Recalled : Type 0
  Recalled = Option Seen × (List Keyframe × Bool)

  -- A hit ends the search.
  abbrev pub found_or : Option Seen → Recalled → Recalled
  found_or none rest = rest
  found_or (some seen) rest = (some seen, ([], true))

  unfoldable pub recall_loop : String → ℕ → List Keyframe → Recalled
  recall_loop target zero queue = (none, (queue, false))
  recall_loop target (suc n) [] = (none, ([], true))
  recall_loop target (suc n) (k ∷ queue) =
      let rest = recall_loop target n queue in found_or (hit target k) rest

  unfoldable pub run_recall : String → ℕ → List Keyframe → Recalled
  run_recall target budget queue = recall_loop target (max 1 budget) queue
