-- ===== src/Wire/Announcements.antt =====
-- The header constructors of robocam/wire.py: what the server tells unasked. `now` is what
-- `monotonic_ns()` reads, and `round` on floats is a parameter.
use robo_cam_stream_processi.Wire.Json.{
  Json, Header, json_float, json_object, with_optional, json_null, field, json_string, no_field,
  json_int, triple, json_bool, json_array, items_of, object_or_empty, strings,
}
use robo_cam_stream_processi.Prelude.Dict.{string_eq}
use mathlib.Core.Option
use robo_cam_stream_processi.Prelude.{List, ℕ, String, Option, Bool, [], ◌∷◌, true, map}
use robo_cam_stream_processi.Prelude.Int.{ℤ, negsuc}
use mathlib.Core.Option.{some}
use Option.{none}

-- The parallel arrays of the regions, each empty where the dictionary has none.
pub record Regions (F : Type 0) : Type 0 where
  pub uncertain_x : List F
  pub uncertain_y : List F
  pub uncertain_scores : List F
  pub uncertain_kinds : List String
  pub uncertain_heights : List (Option F)
  pub uncertain_radii : List F

pub record MapUpdateArgs (F : Type 0) : Type 0 where
  pub seq : ℤ
  pub width : ℤ
  pub height : ℤ
  pub resolution : F
  pub encoding : String
  pub x0 : ℤ
  pub y0 : ℤ
  pub origin : F × F × F
  pub frame : String
  pub map_id : String
  pub merge : String
  pub cells_changed : ℤ
  pub source : String
  pub from_frame_seq : Option ℤ
  pub cloud_map_id : Option ℤ
  pub server_ms : F
  pub «data» : Option (Header F)

pub record PoseHintArgs (F : Type 0) : Type 0 where
  pub seq : ℤ
  pub dx : F
  pub dy : F
  pub dyaw : F
  pub confidence : F
  pub inliers : ℤ
  pub method : String
  pub frame : String
  pub map_id : String
  pub from_frame_seq : Option ℤ
  pub «data» : Option (Header F)

pub record AgreementArgs (F : Type 0) : Type 0 where
  pub seq : ℤ
  pub frame : String
  pub map_id : String
  pub cloud_map_id : Option ℤ
  pub grid_coverage : F
  pub cloud_coverage : F
  pub agreement_value : F
  pub compared_cells : ℤ
  pub conflicting_cells : ℤ
  pub cloud_points : ℤ
  pub regions : Option (Regions F)
  pub from_frame_seq : Option ℤ
  pub «data» : Option (Header F)

pub record FoundArgs (F : Type 0) : Type 0 where
  pub seq : ℤ
  pub target : String
  pub found : Bool
  pub confidence : F
  pub x : F
  pub y : F
  pub z : F
  pub yaw : F
  pub approach : Option (F × F × F)
  pub frame : String
  pub map_id : String
  pub phase : String
  pub decider : String
  pub rationale : String
  pub basis : String
  pub age_s : F
  pub reachable : Option Bool
  pub reach : Option (Header F)
  pub evidence : Option (Header F)
  pub «data» : Option (Header F)

module _ {F : Type 0} (round : ℕ → F → F) where
  abbrev rounded : ℕ → F → Json F
  rounded digits v = json_float (round digits v)

  abbrev or_null : ℕ → Option F → Json F
  or_null digits none = json_null
  or_null digits (some v) = rounded digits v

  abbrev regions_or_empty : Option (Regions F) → Regions F
  regions_or_empty none = record {
    uncertain_x = [];
    uncertain_y = [];
    uncertain_scores = [];
    uncertain_kinds = [];
    uncertain_heights = [];
    uncertain_radii = [];
  }
  regions_or_empty (some regions) = regions

  abbrev approach_of : F × F × F → Json F
  approach_of (x, y, yaw) =
      json_object
        (field "x" (rounded 4 x) (field "y" (rounded 4 y) (field "yaw" (rounded 5 yaw) no_field)))

  unfoldable pub map_update : ℤ → MapUpdateArgs F → Header F
  map_update now a =
      with_optional
        (("type", json_string "map_update")
          ∷ ("seq", json_int a.seq)
          ∷ ("encoding", json_string a.encoding)
          ∷ ("x0", json_int a.x0)
          ∷ ("y0", json_int a.y0)
          ∷ ("width", json_int a.width)
          ∷ ("height", json_int a.height)
          ∷ ("resolution", json_float a.resolution)
          ∷ ("origin", triple a.origin)
          ∷ ("frame", json_string a.frame)
          ∷ ("map_id", json_string a.map_id)
          ∷ ("merge", json_string a.merge)
          ∷ ("unknown", json_int (negsuc 0))
          ∷ ("cells_changed", json_int a.cells_changed)
          ∷ ("source", json_string a.source)
          ∷ ("server_ms", rounded 3 a.server_ms)
          ∷ ("data", object_or_empty a.«data»)
          ∷ ("t_send_ns", json_int now)
          ∷ [])
        (("from_frame_seq", Option.map json_int a.from_frame_seq)
          ∷ ("cloud_map_id", Option.map json_int a.cloud_map_id)
          ∷ [])

  unfoldable pub pose_hint : ℤ → PoseHintArgs F → Header F
  pose_hint now a =
      with_optional
        (("type", json_string "pose_hint")
          ∷ ("seq", json_int a.seq)
          ∷ ("frame", json_string a.frame)
          ∷ ("map_id", json_string a.map_id)
          ∷ ("dx", rounded 4 a.dx)
          ∷ ("dy", rounded 4 a.dy)
          ∷ ("dyaw", rounded 5 a.dyaw)
          ∷ ("confidence", rounded 3 a.confidence)
          ∷ ("inliers", json_int a.inliers)
          ∷ ("method", json_string a.method)
          ∷ ("advisory", json_bool true)
          ∷ ("data", object_or_empty a.«data»)
          ∷ ("t_send_ns", json_int now)
          ∷ [])
        (("from_frame_seq", Option.map json_int a.from_frame_seq) ∷ [])

  unfoldable pub agreement : ℤ → AgreementArgs F → Header F
  agreement now a =
      let regions = regions_or_empty a.regions in
      with_optional
        (("type", json_string "agreement")
          ∷ ("seq", json_int a.seq)
          ∷ ("frame", json_string a.frame)
          ∷ ("map_id", json_string a.map_id)
          ∷ ("grid_coverage", rounded 4 a.grid_coverage)
          ∷ ("cloud_coverage", rounded 4 a.cloud_coverage)
          ∷ ("agreement", rounded 4 a.agreement_value)
          ∷ ("compared_cells", json_int a.compared_cells)
          ∷ ("conflicting_cells", json_int a.conflicting_cells)
          ∷ ("cloud_points", json_int a.cloud_points)
          ∷ ("uncertain_x", json_array (items_of (map (rounded 3) regions.uncertain_x)))
          ∷ ("uncertain_y", json_array (items_of (map (rounded 3) regions.uncertain_y)))
          ∷ ("uncertain_scores", json_array (items_of (map (rounded 4) regions.uncertain_scores)))
          ∷ ("uncertain_kinds", strings regions.uncertain_kinds)
          ∷ ("uncertain_heights", json_array (items_of (map (or_null 3) regions.uncertain_heights)))
          ∷ ("uncertain_radii", json_array (items_of (map (rounded 3) regions.uncertain_radii)))
          ∷ ("data", object_or_empty a.«data»)
          ∷ ("t_send_ns", json_int now)
          ∷ [])
        (("cloud_map_id", Option.map json_int a.cloud_map_id)
          ∷ ("from_frame_seq", Option.map json_int a.from_frame_seq)
          ∷ [])

  unfoldable pub found : ℤ → FoundArgs F → Header F
  found now a =
      with_optional
        (("type", json_string "found")
          ∷ ("seq", json_int a.seq)
          ∷ ("phase", json_string a.phase)
          ∷ ("target", json_string a.target)
          ∷ ("found", json_bool a.found)
          ∷ ("confidence", rounded 3 a.confidence)
          ∷ ("frame", json_string a.frame)
          ∷ ("map_id", json_string a.map_id)
          ∷ ("x", rounded 4 a.x)
          ∷ ("y", rounded 4 a.y)
          ∷ ("z", rounded 4 a.z)
          ∷ ("yaw", rounded 5 a.yaw)
          ∷ ("basis", json_string a.basis)
          ∷ ("age_s", rounded 2 a.age_s)
          ∷ ("reachable", elim a.reachable [ none ↦ json_null | some b ↦ json_bool b ])
          ∷ ("reach", object_or_empty a.reach)
          ∷ ("decider", json_string a.decider)
          ∷ ("rationale", json_string a.rationale)
          ∷ ("evidence", object_or_empty a.evidence)
          ∷ ("data", object_or_empty a.«data»)
          ∷ ("t_send_ns", json_int now)
          ∷ [])
        (("approach", Option.map approach_of a.approach) ∷ [])
