-- ===== src/Client/Receive/Patches.antt =====
-- Which map updates reach the application.
use robo_cam_stream_processi.Client.State.{Client, Kinds, Callbacks}
use robo_cam_stream_processi.Prelude.{
  List, Option, ◌≡◌, Bool, ℕ, ◌∷◌, ◌++◌, true, [], ap, if◌then◌else◌, refl, ◌∙◌, ap₂, arith,
  if_both, Bool-cases, inl, inr, String, str_eq, not, ◌||◌,
}
use robo_cam_stream_processi.Client.Receive.{
  handle, drain_results, Call, Incoming, handle_result, map_update, handle_scan_result,
  on_map_update, some, handle_imu_result, on_result, handle_odom_result, call, on_scan_result,
  is_stale, handle_map_result, on_imu_result, handle_map_update, on_odom_result, handle_phase,
  on_map_result, on_welcome, on_pose_hint, welcome, usable, on_found, result, on_agreement,
  scan_result, on_exits_result, imu_result, odom_result, map_result, pose_hint, found, Handled,
  agreement, exits_result, phase_changed, pong, error, unexpected,
}
use mathlib.Core.Option.{none}
use mathlib.Core.Bool.{false}

module _ (k : Kinds) where
  open k use {Map, Cells, map_id}

  -- The patches that the callback is called with.
  unfoldable pub patches : List (Call k) → List Cells
  patches [] = []
  patches (on_map_update cells ∷ calls) = cells ∷ patches calls
  patches (on_result r ∷ calls) = patches calls
  patches (on_scan_result r ∷ calls) = patches calls
  patches (on_imu_result r ∷ calls) = patches calls
  patches (on_odom_result r ∷ calls) = patches calls
  patches (on_map_result r ∷ calls) = patches calls
  patches (on_pose_hint d ∷ calls) = patches calls
  patches (on_found d ∷ calls) = patches calls
  patches (on_agreement d ∷ calls) = patches calls
  patches (on_exits_result d ∷ calls) = patches calls

  patches-append : (xs ys : List (Call k)) → patches (xs ++ ys) ≡ patches xs ++ patches ys
  unfolding patches
  patches-append [] ys = refl
  patches-append (on_map_update cells ∷ calls) ys = ap (◌∷◌ cells) (patches-append calls ys)
  patches-append (on_result r ∷ calls) ys = patches-append calls ys
  patches-append (on_scan_result r ∷ calls) ys = patches-append calls ys
  patches-append (on_imu_result r ∷ calls) ys = patches-append calls ys
  patches-append (on_odom_result r ∷ calls) ys = patches-append calls ys
  patches-append (on_map_result r ∷ calls) ys = patches-append calls ys
  patches-append (on_pose_hint d ∷ calls) ys = patches-append calls ys
  patches-append (on_found d ∷ calls) ys = patches-append calls ys
  patches-append (on_agreement d ∷ calls) ys = patches-append calls ys
  patches-append (on_exits_result d ∷ calls) ys = patches-append calls ys

  -- Whether an update is for the robot's last map: it bears that map's id or an empty one, or the
  -- robot has sent no map.
  unfoldable pub is_for : Option Map → Option String → Bool
  is_for none id = true
  is_for (some reading) none = false
  is_for (some reading) (some id) = str_eq id (map_id reading) || str_eq id ""

  -- The patch of a message, if it decodes and is for the robot's map.
  pub fitting : Option Map → Incoming k → List Cells
  unfolding is_for
  fitting last (map_update id (some cells)) = if is_for last id then cells ∷ [] else []
  fitting last m = []

  is_for-is_stale :
      (last : Option Map) (id : Option String) → is_for last id ≡ not (is_stale k id last)
  unfolding is_for is_stale
  is_for-is_stale none id = refl
  is_for-is_stale (some reading) none = refl
  is_for-is_stale (some reading) (some id) = swapped (str_eq id (map_id reading)) (str_eq id "")
    where
      swapped : (a b : Bool) → (a || b) ≡ not (not (b || a))
      swapped true true = refl
      swapped true false = refl
      swapped false true = refl
      swapped false false = refl

  pub all_fitting : Option Map → List (Option (Incoming k)) → List Cells
  unfolding fitting
  all_fitting last [] = []
  all_fitting last (none ∷ ms) = all_fitting last ms
  all_fitting last (some m ∷ ms) = fitting last m ++ all_fitting last ms

  record Keeps (c d : Client k) : Type 0 where
    last_map : d.last_map ≡ c.last_map
    callbacks : d.callbacks ≡ c.callbacks

  handle-Keeps : (m : Incoming k) (c : Client k) → Keeps c (handle k m c).0
  unfolding handle handle_result handle_scan_result handle_imu_result handle_odom_result
      handle_map_result handle_map_update handle_phase on_welcome
  handle-Keeps (welcome w) c = ground arith
  handle-Keeps (result r) c = record { last_map = refl; callbacks = refl }
  handle-Keeps (scan_result r) c = record { last_map = refl; callbacks = refl }
  handle-Keeps (imu_result r) c = record { last_map = refl; callbacks = refl }
  handle-Keeps (odom_result r) c = record { last_map = refl; callbacks = refl }
  handle-Keeps (map_result r) c = record { last_map = refl; callbacks = refl }
  handle-Keeps (map_update id cells) c = ground arith
  handle-Keeps (pose_hint d) c = record { last_map = refl; callbacks = refl }
  handle-Keeps (found d) c = record { last_map = refl; callbacks = refl }
  handle-Keeps (agreement d) c = record { last_map = refl; callbacks = refl }
  handle-Keeps (exits_result d) c = record { last_map = refl; callbacks = refl }
  handle-Keeps (phase_changed (some false) phase mission) c = record {
    last_map = refl;
    callbacks = refl;
  }
  handle-Keeps (phase_changed (some true) phase mission) c = record {
    last_map = refl;
    callbacks = refl;
  }
  handle-Keeps (phase_changed none phase mission) c = record { last_map = refl; callbacks = refl }
  handle-Keeps pong c = record { last_map = refl; callbacks = refl }
  handle-Keeps error c = record { last_map = refl; callbacks = refl }
  handle-Keeps unexpected c = record { last_map = refl; callbacks = refl }

  none_or : (b : Bool) (x : Call k) → patches (x ∷ []) ≡ [] → patches (call k b x) ≡ []
  unfolding patches
  none_or true x e = e
  none_or false x e = refl

  handle-fitting :
      (m : Incoming k) (c : Client k)
      → c.callbacks.map_update ≡ true
      → patches (handle k m c).1 ≡ fitting c.last_map m
  unfolding handle handle_result handle_scan_result handle_imu_result handle_odom_result
      handle_map_result handle_map_update handle_phase on_welcome patches fitting usable
  handle-fitting (welcome w) c h = refl
  handle-fitting (result r) c h = none_or c.callbacks.result (on_result r) refl
  handle-fitting (scan_result r) c h = none_or c.callbacks.scan_result (on_scan_result r) refl
  handle-fitting (imu_result r) c h = none_or c.callbacks.imu_result (on_imu_result r) refl
  handle-fitting (odom_result r) c h = none_or c.callbacks.odom_result (on_odom_result r) refl
  handle-fitting (map_result r) c h = none_or c.callbacks.map_result (on_map_result r) refl
  handle-fitting (map_update id none) c h =
      if_both (λ (x : Handled k). patches x.1 ≡ []) (is_stale k id c.last_map) refl refl
  handle-fitting (map_update id (some cells)) c h = elim (Bool-cases (is_stale k id c.last_map)) [
    | inl old ↦ simp (is_for-is_stale, old) refl
    | inr current ↦ simp (is_for-is_stale, current, h) refl
  ]
  handle-fitting (pose_hint d) c h = none_or c.callbacks.pose_hint (on_pose_hint d) refl
  handle-fitting (found d) c h = none_or c.callbacks.found (on_found d) refl
  handle-fitting (agreement d) c h = none_or c.callbacks.agreement (on_agreement d) refl
  handle-fitting (exits_result d) c h = none_or c.callbacks.exits_result (on_exits_result d) refl
  handle-fitting (phase_changed accepted phase mission) c h = refl
  handle-fitting pong c h = refl
  handle-fitting error c h = refl
  handle-fitting unexpected c h = refl

  -- An application that takes map updates is called with exactly the patches, among the messages
  -- that have come, that decode and bear the id of the robot's last map (or an empty one, or the
  -- robot has sent no map), in their order: a patch of another map, or without an id, never reaches
  -- it once the robot has sent a map.
  pub drain_results-fitting :
      (now : ℕ) (ms : List (Option (Incoming k))) (c : Client k)
      → c.callbacks.map_update ≡ true
      → patches (drain_results k now ms c).1 ≡ all_fitting c.last_map ms
  unfolding drain_results patches all_fitting
  drain_results-fitting now [] c h = refl
  drain_results-fitting now (none ∷ ms) c h =
      drain_results-fitting now ms (record c { last_rx = now }) h
  drain_results-fitting now (some m ∷ ms) c h =
      let heard = record c { last_rx = now } in
      let d = (handle k m heard).0 in
      let keeps = handle-Keeps m heard in
      let set : d.callbacks.map_update ≡ true =
        ap (λ (b : Callbacks). b.map_update) keeps.callbacks ∙ h in
      patches-append (handle k m heard).1 (drain_results k now ms d).1
      ∙ ap₂ ◌++◌ (handle-fitting m heard h)
          (drain_results-fitting now ms d set ∙ ap (λ last. all_fitting last ms) keeps.last_map)
