-- ===== src/Client/Tests.antt =====
-- The theorems on the client, on short runs.
use robo_cam_stream_processi.Client.State.{Kinds, Client, Callbacks, new}
use robo_cam_stream_processi.Client.Receive.{map_update, drain_results, Incoming, result, Reply}
use robo_cam_stream_processi.Client.Send.{Outgoing}
use robo_cam_stream_processi.Client.Run.{Item, turns, pump_all}
use robo_cam_stream_processi.Client.Run.Windows.{AllInWindow}
use robo_cam_stream_processi.Client.Run.Windows.Turns.{turns-AllInWindow}
use robo_cam_stream_processi.Client.Run.Recovery.{pump_all-sent}
use robo_cam_stream_processi.Client.Run.{pump_all}
use robo_cam_stream_processi.Client.Receive.Patches.{drain_results-fitting, all_fitting, patches}
use robo_cam_stream_processi.Client.Run.Upload.{uploads, turns_never_upload}
use robo_cam_stream_processi.Client.Feeds.{
  offered, taken, Slot, empty_queue, run_slot, run_queue, held, scans_accounted, samples_accounted,
}
use robo_cam_stream_processi.Client.Maps.{
  decode_map_patch, decode_map_patch-encode_cells, merge_map_patch, apply_patch-merge_map_patch,
  placed_in,
}
use robo_cam_stream_processi.Occupancy.Array.{Array}
use robo_cam_stream_processi.Occupancy.Codec.{encode_cells, flatten, to_byte}
use robo_cam_stream_processi.Prelude.Int.{pos, negsuc}
use robo_cam_stream_processi.Prelude.{
  ℕ, false, [], true, Bool, ◌∷◌, ◌≡◌, List, none, ◌+◌, length, if◌then◌else◌, Option, some, refl,
  ◌≤◌, arith,
}
use robo_cam_stream_processi.Occupancy.Grid.{Grid}
use robo_cam_stream_processi.Occupancy.Patch.{apply_patch, supported}

abbrev kinds : Kinds
kinds = record {
  Frame = ℕ;
  Pose = ℕ;
  Scan = ℕ;
  Imu = ℕ;
  Odom = ℕ;
  Map = ℕ;
  Data = ℕ;
  Cells = ℕ;
  map_id = λ m. "room";
}

abbrev deaf : Callbacks
deaf = record {
  result = false;
  scan_result = false;
  imu_result = false;
  odom_result = false;
  map_result = false;
  map_update = false;
  pose_hint = false;
  found = false;
  agreement = false;
  exits_result = false;
}

abbrev robot : Client kinds
robot = record (new kinds "orin" "run-1" 5000 1000 deaf "explore" [] 0 1 1 1 1) { opened = true }

abbrev reply : Reply kinds
reply = record { seq = pos 0; ok = true; reason = ""; summary = 0 }

abbrev item_at : ℕ → List (Option (Incoming kinds)) → Item kinds
item_at now messages = record {
  now = now;
  messages = messages;
  scan = some 7;
  imu = 1 ∷ 2 ∷ [];
  imu_lost = 0;
  odom = some 3;
  map = some (some 9);
  frame = some 5;
  pose = none;
}

abbrev all_taken : Outgoing kinds → Bool
all_taken message = true

abbrev items : List (Item kinds)
items = item_at 10 [] ∷ item_at 2000 (some (result reply) ∷ []) ∷ item_at 9000 [] ∷ []

robot-AllInWindow : AllInWindow kinds robot
unfolding new
robot-AllInWindow = record {
  frames = record { open_for_one = omega arith; bounded = omega arith };
  scans = record { open_for_one = omega arith; bounded = omega arith };
  imu = record { open_for_one = omega arith; bounded = omega arith };
  odom = record { open_for_one = omega arith; bounded = omega arith };
  maps = record { open_for_one = omega arith; bounded = omega arith };
}

turns-AllInWindow_example : AllInWindow kinds (turns kinds all_taken items robot).0
turns-AllInWindow_example = turns-AllInWindow kinds all_taken items robot robot-AllInWindow

-- The reply to the first map was lost with the connection.
abbrev waiting : Client kinds
waiting = record robot { maps = record robot.maps { pending = (0, 10) ∷ []; seq = 1 } }

turns_never_upload_example :
    ((turns kinds all_taken items waiting).0.maps.pending ≡ (0, 10) ∷ [])
    × (uploads kinds (turns kinds all_taken items waiting).1 ≡ 0)
turns_never_upload_example =
    turns_never_upload kinds 0 10 all_taken items waiting (tt, (tt, (tt, tt))) refl

abbrev slot : Slot ℕ
slot = record { latest = none; received = 0; dropped = 0 }

slot_balance :
    (run_slot (offered 1 ∷ offered 2 ∷ taken ∷ offered 3 ∷ []) slot).0.received
    ≡ (run_slot (offered 1 ∷ offered 2 ∷ taken ∷ offered 3 ∷ []) slot).1
      + (run_slot (offered 1 ∷ offered 2 ∷ taken ∷ offered 3 ∷ []) slot).0.dropped
      + held (run_slot (offered 1 ∷ offered 2 ∷ taken ∷ offered 3 ∷ []) slot).0
slot_balance = scans_accounted (offered 1 ∷ offered 2 ∷ taken ∷ offered 3 ∷ []) slot refl refl refl

kept_samples :
    ((run_queue {A = ℕ} (offered 1 ∷ offered 2 ∷ taken ∷ offered 3 ∷ []) (empty_queue 1)).0.received
      ≡ length
          (run_queue {A = ℕ} (offered 1 ∷ offered 2 ∷ taken ∷ offered 3 ∷ []) (empty_queue 1)).1.0
        + (run_queue {A = ℕ} (offered 1 ∷ offered 2 ∷ taken ∷ offered 3 ∷ []) (empty_queue 1)).1.1
        + (run_queue {A = ℕ}
            (offered 1 ∷ offered 2 ∷ taken ∷ offered 3 ∷ [])
            (empty_queue 1)).0.dropped
        + length
            (run_queue {A = ℕ}
              (offered 1 ∷ offered 2 ∷ taken ∷ offered 3 ∷ [])
              (empty_queue 1)).0.items)
    × (length
          (run_queue {A = ℕ}
            (offered 1 ∷ offered 2 ∷ taken ∷ offered 3 ∷ [])
            (empty_queue 1)).0.items
        ≤ (run_queue {A = ℕ}
            (offered 1 ∷ offered 2 ∷ taken ∷ offered 3 ∷ [])
            (empty_queue 1)).0.maxlen)
kept_samples = samples_accounted (offered 1 ∷ offered 2 ∷ taken ∷ offered 3 ∷ []) 1

abbrev strip : Array
strip = record {
  height = 2;
  width = 2;
  rows = (pos 0 ∷ negsuc 0 ∷ []) ∷ (pos 100 ∷ pos 7 ∷ []) ∷ [];
}

decode_map_patch-encode_cells_example :
    (b : Array) × (decode_map_patch some 2 2 "i8" (0 ∷ 255 ∷ 100 ∷ 7 ∷ []) ≡ some b)
    × (b.rows ≡ strip.rows)
unfolding encode_cells flatten to_byte
decode_map_patch-encode_cells_example =
    decode_map_patch-encode_cells some (λ raw. raw) (λ raw. refl) strip
      (record { tall = refl; wide = (refl, (refl, tt)) })
      ((omega arith, (omega arith, tt)), ((omega arith, (omega arith, tt)), tt)) "i8"
      (0 ∷ 255 ∷ 100 ∷ 7 ∷ []) refl

abbrev grid_of : Array → Grid ℕ
grid_of cells = record {
  cells = cells;
  resolution = 5;
  origin = (0, 0, 0);
  frame = "map";
  map_id = "";
  seq = negsuc 0;
  occupied_min = pos 65;
  free_max = pos 25;
  x0 = pos 0;
  y0 = pos 0;
  full = true;
  source = "";
  recv_ts_ns = 0;
  summary = none;
}

apply_patch-merge_map_patch_example : apply_patch (grid_of strip) (grid_of strip) "replace" ≡ (
    if supported "replace"
    then some (
        placed_in
          (grid_of strip)
          (grid_of strip)
          "replace"
          (merge_map_patch strip strip (pos 0) (pos 0) "replace"))
    else none)
apply_patch-merge_map_patch_example =
    apply_patch-merge_map_patch (grid_of strip) (grid_of strip) "replace"

-- The frame in flight lost its reply.
abbrev stuck : Client kinds
stuck = record robot { frames = record robot.frames { pending = (0, 1) ∷ []; seq = 1 } }

pump_all-sent_example :
    (pump_all kinds all_taken (item_at 9000 []) stuck).0.frames.sent ≡ stuck.frames.sent + 1
unfolding new
pump_all-sent_example =
    pump_all-sent kinds all_taken (λ m. refl) (item_at 9000 []) 5 stuck (omega arith) (omega arith)
      refl

-- The robot's map is "room" and the application takes updates.
abbrev listening : Client kinds
listening = record robot { callbacks = record deaf { map_update = true }; last_map = some 9 }

abbrev news : List (Option (Incoming kinds))
news =
    some (map_update (some "hall") (some 1)) ∷ none ∷ some (map_update (some "room") (some 2)) ∷ []

drain_results-fitting_example :
    patches kinds (drain_results kinds 50 news listening).1
    ≡ all_fitting kinds listening.last_map news
unfolding new
drain_results-fitting_example = drain_results-fitting kinds 50 news listening refl
