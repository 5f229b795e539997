-- ===== src/Occupancy/Tests.antt =====
-- The theorems on grids, on a map of two rows.
use robo_cam_stream_processi.Prelude.Int.{pos, negsuc, ℤ, ◌≤ℤ◌}
use robo_cam_stream_processi.Occupancy.Array.{Array, IsRect, cell, paste, count_ne_rows, count_ne}
use robo_cam_stream_processi.Occupancy.Grid.{Grid, counts, size, counts-total}
use robo_cam_stream_processi.Occupancy.Patch.{apply_patch, clip, merge_cell}
use robo_cam_stream_processi.Occupancy.Patch.Cells.{
  merged_at, apply_patch-merged_at, apply_patch_raises,
}
use robo_cam_stream_processi.Prelude.{
  ℕ, ◌∷◌, refl, ◌≡◌, ◌+◌, true, [], some, arith, none, Bool, List, Option,
}
use robo_cam_stream_processi.Occupancy.Decode.{
  MapHeader, decode_map, sized, filled, grid_of, unpack, thresholds, IsDecoded,
  decode_map-IsDecoded,
}
use robo_cam_stream_processi.Occupancy.Codec.{reshape, of_byte}

abbrev small_grid : Array → ℤ → ℤ → Grid ℕ
small_grid cells x0 y0 = record {
  cells = cells;
  resolution = 5;
  origin = (0, 0, 0);
  frame = "map";
  map_id = "";
  seq = negsuc 0;
  occupied_min = pos 65;
  free_max = pos 25;
  x0 = x0;
  y0 = y0;
  full = true;
  source = "";
  recv_ts_ns = 0;
  summary = none;
}

abbrev room : Array
room = record {
  height = 2;
  width = 3;
  rows = (pos 0 ∷ pos 100 ∷ negsuc 0 ∷ []) ∷ (pos 40 ∷ pos 10 ∷ pos 70 ∷ []) ∷ [];
}

abbrev update : Array
update = record {
  height = 2;
  width = 2;
  rows = (pos 9 ∷ pos 90 ∷ []) ∷ (negsuc 0 ∷ pos 80 ∷ []) ∷ [];
}

room-IsRect : IsRect room
room-IsRect = record { tall = refl; wide = (refl, (refl, tt)) }

update-IsRect : IsRect update
update-IsRect = record { tall = refl; wide = (refl, (refl, tt)) }

-- One column and one row of the patch hang over the edge.
abbrev patched : Array
patched = record {
  height = 2;
  width = 3;
  rows = (pos 80 ∷ pos 100 ∷ negsuc 0 ∷ []) ∷ (pos 40 ∷ pos 10 ∷ pos 70 ∷ []) ∷ [];
}

apply_patch-merged_at_example :
    (after : Grid ℕ × ℕ) × (apply_patch
        (small_grid room (pos 0) (pos 0))
        (small_grid update (negsuc 0) (negsuc 0))
        "max"
      ≡ some after)
    × ((r c : ℕ) → cell after.0.cells r c ≡ merged_at "max" update (negsuc 0) (negsuc 0) room r c)
apply_patch-merged_at_example =
    apply_patch-merged_at (small_grid room (pos 0) (pos 0))
      (small_grid update (negsuc 0) (negsuc 0)) "max" room-IsRect update-IsRect refl

free_kept : (w : ℤ) × (cell patched 0 0 ≡ some w) × (pos 0 ≤ℤ w)
unfolding apply_patch cell clip merge_cell paste count_ne_rows count_ne
free_kept =
    apply_patch_raises (small_grid room (pos 0) (pos 0)) (small_grid update (negsuc 0) (negsuc 0))
      (small_grid patched (pos 0) (pos 0), 1) room-IsRect update-IsRect refl 0 0 (pos 0) refl
      (omega arith)

four_classes :
    (counts (small_grid room (pos 0) (pos 0))).occupied
      + (counts (small_grid room (pos 0) (pos 0))).free
      + (counts (small_grid room (pos 0) (pos 0))).unknown
      + (counts (small_grid room (pos 0) (pos 0))).uncertain
    ≡ size (small_grid room (pos 0) (pos 0))
four_classes =
    counts-total (small_grid room (pos 0) (pos 0)) (omega arith) (omega arith) room-IsRect

abbrev header : MapHeader ℕ
header = record {
  geometry = some (pos 2, pos 1, 5);
  encoding = "i8";
  origin = some (0, 0, 0);
  occupied_min = pos 65;
  free_max = pos 25;
  frame = "";
  map_id = "room";
  seq = pos 4;
  x0 = pos 0;
  y0 = pos 0;
  full = true;
  source = "slam";
}

abbrev decoded : Grid ℕ
decoded = record {
  cells = record { height = 1; width = 2; rows = (pos 100 ∷ negsuc 0 ∷ []) ∷ [] };
  resolution = 5;
  origin = (0, 0, 0);
  frame = "map";
  map_id = "room";
  seq = pos 4;
  occupied_min = pos 65;
  free_max = pos 25;
  x0 = pos 0;
  y0 = pos 0;
  full = true;
  source = "slam";
  recv_ts_ns = 9;
  summary = none;
}

abbrev always : ℕ → Bool
always n = true

abbrev no_zlib : List ℕ → ℕ → Option (List ℕ)
no_zlib payload n = none

decode_map-IsDecoded_example : IsDecoded always always no_zlib header 16 decoded
unfolding decode_map sized filled grid_of unpack thresholds reshape of_byte
decode_map-IsDecoded_example =
    decode_map-IsDecoded always always no_zlib header (100 ∷ 255 ∷ []) 9 16 decoded refl
