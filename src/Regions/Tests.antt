-- ===== src/Regions/Tests.antt =====
-- The components of a small array, and the theorem on it.
use robo_cam_stream_processi.Regions.Components.{
  components, components_from, block_at, nonzero_rows, nonzero_row, grow, push_all, push, mark,
  neighbours, same_place,
}
use robo_cam_stream_processi.Regions.Components.Partition.{IsPartition, components-IsPartition}
use robo_cam_stream_processi.Prelude.{List, ◌≡◌, Bool, ◌∷◌, true, [], false, refl}

-- x x .
-- . x .
-- x . x
abbrev blocks : List (List Bool)
blocks = (true ∷ true ∷ false ∷ []) ∷ (false ∷ true ∷ false ∷ []) ∷ (true ∷ false ∷ true ∷ []) ∷ []

components-IsPartition_example : IsPartition blocks (components blocks)
components-IsPartition_example = components-IsPartition blocks

three_regions :
    components blocks ≡ ((0, 0) ∷ (0, 1) ∷ (1, 1) ∷ []) ∷ ((2, 0) ∷ []) ∷ ((2, 2) ∷ []) ∷ []
unfolding components components_from block_at nonzero_rows nonzero_row grow push_all push mark
    neighbours same_place
three_regions = refl
