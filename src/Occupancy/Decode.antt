-- ===== src/Occupancy/Decode.antt =====
-- `decode_map` of robocam/occupancy.py. A header's numbers are read already; floats are a parameter
-- `F`, with whether one is finite and whether it lies in the range of resolutions.
use robo_cam_stream_processi.Prelude.Int.{ℤ, pos, negsuc, leb_ℤ, ltb_ℤ, pos_part, ◌≤ℤ◌, ◌-ℤ◌}
use robo_cam_stream_processi.Prelude.{
  Option, Bool, String, List, ℕ, ◌⊎◌, ◌&&◌, inl, if◌then◌else◌, ◌≤◌, some, not, str_eq, inr, ◌*◌,
  ltb, none, length, ◌||◌, ◌≡◌, ◌==◌, ◌+◌, passed, subst, arith, inr_inj, ap₂, ◌∙◌, refl, false,
}
use robo_cam_stream_processi.Occupancy.Grid.{Grid}
use robo_cam_stream_processi.Occupancy.Codec.{
  reshape, map_enc_i8, map_enc_i8_zlib, length-reshape, reshape-AllWide,
}
use robo_cam_stream_processi.Occupancy.Array.{IsRect}
use mathlib.Core.Option.{none}

-- Why a map is refused, in the order of the checks.
pub data MapError : Type 0 where
  not_numeric not_positive too_large bad_resolution bad_encoding bad_zlib expands wrong_size
        bad_origin not_finite bad_thresholds :
      MapError

-- `none` for a geometry that is not numeric and for an origin that is not three numbers.
pub record MapHeader (F : Type 0) : Type 0 where
  pub geometry : Option (ℤ × ℤ × F)
  pub encoding : String
  pub origin : Option (F × F × F)
  pub occupied_min : ℤ
  pub free_max : ℤ
  pub frame : String
  pub map_id : String
  pub seq : ℤ
  pub x0 : ℤ
  pub y0 : ℤ
  pub full : Bool
  pub source : String

module _ {F : Type 0} (in_range finite : F → Bool) (inflate : List ℕ → ℕ → Option (List ℕ)) where
  -- `decompressobj().decompress(payload, n + 1)` and the check of what it gave.
  unfoldable pub bounded : ℕ → Option (List ℕ) → MapError ⊎ List ℕ
  bounded n none = inl bad_zlib
  bounded n (some raw) = if ltb n (length raw) then inl expands else inr raw

  unfoldable pub unpack : String → ℕ → List ℕ → MapError ⊎ List ℕ
  unfolding bounded
  unpack encoding n payload =
      if not (str_eq encoding map_enc_i8 || str_eq encoding map_enc_i8_zlib)
      then inl bad_encoding
      else if str_eq encoding map_enc_i8_zlib
      then bounded n (inflate payload (n + 1))
      else inr payload

  unfoldable pub grid_of : MapHeader F → ℕ → ℕ → F → F × F × F → ℕ → List ℕ → Grid F
  grid_of h width height resolution origin recv_ts_ns raw = record {
    cells = record { height = height; width = width; rows = reshape height width raw };
    resolution = resolution;
    origin = origin;
    frame = if str_eq h.frame "" then "map" else h.frame;
    map_id = h.map_id;
    seq = h.seq;
    occupied_min = h.occupied_min;
    free_max = h.free_max;
    x0 = h.x0;
    y0 = h.y0;
    full = h.full;
    source = h.source;
    recv_ts_ns = recv_ts_ns;
    summary = none;
  }

  -- 0 ≤ free_max < occupied_min ≤ 100
  unfoldable pub thresholds : MapHeader F → Bool
  thresholds h =
      leb_ℤ (pos 0) h.free_max
      && (ltb_ℤ h.free_max h.occupied_min && leb_ℤ h.occupied_min (pos 100))

  unfoldable pub placed :
      MapHeader F → ℕ → ℕ → F → ℕ → List ℕ → Option (F × F × F) → MapError ⊎ Grid F
  unfolding thresholds grid_of
  placed h width height resolution recv_ts_ns raw none = inl bad_origin
  placed h width height resolution recv_ts_ns raw (some (ox, oy, oyaw)) =
      if not (finite ox && (finite oy && finite oyaw))
      then inl not_finite
      else if not (thresholds h)
      then inl bad_thresholds
      else inr (grid_of h width height resolution (ox, oy, oyaw) recv_ts_ns raw)

  unfoldable pub filled : MapHeader F → ℕ → ℕ → F → ℕ → MapError ⊎ List ℕ → MapError ⊎ Grid F
  unfolding placed
  filled h width height resolution recv_ts_ns (inl error) = inl error
  filled h width height resolution recv_ts_ns (inr raw) =
      if not (length raw == width * height)
      then inl wrong_size
      else placed h width height resolution recv_ts_ns raw h.origin

  unfoldable pub sized : MapHeader F → List ℕ → ℕ → ℕ → Option (ℤ × ℤ × F) → MapError ⊎ Grid F
  unfolding filled unpack
  sized h payload recv_ts_ns max_cells none = inl not_numeric
  sized h payload recv_ts_ns max_cells (some (width, height, resolution)) =
      let w = pos_part width in
      let t = pos_part height in
      if leb_ℤ width (pos 0) || leb_ℤ height (pos 0)
      then inl not_positive
      else if ltb max_cells (w * t)
      then inl too_large
      else if not (in_range resolution)
      then inl bad_resolution
      else filled h w t resolution recv_ts_ns (unpack h.encoding (w * t) payload)

  unfoldable pub decode_map : MapHeader F → List ℕ → ℕ → ℕ → MapError ⊎ Grid F
  unfolding sized
  decode_map h payload recv_ts_ns max_cells = sized h payload recv_ts_ns max_cells h.geometry

  -- A grid that is accepted has the shape, the resolution and the thresholds of its header, is
  -- rectangular and no larger than allowed, and its thresholds are in order.
  pub record IsDecoded (h : MapHeader F) (max_cells : ℕ) (grid : Grid F) : Type 0 where
    pub geometry : h.geometry ≡ some (pos grid.cells.width, pos grid.cells.height, grid.resolution)
    pub own_thresholds : (grid.free_max ≡ h.free_max) × (grid.occupied_min ≡ h.occupied_min)
    pub rect : IsRect grid.cells
    pub positive : (1 ≤ grid.cells.width) × (1 ≤ grid.cells.height)
    pub allowed : grid.cells.width * grid.cells.height ≤ max_cells
    pub low : pos 0 ≤ℤ grid.free_max
    pub apart : grid.free_max ≤ℤ grid.occupied_min -ℤ pos 1
    pub high : grid.occupied_min ≤ℤ pos 100

  placed-IsDecoded :
      (h : MapHeader F) (w t : ℕ) (resolution : F) (now max_cells : ℕ) (raw : List ℕ)
      (origin : Option (F × F × F)) (grid : Grid F)
      → h.geometry ≡ some (pos w, pos t, resolution)
      → 1 ≤ w
      → 1 ≤ t
      → w * t ≤ max_cells
      → length raw ≡ w * t
      → placed h w t resolution now raw origin ≡ inr grid
      → IsDecoded h max_cells grid
  unfolding placed thresholds grid_of
  placed-IsDecoded h w t resolution now max_cells raw none grid said p q a l e = absurd cc
  placed-IsDecoded h w t resolution now max_cells raw (some (ox, oy, oyaw)) grid said p q a l e =
      let (_, f) = passed (not (finite ox && (finite oy && finite oyaw))) _ _ grid e in
      let (ordered, g) = passed (not (thresholds h)) _ _ grid f in
      subst (IsDecoded h max_cells) (inr_inj g) (record {
        geometry = said;
        own_thresholds = (refl, refl);
        rect = record { tall = length-reshape t w raw; wide = reshape-AllWide t w raw l };
        positive = (p, q);
        allowed = a;
        low = ground (arith, ordered);
        apart = ground (arith, ordered);
        high = ground (arith, ordered);
      })

  filled-IsDecoded :
      (h : MapHeader F) (w t : ℕ) (resolution : F) (now max_cells : ℕ) (raw : MapError ⊎ List ℕ)
      (grid : Grid F)
      → h.geometry ≡ some (pos w, pos t, resolution)
      → 1 ≤ w
      → 1 ≤ t
      → w * t ≤ max_cells
      → filled h w t resolution now raw ≡ inr grid
      → IsDecoded h max_cells grid
  unfolding filled
  filled-IsDecoded h w t resolution now max_cells (inl error) grid said p q a e = absurd cc
  filled-IsDecoded h w t resolution now max_cells (inr raw) grid said p q a e =
      let (right, f) = passed (not (length raw == w * t)) _ _ grid e in
      placed-IsDecoded h w t resolution now max_cells raw h.origin grid said p q a
        (ground (arith, right)) f

  positive_whole : (z : ℤ) → leb_ℤ z (pos 0) ≡ false → z ≡ pos (pos_part z)
  positive_whole (pos n) e = refl
  positive_whole (negsuc n) e = ground (arith, e)

  sized-IsDecoded :
      (h : MapHeader F) (payload : List ℕ) (now max_cells : ℕ) (geometry : Option (ℤ × ℤ × F))
      (grid : Grid F)
      → h.geometry ≡ geometry
      → sized h payload now max_cells geometry ≡ inr grid
      → IsDecoded h max_cells grid
  unfolding sized
  sized-IsDecoded h payload now max_cells none grid said e = absurd cc
  sized-IsDecoded h payload now max_cells (some (width, height, resolution)) grid said e =
      let w = pos_part width in
      let t = pos_part height in
      let (positive, f) = passed (leb_ℤ width (pos 0) || leb_ℤ height (pos 0)) _ _ grid e in
      let (fits, g) = passed (ltb max_cells (w * t)) _ _ grid f in
      let (_, i) = passed (not (in_range resolution)) _ _ grid g in
      let wide : leb_ℤ width (pos 0) ≡ false = ground (arith, positive) in
      let tall : leb_ℤ height (pos 0) ≡ false = ground (arith, positive) in
      let signs : some (width, height, resolution) ≡ some (pos w, pos t, resolution) =
        ap₂ (λ x y. some (x, y, resolution)) (positive_whole width wide)
          (positive_whole height tall) in
      filled-IsDecoded h w t resolution now max_cells (unpack h.encoding (w * t) payload) grid
        (said ∙ signs) (ground (arith, positive)) (ground (arith, positive)) (ground (arith, fits))
        i

  -- A grid that `decode_map` returns has as many rows and columns as its header says, at least one
  -- of each and no more cells than the limit, and the header's resolution and thresholds, with
  -- 0 ≤ free_max < occupied_min ≤ 100.
  pub decode_map-IsDecoded :
      (h : MapHeader F) (payload : List ℕ) (now max_cells : ℕ) (grid : Grid F)
      → decode_map h payload now max_cells ≡ inr grid
      → IsDecoded h max_cells grid
  unfolding decode_map
  decode_map-IsDecoded h payload now max_cells grid e =
      sized-IsDecoded h payload now max_cells h.geometry grid refl e
