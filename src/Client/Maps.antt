-- ===== src/Client/Maps.antt =====
-- `decode_map_patch` and `merge_map_patch` of link/robocam_client.py. `decompress` is zlib's, `none`
-- where it raises.
use mathlib.Core.Path.{fun_ext}
use robo_cam_stream_processi.Prelude.Int.{
  ℤ, leb_ℤ, min_ℤ, eqb_ℤ, pos, ◌+ℤ◌, ltb_ℤ, pos_part, neg_part,
}
use robo_cam_stream_processi.Occupancy.Array.{
  Array, IsRect, slice, paste, count_ne_rows, zip_with, count_ne,
}
use robo_cam_stream_processi.Occupancy.Codec.{
  reshape, flatten, encode_cells, AllRowsInt8, reshape-flatten, length-flatten, map_enc_i8,
  map_enc_i8_zlib,
}
use robo_cam_stream_processi.Prelude.{
  List, String, ℕ, Option, some, if◌then◌else◌, ◌≡◌, length, str_eq, map, ◌==◌, Bool-cases, refl,
  ◌*◌, inl, some_inj, true, inr, ap, sym, ◌∙◌, arith, ◌∷◌, false, ◌&&◌, ◌||◌, ◌-◌,
}
use robo_cam_stream_processi.Occupancy.Grid.{Grid}
use robo_cam_stream_processi.Occupancy.Patch.{
  overlaid, apply_patch, Overlap, clip, supported, merge_cell,
}
use mathlib.Core.Option.{none}
use mathlib.Core.List.{[]}

module _ (decompress : List ℕ → Option (List ℕ)) where
  sized_patch : ℕ → ℕ → Option (List ℕ) → Option Array
  sized_patch width height none = none
  sized_patch width height (some raw) =
      if length raw == width * height
      then some (record { height = height; width = width; rows = reshape height width raw })
      else none

  -- `none` is a ValueError or zlib.error.
  unfoldable pub decode_map_patch : ℕ → ℕ → String → List ℕ → Option Array
  unfolding sized_patch
  decode_map_patch width height encoding payload =
      sized_patch width height
        (if str_eq encoding map_enc_i8_zlib then decompress payload else some payload)

  unpacked :
      (compress : List ℕ → List ℕ)
      → ((raw : List ℕ) → decompress (compress raw) ≡ some raw)
      → (rows : List (List ℤ)) (encoding : String) (payload : List ℕ)
      → encode_cells compress rows encoding ≡ some payload
      → (if str_eq encoding map_enc_i8_zlib then decompress payload else some payload)
        ≡ some (flatten rows)
  unfolding encode_cells
  unpacked compress undo rows encoding payload e =
      elim (Bool-cases (str_eq encoding map_enc_i8_zlib)) [
        | inl zlib ↦
            let p : compress (flatten rows) ≡ payload = some_inj (simp zlib at e) in
            rw (zlib, ← p) (undo (flatten rows))
        | inr plain ↦ elim (Bool-cases (str_eq encoding map_enc_i8)) [
          | inl raw ↦
              let p : some (flatten rows) ≡ some payload = simp (plain, raw) at e in
              rw plain (sym p)
          | inr other ↦ let p : none ≡ some payload = simp (plain, other) at e in absurd cc
        ]
      ]

  -- What the server's `encode_cells` packs, in either encoding, the client's `decode_map_patch`
  -- unpacks to the same cells, if zlib undoes itself, the rows are of one length and the cells int8.
  pub decode_map_patch-encode_cells :
      (compress : List ℕ → List ℕ)
      → ((raw : List ℕ) → decompress (compress raw) ≡ some raw)
      → (a : Array) → IsRect a
      → AllRowsInt8 a.rows
      → (encoding : String) (payload : List ℕ)
      → encode_cells compress a.rows encoding ≡ some payload
      → (b : Array) × (decode_map_patch a.width a.height encoding payload ≡ some b)
        × (b.rows ≡ a.rows)
  unfolding decode_map_patch sized_patch
  decode_map_patch-encode_cells compress undo a r int8 encoding payload e =
      let same = unpacked compress undo a.rows encoding payload e in
      let area = length-flatten a.rows a.width r.wide in
      let fits : (length (flatten a.rows) == a.width * a.height) ≡ true =
        ap (λ n. n == a.width * a.height) (area ∙ ap (λ n. a.width * n) r.tall) ∙ ground arith in
      let rows =
        ap (λ n. reshape n a.width (flatten a.rows)) (sym r.tall)
        ∙ reshape-flatten a.rows a.width r.wide int8 in
      (
        record {
          height = a.height;
          width = a.width;
          rows = reshape a.height a.width (flatten a.rows);
        },
        ap (sized_patch a.width a.height) same
            ∙ ap
                (λ b.
                  if b
                  then some (record {
                    height = a.height;
                    width = a.width;
                    rows = reshape a.height a.width (flatten a.rows);
                  })
                  else none)
                fits,
        rows,
      )

-- `np.where(has_opinion & (source > target), source, target)`
unfoldable pub higher : ℤ → ℤ → ℤ
higher target source = if leb_ℤ (pos 0) source && ltb_ℤ target source then source else target

abbrev pub replaced : ℤ → ℤ → ℤ
replaced target source = source

-- The rectangles that overlap: where they start in the grid and in the patch, and their size.
pub record Window : Type 0 where
  pub dx0 : ℕ
  pub dy0 : ℕ
  pub sx0 : ℕ
  pub sy0 : ℕ
  pub columns : ℕ
  pub lines : ℕ

-- A word that is not "replace" is "max".
unfoldable pub merged : Array → Array → String → Window → Array × ℕ
unfolding higher
merged grid patch merge w =
    let target = map (slice w.dx0 w.columns) (slice w.dy0 w.lines grid.rows) in
    let source = map (slice w.sx0 w.columns) (slice w.sy0 w.lines patch.rows) in
    if str_eq merge "replace"
    then (
      record grid {
        rows =
            paste (paste replaced w.dx0 w.columns w.sx0) w.dy0 w.lines w.sy0 grid.rows patch.rows;
      },
      count_ne_rows target source,
    )
    else (
      record grid {
        rows = paste (paste higher w.dx0 w.columns w.sx0) w.dy0 w.lines w.sy0 grid.rows patch.rows;
      },
      count_ne_rows (zip_with (zip_with higher) target source) target,
    )

-- The array after the merge and how many cells changed.
unfoldable pub merge_map_patch : Array → Array → ℤ → ℤ → String → Array × ℕ
unfolding merged
merge_map_patch grid patch x0 y0 merge =
    let dx1 = min_ℤ (pos grid.width) (x0 +ℤ pos patch.width) in
    let dy1 = min_ℤ (pos grid.height) (y0 +ℤ pos patch.height) in
    if leb_ℤ dx1 (pos (pos_part x0)) || leb_ℤ dy1 (pos (pos_part y0))
    then (grid, 0)
    else merged grid patch merge (record {
      dx0 = pos_part x0;
      dy0 = pos_part y0;
      sx0 = neg_part x0;
      sy0 = neg_part y0;
      columns = pos_part dx1 - pos_part x0;
      lines = pos_part dy1 - pos_part y0;
    })

eqb_ℤ-comm : (x y : ℤ) → eqb_ℤ x y ≡ eqb_ℤ y x
eqb_ℤ-comm x y = ground arith

count_ne-replaced : (xs ys : List ℤ) → count_ne (zip_with replaced xs ys) xs ≡ count_ne xs ys
unfolding count_ne
count_ne-replaced [] ys = refl
count_ne-replaced (x ∷ xs) [] = refl
count_ne-replaced (x ∷ xs) (y ∷ ys) = rw (eqb_ℤ-comm y x, count_ne-replaced xs ys) refl

count_ne_rows-replaced :
    (xs ys : List (List ℤ))
    → count_ne_rows (zip_with (zip_with replaced) xs ys) xs ≡ count_ne_rows xs ys
unfolding count_ne_rows
count_ne_rows-replaced [] ys = refl
count_ne_rows-replaced (x ∷ xs) [] = refl
count_ne_rows-replaced (x ∷ xs) (y ∷ ys) =
    rw (count_ne-replaced x y, count_ne_rows-replaced xs ys) refl

merge_cell-replace : (merge : String) → str_eq merge "replace" ≡ true → merge_cell merge ≡ replaced
unfolding merge_cell
merge_cell-replace merge e = fun_ext (λ t. fun_ext (λ s. simp e refl))

merge_cell-max : (merge : String) → str_eq merge "replace" ≡ false → merge_cell merge ≡ higher
unfolding merge_cell higher
merge_cell-max merge e = fun_ext (λ t. fun_ext (λ s. simp e refl))

module _ {F : Type 0} (grid patch : Grid F) (merge : String) where
  abbrev pub placed_in : Array × ℕ → Grid F × ℕ
  placed_in (cells, changed) = (record grid { cells = cells }, changed)

  overlaid-merged :
      (w : Window)
      → overlaid grid patch.cells merge
          (some (record { start = w.dx0; count = w.columns; from = w.sx0 }))
          (some (record { start = w.dy0; count = w.lines; from = w.sy0 }))
        ≡ placed_in (merged grid.cells patch.cells merge w)
  unfolding overlaid merged
  overlaid-merged w = elim (Bool-cases (str_eq merge "replace")) [
    | inl replace ↦ rw (replace, merge_cell-replace merge replace, count_ne_rows-replaced) refl
    | inr other ↦ rw (other, merge_cell-max merge other) refl
  ]

  overlaid-none : (xs : Option Overlap) → overlaid grid patch.cells merge xs none ≡ (grid, 0)
  unfolding overlaid
  overlaid-none none = refl
  overlaid-none (some x) = refl

  overlaid-merge_map_patch :
      overlaid grid patch.cells merge
        (clip grid.cells.width patch.x0 patch.cells.width)
        (clip grid.cells.height patch.y0 patch.cells.height)
      ≡ placed_in (merge_map_patch grid.cells patch.cells patch.x0 patch.y0 merge)
  unfolding merge_map_patch clip
  overlaid-merge_map_patch =
      let dx1 = min_ℤ (pos grid.cells.width) (patch.x0 +ℤ pos patch.cells.width) in
      let dy1 = min_ℤ (pos grid.cells.height) (patch.y0 +ℤ pos patch.cells.height) in
      elim (Bool-cases (leb_ℤ dx1 (pos (pos_part patch.x0)))) [
        | inl left ↦ rw left (unfold overlaid in refl)
        | inr right ↦ elim (Bool-cases (leb_ℤ dy1 (pos (pos_part patch.y0)))) [
          | inl above ↦ rw (right, above) (overlaid-none _)
          | inr below ↦ rw (right, below) (overlaid-merged _)
        ]
      ]

  -- The client's copy of the merge and the server's `apply_patch` agree, in the cells and in the
  -- count, on the merge words that the protocol has; on another word the server refuses, where the
  -- client still merges.
  pub apply_patch-merge_map_patch : apply_patch grid patch merge ≡ (
      if supported merge
      then some (placed_in (merge_map_patch grid.cells patch.cells patch.x0 patch.y0 merge))
      else none)
  unfolding apply_patch
  apply_patch-merge_map_patch = rw overlaid-merge_map_patch refl
