-- ===== src/Server/Maps.antt =====
-- `_on_map` of robocam/server.py: a full grid takes the place of the session's, a patch is merged
-- into it. The grid is what `decode_map` made of the message. The t1 verdict is left out.
use mathlib.Core.Option
use robo_cam_stream_processi.Prelude.Int.{ℤ}
use robo_cam_stream_processi.Occupancy.Grid.{Grid, counts}
use robo_cam_stream_processi.Server.Session.{Sensors, Config, Session}
use robo_cam_stream_processi.Server.Streams.{map_stream, reason_ok, Answered, about}
use robo_cam_stream_processi.Prelude.{
  String, ℕ, Option, ◌+◌, some, ◌≡◌, ◌∷◌, if◌then◌else◌, ◌⊎◌, map, false, [], str_eq, inl, not, inr,
  if_both, refl, ap, ◌∙◌, Bool-cases, inl, inr, eq_iff,
}
use robo_cam_stream_processi.Occupancy.Decode.{MapError, too_large}
use mathlib.Core.Option.{none}
use robo_cam_stream_processi.Occupancy.Patch.{apply_patch, overlaid, clip, Overlap}
use robo_cam_stream_processi.Occupancy.Array.{Array}

module _ (s : Sensors) where
  open s use {Float}

  refuse_map : ℤ → String → Session s → Answered s
  refuse_map seq reason c = (
    record c { maps_failed = c.maps_failed + 1 },
    record { stream = map_stream; seq = seq; reason = reason } ∷ [],
  )

  hold : ℕ → ℤ → Grid Float → Session s → Answered s
  hold now seq grid c = (
    record c { grid = some (record grid { summary = some (counts grid) }); grid_at = now },
    record { stream = map_stream; seq = seq; reason = reason_ok } ∷ [],
  )

  -- `apply_patch` with "replace", which it supports.
  merge_into : ℕ → ℤ → Grid Float → Option (Grid Float × ℕ) → Session s → Answered s
  unfolding refuse_map hold
  merge_into now seq patch none c = refuse_map seq "bad_map" c
  merge_into now seq patch (some (merged, changed)) c =
      hold now seq (record merged { seq = patch.seq }) c

  place_patch : ℕ → ℤ → Grid Float → Option (Grid Float) → Session s → Answered s
  unfolding refuse_map merge_into
  place_patch now seq patch none c = refuse_map seq "bad_map" c
  place_patch now seq patch (some held) c =
      if str_eq held.map_id patch.map_id
      then merge_into now seq patch (apply_patch held patch "replace") c
      else refuse_map seq "bad_map" c

  accept_map : ℕ → ℤ → MapError ⊎ Grid Float → Session s → Answered s
  unfolding refuse_map hold place_patch
  accept_map now seq (inl too_large) c = refuse_map seq "map_too_large" c
  accept_map now seq (inl error) c = refuse_map seq "bad_map" c
  accept_map now seq (inr grid) c =
      if grid.full then hold now seq grid c else place_patch now seq grid c.grid c

  unfoldable pub on_map : Config → ℕ → ℤ → ℕ → MapError ⊎ Grid Float → Session s → Answered s
  unfolding accept_map
  on_map cfg now seq bytes decoded c =
      if not cfg.map_enabled
      then (c, record { stream = map_stream; seq = seq; reason = "map_disabled" } ∷ [])
      else accept_map now seq decoded (record c {
        maps_received = c.maps_received + 1;
        bytes_received = c.bytes_received + bytes;
      })

  -- The identity of the map that the session holds, and whether it holds one.
  pub held_id : Session s → Option String
  held_id c = Option.map (λ (grid : Grid Float). grid.map_id) c.grid

  overlaid-map_id :
      (grid : Grid Float) (patch : Array) (merge : String) (xs ys : Option Overlap)
      → (overlaid grid patch merge xs ys).0.map_id ≡ grid.map_id
  unfolding overlaid
  overlaid-map_id grid patch merge none ys = refl
  overlaid-map_id grid patch merge (some x) none = refl
  overlaid-map_id grid patch merge (some x) (some y) = refl

  -- The patch belongs to the map that the session holds, and what it holds is still that map.
  abbrev pub Belongs : Grid Float → Session s → Session s → Type 0
  Belongs patch c d = (held_id c ≡ some patch.map_id) × (held_id d ≡ some patch.map_id)

  -- The grid is as it was, or the patch belongs to it; and the message got its reply.
  pub IsPatched : ℤ → Grid Float → Session s → Answered s → Type 0
  IsPatched seq patch c r =
      ((r.0.grid ≡ c.grid) ⊎ Belongs patch c r.0) × (map about r.1 ≡ (map_stream, seq) ∷ [])

  place_patch-held :
      (now : ℕ) (seq : ℤ) (patch : Grid Float) (held : Option (Grid Float)) (c : Session s)
      → c.grid ≡ held
      → IsPatched seq patch c (place_patch now seq patch held c)
  unfolding place_patch held_id refuse_map apply_patch IsPatched hold merge_into
  place_patch-held now seq patch none c e = (inl refl, refl)
  place_patch-held now seq patch (some held) c e =
      let id =
        overlaid-map_id held patch.cells "replace"
          (clip held.cells.width patch.x0 patch.cells.width)
          (clip held.cells.height patch.y0 patch.cells.height) in
      let kept : held_id c ≡ some held.map_id =
        ap (Option.map (λ (grid : Grid Float). grid.map_id)) e in
      elim (Bool-cases (str_eq held.map_id patch.map_id)) [
        | inl same ↦
            let one = ap some ((eq_iff held.map_id patch.map_id).0 same) in
            rw same (inr (kept ∙ one, ap some id ∙ one), refl)
        | inr other ↦ rw other (inl refl, refl)
      ]

  accept_map-held :
      (now : ℕ) (seq : ℤ) (grid : Grid Float) (c : Session s)
      → grid.full ≡ false
      → IsPatched seq grid c (accept_map now seq (inr grid) c)
  unfolding accept_map
  accept_map-held now seq grid c partial =
      simp partial (place_patch-held now seq grid c.grid c refl)

  -- A patch, a grid that is not full, gets exactly one reply, of the map's stream and with its
  -- number. The session's grid stays as it was, or the patch bears the id of the map that the
  -- session holds, and what the session then holds bears it too: a patch of another map changes no
  -- cell, and where there was no grid there is none.
  pub on_map-IsPatched :
      (cfg : Config) (now : ℕ) (seq : ℤ) (bytes : ℕ) (grid : Grid Float) (c : Session s)
      → grid.full ≡ false
      → IsPatched seq grid c (on_map cfg now seq bytes (inr grid) c)
  unfolding on_map held_id IsPatched
  on_map-IsPatched cfg now seq bytes grid c partial =
      if_both (IsPatched seq grid c) (not cfg.map_enabled) (inl refl, refl)
        (accept_map-held now seq grid
          (record c {
            maps_received = c.maps_received + 1;
            bytes_received = c.bytes_received + bytes;
          })
          partial)
