-- ===== src/Decoders/Scans.antt =====
-- `decode_scan` and `encode_scan_payload` of robocam/lidar.py. Ranges are floats, a parameter;
-- `none` is the NaN of a beam without a return. The bearings with the angles they are made of are
-- float arithmetic and left out, as are the scan's time and the name of its source.
pub mod Explained
pub mod RoundTrip
use robo_cam_stream_processi.Decoders.Words.{words, packed, length-words}
use robo_cam_stream_processi.Prelude.{
  ℕ, String, List, Option, Bool, if◌then◌else◌, some, ◌⊎◌, map, ◌≡◌, ◌∷◌, length, ◌==◌, ◌&&◌,
  str_eq, inl, min, ◌++◌, not, ltb, leb, inr, ◌<◌, refl, ◌||◌, ◌*◌, ◌+◌, ◌≤◌, take, drop,
  Bool-cases, subst, eq_iff, length-map, arith, ◌∙◌, true, sym,
}
use robo_cam_stream_processi.Prelude.Int.{ℤ, negsuc, pos, eqb_ℤ}
use mathlib.Core.List.{[]}
use mathlib.Core.Option
use mathlib.Core.Option.{none}

pub record Floats : Type 1 where
  pub F : Type 0
  -- A number of millimetres over 1000, and back by `np.rint(m * 1000)`.
  pub of_mm : ℕ → F
  pub to_mm : F → ℕ
  -- The float of a 4-byte word; `none` unless it is finite and over 0.
  pub of_f32 : ℕ → Option F
  pub over_zero : F → Bool
  pub at_most : F → F → Bool
  -- An intensity as `np.uint8`; `none` where numpy raises.
  pub to_u8 : ℕ → Option ℕ

pub data ScanError : Type 0 where
  no_count no_points too_many short_payload unsupported : ScanError

-- The header's fields as they are read: `none` is a count that is no number, or a missing seq.
pub record ScanHeader (F : Type 0) : Type 0 where
  pub encoding : String
  pub count : Option ℤ
  pub intensities : Bool
  pub range_min : F
  pub range_max : F
  pub seq : Option ℤ

pub record Scan (F : Type 0) : Type 0 where
  pub ranges : List (Option F)
  pub intensities : Option (List ℕ)
  pub seq : ℤ

abbrev pub max_points : ℕ
max_points = 8192

-- `int(header.get("seq", -1) or -1)`
unfoldable pub seq_or : Option ℤ → ℤ
seq_or none = negsuc 0
seq_or (some s) = if eqb_ℤ s (pos 0) then negsuc 0 else s

unfoldable pub with_byte : Option ℕ → Option (List ℕ) → Option (List ℕ)
with_byte none bytes = none
with_byte (some b) none = none
with_byte (some b) (some bytes) = some (b ∷ bytes)

module _ (f : Floats) where
  open f use {F}

  unfoldable pub from_mm : ℕ → Option F
  from_mm mm = if mm == 0 then none else some (f.of_mm mm)

  -- The device's window, where it has one.
  unfoldable pub rated : F → F → Option F → Option F
  rated lo hi none = none
  rated lo hi (some r) =
      if (f.over_zero lo && not (f.at_most lo r)) || (f.over_zero hi && not (f.at_most r hi))
      then none
      else some r

  -- The ranges and how many bytes they took.
  unfoldable pub read_ranges : String → ℕ → List ℕ → ScanError ⊎ (ℕ × List (Option F))
  read_ranges encoding n payload =
      if str_eq encoding "u16mm"
      then (if ltb (length payload) (n * 2)
          then inl short_payload
          else inr (n * 2, map from_mm (words 2 n payload)))
      else if str_eq encoding "f32m"
      then (if ltb (length payload) (n * 4)
          then inl short_payload
          else inr (n * 4, map f.of_f32 (words 4 n payload)))
      else inl unsupported

  unfoldable pub read_intensities : Bool → ℕ → ℕ → List ℕ → Option (List ℕ)
  read_intensities wanted n offset payload =
      if wanted && leb (offset + n) (length payload)
      then some (take n (drop offset payload))
      else none

  unfoldable pub with_ranges :
      ScanHeader F → ℕ → List ℕ → ScanError ⊎ (ℕ × List (Option F)) → ScanError ⊎ Scan F
  with_ranges h n payload (inl e) = inl e
  with_ranges h n payload (inr (need, ranges)) = inr (record {
    ranges = map (rated h.range_min h.range_max) ranges;
    intensities = read_intensities h.intensities n need payload;
    seq = seq_or h.seq;
  })

  unfoldable pub decode_count : ScanHeader F → List ℕ → Option ℤ → ScanError ⊎ Scan F
  decode_count h payload none = inl no_count
  decode_count h payload (some (negsuc n)) = inl no_points
  decode_count h payload (some (pos n)) =
      if n == 0
      then inl no_points
      else if ltb max_points n
      then inl too_many
      else with_ranges h n payload (read_ranges h.encoding n payload)

  unfoldable pub decode_scan : ScanHeader F → List ℕ → ScanError ⊎ Scan F
  decode_scan h payload = decode_count h payload h.count

  unfoldable pub packed_mm : Option F → ℕ
  packed_mm none = 0
  packed_mm (some r) = if f.over_zero r then min 65535 (f.to_mm r) else 0

  unfoldable pub to_bytes : List ℕ → Option (List ℕ)
  unfolding with_byte
  to_bytes [] = some []
  to_bytes (v ∷ vs) = with_byte (f.to_u8 v) (to_bytes vs)

  -- `none` is an exception of numpy.
  unfoldable pub encode_scan_payload : List (Option F) → Option (List ℕ) → Option (List ℕ)
  encode_scan_payload ranges none = some (packed 2 (map packed_mm ranges))
  encode_scan_payload ranges (some intensities) =
      Option.map (λ bytes. packed 2 (map packed_mm ranges) ++ bytes) (to_bytes intensities)
