-- ===== src/Decoders/Scans/RoundTrip.antt =====
-- `encode_scan_payload` of robocam/lidar.py and its way back.
use robo_cam_stream_processi.Decoders.Words.{
  words, packed, AllBelow, words-packed, length-packed, drop-append_self, take-append_self,
}
use robo_cam_stream_processi.Decoders.Scans.{
  Floats, ScanHeader, max_points, seq_or, from_mm, rated, read_ranges, read_intensities,
  with_ranges, decode_count, decode_scan, packed_mm, encode_scan_payload, to_bytes, with_byte,
}
use robo_cam_stream_processi.Prelude.{
  ◌≡◌, List, some, true, Option, min, ◌<◌, ◌∷◌, map, arith, ℕ, ◌==◌, false, refl, length, ◌≤◌, inr,
  if◌then◌else◌, String, Bool, length-map, ◌++◌, ◌*◌, ltb, eq_iff, leb, length-append, ◌+◌, subst,
  drop, take, ap, sym, append-nil, ◌∙◌,
}
use mathlib.Core.List.{[]}
use robo_cam_stream_processi.Prelude.Int.{pos}
use mathlib.Core.Option
use mathlib.Core.Option.{none}

module _ (f : Floats) where
  open f use {F}

  -- A range that millimetres can say, and that lies in the window.
  pub record IsExact (h : ScanHeader F) (r : F) : Type 0 where
    pub over_zero : f.over_zero r ≡ true
    pub some_mm : 0 < f.to_mm r
    pub few_mm : f.to_mm r < 65536
    pub back : f.of_mm (f.to_mm r) ≡ r
    pub in_window : rated f h.range_min h.range_max (some r) ≡ some r

  unfoldable pub AllExact : ScanHeader F → List (Option F) → Type 0
  AllExact h [] = Unit
  AllExact h (none ∷ ranges) = AllExact h ranges
  AllExact h (some r ∷ ranges) = IsExact h r × AllExact h ranges

  packed_mm-below :
      (h : ScanHeader F) (ranges : List (Option F)) → AllBelow 65536 (map (packed_mm f) ranges)
  unfolding packed_mm
  packed_mm-below h [] = tt
  packed_mm-below h (none ∷ ranges) = (omega arith, packed_mm-below h ranges)
  packed_mm-below h (some r ∷ ranges) = (ground arith, packed_mm-below h ranges)

  one_back : (h : ScanHeader F) (r : F) → IsExact h r → from_mm f (packed_mm f (some r)) ≡ some r
  unfolding from_mm packed_mm
  one_back h r e =
      let size : min 65535 (f.to_mm r) ≡ f.to_mm r = omega (arith, e.few_mm) in
      let there : (f.to_mm r == 0) ≡ false = ground (arith, e.some_mm) in
      rw (e.over_zero, size, there, e.back) refl

  gap_back :
      (h : ScanHeader F) → rated f h.range_min h.range_max (from_mm f (packed_mm f none)) ≡ none
  unfolding rated from_mm packed_mm
  gap_back h = refl

  read_back :
      (encoding : String) (mms more : List ℕ) (n : ℕ)
      → encoding ≡ "u16mm"
      → length mms ≡ n
      → AllBelow 65536 mms
      → read_ranges f encoding n (packed 2 mms ++ more) ≡ inr (n * 2, map (from_mm f) mms)
  unfolding read_ranges
  read_back encoding mms more n u16 size small =
      let known = (eq_iff encoding "u16mm").1 u16 in
      let payload = packed 2 mms ++ more in
      let enough : ltb (length payload) (n * 2) ≡ false =
        ground (arith, length-append (packed 2 mms) more, length-packed 2 mms, size) in
      let read : words 2 n payload ≡ mms =
        subst (λ k. words 2 k payload ≡ mms) size (words-packed 2 mms more small) in
      rw (known, enough, read) refl

  intensities_back :
      (wanted : Bool) (mms more : List ℕ) (n : ℕ)
      → length mms ≡ n
      → length more ≡ n
      → read_intensities f wanted n (n * 2) (packed 2 mms ++ more)
        ≡ (if wanted then some more else none)
  unfolding read_intensities
  intensities_back false mms more n size as_many = refl
  intensities_back true mms more n size as_many =
      let payload = packed 2 mms ++ more in
      let packed_size = length-packed 2 mms in
      let fits : leb (n * 2 + n) (length payload) ≡ true =
        ground (arith, length-append (packed 2 mms) more, packed_size, size, as_many) in
      let behind : drop (n * 2) payload ≡ more =
        drop-append_self (packed 2 mms) more (n * 2) (omega (arith, packed_size, size)) in
      let whole : take n more ≡ more =
        ap (take n) (sym (append-nil more)) ∙ take-append_self more [] n as_many in
      rw (fits, behind, whole) refl

  ranges_back :
      (h : ScanHeader F) (ranges : List (Option F))
      → AllExact h ranges
      → map (rated f h.range_min h.range_max) (map (from_mm f) (map (packed_mm f) ranges)) ≡ ranges
  unfolding AllExact
  ranges_back h [] all = refl
  ranges_back h (none ∷ ranges) all = rw (gap_back h, ranges_back h ranges all) refl
  ranges_back h (some r ∷ ranges) (e, all) =
      rw (one_back h r e, e.in_window, ranges_back h ranges all) refl

  to_bytes_same :
      ((v : ℕ) → v < 256 → f.to_u8 v ≡ some v)
      → (vs : List ℕ) → AllBelow 256 vs
      → to_bytes f vs ≡ some vs
  unfolding to_bytes with_byte
  to_bytes_same u8 [] all = refl
  to_bytes_same u8 (v ∷ vs) (small, all) = rw (u8 v small, to_bytes_same u8 vs all) refl

  -- Ranges that millimetres can say and the window holds, and gaps between them, are encoded and read
  -- back as they were, with the intensities where the header announces them, if they are as many
  -- and under 256, which `np.uint8` holds as they are.
  pub decode_scan-encode_scan_payload :
      ((v : ℕ) → v < 256 → f.to_u8 v ≡ some v)
      → (h : ScanHeader F) (ranges : List (Option F)) (intensities : List ℕ)
      → AllBelow 256 intensities
      → h.encoding ≡ "u16mm"
      → h.count ≡ some (pos (length ranges))
      → 0 < length ranges
      → length ranges ≤ max_points
      → length intensities ≡ length ranges
      → AllExact h ranges
      → Option.map (decode_scan f h) (encode_scan_payload f ranges (some intensities))
        ≡ some (
            inr (record {
              ranges = ranges;
              intensities = if h.intensities then some intensities else none;
              seq = seq_or h.seq;
            }))
  unfolding decode_scan encode_scan_payload decode_count read_ranges with_ranges read_intensities
  decode_scan-encode_scan_payload u8 h ranges intensities bytes u16 counted low high as_many all =
      let n = length ranges in
      let mms = map (packed_mm f) ranges in
      let size : length mms ≡ n = length-map ranges (packed_mm f) in
      let there : (n == 0) ≡ false = ground (arith, low) in
      let few : ltb max_points n ≡ false = ground (arith, high) in
      rw
        (
          to_bytes_same u8 intensities bytes,
          counted,
          there,
          few,
          read_back h.encoding mms intensities n u16 size (packed_mm-below h ranges),
          intensities_back h.intensities mms intensities n size as_many,
          ranges_back h ranges all,
        )
        refl
