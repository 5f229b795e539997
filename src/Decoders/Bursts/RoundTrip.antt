-- ===== src/Decoders/Bursts/RoundTrip.antt =====
-- `encode_imu_payload` of robocam/imu.py and its way back.
use robo_cam_stream_processi.Decoders.Words.{
  words, packed, AllBelow, words-packed, length-packed, take-append_self, drop-append_self,
}
use robo_cam_stream_processi.Decoders.Bursts.{
  Floats, ImuHeader, of_i4, to_i4, flat, rows_of, scaled_row, pos, scaled, negsuc, decode_imu,
  names_of, encode_imu_payload, decode_burst, has_duplicates, read_batch, batch, max_samples, to_si,
}
use robo_cam_stream_processi.Prelude.{
  ℕ, List, ◌<◌, ◌∷◌, map, ◌≡◌, length, String, arith, ap₂, ◌*◌, false, some, ◌++◌, length-map, refl,
  length-append, ap, ◌+◌, ◌∙◌, drop, inr, subst, sym, ◌≤◌, append-nil, eq_iff, ◌==◌, ltb,
}
use robo_cam_stream_processi.Prelude.Int.{ℤ, pos_part}
use mathlib.Core.List.{[]}
use robo_cam_stream_processi.Decoders.Scans.{seq_or}

abbrev pub AllWide : {A : Type 0} → ℕ → List (List A) → Type 0
AllWide w [] = Unit
AllWide w (row ∷ rows) = (length row ≡ w) × AllWide w rows

-- A signed number of 4 bytes.
abbrev pub IsI4 : ℤ → Type 0
IsI4 (pos x) = x < 2_147_483_648
IsI4 (negsuc x) = x < 2_147_483_648

abbrev pub AllI4 : List ℤ → Type 0
AllI4 [] = Unit
AllI4 (z ∷ zs) = IsI4 z × AllI4 zs

of_i4-below : (zs : List ℤ) → AllBelow 4_294_967_296 (map of_i4 zs)
unfolding of_i4
of_i4-below [] = tt
of_i4-below (pos x ∷ zs) = (omega arith, of_i4-below zs)
of_i4-below (negsuc x ∷ zs) = (omega arith, of_i4-below zs)

to_i4-of_i4 : (z : ℤ) → IsI4 z → to_i4 (of_i4 z) ≡ z
unfolding to_i4 of_i4
to_i4-of_i4 (pos x) h = ground (arith, h)
to_i4-of_i4 (negsuc x) h = ground (arith, h)

i4_back : (zs : List ℤ) → AllI4 zs → map to_i4 (map of_i4 zs) ≡ zs
i4_back [] all = refl
i4_back (z ∷ zs) (h, all) = ap₂ (◌∷◌) (to_i4-of_i4 z h) (i4_back zs all)

length-flat :
    {A : Type 0} (w : ℕ) (rows : List (List A))
    → AllWide w rows
    → length (flat rows) ≡ length rows * w
unfolding flat
length-flat w [] all = omega arith
length-flat w (row ∷ rows) (size, all) =
    ground (arith, length-append row (flat rows), size, length-flat w rows all)

rows_of-flat :
    {A : Type 0} (w : ℕ) (rows : List (List A))
    → AllWide w rows
    → rows_of w (length rows) (flat rows) ≡ rows
unfolding rows_of flat
rows_of-flat w [] all = refl
rows_of-flat w (row ∷ rows) (size, all) =
    rw
      (
        take-append_self row (flat rows) w size,
        drop-append_self row (flat rows) w size,
        rows_of-flat w rows all,
      )
      refl

module _ (f : Floats) where
  open f use {F}

  -- A value that a 4-byte word says.
  pub record IsExact (v : F) : Type 0 where
    pub small : f.to_f32 v < 4_294_967_296
    pub back : f.of_f32 (f.to_f32 v) ≡ v

  abbrev pub AllExact : List F → Type 0
  AllExact [] = Unit
  AllExact (v ∷ vs) = IsExact v × AllExact vs

  to_f32-below : (vs : List F) → AllExact vs → AllBelow 4_294_967_296 (map f.to_f32 vs)
  to_f32-below [] all = tt
  to_f32-below (v ∷ vs) (e, all) = (e.small, to_f32-below vs all)

  f32_back : (vs : List F) → AllExact vs → map f.of_f32 (map f.to_f32 vs) ≡ vs
  f32_back [] all = refl
  f32_back (v ∷ vs) (e, all) = ap₂ (◌∷◌) e.back (f32_back vs all)

  unscaled :
      (names : List String) (row : List F)
      → length row ≡ length names
      → scaled_row f false false names row ≡ row
  unfolding scaled_row scaled
  unscaled [] row e = refl
  unscaled (name ∷ names) [] e = refl
  unscaled (name ∷ names) (v ∷ row) e = ap (◌∷◌ v) (unscaled names row (omega (arith, e)))

  unscaled_rows :
      (names : List String) (rows : List (List F))
      → AllWide (length names) rows
      → map (scaled_row f false false names) rows ≡ rows
  unscaled_rows names [] all = refl
  unscaled_rows names (row ∷ rows) (size, all) =
      ap₂ (◌∷◌) (unscaled names row size) (unscaled_rows names rows all)

  -- A header that says what the payload holds, in the units that need no change.
  pub record Announces (h : ImuHeader) (names : List String) (n : ℕ) : Type 0 where
    pub encoding : h.encoding ≡ "f32"
    pub count : h.count ≡ some (pos n)
    pub fields : names_of h.fields ≡ inr names
    pub different : has_duplicates names ≡ false
    pub gyro : h.gyro_units ≡ "rad/s"
    pub accel : h.accel_units ≡ "m/s2"
    pub low : 0 < n
    pub high : n ≤ max_samples

  module _ (values : List (List F)) (offsets : List ℤ) (names : List String)
      (wide : AllWide (length names) values) (as_many : length offsets ≡ length values)
      (i4 : AllI4 offsets) (exact : AllExact (flat values)) where
    abbrev stamps : List ℕ
    stamps = packed 4 (map of_i4 offsets)

    abbrev payload : List ℕ
    payload = stamps ++ packed 4 (map f.to_f32 (flat values))

    stamps_size : length stamps ≡ length values * 4
    stamps_size =
        omega (arith, length-packed 4 (map of_i4 offsets), length-map offsets of_i4, as_many)

    payload_size : length payload ≡ length values * 4 + length values * length names * 4
    payload_size = omega (
      arith,
      stamps_size,
      length-append stamps (packed 4 (map f.to_f32 (flat values))),
      length-packed 4 (map f.to_f32 (flat values)),
      length-map (flat values) f.to_f32,
      length-flat (length names) values wide,
    )

    offsets_back : map to_i4 (words 4 (length values) payload) ≡ offsets
    offsets_back =
        let size : length (map of_i4 offsets) ≡ length values =
          length-map offsets of_i4 ∙ as_many in
        let read =
          words-packed 4 (map of_i4 offsets) (packed 4 (map f.to_f32 (flat values)))
            (of_i4-below offsets) in
        ap (map to_i4) (subst (λ k. words 4 k payload ≡ map of_i4 offsets) size read)
        ∙ i4_back offsets i4

    values_back :
        rows_of
          (length names)
          (length values)
          (map f.of_f32 (words 4 (length values * length names) (drop (length values * 4) payload)))
        ≡ values
    values_back =
        let behind =
          drop-append_self stamps (packed 4 (map f.to_f32 (flat values))) (length values * 4)
            stamps_size in
        let size : length (map f.to_f32 (flat values)) ≡ length values * length names =
          length-map (flat values) f.to_f32 ∙ length-flat (length names) values wide in
        let read =
          words-packed 4 (map f.to_f32 (flat values)) [] (to_f32-below (flat values) exact) in
        let words_back : words 4 (length values * length names)
              (packed 4 (map f.to_f32 (flat values)))
            ≡ map f.to_f32 (flat values) =
          subst
            (λ k. words 4 k (packed 4 (map f.to_f32 (flat values))) ≡ map f.to_f32 (flat values))
            size
            (ap (words 4 (length (map f.to_f32 (flat values))))
                (sym (append-nil (packed 4 (map f.to_f32 (flat values)))))
              ∙ read) in
        rw
          (
            behind,
            words_back,
            f32_back (flat values) exact,
            rows_of-flat (length names) values wide,
          )
          refl

    -- Samples of as many channels as the header names, all different, whose values 4-byte words
    -- say, with their offsets, are read back as they were, in the units that need no change.
    pub decode_imu-encode_imu_payload :
        (h : ImuHeader)
        → Announces h names (length values)
        → decode_imu f h (encode_imu_payload f values offsets)
          ≡ inr (record {
            values = values;
            fields = names;
            offsets_us = offsets;
            seq = seq_or h.seq;
            dropped = pos_part h.dropped;
          })
    unfolding decode_imu encode_imu_payload decode_burst read_batch batch to_si
    decode_imu-encode_imu_payload h a =
        let n = length values in
        let known = (eq_iff h.encoding "f32").1 a.encoding in
        let there : (n == 0) ≡ false = ground (arith, a.low) in
        let few : ltb max_samples n ≡ false = ground (arith, a.high) in
        let enough : ltb (length payload) (n * 4 + n * length names * 4) ≡ false =
          ground (arith, payload_size) in
        rw
          (
            known,
            a.count,
            there,
            few,
            a.fields,
            a.different,
            enough,
            a.gyro,
            a.accel,
            values_back,
            offsets_back,
            unscaled_rows names values wide,
          )
          refl
