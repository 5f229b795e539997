-- ===== src/Decoders/Scans/Explained.antt =====
-- What `decode_scan` of robocam/lidar.py accepts and refuses.
use robo_cam_stream_processi.Decoders.Words.{words, length-words}
use robo_cam_stream_processi.Prelude.{
  ℕ, String, List, Option, some, ◌⊎◌, map, ◌≡◌, ◌∷◌, length, ◌==◌, ◌&&◌, str_eq, inl, not, ltb, inr,
  ◌<◌, refl, ◌||◌, ◌*◌, ◌≤◌, Bool-cases, subst, eq_iff, length-map, arith, ◌∙◌, true, sym, false,
  Bool,
}
use robo_cam_stream_processi.Prelude.Int.{ℤ, negsuc, pos}
use mathlib.Core.List.{[]}
use mathlib.Core.Option.{none}
use robo_cam_stream_processi.Decoders.Scans.{
  Floats, ScanError, ScanHeader, Scan, max_points, from_mm, rated, read_ranges, with_ranges,
  decode_count, decode_scan,
}

module _ (f : Floats) where
  open f use {F}

  -- A known encoding, and the bytes that it takes.
  abbrev pub Enough : String → ℕ → List ℕ → Type 0
  Enough encoding n payload =
      ((encoding ≡ "u16mm") × (n * 2 ≤ length payload))
      ⊎ ((encoding ≡ "f32m") × (n * 4 ≤ length payload))

  -- What a scan is made of.
  pub Acceptable : ScanHeader F → List ℕ → ℕ → Type 0
  Acceptable h payload n =
      (h.count ≡ some (pos n)) × (0 < n) × (n ≤ max_points) × Enough h.encoding n payload

  -- The range is at least the header's minimum and at most its maximum, where they are over 0.
  abbrev pub InRange : F → F → F → Type 0
  InRange lo hi r =
      ((f.over_zero lo ≡ false) ⊎ (f.at_most lo r ≡ true))
      × ((f.over_zero hi ≡ false) ⊎ (f.at_most r hi ≡ true))

  -- A range that is there lies in the window.
  abbrev pub IsRated : F → F → Option F → Type 0
  IsRated lo hi none = Unit
  IsRated lo hi (some r) = InRange lo hi r

  abbrev pub AllRated : ScanHeader F → List (Option F) → Type 0
  AllRated h [] = Unit
  AllRated h (o ∷ ranges) = IsRated h.range_min h.range_max o × AllRated h ranges

  pub record IsScan (h : ScanHeader F) (payload : List ℕ) (s : Scan F) : Type 0 where
    pub n : ℕ
    pub acceptable : Acceptable h payload n
    pub long : length s.ranges ≡ n
    pub in_window : AllRated h s.ranges

  neither :
      (a b c d : Bool)
      → ((a && not b) || (c && not d)) ≡ false
      → ((a ≡ false) ⊎ (b ≡ true)) × ((c ≡ false) ⊎ (d ≡ true))
  neither false b false d e = (inl refl, inl refl)
  neither false b true true e = (inl refl, inr refl)
  neither false b true false e = absurd cc
  neither true true false d e = (inr refl, inl refl)
  neither true true true true e = (inr refl, inr refl)
  neither true true true false e = absurd cc
  neither true false c d e = absurd cc

  rated-IsRated : (lo hi : F) (o : Option F) → IsRated lo hi (rated f lo hi o)
  unfolding rated
  rated-IsRated lo hi none = tt
  rated-IsRated lo hi (some r) =
      elim (Bool-cases
        ((f.over_zero lo && not (f.at_most lo r)) || (f.over_zero hi && not (f.at_most r hi)))) [
          | inl out ↦ rw out tt
          | inr within ↦
              rw within
                (neither (f.over_zero lo) (f.at_most lo r) (f.over_zero hi) (f.at_most r hi) within)
        ]

  rated-AllRated :
      (h : ScanHeader F) (ranges : List (Option F))
      → AllRated h (map (rated f h.range_min h.range_max) ranges)
  rated-AllRated h [] = tt
  rated-AllRated h (o ∷ ranges) = (rated-IsRated h.range_min h.range_max o, rated-AllRated h ranges)

  not_both : (encoding : String) → encoding ≡ "u16mm" → encoding ≡ "f32m" → ⊥
  not_both encoding u16 f32 =
      let same : str_eq "u16mm" "f32m" ≡ true = (eq_iff "u16mm" "f32m").1 (sym u16 ∙ f32) in
      absurd cc

  same_count : (m n : ℕ) → some (pos m) ≡ some (pos n) → m ≡ n
  same_count m n e = cc

  Reads : String → ℕ → List ℕ → ScanError ⊎ (ℕ × List (Option F)) → Type 0
  Reads encoding n payload (inl e) = ¬ Enough encoding n payload
  Reads encoding n payload (inr (need, ranges)) = Enough encoding n payload × (length ranges ≡ n)

  read_ranges-Reads :
      (encoding : String) (n : ℕ) (payload : List ℕ)
      → Reads encoding n payload (read_ranges f encoding n payload)
  unfolding Reads read_ranges
  read_ranges-Reads encoding n payload = elim (Bool-cases (str_eq encoding "u16mm")) [
    | inl u16 ↦
        let named = (eq_iff encoding "u16mm").0 u16 in
        elim (Bool-cases (ltb (length payload) (n * 2))) [
          | inl short ↦
              rw (u16, short)
                (λ enough. elim enough [
                  | inl (_, le) ↦ ground (arith, short, le)
                  | inr (f32, _) ↦ not_both encoding named f32
                ])
          | inr long ↦
              rw (u16, long)
                (
                  inl (named, ground (arith, long)),
                  length-map (words 2 n payload) (from_mm f) ∙ length-words 2 n payload,
                )
        ]
    | inr other ↦ elim (Bool-cases (str_eq encoding "f32m")) [
      | inl f32 ↦
          let named = (eq_iff encoding "f32m").0 f32 in
          elim (Bool-cases (ltb (length payload) (n * 4))) [
            | inl short ↦
                rw (other, f32, short)
                  (λ enough. elim enough [
                    | inl (u16, _) ↦ not_both encoding u16 named
                    | inr (_, le) ↦ ground (arith, short, le)
                  ])
            | inr long ↦
                rw (other, f32, long)
                  (
                    inr (named, ground (arith, long)),
                    length-map (words 4 n payload) f.of_f32 ∙ length-words 4 n payload,
                  )
          ]
      | inr unknown ↦
          rw (other, unknown)
            (λ enough. elim enough [
              | inl (u16, _) ↦ let said = (eq_iff encoding "u16mm").1 u16 in absurd cc
              | inr (f32, _) ↦ let said = (eq_iff encoding "f32m").1 f32 in absurd cc
            ])
    ]
  ]

  -- What the decoder says of a message.
  pub Explains : ScanHeader F → List ℕ → ScanError ⊎ Scan F → Type 0
  Explains h payload (inl e) = (n : ℕ) → ¬ Acceptable h payload n
  Explains h payload (inr s) = IsScan h payload s

  with_ranges-Explains :
      (h : ScanHeader F) (n : ℕ) (payload : List ℕ) (r : ScanError ⊎ (ℕ × List (Option F)))
      → h.count ≡ some (pos n)
      → 0 < n
      → n ≤ max_points
      → Reads h.encoding n payload r
      → Explains h payload (with_ranges f h n payload r)
  unfolding with_ranges Explains Reads Acceptable
  with_ranges-Explains h n payload (inl e) counted low high reads = λ m a.
      reads (subst (λ k. Enough h.encoding k payload) (same_count m n (sym a.0 ∙ counted)) a.3)
  with_ranges-Explains h n payload (inr (need, ranges)) counted low high (enough, size) = record {
    n = n;
    acceptable = (counted, low, high, enough);
    long = length-map ranges (rated f h.range_min h.range_max) ∙ size;
    in_window = rated-AllRated h ranges;
  }

  decode_count-Explains :
      (h : ScanHeader F) (payload : List ℕ) (o : Option ℤ)
      → h.count ≡ o
      → Explains h payload (decode_count f h payload o)
  unfolding decode_count Explains Acceptable
  decode_count-Explains h payload none counted =
      λ m a. let no : some (pos m) ≡ none = sym a.0 ∙ counted in absurd cc
  decode_count-Explains h payload (some (negsuc n)) counted =
      λ m a. let no : some (pos m) ≡ some (negsuc n) = sym a.0 ∙ counted in absurd cc
  decode_count-Explains h payload (some (pos n)) counted = elim (Bool-cases (n == 0)) [
    | inl bare ↦ rw bare (λ m a. ground (arith, bare, a.1, same_count m n (sym a.0 ∙ counted)))
    | inr some_points ↦ elim (Bool-cases (ltb max_points n)) [
      | inl many ↦
          rw (some_points, many)
            (λ m a. ground (arith, many, a.2, same_count m n (sym a.0 ∙ counted)))
      | inr few ↦
          rw (some_points, few)
            (with_ranges-Explains h n payload (read_ranges f h.encoding n payload) counted
              (ground (arith, some_points)) (ground (arith, few))
              (read_ranges-Reads h.encoding n payload))
    ]
  ]

  -- A message is refused exactly where its count is no number, not over 0 or over the limit, or its
  -- encoding is unknown, or its payload is too short for the count. Else it is a scan, with as many
  -- ranges as the count says; each of them that is there is at least the device's minimum and at most
  -- its maximum, where the header gives these.
  pub decode_scan-Explains :
      (h : ScanHeader F) (payload : List ℕ) → Explains h payload (decode_scan f h payload)
  unfolding decode_scan
  decode_scan-Explains h payload = decode_count-Explains h payload h.count refl
