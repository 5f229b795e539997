-- ===== src/Seek/Coverage.antt =====
-- `CoverageTracker` of robocam/seek.py: how fast the map grows. Times are nanoseconds; a rate is the
-- new cells and the time they took.
use robo_cam_stream_processi.Prelude.{
  ℕ, List, [], ◌∷◌, if◌then◌else◌, ◌++◌, Option, ◌-◌, ◌≤◌, ◌+◌, ltb, ◌<◌, ◌≡◌, none, some, subst,
  Bool-cases, append_assoc, append-nil, refl, sym, inl, ◌∙◌, ap, arith, inr,
}
use robo_cam_stream_processi.Prelude.Int.{ℤ, pos, ◌-ℤ◌}

abbrev pub Sample : Type 0
Sample = ℕ × ℕ

pub record CoverageTracker : Type 0 where
  pub window : ℕ
  pub samples : List Sample

-- `while len(self._samples) > 2 and self._samples[1][0] < cutoff: pop(0)`
unfoldable pub trim : ℕ → ℕ → List Sample → List Sample
trim window now [] = []
trim window now (a ∷ []) = a ∷ []
trim window now (a ∷ b ∷ []) = a ∷ b ∷ []
trim window now (a ∷ b ∷ c ∷ rest) =
    let fewer = trim window now (b ∷ c ∷ rest) in
    if ltb (b.0 + window) now then fewer else a ∷ b ∷ c ∷ rest

unfoldable pub observe : ℕ → ℕ → CoverageTracker → CoverageTracker
observe now cells t = record t { samples = trim t.window now (t.samples ++ (now, cells) ∷ []) }

unfoldable pub observe_all : List Sample → CoverageTracker → CoverageTracker
observe_all [] t = t
observe_all ((now, cells) ∷ rest) t = observe_all rest (observe now cells t)

abbrev last_of : Sample → List Sample → Sample
last_of a [] = a
last_of a (b ∷ rest) = last_of b rest

-- The cells gained, and in what time; `none` under a second, or with one sample.
unfoldable pub rate : CoverageTracker → Option (ℤ × ℕ)
rate t = elim t.samples [
  | [] ↦ none
  | ◌∷◌ a rest ↦
      let (at, cells) = last_of a rest in
      if ltb (at - a.0) 1_000_000_000 then none else some (pos cells -ℤ pos a.1, at - a.0)
]

unfoldable pub span : CoverageTracker → ℕ
span t = elim t.samples [ [] ↦ 0 | ◌∷◌ a rest ↦ (last_of a rest).0 - a.0 ]

-- No time goes back.
unfoldable pub Ordered : ℕ → List Sample → Type 0
Ordered from [] = Unit
Ordered from (a ∷ rest) = (from ≤ a.0) × Ordered a.0 rest

-- Of the samples up to `now`, none but the first is older than the window, if there are more than two.
abbrev Thin : ℕ → ℕ → List Sample → Type 0
Thin window now [] = Unit
Thin window now (a ∷ []) = Unit
Thin window now (a ∷ b ∷ []) = Unit
Thin window now (a ∷ b ∷ c ∷ rest) = now ≤ b.0 + window

-- What was forgotten, if anything, is older than a sample that is kept and older than the window.
abbrev Reaches : ℕ → ℕ → List Sample → List Sample → Type 0
Reaches window now [] kept = Unit
Reaches window now (d ∷ dropped) [] = ⊥
Reaches window now (d ∷ dropped) (a ∷ rest) = a.0 + window < now

pub record IsWindow (window now : ℕ) (history samples : List Sample) : Type 0 where
  pub dropped : List Sample
  pub suffix : dropped ++ samples ≡ history
  pub thin : Thin window now samples
  pub reaches : Reaches window now dropped samples

Reaches-older :
    (window now : ℕ) (a b : Sample) (rest dropped kept : List Sample)
    → b.0 + window < now
    → dropped ++ kept ≡ b ∷ rest
    → Reaches window now dropped kept
    → Reaches window now (a ∷ dropped) kept
Reaches-older window now a b rest [] [] old e r = absurd cc
Reaches-older window now a b rest [] (k ∷ kept) old e r =
    let same : k ≡ b = cc in subst (λ (s : Sample). s.0 + window < now) (sym same) old
Reaches-older window now a b rest (d ∷ dropped) [] old e r = r
Reaches-older window now a b rest (d ∷ dropped) (k ∷ kept) old e r = r

trim-IsWindow : (window now : ℕ) (xs : List Sample) → IsWindow window now xs (trim window now xs)
unfolding trim
trim-IsWindow window now [] = record { dropped = []; suffix = refl; thin = tt; reaches = tt }
trim-IsWindow window now (a ∷ []) = record { dropped = []; suffix = refl; thin = tt; reaches = tt }
trim-IsWindow window now (a ∷ b ∷ []) = record {
  dropped = [];
  suffix = refl;
  thin = tt;
  reaches = tt;
}
trim-IsWindow window now (a ∷ b ∷ c ∷ rest) = elim (Bool-cases (ltb (b.0 + window) now)) [
  | inl old ↦
      let w = trim-IsWindow window now (b ∷ c ∷ rest) in
      rw old (record {
        dropped = a ∷ w.dropped;
        suffix = ap (◌∷◌ a) w.suffix;
        thin = w.thin;
        reaches =
            Reaches-older window now a b (c ∷ rest) w.dropped (trim window now (b ∷ c ∷ rest))
              (ground (arith, old)) w.suffix w.reaches;
      })
  | inr young ↦
      rw young (record { dropped = []; suffix = refl; thin = ground (arith, young); reaches = tt })
]

Reaches-append :
    (window before now : ℕ) (first samples added dropped kept : List Sample)
    → before ≤ now
    → dropped ++ kept ≡ samples ++ added
    → Reaches window before first samples
    → Reaches window now dropped kept
    → Reaches window now (first ++ dropped) kept
Reaches-append window before now [] samples added dropped kept le e r q = q
Reaches-append window before now (f ∷ first) [] added dropped kept le e r q = absurd r
Reaches-append window before now (f ∷ first) (a ∷ samples) added [] [] le e r q = absurd cc
Reaches-append window before now (f ∷ first) (a ∷ samples) added [] (k ∷ kept) le e r q =
    let same : k ≡ a = cc in
    subst (λ (s : Sample). s.0 + window < now) (sym same) (omega (arith, r, le))
Reaches-append window before now (f ∷ first) (a ∷ samples) added (d ∷ dropped) [] le e r q = q
Reaches-append window before now (f ∷ first) (a ∷ samples) added (d ∷ dropped) (k ∷ kept) le e r q =
    q

observe-IsWindow :
    (before now cells : ℕ) (history : List Sample) (t : CoverageTracker)
    → before ≤ now
    → IsWindow t.window before history t.samples
    → IsWindow t.window now (history ++ (now, cells) ∷ []) (observe now cells t).samples
unfolding observe
observe-IsWindow before now cells history t le w =
    let added = (now, cells) ∷ [] in
    let u = trim-IsWindow t.window now (t.samples ++ added) in
    record {
      dropped = w.dropped ++ u.dropped;
      suffix =
          append_assoc w.dropped u.dropped (trim t.window now (t.samples ++ added))
          ∙ (ap (λ xs. w.dropped ++ xs) u.suffix
              ∙ (sym (append_assoc w.dropped t.samples added) ∙ ap (λ xs. xs ++ added) w.suffix));
      thin = u.thin;
      reaches =
          Reaches-append t.window before now w.dropped t.samples added u.dropped
            (trim t.window now (t.samples ++ added)) le u.suffix w.reaches u.reaches;
    }

-- When the last sample came.
abbrev pub latest : ℕ → List Sample → ℕ
latest from [] = from
latest from (a ∷ rest) = latest a.0 rest

observe_more-IsWindow :
    (rest history : List Sample) (before : ℕ) (t : CoverageTracker)
    → Ordered before rest
    → IsWindow t.window before history t.samples
    → IsWindow t.window (latest before rest) (history ++ rest) (observe_all rest t).samples
unfolding observe_all Ordered observe
observe_more-IsWindow [] history before t o w = rw (append-nil history) w
observe_more-IsWindow ((now, cells) ∷ rest) history before t (le, o) w =
    subst
      (λ h. IsWindow t.window (latest now rest) h (observe_all rest (observe now cells t)).samples)
      (append_assoc history ((now, cells) ∷ []) rest)
      (observe_more-IsWindow rest (history ++ (now, cells) ∷ []) now (observe now cells t) o
        (observe-IsWindow before now cells history t le w))

-- From an empty tracker, over any samples whose times do not go back: what is kept is the end of
-- the history; where there are more than two, none but the first is older than the window; and
-- where some were forgotten, the first that is kept is older than the window, so that the rate is
-- still measured over all of it.
pub observe_all-IsWindow :
    (history : List Sample) (t : CoverageTracker)
    → t.samples ≡ []
    → Ordered 0 history
    → IsWindow t.window (latest 0 history) history (observe_all history t).samples
observe_all-IsWindow history t empty o =
    observe_more-IsWindow history [] 0 t o
      (rw empty (record { dropped = []; suffix = refl; thin = tt; reaches = tt }))
