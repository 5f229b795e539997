-- ===== src/Sensors/Framing/Append.antt =====
-- The framing loop of link/robocam_client.py on bytes that come in parts: where a read of the port
-- ends does not matter.
use robo_cam_stream_processi.Sensors.Framing.{
  Reading, more_found, starts, seek, last_byte, resync, read,
}
use robo_cam_stream_processi.Sensors.Framing.Fuel.{
  round, no_header, too_short, refused, took, seek_found, resync-no_header, resync-too_short,
  resync-refused, resync-took, resync_enough,
}
use robo_cam_stream_processi.Prelude.{
  List, ℕ, ◌++◌, ◌≡◌, Option, true, some, none, suc, ◌≤◌, ◌∷◌, length, Bool-cases, ◌≢◌, ◌+◌, refl,
  inl, ◌<◌, sym, inr, arith, some_inj, ap, length-append, take-append_left, ◌∙◌, drop-append_left,
  drop, length-drop, Option-cases, append-nil,
}
use mathlib.Core.List.{[]}
use Prim.Native.Nat.{zero}

-- One call's result, and the rest that a second call on what it left gives.
abbrev pub then : {S : Type 0} {Y : Type 0} → Reading S Y → (List ℕ → S → Reading S Y) → Reading S Y
then r next =
    let r' = next r.left r.state in
    record { found = r.found ++ r'.found; left = r'.left; state = r'.state }

starts-append :
    (first second : ℕ) (buf more : List ℕ)
    → starts first second buf ≡ true
    → starts first second (buf ++ more) ≡ true
unfolding starts
starts-append first second [] more e = absurd cc
starts-append first second (a ∷ []) more e = absurd cc
starts-append first second (a ∷ b ∷ rest) more e = e

seek_at_start :
    (first second : ℕ) (at : List ℕ)
    → starts first second at ≡ true
    → seek first second at ≡ some at
unfolding seek
seek_at_start first second [] e = absurd (unfold starts in cc)
seek_at_start first second (a ∷ rest) e = rw e refl

-- A header found in a part is found in the whole.
seek-append :
    (first second : ℕ) (buf more at : List ℕ)
    → seek first second buf ≡ some at
    → seek first second (buf ++ more) ≡ some (at ++ more)
unfolding seek starts
seek-append first second [] more at e = absurd cc
seek-append first second (a ∷ []) more at e = absurd cc
seek-append first second (a ∷ b ∷ rest) more at e =
    elim (Bool-cases (starts first second (a ∷ b ∷ rest))) [
      | inl t ↦ rw (t, sym (some_inj (rw t at e))) refl
      | inr f ↦ rw f (seek-append first second (b ∷ rest) more at (rw f at e))
    ]

-- Where a part has no header, its last byte is all that can matter later.
no_header-append :
    (first second : ℕ) (buf more : List ℕ)
    → seek first second buf ≡ none
    → (seek first second (buf ++ more) ≡ seek first second (last_byte buf ++ more))
      × (last_byte (buf ++ more) ≡ last_byte (last_byte buf ++ more))
unfolding seek starts last_byte
no_header-append first second [] more e = (refl, refl)
no_header-append first second (a ∷ []) more e = (refl, refl)
no_header-append first second (a ∷ b ∷ rest) more e =
    elim (Bool-cases (starts first second (a ∷ b ∷ rest))) [
      | inl t ↦ absurd (some_none (rw t at e))
      | inr f ↦ rw f (no_header-append first second (b ∷ rest) more (rw f at e))
    ]
  where
    some_none : {A : Type 0} {x : A} → some x ≢ none
    some_none e = absurd cc

module _ {S : Type 0} {Y : Type 0} (first second size : ℕ) (check : List ℕ → S → Option Y × S) where
  resync_same_at :
      (fuel : ℕ) (a b at : List ℕ) (s : S)
      → seek first second a ≡ some at
      → seek first second b ≡ some at
      → resync first second size check (suc fuel) a s
        ≡ resync first second size check (suc fuel) b s
  unfolding resync
  resync_same_at fuel a b at s e e' = rw (resync, e, e') refl

  resync_same :
      (fuel : ℕ) (a b : List ℕ) (s : S)
      → seek first second a ≡ seek first second b
      → last_byte a ≡ last_byte b
      → resync first second size check (suc fuel) a s
        ≡ resync first second size check (suc fuel) b s
  resync_same fuel a b s e l = elim (Option-cases (seek first second b)) [
    | inl n ↦
        resync-no_header first second size check fuel a s (e ∙ n)
        ∙ ap (λ rest. record { found = []; left = rest; state = s }) l
        ∙ sym (resync-no_header first second size check fuel b s n)
    | inr (at, f) ↦ resync_same_at fuel a b at s (e ∙ f) f
  ]

  module _ (header_fits : 2 ≤ size) where
    -- The second call may have any fuel that is enough.
    then_enough :
        (fuel : ℕ) (buf more : List ℕ) (s : S)
        → length buf + length more < fuel
        → then
            (resync first second size check fuel buf s)
            (λ left s'. resync first second size check fuel (left ++ more) s')
          ≡ then
              (resync first second size check fuel buf s)
              (λ left s'. resync first second size check (suc fuel) (left ++ more) s')
    then_enough fuel buf more s h =
        ap (λ r'. record { found = r.found ++ r'.found; left = r'.left; state = r'.state })
          (resync_enough first second size check header_fits fuel (suc fuel) (r.left ++ more)
            r.state (omega (arith, length-append r.left more, within))
            (omega (arith, length-append r.left more, within))).0
      where
        r : Reading S Y
        r = resync first second size check fuel buf s

        within : length r.left ≤ length buf
        within =
            (resync_enough first second size check header_fits fuel fuel buf s (omega arith)
              (omega arith)).2

    resync-append :
        (fuel : ℕ) (buf more : List ℕ) (s : S)
        → length buf + length more < fuel
        → resync first second size check fuel (buf ++ more) s
          ≡ then
              (resync first second size check fuel buf s)
              (λ left s'. resync first second size check fuel (left ++ more) s')
    resync-append zero buf more s h = absurd (omega arith)
    resync-append (suc fuel) buf more s h = elim (round first second size check buf s) [
      | no_header e ↦
          let (sought, kept) = no_header-append first second buf more e in
          rw (resync-no_header first second size check fuel buf s e)
            (resync_same fuel (buf ++ more) (last_byte buf ++ more) s sought kept)
      | too_short at e short ↦
          let (shorter, two, header) = seek_found first second buf at e in
          rw (resync-too_short first second size check fuel buf at s e short) (
            resync_same_at fuel (buf ++ more) (at ++ more) (at ++ more) s
              (seek-append first second buf more at e)
              (seek_at_start first second (at ++ more) (starts-append first second at more header)))
      | refused at s' e long c ↦
          let (shorter, two, header) = seek_found first second buf at e in
          resync-refused first second size check fuel (buf ++ more) (at ++ more) s s'
            (seek-append first second buf more at e) (omega (arith, length-append at more))
            (rw (take-append_left size at more long) c)
          ∙ ap (λ rest. resync first second size check fuel rest s')
              (drop-append_left 1 at more (omega arith))
          ∙ resync-append fuel (drop 1 at) more s' (omega (arith, length-drop 1 at))
          ∙ then_enough fuel (drop 1 at) more s' (omega (arith, length-drop 1 at))
          ∙ ap
              (λ r.
                then r (λ left s''. resync first second size check (suc fuel) (left ++ more) s''))
              (sym (resync-refused first second size check fuel buf at s s' e long c))
      | took at y s' e long c ↦
          let (shorter, two, header) = seek_found first second buf at e in
          resync-took first second size check fuel (buf ++ more) (at ++ more) y s s'
            (seek-append first second buf more at e) (omega (arith, length-append at more))
            (rw (take-append_left size at more long) c)
          ∙ ap (λ rest. more_found y (resync first second size check fuel rest s'))
              (drop-append_left size at more long)
          ∙ ap (more_found y) (
              resync-append fuel (drop size at) more s' (omega (arith, length-drop size at))
              ∙ then_enough fuel (drop size at) more s' (omega (arith, length-drop size at)))
          ∙ ap
              (λ r.
                then r (λ left s''. resync first second size check (suc fuel) (left ++ more) s''))
              (sym (resync-took first second size check fuel buf at y s s' e long c))
    ]

    -- What is read from the bytes of two parts is what is read from the first, followed by what
    -- is read from the second behind the bytes that the first left.
    pub read-append :
        (buf more : List ℕ) (s : S)
        → read first second size check (buf ++ more) s
          ≡ then
              (read first second size check buf s)
              (λ left s'. read first second size check (left ++ more) s')
    unfolding read
    read-append buf more s =
        (resync_enough first second size check header_fits (suc (length (buf ++ more))) total _ s
          (omega arith) (omega (arith, length-append buf more))).0
        ∙ resync-append total buf more s (omega arith)
        ∙ ap (λ r. then r (λ left s'. resync first second size check total (left ++ more) s'))
            (resync_enough first second size check header_fits total (suc (length buf)) buf s
              (omega arith) (omega arith)).0
        ∙ ap (λ r'. record { found = r.found ++ r'.found; left = r'.left; state = r'.state })
            (resync_enough first second size check header_fits total (suc (length (r.left ++ more)))
              (r.left ++ more) r.state (omega (arith, length-append r.left more, within))
              (omega arith)).0
      where
        total : ℕ
        total = suc (length buf + length more)

        r : Reading S Y
        r = read first second size check buf s

        within : length r.left ≤ length buf
        within =
            (resync_enough first second size check header_fits (suc (length buf)) (suc (length buf))
              buf s (omega arith) (omega arith)).2

    -- What a call left holds no more packets, and another call leaves it as it is.
    pub read_again :
        (buf : List ℕ) (s : S)
        → read first second size check
            (read first second size check buf s).left
            (read first second size check buf s).state
          ≡ record {
            found = [];
            left = (read first second size check buf s).left;
            state = (read first second size check buf s).state;
          }
    read_again buf s =
        ap (λ found. record { found = found; left = r'.left; state = r'.state })
          (length-nil r'.found
            (omega (arith, ap length (ap (λ q. q.found) twice), length-append r.found r'.found)))
        ∙ ap (λ q. record { found = []; left = q.left; state = q.state }) (sym twice)
      where
        r : Reading S Y
        r = read first second size check buf s

        r' : Reading S Y
        r' = read first second size check r.left r.state

        length-nil : (ys : List Y) → length ys ≡ 0 → ys ≡ []
        length-nil [] e = refl
        length-nil (y ∷ ys) e = absurd (omega (arith, e))

        twice : r ≡ then r (λ _ _. r')
        twice =
            ap (λ bytes. read first second size check bytes s) (sym (append-nil buf))
            ∙ read-append buf [] s
            ∙ ap (λ bytes. then r (λ _ _. read first second size check bytes r.state))
                (append-nil r.left)
