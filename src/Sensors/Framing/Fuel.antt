-- ===== src/Sensors/Framing/Fuel.antt =====
-- The framing loop of link/robocam_client.py ends: each round drops a byte at least.
use robo_cam_stream_processi.Sensors.Framing.{starts, seek, last_byte, resync, more_found, read}
use robo_cam_stream_processi.Prelude.{
  refl, ℕ, List, ◌≡◌, length, some, ◌≤◌, true, ◌∷◌, arith, Bool-cases, inl, sym, some_inj, inr,
  Option, none, Option-cases, ltb, ◌<◌, take, ◌⊎◌, suc, false, ap, lt→ltb, drop, length-drop, ◌+◌,
}
use mathlib.Core.List.{[]}
use Prim.Native.Nat.{zero}

seek-length :
    (first second : ℕ) (buf at : List ℕ) → seek first second buf ≡ some at → length at ≤ length buf
unfolding seek
seek-length first second [] at e = absurd cc
seek-length first second (a ∷ rest) at e = elim (Bool-cases (starts first second (a ∷ rest))) [
  | inl t ↦ rw (sym (some_inj (rw t at e))) (omega arith)
  | inr f ↦ omega (arith, seek-length first second rest at (rw f at e))
]

pub last_byte-length :
    (buf : List ℕ) → (length (last_byte buf) ≤ 1) × (length (last_byte buf) ≤ length buf)
unfolding last_byte
last_byte-length [] = (omega arith, omega arith)
last_byte-length (a ∷ []) = (omega arith, omega arith)
last_byte-length (a ∷ b ∷ rest) =
    ((last_byte-length (b ∷ rest)).0, omega (arith, (last_byte-length (b ∷ rest)).1))

seek-starts :
    (first second : ℕ) (buf at : List ℕ)
    → seek first second buf ≡ some at
    → starts first second at ≡ true
unfolding seek
seek-starts first second [] at e = absurd cc
seek-starts first second (a ∷ rest) at e = elim (Bool-cases (starts first second (a ∷ rest))) [
  | inl t ↦ rw (sym (some_inj (rw t at e))) t
  | inr f ↦ seek-starts first second rest at (rw f at e)
]

pub starts-length : (first second : ℕ) (at : List ℕ) → starts first second at ≡ true → 2 ≤ length at
unfolding starts
starts-length first second [] e = absurd cc
starts-length first second (a ∷ []) e = absurd cc
starts-length first second (a ∷ b ∷ rest) e = omega arith

-- What a header that was found gives.
pub seek_found :
    (first second : ℕ) (buf at : List ℕ)
    → seek first second buf ≡ some at
    → (length at ≤ length buf) × (2 ≤ length at) × (starts first second at ≡ true)
seek_found first second buf at e =
    (seek-length first second buf at e, starts-length first second at s, s)
  where
    s : starts first second at ≡ true
    s = seek-starts first second buf at e

module _ {S : Type 0} {Y : Type 0} (first second size : ℕ) (check : List ℕ → S → Option Y × S) where
  -- What one round of the loop does.
  pub data Round (buf : List ℕ) (s : S) : Type 0 where
    no_header : seek first second buf ≡ none → Round buf s
    too_short : (at : List ℕ) → seek first second buf ≡ some at → length at < size → Round buf s
    refused :
        (at : List ℕ) (s' : S)
        → seek first second buf ≡ some at
        → size ≤ length at
        → check (take size at) s ≡ (none, s')
        → Round buf s
    took :
        (at : List ℕ) (y : Y) (s' : S)
        → seek first second buf ≡ some at
        → size ≤ length at
        → check (take size at) s ≡ (some y, s')
        → Round buf s

  check-cases :
      (packet : List ℕ) (s : S)
      → ((s' : S) × (check packet s ≡ (none, s')))
        ⊎ ((y : Y) × (s' : S) × (check packet s ≡ (some y, s')))
  check-cases packet s = elim (Option-cases (check packet s).0) [
    | inl e ↦ inl ((check packet s).1, ap (λ o. (o, (check packet s).1)) e)
    | inr (y, e) ↦ inr (y, (check packet s).1, ap (λ o. (o, (check packet s).1)) e)
  ]

  pub round : (buf : List ℕ) (s : S) → Round buf s
  round buf s = elim (Option-cases (seek first second buf)) [
    | inl e ↦ no_header e
    | inr (at, e) ↦ elim (Bool-cases (ltb (length at) size)) [
      | inl t ↦ too_short at e (ground (arith, t))
      | inr f ↦ elim (check-cases (take size at) s) [
        | inl (s', c) ↦ refused at s' e (ground (arith, f)) c
        | inr (y, s', c) ↦ took at y s' e (ground (arith, f)) c
      ]
    ]
  ]

  pub resync-no_header :
      (fuel : ℕ) (buf : List ℕ) (s : S)
      → seek first second buf ≡ none
      → resync first second size check (suc fuel) buf s
        ≡ record { found = []; left = last_byte buf; state = s }
  unfolding resync
  resync-no_header fuel buf s e = rw (resync, e) refl

  pub resync-too_short :
      (fuel : ℕ) (buf at : List ℕ) (s : S)
      → seek first second buf ≡ some at
      → length at < size
      → resync first second size check (suc fuel) buf s
        ≡ record { found = []; left = at; state = s }
  unfolding resync
  resync-too_short fuel buf at s e h = rw (resync, e, lt→ltb (length at) size h) refl

  not_short : (at : List ℕ) → size ≤ length at → ltb (length at) size ≡ false
  not_short at h = ground (arith, h)

  pub resync-refused :
      (fuel : ℕ) (buf at : List ℕ) (s s' : S)
      → seek first second buf ≡ some at
      → size ≤ length at
      → check (take size at) s ≡ (none, s')
      → resync first second size check (suc fuel) buf s
        ≡ resync first second size check fuel (drop 1 at) s'
  unfolding resync
  resync-refused fuel buf at s s' e h c =
      rw (resync, e, not_short at h, ap (λ p. p.0) c, ap (λ p. p.1) c) refl

  pub resync-took :
      (fuel : ℕ) (buf at : List ℕ) (y : Y) (s s' : S)
      → seek first second buf ≡ some at
      → size ≤ length at
      → check (take size at) s ≡ (some y, s')
      → resync first second size check (suc fuel) buf s
        ≡ more_found y (resync first second size check fuel (drop size at) s')
  unfolding resync
  resync-took fuel buf at y s s' e h c =
      rw (resync, e, not_short at h, ap (λ p. p.0) c, ap (λ p. p.1) c) refl

  module _ (header_fits : 2 ≤ size) where
    -- Any fuel above the buffer's length gives the same result, and leaves less than a packet.
    pub resync_enough :
        (fuel fuel' : ℕ) (buf : List ℕ) (s : S)
        → length buf < fuel
        → length buf < fuel'
        → (resync first second size check fuel buf s ≡ resync first second size check fuel' buf s)
          × (length (resync first second size check fuel buf s).left < size)
          × (length (resync first second size check fuel buf s).left ≤ length buf)
    resync_enough zero fuel' buf s h h' = absurd (omega arith)
    resync_enough (suc fuel) zero buf s h h' = absurd (omega arith)
    resync_enough (suc fuel) (suc fuel') buf s h h' = elim (round buf s) [
      | no_header e ↦
          rw (resync-no_header fuel buf s e, resync-no_header fuel' buf s e)
            (refl, omega (arith, last_byte-length buf), omega (arith, last_byte-length buf))
      | too_short at e short ↦
          rw (resync-too_short fuel buf at s e short, resync-too_short fuel' buf at s e short)
            (refl, short, (seek_found first second buf at e).0)
      | refused at s' e long c ↦
          let (shorter, two, _) = seek_found first second buf at e in
          let (same, less, within) =
            resync_enough fuel fuel' (drop 1 at) s' (omega (arith, length-drop 1 at))
              (omega (arith, length-drop 1 at)) in
          rw (resync-refused fuel buf at s s' e long c, resync-refused fuel' buf at s s' e long c)
            (same, less, omega (arith, length-drop 1 at))
      | took at y s' e long c ↦
          let (shorter, two, _) = seek_found first second buf at e in
          let (same, less, within) =
            resync_enough fuel fuel' (drop size at) s' (omega (arith, length-drop size at))
              (omega (arith, length-drop size at)) in
          rw (resync-took fuel buf at y s s' e long c, resync-took fuel' buf at y s s' e long c)
            (ap (more_found y) same, less, omega (arith, length-drop size at, within))
    ]

    -- Where a packet is no shorter than its header, the framing loop ends on every buffer, whatever
    -- the check of a packet says: given more fuel than a round for each byte, it does the same, and
    -- what it leaves in the buffer is less than a packet.
    pub read_ends :
        (extra : ℕ) (buf : List ℕ) (s : S)
        → (resync first second size check (suc (length buf) + extra) buf s
            ≡ read first second size check buf s)
          × (length (read first second size check buf s).left < size)
    unfolding read
    read_ends extra buf s =
        let (same, _, _) =
          resync_enough (suc (length buf) + extra) (suc (length buf)) buf s (omega arith)
            (omega arith) in
        let (_, less, _) =
          resync_enough (suc (length buf)) (suc (length buf)) buf s (omega arith) (omega arith) in
        (same, less)
