-- ===== src/Sensors/Lidar/Checked.antt =====
-- What `SerialLdsSource` of link/robocam_client.py lets through: packets whose checksum agrees
-- where checking is demanded, revolutions that are full enough.
use robo_cam_stream_processi.Sensors.Framing.{resync, read}
use robo_cam_stream_processi.Sensors.Framing.Fuel.{
  round, no_header, too_short, refused, took, resync-no_header, resync-too_short, resync-refused,
  resync-took,
}
use robo_cam_stream_processi.Sensors.Lidar.{
  Link, Packet, packets, packet_bytes, on_packet, check_crc, decode_packet, byte_at, crc_check,
  is_auto,
}
use robo_cam_stream_processi.Sensors.Lidar.Sweep.{
  Sweep, Scan, Source, wraps, end_revolution, take_packet, take_packets, add_points, yielded,
  on_chunk, on_chunks,
}
use robo_cam_stream_processi.Sensors.Lidar.Nearest.{IsSwept, cleared-IsSwept, add_points-nearest}
use robo_cam_stream_processi.Prelude.{
  ◌≡◌, List, Option, true, ℕ, ◌∷◌, some, Bool-cases, take, ◌-◌, ◌==◌, inl, ==_iff, inr, refl, suc,
  length, Bool, ◌<◌, ◌++◌, drop, ◌/◌, leb, subst, ◌≤◌, arith, leb→le,
}
use robo_cam_stream_processi.Sensors.Crc.{crc8}
use mathlib.Core.List.{[]}
use mathlib.Core.Option.{none}
use Prim.Native.Nat.{zero}
use robo_cam_stream_processi.Sensors.Lidar.Bins.{returns}

-- Strict: `--lidar-crc check`, with the check on as it is from the start.
abbrev pub IsStrict : Link → Type 0
IsStrict s = (s.crc_mode ≡ crc_check) × (s.crc_checking ≡ true)

-- A packet that some 46 bytes and their checksum decode to.
abbrev pub IsGenuine : Packet → Type 0
IsGenuine p =
    (raw : List ℕ) × (p ≡ decode_packet raw)
    × (crc8 (take (packet_bytes - 1) raw) ≡ byte_at raw (packet_bytes - 1))

abbrev pub AllGenuine : List Packet → Type 0
AllGenuine [] = Unit
AllGenuine (p ∷ ps) = IsGenuine p × AllGenuine ps

-- What `_packets` makes of one packet in strict mode.
abbrev GenuineOutcome : Option Packet → Type 0
GenuineOutcome none = Unit
GenuineOutcome (some p) = IsGenuine p

on_packet-IsStrict :
    (raw : List ℕ) (s : Link)
    → IsStrict s
    → IsStrict (on_packet raw s).1 × GenuineOutcome (on_packet raw s).0
unfolding on_packet check_crc is_auto
on_packet-IsStrict raw s (m, c) =
    elim (Bool-cases (crc8 (take (packet_bytes - 1) raw) == byte_at raw (packet_bytes - 1))) [
      | inl t ↦ simp (t, c) ((m, refl), (raw, refl, (==_iff _ _).0 t))
      | inr f ↦ simp (f, c, m) ((refl, refl), tt)
    ]

resync-AllGenuine :
    (fuel : ℕ) (buf : List ℕ) (s : Link)
    → IsStrict s
    → AllGenuine (resync 0x54 0x2C packet_bytes on_packet fuel buf s).found
      × IsStrict (resync 0x54 0x2C packet_bytes on_packet fuel buf s).state
resync-AllGenuine zero buf s h = unfold resync in (tt, h)
resync-AllGenuine (suc fuel) buf s h = elim (round 0x54 0x2C packet_bytes on_packet buf s) [
  | no_header e ↦ rw (resync-no_header 0x54 0x2C packet_bytes on_packet fuel buf s e) (tt, h)
  | too_short at e short ↦
      rw (resync-too_short 0x54 0x2C packet_bytes on_packet fuel buf at s e short) (tt, h)
  | refused at s' e long c ↦
      rw (resync-refused 0x54 0x2C packet_bytes on_packet fuel buf at s s' e long c) (
        resync-AllGenuine fuel (drop 1 at) s'
          (subst (λ r. IsStrict r.1) c (on_packet-IsStrict (take packet_bytes at) s h).0))
  | took at y s' e long c ↦
      let (strict, genuine) = on_packet-IsStrict (take packet_bytes at) s h in
      let (rest, after) =
        resync-AllGenuine fuel (drop packet_bytes at) s' (subst (λ r. IsStrict r.1) c strict) in
      rw (resync-took 0x54 0x2C packet_bytes on_packet fuel buf at y s s' e long c)
        ((subst (λ r. GenuineOutcome r.0) c genuine, rest), after)
]

-- Where a checksum is demanded, each packet that is read is decoded from 47 bytes of which the
-- last is the checksum of the others, and the check stays on: it is never given up.
pub packets-AllGenuine :
    (buf : List ℕ) (s : Link)
    → IsStrict s
    → AllGenuine (packets buf s).found × IsStrict (packets buf s).state
unfolding packets read
packets-AllGenuine buf s h = resync-AllGenuine (suc (length buf)) buf s h

module _ (points : ℕ) (rounded : ℕ → ℕ → ℕ → ℕ) where
  -- A revolution has a place for each bin, and a quarter of the bins, rounded down, hold a return.
  abbrev pub IsFull : Scan → Type 0
  IsFull scan =
      (length scan.ranges_mm ≡ points)
      × (length scan.intensities ≡ points)
      × (points / 4 ≤ returns scan.ranges_mm)

  abbrev pub AllFull : List Scan → Type 0
  AllFull [] = Unit
  AllFull (scan ∷ scans) = IsFull scan × AllFull scans

  abbrev FullOutcome : Option Scan → Type 0
  FullOutcome none = Unit
  FullOutcome (some scan) = IsFull scan

  end_revolution-IsSwept :
      (clockwise : Bool) (packet : Packet) (w : Sweep)
      → IsSwept points rounded w
      → FullOutcome (end_revolution points rounded clockwise packet w).0
        × IsSwept points rounded (end_revolution points rounded clockwise packet w).1
  unfolding end_revolution
  end_revolution-IsSwept clockwise packet w (lr, li, f) =
      elim (Bool-cases (wraps points rounded w.last_start_cdeg packet.start_cdeg)) [
        | inl t ↦ elim (Bool-cases (leb (points / 4) w.filled)) [
          | inl full ↦
              simp (t, full)
                (
                  (lr, li, omega (arith, leb→le (points / 4) w.filled full, f)),
                  cleared-IsSwept points rounded (some packet.start_cdeg),
                )
          | inr sparse ↦
              simp (t, sparse) (tt, cleared-IsSwept points rounded (some packet.start_cdeg))
        ]
        | inr n ↦ simp n (tt, (lr, li, f))
      ]

  yielded-AllFull :
      (o : Option Scan) (scans : List Scan)
      → FullOutcome o
      → AllFull scans
      → AllFull (yielded points rounded o scans)
  yielded-AllFull none scans h hs = hs
  yielded-AllFull (some scan) scans h hs = (h, hs)

  take_packets-AllFull :
      (clockwise : Bool) (ps : List Packet) (w : Sweep)
      → 0 < points
      → IsSwept points rounded w
      → AllFull (take_packets points rounded clockwise ps w).0
        × IsSwept points rounded (take_packets points rounded clockwise ps w).1
  unfolding take_packets take_packet
  take_packets-AllFull clockwise [] w h swept = (tt, swept)
  take_packets-AllFull clockwise (p ∷ ps) w h swept =
      let (full, swept') = end_revolution-IsSwept clockwise p w swept in
      let (swept'', _) =
        add_points-nearest points rounded p.points (end_revolution points rounded clockwise p w).1 h
          swept' in
      let (rest, after) =
        take_packets-AllFull clockwise ps
          (add_points points rounded p.points (end_revolution points rounded clockwise p w).1) h
          swept'' in
      (yielded-AllFull _ _ full rest, after)

  on_chunk-AllFull :
      (chunk : List ℕ) (s : Source)
      → 0 < points
      → IsSwept points rounded s.sweep
      → AllFull (on_chunk points rounded chunk s).0
        × IsSwept points rounded (on_chunk points rounded chunk s).1.sweep
  unfolding on_chunk
  on_chunk-AllFull [] s h swept = (tt, swept)
  on_chunk-AllFull (b ∷ bs) s h swept = take_packets-AllFull s.clockwise _ s.sweep h swept

  AllFull-append : (xs ys : List Scan) → AllFull xs → AllFull ys → AllFull (xs ++ ys)
  AllFull-append [] ys h k = k
  AllFull-append (x ∷ xs) ys (hx, hs) k = (hx, AllFull-append xs ys hs k)

  -- With at least one bin and from a table that the invariant holds of, whatever the port gives:
  -- every revolution that comes out has a place for each bin, and at least `points // 4` of its bins
  -- hold a return.
  pub on_chunks-AllFull :
      (chunks : List (List ℕ)) (s : Source)
      → 0 < points
      → IsSwept points rounded s.sweep
      → AllFull (on_chunks points rounded chunks s).0
  unfolding on_chunks
  on_chunks-AllFull [] s h swept = tt
  on_chunks-AllFull (chunk ∷ rest) s h swept =
      let (full, swept') = on_chunk-AllFull chunk s h swept in
      AllFull-append _ _ full (on_chunks-AllFull rest (on_chunk points rounded chunk s).1 h swept')
