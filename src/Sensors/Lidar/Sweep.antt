-- ===== src/Sensors/Lidar/Sweep.antt =====
-- `SerialLdsSource.scans` of link/robocam_client.py: the table of bins that a revolution fills, and
-- the reader's loop over what the port gives.
use robo_cam_stream_processi.Sensors.Lidar.{Link, Packet, Point, packets}
use robo_cam_stream_processi.Prelude.{
  List, Bool, ℕ, Option, ◌%◌, get_or, ◌∷◌, replicate, if◌then◌else◌, false, some, ◌++◌, ◌==◌, ltb,
  leb, ◌+◌, ◌||◌, ◌/◌, length, set,
}
use mathlib.Core.List.{[]}
use mathlib.Core.Option.{none}

-- The locals of `scans`.
pub record Sweep : Type 0 where
  pub ranges : List ℕ
  pub intensities : List ℕ
  pub filled : ℕ
  pub last_start_cdeg : Option ℕ

-- `_reading`: the sign of the angle's increment and the speed it takes the scan's time from.
pub record Scan : Type 0 where
  pub ranges_mm : List ℕ
  pub intensities : List ℕ
  pub clockwise : Bool
  pub speed_dps : ℕ

-- The source: its settings, its buffer and its counters.
pub record Source : Type 0 where
  pub clockwise : Bool
  pub buf : List ℕ
  pub bytes : ℕ
  pub link : Link
  pub sweep : Sweep

-- `points` is the number of bins. `rounded start span i` is `int(round(...))` of the beam's bearing
-- in bins, which is float arithmetic.
module _ (points : ℕ) (rounded : ℕ → ℕ → ℕ → ℕ) where
  unfoldable pub cleared : Option ℕ → Sweep
  cleared last = record {
    ranges = replicate points 0;
    intensities = replicate points 0;
    filled = 0;
    last_start_cdeg = last;
  }

  unfoldable pub bin_index : Point → ℕ
  bin_index p = rounded p.start_cdeg p.span p.number % points

  -- The body of `for cdeg, distance_mm, intensity in points`.
  unfoldable pub add_point : Point → Sweep → Sweep
  add_point p w =
      let index = bin_index p in
      let held = get_or w.ranges index 0 in
      let filled = if held == 0 then w.filled + 1 else w.filled in
      if p.distance_mm == 0
      then w
      else if held == 0 || ltb p.distance_mm held
      then record {
        ranges = set w.ranges index p.distance_mm;
        intensities = set w.intensities index p.intensity;
        filled = filled;
        last_start_cdeg = w.last_start_cdeg;
      }
      else record w { filled = filled }

  unfoldable pub add_points : List Point → Sweep → Sweep
  add_points [] w = w
  add_points (p ∷ ps) w = add_points ps (add_point p w)

  -- The start angle is lower than the one before.
  unfoldable pub wraps : Option ℕ → ℕ → Bool
  wraps none start_cdeg = false
  wraps (some last) start_cdeg = ltb start_cdeg last

  -- The revolution that a packet ends, and the table it goes on with.
  unfoldable pub end_revolution : Bool → Packet → Sweep → Option Scan × Sweep
  end_revolution clockwise packet w =
      if wraps w.last_start_cdeg packet.start_cdeg
      then (
        if leb (points / 4) w.filled
            then some (record {
              ranges_mm = w.ranges;
              intensities = w.intensities;
              clockwise = clockwise;
              speed_dps = packet.speed_dps;
            })
            else none,
        cleared (some packet.start_cdeg),
      )
      else (none, record w { last_start_cdeg = some packet.start_cdeg })

  -- The body of `for start_cdeg, points in self._packets()`.
  unfoldable pub take_packet : Bool → Packet → Sweep → Option Scan × Sweep
  take_packet clockwise packet w =
      let (scan, w') = end_revolution clockwise packet w in (scan, add_points packet.points w')

  abbrev pub yielded : Option Scan → List Scan → List Scan
  yielded none scans = scans
  yielded (some scan) scans = scan ∷ scans

  unfoldable pub take_packets : Bool → List Packet → Sweep → List Scan × Sweep
  take_packets clockwise [] w = ([], w)
  take_packets clockwise (packet ∷ rest) w =
      let (scan, w') = take_packet clockwise packet w in
      let (scans, w'') = take_packets clockwise rest w' in (yielded scan scans, w'')

  -- One round of `while True` with what `self._ser.read(512)` gave.
  unfoldable pub on_chunk : List ℕ → Source → List Scan × Source
  on_chunk [] s = ([], s)
  on_chunk (b ∷ bs) s =
      let r = packets (s.buf ++ b ∷ bs) s.link in
      let (scans, sweep) = take_packets s.clockwise r.found s.sweep in
      (
        scans,
        record {
          clockwise = s.clockwise;
          buf = r.left;
          bytes = s.bytes + length (b ∷ bs);
          link = r.state;
          sweep = sweep;
        },
      )

  unfoldable pub on_chunks : List (List ℕ) → Source → List Scan × Source
  on_chunks [] s = ([], s)
  on_chunks (chunk ∷ rest) s =
      let (scans, s') = on_chunk chunk s in
      let (more, s'') = on_chunks rest s' in (scans ++ more, s'')
