-- ===== src/Sensors/Lidar/Chunks.antt =====
-- `SerialLdsSource.scans` of link/robocam_client.py: how the bytes are cut into reads of the port.
use robo_cam_stream_processi.Sensors.Framing.{Reading}
use robo_cam_stream_processi.Sensors.Framing.Fuel.{read_ends}
use robo_cam_stream_processi.Sensors.Framing.Append.{then, read-append}
use robo_cam_stream_processi.Sensors.Lidar.{Link, Packet, packets, packet_bytes, on_packet}
use robo_cam_stream_processi.Sensors.Lidar.Sweep.{
  Sweep, Scan, Source, take_packet, take_packets, yielded, on_chunk, on_chunks,
}
use robo_cam_stream_processi.Prelude.{
  List, ℕ, ◌++◌, ◌∷◌, Option, Bool, ◌≡◌, arith, some, ap₂, ap, refl, ◌∙◌, sym, append-nil, length,
  length-append, ◌<◌, append_assoc, ◌+◌,
}
use mathlib.Core.List.{[]}
use mathlib.Core.Option.{none}

packets-append :
    (buf more : List ℕ) (s : Link)
    → packets (buf ++ more) s ≡ then (packets buf s) (λ left s'. packets (left ++ more) s')
unfolding packets
packets-append buf more s = read-append 0x54 0x2C packet_bytes on_packet (omega arith) buf more s

-- All the bytes of a list of reads.
abbrev pub joined : List (List ℕ) → List ℕ
joined [] = []
joined (chunk ∷ rest) = chunk ++ joined rest

module _ (points : ℕ) (rounded : ℕ → ℕ → ℕ → ℕ) where
  yielded-append :
      (o : Option Scan) (xs ys : List Scan)
      → yielded points rounded o xs ++ ys ≡ yielded points rounded o (xs ++ ys)
  yielded-append none xs ys = refl
  yielded-append (some scan) xs ys = refl

  pub take_packets-append :
      (clockwise : Bool) (xs ys : List Packet) (w : Sweep)
      → take_packets points rounded clockwise (xs ++ ys) w ≡ (
        (take_packets points rounded clockwise xs w).0
            ++ (take_packets points rounded clockwise ys
                (take_packets points rounded clockwise xs w).1).0,
        (take_packets points rounded clockwise ys (take_packets points rounded clockwise xs w).1).1,
      )
  unfolding take_packets
  take_packets-append clockwise [] ys w = refl
  take_packets-append clockwise (x ∷ xs) ys w =
      let w' = (take_packet points rounded clockwise x w).1 in
      let rest = take_packets-append clockwise xs ys w' in
      ap₂ (λ (scans : List Scan) (w'' : Sweep). (scans, w''))
        (ap (yielded points rounded (take_packet points rounded clockwise x w).0)
            (ap (λ p. p.0) rest)
          ∙ sym (yielded-append (take_packet points rounded clockwise x w).0 _ _))
        (ap (λ p. p.1) rest)

  abbrev both : Source → List ℕ → List ℕ → List Scan × Source
  both s a b = (
    (on_chunk points rounded a s).0
        ++ (on_chunk points rounded b (on_chunk points rounded a s).1).0,
    (on_chunk points rounded b (on_chunk points rounded a s).1).1,
  )

  -- What `on_chunk` makes of what the framing loop found.
  abbrev digest : Bool → ℕ → Sweep → Reading Link Packet → List Scan × Source
  digest clockwise bytes w r =
      let (scans, sweep) = take_packets points rounded clockwise r.found w in
      (
        scans,
        record {
          clockwise = clockwise;
          buf = r.left;
          bytes = bytes;
          link = r.state;
          sweep = sweep;
        },
      )

  digest-then :
      (clockwise : Bool) (bytes : ℕ) (w : Sweep) (r r' : Reading Link Packet)
      → digest clockwise bytes w (then r (λ _ _. r')) ≡ (
        (digest clockwise bytes w r).0
            ++ (digest clockwise bytes (digest clockwise bytes w r).1.sweep r').0,
        (digest clockwise bytes (digest clockwise bytes w r).1.sweep r').1,
      )
  digest-then clockwise bytes w r r' =
      ap
        (λ p. (
          p.0,
          record {
            clockwise = clockwise;
            buf = r'.left;
            bytes = bytes;
            link = r'.state;
            sweep = p.1;
          },
        ))
        (take_packets-append clockwise r.found r'.found w)

  -- Two reads of the port, one after the other, are one read of both.
  on_chunk-append : (a b : List ℕ) (s : Source) → on_chunk points rounded (a ++ b) s ≡ both s a b
  unfolding on_chunk
  on_chunk-append [] b s = refl
  on_chunk-append (x ∷ xs) [] s =
      ap (λ chunk. on_chunk points rounded chunk s) (append-nil (x ∷ xs))
      ∙ ap (λ scans. (scans, (on_chunk points rounded (x ∷ xs) s).1)) (sym (append-nil _))
  on_chunk-append (x ∷ xs) (y ∷ ys) s =
      ap₂ (λ n r. digest s.clockwise n s.sweep r) (omega (arith, length-append (x ∷ xs) (y ∷ ys)))
        (ap (λ bytes. packets bytes s.link) (sym (append_assoc s.buf (x ∷ xs) (y ∷ ys)))
          ∙ packets-append (s.buf ++ x ∷ xs) (y ∷ ys) s.link)
      ∙ digest-then s.clockwise (s.bytes + length (x ∷ xs) + length (y ∷ ys)) s.sweep
          (packets (s.buf ++ x ∷ xs) s.link) _

  -- However the scanner's bytes are cut into reads, the revolutions that come out and the state
  -- that is left are those of a single read of all of them.
  pub on_chunks-joined :
      (chunks : List (List ℕ)) (s : Source)
      → on_chunks points rounded chunks s ≡ on_chunk points rounded (joined chunks) s
  unfolding on_chunks
  on_chunks-joined [] s = unfold on_chunk in refl
  on_chunks-joined (chunk ∷ rest) s =
      ap (λ p. ((on_chunk points rounded chunk s).0 ++ p.0, p.1))
        (on_chunks-joined rest (on_chunk points rounded chunk s).1)
      ∙ sym (on_chunk-append chunk (joined rest) s)

  -- Whatever the port gives, less than a packet is left in the buffer after each read.
  pub on_chunk_drained :
      (chunk : List ℕ) (s : Source)
      → length s.buf < packet_bytes
      → length (on_chunk points rounded chunk s).1.buf < packet_bytes
  unfolding on_chunk packets
  on_chunk_drained [] s h = h
  on_chunk_drained (b ∷ bs) s h =
      (read_ends 0x54 0x2C packet_bytes on_packet (omega arith) 0 (s.buf ++ b ∷ bs) s.link).1
