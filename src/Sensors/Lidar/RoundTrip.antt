-- ===== src/Sensors/Lidar/RoundTrip.antt =====
-- `_packets` of link/robocam_client.py reads back the packets of the layout.
use robo_cam_stream_processi.Sensors.Framing.{more_found, resync, read, starts, seek, last_byte}
use robo_cam_stream_processi.Sensors.Framing.Fuel.{resync_enough, resync-took}
use robo_cam_stream_processi.Sensors.Lidar.{Link, packets, packet_bytes, on_packet, check_crc}
use robo_cam_stream_processi.Sensors.Lidar.Packets.{
  Frame, IsFrame, encode, body, packet_of, encode-crc, length-encode, decode_packet-encode,
  take_exact, drop_exact,
}
use robo_cam_stream_processi.Prelude.{
  ℕ, List, ◌≡◌, suc, ◌∷◌, true, some, ◌++◌, map, if◌then◌else◌, ◌+◌, Bool-cases, refl, take, [],
  inl, ap, length, ◌==◌, inr, sym, ◌∙◌, ==_iff, drop, arith, length-append,
}
use mathlib.Core.List.{[]}
use Prim.Native.Nat.{zero}
use robo_cam_stream_processi.Sensors.Crc.{crc8}

-- The counters after n good packets.
unfoldable pub counted : ℕ → Link → Link
counted zero s = s
counted (suc n) s = counted n (record s {
  crc_ok = if s.crc_checking then s.crc_ok + 1 else s.crc_ok;
  packet_count = s.packet_count + 1;
})

abbrev pub AllFrames : List Frame → Type 0
AllFrames [] = Unit
AllFrames (f ∷ fs) = IsFrame f × AllFrames fs

unfoldable pub encode_all : List Frame → List ℕ
encode_all [] = []
encode_all (f ∷ fs) = encode f ++ encode_all fs

check_crc-encode :
    (f : Frame) (s : Link)
    → IsFrame f
    → check_crc (encode f) s ≡ (true, record s { crc_ok = s.crc_ok + 1 })
unfolding check_crc
check_crc-encode f s h = rw ((encode-crc f h).0, (encode-crc f h).1, same) refl
  where
    same : (crc8 (body f) == crc8 (body f)) ≡ true
    same = (==_iff _ (crc8 (body f))).1 refl

on_packet-encode :
    (f : Frame) (s : Link) → IsFrame f → on_packet (encode f) s ≡ (some (packet_of f), counted 1 s)
unfolding on_packet counted
on_packet-encode f s h = elim (Bool-cases s.crc_checking) [
  | inl t ↦ rw (check_crc-encode f s h, t, decode_packet-encode f h) refl
  | inr n ↦ rw (check_crc-encode f s h, n, decode_packet-encode f h) refl
]

seek-encode :
    (f : Frame) (rest : List ℕ) → seek 0x54 0x2C (encode f ++ rest) ≡ some (encode f ++ rest)
unfolding seek starts encode body
seek-encode f rest = refl

-- One packet at the front of the buffer.
packets-encode :
    (f : Frame) (rest : List ℕ) (s : Link)
    → IsFrame f
    → packets (encode f ++ rest) s ≡ more_found (packet_of f) (packets rest (counted 1 s))
unfolding packets read
packets-encode f rest s h =
    resync-took 0x54 0x2C packet_bytes on_packet (length (encode f ++ rest)) (encode f ++ rest)
      (encode f ++ rest) (packet_of f) s (counted 1 s) (seek-encode f rest)
      (omega (arith, length-append (encode f) rest, length-encode f h))
      (ap (λ packet. on_packet packet s) taken ∙ on_packet-encode f s h)
    ∙ ap
        (λ buf.
          more_found (packet_of f)
            (resync 0x54 0x2C packet_bytes on_packet (length (encode f ++ rest)) buf (counted 1 s)))
        dropped
    ∙ ap (more_found (packet_of f))
        (resync_enough 0x54 0x2C packet_bytes on_packet (omega arith) (length (encode f ++ rest))
          (suc (length rest)) rest (counted 1 s)
          (omega (arith, length-append (encode f) rest, length-encode f h)) (omega arith)).0
  where
    taken : take packet_bytes (encode f ++ rest) ≡ encode f
    taken =
        ap (λ n. take n (encode f ++ rest)) (sym (length-encode f h)) ∙ take_exact (encode f) rest

    dropped : drop packet_bytes (encode f ++ rest) ≡ rest
    dropped =
        ap (λ n. drop n (encode f ++ rest)) (sym (length-encode f h)) ∙ drop_exact (encode f) rest

-- A stream of packets of twelve beams with their checksums is read back packet by packet, whether
-- or not the checksums are checked; nothing is left in the buffer, and the counters have counted
-- each of them.
pub packets-encode_all :
    (fs : List Frame) (s : Link)
    → AllFrames fs
    → packets (encode_all fs) s
      ≡ record { found = map packet_of fs; left = []; state = counted (length fs) s }
unfolding encode_all counted
packets-encode_all [] s _ = unfold packets read resync seek last_byte counted in refl
packets-encode_all (f ∷ fs) s (h, hs) =
    packets-encode f (encode_all fs) s h
    ∙ ap (more_found (packet_of f)) (packets-encode_all fs (counted 1 s) hs)
