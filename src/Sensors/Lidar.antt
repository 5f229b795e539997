-- ===== src/Sensors/Lidar.antt =====
-- `SerialLdsSource` of link/robocam_client.py: the scanner's packets and the revolutions they fill.
-- The health report and the opening of the port are left out; `self._speed_dps` travels with the
-- packet that set it.
pub mod Sweep
pub mod Bins
pub mod Nearest
pub mod Chunks
pub mod Checked
pub mod Packets
pub mod RoundTrip
use robo_cam_stream_processi.Sensors.Framing.{Reading, read}
use robo_cam_stream_processi.Prelude.{
  Bool, not, ℕ, List, true, false, get_or, ◌+◌, if◌then◌else◌, [], Option, ◌*◌, suc, ◌&&◌, take,
  ◌/◌, ◌∷◌, none, ◌-◌, some, ◌==◌, ◌%◌, leb, ltb,
}
use robo_cam_stream_processi.Sensors.Crc.{crc8}
use Prim.Native.Nat.{zero}

-- `crc` of the constructor.
pub data CrcMode : Type 0 where
  crc_auto crc_check crc_ignore : CrcMode

unfoldable pub is_auto : CrcMode → Bool
is_auto crc_auto = true
is_auto crc_check = false
is_auto crc_ignore = false

unfoldable pub is_ignore : CrcMode → Bool
is_ignore crc_auto = false
is_ignore crc_check = false
is_ignore crc_ignore = true

-- The counters of the link and what the checksums have been like.
pub record Link : Type 0 where
  pub crc_mode : CrcMode
  pub crc_checking : Bool
  pub crc_ok : ℕ
  pub crc_bad : ℕ
  pub packet_count : ℕ

unfoldable pub new_link : CrcMode → Link
new_link mode = record {
  crc_mode = mode;
  crc_checking = not (is_ignore mode);
  crc_ok = 0;
  crc_bad = 0;
  packet_count = 0;
}

-- A beam: the packet's start angle and span and the beam's number, of which the source makes the
-- float `(start_cdeg + step * i) % 36000`, with what `struct.unpack_from("<HB", ...)` read.
pub record Point : Type 0 where
  pub start_cdeg : ℕ
  pub span : ℕ
  pub number : ℕ
  pub distance_mm : ℕ
  pub intensity : ℕ

pub record Packet : Type 0 where
  pub speed_dps : ℕ
  pub start_cdeg : ℕ
  pub points : List Point

abbrev pub packet_bytes : ℕ
packet_bytes = 47

abbrev pub points_per_packet : ℕ
points_per_packet = 12

-- `packet[i]`, and "<H" at an offset.
abbrev pub byte_at : List ℕ → ℕ → ℕ
byte_at packet i = get_or packet i 0

unfoldable pub u16_at : List ℕ → ℕ → ℕ
u16_at packet i = byte_at packet i + 256 * byte_at packet (i + 1)

-- `_check_crc`: the answer, and the counters afterwards.
unfoldable pub check_crc : List ℕ → Link → Bool × Link
check_crc packet s =
    if crc8 (take (packet_bytes - 1) packet) == byte_at packet (packet_bytes - 1)
    then (true, record s { crc_ok = s.crc_ok + 1 })
    else (
      false,
      record s {
        crc_bad = s.crc_bad + 1;
        crc_checking =
            if is_auto s.crc_mode && leb 50 (s.crc_bad + 1) && ltb (4 * s.crc_ok) (s.crc_bad + 1)
            then false
            else s.crc_checking;
      },
    )

-- `(end_cdeg - start_cdeg) % 36000`, which Python rounds down.
unfoldable pub angle_span : ℕ → ℕ → ℕ
angle_span start_cdeg end_cdeg = (end_cdeg + 36000 * (start_cdeg / 36000 + 1) - start_cdeg) % 36000

-- `for i in range(self.POINTS_PER_PACKET)`, from the beam `i` on.
unfoldable pub decode_points : List ℕ → ℕ → ℕ → ℕ → ℕ → List Point
decode_points packet start_cdeg span i zero = []
decode_points packet start_cdeg span i (suc n) =
    record {
      start_cdeg = start_cdeg;
      span = span;
      number = i;
      distance_mm = u16_at packet (6 + i * 3);
      intensity = byte_at packet (6 + i * 3 + 2);
    }
    ∷ decode_points packet start_cdeg span (i + 1) n

unfoldable pub decode_packet : List ℕ → Packet
decode_packet packet =
    let start_cdeg = u16_at packet 4 in
    record {
      speed_dps = u16_at packet 2;
      start_cdeg = start_cdeg;
      points =
          decode_points packet start_cdeg (angle_span start_cdeg (u16_at packet 42)) 0
            points_per_packet;
    }

-- What `_packets` does with the 47 bytes behind a header.
unfoldable pub on_packet : List ℕ → Link → Option Packet × Link
on_packet packet s =
    let (agrees, checked) = check_crc packet s in
    if s.crc_checking && not agrees
    then (none, checked)
    else let s' = if s.crc_checking then checked else s in
      (some (decode_packet packet), record s' { packet_count = s'.packet_count + 1 })

-- `_packets`, run until it returns.
unfoldable pub packets : List ℕ → Link → Reading Link Packet
packets = read 0x54 0x2C packet_bytes on_packet
