-- ===== src/Sensors/OpenCr.antt =====
-- `SerialOpenCRSource` of link/robocam_client.py: the board's frames and what is kept of them. The
-- health report and the opening of the port are left out.
pub mod Chunks
use robo_cam_stream_processi.Sensors.Framing.{Reading, read}
use robo_cam_stream_processi.Sensors.Lidar.{byte_at}
use robo_cam_stream_processi.Prelude.{
  ℕ, List, ◌+◌, Bool, ◌*◌, [], true, false, if◌then◌else◌, drop, Option, ◌∷◌, suc, ◌&&◌, ◌||◌, not,
  ltb, ◌++◌, take, length, ◌-◌, ◌==◌, none, some,
}
use robo_cam_stream_processi.Sensors.Crc.{crc8_ccitt}
use Prim.Native.Nat.{zero}

-- `_packets`, `_crc_bad` and `_implausible`.
pub record Counters : Type 0 where
  pub packets : ℕ
  pub crc_bad : ℕ
  pub implausible : ℕ

-- Magic, a sequence byte, 27 int16 and 15 float32, and the checksum.
abbrev pub packet_bytes : ℕ
packet_bytes = 2 + 1 + (27 * 2 + 15 * 4) + 1

-- `OPENCR_IMU_OFFSET` in bytes of the packet: behind 27 int16 and two float32.
abbrev pub imu_offset : ℕ
imu_offset = 3 + 27 * 2 + 2 * 4

-- `len(IMU_FIELDS)`
abbrev pub imu_fields : ℕ
imu_fields = 13

pub record Source : Type 0 where
  pub buf : List ℕ
  pub bytes : ℕ
  pub counters : Counters

-- `del self._buf[:-4096]` where it has grown beyond 8192 bytes.
unfoldable pub trim : List ℕ → List ℕ
trim buf = if ltb 8192 (length buf) then drop (length buf - 4096) buf else buf

-- Floats are a parameter: what "<f" makes of four bytes, `math.isfinite`, and `abs(v) > limit`.
module _ {F : Type 0} (unpack : List ℕ → F) (is_finite : F → Bool) (exceeds : ℕ → F → Bool) where
  unfoldable pub floats : ℕ → List ℕ → List F
  floats zero bytes = []
  floats (suc n) bytes = unpack (take 4 bytes) ∷ floats n (drop 4 bytes)

  unfoldable pub all_finite : List F → Bool
  all_finite [] = true
  all_finite (v ∷ vs) = is_finite v && all_finite vs

  unfoldable pub any_exceeds : ℕ → List F → Bool
  any_exceeds limit [] = false
  any_exceeds limit (v ∷ vs) = exceeds limit v || any_exceeds limit vs

  -- `_plausible_imu`
  unfoldable pub plausible_imu : List F → Bool
  plausible_imu values =
      if not (all_finite values)
      then false
      else if any_exceeds 100 (take 3 values)
      then false
      else not (any_exceeds 200 (take 3 (drop 3 values)))

  -- `values[OPENCR_IMU_OFFSET:OPENCR_IMU_OFFSET + len(IMU_FIELDS)]` of a packet.
  unfoldable pub imu_values : List ℕ → List F
  imu_values packet = floats imu_fields (drop imu_offset packet)

  -- What `_frames` does with the bytes of one packet.
  unfoldable pub on_packet : List ℕ → Counters → Option (List F) × Counters
  on_packet packet s =
      if not (crc8_ccitt (take (packet_bytes - 1) packet) == byte_at packet (packet_bytes - 1))
      then (none, record s { crc_bad = s.crc_bad + 1 })
      else if not (plausible_imu (imu_values packet))
      then (none, record s { implausible = s.implausible + 1 })
      else (some (imu_values packet), record s { packets = s.packets + 1 })

  -- `_frames`, run until it returns.
  unfoldable pub frames : List ℕ → Counters → Reading Counters (List F)
  frames = read 0x55 0xAA packet_bytes on_packet

  -- One round of `samples` with what `self._ser.read(512)` gave.
  unfoldable pub on_chunk : List ℕ → Source → List (List F) × Source
  on_chunk [] s = ([], s)
  on_chunk (b ∷ bs) s =
      let r = frames (trim (s.buf ++ b ∷ bs)) s.counters in
      (r.found, record { buf = r.left; bytes = s.bytes + length (b ∷ bs); counters = r.state })

  unfoldable pub on_chunks : List (List ℕ) → Source → List (List F) × Source
  on_chunks [] s = ([], s)
  on_chunks (chunk ∷ rest) s =
      let (found, s') = on_chunk chunk s in
      let (more, s'') = on_chunks rest s' in (found ++ more, s'')
