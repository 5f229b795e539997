-- ===== src/Sensors/Tests.antt =====
-- Runs of the sensors' models of link/robocam_client.py on small inputs.
use robo_cam_stream_processi.Sensors.Crc.Catches.{crc8_catches}
use robo_cam_stream_processi.Sensors.Crc.{
  crc_loop, crc_step, crc8_table, table_from, shift_times, shift_out, crc8,
}
use robo_cam_stream_processi.Sensors.Framing.{read, resync, seek, last_byte, starts}
use robo_cam_stream_processi.Sensors.Framing.Fuel.{read_ends}
use robo_cam_stream_processi.Sensors.Lidar.{
  Packet, Point, Link, new_link, crc_auto, crc_check, packet_bytes, packets,
}
use robo_cam_stream_processi.Sensors.Lidar.Sweep.{add_points, cleared, add_point, bin_index}
use robo_cam_stream_processi.Sensors.Lidar.Packets.{Frame, packet_of, encode, body, beam_bytes}
use robo_cam_stream_processi.Sensors.Lidar.RoundTrip.{packets-encode_all, encode_all, counted}
use robo_cam_stream_processi.Sensors.Lidar.Nearest.{
  nearest, IsSwept, cleared-IsSwept, add_points-nearest,
}
use robo_cam_stream_processi.Sensors.Lidar.Chunks.{on_chunks-joined}
use robo_cam_stream_processi.Sensors.Lidar.Checked.{AllFull, on_chunks-AllFull}
use robo_cam_stream_processi.Sensors.OpenCr
use robo_cam_stream_processi.Sensors.Lidar
use robo_cam_stream_processi.Sensors.OpenCr.Chunks.{on_chunks-frames, in_one_piece}
use robo_cam_stream_processi.Prelude.{
  List, ◌≡◌, ◌∷◌, ℕ, none, true, arith, [], refl, inl, Option, suc, get_or, Bool, ◌+◌, ltb, length,
  ◌<◌, map,
}
use robo_cam_stream_processi.Sensors.Crc.{crc8_ccitt}

-- The check value of each polynomial, over the digits "123456789".
abbrev digits : List ℕ
digits = 49 ∷ 50 ∷ 51 ∷ 52 ∷ 53 ∷ 54 ∷ 55 ∷ 56 ∷ 57 ∷ []

ccitt_check : crc8_ccitt digits ≡ 0xF4
unfolding crc8_ccitt crc_loop crc_step crc8_table table_from shift_times shift_out
ccitt_check = refl

crc8_catches_example : ◌≡◌ {A = ℕ} 7 7
crc8_catches_example =
    crc8_catches (1 ∷ 2 ∷ []) (3 ∷ []) 7 7 (omega arith, (omega arith, tt)) (omega arith, tt)
      (omega arith) (omega arith) (inl refl)

-- One beam after another at the distances 100, 200, ..., 1200 mm.
abbrev frame : Frame
frame = record {
  speed = 2000;
  start_cdeg = 35000;
  end_cdeg = 100;
  stamp = 7;
  beams =
      (100, 1)
      ∷ (200, 2)
      ∷ (300, 3)
      ∷ (400, 4)
      ∷ (500, 5)
      ∷ (600, 6)
      ∷ (700, 7)
      ∷ (800, 8)
      ∷ (900, 9)
      ∷ (1000, 10)
      ∷ (1100, 11)
      ∷ (1200, 12)
      ∷ [];
}

abbrev next_frame : Frame
next_frame = record frame { start_cdeg = 100; end_cdeg = 1100 }

packets-encode_all_example :
    packets (encode_all (frame ∷ next_frame ∷ [])) (new_link crc_check) ≡ record {
      found = packet_of frame ∷ packet_of next_frame ∷ [];
      left = [];
      state = counted 2 (new_link crc_check);
    }
packets-encode_all_example =
    packets-encode_all (frame ∷ next_frame ∷ []) (new_link crc_check) (refl, (refl, tt))

-- A check that refuses every packet.
abbrev refuse : List ℕ → ℕ → Option ℕ × ℕ
refuse packet n = (none, n + 1)

read_ends_example :
    (resync 1 2 3 refuse (suc 6 + 5) (9 ∷ 1 ∷ 2 ∷ 1 ∷ 2 ∷ 0 ∷ []) 0
      ≡ read 1 2 3 refuse (9 ∷ 1 ∷ 2 ∷ 1 ∷ 2 ∷ 0 ∷ []) 0)
    × (length (read 1 2 3 refuse (9 ∷ 1 ∷ 2 ∷ 1 ∷ 2 ∷ 0 ∷ []) 0).left < 3)
read_ends_example = read_ends 1 2 3 refuse (omega arith) 5 (9 ∷ 1 ∷ 2 ∷ 1 ∷ 2 ∷ 0 ∷ []) 0

-- Four bins; a beam's number is its bearing.
abbrev by_number : ℕ → ℕ → ℕ → ℕ
by_number start span i = i

abbrev beam : ℕ → ℕ → Point
beam i d = record { start_cdeg = 0; span = 0; number = i; distance_mm = d; intensity = 9 }

abbrev beams : List Point
beams = beam 1 500 ∷ beam 5 300 ∷ beam 1 0 ∷ beam 2 800 ∷ []

add_points-nearest_example :
    IsSwept 4 by_number (add_points 4 by_number beams (cleared 4 by_number none))
    × ((bin : ℕ)
        → get_or (add_points 4 by_number beams (cleared 4 by_number none)).ranges bin 0
          ≡ nearest 4 by_number bin beams (get_or (cleared 4 by_number none).ranges bin 0))
add_points-nearest_example =
    add_points-nearest 4 by_number beams (cleared 4 by_number none) (omega arith)
      (cleared-IsSwept 4 by_number none)

nearest_wins :
    (add_points 4 by_number beams (cleared 4 by_number none)).ranges ≡ 0 ∷ 300 ∷ 800 ∷ 0 ∷ []
unfolding add_points add_point cleared bin_index
nearest_wins = refl

abbrev scanner : Lidar.Sweep.Source
scanner = record {
  clockwise = true;
  buf = [];
  bytes = 0;
  link = new_link crc_auto;
  sweep = cleared 4 by_number none;
}

abbrev parts : List (List ℕ)
parts = (0x54 ∷ []) ∷ (0x2C ∷ 1 ∷ []) ∷ []

on_chunks-joined_example :
    Lidar.Sweep.on_chunks 4 by_number parts scanner
    ≡ Lidar.Sweep.on_chunk 4 by_number (0x54 ∷ 0x2C ∷ 1 ∷ []) scanner
on_chunks-joined_example = on_chunks-joined 4 by_number parts scanner

-- The second packet starts at a lower angle and ends the revolution of the first.
abbrev lap : List (List ℕ)
lap = encode frame ∷ encode next_frame ∷ []

-- Its nearest return in each of the four bins.
one_revolution :
    map
      (λ (scan : Lidar.Sweep.Scan). scan.ranges_mm)
      (Lidar.Sweep.on_chunks 4 by_number lap scanner).0
    ≡ (100 ∷ 200 ∷ 300 ∷ 400 ∷ []) ∷ []
unfolding Lidar.Sweep.on_chunks Lidar.Sweep.on_chunk Lidar.Sweep.take_packets
    Lidar.Sweep.take_packet Lidar.Sweep.end_revolution Lidar.Sweep.wraps add_points add_point
    bin_index cleared Lidar.packets Lidar.on_packet Lidar.decode_packet Lidar.decode_points
    Lidar.angle_span Lidar.u16_at Lidar.check_crc Lidar.is_auto Lidar.is_ignore new_link read resync
    starts seek last_byte encode body beam_bytes crc8 crc_loop crc_step crc8_table table_from
    shift_times shift_out
one_revolution = refl

on_chunks-AllFull_example : AllFull 4 by_number (Lidar.Sweep.on_chunks 4 by_number lap scanner).0
on_chunks-AllFull_example =
    on_chunks-AllFull 4 by_number lap scanner (omega arith) (cleared-IsSwept 4 by_number none)

-- The first byte stands for the float; every float is finite and small.
abbrev first_byte : List ℕ → ℕ
first_byte bytes = get_or bytes 0 0

abbrev yes_finite : ℕ → Bool
yes_finite v = true

abbrev above : ℕ → ℕ → Bool
above limit v = ltb limit v

abbrev board : OpenCr.Source
board = record {
  buf = [];
  bytes = 0;
  counters = record { packets = 0; crc_bad = 0; implausible = 0 };
}

on_chunks-frames_example :
    OpenCr.on_chunks first_byte yes_finite above ((0x55 ∷ []) ∷ (0xAA ∷ 3 ∷ []) ∷ []) board
    ≡ in_one_piece first_byte yes_finite above (0x55 ∷ 0xAA ∷ 3 ∷ []) board
unfolding OpenCr.frames read resync seek last_byte
on_chunks-frames_example =
    on_chunks-frames first_byte yes_finite above ((0x55 ∷ []) ∷ (0xAA ∷ 3 ∷ []) ∷ []) board
      (omega arith, (omega arith, tt)) (refl, omega arith)
