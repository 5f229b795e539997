-- ===== src/Decoders/Tests.antt =====
-- The decoders of robocam/lidar.py and robocam/imu.py on small messages, with numbers for floats.
use robo_cam_stream_processi.Decoders.Scans.{
  ScanHeader, decode_scan, encode_scan_payload, seq_or, rated,
}
use robo_cam_stream_processi.Decoders.Scans.Explained.{Explains, decode_scan-Explains}
use robo_cam_stream_processi.Decoders.Scans.RoundTrip.{AllExact, decode_scan-encode_scan_payload}
use robo_cam_stream_processi.Decoders.Bursts.{
  ImuHeader, decode_imu, encode_imu_payload, listed, flat, names_of, has_duplicates, among,
}
use robo_cam_stream_processi.Decoders.Bursts.RoundTrip.{decode_imu-encode_imu_payload}
use mathlib.Core.Option
use robo_cam_stream_processi.Decoders.Scans as Scans
use robo_cam_stream_processi.Decoders.Bursts as Bursts
use robo_cam_stream_processi.Prelude.{
  ℕ, List, some, ltb, Option, ◌∷◌, ◌/◌, leb, true, none, [], ◌≡◌, ◌*◌, inr, refl, arith,
  if◌then◌else◌,
}
use robo_cam_stream_processi.Prelude.Int.{pos, negsuc}

abbrev metres : Scans.Floats
metres = record {
  F = ℕ;
  of_mm = λ mm. mm;
  to_mm = λ r. r;
  of_f32 = λ w. some w;
  over_zero = λ r. ltb 0 r;
  at_most = λ a b. leb a b;
  to_u8 = λ v. if ltb v 256 then some v else none;
}

abbrev scan_header : ScanHeader ℕ
scan_header = record {
  encoding = "u16mm";
  count = some (pos 3);
  intensities = true;
  range_min = 100;
  range_max = 8000;
  seq = some (pos 0);
}

abbrev ranges : List (Option ℕ)
ranges = some 250 ∷ none ∷ some 4000 ∷ []

abbrev sent : List ℕ
sent = 250 ∷ 0 ∷ 0 ∷ 0 ∷ 160 ∷ 15 ∷ []

decode_scan-Explains_example :
    Explains metres scan_header sent (decode_scan metres scan_header sent)
decode_scan-Explains_example = decode_scan-Explains metres scan_header sent

decode_scan-encode_scan_payload_example :
    Option.map
      (decode_scan metres scan_header)
      (encode_scan_payload metres ranges (some (7 ∷ 0 ∷ 9 ∷ [])))
    ≡ some (
        inr (record {
          ranges = ranges;
          intensities = some (7 ∷ 0 ∷ 9 ∷ []);
          seq = seq_or (some (pos 0));
        }))
unfolding AllExact rated
decode_scan-encode_scan_payload_example =
    decode_scan-encode_scan_payload metres (λ v small. ground (arith, small)) scan_header ranges
      (7 ∷ 0 ∷ 9 ∷ []) (omega arith, (omega arith, (omega arith, tt))) refl refl (omega arith)
      (omega arith) refl
      (
        record {
          over_zero = refl;
          some_mm = omega arith;
          few_mm = omega arith;
          back = refl;
          in_window = refl;
        },
        (
          record {
            over_zero = refl;
            some_mm = omega arith;
            few_mm = omega arith;
            back = refl;
            in_window = refl;
          },
          tt,
        ),
      )

-- The first scan of a client, of number 0, gets the number of a scan without one.
first_scan_number : seq_or (some (pos 0)) ≡ seq_or none
unfolding seq_or
first_scan_number = refl

abbrev words_of : Bursts.Floats
words_of = record {
  F = ℕ;
  of_f32 = λ w. w;
  to_f32 = λ v. v;
  radians = λ v. v / 57;
  gravities = λ v. v * 10;
}

abbrev imu_header : ImuHeader
imu_header = record {
  encoding = "f32";
  count = some (pos 2);
  fields = listed ("wz" ∷ "ax" ∷ []);
  gyro_units = "rad/s";
  accel_units = "m/s2";
  seq = some (pos 3);
  dropped = negsuc 4;
}

abbrev samples : List (List ℕ)
samples = (1000 ∷ 5 ∷ []) ∷ (70_000 ∷ 6 ∷ []) ∷ []

decode_imu-encode_imu_payload_example :
    decode_imu words_of imu_header (encode_imu_payload words_of samples (pos 0 ∷ negsuc 9 ∷ []))
    ≡ inr (record {
      values = samples;
      fields = "wz" ∷ "ax" ∷ [];
      offsets_us = pos 0 ∷ negsuc 9 ∷ [];
      seq = seq_or (some (pos 3));
      dropped = 0;
    })
unfolding flat names_of has_duplicates among
decode_imu-encode_imu_payload_example =
    decode_imu-encode_imu_payload words_of samples (pos 0 ∷ negsuc 9 ∷ []) ("wz" ∷ "ax" ∷ [])
      (refl, (refl, tt)) refl (omega arith, (omega arith, tt))
      (
        record { small = omega arith; back = refl },
        (
          record { small = omega arith; back = refl },
          (
            record { small = omega arith; back = refl },
            (record { small = omega arith; back = refl }, tt),
          ),
        ),
      )
      imu_header
      (record {
        encoding = refl;
        count = refl;
        fields = refl;
        different = refl;
        gyro = refl;
        accel = refl;
        low = omega arith;
        high = omega arith;
      })
