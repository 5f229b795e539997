-- ===== src/Wire/Tests.antt =====
-- Messages of robocam/wire.py with integers for floats, and a JSON library that keeps headers as
-- they are.
use robo_cam_stream_processi.Wire.Json.{Json, Header, json_object, fields_of, json_string}
use robo_cam_stream_processi.Wire.Decode.{
  encode, decode, check_header, with_payload, not_json, frames_expected,
}
use robo_cam_stream_processi.Wire.Messages.{send_result, header, type_of, decode-header}
use robo_cam_stream_processi.Wire.Results.{ResultArgs}
use robo_cam_stream_processi.Prelude.Dict.{get, string_eq}
use robo_cam_stream_processi.Prelude.Int.{ℤ, pos}
use robo_cam_stream_processi.Prelude.{Option, ℕ, ◌≡◌, ◌∷◌, some, inr, [], none, true, refl, inl}

-- A frame of the socket: a header's text, or a payload.
data Bytes : Type 0 where
  text : Header ℤ → Bytes
  raw : ℕ → Bytes

abbrev loads : Bytes → Option (Json ℤ)
loads (text h) = some (json_object (fields_of h))
loads (raw n) = none

abbrev keep : ℕ → ℤ → ℤ
keep digits v = v

abbrev args : ResultArgs ℤ
args = record {
  seq = pos 4;
  ok = true;
  reason = "ok";
  width = pos 640;
  height = pos 480;
  channels = pos 3;
  dtype = "uint8";
  nbytes = pos 921600;
  payload_bytes = pos 50000;
  codec = "jpeg";
  decode_ms = pos 3;
  process_ms = pos 5;
  server_ms = pos 9;
  queue_ms = pos 1;
  processor = "stats";
  «data» = none;
  t_capture_ns = some (pos 77);
  t_send_ns = none;
  scan_seq = some (pos 12);
  scan_age_ms = some (pos 40);
  imu_seq = none;
  imu_age_ms = none;
  odom_seq = none;
  odom_age_ms = none;
  map_seq = none;
  map_id = some "hall";
  pose_source = some "";
}

decode-header_example :
    (decode (raw 0) text loads (encode (raw 0) text loads (header keep (send_result args)) (raw 9))
      ≡ inr (header keep (send_result args), raw 9))
    × (get "type" (header keep (send_result args))
        ≡ some (json_string (type_of (send_result args))))
decode-header_example = decode-header keep (raw 0) text loads (send_result args) (raw 9) refl

no_header : decode (raw 0) text loads (raw 1 ∷ []) ≡ inl not_json
unfolding decode check_header with_payload
no_header = refl

three_frames : decode (raw 0) text loads (raw 1 ∷ raw 2 ∷ raw 3 ∷ []) ≡ inl (frames_expected 3)
unfolding decode
three_frames = refl
