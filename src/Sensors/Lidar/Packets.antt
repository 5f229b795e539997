-- ===== src/Sensors/Lidar/Packets.antt =====
-- The LD08/LD19 packet as a layout of bytes, written apart from the reader, and that `_packets` of
-- link/robocam_client.py reads such packets back.
use robo_cam_stream_processi.Sensors.Lidar.{
  Packet, Point, decode_points, angle_span, u16_at, points_per_packet, decode_packet, byte_at,
}
use robo_cam_stream_processi.Prelude.{
  ℕ, List, length, ◌%◌, [], ◌∷◌, ◌++◌, ◌≡◌, get_or, drop, ◌/◌, ◌+◌, ap, ◌*◌, arith, ap₂, suc, ◌∙◌,
  refl, sym, length-append, take, append_assoc,
}
use robo_cam_stream_processi.Sensors.Crc.{crc8}
use Prim.Native.Nat.{zero}

-- A beam's distance and intensity, and what else a packet carries.
pub record Frame : Type 0 where
  pub speed : ℕ
  pub start_cdeg : ℕ
  pub end_cdeg : ℕ
  pub stamp : ℕ
  pub beams : List (ℕ × ℕ)

-- The angle it ends at and the time, behind the beams.
abbrev pub trailer : Frame → List ℕ
trailer f = f.end_cdeg % 256 ∷ f.end_cdeg / 256 ∷ f.stamp % 256 ∷ f.stamp / 256 ∷ []

unfoldable pub beam_bytes : List (ℕ × ℕ) → List ℕ
beam_bytes [] = []
beam_bytes ((distance, intensity) ∷ rest) =
    distance % 256 ∷ distance / 256 ∷ intensity ∷ beam_bytes rest

-- The 46 bytes before the checksum.
unfoldable pub body : Frame → List ℕ
body f =
    0x54
    ∷ 0x2C
    ∷ f.speed % 256
    ∷ f.speed / 256
    ∷ f.start_cdeg % 256
    ∷ f.start_cdeg / 256
    ∷ (beam_bytes f.beams ++ trailer f)

unfoldable pub encode : Frame → List ℕ
encode f = body f ++ crc8 (body f) ∷ []

-- The points that a frame stands for, from the beam `i` on.
unfoldable pub points_of : ℕ → ℕ → ℕ → List (ℕ × ℕ) → List Point
points_of start_cdeg span i [] = []
points_of start_cdeg span i ((distance, intensity) ∷ rest) =
    record {
      start_cdeg = start_cdeg;
      span = span;
      number = i;
      distance_mm = distance;
      intensity = intensity;
    }
    ∷ points_of start_cdeg span (i + 1) rest

unfoldable pub packet_of : Frame → Packet
packet_of f = record {
  speed_dps = f.speed;
  start_cdeg = f.start_cdeg;
  points = points_of f.start_cdeg (angle_span f.start_cdeg f.end_cdeg) 0 f.beams;
}

abbrev pub IsFrame : Frame → Type 0
IsFrame f = length f.beams ≡ points_per_packet

get_or-drop : (n i : ℕ) (xs : List ℕ) → get_or xs (n + i) 0 ≡ get_or (drop n xs) i 0
get_or-drop zero i xs = ap (λ k. get_or xs k 0) (omega arith)
get_or-drop (suc n) i [] = refl
get_or-drop (suc n) i (x ∷ xs) = ap (λ k. get_or (x ∷ xs) k 0) suc_first ∙ get_or-drop n i xs
  where
    suc_first : suc n + i ≡ suc (n + i)
    suc_first = omega arith

u16_at-drop :
    (n : ℕ) (a b : ℕ) (xs rest : List ℕ) → drop n xs ≡ a ∷ b ∷ rest → u16_at xs n ≡ a + 256 * b
unfolding u16_at
u16_at-drop n a b xs rest e = omega (arith, low, high)
  where
    low : get_or xs n 0 ≡ a
    low = ap (λ k. get_or xs k 0) (omega arith) ∙ get_or-drop n 0 xs ∙ ap (λ ys. get_or ys 0 0) e

    high : get_or xs (n + 1) 0 ≡ b
    high = get_or-drop n 1 xs ∙ ap (λ ys. get_or ys 1 0) e

drop-nil : (n : ℕ) → ◌≡◌ {A = List ℕ} (drop n []) []
drop-nil zero = refl
drop-nil (suc n) = refl

drop-drop : (n m : ℕ) (xs : List ℕ) → drop (n + m) xs ≡ drop m (drop n xs)
drop-drop zero m xs = ap (λ k. drop k xs) (omega arith)
drop-drop (suc n) m [] = drop-nil (suc n + m) ∙ sym (drop-nil m)
drop-drop (suc n) m (x ∷ xs) = ap (λ k. drop k (x ∷ xs)) suc_first ∙ drop-drop n m xs
  where
    suc_first : suc n + m ≡ suc (n + m)
    suc_first = omega arith

decode_points-beams :
    (beams : List (ℕ × ℕ)) (packet rest : List ℕ) (start span i : ℕ)
    → drop (6 + i * 3) packet ≡ beam_bytes beams ++ rest
    → decode_points packet start span i (length beams) ≡ points_of start span i beams
unfolding decode_points points_of beam_bytes
decode_points-beams [] packet rest start span i e = refl
decode_points-beams ((distance, intensity) ∷ beams) packet rest start span i e =
    ap₂ (λ (p : Point) (ps : List Point). p ∷ ps)
      (ap₂
        (λ d n. record {
          start_cdeg = start;
          span = span;
          number = i;
          distance_mm = d;
          intensity = n;
        })
        (u16_at-drop (6 + i * 3) _ _ packet _ e ∙ omega arith)
        (get_or-drop (6 + i * 3) 2 packet ∙ ap (λ ys. get_or ys 2 0) e))
      (decode_points-beams beams packet rest start span (i + 1)
        (ap (λ k. drop k packet) (omega arith) ∙ drop-drop (6 + i * 3) 3 packet ∙ ap (drop 3) e))

length-beam_bytes : (beams : List (ℕ × ℕ)) → length (beam_bytes beams) ≡ 3 * length beams
unfolding beam_bytes
length-beam_bytes [] = refl
length-beam_bytes (beam ∷ beams) = omega (arith, length-beam_bytes beams)

length-body : (f : Frame) → IsFrame f → length (body f) ≡ 46
unfolding body
length-body f h =
    omega (arith, h, length-beam_bytes f.beams, length-append (beam_bytes f.beams) (trailer f))

pub length-encode : (f : Frame) → IsFrame f → length (encode f) ≡ 47
unfolding encode
length-encode f h = omega (arith, length-body f h, length-append (body f) (crc8 (body f) ∷ []))

pub drop_exact : (xs ys : List ℕ) → drop (length xs) (xs ++ ys) ≡ ys
drop_exact [] ys = refl
drop_exact (x ∷ xs) ys = drop_exact xs ys

pub take_exact : (xs ys : List ℕ) → take (length xs) (xs ++ ys) ≡ xs
take_exact [] ys = refl
take_exact (x ∷ xs) ys = ap (λ zs. x ∷ zs) (take_exact xs ys)

pub encode-crc :
    (f : Frame)
    → IsFrame f
    → (take 46 (encode f) ≡ body f) × (byte_at (encode f) 46 ≡ crc8 (body f))
unfolding encode
encode-crc f h = (
  ap (λ n. take n (encode f)) (sym (length-body f h)) ∙ take_exact (body f) _,
  get_or-drop 46 0 (encode f) ∙ ap (λ ys. get_or ys 0 0) after,
)
  where
    after : drop 46 (body f ++ crc8 (body f) ∷ []) ≡ crc8 (body f) ∷ []
    after =
        ap (λ n. drop n (body f ++ crc8 (body f) ∷ [])) (sym (length-body f h))
        ∙ drop_exact (body f) _

beams_at : (f : Frame) → drop 6 (encode f) ≡ beam_bytes f.beams ++ (trailer f ++ crc8 (body f) ∷ [])
unfolding encode body
beams_at f = append_assoc (beam_bytes f.beams) (trailer f) (crc8 (body f) ∷ [])

end_at : (f : Frame) → IsFrame f → drop 42 (encode f) ≡ trailer f ++ crc8 (body f) ∷ []
end_at f h =
    drop-drop 6 36 (encode f)
    ∙ ap (drop 36) (beams_at f)
    ∙ ap (λ n. drop n (beam_bytes f.beams ++ rest)) thirty_six
    ∙ drop_exact (beam_bytes f.beams) rest
  where
    rest : List ℕ
    rest = trailer f ++ crc8 (body f) ∷ []

    thirty_six : 36 ≡ length (beam_bytes f.beams)
    thirty_six = omega (arith, length-beam_bytes f.beams, h)

header_at : (f : Frame) → (u16_at (encode f) 2 ≡ f.speed) × (u16_at (encode f) 4 ≡ f.start_cdeg)
unfolding encode body u16_at
header_at f = (omega arith, omega arith)

pub decode_packet-encode : (f : Frame) → IsFrame f → decode_packet (encode f) ≡ packet_of f
unfolding decode_packet packet_of
decode_packet-encode f h =
    ap₂
      (λ (speed : ℕ) (p : ℕ × List Point). record {
        speed_dps = speed;
        start_cdeg = p.0;
        points = p.1;
      })
      (header_at f).0
      (ap₂
          (λ (start : ℕ) (end : ℕ).
            (start, decode_points (encode f) start (angle_span start end) 0 points_per_packet))
          (header_at f).1 (u16_at-drop 42 _ _ (encode f) _ (end_at f h) ∙ omega arith)
        ∙ ap (λ ps. (f.start_cdeg, ps))
            (ap (decode_points (encode f) f.start_cdeg span 0) (sym h)
              ∙ decode_points-beams f.beams (encode f) _ f.start_cdeg span 0 (beams_at f)))
  where
    span : ℕ
    span = angle_span f.start_cdeg f.end_cdeg
