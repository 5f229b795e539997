-- ===== src/Decoders/Bursts.antt =====
-- `decode_imu`, `_to_si` and `encode_imu_payload` of robocam/imu.py. A value is a float of a 4-byte
-- word, a parameter with its two changes of unit. The declared rate and the name of the source are
-- left out, and a burst is encoded from rows and with its offsets.
pub mod RoundTrip
use robo_cam_stream_processi.Decoders.Words.{words, packed}
use robo_cam_stream_processi.Prelude.{
  ℕ, List, String, ◌⊎◌, Bool, Option, ◌∷◌, inr, false, if◌then◌else◌, [], inl, map, str_eq, ◌||◌,
  ltb, ◌%◌, suc, ◌++◌, ◌&&◌, not, length, some, take, ◌*◌, ◌-◌, drop, ◌==◌, ◌+◌,
}
use robo_cam_stream_processi.Prelude.Int.{ℤ, pos, ◌-ℤ◌, negsuc, pos_part}
use robo_cam_stream_processi.Decoders.Scans.{seq_or}
use Prim.Native.Nat.{zero}
use mathlib.Core.Option.{none}

pub record Floats : Type 1 where
  pub F : Type 0
  pub of_f32 : ℕ → F
  pub to_f32 : F → ℕ
  -- `*= math.pi / 180` and `*= G_MS2`
  pub radians : F → F
  pub gravities : F → F

pub data ImuError : Type 0 where
  unsupported no_count no_samples too_many bad_fields duplicate_fields short_payload bad_units :
      ImuError

-- `header.get("fields")`: missing or empty, a list, or something else.
pub data Fields : Type 0 where
  default_fields not_a_list : Fields
  listed : List String → Fields

pub record ImuHeader : Type 0 where
  pub encoding : String
  pub count : Option ℤ
  pub fields : Fields
  pub gyro_units : String
  pub accel_units : String
  pub seq : Option ℤ
  pub dropped : ℤ

pub record ImuBatch (F : Type 0) : Type 0 where
  pub values : List (List F)
  pub fields : List String
  pub offsets_us : List ℤ
  pub seq : ℤ
  pub dropped : ℕ

abbrev pub max_samples : ℕ
max_samples = 4096

-- wire.IMU_FIELDS
abbrev pub imu_fields : List String
imu_fields =
    "wx" ∷ "wy" ∷ "wz" ∷ "ax" ∷ "ay" ∷ "az" ∷ "mx" ∷ "my" ∷ "mz" ∷ "qw" ∷ "qx" ∷ "qy" ∷ "qz" ∷ []

unfoldable pub names_of : Fields → ImuError ⊎ List String
names_of default_fields = inr imu_fields
names_of not_a_list = inl bad_fields
names_of (listed []) = inr imu_fields
names_of (listed (name ∷ names)) = inr (name ∷ names)

unfoldable pub among : String → List String → Bool
among name [] = false
among name (n ∷ names) = str_eq n name || among name names

-- `len(set(fields)) != len(fields)`
unfoldable pub has_duplicates : List String → Bool
has_duplicates [] = false
has_duplicates (n ∷ names) = among n names || has_duplicates names

-- A 4-byte word as a signed number, and back.
unfoldable pub to_i4 : ℕ → ℤ
to_i4 x = if ltb x 2_147_483_648 then pos x else pos x -ℤ pos 4_294_967_296

unfoldable pub of_i4 : ℤ → ℕ
of_i4 (pos x) = x % 4_294_967_296
of_i4 (negsuc x) = 4_294_967_295 - x % 4_294_967_296

-- `reshape(count, width)`
unfoldable pub rows_of {ℓ} : {A : Type ℓ} → ℕ → ℕ → List A → List (List A)
rows_of width zero xs = []
rows_of width (suc n) xs = take width xs ∷ rows_of width n (drop width xs)

unfoldable pub flat {ℓ} : {A : Type ℓ} → List (List A) → List A
flat [] = []
flat (row ∷ rows) = row ++ flat rows

module _ (f : Floats) where
  open f use {F}

  -- One value of a channel.
  unfoldable pub scaled : Bool → Bool → String → F → F
  scaled degrees gs name v =
      if degrees && among name ("wx" ∷ "wy" ∷ "wz" ∷ [])
      then f.radians v
      else if gs && among name ("ax" ∷ "ay" ∷ "az" ∷ [])
      then f.gravities v
      else v

  unfoldable pub scaled_row : Bool → Bool → List String → List F → List F
  scaled_row degrees gs [] row = row
  scaled_row degrees gs (name ∷ names) [] = []
  scaled_row degrees gs (name ∷ names) (v ∷ row) =
      scaled degrees gs name v ∷ scaled_row degrees gs names row

  unfoldable pub to_si : String → String → List String → List (List F) → ImuError ⊎ List (List F)
  to_si gyro accel names values =
      if not (str_eq gyro "rad/s" || str_eq gyro "deg/s")
      then inl bad_units
      else if not (str_eq accel "m/s2" || str_eq accel "g")
      then inl bad_units
      else inr (map (scaled_row (str_eq gyro "deg/s") (str_eq accel "g") names) values)

  unfoldable pub batch :
      ImuHeader → List String → List ℤ → ImuError ⊎ List (List F) → ImuError ⊎ ImuBatch F
  batch h names offsets (inl e) = inl e
  batch h names offsets (inr values) = inr (record {
    values = values;
    fields = names;
    offsets_us = offsets;
    seq = seq_or h.seq;
    dropped = pos_part h.dropped;
  })

  unfoldable pub read_batch :
      ImuHeader → ℕ → List ℕ → ImuError ⊎ List String → ImuError ⊎ ImuBatch F
  read_batch h n payload (inl e) = inl e
  read_batch h n payload (inr names) =
      let width = length names in
      let values = rows_of width n (map f.of_f32 (words 4 (n * width) (drop (n * 4) payload))) in
      if has_duplicates names
      then inl duplicate_fields
      else if ltb (length payload) (n * 4 + n * width * 4)
      then inl short_payload
      else batch h names (map to_i4 (words 4 n payload))
          (to_si h.gyro_units h.accel_units names values)

  unfoldable pub decode_burst : ImuHeader → List ℕ → Option ℤ → ImuError ⊎ ImuBatch F
  decode_burst h payload none = inl no_count
  decode_burst h payload (some (negsuc n)) = inl no_samples
  decode_burst h payload (some (pos n)) =
      if n == 0
      then inl no_samples
      else if ltb max_samples n
      then inl too_many
      else read_batch h n payload (names_of h.fields)

  unfoldable pub decode_imu : ImuHeader → List ℕ → ImuError ⊎ ImuBatch F
  decode_imu h payload =
      if not (str_eq h.encoding "f32") then inl unsupported else decode_burst h payload h.count

  unfoldable pub encode_imu_payload : List (List F) → List ℤ → List ℕ
  encode_imu_payload values offsets =
      packed 4 (map of_i4 offsets) ++ packed 4 (map f.to_f32 (flat values))
