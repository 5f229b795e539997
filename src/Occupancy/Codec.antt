-- ===== src/Occupancy/Codec.antt =====
-- int8 cells as bytes: `encode_cells` of robocam/occupancy.py and `np.frombuffer(...).reshape(...)`.
-- zlib is a parameter: `compress`, and what undoes it.
use robo_cam_stream_processi.Prelude.Int.{ℤ, pos, negsuc}
use robo_cam_stream_processi.Prelude.{
  ℕ, ◌<◌, ◌≡◌, List, String, ◌%◌, if◌then◌else◌, ◌∷◌, map, [], length, Option, ◌-◌, ltb, arith, ap₂,
  ◌++◌, suc, take, drop, length-map, ◌*◌, str_eq, false, refl, ap, ◌∙◌, ◌+◌, some, length-append,
  none, length-take, length-drop,
}
use robo_cam_stream_processi.Occupancy.Array.{AllWide}
use Prim.Native.Nat.{zero}

-- `.astype(np.int8).tobytes()` of one cell, and back.
unfoldable pub to_byte : ℤ → ℕ
to_byte (pos n) = n % 256
to_byte (negsuc n) = 255 - n % 256

unfoldable pub of_byte : ℕ → ℤ
of_byte b = if ltb b 128 then pos b else negsuc (255 - b)

abbrev pub IsInt8 : ℤ → Type 0
IsInt8 (pos n) = n < 128
IsInt8 (negsuc n) = n < 128

of_byte-to_byte : (v : ℤ) → IsInt8 v → of_byte (to_byte v) ≡ v
unfolding of_byte to_byte
of_byte-to_byte (pos n) h = let e : n % 256 ≡ n = omega arith in rw e (ground arith)
of_byte-to_byte (negsuc n) h =
    let e : n % 256 ≡ n = omega arith in
    let f : 255 - (255 - n) ≡ n = omega arith in
    let g : ltb (255 - n) 128 ≡ false = ground arith in rw (e, g, f) refl

abbrev pub AllInt8 : List ℤ → Type 0
AllInt8 [] = Unit
AllInt8 (v ∷ row) = IsInt8 v × AllInt8 row

abbrev pub AllRowsInt8 : List (List ℤ) → Type 0
AllRowsInt8 [] = Unit
AllRowsInt8 (row ∷ rows) = AllInt8 row × AllRowsInt8 rows

map_bytes : (row : List ℤ) → AllInt8 row → map of_byte (map to_byte row) ≡ row
map_bytes [] h = refl
map_bytes (v ∷ row) (h, hs) = ap₂ ◌∷◌ (of_byte-to_byte v h) (map_bytes row hs)

-- `cells.tobytes()`, row after row.
unfoldable pub flatten : List (List ℤ) → List ℕ
flatten [] = []
flatten (row ∷ rows) = map to_byte row ++ flatten rows

-- `np.frombuffer(raw, dtype=np.int8).reshape(height, width)`, on as many bytes as it takes.
unfoldable pub reshape : ℕ → ℕ → List ℕ → List (List ℤ)
reshape zero width raw = []
reshape (suc height) width raw =
    map of_byte (take width raw) ∷ reshape height width (drop width raw)

take_exact {ℓ} : {A : Type ℓ} (xs ys : List A) (n : ℕ) → length xs ≡ n → take n (xs ++ ys) ≡ xs
take_exact [] ys zero e = refl
take_exact [] ys (suc n) e = absurd (omega arith)
take_exact (x ∷ xs) ys zero e = absurd (omega arith)
take_exact (x ∷ xs) ys (suc n) e = ap (◌∷◌ x) (take_exact xs ys n (omega arith))

drop_exact {ℓ} : {A : Type ℓ} (xs ys : List A) (n : ℕ) → length xs ≡ n → drop n (xs ++ ys) ≡ ys
drop_exact [] ys zero e = refl
drop_exact [] ys (suc n) e = absurd (omega arith)
drop_exact (x ∷ xs) ys zero e = absurd (omega arith)
drop_exact (x ∷ xs) ys (suc n) e = drop_exact xs ys n (omega arith)

pub reshape-flatten :
    (rows : List (List ℤ)) (width : ℕ)
    → AllWide width rows
    → AllRowsInt8 rows
    → reshape (length rows) width (flatten rows) ≡ rows
unfolding reshape flatten
reshape-flatten [] width w h = refl
reshape-flatten (row ∷ rows) width (l, w) (h, hs) =
    let e = length-map row to_byte ∙ l in
    ap₂ ◌∷◌
      (ap (map of_byte) (take_exact (map to_byte row) (flatten rows) width e) ∙ map_bytes row h)
      (ap (reshape (length rows) width) (drop_exact (map to_byte row) (flatten rows) width e)
        ∙ reshape-flatten rows width w hs)

pub length-flatten :
    (rows : List (List ℤ)) (width : ℕ)
    → AllWide width rows
    → length (flatten rows) ≡ width * length rows
unfolding flatten
length-flatten [] width w = omega arith
length-flatten (row ∷ rows) width (l, w) =
    let area : width * suc (length rows) ≡ width + width * length rows = omega arith in
    omega (
      arith,
      length-append (map to_byte row) (flatten rows),
      length-map row to_byte,
      l,
      length-flatten rows width w,
      area,
    )

-- The wire's words for an encoding.
abbrev pub map_enc_i8 : String
map_enc_i8 = "i8"

abbrev pub map_enc_i8_zlib : String
map_enc_i8_zlib = "i8z"

-- `none` is the MapError.
unfoldable pub encode_cells : (List ℕ → List ℕ) → List (List ℤ) → String → Option (List ℕ)
encode_cells compress rows encoding =
    if str_eq encoding map_enc_i8_zlib
    then some (compress (flatten rows))
    else if str_eq encoding map_enc_i8
    then some (flatten rows)
    else none

pub reshape-AllWide :
    (height width : ℕ) (raw : List ℕ)
    → length raw ≡ width * height
    → AllWide width (reshape height width raw)
unfolding reshape
reshape-AllWide zero width raw e = tt
reshape-AllWide (suc height) width raw e =
    let area : width * suc height ≡ width + width * height = omega arith in
    (
      length-map (take width raw) of_byte ∙ length-take width raw ∙ omega (arith, e, area),
      reshape-AllWide height width (drop width raw)
          (length-drop width raw ∙ omega (arith, e, area)),
    )

pub length-reshape : (height width : ℕ) (raw : List ℕ) → length (reshape height width raw) ≡ height
unfolding reshape
length-reshape zero width raw = refl
length-reshape (suc height) width raw = ap suc (length-reshape height width (drop width raw))
