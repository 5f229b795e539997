-- ===== src/Decoders/Words.antt =====
-- What robocam/lidar.py and robocam/imu.py use of `np.frombuffer` and `tobytes`: unsigned words.
use robo_cam_stream_processi.Prelude.{
  ℕ, List, [], ◌∷◌, ◌+◌, suc, ◌++◌, ◌<◌, length, ◌^◌, ◌*◌, ◌%◌, take, ◌≡◌, ◌/◌, drop, ap, arith,
  refl, length-append, append_assoc,
}
use Prim.Native.Nat.{zero}

-- The low byte first.
unfoldable pub word : List ℕ → ℕ
word [] = 0
word (b ∷ bs) = b + 256 * word bs

unfoldable pub bytes_of : ℕ → ℕ → List ℕ
bytes_of zero x = []
bytes_of (suc w) x = x % 256 ∷ bytes_of w (x / 256)

-- `np.frombuffer(payload, dtype, count)` for a type of `w` bytes.
unfoldable pub words : ℕ → ℕ → List ℕ → List ℕ
words w zero payload = []
words w (suc n) payload = word (take w payload) ∷ words w n (drop w payload)

-- `tobytes()`
unfoldable pub packed : ℕ → List ℕ → List ℕ
packed w [] = []
packed w (x ∷ xs) = bytes_of w x ++ packed w xs

abbrev pub AllBelow : ℕ → List ℕ → Type 0
AllBelow n [] = Unit
AllBelow n (x ∷ xs) = (x < n) × AllBelow n xs

pub length-bytes_of : (w x : ℕ) → length (bytes_of w x) ≡ w
unfolding bytes_of
length-bytes_of zero x = refl
length-bytes_of (suc w) x = ap suc (length-bytes_of w (x / 256))

pub length-packed : (w : ℕ) (xs : List ℕ) → length (packed w xs) ≡ length xs * w
unfolding packed
length-packed w [] = omega arith
length-packed w (x ∷ xs) =
    ground
      (arith, length-append (bytes_of w x) (packed w xs), length-bytes_of w x, length-packed w xs)

pub length-words : (w n : ℕ) (payload : List ℕ) → length (words w n payload) ≡ n
unfolding words
length-words w zero payload = refl
length-words w (suc n) payload = ap suc (length-words w n (drop w payload))

word-bytes_of : (w x : ℕ) → x < 256 ^ w → word (bytes_of w x) ≡ x
unfolding word bytes_of
word-bytes_of zero x h = omega arith
word-bytes_of (suc w) x h =
    let power : 256 ^ suc w ≡ 256 ^ w * 256 = omega arith in
    let small : x / 256 < 256 ^ w = grind (arith, power) in
    omega (arith, word-bytes_of w (x / 256) small)

pub take-append_self :
    {A : Type 0} (xs ys : List A) (n : ℕ) → length xs ≡ n → take n (xs ++ ys) ≡ xs
take-append_self [] ys zero e = refl
take-append_self [] ys (suc n) e = absurd (omega (arith, e))
take-append_self (x ∷ xs) ys zero e = absurd (omega (arith, e))
take-append_self (x ∷ xs) ys (suc n) e = ap (◌∷◌ x) (take-append_self xs ys n (omega (arith, e)))

pub drop-append_self :
    {A : Type 0} (xs ys : List A) (n : ℕ) → length xs ≡ n → drop n (xs ++ ys) ≡ ys
drop-append_self [] ys zero e = refl
drop-append_self [] ys (suc n) e = absurd (omega (arith, e))
drop-append_self (x ∷ xs) ys zero e = absurd (omega (arith, e))
drop-append_self (x ∷ xs) ys (suc n) e = drop-append_self xs ys n (omega (arith, e))

-- What was packed is read back, whatever stands behind it.
pub words-packed :
    (w : ℕ) (xs more : List ℕ)
    → AllBelow (256 ^ w) xs
    → words w (length xs) (packed w xs ++ more) ≡ xs
unfolding words packed
words-packed w [] more all = refl
words-packed w (x ∷ xs) more (small, all) =
    let size = length-bytes_of w x in
    let whole = append_assoc (bytes_of w x) (packed w xs) more in
    rw
      (
        whole,
        take-append_self (bytes_of w x) (packed w xs ++ more) w size,
        drop-append_self (bytes_of w x) (packed w xs ++ more) w size,
        word-bytes_of w x small,
        words-packed w xs more all,
      )
      refl
