-- ===== src/Occupancy/Array.antt =====
-- What robocam/occupancy.py uses of numpy's two-dimensional arrays: slices, and assignment to a
-- slice. An array of `height` rows of `width` cells is the list of its rows, `cells[row][col]`.
pub mod Paste
use robo_cam_stream_processi.Prelude.{
  List, ℕ, length, Option, ◌∷◌, take, ◌≡◌, drop, ◌++◌, some, get_elem?, if◌then◌else◌, ◌+◌,
}
use robo_cam_stream_processi.Prelude.Int.{ℤ, eqb_ℤ}
use mathlib.Core.List.{[]}
use mathlib.Core.Option.{none}

module _ {ℓ κ} {A : Type ℓ} {B : Type κ} where
  abbrev pub zip_with : (A → B → A) → List A → List B → List A
  zip_with f [] ys = []
  zip_with f (x ∷ xs) [] = []
  zip_with f (x ∷ xs) (y ∷ ys) = f x y ∷ zip_with f xs ys

-- `xs[i:i + n]`
abbrev pub slice {ℓ} : {A : Type ℓ} → ℕ → ℕ → List A → List A
slice i n xs = take n (drop i xs)

-- `xs[i:i + n] = f(xs[i:i + n], ys[j:j + n])`, entry by entry.
unfoldable pub paste {ℓ κ} :
    {A : Type ℓ} {B : Type κ} → (A → B → A) → ℕ → ℕ → ℕ → List A → List B → List A
paste f i n j xs ys = take i xs ++ (zip_with f (slice i n xs) (slice j n ys) ++ drop n (drop i xs))

pub record Array : Type 0 where
  pub height : ℕ
  pub width : ℕ
  pub rows : List (List ℤ)

abbrev pub AllWide : ℕ → List (List ℤ) → Type 0
AllWide w [] = Unit
AllWide w (row ∷ rows) = (length row ≡ w) × AllWide w rows

-- The rows are as many and as long as the shape says.
pub record IsRect (a : Array) : Type 0 where
  pub tall : length a.rows ≡ a.height
  pub wide : AllWide a.width a.rows

-- The cell at a row and a column, `none` outside.
abbrev pub cell_of : Option (List ℤ) → ℕ → Option ℤ
cell_of none col = none
cell_of (some row) col = get_elem? row col

unfoldable pub cell : Array → ℕ → ℕ → Option ℤ
cell a row col = cell_of (get_elem? a.rows row) col

-- `np.count_nonzero(xs != ys)` on arrays of one shape.
unfoldable pub count_ne : List ℤ → List ℤ → ℕ
count_ne [] ys = 0
count_ne (x ∷ xs) [] = 0
count_ne (x ∷ xs) (y ∷ ys) = (if eqb_ℤ x y then 0 else 1) + count_ne xs ys

unfoldable pub count_ne_rows : List (List ℤ) → List (List ℤ) → ℕ
count_ne_rows [] rows = 0
count_ne_rows (row ∷ rows) [] = 0
count_ne_rows (row ∷ rows) (row' ∷ rows') = count_ne row row' + count_ne_rows rows rows'
