-- ===== src/Regions/Components/Counting.antt =====
-- How often a place stands in a list, for the flood fill of robocam/regions.py.
use Prim.Native.Nat.{zero, suc}
use robo_cam_stream_processi.Regions.Components.{
  Pos, same_place, neighbours, nonzero_row, nonzero_rows, block_at,
}
use robo_cam_stream_processi.Prelude.{
  Bool, List, ◌≡◌, ℕ, ◌∷◌, ◌==◌, true, ◌++◌, if◌then◌else◌, ◌+◌, ◌&&◌, arith, ◌||◌, get_or, ◌<◌,
  refl, ◌⊎◌, Bool-cases, inl, inr, ap,
}
use mathlib.Core.Bool.{true, false}
use mathlib.Core.List.{[]}

unfoldable pub bit : Bool → ℕ
bit true = 1
bit false = 0

unfoldable pub times : Pos → List Pos → ℕ
times q [] = 0
times q (p ∷ ps) = bit (same_place p q) + times q ps

-- One step down, up, right or left.
unfoldable pub adjacent : Pos → Pos → Bool
adjacent (r, c) (r', c') =
    ((c == c') && ((r + 1 == r') || (r' + 1 == r)))
    || ((r == r') && ((c + 1 == c') || (c' + 1 == c)))

pub same_place-eq : (p q : Pos) → same_place p q ≡ true → p ≡ q
unfolding same_place
same_place-eq (r, c) (r', c') e = ground (arith, e)

-- One place has one value.
pub same_place-value : (f : Pos → Bool) (p q : Pos) → (same_place p q ≡ false) ⊎ (f p ≡ f q)
same_place-value f p q = elim (Bool-cases (same_place p q)) [
  | inl same ↦ inr (ap f (same_place-eq p q same))
  | inr other ↦ inl other
]

pub same_place_refl : (p : Pos) → same_place p p ≡ true
unfolding same_place
same_place_refl (r, c) = ground arith

pub same_place_sym : (p q : Pos) → same_place p q ≡ same_place q p
unfolding same_place
same_place_sym (r, c) (r', c') = ground arith

pub adjacent_sym : (p q : Pos) → adjacent p q ≡ true → adjacent q p ≡ true
unfolding adjacent
adjacent_sym (r, c) (r', c') e = ground (arith, e)

pub times-append : (q : Pos) (ps qs : List Pos) → times q (ps ++ qs) ≡ times q ps + times q qs
unfolding times
times-append q [] qs = omega arith
times-append q (p ∷ ps) qs = omega (arith, times-append q ps qs)

pub times-neighbours : (p q : Pos) → times q (neighbours p) ≡ bit (adjacent p q)
unfolding times neighbours adjacent bit same_place
times-neighbours (zero, zero) (r', c') = ground arith
times-neighbours (zero, suc c) (r', c') = ground arith
times-neighbours (suc r, zero) (r', c') = ground arith
times-neighbours (suc r, suc c) (r', c') = ground arith

row_before : (r' c' r c : ℕ) (row : List Bool) → c' < c → times (r', c') (nonzero_row r c row) ≡ 0
unfolding times nonzero_row bit same_place
row_before r' c' r c [] h = refl
row_before r' c' r c (true ∷ row) h = ground (arith, row_before r' c' r (c + 1) row)
row_before r' c' r c (false ∷ row) h = row_before r' c' r (c + 1) row (omega arith)

row_at :
    (r' r k c c' : ℕ) (row : List Bool)
    → c + k ≡ c'
    → times (r', c') (nonzero_row r c row) ≡ (if r == r' then bit (get_or row k false) else 0)
unfolding times nonzero_row bit same_place
row_at r' r k c c' [] e = ground arith
row_at r' r zero c c' (true ∷ row) e = ground (arith, e, row_before r' c' r (c + 1) row)
row_at r' r zero c c' (false ∷ row) e = ground (arith, e, row_before r' c' r (c + 1) row)
row_at r' r (suc k) c c' (true ∷ row) e = ground (arith, e, row_at r' r k (c + 1) c' row)
row_at r' r (suc k) c c' (false ∷ row) e = ground (arith, e, row_at r' r k (c + 1) c' row)

rows_before :
    (r' c' r : ℕ) (rows : List (List Bool)) → r' < r → times (r', c') (nonzero_rows r rows) ≡ 0
unfolding nonzero_rows times
rows_before r' c' r [] h = refl
rows_before r' c' r (row ∷ rows) h = ground (
  arith,
  times-append (r', c') (nonzero_row r 0 row) (nonzero_rows (r + 1) rows),
  row_at r' r c' 0 c' row,
  rows_before r' c' (r + 1) rows,
)

rows_at :
    (c' k r r' : ℕ) (rows : List (List Bool))
    → r + k ≡ r'
    → times (r', c') (nonzero_rows r rows) ≡ bit (block_at rows (k, c'))
unfolding nonzero_rows times block_at bit
rows_at c' k r r' [] e = refl
rows_at c' zero r r' (row ∷ rows) e = ground (
  arith,
  e,
  times-append (r', c') (nonzero_row r 0 row) (nonzero_rows (r + 1) rows),
  row_at r' r c' 0 c' row,
  rows_before r' c' (r + 1) rows,
)
rows_at c' (suc k) r r' (row ∷ rows) e = ground (
  arith,
  e,
  times-append (r', c') (nonzero_row r 0 row) (nonzero_rows (r + 1) rows),
  row_at r' r c' 0 c' row,
  rows_at c' k (r + 1) r' rows,
)

-- `np.nonzero` lists each block once.
pub times-nonzero_rows :
    (blocks : List (List Bool)) (q : Pos)
    → times q (nonzero_rows 0 blocks) ≡ bit (block_at blocks q)
times-nonzero_rows blocks (r, c) = rows_at c r 0 r blocks (omega arith)
