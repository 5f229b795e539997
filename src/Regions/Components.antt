-- ===== src/Regions/Components.antt =====
-- `_components` of robocam/regions.py: the flood fill over the blocks. A place is a (row, column),
-- and outside the array there is no block, which is what the test of its bounds says.
pub mod Counting
pub mod Growth
pub mod Loop
pub mod Partition
use robo_cam_stream_processi.Prelude.{
  ℕ, List, Bool, ◌||◌, get_or, ◌∷◌, ◌==◌, ◌+◌, if◌then◌else◌, suc, length, [], ◌++◌, ◌&&◌, false,
  ◌-◌, not,
}
use mathlib.Core.List.{[]}
use Prim.Native.Nat.{zero}

abbrev pub Pos : Type 0
Pos = ℕ × ℕ

-- `blocks[r, c]`, and False outside.
unfoldable pub block_at : List (List Bool) → Pos → Bool
block_at blocks (r, c) = get_or (get_or blocks r []) c false

-- `zip(*np.nonzero(blocks))`: row by row.
unfoldable pub nonzero_row : ℕ → ℕ → List Bool → List Pos
nonzero_row r c [] = []
nonzero_row r c (b ∷ row) =
    if b then (r, c) ∷ nonzero_row r (c + 1) row else nonzero_row r (c + 1) row

unfoldable pub nonzero_rows : ℕ → List (List Bool) → List Pos
nonzero_rows r [] = []
nonzero_rows r (row ∷ rows) = nonzero_row r 0 row ++ nonzero_rows (r + 1) rows

unfoldable pub same_place : Pos → Pos → Bool
same_place (r, c) (r', c') = (r == r') && (c == c')

abbrev pub Seen : Type 0
Seen = Pos → Bool

-- `seen[r, c] = True`
unfoldable pub mark : Pos → Seen → Seen
mark p seen q = same_place p q || seen q

-- Down, up, right and left, as far as they have an index.
unfoldable pub neighbours : Pos → List Pos
neighbours (r, c) =
    (r + 1, c)
    ∷ ((if r == 0 then [] else (r - 1, c) ∷ [])
        ++ ((r, c + 1) ∷ (if c == 0 then [] else (r, c - 1) ∷ [])))

module _ (block : Pos → Bool) where
  unfoldable pub push : Pos → List Pos × Seen → List Pos × Seen
  push q (queue, seen) =
      if block q && not (seen q) then (queue ++ q ∷ [], mark q seen) else (queue, seen)

  unfoldable pub push_all : List Pos → List Pos × Seen → List Pos × Seen
  push_all [] s = s
  push_all (q ∷ qs) s = push_all qs (push q s)

  -- `while queue`: the component and what is seen then.
  unfoldable pub grow : ℕ → List Pos → Seen → List Pos → List Pos × Seen
  grow zero queue seen comp = (comp, seen)
  grow (suc fuel) [] seen comp = (comp, seen)
  grow (suc fuel) (p ∷ queue) seen comp =
      let (queue', seen') = push_all (neighbours p) (queue, seen) in
      grow fuel queue' seen' (comp ++ p ∷ [])

  -- The outer loop; a round of `grow` takes one block off the queue.
  unfoldable pub components_from : ℕ → List Pos → Seen → List (List Pos)
  components_from fuel [] seen = []
  components_from fuel (p ∷ starts) seen =
      let (comp, seen') = grow fuel (p ∷ []) (mark p seen) [] in
      let skipped = components_from fuel starts seen in
      let grown = components_from fuel starts seen' in if seen p then skipped else comp ∷ grown

unfoldable pub components : List (List Bool) → List (List Pos)
components blocks =
    let starts = nonzero_rows 0 blocks in
    components_from (block_at blocks) (length starts) starts (λ p. false)
