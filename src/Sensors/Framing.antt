-- ===== src/Sensors/Framing.antt =====
-- The loop that `SerialLdsSource._packets` and `SerialOpenCRSource._frames` of
-- link/robocam_client.py share: packets of a fixed size behind a header of two bytes.
pub mod Fuel
pub mod Append
use mathlib.Core.Bool.{true, false}
use robo_cam_stream_processi.Prelude.{
  List, ◌∷◌, ℕ, Bool, Option, false, none, suc, ◌==◌, if◌then◌else◌, some, length, ◌&&◌, ltb, take,
  drop,
}
use mathlib.Core.List.{[]}
use Prim.Native.Nat.{zero}

-- What a call yields, and the buffer and the source's own fields when it returns.
pub record Reading (S : Type 0) (Y : Type 0) : Type 0 where
  pub found : List Y
  pub left : List ℕ
  pub state : S

abbrev pub more_found : {S : Type 0} {Y : Type 0} → Y → Reading S Y → Reading S Y
more_found y r = record { found = y ∷ r.found; left = r.left; state = r.state }

-- Is the header at the buffer's first two bytes?
unfoldable pub starts : ℕ → ℕ → List ℕ → Bool
starts first second [] = false
starts first second (a ∷ []) = false
starts first second (a ∷ b ∷ rest) = a == first && b == second

-- `start = buf.find(header)` and `del buf[:start]`; `none` is a start below 0.
unfoldable pub seek : ℕ → ℕ → List ℕ → Option (List ℕ)
seek first second [] = none
seek first second (a ∷ rest) =
    if starts first second (a ∷ rest) then some (a ∷ rest) else seek first second rest

-- `del buf[:max(0, len(buf) - 1)]`
unfoldable pub last_byte : List ℕ → List ℕ
last_byte [] = []
last_byte (a ∷ []) = a ∷ []
last_byte (a ∷ b ∷ rest) = last_byte (b ∷ rest)

-- `check` is what a source does with the bytes of one packet: yield, and drop the packet, or drop
-- one byte and look again.
module _ {S : Type 0} {Y : Type 0} (first second size : ℕ) (check : List ℕ → S → Option Y × S) where
  -- `while True`, the rounds bounded by the fuel.
  unfoldable pub resync : ℕ → List ℕ → S → Reading S Y
  resync zero buf s = record { found = []; left = buf; state = s }
  resync (suc fuel) buf s = elim (seek first second buf) [
    | none ↦ record { found = []; left = last_byte buf; state = s }
    | some at ↦ elim (ltb (length at) size) [
      | true ↦ record { found = []; left = at; state = s }
      | false ↦
          let (outcome, s') = check (take size at) s in
          elim outcome [
            | none ↦ resync fuel (drop 1 at) s'
            | some y ↦ more_found y (resync fuel (drop size at) s')
          ]
    ]
  ]

  -- Each round but the last drops a byte at least, so one more than the bytes there are is enough.
  unfoldable pub read : List ℕ → S → Reading S Y
  read buf s = resync (suc (length buf)) buf s
