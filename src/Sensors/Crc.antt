-- ===== src/Sensors/Crc.antt =====
-- `_crc8_table`, `_crc8` and `_crc8_ccitt` of link/robocam_client.py. A byte is a number below 256
-- and `bytes` is a list of them; `& 0xFF` is `% 256`.
pub mod Catches
use robo_cam_stream_processi.Prelude.{
  ℕ, List, if◌then◌else◌, suc, [], get_or, ◌∷◌, ◌+◌, ◌==◌, ◌%◌, ◌*◌,
}
use Prim.Native.Nat.{zero, bit_and, bit_xor}

-- `for _ in range(8)`: the register is shifted out at the top, and folded where a one leaves it.
unfoldable pub shift_out : ℕ → ℕ → ℕ
shift_out poly value =
    if bit_and value 0x80 == 0 then value * 2 % 256 else bit_xor (value * 2) poly % 256

unfoldable pub shift_times : ℕ → ℕ → ℕ → ℕ
shift_times poly zero value = value
shift_times poly (suc n) value = shift_times poly n (shift_out poly value)

-- `for i in range(256)`, from the index `i` on.
unfoldable pub table_from : ℕ → ℕ → ℕ → List ℕ
table_from poly i zero = []
table_from poly i (suc n) = shift_times poly 8 i ∷ table_from poly (i + 1) n

unfoldable pub crc8_table : ℕ → List ℕ
crc8_table poly = table_from poly 0 256

-- One round of `for byte in data`. A table has 256 entries, so the lookup finds one.
unfoldable pub crc_step : List ℕ → ℕ → ℕ → ℕ
crc_step table crc byte = get_or table (bit_xor crc byte % 256) 0

unfoldable pub crc_loop : List ℕ → ℕ → List ℕ → ℕ
crc_loop table crc [] = crc
crc_loop table crc (byte ∷ rest) = crc_loop table (crc_step table crc byte) rest

-- `_crc8(data)` with the scanner's polynomial and `_crc8_ccitt(data)` with the board's.
unfoldable pub crc8 : List ℕ → ℕ
crc8 = crc_loop (crc8_table 0x4D) 0

unfoldable pub crc8_ccitt : List ℕ → ℕ
crc8_ccitt = crc_loop (crc8_table 0x07) 0
