-- ===== src/Sensors/Crc/Catches.antt =====
-- What the checksum of link/robocam_client.py catches, and that its table stands for the register.
use robo_cam_stream_processi.Sensors.Crc.{
  crc_loop, crc_step, crc8, crc8_ccitt, crc8_table, shift_out, shift_times, table_from, bit_xor,
  bit_and,
}
use robo_cam_stream_processi.Prelude.{
  ℕ, List, ◌<◌, ◌∷◌, if_both, suc, ◌≡◌, if◌then◌else◌, Bool, ◌==◌, ◌++◌, get_or, ◌%◌, true, ==_iff,
  sym, ◌⊎◌, ◌+◌, ◌∙◌, arith, refl, ◌/◌, ◌&&◌, ap, inl, inr,
}
use mathlib.Core.List.{[]}
use Prim.Native.Nat.{zero}
use robo_cam_stream_processi.Prelude.Bits.{bit_xor_below, bit_xor_inj, bit_xor_comm}

abbrev pub IsByte : ℕ → Type 0
IsByte b = b < 256

abbrev pub AllBytes : List ℕ → Type 0
AllBytes [] = Unit
AllBytes (b ∷ bs) = IsByte b × AllBytes bs

-- The register with no table: the byte is folded in, then eight bits are shifted out.
unfoldable pub crc_register : ℕ → ℕ → List ℕ → ℕ
crc_register poly crc [] = crc
crc_register poly crc (byte ∷ rest) = crc_register poly (shift_times poly 8 (bit_xor crc byte)) rest

table_from-entry :
    (poly i n k : ℕ) → k < n → get_or (table_from poly i n) k 0 ≡ shift_times poly 8 (i + k)
unfolding table_from
table_from-entry poly i zero k h = absurd (omega arith)
table_from-entry poly i (suc n) zero h = ap (shift_times poly 8) (omega arith)
table_from-entry poly i (suc n) (suc k) h =
    table_from-entry poly (i + 1) n k (omega arith) ∙ ap (shift_times poly 8) (omega arith)

crc8_table-entry : (poly k : ℕ) → k < 256 → get_or (crc8_table poly) k 0 ≡ shift_times poly 8 k
unfolding crc8_table
crc8_table-entry poly k h = table_from-entry poly 0 256 k h ∙ ap (shift_times poly 8) (omega arith)

shift_out-IsByte : (poly v : ℕ) → IsByte (shift_out poly v)
unfolding shift_out
shift_out-IsByte poly v = if_both IsByte (bit_and v 0x80 == 0) (omega arith) (omega arith)

shift_times-IsByte : (poly n v : ℕ) → IsByte v → IsByte (shift_times poly n v)
unfolding shift_times
shift_times-IsByte poly zero v h = h
shift_times-IsByte poly (suc n) v h =
    shift_times-IsByte poly n (shift_out poly v) (shift_out-IsByte poly v)

crc_step-register :
    (poly crc byte : ℕ)
    → IsByte crc
    → IsByte byte
    → crc_step (crc8_table poly) crc byte ≡ shift_times poly 8 (bit_xor crc byte)
unfolding crc_step
crc_step-register poly crc byte hc hb =
    crc8_table-entry poly (bit_xor crc byte % 256) (omega arith)
    ∙ ap (shift_times poly 8) (omega (arith, bit_xor_below 8 crc byte hc hb))

step-IsByte :
    (poly crc byte : ℕ) → IsByte crc → IsByte byte → IsByte (shift_times poly 8 (bit_xor crc byte))
step-IsByte poly crc byte hc hb = shift_times-IsByte poly 8 _ (bit_xor_below 8 crc byte hc hb)

-- Over bytes, the loop over the table of 256 entries computes what the shift register computes,
-- for every polynomial and every value to start from; and the result is a byte.
pub crc_loop-register :
    (poly : ℕ) (bytes : List ℕ) (crc : ℕ)
    → IsByte crc
    → AllBytes bytes
    → (crc_loop (crc8_table poly) crc bytes ≡ crc_register poly crc bytes)
      × IsByte (crc_loop (crc8_table poly) crc bytes)
unfolding crc_loop crc_register
crc_loop-register poly [] crc hc _ = (refl, hc)
crc_loop-register poly (byte ∷ rest) crc hc (hb, hs) = rw (crc_step-register poly crc byte hc hb) (
    crc_loop-register poly rest (shift_times poly 8 (bit_xor crc byte))
      (step-IsByte poly crc byte hc hb) hs)

-- `shift_out` undone, for a polynomial whose lowest bit is set.
abbrev shift_in : ℕ → ℕ → ℕ
shift_in poly v = if v % 2 == 0 then v / 2 else bit_xor v poly / 2 + 128

abbrev everywhere : ℕ → (ℕ → Bool) → Bool
everywhere zero holds = true
everywhere (suc top) holds = holds top && everywhere top holds

at_each :
    (top : ℕ) (holds : ℕ → Bool) (v : ℕ) → v < top → everywhere top holds ≡ true → holds v ≡ true
at_each zero holds v below _ = absurd (omega arith)
at_each (suc top) holds v below all = ground (arith, at_each top holds v)

-- The polynomials for which no value is lost when a bit is shifted out: an evaluation decides it.
abbrev pub Reversible : ℕ → Type 0
Reversible poly = everywhere 256 (λ v. shift_in poly (shift_out poly v) == v) ≡ true

pub ld08-Reversible : Reversible 0x4D
unfolding shift_out
ld08-Reversible = refl

pub ccitt-Reversible : Reversible 0x07
unfolding shift_out
ccitt-Reversible = refl

module _ (poly : ℕ) (reversible : Reversible poly) where
  shift_out_undone : (v : ℕ) → IsByte v → shift_in poly (shift_out poly v) ≡ v
  shift_out_undone v h =
      (==_iff _ v).0 (at_each 256 (λ x. shift_in poly (shift_out poly x) == x) v h reversible)

  shift_times_inj :
      (n v w : ℕ) → IsByte v → IsByte w → shift_times poly n v ≡ shift_times poly n w → v ≡ w
  unfolding shift_times
  shift_times_inj zero v w hv hw e = e
  shift_times_inj (suc n) v w hv hw e =
      sym (shift_out_undone v hv)
      ∙ ap (shift_in poly)
          (shift_times_inj n _ _ (shift_out-IsByte poly v) (shift_out-IsByte poly w) e)
      ∙ shift_out_undone w hw

  register_inj :
      (bytes : List ℕ) (v w : ℕ)
      → AllBytes bytes
      → IsByte v
      → IsByte w
      → crc_register poly v bytes ≡ crc_register poly w bytes
      → v ≡ w
  unfolding crc_register
  register_inj [] v w _ hv hw e = e
  register_inj (b ∷ bs) v w (hb, hs) hv hw e = bit_xor_inj b v w (
      bit_xor_comm b v
      ∙ shift_times_inj 8 _ _ (bit_xor_below 8 v b hv hb) (bit_xor_below 8 w b hw hb)
          (register_inj bs _ _ hs (step-IsByte poly v b hv hb) (step-IsByte poly w b hw hb) e)
      ∙ bit_xor_comm w b)

  register_catches :
      (before after : List ℕ) (crc a b : ℕ)
      → IsByte crc
      → AllBytes before
      → AllBytes after
      → IsByte a
      → IsByte b
      → crc_register poly crc (before ++ a ∷ after) ≡ crc_register poly crc (before ++ b ∷ after)
      → a ≡ b
  unfolding crc_register
  register_catches [] after crc a b hc _ hs ha hb e = bit_xor_inj crc a b (
      shift_times_inj 8 _ _ (bit_xor_below 8 crc a hc ha) (bit_xor_below 8 crc b hc hb)
        (register_inj after _ _ hs (step-IsByte poly crc a hc ha) (step-IsByte poly crc b hc hb) e))
  register_catches (x ∷ before) after crc a b hc (hx, hbs) hs ha hb e =
      register_catches before after _ a b (step-IsByte poly crc x hc hx) hbs hs ha hb e

AllBytes-append : (xs ys : List ℕ) → AllBytes xs → AllBytes ys → AllBytes (xs ++ ys)
AllBytes-append [] ys h k = k
AllBytes-append (x ∷ xs) ys (hx, hs) k = (hx, AllBytes-append xs ys hs k)

-- Among lists of bytes, a packet with one byte changed never has the checksum of the packet that was sent: where the
-- checksums agree, for the scanner's polynomial or the board's, the two bytes are the same.
pub crc8_catches :
    (before after : List ℕ) (a b : ℕ)
    → AllBytes before
    → AllBytes after
    → IsByte a
    → IsByte b
    → (crc8 (before ++ a ∷ after) ≡ crc8 (before ++ b ∷ after))
      ⊎ (crc8_ccitt (before ++ a ∷ after) ≡ crc8_ccitt (before ++ b ∷ after))
    → a ≡ b
unfolding crc8 crc8_ccitt
crc8_catches before after a b hbs hs ha hb e = elim e [
  | inl e ↦
      register_catches 0x4D ld08-Reversible before after 0 a b (omega arith) hbs hs ha hb
        (sym (table a 0x4D ha) ∙ e ∙ table b 0x4D hb)
  | inr e ↦
      register_catches 0x07 ccitt-Reversible before after 0 a b (omega arith) hbs hs ha hb
        (sym (table a 0x07 ha) ∙ e ∙ table b 0x07 hb)
]
  where
    table :
        (x poly : ℕ)
        → IsByte x
        → crc_loop (crc8_table poly) 0 (before ++ x ∷ after)
          ≡ crc_register poly 0 (before ++ x ∷ after)
    table x poly hx =
        (crc_loop-register poly _ 0 (omega arith) (AllBytes-append before _ hbs (hx, hs))).0
