-- ===== src/Prelude/Bits.antt =====
-- `bit_xor` of the native numbers, digit by digit: an exclusive or is undone by a second one.
use Prim.Native.Nat.{
  ℕ, zero, suc, ◌+◌, ◌*◌, ◌/◌, ◌%◌, ◌≤◌, bit_xor, digits, differ, bit_xor-bitwise, ◌<◌, ◌^◌,
}
use mathlib.Core.Path.{◌≡◌, refl, ◌∙◌, sym, ap}
use native.Mathlib.Omega.{arith}

-- `bit_xor` with a count of digits of its own: any count that is enough gives the same.
abbrev counted_xor : ℕ → ℕ → ℕ → ℕ
counted_xor = digits (λ rest. rest) differ

none_left : (count rest : ℕ) → counted_xor count zero rest ≡ rest
none_left zero rest = refl
none_left (suc count) rest = refl

any_count :
    (count other x y : ℕ) → x ≤ count → x ≤ other → counted_xor count x y ≡ counted_xor other x y
any_count count other zero y _ _ = none_left count y ∙ sym (none_left other y)
any_count zero other (suc x) y below _ = absurd (omega arith)
any_count (suc count) zero (suc x) y _ below = absurd (omega arith)
any_count (suc count) (suc other) (suc x) y below below' =
    ap (λ high. high * 2 + differ (suc x % 2) (y % 2))
      (any_count count other (suc x / 2) (y / 2) (omega arith) (omega arith))

bit_xor-zero : (y : ℕ) → bit_xor 0 y ≡ y
bit_xor-zero y = bit_xor-bitwise 0 y

bit_xor-suc :
    (x y : ℕ) → bit_xor (suc x) y ≡ bit_xor (suc x / 2) (y / 2) * 2 + differ (suc x % 2) (y % 2)
bit_xor-suc x y =
    bit_xor-bitwise (suc x) y
    ∙ ap (λ high. high * 2 + differ (suc x % 2) (y % 2))
        (any_count x (suc x / 2) (suc x / 2) (y / 2) (omega arith) (omega arith)
          ∙ sym (bit_xor-bitwise (suc x / 2) (y / 2)))

bit_xor_step : (a b : ℕ) → bit_xor a b ≡ bit_xor (a / 2) (b / 2) * 2 + differ (a % 2) (b % 2)
bit_xor_step zero b = omega (arith, bit_xor-zero b, bit_xor-zero (b / 2))
bit_xor_step (suc a) b = bit_xor-suc a b

differ_cases : (x y : ℕ) → x < 2 → y < 2 → differ x y ≡ (x + y) % 2
differ_cases zero y p q = omega arith
differ_cases (suc zero) zero p q = refl
differ_cases (suc zero) (suc zero) p q = refl
differ_cases (suc zero) (suc (suc y)) p q = absurd (omega arith)
differ_cases (suc (suc x)) y p q = absurd (omega arith)

bit_xor_mod : (a b : ℕ) → bit_xor a b ≡ bit_xor (a / 2) (b / 2) * 2 + (a % 2 + b % 2) % 2
bit_xor_mod a b =
    omega (arith, bit_xor_step a b, differ_cases (a % 2) (b % 2) (omega arith) (omega arith))

xor_comm_fuel : (n a b : ℕ) → a ≤ n → b ≤ n → bit_xor a b ≡ bit_xor b a
xor_comm_fuel zero zero zero p q = refl
xor_comm_fuel zero zero (suc b) p q = absurd (omega arith)
xor_comm_fuel zero (suc a) b p q = absurd (omega arith)
xor_comm_fuel (suc n) a b p q = omega (
  arith,
  bit_xor_mod a b,
  bit_xor_mod b a,
  xor_comm_fuel n (a / 2) (b / 2) (omega arith) (omega arith),
)

pub bit_xor_comm : (a b : ℕ) → bit_xor a b ≡ bit_xor b a
bit_xor_comm a b = xor_comm_fuel (a + b) a b (omega arith) (omega arith)

xor_inj_fuel : (n a b c : ℕ) → a ≤ n → bit_xor a b ≡ bit_xor a c → b ≡ c
xor_inj_fuel zero zero b c p e = omega (arith, bit_xor-zero b, bit_xor-zero c)
xor_inj_fuel zero (suc a) b c p e = absurd (omega arith)
xor_inj_fuel (suc n) a b c p e =
    omega (arith, halves, bits, xor_inj_fuel n (a / 2) (b / 2) (c / 2) (omega arith) halves)
  where
    bits : (b % 2) ≡ (c % 2)
    bits = omega (arith, e, bit_xor_mod a b, bit_xor_mod a c)

    halves : bit_xor (a / 2) (b / 2) ≡ bit_xor (a / 2) (c / 2)
    halves = omega (arith, e, bits, bit_xor_mod a b, bit_xor_mod a c)

-- With one side fixed, an exclusive or tells the other side's values apart.
pub bit_xor_inj : (a b c : ℕ) → bit_xor a b ≡ bit_xor a c → b ≡ c
bit_xor_inj a b c e = xor_inj_fuel a a b c (omega arith) e

pub bit_xor_below : (k a b : ℕ) → a < 2 ^ k → b < 2 ^ k → bit_xor a b < 2 ^ k
bit_xor_below zero zero b p q = omega (arith, bit_xor-zero b)
bit_xor_below zero (suc a) b p q = absurd (omega arith)
bit_xor_below (suc k) a b p q =
    omega (arith, bit_xor_mod a b, bit_xor_below k (a / 2) (b / 2) (omega arith) (omega arith))
