-- ===== src/Prelude/BitOr.antt =====
-- `|` of a number whose low bits are zero and a number that has only low bits: a sum.
use Prim.Native.Nat.{
  ℕ, zero, suc, ◌+◌, ◌*◌, ◌/◌, ◌%◌, ◌≤◌, ◌<◌, max, bit_or, digits, bit_or-bitwise,
}
use mathlib.Core.Path.{◌≡◌, refl, ap}
use native.Mathlib.Omega.{arith}

abbrev or_in : ℕ → ℕ → ℕ → ℕ
or_in fuel a b = digits (λ r. r) max fuel a b

-- Any fuel that is not below the first number gives the same.
or_in_enough : (a b more fuel : ℕ) → a ≤ fuel → fuel ≤ more → or_in more a b ≡ or_in fuel a b
or_in_enough a b zero zero small le = refl
or_in_enough a b zero (suc fuel) small le = absurd (omega arith)
or_in_enough zero b (suc more) zero small le = refl
or_in_enough (suc a) b (suc more) zero small le = absurd (omega arith)
or_in_enough zero b (suc more) (suc fuel) small le = refl
or_in_enough (suc a) b (suc more) (suc fuel) small le =
    omega (arith, or_in_enough (suc a / 2) (b / 2) more fuel (omega arith) (omega arith))

zero-bit_or : (b : ℕ) → bit_or 0 b ≡ b
zero-bit_or b = bit_or-bitwise 0 b

-- The lowest digit, and the others.
pub bit_or_halves : (a b : ℕ) → bit_or a b ≡ bit_or (a / 2) (b / 2) * 2 + max (a % 2) (b % 2)
bit_or_halves zero b = omega (arith, zero-bit_or b, zero-bit_or (b / 2))
bit_or_halves (suc a) b = omega (
  arith,
  bit_or-bitwise (suc a) b,
  bit_or-bitwise (suc a / 2) (b / 2),
  or_in_enough (suc a / 2) (b / 2) a (suc a / 2) (omega arith) (omega arith),
)

-- Nothing is added by zeros; `fuel` bounds the number.
bit_or-none : (fuel a : ℕ) → a ≤ fuel → bit_or a 0 ≡ a
bit_or-none fuel zero le = refl
bit_or-none zero (suc a) le = absurd (omega arith)
bit_or-none (suc fuel) (suc a) le =
    omega (arith, bit_or_halves (suc a) 0, bit_or-none fuel (suc a / 2) (omega arith))

-- `q` doubled `k` times.
abbrev pub doubled : ℕ → ℕ → ℕ
doubled zero q = q
doubled (suc k) q = 2 * doubled k q

pub bit_or-doubled : (k q r : ℕ) → r < doubled k 1 → bit_or (doubled k q) r ≡ doubled k q + r
bit_or-doubled zero q zero small = omega (arith, bit_or-none q q (omega arith))
bit_or-doubled zero q (suc r) small = absurd (omega arith)
bit_or-doubled (suc k) q r small =
    let half : bit_or (2 * doubled k q / 2) (r / 2) ≡ bit_or (doubled k q) (r / 2) =
      ap (λ t. bit_or t (r / 2)) (omega arith) in
    omega (arith, half, bit_or_halves (2 * doubled k q) r, bit_or-doubled k q (r / 2) (omega arith))
