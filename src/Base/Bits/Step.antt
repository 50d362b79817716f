-- ===== src/Base/Bits/Step.antt =====
-- The native bit operations mean a recursion on binary digits with fuel. Here the fuel is dropped:
-- one equation for the lowest digit of each operation.
use Prim.Native.Nat.{ℕ, zero, suc, ◌+◌, ◌*◌, ◌/◌, ◌%◌, ◌≤◌, ◌<◌, min, max, bit_and, bit_or, bit_xor}
use Prim.Native.Nat.{digits, differ, bit_and-bitwise, bit_or-bitwise, bit_xor-bitwise}
use mathlib.Core.Path.{◌≡◌, refl, sym, ◌∙◌}
use mathlib.Core.Logic.{◌⊎◌, inl, inr}
use native.Mathlib.Omega.{arith}

last_or_before : (x rounds : ℕ) → x ≤ suc rounds → (x ≡ suc rounds) ⊎ (x ≤ rounds)
last_or_before zero rounds enough = inr (omega arith)
last_or_before (suc x) zero enough = inl (omega arith)
last_or_before (suc x) (suc rounds) enough = elim (last_or_before x rounds (omega arith)) [
  | inl exact ↦ inl (omega arith)
  | inr spare ↦ inr (omega arith)
]

-- A round more than the first operand needs is idle, so all that suffice agree with the exact number.
module _ (at_zero : ℕ → ℕ) (combine : ℕ → ℕ → ℕ) where
  nothing_left : (rounds y : ℕ) → digits at_zero combine rounds 0 y ≡ at_zero y
  nothing_left zero y = refl
  nothing_left (suc rounds) y = refl

  idle_round :
      (rounds x y : ℕ)
      → x ≤ rounds
      → digits at_zero combine (suc rounds) x y ≡ digits at_zero combine rounds x y
  idle_round rounds zero y enough = sym (nothing_left rounds y)
  idle_round zero (suc x) y enough = absurd (omega arith)
  idle_round (suc rounds) (suc x) y enough =
      let rest = idle_round rounds (suc x / 2) (y / 2) (omega arith) in rw rest

  exact_rounds :
      (rounds x y : ℕ)
      → x ≤ rounds
      → digits at_zero combine rounds x y ≡ digits at_zero combine x x y
  exact_rounds zero x y enough = let none_left : x ≡ 0 = omega arith in rw none_left
  exact_rounds (suc rounds) x y enough = elim (last_or_before x rounds enough) [
    | inl exact ↦ rw exact
    | inr spare ↦ idle_round rounds x y spare ∙ exact_rounds rounds x y spare
  ]

differ_bits : (x y : ℕ) → x < 2 → y < 2 → differ x y ≡ (x + y) % 2
differ_bits zero y hx hy = omega arith
differ_bits (suc zero) zero hx hy = refl
differ_bits (suc zero) (suc zero) hx hy = refl
differ_bits (suc zero) (suc (suc y)) hx hy = absurd (omega arith)
differ_bits (suc (suc x)) y hx hy = absurd (omega arith)

pub zero-xor : (b : ℕ) → bit_xor 0 b ≡ b
zero-xor b = bit_xor-bitwise 0 b

pub xor_step : (a b : ℕ) → bit_xor a b ≡ bit_xor (a / 2) (b / 2) * 2 + (a % 2 + b % 2) % 2
xor_step zero b = omega (arith, zero-xor b, zero-xor (b / 2))
xor_step (suc a) b = omega (
  arith,
  bit_xor-bitwise (suc a) b,
  bit_xor-bitwise (suc a / 2) (b / 2),
  exact_rounds (λ y. y) differ a (suc a / 2) (b / 2) (omega arith),
  differ_bits (suc a % 2) (b % 2) (omega arith) (omega arith),
)

pub xor_half : (a b : ℕ) → bit_xor a b / 2 ≡ bit_xor (a / 2) (b / 2)
xor_half a b = omega (arith, xor_step a b)

pub xor_parity : (a b : ℕ) → bit_xor a b % 2 ≡ (a % 2 + b % 2) % 2
xor_parity a b = omega (arith, xor_step a b)

zero-and : (b : ℕ) → bit_and 0 b ≡ 0
zero-and b = bit_and-bitwise 0 b

pub and_step : (a b : ℕ) → bit_and a b ≡ bit_and (a / 2) (b / 2) * 2 + min (a % 2) (b % 2)
and_step zero b = omega (arith, zero-and b, zero-and (b / 2))
and_step (suc a) b = omega (
  arith,
  bit_and-bitwise (suc a) b,
  bit_and-bitwise (suc a / 2) (b / 2),
  exact_rounds (λ y. 0) min a (suc a / 2) (b / 2) (omega arith),
)

zero-or : (b : ℕ) → bit_or 0 b ≡ b
zero-or b = bit_or-bitwise 0 b

pub or_step : (a b : ℕ) → bit_or a b ≡ bit_or (a / 2) (b / 2) * 2 + max (a % 2) (b % 2)
or_step zero b = omega (arith, zero-or b, zero-or (b / 2))
or_step (suc a) b = omega (
  arith,
  bit_or-bitwise (suc a) b,
  bit_or-bitwise (suc a / 2) (b / 2),
  exact_rounds (λ y. y) max a (suc a / 2) (b / 2) (omega arith),
)
