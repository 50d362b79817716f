-- ===== src/Galois/Double.antt =====
-- Doubling, one round's step from α^l to α^(l+1): it is linear for exclusive or and injective.
use par2rust.Base.{
  ℕ, zero, suc, ◌+◌, ◌*◌, ◌/◌, ◌%◌, ◌^◌, ◌<◌, bit_xor, ◌≡◌, refl, sym, ap, ap₂, ◌∙◌, arith, ◌⊎◌,
  inl, inr,
}
use par2rust.Base.Bits.{
  xor_step, xor_parity, xor_self, xor-zero, xor-lt, xor_fields, xor-div, xor-mod, xor_swap_middle,
  xor_injective_right, and_bit,
}
use par2rust.Galois.{double}

bit_cases : (q : ℕ) → q < 2 → (q ≡ 0) ⊎ (q ≡ 1)
bit_cases zero h = inl refl
bit_cases (suc zero) h = inr refl
bit_cases (suc (suc q)) h = absurd (omega arith)

double_fields :
    (q r : ℕ) → q < 2 → r < 2 ^ 15 → double (q * 2 ^ 15 + r) ≡ bit_xor (r * 2) (q * 0x100b)
unfolding double
double_fields q r p h = elim (bit_cases q p) [
  | inl e ↦ rw e (
      let m = and_bit 16 0 (r * 2) (omega arith) (omega arith) in
      let z = xor-zero (r * 2) in
      let w : (0 * 2 ^ 15 + r) * 2 % 2 ^ 32 ≡ 0 * 2 ^ 16 + r * 2 = omega arith in
      rw (w, m) (omega (arith, z)))
  | inr e ↦ rw e (
      let m = and_bit 16 1 (r * 2) (omega arith) (omega arith) in
      let w : (1 * 2 ^ 15 + r) * 2 % 2 ^ 32 ≡ 1 * 2 ^ 16 + r * 2 = omega arith in
      rw (w, m) (omega (arith, xor_fields 16 1 1 (r * 2) 0x100b (omega arith) (omega arith))))
]

-- The closed form: the lower digits move up and the top digit is reduced.
pub double_lem : (a : ℕ) → a < 2 ^ 16 → double a ≡ bit_xor (a % 2 ^ 15 * 2) (a / 2 ^ 15 * 0x100b)
double_lem a h = ap double e ∙ double_fields (a / 2 ^ 15) (a % 2 ^ 15) (omega arith) (omega arith)
  where
    e : a ≡ a / 2 ^ 15 * 2 ^ 15 + a % 2 ^ 15
    e = omega arith

pub double-lt : (a : ℕ) → a < 2 ^ 16 → double a < 2 ^ 16
double-lt a h =
    rw (double_lem a h)
      (xor-lt 16 (a % 2 ^ 15 * 2) (a / 2 ^ 15 * 0x100b) (omega arith) (omega arith))

xor_twice : (a b : ℕ) → bit_xor (a * 2) (b * 2) ≡ bit_xor a b * 2
xor_twice a b = ground (arith, xor_step (a * 2) (b * 2))

reduce-xor : (p q : ℕ) → p < 2 → q < 2 → bit_xor (p * 0x100b) (q * 0x100b) ≡ bit_xor p q * 0x100b
reduce-xor p q hp hq = elim (bit_cases p hp) [
  | inl e ↦ elim (bit_cases q hq) [ inl f ↦ rw (e, f) | inr f ↦ rw (e, f) ]
  | inr e ↦ elim (bit_cases q hq) [ inl f ↦ rw (e, f) | inr f ↦ rw (e, f) ]
]

pub double-xor :
    (a b : ℕ) → a < 2 ^ 16 → b < 2 ^ 16 → double (bit_xor a b) ≡ bit_xor (double a) (double b)
double-xor a b p q =
    rw
      (
        double_lem _ (xor-lt 16 a b p q),
        double_lem a p,
        double_lem b q,
        xor-mod 15 a b,
        xor-div 15 a b,
      )
      (sym (
          ap₂ bit_xor (xor_twice (a % 2 ^ 15) (b % 2 ^ 15))
            (reduce-xor (a / 2 ^ 15) (b / 2 ^ 15) (omega arith) (omega arith)))
        ∙ xor_swap_middle (a % 2 ^ 15 * 2) (b % 2 ^ 15 * 2) (a / 2 ^ 15 * 0x100b)
            (b / 2 ^ 15 * 0x100b))

-- The reduced sum is odd, so a top digit cannot be lost.
double_eq_zero : (a : ℕ) → a < 2 ^ 16 → double a ≡ 0 → a ≡ 0
double_eq_zero a h e = ground (
  arith,
  double_lem a h,
  xor_parity (a % 2 ^ 15 * 2) (a / 2 ^ 15 * 0x100b),
  xor-zero (a % 2 ^ 15 * 2),
)

pub double_injective : (a b : ℕ) → a < 2 ^ 16 → b < 2 ^ 16 → double a ≡ double b → a ≡ b
double_injective a b p q e = xor_injective_right a b b (z ∙ sym (xor_self b))
  where
    z : bit_xor a b ≡ 0
    z =
        double_eq_zero (bit_xor a b) (xor-lt 16 a b p q)
          (double-xor a b p q ∙ ap (λ (t : ℕ). bit_xor t (double b)) e ∙ xor_self (double b))
