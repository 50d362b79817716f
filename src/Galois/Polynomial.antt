-- ===== src/Galois/Polynomial.antt =====
-- `gf_mul` is the product of polynomials over GF(2) modulo x^16 + x^12 + x^3 + x + 1, computed
-- independently of the tables from the digits of the second factor.
use par2rust.Base.{
  ℕ, zero, suc, ◌*◌, ◌/◌, ◌%◌, ◌^◌, ◌≤◌, ◌<◌, ◌≡◌, refl, sym, ap, ap₂, ◌∙◌, arith, ◌==◌,
  if◌then◌else◌, bit_xor, inl, inr,
}
use native.Mathlib.Nat.{pow-suc}
use par2rust.Base.Bits.{zero-xor, xor-zero, xor_comm, xor_fields}
use par2rust.Galois.{gf_mul, double}
use par2rust.Galois.Double.{double_lem, double-lt}
use par2rust.Galois.Powers.{
  times_alpha, times_alpha-xor, times_alpha-zero, times_alpha-double, alpha_pow, alpha_pow-lt,
  alpha_pow-suc, times_alpha-one,
}
use par2rust.Galois.Field.{gf_mul-alpha_pow, gf_mul-zero_left, symbol_cases}

-- x · a: one place up, and x^16 is replaced by x^12 + x^3 + x + 1.
times_x : ℕ → ℕ
times_x a = bit_xor (a % 2 ^ 15 * 2) (a / 2 ^ 15 * 0x100b)

-- The sum of x^i · a over the lowest `n` digits i of b.
unfoldable pub poly_mul : ℕ → ℕ → ℕ → ℕ
unfolding times_x
poly_mul zero a b = 0
poly_mul (suc n) a b = bit_xor (if b % 2 == 0 then 0 else a) (poly_mul n (times_x a) (b / 2))

poly_mul-suc :
    (n a b : ℕ)
    → poly_mul (suc n) a b ≡ bit_xor (if b % 2 == 0 then 0 else a) (poly_mul n (times_x a) (b / 2))
unfolding poly_mul
poly_mul-suc n a b = refl

poly_mul-zero : (n b : ℕ) → poly_mul n 0 b ≡ 0
unfolding poly_mul
poly_mul-zero zero b = refl
poly_mul-zero (suc n) b = ground (arith, poly_mul-zero n (b / 2), zero-xor 0)

-- A symbol is its upper digits doubled, with the lowest digit.
by_lowest_digit : (b : ℕ) → b < 2 ^ 16 → bit_xor (b % 2) (double (b / 2)) ≡ b
by_lowest_digit b h =
    ap (bit_xor (b % 2)) doubled
    ∙ xor_comm (b % 2) (b / 2 * 2)
    ∙ ground (
      arith,
      xor_fields 1 (b / 2) 0 0 (b % 2) (omega arith) (omega arith),
      xor-zero (b / 2),
      zero-xor (b % 2),
    )
  where
    doubled : double (b / 2) ≡ b / 2 * 2
    doubled = ground (arith, double_lem (b / 2) (omega arith), xor-zero (b / 2 * 2))

times_alpha_digit : (k r : ℕ) → r < 2 → (if r == 0 then 0 else alpha_pow k) ≡ times_alpha k r
times_alpha_digit k zero h = sym (times_alpha-zero k)
times_alpha_digit k (suc zero) h = sym (times_alpha-one k)
times_alpha_digit k (suc (suc r)) h = absurd (omega arith)

times_x-alpha_pow : (k : ℕ) → times_x (alpha_pow k) ≡ alpha_pow (suc k)
unfolding times_x
times_x-alpha_pow k = sym (double_lem (alpha_pow k) (alpha_pow-lt k)) ∙ sym (alpha_pow-suc k)

poly_mul-alpha_pow :
    (n k b : ℕ) → n ≤ 16 → b < 2 ^ n → b < 2 ^ 16 → poly_mul n (alpha_pow k) b ≡ times_alpha k b
poly_mul-alpha_pow zero k b p q r =
    let e : b ≡ 0 = omega arith in rw e (unfold poly_mul in sym (times_alpha-zero k))
poly_mul-alpha_pow (suc n) k b p q r =
    poly_mul-suc n (alpha_pow k) b
    ∙ ap₂ bit_xor (times_alpha_digit k (b % 2) (omega arith)) (
        ap (λ (t : ℕ). poly_mul n t (b / 2)) (times_x-alpha_pow k)
        ∙ poly_mul-alpha_pow n (suc k) (b / 2) (omega arith) (omega (arith, pow-suc 2 n))
            (omega arith)
        ∙ sym (times_alpha-double k (b / 2)))
    ∙ sym
        (times_alpha-xor k (b % 2) (double (b / 2)) (omega arith) (double-lt (b / 2) (omega arith)))
    ∙ ap (times_alpha k) (by_lowest_digit b r)

-- On 16-bit symbols `gf_mul` is the product of polynomials over GF(2) modulo x^16 + x^12 + x^3 + x +
-- 1.
pub gf_mul-eq-poly_mul : (a b : ℕ) → a < 2 ^ 16 → b < 2 ^ 16 → gf_mul a b ≡ poly_mul 16 a b
gf_mul-eq-poly_mul a b p q = elim (symbol_cases a p) [
  | inl e ↦ rw e (gf_mul-zero_left b ∙ sym (poly_mul-zero 16 b))
  | inr (i, e) ↦ rw e (gf_mul-alpha_pow i b q ∙ sym (poly_mul-alpha_pow 16 i b (omega arith) q q))
]
