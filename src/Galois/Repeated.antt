-- ===== src/Galois/Repeated.antt =====
-- `gf_pow` is repeated multiplication, 0^0 = 1 included.
use par2rust.Base.{ℕ, zero, suc, ◌*◌, ◌%◌, ◌^◌, ◌≤◌, ◌<◌, ◌≡◌, refl, sym, ap, ◌∙◌, arith, inl, inr}
use par2rust.Galois.{gf_mul, gf_pow, gf16_tables, field_limit}
use par2rust.Galois.Powers.{alpha_pow, alpha_pow-lt, alpha_pow-zero, alpha_pow-mod, alpha_pow-add}
use par2rust.Galois.Tables.{antilog-eq-alpha_pow, antilog-log, alpha_pow-log}
use par2rust.Galois.Field.{gf_mul-alpha_pow, gf_mul-zero_left, zero_or_pos}

-- `base` multiplied into 1, `exp` times.
unfoldable pub mul_times : ℕ → ℕ → ℕ
mul_times base zero = 1
mul_times base (suc exp) = gf_mul base (mul_times base exp)

mul_times-alpha_pow : (l exp : ℕ) → mul_times (alpha_pow l) exp ≡ alpha_pow (l * exp)
unfolding mul_times
mul_times-alpha_pow l zero = sym alpha_pow-zero ∙ ap alpha_pow (omega arith)
mul_times-alpha_pow l (suc exp) =
    ap (gf_mul (alpha_pow l)) (mul_times-alpha_pow l exp)
    ∙ gf_mul-alpha_pow l _ (alpha_pow-lt (l * exp))
    ∙ sym (alpha_pow-add l (l * exp))
    ∙ ap alpha_pow (omega arith)

-- The 64-bit product of a logarithm and an exponent does not wrap.
product_fits : (l e : ℕ) → l < field_limit → e < 2 ^ 32 → l * e % 2 ^ 64 ≡ l * e
product_fits l e p q = let h : l * e ≤ 65535 * e = grind arith in omega arith

gf_pow-pos :
    (b e : ℕ)
    → 0 < b
    → 0 < e
    → gf_pow b e ≡ gf16_tables.antilog (gf16_tables.log b * e % 2 ^ 64 % field_limit)
unfolding gf_pow
gf_pow-pos b e p q = ground arith

gf_pow-zero_base : (e : ℕ) → 0 < e → gf_pow 0 e ≡ 0
unfolding gf_pow
gf_pow-zero_base e p = ground arith

pub gf_pow-zero : (b : ℕ) → gf_pow b 0 ≡ 1
unfolding gf_pow
gf_pow-zero b = refl

-- For a non-zero base the exponents multiply.
pub gf_pow-eq-alpha_pow :
    (b e : ℕ) → 0 < b → b < 2 ^ 16 → e < 2 ^ 32 → gf_pow b e ≡ alpha_pow (gf16_tables.log b * e)
gf_pow-eq-alpha_pow b e p q r = elim (zero_or_pos e) [
  | inl z ↦ rw z (gf_pow-zero b ∙ sym alpha_pow-zero ∙ ap alpha_pow (omega arith))
  | inr pos ↦
      gf_pow-pos b e p pos
      ∙ antilog-eq-alpha_pow (gf16_tables.log b * e % 2 ^ 64 % field_limit) (omega arith)
      ∙ alpha_pow-mod (gf16_tables.log b * e % 2 ^ 64)
      ∙ ap alpha_pow (product_fits _ e (antilog-log b p q).0 r)
]

-- For a 16-bit base and a 32-bit exponent `gf_pow` is the base multiplied into 1 as many times as
-- the exponent says; 0 to the power of 0 is 1.
pub gf_pow-eq-mul_times :
    (base exp : ℕ) → base < 2 ^ 16 → exp < 2 ^ 32 → gf_pow base exp ≡ mul_times base exp
gf_pow-eq-mul_times base exp p q = elim (zero_or_pos base) [
  | inl z ↦ rw z (zero_base exp)
  | inr pos ↦
      gf_pow-eq-alpha_pow base exp pos p q
      ∙ sym (mul_times-alpha_pow (gf16_tables.log base) exp)
      ∙ ap (λ (t : ℕ). mul_times t exp) (alpha_pow-log base pos p)
]
  where
    zero_base : (e : ℕ) → gf_pow 0 e ≡ mul_times 0 e
    zero_base zero = gf_pow-zero 0 ∙ unfold mul_times in refl
    zero_base (suc e) =
        gf_pow-zero_base (suc e) (omega arith)
        ∙ unfold mul_times in sym (gf_mul-zero_left (mul_times 0 e))
