-- ===== src/GaloisSimd/Gfni/Matrices.antt =====
-- The matrices of a coefficient multiply by it: each bit of the product is the parity of the bits of the
-- symbol in the columns that have the bit.
use par2rust.Base.{
  ℕ, zero, suc, ◌+◌, ◌-◌, ◌*◌, ◌/◌, ◌%◌, ◌^◌, ◌<◌, ◌≤◌, ◌≡◌, sym, ap, ap₂, ◌∙◌, arith, bit_and,
  bit_xor, min,
}
use mathlib.Core.Path.{fun_ext}
use native.Mathlib.Nat.{pow-suc, zero-div, add-mul, one-le-pow, div-div-eq-div-mul}
use par2rust.Base.Bits.{and_mask, xor-div, xor-mod, xor_parity, xor_join, two_mul_pow}
use par2rust.Galois.{gf_mul}
use par2rust.Galois.Field.{gf_mul-lt, gf_mul-xor, gf_mul-zero_right}
use par2rust.Buffer.Symbols.{product_bytes}
use par2rust.GaloisSimd.ByteTables.{fill_at}
use par2rust.GaloisSimd.Gfni.{
  row_of, pack_block, columns, from_coeff, count_ones, affine_bit, affine_apply, apply_scalar,
}
use par2rust.GaloisSimd.Gfni.Packing.{pow_sum, row_at}
use par2rust.GaloisSimd.Gfni.Digits.{
  number, number_ext, number-lt, or_bits-eq-number, number-digits, meets, count_ones-and,
}

mask_bit : (y : ℕ) → bit_and y 1 ≡ y % 2
mask_bit y = and_mask 1 y

-- Bit `i` of `y`.
abbrev pub digit : ℕ → ℕ → ℕ
digit y i = y / 2 ^ i % 2

digit-xor : (a b i : ℕ) → digit (bit_xor a b) i ≡ (digit a i + digit b i) % 2
digit-xor a b i = ap (λ (t : ℕ). t % 2) (xor-div i a b) ∙ xor_parity (a / 2 ^ i) (b / 2 ^ i)

mod_of_sum : (a b : ℕ) → (a + b % 2) % 2 ≡ (a + b) % 2
mod_of_sum a b = omega arith

-- Bit `i` of the product with `x · 2^s`: the parity of the columns that have it, among those of `x`.
module _ (c i : ℕ) (p : c < 2 ^ 16) where
  column : ℕ → ℕ
  column j = digit (gf_mul c (2 ^ j)) i

  first_digit : (b s : ℕ) → b < 2 → digit (gf_mul c (b * 2 ^ s)) i ≡ min (column (s + 0)) b
  unfolding column
  first_digit zero s h =
      let nothing : 0 * 2 ^ s ≡ 0 = omega arith in
      rw (nothing, gf_mul-zero_right c, zero-div (2 ^ i)) (omega arith)
  first_digit (suc zero) s h =
      let itself : 1 * 2 ^ s ≡ 2 ^ s = omega arith in
      let here : s + 0 ≡ s = omega arith in rw (itself, here) (omega arith)
  first_digit (suc (suc b)) s h = absurd (omega arith)

  bit_fits : (b s : ℕ) → b < 2 → b * 2 ^ s < 2 ^ suc s
  bit_fits zero s h = omega (arith, pow-suc 2 s, one-le-pow s 2 (omega arith))
  bit_fits (suc zero) s h = omega (arith, pow-suc 2 s, one-le-pow s 2 (omega arith))
  bit_fits (suc (suc b)) s h = absurd (omega arith)

  product_digit :
      (n s x : ℕ)
      → x < 2 ^ n
      → x * 2 ^ s < 2 ^ 16
      → digit (gf_mul c (x * 2 ^ s)) i ≡ meets (λ ip. column (s + ip)) n x % 2
  unfolding meets column
  product_digit zero s x h k =
      let none : x ≡ 0 = omega arith in
      let nothing : 0 * 2 ^ s ≡ 0 = omega arith in
      rw (none, nothing, gf_mul-zero_right c, zero-div (2 ^ i))
  product_digit (suc n) s x h k =
      let double : 2 ^ suc n ≡ 2 ^ n * 2 = pow-suc 2 n in
      let wide : 2 ^ suc s ≡ 2 ^ s * 2 = pow-suc 2 s in
      let high : x / 2 * 2 ^ suc s ≡ 2 * (x / 2 * 2 ^ s) = two_mul_pow (x / 2) s in
      let whole : x % 2 + x / 2 * 2 ≡ x = omega arith in
      let twice : x / 2 * 2 ≡ x / 2 + x / 2 = omega arith in
      let low : x % 2 * 2 ^ s + x / 2 * 2 * 2 ^ s ≡ x * 2 ^ s =
        sym (add-mul _ _ (2 ^ s)) ∙ ap (λ (t : ℕ). t * 2 ^ s) whole in
      let flat : x / 2 * 2 * 2 ^ s ≡ 2 * (x / 2 * 2 ^ s) =
        ap (λ (t : ℕ). t * 2 ^ s) twice ∙ add-mul _ _ (2 ^ s) ∙ omega arith in
      let rest = product_digit n (suc s) (x / 2) (omega arith) (omega arith) in
      let first : digit (gf_mul c (x % 2 * 2 ^ s)) i ≡ min (column (s + 0)) (x % 2) =
        first_digit (x % 2) s (omega arith) in
      let inside : x % 2 * 2 ^ s < 2 ^ suc s = bit_fits (x % 2) s (omega arith) in
      let parts : x * 2 ^ s ≡ bit_xor (x % 2 * 2 ^ s) (x / 2 * 2 ^ suc s) =
        sym (xor_join (suc s) (x / 2) (x % 2 * 2 ^ s) inside ∙ omega arith) in
      let over : (ip : ℕ) → suc s + ip ≡ s + suc ip = λ ip. omega arith in
      let columns_on : (λ ip. column (suc s + ip)) ≡ (λ ip. column (s + suc ip)) =
        fun_ext λ ip. ap column (over ip) in
      ap (λ (t : ℕ). digit (gf_mul c t) i) parts
      ∙ ap (λ (t : ℕ). digit t i) (gf_mul-xor c _ _ p (omega arith) (omega arith))
      ∙ digit-xor _ _ i
      ∙ ap (λ (t : ℕ). t % 2) (ap₂ ◌+◌ first rest)
      ∙ ap (λ (f : ℕ → ℕ). (min (column (s + 0)) (x % 2) + meets f n (x / 2) % 2) % 2) columns_on
      ∙ mod_of_sum _ _

-- A block of the matrix of `c`: output bits from `ob` on, input bits from `ib` on.
module _ (c ob ib : ℕ) (p : c < 2 ^ 16) (inside : ib + 8 ≤ 16) where
  abbrev row_bit : ℕ → ℕ → ℕ
  row_bit i ip = bit_and ((columns c) (ib + ip) / 2 ^ (ob + i)) 1

  row_bit-lt : (i ip : ℕ) → row_bit i ip < 2
  row_bit-lt i ip = rw (mask_bit (columns c (ib + ip) / 2 ^ (ob + i))) (omega arith)

  row_of-lt : (i : ℕ) → row_of (columns c) ob ib i < 2 ^ 8
  unfolding row_of
  row_of-lt i =
      rw (or_bits-eq-number (row_bit i) 8 (row_bit-lt i)) (number-lt (row_bit i) 8 (row_bit-lt i))

  row_of-eq : (i : ℕ) → row_of (columns c) ob ib i ≡ number (λ ip. column c (ob + i) p (ib + ip)) 8
  unfolding row_of column columns
  row_of-eq i =
      or_bits-eq-number (row_bit i) 8 (row_bit-lt i)
      ∙ number_ext (row_bit i) (λ ip. column c (ob + i) p (ib + ip)) 8
          (λ ip h.
            mask_bit _
            ∙ ap (λ (t : ℕ). t / 2 ^ (ob + i) % 2)
                (fill_at 16 (λ j. gf_mul c (2 ^ j)) (ib + ip) (omega arith)))

  column-lt : (i j : ℕ) → column c i p j < 2
  unfolding column
  column-lt i j = omega arith

  affine_bit-eq :
      (x i : ℕ)
      → i < 8
      → x < 2 ^ 8
      → x * 2 ^ ib < 2 ^ 16
      → affine_bit (pack_block (columns c) ob ib) x i ≡ digit (gf_mul c (x * 2 ^ ib)) (ob + i)
  unfolding affine_bit pack_block
  affine_bit-eq x i h small fits =
      rw
        (
          row_at (row_of (columns c) ob ib) row_of-lt i h,
          row_of-eq i,
          count_ones-and (λ ip. column c (ob + i) p (ib + ip)) 8 x
              (λ ip. column-lt (ob + i) (ib + ip)),
        )
        (mask_bit _ ∙ sym (product_digit c (ob + i) p 8 ib x small fits))

  affine_bit-lt : (mat x i : ℕ) → affine_bit mat x i < 2
  unfolding affine_bit
  affine_bit-lt mat x i =
      rw (mask_bit (count_ones 8 (bit_and (bit_and (mat / 2 ^ ((7 - i) * 8)) 0xff) x)))
        (omega arith)

  affine_apply-eq :
      (x : ℕ)
      → x < 2 ^ 8
      → x * 2 ^ ib < 2 ^ 16
      → affine_apply (pack_block (columns c) ob ib) x ≡ gf_mul c (x * 2 ^ ib) / 2 ^ ob % 2 ^ 8
  unfolding affine_apply
  affine_apply-eq x small fits =
      let mat = pack_block (columns c) ob ib in
      or_bits-eq-number (affine_bit mat x) 8 (affine_bit-lt mat x)
      ∙ number_ext (affine_bit mat x) (digit (gf_mul c (x * 2 ^ ib) / 2 ^ ob)) 8 (λ i h.
        affine_bit-eq x i h small fits
        ∙ ap (λ (t : ℕ). t % 2)
            (ap (λ (t : ℕ). gf_mul c (x * 2 ^ ib) / t) (pow_sum ob i)
              ∙ sym (div-div-eq-div-mul (gf_mul c (x * 2 ^ ib)) (2 ^ ob) (2 ^ i))))
      ∙ number-digits 8 (gf_mul c (x * 2 ^ ib) / 2 ^ ob)

halves_of_sum :
    (u v w : ℕ)
    → w < 2 ^ 16
    → bit_xor u v ≡ w
    → ◌≡◌ {A = ℕ × ℕ}
        (
          bit_xor (u / 2 ^ 0 % 2 ^ 8) (v / 2 ^ 0 % 2 ^ 8),
          bit_xor (u / 2 ^ 8 % 2 ^ 8) (v / 2 ^ 8 % 2 ^ 8),
        )
        (w % 2 ^ 8, w / 2 ^ 8)
halves_of_sum u v w small e =
    let whole : (t : ℕ) → t / 2 ^ 0 ≡ t = λ t. omega arith in
    let high : w / 2 ^ 8 % 2 ^ 8 ≡ w / 2 ^ 8 = omega arith in
    rw
      (
        whole u,
        whole v,
        sym (xor-mod 8 u v),
        sym (xor-mod 8 (u / 2 ^ 8) (v / 2 ^ 8)),
        sym (xor-div 8 u v),
        e,
      )
      (ap (λ (t : ℕ). (w % 2 ^ 8, t)) high)

-- The matrices of a 16-bit coefficient take the two bytes of a symbol to the two bytes of its product.
pub apply_scalar-eq :
    (c a b : ℕ)
    → c < 2 ^ 16
    → a < 2 ^ 8
    → b < 2 ^ 8
    → apply_scalar (from_coeff c) a b ≡ product_bytes c a b
unfolding apply_scalar from_coeff
apply_scalar-eq c a b p q r =
    let low = affine_apply-eq c 0 0 p (omega arith) a q (omega arith) in
    let low_high = affine_apply-eq c 0 8 p (omega arith) b r (omega arith) in
    let high = affine_apply-eq c 8 0 p (omega arith) a q (omega arith) in
    let high_high = affine_apply-eq c 8 8 p (omega arith) b r (omega arith) in
    let joined : bit_xor (a * 2 ^ 0) (b * 2 ^ 8) ≡ a + 2 ^ 8 * b =
      ap (λ (t : ℕ). bit_xor t (b * 2 ^ 8)) (omega arith) ∙ xor_join 8 b a q ∙ omega arith in
    let sum =
      sym (gf_mul-xor c (a * 2 ^ 0) (b * 2 ^ 8) p (omega arith) (omega arith))
      ∙ ap (gf_mul c) joined in
    let small = gf_mul-lt c (a + 2 ^ 8 * b) p (omega arith) in
    rw (low, low_high, high, high_high)
      (halves_of_sum (gf_mul c (a * 2 ^ 0)) (gf_mul c (b * 2 ^ 8)) _ small sum)
