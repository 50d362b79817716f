-- ===== src/GaloisSimd/Nibbles.antt =====
-- The nibble tables: a byte is the sum of its nibbles' contributions, and the two bytes of a product are
-- looked up apart.
use par2rust.Base.{
  ℕ, ◌+◌, ◌*◌, ◌/◌, ◌%◌, ◌^◌, ◌<◌, ◌≡◌, refl, sym, ap, ap₂, ◌∙◌, arith, List, bit_xor, length, some,
  ◌==◌, true,
}
use par2rust.Base.Bits.{xor_join, xor_fields, xor-zero, xor-mod, xor-div, xor_assoc, and_mask}
use par2rust.Galois.{gf_mul}
use par2rust.Galois.Field.{gf_mul-lt, gf_mul-xor}
use par2rust.Base.Checked.{Checked}
use par2rust.Buffer.{xor_pairs}
use par2rust.Buffer.Symbols.{
  product_bytes, xor_pairs_ext, IsCall, IsCall-SameShape, AddsProduct, AddsProduct-of_pairs,
}
use par2rust.GaloisSimd.{
  CoeffTables, coeff_tables, from_coeff_tables, NibbleTables, nibble_body,
  gf_mul_xor_table_scalar_from_neon_tables, gf_mul_xor_table_scalar_from_x86_tables,
}
use par2rust.GaloisSimd.ByteTables.{fill_at, coeff_tables-lo, coeff_tables-hi, entries-eq-product}

low_nibbles : (b : ℕ) → bit_xor (b % 2 ^ 4) (b / 2 ^ 4 * 2 ^ 4) ≡ b
low_nibbles b = omega (arith, xor_join 4 (b / 2 ^ 4) (b % 2 ^ 4) (omega arith))

high_nibbles : (b : ℕ) → bit_xor (b % 2 ^ 4 * 2 ^ 8) (b / 2 ^ 4 * 2 ^ 4 * 2 ^ 8) ≡ b * 2 ^ 8
high_nibbles b =
    let e : b % 2 ^ 4 * 2 ^ 8 + 0 ≡ b % 2 ^ 4 * 2 ^ 8 = omega arith in
    let f : b / 2 ^ 4 * 2 ^ 4 * 2 ^ 8 + 0 ≡ b / 2 ^ 4 * 2 ^ 4 * 2 ^ 8 = omega arith in
    ap₂ bit_xor (sym e) (sym f)
    ∙ xor_fields 8 (b % 2 ^ 4) (b / 2 ^ 4 * 2 ^ 4) 0 0 (omega arith) (omega arith)
    ∙ omega (arith, low_nibbles b, xor-zero 0)

-- A byte's entry is the sum of its nibbles' entries.
lo_by_nibbles :
    (c b : ℕ)
    → c < 2 ^ 16
    → b < 2 ^ 8
    → bit_xor ((coeff_tables c).lo (b % 2 ^ 4)) ((coeff_tables c).lo (b / 2 ^ 4 * 2 ^ 4))
      ≡ (coeff_tables c).lo b
lo_by_nibbles c b p q =
    ap₂ bit_xor (coeff_tables-lo c _ (omega arith)) (coeff_tables-lo c _ (omega arith))
    ∙ sym (gf_mul-xor c _ _ p (omega arith) (omega arith))
    ∙ ap (gf_mul c) (low_nibbles b)
    ∙ sym (coeff_tables-lo c b q)

hi_by_nibbles :
    (c b : ℕ)
    → c < 2 ^ 16
    → b < 2 ^ 8
    → bit_xor ((coeff_tables c).hi (b % 2 ^ 4)) ((coeff_tables c).hi (b / 2 ^ 4 * 2 ^ 4))
      ≡ (coeff_tables c).hi b
hi_by_nibbles c b p q =
    ap₂ bit_xor (coeff_tables-hi c _ (omega arith)) (coeff_tables-hi c _ (omega arith))
    ∙ sym (gf_mul-xor c _ _ p (omega arith) (omega arith))
    ∙ ap (gf_mul c) (high_nibbles b)
    ∙ sym (coeff_tables-hi c b q)

-- The halves of a sum of four are the sums of the halves.
low_of_four :
    (a b c d : ℕ)
    → bit_xor (bit_xor (bit_xor (a % 2 ^ 8) (b % 2 ^ 8)) (c % 2 ^ 8)) (d % 2 ^ 8)
      ≡ bit_xor (bit_xor a b) (bit_xor c d) % 2 ^ 8
low_of_four a b c d =
    xor_assoc (bit_xor (a % 2 ^ 8) (b % 2 ^ 8)) (c % 2 ^ 8) (d % 2 ^ 8)
    ∙ ap₂ bit_xor (sym (xor-mod 8 a b)) (sym (xor-mod 8 c d))
    ∙ sym (xor-mod 8 (bit_xor a b) (bit_xor c d))

high_of_four :
    (a b c d : ℕ)
    → bit_xor (bit_xor (bit_xor (a / 2 ^ 8) (b / 2 ^ 8)) (c / 2 ^ 8)) (d / 2 ^ 8)
      ≡ bit_xor (bit_xor a b) (bit_xor c d) / 2 ^ 8
high_of_four a b c d =
    xor_assoc (bit_xor (a / 2 ^ 8) (b / 2 ^ 8)) (c / 2 ^ 8) (d / 2 ^ 8)
    ∙ ap₂ bit_xor (sym (xor-div 8 a b)) (sym (xor-div 8 c d))
    ∙ sym (xor-div 8 (bit_xor a b) (bit_xor c d))

module _ (c : ℕ) (p : c < 2 ^ 16) where
  abbrev t : CoeffTables
  t = coeff_tables c

  abbrev nt : NibbleTables
  nt = from_coeff_tables t

  lo-lt : (s : ℕ) → s < 2 ^ 8 → t.lo s < 2 ^ 16
  lo-lt s h = rw (coeff_tables-lo c s h) (gf_mul-lt c s p (omega arith))

  hi-lt : (s : ℕ) → s < 2 ^ 8 → t.hi s < 2 ^ 16
  hi-lt s h = rw (coeff_tables-hi c s h) (gf_mul-lt c (s * 2 ^ 8) p (omega arith))

  -- The four entries of a symbol add up to its product.
  four_entries :
      (a b : ℕ)
      → a < 2 ^ 8
      → b < 2 ^ 8
      → bit_xor
          (bit_xor (t.lo (a % 2 ^ 4)) (t.lo (a / 2 ^ 4 * 2 ^ 4)))
          (bit_xor (t.hi (b % 2 ^ 4)) (t.hi (b / 2 ^ 4 * 2 ^ 4)))
        ≡ gf_mul c (a + 2 ^ 8 * b)
  four_entries a b q r =
      ap₂ bit_xor (lo_by_nibbles c a p q) (hi_by_nibbles c b p r) ∙ entries-eq-product c a b p q r

  upper_byte : (x : ℕ) → x < 2 ^ 16 → x / 2 ^ 8 % 2 ^ 8 ≡ x / 2 ^ 8
  upper_byte x h = omega arith

  pub nibble_body-eq : (a b : ℕ) → a < 2 ^ 8 → b < 2 ^ 8 → nibble_body nt a b ≡ product_bytes c a b
  unfolding nibble_body from_coeff_tables
  nibble_body-eq a b q r = rw (
    and_mask 4 a,
    and_mask 4 b,
    fill_at 16 (λ n. t.lo n % 2 ^ 8) (a % 2 ^ 4) (omega arith),
    fill_at 16 (λ n. t.lo (n * 2 ^ 4) % 2 ^ 8) (a / 2 ^ 4) (omega arith),
    fill_at 16 (λ n. t.hi n % 2 ^ 8) (b % 2 ^ 4) (omega arith),
    fill_at 16 (λ n. t.hi (n * 2 ^ 4) % 2 ^ 8) (b / 2 ^ 4) (omega arith),
    fill_at 16 (λ n. t.lo n / 2 ^ 8 % 2 ^ 8) (a % 2 ^ 4) (omega arith),
    fill_at 16 (λ n. t.lo (n * 2 ^ 4) / 2 ^ 8 % 2 ^ 8) (a / 2 ^ 4) (omega arith),
    fill_at 16 (λ n. t.hi n / 2 ^ 8 % 2 ^ 8) (b % 2 ^ 4) (omega arith),
    fill_at 16 (λ n. t.hi (n * 2 ^ 4) / 2 ^ 8 % 2 ^ 8) (b / 2 ^ 4) (omega arith),
    upper_byte _ (lo-lt (a % 2 ^ 4) (omega arith)),
    upper_byte _ (lo-lt (a / 2 ^ 4 * 2 ^ 4) (omega arith)),
    upper_byte _ (hi-lt (b % 2 ^ 4) (omega arith)),
    upper_byte _ (hi-lt (b / 2 ^ 4 * 2 ^ 4) (omega arith)),
    low_of_four,
    high_of_four,
    four_entries a b q r,
  )

-- A kernel that looks each pair of bytes up in the nibble tables of the coefficient meets the contract.
pub AddsProduct-of_nibbles :
    (coeff : ℕ) (input output : List ℕ) (result : Checked (List ℕ))
    → IsCall coeff input output
    → result ≡ some (xor_pairs (nibble_body (from_coeff_tables (coeff_tables coeff))) input output)
    → AddsProduct coeff input output result
AddsProduct-of_nibbles coeff input output result c e =
    AddsProduct-of_pairs coeff input output result c (
      e
      ∙ ap some
          (xor_pairs_ext _ _ (nibble_body-eq coeff c.symbol) (IsCall-SameShape c) c.input_bytes))

pub neon_tail-eq :
    (t : NibbleTables) (input output : List ℕ)
    → length input % 2 ≡ 0
    → gf_mul_xor_table_scalar_from_neon_tables t input output
      ≡ some (xor_pairs (nibble_body t) input output)
unfolding gf_mul_xor_table_scalar_from_neon_tables
neon_tail-eq t input output even =
    let test : (length input % 2 == 0) ≡ true = ground arith in rw test

-- For a 16-bit coefficient and two buffers of bytes with the same even length, the NEON tail loop
-- over the nibble tables of the coefficient returns a buffer of bytes of that length whose
-- little-endian symbols are those of the output plus the coefficient times those of the input.
pub neon_tail-AddsProduct :
    (coeff : ℕ) (input output : List ℕ)
    → IsCall coeff input output
    → AddsProduct coeff input output (
        gf_mul_xor_table_scalar_from_neon_tables
          (from_coeff_tables (coeff_tables coeff))
          input
          output)
neon_tail-AddsProduct coeff input output c =
    AddsProduct-of_nibbles coeff input output _ c
      (neon_tail-eq (from_coeff_tables (coeff_tables coeff)) input output c.even)

-- For a 16-bit coefficient and two buffers of bytes with the same even length, the x86 tail loop
-- over the nibble tables of the coefficient returns a buffer of bytes of that length whose
-- little-endian symbols are those of the output plus the coefficient times those of the input.
pub x86_tail-AddsProduct :
    (coeff : ℕ) (input output : List ℕ)
    → IsCall coeff input output
    → AddsProduct coeff input output (
        some (
          gf_mul_xor_table_scalar_from_x86_tables
            (from_coeff_tables (coeff_tables coeff))
            input
            output))
unfolding gf_mul_xor_table_scalar_from_x86_tables
x86_tail-AddsProduct coeff input output c = AddsProduct-of_nibbles coeff input output _ c refl
