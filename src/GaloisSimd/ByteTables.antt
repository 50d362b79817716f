-- ===== src/GaloisSimd/ByteTables.antt =====
-- The byte tables: a symbol is the sum of its bytes' contributions, and multiplication is linear.
use par2rust.Base.{
  ℕ, zero, suc, ◌+◌, ◌*◌, ◌%◌, ◌^◌, ◌<◌, ◌≡◌, ◌≢◌, sym, ap, ap₂, ◌∙◌, arith, List, bit_xor, some,
  ◌==◌, ==→eq, ==→ne, Bool-cases, inl, inr,
}
use par2rust.Base.Bits.{xor_join}
use par2rust.Galois.{write, gf_mul}
use par2rust.Galois.Field.{gf_mul-lt, gf_mul-xor}
use par2rust.Buffer.Symbols.{
  product_bytes, xor_pairs_ext, IsCall, IsCall-SameShape, AddsProduct, AddsProduct-of_pairs,
}
use par2rust.ReedSolomon.Scalar.{same_shape-true}
use par2rust.GaloisSimd.{fill, coeff_tables, table_body, gf_mul_xor_table_scalar}

pub fill_at : (n : ℕ) (f : ℕ → ℕ) (i : ℕ) → i < n → fill n f i ≡ f i
unfolding fill write
fill_at zero f i h = absurd (omega arith)
fill_at (suc n) f i h = elim (Bool-cases (i == n)) [
  | inl e ↦ rw e (ap f (sym (==→eq i n e)))
  | inr e ↦ rw e (fill_at n f i (let ne : i ≢ n = ==→ne i n e in omega arith))
]

pub coeff_tables-lo : (c s : ℕ) → s < 2 ^ 8 → (coeff_tables c).lo s ≡ gf_mul c s
unfolding coeff_tables
coeff_tables-lo c s h = fill_at 256 _ s h

pub coeff_tables-hi : (c s : ℕ) → s < 2 ^ 8 → (coeff_tables c).hi s ≡ gf_mul c (s * 2 ^ 8)
unfolding coeff_tables
coeff_tables-hi c s h = fill_at 256 _ s h ∙ ap (gf_mul c) (omega arith)

-- The two entries add up to the product of the symbol.
pub entries-eq-product :
    (c a b : ℕ)
    → c < 2 ^ 16
    → a < 2 ^ 8
    → b < 2 ^ 8
    → bit_xor ((coeff_tables c).lo a) ((coeff_tables c).hi b) ≡ gf_mul c (a + 2 ^ 8 * b)
entries-eq-product c a b p q r =
    ap₂ bit_xor (coeff_tables-lo c a q) (coeff_tables-hi c b r)
    ∙ sym (gf_mul-xor c a (b * 2 ^ 8) p (omega arith) (omega arith))
    ∙ ap (gf_mul c) (let e = xor_join 8 b a q in omega (arith, e))

table_body-eq :
    (c a b : ℕ)
    → c < 2 ^ 16
    → a < 2 ^ 8
    → b < 2 ^ 8
    → table_body (coeff_tables c) a b ≡ product_bytes c a b
unfolding table_body
table_body-eq c a b p q r = rw (entries-eq-product c a b p q r) (
    ap (λ (t : ℕ). (gf_mul c (a + 2 ^ 8 * b) % 2 ^ 8, t))
      (omega (arith, gf_mul-lt c (a + 2 ^ 8 * b) p (omega arith))))

-- For a 16-bit coefficient and two buffers of bytes with the same even length, the kernel over the
-- two byte tables of the coefficient returns a buffer of bytes of that length whose little-endian
-- symbols are those of the output plus the coefficient times those of the input.
pub gf_mul_xor_table_scalar-AddsProduct :
    (coeff : ℕ) (input output : List ℕ)
    → IsCall coeff input output
    → AddsProduct coeff input output (gf_mul_xor_table_scalar (coeff_tables coeff) input output)
unfolding gf_mul_xor_table_scalar
gf_mul_xor_table_scalar-AddsProduct coeff input output c =
    AddsProduct-of_pairs coeff input output _ c (
      rw (same_shape-true input output c.lengths c.even) (
        ap some (
          xor_pairs_ext _ _ (λ a b. table_body-eq coeff a b c.symbol) (IsCall-SameShape c)
            c.input_bytes)))
