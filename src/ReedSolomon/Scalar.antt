-- ===== src/ReedSolomon/Scalar.antt =====
-- `gf_mul_xor_scalar`, the correctness reference of the kernels, adds the product symbol by symbol.
use par2rust.Base.{
  ℕ, ◌+◌, ◌*◌, ◌/◌, ◌%◌, ◌^◌, ◌<◌, ◌≡◌, refl, sym, ap, arith, List, length, bit_or, some, ◌==◌,
  ==→eq, ==→ne, Bool, if◌then◌else◌, true, false,
}
use par2rust.Base.Bits.{or_fields, or_comm}
use par2rust.Galois.{gf16_tables, gf_mul}
use par2rust.Galois.Field.{gf_mul-lt}
use par2rust.Buffer.{IsBytes, same_shape, xor_pairs, xor_bytes}
use par2rust.Buffer.Symbols.{
  IsCall, AddsProduct, AddsProduct-of_pairs, SameShape, SameShape-of_length, product_bytes,
  xor_pairs_ext, xor_pairs-zero, xor_pairs-one,
}
use par2rust.ReedSolomon.{scalar_product, gf_mul_xor_scalar}

-- `lo | hi << 8` is the symbol of the two bytes.
pub or_bytes : (lo hi : ℕ) → lo < 2 ^ 8 → bit_or lo (hi * 2 ^ 8) ≡ lo + 2 ^ 8 * hi
or_bytes lo hi h = omega (arith, or_comm lo (hi * 2 ^ 8), or_fields 8 hi lo h)

scalar_product-eq-gf_mul :
    (coeff lo hi : ℕ)
    → 0 < coeff
    → lo < 2 ^ 8
    → scalar_product (gf16_tables.log coeff) lo hi ≡ gf_mul coeff (lo + 2 ^ 8 * hi)
unfolding scalar_product gf_mul
scalar_product-eq-gf_mul coeff lo hi p q = rw (or_bytes lo hi q) (ground arith)

pub same_shape-true :
    (input output : List ℕ)
    → length input ≡ length output
    → length input % 2 ≡ 0
    → same_shape input output ≡ true
same_shape-true input output e even = ground arith

-- On every branch the kernel has the effect of the product's bytes.
pub gf_mul_xor_scalar-eq :
    (coeff : ℕ) (input output : List ℕ)
    → coeff < 2 ^ 16
    → length input ≡ length output
    → length input % 2 ≡ 0
    → IsBytes input
    → gf_mul_xor_scalar coeff input output ≡ some (xor_pairs (product_bytes coeff) input output)
unfolding gf_mul_xor_scalar
gf_mul_xor_scalar-eq coeff input output p e even h =
    rw (same_shape-true input output e even)
      (ap some (branches (coeff == 0) (coeff == 1) refl refl))
  where
    s : SameShape input output
    s = SameShape-of_length input output e even

    general :
        0 < coeff
        → xor_pairs
            (λ lo hi.
              let product = scalar_product (gf16_tables.log coeff) lo hi in
              (product % 2 ^ 8, product / 2 ^ 8 % 2 ^ 8))
            input
            output
          ≡ xor_pairs (product_bytes coeff) input output
    general pos =
        xor_pairs_ext _ _
          (λ a b ha hb. rw (scalar_product-eq-gf_mul coeff a b pos ha) (
            ap (λ (t : ℕ). (gf_mul coeff (a + 2 ^ 8 * b) % 2 ^ 8, t))
              (omega (arith, gf_mul-lt coeff (a + 2 ^ 8 * b) p (omega arith)))))
          s h

    branches :
        (is_zero is_one : Bool)
        → (coeff == 0) ≡ is_zero
        → (coeff == 1) ≡ is_one
        → (if is_zero
            then output
            else if is_one
            then xor_bytes input output
            else xor_pairs
                (λ lo hi.
                  let product = scalar_product (gf16_tables.log coeff) lo hi in
                  (product % 2 ^ 8, product / 2 ^ 8 % 2 ^ 8))
                input
                output)
          ≡ xor_pairs (product_bytes coeff) input output
    branches true is_one z o = rw (==→eq coeff 0 z) (sym (xor_pairs-zero s))
    branches false true z o = rw (==→eq coeff 1 o) (sym (xor_pairs-one s h))
    branches false false z o = general (let ne = ==→ne coeff 0 z in omega arith)

-- For a 16-bit coefficient and two buffers of bytes with the same even length, the scalar kernel
-- returns a buffer of bytes of that length whose little-endian symbols are those of the output plus
-- the coefficient times those of the input.
pub gf_mul_xor_scalar-AddsProduct :
    (coeff : ℕ) (input output : List ℕ)
    → IsCall coeff input output
    → AddsProduct coeff input output (gf_mul_xor_scalar coeff input output)
gf_mul_xor_scalar-AddsProduct coeff input output c =
    AddsProduct-of_pairs coeff input output _ c
      (gf_mul_xor_scalar-eq coeff input output c.symbol c.lengths c.even c.input_bytes)
