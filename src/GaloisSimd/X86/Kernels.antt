-- ===== src/GaloisSimd/X86/Kernels.antt =====
-- The x86 kernels meet the contract of a kernel at every even length.
use par2rust.Base.{ℕ, ◌/◌, ◌%◌, ◌≡◌, refl, arith, List, length, some}
use par2rust.Buffer.{IsBytes, xor_pairs}
use par2rust.Buffer.Symbols.{IsCall, AddsProduct}
use par2rust.ReedSolomon.Scalar.{same_shape-true}
use par2rust.GaloisSimd.{
  NibbleTables, nibble_body, coeff_tables, from_coeff_tables,
  gf_mul_xor_table_scalar_from_x86_tables,
}
use par2rust.GaloisSimd.Nibbles.{AddsProduct-of_nibbles}
use par2rust.GaloisSimd.Wide.{wide_loop-eq}
use par2rust.GaloisSimd.X86.{ssse3_step, avx2_step, gf_mul_xor_ssse3, gf_mul_xor_avx2}
use par2rust.GaloisSimd.X86.Steps.{ssse3_step-eq, avx2_step-eq}

x86_tail-eq :
    (t : NibbleTables) (input output : List ℕ)
    → some (gf_mul_xor_table_scalar_from_x86_tables t input output)
      ≡ some (xor_pairs (nibble_body t) input output)
unfolding gf_mul_xor_table_scalar_from_x86_tables
x86_tail-eq t input output = refl

ssse3-eq :
    (t : NibbleTables) (input output : List ℕ)
    → length input ≡ length output
    → length input % 2 ≡ 0
    → IsBytes input
    → gf_mul_xor_ssse3 t input output ≡ some (xor_pairs (nibble_body t) input output)
unfolding gf_mul_xor_ssse3
ssse3-eq t input output same even bytes = rw (same_shape-true input output same even) (
    wide_loop-eq 32 refl (nibble_body t) (ssse3_step t) _ (ssse3_step-eq t)
      (λ i o s e b. x86_tail-eq t i o) (length input / 32) input output (omega arith) same even
      bytes)

avx2-eq :
    (t : NibbleTables) (input output : List ℕ)
    → length input ≡ length output
    → length input % 2 ≡ 0
    → IsBytes input
    → gf_mul_xor_avx2 t input output ≡ some (xor_pairs (nibble_body t) input output)
unfolding gf_mul_xor_avx2
avx2-eq t input output same even bytes = rw (same_shape-true input output same even) (
    wide_loop-eq 64 refl (nibble_body t) (avx2_step t) (gf_mul_xor_ssse3 t) (avx2_step-eq t)
      (ssse3-eq t) (length input / 64) input output (omega arith) same even bytes)

-- For a 16-bit coefficient and two buffers of bytes with the same even length, the SSSE3 kernel over the
-- nibble tables of the coefficient returns a buffer of bytes of that length whose little-endian symbols
-- are those of the output plus the coefficient times those of the input.
pub gf_mul_xor_ssse3-AddsProduct :
    (coeff : ℕ) (input output : List ℕ)
    → IsCall coeff input output
    → AddsProduct coeff input output
        (gf_mul_xor_ssse3 (from_coeff_tables (coeff_tables coeff)) input output)
gf_mul_xor_ssse3-AddsProduct coeff input output c =
    AddsProduct-of_nibbles coeff input output _ c (
      ssse3-eq (from_coeff_tables (coeff_tables coeff)) input output c.lengths c.even c.input_bytes)

-- For a 16-bit coefficient and two buffers of bytes with the same even length, the AVX2 kernel over the
-- nibble tables of the coefficient returns a buffer of bytes of that length whose little-endian symbols
-- are those of the output plus the coefficient times those of the input.
pub gf_mul_xor_avx2-AddsProduct :
    (coeff : ℕ) (input output : List ℕ)
    → IsCall coeff input output
    → AddsProduct coeff input output
        (gf_mul_xor_avx2 (from_coeff_tables (coeff_tables coeff)) input output)
gf_mul_xor_avx2-AddsProduct coeff input output c =
    AddsProduct-of_nibbles coeff input output _ c
      (avx2-eq (from_coeff_tables (coeff_tables coeff)) input output c.lengths c.even c.input_bytes)
