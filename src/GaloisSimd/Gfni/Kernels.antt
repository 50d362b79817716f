-- ===== src/GaloisSimd/Gfni/Kernels.antt =====
-- The GFNI kernels meet the contract of a kernel at every even length.
use par2rust.Base.{ℕ, ◌/◌, ◌%◌, ◌≤◌, ◌≡◌, refl, ◌∙◌, ap, arith, List, length, take, some}
use par2rust.Base.Checked.{Checked}
use par2rust.Buffer.{IsBytes, xor_pairs}
use par2rust.Buffer.Symbols.{
  IsCall, IsCall-SameShape, AddsProduct, AddsProduct-of_pairs, xor_pairs_ext,
}
use par2rust.ReedSolomon.Scalar.{same_shape-true}
use par2rust.GaloisSimd.Vectors.{
  byte_at, loadu, stored, stored_from, set1, setr, xor, broadcast, shuffle_epi8, unpacklo_epi64,
  unpacklo_epi8, unpackhi_epi8, permutex2var_epi64,
}
use par2rust.GaloisSimd.Wide.{wide_loop-eq, take-eq-stored}
use par2rust.GaloisSimd.X86.{gathered}
use par2rust.GaloisSimd.Gfni.{
  GfniTables, from_coeff, apply_scalar, gf2p8affine_epi64_epi8, gfni_step, gf_mul_xor_gfni,
  gfni_avx512_step, gf_mul_xor_gfni_avx512,
}
use par2rust.GaloisSimd.Gfni.Matrices.{apply_scalar-eq}

gfni_step-eq :
    (t : GfniTables) (input output : List ℕ)
    → 32 ≤ length input
    → 32 ≤ length output
    → IsBytes input
    → gfni_step t input output ≡ xor_pairs (apply_scalar t) (take 32 input) (take 32 output)
unfolding gfni_step xor_pairs apply_scalar stored stored_from set1 xor loadu gathered unpacklo_epi64
    unpacklo_epi8 unpackhi_epi8 shuffle_epi8 broadcast setr byte_at gf2p8affine_epi64_epi8
gfni_step-eq t input output p q bytes = rw (take-eq-stored 32 input p, take-eq-stored 32 output q)

gfni_avx512_step-eq :
    (t : GfniTables) (input output : List ℕ)
    → 128 ≤ length input
    → 128 ≤ length output
    → IsBytes input
    → gfni_avx512_step t input output
      ≡ xor_pairs (apply_scalar t) (take 128 input) (take 128 output)
unfolding gfni_avx512_step xor_pairs apply_scalar stored stored_from set1 xor loadu
    permutex2var_epi64 shuffle_epi8 broadcast setr byte_at gf2p8affine_epi64_epi8
gfni_avx512_step-eq t input output p q bytes =
    rw (take-eq-stored 128 input p, take-eq-stored 128 output q)

gfni-eq :
    (t : GfniTables) (input output : List ℕ)
    → length input ≡ length output
    → length input % 2 ≡ 0
    → IsBytes input
    → gf_mul_xor_gfni t input output ≡ some (xor_pairs (apply_scalar t) input output)
unfolding gf_mul_xor_gfni
gfni-eq t input output same even bytes = rw (same_shape-true input output same even) (
    wide_loop-eq 32 refl (apply_scalar t) (gfni_step t) _ (gfni_step-eq t) (λ i o s e b. refl)
      (length input / 32) input output (omega arith) same even bytes)

gfni_avx512-eq :
    (t : GfniTables) (input output : List ℕ)
    → length input ≡ length output
    → length input % 2 ≡ 0
    → IsBytes input
    → gf_mul_xor_gfni_avx512 t input output ≡ some (xor_pairs (apply_scalar t) input output)
unfolding gf_mul_xor_gfni_avx512
gfni_avx512-eq t input output same even bytes = rw (same_shape-true input output same even) (
    wide_loop-eq 128 refl (apply_scalar t) (gfni_avx512_step t) (gf_mul_xor_gfni t)
      (gfni_avx512_step-eq t) (gfni-eq t) (length input / 128) input output (omega arith) same even
      bytes)

AddsProduct-of_matrices :
    (coeff : ℕ) (input output : List ℕ) (result : Checked (List ℕ))
    → IsCall coeff input output
    → result ≡ some (xor_pairs (apply_scalar (from_coeff coeff)) input output)
    → AddsProduct coeff input output result
AddsProduct-of_matrices coeff input output result c e =
    AddsProduct-of_pairs coeff input output result c (
      e
      ∙ ap some (
          xor_pairs_ext _ _ (λ a b. apply_scalar-eq coeff a b c.symbol) (IsCall-SameShape c)
            c.input_bytes))

-- For a 16-bit coefficient and two buffers of bytes with the same even length, the 128-bit GFNI kernel over
-- the matrices of the coefficient returns a buffer of bytes of that length whose little-endian symbols
-- are those of the output plus the coefficient times those of the input.
pub gf_mul_xor_gfni-AddsProduct :
    (coeff : ℕ) (input output : List ℕ)
    → IsCall coeff input output
    → AddsProduct coeff input output (gf_mul_xor_gfni (from_coeff coeff) input output)
gf_mul_xor_gfni-AddsProduct coeff input output c =
    AddsProduct-of_matrices coeff input output _ c
      (gfni-eq (from_coeff coeff) input output c.lengths c.even c.input_bytes)

-- For a 16-bit coefficient and two buffers of bytes with the same even length, the 512-bit GFNI kernel over
-- the matrices of the coefficient returns a buffer of bytes of that length whose little-endian symbols
-- are those of the output plus the coefficient times those of the input.
pub gf_mul_xor_gfni_avx512-AddsProduct :
    (coeff : ℕ) (input output : List ℕ)
    → IsCall coeff input output
    → AddsProduct coeff input output (gf_mul_xor_gfni_avx512 (from_coeff coeff) input output)
gf_mul_xor_gfni_avx512-AddsProduct coeff input output c =
    AddsProduct-of_matrices coeff input output _ c
      (gfni_avx512-eq (from_coeff coeff) input output c.lengths c.even c.input_bytes)
