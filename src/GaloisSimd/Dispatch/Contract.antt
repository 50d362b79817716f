-- ===== src/GaloisSimd/Dispatch/Contract.antt =====
-- Whatever the machine selects meets the contract of a kernel.
use par2rust.Base.{ℕ, ◌≡◌, sym, ap, subst, List, some, Bool-cases, inl, inr, ==→eq, ◌==◌}
use par2rust.Buffer.Symbols.{
  IsCall, IsCall-SameShape, AddsProduct, AddsProduct-of_pairs, AddsProduct-unique, xor_pairs-zero,
  xor_pairs-one,
}
use par2rust.ReedSolomon.Scalar.{gf_mul_xor_scalar-AddsProduct}
use par2rust.GaloisSimd.ByteTables.{gf_mul_xor_table_scalar-AddsProduct}
use par2rust.GaloisSimd.X86.Kernels.{gf_mul_xor_ssse3-AddsProduct, gf_mul_xor_avx2-AddsProduct}
use par2rust.GaloisSimd.Neon.{gf_mul_xor_neon-AddsProduct}
use par2rust.GaloisSimd.Gfni.Kernels.{
  gf_mul_xor_gfni-AddsProduct, gf_mul_xor_gfni_avx512-AddsProduct,
}
use par2rust.GaloisSimd.Dispatch.{
  Dispatch, scalar, table_scalar, neon, ssse3, avx2, gfni, gfni_avx512, tables_of, new,
  gf_mul_xor_with_tables, gf_mul_xor_dispatch,
}

tables_of-AddsProduct :
    (dispatch : Dispatch) (coeff : ℕ) (input output : List ℕ)
    → IsCall coeff input output
    → AddsProduct coeff input output
        (gf_mul_xor_with_tables (tables_of dispatch coeff) input output)
unfolding gf_mul_xor_with_tables tables_of
tables_of-AddsProduct scalar = gf_mul_xor_scalar-AddsProduct
tables_of-AddsProduct table_scalar = gf_mul_xor_table_scalar-AddsProduct
tables_of-AddsProduct neon = gf_mul_xor_neon-AddsProduct
tables_of-AddsProduct ssse3 = gf_mul_xor_ssse3-AddsProduct
tables_of-AddsProduct avx2 = gf_mul_xor_avx2-AddsProduct
tables_of-AddsProduct gfni = gf_mul_xor_gfni-AddsProduct
tables_of-AddsProduct gfni_avx512 = gf_mul_xor_gfni_avx512-AddsProduct

zero-AddsProduct :
    (dispatch : Dispatch) (input output : List ℕ)
    → IsCall 0 input output
    → AddsProduct 0 input output (gf_mul_xor_dispatch dispatch 0 input output)
unfolding gf_mul_xor_dispatch new gf_mul_xor_with_tables
zero-AddsProduct dispatch input output c =
    AddsProduct-of_pairs 0 input output _ c (ap some (sym (xor_pairs-zero (IsCall-SameShape c))))

one-AddsProduct :
    (dispatch : Dispatch) (input output : List ℕ)
    → IsCall 1 input output
    → AddsProduct 1 input output (gf_mul_xor_dispatch dispatch 1 input output)
unfolding gf_mul_xor_dispatch new gf_mul_xor_with_tables
one-AddsProduct dispatch input output c =
    AddsProduct-of_pairs 1 input output _ c
      (ap some (sym (xor_pairs-one (IsCall-SameShape c) c.input_bytes)))

abbrev Holds : Dispatch → List ℕ → List ℕ → ℕ → Type 0
Holds dispatch input output coeff =
    IsCall coeff input output
    → AddsProduct coeff input output (gf_mul_xor_dispatch dispatch coeff input output)

-- For each way to multiply that a machine can select, a 16-bit coefficient and two buffers of bytes with
-- the same even length, the call with the tables of the coefficient returns a buffer of bytes of that
-- length whose little-endian symbols are those of the output plus the coefficient times those of the input.
pub gf_mul_xor_dispatch-AddsProduct :
    (dispatch : Dispatch) (coeff : ℕ) (input output : List ℕ)
    → IsCall coeff input output
    → AddsProduct coeff input output (gf_mul_xor_dispatch dispatch coeff input output)
unfolding gf_mul_xor_dispatch new
gf_mul_xor_dispatch-AddsProduct dispatch coeff input output c = elim (Bool-cases (coeff == 0)) [
  | inl z ↦
      subst (Holds dispatch input output) (sym (==→eq coeff 0 z))
        (zero-AddsProduct dispatch input output) c
  | inr above ↦ elim (Bool-cases (coeff == 1)) [
    | inl o ↦
        subst (Holds dispatch input output) (sym (==→eq coeff 1 o))
          (one-AddsProduct dispatch input output) c
    | inr two ↦ rw (above, two) (tables_of-AddsProduct dispatch coeff input output c)
  ]
]

-- For a 16-bit coefficient and two buffers of bytes with the same even length, any two ways to multiply
-- that machines can select return the same bytes.
pub gf_mul_xor_dispatch_agrees :
    (d e : Dispatch) (coeff : ℕ) (input output : List ℕ)
    → IsCall coeff input output
    → gf_mul_xor_dispatch d coeff input output ≡ gf_mul_xor_dispatch e coeff input output
gf_mul_xor_dispatch_agrees d e coeff input output c =
    AddsProduct-unique coeff input output _ _ c
      (gf_mul_xor_dispatch-AddsProduct d coeff input output c)
      (gf_mul_xor_dispatch-AddsProduct e coeff input output c)
