-- ===== src/GaloisSimd/X86.antt =====
-- src/galois_simd.rs: the SSSE3 and AVX2 kernels. In both, a chunk is two vectors; within each 128-bit
-- lane the low bytes and the high bytes of the symbols are gathered, looked up by nibbles, and put back.
pub mod Steps
pub mod Kernels
use par2rust.Base.{ℕ, ◌+◌, ◌/◌, ◌%◌, List, [], ◌∷◌, ◌++◌, length, some, ◌==◌}
use par2rust.Base.Checked.{Checked, ◌>>=◌, ◌>>◌, assert}
use par2rust.Galois.{Table}
use par2rust.Buffer.{same_shape}
use par2rust.GaloisSimd.{NibbleTables, gf_mul_xor_table_scalar_from_x86_tables}
use par2rust.GaloisSimd.Vectors.{
  Vector, loadu, stored, set1, setr, xor, and, broadcast, shuffle_epi8, unpacklo_epi64,
  unpacklo_epi8, unpackhi_epi8, srli_epi16,
}
use par2rust.GaloisSimd.Wide.{wide_loop}

-- A load of a whole table of 16 bytes.
unfoldable pub load_table : Table → Vector
load_table t = λ i. t (i % 16)

-- The indices of the even and of the odd bytes; the rest of a lane is 0.
abbrev pub lo_idx : Vector
lo_idx = broadcast (
    setr (
      0 ∷ 2 ∷ 4 ∷ 6 ∷ 8 ∷ 10 ∷ 12 ∷ 14 ∷ 0xff ∷ 0xff ∷ 0xff ∷ 0xff ∷ 0xff ∷ 0xff ∷ 0xff ∷ 0xff
      ∷ []))

abbrev pub hi_idx : Vector
hi_idx = broadcast (
    setr (
      1 ∷ 3 ∷ 5 ∷ 7 ∷ 9 ∷ 11 ∷ 13 ∷ 15 ∷ 0xff ∷ 0xff ∷ 0xff ∷ 0xff ∷ 0xff ∷ 0xff ∷ 0xff ∷ 0xff
      ∷ []))

unfoldable pub gathered : Vector → Vector → Vector → Vector
gathered idx v0 v1 = unpacklo_epi64 (shuffle_epi8 v0 idx) (shuffle_epi8 v1 idx)

-- One byte of the products, from the tables for the nibbles of the low and of the high bytes.
unfoldable pub products : Vector → Vector → Vector → Vector → Vector → Vector → Vector
products t_lo t_lo_n16 t_hi t_hi_n16 low_bytes high_bytes =
    let mask_lo = set1 0x0f in
    let low_lo_nib = and low_bytes mask_lo in
    let low_hi_nib = and (srli_epi16 low_bytes 4) mask_lo in
    let high_lo_nib = and high_bytes mask_lo in
    let high_hi_nib = and (srli_epi16 high_bytes 4) mask_lo in
    xor (xor (shuffle_epi8 t_lo low_lo_nib) (shuffle_epi8 t_lo_n16 low_hi_nib))
      (xor (shuffle_epi8 t_hi high_lo_nib) (shuffle_epi8 t_hi_n16 high_hi_nib))

unfoldable pub ssse3_step : NibbleTables → List ℕ → List ℕ → List ℕ
ssse3_step t input output =
    let v0 = loadu input 0 in
    let v1 = loadu input 16 in
    let low_bytes = gathered lo_idx v0 v1 in
    let high_bytes = gathered hi_idx v0 v1 in
    let prod_lo_byte =
      products (load_table t.lo_lo) (load_table t.lo_lo_n16) (load_table t.hi_lo)
        (load_table t.hi_lo_n16) low_bytes high_bytes in
    let prod_hi_byte =
      products (load_table t.lo_hi) (load_table t.lo_hi_n16) (load_table t.hi_hi)
        (load_table t.hi_hi_n16) low_bytes high_bytes in
    let out_v0 = unpacklo_epi8 prod_lo_byte prod_hi_byte in
    let out_v1 = unpackhi_epi8 prod_lo_byte prod_hi_byte in
    stored 16 (xor (loadu output 0) out_v0) ++ stored 16 (xor (loadu output 16) out_v1)

unfoldable pub gf_mul_xor_ssse3 : NibbleTables → List ℕ → List ℕ → Checked (List ℕ)
gf_mul_xor_ssse3 t input output = do
  assert (same_shape input output)
  wide_loop 32 (ssse3_step t) (λ i o. some (gf_mul_xor_table_scalar_from_x86_tables t i o))
      (length input / 32) input output

unfoldable pub avx2_step : NibbleTables → List ℕ → List ℕ → List ℕ
avx2_step t input output =
    let v0 = loadu input 0 in
    let v1 = loadu input 32 in
    let low_bytes = gathered lo_idx v0 v1 in
    let high_bytes = gathered hi_idx v0 v1 in
    let t_lo_lo = broadcast (load_table t.lo_lo) in
    let t_lo_hi = broadcast (load_table t.lo_hi) in
    let t_lo_lo_n16 = broadcast (load_table t.lo_lo_n16) in
    let t_lo_hi_n16 = broadcast (load_table t.lo_hi_n16) in
    let t_hi_lo = broadcast (load_table t.hi_lo) in
    let t_hi_hi = broadcast (load_table t.hi_hi) in
    let t_hi_lo_n16 = broadcast (load_table t.hi_lo_n16) in
    let t_hi_hi_n16 = broadcast (load_table t.hi_hi_n16) in
    let prod_lo_byte = products t_lo_lo t_lo_lo_n16 t_hi_lo t_hi_lo_n16 low_bytes high_bytes in
    let prod_hi_byte = products t_lo_hi t_lo_hi_n16 t_hi_hi t_hi_hi_n16 low_bytes high_bytes in
    let out_v0 = unpacklo_epi8 prod_lo_byte prod_hi_byte in
    let out_v1 = unpackhi_epi8 prod_lo_byte prod_hi_byte in
    stored 32 (xor (loadu output 0) out_v0) ++ stored 32 (xor (loadu output 32) out_v1)

-- What is left is the narrower kernel's.
unfoldable pub gf_mul_xor_avx2 : NibbleTables → List ℕ → List ℕ → Checked (List ℕ)
gf_mul_xor_avx2 t input output = do
  assert (same_shape input output)
  wide_loop 64 (avx2_step t) (gf_mul_xor_ssse3 t) (length input / 64) input output
