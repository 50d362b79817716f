-- ===== src/GaloisSimd/Neon.antt =====
-- src/galois_simd.rs: the NEON kernel. Its loads and stores take the low and the high bytes of 16 symbols
-- apart and put them back.
use mathlib.Core.Path.{fun_ext}
use par2rust.Base.{
  ℕ, ◌+◌, ◌*◌, ◌/◌, ◌%◌, ◌^◌, ◌<◌, ◌≤◌, ◌≡◌, refl, arith, List, length, take, bit_xor, ltb, true,
  some,
}
use par2rust.Base.Bits.{and_mask}
use par2rust.Base.Checked.{Checked, ◌>>◌, assert}
use par2rust.Galois.{Table}
use par2rust.Buffer.{IsBytes, same_shape, xor_pairs}
use par2rust.Buffer.Symbols.{IsCall, AddsProduct}
use par2rust.ReedSolomon.Scalar.{same_shape-true}
use par2rust.GaloisSimd.{
  NibbleTables, nibble_body, coeff_tables, from_coeff_tables,
  gf_mul_xor_table_scalar_from_neon_tables,
}
use par2rust.GaloisSimd.Nibbles.{AddsProduct-of_nibbles, neon_tail-eq}
use par2rust.GaloisSimd.Vectors.{
  Vector, byte_at, stored, stored_from, set1, xor, and, vqtbl1q, vshrq_n, vld2q, vst2q,
}
use par2rust.GaloisSimd.Wide.{wide_loop, wide_loop-eq, byte_at-lt, take-eq-stored}
use par2rust.GaloisSimd.X86.{load_table}
use par2rust.GaloisSimd.X86.Steps.{by_nibbles, nibble_body-by_nibbles}

unfoldable pub neon_products : Vector → Vector → Vector → Vector → Vector → Vector → Vector
neon_products t_lo t_lo_n16 t_hi t_hi_n16 low_bytes high_bytes =
    let mask_low_nibble = set1 0x0f in
    let low_lo_nib = and low_bytes mask_low_nibble in
    let low_hi_nib = vshrq_n low_bytes 4 in
    let high_lo_nib = and high_bytes mask_low_nibble in
    let high_hi_nib = vshrq_n high_bytes 4 in
    xor (xor (vqtbl1q t_lo low_lo_nib) (vqtbl1q t_lo_n16 low_hi_nib))
      (xor (vqtbl1q t_hi high_lo_nib) (vqtbl1q t_hi_n16 high_hi_nib))

unfoldable pub neon_step : NibbleTables → List ℕ → List ℕ → List ℕ
neon_step t input output =
    let pair = vld2q input 0 in
    let prod_lo_byte =
      neon_products (load_table t.lo_lo) (load_table t.lo_lo_n16) (load_table t.hi_lo)
        (load_table t.hi_lo_n16) pair.0 pair.1 in
    let prod_hi_byte =
      neon_products (load_table t.lo_hi) (load_table t.lo_hi_n16) (load_table t.hi_hi)
        (load_table t.hi_hi_n16) pair.0 pair.1 in
    let existing = vld2q output 0 in
    vst2q (xor existing.0 prod_lo_byte, xor existing.1 prod_hi_byte)

unfoldable pub gf_mul_xor_neon : NibbleTables → List ℕ → List ℕ → Checked (List ℕ)
gf_mul_xor_neon t input output = do
  assert (same_shape input output)
  wide_loop 32 (neon_step t) (gf_mul_xor_table_scalar_from_neon_tables t) (length input / 32) input
      output

looked_up :
    (t : Table) (nib : Vector)
    → ((i : ℕ) → nib i < 16)
    → vqtbl1q (load_table t) nib ≡ (λ i. t (nib i))
unfolding vqtbl1q load_table
looked_up t nib h = fun_ext λ i.
    let small = h i in
    let e : nib i % 16 ≡ nib i = omega arith in
    let f : ltb (nib i) 16 ≡ true = ground arith in rw (e, f)

low_nib : (v : Vector) → and v (set1 0x0f) ≡ (λ i. v i % 16)
unfolding and set1
low_nib v = fun_ext λ i. and_mask 4 (v i)

neon_products-eq :
    (a b c d : Table) (low high : Vector)
    → ((i : ℕ) → low i < 2 ^ 8)
    → ((i : ℕ) → high i < 2 ^ 8)
    → neon_products (load_table a) (load_table b) (load_table c) (load_table d) low high ≡ (λ i.
      bit_xor
        (bit_xor (a (low i % 16)) (b (low i / 16)))
        (bit_xor (c (high i % 16)) (d (high i / 16))))
unfolding neon_products xor vshrq_n
neon_products-eq a b c d low high p q = rw (
  low_nib low,
  low_nib high,
  looked_up a (λ i. low i % 16) (λ i. omega arith),
  looked_up b (λ i. low i / 16) (λ i. let small = p i in omega arith),
  looked_up c (λ i. high i % 16) (λ i. omega arith),
  looked_up d (λ i. high i / 16) (λ i. let small = q i in omega arith),
)

neon_step-eq :
    (t : NibbleTables) (input output : List ℕ)
    → 32 ≤ length input
    → 32 ≤ length output
    → IsBytes input
    → neon_step t input output ≡ xor_pairs (nibble_body t) (take 32 input) (take 32 output)
unfolding neon_step xor_pairs by_nibbles stored stored_from xor vld2q vst2q byte_at
neon_step-eq t input output p q bytes =
    let low = λ (i : ℕ). byte_at-lt input (0 + 2 * i) bytes in
    let high = λ (i : ℕ). byte_at-lt input (0 + 2 * i + 1) bytes in
    rw (
      nibble_body-by_nibbles t,
      take-eq-stored 32 input p,
      take-eq-stored 32 output q,
      neon_products-eq t.lo_lo t.lo_lo_n16 t.hi_lo t.hi_lo_n16 _ _ low high,
      neon_products-eq t.lo_hi t.lo_hi_n16 t.hi_hi t.hi_hi_n16 _ _ low high,
    )

neon-eq :
    (t : NibbleTables) (input output : List ℕ)
    → length input ≡ length output
    → length input % 2 ≡ 0
    → IsBytes input
    → gf_mul_xor_neon t input output ≡ some (xor_pairs (nibble_body t) input output)
unfolding gf_mul_xor_neon
neon-eq t input output same even bytes = rw (same_shape-true input output same even) (
    wide_loop-eq 32 refl (nibble_body t) (neon_step t) _ (neon_step-eq t)
      (λ i o s e b. neon_tail-eq t i o e) (length input / 32) input output (omega arith) same even
      bytes)

-- For a 16-bit coefficient and two buffers of bytes with the same even length, the NEON kernel over the
-- nibble tables of the coefficient returns a buffer of bytes of that length whose little-endian symbols
-- are those of the output plus the coefficient times those of the input.
pub gf_mul_xor_neon-AddsProduct :
    (coeff : ℕ) (input output : List ℕ)
    → IsCall coeff input output
    → AddsProduct coeff input output
        (gf_mul_xor_neon (from_coeff_tables (coeff_tables coeff)) input output)
gf_mul_xor_neon-AddsProduct coeff input output c =
    AddsProduct-of_nibbles coeff input output _ c
      (neon-eq (from_coeff_tables (coeff_tables coeff)) input output c.lengths c.even c.input_bytes)
