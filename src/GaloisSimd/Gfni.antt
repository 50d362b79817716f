-- ===== src/GaloisSimd/Gfni.antt =====
-- src/galois_simd/gfni.rs: multiplication by a coefficient as four 8 by 8 matrices over GF(2), each packed
-- into a u64, their application to a byte, and the 128-bit and 512-bit kernels that apply them to vectors.
pub mod Digits
pub mod Packing
pub mod Matrices
pub mod Kernels
use par2rust.Base.{ℕ, zero, suc, ◌+◌, ◌-◌, ◌*◌, ◌/◌, ◌%◌, ◌^◌, bit_and, bit_or, bit_xor}
use par2rust.Galois.{Table, gf_mul}
use par2rust.GaloisSimd.{fill}
use par2rust.Base.{List, [], ◌∷◌, ◌++◌, length, some}
use par2rust.Base.Checked.{Checked, ◌>>=◌, ◌>>◌, assert}
use par2rust.Buffer.{same_shape, xor_pairs}
use par2rust.GaloisSimd.Vectors.{
  Vector, loadu, stored, set1, setr, xor, broadcast, shuffle_epi8, unpacklo_epi8, unpackhi_epi8,
  permutex2var_epi64,
}
use par2rust.GaloisSimd.X86.{lo_idx, hi_idx, gathered}
use par2rust.GaloisSimd.Wide.{wide_loop}

pub record GfniTables : Type 0 where
  pub mat_ll : ℕ
  pub mat_lh : ℕ
  pub mat_hl : ℕ
  pub mat_hh : ℕ

-- `for i in 0..n { acc |= bit(i) << i; }` from 0
unfoldable pub or_bits : (ℕ → ℕ) → ℕ → ℕ
or_bits bit zero = 0
or_bits bit (suc n) = bit_or (or_bits bit n) (bit n * 2 ^ n)

unfoldable pub row_of : Table → ℕ → ℕ → ℕ → ℕ
row_of cols out_bit_base in_bit_base i =
    or_bits (λ ip. bit_and (cols (in_bit_base + ip) / 2 ^ (out_bit_base + i)) 1) 8

-- `for i in 0..n { acc |= row(i) << ((7 - i) * 8); }` from 0
unfoldable pub or_rows : (ℕ → ℕ) → ℕ → ℕ
or_rows row zero = 0
or_rows row (suc n) = bit_or (or_rows row n) (row n * 2 ^ ((7 - n) * 8))

unfoldable pub pack_block : Table → ℕ → ℕ → ℕ
pack_block cols out_bit_base in_bit_base = or_rows (row_of cols out_bit_base in_bit_base) 8

unfoldable pub columns : ℕ → Table
columns coeff = fill 16 (λ j. gf_mul coeff (2 ^ j))

unfoldable pub from_coeff : ℕ → GfniTables
from_coeff coeff = record {
  mat_ll = pack_block (columns coeff) 0 0;
  mat_lh = pack_block (columns coeff) 0 8;
  mat_hl = pack_block (columns coeff) 8 0;
  mat_hh = pack_block (columns coeff) 8 8;
}

-- `count_ones` of a number of `n` bits
unfoldable pub count_ones : ℕ → ℕ → ℕ
count_ones zero x = 0
count_ones (suc n) x = x % 2 + count_ones n (x / 2)

unfoldable pub affine_bit : ℕ → ℕ → ℕ → ℕ
affine_bit mat x i =
    let row = bit_and (mat / 2 ^ ((7 - i) * 8)) 0xff in bit_and (count_ones 8 (bit_and row x)) 1

unfoldable pub affine_apply : ℕ → ℕ → ℕ
affine_apply mat x = or_bits (affine_bit mat x) 8

unfoldable pub apply_scalar : GfniTables → ℕ → ℕ → ℕ × ℕ
apply_scalar t lo hi = (
  bit_xor (affine_apply t.mat_ll lo) (affine_apply t.mat_lh hi),
  bit_xor (affine_apply t.mat_hl lo) (affine_apply t.mat_hh hi),
)

-- `gf2p8affine_epi64_epi8::<0>`: each byte by the matrix in its quadword.
unfoldable pub gf2p8affine_epi64_epi8 : Vector → Vector → Vector
gf2p8affine_epi64_epi8 a m = λ i. affine_apply (m (i / 8)) (a i)

unfoldable pub gfni_step : GfniTables → List ℕ → List ℕ → List ℕ
gfni_step t input output =
    let v0 = loadu input 0 in
    let v1 = loadu input 16 in
    let low_bytes = gathered lo_idx v0 v1 in
    let high_bytes = gathered hi_idx v0 v1 in
    let out_lo_byte =
      xor (gf2p8affine_epi64_epi8 low_bytes (set1 t.mat_ll))
        (gf2p8affine_epi64_epi8 high_bytes (set1 t.mat_lh)) in
    let out_hi_byte =
      xor (gf2p8affine_epi64_epi8 low_bytes (set1 t.mat_hl))
        (gf2p8affine_epi64_epi8 high_bytes (set1 t.mat_hh)) in
    let out_v0 = unpacklo_epi8 out_lo_byte out_hi_byte in
    let out_v1 = unpackhi_epi8 out_lo_byte out_hi_byte in
    stored 16 (xor (loadu output 0) out_v0) ++ stored 16 (xor (loadu output 16) out_v1)

-- What is left is done symbol by symbol.
unfoldable pub gf_mul_xor_gfni : GfniTables → List ℕ → List ℕ → Checked (List ℕ)
gf_mul_xor_gfni t input output = do
  assert (same_shape input output)
  wide_loop 32 (gfni_step t) (λ i o. some (xor_pairs (apply_scalar t) i o)) (length input / 32)
      input output

abbrev pub deint_idx : Vector
deint_idx =
    broadcast (setr (0 ∷ 2 ∷ 4 ∷ 6 ∷ 8 ∷ 10 ∷ 12 ∷ 14 ∷ 1 ∷ 3 ∷ 5 ∷ 7 ∷ 9 ∷ 11 ∷ 13 ∷ 15 ∷ []))

abbrev pub inter_idx : Vector
inter_idx =
    broadcast (setr (0 ∷ 8 ∷ 1 ∷ 9 ∷ 2 ∷ 10 ∷ 3 ∷ 11 ∷ 4 ∷ 12 ∷ 5 ∷ 13 ∷ 6 ∷ 14 ∷ 7 ∷ 15 ∷ []))

abbrev pub perm_lo : Vector
perm_lo = setr (0 ∷ 2 ∷ 4 ∷ 6 ∷ 8 ∷ 10 ∷ 12 ∷ 14 ∷ [])

abbrev pub perm_hi : Vector
perm_hi = setr (1 ∷ 3 ∷ 5 ∷ 7 ∷ 9 ∷ 11 ∷ 13 ∷ 15 ∷ [])

abbrev pub perm_inter0 : Vector
perm_inter0 = setr (0 ∷ 8 ∷ 1 ∷ 9 ∷ 2 ∷ 10 ∷ 3 ∷ 11 ∷ [])

abbrev pub perm_inter1 : Vector
perm_inter1 = setr (4 ∷ 12 ∷ 5 ∷ 13 ∷ 6 ∷ 14 ∷ 7 ∷ 15 ∷ [])

unfoldable pub gfni_avx512_step : GfniTables → List ℕ → List ℕ → List ℕ
gfni_avx512_step t input output =
    let d0 = shuffle_epi8 (loadu input 0) deint_idx in
    let d1 = shuffle_epi8 (loadu input 64) deint_idx in
    let all_lows = permutex2var_epi64 d0 perm_lo d1 in
    let all_highs = permutex2var_epi64 d0 perm_hi d1 in
    let out_lo =
      xor (gf2p8affine_epi64_epi8 all_lows (set1 t.mat_ll))
        (gf2p8affine_epi64_epi8 all_highs (set1 t.mat_lh)) in
    let out_hi =
      xor (gf2p8affine_epi64_epi8 all_lows (set1 t.mat_hl))
        (gf2p8affine_epi64_epi8 all_highs (set1 t.mat_hh)) in
    let mix0 = permutex2var_epi64 out_lo perm_inter0 out_hi in
    let mix1 = permutex2var_epi64 out_lo perm_inter1 out_hi in
    let r0 = shuffle_epi8 mix0 inter_idx in
    let r1 = shuffle_epi8 mix1 inter_idx in
    stored 64 (xor (loadu output 0) r0) ++ stored 64 (xor (loadu output 64) r1)

unfoldable pub gf_mul_xor_gfni_avx512 : GfniTables → List ℕ → List ℕ → Checked (List ℕ)
gf_mul_xor_gfni_avx512 t input output = do
  assert (same_shape input output)
  wide_loop 128 (gfni_avx512_step t) (gf_mul_xor_gfni t) (length input / 128) input output
