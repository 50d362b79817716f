-- ===== src/GaloisSimd.antt =====
-- src/galois_simd.rs: the tables that each way to multiply builds for a coefficient, and the loops over
-- symbols that read them: the byte tables, the nibble tables of the NEON and x86 kernels with the loops
-- that finish their buffers.
pub mod ByteTables
pub mod Nibbles
pub mod Vectors
pub mod Wide
pub mod X86
pub mod Neon
pub mod Gfni
pub mod Dispatch
use par2rust.Base.{
  ℕ, zero, suc, ◌+◌, ◌*◌, ◌/◌, ◌%◌, ◌^◌, List, bit_and, bit_xor, length, ◌==◌, Option, some, none,
}
use par2rust.Base.Checked.{Checked, ◌>>=◌, ◌>>◌, assert}
use par2rust.Galois.{Table, write, gf_mul}
use par2rust.Buffer.{same_shape, xor_pairs}

-- `for i in 0..n { table[i] = f(i); }` on a table of zeros
unfoldable pub fill : ℕ → (ℕ → ℕ) → Table
fill zero f = λ _. 0
fill (suc n) f = write (fill n f) n (f n)

pub record CoeffTables : Type 0 where
  pub lo : Table
  pub hi : Table

unfoldable pub coeff_tables : ℕ → CoeffTables
coeff_tables coeff = record {
  lo = fill 256 (λ s. gf_mul coeff s);
  hi = fill 256 (λ s. gf_mul coeff (s * 2 ^ 8 % 2 ^ 16));
}

unfoldable pub table_body : CoeffTables → ℕ → ℕ → ℕ × ℕ
table_body tables a b =
    let prod = bit_xor (tables.lo a) (tables.hi b) in (prod % 2 ^ 8, prod / 2 ^ 8 % 2 ^ 8)

unfoldable pub gf_mul_xor_table_scalar : CoeffTables → List ℕ → List ℕ → Checked (List ℕ)
gf_mul_xor_table_scalar tables input output = do
  assert (same_shape input output)
  some (xor_pairs (table_body tables) input output)

-- `NeonTables`, and `X86Tables` with the same fields.
pub record NibbleTables : Type 0 where
  pub lo_lo : Table
  pub lo_hi : Table
  pub lo_lo_n16 : Table
  pub lo_hi_n16 : Table
  pub hi_lo : Table
  pub hi_hi : Table
  pub hi_lo_n16 : Table
  pub hi_hi_n16 : Table

unfoldable pub from_coeff_tables : CoeffTables → NibbleTables
from_coeff_tables t = record {
  lo_lo = fill 16 (λ n. t.lo n % 2 ^ 8);
  lo_hi = fill 16 (λ n. t.lo n / 2 ^ 8 % 2 ^ 8);
  lo_lo_n16 = fill 16 (λ n. t.lo (n * 2 ^ 4) % 2 ^ 8);
  lo_hi_n16 = fill 16 (λ n. t.lo (n * 2 ^ 4) / 2 ^ 8 % 2 ^ 8);
  hi_lo = fill 16 (λ n. t.hi n % 2 ^ 8);
  hi_hi = fill 16 (λ n. t.hi n / 2 ^ 8 % 2 ^ 8);
  hi_lo_n16 = fill 16 (λ n. t.hi (n * 2 ^ 4) % 2 ^ 8);
  hi_hi_n16 = fill 16 (λ n. t.hi (n * 2 ^ 4) / 2 ^ 8 % 2 ^ 8);
}

-- The bodies of `gf_mul_xor_table_scalar_from_neon_tables` and `…_from_x86_tables`.
unfoldable pub nibble_body : NibbleTables → ℕ → ℕ → ℕ × ℕ
nibble_body nt lb hb =
    let lb_lo = bit_and lb 0xf in
    let lb_hi = lb / 2 ^ 4 in
    let hb_lo = bit_and hb 0xf in
    let hb_hi = hb / 2 ^ 4 in
    (
      bit_xor (bit_xor (bit_xor (nt.lo_lo lb_lo) (nt.lo_lo_n16 lb_hi)) (nt.hi_lo hb_lo))
          (nt.hi_lo_n16 hb_hi),
      bit_xor (bit_xor (bit_xor (nt.lo_hi lb_lo) (nt.lo_hi_n16 lb_hi)) (nt.hi_hi hb_lo))
          (nt.hi_hi_n16 hb_hi),
    )

unfoldable pub gf_mul_xor_table_scalar_from_neon_tables :
    NibbleTables → List ℕ → List ℕ → Checked (List ℕ)
gf_mul_xor_table_scalar_from_neon_tables nt input output = do
  assert (length input % 2 == 0)
  some (xor_pairs (nibble_body nt) input output)

unfoldable pub gf_mul_xor_table_scalar_from_x86_tables : NibbleTables → List ℕ → List ℕ → List ℕ
gf_mul_xor_table_scalar_from_x86_tables nt input output = xor_pairs (nibble_body nt) input output
